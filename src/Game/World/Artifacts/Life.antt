-- ===== src/Game/World/Artifacts/Life.antt =====
-- How long artifacts live: what burns out, what is fitted, and what a salvage run brings.
use mathlib.Core.Path.{subst}
use text.Mathlib.Text.{◌==◌ as text_eq}
use text.Mathlib.TextPositions.{eq_refl}
use neongrid.Base.{
  All, Bool, List, Option, String, [], ap, arith, false, if-both, if◌then◌else◌, none, refl, some,
  sym, true, true-not, ℕ, ◌<◌, ◌^◌, ◌∙◌, ◌∷◌, ◌≡◌,
}
use neongrid.Base.Int.{leb_ℤ, neg_part, negsuc, pos, pos_part, ℤ, ◌⊕◌}
use neongrid.Base.Map.{get, get-put}
use neongrid.Game.Data.{Item, Player, equipment_slots}
use neongrid.Game.Engine.Action.{Engine, intn}
use neongrid.Game.Engine.Gives.{
  Gives, Gives-bind, Gives-if, Gives-ok, Gives-pure, Gives-split, Gives-step, Gives-weaken,
  intn-Gives,
}
use neongrid.Game.Rating.{gear_tier, no_item}
use neongrid.Game.Repository.{Repository, ok}
use neongrid.Game.World.Artifacts.{
  RareItem, burn_each, burn_out_uniques, claim_first, equip, fit_artifact, found_unique, is_burning,
  item_at, rare_loot, retire_unique, standard_gear, unique_life_levels,
}
use neongrid.Game.World.Gives.{set_user-Gives, update_titles_locked-Gives}

-- No slot of these holds an artifact that has reached its last level.
abbrev pub AllCool : Player → List String → Type 0
AllCool p = All (λ slot. is_burning p (item_at p slot) ≡ false)

-- `q` stands at the level of `p`, and no slot that was cool burns.
pub record Cooler (p q : Player) : Type 0 where
  pub level : q.level ≡ p.level
  pub kept :
      (slot : String)
      → is_burning p (item_at p slot) ≡ false
      → is_burning q (item_at q slot) ≡ false

Cooler-refl : (p : Player) → Cooler p p
Cooler-refl p = record { level = refl; kept = λ slot h. h }

Cooler-trans : (p q r : Player) → Cooler p q → Cooler q r → Cooler p r
Cooler-trans p q r h k = record {
  level = k.level ∙ h.level;
  kept = λ slot c. k.kept slot (h.kept slot c);
}

Cooler-all : (p q : Player) (slots : List String) → Cooler p q → AllCool p slots → AllCool q slots
Cooler-all p q [] h c = tt
Cooler-all p q (slot ∷ slots) h (c, cs) = (h.kept slot c, Cooler-all p q slots h cs)

-- What stands in a slot after an item has been put in one.
pub item_at-equip :
    (slot s : String) (item : Item) (p : Player)
    → item_at (equip slot item p) s ≡ (if text_eq slot s then item else item_at p s)
item_at-equip slot s item p =
    ap (λ (o : Option Item). elim o [ none ↦ no_item | some i ↦ i ])
      (get-put slot s item p.equipment)
    ∙ value (text_eq slot s)
  where
    value :
        (b : Bool)
        → (elim (if b then some item else get s p.equipment) [ none ↦ no_item | some i ↦ i ])
          ≡ (if b then item else item_at p s)
    value true = refl
    value false = refl

Cooler-equip :
    (slot : String) (item : Item) (p : Player)
    → is_burning p item ≡ false
    → Cooler p (equip slot item p)
Cooler-equip slot item p h = record {
  level = refl;
  kept = λ s c.
      ap (is_burning p) (item_at-equip slot s item p)
      ∙ if-both (λ i. is_burning p i ≡ false) (text_eq slot s) _ _ h c;
}

standard_gear-cool :
    (p : Player) (slot : String) → is_burning p (standard_gear slot p.level) ≡ false
unfolding standard_gear
standard_gear-cool p slot = refl

fitted_cool :
    (p : Player) (slot : String)
    → let q = equip slot (standard_gear slot p.level) p in is_burning q (item_at q slot) ≡ false
unfolding standard_gear
fitted_cool p slot = ap (is_burning p) (
    item_at-equip slot slot _ p
    ∙ ap (λ b. if b then standard_gear slot p.level else item_at p slot) (eq_refl slot))

-- A level that is far from the end of the range.
abbrev pub IsLevel : ℤ → Type 0
IsLevel level = (pos_part level < 2 ^ 61) × (neg_part level < 2 ^ 61)

fresh_life :
    (level : ℤ) (n : ℕ) → IsLevel level → n < 5 → leb_ℤ (level ⊕ (pos 4 ⊕ pos n)) level ≡ false
unfolding ◌⊕◌
fresh_life (pos m) n h k = ground arith
fresh_life (negsuc m) n h k = ground arith

-- A runner that an action gives beside something else.
abbrev pub CoolBy : {A : Type 0} → Player → A × Player → Type 0
CoolBy p r = Cooler p r.1

Cooler-titles :
    (p q : Player) (titles : List String) → Cooler p q → Cooler p (record q { titles = titles })
Cooler-titles p q titles h = record { level = h.level; kept = h.kept }

Cooler-fresh :
    (p : Player) (item : Item) (slot : String)
    → is_burning p item ≡ false
    → Cooler p (found_unique (equip slot item p))
Cooler-fresh p item slot h =
    let cooler = Cooler-equip slot item p h in record { level = cooler.level; kept = cooler.kept }

not-burning :
    (p : Player) (item : Item) → leb_ℤ item.breaks_at p.level ≡ false → is_burning p item ≡ false
not-burning p item h = ground (arith, h)

module _ {R : Type 0} where
  unique_life_levels-Gives :
      Gives {R = R} (λ life. (n : ℕ) × (n < 5) × (life ≡ pos 4 ⊕ pos n)) unique_life_levels
  unfolding unique_life_levels
  unique_life_levels-Gives =
      Gives-bind (λ n. n < 5) _ (intn 5) _ (intn-Gives 4) λ n h. Gives-pure _ _ (n, h, refl)

  fit_artifact-Gives :
      (key : String) (p : Player) (c : RareItem)
      → IsLevel p.level
      → Gives {R = R} (CoolBy p) (fit_artifact key p c)
  unfolding fit_artifact
  fit_artifact-Gives key p c small =
      Gives-bind _ _ _ _ unique_life_levels-Gives λ life (n, few, is).
        let item : Item = record {
          name = c.name;
          rating = gear_tier p.level ⊕ c.bonus;
          unique = true;
          breaks_at = p.level ⊕ life;
        } in
        let cool =
          not-burning p item
            (ap (λ l. leb_ℤ (p.level ⊕ l) p.level) is ∙ fresh_life p.level n small few) in
        Gives-bind (Cooler p) _ _ _
          (set_user-Gives (Cooler p) key _ (Cooler-fresh p item c.slot cool))
          λ q h.
            Gives-bind (Cooler p) _ _ _
              (update_titles_locked-Gives (Cooler p) key q λ titles. Cooler-titles p q titles h)
              λ r k. Gives-pure _ _ k

module _ {R : Type 0} ⦃repo : Repository R⦄ where
  claim_first-Gives :
      (key : String) (p : Player) (exclude : String) (cs : List RareItem)
      → IsLevel p.level
      → Gives {R = R} (CoolBy p) (claim_first key p exclude cs)
  unfolding claim_first
  claim_first-Gives key p exclude [] small = Gives-pure _ _ (Cooler-refl p)
  claim_first-Gives key p exclude (c ∷ cs) small =
      let next = claim_first-Gives key p exclude cs small in
      Gives-if _ _ _ _ next
        (Gives-step _ _ _ λ claimed. Gives-if _ claimed _ _ (fit_artifact-Gives key p c small) next)

  rare_loot-Gives :
      (key : String) (p : Player) (exclude : String)
      → IsLevel p.level
      → Gives {R = R} (CoolBy p) (rare_loot key p exclude)
  unfolding rare_loot
  rare_loot-Gives key p exclude small = Gives-step _ _ _ λ roll.
      Gives-if _ _ _ _ (Gives-pure _ _ (Cooler-refl p))
        (Gives-step _ _ _ λ start. claim_first-Gives key p exclude _ small)

  -- The slot that is retired holds standard gear, and the others what they held.
  pub retire_unique-Gives :
      (key : String) (p : Player) (slot : String)
      → Gives {R = R}
          (λ r. r.1 ≡ equip slot (standard_gear slot p.level) p)
          (retire_unique key p slot)
  unfolding retire_unique
  retire_unique-Gives key p slot = Gives-step _ _ _ λ done.
      Gives-bind (λ q. q ≡ equip slot (standard_gear slot p.level) p) _ _ _
        (set_user-Gives (λ q. q ≡ equip slot (standard_gear slot p.level) p) key _ refl)
        λ q h. Gives-pure _ _ h

  burn_each-Gives :
      (key : String) (p : Player) (slots : List String)
      → IsLevel p.level
      → Gives {R = R} (λ r. Cooler p r.1 × AllCool r.1 slots) (burn_each key p slots)
  unfolding burn_each
  burn_each-Gives key p [] small = Gives-pure _ _ (Cooler-refl p, tt)
  burn_each-Gives key p (slot ∷ slots) small =
      Gives-split _ _ _ _
        (λ calm.
          Gives-weaken _ _ _ (burn_each-Gives key p slots small)
            λ r (cooler, cool). (cooler, (cooler.kept slot (true-not _ calm), cool)))
        λ burning. Gives-bind _ _ _ _ (retire_unique-Gives key p slot) λ (replacement, q) fitted.
          let retired =
            subst (Cooler p) (sym fitted) (Cooler-equip slot _ p (standard_gear-cool p slot)) in
          let slot_cool =
            subst (λ (x : Player). is_burning x (item_at x slot) ≡ false) (sym fitted)
              (fitted_cool p slot) in
          Gives-bind _ _ _ _ (rare_loot-Gives key q _ (subst IsLevel (sym retired.level) small))
            λ (salvage, r) looted.
              let r_level = looted.level ∙ retired.level in
              Gives-bind _ _ _ _ (burn_each-Gives key r slots (subst IsLevel (sym r_level) small))
                λ (messages, s) (burnt, cool). Gives-pure _ _ (
                  Cooler-trans p q s retired (Cooler-trans q r s looted burnt),
                  (burnt.kept slot (looted.kept slot slot_cool), cool),
                )

  -- When `burn_out_uniques` returns, the runner stands at the level it had, and in none of its slots an
  -- artifact remains that has reached its last level, whatever the salvage runs have brought. Levels
  -- stay below 2 ^ 61, so that no life wraps around.
  pub burn_out_uniques_cools :
      (key : String) (p : Player) (e : Engine R) (messages : List String) (q : Player)
      → IsLevel p.level
      → (burn_out_uniques key p e).0 ≡ ok (messages, q)
      → (q.level ≡ p.level) × All (λ slot. is_burning q (item_at q slot) ≡ false) equipment_slots
  unfolding burn_out_uniques
  burn_out_uniques_cools key p e messages q small run =
      let (cooler, cool) =
        Gives-ok (λ r. Cooler p r.1 × AllCool r.1 equipment_slots) _ e _ every run in
      (cooler.level, cool)
    where
      every :
          Gives {R = R} (λ r. Cooler p r.1 × AllCool r.1 equipment_slots) (burn_out_uniques key p)
      every =
          Gives-bind _ _ _ _ (burn_each-Gives key p equipment_slots small)
            λ (burnouts, r) h. Gives-step _ _ _ λ done. Gives-step _ _ _ λ carried. Gives-pure _ _ h
