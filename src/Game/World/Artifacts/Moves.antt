-- ===== src/Game/World/Artifacts/Moves.antt =====
-- Artifacts that change hands: those of a runner that stays away, and those that a winner takes.
use mathlib.Core.Path.{subst}
use text.Mathlib.Text.{◌==◌ as text_eq}
use text.Mathlib.TextPositions.{eq_refl}
use neongrid.Base.{
  All, Bool, Bool-cases, List, String, [], all, ap, arith, false, get_or, if◌then◌else◌, inl, inr,
  leb, length, refl, suc, sym, true, true-not, zero, ℕ, ◌<◌, ◌==◌, ◌∙◌, ◌∷◌, ◌≡◌, ◌⊎◌,
}
use neongrid.Base.Int.{
  IsInt64, add-exact, int_laws, negsuc, pos, sub-exact, ℤ, ◌+ℤ◌, ◌-ℤ◌, ◌<ℤ◌, ◌⊕◌, ◌⊖◌,
}
use neongrid.Game.Data.{Item, Player, equipment_slots}
use neongrid.Game.Engine.Action.{Engine, intn, pure, ◌>>=◌}
use neongrid.Game.Engine.Gives.{
  Gives, Gives-bind, Gives-if, Gives-ok, Gives-pure, Gives-split, Gives-step, Gives-weaken,
  intn-Gives,
}
use neongrid.Game.Rating.{max_int}
use neongrid.Game.Repository.{Repository, ok}
use neongrid.Game.World.Artifacts.{
  equip, item_at, moved_artifact, release_each, standard_gear, steal_unique, take_artifact, thief,
  unique_slots,
}
use neongrid.Game.World.Artifacts.Life.{IsLevel, item_at-equip, retire_unique-Gives}
use neongrid.Game.World.Gives.{set_user-Gives, update_titles_locked-Gives}

-- No slot of these holds an artifact.
abbrev pub AllPlain : Player → List String → Type 0
AllPlain p = All (λ slot. (item_at p slot).unique ≡ false)

-- Slots without an artifact stay so.
StaysPlain : Player → Player → Type 0
StaysPlain p q = (slot : String) → (item_at p slot).unique ≡ false → (item_at q slot).unique ≡ false

fitted_plain :
    (slot : String) (p : Player) → StaysPlain p (equip slot (standard_gear slot p.level) p)
unfolding StaysPlain standard_gear
fitted_plain slot p s plain = ap (λ i. i.unique) (item_at-equip slot s _ p) ∙ ap-if (text_eq slot s)
  where
    ap-if : (b : Bool) → (if b then standard_gear slot p.level else item_at p s).unique ≡ false
    ap-if true = refl
    ap-if false = plain

now_plain :
    (slot : String) (p : Player)
    → (item_at (equip slot (standard_gear slot p.level) p) slot).unique ≡ false
unfolding standard_gear
now_plain slot p =
    ap (λ i. i.unique)
      (item_at-equip slot slot _ p
        ∙ ap (λ b. if b then standard_gear slot p.level else item_at p slot) (eq_refl slot))

module _ {R : Type 0} ⦃repo : Repository R⦄ where
  release_each-Gives :
      (key : String) (p : Player) (slots : List String)
      → Gives {R = R} (λ r. StaysPlain p r.1 × AllPlain r.1 slots) (release_each key p slots)
  unfolding release_each StaysPlain
  release_each-Gives key p [] = Gives-pure _ _ (λ s h. h, tt)
  release_each-Gives key p (slot ∷ slots) =
      Gives-split _ _ _ _
        (λ plain.
          Gives-weaken _ _ _ (release_each-Gives key p slots)
            λ r (stays, all). (stays, (stays slot (true-not _ plain), all)))
        λ held. Gives-bind _ _ _ _ (retire_unique-Gives key p slot) λ (replacement, q) fitted.
          Gives-bind _ _ _ _ (release_each-Gives key q slots) λ (messages, r) (stays, all).
            Gives-pure _ _ (
              λ s h. stays s (
                  subst (λ (x : Player). (item_at x s).unique ≡ false) (sym fitted)
                    (fitted_plain slot p s h)),
              (
                stays slot (
                    subst (λ (x : Player). (item_at x slot).unique ≡ false) (sym fitted)
                      (now_plain slot p)),
                all,
              ),
            )

  -- When the loop over the slots of a runner that stays away returns, the runner holds no artifact.
  pub release_each_frees :
      (key : String) (p : Player) (e : Engine R) (messages : List String) (q : Player)
      → (release_each key p equipment_slots e).0 ≡ ok (messages, q)
      → All (λ slot. (item_at q slot).unique ≡ false) equipment_slots
  release_each_frees key p e messages q run =
      (Gives-ok _ _ e _ (release_each-Gives key p equipment_slots) run).1

unique_slots-held :
    (p : Player) (slots : List String)
    → All (λ slot. (item_at p slot).unique ≡ true) (unique_slots p slots)
unfolding unique_slots
unique_slots-held p [] = tt
unique_slots-held p (slot ∷ slots) = elim (Bool-cases (item_at p slot).unique) [
  | inl held ↦ rw held (held, unique_slots-held p slots)
  | inr plain ↦ rw plain (unique_slots-held p slots)
]

pub All-get_or :
    {A : Type 0} (P : A → Type 0) (xs : List A) (i : ℕ) (d : A)
    → All P xs
    → i < length xs
    → P (get_or xs i d)
All-get_or P [] i d h few = absurd (omega arith)
All-get_or P (x ∷ xs) zero d h few = h.0
All-get_or P (x ∷ xs) (suc i) d h few = All-get_or P xs i d h.1 (omega arith)

-- The artifact of a slot has gone from the loser to the winner, under its name and with its rating;
-- the loser's slot holds the standard gear of its level.
abbrev pub Moved : Player → Player → String → String → Player → Player → Type 0
Moved winner loser slot stolen winner' loser' =
    ((item_at loser slot).unique ≡ true)
    × (stolen ≡ (item_at loser slot).name)
    × (item_at winner' slot ≡ moved_artifact winner loser (item_at loser slot))
    × (loser' ≡ equip slot (standard_gear slot loser.level) loser)

-- What a theft gives back.
abbrev pub Theft : Player → Player → String × (Player × Player) → Type 0
Theft winner loser (stolen, (winner', loser')) =
    ((stolen ≡ "") × (winner' ≡ winner) × (loser' ≡ loser))
    ⊎ ((slot : String) × Moved winner loser slot stolen winner' loser')

module _ {R : Type 0} ⦃repo : Repository R⦄ where
  take_artifact-Gives :
      (winner_key : String) (winner : Player) (loser_key : String) (loser : Player) (slot : String)
      → (item_at loser slot).unique ≡ true
      → Gives {R = R} (Theft winner loser) (take_artifact winner_key winner loser_key loser slot)
  unfolding take_artifact
  take_artifact-Gives winner_key winner loser_key loser slot held =
      let moved = moved_artifact winner loser (item_at loser slot) in
      let HasIt = λ (w : Player). item_at w slot ≡ moved in
      let Lost = λ (l : Player). l ≡ equip slot (standard_gear slot loser.level) loser in
      Gives-step _ _ _ λ done.
        Gives-bind HasIt _ _ _ (set_user-Gives HasIt winner_key _ (arrived moved)) λ w has.
          Gives-bind Lost _ _ _ (set_user-Gives Lost loser_key _ refl) λ l lost.
            Gives-bind HasIt _ _ _ (update_titles_locked-Gives HasIt winner_key w λ titles. has)
              λ w' has'. Gives-pure _ _ (inr (slot, (held, refl, has', lost)))
    where
      arrived : (item : Item) → item_at (thief (equip slot item winner)) slot ≡ item
      arrived item =
          item_at-equip slot slot item winner
          ∙ ap (λ b. if b then item else item_at winner slot) (eq_refl slot)

  steal_unique-Gives :
      (winner_key : String) (winner : Player) (loser_key : String) (loser : Player)
      → Gives {R = R} (Theft winner loser) (steal_unique winner_key winner loser_key loser)
  unfolding steal_unique
  steal_unique-Gives winner_key winner loser_key loser =
      some_slot (unique_slots loser equipment_slots) (unique_slots-held loser equipment_slots)
    where
      nothing : Gives {R = R} (Theft winner loser) (pure ("", (winner, loser)))
      nothing = Gives-pure _ _ (inl (refl, refl, refl))

      some_slot :
          (slots : List String)
          → All (λ slot. (item_at loser slot).unique ≡ true) slots
          → Gives {R = R} (Theft winner loser) (
              if length slots == 0 then pure ("", (winner, loser)) else do
                roll ← intn 100
                if leb 20 roll then pure ("", (winner, loser)) else do
                  i ← intn (length slots)
                  take_artifact winner_key winner loser_key loser (get_or slots i ""))
      some_slot [] h = nothing
      some_slot (s ∷ ss) h = Gives-if _ _ _ _ nothing (
          Gives-step _ (intn 100) _ λ roll. Gives-if _ _ _ _ nothing (
            Gives-bind _ _ _ _ (intn-Gives (length ss)) λ i few.
              take_artifact-Gives winner_key winner loser_key loser _
                (All-get_or (λ slot. (item_at loser slot).unique ≡ true) (s ∷ ss) i "" h few)))

  -- When the attempt to steal returns, either nothing has changed and nothing is named, or one of the
  -- loser's artifacts, which is named, stands in the same slot of the winner and the loser has the
  -- standard gear of its level in its place.
  pub steal_unique_moves :
      (winner_key : String) (winner : Player) (loser_key : String) (loser : Player) (e : Engine R)
      (r : String × (Player × Player))
      → (steal_unique winner_key winner loser_key loser e).0 ≡ ok r
      → Theft winner loser r
  steal_unique_moves winner_key winner loser_key loser e r run =
      Gives-ok _ _ e r (steal_unique-Gives winner_key winner loser_key loser) run

diff-IsInt64 : (a b : ℤ) → IsLevel a → IsLevel b → IsInt64 (a -ℤ b)
diff-IsInt64 a b h k = grind (int_laws, h, k)

sum-IsInt64 : (w l b : ℤ) → IsLevel w → IsLevel l → IsLevel b → IsInt64 (w +ℤ (b -ℤ l))
sum-IsInt64 w l b hw hl hb = grind (int_laws, hw, hl, hb)

left_over : (d : ℤ) → pos 0 <ℤ d → max_int (pos 1) d ≡ d
unfolding max_int
left_over (pos n) h = ground arith
left_over (negsuc n) h = ground arith

ahead : (l b : ℤ) → l <ℤ b → pos 0 <ℤ b -ℤ l
ahead l b h = grind (int_laws, h)

there_and_back : (w l b : ℤ) → w +ℤ (b -ℤ l) +ℤ l ≡ b +ℤ w
there_and_back w l b = grind int_laws

remaining_life :
    (w l b : ℤ)
    → IsLevel w
    → IsLevel l
    → IsLevel b
    → l <ℤ b
    → (w ⊕ max_int (pos 1) (b ⊖ l)) +ℤ l ≡ b +ℤ w
remaining_life w l b hw hl hb left =
    ap (λ d. (w ⊕ max_int (pos 1) d) +ℤ l) (sub-exact b l (diff-IsInt64 b l hb hl))
    ∙ ap (λ d. (w ⊕ d) +ℤ l) (left_over (b -ℤ l) (ahead l b left))
    ∙ ap (λ d. d +ℤ l) (add-exact w (b -ℤ l) (sum-IsInt64 w l b hw hl hb))
    ∙ there_and_back w l b

-- A stolen artifact that had levels left has as many left with the winner. Levels stay below 2 ^ 61,
-- so that nothing wraps around.
pub moved_artifact_life :
    (winner loser : Player) (item : Item)
    → IsLevel winner.level
    → IsLevel loser.level
    → IsLevel item.breaks_at
    → loser.level <ℤ item.breaks_at
    → (moved_artifact winner loser item).breaks_at +ℤ loser.level ≡ item.breaks_at +ℤ winner.level
unfolding moved_artifact
moved_artifact_life winner loser item w l b left =
    remaining_life winner.level loser.level item.breaks_at w l b left
