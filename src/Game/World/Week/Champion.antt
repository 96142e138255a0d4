-- ===== src/Game/World/Week/Champion.antt =====
-- Who wins a faction week.
use mathlib.Core.Path.{subst}
use text.Mathlib.Text.{◌==◌ as text_eq}
use text.Mathlib.TextEquality.{eq_iff}
use neongrid.Base.{
  All, Bool, Bool-cases, String, ap, arith, false, if-both, if◌then◌else◌, inl, inr, refl, sym,
  true, ◌&&◌, ◌||◌, ◌↔◌, ◌∙◌, ◌≡◌, ◌≢◌, ◌⊎◌,
}
use neongrid.Base.Int.{eqb_ℤ, ltb_ℤ, pos, ℤ, ◌<ℤ◌}
use neongrid.Base.Map.{Map}
use neongrid.Game.Data.{faction_chrome, faction_ghostline, faction_nomad}
use neongrid.Game.World.Week.{
  Race, champion_of, crowned, faction_order, race, race_from, race_start, race_step, score_of,
}

-- What a round does to each variable of the loop.
module _ (f : String) (s : ℤ) (r : Race) where
  next_winner : (race_step f s r).winner ≡ (if ltb_ℤ r.best s then f else r.winner)
  unfolding race_step
  next_winner = elim (Bool-cases (ltb_ℤ r.best s)) [
    | inl more ↦ rw more refl
    | inr less ↦ rw less (if-both (λ (q : Race). q.winner ≡ r.winner) _ _ _ refl refl)
  ]

  next_best : (race_step f s r).best ≡ (if ltb_ℤ r.best s then s else r.best)
  unfolding race_step
  next_best = elim (Bool-cases (ltb_ℤ r.best s)) [
    | inl more ↦ rw more refl
    | inr less ↦ rw less (if-both (λ (q : Race). q.best ≡ r.best) _ _ _ refl refl)
  ]

  next_tied :
      (race_step f s r).tied
      ≡ (if ltb_ℤ r.best s then false else (eqb_ℤ s r.best && ltb_ℤ (pos 0) s) || r.tied)
  unfolding race_step
  next_tied = elim (Bool-cases (ltb_ℤ r.best s)) [
    | inl more ↦ rw more refl
    | inr less ↦ rw less (drawn (eqb_ℤ s r.best && ltb_ℤ (pos 0) s))
  ]
    where
      drawn : (b : Bool) → (if b then record r { tied = true } else r).tied ≡ (b || r.tied)
      drawn true = refl
      drawn false = refl

-- The same for the whole loop, from the scores of the factions in its order.
abbrev best_of : ℤ → ℤ → ℤ
best_of best s = if ltb_ℤ best s then s else best

abbrev winner_of : ℤ → String → ℤ → String → String
winner_of best f s winner = if ltb_ℤ best s then f else winner

abbrev tied_of : ℤ → ℤ → Bool → Bool
tied_of best s tied = if ltb_ℤ best s then false else (eqb_ℤ s best && ltb_ℤ (pos 0) s) || tied

champion3 : String → String → String → ℤ → ℤ → ℤ → String
champion3 f g h a b c =
    if eqb_ℤ (best_of (best_of (best_of (pos 0) a) b) c) (pos 0)
      || tied_of (best_of (best_of (pos 0) a) b) c
          (tied_of (best_of (pos 0) a) b (tied_of (pos 0) a false))
    then ""
    else winner_of (best_of (best_of (pos 0) a) b) h c
        (winner_of (best_of (pos 0) a) g b (winner_of (pos 0) f a ""))

module _ (f g h : String) (a b c : ℤ) (fg : f ≢ g) (gh : g ≢ h) (fh : f ≢ h) (some_f : "" ≢ f)
    (some_g : "" ≢ g) (some_h : "" ≢ h) where
  first_wins : (champion3 f g h a b c ≡ f) ↔ (
      (pos 0 <ℤ a)
      × (((f ≡ f) ⊎ (a <ℤ a)) × (((g ≡ f) ⊎ (b <ℤ a)) × (((h ≡ f) ⊎ (c <ℤ a)) × Unit {0}))))
  unfolding champion3
  first_wins = ground arith

  second_wins : (champion3 f g h a b c ≡ g) ↔ (
      (pos 0 <ℤ b)
      × (((f ≡ g) ⊎ (a <ℤ b)) × (((g ≡ g) ⊎ (b <ℤ b)) × (((h ≡ g) ⊎ (c <ℤ b)) × Unit {0}))))
  unfolding champion3
  second_wins = ground arith

  third_wins : (champion3 f g h a b c ≡ h) ↔ (
      (pos 0 <ℤ c)
      × (((f ≡ h) ⊎ (a <ℤ c)) × (((g ≡ h) ⊎ (b <ℤ c)) × (((h ≡ h) ⊎ (c <ℤ c)) × Unit {0}))))
  unfolding champion3
  third_wins = ground arith

-- The loop over the three factions, in these terms.
champion_of-champion3 :
    (scores : Map ℤ)
    → champion_of scores
      ≡ champion3 faction_ghostline faction_chrome faction_nomad
          (score_of scores faction_ghostline)
          (score_of scores faction_chrome)
          (score_of scores faction_nomad)
unfolding champion_of race race_from crowned champion3
champion_of-champion3 scores =
    let a = score_of scores faction_ghostline in
    let b = score_of scores faction_chrome in
    let c = score_of scores faction_nomad in
    let r1 = race_step faction_ghostline a race_start in
    let r2 = race_step faction_chrome b r1 in
    let b1 = next_best faction_ghostline a race_start in
    let b2 = next_best faction_chrome b r1 ∙ ap (λ x. best_of x b) b1 in
    let b3 = next_best faction_nomad c r2 ∙ ap (λ x. best_of x c) b2 in
    let t1 = next_tied faction_ghostline a race_start in
    let t2 : r2.tied ≡ tied_of (best_of (pos 0) a) b (tied_of (pos 0) a false) =
      next_tied faction_chrome b r1 ∙ both (λ x t. tied_of x b t) b1 t1 in
    let t3 = next_tied faction_nomad c r2 ∙ both (λ x t. tied_of x c t) b2 t2 in
    let w1 = next_winner faction_ghostline a race_start in
    let w2 = next_winner faction_chrome b r1 ∙ both (λ x w. winner_of x faction_chrome b w) b1 w1 in
    let w3 = next_winner faction_nomad c r2 ∙ both (λ x w. winner_of x faction_nomad c w) b2 w2 in
    both (λ (t : Bool) (w : String). if t then "" else w) (both (λ x t. eqb_ℤ x (pos 0) || t) b3 t3)
      w3
  where
    both :
        {A B C : Type 0} (f : A → B → C) {x x' : A} {y y' : B} → x ≡ x' → y ≡ y' → f x y ≡ f x' y'
    both f {x' = x'} {y = y} h k = ap (λ z. f z y) h ∙ ap (f x') k

texts_differ : (s t : String) → text_eq s t ≡ false → s ≢ t
texts_differ s t other same = ground (arith, eq_iff s t, other, same)

-- The faction has scored, and more than every other one.
abbrev pub IsBest : Map ℤ → String → Type 0
IsBest scores f =
    (pos 0 <ℤ score_of scores f)
    × All (λ g. (g ≡ f) ⊎ (score_of scores g <ℤ score_of scores f)) faction_order

-- Of each faction: it is the champion of the scores just where it has scored and every other faction
-- has scored less.
pub champion_of-IsBest :
    (scores : Map ℤ) → All (λ f. (champion_of scores ≡ f) ↔ IsBest scores f) faction_order
champion_of-IsBest scores =
    let same = sym (champion_of-champion3 scores) in
    (
      subst (λ w. (w ≡ faction_ghostline) ↔ IsBest scores faction_ghostline) same
          (first_wins _ _ _ _ _ _ (texts_differ _ _ refl) (texts_differ _ _ refl)
            (texts_differ _ _ refl) (texts_differ _ _ refl) (texts_differ _ _ refl)
            (texts_differ _ _ refl)),
      (
        subst (λ w. (w ≡ faction_chrome) ↔ IsBest scores faction_chrome) same
            (second_wins _ _ _ _ _ _ (texts_differ _ _ refl) (texts_differ _ _ refl)
              (texts_differ _ _ refl) (texts_differ _ _ refl) (texts_differ _ _ refl)
              (texts_differ _ _ refl)),
        (
          subst (λ w. (w ≡ faction_nomad) ↔ IsBest scores faction_nomad) same
              (third_wins _ _ _ _ _ _ (texts_differ _ _ refl) (texts_differ _ _ refl)
                (texts_differ _ _ refl) (texts_differ _ _ refl) (texts_differ _ _ refl)
                (texts_differ _ _ refl)),
          tt,
        ),
      ),
    )
