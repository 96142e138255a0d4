-- ===== src/Storage/Merge.antt =====
-- What a merge keeps of the guest and of the account.
use mathlib.Core.Path.{subst}
use text.Mathlib.Text.{◌==◌ as text_eq}
use text.Mathlib.TextEquality.{eq_iff}
use text.Mathlib.TextPositions.{eq_refl}
use neongrid.Base.{
  Bool-cases, List, String, [], arith, false, if◌then◌else◌, inl, inr, not, refl, sym, true, ◌&&◌,
  ◌++◌, ◌||◌, ◌∷◌, ◌≡◌,
}
use neongrid.Game.Data.{Player}
use neongrid.Storage.{append_unique, is_among, is_further, merge}

any-append :
    (v : String) (xs ys : List String) → is_among v (xs ++ ys) ≡ (is_among v xs || is_among v ys)
any-append v [] ys = refl
any-append v (x ∷ xs) ys = ground (arith, any-append v xs ys)

append_unique-keeps :
    (v : String) (values additions : List String)
    → is_among v values ≡ true
    → is_among v (append_unique values additions) ≡ true
unfolding append_unique
append_unique-keeps v values [] h = h
append_unique-keeps v values (a ∷ more) h =
    append_unique-keeps v
      (if not (is_among a values) && not (text_eq a "") then values ++ a ∷ [] else values) more
      (ground (arith, any-append v values (a ∷ [])))

append_unique-adds :
    (v : String) (values additions : List String)
    → text_eq v "" ≡ false
    → is_among v additions ≡ true
    → is_among v (append_unique values additions) ≡ true
unfolding append_unique
append_unique-adds v values [] named h = absurd (cc)
append_unique-adds v values (a ∷ more) named h =
    let next = if not (is_among a values) && not (text_eq a "") then values ++ a ∷ [] else values in
    elim (Bool-cases (text_eq a v)) [
      | inl same ↦ append_unique-keeps v next more (entered v a values named same)
      | inr other ↦ append_unique-adds v next more named (ground arith)
    ]
  where
    entered :
        (v a : String) (values : List String)
        → text_eq v "" ≡ false
        → text_eq a v ≡ true
        → is_among v
            (if not (is_among a values) && not (text_eq a "") then values ++ a ∷ [] else values)
          ≡ true
    entered v a values named same =
        subst
          (λ b.
            is_among v
              (if not (is_among b values) && not (text_eq b "") then values ++ b ∷ [] else values)
            ≡ true)
          (sym ((eq_iff a v).0 same)) (ground (arith, any-append v values (v ∷ []), eq_refl v))

-- A merged runner ranks below neither the guest nor the account.
pub merge_ranks :
    (guest account : Player)
    → (is_further guest (merge guest account) ≡ false)
      × (is_further account (merge guest account) ≡ false)
unfolding merge is_further
merge_ranks guest account = ground arith

-- A merged runner has every title of the account, and every one of the guest that is not empty.
pub merge-titles :
    (guest account : Player) (t : String)
    → (is_among t account.titles || (is_among t guest.titles && not (text_eq t ""))) ≡ true
    → is_among t (merge guest account).titles ≡ true
unfolding merge
merge-titles guest account t h = elim (Bool-cases (is_among t account.titles)) [
  | inl mine ↦ append_unique-keeps t account.titles guest.titles mine
  | inr other ↦
      let named : text_eq t "" ≡ false = ground arith in
      append_unique-adds t account.titles guest.titles named (ground arith)
]
