-- ===== src/Base/Map.antt =====
-- Go's maps with string keys, as association lists. The order of the list stands for the order of
-- a `range` loop, which Go leaves open: what is proved for every list holds for every order.
use mathlib.Core.Path.{subst, sym}
use text.Mathlib.Text.{◌==◌ as text_eq}
use text.Mathlib.TextEquality.{eq_iff}
use text.Mathlib.TextPositions.{eq_refl}
use neongrid.Base.{
  String, List, [], ◌∷◌, Option, none, some, ◌≡◌, refl, ◌≢◌, arith, if◌then◌else◌, All, All-weaken,
  Bool-cases, ap, ◌∙◌, inl, inr,
}

abbrev pub Map {ℓ} : Type ℓ → Type ℓ
Map V = List (String × V)

module _ {ℓ} {V : Type ℓ} where
  unfoldable pub get : String → Map V → Option V
  get k [] = none
  get k ((j, v) ∷ m) = if text_eq j k then some v else get k m

  -- `m[k]` at a type whose zero value is `d`.
  abbrev pub get_default : V → String → Map V → V
  get_default d k m = elim (get k m) [ none ↦ d | some v ↦ v ]

  unfoldable pub put : String → V → Map V → Map V
  put k v [] = (k, v) ∷ []
  put k v ((j, w) ∷ m) = if text_eq j k then (j, v) ∷ m else (j, w) ∷ put k v m

  -- The keys of a map are distinct, so one entry goes.
  unfoldable pub delete : String → Map V → Map V
  delete k [] = []
  delete k ((j, w) ∷ m) = if text_eq j k then m else (j, w) ∷ delete k m

  pub get-put :
      (k j : String) (v : V) (m : Map V)
      → get j (put k v m) ≡ (if text_eq k j then some v else get j m)
  unfolding get put
  get-put k j v [] = refl
  get-put k j v ((i, w) ∷ m) = ground (arith, eq_iff k j, eq_iff i k, eq_iff i j, get-put k j v m)

  pub get-delete_ne : (k j : String) (m : Map V) → k ≢ j → get j (delete k m) ≡ get j m
  unfolding get delete
  get-delete_ne k j [] ne = refl
  get-delete_ne k j ((i, w) ∷ m) ne = ground (arith, eq_iff i k, eq_iff i j, get-delete_ne k j m ne)

  -- Every key stands once.
  abbrev pub IsMap : Map V → Type ℓ
  IsMap [] = Unit
  IsMap ((k, v) ∷ m) = (get k m ≡ none) × IsMap m

  pub put-IsMap : (k : String) (v : V) (m : Map V) → IsMap m → IsMap (put k v m)
  unfolding get put
  put-IsMap k v [] h = (refl, tt)
  put-IsMap k v ((i, w) ∷ m) h =
      ground (arith, eq_iff i k, get-put k i v m, eq_iff k i, put-IsMap k v m h.1)

  pub delete-IsMap : (k : String) (m : Map V) → IsMap m → IsMap (delete k m)
  unfolding get delete
  delete-IsMap k [] h = tt
  delete-IsMap k ((i, w) ∷ m) h =
      ground (arith, eq_iff i k, get-delete_ne k i m, delete-IsMap k m h.1)

  pub get-delete_self : (k : String) (m : Map V) → IsMap m → get k (delete k m) ≡ none
  unfolding get delete
  get-delete_self k [] h = refl
  get-delete_self k ((i, w) ∷ m) h = ground (arith, eq_iff i k, get-delete_self k m h.1)

  pub some_value : {a b : V} → some a ≡ some b → a ≡ b
  some_value e = cc

  -- A property of every entry.
  abbrev pub Each {κ} : (String → V → Type κ) → Map V → Type κ
  Each P = All (λ e. P e.0 e.1)

  pub Each-get {κ} :
      (P : String → V → Type κ) (k : String) (m : Map V) {v : V}
      → Each P m
      → get k m ≡ some v
      → P k v
  unfolding get
  Each-get P k [] h e = absurd (cc)
  Each-get P k ((i, w) ∷ m) {v} h e = elim (Bool-cases (text_eq i k)) [
    | inl same ↦
        subst (P k) (some_value (rw same at e)) (subst (λ j. P j w) ((eq_iff i k).0 same) h.0)
    | inr other ↦ Each-get P k m h.1 (rw other at e)
  ]

  -- In a map, each entry is what stands under its key.
  pub Each-self : (m : Map V) → IsMap m → All (λ y. get y.0 m ≡ some y.1) m
  unfolding get
  Each-self [] h = tt
  Each-self ((k, v) ∷ m) h = (
    rw (eq_refl k) refl,
    All-weaken m (λ y here other. beyond y here) (Each-self m h.1) (Each-self m h.1),
  )
    where
      beyond :
          (y : String × V)
          → get y.0 m ≡ some y.1
          → (if text_eq k y.0 then some v else get y.0 m) ≡ some y.1
      beyond y here = elim (Bool-cases (text_eq k y.0)) [
        | inl same ↦
            let clash : none ≡ some y.1 =
              sym h.0 ∙ ap (λ j. get j m) ((eq_iff k y.0).0 same) ∙ here in
            absurd (cc)
        | inr other ↦ rw other here
      ]

  pub Each-put {κ} :
      (P : String → V → Type κ) (k : String) (v : V) (m : Map V)
      → Each P m
      → P k v
      → Each P (put k v m)
  unfolding put
  Each-put P k v [] h p = (p, tt)
  Each-put P k v ((i, w) ∷ m) h p = elim (Bool-cases (text_eq i k)) [
    | inl same ↦ rw same (subst (λ j. P j v) (sym ((eq_iff i k).0 same)) p, h.1)
    | inr other ↦ rw other (h.0, Each-put P k v m h.1 p)
  ]

  pub Each-delete {κ} :
      (P : String → V → Type κ) (k : String) (m : Map V) → Each P m → Each P (delete k m)
  unfolding delete
  Each-delete P k [] h = tt
  Each-delete P k ((i, w) ∷ m) h = elim (Bool-cases (text_eq i k)) [
    | inl same ↦ rw same h.1
    | inr other ↦ rw other (h.0, Each-delete P k m h.1)
  ]
