-- ===== src/Game/World/Contracts/Draw.antt =====
-- The draw of a contract's team: `rand.Perm`.
use mathlib.Core.Path.{subst}
use neongrid.Base.{
  All, All-append, All-map, List, [], ap, arith, length, length-append, refl, suc, sym, zero, ℕ,
  ◌++◌, ◌+◌, ◌<◌, ◌∙◌, ◌∷◌, ◌≡◌, ◌≢◌, ◌≤◌,
}
use neongrid.Game.Engine.Action.{Engine}
use neongrid.Game.Engine.Gives.{Returns, Returns-bind, Returns-pure, intn-Returns}
use neongrid.Game.Repository.{ok}
use neongrid.Game.Start.Boot.{new}
use neongrid.Game.World.Contracts.{nth, perm, perm_from, perm_step, set_at}

-- No number stands twice.
abbrev pub NoneTwice : List ℕ → Type 0
NoneTwice [] = Unit
NoneTwice (x ∷ xs) = All (λ y. x ≢ y) xs × NoneTwice xs

-- The numbers below `n`, each once.
pub record IsShuffle (n : ℕ) (order : List ℕ) : Type 0 where
  pub size : length order ≡ n
  pub few : All (λ i. i < n) order
  pub distinct : NoneTwice order

-- A round puts a new number in the place of an old one, which goes to the end.
All-moved :
    (P : ℕ → Type 0) (j v : ℕ) (m : List ℕ)
    → All P m
    → P v
    → j ≤ length m
    → All P (set_at j v (m ++ nth m j ∷ []))
All-moved P zero v [] h p le = (p, tt)
All-moved P (suc j) v [] h p le = absurd (omega arith)
All-moved P zero v (x ∷ m) h p le = (p, All-append P m (x ∷ []) h.1 (h.0, tt))
All-moved P (suc j) v (x ∷ m) h p le = (h.0, All-moved P j v m h.1 p (omega arith))

NoneTwice-end : (x : ℕ) (m : List ℕ) → All (λ y. x ≢ y) m → NoneTwice m → NoneTwice (m ++ x ∷ [])
NoneTwice-end x [] h d = (tt, tt)
NoneTwice-end x (y ∷ m) h d =
    (All-append (λ z. y ≢ z) m (x ∷ []) d.0 (λ e. h.0 (sym e), tt), NoneTwice-end x m h.1 d.1)

NoneTwice-moved :
    (j v : ℕ) (m : List ℕ)
    → All (λ y. v ≢ y) m
    → NoneTwice m
    → j ≤ length m
    → NoneTwice (set_at j v (m ++ nth m j ∷ []))
NoneTwice-moved zero v [] new d le = (tt, tt)
NoneTwice-moved (suc j) v [] new d le = absurd (omega arith)
NoneTwice-moved zero v (x ∷ m) new d le =
    (All-append (λ y. v ≢ y) m (x ∷ []) new.1 (new.0, tt), NoneTwice-end x m d.0 d.1)
NoneTwice-moved (suc j) v (x ∷ m) new d le = (
  All-moved (λ y. x ≢ y) j v m d.0 (λ e. new.0 (sym e)) (omega arith),
  NoneTwice-moved j v m new.1 d.1 (omega arith),
)

length-set_at : (j v : ℕ) (m : List ℕ) → length (set_at j v m) ≡ length m
length-set_at j v [] = refl
length-set_at zero v (x ∷ m) = refl
length-set_at (suc j) v (x ∷ m) = ap suc (length-set_at j v m)

perm_step-IsShuffle :
    (n j : ℕ) (m : List ℕ) → IsShuffle n m → j < suc n → IsShuffle (suc n) (perm_step n j m)
unfolding perm_step
perm_step-IsShuffle n j m h below = record {
  size = length-set_at j n _ ∙ length-append m (nth m j ∷ []) ∙ omega (arith, h.size);
  few =
      All-moved (λ i. i < suc n) j n m (All-map m (λ i less. omega (arith, less)) h.few)
        (omega arith) (omega (arith, h.size));
  distinct =
      NoneTwice-moved j n m (All-map m (λ i less e. omega (arith, less, e)) h.few) h.distinct
        (omega (arith, h.size));
}

module _ {R : Type 0} where
  perm_from-Returns :
      (rounds n : ℕ) (m : List ℕ)
      → IsShuffle n m
      → Returns {R = R} (IsShuffle (n + rounds)) (perm_from rounds n m)
  unfolding perm_from
  perm_from-Returns zero n m h = Returns-pure _ _ (subst (λ k. IsShuffle k m) (omega arith) h)
  perm_from-Returns (suc rounds) n m h = Returns-bind _ _ _ _ (intn-Returns n) λ j below.
      subst (λ k. Returns {R = R} (IsShuffle k) (perm_from rounds (suc n) (perm_step n j m)))
        (omega arith)
        (perm_from-Returns rounds (suc n) (perm_step n j m) (perm_step-IsShuffle n j m h below))

  -- Whatever the random numbers, the shuffle of `n` returns the numbers below `n`, each exactly once.
  perm_shuffles :
      (n : ℕ) (e : Engine R) → (order : List ℕ) × ((perm n e).0 ≡ ok order) × IsShuffle n order
  unfolding perm
  perm_shuffles n e =
      let (order, run, h) =
        (perm_from-Returns n 0 [] (record { size = refl; few = tt; distinct = tt })).returns e in
      (order, run, subst (λ k. IsShuffle k order) (omega arith) h)

  pub perm-Returns : (n : ℕ) → Returns {R = R} (IsShuffle n) (perm n)
  unfolding perm
  perm-Returns n = record { returns = perm_shuffles n }
