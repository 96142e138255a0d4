-- ===== src/Game/World/Contracts/Roster.antt =====
-- The runners that a draw of places gives, and their names.
use mathlib.Core.Path.{subst}
use neongrid.Base.{
  All, All-map, List, Option, String, [], ap, arith, length, map, none, refl, some, suc, sym, true,
  zero, ℕ, ◌∙◌, ◌∷◌, ◌≡◌, ◌≢◌, ◌≤◌,
}
use neongrid.Base.Map.{Each-self, IsMap, Map, get}
use neongrid.Game.Data.{Player}
use neongrid.Game.Engine.Users.{Entry}
use neongrid.Game.World.Contracts.{at_indices, nth_runner}
use neongrid.Game.World.Contracts.Draw.{NoneTwice}

-- No identity stands twice.
abbrev pub NobodyTwice : List String → Type 0
NobodyTwice [] = Unit
NobodyTwice (x ∷ xs) = All (λ y. x ≢ y) xs × NobodyTwice xs

-- At most `most` runners, each of whom stands among the users under its identity and is linked, and
-- nobody twice.
pub record IsTeam (users : Map Player) (most : ℕ) (team : List String) : Type 0 where
  pub few : length team ≤ most
  pub members :
      All (λ identity. (p : Player) × (get identity users ≡ some p) × (p.connected ≡ true)) team
  pub distinct : NobodyTwice team

-- What holds of every entry holds of the one at a place.
abbrev pub AtNth : (Entry → Type 0) → Option Entry → Type 0
AtNth P none = Unit
AtNth P (some x) = P x

pub All-nth : (P : Entry → Type 0) (m : Map Player) (i : ℕ) → All P m → AtNth P (nth_runner m i)
All-nth P [] i h = tt
All-nth P (x ∷ m) zero h = h.0
All-nth P (x ∷ m) (suc i) h = All-nth P m i h.1

Apart : Option Entry → Option Entry → Type 0
Apart (some x) (some y) = x.0 ≢ y.0
Apart _ _ = Unit

-- In a map, entries at different places have different keys.
first_apart :
    (z : Entry) (m : Map Player) (j : ℕ) → IsMap (z ∷ m) → AtNth (λ y. z.0 ≢ y.0) (nth_runner m j)
first_apart z m j h =
    All-nth (λ y. z.0 ≢ y.0) m j
      (All-map m
        (λ y here same.
          let clash : none ≡ some y.1 = sym h.0 ∙ ap (λ k. get k m) same ∙ here in absurd (cc))
        (Each-self m h.1))

near : (z : Entry) (o : Option Entry) → AtNth (λ y. z.0 ≢ y.0) o → Apart (some z) o
unfolding Apart
near z none h = tt
near z (some y) h = h

far : (z : Entry) (o : Option Entry) → AtNth (λ y. z.0 ≢ y.0) o → Apart o (some z)
unfolding Apart
far z none h = tt
far z (some y) h = λ e. h (sym e)

apart : (m : Map Player) (i j : ℕ) → IsMap m → i ≢ j → Apart (nth_runner m i) (nth_runner m j)
unfolding Apart
apart [] i j h ne = tt
apart (z ∷ m) zero zero h ne = absurd (ne refl)
apart (z ∷ m) zero (suc j) h ne = near z (nth_runner m j) (first_apart z m j h)
apart (z ∷ m) (suc i) zero h ne = far z (nth_runner m i) (first_apart z m i h)
apart (z ∷ m) (suc i) (suc j) h ne = apart m i j h.1 (λ e. ne (ap suc e))

-- The runners so far, and one that may be there.
put : Option Entry → Map Player → Map Player
put none m = m
put (some x) m = x ∷ m

at_indices-step :
    (m : Map Player) (i : ℕ) (order : List ℕ)
    → at_indices m (i ∷ order) ≡ put (nth_runner m i) (at_indices m order)
unfolding put
at_indices-step m i order =
    let rest = at_indices m order in
    elim (nth_runner m i) as (λ o. elim o [ none ↦ rest | some x ↦ x ∷ rest ] ≡ put o rest) [
      | none ↦ refl
      | some x ↦ refl
    ]

put-All :
    (P : Entry → Type 0) (o : Option Entry) (m : Map Player) → AtNth P o → All P m → All P (put o m)
unfolding put
put-All P none m p h = h
put-All P (some x) m p h = (p, h)

pub at_indices-All :
    (P : Entry → Type 0) (m : Map Player) (order : List ℕ)
    → All (λ i. AtNth P (nth_runner m i)) order
    → All P (at_indices m order)
at_indices-All P m [] h = tt
at_indices-All P m (i ∷ order) h =
    subst (All P) (sym (at_indices-step m i order))
      (put-All P (nth_runner m i) (at_indices m order) h.0 (at_indices-All P m order h.1))

length-put : (o : Option Entry) (m : Map Player) → length (put o m) ≤ suc (length m)
unfolding put
length-put none m = omega arith
length-put (some x) m = omega arith

pub length-at_indices :
    (m : Map Player) (order : List ℕ) → length (at_indices m order) ≤ length order
length-at_indices m [] = omega arith
length-at_indices m (i ∷ order) =
    subst (λ l. length l ≤ suc (length order)) (sym (at_indices-step m i order))
      (omega (arith, length-put (nth_runner m i) (at_indices m order), length-at_indices m order))

-- No key stands twice.
abbrev pub KeysApart : Map Player → Type 0
KeysApart [] = Unit
KeysApart (x ∷ m) = All (λ y. x.0 ≢ y.0) m × KeysApart m

put-KeysApart :
    (o : Option Entry) (m : Map Player)
    → AtNth (λ x. All (λ y. x.0 ≢ y.0) m) o
    → KeysApart m
    → KeysApart (put o m)
unfolding put
put-KeysApart none m p h = h
put-KeysApart (some x) m p h = (p, h)

away : (x : Entry) (o : Option Entry) → Apart (some x) o → AtNth (λ y. x.0 ≢ y.0) o
unfolding Apart
away x none h = tt
away x (some y) h = h

around :
    (o : Option Entry) (m : Map Player) (order : List ℕ)
    → All (λ j. Apart o (nth_runner m j)) order
    → AtNth (λ x. All (λ y. x.0 ≢ y.0) (at_indices m order)) o
around none m order h = tt
around (some x) m order h =
    at_indices-All (λ y. x.0 ≢ y.0) m order
      (All-map order (λ j clear. away x (nth_runner m j) clear) h)

pub at_indices-KeysApart :
    (m : Map Player) (order : List ℕ) → IsMap m → NoneTwice order → KeysApart (at_indices m order)
at_indices-KeysApart m [] h d = tt
at_indices-KeysApart m (i ∷ order) h d = subst KeysApart (sym (at_indices-step m i order)) (
    put-KeysApart (nth_runner m i) (at_indices m order)
      (around (nth_runner m i) m order (All-map order (λ j ne. apart m i j h ne) d.0))
      (at_indices-KeysApart m order h d.1))

-- What a runner of the team is: under its identity, linked.
abbrev pub IsMember : Map Player → Entry → Type 0
IsMember users x = (get x.0 users ≡ some x.1) × (x.1.connected ≡ true) × (x.1.identity ≡ x.0)

pub names-linked :
    (users team : Map Player)
    → All (IsMember users) team
    → All
        (λ identity. (p : Player) × (get identity users ≡ some p) × (p.connected ≡ true))
        (map (λ (x : Entry). x.1.identity) team)
names-linked users [] h = tt
names-linked users (x ∷ team) h =
    ((x.1, ap (λ k. get k users) h.0.2 ∙ h.0.0, h.0.1), names-linked users team h.1)

names-clear :
    (x : Entry) (users team : Map Player)
    → x.1.identity ≡ x.0
    → All (IsMember users) team
    → All (λ y. x.0 ≢ y.0) team
    → All (λ name. x.1.identity ≢ name) (map (λ (y : Entry). y.1.identity) team)
names-clear x users [] keyed h d = tt
names-clear x users (y ∷ team) keyed h d =
    (λ same. d.0 (sym keyed ∙ same ∙ h.0.2), names-clear x users team keyed h.1 d.1)

pub names-distinct :
    (users team : Map Player)
    → All (IsMember users) team
    → KeysApart team
    → NobodyTwice (map (λ (x : Entry). x.1.identity) team)
names-distinct users [] h d = tt
names-distinct users (x ∷ team) h d =
    (names-clear x users team h.0.2 h.1 d.0, names-distinct users team h.1 d.1)
