-- ===== src/Game/World/Contracts/Team.antt =====
-- The team of a contract that starts.
use mathlib.Core.Path.{subst}
use text.Mathlib.Text.{◌==◌ as text_eq}
use neongrid.Base.{
  All, All-map, All-weaken, Bool, Bool-cases, List, String, [], ap, arith, false, if-both,
  if◌then◌else◌, inl, inr, length, map, none, refl, some, suc, sym, take, true, zero, ℕ, ◌∙◌, ◌∷◌,
  ◌+◌, ◌==◌, ◌≡◌, ◌≢◌, ◌≤◌, ltb,
}
use neongrid.Base.Int.{negsuc, pos, pos_part, ℤ}
use neongrid.Base.Map.{Each-self, IsMap, Map, get, some_value}
use neongrid.Clock.{Time}
use neongrid.Game.Data.{Contract, Player, Rules}
use neongrid.Game.Engine.Action.{Engine, gets, intn, ◌>>=◌}
use neongrid.Game.Engine.Gives.{Returns-bind, Returns-pure, intn-Returns}
use neongrid.Game.Engine.Leaves.{
  Keeps-pure, Leaves, Leaves-after, Leaves-given, Leaves-modify, Leaves-then, Sure,
}
use neongrid.Game.Engine.Users.{Entry}
use neongrid.Game.Flavor.{pick}
use neongrid.Game.Rating.{min_int}
use neongrid.Game.Safe.{Any, Inv, IsRunner}
use neongrid.Game.World.Contracts.{at_indices, nth_runner, post_by, post_contract, start_contract}
use neongrid.Game.World.Contracts.Draw.{NoneTwice, perm-Returns}
use neongrid.Game.World.Contracts.Roster.{
  All-nth, AtNth, IsMember, IsTeam, at_indices-All, at_indices-KeysApart, length-at_indices,
  names-distinct, names-linked,
}
use neongrid.Game.World.Steps.{edit_world, linked_only}

-- The linked runners of a map.
linked_only-absent : (k : String) (m : Map Player) → get k m ≡ none → get k (linked_only m) ≡ none
unfolding get
linked_only-absent k [] h = refl
linked_only-absent k ((j, p) ∷ m) h = elim (Bool-cases (text_eq j k)) [
  | inl same ↦ let clash : some p ≡ none = rw same at h in absurd (cc)
  | inr other ↦
      let rest = linked_only-absent k m (rw other at h) in
      if-both (λ n. get k n ≡ none) p.connected ((j, p) ∷ linked_only m) (linked_only m)
        (rw other rest) rest
]

linked_only-IsMap : (m : Map Player) → IsMap m → IsMap (linked_only m)
linked_only-IsMap [] h = tt
linked_only-IsMap ((k, p) ∷ m) h =
    let rest = linked_only-IsMap m h.1 in
    if-both IsMap p.connected ((k, p) ∷ linked_only m) (linked_only m)
      (linked_only-absent k m h.0, rest) rest

chosen :
    (P : Entry → Type 0) (b : Bool) (x : Entry) (rest : Map Player)
    → P x
    → x.1.connected ≡ b
    → All (λ y. P y × (y.1.connected ≡ true)) rest
    → All (λ y. P y × (y.1.connected ≡ true)) (if b then x ∷ rest else rest)
chosen P true x rest p on h = ((p, on), h)
chosen P false x rest p off h = h

linked_only-All :
    (P : Entry → Type 0) (m : Map Player)
    → All P m
    → All (λ x. P x × (x.1.connected ≡ true)) (linked_only m)
linked_only-All P [] h = tt
linked_only-All P ((k, p) ∷ m) h =
    chosen P p.connected (k, p) (linked_only m) h.0 refl (linked_only-All P m h.1)

-- Every linked runner is one the team may have.
candidates-IsMember :
    {R : Type 0} (e : Engine R) → Inv e → All (IsMember e.users) (linked_only e.users)
candidates-IsMember e i =
    All-map (linked_only e.users) (λ x h. (h.0.0, h.1, h.0.1.keyed))
      (linked_only-All (λ x. (get x.0 e.users ≡ some x.1) × IsRunner x.0 x.1) e.users
        (All-weaken e.users (λ x here runner. (here, runner)) (Each-self e.users i.is_map)
          i.runners))

All-take : {A : Type 0} (P : A → Type 0) (n : ℕ) (xs : List A) → All P xs → All P (take n xs)
All-take P zero xs h = tt
All-take P (suc n) [] h = tt
All-take P (suc n) (x ∷ xs) h = (h.0, All-take P n xs h.1)

NoneTwice-take : (n : ℕ) (xs : List ℕ) → NoneTwice xs → NoneTwice (take n xs)
NoneTwice-take zero xs h = tt
NoneTwice-take (suc n) [] h = tt
NoneTwice-take (suc n) (x ∷ xs) h = (All-take (λ y. x ≢ y) n xs h.0, NoneTwice-take n xs h.1)

length-take : {A : Type 0} (n : ℕ) (xs : List A) → length (take n xs) ≤ n
length-take zero xs = omega arith
length-take (suc n) [] = omega arith
length-take (suc n) (x ∷ xs) = omega (arith, length-take n xs)

All-places :
    (P : Entry → Type 0) (m : Map Player) (order : List ℕ)
    → All P m
    → All (λ i. AtNth P (nth_runner m i)) order
All-places P m [] h = tt
All-places P m (i ∷ order) h = (All-nth P m i h, All-places P m order h)

length-names : (team : Map Player) → length (map (λ (x : Entry). x.1.identity) team) ≡ length team
length-names [] = refl
length-names (x ∷ team) = ap suc (length-names team)

-- The team drawn by an order of different numbers.
drawn-IsTeam :
    {R : Type 0} (e : Engine R) (most : ℕ) (order : List ℕ)
    → Inv e
    → NoneTwice order
    → IsTeam e.users most
        (map (λ (x : Entry). x.1.identity) (at_indices (linked_only e.users) (take most order)))
drawn-IsTeam e most order i apart =
    let m = linked_only e.users in
    let few = take most order in
    let members =
      at_indices-All (IsMember e.users) m few
        (All-places (IsMember e.users) m few (candidates-IsMember e i)) in
    record {
      few =
          omega (
            arith,
            length-names (at_indices m few),
            length-at_indices m few,
            length-take most order,
          );
      members = names-linked e.users (at_indices m few) members;
      distinct = names-distinct e.users (at_indices m few) members (
          at_indices-KeysApart m few (linked_only-IsMap e.users i.is_map)
            (NoneTwice-take most order apart));
    }

min_few : (n : ℕ) (b : ℤ) → pos_part (min_int (pos n) b) ≤ pos_part b
unfolding min_int
min_few n (pos m) = elim (Bool-cases (ltb (n + 0) (m + 0))) [
  | inl less ↦ rw less ground (arith, less)
  | inr more ↦ rw more omega arith
]
min_few n (negsuc m) = elim (Bool-cases (ltb (n + suc m) 0)) [
  | inl less ↦ absurd (ground (arith, less))
  | inr more ↦ rw more omega arith
]

IsTeam-more :
    (users : Map Player) (less more : ℕ) (team : List String)
    → less ≤ more
    → IsTeam users less team
    → IsTeam users more team
IsTeam-more users less more team le t = record {
  few = omega (arith, le, t.few);
  members = t.members;
  distinct = t.distinct;
}

nonzero : (n : ℕ) → (suc n == 0) ≡ false
nonzero n = ground arith

kept :
    (b : Bool) (x : Entry) (rest : Map Player)
    → b ≡ true
    → (length (if b then x ∷ rest else rest) == 0) ≡ false
kept true x rest on = nonzero (length rest)
kept false x rest on = absurd (cc)

linked_some :
    (key : String) (p : Player) (m : Map Player)
    → get key m ≡ some p
    → p.connected ≡ true
    → (length (linked_only m) == 0) ≡ false
unfolding get
linked_some key p [] h on = absurd (cc)
linked_some key p ((j, q) ∷ m) h on = elim (Bool-cases (text_eq j key)) [
  | inl same ↦
      let this : some q ≡ some p = rw same at h in
      kept q.connected (j, q) (linked_only m) (ap Player.connected (some_value this) ∙ on)
  | inr other ↦
      let rest = linked_some key p m (rw other at h) on in
      if-both (λ n. (length n == 0) ≡ false) q.connected ((j, q) ∷ linked_only m) (linked_only m)
        (nonzero (length (linked_only m))) rest
]

-- A contract stands whose team satisfies `T`.
abbrev pub Standing : {R : Type 0} → (List String → Type 0) → Engine R → Type 0
Standing T e = (c : Contract) × (e.world.contract ≡ some c) × T c.participants

module _ {R : Type 0} where
  Sure-intn : (n : ℕ) → Sure {R = R} (intn (suc n))
  Sure-intn n = record {
    returns = λ e. let (i, run, below) = (intn-Returns n).returns e in (i, run, tt);
  }

  Sure-pick : (x : String) (pool : List String) → Sure {R = R} (pick (x ∷ pool))
  unfolding pick
  Sure-pick x pool =
      Returns-bind Any Any _ _ (Sure-intn (length pool)) λ i any. Returns-pure Any _ tt

  post_by-Leaves :
      (T : List String → Type 0) (rules : Rules) (now : Time) (candidates : Map Player)
      → ((order : List ℕ)
          → NoneTwice order
          → T (
              map
                (λ (x : Entry). x.1.identity)
                (at_indices candidates (
                  take
                    (pos_part (min_int (pos (length candidates)) rules.contract_max_participants))
                    order))))
      → Leaves {R = R} (Standing T) (post_by rules now candidates)
  unfolding post_by edit_world
  post_by-Leaves T rules now candidates drawn =
      Leaves-given _ _ _ (perm-Returns _) λ order shuffled. Leaves-after _ _ (Sure-pick _ _) λ corp.
        Leaves-after _ _ (Sure-pick _ _) λ job. Leaves-after _ _ (Sure-intn _) λ i.
          Leaves-then _ _ (Leaves-modify _ λ e. (_, refl, drawn order shuffled.distinct))
            λ posted. Keeps-pure _

  opens :
      (now : Time) (e : Engine R)
      → e.world.contract ≡ none
      → (length (linked_only e.users) == 0) ≡ false
      → start_contract now e ≡ post_by e.rules now (linked_only e.users) e
  unfolding start_contract post_contract gets ◌>>=◌
  opens now e free some_linked = rw (free, some_linked) refl

  -- From a state that satisfies the invariant, with no contract running and some runner linked,
  -- starting a contract leaves one whose team has at most `contract_max_participants` names, each the
  -- identity of a linked user, none twice.
  pub start_contract-IsTeam :
      (now : Time) (e : Engine R) (key : String) (p : Player)
      → Inv e
      → e.world.contract ≡ none
      → get key e.users ≡ some p
      → p.connected ≡ true
      → Standing
          (IsTeam e.users (pos_part e.rules.contract_max_participants))
          (start_contract now e).1
  start_contract-IsTeam now e key p i free there on =
      let candidates = linked_only e.users in
      let T = IsTeam e.users (pos_part e.rules.contract_max_participants) in
      let posted =
        (post_by-Leaves T e.rules now candidates λ order apart.
            IsTeam-more e.users _ _ _
              (min_few (length candidates) e.rules.contract_max_participants)
              (drawn-IsTeam e _ order i apart)).leaves
          e in
      subst (λ r. Standing T r.1) (sym (opens now e free (linked_some key p e.users there on)))
        posted
