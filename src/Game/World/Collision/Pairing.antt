-- ===== src/Game/World/Collision/Pairing.antt =====
-- Whom a runner meets in a collision.
use text.Mathlib.Text.{◌==◌ as text_eq}
use neongrid.Base.{
  All, All-map, Bool-cases, Option, String, [], ap, arith, false, if-both, if◌then◌else◌, inl, inr,
  length, none, not, refl, some, suc, sym, true, ◌==◌, ◌||◌, ◌∙◌, ◌∷◌, ◌≡◌, ◌⊎◌,
}
use neongrid.Base.Map.{Each-self, IsMap, Map, get}
use neongrid.Base.Text.{text_ltb}
use neongrid.Game.Data.{Player}
use neongrid.Game.Engine.Action.{Engine, intn}
use neongrid.Game.Engine.Gives.{Returns, Returns-bind, Returns-pure, Returns-split, intn-Returns}
use neongrid.Game.Engine.Users.{Entry}
use neongrid.Game.Repository.{ok}
use neongrid.Game.Titles.{top_rival}
use neongrid.Game.World.Artifacts.Moves.{All-get_or}
use neongrid.Game.World.Collision.{
  in_district, insert_runner, opponent_at, opponent_pool, others, pick_opponent, rival_or,
  sort_runners, with_identity,
}

module _ (P : Entry → Type 0) where
  All-others :
      (initiator : String) (users : Map Player)
      → All P users
      → All
          (λ y. P y × ((y.1.connected ≡ true) × (text_eq y.0 initiator ≡ false)))
          (others initiator users)
  unfolding others
  All-others initiator [] h = tt
  All-others initiator ((key, p) ∷ users) h =
      elim (Bool-cases (not p.connected || text_eq key initiator)) [
        | inl out ↦ rw out (All-others initiator users h.1)
        | inr able ↦
            rw able
              ((h.0, (ground (arith, able), ground (arith, able))), All-others initiator users h.1)
      ]

  All-in_district :
      (district : String) (users : Map Player)
      → All P users
      → All (λ y. P y × (text_eq y.1.district district ≡ true)) (in_district district users)
  unfolding in_district
  All-in_district district [] h = tt
  All-in_district district ((key, p) ∷ users) h = elim (Bool-cases (text_eq p.district district)) [
    | inl here ↦ rw here ((h.0, here), All-in_district district users h.1)
    | inr away ↦ rw away (All-in_district district users h.1)
  ]

  All-insert : (x : Entry) (ys : Map Player) → P x → All P ys → All P (insert_runner x ys)
  unfolding insert_runner
  All-insert x [] p h = (p, tt)
  All-insert x (y ∷ ys) p h =
      if-both (All P) (text_ltb y.1.identity x.1.identity) _ _ (h.0, All-insert x ys p h.1) (p, h)

  All-sort : (xs : Map Player) → All P xs → All P (sort_runners xs)
  unfolding sort_runners
  All-sort [] h = tt
  All-sort (x ∷ xs) h = All-insert x (sort_runners xs) h.0 (All-sort xs h.1)

  -- The runner found, if one is.
  abbrev Found : Option Entry → Type 0
  Found none = Unit
  Found (some y) = P y

  with_identity-Found :
      (identity : String) (xs : Map Player) → All P xs → Found (with_identity identity xs)
  unfolding with_identity
  with_identity-Found identity [] h = tt
  with_identity-Found identity ((key, p) ∷ xs) h =
      if-both Found (text_eq p.identity identity) _ _ h.0 (with_identity-Found identity xs h.1)

length-insert : (x : Entry) (ys : Map Player) → length (insert_runner x ys) ≡ suc (length ys)
unfolding insert_runner
length-insert x [] = refl
length-insert x (y ∷ ys) =
    if-both (λ (zs : Map Player). length zs ≡ suc (suc (length ys)))
      (text_ltb y.1.identity x.1.identity) _ _ (omega (arith, length-insert x ys)) refl

length-sort : (xs : Map Player) → length (sort_runners xs) ≡ length xs
unfolding sort_runners
length-sort [] = refl
length-sort (x ∷ xs) = length-insert x (sort_runners xs) ∙ ap suc (length-sort xs)

-- The runner is linked, is another one than the initiator, and stands among the users; it is in the
-- initiator's district whenever another linked runner is.
abbrev pub Meets : Entry → Map Player → Entry → Type 0
Meets x users y =
    (get y.0 users ≡ some y.1)
    × (y.1.connected ≡ true)
    × (text_eq y.0 x.0 ≡ false)
    × ((length (in_district x.1.district (others x.0 users)) ≡ 0)
        ⊎ (text_eq y.1.district x.1.district ≡ true))

opponent_pool-Meets :
    (x : Entry) (users : Map Player) → IsMap users → All (Meets x users) (opponent_pool x users)
unfolding opponent_pool
opponent_pool-Meets x users h =
    let anywhere = others x.0 users in
    let local = in_district x.1.district anywhere in
    let linked = All-others _ x.0 users (Each-self users h) in
    elim (Bool-cases (length local == 0)) [
      | inl alone ↦ rw alone (
          All-sort (Meets x users) anywhere
            (All-map anywhere (λ y (a, (b, c)). (a, b, c, inl (ground (arith, alone)))) linked))
      | inr near ↦ rw near (
          All-sort (Meets x users) local (
            All-map local (λ y ((a, (b, c)), here). (a, b, c, inr here))
              (All-in_district _ x.1.district anywhere linked)))
    ]

opponent_pool-empty :
    (x : Entry) (users : Map Player)
    → length (opponent_pool x users) ≡ 0
    → length (others x.0 users) ≡ 0
unfolding opponent_pool
opponent_pool-empty x users h =
    let anywhere = others x.0 users in
    let local = in_district x.1.district anywhere in
    let few = sym (length-sort (if length local == 0 then anywhere else local)) ∙ h in
    elim (Bool-cases (length local == 0)) [
      | inl alone ↦ ap (λ b. length (if b then anywhere else local)) (sym alone) ∙ few
      | inr near ↦
          let none_near = ap (λ b. length (if b then anywhere else local)) (sym near) ∙ few in
          absurd (ground (arith, near, none_near))
    ]

-- Either no other runner is linked and nobody is met, or somebody is.
abbrev pub Paired : Entry → Map Player → Option Entry → Type 0
Paired x users none = length (others x.0 users) ≡ 0
Paired x users (some y) = Meets x users y

module _ {R : Type 0} where
  -- A choice between the runners of the pool that are there.
  opponent_at-Returns :
      (S : Option Entry → Type 0) (pool : Map Player)
      → All (λ y. S (some y)) pool
      → (length pool == 0) ≡ false
      → Returns {R = R} S (opponent_at pool)
  opponent_at-Returns S [] h some_there = absurd (ground (arith, some_there))
  opponent_at-Returns S (x ∷ pool) h some_there =
      Returns-bind _ _ _ _ (intn-Returns (length pool))
        λ i few. Returns-pure _ _ (All-get_or (λ y. S (some y)) (x ∷ pool) i x h few)

  rival_or-Returns :
      (S : Option Entry → Type 0) (o : Option Entry) (pool : Map Player)
      → Found (λ y. S (some y)) o
      → All (λ y. S (some y)) pool
      → (length pool == 0) ≡ false
      → Returns {R = R} S (rival_or o pool)
  rival_or-Returns S none pool f h some_there = opponent_at-Returns S pool h some_there
  rival_or-Returns S (some y) pool f h some_there = Returns-pure _ _ f

  pick_opponent-Returns :
      (x : Entry) (users : Map Player)
      → IsMap users
      → Returns {R = R} (Paired x users) (pick_opponent x users)
  unfolding pick_opponent
  pick_opponent-Returns x users h =
      let S = Paired x users in
      let pool = opponent_pool x users in
      let meets = opponent_pool-Meets x users h in
      Returns-split S _ _ _
        (λ empty. Returns-pure S none (opponent_pool-empty x users (ground (arith, empty))))
        λ full.
          let anyone = opponent_at-Returns S pool meets full in
          let rival = with_identity (top_rival x.1) pool in
          let heads : Returns {R = R} S (rival_or rival pool) =
            rival_or-Returns S rival pool (with_identity-Found _ (top_rival x.1) pool meets) meets
              full in
          Returns-split S (text_eq (top_rival x.1) "") (opponent_at pool) _ (λ alone. anyone)
            λ feuds. Returns-bind _ S (intn 2) _ (intn-Returns 1) λ coin two.
              Returns-split S (coin == 0) (rival_or rival pool) (opponent_at pool) (λ h. heads)
                (λ t. anyone)

  -- Whatever the random numbers, the choice of an opponent returns: nobody, just where no other runner
  -- is linked, or a runner that stands among the users, is linked and is not the initiator, and that is
  -- in the initiator's district unless no other linked runner is.
  pub pick_opponent_pairs :
      (x : Entry) (users : Map Player) (e : Engine R)
      → IsMap users
      → (o : Option Entry) × ((pick_opponent x users e).0 ≡ ok o) × Paired x users o
  pick_opponent_pairs x users e h = (pick_opponent-Returns x users h).returns e
