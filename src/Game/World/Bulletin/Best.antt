-- ===== src/Game/World/Bulletin/Best.antt =====
-- Whom the bulletin names.
use neongrid.Base.{
  All, Bool-cases, Option, String, [], all, arith, inl, inr, none, refl, some, ◌↔◌, ◌∷◌, ◌≡◌,
}
use neongrid.Base.Int.{ltb_ℤ, pos, ℤ, ◌<ℤ◌, ◌≤ℤ◌}
use neongrid.Base.Map.{Each-self, IsMap, Map, get}
use neongrid.Base.Text.{text_ltb}
use neongrid.Game.Data.{Player}
use neongrid.Game.World.Bulletin.{
  Leader, insert_count, lead_by, lead_from, lead_step, leader, sort_counts,
}

-- A count of a runner that is there is at most the best.
abbrev pub Below : Option Player → ℤ → ℤ → Type 0
Below none n best = Unit
Below (some p) n best = n ≤ℤ best

Below-le : (o : Option Player) (n a b : ℤ) → a ≤ℤ b → Below o n a → Below o n b
Below-le none n a b le h = h
Below-le (some p) n a b le h = omega (arith, h, le)

lead_by-Below :
    (o : Option Player) (n : ℤ) (l : Leader)
    → Below o n (lead_by o n l).1 × (l.1 ≤ℤ (lead_by o n l).1)
lead_by-Below none n l = (tt, omega arith)
lead_by-Below (some q) n (p, best) = elim (Bool-cases (ltb_ℤ best n)) [
  | inl more ↦ rw more (omega arith, ground (arith, more))
  | inr less ↦ rw less (ground (arith, less), omega arith)
]

-- Every count of a runner that is there is at most the best.
abbrev pub AllBelow : Map Player → ℤ → Map ℤ → Type 0
AllBelow users best = All (λ x. Below (get x.0 users) x.1 best)

lead_from-Below :
    (users : Map Player) (counts : Map ℤ) (l : Leader)
    → AllBelow users (lead_from users counts l).1 counts × (l.1 ≤ℤ (lead_from users counts l).1)
unfolding lead_from lead_step
lead_from-Below users [] l = (tt, omega arith)
lead_from-Below users ((identity, n) ∷ counts) l =
    let (here, up) = lead_by-Below (get identity users) n l in
    let next = lead_by (get identity users) n l in
    let (rest, on) = lead_from-Below users counts next in
    ((Below-le (get identity users) n next.1 _ on here, rest), omega (arith, up, on))

-- The leader stands among the users, and its count among these; without one, the best is 0.
abbrev pub Leads : Map Player → Map ℤ → Leader → Type 0
Leads users counts (none, best) = best ≡ pos 0
Leads users counts (some p, best) =
    (pos 0 <ℤ best)
    × ((identity : String) × (get identity users ≡ some p) × (get identity counts ≡ some best))

lead_from-Leads :
    (users : Map Player) (all counts : Map ℤ) (l : Leader)
    → All (λ x. get x.0 all ≡ some x.1) counts
    → pos 0 ≤ℤ l.1
    → Leads users all l
    → Leads users all (lead_from users counts l)
unfolding lead_from lead_step
lead_from-Leads users all [] l among up h = h
lead_from-Leads users all ((identity, n) ∷ counts) l among up h =
    let next = lead_by (get identity users) n l in
    lead_from-Leads users all counts next among.1
      (omega (arith, up, (lead_by-Below (get identity users) n l).1))
      (once (get identity users) l refl up h)
  where
    once :
        (o : Option Player) (l : Leader)
        → get identity users ≡ o
        → pos 0 ≤ℤ l.1
        → Leads users all l
        → Leads users all (lead_by o n l)
    once none l at up h = h
    once (some q) (p, best) at up h = elim (Bool-cases (ltb_ℤ best n)) [
      | inl more ↦ rw more (ground (arith, more, up), (identity, at, among.0))
      | inr less ↦ rw less h
    ]

-- Sorting by identity keeps the counts.
All-insert :
    (P : String × ℤ → Type 0) (identity : String) (n : ℤ) (counts : Map ℤ)
    → (P (identity, n) × All P counts) ↔ All P (insert_count identity n counts)
unfolding insert_count
All-insert P identity n [] = (λ h. h, λ h. h)
All-insert P identity n ((other, m) ∷ counts) = elim (Bool-cases (text_ltb other identity)) [
  | inl less ↦
      let (to, back) = All-insert P identity n counts in
      rw less (λ h. (h.1.0, to (h.0, h.1.1)), λ h. let (p, rest) = back h.1 in (p, (h.0, rest)))
  | inr more ↦ rw more (λ h. h, λ h. h)
]

All-sort : (P : String × ℤ → Type 0) (counts : Map ℤ) → All P counts ↔ All P (sort_counts counts)
unfolding sort_counts
All-sort P [] = (λ h. h, λ h. h)
All-sort P ((identity, n) ∷ counts) =
    let (to, back) = All-sort P counts in
    let (in_to, in_back) = All-insert P identity n (sort_counts counts) in
    (λ h. in_to (h.0, to h.1), λ h. let (p, rest) = in_back h in (p, back rest))

-- Of the counts of a map, the leader has the highest of those that belong to a runner that is there:
-- it is one of them with its own positive count, no count of another is higher, and where there is no
-- leader none is positive.
pub leader_best :
    (users : Map Player) (counts : Map ℤ)
    → IsMap counts
    → AllBelow users (leader users counts).1 counts × Leads users counts (leader users counts)
unfolding leader
leader_best users counts h =
    let sorted = sort_counts counts in
    let start : Leader = (none, pos 0) in
    (
      (All-sort _ counts).1 (lead_from-Below users sorted start).0,
      lead_from-Leads users counts sorted start ((All-sort _ counts).0 (Each-self counts h))
          (omega arith) refl,
    )
