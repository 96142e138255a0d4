-- ===== src/Game/Safe/Collision.antt =====
-- Encounters and collisions keep the invariant.
use text.Mathlib.Text.{◌==◌ as text_eq}
use neongrid.Base.{
  Option, String, [], get_or, if-both, if◌then◌else◌, length, none, not, refl, some, suc, zero, ℕ,
  ◌&&◌, ◌==◌, ◌||◌, ◌∷◌,
}
use neongrid.Base.Int.{ltb_ℤ, pos, ℤ, ◌⊕◌, ◌⊖◌}
use neongrid.Base.Map.{Each, Map, get}
use neongrid.Base.Text.{contains, text_ltb, ◌⧺◌}
use neongrid.Clock.{Time}
use neongrid.Game.Data.{Item, Player, slot_drone}
use neongrid.Game.Engine.Finds.{OnSome}
use neongrid.Game.Engine.Guards.{Any}
use neongrid.Game.Engine.Users.{Entry}
use neongrid.Game.Rating.{collision_power}
use neongrid.Game.Rating.Bounds.{add_heat-IsHeat}
use neongrid.Game.Repository.{Repository}
use neongrid.Game.Safe.{
  IsRunner, Safe, Safe-bind, Safe-gets, Safe-if, Safe-pure, Safe-read, Safe-step, Safe-then,
}
use neongrid.Game.Safe.Artifacts.{GoodBy, GoodPair, rare_loot-Safe, same_heat, steal_unique-Safe}
use neongrid.Game.Safe.Join.{intn-Safe}
use neongrid.Game.Safe.Steps.{GoodEntry, save-Safe}
use neongrid.Game.Safe.World.{
  note_win-Safe, pick-Safe, place_in-Safe, reheated, roll_scar-Safe, score_faction-Safe,
  set_user-Safe, update_titles_locked-Safe,
}
use neongrid.Game.World.Artifacts.{equip}
use neongrid.Game.World.Collision.{
  Bout, beaten, collide, collision, damage_drone, damages, decide_bout, due_runners, fight,
  in_district, insert_runner, is_due, meet, opponent_at, opponent_pool, others, pick_opponent,
  record_bout, rival_or, settle_bout, sort_runners, with_identity,
}
use neongrid.Game.World.Encounter.{beat_ice, encounter, ice_message, lose_to_ice}

abbrev GoodBout : Bout → Type 0
GoodBout b = GoodEntry b.0 × GoodEntry b.1

module _ {R : Type 0} ⦃repo : Repository R⦄ where
  ice_message-Safe :
      (o : Option Item) (p : Player) (ice place : String)
      → Safe {R = R} Any (ice_message o p ice place)
  ice_message-Safe none p ice place = Safe-step _ _ (pick-Safe _) λ t. Safe-pure Any _ tt
  ice_message-Safe (some item) p ice place = Safe-step _ _ (pick-Safe _) λ t. Safe-pure Any _ tt

  beat_ice-Safe :
      (key : String) (p : Player) (ice place : String)
      → IsRunner key p
      → Safe {R = R} (GoodBy key) (beat_ice key p ice place)
  unfolding beat_ice
  beat_ice-Safe key p ice place h = Safe-then _ _ (score_faction-Safe _ _) (
      Safe-read _ _ λ rules.
        Safe-bind (IsRunner key) _ _ _
          (set_user-Safe key _ (reheated key p _ h refl (add_heat-IsHeat _ _)))
          λ q k. Safe-bind (GoodBy key) _ _ _ (roll_scar-Safe key q 25 _ _ k) λ r m.
            Safe-bind (GoodBy key) _ _ _ (rare_loot-Safe key r.1 _ m)
              λ s n. Safe-step _ _ (ice_message-Safe s.0 s.1 ice place) λ message. Safe-pure _ _ n)

  lose_to_ice-Safe :
      (key : String) (p : Player) (ice place : String)
      → IsRunner key p
      → Safe {R = R} (GoodBy key) (lose_to_ice key p ice place)
  unfolding lose_to_ice
  lose_to_ice-Safe key p ice place h = Safe-read _ _ λ rules.
      Safe-bind (IsRunner key) _ _ _
        (set_user-Safe key _ (reheated key p _ h refl (add_heat-IsHeat _ _)))
        λ q k.
          Safe-bind (GoodBy key) _ _ _ (roll_scar-Safe key q 12 _ _ k)
            λ r m. Safe-step _ _ (pick-Safe _) λ t. Safe-pure _ _ m

  pub encounter-Safe :
      (key : String) (p : Player) → IsRunner key p → Safe {R = R} (GoodBy key) (encounter key p)
  unfolding encounter
  encounter-Safe key p h = Safe-step _ _ (pick-Safe _) λ ice.
      Safe-step _ _ (place_in-Safe _) λ place. Safe-step _ _ (intn-Safe 100) λ roll.
        Safe-read _ _ λ world.
          Safe-if _ _ _ _ (beat_ice-Safe key p ice place h) (lose_to_ice-Safe key p ice place h)

due-Good :
    (now : Time) (users : Map Player) → Each IsRunner users → Each IsRunner (due_runners now users)
unfolding due_runners
due-Good now [] h = tt
due-Good now ((key, p) ∷ users) h =
    if-both (Each IsRunner) (p.connected && is_due p.next_collision_at now) _ _
      (h.0, due-Good now users h.1) (due-Good now users h.1)

others-Good :
    (x : String) (users : Map Player) → Each IsRunner users → Each IsRunner (others x users)
unfolding others
others-Good x [] h = tt
others-Good x ((key, p) ∷ users) h =
    if-both (Each IsRunner) (not p.connected || text_eq key x) _ _ (others-Good x users h.1)
      (h.0, others-Good x users h.1)

in_district-Good :
    (d : String) (users : Map Player) → Each IsRunner users → Each IsRunner (in_district d users)
unfolding in_district
in_district-Good d [] h = tt
in_district-Good d ((key, p) ∷ users) h =
    if-both (Each IsRunner) (text_eq p.district d) _ _ (h.0, in_district-Good d users h.1)
      (in_district-Good d users h.1)

insert_runner-Good :
    (x : Entry) (users : Map Player)
    → GoodEntry x
    → Each IsRunner users
    → Each IsRunner (insert_runner x users)
unfolding insert_runner
insert_runner-Good x [] g h = (g, tt)
insert_runner-Good x (y ∷ ys) g h =
    if-both (Each IsRunner) (text_ltb y.1.identity x.1.identity) _ _
      (h.0, insert_runner-Good x ys g h.1) (g, h)

sort_runners-Good : (users : Map Player) → Each IsRunner users → Each IsRunner (sort_runners users)
unfolding sort_runners
sort_runners-Good [] h = tt
sort_runners-Good (x ∷ xs) h = insert_runner-Good x (sort_runners xs) h.0 (sort_runners-Good xs h.1)

with_identity-Good :
    (i : String) (users : Map Player)
    → Each IsRunner users
    → OnSome GoodEntry (with_identity i users)
unfolding with_identity
with_identity-Good i [] h = tt
with_identity-Good i ((key, p) ∷ users) h =
    if-both (OnSome GoodEntry) (text_eq p.identity i) _ _ h.0 (with_identity-Good i users h.1)

pool-Good :
    (x : Entry) (users : Map Player) → Each IsRunner users → Each IsRunner (opponent_pool x users)
unfolding opponent_pool
pool-Good (key, p) users h =
    let anywhere = others key users in
    let good = others-Good key users h in
    sort_runners-Good
      (if length (in_district p.district anywhere) == 0
        then anywhere
        else in_district p.district anywhere)
      (if-both (Each IsRunner) (length (in_district p.district anywhere) == 0) _ _ good
        (in_district-Good p.district anywhere good))

get_or-Good :
    (users : Map Player) (i : ℕ) (x : Entry)
    → Each IsRunner users
    → GoodEntry x
    → GoodEntry (get_or users i x)
get_or-Good [] i x h g = g
get_or-Good (y ∷ users) zero x h g = h.0
get_or-Good (y ∷ users) (suc i) x h g = get_or-Good users i x h.1 g

module _ {R : Type 0} where
  opponent_at-Safe :
      (pool : Map Player) → Each IsRunner pool → Safe {R = R} (OnSome GoodEntry) (opponent_at pool)
  opponent_at-Safe [] h = Safe-pure _ _ tt
  opponent_at-Safe (x ∷ pool) h =
      Safe-step _ _ (intn-Safe _)
        λ i. Safe-pure (OnSome GoodEntry) _ (get_or-Good (x ∷ pool) i x h h.0)

  rival_or-Safe :
      (o : Option Entry) (pool : Map Player)
      → OnSome GoodEntry o
      → Each IsRunner pool
      → Safe {R = R} (OnSome GoodEntry) (rival_or o pool)
  rival_or-Safe none pool g h = opponent_at-Safe pool h
  rival_or-Safe (some x) pool g h = Safe-pure (OnSome GoodEntry) _ g

  pick_opponent-Safe :
      (x : Entry) (users : Map Player)
      → Each IsRunner users
      → Safe {R = R} (OnSome GoodEntry) (pick_opponent x users)
  unfolding pick_opponent
  pick_opponent-Safe x users h =
      let pool = opponent_pool x users in
      let good = pool-Good x users h in
      let any = opponent_at-Safe pool good in
      Safe-if _ _ _ _ (Safe-pure (OnSome GoodEntry) none tt) (
        Safe-if _ _ _ _ any (
          Safe-step _ _ (intn-Safe 2) λ coin.
            Safe-if _ _ _ _ (rival_or-Safe _ pool (with_identity-Good _ pool good) good) any))

module _ {R : Type 0} where
  decide_bout-Safe :
      (x y : Entry) → GoodEntry x → GoodEntry y → Safe {R = R} GoodBout (decide_bout x y)
  unfolding decide_bout
  decide_bout-Safe x y g h = Safe-step _ _ (intn-Safe 5) λ a. Safe-step _ _ (intn-Safe 5) λ b.
      Safe-pure GoodBout _ (
        if-both GoodBout (ltb_ℤ (collision_power x.1 ⊕ pos b) (collision_power y.1 ⊕ pos a)) _ _
          (h, g) (g, h))

damage_drone-IsRunner : (key : String) (p : Player) → IsRunner key p → IsRunner key (damage_drone p)
unfolding damage_drone
damage_drone-IsRunner key p h = damaged (get slot_drone p.equipment)
  where
    damaged :
        (o : Option Item)
        → IsRunner key (elim o [
          | none ↦ p
          | some item ↦
              if not item.unique && ltb_ℤ (pos 0) item.rating
              then equip slot_drone
                  (record item {
                    rating = item.rating ⊖ pos 1;
                    name =
                        if contains item.name "damaged"
                        then item.name
                        else item.name ⧺ " [damaged]";
                  })
                  p
              else p
        ])
    damaged none = h
    damaged (some item) =
        if-both (IsRunner key) (not item.unique && ltb_ℤ (pos 0) item.rating) _ _
          (same_heat key p _ h refl refl) h

beaten-IsRunner :
    (kind : ℕ) (loss : ℤ) (key : String) (p : Player)
    → IsRunner key p
    → IsRunner key (beaten kind loss p)
unfolding beaten
beaten-IsRunner kind loss key p h =
    let q : Player = record p { progress_seconds = p.progress_seconds ⊖ damages kind loss } in
    let good : IsRunner key q = same_heat key p q h refl refl in
    if-both (IsRunner key) (kind == 3) _ _ (damage_drone-IsRunner key q good) good

record_bout-IsRunner :
    (key : String) (a b : Player) → IsRunner key a → IsRunner key (record_bout a b)
unfolding record_bout
record_bout-IsRunner key a b h = same_heat key a _ h refl refl

module _ {R : Type 0} ⦃repo : Repository R⦄ where
  settle_bout-Safe :
      (now : Time) (wk : String) (w : Player) (lk : String) (l : Player)
      → IsRunner wk w
      → IsRunner lk l
      → Safe {R = R} Any (settle_bout now wk w lk l)
  unfolding settle_bout
  settle_bout-Safe now wk w lk l h k =
      Safe-bind (IsRunner wk) _ _ _ (update_titles_locked-Safe wk w h) λ w1 h1.
        Safe-bind (IsRunner lk) _ _ _ (update_titles_locked-Safe lk l k) λ l1 k1.
          Safe-read _ _ λ rules.
            Safe-bind (IsRunner wk) _ _ _ (set_user-Safe wk _ (same_heat wk w1 _ h1 refl refl))
              λ w2 h2.
                Safe-bind (IsRunner lk) _ _ _ (set_user-Safe lk _ (same_heat lk l1 _ k1 refl refl))
                  λ l2 k2. Safe-then _ _ (save-Safe w2) (save-Safe l2)

  fight-Safe :
      (now : Time) (prefix : String) (x y : Entry)
      → GoodEntry x
      → GoodEntry y
      → Safe {R = R} Any (fight now prefix x y)
  unfolding fight
  fight-Safe now prefix (wk, w) (lk, l) h k = Safe-read _ _ λ rules.
      Safe-bind (IsRunner wk) _ _ _
        (set_user-Safe wk _ (reheated wk w _ h refl (add_heat-IsHeat _ _)))
        λ w1 h1.
          Safe-bind (IsRunner lk) _ _ _
            (set_user-Safe lk _ (reheated lk l _ k refl (add_heat-IsHeat _ _)))
            λ l1 k1. Safe-then _ _ (score_faction-Safe _ _) (
              Safe-then _ _ (note_win-Safe _) (
                Safe-bind (GoodBy wk) _ _ _ (roll_scar-Safe wk w1 20 _ _ h1) λ r h2.
                  Safe-step _ _ (intn-Safe 4) λ kind.
                    Safe-bind (IsRunner wk) _ _ _
                      (set_user-Safe wk _ (same_heat wk r.1 _ h2 refl refl))
                      λ w2 h3.
                        Safe-bind (IsRunner lk) _ _ _
                          (set_user-Safe lk _ (beaten-IsRunner kind _ lk l1 k1))
                          λ l2 k2. Safe-step _ _ (pick-Safe _) λ template.
                            Safe-step _ _ (place_in-Safe _) λ place.
                              Safe-bind (GoodPair wk lk) _ _ _ (steal_unique-Safe wk w2 lk l2 h3 k2)
                                λ s good.
                                  Safe-then _ _
                                    (settle_bout-Safe now wk s.1.0 lk s.1.1 good.0 good.1)
                                    (Safe-pure Any _ tt)))

  meet-Safe :
      (now : Time) (x : Entry) (o : Option Entry)
      → GoodEntry x
      → OnSome GoodEntry o
      → Safe {R = R} Any (meet now x o)
  unfolding meet
  meet-Safe now x none g h = Safe-pure Any _ tt
  meet-Safe now (key, p) (some (other, o)) g h =
      Safe-bind (IsRunner key) _ _ _ (set_user-Safe key _ (record_bout-IsRunner key p o g)) λ a k.
        Safe-bind (IsRunner other) _ _ _ (set_user-Safe other _ (record_bout-IsRunner other o p h))
          λ b m.
            Safe-bind GoodBout _ _ _ (decide_bout-Safe (key, a) (other, b) k m)
              λ bout good. fight-Safe now _ bout.0 bout.1 good.0 good.1

  collide-Safe :
      (now : Time) (users due : Map Player)
      → Each IsRunner users
      → Each IsRunner due
      → Safe {R = R} Any (collide now users due)
  collide-Safe now users [] h k = Safe-pure Any _ tt
  collide-Safe now users (x ∷ due) h k = Safe-step _ _ (intn-Safe _) λ i.
      Safe-bind (OnSome GoodEntry) _ _ _ (pick_opponent-Safe _ users h)
        λ o g. meet-Safe now _ o (get_or-Good (x ∷ due) i x k k.0) g

  pub collision-Safe : (now : Time) → Safe {R = R} Any (collision now)
  unfolding collision
  collision-Safe now =
      Safe-bind (Each IsRunner) _ _ _ (Safe-gets _ _ (λ e i. i.runners))
        λ users h. collide-Safe now users _ h (due-Good now users h)
