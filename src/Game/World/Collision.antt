-- ===== src/Game/World/Collision.antt =====
-- Two runners collide: `collisionLocked` and `pickOpponentLocked`.
pub mod Pairing
use text.Mathlib.Text.{◌==◌ as text_eq}
use neongrid.Base.{
  Bool, List, Option, String, [], get_or, if◌then◌else◌, length, none, not, some, suc, zero, ℕ,
  ◌&&◌, ◌==◌, ◌||◌, ◌∷◌,
}
use neongrid.Base.Int.{leb_ℤ, ltb_ℤ, pos, quot, ℤ, ◌⊕◌, ◌⊖◌, ◌⊗◌}
use neongrid.Base.Map.{Map, get, get_default, put}
use neongrid.Base.Text.{contains, show, text_ltb, ◌⧺◌}
use neongrid.Clock.{Time, add, before, is_zero, second}
use neongrid.Config.Rules.{rules}
use neongrid.Game.Data.{Player, scar_synthetic_adrenal_gland, slot_drone}
use neongrid.Game.Engine.Action.{Action, gets, intn, pure, save, ◌>>=◌, ◌>>◌}
use neongrid.Game.Engine.Users.{Entry}
use neongrid.Game.Flavor.{Pair, collision_templates, format_duration, pick, place_in, render}
use neongrid.Game.Rating.{add_heat, collision_loss, collision_power, display_name, level_duration}
use neongrid.Game.Repository.{Repository}
use neongrid.Game.Titles.{top_rival}
use neongrid.Game.World.Artifacts.{equip, steal_unique}
use neongrid.Game.World.Encounter.{roll_scar}
use neongrid.Game.World.Steps.{max64, note_win, score_faction, set_user, update_titles_locked}

abbrev pub is_due : Time → Time → Bool
is_due at now = not (is_zero at) && not (before now at)

unfoldable pub due_runners : Time → Map Player → Map Player
due_runners now [] = []
due_runners now ((key, p) ∷ users) =
    let rest = due_runners now users in
    if p.connected && is_due p.next_collision_at now then (key, p) ∷ rest else rest

-- The linked runners other than the initiator, and those of its district.
unfoldable pub others : String → Map Player → Map Player
others initiator [] = []
others initiator ((key, p) ∷ users) =
    let rest = others initiator users in
    if not p.connected || text_eq key initiator then rest else (key, p) ∷ rest

unfoldable pub in_district : String → Map Player → Map Player
in_district district [] = []
in_district district ((key, p) ∷ users) =
    let rest = in_district district users in
    if text_eq p.district district then (key, p) ∷ rest else rest

-- `sort.Slice` by identity.
unfoldable pub insert_runner : Entry → Map Player → Map Player
insert_runner x [] = x ∷ []
insert_runner x (y ∷ ys) =
    let rest = insert_runner x ys in
    if text_ltb y.1.identity x.1.identity then y ∷ rest else x ∷ y ∷ ys

unfoldable pub sort_runners : Map Player → Map Player
unfolding insert_runner
sort_runners [] = []
sort_runners (x ∷ xs) = insert_runner x (sort_runners xs)

unfoldable pub with_identity : String → Map Player → Option Entry
with_identity identity [] = none
with_identity identity ((key, p) ∷ users) =
    if text_eq p.identity identity then some (key, p) else with_identity identity users

-- Runners of the initiator's district, or any where there are none.
unfoldable pub opponent_pool : Entry → Map Player → Map Player
unfolding others in_district sort_runners
opponent_pool (key, p) users =
    let anywhere = others key users in
    let local = in_district p.district anywhere in
    sort_runners (if length local == 0 then anywhere else local)

unfoldable pub record_bout : Player → Player → Player
record_bout a b =
    let n = get_default (pos 0) b.identity a.rivals in
    record a { rivals = put b.identity (n ⊕ pos 1) a.rivals }

abbrev pub bouts_of : Player → Player → ℤ
bouts_of a b = get_default (pos 0) b.identity a.rivals

-- A drone that is no artifact loses a rank, and is marked once.
unfoldable pub damage_drone : Player → Player
damage_drone p = elim (get slot_drone p.equipment) [
  | none ↦ p
  | some item ↦
      if not item.unique && ltb_ℤ (pos 0) item.rating
      then equip slot_drone
          (record item {
            rating = item.rating ⊖ pos 1;
            name = if contains item.name "damaged" then item.name else item.name ⧺ " [damaged]";
          })
          p
      else p
]

-- What a collision of a kind does to the progress of the winner and of the loser.
unfoldable pub spoils : ℕ → ℤ → ℤ
spoils (suc zero) gain = gain ⊗ pos 2
spoils (suc (suc zero)) gain = max64 (pos 15) (quot gain 2)
spoils n gain = gain

unfoldable pub damages : ℕ → ℤ → ℤ
damages (suc zero) loss = max64 (pos 15) (quot loss 2)
damages (suc (suc zero)) loss = loss ⊗ pos 2
damages n loss = loss

unfoldable pub beaten : ℕ → ℤ → Player → Player
unfolding damages damage_drone
beaten kind loss p =
    let q : Player = record p { progress_seconds = p.progress_seconds ⊖ damages kind loss } in
    if kind == 3 then damage_drone q else q

-- The runners of a collision: the winner, then the loser.
abbrev pub Bout : Type 0
Bout = Entry × Entry

abbrev pub collision_pairs : Player → Player → ℤ → String → List Pair
collision_pairs winner loser gain place =
    ("winner", display_name winner)
    ∷ ("loser", display_name loser)
    ∷ ("gain", format_duration (gain ⊗ pos second))
    ∷ ("district", loser.district)
    ∷ ("place", place)
    ∷ []

abbrev pub walked_off : String → Player → Player → String
walked_off stolen winner loser =
    if text_eq stolen ""
    then ""
    else " "
      ⧺ display_name winner
      ⧺ " walked off with "
      ⧺ display_name loser
      ⧺ "'s UNIQUE "
      ⧺ stolen
      ⧺ "!"

module _ {R : Type 0} where
  abbrev pub opponent_at : Map Player → Action R (Option Entry)
  opponent_at [] = pure none
  opponent_at (x ∷ pool) = do i ← intn (length (x ∷ pool)); pure (some (get_or (x ∷ pool) i x))

  abbrev pub rival_or : Option Entry → Map Player → Action R (Option Entry)
  rival_or none pool = opponent_at pool
  rival_or (some x) pool = pure (some x)

  unfoldable pub pick_opponent : Entry → Map Player → Action R (Option Entry)
  pick_opponent x users =
      let pool = opponent_pool x users in
      let rival = top_rival x.1 in
      if length pool == 0
      then pure none
      else (if text_eq rival "" then opponent_at pool else do
        coin ← intn 2
        if coin == 0 then rival_or (with_identity rival pool) pool else opponent_at pool)

  unfoldable pub decide_bout : Entry → Entry → Action R Bout
  decide_bout x y = do
    a ← intn 5
    b ← intn 5
    let ahead = ltb_ℤ (collision_power x.1 ⊕ pos b) (collision_power y.1 ⊕ pos a)
    pure (if ahead then (y, x) else (x, y))

module _ {R : Type 0} ⦃repo : Repository R⦄ where
  -- The end of a collision: titles, timers and the store.
  unfoldable pub settle_bout : Time → String → Player → String → Player → Action R (Unit {0})
  settle_bout now winner_key winner loser_key loser = do
    w ← update_titles_locked winner_key winner
    l ← update_titles_locked loser_key loser
    rules ← gets (λ e. e.rules)
    w' ← set_user winner_key (record w { next_collision_at = add now rules.collision_interval })
    l' ← set_user loser_key (record l { next_collision_at = add now rules.collision_interval })
    save w'
    save l'

  unfoldable pub fight : Time → String → Entry → Entry → Action R String
  fight now prefix (winner_key, winner) (loser_key, loser) = do
    rules ← gets (λ e. e.rules)
    let gain = max64 (pos 30) (quot (level_duration rules winner.level) 20)
    let loss = collision_loss loser (max64 (pos 20) (quot (level_duration rules loser.level) 24))
    w ← set_user winner_key (record winner {
      heat = add_heat winner.heat (pos 3);
      stats = record winner.stats { collision_wins = winner.stats.collision_wins ⊕ pos 1 };
    })
    l ← set_user loser_key (record loser { heat = add_heat loser.heat (pos 5) })
    score_faction w (pos 2)
    note_win w.identity
    (scar, w1) ←
        roll_scar winner_key w 20 scar_synthetic_adrenal_gland " Synthetic Adrenal Gland acquired."
    kind ← intn 4
    w2 ←
        set_user winner_key
          (record w1 { progress_seconds = w1.progress_seconds ⊕ spoils kind gain })
    l2 ← set_user loser_key (beaten kind loss l)
    template ← pick (collision_templates kind)
    place ← place_in l2.district
    let message = prefix ⧺ render template (collision_pairs w2 l2 gain place) ⧺ scar
    (stolen, (w3, l3)) ← steal_unique winner_key w2 loser_key l2
    settle_bout now winner_key w3 loser_key l3
    pure (message ⧺ walked_off stolen w3 l3)

  -- The bout of two runners that have met.
  unfoldable pub meet : Time → Entry → Option Entry → Action R String
  meet now x none = pure ""
  meet now (key, p) (some (other_key, o)) = do
    a ← set_user key (record_bout p o)
    b ← set_user other_key (record_bout o p)
    let bouts = bouts_of a b
    let rivalry =
        leb_ℤ (pos 5) bouts && text_eq (top_rival a) b.identity && text_eq (top_rival b) a.identity
    let prefix : String =
        if rivalry then "[GRID] RIVALRY, round " ⧺ show bouts ⧺ ": " else "[GRID] COLLISION: "
    (winner, loser) ← decide_bout (key, a) (other_key, b)
    fight now prefix winner loser

  abbrev pub collide : Time → Map Player → Map Player → Action R String
  collide now users [] = pure ""
  collide now users (x ∷ due) = do
    i ← intn (length (x ∷ due))
    let initiator = get_or (x ∷ due) i x
    opponent ← pick_opponent initiator users
    meet now initiator opponent

  unfoldable pub collision : Time → Action R String
  unfolding due_runners
  collision now = do users ← gets (λ e. e.users); collide now users (due_runners now users)
