-- ===== src/Examples/Artifacts.antt =====
-- The theorems on artifacts, at two runners of whom one holds an artifact.
use neongrid.Base.{All, List, String, [], arith, false, refl, true, ◌∷◌, ◌≡◌}
use neongrid.Base.Int.{pos, quot, ◌+ℤ◌, ◌⊕◌}
use neongrid.Base.Map.{get, put}
use neongrid.Examples.{memory, neo, online, runner}
use neongrid.Game.Data.{Item, Player, equipment_slots, slot_deck}
use neongrid.Game.Engine.Action.{call, gets, intn, modify, pure, save, ◌>>=◌}
use neongrid.Game.Engine.Users.{put_user, queue_locked, take_pending}
use neongrid.Game.Join.{new_player}
use neongrid.Game.Rating.{min_int, rare_loot_chance}
use neongrid.Game.Repository.{Result, err, ok}
use neongrid.Game.Titles.{award, award_one, has_title, title_rules, update_titles}
use neongrid.Game.World.Artifacts.{
  burn_each, burn_out_uniques, claim_first, fit_artifact, is_burning, item_at, moved_artifact,
  rare_loot, release_each, retire_unique, save_if_any, standard_gear, steal_unique, take_artifact,
  unique_life_levels, unique_slots,
}
use neongrid.Game.World.Artifacts.Life.{burn_out_uniques_cools}
use neongrid.Game.World.Artifacts.Moves.{
  Theft, moved_artifact_life, release_each_frees, steal_unique_moves,
}
use neongrid.Game.World.Steps.{set_user, update_titles_locked}

-- The result of a run that returns.
abbrev pub got : {A : Type 0} → A → Result A → A
got a (ok b) = b
got a (err x) = a

abbrev blackglass : Item
blackglass = record { name = "Blackglass Deck"; rating = pos 4; unique = true; breaks_at = pos 3 }

-- Neo's deck has reached its last level.
abbrev worn : Player
worn = record neo { equipment = (slot_deck, blackglass) ∷ [] }

abbrev trin : Player
trin = record (runner "guest:trin" "trin") { connected = true }

abbrev burnt : Result (List String × Player)
burnt = (burn_out_uniques "guest:neo" worn online).0

burnt_ok : burnt ≡ ok (got ([], worn) burnt)
unfolding burn_out_uniques burn_each retire_unique rare_loot claim_first fit_artifact set_user
    put_user update_titles_locked queue_locked call intn pure save ◌>>=◌ save_if_any get
    rare_loot_chance unique_life_levels gets modify take_pending put standard_gear new_player ◌⊕◌
    quot update_titles award title_rules award_one has_title min_int
burnt_ok = refl

burn_out_uniques_cools_example :
    let q = (got ([], worn) burnt).1 in
    (q.level ≡ worn.level) × All (λ slot. is_burning q (item_at q slot) ≡ false) equipment_slots
burn_out_uniques_cools_example =
    burn_out_uniques_cools "guest:neo" worn online _ _ (omega arith, omega arith) burnt_ok

abbrev freed : Result (List String × Player)
freed = (release_each "guest:neo" worn equipment_slots online).0

freed_ok : freed ≡ ok (got ([], worn) freed)
unfolding release_each retire_unique set_user put_user call pure ◌>>=◌ get modify put
freed_ok = refl

release_each_frees_example :
    let q = (got ([], worn) freed).1 in
    All (λ slot. (item_at q slot).unique ≡ false) equipment_slots
release_each_frees_example = release_each_frees "guest:neo" worn online _ _ freed_ok

abbrev stolen : Result (String × (Player × Player))
stolen = (steal_unique "guest:trin" trin "guest:neo" worn online).0

stolen_ok : stolen ≡ ok (got ("", (trin, worn)) stolen)
unfolding steal_unique take_artifact unique_slots set_user put_user update_titles_locked
    queue_locked call intn pure ◌>>=◌ get modify put
stolen_ok = refl

-- The artifact does change hands.
stolen_name : (got ("", (trin, worn)) stolen).0 ≡ "Blackglass Deck"
unfolding steal_unique take_artifact unique_slots set_user put_user update_titles_locked
    queue_locked call intn pure ◌>>=◌ get modify put
stolen_name = refl

steal_unique_moves_example : Theft trin worn (got ("", (trin, worn)) stolen)
steal_unique_moves_example =
    steal_unique_moves "guest:trin" trin "guest:neo" worn online _ stolen_ok

moved_artifact_life_example :
    (moved_artifact trin neo (record blackglass { breaks_at = pos 7 })).breaks_at +ℤ neo.level
    ≡ pos 7 +ℤ trin.level
unfolding new_player
moved_artifact_life_example =
    moved_artifact_life trin neo (record blackglass { breaks_at = pos 7 })
      (omega arith, omega arith) (omega arith, omega arith) (omega arith, omega arith) (omega arith)
