-- ===== src/Game/Contract.antt =====
-- Contracts of internal/game/game.go: a participant that drops or is renamed.
use text.Mathlib.Text.{◌==◌ as text_eq}
use neongrid.Base.{Bool, List, String, any, false, if◌then◌else◌, map, none, some, true}
use neongrid.Base.Map.{Map, get}
use neongrid.Game.Data.{Contract, Player}
use neongrid.Game.Engine.Action.{Action, Engine}
use neongrid.Game.Rating.{display_name}
use neongrid.Game.Repository.{ok}

abbrev pub is_in : String → List String → Bool
is_in name names = any (λ x. text_eq x name) names

-- The contract that a participant's disconnect leaves.
unfoldable pub dropped : String → Map Player → Contract → Contract
dropped identity users c = elim (get identity users) [
  | none ↦ record c { failed = true }
  | some p ↦ record c { failed = true; dropped_by = display_name p }
]

unfoldable pub renamed : String → String → List String → List String
renamed old new names = map (λ x. if text_eq x old then new else x) names

module _ {R : Type 0} where
  unfoldable pub set_contract : Contract → Engine R → Engine R
  set_contract c e = record e { world = record e.world { contract = some c } }

  unfoldable pub mark_contract_failed : String → Action R Bool
  mark_contract_failed identity e = elim e.world.contract [
    | none ↦ (ok false, e)
    | some c ↦
        if c.failed
        then (ok false, e)
        else if is_in identity c.participants
        then (ok true, set_contract (dropped identity e.users c) e)
        else (ok false, e)
  ]

  unfoldable pub rekey_contract_participant : String → String → Action R Bool
  rekey_contract_participant old new e = elim e.world.contract [
    | none ↦ (ok false, e)
    | some c ↦ if text_eq old new then (ok false, e) else (
      ok (is_in old c.participants),
      set_contract (record c { participants = renamed old new c.participants }) e,
    )
  ]
