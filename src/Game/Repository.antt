-- ===== src/Game/Repository.antt =====
-- The interface `Repository` of internal/game/game.go, which the engine calls and the store of
-- internal/storage implements: operations on a state `R`, each of which may fail.
use neongrid.Base.{Bool, List, String}
use neongrid.Base.Int.{ℤ}
use neongrid.Game.Data.{Player, WorldState}

pub data Error : Type 0 where
  storage runner_not_found account_required bad_alias name_in_use title_not_earned : Error
  unknown_faction same_faction faction_locked respec_used bad_stance : Error

pub data Result {ℓ} (A : Type ℓ) : Type ℓ where
  ok : A → Result A
  err : Error → Result A

pub record Repository (R : Type 0) : Type 0 where
  pub load_all : R → Result (List Player) × R
  pub save : Player → R → Result (Unit {0}) × R
  pub delete : String → R → Result (Unit {0}) × R
  pub claim_rare_item : String → String → R → Result Bool × R
  pub release_rare_item : String → R → Result (Unit {0}) × R
  pub transfer_rare_item : String → String → R → Result (Unit {0}) × R
  pub migrate_guest : String → String → String → String → R → Result Player × R
  pub top : ℤ → R → Result (List Player) × R
  pub load_world_state : R → Result WorldState × R
  pub save_world_state : WorldState → R → Result (Unit {0}) × R
