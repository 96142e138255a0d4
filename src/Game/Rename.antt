-- ===== src/Game/Rename.antt =====
-- `Rename` of internal/game/game.go: a runner changes its nick, and a guest its key.
use text.Mathlib.Text.{◌==◌ as text_eq}
use neongrid.Base.{Bool, String, false, if◌then◌else◌, none, not, some, ◌&&◌}
use neongrid.Base.Int.{pos, ℤ, ◌⊖◌}
use neongrid.Base.Map.{get}
use neongrid.Clock.{Time}
use neongrid.Game.Contract.{rekey_contract_participant}
use neongrid.Game.Data.{Activity, Player}
use neongrid.Game.Engine.Action.{Action, call, gets, pure, raise_if, save_world_if, ◌>>=◌, ◌>>◌}
use neongrid.Game.Engine.Users.{advance_locked, commit, delete_user, guest_key, require}
use neongrid.Game.Rating.{add_heat, penalty_seconds}
use neongrid.Game.Repository.{Error, Repository}

module _ {R : Type 0} ⦃repo : Repository R⦄ where
  -- The part of `Rename` that gives a guest's runner the key of its new nick.
  unfoldable pub move_key : Bool → String → String → Player → Action R (Player × Bool)
  move_key rekey old_key new_key p = if not rekey then pure (p, false) else do
    delete_user old_key
    changed ← rekey_contract_participant old_key new_key
    call (repo.delete old_key)
    pure (record p { identity = new_key }, changed)

  unfoldable pub rename : String → String → Time → Action R ℤ
  rename old_nick new_nick now = do
    (key, p) ← require "" old_nick
    raise_if (not p.connected) Error.runner_not_found
    users ← gets (λ e. e.users)
    let new_key = guest_key new_nick
    let owned : Bool = elim (get new_key users) [
      | none ↦ false
      | some other ↦ not (text_eq new_key key)
    ]
    let rekey = p.guest && not (text_eq new_key p.identity) && not owned
    q ← advance_locked key p now
    rules ← gets (λ e. e.rules)
    let penalty = penalty_seconds q.level Activity.nick (pos 0) rules
    let q' : Player = record q {
      progress_seconds = q.progress_seconds ⊖ penalty;
      heat = add_heat q.heat (pos 4);
      nick = new_nick;
    }
    (named, changed) ← move_key rekey p.identity new_key q'
    commit named.identity named
    save_world_if changed
    pure penalty
