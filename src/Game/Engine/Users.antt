-- ===== src/Game/Engine/Users.antt =====
-- Runners in the engine: keys, lookups, and the helpers that every method starts with.
use text.Mathlib.Text.{starts_with, ◌==◌ as text_eq}
use neongrid.Base.{
  List, Option, String, [], drop, if◌then◌else◌, length, none, some, ◌&&◌, ◌++◌, ◌-◌, ◌∷◌,
}
use neongrid.Base.Int.{ltb_ℤ, pos, ℤ, ◌⊕◌, ◌⊖◌}
use neongrid.Base.Map.{Map, delete, get, get_default, put}
use neongrid.Base.Text.{equal_fold, to_lower, trim_prefix, trim_space, ◌⧺◌}
use neongrid.Clock.{Time}
use neongrid.Game.Data.{Player}
use neongrid.Game.Engine.Action.{Action, gets, modify, pure, raise, save, ◌>>=◌, ◌>>◌}
use neongrid.Game.Progress.{advance_player}
use neongrid.Game.Repository.{Error, Repository, ok}

unfoldable pub account_key : String → String
account_key account = "acct:" ⧺ to_lower (trim_space account)

unfoldable pub guest_key : String → String
guest_key nick = "guest:" ⧺ to_lower (trim_space nick)

-- A runner as the engine holds it: the key in `users`, and what stands there.
abbrev pub Entry : Type 0
Entry = String × Player

-- The loop of `findConnectedLocked`.
unfoldable pub find_connected : String → Map Player → Option Entry
find_connected nick [] = none
find_connected nick ((key, p) ∷ users) =
    if p.connected && equal_fold p.nick nick then some (key, p) else find_connected nick users

unfoldable pub entry_at : String → Map Player → Option Entry
entry_at key users = elim (get key users) [ none ↦ none | some p ↦ some (key, p) ]

abbrev pub or_else : Option Entry → Option Entry → Option Entry
or_else none o = o
or_else (some x) o = some x

-- The guest record of a nick.
unfoldable pub find_guest : String → Map Player → Option Entry
unfolding entry_at
find_guest nick users = elim (entry_at (guest_key nick) users) [
  | none ↦ none
  | some (key, p) ↦ if p.guest then some (key, p) else none
]

unfoldable pub find_by_identity : String → Map Player → Option Entry
unfolding entry_at
find_by_identity identity users =
    if text_eq identity ""
    then none
    else or_else (entry_at identity users) (
        if starts_with identity "acct:"
        then entry_at (account_key (trim_prefix identity "acct:")) users
        else none)

unfoldable pub find_locked : String → String → Map Player → Option Entry
unfolding find_by_identity find_guest
find_locked identity nick users = or_else (find_by_identity identity users) (
    or_else (find_connected nick users)
      (if text_eq identity "" then find_guest nick users else none))

-- The guest that belongs to a user now identified as `account`.
unfoldable pub migratable_guest : String → String → Map Player → Option Entry
unfolding find_guest
migratable_guest nick account users = elim (find_connected nick users) [
  | some (key, p) ↦ if p.guest then some (key, p) else none
  | none ↦ if equal_fold (trim_space nick) (trim_space account) then find_guest nick users else none
]

module _ {R : Type 0} where
  unfoldable pub or_not_found : Option Entry → Action R Entry
  or_not_found none = raise Error.runner_not_found
  or_not_found (some x) = pure x

  -- `p := e.findLocked(identity, nick); if p == nil { return ErrRunnerNotFound }`
  unfoldable pub require : String → String → Action R Entry
  unfolding or_not_found ◌>>=◌
  require identity nick = do
    found ← gets (λ e. find_locked identity nick e.users)
    or_not_found found

  unfoldable pub put_user : String → Player → Action R (Unit {0})
  put_user key p = modify (λ e. record e { users = put key p e.users })

  unfoldable pub delete_user : String → Action R (Unit {0})
  delete_user key = modify (λ e. record e { users = delete key e.users })

  -- `queueLocked` keeps the last 50 announcements.
  unfoldable pub queue_locked : List String → Action R (Unit {0})
  queue_locked messages =
      modify
        λ e. let all = e.pending ++ messages in record e { pending = drop (length all - 50) all }

  unfoldable pub take_pending : Action R (List String)
  take_pending e = (ok e.pending, record e { pending = [] })

  unfoldable pub note_climbs : String → ℤ → Action R (Unit {0})
  note_climbs identity amount = modify λ e.
      let b = e.world.bulletin in
      let n = get_default (pos 0) identity b.climbs in
      record e {
        world = record e.world {
          bulletin = record b { climbs = put identity (n ⊕ amount) b.climbs };
        };
      }

  unfoldable pub advance_locked : String → Player → Time → Action R Player
  advance_locked key p now = do
    rules ← gets (λ e. e.rules)
    let (q, messages) = advance_player p now rules
    put_user key q
    queue_locked messages
    let gained = q.level ⊖ p.level
    if ltb_ℤ (pos 0) gained then note_climbs q.identity gained else pure tt
    pure q

module _ {R : Type 0} ⦃repo : Repository R⦄ where
  -- A runner that has been changed, and its `Save`.
  unfoldable pub commit : String → Player → Action R (Unit {0})
  commit key p = do put_user key p; save p
