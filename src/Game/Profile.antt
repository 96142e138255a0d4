-- ===== src/Game/Profile.antt =====
-- The commands of internal/game/game.go and features.go with which a runner sets its profile, and the
-- penalties for what it says.
pub mod Effects
pub mod Window
pub mod Chosen
pub mod Later
pub mod History
pub mod Choices
use Prim.Native.Char.{code}
use Prim.Native.String.{len}
use text.Mathlib.Text.{◌==◌ as text_eq}
use neongrid.Base.{
  Bool, List, Option, String, [], any, false, if◌then◌else◌, leb, length, none, not, some, true,
  ◌&&◌, ◌||◌, ◌∷◌,
}
use neongrid.Base.Int.{pos, ℤ, ◌⊖◌}
use neongrid.Base.Map.{Map}
use neongrid.Base.Text.{equal_fold, to_lower, trim_space}
use neongrid.Clock.{Time, before, is_zero}
use neongrid.Config.Rules.{rules}
use neongrid.Game.Data.{Activity, Player, WorldState, stance_cold, stance_hot}
use neongrid.Game.Engine.Action.{Action, gets, pure, raise, raise_if, save, ◌>>=◌, ◌>>◌}
use neongrid.Game.Engine.Users.{Entry, advance_locked, commit, require}
use neongrid.Game.Rating.{penalty_seconds, valid_faction}
use neongrid.Game.Repository.{Error, Repository}
use neongrid.Irc.Limiter.Spacing.{asked}

-- `validAlias`: 1 to 24 bytes, all of them printable ASCII.
printable : String → Bool
printable String.[] = true
printable (String.◌∷◌ c s) = leb b'!' (code c) && leb (code c) b'~' && printable s

unfoldable pub valid_alias : String → Bool
unfolding printable
valid_alias alias = not (text_eq alias "") && leb (len alias) 24 && printable alias

-- Another runner than the one under `key` shows the name.
unfoldable pub is_taken : String → String → Map Player → Bool
is_taken key alias users =
    any
      (λ (x : Entry).
        not (text_eq x.0 key) && (equal_fold x.1.alias alias || equal_fold x.1.nick alias))
      users

-- The loop of `SetTitle`: the last earned title that matches, or "".
unfoldable pub earned_title : String → List String → String → String
earned_title title [] chosen = chosen
earned_title title (earned ∷ rest) chosen =
    earned_title title rest (if equal_fold earned title then earned else chosen)

unfoldable pub faction_swap_open : WorldState → Time → Bool
faction_swap_open world now =
    not (is_zero world.faction_swap_started_at)
    && not (is_zero world.faction_swap_until)
    && before now world.faction_swap_until

-- The checks of `SetFaction` once the runner is found.
unfoldable pub faction_refusal : WorldState → Time → Player → String → Option Error
faction_refusal world now p faction =
    if text_eq p.faction faction
    then some Error.same_faction
    else if text_eq p.faction ""
    then none
    else if not (faction_swap_open world now)
    then some Error.faction_locked
    else if not (before p.last_faction_swap_at world.faction_swap_started_at)
    then some Error.respec_used
    else none

abbrev pub is_spoken : Activity → Bool
is_spoken Activity.chat = true
is_spoken Activity.action = true
is_spoken _ = false

module _ {R : Type 0} where
  unfoldable pub raise_some : Option Error → Action R (Unit {0})
  raise_some none = pure tt
  raise_some (some x) = raise x

module _ {R : Type 0} ⦃repo : Repository R⦄ where
  unfoldable pub set_alias : String → String → String → Time → Action R Player
  set_alias identity nick name now = do
    let alias = trim_space name
    raise_if (not (text_eq alias "") && not (valid_alias alias)) Error.bad_alias
    (key, p) ← require identity nick
    users ← gets (λ e. e.users)
    raise_if (not (text_eq alias "") && is_taken key alias users) Error.name_in_use
    q ← advance_locked key p now
    let q' : Player = record q { alias = alias; last_seen_at = now }
    commit key q'
    pure q'

  unfoldable pub set_title : String → String → String → Time → Action R Player
  set_title identity nick name now = do
    let title = trim_space name
    (key, p) ← require identity nick
    let picks = not (text_eq title "") && not (equal_fold title "auto")
    let chosen : String = if picks then earned_title title p.titles "" else ""
    raise_if (picks && text_eq chosen "") Error.title_not_earned
    q ← advance_locked key p now
    let q' : Player = record q { chosen_title = chosen; last_seen_at = now }
    commit key q'
    pure q'

  unfoldable pub set_faction : String → String → String → Time → Action R Player
  set_faction identity nick name now = do
    let faction = to_lower (trim_space name)
    raise_if (not (valid_faction faction)) Error.unknown_faction
    (key, p) ← require identity nick
    world ← gets (λ e. e.world)
    raise_some (faction_refusal world now p faction)
    q ← advance_locked key p now
    let swapped : Time = if faction_swap_open world now then now else q.last_faction_swap_at
    let q' : Player = record q {
      faction = faction;
      last_faction_swap_at = swapped;
      last_seen_at = now;
    }
    commit key q'
    pure q'

  unfoldable pub set_stance : String → String → String → Time → Action R Player
  set_stance identity nick name now = do
    let asked = to_lower (trim_space name)
    let stance : String = if text_eq asked "normal" then "" else asked
    let known = text_eq stance "" || text_eq stance stance_hot || text_eq stance stance_cold
    raise_if (not known) Error.bad_stance
    (key, p) ← require identity nick
    q ← advance_locked key p now
    let q' : Player = record q { stance = stance; last_seen_at = now }
    commit key q'
    pure q'

  unfoldable pub status : String → String → Time → Action R Player
  status identity nick now = do
    (key, p) ← require identity nick
    q ← advance_locked key p now
    save q
    pure q

  -- The penalty, and whether the pirate frequency made the transmission safe.
  unfoldable pub transmit : String → String → Activity → ℤ → Time → Action R (ℤ × Bool)
  transmit identity nick kind length now = do
    (key, p) ← require identity nick
    q ← advance_locked key p now
    rules ← gets (λ e. e.rules)
    world ← gets (λ e. e.world)
    let safe = is_spoken kind && before now world.pirate_until
    let penalty : ℤ = if safe then pos 0 else penalty_seconds q.level kind length rules
    let progress : ℤ = if safe then q.progress_seconds else q.progress_seconds ⊖ penalty
    commit key (record q { last_seen_at = now; progress_seconds = progress })
    pure (penalty, safe)

  -- `Activity`: what is said in another channel is not noticed.
  unfoldable pub activity : String → String → String → Activity → ℤ → Time → Action R (ℤ × Bool)
  activity identity nick channel kind length now e =
      if equal_fold channel e.rules.game_channel
      then transmit identity nick kind length now e
      else pure (pos 0, false) e
