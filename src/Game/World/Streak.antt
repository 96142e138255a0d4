-- ===== src/Game/World/Streak.antt =====
-- Ghost Protocol streaks: `streakTickLocked` of internal/game/features.go.
-- The whole days of a streak.
pub mod Once
use neongrid.Base.{String, if◌then◌else◌, ◌*◌}
use neongrid.Base.Int.{eqb_ℤ, leb_ℤ, ltb_ℤ, pos, quot, ℤ, ◌⊕◌, ◌⊗◌}
use neongrid.Base.Text.{show, ◌⧺◌}
use neongrid.Clock.{Time, hour, is_zero, second, since}
use neongrid.Config.Rules.{rules}
use neongrid.Game.Data.{Player, Rules}
use neongrid.Game.Engine.Action.{Action, gets, pure, ◌>>=◌, ◌>>◌}
use neongrid.Game.Flavor.{format_duration}
use neongrid.Game.Rating.{display_name, level_duration}
use neongrid.Game.World.Steps.{max64, set_user, update_titles_locked}

unfoldable pub streak_length : Time → Player → ℤ
streak_length now p = quot (since now p.streak_since) (24 * hour)

unfoldable pub streak_bonus : Rules → Player → ℤ
streak_bonus rules p = max64 (pos 120) (quot (level_duration rules p.level) 4)

-- The runner that is paid for its days.
unfoldable pub streak_paid : Rules → ℤ → Player → Player
unfolding streak_bonus
streak_paid rules days p = record p {
  streak_days = days;
  progress_seconds = p.progress_seconds ⊕ streak_bonus rules p;
  stats = record p.stats {
    longest_streak = if ltb_ℤ p.stats.longest_streak days then days else p.stats.longest_streak;
  };
}

abbrev pub streak_message : Player → ℤ → ℤ → String
streak_message p days bonus =
    "[GRID] GHOST PROTOCOL: "
    ⧺ display_name p
    ⧺ " has held the link for "
    ⧺ show days
    ⧺ (if eqb_ℤ days (pos 1) then " day" else " days")
    ⧺ " straight. +"
    ⧺ format_duration (bonus ⊗ pos second)
    ⧺ "."

module _ {R : Type 0} where
  unfoldable pub streak_tick : Time → String → Player → Action R (String × Player)
  unfolding streak_length
  streak_tick now key p = do
    rules ← gets (λ e. e.rules)
    if is_zero p.streak_since
        then (do q ← set_user key (record p { streak_since = now }); pure ("", q))
        else if leb_ℤ (streak_length now p) p.streak_days
        then pure ("", p)
        else do
          let days = streak_length now p
          q ← set_user key (streak_paid rules days p)
          r ← update_titles_locked key q
          pure (streak_message r days (streak_bonus rules p), r)
