-- ===== src/Game/World/DeadDrop.antt =====
-- Dead drops of internal/game/features.go: a code that is hidden in noise while the pirate frequency
-- is open.
pub mod Noise
pub mod Quiet
pub mod Between
pub mod Claim
use Prim.Native.Char.{Char, code}
use Prim.Native.String.{char_at, len}
use text.Mathlib.Text.{◌==◌ as text_eq}
use neongrid.Base.{
  Bool, Option, String, [], if◌then◌else◌, none, not, some, suc, zero, ℕ, ◌&&◌, ◌||◌, ◌∷◌,
}
use neongrid.Base.Int.{pos, quot, ℤ, ◌⊕◌, ◌⊗◌}
use neongrid.Base.Text.{equal_fold, trim_space, ◌⧺◌}
use neongrid.Clock.{Time, add, before, second}
use neongrid.Config.Rules.{rules}
use neongrid.Game.Data.{Player, WorldState}
use neongrid.Game.Engine.Action.{Action, gets, intn, pure, save, ◌>>=◌, ◌>>◌}
use neongrid.Game.Engine.Users.{Entry, advance_locked, find_locked}
use neongrid.Game.Flavor.{format_duration}
use neongrid.Game.Rating.{display_name, level_duration}
use neongrid.Game.Repository.{Repository}
use neongrid.Game.World.{remember}
use neongrid.Game.World.Steps.{edit_world, max64, score_faction, set_user, update_titles_locked}

abbrev pub dead_drop_alphabet : String
dead_drop_alphabet = "ACDEFHJKMNPRTVWXY3479"

abbrev pub dead_drop_noise : String
dead_drop_noise = "#%&@*+=~"

abbrev pub letter : ℕ → Char
letter i = char_at dead_drop_alphabet i

abbrev pub noise : ℕ → Char
noise j = char_at dead_drop_noise j

unfoldable pub pocketed : ℤ → Player → Player
pocketed gain p = record p {
  progress_seconds = p.progress_seconds ⊕ gain;
  stats = record p.stats { dead_drops = p.stats.dead_drops ⊕ pos 1 };
}

-- Whether the text is the code of the drop that is open.
abbrev pub is_clean_code : Time → WorldState → String → Bool
is_clean_code now world text =
    not (text_eq world.dead_drop "")
    && before now world.pirate_until
    && equal_fold (trim_space text) world.dead_drop

module _ {R : Type 0} where
  -- The loop that writes `n` letters: the code, and the code with noise between its letters.
  unfoldable pub write_code : ℕ → Action R (String × String)
  write_code zero = pure ("", "")
  write_code (suc zero) = do
    i ← intn (len dead_drop_alphabet)
    let c = String.◌∷◌ (letter i) ""
    pure (c, c)
  write_code (suc (suc n)) = do
    i ← intn (len dead_drop_alphabet)
    j ← intn (len dead_drop_noise)
    (code, garbled) ← write_code (suc n)
    pure (String.◌∷◌ (letter i) code, String.◌∷◌ (letter i) (String.◌∷◌ (noise j) garbled))

  unfoldable pub open_pirate_frequency : Time → Action R String
  open_pirate_frequency now = do
    rules ← gets (λ e. e.rules)
    edit_world (λ w. record w { pirate_until = add now rules.pirate_duration })
    (code, garbled) ← write_code 5
    edit_world (λ w. record w { dead_drop = code })
    pure (
        "[GRID] PIRATE FREQUENCY: channel transmissions are safe for "
        ⧺ format_duration rules.pirate_duration
        ⧺ ". A DEAD DROP is buried in the static: "
        ⧺ garbled
        ⧺ ". Strip the noise and transmit the clean code to claim it.")

  abbrev pub clear_dead_drop : Action R (Unit {0})
  clear_dead_drop = edit_world (λ w. record w { dead_drop = "" })

  unfoldable pub dead_drop_expiry : Time → Action R String
  dead_drop_expiry now = do
    world ← gets (λ e. e.world)
    if text_eq world.dead_drop "" || before now world.pirate_until then pure "" else do
      clear_dead_drop
      pure "[GRID] The pirate frequency closed. The dead drop decayed back into static, unclaimed."

module _ {R : Type 0} ⦃repo : Repository R⦄ where
  unfoldable pub force_pirate : Time → Action R String
  force_pirate now = do message ← open_pirate_frequency now; remember (message ∷ []); pure message

  abbrev pub pocket : Time → Entry → Action R String
  pocket now (key, p) = do
    q ← advance_locked key p now
    rules ← gets (λ e. e.rules)
    let gain = max64 (pos 60) (quot (level_duration rules q.level) 10)
    r ← set_user key (pocketed gain q)
    score_faction r (pos 1)
    s ← update_titles_locked key r
    clear_dead_drop
    let message =
        "[GRID] DEAD DROP claimed: "
        ⧺ display_name s
        ⧺ " decoded the static and pocketed "
        ⧺ format_duration (gain ⊗ pos second)
        ⧺ "."
    save s
    remember (message ∷ [])
    pure message

  abbrev pub pocket_if : Time → Option Entry → Action R String
  pocket_if now none = pure ""
  pocket_if now (some x) = if x.1.connected then pocket now x else pure ""

  unfoldable pub claim_dead_drop : String → String → String → String → Time → Action R String
  claim_dead_drop identity nick channel text now e =
      if equal_fold channel e.rules.game_channel && is_clean_code now e.world text
      then pocket_if now (find_locked identity nick e.users) e
      else pure "" e
