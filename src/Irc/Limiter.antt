-- ===== src/Irc/Limiter.antt =====
-- The cooldown table of internal/irc/ratelimit.go. The lock makes every call one step, so a call is
-- a function from the table to the answer and the new table.
pub mod Spacing
use neongrid.Base.{
  Bool, String, [], false, if◌then◌else◌, length, ltb, none, some, true, ◌*◌, ◌||◌, ◌∷◌,
}
use neongrid.Base.Int.{ltb_ℤ, pos}
use neongrid.Base.Map.{Map, get, put}
use neongrid.Clock.{Duration, Time, minute, second, since}

abbrev pub command_cooldown : Duration
command_cooldown = pos (3 * second)

abbrev pub multi_line_cooldown : Duration
multi_line_cooldown = pos (60 * second)

abbrev pub target_cooldown : Duration
target_cooldown = pos (30 * second)

abbrev pub penalty_notice_cooldown : Duration
penalty_notice_cooldown = pos (20 * second)

-- A key that is in the table for less than its cooldown.
unfoldable pub is_cooling : Time → Map Time → String → Duration → Bool
is_cooling now last key cooldown = elim (get key last) [
  | none ↦ false
  | some t ↦ ltb_ℤ (since now t) cooldown
]

unfoldable pub any_cooling : Time → Map Time → Map Duration → Bool
unfolding is_cooling
any_cooling now last [] = false
any_cooling now last ((key, cooldown) ∷ keys) =
    is_cooling now last key cooldown || any_cooling now last keys

-- The loop that forgets keys after ten minutes.
unfoldable pub forget : Time → Map Time → Map Time
forget now [] = []
forget now ((key, t) ∷ last) =
    let rest = forget now last in
    if ltb_ℤ (pos (10 * minute)) (since now t) then rest else (key, t) ∷ rest

unfoldable pub sweep : Time → Map Time → Map Time
sweep now last = if ltb 512 (length last) then forget now last else last

unfoldable pub stamp : Time → Map Duration → Map Time → Map Time
stamp now [] last = last
stamp now ((key, cooldown) ∷ keys) last = stamp now keys (put key now last)

unfoldable pub allow_all : Time → Map Duration → Map Time → Bool × Map Time
allow_all now keys last =
    if any_cooling now last keys then (false, last) else (true, stamp now keys (sweep now last))

unfoldable pub allow : String → Duration → Time → Map Time → Bool × Map Time
unfolding allow_all
allow key cooldown now last = allow_all now ((key, cooldown) ∷ []) last
