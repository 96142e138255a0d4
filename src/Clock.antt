-- ===== src/Clock.antt =====
-- Go's `time` as the engine uses it. A `time.Time` is its count of nanoseconds since the zero time,
-- so that `IsZero` is a test for 0, and a `time.Duration` is an `int64` of nanoseconds.
use neongrid.Base.{Bool, if◌then◌else◌, ℕ, ◌*◌, ◌-◌, ◌^◌}
use neongrid.Base.Int.{eqb_ℤ, ltb_ℤ, negsuc, pos, quot, ℤ, ◌+ℤ◌, ◌-ℤ◌}

abbrev pub Time : Type 0
Time = ℤ

abbrev pub Duration : Type 0
Duration = ℤ

abbrev pub second : ℕ
second = 1_000_000_000

abbrev pub minute : ℕ
minute = 60 * second

abbrev pub hour : ℕ
hour = 60 * minute

abbrev pub zero_time : Time
zero_time = pos 0

unfoldable pub is_zero : Time → Bool
is_zero t = eqb_ℤ t zero_time

unfoldable pub before : Time → Time → Bool
before t u = ltb_ℤ t u

unfoldable pub after : Time → Time → Bool
after t u = ltb_ℤ u t

-- `t.Add(d)`: the count of seconds in a `time.Time` has room for every sum formed here.
unfoldable pub add : Time → Duration → Time
add t d = t +ℤ d

-- A duration out of the range of `int64` is the end of the range.
abbrev saturate : ℤ → Duration
saturate d =
    if ltb_ℤ (pos (2 ^ 63 - 1)) d
    then pos (2 ^ 63 - 1)
    else if ltb_ℤ d (negsuc (2 ^ 63 - 1))
    then negsuc (2 ^ 63 - 1)
    else d

-- `t.Sub(u)`
unfoldable pub since : Time → Time → Duration
unfolding ◌-ℤ◌
since t u = saturate (t -ℤ u)

-- `int64(d / time.Second)`
unfoldable pub seconds : Duration → ℤ
unfolding quot
seconds d = quot d second
