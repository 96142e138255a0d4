-- ===== src/Irc/Limiter/Spacing.antt =====
-- The cooldown table keeps the uses of a key apart.
use mathlib.Core.Path.{subst}
use text.Mathlib.Text.{◌==◌ as text_eq}
use text.Mathlib.TextEquality.{eq_iff}
use neongrid.Base.{
  All, Bool, Bool-cases, List, String, [], arith, false, if-both, inl, inr, refl, some, sym, true,
  ◌*◌, ◌∙◌, ◌∷◌, ◌≡◌, ◌⊎◌,
}
use neongrid.Base.Int.{pos, ◌<ℤ◌, ◌≤ℤ◌}
use neongrid.Base.Map.{Map, get, get-put, put, some_value}
use neongrid.Clock.{Duration, Time, minute, since}
use neongrid.Irc.Limiter.{allow_all, any_cooling, forget, is_cooling, stamp, sweep}
use neongrid.Storage.{later}

since_mono : (t t' now u : Time) → t ≤ℤ t' → now ≤ℤ u → since now t' ≤ℤ since u t
unfolding since
since_mono t t' now u h k = ground arith

false-true : false ≡ true → ⊥
false-true e = cc

-- The key is in the table, with a time between `t` and `u`.
abbrev IsHeld : String → Time → Time → Map Time → Type 0
IsHeld key t u last = (s : Time) × (get key last ≡ some s) × (t ≤ℤ s) × (s ≤ℤ u)

get-forget :
    (key : String) (now s : Time) (last : Map Time)
    → since now s ≤ℤ pos (10 * minute)
    → get key last ≡ some s
    → get key (forget now last) ≡ some s
unfolding get forget
get-forget key now s [] fresh h = h
get-forget key now s ((k, t) ∷ last) fresh h = ground (arith, get-forget key now s last fresh)

get-sweep :
    (key : String) (now s : Time) (last : Map Time)
    → since now s ≤ℤ pos (10 * minute)
    → get key last ≡ some s
    → get key (sweep now last) ≡ some s
unfolding sweep
get-sweep key now s last fresh h = ground (arith, get-forget key now s last fresh)

get-stamp_either :
    (key : String) (now s : Time) (keys : Map Duration) (last : Map Time)
    → get key last ≡ some s
    → (get key (stamp now keys last) ≡ some s) ⊎ (get key (stamp now keys last) ≡ some now)
unfolding stamp
get-stamp_either key now s [] last h = inl h
get-stamp_either key now s ((k, cooldown) ∷ keys) last h = elim (Bool-cases (text_eq k key)) [
  | inl same ↦
      elim (get-stamp_either key now now keys (put k now last)
        (get-put k key now last ∙ rw same refl)) [ inl e ↦ inr e | inr e ↦ inr e ]
  | inr other ↦
      get-stamp_either key now s keys (put k now last) (get-put k key now last ∙ rw other h)
]

get-stamp :
    (key : String) (now : Time) (c : Duration) (keys : Map Duration) (last : Map Time)
    → get key keys ≡ some c
    → get key (stamp now keys last) ≡ some now
unfolding stamp get
get-stamp key now c [] last h = absurd (cc)
get-stamp key now c ((k, d) ∷ keys) last h = elim (Bool-cases (text_eq k key)) [
  | inl same ↦
      elim (get-stamp_either key now now keys (put k now last)
        (get-put k key now last ∙ rw same refl)) [ inl e ↦ e | inr e ↦ e ]
  | inr other ↦ get-stamp key now c keys (put k now last) (rw other at h)
]

-- A command that the table is asked about: when, and under which keys.
abbrev pub Ask : Type 0
Ask = Time × Map Duration

-- The table after a sequence of commands, granted or not.
unfoldable pub asked : List Ask → Map Time → Map Time
asked [] last = last
asked ((now, keys) ∷ asks) last = asked asks (allow_all now keys last).1

abbrev Between : Time → Time → Ask → Type 0
Between t u (now, keys) = (t ≤ℤ now) × (now ≤ℤ u)

allow_all-IsHeld :
    (key : String) (t u now : Time) (keys : Map Duration) (last : Map Time)
    → since u t ≤ℤ pos (10 * minute)
    → t ≤ℤ now
    → now ≤ℤ u
    → IsHeld key t u last
    → IsHeld key t u (allow_all now keys last).1
unfolding allow_all
allow_all-IsHeld key t u now keys last short from to (s, at, lo, hi) =
    let mono = since_mono t s now u lo to in
    let kept = get-sweep key now s last (omega arith) at in
    let granted : IsHeld key t u (stamp now keys (sweep now last)) =
      elim (get-stamp_either key now s keys (sweep now last) kept) [
        | inl e ↦ (s, e, lo, hi)
        | inr e ↦ (now, e, from, to)
      ] in
    if-both (λ (r : Bool × Map Time). IsHeld key t u r.1) (any_cooling now last keys) _ _
      (s, at, lo, hi) granted

asked-IsHeld :
    (key : String) (t u : Time) (asks : List Ask) (last : Map Time)
    → since u t ≤ℤ pos (10 * minute)
    → All (Between t u) asks
    → IsHeld key t u last
    → IsHeld key t u (asked asks last)
unfolding asked
asked-IsHeld key t u [] last short within held = held
asked-IsHeld key t u ((now, keys) ∷ asks) last short within held =
    asked-IsHeld key t u asks (allow_all now keys last).1 short within.1
      (allow_all-IsHeld key t u now keys last short within.0.0 within.0.1 held)

held_cools :
    (key : String) (t u : Time) (c : Duration) (keys : Map Duration) (last : Map Time)
    → since u t <ℤ c
    → get key keys ≡ some c
    → IsHeld key t u last
    → any_cooling u last keys ≡ true
unfolding any_cooling is_cooling get
held_cools key t u c [] last soon asks held = absurd (cc)
held_cools key t u c ((k, d) ∷ keys) last soon asks (s, at, lo, hi) =
    let mono = since_mono t s u u lo (omega arith) in
    elim (Bool-cases (text_eq k key)) [
      | inl same ↦
          let here : get k last ≡ some s =
            subst (λ j. get j last ≡ some s) (sym ((eq_iff k key).0 same)) at in
          let cap : d ≡ c = some_value (rw same at asks) in ground (arith, here, cap)
      | inr other ↦
          ground (arith, held_cools key t u c keys last soon (rw other at asks) (s, at, lo, hi))
    ]

-- A table that grants a command at `t`, with `key` among its keys, refuses at `u` every command in
-- which `key` has a cooldown longer than the time since `t`, of ten minutes at most; whatever was
-- asked between, granted or refused, and whatever the table forgot meanwhile.
pub allow_all_spaces :
    (key : String) (t u : Time) (c c' : Duration) (keys keys' : Map Duration) (asks : List Ask)
    (last : Map Time)
    → (allow_all t keys last).0 ≡ true
    → get key keys ≡ some c
    → get key keys' ≡ some c'
    → t ≤ℤ u
    → since u t <ℤ c'
    → c' ≤ℤ pos (10 * minute)
    → All (Between t u) asks
    → (allow_all u keys' (asked asks (allow_all t keys last).1)).0 ≡ false
unfolding allow_all
allow_all_spaces key t u c c' keys keys' asks last granted has has' later soon small within =
    elim (Bool-cases (any_cooling t last keys)) [
      | inl blocked ↦ absurd (false-true (rw blocked at granted))
      | inr free ↦
          let held : IsHeld key t u (stamp t keys (sweep t last)) =
            (t, get-stamp key t c keys (sweep t last) has, omega arith, later) in
          let kept =
            asked-IsHeld key t u asks (stamp t keys (sweep t last)) (omega arith) within held in
          let cools =
            held_cools key t u c' keys' (asked asks (stamp t keys (sweep t last))) soon has' kept in
          rw (free, cools) refl
    ]

-- A command is granted to every key or to none: it is refused and leaves the table as it was, or it is
-- granted and starts the cooldown of each of its keys.
pub allow_all_whole :
    (now : Time) (keys : Map Duration) (last : Map Time) (key : String) (c : Duration)
    → get key keys ≡ some c
    → (allow_all now keys last ≡ (false, last))
      ⊎ (((allow_all now keys last).0 ≡ true) × (get key (allow_all now keys last).1 ≡ some now))
unfolding allow_all
allow_all_whole now keys last key c has = elim (Bool-cases (any_cooling now last keys)) [
  | inl blocked ↦ rw blocked (inl refl)
  | inr free ↦ rw free (inr (refl, get-stamp key now c keys (sweep now last) has))
]
