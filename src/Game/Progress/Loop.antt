-- ===== src/Game/Progress/Loop.antt =====
-- The level-up loop ends, and what it leaves.
use neongrid.Base.{
  Bool-cases, ap, arith, inl, inr, leb→le, suc, true, zero, ℕ, ◌+◌, ◌<◌, ◌^◌, ◌∙◌, ◌≡◌,
}
use neongrid.Base.Int.{
  IsInt64, int_laws, leb_ℤ, pos, pos_part, sub-exact, ℤ, ◌+ℤ◌, ◌-ℤ◌, ◌<ℤ◌, ◌≤ℤ◌, ◌⊕◌, ◌⊖◌,
}
use neongrid.Game.Data.{Player, Rules}
use neongrid.Game.Progress.{Climb, climb, climb_all, gain_level, install}
use neongrid.Game.Rating.{level_duration}
use neongrid.Game.Rating.Bounds.{level_duration_pos}

sub_falls :
    (x d : ℤ) → IsInt64 x → pos 1 ≤ℤ d → d ≤ℤ x → (pos_part (x ⊖ d) < pos_part x) × IsInt64 (x ⊖ d)
unfolding ◌⊖◌
sub_falls x d wide one fits = ground arith

install_keeps :
    (p : Player)
    → ((install p).runner.progress_seconds ≡ p.progress_seconds)
      × ((install p).runner.level ≡ p.level)
      × ((install p).runner.heat ≡ p.heat)
      × ((install p).runner.identity ≡ p.identity)
unfolding install
install_keeps p = ground arith

-- A fact that every level-up keeps holds after the loop.
pub climb_keeps {ℓ} :
    (P : Player → Type ℓ) (rules : Rules)
    → ((p : Player) → P p → P (gain_level rules p).runner)
    → (fuel : ℕ) (c : Climb) → P c.runner
    → P (climb fuel rules c).runner
unfolding climb
climb_keeps P rules keep zero c h = h
climb_keeps P rules keep (suc fuel) c h =
    elim (Bool-cases (leb_ℤ (level_duration rules c.runner.level) c.runner.progress_seconds)) [
      | inl more ↦
          rw more (climb_keeps P rules keep fuel (gain_level rules c.runner) (keep c.runner h))
      | inr done ↦ rw done h
    ]

gain_level_falls :
    (rules : Rules) (p : Player)
    → IsInt64 p.progress_seconds
    → leb_ℤ (level_duration rules p.level) p.progress_seconds ≡ true
    → (pos_part (gain_level rules p).runner.progress_seconds < pos_part p.progress_seconds)
      × IsInt64 (gain_level rules p).runner.progress_seconds
unfolding gain_level
gain_level_falls rules p wide more =
    let d = level_duration rules p.level in
    let q : Player = record p {
      progress_seconds = p.progress_seconds ⊖ d;
      level = p.level ⊕ pos 1;
    } in
    let kept : (install q).runner.progress_seconds ≡ q.progress_seconds = (install_keeps q).0 in
    rw kept
      (sub_falls p.progress_seconds d wide (level_duration_pos rules p.level) (leb→le _ _ more))

-- With a round more than the progress has seconds, the loop ends by its test: what is left does not
-- reach the next level.
climb_ends :
    (fuel : ℕ) (rules : Rules) (c : Climb)
    → IsInt64 c.runner.progress_seconds
    → pos_part c.runner.progress_seconds < fuel
    → let p = (climb fuel rules c).runner in p.progress_seconds <ℤ level_duration rules p.level
unfolding climb
climb_ends zero rules c wide enough = absurd (omega arith)
climb_ends (suc fuel) rules c wide enough =
    elim (Bool-cases (leb_ℤ (level_duration rules c.runner.level) c.runner.progress_seconds)) [
      | inl more ↦
          let (falls, still) = gain_level_falls rules c.runner wide more in
          rw more (climb_ends fuel rules (gain_level rules c.runner) still (omega arith))
      | inr done ↦ rw done (ground arith)
    ]

-- For every runner whose progress is an `int64`, the loop leaves less progress than the next level takes.
pub climb_all_ends :
    (rules : Rules) (p : Player)
    → IsInt64 p.progress_seconds
    → let q = (climb_all rules p).runner in q.progress_seconds <ℤ level_duration rules q.level
unfolding climb_all
climb_all_ends rules p wide = climb_ends _ rules _ wide (omega arith)

-- What the levels from `l` on take, summed without wrap-around over `n` of them.
abbrev pub cost : Rules → ℕ → ℕ → ℤ
cost rules l zero = pos 0
cost rules l (suc n) = level_duration rules (pos l) +ℤ cost rules (suc l) n

sub_exact_within : (x d : ℤ) → IsInt64 x → pos 1 ≤ℤ d → d ≤ℤ x → x ⊖ d ≡ x -ℤ d
unfolding ◌-ℤ◌
sub_exact_within x d wide one fits = sub-exact x d (ground arith)

next_level : (l : ℕ) → suc l < 2 ^ 63 → pos l ⊕ pos 1 ≡ pos (suc l)
unfolding ◌⊕◌
next_level l h = ground arith

gain_level_accounts :
    (rules : Rules) (p : Player) (l : ℕ)
    → IsInt64 p.progress_seconds
    → p.level ≡ pos l
    → suc l < 2 ^ 63
    → leb_ℤ (level_duration rules p.level) p.progress_seconds ≡ true
    → let q = (gain_level rules p).runner in
      (q.level ≡ pos (suc l))
      × (p.progress_seconds ≡ q.progress_seconds +ℤ level_duration rules (pos l))
unfolding gain_level
gain_level_accounts rules p l wide at room more =
    let d = level_duration rules p.level in
    let q : Player = record p {
      progress_seconds = p.progress_seconds ⊖ d;
      level = p.level ⊕ pos 1;
    } in
    let (progress, level, heat, identity) = install_keeps q in
    let exact =
      sub_exact_within p.progress_seconds d wide (level_duration_pos rules p.level)
        (leb→le _ _ more) in
    (
      level ∙ ap (λ z. z ⊕ pos 1) at ∙ next_level l room,
      rw (progress, exact, ← at) (omega int_laws),
    )

climb_accounts :
    (fuel : ℕ) (rules : Rules) (c : Climb) (l : ℕ)
    → IsInt64 c.runner.progress_seconds
    → c.runner.level ≡ pos l
    → l + fuel < 2 ^ 63
    → let q = (climb fuel rules c).runner in
      (n : ℕ) × (q.level ≡ pos (l + n))
      × (c.runner.progress_seconds ≡ q.progress_seconds +ℤ cost rules l n)
unfolding climb
climb_accounts zero rules c l wide at room = (0, at ∙ ap pos (omega arith), omega int_laws)
climb_accounts (suc fuel) rules c l wide at room =
    elim (Bool-cases (leb_ℤ (level_duration rules c.runner.level) c.runner.progress_seconds)) [
      | inl more ↦
          let (falls, still) = gain_level_falls rules c.runner wide more in
          let (up, paid) = gain_level_accounts rules c.runner l wide at (omega arith) more in
          let (n, top, rest) =
            climb_accounts fuel rules (gain_level rules c.runner) (suc l) still up (omega arith) in
          let d = level_duration rules (pos l) in
          rw more (suc n, top ∙ ap pos (omega arith), paid ∙ ap (λ z. z +ℤ d) rest ∙ omega int_laws)
      | inr done ↦ rw done (0, at ∙ ap pos (omega arith), omega int_laws)
    ]

-- For a runner at level `l` whose progress is an `int64`, and whose level has room to rise by as much,
-- the loop raises the level by some `n`, and what the progress has lost is the length of the `n`
-- levels from `l` on, no less and no more.
pub climb_all_accounts :
    (rules : Rules) (p : Player) (l : ℕ)
    → IsInt64 p.progress_seconds
    → p.level ≡ pos l
    → l + suc (pos_part p.progress_seconds) < 2 ^ 63
    → let q = (climb_all rules p).runner in
      (n : ℕ) × (q.level ≡ pos (l + n))
      × (p.progress_seconds ≡ q.progress_seconds +ℤ cost rules l n)
unfolding climb_all
climb_all_accounts rules p l wide at room =
    climb_accounts _ rules (record { runner = p; last_gear = "" }) l wide at room
