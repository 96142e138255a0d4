-- ===== src/Game/World/Streak/Once.antt =====
-- A day of a streak is paid once.
use neongrid.Base.{String, arith, false, refl, true, ◌*◌, ◌≡◌}
use neongrid.Base.Int.{leb_ℤ, pos, quot, ℤ, ◌-ℤ◌, ◌≤ℤ◌}
use neongrid.Clock.{Time, hour, is_zero, since}
use neongrid.Config.Rules.{rules}
use neongrid.Game.Data.{Player, Rules}
use neongrid.Game.Engine.Action.{Engine, pure, ◌>>=◌}
use neongrid.Game.Engine.Gives.{Returns, Returns-bind, Returns-pure, Returns-split}
use neongrid.Game.Engine.Leaves.{Sure-gets}
use neongrid.Game.Repository.{ok}
use neongrid.Game.Safe.{Any}
use neongrid.Game.World.Contracts.{paid}
use neongrid.Game.World.Gives.{set_user-Returns, update_titles_locked-Returns}
use neongrid.Game.World.Steps.{set_user, update_titles_locked}
use neongrid.Game.World.Streak.{
  streak_bonus, streak_length, streak_message, streak_paid, streak_tick,
}

-- Nothing is due to the runner.
record IsPaid (now : Time) (p : Player) : Type 0 where
  started : is_zero p.streak_since ≡ false
  counted : leb_ℤ (streak_length now p) p.streak_days ≡ true

since_now :
    (now : Time) (days : ℤ) → pos 0 ≤ℤ days → leb_ℤ (quot (since now now) (24 * hour)) days ≡ true
unfolding since quot ◌-ℤ◌
since_now now days h = ground arith

leb_refl : (a : ℤ) → leb_ℤ a a ≡ true
leb_refl a = ground arith

module _ {R : Type 0} where
  -- The streak begins.
  start-Returns :
      (now : Time) (key : String) (p : Player)
      → is_zero now ≡ false
      → pos 0 ≤ℤ p.streak_days
      → Returns {R = R}
          (λ (r : String × Player). IsPaid now r.1)
          (set_user key (record p { streak_since = now }) >>= λ q. pure ("", q))
  unfolding streak_length
  start-Returns now key p running days =
      Returns-bind (IsPaid now) _ _ _
        (set_user-Returns (IsPaid now) key _
          (record { started = running; counted = since_now now p.streak_days days }))
        λ q h. Returns-pure _ _ h

  -- The days are paid.
  pay-Returns :
      (now : Time) (key : String) (p : Player) (rules : Rules)
      → is_zero p.streak_since ≡ false
      → let days = streak_length now p in
        Returns {R = R}
          (λ (r : String × Player). IsPaid now r.1)
          (set_user key (streak_paid rules days p) >>= λ q. update_titles_locked key q >>= λ r.
            pure (streak_message r days (streak_bonus rules p), r))
  unfolding streak_length streak_paid
  pay-Returns now key p rules old =
      Returns-bind (IsPaid now) _ _ _
        (set_user-Returns (IsPaid now) key _
          (record { started = old; counted = leb_refl (streak_length now p) }))
        λ q h.
          Returns-bind (IsPaid now) _ _ _
            (update_titles_locked-Returns (IsPaid now) key q
              λ titles. record { started = h.started; counted = h.counted })
            λ r k. Returns-pure _ _ k

  streak_tick-Returns :
      (now : Time) (key : String) (p : Player)
      → is_zero now ≡ false
      → pos 0 ≤ℤ p.streak_days
      → Returns {R = R} (λ (r : String × Player). IsPaid now r.1) (streak_tick now key p)
  unfolding streak_tick
  streak_tick-Returns now key p running days = Returns-bind Any _ _ _ (Sure-gets _) λ rules _.
      Returns-split _ (is_zero p.streak_since) _ _ (λ fresh. start-Returns now key p running days)
        λ old.
          Returns-split _ (leb_ℤ (streak_length now p) p.streak_days) (pure ("", p)) _
            (λ paid. Returns-pure _ _ (record { started = old; counted = paid }))
            (λ due. pay-Returns now key p rules old)

  paid-quiet :
      (now : Time) (key : String) (q : Player) (e : Engine R)
      → IsPaid now q
      → streak_tick now key q e ≡ (ok ("", q), e)
  unfolding streak_tick ◌>>=◌
  paid-quiet now key q e h = rw (h.started, h.counted) refl

  -- At a time other than zero, and for a runner whose count of days is not negative, a tick of the
  -- streak returns, and a second tick for the runner that it gives, at the same time and from any engine,
  -- pays nothing, says nothing and changes nothing.
  pub streak_tick_once :
      (now : Time) (key : String) (p : Player) (e e' : Engine R)
      → is_zero now ≡ false
      → pos 0 ≤ℤ p.streak_days
      → (r : String × Player) × ((streak_tick now key p e).0 ≡ ok r)
        × (streak_tick now key r.1 e' ≡ (ok ("", r.1), e'))
  streak_tick_once now key p e e' running days =
      let (r, run, paid) = (streak_tick-Returns now key p running days).returns e in
      (r, run, paid-quiet now key r.1 e' paid)
