-- ===== src/Game/World/Windows.antt =====
-- What a tick leaves of the faction window, and the length of the event log.
use neongrid.Base.{
  List, String, [], ap, arith, false, inl, inr, length, length-drop, refl, true, ◌++◌, ◌-◌, ◌∷◌,
  ◌≡◌, ◌≤◌,
}
use neongrid.Base.Int.{pos, ◌+ℤ◌, ◌≤ℤ◌}
use neongrid.Clock.{Time, add, before, is_zero}
use neongrid.Game.Engine.Action.{Engine, call, intn, pure, save_world, ◌>>=◌}
use neongrid.Game.Profile.{faction_swap_open}
use neongrid.Game.Profile.Effects.{Result-cases}
use neongrid.Game.Repository.{Repository}
use neongrid.Game.World.{
  crash_locks, faction_swap_duration, faction_swap_tick, last_events, next_faction_swap_at,
  open_window, remember,
}

day_after : (now t : Time) → pos 1 ≤ℤ now → is_zero (add now faction_swap_duration) ≡ false
unfolding is_zero add ◌+ℤ◌
day_after now t h = ground arith

not_zero : (now : Time) → pos 1 ≤ℤ now → is_zero now ≡ false
unfolding is_zero
not_zero now h = ground arith

module _ {R : Type 0} ⦃repo : Repository R⦄ where
  save_world-keeps :
      {A : Type 0} (a : A) (e : Engine R) → ((save_world >>= λ done. pure a) e).1.world ≡ e.world
  unfolding ◌>>=◌ save_world call
  save_world-keeps a e = elim (Result-cases (repo.save_world_state e.world e.store).0) [
    | inl (done, saved) ↦ rw saved refl
    | inr (x, refused) ↦ rw refused refl
  ]

  -- The world that a crash of the locks leaves, whatever the store answers.
  crash_locks-world :
      (now : Time) (e : Engine R)
      → ((crash_locks now e).1.world.faction_swap_started_at ≡ now)
        × ((crash_locks now e).1.world.faction_swap_until ≡ add now faction_swap_duration)
  unfolding crash_locks ◌>>=◌ open_window next_faction_swap_at intn
  crash_locks-world now e = (
    ap (λ w. w.faction_swap_started_at) (save_world-keeps _ _),
    ap (λ w. w.faction_swap_until) (save_world-keeps _ _),
  )

  -- When the week's crash is due and no window stands, a tick at a time other than zero opens one, which
  -- then is open at just the times before a day from now, whether or not the store saves it.
  pub faction_swap_tick_opens :
      (now t : Time) (e : Engine R)
      → pos 1 ≤ℤ now
      → is_zero e.world.faction_swap_until ≡ true
      → is_zero e.world.next_faction_swap_at ≡ false
      → before now e.world.next_faction_swap_at ≡ false
      → faction_swap_open (faction_swap_tick now e).1.world t
        ≡ before t (add now faction_swap_duration)
  unfolding faction_swap_tick faction_swap_open
  faction_swap_tick_opens now t e positive shut set due =
      let (start, stop) = crash_locks-world now e in
      rw (shut, set, due, start, stop, not_zero now positive, day_after now t positive) refl

few_last : (events : List String) → length (last_events events) ≤ 20
few_last events = omega (arith, length-drop (length events - 20) events)

module _ {R : Type 0} ⦃repo : Repository R⦄ where
  -- The log of events never holds more than the last 20, whether or not the store saves it.
  remember_few :
      (messages : List String) (e : Engine R)
      → length e.world.recent_events ≤ 20
      → length (remember messages e).1.world.recent_events ≤ 20
  unfolding remember ◌>>=◌ save_world call
  remember_few [] e h = h
  remember_few (m ∷ ms) e h = few_last (e.world.recent_events ++ m ∷ ms)
