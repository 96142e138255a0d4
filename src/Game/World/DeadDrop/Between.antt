-- ===== src/Game/World/DeadDrop/Between.antt =====
-- Any requests but ticks and `ForcePirate`, at any times, open no dead drop.
use mathlib.Core.Path.{subst}
use text.Mathlib.Text.{◌==◌ as text_eq}
use neongrid.Base.{
  All, Bool, Bool-cases, List, Option, String, [], ap, false, inl, inr, length, none, refl, some,
  sym, true, ◌||◌, ◌∷◌, ◌≡◌,
}
use neongrid.Base.Int.{ℤ}
use neongrid.Base.Map.{Map}
use neongrid.Base.Text.{equal_fold}
use neongrid.Clock.{Duration, Time}
use neongrid.Game.Data.{Activity, Player}
use neongrid.Game.Engine.Action.{Action, Engine, pure}
use neongrid.Game.Engine.Leaves.{
  Keeps-bind, Keeps-call, Keeps-either, Keeps-pure, Keeps-raise_if, Keeps-read,
}
use neongrid.Game.Engine.Users.{Entry}
use neongrid.Game.Join.{bind, join_locked, leave_account, migrate}
use neongrid.Game.Leave.{
  disconnect, disconnect_all, disconnect_each, disconnect_one, drop_missing, forfeit, missed,
  reconcile, reconcile_each, reconcile_one,
}
use neongrid.Game.Rename.{move_key, rename}
use neongrid.Game.Repository.{Repository, ok}
use neongrid.Game.Requests.{Request, history, ignore, perform}
use neongrid.Game.Start.Boot.{new}
use neongrid.Game.Views.{top, top_each, top_one}
use neongrid.Game.World.DeadDrop.{claim_dead_drop}
use neongrid.Game.World.DeadDrop.Quiet.{
  NoDrop, Quiet, activity-Quiet, advance-Quiet, arrive-Quiet, commit-Quiet, delete_user-Quiet,
  fail_contract-Quiet, missing-Quiet, put_user-Quiet, rekey-Quiet, require-Quiet, save-Quiet,
  save_world_if-Quiet, set_alias-Quiet, set_faction-Quiet, set_stance-Quiet, set_title-Quiet,
  status-Quiet,
}

module _ {R : Type 0} ⦃repo : Repository R⦄ where
  migrate-Quiet :
      (o : Option Entry) (identity nick account : String) (now : Time)
      → Quiet {R = R} (migrate o identity nick account now)
  unfolding migrate
  migrate-Quiet none identity nick account now = Keeps-read _ _ λ users. Keeps-pure _
  migrate-Quiet (some (key, guest)) identity nick account now =
      Keeps-bind _ _ (advance-Quiet key guest now) λ q. Keeps-bind _ _ (save-Quiet q) λ saved.
        Keeps-bind _ _ (Keeps-call _ λ e s h. h) λ migrated.
          Keeps-bind _ _ (delete_user-Quiet _) λ gone.
            Keeps-bind _ _ (put_user-Quiet identity migrated)
              λ there. Keeps-bind _ _ (rekey-Quiet _ _) λ changed. Keeps-pure _

  join_locked-Quiet :
      (nick account : String) (now : Time) → Quiet {R = R} (join_locked nick account now)
  unfolding join_locked
  join_locked-Quiet nick account now = Keeps-read _ _ λ users.
      Keeps-bind _ _ (migrate-Quiet _ _ nick account now) λ r.
        Keeps-bind _ _ (arrive-Quiet r.0 _ nick account now) λ p.
          Keeps-bind _ _ (commit-Quiet _ _)
            λ done. Keeps-bind _ _ (save_world_if-Quiet r.1) λ saved. Keeps-pure _

  leave_account-Quiet :
      (o : Option Entry) (identity : String) (now : Time)
      → Quiet {R = R} (leave_account o identity now)
  unfolding leave_account
  leave_account-Quiet none identity now = Keeps-pure false
  leave_account-Quiet (some (key, p)) identity now = Keeps-either _ _ _ (Keeps-pure false) (
      Keeps-bind _ _ (advance-Quiet key p now) λ q. Keeps-bind _ _ (put_user-Quiet key _) λ there.
        Keeps-bind _ _ (fail_contract-Quiet _)
          λ changed. Keeps-bind _ _ (save-Quiet _) λ saved. Keeps-pure changed)

  bind-Quiet : (nick account : String) (now : Time) → Quiet {R = R} (bind nick account now)
  unfolding bind
  bind-Quiet nick account now = Keeps-bind _ _ (Keeps-raise_if _ _) λ named. Keeps-read _ _ λ users.
      Keeps-bind _ _ (leave_account-Quiet _ _ now) λ changed.
        Keeps-bind _ _ (join_locked-Quiet nick account now)
          λ p. Keeps-bind _ _ (save_world_if-Quiet changed) λ saved. Keeps-pure p

  forfeit-Quiet : (kind : Activity) (key : String) (p : Player) → Quiet {R = R} (forfeit kind key p)
  unfolding forfeit
  forfeit-Quiet kind key p = Keeps-either _ _ _ (Keeps-pure _) (
      Keeps-bind _ _ (put_user-Quiet key p)
        λ there. Keeps-bind _ _ (fail_contract-Quiet _) λ changed. Keeps-pure _)

  disconnect-Quiet :
      (nick : String) (kind : Activity) (now : Time) → Quiet {R = R} (disconnect nick kind now)
  unfolding disconnect
  disconnect-Quiet nick kind now = Keeps-bind _ _ (require-Quiet "" nick) λ x.
      Keeps-bind _ _ (Keeps-raise_if _ _) λ present. Keeps-bind _ _ (advance-Quiet x.0 x.1 now) λ q.
        Keeps-read _ _ λ rules. Keeps-bind _ _ (forfeit-Quiet kind x.0 _) λ r.
          Keeps-bind _ _ (commit-Quiet x.0 r.0)
            λ done. Keeps-bind _ _ (save_world_if-Quiet r.1) λ saved. Keeps-pure _

  disconnect_one-Quiet :
      (key : String) (p : Player) (now : Time) → Quiet {R = R} (disconnect_one key p now)
  unfolding disconnect_one
  disconnect_one-Quiet key p now =
      Keeps-either _ _ _ (Keeps-pure tt)
        (Keeps-bind _ _ (advance-Quiet key p now) λ q. commit-Quiet key _)

  disconnect_each-Quiet :
      (users : Map Player) (now : Time) → Quiet {R = R} (disconnect_each users now)
  unfolding disconnect_each
  disconnect_each-Quiet [] now = Keeps-pure tt
  disconnect_each-Quiet ((key, p) ∷ users) now =
      Keeps-bind _ _ (disconnect_one-Quiet key p now) λ done. disconnect_each-Quiet users now

  disconnect_all-Quiet : (now : Time) → Quiet {R = R} (disconnect_all now)
  unfolding disconnect_all
  disconnect_all-Quiet now =
      Keeps-read _ _
        λ users. Keeps-bind _ _ (disconnect_each-Quiet users now) λ done. missing-Quiet (λ e. [])

  drop_missing-Quiet :
      (key : String) (p : Player) (now : Time) → Quiet {R = R} (drop_missing key p now)
  unfolding drop_missing
  drop_missing-Quiet key p now = Keeps-bind _ _ (missing-Quiet _) λ noted.
      Keeps-bind _ _ (advance-Quiet key p now) λ q. Keeps-bind _ _ (put_user-Quiet key _) λ there.
        Keeps-bind _ _ (fail_contract-Quiet _)
          λ changed. Keeps-bind _ _ (save-Quiet _) λ saved. Keeps-pure changed

  missed-Quiet :
      (o : Option Time) (grace : Duration) (now : Time) (key : String) (p : Player)
      → Quiet {R = R} (missed o grace now key p)
  unfolding missed
  missed-Quiet none grace now key p = Keeps-bind _ _ (missing-Quiet _) λ noted. Keeps-pure false
  missed-Quiet (some seen) grace now key p =
      Keeps-either _ _ _ (Keeps-pure false) (drop_missing-Quiet key p now)

  reconcile_one-Quiet :
      (present : String → Bool) (grace : Duration) (now : Time) (key : String) (p : Player)
      → Quiet {R = R} (reconcile_one present grace now key p)
  unfolding reconcile_one
  reconcile_one-Quiet present grace now key p =
      Keeps-either _ _ _ (Keeps-bind _ _ (missing-Quiet _) λ noted. Keeps-pure false)
        (Keeps-read _ _ λ seen. missed-Quiet seen grace now key p)

  reconcile_each-Quiet :
      (present : String → Bool) (grace : Duration) (now : Time) (users : Map Player) (b : Bool)
      → Quiet {R = R} (reconcile_each present grace now users b)
  unfolding reconcile_each
  reconcile_each-Quiet present grace now [] b = Keeps-pure b
  reconcile_each-Quiet present grace now ((key, p) ∷ users) b =
      Keeps-bind _ _ (reconcile_one-Quiet present grace now key p)
        λ failed. reconcile_each-Quiet present grace now users (failed || b)

  reconcile-Quiet :
      (present : String → Bool) (grace : Duration) (now : Time)
      → Quiet {R = R} (reconcile present grace now)
  unfolding reconcile
  reconcile-Quiet present grace now = Keeps-read _ _ λ users.
      Keeps-bind _ _ (reconcile_each-Quiet present grace now users false)
        λ changed. Keeps-bind _ _ (missing-Quiet _) λ left. save_world_if-Quiet changed

  move_key-Quiet :
      (rekey : Bool) (old new : String) (p : Player) → Quiet {R = R} (move_key rekey old new p)
  unfolding move_key
  move_key-Quiet rekey old new p = Keeps-either _ _ _ (Keeps-pure _) (
      Keeps-bind _ _ (delete_user-Quiet old) λ gone.
        Keeps-bind _ _ (rekey-Quiet old new)
          λ changed. Keeps-bind _ _ (Keeps-call _ λ e s h. h) λ deleted. Keeps-pure _)

  rename-Quiet : (old new : String) (now : Time) → Quiet {R = R} (rename old new now)
  unfolding rename
  rename-Quiet old new now = Keeps-bind _ _ (require-Quiet "" old) λ x.
      Keeps-bind _ _ (Keeps-raise_if _ _) λ present. Keeps-read _ _ λ users.
        Keeps-bind _ _ (advance-Quiet x.0 x.1 now) λ q. Keeps-read _ _ λ rules.
          Keeps-bind _ _ (move_key-Quiet _ _ _ _) λ r.
            Keeps-bind _ _ (commit-Quiet _ _)
              λ done. Keeps-bind _ _ (save_world_if-Quiet r.1) λ saved. Keeps-pure _

  top_one-Quiet : (key : String) (p : Player) (now : Time) → Quiet {R = R} (top_one key p now)
  unfolding top_one
  top_one-Quiet key p now =
      Keeps-either _ _ _ (Keeps-pure tt)
        (Keeps-bind _ _ (advance-Quiet key p now) λ q. save-Quiet q)

  top_each-Quiet : (users : Map Player) (now : Time) → Quiet {R = R} (top_each users now)
  unfolding top_each
  top_each-Quiet [] now = Keeps-pure tt
  top_each-Quiet ((key, p) ∷ users) now =
      Keeps-bind _ _ (top_one-Quiet key p now) λ done. top_each-Quiet users now

  top-Quiet : (limit : ℤ) (now : Time) → Quiet {R = R} (top limit now)
  unfolding top
  top-Quiet limit now =
      Keeps-read _ _
        λ users. Keeps-bind _ _ (top_each-Quiet users now) λ done. Keeps-call _ λ e s h. h

  -- While no drop is open, a claim is answered with nothing and changes nothing.
  pub claim-none :
      (identity nick channel text : String) (now : Time) (e : Engine R)
      → NoDrop e
      → claim_dead_drop identity nick channel text now e ≡ (ok "", e)
  unfolding claim_dead_drop pure
  claim-none identity nick channel text now e h =
      let none_open = ap (λ d. text_eq d "") h in
      elim (Bool-cases (equal_fold channel e.rules.game_channel)) [
        | inl here ↦ rw (here, none_open) refl
        | inr elsewhere ↦ rw elsewhere refl
      ]

  claim-Quiet :
      (identity nick channel text : String) (now : Time)
      → Quiet {R = R} (claim_dead_drop identity nick channel text now)
  claim-Quiet identity nick channel text now = record {
    keeps = λ e h. subst (λ r. NoDrop r.1) (sym (claim-none identity nick channel text now e h)) h;
  }

-- A request that may open a pirate frequency.
abbrev pub may_open : Request → Bool
may_open Request.tick = true
may_open Request.force_pirate = true
may_open _ = false

module _ {R : Type 0} ⦃repo : Repository R⦄ where
  ignore-Quiet : {A : Type 0} (m : Action R A) → Quiet m → Quiet (ignore m)
  unfolding ignore
  ignore-Quiet m h = Keeps-bind _ _ h λ a. Keeps-pure tt

  perform-Quiet : (now : Time) (q : Request) → may_open q ≡ false → Quiet {R = R} (perform now q)
  unfolding perform
  perform-Quiet now (Request.join nick account) quiet =
      ignore-Quiet _ (join_locked-Quiet nick account now)
  perform-Quiet now (Request.bind nick account) quiet = ignore-Quiet _ (bind-Quiet nick account now)
  perform-Quiet now (Request.rename old new) quiet = ignore-Quiet _ (rename-Quiet old new now)
  perform-Quiet now (Request.disconnect nick kind) quiet =
      ignore-Quiet _ (disconnect-Quiet nick kind now)
  perform-Quiet now Request.disconnect_all quiet = disconnect_all-Quiet now
  perform-Quiet now (Request.reconcile present grace) quiet = reconcile-Quiet present grace now
  perform-Quiet now (Request.set_alias identity nick name) quiet =
      ignore-Quiet _ (set_alias-Quiet identity nick name now)
  perform-Quiet now (Request.set_title identity nick name) quiet =
      ignore-Quiet _ (set_title-Quiet identity nick name now)
  perform-Quiet now (Request.set_faction identity nick name) quiet =
      ignore-Quiet _ (set_faction-Quiet identity nick name now)
  perform-Quiet now (Request.set_stance identity nick name) quiet =
      ignore-Quiet _ (set_stance-Quiet identity nick name now)
  perform-Quiet now (Request.activity identity nick channel kind length) quiet =
      ignore-Quiet _ (activity-Quiet identity nick channel kind length now)
  perform-Quiet now (Request.status identity nick) quiet =
      ignore-Quiet _ (status-Quiet identity nick now)
  perform-Quiet now (Request.top limit) quiet = ignore-Quiet _ (top-Quiet limit now)
  perform-Quiet now Request.tick quiet = absurd (cc)
  perform-Quiet now (Request.claim_dead_drop identity nick channel text) quiet =
      ignore-Quiet _ (claim-Quiet identity nick channel text now)
  perform-Quiet now Request.force_pirate quiet = absurd (cc)

  pub history-NoDrop :
      (requests : List (Time × Request)) (e : Engine R)
      → All (λ (r : Time × Request). may_open r.1 ≡ false) requests
      → NoDrop e
      → NoDrop (history requests e)
  unfolding history
  history-NoDrop [] e quiet h = h
  history-NoDrop ((now, q) ∷ rest) e quiet h =
      history-NoDrop rest (perform now q e).1 quiet.1 ((perform-Quiet now q quiet.0).keeps e h)
