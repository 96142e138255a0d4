-- ===== src/Game/World/DeadDrop/Quiet.antt =====
-- Requests that open no pirate frequency: while no dead drop is open, none is open after them.
use text.Mathlib.Text.{◌==◌ as text_eq}
use neongrid.Base.{
  Bool, Option, String, false, if-both, if◌then◌else◌, length, none, some, true, ℕ, ◌≡◌,
}
use neongrid.Base.Int.{ℤ}
use neongrid.Base.Map.{Map}
use neongrid.Base.Text.{equal_fold}
use neongrid.Clock.{Duration, Time}
use neongrid.Game.Contract.{
  dropped, is_in, mark_contract_failed, rekey_contract_participant, renamed, set_contract,
}
use neongrid.Game.Data.{Activity, Contract, Player}
use neongrid.Game.Engine.Action.{
  Action, Engine, call, intn, modify, pure, save, save_world, save_world_if, ◌>>◌,
}
use neongrid.Game.Engine.Leaves.{
  Keeps, Keeps-bind, Keeps-call, Keeps-either, Keeps-modify, Keeps-pure, Keeps-raise,
  Keeps-raise_if, Keeps-read,
}
use neongrid.Game.Engine.Users.{
  Entry, advance_locked, commit, delete_user, note_climbs, or_not_found, put_user, queue_locked,
  require,
}
use neongrid.Game.Join.{arrive, stagger, stagger_timers}
use neongrid.Game.Profile.{
  activity, raise_some, set_alias, set_faction, set_stance, set_title, status, transmit,
}
use neongrid.Game.Repository.{Error, Repository, Result, ok}
use neongrid.Game.Start.Boot.{new}

-- No drop is open.
abbrev pub NoDrop : {R : Type 0} → Engine R → Type 0
NoDrop e = e.world.dead_drop ≡ ""

-- `m` leaves a drop that is not open so.
abbrev pub Quiet : {R A : Type 0} → Action R A → Type 0
Quiet m = Keeps NoDrop m

module _ {R : Type 0} where
  pub require-Quiet : (identity nick : String) → Quiet {R = R} (require identity nick)
  unfolding require or_not_found
  require-Quiet identity nick = Keeps-read _ _ λ found. found_or found
    where
      found_or : (o : Option Entry) → Quiet {R = R} (or_not_found o)
      found_or none = Keeps-raise Error.runner_not_found
      found_or (some x) = Keeps-pure x

  pub put_user-Quiet : (key : String) (p : Player) → Quiet {R = R} (put_user key p)
  unfolding put_user
  put_user-Quiet key p = Keeps-modify _ λ e h. h

  pub delete_user-Quiet : (key : String) → Quiet {R = R} (delete_user key)
  unfolding delete_user
  delete_user-Quiet key = Keeps-modify _ λ e h. h

  pub missing-Quiet :
      (f : Engine R → Map Time) → Quiet (modify (λ e. record e { missing_since = f e }))
  missing-Quiet f = Keeps-modify _ λ e h. h

  intn-Quiet : (n : ℕ) → Quiet {R = R} (intn n)
  unfolding intn
  intn-Quiet n = record { keeps = λ e h. h }

  pub advance-Quiet :
      (key : String) (p : Player) (now : Time) → Quiet {R = R} (advance_locked key p now)
  unfolding advance_locked queue_locked note_climbs
  advance-Quiet key p now = Keeps-read _ _ λ rules. Keeps-bind _ _ (put_user-Quiet key _) λ done.
      Keeps-bind _ _ (Keeps-modify _ λ e h. h) λ queued.
        Keeps-bind _ _ (Keeps-either _ _ _ (Keeps-modify _ λ e h. h) (Keeps-pure tt))
          λ noted. Keeps-pure _

  pub fail_contract-Quiet : (identity : String) → Quiet {R = R} (mark_contract_failed identity)
  unfolding mark_contract_failed set_contract
  fail_contract-Quiet identity = record { keeps = λ e h. failed e.world.contract e h }
    where
      failed :
          (o : Option Contract) (e : Engine R)
          → NoDrop e
          → let r : Result Bool × Engine R = elim o [
            | none ↦ (ok false, e)
            | some c ↦
                if c.failed
                then (ok false, e)
                else if is_in identity c.participants
                then (ok true, set_contract (dropped identity e.users c) e)
                else (ok false, e)
          ] in
            NoDrop r.1
      failed none e h = h
      failed (some c) e h =
          let P : Result Bool × Engine R → Type 0 = λ r. NoDrop r.1 in
          if-both P c.failed _ _ h (if-both P (is_in identity c.participants) _ _ h h)

  pub rekey-Quiet : (old new : String) → Quiet {R = R} (rekey_contract_participant old new)
  unfolding rekey_contract_participant set_contract
  rekey-Quiet old new = record { keeps = λ e h. rekeyed e.world.contract e h }
    where
      rekeyed :
          (o : Option Contract) (e : Engine R)
          → NoDrop e
          → let r : Result Bool × Engine R = elim o [
            | none ↦ (ok false, e)
            | some c ↦ if text_eq old new then (ok false, e) else (
              ok (is_in old c.participants),
              set_contract (record c { participants = renamed old new c.participants }) e,
            )
          ] in
            NoDrop r.1
      rekeyed none e h = h
      rekeyed (some c) e h =
          if-both (λ (r : Result Bool × Engine R). NoDrop r.1) (text_eq old new) _ _ h h

  stagger-Quiet : (now at : Time) (interval : Duration) → Quiet {R = R} (stagger now at interval)
  unfolding stagger
  stagger-Quiet now at interval =
      Keeps-either _ _ _ (Keeps-pure at) (Keeps-bind _ _ (intn-Quiet _) λ r. Keeps-pure _)

  timers-Quiet : (p : Player) (now : Time) → Quiet {R = R} (stagger_timers p now)
  unfolding stagger_timers
  timers-Quiet p now = Keeps-read _ _ λ rules. Keeps-bind _ _ (stagger-Quiet _ _ _) λ encounter.
      Keeps-bind _ _ (stagger-Quiet _ _ _)
        λ district. Keeps-bind _ _ (stagger-Quiet _ _ _) λ collision. Keeps-pure _

  pub arrive-Quiet :
      (o : Option Player) (identity nick account : String) (now : Time)
      → Quiet {R = R} (arrive o identity nick account now)
  unfolding arrive
  arrive-Quiet none identity nick account now = Keeps-read _ _ λ rules. Keeps-pure _
  arrive-Quiet (some p) identity nick account now =
      Keeps-either _ _ _ (advance-Quiet identity p now)
        (Keeps-bind _ _ (timers-Quiet p now) λ q. Keeps-pure _)

module _ {R : Type 0} ⦃repo : Repository R⦄ where
  pub save-Quiet : (p : Player) → Quiet {R = R} (save p)
  unfolding save
  save-Quiet p = Keeps-call _ λ e s h. h

  pub save_world-Quiet : Quiet {R = R} save_world
  unfolding save_world call
  save_world-Quiet = record { keeps = λ e h. h }

  pub save_world_if-Quiet : (b : Bool) → Quiet {R = R} (save_world_if b)
  unfolding save_world_if
  save_world_if-Quiet b = Keeps-either b _ _ save_world-Quiet (Keeps-pure tt)

  pub commit-Quiet : (key : String) (p : Player) → Quiet {R = R} (commit key p)
  unfolding commit
  commit-Quiet key p = Keeps-bind _ _ (put_user-Quiet key p) λ done. save-Quiet p

  commit_then :
      {A : Type 0} (key : String) (p : Player) (a : A) → Quiet {R = R} (commit key p >> pure a)
  commit_then key p a = Keeps-bind _ _ (commit-Quiet key p) λ done. Keeps-pure a

  -- A runner is found, brought up to date, changed and saved.
  pub set_alias-Quiet :
      (identity nick name : String) (now : Time) → Quiet {R = R} (set_alias identity nick name now)
  unfolding set_alias
  set_alias-Quiet identity nick name now = Keeps-bind _ _ (Keeps-raise_if _ _) λ passed.
      Keeps-bind _ _ (require-Quiet identity nick) λ x. Keeps-read _ _ λ users.
        Keeps-bind _ _ (Keeps-raise_if _ _)
          λ free. Keeps-bind _ _ (advance-Quiet x.0 x.1 now) λ q. commit_then x.0 _ _

  pub set_title-Quiet :
      (identity nick name : String) (now : Time) → Quiet {R = R} (set_title identity nick name now)
  unfolding set_title
  set_title-Quiet identity nick name now = Keeps-bind _ _ (require-Quiet identity nick) λ x.
      Keeps-bind _ _ (Keeps-raise_if _ _)
        λ earned. Keeps-bind _ _ (advance-Quiet x.0 x.1 now) λ q. commit_then x.0 _ _

  raise_some-Quiet : (o : Option Error) → Quiet {R = R} (raise_some o)
  unfolding raise_some
  raise_some-Quiet none = Keeps-pure tt
  raise_some-Quiet (some x) = Keeps-raise x

  pub set_faction-Quiet :
      (identity nick name : String) (now : Time)
      → Quiet {R = R} (set_faction identity nick name now)
  unfolding set_faction
  set_faction-Quiet identity nick name now = Keeps-bind _ _ (Keeps-raise_if _ _) λ known.
      Keeps-bind _ _ (require-Quiet identity nick) λ x. Keeps-read _ _ λ world.
        Keeps-bind _ _ (raise_some-Quiet _)
          λ free. Keeps-bind _ _ (advance-Quiet x.0 x.1 now) λ q. commit_then x.0 _ _

  pub set_stance-Quiet :
      (identity nick name : String) (now : Time) → Quiet {R = R} (set_stance identity nick name now)
  unfolding set_stance
  set_stance-Quiet identity nick name now = Keeps-bind _ _ (Keeps-raise_if _ _) λ known.
      Keeps-bind _ _ (require-Quiet identity nick)
        λ x. Keeps-bind _ _ (advance-Quiet x.0 x.1 now) λ q. commit_then x.0 _ _

  pub status-Quiet :
      (identity nick : String) (now : Time) → Quiet {R = R} (status identity nick now)
  unfolding status
  status-Quiet identity nick now = Keeps-bind _ _ (require-Quiet identity nick) λ x.
      Keeps-bind _ _ (advance-Quiet x.0 x.1 now)
        λ q. Keeps-bind _ _ (save-Quiet q) λ saved. Keeps-pure q

  transmit-Quiet :
      (identity nick : String) (kind : Activity) (length : ℤ) (now : Time)
      → Quiet {R = R} (transmit identity nick kind length now)
  unfolding transmit
  transmit-Quiet identity nick kind length now = Keeps-bind _ _ (require-Quiet identity nick) λ x.
      Keeps-bind _ _ (advance-Quiet x.0 x.1 now)
        λ q. Keeps-read _ _ λ rules. Keeps-read _ _ λ world. commit_then x.0 _ _

  pub activity-Quiet :
      (identity nick channel : String) (kind : Activity) (length : ℤ) (now : Time)
      → Quiet {R = R} (activity identity nick channel kind length now)
  unfolding activity pure
  activity-Quiet identity nick channel kind length now = record {
    keeps = λ e h.
        if-both (λ (r : Result (ℤ × Bool) × Engine R). NoDrop r.1)
          (equal_fold channel e.rules.game_channel) _ _
          ((transmit-Quiet identity nick kind length now).keeps e h) h;
  }
