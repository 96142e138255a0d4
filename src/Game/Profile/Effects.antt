-- ===== src/Game/Profile/Effects.antt =====
-- What a command does to the runner that gives it, and to the others.
use text.Mathlib.Text.{◌==◌ as text_eq}
use text.Mathlib.TextPositions.{eq_refl}
use neongrid.Base.{
  Bool, String, ap, arith, false, if◌then◌else◌, inl, inr, length, refl, some, true, ◌&&◌, ◌∙◌, ◌≡◌,
  ◌⊎◌,
}
use neongrid.Base.Int.{pos, ℤ, ◌⊖◌}
use neongrid.Base.Map.{Map, get, get-put, put}
use neongrid.Base.Text.{equal_fold}
use neongrid.Clock.{Time, before}
use neongrid.Config.Rules.{rules}
use neongrid.Game.Data.{Activity, Player}
use neongrid.Game.Engine.Action.{Action, Engine, pure, raise_if, save, ◌>>=◌}
use neongrid.Game.Engine.Laws.{advance_locked_lem, after_advance, after_advance_fields}
use neongrid.Game.Engine.Users.{
  Entry, advance_locked, commit, find_locked, or_not_found, put_user, require,
}
use neongrid.Game.Profile.{activity, is_spoken, transmit}
use neongrid.Game.Progress.{advance_player}
use neongrid.Game.Rating.{penalty_seconds}
use neongrid.Game.Repository.{Error, Repository, Result, err, ok}

module _ {R : Type 0} where
  pub require-found :
      {B : Type 0} (identity nick : String) (f : Entry → Action R B) (e : Engine R) (x : Entry)
      → find_locked identity nick e.users ≡ some x
      → (require identity nick >>= f) e ≡ f x e
  unfolding require or_not_found ◌>>=◌
  require-found identity nick f e x found = rw found refl

  pub raise_if-pass :
      {B : Type 0} (b : Bool) (x : Error) (f : Unit {0} → Action R B) (e : Engine R)
      → b ≡ false
      → (raise_if b x >>= f) e ≡ f tt e
  unfolding ◌>>=◌
  raise_if-pass b x f e h = rw h refl

  pub advance_locked-then :
      {B : Type 0} (key : String) (p : Player) (now : Time) (f : Player → Action R B) (e : Engine R)
      → (advance_locked key p now >>= f) e
        ≡ f (advance_player p now e.rules).0 (after_advance key p now e)
  unfolding ◌>>=◌
  advance_locked-then key p now f e = rw (advance_locked_lem key p now e) refl

-- The runner after it has said something.
abbrev pub charged : ℤ → Time → Player → Player
charged penalty now q = record q {
  last_seen_at = now;
  progress_seconds = q.progress_seconds ⊖ penalty;
}

module _ {R : Type 0} ⦃repo : Repository R⦄ where
  transmit_lem :
      (identity nick : String) (kind : Activity) (length : ℤ) (now : Time) (e : Engine R)
      (key : String) (p : Player)
      → find_locked identity nick e.users ≡ some (key, p)
      → let q = (advance_player p now e.rules).0 in
        let safe = is_spoken kind && before now e.world.pirate_until in
        let penalty : ℤ = if safe then pos 0 else penalty_seconds q.level kind length e.rules in
        let progress : ℤ = if safe then q.progress_seconds else q.progress_seconds ⊖ penalty in
        transmit identity nick kind length now e
        ≡ (commit key (record q { last_seen_at = now; progress_seconds = progress }) >>= λ done.
              pure (penalty, safe))
            (after_advance key p now e)
  unfolding transmit ◌>>=◌
  transmit_lem identity nick kind length now e key p found =
      let (users, store, rules, contract, pirate, started, until, missing) =
        after_advance_fields key p now e in
      require-found identity nick _ e (key, p) found
      ∙ advance_locked-then key p now _ e
      ∙ rw (rules, pirate) refl

pub Result-cases :
    {A : Type 0} (r : Result A) → ((a : A) × (r ≡ ok a)) ⊎ ((x : Error) × (r ≡ err x))
Result-cases (ok a) = inl (a, refl)
Result-cases (err x) = inr (x, refl)

-- The answer where the store's `Save` may fail.
abbrev pub answer : {A : Type 0} → Result (Unit {0}) → A → Result A
answer (ok done) a = ok a
answer (err x) a = err x

module _ {R : Type 0} ⦃repo : Repository R⦄ where
  -- Where a command ends by saving the runner `q` under `key`: its answer, the runner, the others.
  abbrev pub Commits : {A : Type 0} → Action R A → Engine R → String → Player → A → Type 0
  Commits m e key q a =
      ((m e).0 ≡ answer (repo.save q e.store).0 a)
      × (get key (m e).1.users ≡ some q)
      × ((j : String) → get j (m e).1.users ≡ get j (put key q e.users))
      × ((m e).1.world.contract ≡ e.world.contract)
      × ((m e).1.world.faction_swap_started_at ≡ e.world.faction_swap_started_at)
      × ((m e).1.world.faction_swap_until ≡ e.world.faction_swap_until)

  pub commit_answer :
      {A : Type 0} (key : String) (q : Player) (a : A) (e : Engine R)
      → Commits (commit key q >>= λ done. pure a) e key q a
  unfolding ◌>>=◌ commit put_user save
  commit_answer key q a e =
      let users = (get-put key key q e.users ∙ if_same key) in
      elim (Result-cases (repo.save q e.store).0) [
        | inl (done, saved) ↦ rw saved (refl, users, λ j. refl, refl, refl, refl)
        | inr (x, refused) ↦ rw refused (refl, users, λ j. refl, refl, refl, refl)
      ]
    where
      if_same : (k : String) → (if text_eq k k then some q else get k e.users) ≡ some q
      if_same k = rw (eq_refl k) refl

  -- The same for a command that advances the runner first.
  pub Commits-after :
      {A : Type 0} (m : Action R A) (key : String) (p q : Player) (now : Time) (a : A)
      (e : Engine R)
      → m e ≡ (commit key q >>= λ done. pure a) (after_advance key p now e)
      → Commits m e key q a
  Commits-after m key p q now a e run =
      let e' = after_advance key p now e in
      let (users, store, rules, contract, pirate, started, until, missing) =
        after_advance_fields key p now e in
      let (result, self, others, contract', started', until') = commit_answer key q a e' in
      (
        ap (λ r. r.0) run ∙ result ∙ ap (λ s. answer (repo.save q s).0 a) store,
        ap (λ r. get key r.1.users) run ∙ self,
        λ j.
            ap (λ r. get j r.1.users) run
            ∙ others j
            ∙ ap (λ u. get j (put key q u)) users
            ∙ get-put_put key j (advance_player p now e.rules).0 q e.users,
        ap (λ r. r.1.world.contract) run ∙ contract' ∙ contract,
        ap (λ r. r.1.world.faction_swap_started_at) run ∙ started' ∙ started,
        ap (λ r. r.1.world.faction_swap_until) run ∙ until' ∙ until,
      )
    where
      get-put_put :
          (k j : String) (v w : Player) (m : Map Player)
          → get j (put k w (put k v m)) ≡ get j (put k w m)
      get-put_put k j v w m =
          ground (arith, get-put k j w (put k v m), get-put k j w m, get-put k j v m)

  -- A runner that speaks in the game's channel is brought up to date and then charged: the penalty of
  -- its level for what it said, or nothing while the pirate frequency covers it. The answer is the
  -- penalty, or the store's error; the runner in the engine has lost just that much progress, and no
  -- other runner, nor the contract, is changed.
  pub activity_charges :
      (identity nick channel : String) (kind : Activity) (length : ℤ) (now : Time) (e : Engine R)
      (key : String) (p : Player)
      → find_locked identity nick e.users ≡ some (key, p)
      → equal_fold channel e.rules.game_channel ≡ true
      → let q = (advance_player p now e.rules).0 in
        let safe = is_spoken kind && before now e.world.pirate_until in
        let penalty : ℤ = if safe then pos 0 else penalty_seconds q.level kind length e.rules in
        let progress : ℤ = if safe then q.progress_seconds else q.progress_seconds ⊖ penalty in
        Commits
          (activity identity nick channel kind length now)
          e
          key
          (record q { last_seen_at = now; progress_seconds = progress })
          (penalty, safe)
  unfolding activity
  activity_charges identity nick channel kind length now e key p found here =
      Commits-after (activity identity nick channel kind length now) key p _ now _ e
        (rw here (transmit_lem identity nick kind length now e key p found))
