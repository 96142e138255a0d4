-- ===== src/Game/Leave/Effects.antt =====
-- What `Disconnect` does to the runner that goes, and to the contract.
use text.Mathlib.Text.{◌==◌ as text_eq}
use text.Mathlib.TextPositions.{eq_refl}
use neongrid.Base.{
  Bool, String, ap, arith, false, if◌then◌else◌, inl, inr, not, refl, some, true, ◌∙◌, ◌≡◌,
}
use neongrid.Base.Int.{IsInt64, negsuc, pos, ℤ, ◌⊕◌, ◌⊖◌}
use neongrid.Base.Map.{Map, get, get-put, put}
use neongrid.Clock.{Time}
use neongrid.Config.Rules.{rules}
use neongrid.Game.Contract.{dropped, is_in, mark_contract_failed, set_contract}
use neongrid.Game.Data.{Activity, Contract, Player, Rules}
use neongrid.Game.Engine.Action.{Action, Engine, call, pure, save, save_world, save_world_if, ◌>>=◌}
use neongrid.Game.Engine.Laws.{after_advance, after_advance_fields}
use neongrid.Game.Engine.Users.{commit, find_locked, put_user}
use neongrid.Game.Leave.{disconnect, disconnected, end_streak, forfeit, is_netsplit}
use neongrid.Game.Profile.Choices.{not-true}
use neongrid.Game.Profile.Effects.{
  Commits, Commits-after, Result-cases, advance_locked-then, raise_if-pass, require-found,
}
use neongrid.Game.Progress.{advance_player}
use neongrid.Game.Progress.Kept.{advance_player-Kept}
use neongrid.Game.Rating.{add_heat, clamp_heat, disconnect_heat, display_name, penalty_seconds}
use neongrid.Game.Rating.Bounds.{IsHeat}
use neongrid.Game.Repository.{Error, Repository, ok}

sub_zero : (x : ℤ) → IsInt64 x → x ⊖ pos 0 ≡ x
unfolding ◌⊖◌
sub_zero (pos n) wide = ground arith
sub_zero (negsuc n) wide = ground arith

add_heat_zero : (heat : ℤ) → IsHeat heat → add_heat heat (pos 0) ≡ heat
unfolding add_heat clamp_heat ◌⊕◌
add_heat_zero (pos n) h = ground arith
add_heat_zero (negsuc n) h = ground arith

-- The runner after its link has been cut.
abbrev pub unlinked : Time → Player → Player
unlinked now q = record q {
  connected = false;
  last_seen_at = now;
  last_progress_at = now;
  last_heat_at = now;
}

disconnected-netsplit :
    (rules : Rules) (now : Time) (q : Player)
    → IsInt64 q.progress_seconds
    → IsHeat q.heat
    → disconnected rules Activity.netsplit now q ≡ unlinked now q
unfolding disconnected penalty_seconds disconnect_heat
disconnected-netsplit rules now q wide heat =
    ap2 (λ (x y : ℤ). record (unlinked now q) { progress_seconds = x; heat = y })
      (sub_zero q.progress_seconds wide) (add_heat_zero q.heat heat)
  where
    ap2 : {B : Type 0} (f : ℤ → ℤ → B) {a a' b b' : ℤ} → a ≡ a' → b ≡ b' → f a b ≡ f a' b'
    ap2 f x y = rw (x, y) refl

module _ {R : Type 0} ⦃repo : Repository R⦄ where
  -- A runner that a netsplit cuts off, its progress an `int64` and its Heat in range once it has been
  -- brought up to date, loses nothing but its link: the penalty is 0, progress, Heat and streak stay,
  -- and neither another runner nor the contract is changed. The answer may be the store's error.
  pub disconnect_spares :
      (nick : String) (now : Time) (e : Engine R) (key : String) (p : Player)
      → find_locked "" nick e.users ≡ some (key, p)
      → p.connected ≡ true
      → IsInt64 (advance_player p now e.rules).0.progress_seconds
      → IsHeat (advance_player p now e.rules).0.heat
      → Commits
          (disconnect nick Activity.netsplit now)
          e
          key
          (unlinked now (advance_player p now e.rules).0)
          (pos 0)
  unfolding disconnect ◌>>=◌ forfeit penalty_seconds save_world_if
  disconnect_spares nick now e key p found online wide heat =
      let q = (advance_player p now e.rules).0 in
      Commits-after (disconnect nick Activity.netsplit now) key p (unlinked now q) now (pos 0) e (
        require-found "" nick _ e (key, p) found
        ∙ raise_if-pass (not p.connected) Error.runner_not_found _ e (not-true _ online)
        ∙ advance_locked-then key p now _ e
        ∙ ap (λ r. (commit key r >>= λ done. pure (pos 0)) (after_advance key p now e))
            (disconnected-netsplit _ now q wide heat))

module _ {R : Type 0} where
  -- A participant's going fails a contract that has not failed yet.
  mark_contract_failed_lem :
      (identity : String) (e : Engine R) (c : Contract)
      → e.world.contract ≡ some c
      → c.failed ≡ false
      → is_in identity c.participants ≡ true
      → mark_contract_failed identity e ≡ (ok true, set_contract (dropped identity e.users c) e)
  unfolding mark_contract_failed
  mark_contract_failed_lem identity e c has live member = rw (has, live, member) refl

  set_contract_lem : (c : Contract) (e : Engine R) → (set_contract c e).world.contract ≡ some c
  unfolding set_contract
  set_contract_lem c e = refl

dropped-get :
    (identity : String) (users : Map Player) (c : Contract) (p : Player)
    → get identity users ≡ some p
    → dropped identity users c ≡ record c { failed = true; dropped_by = display_name p }
unfolding dropped
dropped-get identity users c p at = rw (at, dropped) refl

module _ {R : Type 0} ⦃repo : Repository R⦄ where
  -- Saving changes nothing of the world.
  commit-world :
      {A : Type 0} (key : String) (q : Player) (changed : Bool) (a : A) (e : Engine R)
      → ((commit key q >>= λ done. save_world_if changed >>= λ also. pure a) e).1.world ≡ e.world
  unfolding commit put_user save save_world_if save_world ◌>>=◌ call
  commit-world key q changed a e = elim (Result-cases (repo.save q e.store).0) [
    | inl (done, saved) ↦
        rw saved (
          settled changed (record e { users = put key q e.users; store = (repo.save q e.store).1 }))
    | inr (x, refused) ↦ rw refused refl
  ]
    where
      settled :
          (b : Bool) (e' : Engine R) → ((save_world_if b >>= λ also. pure a) e').1.world ≡ e'.world
      settled false e' = refl
      settled true e' = elim (Result-cases (repo.save_world_state e'.world e'.store).0) [
        | inl (done, saved) ↦ rw saved refl
        | inr (x, refused) ↦ rw refused refl
      ]

  forfeit_lem :
      (kind : Activity) (key : String) (q : Player) (e : Engine R) (c : Contract)
      → is_netsplit kind ≡ false
      → e.world.contract ≡ some c
      → c.failed ≡ false
      → is_in q.identity c.participants ≡ true
      → q.identity ≡ key
      → forfeit kind key q e ≡ (
        ok (end_streak q, true),
        set_contract
            (record c { failed = true; dropped_by = display_name q })
            (record e { users = put key q e.users }),
      )
  unfolding forfeit ◌>>=◌ put_user
  forfeit_lem kind key q e c real has live member keyed =
      let e1 : Engine R = record e { users = put key q e.users } in
      let here =
        ap (λ k. get k (put key q e.users)) keyed ∙ get-put key key q e.users ∙ if_same key in
      let marked =
        mark_contract_failed_lem q.identity e1 c has live member
        ∙ ap (λ d. (ok true, set_contract d e1)) (dropped-get q.identity e1.users c q here) in
      rw (real, marked) refl
    where
      if_same : (k : String) → (if text_eq k k then some q else get k e.users) ≡ some q
      if_same k = rw (eq_refl k) refl

  forfeit-then :
      {B : Type 0} (kind : Activity) (key : String) (q : Player) (f : Player × Bool → Action R B)
      (e e' : Engine R) (r : Player × Bool)
      → forfeit kind key q e ≡ (ok r, e')
      → (forfeit kind key q >>= f) e ≡ f r e'
  unfolding ◌>>=◌
  forfeit-then kind key q f e e' r run = rw run refl

  -- A runner under its own key that parts, quits or is kicked fails the running contract that it takes
  -- part in, and stands in it as the one that dropped it, whether or not the store saves.
  pub disconnect_drops :
      (nick : String) (kind : Activity) (now : Time) (e : Engine R) (key : String) (p : Player)
      (c : Contract)
      → find_locked "" nick e.users ≡ some (key, p)
      → p.connected ≡ true
      → p.identity ≡ key
      → is_netsplit kind ≡ false
      → e.world.contract ≡ some c
      → c.failed ≡ false
      → is_in p.identity c.participants ≡ true
      → (disconnect nick kind now e).1.world.contract
        ≡ some
            (record c { failed = true; dropped_by = display_name (advance_player p now e.rules).0 })
  unfolding disconnect disconnected display_name ◌>>=◌
  disconnect_drops nick kind now e key p c found online keyed real has live member =
      let q = (advance_player p now e.rules).0 in
      let e1 = after_advance key p now e in
      let (users, store, rules, contract, pirate, started, until, missing) =
        after_advance_fields key p now e in
      let same : q.identity ≡ p.identity = (advance_player-Kept p now e.rules).identity in
      let gone = disconnected e1.rules kind now q in
      let left =
        forfeit_lem kind key gone e1 c real (contract ∙ has) live
          (ap (λ k. is_in k c.participants) same ∙ member) (same ∙ keyed) in
      ap (λ r. r.1.world.contract)
        (require-found "" nick _ e (key, p) found
          ∙ raise_if-pass (not p.connected) Error.runner_not_found _ e (not-true _ online)
          ∙ advance_locked-then key p now _ e
          ∙ forfeit-then kind key gone _ e1 _ _ left)
      ∙ ap (λ w. w.contract) (commit-world key (end_streak gone) true _ _)
      ∙ set_contract_lem _ _
