-- ===== src/Game/World/Contracts/Outcome.antt =====
-- How a contract ends.
use neongrid.Base.{
  Bool, Bool-cases, String, ap, arith, false, inl, inr, none, not, refl, some, true, ◌&&◌, ◌∙◌, ◌≡◌,
  ◌⊎◌,
}
use neongrid.Clock.{Time, before}
use neongrid.Game.Contract.{is_in}
use neongrid.Game.Data.{Activity, Contract, Player}
use neongrid.Game.Engine.Action.{Engine}
use neongrid.Game.Engine.Gives.{Gives, Gives-ok, Gives-pure, Gives-step}
use neongrid.Game.Engine.Leaves.{
  Ends, Ends-last, Ends-Leaves, Ends-ok, Keeps-pure, Leaves-modify, Leaves-then,
}
use neongrid.Game.Engine.Users.{find_locked}
use neongrid.Game.Join.{linked}
use neongrid.Game.Leave.{disconnect, is_netsplit}
use neongrid.Game.Leave.Effects.{disconnect_drops}
use neongrid.Game.Profile.Effects.{Result-cases}
use neongrid.Game.Progress.{advance_player}
use neongrid.Game.Rating.{display_name}
use neongrid.Game.Repository.{Error, Repository, err, ok}
use neongrid.Game.World.Contracts.{end_contract, outcome_message, resolve_contract}
use neongrid.Game.World.Steps.{edit_world}
use neongrid.Storage.{later}

-- No contract runs.
abbrev pub NoContract : {R : Type 0} → Engine R → Type 0
NoContract e = e.world.contract ≡ none

-- A contract that a participant has dropped has failed.
not_succeeded : (failed linked : Bool) → failed ≡ true → (not failed && linked) ≡ false
not_succeeded true linked h = refl
not_succeeded false linked h = absurd (ground (arith, h))

module _ {R : Type 0} ⦃repo : Repository R⦄ where
  end_contract-Ends : (now : Time) (c : Contract) → Ends {R = R} NoContract (end_contract now c)
  unfolding end_contract edit_world
  end_contract-Ends now c = Ends-last _ _ λ users.
      Ends-last _ _
        λ done. Ends-Leaves _ (Leaves-then _ _ (Leaves-modify _ λ e. refl) λ cleared. Keeps-pure _)

  end_contract-Gives :
      (now : Time) (c : Contract)
      → c.failed ≡ true
      → Gives {R = R} (λ m. m ≡ outcome_message c false) (end_contract now c)
  unfolding end_contract
  end_contract-Gives now c failed = Gives-step _ _ _ λ users. Gives-step _ _ _ λ done.
      Gives-step _ _ _
        λ cleared. Gives-pure _ _ (ap (outcome_message c) (not_succeeded c.failed _ failed))

  failed-runs :
      (now : Time) (e : Engine R) (c : Contract)
      → e.world.contract ≡ some c
      → c.failed ≡ true
      → resolve_contract now e ≡ end_contract now c e
  unfolding resolve_contract
  failed-runs now e c stands failed = elim (Bool-cases (before now c.ends_at)) [
    | inl early ↦ rw (stands, early, failed) refl
    | inr late ↦ rw (stands, late) refl
  ]

  -- When a participant under its own key has parted, quit or been kicked from a running contract, then
  -- the next look at the contract, at any time, deadline or not, says that the contract failed and whose
  -- signal dropped, and leaves no contract running; or it answers with the store's error.
  pub dropped_contract_fails :
      (nick : String) (kind : Activity) (now later : Time) (e : Engine R) (key : String)
      (p : Player) (c : Contract)
      → find_locked "" nick e.users ≡ some (key, p)
      → p.connected ≡ true
      → p.identity ≡ key
      → is_netsplit kind ≡ false
      → e.world.contract ≡ some c
      → c.failed ≡ false
      → is_in p.identity c.participants ≡ true
      → let dropper = display_name (advance_player p now e.rules).0 in
        let (r, e'') = resolve_contract later (disconnect nick kind now e).1 in
        ((r ≡ ok (outcome_message (record c { failed = true; dropped_by = dropper }) false))
          × (e''.world.contract ≡ none))
        ⊎ ((x : Error) × (r ≡ err x))
  dropped_contract_fails nick kind now later e key p c found online keyed real has live member =
      let e' = (disconnect nick kind now e).1 in
      let d : Contract = record c {
        failed = true;
        dropped_by = display_name (advance_player p now e.rules).0;
      } in
      let stands =
        disconnect_drops nick kind now e key p c found online keyed real has live member in
      let same = failed-runs later e' d stands refl in
      elim (Result-cases (end_contract later d e').0) [
        | inl (m, run) ↦ inl (
          ap (λ r. r.0) same
              ∙ run
              ∙ ap ok (Gives-ok _ _ e' m (end_contract-Gives later d refl) run),
          ap (λ r. r.1.world.contract) same
              ∙ Ends-ok (end_contract later d) e' m (end_contract-Ends later d) run,
        )
        | inr (x, run) ↦ inr (x, ap (λ r. r.0) same ∙ run)
      ]
