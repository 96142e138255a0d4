-- ===== src/Game/World/Contracts.antt =====
-- Contracts that start and end: `startContractLocked` and `resolveContractLocked`.
-- A read past the end gives 0.
pub mod Draw
pub mod Roster
pub mod Team
pub mod Outcome
use text.Mathlib.Text.{◌==◌ as text_eq}
use neongrid.Base.{
  Bool, List, Option, String, [], false, get_or, if◌then◌else◌, length, map, none, not, some, suc,
  take, true, zero, ℕ, ◌&&◌, ◌++◌, ◌==◌, ◌∷◌,
}
use neongrid.Base.Int.{pos, pos_part, quot, ◌⊕◌, ◌⊖◌}
use neongrid.Base.Map.{Map, get}
use neongrid.Base.Text.{◌⧺◌}
use neongrid.Clock.{Time, add, before}
use neongrid.Config.Rules.{rules}
use neongrid.Game.Data.{Contract, Player, Rules, districts}
use neongrid.Game.Engine.Action.{Action, gets, intn, pure, save, ◌>>=◌, ◌>>◌}
use neongrid.Game.Engine.Users.{Entry, advance_locked, commit}
use neongrid.Game.Flavor.{contract_corps, contract_jobs, format_duration, pick}
use neongrid.Game.Rating.{add_heat, display_name, level_duration, min_int}
use neongrid.Game.Repository.{Repository, ok}
use neongrid.Game.World.Steps.{
  edit_world, linked_only, max64, score_faction, set_user, update_titles_locked,
}

abbrev pub nth : List ℕ → ℕ → ℕ
nth xs i = get_or xs i 0

abbrev pub set_at : ℕ → ℕ → List ℕ → List ℕ
set_at i v [] = []
set_at zero v (x ∷ xs) = v ∷ xs
set_at (suc i) v (x ∷ xs) = x ∷ set_at i v xs

-- One round of `rand.Perm`: `m[i] = m[j]; m[j] = i`.
unfoldable pub perm_step : ℕ → ℕ → List ℕ → List ℕ
perm_step i j m = set_at j i (m ++ nth m j ∷ [])

unfoldable pub are_linked : Map Player → List String → Bool
are_linked users [] = true
are_linked users (identity ∷ identities) =
    let rest = are_linked users identities in
    elim (get identity users) [ none ↦ false | some p ↦ p.connected && rest ]

-- The payout of a contract, and the setback.
unfoldable pub paid : Rules → Player → Player
paid rules p = record p {
  progress_seconds = p.progress_seconds ⊕ max64 (pos 60) (quot (level_duration rules p.level) 6);
  heat = add_heat p.heat (pos 3);
  stats = record p.stats { contracts = p.stats.contracts ⊕ pos 1 };
}

unfoldable pub set_back : Rules → Player → Player
set_back rules p = record p {
  progress_seconds = p.progress_seconds ⊖ max64 (pos 120) (quot (level_duration rules p.level) 4);
  heat = add_heat p.heat (pos 10);
}

unfoldable pub outcome_message : Contract → Bool → String
outcome_message c success =
    if success
    then "[GRID] CONTRACT COMPLETE: the " ⧺ c.title
      ⧺ " is done and nobody blinked. The team splits the payout."
    else if not (text_eq c.dropped_by "")
    then "[GRID] CONTRACT FAILED: the " ⧺ c.title ⧺ " collapsed when " ⧺ c.dropped_by
      ⧺ "'s signal dropped mid-run. The whole team eats the setback."
    else "[GRID] CONTRACT FAILED: the " ⧺ c.title
      ⧺ " collapsed; not everyone was linked at the deadline. The whole team eats the setback."

abbrev pub nth_runner : Map Player → ℕ → Option Entry
nth_runner [] i = none
nth_runner (x ∷ xs) zero = some x
nth_runner (x ∷ xs) (suc i) = nth_runner xs i

-- The runners at the indices, and "; "-like lists of names.
abbrev pub at_indices : Map Player → List ℕ → Map Player
at_indices candidates [] = []
at_indices candidates (i ∷ order) =
    let rest = at_indices candidates order in
    elim (nth_runner candidates i) [ none ↦ rest | some x ↦ x ∷ rest ]

abbrev pub joined : String → List String → String
joined separator [] = ""
joined separator (x ∷ []) = x
joined separator (x ∷ y ∷ xs) = x ⧺ separator ⧺ joined separator (y ∷ xs)

module _ {R : Type 0} where
  -- The rounds of `rand.Perm` from `i` on.
  unfoldable pub perm_from : ℕ → ℕ → List ℕ → Action R (List ℕ)
  unfolding perm_step
  perm_from zero i m = pure m
  perm_from (suc rounds) i m = do j ← intn (suc i); perm_from rounds (suc i) (perm_step i j m)

  unfoldable pub perm : ℕ → Action R (List ℕ)
  perm n = perm_from n 0 []

  -- The contract, once the rules have been read.
  unfoldable pub post_by : Rules → Time → Map Player → Action R (String × Bool)
  post_by rules now candidates = do
    order ← perm (length candidates)
    let count = pos_part (min_int (pos (length candidates)) rules.contract_max_participants)
    corp ← pick contract_corps
    job ← pick contract_jobs
    i ← intn (length districts)
    let team = at_indices candidates (take count order)
    let title = corp ⧺ " " ⧺ job
    let district = get_or districts i ""
    edit_world (λ w. record w {
      contract = some (record {
        title = title;
        district = district;
        participants = map (λ (x : Entry). x.1.identity) team;
        ends_at = add now rules.contract_duration;
        failed = false;
        dropped_by = "";
      });
    })
    let names = map (λ (x : Entry). display_name x.1) team
    pure (
      "[GRID] CONTRACT: "
          ⧺ title
          ⧺ " in "
          ⧺ district
          ⧺ ". Stay linked for "
          ⧺ format_duration rules.contract_duration
          ⧺ ". Team: "
          ⧺ joined ", " names
          ⧺ ".",
      true,
    )

  unfoldable pub post_contract : Time → Map Player → Action R (String × Bool)
  unfolding post_by
  post_contract now candidates = do rules ← gets (λ e. e.rules); post_by rules now candidates

  unfoldable pub start_contract : Time → Action R (String × Bool)
  start_contract now e = elim e.world.contract [
    | some c ↦ (ok ("", false), e)
    | none ↦
        let candidates = linked_only e.users in
        if length candidates == 0 then (ok ("", false), e) else post_contract now candidates e
  ]

module _ {R : Type 0} ⦃repo : Repository R⦄ where
  unfoldable pub pay_one : Time → Bool → String → Player → Action R (Unit {0})
  pay_one now success key p = do
    q ← advance_locked key p now
    rules ← gets (λ e. e.rules)
    if success
        then (do
          r ← set_user key (paid rules q)
          score_faction r (pos 3)
          s ← update_titles_locked key r
          save s)
        else commit key (set_back rules q)

  -- The loop over the participants that are still there.
  unfoldable pub pay_each : Time → Bool → List String → Action R (Unit {0})
  pay_each now success [] = pure tt
  pay_each now success (identity ∷ identities) = do
    users ← gets (λ e. e.users)
    elim (get identity users) [ none ↦ pure tt | some p ↦ pay_one now success identity p ]
    pay_each now success identities

  unfoldable pub end_contract : Time → Contract → Action R String
  end_contract now c = do
    users ← gets (λ e. e.users)
    let success = not c.failed && are_linked users c.participants
    pay_each now success c.participants
    edit_world (λ w. record w { contract = none })
    pure (outcome_message c success)

  unfoldable pub resolve_contract : Time → Action R String
  resolve_contract now e = elim e.world.contract [
    | none ↦ (ok "", e)
    | some c ↦ if before now c.ends_at && not c.failed then (ok "", e) else end_contract now c e
  ]
