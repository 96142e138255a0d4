-- ===== src/Game/Profile/Choices.antt =====
-- Factions, titles and aliases: what a runner may choose.
use mathlib.Core.Path.{subst}
use text.Mathlib.Text.{◌==◌ as text_eq}
use text.Mathlib.TextEquality.{eq_iff}
use neongrid.Base.{
  All, All-map, Bool, Bool-cases, List, Option, String, ap, false, if◌then◌else◌, inl, inr, none,
  not, refl, some, sym, true, ◌∙◌, ◌≡◌,
}
use neongrid.Base.Map.{Each-self, get, some_value}
use neongrid.Base.Text.{to_lower, trim_space}
use neongrid.Clock.{Time, before}
use neongrid.Game.Data.{Player}
use neongrid.Game.Engine.Action.{Action, Engine, pure, raise_if, ◌>>=◌}
use neongrid.Game.Engine.Finds.{Holds, OnSome, find_locked-Each}
use neongrid.Game.Engine.Laws.{after_advance}
use neongrid.Game.Engine.Users.{commit, find_locked}
use neongrid.Game.Profile.{faction_refusal, faction_swap_open, raise_some, set_faction}
use neongrid.Game.Profile.Chosen.{faction_refusal_again}
use neongrid.Game.Profile.Effects.{Commits-after, advance_locked-then, raise_if-pass, require-found}
use neongrid.Game.Profile.History.{history-Chosen, may_replace}
use neongrid.Game.Profile.Window.{Alike, Chosen}
use neongrid.Game.Progress.{advance_player}
use neongrid.Game.Rating.{valid_faction}
use neongrid.Game.Repository.{Error, Repository, err}
use neongrid.Game.Requests.{Request, history}
use neongrid.Game.Safe.{Inv}
use neongrid.Game.Safe.Profile.{set_faction-Safe}
use neongrid.Game.World.Collision.{others}

-- The runner after it has chosen a faction.
abbrev pub aligned : String → Time → Bool → Player → Player
aligned faction now swapping q =
    let swapped : Time = if swapping then now else q.last_faction_swap_at in
    record q { faction = faction; last_faction_swap_at = swapped; last_seen_at = now }

pub not-true : (b : Bool) → b ≡ true → not b ≡ false
not-true b h = rw h refl

module _ {R : Type 0} ⦃repo : Repository R⦄ where
  raise_some-pass :
      {B : Type 0} (o : Option Error) (f : Unit {0} → Action R B) (e : Engine R)
      → o ≡ none
      → (raise_some o >>= f) e ≡ f tt e
  unfolding ◌>>=◌ raise_some
  raise_some-pass o f e h = rw h refl

  set_faction_lem :
      (identity nick name : String) (now : Time) (e : Engine R) (key : String) (p : Player)
      → valid_faction (to_lower (trim_space name)) ≡ true
      → find_locked identity nick e.users ≡ some (key, p)
      → faction_refusal e.world now p (to_lower (trim_space name)) ≡ none
      → let q =
          aligned
            (to_lower (trim_space name))
            now
            (faction_swap_open e.world now)
            (advance_player p now e.rules).0 in
        set_faction identity nick name now e
        ≡ (commit key q >>= λ done. pure q) (after_advance key p now e)
  unfolding set_faction ◌>>=◌
  set_faction_lem identity nick name now e key p valid found free =
      raise_if-pass (not (valid_faction (to_lower (trim_space name)))) Error.unknown_faction _ e
        (not-true _ valid)
      ∙ require-found identity nick _ e (key, p) found
      ∙ raise_some-pass (faction_refusal e.world now p (to_lower (trim_space name))) _ e free
      ∙ advance_locked-then key p now _ e

valid_faction-named : (faction : String) → valid_faction faction ≡ true → text_eq faction "" ≡ false
unfolding valid_faction
valid_faction-named faction h = elim (Bool-cases (text_eq faction "")) [
  | inl empty ↦ absurd (differ (sym (ap valid_faction ((eq_iff faction "").0 empty)) ∙ h))
  | inr named ↦ named
]
  where
    differ : false ≡ true → ⊥
    differ e = cc

module _ {R : Type 0} ⦃repo : Repository R⦄ where
  raise_if-stop :
      {B : Type 0} (b : Bool) (x : Error) (f : Unit {0} → Action R B) (e : Engine R)
      → b ≡ true
      → (raise_if b x >>= f) e ≡ (err x, e)
  unfolding ◌>>=◌
  raise_if-stop b x f e h = rw h refl

  raise_some-stop :
      {B : Type 0} (o : Option Error) (x : Error) (f : Unit {0} → Action R B) (e : Engine R)
      → o ≡ some x
      → (raise_some o >>= f) e ≡ (err x, e)
  unfolding ◌>>=◌ raise_some
  raise_some-stop o x f e h = rw h refl

  set_faction_refused :
      (identity nick name : String) (now : Time) (e : Engine R) (key : String) (p : Player)
      (x : Error)
      → find_locked identity nick e.users ≡ some (key, p)
      → faction_refusal e.world now p (to_lower (trim_space name)) ≡ some x
      → (y : Error) × (set_faction identity nick name now e ≡ (err y, e))
  unfolding set_faction ◌>>=◌
  set_faction_refused identity nick name now e key p x found refused =
      elim (Bool-cases (valid_faction (to_lower (trim_space name)))) [
        | inl valid ↦ (
          x,
          raise_if-pass (not (valid_faction (to_lower (trim_space name)))) Error.unknown_faction _ e
                (not-true _ valid)
              ∙ require-found identity nick _ e (key, p) found
              ∙ raise_some-stop (faction_refusal e.world now p (to_lower (trim_space name))) x _ e
                  refused,
        )
        | inr other ↦ (
          Error.unknown_faction,
          raise_if-stop (not (valid_faction (to_lower (trim_space name)))) Error.unknown_faction _ e
              (not-false _ other),
        )
      ]
    where
      not-false : (b : Bool) → b ≡ false → not b ≡ true
      not-false b h = rw h refl

  -- Right after a choice, whoever stands under the key of the runner has the faction chosen.
  set_faction-Chosen :
      (identity nick name : String) (now : Time) (e : Engine R) (key faction : String) (q : Player)
      (s : Time)
      → Inv e
      → let e1 = (set_faction identity nick name now e).1 in
        get key e1.users ≡ some q
        → q.faction ≡ faction
        → q.last_faction_swap_at ≡ now
        → e1.world.faction_swap_started_at ≡ s
        → Chosen key faction now s e1
  set_faction-Chosen identity nick name now e key faction q s i self named swapped started =
      let e1 = (set_faction identity nick name now e).1 in
      let i1 = ((set_faction-Safe identity nick name now).at e i).0 in
      record {
        alike =
            All-map e1.users
              (λ y there here.
                let same : y.1 ≡ q =
                  some_value (sym there ∙ ap (λ k. get k e1.users) here ∙ self) in
                (ap Player.faction same ∙ named, ap Player.last_faction_swap_at same ∙ swapped))
              (Each-self e1.users i1.is_map);
        started = started;
      }

  -- From a state that satisfies the invariant: a runner, a guest included, that has chosen its faction
  -- in an open window, at or after its start, is refused every further choice, of any name and at any
  -- time, and the refusal changes nothing, whatever requests stand between the two but ticks, which may
  -- open the next window, and `Join`, `Bind` and `Rename`, which may put another runner in its place.
  pub set_faction_once :
      (identity nick name : String) (now : Time) (e : Engine R) (key : String) (p : Player)
      (between : List (Time × Request)) (identity' nick' name' : String) (now' : Time) (p' : Player)
      → Inv e
      → find_locked identity nick e.users ≡ some (key, p)
      → valid_faction (to_lower (trim_space name)) ≡ true
      → faction_refusal e.world now p (to_lower (trim_space name)) ≡ none
      → faction_swap_open e.world now ≡ true
      → before now e.world.faction_swap_started_at ≡ false
      → All (λ (r : Time × Request). may_replace r.1 ≡ false) between
      → find_locked identity' nick' (history between (set_faction identity nick name now e).1).users
        ≡ some (key, p')
      → let e' = history between (set_faction identity nick name now e).1 in
        (x : Error) × (set_faction identity' nick' name' now' e' ≡ (err x, e'))
  set_faction_once identity nick name now e key p between identity' nick' name' now' p' i found
        valid free opened late keeps again =
      let chosen = to_lower (trim_space name) in
      let e' = history between (set_faction identity nick name now e).1 in
      let q0 = (advance_player p now e.rules).0 in
      let q = aligned chosen now (faction_swap_open e.world now) q0 in
      let run = set_faction_lem identity nick name now e key p valid found free in
      let (result, self, others, contract, started, until) =
        Commits-after (set_faction identity nick name now) key p q now q e run in
      let swapped : q.last_faction_swap_at ≡ now =
        ap (λ b. (aligned chosen now b q0).last_faction_swap_at) opened in
      let named = valid_faction-named chosen valid in
      let stays =
        history-Chosen between _ named late keeps (
          set_faction-Chosen identity nick name now e key chosen q _ i self refl swapped started) in
      let (faction, at) =
        subst (OnSome (Holds (Alike key chosen now))) again
          (find_locked-Each (Alike key chosen now) identity' nick' e'.users stays.alike) refl in
      let (x, refused) =
        faction_refusal_again e'.world now' now p' chosen (to_lower (trim_space name')) named
          (ap (before now) stays.started ∙ late) faction at in
      set_faction_refused identity' nick' name' now' e' key p' x again refused
