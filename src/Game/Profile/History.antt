-- ===== src/Game/Profile/History.antt =====
-- Histories in which a runner keeps the faction that it has chosen in a faction window: any requests
-- but ticks, which may open the next window, and `Join`, `Bind` and `Rename`, which may put another
-- runner in its place.
use text.Mathlib.Text.{◌==◌ as text_eq}
use neongrid.Base.{
  All, Bool, List, Option, String, [], false, if-both, length, none, refl, some, suc, true, zero, ℕ,
  ◌∙◌, ◌∷◌, ◌≡◌,
}
use neongrid.Base.Int.{ℤ}
use neongrid.Clock.{Time, before}
use neongrid.Game.Data.{Player, WorldState}
use neongrid.Game.Engine.Action.{Action, Engine, intn, pure}
use neongrid.Game.Engine.Finds.{Holds, OnSome, find_locked-Each}
use neongrid.Game.Engine.Guards.{
  Any, Guards, Guards-bind, Guards-if, Guards-modify, Guards-pure, Guards-read, Guards-step,
  Guards-then, OnOk,
}
use neongrid.Game.Engine.Users.{Entry}
use neongrid.Game.Profile.Chosen.{
  activity-Stays, set_alias-Stays, set_faction-Stays, set_stance-Stays, set_title-Stays,
  status-Stays,
}
use neongrid.Game.Profile.Later.{disconnect-Stays, disconnect_all-Stays, reconcile-Stays, top-Stays}
use neongrid.Game.Profile.Window.{
  Alike, Chosen, advance-Stays, put_user-Stays, queue-Stays, save-Stays, save_world-Stays,
}
use neongrid.Game.Progress.Kept.{update_titles-Kept}
use neongrid.Game.Repository.{Repository, Result}
use neongrid.Game.Requests.{Request, history, ignore, perform}
use neongrid.Game.Start.Boot.{new}
use neongrid.Game.World.{remember}
use neongrid.Game.World.DeadDrop.{
  claim_dead_drop, force_pirate, open_pirate_frequency, pocket, pocket_if, pocketed, write_code,
}
use neongrid.Game.World.Steps.{edit_world, score_faction, set_user, update_titles_locked}

module _ {R : Type 0} {who f : String} {t s : Time} where
  edit_world-Stays :
      (g : WorldState → WorldState)
      → ((w : WorldState) → (g w).faction_swap_started_at ≡ w.faction_swap_started_at)
      → Guards {R = R} (Chosen who f t s) Any (edit_world g)
  unfolding edit_world
  edit_world-Stays g same =
      Guards-modify _ λ e i. record { alike = i.alike; started = same e.world ∙ i.started }

  set_user-Stays :
      (k : String) (p : Player)
      → Alike who f t k p
      → Guards {R = R} (Chosen who f t s) (Alike who f t k) (set_user k p)
  unfolding set_user
  set_user-Stays k p h = Guards-then _ _ (put_user-Stays k p h) (Guards-pure _ p h)

  titles-Stays :
      (k : String) (p : Player)
      → Alike who f t k p
      → Guards {R = R} (Chosen who f t s) (Alike who f t k) (update_titles_locked k p)
  unfolding update_titles_locked
  titles-Stays k p h =
      let kept = update_titles-Kept p in
      Guards-then _ _ (queue-Stays _) (
        set_user-Stays k _ (λ here.
          let (faction, swapped) = h here in (kept.faction ∙ faction, kept.swapped ∙ swapped)))

  score-Stays :
      (p : Player) (points : ℤ) → Guards {R = R} (Chosen who f t s) Any (score_faction p points)
  unfolding score_faction
  score-Stays p points = Guards-if Any _ _ _ (Guards-pure Any tt tt) (edit_world-Stays _ λ w. refl)

  intn-Stays : (n : ℕ) → Guards {R = R} (Chosen who f t s) Any (intn n)
  unfolding intn
  intn-Stays n = record { at = λ e i. (record { alike = i.alike; started = i.started }, tt) }

  write_code-Stays : (n : ℕ) → Guards {R = R} (Chosen who f t s) Any (write_code n)
  unfolding write_code
  write_code-Stays zero = Guards-pure Any _ tt
  write_code-Stays (suc zero) = Guards-step _ _ (intn-Stays _) λ i. Guards-pure Any _ tt
  write_code-Stays (suc (suc n)) = Guards-step _ _ (intn-Stays _) λ i.
      Guards-step _ _ (intn-Stays _)
        λ j. Guards-step _ _ (write_code-Stays (suc n)) λ r. Guards-pure Any _ tt

module _ {R : Type 0} ⦃repo : Repository R⦄ {who f : String} {t s : Time} where
  remember-Stays :
      (messages : List String) → Guards {R = R} (Chosen who f t s) Any (remember messages)
  unfolding remember
  remember-Stays [] = Guards-pure Any tt tt
  remember-Stays (m ∷ ms) =
      Guards-then _ _ (Guards-modify _ λ e i. record { alike = i.alike; started = i.started })
        save_world-Stays

  force_pirate-Stays : (now : Time) → Guards {R = R} (Chosen who f t s) Any (force_pirate now)
  unfolding force_pirate open_pirate_frequency
  force_pirate-Stays now =
      Guards-step _ _
        (Guards-read _ _ λ rules. Guards-then _ _ (edit_world-Stays _ λ w. refl) (
          Guards-step _ _ (write_code-Stays 5)
            λ r. Guards-then _ _ (edit_world-Stays _ λ w. refl) (Guards-pure Any _ tt)))
        λ message. Guards-then _ _ (remember-Stays _) (Guards-pure Any _ tt)

  pocket-Stays :
      (now : Time) (x : Entry)
      → Alike who f t x.0 x.1
      → Guards {R = R} (Chosen who f t s) Any (pocket now x)
  unfolding pocketed
  pocket-Stays now (key, p) h =
      Guards-bind (Alike who f t key) _ _ _ (advance-Stays key p now h) λ q h1.
        Guards-read _ _ λ rules.
          Guards-bind (Alike who f t key) _ _ _ (set_user-Stays key _ h1) λ r h2.
            Guards-then _ _ (score-Stays r _) (
              Guards-bind (Alike who f t key) _ _ _ (titles-Stays key r h2) λ q2 h3.
                Guards-then _ _ (edit_world-Stays _ λ w. refl) (
                  Guards-then _ _ (save-Stays q2)
                    (Guards-then _ _ (remember-Stays _) (Guards-pure Any _ tt))))

  pocket_if-Stays :
      (now : Time) (o : Option Entry)
      → OnSome (Holds (Alike who f t)) o
      → Guards {R = R} (Chosen who f t s) Any (pocket_if now o)
  pocket_if-Stays now none h = Guards-pure Any "" tt
  pocket_if-Stays now (some x) h =
      Guards-if Any _ _ _ (pocket-Stays now x h) (Guards-pure Any "" tt)

  claim-Stays :
      (identity nick channel text : String) (now : Time)
      → Guards {R = R} (Chosen who f t s) Any (claim_dead_drop identity nick channel text now)
  unfolding claim_dead_drop pure
  claim-Stays identity nick channel text now = record {
    at = λ e i.
        if-both (λ (r : Result String × Engine R). Chosen who f t s r.1 × OnOk Any r.0) _ _ _
          ((pocket_if-Stays now _
              (find_locked-Each (Alike who f t) identity nick e.users i.alike)).at
            e i)
          (i, tt);
  }

-- A request that may open a window, or put another runner in the place of one.
abbrev pub may_replace : Request → Bool
may_replace Request.tick = true
may_replace (Request.join nick account) = true
may_replace (Request.bind nick account) = true
may_replace (Request.rename old new) = true
may_replace _ = false

module _ {R : Type 0} ⦃repo : Repository R⦄ {who f : String} {t s : Time} where
  ignore-Stays :
      {A : Type 0} (m : Action R A)
      → Guards (Chosen who f t s) Any m
      → Guards (Chosen who f t s) Any (ignore m)
  unfolding ignore
  ignore-Stays m h = Guards-step _ _ h λ a. Guards-pure Any tt tt

  perform-Stays :
      (now : Time) (q : Request)
      → text_eq f "" ≡ false
      → before t s ≡ false
      → may_replace q ≡ false
      → Guards {R = R} (Chosen who f t s) Any (perform now q)
  unfolding perform
  perform-Stays now (Request.join nick account) named late keeps = absurd (cc)
  perform-Stays now (Request.bind nick account) named late keeps = absurd (cc)
  perform-Stays now (Request.rename old new) named late keeps = absurd (cc)
  perform-Stays now (Request.disconnect nick kind) named late keeps =
      ignore-Stays _ (disconnect-Stays nick kind now)
  perform-Stays now Request.disconnect_all named late keeps = disconnect_all-Stays now
  perform-Stays now (Request.reconcile present grace) named late keeps =
      reconcile-Stays present grace now
  perform-Stays now (Request.set_alias identity nick name) named late keeps =
      ignore-Stays _ (set_alias-Stays identity nick name now)
  perform-Stays now (Request.set_title identity nick name) named late keeps =
      ignore-Stays _ (set_title-Stays identity nick name now)
  perform-Stays now (Request.set_faction identity nick name) named late keeps =
      ignore-Stays _ (set_faction-Stays identity nick name now named late)
  perform-Stays now (Request.set_stance identity nick name) named late keeps =
      ignore-Stays _ (set_stance-Stays identity nick name now)
  perform-Stays now (Request.activity identity nick channel kind length) named late keeps =
      ignore-Stays _ (activity-Stays identity nick channel kind length now)
  perform-Stays now (Request.status identity nick) named late keeps =
      ignore-Stays _ (status-Stays identity nick now)
  perform-Stays now (Request.top limit) named late keeps = ignore-Stays _ (top-Stays limit now)
  perform-Stays now Request.tick named late keeps = absurd (cc)
  perform-Stays now (Request.claim_dead_drop identity nick channel text) named late keeps =
      ignore-Stays _ (claim-Stays identity nick channel text now)
  perform-Stays now Request.force_pirate named late keeps = ignore-Stays _ (force_pirate-Stays now)

  pub history-Chosen :
      (requests : List (Time × Request)) (e : Engine R)
      → text_eq f "" ≡ false
      → before t s ≡ false
      → All (λ (r : Time × Request). may_replace r.1 ≡ false) requests
      → Chosen who f t s e
      → Chosen who f t s (history requests e)
  unfolding history
  history-Chosen [] e named late keeps h = h
  history-Chosen ((now, q) ∷ rest) e named late keeps h =
      history-Chosen rest (perform now q e).1 named late keeps.1
        ((perform-Stays now q named late keeps.0).at e h).0
