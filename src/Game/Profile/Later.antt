-- ===== src/Game/Profile/Later.antt =====
-- Departures and the table of the best, where a runner has chosen its faction in a faction window.
use neongrid.Base.{Bool, Option, String, [], false, none, some, ◌||◌, ◌∷◌}
use neongrid.Base.Int.{ℤ}
use neongrid.Base.Map.{Each, Map}
use neongrid.Clock.{Duration, Time}
use neongrid.Config.Rules.{rules}
use neongrid.Game.Data.{Activity, Player, Rules}
use neongrid.Game.Engine.Finds.{Holds}
use neongrid.Game.Engine.Guards.{
  Any, Guards, Guards-bind, Guards-call, Guards-gets, Guards-if, Guards-pure, Guards-raise_if,
  Guards-read, Guards-then, OnOk-Any,
}
use neongrid.Game.Leave.{
  disconnect, disconnect_all, disconnect_each, disconnect_one, disconnected, drop_missing,
  end_streak, forfeit, missed, reconcile, reconcile_each, reconcile_one,
}
use neongrid.Game.Profile.Window.{
  Alike, Chosen, advance-Stays, commit-Stays, fail_contract-Stays, missing-Stays, put_user-Stays,
  require-Stays, save-Stays, save_world_if-Stays,
}
use neongrid.Game.Repository.{Repository}
use neongrid.Game.Views.{top, top_each, top_one}

end_streak-Stays :
    (who f k : String) (t : Time) (p : Player) → Alike who f t k p → Alike who f t k (end_streak p)
unfolding end_streak
end_streak-Stays who f k t p h = h

disconnected-Stays :
    (rules : Rules) (kind : Activity) (now : Time) (who f k : String) (t : Time) (p : Player)
    → Alike who f t k p
    → Alike who f t k (disconnected rules kind now p)
unfolding disconnected
disconnected-Stays rules kind now who f k t p h = h

module _ {R : Type 0} ⦃repo : Repository R⦄ {who f : String} {t s : Time} where
  forfeit-Stays :
      (kind : Activity) (key : String) (p : Player)
      → Alike who f t key p
      → Guards {R = R} (Chosen who f t s) (λ r. Alike who f t key r.0) (forfeit kind key p)
  unfolding forfeit
  forfeit-Stays kind key p h = Guards-if _ _ _ _ (Guards-pure _ _ h) (
      Guards-then _ _ (put_user-Stays key p h) (
        Guards-bind Any _ _ _ (fail_contract-Stays _)
          λ changed _. Guards-pure _ _ (end_streak-Stays _ _ key _ p h)))

  pub disconnect-Stays :
      (nick : String) (kind : Activity) (now : Time)
      → Guards {R = R} (Chosen who f t s) Any (disconnect nick kind now)
  unfolding disconnect
  disconnect-Stays nick kind now =
      Guards-bind (Holds (Alike who f t)) _ _ _ (require-Stays "" nick) λ x good.
        Guards-then _ _ (Guards-raise_if _ _) (
          Guards-bind (Alike who f t x.0) _ _ _ (advance-Stays x.0 x.1 now good) λ q h.
            Guards-read _ _ λ rules.
              Guards-bind (λ (r : Player × Bool). Alike who f t x.0 r.0) _ _ _
                (forfeit-Stays kind x.0 _ (disconnected-Stays rules kind now _ _ x.0 _ q h))
                λ r k.
                  Guards-then _ _ (commit-Stays x.0 r.0 k)
                    (Guards-then _ _ (save_world_if-Stays r.1) (Guards-pure Any _ tt)))

  disconnect_one-Stays :
      (key : String) (p : Player) (now : Time)
      → Alike who f t key p
      → Guards {R = R} (Chosen who f t s) Any (disconnect_one key p now)
  unfolding disconnect_one
  disconnect_one-Stays key p now h = Guards-if Any _ _ _ (Guards-pure Any tt tt) (
      Guards-bind (Alike who f t key) _ _ _ (advance-Stays key p now h) λ q k. commit-Stays key _ k)

  disconnect_each-Stays :
      (users : Map Player) (now : Time)
      → Each (Alike who f t) users
      → Guards {R = R} (Chosen who f t s) Any (disconnect_each users now)
  unfolding disconnect_each
  disconnect_each-Stays [] now h = Guards-pure Any tt tt
  disconnect_each-Stays ((key, p) ∷ users) now h =
      Guards-then _ _ (disconnect_one-Stays key p now h.0) (disconnect_each-Stays users now h.1)

  pub disconnect_all-Stays :
      (now : Time) → Guards {R = R} (Chosen who f t s) Any (disconnect_all now)
  unfolding disconnect_all
  disconnect_all-Stays now =
      Guards-bind (Each (Alike who f t)) _ _ _ (Guards-gets _ _ (λ e i. i.alike))
        λ users h. Guards-then _ _ (disconnect_each-Stays users now h) (missing-Stays (λ e. []))

  drop_missing-Stays :
      (key : String) (p : Player) (now : Time)
      → Alike who f t key p
      → Guards {R = R} (Chosen who f t s) Any (drop_missing key p now)
  unfolding drop_missing
  drop_missing-Stays key p now h = Guards-then _ _ (missing-Stays _) (
      Guards-bind (Alike who f t key) _ _ _ (advance-Stays key p now h) λ q k.
        Guards-then _ _ (put_user-Stays key _ (end_streak-Stays _ _ key _ _ k)) (
          Guards-bind Any _ _ _ (fail_contract-Stays _)
            λ changed _. Guards-then _ _ (save-Stays _) (Guards-pure Any changed tt)))

  missed-Stays :
      (o : Option Time) (grace : Duration) (now : Time) (key : String) (p : Player)
      → Alike who f t key p
      → Guards {R = R} (Chosen who f t s) Any (missed o grace now key p)
  unfolding missed
  missed-Stays none grace now key p h = Guards-then _ _ (missing-Stays _) (Guards-pure Any false tt)
  missed-Stays (some seen) grace now key p h =
      Guards-if Any _ _ _ (Guards-pure Any false tt) (drop_missing-Stays key p now h)

  reconcile_one-Stays :
      (present : String → Bool) (grace : Duration) (now : Time) (key : String) (p : Player)
      → Alike who f t key p
      → Guards {R = R} (Chosen who f t s) Any (reconcile_one present grace now key p)
  unfolding reconcile_one
  reconcile_one-Stays present grace now key p h =
      Guards-if Any _ _ _ (Guards-then _ _ (missing-Stays _) (Guards-pure Any false tt))
        (Guards-read _ _ λ o. missed-Stays o grace now key p h)

  reconcile_each-Stays :
      (present : String → Bool) (grace : Duration) (now : Time) (users : Map Player) (b : Bool)
      → Each (Alike who f t) users
      → Guards {R = R} (Chosen who f t s) Any (reconcile_each present grace now users b)
  unfolding reconcile_each
  reconcile_each-Stays present grace now [] b h = Guards-pure Any b tt
  reconcile_each-Stays present grace now ((key, p) ∷ users) b h =
      Guards-bind Any _ _ _ (reconcile_one-Stays present grace now key p h.0)
        λ failed _. reconcile_each-Stays present grace now users (failed || b) h.1

  pub reconcile-Stays :
      (present : String → Bool) (grace : Duration) (now : Time)
      → Guards {R = R} (Chosen who f t s) Any (reconcile present grace now)
  unfolding reconcile
  reconcile-Stays present grace now =
      Guards-bind (Each (Alike who f t)) _ _ _ (Guards-gets _ _ (λ e i. i.alike)) λ users h.
        Guards-bind Any _ _ _ (reconcile_each-Stays present grace now users false h)
          λ changed _. Guards-then _ _ (missing-Stays _) (save_world_if-Stays changed)

  top_one-Stays :
      (key : String) (p : Player) (now : Time)
      → Alike who f t key p
      → Guards {R = R} (Chosen who f t s) Any (top_one key p now)
  unfolding top_one
  top_one-Stays key p now h =
      Guards-if Any _ _ _ (Guards-pure Any tt tt)
        (Guards-bind (Alike who f t key) _ _ _ (advance-Stays key p now h) λ q _. save-Stays q)

  top_each-Stays :
      (users : Map Player) (now : Time)
      → Each (Alike who f t) users
      → Guards {R = R} (Chosen who f t s) Any (top_each users now)
  unfolding top_each
  top_each-Stays [] now h = Guards-pure Any tt tt
  top_each-Stays ((key, p) ∷ users) now h =
      Guards-then _ _ (top_one-Stays key p now h.0) (top_each-Stays users now h.1)

  pub top-Stays : (limit : ℤ) (now : Time) → Guards {R = R} (Chosen who f t s) Any (top limit now)
  unfolding top
  top-Stays limit now =
      Guards-bind (Each (Alike who f t)) _ _ _ (Guards-gets _ _ (λ e i. i.alike)) λ users h.
        Guards-then _ _ (top_each-Stays users now h) (
          Guards-call Any _ (λ e s i. record { alike = i.alike; started = i.started })
            (λ s. OnOk-Any _))
