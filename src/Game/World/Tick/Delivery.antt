-- ===== src/Game/World/Tick/Delivery.antt =====
-- What a tick announces.
use mathlib.Core.List.{append_assoc}
use neongrid.Base.{List, String, [], ap, refl, sym, ◌++◌, ◌∙◌, ◌∷◌, ◌≡◌}
use neongrid.Clock.{Time}
use neongrid.Game.Engine.Action.{Engine, call, save_world, ◌>>=◌}
use neongrid.Game.Engine.Gives.{Gives, Gives-ok, Gives-pure, Gives-step}
use neongrid.Game.Engine.Leaves.{
  Ends, Ends-Leaves, Ends-last, Ends-ok, Keeps, Keeps-bind, Keeps-modify, Keeps-pure, Leaves,
  Leaves-then,
}
use neongrid.Game.Engine.Users.{take_pending}
use neongrid.Game.Repository.{Repository, ok}
use neongrid.Game.World.{remember}
use neongrid.Game.World.Tick.{tick, turn}

-- These messages stand in the others, in their order and together.
abbrev pub StandIn : List String → List String → Type 0
StandIn waiting messages =
    (first : List String) × (last : List String) × (messages ≡ first ++ (waiting ++ last))

-- Nothing waits to be announced.
abbrev pub NoneWaits : {R : Type 0} → Engine R → Type 0
NoneWaits e = e.pending ≡ []

module _ {R : Type 0} where
  take_pending-Leaves : Leaves {R = R} NoneWaits take_pending
  unfolding take_pending
  take_pending-Leaves = record { leaves = λ e. refl }

module _ {R : Type 0} ⦃repo : Repository R⦄ where
  save_world-Keeps : Keeps {R = R} NoneWaits save_world
  unfolding save_world call
  save_world-Keeps = record { keeps = λ e h. h }

  remember-Keeps : (messages : List String) → Keeps {R = R} NoneWaits (remember messages)
  unfolding remember
  remember-Keeps [] = Keeps-pure tt
  remember-Keeps (m ∷ ms) = Keeps-bind _ _ (Keeps-modify _ λ e h. h) λ done. save_world-Keeps

  turn-Ends : (now : Time) (carried : List String) → Ends {R = R} NoneWaits (turn now carried)
  unfolding turn
  turn-Ends now carried = Ends-last _ _ λ locks. Ends-last _ _ λ work. Ends-last _ _ λ raid.
      Ends-last _ _ λ decay. Ends-last _ _ λ week. Ends-last _ _ λ board. Ends-last _ _ λ city.
        Ends-last _ _ λ users. Ends-last _ _ λ news. Ends-last _ _ λ clash. Ends-Leaves _ (
          Leaves-then _ _ take_pending-Leaves
            λ pending. Keeps-bind _ _ (remember-Keeps _) λ done. Keeps-pure _)

  turn-Gives :
      (now : Time) (carried : List String) → Gives {R = R} (StandIn carried) (turn now carried)
  unfolding turn
  turn-Gives now carried = Gives-step _ _ _ λ locks. Gives-step _ _ _ λ work.
      Gives-step _ _ _ λ raid. Gives-step _ _ _ λ decay. Gives-step _ _ _ λ week.
        Gives-step _ _ _ λ board. Gives-step _ _ _ λ city. Gives-step _ _ _ λ users.
          Gives-step _ _ _ λ news. Gives-step _ _ _ λ clash.
            Gives-step _ _ _
              λ pending. Gives-step _ _ _ λ done. Gives-pure _ _ (_, _, sym (append_assoc _ city _))

  tick-turn :
      (now : Time) (e : Engine R) → tick now e ≡ turn now e.pending (record e { pending = [] })
  unfolding tick take_pending ◌>>=◌
  tick-turn now e = refl

  -- When a tick returns, what was waiting to be announced before it stands among its messages, in its
  -- order and without gaps, and nothing waits after it.
  pub tick_delivers :
      (now : Time) (e : Engine R) (messages : List String)
      → (tick now e).0 ≡ ok messages
      → StandIn e.pending messages × ((tick now e).1.pending ≡ [])
  tick_delivers now e messages run =
      let same = tick-turn now e in
      let run' = sym (ap (λ r. r.0) same) ∙ run in
      (
        Gives-ok _ _ (record e { pending = [] }) messages (turn-Gives now e.pending) run',
        ap (λ r. r.1.pending) same ∙ Ends-ok _ _ messages (turn-Ends now e.pending) run',
      )
