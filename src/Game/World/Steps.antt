-- ===== src/Game/World/Steps.antt =====
-- Steps that the world events of internal/game share: a runner that is changed in place, its titles,
-- the scores of factions.
use text.Mathlib.Text.{◌==◌ as text_eq}
use neongrid.Base.{List, String, [], if◌then◌else◌, ◌∷◌}
use neongrid.Base.Int.{ltb_ℤ, pos, ℤ, ◌⊕◌}
use neongrid.Base.Map.{Map, get_default, put}
use neongrid.Game.Data.{Player, WorldState}
use neongrid.Game.Engine.Action.{Action, modify, pure, ◌>>◌}
use neongrid.Game.Engine.Users.{put_user, queue_locked}
use neongrid.Game.Titles.{update_titles}

unfoldable pub max64 : ℤ → ℤ → ℤ
max64 a b = if ltb_ℤ b a then a else b

-- The players that are linked, as pointers.
abbrev pub linked_only : Map Player → Map Player
linked_only [] = []
linked_only ((key, p) ∷ users) =
    let rest = linked_only users in if p.connected then (key, p) ∷ rest else rest

module _ {R : Type 0} where
  -- The runner that a pointer leads to is changed.
  unfoldable pub set_user : String → Player → Action R Player
  set_user key q = do put_user key q; pure q

  unfoldable pub edit_world : (WorldState → WorldState) → Action R (Unit {0})
  edit_world f = modify (λ e. record e { world = f e.world })

  -- `updateTitlesLocked`
  unfoldable pub update_titles_locked : String → Player → Action R Player
  update_titles_locked key p = do
    let (q, messages) = update_titles p
    queue_locked messages
    set_user key q

  unfoldable pub score_faction : Player → ℤ → Action R (Unit {0})
  score_faction p points =
      if text_eq p.faction ""
      then pure tt
      else edit_world (λ w.
        let week = w.faction_week in
        let n = get_default (pos 0) p.faction week.scores in
        record w { faction_week = record week { scores = put p.faction (n ⊕ points) week.scores } })

  -- `noteBulletinLocked` on the wins of collisions.
  unfoldable pub note_win : String → Action R (Unit {0})
  note_win identity = edit_world (λ w.
      let b = w.bulletin in
      let n = get_default (pos 0) identity b.collision_wins in
      record w {
        bulletin = record b { collision_wins = put identity (n ⊕ pos 1) b.collision_wins };
      })

-- A message that is "" is none.
abbrev pub said : String → List String
said message = if text_eq message "" then [] else message ∷ []
