-- ===== src/Game/Engine/Laws.antt =====
-- How the common steps of the methods run: keys, `require`, `advance_locked`, `commit`.
use neongrid.Base.{
  Bool-cases, String, drop, if-both, if◌then◌else◌, inl, inr, length, refl, ◌++◌, ◌-◌, ◌≡◌,
}
use neongrid.Base.Int.{ltb_ℤ, pos, ℤ, ◌⊕◌, ◌⊖◌}
use neongrid.Base.Map.{get_default, put}
use neongrid.Clock.{Time}
use neongrid.Game.Data.{Player}
use neongrid.Game.Engine.Action.{Engine, ◌>>=◌}
use neongrid.Game.Engine.Users.{advance_locked, note_climbs, put_user, queue_locked}
use neongrid.Game.Progress.{advance_player}
use neongrid.Game.Repository.{ok}

module _ {R : Type 0} where
  -- The engine after `advance_locked`: the runner is written back, its announcements wait, and the
  -- levels it gained are noted for the bulletin.
  advanced_user : String → Player → Time → Engine R → Engine R
  advanced_user key p now e =
      let (q, messages) = advance_player p now e.rules in
      let all = e.pending ++ messages in
      record e { users = put key q e.users; pending = drop (length all - 50) all }

  climbs_noted : String → ℤ → Engine R → Engine R
  climbs_noted identity amount e =
      let b = e.world.bulletin in
      let n = get_default (pos 0) identity b.climbs in
      record e {
        world = record e.world {
          bulletin = record b { climbs = put identity (n ⊕ amount) b.climbs };
        };
      }

  pub after_advance : String → Player → Time → Engine R → Engine R
  unfolding advanced_user climbs_noted
  after_advance key p now e =
      let q = (advance_player p now e.rules).0 in
      let gained = q.level ⊖ p.level in
      if ltb_ℤ (pos 0) gained
      then climbs_noted q.identity gained (advanced_user key p now e)
      else advanced_user key p now e

  pub advance_locked_lem :
      (key : String) (p : Player) (now : Time) (e : Engine R)
      → advance_locked key p now e
        ≡ (ok (advance_player p now e.rules).0, after_advance key p now e)
  unfolding advance_locked after_advance ◌>>=◌ put_user queue_locked note_climbs
  advance_locked_lem key p now e =
      elim (Bool-cases (ltb_ℤ (pos 0) ((advance_player p now e.rules).0.level ⊖ p.level))) [
        | inl up ↦ rw up
        | inr same ↦ rw same
      ]

  -- What `advance_locked` leaves alone, and the runner that it writes back.
  pub after_advance_fields :
      (key : String) (p : Player) (now : Time) (e : Engine R)
      → let e' = after_advance key p now e in
        (e'.users ≡ put key (advance_player p now e.rules).0 e.users)
        × (e'.store ≡ e.store)
        × (e'.rules ≡ e.rules)
        × (e'.world.contract ≡ e.world.contract)
        × (e'.world.pirate_until ≡ e.world.pirate_until)
        × (e'.world.faction_swap_started_at ≡ e.world.faction_swap_started_at)
        × (e'.world.faction_swap_until ≡ e.world.faction_swap_until)
        × (e'.missing_since ≡ e.missing_since)
  unfolding after_advance
  after_advance_fields key p now e =
      if-both
        (λ (e' : Engine R).
          (e'.users ≡ put key (advance_player p now e.rules).0 e.users)
          × (e'.store ≡ e.store)
          × (e'.rules ≡ e.rules)
          × (e'.world.contract ≡ e.world.contract)
          × (e'.world.pirate_until ≡ e.world.pirate_until)
          × (e'.world.faction_swap_started_at ≡ e.world.faction_swap_started_at)
          × (e'.world.faction_swap_until ≡ e.world.faction_swap_until)
          × (e'.missing_since ≡ e.missing_since))
        _ _ _ (refl, refl, refl, refl, refl, refl, refl, refl)
        (refl, refl, refl, refl, refl, refl, refl, refl)
