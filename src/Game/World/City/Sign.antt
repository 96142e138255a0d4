-- ===== src/Game/World/City/Sign.antt =====
-- What a city event does to the progress of a runner, against what its announcement says.
use text.Mathlib.Text.{◌==◌ as text_eq}
use neongrid.Base.{All, Bool, false, if◌then◌else◌, refl, true, ◌||◌, ◌≡◌}
use neongrid.Base.Int.{ltb_ℤ, negsuc, pos, quot, ℤ, ◌⊕◌}
use neongrid.Game.Data.{
  Player, district_corporate_arcology, district_floodline, district_ghost_quarter,
  district_old_transit, faction_chrome, faction_ghostline, faction_nomad, scar_corporate_backdoor,
}
use neongrid.Game.Rating.{has_scar}
use neongrid.Game.World.City.{city_event_progress_change, city_events, plus_if}

-- A change that up to two circumstances alter has the sign `lost` in every case.
Signed : Bool → ℤ → ℤ → ℤ → Type 0
Signed lost x y z =
    (ltb_ℤ z (pos 0) ≡ lost)
    × (ltb_ℤ (z ⊕ x) (pos 0) ≡ lost)
    × (ltb_ℤ (z ⊕ y) (pos 0) ≡ lost)
    × (ltb_ℤ (z ⊕ x ⊕ y) (pos 0) ≡ lost)

plus_if-sign :
    (lost : Bool) (x y z : ℤ) (b c : Bool)
    → Signed lost x y z
    → ltb_ℤ (plus_if c y (plus_if b x z)) (pos 0) ≡ lost
unfolding Signed
plus_if-sign lost x y z false false h = h.0
plus_if-sign lost x y z true false h = h.1
plus_if-sign lost x y z false true h = h.2
plus_if-sign lost x y z true true h = h.3

-- A sweep, for each answer about the scar, the district and the faction.
sweep-sign :
    (scar arcology ghostline : Bool)
    → ltb_ℤ
        (plus_if scar
          (negsuc 29)
          (plus_if arcology (negsuc 29) (if ghostline then quot (negsuc 89) 2 else negsuc 89)))
        (pos 0)
      ≡ true
unfolding quot Signed ◌⊕◌
sweep-sign scar arcology true =
    plus_if-sign true (negsuc 29) (negsuc 29) (quot (negsuc 89) 2) arcology scar
      (refl, refl, refl, refl)
sweep-sign scar arcology false =
    plus_if-sign true (negsuc 29) (negsuc 29) (negsuc 89) arcology scar (refl, refl, refl, refl)

-- Each event of the table, for whatever runner, costs progress if its announcement names a loss and
-- costs none if it names a gain: districts, factions and scars change its size and not its sign.
pub city_events_sign :
    (p : Player)
    → All
        (λ event.
          ltb_ℤ (city_event_progress_change event p) (pos 0) ≡ ltb_ℤ event.progress_change (pos 0))
        city_events
unfolding city_event_progress_change Signed ◌⊕◌ quot
city_events_sign p =
    let district = text_eq p.district in
    let faction = text_eq p.faction in
    (
      plus_if-sign true (negsuc 59) (pos 0) (negsuc 59) (district district_old_transit) false
          (refl, refl, refl, refl),
      (
        sweep-sign (has_scar p scar_corporate_backdoor) (district district_corporate_arcology)
            (faction faction_ghostline),
        (
          plus_if-sign false (pos 60) (pos 0) (pos 120) (district district_floodline) false
              (refl, refl, refl, refl),
          (
            plus_if-sign true (negsuc 89) (pos 30) (negsuc 119) (district district_ghost_quarter)
                (faction faction_nomad) (refl, refl, refl, refl),
            (
              plus_if-sign false (pos 60) (pos 0) (pos 90) (faction faction_chrome) false
                  (refl, refl, refl, refl),
              (
                plus_if-sign false (pos 60) (pos 0) (pos 180)
                    (district district_corporate_arcology || faction faction_chrome) false
                    (refl, refl, refl, refl),
                tt,
              ),
            ),
          ),
        ),
      ),
    )
