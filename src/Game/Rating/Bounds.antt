-- ===== src/Game/Rating/Bounds.antt =====
-- Ranges of the formulas.
use text.Mathlib.Text.{◌==◌ as text_eq}
use text.Mathlib.TextEquality.{eq_iff}
use neongrid.Base.{String, [], ap, arith, false, not, refl, ℕ, ◌&&◌, ◌-◌, ◌/◌, ◌∙◌, ◌≡◌, ◌≤◌}
use neongrid.Base.Int.{negsuc, pos, quot, ℤ, ◌≤ℤ◌, ◌⊕◌, ◌⊖◌, ◌⊗◌}
use neongrid.Game.Data.{Player, Rules, faction_ghostline, scar_burned_optic, scar_ghost_signal}
use neongrid.Game.Rating.{
  add_heat, clamp_heat, district_encounter_bonus, equipment_rating, expected_gear_rating, has_scar,
  ice_odds, ice_win_chance, level_duration, max_int, min_int, stance_odds,
}

clamp_heat_range : (heat : ℤ) → (pos 0 ≤ℤ clamp_heat heat) × (clamp_heat heat ≤ℤ pos 100)
unfolding clamp_heat
clamp_heat_range heat = ground arith

-- A Heat between 0 and 100.
abbrev pub IsHeat : ℤ → Type 0
IsHeat heat = (pos 0 ≤ℤ heat) × (heat ≤ℤ pos 100)

pub clamp_heat-IsHeat : (heat : ℤ) → IsHeat (clamp_heat heat)
clamp_heat-IsHeat = clamp_heat_range

pub add_heat-IsHeat : (heat amount : ℤ) → IsHeat (add_heat heat amount)
unfolding add_heat
add_heat-IsHeat heat amount = clamp_heat_range (heat ⊕ amount)

pub level_duration_pos : (rules : Rules) (level : ℤ) → pos 1 ≤ℤ level_duration rules level
unfolding level_duration
level_duration_pos rules level = ground arith

between :
    (lo hi x : ℤ) → lo ≤ℤ hi → (lo ≤ℤ max_int lo (min_int hi x)) × (max_int lo (min_int hi x) ≤ℤ hi)
unfolding max_int min_int
between lo hi x h = ground arith

-- Whatever the gear, the traits and the champion, the chance to beat ICE is between 10% and 95%.
pub ice_win_chance_range :
    (p : Player) (champion : String)
    → (pos 10 ≤ℤ ice_win_chance p champion) × (ice_win_chance p champion ≤ℤ pos 95)
unfolding ice_win_chance
ice_win_chance_range p champion = between (pos 10) (pos 95) (ice_odds p champion) (omega arith)

sub_self : (x : ℤ) → x ⊖ x ≡ pos 0
unfolding ◌⊖◌
sub_self (pos n) = ground arith
sub_self (negsuc n) = ground arith

no_edge :
    (p : Player) (champion : String)
    → p.faction ≡ ""
    → (not (text_eq champion "") && text_eq p.faction champion) ≡ false
no_edge p champion fa = ground (arith, eq_iff champion "", eq_iff p.faction champion)

not_ghostline : (p : Player) → p.faction ≡ "" → text_eq p.faction faction_ghostline ≡ false
not_ghostline p fa = rw fa

stance_odds_normal : (p : Player) → p.stance ≡ "" → stance_odds p ≡ pos 0
unfolding stance_odds
stance_odds_normal p st = rw st

has_scar_none : (p : Player) (scar : String) → p.scars ≡ [] → has_scar p scar ≡ false
unfolding has_scar
has_scar_none p scar sc = rw sc

heat_share :
    (h : ℕ)
    → h ≤ 100
    → max_int (pos 10) (min_int (pos 95) (pos 65 ⊖ pos (h / 5))) ≡ pos (65 - h / 5)
unfolding max_int min_int ◌⊖◌
heat_share h small = ground arith

ice_odds_plain :
    (p : Player) (champion : String)
    → equipment_rating p ⊖ expected_gear_rating p.level ≡ pos 0
    → p.stance ≡ ""
    → p.faction ≡ ""
    → p.scars ≡ []
    → district_encounter_bonus p.district ≡ pos 0
    → ice_odds p champion ≡ pos 65 ⊕ pos 3 ⊗ pos 0 ⊕ pos 0 ⊕ pos 5 ⊗ pos 0 ⊖ quot p.heat 5
unfolding ice_odds
ice_odds_plain p champion gear st fa sc di = ground (
  arith,
  stance_odds_normal p st,
  no_edge p champion fa,
  not_ghostline p fa,
  has_scar_none p scar_ghost_signal sc,
  has_scar_none p scar_burned_optic sc,
)

plain_total :
    (h : ℕ) → pos 65 ⊕ pos 3 ⊗ pos 0 ⊕ pos 0 ⊕ pos 5 ⊗ pos 0 ⊖ quot (pos h) 5 ≡ pos 65 ⊖ pos (h / 5)
unfolding ◌⊕◌ ◌⊗◌ quot
plain_total h = refl

-- A runner whose gear rates as on-level gear, with no scars, no stance, no faction and a district
-- that ICE does not know, beats ICE with 65%, less a percent for each five points of Heat.
pub ice_win_chance_on_level :
    (p : Player) (champion : String) (h : ℕ)
    → equipment_rating p ≡ expected_gear_rating p.level
    → p.stance ≡ ""
    → p.faction ≡ ""
    → p.scars ≡ []
    → district_encounter_bonus p.district ≡ pos 0
    → p.heat ≡ pos h
    → h ≤ 100
    → ice_win_chance p champion ≡ pos (65 - h / 5)
unfolding ice_win_chance
ice_win_chance_on_level p champion h gear st fa sc di he small =
    let level : equipment_rating p ⊖ expected_gear_rating p.level ≡ pos 0 =
      ap (λ x. x ⊖ expected_gear_rating p.level) gear ∙ sub_self (expected_gear_rating p.level) in
    let odds = ice_odds_plain p champion level st fa sc di in
    let share =
      ap (λ x. pos 65 ⊕ pos 3 ⊗ pos 0 ⊕ pos 0 ⊕ pos 5 ⊗ pos 0 ⊖ quot x 5) he ∙ plain_total h in
    ap (λ x. max_int (pos 10) (min_int (pos 95) x)) (odds ∙ share) ∙ heat_share h small
