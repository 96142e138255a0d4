-- ===== src/Game/Titles.antt =====
-- Scars and titles of internal/game/game.go, and the rival of features.go that a title looks at.
pub mod Laws
use text.Mathlib.Text.{◌==◌ as text_eq}
use neongrid.Base.{
  Bool, List, Option, String, [], any, false, if◌then◌else◌, none, not, some, true, ℕ, ◌&&◌, ◌++◌,
  ◌||◌, ◌∷◌,
}
use neongrid.Base.Int.{eqb_ℤ, leb_ℤ, ltb_ℤ, pos, ℤ}
use neongrid.Base.Map.{Map, get_default}
use neongrid.Base.Text.{text_ltb, ◌⧺◌}
use neongrid.Game.Data.{Player, district_floodline}
use neongrid.Game.Rating.{display_name, has_scar}

unfoldable pub has_title : Player → String → Bool
has_title p title = any (λ existing. text_eq existing title) p.titles

-- `addScar` and `addTitle` append what is not there yet, and say whether they did.
unfoldable pub add_scar : Player → String → Player × Bool
add_scar p scar =
    if has_scar p scar then (p, false) else (record p { scars = p.scars ++ scar ∷ [] }, true)

unfoldable pub add_title : Player → String → Player × Bool
add_title p title =
    if has_title p title then (p, false) else (record p { titles = p.titles ++ title ∷ [] }, true)

-- The loop of `topRival` over the map, with the variables `best` and `rival`.
unfoldable pub top_rival_from : ℤ → String → Map ℤ → String
top_rival_from best rival [] = rival
top_rival_from best rival ((identity, bouts) ∷ m) =
    let better =
      ltb_ℤ best bouts || (eqb_ℤ bouts best && not (text_eq rival "") && text_ltb identity rival) in
    top_rival_from (if better then bouts else best) (if better then identity else rival) m

unfoldable pub top_rival : Player → String
unfolding top_rival_from
top_rival p = top_rival_from (pos 4) "" p.rivals

pub record TitleRule : Type 0 where
  pub name : String
  pub earned : Player → Bool

at_least : ℕ → ℤ → Bool
at_least n z = leb_ℤ (pos n) z

rule : String → (Player → Bool) → TitleRule
rule name earned = record { name = name; earned = earned }

-- From least to most prestigious.
unfoldable pub title_rules : List TitleRule
unfolding at_least rule
title_rules =
    rule "Ghost of Floodline" (λ p. text_eq p.district district_floodline && at_least 3 p.level)
    ∷ rule "ICEbreaker" (λ p. at_least 5 p.level)
    ∷ rule "Corporate Liability" (λ p. at_least 75 p.heat)
    ∷ rule "Relic Hunter" (λ p. at_least 1 p.stats.uniques)
    ∷ rule "Cat Burglar" (λ p. at_least 1 p.stats.thefts)
    ∷ rule "Static Whisperer" (λ p. at_least 3 p.stats.dead_drops)
    ∷ rule "Street Samurai" (λ p. at_least 10 p.stats.collision_wins)
    ∷ rule "Deniable Asset" (λ p. at_least 3 p.stats.contracts)
    ∷ rule "Wallbreaker" (λ p. at_least 3 p.stats.raid_wins)
    ∷ rule "ICE Surfer" (λ p. at_least 25 p.stats.ice_wins)
    ∷ rule "Chrome Saint" (λ p. at_least 50 p.level)
    ∷ rule "Blood Feud" (λ p. at_least 10 (get_default (pos 0) (top_rival p) p.rivals))
    ∷ rule "Ghost Protocol" (λ p. at_least 7 p.stats.longest_streak)
    ∷ rule "Black Market Royalty" (λ p. at_least 3 p.stats.uniques)
    ∷ rule "Nine-Day Signal" (λ p. at_least 100 p.level)
    ∷ rule "Blackwall Veteran" (λ p. at_least 100 p.stats.ice_wins)
    ∷ rule "Neon Ghost" (λ p. at_least 150 p.level)
    ∷ rule "Ghost in the Machine" (λ p. at_least 250 p.level)
    ∷ []

-- One round of the loop of `updateTitles`.
unfoldable pub award_one : TitleRule → Player → Player × List String
unfolding add_title
award_one r p =
    let (q, added) = add_title p r.name in
    if r.earned p && added
    then (q, ("[GRID] " ⧺ display_name q ⧺ " earned the title " ⧺ r.name ⧺ ".") ∷ [])
    else (p, [])

unfoldable pub award : List TitleRule → Player → Player × List String
award [] p = (p, [])
award (r ∷ rs) p =
    let (q, first) = award_one r p in let (q', later) = award rs q in (q', first ++ later)

unfoldable pub update_titles : Player → Player × List String
update_titles p = award title_rules p

-- The loop of `CurrentTitle` runs from the last rule to the first.
unfoldable pub best_title : List TitleRule → Player → Option String
best_title [] p = none
best_title (r ∷ rs) p = elim (best_title rs p) [
  | some name ↦ some name
  | none ↦ if has_title p r.name then some r.name else none
]

last_or : String → List String → String
last_or d [] = d
last_or d (x ∷ xs) = last_or x xs

unfoldable pub current_title : Player → String
unfolding best_title last_or
current_title p =
    if not (text_eq p.chosen_title "") && has_title p p.chosen_title
    then p.chosen_title
    else elim (best_title title_rules p) [ some name ↦ name | none ↦ last_or "" p.titles ]
