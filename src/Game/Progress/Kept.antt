-- ===== src/Game/Progress/Kept.antt =====
-- What `advancePlayer` leaves alone.
use mathlib.Core.Path.{subst}
use neongrid.Base.{List, String, arith, if-both, refl, sym, ◌∙◌, ◌≡◌}
use neongrid.Base.Int.{divide, ◌⊖◌}
use neongrid.Clock.{Time, since}
use neongrid.Config.Rules.{rules}
use neongrid.Game.Data.{Player, Rules}
use neongrid.Game.Progress.{
  accrue_progress, advance_player, climb_all, decay_heat, gain_level, install, see,
}
use neongrid.Game.Progress.Loop.{climb_keeps}
use neongrid.Game.Rating.Bounds.{IsHeat, clamp_heat-IsHeat}
use neongrid.Game.Titles.{update_titles}
use neongrid.Game.Titles.Laws.{update_titles_only}

pub record Kept (p q : Player) : Type 0 where
  pub identity : q.identity ≡ p.identity
  pub account : q.account ≡ p.account
  pub nick : q.nick ≡ p.nick
  pub alias : q.alias ≡ p.alias
  pub guest : q.guest ≡ p.guest
  pub connected : q.connected ≡ p.connected
  pub faction : q.faction ≡ p.faction
  pub swapped : q.last_faction_swap_at ≡ p.last_faction_swap_at
  pub stance : q.stance ≡ p.stance
  pub chosen_title : q.chosen_title ≡ p.chosen_title
  pub streak_since : q.streak_since ≡ p.streak_since
  pub streak_days : q.streak_days ≡ p.streak_days
  pub heat : IsHeat p.heat → IsHeat q.heat

pub Kept-refl : (p : Player) → Kept p p
Kept-refl p = record {
  identity = refl;
  account = refl;
  nick = refl;
  alias = refl;
  guest = refl;
  connected = refl;
  faction = refl;
  swapped = refl;
  stance = refl;
  chosen_title = refl;
  streak_since = refl;
  streak_days = refl;
  heat = λ h. h;
}

pub Kept-trans : (p q r : Player) → Kept p q → Kept q r → Kept p r
Kept-trans p q r h k = record {
  identity = k.identity ∙ h.identity;
  account = k.account ∙ h.account;
  nick = k.nick ∙ h.nick;
  alias = k.alias ∙ h.alias;
  guest = k.guest ∙ h.guest;
  connected = k.connected ∙ h.connected;
  faction = k.faction ∙ h.faction;
  swapped = k.swapped ∙ h.swapped;
  stance = k.stance ∙ h.stance;
  chosen_title = k.chosen_title ∙ h.chosen_title;
  streak_since = k.streak_since ∙ h.streak_since;
  streak_days = k.streak_days ∙ h.streak_days;
  heat = λ x. k.heat (h.heat x);
}

see-Kept : (now : Time) (p : Player) → Kept p (see now p)
unfolding see
see-Kept now p = ground arith

accrue_progress-Kept : (now : Time) (p : Player) → Kept p (accrue_progress now p)
unfolding accrue_progress
accrue_progress-Kept now p = ground arith

decay_heat-Kept : (rules : Rules) (now : Time) (p : Player) → Kept p (decay_heat rules now p)
unfolding decay_heat
decay_heat-Kept rules now p = ground (
  arith,
  clamp_heat-IsHeat (p.heat ⊖ divide (since now p.last_heat_at) rules.heat_decay_interval),
  clamp_heat-IsHeat (p.heat ⊖ divide (since now now) rules.heat_decay_interval),
)

gain_level-Kept : (rules : Rules) (p : Player) → Kept p (gain_level rules p).runner
unfolding gain_level install
gain_level-Kept rules p = ground arith

climb_all-Kept : (rules : Rules) (p : Player) → Kept p (climb_all rules p).runner
unfolding climb_all
climb_all-Kept rules p =
    climb_keeps (Kept p) rules
      (λ q h. Kept-trans p q (gain_level rules q).runner h (gain_level-Kept rules q)) _
      (record { runner = p; last_gear = "" }) (Kept-refl p)

titled-Kept : (p : Player) (ts : List String) → Kept p (record p { titles = ts })
titled-Kept p ts = record {
  identity = refl;
  account = refl;
  nick = refl;
  alias = refl;
  guest = refl;
  connected = refl;
  faction = refl;
  swapped = refl;
  stance = refl;
  chosen_title = refl;
  streak_since = refl;
  streak_days = refl;
  heat = λ h. h;
}

pub update_titles-Kept : (p : Player) → Kept p (update_titles p).0
update_titles-Kept p =
    subst (Kept p) (sym (update_titles_only p)) (titled-Kept p (update_titles p).0.titles)

pub advance_player-Kept :
    (p : Player) (now : Time) (rules : Rules) → Kept p (advance_player p now rules).0
unfolding advance_player
advance_player-Kept p now rules =
    let p1 = see now p in
    let p2 = accrue_progress now p1 in
    let p3 = decay_heat rules now p2 in
    let p4 = (climb_all rules p3).runner in
    let h1 = Kept-trans p p1 p2 (see-Kept now p) (accrue_progress-Kept now p1) in
    let h2 = Kept-trans p p2 p3 h1 (decay_heat-Kept rules now p2) in
    let h3 = Kept-trans p p3 p4 h2 (climb_all-Kept rules p3) in
    let h4 = Kept-trans p p4 (update_titles p4).0 h3 (update_titles-Kept p4) in
    if-both (λ (r : Player × List String). Kept p r.0) p.connected _ _ h4
      (record {
        identity = refl;
        account = refl;
        nick = refl;
        alias = refl;
        guest = refl;
        connected = refl;
        faction = refl;
        swapped = refl;
        stance = refl;
        chosen_title = refl;
        streak_since = refl;
        streak_days = refl;
        heat = λ h. h;
      })

-- `advancePlayer` changes neither the identity, account, nick, alias and guest mark of the runner, nor
-- its link, nor its faction, last faction swap, stance and chosen title, nor the start of its streak
-- and the streak days paid.
pub advance_player_same :
    (p : Player) (now : Time) (rules : Rules)
    → let q = (advance_player p now rules).0 in
      (q.identity ≡ p.identity)
      × (q.account ≡ p.account)
      × (q.nick ≡ p.nick)
      × (q.alias ≡ p.alias)
      × (q.guest ≡ p.guest)
      × (q.connected ≡ p.connected)
      × (q.faction ≡ p.faction)
      × (q.last_faction_swap_at ≡ p.last_faction_swap_at)
      × (q.stance ≡ p.stance)
      × (q.chosen_title ≡ p.chosen_title)
      × (q.streak_since ≡ p.streak_since)
      × (q.streak_days ≡ p.streak_days)
advance_player_same p now rules =
    let k = advance_player-Kept p now rules in
    (
      k.identity, k.account, k.nick, k.alias, k.guest, k.connected, k.faction, k.swapped, k.stance,
      k.chosen_title, k.streak_since, k.streak_days,
    )

-- `advancePlayer` keeps a Heat between 0 and 100 there, whatever the time and the decay interval.
pub advance_player-IsHeat :
    (p : Player) (now : Time) (rules : Rules)
    → IsHeat p.heat
    → IsHeat (advance_player p now rules).0.heat
advance_player-IsHeat p now rules h = (advance_player-Kept p now rules).heat h
