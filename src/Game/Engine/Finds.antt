-- ===== src/Game/Engine/Finds.antt =====
-- What holds of every runner under its key holds of the runner that a lookup finds.
use mathlib.Core.Path.{subst}
use text.Mathlib.Text.{starts_with, ◌==◌ as text_eq}
use text.Mathlib.TextEquality.{eq_iff}
use neongrid.Base.{
  Bool, Bool-cases, Option, String, [], if-both, if◌then◌else◌, inl, inr, none, some, ◌&&◌, ◌∷◌,
}
use neongrid.Base.Map.{Each, Map, get}
use neongrid.Base.Text.{equal_fold}
use neongrid.Game.Data.{Player}
use neongrid.Game.Engine.Users.{
  Entry, entry_at, find_connected, find_guest, find_locked, guest_key, migratable_guest, or_else,
}

abbrev pub OnSome : {A : Type 0} → (A → Type 0) → Option A → Type 0
OnSome P none = Unit
OnSome P (some x) = P x

-- Of the runner of an entry.
abbrev pub Holds : (String → Player → Type 0) → Entry → Type 0
Holds P x = P x.0 x.1

module _ (P : String → Player → Type 0) where
  pub find_connected-Each :
      (nick : String) (users : Map Player)
      → Each P users
      → OnSome (Holds P) (find_connected nick users)
  unfolding find_connected
  find_connected-Each nick [] h = tt
  find_connected-Each nick ((key, p) ∷ users) h =
      if-both (OnSome (Holds P)) (p.connected && equal_fold p.nick nick) _ _ h.0
        (find_connected-Each nick users h.1)

  pub get-Each : (key : String) (users : Map Player) → Each P users → OnSome (P key) (get key users)
  unfolding get
  get-Each key [] h = tt
  get-Each key ((j, p) ∷ users) h = elim (Bool-cases (text_eq j key)) [
    | inl same ↦ rw same (subst (λ k. P k p) ((eq_iff j key).0 same) h.0)
    | inr other ↦ rw other (get-Each key users h.1)
  ]

  entry-Each :
      (key : String) (o : Option Player)
      → OnSome (P key) o
      → OnSome (Holds P) (elim o [ none ↦ none | some p ↦ some (key, p) ])
  entry-Each key none h = tt
  entry-Each key (some p) h = h

  pub entry_at-Each :
      (key : String) (users : Map Player) → Each P users → OnSome (Holds P) (entry_at key users)
  unfolding entry_at
  entry_at-Each key users h = entry-Each key (get key users) (get-Each key users h)

  or_else-Each :
      (o p : Option Entry)
      → OnSome (Holds P) o
      → OnSome (Holds P) p
      → OnSome (Holds P) (or_else o p)
  or_else-Each none p h k = k
  or_else-Each (some x) p h k = h

  guest-Each :
      (o : Option Entry)
      → OnSome (Holds P) o
      → OnSome
          (Holds P)
          (elim o [ none ↦ none | some (key, p) ↦ if p.guest then some (key, p) else none ])
  guest-Each none h = tt
  guest-Each (some (key, p)) h = if-both (OnSome (Holds P)) p.guest _ _ h tt

  pub find_guest-Each :
      (nick : String) (users : Map Player) → Each P users → OnSome (Holds P) (find_guest nick users)
  unfolding find_guest
  find_guest-Each nick users h =
      guest-Each (entry_at (guest_key nick) users) (entry_at-Each (guest_key nick) users h)

  pub find_locked-Each :
      (identity nick : String) (users : Map Player)
      → Each P users
      → OnSome (Holds P) (find_locked identity nick users)
  unfolding find_locked
  find_locked-Each identity nick users h =
      or_else-Each _ _
        (if-both (OnSome (Holds P)) (text_eq identity "") _ _ tt (
          or_else-Each _ _ (entry_at-Each identity users h) (
            if-both (OnSome (Holds P)) (starts_with identity "acct:") _ _ (entry_at-Each _ users h)
              tt)))
        (or_else-Each _ _ (find_connected-Each nick users h)
          (if-both (OnSome (Holds P)) (text_eq identity "") _ _ (find_guest-Each nick users h) tt))

  migratable-Each :
      (o g : Option Entry) (b : Bool)
      → OnSome (Holds P) o
      → OnSome (Holds P) g
      → OnSome (Holds P) (elim o [
        | some (key, p) ↦ if p.guest then some (key, p) else none
        | none ↦ if b then g else none
      ])
  migratable-Each (some (key, p)) g b h k = if-both (OnSome (Holds P)) p.guest _ _ h tt
  migratable-Each none g b h k = if-both (OnSome (Holds P)) b _ _ k tt

  pub migratable_guest-Each :
      (nick account : String) (users : Map Player)
      → Each P users
      → OnSome (Holds P) (migratable_guest nick account users)
  unfolding migratable_guest
  migratable_guest-Each nick account users h =
      migratable-Each (find_connected nick users) (find_guest nick users) _
        (find_connected-Each nick users h) (find_guest-Each nick users h)
