-- ===== src/Game/Engine/Leaves.antt =====
-- What an action leaves behind: a property of the engine after it, whether it returns or fails, and
-- the steps that never fail.
use mathlib.Core.Path.{subst}
use neongrid.Base.{Bool, List, String, any, ap, if-both, if◌then◌else◌, refl, sym, ◌≡◌}
use neongrid.Clock.{Time}
use neongrid.Game.Data.{Player}
use neongrid.Game.Engine.Action.{
  Action, Engine, call, gets, modify, proceed, pure, raise, raise_if, ◌>>=◌,
}
use neongrid.Game.Engine.Gives.{Gives, Returns, Returns-bind, Returns-pure}
use neongrid.Game.Engine.Guards.{Any, OnOk}
use neongrid.Game.Engine.Users.{advance_locked, note_climbs, put_user, queue_locked}
use neongrid.Game.Repository.{Error, Result, err, ok}

-- `m` never fails.
abbrev pub Sure : {R A : Type 0} → Action R A → Type 0
Sure m = Returns Any m

module _ {R A : Type 0} where
  pub Sure-gets : (f : Engine R → A) → Sure (gets f)
  unfolding gets
  Sure-gets f = record { returns = λ e. (f e, refl, tt) }

  pub Sure-pure : (a : A) → Sure {R = R} (pure a)
  Sure-pure a = Returns-pure Any a tt

  pub Sure-if : (b : Bool) (m n : Action R A) → Sure m → Sure n → Sure (if b then m else n)
  Sure-if b m n h k = if-both Sure b m n h k

module _ {R : Type 0} where
  pub Sure-modify : (f : Engine R → Engine R) → Sure (modify f)
  unfolding modify
  Sure-modify f = record { returns = λ e. (tt, refl, tt) }

module _ {R A B : Type 0} where
  pub Sure-bind :
      (m : Action R A) (f : A → Action R B) → Sure m → ((a : A) → Sure (f a)) → Sure (m >>= f)
  Sure-bind m f h k = Returns-bind Any Any m f h (λ a _. k a)

-- Of the runners' steps.
module _ {R : Type 0} where
  pub Sure-put_user : (key : String) (q : Player) → Sure {R = R} (put_user key q)
  unfolding put_user
  Sure-put_user key q = Sure-modify _

  pub Sure-queue : (messages : List String) → Sure {R = R} (queue_locked messages)
  unfolding queue_locked
  Sure-queue messages = Sure-modify _

  pub Sure-advance :
      (key : String) (p : Player) (now : Time) → Sure {R = R} (advance_locked key p now)
  unfolding advance_locked note_climbs
  Sure-advance key p now = Sure-bind _ _ (Sure-gets _) λ rules.
      Sure-bind _ _ (Sure-put_user key _) λ done.
        Sure-bind _ _ (Sure-queue _) λ queued.
          Sure-bind _ _ (Sure-if _ _ _ (Sure-modify _) (Sure-pure tt)) λ noted. Sure-pure _

-- After `m` the engine satisfies `Q`.
pub record Leaves {R A : Type 0} (Q : Engine R → Type 0) (m : Action R A) : Type 0 where
  pub leaves : (e : Engine R) → Q (m e).1

-- `m` keeps `Q`.
pub record Keeps {R A : Type 0} (Q : Engine R → Type 0) (m : Action R A) : Type 0 where
  pub keeps : (e : Engine R) → Q e → Q (m e).1

module _ {R A : Type 0} {Q : Engine R → Type 0} where
  pub Keeps-pure : (a : A) → Keeps Q (pure a)
  unfolding pure
  Keeps-pure a = record { keeps = λ e q. q }

  pub Keeps-raise : (x : Error) → Keeps {A = A} Q (raise x)
  unfolding raise
  Keeps-raise x = record { keeps = λ e q. q }

  pub Keeps-either :
      (b : Bool) (m n : Action R A) → Keeps Q m → Keeps Q n → Keeps Q (if b then m else n)
  Keeps-either b m n h k = if-both (Keeps Q) b m n h k

  -- A step that reads, or that may fail, and changes nothing.
  pub Keeps-gets : (f : Engine R → A) → Keeps Q (gets f)
  unfolding gets
  Keeps-gets f = record { keeps = λ e q. q }

  pub Keeps-call :
      (f : R → Result A × R)
      → ((e : Engine R) (s : R) → Q e → Q (record e { store = s }))
      → Keeps Q (call f)
  unfolding call
  Keeps-call f h = record { keeps = λ e q. h e _ q }

module _ {R : Type 0} {Q : Engine R → Type 0} where
  pub Keeps-modify :
      (f : Engine R → Engine R) → ((e : Engine R) → Q e → Q (f e)) → Keeps Q (modify f)
  unfolding modify
  Keeps-modify f h = record { keeps = h }

  pub Keeps-raise_if : (b : Bool) (x : Error) → Keeps Q (raise_if b x)
  unfolding raise_if
  Keeps-raise_if b x = record { keeps = λ e q. q }

  pub Leaves-modify : (f : Engine R → Engine R) → ((e : Engine R) → Q (f e)) → Leaves Q (modify f)
  unfolding modify
  Leaves-modify f h = record { leaves = h }

module _ {R A B : Type 0} {Q : Engine R → Type 0} where
  proceed-keeps :
      (r : Result A) (f : A → Action R B) (e : Engine R)
      → Q e
      → ((a : A) → Keeps Q (f a))
      → Q (proceed r f e).1
  proceed-keeps (ok a) f e q k = (k a).keeps e q
  proceed-keeps (err x) f e q k = q

  pub Keeps-bind :
      (m : Action R A) (f : A → Action R B)
      → Keeps Q m
      → ((a : A) → Keeps Q (f a))
      → Keeps Q (m >>= f)
  unfolding ◌>>=◌
  Keeps-bind m f h k = record { keeps = λ e q. proceed-keeps (m e).0 f (m e).1 (h.keeps e q) k }

  -- A step that reads is followed by one for whatever it reads.
  pub Keeps-read :
      (g : Engine R → A) (f : A → Action R B) → ((a : A) → Keeps Q (f a)) → Keeps Q (gets g >>= f)
  Keeps-read g f k = Keeps-bind _ f (Keeps-gets g) k

  -- The rest may use what a step gives.
  pub Keeps-given :
      (P : A → Type 0) (m : Action R A) (f : A → Action R B)
      → Gives P m
      → Keeps Q m
      → ((a : A) → P a → Keeps Q (f a))
      → Keeps Q (m >>= f)
  unfolding ◌>>=◌
  Keeps-given P m f g h k = record {
    keeps = λ e q. given (m e).0 (m e).1 (g.gives e) (h.keeps e q);
  }
    where
      given : (r : Result A) (e : Engine R) → OnOk P r → Q e → Q (proceed r f e).1
      given (ok a) e p q = (k a p).keeps e q
      given (err x) e p q = q

  -- What one step establishes the rest keeps.
  pub Leaves-then :
      (m : Action R A) (f : A → Action R B)
      → Leaves Q m
      → ((a : A) → Keeps Q (f a))
      → Leaves Q (m >>= f)
  unfolding ◌>>=◌
  Leaves-then m f h k = record { leaves = λ e. proceed-keeps (m e).0 f (m e).1 (h.leaves e) k }

  -- A later step may use what a step that never fails gives.
  pub Leaves-given :
      (P : A → Type 0) (m : Action R A) (f : A → Action R B)
      → Returns P m
      → ((a : A) → P a → Leaves Q (f a))
      → Leaves Q (m >>= f)
  unfolding ◌>>=◌
  Leaves-given P m f h k = record {
    leaves = λ e.
        let (a, run, p) = h.returns e in
        subst Q (sym (ap (λ r. (proceed r f (m e).1).1) run)) ((k a p).leaves (m e).1);
  }

  -- What a later step establishes, after steps that never fail.
  pub Leaves-after :
      (m : Action R A) (f : A → Action R B)
      → Sure m
      → ((a : A) → Leaves Q (f a))
      → Leaves Q (m >>= f)
  unfolding ◌>>=◌
  Leaves-after m f h k = record {
    leaves = λ e.
        let (a, run, any) = h.returns e in
        subst Q (sym (ap (λ r. (proceed r f (m e).1).1) run)) ((k a).leaves (m e).1);
  }

-- If `m` returns, the engine then satisfies `Q`.
pub record Ends {R A : Type 0} (Q : Engine R → Type 0) (m : Action R A) : Type 0 where
  pub ends : (e : Engine R) → OnOk (λ a. Q (m e).1) (m e).0

module _ {R A : Type 0} {Q : Engine R → Type 0} where
  pub Ends-Leaves : (m : Action R A) → Leaves Q m → Ends Q m
  Ends-Leaves m h = record { ends = λ e. returned (m e).0 (h.leaves e) }
    where
      returned : {B : Type 0} (r : Result A) → B → OnOk (λ a. B) r
      returned (ok a) b = b
      returned (err x) b = tt

  pub Ends-ok : (m : Action R A) (e : Engine R) (a : A) → Ends Q m → (m e).0 ≡ ok a → Q (m e).1
  Ends-ok m e a h run = subst (OnOk (λ _. Q (m e).1)) run (h.ends e)

module _ {R A B : Type 0} {Q : Engine R → Type 0} where
  -- What the last steps bring about.
  pub Ends-last :
      (m : Action R A) (f : A → Action R B) → ((a : A) → Ends Q (f a)) → Ends Q (m >>= f)
  unfolding ◌>>=◌
  Ends-last m f k = record { ends = λ e. last (m e).0 (m e).1 }
    where
      last : (r : Result A) (e : Engine R) → OnOk (λ b. Q (proceed r f e).1) (proceed r f e).0
      last (ok a) e = (k a).ends e
      last (err x) e = tt
