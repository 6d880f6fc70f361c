-- ===== src/Session/Raises.antt =====
-- Which exceptions escape from a call, by rules for each way to build one: `RaisesOnly E m` says that
-- every exception that `m` raises satisfies `E`.
use saas_agent_lab.Common.{Bool, true, false, Option, none, some, if◌then◌else◌}
use saas_agent_lab.Errors.{Exc}
use saas_agent_lab.Session.{
  Database, World, Result, ok, raise, Exec, pure, raise_error, query, lift, ◌>>=◌, raise_if,
  or_raise, execute, attempt, transaction, utcnow,
}

abbrev pub Allows : {A : Type 0} → (Exc → Type 0) → Result A → Type 0
Allows E (ok a) = Unit
Allows E (raise e) = E e

pub record RaisesOnly {A : Type 0} (E : Exc → Type 0) (m : Exec A) : Type 0 where
  pub at : (w : World) → Allows E (m w).0

pub committed :
    {A : Type 0}
    → (E : Exc → Type 0) (d : Database) (r : Result A) (w : World) → Allows E r
    → Allows E (transaction (λ _. (r, w)) (record w { db = d })).0
unfolding transaction
committed E d (ok a) w h = tt
committed E d (raise e) w h = h

module _ {E : Exc → Type 0} where
  module _ {A : Type 0} where
    pub raises-pure : (a : A) → RaisesOnly E (pure a)
    unfolding pure
    raises-pure a = record { at = λ w. tt }

    pub raises-raise_error : (e : Exc) → E e → RaisesOnly E (raise_error {A = A} e)
    unfolding raise_error
    raises-raise_error e h = record { at = λ w. h }

    pub raises-lift : (r : Result A) → Allows E r → RaisesOnly E (lift r)
    unfolding lift
    raises-lift r h = record { at = λ w. h }

    pub raises-query : (f : Database → A) → RaisesOnly E (query f)
    unfolding query
    raises-query f = record { at = λ w. tt }

    pub raises-or_raise : (o : Option A) (e : Exc) → E e → RaisesOnly E (or_raise o e)
    unfolding or_raise
    raises-or_raise none e h = record { at = λ w. h }
    raises-or_raise (some a) e h = record { at = λ w. tt }

    pub raises-if :
        (b : Bool) (m n : Exec A)
        → RaisesOnly E m
        → RaisesOnly E n
        → RaisesOnly E (if b then m else n)
    raises-if true m n h k = h
    raises-if false m n h k = k

    -- What is caught does not escape.
    pub raises-attempt : (m : Exec A) → RaisesOnly E (attempt m)
    unfolding attempt
    raises-attempt m = record { at = λ w. tt }

    pub raises-transaction : (m : Exec A) → RaisesOnly E m → RaisesOnly E (transaction m)
    unfolding transaction
    raises-transaction m h = record {
      at = λ w. let (r, w') = m w in committed E w.db r w' (h.at w);
    }

  pub raises-raise_if : (b : Bool) (e : Exc) → E e → RaisesOnly E (raise_if b e)
  unfolding raise_if
  raises-raise_if true e h = record { at = λ w. h }
  raises-raise_if false e h = record { at = λ w. tt }

  pub raises-utcnow : RaisesOnly E utcnow
  unfolding utcnow
  raises-utcnow = record { at = λ w. tt }

  pub raises-execute : (f : Database → Database) → RaisesOnly E (execute f)
  unfolding execute
  raises-execute f = record { at = λ w. tt }

  module _ {A B : Type 0} where
    continued :
        (f : A → Exec B) (r : Result A) (w : World)
        → Allows E r
        → ((a : A) → RaisesOnly E (f a))
        → Allows E (((λ _. (r, w)) >>= f) w).0
    unfolding ◌>>=◌
    continued f (ok a) w h k = (k a).at w
    continued f (raise e) w h k = h

    pub raises-bind :
        (m : Exec A) (f : A → Exec B)
        → RaisesOnly E m
        → ((a : A) → RaisesOnly E (f a))
        → RaisesOnly E (m >>= f)
    unfolding ◌>>=◌
    raises-bind m f h k = record { at = λ w. let (r, w') = m w in continued f r w' (h.at w) k }

pub ruleset raises_rules = (
  raises-pure, raises-raise_error, raises-lift, raises-query, raises-or_raise, raises-if,
  raises-attempt, raises-transaction, raises-raise_if, raises-utcnow, raises-execute, raises-bind,
)
