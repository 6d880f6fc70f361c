-- ===== src/Session/Respects.antt =====
-- What a call does to the tables, by rules for each way to build one: `m` respects a preorder of
-- databases if the tables that it leaves are related to those that it found, returned or raised.
use saas_agent_lab.Common.{◌≡◌, refl, Bool, true, false, Option, none, some, if◌then◌else◌}
use saas_agent_lab.Errors.{Exc}
use saas_agent_lab.Session.{
  Database, World, Result, ok, raise, Exec, pure, raise_error, query, lift, ◌>>=◌, raise_if,
  or_raise, execute, try_catch, attempt, transaction, utcnow,
}

pub record Preorder (R : Database → Database → Type 0) : Type 0 where
  pub same : (d : Database) → R d d
  pub then_ : (d e f : Database) → R d e → R e f → R d f

pub record Respects {A : Type 0} (R : Database → Database → Type 0) (m : Exec A) : Type 0 where
  pub at : (w : World) → R w.db (m w).1.db

module _ {R : Database → Database → Type 0} (p : Preorder R) where
  module _ {A : Type 0} where
    pub Respects-pure : (a : A) → Respects R (pure a)
    unfolding pure
    Respects-pure a = record { at = λ w. p.same w.db }

    pub Respects-raise_error : (e : Exc) → Respects R (raise_error {A = A} e)
    unfolding raise_error
    Respects-raise_error e = record { at = λ w. p.same w.db }

    pub Respects-lift : (r : Result A) → Respects R (lift r)
    unfolding lift
    Respects-lift r = record { at = λ w. p.same w.db }

    pub Respects-query : (f : Database → A) → Respects R (query f)
    unfolding query
    Respects-query f = record { at = λ w. p.same w.db }

    pub Respects-or_raise : (o : Option A) (e : Exc) → Respects R (or_raise o e)
    unfolding or_raise
    Respects-or_raise none e = record { at = λ w. p.same w.db }
    Respects-or_raise (some a) e = record { at = λ w. p.same w.db }

    pub Respects-if :
        (b : Bool) (m n : Exec A) → Respects R m → Respects R n → Respects R (if b then m else n)
    Respects-if true m n h k = h
    Respects-if false m n h k = k

    pub Respects-attempt : (m : Exec A) → Respects R m → Respects R (attempt m)
    unfolding attempt
    Respects-attempt m h = record { at = λ w. h.at w }

    rolled_back :
        (d : Database) (r : Result A) (w' : World)
        → R d w'.db
        → R d (transaction (λ _. (r, w')) (record w' { db = d })).1.db
    unfolding transaction
    rolled_back d (ok a) w' h = h
    rolled_back d (raise e) w' h = p.same d

    pub Respects-transaction : (m : Exec A) → Respects R m → Respects R (transaction m)
    unfolding transaction
    Respects-transaction m h = record {
      at = λ w. let (r, w') = m w in rolled_back w.db r w' (h.at w);
    }

    caught :
        (d : Database) (handler : Exc → Exec A) (r : Result A) (w' : World)
        → ((e : Exc) → Respects R (handler e))
        → R d w'.db
        → R d (try_catch (λ _. (r, w')) handler w').1.db
    unfolding try_catch
    caught d handler (ok a) w' k h = h
    caught d handler (raise e) w' k h = p.then_ d w'.db (handler e w').1.db h ((k e).at w')

    pub Respects-try_catch :
        (m : Exec A) (handler : Exc → Exec A)
        → Respects R m
        → ((e : Exc) → Respects R (handler e))
        → Respects R (try_catch m handler)
    unfolding try_catch
    Respects-try_catch m handler h k = record {
      at = λ w. let (r, w') = m w in caught w.db handler r w' k (h.at w);
    }

  pub Respects-raise_if : (b : Bool) (e : Exc) → Respects R (raise_if b e)
  unfolding raise_if
  Respects-raise_if b e = record { at = λ w. p.same w.db }

  pub Respects-utcnow : Respects R utcnow
  unfolding utcnow
  Respects-utcnow = record { at = λ w. p.same w.db }

  -- A statement respects the preorder if it does at every database.
  pub Respects-execute :
      (f : Database → Database) → ((d : Database) → R d (f d)) → Respects R (execute f)
  unfolding execute
  Respects-execute f h = record { at = λ w. h w.db }

  module _ {A B : Type 0} where
    continued :
        (d : Database) (f : A → Exec B) (r : Result A) (w' : World)
        → ((a : A) → Respects R (f a))
        → R d w'.db
        → R d (((λ _. (r, w')) >>= f) w').1.db
    unfolding ◌>>=◌
    continued d f (ok a) w' k h = p.then_ d w'.db (f a w').1.db h ((k a).at w')
    continued d f (raise e) w' k h = h

    pub Respects-bind :
        (m : Exec A) (f : A → Exec B)
        → Respects R m
        → ((a : A) → Respects R (f a))
        → Respects R (m >>= f)
    unfolding ◌>>=◌
    Respects-bind m f h k = record {
      at = λ w. let (r, w') = m w in continued w.db f r w' k (h.at w);
    }

pub ruleset respects_rules = (
  Respects-pure, Respects-raise_error, Respects-lift, Respects-query, Respects-or_raise,
  Respects-if, Respects-attempt, Respects-transaction, Respects-try_catch, Respects-raise_if,
  Respects-utcnow, Respects-bind,
)

module _ {R : Database → Database → Type 0} {A B : Type 0} where
  -- What is lifted is known behind it.
  pub Respects-lift_known :
      (p : Preorder R) (r : Result A) (f : A → Exec B)
      → ((a : A) → r ≡ ok a → Respects R (f a))
      → Respects R (lift r >>= f)
  unfolding ◌>>=◌
  Respects-lift_known p (ok a) f h = record { at = λ w. (h a refl).at w }
  Respects-lift_known p (raise e) f h = record { at = λ w. p.same w.db }
