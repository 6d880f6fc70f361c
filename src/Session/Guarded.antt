-- ===== src/Session/Guarded.antt =====
-- What a call does to the tables when it starts where `P` holds: what its guards and its queries
-- have established is known to the writes behind them.
use saas_agent_lab.Common.{◌≡◌, refl, sym, subst, Bool, true, false, Option, none, some}
use saas_agent_lab.Errors.{Exc}
use saas_agent_lab.Session.{
  Database, World, Result, ok, raise, Exec, ⊤, query, lift, ◌>>=◌, raise_if, or_raise, execute,
  try_catch, utcnow,
}
use saas_agent_lab.Session.Respects.{Preorder, Respects}

pub record From {A : Type 0} (R : Database → Database → Type 0) (P : Database → Type 0) (m : Exec A)
    : Type 0 where
  pub at : (w : World) → P w.db → R w.db (m w).1.db

module _ {R : Database → Database → Type 0} (p : Preorder R) (P : Database → Type 0) where
  pub From-Respects : {A : Type 0} → (m : Exec A) → Respects R m → From R P m
  From-Respects m h = record { at = λ w start. h.at w }

  pub From-execute :
      (f : Database → Database) → ((d : Database) → P d → R d (f d)) → From R P (execute f)
  unfolding execute
  From-execute f h = record { at = λ w start. h w.db start }

  module _ {A B : Type 0} where
    -- A query tells what it found.
    pub From-query :
        (g : Database → A) (f : A → Exec B)
        → ((a : A) → From R (λ d. P d × (g d ≡ a)) (f a))
        → From R P (query g >>= f)
    unfolding ◌>>=◌
    From-query g f h = record { at = λ w start. (h (g w.db)).at w (start, refl) }

    pub From-lift :
        (r : Result A) (f : A → Exec B)
        → ((a : A) → r ≡ ok a → From R P (f a))
        → From R P (lift r >>= f)
    unfolding ◌>>=◌
    From-lift (ok a) f h = record { at = λ w start. (h a refl).at w start }
    From-lift (raise e) f h = record { at = λ w start. p.same w.db }

    pub From-or_raise :
        (o : Option A) (e : Exc) (f : A → Exec B)
        → ((a : A) → o ≡ some a → From R P (f a))
        → From R P (or_raise o e >>= f)
    unfolding ◌>>=◌
    From-or_raise none e f h = record { at = λ w start. p.same w.db }
    From-or_raise (some a) e f h = record { at = λ w start. (h a refl).at w start }

    after_write :
        (w0 : Database) (f : A → Exec B) (r : Result A) (w : World)
        → R w0 w.db
        → ((a : A) → Respects R (f a))
        → R w0 (((λ _. (r, w)) >>= f) w).1.db
    unfolding ◌>>=◌
    after_write d f (ok a) w first h = p.then_ d w.db _ first ((h a).at w)
    after_write d f (raise e) w first h = first

    -- A write, and what needs no more of what was known.
    pub From-bind :
        (m : Exec A) (f : A → Exec B)
        → From R P m
        → ((a : A) → Respects R (f a))
        → From R P (m >>= f)
    unfolding ◌>>=◌
    From-bind m f h k = record {
      at = λ w start. let (r, w') = m w in after_write w.db f r w' (h.at w start) k;
    }

  module _ {A : Type 0} where
    pub From-raise_if :
        (b : Bool) (e : Exc) (f : ⊤ → Exec A)
        → (b ≡ false → From R P (f tt))
        → From R P (raise_if b e >>= f)
    unfolding ◌>>=◌
    From-raise_if true e f h = record { at = λ w start. p.same w.db }
    From-raise_if false e f h = record { at = λ w start. (h refl).at w start }

    pub From-utcnow : (f : _ → Exec A) → ((t : _) → From R P (f t)) → From R P (utcnow >>= f)
    unfolding ◌>>=◌
    From-utcnow f h = record {
      at = λ w start. (h (w.clock w.readings)).at (record w { readings = _ }) start;
    }

    handled :
        (w0 : Database) (handler : Exc → Exec A) (r : Result A) (w : World)
        → R w0 w.db
        → ((e : Exc) → Respects R (handler e))
        → R w0 (try_catch (λ _. (r, w)) handler w).1.db
    unfolding try_catch
    handled d handler (ok a) w first h = first
    handled d handler (raise e) w first h = p.then_ d w.db _ first ((h e).at w)

    pub From-try_catch :
        (m : Exec A) (handler : Exc → Exec A)
        → From R P m
        → ((e : Exc) → Respects R (handler e))
        → From R P (try_catch m handler)
    unfolding try_catch
    From-try_catch m handler h k = record {
      at = λ w start. let (r, w') = m w in handled w.db handler r w' (h.at w start) k;
    }

module _ {A : Type 0} (R : Database → Database → Type 0) where
  pub Respects-of_From : (m : Exec A) → From R (λ d. Unit) m → Respects R m
  Respects-of_From m h = record { at = λ w. h.at w tt }

module _ {R : Database → Database → Type 0} (p : Preorder R) (P : Database → Type 0)
    {A B : Type 0} where
  after_read :
      (d : Database) (f : A → Exec B) (r : Result A) (w : World)
      → w.db ≡ d
      → P d
      → ((a : A) → From R P (f a))
      → R d (((λ _. (r, w)) >>= f) w).1.db
  unfolding ◌>>=◌
  after_read d f (raise e) w same start h = subst (λ x. R d x) (sym same) (p.same d)
  after_read d f (ok a) w same start h =
      subst (λ x. R x (f a w).1.db) same ((h a).at w (subst P (sym same) start))

  -- What only reads, whatever it does with what it read.
  pub From-read :
      (m : Exec A) (f : A → Exec B)
      → Respects (λ d e. e ≡ d) m
      → ((a : A) → From R P (f a))
      → From R P (m >>= f)
  unfolding ◌>>=◌
  From-read m f same h = record {
    at = λ w start. let (r, w') = m w in after_read w.db f r w' (same.at w) start h;
  }
