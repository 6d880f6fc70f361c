-- ===== src/Session/Escapes.antt =====
-- Which exceptions escape from a call that starts where `P` holds: what its guards and its queries have
-- established is known to the steps behind them.
use saas_agent_lab.Common.{
  ◌≡◌, refl, sym, subst, Bool, true, false, Option, none, some, if◌then◌else◌,
}
use saas_agent_lab.Errors.{Exc}
use saas_agent_lab.Session.{
  Database, World, Result, ok, raise, Exec, ⊤, query, lift, ◌>>=◌, raise_if, or_raise, try_catch,
  utcnow, transaction, and_then,
}
use saas_agent_lab.Session.Respects.{Respects}
use saas_agent_lab.Session.Raises.{Allows, RaisesOnly, committed}

pub record RaisesFrom {A : Type 0} (E : Exc → Type 0) (P : Database → Type 0) (m : Exec A)
    : Type 0 where
  pub at : (w : World) → P w.db → Allows E (m w).0

module _ (E : Exc → Type 0) where
  module _ {A : Type 0} where
    pub Allows-if :
        (b : Bool) (r s : Result A) → Allows E r → Allows E s → Allows E (if b then r else s)
    Allows-if true r s h k = h
    Allows-if false r s h k = k

  module _ {A B : Type 0} where
    pub Allows-and_then :
        (r : Result A) (f : A → Result B)
        → Allows E r
        → ((a : A) → Allows E (f a))
        → Allows E (and_then r f)
    unfolding and_then
    Allows-and_then (ok a) f h k = k a
    Allows-and_then (raise e) f h k = h

module _ {E : Exc → Type 0} where
  module _ (P : Database → Type 0) where
    module _ {A : Type 0} where
      pub from-RaisesOnly : (m : Exec A) → RaisesOnly E m → RaisesFrom E P m
      from-RaisesOnly m h = record { at = λ w start. h.at w }

      pub from-transaction : (m : Exec A) → RaisesFrom E P m → RaisesFrom E P (transaction m)
      unfolding transaction
      from-transaction m h = record {
        at = λ w start. let (r, w') = m w in committed E w.db r w' (h.at w start);
      }

      pub from-raise_if :
          (b : Bool) (e : Exc) (f : ⊤ → Exec A)
          → E e
          → (b ≡ false → RaisesFrom E P (f tt))
          → RaisesFrom E P (raise_if b e >>= f)
      unfolding ◌>>=◌
      from-raise_if true e f h k = record { at = λ w start. h }
      from-raise_if false e f h k = record { at = λ w start. (k refl).at w start }

      -- A guard that is known to pass.
      pub from-passed :
          (b : Bool) (e : Exc) (f : ⊤ → Exec A)
          → ((d : Database) → P d → b ≡ false)
          → RaisesFrom E P (f tt)
          → RaisesFrom E P (raise_if b e >>= f)
      unfolding ◌>>=◌
      from-passed true e f h k = record { at = λ w start. absurd (cc (h w.db start)) }
      from-passed false e f h k = record { at = λ w start. k.at w start }

      pub from-utcnow :
          (f : _ → Exec A) → ((t : _) → RaisesFrom E P (f t)) → RaisesFrom E P (utcnow >>= f)
      unfolding ◌>>=◌
      from-utcnow f h = record {
        at = λ w start. (h (w.clock w.readings)).at (record w { readings = _ }) start;
      }

    module _ {A B : Type 0} where
      pub from-query :
          (g : Database → A) (f : A → Exec B)
          → ((a : A) → RaisesFrom E (λ d. P d × (g d ≡ a)) (f a))
          → RaisesFrom E P (query g >>= f)
      unfolding ◌>>=◌
      from-query g f h = record { at = λ w start. (h (g w.db)).at w (start, refl) }

      pub from-lift :
          (r : Result A) (f : A → Exec B)
          → Allows E r
          → ((a : A) → RaisesFrom E P (f a))
          → RaisesFrom E P (lift r >>= f)
      unfolding ◌>>=◌
      from-lift (ok a) f h k = record { at = λ w start. (k a).at w start }
      from-lift (raise e) f h k = record { at = λ w start. h }

      pub from-or_raise :
          (o : Option A) (e : Exc) (f : A → Exec B)
          → E e
          → ((a : A) → o ≡ some a → RaisesFrom E P (f a))
          → RaisesFrom E P (or_raise o e >>= f)
      unfolding ◌>>=◌
      from-or_raise none e f h k = record { at = λ w start. h }
      from-or_raise (some a) e f h k = record { at = λ w start. (k a refl).at w start }

      read_then :
          (d : Database) (f : A → Exec B) (r : Result A) (w : World)
          → w.db ≡ d
          → P d
          → Allows E r
          → ((a : A) → RaisesFrom E P (f a))
          → Allows E (((λ _. (r, w)) >>= f) w).0
      unfolding ◌>>=◌
      read_then d f (ok a) w same start h k = (k a).at w (subst P (sym same) start)
      read_then d f (raise e) w same start h k = h

      -- What only reads, and the rest.
      pub from-read :
          (m : Exec A) (f : A → Exec B)
          → Respects (λ d e. e ≡ d) m
          → RaisesFrom E P m
          → ((a : A) → RaisesFrom E P (f a))
          → RaisesFrom E P (m >>= f)
      unfolding ◌>>=◌
      from-read m f same h k = record {
        at = λ w start.
            let (r, w') = m w in read_then w.db f r w' (same.at w) start (h.at w start) k;
      }

      written_then :
          (f : A → Exec B) (r : Result A) (w : World)
          → Allows E r
          → ((a : A) → RaisesOnly E (f a))
          → Allows E (((λ _. (r, w)) >>= f) w).0
      unfolding ◌>>=◌
      written_then f (ok a) w h k = (k a).at w
      written_then f (raise e) w h k = h

      -- A write, and what needs no more of what was known.
      pub from-write :
          (m : Exec A) (f : A → Exec B)
          → RaisesFrom E P m
          → ((a : A) → RaisesOnly E (f a))
          → RaisesFrom E P (m >>= f)
      unfolding ◌>>=◌
      from-write m f h k = record {
        at = λ w start. let (r, w') = m w in written_then f r w' (h.at w start) k;
      }

module _ {E F : Exc → Type 0} {A : Type 0} (handler : Exc → Exec A)
    (handles : (e : Exc) → F e → RaisesOnly E (handler e)) where
  caught : (r : Result A) (w : World) → Allows F r → Allows E (try_catch (λ _. (r, w)) handler w).0
  unfolding try_catch
  caught (ok a) w h = tt
  caught (raise e) w h = (handles e h).at w

  pub from-try_catch :
      (P : Database → Type 0) (m : Exec A) → RaisesFrom F P m → RaisesFrom E P (try_catch m handler)
  unfolding try_catch
  from-try_catch P m h = record { at = λ w start. let (r, w') = m w in caught r w' (h.at w start) }
