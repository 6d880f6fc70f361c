-- ===== src/Session/Succeeds.antt =====
-- Evaluating a call that returns, one statement after the other.
use saas_agent_lab.Common.{◌≡◌, refl, sym, subst, Bool, false, Option, some}
use saas_agent_lab.Errors.{Exc}
use saas_agent_lab.Session.{
  Database, World, Result, ok, Exec, ⊤, query, lift, ◌>>=◌, raise_if, or_raise, try_catch, attempt,
  transaction,
}

module _ {A B : Type 0} where
  pub bind-ok :
      (m : Exec A) (f : A → Exec B) (w w' : World) (a : A) (r : Result B × World)
      → m w ≡ (ok a, w')
      → f a w' ≡ r
      → (m >>= f) w ≡ r
  unfolding ◌>>=◌
  bind-ok m f w w' a r h k = subst (λ x. ((λ _. x) >>= f) w ≡ r) (sym h) k

  pub lift-ok :
      (x : Result A) (f : A → Exec B) (w : World) (a : A) (r : Result B × World)
      → x ≡ ok a
      → f a w ≡ r
      → (lift x >>= f) w ≡ r
  unfolding ◌>>=◌
  lift-ok x f w a r h k = rw h k

  pub query-ok :
      (g : Database → A) (f : A → Exec B) (w : World) (a : A) (r : Result B × World)
      → g w.db ≡ a
      → f a w ≡ r
      → (query g >>= f) w ≡ r
  unfolding ◌>>=◌
  query-ok g f w a r h k = rw h k

  pub or_raise-ok :
      (o : Option A) (e : Exc) (f : A → Exec B) (w : World) (a : A) (r : Result B × World)
      → o ≡ some a
      → f a w ≡ r
      → (or_raise o e >>= f) w ≡ r
  unfolding ◌>>=◌
  or_raise-ok o e f w a r h k = rw h k

module _ {A : Type 0} where
  pub raise_if-ok :
      (b : Bool) (e : Exc) (f : ⊤ → Exec A) (w : World) (r : Result A × World)
      → b ≡ false
      → f tt w ≡ r
      → (raise_if b e >>= f) w ≡ r
  unfolding ◌>>=◌
  raise_if-ok b e f w r h k = rw h k

  pub try_catch-ok :
      (m : Exec A) (handler : Exc → Exec A) (w w' : World) (a : A)
      → m w ≡ (ok a, w')
      → try_catch m handler w ≡ (ok a, w')
  unfolding try_catch
  try_catch-ok m handler w w' a h =
      subst (λ x. try_catch (λ _. x) handler w ≡ (ok a, w')) (sym h) refl

  pub transaction-ok :
      (m : Exec A) (w w' : World) (a : A) → m w ≡ (ok a, w') → transaction m w ≡ (ok a, w')
  unfolding transaction
  transaction-ok m w w' a h = subst (λ x. transaction (λ _. x) w ≡ (ok a, w')) (sym h) refl

  pub attempt-ok :
      (m : Exec A) (w w' : World) (a : A) → m w ≡ (ok a, w') → attempt m w ≡ (ok (ok a), w')
  unfolding attempt
  attempt-ok m w w' a h = rw h refl
