-- ===== src/Session/Triples.antt =====
-- What holds when a call returns: `Ensures P m Q` says that a return of `m` from tables where `P`
-- holds leaves tables where `Q` holds of its value. Nothing is said of a call that raises.
use saas_agent_lab.Common.{◌≡◌, refl, sym, subst, Bool, true, false, Option, none, some}
use saas_agent_lab.Errors.{Exc}
use saas_agent_lab.Session.Respects.{Preorder, Respects}
use saas_agent_lab.Session.{
  Database, World, Result, ok, raise, Exec, ⊤, pure, ◌>>=◌, raise_if, or_raise, transaction,
  try_catch, lift, attempt,
}

module _ {A : Type 0} where
  abbrev pub Holds : (A → Database → Type 0) → Result A → World → Type 0
  Holds Q (ok a) w = Q a w.db
  Holds Q (raise e) w = Unit

  pub record Ensures (P : Database → Type 0) (m : Exec A) (Q : A → Database → Type 0) : Type 0 where
    pub at : (w : World) → P w.db → Holds Q (m w).0 (m w).1

  module _ (P : Database → Type 0) where
    pub ensures-pure : (a : A) → Ensures P (pure a) (λ b d. (b ≡ a) × P d)
    unfolding pure
    ensures-pure a = record { at = λ w h. (refl, h) }

    committed :
        (Q : A → Database → Type 0) (d : Database) (r : Result A) (w : World)
        → Holds Q r w
        → Holds Q
            (transaction (λ _. (r, w)) (record w { db = d })).0
            (transaction (λ _. (r, w)) (record w { db = d })).1
    unfolding transaction
    committed Q d (ok a) w h = h
    committed Q d (raise e) w h = tt

    pub ensures-transaction :
        (m : Exec A) (Q : A → Database → Type 0) → Ensures P m Q → Ensures P (transaction m) Q
    unfolding transaction
    ensures-transaction m Q h = record {
      at = λ w start. let (r, w') = m w in committed Q w.db r w' (h.at w start);
    }

    pub ensures-raise_if :
        (b : Bool) (e : Exc) (f : ⊤ → Exec A) (Q : A → Database → Type 0)
        → (b ≡ false → Ensures P (f tt) Q)
        → Ensures P (raise_if b e >>= f) Q
    unfolding ◌>>=◌
    ensures-raise_if true e f Q h = record { at = λ w start. tt }
    ensures-raise_if false e f Q h = record { at = λ w start. (h refl).at w start }

module _ {A : Type 0} where
  recovered :
      (Q : A → Database → Type 0) (handler : Exc → Exec A) (r : Result A) (w : World)
      → ((e : Exc) → Ensures (λ _. Unit) (handler e) Q)
      → Holds Q r w
      → Holds Q (try_catch (λ _. (r, w)) handler w).0 (try_catch (λ _. (r, w)) handler w).1
  unfolding try_catch
  recovered Q handler (ok a) w k h = h
  recovered Q handler (raise e) w k h = (k e).at w tt

  pub ensures-try_catch :
      (P : Database → Type 0) (m : Exec A) (handler : Exc → Exec A) (Q : A → Database → Type 0)
      → Ensures P m Q
      → ((e : Exc) → Ensures (λ _. Unit) (handler e) Q)
      → Ensures P (try_catch m handler) Q
  unfolding try_catch
  ensures-try_catch P m handler Q h k = record {
    at = λ w start. let (r, w') = m w in recovered Q handler r w' k (h.at w start);
  }

  anything :
      (Q : A → Database → Type 0) (r : Result A) (w : World)
      → ((a : A) (d : Database) → Q a d)
      → Holds Q r w
  anything Q (ok a) w h = h a w.db
  anything Q (raise e) w h = tt

  -- What holds of every value.
  pub ensures-all :
      (P : Database → Type 0) (m : Exec A) (Q : A → Database → Type 0)
      → ((a : A) (d : Database) → Q a d)
      → Ensures P m Q
  ensures-all P m Q h = record { at = λ w start. anything Q (m w).0 (m w).1 h }

module _ {A B : Type 0} (P : Database → Type 0) where
  next-Holds :
      (Q : A → Database → Type 0) (S : B → Database → Type 0) (f : A → Exec B) (r : Result A)
      (w : World)
      → ((a : A) → Ensures (Q a) (f a) S)
      → Holds Q r w
      → Holds S (((λ _. (r, w)) >>= f) w).0 (((λ _. (r, w)) >>= f) w).1
  unfolding ◌>>=◌
  next-Holds Q S f (ok a) w k h = (k a).at w h
  next-Holds Q S f (raise e) w k h = tt

  pub ensures-bind :
      (m : Exec A) (f : A → Exec B) (Q : A → Database → Type 0) (S : B → Database → Type 0)
      → Ensures P m Q
      → ((a : A) → Ensures (Q a) (f a) S)
      → Ensures P (m >>= f) S
  unfolding ◌>>=◌
  ensures-bind m f Q S h k = record {
    at = λ w start. let (r, w') = m w in next-Holds Q S f r w' k (h.at w start);
  }

  pub ensures-or_raise :
      (o : Option A) (e : Exc) (f : A → Exec B) (S : B → Database → Type 0)
      → ((a : A) → o ≡ some a → Ensures P (f a) S)
      → Ensures P (or_raise o e >>= f) S
  unfolding ◌>>=◌
  ensures-or_raise none e f S h = record { at = λ w start. tt }
  ensures-or_raise (some a) e f S h = record { at = λ w start. (h a refl).at w start }

module _ {A : Type 0} (P : Database → Type 0) where
  still : (d : Database) (r : Result A) (w : World) → w.db ≡ d → P d → Holds (λ a e. P e) r w
  still d (ok a) w same h = subst P (sym same) h
  still d (raise e) w same h = tt

  -- What only reads keeps what holds of the tables.
  pub ensures-read : (m : Exec A) → Respects (λ d e. e ≡ d) m → Ensures P m (λ a d. P d)
  ensures-read m same = record { at = λ w h. still w.db (m w).0 (m w).1 (same.at w) h }

module _ {A : Type 0} (Q S : A → Database → Type 0)
    (imply : (a : A) (d : Database) → Q a d → S a d) where
  weaker : (r : Result A) (w : World) → Holds Q r w → Holds S r w
  weaker (ok a) w h = imply a w.db h
  weaker (raise e) w h = tt

  -- The rule of consequence.
  pub ensures-weaken :
      (P T : Database → Type 0) (m : Exec A)
      → ((d : Database) → T d → P d)
      → Ensures P m Q
      → Ensures T m S
  ensures-weaken P T m f h = record { at = λ w t. weaker (m w).0 (m w).1 (h.at w (f w.db t)) }

module _ {A B : Type 0} (P : Database → Type 0) where
  pub ensures-lift :
      (o : Result A) (f : A → Exec B) (S : B → Database → Type 0)
      → ((a : A) → o ≡ ok a → Ensures P (f a) S)
      → Ensures P (lift o >>= f) S
  unfolding ◌>>=◌
  ensures-lift (ok a) f S h = record { at = λ w start. (h a refl).at w start }
  ensures-lift (raise e) f S h = record { at = λ w start. tt }

module _ {A B : Type 0} (P : Database → Type 0) (Q : A → Database → Type 0) where
  tried :
      (S : B → Database → Type 0) (f : Result A → Exec B) (o : Result A) (w : World)
      → Holds Q o w
      → ((a : A) → Ensures (Q a) (f (ok a)) S)
      → ((e : Exc) → Ensures (λ d. Unit) (f (raise e)) S)
      → Holds S (((λ _. (ok o, w)) >>= f) w).0 (((λ _. (ok o, w)) >>= f) w).1
  unfolding ◌>>=◌
  tried S f (ok a) w h k l = (k a).at w h
  tried S f (raise e) w h k l = (l e).at w tt

  pub ensures-attempt :
      (m : Exec A) (f : Result A → Exec B) (S : B → Database → Type 0)
      → Ensures P m Q
      → ((a : A) → Ensures (Q a) (f (ok a)) S)
      → ((e : Exc) → Ensures (λ d. Unit) (f (raise e)) S)
      → Ensures P (attempt m >>= f) S
  unfolding ◌>>=◌
  ensures-attempt m f S h k l = record {
    at = λ w start. let (o, w') = m w in tried S f o w' (h.at w start) k l;
  }

module _ {A : Type 0} where
  -- A triple at one call that returned.
  pub returned :
      (P : Database → Type 0) (m : Exec A) (Q : A → Database → Type 0)
      → Ensures P m Q
      → (w v : World) (a : A) → P w.db
      → m w ≡ (ok a, v)
      → Q a v.db
  returned P m Q h w v a start e = subst (λ x. Holds Q x.0 x.1) e (h.at w start)

module _ {R : Database → Database → Type 0} (p : Preorder R) {A B : Type 0} (Q : A → Type 0) where
  after_attempt :
      (d : Database) (f : Result A → Exec B) (o : Result A) (w : World)
      → R d w.db
      → Holds (λ a _. Q a) o w
      → ((e : Exc) → Respects R (f (raise e)))
      → ((a : A) → Q a → Respects R (f (ok a)))
      → R d (((λ _. (ok o, w)) >>= f) w).1.db
  unfolding ◌>>=◌
  after_attempt d f (ok a) w first q k l = p.then_ d w.db _ first ((l a q).at w)
  after_attempt d f (raise e) w first q k l = p.then_ d w.db _ first ((k e).at w)

  -- `try: m … except`, where what `m` returns is known.
  pub Respects-attempt_known :
      (m : Exec A) (f : Result A → Exec B)
      → Respects R m
      → Ensures (λ _. Unit) m (λ a _. Q a)
      → ((e : Exc) → Respects R (f (raise e)))
      → ((a : A) → Q a → Respects R (f (ok a)))
      → Respects R (attempt m >>= f)
  unfolding ◌>>=◌
  Respects-attempt_known m f h q k l = record {
    at = λ w. let (o, w') = m w in after_attempt w.db f o w' (h.at w) (q.at w tt) k l;
  }
