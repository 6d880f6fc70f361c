-- ===== src/Agent/PydanticAi/Grows.antt =====
-- src/app/models/model_call.py: how many model calls a step of src/app/agent/executor.py adds.
use saas_agent_lab.Common.{
  ℕ, ◌+◌, ◌≤◌, ◌≡◌, refl, ◌∙◌, arith, Bool, [], ◌∷◌, ◌++◌, count, count-append, count-le-length,
}
use saas_agent_lab.Models.{ModelCall}
use saas_agent_lab.Session.{
  Database, World, Result, ok, raise, Exec, ◌>>=◌, attempt, transaction, execute,
}
use saas_agent_lab.Session.Respects.{Preorder, Respects}

-- At most `n` of the model calls that are added are counted.
pub record Grows (p : ModelCall → Bool) {A : Type 0} (n : ℕ) (m : Exec A) : Type 0 where
  pub at : (w : World) → count p (m w).1.db.model_calls ≤ n + count p w.db.model_calls

pub record SameCalls (d e : Database) : Type 0 where
  pub model_calls : e.model_calls ≡ d.model_calls

pub SameCalls-preorder : Preorder SameCalls
SameCalls-preorder = record {
  same = λ d. record { model_calls = refl };
  then_ = λ d e f a b. record { model_calls = b.model_calls ∙ a.model_calls };
}

pub writes_other :
    (f : Database → Database)
    → ((d : Database) → (f d).model_calls ≡ d.model_calls)
    → Respects SameCalls (execute f)
unfolding execute
writes_other f h = record { at = λ w. record { model_calls = h w.db } }

module _ (p : ModelCall → Bool) {A : Type 0} where
  Grows-same : (m : Exec A) → Respects SameCalls m → Grows p 0 m
  Grows-same m h = record { at = λ w. rw (h.at w).model_calls (omega arith) }

  pub Grows-attempt : (n : ℕ) (m : Exec A) → Grows p n m → Grows p n (attempt m)
  unfolding attempt
  Grows-attempt n m h = record { at = λ w. h.at w }

  rolled_back :
      (n : ℕ) (d : Database) (r : Result A) (w : World)
      → count p w.db.model_calls ≤ n + count p d.model_calls
      → count p (transaction (λ _. (r, w)) (record w { db = d })).1.db.model_calls
        ≤ n + count p d.model_calls
  unfolding transaction
  rolled_back n d (ok a) w h = h
  rolled_back n d (raise e) w h = omega arith

  pub Grows-transaction : (n : ℕ) (m : Exec A) → Grows p n m → Grows p n (transaction m)
  unfolding transaction
  Grows-transaction n m h = record {
    at = λ w. let (r, w') = m w in rolled_back n w.db r w' (h.at w);
  }

module _ (p : ModelCall → Bool) {A B : Type 0} where
  continued :
      (a b n : ℕ) (d : Database) (f : A → Exec B) (r : Result A) (w : World)
      → a + b ≤ n
      → count p w.db.model_calls ≤ a + count p d.model_calls
      → ((x : A) → Grows p b (f x))
      → count p (((λ _. (r, w)) >>= f) w).1.db.model_calls ≤ n + count p d.model_calls
  unfolding ◌>>=◌
  continued a b n d f (ok x) w sum h k = omega (arith, (k x).at w, h, sum)
  continued a b n d f (raise e) w sum h k = omega (arith, h, sum)

  pub Grows-bind :
      (a b n : ℕ) (m : Exec A) (f : A → Exec B)
      → a + b ≤ n
      → Grows p a m
      → ((x : A) → Grows p b (f x))
      → Grows p n (m >>= f)
  unfolding ◌>>=◌
  Grows-bind a b n m f sum h k = record {
    at = λ w. let (r, w') = m w in continued a b n w.db f r w' sum (h.at w) k;
  }

  -- What adds none, and the rest; and the other way round.
  pub Grows-after :
      (n : ℕ) (m : Exec A) (f : A → Exec B)
      → Respects SameCalls m
      → ((x : A) → Grows p n (f x))
      → Grows p n (m >>= f)
  Grows-after n m f h k = Grows-bind 0 n n m f (omega arith) (Grows-same p m h) k

  pub Grows-then :
      (n : ℕ) (m : Exec A) (f : A → Exec B)
      → Grows p n m
      → ((x : A) → Respects SameCalls (f x))
      → Grows p n (m >>= f)
  Grows-then n m f h k = Grows-bind n 0 n m f (omega arith) h λ x. Grows-same p (f x) (k x)

pub insert-Grows :
    (p : ModelCall → Bool) (call : ModelCall)
    → Grows p 1 (execute (λ d. record d { model_calls = d.model_calls ++ call ∷ [] }))
unfolding execute
insert-Grows p call = record {
  at = λ w.
      omega (arith, count-append p w.db.model_calls (call ∷ []), count-le-length p (call ∷ []));
}
