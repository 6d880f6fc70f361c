-- ===== src/Session.antt =====
-- The database and SQLAlchemy's sessions as the program uses them. A method that may raise is a
-- function of the world: the tables, and the readings of the clock that `utcnow` returns in turn.
-- What a session wrote before it raises is there until its transaction rolls it back.
pub mod Respects
pub mod Isolation
pub mod Triples
pub mod Guarded
pub mod Raises
pub mod Escapes
pub mod Succeeds
use saas_agent_lab.Common.{ℕ, suc, Bool, Option, none, some, List, [], ◌∷◌, if◌then◌else◌}
use saas_agent_lab.Errors.{Exc, multiple_results_found}
use saas_agent_lab.Models.{User, Licence, Assignment, AuditEvent, AgentRun, ModelCall, ToolCall}

pub record Database : Type 0 where
  pub users : List User
  pub licences : List Licence
  pub assignments : List Assignment
  pub audit_events : List AuditEvent
  pub agent_runs : List AgentRun
  pub model_calls : List ModelCall
  pub tool_calls : List ToolCall

pub record World : Type 0 where
  pub db : Database
  pub clock : ℕ → ℕ
  pub readings : ℕ

pub data Result (A : Type 0) : Type 0 where
  ok : A → Result A
  raise : Exc → Result A

abbrev pub Exec : Type 0 → Type 0
Exec A = World → Result A × World

abbrev pub ⊤ : Type 0
⊤ = Unit

module _ {A : Type 0} where
  unfoldable pub pure : A → Exec A
  pure a w = (ok a, w)

  unfoldable pub raise_error : Exc → Exec A
  raise_error e w = (raise e, w)

  -- A query: it reads the tables and writes nothing.
  unfoldable pub query : (Database → A) → Exec A
  query f w = (ok (f w.db), w)

  unfoldable pub lift : Result A → Exec A
  lift r w = (r, w)

  unfoldable pub or_raise : Option A → Exc → Exec A
  or_raise none e w = (raise e, w)
  or_raise (some a) _ w = (ok a, w)

  -- `try: m … except Exception as error: handler`.
  unfoldable pub try_catch : Exec A → (Exc → Exec A) → Exec A
  try_catch m handler w = let (r, w') = m w in elim r [ ok a ↦ (ok a, w') | raise e ↦ handler e w' ]

  -- `try: m … except Exception as error: …`, with the exception as a value.
  unfoldable pub attempt : Exec A → Exec (Result A)
  attempt m w = let (r, w') = m w in (ok r, w')

  -- `with self._sessions.begin() as log: m`: committed if the block returns, rolled back if it
  -- raises. Time that has passed stays passed.
  unfoldable pub transaction : Exec A → Exec A
  transaction m w =
      let (r, w') = m w in
      elim r [ ok a ↦ (ok a, w') | raise e ↦ (raise e, record w' { db = w.db }) ]

unfoldable pub raise_if : Bool → Exc → Exec ⊤
raise_if c e w = (if c then raise e else ok tt, w)

-- A statement that writes.
unfoldable pub execute : (Database → Database) → Exec ⊤
execute f w = (ok tt, record w { db = f w.db })

-- src/app/models/base.py: `utcnow`.
unfoldable pub utcnow : Exec ℕ
utcnow w = (ok (w.clock w.readings), record w { readings = suc w.readings })

infixl 5 ◌>>=◌ ◌>>◌
-- To open this is to open every way to build a call.
unfoldable pub ◌>>=◌ : {A B : Type 0} → Exec A → (A → Exec B) → Exec B
unfolding pure raise_error query lift or_raise try_catch attempt transaction raise_if execute utcnow
◌>>=◌ m f w = let (r, w') = m w in elim r [ ok a ↦ f a w' | raise e ↦ (raise e, w') ]

abbrev pub ◌>>◌ : {A B : Type 0} → Exec A → Exec B → Exec B
m >> k = m >>= λ _. k

-- `scalars(…).one_or_none()`.
abbrev pub one_or_none : {A : Type 0} → List A → Result (Option A)
one_or_none [] = ok none
one_or_none (x ∷ []) = ok (some x)
one_or_none (x ∷ y ∷ rest) = raise multiple_results_found

-- `ok` and `raise` in a row, for functions that raise and read no table.
unfoldable pub and_then : {A B : Type 0} → Result A → (A → Result B) → Result B
and_then (ok a) f = f a
and_then (raise e) f = raise e
