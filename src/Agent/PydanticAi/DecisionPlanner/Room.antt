-- ===== src/Agent/PydanticAi/DecisionPlanner/Room.antt =====
-- src/app/agent/executor.py, `before_request`: how many decision requests may still be recorded, step by step.
use saas_agent_lab.Common.{
  ℕ, ◌≤◌, ◌≡◌, refl, Bool, true, false, not, inl, inr, ltb, count, arith, Bool-cases,
}
use saas_agent_lab.Errors.{Exc, decision_stopped}
use saas_agent_lab.Models.Enums.{ModelCallStage}
use saas_agent_lab.Repositories.ModelCalls
use saas_agent_lab.Repositories.ModelCalls.{is_in_stage}
use saas_agent_lab.Schemas.Agent.{ModelCallRecord}
use saas_agent_lab.Agent.Decision.{max_decision_model_requests}
use saas_agent_lab.Agent.Executor.Runs.{record_model_call}
use saas_agent_lab.Agent.Executor.Decide.{check_request_limit, before_request}
use saas_agent_lab.Agent.PydanticAi.DecisionPlanner.Calls.{before_request-SameCalls}
use saas_agent_lab.Agent.PydanticAi.Calls.{record_model_call-Grows}
use saas_agent_lab.Agent.PydanticAi.Grows.{SameCalls}
use saas_agent_lab.Agent.History.Rereads.{Always}
use saas_agent_lab.Session.{
  Database, World, Result, ok, raise, Exec, ⊤, pure, raise_if, ◌>>=◌, attempt,
}
use saas_agent_lab.Session.Respects.{Respects}
use saas_agent_lab.Session.Triples.{Holds, Ensures, ensures-bind, ensures-transaction, ensures-all}

-- The recorded requests of the run's decision.
abbrev pub made : ℕ → Database → ℕ
made id d = count (is_in_stage id ModelCallStage.decision) d.model_calls

-- With one more request allowed, there is room for it.
abbrev pub room : Bool → ℕ
room true = 5
room false = max_decision_model_requests

abbrev IfAllowed : ℕ → Bool → Database → Type 0
IfAllowed id allowed d = allowed ≡ true → made id d ≤ room true

ltb_le : (a : ℕ) → ltb a max_decision_model_requests ≡ true → a ≤ room true
ltb_le a h = ground arith

-- The check, where that many requests are recorded.
check-IfAllowed :
    (id n : ℕ) → Ensures (λ d. made id d ≡ n) (check_request_limit id n) (IfAllowed id)
unfolding check_request_limit pure
check-IfAllowed id n = elim (Bool-cases (ltb n max_decision_model_requests)) [
  | inl below ↦ rw below (record { at = λ w counted yes. rw counted (ltb_le n below) })
  | inr full ↦ rw full (
      ensures-bind _ _ _ (λ _ _. Unit) _ (ensures-all _ _ _ (λ a d. tt))
        λ run.
          ensures-bind _ _ _ (λ _ _. Unit) _ (ensures-all _ _ _ (λ a d. tt))
            λ _. record { at = λ w h no. absurd (cc) })
]

limit-IfAllowed :
    (id : ℕ)
    → Ensures Always
        (ModelCalls.count_for_stage id ModelCallStage.decision >>= λ n. check_request_limit id n)
        (IfAllowed id)
unfolding ModelCalls.count_for_stage ◌>>=◌
limit-IfAllowed id = record { at = λ w start. (check-IfAllowed id (made id w.db)).at w refl }

passed-room :
    (id : ℕ) (allowed : Bool)
    → Ensures
        (IfAllowed id allowed)
        (raise_if (not allowed) (decision_stopped id))
        (λ _ d. made id d ≤ room true)
unfolding raise_if
passed-room id true = record { at = λ w below. below refl }
passed-room id false = record { at = λ w below. tt }

before_request-room : (id : ℕ) → Ensures Always (before_request id) (λ _ d. made id d ≤ room true)
unfolding before_request
before_request-room id =
    ensures-bind Always _ _ (IfAllowed id) _ (ensures-transaction Always _ _ (limit-IfAllowed id))
      (passed-room id)

module _ (id : ℕ) where
  -- From at most so many recorded requests the limit is kept, returned or raised.
  pub record Within {A : Type 0} (n : ℕ) (m : Exec A) : Type 0 where
    pub at : (w : World) → made id w.db ≤ n → made id (m w).1.db ≤ max_decision_model_requests

  pub room_le : (allowed : Bool) → room allowed ≤ max_decision_model_requests
  room_le true = omega arith
  room_le false = omega arith

  module _ {A : Type 0} where
    pub attempt-Within : (n : ℕ) (m : Exec A) → Within n m → Within n (attempt m)
    unfolding attempt
    attempt-Within n m h = record { at = λ w below. h.at w below }

    pub same-Within : (allowed : Bool) (m : Exec A) → Respects SameCalls m → Within (room allowed) m
    same-Within allowed m h = record {
      at = λ w below. rw (h.at w).model_calls (omega (arith, below, room_le allowed));
    }

  module _ {A B : Type 0} where
    continued :
        (n : ℕ) (f : A → Exec B) (r : Result A) (w : World)
        → made id w.db ≤ n
        → n ≤ max_decision_model_requests
        → ((a : A) → Within n (f a))
        → made id (((λ _. (r, w)) >>= f) w).1.db ≤ max_decision_model_requests
    unfolding ◌>>=◌
    continued n f (ok a) w below small h = (h a).at w below
    continued n f (raise e) w below small h = omega (arith, below, small)

    -- A step that records nothing, and the rest.
    pub after-Within :
        (allowed : Bool) (m : Exec A) (f : A → Exec B)
        → Respects SameCalls m
        → ((a : A) → Within (room allowed) (f a))
        → Within (room allowed) (m >>= f)
    unfolding ◌>>=◌
    after-Within allowed m f same h = record {
      at = λ w below.
          let (r, w') = m w in
          continued (room allowed) f r w' (rw (same.at w).model_calls below) (room_le allowed) h;
    }

    -- The limit is kept, and the rest records nothing.
    pub then-Within :
        (n : ℕ) (m : Exec A) (f : A → Exec B)
        → Within n m
        → ((a : A) → Respects SameCalls (f a))
        → Within n (m >>= f)
    unfolding ◌>>=◌
    then-Within n m f h same = record {
      at = λ w below.
          let (r, w') = m w in
          continued max_decision_model_requests f r w' (h.at w below) (omega arith)
            (λ a. same-Within false (f a) (same a));
    }

  module _ {B : Type 0} (f : Result ⊤ → Exec B) where
    -- A recorded request takes the room that was left.
    pub recorded-Within :
        (call : ModelCallRecord)
        → ((r : Result ⊤) → Within max_decision_model_requests (f r))
        → Within (room true) (attempt (record_model_call id ModelCallStage.decision call) >>= f)
    unfolding ◌>>=◌ attempt
    recorded-Within call h = record {
      at = λ w below. (h _).at _ (
          omega (
            arith,
            below,
            (record_model_call-Grows (is_in_stage id ModelCallStage.decision) id
                  ModelCallStage.decision call).at
                w,
          ));
    }

    asked :
        (r : Result ⊤) (w : World)
        → Holds (λ _ d. made id d ≤ room true) r w
        → made id w.db ≤ max_decision_model_requests
        → ((a : ⊤) → Within (room true) (f (ok a)))
        → ((e : Exc) → Within max_decision_model_requests (f (raise e)))
        → made id (f r w).1.db ≤ max_decision_model_requests
    asked (ok a) w held below h k = (h a).at w held
    asked (raise e) w held below h k = (k e).at w below

    -- A request that is allowed has room; one that is refused has none.
    pub requested-Within :
        (allowed : Bool)
        → ((a : ⊤) → Within (room true) (f (ok a)))
        → ((e : Exc) → Within max_decision_model_requests (f (raise e)))
        → Within (room allowed) (attempt (before_request id) >>= f)
    unfolding ◌>>=◌ attempt
    requested-Within allowed h k = record {
      at = λ w below.
          asked _ _ ((before_request-room id).at w tt)
            (rw ((before_request-SameCalls id).at w).model_calls
              (omega (arith, below, room_le allowed)))
            h k;
    }
