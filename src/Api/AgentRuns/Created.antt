-- ===== src/Api/AgentRuns/Created.antt =====
-- src/app/api/agent_runs.py, `create_agent_run`: what its 422 means.
use saas_agent_lab.Common.{ℕ, ◌≡◌, refl, ap, subst, true, arith}
use saas_agent_lab.Text.{Text, Unicode}
use saas_agent_lab.Errors.{Exc, invalid_input, request_validation_error}
use saas_agent_lab.Models.Enums.{AgentRunStatus}
use saas_agent_lab.Repositories.AgentRuns
use saas_agent_lab.Schemas.Agent.{DecisionContext}
use saas_agent_lab.Schemas.AgentRuns.{AgentRunRead, read_of}
use saas_agent_lab.Schemas.AgentRuns.Validation.{Validators}
use saas_agent_lab.Agent.Planner.{IntentPlan, DecisionPlan}
use saas_agent_lab.Agent.Executor.Extraction.{validated_request, receive_run}
use saas_agent_lab.Agent.Executor.Lifecycle.{AgentRunRecord, get, run, start}
use saas_agent_lab.Agent.Raises.{
  is_invalid_input, NotInput, extract_intent-NotInput, resolve_and_decide-NotInput,
}
use saas_agent_lab.Api.Requests.{get_actor, status_otherwise}
use saas_agent_lab.Api.AgentRuns.{
  Reply, success, error, shown, created, create_agent_run, validated_body,
}
use saas_agent_lab.Session.{
  Database, World, Result, ok, raise, Exec, pure, lift, ◌>>=◌, transaction,
}
use saas_agent_lab.Session.Raises.{Allows, RaisesOnly, raises_rules}

-- An exception for broken input leaves the tables as they were.
abbrev Refused : {A : Type 0} → Database → Result A → World → Type 0
Refused d (ok a) w = Unit
Refused d (raise e) w = is_invalid_input e ≡ true → w.db ≡ d

record Refuses {A : Type 0} (m : Exec A) : Type 0 where
  at : (w : World) → Refused w.db (m w).0 (m w).1

module _ {A : Type 0} where
  not_input : (d : Database) (r : Result A) (w : World) → Allows NotInput r → Refused d r w
  not_input d (ok a) w h = tt
  not_input d (raise e) w h = λ k. absurd (cc)

  Refuses-of_NotInput : (m : Exec A) → RaisesOnly NotInput m → Refuses m
  Refuses-of_NotInput m h = record { at = λ w. not_input w.db (m w).0 (m w).1 (h.at w) }

module _ {A B : Type 0} where
  Refuses-lift :
      (r : Result A) (f : A → Exec B) → ((a : A) → Refuses (f a)) → Refuses (lift r >>= f)
  unfolding ◌>>=◌
  Refuses-lift (ok a) f h = record { at = λ w. (h a).at w }
  Refuses-lift (raise e) f h = record { at = λ w k. refl }

  continued :
      (d : Database) (f : A → Exec B) (r : Result A) (w : World)
      → Refused d r w
      → ((a : A) → RaisesOnly NotInput (f a))
      → Refused d (((λ _. (r, w)) >>= f) w).0 (((λ _. (r, w)) >>= f) w).1
  unfolding ◌>>=◌
  continued d f (ok a) w h k = not_input d (f a w).0 (f a w).1 ((k a).at w)
  continued d f (raise e) w h k = h

  Refuses-bind :
      (m : Exec A) (f : A → Exec B)
      → Refuses m
      → ((a : A) → RaisesOnly NotInput (f a))
      → Refuses (m >>= f)
  unfolding ◌>>=◌
  Refuses-bind m f h k = record { at = λ w. let (r, w') = m w in continued w.db f r w' (h.at w) k }

add-NotInput :
    (i a : Text)
    → RaisesOnly NotInput
        (transaction (do run ← AgentRuns.add i a AgentRunStatus.received; pure run.id))
unfolding AgentRuns.add
add-NotInput i a = search raises_rules depth 14

receive_run-Refuses : (u : Unicode) (i a : Text) → Refuses (receive_run u i a)
unfolding receive_run
receive_run-Refuses u i a =
    Refuses-lift (validated_request u i a) _ λ actor. Refuses-of_NotInput _ (add-NotInput i actor)

get-NotInput : (id : ℕ) → RaisesOnly NotInput (get id)
unfolding get AgentRuns.get AgentRuns.list_trace
get-NotInput id = search raises_rules depth 10

module _ (u : Unicode) (i a : Text) (ip : Text → IntentPlan)
    (dp : DecisionContext → DecisionPlan) where
  run-Refuses : Refuses (run u i a ip dp)
  unfolding run
  run-Refuses =
      Refuses-bind _ _ (receive_run-Refuses u i a)
        λ id. search (raises_rules, extract_intent-NotInput, resolve_and_decide-NotInput) depth 12

  start-Refuses : Refuses (start u i a ip dp)
  unfolding start
  start-Refuses = Refuses-bind _ _ run-Refuses get-NotInput

abbrev request :
    Unicode
    → Text
    → Text
    → (Text → IntentPlan)
    → (DecisionContext → DecisionPlan)
    → Exec AgentRunRecord
request u x_actor instruction ip dp = do
  actor ← lift (get_actor u x_actor)
  asked ← lift (validated_body instruction)
  start u asked actor ip dp

request-Refuses :
    (u : Unicode) (x i : Text) (ip : Text → IntentPlan) (dp : DecisionContext → DecisionPlan)
    → Refuses (request u x i ip dp)
request-Refuses u x i ip dp =
    Refuses-lift _ _ λ actor. Refuses-lift _ _ λ asked. start-Refuses u asked actor ip dp

is_refusal : (e : Exc) → status_otherwise e ≡ 422 → is_invalid_input e ≡ true
is_refusal (invalid_input problem) h = refl
is_refusal request_validation_error h = refl
is_refusal _ h = absurd (omega arith)

abbrev code_of : {A : Type 0} → Reply A → ℕ
code_of (success code a) = code
code_of (error code e) = code

shown_code : {A : Type 0} → (r : Result A) → code_of (shown 201 r) ≡ 422 → ⊥
shown_code (ok a) h = omega arith
shown_code (raise e) h = omega arith

module _ (v : Validators) (w' : World) (e : Exc) where
  abbrev Answer : Type 0
  Answer = Result (Reply AgentRunRead) × World

  abbrev code : Answer → ℕ
  code (ok reply, w) = code_of reply
  code (raise x, w) = 0

  refusal :
      (d : Database) (r : Result AgentRunRecord) (w : World)
      → Refused d r w
      → ◌≡◌ {A = Answer} (ok (created v r), w) (ok (error 422 e), w')
      → w'.db ≡ d
  unfolding created
  refusal d (ok row) w h same = absurd (shown_code (read_of v row.run) (ap code same))
  refusal d (raise x) w h same =
      subst (λ (x : Answer). x.1.db ≡ d) same (h (is_refusal x (ap code same)))

  -- If a request to start a run is answered 422, then no run was created and nothing was written: the
  -- tables are those from before the request, whatever the header, the instruction and the planners are.
  pub create_agent_run-refused :
      (u : Unicode) (x_actor instruction : Text) (intent_planner : Text → IntentPlan)
      (decision_planner : DecisionContext → DecisionPlan) (w : World)
      → create_agent_run v u x_actor instruction intent_planner decision_planner w
        ≡ (ok (error 422 e), w')
      → w'.db ≡ w.db
  unfolding create_agent_run ◌>>=◌
  create_agent_run-refused u x_actor instruction intent_planner decision_planner w same =
      let (r, w1) = request u x_actor instruction intent_planner decision_planner w in
      refusal w.db r w1
        ((request-Refuses u x_actor instruction intent_planner decision_planner).at w) same
