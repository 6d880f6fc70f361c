-- ===== src/Agent/PydanticAi/IntentPlanner/Loop.antt =====
-- src/app/agent/pydantic_ai_planner.py with PydanticAI's loop as it is documented: how many requests one
-- plan makes.
use saas_agent_lab.Common.{ℕ, zero, suc, ◌+◌}
use saas_agent_lab.Text.{Text, Unicode}
use saas_agent_lab.Errors.{InvalidOutput}
use saas_agent_lab.Schemas.Agent.{ExtractedIntent}
use saas_agent_lab.Agent.Planner.{IntentPlan}
use saas_agent_lab.Agent.ModelRequests.{ModelResponse, Failure, Wrapped, returned, raised, retry}
use saas_agent_lab.Agent.PydanticAi.{
  Conversation, outputs, stops, asks, calls_function, meanwhile, ArgumentModels,
}
use saas_agent_lab.Agent.PydanticAi.IntentPlanner.{plan, output_retries}

-- At most `n` requests are recorded from here on, whatever the recorder does.
abbrev pub AtMost : ℕ → IntentPlan → Type 0
AtMost n (IntentPlan.extracts intent) = Unit
AtMost n (IntentPlan.fails e) = Unit
AtMost zero (IntentPlan.records call next) = ⊥
AtMost (suc n) (IntentPlan.records call next) = (r : _) → AtMost n (next r)
AtMost n (IntentPlan.meanwhile request next) = AtMost n next

module _ (u : Unicode) (models : ArgumentModels) (instruction : Text) where
  abbrev pub Extraction : Type 0
  Extraction = Conversation ExtractedIntent ⊥

  -- The loop ends with an exception.
  abbrev pub Stops : Extraction → Type 0
  Stops (stops failure) = Unit
  Stops (meanwhile request next) = Stops next
  Stops _ = ⊥

  -- The loop ends, with an exception or with an output.
  abbrev pub Ends : Extraction → Type 0
  Ends (outputs intent) = Unit
  Ends (stops failure) = Unit
  Ends (meanwhile request next) = Ends next
  Ends _ = ⊥

  -- PydanticAI's loop with so many output retries left: an exception from a request ends it, an accepted
  -- response ends it, and a `ModelRetry` costs a retry, or ends it if there is none left.
  abbrev pub IsLoop : ℕ → Extraction → Type 0
  IsLoop n (outputs intent) = ⊥
  IsLoop n (stops failure) = Unit
  IsLoop n (meanwhile request next) = IsLoop n next
  IsLoop n (calls_function tool next) = ⊥
  IsLoop zero (asks model_name elapsed handled next) =
      ((failure : Failure) → Stops (next (raised failure)))
      × ((response : ModelResponse) → Ends (next (returned response)))
      × ((problem : InvalidOutput) → Stops (next (retry problem)))
  IsLoop (suc n) (asks model_name elapsed handled next) =
      ((failure : Failure) → Stops (next (raised failure)))
      × ((response : ModelResponse) → Ends (next (returned response)))
      × ((problem : InvalidOutput) → IsLoop n (next (retry problem)))

  stopped-AtMost : (n : ℕ) (x : Extraction) → Stops x → AtMost n (plan u models instruction x)
  unfolding plan
  stopped-AtMost n (stops failure) h = tt
  stopped-AtMost n (meanwhile request next) h = stopped-AtMost n next h
  stopped-AtMost n (outputs intent) h = elim h [ ]
  stopped-AtMost n (asks model_name elapsed handled next) h = elim h [ ]
  stopped-AtMost n (calls_function tool next) h = elim h [ ]

  ended-AtMost : (n : ℕ) (x : Extraction) → Ends x → AtMost n (plan u models instruction x)
  unfolding plan
  ended-AtMost n (outputs intent) h = tt
  ended-AtMost n (stops failure) h = tt
  ended-AtMost n (meanwhile request next) h = ended-AtMost n next h
  ended-AtMost n (asks model_name elapsed handled next) h = elim h [ ]
  ended-AtMost n (calls_function tool next) h = elim h [ ]

  -- What is recorded and what the loop sees of one request, by its outcome.
  module _ (P : Extraction → Type 0) (next : Wrapped → Extraction)
      (on_raised : (failure : Failure) → P (next (raised failure)))
      (on_returned : (response : ModelResponse) → P (next (returned response)))
      (on_retry : (problem : InvalidOutput) → P (next (retry problem))) where
    seen : (wrapped : Wrapped) → P (next wrapped)
    seen (raised failure) = on_raised failure
    seen (returned response) = on_returned response
    seen (retry problem) = on_retry problem

  loop-AtMost : (n : ℕ) (x : Extraction) → IsLoop n x → AtMost (suc n) (plan u models instruction x)
  unfolding plan
  loop-AtMost n (outputs intent) h = elim h [ ]
  loop-AtMost n (stops failure) h = tt
  loop-AtMost n (meanwhile request next) h = loop-AtMost n next h
  loop-AtMost n (calls_function tool next) h = elim h [ ]
  loop-AtMost zero (asks model_name elapsed handled next) (fails, ends, last) = λ r.
      seen (λ x. AtMost zero (plan u models instruction x)) next
        (λ failure. stopped-AtMost zero (next (raised failure)) (fails failure))
        (λ response. ended-AtMost zero (next (returned response)) (ends response))
        (λ problem. stopped-AtMost zero (next (retry problem)) (last problem)) _
  loop-AtMost (suc n) (asks model_name elapsed handled next) (fails, ends, more) = λ r.
      seen (λ x. AtMost (suc n) (plan u models instruction x)) next
        (λ failure. stopped-AtMost (suc n) (next (raised failure)) (fails failure))
        (λ response. ended-AtMost (suc n) (next (returned response)) (ends response))
        (λ problem. loop-AtMost n (next (retry problem)) (more problem)) _

  -- If PydanticAI's loop keeps its budget of output retries, and ends when a request raises or when its
  -- response is accepted, then one plan records at most three requests.
  pub plan-AtMost :
      (conversation : Extraction)
      → IsLoop output_retries conversation
      → AtMost (1 + output_retries) (plan u models instruction conversation)
  plan-AtMost conversation h = loop-AtMost output_retries conversation h
