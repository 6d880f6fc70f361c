-- ===== src/Agent/PydanticAi/IntentPlanner/Copied.antt =====
-- src/app/agent/pydantic_ai_planner.py: what a plan returns, whatever PydanticAI's loop does with the responses
-- that it is given.
use saas_agent_lab.Common.{◌≡◌, refl, subst, ◌⊎◌, inl, inr, Option, none, some, List, [], ◌∷◌}
use saas_agent_lab.Text.{Text, Unicode}
use saas_agent_lab.Json.{Fields}
use saas_agent_lab.Schemas.Agent.{ExtractedIntent}
use saas_agent_lab.Agent.ModelRequests.{
  elapsed_ms, ModelResponse, ToolCallPart, tool_call_parts, Parsed, accepted, rejected, Handled,
  responded, failed, Wrapped, returned, raised, retry, wrap_model_request, of_parsed, once_recorded,
}
use saas_agent_lab.Agent.PydanticAi.{
  Conversation, outputs, stops, asks, calls_function, meanwhile, valid, ArgumentModels,
  tool_of_intent,
}
use saas_agent_lab.Agent.PydanticAi.IntentPlanner.{output_tool, parse_output, as_output, plan}
use saas_agent_lab.Agent.PydanticAi.IntentPlanner.Accepted.{IsCopied, Accepts, parse_output-Accepts}
use saas_agent_lab.Agent.Planner.{IntentPlan}
use saas_agent_lab.Session.{Result, ok, raise, ⊤}

-- What is returned satisfies `P`.
abbrev pub Returns : (ExtractedIntent → Type 0) → IntentPlan → Type 0
Returns P (IntentPlan.extracts intent) = P intent
Returns P (IntentPlan.fails e) = Unit
Returns P (IntentPlan.records call next) = (r : _) → Returns P (next r)
Returns P (IntentPlan.meanwhile request next) = Returns P next

abbrev pub IsAmong : ToolCallPart → List ToolCallPart → Type 0
IsAmong call [] = ⊥
IsAmong call (c ∷ cs) = (call ≡ c) ⊎ IsAmong call cs

module _ (models : ArgumentModels) where
  -- PydanticAI's own reading of a response: one of its tool calls names a result tool, and its arguments
  -- validate. Nothing is asked of the instruction, nor of the other calls.
  abbrev pub IsResult : ModelResponse → ExtractedIntent → Type 0
  IsResult response intent =
      (call : ToolCallPart) × (fields : Fields) × IsAmong call (tool_call_parts response.parts)
      × (output_tool call.tool_name ≡ some (tool_of_intent intent))
      × (call.args ≡ some fields)
      × (models.intent (tool_of_intent intent) fields ≡ valid intent)

  abbrev pub response_of : Wrapped → Option ModelResponse
  response_of (returned response) = some response
  response_of (raised failure) = none
  response_of (retry problem) = none

  -- The loop ends with an output only if it is a result of the response it was just given.
  abbrev pub IsFaithful : Option ModelResponse → Conversation ExtractedIntent ⊥ → Type 0
  IsFaithful none (outputs intent) = ⊥
  IsFaithful (some response) (outputs intent) = IsResult response intent
  IsFaithful given (stops failure) = Unit
  IsFaithful given (meanwhile request next) = IsFaithful given next
  IsFaithful given (calls_function tool next) = Unit
  IsFaithful given (asks model_name elapsed handled next) =
      (wrapped : Wrapped) → IsFaithful (response_of wrapped) (next wrapped)

  module _ (u : Unicode) (instruction : Text) where
    abbrev Passed : Option ModelResponse → Type 0
    Passed none = Unit
    Passed (some response) =
        (intent : ExtractedIntent) × (parse_output u models response instruction ≡ accepted intent)

    same_intent :
        (call c : ToolCallPart) (f g : Fields) (x y : ExtractedIntent)
        → call ≡ c
        → output_tool call.tool_name ≡ some (tool_of_intent x)
        → call.args ≡ some f
        → models.intent (tool_of_intent x) f ≡ valid x
        → output_tool c.tool_name ≡ some (tool_of_intent y)
        → c.args ≡ some g
        → models.intent (tool_of_intent y) g ≡ valid y
        → y ≡ x
    same_intent call c f g x y h a1 a2 a3 b1 b2 b3 = cc

    only_call :
        (parts : List ToolCallPart) (intent x : ExtractedIntent)
        → Accepts u models instruction parts intent
        → (call : ToolCallPart) (fields : Fields) → IsAmong call parts
        → output_tool call.tool_name ≡ some (tool_of_intent x)
        → call.args ≡ some fields
        → models.intent (tool_of_intent x) fields ≡ valid x
        → IsCopied u models instruction x
    only_call parts intent x (c, g, single, b1, b2, b3, copied) call fields among a1 a2 a3 =
        elim (subst (IsAmong call) single among) [
          | inl same ↦
              subst (IsCopied u models instruction)
                (same_intent call c fields g x intent same a1 a2 a3 b1 b2 b3) copied
          | inr none_there ↦ elim none_there [ ]
        ]

    is_copied :
        (response : ModelResponse) (x : ExtractedIntent)
        → Passed (some response)
        → IsResult response x
        → IsCopied u models instruction x
    is_copied response x (intent, passed) (call, fields, among, a1, a2, a3) =
        only_call (tool_call_parts response.parts) intent x
          ((parse_output-Accepts u models instruction response intent).0 passed) call fields among
          a1 a2 a3

    -- What the loop is given of one request has passed the application's own check.
    parsed-Passed :
        (name : _) (latency : _) (response : ModelResponse) (parsed : Parsed ExtractedIntent)
        → parse_output u models response instruction ≡ parsed
        → Passed (response_of (of_parsed name latency response (as_output u models parsed)).1)
    parsed-Passed name latency response (accepted intent) h = (intent, h)
    parsed-Passed name latency response (rejected problem) h = tt

    wrapped-Passed :
        (name : _) (elapsed : _) (handled : Handled)
        → Passed (
            response_of
              (wrap_model_request
                (λ r. as_output u models (parse_output u models r instruction))
                name
                elapsed
                handled).1)
    unfolding wrap_model_request
    wrapped-Passed name elapsed (failed failure) = tt
    wrapped-Passed name elapsed (responded response) =
        parsed-Passed name (elapsed_ms elapsed) response _ refl

    recorded-Passed :
        (r : Result ⊤) (wrapped : Wrapped)
        → Passed (response_of wrapped)
        → Passed (response_of (once_recorded r wrapped))
    recorded-Passed (ok _) wrapped h = h
    recorded-Passed (raise e) wrapped h = tt

    from_given :
        (given : Option ModelResponse) (x : Conversation ExtractedIntent ⊥)
        → Passed given
        → IsFaithful given x
        → Returns (IsCopied u models instruction) (plan u models instruction x)
    unfolding plan
    from_given none (outputs intent) passed h = elim h [ ]
    from_given (some response) (outputs intent) passed h = is_copied response intent passed h
    from_given given (stops failure) passed h = tt
    from_given given (meanwhile request next) passed h = from_given given next passed h
    from_given given (calls_function tool next) passed h = elim tool [ ]
    from_given given (asks model_name elapsed handled next) passed h = λ r.
        from_given (response_of (once_recorded r _)) (next (once_recorded r _))
          (recorded-Passed r _ (wrapped-Passed model_name elapsed handled)) (h (once_recorded r _))

    -- An assignment that a plan returns has nothing but what is copied from the instruction, if PydanticAI's
    -- loop outputs only what it reads from a response that it was given: whatever the model answers, the
    -- application's own check of the response is what keeps the rest out.
    pub plan-IsCopied :
        (conversation : Conversation ExtractedIntent ⊥)
        → IsFaithful none conversation
        → Returns (IsCopied u models instruction) (plan u models instruction conversation)
    plan-IsCopied conversation h = from_given none conversation tt h
