-- ===== src/Examples/Planners.antt =====
-- Concrete models of the result tools, and responses and conversations to try the planners on.
use saas_agent_lab.Common.{
  ℕ, pos, zero, suc, ◌≡◌, refl, String, true, false, inl, inr, Bool-cases, if◌then◌else◌, Option,
  none, some, List, [], ◌∷◌,
}
use saas_agent_lab.Text.{Text, codes}
use saas_agent_lab.Json.{Json, Fields, field, end, get, text}
use saas_agent_lab.Models.Enums.{CannotProceedReason}
use saas_agent_lab.Schemas.Agent.{
  NeedsClarificationCode, UnsupportedCode, ExtractedIntent, is_extracted, DecisionContext,
  DecisionProposal, TargetToolName,
}
use saas_agent_lab.Agent.ModelRequests.{
  Failure, library, ModelResponse, ToolCallPart, tool_call_part, other_part, responded, returned,
  raised, retry, Wrapped, Parsed, accepted, rejected,
}
use saas_agent_lab.Agent.PydanticAi.IntentPlanner.{parse_output}
use saas_agent_lab.Agent.PydanticAi.IntentPlanner.Loop.{Ends, IsLoop}
use saas_agent_lab.Agent.PydanticAi.IntentPlanner.Accepted.{parse_output-Accepts}
use saas_agent_lab.Agent.PydanticAi.IntentPlanner.Copied.{IsFaithful, response_of}
use saas_agent_lab.Examples.{ascii}
use saas_agent_lab.Agent.PydanticAi.{
  Conversation, outputs, stops, asks, calls_function, Validated, valid, invalid, OutputTool,
  ProposalTool, tool_of_intent, tool_of_proposal, ArgumentModels,
}

abbrev pub if_fits : ExtractedIntent → Validated ExtractedIntent
if_fits intent = if is_extracted intent then valid intent else invalid []

-- An assignment's fields are read from the arguments; the other results are fixed.
abbrev pub ensure_of : Option Json → Option Json → Validated ExtractedIntent
ensure_of (some (text user_email)) (some (text product)) =
    if_fits
      (ExtractedIntent.ensure_assignment (record { user_email = user_email; product = product }))
ensure_of _ _ = invalid []

abbrev pub intent_of : OutputTool → Fields → Validated ExtractedIntent
intent_of OutputTool.ensure_assignment fields =
    ensure_of (get "user_email" fields) (get "product" fields)
intent_of OutputTool.needs_clarification fields =
    valid (ExtractedIntent.needs_clarification NeedsClarificationCode.missing_product)
intent_of OutputTool.unsupported fields =
    valid (ExtractedIntent.unsupported UnsupportedCode.not_a_request)

abbrev pub proposal_of : ProposalTool → Fields → Validated DecisionProposal
proposal_of ProposalTool.goal_reached fields = valid DecisionProposal.goal_reached
proposal_of ProposalTool.no_action_needed fields = valid DecisionProposal.no_action_needed
proposal_of ProposalTool.cannot_proceed fields =
    valid (DecisionProposal.cannot_proceed CannotProceedReason.user_inactive)

same_intent :
    (y x : ExtractedIntent)
    → is_extracted y ≡ true
    → valid y ≡ valid x
    → (tool_of_intent x ≡ tool_of_intent y) × (is_extracted x ≡ true)
same_intent y x fits h = (cc, cc)

not_valid : (x : ExtractedIntent) → invalid [] ≡ valid x → ⊥
not_valid x h = cc

fitted :
    (y x : ExtractedIntent)
    → if_fits y ≡ valid x
    → (tool_of_intent x ≡ tool_of_intent y) × (is_extracted x ≡ true)
fitted y x h = elim (Bool-cases (is_extracted y)) [
  | inl fits ↦ same_intent y x fits (rw fits at h)
  | inr long ↦ absurd (not_valid x (rw long at h))
]

same_proposal :
    (y x : DecisionProposal) → valid y ≡ valid x → tool_of_proposal x ≡ tool_of_proposal y
same_proposal y x h = cc

ensure_is :
    (a b : Option Json) (x : ExtractedIntent)
    → ensure_of a b ≡ valid x
    → (tool_of_intent x ≡ OutputTool.ensure_assignment) × (is_extracted x ≡ true)
ensure_is (some (text a)) (some (text b)) x h =
    fitted (ExtractedIntent.ensure_assignment (record { user_email = a; product = b })) x h
ensure_is _ _ x h = absurd (cc)

pub intent_of_is :
    (tool : OutputTool) (arguments : Fields) (x : ExtractedIntent)
    → intent_of tool arguments ≡ valid x
    → (tool_of_intent x ≡ tool) × (is_extracted x ≡ true)
intent_of_is OutputTool.ensure_assignment arguments x h =
    ensure_is (get "user_email" arguments) (get "product" arguments) x h
intent_of_is OutputTool.needs_clarification arguments x h = same_intent _ x refl h
intent_of_is OutputTool.unsupported arguments x h = same_intent _ x refl h

pub proposal_of_is :
    (tool : ProposalTool) (arguments : Fields) (x : DecisionProposal)
    → proposal_of tool arguments ≡ valid x
    → tool_of_proposal x ≡ tool
proposal_of_is ProposalTool.goal_reached arguments x h = same_proposal _ x h
proposal_of_is ProposalTool.no_action_needed arguments x h = same_proposal _ x h
proposal_of_is ProposalTool.cannot_proceed arguments x h = same_proposal _ x h

abbrev pub models : ArgumentModels
models = record {
  intent = intent_of;
  proposal = proposal_of;
  intent_is = λ tool arguments x h. (intent_of_is tool arguments x h).0;
  intent_fits = λ tool arguments x h. (intent_of_is tool arguments x h).1;
  proposal_is = proposal_of_is;
}

abbrev pub call : String → Fields → ToolCallPart
call name fields = record { tool_name = codes name; args = some fields }

abbrev pub copied_call : ToolCallPart
copied_call = call "ensure_assignment" (
    field "user_email" (text (codes "ada@example.com"))
      (field "product" (text (codes "GitHub")) end))

abbrev pub response : List ToolCallPart → ModelResponse
response [] = record { parts = other_part ∷ []; input_tokens = 9; output_tokens = 3 }
response (c ∷ []) = record {
  parts = other_part ∷ tool_call_part c ∷ [];
  input_tokens = 9;
  output_tokens = 3;
}
response (c ∷ d ∷ _) = record {
  parts = tool_call_part c ∷ tool_call_part d ∷ [];
  input_tokens = 9;
  output_tokens = 3;
}

abbrev pub timed_out : Failure
timed_out =
    library
      (record {
        class_name = "ModelAPIError";
        timeout_error = false;
        model_api_error = true;
        http_status = none;
        unexpected_model_behavior = false;
        user_error = false;
      })
      (record {
        class_name = "APITimeoutError";
        timeout_error = false;
        model_api_error = false;
        http_status = none;
        unexpected_model_behavior = false;
        user_error = false;
      }
        ∷ [])

abbrev pub exhausted : Failure
exhausted =
    library
      (record {
        class_name = "UnexpectedModelBehavior";
        timeout_error = false;
        model_api_error = false;
        http_status = none;
        unexpected_model_behavior = true;
        user_error = false;
      })
      []

abbrev pub concludes : Parsed ExtractedIntent → Conversation ExtractedIntent ⊥
concludes (accepted intent) = outputs intent
concludes (rejected problem) = stops exhausted

abbrev pub goes_on :
    Text → Conversation ExtractedIntent ⊥ → Wrapped → Conversation ExtractedIntent ⊥
goes_on instruction again (raised failure) = stops failure
goes_on instruction again (returned r) = concludes (parse_output ascii models r instruction)
goes_on instruction again (retry problem) = again

-- A model that answers without a tool call until the retries are used up, and then copies the request.
abbrev pub loop : ℕ → Text → Conversation ExtractedIntent ⊥
loop zero instruction =
    asks "test-model" (pos 12) (responded (response (copied_call ∷ [])))
      (goes_on instruction (stops exhausted))
loop (suc n) instruction =
    asks "test-model" (pos 12) (responded (response [])) (goes_on instruction (loop n instruction))

concludes-Ends :
    (instruction : Text) (parsed : Parsed ExtractedIntent)
    → Ends ascii models instruction (concludes parsed)
concludes-Ends instruction (accepted intent) = tt
concludes-Ends instruction (rejected problem) = tt

concludes-IsFaithful :
    (instruction : Text) (r : ModelResponse) (parsed : Parsed ExtractedIntent)
    → parse_output ascii models r instruction ≡ parsed
    → IsFaithful models (some r) (concludes parsed)
concludes-IsFaithful instruction r (accepted intent) h =
    let (call, fields, single, named, args, validated, copied) =
      (parse_output-Accepts ascii models instruction r intent).0 h in
    (call, fields, rw single (inl refl), named, args, validated)
concludes-IsFaithful instruction r (rejected problem) h = tt

goes_on-IsFaithful :
    (instruction : Text) (again : Conversation ExtractedIntent ⊥)
    → IsFaithful models none again
    → (wrapped : Wrapped)
    → IsFaithful models (response_of models wrapped) (goes_on instruction again wrapped)
goes_on-IsFaithful instruction again h (raised failure) = tt
goes_on-IsFaithful instruction again h (returned r) = concludes-IsFaithful instruction r _ refl
goes_on-IsFaithful instruction again h (retry problem) = h

pub loop-IsFaithful : (n : ℕ) (instruction : Text) → IsFaithful models none (loop n instruction)
loop-IsFaithful zero instruction = goes_on-IsFaithful instruction _ tt
loop-IsFaithful (suc n) instruction =
    goes_on-IsFaithful instruction _ (loop-IsFaithful n instruction)

pub loop-IsLoop :
    (n : ℕ) (instruction : Text) → IsLoop ascii models instruction n (loop n instruction)
loop-IsLoop zero instruction = (λ failure. tt, λ r. concludes-Ends instruction _, λ problem. tt)
loop-IsLoop (suc n) instruction =
    (λ failure. tt, λ r. concludes-Ends instruction _, λ problem. loop-IsLoop n instruction)

-- The model reads the user, and concludes.
abbrev pub reads_and_concludes : DecisionContext → Conversation DecisionProposal TargetToolName
reads_and_concludes context =
    asks "test-model" (pos 7) (responded (response (call "get_target_user" end ∷ []))) λ _.
      calls_function TargetToolName.get_target_user λ _.
        asks "test-model" (pos 8) (responded (response (call "no_action_needed" end ∷ [])))
          λ _. outputs DecisionProposal.no_action_needed
