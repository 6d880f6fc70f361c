-- ===== src/Agent/PydanticAi/IntentPlanner/Accepted.antt =====
-- src/app/agent/pydantic_ai_planner.py, `parse_output`: which responses it accepts.
use saas_agent_lab.Common.{◌≡◌, ◌↔◌, refl, subst, String, Option, none, some, List, [], ◌∷◌}
use saas_agent_lab.Text.{Text, Unicode}
use saas_agent_lab.Json.{Fields}
use saas_agent_lab.Schemas.Agent.{EnsureAssignmentIntent, ExtractedIntent}
use saas_agent_lab.Agent.Planner.{ungrounded_fields}
use saas_agent_lab.Agent.ModelRequests.{
  ToolCallPart, ModelResponse, tool_call_parts, Parsed, accepted, rejected,
}
use saas_agent_lab.Agent.PydanticAi.{
  Validated, valid, invalid, OutputTool, tool_of_intent, ArgumentModels,
}
use saas_agent_lab.Agent.PydanticAi.IntentPlanner.{
  output_tool, grounded, if_copied, if_valid, with_arguments, by_tool, one_result, parse_output,
}

module _ (u : Unicode) (models : ArgumentModels) (instruction : Text) where
  -- An assignment's texts are copied from the instruction.
  abbrev pub IsCopied : ExtractedIntent → Type 0
  IsCopied (ExtractedIntent.ensure_assignment asked) = ungrounded_fields u asked instruction ≡ []
  IsCopied _ = Unit

  -- The responses that are accepted, by their tool calls, and as what.
  abbrev pub Accepts : List ToolCallPart → ExtractedIntent → Type 0
  Accepts parts intent =
      (call : ToolCallPart) × (fields : Fields) × (parts ≡ call ∷ [])
      × (output_tool call.tool_name ≡ some (tool_of_intent intent))
      × (call.args ≡ some fields)
      × (models.intent (tool_of_intent intent) fields ≡ valid intent)
      × IsCopied intent

  abbrev IfAccepts : List ToolCallPart → Parsed ExtractedIntent → Type 0
  IfAccepts parts (accepted intent) = Accepts parts intent
  IfAccepts parts (rejected problem) = Unit

  module _ (call : ToolCallPart) (fields : Fields) (args : call.args ≡ some fields) where
    copied :
        (asked : EnsureAssignmentIntent) (missing : List String)
        → ungrounded_fields u asked instruction ≡ missing
        → output_tool call.tool_name ≡ some OutputTool.ensure_assignment
        → models.intent OutputTool.ensure_assignment fields
          ≡ valid (ExtractedIntent.ensure_assignment asked)
        → IfAccepts (call ∷ []) (if_copied u models asked missing)
    copied asked [] h named validated = (call, fields, refl, named, args, validated, h)
    copied asked (name ∷ names) h named validated = tt

    sound_intent :
        (intent : ExtractedIntent)
        → output_tool call.tool_name ≡ some (tool_of_intent intent)
        → models.intent (tool_of_intent intent) fields ≡ valid intent
        → IfAccepts (call ∷ []) (grounded u models instruction intent)
    sound_intent (ExtractedIntent.ensure_assignment asked) named validated =
        copied asked (ungrounded_fields u asked instruction) refl named validated
    sound_intent (ExtractedIntent.needs_clarification code) named validated =
        (call, fields, refl, named, args, validated, tt)
    sound_intent (ExtractedIntent.unsupported code) named validated =
        (call, fields, refl, named, args, validated, tt)

    sound_valid :
        (tool : OutputTool) (x : Validated ExtractedIntent)
        → output_tool call.tool_name ≡ some tool
        → models.intent tool fields ≡ x
        → IfAccepts (call ∷ []) (if_valid u models instruction x)
    sound_valid tool (invalid errors) named validated = tt
    sound_valid tool (valid intent) named validated =
        let same = models.intent_is tool fields intent validated in
        sound_intent intent (rw same named) (rw same validated)

  sound_arguments :
      (call : ToolCallPart) (tool : OutputTool) (args : Option Fields)
      → output_tool call.tool_name ≡ some tool
      → call.args ≡ args
      → IfAccepts (call ∷ []) (with_arguments u models instruction tool args)
  sound_arguments call tool none named h = tt
  sound_arguments call tool (some fields) named h =
      sound_valid call fields h tool (models.intent tool fields) named refl

  sound_tool :
      (call : ToolCallPart) (tool : Option OutputTool)
      → output_tool call.tool_name ≡ tool
      → IfAccepts (call ∷ []) (by_tool u models instruction call tool)
  sound_tool call none h = tt
  sound_tool call (some tool) h = sound_arguments call tool call.args h refl

  sound_calls :
      (parts : List ToolCallPart) → IfAccepts parts (one_result u models instruction parts)
  sound_calls [] = tt
  sound_calls (call ∷ []) = sound_tool call (output_tool call.tool_name) refl
  sound_calls (call ∷ next ∷ rest) = tt

  complete_intent :
      (intent : ExtractedIntent)
      → IsCopied intent
      → grounded u models instruction intent ≡ accepted intent
  complete_intent (ExtractedIntent.ensure_assignment asked) h = rw h refl
  complete_intent (ExtractedIntent.needs_clarification code) h = refl
  complete_intent (ExtractedIntent.unsupported code) h = refl

  complete_calls :
      (parts : List ToolCallPart) (intent : ExtractedIntent)
      → Accepts parts intent
      → one_result u models instruction parts ≡ accepted intent
  complete_calls parts intent (call, fields, single, named, args, validated, h) =
      rw single (rw named (rw args (rw validated (complete_intent intent h))))

  -- A response is accepted exactly if it has one tool call, to a result tool, whose arguments validate as
  -- that tool's result and, if it is an assignment, have nothing but what is copied from the instruction.
  pub parse_output-Accepts :
      (response : ModelResponse) (intent : ExtractedIntent)
      → (parse_output u models response instruction ≡ accepted intent)
        ↔ Accepts (tool_call_parts response.parts) intent
  unfolding parse_output
  parse_output-Accepts response intent = (
    λ h.
        subst (λ x. IfAccepts (tool_call_parts response.parts) x) h
          (sound_calls (tool_call_parts response.parts)),
    complete_calls (tool_call_parts response.parts) intent,
  )
