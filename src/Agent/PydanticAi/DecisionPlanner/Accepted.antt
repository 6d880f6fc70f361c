-- ===== src/Agent/PydanticAi/DecisionPlanner/Accepted.antt =====
-- src/app/agent/pydantic_ai_decision.py, `parse_decision`: which responses it accepts.
use saas_agent_lab.Common.{
  ◌≡◌, ◌↔◌, arith, refl, subst, false, Option, none, some, inl, inr, List, [], ◌∷◌, any, Bool-cases,
  list_eq, list_eq_sound,
}
use saas_agent_lab.Text.{Text, codes}
use saas_agent_lab.Json.{Fields, end, field}
use saas_agent_lab.Schemas.Agent.{TargetToolName}
use saas_agent_lab.Schemas.AgentRuns.Validation.{ModelCallOutput, extraction, tool_calls, proposal}
use saas_agent_lab.Agent.ModelRequests.{
  ToolCallPart, ModelResponse, tool_call_parts, Parsed, accepted, rejected,
}
use saas_agent_lab.Agent.PydanticAi.{Validated, valid, invalid, ProposalTool, ArgumentModels}
use saas_agent_lab.Agent.PydanticAi.DecisionPlanner.{
  proposal_tool, target_tool, arguments, requested, tool_requests, as_tool_calls, is_proposal_call,
  if_valid, conclusion, alone, parse_calls, parse_decision,
}

-- Each call names a tool, in order, and has no arguments.
abbrev pub Requests : List ToolCallPart → List TargetToolName → Type 0
Requests [] [] = Unit
Requests (call ∷ rest) (tool ∷ tools) =
    (target_tool call.tool_name ≡ some tool) × (call.args ≡ some end) × Requests rest tools
Requests _ _ = ⊥

module _ (models : ArgumentModels) where
  -- The responses that are accepted, by their tool calls, and as what.
  abbrev pub Accepts : List ToolCallPart → ModelCallOutput → Type 0
  Accepts parts (proposal p) =
      (call : ToolCallPart) × (tool : ProposalTool) × (fields : Fields) × (parts ≡ call ∷ [])
      × (proposal_tool call.tool_name ≡ some tool)
      × (call.args ≡ some fields)
      × (models.proposal tool fields ≡ valid p)
  Accepts parts (tool_calls []) = ⊥
  Accepts parts (tool_calls (tool ∷ tools)) = Requests parts (tool ∷ tools)
  Accepts parts (extraction intent) = ⊥

IfRequests : List ToolCallPart → Parsed (List TargetToolName) → Type 0
IfRequests parts (accepted tools) = Requests parts tools
IfRequests parts (rejected problem) = Unit

one_more :
    (call : ToolCallPart) (rest : List ToolCallPart) (tool : Option TargetToolName)
    (args : Option Fields) (parsed : Parsed (List TargetToolName))
    → target_tool call.tool_name ≡ tool
    → call.args ≡ args
    → IfRequests rest parsed
    → IfRequests (call ∷ rest) (requested call tool parsed)
unfolding IfRequests
one_more call rest none args parsed h k more = tt
one_more call rest (some tool) none parsed h k more = rw k tt
one_more call rest (some tool) (some (field _ _ _)) parsed h k more = rw k tt
one_more call rest (some tool) (some end) (rejected problem) h k more = rw k tt
one_more call rest (some tool) (some end) (accepted tools) h k more = rw k (h, refl, more)

requests_sound : (parts : List ToolCallPart) → IfRequests parts (tool_requests parts)
unfolding IfRequests
requests_sound [] = tt
requests_sound (call ∷ rest) =
    one_more call rest (target_tool call.tool_name) call.args (tool_requests rest) refl refl
      (requests_sound rest)

Requests-complete :
    (parts : List ToolCallPart) (tools : List TargetToolName)
    → Requests parts tools
    → tool_requests parts ≡ accepted tools
Requests-complete [] [] h = refl
Requests-complete [] (tool ∷ tools) h = elim h [ ]
Requests-complete (call ∷ rest) [] h = elim h [ ]
Requests-complete (call ∷ rest) (tool ∷ tools) (named, bare, more) =
    rw named (rw bare (rw (Requests-complete rest tools more) refl))

-- No tool is both a target tool and a conclusion.
not_both :
    (name : Text) (tool : TargetToolName) → target_tool name ≡ some tool → proposal_tool name ≡ none
not_both name tool h = elim (Bool-cases (list_eq name (codes "get_target_user"))) [
  | inl user ↦ rw (list_eq_sound name _ user) refl
  | inr n1 ↦ elim (Bool-cases (list_eq name (codes "get_target_licence_capacity"))) [
    | inl seats ↦ rw (list_eq_sound name _ seats) refl
    | inr n2 ↦ elim (Bool-cases (list_eq name (codes "list_target_user_assignments"))) [
      | inl held ↦ rw (list_eq_sound name _ held) refl
      | inr n3 ↦ elim (Bool-cases (list_eq name (codes "assign_target_licence"))) [
        | inl assigns ↦ rw (list_eq_sound name _ assigns) refl
        | inr n4 ↦ absurd (ground arith)
      ]
    ]
  ]
]

not_conclusions :
    (parts : List ToolCallPart) (tools : List TargetToolName)
    → Requests parts tools
    → any is_proposal_call parts ≡ false
not_conclusions [] tools h = refl
not_conclusions (call ∷ rest) [] h = elim h [ ]
not_conclusions (call ∷ rest) (tool ∷ tools) (named, bare, more) =
    rw (not_both call.tool_name tool named) (not_conclusions rest tools more)

module _ (models : ArgumentModels) where
  abbrev IfAccepts : List ToolCallPart → Parsed ModelCallOutput → Type 0
  IfAccepts parts (accepted output) = Accepts models parts output
  IfAccepts parts (rejected problem) = Unit

  several :
      (call : ToolCallPart) (rest : List ToolCallPart) (parsed : Parsed (List TargetToolName))
      → IfRequests (call ∷ rest) parsed
      → IfAccepts (call ∷ rest) (as_tool_calls parsed)
  unfolding IfRequests
  several call rest (rejected problem) h = tt
  several call rest (accepted []) h = elim h [ ]
  several call rest (accepted (tool ∷ tools)) h = h

  concluded :
      (call : ToolCallPart) (tool : ProposalTool) (args : Option Fields)
      → proposal_tool call.tool_name ≡ some tool
      → call.args ≡ args
      → IfAccepts (call ∷ []) (conclusion models tool (arguments call args))
  concluded call tool none h k = tt
  concluded call tool (some fields) h k = by_model (models.proposal tool fields) refl
    where
      by_model :
          (x : Validated _)
          → models.proposal tool fields ≡ x
          → IfAccepts (call ∷ []) (if_valid models x)
      by_model (valid p) e = (call, tool, fields, refl, h, k, e)
      by_model (invalid errors) e = tt

  by_proposal :
      (call : ToolCallPart) (tool : Option ProposalTool)
      → proposal_tool call.tool_name ≡ tool
      → IfAccepts (call ∷ []) (alone models call tool)
  by_proposal call (some tool) h = concluded call tool call.args h refl
  by_proposal call none h = several call [] _ (requests_sound (call ∷ []))

  calls_sound : (parts : List ToolCallPart) → IfAccepts parts (parse_calls models parts)
  calls_sound [] = tt
  calls_sound (call ∷ []) = by_proposal call (proposal_tool call.tool_name) refl
  calls_sound (call ∷ next ∷ rest) = elim (Bool-cases (any is_proposal_call (call ∷ next ∷ rest))) [
    | inl some_conclusion ↦ rw some_conclusion tt
    | inr none_concludes ↦
        rw none_concludes (several call (next ∷ rest) _ (requests_sound (call ∷ next ∷ rest)))
  ]

  calls_complete :
      (parts : List ToolCallPart) (output : ModelCallOutput)
      → Accepts models parts output
      → parse_calls models parts ≡ accepted output
  calls_complete parts (proposal p) (call, tool, fields, single, named, args, validated) =
      rw single (rw named (rw args (rw validated refl)))
  calls_complete parts (tool_calls []) h = elim h [ ]
  calls_complete parts (extraction intent) h = elim h [ ]
  calls_complete [] (tool_calls (tool ∷ tools)) h = elim h [ ]
  calls_complete (call ∷ []) (tool_calls (tool ∷ tools)) h =
      rw (not_both call.tool_name tool h.0)
        (rw (Requests-complete (call ∷ []) (tool ∷ tools) h) refl)
  calls_complete (call ∷ next ∷ rest) (tool_calls (tool ∷ tools)) h =
      rw (not_conclusions (call ∷ next ∷ rest) (tool ∷ tools) h)
        (rw (Requests-complete (call ∷ next ∷ rest) (tool ∷ tools) h) refl)

  -- A response is accepted as a proposal exactly if it has one tool call, which names that conclusion's
  -- tool and whose arguments validate; and as a request for tools exactly if it has calls, each names one
  -- of the four tools, in that order, and none has an argument. Nothing else is accepted.
  pub parse_decision-Accepts :
      (response : ModelResponse) (output : ModelCallOutput)
      → (parse_decision models response ≡ accepted output)
        ↔ Accepts models (tool_call_parts response.parts) output
  unfolding parse_decision
  parse_decision-Accepts response output = (
    λ h.
        subst (λ x. IfAccepts (tool_call_parts response.parts) x) h
          (calls_sound (tool_call_parts response.parts)),
    calls_complete (tool_call_parts response.parts) output,
  )
