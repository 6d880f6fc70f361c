-- ===== src/Examples/Decoders.antt =====
-- Concrete validators: each accepts what was dumped of a value of its type.
use saas_agent_lab.Common.{
  String, ◌≡◌, refl, Bool, true, false, ◌&&◌, Option, some, List, [], ◌∷◌, map, str_eq,
  if◌then◌else◌,
}
use saas_agent_lab.Text.{Text}
use saas_agent_lab.Errors.{other}
use saas_agent_lab.Json.{Json, Items, Fields, nil, cons, bool, str, text, arr, items, get}
use saas_agent_lab.Models.Enums.{CannotProceedReason, claim_value}
use saas_agent_lab.Schemas.Agent.{
  NeedsClarificationCode, UnsupportedCode, ExtractedIntent, TargetToolName, DecisionProposal,
  clarification_code, unsupported_code, is_extracted_text,
}
use saas_agent_lab.Schemas.AgentRuns.Validation.{
  BlockingReason, blocking_value, tool_value, ModelCallOutput, extraction, tool_calls, proposal,
  dump_output, is_valid_output, Validators,
}
use saas_agent_lab.Session.{Result, ok, raise, and_then}

abbrev pub bad : {A : Type 0} → Result A
bad = raise (other "ValidationError")

-- The first entry with the string.
abbrev pub lookup : {A : Type 0} → (A → String) → List A → String → Result A
lookup value [] s = bad
lookup value (a ∷ rest) s = if str_eq (value a) s then ok a else lookup value rest s

abbrev pub of_str : {A : Type 0} → (String → Result A) → Option Json → Result A
of_str f (some (str s)) = f s
of_str f _ = bad

abbrev pub of_text : Option Json → Result Text
of_text (some (text t)) = if is_extracted_text t then ok t else bad
of_text _ = bad

abbrev pub clarifications : List NeedsClarificationCode
clarifications =
    NeedsClarificationCode.missing_user_email ∷ NeedsClarificationCode.missing_product
    ∷ NeedsClarificationCode.multiple_users ∷ NeedsClarificationCode.multiple_products
    ∷ NeedsClarificationCode.conflicting_request ∷ []

abbrev pub unsupporteds : List UnsupportedCode
unsupporteds =
    UnsupportedCode.unsupported_action ∷ UnsupportedCode.additional_request
    ∷ UnsupportedCode.not_a_request ∷ []

abbrev pub claims : List CannotProceedReason
claims = CannotProceedReason.no_seats_available ∷ CannotProceedReason.user_inactive ∷ []

abbrev pub tools : List TargetToolName
tools =
    TargetToolName.get_target_user ∷ TargetToolName.get_target_licence_capacity
    ∷ TargetToolName.list_target_user_assignments ∷ TargetToolName.assign_target_licence ∷ []

abbrev pub decode_items : Items → Result (List TargetToolName)
decode_items nil = ok []
decode_items (cons (str s) rest) =
    and_then (lookup tool_value tools s)
      λ tool. and_then (decode_items rest) λ more. ok (tool ∷ more)
decode_items (cons _ rest) = bad

abbrev pub decode_names : Option Json → Result ModelCallOutput
decode_names (some (arr names)) = and_then (decode_items names) (λ t. ok (tool_calls t))
decode_names _ = bad

abbrev pub by_kind : Fields → String → Result ModelCallOutput
by_kind fields kind =
    if str_eq kind "ensure_assignment"
    then and_then (of_text (get "user_email" fields)) (λ user_email.
      and_then (of_text (get "product" fields)) λ product. ok (
        extraction (
          ExtractedIntent.ensure_assignment
            (record { user_email = user_email; product = product }))))
    else if str_eq kind "needs_clarification"
    then and_then (of_str (lookup clarification_code clarifications) (get "reason_code" fields))
        (λ code. ok (extraction (ExtractedIntent.needs_clarification code)))
    else if str_eq kind "unsupported"
    then and_then (of_str (lookup unsupported_code unsupporteds) (get "reason_code" fields))
        (λ code. ok (extraction (ExtractedIntent.unsupported code)))
    else if str_eq kind "tool_calls"
    then decode_names (get "tool_names" fields)
    else if str_eq kind "goal_reached"
    then ok (proposal DecisionProposal.goal_reached)
    else if str_eq kind "no_action_needed"
    then ok (proposal DecisionProposal.no_action_needed)
    else if str_eq kind "cannot_proceed"
    then and_then (of_str (lookup claim_value claims) (get "reason_code" fields))
        (λ reason. ok (proposal (DecisionProposal.cannot_proceed reason)))
    else bad

abbrev pub decode : Fields → Result ModelCallOutput
decode fields = of_str (by_kind fields) (get "kind" fields)

decode_tools :
    (names : List TargetToolName)
    → decode_items (items (map (λ name. str (tool_value name)) names)) ≡ ok names
unfolding and_then
decode_tools [] = refl
decode_tools (TargetToolName.get_target_user ∷ names) = rw (decode_tools names) refl
decode_tools (TargetToolName.get_target_licence_capacity ∷ names) = rw (decode_tools names) refl
decode_tools (TargetToolName.list_target_user_assignments ∷ names) = rw (decode_tools names) refl
decode_tools (TargetToolName.assign_target_licence ∷ names) = rw (decode_tools names) refl

both_true : (a b : Bool) → (a && b) ≡ true → (a ≡ true) × (b ≡ true)
both_true true true h = (refl, refl)
both_true true false h = absurd (cc)
both_true false b h = absurd (cc)

pub decode_dump : (o : ModelCallOutput) → is_valid_output o ≡ true → decode (dump_output o) ≡ ok o
unfolding dump_output get and_then
decode_dump (extraction (ExtractedIntent.ensure_assignment asked)) h =
    let (email, product) = both_true (is_extracted_text asked.user_email) _ h in
    rw email (rw product refl)
decode_dump
      (extraction (ExtractedIntent.needs_clarification NeedsClarificationCode.missing_user_email))
      h =
    refl
decode_dump
      (extraction (ExtractedIntent.needs_clarification NeedsClarificationCode.missing_product)) h =
    refl
decode_dump (extraction (ExtractedIntent.needs_clarification NeedsClarificationCode.multiple_users))
      h =
    refl
decode_dump
      (extraction (ExtractedIntent.needs_clarification NeedsClarificationCode.multiple_products))
      h =
    refl
decode_dump
      (extraction (ExtractedIntent.needs_clarification NeedsClarificationCode.conflicting_request))
      h =
    refl
decode_dump (extraction (ExtractedIntent.unsupported UnsupportedCode.unsupported_action)) h = refl
decode_dump (extraction (ExtractedIntent.unsupported UnsupportedCode.additional_request)) h = refl
decode_dump (extraction (ExtractedIntent.unsupported UnsupportedCode.not_a_request)) h = refl
decode_dump (tool_calls names) h = rw (decode_tools names) refl
decode_dump (proposal DecisionProposal.goal_reached) h = refl
decode_dump (proposal DecisionProposal.no_action_needed) h = refl
decode_dump (proposal (DecisionProposal.cannot_proceed CannotProceedReason.no_seats_available)) h =
    refl
decode_dump (proposal (DecisionProposal.cannot_proceed CannotProceedReason.user_inactive)) h = refl

abbrev pub decode_string : Json → Result String
decode_string (str s) = ok s
decode_string _ = bad

abbrev pub decode_bool : Json → Result Bool
decode_bool (bool b) = ok b
decode_bool _ = bad

abbrev pub decode_claim : Json → Result CannotProceedReason
decode_claim (str s) = lookup claim_value claims s
decode_claim _ = bad

abbrev pub decode_blocking : Json → Result BlockingReason
decode_blocking (str s) =
    lookup blocking_value (BlockingReason.no_seats_available ∷ BlockingReason.user_inactive ∷ []) s
decode_blocking _ = bad

pub decode_claim_value :
    (reason : CannotProceedReason) → decode_claim (str (claim_value reason)) ≡ ok reason
decode_claim_value CannotProceedReason.no_seats_available = refl
decode_claim_value CannotProceedReason.user_inactive = refl

pub decode_blocking_value :
    (reason : BlockingReason) → decode_blocking (str (blocking_value reason)) ≡ ok reason
decode_blocking_value BlockingReason.no_seats_available = refl
decode_blocking_value BlockingReason.user_inactive = refl

abbrev pub strict : Validators
strict = record {
  string = decode_string;
  boolean = decode_bool;
  claim = decode_claim;
  blocking_reason = decode_blocking;
  output = decode;
  string_str = λ s. refl;
  boolean_bool = λ b. refl;
  claim_str = decode_claim_value;
  blocking_str = decode_blocking_value;
  output_dump = decode_dump;
}
