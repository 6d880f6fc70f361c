-- ===== src/Agent/Tools/Rules.antt =====
-- src/app/agent/tools.py: DOMAIN_RULES, what one domain rule's rejection of a tool call means to a run.
use saas_agent_lab.Common.{String, Bool, Option, none, some, List, [], ◌∷◌, str_eq, if◌then◌else◌}
use saas_agent_lab.Errors.{
  Exc, invalid_input, user_not_found, licence_not_found, assignment_already_exists,
  no_seats_available, user_inactive, is_domain_error, type_name, str_of, unexpected_while_running,
}
use saas_agent_lab.Models.Enums.{OutcomeReason, CannotProceedReason}
use saas_agent_lab.Schemas.Agent.{AssignmentRejectionCode, already_assigned, ToolError}

pub record DomainRule : Type 0 where
  pub code : String
  pub shown_as : Option AssignmentRejectionCode
  pub blocks : Option OutcomeReason
  pub claim : Option CannotProceedReason

abbrev pub code_only : String → DomainRule
code_only code = record { code = code; shown_as = none; blocks = none; claim = none }

abbrev pub already_exists_rule : DomainRule
already_exists_rule = record {
  code = "assignment_already_exists";
  shown_as = some already_assigned;
  blocks = none;
  claim = none;
}

abbrev pub no_seats_rule : DomainRule
no_seats_rule = record {
  code = "no_seats_available";
  shown_as = some AssignmentRejectionCode.no_seats_available;
  blocks = some OutcomeReason.no_seats_available;
  claim = some CannotProceedReason.no_seats_available;
}

abbrev pub inactive_rule : DomainRule
inactive_rule = record {
  code = "user_inactive";
  shown_as = some AssignmentRejectionCode.user_inactive;
  blocks = some OutcomeReason.user_inactive;
  claim = some CannotProceedReason.user_inactive;
}

-- DOMAIN_RULES, by the exception's type.
abbrev pub domain_rule : Exc → Option DomainRule
domain_rule (invalid_input _) = some (code_only "invalid_input")
domain_rule (user_not_found _) = some (code_only "user_not_found")
domain_rule (licence_not_found _) = some (code_only "licence_not_found")
domain_rule (assignment_already_exists _ _) = some already_exists_rule
domain_rule (no_seats_available _) = some no_seats_rule
domain_rule (user_inactive _) = some inactive_rule
domain_rule _ = none

-- Its values, in order.
abbrev pub domain_rules : List DomainRule
domain_rules =
    code_only "invalid_input"
    ∷ code_only "user_not_found"
    ∷ code_only "licence_not_found"
    ∷ already_exists_rule
    ∷ no_seats_rule
    ∷ inactive_rule
    ∷ []

abbrev pub with_code : String → List DomainRule → Option DomainRule
with_code code [] = none
with_code code (r ∷ rs) = if str_eq r.code code then some r else with_code code rs

-- `_RULES_BY_CODE.get`.
unfoldable pub rule_by_code : String → Option DomainRule
rule_by_code code = with_code code domain_rules

abbrev pub same_claim : CannotProceedReason → CannotProceedReason → Bool
same_claim CannotProceedReason.no_seats_available CannotProceedReason.no_seats_available = Bool.true
same_claim CannotProceedReason.user_inactive CannotProceedReason.user_inactive = Bool.true
same_claim _ _ = Bool.false

abbrev pub claim_entry :
    CannotProceedReason → Option CannotProceedReason → Option OutcomeReason → Option OutcomeReason
claim_entry reason (some claim) (some blocks) =
    if same_claim claim reason then some blocks else none
claim_entry reason _ _ = none

abbrev pub with_claim : CannotProceedReason → List DomainRule → Option OutcomeReason
with_claim reason [] = none
with_claim reason (r ∷ rs) = elim (claim_entry reason r.claim r.blocks) [
  | some blocks ↦ some blocks
  | none ↦ with_claim reason rs
]

-- BLOCKS_BY_CLAIM.
unfoldable pub blocks_by_claim : CannotProceedReason → Option OutcomeReason
blocks_by_claim reason = with_claim reason domain_rules

abbrev pub code_of : Option DomainRule → String
code_of none = "domain_error"
code_of (some rule) = rule.code

unfoldable pub tool_error : Exc → String → ToolError
tool_error error tool_name =
    if is_domain_error error
    then record {
      code = code_of (domain_rule error);
      message = str_of error;
      error_type = some (type_name error);
    }
    else record {
      code = "unexpected_error";
      message = unexpected_while_running tool_name;
      error_type = some (type_name error);
    }

abbrev pub blocks_of : Option DomainRule → Option OutcomeReason
blocks_of none = none
blocks_of (some rule) = rule.blocks

unfoldable pub blocking_reason : String → Option OutcomeReason
unfolding rule_by_code
blocking_reason error_code = blocks_of (rule_by_code error_code)
