-- ===== src/Agent/Decision.antt =====
-- src/app/agent/decision.py: the decision stage's limits, what the model is told, and how a run's
-- outcome follows from verification.
pub mod Prompt
pub mod Outcomes
use saas_agent_lab.Common.{ℕ, String, Bool, true, false, Option, none, some, if◌then◌else◌}
use saas_agent_lab.Errors.{other}
use saas_agent_lab.Models.Enums.{AgentRunStatus, OutcomeReason}
use saas_agent_lab.Schemas.Agent.{DecisionProposal, cannot_proceed}
use saas_agent_lab.Agent.Tools.Rules.{blocks_by_claim}
use saas_agent_lab.Session.{Result, ok, raise}

abbrev pub max_decision_model_requests : ℕ
max_decision_model_requests = 6

abbrev pub max_decision_read_calls : ℕ
max_decision_read_calls = 6

abbrev pub max_decision_mutation_calls : ℕ
max_decision_mutation_calls = 1

pub data DecisionLimit : Type 0 where
  model_requests read_calls mutation_calls : DecisionLimit

abbrev pub limit_value : DecisionLimit → String
limit_value model_requests = "model_requests"
limit_value read_calls = "read_calls"
limit_value mutation_calls = "mutation_calls"

-- `BLOCKS_BY_CLAIM[reason]` of a confirmed claim; a missing key would be an error.
abbrev pub claimed : Option OutcomeReason → Result (AgentRunStatus × OutcomeReason)
claimed none = raise (other "KeyError")
claimed (some reason) = ok (AgentRunStatus.blocked, reason)

abbrev pub by_claim : DecisionProposal → Bool → Result (AgentRunStatus × OutcomeReason)
by_claim (cannot_proceed reason) true = claimed (blocks_by_claim reason)
by_claim _ _ = ok (AgentRunStatus.failed, OutcomeReason.verification_failed)

abbrev pub by_rejection :
    DecisionProposal → Option OutcomeReason → Bool → Result (AgentRunStatus × OutcomeReason)
by_rejection proposal (some reason) claim_confirmed = ok (AgentRunStatus.blocked, reason)
by_rejection proposal none claim_confirmed = by_claim proposal claim_confirmed

-- The proposal, then `satisfied`, `changed`, `rejection` and `claim_confirmed`.
unfoldable pub decision_outcome :
    DecisionProposal
    → Bool
    → Bool
    → Option OutcomeReason
    → Bool
    → Result (AgentRunStatus × OutcomeReason)
unfolding blocks_by_claim
decision_outcome proposal satisfied changed rejection claim_confirmed =
    if satisfied
    then ok (
      AgentRunStatus.completed,
      if changed then OutcomeReason.goal_satisfied else OutcomeReason.already_satisfied,
    )
    else by_rejection proposal rejection claim_confirmed
