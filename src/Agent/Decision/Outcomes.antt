-- ===== src/Agent/Decision/Outcomes.antt =====
-- src/app/agent/decision.py, `decision_outcome`, against the statuses and reasons of a run.
use saas_agent_lab.Common.{
  String, ◌≡◌, refl, Bool, true, false, Option, none, some, List, [], ◌∷◌, arith, not, ◌&&◌, ◌||◌,
  is_some, inl, inr, Bool-cases,
}
use saas_agent_lab.Models.Enums.{AgentRunStatus, OutcomeReason, CannotProceedReason, is_failed_call}
use saas_agent_lab.Models.{ToolCall}
use saas_agent_lab.Models.Checks.{goes_with}
use saas_agent_lab.Schemas.Agent.{DecisionProposal, cannot_proceed, ToolError}
use saas_agent_lab.Agent.Executor.Decide.{blocking_rejection, reason_for}
use saas_agent_lab.Agent.Decision.{decision_outcome}
use saas_agent_lab.Agent.Tools.Rules.{
  DomainRule, with_code, rule_by_code, blocking_reason, blocks_by_claim, domain_rules, blocks_of,
}
use saas_agent_lab.Session.{ok}

-- The three ways in which a decision can end.
abbrev pub is_conclusion : AgentRunStatus → Bool
is_conclusion AgentRunStatus.completed = true
is_conclusion AgentRunStatus.blocked = true
is_conclusion AgentRunStatus.failed = true
is_conclusion _ = false

abbrev pub is_completed : AgentRunStatus → Bool
is_completed AgentRunStatus.completed = true
is_completed _ = false

-- No rejection, or one whose reason blocks a run.
abbrev pub Blocks : Option OutcomeReason → Type 0
Blocks none = Unit
Blocks (some reason) = goes_with AgentRunStatus.blocked reason ≡ true

abbrev pub is_blocked : AgentRunStatus → Bool
is_blocked AgentRunStatus.blocked = true
is_blocked _ = false

abbrev pub is_goal_satisfied : OutcomeReason → Bool
is_goal_satisfied OutcomeReason.goal_satisfied = true
is_goal_satisfied _ = false

abbrev pub is_claim : DecisionProposal → Bool
is_claim (cannot_proceed reason) = true
is_claim _ = false

-- What an outcome is to be, whatever branch it comes from: an ending that its reason goes with; completed
-- exactly if the goal was verified, with a reason that says whether the run changed something; and
-- blocked exactly if it was not, and the last attempt was rejected or a claim was confirmed.
pub record Concludes (p : DecisionProposal) (satisfied changed : Bool) (rejected confirmed : Bool)
    (outcome : AgentRunStatus × OutcomeReason) : Type 0 where
  pub concluded : is_conclusion outcome.0 ≡ true
  pub fits : goes_with outcome.0 outcome.1 ≡ true
  pub verified : is_completed outcome.0 ≡ satisfied
  pub told : is_goal_satisfied outcome.1 ≡ satisfied && changed
  pub blocked : is_blocked outcome.0 ≡ not satisfied && (rejected || (is_claim p && confirmed))

not_goal_satisfied :
    (reason : OutcomeReason)
    → goes_with AgentRunStatus.blocked reason ≡ true
    → is_goal_satisfied reason ≡ false
not_goal_satisfied OutcomeReason.goal_satisfied h = absurd (cc)
not_goal_satisfied _ h = refl

by_claim-Concludes :
    (p : DecisionProposal) (changed confirmed : Bool)
    → (outcome : AgentRunStatus × OutcomeReason) × (decision_outcome p false changed none confirmed
        ≡ ok outcome)
      × Concludes p false changed false confirmed outcome
unfolding decision_outcome blocks_by_claim
by_claim-Concludes (cannot_proceed CannotProceedReason.no_seats_available) changed true = (
  _,
  refl,
  record { concluded = refl; fits = refl; verified = refl; told = refl; blocked = refl },
)
by_claim-Concludes (cannot_proceed CannotProceedReason.user_inactive) changed true = (
  _,
  refl,
  record { concluded = refl; fits = refl; verified = refl; told = refl; blocked = refl },
)
by_claim-Concludes (cannot_proceed reason) changed false = (
  _,
  refl,
  record { concluded = refl; fits = refl; verified = refl; told = refl; blocked = refl },
)
by_claim-Concludes _ changed _ = (
  _,
  refl,
  record { concluded = refl; fits = refl; verified = refl; told = refl; blocked = refl },
)

-- The same for any rejection whose reason blocks a run.
pub outcome-Concludes :
    (proposal : DecisionProposal) (satisfied changed : Bool) (rejection : Option OutcomeReason)
    (confirmed : Bool)
    → Blocks rejection
    → (outcome : AgentRunStatus × OutcomeReason) × (decision_outcome proposal satisfied changed
          rejection confirmed
        ≡ ok outcome)
      × Concludes proposal satisfied changed (is_some rejection) confirmed outcome
unfolding decision_outcome
outcome-Concludes p true true rejection confirmed h = (
  _,
  refl,
  record { concluded = refl; fits = refl; verified = refl; told = refl; blocked = refl },
)
outcome-Concludes p true false rejection confirmed h = (
  _,
  refl,
  record { concluded = refl; fits = refl; verified = refl; told = refl; blocked = refl },
)
outcome-Concludes p false changed (some reason) confirmed h = (
  _,
  refl,
  record {
    concluded = refl;
    fits = h;
    verified = refl;
    told = not_goal_satisfied reason h;
    blocked = refl;
  },
)
outcome-Concludes p false changed none confirmed h = by_claim-Concludes p changed confirmed

EveryBlocks : List DomainRule → Type 0
EveryBlocks [] = Unit
EveryBlocks (r ∷ rs) = Blocks r.blocks × EveryBlocks rs

with_code-Blocks :
    (code : String) (rs : List DomainRule) → EveryBlocks rs → Blocks (blocks_of (with_code code rs))
unfolding EveryBlocks
with_code-Blocks code [] h = tt
with_code-Blocks code (r ∷ rs) (first, rest) = ground (arith, with_code-Blocks code rs rest)

-- A recorded error code either blocks nothing or names a reason of a blocked run.
pub blocking_reason-Blocks : (code : String) → Blocks (blocking_reason code)
unfolding blocking_reason rule_by_code EveryBlocks
blocking_reason-Blocks code =
    with_code-Blocks code domain_rules (tt, (tt, (tt, (tt, (refl, (refl, tt))))))

reason_for-Blocks : (error : Option ToolError) → Blocks (reason_for error)
reason_for-Blocks none = tt
reason_for-Blocks (some error) = blocking_reason-Blocks error.code

pub blocking_rejection-Blocks :
    (attempted : Option ToolCall) → Blocks (blocking_rejection attempted)
unfolding blocking_rejection
blocking_rejection-Blocks none = tt
blocking_rejection-Blocks (some call) = elim (Bool-cases (is_failed_call call.status)) [
  | inl failed ↦ rw failed (reason_for-Blocks call.error)
  | inr other ↦ rw other tt
]

-- Whatever the model proposed, whatever the run changed, whichever call it last attempted and whatever was
-- confirmed, there is an outcome, without a missing key. Its status is completed, blocked or failed, and
-- its reason goes with it. It is completed exactly if the goal was verified, and then its reason says
-- whether the run changed something. It is blocked exactly if the goal was not verified, and the last
-- attempt was rejected by a rule that blocks or the model's claim was confirmed.
pub decision_outcome-Concludes :
    (proposal : DecisionProposal) (satisfied changed : Bool) (attempted : Option ToolCall)
    (confirmed : Bool)
    → (outcome : AgentRunStatus × OutcomeReason) × (decision_outcome proposal satisfied changed
          (blocking_rejection attempted)
          confirmed
        ≡ ok outcome)
      × Concludes proposal satisfied changed
          (is_some (blocking_rejection attempted))
          confirmed
          outcome
decision_outcome-Concludes proposal satisfied changed attempted confirmed =
    outcome-Concludes proposal satisfied changed (blocking_rejection attempted) confirmed
      (blocking_rejection-Blocks attempted)
