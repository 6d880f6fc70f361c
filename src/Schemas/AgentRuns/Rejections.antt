-- ===== src/Schemas/AgentRuns/Rejections.antt =====
-- src/app/schemas/agent_runs.py, `_verification`, of what src/app/agent/executor.py records in
-- `_finish_decision`.
use saas_agent_lab.Common.{
  String, ◌≡◌, refl, subst, List, [], ◌∷◌, Option, none, some, inl, inr, Bool-cases, str_eq,
  str_eq_iff,
}
use saas_agent_lab.Json.{Fields, get}
use saas_agent_lab.Models.{ToolCall}
use saas_agent_lab.Models.Enums.{OutcomeReason, is_failed_call}
use saas_agent_lab.Schemas.Agent.{ToolError, VerificationResult, BlockCheck}
use saas_agent_lab.Schemas.AgentRuns.{BlockCheckRead, verification, read_verified, item}
use saas_agent_lab.Schemas.AgentRuns.Validation.{BlockingReason, Validators, blocking_value}
use saas_agent_lab.Agent.Tools.Rules.{
  DomainRule, domain_rules, with_code, blocks_of, blocking_reason, rule_by_code,
}
use saas_agent_lab.Agent.Executor.Details.{call_detail, verified_detail}
use saas_agent_lab.Agent.Executor.Decide.{blocking_rejection, rejection_detail, reason_for}
use saas_agent_lab.Session.{ok, and_then}

-- The reason of the outcome that a literal of the contract stands for.
abbrev pub reason_of : BlockingReason → OutcomeReason
reason_of BlockingReason.no_seats_available = OutcomeReason.no_seats_available
reason_of BlockingReason.user_inactive = OutcomeReason.user_inactive

-- A code that blocks is one of the two literals.
abbrev Blocks : String → OutcomeReason → Type 0
Blocks code reason =
    (literal : BlockingReason) × (code ≡ blocking_value literal) × (reason ≡ reason_of literal)

IfBlocks : String → Option OutcomeReason → Type 0
IfBlocks code none = Unit
IfBlocks code (some reason) = Blocks code reason

EveryBlocks : List DomainRule → Type 0
EveryBlocks [] = Unit
EveryBlocks (r ∷ rs) = IfBlocks r.code r.blocks × EveryBlocks rs

with_code-Blocks :
    (code : String) (rules : List DomainRule)
    → EveryBlocks rules
    → IfBlocks code (blocks_of (with_code code rules))
unfolding EveryBlocks IfBlocks
with_code-Blocks code [] h = tt
with_code-Blocks code (r ∷ rs) (first, rest) = elim (Bool-cases (str_eq r.code code)) [
  | inl same ↦ rw same (subst (λ c. IfBlocks c r.blocks) ((str_eq_iff r.code code).0 same) first)
  | inr other ↦ rw other (with_code-Blocks code rs rest)
]

blocking_reason-Blocks : (code : String) → IfBlocks code (blocking_reason code)
unfolding blocking_reason rule_by_code EveryBlocks IfBlocks
blocking_reason-Blocks code = with_code-Blocks code domain_rules (
  tt,
  (
    tt,
    (
      tt,
      (
        tt,
        (
          (BlockingReason.no_seats_available, refl, refl),
          ((BlockingReason.user_inactive, refl, refl), tt),
        ),
      ),
    ),
  ),
)

abbrev pub shown_rejection : Option OutcomeReason → Option BlockingReason
shown_rejection (some OutcomeReason.no_seats_available) = some BlockingReason.no_seats_available
shown_rejection (some OutcomeReason.user_inactive) = some BlockingReason.user_inactive
shown_rejection _ = none

abbrev pub shown_check : Option BlockCheck → Option BlockCheckRead
shown_check none = none
shown_check (some check) = some (record { reason = check.reason; confirmed = check.confirmed })

shown-reason_of :
    (literal : BlockingReason) → shown_rejection (some (reason_of literal)) ≡ some literal
shown-reason_of BlockingReason.no_seats_available = refl
shown-reason_of BlockingReason.user_inactive = refl

module _ (v : Validators) (result : VerificationResult) where
  abbrev Shows : Option Fields → Option BlockingReason → Option BlockCheck → Type 0
  Shows rejection literal check =
      verification v (some (verified_detail result rejection check))
      ≡ ok (
          some (record {
            satisfied = result.satisfied;
            blocking_rejection = literal;
            block_check = shown_check check;
          }))

  unblocked : (check : Option BlockCheck) → Shows none none check
  unfolding verification read_verified verified_detail get item and_then
  unblocked none = refl
  unblocked (some check) = rw (v.claim_str check.reason) (rw (v.boolean_bool check.confirmed) refl)

  blocked :
      (call : ToolCall) (error : ToolError) (literal : BlockingReason) (check : Option BlockCheck)
      → call.error ≡ some error
      → error.code ≡ blocking_value literal
      → Shows (some (call_detail call)) (some literal) check
  unfolding verification read_verified verified_detail call_detail get item and_then
  blocked call error literal none h k = rw h (rw k (rw (v.blocking_str literal) refl))
  blocked call error literal (some check) h k = rw h (
      rw k (
        rw (v.claim_str check.reason)
          (rw (v.boolean_bool check.confirmed) (rw (v.blocking_str literal) refl))))

  abbrev ShowsAttempt : Option OutcomeReason → Option ToolCall → Option BlockCheck → Type 0
  ShowsAttempt rejection attempted check =
      Shows (rejection_detail rejection attempted) (shown_rejection rejection) check

  by_code :
      (call : ToolCall) (error : ToolError) (check : Option BlockCheck) (rejection : _)
      → call.error ≡ some error
      → IfBlocks error.code rejection
      → ShowsAttempt rejection (some call) check
  unfolding IfBlocks
  by_code call error check none h k = unblocked check
  by_code call error check (some reason) h (literal, same, is_reason) =
      rw is_reason (rw (shown-reason_of literal) (blocked call error literal check h same))

  by_error :
      (call : ToolCall) (error : Option ToolError) (check : Option BlockCheck)
      → call.error ≡ error
      → ShowsAttempt (reason_for error) (some call) check
  by_error call none check h = unblocked check
  by_error call (some error) check h =
      by_code call error check (blocking_reason error.code) h (blocking_reason-Blocks error.code)

  -- What `_verification` shows of a run is what the executor recorded when it verified the run: whether
  -- the goal held, the reason of the rejection if its latest attempt was rejected by a rule that blocks
  -- a run, and the claim as it was checked; whatever the evidence, the attempted call and the rows read
  -- for the claim are.
  pub verification-recorded :
      (attempted : Option ToolCall) (check : Option BlockCheck)
      → verification v (
          some (
            verified_detail result
              (rejection_detail (blocking_rejection attempted) attempted)
              check))
        ≡ ok (
            some (record {
              satisfied = result.satisfied;
              blocking_rejection = shown_rejection (blocking_rejection attempted);
              block_check = shown_check check;
            }))
  unfolding blocking_rejection
  verification-recorded none check = unblocked check
  verification-recorded (some call) check = elim (Bool-cases (is_failed_call call.status)) [
    | inl failed ↦ rw failed (by_error call call.error check refl)
    | inr other ↦ rw other (unblocked check)
  ]
