-- ===== src/Schemas/AgentRuns/Recorded.antt =====
-- src/app/schemas/agent_runs.py, `_outcome_code` and `_verification`, of the details that
-- src/app/agent/executor.py records when it ends a run.
use saas_agent_lab.Common.{String, ◌≡◌, refl, Option, none, some}
use saas_agent_lab.Json.{Fields, str, get}
use saas_agent_lab.Models.{ToolCall}
use saas_agent_lab.Models.Enums.{OutcomeReason}
use saas_agent_lab.Schemas.Agent.{VerificationResult, BlockCheck}
use saas_agent_lab.Schemas.AgentRuns.{
  VerificationRead, outcome_code, outcome_code_key, verification, validated_code, key_of, value_at,
}
use saas_agent_lab.Schemas.AgentRuns.Validation.{Validators}
use saas_agent_lab.Schemas.AgentRuns.Rejections.{verification-recorded}
use saas_agent_lab.Agent.Executor.Details.{verified_detail}
use saas_agent_lab.Agent.Executor.Decide.{blocking_rejection, rejection_detail}
use saas_agent_lab.Session.{ok, and_then}

-- A reason with a detail that can be shown: none yet; one without a code and without a verification;
-- one with the code that its reason has; and one of a run that was verified.
pub data Recorded (reason : Option OutcomeReason) : Option Fields → Type 0 where
  unrecorded : Recorded reason none
  plain :
      (detail : Fields)
      → key_of reason ≡ none
      → get "satisfied" detail ≡ none
      → Recorded reason (some detail)
  coded :
      (detail : Fields) (key code : String)
      → key_of reason ≡ some key
      → get key detail ≡ some (str code)
      → get "satisfied" detail ≡ none
      → Recorded reason (some detail)
  verified :
      (result : VerificationResult) (attempted : Option ToolCall) (check : Option BlockCheck)
      → key_of reason ≡ none
      → Recorded reason (
          some (
            verified_detail result
              (rejection_detail (blocking_rejection attempted) attempted)
              check))

no_detail : (key : Option String) → value_at key none ≡ none
no_detail none = refl
no_detail (some key) = refl

module _ (v : Validators) where
  -- The code and the verification of such a detail pass validation.
  pub code-Recorded :
      (reason : Option OutcomeReason) (detail : Option Fields)
      → Recorded reason detail
      → (code : Option String) × (validated_code v (outcome_code reason detail) ≡ ok code)
  unfolding outcome_code and_then
  code-Recorded none detail h = (none, refl)
  code-Recorded (some reason) none h = (none, rw (no_detail (outcome_code_key reason)) refl)
  code-Recorded (some reason) (some detail) (plain _ k _) = (none, rw k refl)
  code-Recorded (some reason) (some detail) (coded _ key code k found _) =
      (some code, rw k (rw found (rw (v.string_str code) refl)))
  code-Recorded (some reason) (some _) (verified result attempted check k) = (none, rw k refl)

  pub verification-Recorded :
      (reason : Option OutcomeReason) (detail : Option Fields)
      → Recorded reason detail
      → (read : Option VerificationRead) × (verification v detail ≡ ok read)
  unfolding verification
  verification-Recorded reason none h = (none, refl)
  verification-Recorded reason (some detail) (plain _ _ k) = (none, rw k refl)
  verification-Recorded reason (some detail) (coded _ key code _ _ k) = (none, rw k refl)
  verification-Recorded reason (some _) (verified result attempted check _) =
      (_, verification-recorded v result attempted check)
