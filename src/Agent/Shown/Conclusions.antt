-- ===== src/Agent/Shown/Conclusions.antt =====
-- src/app/agent/executor.py, `resolve_run` and `_finish_decision`, and what src/app/schemas/agent_runs.py can
-- show of the details that they record.
use saas_agent_lab.Common.{
  ℕ, ◌≡◌, refl, sym, subst, arith, Option, none, some, Bool, true, false, List, [], ◌∷◌,
}
use saas_agent_lab.Text.{Text, Unicode}
use saas_agent_lab.Errors.{Exc, invalid_input}
use saas_agent_lab.Json.{get}
use saas_agent_lab.Models.{AgentRun, User, Licence}
use saas_agent_lab.Models.Checks.{goes_with}
use saas_agent_lab.Models.Enums.{AgentRunStatus, OutcomeReason, CannotProceedReason}
use saas_agent_lab.Repositories.ToolCalls
use saas_agent_lab.Schemas.Agent.{DecisionProposal, cannot_proceed}
use saas_agent_lab.Schemas.AgentRuns.{outcome_code_key}
use saas_agent_lab.Schemas.AgentRuns.Recorded.{Recorded, plain, verified}
use saas_agent_lab.Agent.Resolver.{
  Resolution, goal, failure, choose, rejected_input, resolve_assignment_goal,
}
use saas_agent_lab.Agent.Decision.{decision_outcome, by_claim}
use saas_agent_lab.Agent.Executor.Runs.{get_run, end_run, current_status}
use saas_agent_lab.Agent.Executor.Details.{verified_detail}
use saas_agent_lab.Agent.Decision.Outcomes.{Blocks, blocking_rejection-Blocks}
use saas_agent_lab.Agent.Tools.Rules.{blocks_by_claim}
use saas_agent_lab.Agent.Executor.Resolution.{record_resolution, after_resolver, resolve_run}
use saas_agent_lab.Agent.Executor.Decide.{
  record_proposal, Concluded, Verified, end_verified, after_verification, finish_decision,
  blocking_rejection, rejection_detail,
}
use saas_agent_lab.Agent.History.Conclusions.{ok_eq}
use saas_agent_lab.Agent.History.Rereads.{Always}
use saas_agent_lab.Agent.Reads.{resolve-Respects, verify_proposal-Respects}
use saas_agent_lab.Agent.Shown.{StaysShown, StaysShown-preorder, writes, end_run-Shown}
use saas_agent_lab.Agent.Shown.Endings.{fail-Shown}
use saas_agent_lab.Session.{Result, ok, raise, pure, raise_error, ◌>>=◌, ◌>>◌, attempt, transaction}
use saas_agent_lab.Session.Respects.{Respects, Respects-lift_known}
use saas_agent_lab.Session.Triples.{
  Ensures, ensures-bind, ensures-try_catch, ensures-all, Respects-attempt_known,
}

-- A failure to resolve has no code and no verification.
abbrev IsPlain : Resolution → Type 0
IsPlain (goal g) = Unit
IsPlain (failure f) = (outcome_code_key f.code ≡ none) × (get "satisfied" f.detail ≡ none)

choose-IsPlain : (e p : Text) (o : Option User) (ls : List Licence) → IsPlain (choose e p o ls)
unfolding choose get
choose-IsPlain e p none ls = (refl, refl)
choose-IsPlain e p (some user) [] = (refl, refl)
choose-IsPlain e p (some user) (l ∷ []) = tt
choose-IsPlain e p (some user) (l ∷ m ∷ ls) = (refl, refl)

rejected-IsPlain : (e : Exc) → Ensures Always (rejected_input e) (λ x _. IsPlain x)
unfolding rejected_input pure raise_error get
rejected-IsPlain (invalid_input problem) = record { at = λ w h. (refl, refl) }
rejected-IsPlain _ = record { at = λ w h. tt }

found-IsPlain :
    (e p : Text) (o : Option User) (ls : List Licence)
    → Ensures Always (pure (choose e p o ls)) (λ x _. IsPlain x)
unfolding pure
found-IsPlain e p o ls = record { at = λ w h. choose-IsPlain e p o ls }

resolve-IsPlain :
    (u : Unicode) (e p : Text) → Ensures Always (resolve_assignment_goal u e p) (λ x _. IsPlain x)
unfolding resolve_assignment_goal
resolve-IsPlain u e p =
    ensures-try_catch Always _ rejected_input (λ x _. IsPlain x)
      (ensures-bind Always _ _ (λ _ _. Unit) (λ x _. IsPlain x) (ensures-all Always _ _ (λ a d. tt))
        λ user.
          ensures-bind Always _ _ (λ _ _. Unit) (λ x _. IsPlain x)
            (ensures-all Always _ _ (λ a d. tt)) λ ls. found-IsPlain e p user ls)
      rejected-IsPlain

record_resolution-Shown :
    (r : AgentRun) (x : Resolution) → IsPlain x → Respects StaysShown (record_resolution r x)
unfolding record_resolution
record_resolution-Shown r (failure f) (k, s) = end_run-Shown r _ _ _ (plain f.detail k s)
record_resolution-Shown r (goal g) h = search writes

resolved-Shown :
    (id : ℕ) (x : Resolution) → IsPlain x → Respects StaysShown (after_resolver id (ok x))
unfolding after_resolver
resolved-Shown id x h = search (writes, record_resolution-Shown, h) depth 10

unresolved-Shown : (id : ℕ) (e : Exc) → Respects StaysShown (after_resolver id (raise e))
unfolding after_resolver
unresolved-Shown id e = fail-Shown id "resolution" e

after_resolver-Shown :
    (u : Unicode) (id : ℕ) (e p : Text)
    → Respects StaysShown (attempt (resolve_assignment_goal u e p) >>= after_resolver id)
after_resolver-Shown u id e p =
    Respects-attempt_known StaysShown-preorder IsPlain _ _
      (resolve-Respects StaysShown-preorder u e p) (resolve-IsPlain u e p) (unresolved-Shown id)
      (resolved-Shown id)

pub resolve_run-Shown : (u : Unicode) (id : ℕ) → Respects StaysShown (resolve_run u id)
unfolding resolve_run
resolve_run-Shown u id = search (writes, after_resolver-Shown) depth 16

-- No reason that a decision ends with has a code.
abbrev Outcome : Type 0
Outcome = AgentRunStatus × OutcomeReason

same_reason :
    (x outcome : Outcome)
    → ok x ≡ ok outcome
    → outcome_code_key x.1 ≡ none
    → outcome_code_key outcome.1 ≡ none
same_reason x outcome e h =
    subst (λ (o : Outcome). outcome_code_key o.1 ≡ none) (sym (ok_eq x outcome e)) h

blocked_reason :
    (reason : OutcomeReason)
    → goes_with AgentRunStatus.blocked reason ≡ true
    → outcome_code_key reason ≡ none
blocked_reason reason h = ground arith

plain_claim :
    (p : DecisionProposal) (confirmed : Bool) (outcome : Outcome)
    → by_claim p confirmed ≡ ok outcome
    → outcome_code_key outcome.1 ≡ none
unfolding blocks_by_claim
plain_claim (cannot_proceed CannotProceedReason.no_seats_available) true outcome e =
    same_reason _ outcome e refl
plain_claim (cannot_proceed CannotProceedReason.user_inactive) true outcome e =
    same_reason _ outcome e refl
plain_claim _ _ outcome e = same_reason _ outcome e refl

plain_outcome :
    (p : DecisionProposal) (satisfied changed : Bool) (rejection : Option OutcomeReason)
    (confirmed : Bool) (outcome : Outcome)
    → Blocks rejection
    → decision_outcome p satisfied changed rejection confirmed ≡ ok outcome
    → outcome_code_key outcome.1 ≡ none
unfolding decision_outcome
plain_outcome p true true rejection confirmed outcome h e = same_reason _ outcome e refl
plain_outcome p true false rejection confirmed outcome h e = same_reason _ outcome e refl
plain_outcome p false changed (some reason) confirmed outcome h e =
    same_reason _ outcome e (blocked_reason reason h)
plain_outcome p false changed none confirmed outcome h e = plain_claim p confirmed outcome e

ended-Shown :
    (id : ℕ) (c : Concluded) (v : Verified) (outcome : Outcome)
    → outcome_code_key outcome.1 ≡ none
    → Respects StaysShown (
        transaction (do
          run ← get_run id
          end_run run outcome.0 outcome.1 (
              some (
                verified_detail v.0
                  (rejection_detail (blocking_rejection c.attempted) c.attempted)
                  v.1))
          current_status id))
ended-Shown id c v outcome h =
    let shown : Recorded (some outcome.1) _ = verified v.0 c.attempted v.1 h in
    search (writes, shown) depth 12

end_verified-Shown :
    (id : ℕ) (p : DecisionProposal) (c : Concluded) (v : Verified)
    → Respects StaysShown (end_verified id p c v)
unfolding end_verified
end_verified-Shown id p c (result, checked) =
    Respects-lift_known StaysShown-preorder _ _ λ outcome e.
      ended-Shown id c (result, checked) outcome
        (plain_outcome p result.satisfied c.changed _ _ outcome
          (blocking_rejection-Blocks c.attempted) e)

after_verification-Shown :
    (id : ℕ) (p : DecisionProposal) (c : Concluded) (r : Result Verified)
    → Respects StaysShown (after_verification id p c r)
unfolding after_verification
after_verification-Shown id p c (ok v) = end_verified-Shown id p c v
after_verification-Shown id p c (raise e) = fail-Shown id "verification" e

record_proposal-Shown : (id : ℕ) (p : DecisionProposal) → Respects StaysShown (record_proposal id p)
unfolding record_proposal ToolCalls.any_started ToolCalls.any_succeeded ToolCalls.latest_for_tools
record_proposal-Shown id p = search writes depth 20

pub finish_decision-Shown :
    (id : ℕ) (p : DecisionProposal) → Respects StaysShown (finish_decision id p)
unfolding finish_decision
finish_decision-Shown id p =
    search (writes, record_proposal-Shown, verify_proposal-Respects, after_verification-Shown) depth
      10
