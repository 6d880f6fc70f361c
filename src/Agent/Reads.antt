-- ===== src/Agent/Reads.antt =====
-- What reads of the agent layer: policy, the resolver, the verifier and the read tools.
use saas_agent_lab.Common.{ℕ, ◌≡◌, refl, ◌∙◌, Bool, false}
use saas_agent_lab.Text.{Text, Unicode}
use saas_agent_lab.Errors.{Exc}
use saas_agent_lab.Models.{AgentRun}
use saas_agent_lab.Models.Enums.{CannotProceedReason}
use saas_agent_lab.Repositories.Users as UserRows
use saas_agent_lab.Repositories.Licences as LicenceRows
use saas_agent_lab.Repositories.Assignments as AssignmentRows
use saas_agent_lab.Repositories.AgentRuns
use saas_agent_lab.Services.Users
use saas_agent_lab.Services.Licences
use saas_agent_lab.Services.Assignments
use saas_agent_lab.Schemas.Agent.{
  TargetToolName, get_target_user, get_target_licence_capacity, list_target_user_assignments,
  assign_target_licence, ResolvedAssignmentGoal, DecisionProposal, cannot_proceed,
}
use saas_agent_lab.Agent.Policy.{evaluate}
use saas_agent_lab.Agent.Resolver.{rejected_input, resolve_assignment_goal}
use saas_agent_lab.Agent.Verifier.{verify, check_block}
use saas_agent_lab.Agent.Tools
use saas_agent_lab.Agent.Executor.Runs.{
  get_run, current_status, persisted_goal, require_awaiting_extraction,
}
use saas_agent_lab.Agent.Executor.Decide.{claim_check, verify_proposal}
use saas_agent_lab.Session.{Database, World}
use saas_agent_lab.Session.Respects.{Preorder, Respects, respects_rules}

module _ {R : Database → Database → Type 0} (p : Preorder R) where
  get_licence-Respects : (id : ℕ) → Respects R (Licences.get_licence id)
  unfolding Licences.get_licence LicenceRows.get
  get_licence-Respects id = search (respects_rules, p)

  get_user-Respects : (id : ℕ) → Respects R (Users.get_user id)
  unfolding Users.get_user UserRows.get
  get_user-Respects id = search (respects_rules, p)

  get_seat_usage-Respects : (id : ℕ) → Respects R (Assignments.get_seat_usage id)
  unfolding Assignments.get_seat_usage LicenceRows.get AssignmentRows.count_active_for_licence
  get_seat_usage-Respects id = search (respects_rules, p) depth 8

  pub evaluate-Respects :
      (tool : TargetToolName) (goal : ResolvedAssignmentGoal) → Respects R (evaluate tool goal)
  unfolding evaluate
  evaluate-Respects assign_target_licence goal = search (respects_rules, p, get_licence-Respects)
  evaluate-Respects _ goal = search (respects_rules, p)

  find_user-Respects : (u : Unicode) (e : Text) → Respects R (Users.find_user_by_email u e)
  unfolding Users.find_user_by_email UserRows.get_by_email
  find_user-Respects u e = search (respects_rules, p) depth 8

  find_licences-Respects :
      (u : Unicode) (t : Text) → Respects R (Licences.find_licences_by_product u t)
  unfolding Licences.find_licences_by_product LicenceRows.list_all
  find_licences-Respects u t = search (respects_rules, p) depth 8

  rejected_input-Respects : (e : Exc) → Respects R (rejected_input e)
  unfolding rejected_input
  rejected_input-Respects (Exc.invalid_input problem) = search (respects_rules, p)
  rejected_input-Respects _ = search (respects_rules, p)

  pub resolve-Respects : (u : Unicode) (e t : Text) → Respects R (resolve_assignment_goal u e t)
  unfolding resolve_assignment_goal
  resolve-Respects u e t =
      search
        (respects_rules, p, find_user-Respects, find_licences-Respects, rejected_input-Respects)
        depth 8

  verify-Respects : (goal : ResolvedAssignmentGoal) → Respects R (verify goal)
  unfolding verify Assignments.get_active_assignment AssignmentRows.get_active
  verify-Respects goal = search (respects_rules, p) depth 8

  check_block-Respects :
      (goal : ResolvedAssignmentGoal) (reason : CannotProceedReason)
      → Respects R (check_block goal reason)
  unfolding check_block
  check_block-Respects goal CannotProceedReason.no_seats_available =
      search (respects_rules, p, get_seat_usage-Respects)
  check_block-Respects goal CannotProceedReason.user_inactive =
      search (respects_rules, p, get_user-Respects)

  pub claim_check-Respects :
      (goal : ResolvedAssignmentGoal) (proposal : DecisionProposal) (satisfied : Bool)
      → Respects R (claim_check goal proposal satisfied)
  unfolding claim_check
  claim_check-Respects goal (cannot_proceed reason) false =
      search (respects_rules, p, check_block-Respects)
  claim_check-Respects goal _ _ = search (respects_rules, p)

  pub verify_proposal-Respects :
      (goal : ResolvedAssignmentGoal) (proposal : DecisionProposal)
      → Respects R (verify_proposal goal proposal)
  unfolding verify_proposal
  verify_proposal-Respects goal proposal =
      search (respects_rules, p, verify-Respects, claim_check-Respects) depth 8

  pub get_run-Respects : (id : ℕ) → Respects R (get_run id)
  unfolding get_run AgentRuns.get
  get_run-Respects id = search (respects_rules, p)

  pub current_status-Respects : (id : ℕ) → Respects R (current_status id)
  unfolding current_status
  current_status-Respects id = search (respects_rules, p, get_run-Respects)

  pub persisted_goal-Respects : (run : AgentRun) → Respects R (persisted_goal run)
  unfolding persisted_goal
  persisted_goal-Respects run = search (respects_rules, p)

  pub require_awaiting-Respects : (run : AgentRun) → Respects R (require_awaiting_extraction run)
  unfolding require_awaiting_extraction
  require_awaiting-Respects run = search (respects_rules, p)

  -- The three tools that read.
  pub read_tool-Respects :
      (tool : TargetToolName) (goal : ResolvedAssignmentGoal) (actor : Text)
      → Tools.is_mutation tool ≡ false
      → Respects R (Tools.run tool goal actor)
  unfolding Tools.run Assignments.list_assignments_for_user UserRows.get
      AssignmentRows.list_for_user
  read_tool-Respects get_target_user goal actor h = search (respects_rules, p, get_user-Respects)
  read_tool-Respects get_target_licence_capacity goal actor h =
      search (respects_rules, p, get_seat_usage-Respects)
  read_tool-Respects list_target_user_assignments goal actor h = search (respects_rules, p) depth 10
  read_tool-Respects assign_target_licence goal actor h = absurd (cc)

-- Equality of databases is a preorder, so what only reads leaves the database as it was.
pub SameDatabase : Database → Database → Type 0
SameDatabase d e = e ≡ d

pub SameDatabase-preorder : Preorder SameDatabase
unfolding SameDatabase
SameDatabase-preorder = record { same = λ d. refl; then_ = λ d e f a b. b ∙ a }

-- A tool that only reads leaves the whole database as it was, whether it returns or raises.
pub read_tool-unchanged :
    (tool : TargetToolName) (goal : ResolvedAssignmentGoal) (actor : Text) (w : World)
    → Tools.is_mutation tool ≡ false
    → (Tools.run tool goal actor w).1.db ≡ w.db
unfolding SameDatabase
read_tool-unchanged tool goal actor w h =
    (read_tool-Respects SameDatabase-preorder tool goal actor h).at w
