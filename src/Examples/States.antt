-- ===== src/Examples/States.antt =====
-- What the code computes at concrete states of the database.
use saas_agent_lab.Common.{All, find, ℕ, pos, ◌≡◌, refl, Option, none, some, List, [], ◌∷◌}
use saas_agent_lab.Text.{Text, codes}
use saas_agent_lab.Models.{User, Licence, Assignment, AgentRun, ToolCall}
use saas_agent_lab.Models.Enums.{
  UserStatus, PolicyDecision, ToolCallStatus, AgentRunStatus, OutcomeReason, GoalType, DesiredState,
}
use saas_agent_lab.Schemas.Agent.{ResolvedAssignmentGoal, goal_reached, assign_target_licence}
use saas_agent_lab.Repositories.AgentRuns.{run_key}
use saas_agent_lab.Agent.History.{IsWellFormed}
use saas_agent_lab.Json.{end}
use saas_agent_lab.Errors.{no_seats_available}
use saas_agent_lab.Agent.Tools.Rules.{tool_error}
use saas_agent_lab.Agent.Resolver.{goal, resolve_assignment_goal}
use saas_agent_lab.Services.Users
use saas_agent_lab.Services.Licences
use saas_agent_lab.Services.Assignments
use saas_agent_lab.Services.Validation
use saas_agent_lab.Agent.Decision.Prompt.{decision_context}
use saas_agent_lab.Agent.Executor.Admission.{start_call_transaction}
use saas_agent_lab.Agent.Executor.Decide.{finish_decision, before_request}
use saas_agent_lab.Session.{Database, World, Result, ok}
use saas_agent_lab.Examples.{ascii, company, world}

abbrev pub admin : Text
admin = codes "admin"

abbrev pub carol : User
carol = record {
  id = 3;
  email = codes "carol@example.com";
  name = codes "Carol";
  status = UserStatus.active;
  created_at = 4;
}

pub carol_created :
    Users.create_user ascii (codes " Carol@example.com") (codes "Carol") admin world ≡ (
      ok carol,
      (Users.create_user ascii (codes " Carol@example.com") (codes "Carol") admin world).1,
    )
unfolding Users.create_user saas_agent_lab.Session.◌>>=◌ Users.validated_email
    saas_agent_lab.Text.strip saas_agent_lab.Text.is_space Validation.validated_actor
    saas_agent_lab.Repositories.Users.get_by_email saas_agent_lab.Repositories.Users.add
    saas_agent_lab.Repositories.AuditEvents.add saas_agent_lab.Common.next_key
carol_created = refl

abbrev pub slack : Licence
slack = record {
  id = 3;
  product = codes "Slack";
  seats_total = 5;
  agent_policy = PolicyDecision.require_approval;
}

pub slack_created :
    Licences.create_licence (codes "Slack ") (pos 5) admin "require_approval" world ≡ (
      ok slack,
      (Licences.create_licence (codes "Slack ") (pos 5) admin "require_approval" world).1,
    )
unfolding Licences.create_licence saas_agent_lab.Session.◌>>=◌ Validation.required_text
    saas_agent_lab.Text.strip saas_agent_lab.Text.is_space Licences.validated_seats_total
    Licences.validated_agent_policy Validation.validated_actor
    saas_agent_lab.Repositories.Licences.get_by_product saas_agent_lab.Repositories.Licences.add
    saas_agent_lab.Repositories.AuditEvents.add saas_agent_lab.Common.next_key
slack_created = refl

abbrev pub new_seat : Assignment
new_seat = record { id = 2; user_id = 1; licence_id = 1; assigned_at = 4; revoked_at = none }

pub seat_assigned :
    Assignments.assign_licence 1 1 admin world
    ≡ (ok new_seat, (Assignments.assign_licence 1 1 admin world).1)
unfolding Assignments.assign_licence saas_agent_lab.Session.◌>>=◌ Validation.validated_actor
    saas_agent_lab.Text.strip saas_agent_lab.Text.is_space saas_agent_lab.Repositories.Users.get
    saas_agent_lab.Common.find saas_agent_lab.Repositories.Licences.get
    saas_agent_lab.Repositories.Assignments.get_active
    saas_agent_lab.Repositories.Assignments.count_active_for_licence
    saas_agent_lab.Repositories.Assignments.add saas_agent_lab.Repositories.AuditEvents.add
    saas_agent_lab.Common.next_key
seat_assigned = refl

abbrev pub old_seat : Assignment
old_seat = record { id = 1; user_id = 2; licence_id = 1; assigned_at = 3; revoked_at = some 4 }

pub seat_revoked :
    Assignments.revoke_assignment 1 admin world
    ≡ (ok old_seat, (Assignments.revoke_assignment 1 admin world).1)
unfolding Assignments.revoke_assignment saas_agent_lab.Session.◌>>=◌ Validation.validated_actor
    saas_agent_lab.Text.strip saas_agent_lab.Text.is_space
    saas_agent_lab.Repositories.Assignments.get saas_agent_lab.Common.find
    saas_agent_lab.Repositories.Assignments.mark_revoked saas_agent_lab.Repositories.AuditEvents.add
seat_revoked = refl

pub name_stored : Validation.required_text (codes " Ada ") "Name" 200 ≡ ok (codes "Ada")
unfolding Validation.required_text saas_agent_lab.Text.strip saas_agent_lab.Text.is_space
name_stored = refl

pub admin_external : Validation.validated_external_actor ascii admin ≡ ok admin
unfolding Validation.validated_external_actor saas_agent_lab.Text.starts_with
    saas_agent_lab.Text.casefold saas_agent_lab.Text.strip saas_agent_lab.Text.is_space
admin_external = refl

pub run_actor : Validation.agent_run_actor 7 ≡ ok (codes "agent:run-7")
unfolding Validation.agent_run_actor saas_agent_lab.Text.strip saas_agent_lab.Text.is_space
    saas_agent_lab.Text.Decimal.decimal
run_actor = refl

-- A run that is executing, for a user who has the licence (bob) or has not (ada).
abbrev pub executing_run : ℕ → AgentRun
executing_run user_id = record {
  id = 1;
  instruction = codes "Ensure ada@example.com has GitHub";
  requesting_actor = admin;
  status = AgentRunStatus.executing;
  goal_type = some GoalType.ensure_assignment;
  desired_state = some DesiredState.assigned;
  extracted_user_email = some (codes "ada@example.com");
  extracted_product = some (codes "GitHub");
  resolved_user_id = some user_id;
  resolved_licence_id = some 1;
  outcome_reason = none;
  outcome_detail = none;
  last_sequence_no = 0;
  decision_context = some (decision_context (codes "ada@example.com") (codes "GitHub"));
  decision_proposal = none;
  decision_reason_code = none;
  created_at = 1;
  completed_at = none;
}

abbrev pub executing : ℕ → World
executing user_id = record world { db = record company { agent_runs = executing_run user_id ∷ [] } }

abbrev pub ada_goal : ResolvedAssignmentGoal
ada_goal = record {
  user_id = 1;
  licence_id = 1;
  extracted_user_email = codes "ada@example.com";
  extracted_product = codes "GitHub";
}

pub call_admitted :
    start_call_transaction 1 assign_target_licence (executing 1)
    ≡ (ok (some (1, ada_goal)), (start_call_transaction 1 assign_target_licence (executing 1)).1)
unfolding start_call_transaction saas_agent_lab.Session.transaction saas_agent_lab.Session.◌>>=◌
    saas_agent_lab.Agent.Executor.Runs.get_run saas_agent_lab.Repositories.AgentRuns.get
    saas_agent_lab.Common.find saas_agent_lab.Repositories.ToolCalls.any_started
    saas_agent_lab.Agent.Executor.Runs.persisted_goal
    saas_agent_lab.Repositories.AgentRuns.next_sequence_no
    saas_agent_lab.Repositories.ToolCalls.count_for_tools saas_agent_lab.Agent.Policy.evaluate
    Licences.get_licence saas_agent_lab.Repositories.Licences.get
    saas_agent_lab.Repositories.ToolCalls.add saas_agent_lab.Common.next_key
call_admitted = refl

pub decision_completed :
    finish_decision 1 goal_reached (executing 2)
    ≡ (ok AgentRunStatus.completed, (finish_decision 1 goal_reached (executing 2)).1)
unfolding finish_decision saas_agent_lab.Session.◌>>=◌
    saas_agent_lab.Agent.Executor.Decide.record_proposal saas_agent_lab.Agent.Executor.Runs.get_run
    saas_agent_lab.Repositories.AgentRuns.get saas_agent_lab.Common.find
    saas_agent_lab.Common.update saas_agent_lab.Repositories.ToolCalls.any_started
    saas_agent_lab.Repositories.AgentRuns.set_columns
    saas_agent_lab.Agent.Executor.Runs.persisted_goal
    saas_agent_lab.Repositories.ToolCalls.any_succeeded
    saas_agent_lab.Repositories.ToolCalls.latest_for_tools
    saas_agent_lab.Repositories.ToolCalls.latest
    saas_agent_lab.Agent.Executor.Decide.verify_proposal
    saas_agent_lab.Agent.Executor.Decide.claim_check saas_agent_lab.Agent.Verifier.verify
    saas_agent_lab.Services.Assignments.get_active_assignment
    saas_agent_lab.Repositories.Assignments.get_active
    saas_agent_lab.Agent.Executor.Decide.after_verification
    saas_agent_lab.Agent.Executor.Decide.end_verified
    saas_agent_lab.Agent.Executor.Decide.blocking_rejection
    saas_agent_lab.Agent.Decision.decision_outcome saas_agent_lab.Agent.Executor.Runs.end_run
    saas_agent_lab.Agent.Executor.Runs.current_status
decision_completed = refl

-- A run that failed before its extraction.
abbrev pub failed_run : AgentRun
failed_run = record {
  id = 1;
  instruction = codes "Ensure ada@example.com has GitHub";
  requesting_actor = admin;
  status = AgentRunStatus.failed;
  goal_type = none;
  desired_state = none;
  extracted_user_email = none;
  extracted_product = none;
  resolved_user_id = none;
  resolved_licence_id = none;
  outcome_reason = some OutcomeReason.unexpected_error;
  outcome_detail = none;
  last_sequence_no = 0;
  decision_context = none;
  decision_proposal = none;
  decision_reason_code = none;
  created_at = 1;
  completed_at = some 2;
}

-- A run whose goal is resolved, and one that has just been received.
abbrev pub resolved_run : AgentRun
resolved_run = record (executing_run 1) {
  id = 3;
  status = AgentRunStatus.resolved;
  decision_context = none;
}

abbrev pub received_run : AgentRun
received_run = record failed_run {
  id = 4;
  status = AgentRunStatus.received;
  outcome_reason = none;
  completed_at = none;
}

-- A run whose goal is extracted.
abbrev pub extracted_run : AgentRun
extracted_run = record resolved_run {
  id = 5;
  status = AgentRunStatus.received;
  resolved_user_id = none;
  resolved_licence_id = none;
}

-- One run that has ended, one that is executing, and one for each
-- later stage to take up: a decision, an extraction and a resolution.
abbrev pub busy : World
busy = record world {
  db = record company {
    agent_runs =
        failed_run
        ∷ record (executing_run 1) { id = 2 }
        ∷ resolved_run
        ∷ received_run
        ∷ extracted_run
        ∷ [];
  };
}

-- An attempt to assign that found no seat.
abbrev pub rejected_call : ToolCall
rejected_call = record {
  id = 1;
  agent_run_id = 1;
  sequence_no = 1;
  tool_name = "assign_target_licence";
  arguments = end;
  status = ToolCallStatus.failed;
  policy_decision = some PolicyDecision.allow;
  result = none;
  error = some (tool_error (no_seats_available 1) "assign_target_licence");
  observation = some (codes "{}");
  created_at = 5;
  completed_at = some 6;
}

failed_run-IsWellFormed : IsWellFormed failed_run
failed_run-IsWellFormed = record {
  checks = record {
    ids_together = refl;
    columns_together = refl;
    ids_need_goal = refl;
    no_goal = refl;
    ids_match = refl;
    completed_iff = refl;
    outcome_matches = refl;
    context_resolved = refl;
    proposal_context = refl;
    reason_matches = refl;
  };
  context_late = refl;
  context_told = refl;
  proposal_late = refl;
}

executing_run-IsWellFormed : IsWellFormed (record (executing_run 1) { id = 2 })
executing_run-IsWellFormed = record {
  checks = record {
    ids_together = refl;
    columns_together = refl;
    ids_need_goal = refl;
    no_goal = refl;
    ids_match = refl;
    completed_iff = refl;
    outcome_matches = refl;
    context_resolved = refl;
    proposal_context = refl;
    reason_matches = refl;
  };
  context_late = refl;
  context_told = refl;
  proposal_late = refl;
}

resolved_run-IsWellFormed : IsWellFormed resolved_run
resolved_run-IsWellFormed = record {
  checks = record {
    ids_together = refl;
    columns_together = refl;
    ids_need_goal = refl;
    no_goal = refl;
    ids_match = refl;
    completed_iff = refl;
    outcome_matches = refl;
    context_resolved = refl;
    proposal_context = refl;
    reason_matches = refl;
  };
  context_late = refl;
  context_told = refl;
  proposal_late = refl;
}

received_run-IsWellFormed : IsWellFormed received_run
received_run-IsWellFormed = record {
  checks = record {
    ids_together = refl;
    columns_together = refl;
    ids_need_goal = refl;
    no_goal = refl;
    ids_match = refl;
    completed_iff = refl;
    outcome_matches = refl;
    context_resolved = refl;
    proposal_context = refl;
    reason_matches = refl;
  };
  context_late = refl;
  context_told = refl;
  proposal_late = refl;
}

extracted_run-IsWellFormed : IsWellFormed extracted_run
extracted_run-IsWellFormed = record {
  checks = record {
    ids_together = refl;
    columns_together = refl;
    ids_need_goal = refl;
    no_goal = refl;
    ids_match = refl;
    completed_iff = refl;
    outcome_matches = refl;
    context_resolved = refl;
    proposal_context = refl;
    reason_matches = refl;
  };
  context_late = refl;
  context_told = refl;
  proposal_late = refl;
}

pub busy-IsWellFormed : All IsWellFormed busy.db.agent_runs
busy-IsWellFormed = (
  failed_run-IsWellFormed,
  (
    executing_run-IsWellFormed,
    (resolved_run-IsWellFormed, (received_run-IsWellFormed, (extracted_run-IsWellFormed, tt))),
  ),
)

pub failed_found : find run_key 1 busy.db.agent_runs ≡ some failed_run
unfolding find
failed_found = refl

pub goal_resolved :
    resolve_assignment_goal ascii (codes "Ada@example.com") (codes "github") world ≡ (
      ok (
          goal (record {
            user_id = 1;
            licence_id = 1;
            extracted_user_email = codes "Ada@example.com";
            extracted_product = codes "github";
          })),
      world,
    )
unfolding resolve_assignment_goal saas_agent_lab.Session.try_catch saas_agent_lab.Session.◌>>=◌
    Users.find_user_by_email Users.validated_email saas_agent_lab.Text.strip
    saas_agent_lab.Text.is_space saas_agent_lab.Repositories.Users.get_by_email
    Licences.find_licences_by_product saas_agent_lab.Repositories.Licences.list_all
    saas_agent_lab.Text.casefold
goal_resolved = refl
