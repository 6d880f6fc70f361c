-- ===== src/Agent/Tools.antt =====
-- src/app/agent/tools.py: the four tools a decision model can call, and what it is shown of each.
pub mod Rules
pub mod Snapshots
pub mod Observe
pub mod Privacy
use saas_agent_lab.Common.{ℕ, String, Bool, true, false, ◌||◌, not, ◌&&◌, map, str_eq}
use saas_agent_lab.Text.{Text}
use saas_agent_lab.Json.{Fields, num, field, end}
use saas_agent_lab.Schemas.Agent.{
  TargetToolName, get_target_user, get_target_licence_capacity, list_target_user_assignments,
  assign_target_licence, ResolvedAssignmentGoal, ToolOutput, user, licence, user_assignments,
  assignment,
}
use saas_agent_lab.Services.Users
use saas_agent_lab.Services.Assignments
use saas_agent_lab.Agent.Tools.Snapshots.{of_user, of_usage, of_assignment}
use saas_agent_lab.Session.{Exec, pure, ◌>>=◌}

-- RECORDED_NAMES.
abbrev pub recorded_name : TargetToolName → String
recorded_name get_target_user = "get_user"
recorded_name get_target_licence_capacity = "get_licence"
recorded_name list_target_user_assignments = "list_user_assignments"
recorded_name assign_target_licence = "assign_licence"

-- `tool == MUTATION`.
abbrev pub is_mutation : TargetToolName → Bool
is_mutation assign_target_licence = true
is_mutation _ = false

-- The sets RECORDED_MUTATIONS and RECORDED_READS, by their membership tests.
abbrev pub recorded_mutations : String → Bool
recorded_mutations name = str_eq name (recorded_name assign_target_licence)

abbrev pub recorded_reads : String → Bool
recorded_reads name =
    (str_eq name (recorded_name get_target_user)
      || (str_eq name (recorded_name get_target_licence_capacity)
          || (str_eq name (recorded_name list_target_user_assignments)
              || str_eq name (recorded_name assign_target_licence))))
    && not (recorded_mutations name)

unfoldable pub arguments : TargetToolName → ResolvedAssignmentGoal → Fields
arguments get_target_user goal = field "user_id" (num goal.user_id) end
arguments list_target_user_assignments goal = field "user_id" (num goal.user_id) end
arguments get_target_licence_capacity goal = field "licence_id" (num goal.licence_id) end
arguments assign_target_licence goal =
    field "user_id" (num goal.user_id) (field "licence_id" (num goal.licence_id) end)

-- `tools.run`: the services run in the caller's business transaction.
unfoldable pub run : TargetToolName → ResolvedAssignmentGoal → Text → Exec ToolOutput
run get_target_user goal actor = do found ← Users.get_user goal.user_id; pure (user (of_user found))
run get_target_licence_capacity goal actor = do
  usage ← Assignments.get_seat_usage goal.licence_id
  pure (licence (of_usage usage))
run list_target_user_assignments goal actor = do
  rows ← Assignments.list_assignments_for_user goal.user_id
  pure (user_assignments (record { user_id = goal.user_id; assignments = map of_assignment rows }))
run assign_target_licence goal actor = do
  row ← Assignments.assign_licence goal.user_id goal.licence_id actor
  pure (assignment (of_assignment row))
