-- ===== src/Agent/Verifier.antt =====
-- src/app/agent/verifier.py: the only source of a run's success, and the check of a claimed block.
use saas_agent_lab.Common.{not, Option, none, some, is_some, ◌==◌}
use saas_agent_lab.Models.{Assignment}
use saas_agent_lab.Models.Enums.{CannotProceedReason, is_active}
use saas_agent_lab.Schemas.Agent.{
  ResolvedAssignmentGoal, AssignmentSnapshot, VerificationResult, BlockCheck,
}
use saas_agent_lab.Services.Users.{get_user}
use saas_agent_lab.Services.Assignments.{get_active_assignment, get_seat_usage, seats_available}
use saas_agent_lab.Agent.Tools.Snapshots.{of_user, of_usage, of_assignment}
use saas_agent_lab.Session.{Exec, pure, ◌>>=◌}

abbrev pub snapshot? : Option Assignment → Option AssignmentSnapshot
snapshot? none = none
snapshot? (some a) = some (of_assignment a)

unfoldable pub verify : ResolvedAssignmentGoal → Exec VerificationResult
verify goal = do
  active ← get_active_assignment goal.user_id goal.licence_id
  pure (record {
    satisfied = is_some active;
    evidence = record {
      user_id = goal.user_id;
      licence_id = goal.licence_id;
      active_assignment = snapshot? active;
    };
  })

unfoldable pub check_block : ResolvedAssignmentGoal → CannotProceedReason → Exec BlockCheck
unfolding seats_available
check_block goal CannotProceedReason.no_seats_available = do
  usage ← get_seat_usage goal.licence_id
  pure (record {
    reason = CannotProceedReason.no_seats_available;
    confirmed = seats_available usage == 0;
    user = none;
    licence = some (of_usage usage);
  })
check_block goal CannotProceedReason.user_inactive = do
  user ← get_user goal.user_id
  pure (record {
    reason = CannotProceedReason.user_inactive;
    confirmed = not (is_active user.status);
    user = some (of_user user);
    licence = none;
  })
