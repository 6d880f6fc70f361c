-- ===== src/Services/Isolation.antt =====
-- src/app/services and src/app/api against the log of agent runs.
use saas_agent_lab.Common.{ℕ, ℤ, refl, String}
use saas_agent_lab.Text.{Text, Unicode}
use saas_agent_lab.Models.{Assignment}
use saas_agent_lab.Models.Enums.{UserStatus, PolicyDecision}
use saas_agent_lab.Schemas.Agent.{
  TargetToolName, get_target_user, get_target_licence_capacity, list_target_user_assignments,
  assign_target_licence, ResolvedAssignmentGoal,
}
use saas_agent_lab.Repositories.Users as UserRows
use saas_agent_lab.Repositories.Licences as LicenceRows
use saas_agent_lab.Repositories.Assignments as AssignmentRows
use saas_agent_lab.Repositories.AuditEvents
use saas_agent_lab.Services.Users
use saas_agent_lab.Services.Licences
use saas_agent_lab.Services.Assignments
use saas_agent_lab.Api.Requests.{
  Request, create_user, create_licence, create_assignment, revoke_assignment, list_users,
  list_licences, list_assignments, get_user, get_licence, users_listed, user_answered,
  licences_listed, licence_answered, assignments_listed, serve,
}
use saas_agent_lab.Agent.Tools
use saas_agent_lab.Session.Respects.{Respects, respects_rules}
use saas_agent_lab.Session.Isolation.{SameLog, SameLog-preorder, writes_business}

ruleset rules = (respects_rules, SameLog-preorder, writes_business, refl)

add_user-SameLog : (e n : Text) (s : UserStatus) → Respects SameLog (UserRows.add e n s)
unfolding UserRows.add
add_user-SameLog e n s = search rules depth 12

create_user-SameLog : (u : Unicode) (e n a : Text) → Respects SameLog (Users.create_user u e n a)
unfolding Users.create_user UserRows.get_by_email AuditEvents.add
create_user-SameLog u e n a = search (rules, add_user-SameLog) depth 20

add_licence-SameLog :
    (p : Text) (n : ℕ) (d : PolicyDecision) → Respects SameLog (LicenceRows.add p n d)
unfolding LicenceRows.add
add_licence-SameLog p n d = search rules depth 12

create_licence-SameLog :
    (p : Text) (n : ℤ) (a : Text) (d : String) → Respects SameLog (Licences.create_licence p n a d)
unfolding Licences.create_licence LicenceRows.get_by_product AuditEvents.add
create_licence-SameLog p n a d = search (rules, add_licence-SameLog) depth 20

add_assignment-SameLog : (user licence : ℕ) → Respects SameLog (AssignmentRows.add user licence)
unfolding AssignmentRows.add
add_assignment-SameLog user licence = search rules depth 16

pub assign_licence-SameLog :
    (user licence : ℕ) (a : Text) → Respects SameLog (Assignments.assign_licence user licence a)
unfolding Assignments.assign_licence UserRows.get LicenceRows.get AssignmentRows.get_active
    AssignmentRows.count_active_for_licence AuditEvents.add
assign_licence-SameLog user licence a = search (rules, add_assignment-SameLog) depth 24

mark_revoked-SameLog : (a : Assignment) (t : ℕ) → Respects SameLog (AssignmentRows.mark_revoked a t)
unfolding AssignmentRows.mark_revoked
mark_revoked-SameLog a t = search rules depth 12

revoke_assignment-SameLog :
    (id : ℕ) (a : Text) → Respects SameLog (Assignments.revoke_assignment id a)
unfolding Assignments.revoke_assignment AssignmentRows.get AuditEvents.add
revoke_assignment-SameLog id a = search (rules, mark_revoked-SameLog) depth 24

-- No HTTP request of another client writes a run, a model call or a tool call.
pub serve-SameLog : (u : Unicode) (request : Request) → Respects SameLog (serve u request)
unfolding serve users_listed user_answered licences_listed licence_answered assignments_listed
    Users.list_users UserRows.list_all Users.get_user UserRows.get Licences.list_licences
    LicenceRows.list_all Licences.get_licence LicenceRows.get Assignments.list_active_assignments
    AssignmentRows.list_active
serve-SameLog u (create_user x e n) = search (rules, create_user-SameLog) depth 12
serve-SameLog u (create_licence x p n d) = search (rules, create_licence-SameLog) depth 12
serve-SameLog u (create_assignment x user licence) = search (rules, assign_licence-SameLog) depth 12
serve-SameLog u (revoke_assignment x id) = search (rules, revoke_assignment-SameLog) depth 12
serve-SameLog u list_users = search rules depth 12
serve-SameLog u list_licences = search rules depth 12
serve-SameLog u list_assignments = search rules depth 12
serve-SameLog u (get_user id) = search rules depth 12
serve-SameLog u (get_licence id) = search rules depth 12

-- Nor does the business transaction of a tool call.
pub run_tool-SameLog :
    (tool : TargetToolName) (goal : ResolvedAssignmentGoal) (actor : Text)
    → Respects SameLog (Tools.run tool goal actor)
unfolding Tools.run Users.get_user UserRows.get Assignments.get_seat_usage LicenceRows.get
    AssignmentRows.count_active_for_licence Assignments.list_assignments_for_user
    AssignmentRows.list_for_user
run_tool-SameLog get_target_user goal actor = search rules depth 12
run_tool-SameLog get_target_licence_capacity goal actor = search rules depth 12
run_tool-SameLog list_target_user_assignments goal actor = search rules depth 12
run_tool-SameLog assign_target_licence goal actor = search (rules, assign_licence-SameLog) depth 12
