-- ===== src/Services/Assignments.antt =====
-- src/app/services/assignments.py.
pub mod Ledger
pub mod Refinement
pub mod Seats
use saas_agent_lab.Common.{ℕ, ◌-◌, Bool, not, Option, none, some, List, leb, is_some, if◌then◌else◌}
use saas_agent_lab.Text.{Text}
use saas_agent_lab.Errors.{
  Exc, user_not_found, user_inactive, licence_not_found, assignment_already_exists,
  no_seats_available, assignment_not_found, assignment_already_revoked,
}
use saas_agent_lab.Json.{Json, Fields, num, time, obj, field, end, or_null}
use saas_agent_lab.Models.{User, Licence, Assignment}
use saas_agent_lab.Models.Enums.{is_active}
use saas_agent_lab.Repositories.Users as UserRows
use saas_agent_lab.Repositories.Licences as LicenceRows
use saas_agent_lab.Repositories.Assignments as AssignmentRows
use saas_agent_lab.Repositories.AuditEvents
use saas_agent_lab.Services.Validation.{validated_actor}
use saas_agent_lab.Session.{
  Exec, pure, raise_error, lift, ◌>>=◌, ◌>>◌, raise_if, or_raise, try_catch, utcnow,
}

pub audit_snapshot : Assignment → Json
audit_snapshot a = obj (field "user_id" (num a.user_id) (field "licence_id" (num a.licence_id) end))

pub revocation_snapshot : Assignment → Json
revocation_snapshot a = obj (
    field "user_id" (num a.user_id)
      (field "licence_id" (num a.licence_id) (field "revoked_at" (or_null time a.revoked_at) end)))

pub record SeatUsage : Type 0 where
  pub licence : Licence
  pub seats_active : ℕ

-- `max(seats_total - seats_active, 0)`, which the subtraction of ℕ is.
unfoldable pub seats_available : SeatUsage → ℕ
seats_available usage = usage.licence.seats_total - usage.seats_active

-- The handler of the insert: only the index of active assignments is reported as a duplicate.
unfoldable pub assignment_conflict : ℕ → ℕ → Exc → Exec Assignment
assignment_conflict user_id licence_id error = raise_error (
    if AssignmentRows.is_duplicate_active_assignment error
    then assignment_already_exists user_id licence_id
    else error)

unfoldable pub assign_licence : ℕ → ℕ → Text → Exec Assignment
unfolding assignment_conflict
assign_licence user_id licence_id raw_actor = do
  actor ← lift (validated_actor raw_actor)
  found_user ← UserRows.get user_id
  user ← or_raise found_user (user_not_found user_id)
  raise_if (not (is_active user.status)) (user_inactive user_id)
  found_licence ← LicenceRows.get licence_id
  licence ← or_raise found_licence (licence_not_found licence_id)
  existing ← AssignmentRows.get_active user_id licence_id
  raise_if (is_some existing) (assignment_already_exists user_id licence_id)
  seats_used ← AssignmentRows.count_active_for_licence licence_id
  raise_if (leb licence.seats_total seats_used) (no_seats_available licence_id)
  assignment ←
      try_catch (AssignmentRows.add user_id licence_id) (assignment_conflict user_id licence_id)
  AuditEvents.add actor "assignment.create" "assignment" assignment.id none
      (some (audit_snapshot assignment))
  pure assignment

unfoldable pub revoke_assignment : ℕ → Text → Exec Assignment
revoke_assignment assignment_id raw_actor = do
  actor ← lift (validated_actor raw_actor)
  found ← AssignmentRows.get assignment_id
  assignment ← or_raise found (assignment_not_found assignment_id)
  raise_if (is_some assignment.revoked_at) (assignment_already_revoked assignment_id)
  let before = revocation_snapshot assignment
  revoked_at ← utcnow
  revoked ← AssignmentRows.mark_revoked assignment revoked_at
  AuditEvents.add actor "assignment.revoke" "assignment" revoked.id (some before)
      (some (revocation_snapshot revoked))
  pure revoked

unfoldable pub list_active_assignments : Exec (List Assignment)
list_active_assignments = AssignmentRows.list_active

unfoldable pub list_assignments_for_user : ℕ → Exec (List Assignment)
list_assignments_for_user user_id = do
  user ← UserRows.get user_id
  or_raise user (user_not_found user_id)
  AssignmentRows.list_for_user user_id

unfoldable pub get_active_assignment : ℕ → ℕ → Exec (Option Assignment)
get_active_assignment user_id licence_id = AssignmentRows.get_active user_id licence_id

unfoldable pub get_seat_usage : ℕ → Exec SeatUsage
get_seat_usage licence_id = do
  found ← LicenceRows.get licence_id
  licence ← or_raise found (licence_not_found licence_id)
  seats_active ← AssignmentRows.count_active_for_licence licence_id
  pure (record { licence = licence; seats_active = seats_active })
