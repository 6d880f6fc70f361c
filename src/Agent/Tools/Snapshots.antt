-- ===== src/Agent/Tools/Snapshots.antt =====
-- src/app/schemas/agent.py: the `of` class methods, which take a snapshot of a row.
use saas_agent_lab.Common.{is_none}
use saas_agent_lab.Models.{User, Assignment}
use saas_agent_lab.Schemas.Agent.{UserSnapshot, LicenceSnapshot, AssignmentSnapshot}
use saas_agent_lab.Services.Assignments.{SeatUsage, seats_available}

unfoldable pub of_user : User → UserSnapshot
of_user u = record { user_id = u.id; email = u.email; name = u.name; status = u.status }

unfoldable pub of_usage : SeatUsage → LicenceSnapshot
unfolding seats_available
of_usage usage = record {
  licence_id = usage.licence.id;
  product = usage.licence.product;
  seats_total = usage.licence.seats_total;
  seats_active = usage.seats_active;
  seats_available = seats_available usage;
}

unfoldable pub of_assignment : Assignment → AssignmentSnapshot
of_assignment a = record {
  assignment_id = a.id;
  user_id = a.user_id;
  licence_id = a.licence_id;
  active = is_none a.revoked_at;
  assigned_at = a.assigned_at;
  revoked_at = a.revoked_at;
}
