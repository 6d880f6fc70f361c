-- ===== src/Services/Guarantees.antt =====
-- src/app/services and src/app/api at any state of the database.
use saas_agent_lab.Common.{ℕ, ℤ, ◌≡◌, refl, String}
use saas_agent_lab.Text.{Text, Unicode}
use saas_agent_lab.Models.{User, Licence, Assignment}
use saas_agent_lab.Api.Requests.{Request, serve}
use saas_agent_lab.Services.Users.{create_user}
use saas_agent_lab.Services.Licences.{create_licence}
use saas_agent_lab.Services.Assignments.{assign_licence, revoke_assignment}
use saas_agent_lab.Services.Assignments.Seats.{IsConsistent}
use saas_agent_lab.Services.Consistency.{serve-StaysConsistent}
use saas_agent_lab.Services.Audit.{
  Recorded, Trail, create_user-Recorded, create_licence-Recorded, assign_licence-Recorded,
  revoke_assignment-Recorded,
}
use saas_agent_lab.Session.{World, ok}
use saas_agent_lab.Session.Triples.{returned}

-- From consistent tables every request, of those that read too, leaves consistent tables, whatever it
-- answers: seats are not oversold, no user has a licence twice, no assignment dangles, and emails and
-- products are unique.
pub serve-IsConsistent :
    (u : Unicode) (request : Request) (w : World)
    → IsConsistent w.db
    → IsConsistent (serve u request w).1.db
serve-IsConsistent u request w h = ((serve-StaysConsistent u request).at w).keep h

module _ (w v : World) (actor : Text) where
  -- A user that is created is recorded with exactly one more audit event, which has the actor as
  -- validated, the action and the id of the new row.
  pub create_user-audit :
      (u : Unicode) (email name : Text) (new : User)
      → create_user u email name actor w ≡ (ok new, v)
      → Recorded w.db.audit_events actor "user.create" new.id v.db
  create_user-audit u email name new e =
      returned (Trail w.db.audit_events) _ _
        (create_user-Recorded w.db.audit_events actor u email name) w v new refl e

  -- A licence that is created is recorded with exactly one more audit event, which has the actor as
  -- validated, the action and the id of the row.
  pub create_licence-audit :
      (product : Text) (seats_total : ℤ) (policy : String) (new : Licence)
      → create_licence product seats_total actor policy w ≡ (ok new, v)
      → Recorded w.db.audit_events actor "licence.create" new.id v.db
  create_licence-audit product seats_total policy new e =
      returned (Trail w.db.audit_events) _ _
        (create_licence-Recorded w.db.audit_events actor product seats_total policy) w v new refl e

  -- An assignment that is made is recorded with exactly one more audit event, which has the actor as
  -- validated, the action and the id of the row.
  pub assign_licence-audit :
      (user_id licence_id : ℕ) (new : Assignment)
      → assign_licence user_id licence_id actor w ≡ (ok new, v)
      → Recorded w.db.audit_events actor "assignment.create" new.id v.db
  assign_licence-audit user_id licence_id new e =
      returned (Trail w.db.audit_events) _ _
        (assign_licence-Recorded w.db.audit_events actor user_id licence_id) w v new refl e

  -- An assignment that is revoked is recorded with exactly one more audit event, which has the actor as
  -- validated, the action and the id of the row.
  pub revoke_assignment-audit :
      (assignment_id : ℕ) (revoked : Assignment)
      → revoke_assignment assignment_id actor w ≡ (ok revoked, v)
      → Recorded w.db.audit_events actor "assignment.revoke" revoked.id v.db
  revoke_assignment-audit assignment_id revoked e =
      returned (Trail w.db.audit_events) _ _
        (revoke_assignment-Recorded w.db.audit_events actor assignment_id) w v revoked refl e
