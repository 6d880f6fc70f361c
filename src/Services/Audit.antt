-- ===== src/Services/Audit.antt =====
-- src/app/services against the audit trail.
use saas_agent_lab.Common.{ℕ, ℤ, ◌≡◌, refl, ap, ◌∙◌, String, Option, List, [], ◌∷◌, ◌++◌, next_key}
use saas_agent_lab.Text.{Text, Unicode}
use saas_agent_lab.Json.{Json}
use saas_agent_lab.Models.{Assignment, AuditEvent}
use saas_agent_lab.Models.Enums.{UserStatus, PolicyDecision}
use saas_agent_lab.Repositories.Users as UserRows
use saas_agent_lab.Repositories.Licences as LicenceRows
use saas_agent_lab.Repositories.Assignments as AssignmentRows
use saas_agent_lab.Repositories.AuditEvents
use saas_agent_lab.Repositories.AuditEvents.{event_key}
use saas_agent_lab.Services.Validation.{validated_actor}
use saas_agent_lab.Services.Users
use saas_agent_lab.Services.Licences
use saas_agent_lab.Services.Assignments
use saas_agent_lab.Session.{Database, World, Exec, Result, ok, raise, pure, ◌>>=◌, execute}
use saas_agent_lab.Session.Respects.{Preorder, Respects, respects_rules}
use saas_agent_lab.Session.Triples.{Holds, Ensures, ensures-bind, ensures-lift}

abbrev SameAudit : Database → Database → Type 0
SameAudit d e = e.audit_events ≡ d.audit_events

SameAudit-preorder : Preorder SameAudit
SameAudit-preorder = record { same = λ d. refl; then_ = λ d e f a b. b ∙ a }

writes_rows :
    (f : Database → Database)
    → ((d : Database) → (f d).audit_events ≡ d.audit_events)
    → Respects SameAudit (execute f)
unfolding execute
writes_rows f h = record { at = λ w. h w.db }

ruleset rules = (respects_rules, SameAudit-preorder, writes_rows, refl)

-- One event more than `events`: of the actor as validated, the action and the row.
abbrev pub Recorded : List AuditEvent → Text → String → ℕ → Database → Type 0
Recorded events raw_actor action id d =
    (e : AuditEvent) × (d.audit_events ≡ events ++ e ∷ [])
    × (validated_actor raw_actor ≡ ok e.actor)
    × (e.action ≡ action)
    × (e.entity_id ≡ id)

module _ (events : List AuditEvent) where
  abbrev pub Trail : Database → Type 0
  Trail d = d.audit_events ≡ events

  kept :
      {A : Type 0}
      → (d : Database) (r : Result A) (w : World) → SameAudit d w.db
      → Trail d
      → Holds (λ a e. Trail e) r w
  kept d (ok a) w same h = same ∙ h
  kept d (raise e) w same h = tt

  module _ {A B : Type 0} where
    -- A step that records nothing.
    quiet :
        (m : Exec A) (f : A → Exec B) (S : B → Database → Type 0)
        → Respects SameAudit m
        → ((a : A) → Ensures Trail (f a) S)
        → Ensures Trail (m >>= f) S
    quiet m f S same h =
        ensures-bind Trail m f (λ a e. Trail e) S
          (record { at = λ w start. kept w.db (m w).0 (m w).1 (same.at w) start }) h

  module _ {A : Type 0} (key : A → ℕ) (raw_actor actor : Text)
      (is_actor : validated_actor raw_actor ≡ ok actor) where
    abbrev new_event : World → String → String → A → Option Json → Option Json → AuditEvent
    new_event w entity_type action a before after = record {
      id = next_key event_key w.db.audit_events;
      actor = actor;
      action = action;
      entity_type = entity_type;
      entity_id = key a;
      before = before;
      after = after;
      created_at = w.clock w.readings;
    }

    -- The event, and the return of the row.
    recorded :
        (action entity_type : String) (before after : Option Json) (a : A)
        → Ensures Trail
            (AuditEvents.add actor action entity_type (key a) before after >>= λ _. pure a)
            (λ x d. Recorded events raw_actor action (key x) d)
    unfolding AuditEvents.add ◌>>=◌
    recorded action entity_type before after a = record {
      at = λ w start. (
        new_event w entity_type action a before after,
        ap (λ es. es ++ new_event w entity_type action a before after ∷ []) start,
        is_actor,
        refl,
        refl,
      );
    }

add_user-quiet : (e n : Text) (s : UserStatus) → Respects SameAudit (UserRows.add e n s)
unfolding UserRows.add
add_user-quiet e n s = search rules depth 12

add_licence-quiet :
    (t : Text) (n : ℕ) (d : PolicyDecision) → Respects SameAudit (LicenceRows.add t n d)
unfolding LicenceRows.add
add_licence-quiet t n d = search rules depth 12

add_assignment-quiet : (user k : ℕ) → Respects SameAudit (AssignmentRows.add user k)
unfolding AssignmentRows.add
add_assignment-quiet user k = search rules depth 16

mark_revoked-quiet : (a : Assignment) (t : ℕ) → Respects SameAudit (AssignmentRows.mark_revoked a t)
unfolding AssignmentRows.mark_revoked
mark_revoked-quiet a t = search rules depth 12

module _ (events : List AuditEvent) (raw_actor : Text) where
  -- A user that is created is recorded once, with the id of its row.
  pub create_user-Recorded :
      (u : Unicode) (e n : Text)
      → Ensures
          (Trail events)
          (Users.create_user u e n raw_actor)
          (λ x d. Recorded events raw_actor "user.create" x.id d)
  unfolding Users.create_user Users.email_conflict UserRows.get_by_email
  create_user-Recorded u e n = quiet events _ _ _ (search rules) λ email.
      quiet events _ _ _ (search rules) λ name. ensures-lift (Trail events) _ _ _ λ actor is_actor.
        quiet events _ _ _ (search rules depth 8) λ existing. quiet events _ _ _ (search rules) λ _.
          quiet events _ _ _ (search (rules, add_user-quiet) depth 8)
            λ row. recorded events (λ x. x.id) raw_actor actor is_actor _ _ _ _ row

  pub create_licence-Recorded :
      (t : Text) (n : ℤ) (policy : String)
      → Ensures
          (Trail events)
          (Licences.create_licence t n raw_actor policy)
          (λ x d. Recorded events raw_actor "licence.create" x.id d)
  unfolding Licences.create_licence Licences.product_conflict LicenceRows.get_by_product
  create_licence-Recorded t n policy = quiet events _ _ _ (search rules) λ product.
      quiet events _ _ _ (search rules) λ seats. quiet events _ _ _ (search rules) λ agent_policy.
        ensures-lift (Trail events) _ _ _ λ actor is_actor.
          quiet events _ _ _ (search rules depth 8) λ existing.
            quiet events _ _ _ (search rules) λ _.
              quiet events _ _ _ (search (rules, add_licence-quiet) depth 8)
                λ row. recorded events (λ x. x.id) raw_actor actor is_actor _ _ _ _ row

  pub assign_licence-Recorded :
      (user k : ℕ)
      → Ensures
          (Trail events)
          (Assignments.assign_licence user k raw_actor)
          (λ x d. Recorded events raw_actor "assignment.create" x.id d)
  unfolding Assignments.assign_licence Assignments.assignment_conflict UserRows.get LicenceRows.get
      AssignmentRows.get_active AssignmentRows.count_active_for_licence
  assign_licence-Recorded user k = ensures-lift (Trail events) _ _ _ λ actor is_actor.
      quiet events _ _ _ (search rules) λ found_user. quiet events _ _ _ (search rules) λ u.
        quiet events _ _ _ (search rules) λ _. quiet events _ _ _ (search rules) λ found_licence.
          quiet events _ _ _ (search rules) λ l.
            quiet events _ _ _ (search rules depth 8) λ existing.
              quiet events _ _ _ (search rules) λ _. quiet events _ _ _ (search rules) λ used.
                quiet events _ _ _ (search rules) λ _.
                  quiet events _ _ _ (search (rules, add_assignment-quiet) depth 8)
                    λ row. recorded events (λ x. x.id) raw_actor actor is_actor _ _ _ _ row

  pub revoke_assignment-Recorded :
      (id : ℕ)
      → Ensures
          (Trail events)
          (Assignments.revoke_assignment id raw_actor)
          (λ x d. Recorded events raw_actor "assignment.revoke" x.id d)
  unfolding Assignments.revoke_assignment AssignmentRows.get
  revoke_assignment-Recorded id = ensures-lift (Trail events) _ _ _ λ actor is_actor.
      quiet events _ _ _ (search rules) λ found. quiet events _ _ _ (search rules) λ a.
        quiet events _ _ _ (search rules) λ _. quiet events _ _ _ (search rules) λ t.
          quiet events _ _ _ (search (rules, mark_revoked-quiet) depth 8)
            λ row. recorded events (λ x. x.id) raw_actor actor is_actor _ _ _ _ row
