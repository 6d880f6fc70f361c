-- ===== src/Services/Refinement.antt =====
-- src/app/api and the tools of src/app/agent/tools.py against the ledger of seats.
use saas_agent_lab.Common.{
  ℕ, ℤ, suc, ◌≤◌, ◌≡◌, refl, sym, subst, String, true, false, not, Option, none, some, arith, leb,
  count, find, find-key, update, ◌∙◌, is_none, is_some,
}
use saas_agent_lab.Text.{Text, Unicode}
use saas_agent_lab.Errors.{Exc}
use saas_agent_lab.Models.{User, Licence, Assignment}
use saas_agent_lab.Models.Enums.{UserStatus, PolicyDecision, is_active}
use saas_agent_lab.Repositories.Users as UserRows
use saas_agent_lab.Repositories.Licences as LicenceRows
use saas_agent_lab.Repositories.Assignments as AssignmentRows
use saas_agent_lab.Repositories.AuditEvents
use saas_agent_lab.Repositories.Users.{user_key}
use saas_agent_lab.Repositories.Licences.{licence_key}
use saas_agent_lab.Repositories.Assignments.{assignment_key, is_active_of, revoke_at}
use saas_agent_lab.Services.Users
use saas_agent_lab.Services.Licences
use saas_agent_lab.Services.Assignments
use saas_agent_lab.Schemas.Agent.{
  TargetToolName, get_target_user, get_target_licence_capacity, list_target_user_assignments,
  assign_target_licence, ResolvedAssignmentGoal,
}
use saas_agent_lab.Api.Requests.{
  Request, create_user, create_licence, create_assignment, revoke_assignment, list_users,
  list_licences, list_assignments, get_user, get_licence, users_listed, user_answered,
  licences_listed, licence_answered, assignments_listed, serve,
}
use saas_agent_lab.Agent.Tools
use saas_agent_lab.Services.Assignments.Refinement.{Refines, Refines-preorder, same_tables-Refines}
use saas_agent_lab.Services.Assignments.Refinement.Writes.{
  add_user-Refines, add_licence-Refines, add_assignment-Refines, revoke-Refines,
}
use saas_agent_lab.Session.{Database, Exec, execute, try_catch}
use saas_agent_lab.Session.Respects.{
  Preorder, Respects, respects_rules, Respects-pure, Respects-raise_error,
}
use saas_agent_lab.Session.Guarded.{
  From, From-query, From-lift, From-or_raise, From-bind, From-raise_if, From-utcnow, From-try_catch,
  From-execute, From-read, Respects-of_From,
}

abbrev Any : Database → Type 0
Any d = Unit

From-weaken :
    {A : Type 0}
    → (P Q : Database → Type 0) → ((d : Database) → P d → Q d)
    → (m : Exec A) → From Refines Q m
    → From Refines P m
From-weaken P Q f m h = record { at = λ w start. h.at w (f w.db start) }

-- A write of the audit trail.
writes_audit :
    (f : Database → Database)
    → ((d : Database) → (f d).users ≡ d.users)
    → ((d : Database) → (f d).licences ≡ d.licences)
    → ((d : Database) → (f d).assignments ≡ d.assignments)
    → Respects Refines (execute f)
unfolding execute
writes_audit f a b c = record {
  at = λ w. same_tables-Refines w.db (f w.db) (a w.db) (b w.db) (c w.db);
}

ruleset rules = (respects_rules, Refines-preorder, writes_audit, refl)

insert_user-Refines : (e n : Text) (s : UserStatus) → Respects Refines (UserRows.add e n s)
unfolding UserRows.add
insert_user-Refines e n s = Respects-of_From Refines _ (
    From-utcnow Refines-preorder Any _ λ t. From-query Refines-preorder Any _ _ λ taken.
      From-raise_if Refines-preorder _ taken _ _ λ free. From-query Refines-preorder _ _ _ λ id.
        From-bind Refines-preorder _ _ _
          (From-execute Refines-preorder _ _
            λ d known. add_user-Refines d _ (sym known.1) (known.0.1 ∙ free))
          λ _. Respects-pure Refines-preorder _)

create_user-Refines : (u : Unicode) (e n a : Text) → Respects Refines (Users.create_user u e n a)
unfolding Users.create_user UserRows.get_by_email AuditEvents.add
create_user-Refines u e n a = search (rules, insert_user-Refines) depth 20

insert_licence-Refines :
    (t : Text) (n : ℕ) (d : PolicyDecision) → Respects Refines (LicenceRows.add t n d)
unfolding LicenceRows.add
insert_licence-Refines t n d = Respects-of_From Refines _ (
    From-query Refines-preorder Any _ _ λ taken. From-raise_if Refines-preorder _ taken _ _ λ free.
      From-query Refines-preorder _ _ _ λ id.
        From-bind Refines-preorder _ _ _
          (From-execute Refines-preorder _ _
            λ db known. add_licence-Refines db _ (sym known.1) (known.0.1 ∙ free))
          λ _. Respects-pure Refines-preorder _)

create_licence-Refines :
    (t : Text) (n : ℤ) (a : Text) (d : String) → Respects Refines (Licences.create_licence t n a d)
unfolding Licences.create_licence LicenceRows.get_by_product AuditEvents.add
create_licence-Refines t n a d = search (rules, insert_licence-Refines) depth 20

-- What the guards of `revoke_assignment` have established when the row is changed.
abbrev Held : ℕ → Assignment → Database → Type 0
Held id a d = (find assignment_key id d.assignments ≡ some a) × (is_none a.revoked_at ≡ true)

not_revoked : (o : Option ℕ) → is_some o ≡ false → is_none o ≡ true
not_revoked none h = refl
not_revoked (some t) h = absurd (cc)

mark_revoked-Refines :
    (id : ℕ) (a : Assignment) (t : ℕ) → From Refines (Held id a) (AssignmentRows.mark_revoked a t)
unfolding AssignmentRows.mark_revoked
mark_revoked-Refines id a t =
    From-bind Refines-preorder _ _ _
      (From-execute Refines-preorder _ _ λ d held.
        subst (λ k. Refines d (revoked d k))
          (sym (find-key assignment_key id d.assignments a held.0))
          (revoke-Refines d id t a held.0 held.1))
      λ _. Respects-pure Refines-preorder _
  where
    revoked : Database → ℕ → Database
    revoked d k = record d { assignments = update assignment_key k (revoke_at t) d.assignments }

revoke_assignment-Refines :
    (id : ℕ) (a : Text) → Respects Refines (Assignments.revoke_assignment id a)
unfolding Assignments.revoke_assignment AssignmentRows.get AuditEvents.add
revoke_assignment-Refines id a = Respects-of_From Refines _ (
    From-lift Refines-preorder Any _ _ λ actor _. From-query Refines-preorder Any _ _ λ row.
      From-or_raise Refines-preorder _ row _ _ λ held is_held.
        From-raise_if Refines-preorder _ _ _ _ λ not_yet. From-utcnow Refines-preorder _ _ λ t.
          From-bind Refines-preorder _ _ _
            (From-weaken _ _ (λ d h. (h.1 ∙ is_held, not_revoked held.revoked_at not_yet)) _
              (mark_revoked-Refines id held t))
            λ _. search rules depth 10)

-- What the guards of `assign_licence` have established when the row is inserted.
abbrev Free : ℕ → ℕ → User → Licence → Database → Type 0
Free user k u l d =
    (find user_key user d.users ≡ some u)
    × (u.status ≡ UserStatus.active)
    × (find licence_key k d.licences ≡ some l)
    × (suc (count (is_active_of k) d.assignments) ≤ l.seats_total)

of_active : (s : UserStatus) → not (is_active s) ≡ false → s ≡ UserStatus.active
of_active UserStatus.active h = refl
of_active UserStatus.inactive h = absurd (cc)

insert_assignment-Refines :
    (user k : ℕ) (u : User) (l : Licence)
    → From Refines (Free user k u l) (AssignmentRows.add user k)
unfolding AssignmentRows.add
insert_assignment-Refines user k u l = From-utcnow Refines-preorder (Free user k u l) _ λ t.
    From-query Refines-preorder _ _ _ λ taken. From-raise_if Refines-preorder _ taken _ _ λ fresh.
      From-query Refines-preorder _ _ _ λ broken.
        From-raise_if Refines-preorder _ broken _ _ λ whole. From-query Refines-preorder _ _ _ λ id.
          From-bind Refines-preorder _ _ _
            (From-execute Refines-preorder _ _ λ d known.
              let start = known.0.0.0 in
              add_assignment-Refines d _ u l refl start.0 start.1 start.2 start.3
                (known.0.0.1 ∙ fresh) (known.0.1 ∙ whole))
            λ _. Respects-pure Refines-preorder _

seat_free : (total used : ℕ) → leb total used ≡ false → suc used ≤ total
seat_free total used h = ground arith

unchanged : Preorder (λ d e. e ≡ d)
unchanged = record { same = λ d. refl; then_ = λ d e f a b. b ∙ a }

get_active-reads : (user k : ℕ) → Respects (λ d e. e ≡ d) (AssignmentRows.get_active user k)
unfolding AssignmentRows.get_active
get_active-reads user k = search (respects_rules, unchanged) depth 8

conflict-Refines :
    (user k : ℕ) (e : Exc) → Respects Refines (Assignments.assignment_conflict user k e)
unfolding Assignments.assignment_conflict
conflict-Refines user k e = Respects-raise_error Refines-preorder _

insert-Refines :
    (user k : ℕ) (u : User) (l : Licence)
    → From Refines
        (Free user k u l)
        (try_catch (AssignmentRows.add user k) (Assignments.assignment_conflict user k))
insert-Refines user k u l =
    From-try_catch Refines-preorder _ (AssignmentRows.add user k)
      (Assignments.assignment_conflict user k) (insert_assignment-Refines user k u l)
      (conflict-Refines user k)

assign_licence-Refines :
    (user k : ℕ) (a : Text) → Respects Refines (Assignments.assign_licence user k a)
unfolding Assignments.assign_licence UserRows.get LicenceRows.get AuditEvents.add
    AssignmentRows.count_active_for_licence
assign_licence-Refines user k a = Respects-of_From Refines _ (
    From-lift Refines-preorder Any _ _ λ actor _. From-query Refines-preorder Any _ _ λ row.
      From-or_raise Refines-preorder _ row _ _ λ u is_u.
        From-raise_if Refines-preorder _ _ _ _ λ active. From-query Refines-preorder _ _ _ λ found.
          From-or_raise Refines-preorder _ found _ _ λ l is_l.
            From-read Refines-preorder _ _ _ (get_active-reads user k) λ existing.
              From-raise_if Refines-preorder _ _ _ _ λ _. From-query Refines-preorder _ _ _ λ used.
                From-raise_if Refines-preorder _ _ _ _ λ free.
                  From-bind Refines-preorder _ _ _
                    (From-weaken _ _
                      (λ d h. (
                        h.0.0.1 ∙ is_u,
                        of_active u.status active,
                        h.0.1 ∙ is_l,
                        rw h.1 (seat_free l.seats_total used free),
                      ))
                      _ (insert-Refines user k u l))
                    λ new. search rules depth 10)

-- Serving a request is steps of the ledger, whatever it answers.
pub serve-Refines : (u : Unicode) (request : Request) → Respects Refines (serve u request)
unfolding serve users_listed user_answered licences_listed licence_answered assignments_listed
    Users.list_users UserRows.list_all Users.get_user UserRows.get Licences.list_licences
    LicenceRows.list_all Licences.get_licence LicenceRows.get Assignments.list_active_assignments
    AssignmentRows.list_active
serve-Refines u (create_user x e n) = search (rules, create_user-Refines) depth 12
serve-Refines u (create_licence x t n d) = search (rules, create_licence-Refines) depth 12
serve-Refines u (create_assignment x user k) = search (rules, assign_licence-Refines) depth 12
serve-Refines u (revoke_assignment x id) = search (rules, revoke_assignment-Refines) depth 12
serve-Refines u list_users = search rules depth 12
serve-Refines u list_licences = search rules depth 12
serve-Refines u list_assignments = search rules depth 12
serve-Refines u (get_user id) = search rules depth 12
serve-Refines u (get_licence id) = search rules depth 12

pub run_tool-Refines :
    (tool : TargetToolName) (goal : ResolvedAssignmentGoal) (actor : Text)
    → Respects Refines (Tools.run tool goal actor)
unfolding Tools.run Users.get_user UserRows.get Assignments.get_seat_usage LicenceRows.get
    AssignmentRows.count_active_for_licence Assignments.list_assignments_for_user
    AssignmentRows.list_for_user
run_tool-Refines get_target_user goal actor = search rules depth 12
run_tool-Refines get_target_licence_capacity goal actor = search rules depth 12
run_tool-Refines list_target_user_assignments goal actor = search rules depth 12
run_tool-Refines assign_target_licence goal actor = search (rules, assign_licence-Refines) depth 12
