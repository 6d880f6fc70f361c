-- ===== src/Services/Escapes/Seats.antt =====
-- src/app/services/assignments.py: which exceptions escape from an assignment and a revocation, from consistent
-- tables.
use saas_agent_lab.Common.{◌∙◌, ℕ, ◌≡◌, refl, false}
use saas_agent_lab.Text.{Text}
use saas_agent_lab.Errors.{
  Exc, Problem, invalid_input, user_not_found, user_inactive, licence_not_found,
  assignment_already_exists, no_seats_available, assignment_not_found, assignment_already_revoked,
}
use saas_agent_lab.Repositories.Users as UserRows
use saas_agent_lab.Repositories.Users.{user_key, has_email}
use saas_agent_lab.Repositories.Licences as LicenceRows
use saas_agent_lab.Repositories.Licences.{licence_key, has_product}
use saas_agent_lab.Repositories.Assignments as AssignmentRows
use saas_agent_lab.Repositories.Assignments.{is_active_for, dangling}
use saas_agent_lab.Services.Assignments
use saas_agent_lab.Services.Assignments.Seats.{IsConsistent}
use saas_agent_lab.Session.{Database, ◌>>=◌}
use saas_agent_lab.Session.Raises.{RaisesOnly, raises_rules, raises-raise_error}
use saas_agent_lab.Session.Escapes.{
  RaisesFrom, from-RaisesOnly, from-raise_if, from-utcnow, from-query, from-lift, from-or_raise,
  from-read, from-write, from-try_catch,
}
use saas_agent_lab.Services.Escapes.{
  actor-Allows, found_once, audit_add-RaisesOnly, get_active-reads, IsDuplicate, whole,
}
use saas_agent_lab.Session.Escapes.{from-passed}

get_active-RaisesFrom :
    (E : Exc → Type 0) (user licence : ℕ)
    → RaisesFrom E IsConsistent (AssignmentRows.get_active user licence)
unfolding AssignmentRows.get_active ◌>>=◌
get_active-RaisesFrom E user licence = record {
  at = λ w c. found_once E (is_active_for user licence) w.db.assignments (c.once user licence);
}

abbrev Found : ℕ → ℕ → Database → Type 0
Found user licence d = dangling user licence d ≡ false

-- The insert's foreign keys are of rows that are there.
add_assignment-RaisesFrom :
    (user licence : ℕ)
    → RaisesFrom
        (IsDuplicate "UNIQUE constraint failed: assignments.user_id, assignments.licence_id")
        (Found user licence)
        (AssignmentRows.add user licence)
unfolding AssignmentRows.add
add_assignment-RaisesFrom user licence = from-utcnow _ _ λ assigned_at. from-query _ _ _ λ taken.
    from-raise_if _ _ _ _ refl λ _. from-query _ _ _ λ broken.
      from-passed _ _ _ _ (λ d h. cc (h.0.0, h.1))
        (from-RaisesOnly _ _ (search raises_rules depth 12))

module _ (E : Exc → Type 0) (input : (p : Problem) → E (invalid_input p)) where
  module _ (no_user : (k : ℕ) → E (user_not_found k)) (inactive : (k : ℕ) → E (user_inactive k))
      (no_licence : (k : ℕ) → E (licence_not_found k))
      (exists : (i j : ℕ) → E (assignment_already_exists i j))
      (no_seats : (k : ℕ) → E (no_seats_available k)) where
    conflict-RaisesOnly :
        (i j : ℕ) (e : Exc)
        → IsDuplicate "UNIQUE constraint failed: assignments.user_id, assignments.licence_id" e
        → RaisesOnly E (Assignments.assignment_conflict i j e)
    unfolding Assignments.assignment_conflict AssignmentRows.is_duplicate_active_assignment
    conflict-RaisesOnly i j e h = rw h (raises-raise_error _ (exists i j))

    -- The user and the licence are there, and a seat that is taken is reported by a guard.
    pub assign_licence-RaisesFrom :
        (user licence : ℕ) (a : Text)
        → RaisesFrom E IsConsistent (Assignments.assign_licence user licence a)
    unfolding Assignments.assign_licence UserRows.get LicenceRows.get
        AssignmentRows.count_active_for_licence
    assign_licence-RaisesFrom user licence a = from-lift _ _ _ (actor-Allows E input a) λ actor.
        from-query _ _ _ λ found_user. from-or_raise _ _ _ _ (no_user user) λ x is_x.
          from-raise_if _ _ _ _ (inactive user) λ active. from-query _ _ _ λ found_licence.
            from-or_raise _ _ _ _ (no_licence licence) λ l is_l.
              from-read _ _ _ (get_active-reads user licence)
                (record { at = λ w start. (get_active-RaisesFrom E user licence).at w start.0.0 })
                λ existing. from-raise_if _ _ _ _ (exists user licence) λ _.
                  from-query _ _ _ λ used. from-raise_if _ _ _ _ (no_seats licence) λ _.
                    from-write _ _ _
                      (record {
                        at = λ w start.
                            (from-try_catch _ (conflict-RaisesOnly user licence) _ _
                                (add_assignment-RaisesFrom user licence)).at
                              w
                              (whole w.db user licence x l (start.0.0.1 ∙ is_x) (start.0.1 ∙ is_l));
                      })
                      λ seat. search (raises_rules, audit_add-RaisesOnly)

  -- A revocation raises by its guards alone.
  pub revoke_assignment-RaisesOnly :
      (absent : (k : ℕ) → E (assignment_not_found k))
      (revoked : (k : ℕ) → E (assignment_already_revoked k)) (id : ℕ) (a : Text)
      → RaisesOnly E (Assignments.revoke_assignment id a)
  unfolding Assignments.revoke_assignment AssignmentRows.get AssignmentRows.mark_revoked
  revoke_assignment-RaisesOnly absent revoked id a =
      search (raises_rules, actor-Allows E input, absent, revoked, audit_add-RaisesOnly) depth 24
