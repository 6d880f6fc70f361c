-- ===== src/Agent/Tools/Privacy.antt =====
-- src/app/agent/tools.py, `observe`, under a change of ids, texts, times and messages.
use saas_agent_lab.Common.{ℕ, ◌≡◌, refl, none, List, [], ◌∷◌, map, any, ◌==◌}
use saas_agent_lab.Text.{Text}
use saas_agent_lab.Errors.{Message}
use saas_agent_lab.Schemas.Agent.{
  TargetToolName, ResolvedAssignmentGoal, ToolOutput, AssignmentSnapshot, user, licence,
  user_assignments, assignment,
}
use saas_agent_lab.Agent.Tools.Observe.{Outcome, output, error, is_seat_of, observe}

-- Other ids, other texts, other times, and another message: what a change of these makes of an outcome.
pub record Disguise : Type 0 where
  pub row_id : ℕ → ℕ
  pub words : Text → Text
  pub time : ℕ → ℕ
  pub message : Message

module _ (k : Disguise) where
  abbrev pub disguise_goal : ResolvedAssignmentGoal → ResolvedAssignmentGoal
  disguise_goal g = record {
    user_id = k.row_id g.user_id;
    licence_id = k.row_id g.licence_id;
    extracted_user_email = k.words g.extracted_user_email;
    extracted_product = k.words g.extracted_product;
  }

  abbrev pub disguise_assignment : AssignmentSnapshot → AssignmentSnapshot
  disguise_assignment a = record {
    assignment_id = k.row_id a.assignment_id;
    user_id = k.row_id a.user_id;
    licence_id = k.row_id a.licence_id;
    active = a.active;
    assigned_at = k.time a.assigned_at;
    revoked_at = none;
  }

  abbrev pub disguise_output : ToolOutput → ToolOutput
  disguise_output (user u) = user (record {
    user_id = k.row_id u.user_id;
    email = k.words u.email;
    name = k.words u.name;
    status = u.status;
  })
  disguise_output (licence l) = licence (record {
    licence_id = k.row_id l.licence_id;
    product = k.words l.product;
    seats_total = l.seats_total;
    seats_active = l.seats_active;
    seats_available = l.seats_available;
  })
  disguise_output (user_assignments s) =
      user_assignments (record {
        user_id = k.row_id s.user_id;
        assignments = map disguise_assignment s.assignments;
      })
  disguise_output (assignment a) = assignment (disguise_assignment a)

  abbrev pub disguise : Outcome → Outcome
  disguise (output o) = output (disguise_output o)
  disguise (error e) = error (record { code = e.code; message = k.message; error_type = none })

  module _ (distinct : (m n : ℕ) → (k.row_id m == k.row_id n) ≡ (m == n)) where
    same_seats :
        (id : ℕ) (xs : List AssignmentSnapshot)
        → any (is_seat_of (k.row_id id)) (map disguise_assignment xs) ≡ any (is_seat_of id) xs
    same_seats id [] = refl
    same_seats id (a ∷ xs) = rw (distinct a.licence_id id) (rw (same_seats id xs) refl)

    -- The observation of an outcome is the same if row ids are renumbered, distinct ones to distinct
    -- ones, if emails, names, products, times and messages are changed, and if error types are dropped.
    pub observe-disguise :
        (tool : TargetToolName) (goal : ResolvedAssignmentGoal) (outcome : Outcome)
        → observe tool (disguise_goal goal) (disguise outcome) ≡ observe tool goal outcome
    unfolding observe
    observe-disguise tool goal (error e) = refl
    observe-disguise tool goal (output (user u)) = refl
    observe-disguise tool goal (output (licence l)) = refl
    observe-disguise tool goal (output (user_assignments s)) =
        rw (same_seats goal.licence_id s.assignments) refl
    observe-disguise tool goal (output (assignment a)) = refl
