-- ===== src/Agent/Completion/Verified.antt =====
-- src/app/agent/verifier.py, `verify`, and what a return of `completed` is to mean.
use saas_agent_lab.Common.{
  ℕ, ◌≡◌, refl, ◌∙◌, Bool, true, Option, some, is_some, List, [], ◌∷◌, any, where_, arith,
}
use saas_agent_lab.Models.{AgentRun, Assignment}
use saas_agent_lab.Models.Enums.{AgentRunStatus}
use saas_agent_lab.Repositories.Assignments as AssignmentRows
use saas_agent_lab.Repositories.Assignments.{is_active_for}
use saas_agent_lab.Schemas.Agent.{ResolvedAssignmentGoal, DecisionProposal, VerificationResult}
use saas_agent_lab.Services.Assignments.{get_active_assignment}
use saas_agent_lab.Agent.Verifier.{verify, snapshot?}
use saas_agent_lab.Agent.Decision.Outcomes.{is_completed}
use saas_agent_lab.Agent.Executor.Decide.{verify_proposal}
use saas_agent_lab.Agent.Reads.{claim_check-Respects}
use saas_agent_lab.Agent.History.Under.{Found}
use saas_agent_lab.Agent.Completion.{Assigned}
use saas_agent_lab.Session.{Database, World, pure, lift, ◌>>=◌, one_or_none}
use saas_agent_lab.Session.Respects.{Preorder}
use saas_agent_lab.Session.Triples.{Holds, Ensures, ensures-bind, ensures-read}

pub unchanged : Preorder (λ d e. e ≡ d)
unchanged = record { same = λ d. refl; then_ = λ d e f a b. b ∙ a }

any_of_where :
    (p : Assignment → Bool) (xs : List Assignment) (a : Assignment)
    → where_ p xs ≡ a ∷ []
    → any p xs ≡ true
any_of_where p [] a h = absurd (cc)
any_of_where p (x ∷ xs) a h = ground (arith, any_of_where p xs a)

module _ (goal : ResolvedAssignmentGoal) (P : Database → Type 0) where
  -- What is known with the verifier's result.
  abbrev pub Checked : VerificationResult → Database → Type 0
  Checked result d = P d × (result.satisfied ≡ true → Assigned goal d.assignments)

  abbrev judged : Option Assignment → VerificationResult
  judged active = record {
    satisfied = is_some active;
    evidence = record {
      user_id = goal.user_id;
      licence_id = goal.licence_id;
      active_assignment = snapshot? active;
    };
  }

  checked :
      (w : World) (rows : List Assignment)
      → where_ (is_active_for goal.user_id goal.licence_id) w.db.assignments ≡ rows
      → P w.db
      → Holds Checked
          ((lift (one_or_none rows) >>= λ active. pure (judged active)) w).0
          ((lift (one_or_none rows) >>= λ active. pure (judged active)) w).1
  unfolding ◌>>=◌
  checked w [] e h = (h, λ x. absurd (cc))
  checked w (a ∷ []) e h = (h, λ x. any_of_where _ w.db.assignments a e)
  checked w (a ∷ b ∷ rest) e h = tt

  verify-Checked : Ensures P (verify goal) Checked
  unfolding verify get_active_assignment AssignmentRows.get_active ◌>>=◌
  verify-Checked = record {
    at = λ w h.
        checked w (where_ (is_active_for goal.user_id goal.licence_id) w.db.assignments) refl h;
  }

  pub verify_proposal-Checked :
      (p : DecisionProposal) → Ensures P (verify_proposal goal p) (λ v d. Checked v.0 d)
  unfolding verify_proposal pure
  verify_proposal-Checked p = ensures-bind P _ _ Checked _ verify-Checked λ result.
      ensures-bind (Checked result) _ _ (λ _ d. Checked result d) _
        (ensures-read (Checked result) _ (claim_check-Respects unchanged goal p result.satisfied))
        λ block_check. record { at = λ w h. h }

-- The run and its goal.
abbrev pub Known : ℕ → ResolvedAssignmentGoal → Database → Type 0
Known id goal d =
    (r : AgentRun) × Found id r d
    × (r.id ≡ id)
    × (r.resolved_user_id ≡ some goal.user_id)
    × (r.resolved_licence_id ≡ some goal.licence_id)

-- What a return of `completed` means.
abbrev pub IfCompleted : ℕ → AgentRunStatus → Database → Type 0
IfCompleted id status d =
    is_completed status ≡ true
    → (goal : ResolvedAssignmentGoal) × Known id goal d × Assigned goal d.assignments
