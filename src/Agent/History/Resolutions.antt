-- ===== src/Agent/History/Resolutions.antt =====
-- src/app/agent/executor.py, `resolve_run`, against the order of runs.
use saas_agent_lab.Common.{
  ℕ, ◌≡◌, refl, subst, Option, none, some, Bool, true, false, not, List, [], ◌∷◌, is_some, arith,
}
use saas_agent_lab.Text.{Text, Unicode}
use saas_agent_lab.Errors.{Exc, invalid_input}
use saas_agent_lab.Models.{AgentRun, User, Licence}
use saas_agent_lab.Models.Checks.{goes_with, extraction_outcome_has_no_goal}
use saas_agent_lab.Models.Enums.{AgentRunStatus, GoalType, is_received}
use saas_agent_lab.Agent.Resolver.{
  Resolution, goal, failure, choose, rejected_input, resolve_assignment_goal,
}
use saas_agent_lab.Agent.Executor.Runs.{extracted_text}
use saas_agent_lab.Agent.Executor.Resolution.{
  resolved_to, record_resolution, after_resolver, resolve_run,
}
use saas_agent_lab.Agent.Reads.{current_status-Respects, resolve-Respects}
use saas_agent_lab.Agent.History.{RunsEvolve, RunsEvolve-preorder}
use saas_agent_lab.Agent.History.Under.{
  Under, SameRuns-preorder, Under-of_Respects, Under-raise_if, Under-bind, Under-set,
}
use saas_agent_lab.Agent.History.Rereads.{
  Always, Respects-get_run_at, Under-get_run, Under-transaction, Under-attempt,
}
use saas_agent_lab.Agent.History.Endings.{Under-end_run}
use saas_agent_lab.Agent.History.Moves.{resolved-Step, can_clarify}
use saas_agent_lab.Agent.History.Steps.{fail-evolves}
use saas_agent_lab.Session.{Exec, ok, attempt, or_raise, raise_error, ◌>>=◌, pure}
use saas_agent_lab.Session.Respects.{Respects}
use saas_agent_lab.Session.Triples.{Ensures, ensures-bind, ensures-try_catch, ensures-all}

-- The reasons with which the resolver sends a run back.
abbrev Clarifies : Resolution → Type 0
Clarifies (goal g) = Unit
Clarifies (failure f) =
    (goes_with AgentRunStatus.needs_clarification f.code ≡ true)
    × ((g : Option GoalType) → extraction_outcome_has_no_goal (some f.code) g ≡ true)

choose-Clarifies : (e p : Text) (o : Option User) (ls : List Licence) → Clarifies (choose e p o ls)
unfolding choose
choose-Clarifies e p none ls = (refl, λ g. refl)
choose-Clarifies e p (some user) [] = (refl, λ g. refl)
choose-Clarifies e p (some user) (l ∷ []) = tt
choose-Clarifies e p (some user) (l ∷ m ∷ ls) = (refl, λ g. refl)

rejected-Clarifies : (e : Exc) → Ensures Always (rejected_input e) (λ x _. Clarifies x)
unfolding rejected_input pure raise_error
rejected-Clarifies (invalid_input problem) = record { at = λ w h. (refl, λ g. refl) }
rejected-Clarifies _ = record { at = λ w h. tt }

found-Clarifies :
    (e p : Text) (o : Option User) (ls : List Licence)
    → Ensures Always (pure (choose e p o ls)) (λ x _. Clarifies x)
unfolding pure
found-Clarifies e p o ls = record { at = λ w h. choose-Clarifies e p o ls }

resolve-Clarifies :
    (u : Unicode) (e p : Text) → Ensures Always (resolve_assignment_goal u e p) (λ x _. Clarifies x)
unfolding resolve_assignment_goal
resolve-Clarifies u e p =
    ensures-try_catch Always _ rejected_input (λ x _. Clarifies x)
      (ensures-bind Always _ _ (λ _ _. Unit) (λ x _. Clarifies x)
        (ensures-all Always _ _ (λ a d. tt))
        λ user.
          ensures-bind Always _ _ (λ _ _. Unit) (λ x _. Clarifies x)
            (ensures-all Always _ _ (λ a d. tt)) λ ls. found-Clarifies e p user ls)
      rejected-Clarifies

module _ (r : AgentRun) (received : is_received r.status ≡ true)
    (text : is_some (extracted_text r) ≡ true) where
  record_resolution-Under : (x : Resolution) → Clarifies x → Under r.id r (record_resolution r x)
  unfolding record_resolution
  record_resolution-Under (failure f) (fits, late) =
      Under-end_run r r AgentRunStatus.needs_clarification f.code _ refl
        λ fine open_. can_clarify r f.code received fits (late r.goal_type) fine
  record_resolution-Under (goal g) h =
      Under-set r.id r (resolved_to g) (λ x. refl) (resolved-Step r g received text)

  after-Under : (x : Resolution) → Clarifies x → Under r.id r (after_resolver r.id (ok x))
  unfolding after_resolver
  after-Under x h = Under-transaction r.id r _ (
      Under-get_run r.id r _ (
        Under-bind r.id r _ _ (record_resolution-Under x h)
          λ _. current_status-Respects RunsEvolve-preorder r.id))

  resolved-Under :
      (u : Unicode) (e p : Text)
      → Under r.id r (attempt (resolve_assignment_goal u e p) >>= after_resolver r.id)
  unfolding after_resolver
  resolved-Under u e p =
      Under-attempt r.id r Clarifies (after_resolver r.id) (resolve_assignment_goal u e p)
        (resolve-Respects SameRuns-preorder u e p) (resolve-Clarifies u e p)
        (λ err. Under-of_Respects r.id r _ (fail-evolves r.id _)) after-Under

text_found : (A : Type 0) → (o : Option A) (a : A) → o ≡ some a → is_some o ≡ true
text_found A (some b) a h = refl
text_found A none a h = absurd (cc)

Under-or_raise :
    {A B : Type 0}
    → (k : ℕ) (r : AgentRun) (o : Option A) (e : Exc) (f : A → Exec B)
    → ((a : A) → o ≡ some a → Under k r (f a))
    → Under k r (or_raise o e >>= f)
unfolding ◌>>=◌
Under-or_raise k r none e f h = record { at = λ w found. RunsEvolve-preorder.same w.db }
Under-or_raise k r (some a) e f h = record { at = λ w found. (h a refl).at w found }

not-false : (b : Bool) → not b ≡ false → b ≡ true
not-false b h = ground arith

pub resolve_run-evolves : (u : Unicode) (id : ℕ) → Respects RunsEvolve (resolve_run u id)
unfolding resolve_run
resolve_run-evolves u id = Respects-get_run_at id _ λ r same. Under-raise_if id r _ _ _ λ received.
    Under-or_raise id r (extracted_text r) _ _ λ t is_text.
      subst (λ k. Under k r (attempt (resolve_assignment_goal u t.0 t.1) >>= after_resolver k)) same
        (resolved-Under r (not-false (is_received r.status) received)
          (text_found _ (extracted_text r) t is_text) u t.0 t.1)
