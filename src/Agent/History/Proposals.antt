-- ===== src/Agent/History/Proposals.antt =====
-- What `_finish_decision` knows after its first transaction, and the whole of it.
use saas_agent_lab.Common.{
  ℕ, ◌≡◌, refl, sym, subst, Option, none, some, true, find, find-update_self, find-key, update,
}
use saas_agent_lab.Errors.{agent_run_not_found}
use saas_agent_lab.Models.{AgentRun}
use saas_agent_lab.Repositories.AgentRuns
use saas_agent_lab.Repositories.AgentRuns.{run_key}
use saas_agent_lab.Repositories.ToolCalls
use saas_agent_lab.Schemas.Agent.{DecisionProposal}
use saas_agent_lab.Agent.Executor.Runs.{get_run}
use saas_agent_lab.Agent.Executor.Decide.{
  verifying_with, Concluded, record_proposal, verify_proposal, after_verification, finish_decision,
}
use saas_agent_lab.Agent.Reads.{persisted_goal-Respects}
use saas_agent_lab.Agent.History.{RunsEvolve, RunsEvolve-preorder}
use saas_agent_lab.Agent.History.Under.{Found, Under, SameRuns, SameRuns-preorder}
use saas_agent_lab.Agent.History.Rereads.{Always}
use saas_agent_lab.Agent.History.Steps.{any_started-SameRuns}
use saas_agent_lab.Session.{
  Database, World, Exec, Result, ok, raise, execute, or_raise, ◌>>=◌, attempt,
}
use saas_agent_lab.Session.Respects.{Respects, respects_rules}
use saas_agent_lab.Session.Triples.{
  Holds, Ensures, ensures-bind, ensures-transaction, ensures-raise_if,
}
use saas_agent_lab.Agent.History.Conclusions.{
  is_verifying, after_verification-Under, record_proposal-evolves,
}

-- What the first transaction leaves: the run is there, and verifying.
abbrev Verifying : ℕ → Database → Type 0
Verifying id d = (r : AgentRun) × Found id r d × (r.id ≡ id) × (is_verifying r.status ≡ true)

module _ {A : Type 0} (id : ℕ) (Q : A → Database → Type 0) where
  row_read :
      (f : AgentRun → Exec A) (w : World) (o : Option AgentRun)
      → find run_key id w.db.agent_runs ≡ o
      → ((r : AgentRun) → r.id ≡ id → Ensures (Found id r) (f r) Q)
      → Holds Q
          ((or_raise o (agent_run_not_found id) >>= f) w).0
          ((or_raise o (agent_run_not_found id) >>= f) w).1
  unfolding ◌>>=◌
  row_read f w none e h = tt
  row_read f w (some r) e h = (h r (find-key run_key id w.db.agent_runs r e)).at w e

  pub ensures-get_run :
      (f : AgentRun → Exec A)
      → ((r : AgentRun) → r.id ≡ id → Ensures (Found id r) (f r) Q)
      → Ensures Always (get_run id >>= f) Q
  unfolding get_run AgentRuns.get ◌>>=◌
  ensures-get_run f h = record {
    at = λ w start. row_read f w (find run_key id w.db.agent_runs) refl h;
  }

  kept :
      (r : AgentRun) (d : Database) (o : Result A) (w : World)
      → SameRuns d w.db
      → Found id r d
      → Holds (λ a e. Found id r e) o w
  kept r d (ok a) w same found = rw same.runs found
  kept r d (raise e) w same found = tt

  kept-Verifying :
      (d : Database) (o : Result A) (w : World)
      → SameRuns d w.db
      → Verifying id d
      → Holds (λ a e. Verifying id e) o w
  kept-Verifying d (ok a) w same (r, found, at_id, verifying) =
      (r, rw same.runs found, at_id, verifying)
  kept-Verifying d (raise e) w same v = tt

module _ {A : Type 0} (id : ℕ) (m : Exec A) (same : Respects SameRuns m) where
  ensures-Found : (r : AgentRun) → Ensures (Found id r) m (λ a d. Found id r d)
  ensures-Found r = record {
    at = λ w found. kept id (λ a d. Unit) r w.db (m w).0 (m w).1 (same.at w) found;
  }

  ensures-Verifying : Ensures (Verifying id) m (λ a d. Verifying id d)
  ensures-Verifying = record {
    at = λ w v. kept-Verifying id (λ a d. Unit) w.db (m w).0 (m w).1 (same.at w) v;
  }

set-Verifying :
    (id : ℕ) (r : AgentRun) (p : DecisionProposal)
    → r.id ≡ id
    → Ensures (Found id r) (AgentRuns.set_columns r.id (verifying_with p)) (λ a d. Verifying id d)
unfolding AgentRuns.set_columns execute
set-Verifying id r p same = record {
  at = λ w found. (
    verifying_with p r,
    subst
        (λ k.
          find run_key id (update run_key k (verifying_with p) w.db.agent_runs)
          ≡ some (verifying_with p r))
        (sym same) (find-update_self run_key id (verifying_with p) w.db.agent_runs r same found),
    same,
    refl,
  );
}

record_proposal-Verifying :
    (id : ℕ) (p : DecisionProposal) → Ensures Always (record_proposal id p) (λ c d. Verifying id d)
unfolding record_proposal ToolCalls.any_succeeded ToolCalls.latest_for_tools
record_proposal-Verifying id p = ensures-transaction Always _ _ (
    ensures-get_run id _ _ λ r same. ensures-raise_if (Found id r) _ _ _ _ λ executing.
      ensures-bind (Found id r) _ _ (λ a d. Found id r d) _
        (ensures-Found id _ (any_started-SameRuns r.id) r)
        λ unfinished. ensures-raise_if (Found id r) _ _ _ _ λ _.
          ensures-bind (Found id r) _ _ (λ a d. Verifying id d) _ (set-Verifying id r p same)
            λ _.
              ensures-Verifying id _
                (search (respects_rules, SameRuns-preorder, persisted_goal-Respects) depth 8))

concluded_then :
    (id : ℕ) (p : DecisionProposal) (d : Database) (o : Result Concluded) (w : World)
    → RunsEvolve d w.db
    → Holds (λ c e. Verifying id e) o w
    → RunsEvolve d
        (((λ _. (o, w)) >>= λ c. attempt (verify_proposal c.goal p) >>= after_verification id p c)
          w).1.db
unfolding ◌>>=◌
concluded_then id p d (raise e) w first h = first
concluded_then id p d (ok c) w first (r, found, same, verifying) =
    RunsEvolve-preorder.then_ d w.db _ first (
      (subst (λ k. Under k r (attempt (verify_proposal c.goal p) >>= after_verification k p c)) same
          (after_verification-Under r verifying p c)).at
        w found)

pub finish_decision-evolves :
    (id : ℕ) (p : DecisionProposal) → Respects RunsEvolve (finish_decision id p)
unfolding finish_decision ◌>>=◌
finish_decision-evolves id p = record {
  at = λ w.
      let (o, w') = record_proposal id p w in
      concluded_then id p w.db o w' ((record_proposal-evolves id p).at w)
        ((record_proposal-Verifying id p).at w tt);
}
