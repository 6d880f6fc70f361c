-- ===== src/Agent/History/Rereads.antt =====
-- Steps that read the run a second time, or that call what may raise in between.
use saas_agent_lab.Common.{ℕ, ◌≡◌, refl, sym, subst, Option, none, some, find, find-key}
use saas_agent_lab.Errors.{Exc, agent_run_not_found}
use saas_agent_lab.Models.{AgentRun}
use saas_agent_lab.Repositories.AgentRuns
use saas_agent_lab.Repositories.AgentRuns.{run_key, count_step}
use saas_agent_lab.Agent.Executor.Runs.{get_run}
use saas_agent_lab.Agent.History.{RunsEvolve, RunsEvolve-preorder}
use saas_agent_lab.Agent.History.Updates.{same_runs}
use saas_agent_lab.Session.{
  Database, World, Result, ok, raise, Exec, ◌>>=◌, or_raise, transaction, attempt,
}
use saas_agent_lab.Session.Respects.{Respects}
use saas_agent_lab.Session.Triples.{Holds, Ensures}
use saas_agent_lab.Agent.History.Under.{Found, Under, SameRuns, some_eq}

abbrev pub Always : Database → Type 0
Always d = Unit

module _ {A : Type 0} (k : ℕ) where
  found_row :
      (f : AgentRun → Exec A) (w : World) (o : Option AgentRun)
      → find run_key k w.db.agent_runs ≡ o
      → ((r : AgentRun) → r.id ≡ k → Under k r (f r))
      → RunsEvolve w.db ((or_raise o (agent_run_not_found k) >>= f) w).1.db
  unfolding ◌>>=◌
  found_row f w none e h = RunsEvolve-preorder.same w.db
  found_row f w (some r) e h = (h r (find-key run_key k w.db.agent_runs r e)).at w e

  -- The same, where the rest of the step names the run by the id it was asked for.
  pub Respects-get_run_at :
      (f : AgentRun → Exec A)
      → ((r : AgentRun) → r.id ≡ k → Under k r (f r))
      → Respects RunsEvolve (get_run k >>= f)
  unfolding get_run AgentRuns.get ◌>>=◌
  Respects-get_run_at f h = record {
    at = λ w. found_row f w (find run_key k w.db.agent_runs) refl h;
  }

  read_again :
      (r : AgentRun) (f : AgentRun → Exec A) (w : World) (o : Option AgentRun)
      → o ≡ some r
      → Found k r w.db
      → Under k r (f r)
      → RunsEvolve w.db ((or_raise o (agent_run_not_found k) >>= f) w).1.db
  unfolding ◌>>=◌
  read_again r f w none e found h = RunsEvolve-preorder.same w.db
  read_again r f w (some s) e found h =
      subst (λ x. RunsEvolve w.db (f x w).1.db) (some_eq r s (sym e)) (h.at w found)

  -- A second read of the run gives the row that is there.
  pub Under-get_run :
      (r : AgentRun) (f : AgentRun → Exec A) → Under k r (f r) → Under k r (get_run k >>= f)
  unfolding get_run AgentRuns.get ◌>>=◌
  Under-get_run r f h = record {
    at = λ w found. read_again r f w (find run_key k w.db.agent_runs) found found h;
  }

  rolled_back :
      (d : Database) (o : Result A) (w : World)
      → RunsEvolve d w.db
      → RunsEvolve d (transaction (λ _. (o, w)) (record w { db = d })).1.db
  unfolding transaction
  rolled_back d (ok a) w h = h
  rolled_back d (raise e) w h = RunsEvolve-preorder.same d

  pub Under-transaction : (r : AgentRun) (m : Exec A) → Under k r m → Under k r (transaction m)
  unfolding transaction
  Under-transaction r m h = record {
    at = λ w found. let (o, w') = m w in rolled_back w.db o w' (h.at w found);
  }

module _ {A B : Type 0} (k : ℕ) (r : AgentRun) (Q : A → Type 0) (f : Result A → Exec B) where
  handled :
      (d : Database) (o : Result A) (w : World)
      → SameRuns d w.db
      → Found k r d
      → Holds (λ a _. Q a) o w
      → ((e : Exc) → Under k r (f (raise e)))
      → ((a : A) → Q a → Under k r (f (ok a)))
      → RunsEvolve d (((λ _. (ok o, w)) >>= f) w).1.db
  unfolding ◌>>=◌
  handled d (raise e) w same found q on_raise on_ok =
      RunsEvolve-preorder.then_ d w.db (f (raise e) w).1.db (same_runs d w.db same.runs)
        ((on_raise e).at w (rw same.runs found))
  handled d (ok a) w same found q on_raise on_ok =
      RunsEvolve-preorder.then_ d w.db (f (ok a) w).1.db (same_runs d w.db same.runs)
        ((on_ok a q).at w (rw same.runs found))

  -- `try: m … except`, where `m` does not write runs and what it returns is known.
  pub Under-attempt :
      (m : Exec A)
      → Respects SameRuns m
      → Ensures Always m (λ a _. Q a)
      → ((e : Exc) → Under k r (f (raise e)))
      → ((a : A) → Q a → Under k r (f (ok a)))
      → Under k r (attempt m >>= f)
  unfolding ◌>>=◌
  Under-attempt m s q on_raise on_ok = record {
    at =
        λ w found. let (o, w') = m w in handled w.db o w' (s.at w) found (q.at w tt) on_raise on_ok;
  }
