-- ===== src/Agent/History/Under.antt =====
-- Steps on one run: `Under (Found k r) m` says that `m` lets every run evolve if it starts where the
-- row of run `k` is `r`. One rule for each thing that a step does between reading and writing it.
use saas_agent_lab.Common.{
  ℕ, ◌≡◌, refl, sym, ◌∙◌, subst, Option, none, some, find, find-key, update, Bool, true, false,
}
use saas_agent_lab.Errors.{Exc, agent_run_not_found}
use saas_agent_lab.Models.{AgentRun}
use saas_agent_lab.Repositories.AgentRuns
use saas_agent_lab.Repositories.AgentRuns.{run_key, count_step}
use saas_agent_lab.Agent.Executor.Runs.{get_run}
use saas_agent_lab.Agent.History.{IsWellFormed, Evolves, RunsEvolve, RunsEvolve-preorder}
use saas_agent_lab.Agent.History.Updates.{same_runs, updated}
use saas_agent_lab.Session.{Database, World, Result, ok, raise, Exec, ⊤, ◌>>=◌, raise_if, or_raise}
use saas_agent_lab.Session.Respects.{Preorder, Respects}

abbrev pub Found : ℕ → AgentRun → Database → Type 0
Found k r d = find run_key k d.agent_runs ≡ some r

pub record Under {A : Type 0} (k : ℕ) (r : AgentRun) (m : Exec A) : Type 0 where
  pub at : (w : World) → Found k r w.db → RunsEvolve w.db (m w).1.db

-- Every run, as a table, is what it was.
pub record SameRuns (d e : Database) : Type 0 where
  pub runs : e.agent_runs ≡ d.agent_runs

pub SameRuns-preorder : Preorder SameRuns
SameRuns-preorder = record {
  same = λ d. record { runs = refl };
  then_ = λ d e f a b. record { runs = b.runs ∙ a.runs };
}

module _ {A : Type 0} where
  pub Respects-of_same : (m : Exec A) → Respects SameRuns m → Respects RunsEvolve m
  Respects-of_same m h = record { at = λ w. same_runs w.db (m w).1.db (h.at w).runs }

  pub Under-of_Respects : (k : ℕ) (r : AgentRun) (m : Exec A) → Respects RunsEvolve m → Under k r m
  Under-of_Respects k r m h = record { at = λ w found. h.at w }

  get_run_found :
      (k : ℕ) (f : AgentRun → Exec A) (w : World) (o : Option AgentRun)
      → find run_key k w.db.agent_runs ≡ o
      → ((r : AgentRun) → Under r.id r (f r))
      → RunsEvolve w.db ((or_raise o (agent_run_not_found k) >>= f) w).1.db
  unfolding ◌>>=◌
  get_run_found k f w none e h = RunsEvolve-preorder.same w.db
  get_run_found k f w (some r) e h = (h r).at w (
      subst (λ j. find run_key j w.db.agent_runs ≡ some r)
        (sym (find-key run_key k w.db.agent_runs r e)) e)

  -- `run = _get_run(log, run_id)`, and the rest of the step.
  pub Respects-get_run :
      (k : ℕ) (f : AgentRun → Exec A)
      → ((r : AgentRun) → Under r.id r (f r))
      → Respects RunsEvolve (get_run k >>= f)
  unfolding get_run AgentRuns.get ◌>>=◌
  Respects-get_run k f h = record {
    at = λ w. get_run_found k f w (find run_key k w.db.agent_runs) refl h;
  }

  -- A guard: the rest runs only if it passes.
  pub Under-raise_if :
      (k : ℕ) (r : AgentRun) (b : Bool) (e : Exc) (f : ⊤ → Exec A)
      → (b ≡ false → Under k r (f tt))
      → Under k r (raise_if b e >>= f)
  unfolding ◌>>=◌
  Under-raise_if k r true e f h = record { at = λ w found. RunsEvolve-preorder.same w.db }
  Under-raise_if k r false e f h = record { at = λ w found. (h refl).at w found }

module _ {A B : Type 0} where
  same_then :
      (k : ℕ) (r : AgentRun) (d : Database) (f : A → Exec B) (o : Result A) (w : World)
      → SameRuns d w.db
      → Found k r d
      → ((a : A) → Under k r (f a))
      → RunsEvolve d (((λ _. (o, w)) >>= f) w).1.db
  unfolding ◌>>=◌
  same_then k r d f (raise e) w same found h = same_runs d w.db same.runs
  same_then k r d f (ok a) w same found h =
      RunsEvolve-preorder.then_ d w.db (f a w).1.db (same_runs d w.db same.runs)
        ((h a).at w (rw same.runs found))

  -- What does not write runs, and the rest of the step.
  pub Under-same :
      (k : ℕ) (r : AgentRun) (m : Exec A) (f : A → Exec B)
      → Respects SameRuns m
      → ((a : A) → Under k r (f a))
      → Under k r (m >>= f)
  unfolding ◌>>=◌
  Under-same k r m f s h = record {
    at = λ w found. let (o, w') = m w in same_then k r w.db f o w' (s.at w) found h;
  }

  Respects-then :
      (d : Database) (f : A → Exec B) (o : Result A) (w : World)
      → RunsEvolve d w.db
      → ((a : A) → Respects RunsEvolve (f a))
      → RunsEvolve d (((λ _. (o, w)) >>= f) w).1.db
  unfolding ◌>>=◌
  Respects-then d f (raise e) w first h = first
  Respects-then d f (ok a) w first h =
      RunsEvolve-preorder.then_ d w.db (f a w).1.db first ((h a).at w)

  -- A write of the run, and what no longer depends on it.
  pub Under-bind :
      (k : ℕ) (r : AgentRun) (m : Exec A) (f : A → Exec B)
      → Under k r m
      → ((a : A) → Respects RunsEvolve (f a))
      → Under k r (m >>= f)
  unfolding ◌>>=◌
  Under-bind k r m f s h = record {
    at = λ w found. let (o, w') = m w in Respects-then w.db f o w' (s.at w found) h;
  }

pub some_eq : (x y : AgentRun) → some x ≡ some y → x ≡ y
some_eq x y h = cc

-- The write: the row that was found becomes `f r`.
pub Under-set :
    (k : ℕ) (r : AgentRun) (f : AgentRun → AgentRun)
    → ((s : AgentRun) → (f s).id ≡ s.id)
    → (IsWellFormed r → Evolves r (f r) × IsWellFormed (f r))
    → Under k r (AgentRuns.set_columns k f)
unfolding AgentRuns.set_columns ◌>>=◌
Under-set k r f keeps_id step = record {
  at = λ w found.
      updated w.db (record w.db { agent_runs = update run_key k f w.db.agent_runs }) k f keeps_id
        refl
        (λ s at_s.
          subst (λ x. IsWellFormed x → Evolves x (f x) × IsWellFormed (f x))
            (some_eq r s (sym found ∙ at_s)) step);
}
