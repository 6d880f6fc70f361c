-- ===== src/Api/AgentRuns/Answered.antt =====
-- src/app/api/agent_runs.py, `get_agent_run`, on the tables that src/app/agent/executor.py leaves.
use saas_agent_lab.Common.{
  ℕ, ◌≤◌, ◌≡◌, refl, ◌⊎◌, Bool, false, Option, none, some, inl, inr, List, [], ◌∷◌, map, where_,
  find, All, All-append, All-find, Bool-cases, arith, ◌==◌, ltb, ◌||◌,
}
use saas_agent_lab.Text.{Text, Unicode}
use saas_agent_lab.Errors.{agent_run_not_found}
use saas_agent_lab.Models.{AgentRun}
use saas_agent_lab.Repositories.AgentRuns
use saas_agent_lab.Repositories.AgentRuns.{
  TraceEntry, model_call, tool_call, run_key, sorted, entries_of, list_trace,
}
use saas_agent_lab.Repositories.AgentRuns.Order.{insert-All}
use saas_agent_lab.Schemas.Agent.{DecisionContext}
use saas_agent_lab.Schemas.AgentRuns.{AgentRunDetail, detail_of}
use saas_agent_lab.Schemas.AgentRuns.Validation.{Validators}
use saas_agent_lab.Schemas.AgentRuns.Views.{IsRecorded, IsReadable, detail_of-Succeeds}
use saas_agent_lab.Agent.Planner.{IntentPlan, DecisionPlan}
use saas_agent_lab.Agent.Plans.{IntentRecords, DecisionRecords}
use saas_agent_lab.Agent.Executor.Lifecycle.{run, get}
use saas_agent_lab.Agent.History.{IsWellFormed}
use saas_agent_lab.Agent.History.Runs.{run-evolves}
use saas_agent_lab.Agent.Shown.{IsShown}
use saas_agent_lab.Agent.Shown.Runs.{RecordsDump, run-StaysShown}
use saas_agent_lab.Api.AgentRuns.{success, error, found, get_agent_run}
use saas_agent_lab.Api.Requests.{id_max, validated_id}
use saas_agent_lab.Session.{Database, World, ok, ◌>>=◌}

module _ {A B : Type 0} (P : B → Type 0) (f : A → B) (p : A → Bool) where
  All-rows : (xs : List A) → All (λ x. P (f x)) xs → All P (map f (where_ p xs))
  All-rows [] h = tt
  All-rows (x ∷ xs) (h, k) = elim (Bool-cases (p x)) [
    | inl hit ↦ rw hit (h, All-rows xs k)
    | inr miss ↦ rw miss (All-rows xs k)
  ]

sorted-All : (P : TraceEntry → Type 0) (es : List TraceEntry) → All P es → All P (sorted es)
unfolding sorted
sorted-All P [] h = tt
sorted-All P (e ∷ es) (h, k) = insert-All P e (sorted es) h (sorted-All P es k)

trace-IsReadable :
    (run_id : ℕ) (d : Database) → IsShown d → All IsReadable (sorted (entries_of run_id d))
trace-IsReadable run_id d h = sorted-All IsReadable (entries_of run_id d) (
    All-append IsReadable _ _
      (All-rows IsReadable model_call (λ c. c.agent_run_id == run_id) d.model_calls h.model_calls)
      (All-rows IsReadable tool_call (λ c. c.agent_run_id == run_id) d.tool_calls h.tool_calls))

in_range : (run_id : ℕ) → 1 ≤ run_id → run_id ≤ id_max → ltb run_id 1 || ltb id_max run_id ≡ false
in_range run_id h k = ground arith

module _ (v : Validators) (run_id : ℕ) (w : World) where
  -- What `get_agent_run` answers: 404 and no write if the run is not there; otherwise 200, with the
  -- view of the run and of its trace in order, and no write.
  abbrev pub Answers : Type 0
  Answers =
      ((find run_key run_id w.db.agent_runs ≡ none)
        × (get_agent_run v run_id w ≡ (ok (error 404 (agent_run_not_found run_id)), w)))
      ⊎ ((row : AgentRun) × (detail : AgentRunDetail) × (find run_key run_id w.db.agent_runs
            ≡ some row)
          × (detail_of v row (sorted (entries_of run_id w.db)) ≡ ok detail)
          × (get_agent_run v run_id w ≡ (ok (success 200 detail), w)))

module _ (v : Validators) (run_id : ℕ) (low : 1 ≤ run_id) (high : run_id ≤ id_max) where
  module _ (w : World) where
    -- A run that is not there is a 404, and nothing is written.
    missing :
        find run_key run_id w.db.agent_runs ≡ none
        → get_agent_run v run_id w ≡ (ok (error 404 (agent_run_not_found run_id)), w)
    unfolding get_agent_run validated_id get AgentRuns.get ◌>>=◌ found
    missing none_there = rw (in_range run_id low high) (rw none_there refl)

    answered :
        (row : AgentRun) (detail : AgentRunDetail)
        → find run_key run_id w.db.agent_runs ≡ some row
        → detail_of v row (sorted (entries_of run_id w.db)) ≡ ok detail
        → get_agent_run v run_id w ≡ (ok (success 200 detail), w)
    unfolding get_agent_run validated_id get AgentRuns.get list_trace ◌>>=◌ found
    answered row detail there shown = rw (in_range run_id low high) (rw there (rw shown refl))

    by_row :
        (o : Option AgentRun)
        → find run_key run_id w.db.agent_runs ≡ o
        → All IsWellFormed w.db.agent_runs
        → IsShown w.db
        → Answers v run_id w
    by_row none e fine h = inl (e, missing e)
    by_row (some row) e fine h =
        let recorded = All-find run_key IsRecorded run_id w.db.agent_runs row h.runs e in
        let formed = All-find run_key IsWellFormed run_id w.db.agent_runs row fine e in
        let (detail, shown) =
          detail_of-Succeeds v row recorded formed.reason_matches (sorted (entries_of run_id w.db))
            (trace-IsReadable run_id w.db h) in
        inr (row, detail, e, shown, answered row detail e shown)

    get_agent_run-Answers : All IsWellFormed w.db.agent_runs → IsShown w.db → Answers v run_id w
    get_agent_run-Answers fine h = by_row (find run_key run_id w.db.agent_runs) refl fine h

  -- After any run, however it went, that started from well-formed rows that can be shown, with planners
  -- that record as outputs only what this program's outputs dump to, `GET` of any id in the path's range
  -- is answered 404 if there is no such run, and 200 with its view otherwise; never with a server error.
  pub started_run-Answers :
      (u : Unicode) (instruction actor : Text) (intent_planner : Text → IntentPlan)
      (decision_planner : DecisionContext → DecisionPlan) (w : World)
      → All IsWellFormed w.db.agent_runs
      → IsShown w.db
      → ((i : Text) → IntentRecords RecordsDump (intent_planner i))
      → ((c : DecisionContext) → DecisionRecords RecordsDump (decision_planner c))
      → Answers v run_id (run u instruction actor intent_planner decision_planner w).1
  started_run-Answers u instruction actor intent_planner decision_planner w fine h intents
        decisions =
      get_agent_run-Answers (run u instruction actor intent_planner decision_planner w).1
        (((run-evolves u instruction actor intent_planner decision_planner).at w).evolve
          fine).checks
        (((run-StaysShown u instruction actor intent_planner decision_planner intents decisions).at
            w).keep
          h)
