-- ===== src/Repositories/ModelCalls.antt =====
-- src/app/repositories/model_calls.py.
use saas_agent_lab.Common.{any, not, ℕ, Bool, ◌&&◌, ◌==◌, [], ◌∷◌, ◌++◌, count, next_key}
use saas_agent_lab.Errors.{integrity_error}
use saas_agent_lab.Models.{ModelCall}
use saas_agent_lab.Models.Checks.{is_valid_call}
use saas_agent_lab.Models.Enums.{ModelCallStage, same_stage}
use saas_agent_lab.Session.{Exec, pure, query, ◌>>=◌, ◌>>◌, raise_if, execute, utcnow}

abbrev pub model_call_key : ModelCall → ℕ
model_call_key c = c.id

abbrev pub is_in_stage : ℕ → ModelCallStage → ModelCall → Bool
is_in_stage agent_run_id stage c = (c.agent_run_id == agent_run_id) && same_stage c.stage stage

-- The unique constraint on a run and its position.
abbrev pub same_position : ℕ → ℕ → ModelCall → Bool
same_position agent_run_id sequence_no c =
    (c.agent_run_id == agent_run_id) && (c.sequence_no == sequence_no)

-- The key is the database's to choose, and `created_at` has a default: both are set at the flush.
unfoldable pub add : ModelCall → Exec ModelCall
add call = do
  created_at ← utcnow
  raise_if (not (is_valid_call call)) (integrity_error "CHECK constraint failed: model_calls")
  taken ← query (λ d. any (same_position call.agent_run_id call.sequence_no) d.model_calls)
  raise_if taken (
      integrity_error "UNIQUE constraint failed: model_calls.agent_run_id, model_calls.sequence_no")
  id ← query (λ d. next_key model_call_key d.model_calls)
  execute (λ d. record d {
    model_calls = d.model_calls ++ record call { id = id; created_at = created_at } ∷ [];
  })
  pure (record call { id = id; created_at = created_at })

unfoldable pub count_for_stage : ℕ → ModelCallStage → Exec ℕ
count_for_stage agent_run_id stage =
    query (λ d. count (is_in_stage agent_run_id stage) d.model_calls)
