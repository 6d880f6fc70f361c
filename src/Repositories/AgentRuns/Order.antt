-- ===== src/Repositories/AgentRuns/Order.antt =====
-- src/app/repositories/agent_runs.py, `list_trace`, against order and number of its entries.
use saas_agent_lab.Common.{
  ℕ, ◌≤◌, ◌≡◌, refl, Bool, true, false, inl, inr, List, [], ◌∷◌, leb, count, All, arith, Bool-cases,
  map, where_, ◌&&◌, ◌==◌, ◌+◌, ◌∙◌, count-append,
}
use saas_agent_lab.Models.{ModelCall, ToolCall}
use saas_agent_lab.Repositories.AgentRuns.{
  TraceEntry, model_call, tool_call, sequence_no, insert_entry, sorted, entries_of, list_trace,
}
use saas_agent_lab.Session.{World, ok, query}

-- Each position is at most every later one.
abbrev pub Ascending : List TraceEntry → Type 0
Ascending [] = Unit
Ascending (e ∷ es) = All (λ x. sequence_no e ≤ sequence_no x) es × Ascending es

pub insert-All :
    (P : TraceEntry → Type 0) (e : TraceEntry) (es : List TraceEntry)
    → P e
    → All P es
    → All P (insert_entry e es)
unfolding insert_entry
insert-All P e [] h k = (h, tt)
insert-All P e (x ∷ xs) h (px, k) = elim (Bool-cases (leb (sequence_no e) (sequence_no x))) [
  | inl before ↦ rw before (h, (px, k))
  | inr behind ↦ rw behind (px, insert-All P e xs h k)
]

All-above :
    (a b : ℕ) (es : List TraceEntry)
    → a ≤ b
    → All (λ x. b ≤ sequence_no x) es
    → All (λ x. a ≤ sequence_no x) es
All-above a b [] h k = tt
All-above a b (x ∷ xs) h (y, k) = (omega (arith, h, y), All-above a b xs h k)

leb_le : (a b : ℕ) → leb a b ≡ true → a ≤ b
leb_le a b h = ground arith

leb_ge : (a b : ℕ) → leb a b ≡ false → b ≤ a
leb_ge a b h = ground arith

insert-Ascending :
    (e : TraceEntry) (es : List TraceEntry) → Ascending es → Ascending (insert_entry e es)
unfolding insert_entry
insert-Ascending e [] h = (tt, tt)
insert-Ascending e (x ∷ xs) (above, h) = elim (Bool-cases (leb (sequence_no e) (sequence_no x))) [
  | inl before ↦
      let le = leb_le (sequence_no e) (sequence_no x) before in
      rw before ((le, All-above (sequence_no e) (sequence_no x) xs le above), (above, h))
  | inr behind ↦ rw behind (
    insert-All (λ y. sequence_no x ≤ sequence_no y) e xs
        (leb_ge (sequence_no e) (sequence_no x) behind) above,
    insert-Ascending e xs h,
  )
]

sorted-Ascending : (es : List TraceEntry) → Ascending (sorted es)
unfolding sorted
sorted-Ascending [] = tt
sorted-Ascending (e ∷ es) = insert-Ascending e (sorted es) (sorted-Ascending es)

count-insert_entry :
    (p : TraceEntry → Bool) (e : TraceEntry) (es : List TraceEntry)
    → count p (insert_entry e es) ≡ count p (e ∷ es)
unfolding insert_entry
count-insert_entry p e [] = refl
count-insert_entry p e (x ∷ xs) = ground (arith, count-insert_entry p e xs)

count-sorted : (p : TraceEntry → Bool) (es : List TraceEntry) → count p (sorted es) ≡ count p es
unfolding sorted
count-sorted p [] = refl
count-sorted p (e ∷ es) = ground (arith, count-insert_entry p e (sorted es), count-sorted p es)

count-rows :
    {A : Type 0}
    → (p : TraceEntry → Bool) (f : A → TraceEntry) (q : A → Bool) (xs : List A)
    → count p (map f (where_ q xs)) ≡ count (λ x. q x && p (f x)) xs
count-rows p f q [] = refl
count-rows p f q (x ∷ xs) = ground (arith, count-rows p f q xs)

-- The trace of a run is read without a write; its positions ascend; and of every kind of entry it has as
-- many as the two tables have rows of that run: each of the run's model calls and tool calls as often as
-- it is there, and nothing of another run.
pub list_trace-Ascending :
    (run_id : ℕ) (w : World)
    → (es : List TraceEntry) × (list_trace run_id w ≡ (ok es, w))
      × Ascending es
      × ((p : TraceEntry → Bool)
          → count p es
            ≡ count
                (λ (c : ModelCall). (c.agent_run_id == run_id) && p (model_call c))
                w.db.model_calls
              + count
                  (λ (c : ToolCall). (c.agent_run_id == run_id) && p (tool_call c))
                  w.db.tool_calls)
unfolding list_trace query
list_trace-Ascending run_id w = (
  sorted (entries_of run_id w.db),
  refl,
  sorted-Ascending (entries_of run_id w.db),
  λ p.
      count-sorted p (entries_of run_id w.db)
      ∙ (count-append p (map model_call (where_ of_run w.db.model_calls)) _
          ∙ rw (count-rows p model_call of_run w.db.model_calls)
              (rw (count-rows p tool_call of_run_too w.db.tool_calls) refl)),
)
  where
    of_run : ModelCall → Bool
    of_run c = c.agent_run_id == run_id

    of_run_too : ToolCall → Bool
    of_run_too c = c.agent_run_id == run_id
