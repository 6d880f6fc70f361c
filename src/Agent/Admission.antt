-- ===== src/Agent/Admission.antt =====
-- src/app/agent/executor.py, `_start_call`: what is known when it admits a call.
use saas_agent_lab.Common.{
  ℕ, suc, ◌≤◌, ◌≡◌, refl, subst, true, false, Option, none, some, leb, count, find, count-insert,
  arith, inl, inr, Bool-cases, if◌then◌else◌, ◌==◌, ◌&&◌, ◌++◌, ◌∷◌, [],
}
use saas_agent_lab.Errors.{licence_not_found}
use saas_agent_lab.Models.{AgentRun, ToolCall, Licence}
use saas_agent_lab.Models.Enums.{PolicyDecision}
use saas_agent_lab.Repositories.Licences as LicenceRows
use saas_agent_lab.Repositories.Licences.{licence_key}
use saas_agent_lab.Repositories.ToolCalls
use saas_agent_lab.Repositories.ToolCalls.{is_call_of}
use saas_agent_lab.Schemas.Agent.{
  TargetToolName, get_target_user, get_target_licence_capacity, list_target_user_assignments,
  assign_target_licence, ResolvedAssignmentGoal,
}
use saas_agent_lab.Services.Licences.{get_licence}
use saas_agent_lab.Agent.Policy.{evaluate}
use saas_agent_lab.Agent.Tools.{is_mutation, recorded_name}
use saas_agent_lab.Agent.Executor.Admission.{
  Limit, limit_of, kind_of, exceeded_limit, Admitted, by_policy, admit, start_call_transaction,
}
use saas_agent_lab.Agent.History.Under.{Found}
use saas_agent_lab.Agent.History.Rereads.{Always}
use saas_agent_lab.Agent.History.Proposals.{ensures-get_run}
use saas_agent_lab.Agent.Completion.Verified.{unchanged}
use saas_agent_lab.Session.Respects.{respects_rules}
use saas_agent_lab.Session.{execute, Database, World, Exec, pure, ◌>>=◌, or_raise}
use saas_agent_lab.Session.Triples.{
  Holds, Ensures, ensures-read, ensures-bind, ensures-transaction, ensures-raise_if, ensures-all,
}

-- The licence's policy, as committed.
abbrev pub HasPolicy : ResolvedAssignmentGoal → PolicyDecision → Database → Type 0
HasPolicy goal policy d =
    (l : Licence) × (find licence_key goal.licence_id d.licences ≡ some l)
    × (l.agent_policy ≡ policy)

abbrev pub Admits : ℕ → TargetToolName → Option Admitted → Database → Type 0
Admits id tool none d = Unit
Admits id tool (some (call_id, goal)) d =
    (count (is_call_of id (kind_of tool)) d.tool_calls ≤ (limit_of tool).1)
    × (is_mutation tool ≡ true → HasPolicy goal PolicyDecision.allow d)

-- Room for one more call of the tool's kind.
abbrev Room : ℕ → TargetToolName → Database → Type 0
Room id tool d = suc (count (is_call_of id (kind_of tool)) d.tool_calls) ≤ (limit_of tool).1

abbrev IfRoom : ℕ → TargetToolName → Option Limit → Database → Type 0
IfRoom id tool none d = Room id tool d
IfRoom id tool (some l) d = Unit

abbrev Decided : TargetToolName → ResolvedAssignmentGoal → Option PolicyDecision → Database → Type 0
Decided tool goal none d = is_mutation tool ≡ false
Decided tool goal (some policy) d = HasPolicy goal policy d

not_full : (maximum n : ℕ) → leb maximum n ≡ false → suc n ≤ maximum
not_full maximum n h = ground arith

room_if :
    (id : ℕ) (tool : TargetToolName) (d : Database)
    → IfRoom id tool
        (if leb (limit_of tool).1 (count (is_call_of id (kind_of tool)) d.tool_calls)
          then some (limit_of tool)
          else none)
        d
room_if id tool d =
    elim (Bool-cases (leb (limit_of tool).1 (count (is_call_of id (kind_of tool)) d.tool_calls))) [
      | inl full ↦ rw full tt
      | inr free ↦ rw free (not_full (limit_of tool).1 _ free)
    ]

exceeded_limit-Room :
    (id : ℕ) (tool : TargetToolName)
    → Ensures Always (exceeded_limit id tool) (λ x d. IfRoom id tool x d)
unfolding exceeded_limit ToolCalls.count_for_tools ◌>>=◌
exceeded_limit-Room id tool = record { at = λ w start. room_if id tool w.db }

module _ (id : ℕ) (tool : TargetToolName) (goal : ResolvedAssignmentGoal) where
  abbrev Judged : Option PolicyDecision → Database → Type 0
  Judged policy d = Room id tool d × Decided tool goal policy d

evaluate-Judged :
    (id : ℕ) (tool : TargetToolName) (goal : ResolvedAssignmentGoal)
    → Ensures (Room id tool) (evaluate tool goal) (Judged id tool goal)
unfolding evaluate get_licence LicenceRows.get ◌>>=◌
evaluate-Judged id assign_target_licence goal = record {
  at = λ w room. judged w room (find licence_key goal.licence_id w.db.licences) refl;
}
  where
    judged :
        (w : World)
        → Room id assign_target_licence w.db
        → (o : Option Licence) → find licence_key goal.licence_id w.db.licences ≡ o
        → Holds
            (Judged id assign_target_licence goal)
            ((or_raise o (licence_not_found goal.licence_id) >>= λ l. pure (some l.agent_policy))
              w).0
            ((or_raise o (licence_not_found goal.licence_id) >>= λ l. pure (some l.agent_policy))
              w).1
    judged w room none e = tt
    judged w room (some l) e = (room, (l, e, refl))
evaluate-Judged id get_target_user goal = record { at = λ w room. (room, refl) }
evaluate-Judged id get_target_licence_capacity goal = record { at = λ w room. (room, refl) }
evaluate-Judged id list_target_user_assignments goal = record { at = λ w room. (room, refl) }

in_kind :
    (id n : ℕ) (tool : TargetToolName)
    → (n ≡ id)
    → (n == id) && kind_of tool (recorded_name tool) ≡ true
in_kind id n get_target_user h = ground arith
in_kind id n get_target_licence_capacity h = ground arith
in_kind id n list_target_user_assignments h = ground arith
in_kind id n assign_target_licence h = ground arith

allowed :
    (tool : TargetToolName) (goal : ResolvedAssignmentGoal) (d : Database)
    → Decided tool goal none d
    → is_mutation tool ≡ true
    → HasPolicy goal PolicyDecision.allow d
allowed tool goal d h k = absurd (cc)

none-Admits : (id : ℕ) (tool : TargetToolName) → Ensures Always (pure none) (Admits id tool)
unfolding pure
none-Admits id tool = record { at = λ w h. tt }

module _ (r : AgentRun) (tool : TargetToolName) (goal : ResolvedAssignmentGoal) (call : ToolCall)
    (of_run : call.agent_run_id ≡ r.id) (named : call.tool_name ≡ recorded_name tool) where
  counted :
      (d : Database) (new : ToolCall)
      → new.agent_run_id ≡ call.agent_run_id
      → new.tool_name ≡ call.tool_name
      → Room r.id tool d
      → count (is_call_of r.id (kind_of tool)) (d.tool_calls ++ new ∷ []) ≤ (limit_of tool).1
  counted d new e f room =
      rw
        (count-insert (is_call_of r.id (kind_of tool)) d.tool_calls new
          (rw e (rw of_run (rw f (rw named (in_kind r.id r.id tool refl))))))
        room

  module _ (policy : Option PolicyDecision)
      (allowed_ : (d : Database)
        → Decided tool goal policy d
        → is_mutation tool ≡ true
        → HasPolicy goal PolicyDecision.allow d) where
    abbrev Start : Database → Type 0
    Start d = Judged r.id tool goal policy d

    inserted-Admits :
        (id : ℕ) (t : ℕ)
        → Ensures Start
            (execute (λ d. record d {
              tool_calls = d.tool_calls ++ record call { id = id; created_at = t } ∷ [];
            }))
            (λ _ d. Admits r.id tool (some (id, goal)) d)
    unfolding execute
    inserted-Admits id t = record {
      at = λ w judged. (
        counted w.db (record call { id = id; created_at = t }) refl refl judged.0,
        allowed_ w.db judged.1,
      );
    }

    add-Admits :
        Ensures Start (ToolCalls.add call) (λ added d. Admits r.id tool (some (added.id, goal)) d)
    unfolding ToolCalls.add pure
    add-Admits =
        ensures-bind Start _ _ (λ _ d. Start d) _
          (ensures-read Start _ (search (respects_rules, unchanged)))
          λ t.
            ensures-bind Start _ _ (λ _ d. Start d) _
              (ensures-read Start _ (search (respects_rules, unchanged)))
              λ taken. ensures-raise_if Start taken _ _ _ λ _.
                ensures-bind Start _ _ (λ _ d. Start d) _
                  (ensures-read Start _ (search (respects_rules, unchanged)))
                  λ id.
                    ensures-bind Start _ _ (λ _ d. Admits r.id tool (some (id, goal)) d) _
                      (inserted-Admits id t) λ _. record { at = λ w h. h }

    added-Admits :
        Ensures Start
          (ToolCalls.add call >>= λ added. pure (some (added.id, goal)))
          (Admits r.id tool)
    unfolding pure
    added-Admits =
        ensures-bind Start _ _ (λ added d. Admits r.id tool (some (added.id, goal)) d) _ add-Admits
          λ added. record { at = λ w h. h }

  by_policy-Admits :
      (policy : Option PolicyDecision)
      → Ensures (Judged r.id tool goal policy) (by_policy r goal call policy) (Admits r.id tool)
  unfolding by_policy
  by_policy-Admits (some PolicyDecision.deny) =
      ensures-bind _ _ _ (λ _ _. Unit) _ (ensures-all _ _ _ (λ a d. tt)) λ _. none-Admits r.id tool
  by_policy-Admits (some PolicyDecision.require_approval) =
      ensures-bind _ _ _ (λ _ _. Unit) _ (ensures-all _ _ _ (λ a d. tt)) λ _. none-Admits r.id tool
  by_policy-Admits (some PolicyDecision.allow) =
      added-Admits (some PolicyDecision.allow) (λ d policy _. policy)
  by_policy-Admits none = added-Admits none (allowed tool goal)

-- A step of which nothing need be known.
step :
    {A B : Type 0}
    → (m : Exec A) (f : A → Exec B) (Q : B → Database → Type 0) → ((a : A) → Ensures Always (f a) Q)
    → Ensures Always (m >>= f) Q
step m f Q h = ensures-bind Always m f (λ _ _. Unit) Q (ensures-all Always m _ (λ a d. tt)) h

admit-Admits :
    (r : AgentRun) (tool : TargetToolName) (goal : ResolvedAssignmentGoal) (call : ToolCall)
    (exceeded : Option Limit)
    → call.agent_run_id ≡ r.id
    → call.tool_name ≡ recorded_name tool
    → Ensures (IfRoom r.id tool exceeded) (admit r tool goal call exceeded) (Admits r.id tool)
unfolding admit
admit-Admits r tool goal call (some l) of_run named =
    ensures-bind _ _ _ (λ _ _. Unit) _ (ensures-all _ _ _ (λ a d. tt)) λ _. none-Admits r.id tool
admit-Admits r tool goal call none of_run named =
    ensures-bind _ _ _ (Judged r.id tool goal) _ (evaluate-Judged r.id tool goal)
      λ policy. by_policy-Admits r tool goal _ of_run named policy

renamed :
    (tool : TargetToolName) (P : Database → Type 0) (m : Exec (Option Admitted)) (k id : ℕ)
    → k ≡ id
    → Ensures Always m (Admits k tool)
    → Ensures P m (Admits id tool)
renamed tool P m k id same h = record {
  at = λ w start. subst (λ j. Holds (Admits j tool) (m w).0 (m w).1) same (h.at w tt);
}

-- A call that is admitted is within its kind's limit, itself counted among the calls that the run has
-- recorded; and if it is the tool that assigns, its licence's policy is `allow`.
pub start_call-Admits :
    (id : ℕ) (tool : TargetToolName)
    → Ensures Always (start_call_transaction id tool) (Admits id tool)
unfolding start_call_transaction
start_call-Admits id tool = ensures-transaction Always _ _ (
    ensures-get_run id _ _ λ r same. renamed tool (Found id r) _ r.id id same (
      ensures-raise_if Always _ _ _ _ λ _. step _ _ _ λ unfinished.
        ensures-raise_if Always _ _ _ _ λ _. step _ _ _ λ goal. step _ _ _ λ n.
          ensures-bind Always _ _ (IfRoom r.id tool) _ (exceeded_limit-Room r.id tool)
            λ exceeded. admit-Admits r tool goal _ exceeded refl refl))
