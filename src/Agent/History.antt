-- ===== src/Agent/History.antt =====
-- src/app/models/agent_run.py, the life of a run: which status may follow which, what of a run stays, and
-- the order of databases "every run has evolved".
pub mod Updates
pub mod Under
pub mod Rereads
pub mod Endings
pub mod Moves
pub mod Steps
pub mod Admissions
pub mod Decisions
pub mod Extractions
pub mod Resolutions
pub mod Conclusions
pub mod Proposals
pub mod Runs
use saas_agent_lab.Common.{
  ℕ, ◌+◌, ◌≤◌, ◌≡◌, refl, ◌∙◌, Bool, true, false, not, ◌&&◌, ◌||◌, Option, none, some, is_some,
  is_none, arith, find, All,
}
use saas_agent_lab.Text.{Text}
use saas_agent_lab.Models.{AgentRun}
use saas_agent_lab.Models.Enums.{AgentRunStatus}
use saas_agent_lab.Models.Checks.{RunChecks, is_terminal}
use saas_agent_lab.Repositories.AgentRuns.{run_key}
use saas_agent_lab.Session.{Database}
use saas_agent_lab.Session.Respects.{Preorder}

-- The statuses that may come after a status, in any number of steps of the table of `AgentRunStatus`:
-- nothing leaves `awaiting_approval`.
abbrev pub leads_to : AgentRunStatus → AgentRunStatus → Bool
leads_to AgentRunStatus.received t = true
leads_to AgentRunStatus.resolved AgentRunStatus.received = false
leads_to AgentRunStatus.resolved AgentRunStatus.needs_clarification = false
leads_to AgentRunStatus.resolved t = true
leads_to AgentRunStatus.executing AgentRunStatus.received = false
leads_to AgentRunStatus.executing AgentRunStatus.needs_clarification = false
leads_to AgentRunStatus.executing AgentRunStatus.resolved = false
leads_to AgentRunStatus.executing t = true
leads_to AgentRunStatus.verifying AgentRunStatus.verifying = true
leads_to AgentRunStatus.verifying AgentRunStatus.completed = true
leads_to AgentRunStatus.verifying AgentRunStatus.blocked = true
leads_to AgentRunStatus.verifying AgentRunStatus.failed = true
leads_to AgentRunStatus.awaiting_approval AgentRunStatus.awaiting_approval = true
leads_to AgentRunStatus.completed AgentRunStatus.completed = true
leads_to AgentRunStatus.needs_clarification AgentRunStatus.needs_clarification = true
leads_to AgentRunStatus.blocked AgentRunStatus.blocked = true
leads_to AgentRunStatus.failed AgentRunStatus.failed = true
leads_to _ _ = false

-- What the code can do besides: end a run that is waiting for approval as failed.
abbrev pub is_abandoned : AgentRunStatus → AgentRunStatus → Bool
is_abandoned AgentRunStatus.awaiting_approval AgentRunStatus.failed = true
is_abandoned _ _ = false

abbrev pub can_follow : AgentRunStatus → AgentRunStatus → Bool
can_follow s t = leads_to s t || is_abandoned s t

can_follow_refl : (s : AgentRunStatus) → can_follow s s ≡ true
can_follow_refl AgentRunStatus.received = refl
can_follow_refl _ = refl

can_follow_trans :
    (s t v : AgentRunStatus) → can_follow s t ≡ true → can_follow t v ≡ true → can_follow s v ≡ true
can_follow_trans AgentRunStatus.received t v h k = refl
can_follow_trans _ t v h k = ground arith

-- A run that has been asked to decide, and one whose model has concluded or that has ended.
abbrev pub has_started : AgentRunStatus → Bool
has_started AgentRunStatus.received = false
has_started AgentRunStatus.resolved = false
has_started AgentRunStatus.needs_clarification = false
has_started _ = true

abbrev pub has_concluded : AgentRunStatus → Bool
has_concluded AgentRunStatus.verifying = true
has_concluded AgentRunStatus.completed = true
has_concluded AgentRunStatus.blocked = true
has_concluded AgentRunStatus.failed = true
has_concluded _ = false

abbrev pub is_deciding : AgentRunStatus → Bool
is_deciding AgentRunStatus.executing = true
is_deciding AgentRunStatus.awaiting_approval = true
is_deciding AgentRunStatus.verifying = true
is_deciding _ = false

-- The constraints of the table, and three that it does not state: a context is written when the
-- decision starts, and not before; and a proposal when the model has concluded.
pub record IsWellFormed (r : AgentRun) : Type 0 where
  pub checks : RunChecks r
  pub open checks use *
  pub context_late : is_none r.decision_context || has_started r.status ≡ true
  pub context_told : not (is_deciding r.status) || is_some r.decision_context ≡ true
  pub proposal_late : is_none r.decision_proposal || has_concluded r.status ≡ true

-- A value that is set stays.
abbrev pub Keeps {ℓ} : {A : Type ℓ} → Option A → Option A → Type ℓ
Keeps none new = Unit
Keeps (some a) new = new ≡ some a

Keeps-refl {ℓ} : {A : Type ℓ} (o : Option A) → Keeps o o
Keeps-refl none = tt
Keeps-refl (some a) = refl

Keeps-trans {ℓ} : {A : Type ℓ} (o p q : Option A) → Keeps o p → Keeps p q → Keeps o q
Keeps-trans none p q h k = tt
Keeps-trans (some a) none q h k = cc
Keeps-trans (some a) (some b) q h k = k ∙ h

-- What may happen to a run: its request and its goal stay, its status moves along the table or is
-- abandoned, its trace counter does not fall, and once it has ended only that counter can change.
pub record Evolves (r s : AgentRun) : Type 0 where
  pub same_id : s.id ≡ r.id
  pub same_instruction : s.instruction ≡ r.instruction
  pub same_actor : s.requesting_actor ≡ r.requesting_actor
  pub leads : can_follow r.status s.status ≡ true
  pub keeps_email : Keeps r.extracted_user_email s.extracted_user_email
  pub keeps_product : Keeps r.extracted_product s.extracted_product
  pub keeps_user : Keeps r.resolved_user_id s.resolved_user_id
  pub keeps_licence : Keeps r.resolved_licence_id s.resolved_licence_id
  pub keeps_context : Keeps r.decision_context s.decision_context
  pub counted : r.last_sequence_no ≤ s.last_sequence_no
  pub frozen :
      is_some r.completed_at ≡ true → s ≡ record r { last_sequence_no = s.last_sequence_no }

pub Evolves-refl : (r : AgentRun) → Evolves r r
Evolves-refl r = record {
  same_id = refl;
  same_instruction = refl;
  same_actor = refl;
  leads = can_follow_refl r.status;
  keeps_email = Keeps-refl r.extracted_user_email;
  keeps_product = Keeps-refl r.extracted_product;
  keeps_user = Keeps-refl r.resolved_user_id;
  keeps_licence = Keeps-refl r.resolved_licence_id;
  keeps_context = Keeps-refl r.decision_context;
  counted = omega arith;
  frozen = λ h. refl;
}

frozen_twice :
    (r s t : AgentRun)
    → Evolves r s
    → Evolves s t
    → is_some r.completed_at ≡ true
    → t ≡ record r { last_sequence_no = t.last_sequence_no }
frozen_twice r s t a b h = ground (arith, a.frozen h, b.frozen)

Evolves-trans : (r s t : AgentRun) → Evolves r s → Evolves s t → Evolves r t
Evolves-trans r s t a b = record {
  same_id = b.same_id ∙ a.same_id;
  same_instruction = b.same_instruction ∙ a.same_instruction;
  same_actor = b.same_actor ∙ a.same_actor;
  leads = can_follow_trans r.status s.status t.status a.leads b.leads;
  keeps_email =
      Keeps-trans r.extracted_user_email s.extracted_user_email t.extracted_user_email a.keeps_email
        b.keeps_email;
  keeps_product =
      Keeps-trans r.extracted_product s.extracted_product t.extracted_product a.keeps_product
        b.keeps_product;
  keeps_user =
      Keeps-trans r.resolved_user_id s.resolved_user_id t.resolved_user_id a.keeps_user
        b.keeps_user;
  keeps_licence =
      Keeps-trans r.resolved_licence_id s.resolved_licence_id t.resolved_licence_id a.keeps_licence
        b.keeps_licence;
  keeps_context =
      Keeps-trans r.decision_context s.decision_context t.decision_context a.keeps_context
        b.keeps_context;
  counted = omega (arith, a.counted, b.counted);
  frozen = frozen_twice r s t a b;
}

-- Every row is still well-formed, and every run has evolved.
pub record Evolved (d e : Database) : Type 0 where
  pub checks : All IsWellFormed e.agent_runs
  pub row :
      (k : ℕ) (r : AgentRun)
      → find run_key k d.agent_runs ≡ some r
      → (s : AgentRun) × (find run_key k e.agent_runs ≡ some s) × Evolves r s

-- The same of tables whose rows were well-formed.
pub record RunsEvolve (d e : Database) : Type 0 where
  pub evolve : All IsWellFormed d.agent_runs → Evolved d e

Evolved-trans : (d e f : Database) → Evolved d e → Evolved e f → Evolved d f
Evolved-trans d e f a b = record {
  checks = b.checks;
  row = λ k r found.
      let (s, at_s, rs) = a.row k r found in
      let (t, at_t, st) = b.row k s at_s in (t, at_t, Evolves-trans r s t rs st);
}

pub RunsEvolve-preorder : Preorder RunsEvolve
RunsEvolve-preorder = record {
  same = λ d. record {
    evolve = λ h. record { checks = h; row = λ k r found. (r, found, Evolves-refl r) };
  };
  then_ = λ d e f a b. record {
    evolve = λ h. let ab = a.evolve h in Evolved-trans d e f ab (b.evolve ab.checks);
  };
}
