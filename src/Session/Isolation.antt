-- ===== src/Session/Isolation.antt =====
-- The two halves of the tables: the application's state, which the services write, and the log of
-- agent runs, which the executor writes.
use saas_agent_lab.Common.{◌≡◌, refl, ◌∙◌}
use saas_agent_lab.Session.{Database, execute}
use saas_agent_lab.Session.Respects.{Preorder, Respects}

pub record SameLog (d e : Database) : Type 0 where
  pub runs : e.agent_runs ≡ d.agent_runs
  pub model_calls : e.model_calls ≡ d.model_calls
  pub tool_calls : e.tool_calls ≡ d.tool_calls

pub record SameBusiness (d e : Database) : Type 0 where
  pub users : e.users ≡ d.users
  pub licences : e.licences ≡ d.licences
  pub assignments : e.assignments ≡ d.assignments
  pub audit_events : e.audit_events ≡ d.audit_events

pub SameLog-preorder : Preorder SameLog
SameLog-preorder = record {
  same = λ d. record { runs = refl; model_calls = refl; tool_calls = refl };
  then_ = λ d e f a b. record {
    runs = b.runs ∙ a.runs;
    model_calls = b.model_calls ∙ a.model_calls;
    tool_calls = b.tool_calls ∙ a.tool_calls;
  };
}

pub SameBusiness-preorder : Preorder SameBusiness
SameBusiness-preorder = record {
  same = λ d. record { users = refl; licences = refl; assignments = refl; audit_events = refl };
  then_ = λ d e f a b. record {
    users = b.users ∙ a.users;
    licences = b.licences ∙ a.licences;
    assignments = b.assignments ∙ a.assignments;
    audit_events = b.audit_events ∙ a.audit_events;
  };
}

pub writes_business :
    (f : Database → Database)
    → ((d : Database) → (f d).agent_runs ≡ d.agent_runs)
    → ((d : Database) → (f d).model_calls ≡ d.model_calls)
    → ((d : Database) → (f d).tool_calls ≡ d.tool_calls)
    → Respects SameLog (execute f)
unfolding execute
writes_business f a b c = record {
  at = λ w. record { runs = a w.db; model_calls = b w.db; tool_calls = c w.db };
}

pub writes_log :
    (f : Database → Database)
    → ((d : Database) → (f d).users ≡ d.users)
    → ((d : Database) → (f d).licences ≡ d.licences)
    → ((d : Database) → (f d).assignments ≡ d.assignments)
    → ((d : Database) → (f d).audit_events ≡ d.audit_events)
    → Respects SameBusiness (execute f)
unfolding execute
writes_log f a b c e = record {
  at = λ w. record {
    users = a w.db;
    licences = b w.db;
    assignments = c w.db;
    audit_events = e w.db;
  };
}
