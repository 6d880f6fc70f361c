-- ===== src/Repositories/AuditEvents.antt =====
-- src/app/repositories/audit_events.py.
use saas_agent_lab.Common.{ℕ, String, Option, [], ◌∷◌, ◌++◌, next_key}
use saas_agent_lab.Text.{Text}
use saas_agent_lab.Json.{Json}
use saas_agent_lab.Models.{AuditEvent}
use saas_agent_lab.Session.{Exec, pure, query, ◌>>=◌, ◌>>◌, execute, utcnow}

abbrev pub event_key : AuditEvent → ℕ
event_key e = e.id

-- The actor, the action, the entity's type and id, and the snapshots before and after.
unfoldable pub add : Text → String → String → ℕ → Option Json → Option Json → Exec AuditEvent
add actor action entity_type entity_id before after = do
  created_at ← utcnow
  id ← query (λ d. next_key event_key d.audit_events)
  let event : AuditEvent = record {
    id = id;
    actor = actor;
    action = action;
    entity_type = entity_type;
    entity_id = entity_id;
    before = before;
    after = after;
    created_at = created_at;
  }
  execute (λ d. record d { audit_events = d.audit_events ++ event ∷ [] })
  pure event
