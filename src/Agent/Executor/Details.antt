-- ===== src/Agent/Executor/Details.antt =====
-- The JSON that `model_dump` writes of the values in a run's outcome detail, and the detail of a
-- call that ended or blocked a run.
use saas_agent_lab.Common.{Option}
use saas_agent_lab.Json.{
  Json, Fields, bool, num, str, text, time, message, obj, field, end, or_null,
}
use saas_agent_lab.Models.{ToolCall}
use saas_agent_lab.Models.Enums.{status_value, claim_value}
use saas_agent_lab.Schemas.Agent.{
  UserSnapshot, LicenceSnapshot, AssignmentSnapshot, ToolError, VerificationResult, BlockCheck,
}

abbrev pub dump_user : UserSnapshot → Json
dump_user u = obj (
    field "user_id" (num u.user_id) (
      field "email" (text u.email)
        (field "name" (text u.name) (field "status" (str (status_value u.status)) end))))

abbrev pub dump_licence : LicenceSnapshot → Json
dump_licence l = obj (
    field "licence_id" (num l.licence_id) (
      field "product" (text l.product) (
        field "seats_total" (num l.seats_total) (
          field "seats_active" (num l.seats_active)
            (field "seats_available" (num l.seats_available) end)))))

abbrev pub dump_assignment : AssignmentSnapshot → Json
dump_assignment a = obj (
    field "assignment_id" (num a.assignment_id) (
      field "user_id" (num a.user_id) (
        field "licence_id" (num a.licence_id) (
          field "active" (bool a.active) (
            field "assigned_at" (time a.assigned_at)
              (field "revoked_at" (or_null time a.revoked_at) end))))))

abbrev pub dump_error : ToolError → Json
dump_error e = obj (
    field "code" (str e.code)
      (field "message" (message e.message) (field "error_type" (or_null str e.error_type) end)))

abbrev pub dump_block_check : BlockCheck → Json
dump_block_check b = obj (
    field "reason" (str (claim_value b.reason)) (
      field "confirmed" (bool b.confirmed) (
        field "user" (or_null dump_user b.user)
          (field "licence" (or_null dump_licence b.licence) end))))

-- `_call_detail`.
unfoldable pub call_detail : ToolCall → Fields
call_detail call = field "tool_call_id" (num call.id) (
    field "sequence_no" (num call.sequence_no)
      (field "tool_name" (str call.tool_name) (field "error" (or_null dump_error call.error) end)))

-- The detail of a verified run: the verifier's result, the rejection and the claim as checked.
unfoldable pub verified_detail : VerificationResult → Option Fields → Option BlockCheck → Fields
verified_detail result rejection block_check = field "satisfied" (bool result.satisfied) (
    field "evidence"
      (obj (
        field "user_id" (num result.evidence.user_id) (
          field "licence_id" (num result.evidence.licence_id) (
            field "active_assignment" (or_null dump_assignment result.evidence.active_assignment)
              end))))
      (field "rejection" (or_null obj rejection)
        (field "block_check" (or_null dump_block_check block_check) end)))
