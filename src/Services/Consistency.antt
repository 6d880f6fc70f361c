-- ===== src/Services/Consistency.antt =====
-- src/app/api and the tools of src/app/agent/tools.py against the consistency of the tables.
use saas_agent_lab.Text.{Text, Unicode}
use saas_agent_lab.Schemas.Agent.{TargetToolName, ResolvedAssignmentGoal}
use saas_agent_lab.Api.Requests.{Request, serve}
use saas_agent_lab.Agent.Tools
use saas_agent_lab.Services.Assignments.Seats.{StaysConsistent}
use saas_agent_lab.Services.Assignments.Refinement.{Refines}
use saas_agent_lab.Services.Refinement.{serve-Refines, run_tool-Refines}
use saas_agent_lab.Session.{Exec}
use saas_agent_lab.Session.Respects.{Respects}

keeps : {A : Type 0} → (m : Exec A) → Respects Refines m → Respects StaysConsistent m
keeps m h = record { at = λ w. record { keep = (h.at w).keep } }

-- Serving a request keeps the tables consistent, whatever it answers.
pub serve-StaysConsistent :
    (u : Unicode) (request : Request) → Respects StaysConsistent (serve u request)
serve-StaysConsistent u request = keeps (serve u request) (serve-Refines u request)

pub run_tool-StaysConsistent :
    (tool : TargetToolName) (goal : ResolvedAssignmentGoal) (actor : Text)
    → Respects StaysConsistent (Tools.run tool goal actor)
run_tool-StaysConsistent tool goal actor =
    keeps (Tools.run tool goal actor) (run_tool-Refines tool goal actor)
