-- ===== src/Examples/Seats.antt =====
-- The guarantees on the ledger of seats at concrete states.
use saas_agent_lab.Common.{◌≡◌, refl, some, arith}
use saas_agent_lab.Text.{codes}
use saas_agent_lab.Models.Enums.{UserStatus}
use saas_agent_lab.Api.Requests.{get_actor}
use saas_agent_lab.Api.Granted.{Granted, serve-granted}
use saas_agent_lab.Services.Validation.{validated_actor}
use saas_agent_lab.Services.Assignments.Ledger.{Reaches}
use saas_agent_lab.Services.Assignments.Refinement.{view}
use saas_agent_lab.Agent.Executor.Lifecycle.{run}
use saas_agent_lab.Agent.Refinement.{run-Reaches}
use saas_agent_lab.Session.{ok}
use saas_agent_lab.Examples.{ascii, world}
use saas_agent_lab.Examples.Runs.{asks_for, assigns, instruction}
use saas_agent_lab.Examples.States.{admin}
use saas_agent_lab.Examples.Witnesses.{office, office-IsConsistent}

run-Reaches_example : Reaches (view office.db) (
    view
      (run ascii instruction admin
        (asks_for (codes "ada@example.com") (codes "GitHub"))
        assigns
        office).1.db)
run-Reaches_example =
    run-Reaches ascii instruction admin (asks_for (codes "ada@example.com") (codes "GitHub"))
      assigns office office-IsConsistent

admin_external : get_actor ascii admin ≡ ok admin
unfolding get_actor saas_agent_lab.Text.starts_with saas_agent_lab.Text.casefold
    saas_agent_lab.Text.strip saas_agent_lab.Text.is_space
admin_external = refl

admin_valid : validated_actor admin ≡ ok admin
unfolding validated_actor saas_agent_lab.Text.strip saas_agent_lab.Text.is_space
admin_valid = refl

ada_active : (view world.db).status 1 ≡ some UserStatus.active
unfolding saas_agent_lab.Common.find
ada_active = refl

seats_offered : (view world.db).seats_total 1 ≡ some 2
unfolding saas_agent_lab.Common.find
seats_offered = refl

serve-granted_example : Granted ascii admin 1 1 world
serve-granted_example =
    serve-granted ascii admin 1 1 world admin 2 (omega arith, omega arith)
      (omega arith, omega arith) admin_external admin_valid ada_active seats_offered (omega arith)
      refl
