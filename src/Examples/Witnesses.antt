-- ===== src/Examples/Witnesses.antt =====
-- The guarantees at concrete states: their hypotheses can hold.
use saas_agent_lab.Common.{ℕ, pos, ◌≡◌, ◌≢◌, true, none, some, [], find, arith}
use saas_agent_lab.Text.{codes}
use saas_agent_lab.Models.{Licence}
use saas_agent_lab.Services.Validation.Laws.{
  IsStored, required_text-IsStored, validated_external_actor-agent_run_actor,
}
use saas_agent_lab.Services.Validation.Actors.{agent_run_actor-injective}
use saas_agent_lab.Services.Users as Users
use saas_agent_lab.Services.Users.Laws.{IsEmail, email_matches_lem}
use saas_agent_lab.Services.Licences as Licences
use saas_agent_lab.Services.Assignments as Assignments
use saas_agent_lab.Services.Assignments.Seats.{IsConsistent}
use saas_agent_lab.Services.Audit.{Recorded}
use saas_agent_lab.Services.Guarantees.{
  serve-IsConsistent, create_user-audit, create_licence-audit, assign_licence-audit,
  revoke_assignment-audit,
}
use saas_agent_lab.Api.Requests.{Request, create_user, create_licence, create_assignment, serve}
use saas_agent_lab.Session.{World}
use saas_agent_lab.Examples.States.{
  admin, carol, carol_created, slack, slack_created, new_seat, seat_assigned, old_seat,
  seat_revoked, name_stored, admin_external, run_actor,
}
use saas_agent_lab.Examples.{ascii, world}

-- Tables that requests have filled.
abbrev fresh : World
fresh = record {
  db = record {
    users = [];
    licences = [];
    assignments = [];
    audit_events = [];
    agent_runs = [];
    model_calls = [];
    tool_calls = [];
  };
  clock = λ n. n;
  readings = 0;
}

fresh-IsConsistent : IsConsistent fresh.db
unfolding find
fresh-IsConsistent = record {
  seats = λ k l found. absurd (nothing l found);
  once = λ user licence. omega arith;
  known = tt;
  emails = λ e. omega arith;
  products = λ t. omega arith;
}
  where
    nothing : (l : Licence) → none ≡ some l → ⊥
    nothing l h = cc

abbrev hire : Request
hire = create_user (codes "admin") (codes "ada@example.com") (codes "Ada")

abbrev buy : Request
buy = create_licence (codes "admin") (codes "GitHub") (pos 1) "allow"

abbrev pub office : World
office = (serve ascii buy (serve ascii hire fresh).1).1

pub office-IsConsistent : IsConsistent office.db
office-IsConsistent =
    serve-IsConsistent ascii buy _ (serve-IsConsistent ascii hire fresh fresh-IsConsistent)

serve-IsConsistent_example :
    IsConsistent (serve ascii (create_assignment (codes "admin") 1 1) office).1.db
serve-IsConsistent_example =
    serve-IsConsistent ascii (create_assignment (codes "admin") 1 1) office office-IsConsistent

create_user-audit_example :
    Recorded [] admin "user.create" 3
      (Users.create_user ascii (codes " Carol@example.com") (codes "Carol") admin world).1.db
create_user-audit_example =
    create_user-audit world _ admin ascii (codes " Carol@example.com") (codes "Carol") carol
      carol_created

create_licence-audit_example :
    Recorded [] admin "licence.create" 3
      (Licences.create_licence (codes "Slack ") (pos 5) admin "require_approval" world).1.db
create_licence-audit_example =
    create_licence-audit world _ admin (codes "Slack ") (pos 5) "require_approval" slack
      slack_created

assign_licence-audit_example :
    Recorded [] admin "assignment.create" 2 (Assignments.assign_licence 1 1 admin world).1.db
assign_licence-audit_example = assign_licence-audit world _ admin 1 1 new_seat seat_assigned

revoke_assignment-audit_example :
    Recorded [] admin "assignment.revoke" 1 (Assignments.revoke_assignment 1 admin world).1.db
revoke_assignment-audit_example = revoke_assignment-audit world _ admin 1 old_seat seat_revoked

required_text-IsStored_example : IsStored (codes " Ada ") "Name" 200 (codes "Ada")
required_text-IsStored_example =
    required_text-IsStored (codes " Ada ") "Name" 200 (codes "Ada") name_stored

validated_external_actor-agent_run_actor_example : admin ≢ codes "agent:run-7"
validated_external_actor-agent_run_actor_example =
    validated_external_actor-agent_run_actor ascii admin admin 7 (codes "agent:run-7")
      admin_external run_actor

email_matches_lem_example :
    (Users.email_matches (codes "ada@example.com") ≡ true → IsEmail (codes "ada@example.com"))
    × (IsEmail (codes "ada@example.com") → Users.email_matches (codes "ada@example.com") ≡ true)
email_matches_lem_example = email_matches_lem (codes "ada@example.com")

abbrev seventh : ℕ
seventh = 7

agent_run_actor-injective_example : seventh ≡ seventh
agent_run_actor-injective_example =
    agent_run_actor-injective seventh seventh (codes "agent:run-7") run_actor run_actor
