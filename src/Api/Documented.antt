-- ===== src/Api/Documented.antt =====
-- src/app/api/users.py, licences.py and assignments.py: which exceptions reach the endpoints, and how their
-- `except` clauses answer them.
use saas_agent_lab.Common.{ℕ, ◌≡◌, Bool, true, ◌||◌, ◌==◌}
use saas_agent_lab.Text.{Text}
use saas_agent_lab.Errors.{Exc}
use saas_agent_lab.Services.Users
use saas_agent_lab.Services.Licences
use saas_agent_lab.Services.Assignments
use saas_agent_lab.Repositories.Users as UserRows
use saas_agent_lab.Repositories.Licences as LicenceRows
use saas_agent_lab.Repositories.Assignments as AssignmentRows
use saas_agent_lab.Api.Requests.{Response, success, error}
use saas_agent_lab.Session.{Result, ok, raise}

-- The statuses that the endpoints declare for an error.
abbrev pub is_declared : ℕ → Bool
is_declared code = (code == 404) || ((code == 409) || (code == 422))

-- The request is answered, and not with a server error.
abbrev pub Declared : Result Response → Type 0
Declared (ok (success code body)) = Unit
Declared (ok (error code e)) = is_declared code ≡ true
Declared (raise e) = ⊥

-- Exceptions that an endpoint's clauses give a declared status.
abbrev IsCaught : (Exc → ℕ) → Exc → Type 0
IsCaught status e = is_declared (status e) ≡ true
