-- ===== src/Api/Requests.antt =====
-- src/app/api: the endpoints of users, licences and assignments, and src/app/api/deps.py. The texts and
-- numbers of a body have been validated by its pydantic model before its handler runs, and the ids that
-- are declared as `EntityId` are validated here. An id is a natural number: an integer that is negative is
-- of no row.
use saas_agent_lab.Common.{ℕ, ℤ, String, List, ltb, length, ◌||◌, if◌then◌else◌}
use saas_agent_lab.Text.{Text, Unicode, is_empty}
use saas_agent_lab.Errors.{
  Exc, invalid_input, email_already_exists, user_not_found, product_already_exists,
  licence_not_found, user_inactive, assignment_already_exists, no_seats_available,
  assignment_not_found, assignment_already_revoked, request_validation_error,
}
use saas_agent_lab.Models.{User, Licence, Assignment}
use saas_agent_lab.Services.Users
use saas_agent_lab.Services.Licences
use saas_agent_lab.Services.Assignments
use saas_agent_lab.Services.Validation.{reject_reserved_actor, actor_max_length}
use saas_agent_lab.Session.{
  Result, ok, raise, Exec, pure, lift, ◌>>=◌, attempt, transaction, and_then,
}

-- A request: one that changes users, licences or assignments has its `X-Actor` header and its body or
-- path, one that reads has its path.
pub data Request : Type 0 where
  create_user : Text → Text → Text → Request
  create_licence : Text → Text → ℤ → String → Request
  create_assignment : Text → ℕ → ℕ → Request
  revoke_assignment : Text → ℕ → Request
  list_users list_licences list_assignments : Request
  get_user get_licence : ℕ → Request

-- `get_actor`: the header's own bounds, then the reserved namespace.
unfoldable pub get_actor : Unicode → Text → Result Text
unfolding reject_reserved_actor and_then
get_actor u x_actor =
    if is_empty x_actor || ltb actor_max_length (length x_actor)
    then raise request_validation_error
    else and_then (reject_reserved_actor u x_actor) (λ _. ok x_actor)

-- The largest id that a path may have.
abbrev pub id_max : ℕ
id_max = 2_147_483_647

unfoldable pub validated_id : ℕ → Result ℕ
validated_id id = if ltb id 1 || ltb id_max id then raise request_validation_error else ok id

pub data Body : Type 0 where
  user : User → Body
  licence : Licence → Body
  assignment : Assignment → Body
  users : List User → Body
  licences : List Licence → Body
  assignments : List Assignment → Body

-- A status code, with the row returned or the exception that was raised.
pub data Response : Type 0 where
  success : ℕ → Body → Response
  error : ℕ → Exc → Response

-- What FastAPI and each endpoint's `except` clauses make of an exception. Input rules and declared
-- bounds are 422 everywhere; what no clause names is a server error.
abbrev pub status_otherwise : Exc → ℕ
status_otherwise (invalid_input _) = 422
status_otherwise request_validation_error = 422
status_otherwise _ = 500

abbrev pub create_user_status : Exc → ℕ
create_user_status (email_already_exists _) = 409
create_user_status e = status_otherwise e

abbrev pub create_licence_status : Exc → ℕ
create_licence_status (product_already_exists _) = 409
create_licence_status e = status_otherwise e

abbrev pub create_assignment_status : Exc → ℕ
create_assignment_status (user_not_found _) = 404
create_assignment_status (licence_not_found _) = 404
create_assignment_status (user_inactive _) = 409
create_assignment_status (assignment_already_exists _ _) = 409
create_assignment_status (no_seats_available _) = 409
create_assignment_status e = status_otherwise e

abbrev pub revoke_assignment_status : Exc → ℕ
revoke_assignment_status (assignment_not_found _) = 404
revoke_assignment_status (assignment_already_revoked _) = 409
revoke_assignment_status e = status_otherwise e

-- The endpoints that read have at most one `except` clause.
abbrev pub server_error : Exc → ℕ
server_error e = 500

abbrev pub get_user_status : Exc → ℕ
get_user_status (user_not_found _) = 404
get_user_status e = 500

abbrev pub get_licence_status : Exc → ℕ
get_licence_status (licence_not_found _) = 404
get_licence_status e = 500

abbrev pub respond : {A : Type 0} → ℕ → (A → Body) → (Exc → ℕ) → Result A → Response
respond code body status (ok a) = success code (body a)
respond code body status (raise e) = error (status e) e

-- `get_transaction` around an endpoint, and its response.
unfoldable pub endpoint : {A : Type 0} → ℕ → (A → Body) → (Exc → ℕ) → Exec A → Exec Response
endpoint code body status m = do r ← attempt (transaction m); pure (respond code body status r)

unfoldable pub users_listed : Exec Response
unfolding endpoint
users_listed = endpoint 200 users server_error Users.list_users

unfoldable pub user_answered : ℕ → Exec Response
unfolding endpoint
user_answered user_id = endpoint 200 user get_user_status (Users.get_user user_id)

unfoldable pub licences_listed : Exec Response
unfolding endpoint
licences_listed = endpoint 200 licences server_error Licences.list_licences

unfoldable pub licence_answered : ℕ → Exec Response
unfolding endpoint
licence_answered licence_id =
    endpoint 200 licence get_licence_status (Licences.get_licence licence_id)

unfoldable pub assignments_listed : Exec Response
unfolding endpoint
assignments_listed = endpoint 200 assignments server_error Assignments.list_active_assignments

unfoldable pub serve : Unicode → Request → Exec Response
unfolding endpoint get_actor validated_id users_listed user_answered licences_listed
    licence_answered assignments_listed
serve u (create_user x_actor email name) =
    endpoint 201 user create_user_status
      (do actor ← lift (get_actor u x_actor); Users.create_user u email name actor)
serve u (create_licence x_actor product seats_total agent_policy) =
    endpoint 201 licence create_licence_status (do
      actor ← lift (get_actor u x_actor)
      Licences.create_licence product seats_total actor agent_policy)
serve u (create_assignment x_actor user_id licence_id) =
    endpoint 201 assignment create_assignment_status (do
      actor ← lift (get_actor u x_actor)
      for_user ← lift (validated_id user_id)
      of_licence ← lift (validated_id licence_id)
      Assignments.assign_licence for_user of_licence actor)
serve u (revoke_assignment x_actor assignment_id) =
    endpoint 200 assignment revoke_assignment_status (do
      actor ← lift (get_actor u x_actor)
      id ← lift (validated_id assignment_id)
      Assignments.revoke_assignment id actor)
serve u list_users = users_listed
serve u list_licences = licences_listed
serve u list_assignments = assignments_listed
serve u (get_user user_id) = user_answered user_id
serve u (get_licence licence_id) = licence_answered licence_id
