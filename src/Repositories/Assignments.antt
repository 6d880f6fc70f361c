-- ===== src/Repositories/Assignments.antt =====
-- src/app/repositories/assignments.py. "Active" means that `revoked_at` is NULL.
use saas_agent_lab.Common.{
  ℕ, Bool, false, not, ◌&&◌, Option, some, List, [], ◌∷◌, ◌++◌, str_eq, ◌==◌, is_none, where_,
  count, any, find, update, next_key,
}
use saas_agent_lab.Errors.{Exc, integrity_error}
use saas_agent_lab.Models.{Assignment}
use saas_agent_lab.Repositories.Users.{user_key}
use saas_agent_lab.Repositories.Licences.{licence_key}
use saas_agent_lab.Session.{
  Database, Exec, pure, query, lift, ◌>>=◌, ◌>>◌, raise_if, execute, one_or_none, utcnow,
}

abbrev pub assignment_key : Assignment → ℕ
assignment_key a = a.id

-- The rows of the partial unique index, `WHERE revoked_at IS NULL`, on user and licence.
abbrev pub is_active_for : ℕ → ℕ → Assignment → Bool
is_active_for user_id licence_id a =
    (a.user_id == user_id) && ((a.licence_id == licence_id) && is_none a.revoked_at)

abbrev pub is_active_of : ℕ → Assignment → Bool
is_active_of licence_id a = (a.licence_id == licence_id) && is_none a.revoked_at

abbrev pub is_of_user : ℕ → Assignment → Bool
is_of_user user_id a = a.user_id == user_id

abbrev pub is_not_revoked : Assignment → Bool
is_not_revoked a = is_none a.revoked_at

unfoldable pub is_duplicate_active_assignment : Exc → Bool
is_duplicate_active_assignment (integrity_error orig) =
    str_eq orig "UNIQUE constraint failed: assignments.user_id, assignments.licence_id"
is_duplicate_active_assignment _ = false

-- A row refers to a user and a licence that exist.
abbrev pub dangling : ℕ → ℕ → Database → Bool
dangling user_id licence_id d =
    not (
      any (λ u. user_key u == user_id) d.users && any (λ l. licence_key l == licence_id) d.licences)

unfoldable pub add : ℕ → ℕ → Exec Assignment
add user_id licence_id = do
  assigned_at ← utcnow
  taken ← query (λ d. any (is_active_for user_id licence_id) d.assignments)
  raise_if taken
      (integrity_error "UNIQUE constraint failed: assignments.user_id, assignments.licence_id")
  broken ← query (dangling user_id licence_id)
  raise_if broken (integrity_error "FOREIGN KEY constraint failed")
  id ← query (λ d. next_key assignment_key d.assignments)
  let assignment : Assignment = record {
    id = id;
    user_id = user_id;
    licence_id = licence_id;
    assigned_at = assigned_at;
    revoked_at = Option.none;
  }
  execute (λ d. record d { assignments = d.assignments ++ assignment ∷ [] })
  pure assignment

unfoldable pub get : ℕ → Exec (Option Assignment)
get assignment_id = query (λ d. find assignment_key assignment_id d.assignments)

abbrev pub revoke_at : ℕ → Assignment → Assignment
revoke_at revoked_at a = record a { revoked_at = some revoked_at }

-- The object in the session changes with its row, so the new object is returned.
unfoldable pub mark_revoked : Assignment → ℕ → Exec Assignment
mark_revoked assignment revoked_at = do
  execute (λ d. record d {
    assignments = update assignment_key assignment.id (revoke_at revoked_at) d.assignments;
  })
  pure (revoke_at revoked_at assignment)

unfoldable pub get_active : ℕ → ℕ → Exec (Option Assignment)
get_active user_id licence_id = do
  rows ← query (λ d. where_ (is_active_for user_id licence_id) d.assignments)
  lift (one_or_none rows)

unfoldable pub count_active_for_licence : ℕ → Exec ℕ
count_active_for_licence licence_id = query (λ d. count (is_active_of licence_id) d.assignments)

unfoldable pub list_for_user : ℕ → Exec (List Assignment)
list_for_user user_id = query (λ d. where_ (is_of_user user_id) d.assignments)

unfoldable pub list_active : Exec (List Assignment)
list_active = query (λ d. where_ is_not_revoked d.assignments)
