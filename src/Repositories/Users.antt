-- ===== src/Repositories/Users.antt =====
-- src/app/repositories/users.py.
use saas_agent_lab.Common.{
  ℕ, Bool, false, Option, List, [], ◌∷◌, ◌++◌, str_eq, list_eq, where_, any, find, next_key,
}
use saas_agent_lab.Text.{Text}
use saas_agent_lab.Errors.{Exc, integrity_error}
use saas_agent_lab.Models.{User}
use saas_agent_lab.Models.Enums.{UserStatus}
use saas_agent_lab.Session.{
  Exec, pure, query, lift, ◌>>=◌, ◌>>◌, raise_if, execute, one_or_none, utcnow,
}

abbrev pub user_key : User → ℕ
user_key u = u.id

abbrev pub has_email : Text → User → Bool
has_email email u = list_eq u.email email

unfoldable pub is_duplicate_email : Exc → Bool
is_duplicate_email (integrity_error orig) = str_eq orig "UNIQUE constraint failed: users.email"
is_duplicate_email _ = false

-- `INSERT`: the column is unique, and the key is the database's to choose.
unfoldable pub add : Text → Text → UserStatus → Exec User
add email name status = do
  created_at ← utcnow
  taken ← query (λ d. any (has_email email) d.users)
  raise_if taken (integrity_error "UNIQUE constraint failed: users.email")
  id ← query (λ d. next_key user_key d.users)
  let user : User = record {
    id = id;
    email = email;
    name = name;
    status = status;
    created_at = created_at;
  }
  execute (λ d. record d { users = d.users ++ user ∷ [] })
  pure user

unfoldable pub get : ℕ → Exec (Option User)
get user_id = query (λ d. find user_key user_id d.users)

unfoldable pub get_by_email : Text → Exec (Option User)
get_by_email email = do
  rows ← query (λ d. where_ (has_email email) d.users)
  lift (one_or_none rows)

unfoldable pub list_all : Exec (List User)
list_all = query (λ d. d.users)
