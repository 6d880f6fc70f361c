-- ===== src/Services/Users.antt =====
-- src/app/services/users.py.
pub mod Laws
use saas_agent_lab.Common.{
  ℕ, Bool, true, false, not, ◌&&◌, ◌||◌, Option, none, some, List, [], ◌∷◌, is_some, ◌==◌,
  if◌then◌else◌,
}
use saas_agent_lab.Text.{Text, Unicode, strip, is_space}
use saas_agent_lab.Errors.{
  Exc, invalid_input, malformed_email, email_already_exists, user_not_found,
}
use saas_agent_lab.Json.{Json, Fields, str, text, obj, field, end}
use saas_agent_lab.Models.{User}
use saas_agent_lab.Models.Enums.{UserStatus, active, status_value}
use saas_agent_lab.Repositories.Users as UserRows
use saas_agent_lab.Repositories.AuditEvents
use saas_agent_lab.Services.Validation.{required_text, validated_actor}
use saas_agent_lab.Session.{
  Result, ok, raise, Exec, pure, raise_error, lift, ◌>>=◌, ◌>>◌, raise_if, or_raise, try_catch,
  and_then,
}

abbrev pub email_max_length : ℕ
email_max_length = 320

abbrev pub name_max_length : ℕ
name_max_length = 200

-- `[^@\s]`.
abbrev pub is_email_char : ℕ → Bool
is_email_char c = not ((c == b'@') || is_space c)

abbrev pub all_email_chars : Text → Bool
all_email_chars [] = true
all_email_chars (c ∷ t) = is_email_char c && all_email_chars t

-- What is left of the pattern behind `@`: `[^@\s]+$`.
abbrev pub domain_matches : Text → Bool
domain_matches [] = false
domain_matches (c ∷ t) = is_email_char c && all_email_chars t

-- What is left behind the first character: `[^@\s]*@[^@\s]+$`.
unfoldable pub rest_matches : Text → Bool
rest_matches [] = false
rest_matches (c ∷ t) = if c == b'@' then domain_matches t else is_email_char c && rest_matches t

-- `_EMAIL_RE.fullmatch`, for `^[^@\s]+@[^@\s]+$`.
unfoldable pub email_matches : Text → Bool
unfolding rest_matches
email_matches [] = false
email_matches (c ∷ t) = is_email_char c && rest_matches t

unfoldable pub normalize_email : Unicode → Text → Text
normalize_email u email = u.lower (strip email)

unfoldable pub validated_email : Unicode → Text → Result Text
unfolding normalize_email email_matches required_text and_then
validated_email u email =
    and_then (required_text (normalize_email u email) "Email" email_max_length) λ normalized.
      if email_matches normalized then ok normalized else raise (invalid_input malformed_email)

pub audit_snapshot : User → Json
audit_snapshot user = obj (
    field "email" (text user.email)
      (field "name" (text user.name) (field "status" (str (status_value user.status)) end)))

-- The handler of the insert: only the unique email is reported as a duplicate.
unfoldable pub email_conflict : Text → Exc → Exec User
email_conflict email error =
    raise_error (if UserRows.is_duplicate_email error then email_already_exists email else error)

unfoldable pub create_user : Unicode → Text → Text → Text → Exec User
unfolding email_conflict
create_user u raw_email raw_name raw_actor = do
  email ← lift (validated_email u raw_email)
  name ← lift (required_text raw_name "Name" name_max_length)
  actor ← lift (validated_actor raw_actor)
  existing ← UserRows.get_by_email email
  raise_if (is_some existing) (email_already_exists email)
  user ← try_catch (UserRows.add email name active) (email_conflict email)
  AuditEvents.add actor "user.create" "user" user.id none (some (audit_snapshot user))
  pure user

unfoldable pub list_users : Exec (List User)
list_users = UserRows.list_all

unfoldable pub get_user : ℕ → Exec User
get_user user_id = do user ← UserRows.get user_id; or_raise user (user_not_found user_id)

unfoldable pub find_user_by_email : Unicode → Text → Exec (Option User)
find_user_by_email u email = do
  normalized ← lift (validated_email u email)
  UserRows.get_by_email normalized
