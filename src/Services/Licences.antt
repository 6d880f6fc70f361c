-- ===== src/Services/Licences.antt =====
-- src/app/services/licences.py.
use saas_agent_lab.Common.{
  ℕ, ℤ, pos, negsuc, String, Bool, none, some, List, ltb, list_eq, str_eq, is_some, where_,
  if◌then◌else◌,
}
use saas_agent_lab.Text.{Text, Unicode, casefold}
use saas_agent_lab.Errors.{
  Exc, invalid_input, negative_seats, too_many_seats, unknown_policy, product_already_exists,
  licence_not_found,
}
use saas_agent_lab.Json.{Json, num, str, text, obj, field, end}
use saas_agent_lab.Models.{Licence}
use saas_agent_lab.Models.Enums.{PolicyDecision, allow, require_approval, deny, policy_value}
use saas_agent_lab.Repositories.Licences as LicenceRows
use saas_agent_lab.Repositories.AuditEvents
use saas_agent_lab.Services.Validation.{required_text, validated_actor}
use saas_agent_lab.Session.{
  Result, ok, raise, Exec, pure, raise_error, lift, ◌>>=◌, ◌>>◌, raise_if, or_raise, try_catch,
}

abbrev pub product_max_length : ℕ
product_max_length = 200

abbrev pub seats_total_max : ℕ
seats_total_max = 2147483647

unfoldable pub validated_seats_total : ℤ → Result ℕ
validated_seats_total (negsuc n) = raise (invalid_input negative_seats)
validated_seats_total (pos n) =
    if ltb seats_total_max n then raise (invalid_input too_many_seats) else ok n

-- `PolicyDecision(agent_policy)`: a caller can pass any string.
unfoldable pub validated_agent_policy : String → Result PolicyDecision
validated_agent_policy s =
    if str_eq s "allow"
    then ok allow
    else if str_eq s "require_approval"
    then ok require_approval
    else if str_eq s "deny"
    then ok deny
    else raise (invalid_input unknown_policy)

pub audit_snapshot : Licence → Json
audit_snapshot licence = obj (
    field "product" (text licence.product) (
      field "seats_total" (num licence.seats_total)
        (field "agent_policy" (str (policy_value licence.agent_policy)) end)))

-- The handler of the insert: only the unique product is reported as a duplicate.
unfoldable pub product_conflict : Text → Exc → Exec Licence
product_conflict product error =
    raise_error
      (if LicenceRows.is_duplicate_product error then product_already_exists product else error)

unfoldable pub create_licence : Text → ℤ → Text → String → Exec Licence
unfolding product_conflict
create_licence raw_product raw_seats raw_actor raw_policy = do
  product ← lift (required_text raw_product "Product" product_max_length)
  seats_total ← lift (validated_seats_total raw_seats)
  agent_policy ← lift (validated_agent_policy raw_policy)
  actor ← lift (validated_actor raw_actor)
  existing ← LicenceRows.get_by_product product
  raise_if (is_some existing) (product_already_exists product)
  licence ← try_catch (LicenceRows.add product seats_total agent_policy) (product_conflict product)
  AuditEvents.add actor "licence.create" "licence" licence.id none (some (audit_snapshot licence))
  pure licence

unfoldable pub list_licences : Exec (List Licence)
list_licences = LicenceRows.list_all

unfoldable pub get_licence : ℕ → Exec Licence
get_licence licence_id = do
  licence ← LicenceRows.get licence_id
  or_raise licence (licence_not_found licence_id)

abbrev pub folds_to : Unicode → Text → Licence → Bool
folds_to u wanted licence = list_eq (casefold u licence.product) wanted

unfoldable pub find_licences_by_product : Unicode → Text → Exec (List Licence)
find_licences_by_product u product = do
  trimmed ← lift (required_text product "Product" product_max_length)
  licences ← LicenceRows.list_all
  pure (where_ (folds_to u (casefold u trimmed)) licences)
