-- ===== src/Agent/Resolver.antt =====
-- src/app/agent/resolver.py: extracted text in, row ids out. Reads only.
use saas_agent_lab.Common.{Option, none, some, List, [], ◌∷◌, map}
use saas_agent_lab.Text.{Text, Unicode}
use saas_agent_lab.Errors.{Exc, invalid_input, str_of}
use saas_agent_lab.Json.{Json, text, message, arr, field, end, items}
use saas_agent_lab.Models.{User, Licence}
use saas_agent_lab.Models.Enums.{OutcomeReason}
use saas_agent_lab.Schemas.Agent.{ResolvedAssignmentGoal, ResolutionFailure}
use saas_agent_lab.Services.Users.{find_user_by_email}
use saas_agent_lab.Services.Licences.{find_licences_by_product}
use saas_agent_lab.Session.{Exec, pure, raise_error, ◌>>=◌, try_catch}

pub data Resolution : Type 0 where
  goal : ResolvedAssignmentGoal → Resolution
  failure : ResolutionFailure → Resolution

abbrev pub product_name : Licence → Json
product_name l = text l.product

unfoldable pub choose : Text → Text → Option User → List Licence → Resolution
choose user_email product none matches = failure (record {
  code = OutcomeReason.user_not_found;
  detail = field "user_email" (text user_email) end;
})
choose user_email product (some user) [] =
    failure (record {
      code = OutcomeReason.licence_not_found;
      detail = field "product" (text product) end;
    })
choose user_email product (some user) (licence ∷ []) = goal (record {
  user_id = user.id;
  licence_id = licence.id;
  extracted_user_email = user_email;
  extracted_product = product;
})
choose user_email product (some user) (l ∷ m ∷ more) = failure (record {
  code = OutcomeReason.licence_ambiguous;
  detail =
      field "product" (text product)
        (field "candidates" (arr (items (map product_name (l ∷ m ∷ more)))) end);
})

-- `except InvalidInput`.
unfoldable pub rejected_input : Exc → Exec Resolution
rejected_input (invalid_input problem) = pure (
    failure (record {
      code = OutcomeReason.invalid_input;
      detail = field "message" (message (str_of (invalid_input problem))) end;
    }))
rejected_input error = raise_error error

-- The searches are under the `try`; the rest of the function cannot raise.
unfoldable pub resolve_assignment_goal : Unicode → Text → Text → Exec Resolution
unfolding choose
resolve_assignment_goal u user_email product =
    try_catch
      (do
        user ← find_user_by_email u user_email
        matches ← find_licences_by_product u product
        pure (choose user_email product user matches))
      rejected_input
