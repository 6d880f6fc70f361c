-- ===== src/Repositories/Licences.antt =====
-- src/app/repositories/licences.py.
use saas_agent_lab.Common.{
  ℕ, Bool, false, Option, List, [], ◌∷◌, ◌++◌, str_eq, list_eq, where_, any, find, next_key,
}
use saas_agent_lab.Text.{Text}
use saas_agent_lab.Errors.{Exc, integrity_error}
use saas_agent_lab.Models.{Licence}
use saas_agent_lab.Models.Enums.{PolicyDecision}
use saas_agent_lab.Session.{Exec, pure, query, lift, ◌>>=◌, ◌>>◌, raise_if, execute, one_or_none}

abbrev pub licence_key : Licence → ℕ
licence_key l = l.id

abbrev pub has_product : Text → Licence → Bool
has_product product l = list_eq l.product product

unfoldable pub is_duplicate_product : Exc → Bool
is_duplicate_product (integrity_error orig) =
    str_eq orig "UNIQUE constraint failed: licences.product"
is_duplicate_product _ = false

unfoldable pub add : Text → ℕ → PolicyDecision → Exec Licence
add product seats_total agent_policy = do
  taken ← query (λ d. any (has_product product) d.licences)
  raise_if taken (integrity_error "UNIQUE constraint failed: licences.product")
  id ← query (λ d. next_key licence_key d.licences)
  let licence : Licence = record {
    id = id;
    product = product;
    seats_total = seats_total;
    agent_policy = agent_policy;
  }
  execute (λ d. record d { licences = d.licences ++ licence ∷ [] })
  pure licence

unfoldable pub get : ℕ → Exec (Option Licence)
get licence_id = query (λ d. find licence_key licence_id d.licences)

unfoldable pub get_by_product : Text → Exec (Option Licence)
get_by_product product = do
  rows ← query (λ d. where_ (has_product product) d.licences)
  lift (one_or_none rows)

unfoldable pub list_all : Exec (List Licence)
list_all = query (λ d. d.licences)
