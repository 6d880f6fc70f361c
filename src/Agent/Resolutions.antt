-- ===== src/Agent/Resolutions.antt =====
-- src/app/agent/resolver.py, `resolve_assignment_goal`, against the rows that the texts name.
use saas_agent_lab.Common.{◌≡◌, refl, Option, none, some, List, [], ◌∷◌, where_}
use saas_agent_lab.Text.{Text, Unicode, casefold}
use saas_agent_lab.Errors.{Exc, invalid_input}
use saas_agent_lab.Models.{User, Licence}
use saas_agent_lab.Repositories.Users.{has_email}
use saas_agent_lab.Schemas.Agent.{ResolvedAssignmentGoal}
use saas_agent_lab.Services.Users.{validated_email, find_user_by_email}
use saas_agent_lab.Services.Licences.{folds_to, find_licences_by_product, product_max_length}
use saas_agent_lab.Services.Validation.{required_text}
use saas_agent_lab.Repositories.Users as UserRows
use saas_agent_lab.Repositories.Licences as LicenceRows
use saas_agent_lab.Agent.Resolver.{
  Resolution, goal, failure, choose, rejected_input, resolve_assignment_goal,
}
use saas_agent_lab.Agent.History.Rereads.{Always}
use saas_agent_lab.Session.{Database, World, ok, pure, ◌>>=◌, one_or_none, lift, raise_error}
use saas_agent_lab.Session.Triples.{
  Holds, Ensures, ensures-bind, ensures-lift, ensures-try_catch, returned,
}

module _ (u : Unicode) (email product : Text) where
  -- The user with the email as validated.
  abbrev pub NamesUser : User → Database → Type 0
  NamesUser x d =
      (e : Text) × (validated_email u email ≡ ok e) × (where_ (has_email e) d.users ≡ x ∷ [])

  -- The licences with the product's name, ignoring case.
  abbrev pub NamesLicences : List Licence → Database → Type 0
  NamesLicences ls d =
      (t : Text) × (required_text product "Product" product_max_length ≡ ok t)
      × (where_ (folds_to u (casefold u t)) d.licences ≡ ls)

  abbrev pub IfFound : Option User → Database → Type 0
  IfFound none d = Unit
  IfFound (some x) d = NamesUser x d

  abbrev pub Resolves : Resolution → Database → Type 0
  Resolves (failure f) d = Unit
  Resolves (goal g) d =
      (x : User) × (l : Licence) × NamesUser x d
      × NamesLicences (l ∷ []) d
      × (g.user_id ≡ x.id)
      × (g.licence_id ≡ l.id)

  read_user :
      (e : Text) → validated_email u email ≡ ok e → Ensures Always (UserRows.get_by_email e) IfFound
  unfolding UserRows.get_by_email ◌>>=◌
  read_user e v = record { at = λ w start. one_row_of w (where_ (has_email e) w.db.users) refl }
    where
      one_row_of :
          (w : World) (rows : List User)
          → where_ (has_email e) w.db.users ≡ rows
          → Holds IfFound ((lift (one_or_none rows)) w).0 ((lift (one_or_none rows)) w).1
      one_row_of w [] h = tt
      one_row_of w (x ∷ []) h = (e, v, h)
      one_row_of w (x ∷ y ∷ rest) h = tt

  find_user-IfFound : Ensures Always (find_user_by_email u email) IfFound
  unfolding find_user_by_email
  find_user-IfFound = ensures-lift Always _ _ _ λ e v. read_user e v

  choose-Resolves :
      (o : Option User) (ls : List Licence) (d : Database)
      → IfFound o d
      → NamesLicences ls d
      → Resolves (choose email product o ls) d
  unfolding choose
  choose-Resolves none ls d h k = tt
  choose-Resolves (some x) [] d h k = tt
  choose-Resolves (some x) (l ∷ []) d h k = (x, l, h, k, refl, refl)
  choose-Resolves (some x) (l ∷ m ∷ ls) d h k = tt

  all_licences :
      (o : Option User) (t : Text)
      → required_text product "Product" product_max_length ≡ ok t
      → Ensures
          (IfFound o)
          (LicenceRows.list_all >>= λ licences. pure (where_ (folds_to u (casefold u t)) licences))
          (λ ls d. IfFound o d × NamesLicences ls d)
  unfolding LicenceRows.list_all ◌>>=◌
  all_licences o t v = record { at = λ w found. (found, (t, v, refl)) }

  find_licences :
      (o : Option User)
      → Ensures
          (IfFound o)
          (find_licences_by_product u product)
          (λ ls d. IfFound o d × NamesLicences ls d)
  unfolding find_licences_by_product
  find_licences o = ensures-lift (IfFound o) _ _ _ λ t v. all_licences o t v

  chosen :
      (o : Option User) (ls : List Licence)
      → Ensures (λ d. IfFound o d × NamesLicences ls d) (pure (choose email product o ls)) Resolves
  unfolding pure
  chosen o ls = record { at = λ w h. choose-Resolves o ls w.db h.0 h.1 }

  rejected-Resolves : (e : Exc) → Ensures Always (rejected_input e) Resolves
  unfolding rejected_input pure raise_error
  rejected-Resolves (invalid_input problem) = record { at = λ w h. tt }
  rejected-Resolves _ = record { at = λ w h. tt }

  resolve-Resolves : Ensures Always (resolve_assignment_goal u email product) Resolves
  unfolding resolve_assignment_goal
  resolve-Resolves =
      ensures-try_catch Always _ rejected_input Resolves
        (ensures-bind Always _ _ IfFound Resolves find_user-IfFound λ o.
          ensures-bind (IfFound o) _ _ (λ ls d. IfFound o d × NamesLicences ls d) Resolves
            (find_licences o) (chosen o))
        rejected-Resolves

  -- If the texts are resolved to a goal, the user of the goal is the only one with the email as
  -- validated, and its licence is the only one whose product is the product's name, ignoring case.
  pub resolve_assignment_goal-Resolves :
      (w v : World) (g : ResolvedAssignmentGoal)
      → resolve_assignment_goal u email product w ≡ (ok (goal g), v)
      → Resolves (goal g) v.db
  resolve_assignment_goal-Resolves w v g e =
      returned Always (resolve_assignment_goal u email product) Resolves resolve-Resolves w v
        (goal g) tt e
