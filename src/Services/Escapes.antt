-- ===== src/Services/Escapes.antt =====
-- src/app/services: which exceptions escape from the operations that change state, from consistent tables.
pub mod Seats
use saas_agent_lab.Common.{
  ℕ, ℤ, pos, negsuc, String, ◌≤◌, ◌≡◌, refl, Bool, true, false, not, ◌&&◌, ◌==◌, Option, none, some,
  List, [], ◌∷◌, suc, count, where_, any, find, find-key, any-find, is_some, arith, ltb, leb, inl,
  inr, Bool-cases,
}
use saas_agent_lab.Text.{Text, Unicode}
use saas_agent_lab.Errors.{
  Exc, Problem, invalid_input, email_already_exists, product_already_exists, user_not_found,
  user_inactive, licence_not_found, assignment_already_exists, no_seats_available,
  assignment_not_found, assignment_already_revoked, integrity_error,
}
use saas_agent_lab.Json.{Json}
use saas_agent_lab.Models.{User, Licence, Assignment}
use saas_agent_lab.Models.Enums.{UserStatus, PolicyDecision, is_active}
use saas_agent_lab.Repositories.Users as UserRows
use saas_agent_lab.Repositories.Users.{user_key, has_email}
use saas_agent_lab.Repositories.Licences as LicenceRows
use saas_agent_lab.Repositories.Licences.{licence_key, has_product}
use saas_agent_lab.Repositories.Assignments as AssignmentRows
use saas_agent_lab.Repositories.Assignments.{is_active_for, dangling}
use saas_agent_lab.Repositories.AuditEvents
use saas_agent_lab.Services.Validation.{required_text, validated_actor}
use saas_agent_lab.Services.Users
use saas_agent_lab.Services.Licences
use saas_agent_lab.Services.Assignments
use saas_agent_lab.Services.Assignments.Seats.{IsConsistent}
use saas_agent_lab.Session.{
  Database, Result, ok, raise, Exec, pure, raise_error, query, lift, ◌>>=◌, one_or_none,
}
use saas_agent_lab.Session.Respects.{Respects, respects_rules, Preorder}
use saas_agent_lab.Session.Raises.{Allows, RaisesOnly, raises_rules, raises-raise_error}
use saas_agent_lab.Session.Escapes.{
  RaisesFrom, Allows-if, Allows-and_then, from-RaisesOnly, from-raise_if, from-utcnow, from-query,
  from-lift, from-or_raise, from-read, from-write, from-try_catch,
}

reads : Preorder (λ (d e : Database). e ≡ d)
reads = record { same = λ d. refl; then_ = λ d e f a b. cc }

module _ (E : Exc → Type 0) (input : (p : Problem) → E (invalid_input p)) where
  required_text-Allows : (t : Text) (f : String) (n : ℕ) → Allows E (required_text t f n)
  unfolding required_text
  required_text-Allows t f n = search (Allows-if E, input) depth 8

  pub actor-Allows : (a : Text) → Allows E (validated_actor a)
  unfolding validated_actor
  actor-Allows a = required_text-Allows a _ _

  email-Allows : (u : Unicode) (e : Text) → Allows E (Users.validated_email u e)
  unfolding Users.validated_email
  email-Allows u e = search (Allows-if E, Allows-and_then E, input, required_text-Allows) depth 8

  seats-Allows : (n : ℤ) → Allows E (Licences.validated_seats_total n)
  unfolding Licences.validated_seats_total
  seats-Allows (negsuc n) = input _
  seats-Allows (pos n) = search (Allows-if E, input) depth 8

  policy-Allows : (s : String) → Allows E (Licences.validated_agent_policy s)
  unfolding Licences.validated_agent_policy
  policy-Allows s = search (Allows-if E, input) depth 10

module _ {A : Type 0} (E : Exc → Type 0) (p : A → Bool) where
  no_two : (n : ℕ) → suc (suc n) ≤ 1 → ⊥
  no_two n h = omega (arith, h)

  -- A unique row is found, or none.
  pub found_once : (xs : List A) → count p xs ≤ 1 → Allows E (one_or_none (where_ p xs))
  found_once [] h = tt
  found_once (x ∷ xs) h = elim (Bool-cases (p x)) [
    | inl hit ↦ rw hit (found_first xs (rw hit at h))
    | inr miss ↦ rw miss (found_once xs (rw miss at h))
  ]
    where
      found_first : (ys : List A) → suc (count p ys) ≤ 1 → Allows E (one_or_none (x ∷ where_ p ys))
      found_first [] k = tt
      found_first (y ∷ ys) k = elim (Bool-cases (p y)) [
        | inl hit ↦ absurd (no_two (count p ys) (rw hit at k))
        | inr miss ↦ rw miss (found_first ys (rw miss at k))
      ]

pub audit_add-RaisesOnly :
    {E : Exc → Type 0}
    → (a : Text) (x y : String) (id : ℕ) (b c : Option Json)
    → RaisesOnly E (AuditEvents.add a x y id b c)
unfolding AuditEvents.add
audit_add-RaisesOnly a x y id b c = search raises_rules depth 12

same : (m n : ℕ) → n ≡ m → (n == m) ≡ true
same m n h = ground arith

-- A user and a licence that are found are there to be referred to.
pub whole :
    (d : Database) (user licence : ℕ) (x : User) (l : Licence)
    → find user_key user d.users ≡ some x
    → find licence_key licence d.licences ≡ some l
    → dangling user licence d ≡ false
whole d user licence x l found_user found_licence =
    rw
      (any-find user_key (λ u. user_key u == user) user d.users x found_user
        (same user x.id (find-key user_key user d.users x found_user)))
      (rw
        (any-find licence_key (λ l. licence_key l == licence) licence d.licences l found_licence
          (same licence l.id (find-key licence_key licence d.licences l found_licence)))
        refl)

get_by_email-RaisesFrom :
    (E : Exc → Type 0) (e : Text) → RaisesFrom E IsConsistent (UserRows.get_by_email e)
unfolding UserRows.get_by_email ◌>>=◌
get_by_email-RaisesFrom E e = record {
  at = λ w c. found_once E (has_email e) w.db.users (c.emails e);
}

get_by_product-RaisesFrom :
    (E : Exc → Type 0) (t : Text) → RaisesFrom E IsConsistent (LicenceRows.get_by_product t)
unfolding LicenceRows.get_by_product ◌>>=◌
get_by_product-RaisesFrom E t = record {
  at = λ w c. found_once E (has_product t) w.db.licences (c.products t);
}

get_by_email-reads : (e : Text) → Respects (λ d e. e ≡ d) (UserRows.get_by_email e)
unfolding UserRows.get_by_email
get_by_email-reads e = search (respects_rules, reads) depth 8

get_by_product-reads : (t : Text) → Respects (λ d e. e ≡ d) (LicenceRows.get_by_product t)
unfolding LicenceRows.get_by_product
get_by_product-reads t = search (respects_rules, reads) depth 8

pub get_active-reads :
    (user licence : ℕ) → Respects (λ d e. e ≡ d) (AssignmentRows.get_active user licence)
unfolding AssignmentRows.get_active
get_active-reads user licence = search (respects_rules, reads) depth 8

abbrev pub IsDuplicate : String → Exc → Type 0
IsDuplicate orig e = e ≡ integrity_error orig

add_user-RaisesOnly :
    (e n : Text) (s : UserStatus)
    → RaisesOnly (IsDuplicate "UNIQUE constraint failed: users.email") (UserRows.add e n s)
unfolding UserRows.add
add_user-RaisesOnly e n s = search raises_rules depth 14

add_licence-RaisesOnly :
    (t : Text) (n : ℕ) (s : PolicyDecision)
    → RaisesOnly (IsDuplicate "UNIQUE constraint failed: licences.product") (LicenceRows.add t n s)
unfolding LicenceRows.add
add_licence-RaisesOnly t n s = search raises_rules depth 14

module _ (E : Exc → Type 0) (input : (p : Problem) → E (invalid_input p)) where
  module _ (exists : (t : Text) → E (email_already_exists t)) where
    email_conflict-RaisesOnly :
        (t : Text) (e : Exc)
        → IsDuplicate "UNIQUE constraint failed: users.email" e
        → RaisesOnly E (Users.email_conflict t e)
    unfolding Users.email_conflict UserRows.is_duplicate_email
    email_conflict-RaisesOnly t e h = rw h (raises-raise_error _ (exists t))

    -- A duplicate email is found by the guard, or reported by the handler of the insert.
    pub create_user-RaisesFrom :
        (u : Unicode) (e n a : Text) → RaisesFrom E IsConsistent (Users.create_user u e n a)
    unfolding Users.create_user
    create_user-RaisesFrom u e n a = from-lift _ _ _ (email-Allows E input u e) λ email.
        from-lift _ _ _ (required_text-Allows E input n _ _) λ name.
          from-lift _ _ _ (actor-Allows E input a) λ actor.
            from-read _ _ _ (get_by_email-reads email) (get_by_email-RaisesFrom E email) λ existing.
              from-raise_if _ _ _ _ (exists email) λ _.
                from-write _ _ _
                  (from-try_catch _ (email_conflict-RaisesOnly email) _ _
                    (from-RaisesOnly _ _ (add_user-RaisesOnly email name _)))
                  λ user. search (raises_rules, audit_add-RaisesOnly)

  module _ (exists : (t : Text) → E (product_already_exists t)) where
    product_conflict-RaisesOnly :
        (t : Text) (e : Exc)
        → IsDuplicate "UNIQUE constraint failed: licences.product" e
        → RaisesOnly E (Licences.product_conflict t e)
    unfolding Licences.product_conflict LicenceRows.is_duplicate_product
    product_conflict-RaisesOnly t e h = rw h (raises-raise_error _ (exists t))

    pub create_licence-RaisesFrom :
        (t : Text) (n : ℤ) (a : Text) (s : String)
        → RaisesFrom E IsConsistent (Licences.create_licence t n a s)
    unfolding Licences.create_licence
    create_licence-RaisesFrom t n a s =
        from-lift _ _ _ (required_text-Allows E input t _ _) λ product.
          from-lift _ _ _ (seats-Allows E input n) λ seats_total.
            from-lift _ _ _ (policy-Allows E input s) λ policy.
              from-lift _ _ _ (actor-Allows E input a) λ actor.
                from-read _ _ _ (get_by_product-reads product) (get_by_product-RaisesFrom E product)
                  λ existing. from-raise_if _ _ _ _ (exists product) λ _.
                    from-write _ _ _
                      (from-try_catch _ (product_conflict-RaisesOnly product) _ _
                        (from-RaisesOnly _ _ (add_licence-RaisesOnly product seats_total policy)))
                      λ licence. search (raises_rules, audit_add-RaisesOnly)
