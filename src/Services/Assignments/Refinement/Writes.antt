-- ===== src/Services/Assignments/Refinement/Writes.antt =====
-- The writes of src/app/repositories, as steps of the ledger of seats.
use saas_agent_lab.Common.{
  ℕ, suc, ◌≤◌, ◌-◌, ◌≡◌, refl, sym, ap, ◌∙◌, Bool, true, false, Option, none, some, inl, inr, [],
  ◌∷◌, ◌++◌, ◌&&◌, ◌||◌, ◌==◌, if◌then◌else◌, any, count, find, update, next_key, count-insert,
  count-insert_other, any-append, find-insert_new, find-next_key, count-update_one,
  count-update_same, any-update_same, any-find, any-count_zero, is_none, arith, Bool-cases,
}
use saas_agent_lab.Models.{User, Licence, Assignment}
use saas_agent_lab.Models.Enums.{UserStatus}
use saas_agent_lab.Repositories.Users.{user_key, has_email}
use saas_agent_lab.Repositories.Licences.{licence_key, has_product}
use saas_agent_lab.Repositories.Assignments.{
  assignment_key, is_active_for, is_active_of, dangling, revoke_at,
}
use saas_agent_lab.Services.Assignments.Ledger.{
  joins, offers, grants, gives_back, set, set_pair, ledger_ext,
}
use saas_agent_lab.Services.Assignments.Seats.{
  IsConsistent, add_user-IsConsistent, add_licence-IsConsistent, add_assignment-IsConsistent,
  revoke-IsConsistent,
}
use saas_agent_lab.Session.{Database}
use saas_agent_lab.Services.Assignments.Refinement.{status_of, total_of, Refines, by_ledger}

status_if :
    (b : Bool) (u : User) (o : Option User)
    → (if b then some u.status else status_of o) ≡ status_of (if b then some u else o)
status_if true u o = refl
status_if false u o = refl

total_if :
    (b : Bool) (l : Licence) (o : Option Licence)
    → (if b then some l.seats_total else total_of o) ≡ total_of (if b then some l else o)
total_if true l o = refl
total_if false l o = refl

same_number : (m n : ℕ) → (m == n) ≡ true → m ≡ n
same_number m n h = ground arith

one_less : {m n : ℕ} → suc m ≡ n → n - 1 ≡ m
one_less h = omega arith

at_most_one : {m n : ℕ} → suc m ≡ n → n ≤ 1 → m ≡ 0
at_most_one h k = omega arith

either : (a b x : Bool) → (if a && b then true else x) ≡ x || ((a && (b && true)) || false)
either true true true = refl
either true true false = refl
either true false true = refl
either true false false = refl
either false b true = refl
either false b false = refl

module _ (d : Database) where
  pub add_user-Refines :
      (u : User)
      → u.id ≡ next_key user_key d.users
      → any (has_email u.email) d.users ≡ false
      → Refines d (record d { users = d.users ++ u ∷ [] })
  add_user-Refines u key fresh =
      let new = find-next_key user_key u.id d.users (rw key (omega arith)) in
      by_ledger d _ _ (add_user-IsConsistent d u fresh)
        (λ c. joins u.id u.status (ap status_of new))
        λ c.
          ledger_ext _ _
            (λ k.
              status_if (u.id == k) u (find user_key k d.users)
              ∙ ap status_of (sym (find-insert_new user_key k d.users u new)))
            (λ k. refl) (λ k. refl) λ i j. refl

  pub add_licence-Refines :
      (l : Licence)
      → l.id ≡ next_key licence_key d.licences
      → any (has_product l.product) d.licences ≡ false
      → Refines d (record d { licences = d.licences ++ l ∷ [] })
  add_licence-Refines l key fresh =
      let new = find-next_key licence_key l.id d.licences (rw key (omega arith)) in
      by_ledger d _ _ (add_licence-IsConsistent d l key fresh)
        (λ c. offers l.id l.seats_total (ap total_of new))
        λ c.
          ledger_ext _ _ (λ k. refl)
            (λ k.
              total_if (l.id == k) l (find licence_key k d.licences)
              ∙ ap total_of (sym (find-insert_new licence_key k d.licences l new)))
            (λ k. refl) λ i j. refl

  granted_used :
      (a : Assignment) (k : ℕ)
      → a.revoked_at ≡ none
      → set a.licence_id
          (suc (count (is_active_of a.licence_id) d.assignments))
          (λ j. count (is_active_of j) d.assignments)
          k
        ≡ count (is_active_of k) (d.assignments ++ a ∷ [])
  granted_used a k active = elim (Bool-cases (a.licence_id == k)) [
    | inl hit ↦ rw hit (
        rw (count-insert (is_active_of k) d.assignments a (rw hit (rw active refl)))
          (rw (same_number a.licence_id k hit) refl))
    | inr miss ↦ rw miss (sym (count-insert_other (is_active_of k) d.assignments a (rw miss refl)))
  ]

  granted_held :
      (a : Assignment) (i j : ℕ)
      → a.revoked_at ≡ none
      → set_pair a.user_id a.licence_id true (λ i j. any (is_active_for i j) d.assignments) i j
        ≡ any (is_active_for i j) (d.assignments ++ a ∷ [])
  granted_held a i j active = rw (any-append (is_active_for i j) d.assignments (a ∷ [])) (
      rw active
        (either (a.user_id == i) (a.licence_id == j) (any (is_active_for i j) d.assignments)))

  pub add_assignment-Refines :
      (a : Assignment) (u : User) (l : Licence)
      → a.revoked_at ≡ none
      → find user_key a.user_id d.users ≡ some u
      → u.status ≡ UserStatus.active
      → find licence_key a.licence_id d.licences ≡ some l
      → suc (count (is_active_of a.licence_id) d.assignments) ≤ l.seats_total
      → any (is_active_for a.user_id a.licence_id) d.assignments ≡ false
      → dangling a.user_id a.licence_id d ≡ false
      → Refines d (record d { assignments = d.assignments ++ a ∷ [] })
  add_assignment-Refines a u l active found is_active found_licence free fresh known =
      by_ledger d _ _ (add_assignment-IsConsistent d a l found_licence free fresh known)
        (λ c.
          grants a.user_id a.licence_id l.seats_total (ap status_of found ∙ ap some is_active)
            (ap total_of found_licence) free fresh)
        λ c.
          ledger_ext _ _ (λ k. refl) (λ k. refl) (λ k. granted_used a k active)
            λ i j. granted_held a i j active

  module _ (k t : ℕ) (a : Assignment) (found : find assignment_key k d.assignments ≡ some a)
      (active : is_none a.revoked_at ≡ true) where
    returned_used :
        (j : ℕ)
        → set a.licence_id
            (count (is_active_of a.licence_id) d.assignments - 1)
            (λ j. count (is_active_of j) d.assignments)
            j
          ≡ count (is_active_of j) (update assignment_key k (revoke_at t) d.assignments)
    returned_used j = elim (Bool-cases (a.licence_id == j)) [
      | inl hit ↦ rw hit (
          rw (same_number a.licence_id j hit) (
            one_less (
              count-update_one assignment_key (is_active_of j) k (revoke_at t) d.assignments a found
                (rw hit (rw active refl)) (λ y. ground arith))))
      | inr miss ↦ rw miss (
          sym (
            count-update_same assignment_key (is_active_of j) k (revoke_at t) d.assignments a found
              (rw miss refl)))
    ]

    returned_held :
        IsConsistent d
        → (i j : ℕ)
        → set_pair a.user_id a.licence_id false (λ i j. any (is_active_for i j) d.assignments) i j
          ≡ any (is_active_for i j) (update assignment_key k (revoke_at t) d.assignments)
    returned_held c i j = elim (Bool-cases ((a.user_id == i) && (a.licence_id == j))) [
      | inl hit ↦ rw hit (
          sym (
            any-count_zero (is_active_for i j) _ (
              at_most_one
                (count-update_one assignment_key (is_active_for i j) k (revoke_at t) d.assignments a
                  found (ground arith) (λ y. ground arith))
                (c.once i j))))
      | inr miss ↦ rw miss (
          sym (
            any-update_same assignment_key (is_active_for i j) k (revoke_at t) d.assignments a found
              (ground arith)))
    ]

    pub revoke-Refines :
        Refines d (record d { assignments = update assignment_key k (revoke_at t) d.assignments })
    revoke-Refines =
        by_ledger d _ _ (revoke-IsConsistent d k t)
          (λ c.
            gives_back a.user_id a.licence_id
              (any-find assignment_key _ k d.assignments a found (rw active (ground arith))))
          λ c. ledger_ext _ _ (λ k. refl) (λ k. refl) returned_used (returned_held c)
