-- ===== src/Services/Assignments/Seats.antt =====
-- src/app/models, what the tables of users, licences and assignments are to hold, and the writes of
-- src/app/repositories against it.
use saas_agent_lab.Common.{
  ℕ, suc, ◌≤◌, ◌≡◌, refl, sym, ◌∙◌, subst, Bool, true, false, some, inl, inr, List, [], ◌∷◌, ◌++◌,
  ◌==◌, any, count, find, update, next_key, All, All-append, All-update, All-map, count-insert,
  count-insert_other, any-insert, any-count, count-update, list_eq_sound, any-lt-next_key,
  find-insert, arith, Bool-cases,
}
use saas_agent_lab.Text.{Text}
use saas_agent_lab.Models.{User, Licence, Assignment}
use saas_agent_lab.Repositories.Users.{user_key, has_email}
use saas_agent_lab.Repositories.Licences.{licence_key, has_product}
use saas_agent_lab.Repositories.Assignments.{
  assignment_key, is_active_for, is_active_of, dangling, revoke_at,
}
use saas_agent_lab.Session.{Database}
use saas_agent_lab.Session.Respects.{Preorder}
use saas_agent_lab.Session.Isolation.{SameBusiness}

-- No licence has more active assignments than seats; a user has a licence at most once at a time;
-- an assignment is of a user and a licence that exist; emails and products are unique.
pub record IsConsistent (d : Database) : Type 0 where
  pub seats :
      (k : ℕ) (l : Licence)
      → find licence_key k d.licences ≡ some l
      → count (is_active_of k) d.assignments ≤ l.seats_total
  pub once : (user licence : ℕ) → count (is_active_for user licence) d.assignments ≤ 1
  pub known : All (λ a. dangling a.user_id a.licence_id d ≡ false) d.assignments
  pub emails : (e : Text) → count (has_email e) d.users ≤ 1
  pub products : (t : Text) → count (has_product t) d.licences ≤ 1

-- What is consistent stays so.
pub record StaysConsistent (d e : Database) : Type 0 where
  pub keep : IsConsistent d → IsConsistent e

pub StaysConsistent-preorder : Preorder StaysConsistent
StaysConsistent-preorder = record {
  same = λ d. record { keep = λ c. c };
  then_ = λ d e f a b. record { keep = λ c. b.keep (a.keep c) };
}

pub of_same_tables :
    (d e : Database)
    → IsConsistent d
    → e.users ≡ d.users
    → e.licences ≡ d.licences
    → e.assignments ≡ d.assignments
    → IsConsistent e
of_same_tables d e x p q r = record {
  seats = rw r (rw q x.seats);
  once = rw r x.once;
  known = rw r (rw q (rw p x.known));
  emails = rw p x.emails;
  products = rw q x.products;
}

pub of_SameBusiness : (d e : Database) → SameBusiness d e → StaysConsistent d e
of_SameBusiness d e h = record { keep = λ x. of_same_tables d e x h.users h.licences h.assignments }

-- A row can be inserted where the count of its kind is zero, or below the bound.
count_bounded :
    {A : Type 0}
    → (p : A → Bool) (xs : List A) (x : A) (n : ℕ) → count p xs ≤ n
    → (p x ≡ true → suc (count p xs) ≤ n)
    → count p (xs ++ x ∷ []) ≤ n
count_bounded p xs x n h k = elim (Bool-cases (p x)) [
  | inl hit ↦ rw (count-insert p xs x hit) (k hit)
  | inr miss ↦ rw (count-insert_other p xs x miss) h
]

still_known_user :
    (d : Database) (u : User) (user licence : ℕ)
    → dangling user licence d ≡ false
    → dangling user licence (record d { users = d.users ++ u ∷ [] }) ≡ false
still_known_user d u user licence h = ground (arith, any-insert (λ x. user_key x == user) d.users u)

still_known_licence :
    (d : Database) (l : Licence) (user licence : ℕ)
    → dangling user licence d ≡ false
    → dangling user licence (record d { licences = d.licences ++ l ∷ [] }) ≡ false
still_known_licence d l user licence h =
    ground (arith, any-insert (λ x. licence_key x == licence) d.licences l)

email_of :
    (e : Text) (u : User) (us : List User)
    → any (has_email u.email) us ≡ false
    → has_email e u ≡ true
    → count (has_email e) us ≡ 0
email_of e u us h k = rw (← list_eq_sound u.email e k) (any-count (has_email u.email) us h)

product_of :
    (t : Text) (l : Licence) (ls : List Licence)
    → any (has_product l.product) ls ≡ false
    → has_product t l ≡ true
    → count (has_product t) ls ≡ 0
product_of t l ls h k = rw (← list_eq_sound l.product t k) (any-count (has_product l.product) ls h)

pub add_user-IsConsistent :
    (d : Database) (u : User)
    → any (has_email u.email) d.users ≡ false
    → StaysConsistent d (record d { users = d.users ++ u ∷ [] })
add_user-IsConsistent d u fresh = record {
  keep = λ c. record {
    seats = c.seats;
    once = c.once;
    known = All-map d.assignments (λ a. still_known_user d u a.user_id a.licence_id) c.known;
    emails = λ e.
        count_bounded (has_email e) d.users u 1 (c.emails e)
          λ hit. omega (arith, email_of e u d.users fresh hit);
    products = c.products;
  };
}

-- No assignment is of a licence whose key is not yet in use.
unused :
    (d : Database) (xs : List Assignment)
    → All (λ a. dangling a.user_id a.licence_id d ≡ false) xs
    → count (is_active_of (next_key licence_key d.licences)) xs ≡ 0
unused d [] h = refl
unused d (a ∷ xs) (h, k) =
    ground (arith, unused d xs k, any-lt-next_key licence_key a.licence_id d.licences)

pub add_licence-IsConsistent :
    (d : Database) (l : Licence)
    → l.id ≡ next_key licence_key d.licences
    → any (has_product l.product) d.licences ≡ false
    → StaysConsistent d (record d { licences = d.licences ++ l ∷ [] })
add_licence-IsConsistent d l key fresh = record {
  keep = λ c. record {
    seats = λ k m found. elim (find-insert licence_key k d.licences l m found) [
      | inl old ↦ c.seats k m old
      | inr (at_k, same) ↦ rw (← at_k) (
          rw key
            (subst (λ n. n ≤ m.seats_total) (sym (unused d d.assignments c.known)) (omega arith)))
    ];
    once = c.once;
    known = All-map d.assignments (λ a. still_known_licence d l a.user_id a.licence_id) c.known;
    emails = c.emails;
    products = λ t.
        count_bounded (has_product t) d.licences l 1 (c.products t)
          λ hit. omega (arith, product_of t l d.licences fresh hit);
  };
}

same_row : (l m : Licence) → some l ≡ some m → l ≡ m
same_row l m h = cc

active_licence : (k : ℕ) (a : Assignment) → is_active_of k a ≡ true → a.licence_id ≡ k
active_licence k a h = ground arith

active_pair :
    (user k : ℕ) (a : Assignment)
    → is_active_for user k a ≡ true
    → (a.user_id ≡ user) × (a.licence_id ≡ k)
active_pair user k a h = ground arith

-- The seat that an insert takes must be free, and the pair without an active assignment.
pub add_assignment-IsConsistent :
    (d : Database) (a : Assignment) (l : Licence)
    → find licence_key a.licence_id d.licences ≡ some l
    → suc (count (is_active_of a.licence_id) d.assignments) ≤ l.seats_total
    → any (is_active_for a.user_id a.licence_id) d.assignments ≡ false
    → dangling a.user_id a.licence_id d ≡ false
    → StaysConsistent d (record d { assignments = d.assignments ++ a ∷ [] })
add_assignment-IsConsistent d a l found free fresh known = record {
  keep = λ c. record {
    seats = λ k m at_k.
        count_bounded (is_active_of k) d.assignments a m.seats_total (c.seats k m at_k)
          λ hit. free_seat k m at_k (active_licence k a hit);
    once = λ user licence.
        count_bounded (is_active_for user licence) d.assignments a 1 (c.once user licence)
          λ hit. first_one user licence (active_pair user licence a hit);
    known = All-append _ d.assignments (a ∷ []) c.known (known, tt);
    emails = c.emails;
    products = c.products;
  };
}
  where
    free_seat :
        (k : ℕ) (m : Licence)
        → find licence_key k d.licences ≡ some m
        → a.licence_id ≡ k
        → suc (count (is_active_of k) d.assignments) ≤ m.seats_total
    free_seat k m at_k e =
        subst (λ x. suc (count (is_active_of k) d.assignments) ≤ x.seats_total)
          (same_row l m
            (sym found ∙ subst (λ j. find licence_key j d.licences ≡ some m) (sym e) at_k))
          (subst (λ j. suc (count (is_active_of j) d.assignments) ≤ l.seats_total) e free)

    first_one :
        (user k : ℕ)
        → (a.user_id ≡ user) × (a.licence_id ≡ k)
        → suc (count (is_active_for user k) d.assignments) ≤ 1
    first_one user k (e, f) = rw (← e) (
        rw (← f) (
          subst (λ n. suc n ≤ 1)
            (sym (any-count (is_active_for a.user_id a.licence_id) d.assignments fresh))
            (omega arith)))

pub revoke-IsConsistent :
    (d : Database) (k t : ℕ)
    → StaysConsistent d
        (record d { assignments = update assignment_key k (revoke_at t) d.assignments })
revoke-IsConsistent d k t = record {
  keep = λ c. record {
    seats = λ j l found. omega (
      arith,
      c.seats j l found,
      count-update assignment_key (is_active_of j) k (revoke_at t) d.assignments
          (λ a. ground arith),
    );
    once = λ user licence. omega (
      arith,
      c.once user licence,
      count-update assignment_key (is_active_for user licence) k (revoke_at t) d.assignments
          (λ a. ground arith),
    );
    known = All-update assignment_key _ k (revoke_at t) d.assignments (λ a found h. h) c.known;
    emails = c.emails;
    products = c.products;
  };
}
