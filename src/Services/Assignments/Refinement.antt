-- ===== src/Services/Assignments/Refinement.antt =====
-- src/app/models, as what the tables say of seats.
pub mod Writes
use saas_agent_lab.Common.{
  ℕ, suc, ◌≤◌, ◌-◌, ◌≡◌, refl, sym, subst, ap, ◌∙◌, Bool, true, false, Option, none, some, inl, inr,
  [], ◌∷◌, ◌++◌, ◌&&◌, ◌||◌, ◌==◌, if◌then◌else◌, any, count, find, update, next_key, count-insert,
  count-insert_other, any-append, find-insert_new, find-next_key, count-update_one,
  count-update_same, any-update_same, any-find, any-count_zero, is_none, arith, Bool-cases,
}
use saas_agent_lab.Models.{User, Licence, Assignment}
use saas_agent_lab.Models.Enums.{UserStatus}
use saas_agent_lab.Repositories.Users.{user_key, has_email}
use saas_agent_lab.Repositories.Licences.{licence_key, has_product}
use saas_agent_lab.Repositories.Assignments.{
  assignment_key, is_active_for, is_active_of, dangling, revoke_at,
}
use saas_agent_lab.Services.Assignments.Ledger.{
  Ledger, Step, joins, offers, grants, gives_back, Reaches, here, next, Reaches-trans, set,
  set_pair, ledger_ext,
}
use saas_agent_lab.Services.Assignments.Seats.{
  IsConsistent, StaysConsistent, of_same_tables, add_user-IsConsistent, add_licence-IsConsistent,
  add_assignment-IsConsistent, revoke-IsConsistent,
}
use saas_agent_lab.Session.{Database}
use saas_agent_lab.Session.Respects.{Preorder}

abbrev pub status_of : Option User → Option UserStatus
status_of none = none
status_of (some u) = some u.status

abbrev pub total_of : Option Licence → Option ℕ
total_of none = none
total_of (some l) = some l.seats_total

-- What the tables say of seats.
abbrev pub view : Database → Ledger
view d = record {
  status = λ user. status_of (find user_key user d.users);
  seats_total = λ licence. total_of (find licence_key licence d.licences);
  seats_used = λ licence. count (is_active_of licence) d.assignments;
  holds = λ user licence. any (is_active_for user licence) d.assignments;
}

-- What is consistent stays so, and what the tables say has changed by steps of the ledger.
pub record Refines (d e : Database) : Type 0 where
  pub keep : IsConsistent d → IsConsistent e
  pub steps : IsConsistent d → Reaches (view d) (view e)

pub Refines-preorder : Preorder Refines
Refines-preorder = record {
  same = λ d. record { keep = λ c. c; steps = λ c. here };
  then_ = λ d e f a b. record {
    keep = λ c. b.keep (a.keep c);
    steps = λ c. Reaches-trans (a.steps c) (b.steps (a.keep c));
  };
}

same_view :
    (d e : Database)
    → e.users ≡ d.users
    → e.licences ≡ d.licences
    → e.assignments ≡ d.assignments
    → view e ≡ view d
same_view d e p q r = rw p (rw q (rw r refl))

pub same_tables-Refines :
    (d e : Database)
    → e.users ≡ d.users
    → e.licences ≡ d.licences
    → e.assignments ≡ d.assignments
    → Refines d e
same_tables-Refines d e p q r = record {
  keep = λ c. of_same_tables d e c p q r;
  steps = λ c. subst (Reaches (view d)) (sym (same_view d e p q r)) here;
}

pub by_ledger :
    (d e : Database) (t : Ledger)
    → StaysConsistent d e
    → (IsConsistent d → Step (view d) t)
    → (IsConsistent d → t ≡ view e)
    → Refines d e
by_ledger d e t stays step same = record {
  keep = stays.keep;
  steps = λ c. subst (Reaches (view d)) (same c) (next here (step c));
}
