-- ===== src/Services/Validation/Actors.antt =====
-- src/app/services/validation.py, `agent_run_actor`.
use saas_agent_lab.Common.{
  ℕ, zero, suc, ◌/◌, ◌≤◌, ◌≡◌, refl, sym, ap, ◌∙◌, false, [], ◌∷◌, ◌++◌, All, All-append,
  Bool-cases, inl, inr, ltb, arith,
}
use saas_agent_lab.Text.{Text, codes, is_space, rstrip}
use saas_agent_lab.Text.Decimal.{digits, decimal, decimal-injective}
use saas_agent_lab.Services.Validation.{agent_run_actor, agent_actor_prefix, validated_actor}
use saas_agent_lab.Services.Validation.Laws.{required_text-IsStored, rstrip_keep, strip_prefix}
use saas_agent_lab.Session.{ok}

abbrev Digit : ℕ → Type 0
Digit c = (48 ≤ c) × (c ≤ 57)

All-digits : (fuel n : ℕ) → All Digit (digits fuel n)
unfolding digits
All-digits zero n = tt
All-digits (suc f) n = elim (Bool-cases (ltb n 10)) [
  | inl small ↦ rw small ((omega arith, ground arith), tt)
  | inr large ↦ rw large (
      All-append Digit (digits f (n / 10)) _ (All-digits f (n / 10))
        ((omega arith, omega arith), tt))
]

Digit-not_space : (c : ℕ) → Digit c → is_space c ≡ false
unfolding is_space
Digit-not_space c h = ground arith

rstrip_of_digits : (t : Text) → All Digit t → rstrip t ≡ t
unfolding rstrip
rstrip_of_digits [] h = refl
rstrip_of_digits (c ∷ t) (h, k) =
    rstrip_keep c t (Digit-not_space c h) ∙ ap (λ s. c ∷ s) (rstrip_of_digits t k)

-- What is stored: the prefix, "run-" and the id.
stored_actor : (id : ℕ) → rstrip (codes "run-" ++ decimal id) ≡ codes "run-" ++ decimal id
unfolding decimal is_space
stored_actor id =
    let digits_ = rstrip_of_digits (decimal id) (All-digits (suc id) id) in
    rstrip_keep b'r' (b'u' ∷ b'n' ∷ b'-' ∷ decimal id) refl
    ∙ ap (λ s. b'r' ∷ s)
        (rstrip_keep b'u' (b'n' ∷ b'-' ∷ decimal id) refl
          ∙ ap (λ s. b'u' ∷ s)
              (rstrip_keep b'n' (b'-' ∷ decimal id) refl
                ∙ ap (λ s. b'n' ∷ s)
                    (rstrip_keep b'-' (decimal id) refl ∙ ap (λ s. b'-' ∷ s) digits_)))

actor_text :
    (id : ℕ) (a : Text)
    → agent_run_actor id ≡ ok a
    → a ≡ agent_actor_prefix ++ (codes "run-" ++ decimal id)
unfolding agent_run_actor validated_actor
actor_text id a h =
    (required_text-IsStored _ _ _ a h).stripped
    ∙ (strip_prefix (codes "run-" ++ decimal id)
        ∙ ap (λ t. agent_actor_prefix ++ t) (stored_actor id))

same_decimal :
    (s t : Text)
    → agent_actor_prefix ++ (codes "run-" ++ s) ≡ agent_actor_prefix ++ (codes "run-" ++ t)
    → s ≡ t
same_decimal s t h = cc

-- Two runs that record the same actor are the same run.
pub agent_run_actor-injective :
    (m n : ℕ) (actor : Text) → agent_run_actor m ≡ ok actor → agent_run_actor n ≡ ok actor → m ≡ n
agent_run_actor-injective m n actor h k =
    decimal-injective m n
      (same_decimal (decimal m) (decimal n) (sym (actor_text m actor h) ∙ actor_text n actor k))
