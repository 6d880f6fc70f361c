-- ===== src/Services/Validation/Laws.antt =====
-- src/app/services/validation.py, `required_text`, and the two kinds of actor.
use saas_agent_lab.Common.{
  ℕ, ◌≤◌, ◌≡◌, ◌≢◌, refl, sym, ◌∙◌, subst, String, Bool, true, false, ◌∷◌, ◌++◌, length, ltb, arith,
  inl, inr, Bool-cases,
}
use saas_agent_lab.Text.{
  Text, Unicode, codes, is_empty, is_space, strip, lstrip, rstrip, starts_with, casefold,
}
use saas_agent_lab.Text.Laws.{strip-strip}
use saas_agent_lab.Text.Decimal.{decimal}
use saas_agent_lab.Errors.{Exc}
use saas_agent_lab.Services.Validation.{
  required_text, validated_actor, is_reserved_actor, reject_reserved_actor,
  validated_external_actor, agent_run_actor, agent_actor_prefix,
}
use saas_agent_lab.Session.{Result, ok, and_then}

ok_eq : {A : Type 0} → (x y : A) → Result.ok x ≡ Result.ok y → x ≡ y
ok_eq x y h = cc

-- A text that passes is the stripped input, not empty, within its bound; and as stored it passes
-- again and is not changed.
pub record IsStored (value : Text) (field : String) (max_length : ℕ) (stored : Text) : Type 0 where
  pub stripped : stored ≡ strip value
  pub present : is_empty stored ≡ false
  pub bounded : length stored ≤ max_length
  pub again : required_text stored field max_length ≡ ok stored

passes :
    (t : Text) (field : String) (m : ℕ)
    → strip t ≡ t
    → is_empty t ≡ false
    → ltb m (length t) ≡ false
    → required_text t field m ≡ ok t
unfolding required_text
passes t field m h k l = rw h (rw k (rw l))

pub required_text-IsStored :
    (value : Text) (field : String) (max_length : ℕ) (stored : Text)
    → required_text value field max_length ≡ ok stored
    → IsStored value field max_length stored
unfolding required_text
required_text-IsStored value field m stored h = elim (Bool-cases (is_empty (strip value))) [
  | inl blank ↦ absurd (refused _ (rw blank at h))
  | inr present ↦ elim (Bool-cases (ltb m (length (strip value)))) [
    | inl long ↦ absurd (refused _ (rw long at (rw present at h)))
    | inr fits ↦
        let same = ok_eq (strip value) stored (rw fits at (rw present at h)) in
        subst (IsStored value field m) same (record {
          stripped = refl;
          present = present;
          bounded = below m (length (strip value)) fits;
          again = passes (strip value) field m (strip-strip value) present fits;
        })
  ]
]
  where
    refused : (e : Exc) → Result.raise e ≡ ok stored → ⊥
    refused e h = cc

    below : (m n : ℕ) → ltb m n ≡ false → n ≤ m
    below m n h = ground arith

pub rstrip_keep : (c : ℕ) (t : Text) → is_space c ≡ false → rstrip (c ∷ t) ≡ c ∷ rstrip t
unfolding rstrip
rstrip_keep c t h = ground arith

-- Stripping leaves the agent's prefix in place.
pub strip_prefix : (t : Text) → strip (agent_actor_prefix ++ t) ≡ agent_actor_prefix ++ rstrip t
unfolding strip lstrip is_space
strip_prefix t = rw (rstrip_keep b'a' (b'g' ∷ b'e' ∷ b'n' ∷ b't' ∷ b':' ∷ t) refl) (
    rw (rstrip_keep b'g' (b'e' ∷ b'n' ∷ b't' ∷ b':' ∷ t) refl) (
      rw (rstrip_keep b'e' (b'n' ∷ b't' ∷ b':' ∷ t) refl) (
        rw (rstrip_keep b'n' (b't' ∷ b':' ∷ t) refl)
          (rw (rstrip_keep b't' (b':' ∷ t) refl) (rw (rstrip_keep b':' t refl) refl)))))

-- A text with the agent's prefix is reserved, however the interpreter folds other characters.
prefixed_folds :
    (u : Unicode) (t : Text)
    → starts_with agent_actor_prefix (casefold u (agent_actor_prefix ++ t)) ≡ true
unfolding casefold starts_with
prefixed_folds u t = rw (u.fold_ascii b'a' (omega arith)) (
    rw (u.fold_ascii b'g' (omega arith)) (
      rw (u.fold_ascii b'e' (omega arith)) (
        rw (u.fold_ascii b'n' (omega arith))
          (rw (u.fold_ascii b't' (omega arith)) (rw (u.fold_ascii b':' (omega arith)) refl)))))

external_not_reserved :
    (u : Unicode) (a x : Text)
    → validated_external_actor u a ≡ ok x
    → (is_reserved_actor u a ≡ false) × (validated_actor a ≡ ok x)
unfolding validated_external_actor reject_reserved_actor and_then
external_not_reserved u a x h = elim (Bool-cases (is_reserved_actor u a)) [
  | inl reserved ↦ absurd (refused _ (rw reserved at h))
  | inr free ↦ (free, rw free at h)
]
  where
    refused : (e : Exc) → Result.raise e ≡ ok x → ⊥
    refused e h = cc

-- An actor that an external caller can have stored is never the actor of an agent run.
pub validated_external_actor-agent_run_actor :
    (u : Unicode) (raw external : Text) (run_id : ℕ) (agent : Text)
    → validated_external_actor u raw ≡ ok external
    → agent_run_actor run_id ≡ ok agent
    → external ≢ agent
unfolding validated_actor agent_run_actor is_reserved_actor
validated_external_actor-agent_run_actor u raw external run_id agent h k same =
    let (free, stored) = external_not_reserved u raw external h in
    let x = (required_text-IsStored raw _ _ external stored).stripped in
    let y = (required_text-IsStored _ _ _ agent k).stripped in
    let z = sym x ∙ (same ∙ (y ∙ strip_prefix (codes "run-" ++ decimal run_id))) in
    clash (subst (λ t. starts_with agent_actor_prefix (casefold u t) ≡ false) z free)
      (prefixed_folds u (rstrip (codes "run-" ++ decimal run_id)))
  where
    clash : {b : Bool} → b ≡ false → b ≡ true → ⊥
    clash h k = cc
