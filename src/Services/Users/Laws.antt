-- ===== src/Services/Users/Laws.antt =====
-- src/app/services/users.py, `_EMAIL_RE`.
use saas_agent_lab.Common.{
  ℕ, ◌≡◌, refl, ap, Bool, true, false, ◌&&◌, [], ◌∷◌, ◌++◌, ◌==◌, arith, inl, inr, Bool-cases,
  if◌then◌else◌,
}
use saas_agent_lab.Text.{Text, is_empty}
use saas_agent_lab.Services.Users.{
  is_email_char, all_email_chars, domain_matches, rest_matches, email_matches,
}

-- A local part and a domain: neither is empty, and no character is a space or another `@`.
pub record IsEmail (t : Text) : Type 0 where
  pub local : Text
  pub domain : Text
  pub split : t ≡ local ++ b'@' ∷ domain
  pub local_present : is_empty local ≡ false
  pub domain_present : is_empty domain ≡ false
  pub local_chars : all_email_chars local ≡ true
  pub domain_chars : all_email_chars domain ≡ true

-- What stands behind the first character.
record IsRest (t : Text) : Type 0 where
  before : Text
  domain : Text
  split : t ≡ before ++ b'@' ∷ domain
  domain_present : is_empty domain ≡ false
  before_chars : all_email_chars before ≡ true
  domain_chars : all_email_chars domain ≡ true

domain_parts :
    (t : Text) → domain_matches t ≡ true → (is_empty t ≡ false) × (all_email_chars t ≡ true)
domain_parts [] h = absurd (cc)
domain_parts (c ∷ t) h = (refl, h)

and_parts : (a b : Bool) → a && b ≡ true → (a ≡ true) × (b ≡ true)
and_parts a b h = ground arith

both_true : (a b : Bool) → a ≡ true → b ≡ true → a && b ≡ true
both_true a b h k = ground arith

else_of : (b x y : Bool) → b ≡ false → (if b then x else y) ≡ true → y ≡ true
else_of b x y h k = ground arith

to_else : (b x y : Bool) → b ≡ false → y ≡ true → (if b then x else y) ≡ true
to_else b x y h k = ground arith

IsRest-IsRest : (t : Text) → rest_matches t ≡ true → IsRest t
unfolding rest_matches
IsRest-IsRest [] h = absurd (cc)
IsRest-IsRest (c ∷ t) h = elim (Bool-cases (c == b'@')) [
  | inl at ↦
      let parts = domain_parts t (rw at at h) in
      record {
        before = [];
        domain = t;
        split = is_at c t at;
        domain_present = parts.0;
        before_chars = refl;
        domain_chars = parts.1;
      }
  | inr other ↦
      let parts = and_parts (is_email_char c) (rest_matches t) (else_of (c == b'@') _ _ other h) in
      let rest = IsRest-IsRest t parts.1 in
      record {
        before = c ∷ rest.before;
        domain = rest.domain;
        split = ap (λ s. c ∷ s) rest.split;
        domain_present = rest.domain_present;
        before_chars = both_true (is_email_char c) _ parts.0 rest.before_chars;
        domain_chars = rest.domain_chars;
      }
]
  where
    is_at : (n : ℕ) (s : Text) → n == b'@' ≡ true → n ∷ s ≡ b'@' ∷ s
    is_at n s h = ap (λ k. k ∷ s) (ground arith)

-- What matches is an address.
email_matches-IsEmail : (t : Text) → email_matches t ≡ true → IsEmail t
unfolding email_matches
email_matches-IsEmail [] h = absurd (cc)
email_matches-IsEmail (c ∷ t) h =
    let parts = and_parts (is_email_char c) (rest_matches t) h in
    let rest = IsRest-IsRest t parts.1 in
    record {
      local = c ∷ rest.before;
      domain = rest.domain;
      split = ap (λ s. c ∷ s) rest.split;
      local_present = refl;
      domain_present = rest.domain_present;
      local_chars = both_true (is_email_char c) _ parts.0 rest.before_chars;
      domain_chars = rest.domain_chars;
    }

domain_of : (d : Text) → is_empty d ≡ false → all_email_chars d ≡ true → domain_matches d ≡ true
domain_of [] h k = absurd (cc)
domain_of (c ∷ d) h k = k

not_at : (c : ℕ) → is_email_char c ≡ true → c == b'@' ≡ false
not_at c h = ground arith

rest_of :
    (b d : Text)
    → all_email_chars b ≡ true
    → is_empty d ≡ false
    → all_email_chars d ≡ true
    → rest_matches (b ++ b'@' ∷ d) ≡ true
unfolding rest_matches
rest_of [] d h k l = domain_of d k l
rest_of (c ∷ b) d h k l =
    let parts = and_parts (is_email_char c) (all_email_chars b) h in
    to_else (c == b'@') _ _ (not_at c parts.0)
      (both_true (is_email_char c) _ parts.0 (rest_of b d parts.1 k l))

email_of_parts :
    (l d : Text)
    → is_empty l ≡ false
    → is_empty d ≡ false
    → all_email_chars l ≡ true
    → all_email_chars d ≡ true
    → email_matches (l ++ b'@' ∷ d) ≡ true
unfolding email_matches
email_of_parts [] d h k m n = absurd (cc)
email_of_parts (c ∷ l) d h k m n =
    let parts = and_parts (is_email_char c) (all_email_chars l) m in
    both_true (is_email_char c) _ parts.0 (rest_of l d parts.1 k n)

-- The pattern matches a text exactly if it is a local part, an `@` and a domain.
pub email_matches_lem :
    (t : Text) → (email_matches t ≡ true → IsEmail t) × (IsEmail t → email_matches t ≡ true)
email_matches_lem t = (
  email_matches-IsEmail t,
  λ e. rw e.split (
      email_of_parts e.local e.domain e.local_present e.domain_present e.local_chars
        e.domain_chars),
)
