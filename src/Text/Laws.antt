-- ===== src/Text/Laws.antt =====
-- `str.strip`: its ends and its length.
use saas_agent_lab.Common.{
  ℕ, ◌≤◌, ◌≡◌, refl, false, ◌&&◌, [], ◌∷◌, arith, length, if◌then◌else◌, Bool-cases, inl, inr,
}
use saas_agent_lab.Text.{Text, is_space, is_empty, lstrip, rstrip, strip}

-- The first character, if there is one, is no space.
abbrev pub StartsClean : Text → Type 0
StartsClean [] = Unit
StartsClean (c ∷ s) = is_space c ≡ false

-- The last character, if there is one, is no space.
abbrev pub EndsClean : Text → Type 0
EndsClean [] = Unit
EndsClean (c ∷ []) = is_space c ≡ false
EndsClean (c ∷ d ∷ s) = EndsClean (d ∷ s)

lstrip-StartsClean : (s : Text) → StartsClean (lstrip s)
unfolding lstrip
lstrip-StartsClean [] = tt
lstrip-StartsClean (c ∷ s) = elim (Bool-cases (is_space c)) [
  | inl space ↦ rw space (lstrip-StartsClean s)
  | inr other ↦ rw other other
]

rstrip_cons_cases :
    (c : ℕ) (rest : Text)
    → EndsClean rest
    → EndsClean (if is_empty rest && is_space c then [] else c ∷ rest)
rstrip_cons_cases c [] h = ground arith
rstrip_cons_cases c (d ∷ rest) h = h

rstrip-EndsClean : (s : Text) → EndsClean (rstrip s)
unfolding rstrip
rstrip-EndsClean [] = tt
rstrip-EndsClean (c ∷ s) = rstrip_cons_cases c (rstrip s) (rstrip-EndsClean s)

rstrip-StartsClean : (s : Text) → StartsClean s → StartsClean (rstrip s)
unfolding rstrip
rstrip-StartsClean [] h = tt
rstrip-StartsClean (c ∷ s) h = rw h (ground arith)

pub strip_clean : (s : Text) → StartsClean (strip s) × EndsClean (strip s)
unfolding strip
strip_clean s = (rstrip-StartsClean (lstrip s) (lstrip-StartsClean s), rstrip-EndsClean (lstrip s))

lstrip_of_clean : (s : Text) → StartsClean s → lstrip s ≡ s
unfolding lstrip
lstrip_of_clean [] h = refl
lstrip_of_clean (c ∷ s) h = rw h

rstrip_of_clean : (s : Text) → EndsClean s → rstrip s ≡ s
unfolding rstrip
rstrip_of_clean [] h = refl
rstrip_of_clean (c ∷ []) h = rw h
rstrip_of_clean (c ∷ d ∷ s) h = rw (rstrip_of_clean (d ∷ s) h)

pub strip_of_clean : (s : Text) → StartsClean s → EndsClean s → strip s ≡ s
unfolding strip
strip_of_clean s a b = rw (lstrip_of_clean s a) (rstrip_of_clean s b)

pub strip-strip : (s : Text) → strip (strip s) ≡ strip s
strip-strip s = let (a, b) = strip_clean s in strip_of_clean (strip s) a b

length-lstrip : (s : Text) → length (lstrip s) ≤ length s
unfolding lstrip
length-lstrip [] = omega arith
length-lstrip (c ∷ s) = ground (arith, length-lstrip s)

length-rstrip : (s : Text) → length (rstrip s) ≤ length s
unfolding rstrip
length-rstrip [] = omega arith
length-rstrip (c ∷ s) = ground (arith, length-rstrip s)

pub length-strip : (s : Text) → length (strip s) ≤ length s
unfolding strip
length-strip s = omega (arith, length-rstrip (lstrip s), length-lstrip s)
