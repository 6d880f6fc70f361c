-- ===== src/Common/Tables.antt =====
-- Counting the rows of a table that grows by one row, or has one row changed.
use saas_agent_lab.Common.Tests.{◌==◌, if◌then◌else◌, Bool-cases}
use saas_agent_lab.Common.Lists.{count, any, find, update, next_key, All}
use Prim.Native.Nat.{ℕ, suc, ◌≤◌, ◌<◌}
use mathlib.Core.Path.{◌≡◌, refl}
use mathlib.Core.Logic.{inl, inr, ◌⊎◌}
use mathlib.Core.Bool.{Bool, true, false}
use mathlib.Core.Option.{some, none}
use mathlib.Core.List.{List, [], ◌∷◌, ◌++◌}
use native.Mathlib.Omega.{arith}

module _ {A : Type 0} where
  pub count-insert :
      (p : A → Bool) (xs : List A) (x : A) → p x ≡ true → count p (xs ++ x ∷ []) ≡ suc (count p xs)
  count-insert p [] x h = ground arith
  count-insert p (y ∷ xs) x h = ground (arith, count-insert p xs x h)

  pub count-insert_other :
      (p : A → Bool) (xs : List A) (x : A) → p x ≡ false → count p (xs ++ x ∷ []) ≡ count p xs
  count-insert_other p [] x h = ground arith
  count-insert_other p (y ∷ xs) x h = ground (arith, count-insert_other p xs x h)

  pub any-insert :
      (p : A → Bool) (xs : List A) (x : A) → any p xs ≡ true → any p (xs ++ x ∷ []) ≡ true
  any-insert p [] x h = cc
  any-insert p (y ∷ xs) x h = ground (arith, any-insert p xs x)

  pub count_none : (p : A → Bool) (xs : List A) → All (λ x. p x ≡ false) xs → count p xs ≡ 0
  count_none p [] h = refl
  count_none p (x ∷ xs) (h, k) = rw h (count_none p xs k)

  pub any-count_zero : (p : A → Bool) (xs : List A) → count p xs ≡ 0 → any p xs ≡ false
  any-count_zero p [] h = refl
  any-count_zero p (x ∷ xs) h = ground (arith, any-count_zero p xs)

  pub All-map : {B C : A → Type 0} → (xs : List A) → ((x : A) → B x → C x) → All B xs → All C xs
  All-map [] f h = tt
  All-map (x ∷ xs) f (h, k) = (f x h, All-map xs f k)

module _ {A : Type 0} (key : A → ℕ) where
  -- A change after which the row no longer counts.
  pub count-update :
      (p : A → Bool) (k : ℕ) (f : A → A) (xs : List A)
      → ((x : A) → p (f x) ≡ false)
      → count p (update key k f xs) ≤ count p xs
  unfolding update
  count-update p k f [] h = omega arith
  count-update p k f (x ∷ xs) h = ground (arith, h x, count-update p k f xs h)

  pub any-lt-next_key :
      (k : ℕ) (xs : List A) → any (λ x. key x == k) xs ≡ true → k < next_key key xs
  unfolding next_key
  any-lt-next_key k [] h = cc
  any-lt-next_key k (x ∷ xs) h = ground (arith, any-lt-next_key k xs)

  -- What a search finds was there, or is the row that was inserted.
  pub find-insert :
      (k : ℕ) (xs : List A) (x y : A)
      → find key k (xs ++ x ∷ []) ≡ some y
      → (find key k xs ≡ some y) ⊎ ((key x ≡ k) × (x ≡ y))
  unfolding find
  find-insert k [] x y h = elim (Bool-cases (key x == k)) [
    | inl hit ↦ inr (ground arith, ground arith)
    | inr miss ↦ absurd (ground arith)
  ]
  find-insert k (z ∷ xs) x y h = elim (Bool-cases (key z == k)) [
    | inl hit ↦ inl (rw hit (rw hit at h))
    | inr miss ↦ rw miss (find-insert k xs x y (rw miss at h))
  ]

  -- A row that is inserted under a new key is what is found there.
  pub find-insert_new :
      (k : ℕ) (xs : List A) (x : A)
      → find key (key x) xs ≡ none
      → find key k (xs ++ x ∷ []) ≡ (if key x == k then some x else find key k xs)
  unfolding find
  find-insert_new k [] x h = refl
  find-insert_new k (y ∷ xs) x h = ground (arith, find-insert_new k xs x)

  -- A change after which the row that is found no longer counts, and one that keeps whether it counts.
  pub count-update_one :
      (p : A → Bool) (k : ℕ) (f : A → A) (xs : List A) (x : A)
      → find key k xs ≡ some x
      → p x ≡ true
      → ((y : A) → p (f y) ≡ false)
      → suc (count p (update key k f xs)) ≡ count p xs
  unfolding find update
  count-update_one p k f [] x found hit h = cc
  count-update_one p k f (y ∷ xs) x found hit h = ground (arith, h y, count-update_one p k f xs x)

  pub count-update_same :
      (p : A → Bool) (k : ℕ) (f : A → A) (xs : List A) (x : A)
      → find key k xs ≡ some x
      → p (f x) ≡ p x
      → count p (update key k f xs) ≡ count p xs
  unfolding find update
  count-update_same p k f [] x found h = refl
  count-update_same p k f (y ∷ xs) x found h = ground (arith, count-update_same p k f xs x)

  pub any-update_same :
      (p : A → Bool) (k : ℕ) (f : A → A) (xs : List A) (x : A)
      → find key k xs ≡ some x
      → p (f x) ≡ p x
      → any p (update key k f xs) ≡ any p xs
  unfolding find update
  any-update_same p k f [] x found h = refl
  any-update_same p k f (y ∷ xs) x found h = ground (arith, any-update_same p k f xs x)

  pub any-find :
      (p : A → Bool) (k : ℕ) (xs : List A) (x : A)
      → find key k xs ≡ some x
      → p x ≡ true
      → any p xs ≡ true
  unfolding find
  any-find p k [] x found h = cc
  any-find p k (y ∷ xs) x found h = ground (arith, any-find p k xs x)
