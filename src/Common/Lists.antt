-- ===== src/Common/Lists.antt =====
-- Lists measured by native numbers, predicates over all rows of a table, and its primary key.
use Prim.Native.Nat.{ℕ, suc, ◌+◌, ◌≤◌, ◌<◌}
use mathlib.Core.Path.{◌≡◌, refl, subst}
use mathlib.Core.Logic.{◌≢◌, inl, inr}
use mathlib.Core.Bool.{Bool, false, ◌||◌}
use mathlib.Core.Option.{Option, none, some}
use mathlib.Core.List.{List, [], ◌∷◌, ◌++◌}
use native.Mathlib.Omega.{arith}
use saas_agent_lab.Common.Tests.{◌==◌, if◌then◌else◌, leb, Bool-cases}

module _ {ℓ} {A : Type ℓ} where
  abbrev pub length : List A → ℕ
  length [] = 0
  length (x ∷ xs) = suc (length xs)

  -- The rows that a `WHERE` keeps, in table order.
  abbrev pub where_ : (A → Bool) → List A → List A
  where_ p [] = []
  where_ p (x ∷ xs) = if p x then x ∷ where_ p xs else where_ p xs

  -- `SELECT count(*) … WHERE p`.
  abbrev pub count : (A → Bool) → List A → ℕ
  count p [] = 0
  count p (x ∷ xs) = if p x then suc (count p xs) else count p xs

  abbrev pub any : (A → Bool) → List A → Bool
  any p [] = false
  any p (x ∷ xs) = p x || any p xs

  abbrev pub head? : List A → Option A
  head? [] = none
  head? (x ∷ _) = some x

  abbrev pub last? : List A → Option A
  last? [] = none
  last? (x ∷ []) = some x
  last? (x ∷ y ∷ ys) = last? (y ∷ ys)

  pub length-append : (xs ys : List A) → length (xs ++ ys) ≡ length xs + length ys
  length-append [] ys = omega arith
  length-append (x ∷ xs) ys = omega (arith, length-append xs ys)

  pub count-append : (p : A → Bool) (xs ys : List A) → count p (xs ++ ys) ≡ count p xs + count p ys
  count-append p [] ys = omega arith
  count-append p (x ∷ xs) ys = ground (arith, count-append p xs ys)

  pub any-append : (p : A → Bool) (xs ys : List A) → any p (xs ++ ys) ≡ any p xs || any p ys
  any-append p [] ys = refl
  any-append p (x ∷ xs) ys = ground (arith, any-append p xs ys)

  pub count-le-length : (p : A → Bool) (xs : List A) → count p xs ≤ length xs
  count-le-length p [] = omega arith
  count-le-length p (x ∷ xs) = ground (arith, count-le-length p xs)

  pub any-count : (p : A → Bool) (xs : List A) → any p xs ≡ false → count p xs ≡ 0
  any-count p [] h = refl
  any-count p (x ∷ xs) h = ground (arith, any-count p xs)

module _ {ℓ κ} {A : Type ℓ} where
  -- Every row satisfies `P`.
  abbrev pub All : (A → Type κ) → List A → Type κ
  All P [] = Unit
  All P (x ∷ xs) = P x × All P xs

  pub All-append : (P : A → Type κ) (xs ys : List A) → All P xs → All P ys → All P (xs ++ ys)
  All-append P [] ys hx hy = hy
  All-append P (x ∷ xs) ys hx hy = (hx.0, All-append P xs ys hx.1 hy)

some_eq {ℓ} : {A : Type ℓ} (x y : A) → some x ≡ some y → x ≡ y
some_eq x y h = cc

-- Tables: rows in the order of their primary key, which `key` reads.
module _ {A : Type 0} (key : A → ℕ) where
  -- `session.get(Row, id)`.
  unfoldable pub find : ℕ → List A → Option A
  find k [] = none
  find k (x ∷ xs) = if key x == k then some x else find k xs

  -- `UPDATE … WHERE id = k`: the key picks one row at most.
  unfoldable pub update : ℕ → (A → A) → List A → List A
  update k f [] = []
  update k f (x ∷ xs) = if key x == k then f x ∷ xs else x ∷ update k f xs

  -- The key of an inserted row: one more than the largest in use.
  unfoldable pub next_key : List A → ℕ
  next_key [] = 1
  next_key (x ∷ xs) = let rest = next_key xs in if leb (suc (key x)) rest then rest else suc (key x)

  pub find-key : (k : ℕ) (xs : List A) (x : A) → find k xs ≡ some x → key x ≡ k
  unfolding find
  find-key k [] x h = cc
  find-key k (y ∷ xs) x h = ground (arith, find-key k xs x)

  pub find-update_self :
      (k : ℕ) (f : A → A) (xs : List A) (x : A)
      → key (f x) ≡ k
      → find k xs ≡ some x
      → find k (update k f xs) ≡ some (f x)
  unfolding find update
  find-update_self k f [] x e h = cc
  find-update_self k f (y ∷ xs) x e h = ground (arith, find-update_self k f xs x e)

  pub find-update-none : (k : ℕ) (f : A → A) (xs : List A) → find k xs ≡ none → update k f xs ≡ xs
  unfolding find update
  find-update-none k f [] h = refl
  find-update-none k f (y ∷ xs) h = ground (arith, find-update-none k f xs)

  pub find-update_ne :
      (k j : ℕ) (f : A → A) (xs : List A)
      → ((x : A) → key (f x) ≡ key x)
      → k ≢ j
      → find j (update k f xs) ≡ find j xs
  unfolding find update
  find-update_ne k j f [] e n = refl
  find-update_ne k j f (y ∷ xs) e n = ground (arith, e y, find-update_ne k j f xs e n)

  pub All-find :
      (P : A → Type 0) (k : ℕ) (xs : List A) (x : A) → All P xs → find k xs ≡ some x → P x
  unfolding find
  All-find P k [] x a h = cc
  All-find P k (y ∷ xs) x a h = elim (Bool-cases (key y == k)) [
    | inl hit ↦ subst P (some_eq y x (rw hit at h)) a.0
    | inr miss ↦ All-find P k xs x a.1 (rw miss at h)
  ]

  -- An update keeps a predicate of all rows if the new row has it.
  pub All-update :
      (P : A → Type 0) (k : ℕ) (f : A → A) (xs : List A)
      → ((x : A) → find k xs ≡ some x → P x → P (f x))
      → All P xs
      → All P (update k f xs)
  unfolding find update
  All-update P k f [] g a = tt
  All-update P k f (y ∷ xs) g a = elim (Bool-cases (key y == k)) [
    | inl hit ↦ rw hit (g y (rw hit) a.0, a.1)
    | inr miss ↦ rw miss (a.0, All-update P k f xs (λ x e. g x (rw miss e)) a.1)
  ]

  pub find-append_some :
      (k : ℕ) (xs ys : List A) (x : A) → find k xs ≡ some x → find k (xs ++ ys) ≡ some x
  unfolding find
  find-append_some k [] ys x h = cc
  find-append_some k (y ∷ xs) ys x h = ground (arith, find-append_some k xs ys x)

  -- A fresh key is not in use.
  pub key-lt-next_key : (k : ℕ) (xs : List A) (x : A) → find k xs ≡ some x → k < next_key xs
  unfolding find next_key
  key-lt-next_key k [] x h = cc
  key-lt-next_key k (y ∷ xs) x h = ground (arith, key-lt-next_key k xs x)

  pub find-next_key : (n : ℕ) (xs : List A) → next_key xs ≤ n → find n xs ≡ none
  unfolding find next_key
  find-next_key n [] h = refl
  find-next_key n (y ∷ xs) h = ground (arith, find-next_key n xs)

  find-append_last :
      (k : ℕ) (xs : List A) (x : A) → key x ≡ k → find k xs ≡ none → find k (xs ++ x ∷ []) ≡ some x
  unfolding find
  find-append_last k [] x e h = ground arith
  find-append_last k (y ∷ xs) x e h = ground (arith, find-append_last k xs x e)

  pub find-append_new :
      (xs : List A) (x : A) → key x ≡ next_key xs → find (next_key xs) (xs ++ x ∷ []) ≡ some x
  find-append_new xs x e =
      find-append_last (next_key xs) xs x e (find-next_key (next_key xs) xs (omega arith))
