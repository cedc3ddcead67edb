-- ===== src/Base/Sets.antt =====
-- Python's `set` as a list, with the operations that the scripts call; what is proved of a set is
-- said by `contains`, since a `set` has no order.
use Prim.Native.Nat.{ℕ, ◌≤◌, ◌<◌}
use mathlib.Core.Path.{◌≡◌, refl}
use mathlib.Core.Logic.{◌↔◌, ◌⊎◌, inl, inr}
use mathlib.Core.Bool.{Bool, true, false, not, ◌||◌}
use mathlib.Core.List.{List, [], ◌∷◌, ◌++◌}
use native.Mathlib.Omega.{arith}
use muen.Base.Tests.{if◌then◌else◌, Bool-cases}
use muen.Base.Lists.{select, all, length}
use muen.Base.Equality.{Eq, contains}

module _ {ℓ} {A : Type ℓ} ⦃e : Eq A⦄ where
  pub contains-append :
      (xs ys : List A) (a : A) → contains (xs ++ ys) a ≡ (contains xs a || contains ys a)
  contains-append [] ys a = refl
  contains-append (x ∷ xs) ys a = ground (arith, contains-append xs ys a)

  pub contains-select :
      (p : A → Bool) (xs : List A) (a : A)
      → (contains (select p xs) a ≡ true) ↔ ((contains xs a ≡ true) × (p a ≡ true))
  contains-select p [] a = ground arith
  contains-select p (x ∷ xs) a = ground (arith, e.beq_iff x a, contains-select p xs a)

  -- `xs.add(a)`
  unfoldable pub add : List A → A → List A
  add xs a = if contains xs a then xs else xs ++ a ∷ []

  pub contains-add :
      (xs : List A) (a b : A) → (contains (add xs a) b ≡ true) ↔ ((contains xs b ≡ true) ⊎ (a ≡ b))
  unfolding add
  contains-add xs a b = ground (arith, e.beq_iff a b, contains-append xs (a ∷ []) b)

  -- `xs | ys`
  unfoldable pub union : List A → List A → List A
  union xs [] = xs
  union xs (y ∷ ys) = union (add xs y) ys

  pub contains-union :
      (xs ys : List A) (a : A)
      → (contains (union xs ys) a ≡ true) ↔ ((contains xs a ≡ true) ⊎ (contains ys a ≡ true))
  unfolding union
  contains-union xs [] a = ground arith
  contains-union xs (y ∷ ys) a =
      ground (arith, e.beq_iff y a, contains-add xs y a, contains-union (add xs y) ys a)

  -- `xs.issubset(ys)`
  unfoldable pub is_subset : List A → List A → Bool
  is_subset xs ys = all (contains ys) xs

  pub is_subset_sound :
      (xs ys : List A) (a : A)
      → is_subset xs ys ≡ true
      → contains xs a ≡ true
      → contains ys a ≡ true
  unfolding is_subset
  is_subset_sound [] ys a h m = cc
  is_subset_sound (x ∷ xs) ys a h m = ground (arith, e.beq_iff x a, is_subset_sound xs ys a)

  pub is_subset_complete :
      (xs ys : List A)
      → is_subset xs ys ≡ false
      → (a : A) × (contains xs a ≡ true) × (contains ys a ≡ false)
  unfolding is_subset
  is_subset_complete [] ys h = cc
  is_subset_complete (x ∷ xs) ys h = elim (Bool-cases (contains ys x)) [
    | inl m ↦ let (a, p, q) = is_subset_complete xs ys (ground arith) in (a, ground arith, q)
    | inr n ↦ (x, ground (arith, e.beq_iff x x), n)
  ]

  -- How many of `xs` are not in `ys`.
  pub missing : List A → List A → ℕ
  missing xs ys = length (select (λ x. not (contains ys x)) xs)

  -- A superset misses no more, and less where it holds one item more.
  pub missing_le :
      (xs ys zs : List A)
      → ((a : A) → contains ys a ≡ true → contains zs a ≡ true)
      → missing xs zs ≤ missing xs ys
  unfolding missing
  missing_le [] ys zs h = omega arith
  missing_le (x ∷ xs) ys zs h = ground (arith, h x, missing_le xs ys zs h)

  pub missing_lt :
      (xs ys zs : List A) (a : A)
      → ((a : A) → contains ys a ≡ true → contains zs a ≡ true)
      → contains xs a ≡ true
      → contains ys a ≡ false
      → contains zs a ≡ true
      → missing xs zs < missing xs ys
  unfolding missing
  missing_lt [] ys zs a h m o n = cc
  missing_lt (x ∷ xs) ys zs a h m o n =
      ground (arith, e.beq_iff x a, h x, missing_le xs ys zs h, missing_lt xs ys zs a h)

  pub missing-le-length : (xs ys : List A) → missing xs ys ≤ length xs
  unfolding missing
  missing-le-length [] ys = omega arith
  missing-le-length (x ∷ xs) ys = ground (arith, missing-le-length xs ys)
