-- ===== src/Prelude/Lists.antt =====
-- Tables of objects: look-up, update and removal of the first object that a key test selects, and
-- the sum of a measure over a table.
use Prim.Native.Nat.{ℕ, zero, suc, ◌+◌}
use mathlib.Core.Path.{◌≡◌, refl, subst}
use mathlib.Core.Logic.{◌≢◌, inl, inr}
use mathlib.Core.Bool.{Bool, true, false}
use mathlib.Core.List.{List, [], ◌∷◌, ◌++◌}
use mathlib.Core.Option.{Option, none, some}
use native.Mathlib.Omega.{arith}
use bmchain_core.Prelude.Tests.{if◌then◌else◌, Bool-cases}
use bmchain_core.Prelude.Int.{ℤ, pos, ◌+ℤ◌, ◌-ℤ◌, int_laws, parts_of_eq}

module _ {ℓ} {A : Type ℓ} where
  abbrev pub length : List A → ℕ
  length [] = 0
  length (x ∷ xs) = suc (length xs)

  pub length-append : (xs ys : List A) → length (xs ++ ys) ≡ length xs + length ys
  length-append [] ys = omega arith
  length-append (x ∷ xs) ys = omega (arith, length-append xs ys)

  abbrev pub get_elem? : List A → ℕ → Option A
  get_elem? [] i = none
  get_elem? (x ∷ xs) zero = some x
  get_elem? (x ∷ xs) (suc i) = get_elem? xs i

  -- the first object that the test selects
  unfoldable pub find_by : (A → Bool) → List A → Option A
  find_by p [] = none
  find_by p (x ∷ xs) = if p x then some x else find_by p xs

  -- the first object that the test selects, replaced
  unfoldable pub replace_by : (A → Bool) → A → List A → List A
  replace_by p b [] = []
  replace_by p b (x ∷ xs) = if p x then b ∷ xs else x ∷ replace_by p b xs

  -- the first object that the test selects, removed
  unfoldable pub remove_by : (A → Bool) → List A → List A
  remove_by p [] = []
  remove_by p (x ∷ xs) = if p x then xs else x ∷ remove_by p xs

  unfoldable pub sum_of : (A → ℤ) → List A → ℤ
  sum_of m [] = pos 0
  sum_of m (x ∷ xs) = m x +ℤ sum_of m xs

  pub find_by-selected : (p : A → Bool) (xs : List A) (a : A) → find_by p xs ≡ some a → p a ≡ true
  unfolding find_by
  find_by-selected p [] a h = cc
  find_by-selected p (x ∷ xs) a h = ground (arith, find_by-selected p xs a)

  pub find_by-replace_by :
      (p : A → Bool) (b : A) (xs : List A)
      → find_by p xs ≢ none
      → p b ≡ true
      → find_by p (replace_by p b xs) ≡ some b
  unfolding find_by replace_by
  find_by-replace_by p b [] h q = absurd (h refl)
  find_by-replace_by p b (x ∷ xs) h q = ground (arith, find_by-replace_by p b xs)

  pub find_by-replace_by_ne :
      (p q : A → Bool) (b : A) (xs : List A)
      → q b ≡ false
      → ((x : A) → p x ≡ true → q x ≡ false)
      → find_by q (replace_by p b xs) ≡ find_by q xs
  unfolding find_by replace_by
  find_by-replace_by_ne p q b [] h d = refl
  find_by-replace_by_ne p q b (x ∷ xs) h d = ground (arith, d x, find_by-replace_by_ne p q b xs h d)

  pub sum_of-replace_by :
      (m : A → ℤ) (p : A → Bool) (a b : A) (xs : List A)
      → find_by p xs ≡ some a
      → sum_of m (replace_by p b xs) +ℤ m a ≡ sum_of m xs +ℤ m b
  unfolding find_by replace_by sum_of
  sum_of-replace_by m p a b [] h = cc
  sum_of-replace_by m p a b (x ∷ xs) h = grind (int_laws, sum_of-replace_by m p a b xs)

  pub sum_of-remove_by :
      (m : A → ℤ) (p : A → Bool) (a : A) (xs : List A)
      → find_by p xs ≡ some a
      → sum_of m (remove_by p xs) +ℤ m a ≡ sum_of m xs
  unfolding find_by remove_by sum_of
  sum_of-remove_by m p a [] h = cc
  sum_of-remove_by m p a (x ∷ xs) h = grind (int_laws, sum_of-remove_by m p a xs)

  pub sum_of-cons : (m : A → ℤ) (x : A) (xs : List A) → sum_of m (x ∷ xs) ≡ m x +ℤ sum_of m xs
  unfolding sum_of
  sum_of-cons m x xs = refl

  pub sum_of-snoc : (m : A → ℤ) (x : A) (xs : List A) → sum_of m (xs ++ x ∷ []) ≡ sum_of m xs +ℤ m x
  unfolding sum_of
  sum_of-snoc m x [] = omega int_laws
  sum_of-snoc m x (y ∷ xs) = rw (sum_of-snoc m x xs) (omega int_laws)

  -- the same, as a difference
  pub sum_of-replace_by_sub :
      (m : A → ℤ) (p : A → Bool) (a b : A) (xs : List A)
      → find_by p xs ≡ some a
      → sum_of m (replace_by p b xs) ≡ sum_of m xs -ℤ m a +ℤ m b
  sum_of-replace_by_sub m p a b xs h = omega (
    int_laws,
    parts_of_eq (sum_of m (replace_by p b xs) +ℤ m a) (sum_of m xs +ℤ m b)
        (sum_of-replace_by m p a b xs h),
  )

  pub sum_of-remove_by_sub :
      (m : A → ℤ) (p : A → Bool) (a : A) (xs : List A)
      → find_by p xs ≡ some a
      → sum_of m (remove_by p xs) ≡ sum_of m xs -ℤ m a
  sum_of-remove_by_sub m p a xs h = omega (
    int_laws,
    parts_of_eq (sum_of m (remove_by p xs) +ℤ m a) (sum_of m xs) (sum_of-remove_by m p a xs h),
  )

  -- a property of every object of a table
  abbrev pub All {κ} : (A → Type κ) → List A → Type κ
  All P [] = Unit
  All P (x ∷ xs) = P x × All P xs

module _ {ℓ κ} {A : Type ℓ} (P : A → Type κ) where
  pub All-find_by : (p : A → Bool) (xs : List A) (a : A) → All P xs → find_by p xs ≡ some a → P a
  unfolding find_by
  All-find_by p [] a h e = cc
  All-find_by p (x ∷ xs) a h e = elim (Bool-cases (p x)) [
    | inl hit ↦ let same : x ≡ a = ground arith in subst P same h.0
    | inr miss ↦ All-find_by p xs a h.1 (ground arith)
  ]

  pub All-replace_by :
      (p : A → Bool) (b : A) (xs : List A) → All P xs → P b → All P (replace_by p b xs)
  unfolding replace_by
  All-replace_by p b [] h k = tt
  All-replace_by p b (x ∷ xs) h k = elim (Bool-cases (p x)) [
    | inl hit ↦ rw hit (k, h.1)
    | inr miss ↦ rw miss (h.0, All-replace_by p b xs h.1 k)
  ]

  pub All-remove_by : (p : A → Bool) (xs : List A) → All P xs → All P (remove_by p xs)
  unfolding remove_by
  All-remove_by p [] h = tt
  All-remove_by p (x ∷ xs) h = elim (Bool-cases (p x)) [
    | inl hit ↦ rw hit h.1
    | inr miss ↦ rw miss (h.0, All-remove_by p xs h.1)
  ]

  pub All-snoc : (xs : List A) (x : A) → All P xs → P x → All P (xs ++ x ∷ [])
  All-snoc [] x h k = (k, tt)
  All-snoc (y ∷ xs) x h k = (h.0, All-snoc xs x h.1 k)

pub All-imp {ℓ κ κ'} :
    {A : Type ℓ} (P : A → Type κ) (Q : A → Type κ') (xs : List A)
    → ((a : A) → P a → Q a)
    → All P xs
    → All Q xs
All-imp P Q [] f h = tt
All-imp P Q (x ∷ xs) f h = (f x h.0, All-imp P Q xs f h.1)
