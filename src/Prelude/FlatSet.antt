-- ===== src/Prelude/FlatSet.antt =====
-- `flat_set` and `flat_map` over numbers: lists in the order of their keys.
use Prim.Native.Nat.{ℕ, suc}
use mathlib.Core.Path.{◌≡◌, refl, subst}
use mathlib.Core.Logic.{inl, inr}
use mathlib.Core.Bool.{Bool, true, false, ◌||◌}
use mathlib.Core.List.{List, [], ◌∷◌}
use native.Mathlib.Omega.{arith}
use bmchain_core.Prelude.Tests.{if◌then◌else◌, ltb, ◌==◌, Bool-cases}
use bmchain_core.Prelude.Lists.{length, All}

-- `flat_map::operator []`, assigned to
unfoldable pub set_entry {ℓ} : {A : Type ℓ} → ℕ → A → List (ℕ × A) → List (ℕ × A)
set_entry k v [] = (k, v) ∷ []
set_entry k v ((j, u) ∷ rest) =
    let later = set_entry k v rest in
    if ltb k j then (k, v) ∷ (j, u) ∷ rest else if k == j then (k, v) ∷ rest else (j, u) ∷ later

-- `flat_set::insert`
unfoldable pub insert_name : ℕ → List ℕ → List ℕ
insert_name n [] = n ∷ []
insert_name n (m ∷ rest) =
    let later = insert_name n rest in
    if ltb n m then n ∷ m ∷ rest else if n == m then m ∷ rest else m ∷ later

abbrev pub has_name : ℕ → List ℕ → Bool
has_name n [] = false
has_name n (m ∷ rest) = (m == n) || has_name n rest

pub All-set_entry :
    {A : Type 0} (P : ℕ → Type 0) (k : ℕ) (v : A) (entries : List (ℕ × A))
    → P k
    → All (λ e. P e.0) entries
    → All (λ e. P e.0) (set_entry k v entries)
unfolding set_entry
All-set_entry P k v [] p h = (p, tt)
All-set_entry P k v ((j, u) ∷ rest) p h = elim (Bool-cases (ltb k j)) [
  | inl before ↦ rw before (p, h)
  | inr not_before ↦ elim (Bool-cases (k == j)) [
    | inl same ↦ rw (not_before, same) (p, h.1)
    | inr after ↦ rw (not_before, after) (h.0, All-set_entry P k v rest p h.1)
  ]
]

pub All-insert_name :
    (P : ℕ → Type 0) (n : ℕ) (names : List ℕ) → P n → All P names → All P (insert_name n names)
unfolding insert_name
All-insert_name P n [] p h = (p, tt)
All-insert_name P n (m ∷ rest) p h = elim (Bool-cases (ltb n m)) [
  | inl before ↦ rw before (p, h)
  | inr not_before ↦ elim (Bool-cases (n == m)) [
    | inl same ↦ rw (not_before, same) h
    | inr after ↦ rw (not_before, after) (h.0, All-insert_name P n rest p h.1)
  ]
]

pub All-has_name :
    (P : ℕ → Type 0) (n : ℕ) (names : List ℕ) → All P names → has_name n names ≡ true → P n
All-has_name P n [] h e = cc
All-has_name P n (m ∷ rest) h e = elim (Bool-cases (m == n)) [
  | inl hit ↦ let same : m ≡ n = ground arith in subst P same h.0
  | inr miss ↦ All-has_name P n rest h.1 (ground arith)
]

-- What an insertion holds, and how many.
pub has_name-insert_name :
    (x n : ℕ) (names : List ℕ) → has_name x (insert_name n names) ≡ ((n == x) || has_name x names)
unfolding insert_name
has_name-insert_name x n [] = refl
has_name-insert_name x n (m ∷ rest) = ground (arith, has_name-insert_name x n rest)

pub length-insert_name :
    (n : ℕ) (names : List ℕ)
    → has_name n names ≡ false
    → length (insert_name n names) ≡ suc (length names)
unfolding insert_name
length-insert_name n [] h = refl
length-insert_name n (m ∷ rest) h = ground (arith, length-insert_name n rest)
