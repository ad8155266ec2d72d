-- ===== src/Protocol/AccountName/Grammar.antt =====
-- The grammar of account names that the comment of authority.hpp gives, and the loop of
-- `is_valid_account_name` as its decision.
use bmchain_core.Protocol.Config.{min_account_name_length, max_account_name_length}
use bmchain_core.Protocol.AccountName.{
  is_tail, is_label, is_letter, min_account_name_length, is_let_dig_hyp, is_let_dig,
  max_account_name_length, find_dot, are_labels, is_valid_account_name,
}
use bmchain_core.Prelude.{
  zero, suc, ℕ, List, ◌++◌, All, length, ◌≡◌, true, ◌≤◌, ◌∷◌, [], arith, ap, suc, ◌∙◌, refl, sym,
  Option, All-snoc, ◌==◌, false, some, Bool-cases, none, All-imp, inl, inr, ◌<◌, Bool, ok,
  Option-cases, ◌+◌, ◌↔◌, length-append, ltb,
}
use mathlib.Core.Path.{subst}

-- <label> ::= <letter> <let-dig-hyp>+ <let-dig>
pub data IsLabel : List ℕ → Type 0 where
  label :
      (c d : ℕ) (middle : List ℕ)
      → is_letter c ≡ true
      → All (λ x. is_let_dig_hyp x ≡ true) middle
      → is_let_dig d ≡ true
      → 1 ≤ length middle
      → IsLabel (c ∷ middle ++ d ∷ [])

-- <subdomain> ::= <label> | <label> "." <subdomain>
pub data IsSubdomain : List ℕ → Type 0 where
  one : {l : List ℕ} → IsLabel l → IsSubdomain l
  more : {l rest : List ℕ} → IsLabel l → IsSubdomain rest → IsSubdomain (l ++ b'.' ∷ rest)

abbrev pub IsAccountName : List ℕ → Type 0
IsAccountName name =
    (min_account_name_length ≤ length name)
    × (length name ≤ max_account_name_length)
    × IsSubdomain name

-- the characters after the first one of a label
abbrev IsTail : List ℕ → Type 0
IsTail xs =
    (middle : List ℕ) × (d : ℕ) × (xs ≡ middle ++ d ∷ [])
    × All (λ x. is_let_dig_hyp x ≡ true) middle
    × (is_let_dig d ≡ true)

IsTail-of : (xs : List ℕ) → is_tail xs ≡ true → IsTail xs
unfolding is_tail
IsTail-of [] h = cc
IsTail-of (c ∷ []) h = ([], c, refl, tt, h)
IsTail-of (c ∷ d ∷ rest) h =
    let (middle, e, same, hyps, last) = IsTail-of (d ∷ rest) (ground arith) in
    (c ∷ middle, e, ap (λ l. c ∷ l) same, (ground arith, hyps), last)

is_tail-snoc :
    (middle : List ℕ) (d : ℕ)
    → All (λ x. is_let_dig_hyp x ≡ true) middle
    → is_let_dig d ≡ true
    → is_tail (middle ++ d ∷ []) ≡ true
unfolding is_tail
is_tail-snoc [] d h k = k
is_tail-snoc (c ∷ []) d h k = ground (arith, h.0, k)
is_tail-snoc (c ∷ e ∷ rest) d h k = ground (arith, h.0, is_tail-snoc (e ∷ rest) d h.1 k)

length-snoc : (xs : List ℕ) (d : ℕ) → length (xs ++ d ∷ []) ≡ suc (length xs)
length-snoc [] d = refl
length-snoc (x ∷ xs) d = ap suc (length-snoc xs d)

IsLabel-of : (xs : List ℕ) → is_label xs ≡ true → IsLabel xs
unfolding is_label
IsLabel-of [] h = cc
IsLabel-of (c ∷ rest) h =
    let (middle, d, same, hyps, last) = IsTail-of rest (ground arith) in
    let long : 3 ≤ length (c ∷ rest) = ground arith in
    let size : length rest ≡ suc (length middle) = ap length same ∙ length-snoc middle d in
    subst (λ l. IsLabel (c ∷ l)) (sym same)
      (label c d middle (ground arith) hyps last (omega (arith, long, size)))

is_label-of : {xs : List ℕ} → IsLabel xs → is_label xs ≡ true
unfolding is_label
is_label-of (label c d middle first hyps last long) =
    let rest : is_tail (middle ++ d ∷ []) ≡ true = is_tail-snoc middle d hyps last in
    let size : length (middle ++ d ∷ []) ≡ suc (length middle) = length-snoc middle d in
    ground (arith, rest, size, first, long)

abbrev NoDot : List ℕ → Type 0
NoDot xs = All (λ c. (c == b'.') ≡ false) xs

-- where the first dot is
abbrev IsSplit : List ℕ → List ℕ × Option (List ℕ) → Type 0
IsSplit xs (before, none) = xs ≡ before
IsSplit xs (before, some rest) = xs ≡ before ++ b'.' ∷ rest

IsSplit-cons :
    (c : ℕ) (xs : List ℕ) (p : List ℕ × Option (List ℕ))
    → IsSplit xs p
    → IsSplit (c ∷ xs) (c ∷ p.0, p.1)
IsSplit-cons c xs (before, none) h = ap (λ l. c ∷ l) h
IsSplit-cons c xs (before, some rest) h = ap (λ l. c ∷ l) h

find_dot-IsSplit : (xs : List ℕ) → IsSplit xs (find_dot xs)
unfolding find_dot
find_dot-IsSplit [] = refl
find_dot-IsSplit (c ∷ xs) = elim (Bool-cases (c == b'.')) [
  | inl dot ↦ let same : c ≡ b'.' = ground arith in rw dot (ap (λ x. x ∷ xs) same)
  | inr other ↦ rw other (IsSplit-cons c xs (find_dot xs) (find_dot-IsSplit xs))
]

module _ (xs : List ℕ) where
  split-last : (p : List ℕ × Option (List ℕ)) → IsSplit xs p → p.1 ≡ none → xs ≡ p.0
  split-last (before, none) h e = h
  split-last (before, some rest) h e = cc

  split-next :
      (p : List ℕ × Option (List ℕ)) (rest : List ℕ)
      → IsSplit xs p
      → p.1 ≡ some rest
      → xs ≡ p.0 ++ b'.' ∷ rest
  split-next (before, none) rest h e = cc
  split-next (before, some next) rest h e =
      let same : next ≡ rest = cc in h ∙ ap (λ r. before ++ b'.' ∷ r) same

find_dot-none : (xs : List ℕ) → NoDot xs → find_dot xs ≡ (xs, none)
unfolding find_dot
find_dot-none [] h = refl
find_dot-none (c ∷ xs) h = rw (h.0, find_dot-none xs h.1) refl

find_dot-some : (xs rest : List ℕ) → NoDot xs → find_dot (xs ++ b'.' ∷ rest) ≡ (xs, some rest)
unfolding find_dot
find_dot-some [] rest h = refl
find_dot-some (c ∷ xs) rest h = rw (h.0, find_dot-some xs rest h.1) refl

IsLabel-NoDot : {xs : List ℕ} → IsLabel xs → NoDot xs
IsLabel-NoDot (label c d middle first hyps last long) = (
  ground arith,
  All-snoc _ middle d (All-imp _ _ middle (λ x h. ground arith) hyps) (ground arith),
)

-- With fuel above the length the loop ends, and accepts no other subdomains.
are_labels-Ends :
    (fuel : ℕ) (rest : List ℕ)
    → length rest < fuel
    → (accepted : Bool) × (are_labels fuel rest ≡ ok accepted)
      × (accepted ≡ true → IsSubdomain rest)
unfolding are_labels
are_labels-Ends zero rest h = absurd (omega (arith, h))
are_labels-Ends (suc fuel) rest h = elim (Bool-cases (is_label (find_dot rest).0)) [
  | inl good ↦ elim (Option-cases (find_dot rest).1) [
    | inl last ↦
        let same = split-last rest (find_dot rest) (find_dot-IsSplit rest) last in
        (
          true,
          rw (good, last) refl,
          λ e. subst IsSubdomain (sym same) (one (IsLabel-of (find_dot rest).0 good)),
        )
    | inr (next, dot) ↦
        let same = split-next rest (find_dot rest) next (find_dot-IsSplit rest) dot in
        let size : length rest ≡ length (find_dot rest).0 + suc (length next) =
          ap length same ∙ length-append (find_dot rest).0 (b'.' ∷ next) in
        let (accepted, run, sound) = are_labels-Ends fuel next (omega (arith, h, size)) in
        (
          accepted,
          rw (good, dot) run,
          λ e. subst IsSubdomain (sym same) (more (IsLabel-of (find_dot rest).0 good) (sound e)),
        )
  ]
  | inr bad ↦ (false, rw bad refl, λ e. cc)
]

-- ... and it accepts every subdomain.
are_labels-of :
    (fuel : ℕ) (rest : List ℕ)
    → length rest < fuel
    → IsSubdomain rest
    → are_labels fuel rest ≡ ok true
unfolding are_labels
are_labels-of zero rest h sub = absurd (omega (arith, h))
are_labels-of (suc fuel) rest h (one l) =
    let good : is_label rest ≡ true = is_label-of l in
    rw (find_dot-none rest (IsLabel-NoDot l), good) refl
are_labels-of (suc fuel) _ h (more {l = l} {rest = rest} first others) =
    let good : is_label l ≡ true = is_label-of first in
    let size : length (l ++ b'.' ∷ rest) ≡ length l + suc (length rest) =
      length-append l (b'.' ∷ rest) in
    let next : are_labels fuel rest ≡ ok true =
      are_labels-of fuel rest (omega (arith, h, size)) others in
    rw (find_dot-some l rest (IsLabel-NoDot first), good) next

-- The test of an account name returns, for every string; and it accepts exactly the names of 3 to 16
-- characters that the grammar derives: labels of at least three characters with dots between them,
-- each with a letter first, a letter or a digit last, and letters, digits and hyphens in between.
pub is_valid_account_name-IsAccountName :
    (name : List ℕ)
    → (accepted : Bool) × (is_valid_account_name name ≡ ok accepted)
      × ((accepted ≡ true) ↔ IsAccountName name)
unfolding is_valid_account_name
is_valid_account_name-IsAccountName name = elim (Bool-cases (ltb (length name) 3)) [
  | inl short ↦ (false, rw short refl, (λ e. cc, λ h. absurd (ground (arith, h.0))))
  | inr enough ↦ elim (Bool-cases (ltb 16 (length name))) [
    | inl long ↦ (false, rw (enough, long) refl, (λ e. cc, λ h. absurd (ground (arith, h.1))))
    | inr fits ↦
        let (accepted, run, sound) = are_labels-Ends (suc (length name)) name (omega arith) in
        (
          accepted,
          rw (enough, fits) run,
          (
            λ e. (ground arith, ground arith, sound e),
            λ h. let good = are_labels-of (suc (length name)) name (omega arith) h.2 in cc,
          ),
        )
  ]
]
