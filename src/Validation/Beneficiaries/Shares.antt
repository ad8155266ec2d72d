-- ===== src/Validation/Beneficiaries/Shares.antt =====
-- Which beneficiaries the loop accepts, and that the sum of their weights never wraps around.
use bmchain_core.Protocol.Config.{hundred_percent}
use bmchain_core.Protocol.FixedString.{text}
use bmchain_core.Protocol.AccountName.Grammar.{IsAccountName, is_valid_account_name-IsAccountName}
use bmchain_core.Validation.{validate_account_name, text}
use bmchain_core.Validation.Beneficiaries.{
  Beneficiary, validate_routes, hundred_percent, validate_beneficiaries,
}
use bmchain_core.Prelude.{
  ℕ, [], ◌∷◌, List, ◌<◌, length, ◌≡◌, ◌≤◌, All, ◌+◌, ok, ◌↔◌, arith, ◌%◌, then-ok, ◌^◌,
  fc_assert-ok, refl, ap, fc_assert, leb, ltb, true,
}

-- the weights together, in ℕ
abbrev pub total_weight : List Beneficiary → ℕ
total_weight [] = 0
total_weight (b ∷ rest) = b.weight + total_weight rest

-- accounts that rise strictly, all after `previous`
abbrev pub Ascending : ℕ → List Beneficiary → Type 0
Ascending previous [] = Unit {0}
Ascending previous (b ∷ rest) = (previous < b.account) × Ascending b.account rest

abbrev pub IsNamed : Beneficiary → Type 0
IsNamed b = IsAccountName (text b.account)

-- what an author may give away of a comment
abbrev pub IsShared : List Beneficiary → Type 0
IsShared [] = ⊥
IsShared (b ∷ rest) =
    (length (b ∷ rest) ≤ 127)
    × All IsNamed (b ∷ rest)
    × (total_weight (b ∷ rest) ≤ hundred_percent)
    × Ascending b.account rest

pub validate_account_name-IsAccountName :
    (name : ℕ) → (validate_account_name name ≡ ok tt) ↔ IsAccountName (text name)
unfolding validate_account_name
validate_account_name-IsAccountName name =
    let (accepted, run, (sound, complete)) = is_valid_account_name-IsAccountName (text name) in
    rw run ((λ h. sound (fc_assert-ok accepted h)), λ h. ap fc_assert (complete h))

validate_routes_sound :
    (previous sum : ℕ) (routes : List Beneficiary)
    → sum ≤ hundred_percent
    → validate_routes previous sum routes ≡ ok tt
    → All IsNamed routes × (sum + total_weight routes ≤ hundred_percent) × Ascending previous routes
unfolding validate_routes
validate_routes_sound previous sum [] fits h = (tt, omega (arith, fits), tt)
validate_routes_sound previous sum (b ∷ rest) fits h =
    let (name, h1) = then-ok (validate_account_name b.account) h in
    let (weight, h2) = then-ok (fc_assert (leb b.weight hundred_percent)) h1 in
    let (sum_fits, h3) = then-ok (fc_assert (leb ((sum + b.weight) % 2 ^ 32) hundred_percent)) h2 in
    let (after, h4) = then-ok (fc_assert (ltb previous b.account)) h3 in
    let light : b.weight ≤ hundred_percent = ground (arith, fc_assert-ok _ weight) in
    let same : (sum + b.weight) % 2 ^ 32 ≡ sum + b.weight = omega (arith, fits, light) in
    let enough : (sum + b.weight) % 2 ^ 32 ≤ hundred_percent =
      ground (arith, fc_assert-ok _ sum_fits) in
    let (names, shares, up) =
      validate_routes_sound b.account ((sum + b.weight) % 2 ^ 32) rest enough h4 in
    (
      ((validate_account_name-IsAccountName b.account).0 name, names),
      omega (arith, shares, same),
      (ground (arith, fc_assert-ok _ after), up),
    )

validate_routes_complete :
    (previous sum : ℕ) (routes : List Beneficiary)
    → All IsNamed routes
    → sum + total_weight routes ≤ hundred_percent
    → Ascending previous routes
    → validate_routes previous sum routes ≡ ok tt
unfolding validate_routes
validate_routes_complete previous sum [] names fits up = refl
validate_routes_complete previous sum (b ∷ rest) names fits up =
    let same : (sum + b.weight) % 2 ^ 32 ≡ sum + b.weight = omega (arith, fits) in
    let name = (validate_account_name-IsAccountName b.account).1 names.0 in
    let light : leb b.weight hundred_percent ≡ true = ground (arith, fits) in
    let shares : leb (sum + b.weight) hundred_percent ≡ true = ground (arith, fits) in
    let after : ltb previous b.account ≡ true = ground (arith, up.0) in
    let others =
      validate_routes_complete b.account (sum + b.weight) rest names.1 (omega (arith, fits)) up.1 in
    rw (name, light, same, shares, after) others

-- The beneficiaries of a comment are accepted exactly when there are 1 to 127 of them, with account
-- names of the grammar that rise strictly, and weights of at most 100% together, summed without a
-- wrap around.
pub validate_beneficiaries-IsShared :
    (routes : List Beneficiary) → (validate_beneficiaries routes ≡ ok tt) ↔ IsShared routes
unfolding validate_beneficiaries
validate_beneficiaries-IsShared [] = ((λ h. cc), λ h. absurd h)
validate_beneficiaries-IsShared (b ∷ rest) = (
  (λ h.
      let (few, h1) = then-ok (fc_assert (ltb (length (b ∷ rest)) 128)) h in
      let (name, h2) = then-ok (validate_account_name b.account) h1 in
      let (weight, h3) = then-ok (fc_assert (leb b.weight hundred_percent)) h2 in
      let (_, h4) = then-ok (fc_assert (leb (b.weight % 2 ^ 32) hundred_percent)) h3 in
      let light : b.weight ≤ hundred_percent = ground (arith, fc_assert-ok _ weight) in
      let (names, shares, up) =
        validate_routes_sound b.account (b.weight % 2 ^ 32) rest (omega (arith, light)) h4 in
      (
        ground (arith, fc_assert-ok _ few),
        ((validate_account_name-IsAccountName b.account).0 name, names),
        omega (arith, shares, light),
        up,
      )),
  λ (few, names, shares, up).
      let same : b.weight % 2 ^ 32 ≡ b.weight = omega (arith, shares) in
      let short : ltb (length (b ∷ rest)) 128 ≡ true = ground (arith, few) in
      let name = (validate_account_name-IsAccountName b.account).1 names.0 in
      let light : leb b.weight hundred_percent ≡ true = ground (arith, shares) in
      let others = validate_routes_complete b.account b.weight rest names.1 shares up in
      rw (short, name, same, light) others,
)
