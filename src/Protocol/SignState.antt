-- ===== src/Protocol/SignState.antt =====
-- `struct sign_state` (libraries/protocol/sign_state.cpp): whether the signatures of a transaction
-- satisfy an authority. `get_active`, a callback of the caller that may throw, is a parameter. The
-- recursion is on what is left of `max_recursion`.
pub mod Approves
pub mod Soundness
use bmchain_core.Protocol.Config.{max_sig_check_depth}
use bmchain_core.Prelude.{
  ℕ, zero, suc, List, Bool, Result, Option, ◌==◌, ◌∷◌, false, [], find_by, ok, if◌then◌else◌, none,
  not, ltb, ◌||◌, true, ◌+◌, some, length, ◌%◌, ◌>>=◌, ◌^◌, leb, insert_name, has_name, set_entry,
}
use bmchain_core.Protocol.Authority.{Authority}

pub record SignState : Type 0 where
  pub available_keys : List ℕ
  pub provided_signatures : List (ℕ × Bool)
  pub approved_by : List ℕ

abbrev pub is_key {ℓ} : {A : Type ℓ} → ℕ → ℕ × A → Bool
is_key k entry = entry.0 == k

-- the constructor; `temp` is the name that it approves
unfoldable pub unused_signatures : List ℕ → List (ℕ × Bool)
unused_signatures [] = []
unused_signatures (k ∷ rest) = set_entry k false (unused_signatures rest)

unfoldable pub sign_state : ℕ → List ℕ → List ℕ → SignState
sign_state temp sigs keys = record {
  available_keys = keys;
  provided_signatures = unused_signatures sigs;
  approved_by = insert_name temp [];
}

unfoldable pub signed_by : ℕ → SignState → Bool × SignState
signed_by k st = elim (find_by (is_key k) st.provided_signatures) [
  | none ↦
      if has_name k st.available_keys
      then (true, record st { provided_signatures = set_entry k true st.provided_signatures })
      else (false, st)
  | some entry ↦ (true, record st { provided_signatures = set_entry k true st.provided_signatures })
]

-- A loop of `check_authority` ends with whether it returned early, the total weight and the state.
abbrev pub Round : Type 0
Round = Bool × ℕ × SignState

unfoldable pub check_keys : ℕ → List (ℕ × ℕ) → ℕ → SignState → Round
check_keys threshold [] total st = (false, total, st)
check_keys threshold ((k, w) ∷ rest) total st =
    let (signed, st') = signed_by k st in
    let total' = (total + w) % 2 ^ 32 in
    let with_key = check_keys threshold rest total' st' in
    let without_key = check_keys threshold rest total st' in
    if signed then if leb threshold total' then (true, total', st') else with_key else without_key

-- `check_authority` on the authority of an account, at the next depth
abbrev pub Check : Type 0
Check = ℕ → SignState → Result (Bool × SignState)

-- the loop over accounts; `check` is `none` at the greatest depth
unfoldable pub check_accounts : Option Check → ℕ → List (ℕ × ℕ) → ℕ → SignState → Result Round
check_accounts check threshold [] total st = ok (false, total, st)
check_accounts check threshold ((a, w) ∷ rest) total st =
    let total' = (total + w) % 2 ^ 32 in
    let counted : SignState → Result Round = λ s.
      if leb threshold total'
      then ok (true, total', s)
      else check_accounts check threshold rest total' s in
    let passed : SignState → Result Round = λ s. check_accounts check threshold rest total s in
    if has_name a st.approved_by then counted st else elim check [
      | none ↦ passed st
      | some run ↦ run a st >>= λ answer.
          if answer.0
          then counted (record answer.1 { approved_by = insert_name a answer.1.approved_by })
          else passed answer.1
    ]

-- `check_authority( auth, depth )`, given the check at the next depth
unfoldable pub check_weights : Option Check → Authority → SignState → Result (Bool × SignState)
check_weights check auth st =
    let (early, total, st') = check_keys auth.weight_threshold auth.key_auths 0 st in
    if early
    then ok (true, st')
    else check_accounts check auth.weight_threshold auth.account_auths total st' >>= λ round.
        ok (round.0 || leb auth.weight_threshold round.1, round.2)

module _ (get_active : ℕ → Result Authority) where
  unfoldable pub next_check : ℕ → Option Check
  next_check zero = none
  next_check (suc left) =
      some λ a st. get_active a >>= λ auth. check_weights (next_check left) auth st

  -- `check_authority( auth, depth )`, where `left` is `max_recursion - depth`
  unfoldable pub check_authority : ℕ → Authority → SignState → Result (Bool × SignState)
  check_authority left = check_weights (next_check left)

  -- `check_authority( id )`
  unfoldable pub check_account : ℕ → SignState → Result (Bool × SignState)
  check_account id st =
      if has_name id st.approved_by
      then ok (true, st)
      else get_active id >>= λ auth. check_authority max_sig_check_depth auth st

-- `remove_unused_signatures`
unfoldable pub used_signatures : List (ℕ × Bool) → List (ℕ × Bool)
used_signatures [] = []
used_signatures ((k, used) ∷ rest) =
    let others = used_signatures rest in if used then (k, used) ∷ others else others

unfoldable pub remove_unused_signatures : SignState → Bool × SignState
remove_unused_signatures st =
    let used = used_signatures st.provided_signatures in
    (not (length used == length st.provided_signatures), record st { provided_signatures = used })
