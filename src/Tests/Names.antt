-- ===== src/Tests/Names.antt =====
-- Account names, signatures, validation.
use bmchain_core.Protocol.Fc.{safe_neg, safe_add}
use bmchain_core.Protocol.Asset.{asset_neg, asset_add, assert_ge, asset_ge, asset_lt}
use bmchain_core.Validation.Beneficiaries.Shares.{IsShared, validate_beneficiaries-IsShared}
use bmchain_core.Protocol.SignState.Soundness.{IsProvided, check_account-sign_state}
use bmchain_core.Protocol.AccountName.Grammar.{IsAccountName, is_valid_account_name-IsAccountName}
use bmchain_core.Chain.Accounts.{
  get_account, get_balance, modify_account, adjust_balance, add_balance,
}
use bmchain_core.Protocol.SignState.Approves.{Approves}
use bmchain_core.Validation.Solvency.{payment-IsSolvent}
use bmchain_core.Tests.Fixtures.{small_db, bmt, holder, checked}
use bmchain_core.Protocol.AccountName.{
  is_valid_account_name, are_labels, is_label, is_tail, find_dot,
}
use bmchain_core.Validation.Solvent.{IsSolvent}
use bmchain_core.Chain.Operations.{apply_operation, transfer_operation}
use bmchain_core.Validation.Payments.{validate_transfer}
use bmchain_core.Chain.Transfers.{Transfer, transfer, prove_active}
use bmchain_core.Chain.Objects.{Db}
use bmchain_core.Validation.{Text, validate_memo, validate_account_name}
use bmchain_core.Validation.Beneficiaries.{validate_beneficiaries, Beneficiary, validate_routes}
use bmchain_core.Protocol.SignState.{
  check_account, check_authority, check_weights, check_keys, sign_state, check_accounts, next_check,
  signed_by, unused_signatures,
}
use bmchain_core.Protocol.Authority.{Authority}
use bmchain_core.Protocol.FixedString.{text, fixed_string, text-fixed_string, unpack, until_nul}
use bmchain_core.Tests.Fixtures.{reference_fc}
use bmchain_core.Prelude.{
  ℕ, [], ◌∷◌, List, Bool, Result, Gives, ok, ◌≡◌, true, ◌↔◌, if◌then◌else◌, arith, ◌==◌, set_entry,
  insert_name, refl, find_by, ◌>>=◌, neg_ℤ, ◌+ℤ◌, replace_by,
}

-- "alice" and "bob", as strings and in their storage
abbrev alice_text : List ℕ
alice_text = b'a' ∷ b'l' ∷ b'i' ∷ b'c' ∷ b'e' ∷ []

abbrev alice : ℕ
alice = 129498021179713059385070366614188195840

abbrev bob : ℕ
bob = 130842676214360279275041523830643228672

is_valid_account_name-IsAccountName_example :
    (accepted : Bool) × (is_valid_account_name alice_text ≡ ok accepted)
    × ((accepted ≡ true) ↔ IsAccountName alice_text)
is_valid_account_name-IsAccountName_example = is_valid_account_name-IsAccountName alice_text

text-fixed_string_example : text (fixed_string alice_text) ≡ alice_text
text-fixed_string_example =
    text-fixed_string alice_text
      (
        (omega arith, omega arith),
        (
          (omega arith, omega arith),
          (
            (omega arith, omega arith),
            ((omega arith, omega arith), ((omega arith, omega arith), tt)),
          ),
        ),
      )
      (omega arith)

-- two keys, either of which is enough for an account that the active authority of 1 names
abbrev shared : Authority
shared = record {
  weight_threshold = 2;
  account_auths = (5, 1) ∷ [];
  key_auths = (20, 1) ∷ (21, 1) ∷ [];
}

abbrev alone : Authority
alone = record { weight_threshold = 1; account_auths = []; key_auths = (22, 1) ∷ [] }

abbrev active_of : ℕ → Result Authority
active_of n = ok (if n == 5 then alone else shared)

check_account-sign_state_example :
    Gives
      (λ r. r.0 ≡ true → Approves active_of (IsProvided (20 ∷ 22 ∷ []) []) (λ a. a ≡ 0) 1)
      (check_account active_of 1 (sign_state 0 (20 ∷ 22 ∷ []) []))
check_account-sign_state_example = check_account-sign_state active_of 0 (20 ∷ 22 ∷ []) [] 1

-- a run of the search: one key of the account and its other account make the weight
check_account_run :
    (check_account active_of 1 (sign_state 0 (20 ∷ 22 ∷ []) []) >>= λ r. ok r.0) ≡ ok true
unfolding check_account check_authority check_weights check_keys check_accounts next_check
    sign_state signed_by set_entry insert_name unused_signatures find_by
check_account_run = refl

abbrev routes : List Beneficiary
routes = record { account = alice; weight = 2500 } ∷ record { account = bob; weight = 7500 } ∷ []

validate_beneficiaries-IsShared_example : (validate_beneficiaries routes ≡ ok tt) ↔ IsShared routes
validate_beneficiaries-IsShared_example = validate_beneficiaries-IsShared routes

validate_routes_run : validate_beneficiaries routes ≡ ok tt
unfolding validate_beneficiaries validate_routes validate_account_name is_valid_account_name
    are_labels is_label is_tail find_dot text unpack until_nul
validate_routes_run = refl

-- a text library that accepts everything
instance abbrev plain_text : Text
plain_text = record { is_utf8 = λ s. true; is_json = λ s. true }

abbrev named_db : Db
named_db = record small_db { accounts = holder alice 100 ∷ holder bob 50 ∷ []; escrows = [] }

abbrev payment : Transfer
payment = record { sender = alice; to = bob; amount = bmt 30 }

payment_valid : validate_transfer payment [] ≡ ok tt
unfolding validate_transfer validate_memo validate_account_name is_valid_account_name are_labels
    is_label is_tail find_dot text unpack until_nul
payment_valid = refl

abbrev paid_db : Db
paid_db = record named_db {
  accounts =
      record (holder alice 100) { balance = bmt 70 }
      ∷ record (holder bob 50) { balance = bmt 80 }
      ∷ [];
}

payment_run : apply_operation (transfer_operation payment) named_db ≡ ok paid_db
unfolding apply_operation transfer get_account get_balance modify_account prove_active
    adjust_balance add_balance asset_neg asset_add safe_neg safe_add assert_ge asset_ge asset_lt
    checked neg_ℤ ◌+ℤ◌ find_by replace_by
payment_run = refl

payment-IsSolvent_example : IsSolvent paid_db
payment-IsSolvent_example =
    payment-IsSolvent (transfer_operation payment) named_db paid_db ([], payment_valid)
      (((omega arith, omega arith), ((omega arith, omega arith), tt)), tt, (omega arith, tt))
      payment_run
