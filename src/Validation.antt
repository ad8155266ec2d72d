-- ===== src/Validation.antt =====
-- `validate` of the operations (libraries/protocol/bmchain_operations.cpp), which a transaction calls
-- before any evaluator: the tests that the helpers of bmchain_operations.hpp make. The tests of UTF-8
-- and JSON belong to the fc library, a submodule, and are a parameter. Strings are lists of bytes;
-- where an operation of the model has no field for a text, the text is an argument of its own.
pub mod Names
pub mod Payments
pub mod Beneficiaries
pub mod Signs
pub mod Solvent
pub mod Solvency
use bmchain_core.Protocol.FixedString.{text}
use bmchain_core.Protocol.AccountName.{is_valid_account_name}
use bmchain_core.Protocol.Config.{max_permlink_length, max_memo_size}
use bmchain_core.Protocol.Asset.{Asset}
use bmchain_core.Protocol.Authority.{Authority}
use bmchain_core.Prelude.{
  ℕ, List, Bool, Result, if◌then◌else◌, ok, ltb, pos, ◌==◌, ◌∷◌, length, fc_assert, ◌>>◌, [], ◌>>=◌,
}

-- `fc::is_utf8` and `fc::json::is_valid`
pub record Text : Type 0 where
  pub is_utf8 : List ℕ → Bool
  pub is_json : List ℕ → Bool

-- a test under a condition
abbrev pub when : Bool → Result (Unit {0}) → Result (Unit {0})
when c m = if c then m else ok tt

-- `validate_account_name`, on a name in its storage
unfoldable pub validate_account_name : ℕ → Result (Unit {0})
validate_account_name name = do valid ← is_valid_account_name (text name); fc_assert valid

-- `authority::validate`
unfoldable pub validate_accounts : List (ℕ × ℕ) → Result (Unit {0})
validate_accounts [] = ok tt
validate_accounts ((a, w) ∷ rest) = do
  valid ← is_valid_account_name (text a)
  fc_assert valid
  validate_accounts rest

unfoldable pub validate_authority : Authority → Result (Unit {0})
validate_authority a = validate_accounts a.account_auths

unfoldable pub validate_authorities : List Authority → Result (Unit {0})
validate_authorities [] = ok tt
validate_authorities (a ∷ rest) = do validate_authority a; validate_authorities rest

module _ ⦃t : Text⦄ where
  -- `validate_permlink`
  unfoldable pub validate_permlink : List ℕ → Result (Unit {0})
  validate_permlink permlink = do
    fc_assert (ltb (length permlink) max_permlink_length)
    fc_assert (t.is_utf8 permlink)

  -- metadata that, when there is some, is JSON in UTF-8
  unfoldable pub validate_json : List ℕ → Result (Unit {0})
  validate_json json =
      when (ltb 0 (length json)) (fc_assert (t.is_utf8 json) >> fc_assert (t.is_json json))

  unfoldable pub validate_memo : List ℕ → Result (Unit {0})
  validate_memo memo = do fc_assert (ltb (length memo) max_memo_size); fc_assert (t.is_utf8 memo)

-- `asset( 0, symbol )`
abbrev pub no_asset : ℕ → Asset
no_asset symbol = record { amount = pos 0; symbol = symbol }

-- `is_asset_type`
abbrev pub is_asset_type : Asset → ℕ → Bool
is_asset_type a symbol = a.symbol == symbol
