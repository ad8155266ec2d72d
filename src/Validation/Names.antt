-- ===== src/Validation/Names.antt =====
-- `validate` of the operations on accounts, authorities, votes and witnesses
-- (libraries/protocol/bmchain_operations.cpp).
use bmchain_core.Protocol.FixedString.{size}
use bmchain_core.Protocol.Config.{bmt_symbol, vests_symbol, hundred_percent}
use bmchain_core.Protocol.Authority.{Authority, authority_eq, is_impossible}
use bmchain_core.Validation.{
  Text, validate_account_name, is_asset_type, validate_json, when, validate_authority,
  validate_authorities, no_asset, validate_permlink,
}
use bmchain_core.Protocol.Asset.{Asset, assert_ge}
use bmchain_core.Prelude.{
  ℕ, List, Result, ℤ, fc_assert, ltb, length, ◌>>◌, leb, not, ◌+◌, pos_part, ◌==◌, neg_part,
}

pub record AccountCreate : Type 0 where
  pub fee : Asset
  pub delegation : Asset
  pub creator : ℕ
  pub new_account_name : ℕ
  pub owner : Authority
  pub active : Authority
  pub posting : Authority
  pub json_metadata : List ℕ

pub record Vote : Type 0 where
  pub voter : ℕ
  pub author : ℕ
  pub permlink : List ℕ
  pub weight : ℤ

module _ ⦃t : Text⦄ where
  -- `account_create_operation::validate`, whose operation has no delegation
  unfoldable pub validate_account_create : AccountCreate → Result (Unit {0})
  validate_account_create o = do
    validate_account_name o.new_account_name
    fc_assert (is_asset_type o.fee bmt_symbol)
    validate_authority o.owner
    validate_authority o.active
    validate_json o.json_metadata
    assert_ge o.fee (no_asset bmt_symbol)

  -- `account_create_with_delegation_operation::validate`
  unfoldable pub validate_account_create_with_delegation : AccountCreate → Result (Unit {0})
  validate_account_create_with_delegation o = do
    validate_account_name o.new_account_name
    validate_account_name o.creator
    fc_assert (is_asset_type o.fee bmt_symbol)
    fc_assert (is_asset_type o.delegation vests_symbol)
    validate_authority o.owner
    validate_authority o.active
    validate_authority o.posting
    validate_json o.json_metadata
    assert_ge o.fee (no_asset bmt_symbol)
    assert_ge o.delegation (no_asset vests_symbol)

  -- `account_update_operation::validate`
  unfoldable pub validate_account_update : ℕ → List ℕ → Result (Unit {0})
  validate_account_update account json_metadata = do
    validate_account_name account
    validate_json json_metadata

  -- `vote_operation::validate`
  unfoldable pub validate_vote : Vote → Result (Unit {0})
  validate_vote o = do
    validate_account_name o.voter
    validate_account_name o.author
    fc_assert (leb (pos_part o.weight + neg_part o.weight) hundred_percent)
    validate_permlink o.permlink

-- `challenge_authority_operation::validate`
unfoldable pub validate_challenge_authority : ℕ → ℕ → Result (Unit {0})
validate_challenge_authority challenger challenged = do
  validate_account_name challenger
  validate_account_name challenged
  fc_assert (not (challenged == challenger))

-- `account_witness_vote_operation::validate`
unfoldable pub validate_account_witness_vote : ℕ → ℕ → Result (Unit {0})
validate_account_witness_vote account witness = do
  validate_account_name account
  validate_account_name witness

-- `account_witness_proxy_operation::validate`
unfoldable pub validate_account_witness_proxy : ℕ → ℕ → Result (Unit {0})
validate_account_witness_proxy account proxy = do
  validate_account_name account
  when (not (size proxy == 0)) (validate_account_name proxy)
  fc_assert (not (proxy == account))

-- `custom_operation::validate`
unfoldable pub validate_custom : List ℕ → Result (Unit {0})
validate_custom required_auths = fc_assert (ltb 0 (length required_auths))

-- `custom_json_operation::validate`
unfoldable pub validate_custom_json :
    ⦃t : Text⦄ → List ℕ → List ℕ → List ℕ → List ℕ → Result (Unit {0})
validate_custom_json ⦃t⦄ required_auths required_posting_auths id json = do
  fc_assert (ltb 0 (length required_auths + length required_posting_auths))
  fc_assert (leb (length id) 32)
  fc_assert (t.is_utf8 json)
  fc_assert (t.is_json json)

-- `custom_binary_operation::validate`
unfoldable pub validate_custom_binary :
    List ℕ → List ℕ → List ℕ → List ℕ → List Authority → Result (Unit {0})
validate_custom_binary owner_auths active_auths posting_auths id required_auths = do
  fc_assert (ltb 0 (length owner_auths + length active_auths + length posting_auths))
  fc_assert (leb (length id) 32)
  validate_authorities required_auths

-- `request_account_recovery_operation::validate`
unfoldable pub validate_request_account_recovery : ℕ → ℕ → Authority → Result (Unit {0})
validate_request_account_recovery recovery_account account_to_recover new_owner_authority = do
  validate_account_name recovery_account
  validate_account_name account_to_recover
  validate_authority new_owner_authority

-- `recover_account_operation::validate`
unfoldable pub validate_recover_account : ℕ → Authority → Authority → Result (Unit {0})
validate_recover_account account_to_recover new_owner_authority recent_owner_authority = do
  validate_account_name account_to_recover
  fc_assert (not (authority_eq new_owner_authority recent_owner_authority))
  fc_assert (not (is_impossible new_owner_authority))
  fc_assert (not (is_impossible recent_owner_authority))
  fc_assert (not (new_owner_authority.weight_threshold == 0))
  validate_authority new_owner_authority
  validate_authority recent_owner_authority

-- `change_recovery_account_operation::validate`
unfoldable pub validate_change_recovery_account : ℕ → ℕ → Result (Unit {0})
validate_change_recovery_account account_to_recover new_recovery_account = do
  validate_account_name account_to_recover
  validate_account_name new_recovery_account

-- `decline_voting_rights_operation::validate`
unfoldable pub validate_decline_voting_rights : ℕ → Result (Unit {0})
validate_decline_voting_rights account = validate_account_name account

-- `reset_account_operation::validate`
unfoldable pub validate_reset_account : ℕ → ℕ → Authority → Result (Unit {0})
validate_reset_account reset_account account_to_reset new_owner_authority = do
  validate_account_name reset_account
  validate_account_name account_to_reset
  fc_assert (not (is_impossible new_owner_authority))
  fc_assert (not (new_owner_authority.weight_threshold == 0))
  validate_authority new_owner_authority

-- `set_reset_account_operation::validate`
unfoldable pub validate_set_reset_account : ℕ → ℕ → ℕ → Result (Unit {0})
validate_set_reset_account account current_reset_account reset_account = do
  validate_account_name account
  when (not (size current_reset_account == 0)) (validate_account_name current_reset_account)
  validate_account_name reset_account
  fc_assert (not (current_reset_account == reset_account))
