-- ===== src/Validation/Payments.antt =====
-- `validate` of the operations that move assets (libraries/protocol/bmchain_operations.cpp).
use bmchain_core.Chain.Vesting.{ClaimReward}
use bmchain_core.Protocol.Config.{bmt_symbol, hundred_percent, vests_symbol}
use bmchain_core.Chain.ContentOrders.{ContentOrderCreate}
use bmchain_core.Chain.Delegations.{Delegate}
use bmchain_core.Chain.Escrow.{EscrowApprove, EscrowDispute, EscrowRelease, EscrowTransfer}
use bmchain_core.Chain.Transfers.{Transfer}
use bmchain_core.Validation.{
  Text, validate_account_name, is_asset_type, validate_memo, when, no_asset, validate_json,
}
use bmchain_core.Protocol.Asset.{Asset, assert_ge, assert_gt}
use bmchain_core.Prelude.{
  ℕ, Result, List, ◌>>◌, fc_assert, ltb_ℤ, leb_ℤ, leb, not, ◌==◌, pos, ◌||◌, ◌&&◌, ltb,
}

module _ ⦃t : Text⦄ where
  -- `transfer_operation::validate`
  unfoldable pub validate_transfer : Transfer → List ℕ → Result (Unit {0})
  validate_transfer o memo = do
    validate_account_name o.sender
    validate_account_name o.to
    fc_assert (ltb_ℤ (pos 0) o.amount.amount)
    validate_memo memo

  -- `transfer_to_savings_operation::validate`, `transfer_from_savings_operation::validate`
  unfoldable pub validate_transfer_to_savings : Transfer → List ℕ → Result (Unit {0})
  validate_transfer_to_savings o memo = do
    validate_account_name o.sender
    validate_account_name o.to
    fc_assert (ltb_ℤ (pos 0) o.amount.amount)
    fc_assert ((o.amount.symbol == bmt_symbol) || (o.amount.symbol == bmt_symbol))
    validate_memo memo

  unfoldable pub validate_transfer_from_savings : Transfer → List ℕ → Result (Unit {0})
  validate_transfer_from_savings o memo = do
    validate_account_name o.sender
    validate_account_name o.to
    fc_assert (ltb_ℤ (pos 0) o.amount.amount)
    fc_assert ((o.amount.symbol == bmt_symbol) || (o.amount.symbol == bmt_symbol))
    validate_memo memo

  -- `escrow_transfer_operation::validate`
  unfoldable pub validate_escrow_transfer : EscrowTransfer → List ℕ → Result (Unit {0})
  validate_escrow_transfer o json_meta = do
    validate_account_name o.sender
    validate_account_name o.to
    validate_account_name o.agent
    fc_assert (leb_ℤ (pos 0) o.fee.amount)
    fc_assert (leb_ℤ (pos 0) o.bmt_amount.amount)
    fc_assert (not (o.sender == o.agent) && not (o.to == o.agent))
    fc_assert ((o.fee.symbol == bmt_symbol) || (o.fee.symbol == bmt_symbol))
    fc_assert (o.bmt_amount.symbol == bmt_symbol)
    fc_assert (ltb o.ratification_deadline o.escrow_expiration)
    validate_json json_meta

-- `transfer_to_vesting_operation::validate`
unfoldable pub validate_transfer_to_vesting : Transfer → Result (Unit {0})
validate_transfer_to_vesting o = do
  validate_account_name o.sender
  fc_assert (is_asset_type o.amount bmt_symbol)
  when (not (o.to == 0)) (validate_account_name o.to)
  assert_gt o.amount (no_asset bmt_symbol)

-- `withdraw_savings_operation::validate`
unfoldable pub validate_withdraw_savings : ℕ → Asset → Result (Unit {0})
validate_withdraw_savings account savings = do
  validate_account_name account
  fc_assert (is_asset_type savings bmt_symbol)

-- `set_withdraw_savings_route_operation::validate`; `percent` is a `uint16_t`
unfoldable pub validate_set_withdraw_savings_route : ℕ → ℕ → ℕ → Result (Unit {0})
validate_set_withdraw_savings_route from_account to_account percent = do
  validate_account_name from_account
  validate_account_name to_account
  fc_assert (leb percent hundred_percent)

-- `cancel_transfer_from_savings_operation::validate`
unfoldable pub validate_cancel_transfer_from_savings : ℕ → Result (Unit {0})
validate_cancel_transfer_from_savings sender = validate_account_name sender

-- `escrow_approve_operation::validate`
unfoldable pub validate_escrow_approve : EscrowApprove → Result (Unit {0})
validate_escrow_approve o = do
  validate_account_name o.sender
  validate_account_name o.to
  validate_account_name o.agent
  validate_account_name o.who
  fc_assert ((o.who == o.to) || (o.who == o.agent))

-- `escrow_dispute_operation::validate`; `who` is not part of the operation of the evaluator
unfoldable pub validate_escrow_dispute : EscrowDispute → ℕ → Result (Unit {0})
validate_escrow_dispute o who = do
  validate_account_name o.sender
  validate_account_name o.to
  validate_account_name o.agent
  validate_account_name who
  fc_assert ((who == o.sender) || (who == o.to))

-- `escrow_release_operation::validate`
unfoldable pub validate_escrow_release : EscrowRelease → Result (Unit {0})
validate_escrow_release o = do
  validate_account_name o.sender
  validate_account_name o.to
  validate_account_name o.agent
  validate_account_name o.who
  validate_account_name o.receiver
  fc_assert ((o.who == o.sender) || (o.who == o.to) || (o.who == o.agent))
  fc_assert ((o.receiver == o.sender) || (o.receiver == o.to))
  fc_assert (leb_ℤ (pos 0) o.bmt_amount.amount)
  fc_assert (o.bmt_amount.symbol == bmt_symbol)

-- `claim_reward_balance_operation::validate`
unfoldable pub validate_claim_reward_balance : ClaimReward → Result (Unit {0})
validate_claim_reward_balance o = do
  validate_account_name o.account
  fc_assert (is_asset_type o.reward_bmt bmt_symbol)
  fc_assert (is_asset_type o.reward_vests vests_symbol)
  fc_assert (leb_ℤ (pos 0) o.reward_bmt.amount)
  fc_assert (leb_ℤ (pos 0) o.reward_vests.amount)
  fc_assert (ltb_ℤ (pos 0) o.reward_bmt.amount || ltb_ℤ (pos 0) o.reward_vests.amount)

-- `delegate_vesting_shares_operation::validate`
unfoldable pub validate_delegate_vesting_shares : Delegate → Result (Unit {0})
validate_delegate_vesting_shares o = do
  validate_account_name o.delegator
  validate_account_name o.delegatee
  fc_assert (not (o.delegator == o.delegatee))
  fc_assert (is_asset_type o.vesting_shares vests_symbol)
  assert_ge o.vesting_shares (no_asset vests_symbol)

-- `content_order_create_operation::validate`, and those of its cancellations
unfoldable pub validate_content_order_create : ContentOrderCreate → Result (Unit {0})
validate_content_order_create o = do
  validate_account_name o.author
  validate_account_name o.owner
  fc_assert (not (o.author == o.owner))
  fc_assert (is_asset_type o.price bmt_symbol)

unfoldable pub validate_content_order_cancel : ℕ → Result (Unit {0})
validate_content_order_cancel owner = validate_account_name owner

unfoldable pub validate_content_order_cancel_by_author : ℕ → Result (Unit {0})
validate_content_order_cancel_by_author author = validate_account_name author
