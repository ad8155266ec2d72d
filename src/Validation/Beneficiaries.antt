-- ===== src/Validation/Beneficiaries.antt =====
-- `validate` of comments and of their options (libraries/protocol/bmchain_operations.cpp), with the
-- loop over the beneficiaries of a comment.
pub mod Shares
use bmchain_core.Protocol.FixedString.{size}
use bmchain_core.Protocol.Config.{min_curation_percent, hundred_percent, bmt_symbol}
use bmchain_core.Protocol.Asset.{Asset}
use bmchain_core.Validation.{Text, Asset, validate_account_name, when, validate_permlink}
use bmchain_core.Prelude.{
  ℕ, List, Result, ok, err, fc_assert, ◌∷◌, Error, leb, ◌+◌, ltb, ◌%◌, length, ◌&&◌, ◌^◌, ◌>>◌, not,
  ◌==◌, leb_ℤ, pos, [],
}

-- `beneficiary_route_type`
pub record Beneficiary : Type 0 where
  pub account : ℕ
  pub weight : ℕ

pub record CommentText : Type 0 where
  pub parent_author : ℕ
  pub parent_permlink : List ℕ
  pub author : ℕ
  pub permlink : List ℕ
  pub title : List ℕ
  pub body : List ℕ
  pub json_metadata : List ℕ

-- `comment_options_extension`
pub data CommentOption : Type 0 where
  comment_payout_beneficiaries : List Beneficiary → CommentOption
  comment_curation_rewards_percent : ℕ → CommentOption

pub record CommentOptions : Type 0 where
  pub author : ℕ
  pub permlink : List ℕ
  pub max_accepted_payout : Asset
  pub percent_bmt_dollars : ℕ
  pub extensions : List CommentOption

-- the loop of `comment_payout_beneficiaries::validate` from the second entry on, with the account
-- before it and the sum, a `uint32_t`
unfoldable pub validate_routes : ℕ → ℕ → List Beneficiary → Result (Unit {0})
validate_routes previous sum [] = ok tt
validate_routes previous sum (b ∷ rest) = do
  validate_account_name b.account
  fc_assert (leb b.weight hundred_percent)
  fc_assert (leb ((sum + b.weight) % 2 ^ 32) hundred_percent)
  fc_assert (ltb previous b.account)
  validate_routes b.account ((sum + b.weight) % 2 ^ 32) rest

-- `comment_payout_beneficiaries::validate`
unfoldable pub validate_beneficiaries : List Beneficiary → Result (Unit {0})
validate_beneficiaries [] = err Error.assertion
validate_beneficiaries (b ∷ rest) = do
  fc_assert (ltb (length (b ∷ rest)) 128)
  validate_account_name b.account
  fc_assert (leb b.weight hundred_percent)
  fc_assert (leb (b.weight % 2 ^ 32) hundred_percent)
  validate_routes b.account (b.weight % 2 ^ 32) rest

-- `comment_curation_rewards_percent::validate`
unfoldable pub validate_curation_percent : ℕ → Result (Unit {0})
validate_curation_percent percent =
    fc_assert (leb min_curation_percent percent && leb percent hundred_percent)

-- `comment_options_extension_validate_visitor`
unfoldable pub validate_option : CommentOption → Result (Unit {0})
validate_option (comment_payout_beneficiaries routes) = validate_beneficiaries routes
validate_option (comment_curation_rewards_percent percent) = validate_curation_percent percent

unfoldable pub validate_options : List CommentOption → Result (Unit {0})
validate_options [] = ok tt
validate_options (e ∷ rest) = do validate_option e; validate_options rest

module _ ⦃t : Text⦄ where
  -- `comment_operation::validate`
  unfoldable pub validate_comment : CommentText → Result (Unit {0})
  validate_comment o = do
    fc_assert (ltb (length o.title) 256)
    fc_assert (t.is_utf8 o.title)
    fc_assert (ltb 0 (length o.body))
    fc_assert (t.is_utf8 o.body)
    when (not (size o.parent_author == 0)) (validate_account_name o.parent_author)
    validate_account_name o.author
    validate_permlink o.parent_permlink
    validate_permlink o.permlink
    when (ltb 0 (length o.json_metadata)) (fc_assert (t.is_json o.json_metadata))

  -- `comment_options_operation::validate`
  unfoldable pub validate_comment_options : CommentOptions → Result (Unit {0})
  validate_comment_options o = do
    validate_account_name o.author
    fc_assert (leb o.percent_bmt_dollars hundred_percent)
    fc_assert (o.max_accepted_payout.symbol == bmt_symbol)
    fc_assert (leb_ℤ (pos 0) o.max_accepted_payout.amount)
    validate_permlink o.permlink
    validate_options o.extensions

  -- `delete_comment_operation::validate`
  unfoldable pub validate_delete_comment : ℕ → List ℕ → Result (Unit {0})
  validate_delete_comment author permlink = do
    validate_permlink permlink
    validate_account_name author
