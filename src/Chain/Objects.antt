-- ===== src/Chain/Objects.antt =====
-- The objects of the chain database (libraries/chain/include/bmchain/chain: account_object.hpp,
-- bmchain_objects.hpp, comment_object.hpp, global_property_object.hpp, custom_token_objects.hpp),
-- with the fields that the modelled operations read or write. An index is the list of its objects.
-- Account names, permlinks and ids are only compared, and are numbers; the empty name is 0. A time is
-- its seconds since the epoch. Memos and metadata, which no operation reads, are left out.
use bmchain_core.Prelude.{ℕ, Bool, List, ℤ, ◌&&◌}
use bmchain_core.Protocol.Asset.{Asset}
use bmchain_core.Protocol.Price.{Price}

-- `account_object`
pub record Account : Type 0 where
  pub name : ℕ
  pub proxy : ℕ
  pub active_challenged : Bool
  pub last_active_proved : ℕ
  pub can_vote : Bool
  pub balance : Asset
  pub savings_balance : Asset
  pub savings_withdraw_requests : ℕ
  pub reward_bmt_balance : Asset
  pub reward_vesting_balance : Asset
  pub reward_vesting_bmt : Asset
  pub vesting_shares : Asset
  pub delegated_vesting_shares : Asset
  pub received_vesting_shares : Asset
  pub savings_withdraw_rate : Asset
  pub next_savings_withdrawal : ℕ
  pub withdrawn : ℤ
  pub to_withdraw : ℤ
  pub proxied_vsf_votes : List ℤ
  pub witnesses_voted_for : ℕ

-- `escrow_object`
pub record Escrow : Type 0 where
  pub escrow_id : ℕ
  pub sender : ℕ
  pub to : ℕ
  pub agent : ℕ
  pub ratification_deadline : ℕ
  pub escrow_expiration : ℕ
  pub bmt_balance : Asset
  pub pending_fee : Asset
  pub to_approved : Bool
  pub agent_approved : Bool
  pub disputed : Bool

abbrev pub is_approved : Escrow → Bool
is_approved e = e.to_approved && e.agent_approved

-- `savings_withdraw_object`
pub record SavingsWithdraw : Type 0 where
  pub sender : ℕ
  pub to : ℕ
  pub request_id : ℕ
  pub amount : Asset
  pub complete : ℕ

-- `limit_order_object`
pub record LimitOrder : Type 0 where
  pub id : ℕ
  pub created : ℕ
  pub expiration : ℕ
  pub seller : ℕ
  pub orderid : ℕ
  pub for_sale : ℤ
  pub sell_price : Price

-- `content_order_object::order_status`
pub data OrderStatus : Type 0 where
  open_order completed canceled : OrderStatus

-- `content_order_object`
pub record ContentOrder : Type 0 where
  pub id : ℕ
  pub sent_time : ℕ
  pub author : ℕ
  pub permlink : ℕ
  pub owner : ℕ
  pub price : Asset
  pub status : OrderStatus

-- `comment_object`, as far as it is sold
pub record Comment : Type 0 where
  pub author : ℕ
  pub permlink : ℕ
  pub price : Asset

-- `reward_fund_object`
pub record RewardFund : Type 0 where
  pub id : ℕ
  pub reward_balance : Asset
  pub percent_content_rewards : ℕ

-- `vesting_delegation_object`
pub record Delegation : Type 0 where
  pub delegator : ℕ
  pub delegatee : ℕ
  pub vesting_shares : Asset
  pub min_delegation_time : ℕ

-- `rep_delegation_expiration_object`
pub record DelegationExpiration : Type 0 where
  pub delegator : ℕ
  pub vesting_shares : Asset
  pub expiration : ℕ

-- `witness_object`, as far as votes schedule it
pub record Witness : Type 0 where
  pub owner : ℕ
  pub votes : ℤ
  pub virtual_last_update : ℕ
  pub virtual_position : ℕ
  pub virtual_scheduled_time : ℕ

-- `witness_vote_object`
pub record WitnessVote : Type 0 where
  pub witness : ℕ
  pub account : ℕ

-- `dynamic_global_property_object`
pub record Props : Type 0 where
  pub head_block_number : ℕ
  pub time : ℕ
  pub current_witness : ℕ
  pub virtual_supply : Asset
  pub current_supply : Asset
  pub total_vesting_fund_bmt : Asset
  pub total_vesting_shares : Asset
  pub total_reward_fund_bmt : Asset
  pub pending_rewarded_vesting_shares : Asset
  pub pending_rewarded_vesting_bmt : Asset
  pub daily_emission : Asset

-- The database: an index for each kind of object, and the global properties. `next_limit_order` and
-- `next_content_order` are the ids that the next created objects take; `account_creation_fee` is the
-- witnesses' median; `current_virtual_time` is the one of the witness schedule.
pub record Db : Type 0 where
  pub accounts : List Account
  pub convert_requests : List Asset
  pub escrows : List Escrow
  pub savings_withdraws : List SavingsWithdraw
  pub limit_orders : List LimitOrder
  pub next_limit_order : ℕ
  pub content_orders : List ContentOrder
  pub next_content_order : ℕ
  pub comments : List Comment
  pub reward_funds : List RewardFund
  pub delegations : List Delegation
  pub delegation_expirations : List DelegationExpiration
  pub witnesses : List Witness
  pub witness_votes : List WitnessVote
  pub current_virtual_time : ℕ
  pub account_creation_fee : Asset
  pub props : Props
