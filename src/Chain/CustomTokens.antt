-- ===== src/Chain/CustomTokens.antt =====
-- The custom token evaluators of libraries/chain/custom_token_evaluator.cpp, and their objects
-- (custom_token_objects.hpp): creation, transfer, emissions, and the parameters of the setup.
pub mod Conservation
use bmchain_core.Prelude.{
  ℕ, Bool, true, false, not, ◌&&◌, List, [], ◌∷◌, ◌++◌, ◌==◌, if◌then◌else◌, ℤ, pos, ltb_ℤ, find_by,
  replace_by, Option, none, some, Result, ok, err, Error, fc_assert, or_throw, ◌>>=◌, ◌>>◌,
}
use bmchain_core.Protocol.Fc.{Fc}
use bmchain_core.Protocol.Asset.{Asset, asset_add, asset_sub, assert_ge}
use bmchain_core.Chain.Objects.{Account, RewardFund, Db}
use bmchain_core.Chain.Accounts.{get_account, modify_account}

-- `smt_phase`, as far as a token leaves it: before and after the setup
pub data Phase : Type 0 where
  account_elevated setup_completed contribution_begin_time_completed : Phase
  contribution_end_time_completed launch_time_completed launch_failed launch_success : Phase

-- `custom_token_object`
pub record CustomToken : Type 0 where
  pub control_account : ℕ
  pub symbol : ℕ
  pub current_supply : Asset
  pub reward_fund : Asset
  pub inflation_rate : ℕ
  pub generation_time : ℕ
  pub schedule_time : ℕ
  pub interval_seconds : ℕ
  pub interval_count : ℕ
  pub allow_voting : Bool
  pub allow_vesting : Bool
  pub phase : Phase

-- `account_balance_object`
pub record AccountBalance : Type 0 where
  pub owner : ℕ
  pub symbol : ℕ
  pub balance : Asset

-- The database with the indices of the tokens. The newest balance stands first, as it does under its
-- key in the index `by_owner`.
pub record TokenDb : Type 0 where
  pub chain : Db
  pub tokens : List CustomToken
  pub balances : List AccountBalance

pub record TokenCreate : Type 0 where
  pub control_account : ℕ
  pub current_supply : Asset
  pub creation_fee : Asset

pub record TokenTransfer : Type 0 where
  pub sender : ℕ
  pub to : ℕ
  pub amount : Asset

pub record SetupEmissions : Type 0 where
  pub schedule_time : ℕ
  pub control_account : ℕ
  pub symbol : ℕ
  pub inflation_rate : ℕ
  pub interval_seconds : ℕ
  pub interval_count : ℕ

pub data SetupParameter : Type 0 where
  token_param_allow_voting token_param_allow_vesting : Bool → SetupParameter

abbrev pub has_symbol : ℕ → CustomToken → Bool
has_symbol symbol t = t.symbol == symbol

-- the key of the index `by_owner`
abbrev pub is_owner : ℕ → ℕ → AccountBalance → Bool
is_owner owner symbol b = (b.owner == owner) && (b.symbol == symbol)

abbrev pub before_setup : Phase → Bool
before_setup account_elevated = true
before_setup _ = false

abbrev pub genesis_time : ℕ
genesis_time = 1510655500

-- `get_controlled_token`
unfoldable pub get_controlled_token : ℕ → ℕ → List CustomToken → Result CustomToken
get_controlled_token control symbol t = do
  token ← or_throw (find_by (has_symbol symbol) t) Error.assertion
  fc_assert (token.control_account == control)
  ok token

-- `custom_token_setup_parameters_visitor`
abbrev pub visit : SetupParameter → CustomToken → CustomToken
visit (token_param_allow_voting value) t = record t { allow_voting = value }
visit (token_param_allow_vesting value) t = record t { allow_vesting = value }

unfoldable pub visit_all : List SetupParameter → CustomToken → CustomToken
visit_all [] t = t
visit_all (p ∷ ps) t = visit_all ps (visit p t)

-- `custom_token_set_setup_parameters_evaluator::do_apply`
unfoldable pub set_setup_parameters : ℕ → ℕ → List SetupParameter → TokenDb → Result TokenDb
unfolding get_controlled_token visit_all
set_setup_parameters control symbol params db = do
  token ← get_controlled_token control symbol db.tokens
  fc_assert (before_setup token.phase)
  ok (record db { tokens = replace_by (has_symbol symbol) (visit_all params token) db.tokens })

-- `custom_token_setup_emissions_evaluator::do_apply`
unfoldable pub setup_emissions : SetupEmissions → TokenDb → Result TokenDb
setup_emissions o db = do
  token ← or_throw (find_by (has_symbol o.symbol) db.tokens) Error.assertion
  ok (record db {
    tokens =
        replace_by (has_symbol o.symbol)
          (record token {
            inflation_rate = o.inflation_rate;
            schedule_time = o.schedule_time;
            interval_count = o.interval_count;
            interval_seconds = o.interval_seconds;
          })
          db.tokens;
  })

abbrev pub is_free : Option CustomToken → Bool
is_free none = true
is_free (some _) = false

-- the token and the balance that a creation makes
unfoldable pub created_token : TokenCreate → ℕ → CustomToken
created_token o now = record {
  control_account = o.control_account;
  symbol = o.current_supply.symbol;
  current_supply = o.current_supply;
  reward_fund = record { amount = pos 0; symbol = o.current_supply.symbol };
  inflation_rate = 0;
  generation_time = now;
  schedule_time = genesis_time;
  interval_seconds = 0;
  interval_count = 0;
  allow_voting = false;
  allow_vesting = false;
  phase = account_elevated;
}

unfoldable pub first_balance : ℕ → Asset → AccountBalance
first_balance owner amount = record { owner = owner; symbol = amount.symbol; balance = amount }

module _ ⦃fc : Fc⦄ where
  -- every reward fund gets the fee
  unfoldable pub fund_all : Asset → List RewardFund → Result (List RewardFund)
  fund_all fee [] = ok []
  fund_all fee (f ∷ t) = do
    b ← asset_add f.reward_balance fee
    rest ← fund_all fee t
    ok (record f { reward_balance = b } ∷ rest)

  unfoldable pub charge_fee : Asset → Account → Result Account
  charge_fee fee a = do b ← asset_sub a.balance fee; ok (record a { balance = b })

  -- the chain after a creation: the fee goes from the account to the reward funds
  unfoldable pub pay_creation : TokenCreate → Db → Result Db
  unfolding fund_all charge_fee
  pay_creation o db = do
    accounts ← modify_account o.control_account (charge_fee o.creation_fee) db.accounts
    funds ←
        if ltb_ℤ (pos 0) o.creation_fee.amount
        then fund_all o.creation_fee db.reward_funds
        else ok db.reward_funds
    ok (record db { accounts = accounts; reward_funds = funds })

  -- `custom_token_create_evaluator::do_apply`
  unfoldable pub custom_token_create : TokenCreate → TokenDb → Result TokenDb
  unfolding created_token first_balance pay_creation
  custom_token_create o db = do
    acc ← get_account o.control_account db.chain.accounts
    _ ← assert_ge acc.balance o.creation_fee
    _ ← fc_assert (is_free (find_by (has_symbol o.current_supply.symbol) db.tokens))
    chain ← pay_creation o db.chain
    ok (record {
      chain = chain;
      tokens = db.tokens ++ created_token o db.chain.props.time ∷ [];
      balances = first_balance o.control_account o.current_supply ∷ db.balances;
    })

  -- what the receiver of a transfer has afterwards
  unfoldable pub credit : ℕ → Asset → List AccountBalance → Result (List AccountBalance)
  unfolding first_balance
  credit to amount t = elim (find_by (is_owner to amount.symbol) t) [
    | none ↦ ok (first_balance to amount ∷ t)
    | some b ↦ do
      sum ← asset_add b.balance amount
      ok (replace_by (is_owner to amount.symbol) (record b { balance = sum }) t)
  ]

  -- `custom_token_transfer_evaluator::do_apply`
  unfoldable pub custom_token_transfer : TokenTransfer → TokenDb → Result TokenDb
  unfolding credit
  custom_token_transfer o db = do
    b ← or_throw (find_by (is_owner o.sender o.amount.symbol) db.balances) Error.assertion
    _ ← assert_ge b.balance o.amount
    _ ← fc_assert (b.symbol == o.amount.symbol)
    rest ← asset_sub b.balance o.amount
    balances ←
        credit o.to o.amount
          (replace_by (is_owner o.sender o.amount.symbol) (record b { balance = rest }) db.balances)
    ok (record db { balances = balances })
