-- ===== src/Tests/Fixtures.antt =====
-- A concrete arithmetic for the fc parameter, and a small database: three accounts, an escrow, a
-- savings withdrawal, two limit orders and a content order.
use bmchain_core.Prelude.{
  ◌*ℤ◌, ℕ, ◌-◌, ◌<◌, ◌≤◌, ◌^◌, ◌≡◌, refl, true, false, ltb, if◌then◌else◌, [], ◌∷◌, Option, none,
  some, ℤ, pos, negsuc, ◌+ℤ◌, ◌-ℤ◌, neg_ℤ, int64_ok, IsInt64, arith,
}
use bmchain_core.Protocol.Fc.{Fc}
use bmchain_core.Protocol.Config.{bmt_symbol, vests_symbol}
use bmchain_core.Protocol.Asset.{Asset}
use bmchain_core.Chain.Objects.{Account, Escrow, LimitOrder, open_order, ContentOrder, Props, Db}

unfoldable pub checked : ℤ → Option ℤ
checked a = if int64_ok a then some a else none

pub checked_exact : (a c : ℤ) → checked a ≡ some c → c ≡ a
unfolding checked
checked_exact a c h = ground arith

pub checked_fits : (a : ℤ) → IsInt64 a → checked a ≡ some a
unfolding checked
checked_fits a h = ground (arith, h.0, h.1)

unfoldable pub widened : ℤ → ℕ
widened (pos n) = n
widened (negsuc n) = 2 ^ 128 - 1 - n

unfoldable pub narrowed : ℕ → ℤ
narrowed n = if ltb n (2 ^ 63) then pos n else negsuc (2 ^ 64 - 1 - n)

pub widened_pos : (n : ℕ) → n < 2 ^ 63 → widened (pos n) ≡ n
unfolding widened
widened_pos n h = refl

pub narrowed_fits : (n : ℕ) → n < 2 ^ 63 → narrowed n ≡ pos n
unfolding narrowed
narrowed_fits n h = ground arith

pub narrowed_wraps : (n : ℕ) → 2 ^ 63 ≤ n → n < 2 ^ 64 → narrowed n ≡ negsuc (2 ^ 64 - 1 - n)
unfolding narrowed
narrowed_wraps n h k = ground arith

unfoldable pub low_word : ℕ → Option ℕ
low_word n = if ltb n (2 ^ 64) then some n else none

pub low_word_fits : (n : ℕ) → n < 2 ^ 64 → low_word n ≡ some n
unfolding low_word
low_word_fits n h = ground arith

instance abbrev pub reference_fc : Fc
reference_fc = record {
  add = λ a b. checked (a +ℤ b);
  sub = λ a b. checked (a -ℤ b);
  neg = λ a. checked (neg_ℤ a);
  mul = λ a b. checked (a *ℤ b);
  uint128_of = widened;
  int64_of = narrowed;
  to_uint64 = low_word;
  add_exact = λ a b. checked_exact (a +ℤ b);
  sub_exact = λ a b. checked_exact (a -ℤ b);
  mul_exact = λ a b. checked_exact (a *ℤ b);
  neg_exact = λ a. checked_exact (neg_ℤ a);
  add_fits = λ a b. checked_fits (a +ℤ b);
  sub_fits = λ a b. checked_fits (a -ℤ b);
  neg_fits = λ a. checked_fits (neg_ℤ a);
  to_uint64_fits = low_word_fits;
  uint128_of_pos = widened_pos;
  int64_of_fits = narrowed_fits;
  int64_of_wraps = narrowed_wraps;
}

abbrev pub bmt : ℕ → Asset
bmt n = record { amount = pos n; symbol = bmt_symbol }

abbrev pub vests : ℕ → Asset
vests n = record { amount = pos n; symbol = vests_symbol }

-- an account with a name and a balance
abbrev pub holder : ℕ → ℕ → Account
holder n funds = record {
  name = n;
  proxy = 0;
  active_challenged = false;
  last_active_proved = 0;
  can_vote = true;
  balance = bmt funds;
  savings_balance = bmt 20;
  savings_withdraw_requests = 1;
  reward_bmt_balance = bmt 0;
  reward_vesting_balance = vests 0;
  reward_vesting_bmt = bmt 0;
  vesting_shares = vests 1000;
  delegated_vesting_shares = vests 0;
  received_vesting_shares = vests 0;
  savings_withdraw_rate = vests 0;
  next_savings_withdrawal = 0;
  withdrawn = pos 0;
  to_withdraw = pos 0;
  proxied_vsf_votes = pos 0 ∷ pos 0 ∷ pos 0 ∷ pos 0 ∷ [];
  witnesses_voted_for = 0;
}

abbrev pub escrow_of_alice : Escrow
escrow_of_alice = record {
  escrow_id = 7;
  sender = 1;
  to = 2;
  agent = 3;
  ratification_deadline = 200;
  escrow_expiration = 300;
  bmt_balance = bmt 40;
  pending_fee = bmt 0;
  to_approved = true;
  agent_approved = true;
  disputed = false;
}

-- an order of `seller` for VESTS
abbrev pub sale : ℕ → ℕ → ℕ → ℕ → LimitOrder
sale i seller funds expires = record {
  id = i;
  created = 0;
  expiration = expires;
  seller = seller;
  orderid = i;
  for_sale = pos funds;
  sell_price = record { base = bmt funds; quote = vests 5 };
}

abbrev pub bid : ContentOrder
bid = record {
  id = 0;
  sent_time = 0;
  author = 3;
  permlink = 9;
  owner = 1;
  price = bmt 15;
  status = open_order;
}

abbrev pub props_at : ℕ → Props
props_at now = record {
  head_block_number = 10;
  time = now;
  current_witness = 3;
  virtual_supply = bmt 500;
  current_supply = bmt 500;
  total_vesting_fund_bmt = bmt 100;
  total_vesting_shares = vests 3000;
  total_reward_fund_bmt = bmt 0;
  pending_rewarded_vesting_shares = vests 0;
  pending_rewarded_vesting_bmt = bmt 0;
  daily_emission = bmt 0;
}

abbrev pub small_db : Db
small_db = record {
  accounts = holder 1 100 ∷ holder 2 50 ∷ holder 3 30 ∷ [];
  convert_requests = [];
  escrows = escrow_of_alice ∷ [];
  savings_withdraws =
      record { sender = 1; to = 2; request_id = 4; amount = bmt 5; complete = 400 } ∷ [];
  limit_orders = sale 0 1 10 150 ∷ sale 1 2 12 50 ∷ [];
  next_limit_order = 2;
  content_orders = bid ∷ [];
  next_content_order = 1;
  comments = record { author = 3; permlink = 9; price = bmt 15 } ∷ [];
  reward_funds = [];
  delegations = [];
  delegation_expirations = [];
  witnesses =
      record {
        owner = 3;
        votes = pos 0;
        virtual_last_update = 0;
        virtual_position = 0;
        virtual_scheduled_time = 0;
      }
      ∷ [];
  witness_votes = [];
  current_virtual_time = 7;
  account_creation_fee = bmt 1;
  props = props_at 100;
}
