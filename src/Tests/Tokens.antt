-- ===== src/Tests/Tokens.antt =====
-- Custom tokens, delegations, the printing of BMT and what expires.
use bmchain_core.Protocol.Config.{content_reward_percent_new}
use bmchain_core.Prelude.{
  ℕ, ◌≡◌, refl, [], ◌∷◌, ◌+ℤ◌, ◌*ℤ◌, pos, Gives, sum_of, arith, Ends, false, IsInt64,
}
use bmchain_core.Chain.Objects.{RewardFund, Db}
use bmchain_core.Chain.Supply.{
  total_supply, order_bmt, escrow_bmt, savings_withdraw_bmt, fund_bmt, content_order_bmt, props_bmt,
}
use bmchain_core.Chain.Accounts.Sums.{account_bmt}
use bmchain_core.Chain.CustomTokens.{
  TokenDb, TokenCreate, custom_token_create, custom_token_transfer,
}
use bmchain_core.Chain.CustomTokens.Conservation.{
  issued, amount_of, custom_token_transfer-Gives, custom_token_create-Gives,
}
use bmchain_core.Chain.Delegations.{Delegate, delegate_vesting_shares, clear_expired_delegations}
use bmchain_core.Chain.Delegations.Balance.{AreBalanced, delegate_vesting_shares-AreBalanced}
use bmchain_core.Chain.Delegations.Returns.{NoneReturnable, clear_expired_delegations-Ends}
use bmchain_core.Chain.Transfers.Conservation.{Backed}
use bmchain_core.Chain.Emission.{process_funds_bmchain}
use bmchain_core.Chain.Emission.Conservation.{process_funds_bmchain-Backed}
use bmchain_core.Chain.Escrow.Conservation.{AllSettled, Keeps}
use bmchain_core.Chain.Escrow.Ratification.{
  expire_escrow_ratification, NoneOverdue, expire_escrow_ratification-Ends,
}
use bmchain_core.Tests.Fixtures.{escrow_of_alice, reference_fc, small_db, bmt, vests, holder}

-- the symbol of a token with no decimals
abbrev gold : ℕ
gold = 0x474c4400

abbrev post_fund : RewardFund
post_fund = record { id = 0; reward_balance = bmt 50; percent_content_rewards = 10000 }

abbrev token_db : TokenDb
token_db = record {
  chain = record small_db { reward_funds = post_fund ∷ [] };
  tokens = [];
  balances =
      record { owner = 1; symbol = gold; balance = record { amount = pos 30; symbol = gold } } ∷ [];
}

custom_token_transfer-Gives_example :
    Gives
      (λ db'. issued gold db'.balances ≡ issued gold token_db.balances)
      (custom_token_transfer
        (record { sender = 1; to = 2; amount = record { amount = pos 12; symbol = gold } })
        token_db)
custom_token_transfer-Gives_example =
    custom_token_transfer-Gives
      (record { sender = 1; to = 2; amount = record { amount = pos 12; symbol = gold } }) token_db
      gold

abbrev minting : TokenCreate
minting = record {
  control_account = 2;
  current_supply = record { amount = pos 900; symbol = gold };
  creation_fee = bmt 5;
}

custom_token_create-Gives_example :
    Gives
      (λ db'.
        (total_supply db'.chain ≡ total_supply token_db.chain)
        × (issued gold db'.balances
            ≡ issued gold token_db.balances +ℤ amount_of gold minting.current_supply))
      (custom_token_create minting token_db)
custom_token_create-Gives_example =
    custom_token_create-Gives minting token_db gold refl (omega arith)

abbrev lease : Delegate
lease = record { delegator = 1; delegatee = 2; vesting_shares = vests 400 }

small_db-AreBalanced : AreBalanced small_db
unfolding sum_of ◌+ℤ◌
small_db-AreBalanced = (refl, refl)

delegate_vesting_shares-AreBalanced_example :
    Gives AreBalanced (delegate_vesting_shares lease small_db)
delegate_vesting_shares-AreBalanced_example =
    delegate_vesting_shares-AreBalanced lease small_db small_db-AreBalanced (omega arith)

-- an account waits for 400 shares, of which 300 have expired
abbrev waiting_db : Db
waiting_db = record small_db {
  accounts = record (holder 1 100) { delegated_vesting_shares = vests 400 } ∷ holder 2 50 ∷ [];
  delegation_expirations =
      record { delegator = 1; vesting_shares = vests 100; expiration = small_db.props.time }
      ∷ record { delegator = 1; vesting_shares = vests 300; expiration = 0 }
      ∷ [];
}

waiting_db-AreBalanced : AreBalanced waiting_db
unfolding sum_of ◌+ℤ◌
waiting_db-AreBalanced = (refl, refl)

clear_expired_delegations-Ends_example :
    Ends
      (λ db. AreBalanced db × NoneReturnable db.props.time db.delegation_expirations)
      (clear_expired_delegations waiting_db)
clear_expired_delegations-Ends_example =
    clear_expired_delegations-Ends waiting_db waiting_db-AreBalanced

-- an escrow that nobody ratified before its deadline, beside one that is approved
abbrev overdue_db : Db
overdue_db = record small_db {
  escrows =
      record escrow_of_alice {
        escrow_id = 8;
        ratification_deadline = small_db.props.time;
        pending_fee = bmt 3;
        to_approved = false;
      }
      ∷ escrow_of_alice
      ∷ [];
}

overdue_db-AllSettled : AllSettled overdue_db
overdue_db-AllSettled = ((λ h. cc), ((λ _. refl), tt))

expire_escrow_ratification-Ends_example :
    Ends
      (λ db. Keeps overdue_db db × NoneOverdue db.props.time db.escrows)
      (expire_escrow_ratification overdue_db)
expire_escrow_ratification-Ends_example =
    expire_escrow_ratification-Ends overdue_db overdue_db-AllSettled

-- the small database with a recorded supply that its objects add up to
abbrev funded_db : Db
funded_db = record small_db {
  reward_funds = post_fund ∷ [];
  props = record small_db.props { current_supply = bmt 472 };
}

funded_db-Backed : Backed funded_db
unfolding total_supply sum_of account_bmt order_bmt escrow_bmt savings_withdraw_bmt fund_bmt
    content_order_bmt props_bmt ◌+ℤ◌
funded_db-Backed = refl

product_fits : IsInt64 (pos 100 *ℤ pos content_reward_percent_new)
unfolding ◌*ℤ◌
product_fits = (omega arith, omega arith)

process_funds_bmchain-Backed_example : Gives Backed (process_funds_bmchain (pos 100) funded_db)
unfolding ◌*ℤ◌
process_funds_bmchain-Backed_example =
    process_funds_bmchain-Backed (pos 100) funded_db (omega arith) product_fits funded_db-Backed
