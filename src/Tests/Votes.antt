-- ===== src/Tests/Votes.antt =====
-- Votes for witnesses and proxies.
use bmchain_core.Chain.Transfers.Conservation.{Backed}
use bmchain_core.Chain.Accounts.Sums.{account_bmt}
use bmchain_core.Chain.Vesting.Burning.{Burnt, clear_null_account_balance-Burnt}
use bmchain_core.Chain.Vesting.Claims.{Vested, claim_reward_balance-Books, create_vesting-Vested}
use bmchain_core.Chain.Vesting.Books.{AreVested, vests_of, worth_of}
use bmchain_core.Chain.Vesting.{
  ClaimReward, clear_null_account_balance, claim_reward_balance, create_vesting,
}
use bmchain_core.Chain.Supply.{
  total_supply, order_bmt, escrow_bmt, savings_withdraw_bmt, fund_bmt, content_order_bmt, props_bmt,
}
use bmchain_core.Chain.Objects.{Db}
use bmchain_core.Chain.Voting.Loops.{account_witness_proxy-IsLoopFree}
use bmchain_core.Protocol.Config.{max_proxy_recursion_depth, null_account}
use bmchain_core.Tests.Fixtures.{holder, small_db, vests, bmt}
use bmchain_core.Chain.Voting.Chains.{AllEnd, ProxyChain, own_votes, Any}
use bmchain_core.Chain.Voting.Counted.{
  IsCounted, votes_of, apply_vote, account_witness_vote_operation, apply_vote-IsCounted,
}
use bmchain_core.Chain.Voting.Standing.{field, proxy_of}
use bmchain_core.Chain.Voting.{WitnessProxy, account_witness_proxy}
use bmchain_core.Tests.Fixtures.{reference_fc}
use bmchain_core.Prelude.{
  ℕ, [], ◌∷◌, Gives, find_by, ◌≢◌, true, arith, ◌≤◌, sum_of, pos, ◌+ℤ◌, false, refl,
}

abbrev to_bob : WitnessProxy
to_bob = record { account = 1; proxy = 2 }

small_db-IsCounted : IsCounted small_db
unfolding field find_by votes_of
small_db-IsCounted n count h = ground arith

small_db-AllEnd : AllEnd small_db.accounts
unfolding field find_by
small_db-AllEnd n p h = (0, own_votes (ground arith) tt)

apply_vote-IsCounted_example : Gives IsCounted (
    apply_vote
      (account_witness_vote_operation (record { account = 1; witness = 3; approve = true }))
      small_db)
apply_vote-IsCounted_example =
    apply_vote-IsCounted
      (account_witness_vote_operation (record { account = 1; witness = 3; approve = true }))
      small_db small_db-IsCounted

account_witness_proxy-IsLoopFree_example :
    Gives
      (λ db'.
        AllEnd db'.accounts
        × (to_bob.proxy ≢ 0
            → (steps : ℕ) × ProxyChain (λ k. proxy_of k db'.accounts) Any 1 steps
              × (steps ≤ max_proxy_recursion_depth)))
      (account_witness_proxy to_bob small_db)
account_witness_proxy-IsLoopFree_example =
    account_witness_proxy-IsLoopFree to_bob small_db (λ e. cc) small_db-AllEnd

-- the small database with rewards to claim, and properties that record them
abbrev rewarded_db : Db
rewarded_db = record small_db {
  accounts =
      record (holder 1 100) {
        reward_bmt_balance = bmt 8;
        reward_vesting_balance = vests 500;
        reward_vesting_bmt = bmt 6;
      }
      ∷ holder 2 50
      ∷ holder null_account 30
      ∷ [];
  props = record small_db.props {
    total_vesting_shares = vests 3000;
    pending_rewarded_vesting_shares = vests 500;
    pending_rewarded_vesting_bmt = bmt 6;
    current_supply = bmt 436;
  };
}

rewarded_db-AreVested : AreVested rewarded_db
unfolding sum_of vests_of worth_of ◌+ℤ◌
rewarded_db-AreVested = (refl, refl)

rewarded_db-Backed : Backed rewarded_db
unfolding total_supply sum_of account_bmt order_bmt escrow_bmt savings_withdraw_bmt fund_bmt
    content_order_bmt props_bmt ◌+ℤ◌
rewarded_db-Backed = refl

abbrev claim : ClaimReward
claim = record { account = 1; reward_bmt = bmt 8; reward_vests = vests 200 }

claim_reward_balance-Books_example :
    Gives (λ db'. AreVested db' × Backed db') (claim_reward_balance claim rewarded_db)
claim_reward_balance-Books_example =
    claim_reward_balance-Books claim rewarded_db (rewarded_db-AreVested, rewarded_db-Backed)

create_vesting-Vested_example :
    Gives (Vested (pos 5) rewarded_db) (create_vesting 2 (bmt 5) false rewarded_db)
create_vesting-Vested_example =
    create_vesting-Vested 2 (bmt 5) false rewarded_db rewarded_db-AreVested

clear_null_account_balance-Burnt_example :
    Gives (Burnt rewarded_db) (clear_null_account_balance rewarded_db)
clear_null_account_balance-Burnt_example =
    clear_null_account_balance-Burnt rewarded_db rewarded_db-AreVested
