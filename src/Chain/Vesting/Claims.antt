-- ===== src/Chain/Vesting/Claims.antt =====
-- New vesting shares and claims keep the books.
use bmchain_core.Protocol.Config.{max_proxy_recursion_depth}
use bmchain_core.Chain.Voting.Sums.{adjust_proxied_vote-OnlyVotes}
use bmchain_core.Chain.Delegations.{get_vesting_share_price}
use bmchain_core.Chain.Accounts.{get_account}
use bmchain_core.Protocol.Price.{asset_mul}
use bmchain_core.Chain.Transfers.Conservation.{Backed}
use bmchain_core.Chain.Supply.{total_supply}
use bmchain_core.Chain.Vesting.Books.{
  AreVested, booked, add_reward_vesting-Shifted, add_vested-Shifted, add_pending-Recorded,
  add_fund-Recorded, adjust_reward_balance-Shifted, adjust_balance-Shifted, claim_vesting-Shifted,
  OnlyVotes-AreVested, claim_pending-Recorded, OnlyVotes-total_supply, Shifted,
}
use bmchain_core.Protocol.Asset.{Asset, assert_le, asset_neg-Gives}
use bmchain_core.Chain.Vesting.{
  create_reward_vesting, create_vested, create_vesting, claim_reward_balance, Asset, ClaimReward,
  get_reward_vesting_share_price, asset_mul, get_account, get_vesting_share_price, assert_le,
  reward_bmt_of, max_proxy_recursion_depth,
}
use bmchain_core.Chain.Objects.{Db}
use bmchain_core.Protocol.Fc.{Fc}
use bmchain_core.Prelude.{
  ℕ, true, false, ℤ, Bool, Gives, ◌≡◌, step-Gives, ◌+ℤ◌, bind-Gives, pos, gives, ◌∙◌, ap, zero_+ℤ,
  neg_ℤ, int_laws, Gives-imp, sym,
}

-- What `create_vesting` adds: the BMT to the supply, the shares on both sides.
abbrev pub Vested : ℤ → Db → Asset × Db → Type 0
Vested bmt db (shares, db') =
    AreVested db'
    × (total_supply db' ≡ total_supply db +ℤ bmt)
    × (db'.props.current_supply ≡ db.props.current_supply)

module _ ⦃fc : Fc⦄ where
  create_reward_vesting-Vested :
      (n : ℕ) (bmt : Asset) (db : Db)
      → AreVested db
      → Gives (Vested bmt.amount db) (create_reward_vesting n bmt db)
  unfolding create_reward_vesting
  create_reward_vesting-Vested n bmt db books =
      step-Gives (get_reward_vesting_share_price db.props) λ rate _.
        step-Gives (asset_mul bmt rate) λ shares _.
          bind-Gives (add_reward_vesting-Shifted shares bmt n db.accounts) λ accounts held.
            bind-Gives (add_pending-Recorded shares bmt db.props) λ props noted.
              let (kept, supply) =
                booked (pos 0) bmt.amount shares.amount bmt.amount db accounts props books held
                  noted in
              gives {a = (shares, record db { accounts = accounts; props = props })}
                (kept, supply ∙ ap (λ z. total_supply db +ℤ z) (zero_+ℤ bmt.amount), noted.3)

  create_vested-Vested :
      (n : ℕ) (bmt : Asset) (db : Db)
      → AreVested db
      → Gives (Vested bmt.amount db) (create_vested n bmt db)
  unfolding create_vested
  create_vested-Vested n bmt db books =
      step-Gives (asset_mul bmt (get_vesting_share_price db.props)) λ shares _.
        bind-Gives (add_vested-Shifted shares n db.accounts) λ accounts held.
          bind-Gives (add_fund-Recorded shares bmt db.props) λ props noted.
            step-Gives (get_account n accounts) λ account _.
              let moved : Db = record db { accounts = accounts; props = props } in
              let (kept, supply) =
                booked (pos 0) bmt.amount shares.amount (pos 0) db accounts props books held
                  noted in
              bind-Gives
                (adjust_proxied_vote-OnlyVotes max_proxy_recursion_depth account shares.amount
                  moved)
                λ last votes. gives {a = (shares, last)} (
                  OnlyVotes-AreVested moved last votes kept,
                  OnlyVotes-total_supply moved last votes
                      ∙ supply
                      ∙ ap (λ z. total_supply db +ℤ z) (zero_+ℤ bmt.amount),
                  ap (λ d. d.props.current_supply) votes.1 ∙ noted.3,
                )

  -- Where the vesting shares on record are those that the accounts hold, they still are after new
  -- ones are created, rewards or not; and what the objects hold of BMT has grown by the amount.
  pub create_vesting-Vested :
      (n : ℕ) (bmt : Asset) (to_reward_balance : Bool) (db : Db)
      → AreVested db
      → Gives (Vested bmt.amount db) (create_vesting n bmt to_reward_balance db)
  unfolding create_vesting
  create_vesting-Vested n bmt true db books = create_reward_vesting-Vested n bmt db books
  create_vesting-Vested n bmt false db books = create_vested-Vested n bmt db books

  -- Where the books balance, of BMT and of vesting shares, they still do after a claim of rewards.
  pub claim_reward_balance-Books :
      (op : ClaimReward) (db : Db)
      → AreVested db × Backed db
      → Gives (λ db'. AreVested db' × Backed db') (claim_reward_balance op db)
  unfolding claim_reward_balance
  claim_reward_balance-Books op db (books, backed) =
      step-Gives (get_account op.account db.accounts) λ acnt _.
        step-Gives (assert_le op.reward_bmt acnt.reward_bmt_balance) λ _ _.
          step-Gives (assert_le op.reward_vests acnt.reward_vesting_balance) λ _ _.
            step-Gives (reward_bmt_of op.reward_vests acnt) λ bmt _.
              bind-Gives (asset_neg-Gives op.reward_bmt) λ debit minus.
                bind-Gives (adjust_reward_balance-Shifted op.account debit db.accounts)
                  λ debited first.
                    bind-Gives (adjust_balance-Shifted op.account op.reward_bmt debited)
                      λ credited second.
                        bind-Gives (claim_vesting-Shifted op.reward_vests bmt op.account credited)
                          λ accounts third.
                            bind-Gives (claim_pending-Recorded op.reward_vests bmt db.props)
                              λ props noted.
                                step-Gives (get_account op.account accounts) λ account _.
                                  let moved : Db = record db {
                                    accounts = accounts;
                                    props = props;
                                  } in
                                  let held : Shifted (pos 0) (pos 0) (neg_ℤ bmt.amount) db.accounts
                                      accounts =
                                    (
                                      third.0 ∙ rw (second.0, first.0, minus.0) (omega int_laws),
                                      third.1 ∙ rw (second.1, first.1) (omega int_laws),
                                      third.2 ∙ rw (second.2, first.2) (omega int_laws),
                                    ) in
                                  let (kept, supply) =
                                    booked (pos 0) (pos 0) (pos 0) (neg_ℤ bmt.amount) db accounts
                                      props books held noted in
                                  let same : total_supply moved ≡ total_supply db =
                                    supply ∙ omega int_laws in
                                  Gives-imp
                                    (adjust_proxied_vote-OnlyVotes max_proxy_recursion_depth account
                                      op.reward_vests.amount moved)
                                    λ last votes. (
                                      OnlyVotes-AreVested moved last votes kept,
                                      ap (λ d. d.props.current_supply.amount) votes.1
                                          ∙ ap (λ c. c.amount) noted.3
                                          ∙ backed
                                          ∙ sym (OnlyVotes-total_supply moved last votes ∙ same),
                                    )
