-- ===== src/Chain/Vesting/Books.antt =====
-- The assertions of `validate_invariants` (libraries/chain/database.cpp) on vesting shares: what the
-- global properties record is what the accounts hold.

use bmchain_core.Protocol.Config.{bmt_symbol}
use bmchain_core.Chain.Accounts.Covered.{get_account-Gives}
use bmchain_core.Chain.Vesting.{
  add_reward_vesting, add_pending, bmt_symbol, add_vested, claim_vesting, add_fund, claim_pending,
}
use bmchain_core.Protocol.Asset.{Asset, asset_add-Gives, asset_sub-Gives}
use bmchain_core.Chain.Voting.Sums.{OnlyVotes}
use bmchain_core.Chain.Accounts.Sums.{account_bmt}
use bmchain_core.Protocol.Fc.{Fc}
use bmchain_core.Chain.Supply.{total_supply, props_bmt}
use bmchain_core.Chain.Accounts.{
  modify_account, Accounts, adjust_balance, adjust_savings_balance, adjust_reward_balance,
  add_balance, add_savings_balance, add_reward_balance, named,
}
use bmchain_core.Chain.Objects.{Account, Db, Props}
use bmchain_core.Prelude.{
  ℕ, some, ℤ, ◌+ℤ◌, Result, ◌≡◌, sum_of, find_by, ap, Gives, bind-Gives, ◌∙◌, pos, refl,
  assert-Gives, replace_by, ◌==◌, gives, +ℤ_exchange, sum_of-replace_by, int_laws, neg_ℤ,
}

unfoldable pub vests_of : Account → ℤ
vests_of a = a.vesting_shares.amount +ℤ a.reward_vesting_balance.amount

unfoldable pub worth_of : Account → ℤ
worth_of a = a.reward_vesting_bmt.amount

-- `total_vesting` and `pending_vesting_bmt`
abbrev pub AreVested : Db → Type 0
AreVested db =
    (db.props.total_vesting_shares.amount +ℤ db.props.pending_rewarded_vesting_shares.amount
      ≡ sum_of vests_of db.accounts)
    × (db.props.pending_rewarded_vesting_bmt.amount ≡ sum_of worth_of db.accounts)

-- the three measures of an account after a change
abbrev pub Moves : ℤ → ℤ → ℤ → Account → Account → Type 0
Moves x v w a b =
    (account_bmt b ≡ account_bmt a +ℤ x)
    × (vests_of b ≡ vests_of a +ℤ v)
    × (worth_of b ≡ worth_of a +ℤ w)

abbrev pub Shifted : ℤ → ℤ → ℤ → Accounts → Accounts → Type 0
Shifted x v w t t' =
    (sum_of account_bmt t' ≡ sum_of account_bmt t +ℤ x)
    × (sum_of vests_of t' ≡ sum_of vests_of t +ℤ v)
    × (sum_of worth_of t' ≡ sum_of worth_of t +ℤ w)

pub modify_account-Shifted :
    (x v w : ℤ) (n : ℕ) (f : Account → Result Account) (t : Accounts)
    → ((a : Account) → find_by (named n) t ≡ some a → Gives (Moves x v w a) (f a))
    → Gives (Shifted x v w t) (modify_account n f t)
unfolding modify_account
modify_account-Shifted x v w n f t h = bind-Gives (get_account-Gives n t) λ a found.
    bind-Gives (h a found) λ b (bmt, vests, worth).
      let t' : Accounts = replace_by (named n) b t in
      gives (
        +ℤ_exchange (account_bmt a) (account_bmt b) x (sum_of account_bmt t') (sum_of account_bmt t)
            bmt (sum_of-replace_by account_bmt (named n) a b t found),
        +ℤ_exchange (vests_of a) (vests_of b) v (sum_of vests_of t') (sum_of vests_of t) vests
            (sum_of-replace_by vests_of (named n) a b t found),
        +ℤ_exchange (worth_of a) (worth_of b) w (sum_of worth_of t') (sum_of worth_of t) worth
            (sum_of-replace_by worth_of (named n) a b t found),
      )

-- what a move of votes leaves
pub OnlyVotes-total_supply : (db db' : Db) → OnlyVotes db db' → total_supply db' ≡ total_supply db
unfolding total_supply account_bmt
OnlyVotes-total_supply db db' (sums, same) =
    ap total_supply same ∙ rw (sums account_bmt (λ a votes. refl)) refl

pub OnlyVotes-AreVested : (db db' : Db) → OnlyVotes db db' → AreVested db → AreVested db'
unfolding vests_of worth_of
OnlyVotes-AreVested db db' (sums, same) (vests, worth) =
    let props : db'.props ≡ db.props = ap (λ d. d.props) same in
    (
      rw (props, sums vests_of (λ a votes. refl)) vests,
      rw (props, sums worth_of (λ a votes. refl)) worth,
    )

-- the shares on record, and what the properties hold after a change
unfoldable pub recorded_shares : Props → ℤ
recorded_shares p = p.total_vesting_shares.amount +ℤ p.pending_rewarded_vesting_shares.amount

abbrev pub Recorded : ℤ → ℤ → ℤ → Props → Props → Type 0
Recorded y v w p q =
    (props_bmt q ≡ props_bmt p +ℤ y)
    × (recorded_shares q ≡ recorded_shares p +ℤ v)
    × (q.pending_rewarded_vesting_bmt.amount ≡ p.pending_rewarded_vesting_bmt.amount +ℤ w)
    × (q.current_supply ≡ p.current_supply)

-- Where both sides change alike, the books still balance, and the supply has grown by both.
pub booked :
    (x y v w : ℤ) (db : Db) (t : Accounts) (q : Props)
    → AreVested db
    → Shifted x v w db.accounts t
    → Recorded y v w db.props q
    → AreVested (record db { accounts = t; props = q })
      × (total_supply (record db { accounts = t; props = q }) ≡ total_supply db +ℤ (x +ℤ y))
unfolding total_supply recorded_shares
booked x y v w db t q (vests, worth) (s1, s2, s3) (r1, r2, r3, _) =
    ((r2 ∙ rw (vests, s2) refl, r3 ∙ rw (worth, s3) refl), rw (s1, r1) (omega int_laws))

module _ ⦃fc : Fc⦄ where
  pub adjust_balance-Shifted :
      (n : ℕ) (delta : Asset) (t : Accounts)
      → Gives (Shifted delta.amount (pos 0) (pos 0) t) (adjust_balance n delta t)
  unfolding adjust_balance add_balance account_bmt vests_of worth_of
  adjust_balance-Shifted n delta t =
      modify_account-Shifted delta.amount (pos 0) (pos 0) n (add_balance delta) t λ a _.
        assert-Gives (delta.symbol == bmt_symbol) λ _.
          bind-Gives (asset_add-Gives a.balance delta)
            λ b h. gives (rw h.0 (omega int_laws), omega int_laws, omega int_laws)

  pub adjust_savings_balance-Shifted :
      (n : ℕ) (delta : Asset) (t : Accounts)
      → Gives (Shifted delta.amount (pos 0) (pos 0) t) (adjust_savings_balance n delta t)
  unfolding adjust_savings_balance add_savings_balance account_bmt vests_of worth_of
  adjust_savings_balance-Shifted n delta t =
      modify_account-Shifted delta.amount (pos 0) (pos 0) n (add_savings_balance delta) t λ a _.
        assert-Gives (delta.symbol == bmt_symbol) λ _.
          bind-Gives (asset_add-Gives a.savings_balance delta)
            λ b h. gives (rw h.0 (omega int_laws), omega int_laws, omega int_laws)

  pub adjust_reward_balance-Shifted :
      (n : ℕ) (delta : Asset) (t : Accounts)
      → Gives (Shifted delta.amount (pos 0) (pos 0) t) (adjust_reward_balance n delta t)
  unfolding adjust_reward_balance add_reward_balance account_bmt vests_of worth_of
  adjust_reward_balance-Shifted n delta t =
      modify_account-Shifted delta.amount (pos 0) (pos 0) n (add_reward_balance delta) t λ a _.
        assert-Gives (delta.symbol == bmt_symbol) λ _.
          bind-Gives (asset_add-Gives a.reward_bmt_balance delta)
            λ b h. gives (rw h.0 (omega int_laws), omega int_laws, omega int_laws)

  pub add_pending-Recorded :
      (shares bmt : Asset) (p : Props)
      → Gives (Recorded bmt.amount shares.amount bmt.amount p) (add_pending shares bmt p)
  unfolding add_pending props_bmt recorded_shares
  add_pending-Recorded shares bmt p =
      bind-Gives (asset_add-Gives p.pending_rewarded_vesting_shares shares) λ pending h.
        bind-Gives (asset_add-Gives p.pending_rewarded_vesting_bmt bmt)
          λ worth k. gives (rw k.0 (omega int_laws), rw h.0 (omega int_laws), rw k.0 refl, refl)

  pub add_fund-Recorded :
      (shares bmt : Asset) (p : Props)
      → Gives (Recorded bmt.amount shares.amount (pos 0) p) (add_fund shares bmt p)
  unfolding add_fund props_bmt recorded_shares
  add_fund-Recorded shares bmt p =
      bind-Gives (asset_add-Gives p.total_vesting_fund_bmt bmt) λ fund k.
        bind-Gives (asset_add-Gives p.total_vesting_shares shares)
          λ vested h. gives (rw k.0 (omega int_laws), rw h.0 (omega int_laws), omega int_laws, refl)

  pub claim_pending-Recorded :
      (shares bmt : Asset) (p : Props)
      → Gives (Recorded (pos 0) (pos 0) (neg_ℤ bmt.amount) p) (claim_pending shares bmt p)
  unfolding claim_pending props_bmt recorded_shares
  claim_pending-Recorded shares bmt p =
      bind-Gives (asset_add-Gives p.total_vesting_shares shares) λ vested h1.
        bind-Gives (asset_add-Gives p.total_vesting_fund_bmt bmt) λ fund h2.
          bind-Gives (asset_sub-Gives p.pending_rewarded_vesting_shares shares) λ pending h3.
            bind-Gives (asset_sub-Gives p.pending_rewarded_vesting_bmt bmt) λ worth h4. gives (
              rw (h2.0, h4.0) (omega int_laws),
              rw (h1.0, h3.0) (omega int_laws),
              rw h4.0 (omega int_laws),
              refl,
            )

  pub add_reward_vesting-Shifted :
      (shares bmt : Asset) (n : ℕ) (t : Accounts)
      → Gives
          (Shifted (pos 0) shares.amount bmt.amount t)
          (modify_account n (add_reward_vesting shares bmt) t)
  unfolding add_reward_vesting account_bmt vests_of worth_of
  add_reward_vesting-Shifted shares bmt n t =
      modify_account-Shifted (pos 0) shares.amount bmt.amount n (add_reward_vesting shares bmt) t
        λ a _. bind-Gives (asset_add-Gives a.reward_vesting_balance shares) λ balance h.
          bind-Gives (asset_add-Gives a.reward_vesting_bmt bmt)
            λ worth k. gives (omega int_laws, rw h.0 (omega int_laws), rw k.0 refl)

  pub add_vested-Shifted :
      (shares : Asset) (n : ℕ) (t : Accounts)
      → Gives (Shifted (pos 0) shares.amount (pos 0) t) (modify_account n (add_vested shares) t)
  unfolding add_vested account_bmt vests_of worth_of
  add_vested-Shifted shares n t =
      modify_account-Shifted (pos 0) shares.amount (pos 0) n (add_vested shares) t λ a _.
        bind-Gives (asset_add-Gives a.vesting_shares shares)
          λ vested h. gives (omega int_laws, rw h.0 (omega int_laws), omega int_laws)

  pub claim_vesting-Shifted :
      (shares bmt : Asset) (n : ℕ) (t : Accounts)
      → Gives
          (Shifted (pos 0) (pos 0) (neg_ℤ bmt.amount) t)
          (modify_account n (claim_vesting shares bmt) t)
  unfolding claim_vesting account_bmt vests_of worth_of
  claim_vesting-Shifted shares bmt n t =
      modify_account-Shifted (pos 0) (pos 0) (neg_ℤ bmt.amount) n (claim_vesting shares bmt) t
        λ a _. bind-Gives (asset_add-Gives a.vesting_shares shares) λ vested h1.
          bind-Gives (asset_sub-Gives a.reward_vesting_balance shares) λ balance h2.
            bind-Gives (asset_sub-Gives a.reward_vesting_bmt bmt) λ left h3.
              gives (omega int_laws, rw (h1.0, h2.0) (omega int_laws), rw h3.0 (omega int_laws))
