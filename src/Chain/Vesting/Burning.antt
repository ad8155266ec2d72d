-- ===== src/Chain/Vesting/Burning.antt =====
-- What the account of null holds is burnt from the books: `clear_null_account_balance`.
use bmchain_core.Chain.Transfers.{adjust_supply, new_vesting}
use bmchain_core.Chain.Delegations.{get_vesting_share_price}
use bmchain_core.Protocol.Price.{asset_mul}
use bmchain_core.Chain.Accounts.Covered.{get_account-Gives}
use bmchain_core.Protocol.Config.{null_account, bmt_symbol}
use bmchain_core.Chain.Accounts.Sums.{account_bmt}
use bmchain_core.Chain.Supply.{total_supply, props_bmt}
use bmchain_core.Chain.Vesting.Books.{
  Recorded, AreVested, Shifted, booked, recorded_shares, vests_of, worth_of, modify_account-Shifted,
  Moves, adjust_balance-Shifted, adjust_savings_balance-Shifted, adjust_reward_balance-Shifted,
}
use bmchain_core.Protocol.Asset.{
  Asset, asset_add-Gives, asset_neg-Gives, asset_add, asset_sub-Gives, asset_neg,
}
use bmchain_core.Chain.Vesting.{
  Burning, burn_balance, burn_savings, burn_reward, drop_vested, drop_reward_vesting, null_account,
  burn_vested, burn_reward_vesting, asset_add, asset_mul, asset_neg, get_vesting_share_price,
  adjust_supply, burn_supply, clear_null_account_balance, bmt_symbol,
}
use bmchain_core.Protocol.Fc.{Fc}
use bmchain_core.Chain.Accounts.{Accounts, named, get_account, modify_account}
use bmchain_core.Chain.Objects.{Db, Props, Account}
use bmchain_core.Prelude.{
  if◌then◌else◌, ℕ, some, ℤ, neg_ℤ, pos, ◌+ℤ◌, find_by, Gives, sym, step-Gives, ◌≡◌, int_laws,
  +ℤ_zero, Bool-cases, ◌∙◌, ltb_ℤ, refl, inl, bind-Gives, gives, inr, Result, ◌>>=◌, zero_+ℤ, ok,
  ap, false, assert-Gives, ◌==◌,
}
use mathlib.Core.Path.{subst}

-- Part of the way: the objects and the total so far make up the supply of the start.
abbrev IsBurning : Db → Burning → Type 0
IsBurning start (total, db) =
    AreVested db
    × (total_supply db +ℤ total.amount ≡ total_supply start)
    × (db.props.current_supply ≡ start.props.current_supply)

-- A step that takes `d` from the objects and adds it to the total.
burnt :
    (start db : Db) (total total' : Asset) (x y v w d : ℤ) (t : Accounts) (q : Props)
    → IsBurning start (total, db)
    → Shifted x v w db.accounts t
    → Recorded y v w db.props q
    → x +ℤ y ≡ neg_ℤ d
    → total'.amount ≡ total.amount +ℤ d
    → IsBurning start (total', record db { accounts = t; props = q })
burnt start db total total' x y v w d t q (books, whole, current) held noted gone more =
    let (kept, supply) = booked x y v w db t q books held noted in
    (
      kept,
      rw (supply, gone, more) (again (total_supply db) total.amount d ∙ whole),
      noted.3 ∙ current,
    )
  where
    again : (s total d : ℤ) → s +ℤ neg_ℤ d +ℤ (total +ℤ d) ≡ s +ℤ total
    again s total d = omega int_laws

same-Recorded : (p : Props) → Recorded (pos 0) (pos 0) (pos 0) p p
same-Recorded p = (
  sym (+ℤ_zero (props_bmt p)),
  sym (+ℤ_zero (recorded_shares p)),
  sym (+ℤ_zero p.pending_rewarded_vesting_bmt.amount),
  refl,
)

minus_zero : (d : ℤ) → neg_ℤ d +ℤ pos 0 ≡ neg_ℤ d
minus_zero d = +ℤ_zero (neg_ℤ d)

-- the account as it was read
module _ (n : ℕ) (t : Accounts) (a : Account) (found : find_by (named n) t ≡ some a) where
  drop_vested-Shifted :
      Gives
        (Shifted (pos 0) (neg_ℤ a.vesting_shares.amount) (pos 0) t)
        (modify_account n drop_vested t)
  unfolding drop_vested account_bmt vests_of worth_of
  drop_vested-Shifted =
      modify_account-Shifted (pos 0) (neg_ℤ a.vesting_shares.amount) (pos 0) n drop_vested t
        λ b there.
          let same : a ≡ b = cc in
          subst
            (λ c. Gives (Moves (pos 0) (neg_ℤ a.vesting_shares.amount) (pos 0) c) (drop_vested c))
            same (gives (omega int_laws, omega int_laws, omega int_laws))

  drop_reward_vesting-Shifted :
      Gives
        (Shifted
          (pos 0)
          (neg_ℤ a.reward_vesting_balance.amount)
          (neg_ℤ a.reward_vesting_bmt.amount)
          t)
        (modify_account n drop_reward_vesting t)
  unfolding drop_reward_vesting account_bmt vests_of worth_of
  drop_reward_vesting-Shifted =
      modify_account-Shifted (pos 0) (neg_ℤ a.reward_vesting_balance.amount)
        (neg_ℤ a.reward_vesting_bmt.amount) n drop_reward_vesting t
        λ b there.
          let same : a ≡ b = cc in
          subst
            (λ c.
              Gives
                (Moves (pos 0) (neg_ℤ a.reward_vesting_balance.amount)
                  (neg_ℤ a.reward_vesting_bmt.amount) c)
                (drop_reward_vesting c))
            same (gives (omega int_laws, omega int_laws, omega int_laws))

module _ ⦃fc : Fc⦄ (start : Db) where
  -- an amount that leaves a balance
  burn_held :
      (total amount : Asset) (db : Db) {adjust : Asset → Result Accounts}
      → IsBurning start (total, db)
      → ((delta : Asset) → Gives (Shifted delta.amount (pos 0) (pos 0) db.accounts) (adjust delta))
      → Gives (IsBurning start) (
          asset_add total amount >>= λ total'. asset_neg amount >>= λ debit.
          adjust debit >>= λ accounts. ok (total', record db { accounts = accounts }))
  burn_held total amount db so_far shifted =
      bind-Gives (asset_add-Gives total amount) λ total' more.
        bind-Gives (asset_neg-Gives amount) λ debit minus.
          bind-Gives (shifted debit) λ accounts held.
            gives {a = (total', record db { accounts = accounts })} (
              burnt start db total total' debit.amount (pos 0) (pos 0) (pos 0) amount.amount
                accounts db.props so_far held (same-Recorded db.props)
                (rw minus.0 (minus_zero amount.amount)) more.0)

  burn_balance-IsBurning :
      (total : Asset) (db : Db)
      → IsBurning start (total, db)
      → Gives (IsBurning start) (burn_balance (total, db))
  unfolding burn_balance
  burn_balance-IsBurning total db so_far = step-Gives (get_account null_account db.accounts) λ a _.
      elim (Bool-cases (ltb_ℤ (pos 0) a.balance.amount)) [
        | inl something ↦ rw something (
            burn_held total a.balance db so_far
              λ delta. adjust_balance-Shifted null_account delta db.accounts)
        | inr nothing ↦ rw nothing (gives {a = (total, db)} so_far)
      ]

  burn_savings-IsBurning :
      (total : Asset) (db : Db)
      → IsBurning start (total, db)
      → Gives (IsBurning start) (burn_savings (total, db))
  unfolding burn_savings
  burn_savings-IsBurning total db so_far = step-Gives (get_account null_account db.accounts) λ a _.
      elim (Bool-cases (ltb_ℤ (pos 0) a.savings_balance.amount)) [
        | inl something ↦ rw something (
            burn_held total a.savings_balance db so_far
              λ delta. adjust_savings_balance-Shifted null_account delta db.accounts)
        | inr nothing ↦ rw nothing (gives {a = (total, db)} so_far)
      ]

  burn_reward-IsBurning :
      (total : Asset) (db : Db)
      → IsBurning start (total, db)
      → Gives (IsBurning start) (burn_reward (total, db))
  unfolding burn_reward
  burn_reward-IsBurning total db so_far = step-Gives (get_account null_account db.accounts) λ a _.
      elim (Bool-cases (ltb_ℤ (pos 0) a.reward_bmt_balance.amount)) [
        | inl something ↦ rw something (
            burn_held total a.reward_bmt_balance db so_far
              λ delta. adjust_reward_balance-Shifted null_account delta db.accounts)
        | inr nothing ↦ rw nothing (gives {a = (total, db)} so_far)
      ]

  burn_vested-IsBurning :
      (total : Asset) (db : Db)
      → IsBurning start (total, db)
      → Gives (IsBurning start) (burn_vested (total, db))
  unfolding burn_vested props_bmt recorded_shares
  burn_vested-IsBurning total db so_far =
      bind-Gives (get_account-Gives null_account db.accounts) λ a found.
        elim (Bool-cases (ltb_ℤ (pos 0) a.vesting_shares.amount)) [
          | inl something ↦ rw something (
              step-Gives (asset_mul a.vesting_shares (get_vesting_share_price db.props))
                λ converted _.
                  bind-Gives (asset_sub-Gives db.props.total_vesting_shares a.vesting_shares)
                    λ vested fewer.
                      bind-Gives (asset_sub-Gives db.props.total_vesting_fund_bmt converted)
                        λ fund less.
                          bind-Gives (drop_vested-Shifted null_account db.accounts a found)
                            λ accounts held.
                              bind-Gives (asset_add-Gives total converted) λ total' more.
                                let q : Props = record db.props {
                                  total_vesting_shares = vested;
                                  total_vesting_fund_bmt = fund;
                                } in
                                gives {a = (total', record db { accounts = accounts; props = q })} (
                                  burnt start db total total' (pos 0) (neg_ℤ converted.amount)
                                    (neg_ℤ a.vesting_shares.amount) (pos 0) converted.amount
                                    accounts q so_far held
                                    (
                                      rw less.0 (omega int_laws),
                                      rw fewer.0 (omega int_laws),
                                      omega int_laws,
                                      refl,
                                    )
                                    (zero_+ℤ (neg_ℤ converted.amount)) more.0))
          | inr nothing ↦ rw nothing (gives {a = (total, db)} so_far)
        ]

  burn_reward_vesting-IsBurning :
      (total : Asset) (db : Db)
      → IsBurning start (total, db)
      → Gives (IsBurning start) (burn_reward_vesting (total, db))
  unfolding burn_reward_vesting props_bmt recorded_shares
  burn_reward_vesting-IsBurning total db so_far =
      bind-Gives (get_account-Gives null_account db.accounts) λ a found.
        elim (Bool-cases (ltb_ℤ (pos 0) a.reward_vesting_balance.amount)) [
          | inl something ↦ rw something (
              bind-Gives (asset_add-Gives total a.reward_vesting_bmt) λ total' more.
                bind-Gives
                  (asset_sub-Gives db.props.pending_rewarded_vesting_shares
                    a.reward_vesting_balance)
                  λ pending fewer.
                    bind-Gives
                      (asset_sub-Gives db.props.pending_rewarded_vesting_bmt a.reward_vesting_bmt)
                      λ worth less.
                        bind-Gives (drop_reward_vesting-Shifted null_account db.accounts a found)
                          λ accounts held.
                            let q : Props = record db.props {
                              pending_rewarded_vesting_shares = pending;
                              pending_rewarded_vesting_bmt = worth;
                            } in
                            gives {a = (total', record db { accounts = accounts; props = q })} (
                              burnt start db total total' (pos 0)
                                (neg_ℤ a.reward_vesting_bmt.amount)
                                (neg_ℤ a.reward_vesting_balance.amount)
                                (neg_ℤ a.reward_vesting_bmt.amount) a.reward_vesting_bmt.amount
                                accounts q so_far held
                                (
                                  rw less.0 (omega int_laws),
                                  rw fewer.0 (omega int_laws),
                                  rw less.0 (omega int_laws),
                                  refl,
                                )
                                (zero_+ℤ (neg_ℤ a.reward_vesting_bmt.amount)) more.0))
          | inr nothing ↦ rw nothing (gives {a = (total, db)} so_far)
        ]

  -- the supply is corrected by what was burnt, if it is positive
  adjust_supply-current :
      (delta : Asset) (p : Props)
      → Gives
          (λ q.
            (q.current_supply.amount ≡ p.current_supply.amount +ℤ delta.amount)
            × (props_bmt q ≡ props_bmt p)
            × (recorded_shares q ≡ recorded_shares p)
            × (q.pending_rewarded_vesting_bmt ≡ p.pending_rewarded_vesting_bmt))
          (adjust_supply delta false p)
  unfolding adjust_supply new_vesting props_bmt recorded_shares
  adjust_supply-current delta p = assert-Gives (delta.symbol == bmt_symbol) λ _.
      bind-Gives (asset_add-Gives delta _) λ all sums.
        bind-Gives (asset_add-Gives p.current_supply all) λ current grown.
          bind-Gives (asset_add-Gives p.virtual_supply all) λ virtual _.
            bind-Gives (asset_add-Gives p.total_vesting_fund_bmt _) λ fund filled.
              gives
                (rw (grown.0, sums.0) (omega int_laws), rw filled.0 (omega int_laws), refl, refl)

-- what the objects lose, and what the recorded supply loses
abbrev pub Burnt : Db → Db → Type 0
Burnt db db' =
    AreVested db'
    × ((burnt_bmt : ℤ) × (total_supply db' +ℤ burnt_bmt ≡ total_supply db)
        × (db'.props.current_supply.amount +ℤ (if ltb_ℤ (pos 0) burnt_bmt then burnt_bmt else pos 0)
            ≡ db.props.current_supply.amount))

module _ ⦃fc : Fc⦄ where
  burn_supply-Burnt :
      (start db : Db) (total : Asset)
      → IsBurning start (total, db)
      → Gives (Burnt start) (burn_supply (total, db))
  unfolding burn_supply total_supply recorded_shares
  burn_supply-Burnt start db total ((vests, worth), whole, current) =
      elim (Bool-cases (ltb_ℤ (pos 0) total.amount)) [
        | inl something ↦ rw something (
            bind-Gives (asset_neg-Gives total) λ minus negated.
              bind-Gives (adjust_supply-current start minus db.props)
                λ q (less, same, shares, pending). gives {a = record db { props = q }} (
                  (shares ∙ vests, ap (λ p. p.amount) pending ∙ worth),
                  (
                    total.amount,
                    rw same whole,
                    rw (something, less, negated.0, current) (omega int_laws),
                  ),
                ))
        | inr nothing ↦ rw nothing (
            gives {a = db}
              ((vests, worth), (total.amount, whole, rw (nothing, current) (omega int_laws))))
      ]

  -- Where the vesting shares on record are those that the accounts hold, they still are after the
  -- account of null is cleared. The objects lose an amount of BMT, and the recorded supply loses the
  -- same amount when it is positive, and none otherwise.
  pub clear_null_account_balance-Burnt :
      (db : Db) → AreVested db → Gives (Burnt db) (clear_null_account_balance db)
  unfolding clear_null_account_balance
  clear_null_account_balance-Burnt db books =
      bind-Gives (burn_balance-IsBurning db _ db (books, +ℤ_zero (total_supply db), refl))
        λ (t1, d1) h1. bind-Gives (burn_savings-IsBurning db t1 d1 h1) λ (t2, d2) h2.
          bind-Gives (burn_vested-IsBurning db t2 d2 h2) λ (t3, d3) h3.
            bind-Gives (burn_reward-IsBurning db t3 d3 h3) λ (t4, d4) h4.
              bind-Gives (burn_reward_vesting-IsBurning db t4 d4 h4)
                λ (t5, d5) h5. burn_supply-Burnt db d5 t5 h5
