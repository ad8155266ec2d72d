-- ===== src/Chain/Transfers/Conservation.antt =====
-- Transfers keep the supply, and a fee leaves it on both sides of the books.
use bmchain_core.Prelude.{
  ℕ, ◌≡◌, refl, Bool, ◌==◌, pos, ◌+ℤ◌, ◌-ℤ◌, int_laws, find_by, sum_of, sum_of-remove_by_sub,
  Result, Error, Gives, gives, bind-Gives, step-Gives, assert-Gives, throw-Gives, Gives-imp, arith,
  ◌&&◌, not, ltb, ◌*◌,
}
use bmchain_core.Protocol.Fc.{Fc}
use bmchain_core.Protocol.Config.{bmt_symbol, blocks_per_day}
use bmchain_core.Protocol.Asset.{Asset, asset_add-Gives, asset_neg-Gives, assert_ge}
use bmchain_core.Chain.Objects.{Account, Props, Db}
use bmchain_core.Chain.Accounts.{Accounts, get_account, get_balance, modify_account}
use bmchain_core.Chain.Accounts.Sums.{
  account_bmt, modify_account-Gives, adjust_balance-Gives, adjust_savings_balance-Gives,
}
use bmchain_core.Chain.Supply.{total_supply, savings_withdraw_bmt, props_bmt}
use bmchain_core.Chain.Transfers.{
  Transfer, has_request, prove_active, drop_request, transfer, transfer_to_savings,
  cancel_transfer_from_savings, adjust_supply, new_vesting, blocks_per_day,
}

-- the books balance: what is recorded as the supply is what the objects add up to
abbrev pub Backed : Db → Type 0
Backed db = db.props.current_supply.amount ≡ total_supply db

unchanged :
    (t : Accounts) (n : ℕ) (f : Account → Result Account)
    → ((a : Account) → Gives (λ b. account_bmt b ≡ account_bmt a) (f a))
    → Gives (λ t'. sum_of account_bmt t' ≡ sum_of account_bmt t) (modify_account n f t)
unchanged t n f h =
    Gives-imp
      (modify_account-Gives account_bmt n f (pos 0) t
        λ a. Gives-imp (h a) λ b e. rw e (omega int_laws))
      λ t' e. rw e (omega int_laws)

prove_active-Gives :
    (now : ℕ) (a : Account) → Gives (λ b. account_bmt b ≡ account_bmt a) (prove_active now a)
unfolding prove_active account_bmt
prove_active-Gives now a = gives (ground arith)

drop_request-Gives : (a : Account) → Gives (λ b. account_bmt b ≡ account_bmt a) (drop_request a)
unfolding drop_request account_bmt
drop_request-Gives a = gives refl

module _ ⦃fc : Fc⦄ where
  pub transfer-Gives :
      (o : Transfer) (db : Db) → Gives (λ db'. total_supply db' ≡ total_supply db) (transfer o db)
  unfolding transfer total_supply
  transfer-Gives o db = step-Gives (get_account o.sender db.accounts) λ _ _.
      step-Gives (get_account o.to db.accounts) λ _ _.
        bind-Gives
          (unchanged db.accounts o.sender (prove_active db.props.time)
            (prove_active-Gives db.props.time))
          λ proved same. step-Gives (get_account o.sender proved) λ from_account _.
            step-Gives (get_balance from_account o.amount.symbol) λ funds _.
              step-Gives (assert_ge funds o.amount) λ _ _.
                bind-Gives (asset_neg-Gives o.amount) λ debit negated.
                  bind-Gives (adjust_balance-Gives o.sender debit proved) λ debited first.
                    bind-Gives (adjust_balance-Gives o.to o.amount debited) λ accounts second.
                      gives (rw (second, first, same, negated.0) (omega int_laws))

  pub transfer_to_savings-Gives :
      (o : Transfer) (db : Db)
      → Gives (λ db'. total_supply db' ≡ total_supply db) (transfer_to_savings o db)
  unfolding transfer_to_savings total_supply
  transfer_to_savings-Gives o db = step-Gives (get_account o.sender db.accounts) λ from_account _.
      step-Gives (get_account o.to db.accounts) λ _ _.
        step-Gives (get_balance from_account o.amount.symbol) λ funds _.
          step-Gives (assert_ge funds o.amount) λ _ _.
            bind-Gives (asset_neg-Gives o.amount) λ debit negated.
              bind-Gives (adjust_balance-Gives o.sender debit db.accounts) λ debited first.
                bind-Gives (adjust_savings_balance-Gives o.to o.amount debited)
                  λ accounts second. gives (rw (second, first, negated.0) (omega int_laws))

  pub cancel_transfer_from_savings-Gives :
      (sender id : ℕ) (db : Db)
      → Gives
          (λ db'. total_supply db' ≡ total_supply db)
          (cancel_transfer_from_savings sender id db)
  unfolding cancel_transfer_from_savings total_supply savings_withdraw_bmt
  cancel_transfer_from_savings-Gives sender id db =
      bind-Gives
        (throw-Gives (find_by (has_request sender id) db.savings_withdraws) Error.not_found
          λ s e. e)
        λ swo found.
          bind-Gives (adjust_savings_balance-Gives swo.sender swo.amount db.accounts)
            λ refunded paid.
              bind-Gives (unchanged refunded sender drop_request drop_request-Gives)
                λ accounts same. gives (
                  rw
                    (
                      same,
                      paid,
                      sum_of-remove_by_sub savings_withdraw_bmt (has_request sender id) swo
                          db.savings_withdraws found,
                    )
                    (omega int_laws))

  -- Both sides of the books move together.
  pub adjust_supply-Gives :
      (delta : Asset) (adjust_vesting : Bool) (p : Props)
      → Gives
          (λ q.
            q.current_supply.amount -ℤ props_bmt q
            ≡ p.current_supply.amount -ℤ props_bmt p +ℤ delta.amount)
          (adjust_supply delta adjust_vesting p)
  unfolding adjust_supply props_bmt
  adjust_supply-Gives delta adjust_vesting p = assert-Gives (delta.symbol == bmt_symbol) λ _.
      step-Gives
        (new_vesting delta (adjust_vesting && not (ltb p.head_block_number (blocks_per_day * 7))))
        λ vesting _. bind-Gives (asset_add-Gives delta vesting) λ all sums.
          bind-Gives (asset_add-Gives p.current_supply all) λ current grown.
            bind-Gives (asset_add-Gives p.virtual_supply all) λ virtual _.
              bind-Gives (asset_add-Gives p.total_vesting_fund_bmt vesting)
                λ fund filled. gives (rw (grown.0, filled.0, sums.0) (omega int_laws))
