-- ===== src/Chain/Transfers/Balances.antt =====
-- Whose balance a transfer changes, and by how much; when it is refused, and when it goes through.
use bmchain_core.Prelude.{
  ℕ, ◌≡◌, ◌≢◌, ℤ, pos, ◌+ℤ◌, ◌<ℤ◌, neg_ℤ, find_by, err, Error, Gives, gives, bind-Gives, step-Gives,
  arith, some, if◌then◌else◌, +ℤ_zero, false, find_by-selected, find_by-replace_by, ◌≤ℤ◌, IsInt64,
  returns, true, replace_by,
}
use bmchain_core.Protocol.Fc.{safe_neg, safe_add, Fc}
use bmchain_core.Protocol.Asset.{asset_neg, asset_add, asset_neg-Gives, assert_ge}
use bmchain_core.Chain.Objects.{Account, Db}
use bmchain_core.Chain.Accounts.{
  modify_account, adjust_balance, Accounts, named, get_account, get_balance,
}
use bmchain_core.Chain.Accounts.Lookup.{
  liquid, plus, modify_account-liquid, adjust_balance-liquid, plus_zero, find_by-replace_by-named,
}
use bmchain_core.Chain.Transfers.{
  Transfer, prove_active, transfer, asset_neg, asset_add, bmt_symbol,
}

-- The amount, and nothing else, goes from one balance to the other.
abbrev pub Moved : ℕ → ℕ → ℤ → Accounts → Accounts → Type 0
Moved sender to amount t t' =
    (liquid sender t' ≡ plus (liquid sender t) (neg_ℤ amount))
    × (liquid to t' ≡ plus (liquid to t) amount)
    × ((k : ℕ) → k ≢ sender → k ≢ to → liquid k t' ≡ liquid k t)

prove_active-liquid :
    (now : ℕ) (a : Account)
    → Gives
        (λ b. (b.name ≡ a.name) × (b.balance.amount ≡ a.balance.amount +ℤ pos 0))
        (prove_active now a)
unfolding prove_active
prove_active-liquid now a = gives (ground arith, ground (arith, +ℤ_zero a.balance.amount))

module _ ⦃fc : Fc⦄ where
  -- A transfer between two accounts that returns has taken the amount from the sender's balance,
  -- added it to the receiver's, and left every other balance as it was.
  pub transfer-Moved :
      (o : Transfer) (db : Db)
      → o.sender ≢ o.to
      → Gives (λ db'. Moved o.sender o.to o.amount.amount db.accounts db'.accounts) (transfer o db)
  unfolding transfer
  transfer-Moved o db apart = step-Gives (get_account o.sender db.accounts) λ _ _.
      step-Gives (get_account o.to db.accounts) λ _ _.
        bind-Gives
          (modify_account-liquid o.sender (prove_active db.props.time) (pos 0) db.accounts
            (prove_active-liquid db.props.time))
          λ proved same. step-Gives (get_account o.sender proved) λ from_account _.
            step-Gives (get_balance from_account o.amount.symbol) λ funds _.
              step-Gives (assert_ge funds o.amount) λ _ _.
                bind-Gives (asset_neg-Gives o.amount) λ debit negated.
                  bind-Gives (adjust_balance-liquid o.sender debit proved) λ debited first.
                    bind-Gives (adjust_balance-liquid o.to o.amount debited) λ accounts second.
                      gives (
                        ground (
                          arith,
                          same o.sender,
                          first o.sender,
                          second o.sender,
                          plus_zero (liquid o.sender db.accounts),
                        ),
                        ground (arith, same o.to, first o.to, second o.to),
                        λ k ks kt. ground (arith, same k, first k, second k),
                      )

  -- A transfer between existing accounts of more than the balance of the sender throws an assertion.
  pub transfer_overdraft :
      (o : Transfer) (db : Db) {a b : Account}
      → find_by (named o.sender) db.accounts ≡ some a
      → find_by (named o.to) db.accounts ≡ some b
      → a.balance.amount <ℤ o.amount.amount
      → transfer o db ≡ err Error.assertion
  unfolding transfer get_account get_balance assert_ge modify_account
  transfer_overdraft o db {a} ea eb short =
      let proved : Account =
        if a.active_challenged
        then record a { active_challenged = false; last_active_proved = db.props.time }
        else a in
      ground (
        arith,
        find_by-selected (named o.sender) db.accounts a ea,
        find_by-replace_by (named o.sender) proved db.accounts,
      )

  -- A transfer of BMT between two different existing accounts returns if the balance of the sender
  -- covers it and the debit and both new balances fit in an `int64_t`.
  pub transfer_covered :
      (o : Transfer) (db : Db) {a b : Account}
      → find_by (named o.sender) db.accounts ≡ some a
      → find_by (named o.to) db.accounts ≡ some b
      → o.sender ≢ o.to
      → a.balance.symbol ≡ bmt_symbol
      → b.balance.symbol ≡ bmt_symbol
      → o.amount.symbol ≡ bmt_symbol
      → o.amount.amount ≤ℤ a.balance.amount
      → IsInt64 (neg_ℤ o.amount.amount)
      → IsInt64 (a.balance.amount +ℤ neg_ℤ o.amount.amount)
      → IsInt64 (b.balance.amount +ℤ o.amount.amount)
      → returns (transfer o db) ≡ true
  unfolding transfer get_account get_balance assert_ge modify_account adjust_balance asset_neg
      asset_add safe_neg safe_add
  transfer_covered o db {a} {b} ea eb apart sa sb so covered fits_neg fits_debit fits_credit =
      let proved : Account =
        if a.active_challenged
        then record a { active_challenged = false; last_active_proved = db.props.time }
        else a in
      let debited : Account = record proved {
        balance = record {
          amount = a.balance.amount +ℤ neg_ℤ o.amount.amount;
          symbol = a.balance.symbol;
        };
      } in
      ground (
        arith,
        find_by-selected (named o.sender) db.accounts a ea,
        find_by-replace_by-named o.sender o.sender a proved db.accounts,
        find_by-replace_by-named o.to o.sender a proved db.accounts,
        find_by-replace_by-named o.to o.sender proved debited
            (replace_by (named o.sender) proved db.accounts),
        fc.neg_fits o.amount.amount,
        fc.add_fits a.balance.amount (neg_ℤ o.amount.amount),
        fc.add_fits b.balance.amount o.amount.amount,
      )
