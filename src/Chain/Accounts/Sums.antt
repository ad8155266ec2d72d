-- ===== src/Chain/Accounts/Sums.antt =====
-- Sums over the accounts: how each change of a balance moves the totals that
-- `database::validate_invariants` adds up.
use bmchain_core.Prelude.{
  ℕ, ◌≡◌, ℤ, ◌+ℤ◌, int_laws, Result, Error, ◌==◌, sum_of, sum_of-replace_by, Gives, gives,
  bind-Gives, assert-Gives, throw-Gives, find_by, +ℤ_exchange, replace_by,
}
use bmchain_core.Protocol.Fc.{Fc}
use bmchain_core.Protocol.Config.{bmt_symbol}
use bmchain_core.Protocol.Asset.{Asset, asset_add-Gives}
use bmchain_core.Chain.Objects.{Account}
use bmchain_core.Chain.Accounts.{
  Accounts, named, get_account, modify_account, add_balance, add_savings_balance,
  add_reward_balance, adjust_balance, adjust_savings_balance, adjust_reward_balance,
}

-- What an account holds of the supply: liquid, saved and rewarded.
unfoldable pub account_bmt : Account → ℤ
account_bmt a = a.balance.amount +ℤ a.savings_balance.amount +ℤ a.reward_bmt_balance.amount

-- A change of one account that moves a measure by `d` moves its sum by `d`.
pub modify_account-Gives :
    (m : Account → ℤ) (n : ℕ) (f : Account → Result Account) (d : ℤ) (t : Accounts)
    → ((a : Account) → Gives (λ b. m b ≡ m a +ℤ d) (f a))
    → Gives (λ t'. sum_of m t' ≡ sum_of m t +ℤ d) (modify_account n f t)
unfolding modify_account get_account
modify_account-Gives m n f d t h =
    bind-Gives (throw-Gives (find_by (named n) t) Error.not_found λ a e. e) λ a found.
      bind-Gives (h a) λ b moved. gives (
        +ℤ_exchange (m a) (m b) d (sum_of m (replace_by (named n) b t)) (sum_of m t) moved
          (sum_of-replace_by m (named n) a b t found))

module _ ⦃fc : Fc⦄ where
  add_balance-Gives :
      (delta : Asset) (a : Account)
      → Gives (λ b. account_bmt b ≡ account_bmt a +ℤ delta.amount) (add_balance delta a)
  unfolding add_balance account_bmt
  add_balance-Gives delta a =
      assert-Gives (delta.symbol == bmt_symbol)
        λ _. bind-Gives (asset_add-Gives a.balance delta) λ b h. gives (rw h.0 (omega int_laws))

  add_savings_balance-Gives :
      (delta : Asset) (a : Account)
      → Gives (λ b. account_bmt b ≡ account_bmt a +ℤ delta.amount) (add_savings_balance delta a)
  unfolding add_savings_balance account_bmt
  add_savings_balance-Gives delta a = assert-Gives (delta.symbol == bmt_symbol) λ _.
      bind-Gives (asset_add-Gives a.savings_balance delta) λ b h. gives (rw h.0 (omega int_laws))

  add_reward_balance-Gives :
      (delta : Asset) (a : Account)
      → Gives (λ b. account_bmt b ≡ account_bmt a +ℤ delta.amount) (add_reward_balance delta a)
  unfolding add_reward_balance account_bmt
  add_reward_balance-Gives delta a = assert-Gives (delta.symbol == bmt_symbol) λ _.
      bind-Gives (asset_add-Gives a.reward_bmt_balance delta) λ b h. gives (rw h.0 (omega int_laws))

  pub adjust_balance-Gives :
      (n : ℕ) (delta : Asset) (t : Accounts)
      → Gives
          (λ t'. sum_of account_bmt t' ≡ sum_of account_bmt t +ℤ delta.amount)
          (adjust_balance n delta t)
  unfolding adjust_balance
  adjust_balance-Gives n delta t =
      modify_account-Gives account_bmt n (add_balance delta) delta.amount t
        (add_balance-Gives delta)

  pub adjust_savings_balance-Gives :
      (n : ℕ) (delta : Asset) (t : Accounts)
      → Gives
          (λ t'. sum_of account_bmt t' ≡ sum_of account_bmt t +ℤ delta.amount)
          (adjust_savings_balance n delta t)
  unfolding adjust_savings_balance
  adjust_savings_balance-Gives n delta t =
      modify_account-Gives account_bmt n (add_savings_balance delta) delta.amount t
        (add_savings_balance-Gives delta)

  pub adjust_reward_balance-Gives :
      (n : ℕ) (delta : Asset) (t : Accounts)
      → Gives
          (λ t'. sum_of account_bmt t' ≡ sum_of account_bmt t +ℤ delta.amount)
          (adjust_reward_balance n delta t)
  unfolding adjust_reward_balance
  adjust_reward_balance-Gives n delta t =
      modify_account-Gives account_bmt n (add_reward_balance delta) delta.amount t
        (add_reward_balance-Gives delta)
