-- ===== src/Chain/Accounts/Covered.antt =====
-- Accounts without debts: no balance and no savings below zero.
use bmchain_core.Protocol.Config.{bmt_symbol}
use bmchain_core.Protocol.Asset.{Asset, asset_add-Gives}
use bmchain_core.Protocol.Fc.{Fc}
use bmchain_core.Chain.Accounts.{
  get_account, modify_account, Accounts, Asset, adjust_balance, adjust_savings_balance, named,
  add_balance, add_savings_balance, bmt_symbol,
}
use bmchain_core.Chain.Objects.{Account}
use bmchain_core.Prelude.{
  ℕ, pos, Result, ◌≤ℤ◌, Gives, All, find_by, All-find_by, ◌≡◌, int_laws, assert-Gives, some, ◌==◌,
  throw-Gives, bind-Gives, ◌+ℤ◌, Error, gives, All-replace_by,
}

abbrev pub IsCovered : Account → Type 0
IsCovered a = (pos 0 ≤ℤ a.balance.amount) × (pos 0 ≤ℤ a.savings_balance.amount)

pub get_account-Gives :
    (n : ℕ) (t : Accounts) → Gives (λ a. find_by (named n) t ≡ some a) (get_account n t)
unfolding get_account
get_account-Gives n t = throw-Gives (find_by (named n) t) Error.not_found λ a e. e

-- A change of one account that keeps a property keeps it of every account.
pub modify_account-All :
    (P : Account → Type 0) (n : ℕ) (f : Account → Result Account) (t : Accounts)
    → All P t
    → ((a : Account) → find_by (named n) t ≡ some a → P a → Gives P (f a))
    → Gives (All P) (modify_account n f t)
unfolding modify_account
modify_account-All P n f t all keeps = bind-Gives (get_account-Gives n t) λ a found.
    bind-Gives (keeps a found (All-find_by P (named n) t a all found))
      λ b good. gives (All-replace_by P (named n) b t all good)

module _ ⦃fc : Fc⦄ (n : ℕ) (delta : Asset) (t : Accounts) (all : All IsCovered t) where
  -- a change of a balance that is covered by it
  pub adjust_balance-IsCovered :
      ((a : Account) → find_by (named n) t ≡ some a → pos 0 ≤ℤ a.balance.amount +ℤ delta.amount)
      → Gives (All IsCovered) (adjust_balance n delta t)
  unfolding adjust_balance add_balance
  adjust_balance-IsCovered enough =
      modify_account-All IsCovered n (add_balance delta) t all λ a found covered.
        assert-Gives (delta.symbol == bmt_symbol) λ _.
          bind-Gives (asset_add-Gives a.balance delta)
            λ b sum. gives (rw sum.0 (enough a found), covered.1)

  -- credits
  pub credit-IsCovered : pos 0 ≤ℤ delta.amount → Gives (All IsCovered) (adjust_balance n delta t)
  credit-IsCovered credit = adjust_balance-IsCovered λ a found.
      let (covered, _) = All-find_by IsCovered (named n) t a all found in
      omega (int_laws, covered, credit)

  pub adjust_savings_balance-IsCovered :
      pos 0 ≤ℤ delta.amount → Gives (All IsCovered) (adjust_savings_balance n delta t)
  unfolding adjust_savings_balance add_savings_balance
  adjust_savings_balance-IsCovered credit =
      modify_account-All IsCovered n (add_savings_balance delta) t all λ a found covered.
        assert-Gives (delta.symbol == bmt_symbol) λ _.
          bind-Gives (asset_add-Gives a.savings_balance delta)
            λ b sum. gives (covered.0, rw sum.0 (omega (int_laws, covered.1, credit)))
