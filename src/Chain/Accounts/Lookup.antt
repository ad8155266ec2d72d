-- ===== src/Chain/Accounts/Lookup.antt =====
-- Balances by name: what a change of one account's balance does to each account's.
use bmchain_core.Prelude.{
  ℕ, ◌≡◌, refl, [], ◌∷◌, ℤ, ◌+ℤ◌, Option, none, some, Result, Error, ◌==◌, if◌then◌else◌, find_by,
  replace_by, Gives, gives, bind-Gives, assert-Gives, throw-Gives, arith, find_by-selected, pos, ap,
  +ℤ_zero,
}
use bmchain_core.Protocol.Fc.{Fc}
use bmchain_core.Protocol.Config.{bmt_symbol}
use bmchain_core.Protocol.Asset.{Asset, asset_add-Gives}
use bmchain_core.Chain.Objects.{Account}
use bmchain_core.Chain.Accounts.{
  Accounts, named, get_account, modify_account, add_balance, adjust_balance,
}

abbrev pub liquid_of : Option Account → Option ℤ
liquid_of none = none
liquid_of (some a) = some a.balance.amount

-- the liquid balance under a name
unfoldable pub liquid : ℕ → Accounts → Option ℤ
liquid n t = liquid_of (find_by (named n) t)

abbrev pub plus : Option ℤ → ℤ → Option ℤ
plus none d = none
plus (some x) d = some (x +ℤ d)

pub plus_zero : (m : Option ℤ) → plus m (pos 0) ≡ m
plus_zero none = refl
plus_zero (some x) = ap some (+ℤ_zero x)

pub find_by-replace_by-named :
    (k n : ℕ) (a b : Account) (t : Accounts)
    → b.name ≡ n
    → find_by (named n) t ≡ some a
    → find_by (named k) (replace_by (named n) b t)
      ≡ (if k == n then some b else find_by (named k) t)
unfolding find_by replace_by
find_by-replace_by-named k n a b [] e h = cc
find_by-replace_by-named k n a b (x ∷ t) e h = ground (arith, find_by-replace_by-named k n a b t e)

-- A change that keeps the name and moves the liquid balance by `d` moves that balance alone.
pub modify_account-liquid :
    (n : ℕ) (f : Account → Result Account) (d : ℤ) (t : Accounts)
    → ((a : Account)
        → Gives (λ b. (b.name ≡ a.name) × (b.balance.amount ≡ a.balance.amount +ℤ d)) (f a))
    → Gives
        (λ t'. (k : ℕ) → liquid k t' ≡ (if k == n then plus (liquid n t) d else liquid k t))
        (modify_account n f t)
unfolding modify_account get_account liquid
modify_account-liquid n f d t h =
    bind-Gives (throw-Gives (find_by (named n) t) Error.not_found λ a e. e) λ a found.
      bind-Gives (h a) λ b (same, moved). gives λ k.
        ground (arith, find_by-selected (named n) t a found, find_by-replace_by-named k n a b t)

module _ ⦃fc : Fc⦄ where
  pub adjust_balance-liquid :
      (n : ℕ) (delta : Asset) (t : Accounts)
      → Gives
          (λ t'.
            (k : ℕ) → liquid k t' ≡ (if k == n then plus (liquid n t) delta.amount else liquid k t))
          (adjust_balance n delta t)
  unfolding adjust_balance
  adjust_balance-liquid n delta t =
      modify_account-liquid n (add_balance delta) delta.amount t (added delta)
    where
      added :
          (delta : Asset) (a : Account)
          → Gives
              (λ b. (b.name ≡ a.name) × (b.balance.amount ≡ a.balance.amount +ℤ delta.amount))
              (add_balance delta a)
      added delta a =
          assert-Gives (delta.symbol == bmt_symbol)
            λ _. bind-Gives (asset_add-Gives a.balance delta) λ b h. gives (refl, h.0)
