-- ===== src/Chain/CustomTokens/Conservation.antt =====
-- Tokens are conserved by transfers, and BMT by the creation of a token.
use bmchain_core.Prelude.{
  ℕ, ◌≡◌, List, [], ◌∷◌, ◌==◌, if◌then◌else◌, ℤ, pos, ◌+ℤ◌, ◌-ℤ◌, ◌≤ℤ◌, ltb_ℤ, int_laws, find_by,
  replace_by, sum_of, sum_of-replace_by_sub, Error, Gives, gives, bind-Gives, step-Gives,
  assert-Gives, throw-Gives, arith, Bool-cases, Option-cases, inl, inr, fc_assert,
}
use bmchain_core.Protocol.Fc.{Fc}
use bmchain_core.Protocol.Asset.{Asset, asset_add-Gives, asset_sub-Gives, assert_ge}
use bmchain_core.Chain.Objects.{Account, RewardFund, Db}
use bmchain_core.Chain.Accounts.{get_account}
use bmchain_core.Chain.Accounts.Sums.{account_bmt, modify_account-Gives}
use bmchain_core.Chain.Supply.{total_supply, fund_bmt}
use bmchain_core.Chain.CustomTokens.{
  AccountBalance, TokenDb, TokenCreate, TokenTransfer, is_owner, has_symbol, first_balance,
  fund_all, charge_fee, pay_creation, custom_token_create, credit, custom_token_transfer, is_free,
}

-- what an asset holds of one token
unfoldable pub amount_of : ℕ → Asset → ℤ
amount_of s a = if a.symbol == s then a.amount else pos 0

abbrev pub of_symbol : ℕ → AccountBalance → ℤ
of_symbol s b = amount_of s b.balance

-- all balances of one token
abbrev pub issued : ℕ → List AccountBalance → ℤ
issued s t = sum_of (of_symbol s) t

amount_of-add :
    (s : ℕ) (a b c : Asset)
    → c.amount ≡ a.amount +ℤ b.amount
    → c.symbol ≡ a.symbol
    → b.symbol ≡ a.symbol
    → amount_of s c ≡ amount_of s a +ℤ amount_of s b
unfolding amount_of
amount_of-add s a b c h k l = elim (Bool-cases (a.symbol == s)) [
  | inl same ↦ rw (k, l, same) h
  | inr other ↦ rw (k, l, other) (omega int_laws)
]

amount_of-sub :
    (s : ℕ) (a b c : Asset)
    → c.amount ≡ a.amount -ℤ b.amount
    → c.symbol ≡ a.symbol
    → b.symbol ≡ a.symbol
    → amount_of s c ≡ amount_of s a -ℤ amount_of s b
unfolding amount_of
amount_of-sub s a b c h k l = elim (Bool-cases (a.symbol == s)) [
  | inl same ↦ rw (k, l, same) h
  | inr other ↦ rw (k, l, other) (omega int_laws)
]

module _ ⦃fc : Fc⦄ where
  credit-Gives :
      (s to : ℕ) (amount : Asset) (t : List AccountBalance)
      → Gives (λ t'. issued s t' ≡ issued s t +ℤ amount_of s amount) (credit to amount t)
  unfolding credit first_balance sum_of
  credit-Gives s to amount t = elim (Option-cases (find_by (is_owner to amount.symbol) t)) [
    | inl fresh ↦ rw (credit, fresh) (gives (omega int_laws))
    | inr (b, found) ↦
        rw (credit, found)
          (bind-Gives (asset_add-Gives b.balance amount) λ sum (amounts, same, symbols). gives (
            rw
              (
                sum_of-replace_by_sub (of_symbol s) (is_owner to amount.symbol) b
                    (record b { balance = sum }) t found,
                amount_of-add s b.balance amount sum amounts same symbols,
              )
              (omega int_laws)))
  ]

  -- A transfer that returns keeps the sum of the balances of every token.
  pub custom_token_transfer-Gives :
      (o : TokenTransfer) (db : TokenDb) (s : ℕ)
      → Gives (λ db'. issued s db'.balances ≡ issued s db.balances) (custom_token_transfer o db)
  unfolding custom_token_transfer
  custom_token_transfer-Gives o db s =
      let key = is_owner o.sender o.amount.symbol in
      bind-Gives (throw-Gives (find_by key db.balances) Error.assertion λ b e. e) λ b found.
        step-Gives (assert_ge b.balance o.amount) λ _ _.
          assert-Gives (b.symbol == o.amount.symbol) λ _.
            bind-Gives (asset_sub-Gives b.balance o.amount) λ rest (amounts, same, symbols).
              bind-Gives
                (credit-Gives s o.to o.amount
                  (replace_by key (record b { balance = rest }) db.balances))
                λ balances credited. gives (
                  rw
                    (
                      credited,
                      sum_of-replace_by_sub (of_symbol s) key b (record b { balance = rest })
                          db.balances found,
                      amount_of-sub s b.balance o.amount rest amounts same symbols,
                    )
                    (omega int_laws))

  charge_fee-Gives :
      (fee : Asset) (a : Account)
      → Gives (λ b. account_bmt b ≡ account_bmt a +ℤ (pos 0 -ℤ fee.amount)) (charge_fee fee a)
  unfolding charge_fee account_bmt
  charge_fee-Gives fee a =
      bind-Gives (asset_sub-Gives a.balance fee) λ b h. gives (rw h.0 (omega int_laws))

  fund_all-Gives :
      (fee : Asset) (f : RewardFund)
      → Gives (λ t. sum_of fund_bmt t ≡ fund_bmt f +ℤ fee.amount) (fund_all fee (f ∷ []))
  unfolding fund_all fund_bmt sum_of
  fund_all-Gives fee f =
      bind-Gives (asset_add-Gives f.reward_balance fee) λ b h. gives (rw h.0 (omega int_laws))

  pay_creation-Gives :
      (o : TokenCreate) (db : Db) {f : RewardFund}
      → db.reward_funds ≡ f ∷ []
      → pos 0 ≤ℤ o.creation_fee.amount
      → Gives (λ db'. total_supply db' ≡ total_supply db) (pay_creation o db)
  unfolding pay_creation total_supply sum_of
  pay_creation-Gives o db {f} one nonneg =
      bind-Gives
        (modify_account-Gives account_bmt o.control_account (charge_fee o.creation_fee)
          (pos 0 -ℤ o.creation_fee.amount) db.accounts (charge_fee-Gives o.creation_fee))
        λ accounts charged. elim (Bool-cases (ltb_ℤ (pos 0) o.creation_fee.amount)) [
          | inl due ↦
              rw (due, one)
                (bind-Gives (fund_all-Gives o.creation_fee f)
                  λ funds filled. gives (rw (charged, filled) (omega int_laws)))
          | inr free ↦ rw free (
              gives (
                rw charged (
                  let none_due : o.creation_fee.amount ≡ pos 0 = ground arith in
                  rw none_due (omega int_laws))))
        ]

  -- With one reward fund and a fee that is not negative, the creation of a token that returns keeps
  -- the supply of BMT and issues what the operation says, of the new token alone.
  pub custom_token_create-Gives :
      (o : TokenCreate) (db : TokenDb) (s : ℕ) {f : RewardFund}
      → db.chain.reward_funds ≡ f ∷ []
      → pos 0 ≤ℤ o.creation_fee.amount
      → Gives
          (λ db'.
            (total_supply db'.chain ≡ total_supply db.chain)
            × (issued s db'.balances ≡ issued s db.balances +ℤ amount_of s o.current_supply))
          (custom_token_create o db)
  unfolding custom_token_create first_balance sum_of
  custom_token_create-Gives o db s {f} one nonneg =
      step-Gives (get_account o.control_account db.chain.accounts) λ acc _.
        step-Gives (assert_ge acc.balance o.creation_fee) λ _ _.
          step-Gives (fc_assert (is_free (find_by (has_symbol o.current_supply.symbol) db.tokens)))
            λ _ _.
              bind-Gives (pay_creation-Gives o db.chain one nonneg)
                λ chain supply. gives (supply, omega int_laws)
