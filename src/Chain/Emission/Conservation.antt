-- ===== src/Chain/Emission/Conservation.antt =====
-- What is printed is recorded, and no more than the content reward goes to the reward funds.
use bmchain_core.Chain.Voting.{get_witness}
use bmchain_core.Prelude.{
  ◌≡◌, refl, List, [], ◌∷◌, ℤ, pos, ◌+ℤ◌, ◌≤ℤ◌, leb_ℤ, int_laws, parts_of_eq, sum_of, Gives, gives,
  Gives-imp, bind-Gives, step-Gives, assert-Gives, arith, Bool-cases, inl, inr, ◌*ℤ◌, IsInt64,
  wrap_int64, wrap_int64_fits, *ℤ-pos,
}
use bmchain_core.Protocol.Fc.{Fc, safe_mul, safe_add-Gives, safe_sub-Gives}
use bmchain_core.Protocol.Config.{hundred_percent, content_reward_percent_new}
use bmchain_core.Protocol.Asset.{asset_add-Gives, asset_add}
use bmchain_core.Chain.Objects.{Account, RewardFund, Props, Db}
use bmchain_core.Chain.Accounts.Sums.{account_bmt, modify_account-Gives}
use bmchain_core.Chain.Supply.{total_supply, fund_bmt, props_bmt}
use bmchain_core.Chain.Transfers.Conservation.{Backed}
use bmchain_core.Chain.Emission.{
  bmt_of, quot, pay_funds, pay_reward_funds, reward_witness, is_exhausted, print,
  process_funds_bmchain, negsuc, get_witness,
}

module _ ⦃fc : Fc⦄ where
  pay_funds-Gives :
      (reward used : ℤ) (t : List RewardFund)
      → used ≤ℤ reward
      → Gives
          (λ r. (sum_of fund_bmt r.0 +ℤ used ≡ sum_of fund_bmt t +ℤ r.1) × (r.1 ≤ℤ reward))
          (pay_funds reward used t)
  unfolding pay_funds sum_of fund_bmt
  pay_funds-Gives reward used [] within = gives (refl, within)
  pay_funds-Gives reward used (f ∷ t) within =
      step-Gives (safe_mul reward (pos f.percent_content_rewards)) λ product _.
        let r = quot product hundred_percent in
        bind-Gives (asset_add-Gives f.reward_balance (bmt_of r)) λ b (sum, _, _).
          bind-Gives (safe_add-Gives used r) λ used' total.
            assert-Gives (leb_ℤ used' reward) λ still.
              bind-Gives (pay_funds-Gives reward used' t (ground arith))
                λ (rest, all) (kept, bound). gives (
                  rw sum (
                      omega (
                        int_laws,
                        parts_of_eq (sum_of fund_bmt rest +ℤ used') (sum_of fund_bmt t +ℤ all) kept,
                        parts_of_eq used' (used +ℤ r) total,
                      )),
                  bound,
                )

  -- Paying the reward funds, if it returns, adds to them what it reports, and that is no more than the
  -- reward, where the reward is not negative.
  pub pay_reward_funds-Gives :
      (reward : ℤ) (t : List RewardFund)
      → pos 0 ≤ℤ reward
      → Gives
          (λ r. (sum_of fund_bmt r.0 ≡ sum_of fund_bmt t +ℤ r.1) × (r.1 ≤ℤ reward))
          (pay_reward_funds reward t)
  unfolding pay_reward_funds
  pay_reward_funds-Gives reward t nonneg =
      Gives-imp (pay_funds-Gives reward (pos 0) t nonneg) λ r (kept, bound). (
        omega
            (int_laws, parts_of_eq (sum_of fund_bmt r.0 +ℤ pos 0) (sum_of fund_bmt t +ℤ r.1) kept),
        bound,
      )

  print-Gives :
      (printed : ℤ) (p : Props)
      → Gives
          (λ q.
            (q.current_supply.amount ≡ p.current_supply.amount +ℤ printed)
            × (props_bmt q ≡ props_bmt p))
          (print printed p)
  unfolding print props_bmt
  print-Gives printed p =
      bind-Gives (asset_add-Gives p.current_supply (bmt_of printed)) λ current (sum, _, _).
        step-Gives (asset_add p.virtual_supply (bmt_of printed))
          λ virtual _. step-Gives (asset_add _ (bmt_of printed)) λ daily _. gives (sum, refl)

  -- the content reward of an amount that is not negative
  content_share :
      (n : ℤ) → pos 0 ≤ℤ n → pos 0 ≤ℤ quot (n *ℤ pos content_reward_percent_new) hundred_percent
  content_share (pos n) h = rw (*ℤ-pos n content_reward_percent_new) (omega arith)
  content_share (negsuc n) h = absurd (omega (arith, h))

  reward_witness-Gives :
      (r : ℤ) (a : Account) → Gives (λ b. account_bmt b ≡ account_bmt a +ℤ r) (reward_witness r a)
  unfolding reward_witness account_bmt
  reward_witness-Gives r a =
      bind-Gives (asset_add-Gives a.balance (bmt_of r))
        λ b (sum, _, _). gives (rw sum (omega int_laws))

  -- Where the recorded supply is what the objects add up to, it still is after a call that prints new BMT
  -- for the reward funds and the witness and returns, for an amount that is not negative and whose product
  -- with the content reward's percent fits in an `int64_t`.
  pub process_funds_bmchain-Backed :
      (new_bmt : ℤ) (db : Db)
      → pos 0 ≤ℤ new_bmt
      → IsInt64 (new_bmt *ℤ pos content_reward_percent_new)
      → Backed db
      → Gives Backed (process_funds_bmchain new_bmt db)
  unfolding process_funds_bmchain total_supply
  process_funds_bmchain-Backed new_bmt db nonneg fits backed =
      elim (Bool-cases (is_exhausted db.props)) [
        | inl spent ↦ rw spent (gives backed)
        | inr more ↦ rw more (
            bind-Gives
              (pay_reward_funds-Gives
                (quot (wrap_int64 (new_bmt *ℤ pos content_reward_percent_new)) hundred_percent)
                db.reward_funds
                (rw (wrap_int64_fits (new_bmt *ℤ pos content_reward_percent_new) fits)
                  (content_share new_bmt nonneg)))
              λ (funds, content) (filled, _).
                bind-Gives (safe_sub-Gives new_bmt content) λ witness rest.
                  step-Gives (get_witness db.props.current_witness db) λ cwit _.
                    bind-Gives
                      (modify_account-Gives account_bmt cwit.owner (reward_witness witness) witness
                        db.accounts (reward_witness-Gives witness))
                      λ accounts paid. bind-Gives (safe_add-Gives content witness) λ printed total.
                        bind-Gives (print-Gives printed db.props) λ props (current, same). gives (
                          omega (
                            int_laws,
                            parts_of_eq (sum_of account_bmt accounts)
                                (sum_of account_bmt db.accounts +ℤ witness) paid,
                            parts_of_eq (sum_of fund_bmt funds)
                                (sum_of fund_bmt db.reward_funds +ℤ content) filled,
                            parts_of_eq props.current_supply.amount
                                (db.props.current_supply.amount +ℤ printed) current,
                            parts_of_eq (props_bmt props) (props_bmt db.props) same,
                            parts_of_eq printed (content +ℤ witness) total,
                            parts_of_eq db.props.current_supply.amount (total_supply db) backed,
                          )))
      ]
