-- ===== src/Validation/Solvent/Transfers.antt =====
-- Transfers and savings leave nothing below zero.
use bmchain_core.Validation.Solvent.{IsPending, IsSolvent, guarded, covers}
use bmchain_core.Protocol.Asset.{assert_ge, asset_neg-Gives}
use bmchain_core.Chain.Accounts.Covered.{
  IsCovered, modify_account-All, get_account-Gives, adjust_balance-IsCovered, credit-IsCovered,
  adjust_savings_balance-IsCovered,
}
use bmchain_core.Chain.Transfers.{
  transfer, Transfer, prove_active, drop_request, transfer_to_savings, cancel_transfer_from_savings,
  has_request,
}
use bmchain_core.Protocol.Fc.{Fc}
use bmchain_core.Chain.Accounts.{get_balance, get_account}
use bmchain_core.Chain.Objects.{Db, Account}
use bmchain_core.Prelude.{
  ℕ, pos, ◌<ℤ◌, arith, Gives, step-Gives, bind-Gives, gives, find_by, int_laws, throw-Gives, Error,
  All-find_by, All-remove_by,
}

prove_active-IsCovered :
    (now : ℕ) (a : Account) → IsCovered a → Gives IsCovered (prove_active now a)
unfolding prove_active
prove_active-IsCovered now a h = gives (ground (arith, h.0), ground (arith, h.1))

drop_request-IsCovered : (a : Account) → IsCovered a → Gives IsCovered (drop_request a)
unfolding drop_request
drop_request-IsCovered a h = gives h

module _ ⦃fc : Fc⦄ (db : Db) (solvent : IsSolvent db) where
  pub transfer-IsSolvent :
      (o : Transfer) → pos 0 <ℤ o.amount.amount → Gives IsSolvent (transfer o db)
  unfolding transfer
  transfer-IsSolvent o credit = step-Gives (get_account o.sender db.accounts) λ _ _.
      step-Gives (get_account o.to db.accounts) λ _ _.
        bind-Gives
          (modify_account-All IsCovered o.sender (prove_active db.props.time) db.accounts solvent.0
            (λ a found covered. prove_active-IsCovered db.props.time a covered))
          λ proved all. bind-Gives (get_account-Gives o.sender proved) λ from_account found.
            step-Gives (get_balance from_account o.amount.symbol) λ funds held.
              step-Gives (assert_ge funds o.amount) λ _ enough.
                bind-Gives (asset_neg-Gives o.amount) λ debit negated.
                  bind-Gives
                    (adjust_balance-IsCovered o.sender debit proved all λ a also.
                      covers a.balance.amount debit.amount o.amount.amount
                        (guarded o.sender o.amount proved from_account a funds found also held
                          enough)
                        negated.0)
                    λ debited rest.
                      bind-Gives
                        (credit-IsCovered o.to o.amount debited rest (omega (int_laws, credit)))
                        λ accounts last. gives (last, solvent.1, solvent.2)

  pub transfer_to_savings-IsSolvent :
      (o : Transfer) → pos 0 <ℤ o.amount.amount → Gives IsSolvent (transfer_to_savings o db)
  unfolding transfer_to_savings
  transfer_to_savings-IsSolvent o credit =
      bind-Gives (get_account-Gives o.sender db.accounts) λ from_account found.
        step-Gives (get_account o.to db.accounts) λ _ _.
          step-Gives (get_balance from_account o.amount.symbol) λ funds held.
            step-Gives (assert_ge funds o.amount) λ _ enough.
              bind-Gives (asset_neg-Gives o.amount) λ debit negated.
                bind-Gives
                  (adjust_balance-IsCovered o.sender debit db.accounts solvent.0 λ a also.
                    covers a.balance.amount debit.amount o.amount.amount
                      (guarded o.sender o.amount db.accounts from_account a funds found also held
                        enough)
                      negated.0)
                  λ debited rest.
                    bind-Gives
                      (adjust_savings_balance-IsCovered o.to o.amount debited rest
                        (omega (int_laws, credit)))
                      λ accounts last. gives (last, solvent.1, solvent.2)

  pub cancel_transfer_from_savings-IsSolvent :
      (sender id : ℕ) → Gives IsSolvent (cancel_transfer_from_savings sender id db)
  unfolding cancel_transfer_from_savings
  cancel_transfer_from_savings-IsSolvent sender id =
      bind-Gives
        (throw-Gives (find_by (has_request sender id) db.savings_withdraws) Error.not_found
          λ swo found.
            All-find_by IsPending (has_request sender id) db.savings_withdraws swo solvent.2 found)
        λ swo pending.
          bind-Gives
            (adjust_savings_balance-IsCovered swo.sender swo.amount db.accounts solvent.0 pending)
            λ refunded all.
              bind-Gives
                (modify_account-All IsCovered sender drop_request refunded all
                  λ a found covered. drop_request-IsCovered a covered)
                λ accounts last. gives (
                  last,
                  solvent.1,
                  All-remove_by IsPending (has_request sender id) db.savings_withdraws solvent.2,
                )
