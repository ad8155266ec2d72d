-- ===== src/Validation/Solvent/Escrows.antt =====
-- Escrows leave nothing below zero.
use bmchain_core.Validation.Solvent.{IsFunded, IsSolvent, covers}
use bmchain_core.Chain.Supply.{create}
use bmchain_core.Protocol.Config.{bmt_symbol}
use bmchain_core.Protocol.Asset.{Asset, assert_ge, asset_neg-Gives, assert_ge-le, asset_sub-Gives}
use bmchain_core.Chain.Accounts.Covered.{
  get_account-Gives, adjust_balance-IsCovered, credit-IsCovered,
}
use bmchain_core.Chain.Escrow.{
  EscrowRelease, EscrowTransfer, get_escrow, released, escrow_dispute, escrow_release,
  EscrowDispute, release_guards, has_key, dispute_guards, opened, fee_paid, vote_to, vote_agent,
  escrow_transfer, ratify, escrow_approve, EscrowApprove, bmt_spent, deadline_guards,
  approve_guards,
}
use bmchain_core.Protocol.Fc.{Fc}
use bmchain_core.Validation.{Asset}
use bmchain_core.Chain.Accounts.{get_account, Accounts, named}
use bmchain_core.Chain.Objects.{Escrow, Db, Account}
use bmchain_core.Prelude.{
  ℕ, pos, All, ◌≤ℤ◌, ◌≡◌, ok, List, arith, then-ok, Gives, step-Gives, not, bind-Gives, ◌==◌, ◌&&◌,
  gives, find_by, int_laws, some, throw-Gives, Bool-cases, eqb_ℤ, Error, inl, All-replace_by,
  All-find_by, All-remove_by, true, inr, Bool, assert-Gives, Option-cases, All-snoc, throws,
}

charged :
    (n : ℕ) (t : Accounts) (a read : Account) (spent : Asset)
    → find_by (named n) t ≡ some read
    → find_by (named n) t ≡ some a
    → assert_ge read.balance spent ≡ ok tt
    → spent.amount ≤ℤ a.balance.amount
charged n t a read spent found also enough =
    let (_, most) = assert_ge-le read.balance spent enough in ground (arith, found, also, most)

opened-IsFunded :
    (o : EscrowTransfer)
    → pos 0 ≤ℤ o.bmt_amount.amount
    → pos 0 ≤ℤ o.fee.amount
    → IsFunded (opened o)
unfolding opened
opened-IsFunded o amount fee = (amount, fee)

fee_paid-IsFunded : (e : Escrow) → IsFunded e → IsFunded (fee_paid e)
unfolding fee_paid
fee_paid-IsFunded e h = (h.0, omega arith)

vote_to-IsFunded : (o : EscrowApprove) (e : Escrow) → IsFunded e → Gives IsFunded (vote_to o e)
unfolding vote_to
vote_to-IsFunded o e h = elim (Bool-cases (o.who == o.to)) [
  | inl hit ↦
      rw hit
        (assert-Gives (not e.to_approved) λ _. gives (ground (arith, h.0), ground (arith, h.1)))
  | inr miss ↦ rw miss (gives h)
]

vote_agent-IsFunded :
    (o : EscrowApprove) (e : Escrow) → IsFunded e → Gives IsFunded (vote_agent o e)
unfolding vote_agent
vote_agent-IsFunded o e h = elim (Bool-cases (o.who == o.agent)) [
  | inl hit ↦
      rw hit
        (assert-Gives (not e.agent_approved) λ _. gives (ground (arith, h.0), ground (arith, h.1)))
  | inr miss ↦ rw miss (gives h)
]

create-All :
    {A : Type 0} (P : A → Type 0) (same : A → Bool) (a : A) (t : List A)
    → All P t
    → P a
    → Gives (All P) (create same a t)
unfolding create
create-All P same a t all p = elim (Option-cases (find_by same t)) [
  | inl new ↦ rw (create, new) (gives (All-snoc P t a all p))
  | inr (b, taken) ↦ rw (create, taken) throws
]

module _ (db : Db) (solvent : IsSolvent db) where
  get_escrow-IsFunded : (sender id : ℕ) → Gives IsFunded (get_escrow sender id db.escrows)
  unfolding get_escrow
  get_escrow-IsFunded sender id =
      throw-Gives (find_by (has_key sender id) db.escrows) Error.not_found
        λ e found. All-find_by IsFunded (has_key sender id) db.escrows e solvent.1 found

  released-IsFunded :
      (o : EscrowRelease) (e : Escrow) (rest : Asset)
      → pos 0 ≤ℤ rest.amount
      → IsFunded e
      → All IsFunded (released o e rest db.escrows)
  unfolding released
  released-IsFunded o e rest left funded = elim (Bool-cases (eqb_ℤ rest.amount (pos 0))) [
    | inl empty ↦
        rw empty (All-remove_by IsFunded (has_key o.sender o.escrow_id) db.escrows solvent.1)
    | inr more ↦ rw more (
        All-replace_by IsFunded (has_key o.sender o.escrow_id) (record e { bmt_balance = rest })
          db.escrows solvent.1 (left, funded.1))
  ]

module _ ⦃fc : Fc⦄ (db : Db) (solvent : IsSolvent db) where
  pub escrow_dispute-IsSolvent : (o : EscrowDispute) → Gives IsSolvent (escrow_dispute o db)
  unfolding escrow_dispute
  escrow_dispute-IsSolvent o = step-Gives (get_account o.sender db.accounts) λ _ _.
      bind-Gives (get_escrow-IsFunded db solvent o.sender o.escrow_id) λ e funded.
        step-Gives (dispute_guards db.props.time o e) λ _ _. gives (
          solvent.0,
          All-replace_by IsFunded (has_key o.sender o.escrow_id) (record e { disputed = true })
              db.escrows solvent.1 funded,
          solvent.2,
        )

  pub escrow_release-IsSolvent :
      (o : EscrowRelease) → pos 0 ≤ℤ o.bmt_amount.amount → Gives IsSolvent (escrow_release o db)
  unfolding escrow_release release_guards
  escrow_release-IsSolvent o credit = step-Gives (get_account o.sender db.accounts) λ _ _.
      step-Gives (get_account o.receiver db.accounts) λ _ _.
        bind-Gives (get_escrow-IsFunded db solvent o.sender o.escrow_id) λ e funded.
          step-Gives (release_guards db.props.time o e) λ _ guards.
            bind-Gives (credit-IsCovered o.receiver o.bmt_amount db.accounts solvent.0 credit)
              λ accounts all.
                bind-Gives (asset_sub-Gives e.bmt_balance o.bmt_amount) λ rest difference.
                  let (enough, _) = then-ok (assert_ge e.bmt_balance o.bmt_amount) guards in
                  let (_, most) = assert_ge-le e.bmt_balance o.bmt_amount enough in
                  let left : pos 0 ≤ℤ rest.amount = rw difference.0 (omega (int_laws, most)) in
                  gives (all, released-IsFunded db solvent o e rest left funded, solvent.2)

  pub escrow_transfer-IsSolvent :
      (o : EscrowTransfer)
      → (pos 0 ≤ℤ o.bmt_amount.amount) × (pos 0 ≤ℤ o.fee.amount) × (o.fee.symbol ≡ bmt_symbol)
      → Gives IsSolvent (escrow_transfer o db)
  unfolding escrow_transfer bmt_spent
  escrow_transfer-IsSolvent o (amount, fee, symbol) =
      bind-Gives (get_account-Gives o.sender db.accounts) λ from_account found.
        step-Gives (get_account o.to db.accounts) λ _ _.
          step-Gives (get_account o.agent db.accounts) λ _ _.
            step-Gives (deadline_guards db.props.time o) λ _ _. step-Gives (bmt_spent o) λ spent _.
              step-Gives (assert_ge from_account.balance spent) λ _ enough.
                bind-Gives (asset_neg-Gives spent) λ debit negated.
                  bind-Gives
                    (adjust_balance-IsCovered o.sender debit db.accounts solvent.0 λ a also.
                      covers a.balance.amount debit.amount spent.amount
                        (charged o.sender db.accounts a from_account spent found also enough)
                        negated.0)
                    λ accounts all.
                      bind-Gives
                        (create-All IsFunded (has_key o.sender o.escrow_id) (opened o) db.escrows
                          solvent.1 (opened-IsFunded o amount fee))
                        λ escrows funded. gives (all, funded, solvent.2)

  ratify-IsSolvent : (o : EscrowApprove) (e : Escrow) → IsFunded e → Gives IsSolvent (ratify o e db)
  unfolding ratify
  ratify-IsSolvent o e funded = elim (Bool-cases o.approve) [
    | inl kept ↦ elim (Bool-cases (e.to_approved && e.agent_approved)) [
      | inl both ↦
          rw (kept, both)
            (bind-Gives (credit-IsCovered o.agent e.pending_fee db.accounts solvent.0 funded.1)
              λ accounts all. gives (
                all,
                All-replace_by IsFunded (has_key o.sender o.escrow_id) (fee_paid e) db.escrows
                    solvent.1 (fee_paid-IsFunded e funded),
                solvent.2,
              ))
      | inr one ↦
          rw (kept, one)
            (gives (
              solvent.0,
              All-replace_by IsFunded (has_key o.sender o.escrow_id) e db.escrows solvent.1 funded,
              solvent.2,
            ))
    ]
    | inr refused ↦ rw refused (
        bind-Gives (credit-IsCovered o.sender e.bmt_balance db.accounts solvent.0 funded.0)
          λ refunded all.
            bind-Gives (credit-IsCovered o.sender e.pending_fee refunded all funded.1)
              λ accounts last. gives (
                last,
                All-remove_by IsFunded (has_key o.sender o.escrow_id) db.escrows solvent.1,
                solvent.2,
              ))
  ]

  pub escrow_approve-IsSolvent : (o : EscrowApprove) → Gives IsSolvent (escrow_approve o db)
  unfolding escrow_approve
  escrow_approve-IsSolvent o =
      bind-Gives (get_escrow-IsFunded db solvent o.sender o.escrow_id) λ e funded.
        step-Gives (approve_guards db.props.time o e) λ _ _.
          bind-Gives (vote_to-IsFunded o e funded) λ by_to held.
            bind-Gives (vote_agent-IsFunded o by_to held)
              λ by_both kept. ratify-IsSolvent o by_both kept
