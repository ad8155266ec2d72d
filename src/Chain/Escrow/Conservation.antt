-- ===== src/Chain/Escrow/Conservation.antt =====
-- The escrow evaluators move BMT between balances and escrows, and make or destroy none.
use bmchain_core.Prelude.{
  ℕ, ◌≡◌, refl, Bool, true, not, List, ◌==◌, eqb_ℤ, pos, ◌+ℤ◌, ◌-ℤ◌, int_laws, find_by, sum_of,
  sum_of-replace_by_sub, sum_of-remove_by_sub, All, All-find_by, All-replace_by, All-remove_by,
  All-snoc, ok, Error, Gives, gives, bind-Gives, throw-Gives, arith, Bool-cases, inl, inr, some,
  Gives-imp, step-Gives, ◌∙◌, parts_of_eq,
}
use bmchain_core.Protocol.Fc.{Fc}
use bmchain_core.Protocol.Config.{bmt_symbol}
use bmchain_core.Protocol.Asset.{Asset, asset_add-Gives, asset_sub-Gives, asset_neg-Gives}
use bmchain_core.Chain.Objects.{Escrow, Db, is_approved}
use bmchain_core.Chain.Accounts.{get_account}
use bmchain_core.Chain.Accounts.Sums.{adjust_balance-Gives}
use bmchain_core.Chain.Supply.{create-Gives, total_supply, escrow_bmt}
use bmchain_core.Chain.Escrow.{
  EscrowDispute, escrow_dispute, dispute_guards, EscrowTransfer, EscrowApprove, EscrowRelease,
  has_key, get_escrow, vote_to, vote_agent, escrow_transfer, escrow_approve, escrow_release,
  bmt_spent, ratify, released, opened, fee_paid, approve_guards, release_guards, deadline_guards,
  release_guards, deadline_guards, approve_guards, assert_ge, opened,
}

-- An escrow that both parties approved has paid its fee.
abbrev pub IsSettled : Escrow → Type 0
IsSettled e = is_approved e ≡ true → e.pending_fee.amount ≡ pos 0

abbrev pub AllSettled : Db → Type 0
AllSettled db = All IsSettled db.escrows

-- What an operation leaves: the same supply, and escrows that are settled.
abbrev pub Keeps : Db → Db → Type 0
Keeps db db' = (total_supply db' ≡ total_supply db) × AllSettled db'

get_escrow-Gives :
    (sender id : ℕ) (t : List Escrow)
    → Gives (λ e. find_by (has_key sender id) t ≡ some e) (get_escrow sender id t)
unfolding get_escrow
get_escrow-Gives sender id t = throw-Gives _ Error.not_found λ e found. found

-- The votes change neither the amounts nor the parties.
abbrev SameFunds : Escrow → Escrow → Type 0
SameFunds e e' = (e'.bmt_balance ≡ e.bmt_balance) × (e'.pending_fee ≡ e.pending_fee)

vote_to-SameFunds : (o : EscrowApprove) (e e' : Escrow) → vote_to o e ≡ ok e' → SameFunds e e'
unfolding vote_to
vote_to-SameFunds o e e' h = ground arith

vote_agent-SameFunds : (o : EscrowApprove) (e e' : Escrow) → vote_agent o e ≡ ok e' → SameFunds e e'
unfolding vote_agent
vote_agent-SameFunds o e e' h = ground arith

guards-approved :
    (now : ℕ) (o : EscrowRelease) (e : Escrow) {u : Unit {0}}
    → release_guards now o e ≡ ok u
    → is_approved e ≡ true
unfolding release_guards
guards-approved now o e h = ground arith

-- The escrows after a release: `left` is what the escrow keeps.
module _ (o : EscrowRelease) (e : Escrow) (left : Asset) (t : List Escrow)
    (found : find_by (has_key o.sender o.escrow_id) t ≡ some e) where
  release_escrows-sum :
      e.pending_fee.amount ≡ pos 0
      → left.amount ≡ e.bmt_balance.amount -ℤ o.bmt_amount.amount
      → sum_of escrow_bmt (released o e left t) ≡ sum_of escrow_bmt t -ℤ o.bmt_amount.amount
  unfolding escrow_bmt released
  release_escrows-sum fee h = elim (Bool-cases (eqb_ℤ left.amount (pos 0))) [
    | inl empty ↦
        rw (empty, sum_of-remove_by_sub escrow_bmt (has_key o.sender o.escrow_id) e t found, fee)
          (let zero_left : left.amount ≡ pos 0 = ground arith in
            omega (
              int_laws,
              parts_of_eq left.amount (pos 0) zero_left,
              parts_of_eq left.amount (e.bmt_balance.amount -ℤ o.bmt_amount.amount) h,
            ))
    | inr more ↦
        rw
          (
            more,
            sum_of-replace_by_sub escrow_bmt (has_key o.sender o.escrow_id) e
                (record e { bmt_balance = left }) t found,
            fee,
            h,
          )
          (omega int_laws)
  ]

  release_escrows-IsSettled : All IsSettled t → All IsSettled (released o e left t)
  unfolding released
  release_escrows-IsSettled settled = elim (Bool-cases (eqb_ℤ left.amount (pos 0))) [
    | inl empty ↦ rw empty (All-remove_by IsSettled (has_key o.sender o.escrow_id) t settled)
    | inr more ↦ rw more (
        All-replace_by IsSettled (has_key o.sender o.escrow_id) (record e { bmt_balance = left }) t
          settled (All-find_by IsSettled (has_key o.sender o.escrow_id) t e settled found))
  ]

module _ ⦃fc : Fc⦄ where
  spent-Gives :
      (o : EscrowTransfer)
      → o.fee.symbol ≡ bmt_symbol
      → Gives (λ a. a.amount ≡ o.bmt_amount.amount +ℤ o.fee.amount) (bmt_spent o)
  unfolding bmt_spent
  spent-Gives o h =
      let test : (o.fee.symbol == bmt_symbol) ≡ true = ground arith in
      rw test (Gives-imp (asset_add-Gives o.bmt_amount o.fee) λ a sums. sums.0)

  -- Where every escrow is settled, opening one with a fee in BMT keeps the supply if it returns, and keeps every escrow
  -- settled: one that both parties approved has no pending fee.
  pub escrow_transfer-Gives :
      (o : EscrowTransfer) (db : Db)
      → o.fee.symbol ≡ bmt_symbol
      → AllSettled db
      → Gives (Keeps db) (escrow_transfer o db)
  unfolding escrow_transfer total_supply escrow_bmt
  escrow_transfer-Gives o db h settled =
      step-Gives (get_account o.sender db.accounts) λ from_account _.
        step-Gives (get_account o.to db.accounts) λ _ _.
          step-Gives (get_account o.agent db.accounts) λ _ _.
            step-Gives (deadline_guards db.props.time o) λ _ _.
              bind-Gives (spent-Gives o h) λ spent total.
                step-Gives (assert_ge from_account.balance spent) λ _ _.
                  bind-Gives (asset_neg-Gives spent) λ debit negated.
                    bind-Gives (adjust_balance-Gives o.sender debit db.accounts) λ accounts paid.
                      bind-Gives
                        (create-Gives escrow_bmt (has_key o.sender o.escrow_id) (opened o)
                          db.escrows)
                        λ escrows (grown, held). gives (
                          rw (paid, held, negated.0, total) (omega int_laws),
                          rw grown (All-snoc IsSettled db.escrows (opened o) settled (λ e. cc)),
                        )

  ratify-Gives :
      (o : EscrowApprove) (e old : Escrow) (db : Db)
      → find_by (has_key o.sender o.escrow_id) db.escrows ≡ some old
      → SameFunds old e
      → AllSettled db
      → Gives (Keeps db) (ratify o e db)
  unfolding ratify fee_paid total_supply escrow_bmt
  ratify-Gives o e old db found (balance, fee) settled = elim (Bool-cases (not o.approve)) [
    | inl reject ↦ rw reject (
        bind-Gives (adjust_balance-Gives o.sender e.bmt_balance db.accounts) λ refunded first.
          bind-Gives (adjust_balance-Gives o.sender e.pending_fee refunded) λ accounts second.
            gives (
              rw
                  (
                    second,
                    first,
                    sum_of-remove_by_sub escrow_bmt key old db.escrows found,
                    balance,
                    fee,
                  )
                  (omega int_laws),
              All-remove_by IsSettled key db.escrows settled,
            ))
    | inr accept ↦ rw accept (elim (Bool-cases (is_approved e)) [
      | inl both ↦ rw both (
          bind-Gives (adjust_balance-Gives o.agent e.pending_fee db.accounts) λ accounts paid.
            gives (
              rw
                  (
                    paid,
                    sum_of-replace_by_sub escrow_bmt key old (fee_paid e) db.escrows found,
                    balance,
                    fee,
                  )
                  (omega int_laws),
              All-replace_by IsSettled key (fee_paid e) db.escrows settled (λ _. refl),
            ))
      | inr waiting ↦ rw waiting (
          gives (
            rw (sum_of-replace_by_sub escrow_bmt key old e db.escrows found, balance, fee)
                (omega int_laws),
            All-replace_by IsSettled key e db.escrows settled (λ approved. cc),
          ))
    ])
  ]
    where
      key : Escrow → Bool
      key = has_key o.sender o.escrow_id

  -- Where every escrow is settled, approving or rejecting one keeps the supply if it returns, and
  -- keeps every escrow settled.
  pub escrow_approve-Gives :
      (o : EscrowApprove) (db : Db) → AllSettled db → Gives (Keeps db) (escrow_approve o db)
  unfolding escrow_approve
  escrow_approve-Gives o db settled =
      bind-Gives (get_escrow-Gives o.sender o.escrow_id db.escrows) λ e found.
        step-Gives (approve_guards db.props.time o e) λ _ _. step-Gives (vote_to o e) λ by_to first.
          step-Gives (vote_agent o by_to) λ by_both second.
            ratify-Gives o by_both e db found
              (let (b, f) = vote_to-SameFunds o e by_to first in
                let (b', f') = vote_agent-SameFunds o by_to by_both second in (b' ∙ b, f' ∙ f))
              settled

  -- Where every escrow is settled, a release that returns keeps the supply, and keeps every escrow
  -- settled.
  pub escrow_release-Gives :
      (o : EscrowRelease) (db : Db) → AllSettled db → Gives (Keeps db) (escrow_release o db)
  unfolding escrow_release total_supply escrow_bmt
  escrow_release-Gives o db settled = step-Gives (get_account o.sender db.accounts) λ _ _.
      step-Gives (get_account o.receiver db.accounts) λ _ _.
        bind-Gives (get_escrow-Gives o.sender o.escrow_id db.escrows) λ e found.
          step-Gives (release_guards db.props.time o e) λ _ passed.
            let fee =
              All-find_by IsSettled (has_key o.sender o.escrow_id) db.escrows e settled found
                (guards-approved db.props.time o e passed) in
            bind-Gives (adjust_balance-Gives o.receiver o.bmt_amount db.accounts) λ accounts paid.
              bind-Gives (asset_sub-Gives e.bmt_balance o.bmt_amount) λ rest left. gives (
                rw (paid, release_escrows-sum o e rest db.escrows found fee left.0)
                    (omega int_laws),
                release_escrows-IsSettled o e rest db.escrows found settled,
              )

-- Disputing moves nothing.
pub escrow_dispute-Gives :
    (o : EscrowDispute) (db : Db) → AllSettled db → Gives (Keeps db) (escrow_dispute o db)
unfolding escrow_dispute total_supply escrow_bmt
escrow_dispute-Gives o db settled = step-Gives (get_account o.sender db.accounts) λ _ _.
    bind-Gives (get_escrow-Gives o.sender o.escrow_id db.escrows) λ e found.
      step-Gives (dispute_guards db.props.time o e) λ _ _.
        let key = has_key o.sender o.escrow_id in
        gives (
          rw
              (sum_of-replace_by_sub escrow_bmt key e (record e { disputed = true }) db.escrows
                found)
              (omega int_laws),
          All-replace_by IsSettled key (record e { disputed = true }) db.escrows settled
              (All-find_by IsSettled key db.escrows e settled found),
        )
