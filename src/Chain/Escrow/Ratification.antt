-- ===== src/Chain/Escrow/Ratification.antt =====
-- Escrows that the parties did not ratify in time: `expire_escrow_ratification`
-- (libraries/chain/database.cpp). Its loop ends, refunds what it removes, and leaves none overdue.
use bmchain_core.Protocol.Asset.{asset_add, Asset}
use bmchain_core.Prelude.{
  List, Result, ℕ, sum_of, Ends, Option, err, suc, All, length, ◌>>=◌, ◌≡◌, none, Error, false,
  ◌+ℤ◌, some, ◌<◌, arith, ◌∷◌, ok, IsThrown, bind-Ends, Option-cases, if◌then◌else◌, inl,
  returned-Ends, ◌||◌, leb, inr, Bool-cases, Gives-imp, ends, ltb, int_laws, zero, [], ap, refl,
  Ends-imp, ◌∙◌,
}
use mathlib.Core.Path.{subst}
use bmchain_core.Protocol.Fc.{Fc, safe_add}
use bmchain_core.Chain.Objects.{Escrow, Db, is_approved}
use bmchain_core.Chain.Accounts.{Accounts, adjust_balance, modify_account, get_account, add_balance}
use bmchain_core.Chain.Accounts.Sums.{adjust_balance-Gives, account_bmt}
use bmchain_core.Chain.Supply.{total_supply, escrow_bmt}
use bmchain_core.Chain.Escrow.Conservation.{IsSettled, AllSettled, Keeps}

-- The index `by_ratification_deadline`, from the escrows that are not approved on: the one with the
-- first deadline, the older one of two, and the others.
unfoldable pub take_pending : List Escrow → Option (Escrow × List Escrow)
take_pending [] = none
take_pending (x ∷ t) = elim (take_pending t) [
  | none ↦ if is_approved x then none else some (x, t)
  | some (e, rest) ↦
      if is_approved x || ltb e.ratification_deadline x.ratification_deadline
      then some (e, x ∷ rest)
      else some (x, t)
]

module _ ⦃fc : Fc⦄ where
  unfoldable pub refund_escrow : Escrow → Accounts → Result Accounts
  refund_escrow e t = do
    refunded ← adjust_balance e.sender e.bmt_balance t
    adjust_balance e.sender e.pending_fee refunded

  -- the loop of `expire_escrow_ratification`; each round removes an escrow
  unfoldable pub expire_escrows : ℕ → Db → Result Db
  unfolding refund_escrow
  expire_escrows zero db = err Error.out_of_fuel
  expire_escrows (suc fuel) db = elim (take_pending db.escrows) [
    | none ↦ ok db
    | some (e, rest) ↦
        if leb e.ratification_deadline db.props.time
        then (do
          accounts ← refund_escrow e db.accounts
          expire_escrows fuel (record db { accounts = accounts; escrows = rest }))
        else ok db
  ]

  -- `database::expire_escrow_ratification`
  unfoldable pub expire_escrow_ratification : Db → Result Db
  expire_escrow_ratification db = expire_escrows (suc (length db.escrows)) db

-- Every escrow is approved, or its deadline lies ahead.
abbrev pub NoneOverdue : ℕ → List Escrow → Type 0
NoneOverdue now t = All (λ e. is_approved e ≡ false → now < e.ratification_deadline) t

take_pending-none : (now : ℕ) (t : List Escrow) → take_pending t ≡ none → NoneOverdue now t
unfolding take_pending
take_pending-none now [] h = tt
take_pending-none now (x ∷ t) h = elim (Option-cases (take_pending t)) [
  | inl last ↦ ((λ fresh. ground arith), take_pending-none now t last)
  | inr (p, first) ↦ ground arith
]

-- What is taken is one fewer escrow, its funds, and no one overdue once its deadline lies ahead.
Taken : List Escrow → Escrow × List Escrow → Type 0
Taken t (e, rest) =
    (length t ≡ suc (length rest))
    × (sum_of escrow_bmt t ≡ escrow_bmt e +ℤ sum_of escrow_bmt rest)
    × (All IsSettled t → All IsSettled rest)
    × ((now : ℕ) → now < e.ratification_deadline → NoneOverdue now t)

Taken-parts :
    (t : List Escrow) (e : Escrow) (rest : List Escrow)
    → Taken t (e, rest)
    → (length t ≡ suc (length rest))
      × (sum_of escrow_bmt t ≡ escrow_bmt e +ℤ sum_of escrow_bmt rest)
      × (All IsSettled t → All IsSettled rest)
      × ((now : ℕ) → now < e.ratification_deadline → NoneOverdue now t)
unfolding Taken
Taken-parts t e rest h = h

take_pending-Taken :
    (t : List Escrow) (p : Escrow × List Escrow) → take_pending t ≡ some p → Taken t p
unfolding take_pending Taken sum_of
take_pending-Taken [] p h = cc
take_pending-Taken (x ∷ t) p h = elim (Option-cases (take_pending t)) [
  | inl last ↦ elim (Bool-cases (is_approved x)) [
    | inl approved ↦ let nothing : take_pending (x ∷ t) ≡ none = rw (last, approved) refl in cc
    | inr fresh ↦
        let taken : take_pending (x ∷ t) ≡ some (x, t) = rw (last, fresh) refl in
        let same : (x, t) ≡ p = cc in
        subst (Taken (x ∷ t)) same
          (refl, refl, λ s. s.1, λ now late. ((λ _. late), take_pending-none now t last))
  ]
  | inr ((q, others), first) ↦
      let (size, sum, settled, none_before) = take_pending-Taken t (q, others) first in
      elim (Bool-cases (is_approved x || ltb q.ratification_deadline x.ratification_deadline)) [
        | inl sooner ↦
            let taken : take_pending (x ∷ t) ≡ some (q, x ∷ others) = rw (first, sooner) refl in
            let same : (q, x ∷ others) ≡ p = cc in
            subst (Taken (x ∷ t)) same (
              ap suc size,
              rw sum (omega int_laws),
              λ s. (s.0, settled s.1),
              λ now late. ((λ fresh. ground (arith, late)), none_before now late),
            )
        | inr later ↦
            let taken : take_pending (x ∷ t) ≡ some (x, t) = rw (first, later) refl in
            let same : (x, t) ≡ p = cc in
            subst (Taken (x ∷ t)) same (
              refl,
              refl,
              λ s. s.1,
              λ now late. ((λ _. late), none_before now (ground (arith, late))),
            )
      ]
]

module _ ⦃fc : Fc⦄ where
  adjust_balance-IsThrown :
      (n : ℕ) (delta : Asset) (t : Accounts) (e : Error)
      → adjust_balance n delta t ≡ err e
      → IsThrown e
  unfolding adjust_balance modify_account get_account add_balance asset_add safe_add
  adjust_balance-IsThrown n delta t e h = ground arith

  refund_escrow-Ends :
      (e : Escrow) (t : Accounts)
      → Ends
          (λ t'. sum_of account_bmt t' ≡ sum_of account_bmt t +ℤ escrow_bmt e)
          (refund_escrow e t)
  unfolding refund_escrow escrow_bmt
  refund_escrow-Ends e t =
      bind-Ends
        (returned-Ends (adjust_balance e.sender e.bmt_balance t)
          (adjust_balance-Gives e.sender e.bmt_balance t)
          (adjust_balance-IsThrown e.sender e.bmt_balance t))
        λ refunded first.
          returned-Ends (adjust_balance e.sender e.pending_fee refunded)
            (Gives-imp (adjust_balance-Gives e.sender e.pending_fee refunded)
              λ t' second. rw (second, first) (omega int_laws))
            (adjust_balance-IsThrown e.sender e.pending_fee refunded)

  expire_escrows-Ends :
      (fuel : ℕ) (db : Db)
      → length db.escrows < fuel
      → AllSettled db
      → Ends (λ db'. Keeps db db' × NoneOverdue db'.props.time db'.escrows) (expire_escrows fuel db)
  unfolding expire_escrows total_supply
  expire_escrows-Ends zero db enough settled = absurd (omega (arith, enough))
  expire_escrows-Ends (suc fuel) db enough settled = elim (Option-cases (take_pending db.escrows)) [
    | inl empty ↦
        rw (expire_escrows, empty)
          (ends ((refl, settled), take_pending-none db.props.time db.escrows empty))
    | inr ((e, rest), first) ↦
        let (size, sum, kept, none_before) =
          Taken-parts db.escrows e rest (take_pending-Taken db.escrows (e, rest) first) in
        elim (Bool-cases (leb e.ratification_deadline db.props.time)) [
          | inl overdue ↦
              rw (expire_escrows, first, overdue)
                (bind-Ends (refund_escrow-Ends e db.accounts) λ accounts paid.
                  Ends-imp
                    (expire_escrows-Ends fuel (record db { accounts = accounts; escrows = rest })
                      (omega (arith, enough, size)) (kept settled))
                    λ db' ((same, settled'), none_left).
                      ((same ∙ rw (paid, sum) (omega int_laws), settled'), none_left))
          | inr pending ↦
              rw (expire_escrows, first, pending)
                (ends ((refl, settled), none_before db.props.time (ground arith)))
        ]
  ]

  -- Where every escrow is settled, the removal of the escrows that were not ratified in time ends,
  -- with an exception of the program or with a database of the same supply in which every escrow is
  -- settled, and is approved or has its deadline ahead.
  pub expire_escrow_ratification-Ends :
      (db : Db)
      → AllSettled db
      → Ends
          (λ db'. Keeps db db' × NoneOverdue db'.props.time db'.escrows)
          (expire_escrow_ratification db)
  unfolding expire_escrow_ratification
  expire_escrow_ratification-Ends db settled =
      expire_escrows-Ends (suc (length db.escrows)) db (omega arith) settled
