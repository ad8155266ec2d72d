-- ===== src/Chain/Delegations/Balance.antt =====
-- What is delegated is what is lent or about to be returned, and what is received is what is lent.
use bmchain_core.Prelude.{
  ℕ, ◌≡◌, refl, if◌then◌else◌, ℤ, pos, ◌+ℤ◌, ◌-ℤ◌, ◌≤ℤ◌, ltb_ℤ, int_laws, find_by, replace_by,
  remove_by, sum_of, sum_of-snoc, sum_of-replace_by_sub, sum_of-remove_by_sub, some, ok, Result,
  Gives, gives, Gives-ok, err, throws, bind-Gives, step-Gives, arith, Bool-cases, Option-cases, inl,
  inr,
}
use bmchain_core.Protocol.Fc.{Fc}
use bmchain_core.Protocol.Asset.{Asset, asset_add-Gives, asset_sub-Gives, asset_ge, assert_ge}
use bmchain_core.Chain.Objects.{Account, Delegation, DelegationExpiration, Db}
use bmchain_core.Chain.Accounts.{Accounts, get_account, modify_account}
use bmchain_core.Chain.Accounts.Sums.{modify_account-Gives}
use bmchain_core.Chain.Delegations.{
  Delegate, is_delegation, available_shares, min_delegation, min_update, add_delegated,
  add_received, sub_received, create_delegation, increase_delegation, decrease_guards,
  decrease_delegation, change_delegation, delegate_vesting_shares, returned_at,
}

abbrev pub delegated_by : Account → ℤ
delegated_by a = a.delegated_vesting_shares.amount

abbrev pub received_by : Account → ℤ
received_by a = a.received_vesting_shares.amount

abbrev pub lent : Delegation → ℤ
lent d = d.vesting_shares.amount

abbrev pub returning : DelegationExpiration → ℤ
returning e = e.vesting_shares.amount

-- The shares that accounts have delegated are those lent and those about to be returned; the shares
-- that accounts have received are those lent.
abbrev pub AreBalanced : Db → Type 0
AreBalanced db =
    (sum_of delegated_by db.accounts
      ≡ sum_of lent db.delegations +ℤ sum_of returning db.delegation_expirations)
    × (sum_of received_by db.accounts ≡ sum_of lent db.delegations)

-- the two sums over the accounts after a change
abbrev pub Shifted : ℤ → ℤ → Accounts → Accounts → Type 0
Shifted d r t t' =
    (sum_of delegated_by t' ≡ sum_of delegated_by t +ℤ d)
    × (sum_of received_by t' ≡ sum_of received_by t +ℤ r)

pub both :
    (n : ℕ) (f : Account → Result Account) (d r : ℤ) (t : Accounts)
    → ((a : Account) → Gives (λ b. delegated_by b ≡ delegated_by a +ℤ d) (f a))
    → ((a : Account) → Gives (λ b. received_by b ≡ received_by a +ℤ r) (f a))
    → Gives (Shifted d r t) (modify_account n f t)
both n f d r t h k =
    and_too (modify_account n f t) (modify_account-Gives delegated_by n f d t h)
      (modify_account-Gives received_by n f r t k)
  where
    and_too :
        {P Q : Accounts → Type 0} (m : Result Accounts)
        → Gives P m
        → Gives Q m
        → Gives (λ t'. P t' × Q t') m
    and_too (ok t') p q = gives (Gives-ok p refl, Gives-ok q refl)
    and_too (err e) p q = throws

module _ ⦃fc : Fc⦄ where
  add_delegated-Shifted :
      (n : ℕ) (delta : Asset) (t : Accounts)
      → Gives (Shifted delta.amount (pos 0) t) (modify_account n (add_delegated delta) t)
  unfolding add_delegated
  add_delegated-Shifted n delta t =
      both n (add_delegated delta) delta.amount (pos 0) t
        (λ a. bind-Gives (asset_add-Gives a.delegated_vesting_shares delta) λ b h. gives h.0)
        (λ a.
          bind-Gives (asset_add-Gives a.delegated_vesting_shares delta)
            λ b h. gives (omega int_laws))

  add_received-Shifted :
      (n : ℕ) (delta : Asset) (t : Accounts)
      → Gives (Shifted (pos 0) delta.amount t) (modify_account n (add_received delta) t)
  unfolding add_received
  add_received-Shifted n delta t =
      both n (add_received delta) (pos 0) delta.amount t
        (λ a.
          bind-Gives (asset_add-Gives a.received_vesting_shares delta)
            λ b h. gives (omega int_laws))
        (λ a. bind-Gives (asset_add-Gives a.received_vesting_shares delta) λ b h. gives h.0)

  sub_received-Shifted :
      (n : ℕ) (delta : Asset) (t : Accounts)
      → Gives (Shifted (pos 0) (pos 0 -ℤ delta.amount) t) (modify_account n (sub_received delta) t)
  unfolding sub_received
  sub_received-Shifted n delta t =
      both n (sub_received delta) (pos 0) (pos 0 -ℤ delta.amount) t
        (λ a.
          bind-Gives (asset_sub-Gives a.received_vesting_shares delta)
            λ b h. gives (omega int_laws))
        (λ a.
          bind-Gives (asset_sub-Gives a.received_vesting_shares delta)
            λ b h. gives (rw h.0 (omega int_laws)))

  module _ (op : Delegate) (db : Db) (balanced : AreBalanced db) where
    create_delegation-AreBalanced :
        (available least : Asset) → Gives AreBalanced (create_delegation op available least db)
    unfolding create_delegation
    create_delegation-AreBalanced available least =
        step-Gives (assert_ge available op.vesting_shares) λ _ _.
          step-Gives (assert_ge op.vesting_shares least) λ _ _.
            bind-Gives (add_delegated-Shifted op.delegator op.vesting_shares db.accounts)
              λ t (d, r).
                bind-Gives (add_received-Shifted op.delegatee op.vesting_shares t)
                  λ accounts (d', r'). gives (
                    rw
                        (
                          d',
                          d,
                          balanced.0,
                          sum_of-snoc lent
                              (record {
                                delegator = op.delegator;
                                delegatee = op.delegatee;
                                vesting_shares = op.vesting_shares;
                                min_delegation_time = db.props.time;
                              })
                              db.delegations,
                        )
                        (omega int_laws),
                    rw
                        (
                          r',
                          r,
                          balanced.1,
                          sum_of-snoc lent
                              (record {
                                delegator = op.delegator;
                                delegatee = op.delegatee;
                                vesting_shares = op.vesting_shares;
                                min_delegation_time = db.props.time;
                              })
                              db.delegations,
                        )
                        (omega int_laws),
                  )

    module _ (d : Delegation) (found : find_by (is_delegation op) db.delegations ≡ some d) where
      increase_delegation-AreBalanced :
          (available update : Asset)
          → Gives AreBalanced (increase_delegation op available update d db)
      unfolding increase_delegation
      increase_delegation-AreBalanced available update =
          bind-Gives (asset_sub-Gives op.vesting_shares d.vesting_shares)
            λ delta (difference, _, _). step-Gives (assert_ge delta update) λ _ _.
              step-Gives (assert_ge available delta) λ _ _.
                bind-Gives (add_delegated-Shifted op.delegator delta db.accounts) λ t (dd, dr).
                  bind-Gives (add_received-Shifted op.delegatee delta t) λ accounts (rd, rr).
                    gives (
                      rw
                          (
                            rd,
                            dd,
                            balanced.0,
                            difference,
                            sum_of-replace_by_sub lent (is_delegation op) d
                                (record d { vesting_shares = op.vesting_shares }) db.delegations
                                found,
                          )
                          (omega int_laws),
                      rw
                          (
                            rr,
                            dr,
                            balanced.1,
                            difference,
                            sum_of-replace_by_sub lent (is_delegation op) d
                                (record d { vesting_shares = op.vesting_shares }) db.delegations
                                found,
                          )
                          (omega int_laws),
                    )

      -- what the delegations add up to after a decrease
      decreased :
          pos 0 ≤ℤ op.vesting_shares.amount
          → sum_of lent (
              if ltb_ℤ (pos 0) op.vesting_shares.amount
              then replace_by
                  (is_delegation op)
                  (record d { vesting_shares = op.vesting_shares })
                  db.delegations
              else remove_by (is_delegation op) db.delegations)
            ≡ sum_of lent db.delegations -ℤ lent d +ℤ op.vesting_shares.amount
      decreased nonneg = elim (Bool-cases (ltb_ℤ (pos 0) op.vesting_shares.amount)) [
        | inl some_left ↦ rw some_left (
            sum_of-replace_by_sub lent (is_delegation op) d
              (record d { vesting_shares = op.vesting_shares }) db.delegations found)
        | inr none_left ↦
            let zero_left : op.vesting_shares.amount ≡ pos 0 = ground arith in
            rw
              (
                none_left,
                sum_of-remove_by_sub lent (is_delegation op) d db.delegations found,
                zero_left,
              )
              (omega int_laws)
      ]

      decrease_delegation-AreBalanced :
          (least update : Asset)
          → pos 0 ≤ℤ op.vesting_shares.amount
          → Gives AreBalanced (decrease_delegation op least update d db)
      unfolding decrease_delegation
      decrease_delegation-AreBalanced least update nonneg =
          bind-Gives (asset_sub-Gives d.vesting_shares op.vesting_shares)
            λ delta (difference, _, _). step-Gives (decrease_guards op delta least update d) λ _ _.
              bind-Gives (sub_received-Shifted op.delegatee delta db.accounts) λ accounts (sd, sr).
                gives (
                  rw
                      (
                        sd,
                        balanced.0,
                        decreased nonneg,
                        sum_of-snoc returning
                            (record {
                              delegator = op.delegator;
                              vesting_shares = delta;
                              expiration = returned_at db.props.time d;
                            })
                            db.delegation_expirations,
                        difference,
                      )
                      (omega int_laws),
                  rw (sr, balanced.1, decreased nonneg, difference) (omega int_laws),
                )

  -- Where delegations are balanced, a delegation of an amount that is not negative leaves them
  -- balanced if it returns, whether it creates, raises, lowers or ends one: the shares that accounts
  -- have delegated are those lent and those about to be returned, and the shares received are those lent.
  pub delegate_vesting_shares-AreBalanced :
      (op : Delegate) (db : Db)
      → AreBalanced db
      → pos 0 ≤ℤ op.vesting_shares.amount
      → Gives AreBalanced (delegate_vesting_shares op db)
  unfolding delegate_vesting_shares change_delegation
  delegate_vesting_shares-AreBalanced op db balanced nonneg =
      step-Gives (get_account op.delegator db.accounts) λ delegator _.
        step-Gives (get_account op.delegatee db.accounts) λ _ _.
          step-Gives (available_shares delegator) λ available _.
            step-Gives (min_delegation db) λ least _. step-Gives (min_update db) λ update _.
              elim (Option-cases (find_by (is_delegation op) db.delegations)) [
                | inl fresh ↦
                    rw fresh (create_delegation-AreBalanced op db balanced available least)
                | inr (d, found) ↦ rw found (
                    step-Gives (asset_ge op.vesting_shares d.vesting_shares) λ more _.
                      elim (Bool-cases more) [
                        | inl raise ↦ rw raise (
                            increase_delegation-AreBalanced op db balanced d found available update)
                        | inr lower ↦ rw lower (
                            decrease_delegation-AreBalanced op db balanced d found least update
                              nonneg)
                      ])
              ]
