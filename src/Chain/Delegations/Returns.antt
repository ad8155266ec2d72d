-- ===== src/Chain/Delegations/Returns.antt =====
-- Expired delegations are returned: the loop ends, it leaves none, and what is delegated stays what is
-- lent or about to be returned.
use mathlib.Core.Path.{subst}
use bmchain_core.Chain.Accounts.{modify_account, Accounts, get_account}
use bmchain_core.Protocol.Asset.{Asset, asset_sub, asset_sub-Gives}
use bmchain_core.Protocol.Fc.{Fc, safe_sub}
use bmchain_core.Chain.Delegations.Balance.{returning, AreBalanced, Shifted, both}
use bmchain_core.Chain.Delegations.{
  take_earliest, sub_delegated, return_expired, clear_expired_delegations,
}
use bmchain_core.Prelude.{
  ℕ, zero, suc, [], ◌∷◌, none, some, List, All, ◌≡◌, length, sum_of, ◌≤◌, Option-cases, inl, ◌+ℤ◌,
  arith, inr, refl, Gives, ◌<◌, Ends, ap, neg_ℤ, Error, ends, Bool-cases, pos, err, ltb, IsThrown,
  int_laws, bind-Gives, bind-Ends, returned-Ends, gives, +ℤ_zero, ◌∙◌,
}
use bmchain_core.Chain.Objects.{DelegationExpiration, Db}

-- nothing in the index has expired
abbrev pub NoneReturnable : ℕ → List DelegationExpiration → Type 0
NoneReturnable now t = All (λ e. now ≤ e.expiration) t

take_earliest-none : (t : List DelegationExpiration) → take_earliest t ≡ none → t ≡ []
unfolding take_earliest
take_earliest-none [] h = refl
take_earliest-none (x ∷ t) h = elim (Option-cases (take_earliest t)) [
  | inl last ↦ ground arith
  | inr (p, first) ↦ ground arith
]

-- What is taken is one fewer entry, its shares, and nothing that expires later.
Taken : List DelegationExpiration → DelegationExpiration × List DelegationExpiration → Type 0
Taken t (e, rest) =
    (length t ≡ suc (length rest))
    × (sum_of returning t ≡ e.vesting_shares.amount +ℤ sum_of returning rest)
    × ((now : ℕ) → now ≤ e.expiration → NoneReturnable now t)

Taken-parts :
    (t : List DelegationExpiration) (e : DelegationExpiration) (rest : List DelegationExpiration)
    → Taken t (e, rest)
    → (length t ≡ suc (length rest))
      × (sum_of returning t ≡ e.vesting_shares.amount +ℤ sum_of returning rest)
      × ((now : ℕ) → now ≤ e.expiration → NoneReturnable now t)
unfolding Taken
Taken-parts t e rest h = h

take_earliest-Taken :
    (t : List DelegationExpiration) (p : DelegationExpiration × List DelegationExpiration)
    → take_earliest t ≡ some p
    → Taken t p
unfolding take_earliest Taken sum_of
take_earliest-Taken [] p h = cc
take_earliest-Taken (x ∷ t) p h = elim (Option-cases (take_earliest t)) [
  | inl last ↦
      let empty = take_earliest-none t last in
      let taken : take_earliest (x ∷ t) ≡ some (x, []) = rw last refl in
      let same : (x, []) ≡ p = cc in
      subst (Taken (x ∷ t)) same (
        ap (λ l. suc (length l)) empty,
        ap (λ l. x.vesting_shares.amount +ℤ sum_of returning l) empty,
        λ now late. (late, rw empty tt),
      )
  | inr ((q, others), first) ↦
      let (size, sum, none_before) = take_earliest-Taken t (q, others) first in
      elim (Bool-cases (ltb q.expiration x.expiration)) [
        | inl sooner ↦
            let taken : take_earliest (x ∷ t) ≡ some (q, x ∷ others) = rw (first, sooner) refl in
            let same : (q, x ∷ others) ≡ p = cc in
            subst (Taken (x ∷ t)) same (
              ap suc size,
              rw sum (omega int_laws),
              λ now late. (ground (arith, late), none_before now late),
            )
        | inr later ↦
            let taken : take_earliest (x ∷ t) ≡ some (x, t) = rw (first, later) refl in
            let same : (x, t) ≡ p = cc in
            subst (Taken (x ∷ t)) same
              (refl, refl, λ now late. (late, none_before now (ground (arith, late))))
      ]
]

-- A call that keeps a property, and that fails by an exception of the program only.
sub_delegated-Shifted :
    ⦃fc : Fc⦄
    → (n : ℕ) (delta : Asset) (t : Accounts)
    → Gives (Shifted (neg_ℤ delta.amount) (pos 0) t) (modify_account n (sub_delegated delta) t)
unfolding sub_delegated
sub_delegated-Shifted n delta t =
    both n (sub_delegated delta) (neg_ℤ delta.amount) (pos 0) t
      (λ a.
        bind-Gives (asset_sub-Gives a.delegated_vesting_shares delta)
          λ b h. gives (rw h.0 (omega int_laws)))
      (λ a.
        bind-Gives (asset_sub-Gives a.delegated_vesting_shares delta) λ b h. gives (omega int_laws))

sub_delegated-IsThrown :
    ⦃fc : Fc⦄
    → (n : ℕ) (delta : Asset) (t : Accounts) (e : Error)
    → modify_account n (sub_delegated delta) t ≡ err e
    → IsThrown e
unfolding sub_delegated modify_account get_account asset_sub safe_sub
sub_delegated-IsThrown n delta t e h = ground arith

module _ ⦃fc : Fc⦄ where
  return_expired-Ends :
      (fuel : ℕ) (db : Db)
      → length db.delegation_expirations < fuel
      → AreBalanced db
      → Ends
          (λ db'. AreBalanced db' × NoneReturnable db'.props.time db'.delegation_expirations)
          (return_expired fuel db)
  unfolding return_expired
  return_expired-Ends zero db enough balanced = absurd (omega (arith, enough))
  return_expired-Ends (suc fuel) db enough (given, received) =
      elim (Option-cases (take_earliest db.delegation_expirations)) [
        | inl empty ↦
            let nothing = take_earliest-none db.delegation_expirations empty in
            rw (return_expired, empty) (ends ((given, received), rw nothing tt))
        | inr ((e, rest), first) ↦
            let (size, sum, none_before) =
              Taken-parts db.delegation_expirations e rest
                (take_earliest-Taken db.delegation_expirations (e, rest) first) in
            elim (Bool-cases (ltb e.expiration db.props.time)) [
              | inl expired ↦
                  rw (return_expired, first, expired)
                    (bind-Ends
                      (returned-Ends
                        (modify_account e.delegator (sub_delegated e.vesting_shares) db.accounts)
                        (sub_delegated-Shifted e.delegator e.vesting_shares db.accounts)
                        (sub_delegated-IsThrown e.delegator e.vesting_shares db.accounts))
                      λ accounts (less, same).
                        return_expired-Ends fuel
                          (record db { accounts = accounts; delegation_expirations = rest })
                          (omega (arith, enough, size))
                          (rw (less, given, sum) (omega int_laws), rw same (+ℤ_zero _ ∙ received)))
              | inr pending ↦
                  rw (return_expired, first, pending)
                    (ends ((given, received), none_before db.props.time (ground arith)))
            ]
      ]

  -- Where what is delegated is what is lent or about to be returned, the return of expired delegations
  -- ends, with an exception of the program or with a database in which this still holds and nothing in
  -- the index has expired.
  pub clear_expired_delegations-Ends :
      (db : Db)
      → AreBalanced db
      → Ends
          (λ db'. AreBalanced db' × NoneReturnable db'.props.time db'.delegation_expirations)
          (clear_expired_delegations db)
  unfolding clear_expired_delegations
  clear_expired_delegations-Ends db balanced =
      return_expired-Ends (suc (length db.delegation_expirations)) db (omega arith) balanced
