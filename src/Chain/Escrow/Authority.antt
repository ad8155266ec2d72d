-- ===== src/Chain/Escrow/Authority.antt =====
-- Who may move the money of an escrow, and to whom.
use bmchain_core.Prelude.{
  ℕ, ◌≡◌, ◌<◌, true, false, ◌⊎◌, ◌≤ℤ◌, ok, Error, find_by, some, Gives, gives, bind-Gives,
  step-Gives, throw-Gives, arith,
}
use bmchain_core.Protocol.Fc.{Fc}
use bmchain_core.Protocol.Asset.{assert_ge, asset_sub}
use bmchain_core.Chain.Objects.{Escrow, Db, is_approved}
use bmchain_core.Chain.Accounts.{get_account, adjust_balance}
use bmchain_core.Chain.Escrow.{
  EscrowRelease, has_key, get_escrow, may_release, release_guards, escrow_release,
}

-- The rules of a release at a time: both parties have approved, the amount is there, and it goes to
-- one of the parties; only the agent releases in a dispute; without one only the parties do, and
-- before the expiration each only to the other.
abbrev pub IsAllowed : ℕ → EscrowRelease → Escrow → Type 0
IsAllowed now o e =
    (is_approved e ≡ true)
    × (o.bmt_amount.amount ≤ℤ e.bmt_balance.amount)
    × ((o.receiver ≡ e.sender) ⊎ (o.receiver ≡ e.to))
    × (e.disputed ≡ true → o.who ≡ e.agent)
    × (e.disputed ≡ false → (o.who ≡ e.sender) ⊎ (o.who ≡ e.to))
    × (e.disputed ≡ false → now < e.escrow_expiration → o.who ≡ e.sender → o.receiver ≡ e.to)
    × (e.disputed ≡ false
        → now < e.escrow_expiration
        → o.who ≡ e.to
        → (o.receiver ≡ e.sender) ⊎ (e.sender ≡ e.to))

guards-IsAllowed :
    (now : ℕ) (o : EscrowRelease) (e : Escrow) → release_guards now o e ≡ ok tt → IsAllowed now o e
unfolding release_guards may_release assert_ge
guards-IsAllowed now o e h = (
  ground arith,
  ground arith,
  ground arith,
  λ d. ground arith,
  λ d. ground arith,
  λ d l w. ground arith,
  λ d l w. ground arith,
)

module _ ⦃fc : Fc⦄ where
  -- A release that returns was of an escrow of the sender and followed the rules: both parties had
  -- approved, the amount was there and went to a party; in a dispute the agent released; without one a
  -- party did, and before the expiration only to the other party.
  pub escrow_release-IsAllowed :
      (o : EscrowRelease) (db : Db)
      → Gives
          (λ _.
            (e : Escrow) × (find_by (has_key o.sender o.escrow_id) db.escrows ≡ some e)
            × IsAllowed db.props.time o e)
          (escrow_release o db)
  unfolding escrow_release get_escrow
  escrow_release-IsAllowed o db = step-Gives (get_account o.sender db.accounts) λ _ _.
      step-Gives (get_account o.receiver db.accounts) λ _ _.
        bind-Gives
          (throw-Gives (find_by (has_key o.sender o.escrow_id) db.escrows) Error.not_found
            λ e found. found)
          λ e found. step-Gives (release_guards db.props.time o e) λ _ passed.
            step-Gives (adjust_balance o.receiver o.bmt_amount db.accounts) λ accounts _.
              step-Gives (asset_sub e.bmt_balance o.bmt_amount)
                λ rest _. gives (e, found, guards-IsAllowed db.props.time o e passed)
