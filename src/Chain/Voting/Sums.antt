-- ===== src/Chain/Voting/Sums.antt =====
-- A move of votes along the proxies changes no amounts: only the proxied votes and the witnesses.
use bmchain_core.Protocol.Config.{max_proxy_recursion_depth}
use bmchain_core.Chain.Accounts.Sums.{modify_account-Gives}
use bmchain_core.Chain.Accounts.{Accounts, modify_account, get_account}
use bmchain_core.Chain.Voting.{
  add_proxied, adjust_witness_vote, adjust_each, adjust_proxied_vote, Accounts,
  adjust_witness_votes, get_witness, reposition, add_votes_from, max_proxy_recursion_depth,
}
use bmchain_core.Protocol.Fc.{Fc}
use bmchain_core.Chain.Objects.{Account, Db, WitnessVote}
use bmchain_core.Prelude.{
  ℕ, zero, suc, [], ◌∷◌, ℤ, List, ◌∙◌, ◌≡◌, sum_of, Gives, ap, step-Gives, gives, Bool-cases,
  Gives-imp, returned-Gives, ◌==◌, Gives-ok, inl, pos, bind-Gives, inr, refl, sym, ◌-◌, +ℤ_zero,
}

-- a measure of accounts that does not read the proxied votes
abbrev pub IgnoresVotes : (Account → ℤ) → Type 0
IgnoresVotes m = (a : Account) (votes : List ℤ) → m (record a { proxied_vsf_votes = votes }) ≡ m a

-- the same database but for the witnesses, and for accounts of the same sums
abbrev pub OnlyVotes : Db → Db → Type 0
OnlyVotes db db' =
    ((m : Account → ℤ) → IgnoresVotes m → sum_of m db'.accounts ≡ sum_of m db.accounts)
    × (db' ≡ record db { accounts = db'.accounts; witnesses = db'.witnesses })

module _ ⦃fc : Fc⦄ where
  add_proxied-sum :
      (m : Account → ℤ) (n depth : ℕ) (delta : List ℤ) (t : Accounts)
      → IgnoresVotes m
      → Gives (λ t'. sum_of m t' ≡ sum_of m t) (modify_account n (add_proxied depth delta) t)
  unfolding add_proxied
  add_proxied-sum m n depth delta t ignores =
      Gives-imp
        (modify_account-Gives m n (add_proxied depth delta) (pos 0) t λ a.
          step-Gives (add_votes_from depth a.proxied_vsf_votes delta)
            λ votes _. gives (rw (ignores a votes) (sym (+ℤ_zero (m a)))))
        λ t' e. e ∙ +ℤ_zero (sum_of m t)

  -- ... for all measures at once
  add_proxied-sums :
      (n depth : ℕ) (delta : List ℤ) (t : Accounts)
      → Gives
          (λ t'. (m : Account → ℤ) → IgnoresVotes m → sum_of m t' ≡ sum_of m t)
          (modify_account n (add_proxied depth delta) t)
  add_proxied-sums n depth delta t =
      returned-Gives (modify_account n (add_proxied depth delta) t)
        λ t' done m ignores. Gives-ok (add_proxied-sum m n depth delta t ignores) done

  adjust_witness_vote-OnlyVotes :
      (n : ℕ) (delta : ℤ) (db : Db) → Gives (OnlyVotes db) (adjust_witness_vote n delta db)
  unfolding adjust_witness_vote
  adjust_witness_vote-OnlyVotes n delta db = step-Gives (get_witness n db) λ w _.
      step-Gives (reposition db.current_virtual_time db.props.total_vesting_shares delta w)
        λ moved _. gives (λ m _. refl, refl)

  OnlyVotes-then : (a b c : Db) → OnlyVotes a b → OnlyVotes b c → OnlyVotes a c
  OnlyVotes-then a b c (sums, same) (sums', same') =
      let voted : Db → Db = λ d. record d { accounts = c.accounts; witnesses = c.witnesses } in
      (λ m ignores. sums' m ignores ∙ sums m ignores, same' ∙ ap voted same)

  adjust_each-OnlyVotes :
      (n : ℕ) (delta : ℤ) (votes : List WitnessVote) (db : Db)
      → Gives (OnlyVotes db) (adjust_each n delta votes db)
  unfolding adjust_each
  adjust_each-OnlyVotes n delta [] db = gives (λ m _. refl, refl)
  adjust_each-OnlyVotes n delta (v ∷ rest) db = elim (Bool-cases (v.account == n)) [
    | inl own ↦ rw own (
        bind-Gives (adjust_witness_vote-OnlyVotes v.witness delta db) λ moved first.
          Gives-imp (adjust_each-OnlyVotes n delta rest moved)
            λ last second. OnlyVotes-then db moved last first second)
    | inr other ↦ rw other (adjust_each-OnlyVotes n delta rest db)
  ]

  pub adjust_proxied_vote-OnlyVotes :
      (left : ℕ) (a : Account) (delta : ℤ) (db : Db)
      → Gives (OnlyVotes db) (adjust_proxied_vote left a delta db)
  unfolding adjust_proxied_vote adjust_witness_votes
  adjust_proxied_vote-OnlyVotes zero a delta db = elim (Bool-cases (a.proxy == 0)) [
    | inl self ↦ rw self (adjust_each-OnlyVotes a.name delta db.witness_votes db)
    | inr proxied ↦ rw proxied (gives (λ m _. refl, refl))
  ]
  adjust_proxied_vote-OnlyVotes (suc left) a delta db = elim (Bool-cases (a.proxy == 0)) [
    | inl self ↦ rw self (adjust_each-OnlyVotes a.name delta db.witness_votes db)
    | inr proxied ↦ rw proxied (
        bind-Gives
          (add_proxied-sums a.proxy (max_proxy_recursion_depth - suc left) (delta ∷ []) db.accounts)
          λ accounts sums. step-Gives (get_account a.proxy accounts) λ proxy _.
            Gives-imp
              (adjust_proxied_vote-OnlyVotes left proxy delta (record db { accounts = accounts }))
              λ last second.
                OnlyVotes-then db (record db { accounts = accounts }) last (sums, refl) second)
  ]
