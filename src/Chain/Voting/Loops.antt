-- ===== src/Chain/Voting/Loops.antt =====
-- No proxy loops: from every account, the proxies end at an account that votes for itself.
use bmchain_core.Chain.Voting.Chains.{
  ProxyChain, own_votes, by_proxy, Any, AllEnd, kept-ProxyChain, rerouted-ProxyChain,
  walk_proxies-ProxyChain,
}
use bmchain_core.Protocol.Fc.{Fc}
use bmchain_core.Chain.Accounts.Covered.{get_account-Gives}
use bmchain_core.Protocol.Config.{max_proxy_recursion_depth}
use bmchain_core.Chain.Objects.{Db}
use bmchain_core.Chain.Voting.{
  walk_proxies, max_proxy_recursion_depth, set_proxy, clear_witness_votes, Fc, change_proxy,
  WitnessProxy, negate_all, account_witness_proxy,
}
use bmchain_core.Chain.Voting.Standing.{
  proxy_of, field-found, on_field, modify_account-field, modify_account-same,
  adjust_proxied_votes-SameStanding,
}
use bmchain_core.Chain.Accounts.{Accounts, get_account, named, modify_account}
use bmchain_core.Prelude.{
  ℕ, suc, some, [], if◌then◌else◌, ◌≢◌, ◌≡◌, Bool-cases, ◌∙◌, List, ◌==◌, inl, arith, inr, has_name,
  true, length, ◌≤◌, find_by-selected, not, insert_name, sym, Gives, bind-Gives, gives, refl, ℤ,
  step-Gives, Gives-imp, assert-Gives,
}
use mathlib.Core.Path.{subst}

-- What the evaluator does to the proxies: one account's is replaced.
abbrev pub Redirected : ℕ → ℕ → Accounts → Accounts → Type 0
Redirected x p t t' =
    (k : ℕ) → proxy_of k t' ≡ (if k == x then on_field (λ _. p) (proxy_of x t) else proxy_of k t)

set_proxy-Redirected :
    (x p : ℕ) (t : Accounts) → Gives (Redirected x p t) (modify_account x (set_proxy p) t)
unfolding set_proxy
set_proxy-Redirected x p t =
    modify_account-field (λ a. a.proxy) (λ _. p) x (set_proxy p) t λ a. gives (refl, refl)

clear_witness_votes-proxies :
    (n : ℕ) (db : Db)
    → Gives
        (λ db'. (k : ℕ) → proxy_of k db'.accounts ≡ proxy_of k db.accounts)
        (clear_witness_votes n db)
unfolding clear_witness_votes
clear_witness_votes-proxies n db =
    bind-Gives (modify_account-same (λ a. a.proxy) n _ db.accounts λ a. gives (refl, refl))
      λ accounts same. gives same

-- Where the proxy of `x` becomes `p`, and a chain that avoids `x` starts at `p`, all chains end.
Redirected-AllEnd :
    (x p old : ℕ) (t t' : Accounts) {last : ℕ}
    → Redirected x p t t'
    → proxy_of x t ≡ some old
    → ProxyChain (λ k. proxy_of k t') Any x last
    → AllEnd t
    → AllEnd t'
Redirected-AllEnd x p old t t' {last = last} moved there new end n q h =
    elim (Bool-cases (n == x)) [
      | inl hit ↦
          let e : x ≡ n = ground arith in
          (last, subst (λ k. ProxyChain (λ j. proxy_of j t') Any k last) e new)
      | inr miss ↦
          let (steps, chain) = end n q (ground (arith, moved n, h)) in
          rerouted-ProxyChain (λ k. proxy_of k t) (λ k. proxy_of k t') x
            (λ k apart. ground (arith, moved k, apart)) new chain
    ]

module _ (t t' : Accounts) (same : (k : ℕ) → proxy_of k t' ≡ proxy_of k t) where
  same-ProxyChain :
      {P : ℕ → Type 0} {n steps : ℕ}
      → ProxyChain (λ k. proxy_of k t) P n steps
      → ProxyChain (λ k. proxy_of k t') P n steps
  same-ProxyChain (own_votes h p) = own_votes (same _ ∙ h) p
  same-ProxyChain (by_proxy h proxied p rest) =
      by_proxy (same _ ∙ h) proxied p (same-ProxyChain rest)

  same-AllEnd : AllEnd t → AllEnd t'
  same-AllEnd end n p h =
      let (steps, chain) = end n p (sym (same n) ∙ h) in (steps, same-ProxyChain chain)

-- the chains after a change of the proxy of `x` to `p`
abbrev pub IsLoopFree : ℕ → ℕ → Accounts → Type 0
IsLoopFree x p t =
    AllEnd t
    × ((steps : ℕ) × ProxyChain (λ k. proxy_of k t) Any x steps
        × (steps ≤ max_proxy_recursion_depth))

same-IsLoopFree :
    (x p : ℕ) (t t' : Accounts)
    → ((k : ℕ) → proxy_of k t' ≡ proxy_of k t)
    → IsLoopFree x p t
    → IsLoopFree x p t'
same-IsLoopFree x p t t' same (end, (steps, chain, few)) =
    (same-AllEnd t t' same end, (steps, same-ProxyChain t t' same chain, few))

Redirected-IsLoopFree :
    (x p old : ℕ) (t t' : Accounts) {steps : ℕ}
    → p ≢ 0
    → Redirected x p t t'
    → proxy_of x t ≡ some old
    → ProxyChain (λ k. proxy_of k t) (λ k. k ≢ x) p steps
    → suc steps ≤ max_proxy_recursion_depth
    → AllEnd t
    → IsLoopFree x p t'
Redirected-IsLoopFree x p old t t' {steps = steps} proxied moved there avoiding few end =
    let others : (k : ℕ) → k ≢ x → proxy_of k t' ≡ proxy_of k t =
      λ k apart. ground (arith, moved k, apart) in
    let own : proxy_of x t' ≡ some p = ground (arith, moved x, there) in
    let chain : ProxyChain (λ k. proxy_of k t') Any x (suc steps) =
      by_proxy own proxied tt
        (kept-ProxyChain (λ k. proxy_of k t) (λ k. proxy_of k t') x others avoiding) in
    (Redirected-AllEnd x p old t t' moved there chain end, (suc steps, chain, few))

-- the set at the start of the walk
first_chain :
    (x n : ℕ)
    → n ≢ x
    → (has_name x (insert_name x (insert_name n [])) ≡ true)
      × (length (insert_name x (insert_name n [])) ≡ 2)
unfolding insert_name
first_chain x n apart = (ground (arith, apart), ground (arith, apart))

module _ ⦃fc : Fc⦄ where
  change_proxy-IsLoopFree :
      (o : WitnessProxy) (delta : List ℤ) (db : Db) (old : ℕ)
      → o.proxy ≢ 0
      → o.proxy ≢ o.account
      → proxy_of o.account db.accounts ≡ some old
      → AllEnd db.accounts
      → Gives (λ db'. IsLoopFree o.account o.proxy db'.accounts) (change_proxy o delta db)
  unfolding change_proxy
  change_proxy-IsLoopFree o delta db old proxied apart there end =
      bind-Gives (get_account-Gives o.proxy db.accounts) λ new_proxy found.
        step-Gives (walk_proxies _ _ new_proxy db.accounts) λ _ walked.
          bind-Gives (clear_witness_votes-proxies o.account db) λ cleared first.
            bind-Gives (set_proxy-Redirected o.account o.proxy cleared.accounts) λ accounts moved.
              step-Gives (get_account o.account accounts) λ account _.
                step-Gives (negate_all delta) λ plus _.
                  Gives-imp
                    (adjust_proxied_votes-SameStanding max_proxy_recursion_depth account plus
                      (record cleared { accounts = accounts }))
                    λ last (same, _, _).
                      let name : new_proxy.name ≢ o.account = ground (
                        arith,
                        find_by-selected (named o.proxy) db.accounts new_proxy found,
                        apart,
                      ) in
                      let (held, two) = first_chain o.account new_proxy.name name in
                      let (steps, avoiding, few) =
                        walk_proxies-ProxyChain db.accounts o.account _ _ o.proxy new_proxy found
                          apart held (omega (arith, two)) walked in
                      let moved' : Redirected o.account o.proxy db.accounts accounts =
                        λ k. ground (arith, moved k, first k, first o.account) in
                      same-IsLoopFree o.account o.proxy accounts last.accounts same (
                        Redirected-IsLoopFree o.account o.proxy old db.accounts accounts proxied
                          moved' there avoiding (omega (arith, few, two)) end)

  -- From accounts whose proxies all end, a change of a proxy that returns, to another account or to
  -- none, leaves accounts whose proxies all end; a new proxy is at most four steps from its end.
  pub account_witness_proxy-IsLoopFree :
      (o : WitnessProxy) (db : Db)
      → o.proxy ≢ o.account
      → AllEnd db.accounts
      → Gives
          (λ db'.
            AllEnd db'.accounts
            × (o.proxy ≢ 0
                → (steps : ℕ) × ProxyChain (λ k. proxy_of k db'.accounts) Any o.account steps
                  × (steps ≤ max_proxy_recursion_depth)))
          (account_witness_proxy o db)
  unfolding account_witness_proxy
  account_witness_proxy-IsLoopFree o db apart end =
      bind-Gives (get_account-Gives o.account db.accounts) λ account found.
        assert-Gives (not (account.proxy == o.proxy)) λ _. assert-Gives account.can_vote λ _.
          step-Gives (negate_all _) λ delta _.
            bind-Gives
              (adjust_proxied_votes-SameStanding max_proxy_recursion_depth account delta db)
              λ without (same, _, _).
                let old : proxy_of o.account without.accounts ≡ some account.proxy =
                  same o.account ∙ field-found (λ a. a.proxy) o.account db.accounts found in
                let end' = same-AllEnd db.accounts without.accounts same end in
                elim (Bool-cases (o.proxy == 0)) [
                  | inl cleared ↦ rw cleared (
                      bind-Gives (set_proxy-Redirected o.account o.proxy without.accounts)
                        λ accounts moved.
                          let own : proxy_of o.account accounts ≡ some 0 =
                            ground (arith, moved o.account, old) in
                          gives (
                            Redirected-AllEnd o.account o.proxy account.proxy without.accounts
                                accounts moved old (own_votes own tt) end',
                            λ proxied. absurd (ground (arith, proxied)),
                          ))
                  | inr proxied ↦ rw proxied (
                      Gives-imp
                        (change_proxy-IsLoopFree o delta without account.proxy
                          (ground (arith, proxied)) apart old end')
                        λ last (ended, chain). (ended, λ _. chain))
                ]
