-- ===== src/Chain/Voting/Chains.antt =====
-- Chains of proxies, and what the walk along them has seen when it returns.

use bmchain_core.Chain.Accounts.Covered.{get_account-Gives}
use bmchain_core.Protocol.Config.{max_proxy_recursion_depth}
use bmchain_core.Chain.Objects.{Account}
use bmchain_core.Chain.Voting.{walk_proxies, Account, max_proxy_recursion_depth}
use bmchain_core.Chain.Voting.Standing.{proxy_of, field-found}
use bmchain_core.Chain.Accounts.{Accounts, get_account, named}
use bmchain_core.Prelude.{
  ℕ, zero, suc, some, Option, ◌≢◌, ◌≡◌, Bool-cases, ◌∙◌, List, ◌==◌, inl, arith, find_by, inr,
  has_name, true, length, ◌≤◌, ok, ◌+◌, ap, find_by-selected, bind-ok, if-false, then-ok, fc_assert,
  not, leb, insert_name, Gives-ok, false, fc_assert-ok, length-insert_name, has_name-insert_name,
  sym, ◌<◌, Ends, ends, bind-Ends, throw-Ends, Error, assert-Ends,
}
use mathlib.Core.Path.{subst}

-- The accounts from one on along their proxies, all of which satisfy `P`, and how many steps it is.
pub data ProxyChain (f : ℕ → Option ℕ) (P : ℕ → Type 0) : ℕ → ℕ → Type 0 where
  own_votes : {n : ℕ} → f n ≡ some 0 → P n → ProxyChain f P n 0
  by_proxy :
      {n p steps : ℕ}
      → f n ≡ some p
      → p ≢ 0
      → P n
      → ProxyChain f P p steps
      → ProxyChain f P n (suc steps)

abbrev pub Any : ℕ → Type 0
Any n = Unit {0}

-- every account's proxies end
abbrev pub AllEnd : Accounts → Type 0
AllEnd t =
    (n p : ℕ) → proxy_of n t ≡ some p → (steps : ℕ) × ProxyChain (λ k. proxy_of k t) Any n steps

module _ (f g : ℕ → Option ℕ) (x : ℕ) where
  -- a chain that avoids the account whose proxy changed
  pub kept-ProxyChain :
      {n steps : ℕ}
      → ((k : ℕ) → k ≢ x → g k ≡ f k)
      → ProxyChain f (λ k. k ≢ x) n steps
      → ProxyChain g Any n steps
  kept-ProxyChain same (own_votes h apart) = own_votes (same _ apart ∙ h) tt
  kept-ProxyChain same (by_proxy h proxied apart rest) =
      by_proxy (same _ apart ∙ h) proxied tt (kept-ProxyChain same rest)

  -- any other chain goes on from there
  pub rerouted-ProxyChain :
      {n steps last : ℕ}
      → ((k : ℕ) → k ≢ x → g k ≡ f k)
      → ProxyChain g Any x last
      → ProxyChain f Any n steps
      → (steps' : ℕ) × ProxyChain g Any n steps'
  rerouted-ProxyChain {n = n} {last = last} same new (own_votes h _) = elim (Bool-cases (n == x)) [
    | inl hit ↦ let e : x ≡ n = ground arith in (last, subst (λ k. ProxyChain g Any k last) e new)
    | inr miss ↦ (0, own_votes (same n (ground arith) ∙ h) tt)
  ]
  rerouted-ProxyChain {n = n} {last = last} same new (by_proxy h proxied _ rest) =
      elim (Bool-cases (n == x)) [
        | inl hit ↦
            let e : x ≡ n = ground arith in (last, subst (λ k. ProxyChain g Any k last) e new)
        | inr miss ↦
            let (steps, others) = rerouted-ProxyChain same new rest in
            (suc steps, by_proxy (same n (ground arith) ∙ h) proxied tt others)
      ]

module _ (t : Accounts) (x : ℕ) where
  -- What the walk has seen when it returns.
  pub walk_proxies-ProxyChain :
      (fuel : ℕ) (chain : List ℕ) (c : ℕ) (cprox : Account)
      → find_by (named c) t ≡ some cprox
      → c ≢ x
      → has_name x chain ≡ true
      → length chain ≤ max_proxy_recursion_depth
      → walk_proxies fuel chain cprox t ≡ ok tt
      → (steps : ℕ) × ProxyChain (λ k. proxy_of k t) (λ k. k ≢ x) c steps
        × (steps + length chain ≤ max_proxy_recursion_depth)
  unfolding walk_proxies get_account
  walk_proxies-ProxyChain zero chain c cprox found apart held few h = cc
  walk_proxies-ProxyChain (suc fuel) chain c cprox found apart held few h =
      elim (Bool-cases (cprox.proxy == 0)) [
        | inl self ↦
            let e : cprox.proxy ≡ 0 = ground arith in
            (
              0,
              own_votes (field-found (λ a. a.proxy) c t found ∙ ap some e) apart,
              omega (arith, few),
            )
        | inr proxied ↦
            let (next, got, h1) =
              bind-ok (get_account cprox.proxy t) (if-false (ok tt) (cprox.proxy == 0) proxied h) in
            let (new, h2) = then-ok (fc_assert (not (has_name next.name chain))) h1 in
            let (few', h3) =
              then-ok
                (fc_assert (leb (length (insert_name next.name chain)) max_proxy_recursion_depth))
                h2 in
            let there : find_by (named cprox.proxy) t ≡ some next =
              Gives-ok (get_account-Gives cprox.proxy t) got in
            let name : next.name ≡ cprox.proxy =
              ground (arith, find_by-selected (named cprox.proxy) t next there) in
            let fresh : has_name next.name chain ≡ false = ground (arith, fc_assert-ok _ new) in
            let most : length (insert_name next.name chain) ≤ max_proxy_recursion_depth =
              ground (arith, fc_assert-ok _ few') in
            let longer = length-insert_name next.name chain fresh in
            let (steps, rest, bound) =
              walk_proxies-ProxyChain fuel (insert_name next.name chain) cprox.proxy next there
                (λ e.
                  let held' : has_name next.name chain ≡ true =
                    subst (λ k. has_name k chain ≡ true) (sym (name ∙ e)) held in
                  cc)
                (ground (arith, has_name-insert_name x next.name chain, held)) most h3 in
            (
              suc steps,
              by_proxy (field-found (λ a. a.proxy) c t found) (ground (arith, proxied)) apart rest,
              omega (arith, bound, longer),
            )
      ]

module _ (t : Accounts) where
  -- With fuel for every account that the set still takes, the walk ends.
  pub walk_proxies-Ends :
      (fuel : ℕ) (chain : List ℕ) (cprox : Account)
      → length chain ≤ max_proxy_recursion_depth
      → max_proxy_recursion_depth < fuel + length chain
      → Ends (λ _. Unit {0}) (walk_proxies fuel chain cprox t)
  unfolding walk_proxies get_account
  walk_proxies-Ends zero chain cprox few enough = absurd (omega (arith, few, enough))
  walk_proxies-Ends (suc fuel) chain cprox few enough = elim (Bool-cases (cprox.proxy == 0)) [
    | inl self ↦ rw self (ends tt)
    | inr proxied ↦ rw proxied (
        bind-Ends
          (throw-Ends (find_by (named cprox.proxy) t) Error.not_found (λ e. cc) λ next found. found)
          λ next found. assert-Ends (not (has_name next.name chain)) λ new.
            assert-Ends (leb (length (insert_name next.name chain)) max_proxy_recursion_depth)
              λ few'.
                let longer = length-insert_name next.name chain (ground (arith, new)) in
                walk_proxies-Ends fuel (insert_name next.name chain) next (ground (arith, few'))
                  (omega (arith, longer, enough)))
  ]
