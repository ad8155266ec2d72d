-- ===== src/Chain/Voting/Standing.antt =====
-- What a move of votes along the proxies leaves as it is: the proxies of the accounts, how many
-- witnesses each voted for, and the votes in the index.
use bmchain_core.Protocol.Config.{max_proxy_recursion_depth}
use bmchain_core.Chain.Accounts.Lookup.{find_by-replace_by-named}
use bmchain_core.Chain.Accounts.Covered.{get_account-Gives}
use bmchain_core.Chain.Voting.{
  adjust_witness_vote, adjust_each, adjust_witness_votes, add_proxied, adjust_proxied_votes,
  get_witness, add_votes_from, reposition, sum_first, max_proxy_recursion_depth,
}
use bmchain_core.Protocol.Fc.{Fc}
use bmchain_core.Chain.Accounts.{Accounts, modify_account, named, get_account}
use bmchain_core.Chain.Objects.{Account, Db, WitnessVote}
use bmchain_core.Prelude.{
  if◌then◌else◌, ℕ, none, some, [], ◌∷◌, zero, suc, Option, find_by, Result, ◌≡◌, Gives, ℤ, List,
  bind-Gives, step-Gives, Gives-imp, Bool-cases, refl, gives, ap, ◌==◌, arith, inl,
  find_by-selected, ◌∙◌, inr, ◌-◌, both-Gives,
}

abbrev pub field_of : (Account → ℕ) → Option Account → Option ℕ
field_of m none = none
field_of m (some a) = some (m a)

-- a number that the account of a name keeps
unfoldable pub field : (Account → ℕ) → ℕ → Accounts → Option ℕ
field m n t = field_of m (find_by (named n) t)

abbrev pub proxy_of : ℕ → Accounts → Option ℕ
proxy_of = field λ a. a.proxy

abbrev pub voted_for : ℕ → Accounts → Option ℕ
voted_for = field λ a. a.witnesses_voted_for

abbrev pub on_field : (ℕ → ℕ) → Option ℕ → Option ℕ
on_field g none = none
on_field g (some x) = some (g x)

pub field-found :
    (m : Account → ℕ) (n : ℕ) (t : Accounts) {a : Account}
    → find_by (named n) t ≡ some a
    → field m n t ≡ some (m a)
unfolding field
field-found m n t h = rw h refl

-- A change of one account that maps a number of its moves that number only.
pub modify_account-field :
    (m : Account → ℕ) (g : ℕ → ℕ) (n : ℕ) (f : Account → Result Account) (t : Accounts)
    → ((a : Account) → Gives (λ b. (b.name ≡ a.name) × (m b ≡ g (m a))) (f a))
    → Gives
        (λ t'. (k : ℕ) → field m k t' ≡ (if k == n then on_field g (field m n t) else field m k t))
        (modify_account n f t)
unfolding modify_account field
modify_account-field m g n f t h = bind-Gives (get_account-Gives n t) λ a found.
    bind-Gives (h a) λ b (same, moved).
      gives λ k.
        ground (arith, find_by-selected (named n) t a found, find_by-replace_by-named k n a b t)

-- ... and one that leaves it, leaves it everywhere.
pub modify_account-same :
    (m : Account → ℕ) (n : ℕ) (f : Account → Result Account) (t : Accounts)
    → ((a : Account) → Gives (λ b. (b.name ≡ a.name) × (m b ≡ m a)) (f a))
    → Gives (λ t'. (k : ℕ) → field m k t' ≡ field m k t) (modify_account n f t)
unfolding modify_account field
modify_account-same m n f t h = bind-Gives (get_account-Gives n t) λ a found.
    bind-Gives (h a) λ b (same, moved).
      gives λ k.
        ground (arith, find_by-selected (named n) t a found, find_by-replace_by-named k n a b t)

abbrev pub SameStanding : Db → Db → Type 0
SameStanding db db' =
    ((k : ℕ) → proxy_of k db'.accounts ≡ proxy_of k db.accounts)
    × ((k : ℕ) → voted_for k db'.accounts ≡ voted_for k db.accounts)
    × (db'.witness_votes ≡ db.witness_votes)

abbrev SameRecords : Db → Db → Type 0
SameRecords db db' = (db'.accounts ≡ db.accounts) × (db'.witness_votes ≡ db.witness_votes)

module _ ⦃fc : Fc⦄ where
  pub adjust_witness_vote-SameRecords :
      (n : ℕ) (delta : ℤ) (db : Db) → Gives (SameRecords db) (adjust_witness_vote n delta db)
  unfolding adjust_witness_vote
  adjust_witness_vote-SameRecords n delta db = step-Gives (get_witness n db) λ w _.
      step-Gives (reposition db.current_virtual_time db.props.total_vesting_shares delta w)
        λ moved _. gives (refl, refl)

  adjust_each-SameRecords :
      (n : ℕ) (delta : ℤ) (votes : List WitnessVote) (db : Db)
      → Gives (SameRecords db) (adjust_each n delta votes db)
  unfolding adjust_each
  adjust_each-SameRecords n delta [] db = gives (refl, refl)
  adjust_each-SameRecords n delta (v ∷ rest) db = elim (Bool-cases (v.account == n)) [
    | inl own ↦ rw own (
        bind-Gives (adjust_witness_vote-SameRecords v.witness delta db) λ moved (accounts, kept).
          Gives-imp (adjust_each-SameRecords n delta rest moved)
            λ last (accounts', kept'). (accounts' ∙ accounts, kept' ∙ kept))
    | inr other ↦ rw other (adjust_each-SameRecords n delta rest db)
  ]

  adjust_witness_votes-SameStanding :
      (n : ℕ) (delta : ℤ) (db : Db) → Gives (SameStanding db) (adjust_witness_votes n delta db)
  unfolding adjust_witness_votes
  adjust_witness_votes-SameStanding n delta db =
      Gives-imp (adjust_each-SameRecords n delta db.witness_votes db) λ last (accounts, votes).
        (λ k. ap (proxy_of k) accounts, λ k. ap (voted_for k) accounts, votes)

  -- a change of the proxied votes
  add_proxied-same :
      (depth : ℕ) (delta : List ℤ) (a : Account)
      → Gives
          (λ b.
            (b.name ≡ a.name)
            × (b.proxy ≡ a.proxy)
            × (b.witnesses_voted_for ≡ a.witnesses_voted_for))
          (add_proxied depth delta a)
  unfolding add_proxied
  add_proxied-same depth delta a =
      step-Gives (add_votes_from depth a.proxied_vsf_votes delta)
        λ votes _. gives (refl, refl, refl)

  pub adjust_proxied_votes-SameStanding :
      (left : ℕ) (a : Account) (delta : List ℤ) (db : Db)
      → Gives (SameStanding db) (adjust_proxied_votes left a delta db)
  unfolding adjust_proxied_votes
  adjust_proxied_votes-SameStanding zero a delta db = elim (Bool-cases (a.proxy == 0)) [
    | inl self ↦ rw self (
        step-Gives (sum_first 1 delta) λ total _. adjust_witness_votes-SameStanding a.name total db)
    | inr proxied ↦ rw proxied (gives (λ k. refl, λ k. refl, refl))
  ]
  adjust_proxied_votes-SameStanding (suc left) a delta db =
      let depth = max_proxy_recursion_depth - suc left in
      elim (Bool-cases (a.proxy == 0)) [
        | inl self ↦ rw self (
            step-Gives (sum_first (suc (suc left)) delta)
              λ total _. adjust_witness_votes-SameStanding a.name total db)
        | inr proxied ↦ rw proxied (
            bind-Gives
              (both-Gives
                (modify_account-same (λ b. b.proxy) a.proxy (add_proxied depth delta) db.accounts
                  λ b.
                    Gives-imp (add_proxied-same depth delta b)
                      λ c (name, proxy, voted). (name, proxy))
                (modify_account-same (λ b. b.witnesses_voted_for) a.proxy (add_proxied depth delta)
                  db.accounts
                  λ b.
                    Gives-imp (add_proxied-same depth delta b)
                      λ c (name, proxy, voted). (name, voted)))
              λ accounts (proxies, counts). step-Gives (get_account a.proxy accounts) λ proxy _.
                Gives-imp
                  (adjust_proxied_votes-SameStanding left proxy delta
                    (record db { accounts = accounts }))
                  λ last (proxies', counts', votes).
                    (λ k. proxies' k ∙ proxies k, λ k. counts' k ∙ counts k, votes))
      ]
