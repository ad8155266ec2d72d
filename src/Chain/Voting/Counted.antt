-- ===== src/Chain/Voting/Counted.antt =====
-- Every account's count of the witnesses it votes for is the number of its votes in the index, and
-- at most BMCHAIN_MAX_ACCOUNT_WITNESS_VOTES.
use bmchain_core.Chain.Accounts.Covered.{get_account-Gives}
use bmchain_core.Chain.Accounts.{named, modify_account, get_account}
use bmchain_core.Protocol.Fc.{Fc, safe_neg}
use bmchain_core.Protocol.Config.{max_account_witness_votes, max_proxy_recursion_depth}
use bmchain_core.Chain.Voting.Standing.{
  voted_for, SameStanding, on_field, field-found, adjust_witness_vote-SameRecords,
  modify_account-field, modify_account-same, adjust_proxied_votes-SameStanding,
}
use bmchain_core.Chain.Voting.{
  without_votes, is_vote, max_account_witness_votes, Fc, AccountWitnessVote, add_vote, drop_vote,
  witness_vote_weight, safe_neg, account_witness_vote, clear_witness_votes, set_proxy, change_proxy,
  account_witness_proxy, WitnessProxy, walk_proxies, negate_all, get_witness,
  max_proxy_recursion_depth,
}
use bmchain_core.Chain.Objects.{Db, WitnessVote, Account}
use mathlib.Core.Path.{subst}
use bmchain_core.Prelude.{
  ℕ, suc, none, some, [], ◌∷◌, if◌then◌else◌, List, Bool, remove_by, find_by, ◌≡◌, true, ◌==◌, ◌++◌,
  ◌≤◌, arith, sym, false, ◌+◌, ◌≢◌, ◌∙◌, Bool-cases, refl, inl, inr, Option-cases, Gives,
  assert-Gives, ltb, not, step-Gives, bind-Gives, ◌%◌, ◌^◌, gives, ◌-◌, fc_assert, Gives-imp, ℤ, ok,
  Result,
}

-- how many votes of the index are an account's
unfoldable pub votes_of : ℕ → List WitnessVote → ℕ
votes_of n [] = 0
votes_of n (v ∷ rest) = if v.account == n then suc (votes_of n rest) else votes_of n rest

abbrev pub IsCounted : Db → Type 0
IsCounted db =
    (n count : ℕ)
    → voted_for n db.accounts ≡ some count
    → (count ≡ votes_of n db.witness_votes) × (count ≤ max_account_witness_votes)

abbrev one_if : Bool → ℕ
one_if true = 1
one_if false = 0

votes_of-snoc :
    (n : ℕ) (v : WitnessVote) (votes : List WitnessVote)
    → votes_of n (votes ++ v ∷ []) ≡ votes_of n votes + one_if (v.account == n)
unfolding votes_of
votes_of-snoc n v [] = ground arith
votes_of-snoc n v (u ∷ rest) = ground (arith, votes_of-snoc n v rest)

votes_of-remove_by :
    (n account witness : ℕ) (votes : List WitnessVote)
    → find_by (is_vote account witness) votes ≢ none
    → votes_of n (remove_by (is_vote account witness) votes) + one_if (account == n)
      ≡ votes_of n votes
unfolding votes_of remove_by find_by
votes_of-remove_by n account witness [] h = absurd (h refl)
votes_of-remove_by n account witness (v ∷ rest) h =
    ground (arith, votes_of-remove_by n account witness rest)

votes_of-without_votes :
    (n account : ℕ) (votes : List WitnessVote)
    → votes_of n (without_votes account votes) ≡ (if n == account then 0 else votes_of n votes)
unfolding votes_of without_votes
votes_of-without_votes n account [] = ground arith
votes_of-without_votes n account (v ∷ rest) = ground (arith, votes_of-without_votes n account rest)

-- The count and the votes of one account change alike.
recounted :
    (x : ℕ) (g : ℕ → ℕ) (db db' : Db)
    → ((k : ℕ)
        → voted_for k db'.accounts
          ≡ (if k == x then on_field g (voted_for x db.accounts) else voted_for k db.accounts))
    → ((k : ℕ) → k ≢ x → votes_of k db'.witness_votes ≡ votes_of k db.witness_votes)
    → ((count : ℕ)
        → voted_for x db.accounts ≡ some count
        → (g count ≡ votes_of x db'.witness_votes) × (g count ≤ max_account_witness_votes))
    → IsCounted db
    → IsCounted db'
recounted x g db db' counts others own counted n count h = elim (Bool-cases (n == x)) [
  | inl hit ↦
      let same : x ≡ n = ground arith in
      subst (λ k. (count ≡ votes_of k db'.witness_votes) × (count ≤ max_account_witness_votes)) same
        (elim (Option-cases (voted_for x db.accounts)) [
          | inl missing ↦ absurd (ground (arith, counts n, h))
          | inr (c, there) ↦ ground (arith, own c there, counts n, h)
        ])
  | inr miss ↦ ground (arith, counted n count, counts n, others n, h)
]

same-IsCounted : (db db' : Db) → SameStanding db db' → IsCounted db → IsCounted db'
same-IsCounted db db' (_, counts, votes) counted n count h =
    let (exact, few) = counted n count (sym (counts n) ∙ h) in (rw votes exact, few)

module _ ⦃fc : Fc⦄ (o : AccountWitnessVote) (voter : Account) (db : Db)
    (found : find_by (named o.account) db.accounts ≡ some voter) (counted : IsCounted db) where
  own_count : (c : ℕ) → voted_for o.account db.accounts ≡ some c → c ≡ voter.witnesses_voted_for
  own_count c h =
      let there = field-found (λ a. a.witnesses_voted_for) o.account db.accounts found in
      ground arith

  add_vote-IsCounted : Gives IsCounted (add_vote o voter db)
  unfolding add_vote
  add_vote-IsCounted =
      let v : WitnessVote = record { witness = o.witness; account = o.account } in
      assert-Gives o.approve λ _.
        assert-Gives (ltb voter.witnesses_voted_for max_account_witness_votes) λ few.
          step-Gives (witness_vote_weight voter) λ weight _.
            bind-Gives
              (adjust_witness_vote-SameRecords o.witness weight
                (record db { witness_votes = db.witness_votes ++ v ∷ [] }))
              λ moved (accounts_same, votes_same).
                bind-Gives
                  (modify_account-field (λ a. a.witnesses_voted_for) (λ c. (c + 1) % 2 ^ 16)
                    o.account _ moved.accounts λ a. gives (refl, refl))
                  λ accounts counts. gives (
                    recounted o.account (λ c. (c + 1) % 2 ^ 16) db
                      (record moved { accounts = accounts })
                      (λ k. rw (sym accounts_same) (counts k))
                      (λ k apart.
                        rw votes_same (ground (arith, votes_of-snoc k v db.witness_votes, apart)))
                      (λ c there.
                        let (exact, _) = counted o.account c there in
                        let same = own_count c there in
                        let added = votes_of-snoc o.account v db.witness_votes in
                        rw votes_same
                          (ground (arith, exact, same, added, few), ground (arith, same, few)))
                      counted)

  drop_vote-IsCounted :
      find_by (is_vote o.account o.witness) db.witness_votes ≢ none
      → Gives IsCounted (drop_vote o voter db)
  unfolding drop_vote
  drop_vote-IsCounted listed = assert-Gives (not o.approve) λ _.
      step-Gives (witness_vote_weight voter) λ weight _. step-Gives (safe_neg weight) λ minus _.
        bind-Gives (adjust_witness_vote-SameRecords o.witness minus db)
          λ moved (accounts_same, votes_same).
            bind-Gives
              (modify_account-field (λ a. a.witnesses_voted_for) (λ c. (c + (2 ^ 16 - 1)) % 2 ^ 16)
                o.account _ moved.accounts λ a. gives (refl, refl))
              λ accounts counts. gives (
                recounted o.account (λ c. (c + (2 ^ 16 - 1)) % 2 ^ 16) db
                  (record moved {
                    accounts = accounts;
                    witness_votes = remove_by (is_vote o.account o.witness) moved.witness_votes;
                  })
                  (λ k. rw (sym accounts_same) (counts k))
                  (λ k apart. rw votes_same (
                    ground (
                      arith,
                      votes_of-remove_by k o.account o.witness db.witness_votes listed,
                      apart,
                    )))
                  (λ c there.
                    let (exact, few) = counted o.account c there in
                    let removed =
                      votes_of-remove_by o.account o.account o.witness db.witness_votes listed in
                    rw votes_same
                      (ground (arith, exact, few, removed), ground (arith, exact, few, removed)))
                  counted)

module _ ⦃fc : Fc⦄ where
  account_witness_vote-IsCounted :
      (o : AccountWitnessVote) (db : Db)
      → IsCounted db
      → Gives IsCounted (account_witness_vote o db)
  unfolding account_witness_vote
  account_witness_vote-IsCounted o db counted =
      bind-Gives (get_account-Gives o.account db.accounts) λ voter found.
        assert-Gives (voter.proxy == 0) λ _.
          step-Gives (if o.approve then fc_assert voter.can_vote else ok tt) λ _ _.
            step-Gives (get_witness o.witness db) λ _ _.
              elim (Option-cases (find_by (is_vote o.account o.witness) db.witness_votes)) [
                | inl new ↦ rw new (add_vote-IsCounted o voter db found counted)
                | inr (v, listed) ↦
                    rw listed (drop_vote-IsCounted o voter db found counted (λ missing. cc))
              ]

  clear_witness_votes-IsCounted :
      (n : ℕ) (db : Db) → IsCounted db → Gives IsCounted (clear_witness_votes n db)
  unfolding clear_witness_votes
  clear_witness_votes-IsCounted n db counted =
      bind-Gives
        (modify_account-field (λ a. a.witnesses_voted_for) (λ _. 0) n _ db.accounts
          λ a. gives (refl, refl))
        λ accounts counts. gives (
          recounted n (λ _. 0) db
            (record db { accounts = accounts; witness_votes = without_votes n db.witness_votes })
            counts (λ k apart. ground (arith, votes_of-without_votes k n db.witness_votes, apart))
            (λ c there. (ground (arith, votes_of-without_votes n n db.witness_votes), omega arith))
            counted)

  set_proxy-IsCounted :
      (n p : ℕ) (db : Db)
      → IsCounted db
      → Gives
          (λ accounts. IsCounted (record db { accounts = accounts }))
          (modify_account n (set_proxy p) db.accounts)
  unfolding set_proxy
  set_proxy-IsCounted n p db counted =
      Gives-imp
        (modify_account-same (λ a. a.witnesses_voted_for) n (set_proxy p) db.accounts
          λ a. gives (refl, refl))
        λ accounts same k count h. counted k count (sym (same k) ∙ h)

  change_proxy-IsCounted :
      (o : WitnessProxy) (delta : List ℤ) (db : Db)
      → IsCounted db
      → Gives IsCounted (change_proxy o delta db)
  unfolding change_proxy
  change_proxy-IsCounted o delta db counted =
      step-Gives (get_account o.proxy db.accounts) λ new_proxy _.
        step-Gives (walk_proxies _ _ new_proxy db.accounts) λ _ _.
          bind-Gives (clear_witness_votes-IsCounted o.account db counted) λ cleared first.
            bind-Gives (set_proxy-IsCounted o.account o.proxy cleared first) λ accounts second.
              step-Gives (get_account o.account accounts) λ account _.
                step-Gives (negate_all delta) λ plus _.
                  Gives-imp
                    (adjust_proxied_votes-SameStanding max_proxy_recursion_depth account plus
                      (record cleared { accounts = accounts }))
                    λ last same.
                      same-IsCounted (record cleared { accounts = accounts }) last same second

  account_witness_proxy-IsCounted :
      (o : WitnessProxy) (db : Db) → IsCounted db → Gives IsCounted (account_witness_proxy o db)
  unfolding account_witness_proxy
  account_witness_proxy-IsCounted o db counted =
      step-Gives (get_account o.account db.accounts) λ account _.
        assert-Gives (not (account.proxy == o.proxy)) λ _. assert-Gives account.can_vote λ _.
          step-Gives (negate_all _) λ delta _.
            bind-Gives
              (Gives-imp
                (adjust_proxied_votes-SameStanding max_proxy_recursion_depth account delta db)
                λ without same. same-IsCounted db without same counted)
              λ without kept. elim (Bool-cases (o.proxy == 0)) [
                | inl cleared ↦ rw cleared (
                    bind-Gives (set_proxy-IsCounted o.account o.proxy without kept)
                      λ accounts last. gives last)
                | inr proxied ↦ rw proxied (change_proxy-IsCounted o delta without kept)
              ]

-- the operations on votes, and their evaluators
pub data VoteOperation : Type 0 where
  account_witness_vote_operation : AccountWitnessVote → VoteOperation
  account_witness_proxy_operation : WitnessProxy → VoteOperation

module _ ⦃fc : Fc⦄ where
  unfoldable pub apply_vote : VoteOperation → Db → Result Db
  apply_vote (account_witness_vote_operation o) = account_witness_vote o
  apply_vote (account_witness_proxy_operation o) = account_witness_proxy o

  -- Voting for a witness, taking a vote back, and a change of the proxy, which clears the votes: where
  -- every account's count of votes is the number of its votes in the index, at most 30, it is so after
  -- the operation.
  pub apply_vote-IsCounted :
      (op : VoteOperation) (db : Db) → IsCounted db → Gives IsCounted (apply_vote op db)
  unfolding apply_vote
  apply_vote-IsCounted (account_witness_vote_operation o) db = account_witness_vote-IsCounted o db
  apply_vote-IsCounted (account_witness_proxy_operation o) db = account_witness_proxy-IsCounted o db
