-- ===== src/Chain/Voting.antt =====
-- The votes for witnesses: `adjust_proxied_witness_votes`, `adjust_witness_votes`,
-- `adjust_witness_vote`, `clear_witness_votes` (libraries/chain/database.cpp) and the evaluators
-- `account_witness_proxy_evaluator`, `account_witness_vote_evaluator`
-- (libraries/chain/bmchain_evaluator.cpp). An account stands for its id, and so does a witness. A
-- depth is counted down, as what is left of BMCHAIN_MAX_PROXY_RECURSION_DEPTH.
pub mod Sums
pub mod Standing
pub mod Counted
pub mod Chains
pub mod Loops
use bmchain_core.Protocol.Config.{max_proxy_recursion_depth, max_account_witness_votes}
use bmchain_core.Protocol.Asset.{Asset}
use bmchain_core.Chain.Accounts.{Accounts, modify_account, get_account}
use bmchain_core.Protocol.Fc.{Fc, safe_add, safe_neg}
use bmchain_core.Chain.Objects.{Witness, WitnessVote, Db, Account}
use bmchain_core.Prelude.{
  ℕ, zero, suc, [], ◌∷◌, none, some, Bool, ◌^◌, List, ◌==◌, ◌-◌, Result, if◌then◌else◌, ℤ, ◌&&◌,
  or_throw, err, ok, ◌>>=◌, ◌>>◌, find_by, Error, pos, replace_by, fc_assert, not, leb_ℤ, ltb, ◌+◌,
  leb, ◌%◌, ◌++◌, length, ◌*◌, remove_by, ◌/◌, ◌+ℤ◌, has_name, insert_name,
}

pub record WitnessProxy : Type 0 where
  pub account : ℕ
  pub proxy : ℕ

pub record AccountWitnessVote : Type 0 where
  pub account : ℕ
  pub witness : ℕ
  pub approve : Bool

abbrev pub owned_by : ℕ → Witness → Bool
owned_by n w = w.owner == n

-- the key of the index `by_account_witness`
abbrev pub is_vote : ℕ → ℕ → WitnessVote → Bool
is_vote account witness v = (v.account == account) && (v.witness == witness)

abbrev pub max_uint128 : ℕ
max_uint128 = 2 ^ 128 - 1

-- `database::get_witness`
unfoldable pub get_witness : ℕ → Db → Result Witness
get_witness n db = or_throw (find_by (owned_by n) db.witnesses) Error.not_found

-- the votes of an account, removed
unfoldable pub without_votes : ℕ → List WitnessVote → List WitnessVote
without_votes n [] = []
without_votes n (v ∷ rest) =
    let others = without_votes n rest in if v.account == n then others else v ∷ others

-- `database::clear_witness_votes`
unfoldable pub clear_witness_votes : ℕ → Db → Result Db
clear_witness_votes n db = do
  accounts ← modify_account n (λ a. ok (record a { witnesses_voted_for = 0 })) db.accounts
  ok (record db { accounts = accounts; witness_votes = without_votes n db.witness_votes })

-- The loop of `account_witness_proxy_evaluator` along the proxies of the new proxy; every round adds
-- an account to the set, which holds at most four. The source reads the account of the round through a
-- pointer to a copy that ended with the round before; here it is the account that the pointer was set to.
unfoldable pub walk_proxies : ℕ → List ℕ → Account → Accounts → Result (Unit {0})
walk_proxies zero proxy_chain cprox t = err Error.out_of_fuel
walk_proxies (suc fuel) proxy_chain cprox t = if cprox.proxy == 0 then ok tt else (do
  next_proxy ← get_account cprox.proxy t
  fc_assert (not (has_name next_proxy.name proxy_chain))
  fc_assert (leb (length (insert_name next_proxy.name proxy_chain)) max_proxy_recursion_depth)
  walk_proxies fuel (insert_name next_proxy.name proxy_chain) next_proxy t)

-- `a.proxy = o.proxy`
unfoldable pub set_proxy : ℕ → Account → Result Account
set_proxy proxy a = ok (record a { proxy = proxy })

module _ ⦃fc : Fc⦄ where
  -- `votes[i] += delta[i]` for every vote there is
  unfoldable pub add_votes : List ℤ → List ℤ → Result (List ℤ)
  add_votes [] delta = ok []
  add_votes (v ∷ rest) [] = ok (v ∷ rest)
  add_votes (v ∷ rest) (d ∷ delta) = do
    sum ← safe_add v d
    others ← add_votes rest delta
    ok (sum ∷ others)

  -- `votes[i + depth] += delta[i]`
  unfoldable pub add_votes_from : ℕ → List ℤ → List ℤ → Result (List ℤ)
  add_votes_from zero votes delta = add_votes votes delta
  add_votes_from (suc depth) [] delta = ok []
  add_votes_from (suc depth) (v ∷ rest) delta = do
    others ← add_votes_from depth rest delta
    ok (v ∷ others)

  unfoldable pub add_proxied : ℕ → List ℤ → Account → Result Account
  add_proxied depth delta a = do
    votes ← add_votes_from depth a.proxied_vsf_votes delta
    ok (record a { proxied_vsf_votes = votes })

  -- the first of the deltas, summed
  unfoldable pub sum_first : ℕ → List ℤ → Result ℤ
  sum_first zero delta = ok (pos 0)
  sum_first (suc k) [] = ok (pos 0)
  sum_first (suc k) (d ∷ rest) = do others ← sum_first k rest; safe_add others d

  unfoldable pub negate_all : List ℤ → Result (List ℤ)
  negate_all [] = ok []
  negate_all (d ∷ rest) = do minus ← safe_neg d; others ← negate_all rest; ok (minus ∷ others)

  -- `account_object::witness_vote_weight`
  unfoldable pub add_all : ℤ → List ℤ → Result ℤ
  add_all total [] = ok total
  add_all total (v ∷ rest) = do sum ← safe_add total v; add_all sum rest

  unfoldable pub witness_vote_weight : Account → Result ℤ
  witness_vote_weight a = add_all a.vesting_shares.amount a.proxied_vsf_votes

  -- the new position and time of a witness; products and sums are those of `uint128`
  unfoldable pub reposition : ℕ → Asset → ℤ → Witness → Result Witness
  reposition now total_vesting_shares delta w = do
    votes ← safe_add w.votes delta
    fc_assert (leb_ℤ votes total_vesting_shares.amount)
    let passed = (now + 2 ^ 128 - w.virtual_last_update) % 2 ^ 128
    let position = (w.virtual_position + fc.uint128_of w.votes * passed) % 2 ^ 128
    let time = (now + (max_uint128 - position) / fc.uint128_of (votes +ℤ pos 1)) % 2 ^ 128
    ok (record w {
      votes = votes;
      virtual_last_update = now;
      virtual_position = position;
      virtual_scheduled_time = if ltb time now then max_uint128 else time;
    })

  -- `database::adjust_witness_vote`
  unfoldable pub adjust_witness_vote : ℕ → ℤ → Db → Result Db
  adjust_witness_vote n delta db = do
    w ← get_witness n db
    moved ← reposition db.current_virtual_time db.props.total_vesting_shares delta w
    ok (record db { witnesses = replace_by (owned_by n) moved db.witnesses })

  -- the loop of `adjust_witness_votes` over the votes of the index
  unfoldable pub adjust_each : ℕ → ℤ → List WitnessVote → Db → Result Db
  adjust_each n delta [] db = ok db
  adjust_each n delta (v ∷ rest) db =
      if v.account == n
      then (do moved ← adjust_witness_vote v.witness delta db; adjust_each n delta rest moved)
      else adjust_each n delta rest db

  -- `database::adjust_witness_votes`
  unfoldable pub adjust_witness_votes : ℕ → ℤ → Db → Result Db
  adjust_witness_votes n delta db = adjust_each n delta db.witness_votes db

  -- `database::adjust_proxied_witness_votes`, with a delta for every depth
  unfoldable pub adjust_proxied_votes : ℕ → Account → List ℤ → Db → Result Db
  adjust_proxied_votes zero a delta db =
      if a.proxy == 0
      then (do total ← sum_first 1 delta; adjust_witness_votes a.name total db)
      else ok db
  adjust_proxied_votes (suc left) a delta db =
      if a.proxy == 0
      then (do total ← sum_first (suc (suc left)) delta; adjust_witness_votes a.name total db)
      else (do
        accounts ←
            modify_account a.proxy (add_proxied (max_proxy_recursion_depth - suc left) delta)
              db.accounts
        proxy ← get_account a.proxy accounts
        adjust_proxied_votes left proxy delta (record db { accounts = accounts }))

  -- the same, with one delta
  unfoldable pub adjust_proxied_vote : ℕ → Account → ℤ → Db → Result Db
  adjust_proxied_vote zero a delta db =
      if a.proxy == 0 then adjust_witness_votes a.name delta db else ok db
  adjust_proxied_vote (suc left) a delta db =
      if a.proxy == 0 then adjust_witness_votes a.name delta db else (do
        accounts ←
            modify_account a.proxy (add_proxied (max_proxy_recursion_depth - suc left) (delta ∷ []))
              db.accounts
        proxy ← get_account a.proxy accounts
        adjust_proxied_vote left proxy delta (record db { accounts = accounts }))

  -- `account_witness_proxy_evaluator::do_apply`
  unfoldable pub change_proxy : WitnessProxy → List ℤ → Db → Result Db
  change_proxy o delta db = do
    new_proxy ← get_account o.proxy db.accounts
    walk_proxies (suc max_proxy_recursion_depth)
        (insert_name o.account (insert_name new_proxy.name [])) new_proxy db.accounts
    cleared ← clear_witness_votes o.account db
    accounts ← modify_account o.account (set_proxy o.proxy) cleared.accounts
    account ← get_account o.account accounts
    plus ← negate_all delta
    adjust_proxied_votes max_proxy_recursion_depth account plus
        (record cleared { accounts = accounts })

  unfoldable pub account_witness_proxy : WitnessProxy → Db → Result Db
  account_witness_proxy o db = do
    account ← get_account o.account db.accounts
    fc_assert (not (account.proxy == o.proxy))
    fc_assert account.can_vote
    delta ← negate_all (account.vesting_shares.amount ∷ account.proxied_vsf_votes)
    without ← adjust_proxied_votes max_proxy_recursion_depth account delta db
    (if o.proxy == 0
        then (do
          accounts ← modify_account o.account (set_proxy o.proxy) without.accounts
          ok (record without { accounts = accounts }))
        else change_proxy o delta without)

  -- `account_witness_vote_evaluator::do_apply`
  unfoldable pub add_vote : AccountWitnessVote → Account → Db → Result Db
  add_vote o voter db = do
    fc_assert o.approve
    fc_assert (ltb voter.witnesses_voted_for max_account_witness_votes)
    weight ← witness_vote_weight voter
    let votes = db.witness_votes ++ record { witness = o.witness; account = o.account } ∷ []
    moved ← adjust_witness_vote o.witness weight (record db { witness_votes = votes })
    accounts ←
        modify_account o.account
          (λ a. ok (record a { witnesses_voted_for = (a.witnesses_voted_for + 1) % 2 ^ 16 }))
          moved.accounts
    ok (record moved { accounts = accounts })

  unfoldable pub drop_vote : AccountWitnessVote → Account → Db → Result Db
  drop_vote o voter db = do
    fc_assert (not o.approve)
    weight ← witness_vote_weight voter
    minus ← safe_neg weight
    moved ← adjust_witness_vote o.witness minus db
    accounts ←
        modify_account o.account
          (λ a.
            ok (record a { witnesses_voted_for = (a.witnesses_voted_for + (2 ^ 16 - 1)) % 2 ^ 16 }))
          moved.accounts
    ok (record moved {
      accounts = accounts;
      witness_votes = remove_by (is_vote o.account o.witness) moved.witness_votes;
    })

  unfoldable pub account_witness_vote : AccountWitnessVote → Db → Result Db
  account_witness_vote o db = do
    voter ← get_account o.account db.accounts
    fc_assert (voter.proxy == 0)
    if o.approve then fc_assert voter.can_vote else ok tt
    _ ← get_witness o.witness db
    elim (find_by (is_vote o.account o.witness) db.witness_votes) [
      | none ↦ add_vote o voter db
      | some _ ↦ drop_vote o voter db
    ]
