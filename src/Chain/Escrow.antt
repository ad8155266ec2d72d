-- ===== src/Chain/Escrow.antt =====
-- The escrow evaluators of libraries/chain/bmchain_evaluator.cpp: `escrow_transfer_evaluator`,
-- `escrow_approve_evaluator`, `escrow_dispute_evaluator`, `escrow_release_evaluator`. An operation
-- takes the database and returns the new one, or throws and leaves the old one.
pub mod Conservation
pub mod Authority
pub mod Ratification
use bmchain_core.Prelude.{
  ℕ, Bool, true, false, not, ◌&&◌, ◌||◌, List, ltb, leb, ◌==◌, if◌then◌else◌, pos, eqb_ℤ, find_by,
  replace_by, remove_by, Result, ok, fc_assert, or_throw, ◌>>=◌, ◌>>◌, Error,
}
use bmchain_core.Protocol.Fc.{Fc}
use bmchain_core.Protocol.Config.{bmt_symbol}
use bmchain_core.Protocol.Asset.{Asset, asset_add, asset_sub, asset_neg, assert_ge}
use bmchain_core.Chain.Objects.{Escrow, Db, is_approved}
use bmchain_core.Chain.Accounts.{get_account, adjust_balance}
use bmchain_core.Chain.Supply.{create}

pub record EscrowTransfer : Type 0 where
  pub sender : ℕ
  pub to : ℕ
  pub agent : ℕ
  pub escrow_id : ℕ
  pub bmt_amount : Asset
  pub fee : Asset
  pub ratification_deadline : ℕ
  pub escrow_expiration : ℕ

pub record EscrowApprove : Type 0 where
  pub sender : ℕ
  pub to : ℕ
  pub agent : ℕ
  pub who : ℕ
  pub escrow_id : ℕ
  pub approve : Bool

pub record EscrowDispute : Type 0 where
  pub sender : ℕ
  pub to : ℕ
  pub agent : ℕ
  pub escrow_id : ℕ

pub record EscrowRelease : Type 0 where
  pub sender : ℕ
  pub to : ℕ
  pub agent : ℕ
  pub who : ℕ
  pub receiver : ℕ
  pub escrow_id : ℕ
  pub bmt_amount : Asset

-- the key of the index `by_from_id`
abbrev pub has_key : ℕ → ℕ → Escrow → Bool
has_key sender id e = (e.sender == sender) && (e.escrow_id == id)

-- `database::get_escrow`
unfoldable pub get_escrow : ℕ → ℕ → List Escrow → Result Escrow
get_escrow sender id t = or_throw (find_by (has_key sender id) t) Error.not_found

-- The two votes of `escrow_approve_evaluator`, each on the escrow as the first has left it.
unfoldable pub vote_to : EscrowApprove → Escrow → Result Escrow
vote_to o e =
    if o.who == o.to
    then (fc_assert (not e.to_approved)
        >> ok (if o.approve then record e { to_approved = true } else e))
    else ok e

unfoldable pub vote_agent : EscrowApprove → Escrow → Result Escrow
vote_agent o e =
    if o.who == o.agent
    then (fc_assert (not e.agent_approved)
        >> ok (if o.approve then record e { agent_approved = true } else e))
    else ok e

-- Who may release to whom: the branches of `escrow_release_evaluator` before the money moves.
unfoldable pub may_release : ℕ → EscrowRelease → Escrow → Result (Unit {0})
may_release now o e =
    if e.disputed
    then fc_assert (o.who == e.agent)
    else (fc_assert ((o.who == e.sender) || (o.who == e.to))
        >> (if ltb now e.escrow_expiration
            then (if o.who == e.sender
                then fc_assert (o.receiver == e.to)
                else (if o.who == e.to then fc_assert (o.receiver == e.sender) else ok tt))
            else ok tt))

-- The conditions of `escrow_release_evaluator`, in its order.
unfoldable pub release_guards : ℕ → EscrowRelease → Escrow → Result (Unit {0})
unfolding may_release
release_guards now o e = do
  assert_ge e.bmt_balance o.bmt_amount
  fc_assert (e.to == o.to)
  fc_assert (e.agent == o.agent)
  fc_assert ((o.receiver == e.sender) || (o.receiver == e.to))
  fc_assert (is_approved e)
  may_release now o e

-- The escrow that `escrow_transfer_evaluator` creates.
unfoldable pub opened : EscrowTransfer → Escrow
opened o = record {
  escrow_id = o.escrow_id;
  sender = o.sender;
  to = o.to;
  agent = o.agent;
  ratification_deadline = o.ratification_deadline;
  escrow_expiration = o.escrow_expiration;
  bmt_balance = o.bmt_amount;
  pending_fee = o.fee;
  to_approved = false;
  agent_approved = false;
  disputed = false;
}

-- a ratified escrow, whose agent has the fee
unfoldable pub fee_paid : Escrow → Escrow
fee_paid e = record e { pending_fee = record e.pending_fee { amount = pos 0 } }

-- The deadlines of `escrow_transfer_evaluator` lie ahead.
unfoldable pub deadline_guards : ℕ → EscrowTransfer → Result (Unit {0})
deadline_guards now o = do
  fc_assert (ltb now o.ratification_deadline)
  fc_assert (ltb now o.escrow_expiration)

-- The escrows after a release, when `rest` is what the escrow keeps.
unfoldable pub released : EscrowRelease → Escrow → Asset → List Escrow → List Escrow
released o e rest t =
    if eqb_ℤ rest.amount (pos 0)
    then remove_by (has_key o.sender o.escrow_id) t
    else replace_by (has_key o.sender o.escrow_id) (record e { bmt_balance = rest }) t

-- The conditions of `escrow_dispute_evaluator`.
unfoldable pub dispute_guards : ℕ → EscrowDispute → Escrow → Result (Unit {0})
dispute_guards now o e = do
  fc_assert (ltb now e.escrow_expiration)
  fc_assert (is_approved e)
  fc_assert (not e.disputed)
  fc_assert (e.to == o.to)
  fc_assert (e.agent == o.agent)

-- The conditions of `escrow_approve_evaluator` before the votes.
unfoldable pub approve_guards : ℕ → EscrowApprove → Escrow → Result (Unit {0})
approve_guards now o e = do
  fc_assert (e.to == o.to)
  fc_assert (e.agent == o.agent)
  fc_assert (leb now e.ratification_deadline)

-- `escrow_dispute_evaluator::do_apply`
unfoldable pub escrow_dispute : EscrowDispute → Db → Result Db
unfolding get_escrow dispute_guards
escrow_dispute o db = do
  _ ← get_account o.sender db.accounts
  e ← get_escrow o.sender o.escrow_id db.escrows
  _ ← dispute_guards db.props.time o e
  ok (record db {
    escrows = replace_by (has_key o.sender o.escrow_id) (record e { disputed = true }) db.escrows;
  })

module _ ⦃fc : Fc⦄ where
  -- what `escrow_transfer_evaluator` charges: the amount, and the fee if it is BMT
  unfoldable pub bmt_spent : EscrowTransfer → Result Asset
  bmt_spent o = if o.fee.symbol == bmt_symbol then asset_add o.bmt_amount o.fee else ok o.bmt_amount

  -- `escrow_transfer_evaluator::do_apply`
  unfoldable pub escrow_transfer : EscrowTransfer → Db → Result Db
  unfolding deadline_guards bmt_spent create opened
  escrow_transfer o db = do
    from_account ← get_account o.sender db.accounts
    _ ← get_account o.to db.accounts
    _ ← get_account o.agent db.accounts
    _ ← deadline_guards db.props.time o
    spent ← bmt_spent o
    _ ← assert_ge from_account.balance spent
    debit ← asset_neg spent
    accounts ← adjust_balance o.sender debit db.accounts
    escrows ← create (has_key o.sender o.escrow_id) (opened o) db.escrows
    ok (record db { accounts = accounts; escrows = escrows })

  -- How `escrow_approve_evaluator` goes on after the votes: a rejected escrow is paid back and
  -- removed, a ratified one pays its agent.
  unfoldable pub ratify : EscrowApprove → Escrow → Db → Result Db
  unfolding fee_paid
  ratify o e db =
      if not o.approve
      then (do
        refunded ← adjust_balance o.sender e.bmt_balance db.accounts
        accounts ← adjust_balance o.sender e.pending_fee refunded
        ok (record db {
          accounts = accounts;
          escrows = remove_by (has_key o.sender o.escrow_id) db.escrows;
        }))
      else (if e.to_approved && e.agent_approved
          then (do
            accounts ← adjust_balance o.agent e.pending_fee db.accounts
            ok (record db {
              accounts = accounts;
              escrows = replace_by (has_key o.sender o.escrow_id) (fee_paid e) db.escrows;
            }))
          else ok (record db { escrows = replace_by (has_key o.sender o.escrow_id) e db.escrows }))

  -- `escrow_approve_evaluator::do_apply`
  unfoldable pub escrow_approve : EscrowApprove → Db → Result Db
  unfolding get_escrow approve_guards vote_to vote_agent ratify
  escrow_approve o db = do
    e ← get_escrow o.sender o.escrow_id db.escrows
    _ ← approve_guards db.props.time o e
    by_to ← vote_to o e
    by_both ← vote_agent o by_to
    ratify o by_both db

  -- `escrow_release_evaluator::do_apply`
  unfoldable pub escrow_release : EscrowRelease → Db → Result Db
  unfolding get_escrow release_guards released
  escrow_release o db = do
    _ ← get_account o.sender db.accounts
    _ ← get_account o.receiver db.accounts
    e ← get_escrow o.sender o.escrow_id db.escrows
    _ ← release_guards db.props.time o e
    accounts ← adjust_balance o.receiver o.bmt_amount db.accounts
    rest ← asset_sub e.bmt_balance o.bmt_amount
    ok (record db { accounts = accounts; escrows = released o e rest db.escrows })
