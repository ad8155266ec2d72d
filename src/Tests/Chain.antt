-- ===== src/Tests/Chain.antt =====
-- Runs of the operations on the small database.
use bmchain_core.Chain.Market.FillOrKill.{limit_order_create-throws}
use bmchain_core.Chain.Escrow.Authority.{IsAllowed, escrow_release-IsAllowed}
use bmchain_core.Chain.Market.Cancellation.{
  limit_order_cancel_covered, limit_order_cancel-reaches, TakenOut,
}
use bmchain_core.Chain.Market.Matching.{match_orders-throws}
use bmchain_core.Chain.ContentOrders.Conservation.{
  content_order_edit-Gives, content_order_cancel-pays,
}
use bmchain_core.Chain.Accounts.Lookup.{liquid, plus}
use bmchain_core.Chain.Supply.{total_supply}
use bmchain_core.Chain.ContentOrders.{
  ContentOrderCreate, content_order_create, content_order_cancel,
}
use bmchain_core.Prelude.{
  [], ◌∷◌, ◌≡◌, refl, true, pos, find_by, replace_by, ok, err, Error, returns, Gives, arith, ◌∷◌,
  [], neg_ℤ, false, ◌+ℤ◌, ◌-ℤ◌, ℕ, ◌≢◌, some,
}
use bmchain_core.Protocol.Fc.{safe_add, safe_neg, safe_sub}
use bmchain_core.Protocol.Asset.{asset_add, asset_neg, assert_ge, asset_eq, asset_sub}
use bmchain_core.Chain.Objects.{Db, Escrow, LimitOrder}
use bmchain_core.Chain.Accounts.{
  get_account, get_balance, adjust_balance, modify_account, add_balance,
}
use bmchain_core.Chain.Transfers.{Transfer, transfer, prove_active}
use bmchain_core.Chain.Transfers.Balances.{
  Moved, transfer-Moved, transfer_covered, transfer_overdraft,
}
use bmchain_core.Chain.Escrow.{
  EscrowRelease, escrow_release, EscrowTransfer, get_escrow, release_guards, may_release, released,
  has_key,
}
use bmchain_core.Chain.Market.{
  clear_expired_orders, limit_order_create, limit_order_cancel, match_orders, amount_for_sale,
  LimitOrderCreate2, limit_order_create2,
}
use bmchain_core.Chain.Market.Expiration.{Cleared, clear_expired_orders-Cleared}
use bmchain_core.Chain.Operations.{apply_operation, transfer_operation, escrow_release_operation}
use bmchain_core.Chain.Operations.History.{
  IsSound, Preserved, History, start, then, History-Preserved,
}
use bmchain_core.Chain.Market.{LimitOrderCreate}
use bmchain_core.Chain.Escrow.{EscrowApprove}
use bmchain_core.Tests.Fixtures.{
  checked, escrow_of_alice, reference_fc, small_db, holder, bmt, vests, bid, sale,
}

abbrev payment : Transfer
payment = record { sender = 1; to = 2; amount = bmt 30 }

abbrev too_much : Transfer
too_much = record { sender = 2; to = 1; amount = bmt 51 }

small_db-IsSound : IsSound small_db
small_db-IsSound = ground arith

-- the database after the payment
abbrev paid_db : Db
paid_db = record small_db { accounts = holder 1 70 ∷ holder 2 80 ∷ holder 3 30 ∷ [] }

payment_runs : transfer payment small_db ≡ ok paid_db
unfolding transfer get_account get_balance assert_ge modify_account adjust_balance add_balance
    prove_active asset_neg asset_add safe_neg safe_add find_by replace_by checked neg_ℤ ◌+ℤ◌
payment_runs = refl

abbrev release_to_bob : EscrowRelease
release_to_bob = record {
  sender = 1;
  to = 2;
  agent = 3;
  who = 1;
  receiver = 2;
  escrow_id = 7;
  bmt_amount = bmt 15;
}

-- and after the release of a part of the escrow
abbrev released_db : Db
released_db = record paid_db {
  accounts = holder 1 70 ∷ holder 2 95 ∷ holder 3 30 ∷ [];
  escrows = record escrow_of_alice { bmt_balance = bmt 25 } ∷ [];
}

release_runs : escrow_release release_to_bob paid_db ≡ ok released_db
unfolding escrow_release get_escrow release_guards may_release released get_account assert_ge
    modify_account adjust_balance add_balance asset_sub asset_add safe_add safe_sub find_by
    replace_by checked ◌-ℤ◌ ◌+ℤ◌
release_runs = refl

payment-History : History small_db released_db
unfolding apply_operation
payment-History =
    then (escrow_release_operation release_to_bob)
      (then (transfer_operation payment) start tt payment_runs) tt release_runs

History-Preserved_example : Preserved small_db released_db
History-Preserved_example = History-Preserved payment-History small_db-IsSound

clear_expired_orders-Cleared_example : Cleared small_db (clear_expired_orders small_db)
clear_expired_orders-Cleared_example = clear_expired_orders-Cleared small_db small_db-IsSound.1

transfer-Moved_example :
    Gives (λ db'. Moved 1 2 (pos 30) small_db.accounts db'.accounts) (transfer payment small_db)
transfer-Moved_example = transfer-Moved payment small_db (omega arith)

transfer_covered_example : returns (transfer payment small_db) ≡ true
unfolding find_by neg_ℤ ◌+ℤ◌
transfer_covered_example =
    transfer_covered payment small_db refl refl (omega arith) refl refl refl (omega arith)
      (ground arith) (ground arith) (ground arith)

transfer_overdraft_example : transfer too_much small_db ≡ err Error.assertion
unfolding find_by
transfer_overdraft_example = transfer_overdraft too_much small_db refl refl (omega arith)

abbrev dear_bid : ContentOrderCreate
dear_bid = record { author = 3; permlink = 9; owner = 1; price = bmt 25 }

content_order_edit-Gives_example :
    Gives
      (λ db'. total_supply db' ≡ total_supply small_db +ℤ (pos 25 -ℤ pos 15) +ℤ (pos 25 -ℤ pos 15))
      (content_order_create dear_bid small_db)
unfolding find_by asset_eq
content_order_edit-Gives_example =
    content_order_edit-Gives dear_bid bid small_db refl refl refl refl

content_order_cancel-pays_example :
    Gives
      (λ db'.
        (liquid 2 db'.accounts ≡ plus (liquid 2 small_db.accounts) (pos 15))
        × ((k : ℕ) → k ≢ 2 → liquid k db'.accounts ≡ liquid k small_db.accounts))
      (content_order_cancel 2 0 small_db)
unfolding find_by
content_order_cancel-pays_example = content_order_cancel-pays 2 0 bid small_db refl refl

-- the small database with a recorded supply that its objects add up to
abbrev backed_db : Db
backed_db = record small_db { props = record small_db.props { current_supply = bmt 422 } }

abbrev offer : LimitOrderCreate
offer = record {
  owner = 1;
  orderid = 5;
  amount_to_sell = bmt 8;
  min_to_receive = vests 2;
  fill_or_kill = false;
  expiration = 500;
}

abbrev escrow_offer : EscrowTransfer
escrow_offer = record {
  sender = 2;
  to = 1;
  agent = 3;
  escrow_id = 1;
  bmt_amount = bmt 20;
  fee = bmt 2;
  ratification_deadline = 150;
  escrow_expiration = 300;
}

abbrev rejection : EscrowApprove
rejection = record { sender = 1; to = 2; agent = 3; who = 2; escrow_id = 7; approve = false }

match_orders-throws_example :
    Gives
      (λ _. ⊥)
      (match_orders (sale 2 1 5 900) (sale 1 2 12 50) (sale 1 2 12 50).sell_price small_db)
match_orders-throws_example =
    match_orders-throws (sale 2 1 5 900) (sale 1 2 12 50) (sale 1 2 12 50).sell_price small_db

escrow_release-IsAllowed_example :
    Gives
      (λ _.
        (e : Escrow) × (find_by (has_key 1 7) small_db.escrows ≡ some e)
        × IsAllowed 100 release_to_bob e)
      (escrow_release release_to_bob small_db)
escrow_release-IsAllowed_example = escrow_release-IsAllowed release_to_bob small_db

limit_order_cancel_covered_example : returns (limit_order_cancel 2 1 small_db) ≡ true
unfolding find_by ◌+ℤ◌
limit_order_cancel_covered_example =
    limit_order_cancel_covered 2 1 small_db refl refl refl refl (ground arith)

limit_order_cancel-reaches_example :
    Gives
      (λ db.
        (o : LimitOrder) × TakenOut o small_db.limit_orders db.limit_orders
        × (o.seller ≡ 2)
        × (o.orderid ≡ 1)
        × (adjust_balance 2 (amount_for_sale o) small_db.accounts ≡ ok db.accounts))
      (limit_order_cancel 2 65537 small_db)
limit_order_cancel-reaches_example =
    limit_order_cancel-reaches 2 65537 small_db (omega arith, (omega arith, omega arith))

abbrev priced_offer : LimitOrderCreate2
priced_offer = record {
  owner = 2;
  orderid = 6;
  amount_to_sell = bmt 8;
  exchange_rate = record { base = bmt 4; quote = vests 1 };
  fill_or_kill = true;
  expiration = 500;
}

limit_order_create-throws_example :
    Gives (λ _. ⊥) (limit_order_create (record offer { fill_or_kill = true }) small_db)
    × Gives (λ _. ⊥) (limit_order_create2 priced_offer small_db)
limit_order_create-throws_example =
    limit_order_create-throws (record offer { fill_or_kill = true }) priced_offer small_db refl refl
