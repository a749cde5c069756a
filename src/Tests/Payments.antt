-- ===== src/Tests/Payments.antt =====
-- A receipt for credits that is confirmed and settled.
use Prim.Native.String.{String}
use mailagents_email_runtime.Base.{◌≡◌, refl, Bool, true, false, none, some, [], ◌∷◌, arith}
use mailagents_email_runtime.Base.Int.{pos}
use mailagents_email_runtime.Text.{codes, trim}
use mailagents_email_runtime.Json.{Json, bool, num, str, obj, Fields, end, field}
use mailagents_email_runtime.World.{World, Result, ok, err, is_ok, service, create_id, ◌>>◌, pure}
use mailagents_email_runtime.World.Receipts.{PaymentReceipt, PaymentReceiptType, pending, verified}
use mailagents_email_runtime.Billing.{ledger}
use mailagents_email_runtime.Payments.{
  Facilitator, TypedReceipt, Confirmation, by_facilitator, Purchase, receipts, PaymentSettlement,
  confirm_payment, settle_current, finalize_receipt, parse_settle_decision,
  parse_stored_x402_settlement_response,
}
use mailagents_email_runtime.Payments.Frame.{IsRemote}
use mailagents_email_runtime.Payments.Adds.{Adds, confirm_payment-Adds}
use mailagents_email_runtime.Payments.Steps.{Moves, confirm_payment-Moves}
use mailagents_email_runtime.Payments.Settled.{Credits, finalize-Credits}
use mailagents_email_runtime.Payments.Refused.{Declines}
use mailagents_email_runtime.Payments.Unpaid.{settle_current-ledger}
use mailagents_email_runtime.Payments.Storable.{parse-with_receipt_confirmation}
use mailagents_email_runtime.Payments.Replay.{IsRefusedAt, create-IsRefused_again}
use mailagents_email_runtime.Payments.{
  NewReceipt, create_typed_tenant_payment_receipt, create_tenant_payment_receipt, insert_receipt,
  receipt_row, accept_created,
}
use mailagents_email_runtime.Billing.{
  get_typed_credit_ledger_entry_by_payment_receipt_id, append_topup_settlement_ledger_entry,
  append_typed_entry, insert_or_ignore_entry, load_appended, find_appended, accept_appended,
  drop_inserted, reconcile_tenant_available_credits, update_account, get_tenant_billing_account,
  ensure_tenant_billing_account,
}
use mailagents_email_runtime.LedgerMetadata.{
  parse_typed_credit_ledger_entry, serialize_credit_ledger_metadata,
}
use mailagents_email_runtime.Payments.{
  finalize_found, finalize_by_type, settle_topup, settle_new_topup, append_topup, topup_answer,
  mark_settled, settled_update, with_receipt_confirmation,
  update_typed_tenant_payment_receipt_status, update_tenant_payment_receipt_status, write_status,
  update_receipt, get_tenant_payment_receipt_by_id, accept_updated, parse_typed_payment_receipt,
  parse_payment_receipt_metadata, parse_stored_payment_proof, metadata_properties, merge_properties,
  set_property, next_metadata, as_string, is_topup_quote, metadata_base,
}
use mailagents_email_runtime.Base.Int.{◌+ℤ◌, ◌-ℤ◌}
use mailagents_email_runtime.Tests.{world}

abbrev text : String → Json
text s = str (codes s)

abbrev quote : Fields
quote = field "scheme" (text "exact") (
    field "network" (text "base") (
      field "asset" (text "usdc") (
        field "credits" (num (pos 50)) (
          field "amountUsd" (text "5") (
            field "amountAtomic" (text "5000000") (
              field "description" (text "credits") (
                field "paymentRequirements" (obj end) (field "paymentRequired" (obj end) end))))))))

abbrev stored : Json
stored = obj (
    field "receiptType" (text "topup") (
      field "creditsRequested" (num (pos 50)) (
        field "quote" (obj quote)
          (field "paymentProof" (obj (field "raw" (text "proof") end)) end))))

abbrev receipt : PaymentReceipt
receipt = record {
  id = 60;
  tenant_id = 1;
  receipt_type = PaymentReceiptType.topup;
  payment_scheme = codes "exact";
  network = some (codes "base");
  asset = some (codes "usdc");
  amount_atomic = codes "5000000";
  amount_display = none;
  payment_reference = none;
  settlement_reference = none;
  payment_proof_fingerprint = some (codes "f1");
  status = pending;
  metadata = some stored;
  created_at = 5;
  updated_at = 5;
}

abbrev paying_world : World
paying_world = record world { bank = record (world.bank) { receipts = receipt ∷ [] } }

abbrev answers : Bool → Facilitator
answers settles = record {
  post_verify =
      λ _ _ _. pure (record { status = 200; content = some (field "isValid" (bool true) end) });
  post_settle = λ _ _ _.
      service
      >> pure (record {
        status = 200;
        content = some (field "settled" (bool settles) (field "transactionHash" (text "0x1") end));
      });
  key_of = λ t. 900;
}

answers-IsRemote : (b : Bool) → IsRemote (answers b)
unfolding service
answers-IsRemote b = record {
  verify_writes_nothing = λ _ _ _ w. refl;
  settle_writes_nothing = λ _ _ _ w. ground arith;
}

confirm_payment-Adds_example :
    Adds 1 60 (ledger paying_world) (ledger (confirm_payment (answers true) 1 60 paying_world).1)
confirm_payment-Adds_example =
    confirm_payment-Adds (answers true) 1 60 paying_world (answers-IsRemote true)

confirm_payment-Moves_example :
    Moves 1 60 pending
      (receipts paying_world)
      (receipts (confirm_payment (answers true) 1 60 paying_world).1)
confirm_payment-Moves_example =
    confirm_payment-Moves (answers true) 1 60 pending paying_world (answers-IsRemote true)
      ((refl, refl), tt)

abbrev typed : TypedReceipt
typed = record {
  receipt = record receipt { status = verified };
  metadata = record {
    purchase = Purchase.topup (pos 50);
    tenant_did = none;
    quote = quote;
    payment_proof = record { raw = some (codes "proof"); parsed = none };
    confirmation_mode = none;
    facilitator_verify = none;
    facilitator_settle = none;
    facilitator_status_code = none;
    credit_ledger_entry_id = none;
    send_policy_status = none;
  };
}

answers-Declines : Declines (answers false)
unfolding parse_settle_decision service
answers-Declines payload requirements key w v a h = ground arith

settle_current-ledger_example :
    ledger (settle_current (answers false) typed paying_world).1 ≡ ledger paying_world
unfolding parse_stored_x402_settlement_response
settle_current-ledger_example =
    settle_current-ledger (answers false) typed paying_world (answers-IsRemote false)
      answers-Declines refl

abbrev run : Result PaymentSettlement × World
run = finalize_receipt (answers true) none none typed paying_world

-- The settlement of the verified receipt returns.
returned : is_ok run.0 ≡ true
unfolding finalize_receipt service create_id trim
    get_typed_credit_ledger_entry_by_payment_receipt_id append_topup_settlement_ledger_entry
    append_typed_entry insert_or_ignore_entry load_appended find_appended accept_appended
    drop_inserted reconcile_tenant_available_credits update_account get_tenant_billing_account
    ensure_tenant_billing_account parse_typed_credit_ledger_entry serialize_credit_ledger_metadata
    finalize_found finalize_by_type settle_topup settle_new_topup append_topup topup_answer
    mark_settled settled_update with_receipt_confirmation update_typed_tenant_payment_receipt_status
    update_tenant_payment_receipt_status write_status update_receipt
    get_tenant_payment_receipt_by_id accept_updated parse_typed_payment_receipt
    parse_payment_receipt_metadata parse_stored_payment_proof metadata_properties merge_properties
    set_property next_metadata as_string is_topup_quote metadata_base ◌+ℤ◌ ◌-ℤ◌
returned = refl

value_of : {A : Type 0} (x : Result A × World) → is_ok x.0 ≡ true → (a : A) × (x ≡ (ok a, x.1))
value_of (ok a, v) h = (a, refl)
value_of (err e, v) h = cc

finalize-Credits_example : Credits typed (ledger paying_world) (ledger run.1)
finalize-Credits_example =
    finalize-Credits (answers true) none none typed paying_world run.1 (value_of run returned).0
      (value_of run returned).1

-- What is read of the receipt.
stored_typed :
    parse_payment_receipt_metadata PaymentReceiptType.topup (some stored) ≡ some (typed.metadata)
unfolding parse_payment_receipt_metadata parse_stored_payment_proof is_topup_quote as_string
    metadata_base trim
stored_typed = refl

abbrev accepted : Confirmation
accepted = by_facilitator 200 none (some (obj end))

-- What is stored meanwhile has credits of its own.
parse-with_receipt_confirmation_example :
    parse_payment_receipt_metadata PaymentReceiptType.topup (
      next_metadata
        (some (metadata_properties (with_receipt_confirmation (typed.metadata) accepted)))
        (some (field "creditsRequested" (num (pos 7)) end)))
    ≡ some (with_receipt_confirmation (typed.metadata) accepted)
unfolding as_string
parse-with_receipt_confirmation_example =
    parse-with_receipt_confirmation PaymentReceiptType.topup (some stored) (typed.metadata) accepted
      (some (field "creditsRequested" (num (pos 7)) end)) stored_typed refl

abbrev new_receipt : NewReceipt
new_receipt = record {
  tenant_id = 1;
  receipt_type = PaymentReceiptType.topup;
  payment_scheme = codes "exact";
  amount_atomic = codes "5000000";
  status = pending;
  network = none;
  asset = none;
  amount_display = none;
  payment_reference = none;
  settlement_reference = none;
  payment_proof_fingerprint = some (codes "f2");
  metadata = typed.metadata;
}

abbrev creation : Result TypedReceipt × World
creation = create_typed_tenant_payment_receipt new_receipt paying_world

created : is_ok creation.0 ≡ true
unfolding create_typed_tenant_payment_receipt create_tenant_payment_receipt insert_receipt
    receipt_row accept_created create_id service parse_typed_payment_receipt
    parse_payment_receipt_metadata parse_stored_payment_proof metadata_properties merge_properties
    set_property as_string is_topup_quote metadata_base trim
created = refl

-- The second creation is another tenant's.
create-IsRefused_again_example :
    IsRefusedAt (receipts (confirm_payment (answers true) 1 60 creation.1).1) (
      create_typed_tenant_payment_receipt
        (record new_receipt { tenant_id = 2 })
        (confirm_payment (answers true) 1 60 creation.1).1)
create-IsRefused_again_example =
    create-IsRefused_again (codes "f2") (answers true) new_receipt
      (record new_receipt { tenant_id = 2 }) 1 60 paying_world creation.1
      (value_of creation created).0 (answers-IsRemote true) refl refl (value_of creation created).1
