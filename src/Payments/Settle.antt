-- ===== src/Payments/Settle.antt =====
-- finalizePaymentReceiptSettlement of src/routes/api.ts: the credits of a confirmed receipt are
-- entered in the ledger, and the receipt is settled.
use Prim.Native.String.{String}
use mailagents_email_runtime.Base.{ℕ, Bool, true, false, not, Option, none, some, if◌then◌else◌}
use mailagents_email_runtime.Base.Int.{ℤ}
use mailagents_email_runtime.Text.{Text}
use mailagents_email_runtime.Json.{Json}
use mailagents_email_runtime.World.{
  TenantOutboundStatus, BillingAccount, Action, ◌>>=◌, ◌>>◌, route_request, pure, throw, throw_if,
}
use mailagents_email_runtime.World.Receipts.{PaymentReceiptStatus, settled}
use mailagents_email_runtime.LedgerMetadata.{
  ConfirmationMode, manual_admin, facilitator, Settlement,
}
use mailagents_email_runtime.Billing.{
  TypedEntry, NewEntry, chosen, append_topup_settlement_ledger_entry,
  is_topup_settlement_ledger_entry, reconcile_tenant_available_credits,
}
use mailagents_email_runtime.Policy.{TenantSendPolicy}
use mailagents_email_runtime.Credits.{key_text}
use mailagents_email_runtime.Payments.Metadata.{ReceiptMetadata, Purchase, topup, upgrade}
use mailagents_email_runtime.Payments.Stored.{Confirmation, with_receipt_confirmation}
use mailagents_email_runtime.Payments.Exchange.{Facilitator}
use mailagents_email_runtime.Payments.Receipts.{
  TypedReceipt, ReceiptUpdate, update_typed_tenant_payment_receipt_status,
}
use mailagents_email_runtime.Payments.Confirm.{Outcome, to_status}

-- what a settlement answers with
pub record PaymentSettlement : Type 0 where
  pub receipt : TypedReceipt
  pub ledger_entry : TypedEntry
  pub account : BillingAccount
  pub send_policy : Option TenantSendPolicy

abbrev pub is_settled : PaymentReceiptStatus → Bool
is_settled settled = true
is_settled _ = false

abbrev pub mode_of : Option Outcome → ConfirmationMode
mode_of none = manual_admin
mode_of (some _) = facilitator

abbrev pub verify_of : Option Outcome → Option Json
verify_of none = none
verify_of (some o) = o.verify_response

abbrev pub settle_of : Option Outcome → Option Json
settle_of none = none
settle_of (some o) = o.settle_response

abbrev pub payment_reference_of : Option Outcome → Option Text
payment_reference_of none = none
payment_reference_of (some o) = o.payment_reference

abbrev pub key_of_reference : Facilitator → Option Text → Option ℕ
key_of_reference f none = none
key_of_reference f (some t) = some (f.key_of t)

-- The settlement of a receipt, by the outcome of its confirmation.
module _ (f : Facilitator) (outcome : Option Outcome) (requested : Option Text)
    (r : TypedReceipt) where
  abbrev pub settlement_of : ℤ → Settlement
  settlement_of credits = record {
    confirmation_mode = mode_of outcome;
    credits = credits;
    facilitator_verify = verify_of outcome;
    facilitator_settle = settle_of outcome;
  }

  -- the entry that a receipt is settled with
  abbrev pub receipt_entry : ℤ → String → NewEntry
  receipt_entry credits reason = record {
    tenant_id = r.receipt.tenant_id;
    credits_delta = credits;
    reason = reason;
    payment_receipt_id = some r.receipt.id;
    reference_id = key_of_reference f (chosen requested r.receipt.settlement_reference);
  }

  abbrev pub confirmation : TypedEntry → Option TenantOutboundStatus → Confirmation
  confirmation e policy = record {
    mode = mode_of outcome;
    status_code = none;
    verify = verify_of outcome;
    settle = settle_of outcome;
    credit_ledger_entry_id = some (key_text e.entry.id);
    send_policy_status = policy;
  }

  unfoldable pub settled_update : ReceiptMetadata → Confirmation → ReceiptUpdate
  unfolding with_receipt_confirmation
  settled_update m c =
      to_status r settled (payment_reference_of outcome) requested (with_receipt_confirmation m c)

  unfoldable pub mark_settled : ReceiptMetadata → Confirmation → Action TypedReceipt
  mark_settled m c = update_typed_tenant_payment_receipt_status (settled_update m c)

  unfoldable pub mark_unsettled : TypedEntry → Action TypedReceipt
  mark_unsettled e =
      if is_settled r.receipt.status then pure r else mark_settled r.metadata (confirmation e none)

  unfoldable pub topup_answer : TypedEntry → Action TypedReceipt → Action PaymentSettlement
  topup_answer e mark = do
    account ← reconcile_tenant_available_credits r.receipt.tenant_id
    marked ← mark
    pure (record { receipt = marked; ledger_entry = e; account = account; send_policy = none })

  unfoldable pub append_topup : ℤ → Action TypedEntry
  append_topup credits =
      append_topup_settlement_ledger_entry
        (receipt_entry credits (elim outcome [
          | some _ ↦ "facilitator_payment_settlement"
          | none ↦ "manual_payment_confirmation"
        ]))
        (settlement_of credits)

  unfoldable pub settle_new_topup : Purchase → Action PaymentSettlement
  settle_new_topup (upgrade _) = throw (route_request 409)
  settle_new_topup (topup credits) = do
    e ← append_topup credits
    topup_answer e (mark_settled r.metadata (confirmation e none))

  unfoldable pub settle_topup : Option TypedEntry → Action PaymentSettlement
  settle_topup none = settle_new_topup r.metadata.purchase
  settle_topup (some e) = do
    throw_if (not (is_topup_settlement_ledger_entry e)) (route_request 409)
    topup_answer e (mark_unsettled e)
