-- ===== src/Payments/Confirm.antt =====
-- confirmPaymentReceiptWithFacilitator of src/routes/api.ts: a receipt is verified with the payment
-- facilitator, where it is pending, and then settled with it.
use mailagents_email_runtime.Base.{ℕ, ◌&&◌, Option, none, some, if◌then◌else◌, get_or}
use mailagents_email_runtime.Base.Int.{pos}
use mailagents_email_runtime.Text.{Text}
use mailagents_email_runtime.Json.{Json, null}
use mailagents_email_runtime.World.{Action, ◌>>=◌, pure}
use mailagents_email_runtime.World.Receipts.{PaymentReceiptStatus, pending, verified, failed}
use mailagents_email_runtime.LedgerMetadata.{facilitator}
use mailagents_email_runtime.Billing.{chosen}
use mailagents_email_runtime.Payments.Metadata.{ReceiptMetadata}
use mailagents_email_runtime.Payments.Stored.{
  Confirmation, with_receipt_confirmation, metadata_properties, is_truthy,
  get_receipt_payment_requirements, get_receipt_payment_payload,
}
use mailagents_email_runtime.Payments.Exchange.{
  Facilitator, Verification, Settling, verification_json, settling_json,
}
use mailagents_email_runtime.Payments.Answers.{
  Answered, parse_stored_x402_verification_response, parse_stored_x402_settlement_response,
  verify_x402_payment, settle_x402_payment,
}
use mailagents_email_runtime.Payments.Receipts.{
  TypedReceipt, ReceiptUpdate, update_typed_tenant_payment_receipt_status,
}

-- what a confirmation gives; `failure` is the status of its failure response
pub record Outcome : Type 0 where
  pub receipt : TypedReceipt
  pub payment_reference : Option Text
  pub settlement_reference : Option Text
  pub verify_response : Option Json
  pub settle_response : Option Json
  pub failure : Option ℕ

abbrev pub refused : TypedReceipt → Outcome
refused r = record {
  receipt = r;
  payment_reference = none;
  settlement_reference = none;
  verify_response = none;
  settle_response = none;
  failure = some 409;
}

-- a confirmation by the facilitator
abbrev pub by_facilitator : ℕ → Option Json → Option Json → Confirmation
by_facilitator status verify settle = record {
  mode = facilitator;
  status_code = some (pos status);
  verify = verify;
  settle = settle;
  credit_ledger_entry_id = none;
  send_policy_status = none;
}

-- the update of a receipt to a status, with references and metadata
abbrev pub to_status :
    TypedReceipt
    → PaymentReceiptStatus
    → Option Text
    → Option Text
    → ReceiptMetadata
    → ReceiptUpdate
to_status r status payment settlement m = record {
  tenant_id = r.receipt.tenant_id;
  receipt_id = r.receipt.id;
  status = status;
  payment_reference = payment;
  settlement_reference = settlement;
  metadata = some (metadata_properties m);
}

-- The confirmation of a receipt with metadata `m`, from its last part backwards.
module _ (f : Facilitator) (m : ReceiptMetadata) (requested : Option Text)
    (requirements payload : Json) where
  unfoldable pub settled_outcome :
      TypedReceipt → Option Json → Answered Settling → TypedReceipt → Outcome
  unfolding settling_json
  settled_outcome working verify s updated = record {
    receipt = updated;
    payment_reference =
        if s.response.settled
        then working.receipt.payment_reference
        else updated.receipt.payment_reference;
    settlement_reference = chosen s.response.settlement_reference requested;
    verify_response = verify;
    settle_response = some (settling_json s.response);
    failure = if s.response.settled then none else some 402;
  }

  unfoldable pub settling_update : TypedReceipt → Option Json → Answered Settling → ReceiptUpdate
  unfolding settling_json with_receipt_confirmation
  settling_update working verify s =
      to_status working verified working.receipt.payment_reference
        (chosen s.response.settlement_reference requested)
        (with_receipt_confirmation m
          (by_facilitator s.status verify (some (settling_json s.response))))

  unfoldable pub record_settling :
      TypedReceipt → Option Json → Answered Settling → Action TypedReceipt
  record_settling working verify s =
      update_typed_tenant_payment_receipt_status (settling_update working verify s)

  unfoldable pub settle_working : TypedReceipt → Option Json → Action Outcome
  settle_working working verify = do
    s ← settle_x402_payment f payload requirements working.receipt.id
    updated ← record_settling working verify s
    pure (settled_outcome working verify s updated)

  unfoldable pub verifying_update :
      TypedReceipt → PaymentReceiptStatus → Answered Verification → ReceiptUpdate
  unfolding verification_json with_receipt_confirmation
  verifying_update r status v = to_status r status v.response.payment_reference none (
      with_receipt_confirmation m
        (by_facilitator v.status (some (verification_json v.response)) none))

  unfoldable pub record_verifying :
      TypedReceipt → PaymentReceiptStatus → Answered Verification → Action TypedReceipt
  record_verifying r status v =
      update_typed_tenant_payment_receipt_status (verifying_update r status v)

  unfoldable pub rejected_outcome : Answered Verification → TypedReceipt → Outcome
  unfolding verification_json
  rejected_outcome v failed_receipt = record {
    receipt = failed_receipt;
    payment_reference = v.response.payment_reference;
    settlement_reference = none;
    verify_response = some (verification_json v.response);
    settle_response = none;
    failure = some 402;
  }

  unfoldable pub after_verifying : TypedReceipt → Answered Verification → Action Outcome
  unfolding verification_json
  after_verifying r v =
      if v.response.is_valid
      then (do
        working ← record_verifying r verified v
        settle_working working (some (verification_json v.response)))
      else (do
        failed_receipt ← record_verifying r failed v
        pure (rejected_outcome v failed_receipt))

  unfoldable pub verify_pending : TypedReceipt → Action Outcome
  verify_pending r = verify_x402_payment f payload requirements r.receipt.id >>= after_verifying r

  abbrev stored_verify : Option Json
  unfolding parse_stored_x402_verification_response verification_json
  stored_verify = elim (parse_stored_x402_verification_response m.facilitator_verify) [
    | none ↦ none
    | some v ↦ some (verification_json v)
  ]

  abbrev stored_outcome : TypedReceipt → Settling → Outcome
  unfolding settling_json stored_verify
  stored_outcome r s = record {
    receipt = r;
    payment_reference = r.receipt.payment_reference;
    settlement_reference =
        chosen s.settlement_reference (chosen r.receipt.settlement_reference requested);
    verify_response = stored_verify;
    settle_response = some (settling_json s);
    failure = none;
  }

  -- A settlement that is stored is not asked for again.
  unfoldable pub settle_again : TypedReceipt → Option Settling → Action Outcome
  unfolding stored_verify stored_outcome
  settle_again r none = settle_working r stored_verify
  settle_again r (some s) =
      if s.settled then pure (stored_outcome r s) else settle_working r stored_verify

  unfoldable pub confirm_status : TypedReceipt → PaymentReceiptStatus → Action Outcome
  confirm_status r failed = pure (refused r)
  confirm_status r pending = verify_pending r
  confirm_status r _ = settle_again r (parse_stored_x402_settlement_response m.facilitator_settle)

unfoldable pub confirm_payment_receipt_with_facilitator :
    Facilitator → TypedReceipt → Option Text → Action Outcome
confirm_payment_receipt_with_facilitator f r requested =
    let requirements = get_receipt_payment_requirements r.metadata in
    let payload = get_receipt_payment_payload r.metadata in
    if is_truthy requirements && is_truthy payload
    then confirm_status f r.metadata requested (get_or requirements null) (get_or payload null) r
        r.receipt.status
    else pure (refused r)
