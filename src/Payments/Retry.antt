-- ===== src/Payments/Retry.antt =====
-- The retry of a settlement by the identifier of its receipt: POST /v1/billing/payment/confirm of
-- src/routes/api.ts from the look-up of the receipt, withRefreshedPaymentReceipt and
-- attemptAutomaticPaymentSettlement.
use mailagents_email_runtime.Base.{
  ℕ, Bool, true, false, not, ◌&&◌, ◌||◌, Option, none, some, if◌then◌else◌, is_some, ◌==◌,
}
use mailagents_email_runtime.Text.{Text, text_eq}
use mailagents_email_runtime.World.{Action, Failure, ◌>>=◌, pure, throw, catch_with}
use mailagents_email_runtime.World.Receipts.{
  PaymentReceipt, PaymentReceiptStatus, pending, verified, settled, failed, refunded,
}
use mailagents_email_runtime.Billing.{
  TypedEntry, get_typed_credit_ledger_entry_by_payment_receipt_id,
}
use mailagents_email_runtime.Payments.Exchange.{Facilitator}
use mailagents_email_runtime.Payments.Receipts.{
  TypedReceipt, get_typed_tenant_payment_receipt_by_id,
}
use mailagents_email_runtime.Payments.Confirm.{Outcome, confirm_payment_receipt_with_facilitator}
use mailagents_email_runtime.Payments.Settle.{PaymentSettlement, is_settled}
use mailagents_email_runtime.Payments.Finalize.{finalize_payment_receipt_settlement}

-- the response: a refusal with its status, or the settlement
pub data Response : Type 0 where
  refusal : ℕ → Response
  settlement : PaymentSettlement → Response

abbrev pub failure_of : Option Outcome → Option ℕ
failure_of none = none
failure_of (some o) = o.failure

module _ (f : Facilitator) where
  unfoldable pub answer_outcome : TypedReceipt → Option Outcome → Action Response
  answer_outcome r outcome = elim (failure_of outcome) [
    | some status ↦ pure (refusal status)
    | none ↦ do s ← finalize_payment_receipt_settlement f r outcome none; pure (settlement s)
  ]

  unfoldable pub confirm_outcome : TypedReceipt → Action (Option Outcome)
  confirm_outcome r = confirm_payment_receipt_with_facilitator f r none >>= λ o. pure (some o)

  -- A receipt that is settled is not confirmed again.
  unfoldable pub outcome_of : TypedReceipt → Action (Option Outcome)
  outcome_of r = if is_settled r.receipt.status then pure none else confirm_outcome r

  unfoldable pub settle_current : TypedReceipt → Action Response
  settle_current r = outcome_of r >>= answer_outcome r

  unfoldable pub attempt_automatic_payment_settlement : TypedReceipt → Action Response
  attempt_automatic_payment_settlement r = confirm_outcome r >>= answer_outcome r

abbrev pub same_status : PaymentReceiptStatus → PaymentReceiptStatus → Bool
same_status pending pending = true
same_status verified verified = true
same_status settled settled = true
same_status failed failed = true
same_status refunded refunded = true
same_status _ _ = false

abbrev pub same_optional : Option Text → Option Text → Bool
same_optional none none = true
same_optional (some a) (some b) = text_eq a b
same_optional _ _ = false

abbrev pub receipt_changed : PaymentReceipt → PaymentReceipt → Bool
receipt_changed a b =
    not (b.updated_at == a.updated_at)
    || not (same_status b.status a.status)
    || not (same_optional b.payment_reference a.payment_reference)
    || not (same_optional b.settlement_reference a.settlement_reference)

-- `getTypedCreditLedgerEntryByPaymentReceiptId(…).catch(() => null)`
abbrev pub entry_or_null : TypedReceipt → Action (Option TypedEntry)
entry_or_null r =
    catch_with
      (get_typed_credit_ledger_entry_by_payment_receipt_id r.receipt.tenant_id r.receipt.id)
      (λ _. pure none)

abbrev pub receipt_or_null : TypedReceipt → Action (Option TypedReceipt)
receipt_or_null r =
    catch_with (get_typed_tenant_payment_receipt_by_id r.receipt.tenant_id r.receipt.id)
      (λ _. pure none)

module _ (action : TypedReceipt → Action Response) where
  -- The action is run again on the receipt as it is now, where it or its entry has changed.
  unfoldable pub retry_changed :
      TypedReceipt
      → Option TypedEntry
      → Failure
      → Option TypedReceipt
      → Option TypedEntry
      → Action Response
  retry_changed r initial e none entry = throw e
  retry_changed r initial e (some refreshed) entry =
      if receipt_changed r.receipt refreshed.receipt || (not (is_some initial) && is_some entry)
      then action refreshed
      else throw e

  unfoldable pub retry_refreshed : TypedReceipt → Option TypedEntry → Failure → Action Response
  unfolding retry_changed
  retry_refreshed r initial e = do
    refreshed ← receipt_or_null r
    entry ← entry_or_null r
    retry_changed r initial e refreshed entry

  unfoldable pub with_refreshed_payment_receipt : TypedReceipt → Action Response
  with_refreshed_payment_receipt r = do
    initial ← entry_or_null r
    catch_with (action r) (retry_refreshed r initial)

abbrev pub is_failed : PaymentReceiptStatus → Bool
is_failed failed = true
is_failed _ = false

unfoldable pub confirm_found : Facilitator → Option TypedReceipt → Action Response
confirm_found f none = pure (refusal 404)
confirm_found f (some r) =
    if is_failed r.receipt.status
    then pure (refusal 409)
    else with_refreshed_payment_receipt (settle_current f) r

unfoldable pub confirm_payment : Facilitator → ℕ → ℕ → Action Response
confirm_payment f t id = get_typed_tenant_payment_receipt_by_id t id >>= confirm_found f
