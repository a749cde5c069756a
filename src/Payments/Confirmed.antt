-- ===== src/Payments/Confirmed.antt =====
-- A confirmation and a settlement keep a predicate of the ledger and the receipts that each of
-- their writes on these tables keeps.
use mailagents_email_runtime.Base.{ℕ, ◌≡◌, refl, ◌≢◌, Option, none, some, List, ◌&&◌, get_or}
use mailagents_email_runtime.Json.{Json, null}
use mailagents_email_runtime.Text.{Text}
use mailagents_email_runtime.World.{World, LedgerEntry, pure}
use mailagents_email_runtime.World.Receipts.{
  PaymentReceipt, PaymentReceiptStatus, pending, verified, settled, failed, refunded,
}
use mailagents_email_runtime.Payments.Metadata.{ReceiptMetadata}
use mailagents_email_runtime.Payments.Stored.{
  get_receipt_payment_requirements, get_receipt_payment_payload, is_truthy,
}
use mailagents_email_runtime.Payments.Exchange.{Facilitator, Verification, Settling}
use mailagents_email_runtime.Payments.Answers.{Answered, verify_x402_payment, settle_x402_payment}
use mailagents_email_runtime.Payments.Receipts.{
  ReceiptUpdate, TypedReceipt, update_typed_tenant_payment_receipt_status,
}
use mailagents_email_runtime.Payments.Confirm.{
  Outcome, settle_working, record_settling, settled_outcome, settling_update, verifying_update,
  record_verifying, after_verifying, refused, verify_pending, settle_again, confirm_status,
  rejected_outcome, confirm_payment_receipt_with_facilitator,
}
use mailagents_email_runtime.Payments.Frame.{IsRemote, OfTables, verify-Keeps, settle-Keeps}
use mailagents_email_runtime.Payments.Rules.{
  Ensures, if-Ensures, bind-Ensures, bind_keeping-Ensures,
}

-- a receipt of this key
abbrev pub Mine : ℕ → ℕ → TypedReceipt → Type 0
Mine t id r = (r.receipt.tenant_id ≡ t) × (r.receipt.id ≡ id)

-- An update of the receipt to a status that is allowed keeps the predicate.
abbrev pub KeepsUpdates :
    (List LedgerEntry → List PaymentReceipt → Type 0)
    → ℕ
    → ℕ
    → (PaymentReceiptStatus → Type 0)
    → Type 0
KeepsUpdates Q t id Allowed =
    (u : ReceiptUpdate)
    → u.tenant_id ≡ t
    → u.receipt_id ≡ id
    → Allowed u.status
    → Ensures (OfTables Q) (Mine t id) (update_typed_tenant_payment_receipt_status u)

module _ (Q : List LedgerEntry → List PaymentReceipt → Type 0) (t id : ℕ)
    (Allowed : PaymentReceiptStatus → Type 0) (updates : KeepsUpdates Q t id Allowed)
    (f : Facilitator) (remote : IsRemote f) where
  abbrev P : World → Type 0
  P = OfTables Q

  abbrev pub MineOutcome : Outcome → Type 0
  MineOutcome o = Mine t id o.receipt

  module _ (m : ReceiptMetadata) (requested : Option Text) (requirements payload : Json) where
    record_settling-Ensures :
        (r : TypedReceipt) (v : Option Json) (s : Answered Settling)
        → Mine t id r
        → Allowed verified
        → Ensures P (Mine t id) (record_settling f m requested requirements payload r v s)
    unfolding record_settling settling_update
    record_settling-Ensures r v s h ok_verified =
        updates (settling_update f m requested requirements payload r v s) h.0 h.1 ok_verified

    settle_working-Ensures :
        (r : TypedReceipt) (v : Option Json)
        → Mine t id r
        → Allowed verified
        → Ensures P MineOutcome (settle_working f m requested requirements payload r v)
    unfolding settle_working settled_outcome
    settle_working-Ensures r v h ok_verified =
        bind_keeping-Ensures P MineOutcome (settle_x402_payment f payload requirements r.receipt.id)
          _ (settle-Keeps Q f remote payload requirements r.receipt.id)
          (λ s.
            bind-Ensures P (Mine t id) MineOutcome
              (record_settling f m requested requirements payload r v s) _
              (record_settling-Ensures r v s h ok_verified) (λ u mine w p. (p, mine)))

    record_verifying-Ensures :
        (r : TypedReceipt) (s : PaymentReceiptStatus) (v : Answered Verification)
        → Mine t id r
        → Allowed s
        → Ensures P (Mine t id) (record_verifying f m requested requirements payload r s v)
    unfolding record_verifying verifying_update
    record_verifying-Ensures r s v h allowed =
        updates (verifying_update f m requested requirements payload r s v) h.0 h.1 allowed

    after_verifying-Ensures :
        (r : TypedReceipt) (v : Answered Verification)
        → Mine t id r
        → Allowed verified
        → Allowed failed
        → Ensures P MineOutcome (after_verifying f m requested requirements payload r v)
    unfolding after_verifying rejected_outcome
    after_verifying-Ensures r v h ok_verified ok_failed =
        if-Ensures P MineOutcome v.response.is_valid _ _
          (λ _.
            bind-Ensures P (Mine t id) MineOutcome
              (record_verifying f m requested requirements payload r verified v) _
              (record_verifying-Ensures r verified v h ok_verified)
              (λ u mine. settle_working-Ensures u _ mine ok_verified))
          (λ _.
            bind-Ensures P (Mine t id) MineOutcome
              (record_verifying f m requested requirements payload r failed v) _
              (record_verifying-Ensures r failed v h ok_failed) (λ u mine w p. (p, mine)))

    settle_again-Ensures :
        (r : TypedReceipt) (s : Option Settling)
        → Mine t id r
        → Allowed verified
        → Ensures P MineOutcome (settle_again f m requested requirements payload r s)
    unfolding settle_again
    settle_again-Ensures r none h ok_verified = settle_working-Ensures r _ h ok_verified
    settle_again-Ensures r (some s) h ok_verified =
        if-Ensures P MineOutcome s.settled _ _ (λ _ w p. (p, h))
          (λ _. settle_working-Ensures r _ h ok_verified)

    pending-Ensures :
        (r : TypedReceipt)
        → Mine t id r
        → Allowed verified
        → Allowed failed
        → Ensures P MineOutcome (verify_pending f m requested requirements payload r)
    unfolding verify_pending
    pending-Ensures r h ok_verified ok_failed =
        bind_keeping-Ensures P MineOutcome (verify_x402_payment f payload requirements r.receipt.id)
          _ (verify-Keeps Q f remote payload requirements r.receipt.id)
          (λ v. after_verifying-Ensures r v h ok_verified ok_failed)

    -- the statuses that a confirmation may write
    pub confirm_status-Ensures :
        (r : TypedReceipt) (s : PaymentReceiptStatus)
        → Mine t id r
        → (s ≢ failed → Allowed verified)
        → (s ≡ pending → Allowed failed)
        → Ensures P MineOutcome (confirm_status f m requested requirements payload r s)
    unfolding confirm_status
    confirm_status-Ensures r failed h a b = λ w p. (p, h)
    confirm_status-Ensures r pending h a b = pending-Ensures r h (a (λ e. cc)) (b refl)
    confirm_status-Ensures r verified h a b = settle_again-Ensures r _ h (a (λ e. cc))
    confirm_status-Ensures r settled h a b = settle_again-Ensures r _ h (a (λ e. cc))
    confirm_status-Ensures r refunded h a b = settle_again-Ensures r _ h (a (λ e. cc))

  pub confirm-Ensures :
      (r : TypedReceipt) (requested : Option Text)
      → Mine t id r
      → (r.receipt.status ≢ failed → Allowed verified)
      → (r.receipt.status ≡ pending → Allowed failed)
      → Ensures P MineOutcome (confirm_payment_receipt_with_facilitator f r requested)
  unfolding confirm_payment_receipt_with_facilitator
  confirm-Ensures r requested h a b =
      if-Ensures P MineOutcome
        (is_truthy (get_receipt_payment_requirements r.metadata)
          && is_truthy (get_receipt_payment_payload r.metadata))
        _ (pure (refused r))
        (λ _.
          confirm_status-Ensures r.metadata requested
            (get_or (get_receipt_payment_requirements r.metadata) null)
            (get_or (get_receipt_payment_payload r.metadata) null) r r.receipt.status h a b)
        (λ _ w p. (p, h))
