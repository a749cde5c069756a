-- ===== src/Payments/Current.antt =====
-- The settlement of a receipt, as the retry runs it, keeps a predicate of the ledger and the receipts
-- that its writes keep.
use mailagents_email_runtime.Base.{
  ℕ, ◌≡◌, refl, ◌≢◌, ◌⊎◌, inl, inr, true, false, Option, none, some, List, arith, Bool-cases, ◌&&◌,
}
use mailagents_email_runtime.Json.{Json}
use mailagents_email_runtime.World.{World, LedgerEntry, ◌>>=◌, pure, Keeps, bind-Keeps}
use mailagents_email_runtime.World.Receipts.{
  PaymentReceipt, PaymentReceiptStatus, pending, verified, settled, failed, refunded,
}
use mailagents_email_runtime.Payments.Stored.{
  is_truthy, get_receipt_payment_requirements, get_receipt_payment_payload,
}
use mailagents_email_runtime.Payments.Exchange.{Facilitator}
use mailagents_email_runtime.Payments.Receipts.{TypedReceipt}
use mailagents_email_runtime.Payments.Confirm.{
  Outcome, refused, confirm_status, confirm_payment_receipt_with_facilitator,
}
use mailagents_email_runtime.Payments.Settle.{is_settled}
use mailagents_email_runtime.Payments.Finalize.{finalized, finalize_payment_receipt_settlement}
use mailagents_email_runtime.Payments.Retry.{
  Response, refusal, settlement, answer_outcome, confirm_outcome, outcome_of, settle_current,
}
use mailagents_email_runtime.Payments.Frame.{IsRemote, OfTables}
use mailagents_email_runtime.Payments.Rules.{
  Ensures, bind-Ensures, Ensures-of_Keeps, Keeps-of_Ensures,
}
use mailagents_email_runtime.Payments.Confirmed.{Mine, MineOutcome, KeepsUpdates, confirm-Ensures}
use mailagents_email_runtime.Payments.Finalized.{KeepsAppends, finalize-Keeps}

pub failed-cases : (s : PaymentReceiptStatus) → (s ≡ failed) ⊎ (s ≢ failed)
failed-cases failed = inl refl
failed-cases pending = inr (λ e. cc)
failed-cases verified = inr (λ e. cc)
failed-cases settled = inr (λ e. cc)
failed-cases refunded = inr (λ e. cc)

pub is_settled-ne-failed : (s : PaymentReceiptStatus) → is_settled s ≡ true → s ≢ failed
is_settled-ne-failed settled h = λ e. cc
is_settled-ne-failed failed h = λ e. cc
is_settled-ne-failed pending h = λ e. cc
is_settled-ne-failed verified h = λ e. cc
is_settled-ne-failed refunded h = λ e. cc

-- A receipt that has failed is refused.
pub confirm_failed :
    (f : Facilitator) (r : TypedReceipt) (w : World)
    → r.receipt.status ≡ failed
    → confirm_payment_receipt_with_facilitator f r none w ≡ (pure (refused r) w)
unfolding confirm_payment_receipt_with_facilitator confirm_status
confirm_failed f r w h = elim (Bool-cases (is_truthy requirements && is_truthy payload)) [
  | inl e ↦ rw (e, h) refl
  | inr e ↦ rw e refl
]
  where
    requirements : Option Json
    requirements = get_receipt_payment_requirements r.metadata

    payload : Option Json
    payload = get_receipt_payment_payload r.metadata

module _ (Q : List LedgerEntry → List PaymentReceipt → Type 0) (t id : ℕ)
    (Allowed : PaymentReceiptStatus → Type 0) (updates : KeepsUpdates Q t id Allowed)
    (appends : KeepsAppends Q t id) (f : Facilitator) (remote : IsRemote f) (r : TypedReceipt)
    (mine : Mine t id r) where
  abbrev P : World → Type 0
  P = OfTables Q

  answer_finalized :
      (o : Option Outcome)
      → Mine t id (finalized o r)
      → Allowed settled
      → Keeps P (finalize_payment_receipt_settlement f r o none)
  unfolding finalize_payment_receipt_settlement
  answer_finalized o h a =
      finalize-Keeps Q t id Allowed updates appends f o none (finalized o r) h a

  answer_outcome-Keeps :
      (o : Option Outcome)
      → Mine t id (finalized o r)
      → Allowed settled
      → Keeps P (answer_outcome f r o)
  unfolding answer_outcome
  answer_outcome-Keeps none h a =
      bind-Keeps P (finalize_payment_receipt_settlement f r none none) _ (answer_finalized none h a)
        (λ s w p. p)
  answer_outcome-Keeps (some o) h a = go o.failure
    where
      go :
          (x : Option ℕ)
          → Keeps P (elim x [
            | some status ↦ pure (refusal status)
            | none ↦
                finalize_payment_receipt_settlement f r (some o) none >>= λ s. pure (settlement s)
          ])
      go (some status) = λ w p. p
      go none =
          bind-Keeps P (finalize_payment_receipt_settlement f r (some o) none) _
            (answer_finalized (some o) h a) (λ s w p. p)

  confirm_outcome-Ensures :
      (r.receipt.status ≢ failed → Allowed verified)
      → (r.receipt.status ≡ pending → Allowed failed)
      → Ensures P (λ o. Mine t id (finalized o r)) (confirm_outcome f r)
  unfolding confirm_outcome
  confirm_outcome-Ensures a b =
      bind-Ensures P (MineOutcome Q t id Allowed updates f remote) (λ o. Mine t id (finalized o r))
        (confirm_payment_receipt_with_facilitator f r none) _
        (confirm-Ensures Q t id Allowed updates f remote r none mine a b) (λ o h w p. (p, h))

  failed-Keeps : r.receipt.status ≡ failed → Keeps P (settle_current f r)
  unfolding settle_current outcome_of confirm_outcome answer_outcome
  failed-Keeps h w p = ground (arith, confirm_failed f r w h)

  live-Keeps :
      (is_settled r.receipt.status ≡ false → r.receipt.status ≢ failed → Allowed verified)
      → (r.receipt.status ≡ pending → Allowed failed)
      → (r.receipt.status ≢ failed → Allowed settled)
      → r.receipt.status ≢ failed
      → Keeps P (settle_current f r)
  unfolding settle_current outcome_of
  live-Keeps a b c live = elim (Bool-cases (is_settled r.receipt.status)) [
    | inl e ↦ rw e (answer_outcome-Keeps none mine (c live))
    | inr e ↦ rw e (
        Keeps-of_Ensures P (λ (_ : Response). Unit {0}) _
          (bind-Ensures P (λ o. Mine t id (finalized o r)) (λ _. Unit {0}) (confirm_outcome f r)
            (answer_outcome f r) (confirm_outcome-Ensures (a e) b)
            (λ o h.
              Ensures-of_Keeps P (λ _. Unit {0}) (answer_outcome f r o)
                (answer_outcome-Keeps o h (c live)) (λ w x v e. tt))))
  ]

  -- The statuses that are written: verified for a receipt that has neither failed nor been settled,
  -- failed for one that is pending, settled for one that has not failed.
  pub settle_current-Keeps :
      (is_settled r.receipt.status ≡ false → r.receipt.status ≢ failed → Allowed verified)
      → (r.receipt.status ≡ pending → Allowed failed)
      → (r.receipt.status ≢ failed → Allowed settled)
      → Keeps P (settle_current f r)
  settle_current-Keeps a b c = elim (failed-cases r.receipt.status) [
    | inl h ↦ failed-Keeps h
    | inr h ↦ live-Keeps a b c h
  ]
