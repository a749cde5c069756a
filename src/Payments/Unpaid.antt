-- ===== src/Payments/Unpaid.antt =====
-- No credits are entered for a payment that the facilitator has not settled.
use mailagents_email_runtime.Base.{
  ◌≡◌, refl, ap, sym, ◌∙◌, inl, inr, true, false, Option, none, some, arith, is_some, Bool-cases,
}
use mailagents_email_runtime.World.{World, Result, ok, err, pure, continue}
use mailagents_email_runtime.Billing.{
  ledger, TypedEntry, get_typed_credit_ledger_entry_by_payment_receipt_id,
}
use mailagents_email_runtime.Payments.Exchange.{Facilitator}
use mailagents_email_runtime.Payments.Receipts.{TypedReceipt}
use mailagents_email_runtime.Payments.Confirm.{Outcome, confirm_payment_receipt_with_facilitator}
use mailagents_email_runtime.Payments.Settle.{PaymentSettlement, is_settled}
use mailagents_email_runtime.Payments.Finalize.{
  finalize_found, finalize_receipt, finalize_payment_receipt_settlement,
}
use mailagents_email_runtime.Payments.Retry.{
  settlement, outcome_of, settle_current, answer_outcome, confirm_outcome,
  attempt_automatic_payment_settlement,
}
use mailagents_email_runtime.Payments.Frame.{IsRemote, OfTables}
use mailagents_email_runtime.Payments.Rules.{Keeps-of_Ensures}
use mailagents_email_runtime.Payments.Confirmed.{confirm-Ensures}
use mailagents_email_runtime.Payments.Entries.{settlements, Any}
use mailagents_email_runtime.Payments.Credited.{get_typed-ne-zero, get_typed-ledger}
use mailagents_email_runtime.Payments.Linked.{zero-cases, finalize-Same, Same, updates-Ledger}
use mailagents_email_runtime.Payments.Refused.{Declines, holds_settlement, confirm-IsRefused}

-- A receipt that is settled already is given no entry.
module _ (f : Facilitator) (r : TypedReceipt) (w : World)
    (s : is_settled r.receipt.status ≡ true) where
  no_entry :
      (x : Result (Option TypedEntry) × World)
      → get_typed_credit_ledger_entry_by_payment_receipt_id r.receipt.tenant_id r.receipt.id w ≡ x
      → settlements r.receipt.id (ledger w) ≡ 0
      → ledger (continue (finalize_found f none none r) x).1 ≡ ledger x.1
  unfolding finalize_found
  no_entry (err e, v) h z = refl
  no_entry (ok none, v) h z = rw s refl
  no_entry (ok (some e), v) h z =
      absurd (get_typed-ne-zero r.receipt.id r.receipt.tenant_id w e (ap (λ y. y.0) h) z)

  finalize_settled : ledger (finalize_receipt f none none r w).1 ≡ ledger w
  unfolding finalize_receipt
  finalize_settled = elim (zero-cases (settlements r.receipt.id (ledger w))) [
    | inl z ↦
        no_entry
          (get_typed_credit_ledger_entry_by_payment_receipt_id r.receipt.tenant_id r.receipt.id w)
          refl z
        ∙ get_typed-ledger r.receipt.id r.receipt.tenant_id w
    | inr n ↦ finalize-Same f none none r (ledger w) n w refl
  ]

  settled-ledger : ledger (settle_current f r w).1 ≡ ledger w
  unfolding settle_current outcome_of answer_outcome finalize_payment_receipt_settlement
  settled-ledger = rw s (go (finalize_receipt f none none r w) finalize_settled)
    where
      go :
          (x : Result PaymentSettlement × World)
          → ledger x.1 ≡ ledger w
          → ledger (continue (λ y. pure (settlement y)) x).1 ≡ ledger w
      go (ok y, v) h = h
      go (err e, v) h = h

module _ (f : Facilitator) (remote : IsRemote f) (declines : Declines f) (r : TypedReceipt)
    (unpaid : holds_settlement r.metadata ≡ false) where
  -- What answers a confirmation that has failed leaves the ledger alone.
  refused_answer :
      (o : Outcome) (w : World)
      → is_some o.failure ≡ true
      → ledger (answer_outcome f r (some o) w).1 ≡ ledger w
  unfolding answer_outcome
  refused_answer o w h = ground arith

  confirmed-ledger :
      (w : World) → ledger (confirm_payment_receipt_with_facilitator f r none w).1 ≡ ledger w
  confirmed-ledger w =
      Keeps-of_Ensures (OfTables (Same (ledger w))) _ _
        (confirm-Ensures (Same (ledger w)) r.receipt.tenant_id r.receipt.id Any
          (updates-Ledger (ledger w) r.receipt.tenant_id r.receipt.id) f remote r none (refl, refl)
          (λ _. tt) (λ _. tt))
        w refl

  unsettled-ledger : (w : World) → ledger (attempt_automatic_payment_settlement f r w).1 ≡ ledger w
  unfolding attempt_automatic_payment_settlement confirm_outcome
  unsettled-ledger w = go (confirm_payment_receipt_with_facilitator f r none w) refl
    where
      go :
          (x : Result Outcome × World)
          → confirm_payment_receipt_with_facilitator f r none w ≡ x
          → ledger (continue (answer_outcome f r) (continue (λ o. pure (some o)) x)).1 ≡ ledger w
      go (err e, v) h = ap (λ y. ledger y.1) (sym h) ∙ confirmed-ledger w
      go (ok o, v) h =
          refused_answer o v (confirm-IsRefused f r none declines unpaid w v o h)
          ∙ ap (λ y. ledger y.1) (sym h)
          ∙ confirmed-ledger w

unsettled-attempt :
    (f : Facilitator) (r : TypedReceipt) (w : World)
    → is_settled r.receipt.status ≡ false
    → settle_current f r w ≡ attempt_automatic_payment_settlement f r w
unfolding settle_current outcome_of attempt_automatic_payment_settlement
unsettled-attempt f r w s = rw s refl

-- No credits are entered for a payment that the facilitator does not settle: where it declines every
-- settlement and leaves the tables alone, and the receipt holds no settlement from before, the
-- settlement of the receipt leaves the ledger as it is, whatever the receipt's status is and
-- whatever fails.
pub settle_current-ledger :
    (f : Facilitator) (r : TypedReceipt) (w : World)
    → IsRemote f
    → Declines f
    → holds_settlement r.metadata ≡ false
    → ledger (settle_current f r w).1 ≡ ledger w
settle_current-ledger f r w remote declines unpaid =
    elim (Bool-cases (is_settled r.receipt.status)) [
      | inl s ↦ settled-ledger f r w s
      | inr s ↦
          ap (λ x. ledger x.1) (unsettled-attempt f r w s)
          ∙ unsettled-ledger f remote declines r unpaid w
    ]
