-- ===== src/Payments/Refused.antt =====
-- A settlement that the facilitator declines is answered with a refusal.
use mailagents_email_runtime.Base.{
  ℕ, ◌≡◌, refl, ap, Bool, true, false, ◌&&◌, Option, none, some, arith, is_some, if◌then◌else◌,
  get_or,
}
use mailagents_email_runtime.Json.{Json, null}
use mailagents_email_runtime.Text.{Text}
use mailagents_email_runtime.World.{World, Action, Result, ok, err, ◌>>=◌, pure, bind-eq-ok}
use mailagents_email_runtime.World.Receipts.{
  PaymentReceiptStatus, pending, verified, settled, failed, refunded,
}
use mailagents_email_runtime.Payments.Metadata.{ReceiptMetadata}
use mailagents_email_runtime.Payments.Stored.{
  is_truthy, get_receipt_payment_requirements, get_receipt_payment_payload,
}
use mailagents_email_runtime.Payments.Exchange.{
  Facilitator, Answer, Verification, Settling, parse_settle_decision, normalize_settlement_response,
}
use mailagents_email_runtime.Payments.Answers.{
  Answered, verify_x402_payment, settle_x402_payment, parse_stored_x402_settlement_response,
}
use mailagents_email_runtime.Payments.Receipts.{TypedReceipt}
use mailagents_email_runtime.Payments.Confirm.{
  Outcome, refused, settle_working, record_settling, settled_outcome, record_verifying,
  rejected_outcome, after_verifying, verify_pending, settle_again, confirm_status,
  confirm_payment_receipt_with_facilitator,
}

-- Every answer of the facilitator to a settlement is read as a refusal.
abbrev pub Declines : Facilitator → Type 0
Declines f =
    (payload requirements : Json) (key : ℕ) (w v : World) (a : Answer)
    → f.post_settle payload requirements key w ≡ (ok a, v)
    → parse_settle_decision a.content a.status ≡ false

abbrev pub is_done : Option Settling → Bool
is_done none = false
is_done (some s) = s.settled

-- Whether the receipt holds a settlement that the facilitator has confirmed before.
abbrev pub holds_settlement : ReceiptMetadata → Bool
holds_settlement m = is_done (parse_stored_x402_settlement_response m.facilitator_settle)

abbrev is_refusal : Result Outcome → Bool
is_refusal (ok o) = is_some o.failure
is_refusal (err _) = true

-- Where it returns, the confirmation has failed.
abbrev pub IsRefused : Action Outcome → Type 0
IsRefused m = (w v : World) (o : Outcome) → m w ≡ (ok o, v) → is_some o.failure ≡ true

pure-IsRefused : (o : Outcome) → is_some o.failure ≡ true → IsRefused (pure o)
pure-IsRefused o h w v x e = rw (← ap (λ y. is_refusal y.0) e) h

if-IsRefused :
    (b : Bool) (m n : Action Outcome) → IsRefused m → IsRefused n → IsRefused (if b then m else n)
if-IsRefused true m n hm hn = hm
if-IsRefused false m n hm hn = hn

bind-IsRefused :
    {A : Type 0} (m : Action A) (k : A → Action Outcome)
    → ((a : A) → IsRefused (k a))
    → IsRefused (m >>= k)
bind-IsRefused m k h w v o e = let (a, u, first, rest) = bind-eq-ok m k w e in h a u v o rest

module _ (f : Facilitator) (declines : Declines f) (m : ReceiptMetadata) (requested : Option Text)
    (requirements payload : Json) where
  settle-declined :
      (key : ℕ) (w v : World) (s : Answered Settling)
      → settle_x402_payment f payload requirements key w ≡ (ok s, v)
      → s.response.settled ≡ false
  unfolding settle_x402_payment normalize_settlement_response
  settle-declined key w v s h =
      let (a, u, posted, answered) = bind-eq-ok (f.post_settle payload requirements key) _ w h in
      ground (arith, declines payload requirements key w u a posted, answered)

  settle_working-IsRefused :
      (r : TypedReceipt) (x : Option Json)
      → IsRefused (settle_working f m requested requirements payload r x)
  unfolding settle_working settled_outcome
  settle_working-IsRefused r x w v o h =
      let (s, u, answered, rest) =
        bind-eq-ok (settle_x402_payment f payload requirements r.receipt.id) _ w h in
      let (y, z, updated, ended) =
        bind-eq-ok (record_settling f m requested requirements payload r x s) _ u rest in
      ground (arith, settle-declined r.receipt.id w u s answered, ended)

  after_verifying-IsRefused :
      (r : TypedReceipt) (x : Answered Verification)
      → IsRefused (after_verifying f m requested requirements payload r x)
  unfolding after_verifying rejected_outcome
  after_verifying-IsRefused r x =
      if-IsRefused x.response.is_valid _ _
        (bind-IsRefused (record_verifying f m requested requirements payload r verified x) _
          (λ y. settle_working-IsRefused y _))
        (bind-IsRefused (record_verifying f m requested requirements payload r failed x) _
          (λ y. pure-IsRefused _ refl))

  settle_again-IsRefused :
      (r : TypedReceipt) (x : Option Settling)
      → is_done x ≡ false
      → IsRefused (settle_again f m requested requirements payload r x)
  unfolding settle_again
  settle_again-IsRefused r none d = settle_working-IsRefused r _
  settle_again-IsRefused r (some x) d = rw d (settle_working-IsRefused r _)

  verify_pending-IsRefused :
      (r : TypedReceipt) → IsRefused (verify_pending f m requested requirements payload r)
  unfolding verify_pending
  verify_pending-IsRefused r =
      bind-IsRefused (verify_x402_payment f payload requirements r.receipt.id) _
        (after_verifying-IsRefused r)

  confirm_status-IsRefused :
      (r : TypedReceipt) (s : PaymentReceiptStatus)
      → holds_settlement m ≡ false
      → IsRefused (confirm_status f m requested requirements payload r s)
  unfolding confirm_status
  confirm_status-IsRefused r failed d = pure-IsRefused (refused r) refl
  confirm_status-IsRefused r pending d = verify_pending-IsRefused r
  confirm_status-IsRefused r verified d = settle_again-IsRefused r _ d
  confirm_status-IsRefused r settled d = settle_again-IsRefused r _ d
  confirm_status-IsRefused r refunded d = settle_again-IsRefused r _ d

pub confirm-IsRefused :
    (f : Facilitator) (r : TypedReceipt) (requested : Option Text)
    → Declines f
    → holds_settlement r.metadata ≡ false
    → IsRefused (confirm_payment_receipt_with_facilitator f r requested)
unfolding confirm_payment_receipt_with_facilitator
confirm-IsRefused f r requested declines d =
    if-IsRefused
      (is_truthy (get_receipt_payment_requirements r.metadata)
        && is_truthy (get_receipt_payment_payload r.metadata))
      _ (pure (refused r))
      (confirm_status-IsRefused f declines r.metadata requested
        (get_or (get_receipt_payment_requirements r.metadata) null)
        (get_or (get_receipt_payment_payload r.metadata) null) r r.receipt.status d)
      (pure-IsRefused (refused r) refl)
