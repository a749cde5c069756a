-- ===== src/Payments/Updated.antt =====
-- An update of a receipt gives back the receipt of its key, and keeps what each write of its row
-- keeps.
use mailagents_email_runtime.Base.{
  ℕ, ◌≡◌, refl, sym, subst, not, Option, none, some, List, arith, find,
}
use mailagents_email_runtime.World.{
  World, LedgerEntry, Failure, ◌>>=◌, pure, throw_if, require_row, Keeps, bind-Keeps,
  catch_with-Keeps, catch_with, plain,
}
use mailagents_email_runtime.World.Receipts.{PaymentReceipt, PaymentReceiptStatus}
use mailagents_email_runtime.Payments.Receipts.{
  ReceiptUpdate, ReceiptColumns, TypedReceipt, receipts, is_receipt, update_receipt, write_status,
  on_update_error, get_tenant_payment_receipt_by_id, update_tenant_payment_receipt_status, snapshot,
  restore_tenant_payment_receipt_snapshot, accept_updated, parse_typed_payment_receipt,
  update_typed_tenant_payment_receipt_status,
}
use mailagents_email_runtime.Payments.Frame.{OfTables}
use mailagents_email_runtime.Payments.Rules.{
  Ensures, bind-Ensures, bind_keeping-Ensures, throw_if-Keeps,
}
use mailagents_email_runtime.Payments.Confirmed.{Mine, KeepsUpdates}
use mailagents_email_runtime.Payments.Retried.{find-Mine}

-- The status of a row may be written back to it.
abbrev pub Reads :
    (List LedgerEntry → List PaymentReceipt → Type 0)
    → (PaymentReceiptStatus → Type 0)
    → ℕ
    → ℕ
    → Type 0
Reads Q Allowed t id =
    (w : World) (x : PaymentReceipt)
    → OfTables Q w
    → find (is_receipt t id) (receipts w) ≡ some x
    → Allowed x.status

-- A write of a status that is allowed keeps the predicate.
abbrev pub Writes :
    (List LedgerEntry → List PaymentReceipt → Type 0)
    → (PaymentReceiptStatus → Type 0)
    → ℕ
    → ℕ
    → Type 0
Writes Q Allowed t id =
    (c : ReceiptColumns) → Allowed c.status → Keeps (OfTables Q) (update_receipt t id c)

module _ (Q : List LedgerEntry → List PaymentReceipt → Type 0)
    (Allowed : PaymentReceiptStatus → Type 0) (u : ReceiptUpdate)
    (reads : Reads Q Allowed u.tenant_id u.receipt_id)
    (writes : Writes Q Allowed u.tenant_id u.receipt_id) (allowed : Allowed u.status) where
  abbrev tenant : ℕ
  tenant = u.tenant_id

  abbrev key : ℕ
  key = u.receipt_id

  abbrev P : World → Type 0
  P = OfTables Q

  -- a row of the key, with a status that may be written back
  abbrev Row : PaymentReceipt → Type 0
  Row x = (x.tenant_id ≡ tenant) × (x.id ≡ key) × Allowed x.status

  abbrev OptionalRow : Option PaymentReceipt → Type 0
  OptionalRow none = Unit
  OptionalRow (some x) = Row x

  find-Row :
      (w : World) (o : Option PaymentReceipt)
      → P w
      → find (is_receipt tenant key) (receipts w) ≡ o
      → OptionalRow o
  find-Row w none h e = tt
  find-Row w (some x) h e =
      let mine = find-Mine tenant key (receipts w) x e in (mine.0, mine.1, reads w x h e)

  get-Ensures : Ensures P OptionalRow (get_tenant_payment_receipt_by_id tenant key)
  unfolding get_tenant_payment_receipt_by_id
  get-Ensures w h = ground (arith, find-Row w (find (is_receipt tenant key) (receipts w)) h refl)

  require_row-Ensures : (o : Option PaymentReceipt) → OptionalRow o → Ensures P Row (require_row o)
  require_row-Ensures none h = λ w p. p
  require_row-Ensures (some x) h = λ w p. (p, h)

  load-Ensures : Ensures P Row (get_tenant_payment_receipt_by_id tenant key >>= require_row)
  load-Ensures =
      bind-Ensures P OptionalRow Row (get_tenant_payment_receipt_by_id tenant key) require_row
        get-Ensures require_row-Ensures

  on_update_error-Keeps : (x : PaymentReceipt) (e : Failure) → Keeps P (on_update_error u x e)
  on_update_error-Keeps x Failure.uniqueness w h = ground arith
  on_update_error-Keeps x Failure.unavailable w h = h
  on_update_error-Keeps x Failure.plain w h = h
  on_update_error-Keeps x Failure.billing_uniqueness w h = h
  on_update_error-Keeps x Failure.outbound_policy w h = h
  on_update_error-Keeps x (Failure.validation s) w h = h
  on_update_error-Keeps x (Failure.route_request s) w h = h

  write_status-Ensures : (x : PaymentReceipt) → Ensures P Row (write_status u x)
  unfolding write_status
  write_status-Ensures x w =
      bind_keeping-Ensures P Row (catch_with (update_receipt tenant key _) (on_update_error u x)) _
        (catch_with-Keeps P (update_receipt tenant key _) (on_update_error u x) (writes _ allowed)
          (on_update_error-Keeps x))
        (λ changed.
          bind_keeping-Ensures P Row (throw_if (not changed) plain) _ (throw_if-Keeps P _ _)
            (λ _. load-Ensures))
        w

  updated-Ensures : Ensures P Row (update_tenant_payment_receipt_status u)
  unfolding update_tenant_payment_receipt_status
  updated-Ensures =
      bind-Ensures P OptionalRow Row (get_tenant_payment_receipt_by_id tenant key) _ get-Ensures
        (λ o h.
          bind-Ensures P Row Row (require_row o) (write_status u) (require_row-Ensures o h)
            (λ x _. write_status-Ensures x))

  restore-Keeps : (x : PaymentReceipt) → Row x → Keeps P (restore_tenant_payment_receipt_snapshot x)
  unfolding restore_tenant_payment_receipt_snapshot snapshot
  restore-Keeps x h =
      bind-Keeps P (update_receipt x.tenant_id x.id (snapshot x)) _
        (subst (λ a. Keeps P (update_receipt a x.id (snapshot x))) (sym h.0)
          (subst (λ b. Keeps P (update_receipt tenant b (snapshot x))) (sym h.1)
            (writes (snapshot x) h.2)))
        (λ changed. throw_if-Keeps P _ _)

  parsed-Mine :
      (x : PaymentReceipt)
      → Row x
      → (r : TypedReceipt) → parse_typed_payment_receipt x ≡ some r
      → Mine tenant key r
  unfolding parse_typed_payment_receipt
  parsed-Mine x h r e = ground arith

  accept-Ensures :
      (old x : PaymentReceipt) (o : Option TypedReceipt)
      → Row old
      → Row x
      → parse_typed_payment_receipt x ≡ o
      → Ensures P (Mine tenant key) (accept_updated old o)
  unfolding accept_updated
  accept-Ensures old x (some r) h k e = λ w p. (p, parsed-Mine x k r e)
  accept-Ensures old x none h k e =
      bind_keeping-Ensures P (Mine tenant key)
        (catch_with (restore_tenant_payment_receipt_snapshot old) (λ _. pure tt)) _
        (catch_with-Keeps P (restore_tenant_payment_receipt_snapshot old) (λ _. pure tt)
          (restore-Keeps old h) (λ _ w p. p))
        (λ _ w p. p)

  update_typed-Ensures : Ensures P (Mine tenant key) (update_typed_tenant_payment_receipt_status u)
  unfolding update_typed_tenant_payment_receipt_status
  update_typed-Ensures =
      bind-Ensures P OptionalRow (Mine tenant key) (get_tenant_payment_receipt_by_id tenant key) _
        get-Ensures
        (λ o h.
          bind-Ensures P Row (Mine tenant key) (require_row o) _ (require_row-Ensures o h) (λ old k.
            bind-Ensures P Row (Mine tenant key) (update_tenant_payment_receipt_status u) _
              updated-Ensures
              (λ x l. accept-Ensures old x (parse_typed_payment_receipt x) k l refl)))

pub updates :
    (Q : List LedgerEntry → List PaymentReceipt → Type 0) (Allowed : PaymentReceiptStatus → Type 0)
    (t id : ℕ)
    → Reads Q Allowed t id
    → Writes Q Allowed t id
    → KeepsUpdates Q t id Allowed
updates Q Allowed t id reads writes u ut uid a =
    subst (λ b. At t b) uid (subst (λ c. At c u.receipt_id) ut by_key) reads writes
  where
    At : ℕ → ℕ → Type 0
    At c b =
        Reads Q Allowed c b
        → Writes Q Allowed c b
        → Ensures (OfTables Q) (Mine c b) (update_typed_tenant_payment_receipt_status u)

    by_key : At u.tenant_id u.receipt_id
    by_key reads writes = update_typed-Ensures Q Allowed u reads writes a
