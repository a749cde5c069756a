-- ===== src/Payments/Retried.antt =====
-- The retry of a settlement keeps a predicate of the ledger and the receipts that the settlement of
-- the receipt, as it stands in its table, keeps.
use mailagents_email_runtime.Base.{
  ℕ, ◌≡◌, sym, subst, not, ◌&&◌, ◌||◌, Option, none, some, List, [], ◌∷◌, arith, is_some, find, inl,
  inr, Bool-cases,
}
use mailagents_email_runtime.World.{
  World, LedgerEntry, Action, Failure, Result, ok, err, continue, recover, ◌>>=◌, pure, Keeps,
  bind-Keeps, catch_with-Keeps, catch_with,
}
use mailagents_email_runtime.World.Receipts.{PaymentReceipt}
use mailagents_email_runtime.Billing.{
  TypedEntry, get_typed_credit_ledger_entry_by_payment_receipt_id,
}
use mailagents_email_runtime.Payments.Exchange.{Facilitator}
use mailagents_email_runtime.Payments.Receipts.{
  TypedReceipt, receipts, is_receipt, get_typed_tenant_payment_receipt_by_id,
  parse_typed_payment_receipt,
}
use mailagents_email_runtime.Payments.Retry.{
  Response, settle_current, entry_or_null, receipt_or_null, receipt_changed, retry_changed,
  retry_refreshed, with_refreshed_payment_receipt, is_failed, confirm_found, confirm_payment,
}
use mailagents_email_runtime.Payments.Frame.{OfTables, get_entry-Keeps}
use mailagents_email_runtime.Payments.Confirmed.{Mine}

-- The receipt is the row of its key.
abbrev pub IsCurrent : ℕ → ℕ → TypedReceipt → List PaymentReceipt → Type 0
IsCurrent t id r rs = find (is_receipt t id) rs ≡ some r.receipt

pub find-Mine :
    (t id : ℕ) (rs : List PaymentReceipt) (x : PaymentReceipt)
    → find (is_receipt t id) rs ≡ some x
    → (x.tenant_id ≡ t) × (x.id ≡ id)
find-Mine t id [] x h = cc
find-Mine t id (r ∷ rs) x h = ground (arith, find-Mine t id rs x)

pub IsCurrent-Mine :
    (t id : ℕ) (r : TypedReceipt) (rs : List PaymentReceipt) → IsCurrent t id r rs → Mine t id r
IsCurrent-Mine t id r rs h = find-Mine t id rs r.receipt h

module _ (Q : List LedgerEntry → List PaymentReceipt → Type 0) (t id : ℕ) where
  abbrev P : World → Type 0
  P = OfTables Q

  abbrev pub Found : Result (Option TypedReceipt) × World → Type 0
  Found (ok (some r), v) = P v × IsCurrent t id r (receipts v)
  Found (ok none, v) = P v
  Found (err _, v) = P v

  pub get_typed-Found : (w : World) → P w → Found (get_typed_tenant_payment_receipt_by_id t id w)
  unfolding get_typed_tenant_payment_receipt_by_id parse_typed_payment_receipt
  get_typed-Found w h = ground arith

  or_null-Found :
      (x : Result (Option TypedReceipt) × World) → Found x → Found (recover (λ _. pure none) x)
  or_null-Found (ok (some r), v) h = h
  or_null-Found (ok none, v) h = h
  or_null-Found (err e, v) h = h

  receipt_or_null-Found :
      (r : TypedReceipt) (w : World) → Mine t id r → P w → Found (receipt_or_null r w)
  receipt_or_null-Found r w mine h =
      subst (λ a. Found (or_null a r.receipt.id)) (sym mine.0)
        (subst (λ b. Found (or_null t b)) (sym mine.1)
          (or_null-Found (get_typed_tenant_payment_receipt_by_id t id w) (get_typed-Found w h)))
    where
      or_null : ℕ → ℕ → Result (Option TypedReceipt) × World
      or_null a b = catch_with (get_typed_tenant_payment_receipt_by_id a b) (λ _. pure none) w

  entry_or_null-Keeps : (r : TypedReceipt) → Keeps P (entry_or_null r)
  entry_or_null-Keeps r =
      catch_with-Keeps P
        (get_typed_credit_ledger_entry_by_payment_receipt_id r.receipt.tenant_id r.receipt.id) _
        (get_entry-Keeps Q r.receipt.tenant_id r.receipt.id) (λ _ w h. h)

-- the predicate, and that the receipt is the row of its key
abbrev pub With :
    (List LedgerEntry → List PaymentReceipt → Type 0)
    → ℕ
    → ℕ
    → TypedReceipt
    → List LedgerEntry
    → List PaymentReceipt
    → Type 0
With Q t id r l rs = Q l rs × IsCurrent t id r rs

module _ (Q : List LedgerEntry → List PaymentReceipt → Type 0) (t id : ℕ)
    (action : TypedReceipt → Action Response)
    (act : (r : TypedReceipt) (w : World)
      → OfTables Q w
      → IsCurrent t id r (receipts w)
      → OfTables Q (action r w).1) where
  abbrev P' : World → Type 0
  P' = OfTables Q

  retry_changed-Keeps :
      (r : TypedReceipt) (i : Option TypedEntry) (e : Failure) (o : Option TypedReceipt)
      (found : Option TypedEntry) (w : World)
      → Found Q t id (ok o, w)
      → P' (retry_changed action r i e o found w).1
  unfolding retry_changed
  retry_changed-Keeps r i e none found w h = h
  retry_changed-Keeps r i e (some x) found w h =
      elim (Bool-cases
        (receipt_changed r.receipt x.receipt || (not (is_some i) && is_some found))) [
          | inl c ↦ rw c (act x w h.0 h.1)
          | inr c ↦ rw c h.0
        ]

  after_entry-Keeps :
      (r : TypedReceipt) (i : Option TypedEntry) (e : Failure) (o : Option TypedReceipt) (w : World)
      → Found Q t id (ok o, w)
      → P' ((entry_or_null r >>= retry_changed action r i e o) w).1
  after_entry-Keeps r i e none w h =
      bind-Keeps P' (entry_or_null r) _ (entry_or_null-Keeps Q t id r)
        (λ found v p. retry_changed-Keeps r i e none found v p) w h
  after_entry-Keeps r i e (some x) w h =
      go (entry_or_null r w) (entry_or_null-Keeps (With Q t id x) t id r w h)
    where
      go :
          (y : Result (Option TypedEntry) × World)
          → OfTables (With Q t id x) y.1
          → P' (continue (retry_changed action r i e (some x)) y).1
      go (ok found, v) p = retry_changed-Keeps r i e (some x) found v p
      go (err z, v) p = p.0

  retry_refreshed-Keeps :
      (r : TypedReceipt) (i : Option TypedEntry) (e : Failure) (w : World)
      → Mine t id r
      → P' w
      → P' (retry_refreshed action r i e w).1
  unfolding retry_refreshed
  retry_refreshed-Keeps r i e w mine h =
      go (receipt_or_null r w) (receipt_or_null-Found Q t id r w mine h)
    where
      go :
          (y : Result (Option TypedReceipt) × World)
          → Found Q t id y
          → P' (continue (λ o. entry_or_null r >>= retry_changed action r i e o) y).1
      go (ok o, v) p = after_entry-Keeps r i e o v p
      go (err z, v) p = p

  attempt-Keeps :
      (r : TypedReceipt) (i : Option TypedEntry) (w : World)
      → OfTables (With Q t id r) w
      → P' (catch_with (action r) (retry_refreshed action r i) w).1
  attempt-Keeps r i w h = go (action r w) (act r w h.0 h.1)
    where
      go : (y : Result Response × World) → P' y.1 → P' (recover (retry_refreshed action r i) y).1
      go (ok a, v) p = p
      go (err z, v) p = retry_refreshed-Keeps r i z v (IsCurrent-Mine t id r (receipts w) h.1) p

  pub with_refreshed-Keeps :
      (r : TypedReceipt) (w : World)
      → P' w
      → IsCurrent t id r (receipts w)
      → P' (with_refreshed_payment_receipt action r w).1
  unfolding with_refreshed_payment_receipt
  with_refreshed-Keeps r w h current =
      go (entry_or_null r w) (entry_or_null-Keeps (With Q t id r) t id r w (h, current))
    where
      go :
          (y : Result (Option TypedEntry) × World)
          → OfTables (With Q t id r) y.1
          → P' (continue (λ i. catch_with (action r) (retry_refreshed action r i)) y).1
      go (ok i, v) p = attempt-Keeps r i v p
      go (err z, v) p = p.0

module _ (Q : List LedgerEntry → List PaymentReceipt → Type 0) (t id : ℕ) (f : Facilitator)
    (act : (r : TypedReceipt) (w : World)
      → OfTables Q w
      → IsCurrent t id r (receipts w)
      → OfTables Q (settle_current f r w).1) where
  confirm_found-Keeps :
      (y : Result (Option TypedReceipt) × World)
      → Found Q t id y
      → OfTables Q (continue (confirm_found f) y).1
  unfolding confirm_found
  confirm_found-Keeps (ok none, v) h = h
  confirm_found-Keeps (err e, v) h = h
  confirm_found-Keeps (ok (some r), v) h = elim (Bool-cases (is_failed r.receipt.status)) [
    | inl e ↦ rw e h.0
    | inr e ↦ rw e (with_refreshed-Keeps Q t id (settle_current f) act r v h.0 h.1)
  ]

  pub confirm_payment-Keeps : Keeps (OfTables Q) (confirm_payment f t id)
  unfolding confirm_payment
  confirm_payment-Keeps w h =
      confirm_found-Keeps (get_typed_tenant_payment_receipt_by_id t id w)
        (get_typed-Found Q t id w h)
