-- ===== src/Payments/Receipts.antt =====
-- The statements of src/repositories/billing.ts on `tenant_payment_receipts`. References and
-- proof fingerprints stand in one receipt at most (migrations/0009_billing_idempotency_guards.sql,
-- migrations/0010_payment_proof_fingerprint.sql).
use mailagents_email_runtime.Base.{
  ℕ, Bool, true, false, not, ◌&&◌, ◌||◌, Option, none, some, List, ◌==◌, if◌then◌else◌, any, find,
}
use mailagents_email_runtime.Text.{Text, text_eq}
use mailagents_email_runtime.Json.{Json, obj, Fields, end}
use mailagents_email_runtime.World.{
  World, Action, Done, Failure, ◌>>=◌, ◌>>◌, plain, billing_uniqueness, uniqueness, pure, throw,
  throw_if, gets, require_row, catch_with, service,
}
use mailagents_email_runtime.World.Receipts.{PaymentReceipt, PaymentReceiptStatus}
use mailagents_email_runtime.World.Tables.{update_rows}
use mailagents_email_runtime.LedgerMetadata.{as_record}
use mailagents_email_runtime.Billing.{chosen}
use mailagents_email_runtime.Payments.Metadata.{ReceiptMetadata, parse_payment_receipt_metadata}
use mailagents_email_runtime.Payments.Stored.{record_json, Properties, merge_properties}

abbrev pub receipts : World → List PaymentReceipt
receipts w = w.bank.receipts

abbrev pub set_receipts : List PaymentReceipt → World → World
set_receipts l w = record w { bank = record (w.bank) { receipts = l } }

-- `TypedPaymentReceiptRecord`: a receipt and its metadata as parsed
pub record TypedReceipt : Type 0 where
  pub receipt : PaymentReceipt
  pub metadata : ReceiptMetadata

unfoldable pub parse_typed_payment_receipt : PaymentReceipt → Option TypedReceipt
parse_typed_payment_receipt r = elim (parse_payment_receipt_metadata r.receipt_type r.metadata) [
  | none ↦ none
  | some m ↦ some (record { receipt = r; metadata = m })
]

-- `tenant_id = ? AND id = ?`
abbrev pub is_receipt : ℕ → ℕ → PaymentReceipt → Bool
is_receipt t id r = r.tenant_id == t && r.id == id

unfoldable pub get_tenant_payment_receipt_by_id : ℕ → ℕ → Action (Option PaymentReceipt)
unfolding service
get_tenant_payment_receipt_by_id t id = service >> gets (λ w. find (is_receipt t id) (receipts w))

abbrev pub typed_receipt : Option PaymentReceipt → Option TypedReceipt
unfolding parse_typed_payment_receipt
typed_receipt none = none
typed_receipt (some r) = parse_typed_payment_receipt r

unfoldable pub get_typed_tenant_payment_receipt_by_id : ℕ → ℕ → Action (Option TypedReceipt)
unfolding get_tenant_payment_receipt_by_id parse_typed_payment_receipt
get_typed_tenant_payment_receipt_by_id t id = do
  receipt ← get_tenant_payment_receipt_by_id t id
  pure (typed_receipt receipt)

-- two texts of which neither is null
abbrev pub same_text : Option Text → Option Text → Bool
same_text (some a) (some b) = text_eq a b
same_text _ _ = false

-- the unique indexes on the references
abbrev pub references_clash : PaymentReceipt → PaymentReceipt → Bool
references_clash a b =
    same_text a.payment_reference b.payment_reference
    || same_text a.settlement_reference b.settlement_reference

abbrev pub clashes_with : PaymentReceipt → PaymentReceipt → Bool
clashes_with a b =
    references_clash a b || same_text a.payment_proof_fingerprint b.payment_proof_fingerprint

-- the columns that an update of a receipt sets
pub record ReceiptColumns : Type 0 where
  pub status : PaymentReceiptStatus
  pub payment_reference : Option Text
  pub settlement_reference : Option Text
  pub metadata : Option Json
  pub updated_at : ℕ

abbrev pub with_columns : ReceiptColumns → PaymentReceipt → PaymentReceipt
with_columns c r = record r {
  status = c.status;
  payment_reference = c.payment_reference;
  settlement_reference = c.settlement_reference;
  metadata = c.metadata;
  updated_at = c.updated_at;
}

-- another receipt that holds one of the references
abbrev pub taken : ℕ → ℕ → ReceiptColumns → PaymentReceipt → Bool
taken t id c r =
    not (is_receipt t id r)
    && (same_text c.payment_reference r.payment_reference
        || same_text c.settlement_reference r.settlement_reference)

-- `UPDATE tenant_payment_receipts SET … WHERE tenant_id = ? AND id = ?`; tells whether a row changed
unfoldable pub update_receipt : ℕ → ℕ → ReceiptColumns → Action Bool
unfolding service
update_receipt t id c = service >> λ w.
    if any (is_receipt t id) (receipts w)
    then if any (taken t id c) (receipts w)
      then throw uniqueness w
      else pure true (set_receipts (update_rows (is_receipt t id) (with_columns c) (receipts w)) w)
    else pure false w

-- the input of `updateTenantPaymentReceiptStatus`
pub record ReceiptUpdate : Type 0 where
  pub tenant_id : ℕ
  pub receipt_id : ℕ
  pub status : PaymentReceiptStatus
  pub payment_reference : Option Text
  pub settlement_reference : Option Text
  pub metadata : Option Properties

abbrev pub fields_or_end : Option Fields → Fields
fields_or_end none = end
fields_or_end (some fs) = fs

unfoldable pub next_metadata : Option Properties → Option Fields → Option Json
unfolding merge_properties
next_metadata none none = none
next_metadata none (some fs) = some (obj fs)
next_metadata (some ps) existing = some (obj (merge_properties (fields_or_end existing) ps))

-- a reference that the update gives and that is not the one there
abbrev pub is_new_reference : Option Text → Option Text → Bool
is_new_reference none old = false
is_new_reference (some a) old = not (same_text (some a) old)

abbrev pub on_update_error : ReceiptUpdate → PaymentReceipt → Failure → Action Bool
on_update_error u existing uniqueness =
    if is_new_reference u.settlement_reference existing.settlement_reference
      || is_new_reference u.payment_reference existing.payment_reference
    then throw billing_uniqueness
    else throw uniqueness
on_update_error u existing e = throw e

unfoldable pub write_status : ReceiptUpdate → PaymentReceipt → Action PaymentReceipt
unfolding update_receipt get_tenant_payment_receipt_by_id
write_status u existing = do
  now ← gets (λ w. w.now)
  changed ←
      catch_with
        (update_receipt u.tenant_id u.receipt_id (record {
          status = u.status;
          payment_reference = chosen u.payment_reference existing.payment_reference;
          settlement_reference = chosen u.settlement_reference existing.settlement_reference;
          metadata = next_metadata u.metadata (as_record existing.metadata);
          updated_at = now;
        }))
        (on_update_error u existing)
  throw_if (not changed) plain
  row ← get_tenant_payment_receipt_by_id u.tenant_id u.receipt_id
  require_row row

unfoldable pub update_tenant_payment_receipt_status : ReceiptUpdate → Action PaymentReceipt
unfolding get_tenant_payment_receipt_by_id
update_tenant_payment_receipt_status u = do
  found ← get_tenant_payment_receipt_by_id u.tenant_id u.receipt_id
  existing ← require_row found
  write_status u existing

unfoldable pub snapshot : PaymentReceipt → ReceiptColumns
snapshot r = record {
  status = r.status;
  payment_reference = r.payment_reference;
  settlement_reference = r.settlement_reference;
  metadata = record_json (as_record r.metadata);
  updated_at = r.updated_at;
}

unfoldable pub restore_tenant_payment_receipt_snapshot : PaymentReceipt → Action Done
unfolding update_receipt
restore_tenant_payment_receipt_snapshot r = do
  changed ← update_receipt r.tenant_id r.id (snapshot r)
  throw_if (not changed) plain

-- the typed receipt, or the snapshot put back and a throw
unfoldable pub accept_updated : PaymentReceipt → Option TypedReceipt → Action TypedReceipt
accept_updated existing (some typed) = pure typed
accept_updated existing none =
    catch_with (restore_tenant_payment_receipt_snapshot existing) (λ _. pure tt) >> throw plain

unfoldable pub update_typed_tenant_payment_receipt_status : ReceiptUpdate → Action TypedReceipt
update_typed_tenant_payment_receipt_status u = do
  found ← get_tenant_payment_receipt_by_id u.tenant_id u.receipt_id
  existing ← require_row found
  receipt ← update_tenant_payment_receipt_status u
  accept_updated existing (parse_typed_payment_receipt receipt)
