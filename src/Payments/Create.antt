-- ===== src/Payments/Create.antt =====
-- createTenantPaymentReceipt and createTypedTenantPaymentReceipt of src/repositories/billing.ts.
use mailagents_email_runtime.Base.{
  ℕ, Bool, true, false, ◌||◌, Option, none, some, ◌∷◌, ◌==◌, if◌then◌else◌, any, find, is_some,
}
use mailagents_email_runtime.Text.{Text}
use mailagents_email_runtime.Json.{obj, end}
use mailagents_email_runtime.World.{
  Action, Done, Failure, ◌>>=◌, ◌>>◌, plain, billing_uniqueness, uniqueness, pure, throw, gets,
  require_row, catch_with, modify, service, create_id,
}
use mailagents_email_runtime.World.Receipts.{
  PaymentReceipt, PaymentReceiptType, PaymentReceiptStatus,
}
use mailagents_email_runtime.World.Tables.{delete_rows}
use mailagents_email_runtime.Payments.Metadata.{ReceiptMetadata, Purchase, topup, upgrade}
use mailagents_email_runtime.Payments.Stored.{merge_properties, metadata_properties}
use mailagents_email_runtime.Payments.Receipts.{
  receipts, set_receipts, is_receipt, clashes_with, TypedReceipt, parse_typed_payment_receipt,
}

-- the input of `createTypedTenantPaymentReceipt`
pub record NewReceipt : Type 0 where
  pub tenant_id : ℕ
  pub receipt_type : PaymentReceiptType
  pub payment_scheme : Text
  pub amount_atomic : Text
  pub status : PaymentReceiptStatus
  pub network : Option Text
  pub asset : Option Text
  pub amount_display : Option Text
  pub payment_reference : Option Text
  pub settlement_reference : Option Text
  pub payment_proof_fingerprint : Option Text
  pub metadata : ReceiptMetadata

unfoldable pub receipt_row : NewReceipt → ℕ → ℕ → PaymentReceipt
receipt_row n id now = record {
  id = id;
  tenant_id = n.tenant_id;
  receipt_type = n.receipt_type;
  payment_scheme = n.payment_scheme;
  network = n.network;
  asset = n.asset;
  amount_atomic = n.amount_atomic;
  amount_display = n.amount_display;
  payment_reference = n.payment_reference;
  settlement_reference = n.settlement_reference;
  payment_proof_fingerprint = n.payment_proof_fingerprint;
  status = n.status;
  metadata = some (obj (merge_properties end (metadata_properties n.metadata)));
  created_at = now;
  updated_at = now;
}

-- the primary key, and the unique indexes
abbrev pub row_clashes : PaymentReceipt → PaymentReceipt → Bool
row_clashes r x = r.id == x.id || clashes_with r x

-- `INSERT INTO tenant_payment_receipts`
unfoldable pub insert_receipt : PaymentReceipt → Action Done
unfolding service
insert_receipt r = service >> λ w.
    if any (row_clashes r) (receipts w)
    then throw uniqueness w
    else pure tt (set_receipts (r ∷ receipts w) w)

abbrev pub on_insert_error : NewReceipt → Failure → Action Done
on_insert_error n uniqueness =
    if is_some n.payment_proof_fingerprint
      || is_some n.settlement_reference
      || is_some n.payment_reference
    then throw billing_uniqueness
    else throw uniqueness
on_insert_error n e = throw e

-- The row is read back by its identifier alone.
unfoldable pub create_tenant_payment_receipt : NewReceipt → Action PaymentReceipt
unfolding insert_receipt receipt_row create_id service
create_tenant_payment_receipt n = do
  id ← create_id
  now ← gets (λ w. w.now)
  catch_with (insert_receipt (receipt_row n id now)) (on_insert_error n)
  service
  row ← gets (λ w. find (λ r. r.id == id) (receipts w))
  require_row row

-- `DELETE FROM tenant_payment_receipts WHERE tenant_id = ? AND id = ?`
unfoldable pub delete_receipt : ℕ → ℕ → Action Done
unfolding service
delete_receipt t id =
    service >> modify (λ w. set_receipts (delete_rows (is_receipt t id) (receipts w)) w)

-- what is made is kept where it reads back as a receipt of its type
abbrev pub is_of_type : PaymentReceiptType → Purchase → Bool
is_of_type PaymentReceiptType.topup (topup _) = true
is_of_type PaymentReceiptType.upgrade (upgrade _) = true
is_of_type _ _ = false

unfoldable pub accept_created : NewReceipt → ℕ → Option TypedReceipt → Action TypedReceipt
unfolding delete_receipt
accept_created n id none = catch_with (delete_receipt n.tenant_id id) (λ _. pure tt) >> throw plain
accept_created n id (some r) =
    if is_of_type n.receipt_type r.metadata.purchase
    then pure r
    else (catch_with (delete_receipt n.tenant_id id) (λ _. pure tt) >> throw plain)

unfoldable pub create_typed_tenant_payment_receipt : NewReceipt → Action TypedReceipt
create_typed_tenant_payment_receipt n = do
  receipt ← create_tenant_payment_receipt n
  accept_created n receipt.id (parse_typed_payment_receipt receipt)
