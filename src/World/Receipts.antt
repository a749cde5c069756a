-- ===== src/World/Receipts.antt =====
-- The rows of `tenant_payment_receipts` (src/types.ts and src/repositories/billing.ts).
use mailagents_email_runtime.Base.{ℕ, Option}
use mailagents_email_runtime.Text.{Text}
use mailagents_email_runtime.Json.{Json}

pub data PaymentReceiptType : Type 0 where
  topup upgrade refund adjustment : PaymentReceiptType

pub data PaymentReceiptStatus : Type 0 where
  pending verified settled failed refunded : PaymentReceiptStatus

pub record PaymentReceipt : Type 0 where
  pub id : ℕ
  pub tenant_id : ℕ
  pub receipt_type : PaymentReceiptType
  pub payment_scheme : Text
  pub network : Option Text
  pub asset : Option Text
  pub amount_atomic : Text
  pub amount_display : Option Text
  pub payment_reference : Option Text
  pub settlement_reference : Option Text
  pub payment_proof_fingerprint : Option Text
  pub status : PaymentReceiptStatus
  pub metadata : Option Json
  pub created_at : ℕ
  pub updated_at : ℕ
