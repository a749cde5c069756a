-- ===== src/Payments/Entries.antt =====
-- The ledger entries of a payment receipt, counted.
use mailagents_email_runtime.Base.{ℕ, List, [], ◌∷◌, suc, if◌then◌else◌}
use mailagents_email_runtime.World.{LedgerEntry}
use mailagents_email_runtime.World.Receipts.{PaymentReceiptStatus}
use mailagents_email_runtime.Billing.{is_key}

-- How many entries carry the payment receipt.
abbrev pub settlements : ℕ → List LedgerEntry → ℕ
settlements k [] = 0
settlements k (e ∷ es) =
    let rest = settlements k es in if is_key k e.payment_receipt_id then suc rest else rest

-- every status
abbrev pub Any : PaymentReceiptStatus → Type 0
Any _ = Unit {0}
