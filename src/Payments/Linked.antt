-- ===== src/Payments/Linked.antt =====
-- Where a receipt has its entry, its settlement leaves the ledger alone.
use mailagents_email_runtime.Base.{
  ℕ, zero, suc, ◌≡◌, refl, ◌≢◌, ◌⊎◌, inl, inr, Bool, Option, none, some, List, arith,
}
use mailagents_email_runtime.Base.Int.{ℤ}
use mailagents_email_runtime.Text.{Text}
use mailagents_email_runtime.World.{World, LedgerEntry, CreditLedgerEntryType, Keeps, create_id}
use mailagents_email_runtime.World.Receipts.{PaymentReceipt}
use mailagents_email_runtime.LedgerMetadata.{
  CreditLedgerMetadata, topup_settlement, upgrade_credit_grant,
}
use mailagents_email_runtime.Billing.{
  ledger, insert_or_ignore_entry, TypedEntry, NewEntry, find_appended, drop_inserted,
  append_typed_entry, accept_appended, load_appended, entry_row,
  append_topup_settlement_ledger_entry, append_upgrade_credit_grant_ledger_entry,
}
use mailagents_email_runtime.Payments.Exchange.{Facilitator}
use mailagents_email_runtime.Payments.Receipts.{TypedReceipt, ReceiptColumns, update_receipt}
use mailagents_email_runtime.Payments.Confirm.{Outcome}
use mailagents_email_runtime.Payments.Settle.{confirmation, topup_answer, mark_settled}
use mailagents_email_runtime.Payments.Finalize.{after_grant, finalize_receipt}
use mailagents_email_runtime.Payments.Frame.{OfTables}
use mailagents_email_runtime.Payments.Confirmed.{KeepsUpdates}
use mailagents_email_runtime.Payments.Finalized.{
  KeepsAppends, topup_answer-Keeps, mark_settled-Ensures, after_grant-Keeps, finalize-Keeps,
}
use mailagents_email_runtime.Payments.Updated.{updates}
use mailagents_email_runtime.Payments.Entries.{settlements, Any}
use mailagents_email_runtime.Payments.Credited.{any-clashes}

pub zero-cases : (n : ℕ) → (n ≡ 0) ⊎ (n ≢ 0)
zero-cases zero = inl refl
zero-cases (suc n) = inr (λ e. omega arith)

-- Where the receipt has an entry, the ledger is left alone, also by an append.
abbrev pub Same : List LedgerEntry → List LedgerEntry → List PaymentReceipt → Type 0
Same es l _ = l ≡ es

pub update_receipt-Same :
    (es : List LedgerEntry) (t id : ℕ) (c : ReceiptColumns)
    → Any c.status
    → Keeps (OfTables (Same es)) (update_receipt t id c)
unfolding update_receipt
update_receipt-Same es t id c a w h = ground arith

-- An update of a receipt leaves the ledger alone.
pub updates-Ledger : (es : List LedgerEntry) (t id : ℕ) → KeepsUpdates (Same es) t id Any
updates-Ledger es t id = updates (Same es) Any t id (λ w x h e. tt) (update_receipt-Same es t id)

module _ (k : ℕ) (es : List LedgerEntry) (has_entry : settlements k es ≢ 0) where
  abbrev P : World → Type 0
  P = OfTables (Same es)

  append-Same :
      (expected : TypedEntry → Bool) (type : CreditLedgerEntryType) (m : CreditLedgerMetadata)
      (n : NewEntry)
      → n.payment_receipt_id ≡ some k
      → Keeps P (append_typed_entry expected type m n)
  unfolding append_typed_entry create_id insert_or_ignore_entry load_appended find_appended
      accept_appended drop_inserted
  append-Same expected type m n p w h =
      ground (arith, any-clashes k (entry_row n type m w.next_id w.now) (ledger w) p, has_entry, p)

  pub appends-Same : (t : ℕ) → KeepsAppends (Same es) t k
  unfolding append_topup_settlement_ledger_entry append_upgrade_credit_grant_ledger_entry
  appends-Same t = record {
    topups = λ n s _ p. append-Same _ CreditLedgerEntryType.topup (topup_settlement s) n p;
    upgrades =
        λ n s _ p. append-Same _ CreditLedgerEntryType.adjustment (upgrade_credit_grant s) n p;
  }

-- A settlement of the receipt.
module _ (f : Facilitator) (outcome : Option Outcome) (requested : Option Text)
    (r : TypedReceipt) where
  abbrev k : ℕ
  k = r.receipt.id

  abbrev t : ℕ
  t = r.receipt.tenant_id

  -- What follows the append of the receipt's entry leaves the ledger alone.
  module _ (es : List LedgerEntry) (has_entry : settlements k es ≢ 0) where
    pub topup_answer-Same :
        (e : TypedEntry)
        → Keeps (OfTables (Same es)) (
            topup_answer f outcome requested r e (
              mark_settled f outcome requested r r.metadata
                (confirmation f outcome requested r e none)))
    topup_answer-Same e =
        topup_answer-Keeps (Same es) t k Any (updates-Ledger es t k) (appends-Same k es has_entry t)
          f outcome requested r (refl, refl) e _
          (mark_settled-Ensures (Same es) t k Any (updates-Ledger es t k)
            (appends-Same k es has_entry t) f outcome requested r (refl, refl) r.metadata
            (confirmation f outcome requested r e none) tt)

    pub after_grant-Same :
        (c : ℤ) (e : TypedEntry)
        → Keeps (OfTables (Same es)) (after_grant f outcome requested r c e)
    after_grant-Same c e =
        after_grant-Keeps (Same es) t k Any (updates-Ledger es t k) (appends-Same k es has_entry t)
          f outcome requested r (refl, refl) c e tt

    pub finalize-Same : Keeps (OfTables (Same es)) (finalize_receipt f outcome requested r)
    finalize-Same =
        finalize-Keeps (Same es) t k Any (updates-Ledger es t k) (appends-Same k es has_entry t) f
          outcome requested r (refl, refl) tt
