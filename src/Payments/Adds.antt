-- ===== src/Payments/Adds.antt =====
-- What the retry of a settlement may do to the ledger.
use mailagents_email_runtime.Base.{
  ℕ, ◌≡◌, refl, ◌≢◌, ◌⊎◌, inl, inr, Bool, true, some, List, ◌∷◌, arith, any, ap, sym, subst, ◌∙◌,
  Bool-cases,
}
use mailagents_email_runtime.World.{World, LedgerEntry, Keeps, create_id}
use mailagents_email_runtime.World.Receipts.{PaymentReceipt}
use mailagents_email_runtime.LedgerMetadata.{
  CreditLedgerMetadata, topup_settlement, upgrade_credit_grant, entry_type_of,
}
use mailagents_email_runtime.LedgerMetadata.Laws.{parse-serialize}
use mailagents_email_runtime.Billing.{
  ledger, clashes, insert_or_ignore_entry, TypedEntry, NewEntry, find_appended, drop_inserted,
  append_typed_entry, accept_appended, load_appended, entry_row,
  append_topup_settlement_ledger_entry, append_upgrade_credit_grant_ledger_entry,
  is_topup_settlement_ledger_entry, is_upgrade_credit_grant_ledger_entry,
}
use mailagents_email_runtime.Payments.Exchange.{Facilitator}
use mailagents_email_runtime.Payments.Receipts.{ReceiptColumns, update_receipt, receipts}
use mailagents_email_runtime.Payments.Retry.{confirm_payment}
use mailagents_email_runtime.Payments.Frame.{IsRemote, OfTables}
use mailagents_email_runtime.Payments.Finalized.{KeepsAppends}
use mailagents_email_runtime.Payments.Retried.{IsCurrent-Mine, confirm_payment-Keeps}
use mailagents_email_runtime.Payments.Updated.{updates}
use mailagents_email_runtime.Payments.Current.{settle_current-Keeps}
use mailagents_email_runtime.Payments.Entries.{settlements, Any}
use mailagents_email_runtime.Payments.Credited.{keep-nil}
use mailagents_email_runtime.Payments.Linked.{zero-cases, appends-Same, update_receipt-Same}
use mailagents_email_runtime.Payments.Settled.{counted}

-- The ledger before and after: the same, or with one entry of the receipt in front, which had none.
abbrev pub Adds : ℕ → ℕ → List LedgerEntry → List LedgerEntry → Type 0
Adds t id es es' =
    (es' ≡ es)
    ⊎ ((settlements id es ≡ 0)
        × (e : LedgerEntry) × (es' ≡ e ∷ es)
        × (e.tenant_id ≡ t)
        × (e.payment_receipt_id ≡ some id))

module _ (t id : ℕ) (es : List LedgerEntry) where
  abbrev Q : List LedgerEntry → List PaymentReceipt → Type 0
  Q l _ = Adds t id es l

  -- A first append of an entry whose metadata are of its type.
  append-Adds :
      (expected : TypedEntry → Bool) (m : CreditLedgerMetadata) (n : NewEntry) (w : World)
      → ((e : LedgerEntry) → expected (record { entry = e; metadata = m }) ≡ true)
      → n.tenant_id ≡ t
      → n.payment_receipt_id ≡ some id
      → settlements id (ledger w) ≡ 0
      → (ledger (append_typed_entry expected (entry_type_of m) m n w).1 ≡ ledger w)
        ⊎ (ledger (append_typed_entry expected (entry_type_of m) m n w).1
            ≡ entry_row n (entry_type_of m) m w.next_id w.now ∷ ledger w)
  unfolding append_typed_entry create_id insert_or_ignore_entry load_appended find_appended
      accept_appended drop_inserted
  append-Adds expected m n w fits p q z =
      let row = entry_row n (entry_type_of m) m w.next_id w.now in
      elim (Bool-cases (any (clashes row) (ledger w))) [
        | inl c ↦ inl (ground (arith, c, q))
        | inr c ↦
            ground
              (arith, c, p, q, keep-nil id n.tenant_id (ledger w) z, parse-serialize m, fits row)
      ]

  -- An append where the receipt has no entry, or on top of the one that was added.
  append-Keeps :
      (expected : TypedEntry → Bool) (m : CreditLedgerMetadata) (n : NewEntry)
      → ((e : LedgerEntry) → expected (record { entry = e; metadata = m }) ≡ true)
      → n.tenant_id ≡ t
      → n.payment_receipt_id ≡ some id
      → ((l : List LedgerEntry)
          → settlements id l ≢ 0
          → Keeps (λ w. ledger w ≡ l) (append_typed_entry expected (entry_type_of m) m n))
      → Keeps (OfTables Q) (append_typed_entry expected (entry_type_of m) m n)
  append-Keeps expected m n fits p q same w (inr (z, e, new, et, ep)) =
      inr (z, e, same (ledger w) (counted id e es (ledger w) ep new) w refl ∙ new, et, ep)
  append-Keeps expected m n fits p q same w (inl h) = elim (zero-cases (settlements id es)) [
    | inr entered ↦
        inl (same (ledger w) (λ z. entered (ap (settlements id) (sym h) ∙ z)) w refl ∙ h)
    | inl z ↦ elim (append-Adds expected m n w fits p q (ap (settlements id) h ∙ z)) [
      | inl kept ↦ inl (kept ∙ h)
      | inr new ↦
          let row = entry_row n (entry_type_of m) m w.next_id w.now in
          inr (z, row, new ∙ ap (λ l. row ∷ l) h, p, q)
    ]
  ]

  appends-Adds : KeepsAppends Q t id
  unfolding append_topup_settlement_ledger_entry append_upgrade_credit_grant_ledger_entry
  appends-Adds = record {
    topups = λ n s p q.
        append-Keeps is_topup_settlement_ledger_entry (topup_settlement s) n (λ _. refl) p q
          (λ l entered. (appends-Same id l entered t).topups n s p q);
    upgrades = λ n s p q.
        append-Keeps is_upgrade_credit_grant_ledger_entry (upgrade_credit_grant s) n (λ _. refl) p q
          (λ l entered. (appends-Same id l entered t).upgrades n s p q);
  }

  update_receipt-Adds :
      (c : ReceiptColumns) → Any c.status → Keeps (OfTables Q) (update_receipt t id c)
  update_receipt-Adds c a w h =
      subst (Adds t id es) (sym (update_receipt-Same (ledger w) t id c a w refl)) h

-- The retry of the settlement of a receipt leaves the ledger as it is, or puts one entry of that
-- receipt and its tenant in front, and this only where the receipt had none, whatever the
-- facilitator answers and whatever fails, if the facilitator leaves the tables alone.
pub confirm_payment-Adds :
    (f : Facilitator) (t id : ℕ) (w : World)
    → IsRemote f
    → Adds t id (ledger w) (ledger (confirm_payment f t id w).1)
confirm_payment-Adds f t id w remote =
    confirm_payment-Keeps (Q t id (ledger w)) t id f
      (λ r v p current.
        settle_current-Keeps (Q t id (ledger w)) t id Any
          (updates (Q t id (ledger w)) Any t id (λ u x h e. tt)
            (update_receipt-Adds t id (ledger w)))
          (appends-Adds t id (ledger w)) f remote r (IsCurrent-Mine t id r (receipts v) current)
          (λ _ _. tt) (λ _. tt) (λ _. tt) v p)
      w (inl refl)
