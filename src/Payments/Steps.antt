-- ===== src/Payments/Steps.antt =====
-- A retry moves the status of its receipt as the life cycle of a payment allows, and changes nothing
-- else of any receipt but what the status brings with it.
use mailagents_email_runtime.Base.{
  ℕ, ◌≡◌, refl, sym, subst, ◌≢◌, Bool, true, false, Option, none, some, List, [], ◌∷◌, arith, ◌+◌,
  find,
}
use mailagents_email_runtime.World.{
  World, LedgerEntry, CreditLedgerEntryType, Keeps, bind-Keeps, create_id,
}
use mailagents_email_runtime.World.Tables.{update_rows}
use mailagents_email_runtime.World.Receipts.{
  PaymentReceipt, PaymentReceiptStatus, pending, verified, settled, failed, refunded,
}
use mailagents_email_runtime.Billing.{
  append_topup_settlement_ledger_entry, append_upgrade_credit_grant_ledger_entry, NewEntry,
  insert_or_ignore_entry, delete_entry, TypedEntry, find_appended, drop_inserted,
  append_typed_entry, accept_appended, load_appended, entry_row,
}
use mailagents_email_runtime.LedgerMetadata.{
  CreditLedgerMetadata, topup_settlement, upgrade_credit_grant,
}
use mailagents_email_runtime.Payments.Exchange.{Facilitator}
use mailagents_email_runtime.Payments.Receipts.{
  ReceiptColumns, update_receipt, receipts, is_receipt, with_columns, TypedReceipt,
}
use mailagents_email_runtime.Payments.Settle.{is_settled}
use mailagents_email_runtime.Payments.Retry.{confirm_payment, settle_current}
use mailagents_email_runtime.Payments.Frame.{IsRemote, OfTables}
use mailagents_email_runtime.Payments.Finalized.{KeepsAppends}
use mailagents_email_runtime.Payments.Retried.{IsCurrent, IsCurrent-Mine, confirm_payment-Keeps}
use mailagents_email_runtime.Payments.Updated.{Reads, Writes, updates}
use mailagents_email_runtime.Payments.Current.{settle_current-Keeps}

-- The life cycle of a payment: one step of a receipt's status. A failed receipt and a settled one
-- stay as they are; no code refunds a receipt, and one that is refunded could be confirmed again.
pub data Step : PaymentReceiptStatus → PaymentReceiptStatus → Type 0 where
  verify : Step pending verified
  reject : Step pending failed
  settle : Step verified settled
  reopen : Step refunded verified

pub data Steps (s : PaymentReceiptStatus) : PaymentReceiptStatus → Type 0 where
  here : Steps s s
  next : {u v : PaymentReceiptStatus} → Steps s u → Step u v → Steps s v

pub Steps-trans : {s u v : PaymentReceiptStatus} → Steps s u → Steps u v → Steps s v
Steps-trans p here = p
Steps-trans p (next q st) = next (Steps-trans p q) st

verified_of : (s : PaymentReceiptStatus) → is_settled s ≡ false → s ≢ failed → Steps s verified
verified_of pending h n = next here verify
verified_of verified h n = here
verified_of refunded h n = next here reopen
verified_of settled h n = cc
verified_of failed h n = absurd (n refl)

failed_of : (s : PaymentReceiptStatus) → s ≡ pending → Steps s failed
failed_of pending h = next here reject
failed_of verified h = cc
failed_of refunded h = cc
failed_of settled h = cc
failed_of failed h = here

settled_of : (s : PaymentReceiptStatus) → s ≢ failed → Steps s settled
settled_of settled n = here
settled_of pending n = next (next here verify) settle
settled_of verified n = next here settle
settled_of refunded n = next (next here reopen) settle
settled_of failed n = absurd (n refl)

-- A row of the key at the abstract status; all that a confirmation may change is that status, the
-- references, the metadata and the time of the update.
abbrev pub IsRowAt : PaymentReceiptStatus → PaymentReceipt → PaymentReceipt → Type 0
IsRowAt s old new =
    (new.status ≡ s)
    × (new ≡ record old {
      status = new.status;
      payment_reference = new.payment_reference;
      settlement_reference = new.settlement_reference;
      metadata = new.metadata;
      updated_at = new.updated_at;
    })

abbrev pub RowAt : Bool → PaymentReceiptStatus → PaymentReceipt → PaymentReceipt → Type 0
RowAt true s old new = IsRowAt s old new
RowAt false s old new = new ≡ old

-- The receipts as they were, but for the one of the key, which is at status `s`.
abbrev pub At : ℕ → ℕ → PaymentReceiptStatus → List PaymentReceipt → List PaymentReceipt → Type 0
At t id s [] [] = Unit
At t id s [] (y ∷ ys) = ⊥
At t id s (x ∷ xs) [] = ⊥
At t id s (x ∷ xs) (y ∷ ys) = RowAt (is_receipt t id x) s x y × At t id s xs ys

-- The receipts as they were, but for the one of the key, which is at a status that the life cycle
-- leads to from `s`.
abbrev pub Moves : ℕ → ℕ → PaymentReceiptStatus → List PaymentReceipt → List PaymentReceipt → Type 0
Moves t id s old new = (u : PaymentReceiptStatus) × Steps s u × At t id u old new

find-At :
    (t id : ℕ) (s : PaymentReceiptStatus) (old new : List PaymentReceipt) (x : PaymentReceipt)
    → At t id s old new
    → find (is_receipt t id) new ≡ some x
    → x.status ≡ s
find-At t id s [] [] x h e = cc
find-At t id s (o ∷ os) (n ∷ ns) x h e = ground (arith, find-At t id s os ns x)
find-At t id s [] (n ∷ ns) x h e = absurd h
find-At t id s (o ∷ os) [] x h e = absurd h

update-At :
    (t id : ℕ) (s : PaymentReceiptStatus) (c : ReceiptColumns) (old new : List PaymentReceipt)
    → At t id s old new
    → At t id c.status old (update_rows (is_receipt t id) (with_columns c) new)
update-At t id s c [] [] h = h
update-At t id s c (o ∷ os) (n ∷ ns) h = ground (arith, update-At t id s c os ns)
update-At t id s c [] (n ∷ ns) h = absurd h
update-At t id s c (o ∷ os) [] h = absurd h

module _ (R : List PaymentReceipt → Type 0) where
  -- An update leaves the receipts as they are, or changes the rows of its key.
  pub after_write :
      (t id : ℕ) (c : ReceiptColumns) (w : World)
      → R (receipts w)
      → R (update_rows (is_receipt t id) (with_columns c) (receipts w))
      → R (receipts (update_receipt t id c w).1)
  unfolding update_receipt
  after_write t id c w p q = ground arith

  abbrev OfReceipts : World → Type 0
  OfReceipts = OfTables (λ _ rs. R rs)

  insert_entry-Keeps : (e : LedgerEntry) → Keeps OfReceipts (insert_or_ignore_entry e)
  unfolding insert_or_ignore_entry
  insert_entry-Keeps e w h = ground arith

  find_appended-Keeps : (n : NewEntry) → Keeps OfReceipts (find_appended n)
  unfolding find_appended
  find_appended-Keeps n w h = ground arith

  accept_appended-Keeps :
      (expected : TypedEntry → Bool) (n : NewEntry) (id : ℕ) (b : Bool) (o : Option TypedEntry)
      → Keeps OfReceipts (accept_appended expected n id b o)
  unfolding accept_appended drop_inserted delete_entry
  accept_appended-Keeps expected n id b none w h = ground arith
  accept_appended-Keeps expected n id b (some e) w h = ground arith

  append-Keeps :
      (expected : TypedEntry → Bool) (type : CreditLedgerEntryType) (m : CreditLedgerMetadata)
      (n : NewEntry)
      → Keeps OfReceipts (append_typed_entry expected type m n)
  unfolding append_typed_entry create_id load_appended
  append-Keeps expected type m n w h =
      bind-Keeps OfReceipts (insert_or_ignore_entry (entry_row n type m w.next_id w.now))
        (load_appended expected n w.next_id)
        (insert_entry-Keeps (entry_row n type m w.next_id w.now))
        (λ b.
          bind-Keeps OfReceipts (find_appended n) (accept_appended expected n w.next_id b)
            (find_appended-Keeps n) (accept_appended-Keeps expected n w.next_id b))
        (record w { next_id = w.next_id + 1 }) h

  pub appends-Keep : (t id : ℕ) → KeepsAppends (λ _ rs. R rs) t id
  unfolding append_topup_settlement_ledger_entry append_upgrade_credit_grant_ledger_entry
  appends-Keep t id = record {
    topups = λ n s _ _. append-Keeps _ CreditLedgerEntryType.topup (topup_settlement s) n;
    upgrades =
        λ n s _ _. append-Keeps _ CreditLedgerEntryType.adjustment (upgrade_credit_grant s) n;
  }

module _ (t id : ℕ) (old : List PaymentReceipt) where
  abbrev MovesFrom : PaymentReceiptStatus → List LedgerEntry → List PaymentReceipt → Type 0
  MovesFrom s _ new = Moves t id s old new

  module _ (s : PaymentReceiptStatus) where
    Reads-Moves : Reads (MovesFrom s) (Steps s) t id
    Reads-Moves w x (u, steps, at) e =
        subst (Steps s) (sym (find-At t id u old (receipts w) x at e)) steps

    Writes-Moves : Writes (MovesFrom s) (Steps s) t id
    Writes-Moves c allowed w (u, steps, at) =
        after_write (Moves t id s old) t id c w (u, steps, at)
          (c.status, allowed, update-At t id u c old (receipts w) at)

  module _ (f : Facilitator) (remote : IsRemote f) where
    settle_current-Moves :
        (s : PaymentReceiptStatus) (r : TypedReceipt) (w : World)
        → Moves t id s old (receipts w)
        → IsCurrent t id r (receipts w)
        → Moves t id s old (receipts (settle_current f r w).1)
    settle_current-Moves s r w (u, steps, at) current =
        let e = find-At t id u old (receipts w) r.receipt at current in
        let (v, more, at') =
          settle_current-Keeps (MovesFrom u) t id (Steps u)
            (updates (MovesFrom u) (Steps u) t id (Reads-Moves u) (Writes-Moves u))
            (appends-Keep (Moves t id u old) t id) f remote r
            (IsCurrent-Mine t id r (receipts w) current)
            (λ unsettled live.
              subst (λ x. Steps x verified) e (verified_of r.receipt.status unsettled live))
            (λ p. subst (λ x. Steps x failed) e (failed_of r.receipt.status p))
            (λ live. subst (λ x. Steps x settled) e (settled_of r.receipt.status live)) w
            (u, here, at) in
        (v, Steps-trans steps more, at')

-- A retry refines the life cycle of a payment: whatever the facilitator answers and whatever fails,
-- the status of the receipt has moved by steps of the life cycle, and its columns but for status,
-- references, metadata and time, and every other receipt, are as they were, if the facilitator
-- leaves the tables alone and the receipt was at one status.
pub confirm_payment-Moves :
    (f : Facilitator) (t id : ℕ) (s : PaymentReceiptStatus) (w : World)
    → IsRemote f
    → At t id s (receipts w) (receipts w)
    → Moves t id s (receipts w) (receipts (confirm_payment f t id w).1)
confirm_payment-Moves f t id s w remote at =
    confirm_payment-Keeps (MovesFrom t id (receipts w) s) t id f
      (λ r v p current. settle_current-Moves t id (receipts w) f remote s r v p current) w
      (s, here, at)
