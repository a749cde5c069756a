-- ===== src/Credits/Laws/Repeat.antt =====
-- A debit that was settled is not entered again.
use mailagents_email_runtime.Base.{
  ℕ, ◌≡◌, refl, ◌≢◌, subst, ◌∙◌, Bool, true, false, Option, none, some, List, ◌∷◌, arith, suc, zero,
  if◌then◌else◌,
}
use mailagents_email_runtime.World.{
  World, LedgerEntry, CreditLedgerEntryType, Action, ok, pure, Keeps, bind-Keeps, create_id,
}
use mailagents_email_runtime.LedgerMetadata.{CreditLedgerMetadata, debit_type, outbound_usage}
use mailagents_email_runtime.Billing.{
  ledger, TypedEntry, NewEntry, anything, entry_row, append_typed_entry, insert_or_ignore_entry,
  load_appended, find_appended, accept_appended, drop_inserted, append_outbound_usage_ledger_entry,
  get_typed_credit_ledger_entry_by_reference_id,
}
use mailagents_email_runtime.Billing.References.{references}
use mailagents_email_runtime.Billing.Append.{any-clashes, AppendsAt}
use mailagents_email_runtime.Credits.Requirement.{
  OutboundCreditRequirement, get_outbound_credit_requirement,
}
use mailagents_email_runtime.Credits.Settle.{
  OutboundUsageDebit, append_debit, reconcile, debit_usage, capture, capture_and_reconcile,
  settle_first, settle_found, settle_debit, settle_required, settle_outbound_usage_debit,
}
use mailagents_email_runtime.Credits.Laws.Frame.{
  LeavesLedger, reconcile-LeavesLedger, capture-LeavesLedger, get_typed-LeavesLedger,
  requirement-LeavesLedger,
}
use mailagents_email_runtime.Credits.Laws.Once.{debit_entry, debit_row, settle_debit_lem}

-- The ledger is `es`.
abbrev Stays : List LedgerEntry → World → Type 0
Stays es w = ledger w ≡ es

frame-Stays :
    {A : Type 0} (es : List LedgerEntry) (m : Action A) → LeavesLedger m → Keeps (Stays es) m
frame-Stays es m same w h = same w ∙ h

module _ (es : List LedgerEntry) (d : OutboundUsageDebit)
    (entered : references d.outbound_job_id es ≢ 0) where
  append-Stays :
      (type : CreditLedgerEntryType) (m : CreditLedgerMetadata) (n : NewEntry)
      → n.payment_receipt_id ≡ none
      → n.reference_id ≡ some d.outbound_job_id
      → Keeps (Stays es) (append_typed_entry anything type m n)
  unfolding append_typed_entry create_id insert_or_ignore_entry load_appended find_appended
      accept_appended drop_inserted
  append-Stays type m n p q w h =
      let clash =
        (any-clashes (entry_row n type m w.next_id w.now) d.outbound_job_id es p q).1 entered in
      ground (arith, clash, p, q, h)

  module _ (r : OutboundCreditRequirement) where
    append_debit-Stays : Keeps (Stays es) (append_debit d r)
    unfolding append_debit append_outbound_usage_ledger_entry
    append_debit-Stays =
        append-Stays (debit_type (debit_usage d r).entry_type) (outbound_usage (debit_usage d r))
          (debit_entry d r) refl refl

    settle_found-Stays : (o : Option TypedEntry) → Keeps (Stays es) (settle_found d r o)
    unfolding settle_found settle_first capture_and_reconcile capture
    settle_found-Stays (some _) =
        frame-Stays es (reconcile d.tenant_id) (reconcile-LeavesLedger d.tenant_id)
    settle_found-Stays none =
        bind-Keeps (Stays es) (append_debit d r) (λ _. capture_and_reconcile d r) append_debit-Stays
          (λ _.
            bind-Keeps (Stays es) (capture d r) (λ _. reconcile d.tenant_id)
              (frame-Stays es (capture d r) (capture-LeavesLedger d.tenant_id r.credits_required))
              (λ _. frame-Stays es (reconcile d.tenant_id) (reconcile-LeavesLedger d.tenant_id)))

    settle_if-Stays :
        (b : Bool) → Keeps (Stays es) (λ w. if b then settle_debit d r w else pure tt w)
    unfolding settle_debit
    settle_if-Stays true =
        bind-Keeps (Stays es)
          (get_typed_credit_ledger_entry_by_reference_id d.tenant_id d.outbound_job_id)
          (settle_found d r)
          (frame-Stays es
            (get_typed_credit_ledger_entry_by_reference_id d.tenant_id d.outbound_job_id)
            (get_typed-LeavesLedger d.tenant_id d.outbound_job_id))
          settle_found-Stays
    settle_if-Stays false = λ w h. h

  settle_outbound-Stays : Keeps (Stays es) (settle_outbound_usage_debit d)
  unfolding settle_outbound_usage_debit settle_required
  settle_outbound-Stays =
      bind-Keeps (Stays es) (get_outbound_credit_requirement d.recipients d.origin)
        (settle_required d)
        (frame-Stays es (get_outbound_credit_requirement d.recipients d.origin)
          (requirement-LeavesLedger d.recipients d.origin))
        (λ r. settle_if-Stays r r.requires_credits)

-- An append leaves an entry of its reference.
appended-ne-zero :
    (k n : ℕ) (row : LedgerEntry) (es es' : List LedgerEntry)
    → row.reference_id ≡ some k
    → references k es ≡ n
    → AppendsAt n row es es'
    → references k es' ≢ 0
appended-ne-zero k zero row es es' q e new z =
    let none_left : references k (row ∷ es) ≡ 0 = subst (λ l. references k l ≡ 0) new z in
    ground (arith, q, none_left)
appended-ne-zero k (suc n) row es es' q e same z =
    let none_left : references k es ≡ 0 = subst (λ l. references k l ≡ 0) same z in
    omega (arith, none_left, e)

-- A debit whose settlement has returned, for a job that credits are required for, is in the ledger
-- once and for all: where the settlement is run again on the same ledger, whatever has become of
-- the rest of the world and whatever fails, it leaves the ledger as it is.
pub settle_twice-ledger :
    (d : OutboundUsageDebit) (r : OutboundCreditRequirement) (w v u : World)
    → settle_debit d r w ≡ (ok tt, v)
    → ledger u ≡ ledger v
    → ledger (settle_outbound_usage_debit d u).1 ≡ ledger v
settle_twice-ledger d r w v u h same =
    let (_, appends) = settle_debit_lem d r w v h in
    let entered =
      appended-ne-zero d.outbound_job_id (references d.outbound_job_id (ledger w))
        (debit_row d r w.next_id w.now) (ledger w) (ledger v) refl refl appends in
    settle_outbound-Stays (ledger v) d entered u same
