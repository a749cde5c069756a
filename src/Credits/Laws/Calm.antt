-- ===== src/Credits/Laws/Calm.antt =====
-- The settlement and the release where no service fails.
use mailagents_email_runtime.Base.Int.{ℤ}
use mailagents_email_runtime.Base.{
  ℕ, ◌+◌, Bool, true, false, Option, none, some, arith, if◌then◌else◌,
}
use mailagents_email_runtime.World.{
  LedgerEntry, CreditLedgerEntryType, Keeps, bind-Keeps, pure, create_id, ◌>>◌,
}
use mailagents_email_runtime.LedgerMetadata.{CreditLedgerMetadata, debit_type, outbound_usage}
use mailagents_email_runtime.Credits.Laws.Once.{debit_entry}
use mailagents_email_runtime.Billing.{
  TypedEntry, NewEntry, get_typed_credit_ledger_entry_by_reference_id,
  append_outbound_usage_ledger_entry, append_typed_entry, capture_tenant_reserved_credits,
  reconcile_tenant_available_credits, release_tenant_reserved_credits, insert_or_ignore_entry,
  load_appended, find_appended, accept_appended, drop_inserted, anything, delete_entry, entry_row,
}
use mailagents_email_runtime.Routing.{Recipients, route_outbound_recipients}
use mailagents_email_runtime.Routing.Calm.{IsCalm, route-IsCalm}
use mailagents_email_runtime.Credits.Requirement.{
  Origin, OutboundCreditRequirement, get_outbound_credit_requirement, requirement_for,
}
use mailagents_email_runtime.Credits.Settle.{
  OutboundUsageDebit, debit_usage, append_debit, reconcile, capture, capture_and_reconcile,
  settle_first, settle_found, settle_debit, settle_required, settle_outbound_usage_debit,
  release_outbound_usage_reservation,
}

insert-IsCalm : (e : LedgerEntry) → Keeps IsCalm (insert_or_ignore_entry e)
unfolding insert_or_ignore_entry
insert-IsCalm e w h = ground arith

find-IsCalm : (n : NewEntry) → Keeps IsCalm (find_appended n)
unfolding find_appended
find-IsCalm n w h = ground arith

accept-IsCalm :
    (n : NewEntry) (id : ℕ) (b : Bool) (o : Option TypedEntry)
    → Keeps IsCalm (accept_appended anything n id b o)
unfolding accept_appended drop_inserted delete_entry
accept-IsCalm n id b none w h = ground arith
accept-IsCalm n id b (some e) w h = h

append_typed-IsCalm :
    (type : CreditLedgerEntryType) (m : CreditLedgerMetadata) (n : NewEntry)
    → Keeps IsCalm (append_typed_entry anything type m n)
unfolding append_typed_entry create_id load_appended
append_typed-IsCalm type m n w h =
    bind-Keeps IsCalm (insert_or_ignore_entry (entry_row n type m w.next_id w.now))
      (load_appended anything n w.next_id) (insert-IsCalm (entry_row n type m w.next_id w.now))
      (λ b.
        bind-Keeps IsCalm (find_appended n) (accept_appended anything n w.next_id b) (find-IsCalm n)
          (accept-IsCalm n w.next_id b))
      (record w { next_id = w.next_id + 1 }) h

module _ (d : OutboundUsageDebit) (r : OutboundCreditRequirement) where
  append-IsCalm : Keeps IsCalm (append_debit d r)
  unfolding append_debit append_outbound_usage_ledger_entry
  append-IsCalm =
      append_typed-IsCalm (debit_type (debit_usage d r).entry_type)
        (outbound_usage (debit_usage d r)) (debit_entry d r)

  capture-IsCalm : Keeps IsCalm (capture d r)
  unfolding capture capture_tenant_reserved_credits
  capture-IsCalm w h = ground arith

  reconcile-IsCalm : (t : ℕ) → Keeps IsCalm (reconcile t)
  unfolding reconcile reconcile_tenant_available_credits
  reconcile-IsCalm t w h = ground arith

  lookup-IsCalm : (t ref : ℕ) → Keeps IsCalm (get_typed_credit_ledger_entry_by_reference_id t ref)
  unfolding get_typed_credit_ledger_entry_by_reference_id
  lookup-IsCalm t ref w h = ground arith

  release_tenant-IsCalm : (t : ℕ) (c : ℤ) → Keeps IsCalm (release_tenant_reserved_credits t c)
  unfolding release_tenant_reserved_credits
  release_tenant-IsCalm t c w h = ground arith

  settle_found-IsCalm : (o : Option TypedEntry) → Keeps IsCalm (settle_found d r o)
  unfolding settle_found settle_first capture_and_reconcile
  settle_found-IsCalm (some _) = reconcile-IsCalm d.tenant_id
  settle_found-IsCalm none =
      bind-Keeps IsCalm (append_debit d r) (λ _. capture_and_reconcile d r) append-IsCalm
        (λ _.
          bind-Keeps IsCalm (capture d r) (λ _. reconcile d.tenant_id) capture-IsCalm
            (λ _. reconcile-IsCalm d.tenant_id))

  settle_if-IsCalm : (b : Bool) → Keeps IsCalm (λ w. if b then settle_debit d r w else pure tt w)
  unfolding settle_debit
  settle_if-IsCalm true =
      bind-Keeps IsCalm
        (get_typed_credit_ledger_entry_by_reference_id d.tenant_id d.outbound_job_id)
        (settle_found d r) (lookup-IsCalm d.tenant_id d.outbound_job_id) settle_found-IsCalm
  settle_if-IsCalm false = λ w h. h

requirement-IsCalm :
    (input : Recipients) (o : Origin) → Keeps IsCalm (get_outbound_credit_requirement input o)
unfolding get_outbound_credit_requirement
requirement-IsCalm input o =
    bind-Keeps IsCalm (route_outbound_recipients input) (λ c. pure (requirement_for o c))
      (route-IsCalm input) (λ c w h. h)

pub settle-IsCalm : (d : OutboundUsageDebit) → Keeps IsCalm (settle_outbound_usage_debit d)
unfolding settle_outbound_usage_debit settle_required
settle-IsCalm d =
    bind-Keeps IsCalm (get_outbound_credit_requirement d.recipients d.origin) (settle_required d)
      (requirement-IsCalm d.recipients d.origin) (λ r. settle_if-IsCalm d r r.requires_credits)

release_if-IsCalm :
    (t : ℕ) (c : ℤ) (b : Bool)
    → Keeps IsCalm (if b then (release_tenant_reserved_credits t c >> pure tt) else pure tt)
unfolding release_tenant_reserved_credits
release_if-IsCalm t c true w h = ground arith
release_if-IsCalm t c false w h = h

pub release-IsCalm :
    (t : ℕ) (o : Origin) (input : Recipients)
    → Keeps IsCalm (release_outbound_usage_reservation t o input)
unfolding release_outbound_usage_reservation
release-IsCalm t o input =
    bind-Keeps IsCalm (get_outbound_credit_requirement input o) _ (requirement-IsCalm input o)
      (λ r. release_if-IsCalm t r.credits_required r.requires_credits)
