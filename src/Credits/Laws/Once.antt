-- ===== src/Credits/Laws/Once.antt =====
-- A settlement that returns has charged the job and leaves the account in balance.
use mailagents_email_runtime.Base.{
  ℕ, ◌≡◌, refl, ◌≢◌, true, Option, none, some, List, [], ◌∷◌, arith, is_some, keep, ap, sym, ◌∙◌,
}
use mailagents_email_runtime.Base.Int.{neg}
use mailagents_email_runtime.World.{World, Result, LedgerEntry, Action, ok, err, pure, bind-eq-ok}
use mailagents_email_runtime.LedgerMetadata.{debit_type, outbound_usage}
use mailagents_email_runtime.Billing.{
  ledger, has_reference, TypedEntry, get_typed_credit_ledger_entry_by_reference_id,
  append_outbound_usage_ledger_entry, reconcile_tenant_available_credits, NewEntry, entry_row,
  outbound_usage_entry,
}
use mailagents_email_runtime.Billing.Laws.{IsBalanced, reconcile-IsBalanced}
use mailagents_email_runtime.Billing.References.{references}
use mailagents_email_runtime.Billing.Append.{Appends, Appends-of_old, append_typed_entry-Appends}
use mailagents_email_runtime.Credits.Requirement.{OutboundCreditRequirement}
use mailagents_email_runtime.Credits.Settle.{
  OutboundUsageDebit, append_debit, reconcile, debit_usage, capture, capture_and_reconcile,
  settle_first, settle_found, settle_debit,
}
use mailagents_email_runtime.Credits.Laws.Frame.{capture-LeavesLedger}

abbrev lookup_debit : OutboundUsageDebit → Action (Option TypedEntry)
lookup_debit d = get_typed_credit_ledger_entry_by_reference_id d.tenant_id d.outbound_job_id

abbrev pub debit_entry : OutboundUsageDebit → OutboundCreditRequirement → NewEntry
debit_entry d r =
    outbound_usage_entry d.tenant_id (neg r.credits_required) "outbound_send_settlement"
      d.outbound_job_id

reconcile_done :
    (t : ℕ) (w v : World) → reconcile t w ≡ (ok tt, v) → IsBalanced t v × (ledger v ≡ ledger w)
unfolding reconcile
reconcile_done t w v h =
    let (a, u, done, last) = bind-eq-ok (reconcile_tenant_available_credits t) (λ _. pure tt) w h in
    let same : u ≡ v = ap (λ x. x.1) last in
    let (balanced, loaded, kept) = reconcile-IsBalanced t w u a done in rw (← same) (balanced, kept)

-- The ledger entry of the debit.
abbrev pub debit_row : OutboundUsageDebit → OutboundCreditRequirement → ℕ → ℕ → LedgerEntry
debit_row d r id now =
    entry_row (debit_entry d r) (debit_type (debit_usage d r).entry_type)
      (outbound_usage (debit_usage d r)) id now

module _ (d : OutboundUsageDebit) (r : OutboundCreditRequirement) where
  append_debit-Appends :
      (w v : World) (e : TypedEntry)
      → append_debit d r w ≡ (ok e, v)
      → Appends d.outbound_job_id (debit_row d r w.next_id w.now) (ledger w) (ledger v)
  unfolding append_debit append_outbound_usage_ledger_entry
  append_debit-Appends w v e h =
      append_typed_entry-Appends (debit_type (debit_usage d r).entry_type)
        (outbound_usage (debit_usage d r)) (debit_entry d r) d.outbound_job_id w v e refl refl h

  capture_and_reconcile_done :
      (w v : World)
      → capture_and_reconcile d r w ≡ (ok tt, v)
      → IsBalanced d.tenant_id v × (ledger v ≡ ledger w)
  unfolding capture_and_reconcile capture
  capture_and_reconcile_done w v h =
      let (a, u, captured, last) = bind-eq-ok (capture d r) (λ _. reconcile d.tenant_id) w h in
      let (balanced, kept) = reconcile_done d.tenant_id u v last in
      (
        balanced,
        kept
            ∙ ap (λ x. ledger x.1) (sym captured)
            ∙ capture-LeavesLedger d.tenant_id r.credits_required w,
      )

  settle_first_done :
      (w v : World)
      → settle_first d r w ≡ (ok tt, v)
      → IsBalanced d.tenant_id v
        × Appends d.outbound_job_id (debit_row d r w.next_id w.now) (ledger w) (ledger v)
  unfolding settle_first
  settle_first_done w v h =
      let (e, u, appended, last) =
        bind-eq-ok (append_debit d r) (λ _. capture_and_reconcile d r) w h in
      let (balanced, kept) = capture_and_reconcile_done u v last in
      (balanced, rw kept (append_debit-Appends w u e appended))

  settle_found_done :
      (o : Option TypedEntry) (w v : World)
      → (is_some o ≡ true → references d.outbound_job_id (ledger w) ≢ 0)
      → settle_found d r o w ≡ (ok tt, v)
      → IsBalanced d.tenant_id v
        × Appends d.outbound_job_id (debit_row d r w.next_id w.now) (ledger w) (ledger v)
  unfolding settle_found
  settle_found_done none w v found h = settle_first_done w v h
  settle_found_done (some e) w v found h =
      let (balanced, kept) = reconcile_done d.tenant_id w v h in
      (
        balanced,
        Appends-of_old d.outbound_job_id (debit_row d r w.next_id w.now) (ledger w) (ledger v)
            (found refl) kept,
      )

references-keep :
    (t k : ℕ) (es : List LedgerEntry) → references k es ≡ 0 → keep (has_reference t k) es ≡ []
references-keep t k [] h = refl
references-keep t k (e ∷ es) h = ground (arith, references-keep t k es)

-- A look-up only reads, and what it finds stands in the ledger.
abbrev Reads : ℕ → World → Result (Option TypedEntry) × World → Type 0
Reads k w (err _, v) = Unit
Reads k w (ok o, v) =
    (is_some o ≡ true → references k (ledger v) ≢ 0)
    × (ledger v ≡ ledger w)
    × (v.next_id ≡ w.next_id)
    × (v.now ≡ w.now)

get_typed-Reads :
    (t k : ℕ) (w : World) → Reads k w (get_typed_credit_ledger_entry_by_reference_id t k w)
unfolding get_typed_credit_ledger_entry_by_reference_id
get_typed-Reads t k w = ground (arith, references-keep t k (ledger w))

-- The settlement of a job that credits are required for, where it returns, leaves the tenant's
-- available credits at the ledger's total less what is reserved, and the ledger with the job's
-- debit in front where no entry had the job's reference, and otherwise as it was.
pub settle_debit_lem :
    (d : OutboundUsageDebit) (r : OutboundCreditRequirement) (w v : World)
    → settle_debit d r w ≡ (ok tt, v)
    → IsBalanced d.tenant_id v
      × Appends d.outbound_job_id (debit_row d r w.next_id w.now) (ledger w) (ledger v)
unfolding settle_debit
settle_debit_lem d r w v h =
    let (o, u, looked_up, last) = bind-eq-ok (lookup_debit d) (settle_found d r) w h in
    let (found, same, id, now) : Reads d.outbound_job_id w (ok o, u) =
      rw looked_up at (get_typed-Reads d.tenant_id d.outbound_job_id w) in
    rw (← same) (rw (← id) (rw (← now) (settle_found_done d r o u v found last)))
