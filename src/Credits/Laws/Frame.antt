-- ===== src/Credits/Laws/Frame.antt =====
-- The steps of a settlement that leave the ledger as it is.
use mailagents_email_runtime.Base.{ℕ, ◌≡◌, ap, inl, inr, none, arith}
use mailagents_email_runtime.Base.Int.{ℤ}
use mailagents_email_runtime.World.{World, Action, ok, err, pure, catch_with, Result-cases}
use mailagents_email_runtime.Billing.{
  ledger, get_typed_credit_ledger_entry_by_reference_id, capture_tenant_reserved_credits,
  reconcile_tenant_available_credits,
}
use mailagents_email_runtime.Routing.{Recipients, route_outbound_recipients}
use mailagents_email_runtime.Routing.Laws.{Routes, route-Routes}
use mailagents_email_runtime.Credits.Requirement.{Origin, get_outbound_credit_requirement}
use mailagents_email_runtime.Credits.Settle.{reconcile}

abbrev pub LeavesLedger : {A : Type 0} → Action A → Type 0
LeavesLedger m = (w : World) → ledger (m w).1 ≡ ledger w

pub reconcile-LeavesLedger : (t : ℕ) → LeavesLedger (reconcile t)
unfolding reconcile reconcile_tenant_available_credits
reconcile-LeavesLedger t w = ground arith

pub capture-LeavesLedger :
    (t : ℕ) (c : ℤ)
    → LeavesLedger (catch_with (capture_tenant_reserved_credits t c) (λ _. pure none))
unfolding capture_tenant_reserved_credits
capture-LeavesLedger t c w = ground arith

pub get_typed-LeavesLedger :
    (t ref : ℕ) → LeavesLedger (get_typed_credit_ledger_entry_by_reference_id t ref)
unfolding get_typed_credit_ledger_entry_by_reference_id
get_typed-LeavesLedger t ref w = ground arith

pub requirement-LeavesLedger :
    (input : Recipients) (o : Origin) → LeavesLedger (get_outbound_credit_requirement input o)
unfolding get_outbound_credit_requirement
requirement-LeavesLedger input o w = elim (Result-cases (route_outbound_recipients input w)) [
  | inl (r, v, e) ↦
      let same : Routes w input (ok r, v) = rw e at (route-Routes input w) in
      rw e (ap ledger same.1)
  | inr (x, v, e) ↦
      let same : Routes w input (err x, v) = rw e at (route-Routes input w) in rw e (ap ledger same)
]
