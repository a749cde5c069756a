-- ===== src/Credits/Settle.antt =====
-- src/lib/outbound-billing.ts. Failures of the last two statements differ: a failed capture is
-- swallowed, a failed reconciliation is thrown.
use mailagents_email_runtime.Base.{ℕ, Option, none, some, [], ◌∷◌, if◌then◌else◌}
use mailagents_email_runtime.Base.Int.{neg}
use mailagents_email_runtime.Text.{Text}
use mailagents_email_runtime.World.{BillingAccount, Action, Done, ◌>>=◌, ◌>>◌, pure, catch_with}
use mailagents_email_runtime.LedgerMetadata.{OutboundUsage, build_outbound_usage_ledger_metadata}
use mailagents_email_runtime.Billing.{
  TypedEntry, get_typed_credit_ledger_entry_by_reference_id, append_outbound_usage_ledger_entry,
  capture_tenant_reserved_credits, release_tenant_reserved_credits,
  reconcile_tenant_available_credits,
}
use mailagents_email_runtime.Routing.{Recipients}
use mailagents_email_runtime.Credits.Requirement.{
  Origin, OutboundCreditRequirement, classify_outbound_usage_entry_type,
  get_outbound_credit_requirement,
}

-- A key as the text that the metadata holds.
abbrev pub key_text : ℕ → Text
key_text k = k ∷ []

abbrev pub optional_key_text : Option ℕ → Option Text
optional_key_text none = none
optional_key_text (some k) = some (key_text k)

pub record OutboundUsageDebit : Type 0 where
  pub tenant_id : ℕ
  pub message_id : ℕ
  pub outbound_job_id : ℕ
  pub draft_id : Option ℕ
  pub origin : Origin
  pub recipients : Recipients

unfoldable pub debit_usage : OutboundUsageDebit → OutboundCreditRequirement → OutboundUsage
unfolding build_outbound_usage_ledger_metadata
debit_usage d r =
    build_outbound_usage_ledger_metadata (classify_outbound_usage_entry_type d.origin)
      r.credits_required (key_text d.message_id) (key_text d.outbound_job_id)
      (optional_key_text d.draft_id) d.origin.created_via r.recipient_domains r.external_domains

unfoldable pub append_debit : OutboundUsageDebit → OutboundCreditRequirement → Action TypedEntry
append_debit d r =
    append_outbound_usage_ledger_entry d.tenant_id (neg r.credits_required)
      "outbound_send_settlement" d.outbound_job_id (debit_usage d r)

unfoldable pub reconcile : ℕ → Action Done
reconcile t = reconcile_tenant_available_credits t >> pure tt

-- The settlement of a requirement, from its last part backwards.
module _ (d : OutboundUsageDebit) (r : OutboundCreditRequirement) where
  unfoldable pub capture : Action (Option BillingAccount)
  capture =
      catch_with (capture_tenant_reserved_credits d.tenant_id r.credits_required) (λ _. pure none)

  unfoldable pub capture_and_reconcile : Action Done
  capture_and_reconcile = capture >>= λ _. reconcile d.tenant_id

  unfoldable pub settle_first : Action Done
  settle_first = append_debit d r >>= λ _. capture_and_reconcile

  unfoldable pub settle_found : Option TypedEntry → Action Done
  settle_found none = settle_first
  settle_found (some _) = reconcile d.tenant_id

  unfoldable pub settle_debit : Action Done
  settle_debit =
      get_typed_credit_ledger_entry_by_reference_id d.tenant_id d.outbound_job_id >>= settle_found

unfoldable pub settle_required : OutboundUsageDebit → OutboundCreditRequirement → Action Done
settle_required d r w = if r.requires_credits then settle_debit d r w else pure tt w

unfoldable pub settle_outbound_usage_debit : OutboundUsageDebit → Action Done
settle_outbound_usage_debit d =
    get_outbound_credit_requirement d.recipients d.origin >>= settle_required d

unfoldable pub release_outbound_usage_reservation : ℕ → Origin → Recipients → Action Done
release_outbound_usage_reservation t o recipients = do
  requirement ← get_outbound_credit_requirement recipients o
  if requirement.requires_credits
      then (release_tenant_reserved_credits t requirement.credits_required >> pure tt)
      else pure tt
