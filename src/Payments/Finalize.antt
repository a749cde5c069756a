-- ===== src/Payments/Finalize.antt =====
-- finalizePaymentReceiptSettlement of src/routes/api.ts, its branch for upgrades, and the whole.
use mailagents_email_runtime.Base.{
  ℕ, Bool, true, false, not, ◌&&◌, ◌||◌, Option, none, some, if◌then◌else◌, is_some,
}
use mailagents_email_runtime.Base.Int.{ℤ, pos, leb_ℤ}
use mailagents_email_runtime.Text.{Text, text_eq}
use mailagents_email_runtime.Json.{num}
use mailagents_email_runtime.World.{
  TenantBillingStatus, PricingTier, TenantOutboundStatus, Action, ◌>>=◌, ◌>>◌, route_request, pure,
  throw, throw_if,
}
use mailagents_email_runtime.World.Receipts.{PaymentReceiptType}
use mailagents_email_runtime.Billing.{
  TypedEntry, get_typed_credit_ledger_entry_by_payment_receipt_id,
  append_upgrade_credit_grant_ledger_entry, is_upgrade_credit_grant_ledger_entry,
  reconcile_tenant_available_credits, ensure_tenant_billing_account,
  update_tenant_billing_account_profile,
}
use mailagents_email_runtime.Policy.{
  TenantSendPolicy, ensure_tenant_send_policy, upsert_tenant_send_policy,
  relax_tenant_default_agent_recipient_policies_for_external_send,
}
use mailagents_email_runtime.Credits.{key_text}
use mailagents_email_runtime.Payments.Metadata.{ReceiptMetadata, Purchase, topup, upgrade}
use mailagents_email_runtime.Payments.Stored.{set_property}
use mailagents_email_runtime.Payments.Exchange.{Facilitator}
use mailagents_email_runtime.Payments.Receipts.{TypedReceipt}
use mailagents_email_runtime.Payments.Confirm.{Outcome}
use mailagents_email_runtime.Payments.Settle.{
  PaymentSettlement, is_settled, settlement_of, receipt_entry, confirmation, mark_settled,
  settle_topup,
}

abbrev pub same_outbound_status : TenantOutboundStatus → TenantOutboundStatus → Bool
same_outbound_status TenantOutboundStatus.internal_only TenantOutboundStatus.internal_only = true
same_outbound_status TenantOutboundStatus.external_review TenantOutboundStatus.external_review =
    true
same_outbound_status TenantOutboundStatus.external_enabled TenantOutboundStatus.external_enabled =
    true
same_outbound_status TenantOutboundStatus.suspended TenantOutboundStatus.suspended = true
same_outbound_status _ _ = false

abbrev pub holds_status : Option TenantOutboundStatus → TenantOutboundStatus → Bool
holds_status none s = false
holds_status (some t) s = same_outbound_status t s

abbrev pub holds_text : Option Text → Text → Bool
holds_text none s = false
holds_text (some t) s = text_eq t s

abbrev pub is_trial : TenantBillingStatus → Bool
is_trial TenantBillingStatus.trial = true
is_trial _ = false

-- `normalizedUpgradeMetadata`: the credits stand in the quote too
unfoldable pub normalized_upgrade_metadata : ReceiptMetadata → ℤ → ReceiptMetadata
unfolding set_property
normalized_upgrade_metadata m included = record m {
  quote = set_property "includedCredits" (some (num included)) m.quote;
}

-- An entry that is linked to the receipt and is no grant of an upgrade.
abbrev pub is_foreign : Option TypedEntry → Bool
is_foreign none = false
is_foreign (some e) = not (is_upgrade_credit_grant_ledger_entry e)

module _ (f : Facilitator) (outcome : Option Outcome) (requested : Option Text)
    (r : TypedReceipt) where
  abbrev pub t : ℕ
  t = r.receipt.tenant_id

  unfoldable pub append_upgrade : ℤ → Action TypedEntry
  append_upgrade included =
      append_upgrade_credit_grant_ledger_entry
        (receipt_entry f outcome requested r included (elim outcome [
          | some _ ↦ "facilitator_upgrade_credit_grant"
          | none ↦ "manual_upgrade_credit_grant"
        ]))
        (settlement_of f outcome requested r included)

  unfoldable pub grant_entry : ℤ → Option TypedEntry → Action TypedEntry
  grant_entry included none = append_upgrade included
  grant_entry included (some e) = pure e

  -- the account and the send policy of a tenant that has paid for the upgrade
  unfoldable pub approve_tenant : Action TenantSendPolicy
  approve_tenant = do
    account ← ensure_tenant_billing_account t
    update_tenant_billing_account_profile t (record {
      status = if is_trial account.status then some TenantBillingStatus.active else none;
      pricing_tier = some PricingTier.paid_active;
      default_network = r.receipt.network;
      default_asset = r.receipt.asset;
    })
    existing ← ensure_tenant_send_policy t
    policy ← upsert_tenant_send_policy t (record {
      pricing_tier = PricingTier.paid_active;
      outbound_status = TenantOutboundStatus.external_enabled;
      internal_domain_allowlist = existing.internal_domain_allowlist;
      external_send_enabled = true;
      review_required = false;
      updated_at = 0;
    })
    relax_tenant_default_agent_recipient_policies_for_external_send t
        policy.internal_domain_allowlist
    pure policy

  -- `metadataNeedsRefresh`; the credits are those of the metadata
  abbrev pub needs_refresh : TypedEntry → TenantSendPolicy → Bool
  needs_refresh e policy =
      not (is_settled r.receipt.status)
      || not (holds_text r.metadata.credit_ledger_entry_id (key_text e.entry.id))
      || not (holds_status r.metadata.send_policy_status policy.outbound_status)

  unfoldable pub refresh : ℤ → TypedEntry → TenantSendPolicy → Action TypedReceipt
  unfolding normalized_upgrade_metadata
  refresh included e policy =
      if needs_refresh e policy
      then mark_settled f outcome requested r (normalized_upgrade_metadata r.metadata included)
          (confirmation f outcome requested r e (some policy.outbound_status))
      else pure r

  -- what follows the grant
  unfoldable pub after_grant : ℤ → TypedEntry → Action PaymentSettlement
  after_grant included e = do
    policy ← approve_tenant
    account ← reconcile_tenant_available_credits t
    marked ← refresh included e policy
    pure (record {
      receipt = marked;
      ledger_entry = e;
      account = account;
      send_policy = some policy;
    })

  unfoldable pub settle_upgrade : ℤ → Option TypedEntry → Action PaymentSettlement
  settle_upgrade included found = grant_entry included found >>= after_grant included

  -- The receipt was settled before.
  unfoldable pub answer_settled : TypedEntry → Action PaymentSettlement
  answer_settled e = do
    account ← reconcile_tenant_available_credits t
    policy ← ensure_tenant_send_policy t
    pure (record { receipt = r; ledger_entry = e; account = account; send_policy = some policy })

  unfoldable pub settle_checked_upgrade : ℤ → Option TypedEntry → Action PaymentSettlement
  settle_checked_upgrade included none = settle_upgrade included none
  settle_checked_upgrade included (some e) =
      if is_settled r.receipt.status then answer_settled e else settle_upgrade included (some e)

  unfoldable pub finalize_upgrade : Purchase → Option TypedEntry → Action PaymentSettlement
  finalize_upgrade (topup _) found = throw (route_request 409)
  finalize_upgrade (upgrade included) found = do
    throw_if (leb_ℤ included (pos 0)) (route_request 409)
    throw_if (is_foreign found) (route_request 409)
    settle_checked_upgrade included found

  unfoldable pub finalize_by_type :
      PaymentReceiptType → Option TypedEntry → Action PaymentSettlement
  finalize_by_type PaymentReceiptType.upgrade found = finalize_upgrade r.metadata.purchase found
  finalize_by_type _ found = settle_topup f outcome requested r found

  unfoldable pub finalize_found : Option TypedEntry → Action PaymentSettlement
  finalize_found found = do
    throw_if (is_settled r.receipt.status && not (is_some found)) (route_request 409)
    finalize_by_type r.receipt.receipt_type found

  unfoldable pub finalize_receipt : Action PaymentSettlement
  finalize_receipt =
      get_typed_credit_ledger_entry_by_payment_receipt_id t r.receipt.id >>= finalize_found

-- The receipt of the outcome goes before the receipt that was confirmed.
abbrev pub finalized : Option Outcome → TypedReceipt → TypedReceipt
finalized none r = r
finalized (some o) r = o.receipt

unfoldable pub finalize_payment_receipt_settlement :
    Facilitator → TypedReceipt → Option Outcome → Option Text → Action PaymentSettlement
finalize_payment_receipt_settlement f r outcome requested =
    finalize_receipt f outcome requested (finalized outcome r)
