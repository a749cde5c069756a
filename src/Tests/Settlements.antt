-- ===== src/Tests/Settlements.antt =====
-- Routing, the policy's decision, and the settlement of a job.
use mailagents_email_runtime.Base.{
  ◌≡◌, ◌≢◌, ◌<◌, ◌⊎◌, refl, true, false, none, some, [], ◌∷◌, is_empty,
}
use mailagents_email_runtime.Base.Int.{pos, ◌+ℤ◌, ◌-ℤ◌}
use mailagents_email_runtime.Text.{codes}
use mailagents_email_runtime.World.{World, Action, ok, unavailable, throw, create_id}
use mailagents_email_runtime.LedgerMetadata.{
  Debit, parse_typed_credit_ledger_entry, serialize_credit_ledger_metadata,
  build_outbound_usage_ledger_metadata,
}
use mailagents_email_runtime.Billing.{
  ledger, ensure_tenant_billing_account, get_typed_credit_ledger_entry_by_reference_id,
  append_outbound_usage_ledger_entry, append_typed_entry, capture_tenant_reserved_credits,
  reconcile_tenant_available_credits,
}
use mailagents_email_runtime.Billing.Laws.{IsBalanced}
use mailagents_email_runtime.Billing.Append.{Appends}
use mailagents_email_runtime.Routing.{
  RoutedOutboundRecipients, route_outbound_recipients, normalize_recipient_list,
}
use mailagents_email_runtime.Routing.Splits.{SplitsAll, route-SplitsAll}
use mailagents_email_runtime.Routing.Counts.{CountsOf, DistinctDomains, route_counts}
use mailagents_email_runtime.Policy.{
  UsageCounts, decide, evaluate_external, ensure_tenant_send_policy, get_agent_policy,
  agent_refuses, check_quota, evaluate_outbound_policy, allow, deny, PolicyCode,
}
use mailagents_email_runtime.Policy.Laws.{
  GrantedIn, evaluate_outbound_policy_allows, evaluate_outbound_policy-ne-quota,
}
use mailagents_email_runtime.Credits.{
  classify_outbound_usage_entry_type, OutboundCreditRequirement, OutboundUsageDebit, settle_found,
  settle_first, append_debit, debit_usage, capture, capture_and_reconcile, reconcile, settle_debit,
  settle_outbound_usage_debit,
}
use mailagents_email_runtime.Credits.Laws.Once.{settle_debit_lem, debit_row}
use mailagents_email_runtime.Credits.Laws.Repeat.{settle_twice-ledger}
use mailagents_email_runtime.Tests.{world, failing_at, recipients}

route-SplitsAll_example : SplitsAll world recipients (route_outbound_recipients recipients world)
route-SplitsAll_example = route-SplitsAll recipients world

abbrev routed : RoutedOutboundRecipients
routed = record {
  to_internal = record { address = codes "bot@mailagents.net"; mailbox_id = 5; tenant_id = 1 } ∷ [];
  cc_internal = [];
  bcc_internal = [];
  to_external = codes "ann@example.org" ∷ [];
  cc_external = codes "ann@example.org" ∷ [];
  bcc_external = [];
  internal_recipient_count = 1;
  external_recipient_count = 2;
  external_to_recipient_count = 1;
  recipient_domains = codes "mailagents.net" ∷ codes "example.org" ∷ [];
  internal_domains = codes "mailagents.net" ∷ [];
  external_domains = codes "example.org" ∷ [];
}

routes : route_outbound_recipients recipients world ≡ (ok routed, world)
unfolding route_outbound_recipients
routes = refl

route_counts_example :
    CountsOf
      (normalize_recipient_list recipients.to)
      (normalize_recipient_list recipients.cc)
      (normalize_recipient_list recipients.bcc)
      routed
    × DistinctDomains routed
route_counts_example = route_counts recipients world world routed routes

abbrev no_counts : Action UsageCounts
no_counts = throw unavailable

-- The tenant, which holds credits, is given the default policy.
abbrev decided : World
decided = (evaluate_outbound_policy no_counts 1 3 recipients world).1

decides : evaluate_outbound_policy no_counts 1 3 recipients world ≡ (ok allow, decided)
unfolding evaluate_outbound_policy route_outbound_recipients decide evaluate_external
    ensure_tenant_send_policy ensure_tenant_billing_account ◌+ℤ◌ get_agent_policy agent_refuses
    check_quota
decides = refl

evaluate_outbound_policy_allows_example :
    (r : RoutedOutboundRecipients) × (v : World) × (route_outbound_recipients recipients world
      ≡ (ok r, v))
    × ((is_empty r.recipient_domains ≡ false)
        × ((r.external_recipient_count ≡ 0)
            ⊎ ((0 < r.external_to_recipient_count) × GrantedIn 1 3 decided r)))
evaluate_outbound_policy_allows_example =
    evaluate_outbound_policy_allows no_counts 1 3 recipients world decided decides

evaluate_outbound_policy-ne-quota_example :
    (evaluate_outbound_policy no_counts 1 3 recipients world).0
    ≢ ok (deny PolicyCode.daily_quota_exceeded)
evaluate_outbound_policy-ne-quota_example =
    evaluate_outbound_policy-ne-quota no_counts 1 3 recipients PolicyCode.daily_quota_exceeded world
      refl

abbrev debit : OutboundUsageDebit
debit = record {
  tenant_id = 1;
  message_id = 10;
  outbound_job_id = 20;
  draft_id = none;
  origin = record { source_message_id = none; created_via = some (codes "api") };
  recipients = recipients;
}

abbrev requirement : OutboundCreditRequirement
requirement = record {
  entry_type = Debit.debit_send;
  credits_required = pos 1;
  requires_credits = true;
  recipient_domains = routed.recipient_domains;
  external_domains = routed.external_domains;
}

abbrev settled : World
settled = (settle_debit debit requirement world).1

settles : settle_debit debit requirement world ≡ (ok tt, settled)
unfolding settle_debit get_typed_credit_ledger_entry_by_reference_id settle_found settle_first
    append_debit append_outbound_usage_ledger_entry parse_typed_credit_ledger_entry
    serialize_credit_ledger_metadata debit_usage capture capture_and_reconcile reconcile
    capture_tenant_reserved_credits reconcile_tenant_available_credits append_typed_entry create_id
    build_outbound_usage_ledger_metadata classify_outbound_usage_entry_type ◌+ℤ◌ ◌-ℤ◌
settles = refl

settle_debit_lem_example :
    IsBalanced 1 settled
    × Appends 20 (debit_row debit requirement 100 7) (ledger world) (ledger settled)
settle_debit_lem_example = settle_debit_lem debit requirement world settled settles

-- The settlement is run again, with other faults to come.
settle_twice-ledger_example :
    ledger (settle_outbound_usage_debit debit (record settled { faults = (failing_at 6).faults })).1
    ≡ ledger settled
settle_twice-ledger_example =
    settle_twice-ledger debit requirement world settled
      (record settled { faults = (failing_at 6).faults }) settles refl
