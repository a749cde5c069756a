-- ===== src/Policy/Decision.antt =====
-- `evaluateOutboundPolicy` of src/lib/outbound-policy.ts. The messages of a denial are left out.
-- The usage counts come from `getTenantOutboundUsageWindowCounts`, an argument here: what is
-- proved holds whatever the counts are.
use mailagents_email_runtime.Base.{
  ℕ, Bool, true, false, not, ◌&&◌, ◌||◌, Option, none, some, List, ◌==◌, leb, ltb, if◌then◌else◌,
  any, keep, is_empty, is_some,
}
use mailagents_email_runtime.Base.Int.{pos, ◌+ℤ◌, ltb_ℤ}
use mailagents_email_runtime.Text.{Text, text_eq, to_lower_case}
use mailagents_email_runtime.World.{
  TenantOutboundStatus, BillingAccount, AgentPolicy, Action, ◌>>=◌, pure,
}
use mailagents_email_runtime.Billing.{ensure_tenant_billing_account}
use mailagents_email_runtime.Routing.{
  Recipients, RoutedOutboundRecipients, route_outbound_recipients, has_routing_error,
}
use mailagents_email_runtime.Policy.Tenant.{TenantSendPolicy, ensure_tenant_send_policy}
use mailagents_email_runtime.Policy.Agent.{
  is_default_self_serve_internal_only_agent_policy, get_agent_policy,
}

pub data PolicyCode : Type 0 where
  access_mailbox_denied invalid_recipient_routing external_send_not_enabled : PolicyCode
  recipient_domain_not_allowed daily_quota_exceeded hourly_quota_exceeded : PolicyCode

pub data OutboundPolicyDecision : Type 0 where
  allow : OutboundPolicyDecision
  deny : PolicyCode → OutboundPolicyDecision

pub record UsageCounts : Type 0 where
  pub sent_last_hour : ℕ
  pub sent_last_day : ℕ

abbrev pub is_suspended : TenantOutboundStatus → Bool
is_suspended TenantOutboundStatus.suspended = true
is_suspended _ = false

abbrev pub is_external_enabled : TenantOutboundStatus → Bool
is_external_enabled TenantOutboundStatus.external_enabled = true
is_external_enabled _ = false

abbrev pub unlocked_by_policy : TenantSendPolicy → Bool
unlocked_by_policy p = p.external_send_enabled && is_external_enabled p.outbound_status

abbrev pub unlocked_by_credits : BillingAccount → Bool
unlocked_by_credits a = ltb_ℤ (pos 0) (a.available_credits +ℤ a.reserved_credits)

abbrev pub is_locked : TenantSendPolicy → BillingAccount → Bool
is_locked p a = not (unlocked_by_policy p) && not (unlocked_by_credits a)

abbrev is_limited : TenantSendPolicy → Bool
is_limited p = is_some p.effective_daily_send_limit || is_some p.effective_hourly_send_limit

-- `allowedDomains.has(domain)`
abbrev pub allows : AgentPolicy → Text → Bool
unfolding to_lower_case
allows p domain = any (λ item. text_eq (to_lower_case item) domain) p.allowed_recipient_domains

abbrev pub disallowed : AgentPolicy → List Text → List Text
unfolding to_lower_case
disallowed p domains = keep (λ d. not (allows p d)) domains

-- the check of the agent's allowlist: whether the recipient domains are refused
unfoldable pub agent_refuses :
    Option AgentPolicy → TenantSendPolicy → BillingAccount → RoutedOutboundRecipients → Bool
unfolding is_default_self_serve_internal_only_agent_policy to_lower_case
agent_refuses none tenant account r = false
agent_refuses (some p) tenant account r =
    let bypass =
      not (is_empty r.external_domains)
      && (ltb 0 r.external_recipient_count
          && (unlocked_by_credits account
              && is_default_self_serve_internal_only_agent_policy p
                  tenant.internal_domain_allowlist)) in
    not (is_empty p.allowed_recipient_domains)
    && (not bypass && not (is_empty (disallowed p r.external_domains)))

abbrev reached : Option ℕ → ℕ → Bool
reached none used = false
reached (some limit) used = leb limit used

abbrev quota_decision : TenantSendPolicy → UsageCounts → OutboundPolicyDecision
quota_decision tenant usage =
    if reached tenant.effective_daily_send_limit usage.sent_last_day
    then deny daily_quota_exceeded
    else if reached tenant.effective_hourly_send_limit usage.sent_last_hour
    then deny hourly_quota_exceeded
    else allow

unfoldable pub check_quota :
    Action UsageCounts → TenantSendPolicy → BillingAccount → Action OutboundPolicyDecision
check_quota usage_counts tenant account w =
    if is_locked tenant account && is_limited tenant
    then (usage_counts >>= λ usage. pure (quota_decision tenant usage)) w
    else pure allow w

-- The part of the function that external recipients reach, from its last await backwards.
module _ (usage_counts : Action UsageCounts) (t agent : ℕ) (r : RoutedOutboundRecipients) where
  unfoldable pub judge_agent :
      TenantSendPolicy → BillingAccount → Option AgentPolicy → Action OutboundPolicyDecision
  judge_agent tenant account policy w =
      if agent_refuses policy tenant account r
      then pure (deny recipient_domain_not_allowed) w
      else check_quota usage_counts tenant account w

  unfoldable pub judge_account : TenantSendPolicy → BillingAccount → Action OutboundPolicyDecision
  judge_account tenant account w =
      if is_suspended tenant.outbound_status
      then pure (deny access_mailbox_denied) w
      else if is_locked tenant account && ltb 0 r.external_recipient_count
      then pure (deny external_send_not_enabled) w
      else (get_agent_policy agent >>= judge_agent tenant account) w

  unfoldable pub judge_tenant : TenantSendPolicy → Action OutboundPolicyDecision
  judge_tenant tenant = ensure_tenant_billing_account t >>= judge_account tenant

  unfoldable pub evaluate_external : Action OutboundPolicyDecision
  unfolding judge_tenant judge_account judge_agent
  evaluate_external = ensure_tenant_send_policy t >>= judge_tenant

-- the decision for recipients that are already routed
unfoldable pub decide :
    Action UsageCounts → ℕ → ℕ → RoutedOutboundRecipients → Action OutboundPolicyDecision
unfolding has_routing_error
decide usage_counts t agent r w =
    if is_empty r.recipient_domains
    then pure (deny recipient_domain_not_allowed) w
    else if has_routing_error r.external_recipient_count r.external_to_recipient_count
    then pure (deny invalid_recipient_routing) w
    else if r.external_recipient_count == 0
    then pure allow w
    else evaluate_external usage_counts t agent r w

unfoldable pub evaluate_outbound_policy :
    Action UsageCounts → ℕ → ℕ → Recipients → Action OutboundPolicyDecision
evaluate_outbound_policy usage_counts t agent input = do
  routed ← route_outbound_recipients input
  decide usage_counts t agent routed
