-- ===== src/Policy/Tenant.antt =====
-- src/repositories/tenant-policies.ts and src/lib/send-limits.ts.
use mailagents_email_runtime.Base.{ℕ, Bool, true, false, Option, none, some, List, [], ◌∷◌, map}
use mailagents_email_runtime.Text.{Text, codes, trim, to_lower_case, non_empty}
use mailagents_email_runtime.World.{
  PricingTier, TenantOutboundStatus, SendPolicy, World, Action, Done, ◌>>=◌, ◌>>◌, pure, gets,
  require_row, modify, service,
}
use mailagents_email_runtime.World.Tables.{put}

-- `EffectiveSendLimits`; `windowModel` is "rolling" exactly where there are limits
pub record EffectiveSendLimits : Type 0 where
  pub daily_send_limit : Option ℕ
  pub hourly_send_limit : Option ℕ
  pub is_rolling : Bool

unfoldable pub get_effective_send_limits : PricingTier → EffectiveSendLimits
get_effective_send_limits PricingTier.free = record {
  daily_send_limit = some 10;
  hourly_send_limit = some 1;
  is_rolling = true;
}
get_effective_send_limits _ = record {
  daily_send_limit = none;
  hourly_send_limit = none;
  is_rolling = false;
}

abbrev clean_domains : List Text → List Text
unfolding trim to_lower_case
clean_domains items = non_empty (map (λ s. to_lower_case (trim s)) items)

-- `TenantSendPolicyRecord`: a row and the limits of its tier
pub record TenantSendPolicy : Type 0 where
  pub pricing_tier : PricingTier
  pub outbound_status : TenantOutboundStatus
  pub internal_domain_allowlist : List Text
  pub external_send_enabled : Bool
  pub review_required : Bool
  pub effective_daily_send_limit : Option ℕ
  pub effective_hourly_send_limit : Option ℕ
  pub limit_window_is_rolling : Bool
  pub updated_at : ℕ

unfoldable pub map_tenant_send_policy_row : SendPolicy → TenantSendPolicy
unfolding get_effective_send_limits trim to_lower_case
map_tenant_send_policy_row row =
    let limits = get_effective_send_limits row.pricing_tier in
    record {
      pricing_tier = row.pricing_tier;
      outbound_status = row.outbound_status;
      internal_domain_allowlist = clean_domains row.internal_domain_allowlist;
      external_send_enabled = row.external_send_enabled;
      review_required = row.review_required;
      effective_daily_send_limit = limits.daily_send_limit;
      effective_hourly_send_limit = limits.hourly_send_limit;
      limit_window_is_rolling = limits.is_rolling;
      updated_at = row.updated_at;
    }

abbrev pub policy_of : Option SendPolicy → Option TenantSendPolicy
policy_of none = none
policy_of (some row) = some (map_tenant_send_policy_row row)

unfoldable pub get_tenant_send_policy : ℕ → Action (Option TenantSendPolicy)
unfolding service map_tenant_send_policy_row
get_tenant_send_policy t = service >> gets (λ w. policy_of (w.bank.send_policies t))

abbrev set_send_policy : ℕ → SendPolicy → World → World
set_send_policy t p w = record w {
  bank = record (w.bank) { send_policies = put t p w.bank.send_policies };
}

abbrev pub default_send_policy : ℕ → SendPolicy
default_send_policy now = record {
  pricing_tier = PricingTier.free;
  outbound_status = TenantOutboundStatus.internal_only;
  internal_domain_allowlist = codes "mailagents.net" ∷ [];
  external_send_enabled = false;
  review_required = true;
  updated_at = now;
}

insert_send_policy : ℕ → Action Done
unfolding service
insert_send_policy t = service >> λ w. elim (w.bank.send_policies t) [
  | some _ ↦ pure tt w
  | none ↦ pure tt (set_send_policy t (default_send_policy w.now) w)
]

unfoldable pub ensure_tenant_send_policy : ℕ → Action TenantSendPolicy
unfolding get_tenant_send_policy insert_send_policy
ensure_tenant_send_policy t = do
  existing ← get_tenant_send_policy t
  elim existing [
    | some policy ↦ pure policy
    | none ↦ do insert_send_policy t; created ← get_tenant_send_policy t; require_row created
  ]

-- The row that the caller gives but for its time, with the allowlist cleaned.
unfoldable pub upsert_tenant_send_policy : ℕ → SendPolicy → Action TenantSendPolicy
unfolding get_tenant_send_policy service trim to_lower_case
upsert_tenant_send_policy t input = do
  service
  modify (λ w.
      set_send_policy t
        (record input {
          internal_domain_allowlist = clean_domains input.internal_domain_allowlist;
          updated_at = w.now;
        })
        w)
  row ← get_tenant_send_policy t
  require_row row
