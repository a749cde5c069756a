-- ===== src/Policy/Laws.antt =====
-- What a decision of the outbound policy means.
use mailagents_email_runtime.Base.{
  ℕ, ◌≡◌, ◌≢◌, ◌⊎◌, Bool, true, false, Option, none, some, arith, ◌<◌, ◌==◌, Bool-cases, is_empty,
  if◌then◌else◌, ap, ◌∙◌, subst, is_some, inl, inr,
}
use mailagents_email_runtime.World.{
  SendPolicy, World, BillingAccount, Result-cases, AgentPolicy, Action, Result, ok, err, bind-eq-ok,
}
use mailagents_email_runtime.Billing.{ensure_tenant_billing_account}
use mailagents_email_runtime.Routing.{
  Recipients, RoutedOutboundRecipients, has_routing_error, route_outbound_recipients,
}
use mailagents_email_runtime.Policy.Tenant.{
  TenantSendPolicy, map_tenant_send_policy_row, policy_of, ensure_tenant_send_policy,
}
use mailagents_email_runtime.Policy.Agent.{get_agent_policy}
use mailagents_email_runtime.Policy.Decision.{
  PolicyCode, daily_quota_exceeded, hourly_quota_exceeded, OutboundPolicyDecision, allow, deny,
  UsageCounts, is_suspended, unlocked_by_policy, unlocked_by_credits, agent_refuses, check_quota,
  judge_tenant, judge_account, judge_agent, evaluate_external, decide, evaluate_outbound_policy,
}

abbrev pub is_quota_code : PolicyCode → Bool
is_quota_code daily_quota_exceeded = true
is_quota_code hourly_quota_exceeded = true
is_quota_code _ = false

evaluate_external-ne-quota :
    (usage : Action UsageCounts) (t agent : ℕ) (r : RoutedOutboundRecipients) (c : PolicyCode)
    (w : World)
    → is_quota_code c ≡ true
    → 0 < r.external_recipient_count
    → (evaluate_external usage t agent r w).0 ≢ ok (deny c)
unfolding evaluate_external check_quota
evaluate_external-ne-quota usage t agent r c w q p = ground arith

decide-ne-quota :
    (usage : Action UsageCounts) (t agent : ℕ) (r : RoutedOutboundRecipients) (c : PolicyCode)
    (w : World)
    → is_quota_code c ≡ true
    → (decide usage t agent r w).0 ≢ ok (deny c)
unfolding decide
decide-ne-quota usage t agent r c w q =
    ground (arith, evaluate_external-ne-quota usage t agent r c w)

-- No request is ever denied for a daily or hourly quota, whatever the usage counts are.
pub evaluate_outbound_policy-ne-quota :
    (usage : Action UsageCounts) (t agent : ℕ) (input : Recipients) (c : PolicyCode) (w : World)
    → is_quota_code c ≡ true
    → (evaluate_outbound_policy usage t agent input w).0 ≢ ok (deny c)
unfolding evaluate_outbound_policy
evaluate_outbound_policy-ne-quota usage t agent input c w q =
    elim (Result-cases (route_outbound_recipients input w)) [
      | inl (r, w', e) ↦ ground (arith, decide-ne-quota usage t agent r c w' q)
      | inr (x, w', e) ↦ ground arith
    ]

-- The tables grant an external send: the tenant is not suspended, it is unlocked by its policy or
-- by credits that it holds or has reserved, and the agent's allowlist does not refuse a domain.
abbrev pub MaySend :
    TenantSendPolicy → BillingAccount → Option AgentPolicy → RoutedOutboundRecipients → Type 0
MaySend tenant account agent r =
    (is_suspended tenant.outbound_status ≡ false)
    × ((unlocked_by_policy tenant ≡ true) ⊎ (unlocked_by_credits account ≡ true))
    × (agent_refuses agent tenant account r ≡ false)

abbrev pub Grants :
    Option SendPolicy
    → Option BillingAccount
    → Option AgentPolicy
    → RoutedOutboundRecipients
    → Type 0
Grants none account agent r = ⊥
Grants (some row) none agent r = ⊥
Grants (some row) (some a) agent r = MaySend (map_tenant_send_policy_row row) a agent r

MaySend-Grants :
    (row : Option SendPolicy) (account : Option BillingAccount) (agent : Option AgentPolicy)
    (r : RoutedOutboundRecipients) {tenant : TenantSendPolicy} {a : BillingAccount}
    → policy_of row ≡ some tenant
    → account ≡ some a
    → MaySend tenant a agent r
    → Grants row account agent r
MaySend-Grants none account agent r et ea h = cc
MaySend-Grants (some row) none agent r et ea h = cc
MaySend-Grants (some row) (some b) agent r {tenant} {a} et ea h =
    let e : map_tenant_send_policy_row row ≡ tenant = cc in let f : b ≡ a = cc in rw (e, f) h

abbrev pub policy_in : World → ℕ → Option AgentPolicy
policy_in w agent = if is_some (w.mail.agents agent) then w.mail.agent_policies agent else none

module _ (t agent : ℕ) where
  abbrev EnsuresPolicy : World → Result TenantSendPolicy × World → Type 0
  EnsuresPolicy w (ok p, w') =
      (policy_of (w'.bank.send_policies t) ≡ some p) × (policy_in w' agent ≡ policy_in w agent)
  EnsuresPolicy w (err _, w') = Unit

  ensure_policy_lem : (w : World) → EnsuresPolicy w (ensure_tenant_send_policy t w)
  unfolding ensure_tenant_send_policy
  ensure_policy_lem w = ground arith

  abbrev EnsuresAccount : World → Result BillingAccount × World → Type 0
  EnsuresAccount w (ok a, w') =
      (w'.bank.accounts t ≡ some a)
      × (w'.bank.send_policies t ≡ w.bank.send_policies t)
      × (policy_in w' agent ≡ policy_in w agent)
  EnsuresAccount w (err _, w') = Unit

  ensure_account_lem : (w : World) → EnsuresAccount w (ensure_tenant_billing_account t w)
  unfolding ensure_tenant_billing_account
  ensure_account_lem w = ground arith

  -- The tables of `w` grant the external send of `r`.
  abbrev pub GrantedIn : World → RoutedOutboundRecipients → Type 0
  GrantedIn w r = Grants (w.bank.send_policies t) (w.bank.accounts t) (policy_in w agent) r

  judge_account_lem :
      (usage : Action UsageCounts) (r : RoutedOutboundRecipients) (tenant : TenantSendPolicy)
      (account : BillingAccount) (w : World)
      → 0 < r.external_recipient_count
      → (judge_account usage t agent r tenant account w).0 ≡ ok allow
      → let v = (judge_account usage t agent r tenant account w).1 in
        MaySend tenant account (policy_in w agent) r
        × (v.bank.send_policies t ≡ w.bank.send_policies t)
        × (v.bank.accounts t ≡ w.bank.accounts t)
        × (policy_in v agent ≡ policy_in w agent)
  unfolding judge_account judge_agent check_quota get_agent_policy
  judge_account_lem usage r tenant account w p e = ground arith

  judge_account-Grants :
      (usage : Action UsageCounts) (r : RoutedOutboundRecipients) (tenant : TenantSendPolicy)
      (account : BillingAccount) (w : World)
      → 0 < r.external_recipient_count
      → policy_of (w.bank.send_policies t) ≡ some tenant
      → w.bank.accounts t ≡ some account
      → (judge_account usage t agent r tenant account w).0 ≡ ok allow
      → GrantedIn (judge_account usage t agent r tenant account w).1 r
  judge_account-Grants usage r tenant account w p et ea e =
      let (may, rows, accounts, policy) = judge_account_lem usage r tenant account w p e in
      rw (rows, accounts, policy)
        (MaySend-Grants (w.bank.send_policies t) (w.bank.accounts t) (policy_in w agent) r et ea
          may)

  evaluate_external-Grants :
      (usage : Action UsageCounts) (r : RoutedOutboundRecipients) (w w' : World)
      → 0 < r.external_recipient_count
      → evaluate_external usage t agent r w ≡ (ok allow, w')
      → GrantedIn w' r
  unfolding evaluate_external
  evaluate_external-Grants usage r w w' p e =
      let (tenant, w₁, e₁, k₁) =
        bind-eq-ok (ensure_tenant_send_policy t) (judge_tenant usage t agent r) w e in
      let (account, w₂, e₂, k₂) =
        bind-eq-ok (ensure_tenant_billing_account t) (judge_account usage t agent r tenant) w₁ k₁ in
      let f₁ : EnsuresPolicy w (ok tenant, w₁) = rw e₁ at (ensure_policy_lem w) in
      let f₂ : EnsuresAccount w₁ (ok account, w₂) = rw e₂ at (ensure_account_lem w₁) in
      subst (λ v. GrantedIn v r) (ap (λ x. x.1) k₂)
        (judge_account-Grants usage r tenant account w₂ p (ap policy_of f₂.1 ∙ f₁.0) f₂.0
          (ap (λ x. x.0) k₂))

deny-ne-allow :
    {c : PolicyCode} {v w : World}
    → ◌≡◌ {A = Result OutboundPolicyDecision × World} (ok (deny c), v) (ok allow, w)
    → ⊥
deny-ne-allow h = cc

external_to_pos : (n k : ℕ) → has_routing_error n k ≡ false → (n == 0) ≡ false → 0 < k
unfolding has_routing_error
external_to_pos n k x z = ground arith

decide-allows :
    (usage : Action UsageCounts) (t agent : ℕ) (r : RoutedOutboundRecipients) (w w' : World)
    → decide usage t agent r w ≡ (ok allow, w')
    → (is_empty r.recipient_domains ≡ false)
      × ((r.external_recipient_count ≡ 0)
          ⊎ ((0 < r.external_to_recipient_count) × GrantedIn t agent w' r))
unfolding decide
decide-allows usage t agent r w w' e = elim (Bool-cases (is_empty r.recipient_domains)) [
  | inl d ↦ absurd (deny-ne-allow (rw d at e))
  | inr d ↦
      let e₁ = rw d at e in
      elim (Bool-cases
        (has_routing_error r.external_recipient_count r.external_to_recipient_count)) [
          | inl x ↦ absurd (deny-ne-allow (rw x at e₁))
          | inr x ↦ elim (Bool-cases (r.external_recipient_count == 0)) [
            | inl z ↦ (d, inl (ground arith))
            | inr z ↦ (
              d,
              inr (
                external_to_pos r.external_recipient_count r.external_to_recipient_count x z,
                evaluate_external-Grants t agent usage r w w' (ground arith) (rw (x, z) at e₁),
              ),
            )
          ]
        ]
]

-- A request is let through only if it has a recipient domain and, unless every recipient is a
-- mailbox of this runtime, an external recipient in `to` and tables that grant the send.
pub evaluate_outbound_policy_allows :
    (usage : Action UsageCounts) (t agent : ℕ) (input : Recipients) (w w' : World)
    → evaluate_outbound_policy usage t agent input w ≡ (ok allow, w')
    → (r : RoutedOutboundRecipients) × (v : World) × (route_outbound_recipients input w ≡ (ok r, v))
      × ((is_empty r.recipient_domains ≡ false)
          × ((r.external_recipient_count ≡ 0)
              ⊎ ((0 < r.external_to_recipient_count) × GrantedIn t agent w' r)))
unfolding evaluate_outbound_policy
evaluate_outbound_policy_allows usage t agent input w w' e =
    let (r, v, routed, decided) =
      bind-eq-ok (route_outbound_recipients input) (decide usage t agent) w e in
    (r, v, routed, decide-allows usage t agent r v w' decided)
