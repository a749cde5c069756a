-- ===== src/Policy/Relax.antt =====
-- relaxTenantDefaultAgentRecipientPoliciesForExternalSend of src/lib/self-serve-agent-policy.ts, and
-- listAgents and upsertAgentPolicy of src/repositories/agents.ts.
use mailagents_email_runtime.Base.{
  ℕ, Bool, false, Option, none, some, List, [], ◌∷◌, ◌==◌, if◌then◌else◌, keep, is_some,
}
use mailagents_email_runtime.Text.{Text}
use mailagents_email_runtime.World.{
  World, AgentPolicy, Action, Done, ◌>>=◌, ◌>>◌, plain, pure, throw, gets, require_row, catch_with,
  modify, service,
}
use mailagents_email_runtime.Policy.Agent.{
  get_agent_policy, is_default_self_serve_internal_only_agent_policy,
}

abbrev is_agent_of : ℕ → Option ℕ → Bool
is_agent_of t none = false
is_agent_of t (some u) = u == t

-- the identifiers of the tenant's agents
unfoldable pub list_agents : ℕ → Action (List ℕ)
unfolding service
list_agents t = service >> gets (λ w. keep (λ a. is_agent_of t (w.mail.agents a)) w.mail.agent_ids)

abbrev set_agent_policy : ℕ → Option AgentPolicy → World → World
set_agent_policy a p w = record w {
  mail = record (w.mail) { agent_policies = λ j. if j == a then p else w.mail.agent_policies j };
}

-- The policy of an agent that is gone is deleted again.
unfoldable pub upsert_agent_policy : ℕ → AgentPolicy → Action AgentPolicy
unfolding service get_agent_policy
upsert_agent_policy agent p = do
  service
  modify (set_agent_policy agent (some p))
  service
  found ← gets (λ w. is_some (w.mail.agents agent))
  if found
      then (get_agent_policy agent >>= require_row)
      else (catch_with (service >> modify (set_agent_policy agent none)) (λ _. pure tt)
          >> throw plain)

unfoldable pub relax_policy : List Text → ℕ → Option AgentPolicy → Action Done
unfolding is_default_self_serve_internal_only_agent_policy
relax_policy allowlist agent none = pure tt
relax_policy allowlist agent (some p) =
    if is_default_self_serve_internal_only_agent_policy p allowlist
    then (upsert_agent_policy agent (record p { allowed_recipient_domains = [] }) >> pure tt)
    else pure tt

unfoldable pub relax_agents : List Text → List ℕ → Action Done
unfolding get_agent_policy
relax_agents allowlist [] = pure tt
relax_agents allowlist (a ∷ agents) = do
  policy ← get_agent_policy a
  relax_policy allowlist a policy
  relax_agents allowlist agents

unfoldable pub relax_tenant_default_agent_recipient_policies_for_external_send :
    ℕ → List Text → Action Done
relax_tenant_default_agent_recipient_policies_for_external_send t allowlist =
    list_agents t >>= relax_agents allowlist
