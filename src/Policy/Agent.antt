-- ===== src/Policy/Agent.antt =====
-- The default agent policy of self-serve tenants (src/lib/self-serve-agent-policy.ts) and
-- `getAgentPolicy` of src/repositories/agents.ts.
use mailagents_email_runtime.Base.{
  ℕ, Bool, true, false, not, ◌&&◌, Option, none, List, [], ◌∷◌, map, ◌==◌, is_some, if◌then◌else◌,
}
use mailagents_email_runtime.Text.{
  Text, codes, text_eq, trim, to_lower_case, unique, sort_texts, non_empty,
}
use mailagents_email_runtime.World.{AgentPolicy, Action, ◌>>◌, gets, service}

abbrev pub default_self_serve_agent_allowed_tools : List Text
default_self_serve_agent_allowed_tools = codes "reply_email" ∷ codes "mark_task_done" ∷ []

-- 0.85, in hundredths
abbrev pub default_self_serve_agent_confidence_threshold : ℕ
default_self_serve_agent_confidence_threshold = 85

abbrev pub default_self_serve_agent_max_auto_replies_per_thread : ℕ
default_self_serve_agent_max_auto_replies_per_thread = 1

unfoldable pub normalize_domain_list : List Text → List Text
unfolding trim to_lower_case unique sort_texts
normalize_domain_list items =
    sort_texts (unique (non_empty (map (λ s. to_lower_case (trim s)) items)))

unfoldable pub normalize_string_list : List Text → List Text
unfolding trim unique sort_texts
normalize_string_list items = sort_texts (unique (non_empty (map trim items)))

abbrev pub equal_string_lists : List Text → List Text → Bool
equal_string_lists [] [] = true
equal_string_lists (s ∷ ss) (t ∷ ts) = text_eq s t && equal_string_lists ss ts
equal_string_lists [] (t ∷ ts) = false
equal_string_lists (s ∷ ss) [] = false

unfoldable pub build_default_self_serve_agent_policy : List Text → AgentPolicy
unfolding normalize_domain_list
build_default_self_serve_agent_policy allowlist = record {
  auto_reply_enabled = false;
  human_review_required = true;
  confidence_threshold = default_self_serve_agent_confidence_threshold;
  max_auto_replies_per_thread = default_self_serve_agent_max_auto_replies_per_thread;
  allowed_recipient_domains = normalize_domain_list allowlist;
  blocked_sender_domains = [];
  allowed_tools = default_self_serve_agent_allowed_tools;
}

unfoldable pub is_default_self_serve_internal_only_agent_policy : AgentPolicy → List Text → Bool
unfolding normalize_domain_list normalize_string_list
is_default_self_serve_internal_only_agent_policy p allowlist =
    not p.auto_reply_enabled
    && (p.human_review_required
        && (p.confidence_threshold == default_self_serve_agent_confidence_threshold
            && (p.max_auto_replies_per_thread
                  == default_self_serve_agent_max_auto_replies_per_thread
                && (equal_string_lists (normalize_domain_list p.allowed_recipient_domains)
                      (normalize_domain_list allowlist)
                    && (equal_string_lists (normalize_string_list p.blocked_sender_domains) []
                        && equal_string_lists (normalize_string_list p.allowed_tools)
                            (normalize_string_list default_self_serve_agent_allowed_tools))))))

-- The row of the policy, where the agent exists.
unfoldable pub get_agent_policy : ℕ → Action (Option AgentPolicy)
unfolding service
get_agent_policy agent =
    service
    >> gets (λ w. if is_some (w.mail.agents agent) then w.mail.agent_policies agent else none)
