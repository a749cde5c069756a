-- ===== src/Guards/Sound.antt =====
-- A draft that the guards let through.
use mailagents_email_runtime.Base.{◌≡◌, refl, subst, ap, ◌⊎◌, ◌<◌, false, is_empty}
use mailagents_email_runtime.Text.{Text}
use mailagents_email_runtime.Json.{Fields}
use mailagents_email_runtime.World.{
  World, Mail, Mailbox, Action, Done, Result, ok, err, ◌>>=◌, bind-eq-ok,
}
use mailagents_email_runtime.Routing.{Recipients}
use mailagents_email_runtime.Routing.Laws.{routed_in, Routes, route-Routes}
use mailagents_email_runtime.Policy.{
  UsageCounts, OutboundPolicyDecision, allow, deny, evaluate_outbound_policy,
}
use mailagents_email_runtime.Policy.Laws.{GrantedIn, evaluate_outbound_policy_allows}
use mailagents_email_runtime.Guards.Check.{
  DraftSend, validate_stored_draft_payload, check_mailbox, check_agent, check_binding, check_thread,
  check_source, check_policy, answer_decision, ensure_draft_send_allowed,
}
use mailagents_email_runtime.Guards.Ensures.{Reached, Leads, Then, bind-Leads}
use mailagents_email_runtime.Guards.Facts.{
  IsMailbox, check_mailbox-Ensures, IsAgent, check_agent-Ensures, IsBound, check_binding-Ensures,
  IsPayload, IsThread, check_thread-Ensures, IsSource, check_source-Ensures,
}
use mailagents_email_runtime.Guards.Stored.{IsObject, Stored, validate-Ensures}

module _ (input : DraftSend) where
  -- The policy lets the send to `r` through: it has a recipient domain and, unless every recipient
  -- has an active mailbox here, an external recipient in `to` and tables that grant the send.
  abbrev pub Permits : Recipients → Mail → Done → World → Type 0
  Permits r m _ v =
      let routed = routed_in m r in
      (is_empty routed.recipient_domains ≡ false)
      × ((routed.external_recipient_count ≡ 0)
          ⊎ ((0 < routed.external_to_recipient_count)
              × GrantedIn input.tenant_id input.agent_id v routed))

  evaluate-Permits :
      (usage : Action UsageCounts) (r : Recipients) (w v : World)
      → evaluate_outbound_policy usage input.tenant_id input.agent_id r w ≡ (ok allow, v)
      → Permits r w.mail tt v
  evaluate-Permits usage r w v e =
      let (routed, u, reached, allowed) =
        evaluate_outbound_policy_allows usage input.tenant_id input.agent_id r w v e in
      let seen : Routes w r (ok routed, u) = rw reached at (route-Routes r w) in
      rw seen.0 at allowed

  answer-eq-ok :
      (d : OutboundPolicyDecision) (w v : World)
      → answer_decision input d w ≡ (ok tt, v)
      → (d ≡ allow) × (w ≡ v)
  unfolding answer_decision
  answer-eq-ok allow w v e = (refl, ap (λ x. x.1) e)
  answer-eq-ok (deny c) w v e = cc

  Leads-ok :
      {A : Type 0} (P : Mail → A → World → Type 0) (m : Action A)
      → ((a : A) (w v : World) → m w ≡ (ok a, v) → P w.mail a v)
      → Leads P m
  Leads-ok {A} P m h w = go (m w) refl
    where
      go : (x : Result A × World) → m w ≡ x → Reached P w.mail x
      go (ok a, v) e = h a w v e
      go (err _, v) e = tt

  check_policy-Leads :
      (usage : Action UsageCounts) (r : Recipients) → Leads (Permits r) (check_policy input usage r)
  unfolding check_policy
  check_policy-Leads usage r = Leads-ok (Permits r) (check_policy input usage r) (λ d w v e.
      let (decision, u, evaluated, answered) =
        bind-eq-ok (evaluate_outbound_policy usage input.tenant_id input.agent_id r)
          (answer_decision input) w e in
      let (allowed, same) = answer-eq-ok decision u v answered in
      subst (Permits r w.mail tt) same (evaluate-Permits usage r w u (rw allowed at evaluated)))

  -- What holds of the tables and of the payload when a draft is let through, `v` being the world
  -- that the guard leaves.
  abbrev pub Allowed : Mail → Done → World → Type 0
  Allowed m _ v =
      (mailbox : Mailbox) × IsMailbox input m mailbox
      × IsAgent input m tt
      × IsBound input m tt
      × IsThread input input.thread_id m tt
      × IsSource input input.source_message_id m tt
      × ((payload : Fields) × IsObject input.draft_r2_key m payload
          × ((r : Recipients) × IsPayload input mailbox.address payload m r × Permits r m tt v))

  Last : Text → Mail → Done → World → Type 0
  Last address = Then (Stored input address) Permits

  Steps : Mail → Done → World → Type 0
  Steps = Then (IsMailbox input) (λ mailbox. Then (IsAgent input) (λ _. Then (IsBound input) (λ _.
      Then (IsThread input input.thread_id)
        (λ _. Then (IsSource input input.source_message_id) (λ _. Last mailbox.address)))))

  module _ (usage : Action UsageCounts) where
    last_step : Text → Action Done
    last_step address = validate_stored_draft_payload input address >>= check_policy input usage

    last_step-Leads : (address : Text) → Leads (Last address) (last_step address)
    unfolding last_step Last
    last_step-Leads address =
        bind-Leads (Stored input address) Permits (validate_stored_draft_payload input address)
          (check_policy input usage) (validate-Ensures input address) (check_policy-Leads usage)

    ensure-Leads : Leads Steps (ensure_draft_send_allowed input usage)
    unfolding ensure_draft_send_allowed Steps last_step
    ensure-Leads =
        bind-Leads (IsMailbox input) _ (check_mailbox input) _ (check_mailbox-Ensures input)
          (λ mailbox.
            bind-Leads (IsAgent input) _ (check_agent input) _ (check_agent-Ensures input) (λ _.
              bind-Leads (IsBound input) _ (check_binding input) _ (check_binding-Ensures input)
                (λ _.
                  bind-Leads (IsThread input input.thread_id) _ (check_thread input input.thread_id)
                    _ (check_thread-Ensures input input.thread_id)
                    (λ _.
                      bind-Leads (IsSource input input.source_message_id)
                        (λ _. Last mailbox.address) (check_source input input.source_message_id)
                        (λ _. last_step mailbox.address)
                        (check_source-Ensures input input.source_message_id)
                        (λ _. last_step-Leads mailbox.address)))))

    -- A draft that is let through has an active mailbox of the tenant, an agent of the tenant that
    -- is bound or deployed to the mailbox, a thread and a source message (where it names them) of
    -- that mailbox, and a stored payload that is sent from the mailbox's address, has attachments of
    -- that mailbox only, and has recipients to which the tables grant the send.
    pub ensure_draft_send_allowed-Allowed :
        (w : World) → Reached Allowed w.mail (ensure_draft_send_allowed input usage w)
    unfolding Steps Last Stored
    ensure_draft_send_allowed-Allowed w =
        go (ensure_draft_send_allowed input usage w) (ensure-Leads w)
      where
        allowed_of : (m : Mail) (v : World) → Steps m tt v → Allowed m tt v
        allowed_of m v
              (
                b,
                mailbox,
                (
                  _,
                  agent,
                  (_, bound, (_, thread, (_, source, (r, (payload, object, valid), permits)))),
                ),
              ) =
            (b, mailbox, agent, bound, thread, source, (payload, object, (r, valid, permits)))

        go : (x : Result Done × World) → Reached Steps w.mail x → Reached Allowed w.mail x
        go (ok tt, v) h = allowed_of w.mail v h
        go (err _, v) h = tt
