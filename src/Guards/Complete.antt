-- ===== src/Guards/Complete.antt =====
-- A draft that the guards do not refuse: where no service fails they let through each draft of
-- which the facts hold.
use mailagents_email_runtime.Base.{
  ℕ, ◌≡◌, refl, ◌∙◌, ap, inl, inr, false, not, ◌||◌, Option, none, some, List, [], ◌∷◌, arith, All,
  is_empty,
}
use mailagents_email_runtime.Text.{Text, text_eq, text_eq_refl, trim, to_lower_case}
use mailagents_email_runtime.Json.{Json, Fields}
use mailagents_email_runtime.World.{World, Mailbox, Action, ok, ◌>>=◌, calm, continue}
use mailagents_email_runtime.Outbound.{get_mailbox_by_id, get_message}
use mailagents_email_runtime.Routing.{Recipients}
use mailagents_email_runtime.Policy.{UsageCounts, allow, evaluate_outbound_policy}
use mailagents_email_runtime.Guards.Payload.{
  fields_of, DraftAttachment, parse_draft_recipients, from_address,
}
use mailagents_email_runtime.Guards.Lookup.{
  get_agent, has_active_mailbox_binding, has_active_mailbox_deployment, get_thread,
  get_attachment_owner_by_r2_key,
}
use mailagents_email_runtime.Guards.Check.{
  DraftSend, require, check_owner, check_attachment, check_attachments, validate_payload,
  validate_stored_draft_payload, read_draft_payload, check_mailbox, check_agent, check_binding,
  check_thread, check_source, check_policy, answer_decision, ensure_draft_send_allowed,
}
use mailagents_email_runtime.Guards.Facts.{
  IsMailbox, IsAgent, IsBound, IsThread, IsSource, IsOwned, IsPayload,
}

abbrev Passes : {A : Type 0} → Action A → World → A → Type 0
Passes m w a = m (calm w) ≡ (ok a, calm w)

module _ (input : DraftSend) (w : World) where
  mailbox-Passes : (b : Mailbox) → IsMailbox input w.mail b → Passes (check_mailbox input) w b
  unfolding check_mailbox get_mailbox_by_id
  mailbox-Passes b (found, tenant, active) = ground arith

  agent-Passes : IsAgent input w.mail tt → Passes (check_agent input) w tt
  unfolding check_agent get_agent
  agent-Passes found = ground arith

  binding-Passes : IsBound input w.mail tt → Passes (check_binding input) w tt
  unfolding check_binding has_active_mailbox_binding has_active_mailbox_deployment
  binding-Passes (inl bound) = rw bound refl
  binding-Passes (inr (deployed, unbound)) = ground arith

  thread-Passes : (t : Option ℕ) → IsThread input t w.mail tt → Passes (check_thread input t) w tt
  unfolding check_thread get_thread
  thread-Passes none h = refl
  thread-Passes (some id) h = ground arith

  source-Passes : (s : Option ℕ) → IsSource input s w.mail tt → Passes (check_source input s) w tt
  unfolding check_source get_message
  source-Passes none h = refl
  source-Passes (some id) h = ground arith

  attachment-Passes :
      (a : DraftAttachment) → IsOwned input w.mail a → Passes (check_attachment input a) w tt
  unfolding check_attachment get_attachment_owner_by_r2_key check_owner
  attachment-Passes a h = ground arith

  attachments-Passes :
      (l : List DraftAttachment)
      → All (IsOwned input w.mail) l
      → Passes (check_attachments input l) w tt
  unfolding check_attachments
  attachments-Passes [] h = refl
  attachments-Passes (a ∷ l) (owned, rest) =
      ap (continue (λ _. check_attachments input l)) (attachment-Passes a owned)
      ∙ attachments-Passes l rest

  is_accepted :
      (a b : Text) → is_empty a ≡ false → a ≡ b → (is_empty a || not (text_eq a b)) ≡ false
  is_accepted a b e h = rw (e, h, text_eq_refl b) refl

  then_Passes :
      {A B : Type 0} (m : Action A) (f : A → Action B) (a : A)
      → Passes m w a
      → (m >>= f) (calm w) ≡ f a (calm w)
  then_Passes m f a h = ap (continue f) h

  payload-Passes :
      (address : Text) (payload : Fields) (r : Recipients)
      → IsPayload input address payload w.mail r
      → Passes (validate_payload input address payload) w r
  unfolding validate_payload
  payload-Passes address payload r (present, from, recipients, (l, parsed, owned)) =
      rw (is_accepted (from_address payload) (to_lower_case (trim address)) present from, parsed)
        (ap (continue (λ _. require 400 (parse_draft_recipients payload)))
            (attachments-Passes l owned)
          ∙ rw recipients refl)

  stored-Passes :
      (address : Text) (json : Json) (r : Recipients)
      → w.mail.objects input.draft_r2_key ≡ some json
      → IsPayload input address (fields_of json) w.mail r
      → Passes (validate_stored_draft_payload input address) w r
  unfolding validate_stored_draft_payload read_draft_payload
  stored-Passes address json r object valid =
      rw object (payload-Passes address (fields_of json) r valid)

  policy_passes :
      (usage : Action UsageCounts) (r : Recipients) (v : World)
      → evaluate_outbound_policy usage input.tenant_id input.agent_id r (calm w) ≡ (ok allow, v)
      → check_policy input usage r (calm w) ≡ (ok tt, v)
  unfolding check_policy answer_decision
  policy_passes usage r v h = ap (continue (answer_decision input)) h

  -- Where no service fails, a draft is let through when the facts hold and the policy allows it.
  pub ensure_draft_send_allowed_complete :
      (usage : Action UsageCounts) (mailbox : Mailbox) (json : Json) (r : Recipients) (v : World)
      → IsMailbox input w.mail mailbox
      → IsAgent input w.mail tt
      → IsBound input w.mail tt
      → IsThread input input.thread_id w.mail tt
      → IsSource input input.source_message_id w.mail tt
      → w.mail.objects input.draft_r2_key ≡ some json
      → IsPayload input mailbox.address (fields_of json) w.mail r
      → evaluate_outbound_policy usage input.tenant_id input.agent_id r (calm w) ≡ (ok allow, v)
      → ensure_draft_send_allowed input usage (calm w) ≡ (ok tt, v)
  unfolding ensure_draft_send_allowed
  ensure_draft_send_allowed_complete usage mailbox json r v found agent bound thread source object
        valid permitted =
      then_Passes (check_mailbox input) _ mailbox (mailbox-Passes mailbox found)
      ∙ (then_Passes (check_agent input) _ tt (agent-Passes agent)
          ∙ (then_Passes (check_binding input) _ tt (binding-Passes bound)
              ∙ (then_Passes (check_thread input input.thread_id) _ tt
                    (thread-Passes input.thread_id thread)
                  ∙ (then_Passes (check_source input input.source_message_id) _ tt
                        (source-Passes input.source_message_id source)
                      ∙ (then_Passes (validate_stored_draft_payload input mailbox.address) _ r
                            (stored-Passes mailbox.address json r object valid)
                          ∙ policy_passes usage r v permitted)))))
