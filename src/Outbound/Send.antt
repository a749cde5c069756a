-- ===== src/Outbound/Send.antt =====
-- `handleOutboundSend` of src/handlers/queues.ts, for one message of the queue.
use mailagents_email_runtime.Base.{
  ℕ, Bool, true, false, not, ◌++◌, Option, none, some, List, [], ◌∷◌, if◌then◌else◌, is_empty, map,
}
use mailagents_email_runtime.Text.{Text, unique, non_empty}
use mailagents_email_runtime.Json.{Json, obj, Fields, end}
use mailagents_email_runtime.World.{
  Message, MessageStatus, Draft, DraftStatus, OutboundJob, OutboundJobStatus, DeliveryEvent, Action,
  Done, outbound_policy, plain, ◌>>=◌, ◌>>◌, pure, gets, when, throw_if, require_row, service,
}
use mailagents_email_runtime.Routing.{
  Recipients, RoutedOutboundRecipients, LocalMailboxRecipient, route_outbound_recipients,
  normalize_recipient_address, has_routing_error,
}
use mailagents_email_runtime.Outbound.{
  get_outbound_job, get_message, list_delivery_events_by_message_id, get_suppression,
  get_mailbox_by_id, get_draft_by_r2_key_for_outbound_lifecycle, claim_outbound_job_for_send,
  update_outbound_job_status, mark_message_sent,
}
use mailagents_email_runtime.Outbound.Recover.{
  Outcome, ack, get_terminal_delivery_outcome, payload_recipients, no_recipients, try_then,
  status_update, mark_draft, fail_send, caught, dead_letter, settle_sent, recover_sent,
  recover_sending,
}

-- `draftObject.json()`: the runtime writes an object; of anything else no property is read.
abbrev fields_of : Json → Fields
fields_of (obj fs) = fs
fields_of _ = end

unfoldable pub read_payload : ℕ → Action Fields
unfolding service
read_payload key = do
  service
  found ← gets (λ w. w.mail.objects key)
  json ← require_row found
  pure (fields_of json)

unfoldable pub suppressed_of : List Text → Action (List Text)
unfolding get_suppression
suppressed_of [] = pure []
suppressed_of (a ∷ rest) = do
  suppressed ← get_suppression a
  found ← suppressed_of rest
  pure (if suppressed then a ∷ found else found)

unfoldable pub get_suppressed_recipients : List Text → Action (List Text)
unfolding suppressed_of unique normalize_recipient_address
get_suppressed_recipients recipients =
    suppressed_of (unique (non_empty (map normalize_recipient_address recipients)))

-- `ensureDraftSendAllowed`, `deliverLocallyToMailboxes` and `sendOutboundDraft`, which answers with
-- the provider's identifier, are arguments, and so is the number of `internal-<job>`.
pub record Services : Type 0 where
  pub ensure_draft_send_allowed : Draft → Action Done
  pub deliver_locally_to_mailboxes :
      OutboundJob → Fields → Recipients → List LocalMailboxRecipient → Action Done
  pub send_outbound_draft : OutboundJob → Text → Fields → RoutedOutboundRecipients → Action ℕ
  pub internal_message_id : OutboundJob → ℕ

abbrev pub allow_draft : Services → Option Draft → Action Done
allow_draft s none = pure tt
allow_draft s (some d) = s.ensure_draft_send_allowed d

-- The environment's `OUTBOUND_SEND_MAX_RETRIES` and the time of grace.
pub record Limits : Type 0 where
  pub max_retries : ℕ
  pub in_doubt_grace : ℕ

module _ (s : Services) (limits : Limits) where
  -- the send itself, to the mailboxes of the runtime and then to the provider
  unfoldable pub deliver :
      OutboundJob → Text → Fields → Recipients → RoutedOutboundRecipients → Action ℕ
  deliver job reply_to payload recipients routed = do
    let internal = routed.to_internal ++ (routed.cc_internal ++ routed.bcc_internal)
    let external = routed.to_external ++ (routed.cc_external ++ routed.bcc_external)
    suppressed ← get_suppressed_recipients external
    throw_if (not (is_empty suppressed)) outbound_policy
    throw_if (has_routing_error routed.external_recipient_count routed.external_to_recipient_count)
        outbound_policy
    when (not (is_empty internal)) (s.deliver_locally_to_mailboxes job payload recipients internal)
    if is_empty external
        then pure (s.internal_message_id job)
        else s.send_outbound_draft job reply_to payload routed

  -- What the code writes once the message is out, and the settlement.
  unfoldable pub record_sent :
      OutboundJob → Option Draft → Message → Recipients → ℕ → Action Outcome
  record_sent job draft message recipients provider =
      try_then
        (update_outbound_job_status job.id (status_update OutboundJobStatus.sent)
          >> mark_message_sent job.message_id provider MessageStatus.replied
          >> mark_draft draft DraftStatus.sent)
        (λ _. dead_letter limits.max_retries job draft "outbound-send" ack recipients)
        (λ _. settle_sent limits.max_retries job draft message recipients)

  unfoldable pub send_claimed : OutboundJob → Option Draft → Message → Fields → Action Outcome
  send_claimed job draft message payload =
      let recipients = payload_recipients payload in
      try_then (get_mailbox_by_id message.mailbox_id >>= require_row)
        (caught limits.max_retries job draft no_recipients)
        (λ mailbox.
          try_then
            (allow_draft s draft
              >> (route_outbound_recipients recipients
                  >>= deliver job mailbox.address payload recipients))
            (caught limits.max_retries job draft recipients)
            (record_sent job draft message recipients))

  -- `outboundJob` is null where the job cannot be found again.
  unfoldable pub send_reloaded :
      ℕ → Option Draft → Message → Fields → Option OutboundJob → Action Outcome
  send_reloaded id draft message payload none =
      fail_send limits.max_retries id none draft no_recipients plain
  send_reloaded id draft message payload (some job) = send_claimed job draft message payload

  unfoldable pub send_if_claimed :
      OutboundJob → Option Draft → Message → Fields → Bool → Action Outcome
  send_if_claimed job draft message payload false = pure ack
  send_if_claimed job draft message payload true =
      try_then (get_outbound_job job.id) (caught limits.max_retries job draft no_recipients)
        (send_reloaded job.id draft message payload)

  unfoldable pub claim_and_send : OutboundJob → Option Draft → Message → Fields → Action Outcome
  claim_and_send job draft message payload =
      try_then (claim_outbound_job_for_send job.id)
        (caught limits.max_retries job draft no_recipients)
        (send_if_claimed job draft message payload)

  -- by the status of the job
  unfoldable pub dispatch_by :
      OutboundJobStatus
      → OutboundJob
      → Option Draft
      → Fields
      → Message
      → List DeliveryEvent
      → Action Outcome
  dispatch_by OutboundJobStatus.sent job draft payload message events =
      recover_sent limits.max_retries job draft message (payload_recipients payload)
  dispatch_by OutboundJobStatus.sending job draft payload message events =
      recover_sending limits.max_retries job draft limits.in_doubt_grace message
        (get_terminal_delivery_outcome events) (payload_recipients payload)
  dispatch_by _ job draft payload message events = claim_and_send job draft message payload

  unfoldable pub with_message : OutboundJob → Option Draft → Fields → Message → Action Outcome
  with_message job draft payload message =
      try_then (list_delivery_events_by_message_id message.id)
        (caught limits.max_retries job draft no_recipients)
        (dispatch_by job.status job draft payload message)

  unfoldable pub with_draft : OutboundJob → Fields → Option Draft → Action Outcome
  with_draft job payload draft =
      try_then (get_message job.message_id >>= require_row)
        (caught limits.max_retries job draft no_recipients) (with_message job draft payload)

  unfoldable pub with_payload : OutboundJob → Fields → Action Outcome
  with_payload job payload =
      try_then (get_draft_by_r2_key_for_outbound_lifecycle job.draft_r2_key)
        (caught limits.max_retries job none no_recipients) (with_draft job payload)

  unfoldable pub with_job : OutboundJob → Action Outcome
  with_job job =
      try_then (read_payload job.draft_r2_key) (caught limits.max_retries job none no_recipients)
        (with_payload job)

  unfoldable pub handle_outbound_send : ℕ → Action Outcome
  handle_outbound_send id =
      try_then (get_outbound_job id >>= require_row)
        (fail_send limits.max_retries id none none no_recipients) with_job
