-- ===== src/Outbound/Recover.antt =====
-- The parts of `handleOutboundSend` of src/handlers/queues.ts that do not send: what becomes of a
-- message of the queue whose job is sent or sending already, or whose run has thrown. A body of the
-- source that assigns the variables its `catch` reads is cut at the assignments.
use Prim.Native.String.{String}
use mailagents_email_runtime.Base.{
  ℕ, ◌+◌, Bool, true, false, ◌&&◌, ◌||◌, not, Option, none, some, List, [], ◌∷◌, if◌then◌else◌, any,
  is_some, ltb,
}
use mailagents_email_runtime.Text.{Text}
use mailagents_email_runtime.Json.{Json, Fields, property, as_array, text_items}
use mailagents_email_runtime.World.{
  World, Message, MessageStatus, Draft, DraftStatus, OutboundJob, OutboundJobStatus, DeliveryEvent,
  delivery, bounce, complaint, reject, Action, Done, Failure, outbound_policy, validation, Result,
  ok, err, ◌>>◌, pure, when, modify, catch_with, service,
}
use mailagents_email_runtime.Routing.{Recipients}
use mailagents_email_runtime.Credits.{
  Origin, OutboundUsageDebit, settle_outbound_usage_debit, release_outbound_usage_reservation,
}
use mailagents_email_runtime.Outbound.{
  JobUpdate, update_message_status, update_outbound_job_status, mark_draft_status,
}

-- how a message of the queue ends
pub data Outcome : Type 0 where
  ack retry : Outcome

pub data TerminalDeliveryOutcome : Type 0 where
  sent failed : TerminalDeliveryOutcome

abbrev is_delivery : DeliveryEvent → Bool
is_delivery e = elim (e.event_type) [ delivery ↦ true | _ ↦ false ]

abbrev is_failure : DeliveryEvent → Bool
is_failure e = elim (e.event_type) [ bounce ↦ true | complaint ↦ true | reject ↦ true | _ ↦ false ]

unfoldable pub get_terminal_delivery_outcome : List DeliveryEvent → Option TerminalDeliveryOutcome
get_terminal_delivery_outcome events =
    if any is_delivery events
    then some TerminalDeliveryOutcome.sent
    else (if any is_failure events then some TerminalDeliveryOutcome.failed else none)

-- `Array.isArray(value) ? value.filter(isString) : []`
abbrev text_list : Option Json → List Text
text_list value = elim (as_array value) [ none ↦ [] | some items ↦ text_items items ]

abbrev pub payload_recipients : Fields → Recipients
payload_recipients payload = record {
  to = text_list (property "to" payload);
  cc = text_list (property "cc" payload);
  bcc = text_list (property "bcc" payload);
}

abbrev pub no_recipients : Recipients
no_recipients = record { to = []; cc = []; bcc = [] }

-- `try { a = await m } catch (e) { … }`, and the code that follows where nothing was thrown
abbrev pub either :
    {A B : Type 0} → (Failure → Action B) → (A → Action B) → Result A × World → Result B × World
either h k (ok a, v) = k a v
either h k (err e, v) = h e v

abbrev pub try_then : {A B : Type 0} → Action A → (Failure → Action B) → (A → Action B) → Action B
try_then m h k w = either h k (m w)

unfoldable pub enqueue_dead_letter : String → ℕ → Action Done
unfolding service
enqueue_dead_letter source id =
    service
    >> modify
        (λ w. record w { dead_letters = record { source = source; ref_id = id } ∷ w.dead_letters })

abbrev pub status_update : OutboundJobStatus → JobUpdate
status_update status = record { status = status; retry_count = none; next_retry_at = none }

-- `.catch(() => undefined)`
abbrev pub ignored : Action Done → Action Done
ignored m = catch_with m (λ _. pure tt)

abbrev draft_origin : Draft → Origin
draft_origin d = record { source_message_id = d.source_message_id; created_via = d.created_via }

-- with `draft?.createdVia` and `draft?.sourceMessageId`
abbrev origin_of : Option Draft → Origin
origin_of none = record { source_message_id = none; created_via = none }
origin_of (some d) = draft_origin d

abbrev draft_id : Option Draft → Option ℕ
draft_id none = none
draft_id (some d) = some d.id

abbrev pub settlement : OutboundJob → Message → Option Draft → Recipients → OutboundUsageDebit
settlement job message draft recipients = record {
  tenant_id = message.tenant_id;
  message_id = job.message_id;
  outbound_job_id = job.id;
  draft_id = draft_id draft;
  origin = origin_of draft;
  recipients = recipients;
}

-- `if (draft) await markDraftStatus(env, draft.id, status)`
abbrev pub mark_draft : Option Draft → DraftStatus → Action Done
mark_draft none status = pure tt
mark_draft (some d) status = mark_draft_status d.id status

abbrev pub release_draft : Option Draft → Recipients → Action Done
release_draft none recipients = pure tt
release_draft (some d) recipients =
    release_outbound_usage_reservation d.tenant_id (draft_origin d) recipients

-- The outer `catch`, with the variables as they stand where the run threw.
abbrev is_final : Failure → Bool
is_final outbound_policy = true
is_final (validation _) = true
is_final _ = false

abbrev pub next_retry_count : Option OutboundJob → Option ℕ
next_retry_count none = none
next_retry_count (some job) = some (job.retry_count + 1)

abbrev is_above : ℕ → Option ℕ → Bool
is_above max none = false
is_above max (some n) = ltb max n

abbrev pub is_exhausted : ℕ → Option OutboundJob → Failure → Bool
is_exhausted max job e = is_final e || is_above max (next_retry_count job)

abbrev pub fail_message : Option OutboundJob → Action Done
fail_message none = pure tt
fail_message (some job) = ignored (update_message_status job.message_id MessageStatus.failed)

abbrev pub failed_update : ℕ → Option OutboundJob → Failure → JobUpdate
failed_update max job e = record {
  status = if is_exhausted max job e then OutboundJobStatus.failed else OutboundJobStatus.retry;
  retry_count = next_retry_count job;
  next_retry_at = none;
}

unfoldable pub fail_send :
    ℕ → ℕ → Option OutboundJob → Option Draft → Recipients → Failure → Action Outcome
unfolding enqueue_dead_letter
fail_send max id job draft recipients e =
    let exhausted = is_exhausted max job e in
    do
      ignored (update_outbound_job_status id (failed_update max job e))
      when exhausted (fail_message job)
      when exhausted (ignored (mark_draft draft DraftStatus.failed))
      when (exhausted && is_some job) (ignored (release_draft draft recipients))
      enqueue_dead_letter "outbound-send" id
      pure (if exhausted then ack else retry)

abbrev pub is_replied : MessageStatus → Bool
is_replied MessageStatus.replied = true
is_replied _ = false

abbrev pub is_failed_message : MessageStatus → Bool
is_failed_message MessageStatus.failed = true
is_failed_message _ = false

abbrev pub is_sent_draft : DraftStatus → Bool
is_sent_draft DraftStatus.sent = true
is_sent_draft _ = false

abbrev pub is_delivered : Option TerminalDeliveryOutcome → Bool
is_delivered (some TerminalDeliveryOutcome.sent) = true
is_delivered _ = false

abbrev pub is_undelivered : Option TerminalDeliveryOutcome → Bool
is_undelivered (some TerminalDeliveryOutcome.failed) = true
is_undelivered _ = false

abbrev pub complete_draft : Option Draft → Action Done
complete_draft none = pure tt
complete_draft (some d) =
    when (not (is_sent_draft d.status)) (mark_draft_status d.id DraftStatus.sent)

-- What follows once the job, and the draft if there is one, are loaded. The job was found by its
-- identifier, so that `message.body.outboundJobId` is `job.id`.
module _ (max : ℕ) (job : OutboundJob) (draft : Option Draft) where
  -- the outer `catch`
  abbrev pub caught : Recipients → Failure → Action Outcome
  caught recipients = fail_send max job.id (some job) draft recipients

  -- A dead letter, after which the message of the queue ends as `o`.
  unfoldable pub dead_letter : String → Outcome → Recipients → Action Outcome
  unfolding enqueue_dead_letter fail_send
  dead_letter source o recipients =
      try_then (enqueue_dead_letter source job.id) (caught recipients) (λ _. pure o)

  -- the settlement, which ends a run whose job is sent
  unfoldable pub settle_sent : Message → Recipients → Action Outcome
  unfolding dead_letter
  settle_sent message recipients =
      try_then (settle_outbound_usage_debit (settlement job message draft recipients))
        (λ _. dead_letter "outbound-billing" retry recipients) (λ _. pure ack)

  -- `if (outboundJob.status === "sent")`
  unfoldable pub recover_sent : Message → Recipients → Action Outcome
  unfolding dead_letter settle_sent
  recover_sent message recipients =
      try_then
        (when (not (is_replied message.status))
            (update_message_status job.message_id MessageStatus.replied)
          >> complete_draft draft)
        (λ _. dead_letter "outbound-send" retry recipients) (λ _. settle_sent message recipients)

  -- a job that is sending, with a sign that the provider took it
  unfoldable pub recover_accepted : Message → Recipients → Action Outcome
  unfolding dead_letter settle_sent
  recover_accepted message recipients =
      try_then
        (update_message_status job.message_id MessageStatus.replied
          >> mark_draft draft DraftStatus.sent
          >> update_outbound_job_status job.id (status_update OutboundJobStatus.sent))
        (λ _. dead_letter "outbound-send" retry recipients) (λ _. settle_sent message recipients)

  -- a job that is sending, with a sign that it failed; the recipients are read halfway
  unfoldable pub recover_failed : Recipients → Action Outcome
  unfolding dead_letter
  recover_failed recipients =
      try_then
        (update_message_status job.message_id MessageStatus.failed
          >> mark_draft draft DraftStatus.failed)
        (λ _. dead_letter "outbound-send" retry no_recipients)
        (λ _.
          try_then
            (release_draft draft recipients
              >> update_outbound_job_status job.id (status_update OutboundJobStatus.failed))
            (λ _. dead_letter "outbound-send" retry recipients) (λ _. pure ack))

  -- a job that is sending without a sign: it is failed, for a person to look at
  unfoldable pub give_up : Recipients → Action Outcome
  unfolding dead_letter
  give_up recipients =
      try_then
        (update_outbound_job_status job.id (status_update OutboundJobStatus.failed)
          >> ignored (update_message_status job.message_id MessageStatus.failed)
          >> ignored (mark_draft draft DraftStatus.failed)
          >> ignored (release_draft draft recipients))
        (caught recipients) (λ _. dead_letter "outbound-send" ack recipients)

  -- `if (outboundJob.status === "sending")`, in its three parts
  unfoldable pub recover_sending :
      ℕ → Message → Option TerminalDeliveryOutcome → Recipients → Action Outcome
  unfolding recover_accepted recover_failed give_up
  recover_sending grace message outcome recipients w =
      if is_some message.provider_message_id
        || (is_some message.sent_at || (is_replied message.status || is_delivered outcome))
      then recover_accepted message recipients w
      else (if is_failed_message message.status || is_undelivered outcome
          then recover_failed recipients w
          else (if ltb w.now (job.updated_at + grace) then pure retry w else give_up recipients w))
