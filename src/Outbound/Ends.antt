-- ===== src/Outbound/Ends.antt =====
-- Every run ends in an acknowledgement or a retry where no service fails.
use mailagents_email_runtime.Base.{ℕ, Bool, true, false, Option, none, some, List}
use mailagents_email_runtime.Json.{Fields}
use mailagents_email_runtime.World.{
  World, Message, MessageStatus, Draft, DraftStatus, OutboundJob, OutboundJobStatus, DeliveryEvent,
  plain, ◌>>=◌, ◌>>◌, require_row, bind-Keeps,
}
use mailagents_email_runtime.Routing.{Recipients, route_outbound_recipients}
use mailagents_email_runtime.Routing.Calm.{IsCalm, route-IsCalm}
use mailagents_email_runtime.Outbound.{
  get_outbound_job, get_message, list_delivery_events_by_message_id, get_mailbox_by_id,
  get_draft_by_r2_key_for_outbound_lifecycle, claim_outbound_job_for_send,
  update_outbound_job_status, mark_message_sent,
}
use mailagents_email_runtime.Outbound.Recover.{
  payload_recipients, get_terminal_delivery_outcome, ack, try_then, no_recipients, caught,
  fail_send, dead_letter, settle_sent, mark_draft, status_update,
}
use mailagents_email_runtime.Outbound.Send.{
  allow_draft, Services, Limits, read_payload, handle_outbound_send, with_job, with_payload,
  with_draft, with_message, dispatch_by, claim_and_send, send_if_claimed, send_reloaded,
  send_claimed, record_sent, deliver,
}
use mailagents_email_runtime.Outbound.Calm.{
  claim-IsCalm, draft-IsCalm, events-IsCalm, get_job-IsCalm, mailbox-IsCalm, mark_draft-IsCalm,
  mark_sent-IsCalm, message-IsCalm, payload-IsCalm, require_job-IsCalm, then-IsCalm,
  update_job-IsCalm,
}
use mailagents_email_runtime.Outbound.Answers.{
  IsAnswer, Answers, try_then-Answers, fail_send-Answers,
}
use mailagents_email_runtime.Outbound.Recovery.{
  caught-Answers, dead_letter-Answers, settle_sent-Answers, recover_sent-Answers,
  recover_sending-Answers,
}
use mailagents_email_runtime.Outbound.Delivery.{AreCalm, deliver-IsCalm, allow-IsCalm}

module _ (s : Services) (limits : Limits) (calm : AreCalm s) where
  record_sent-Answers :
      (job : OutboundJob) (draft : Option Draft) (message : Message) (r : Recipients) (provider : ℕ)
      → Answers (record_sent s limits job draft message r provider)
  unfolding record_sent
  record_sent-Answers job draft message r provider =
      let update = update_outbound_job_status job.id (status_update OutboundJobStatus.sent) in
      let mark = mark_message_sent job.message_id provider MessageStatus.replied in
      let done = mark_draft draft DraftStatus.sent in
      try_then-Answers (update >> mark >> done)
        (λ _. dead_letter limits.max_retries job draft "outbound-send" ack r)
        (λ _. settle_sent limits.max_retries job draft message r)
        (then-IsCalm (update >> mark) done
          (then-IsCalm update mark (update_job-IsCalm job.id (status_update OutboundJobStatus.sent))
            (mark_sent-IsCalm job.message_id provider MessageStatus.replied))
          (mark_draft-IsCalm draft DraftStatus.sent))
        (λ _. dead_letter-Answers limits.max_retries job draft "outbound-send" ack r)
        (λ _. settle_sent-Answers limits.max_retries job draft message r)

  send_claimed-Answers :
      (job : OutboundJob) (draft : Option Draft) (message : Message) (payload : Fields)
      → Answers (send_claimed s limits job draft message payload)
  unfolding send_claimed
  send_claimed-Answers job draft message payload =
      let r = payload_recipients payload in
      try_then-Answers (get_mailbox_by_id message.mailbox_id >>= require_row)
        (caught limits.max_retries job draft no_recipients)
        (λ mailbox.
          try_then
            (allow_draft s draft
              >> (route_outbound_recipients r >>= deliver s limits job mailbox.address payload r))
            (caught limits.max_retries job draft r) (record_sent s limits job draft message r))
        (mailbox-IsCalm message.mailbox_id)
        (caught-Answers limits.max_retries job draft no_recipients)
        (λ mailbox.
          try_then-Answers
            (allow_draft s draft
              >> (route_outbound_recipients r >>= deliver s limits job mailbox.address payload r))
            (caught limits.max_retries job draft r) (record_sent s limits job draft message r)
            (then-IsCalm (allow_draft s draft)
              (route_outbound_recipients r >>= deliver s limits job mailbox.address payload r)
              (allow-IsCalm s limits calm draft)
              (bind-Keeps IsCalm (route_outbound_recipients r)
                (deliver s limits job mailbox.address payload r) (route-IsCalm r)
                (deliver-IsCalm s limits calm job mailbox.address payload r)))
            (caught-Answers limits.max_retries job draft r)
            (record_sent-Answers job draft message r))

  send_reloaded-Answers :
      (id : ℕ) (draft : Option Draft) (message : Message) (payload : Fields)
      (o : Option OutboundJob)
      → Answers (send_reloaded s limits id draft message payload o)
  unfolding send_reloaded
  send_reloaded-Answers id draft message payload none =
      fail_send-Answers limits.max_retries id none draft no_recipients plain
  send_reloaded-Answers id draft message payload (some job) =
      send_claimed-Answers job draft message payload

  module _ (job : OutboundJob) where
    send_if_claimed-Answers :
        (draft : Option Draft) (message : Message) (payload : Fields) (b : Bool)
        → Answers (send_if_claimed s limits job draft message payload b)
    unfolding send_if_claimed
    send_if_claimed-Answers draft message payload false = λ w c. tt
    send_if_claimed-Answers draft message payload true =
        try_then-Answers (get_outbound_job job.id)
          (caught limits.max_retries job draft no_recipients)
          (send_reloaded s limits job.id draft message payload) (get_job-IsCalm job.id)
          (caught-Answers limits.max_retries job draft no_recipients)
          (send_reloaded-Answers job.id draft message payload)

    claim_and_send-Answers :
        (draft : Option Draft) (message : Message) (payload : Fields)
        → Answers (claim_and_send s limits job draft message payload)
    unfolding claim_and_send
    claim_and_send-Answers draft message payload =
        try_then-Answers (claim_outbound_job_for_send job.id)
          (caught limits.max_retries job draft no_recipients)
          (send_if_claimed s limits job draft message payload) (claim-IsCalm job.id)
          (caught-Answers limits.max_retries job draft no_recipients)
          (send_if_claimed-Answers draft message payload)

    dispatch-Answers :
        (status : OutboundJobStatus) (draft : Option Draft) (payload : Fields) (message : Message)
        (events : List DeliveryEvent)
        → Answers (dispatch_by s limits status job draft payload message events)
    unfolding dispatch_by
    dispatch-Answers OutboundJobStatus.sent draft payload message events =
        recover_sent-Answers limits.max_retries job draft message (payload_recipients payload)
    dispatch-Answers OutboundJobStatus.sending draft payload message events =
        recover_sending-Answers limits.max_retries job draft limits.in_doubt_grace message
          (get_terminal_delivery_outcome events) (payload_recipients payload)
    dispatch-Answers OutboundJobStatus.queued draft payload message events =
        claim_and_send-Answers draft message payload
    dispatch-Answers OutboundJobStatus.retry draft payload message events =
        claim_and_send-Answers draft message payload
    dispatch-Answers OutboundJobStatus.failed draft payload message events =
        claim_and_send-Answers draft message payload

    with_message-Answers :
        (draft : Option Draft) (payload : Fields) (message : Message)
        → Answers (with_message s limits job draft payload message)
    unfolding with_message
    with_message-Answers draft payload message =
        try_then-Answers (list_delivery_events_by_message_id message.id)
          (caught limits.max_retries job draft no_recipients)
          (dispatch_by s limits job.status job draft payload message) (events-IsCalm message.id)
          (caught-Answers limits.max_retries job draft no_recipients)
          (dispatch-Answers job.status draft payload message)

    with_draft-Answers :
        (payload : Fields) (draft : Option Draft) → Answers (with_draft s limits job payload draft)
    unfolding with_draft
    with_draft-Answers payload draft =
        try_then-Answers (get_message job.message_id >>= require_row)
          (caught limits.max_retries job draft no_recipients)
          (with_message s limits job draft payload) (message-IsCalm job.message_id)
          (caught-Answers limits.max_retries job draft no_recipients)
          (with_message-Answers draft payload)

    with_payload-Answers : (payload : Fields) → Answers (with_payload s limits job payload)
    unfolding with_payload
    with_payload-Answers payload =
        try_then-Answers (get_draft_by_r2_key_for_outbound_lifecycle job.draft_r2_key)
          (caught limits.max_retries job none no_recipients) (with_draft s limits job payload)
          (draft-IsCalm job.draft_r2_key) (caught-Answers limits.max_retries job none no_recipients)
          (with_draft-Answers payload)

    with_job-Answers : Answers (with_job s limits job)
    unfolding with_job
    with_job-Answers =
        try_then-Answers (read_payload job.draft_r2_key)
          (caught limits.max_retries job none no_recipients) (with_payload s limits job)
          (payload-IsCalm job.draft_r2_key)
          (caught-Answers limits.max_retries job none no_recipients) with_payload-Answers

-- Where no call of a service fails, and the draft's check, the local delivery and the provider lead
-- to no failing call, though they may throw themselves, a run ends in an acknowledgement or a retry
-- of the message of the queue: it does not throw.
pub handle-IsAnswer :
    (s : Services) (limits : Limits) (id : ℕ) (w : World)
    → AreCalm s
    → IsCalm w
    → IsAnswer (handle_outbound_send s limits id w).0
unfolding handle_outbound_send
handle-IsAnswer s limits id w calm =
    try_then-Answers (get_outbound_job id >>= require_row)
      (fail_send limits.max_retries id none none no_recipients) (with_job s limits)
      (require_job-IsCalm id) (fail_send-Answers limits.max_retries id none none no_recipients)
      (with_job-Answers s limits calm) w
