-- ===== src/Outbound/Recovery.antt =====
-- The runs that do not send end in an acknowledgement or a retry.
use mailagents_email_runtime.Base.{
  ◌+◌, ℕ, Bool, true, false, not, ◌||◌, Option, none, some, is_some, if◌then◌else◌, ltb,
}
use Prim.Native.String.{String}
use mailagents_email_runtime.World.{
  Message, MessageStatus, Draft, DraftStatus, OutboundJob, OutboundJobStatus, Action, Failure, ◌>>◌,
  Keeps, pure, when,
}
use mailagents_email_runtime.Routing.{Recipients}
use mailagents_email_runtime.Routing.Calm.{IsCalm}
use mailagents_email_runtime.Credits.{settle_outbound_usage_debit}
use mailagents_email_runtime.Credits.Laws.Calm.{settle-IsCalm}
use mailagents_email_runtime.Outbound.{
  update_outbound_job_status, update_message_status, mark_draft_status,
}
use mailagents_email_runtime.Outbound.Recover.{
  complete_draft, is_replied, is_sent_draft, is_delivered, is_undelivered, is_failed_message,
  Outcome, ack, retry, TerminalDeliveryOutcome, try_then, no_recipients, caught,
  enqueue_dead_letter, dead_letter, settle_sent, recover_sent, recover_accepted, recover_failed,
  give_up, recover_sending, mark_draft, release_draft, ignored, settlement, status_update,
}
use mailagents_email_runtime.Outbound.Calm.{
  ignored-IsCalm, mark_draft-IsCalm, mark_draft_status-IsCalm, release_draft-IsCalm, then-IsCalm,
  update_job-IsCalm, update_message-IsCalm, when-IsCalm,
}
use mailagents_email_runtime.Outbound.Answers.{
  Answers, try_then-Answers, fail_send-Answers, enqueue-IsCalm,
}

module _ (max : ℕ) (job : OutboundJob) (draft : Option Draft) where
  pub caught-Answers : (r : Recipients) (e : Failure) → Answers (caught max job draft r e)
  caught-Answers r e = fail_send-Answers max job.id (some job) draft r e

  pub dead_letter-Answers :
      (source : String) (o : Outcome) (r : Recipients)
      → Answers (dead_letter max job draft source o r)
  unfolding dead_letter
  dead_letter-Answers source o r =
      try_then-Answers (enqueue_dead_letter source job.id) (caught max job draft r) (λ _. pure o)
        (enqueue-IsCalm source job.id) (caught-Answers r) (λ _ w c. tt)

  pub settle_sent-Answers :
      (message : Message) (r : Recipients) → Answers (settle_sent max job draft message r)
  unfolding settle_sent
  settle_sent-Answers message r =
      try_then-Answers (settle_outbound_usage_debit (settlement job message draft r))
        (λ _. dead_letter max job draft "outbound-billing" retry r) (λ _. pure ack)
        (settle-IsCalm (settlement job message draft r))
        (λ _. dead_letter-Answers "outbound-billing" retry r) (λ _ w c. tt)

  complete-IsCalm : (d : Option Draft) → Keeps IsCalm (complete_draft d)
  complete-IsCalm none = λ w c. c
  complete-IsCalm (some d) =
      when-IsCalm (not (is_sent_draft d.status)) (mark_draft_status d.id DraftStatus.sent)
        (mark_draft_status-IsCalm d.id DraftStatus.sent)

  pub recover_sent-Answers :
      (message : Message) (r : Recipients) → Answers (recover_sent max job draft message r)
  unfolding recover_sent
  recover_sent-Answers message r =
      let reply = update_message_status job.message_id MessageStatus.replied in
      let b = not (is_replied message.status) in
      try_then-Answers (when b reply >> complete_draft draft)
        (λ _. dead_letter max job draft "outbound-send" retry r)
        (λ _. settle_sent max job draft message r)
        (then-IsCalm (when b reply) (complete_draft draft)
          (when-IsCalm b reply (update_message-IsCalm job.message_id MessageStatus.replied))
          (complete-IsCalm draft))
        (λ _. dead_letter-Answers "outbound-send" retry r) (λ _. settle_sent-Answers message r)

  recover_accepted-Answers :
      (message : Message) (r : Recipients) → Answers (recover_accepted max job draft message r)
  unfolding recover_accepted
  recover_accepted-Answers message r =
      let reply = update_message_status job.message_id MessageStatus.replied in
      let mark = mark_draft draft DraftStatus.sent in
      let update = update_outbound_job_status job.id (status_update OutboundJobStatus.sent) in
      try_then-Answers (reply >> mark >> update)
        (λ _. dead_letter max job draft "outbound-send" retry r)
        (λ _. settle_sent max job draft message r)
        (then-IsCalm (reply >> mark) update
          (then-IsCalm reply mark (update_message-IsCalm job.message_id MessageStatus.replied)
            (mark_draft-IsCalm draft DraftStatus.sent))
          (update_job-IsCalm job.id (status_update OutboundJobStatus.sent)))
        (λ _. dead_letter-Answers "outbound-send" retry r) (λ _. settle_sent-Answers message r)

  recover_failed-Answers : (r : Recipients) → Answers (recover_failed max job draft r)
  unfolding recover_failed
  recover_failed-Answers r =
      let fail = update_message_status job.message_id MessageStatus.failed in
      let mark = mark_draft draft DraftStatus.failed in
      let update = update_outbound_job_status job.id (status_update OutboundJobStatus.failed) in
      let rest : Action Outcome =
        try_then (release_draft draft r >> update)
          (λ _. dead_letter max job draft "outbound-send" retry r) (λ _. pure ack) in
      try_then-Answers (fail >> mark)
        (λ _. dead_letter max job draft "outbound-send" retry no_recipients) (λ _. rest)
        (then-IsCalm fail mark (update_message-IsCalm job.message_id MessageStatus.failed)
          (mark_draft-IsCalm draft DraftStatus.failed))
        (λ _. dead_letter-Answers "outbound-send" retry no_recipients)
        (λ _.
          try_then-Answers (release_draft draft r >> update)
            (λ _. dead_letter max job draft "outbound-send" retry r) (λ _. pure ack)
            (then-IsCalm (release_draft draft r) update (release_draft-IsCalm draft r)
              (update_job-IsCalm job.id (status_update OutboundJobStatus.failed)))
            (λ _. dead_letter-Answers "outbound-send" retry r) (λ _ w c. tt))

  give_up-IsCalm :
      (r : Recipients)
      → Keeps IsCalm (
          update_outbound_job_status job.id (status_update OutboundJobStatus.failed)
          >> ignored (update_message_status job.message_id MessageStatus.failed)
          >> ignored (mark_draft draft DraftStatus.failed)
          >> ignored (release_draft draft r))
  give_up-IsCalm r =
      let update = update_outbound_job_status job.id (status_update OutboundJobStatus.failed) in
      let fail = update_message_status job.message_id MessageStatus.failed in
      let mark = mark_draft draft DraftStatus.failed in
      let release = release_draft draft r in
      then-IsCalm (update >> ignored fail >> ignored mark) (ignored release)
        (then-IsCalm (update >> ignored fail) (ignored mark)
          (then-IsCalm update (ignored fail)
            (update_job-IsCalm job.id (status_update OutboundJobStatus.failed))
            (ignored-IsCalm fail (update_message-IsCalm job.message_id MessageStatus.failed)))
          (ignored-IsCalm mark (mark_draft-IsCalm draft DraftStatus.failed)))
        (ignored-IsCalm release (release_draft-IsCalm draft r))

  give_up-Answers : (r : Recipients) → Answers (give_up max job draft r)
  unfolding give_up
  give_up-Answers r =
      try_then-Answers
        (update_outbound_job_status job.id (status_update OutboundJobStatus.failed)
          >> ignored (update_message_status job.message_id MessageStatus.failed)
          >> ignored (mark_draft draft DraftStatus.failed)
          >> ignored (release_draft draft r))
        (caught max job draft r) (λ _. dead_letter max job draft "outbound-send" ack r)
        (give_up-IsCalm r) (caught-Answers r) (λ _. dead_letter-Answers "outbound-send" ack r)

  either_of-Answers :
      (b : Bool) (m k : Action Outcome)
      → Answers m
      → Answers k
      → Answers (λ w. if b then m w else k w)
  either_of-Answers true m k hm hk = hm
  either_of-Answers false m k hm hk = hk

  pub recover_sending-Answers :
      (grace : ℕ) (message : Message) (o : Option TerminalDeliveryOutcome) (r : Recipients)
      → Answers (recover_sending max job draft grace message o r)
  unfolding recover_sending
  recover_sending-Answers grace message o r w =
      either_of-Answers
        (is_some message.provider_message_id
          || (is_some message.sent_at || (is_replied message.status || is_delivered o)))
        (recover_accepted max job draft message r)
        (λ w.
          if is_failed_message message.status || is_undelivered o
          then recover_failed max job draft r w
          else (if ltb w.now (job.updated_at + grace)
              then pure retry w
              else give_up max job draft r w))
        (recover_accepted-Answers message r)
        (either_of-Answers (is_failed_message message.status || is_undelivered o)
          (recover_failed max job draft r)
          (λ w.
            if ltb w.now (job.updated_at + grace) then pure retry w else give_up max job draft r w)
          (recover_failed-Answers r)
          (λ v.
            either_of-Answers (ltb v.now (job.updated_at + grace)) (pure retry)
              (give_up max job draft r) (λ w c. tt) (give_up-Answers r) v))
        w
