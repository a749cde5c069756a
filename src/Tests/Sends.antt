-- ===== src/Tests/Sends.antt =====
-- Outbound jobs and messages.
use mailagents_email_runtime.Base.{refl, ◌≡◌, ◌≤◌, none, some, find, arith, [], ◌∷◌}
use mailagents_email_runtime.World.{
  World, MessageStatus, OutboundJob, OutboundJobStatus, pure, throw, unavailable, calm,
}
use mailagents_email_runtime.Outbound.{
  updated_job, jobs, messages, is_visible_job, claim_outbound_job_for_send, JobUpdate,
  mark_message_sent, has_visible_message, has_mailbox,
}
use mailagents_email_runtime.Outbound.Turned.{Turns, claim-Turns}
use mailagents_email_runtime.Outbound.Claim.{Excludes, claim-Excludes}
use mailagents_email_runtime.Outbound.Sent.{carriers, mark_sent-IsUnique}
use mailagents_email_runtime.Outbound.Send.{Services, Limits, handle_outbound_send}
use mailagents_email_runtime.Outbound.Once.{handle_cong}
use mailagents_email_runtime.Outbound.Answers.{IsAnswer}
use mailagents_email_runtime.Outbound.Ends.{handle-IsAnswer}
use mailagents_email_runtime.Outbound.Unreadable.{handle_unreadable, retried}
use mailagents_email_runtime.Tests.{world, failing_at, job}

abbrev job_update : JobUpdate
job_update = record { status = OutboundJobStatus.retry; retry_count = some 1; next_retry_at = none }

-- the reload after the claim fails
claim-Turns_example : Turns 20 (failing_at 1) (claim_outbound_job_for_send 20 (failing_at 1))
claim-Turns_example = claim-Turns 20 (failing_at 1)

claim-Excludes_example :
    Excludes
      (claim_outbound_job_for_send 20 world)
      (claim_outbound_job_for_send 20 (claim_outbound_job_for_send 20 world).1)
claim-Excludes_example = claim-Excludes 20 world

mark_sent-IsUnique_example :
    carriers world.mail.mailboxes 9
      (messages (mark_message_sent 10 9 MessageStatus.replied world).1)
    ≤ 1
mark_sent-IsUnique_example =
    mark_sent-IsUnique 9 9 10 MessageStatus.replied world (omega arith) (omega arith)

abbrev limits : Limits
limits = record { max_retries = 3; in_doubt_grace = 120000 }

-- a provider that accepts every message
abbrev accepting : Services
accepting = record {
  ensure_draft_send_allowed = λ d. pure tt;
  deliver_locally_to_mailboxes = λ j p r l. pure tt;
  send_outbound_draft = λ j a p r. pure 9;
  internal_message_id = λ j. j.id;
}

-- and one that cannot be reached
abbrev unreachable : Services
unreachable = record {
  ensure_draft_send_allowed = λ d. pure tt;
  deliver_locally_to_mailboxes = λ j p r l. throw unavailable;
  send_outbound_draft = λ j a p r. throw unavailable;
  internal_message_id = λ j. j.id;
}

abbrev sent_job : OutboundJob
sent_job = record job { status = OutboundJobStatus.sent }

-- the world with a job that is sent, whose payload is not in R2
abbrev sent_world : World
sent_world = record world { mail = record (world.mail) { jobs = sent_job ∷ [] } }

handle_cong_example :
    handle_outbound_send accepting limits 20 sent_world
    ≡ handle_outbound_send unreachable limits 20 sent_world
unfolding has_visible_message has_mailbox
handle_cong_example = handle_cong accepting unreachable limits 20 sent_world refl

handle_unreadable_example :
    find
      (is_visible_job sent_world.mail.mailboxes sent_world.mail.messages 20)
      (jobs (handle_outbound_send accepting limits 20 (calm sent_world)).1)
    ≡ some (updated_job (retried 3 sent_job) 7 sent_job)
unfolding has_visible_message has_mailbox
handle_unreadable_example = handle_unreadable accepting limits sent_world sent_job refl refl

handle-IsAnswer_example : IsAnswer (handle_outbound_send unreachable limits 20 world).0
handle-IsAnswer_example =
    handle-IsAnswer unreachable limits 20 world
      ((λ d w c. c), (λ j p r l w c. c), (λ j a p r w c. c)) refl
