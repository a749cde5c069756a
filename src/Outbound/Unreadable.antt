-- ===== src/Outbound/Unreadable.antt =====
-- What becomes of a job whose payload is not in R2.
use mailagents_email_runtime.Base.{
  ℕ, ◌+◌, ◌≡◌, refl, Bool, true, false, none, some, List, [], ◌∷◌, arith, any, find, ltb,
  if◌then◌else◌,
}
use mailagents_email_runtime.World.{
  World, Mailbox, Message, OutboundJob, OutboundJobStatus, plain, calm,
}
use mailagents_email_runtime.World.Tables.{update_rows}
use mailagents_email_runtime.Outbound.{
  jobs, is_visible_job, get_outbound_job, JobUpdate, updated_job, update_outbound_job_status,
  update_message_status,
}
use mailagents_email_runtime.Outbound.Claim.{find-updated_self}
use mailagents_email_runtime.Outbound.Recover.{enqueue_dead_letter, fail_send, no_recipients}
use mailagents_email_runtime.Outbound.Send.{
  Services, Limits, read_payload, handle_outbound_send, with_job,
}

-- the update of a job whose run has thrown
abbrev pub retried : ℕ → OutboundJob → JobUpdate
retried max job = record {
  status =
      if ltb max (job.retry_count + 1) then OutboundJobStatus.failed else OutboundJobStatus.retry;
  retry_count = some (job.retry_count + 1);
  next_retry_at = none;
}

any-found :
    (bs : List Mailbox) (ms : List Message) (id : ℕ) (job : OutboundJob) (rows : List OutboundJob)
    → find (is_visible_job bs ms id) rows ≡ some job
    → any (is_visible_job bs ms id) rows ≡ true
any-found bs ms id job [] h = cc
any-found bs ms id job (r ∷ rows) h = ground (arith, any-found bs ms id job rows)

module _ (w : World) (job : OutboundJob) where
  abbrev is_seen : OutboundJob → Bool
  is_seen = is_visible_job w.mail.mailboxes w.mail.messages job.id

  finds_job :
      (s : Services) (limits : Limits)
      → find is_seen (jobs w) ≡ some job
      → handle_outbound_send s limits job.id (calm w) ≡ with_job s limits job (calm w)
  unfolding handle_outbound_send get_outbound_job
  finds_job s limits f = rw f refl

  lacks_payload :
      (s : Services) (limits : Limits)
      → w.mail.objects job.draft_r2_key ≡ none
      → with_job s limits job (calm w)
        ≡ fail_send limits.max_retries job.id (some job) none no_recipients plain (calm w)
  unfolding with_job read_payload
  lacks_payload s limits o = rw o refl

  fail_send-jobs :
      (max : ℕ) (b : Bool)
      → ltb max (job.retry_count + 1) ≡ b
      → any is_seen (jobs w) ≡ true
      → jobs (fail_send max job.id (some job) none no_recipients plain (calm w)).1
        ≡ update_rows is_seen (updated_job (retried max job) w.now) (jobs w)
  unfolding fail_send update_outbound_job_status update_message_status enqueue_dead_letter
  fail_send-jobs max true e y = rw (e, y) (ground arith)
  fail_send-jobs max false e y = rw (e, y) (ground arith)

-- Where no service fails, a run for a job whose payload is not in R2 puts the job to retry, or to
-- failed once the retries are used up, whatever its status was, and counts the retry.
pub handle_unreadable :
    (s : Services) (limits : Limits) (w : World) (job : OutboundJob)
    → find (is_visible_job w.mail.mailboxes w.mail.messages job.id) (jobs w) ≡ some job
    → w.mail.objects job.draft_r2_key ≡ none
    → find
        (is_visible_job w.mail.mailboxes w.mail.messages job.id)
        (jobs (handle_outbound_send s limits job.id (calm w)).1)
      ≡ some (updated_job (retried limits.max_retries job) w.now job)
handle_unreadable s limits w job f o =
    let max = limits.max_retries in
    let updated =
      fail_send-jobs w job max (ltb max (job.retry_count + 1)) refl
        (any-found w.mail.mailboxes w.mail.messages job.id job (jobs w) f) in
    rw (finds_job w job s limits f, lacks_payload w job s limits o, updated)
      (find-updated_self w.mail.mailboxes w.mail.messages job.id w.now (retried max job) job
        (jobs w) f)
