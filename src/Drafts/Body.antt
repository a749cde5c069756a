-- ===== src/Drafts/Body.antt =====
-- The end of `enqueueDraftSend`: what it writes, its `catch`, and the whole.
use mailagents_email_runtime.Base.{
  ℕ, Bool, true, false, not, Option, none, some, List, ◌==◌, if◌then◌else◌, is_empty, ltb,
}
use mailagents_email_runtime.Base.Int.{ℤ, pos, ltb_ℤ}
use mailagents_email_runtime.World.{
  Message, MessageStatus, Draft, OutboundJob, OutboundJobStatus, Action, Done, Failure, plain,
  ◌>>=◌, ◌>>◌, pure, gets, throw, throw_if, catch_with, require_row, create_id,
}
use mailagents_email_runtime.Billing.{release_tenant_reserved_credits}
use mailagents_email_runtime.Outbound.{get_message, get_outbound_job}
use mailagents_email_runtime.Outbound.Recover.{try_then}
use mailagents_email_runtime.Drafts.Statements.{
  get_draft, is_sendable, claim_draft_for_send, restore_draft_send_state,
  delete_thread_if_unreferenced, delete_draft_row, delete_object, delete_job_row,
  delete_message_row, quietly, list_visible_outbound_jobs_by_draft_r2_key,
  delete_invalid_outbound_jobs_for_draft_r2_key, insert_message, insert_outbound_job, send_to_queue,
}
use mailagents_email_runtime.Drafts.Enqueue.{
  Prepared, prepare, open_thread, assign_opened, check_attachment_refs, reserve_for,
}

-- where the first insertion of a job was skipped
unfoldable pub insert_job_again : OutboundJob → ℕ → Action Bool
unfolding insert_outbound_job
insert_job_again row deleted = if ltb 0 deleted then insert_outbound_job row else pure false

unfoldable pub require_inserted : ℕ → Bool → Action Done
unfolding list_visible_outbound_jobs_by_draft_r2_key
require_inserted key true = pure tt
require_inserted key false = list_visible_outbound_jobs_by_draft_r2_key key >> throw plain

unfoldable pub insert_required : OutboundJob → ℕ → Action Done
unfolding insert_job_again require_inserted
insert_required row deleted = insert_job_again row deleted >>= require_inserted row.draft_r2_key

unfoldable pub replace_invalid : OutboundJob → List OutboundJob → Action Done
unfolding delete_invalid_outbound_jobs_for_draft_r2_key insert_required
replace_invalid row existing =
    throw_if (not (is_empty existing)) plain
    >> (delete_invalid_outbound_jobs_for_draft_r2_key row.draft_r2_key >>= insert_required row)

unfoldable pub insert_after_skip : OutboundJob → Bool → Action Done
unfolding list_visible_outbound_jobs_by_draft_r2_key replace_invalid
insert_after_skip row true = pure tt
insert_after_skip row false =
    list_visible_outbound_jobs_by_draft_r2_key row.draft_r2_key >>= replace_invalid row

unfoldable pub store_job : OutboundJob → Action Done
unfolding insert_outbound_job insert_after_skip
store_job row = insert_outbound_job row >>= insert_after_skip row

-- the two rows are read back, and the job is given to the queue
unfoldable pub confirm_and_send : ℕ → ℕ → Action Done
unfolding get_message get_outbound_job send_to_queue
confirm_and_send message job = do
  stored ← get_message message
  require_row stored
  queued ← get_outbound_job job
  require_row queued
  send_to_queue job

abbrev chosen_thread : Option ℕ → Option ℕ → Option ℕ
chosen_thread none opened = opened
chosen_thread (some t) opened = some t

-- a differing thread, for `createdThreadId !== priorThreadId`
abbrev pub differs : ℕ → Option ℕ → Bool
differs thread none = true
differs thread (some prior) = not (thread == prior)

module _ (d : Draft) (job message now : ℕ) where
  abbrev pub message_row : Option ℕ → Message
  message_row created = record {
    id = message;
    tenant_id = d.tenant_id;
    mailbox_id = d.mailbox_id;
    thread_id = chosen_thread d.thread_id created;
    provider_message_id = none;
    status = MessageStatus.tasked;
    sent_at = none;
  }

  abbrev pub job_row : OutboundJob
  job_row = record {
    id = job;
    message_id = message;
    status = OutboundJobStatus.queued;
    retry_count = 0;
    next_retry_at = none;
    draft_r2_key = d.draft_r2_key;
    updated_at = now;
  }

  unfoldable pub store_job_and_send : Action Done
  unfolding store_job confirm_and_send
  store_job_and_send = store_job job_row >> confirm_and_send message job

  unfoldable pub store_and_send : Option ℕ → Action Done
  unfolding insert_message store_job_and_send
  store_and_send created = insert_message (message_row created) >> store_job_and_send

  unfoldable pub drop_created : Option ℕ → Action Done
  unfolding delete_thread_if_unreferenced
  drop_created none = pure tt
  drop_created (some thread) =
      if differs thread d.thread_id then quietly (delete_thread_if_unreferenced thread) else pure tt

  unfoldable pub release_amount : ℤ → Action Done
  unfolding release_tenant_reserved_credits
  release_amount amount =
      if ltb_ℤ (pos 0) amount
      then quietly (release_tenant_reserved_credits d.tenant_id amount >>= λ _. pure tt)
      else pure tt

  -- the `catch` up to the release of credits, and the whole
  unfoldable pub undo_rows : Option ℕ → Action Done
  unfolding delete_job_row delete_message_row restore_draft_send_state drop_created
  undo_rows created =
      quietly (delete_job_row job)
      >> (quietly (delete_message_row message)
          >> (quietly (restore_draft_send_state d.id d.status d.thread_id) >> drop_created created))

  unfoldable pub undo : Option ℕ → ℤ → Failure → Action ℕ
  unfolding undo_rows release_amount
  undo created amount error = undo_rows created >> (release_amount amount >> throw error)

  unfoldable pub with_credits_reserved : Option ℕ → ℤ → Action ℕ
  unfolding store_and_send undo
  with_credits_reserved created amount =
      try_then (store_and_send created) (undo created amount) (λ _. pure job)

  unfoldable pub reserve_step : Prepared → Option ℕ → Action ℤ
  unfolding assign_opened check_attachment_refs reserve_for
  reserve_step prepared created = do
    assign_opened d created
    check_attachment_refs d prepared.attachments
    reserve_for d prepared.requirement

  unfoldable pub with_thread_opened : Prepared → Option ℕ → Action ℕ
  unfolding reserve_step undo with_credits_reserved
  with_thread_opened prepared created =
      try_then (reserve_step prepared created) (undo created (pos 0))
        (with_credits_reserved created)

  unfoldable pub with_prepared : Prepared → Action ℕ
  unfolding open_thread undo with_thread_opened
  with_prepared prepared =
      try_then (open_thread d message prepared.subject_norm) (undo none (pos 0))
        (with_thread_opened prepared)

  unfoldable pub enqueue_claimed : Action ℕ
  unfolding prepare undo with_prepared
  enqueue_claimed = try_then (prepare d) (undo none (pos 0)) with_prepared

-- a claimed draft that cannot be read any more
unfoldable pub drop_vanished : Draft → Action ℕ
unfolding restore_draft_send_state delete_draft_row delete_object
drop_vanished d = do
  catch_with (restore_draft_send_state d.id d.status d.thread_id)
      (λ _. quietly (delete_draft_row d.id) >> quietly (delete_object d.draft_r2_key))
  throw plain

unfoldable pub read_or_drop : Draft → ℕ → ℕ → Option Draft → Action ℕ
unfolding drop_vanished create_id enqueue_claimed
read_or_drop d job now none = drop_vanished d
read_or_drop d job now (some _) = create_id >>= λ message. enqueue_claimed d job message now

unfoldable pub with_claim : Draft → ℕ → ℕ → Bool → Action ℕ
unfolding get_draft read_or_drop
with_claim d job now false = get_draft d.id >> throw plain
with_claim d job now true = get_draft d.id >>= read_or_drop d job now

unfoldable pub claim_found : ℕ → Draft → Action ℕ
unfolding create_id claim_draft_for_send with_claim
claim_found id d = do
  throw_if (not (is_sendable d.status)) plain
  job ← create_id
  now ← gets (λ w. w.now)
  claimed ← claim_draft_for_send id now
  with_claim d job now claimed

-- the identifier of the job
unfoldable pub enqueue_draft_send : ℕ → Action ℕ
unfolding get_draft claim_found
enqueue_draft_send id = get_draft id >>= λ found. require_row found >>= claim_found id
