-- ===== src/Outbound/Calm.antt =====
-- The statements of a send where no service fails.
use mailagents_email_runtime.Base.{ℕ, Bool, true, false, Option, none, some, arith}
use mailagents_email_runtime.World.{
  MessageStatus, Draft, DraftStatus, Action, Done, ◌>>=◌, ◌>>◌, require_row, bind-Keeps,
  catch_with-Keeps, Keeps, pure, when,
}
use mailagents_email_runtime.Routing.{Recipients}
use mailagents_email_runtime.Routing.Calm.{IsCalm}
use mailagents_email_runtime.Credits.Laws.Calm.{release-IsCalm}
use mailagents_email_runtime.Outbound.{
  get_outbound_job, get_message, list_delivery_events_by_message_id, get_mailbox_by_id,
  get_draft_by_r2_key_for_outbound_lifecycle, claim_outbound_job_for_send, JobUpdate,
  update_outbound_job_status, update_message_status, mark_draft_status, mark_message_sent,
}
use mailagents_email_runtime.Outbound.Recover.{mark_draft, release_draft, ignored}
use mailagents_email_runtime.Outbound.Send.{read_payload}

pub update_job-IsCalm : (id : ℕ) (u : JobUpdate) → Keeps IsCalm (update_outbound_job_status id u)
unfolding update_outbound_job_status
update_job-IsCalm id u w h = ground arith

pub update_message-IsCalm : (id : ℕ) (s : MessageStatus) → Keeps IsCalm (update_message_status id s)
unfolding update_message_status
update_message-IsCalm id s w h = ground arith

pub mark_draft_status-IsCalm : (id : ℕ) (s : DraftStatus) → Keeps IsCalm (mark_draft_status id s)
unfolding mark_draft_status
mark_draft_status-IsCalm id s w h = ground arith

pub mark_sent-IsCalm :
    (id provider : ℕ) (s : MessageStatus) → Keeps IsCalm (mark_message_sent id provider s)
unfolding mark_message_sent
mark_sent-IsCalm id provider s w h = ground arith

pub claim-IsCalm : (id : ℕ) → Keeps IsCalm (claim_outbound_job_for_send id)
unfolding claim_outbound_job_for_send
claim-IsCalm id w h = ground arith

pub get_job-IsCalm : (id : ℕ) → Keeps IsCalm (get_outbound_job id)
unfolding get_outbound_job
get_job-IsCalm id w h = ground arith

pub require_job-IsCalm : (id : ℕ) → Keeps IsCalm (get_outbound_job id >>= require_row)
unfolding get_outbound_job
require_job-IsCalm id w h = ground arith

pub message-IsCalm : (id : ℕ) → Keeps IsCalm (get_message id >>= require_row)
unfolding get_message
message-IsCalm id w h = ground arith

pub mailbox-IsCalm : (id : ℕ) → Keeps IsCalm (get_mailbox_by_id id >>= require_row)
unfolding get_mailbox_by_id
mailbox-IsCalm id w h = ground arith

pub payload-IsCalm : (key : ℕ) → Keeps IsCalm (read_payload key)
unfolding read_payload
payload-IsCalm key w h = ground arith

pub draft-IsCalm : (key : ℕ) → Keeps IsCalm (get_draft_by_r2_key_for_outbound_lifecycle key)
unfolding get_draft_by_r2_key_for_outbound_lifecycle
draft-IsCalm key w h = ground arith

pub events-IsCalm : (id : ℕ) → Keeps IsCalm (list_delivery_events_by_message_id id)
unfolding list_delivery_events_by_message_id
events-IsCalm id w h = ground arith

pub mark_draft-IsCalm : (d : Option Draft) (s : DraftStatus) → Keeps IsCalm (mark_draft d s)
mark_draft-IsCalm none s = λ w h. h
mark_draft-IsCalm (some d) s = mark_draft_status-IsCalm d.id s

pub release_draft-IsCalm : (d : Option Draft) (r : Recipients) → Keeps IsCalm (release_draft d r)
release_draft-IsCalm none r = λ w h. h
release_draft-IsCalm (some d) r = release-IsCalm d.tenant_id _ r

pub ignored-IsCalm : (m : Action Done) → Keeps IsCalm m → Keeps IsCalm (ignored m)
ignored-IsCalm m h = catch_with-Keeps IsCalm m (λ _. pure tt) h (λ _ w c. c)

pub when-IsCalm : (b : Bool) (m : Action Done) → Keeps IsCalm m → Keeps IsCalm (when b m)
when-IsCalm true m h = h
when-IsCalm false m h = λ w c. c

pub then-IsCalm :
    {A B : Type 0} (m : Action A) (k : Action B)
    → Keeps IsCalm m
    → Keeps IsCalm k
    → Keeps IsCalm (m >> k)
then-IsCalm m k hm hk = bind-Keeps IsCalm m (λ _. k) hm (λ _. hk)
