-- ===== src/Outbound.antt =====
-- The outbound jobs, messages and drafts of src/repositories/mail.ts: what a send reads of them, the
-- claim of a job, and the updates of their status. A row counts where its mailbox belongs to its
-- tenant. The fallback for a database without the column `created_via` is not modelled.
pub mod Claim
pub mod Turned
pub mod Sent
pub mod Recover
pub mod Send
pub mod Once
pub mod Unreadable
pub mod Calm
pub mod Answers
pub mod Recovery
pub mod Delivery
pub mod Ends
use mailagents_email_runtime.Base.{
  ℕ, Bool, true, false, ◌&&◌, ◌||◌, not, Option, none, some, List, [], ◌∷◌, ◌==◌, if◌then◌else◌,
  any, find, keep, is_some,
}
use mailagents_email_runtime.Text.{Text, text_eq, trim, to_lower_case}
use mailagents_email_runtime.World.{
  World, Mail, Mailbox, Message, MessageStatus, Draft, DraftStatus, OutboundJob, OutboundJobStatus,
  queued, sending, sent, retry, failed, DeliveryEvent, Action, Done, plain, ◌>>=◌, ◌>>◌, pure, gets,
  throw_if, catch_with, service,
}
use mailagents_email_runtime.World.Tables.{update_rows, delete_rows}

abbrev pub jobs : World → List OutboundJob
jobs w = w.mail.jobs

abbrev pub messages : World → List Message
messages w = w.mail.messages

abbrev pub set_jobs : List OutboundJob → World → World
set_jobs l w = record w { mail = record (w.mail) { jobs = l } }

abbrev pub set_messages : List Message → World → World
set_messages l w = record w { mail = record (w.mail) { messages = l } }

abbrev pub set_drafts : List Draft → World → World
set_drafts l w = record w { mail = record (w.mail) { drafts = l } }

-- `EXISTS (SELECT 1 FROM mailboxes WHERE mailboxes.id = ? AND mailboxes.tenant_id = ?)`
unfoldable pub has_mailbox : List Mailbox → ℕ → ℕ → Bool
has_mailbox boxes mailbox tenant = any (λ b. b.id == mailbox && b.tenant_id == tenant) boxes

abbrev pub is_visible_message : List Mailbox → ℕ → Message → Bool
is_visible_message boxes id row = row.id == id && has_mailbox boxes row.mailbox_id row.tenant_id

-- The condition of the statements on jobs: its message is visible.
unfoldable pub has_visible_message : List Mailbox → List Message → ℕ → Bool
has_visible_message boxes ms id = any (is_visible_message boxes id) ms

abbrev pub is_visible_job : List Mailbox → List Message → ℕ → OutboundJob → Bool
is_visible_job boxes ms id row = row.id == id && has_visible_message boxes ms row.message_id

abbrev pub owns_agent : Mail → Draft → Bool
owns_agent m d = elim (m.agents d.agent_id) [ none ↦ false | some tenant ↦ tenant == d.tenant_id ]

abbrev pub is_visible_draft : Mail → ℕ → Draft → Bool
is_visible_draft m id row =
    row.id == id && (owns_agent m row && has_mailbox m.mailboxes row.mailbox_id row.tenant_id)

unfoldable pub get_outbound_job : ℕ → Action (Option OutboundJob)
unfolding service
get_outbound_job id =
    service >> gets (λ w. find (is_visible_job w.mail.mailboxes w.mail.messages id) (jobs w))

unfoldable pub get_message : ℕ → Action (Option Message)
unfolding service
get_message id = service >> gets (λ w. find (is_visible_message w.mail.mailboxes id) (messages w))

unfoldable pub list_delivery_events_by_message_id : ℕ → Action (List DeliveryEvent)
unfolding service
list_delivery_events_by_message_id id =
    service
    >> gets (λ w.
      keep
        (λ e.
          elim (e.message_id) [ none ↦ false | some m ↦ m == id ]
          && has_visible_message w.mail.mailboxes w.mail.messages id)
        w.mail.events)

-- Whether the address is suppressed.
unfoldable pub get_suppression : Text → Action Bool
unfolding service trim to_lower_case
get_suppression email =
    service
    >> gets
        (λ w. any (λ s. text_eq (to_lower_case s) (to_lower_case (trim email))) w.mail.suppressions)

unfoldable pub get_mailbox_by_id : ℕ → Action (Option Mailbox)
unfolding service
get_mailbox_by_id id = service >> gets (λ w. find (λ b. b.id == id) w.mail.mailboxes)

-- the rows of a query with `LIMIT 2`, of which the code wants exactly one
abbrev only_draft : List Draft → Option Draft
only_draft (d ∷ []) = some d
only_draft _ = none

abbrev is_draft_of_key : Mail → ℕ → Draft → Bool
is_draft_of_key m key row = row.draft_r2_key == key && is_visible_draft m row.id row

unfoldable pub get_draft_by_r2_key_for_outbound_lifecycle : ℕ → Action (Option Draft)
unfolding service
get_draft_by_r2_key_for_outbound_lifecycle key =
    service >> gets (λ w. only_draft (keep (is_draft_of_key w.mail key) w.mail.drafts))

-- `requireStateUpdateApplied`
abbrev pub require_state_update_applied : Bool → Action Done
require_state_update_applied changed = throw_if (not changed) plain

abbrev pub with_message_status : MessageStatus → Message → Message
with_message_status status row = record row { status = status }

unfoldable pub update_message_status : ℕ → MessageStatus → Action Done
unfolding service
update_message_status id status = do
  service
  changed ← (λ w. pure (any (is_visible_message w.mail.mailboxes id) (messages w)) (
      set_messages
        (update_rows (is_visible_message w.mail.mailboxes id) (with_message_status status)
          (messages w))
        w))
  require_state_update_applied changed

-- the input of `updateOutboundJobStatus`
pub record JobUpdate : Type 0 where
  pub status : OutboundJobStatus
  pub retry_count : Option ℕ
  pub next_retry_at : Option ℕ

abbrev pub coalesce_count : Option ℕ → ℕ → ℕ
coalesce_count none old = old
coalesce_count (some new) old = new

abbrev pub updated_job : JobUpdate → ℕ → OutboundJob → OutboundJob
updated_job u now row = record row {
  status = u.status;
  retry_count = coalesce_count u.retry_count row.retry_count;
  next_retry_at = u.next_retry_at;
  updated_at = now;
}

unfoldable pub update_outbound_job_status : ℕ → JobUpdate → Action Done
unfolding service
update_outbound_job_status id u = do
  service
  changed ← (λ w. pure (any (is_visible_job w.mail.mailboxes w.mail.messages id) (jobs w)) (
      set_jobs
        (update_rows (is_visible_job w.mail.mailboxes w.mail.messages id) (updated_job u w.now)
          (jobs w))
        w))
  require_state_update_applied changed

-- `status IN ('queued', 'retry')`
abbrev pub is_claimable : OutboundJobStatus → Bool
is_claimable queued = true
is_claimable retry = true
is_claimable sending = false
is_claimable sent = false
is_claimable failed = false

abbrev pub is_claimable_job : List Mailbox → List Message → ℕ → OutboundJob → Bool
is_claimable_job boxes ms id row = is_visible_job boxes ms id row && is_claimable row.status

abbrev pub claimed_job : ℕ → OutboundJob → OutboundJob
claimed_job now row = record row { status = sending; updated_at = now }

-- The `UPDATE` of the claim; tells whether it changed a row.
unfoldable pub update_claimed : ℕ → Action Bool
unfolding service
update_claimed id = service >> λ w.
    pure (any (is_claimable_job w.mail.mailboxes w.mail.messages id) (jobs w)) (
      set_jobs
        (update_rows (is_claimable_job w.mail.mailboxes w.mail.messages id) (claimed_job w.now)
          (jobs w))
        w)

-- the removal of a claimed job that cannot be read back, whose own failure is ignored
unfoldable pub delete_job : ℕ → Action Done
unfolding service
delete_job id =
    catch_with (service >> λ w. pure tt (set_jobs (delete_rows (λ row. row.id == id) (jobs w)) w))
      (λ _. pure tt)

unfoldable pub claim_outbound_job_for_send : ℕ → Action Bool
unfolding update_claimed get_outbound_job delete_job
claim_outbound_job_for_send id = do
  changed ← update_claimed id
  if changed
      then (do
        job ← get_outbound_job id
        if is_some job then pure true else (delete_job id >> pure false))
      else pure false

abbrev pub with_draft_status : DraftStatus → ℕ → Draft → Draft
with_draft_status status now row = record row { status = status; updated_at = now }

unfoldable pub mark_draft_status : ℕ → DraftStatus → Action Done
unfolding service
mark_draft_status id status = do
  service
  changed ← (λ w. pure (any (is_visible_draft w.mail id) w.mail.drafts) (
      set_drafts
        (update_rows (is_visible_draft w.mail id) (with_draft_status status w.now) w.mail.drafts)
        w))
  require_state_update_applied changed

-- `provider_message_id = ?`, which a null never meets
abbrev pub has_provider_id : ℕ → Message → Bool
has_provider_id provider row = elim (row.provider_message_id) [
  | none ↦ false
  | some p ↦ p == provider
]

-- another visible message with the provider's identifier
abbrev pub is_conflict : List Mailbox → ℕ → ℕ → Message → Bool
is_conflict boxes provider id row =
    has_provider_id provider row
    && (not (row.id == id) && has_mailbox boxes row.mailbox_id row.tenant_id)

unfoldable pub get_visible_provider_message_id_conflict : ℕ → ℕ → Action (Option Message)
unfolding service
get_visible_provider_message_id_conflict provider id =
    service >> gets (λ w. find (is_conflict w.mail.mailboxes provider id) (messages w))

abbrev pub sent_message : ℕ → MessageStatus → ℕ → Message → Message
sent_message provider status now row = record row {
  provider_message_id = some provider;
  status = status;
  sent_at = some now;
}

abbrev pub is_markable : List Mailbox → List Message → ℕ → ℕ → Message → Bool
is_markable boxes ms provider id row =
    is_visible_message boxes id row && not (any (is_conflict boxes provider id) ms)

-- Both of its errors are plain ones.
unfoldable pub mark_message_sent : ℕ → ℕ → MessageStatus → Action Done
unfolding service get_visible_provider_message_id_conflict
mark_message_sent id provider status = do
  service
  changed ← (λ w.
      pure (any (is_markable w.mail.mailboxes w.mail.messages provider id) (messages w)) (
        set_messages
          (update_rows (is_markable w.mail.mailboxes w.mail.messages provider id)
            (sent_message provider status w.now) (messages w))
          w))
  if changed then pure tt else (do
    conflict ← get_visible_provider_message_id_conflict provider id
    throw_if (is_some conflict) plain
    require_state_update_applied changed)
