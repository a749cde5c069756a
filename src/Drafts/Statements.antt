-- ===== src/Drafts/Statements.antt =====
-- The statements on drafts, jobs and messages of src/repositories/mail.ts that an enqueueing makes.
use mailagents_email_runtime.Base.{
  ℕ, Bool, true, false, ◌&&◌, ◌||◌, not, Option, none, some, List, [], ◌∷◌, ◌==◌, if◌then◌else◌,
  any, find, keep, length,
}
use mailagents_email_runtime.World.{
  World, Mail, Message, Thread, Draft, DraftStatus, draft, approved, OutboundJob, Action, Done,
  uniqueness, ◌>>=◌, ◌>>◌, pure, gets, throw, modify, catch_with, service,
}
use mailagents_email_runtime.World.Tables.{update_rows, delete_rows}
use mailagents_email_runtime.Outbound.{
  has_mailbox, has_visible_message, is_visible_draft, set_drafts, set_jobs, set_messages, jobs,
  messages, require_state_update_applied,
}

abbrev pub set_threads : List Thread → World → World
set_threads l w = record w { mail = record (w.mail) { threads = l } }

-- `EXISTS (SELECT 1 FROM threads JOIN mailboxes … WHERE threads.id = ? …)` for a draft
abbrev pub has_thread : Mail → Draft → ℕ → Bool
has_thread m d thread =
    any
      (λ t.
        t.id == thread
        && (t.mailbox_id == d.mailbox_id
            && (t.tenant_id == d.tenant_id && has_mailbox m.mailboxes t.mailbox_id t.tenant_id)))
      m.threads

abbrev pub may_have_thread : Mail → Draft → Option ℕ → Bool
may_have_thread m d none = true
may_have_thread m d (some thread) = has_thread m d thread

abbrev has_source : Mail → Draft → Option ℕ → Bool
has_source m d none = true
has_source m d (some id) =
    any
      (λ row.
        row.id == id
        && (row.mailbox_id == d.mailbox_id
            && (row.tenant_id == d.tenant_id
                && has_mailbox m.mailboxes row.mailbox_id row.tenant_id)))
      m.messages

abbrev pub is_whole_draft : Mail → ℕ → Draft → Bool
is_whole_draft m id row =
    is_visible_draft m id row
    && (may_have_thread m row row.thread_id && has_source m row row.source_message_id)

unfoldable pub get_draft : ℕ → Action (Option Draft)
unfolding service
get_draft id = service >> gets (λ w. find (is_whole_draft w.mail id) w.mail.drafts)

-- `status IN ('draft', 'approved')`
abbrev pub is_sendable : DraftStatus → Bool
is_sendable draft = true
is_sendable approved = true
is_sendable _ = false

abbrev is_claimable_draft : Mail → ℕ → Draft → Bool
is_claimable_draft m id row = is_visible_draft m id row && is_sendable row.status

abbrev claimed_draft : ℕ → Draft → Draft
claimed_draft now row = record row { status = DraftStatus.queued; updated_at = now }

unfoldable pub claim_draft_for_send : ℕ → ℕ → Action Bool
unfolding service
claim_draft_for_send id now = service >> λ w.
    pure (any (is_claimable_draft w.mail id) w.mail.drafts)
      (set_drafts (update_rows (is_claimable_draft w.mail id) (claimed_draft now) w.mail.drafts) w)

abbrev restored_draft : DraftStatus → Option ℕ → ℕ → Draft → Draft
restored_draft status thread now row = record row {
  status = status;
  thread_id = thread;
  updated_at = now;
}

abbrev is_restorable : Mail → ℕ → Option ℕ → Draft → Bool
is_restorable m id thread row = is_visible_draft m id row && may_have_thread m row thread

unfoldable pub restore_draft_send_state : ℕ → DraftStatus → Option ℕ → Action Done
unfolding service
restore_draft_send_state id status thread = do
  service
  changed ← (λ w. pure (any (is_restorable w.mail id thread) w.mail.drafts) (
      set_drafts
        (update_rows (is_restorable w.mail id thread) (restored_draft status thread w.now)
          w.mail.drafts)
        w))
  require_state_update_applied changed

abbrev with_thread : ℕ → ℕ → Draft → Draft
with_thread thread now row = record row { thread_id = some thread; updated_at = now }

unfoldable pub assign_draft_thread_id : ℕ → ℕ → Action Done
unfolding service
assign_draft_thread_id id thread = do
  service
  changed ← (λ w. pure (any (λ row. row.id == id && has_thread w.mail row thread) w.mail.drafts) (
      set_drafts
        (update_rows (λ row. row.id == id && has_thread w.mail row thread)
          (with_thread thread w.now) w.mail.drafts)
        w))
  require_state_update_applied changed

abbrev is_thread : Option ℕ → ℕ → Bool
is_thread none id = false
is_thread (some t) id = t == id

abbrev is_referenced : Mail → ℕ → Bool
is_referenced m id =
    any (λ row. is_thread row.thread_id id && has_mailbox m.mailboxes row.mailbox_id row.tenant_id)
      m.messages
    || any (λ row. is_thread row.thread_id id && is_visible_draft m row.id row) m.drafts

unfoldable pub delete_thread_if_unreferenced : ℕ → Action Done
unfolding service
delete_thread_if_unreferenced id =
    service
    >> modify (λ w.
      set_threads
        (delete_rows (λ row. row.id == id && not (is_referenced w.mail id)) w.mail.threads) w)

unfoldable pub delete_draft_row : ℕ → Action Done
unfolding service
delete_draft_row id =
    service >> modify (λ w. set_drafts (delete_rows (λ row. row.id == id) w.mail.drafts) w)

unfoldable pub delete_object : ℕ → Action Done
unfolding service
delete_object key =
    service
    >> modify (λ w. record w {
      mail = record (w.mail) { objects = λ k. if k == key then none else w.mail.objects k };
    })

unfoldable pub delete_job_row : ℕ → Action Done
unfolding service
delete_job_row id = service >> modify (λ w. set_jobs (delete_rows (λ row. row.id == id) (jobs w)) w)

unfoldable pub delete_message_row : ℕ → Action Done
unfolding service
delete_message_row id =
    service >> modify (λ w. set_messages (delete_rows (λ row. row.id == id) (messages w)) w)

-- `m.catch(() => undefined)`
abbrev pub quietly : Action Done → Action Done
quietly m = catch_with m (λ _. pure tt)

abbrev pub is_job_of_key : Mail → ℕ → OutboundJob → Bool
is_job_of_key m key row =
    row.draft_r2_key == key && has_visible_message m.mailboxes m.messages row.message_id

-- Its callers tell only whether there is one.
unfoldable pub list_visible_outbound_jobs_by_draft_r2_key : ℕ → Action (List OutboundJob)
unfolding service
list_visible_outbound_jobs_by_draft_r2_key key =
    service >> gets (λ w. keep (is_job_of_key w.mail key) (jobs w))

abbrev is_invalid_job : Mail → ℕ → OutboundJob → Bool
is_invalid_job m key row =
    row.draft_r2_key == key && not (has_visible_message m.mailboxes m.messages row.message_id)

unfoldable pub delete_jobs : List OutboundJob → Action Done
unfolding delete_job_row
delete_jobs [] = pure tt
delete_jobs (row ∷ rows) = quietly (delete_job_row row.id) >> delete_jobs rows

unfoldable pub list_invalid_jobs : ℕ → Action (List OutboundJob)
unfolding service
list_invalid_jobs key = service >> gets (λ w. keep (is_invalid_job w.mail key) (jobs w))

unfoldable pub delete_counted : List OutboundJob → Action ℕ
unfolding delete_jobs
delete_counted rows = delete_jobs rows >> pure (length rows)

unfoldable pub delete_invalid_outbound_jobs_for_draft_r2_key : ℕ → Action ℕ
unfolding list_invalid_jobs delete_counted
delete_invalid_outbound_jobs_for_draft_r2_key key = list_invalid_jobs key >>= delete_counted

-- `INSERT INTO messages`; the primary key is unique
unfoldable pub insert_message : Message → Action Done
unfolding service
insert_message row = service >> λ w.
    if any (λ m. m.id == row.id) (messages w)
    then throw uniqueness w
    else pure tt (set_messages (row ∷ messages w) w)

-- `INSERT INTO outbound_jobs … WHERE NOT EXISTS …`; tells whether it inserted the row
unfoldable pub insert_outbound_job : OutboundJob → Action Bool
unfolding service
insert_outbound_job row = service >> λ w.
    if any (is_job_of_key w.mail row.draft_r2_key) (jobs w)
    then pure false w
    else if any (λ j. j.id == row.id) (jobs w)
    then throw uniqueness w
    else pure true (set_jobs (row ∷ jobs w) w)

unfoldable pub send_to_queue : ℕ → Action Done
unfolding service
send_to_queue id = service >> modify (λ w. record w { send_queue = id ∷ w.send_queue })
