-- ===== src/Drafts/Threads.antt =====
-- `getOrCreateThread`.
use mailagents_email_runtime.Base.{
  ℕ, Bool, true, false, ◌&&◌, ◌||◌, not, Option, none, some, List, [], ◌∷◌, ◌==◌, if◌then◌else◌,
  any, find, keep, length,
}
use mailagents_email_runtime.Text.{Text}
use mailagents_email_runtime.World.{
  Mail, Thread, Action, Done, Failure, uniqueness, plain, ◌>>=◌, ◌>>◌, pure, gets, throw, throw_if,
  modify, catch_with, service, create_id,
}
use mailagents_email_runtime.World.Tables.{delete_rows}
use mailagents_email_runtime.Outbound.{has_mailbox}
use mailagents_email_runtime.Drafts.Statements.{set_threads, quietly}

-- the input, its optional subject given
pub record NewThread : Type 0 where
  pub tenant_id : ℕ
  pub mailbox_id : ℕ
  pub thread_key : ℕ
  pub subject_norm : Text

abbrev is_unique_constraint_error : Failure → Bool
is_unique_constraint_error uniqueness = true
is_unique_constraint_error _ = false

module _ (n : NewThread) where
  abbrev has_key : Thread → Bool
  has_key row = row.mailbox_id == n.mailbox_id && row.thread_key == n.thread_key

  abbrev is_valid : Mail → Thread → Bool
  is_valid m row =
      row.tenant_id == n.tenant_id && has_mailbox m.mailboxes row.mailbox_id row.tenant_id

  unfoldable pub load_visible_thread : Action (Option Thread)
  unfolding service
  load_visible_thread =
      service >> gets (λ w. find (λ row. has_key row && is_valid w.mail row) w.mail.threads)

  abbrev new_thread : ℕ → Thread
  new_thread id = record {
    id = id;
    tenant_id = n.tenant_id;
    mailbox_id = n.mailbox_id;
    thread_key = n.thread_key;
    subject_norm = some n.subject_norm;
  }

  unfoldable pub insert_thread : ℕ → Action Done
  unfolding service
  insert_thread id = service >> λ w.
      if any (λ row. row.id == id || has_key row) w.mail.threads
      then throw uniqueness w
      else pure tt (set_threads (new_thread id ∷ w.mail.threads) w)

  unfoldable pub delete_thread_row : ℕ → Action Done
  unfolding service
  delete_thread_row id =
      service >> modify (λ w. set_threads (delete_rows (λ row. row.id == id) w.mail.threads) w)

  unfoldable pub delete_threads : List Thread → Action Done
  unfolding delete_thread_row
  delete_threads [] = pure tt
  delete_threads (row ∷ rows) = quietly (delete_thread_row row.id) >> delete_threads rows

  unfoldable pub list_invalid_threads : Action (List Thread)
  unfolding service
  list_invalid_threads =
      service >> gets (λ w. keep (λ row. has_key row && not (is_valid w.mail row)) w.mail.threads)

  unfoldable pub delete_counted_threads : List Thread → Action ℕ
  unfolding delete_threads
  delete_counted_threads rows = delete_threads rows >> pure (length rows)

  unfoldable pub delete_invalid_threads : Action ℕ
  unfolding list_invalid_threads delete_counted_threads
  delete_invalid_threads = list_invalid_threads >>= delete_counted_threads

  abbrev pub found_or : Action (Option ℕ) → Option Thread → Action (Option ℕ)
  found_or otherwise none = otherwise
  found_or otherwise (some t) = pure (some t.id)

  -- A thread that another request has made is the answer; none where the row was inserted.
  unfoldable pub concurrent_or : Action (Option ℕ) → Action (Option ℕ)
  unfolding load_visible_thread
  concurrent_or otherwise = load_visible_thread >>= found_or otherwise

  unfoldable pub on_retry_error : Failure → Action (Option ℕ)
  unfolding concurrent_or
  on_retry_error error =
      if is_unique_constraint_error error then concurrent_or (throw error) else throw error

  unfoldable pub insert_new : ℕ → Action (Option ℕ)
  unfolding insert_thread
  insert_new id = insert_thread id >> pure none

  unfoldable pub retry_insert : ℕ → Failure → ℕ → Action (Option ℕ)
  unfolding insert_new on_retry_error
  retry_insert id error deleted =
      throw_if (deleted == 0) error >> catch_with (insert_new id) on_retry_error

  unfoldable pub insert_again : ℕ → Failure → Action (Option ℕ)
  unfolding delete_invalid_threads retry_insert
  insert_again id error = delete_invalid_threads >>= retry_insert id error

  unfoldable pub on_insert_error : ℕ → Failure → Action (Option ℕ)
  unfolding concurrent_or insert_again
  on_insert_error id error =
      if is_unique_constraint_error error
      then concurrent_or (insert_again id error)
      else throw error

  unfoldable pub drop_unless : Bool → ℕ → Action Done
  unfolding delete_thread_row
  drop_unless true id = pure tt
  drop_unless false id = quietly (delete_thread_row id) >> throw plain

  unfoldable pub finalize_thread : ℕ → Action ℕ
  unfolding service drop_unless
  finalize_thread id = do
    service
    has_box ← gets (λ w. has_mailbox w.mail.mailboxes n.mailbox_id n.tenant_id)
    drop_unless has_box id
    service
    has_row ← gets (λ w.
        any
          (λ row. row.id == id && (row.tenant_id == n.tenant_id && row.mailbox_id == n.mailbox_id))
          w.mail.threads)
    drop_unless has_row id
    pure id

  unfoldable pub finish_thread : ℕ → Option ℕ → Action ℕ
  unfolding finalize_thread
  finish_thread id none = finalize_thread id
  finish_thread id (some concurrent) = pure concurrent

  unfoldable pub insert_or_find : ℕ → Action ℕ
  unfolding insert_new on_insert_error finish_thread
  insert_or_find id = catch_with (insert_new id) (on_insert_error id) >>= finish_thread id

  unfoldable pub create_thread : Action ℕ
  unfolding create_id insert_or_find
  create_thread = create_id >>= insert_or_find

  unfoldable pub existing_or_new : Option Thread → Action ℕ
  unfolding create_thread
  existing_or_new none = create_thread
  existing_or_new (some t) = pure t.id

  -- the identifier of the thread, of which `enqueueDraftSend` uses nothing else
  unfoldable pub get_or_create_thread : Action ℕ
  unfolding load_visible_thread existing_or_new
  get_or_create_thread = load_visible_thread >>= existing_or_new
