-- ===== src/Drafts/Before.antt =====
-- The part of an enqueueing before credits are reserved touches no account.
use mailagents_email_runtime.Base.{
  ℕ, Bool, true, false, not, ◌&&◌, Option, none, some, List, [], ◌∷◌, arith, is_empty, is_some,
  ◌==◌, length, if◌then◌else◌,
}
use mailagents_email_runtime.Text.{Text}
use mailagents_email_runtime.World.{
  World, Thread, Draft, BillingAccount, Action, Failure, ◌>>=◌, pure, throw, throw_if, catch_with,
  create_id, bind-Keeps, catch_with-Keeps,
}
use mailagents_email_runtime.Routing.{get_mailbox_by_address}
use mailagents_email_runtime.Guards.{DraftAttachment, get_attachment_owner_by_r2_key}
use mailagents_email_runtime.Drafts.{
  quietly, NewThread, load_visible_thread, insert_thread, delete_thread_row, delete_threads,
  list_invalid_threads, delete_counted_threads, found_or, insert_new, retry_insert, finish_thread,
  insert_or_find, existing_or_new, thread_for, check_attachment_ref, delete_invalid_threads,
  concurrent_or, on_retry_error, insert_again, on_insert_error, drop_unless, finalize_thread,
  create_thread, get_or_create_thread, open_thread, assign_opened, check_attachment_refs,
}
use mailagents_email_runtime.Drafts.Quiet.{Quiet, IsQuiet, assign-IsQuiet, quietly-IsQuiet}

module _ (accounts : ℕ → Option BillingAccount) where
  abbrev P : World → Type 0
  P = Quiet accounts

  module _ (n : NewThread) where
    load_thread-IsQuiet : IsQuiet accounts (load_visible_thread n)
    unfolding load_visible_thread
    load_thread-IsQuiet w h = ground arith

    insert_thread-IsQuiet : (id : ℕ) → IsQuiet accounts (insert_thread n id)
    unfolding insert_thread
    insert_thread-IsQuiet id w h = ground arith

    delete_thread_row-IsQuiet : (id : ℕ) → IsQuiet accounts (delete_thread_row n id)
    unfolding delete_thread_row
    delete_thread_row-IsQuiet id w h = ground arith

    delete_threads-IsQuiet : (rows : List Thread) → IsQuiet accounts (delete_threads n rows)
    unfolding delete_threads
    delete_threads-IsQuiet [] = λ w h. h
    delete_threads-IsQuiet (row ∷ rows) =
        bind-Keeps P (quietly (delete_thread_row n row.id)) _
          (quietly-IsQuiet accounts _ (delete_thread_row-IsQuiet row.id))
          (λ _. delete_threads-IsQuiet rows)

    list_invalid-IsQuiet : IsQuiet accounts (list_invalid_threads n)
    unfolding list_invalid_threads
    list_invalid-IsQuiet w h = ground arith

    delete_counted-IsQuiet : (rows : List Thread) → IsQuiet accounts (delete_counted_threads n rows)
    unfolding delete_counted_threads
    delete_counted-IsQuiet rows =
        bind-Keeps P (delete_threads n rows) (λ _. pure (length rows)) (delete_threads-IsQuiet rows)
          (λ _ w h. h)

    delete_invalid-IsQuiet : IsQuiet accounts (delete_invalid_threads n)
    unfolding delete_invalid_threads
    delete_invalid-IsQuiet =
        bind-Keeps P (list_invalid_threads n) (delete_counted_threads n) list_invalid-IsQuiet
          delete_counted-IsQuiet

    concurrent-IsQuiet :
        (m : Action (Option ℕ)) → IsQuiet accounts m → IsQuiet accounts (concurrent_or n m)
    unfolding concurrent_or
    concurrent-IsQuiet m h =
        bind-Keeps P (load_visible_thread n) (found_or n m) load_thread-IsQuiet go
      where
        go : (found : Option Thread) → IsQuiet accounts (found_or n m found)
        go none = h
        go (some t) = λ w k. k

    on_retry-IsQuiet : (e : Failure) → IsQuiet accounts (on_retry_error n e)
    unfolding on_retry_error
    on_retry-IsQuiet Failure.uniqueness = concurrent-IsQuiet (throw Failure.uniqueness) (λ w h. h)
    on_retry-IsQuiet Failure.unavailable = λ w h. h
    on_retry-IsQuiet Failure.plain = λ w h. h
    on_retry-IsQuiet Failure.billing_uniqueness = λ w h. h
    on_retry-IsQuiet Failure.outbound_policy = λ w h. h
    on_retry-IsQuiet (Failure.validation s) = λ w h. h
    on_retry-IsQuiet (Failure.route_request s) = λ w h. h

    insert_new-IsQuiet : (id : ℕ) → IsQuiet accounts (insert_new n id)
    unfolding insert_new
    insert_new-IsQuiet id =
        bind-Keeps P (insert_thread n id) (λ _. pure none) (insert_thread-IsQuiet id) (λ _ w h. h)

    throw_if-Quiet : (b : Bool) (e : Failure) → IsQuiet accounts (throw_if b e)
    throw_if-Quiet true e w h = h
    throw_if-Quiet false e w h = h

    retry-IsQuiet : (id : ℕ) (e : Failure) (k : ℕ) → IsQuiet accounts (retry_insert n id e k)
    unfolding retry_insert
    retry-IsQuiet id e k =
        bind-Keeps P (throw_if (k == 0) e) (λ _. catch_with (insert_new n id) (on_retry_error n))
          (throw_if-Quiet (k == 0) e)
          (λ _.
            catch_with-Keeps P (insert_new n id) (on_retry_error n) (insert_new-IsQuiet id)
              on_retry-IsQuiet)

    insert_again-IsQuiet : (id : ℕ) (e : Failure) → IsQuiet accounts (insert_again n id e)
    unfolding insert_again
    insert_again-IsQuiet id e =
        bind-Keeps P (delete_invalid_threads n) (retry_insert n id e) delete_invalid-IsQuiet
          (retry-IsQuiet id e)

    on_insert-IsQuiet : (id : ℕ) (e : Failure) → IsQuiet accounts (on_insert_error n id e)
    unfolding on_insert_error
    on_insert-IsQuiet id Failure.uniqueness =
        concurrent-IsQuiet (insert_again n id Failure.uniqueness)
          (insert_again-IsQuiet id Failure.uniqueness)
    on_insert-IsQuiet id Failure.unavailable = λ w h. h
    on_insert-IsQuiet id Failure.plain = λ w h. h
    on_insert-IsQuiet id Failure.billing_uniqueness = λ w h. h
    on_insert-IsQuiet id Failure.outbound_policy = λ w h. h
    on_insert-IsQuiet id (Failure.validation s) = λ w h. h
    on_insert-IsQuiet id (Failure.route_request s) = λ w h. h

    finalize-IsQuiet : (id : ℕ) → IsQuiet accounts (finalize_thread n id)
    unfolding finalize_thread drop_unless delete_thread_row
    finalize-IsQuiet id w h = grind arith

    finish-IsQuiet : (id : ℕ) (o : Option ℕ) → IsQuiet accounts (finish_thread n id o)
    unfolding finish_thread
    finish-IsQuiet id none = finalize-IsQuiet id
    finish-IsQuiet id (some other) = λ w h. h

    insert_or_find-IsQuiet : (id : ℕ) → IsQuiet accounts (insert_or_find n id)
    unfolding insert_or_find
    insert_or_find-IsQuiet id =
        bind-Keeps P (catch_with (insert_new n id) (on_insert_error n id)) (finish_thread n id)
          (catch_with-Keeps P (insert_new n id) (on_insert_error n id) (insert_new-IsQuiet id)
            (on_insert-IsQuiet id))
          (finish-IsQuiet id)

    create_id-IsQuiet : IsQuiet accounts create_id
    unfolding create_id
    create_id-IsQuiet w h = h

    existing_or_new-IsQuiet : (o : Option Thread) → IsQuiet accounts (existing_or_new n o)
    unfolding existing_or_new create_thread
    existing_or_new-IsQuiet none =
        bind-Keeps P create_id (insert_or_find n) create_id-IsQuiet insert_or_find-IsQuiet
    existing_or_new-IsQuiet (some t) = λ w h. h

    get_or_create-IsQuiet : IsQuiet accounts (get_or_create_thread n)
    unfolding get_or_create_thread
    get_or_create-IsQuiet =
        bind-Keeps P (load_visible_thread n) (existing_or_new n) load_thread-IsQuiet
          existing_or_new-IsQuiet

  pub open_thread-IsQuiet :
      (d : Draft) (message : ℕ) (subject : Text) → IsQuiet accounts (open_thread d message subject)
  unfolding open_thread
  open_thread-IsQuiet d message subject = go (not (is_some d.thread_id) && not (is_empty subject))
    where
      opens : Action (Option ℕ)
      opens = get_or_create_thread (thread_for d message subject) >>= λ id. pure (some id)

      go : (b : Bool) → IsQuiet accounts (if b then opens else pure none)
      go true =
          bind-Keeps P (get_or_create_thread (thread_for d message subject)) (λ id. pure (some id))
            (get_or_create-IsQuiet (thread_for d message subject)) (λ _ w h. h)
      go false = λ w h. h

  pub assign_opened-IsQuiet : (d : Draft) (o : Option ℕ) → IsQuiet accounts (assign_opened d o)
  unfolding assign_opened
  assign_opened-IsQuiet d none = λ w h. h
  assign_opened-IsQuiet d (some t) = assign-IsQuiet accounts d.id t

  check_ref-IsQuiet :
      (d : Draft) (a : DraftAttachment) → IsQuiet accounts (check_attachment_ref d a)
  unfolding check_attachment_ref get_attachment_owner_by_r2_key
  check_ref-IsQuiet d a w h = ground arith

  pub check_refs-IsQuiet :
      (d : Draft) (l : List DraftAttachment) → IsQuiet accounts (check_attachment_refs d l)
  unfolding check_attachment_refs
  check_refs-IsQuiet d [] = λ w h. h
  check_refs-IsQuiet d (a ∷ l) =
      bind-Keeps P (check_attachment_ref d a) (λ _. check_attachment_refs d l)
        (check_ref-IsQuiet d a) (λ _. check_refs-IsQuiet d l)

  get_mailbox-IsQuiet : (a : Text) → IsQuiet accounts (get_mailbox_by_address a)
  unfolding get_mailbox_by_address
  get_mailbox-IsQuiet a w h = ground arith
