-- ===== src/Drafts/Quiet.antt =====
-- The statements of an enqueueing that touch no account, where no service fails.
use mailagents_email_runtime.Base.{
  ℕ, ◌≡◌, Bool, true, false, not, Option, none, some, List, [], ◌∷◌, arith, is_empty, length,
}
use mailagents_email_runtime.World.{
  World, Message, Draft, DraftStatus, OutboundJob, BillingAccount, Action, Done, plain, ◌>>=◌, ◌>>◌,
  pure, throw, throw_if, catch_with, Keeps, bind-Keeps, catch_with-Keeps, service,
}
use mailagents_email_runtime.Outbound.{get_message, get_outbound_job}
use mailagents_email_runtime.Drafts.{
  get_draft, claim_draft_for_send, restore_draft_send_state, assign_draft_thread_id,
  delete_thread_if_unreferenced, delete_draft_row, delete_object, delete_job_row,
  delete_message_row, quietly, list_visible_outbound_jobs_by_draft_r2_key, list_invalid_jobs,
  delete_counted, delete_jobs, delete_invalid_outbound_jobs_for_draft_r2_key, insert_message,
  insert_outbound_job, send_to_queue, insert_job_again, require_inserted, insert_after_skip,
  store_job, confirm_and_send, store_and_send, drop_created, drop_vanished, insert_required,
  replace_invalid, undo_rows, store_job_and_send, message_row, job_row,
}

-- No service will fail, and these are the accounts.
abbrev pub Quiet : (ℕ → Option BillingAccount) → World → Type 0
Quiet accounts w = (w.faults ≡ []) × (w.bank.accounts ≡ accounts)

module _ (accounts : ℕ → Option BillingAccount) where
  abbrev pub IsQuiet : {A : Type 0} → Action A → Type 0
  IsQuiet m = Keeps (Quiet accounts) m

  pub get_draft-IsQuiet : (id : ℕ) → IsQuiet (get_draft id)
  unfolding get_draft
  get_draft-IsQuiet id w h = ground arith

  pub claim-IsQuiet : (id now : ℕ) → IsQuiet (claim_draft_for_send id now)
  unfolding claim_draft_for_send
  claim-IsQuiet id now w h = ground arith

  restore-IsQuiet :
      (id : ℕ) (s : DraftStatus) (t : Option ℕ) → IsQuiet (restore_draft_send_state id s t)
  unfolding restore_draft_send_state
  restore-IsQuiet id s t w h = ground arith

  pub assign-IsQuiet : (id t : ℕ) → IsQuiet (assign_draft_thread_id id t)
  unfolding assign_draft_thread_id
  assign-IsQuiet id t w h = ground arith

  pub quietly-IsQuiet : (m : Action Done) → IsQuiet m → IsQuiet (quietly m)
  quietly-IsQuiet m h = catch_with-Keeps (Quiet accounts) m (λ _. pure tt) h (λ e w q. q)

  delete_thread-IsQuiet : (t : ℕ) → IsQuiet (delete_thread_if_unreferenced t)
  unfolding delete_thread_if_unreferenced
  delete_thread-IsQuiet t w h = ground arith

  delete_draft_row-IsQuiet : (id : ℕ) → IsQuiet (delete_draft_row id)
  unfolding delete_draft_row
  delete_draft_row-IsQuiet id w h = ground arith

  delete_object-IsQuiet : (key : ℕ) → IsQuiet (delete_object key)
  unfolding delete_object
  delete_object-IsQuiet key w h = ground arith

  delete_job_row-IsQuiet : (id : ℕ) → IsQuiet (delete_job_row id)
  unfolding delete_job_row
  delete_job_row-IsQuiet id w h = ground arith

  delete_message_row-IsQuiet : (id : ℕ) → IsQuiet (delete_message_row id)
  unfolding delete_message_row
  delete_message_row-IsQuiet id w h = ground arith

  list_jobs-IsQuiet : (key : ℕ) → IsQuiet (list_visible_outbound_jobs_by_draft_r2_key key)
  unfolding list_visible_outbound_jobs_by_draft_r2_key
  list_jobs-IsQuiet key w h = ground arith

  delete_jobs-IsQuiet : (rows : List OutboundJob) → IsQuiet (delete_jobs rows)
  unfolding delete_jobs
  delete_jobs-IsQuiet [] = λ w h. h
  delete_jobs-IsQuiet (row ∷ rows) =
      bind-Keeps (Quiet accounts) (quietly (delete_job_row row.id)) (λ _. delete_jobs rows)
        (quietly-IsQuiet (delete_job_row row.id) (delete_job_row-IsQuiet row.id))
        (λ _. delete_jobs-IsQuiet rows)

  pub service-IsQuiet : IsQuiet service
  unfolding service
  service-IsQuiet w h = ground arith

  pub throw_if-IsQuiet : (b : Bool) → IsQuiet (throw_if b plain)
  throw_if-IsQuiet true w h = h
  throw_if-IsQuiet false w h = h

  insert_message-IsQuiet : (row : Message) → IsQuiet (insert_message row)
  unfolding insert_message
  insert_message-IsQuiet row w h = ground arith

  insert_job-IsQuiet : (row : OutboundJob) → IsQuiet (insert_outbound_job row)
  unfolding insert_outbound_job
  insert_job-IsQuiet row w h = ground arith

  send_to_queue-IsQuiet : (id : ℕ) → IsQuiet (send_to_queue id)
  unfolding send_to_queue
  send_to_queue-IsQuiet id w h = ground arith

  confirm-IsQuiet : (message job : ℕ) → IsQuiet (confirm_and_send message job)
  unfolding confirm_and_send get_message get_outbound_job send_to_queue
  confirm-IsQuiet message job w h = grind arith

  list_invalid-IsQuiet : (key : ℕ) → IsQuiet (list_invalid_jobs key)
  unfolding list_invalid_jobs
  list_invalid-IsQuiet key w h = ground arith

  delete_counted-IsQuiet : (rows : List OutboundJob) → IsQuiet (delete_counted rows)
  unfolding delete_counted
  delete_counted-IsQuiet rows =
      bind-Keeps (Quiet accounts) (delete_jobs rows) (λ _. pure (length rows))
        (delete_jobs-IsQuiet rows) (λ _ w h. h)

  delete_invalid_jobs-IsQuiet :
      (key : ℕ) → IsQuiet (delete_invalid_outbound_jobs_for_draft_r2_key key)
  unfolding delete_invalid_outbound_jobs_for_draft_r2_key
  delete_invalid_jobs-IsQuiet key =
      bind-Keeps (Quiet accounts) (list_invalid_jobs key) delete_counted (list_invalid-IsQuiet key)
        delete_counted-IsQuiet

  insert_required-IsQuiet : (row : OutboundJob) (n : ℕ) → IsQuiet (insert_required row n)
  unfolding insert_required insert_job_again insert_outbound_job require_inserted
      list_visible_outbound_jobs_by_draft_r2_key
  insert_required-IsQuiet row n w h = grind arith

  replace_invalid-IsQuiet :
      (row : OutboundJob) (existing : List OutboundJob) → IsQuiet (replace_invalid row existing)
  unfolding replace_invalid
  replace_invalid-IsQuiet row existing =
      bind-Keeps (Quiet accounts) (throw_if (not (is_empty existing)) plain)
        (λ _.
          delete_invalid_outbound_jobs_for_draft_r2_key row.draft_r2_key >>= insert_required row)
        (throw_if-IsQuiet (not (is_empty existing)))
        (λ _.
          bind-Keeps (Quiet accounts)
            (delete_invalid_outbound_jobs_for_draft_r2_key row.draft_r2_key) (insert_required row)
            (delete_invalid_jobs-IsQuiet row.draft_r2_key) (insert_required-IsQuiet row))

  insert_after_skip-IsQuiet : (row : OutboundJob) (b : Bool) → IsQuiet (insert_after_skip row b)
  unfolding insert_after_skip
  insert_after_skip-IsQuiet row true = λ w h. h
  insert_after_skip-IsQuiet row false =
      bind-Keeps (Quiet accounts) (list_visible_outbound_jobs_by_draft_r2_key row.draft_r2_key)
        (replace_invalid row) (list_jobs-IsQuiet row.draft_r2_key) (replace_invalid-IsQuiet row)

  store_job-IsQuiet : (row : OutboundJob) → IsQuiet (store_job row)
  unfolding store_job
  store_job-IsQuiet row =
      bind-Keeps (Quiet accounts) (insert_outbound_job row) (insert_after_skip row)
        (insert_job-IsQuiet row) (insert_after_skip-IsQuiet row)

  pub store_and_send-IsQuiet :
      (d : Draft) (job message now : ℕ) (created : Option ℕ)
      → IsQuiet (store_and_send d job message now created)
  unfolding store_and_send store_job_and_send
  store_and_send-IsQuiet d job message now created =
      bind-Keeps (Quiet accounts) (insert_message (message_row d job message now created))
        (λ _. store_job_and_send d job message now)
        (insert_message-IsQuiet (message_row d job message now created))
        (λ _.
          bind-Keeps (Quiet accounts) (store_job (job_row d job message now))
            (λ _. confirm_and_send message job) (store_job-IsQuiet (job_row d job message now))
            (λ _. confirm-IsQuiet message job))

  drop_created-IsQuiet :
      (d : Draft) (job message now : ℕ) (created : Option ℕ)
      → IsQuiet (drop_created d job message now created)
  unfolding drop_created delete_thread_if_unreferenced
  drop_created-IsQuiet d job message now none w h = h
  drop_created-IsQuiet d job message now (some t) w h = ground arith

  pub undo_rows-IsQuiet :
      (d : Draft) (job message now : ℕ) (created : Option ℕ)
      → IsQuiet (undo_rows d job message now created)
  unfolding undo_rows
  undo_rows-IsQuiet d job message now created =
      bind-Keeps (Quiet accounts) (quietly (delete_job_row job))
        (λ _.
          quietly (delete_message_row message)
          >> (quietly (restore_draft_send_state d.id d.status d.thread_id)
              >> drop_created d job message now created))
        (quietly-IsQuiet (delete_job_row job) (delete_job_row-IsQuiet job))
        (λ _.
          bind-Keeps (Quiet accounts) (quietly (delete_message_row message))
            (λ _.
              quietly (restore_draft_send_state d.id d.status d.thread_id)
              >> drop_created d job message now created)
            (quietly-IsQuiet (delete_message_row message) (delete_message_row-IsQuiet message))
            (λ _.
              bind-Keeps (Quiet accounts)
                (quietly (restore_draft_send_state d.id d.status d.thread_id))
                (λ _. drop_created d job message now created)
                (quietly-IsQuiet (restore_draft_send_state d.id d.status d.thread_id)
                  (restore-IsQuiet d.id d.status d.thread_id))
                (λ _. drop_created-IsQuiet d job message now created)))

  drop_draft-IsQuiet :
      (d : Draft)
      → IsQuiet (quietly (delete_draft_row d.id) >> quietly (delete_object d.draft_r2_key))
  drop_draft-IsQuiet d =
      bind-Keeps (Quiet accounts) (quietly (delete_draft_row d.id))
        (λ _. quietly (delete_object d.draft_r2_key))
        (quietly-IsQuiet (delete_draft_row d.id) (delete_draft_row-IsQuiet d.id))
        (λ _. quietly-IsQuiet (delete_object d.draft_r2_key) (delete_object-IsQuiet d.draft_r2_key))

  pub drop_vanished-IsQuiet : (d : Draft) → IsQuiet (drop_vanished d)
  unfolding drop_vanished
  drop_vanished-IsQuiet d =
      bind-Keeps (Quiet accounts)
        (catch_with (restore_draft_send_state d.id d.status d.thread_id)
          (λ _. quietly (delete_draft_row d.id) >> quietly (delete_object d.draft_r2_key)))
        (λ _. throw plain)
        (catch_with-Keeps (Quiet accounts) (restore_draft_send_state d.id d.status d.thread_id)
          (λ _. quietly (delete_draft_row d.id) >> quietly (delete_object d.draft_r2_key))
          (restore-IsQuiet d.id d.status d.thread_id) (λ _. drop_draft-IsQuiet d))
        (λ _ w h. h)
