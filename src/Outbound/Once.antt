-- ===== src/Outbound/Once.antt =====
-- A run for a job that cannot be claimed sends nothing.
use mailagents_email_runtime.Base.{
  ℕ, ◌≡◌, refl, sym, ap, ◌∙◌, subst, Bool, true, false, Option, none, some, List, [], ◌∷◌, arith,
  any, find,
}
use mailagents_email_runtime.Json.{Fields}
use mailagents_email_runtime.World.{
  World, Mail, Mailbox, Message, Draft, OutboundJob, OutboundJobStatus, DeliveryEvent, Action,
  Failure, Result, ok, err, ◌>>=◌, require_row,
}
use mailagents_email_runtime.Outbound.{
  jobs, is_visible_job, is_claimable, is_claimable_job, get_outbound_job, get_message,
  list_delivery_events_by_message_id, get_draft_by_r2_key_for_outbound_lifecycle,
  claim_outbound_job_for_send,
}
use mailagents_email_runtime.Outbound.Claim.{Claims, claim-Claims}
use mailagents_email_runtime.Outbound.Recover.{try_then, no_recipients, caught, fail_send}
use mailagents_email_runtime.Outbound.Send.{
  Services, Limits, read_payload, handle_outbound_send, with_job, with_payload, with_draft,
  with_message, dispatch_by, claim_and_send, send_if_claimed,
}

try_then_cong :
    {A B : Type 0} (m : Action A) (h : Failure → Action B) (k l : A → Action B) (w : World)
    → ((a : A) (v : World) → m w ≡ (ok a, v) → k a v ≡ l a v)
    → try_then m h k w ≡ try_then m h l w
try_then_cong {A} {B} m h k l w same = go (m w) refl
  where
    go : (x : Result A × World) → m w ≡ x → try_then (λ _. x) h k w ≡ try_then (λ _. x) h l w
    go (ok a, v) e = same a v e
    go (err x, v) e = refl

-- The job is not visible, or neither queued nor to be retried.
abbrev pub CannotClaim : ℕ → Mail → Type 0
CannotClaim id m = any (is_claimable_job m.mailboxes m.messages id) m.jobs ≡ false

abbrev ReadsMail : {A : Type 0} → Action A → Type 0
ReadsMail m = (w : World) → (m w).1.mail ≡ w.mail

get_outbound_job-ReadsMail : (id : ℕ) → ReadsMail (get_outbound_job id)
unfolding get_outbound_job
get_outbound_job-ReadsMail id w = ground arith

get_message-ReadsMail : (id : ℕ) → ReadsMail (get_message id >>= require_row)
unfolding get_message
get_message-ReadsMail id w = ground arith

payload-ReadsMail : (key : ℕ) → ReadsMail (read_payload key)
unfolding read_payload
payload-ReadsMail key w = ground arith

draft-ReadsMail : (key : ℕ) → ReadsMail (get_draft_by_r2_key_for_outbound_lifecycle key)
unfolding get_draft_by_r2_key_for_outbound_lifecycle
draft-ReadsMail key w = ground arith

events-ReadsMail : (id : ℕ) → ReadsMail (list_delivery_events_by_message_id id)
unfolding list_delivery_events_by_message_id
events-ReadsMail id w = ground arith

carry :
    {A : Type 0} (id : ℕ) (m : Action A) (w v : World) (a : A)
    → ReadsMail m
    → m w ≡ (ok a, v)
    → CannotClaim id w.mail
    → CannotClaim id v.mail
carry id m w v a reads e h = subst (λ x. CannotClaim id x) (sym (reads w) ∙ ap (λ x. x.1.mail) e) h

claim_refused :
    (id : ℕ) (w v : World) (b : Bool)
    → CannotClaim id w.mail
    → claim_outbound_job_for_send id w ≡ (ok b, v)
    → b ≡ false
claim_refused id w v false h e = refl
claim_refused id w v true h e =
    let claims : Claims id w (ok true, v) = rw e at (claim-Claims id w) in cc (claims.0, h)

-- what is known of a job that was found
abbrev IsFound : ℕ → OutboundJob → Type 0
IsFound id job = (job.id ≡ id) × (is_claimable job.status ≡ false)

find-IsFound :
    (bs : List Mailbox) (ms : List Message) (id : ℕ) (job : OutboundJob) (rows : List OutboundJob)
    → any (is_claimable_job bs ms id) rows ≡ false
    → find (is_visible_job bs ms id) rows ≡ some job
    → IsFound id job
find-IsFound bs ms id job [] h f = cc
find-IsFound bs ms id job (r ∷ rows) h f = ground (arith, find-IsFound bs ms id job rows)

abbrev Finds : ℕ → World → Result OutboundJob × World → Type 0
Finds id w (ok job, v) =
    (find (is_visible_job w.mail.mailboxes w.mail.messages id) (jobs w) ≡ some job)
    × (v.mail ≡ w.mail)
Finds id w (err _, v) = Unit

get_outbound_job-Finds : (id : ℕ) (w : World) → Finds id w ((get_outbound_job id >>= require_row) w)
unfolding get_outbound_job
get_outbound_job-Finds id w = ground arith

module _ (s s' : Services) (limits : Limits) (job : OutboundJob) where
  claim_and_send_cong :
      (draft : Option Draft) (message : Message) (payload : Fields) (w : World)
      → CannotClaim job.id w.mail
      → claim_and_send s limits job draft message payload w
        ≡ claim_and_send s' limits job draft message payload w
  unfolding claim_and_send send_if_claimed
  claim_and_send_cong draft message payload w h =
      try_then_cong (claim_outbound_job_for_send job.id)
        (caught limits.max_retries job draft no_recipients)
        (send_if_claimed s limits job draft message payload)
        (send_if_claimed s' limits job draft message payload) w (refused)
    where
      refused :
          (b : Bool) (v : World)
          → claim_outbound_job_for_send job.id w ≡ (ok b, v)
          → send_if_claimed s limits job draft message payload b v
            ≡ send_if_claimed s' limits job draft message payload b v
      refused b v e = rw (claim_refused job.id w v b h e) refl

  dispatch_cong :
      (status : OutboundJobStatus) (draft : Option Draft) (payload : Fields) (message : Message)
      (events : List DeliveryEvent) (w : World)
      → is_claimable status ≡ false
      → CannotClaim job.id w.mail
      → dispatch_by s limits status job draft payload message events w
        ≡ dispatch_by s' limits status job draft payload message events w
  unfolding dispatch_by
  dispatch_cong OutboundJobStatus.queued draft payload message events w n h = cc
  dispatch_cong OutboundJobStatus.retry draft payload message events w n h = cc
  dispatch_cong OutboundJobStatus.sending draft payload message events w n h = refl
  dispatch_cong OutboundJobStatus.sent draft payload message events w n h = refl
  dispatch_cong OutboundJobStatus.failed draft payload message events w n h =
      claim_and_send_cong draft message payload w h

  module _ (n : is_claimable job.status ≡ false) where
    with_message_cong :
        (draft : Option Draft) (payload : Fields) (message : Message) (w : World)
        → CannotClaim job.id w.mail
        → with_message s limits job draft payload message w
          ≡ with_message s' limits job draft payload message w
    unfolding with_message
    with_message_cong draft payload message w h =
        try_then_cong (list_delivery_events_by_message_id message.id)
          (caught limits.max_retries job draft no_recipients)
          (dispatch_by s limits job.status job draft payload message)
          (dispatch_by s' limits job.status job draft payload message) w
          (λ events v e. dispatch_cong job.status draft payload message events v n (
            carry job.id (list_delivery_events_by_message_id message.id) w v events
              (events-ReadsMail message.id) e h))

    with_draft_cong :
        (payload : Fields) (draft : Option Draft) (w : World)
        → CannotClaim job.id w.mail
        → with_draft s limits job payload draft w ≡ with_draft s' limits job payload draft w
    unfolding with_draft
    with_draft_cong payload draft w h =
        try_then_cong (get_message job.message_id >>= require_row)
          (caught limits.max_retries job draft no_recipients)
          (with_message s limits job draft payload) (with_message s' limits job draft payload) w
          (λ message v e. with_message_cong draft payload message v (
            carry job.id (get_message job.message_id >>= require_row) w v message
              (get_message-ReadsMail job.message_id) e h))

    with_payload_cong :
        (payload : Fields) (w : World)
        → CannotClaim job.id w.mail
        → with_payload s limits job payload w ≡ with_payload s' limits job payload w
    unfolding with_payload
    with_payload_cong payload w h =
        try_then_cong (get_draft_by_r2_key_for_outbound_lifecycle job.draft_r2_key)
          (caught limits.max_retries job none no_recipients) (with_draft s limits job payload)
          (with_draft s' limits job payload) w
          (λ draft v e. with_draft_cong payload draft v (
            carry job.id (get_draft_by_r2_key_for_outbound_lifecycle job.draft_r2_key) w v draft
              (draft-ReadsMail job.draft_r2_key) e h))

    with_job_cong :
        (w : World) → CannotClaim job.id w.mail → with_job s limits job w ≡ with_job s' limits job w
    unfolding with_job
    with_job_cong w h =
        try_then_cong (read_payload job.draft_r2_key)
          (caught limits.max_retries job none no_recipients) (with_payload s limits job)
          (with_payload s' limits job) w
          (λ payload v e. with_payload_cong payload v (
            carry job.id (read_payload job.draft_r2_key) w v payload
              (payload-ReadsMail job.draft_r2_key) e h))

-- A run for a job that is not visible, or neither queued nor to be retried, ends in the same way
-- and leaves the same world whatever the provider, the local delivery and the check of the draft
-- would do.
pub handle_cong :
    (s s' : Services) (limits : Limits) (id : ℕ) (w : World)
    → CannotClaim id w.mail
    → handle_outbound_send s limits id w ≡ handle_outbound_send s' limits id w
unfolding handle_outbound_send
handle_cong s s' limits id w h =
    try_then_cong (get_outbound_job id >>= require_row)
      (fail_send limits.max_retries id none none no_recipients) (with_job s limits)
      (with_job s' limits) w found
  where
    found :
        (job : OutboundJob) (v : World)
        → (get_outbound_job id >>= require_row) w ≡ (ok job, v)
        → with_job s limits job v ≡ with_job s' limits job v
    found job v e =
        let finds : Finds id w (ok job, v) = rw e at (get_outbound_job-Finds id w) in
        let (same, n) = find-IsFound w.mail.mailboxes w.mail.messages id job (jobs w) h finds.0 in
        with_job_cong s s' limits job n v (
          subst (λ x. CannotClaim x v.mail) (sym same)
            (subst (λ x. CannotClaim id x) (sym finds.1) h))
