-- ===== src/Outbound/Answers.antt =====
-- A run for a message of the queue ends in an acknowledgement or a retry.
use mailagents_email_runtime.Base.{
  ℕ, ◌≡◌, refl, Bool, true, false, ◌&&◌, Option, none, some, arith, is_some, if◌then◌else◌,
}
use Prim.Native.String.{String}
use mailagents_email_runtime.World.{
  World, MessageStatus, Draft, DraftStatus, OutboundJob, Action, Done, Failure, Result, ok, err,
  ◌>>◌, continue, recover, is_ok, Keeps, pure, when,
}
use mailagents_email_runtime.Routing.{Recipients}
use mailagents_email_runtime.Routing.Calm.{IsCalm}
use mailagents_email_runtime.Outbound.{update_outbound_job_status, update_message_status}
use mailagents_email_runtime.Outbound.Recover.{
  is_exhausted, failed_update, fail_message, Outcome, ack, retry, try_then, fail_send,
  enqueue_dead_letter, mark_draft, release_draft, ignored,
}
use mailagents_email_runtime.Outbound.Calm.{
  ignored-IsCalm, mark_draft-IsCalm, release_draft-IsCalm, update_job-IsCalm, update_message-IsCalm,
  when-IsCalm,
}

abbrev pub IsAnswer : Result Outcome → Type 0
IsAnswer (ok _) = Unit
IsAnswer (err _) = ⊥

-- Where no service fails, the run answers.
abbrev pub Answers : Action Outcome → Type 0
Answers m = (w : World) → IsCalm w → IsAnswer (m w).0

pub try_then-Answers :
    {A : Type 0} (m : Action A) (h : Failure → Action Outcome) (k : A → Action Outcome)
    → Keeps IsCalm m
    → ((e : Failure) → Answers (h e))
    → ((a : A) → Answers (k a))
    → Answers (try_then m h k)
try_then-Answers {A} m h k calm ha ka w c = go (m w) (calm w c)
  where
    go : (x : Result A × World) → IsCalm x.1 → IsAnswer (try_then (λ _. x) h k w).0
    go (ok a, v) p = ka a v p
    go (err e, v) p = ha e v p

abbrev Succeeds : {A : Type 0} → Action A → Type 0
Succeeds m = (w : World) → IsCalm w → is_ok (m w).0 ≡ true

then-Answers :
    {A : Type 0} (m : Action A) (k : Action Outcome)
    → Keeps IsCalm m
    → Succeeds m
    → Answers k
    → Answers (m >> k)
then-Answers {A} m k calm good answers w c = go (m w) (calm w c) (good w c)
  where
    go : (x : Result A × World) → IsCalm x.1 → is_ok x.0 ≡ true → IsAnswer (continue (λ _. k) x).0
    go (ok a, v) p q = answers v p
    go (err e, v) p q = cc

ignored-Succeeds : (m : Action Done) → Succeeds (ignored m)
ignored-Succeeds m w c = go (m w)
  where
    go : (x : Result Done × World) → is_ok (recover (λ _. pure tt) x).0 ≡ true
    go (ok a, v) = refl
    go (err e, v) = refl

when-Succeeds : (b : Bool) (m : Action Done) → Succeeds m → Succeeds (when b m)
when-Succeeds true m h = h
when-Succeeds false m h = λ w c. refl

pub enqueue-IsCalm : (source : String) (id : ℕ) → Keeps IsCalm (enqueue_dead_letter source id)
unfolding enqueue_dead_letter
enqueue-IsCalm source id w h = ground arith

enqueue-Succeeds : (source : String) (id : ℕ) → Succeeds (enqueue_dead_letter source id)
unfolding enqueue_dead_letter
enqueue-Succeeds source id w h = ground arith

-- a statement whose failure is ignored
ignored-Answers :
    (b : Bool) (m : Action Done) (k : Action Outcome)
    → Keeps IsCalm m
    → Answers k
    → Answers (when b (ignored m) >> k)
ignored-Answers b m k calm answers =
    then-Answers (when b (ignored m)) k (when-IsCalm b (ignored m) (ignored-IsCalm m calm))
      (when-Succeeds b (ignored m) (ignored-Succeeds m)) answers

enqueue-Answers :
    (source : String) (id : ℕ) (o : Outcome) → Answers (enqueue_dead_letter source id >> pure o)
enqueue-Answers source id o =
    then-Answers (enqueue_dead_letter source id) (pure o) (enqueue-IsCalm source id)
      (enqueue-Succeeds source id) (λ w c. tt)

fail_message-Answers :
    (b : Bool) (job : Option OutboundJob) (k : Action Outcome)
    → Answers k
    → Answers (when b (fail_message job) >> k)
fail_message-Answers b none k answers =
    then-Answers (when b (pure tt)) k (when-IsCalm b (pure tt) (λ w c. c))
      (when-Succeeds b (pure tt) (λ w c. refl)) answers
fail_message-Answers b (some job) k answers =
    ignored-Answers b (update_message_status job.message_id MessageStatus.failed) k
      (update_message-IsCalm job.message_id MessageStatus.failed) answers

pub fail_send-Answers :
    (max id : ℕ) (job : Option OutboundJob) (draft : Option Draft) (r : Recipients) (e : Failure)
    → Answers (fail_send max id job draft r e)
unfolding fail_send
fail_send-Answers max id job draft r e =
    let b = is_exhausted max job e in
    ignored-Answers true (update_outbound_job_status id (failed_update max job e)) (after_update b)
      (update_job-IsCalm id (failed_update max job e))
      (fail_message-Answers b job (after_message b) (
        ignored-Answers b (mark_draft draft DraftStatus.failed) (after_draft b)
          (mark_draft-IsCalm draft DraftStatus.failed)
          (ignored-Answers (b && is_some job) (release_draft draft r) (last b)
            (release_draft-IsCalm draft r)
            (enqueue-Answers "outbound-send" id (if b then ack else retry)))))
  where
    last : Bool → Action Outcome
    last b = enqueue_dead_letter "outbound-send" id >> pure (if b then ack else retry)

    after_draft : Bool → Action Outcome
    after_draft b = when (b && is_some job) (ignored (release_draft draft r)) >> last b

    after_message : Bool → Action Outcome
    after_message b = when b (ignored (mark_draft draft DraftStatus.failed)) >> after_draft b

    after_update : Bool → Action Outcome
    after_update b = when b (fail_message job) >> after_message b
