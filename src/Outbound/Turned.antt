-- ===== src/Outbound/Turned.antt =====
-- Which jobs a claim turns to sending.
use mailagents_email_runtime.Base.{
  ℕ, ◌≡◌, ◌⊎◌, inl, inr, refl, Bool, true, false, List, [], ◌∷◌, arith, any, All, Bool-cases, subst,
  sym,
}
use mailagents_email_runtime.World.{World, OutboundJob, OutboundJobStatus, Result, ok, err}
use mailagents_email_runtime.World.Tables.{update_rows}
use mailagents_email_runtime.Outbound.{
  jobs, is_visible_job, is_claimable, is_claimable_job, claimed_job, claim_outbound_job_for_send,
}
use mailagents_email_runtime.Outbound.Claim.{IsClaimed, Claims, claim-Claims}

-- The job `id`, where it is visible and queued or to be retried.
abbrev pub CanClaim : ℕ → World → OutboundJob → Type 0
CanClaim id w r =
    (is_visible_job w.mail.mailboxes w.mail.messages id r ≡ true)
    × ((r.status ≡ OutboundJobStatus.queued) ⊎ (r.status ≡ OutboundJobStatus.retry))

-- The jobs before and after a claim of `id` that was made in `w`.
pub data Turned (id : ℕ) (w : World) : List OutboundJob → List OutboundJob → Type 0 where
  no_jobs : Turned id w [] []
  turned :
      {r : OutboundJob} {rows later : List OutboundJob}
      → CanClaim id w r
      → Turned id w rows later
      → Turned id w
          (r ∷ rows)
          (record r { status = OutboundJobStatus.sending; updated_at = w.now } ∷ later)
  kept :
      {r : OutboundJob} {rows later : List OutboundJob}
      → ¬ CanClaim id w r
      → Turned id w rows later
      → Turned id w (r ∷ rows) (r ∷ later)

-- There is a job that can be claimed.
abbrev pub IsOpen : ℕ → World → List OutboundJob → Type 0
IsOpen id w [] = ⊥
IsOpen id w (r ∷ rows) = CanClaim id w r ⊎ IsOpen id w rows

abbrev pub Turns : ℕ → World → Result Bool × World → Type 0
Turns id w (ok true, v) = IsOpen id w (jobs w) × Turned id w (jobs w) (jobs v)
Turns id w (ok false, v) = All (λ r. ¬ CanClaim id w r) (jobs w) × (jobs v ≡ jobs w)
Turns id w (err _, v) = (jobs v ≡ jobs w) ⊎ (IsOpen id w (jobs w) × Turned id w (jobs w) (jobs v))

claimable-cases :
    (s : OutboundJobStatus)
    → is_claimable s ≡ true
    → (s ≡ OutboundJobStatus.queued) ⊎ (s ≡ OutboundJobStatus.retry)
claimable-cases OutboundJobStatus.queued h = inl refl
claimable-cases OutboundJobStatus.retry h = inr refl
claimable-cases OutboundJobStatus.sending h = cc
claimable-cases OutboundJobStatus.sent h = cc
claimable-cases OutboundJobStatus.failed h = cc

module _ (id : ℕ) (w : World) where
  abbrev test : OutboundJob → Bool
  test = is_claimable_job w.mail.mailboxes w.mail.messages id

  claimable-CanClaim : (r : OutboundJob) → test r ≡ true → CanClaim id w r
  claimable-CanClaim r h = (ground arith, claimable-cases r.status (ground arith))

  unclaimable-ne-CanClaim : (r : OutboundJob) → test r ≡ false → ¬ CanClaim id w r
  unclaimable-ne-CanClaim r h (visible, inl e) = ground arith
  unclaimable-ne-CanClaim r h (visible, inr e) = ground arith

  update_rows-Turned :
      (rows : List OutboundJob) → Turned id w rows (update_rows test (claimed_job w.now) rows)
  update_rows-Turned [] = no_jobs
  update_rows-Turned (r ∷ rows) = elim (Bool-cases (test r)) [
    | inl e ↦ rw e (turned (claimable-CanClaim r e) (update_rows-Turned rows))
    | inr e ↦ rw e (kept (unclaimable-ne-CanClaim r e) (update_rows-Turned rows))
  ]

  any-IsOpen : (rows : List OutboundJob) → any test rows ≡ true → IsOpen id w rows
  any-IsOpen [] h = cc
  any-IsOpen (r ∷ rows) h = elim (Bool-cases (test r)) [
    | inl e ↦ inl (claimable-CanClaim r e)
    | inr e ↦ inr (any-IsOpen rows (ground arith))
  ]

  none-CanClaim :
      (rows : List OutboundJob) → any test rows ≡ false → All (λ r. ¬ CanClaim id w r) rows
  none-CanClaim [] h = tt
  none-CanClaim (r ∷ rows) h =
      (unclaimable-ne-CanClaim r (ground arith), none-CanClaim rows (ground arith))

  IsClaimed-Turned :
      (v : World) → IsClaimed id w v → IsOpen id w (jobs w) × Turned id w (jobs w) (jobs v)
  IsClaimed-Turned v (open_job, new) = (
    any-IsOpen (jobs w) open_job,
    subst (λ l. Turned id w (jobs w) l) (sym new) (update_rows-Turned (jobs w)),
  )

  Claims-Turns : (x : Result Bool × World) → Claims id w x → Turns id w x
  Claims-Turns (ok true, v) h = IsClaimed-Turned v h
  Claims-Turns (ok false, v) (shut, same) = (none-CanClaim (jobs w) shut, same)
  Claims-Turns (err e, v) (inl same) = inl same
  Claims-Turns (err e, v) (inr h) = inr (IsClaimed-Turned v h)

-- A claim is given only where a visible job of its identifier is queued or to be retried, and turns
-- such a job to sending, with its time, and no other; it is refused, and no job is changed, where
-- there is none; a throw leaves the jobs as they were, or comes after the job was turned.
pub claim-Turns : (id : ℕ) (w : World) → Turns id w (claim_outbound_job_for_send id w)
claim-Turns id w = Claims-Turns id w (claim_outbound_job_for_send id w) (claim-Claims id w)
