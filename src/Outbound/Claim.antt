-- ===== src/Outbound/Claim.antt =====
-- A job is claimed by one send at a time.
use mailagents_email_runtime.Base.{
  ℕ, ◌≡◌, ◌≢◌, ◌⊎◌, refl, Bool, true, false, Option, none, some, List, [], ◌∷◌, arith, any, find,
}
use mailagents_email_runtime.World.{World, Mailbox, Message, OutboundJob, Done, Result, ok, err}
use mailagents_email_runtime.World.Tables.{update_rows}
use mailagents_email_runtime.Outbound.{
  jobs, is_visible_job, is_claimable_job, claimed_job, claim_outbound_job_for_send, JobUpdate,
  updated_job, update_outbound_job_status,
}

any-claimed :
    (bs : List Mailbox) (ms : List Message) (id now : ℕ) (rows : List OutboundJob)
    → any
        (is_claimable_job bs ms id)
        (update_rows (is_claimable_job bs ms id) (claimed_job now) rows)
      ≡ false
any-claimed bs ms id now [] = refl
any-claimed bs ms id now (r ∷ rows) = ground (arith, any-claimed bs ms id now rows)

-- what a claim that was made leaves for the next
abbrev pub Excludes : Result Bool × World → Result Bool × World → Type 0
Excludes (ok true, v) (x, u) = (x ≢ ok true) × (jobs u ≡ jobs v)
Excludes (_, v) (x, u) = Unit

find-claimed :
    (bs : List Mailbox) (ms : List Message) (id now : ℕ) (rows : List OutboundJob)
    → any (is_claimable_job bs ms id) rows ≡ true
    → find
        (is_visible_job bs ms id)
        (update_rows (is_claimable_job bs ms id) (claimed_job now) rows)
      ≢ none
find-claimed bs ms id now [] h = λ e. cc
find-claimed bs ms id now (r ∷ rows) h = ground (arith, find-claimed bs ms id now rows)

update-unclaimed :
    (bs : List Mailbox) (ms : List Message) (id now : ℕ) (rows : List OutboundJob)
    → any (is_claimable_job bs ms id) rows ≡ false
    → update_rows (is_claimable_job bs ms id) (claimed_job now) rows ≡ rows
update-unclaimed bs ms id now [] h = refl
update-unclaimed bs ms id now (r ∷ rows) h = ground (arith, update-unclaimed bs ms id now rows)

-- the jobs after a claim that began in `w`
abbrev pub IsClaimed : ℕ → World → World → Type 0
IsClaimed id w v =
    (any (is_claimable_job w.mail.mailboxes w.mail.messages id) (jobs w) ≡ true)
    × (jobs v
        ≡ update_rows (is_claimable_job w.mail.mailboxes w.mail.messages id) (claimed_job w.now)
            (jobs w))

-- What a claim that began in `w` has done, by how it ended.
abbrev pub Claims : ℕ → World → Result Bool × World → Type 0
Claims id w (ok true, v) = IsClaimed id w v
Claims id w (ok false, v) =
    (any (is_claimable_job w.mail.mailboxes w.mail.messages id) (jobs w) ≡ false)
    × (jobs v ≡ jobs w)
Claims id w (err _, v) = (jobs v ≡ jobs w) ⊎ IsClaimed id w v

-- A claim is given exactly where the job is visible and queued or to be retried, and turns it to
-- sending; it is refused, and nothing is changed, where it is not; a throw leaves the jobs as they
-- were, or comes after the job was turned to sending.
pub claim-Claims : (id : ℕ) (w : World) → Claims id w (claim_outbound_job_for_send id w)
unfolding claim_outbound_job_for_send
claim-Claims id w = grind (
  arith,
  find-claimed w.mail.mailboxes w.mail.messages id w.now (jobs w),
  update-unclaimed w.mail.mailboxes w.mail.messages id w.now (jobs w),
)

-- Of two sends that claim a job, the second is not given the claim that the first was given, and
-- leaves the jobs alone.
pub claim-Excludes :
    (id : ℕ) (w : World)
    → Excludes
        (claim_outbound_job_for_send id w)
        (claim_outbound_job_for_send id (claim_outbound_job_for_send id w).1)
unfolding claim_outbound_job_for_send
claim-Excludes id w = grind (
  arith,
  any-claimed w.mail.mailboxes w.mail.messages id w.now (jobs w),
  update-unclaimed w.mail.mailboxes w.mail.messages id w.now (
      update_rows (is_claimable_job w.mail.mailboxes w.mail.messages id) (claimed_job w.now)
        (jobs w)),
)

find-updated :
    (bs : List Mailbox) (ms : List Message) (id j now : ℕ) (u : JobUpdate) (rows : List OutboundJob)
    → j ≢ id
    → find (is_visible_job bs ms j) (update_rows (is_visible_job bs ms id) (updated_job u now) rows)
      ≡ find (is_visible_job bs ms j) rows
find-updated bs ms id j now u [] ne = refl
find-updated bs ms id j now u (r ∷ rows) ne = ground (arith, find-updated bs ms id j now u rows ne)

pub find-updated_self :
    (bs : List Mailbox) (ms : List Message) (id now : ℕ) (u : JobUpdate) (r : OutboundJob)
    (rows : List OutboundJob)
    → find (is_visible_job bs ms id) rows ≡ some r
    → find
        (is_visible_job bs ms id)
        (update_rows (is_visible_job bs ms id) (updated_job u now) rows)
      ≡ some (updated_job u now r)
find-updated_self bs ms id now u r [] h = cc
find-updated_self bs ms id now u r (x ∷ rows) h =
    ground (arith, find-updated_self bs ms id now u r rows)

-- the jobs after an update of the status of the job `id`
abbrev pub IsUpdated : ℕ → JobUpdate → ℕ → Option OutboundJob → Option OutboundJob → Type 0
IsUpdated id u now none r = ⊥
IsUpdated id u now (some old) r = r ≡ some (updated_job u now old)

abbrev pub Updates : ℕ → JobUpdate → World → Result Done × World → Type 0
Updates id u w (ok _, v) =
    IsUpdated id u w.now (find (is_visible_job w.mail.mailboxes w.mail.messages id) (jobs w))
      (find (is_visible_job w.mail.mailboxes w.mail.messages id) (jobs v))
Updates id u w (err _, v) = jobs v ≡ jobs w

find-any :
    (bs : List Mailbox) (ms : List Message) (id : ℕ) (rows : List OutboundJob)
    → find (is_visible_job bs ms id) rows ≡ none
    → any (is_visible_job bs ms id) rows ≡ false
find-any bs ms id [] h = refl
find-any bs ms id (r ∷ rows) h = ground (arith, find-any bs ms id rows)

update-unseen :
    (bs : List Mailbox) (ms : List Message) (id now : ℕ) (u : JobUpdate) (rows : List OutboundJob)
    → any (is_visible_job bs ms id) rows ≡ false
    → update_rows (is_visible_job bs ms id) (updated_job u now) rows ≡ rows
update-unseen bs ms id now u [] h = refl
update-unseen bs ms id now u (r ∷ rows) h = ground (arith, update-unseen bs ms id now u rows)

-- An update of a job's status that returns has changed the visible job that was there, counting the
-- retries up only where it is told to; one that throws has changed no job.
pub update-Updates :
    (id : ℕ) (u : JobUpdate) (w : World) → Updates id u w (update_outbound_job_status id u w)
unfolding update_outbound_job_status
update-Updates id u w = grind (
  arith,
  find-any w.mail.mailboxes w.mail.messages id (jobs w),
  update-unseen w.mail.mailboxes w.mail.messages id w.now u (jobs w),
  find-updated_self w.mail.mailboxes w.mail.messages id w.now u,
)

-- An update of a job's status leaves every other job as it is.
pub update_others :
    (id j : ℕ) (u : JobUpdate) (w : World)
    → j ≢ id
    → find
        (is_visible_job w.mail.mailboxes w.mail.messages j)
        (jobs (update_outbound_job_status id u w).1)
      ≡ find (is_visible_job w.mail.mailboxes w.mail.messages j) (jobs w)
unfolding update_outbound_job_status
update_others id j u w ne =
    ground (arith, find-updated w.mail.mailboxes w.mail.messages id j w.now u (jobs w) ne)
