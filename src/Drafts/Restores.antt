-- ===== src/Drafts/Restores.antt =====
-- An enqueueing that throws leaves every tenant's credits as they were.
use mailagents_email_runtime.Base.{
  ℕ, ◌≡◌, refl, sym, inl, inr, Bool, true, false, not, Option, none, some, [], subst,
}
use mailagents_email_runtime.Base.Int.{ℤ, pos}
use mailagents_email_runtime.World.{
  World, Draft, BillingAccount, Action, Done, Result, ok, err, plain, ◌>>=◌, ◌>>◌, continue, throw,
  throw_if, gets, require_row, create_id,
}
use mailagents_email_runtime.Outbound.Recover.{either}
use mailagents_email_runtime.Drafts.{
  get_draft, is_sendable, claim_draft_for_send, Prepared, prepare, open_thread, assign_opened,
  check_attachment_refs, reserve_for, undo, with_credits_reserved, reserve_step, with_thread_opened,
  with_prepared, enqueue_claimed, drop_vanished, read_or_drop, claim_found, with_claim,
  enqueue_draft_send,
}
use mailagents_email_runtime.Drafts.Quiet.{
  Quiet, IsQuiet, get_draft-IsQuiet, claim-IsQuiet, drop_vanished-IsQuiet,
}
use mailagents_email_runtime.Drafts.Before.{
  open_thread-IsQuiet, assign_opened-IsQuiet, check_refs-IsQuiet,
}
use mailagents_email_runtime.Drafts.Priced.{AsPriced, OnOk, prepare-Yields}
use mailagents_email_runtime.Drafts.Released.{HasReserve, ReservedFor}
use mailagents_email_runtime.Drafts.Undo.{
  Restored, Restores, Restores-Quiet, then_Restores, undo_nothing, try_then-Restored,
  with_one-Restored, with_none-Restored, reserve-ReservedFor,
}

module _ (u : ℕ) (old : ℕ → Option BillingAccount) (has : HasReserve (old u)) where
  module _ (d : Draft) (job message now : ℕ) where
    abbrev Steps : Result ℤ × World → Type 0
    Steps = ReservedFor d job message now u old

    then_Steps :
        (m : Action Done) (k : Action ℤ)
        → IsQuiet old m
        → ((w : World) → Quiet old w → Steps (k w))
        → ((w : World) → Quiet old w → Steps ((m >> k) w))
    then_Steps m k hm hk w q = go (m w) (hm w q)
      where
        go : (x : Result Done × World) → Quiet old x.1 → Steps (continue (λ _. k) x)
        go (ok a, v) h = hk v h
        go (err e, v) h = h

    step-ReservedFor :
        (p : Prepared) (created : Option ℕ) (w : World)
        → AsPriced old p
        → Quiet old w
        → Steps (reserve_step d job message now p created w)
    unfolding reserve_step
    step-ReservedFor p created w priced =
        then_Steps (assign_opened d created)
          (check_attachment_refs d p.attachments >> reserve_for d p.requirement)
          (assign_opened-IsQuiet old d created)
          (then_Steps (check_attachment_refs d p.attachments) (reserve_for d p.requirement)
            (check_refs-IsQuiet old d p.attachments)
            (λ v q. reserve-ReservedFor u old d job message now p.requirement v q priced))
          w

    opened-Restores :
        (p : Prepared)
        → AsPriced old p
        → (created : Option ℕ) → Restores u old (with_thread_opened d job message now p created)
    unfolding with_thread_opened
    opened-Restores p priced created w q =
        go (reserve_step d job message now p created w) (step-ReservedFor p created w priced q)
      where
        go :
            (x : Result ℤ × World)
            → Steps x
            → Restored u old (
                either
                  (undo d job message now created (pos 0))
                  (with_credits_reserved d job message now created)
                  x)
        go (ok amount, v) (calm, inl (zero_amount, same)) =
            subst (λ a. Restored u old (with_credits_reserved d job message now created a v))
              (sym zero_amount) (with_none-Restored u old d job message now created v (calm, same))
        go (ok amount, v) (calm, inr (one_amount, shifted)) =
            subst (λ a. Restored u old (with_credits_reserved d job message now created a v))
              (sym one_amount)
              (with_one-Restored u old d job message now v.bank.accounts created v has (calm, refl)
                shifted)
        go (err e, v) h = undo_nothing u old d job message now created e v h

    prepared-Restores :
        (p : Prepared) → AsPriced old p → Restores u old (with_prepared d job message now p)
    unfolding with_prepared
    prepared-Restores p priced w q =
        try_then-Restored u old d job message now old (open_thread d message p.subject_norm)
          (undo d job message now none (pos 0)) (with_thread_opened d job message now p) w
          (open_thread-IsQuiet old d message p.subject_norm) q
          (undo_nothing u old d job message now none) (opened-Restores p priced)

    claimed-Restores : Restores u old (enqueue_claimed d job message now)
    unfolding enqueue_claimed
    claimed-Restores w q = go (prepare d w) (prepare-Yields old d w q)
      where
        go :
            (x : Result Prepared × World)
            → Quiet old x.1 × OnOk (AsPriced old) x
            → Restored u old
                (either (undo d job message now none (pos 0)) (with_prepared d job message now) x)
        go (ok p, v) (h, priced) = prepared-Restores p priced v h
        go (err e, v) (h, priced) = undo_nothing u old d job message now none e v h

  create_id-IsQuiet : IsQuiet old create_id
  unfolding create_id
  create_id-IsQuiet w h = h

  vanished_or-Restores :
      (d : Draft) (job now : ℕ) (again : Option Draft)
      → Restores u old (read_or_drop d job now again)
  unfolding read_or_drop
  vanished_or-Restores d job now none =
      Restores-Quiet u old (drop_vanished d) (drop_vanished-IsQuiet old d)
  vanished_or-Restores d job now (some _) =
      then_Restores u old create_id (λ message. enqueue_claimed d job message now) create_id-IsQuiet
        (λ message. claimed-Restores d job message now)

  with_claim-Restores :
      (d : Draft) (job now : ℕ) (claimed : Bool) → Restores u old (with_claim d job now claimed)
  unfolding with_claim
  with_claim-Restores d job now false =
      then_Restores u old (get_draft d.id) (λ _. throw plain) (get_draft-IsQuiet old d.id)
        (λ _. Restores-Quiet u old {A = ℕ} (throw plain) (λ w h. h))
  with_claim-Restores d job now true =
      then_Restores u old (get_draft d.id) (read_or_drop d job now) (get_draft-IsQuiet old d.id)
        (vanished_or-Restores d job now)

  throw_if-IsQuiet : (b : Bool) → IsQuiet old (throw_if b plain)
  throw_if-IsQuiet true w h = h
  throw_if-IsQuiet false w h = h

  claim_found-Restores : (id : ℕ) (d : Draft) → Restores u old (claim_found id d)
  unfolding claim_found
  claim_found-Restores id d =
      then_Restores u old (throw_if (not (is_sendable d.status)) plain) (λ _. claims)
        (throw_if-IsQuiet (not (is_sendable d.status)))
        (λ _.
          then_Restores u old create_id (λ job. timed job) create_id-IsQuiet
            (λ job.
              then_Restores u old (gets (λ w. w.now)) (λ now. attempt job now) (λ w h. h)
                (λ now.
                  then_Restores u old (claim_draft_for_send id now) (with_claim d job now)
                    (claim-IsQuiet old id now) (with_claim-Restores d job now))))
    where
      attempt : ℕ → ℕ → Action ℕ
      attempt job now = claim_draft_for_send id now >>= with_claim d job now

      timed : ℕ → Action ℕ
      timed job = gets (λ w. w.now) >>= attempt job

      claims : Action ℕ
      claims = create_id >>= timed

  found-Restores :
      (id : ℕ) (found : Option Draft) → Restores u old (require_row found >>= claim_found id)
  found-Restores id none = Restores-Quiet u old {A = ℕ} (throw plain) (λ w h. h)
  found-Restores id (some d) = claim_found-Restores id d

  enqueue-Restores : (id : ℕ) → Restores u old (enqueue_draft_send id)
  unfolding enqueue_draft_send
  enqueue-Restores id =
      then_Restores u old (get_draft id) (λ found. require_row found >>= claim_found id)
        (get_draft-IsQuiet old id) (found-Restores id)

-- Where no service fails, an enqueueing that throws leaves the available and the reserved credits of
-- every tenant whose reserve is not negative as they were: what it had reserved is released.
pub enqueue-Restored :
    (id u : ℕ) (w : World)
    → w.faults ≡ []
    → HasReserve (w.bank.accounts u)
    → Restored u w.bank.accounts (enqueue_draft_send id w)
enqueue-Restored id u w calm has = enqueue-Restores u w.bank.accounts has id w (calm, refl)
