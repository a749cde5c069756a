-- ===== src/Drafts/Undo.antt =====
-- The `catch` of an enqueueing gives the credits back that it had reserved.
use mailagents_email_runtime.Base.{
  ℕ, ◌≡◌, refl, sym, ◌∙◌, ap, subst, inl, inr, Bool, true, false, Option, none, some, arith,
  if◌then◌else◌, ◌==◌, Bool-cases,
}
use mailagents_email_runtime.Base.Int.{ℤ, pos, ◌≤ℤ◌, ltb_ℤ}
use mailagents_email_runtime.World.{
  World, Draft, BillingAccount, Action, Done, Result, ok, err, Failure, ◌>>=◌, ◌>>◌, pure, throw,
  continue, recover,
}
use mailagents_email_runtime.Outbound.Recover.{try_then, either}
use mailagents_email_runtime.Credits.{OutboundCreditRequirement}
use mailagents_email_runtime.Billing.{release_tenant_reserved_credits}
use mailagents_email_runtime.Drafts.{
  reserve_for, store_and_send, release_amount, quietly, differs, delete_job_row, delete_message_row,
  restore_draft_send_state, delete_thread_if_unreferenced, drop_created, undo_rows, undo,
  with_credits_reserved,
}
use mailagents_email_runtime.Drafts.Quiet.{
  Quiet, IsQuiet, store_and_send-IsQuiet, undo_rows-IsQuiet,
}
use mailagents_email_runtime.Drafts.Priced.{IsPriced}
use mailagents_email_runtime.Drafts.Released.{
  HasReserve, ShiftedRow, SameCredits, SameCredits-refl, Shifted, ReservedFor, reserve_same,
  reserve_other, release_same, release_other,
}

-- Calls that only end by returning.
Returns : Action Done → Type 0
Returns m = (w : World) → (m w).0 ≡ ok tt

then_returned :
    {B : Type 0} (m : Action Done) (f : Done → Action B) (w : World)
    → (m w).0 ≡ ok tt
    → (m >>= f) w ≡ f tt (m w).1
then_returned {B} m f w h = go (m w) h
  where
    go : (x : Result Done × World) → x.0 ≡ ok tt → continue f x ≡ f tt x.1
    go (ok tt, v) e = refl
    go (err x, v) e = cc

quietly-Returns : (m : Action Done) → Returns (quietly m)
unfolding Returns
quietly-Returns m w = go (m w)
  where
    go : (x : Result Done × World) → (recover (λ _. pure tt) x).0 ≡ ok tt
    go (ok tt, v) = refl
    go (err e, v) = refl

then_Returns : (m : Action Done) (k : Action Done) → Returns m → Returns k → Returns (m >> k)
unfolding Returns
then_Returns m k hm hk w = ap (λ x. x.0) (then_returned m (λ _. k) w (hm w)) ∙ hk (m w).1

when_Returns : (b : Bool) (m : Action Done) → Returns m → Returns (if b then m else pure tt)
unfolding Returns
when_Returns true m h = h
when_Returns false m h = λ w. refl

module _ (d : Draft) (job message now : ℕ) where
  drop_created-Returns : (created : Option ℕ) → Returns (drop_created d job message now created)
  unfolding drop_created Returns
  drop_created-Returns none = λ w. refl
  drop_created-Returns (some t) =
      when_Returns (differs t d.thread_id) (quietly (delete_thread_if_unreferenced t))
        (quietly-Returns (delete_thread_if_unreferenced t))

  undo_rows-Returns : (created : Option ℕ) → Returns (undo_rows d job message now created)
  unfolding undo_rows
  undo_rows-Returns created =
      let restore = quietly (restore_draft_send_state d.id d.status d.thread_id) in
      let drop = drop_created d job message now created in
      then_Returns (quietly (delete_job_row job))
        (quietly (delete_message_row message) >> (restore >> drop))
        (quietly-Returns (delete_job_row job))
        (then_Returns (quietly (delete_message_row message)) (restore >> drop)
          (quietly-Returns (delete_message_row message))
          (then_Returns restore drop
            (quietly-Returns (restore_draft_send_state d.id d.status d.thread_id))
            (drop_created-Returns created)))

module _ (u : ℕ) (old : ℕ → Option BillingAccount) where
  -- A run that throws has left the tenant's credits as they were.
  abbrev pub Restored : {A : Type 0} → Result A × World → Type 0
  Restored (ok a, v) = Unit
  Restored (err e, v) = SameCredits (old u) (v.bank.accounts u)

  abbrev pub Restores : {A : Type 0} → Action A → Type 0
  Restores m = (w : World) → Quiet old w → Restored (m w)

  Restored-Quiet : {A : Type 0} (x : Result A × World) → Quiet old x.1 → Restored x
  Restored-Quiet (ok a, v) h = tt
  Restored-Quiet (err e, v) h =
      subst (λ f. SameCredits (old u) (f u)) (sym h.1) (SameCredits-refl (old u))

  pub Restores-Quiet : {A : Type 0} (m : Action A) → IsQuiet old m → Restores m
  Restores-Quiet m h w q = Restored-Quiet (m w) (h w q)

  pub then_Restores :
      {A B : Type 0} (m : Action A) (f : A → Action B)
      → IsQuiet old m
      → ((a : A) → Restores (f a))
      → Restores (m >>= f)
  then_Restores {A} {B} m f hm hf w q = go (m w) (hm w q)
    where
      go : (x : Result A × World) → Quiet old x.1 → Restored (continue f x)
      go (ok a, v) h = hf a v h
      go (err e, v) h = Restored-Quiet {A = A} (err e, v) h

  module _ (d : Draft) (job message now : ℕ) where
    pub undo_nothing :
        (created : Option ℕ) (e : Failure) → Restores (undo d job message now created (pos 0) e)
    unfolding undo release_amount
    undo_nothing created e =
        then_Restores (undo_rows d job message now created) (λ _. throw e)
          (undo_rows-IsQuiet old d job message now created)
          (λ _. Restores-Quiet {A = ℕ} (throw e) (λ w h. h))

    release-Returns : (amount : ℤ) → Returns (release_amount d job message now amount)
    unfolding release_amount
    release-Returns amount =
        when_Returns (ltb_ℤ (pos 0) amount)
          (quietly (release_tenant_reserved_credits d.tenant_id amount >>= λ _. pure tt))
          (quietly-Returns (release_tenant_reserved_credits d.tenant_id amount >>= λ _. pure tt))

    undo_eq :
        (created : Option ℕ) (amount : ℤ) (e : Failure) (w : World)
        → undo d job message now created amount e w ≡ (
          err e,
          (release_amount d job message now amount (undo_rows d job message now created w).1).1,
        )
    unfolding undo Returns
    undo_eq created amount e w =
        let rows = undo_rows d job message now created in
        let release = release_amount d job message now amount in
        then_returned rows (λ _. release >> throw e) w
          (undo_rows-Returns d job message now created w)
        ∙ then_returned release (λ _. throw e) (rows w).1 (release-Returns amount (rows w).1)

    row_some :
        (o n : Option BillingAccount)
        → HasReserve o
        → ShiftedRow o n
        → (a : BillingAccount) × (b : BillingAccount) × (o ≡ some a)
          × (n ≡ some b)
          × (pos 0 ≤ℤ a.reserved_credits)
          × ShiftedRow (some a) (some b)
    row_some (some a) (some b) h s = (a, b, refl, refl, h, s)
    row_some none n h s = elim s [ ]
    row_some (some a) none h s = elim s [ ]

    released-Same :
        (new : ℕ → Option BillingAccount) (w : World)
        → HasReserve (old u)
        → Quiet new w
        → Shifted d.tenant_id u old new
        → SameCredits (old u) ((release_amount d job message now (pos 1) w).1.bank.accounts u)
    released-Same new w p h (inr (ne, same)) =
        subst (SameCredits (old u))
          (sym (release_other d job message now u w ne ∙ ap (λ f. f u) h.1 ∙ same))
          (SameCredits-refl (old u))
    released-Same new w p h (inl (same, row)) =
        let (a, b, ea, eb, q, s) = row_some (old u) (new u) p row in
        subst
          (λ n.
            SameCredits (old n) ((release_amount d job message now (pos 1) w).1.bank.accounts n))
          (sym same)
          (release_same d job message now old new a b w h (subst (λ n. old n ≡ some a) same ea)
            (subst (λ n. new n ≡ some b) same eb) q s)

    undo_one :
        (new : ℕ → Option BillingAccount) (created : Option ℕ) (e : Failure) (w : World)
        → HasReserve (old u)
        → Quiet new w
        → Shifted d.tenant_id u old new
        → Restored (undo d job message now created (pos 1) e w)
    undo_one new created e w p h s =
        subst (λ x. Restored x) (sym (undo_eq created (pos 1) e w))
          (released-Same new (undo_rows d job message now created w).1 p
            (undo_rows-IsQuiet new d job message now created w h) s)

    pub try_then-Restored :
        {A : Type 0} (new : ℕ → Option BillingAccount) (m : Action A) (h : Failure → Action ℕ)
        (k : A → Action ℕ) (w : World)
        → IsQuiet new m
        → Quiet new w
        → ((e : Failure) (v : World) → Quiet new v → Restored (h e v))
        → ((a : A) (v : World) → Quiet new v → Restored (k a v))
        → Restored (try_then m h k w)
    try_then-Restored {A} new m h k w hm q hh hk = go (m w) (hm w q)
      where
        go : (x : Result A × World) → Quiet new x.1 → Restored (either h k x)
        go (ok a, v) r = hk a v r
        go (err e, v) r = hh e v r

    pub with_one-Restored :
        (new : ℕ → Option BillingAccount) (created : Option ℕ) (w : World)
        → HasReserve (old u)
        → Quiet new w
        → Shifted d.tenant_id u old new
        → Restored (with_credits_reserved d job message now created (pos 1) w)
    unfolding with_credits_reserved
    with_one-Restored new created w p q s =
        try_then-Restored new (store_and_send d job message now created)
          (undo d job message now created (pos 1)) (λ _. pure job) w
          (store_and_send-IsQuiet new d job message now created) q
          (λ e v r. undo_one new created e v p r s) (λ _ v r. tt)

    pub with_none-Restored :
        (created : Option ℕ) → Restores (with_credits_reserved d job message now created (pos 0))
    unfolding with_credits_reserved
    with_none-Restored created w q =
        try_then-Restored old (store_and_send d job message now created)
          (undo d job message now created (pos 0)) (λ _. pure job) w
          (store_and_send-IsQuiet old d job message now created) q (undo_nothing created)
          (λ _ v r. tt)

    pub reserve-ReservedFor :
        (q : OutboundCreditRequirement) (w : World)
        → Quiet old w
        → IsPriced q
        → ReservedFor d job message now u old (reserve_for d q w)
    reserve-ReservedFor q w h priced = elim (Bool-cases (u == d.tenant_id)) [
      | inl same ↦
          let e : u ≡ d.tenant_id = ground arith in
          subst (λ n. ReservedFor d job message now n old (reserve_for d q w)) (sym e)
            (reserve_same d job message now old q w h priced)
      | inr other ↦ reserve_other d job message now u old q w (ground arith) h priced
    ]
