-- ===== src/Guards/Reserve.antt =====
-- The credits that `reserveDraftSendCredits` sets aside for a draft.
use mailagents_email_runtime.Base.{
  ℕ, ◌≡◌, refl, sym, ◌∙◌, subst, ap, ◌⊎◌, inl, inr, ◌<◌, true, false, Option, none, some, arith,
  Bool-cases, ltb, if◌then◌else◌,
}
use mailagents_email_runtime.Base.Int.{ℤ, pos, leb_ℤ}
use mailagents_email_runtime.World.{
  continue, World, Failure, BillingAccount, Action, Done, Result, ok, err, ◌>>=◌, bind-eq-ok,
  bind_assoc, pure,
}
use mailagents_email_runtime.Json.{Json}
use mailagents_email_runtime.Routing.{
  Recipients, RoutedOutboundRecipients, route_outbound_recipients,
}
use mailagents_email_runtime.Routing.Laws.{routed_in, Routes, route-Routes}
use mailagents_email_runtime.Credits.{
  OutboundCreditRequirement, checked_account, unchecked, Origin, is_credit_exempt_created_via,
  requirement_for, get_outbound_credit_requirement, check_outbound_credit_requirement,
  check_requirement,
}
use mailagents_email_runtime.Billing.{
  ensure_tenant_billing_account, accounts, reserve_tenant_available_credits,
}
use mailagents_email_runtime.Billing.Laws.{Moved, Reserves, reserve-Reserves}
use mailagents_email_runtime.Guards.Payload.{fields_of, parse_draft_recipients}
use mailagents_email_runtime.Guards.Check.{
  reserve_checked, require_reserved, read_draft_payload, read_draft_recipients,
  reserve_draft_send_credits,
}

-- Nothing that a reservation reads has changed.
abbrev Same : World → World → Type 0
Same w v = (v.mail ≡ w.mail) × (v.bank ≡ w.bank) × (v.now ≡ w.now)

Reads : ℕ → World → Result Recipients × World → Type 0
Reads key w (ok r, v) =
    ((json : Json) × (w.mail.objects key ≡ some json)
      × (parse_draft_recipients (fields_of json) ≡ some r))
    × Same w v
Reads key w (err _, v) = Unit

read-Reads : (key : ℕ) (w : World) → Reads key w (read_draft_recipients key w)
unfolding read_draft_recipients read_draft_payload Reads
read-Reads key w = grind arith

-- the account that the check leaves: the one of before, or a new one without credits
abbrev Kept : ℕ → World → World → BillingAccount → Type 0
Kept t w v a =
    (accounts v t ≡ some a)
    × ((accounts w t ≡ some a) ⊎ (a.available_credits ≡ pos 0))
    × (v.now ≡ w.now)

KeptBy : ℕ → World → Result BillingAccount × World → Type 0
KeptBy t w (ok a, v) = Kept t w v a
KeptBy t w (err _, v) = Unit

ensure-Kept : (t : ℕ) (w : World) → KeptBy t w (ensure_tenant_billing_account t w)
unfolding ensure_tenant_billing_account KeptBy
ensure-Kept t w = ground arith

err-ne-ok : {e : Failure} {v w : World} → ◌≡◌ {A = Result Done × World} (err e, v) (ok tt, w) → ⊥
err-ne-ok h = cc

reserved-Moved :
    (t : ℕ) (c : ℤ) (w v : World)
    → (reserve_tenant_available_credits t c >>= require_reserved) w ≡ (ok tt, v)
    → Moved c w.now (accounts w t) (accounts v t)
reserved-Moved t c w v e =
    let (row, u, moved, returned) =
      bind-eq-ok (reserve_tenant_available_credits t c) require_reserved w e in
    let law : Reserves t c w (ok row, u) = rw moved at (reserve-Reserves t c w) in
    go row u returned law
  where
    go :
        (row : Option BillingAccount) (u : World)
        → require_reserved row u ≡ (ok tt, v)
        → Reserves t c w (ok row, u)
        → Moved c w.now (accounts w t) (accounts v t)
    go none u h law = cc
    go (some b) u h law =
        subst (λ x. Moved c w.now (accounts w t) (accounts x t)) (ap (λ x. x.1) h) law.0

-- An account that was there, or a new one that covers nothing.
Kept-Moved :
    (t now : ℕ) (w u v : World) (a : BillingAccount)
    → Kept t w u a
    → Moved (pos 1) now (accounts u t) (accounts v t)
    → Moved (pos 1) now (accounts w t) (accounts v t)
Kept-Moved t now w u v a kept moved = ground arith

pay : ℕ → OutboundCreditRequirement → Action Done
pay t q = check_requirement t q >>= reserve_checked t

pay_nothing :
    (t : ℕ) (q : OutboundCreditRequirement) (w v : World)
    → q.requires_credits ≡ false
    → pay t q w ≡ (ok tt, v)
    → v.bank ≡ w.bank
unfolding pay check_requirement reserve_checked
pay_nothing t q w v free e = ap (λ x. x.1.bank) (sym (rw free at e))

answered-Moved :
    (t : ℕ) (q : OutboundCreditRequirement) (a : BillingAccount) (u v : World)
    → q.requires_credits ≡ true
    → reserve_checked t (checked_account q a) u ≡ (ok tt, v)
    → Moved q.credits_required u.now (accounts u t) (accounts v t)
unfolding reserve_checked
answered-Moved t q a u v paid e = elim (Bool-cases (leb_ℤ q.credits_required a.available_credits)) [
  | inl covers ↦ reserved-Moved t q.credits_required u v (rw (covers, paid) at e)
  | inr lacks ↦ absurd (err-ne-ok (rw lacks at e))
]

pay_assoc :
    (t : ℕ) (q : OutboundCreditRequirement) (w : World)
    → q.requires_credits ≡ true
    → pay t q w
      ≡ (ensure_tenant_billing_account t >>= λ a. reserve_checked t (checked_account q a)) w
unfolding pay check_requirement
pay_assoc t q w paid =
    let checks = ensure_tenant_billing_account t >>= λ a. pure (checked_account q a) in
    ap (λ b. continue (reserve_checked t) ((if b then checks else pure (unchecked q)) w)) paid
    ∙ bind_assoc (ensure_tenant_billing_account t) (λ a. pure (checked_account q a))
        (reserve_checked t) w

pay-Moved :
    (t : ℕ) (q : OutboundCreditRequirement) (w v : World)
    → q.requires_credits ≡ true
    → q.credits_required ≡ pos 1
    → pay t q w ≡ (ok tt, v)
    → Moved (pos 1) w.now (accounts w t) (accounts v t)
unfolding KeptBy
pay-Moved t q w v paid one e =
    let (a, u, ensured, answered) =
      bind-eq-ok (ensure_tenant_billing_account t) (λ a. reserve_checked t (checked_account q a)) w
        (sym (pay_assoc t q w paid) ∙ e) in
    let kept : Kept t w u a = rw ensured at (ensure-Kept t w) in
    let moved : Moved q.credits_required u.now (accounts u t) (accounts v t) =
      answered-Moved t q a u v paid answered in
    Kept-Moved t w.now w u v a kept (
      subst (λ c. Moved c w.now (accounts u t) (accounts v t)) one
        (subst (λ n. Moved q.credits_required n (accounts u t) (accounts v t)) kept.2 moved))

-- What the send costs: nothing where it is exempt or has no external recipient, and otherwise one
-- credit, which has moved from the available to the reserved ones.
abbrev pub Charged : ℕ → Origin → RoutedOutboundRecipients → World → World → Type 0
Charged t o routed w v =
    (((is_credit_exempt_created_via o.created_via ≡ true) ⊎ (routed.external_recipient_count ≡ 0))
      × (v.bank ≡ w.bank))
    ⊎ ((is_credit_exempt_created_via o.created_via ≡ false)
        × (0 < routed.external_recipient_count)
        × Moved (pos 1) w.now (accounts w t) (accounts v t))

pub requirement_cases :
    (o : Origin) (routed : RoutedOutboundRecipients)
    → (((is_credit_exempt_created_via o.created_via ≡ true) ⊎ (routed.external_recipient_count ≡ 0))
        × ((requirement_for o routed).requires_credits ≡ false))
      ⊎ ((is_credit_exempt_created_via o.created_via ≡ false)
          × (0 < routed.external_recipient_count)
          × ((requirement_for o routed).requires_credits ≡ true)
          × ((requirement_for o routed).credits_required ≡ pos 1))
unfolding requirement_for
requirement_cases o routed = elim (Bool-cases (is_credit_exempt_created_via o.created_via)) [
  | inl exempt ↦ inl (inl exempt, rw exempt refl)
  | inr charged ↦ elim (Bool-cases (ltb 0 routed.external_recipient_count)) [
    | inl some_external ↦
        inr (charged, ground arith, rw (charged, some_external) refl, rw charged refl)
    | inr no_external ↦ inl (inr (ground arith), rw (charged, no_external) refl)
  ]
]

pay-Charged :
    (t : ℕ) (o : Origin) (routed : RoutedOutboundRecipients) (w v : World)
    → pay t (requirement_for o routed) w ≡ (ok tt, v)
    → Charged t o routed w v
pay-Charged t o routed w v e = elim (requirement_cases o routed) [
  | inl (why, free) ↦ inl (why, pay_nothing t (requirement_for o routed) w v free e)
  | inr (charged, external, paid, one) ↦
      inr (charged, external, pay-Moved t (requirement_for o routed) w v paid one e)
]

-- What has happened where the reservation for the draft at `key` returns.
abbrev pub Reserved : ℕ → ℕ → Origin → World → Result Done × World → Type 0
Reserved t key o w (ok _, v) =
    (json : Json) × (r : Recipients) × (w.mail.objects key ≡ some json)
    × (parse_draft_recipients (fields_of json) ≡ some r)
    × Charged t o (routed_in w.mail r) w v
Reserved t key o w (err _, v) = Unit

reserve-steps :
    (t : ℕ) (r : Recipients) (o : Origin) (w v : World)
    → (check_outbound_credit_requirement t r o >>= reserve_checked t) w ≡ (ok tt, v)
    → (routed : RoutedOutboundRecipients) × (u : World) × (route_outbound_recipients r w
        ≡ (ok routed, u))
      × (pay t (requirement_for o routed) u ≡ (ok tt, v))
unfolding check_outbound_credit_requirement get_outbound_credit_requirement pay
reserve-steps t r o w v e =
    bind-eq-ok (route_outbound_recipients r)
      (λ routed. check_requirement t (requirement_for o routed) >>= reserve_checked t) w
      (sym (
          ap (continue (reserve_checked t)) (
            bind_assoc (route_outbound_recipients r) (λ routed. pure (requirement_for o routed))
              (check_requirement t) w)
          ∙ bind_assoc (route_outbound_recipients r)
              (λ routed. check_requirement t (requirement_for o routed)) (reserve_checked t) w)
        ∙ e)

same_Charged :
    (t : ℕ) (o : Origin) (routed : RoutedOutboundRecipients) (w u v : World)
    → u.bank ≡ w.bank
    → u.now ≡ w.now
    → Charged t o routed u v
    → Charged t o routed w v
same_Charged t o routed w u v bank now (inl (why, kept)) = inl (why, kept ∙ bank)
same_Charged t o routed w u v bank now (inr (charged, external, moved)) = inr (
  charged,
  external,
  subst (λ b. Moved (pos 1) w.now (b.accounts t) (accounts v t)) bank
      (subst (λ n. Moved (pos 1) n (accounts u t) (accounts v t)) now moved),
)

reserve_draft_returns :
    (t key : ℕ) (o : Origin) (w v : World)
    → reserve_draft_send_credits t key o w ≡ (ok tt, v)
    → Reserved t key o w (ok tt, v)
unfolding reserve_draft_send_credits Reads
reserve_draft_returns t key o w v e =
    let (r, u, read, later) =
      bind-eq-ok (read_draft_recipients key)
        (λ r. check_outbound_credit_requirement t r o >>= reserve_checked t) w e in
    let seen : Reads key w (ok r, u) = rw read at (read-Reads key w) in
    let (routed, u₁, reached, paid) = reserve-steps t r o u v later in
    let split : Routes u r (ok routed, u₁) = rw reached at (route-Routes r u) in
    (
      seen.0.0,
      r,
      seen.0.1,
      seen.0.2,
      subst (λ x. Charged t o x w v) (split.0 ∙ ap (λ m. routed_in m r) seen.1.0)
          (same_Charged t o routed w u₁ v (ap (λ x. x.bank) split.1 ∙ seen.1.1)
            (ap (λ x. x.now) split.1 ∙ seen.1.2) (pay-Charged t o routed u₁ v paid)),
    )

-- Where credits are reserved for a draft, its stored payload has recipients; one credit has moved
-- from the available to the reserved ones, which held at least one, if a recipient is external and
-- the draft was not made by the exempt channel, and else the bank is as it was.
pub reserve_draft-Reserved :
    (t key : ℕ) (o : Origin) (w : World) → Reserved t key o w (reserve_draft_send_credits t key o w)
reserve_draft-Reserved t key o w = go (reserve_draft_send_credits t key o w) refl
  where
    go : (x : Result Done × World) → reserve_draft_send_credits t key o w ≡ x → Reserved t key o w x
    go (ok tt, v) e = reserve_draft_returns t key o w v e
    go (err _, v) e = tt
