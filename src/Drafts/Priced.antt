-- ===== src/Drafts/Priced.antt =====
-- What the first part of an enqueueing computes: no account is touched, and the requirement is of one
-- credit where credits are required.
use mailagents_email_runtime.Base.{ℕ, ◌≡◌, ◌∙◌, ap, ◌⊎◌, inl, inr, false, Option, none, some, arith}
use mailagents_email_runtime.Base.Int.{pos}
use mailagents_email_runtime.Json.{Fields}
use mailagents_email_runtime.World.{
  World, Draft, BillingAccount, Action, Result, ok, err, ◌>>=◌, pure, require_row, continue,
}
use mailagents_email_runtime.Routing.{
  Recipients, RoutedOutboundRecipients, route_outbound_recipients,
}
use mailagents_email_runtime.Routing.Laws.{Routes, route-Routes}
use mailagents_email_runtime.Routing.Calm.{route-IsCalm}
use mailagents_email_runtime.Credits.{
  Origin, OutboundCreditRequirement, requirement_for, get_outbound_credit_requirement,
}
use mailagents_email_runtime.Outbound.{get_mailbox_by_id}
use mailagents_email_runtime.Guards.{parse_draft_recipients}
use mailagents_email_runtime.Guards.Reserve.{requirement_cases}
use mailagents_email_runtime.Drafts.{
  load_payload, check_sender, origin_of, Prepared, prepare, prepare_payload, prepare_recipients,
  prepare_routed, prepare_required,
}
use mailagents_email_runtime.Drafts.Quiet.{Quiet, IsQuiet}

-- One credit, where credits are required.
abbrev pub IsPriced : OutboundCreditRequirement → Type 0
IsPriced q = (q.requires_credits ≡ false) ⊎ (q.credits_required ≡ pos 1)

abbrev pub OnOk : {A : Type 0} → (A → Type 0) → Result A × World → Type 0
OnOk Q (ok a, w) = Q a
OnOk Q (err _, w) = Unit

-- Where `m` starts quiet it ends quiet, and what it returns satisfies `Q`.
abbrev pub Yields : {A : Type 0} → (ℕ → Option BillingAccount) → (A → Type 0) → Action A → Type 0
Yields accounts Q m = (w : World) → Quiet accounts w → Quiet accounts (m w).1 × OnOk Q (m w)

module _ (accounts : ℕ → Option BillingAccount) where
  bind-Yields :
      {A B : Type 0} (Q : A → Type 0) (R : B → Type 0) (m : Action A) (f : A → Action B)
      → Yields accounts Q m
      → ((a : A) → Q a → Yields accounts R (f a))
      → Yields accounts R (m >>= f)
  bind-Yields {A} {B} Q R m f hm hf w h = go (m w) (hm w h)
    where
      go :
          (x : Result A × World)
          → Quiet accounts x.1 × OnOk Q x
          → Quiet accounts (continue f x).1 × OnOk R (continue f x)
      go (ok a, v) (quiet, q) = hf a q v quiet
      go (err e, v) (quiet, q) = (quiet, tt)

  Yields-of : {A : Type 0} (m : Action A) → IsQuiet accounts m → Yields accounts (λ _. Unit) m
  Yields-of {A} m h w q = (h w q, trivial (m w))
    where
      trivial : (x : Result A × World) → OnOk (λ _. Unit) x
      trivial (ok a, v) = tt
      trivial (err e, v) = tt

  route-bank : (r : Recipients) (w : World) → (route_outbound_recipients r w).1.bank ≡ w.bank
  route-bank r w = go (route_outbound_recipients r w) (route-Routes r w)
    where
      go : (x : Result RoutedOutboundRecipients × World) → Routes w r x → x.1.bank ≡ w.bank
      go (ok routed, v) h = ap (λ u. u.bank) h.1
      go (err e, v) h = ap (λ u. u.bank) h

  route-IsQuiet : (r : Recipients) → IsQuiet accounts (route_outbound_recipients r)
  route-IsQuiet r w h = (route-IsCalm r w h.0, ap (λ b. b.accounts) (route-bank r w) ∙ h.1)

  priced : (o : Origin) (routed : RoutedOutboundRecipients) → IsPriced (requirement_for o routed)
  priced o routed = elim (requirement_cases o routed) [
    | inl (why, free) ↦ inl free
    | inr (charged, external, paid, one) ↦ inr one
  ]

  requirement-Yields :
      (r : Recipients) (o : Origin) → Yields accounts IsPriced (get_outbound_credit_requirement r o)
  unfolding get_outbound_credit_requirement
  requirement-Yields r o =
      bind-Yields (λ _. Unit) IsPriced (route_outbound_recipients r)
        (λ routed. pure (requirement_for o routed))
        (Yields-of (route_outbound_recipients r) (route-IsQuiet r))
        (λ routed _ w h. (h, priced o routed))

  -- What is prepared is priced.
  abbrev pub AsPriced : Prepared → Type 0
  AsPriced p = IsPriced p.requirement

  required-Yields :
      (d : Draft) (payload : Fields) (q : OutboundCreditRequirement)
      → IsPriced q
      → Yields accounts AsPriced (prepare_required d payload q)
  unfolding prepare_required get_mailbox_by_id check_sender
  required-Yields d payload q h w quiet = grind arith

  routed-Yields :
      (d : Draft) (payload : Fields) (r : Recipients) (q : OutboundCreditRequirement)
      → IsPriced q
      → Yields accounts AsPriced (prepare_routed d payload r q)
  unfolding prepare_routed
  routed-Yields d payload r q h =
      bind-Yields (λ _. Unit) AsPriced (route_outbound_recipients r)
        (λ _. prepare_required d payload q)
        (Yields-of (route_outbound_recipients r) (route-IsQuiet r))
        (λ _ _. required-Yields d payload q h)

  recipients-Yields :
      (d : Draft) (payload : Fields) (r : Recipients)
      → Yields accounts AsPriced (prepare_recipients d payload r)
  unfolding prepare_recipients
  recipients-Yields d payload r =
      bind-Yields IsPriced AsPriced (get_outbound_credit_requirement r (origin_of d))
        (prepare_routed d payload r) (requirement-Yields r (origin_of d))
        (routed-Yields d payload r)

  payload-Yields :
      (d : Draft) (payload : Fields) → Yields accounts AsPriced (prepare_payload d payload)
  unfolding prepare_payload
  payload-Yields d payload = go (parse_draft_recipients payload)
    where
      go :
          (o : Option Recipients)
          → Yields accounts AsPriced (require_row o >>= prepare_recipients d payload)
      go none = λ w h. (h, tt)
      go (some r) = recipients-Yields d payload r

  load-IsQuiet : (key : ℕ) → IsQuiet accounts (load_payload key)
  unfolding load_payload
  load-IsQuiet key w h = ground arith

  pub prepare-Yields : (d : Draft) → Yields accounts AsPriced (prepare d)
  unfolding prepare
  prepare-Yields d =
      bind-Yields (λ _. Unit) AsPriced (load_payload d.draft_r2_key) (prepare_payload d)
        (Yields-of (load_payload d.draft_r2_key) (load-IsQuiet d.draft_r2_key))
        (λ payload _. payload-Yields d payload)
