-- ===== src/Payments/Frame.antt =====
-- What of a settlement leaves the ledger and the receipts alone: the look-ups, and what it writes on
-- accounts and policies.
use mailagents_email_runtime.Base.{ℕ, ◌≡◌, Option, none, some, List, [], ◌∷◌, arith}
use mailagents_email_runtime.Text.{Text}
use mailagents_email_runtime.World.{
  World, LedgerEntry, AgentPolicy, SendPolicy, ◌>>◌, Keeps, bind-Keeps, pure,
}
use mailagents_email_runtime.Json.{Json}
use mailagents_email_runtime.World.Receipts.{PaymentReceipt}
use mailagents_email_runtime.Billing.{
  Profile, ledger, ensure_tenant_billing_account, update_tenant_billing_account_profile,
  reconcile_tenant_available_credits, get_typed_credit_ledger_entry_by_payment_receipt_id,
}
use mailagents_email_runtime.Policy.{
  ensure_tenant_send_policy, upsert_tenant_send_policy, list_agents, upsert_agent_policy,
  relax_policy, relax_agents, relax_tenant_default_agent_recipient_policies_for_external_send,
  get_agent_policy,
}
use mailagents_email_runtime.Payments.Exchange.{
  Facilitator, normalize_verification_response, normalize_settlement_response,
}
use mailagents_email_runtime.Payments.Answers.{verify_x402_payment, settle_x402_payment}
use mailagents_email_runtime.Payments.Receipts.{
  receipts, get_tenant_payment_receipt_by_id, get_typed_tenant_payment_receipt_by_id,
}

-- The facilitator writes no table of the runtime.
pub record IsRemote (f : Facilitator) : Type 0 where
  pub verify_writes_nothing :
      (payload requirements : Json) (key : ℕ) (w : World)
      → (f.post_verify payload requirements key w).1
        ≡ record w { faults = (f.post_verify payload requirements key w).1.faults }
  pub settle_writes_nothing :
      (payload requirements : Json) (key : ℕ) (w : World)
      → (f.post_settle payload requirements key w).1
        ≡ record w { faults = (f.post_settle payload requirements key w).1.faults }

module _ (Q : List LedgerEntry → List PaymentReceipt → Type 0) where
  -- a predicate of the two tables alone
  abbrev pub OfTables : World → Type 0
  OfTables w = Q (ledger w) (receipts w)

  pub get_receipt-Keeps : (t id : ℕ) → Keeps OfTables (get_tenant_payment_receipt_by_id t id)
  unfolding get_tenant_payment_receipt_by_id
  get_receipt-Keeps t id w h = ground arith

  pub get_typed_receipt-Keeps :
      (t id : ℕ) → Keeps OfTables (get_typed_tenant_payment_receipt_by_id t id)
  unfolding get_typed_tenant_payment_receipt_by_id
  get_typed_receipt-Keeps t id w h = ground arith

  pub get_entry-Keeps :
      (t id : ℕ) → Keeps OfTables (get_typed_credit_ledger_entry_by_payment_receipt_id t id)
  unfolding get_typed_credit_ledger_entry_by_payment_receipt_id
  get_entry-Keeps t id w h = ground arith

  pub reconcile-Keeps : (t : ℕ) → Keeps OfTables (reconcile_tenant_available_credits t)
  unfolding reconcile_tenant_available_credits
  reconcile-Keeps t w h = ground arith

  pub profile-Keeps :
      (t : ℕ) (p : Profile) → Keeps OfTables (update_tenant_billing_account_profile t p)
  unfolding update_tenant_billing_account_profile
  profile-Keeps t p w h = ground arith

  pub ensure_account-Keeps : (t : ℕ) → Keeps OfTables (ensure_tenant_billing_account t)
  unfolding ensure_tenant_billing_account
  ensure_account-Keeps t w h = ground arith

  pub ensure_policy-Keeps : (t : ℕ) → Keeps OfTables (ensure_tenant_send_policy t)
  unfolding ensure_tenant_send_policy
  ensure_policy-Keeps t w h = ground arith

  pub upsert_policy-Keeps :
      (t : ℕ) (p : SendPolicy) → Keeps OfTables (upsert_tenant_send_policy t p)
  unfolding upsert_tenant_send_policy
  upsert_policy-Keeps t p w h = ground arith

  pub list_agents-Keeps : (t : ℕ) → Keeps OfTables (list_agents t)
  unfolding list_agents
  list_agents-Keeps t w h = ground arith

  pub relax_policy-Keeps :
      (l : List Text) (a : ℕ) (p : Option AgentPolicy) → Keeps OfTables (relax_policy l a p)
  unfolding relax_policy upsert_agent_policy
  relax_policy-Keeps l a none w h = h
  relax_policy-Keeps l a (some p) w h = ground arith

  pub get_agent_policy-Keeps : (a : ℕ) → Keeps OfTables (get_agent_policy a)
  unfolding get_agent_policy
  get_agent_policy-Keeps a w h = ground arith

  pub relax_agents-Keeps :
      (l : List Text) (agents : List ℕ) → Keeps OfTables (relax_agents l agents)
  unfolding relax_agents
  relax_agents-Keeps l [] = λ w h. h
  relax_agents-Keeps l (a ∷ agents) =
      bind-Keeps OfTables (get_agent_policy a) (λ p. relax_policy l a p >> relax_agents l agents)
        (get_agent_policy-Keeps a)
        (λ p.
          bind-Keeps OfTables (relax_policy l a p) (λ _. relax_agents l agents)
            (relax_policy-Keeps l a p) (λ _. relax_agents-Keeps l agents))

  pub relax-Keeps :
      (t : ℕ) (l : List Text)
      → Keeps OfTables (relax_tenant_default_agent_recipient_policies_for_external_send t l)
  unfolding relax_tenant_default_agent_recipient_policies_for_external_send
  relax-Keeps t l =
      bind-Keeps OfTables (list_agents t) (relax_agents l) (list_agents-Keeps t)
        (relax_agents-Keeps l)

  module _ (f : Facilitator) (remote : IsRemote f) (payload requirements : Json) (key : ℕ) where
    pub verify-Keeps : Keeps OfTables (verify_x402_payment f payload requirements key)
    unfolding verify_x402_payment
    verify-Keeps =
        bind-Keeps OfTables (f.post_verify payload requirements key)
          (λ a. pure (record {
            status = a.status;
            response = normalize_verification_response requirements a;
          }))
          (λ w h. rw (remote.verify_writes_nothing payload requirements key w) h) (λ a w h. h)

    pub settle-Keeps : Keeps OfTables (settle_x402_payment f payload requirements key)
    unfolding settle_x402_payment
    settle-Keeps =
        bind-Keeps OfTables (f.post_settle payload requirements key)
          (λ a.
            pure (record {
              status = a.status;
              response = normalize_settlement_response requirements a;
            }))
          (λ w h. rw (remote.settle_writes_nothing payload requirements key w) h) (λ a w h. h)
