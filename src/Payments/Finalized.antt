-- ===== src/Payments/Finalized.antt =====
-- A settlement and its retry keep a predicate of the ledger and the receipts that the updates of
-- the receipt and the append of its entry keep.
use mailagents_email_runtime.Base.{ℕ, ◌≡◌, ap, not, ◌&&◌, Option, none, some, List, is_some}
use mailagents_email_runtime.Base.Int.{ℤ, leb_ℤ, pos}
use mailagents_email_runtime.Text.{Text}
use mailagents_email_runtime.World.{
  World, LedgerEntry, Action, pure, throw_if, route_request, Keeps, bind-Keeps,
}
use mailagents_email_runtime.World.Receipts.{
  PaymentReceipt, PaymentReceiptType, PaymentReceiptStatus, settled,
}
use mailagents_email_runtime.Billing.{
  TypedEntry, NewEntry, get_typed_credit_ledger_entry_by_payment_receipt_id,
  reconcile_tenant_available_credits, ensure_tenant_billing_account,
  update_tenant_billing_account_profile, append_topup_settlement_ledger_entry,
  append_upgrade_credit_grant_ledger_entry, is_topup_settlement_ledger_entry,
}
use mailagents_email_runtime.LedgerMetadata.{Settlement}
use mailagents_email_runtime.Policy.{
  TenantSendPolicy, ensure_tenant_send_policy, upsert_tenant_send_policy,
  relax_tenant_default_agent_recipient_policies_for_external_send,
}
use mailagents_email_runtime.Payments.Metadata.{ReceiptMetadata, Purchase, topup, upgrade}
use mailagents_email_runtime.Payments.Stored.{Confirmation}
use mailagents_email_runtime.Payments.Exchange.{Facilitator}
use mailagents_email_runtime.Payments.Receipts.{TypedReceipt}
use mailagents_email_runtime.Payments.Confirm.{Outcome}
use mailagents_email_runtime.Payments.Settle.{
  is_settled, settlement_of, confirmation, settled_update, mark_settled, mark_unsettled,
  topup_answer, append_topup, settle_new_topup, settle_topup,
}
use mailagents_email_runtime.Payments.Finalize.{
  append_upgrade, grant_entry, approve_tenant, needs_refresh, refresh, after_grant, settle_upgrade,
  answer_settled, settle_checked_upgrade, finalize_upgrade, finalize_by_type, finalize_found,
  finalize_receipt, is_foreign, normalized_upgrade_metadata,
}
use mailagents_email_runtime.Payments.Frame.{
  OfTables, get_entry-Keeps, reconcile-Keeps, profile-Keeps, ensure_account-Keeps,
  ensure_policy-Keeps, upsert_policy-Keeps, relax-Keeps,
}
use mailagents_email_runtime.Payments.Rules.{
  Ensures, if-Ensures, Keeps-of_Ensures, throw_if-Keeps, if-Keeps,
}
use mailagents_email_runtime.Payments.Confirmed.{Mine, KeepsUpdates}

-- The append of an entry of the receipt keeps the predicate, whatever the entry is otherwise.
pub record KeepsAppends (Q : List LedgerEntry → List PaymentReceipt → Type 0) (t id : ℕ)
    : Type 0 where
  pub topups :
      (n : NewEntry) (s : Settlement)
      → n.tenant_id ≡ t
      → n.payment_receipt_id ≡ some id
      → Keeps (OfTables Q) (append_topup_settlement_ledger_entry n s)
  pub upgrades :
      (n : NewEntry) (s : Settlement)
      → n.tenant_id ≡ t
      → n.payment_receipt_id ≡ some id
      → Keeps (OfTables Q) (append_upgrade_credit_grant_ledger_entry n s)

module _ (Q : List LedgerEntry → List PaymentReceipt → Type 0) (t id : ℕ)
    (Allowed : PaymentReceiptStatus → Type 0) (updates : KeepsUpdates Q t id Allowed)
    (appends : KeepsAppends Q t id) (f : Facilitator) (outcome : Option Outcome)
    (requested : Option Text) (r : TypedReceipt) (mine : Mine t id r) where
  abbrev P : World → Type 0
  P = OfTables Q

  abbrev pub Any : {A : Type 0} → A → Type 0
  Any _ = Unit

  pub mark_settled-Ensures :
      (m : ReceiptMetadata) (c : Confirmation)
      → Allowed settled
      → Ensures P (Mine t id) (mark_settled f outcome requested r m c)
  unfolding mark_settled settled_update
  mark_settled-Ensures m c ok_settled =
      updates (settled_update f outcome requested r m c) mine.0 mine.1 ok_settled

  mark_unsettled-Ensures :
      (e : TypedEntry)
      → Allowed settled
      → Ensures P (Mine t id) (mark_unsettled f outcome requested r e)
  unfolding mark_unsettled
  mark_unsettled-Ensures e ok_settled =
      if-Ensures P (Mine t id) (is_settled r.receipt.status) (pure r) _ (λ _ w p. (p, mine))
        (λ _.
          mark_settled-Ensures r.metadata (confirmation f outcome requested r e none) ok_settled)

  pub topup_answer-Keeps :
      (e : TypedEntry) (mark : Action TypedReceipt)
      → Ensures P (Mine t id) mark
      → Keeps P (topup_answer f outcome requested r e mark)
  unfolding topup_answer
  topup_answer-Keeps e mark h =
      bind-Keeps P (reconcile_tenant_available_credits r.receipt.tenant_id) _
        (reconcile-Keeps Q r.receipt.tenant_id)
        (λ a. bind-Keeps P mark _ (Keeps-of_Ensures P (Mine t id) mark h) (λ x w p. p))

  settle_new_topup-Keeps :
      (p : Purchase) → Allowed settled → Keeps P (settle_new_topup f outcome requested r p)
  unfolding settle_new_topup append_topup
  settle_new_topup-Keeps (upgrade _) ok_settled = λ w p. p
  settle_new_topup-Keeps (topup credits) ok_settled =
      bind-Keeps P (append_topup f outcome requested r credits) _
        (appends.topups _ (settlement_of f outcome requested r credits) mine.0 (ap some mine.1))
        (λ e.
          topup_answer-Keeps e _ (
            mark_settled-Ensures r.metadata (confirmation f outcome requested r e none) ok_settled))

  settle_topup-Keeps :
      (o : Option TypedEntry) → Allowed settled → Keeps P (settle_topup f outcome requested r o)
  unfolding settle_topup
  settle_topup-Keeps none ok_settled = settle_new_topup-Keeps r.metadata.purchase ok_settled
  settle_topup-Keeps (some e) ok_settled =
      bind-Keeps P (throw_if (not (is_topup_settlement_ledger_entry e)) (route_request 409)) _
        (throw_if-Keeps P _ _) (λ _. topup_answer-Keeps e _ (mark_unsettled-Ensures e ok_settled))

  pub grant_entry-Keeps :
      (c : ℤ) (o : Option TypedEntry) → Keeps P (grant_entry f outcome requested r c o)
  unfolding grant_entry append_upgrade
  grant_entry-Keeps c none =
      appends.upgrades _ (settlement_of f outcome requested r c) mine.0 (ap some mine.1)
  grant_entry-Keeps c (some e) = λ w p. p

  approve_tenant-Keeps : Keeps P (approve_tenant f outcome requested r)
  unfolding approve_tenant
  approve_tenant-Keeps =
      bind-Keeps P (ensure_tenant_billing_account t') _ (ensure_account-Keeps Q t') (λ a.
        bind-Keeps P (update_tenant_billing_account_profile t' _) _ (profile-Keeps Q t' _) (λ _.
          bind-Keeps P (ensure_tenant_send_policy t') _ (ensure_policy-Keeps Q t') (λ x.
            bind-Keeps P (upsert_tenant_send_policy t' _) _ (upsert_policy-Keeps Q t' _) (λ p.
              bind-Keeps P
                (relax_tenant_default_agent_recipient_policies_for_external_send t'
                  p.internal_domain_allowlist)
                _ (relax-Keeps Q t' p.internal_domain_allowlist) (λ _ w h. h)))))
    where
      t' : ℕ
      t' = r.receipt.tenant_id

  refresh-Keeps :
      (c : ℤ) (e : TypedEntry) (p : TenantSendPolicy)
      → Allowed settled
      → Ensures P (Mine t id) (refresh f outcome requested r c e p)
  unfolding refresh
  refresh-Keeps c e p ok_settled =
      if-Ensures P (Mine t id) (needs_refresh f outcome requested r e p) _ (pure r)
        (λ _.
          mark_settled-Ensures (normalized_upgrade_metadata r.metadata c)
            (confirmation f outcome requested r e (some p.outbound_status)) ok_settled)
        (λ _ w h. (h, mine))

  -- what follows the grant of an upgrade
  pub after_grant-Keeps :
      (c : ℤ) (e : TypedEntry) → Allowed settled → Keeps P (after_grant f outcome requested r c e)
  unfolding after_grant
  after_grant-Keeps c e ok_settled =
      bind-Keeps P (approve_tenant f outcome requested r) _ approve_tenant-Keeps (λ p.
        bind-Keeps P (reconcile_tenant_available_credits r.receipt.tenant_id) _
          (reconcile-Keeps Q r.receipt.tenant_id)
          (λ a.
            bind-Keeps P (refresh f outcome requested r c e p) _
              (Keeps-of_Ensures P (Mine t id) (refresh f outcome requested r c e p)
                (refresh-Keeps c e p ok_settled))
              (λ x w h. h)))

  settle_upgrade-Keeps :
      (c : ℤ) (o : Option TypedEntry)
      → Allowed settled
      → Keeps P (settle_upgrade f outcome requested r c o)
  unfolding settle_upgrade
  settle_upgrade-Keeps c o ok_settled =
      bind-Keeps P (grant_entry f outcome requested r c o) (after_grant f outcome requested r c)
        (grant_entry-Keeps c o) (λ e. after_grant-Keeps c e ok_settled)

  answer_settled-Keeps : (e : TypedEntry) → Keeps P (answer_settled f outcome requested r e)
  unfolding answer_settled
  answer_settled-Keeps e =
      bind-Keeps P (reconcile_tenant_available_credits r.receipt.tenant_id) _
        (reconcile-Keeps Q r.receipt.tenant_id)
        (λ a.
          bind-Keeps P (ensure_tenant_send_policy r.receipt.tenant_id) _
            (ensure_policy-Keeps Q r.receipt.tenant_id) (λ x w h. h))

  checked-Keeps :
      (c : ℤ) (o : Option TypedEntry)
      → Allowed settled
      → Keeps P (settle_checked_upgrade f outcome requested r c o)
  unfolding settle_checked_upgrade
  checked-Keeps c none ok_settled = settle_upgrade-Keeps c none ok_settled
  checked-Keeps c (some e) ok_settled =
      if-Keeps P (is_settled r.receipt.status) _ _ (answer_settled-Keeps e)
        (settle_upgrade-Keeps c (some e) ok_settled)

  finalize_upgrade-Keeps :
      (p : Purchase) (o : Option TypedEntry)
      → Allowed settled
      → Keeps P (finalize_upgrade f outcome requested r p o)
  unfolding finalize_upgrade
  finalize_upgrade-Keeps (topup _) o ok_settled = λ w p. p
  finalize_upgrade-Keeps (upgrade c) o ok_settled =
      bind-Keeps P (throw_if (leb_ℤ c (pos 0)) (route_request 409)) _ (throw_if-Keeps P _ _) (λ _.
        bind-Keeps P (throw_if (is_foreign o) (route_request 409)) _ (throw_if-Keeps P _ _)
          (λ _. checked-Keeps c o ok_settled))

  finalize_by_type-Keeps :
      (k : PaymentReceiptType) (o : Option TypedEntry)
      → Allowed settled
      → Keeps P (finalize_by_type f outcome requested r k o)
  unfolding finalize_by_type
  finalize_by_type-Keeps PaymentReceiptType.upgrade o a =
      finalize_upgrade-Keeps r.metadata.purchase o a
  finalize_by_type-Keeps PaymentReceiptType.topup o a = settle_topup-Keeps o a
  finalize_by_type-Keeps PaymentReceiptType.refund o a = settle_topup-Keeps o a
  finalize_by_type-Keeps PaymentReceiptType.adjustment o a = settle_topup-Keeps o a

  pub finalize-Keeps : Allowed settled → Keeps P (finalize_receipt f outcome requested r)
  unfolding finalize_receipt finalize_found
  finalize-Keeps a =
      bind-Keeps P
        (get_typed_credit_ledger_entry_by_payment_receipt_id r.receipt.tenant_id r.receipt.id) _
        (get_entry-Keeps Q r.receipt.tenant_id r.receipt.id)
        (λ o.
          bind-Keeps P
            (throw_if (is_settled r.receipt.status && not (is_some o)) (route_request 409)) _
            (throw_if-Keeps P _ _) (λ _. finalize_by_type-Keeps r.receipt.receipt_type o a))
