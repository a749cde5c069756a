-- ===== src/Payments/Settled.antt =====
-- A settlement that returns has entered the credits of its receipt in the ledger, once.
use mailagents_email_runtime.Base.{
  ℕ, zero, suc, ◌≡◌, refl, ap, sym, subst, ◌∙◌, ◌≢◌, inl, inr, Bool, Option, none, some, List, ◌∷◌,
  arith, Bool-cases,
}
use mailagents_email_runtime.Base.Int.{ℤ, pos, leb_ℤ}
use mailagents_email_runtime.Text.{Text}
use mailagents_email_runtime.World.{
  World, LedgerEntry, CreditLedgerEntryType, Action, ok, ◌>>=◌, bind-eq-ok, Keeps, throw,
  route_request,
}
use mailagents_email_runtime.World.Receipts.{PaymentReceiptType}
use mailagents_email_runtime.LedgerMetadata.{CreditLedgerMetadata}
use mailagents_email_runtime.Billing.{
  ledger, TypedEntry, NewEntry, append_typed_entry, entry_row, append_topup_settlement_ledger_entry,
  append_upgrade_credit_grant_ledger_entry, get_typed_credit_ledger_entry_by_payment_receipt_id,
}
use mailagents_email_runtime.Billing.Append.{AppendsAt}
use mailagents_email_runtime.Payments.Metadata.{Purchase, topup, upgrade}
use mailagents_email_runtime.Payments.Exchange.{Facilitator}
use mailagents_email_runtime.Payments.Receipts.{TypedReceipt}
use mailagents_email_runtime.Payments.Confirm.{Outcome}
use mailagents_email_runtime.Payments.Settle.{
  PaymentSettlement, is_settled, append_topup, settle_new_topup, settle_topup,
}
use mailagents_email_runtime.Payments.Finalize.{
  append_upgrade, grant_entry, settle_upgrade, settle_checked_upgrade, finalize_upgrade,
  finalize_by_type, finalize_found, finalize_receipt,
}
use mailagents_email_runtime.Payments.Frame.{OfTables}
use mailagents_email_runtime.Payments.Entries.{settlements}
use mailagents_email_runtime.Payments.Credited.{append-Appends, get_typed-ne-zero, get_typed-ledger}
use mailagents_email_runtime.Payments.Linked.{
  zero-cases, Same, topup_answer-Same, after_grant-Same, finalize-Same,
}

-- the credits that were bought
abbrev pub credits_of : Purchase → ℤ
credits_of (topup c) = c
credits_of (upgrade c) = c

abbrev pub IsEntryOf : TypedReceipt → LedgerEntry → Type 0
IsEntryOf r e =
    (e.tenant_id ≡ r.receipt.tenant_id)
    × (e.payment_receipt_id ≡ some r.receipt.id)
    × (e.credits_delta ≡ credits_of r.metadata.purchase)

abbrev pub CreditsAt : ℕ → TypedReceipt → List LedgerEntry → List LedgerEntry → Type 0
CreditsAt zero r es es' = (e : LedgerEntry) × (es' ≡ e ∷ es) × IsEntryOf r e
CreditsAt (suc _) r es es' = es' ≡ es

-- The ledger after a settlement of the receipt: an entry of the receipt with its credits in front
-- where it had none, and the same ledger where it had one.
abbrev pub Credits : TypedReceipt → List LedgerEntry → List LedgerEntry → Type 0
Credits r es es' = CreditsAt (settlements r.receipt.id es) r es es'

credits_old :
    (n : ℕ) (r : TypedReceipt) (es es' : List LedgerEntry) → n ≢ 0 → es' ≡ es → CreditsAt n r es es'
credits_old zero r es es' h e = absurd (h refl)
credits_old (suc n) r es es' h e = e

credits_of_append :
    (n : ℕ) (r : TypedReceipt) (row : LedgerEntry) (es es' : List LedgerEntry)
    → IsEntryOf r row
    → AppendsAt n row es es'
    → CreditsAt n r es es'
credits_of_append zero r row es es' h e = (row, e, h)
credits_of_append (suc n) r row es es' h e = e

pub counted :
    (k : ℕ) (row : LedgerEntry) (es es' : List LedgerEntry)
    → row.payment_receipt_id ≡ some k
    → es' ≡ row ∷ es
    → settlements k es' ≢ 0
counted k row es es' p e z =
    let q : settlements k (row ∷ es) ≡ 0 = subst (λ l. settlements k l ≡ 0) e z in
    ground (arith, p, q)

-- A settlement of the receipt, at which its parameters stand.
module _ (f : Facilitator) (outcome : Option Outcome) (requested : Option Text)
    (r : TypedReceipt) where
  abbrev k : ℕ
  k = r.receipt.id

  abbrev t : ℕ
  t = r.receipt.tenant_id

  -- An append of the receipt's entry, and what leaves the ledger alone after it.
  appended-Credits :
      (expected : TypedEntry → Bool) (type : CreditLedgerEntryType) (m : CreditLedgerMetadata)
      (n : NewEntry) (rest : TypedEntry → Action PaymentSettlement) (w v : World)
      (s : PaymentSettlement)
      → n.payment_receipt_id ≡ some k
      → IsEntryOf r (entry_row n type m w.next_id w.now)
      → ((es : List LedgerEntry)
          → settlements k es ≢ 0
          → (e : TypedEntry) → Keeps (OfTables (Same es)) (rest e))
      → settlements k (ledger w) ≡ 0
      → (append_typed_entry expected type m n >>= rest) w ≡ (ok s, v)
      → Credits r (ledger w) (ledger v)
  appended-Credits expected type m n rest w v s p is_entry keeps none_yet h =
      let (e, u, appended, answered) = bind-eq-ok (append_typed_entry expected type m n) rest w h in
      let row = entry_row n type m w.next_id w.now in
      let new : ledger u ≡ row ∷ ledger w =
        subst (λ i. AppendsAt i row (ledger w) (ledger u)) none_yet
          (append-Appends k expected n p type m w u e appended) in
      let same : ledger v ≡ ledger u =
        ap (λ x. ledger x.1) (sym answered)
        ∙ keeps (ledger u) (counted k row (ledger w) (ledger u) p new) e u refl in
      subst (λ i. CreditsAt i r (ledger w) (ledger v)) (sym none_yet) (row, same ∙ new, is_entry)

  settle_topup-Credits :
      (p : Purchase) (w v : World) (s : PaymentSettlement)
      → p ≡ r.metadata.purchase
      → settlements k (ledger w) ≡ 0
      → settle_new_topup f outcome requested r p w ≡ (ok s, v)
      → Credits r (ledger w) (ledger v)
  unfolding settle_new_topup append_topup append_topup_settlement_ledger_entry
  settle_topup-Credits (upgrade c) w v s e z h = cc
  settle_topup-Credits (topup c) w v s e z h =
      appended-Credits _ CreditLedgerEntryType.topup _ _ _ w v s refl (refl, refl, ap credits_of e)
        (λ es has_entry x. topup_answer-Same f outcome requested r es has_entry x) z h

  upgrade-Credits :
      (c : ℤ) (w v : World) (s : PaymentSettlement)
      → c ≡ credits_of r.metadata.purchase
      → settlements k (ledger w) ≡ 0
      → settle_upgrade f outcome requested r c none w ≡ (ok s, v)
      → Credits r (ledger w) (ledger v)
  unfolding settle_upgrade grant_entry append_upgrade append_upgrade_credit_grant_ledger_entry
  upgrade-Credits c w v s e z h =
      appended-Credits _ CreditLedgerEntryType.adjustment _ _ _ w v s refl (refl, refl, e)
        (λ es has_entry x. after_grant-Same f outcome requested r es has_entry c x) z h

  finalize_upgrade-Credits :
      (p : Purchase) (w v : World) (s : PaymentSettlement)
      → p ≡ r.metadata.purchase
      → settlements k (ledger w) ≡ 0
      → finalize_upgrade f outcome requested r p none w ≡ (ok s, v)
      → Credits r (ledger w) (ledger v)
  unfolding finalize_upgrade settle_checked_upgrade
  finalize_upgrade-Credits (topup c) w v s e z h = cc
  finalize_upgrade-Credits (upgrade c) w v s e z h = elim (Bool-cases (leb_ℤ c (pos 0))) [
    | inl b ↦
        let q : throw {A = PaymentSettlement} (route_request 409) w ≡ (ok s, v) = rw b at h in cc q
    | inr b ↦
        let q : settle_upgrade f outcome requested r c none w ≡ (ok s, v) = rw b at h in
        upgrade-Credits c w v s (ap credits_of e) z q
  ]

  by_type-Credits :
      (kind : PaymentReceiptType) (w v : World) (s : PaymentSettlement)
      → settlements k (ledger w) ≡ 0
      → finalize_by_type f outcome requested r kind none w ≡ (ok s, v)
      → Credits r (ledger w) (ledger v)
  unfolding finalize_by_type settle_topup
  by_type-Credits PaymentReceiptType.upgrade w v s z h =
      finalize_upgrade-Credits r.metadata.purchase w v s refl z h
  by_type-Credits PaymentReceiptType.topup w v s z h =
      settle_topup-Credits r.metadata.purchase w v s refl z h
  by_type-Credits PaymentReceiptType.refund w v s z h =
      settle_topup-Credits r.metadata.purchase w v s refl z h
  by_type-Credits PaymentReceiptType.adjustment w v s z h =
      settle_topup-Credits r.metadata.purchase w v s refl z h

  found-Credits :
      (o : Option TypedEntry) (w v : World) (s : PaymentSettlement)
      → ((e : TypedEntry) → o ≡ some e → ⊥)
      → settlements k (ledger w) ≡ 0
      → finalize_found f outcome requested r o w ≡ (ok s, v)
      → Credits r (ledger w) (ledger v)
  unfolding finalize_found
  found-Credits (some e) w v s n z h = absurd (n e refl)
  found-Credits none w v s n z h = elim (Bool-cases (is_settled r.receipt.status)) [
    | inl b ↦
        let q : throw {A = PaymentSettlement} (route_request 409) w ≡ (ok s, v) = rw b at h in cc q
    | inr b ↦
        let q : finalize_by_type f outcome requested r r.receipt.receipt_type none w ≡ (ok s, v) =
          rw b at h in
        by_type-Credits r.receipt.receipt_type w v s z q
  ]

  first-Credits :
      (w v : World) (s : PaymentSettlement)
      → settlements k (ledger w) ≡ 0
      → finalize_receipt f outcome requested r w ≡ (ok s, v)
      → Credits r (ledger w) (ledger v)
  unfolding finalize_receipt
  first-Credits w v s z h =
      let (o, u, found, rest) =
        bind-eq-ok (get_typed_credit_ledger_entry_by_payment_receipt_id t k)
          (finalize_found f outcome requested r) w h in
      let same : ledger u ≡ ledger w = ap (λ x. ledger x.1) (sym found) ∙ get_typed-ledger k t w in
      subst (λ l. Credits r l (ledger v)) same
        (found-Credits o u v s (λ e q. get_typed-ne-zero k t w e (ap (λ x. x.0) found ∙ ap ok q) z)
          (ap (settlements k) same ∙ z) rest)

  -- A settlement that returns has put an entry of the receipt, with the credits that were bought, in
  -- front of the ledger where the receipt had none, and has left the ledger as it was where it had
  -- one.
  pub finalize-Credits :
      (w v : World) (s : PaymentSettlement)
      → finalize_receipt f outcome requested r w ≡ (ok s, v)
      → Credits r (ledger w) (ledger v)
  finalize-Credits w v s h = elim (zero-cases (settlements k (ledger w))) [
    | inl z ↦ first-Credits w v s z h
    | inr n ↦
        credits_old (settlements k (ledger w)) r (ledger w) (ledger v) n
          (ap (λ x. ledger x.1) (sym h) ∙ finalize-Same f outcome requested r (ledger w) n w refl)
  ]
