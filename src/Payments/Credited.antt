-- ===== src/Payments/Credited.antt =====
-- What a settlement that returns has done to the ledger.
use mailagents_email_runtime.Base.{
  ℕ, ◌+◌, ◌≡◌, refl, ap, sym, subst, ◌∙◌, ◌≢◌, inl, inr, Bool, true, false, Option, none, some,
  List, [], ◌∷◌, arith, any, keep, Bool-cases,
}
use mailagents_email_runtime.World.{
  World, LedgerEntry, CreditLedgerEntryType, Action, Result, ok, err, create_id, ◌>>◌, bind-eq-ok,
  pure, throw, plain, billing_uniqueness, Failure, continue,
}
use mailagents_email_runtime.LedgerMetadata.{CreditLedgerMetadata}
use mailagents_email_runtime.Billing.{
  ledger, clashes, has_receipt, insert_or_ignore_entry, TypedEntry, NewEntry, find_appended,
  drop_inserted, append_typed_entry, accept_appended, load_appended, entry_row,
  get_typed_credit_ledger_entry_by_payment_receipt_id,
}
use mailagents_email_runtime.Billing.Append.{AppendsAt, appends_at}
use mailagents_email_runtime.Payments.Entries.{settlements}

pub then_throw-ne-ok :
    {A B : Type 0} (m : Action A) (x : Failure) (w : World) (b : B) (v : World)
    → (m >> throw x) w ≡ (ok b, v)
    → ⊥
then_throw-ne-ok {A} {B} m x w b v h = go (m w) h
  where
    go : (y : Result A × World) → continue (λ _. throw {A = B} x) y ≡ (ok b, v) → ⊥
    go (ok a, u) h = cc
    go (err e, u) h = cc

true-ne-false : true ≢ false
true-ne-false h = cc

module _ (k : ℕ) where
  pub any-clashes :
      (e : LedgerEntry) (es : List LedgerEntry)
      → e.payment_receipt_id ≡ some k
      → settlements k es ≢ 0
      → any (clashes e) es ≡ true
  any-clashes e [] p h = absurd (h refl)
  any-clashes e (x ∷ es) p h = ground (arith, any-clashes e es p)

  pub keep-nil :
      (t : ℕ) (es : List LedgerEntry) → settlements k es ≡ 0 → keep (has_receipt t k) es ≡ []
  keep-nil t [] h = refl
  keep-nil t (e ∷ es) h = ground (arith, keep-nil t es)

  -- An entry that is found stands in the ledger.
  pub get_typed-ne-zero :
      (t : ℕ) (w : World) (e : TypedEntry)
      → (get_typed_credit_ledger_entry_by_payment_receipt_id t k w).0 ≡ ok (some e)
      → settlements k (ledger w) ≢ 0
  unfolding get_typed_credit_ledger_entry_by_payment_receipt_id
  get_typed-ne-zero t w e h z = ground (arith, keep-nil t (ledger w) z)

  pub get_typed-ledger :
      (t : ℕ) (w : World)
      → ledger (get_typed_credit_ledger_entry_by_payment_receipt_id t k w).1 ≡ ledger w
  unfolding get_typed_credit_ledger_entry_by_payment_receipt_id
  get_typed-ledger t w = ground arith

  module _ (expected : TypedEntry → Bool) (n : NewEntry) (p : n.payment_receipt_id ≡ some k) where
    find_appended_receipt :
        (w : World)
        → find_appended n w ≡ get_typed_credit_ledger_entry_by_payment_receipt_id n.tenant_id k w
    unfolding find_appended
    find_appended_receipt w = ground (arith, p)

    accept-ok :
        (id : ℕ) (b : Bool) (o : Option TypedEntry) (w v : World) (e : TypedEntry)
        → accept_appended expected n id b o w ≡ (ok e, v)
        → (o ≡ some e) × (v ≡ w)
    unfolding accept_appended
    accept-ok id b none w v e h =
        absurd (then_throw-ne-ok (drop_inserted b n.tenant_id id) plain w e v h)
    accept-ok id b (some x) w v e h = elim (Bool-cases (expected x)) [
      | inl y ↦ let q : pure x w ≡ (ok e, v) = rw y at h in (cc q, cc q)
      | inr y ↦
          let q : (drop_inserted b n.tenant_id id >> throw billing_uniqueness) w ≡ (ok e, v) =
            rw y at h in
          absurd (then_throw-ne-ok (drop_inserted b n.tenant_id id) billing_uniqueness w e v q)
    ]

    -- A load that returns has found an entry of the receipt.
    load-ok :
        (id : ℕ) (b : Bool) (w v : World) (e : TypedEntry)
        → load_appended expected n id b w ≡ (ok e, v)
        → (ledger v ≡ ledger w) × (settlements k (ledger w) ≢ 0)
    unfolding load_appended
    load-ok id b w v e h =
        let (o, u, found, accepted) =
          bind-eq-ok (find_appended n) (accept_appended expected n id b) w h in
        let (is_found, same) = accept-ok id b o u v e accepted in
        let found' = sym (find_appended_receipt w) ∙ found in
        (
          ap ledger same ∙ ap (λ x. ledger x.1) (sym found') ∙ get_typed-ledger n.tenant_id w,
          get_typed-ne-zero n.tenant_id w e (ap (λ x. x.0) found' ∙ ap ok is_found),
        )

    insert-clash :
        (row : LedgerEntry) (w : World)
        → any (clashes row) (ledger w) ≡ true
        → ledger (insert_or_ignore_entry row w).1 ≡ ledger w
    unfolding insert_or_ignore_entry
    insert-clash row w c = ground arith

    insert-free :
        (row : LedgerEntry) (w : World) (b : Bool)
        → any (clashes row) (ledger w) ≡ false
        → (insert_or_ignore_entry row w).0 ≡ ok b
        → ledger (insert_or_ignore_entry row w).1 ≡ row ∷ ledger w
    unfolding insert_or_ignore_entry
    insert-free row w b c h = ground arith

    -- An append that returns finds the receipt in the ledger afterwards.
    insert-Appends :
        (row : LedgerEntry) (w u : World) (b : Bool)
        → row.payment_receipt_id ≡ some k
        → insert_or_ignore_entry row w ≡ (ok b, u)
        → settlements k (ledger u) ≢ 0
        → AppendsAt (settlements k (ledger w)) row (ledger w) (ledger u)
    insert-Appends row w u b q h found = elim (Bool-cases (any (clashes row) (ledger w))) [
      | inl c ↦
          let same : ledger u ≡ ledger w = ap (λ x. ledger x.1) (sym h) ∙ insert-clash row w c in
          appends_at (settlements k (ledger w)) row (ledger w) (ledger u)
            (λ z. absurd (found (ap (settlements k) same ∙ z))) (λ _. same)
      | inr c ↦
          let new : ledger u ≡ row ∷ ledger w =
            ap (λ x. ledger x.1) (sym h) ∙ insert-free row w b c (ap (λ x. x.0) h) in
          appends_at (settlements k (ledger w)) row (ledger w) (ledger u) (λ _. new)
            (λ some_entry.
              absurd (true-ne-false (sym (any-clashes row (ledger w) q some_entry) ∙ c)))
    ]

    pub append-Appends :
        (type : CreditLedgerEntryType) (m : CreditLedgerMetadata) (w v : World) (e : TypedEntry)
        → append_typed_entry expected type m n w ≡ (ok e, v)
        → AppendsAt
            (settlements k (ledger w))
            (entry_row n type m w.next_id w.now)
            (ledger w)
            (ledger v)
    unfolding append_typed_entry create_id
    append-Appends type m w v e h =
        let row = entry_row n type m w.next_id w.now in
        let w₁ : World = record w { next_id = w.next_id + 1 } in
        let (b, u, inserted, loaded) =
          bind-eq-ok (insert_or_ignore_entry row) (load_appended expected n w.next_id) w₁ h in
        let (same, found) = load-ok w.next_id b u v e loaded in
        subst (λ l. AppendsAt (settlements k (ledger w)) row (ledger w) l) (sym same)
          (insert-Appends row w₁ u b p inserted found)
