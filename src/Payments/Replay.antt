-- ===== src/Payments/Replay.antt =====
-- A payment proof that a receipt was made with makes no second receipt.
use mailagents_email_runtime.Base.{
  ℕ, suc, if◌then◌else◌, ◌+◌, ◌≡◌, ◌≢◌, refl, sym, ap, subst, ◌∙◌, true, false, Option, none, some,
  List, [], ◌∷◌, arith, any, inl, inr, Bool-cases, find, ◌==◌,
}
use mailagents_email_runtime.Text.{Text, text_eq_refl}
use mailagents_email_runtime.World.{
  World, Action, Done, Failure, Result, ok, err, is_ok, Keeps, bind-eq-ok, catch_with, pure, throw,
  plain, create_id, service, continue, recover, ◌>>◌, ◌>>=◌, require_row, gets,
}
use mailagents_email_runtime.World.Receipts.{PaymentReceipt}
use mailagents_email_runtime.Payments.Exchange.{Facilitator}
use mailagents_email_runtime.Payments.Receipts.{
  receipts, is_receipt, same_text, with_columns, ReceiptColumns, update_receipt, TypedReceipt,
  parse_typed_payment_receipt,
}
use mailagents_email_runtime.Payments.Create.{
  NewReceipt, receipt_row, row_clashes, insert_receipt, on_insert_error,
  create_tenant_payment_receipt, delete_receipt, is_of_type, accept_created,
  create_typed_tenant_payment_receipt,
}
use mailagents_email_runtime.Payments.Retry.{confirm_payment}
use mailagents_email_runtime.Payments.Frame.{IsRemote}
use mailagents_email_runtime.Payments.Retried.{IsCurrent-Mine, confirm_payment-Keeps}
use mailagents_email_runtime.Payments.Updated.{updates}
use mailagents_email_runtime.Payments.Current.{settle_current-Keeps}
use mailagents_email_runtime.Payments.Entries.{Any}
use mailagents_email_runtime.Payments.Steps.{after_write, appends-Keep}
use mailagents_email_runtime.Payments.Credited.{then_throw-ne-ok}
use mailagents_email_runtime.World.Tables.{update_rows}

-- How many receipts were paid with the proof.
abbrev pub proofs : Text → List PaymentReceipt → ℕ
proofs p [] = 0
proofs p (r ∷ rs) =
    let rest = proofs p rs in
    if same_text (some p) r.payment_proof_fingerprint then suc rest else rest

proofs-update_rows :
    (p : Text) (t id : ℕ) (c : ReceiptColumns) (rs : List PaymentReceipt)
    → proofs p (update_rows (is_receipt t id) (with_columns c) rs) ≡ proofs p rs
proofs-update_rows p t id c [] = refl
proofs-update_rows p t id c (r ∷ rs) = ground (arith, proofs-update_rows p t id c rs)

abbrev insert_caught : NewReceipt → ℕ → ℕ → Action Done
insert_caught n id now = catch_with (insert_receipt (receipt_row n id now)) (on_insert_error n)

on_insert_error-ne-ok :
    (n : NewReceipt) (e : Failure) (w v : World) (x : Done) → on_insert_error n e w ≡ (ok x, v) → ⊥
on_insert_error-ne-ok n Failure.uniqueness w v x h = ground arith
on_insert_error-ne-ok n Failure.unavailable w v x h = cc
on_insert_error-ne-ok n Failure.plain w v x h = cc
on_insert_error-ne-ok n Failure.billing_uniqueness w v x h = cc
on_insert_error-ne-ok n Failure.outbound_policy w v x h = cc
on_insert_error-ne-ok n (Failure.validation s) w v x h = cc
on_insert_error-ne-ok n (Failure.route_request s) w v x h = cc

-- An insertion that returns has put the row in front.
caught-ok :
    (n : NewReceipt) (m : Action Done) (w v : World) (x : Done)
    → recover (on_insert_error n) (m w) ≡ (ok x, v)
    → m w ≡ (ok x, v)
caught-ok n m w v x h = go (m w) h
  where
    go : (y : Result Done × World) → recover (on_insert_error n) y ≡ (ok x, v) → y ≡ (ok x, v)
    go (ok a, u) h = h
    go (err e, u) h = absurd (on_insert_error-ne-ok n e u v x h)

insert-ok :
    (r : PaymentReceipt) (w v : World) (x : Done)
    → insert_receipt r w ≡ (ok x, v)
    → receipts v ≡ r ∷ receipts w
unfolding insert_receipt
insert-ok r w v x h = ground arith

insert-clash :
    (r : PaymentReceipt) (w : World)
    → any (row_clashes r) (receipts w) ≡ true
    → (is_ok (insert_receipt r w).0 ≡ false) × (receipts (insert_receipt r w).1 ≡ receipts w)
unfolding insert_receipt
insert-clash r w c = ground (arith, c)

any-clash :
    (p : Text) (r : PaymentReceipt) (rs : List PaymentReceipt)
    → r.payment_proof_fingerprint ≡ some p
    → proofs p rs ≢ 0
    → any (row_clashes r) rs ≡ true
any-clash p r [] e h = absurd (h refl)
any-clash p r (x ∷ rs) e h = ground (arith, any-clash p r rs e)

-- the row that a creation reads back
abbrev reload : ℕ → Action PaymentReceipt
reload id = do service; row ← gets (λ w. find (λ r. r.id == id) (receipts w)); require_row row

reload-ok :
    (id : ℕ) (w v : World) (r : PaymentReceipt) → reload id w ≡ (ok r, v) → receipts v ≡ receipts w
unfolding service
reload-ok id w v r h = ground arith

create-ok :
    (n : NewReceipt) (w v : World) (r : PaymentReceipt)
    → create_tenant_payment_receipt n w ≡ (ok r, v)
    → receipts v ≡ receipt_row n w.next_id w.now ∷ receipts w
unfolding create_tenant_payment_receipt create_id
create-ok n w v r h =
    let w₁ : World = record w { next_id = w.next_id + 1 } in
    let (x, u, inserted, loaded) =
      bind-eq-ok (insert_caught n w.next_id w.now) (λ _. reload w.next_id) w₁ h in
    reload-ok w.next_id u v r loaded
    ∙ insert-ok (receipt_row n w.next_id w.now) w₁ u x
        (caught-ok n (insert_receipt (receipt_row n w.next_id w.now)) w₁ u x inserted)

accept-ok :
    (n : NewReceipt) (id : ℕ) (o : Option TypedReceipt) (w v : World) (r : TypedReceipt)
    → accept_created n id o w ≡ (ok r, v)
    → receipts v ≡ receipts w
unfolding accept_created
accept-ok n id none w v r h =
    absurd
      (then_throw-ne-ok (catch_with (delete_receipt n.tenant_id id) (λ _. pure tt)) plain w r v h)
accept-ok n id (some x) w v r h =
    elim (Bool-cases (is_of_type n.receipt_type x.metadata.purchase)) [
      | inl e ↦ let q : pure x w ≡ (ok r, v) = rw e at h in ap (λ y. receipts y.1) (sym q)
      | inr e ↦
          let q : (catch_with (delete_receipt n.tenant_id id) (λ _. pure tt) >> throw plain) w
              ≡ (ok r, v) =
            rw e at h in
          absurd (
            then_throw-ne-ok (catch_with (delete_receipt n.tenant_id id) (λ _. pure tt)) plain w r v
              q)
    ]

create_typed-ok :
    (n : NewReceipt) (w v : World) (r : TypedReceipt)
    → create_typed_tenant_payment_receipt n w ≡ (ok r, v)
    → receipts v ≡ receipt_row n w.next_id w.now ∷ receipts w
unfolding create_typed_tenant_payment_receipt
create_typed-ok n w v r h =
    let (x, u, created, accepted) =
      bind-eq-ok (create_tenant_payment_receipt n)
        (λ y. accept_created n y.id (parse_typed_payment_receipt y)) w h in
    accept-ok n x.id (parse_typed_payment_receipt x) u v r accepted ∙ create-ok n w u x created

-- A run that throws and leaves the receipts at `rs`.
abbrev pub IsRefusedAt : {A : Type 0} → List PaymentReceipt → Result A × World → Type 0
IsRefusedAt rs x = (is_ok (x.0) ≡ false) × (receipts x.1 ≡ rs)

continue-IsRefusedAt :
    {A B : Type 0} (rs : List PaymentReceipt) (k : A → Action B) (x : Result A × World)
    → IsRefusedAt rs x
    → IsRefusedAt rs (continue k x)
continue-IsRefusedAt rs k (ok a, w) h = cc
continue-IsRefusedAt rs k (err e, w) h = h

on_insert_error-IsRefusedAt :
    (n : NewReceipt) (e : Failure) (w : World) → IsRefusedAt (receipts w) (on_insert_error n e w)
on_insert_error-IsRefusedAt n Failure.uniqueness w = ground arith
on_insert_error-IsRefusedAt n Failure.unavailable w = (refl, refl)
on_insert_error-IsRefusedAt n Failure.plain w = (refl, refl)
on_insert_error-IsRefusedAt n Failure.billing_uniqueness w = (refl, refl)
on_insert_error-IsRefusedAt n Failure.outbound_policy w = (refl, refl)
on_insert_error-IsRefusedAt n (Failure.validation s) w = (refl, refl)
on_insert_error-IsRefusedAt n (Failure.route_request s) w = (refl, refl)

recover-IsRefusedAt :
    (rs : List PaymentReceipt) (n : NewReceipt) (x : Result Done × World)
    → IsRefusedAt rs x
    → IsRefusedAt rs (recover (on_insert_error n) x)
recover-IsRefusedAt rs n (ok a, w) h = cc
recover-IsRefusedAt rs n (err e, w) h =
    let (fails, same) = on_insert_error-IsRefusedAt n e w in (fails, same ∙ h.1)

module _ (p : Text) where
  create-IsRefusedAt :
      (n : NewReceipt) (w : World)
      → n.payment_proof_fingerprint ≡ some p
      → proofs p (receipts w) ≢ 0
      → IsRefusedAt (receipts w) (create_typed_tenant_payment_receipt n w)
  unfolding create_typed_tenant_payment_receipt create_tenant_payment_receipt create_id receipt_row
  create-IsRefusedAt n w q spent =
      let row = receipt_row n w.next_id w.now in
      let w₁ : World = record w { next_id = w.next_id + 1 } in
      let clash = insert-clash row w₁ (any-clash p row (receipts w) q spent) in
      continue-IsRefusedAt (receipts w) _ _ (
        continue-IsRefusedAt (receipts w) (λ _. reload w.next_id)
          (insert_caught n w.next_id w.now w₁)
          (recover-IsRefusedAt (receipts w) n (insert_receipt row w₁) clash))

  abbrev IsSpent : List PaymentReceipt → Type 0
  IsSpent rs = proofs p rs ≢ 0

  write-IsSpent :
      (t id : ℕ) (c : ReceiptColumns)
      → Any c.status
      → Keeps (λ w. IsSpent (receipts w)) (update_receipt t id c)
  write-IsSpent t id c a w h =
      after_write IsSpent t id c w h (λ z. h (sym (proofs-update_rows p t id c (receipts w)) ∙ z))

  confirm-IsSpent :
      (f : Facilitator) (t id : ℕ)
      → IsRemote f
      → Keeps (λ w. IsSpent (receipts w)) (confirm_payment f t id)
  confirm-IsSpent f t id remote =
      confirm_payment-Keeps (λ _ rs. IsSpent rs) t id f
        (λ r w h current.
          settle_current-Keeps (λ _ rs. IsSpent rs) t id Any
            (updates (λ _ rs. IsSpent rs) Any t id (λ v x k e. tt) (write-IsSpent t id))
            (appends-Keep IsSpent t id) f remote r (IsCurrent-Mine t id r (receipts w) current)
            (λ _ _. tt) (λ _. tt) (λ _. tt) w h)

  row-IsSpent :
      (n : NewReceipt) (id now : ℕ) (rs : List PaymentReceipt)
      → n.payment_proof_fingerprint ≡ some p
      → IsSpent (receipt_row n id now ∷ rs)
  unfolding receipt_row
  row-IsSpent n id now rs q z = ground (arith, q, text_eq_refl p, z)

-- A payment proof cannot be replayed: where a receipt was made with it, and the settlement of any
-- receipt is retried then, another creation with the same proof, of whatever tenant, throws and
-- leaves the receipts as they are, whatever fails, if the facilitator leaves the tables alone.
pub create-IsRefused_again :
    (p : Text) (f : Facilitator) (n again : NewReceipt) (t id : ℕ) (w v : World) (r : TypedReceipt)
    → IsRemote f
    → n.payment_proof_fingerprint ≡ some p
    → again.payment_proof_fingerprint ≡ some p
    → create_typed_tenant_payment_receipt n w ≡ (ok r, v)
    → IsRefusedAt
        (receipts (confirm_payment f t id v).1)
        (create_typed_tenant_payment_receipt again (confirm_payment f t id v).1)
create-IsRefused_again p f n again t id w v r remote q q' h =
    let spent : proofs p (receipts v) ≢ 0 =
      subst (λ rs. proofs p rs ≢ 0) (sym (create_typed-ok n w v r h))
        (row-IsSpent p n w.next_id w.now (receipts w) q) in
    create-IsRefusedAt p again (confirm_payment f t id v).1 q'
      (confirm-IsSpent p f t id remote v spent)
