-- ===== src/Billing/Append.antt =====
-- What an append that returns has done to the ledger.
use mailagents_email_runtime.Base.{
  ℕ, ◌≡◌, refl, ◌≢◌, Bool, true, false, Option, none, some, List, [], ◌∷◌, arith, any, zero, suc,
  ◌+◌, ap, sym, ◌∙◌, subst,
}
use mailagents_email_runtime.World.{
  World, LedgerEntry, CreditLedgerEntryType, ok, create_id, bind-eq-ok,
}
use mailagents_email_runtime.LedgerMetadata.{CreditLedgerMetadata}
use mailagents_email_runtime.Billing.Accounts.{ledger}
use mailagents_email_runtime.Billing.Ledger.{
  clashes, insert_or_ignore_entry, TypedEntry, NewEntry, find_appended, anything,
  append_typed_entry, accept_appended, load_appended, entry_row,
}
use mailagents_email_runtime.Billing.References.{references}

-- An entry with a reference and no receipt clashes with those of its reference.
pub any-clashes :
    (e : LedgerEntry) (k : ℕ) (es : List LedgerEntry)
    → e.payment_receipt_id ≡ none
    → e.reference_id ≡ some k
    → (references k es ≡ 0 → any (clashes e) es ≡ false)
      × (references k es ≢ 0 → any (clashes e) es ≡ true)
any-clashes e k [] r f = ground arith
any-clashes e k (x ∷ es) r f = ground (arith, any-clashes e k es r f)

-- The ledger after an append of `row`, by the number of entries that stand in its way.
abbrev pub AppendsAt : ℕ → LedgerEntry → List LedgerEntry → List LedgerEntry → Type 0
AppendsAt zero row es es' = es' ≡ row ∷ es
AppendsAt (suc _) row es es' = es' ≡ es

-- The ledger after an append of `row`, whose reference is `k`, to `es`: the row in front where the
-- reference is new, and the same ledger where it is not.
abbrev pub Appends : ℕ → LedgerEntry → List LedgerEntry → List LedgerEntry → Type 0
Appends k row es es' = AppendsAt (references k es) row es es'

pub appends_at :
    (n : ℕ) (row : LedgerEntry) (es es' : List LedgerEntry)
    → (n ≡ 0 → es' ≡ row ∷ es)
    → (n ≢ 0 → es' ≡ es)
    → AppendsAt n row es es'
appends_at zero row es es' new old = new refl
appends_at (suc n) row es es' new old = old (λ e. cc)

pub Appends-of_old :
    (k : ℕ) (row : LedgerEntry) (es es' : List LedgerEntry)
    → references k es ≢ 0
    → es' ≡ es
    → Appends k row es es'
Appends-of_old k row es es' ne same =
    appends_at (references k es) row es es' (λ e. absurd (ne e)) (λ _. same)

accept_appended_lem :
    (n : NewEntry) (id : ℕ) (b : Bool) (o : Option TypedEntry) (w : World) (e : TypedEntry)
    → (accept_appended anything n id b o w).0 ≡ ok e
    → ledger (accept_appended anything n id b o w).1 ≡ ledger w
unfolding accept_appended
accept_appended_lem n id b none w e h = ground arith
accept_appended_lem n id b (some x) w e h = refl

find_appended_lem : (n : NewEntry) (w : World) → ledger (find_appended n w).1 ≡ ledger w
unfolding find_appended
find_appended_lem n w = ground arith

load_appended_lem :
    (n : NewEntry) (id : ℕ) (b : Bool) (w v : World) (e : TypedEntry)
    → load_appended anything n id b w ≡ (ok e, v)
    → ledger v ≡ ledger w
unfolding load_appended
load_appended_lem n id b w v e h =
    let (o, u, found, accepted) =
      bind-eq-ok (find_appended n) (accept_appended anything n id b) w h in
    ap (λ x. ledger x.1) (sym accepted)
    ∙ accept_appended_lem n id b o u e (ap (λ x. x.0) accepted)
    ∙ ap (λ x. ledger x.1) (sym found)
    ∙ find_appended_lem n w

module _ (row : LedgerEntry) (k : ℕ) (w : World) (b : Bool) (p : row.payment_receipt_id ≡ none)
    (q : row.reference_id ≡ some k) (h : (insert_or_ignore_entry row w).0 ≡ ok b) where
  insert_new :
      references k (ledger w) ≡ 0 → ledger (insert_or_ignore_entry row w).1 ≡ row ∷ ledger w
  unfolding insert_or_ignore_entry
  insert_new n = ground (arith, any-clashes row k (ledger w) p q)

  insert_old : references k (ledger w) ≢ 0 → ledger (insert_or_ignore_entry row w).1 ≡ ledger w
  unfolding insert_or_ignore_entry
  insert_old n = ground (arith, any-clashes row k (ledger w) p q)

  insert-Appends : Appends k row (ledger w) (ledger (insert_or_ignore_entry row w).1)
  insert-Appends =
      appends_at (references k (ledger w)) row (ledger w) (ledger (insert_or_ignore_entry row w).1)
        insert_new insert_old

pub append_typed_entry-Appends :
    (type : CreditLedgerEntryType) (m : CreditLedgerMetadata) (n : NewEntry) (k : ℕ) (w v : World)
    (e : TypedEntry)
    → n.payment_receipt_id ≡ none
    → n.reference_id ≡ some k
    → append_typed_entry anything type m n w ≡ (ok e, v)
    → Appends k (entry_row n type m w.next_id w.now) (ledger w) (ledger v)
unfolding append_typed_entry create_id
append_typed_entry-Appends type m n k w v e p q h =
    let row = entry_row n type m w.next_id w.now in
    let w₁ : World = record w { next_id = w.next_id + 1 } in
    let (b, u, inserted, loaded) =
      bind-eq-ok (insert_or_ignore_entry row) (load_appended anything n w.next_id) w₁ h in
    rw (load_appended_lem n w.next_id b u v e loaded) (
      subst (λ l. Appends k row (ledger w) l) (ap (λ x. ledger x.1) inserted)
        (insert-Appends row k w₁ b p q (ap (λ x. x.0) inserted)))
