-- ===== src/Billing/Ledger.antt =====
-- The statements of src/repositories/billing.ts on `tenant_credit_ledger`. The table is kept with
-- its newest entry first; a reference and a payment receipt stand in one entry at most
-- (migrations/0009_billing_idempotency_guards.sql).
use Prim.Native.String.{String}
use mailagents_email_runtime.Base.{
  ℕ, Bool, true, false, ◌&&◌, ◌||◌, Option, none, some, List, [], ◌∷◌, ◌==◌, if◌then◌else◌, any,
  keep,
}
use mailagents_email_runtime.Base.Int.{ℤ}
use mailagents_email_runtime.World.{
  CreditLedgerEntryType, topup, adjustment, LedgerEntry, World, Action, Done, ◌>>=◌, ◌>>◌, plain,
  billing_uniqueness, pure, throw, gets, catch_with, when, modify, service, create_id,
}
use mailagents_email_runtime.World.Tables.{delete_rows}
use mailagents_email_runtime.LedgerMetadata.{
  CreditLedgerMetadata, topup_settlement, upgrade_credit_grant, outbound_usage, Settlement,
  OutboundUsage, debit_type, serialize_credit_ledger_metadata, parse_typed_credit_ledger_entry,
}
use mailagents_email_runtime.Billing.Accounts.{ledger}

-- `column = key`, which a null never meets
abbrev pub is_key : ℕ → Option ℕ → Bool
is_key k none = false
is_key k (some j) = j == k

abbrev pub same_key : Option ℕ → Option ℕ → Bool
same_key none c = false
same_key (some k) c = is_key k c

-- the unique indexes of the table
abbrev pub clashes : LedgerEntry → LedgerEntry → Bool
clashes e f =
    same_key e.payment_receipt_id f.payment_receipt_id || same_key e.reference_id f.reference_id

abbrev pub set_ledger : List LedgerEntry → World → World
set_ledger l w = record w { bank = record (w.bank) { ledger = l } }

-- `INSERT OR IGNORE`; tells whether the row was inserted
unfoldable pub insert_or_ignore_entry : LedgerEntry → Action Bool
unfolding service
insert_or_ignore_entry e = service >> λ w.
    if any (clashes e) (ledger w) then pure false w else pure true (set_ledger (e ∷ ledger w) w)

-- `DELETE FROM tenant_credit_ledger WHERE tenant_id = ? AND id = ?`
unfoldable pub delete_entry : ℕ → ℕ → Action Done
unfolding service
delete_entry t id =
    service
    >> modify (λ w. set_ledger (delete_rows (λ e. e.tenant_id == t && e.id == id) (ledger w)) w)

-- the rows of a query with `LIMIT 2`, of which more than one is ambiguous
abbrev only_row : List LedgerEntry → Action (Option LedgerEntry)
only_row [] = pure none
only_row (e ∷ []) = pure (some e)
only_row (e ∷ _ ∷ _) = throw billing_uniqueness

abbrev pub has_reference : ℕ → ℕ → LedgerEntry → Bool
has_reference t ref e = e.tenant_id == t && is_key ref e.reference_id

abbrev pub has_receipt : ℕ → ℕ → LedgerEntry → Bool
has_receipt t receipt e = e.tenant_id == t && is_key receipt e.payment_receipt_id

unfoldable pub get_credit_ledger_entry_by_reference_id : ℕ → ℕ → Action (Option LedgerEntry)
unfolding service
get_credit_ledger_entry_by_reference_id t ref = do
  service
  rows ← gets (λ w. keep (has_reference t ref) (ledger w))
  only_row rows

unfoldable pub get_credit_ledger_entry_by_payment_receipt_id : ℕ → ℕ → Action (Option LedgerEntry)
unfolding service
get_credit_ledger_entry_by_payment_receipt_id t receipt = do
  service
  rows ← gets (λ w. keep (has_receipt t receipt) (ledger w))
  only_row rows

-- `TypedCreditLedgerEntryRecord`: an entry and its metadata as parsed
pub record TypedEntry : Type 0 where
  pub entry : LedgerEntry
  pub metadata : CreditLedgerMetadata

abbrev pub typed_entry : Option LedgerEntry → Option TypedEntry
typed_entry none = none
typed_entry (some e) = elim (parse_typed_credit_ledger_entry e.entry_type e.metadata) [
  | none ↦ none
  | some m ↦ some (record { entry = e; metadata = m })
]

unfoldable pub get_typed_credit_ledger_entry_by_reference_id : ℕ → ℕ → Action (Option TypedEntry)
unfolding get_credit_ledger_entry_by_reference_id
get_typed_credit_ledger_entry_by_reference_id t ref = do
  entry ← get_credit_ledger_entry_by_reference_id t ref
  pure (typed_entry entry)

unfoldable pub get_typed_credit_ledger_entry_by_payment_receipt_id :
    ℕ → ℕ → Action (Option TypedEntry)
unfolding get_credit_ledger_entry_by_payment_receipt_id
get_typed_credit_ledger_entry_by_payment_receipt_id t receipt = do
  entry ← get_credit_ledger_entry_by_payment_receipt_id t receipt
  pure (typed_entry entry)

-- the input of the functions that append
pub record NewEntry : Type 0 where
  pub tenant_id : ℕ
  pub credits_delta : ℤ
  pub reason : String
  pub payment_receipt_id : Option ℕ
  pub reference_id : Option ℕ

abbrev pub entry_row : NewEntry → CreditLedgerEntryType → CreditLedgerMetadata → ℕ → ℕ → LedgerEntry
entry_row n type m id now = record {
  id = id;
  tenant_id = n.tenant_id;
  entry_type = type;
  credits_delta = n.credits_delta;
  reason = n.reason;
  payment_receipt_id = n.payment_receipt_id;
  reference_id = n.reference_id;
  metadata = some (serialize_credit_ledger_metadata m);
  created_at = now;
}

-- the clean-up of a row that was inserted and cannot be used
unfoldable pub drop_inserted : Bool → ℕ → ℕ → Action Done
unfolding delete_entry
drop_inserted inserted t id = when inserted (catch_with (delete_entry t id) (λ _. pure tt))

-- `referenceId ?? ""` finds no entry where there is none
unfoldable pub find_appended : NewEntry → Action (Option TypedEntry)
unfolding get_typed_credit_ledger_entry_by_reference_id
    get_typed_credit_ledger_entry_by_payment_receipt_id
find_appended n = elim (n.payment_receipt_id) [
  | some receipt ↦ get_typed_credit_ledger_entry_by_payment_receipt_id n.tenant_id receipt
  | none ↦ elim (n.reference_id) [
    | some ref ↦ get_typed_credit_ledger_entry_by_reference_id n.tenant_id ref
    | none ↦ service >> pure none
  ]
]

abbrev pub is_topup_settlement_ledger_entry : TypedEntry → Bool
is_topup_settlement_ledger_entry e = elim (e.metadata) [ topup_settlement _ ↦ true | _ ↦ false ]

abbrev pub is_upgrade_credit_grant_ledger_entry : TypedEntry → Bool
is_upgrade_credit_grant_ledger_entry e = elim (e.metadata) [
  | upgrade_credit_grant _ ↦ true
  | _ ↦ false
]

-- The common body of the three functions that append, from its last part backwards; `expected`
-- tells an entry of their type.
module _ (expected : TypedEntry → Bool) (n : NewEntry) (id : ℕ) where
  unfoldable pub accept_appended : Bool → Option TypedEntry → Action TypedEntry
  unfolding drop_inserted
  accept_appended inserted none = drop_inserted inserted n.tenant_id id >> throw plain
  accept_appended inserted (some e) =
      if expected e
      then pure e
      else (drop_inserted inserted n.tenant_id id >> throw billing_uniqueness)

  unfoldable pub load_appended : Bool → Action TypedEntry
  unfolding find_appended accept_appended
  load_appended inserted = find_appended n >>= accept_appended inserted

unfoldable pub append_typed_entry :
    (TypedEntry → Bool)
    → CreditLedgerEntryType
    → CreditLedgerMetadata
    → NewEntry
    → Action TypedEntry
unfolding insert_or_ignore_entry load_appended create_id
append_typed_entry expected type m n = do
  id ← create_id
  now ← gets (λ w. w.now)
  insert_or_ignore_entry (entry_row n type m id now) >>= load_appended expected n id

unfoldable pub append_topup_settlement_ledger_entry : NewEntry → Settlement → Action TypedEntry
unfolding append_typed_entry
append_topup_settlement_ledger_entry n s =
    append_typed_entry is_topup_settlement_ledger_entry topup (topup_settlement s) n

unfoldable pub append_upgrade_credit_grant_ledger_entry : NewEntry → Settlement → Action TypedEntry
unfolding append_typed_entry
append_upgrade_credit_grant_ledger_entry n s =
    append_typed_entry is_upgrade_credit_grant_ledger_entry adjustment (upgrade_credit_grant s) n

-- Every typed entry is accepted.
abbrev pub anything : TypedEntry → Bool
anything _ = true

abbrev pub outbound_usage_entry : ℕ → ℤ → String → ℕ → NewEntry
outbound_usage_entry t delta reason ref = record {
  tenant_id = t;
  credits_delta = delta;
  reason = reason;
  payment_receipt_id = none;
  reference_id = some ref;
}

-- Its reference is required and its payment receipt null.
unfoldable pub append_outbound_usage_ledger_entry :
    ℕ → ℤ → String → ℕ → OutboundUsage → Action TypedEntry
unfolding append_typed_entry
append_outbound_usage_ledger_entry t delta reason ref u =
    append_typed_entry anything (debit_type u.entry_type) (outbound_usage u)
      (outbound_usage_entry t delta reason ref)
