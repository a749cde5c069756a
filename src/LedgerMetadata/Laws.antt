-- ===== src/LedgerMetadata/Laws.antt =====
-- Typed ledger metadata survives the JSON column, and only entries of the right type are read.
use mailagents_email_runtime.Base.{◌≡◌, Option, none, some, arith}
use mailagents_email_runtime.Json.{Json, obj, Fields, text_items-from_texts}
use mailagents_email_runtime.World.{CreditLedgerEntryType}
use mailagents_email_runtime.LedgerMetadata.{
  CreditLedgerMetadata, topup_settlement, upgrade_credit_grant, outbound_usage, entry_type_of,
  serialize_credit_ledger_metadata, parse_typed_credit_ledger_entry, when_topup, when_upgrade,
  when_usage, parse_settlement, parse_outbound_usage,
}

-- What is stored of an entry is read back as it was, in an entry of its own type.
pub parse-serialize :
    (m : CreditLedgerMetadata)
    → parse_typed_credit_ledger_entry (entry_type_of m) (some (serialize_credit_ledger_metadata m))
      ≡ some m
unfolding parse_typed_credit_ledger_entry serialize_credit_ledger_metadata
parse-serialize (topup_settlement s) = ground arith
parse-serialize (upgrade_credit_grant s) = ground arith
parse-serialize (outbound_usage u) =
    ground
      (arith, text_items-from_texts u.recipient_domains, text_items-from_texts u.external_domains)

when_topup-entry_type :
    (t : CreditLedgerEntryType) (fs : Fields) (m : CreditLedgerMetadata)
    → when_topup t fs ≡ some m
    → entry_type_of m ≡ t
unfolding parse_settlement
when_topup-entry_type t fs m h = ground arith

when_upgrade-entry_type :
    (t : CreditLedgerEntryType) (fs : Fields) (m : CreditLedgerMetadata)
    → when_upgrade t fs ≡ some m
    → entry_type_of m ≡ t
unfolding parse_settlement
when_upgrade-entry_type t fs m h = ground arith

when_usage-entry_type :
    (t : CreditLedgerEntryType) (fs : Fields) (m : CreditLedgerMetadata)
    → when_usage t fs ≡ some m
    → entry_type_of m ≡ t
unfolding parse_outbound_usage
when_usage-entry_type t fs m h = ground arith

-- An entry that is read back as typed metadata carries the type of that metadata.
pub parse_entry_type :
    (t : CreditLedgerEntryType) (j : Option Json) (m : CreditLedgerMetadata)
    → parse_typed_credit_ledger_entry t j ≡ some m
    → entry_type_of m ≡ t
unfolding parse_typed_credit_ledger_entry
parse_entry_type t (some (obj fs)) m h = ground (
  arith,
  when_topup-entry_type t fs m,
  when_upgrade-entry_type t fs m,
  when_usage-entry_type t fs m,
)
parse_entry_type t none m h = cc
parse_entry_type t (some _) m h = cc
