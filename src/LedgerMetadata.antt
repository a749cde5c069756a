-- ===== src/LedgerMetadata.antt =====
-- src/lib/payments/ledger-metadata.ts: what a ledger entry records, written to and read from JSON.
pub mod Laws
use Prim.Native.String.{String}
use mailagents_email_runtime.Base.{
  Bool, true, ◌&&◌, ◌||◌, Option, none, some, List, if◌then◌else◌, is_some,
}
use mailagents_email_runtime.Base.Int.{ℤ}
use mailagents_email_runtime.Text.{Text, codes}
use mailagents_email_runtime.Json.{
  Json, num, str, arr, obj, Items, Fields, end, field, property, is_tag, as_text, as_number,
  as_array, text_items, from_texts,
}
use mailagents_email_runtime.World.{CreditLedgerEntryType, topup, adjustment}

pub data ConfirmationMode : Type 0 where
  manual_admin facilitator : ConfirmationMode

pub data UsageType : Type 0 where
  send reply : UsageType

pub data Debit : Type 0 where
  debit_send debit_reply : Debit

-- `TopupSettlementLedgerMetadata` and `UpgradeCreditGrantLedgerMetadata`
pub record Settlement : Type 0 where
  pub confirmation_mode : ConfirmationMode
  pub credits : ℤ
  pub facilitator_verify : Option Json
  pub facilitator_settle : Option Json

pub record OutboundUsage : Type 0 where
  pub entry_type : Debit
  pub usage_type : UsageType
  pub credits_charged : ℤ
  pub message_id : Text
  pub outbound_job_id : Text
  pub draft_id : Option Text
  pub draft_created_via : Option Text
  pub recipient_domains : List Text
  pub external_domains : List Text

pub data CreditLedgerMetadata : Type 0 where
  topup_settlement : Settlement → CreditLedgerMetadata
  upgrade_credit_grant : Settlement → CreditLedgerMetadata
  outbound_usage : OutboundUsage → CreditLedgerMetadata

abbrev pub debit_type : Debit → CreditLedgerEntryType
debit_type Debit.debit_send = CreditLedgerEntryType.debit_send
debit_type Debit.debit_reply = CreditLedgerEntryType.debit_reply

-- the column `entry_type` beside the metadata
abbrev pub entry_type_of : CreditLedgerMetadata → CreditLedgerEntryType
entry_type_of (topup_settlement _) = topup
entry_type_of (upgrade_credit_grant _) = adjustment
entry_type_of (outbound_usage u) = debit_type u.entry_type

abbrev pub tag : String → Option Json
tag s = some (str (codes s))

abbrev pub mode_json : ConfirmationMode → Option Json
mode_json manual_admin = tag "manual_admin"
mode_json facilitator = tag "facilitator"

abbrev usage_json : UsageType → Option Json
usage_json send = tag "send"
usage_json reply = tag "reply"

abbrev debit_json : Debit → Option Json
debit_json Debit.debit_send = tag "debit_send"
debit_json Debit.debit_reply = tag "debit_reply"

abbrev pub text_json : Option Text → Option Json
text_json none = none
text_json (some s) = some (str s)

-- `JSON.stringify` leaves a property out whose value is `undefined`.
abbrev pub with_field : String → Option Json → Fields → Fields
with_field k none fs = fs
with_field k (some v) fs = field k v fs

settlement_json : String → String → String → Fields → Settlement → Json
settlement_json entry receipt credits_key rest s = obj (
    with_field "entryType" (tag entry) (
      with_field "receiptType" (tag receipt) (
        with_field "confirmationMode" (mode_json s.confirmation_mode) (
          field credits_key (num s.credits) (
            with_field "facilitatorVerify" s.facilitator_verify
              (with_field "facilitatorSettle" s.facilitator_settle rest))))))

usage_fields : OutboundUsage → Fields
usage_fields u = with_field "entryType" (debit_json u.entry_type) (
    with_field "usageType" (usage_json u.usage_type) (
      with_field "chargeStage" (tag "post_send") (
        field "creditsCharged" (num u.credits_charged) (
          field "messageId" (str u.message_id) (
            field "outboundJobId" (str u.outbound_job_id) (
              with_field "draftId" (text_json u.draft_id) (
                with_field "draftCreatedVia" (text_json u.draft_created_via) (
                  field "recipientDomains" (arr (from_texts u.recipient_domains))
                    (field "externalDomains" (arr (from_texts u.external_domains)) end)))))))))

-- `serializeCreditLedgerMetadata`, and what `JSON.parse(JSON.stringify(…))` makes of the object
unfoldable pub serialize_credit_ledger_metadata : CreditLedgerMetadata → Json
unfolding settlement_json usage_fields
serialize_credit_ledger_metadata (topup_settlement s) =
    settlement_json "topup" "topup" "creditsRequested" end s
serialize_credit_ledger_metadata (upgrade_credit_grant s) =
    settlement_json "adjustment" "upgrade" "creditsGranted"
      (with_field "targetPricingTier" (tag "paid_review") end) s
serialize_credit_ledger_metadata (outbound_usage u) = obj (usage_fields u)

-- `buildOutboundUsageLedgerMetadata`
unfoldable pub build_outbound_usage_ledger_metadata :
    Debit → ℤ → Text → Text → Option Text → Option Text → List Text → List Text → OutboundUsage
build_outbound_usage_ledger_metadata entry credits message job draft via domains external = record {
  entry_type = entry;
  usage_type = elim entry [ Debit.debit_reply ↦ reply | Debit.debit_send ↦ send ];
  credits_charged = credits;
  message_id = message;
  outbound_job_id = job;
  draft_id = draft;
  draft_created_via = via;
  recipient_domains = domains;
  external_domains = external;
}

infixl 5 ◌>>=◌
abbrev pub ◌>>=◌ : {A B : Type 0} → Option A → (A → Option B) → Option B
none >>= k = none
some a >>= k = k a

infixl 5 ◌>>◌
abbrev pub ◌>>◌ : {B : Type 0} → Bool → Option B → Option B
c >> k = if c then k else none

abbrev pub or_else : {A : Type 0} → Option A → Option A → Option A
or_else none b = b
or_else (some a) _ = some a

abbrev pub as_record : Option Json → Option Fields
as_record (some (obj fs)) = some fs
as_record _ = none

abbrev pub as_mode : Option Json → Option ConfirmationMode
as_mode v =
    if is_tag "manual_admin" v
    then some manual_admin
    else if is_tag "facilitator" v
    then some facilitator
    else none

abbrev as_usage : Option Json → Option UsageType
as_usage v = if is_tag "send" v then some send else if is_tag "reply" v then some reply else none

abbrev is_topup : CreditLedgerEntryType → Bool
is_topup topup = true
is_topup _ = Bool.false

abbrev is_adjustment : CreditLedgerEntryType → Bool
is_adjustment adjustment = true
is_adjustment _ = Bool.false

abbrev as_debit : CreditLedgerEntryType → Option Debit
as_debit CreditLedgerEntryType.debit_send = some Debit.debit_send
as_debit CreditLedgerEntryType.debit_reply = some Debit.debit_reply
as_debit _ = none

parse_settlement : String → String → String → Bool → Fields → Option Settlement
parse_settlement entry receipt credits_key extra m = do
  is_tag entry (property "entryType" m) && is_tag receipt (property "receiptType" m)
  mode ← as_mode (property "confirmationMode" m)
  credits ← as_number (property credits_key m)
  extra
  some (record {
    confirmation_mode = mode;
    credits = credits;
    facilitator_verify = property "facilitatorVerify" m;
    facilitator_settle = property "facilitatorSettle" m;
  })

parse_outbound_usage : CreditLedgerEntryType → Fields → Option OutboundUsage
parse_outbound_usage entry m = do
  debit ← as_debit entry
  is_tag (elim debit [ Debit.debit_send ↦ "debit_send" | Debit.debit_reply ↦ "debit_reply" ])
      (property "entryType" m)
  usage ← as_usage (property "usageType" m)
  is_tag "post_send" (property "chargeStage" m)
  credits ← as_number (property "creditsCharged" m)
  message ← as_text (property "messageId" m)
  job ← as_text (property "outboundJobId" m)
  domains ← as_array (property "recipientDomains" m)
  external ← as_array (property "externalDomains" m)
  some (record {
    entry_type = debit;
    usage_type = usage;
    credits_charged = credits;
    message_id = message;
    outbound_job_id = job;
    draft_id = as_text (property "draftId" m);
    draft_created_via = as_text (property "draftCreatedVia" m);
    recipient_domains = text_items domains;
    external_domains = text_items external;
  })

abbrev when_topup : CreditLedgerEntryType → Fields → Option CreditLedgerMetadata
unfolding parse_settlement
when_topup entry m = do
  is_topup entry
  s ← parse_settlement "topup" "topup" "creditsRequested" true m
  some (topup_settlement s)

abbrev when_upgrade : CreditLedgerEntryType → Fields → Option CreditLedgerMetadata
unfolding parse_settlement
when_upgrade entry m = do
  is_adjustment entry
  s ←
      parse_settlement "adjustment" "upgrade" "creditsGranted"
        (is_tag "paid_review" (property "targetPricingTier" m)) m
  some (upgrade_credit_grant s)

abbrev when_usage : CreditLedgerEntryType → Fields → Option CreditLedgerMetadata
unfolding parse_outbound_usage
when_usage entry m = do u ← parse_outbound_usage entry m; some (outbound_usage u)

-- `parseTypedCreditLedgerEntry`: the typed metadata of an entry of this type, if it has any
unfoldable pub parse_typed_credit_ledger_entry :
    CreditLedgerEntryType → Option Json → Option CreditLedgerMetadata
unfolding parse_settlement parse_outbound_usage
parse_typed_credit_ledger_entry entry metadata = do
  m ← as_record metadata
  or_else (when_topup entry m) (or_else (when_upgrade entry m) (when_usage entry m))
