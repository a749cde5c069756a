-- ===== src/Payments/Metadata.antt =====
-- src/lib/payments/receipt-metadata.ts: what a payment receipt records, written to and read from
-- JSON. A quote is kept as the object that it is stored as.
use Prim.Native.String.{String}
use mailagents_email_runtime.Base.{
  Bool, true, false, not, ◌&&◌, ◌||◌, Option, none, some, if◌then◌else◌, is_some, is_empty, ◌==◌,
  get_or,
}
use mailagents_email_runtime.Base.Int.{ℤ, pos, negsuc}
use mailagents_email_runtime.Text.{Text, trim}
use mailagents_email_runtime.Json.{Json, str, Fields, property, is_tag, as_text, as_number}
use mailagents_email_runtime.World.{TenantOutboundStatus}
use mailagents_email_runtime.World.Receipts.{PaymentReceiptType}
use mailagents_email_runtime.LedgerMetadata.{
  ConfirmationMode, as_record, as_mode, or_else, ◌>>=◌, ◌>>◌,
}

-- `StoredX402PaymentProof`
pub record PaymentProof : Type 0 where
  pub raw : Option Text
  pub parsed : Option Fields

-- what tells `TopupReceiptMetadata` from `UpgradeReceiptMetadata`: the credits requested, and the
-- credits included; the tier of an upgrade is always "paid_review"
pub data Purchase : Type 0 where
  topup upgrade : ℤ → Purchase

pub record ReceiptMetadata : Type 0 where
  pub purchase : Purchase
  pub tenant_did : Option Text
  pub quote : Fields
  pub payment_proof : PaymentProof
  pub confirmation_mode : Option ConfirmationMode
  pub facilitator_verify : Option Json
  pub facilitator_settle : Option Json
  pub facilitator_status_code : Option ℤ
  pub credit_ledger_entry_id : Option Text
  pub send_policy_status : Option TenantOutboundStatus

-- `asString`: what is left of a text when it is trimmed, if anything
unfoldable pub as_string : Option Json → Option Text
unfolding trim
as_string (some (str s)) = let t = trim s in if is_empty t then none else some t
as_string _ = none

-- `asOutboundStatus`
abbrev pub as_outbound_status : Option Json → Option TenantOutboundStatus
as_outbound_status v =
    if is_tag "internal_only" v
    then some TenantOutboundStatus.internal_only
    else if is_tag "external_review" v
    then some TenantOutboundStatus.external_review
    else if is_tag "external_enabled" v
    then some TenantOutboundStatus.external_enabled
    else if is_tag "suspended" v
    then some TenantOutboundStatus.suspended
    else none

abbrev proof_of : Option Text → Option Fields → Option PaymentProof
proof_of none none = none
proof_of raw parsed = some (record { raw = raw; parsed = parsed })

-- `parseStoredPaymentProof`
unfoldable pub parse_stored_payment_proof : Option Json → Option PaymentProof
unfolding as_string
parse_stored_payment_proof v = do
  fs ← as_record v
  proof_of (as_string (property "raw" fs)) (as_record (property "parsed" fs))

abbrev has_text : String → Fields → Bool
has_text k fs = is_some (as_text (property k fs))

abbrev has_number : String → Fields → Bool
has_number k fs = is_some (as_number (property k fs))

abbrev has_record : String → Fields → Bool
has_record k fs = is_some (as_record (property k fs))

-- `typeof value === "string" || typeof value === "undefined"`
abbrev is_text_or_undefined : Option Json → Bool
is_text_or_undefined none = true
is_text_or_undefined v = is_some (as_text v)

-- both kinds of quote: `hasModernRequirements || hasLegacyRequirements`
abbrev has_requirements : Fields → Bool
has_requirements q =
    (has_record "paymentRequirements" q && has_record "paymentRequired" q)
    || has_record "paymentRequired" q

abbrev is_priced_quote : Fields → Bool
is_priced_quote q =
    has_text "amountUsd" q
    && has_text "amountAtomic" q
    && has_text "description" q
    && is_text_or_undefined (property "assetSymbol" q)
    && has_requirements q

unfoldable pub is_topup_quote : Fields → Bool
is_topup_quote q =
    has_text "scheme" q
    && has_text "network" q
    && has_text "asset" q
    && has_number "credits" q
    && is_priced_quote q

unfoldable pub is_upgrade_quote : Fields → Bool
is_upgrade_quote q =
    has_text "scheme" q
    && has_text "network" q
    && has_text "asset" q
    && is_tag "paid_review" (property "targetPricingTier" q)
    && (has_number "includedCredits" q || not (is_some (property "includedCredits" q)))
    && is_priced_quote q

abbrev pub is_zero : ℤ → Bool
is_zero (pos n) = n == 0
is_zero (negsuc _) = false

-- What `parseMetadataBase` reads, about a purchase.
unfoldable pub metadata_base : Purchase → Fields → PaymentProof → Fields → ReceiptMetadata
unfolding as_string
metadata_base purchase quote proof m = record {
  purchase = purchase;
  tenant_did = as_string (property "tenantDid" m);
  quote = quote;
  payment_proof = proof;
  confirmation_mode = as_mode (property "confirmationMode" m);
  facilitator_verify = property "facilitatorVerify" m;
  facilitator_settle = property "facilitatorSettle" m;
  facilitator_status_code = as_number (property "facilitatorStatusCode" m);
  credit_ledger_entry_id = as_string (property "creditLedgerEntryId" m);
  send_policy_status = as_outbound_status (property "sendPolicyStatus" m);
}

unfoldable pub parse_topup : Fields → PaymentProof → Option ReceiptMetadata
unfolding is_topup_quote metadata_base
parse_topup m proof = do
  credits ← as_number (property "creditsRequested" m)
  not (is_zero credits)
  quote ← as_record (property "quote" m)
  is_topup_quote quote
  some (metadata_base (topup credits) quote proof m)

-- the credits in the metadata, or else in the quote, or else none
unfoldable pub included_credits : Fields → Fields → ℤ
included_credits m quote =
    get_or
      (or_else (as_number (property "includedCredits" m))
        (as_number (property "includedCredits" quote)))
      (pos 0)

unfoldable pub parse_upgrade : Fields → PaymentProof → Option ReceiptMetadata
unfolding is_upgrade_quote metadata_base included_credits
parse_upgrade m proof = do
  is_tag "paid_review" (property "targetPricingTier" m)
  quote ← as_record (property "quote" m)
  is_upgrade_quote quote
  some (metadata_base (upgrade (included_credits m quote)) quote proof m)

unfoldable pub parse_payment_receipt_metadata :
    PaymentReceiptType → Option Json → Option ReceiptMetadata
unfolding parse_stored_payment_proof parse_topup parse_upgrade
parse_payment_receipt_metadata PaymentReceiptType.topup v = do
  m ← as_record v
  proof ← parse_stored_payment_proof (property "paymentProof" m)
  parse_topup m proof
parse_payment_receipt_metadata PaymentReceiptType.upgrade v = do
  m ← as_record v
  proof ← parse_stored_payment_proof (property "paymentProof" m)
  parse_upgrade m proof
parse_payment_receipt_metadata _ v = none
