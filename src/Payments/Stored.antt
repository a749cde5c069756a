-- ===== src/Payments/Stored.antt =====
-- What receipt-metadata.ts writes and answers of the metadata of a receipt: the object that is
-- stored, its confirmation, and the requirements and the payload of the payment.
use Prim.Native.String.{String}
use text.Mathlib.Text.{◌==◌ as same_key}
use mailagents_email_runtime.Base.{
  Bool, true, false, not, ◌&&◌, Option, none, some, List, [], ◌∷◌, ◌++◌, if◌then◌else◌, is_some,
  is_empty, ◌==◌,
}
use mailagents_email_runtime.Base.Int.{ℤ, pos}
use mailagents_email_runtime.Text.{Text}
use mailagents_email_runtime.Json.{
  Json, null, bool, num, str, obj, cons, Items, Fields, end, field, property, as_text, as_number,
  as_array,
}
use mailagents_email_runtime.World.{TenantOutboundStatus}
use mailagents_email_runtime.LedgerMetadata.{
  ConfirmationMode, tag, mode_json, text_json, with_field, as_record,
}
use mailagents_email_runtime.Billing.{chosen}
use mailagents_email_runtime.Payments.Metadata.{
  ReceiptMetadata, PaymentProof, Purchase, topup, upgrade,
}

abbrev pub record_json : Option Fields → Option Json
record_json none = none
record_json (some fs) = some (obj fs)

abbrev pub number_json : Option ℤ → Option Json
number_json none = none
number_json (some n) = some (num n)

abbrev pub optional_mode_json : Option ConfirmationMode → Option Json
optional_mode_json none = none
optional_mode_json (some m) = mode_json m

abbrev pub status_json : Option TenantOutboundStatus → Option Json
status_json none = none
status_json (some TenantOutboundStatus.internal_only) = tag "internal_only"
status_json (some TenantOutboundStatus.external_review) = tag "external_review"
status_json (some TenantOutboundStatus.external_enabled) = tag "external_enabled"
status_json (some TenantOutboundStatus.suspended) = tag "suspended"

-- The own properties of an object of the code; some may hold `undefined`.
abbrev pub Properties : Type 0
Properties = List (String × Option Json)

unfoldable pub remove_property : String → Fields → Fields
remove_property k end = end
remove_property k (field j v fs) =
    let rest = remove_property k fs in if same_key j k then rest else field j v rest

-- `{ ...fs, [k]: v }`, as `JSON.stringify` stores it
unfoldable pub set_property : String → Option Json → Fields → Fields
unfolding remove_property
set_property k v fs = with_field k v (remove_property k fs)

-- `{ ...fs, ...properties }`
unfoldable pub merge_properties : Fields → Properties → Fields
unfolding set_property
merge_properties fs [] = fs
merge_properties fs ((k, v) ∷ ps) = set_property k v (merge_properties fs ps)

unfoldable pub payment_proof_json : PaymentProof → Json
payment_proof_json p =
    obj (with_field "raw" (text_json p.raw) (with_field "parsed" (record_json p.parsed) end))

unfoldable pub purchase_properties : Purchase → Properties
purchase_properties (topup credits) =
    ("receiptType", tag "topup") ∷ ("creditsRequested", some (num credits)) ∷ []
purchase_properties (upgrade credits) =
    ("receiptType", tag "upgrade")
    ∷ ("targetPricingTier", tag "paid_review")
    ∷ ("includedCredits", some (num credits))
    ∷ []

unfoldable pub confirmation_properties : ReceiptMetadata → Properties
confirmation_properties m =
    ("confirmationMode", optional_mode_json m.confirmation_mode)
    ∷ ("facilitatorVerify", m.facilitator_verify)
    ∷ ("facilitatorSettle", m.facilitator_settle)
    ∷ ("facilitatorStatusCode", number_json m.facilitator_status_code)
    ∷ ("creditLedgerEntryId", text_json m.credit_ledger_entry_id)
    ∷ ("sendPolicyStatus", status_json m.send_policy_status)
    ∷ []

unfoldable pub metadata_properties : ReceiptMetadata → Properties
unfolding payment_proof_json purchase_properties confirmation_properties
metadata_properties m =
    purchase_properties m.purchase
    ++ (("tenantDid", text_json m.tenant_did)
        ∷ ("quote", some (obj m.quote))
        ∷ ("paymentProof", some (payment_proof_json m.payment_proof))
        ∷ confirmation_properties m)

-- the second argument of `withReceiptConfirmation`
pub record Confirmation : Type 0 where
  pub mode : ConfirmationMode
  pub status_code : Option ℤ
  pub verify : Option Json
  pub settle : Option Json
  pub credit_ledger_entry_id : Option Text
  pub send_policy_status : Option TenantOutboundStatus

unfoldable pub with_receipt_confirmation : ReceiptMetadata → Confirmation → ReceiptMetadata
with_receipt_confirmation m c = record m {
  confirmation_mode = some c.mode;
  facilitator_status_code = chosen c.status_code m.facilitator_status_code;
  facilitator_verify = chosen c.verify m.facilitator_verify;
  facilitator_settle = chosen c.settle m.facilitator_settle;
  credit_ledger_entry_id = chosen c.credit_ledger_entry_id m.credit_ledger_entry_id;
  send_policy_status = chosen c.send_policy_status m.send_policy_status;
}

-- `v ?? w`
abbrev pub or_nullish : Option Json → Option Json → Option Json
or_nullish none w = w
or_nullish (some null) w = w
or_nullish v w = v

-- Whether a value counts as true in a test.
abbrev pub is_truthy : Option Json → Bool
is_truthy none = false
is_truthy (some null) = false
is_truthy (some (bool b)) = b
is_truthy (some (num (pos n))) = not (n == 0)
is_truthy (some (str s)) = not (is_empty s)
is_truthy v = true

abbrev first_item : Option Items → Option Json
first_item (some (cons v _)) = some v
first_item _ = none

abbrev is_requirement : Fields → Bool
is_requirement r =
    is_some (as_text (property "scheme" r))
    && is_some (as_text (property "network" r))
    && is_some (as_text (property "asset" r))
    && is_some (as_text (property "amount" r))
    && is_some (as_text (property "payTo" r))
    && is_some (as_number (property "maxTimeoutSeconds" r))

abbrev accepted_requirement : Option Fields → Option Json
accepted_requirement none = none
accepted_requirement (some r) = if is_requirement r then some (obj r) else none

abbrev accepts_of : Option Fields → Option Items
accepts_of none = none
accepts_of (some fs) = as_array (property "accepts" fs)

-- `getPaymentRequirementsFromRequired`
unfoldable pub get_payment_requirements_from_required : Option Json → Option Json
get_payment_requirements_from_required v =
    accepted_requirement (as_record (first_item (accepts_of (as_record v))))

unfoldable pub get_receipt_payment_requirements : ReceiptMetadata → Option Json
unfolding get_payment_requirements_from_required
get_receipt_payment_requirements m =
    or_nullish (property "paymentRequirements" m.quote)
      (get_payment_requirements_from_required (property "paymentRequired" m.quote))

abbrev payload_of : Option Fields → Option Text → Option Json
payload_of (some fs) raw = some (obj fs)
payload_of none raw = text_json raw

unfoldable pub get_receipt_payment_payload : ReceiptMetadata → Option Json
get_receipt_payment_payload m = payload_of m.payment_proof.parsed m.payment_proof.raw
