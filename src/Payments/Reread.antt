-- ===== src/Payments/Reread.antt =====
-- What an update stores of a receipt's metadata is read back as that metadata.
use Prim.Native.String.{String}
use text.Mathlib.Text.{◌==◌ as same_key}
use mailagents_email_runtime.Base.{
  ◌≡◌, refl, ap, ◌∙◌, Bool, true, false, ◌||◌, Option, none, some, ◌∷◌, ◌++◌, is_some, arith,
}
use mailagents_email_runtime.Json.{Json, obj, Fields, property, as_number}
use mailagents_email_runtime.Base.Int.{ℤ}
use mailagents_email_runtime.Text.{Text}
use mailagents_email_runtime.World.{TenantOutboundStatus}
use mailagents_email_runtime.World.Receipts.{PaymentReceiptType}
use mailagents_email_runtime.LedgerMetadata.{
  ConfirmationMode, manual_admin, facilitator, text_json, as_mode,
}
use mailagents_email_runtime.Payments.Metadata.{
  PaymentProof, Purchase, topup, upgrade, ReceiptMetadata, as_string, as_outbound_status, is_zero,
  is_topup_quote, is_upgrade_quote, parse_stored_payment_proof, metadata_base, parse_topup,
  parse_upgrade, included_credits, parse_payment_receipt_metadata,
}
use mailagents_email_runtime.Payments.Receipts.{next_metadata, fields_or_end}
use mailagents_email_runtime.Payments.Stored.{
  optional_mode_json, number_json, status_json, payment_proof_json, purchase_properties,
  confirmation_properties, Properties, merge_properties, metadata_properties,
}
use mailagents_email_runtime.Payments.Merged.{last_value, property-merge_properties}

-- A text that is trimmed and not empty, or none.
abbrev pub IsPlain : Option Text → Type 0
IsPlain t = as_string (text_json t) ≡ t

abbrev pub IsProof : PaymentProof → Type 0
IsProof p = IsPlain p.raw × ((is_some p.raw || is_some p.parsed) ≡ true)

-- The credits and the quote are those of such a purchase.
abbrev pub IsQuoted : Purchase → Fields → Type 0
IsQuoted (topup c) q = (is_zero c ≡ false) × (is_topup_quote q ≡ true)
IsQuoted (upgrade c) q = is_upgrade_quote q ≡ true

abbrev pub IsStorable : ReceiptMetadata → Type 0
IsStorable m =
    IsQuoted m.purchase m.quote
    × IsProof m.payment_proof
    × IsPlain m.tenant_did
    × IsPlain m.credit_ledger_entry_id

abbrev pub type_of : Purchase → PaymentReceiptType
type_of (topup _) = PaymentReceiptType.topup
type_of (upgrade _) = PaymentReceiptType.upgrade

as_mode-json : (m : Option ConfirmationMode) → as_mode (optional_mode_json m) ≡ m
as_mode-json none = refl
as_mode-json (some manual_admin) = refl
as_mode-json (some facilitator) = refl

as_number-json : (n : Option ℤ) → as_number (number_json n) ≡ n
as_number-json none = refl
as_number-json (some n) = refl

as_outbound_status-json : (s : Option TenantOutboundStatus) → as_outbound_status (status_json s) ≡ s
as_outbound_status-json none = refl
as_outbound_status-json (some TenantOutboundStatus.internal_only) = refl
as_outbound_status-json (some TenantOutboundStatus.external_review) = refl
as_outbound_status-json (some TenantOutboundStatus.external_enabled) = refl
as_outbound_status-json (some TenantOutboundStatus.suspended) = refl

proof-json :
    (raw : Option Text) (parsed : Option Fields)
    → IsProof (record { raw = raw; parsed = parsed })
    → parse_stored_payment_proof (some (payment_proof_json (record { raw = raw; parsed = parsed })))
      ≡ some (record { raw = raw; parsed = parsed })
unfolding parse_stored_payment_proof payment_proof_json
proof-json none none h = cc
proof-json none (some fs) h = refl
proof-json (some t) none h = rw h.0 refl
proof-json (some t) (some fs) h = rw h.0 refl

-- the names that only one kind of purchase has, and the kind
abbrev is_of_purchase : String → Bool
is_of_purchase k =
    same_key "receiptType" k
    || same_key "creditsRequested" k
    || same_key "targetPricingTier" k
    || same_key "includedCredits" k

last_value-purchase :
    (k : String) (p : Purchase) (ps : Properties) (v : Option Json)
    → is_of_purchase k ≡ false
    → last_value k (purchase_properties p ++ ps) v ≡ last_value k ps v
unfolding purchase_properties
last_value-purchase k (topup c) ps v h = ground arith
last_value-purchase k (upgrade c) ps v h = ground arith

abbrev base_properties : ReceiptMetadata → Properties
base_properties m =
    ("tenantDid", text_json m.tenant_did)
    ∷ ("quote", some (obj m.quote))
    ∷ ("paymentProof", some (payment_proof_json m.payment_proof))
    ∷ confirmation_properties m

property-base :
    (k : String) (m : ReceiptMetadata) (fs : Fields)
    → is_of_purchase k ≡ false
    → property k (merge_properties fs (metadata_properties m))
      ≡ last_value k (base_properties m) (property k fs)
unfolding metadata_properties
property-base k m fs h =
    property-merge_properties k fs (metadata_properties m)
    ∙ last_value-purchase k m.purchase (base_properties m) (property k fs) h

-- What every receipt records is read back.
base-reread :
    (m : ReceiptMetadata) (fs : Fields)
    → IsPlain m.tenant_did
    → IsPlain m.credit_ledger_entry_id
    → metadata_base m.purchase m.quote m.payment_proof (merge_properties fs (metadata_properties m))
      ≡ m
unfolding metadata_base confirmation_properties
base-reread m fs t l =
    rw
      (
        property-base "tenantDid" m fs refl,
        property-base "confirmationMode" m fs refl,
        property-base "facilitatorVerify" m fs refl,
        property-base "facilitatorSettle" m fs refl,
        property-base "facilitatorStatusCode" m fs refl,
        property-base "creditLedgerEntryId" m fs refl,
        property-base "sendPolicyStatus" m fs refl,
        t,
        l,
        as_mode-json m.confirmation_mode,
        as_number-json m.facilitator_status_code,
        as_outbound_status-json m.send_policy_status,
      )
      refl

reread :
    (p : Purchase) (m : ReceiptMetadata) (fs : Fields)
    → IsStorable (record m { purchase = p })
    → parse_payment_receipt_metadata
        (type_of p)
        (some (obj (merge_properties fs (metadata_properties (record m { purchase = p })))))
      ≡ some (record m { purchase = p })
unfolding parse_payment_receipt_metadata parse_topup parse_upgrade included_credits
    metadata_properties purchase_properties
reread (topup c) m fs ((z, q), proof, t, l) =
    let n : ReceiptMetadata = record m { purchase = topup c } in
    rw
      (
        property-base "paymentProof" n fs refl,
        proof-json m.payment_proof.raw m.payment_proof.parsed proof,
        property-merge_properties "creditsRequested" fs (metadata_properties n),
        property-base "quote" n fs refl,
        z,
        q,
      )
      (ap some (base-reread n fs t l))
reread (upgrade c) m fs (q, proof, t, l) =
    let n : ReceiptMetadata = record m { purchase = upgrade c } in
    rw
      (
        property-base "paymentProof" n fs refl,
        proof-json m.payment_proof.raw m.payment_proof.parsed proof,
        property-merge_properties "targetPricingTier" fs (metadata_properties n),
        property-base "quote" n fs refl,
        q,
        property-merge_properties "includedCredits" fs (metadata_properties n),
      )
      (ap some (base-reread n fs t l))

-- What an update of a receipt stores, whatever was stored before, is read back as the metadata that
-- the update gives, where the texts of the metadata are trimmed and not empty, it has a proof, and
-- its credits and quote are those of its purchase.
pub parse-next_metadata :
    (m : ReceiptMetadata) (existing : Option Fields)
    → IsStorable m
    → parse_payment_receipt_metadata
        (type_of m.purchase)
        (next_metadata (some (metadata_properties m)) existing)
      ≡ some m
unfolding next_metadata
parse-next_metadata m existing h = reread m.purchase m (fields_or_end existing) h
