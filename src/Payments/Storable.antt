-- ===== src/Payments/Storable.antt =====
-- Metadata that were read from a receipt can be stored, with a confirmation, and read again.
use mailagents_email_runtime.Base.{
  ◌≡◌, refl, sym, subst, Bool, true, false, Option, none, some, inl, inr, Bool-cases, arith,
  is_empty, not,
}
use mailagents_email_runtime.Text.{Text, trim}
use mailagents_email_runtime.Text.Trim.{trim-trim}
use mailagents_email_runtime.Json.{
  Json, str, obj, Fields, property, null, bool, num, arr, is_tag, as_number,
}
use mailagents_email_runtime.World.Receipts.{PaymentReceiptType}
use mailagents_email_runtime.LedgerMetadata.{as_record, ◌>>=◌, ◌>>◌}
use mailagents_email_runtime.Billing.{chosen}
use mailagents_email_runtime.Payments.Metadata.{
  PaymentProof, Purchase, topup, upgrade, ReceiptMetadata, as_string, is_topup_quote,
  is_upgrade_quote, parse_stored_payment_proof, metadata_base, parse_topup, parse_upgrade, is_zero,
  included_credits, parse_payment_receipt_metadata,
}
use mailagents_email_runtime.Payments.Stored.{
  Confirmation, with_receipt_confirmation, metadata_properties,
}
use mailagents_email_runtime.Payments.Receipts.{next_metadata}
use mailagents_email_runtime.Payments.Reread.{
  IsPlain, IsProof, IsQuoted, IsStorable, type_of, parse-next_metadata,
}

as_string-IsPlain : (v : Option Json) → IsPlain (as_string v)
unfolding as_string
as_string-IsPlain none = refl
as_string-IsPlain (some (str s)) = elim (Bool-cases (is_empty (trim s))) [
  | inl e ↦ rw e refl
  | inr e ↦ rw (e, trim-trim s, e) refl
]
as_string-IsPlain (some (obj _)) = refl
as_string-IsPlain (some null) = refl
as_string-IsPlain (some (bool _)) = refl
as_string-IsPlain (some (num _)) = refl
as_string-IsPlain (some (arr _)) = refl

parsed-IsProof :
    (v : Option Json) (p : PaymentProof) → parse_stored_payment_proof v ≡ some p → IsProof p
unfolding parse_stored_payment_proof
parsed-IsProof none p h = cc
parsed-IsProof (some (obj fs)) p h = ground (arith, as_string-IsPlain (property "raw" fs))
parsed-IsProof (some null) p h = cc
parsed-IsProof (some (bool _)) p h = cc
parsed-IsProof (some (num _)) p h = cc
parsed-IsProof (some (str _)) p h = cc
parsed-IsProof (some (arr _)) p h = cc

-- What holds of the metadata that are read about a purchase and a proof.
abbrev IsParsed : PaymentReceiptType → PaymentProof → ReceiptMetadata → Type 0
IsParsed t p m =
    (type_of m.purchase ≡ t)
    × IsQuoted m.purchase m.quote
    × (m.payment_proof ≡ p)
    × IsPlain m.tenant_did
    × IsPlain m.credit_ledger_entry_id

abbrev IsParsedOption : PaymentReceiptType → PaymentProof → Option ReceiptMetadata → Type 0
IsParsedOption t p none = Unit
IsParsedOption t p (some m) = IsParsed t p m

-- What the code takes apart on the way to a result is there.
some-bind :
    {A B : Type 0} (o : Option A) (k : A → Option B) (b : B)
    → (o >>= k) ≡ some b
    → (a : A) × (o ≡ some a) × (k a ≡ some b)
some-bind none k b h = cc
some-bind (some a) k b h = (a, refl, h)

some-guard :
    {B : Type 0} (c : Bool) (o : Option B) (b : B) → (c >> o) ≡ some b → (c ≡ true) × (o ≡ some b)
some-guard true o b h = (refl, h)
some-guard false o b h = cc

base-IsParsed :
    (t : PaymentReceiptType) (purchase : Purchase) (q : Fields) (p : PaymentProof) (fs : Fields)
    (m : ReceiptMetadata)
    → type_of purchase ≡ t
    → IsQuoted purchase q
    → some (metadata_base purchase q p fs) ≡ some m
    → IsParsed t p m
unfolding metadata_base
base-IsParsed t purchase q p fs m type quoted h =
    subst (λ o. IsParsedOption t p o) h
      (
        type,
        quoted,
        refl,
        as_string-IsPlain (property "tenantDid" fs),
        as_string-IsPlain (property "creditLedgerEntryId" fs),
      )

eq_of_not : (b : Bool) → not b ≡ true → b ≡ false
eq_of_not b h = ground arith

parse_topup-IsParsed :
    (fs : Fields) (p : PaymentProof) (m : ReceiptMetadata)
    → parse_topup fs p ≡ some m
    → IsParsed PaymentReceiptType.topup p m
unfolding parse_topup
parse_topup-IsParsed fs p m h =
    let (c, _, h1) = some-bind (as_number (property "creditsRequested" fs)) _ m h in
    let (z, h2) = some-guard (not (is_zero c)) _ m h1 in
    let (q, _, h3) = some-bind (as_record (property "quote" fs)) _ m h2 in
    let (ok, h4) = some-guard (is_topup_quote q) _ m h3 in
    base-IsParsed PaymentReceiptType.topup (topup c) q p fs m refl (eq_of_not (is_zero c) z, ok) h4

parse_upgrade-IsParsed :
    (fs : Fields) (p : PaymentProof) (m : ReceiptMetadata)
    → parse_upgrade fs p ≡ some m
    → IsParsed PaymentReceiptType.upgrade p m
unfolding parse_upgrade
parse_upgrade-IsParsed fs p m h =
    let (_, h1) = some-guard (is_tag "paid_review" (property "targetPricingTier" fs)) _ m h in
    let (q, _, h2) = some-bind (as_record (property "quote" fs)) _ m h1 in
    let (ok, h3) = some-guard (is_upgrade_quote q) _ m h2 in
    base-IsParsed PaymentReceiptType.upgrade (upgrade (included_credits fs q)) q p fs m refl ok h3

-- Metadata that are read can be stored.
parsed-IsStorable :
    (t : PaymentReceiptType) (p : PaymentProof) (m : ReceiptMetadata)
    → IsProof p
    → IsParsed t p m
    → (type_of m.purchase ≡ t) × IsStorable m
parsed-IsStorable t p m proof (type, quoted, same, tenant, entry) =
    (type, (quoted, subst IsProof (sym same) proof, tenant, entry))

with_proof-IsStorable :
    (t : PaymentReceiptType) (fs : Fields) (m : ReceiptMetadata)
    (rest : PaymentProof → Option ReceiptMetadata)
    → ((p : PaymentProof) → rest p ≡ some m → IsParsed t p m)
    → (parse_stored_payment_proof (property "paymentProof" fs) >>= rest) ≡ some m
    → (type_of m.purchase ≡ t) × IsStorable m
with_proof-IsStorable t fs m rest parsed h =
    let (p, found, h1) =
      some-bind (parse_stored_payment_proof (property "paymentProof" fs)) rest m h in
    parsed-IsStorable t p m (parsed-IsProof (property "paymentProof" fs) p found) (parsed p h1)

parse-IsStorable :
    (t : PaymentReceiptType) (v : Option Json) (m : ReceiptMetadata)
    → parse_payment_receipt_metadata t v ≡ some m
    → (type_of m.purchase ≡ t) × IsStorable m
unfolding parse_payment_receipt_metadata
parse-IsStorable PaymentReceiptType.topup v m h =
    let (fs, _, h1) = some-bind (as_record v) _ m h in
    with_proof-IsStorable PaymentReceiptType.topup fs m (parse_topup fs)
      (λ p. parse_topup-IsParsed fs p m) h1
parse-IsStorable PaymentReceiptType.upgrade v m h =
    let (fs, _, h1) = some-bind (as_record v) _ m h in
    with_proof-IsStorable PaymentReceiptType.upgrade fs m (parse_upgrade fs)
      (λ p. parse_upgrade-IsParsed fs p m) h1
parse-IsStorable PaymentReceiptType.refund v m h = cc
parse-IsStorable PaymentReceiptType.adjustment v m h = cc

chosen-IsPlain : (s t : Option Text) → IsPlain s → IsPlain t → IsPlain (chosen s t)
chosen-IsPlain none t h i = i
chosen-IsPlain (some s) t h i = h

-- A confirmation of metadata that were read from a receipt is stored so that it is read back as it
-- is, whatever was stored meanwhile, where the entry that it names is trimmed and not empty.
pub parse-with_receipt_confirmation :
    (t : PaymentReceiptType) (v : Option Json) (m : ReceiptMetadata) (c : Confirmation)
    (existing : Option Fields)
    → parse_payment_receipt_metadata t v ≡ some m
    → IsPlain c.credit_ledger_entry_id
    → parse_payment_receipt_metadata t
        (next_metadata (some (metadata_properties (with_receipt_confirmation m c))) existing)
      ≡ some (with_receipt_confirmation m c)
unfolding with_receipt_confirmation
parse-with_receipt_confirmation t v m c existing h plain =
    let (type, (quoted, proof, tenant, entry)) = parse-IsStorable t v m h in
    let n : ReceiptMetadata = with_receipt_confirmation m c in
    subst
      (λ u.
        parse_payment_receipt_metadata u (next_metadata (some (metadata_properties n)) existing)
        ≡ some n)
      type
      (parse-next_metadata n existing (
        quoted,
        proof,
        tenant,
        chosen-IsPlain c.credit_ledger_entry_id m.credit_ledger_entry_id plain entry,
      ))
