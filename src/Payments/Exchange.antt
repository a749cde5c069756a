-- ===== src/Payments/Exchange.antt =====
-- src/lib/payments/x402-facilitator.ts: the answers of the payment facilitator, as the code reads,
-- stores and reads them back. The exchange with the facilitator itself is an argument.
use Prim.Native.String.{String}
use mailagents_email_runtime.Base.{
  ℕ, zero, suc, ◌+◌, ◌/◌, ◌%◌, Bool, ◌&&◌, Option, none, some, List, [], ◌∷◌, ◌++◌, if◌then◌else◌,
  leb, ltb,
}
use mailagents_email_runtime.Text.{Text, codes}
use mailagents_email_runtime.Json.{Json, bool, obj, str, Fields, end, field, property}
use mailagents_email_runtime.World.{Action}
use mailagents_email_runtime.LedgerMetadata.{tag, text_json, with_field, or_else}
use mailagents_email_runtime.Payments.Metadata.{as_string}
use mailagents_email_runtime.Payments.Stored.{record_json}

-- what `postToFacilitator` gives
pub record Answer : Type 0 where
  pub status : ℕ
  pub content : Option Fields

-- A post of a payload and its requirements under an idempotency key, to the two paths of the
-- facilitator; and the key that stands for a text among the keys of the tables.
pub record Facilitator : Type 0 where
  pub post_verify : Json → Json → ℕ → Action Answer
  pub post_settle : Json → Json → ℕ → Action Answer
  pub key_of : Text → ℕ

-- `X402FacilitatorVerificationResponse`, the failure where it is not valid
pub record Verification : Type 0 where
  pub is_valid : Bool
  pub scheme : Option Json
  pub network : Option Json
  pub error : Option Text
  pub asset : Option Json
  pub resource : Option Json
  pub payment_reference : Option Text
  pub raw : Option Fields

-- `X402FacilitatorSettlementResponse`
pub record Settling : Type 0 where
  pub settled : Bool
  pub scheme : Option Json
  pub network : Option Json
  pub error : Option Text
  pub asset : Option Json
  pub amount : Option Json
  pub transaction_hash : Option Text
  pub settlement_reference : Option Text
  pub raw : Option Fields

unfoldable pub verification_json : Verification → Json
verification_json v = obj (
    with_field "type" (tag "verify") (
      field "isValid" (bool v.is_valid) (
        with_field "scheme" v.scheme (
          with_field "network" v.network (
            with_field "error" (text_json v.error) (
              with_field "asset" v.asset (
                with_field "resource" v.resource (
                  with_field "paymentReference" (text_json v.payment_reference)
                    (with_field "raw" (record_json v.raw) end)))))))))

unfoldable pub settling_json : Settling → Json
settling_json s = obj (
    with_field "type" (tag "settle") (
      field "settled" (bool s.settled) (
        with_field "scheme" s.scheme (
          with_field "network" s.network (
            with_field "error" (text_json s.error) (
              with_field "asset" s.asset (
                with_field "amount" s.amount (
                  with_field "transactionHash" (text_json s.transaction_hash) (
                    with_field "settlementReference" (text_json s.settlement_reference)
                      (with_field "raw" (record_json s.raw) end))))))))))

abbrev of_content : String → Option Fields → Option Json
of_content k none = none
of_content k (some fs) = property k fs

-- `paymentRequirements.key`
abbrev of_requirements : String → Json → Option Json
of_requirements k (obj fs) = property k fs
of_requirements k _ = none

-- the first key that holds a text, as `extractErrorMessage` and `extractReference` look it up
unfoldable pub extract : Option Fields → List String → Option Text
unfolding as_string
extract content [] = none
extract content (k ∷ ks) = or_else (as_string (of_content k content)) (extract content ks)

abbrev text_or : Option Text → Option Json → Option Json
text_or (some t) v = some (str t)
text_or none v = v

abbrev is_success : ℕ → Bool
is_success status = leb 200 status && ltb status 300

-- the first key that holds a Boolean, or else whether the status is a success
unfoldable pub parse_decision : Option Fields → ℕ → List String → Bool
parse_decision content status [] = is_success status
parse_decision content status (k ∷ ks) =
    let rest = parse_decision content status ks in
    elim (of_content k content) [ some v ↦ elim v [ bool b ↦ b | _ ↦ rest ] | none ↦ rest ]

unfoldable pub parse_verify_decision : Option Fields → ℕ → Bool
unfolding parse_decision
parse_verify_decision content status =
    parse_decision content status ("isValid" ∷ "valid" ∷ "verified" ∷ "success" ∷ [])

unfoldable pub parse_settle_decision : Option Fields → ℕ → Bool
unfolding parse_decision
parse_settle_decision content status = parse_decision content status ("settled" ∷ "success" ∷ [])

-- a number in decimal digits, of which it has at most the first argument
decimal : ℕ → ℕ → Text
decimal zero n = []
decimal (suc f) n =
    let front = decimal f (n / 10) in (if ltb n 10 then [] else front) ++ ((48 + n % 10) ∷ [])

error_keys : List String
error_keys =
    "error" ∷ "message" ∷ "reason" ∷ "errorReason" ∷ "invalidMessage" ∷ "invalidReason" ∷ []

error_of : String → Answer → Option Text
unfolding extract error_keys decimal
error_of prefix a =
    or_else (extract a.content error_keys) (some (codes prefix ++ decimal (suc a.status) a.status))

unfoldable pub normalize_verification_response : Json → Answer → Verification
unfolding extract parse_verify_decision error_of as_string
normalize_verification_response requirements a =
    let reference = extract a.content ("paymentReference" ∷ "paymentId" ∷ "reference" ∷ []) in
    let read = λ (k : String). as_string (of_content k a.content) in
    let valid = parse_verify_decision a.content a.status in
    let when_valid = λ (v : Option Json). if valid then v else none in
    record {
      is_valid = valid;
      scheme = text_or (read "scheme") (of_requirements "scheme" requirements);
      network = text_or (read "network") (of_requirements "network" requirements);
      error = if valid then none else error_of "Facilitator verification failed with status " a;
      asset = when_valid (text_or (read "asset") (of_requirements "asset" requirements));
      resource = when_valid (text_or (read "resource") (of_requirements "resource" requirements));
      payment_reference = reference;
      raw = a.content;
    }

abbrev hash_keys : List String
hash_keys = "transactionHash" ∷ "transaction" ∷ "txHash" ∷ "signature" ∷ []

unfoldable pub normalize_settlement_response : Json → Answer → Settling
unfolding extract parse_settle_decision error_of as_string
normalize_settlement_response requirements a =
    let reference =
      extract a.content ("settlementReference" ∷ hash_keys ++ ("reference" ∷ "id" ∷ [])) in
    let read = λ (k : String). as_string (of_content k a.content) in
    let done = parse_settle_decision a.content a.status in
    let when_done = λ (v : Option Json). if done then v else none in
    record {
      settled = done;
      scheme = text_or (read "scheme") (of_requirements "scheme" requirements);
      network = text_or (read "network") (of_requirements "network" requirements);
      error = if done then none else error_of "Facilitator settlement failed with status " a;
      asset = when_done (text_or (read "asset") (of_requirements "asset" requirements));
      amount = when_done (text_or (read "amount") (of_requirements "amount" requirements));
      transaction_hash = if done then extract a.content hash_keys else none;
      settlement_reference = reference;
      raw = a.content;
    }
