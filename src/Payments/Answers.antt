-- ===== src/Payments/Answers.antt =====
-- The answers of the facilitator as they are read back from a receipt, and the two calls of
-- src/lib/payments/x402-facilitator.ts. The local mock of the facilitator is left out.
use mailagents_email_runtime.Base.{ℕ, Bool, true, false, Option, none, some, is_some, if◌then◌else◌}
use mailagents_email_runtime.Json.{Json, bool, str, Fields, property, is_tag, as_text}
use mailagents_email_runtime.World.{Action, ◌>>=◌, pure}
use mailagents_email_runtime.LedgerMetadata.{text_json, as_record}
use mailagents_email_runtime.Payments.Metadata.{as_string}
use mailagents_email_runtime.Payments.Exchange.{
  Facilitator, Verification, Settling, normalize_verification_response,
  normalize_settlement_response,
}

abbrev text_of : Option Json → Option Json
text_of (some (str s)) = some (str s)
text_of _ = none

-- A stored failure is read back with its error only.
abbrev stored_verification : Bool → Fields → Option Verification
unfolding as_string
stored_verification true m = some (record {
  is_valid = true;
  scheme = property "scheme" m;
  network = property "network" m;
  error = none;
  asset = text_json (as_string (property "asset" m));
  resource = text_json (as_string (property "resource" m));
  payment_reference = as_string (property "paymentReference" m);
  raw = as_record (property "raw" m);
})
stored_verification false m = elim (as_string (property "error" m)) [
  | none ↦ none
  | some e ↦ some (record {
    is_valid = false;
    scheme = property "scheme" m;
    network = property "network" m;
    error = some e;
    asset = none;
    resource = none;
    payment_reference = as_string (property "paymentReference" m);
    raw = as_record (property "raw" m);
  })
]

abbrev stored_settling : Bool → Fields → Option Settling
unfolding as_string
stored_settling true m = some (record {
  settled = true;
  scheme = property "scheme" m;
  network = property "network" m;
  error = none;
  asset = text_json (as_string (property "asset" m));
  amount = text_json (as_string (property "amount" m));
  transaction_hash = as_string (property "transactionHash" m);
  settlement_reference = as_string (property "settlementReference" m);
  raw = as_record (property "raw" m);
})
stored_settling false m = elim (as_string (property "error" m)) [
  | none ↦ none
  | some e ↦ some (record {
    settled = false;
    scheme = property "scheme" m;
    network = property "network" m;
    error = some e;
    asset = none;
    amount = none;
    transaction_hash = none;
    settlement_reference = as_string (property "settlementReference" m);
    raw = as_record (property "raw" m);
  })
]

-- `typeof data.scheme === "string" && typeof data.network === "string"`
abbrev has_scheme : Fields → Bool
has_scheme m =
    if is_some (as_text (property "scheme" m))
    then is_some (as_text (property "network" m))
    else false

abbrev stored_answer :
    {A : Type 0} → Fields → Bool → Option Json → (Bool → Fields → Option A) → Option A
stored_answer m true (some (bool b)) read = if has_scheme m then read b m else none
stored_answer m _ _ read = none

abbrev stored_of : {A : Type 0} → Option Fields → (Fields → Option A) → Option A
stored_of none read = none
stored_of (some m) read = read m

unfoldable pub parse_stored_x402_verification_response : Option Json → Option Verification
unfolding as_string
parse_stored_x402_verification_response v = stored_of (as_record v) (λ m.
    stored_answer m (is_tag "verify" (property "type" m)) (property "isValid" m)
      stored_verification)

unfoldable pub parse_stored_x402_settlement_response : Option Json → Option Settling
unfolding as_string
parse_stored_x402_settlement_response v = stored_of (as_record v) (λ m.
    stored_answer m (is_tag "settle" (property "type" m)) (property "settled" m) stored_settling)

-- what the two calls give: the status and the answer as it is read
pub record Answered (A : Type 0) : Type 0 where
  pub status : ℕ
  pub response : A

unfoldable pub verify_x402_payment : Facilitator → Json → Json → ℕ → Action (Answered Verification)
unfolding normalize_verification_response
verify_x402_payment f payload requirements key = do
  a ← f.post_verify payload requirements key
  pure (record { status = a.status; response = normalize_verification_response requirements a })

unfoldable pub settle_x402_payment : Facilitator → Json → Json → ℕ → Action (Answered Settling)
unfolding normalize_settlement_response
settle_x402_payment f payload requirements key = do
  a ← f.post_settle payload requirements key
  pure (record { status = a.status; response = normalize_settlement_response requirements a })
