-- ===== src/Guards/Stored.antt =====
-- What the stored payload of a draft has where its validation returns.
use mailagents_email_runtime.Base.{
  ℕ, ◌≡◌, refl, Bool, true, false, not, ◌||◌, Option, none, some, arith, is_empty,
}
use mailagents_email_runtime.Text.{Text, text_eq, eq_of_text_eq, trim, to_lower_case}
use mailagents_email_runtime.Json.{Json, Fields, property}
use mailagents_email_runtime.World.{Mail, Done, ◌>>=◌, ◌>>◌}
use mailagents_email_runtime.Routing.{Recipients}
use mailagents_email_runtime.Guards.Payload.{
  fields_of, parse_draft_attachments, parse_draft_recipients, from_address,
}
use mailagents_email_runtime.Guards.Check.{
  DraftSend, require, refuse_if, check_attachments, validate_payload, validate_stored_draft_payload,
  read_draft_payload,
}
use mailagents_email_runtime.Guards.Ensures.{Ensures, Both, bind-Ensures, Ensures-of}
use mailagents_email_runtime.Guards.Facts.{IsPayload, AreOwned, check_attachments-Ensures}

require-Ensures :
    {A : Type 0} (status : ℕ) (o : Option A) → Ensures (λ m a. o ≡ some a) (require status o)
require-Ensures status none w = tt
require-Ensures status (some a) w = (refl, refl)

refuse_if-Ensures :
    (b : Bool) (status : ℕ) → Ensures (λ m (_ : Done). b ≡ false) (refuse_if b status)
refuse_if-Ensures true status w = tt
refuse_if-Ensures false status w = (refl, refl)

-- the object that the draft names
abbrev pub IsObject : ℕ → Mail → Fields → Type 0
IsObject key m payload = (json : Json) × (m.objects key ≡ some json) × (payload ≡ fields_of json)

read_draft_payload-Ensures : (key : ℕ) → Ensures (IsObject key) (read_draft_payload key)
unfolding read_draft_payload
read_draft_payload-Ensures key w = grind arith

module _ (input : DraftSend) where
  -- the attachments of a payload are the tenant's, and its recipients are `r`
  abbrev HasRecipients : Fields → Mail → Recipients → Type 0
  HasRecipients payload =
      Both (λ m l. parse_draft_attachments (property "attachments" payload) ≡ some l)
        (λ l. Both (AreOwned input l) (λ _ m r. parse_draft_recipients payload ≡ some r))

  abbrev Validates : Text → Fields → Mail → Recipients → Type 0
  Validates address payload =
      Both
        (λ m (_ : Done).
          (is_empty (from_address payload)
            || not (text_eq (from_address payload) (to_lower_case (trim address))))
          ≡ false)
        (λ _. HasRecipients payload)

  validate_payload-Validates :
      (address : Text) (payload : Fields)
      → Ensures (Validates address payload) (validate_payload input address payload)
  unfolding validate_payload
  validate_payload-Validates address payload =
      let attached = require 400 (parse_draft_attachments (property "attachments" payload)) in
      let received = require 400 (parse_draft_recipients payload) in
      bind-Ensures _ (λ _. HasRecipients payload)
        (refuse_if
          (is_empty (from_address payload)
            || not (text_eq (from_address payload) (to_lower_case (trim address))))
          400)
        (λ _. attached >>= λ l. check_attachments input l >> received) (refuse_if-Ensures _ 400)
        (λ _.
          bind-Ensures (λ m l. parse_draft_attachments (property "attachments" payload) ≡ some l)
            (λ l. Both (AreOwned input l) (λ _ m r. parse_draft_recipients payload ≡ some r))
            attached (λ l. check_attachments input l >> received) (require-Ensures 400 _)
            (λ l.
              bind-Ensures (AreOwned input l) (λ _ m r. parse_draft_recipients payload ≡ some r)
                (check_attachments input l) (λ _. received) (check_attachments-Ensures input l)
                (λ _. require-Ensures 400 (parse_draft_recipients payload))))

  eq_of_accepted :
      (a b : Text) → (is_empty a || not (text_eq a b)) ≡ false → (is_empty a ≡ false) × (a ≡ b)
  eq_of_accepted a b h = (ground arith, eq_of_text_eq a b (ground arith))

  validate_payload-Ensures :
      (address : Text) (payload : Fields)
      → Ensures (IsPayload input address payload) (validate_payload input address payload)
  validate_payload-Ensures address payload =
      Ensures-of (Validates address payload) (IsPayload input address payload) _
        (λ m r (_, from, (l, parsed, (_, owned, recipients))).
          let (some_from, same) = eq_of_accepted (from_address payload) _ from in
          (some_from, same, recipients, (l, parsed, owned)))
        (validate_payload-Validates address payload)

  unfoldable pub Stored : Text → Mail → Recipients → Type 0
  Stored address = Both (IsObject input.draft_r2_key) (IsPayload input address)

  pub validate-Ensures :
      (address : Text) → Ensures (Stored address) (validate_stored_draft_payload input address)
  unfolding validate_stored_draft_payload Stored
  validate-Ensures address =
      bind-Ensures (IsObject input.draft_r2_key) (IsPayload input address)
        (read_draft_payload input.draft_r2_key) (validate_payload input address)
        (read_draft_payload-Ensures input.draft_r2_key) (validate_payload-Ensures address)
