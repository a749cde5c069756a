-- ===== src/Guards/Payload.antt =====
-- The stored payload of a draft: its recipients and its attachments.
use mailagents_email_runtime.Base.{
  Bool, true, false, Option, none, some, List, [], ◌∷◌, if◌then◌else◌, any, is_empty,
}
use mailagents_email_runtime.Text.{Text, trim, to_lower_case}
use mailagents_email_runtime.Json.{
  Json, null, str, arr, obj, Items, nil, cons, Fields, end, property, as_text,
}
use mailagents_email_runtime.Routing.{Recipients}

-- `draftObject.json()`: the runtime writes an object; of anything else no property is read.
abbrev pub fields_of : Json → Fields
fields_of (obj fs) = fs
fields_of _ = end

-- `typeof item === "string" ? item.trim() : ""`
abbrev pub trimmed : Json → Text
unfolding trim
trimmed (str s) = trim s
trimmed _ = []

abbrev pub trimmed_items : Items → List Text
unfolding trim
trimmed_items nil = []
trimmed_items (cons v vs) = trimmed v ∷ trimmed_items vs

-- the recipients of a field whose value is an array
abbrev accept_items : Bool → List Text → Option (List Text)
accept_items is_to items =
    if any is_empty items
    then none
    else (if is_to then (if is_empty items then none else some items) else some items)

-- `parseDraftRecipientList`; the flag is `field === "to"`, and none is its error
unfoldable pub parse_draft_recipient_list : Bool → Option Json → Option (List Text)
unfolding trim
parse_draft_recipient_list is_to none = if is_to then none else some []
parse_draft_recipient_list is_to (some null) = if is_to then none else some []
parse_draft_recipient_list is_to (some (arr items)) = accept_items is_to (trimmed_items items)
parse_draft_recipient_list is_to (some _) = none

infixl 5 ◌>>=◌
abbrev ◌>>=◌ : {A B : Type 0} → Option A → (A → Option B) → Option B
none >>= k = none
some a >>= k = k a

-- `parseDraftRecipients`
unfoldable pub parse_draft_recipients : Fields → Option Recipients
unfolding parse_draft_recipient_list
parse_draft_recipients payload = do
  to ← parse_draft_recipient_list true (property "to" payload)
  cc ← parse_draft_recipient_list false (property "cc" payload)
  bcc ← parse_draft_recipient_list false (property "bcc" payload)
  some (record { to = to; cc = cc; bcc = bcc })

pub record DraftAttachment : Type 0 where
  pub filename : Text
  pub content_type : Text
  pub r2_key : Text

abbrev pub parse_attachment : Json → Option DraftAttachment
parse_attachment (obj item) = do
  filename ← as_text (property "filename" item)
  content_type ← as_text (property "contentType" item)
  key ← as_text (property "r2Key" item)
  some (record { filename = filename; content_type = content_type; r2_key = key })
parse_attachment _ = none

abbrev parse_attachments : Items → Option (List DraftAttachment)
parse_attachments nil = some []
parse_attachments (cons v vs) = do
  attachment ← parse_attachment v
  rest ← parse_attachments vs
  some (attachment ∷ rest)

-- `parseDraftAttachments`
unfoldable pub parse_draft_attachments : Option Json → Option (List DraftAttachment)
parse_draft_attachments none = some []
parse_draft_attachments (some null) = some []
parse_draft_attachments (some (arr items)) = parse_attachments items
parse_draft_attachments (some _) = none

-- `typeof payload.from === "string" ? payload.from.trim().toLowerCase() : ""`
abbrev pub from_address : Fields → Text
unfolding trim to_lower_case
from_address payload = elim (property "from" payload) [
  | none ↦ []
  | some v ↦ to_lower_case (trimmed v)
]
