-- ===== src/Routing.antt =====
-- src/lib/local-recipient-routing.ts and `getMailboxByAddress` of src/repositories/agents.ts:
-- which recipients are mailboxes of this runtime, and which are sent to a provider.
pub mod Laws
pub mod Counts
pub mod Splits
pub mod Calm
use mailagents_email_runtime.Base.{
  ℕ, Bool, true, false, not, ◌&&◌, Option, none, some, List, [], ◌∷◌, ◌++◌, map, ◌==◌,
  if◌then◌else◌, length, find, is_empty, ltb,
}
use mailagents_email_runtime.Text.{Text, text_eq, trim, to_lower_case, unique, non_empty}
use mailagents_email_runtime.World.{Mailbox, World, Action, ◌>>=◌, ◌>>◌, pure, gets, service}

pub record LocalMailboxRecipient : Type 0 where
  pub address : Text
  pub mailbox_id : ℕ
  pub tenant_id : ℕ

pub record RoutedOutboundRecipients : Type 0 where
  pub to_internal : List LocalMailboxRecipient
  pub cc_internal : List LocalMailboxRecipient
  pub bcc_internal : List LocalMailboxRecipient
  pub to_external : List Text
  pub cc_external : List Text
  pub bcc_external : List Text
  pub internal_recipient_count : ℕ
  pub external_recipient_count : ℕ
  pub external_to_recipient_count : ℕ
  pub recipient_domains : List Text
  pub internal_domains : List Text
  pub external_domains : List Text

-- the lists `to`, `cc` and `bcc` of a message
pub record Recipients : Type 0 where
  pub to : List Text
  pub cc : List Text
  pub bcc : List Text

unfoldable pub normalize_recipient_address : Text → Text
unfolding trim to_lower_case
normalize_recipient_address value = to_lower_case (trim value)

unfoldable pub normalize_recipient_list : List Text → List Text
unfolding normalize_recipient_address
normalize_recipient_list values = non_empty (map normalize_recipient_address values)

-- what follows the last `@`
after_at : Text → Option Text
after_at [] = none
after_at (c ∷ s) =
    let rest = after_at s in
    elim rest [ some d ↦ some d | none ↦ if c == b'@' then some s else none ]

unfoldable pub recipient_domain : Text → Option Text
unfolding after_at
recipient_domain address = elim (after_at address) [
  | none ↦ none
  | some domain ↦ if is_empty domain then none else some domain
]

abbrev domains_of : List Text → List Text
unfolding recipient_domain
domains_of [] = []
domains_of (a ∷ rest) = elim (recipient_domain a) [
  | none ↦ domains_of rest
  | some d ↦ d ∷ domains_of rest
]

unfoldable pub unique_domains : List Text → List Text
unfolding unique recipient_domain
unique_domains addresses = unique (domains_of addresses)

-- `SELECT … FROM mailboxes WHERE address = ?`; the column is unique
abbrev pub mailbox_at : Text → List Mailbox → Option Mailbox
mailbox_at address = find (λ m. text_eq m.address address)

unfoldable pub get_mailbox_by_address : Text → Action (Option Mailbox)
unfolding service to_lower_case
get_mailbox_by_address address =
    service >> gets (λ w. mailbox_at (to_lower_case address) w.mail.mailboxes)

abbrev pub local_recipient : Text → Option Mailbox → Option LocalMailboxRecipient
local_recipient address none = none
local_recipient address (some m) =
    if m.is_active
    then some (record { address = address; mailbox_id = m.id; tenant_id = m.tenant_id })
    else none

abbrev pub Entries : Type 0
Entries = List (Text × LocalMailboxRecipient)

abbrev add_entry : Text → Option LocalMailboxRecipient → Entries → Entries
add_entry a none es = es
add_entry a (some r) es = (a, r) ∷ es

-- the map `localMailboxes` of the addresses that have an active mailbox
unfoldable pub local_mailboxes : List Text → Action Entries
unfolding get_mailbox_by_address
local_mailboxes [] = pure []
local_mailboxes (a ∷ rest) = do
  mailbox ← get_mailbox_by_address a
  found ← local_mailboxes rest
  pure (add_entry a (local_recipient a mailbox) found)

abbrev pub entry_of : Text → Entries → Option LocalMailboxRecipient
entry_of a [] = none
entry_of a ((b, r) ∷ es) = if text_eq b a then some r else entry_of a es

-- `splitList`, by what the map says of each address
abbrev pub internal_of :
    (Text → Option LocalMailboxRecipient) → List Text → List LocalMailboxRecipient
internal_of f [] = []
internal_of f (a ∷ rest) = elim (f a) [
  | none ↦ internal_of f rest
  | some r ↦ r ∷ internal_of f rest
]

abbrev pub external_of : (Text → Option LocalMailboxRecipient) → List Text → List Text
external_of f [] = []
external_of f (a ∷ rest) = elim (f a) [
  | none ↦ a ∷ external_of f rest
  | some r ↦ external_of f rest
]

unfoldable pub split_lists :
    (Text → Option LocalMailboxRecipient)
    → List Text
    → List Text
    → List Text
    → RoutedOutboundRecipients
unfolding unique_domains
split_lists f to cc bcc =
    let internal =
      map (λ (r : LocalMailboxRecipient). r.address)
        (internal_of f to ++ (internal_of f cc ++ internal_of f bcc)) in
    let external = external_of f to ++ (external_of f cc ++ external_of f bcc) in
    record {
      to_internal = internal_of f to;
      cc_internal = internal_of f cc;
      bcc_internal = internal_of f bcc;
      to_external = external_of f to;
      cc_external = external_of f cc;
      bcc_external = external_of f bcc;
      internal_recipient_count = length internal;
      external_recipient_count = length external;
      external_to_recipient_count = length (external_of f to);
      recipient_domains = unique_domains (internal ++ external);
      internal_domains = unique_domains internal;
      external_domains = unique_domains external;
    }

unfoldable pub route_outbound_recipients : Recipients → Action RoutedOutboundRecipients
unfolding normalize_recipient_list local_mailboxes split_lists unique
route_outbound_recipients input = do
  let to = normalize_recipient_list input.to
  let cc = normalize_recipient_list input.cc
  let bcc = normalize_recipient_list input.bcc
  entries ← local_mailboxes (unique (to ++ (cc ++ bcc)))
  pure (split_lists (λ a. entry_of a entries) to cc bcc)

-- Whether `getOutboundRecipientRoutingValidationError` finds an error.
unfoldable pub has_routing_error : ℕ → ℕ → Bool
has_routing_error external external_to = ltb 0 external && external_to == 0
