-- ===== src/Drafts/Enqueue.antt =====
-- `enqueueDraftSend`. The body of its `try` is cut where it assigns `createdThreadId` and
-- `creditReservationAmount`, which its `catch` reads.
use mailagents_email_runtime.Base.{
  ℕ, ◌&&◌, not, Option, none, some, List, [], ◌∷◌, ◌==◌, if◌then◌else◌, is_some, is_empty,
}
use mailagents_email_runtime.Base.Int.{ℤ, pos}
use mailagents_email_runtime.Text.{Text, text_eq, trim, to_lower_case}
use mailagents_email_runtime.Json.{Fields, end, property, str}
use mailagents_email_runtime.World.{
  Mailbox, Draft, BillingAccount, Action, Done, plain, ◌>>=◌, ◌>>◌, pure, gets, throw, throw_if,
  require_row, service,
}
use mailagents_email_runtime.Routing.{Recipients, route_outbound_recipients}
use mailagents_email_runtime.Credits.{
  Origin, OutboundCreditRequirement, get_outbound_credit_requirement,
}
use mailagents_email_runtime.Billing.{reserve_tenant_available_credits}
use mailagents_email_runtime.Outbound.{get_mailbox_by_id}
use mailagents_email_runtime.Guards.{
  fields_of, parse_draft_recipients, DraftAttachment, parse_draft_attachments, from_address,
  AttachmentOwner, get_attachment_owner_by_r2_key,
}
use mailagents_email_runtime.Subject.{normalize_subject}
use mailagents_email_runtime.Drafts.Statements.{assign_draft_thread_id}
use mailagents_email_runtime.Drafts.Threads.{NewThread, get_or_create_thread}

-- a draft without an object has an empty payload
unfoldable pub load_payload : ℕ → Action Fields
unfolding service
load_payload key = do
  service
  object ← gets (λ w. w.mail.objects key)
  pure (elim object [ none ↦ end | some json ↦ fields_of json ])

abbrev subject_of : Fields → Text
subject_of payload = elim (property "subject" payload) [
  | none ↦ []
  | some v ↦ elim v [ str s ↦ s | _ ↦ [] ]
]

-- what the first part of the body computes
pub record Prepared : Type 0 where
  pub requirement : OutboundCreditRequirement
  pub attachments : List DraftAttachment
  pub subject_norm : Text

-- The four checks of the mailbox and the sender.
unfoldable pub check_sender : Fields → Option Mailbox → Action Done
unfolding trim to_lower_case
check_sender payload none = throw plain
check_sender payload (some mailbox) = do
  let address = to_lower_case (trim mailbox.address)
  throw_if (is_empty address) plain
  throw_if (not mailbox.is_active) plain
  throw_if (is_empty (from_address payload)) plain
  throw_if (not (text_eq (from_address payload) address)) plain

abbrev pub origin_of : Draft → Origin
origin_of d = record { source_message_id = d.source_message_id; created_via = d.created_via }

unfoldable pub prepare_required : Draft → Fields → OutboundCreditRequirement → Action Prepared
unfolding get_mailbox_by_id check_sender
prepare_required d payload requirement = do
  attachments ← require_row (parse_draft_attachments (property "attachments" payload))
  mailbox ← get_mailbox_by_id d.mailbox_id
  check_sender payload mailbox
  pure (record {
    requirement = requirement;
    attachments = attachments;
    subject_norm = normalize_subject (subject_of payload);
  })

unfoldable pub prepare_routed :
    Draft → Fields → Recipients → OutboundCreditRequirement → Action Prepared
unfolding route_outbound_recipients prepare_required
prepare_routed d payload recipients requirement =
    route_outbound_recipients recipients >> prepare_required d payload requirement

unfoldable pub prepare_recipients : Draft → Fields → Recipients → Action Prepared
unfolding get_outbound_credit_requirement prepare_routed
prepare_recipients d payload recipients =
    get_outbound_credit_requirement recipients (origin_of d) >>= prepare_routed d payload recipients

unfoldable pub prepare_payload : Draft → Fields → Action Prepared
unfolding prepare_recipients
prepare_payload d payload =
    require_row (parse_draft_recipients payload) >>= prepare_recipients d payload

unfoldable pub prepare : Draft → Action Prepared
unfolding load_payload prepare_payload
prepare d = load_payload d.draft_r2_key >>= prepare_payload d

-- `!outboundThreadId && normalizedSubject`: the thread that is created, its key made of the message
abbrev pub thread_for : Draft → ℕ → Text → NewThread
thread_for d message subject = record {
  tenant_id = d.tenant_id;
  mailbox_id = d.mailbox_id;
  thread_key = message;
  subject_norm = subject;
}

unfoldable pub open_thread : Draft → ℕ → Text → Action (Option ℕ)
unfolding get_or_create_thread
open_thread d message subject =
    if not (is_some d.thread_id) && not (is_empty subject)
    then (get_or_create_thread (thread_for d message subject) >>= λ id. pure (some id))
    else pure none

unfoldable pub assign_opened : Draft → Option ℕ → Action Done
unfolding assign_draft_thread_id
assign_opened d none = pure tt
assign_opened d (some thread) = assign_draft_thread_id d.id thread

abbrev pub check_attachment_owner : Draft → Option AttachmentOwner → Action Done
check_attachment_owner d none = throw plain
check_attachment_owner d (some owner) = do
  throw_if (not (owner.tenant_id == d.tenant_id)) plain
  throw_if (not (owner.mailbox_id == d.mailbox_id)) plain

unfoldable pub check_attachment_ref : Draft → DraftAttachment → Action Done
unfolding get_attachment_owner_by_r2_key
check_attachment_ref d a = do
  throw_if (is_empty (trim a.r2_key)) plain
  owner ← get_attachment_owner_by_r2_key (trim a.r2_key)
  check_attachment_owner d owner

unfoldable pub check_attachment_refs : Draft → List DraftAttachment → Action Done
unfolding check_attachment_ref
check_attachment_refs d [] = pure tt
check_attachment_refs d (a ∷ rest) = check_attachment_ref d a >> check_attachment_refs d rest

abbrev pub reserved_amount : ℤ → Option BillingAccount → Action ℤ
reserved_amount credits none = throw plain
reserved_amount credits (some _) = pure credits

-- the amount that `creditReservationAmount` holds afterwards
unfoldable pub reserve_for : Draft → OutboundCreditRequirement → Action ℤ
unfolding reserve_tenant_available_credits
reserve_for d requirement =
    if requirement.requires_credits
    then (reserve_tenant_available_credits d.tenant_id requirement.credits_required
        >>= reserved_amount requirement.credits_required)
    else pure (pos 0)
