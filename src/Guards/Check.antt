-- ===== src/Guards/Check.antt =====
-- The checks in the order of the source; each throws a `DraftSendValidationError` with its status.
use mailagents_email_runtime.Base.{
  ℕ, Bool, true, false, not, ◌&&◌, ◌||◌, Option, none, some, List, [], ◌∷◌, ◌==◌, if◌then◌else◌,
  is_empty,
}
use mailagents_email_runtime.Text.{Text, text_eq, trim, to_lower_case}
use mailagents_email_runtime.Json.{Fields, property}
use mailagents_email_runtime.World.{
  Mailbox, Message, Action, Done, validation, BillingAccount, ◌>>=◌, ◌>>◌, pure, throw, gets,
  throw_if, service,
}
use mailagents_email_runtime.Routing.{Recipients}
use mailagents_email_runtime.Policy.{
  UsageCounts, PolicyCode, invalid_recipient_routing, daily_quota_exceeded, hourly_quota_exceeded,
  OutboundPolicyDecision, allow, deny, evaluate_outbound_policy,
}
use mailagents_email_runtime.Credits.{Origin, CreditCheck, check_outbound_credit_requirement}
use mailagents_email_runtime.Billing.{reserve_tenant_available_credits}
use mailagents_email_runtime.Outbound.{get_mailbox_by_id, get_message}
use mailagents_email_runtime.Guards.Payload.{
  fields_of, parse_draft_recipients, DraftAttachment, parse_draft_attachments, from_address,
}
use mailagents_email_runtime.Guards.Lookup.{
  get_agent, is_send_capable, any_role, has_active_mailbox_binding, has_active_mailbox_deployment,
  get_thread, AttachmentOwner, get_attachment_owner_by_r2_key,
}

-- `if (!value) throw new DraftSendValidationError(…, status)`
abbrev pub require : {A : Type 0} → ℕ → Option A → Action A
require status none = throw (validation status)
require status (some a) = pure a

abbrev pub refuse_if : Bool → ℕ → Action Done
refuse_if b status = throw_if b (validation status)

unfoldable pub read_draft_payload : ℕ → Action Fields
unfolding service
read_draft_payload key = do
  service
  object ← gets (λ w. w.mail.objects key)
  json ← require 404 object
  pure (fields_of json)

unfoldable pub read_draft_recipients : ℕ → Action Recipients
unfolding read_draft_payload parse_draft_recipients
read_draft_recipients key =
    read_draft_payload key >>= λ payload. require 400 (parse_draft_recipients payload)

-- the input of `ensureDraftSendAllowed`
pub record DraftSend : Type 0 where
  pub tenant_id : ℕ
  pub agent_id : ℕ
  pub mailbox_id : ℕ
  pub draft_r2_key : ℕ
  pub thread_id : Option ℕ
  pub source_message_id : Option ℕ

module _ (input : DraftSend) where
  unfoldable pub check_owner : AttachmentOwner → Action Done
  check_owner owner = do
    refuse_if (not (owner.tenant_id == input.tenant_id)) 409
    refuse_if (not (owner.mailbox_id == input.mailbox_id)) 409

  unfoldable pub check_attachment : DraftAttachment → Action Done
  unfolding get_attachment_owner_by_r2_key check_owner
  check_attachment attachment = do
    refuse_if (is_empty (trim attachment.r2_key)) 400
    found ← get_attachment_owner_by_r2_key (trim attachment.r2_key)
    owner ← require 404 found
    check_owner owner

  unfoldable pub check_attachments : List DraftAttachment → Action Done
  check_attachments [] = pure tt
  check_attachments (a ∷ rest) = check_attachment a >> check_attachments rest

  -- `validateStoredDraftPayload`, once the payload is read
  unfoldable pub validate_payload : Text → Fields → Action Recipients
  validate_payload address payload = do
    let from = from_address payload
    refuse_if (is_empty from || not (text_eq from (to_lower_case (trim address)))) 400
    attachments ← require 400 (parse_draft_attachments (property "attachments" payload))
    check_attachments attachments
    require 400 (parse_draft_recipients payload)

  unfoldable pub validate_stored_draft_payload : Text → Action Recipients
  validate_stored_draft_payload address =
      read_draft_payload input.draft_r2_key >>= validate_payload address

  unfoldable pub check_mailbox : Action Mailbox
  unfolding get_mailbox_by_id
  check_mailbox = do
    found ← get_mailbox_by_id input.mailbox_id
    mailbox ← require 404 found
    refuse_if (not (mailbox.tenant_id == input.tenant_id)) 409
    refuse_if (not mailbox.is_active) 409
    pure mailbox

  unfoldable pub check_agent : Action Done
  unfolding get_agent
  check_agent = do
    found ← get_agent input.agent_id
    tenant ← require 404 found
    refuse_if (not (tenant == input.tenant_id)) 409

  unfoldable pub check_binding : Action Done
  unfolding has_active_mailbox_binding has_active_mailbox_deployment
  check_binding = do
    has_binding ← has_active_mailbox_binding is_send_capable input.agent_id input.mailbox_id
    has_any_binding ← has_active_mailbox_binding any_role input.agent_id input.mailbox_id
    has_deployment ← has_active_mailbox_deployment input.agent_id input.mailbox_id
    refuse_if (not has_binding && (not has_deployment || has_any_binding)) 403

  unfoldable pub check_thread : Option ℕ → Action Done
  unfolding get_thread
  check_thread none = pure tt
  check_thread (some id) = do
    found ← get_thread id
    thread ← require 404 found
    refuse_if (not (thread.tenant_id == input.tenant_id)) 409
    refuse_if (not (thread.mailbox_id == input.mailbox_id)) 409

  -- `input.threadId && sourceMessage.threadId !== input.threadId`
  abbrev pub is_other_thread : Option ℕ → Message → Bool
  is_other_thread none message = false
  is_other_thread (some id) message = elim (message.thread_id) [
    | none ↦ true
    | some thread ↦ not (thread == id)
  ]

  unfoldable pub check_source : Option ℕ → Action Done
  unfolding get_message
  check_source none = pure tt
  check_source (some id) = do
    found ← get_message id
    message ← require 404 found
    refuse_if (not (message.tenant_id == input.tenant_id)) 409
    refuse_if (not (message.mailbox_id == input.mailbox_id)) 409
    refuse_if (is_other_thread input.thread_id message) 409

  -- the status of a denial
  unfoldable pub denial_status : PolicyCode → ℕ
  denial_status invalid_recipient_routing = 400
  denial_status daily_quota_exceeded = 429
  denial_status hourly_quota_exceeded = 429
  denial_status _ = 403

  unfoldable pub answer_decision : OutboundPolicyDecision → Action Done
  unfolding denial_status
  answer_decision allow = pure tt
  answer_decision (deny code) = throw (validation (denial_status code))

  -- `usage_counts` is the argument that `evaluate_outbound_policy` has.
  unfoldable pub check_policy : Action UsageCounts → Recipients → Action Done
  unfolding answer_decision
  check_policy usage_counts recipients =
      evaluate_outbound_policy usage_counts input.tenant_id input.agent_id recipients
      >>= answer_decision

  unfoldable pub ensure_draft_send_allowed : Action UsageCounts → Action Done
  ensure_draft_send_allowed usage_counts = do
    mailbox ← check_mailbox
    check_agent
    check_binding
    check_thread input.thread_id
    check_source input.source_message_id
    recipients ← validate_stored_draft_payload mailbox.address
    check_policy usage_counts recipients

-- `if (!reserved)`
abbrev pub require_reserved : Option BillingAccount → Action Done
require_reserved none = throw (validation 402)
require_reserved (some _) = pure tt

-- what `reserveDraftSendCredits` does with the check's answer
unfoldable pub reserve_checked : ℕ → CreditCheck → Action Done
reserve_checked tenant check = do
  refuse_if (not check.has_sufficient_credits) 402
  if check.requirement.requires_credits
      then (reserve_tenant_available_credits tenant check.requirement.credits_required
          >>= require_reserved)
      else pure tt

unfoldable pub reserve_draft_send_credits : ℕ → ℕ → Origin → Action Done
unfolding read_draft_recipients reserve_checked
reserve_draft_send_credits tenant key origin = do
  recipients ← read_draft_recipients key
  check ← check_outbound_credit_requirement tenant recipients origin
  reserve_checked tenant check
