-- ===== src/World/Rows.antt =====
-- The rows of the tables and the records of types.ts.
use Prim.Native.String.{String}
use mailagents_email_runtime.Base.{ℕ, Bool, Option, List}
use mailagents_email_runtime.Base.Int.{ℤ}
use mailagents_email_runtime.Text.{Text}
use mailagents_email_runtime.Json.{Json}
use mailagents_email_runtime.World.Receipts.{PaymentReceipt}

pub data TenantBillingStatus : Type 0 where
  trial active delinquent suspended : TenantBillingStatus

pub data PricingTier : Type 0 where
  free paid_review paid_active enterprise : PricingTier

pub data TenantOutboundStatus : Type 0 where
  internal_only external_review external_enabled suspended : TenantOutboundStatus

pub data CreditLedgerEntryType : Type 0 where
  topup debit_send debit_reply refund adjustment : CreditLedgerEntryType

pub data OutboundJobStatus : Type 0 where
  queued sending sent retry failed : OutboundJobStatus

pub data MessageStatus : Type 0 where
  received normalized tasked replied ignored failed : MessageStatus

pub data DraftStatus : Type 0 where
  draft approved queued sent cancelled failed : DraftStatus

pub data DeliveryEventType : Type 0 where
  delivery bounce complaint reject unknown : DeliveryEventType

pub record BillingAccount : Type 0 where
  pub status : TenantBillingStatus
  pub pricing_tier : PricingTier
  pub default_network : Option Text
  pub default_asset : Option Text
  pub available_credits : ℤ
  pub reserved_credits : ℤ
  pub updated_at : ℕ

pub record LedgerEntry : Type 0 where
  pub id : ℕ
  pub tenant_id : ℕ
  pub entry_type : CreditLedgerEntryType
  pub credits_delta : ℤ
  pub reason : String
  pub payment_receipt_id : Option ℕ
  pub reference_id : Option ℕ
  pub metadata : Option Json
  pub created_at : ℕ

pub record SendPolicy : Type 0 where
  pub pricing_tier : PricingTier
  pub outbound_status : TenantOutboundStatus
  pub internal_domain_allowlist : List Text
  pub external_send_enabled : Bool
  pub review_required : Bool
  pub updated_at : ℕ

-- `confidence_threshold` in hundredths.
pub record AgentPolicy : Type 0 where
  pub auto_reply_enabled : Bool
  pub human_review_required : Bool
  pub confidence_threshold : ℕ
  pub max_auto_replies_per_thread : ℕ
  pub allowed_recipient_domains : List Text
  pub blocked_sender_domains : List Text
  pub allowed_tools : List Text

pub record Mailbox : Type 0 where
  pub id : ℕ
  pub tenant_id : ℕ
  pub address : Text
  pub is_active : Bool

pub record Message : Type 0 where
  pub id : ℕ
  pub tenant_id : ℕ
  pub mailbox_id : ℕ
  pub thread_id : Option ℕ
  pub provider_message_id : Option ℕ
  pub status : MessageStatus
  pub sent_at : Option ℕ

pub record Draft : Type 0 where
  pub id : ℕ
  pub tenant_id : ℕ
  pub agent_id : ℕ
  pub mailbox_id : ℕ
  pub thread_id : Option ℕ
  pub source_message_id : Option ℕ
  pub created_via : Option Text
  pub status : DraftStatus
  pub draft_r2_key : ℕ
  pub updated_at : ℕ

pub record OutboundJob : Type 0 where
  pub id : ℕ
  pub message_id : ℕ
  pub status : OutboundJobStatus
  pub retry_count : ℕ
  pub next_retry_at : Option ℕ
  pub draft_r2_key : ℕ
  pub updated_at : ℕ

pub record Thread : Type 0 where
  pub id : ℕ
  pub tenant_id : ℕ
  pub mailbox_id : ℕ
  pub thread_key : ℕ
  pub subject_norm : Option Text

pub record AttachmentRow : Type 0 where
  pub message_id : ℕ
  pub r2_key : Text

pub data MailboxRole : Type 0 where
  primary shared send_only receive_only : MailboxRole

-- a row of `agent_mailboxes`
pub record AgentMailbox : Type 0 where
  pub agent_id : ℕ
  pub mailbox_id : ℕ
  pub tenant_id : ℕ
  pub role : MailboxRole
  pub is_active : Bool

pub record AgentVersion : Type 0 where
  pub id : ℕ
  pub agent_id : ℕ

-- a row of `agent_deployments` whose target is a mailbox
pub record MailboxDeployment : Type 0 where
  pub agent_id : ℕ
  pub tenant_id : ℕ
  pub agent_version_id : ℕ
  pub target_id : ℕ
  pub is_active : Bool

pub record DeliveryEvent : Type 0 where
  pub message_id : Option ℕ
  pub event_type : DeliveryEventType

pub data IdempotencyStatus : Type 0 where
  pending completed : IdempotencyStatus

pub record IdempotencyRow : Type 0 where
  pub operation : ℕ
  pub tenant_id : ℕ
  pub idempotency_key : ℕ
  pub request_fingerprint : ℕ
  pub status : IdempotencyStatus
  pub resource_id : Option ℕ
  pub response : Option Json
  pub created_at : ℕ
  pub updated_at : ℕ

pub record DeadLetter : Type 0 where
  pub source : String
  pub ref_id : ℕ

-- The billing tables.
pub record Bank : Type 0 where
  pub accounts : ℕ → Option BillingAccount
  pub ledger : List LedgerEntry
  pub send_policies : ℕ → Option SendPolicy
  pub receipts : List PaymentReceipt

-- The mail tables and the objects in R2.
pub record Mail : Type 0 where
  pub mailboxes : List Mailbox
  pub agents : ℕ → Option ℕ
  pub agent_ids : List ℕ
  pub agent_policies : ℕ → Option AgentPolicy
  pub agent_mailboxes : List AgentMailbox
  pub agent_versions : List AgentVersion
  pub deployments : List MailboxDeployment
  pub threads : List Thread
  pub attachments : List AttachmentRow
  pub messages : List Message
  pub drafts : List Draft
  pub jobs : List OutboundJob
  pub events : List DeliveryEvent
  pub suppressions : List Text
  pub objects : ℕ → Option Json
