-- ===== src/Tests.antt =====
-- A small world in which each theorem with hypotheses is applied.
mod Accounts
mod Settlements
mod Sends
mod Requests
mod Drafts
mod Tokens
mod Routes
mod Payments
use Prim.Native.String.{String}
use mailagents_email_runtime.Base.{
  zero, suc, Bool, ℕ, true, false, Option, none, some, List, [], ◌∷◌,
}
use mailagents_email_runtime.Base.Int.{ℤ, pos}
use mailagents_email_runtime.Text.{Text, codes}
use mailagents_email_runtime.Json.{Json, num}
use mailagents_email_runtime.World.{
  World, Bank, Mail, BillingAccount, LedgerEntry, Mailbox, Message, MessageStatus, OutboundJob,
  OutboundJobStatus, TenantBillingStatus, PricingTier, CreditLedgerEntryType,
}
use mailagents_email_runtime.World.Tables.{put}
use mailagents_email_runtime.Routing.{Recipients}

abbrev pub account : BillingAccount
account = record {
  status = TenantBillingStatus.active;
  pricing_tier = PricingTier.paid_active;
  default_network = none;
  default_asset = none;
  available_credits = pos 90;
  reserved_credits = pos 10;
  updated_at = 3;
}

abbrev pub topup_entry : LedgerEntry
topup_entry = record {
  id = 1;
  tenant_id = 1;
  entry_type = CreditLedgerEntryType.topup;
  credits_delta = pos 100;
  reason = "topup";
  payment_receipt_id = some 8;
  reference_id = some 50;
  metadata = none;
  created_at = 2;
}

abbrev pub job : OutboundJob
job = record {
  id = 20;
  message_id = 10;
  status = OutboundJobStatus.queued;
  retry_count = 0;
  next_retry_at = none;
  draft_r2_key = 30;
  updated_at = 4;
}

abbrev pub message : Message
message = record {
  id = 10;
  tenant_id = 1;
  mailbox_id = 5;
  thread_id = none;
  provider_message_id = none;
  status = MessageStatus.normalized;
  sent_at = none;
}

abbrev pub local_address : Text
local_address = codes "bot@mailagents.net"

abbrev pub bank : Bank
bank = record {
  accounts = put 1 account (λ _. none);
  ledger = topup_entry ∷ [];
  send_policies = λ _. none;
  receipts = [];
}

abbrev pub mail : Mail
mail = record {
  mailboxes = record { id = 5; tenant_id = 1; address = local_address; is_active = true } ∷ [];
  agents = λ _. none;
  agent_ids = [];
  agent_policies = λ _. none;
  agent_mailboxes = [];
  agent_versions = [];
  deployments = [];
  threads = [];
  attachments = [];
  messages = message ∷ [];
  drafts = [];
  jobs = job ∷ [];
  events = [];
  suppressions = [];
  objects = λ _. none;
}

abbrev pub world : World
world = record {
  bank = bank;
  mail = mail;
  idempotency = [];
  dead_letters = [];
  send_queue = [];
  now = 7;
  next_id = 100;
  faults = [];
}

-- the same world with one call of a service that fails after `n` that do not
abbrev pub failing_at : ℕ → World
failing_at n = record world { faults = go n }
  where
    go : ℕ → List Bool
    go zero = true ∷ []
    go (suc n) = false ∷ go n

abbrev pub recipients : Recipients
recipients = record {
  to = codes "Ann@Example.org" ∷ codes " bot@Mailagents.net " ∷ [];
  cc = codes "ann@example.org" ∷ [];
  bcc = [];
}
