-- ===== src/Credits/Requirement.antt =====
-- src/lib/outbound-credits.ts
use mailagents_email_runtime.Base.{
  ℕ, Bool, true, false, Option, none, some, List, [], ltb, if◌then◌else◌,
}
use mailagents_email_runtime.Base.Int.{ℤ, pos, leb_ℤ}
use mailagents_email_runtime.Text.{Text, codes, text_eq, to_lower_case, includes}
use mailagents_email_runtime.World.{BillingAccount, Action, ◌>>=◌, pure}
use mailagents_email_runtime.LedgerMetadata.{Debit, debit_send, debit_reply}
use mailagents_email_runtime.Billing.{ensure_tenant_billing_account}
use mailagents_email_runtime.Routing.{
  Recipients, RoutedOutboundRecipients, route_outbound_recipients,
}

pub record OutboundCreditRequirement : Type 0 where
  pub entry_type : Debit
  pub credits_required : ℤ
  pub requires_credits : Bool
  pub recipient_domains : List Text
  pub external_domains : List Text

-- where a message comes from: the message it replies to, and the channel that made the draft
pub record Origin : Type 0 where
  pub source_message_id : Option ℕ
  pub created_via : Option Text

abbrev pub via_of : Option Text → Text
unfolding to_lower_case
via_of none = []
via_of (some via) = to_lower_case via

abbrev pub default_outbound_credits_per_send : ℤ
default_outbound_credits_per_send = pos 1

unfoldable pub is_credit_exempt_created_via : Option Text → Bool
unfolding to_lower_case
is_credit_exempt_created_via via = text_eq (via_of via) (codes "system:token_reissue_self_mailbox")

unfoldable pub classify_outbound_usage_entry_type : Origin → Debit
unfolding to_lower_case includes
classify_outbound_usage_entry_type o = elim (o.source_message_id) [
  | some _ ↦ debit_reply
  | none ↦ if includes (codes "reply") (via_of o.created_via) then debit_reply else debit_send
]

unfoldable pub get_outbound_credits_required : Debit → ℤ
get_outbound_credits_required _ = default_outbound_credits_per_send

-- the requirement for recipients that are already routed
unfoldable pub requirement_for : Origin → RoutedOutboundRecipients → OutboundCreditRequirement
unfolding is_credit_exempt_created_via classify_outbound_usage_entry_type
    get_outbound_credits_required
requirement_for o routed =
    let entry = classify_outbound_usage_entry_type o in
    if is_credit_exempt_created_via o.created_via
    then record {
      entry_type = entry;
      credits_required = pos 0;
      requires_credits = false;
      recipient_domains = routed.recipient_domains;
      external_domains = routed.external_domains;
    }
    else record {
      entry_type = entry;
      credits_required = get_outbound_credits_required entry;
      requires_credits = ltb 0 routed.external_recipient_count;
      recipient_domains = routed.recipient_domains;
      external_domains = routed.external_domains;
    }

unfoldable pub get_outbound_credit_requirement :
    Recipients → Origin → Action OutboundCreditRequirement
unfolding requirement_for
get_outbound_credit_requirement input o = do
  classification ← route_outbound_recipients input
  pure (requirement_for o classification)

pub record CreditCheck : Type 0 where
  pub requirement : OutboundCreditRequirement
  pub available_credits : Option ℤ
  pub has_sufficient_credits : Bool

-- the check of a requirement against an account
abbrev pub checked_account : OutboundCreditRequirement → BillingAccount → CreditCheck
checked_account requirement account = record {
  requirement = requirement;
  available_credits = some account.available_credits;
  has_sufficient_credits = leb_ℤ requirement.credits_required account.available_credits;
}

abbrev pub unchecked : OutboundCreditRequirement → CreditCheck
unchecked requirement = record {
  requirement = requirement;
  available_credits = none;
  has_sufficient_credits = true;
}

unfoldable pub check_requirement : ℕ → OutboundCreditRequirement → Action CreditCheck
unfolding ensure_tenant_billing_account
check_requirement t requirement =
    if requirement.requires_credits
    then (ensure_tenant_billing_account t >>= λ account. pure (checked_account requirement account))
    else pure (unchecked requirement)

unfoldable pub check_outbound_credit_requirement : ℕ → Recipients → Origin → Action CreditCheck
unfolding get_outbound_credit_requirement check_requirement
check_outbound_credit_requirement t input o =
    get_outbound_credit_requirement input o >>= check_requirement t
