-- ===== src/Tests/Drafts.antt =====
-- The guards of a draft's send.
use mailagents_email_runtime.Base.{arith, ◌≡◌, refl, true, none, [], ◌∷◌, inl}
use mailagents_email_runtime.Text.{codes, trim, to_lower_case, unique}
use mailagents_email_runtime.Json.{Json, str, obj, arr, cons, nil, field, end}
use mailagents_email_runtime.World.{
  World, Draft, DraftStatus, MailboxRole, AgentMailbox, Action, ok, pure, calm, service,
}
use mailagents_email_runtime.World.Tables.{put}
use mailagents_email_runtime.Routing.{
  Recipients, route_outbound_recipients, local_mailboxes, get_mailbox_by_address, split_lists,
  unique_domains, normalize_recipient_list, has_routing_error,
}
use mailagents_email_runtime.Outbound.{has_mailbox}
use mailagents_email_runtime.Policy.{UsageCounts, allow, decide, evaluate_outbound_policy}
use mailagents_email_runtime.Credits.{Origin}
use mailagents_email_runtime.Guards.{
  DraftSend, ensure_draft_send_allowed, reserve_draft_send_credits, parse_draft_recipient_list,
  parse_draft_recipients, parse_draft_attachments,
}
use mailagents_email_runtime.Guards.Ensures.{Reached}
use mailagents_email_runtime.Guards.Sound.{Allowed, ensure_draft_send_allowed-Allowed}
use mailagents_email_runtime.Guards.Complete.{ensure_draft_send_allowed_complete}
use mailagents_email_runtime.Guards.Reserve.{Reserved, reserve_draft-Reserved}
use mailagents_email_runtime.Drafts.{enqueue_draft_send}
use mailagents_email_runtime.Drafts.Undo.{Restored}
use mailagents_email_runtime.Drafts.Restores.{enqueue-Restored}
use mailagents_email_runtime.Tests.{world, mail, local_address}

abbrev binding : AgentMailbox
binding = record {
  agent_id = 7;
  mailbox_id = 5;
  tenant_id = 1;
  role = MailboxRole.send_only;
  is_active = true;
}

abbrev to_self : Recipients
to_self = record { to = local_address ∷ []; cc = []; bcc = [] }

abbrev payload : Json
payload =
    obj (field "from" (str local_address) (field "to" (arr (cons (str local_address) nil)) end))

-- a draft of agent 7, which may only send, from the mailbox to itself
abbrev draft_world : World
draft_world = record world {
  mail = record mail {
    agents = put 7 1 (λ _. none);
    agent_mailboxes = binding ∷ [];
    objects = put 30 payload (λ _. none);
  };
}

abbrev send : DraftSend
send = record {
  tenant_id = 1;
  agent_id = 7;
  mailbox_id = 5;
  draft_r2_key = 30;
  thread_id = none;
  source_message_id = none;
}

abbrev no_usage : Action UsageCounts
no_usage = pure (record { sent_last_hour = 0; sent_last_day = 0 })

ensure_draft_send_allowed-Allowed_example :
    Reached (Allowed send) draft_world.mail (ensure_draft_send_allowed send no_usage draft_world)
ensure_draft_send_allowed-Allowed_example =
    ensure_draft_send_allowed-Allowed send no_usage draft_world

is_allowed : evaluate_outbound_policy no_usage 1 7 to_self draft_world ≡ (ok allow, draft_world)
unfolding evaluate_outbound_policy route_outbound_recipients local_mailboxes get_mailbox_by_address
    service split_lists normalize_recipient_list unique unique_domains to_lower_case trim decide
    has_routing_error
is_allowed = refl

ensure_draft_send_allowed_complete_example :
    ensure_draft_send_allowed send no_usage (calm draft_world) ≡ (ok tt, draft_world)
unfolding to_lower_case trim parse_draft_recipient_list parse_draft_recipients
    parse_draft_attachments has_mailbox
ensure_draft_send_allowed_complete_example =
    ensure_draft_send_allowed_complete send draft_world no_usage
      (record { id = 5; tenant_id = 1; address = local_address; is_active = true }) payload to_self
      draft_world (refl, refl, refl) refl (inl refl) tt tt refl (refl, refl, refl, ([], refl, tt))
      is_allowed

abbrev external_payload : Json
external_payload = obj (field "to" (arr (cons (str (codes "ann@example.org")) nil)) end)

-- the same world with a draft to an address outside
abbrev external_world : World
external_world = record world {
  mail = record mail { objects = put 31 external_payload (λ _. none) };
}

abbrev origin : Origin
origin = record { source_message_id = none; created_via = none }

reserve_draft-Reserved_example :
    Reserved 1 31 origin external_world (reserve_draft_send_credits 1 31 origin external_world)
reserve_draft-Reserved_example = reserve_draft-Reserved 1 31 origin external_world

abbrev waiting : Draft
waiting = record {
  id = 40;
  tenant_id = 1;
  agent_id = 7;
  mailbox_id = 5;
  thread_id = none;
  source_message_id = none;
  created_via = none;
  status = DraftStatus.approved;
  draft_r2_key = 30;
  updated_at = 5;
}

abbrev sender_payload : Json
sender_payload = obj (
    field "from" (str local_address)
      (field "to" (arr (cons (str (codes "ann@example.org")) nil)) end))

-- a draft to an address outside, for which there is a job already: its credit is reserved, and
-- released when the second job is refused
abbrev repeated_world : World
repeated_world = record draft_world {
  mail = record (draft_world.mail) {
    drafts = waiting ∷ [];
    objects = put 30 sender_payload (λ _. none);
  };
}

enqueue-Restored_example :
    Restored 1 repeated_world.bank.accounts (enqueue_draft_send 40 repeated_world)
enqueue-Restored_example = enqueue-Restored 40 1 repeated_world refl (omega arith)
