-- ===== src/Guards/Lookup.antt =====
-- What the guards read: agents and their bindings, threads, and the owners of attachments.
use mailagents_email_runtime.Base.{
  ℕ, Bool, true, false, ◌&&◌, not, Option, none, some, List, [], ◌∷◌, ◌==◌, if◌then◌else◌, any,
  find, keep, ◌++◌,
}
use mailagents_email_runtime.Text.{Text, text_eq}
use mailagents_email_runtime.World.{
  Mail, Mailbox, Message, Thread, AttachmentRow, AgentMailbox, MailboxDeployment, MailboxRole,
  primary, shared, send_only, receive_only, Action, ◌>>=◌, ◌>>◌, gets, service, pure,
}
use mailagents_email_runtime.Outbound.{has_mailbox, is_visible_message}

-- the tenant of the agent, of which the guards use nothing else
unfoldable pub get_agent : ℕ → Action (Option ℕ)
unfolding service
get_agent id = service >> gets (λ w. w.mail.agents id)

-- `agents.id = ? AND agents.tenant_id = ?`
abbrev pub has_agent : Mail → ℕ → ℕ → Bool
has_agent m agent tenant = elim (m.agents agent) [ none ↦ false | some t ↦ t == tenant ]

-- `SEND_CAPABLE_MAILBOX_ROLES`
abbrev pub is_send_capable : MailboxRole → Bool
is_send_capable primary = true
is_send_capable shared = true
is_send_capable send_only = true
is_send_capable receive_only = false

abbrev pub any_role : MailboxRole → Bool
any_role _ = true

abbrev pub is_active_binding : Mail → (MailboxRole → Bool) → ℕ → ℕ → AgentMailbox → Bool
is_active_binding m roles agent mailbox row =
    row.mailbox_id == mailbox
    && (row.agent_id == agent
        && (row.is_active
            && (roles row.role
                && (has_mailbox m.mailboxes row.mailbox_id row.tenant_id
                    && has_agent m row.agent_id row.tenant_id))))

-- The roles that are asked for, or any where the source gives none.
unfoldable pub has_active_mailbox_binding : (MailboxRole → Bool) → ℕ → ℕ → Action Bool
unfolding service
has_active_mailbox_binding roles agent mailbox =
    service >> gets (λ w. any (is_active_binding w.mail roles agent mailbox) w.mail.agent_mailboxes)

abbrev has_version : Mail → ℕ → ℕ → Bool
has_version m version agent = any (λ v. v.id == version && v.agent_id == agent) m.agent_versions

abbrev pub is_active_deployment : Mail → ℕ → ℕ → MailboxDeployment → Bool
is_active_deployment m agent mailbox row =
    row.target_id == mailbox
    && (row.is_active
        && (row.agent_id == agent
            && (has_agent m row.agent_id row.tenant_id
                && (has_version m row.agent_version_id row.agent_id
                    && has_mailbox m.mailboxes row.target_id row.tenant_id))))

unfoldable pub has_active_mailbox_deployment : ℕ → ℕ → Action Bool
unfolding service
has_active_mailbox_deployment agent mailbox =
    service >> gets (λ w. any (is_active_deployment w.mail agent mailbox) w.mail.deployments)

abbrev pub is_visible_thread : List Mailbox → ℕ → Thread → Bool
is_visible_thread boxes id row = row.id == id && has_mailbox boxes row.mailbox_id row.tenant_id

-- `getThread`: its messages are read too, where there is a thread.
unfoldable pub get_thread : ℕ → Action (Option Thread)
unfolding service
get_thread id = do
  service
  thread ← gets (λ w. find (is_visible_thread w.mail.mailboxes id) w.mail.threads)
  elim thread [ none ↦ pure none | some t ↦ service >> pure (some t) ]

pub record AttachmentOwner : Type 0 where
  pub message_id : ℕ
  pub tenant_id : ℕ
  pub mailbox_id : ℕ

abbrev same_owner : AttachmentOwner → AttachmentOwner → Bool
same_owner a b =
    a.message_id == b.message_id && (a.tenant_id == b.tenant_id && a.mailbox_id == b.mailbox_id)

abbrev owners_in : List Mailbox → List Message → ℕ → List AttachmentOwner
owners_in boxes [] id = []
owners_in boxes (m ∷ ms) id =
    let rest = owners_in boxes ms id in
    if is_visible_message boxes id m
    then record { message_id = m.id; tenant_id = m.tenant_id; mailbox_id = m.mailbox_id } ∷ rest
    else rest

-- `attachments JOIN messages JOIN mailboxes WHERE r2_key = ?`
abbrev owners : List Mailbox → List Message → Text → List AttachmentRow → List AttachmentOwner
owners boxes ms key [] = []
owners boxes ms key (a ∷ rest) =
    let others = owners boxes ms key rest in
    if text_eq a.r2_key key then owners_in boxes ms a.message_id ++ others else others

-- `SELECT DISTINCT`
abbrev distinct : List AttachmentOwner → List AttachmentOwner
distinct [] = []
distinct (o ∷ os) = o ∷ keep (λ p. not (same_owner o p)) (distinct os)

abbrev only_owner : List AttachmentOwner → Option AttachmentOwner
only_owner (o ∷ []) = some o
only_owner _ = none

abbrev pub owner_of : Mail → Text → Option AttachmentOwner
owner_of m key = only_owner (distinct (owners m.mailboxes m.messages key m.attachments))

unfoldable pub get_attachment_owner_by_r2_key : Text → Action (Option AttachmentOwner)
unfolding service
get_attachment_owner_by_r2_key key = service >> gets (λ w. owner_of w.mail key)
