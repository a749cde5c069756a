-- ===== src/Guards/Facts.antt =====
-- What each check has seen where it returns.
use mailagents_email_runtime.Base.{
  is_empty, ℕ, ◌≡◌, refl, ◌⊎◌, true, false, Option, none, some, List, [], ◌∷◌, arith, any, find,
  ◌==◌, All,
}
use mailagents_email_runtime.Text.{Text, trim, to_lower_case}
use mailagents_email_runtime.Json.{Fields, property}
use mailagents_email_runtime.World.{Mail, Mailbox, Message, Thread, Done, ◌>>◌}
use mailagents_email_runtime.Routing.{Recipients}
use mailagents_email_runtime.Outbound.{get_mailbox_by_id, get_message, is_visible_message}
use mailagents_email_runtime.Guards.Payload.{
  DraftAttachment, parse_draft_attachments, parse_draft_recipients, from_address,
}
use mailagents_email_runtime.Guards.Lookup.{
  get_agent, is_send_capable, any_role, is_active_binding, is_active_deployment,
  has_active_mailbox_binding, has_active_mailbox_deployment, is_visible_thread, get_thread,
  AttachmentOwner, owner_of, get_attachment_owner_by_r2_key,
}
use mailagents_email_runtime.Guards.Check.{
  DraftSend, check_owner, check_attachment, check_attachments, check_mailbox, check_agent,
  check_binding, check_thread, check_source, is_other_thread,
}
use mailagents_email_runtime.Guards.Ensures.{Ensures, Both, bind-Ensures, Ensures-of}

module _ (input : DraftSend) where
  -- The mailbox is the one of the table, active and the tenant's.
  abbrev pub IsMailbox : Mail → Mailbox → Type 0
  IsMailbox m b =
      (find (λ row. row.id == input.mailbox_id) m.mailboxes ≡ some b)
      × (b.tenant_id ≡ input.tenant_id)
      × (b.is_active ≡ true)

  pub check_mailbox-Ensures : Ensures IsMailbox (check_mailbox input)
  unfolding check_mailbox get_mailbox_by_id
  check_mailbox-Ensures w = ground arith

  abbrev pub IsAgent : Mail → Done → Type 0
  IsAgent m _ = m.agents input.agent_id ≡ some input.tenant_id

  pub check_agent-Ensures : Ensures IsAgent (check_agent input)
  unfolding check_agent get_agent
  check_agent-Ensures w = ground arith

  -- The agent has a role that sends in the mailbox, or is deployed to a mailbox where it has none.
  abbrev pub IsBound : Mail → Done → Type 0
  IsBound m _ =
      (any (is_active_binding m is_send_capable input.agent_id input.mailbox_id) m.agent_mailboxes
        ≡ true)
      ⊎ ((any (is_active_deployment m input.agent_id input.mailbox_id) m.deployments ≡ true)
          × (any (is_active_binding m any_role input.agent_id input.mailbox_id) m.agent_mailboxes
              ≡ false))

  pub check_binding-Ensures : Ensures IsBound (check_binding input)
  unfolding check_binding has_active_mailbox_binding has_active_mailbox_deployment
  check_binding-Ensures w = grind arith

  abbrev OwnsThread : Option Thread → Type 0
  OwnsThread none = ⊥
  OwnsThread (some t) = (t.tenant_id ≡ input.tenant_id) × (t.mailbox_id ≡ input.mailbox_id)

  abbrev pub IsThread : Option ℕ → Mail → Done → Type 0
  IsThread none m _ = Unit
  IsThread (some id) m _ = OwnsThread (find (is_visible_thread m.mailboxes id) m.threads)

  pub check_thread-Ensures :
      (thread : Option ℕ) → Ensures (IsThread thread) (check_thread input thread)
  unfolding check_thread get_thread
  check_thread-Ensures none w = (tt, refl)
  check_thread-Ensures (some id) w = ground arith

  abbrev OwnsMessage : Option Message → Type 0
  OwnsMessage none = ⊥
  OwnsMessage (some m) =
      (m.tenant_id ≡ input.tenant_id)
      × (m.mailbox_id ≡ input.mailbox_id)
      × (is_other_thread input input.thread_id m ≡ false)

  abbrev pub IsSource : Option ℕ → Mail → Done → Type 0
  IsSource none m _ = Unit
  IsSource (some id) m _ = OwnsMessage (find (is_visible_message m.mailboxes id) m.messages)

  pub check_source-Ensures :
      (source : Option ℕ) → Ensures (IsSource source) (check_source input source)
  unfolding check_source get_message
  check_source-Ensures none w = (tt, refl)
  check_source-Ensures (some id) w = ground arith

  abbrev Owns : Option AttachmentOwner → Type 0
  Owns none = ⊥
  Owns (some o) = (o.tenant_id ≡ input.tenant_id) × (o.mailbox_id ≡ input.mailbox_id)

  -- The attachment has a key; one message owns it, and it is the tenant's and in the mailbox.
  abbrev pub IsOwned : Mail → DraftAttachment → Type 0
  IsOwned m a = (is_empty (trim a.r2_key) ≡ false) × Owns (owner_of m (trim a.r2_key))

  check_attachment-Ensures :
      (a : DraftAttachment) → Ensures (λ m _. IsOwned m a) (check_attachment input a)
  unfolding check_attachment get_attachment_owner_by_r2_key check_owner
  check_attachment-Ensures a w = ground arith

  abbrev pub AreOwned : List DraftAttachment → Mail → Done → Type 0
  AreOwned l m _ = All (IsOwned m) l

  pub check_attachments-Ensures :
      (l : List DraftAttachment) → Ensures (AreOwned l) (check_attachments input l)
  unfolding check_attachments
  check_attachments-Ensures [] = λ w. (tt, refl)
  check_attachments-Ensures (a ∷ l) =
      Ensures-of (Both (λ m (_ : Done). IsOwned m a) (λ _. AreOwned l)) (AreOwned (a ∷ l))
        (check_attachment input a >> check_attachments input l)
        (λ m _ (both : Both (λ m (_ : Done). IsOwned m a) (λ _. AreOwned l) m tt). (both.1, both.2))
        (bind-Ensures (λ m (_ : Done). IsOwned m a) (λ _. AreOwned l) (check_attachment input a)
          (λ _. check_attachments input l) (check_attachment-Ensures a)
          (λ _. check_attachments-Ensures l))

  -- What the payload says of a send from the mailbox at `address` to `r`.
  abbrev pub IsPayload : Text → Fields → Mail → Recipients → Type 0
  IsPayload address payload m r =
      (is_empty (from_address payload) ≡ false)
      × (from_address payload ≡ to_lower_case (trim address))
      × (parse_draft_recipients payload ≡ some r)
      × ((l : List DraftAttachment) × (parse_draft_attachments (property "attachments" payload)
            ≡ some l)
          × All (IsOwned m) l)
