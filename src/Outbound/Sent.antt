-- ===== src/Outbound/Sent.antt =====
-- A provider's identifier stands in one visible message at most.
use mailagents_email_runtime.Base.{
  ℕ, ◌≡◌, ◌≢◌, ◌≤◌, refl, Bool, true, false, not, ◌&&◌, List, [], ◌∷◌, arith, any, ◌==◌, suc,
  if◌then◌else◌, inl, inr, Bool-cases,
}
use mailagents_email_runtime.World.{World, Mailbox, Message, MessageStatus}
use mailagents_email_runtime.World.Tables.{update_rows}
use mailagents_email_runtime.Outbound.{
  messages, has_mailbox, is_conflict, has_provider_id, sent_message, mark_message_sent,
  is_visible_message,
}

-- how many visible messages carry the provider's identifier
abbrev pub carriers : List Mailbox → ℕ → List Message → ℕ
carriers bs provider [] = 0
carriers bs provider (r ∷ rows) =
    let rest = carriers bs provider rows in
    if has_provider_id provider r && has_mailbox bs r.mailbox_id r.tenant_id then suc rest else rest

-- how many messages have the identifier `id`
abbrev pub rows_with_id : ℕ → List Message → ℕ
rows_with_id id [] = 0
rows_with_id id (r ∷ rows) =
    let rest = rows_with_id id rows in if r.id == id then suc rest else rest

module _ (bs : List Mailbox) (provider id : ℕ) (status : MessageStatus) (now : ℕ) where
  carriers-sent :
      (rows : List Message)
      → any (is_conflict bs provider id) rows ≡ false
      → carriers bs provider (
          update_rows
            (λ r. is_visible_message bs id r && true)
            (sent_message provider status now)
            rows)
        ≤ rows_with_id id rows
  carriers-sent [] h = ground arith
  carriers-sent (r ∷ rows) h = ground (arith, carriers-sent rows)

  carriers-others :
      (q : ℕ) (b : Bool) (rows : List Message)
      → q ≢ provider
      → carriers bs q (
          update_rows
            (λ r. is_visible_message bs id r && b)
            (sent_message provider status now)
            rows)
        ≤ carriers bs q rows
  carriers-others q b [] ne = ground arith
  carriers-others q b (r ∷ rows) ne = ground (arith, carriers-others q b rows ne)

  carriers-unsent :
      (q : ℕ) (rows : List Message)
      → carriers bs q (
          update_rows
            (λ r. is_visible_message bs id r && false)
            (sent_message provider status now)
            rows)
        ≡ carriers bs q rows
  carriers-unsent q [] = refl
  carriers-unsent q (r ∷ rows) = ground (arith, carriers-unsent q rows)

  carriers-any :
      (q : ℕ) (rows : List Message) (b : Bool)
      → any (is_conflict bs provider id) rows ≡ b
      → rows_with_id id rows ≤ 1
      → carriers bs q rows ≤ 1
      → carriers bs q (
          update_rows
            (λ r. is_visible_message bs id r && not b)
            (sent_message provider status now)
            rows)
        ≤ 1
  carriers-any q rows true c one h = rw (carriers-unsent q rows) h
  carriers-any q rows false c one h = elim (Bool-cases (q == provider)) [
    | inl y ↦ ground (arith, carriers-sent rows c)
    | inr n ↦ ground (arith, carriers-others q true rows)
  ]

-- Where one message at most has the identifier, marking it as sent keeps each provider's identifier
-- in one visible message at most, whatever fails.
pub mark_sent-IsUnique :
    (q provider id : ℕ) (status : MessageStatus) (w : World)
    → rows_with_id id (messages w) ≤ 1
    → carriers w.mail.mailboxes q (messages w) ≤ 1
    → carriers w.mail.mailboxes q (messages (mark_message_sent id provider status w).1) ≤ 1
unfolding mark_message_sent
mark_sent-IsUnique q provider id status w one h = ground (
  arith,
  carriers-any w.mail.mailboxes provider id status w.now q (messages w)
      (any (is_conflict w.mail.mailboxes provider id) (messages w)) refl one h,
)
