-- ===== src/Routing/Splits.antt =====
-- Which recipients are local, said without the functions of the code.
use mailagents_email_runtime.Base.{
  ◌≡◌, refl, true, Option, none, some, List, [], ◌∷◌, arith, inl, inr, Option-cases,
}
use mailagents_email_runtime.Text.{Text, to_lower_case}
use mailagents_email_runtime.World.{World, Mail, Mailbox, Result, ok, err}
use mailagents_email_runtime.Routing.{
  LocalMailboxRecipient, RoutedOutboundRecipients, Recipients, normalize_recipient_list, mailbox_at,
  internal_of, external_of, split_lists, route_outbound_recipients,
}
use mailagents_email_runtime.Routing.Laws.{local_in, routed_in, ReadOnly, Routes, route-Routes}

-- The mailbox in the tables at an address, and that it is active.
abbrev pub HasActive : Mail → Text → Mailbox → Type 0
HasActive m a b = (mailbox_at (to_lower_case a) m.mailboxes ≡ some b) × (b.is_active ≡ true)

-- A list of addresses, those that are local with their mailboxes, and the others.
pub data Splits (m : Mail) : List Text → List LocalMailboxRecipient → List Text → Type 0 where
  nobody : Splits m [] [] []
  inside :
      {a : Text} {b : Mailbox} {addresses outer : List Text} {inner : List LocalMailboxRecipient}
      → HasActive m a b
      → Splits m addresses inner outer
      → Splits m
          (a ∷ addresses)
          (record { address = a; mailbox_id = b.id; tenant_id = b.tenant_id } ∷ inner)
          outer
  outside :
      {a : Text} {addresses outer : List Text} {inner : List LocalMailboxRecipient}
      → ((b : Mailbox) → ¬ HasActive m a b)
      → Splits m addresses inner outer
      → Splits m (a ∷ addresses) inner (a ∷ outer)

-- What routing gives of each of the three lists.
abbrev pub SplitsAll : World → Recipients → Result RoutedOutboundRecipients × World → Type 0
SplitsAll w input (ok r, v) =
    Splits w.mail (normalize_recipient_list input.to) r.to_internal r.to_external
    × Splits w.mail (normalize_recipient_list input.cc) r.cc_internal r.cc_external
    × Splits w.mail (normalize_recipient_list input.bcc) r.bcc_internal r.bcc_external
    × ReadOnly w v
SplitsAll w input (err _, v) = ReadOnly w v

module _ (m : Mail) where
  some-HasActive :
      (a : Text) (o : Option Mailbox) (x : LocalMailboxRecipient)
      → mailbox_at (to_lower_case a) m.mailboxes ≡ o
      → local_in m a ≡ some x
      → (b : Mailbox) × HasActive m a b
        × (x ≡ record { address = a; mailbox_id = b.id; tenant_id = b.tenant_id })
  some-HasActive a none x e h = ground arith
  some-HasActive a (some b) x e h = (b, (e, ground arith), ground arith)

  none-ne-HasActive : (a : Text) → local_in m a ≡ none → (b : Mailbox) → ¬ HasActive m a b
  none-ne-HasActive a h b (e, active) = ground arith

  local-Splits :
      (addresses : List Text)
      → Splits m addresses (internal_of (local_in m) addresses) (external_of (local_in m) addresses)
  local-Splits [] = nobody
  local-Splits (a ∷ addresses) = elim (Option-cases (local_in m a)) [
    | inl e ↦
        rw (e, internal_of, external_of) (outside (none-ne-HasActive a e) (local-Splits addresses))
    | inr (x, e) ↦
        let (b, active, same) =
          some-HasActive a (mailbox_at (to_lower_case a) m.mailboxes) x refl e in
        rw (e, internal_of, external_of, same) (inside active (local-Splits addresses))
  ]

routed-SplitsAll :
    (w v : World) (input : Recipients) (r : RoutedOutboundRecipients)
    → r ≡ routed_in w.mail input
    → ReadOnly w v
    → SplitsAll w input (ok r, v)
unfolding split_lists
routed-SplitsAll w v input r e read = rw e (
  local-Splits w.mail (normalize_recipient_list input.to),
  local-Splits w.mail (normalize_recipient_list input.cc),
  local-Splits w.mail (normalize_recipient_list input.bcc),
  read,
)

Routes-SplitsAll :
    (w : World) (input : Recipients) (x : Result RoutedOutboundRecipients × World)
    → Routes w input x
    → SplitsAll w input x
Routes-SplitsAll w input (ok r, v) (e, read) = routed-SplitsAll w v input r e read
Routes-SplitsAll w input (err e, v) h = h

-- A routing that returns has put each address of `to`, `cc` and `bcc`, once normalised, with the
-- active mailbox that the tables hold for it among the local ones of its list, or among the outer
-- ones of its list where there is no active mailbox, in the order given; it writes nothing.
pub route-SplitsAll :
    (input : Recipients) (w : World) → SplitsAll w input (route_outbound_recipients input w)
route-SplitsAll input w =
    Routes-SplitsAll w input (route_outbound_recipients input w) (route-Routes input w)
