-- ===== src/Routing/Laws.antt =====
-- Routing reads the tables only, and meets its plain description without the map of mailboxes.
use mailagents_email_runtime.Base.{
  ◌≡◌, refl, sym, ◌∙◌, Bool, true, false, not, ◌||◌, Option, none, some, List, [], ◌∷◌, ◌++◌, arith,
  Bool-cases, Option-cases, any, keep, inl, inr,
}
use mailagents_email_runtime.Text.{
  Text, text_eq, text_eq_refl, eq_of_text_eq, to_lower_case, unique,
}
use mailagents_email_runtime.World.{World, Mail, service, Result, ok, err}
use mailagents_email_runtime.Routing.{
  LocalMailboxRecipient, RoutedOutboundRecipients, Recipients, normalize_recipient_list, mailbox_at,
  local_recipient, Entries, add_entry, entry_of, local_mailboxes, internal_of, external_of,
  split_lists, route_outbound_recipients,
}

-- The active mailbox at an address, in the tables.
abbrev pub local_in : Mail → Text → Option LocalMailboxRecipient
local_in m a = local_recipient a (mailbox_at (to_lower_case a) m.mailboxes)

abbrev pub local_at : World → Text → Option LocalMailboxRecipient
local_at w = local_in w.mail

abbrev entries_at : World → List Text → Entries
entries_at w [] = []
entries_at w (a ∷ rest) = add_entry a (local_at w a) (entries_at w rest)

-- Only the faults still to come differ.
abbrev pub ReadOnly : World → World → Type 0
ReadOnly w w' = w' ≡ record w { faults = w'.faults }

abbrev LooksUp : World → List Text → Result Entries × World → Type 0
LooksUp w xs (ok es, w') = (es ≡ entries_at w xs) × ReadOnly w w'
LooksUp w xs (err _, w') = ReadOnly w w'

local_mailboxes-LooksUp : (xs : List Text) (w : World) → LooksUp w xs (local_mailboxes xs w)
unfolding local_mailboxes
local_mailboxes-LooksUp [] w = (refl, refl)
local_mailboxes-LooksUp (x ∷ xs) w = ground (arith, local_mailboxes-LooksUp xs (service w).1)

entry_of-add_entry_ne :
    (a b : Text) (r : Option LocalMailboxRecipient) (es : Entries)
    → text_eq b a ≡ false
    → entry_of a (add_entry b r es) ≡ entry_of a es
entry_of-add_entry_ne a b none es h = refl
entry_of-add_entry_ne a b (some r) es h = rw h

entry_of-none :
    (w : World) (a : Text) (xs : List Text)
    → local_at w a ≡ none
    → entry_of a (entries_at w xs) ≡ none
entry_of-none w a [] h = refl
entry_of-none w a (x ∷ xs) h = elim (Bool-cases (text_eq x a)) [
  | inl same ↦
      let e : local_at w x ≡ none = rw (eq_of_text_eq x a same) h in rw e (entry_of-none w a xs h)
  | inr other ↦
      entry_of-add_entry_ne a x (local_at w x) (entries_at w xs) other ∙ entry_of-none w a xs h
]

abbrev mem : Text → List Text → Bool
mem a = any (λ x. text_eq x a)

entry_of-some :
    (w : World) (a : Text) (xs : List Text) (r : LocalMailboxRecipient)
    → local_at w a ≡ some r
    → mem a xs ≡ true
    → entry_of a (entries_at w xs) ≡ some r
entry_of-some w a [] r h m = cc
entry_of-some w a (x ∷ xs) r h m = elim (Bool-cases (text_eq x a)) [
  | inl same ↦ let e : local_at w x ≡ some r = rw (eq_of_text_eq x a same) h in rw e (rw same)
  | inr other ↦
      entry_of-add_entry_ne a x (local_at w x) (entries_at w xs) other
      ∙ entry_of-some w a xs r h (ground arith)
]

-- An address that was looked up is found exactly when it has an active mailbox.
entry_of-entries_at :
    (w : World) (a : Text) (xs : List Text)
    → mem a xs ≡ true
    → entry_of a (entries_at w xs) ≡ local_at w a
entry_of-entries_at w a xs m = elim (Option-cases (local_at w a)) [
  | inl missing ↦ entry_of-none w a xs missing ∙ sym missing
  | inr (r, found) ↦ entry_of-some w a xs r found m ∙ sym found
]

mem-keep :
    (a b : Text) (xs : List Text)
    → text_eq b a ≡ false
    → mem a (keep (λ t. not (text_eq b t)) xs) ≡ mem a xs
mem-keep a b [] h = refl
mem-keep a b (x ∷ xs) h = elim (Bool-cases (text_eq b x)) [
  | inl same ↦
      let e : text_eq x a ≡ false = rw (← eq_of_text_eq b x same) h in
      ground (arith, mem-keep a b xs h)
  | inr other ↦ ground (arith, mem-keep a b xs h)
]

mem-unique : (a : Text) (xs : List Text) → mem a xs ≡ true → mem a (unique xs) ≡ true
unfolding unique
mem-unique a [] h = h
mem-unique a (x ∷ xs) h = ground (arith, mem-unique a xs, mem-keep a x (unique xs))

mem-append : (a : Text) (xs ys : List Text) → mem a (xs ++ ys) ≡ (mem a xs || mem a ys)
mem-append a [] ys = refl
mem-append a (x ∷ xs) ys = ground (arith, mem-append a xs ys)

-- Two maps that agree on a list split it alike.
split_agree :
    (f g : Text → Option LocalMailboxRecipient) (xs : List Text)
    → ((a : Text) → mem a xs ≡ true → f a ≡ g a)
    → (internal_of f xs ≡ internal_of g xs) × (external_of f xs ≡ external_of g xs)
split_agree f g [] h = (refl, refl)
split_agree f g (x ∷ xs) h =
    let (i, e) = split_agree f g xs (λ a m. h a (ground arith)) in
    let same : f x ≡ g x = h x (rw (text_eq_refl x)) in (ground arith, ground arith)

-- The recipients split by the active mailboxes at their addresses.
abbrev pub routed_in : Mail → Recipients → RoutedOutboundRecipients
routed_in m input =
    split_lists (local_in m) (normalize_recipient_list input.to) (normalize_recipient_list input.cc)
      (normalize_recipient_list input.bcc)

-- What routing gives, with each address looked up on its own.
abbrev pub Routes : World → Recipients → Result RoutedOutboundRecipients × World → Type 0
Routes w input (ok routed, w') = (routed ≡ routed_in w.mail input) × ReadOnly w w'
Routes w input (err _, w') = ReadOnly w w'

agree_on :
    (w : World) (to cc bcc : List Text)
    → split_lists (λ a. entry_of a (entries_at w (unique (to ++ (cc ++ bcc))))) to cc bcc
      ≡ split_lists (local_at w) to cc bcc
unfolding split_lists
agree_on w to cc bcc =
    let all_of = to ++ (cc ++ bcc) in
    let found = λ (a : Text). entry_of a (entries_at w (unique all_of)) in
    let agree = λ (a : Text) (m : mem a all_of ≡ true).
      entry_of-entries_at w a (unique all_of) (mem-unique a all_of m) in
    let in_to =
      split_agree found (local_at w) to
        (λ a m. agree a (mem-append a to (cc ++ bcc) ∙ ground arith)) in
    let in_cc =
      split_agree found (local_at w) cc
        (λ a m. agree a (mem-append a to (cc ++ bcc) ∙ ground (arith, mem-append a cc bcc))) in
    let in_bcc =
      split_agree found (local_at w) bcc
        (λ a m. agree a (mem-append a to (cc ++ bcc) ∙ ground (arith, mem-append a cc bcc))) in
    rw (in_to.0, in_to.1, in_cc.0, in_cc.1, in_bcc.0, in_bcc.1)

-- Routing sends each recipient to the active mailbox at its address, or to the outside where there
-- is none, in the order given; the map of the distinct addresses changes nothing. It writes nothing.
pub route-Routes :
    (input : Recipients) (w : World) → Routes w input (route_outbound_recipients input w)
unfolding route_outbound_recipients
route-Routes input w = ground (
  arith,
  local_mailboxes-LooksUp
      (unique (
        normalize_recipient_list input.to
        ++ (normalize_recipient_list input.cc ++ normalize_recipient_list input.bcc)))
      w,
  agree_on w (normalize_recipient_list input.to) (normalize_recipient_list input.cc)
      (normalize_recipient_list input.bcc),
)
