-- ===== src/Routing/Counts.antt =====
-- The counts and the domain lists of a routing.
use mailagents_email_runtime.Base.{
  ◌+◌, ◌≡◌, refl, Bool, false, not, Option, List, [], ◌∷◌, arith, length, length-append, length-map,
  any, keep,
}
use mailagents_email_runtime.Text.{Text, text_eq, unique}
use mailagents_email_runtime.World.{World, ok}
use mailagents_email_runtime.Routing.{
  LocalMailboxRecipient, RoutedOutboundRecipients, Recipients, normalize_recipient_list,
  internal_of, external_of, split_lists, unique_domains, route_outbound_recipients,
}
use mailagents_email_runtime.Routing.Laws.{Routes, route-Routes}

count-split :
    (f : Text → Option LocalMailboxRecipient) (xs : List Text)
    → length (internal_of f xs) + length (external_of f xs) ≡ length xs
count-split f [] = omega arith
count-split f (x ∷ xs) = ground (arith, count-split f xs)

-- What the counts of a routing of these lists say.
abbrev pub CountsOf : List Text → List Text → List Text → RoutedOutboundRecipients → Type 0
CountsOf to cc bcc r =
    (r.internal_recipient_count + r.external_recipient_count ≡ length to + length cc + length bcc)
    × (length r.to_internal + r.external_to_recipient_count ≡ length to)
    × (r.external_recipient_count
        ≡ length r.to_external + length r.cc_external + length r.bcc_external)

split_lists-CountsOf :
    (f : Text → Option LocalMailboxRecipient) (to cc bcc : List Text)
    → CountsOf to cc bcc (split_lists f to cc bcc)
unfolding split_lists
split_lists-CountsOf f to cc bcc = (
  rw length-map (
      rw (length-append, length-append, length-append, length-append)
        (omega (arith, count-split f to, count-split f cc, count-split f bcc))),
  count-split f to,
  rw (length-append, length-append) (omega arith),
)

-- No text of the list stands in it twice.
abbrev pub IsDistinct : List Text → Type 0
IsDistinct [] = Unit
IsDistinct (s ∷ ss) = (any (text_eq s) ss ≡ false) × IsDistinct ss

keep_ne : (s : Text) (ts : List Text) → any (text_eq s) (keep (λ t. not (text_eq s t)) ts) ≡ false
keep_ne s [] = refl
keep_ne s (t ∷ ts) = ground (arith, keep_ne s ts)

any-keep :
    (s : Text) (p : Text → Bool) (ts : List Text)
    → any (text_eq s) ts ≡ false
    → any (text_eq s) (keep p ts) ≡ false
any-keep s p [] h = refl
any-keep s p (t ∷ ts) h = ground (arith, any-keep s p ts)

keep-IsDistinct : (p : Text → Bool) (ts : List Text) → IsDistinct ts → IsDistinct (keep p ts)
keep-IsDistinct p [] h = tt
keep-IsDistinct p (t ∷ ts) h = ground (arith, any-keep t p ts, keep-IsDistinct p ts)

pub unique-IsDistinct : (ts : List Text) → IsDistinct (unique ts)
unfolding unique
unique-IsDistinct [] = tt
unique-IsDistinct (t ∷ ts) = (
  keep_ne t (unique ts),
  keep-IsDistinct (λ u. not (text_eq t u)) (unique ts) (unique-IsDistinct ts),
)

abbrev pub DistinctDomains : RoutedOutboundRecipients → Type 0
DistinctDomains r =
    IsDistinct r.recipient_domains × IsDistinct r.internal_domains × IsDistinct r.external_domains

split_lists-DistinctDomains :
    (f : Text → Option LocalMailboxRecipient) (to cc bcc : List Text)
    → DistinctDomains (split_lists f to cc bcc)
unfolding split_lists unique_domains
split_lists-DistinctDomains f to cc bcc =
    (unique-IsDistinct _, unique-IsDistinct _, unique-IsDistinct _)

-- A routing that returns counts every recipient of the normalised lists once, as internal or as
-- external, and lists no domain twice.
pub route_counts :
    (input : Recipients) (w w' : World) (r : RoutedOutboundRecipients)
    → route_outbound_recipients input w ≡ (ok r, w')
    → CountsOf
        (normalize_recipient_list input.to)
        (normalize_recipient_list input.cc)
        (normalize_recipient_list input.bcc)
        r
      × DistinctDomains r
route_counts input w w' r e =
    let routes : Routes w input (ok r, w') = rw e at (route-Routes input w) in
    rw routes.0 (split_lists-CountsOf _ _ _ _, split_lists-DistinctDomains _ _ _ _)
