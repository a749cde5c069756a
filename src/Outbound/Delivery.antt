-- ===== src/Outbound/Delivery.antt =====
-- The send of a claimed job where no service fails.
use mailagents_email_runtime.Base.{
  ℕ, Bool, true, false, not, Option, none, some, List, [], ◌∷◌, arith, is_empty, if◌then◌else◌, map,
  ◌++◌,
}
use mailagents_email_runtime.Text.{Text, unique, non_empty}
use mailagents_email_runtime.Json.{Fields}
use mailagents_email_runtime.World.{
  Draft, OutboundJob, Action, Failure, outbound_policy, ◌>>◌, bind-Keeps, Keeps, pure, when,
  throw_if,
}
use mailagents_email_runtime.Routing.{
  Recipients, RoutedOutboundRecipients, LocalMailboxRecipient, has_routing_error,
  normalize_recipient_address,
}
use mailagents_email_runtime.Routing.Calm.{IsCalm}
use mailagents_email_runtime.Outbound.{get_suppression}
use mailagents_email_runtime.Outbound.Send.{
  suppressed_of, allow_draft, Services, Limits, deliver, get_suppressed_recipients,
}
use mailagents_email_runtime.Outbound.Calm.{then-IsCalm, when-IsCalm}

-- None of the services makes another call fail.
abbrev pub AreCalm : Services → Type 0
AreCalm s =
    ((d : Draft) → Keeps IsCalm (s.ensure_draft_send_allowed d))
    × ((job : OutboundJob) (payload : Fields) (r : Recipients) (l : List LocalMailboxRecipient)
        → Keeps IsCalm (s.deliver_locally_to_mailboxes job payload r l))
    × ((job : OutboundJob) (reply_to : Text) (payload : Fields) (routed : RoutedOutboundRecipients)
        → Keeps IsCalm (s.send_outbound_draft job reply_to payload routed))

suppression-IsCalm : (a : Text) → Keeps IsCalm (get_suppression a)
unfolding get_suppression
suppression-IsCalm a w h = ground arith

suppressed-IsCalm : (addresses : List Text) → Keeps IsCalm (suppressed_of addresses)
unfolding suppressed_of
suppressed-IsCalm [] = λ w c. c
suppressed-IsCalm (a ∷ rest) =
    bind-Keeps IsCalm (get_suppression a) _ (suppression-IsCalm a)
      (λ b. bind-Keeps IsCalm (suppressed_of rest) _ (suppressed-IsCalm rest) (λ _ w c. c))

get_suppressed-IsCalm : (l : List Text) → Keeps IsCalm (get_suppressed_recipients l)
unfolding get_suppressed_recipients
get_suppressed-IsCalm l = suppressed-IsCalm (unique (non_empty (map normalize_recipient_address l)))

throw_if-IsCalm : (b : Bool) (e : Failure) → Keeps IsCalm (throw_if b e)
throw_if-IsCalm true e w c = c
throw_if-IsCalm false e w c = c

module _ (s : Services) (limits : Limits) (calm : AreCalm s) where
  last-IsCalm :
      (b : Bool) (job : OutboundJob) (m : Action ℕ)
      → Keeps IsCalm m
      → Keeps IsCalm (if b then pure (s.internal_message_id job) else m)
  last-IsCalm true job m h = λ w c. c
  last-IsCalm false job m h = h

  pub deliver-IsCalm :
      (job : OutboundJob) (reply_to : Text) (payload : Fields) (r : Recipients)
      (routed : RoutedOutboundRecipients)
      → Keeps IsCalm (deliver s limits job reply_to payload r routed)
  unfolding deliver
  deliver-IsCalm job reply_to payload r routed =
      let internal = routed.to_internal ++ (routed.cc_internal ++ routed.bcc_internal) in
      let external = routed.to_external ++ (routed.cc_external ++ routed.bcc_external) in
      let locally = s.deliver_locally_to_mailboxes job payload r internal in
      let broken =
        has_routing_error routed.external_recipient_count routed.external_to_recipient_count in
      let send : Action ℕ =
        if is_empty external
        then pure (s.internal_message_id job)
        else s.send_outbound_draft job reply_to payload routed in
      bind-Keeps IsCalm (get_suppressed_recipients external)
        (λ l.
          throw_if (not (is_empty l)) outbound_policy
          >> (throw_if broken outbound_policy >> (when (not (is_empty internal)) locally >> send)))
        (get_suppressed-IsCalm external)
        (λ l.
          then-IsCalm (throw_if (not (is_empty l)) outbound_policy)
            (throw_if broken outbound_policy >> (when (not (is_empty internal)) locally >> send))
            (throw_if-IsCalm (not (is_empty l)) outbound_policy)
            (then-IsCalm (throw_if broken outbound_policy)
              (when (not (is_empty internal)) locally >> send)
              (throw_if-IsCalm broken outbound_policy)
              (then-IsCalm (when (not (is_empty internal)) locally) send
                (when-IsCalm (not (is_empty internal)) locally (calm.1 job payload r internal))
                (last-IsCalm (is_empty external) job
                  (s.send_outbound_draft job reply_to payload routed)
                  (calm.2 job reply_to payload routed)))))

  pub allow-IsCalm : (d : Option Draft) → Keeps IsCalm (allow_draft s d)
  allow-IsCalm none = λ w c. c
  allow-IsCalm (some d) = calm.0 d
