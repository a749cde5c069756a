-- ===== src/Routing/Calm.antt =====
-- Routing where no service fails.
use mailagents_email_runtime.Base.{◌≡◌, List, [], ◌∷◌, arith}
use mailagents_email_runtime.Text.{Text}
use mailagents_email_runtime.World.{World, Keeps, bind-Keeps}
use mailagents_email_runtime.Routing.{
  Recipients, get_mailbox_by_address, local_mailboxes, route_outbound_recipients,
}

-- No call of a service will fail.
abbrev pub IsCalm : World → Type 0
IsCalm w = w.faults ≡ []

get_mailbox-IsCalm : (a : Text) → Keeps IsCalm (get_mailbox_by_address a)
unfolding get_mailbox_by_address
get_mailbox-IsCalm a w h = ground arith

local_mailboxes-IsCalm : (addresses : List Text) → Keeps IsCalm (local_mailboxes addresses)
unfolding local_mailboxes
local_mailboxes-IsCalm [] = λ w h. h
local_mailboxes-IsCalm (a ∷ rest) =
    bind-Keeps IsCalm (get_mailbox_by_address a) _ (get_mailbox-IsCalm a) (λ found.
      bind-Keeps IsCalm (local_mailboxes rest) _ (local_mailboxes-IsCalm rest) (λ es w h. h))

pub route-IsCalm : (input : Recipients) → Keeps IsCalm (route_outbound_recipients input)
unfolding route_outbound_recipients
route-IsCalm input = bind-Keeps IsCalm _ _ (local_mailboxes-IsCalm _) (λ es w h. h)
