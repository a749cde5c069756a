-- ===== src/Lib.antt =====
-- Verification library of the Mailagents email runtime, a Cloudflare Worker that receives mail,
-- hands it to agents, and sends their replies on credits.
--
-- The program's state is in D1 tables and in R2 objects; `World` holds them, with the clock, a
-- source of identifiers, and the faults that the services will have. A call of the code is a
-- function of the world that returns or throws and leaves a new world: what was written before a
-- throw stays written. Each awaited statement takes one fault from the list: where it fails it
-- throws and writes nothing. The theorems hold for every list of faults, unless they say otherwise.
-- Identifiers, keys and times are numbers, texts are lists of UTF-16 code units, case is mapped on
-- ASCII letters only, and credits are integers that do not overflow.
--
-- - Base, Text, Json: numbers, lists, integers, strings and parsed JSON as the code uses them;
--   Text.Trim proves.
-- - World: the rows of src/types.ts and of the tables (Rows), async code (Monad), SQL statements
--   on tables (Tables).
-- - LedgerMetadata: src/lib/payments/ledger-metadata.ts.
-- - Billing: src/repositories/billing.ts. Accounts has ensureTenantBillingAccount and the
--   statements that reconcile, reserve, release, capture and decrement credits; Ledger has the
--   look-ups and the three functions that append a typed entry, of which the common body is
--   append_typed_entry. Laws, References and Append prove.
-- - Routing: src/lib/local-recipient-routing.ts. Laws, Splits, Counts and Calm prove.
-- - Policy: evaluateOutboundPolicy of src/lib/outbound-policy.ts, with the send policies
--   (src/repositories/tenant-policies.ts, src/lib/send-limits.ts) in Tenant and the default agent
--   policy (src/lib/self-serve-agent-policy.ts) in Agent. The counts of past sends are an argument.
--   Relax opens the default policies of the agents of a tenant that may send outside.
-- - Credits: src/lib/outbound-credits.ts (Requirement) and src/lib/outbound-billing.ts (Settle),
--   over Routing and Billing.
-- - Idempotency: the idempotency keys of src/repositories/mail.ts.
-- - Outbound: the jobs, messages and drafts of src/repositories/mail.ts that a send reads, claims
--   and updates. Recover and Send have handleOutboundSend of src/handlers/queues.ts for one message
--   of the queue: Recover what does not send, Send the rest, cut where the source assigns the
--   variables that its outer catch reads. The draft guards, the local delivery and the provider are
--   arguments of it (`Services`); the bound on retries and the time of grace too (`Limits`).
--   Claim, Turned, Sent, Once, Unreadable and, from Calm to Ends, the modules on how a run ends, prove.
-- - Guards: src/lib/draft-send-guards.ts. Payload parses the stored draft, Lookup has what the
--   guards read of src/repositories/agents.ts and src/repositories/mail.ts, Check the guards and the
--   reservation of credits for a draft. Ensures, Facts, Stored, Sound, Complete and Reserve prove.
-- - Auth: src/lib/auth.ts. Base64 has the encoding, Token minting and verification, Access the guards
--   of a request and the admin flags; Laws and Mint prove. HMAC and JSON text are a `Platform`.
-- - Router: src/lib/router.ts; `URLPattern` and the handlers are arguments.
-- - Subject: normalizeSubject of src/lib/email-parser.ts, its loop on the length of the subject.
--   Laws and Strips prove.
-- - Drafts: enqueueDraftSend of src/repositories/mail.ts. Statements has the statements on drafts, jobs
--   and messages, Threads getOrCreateThread, Enqueue the body up to the reservation of credits, Body
--   the rest with its catch. Quiet, Before, Priced, Released, Undo and Restores prove. The key of a
--   thread that is opened is the number of its message.
-- - Payments: payment receipts. Metadata and Stored have src/lib/payments/receipt-metadata.ts, which
--   reads and writes what a receipt records; Exchange and Answers the answers of the payment
--   facilitator of src/lib/payments/x402-facilitator.ts, with the HTTP exchange an argument
--   (`Facilitator`); Receipts and Create the receipts of src/repositories/billing.ts; Confirm, Settle,
--   Finalize and Retry confirmPaymentReceiptWithFacilitator, finalizePaymentReceiptSettlement (Settle
--   for top-ups, Finalize for upgrades and the whole) and POST /v1/billing/payment/confirm with
--   withRefreshedPaymentReceipt of src/routes/api.ts. A settlement reference enters the ledger as a
--   key that the `Facilitator` gives for its text. The other modules prove: Frame, Rules, Confirmed,
--   Finalized, Retried, Updated and Current carry a property of the world through the operations,
--   Entries, Adds, Replay, Steps, Credited, Linked, Settled, Refused and Unpaid use them; Merged, Reread
--   and Storable are about the stored metadata.
-- - Tests: a small world, and each theorem with hypotheses at a concrete input.
--
-- All functions are structural recursions, but for the loop of Subject, whose fuel is the length of
-- the subject. Two requests that race are two runs of
-- the part of the function that follows the look-up, one after the other.
--
-- Not modelled: the other queue handlers, inbound mail, the routes that quote prices and make
-- receipts, the local mock of the payment facilitator, other HTTP routes and MCP tools, signup and
-- pages; the providers, the payment facilitator and Web Crypto are services that the code calls.
-- Messages of errors are left out, and the fallbacks of mail.ts for databases that miss a column.
pub mod Base
pub mod Text
pub mod Json
pub mod World
pub mod LedgerMetadata
pub mod Billing
pub mod Routing
pub mod Policy
pub mod Credits
pub mod Idempotency
pub mod Outbound
pub mod Guards
pub mod Auth
pub mod Router
pub mod Subject
pub mod Drafts
pub mod Payments
mod Tests
