-- ===== src/Lib.antt =====
-- A verification library for ChmabaPay, a payment platform of KHQR codes: merchants (accounts) own
-- stores, stores take payments by codes, and the platform bills each merchant a plan fee by
-- invoices that are paid the same way. The Python code stands under src/chmabapay.
--
-- The parts, and the code that each one models:
-- - Base: shared names, lists as tables (select, find_by, update_where, count_where), Boolean
--   tests, signed integers, strings as lists of code points; Base/Counts, Keys and Finds have the
--   lemmas on tables.
-- - Model: the rows of models.py (Model/Rows) and the state of a session (Model/Database): a list
--   of rows for each table in the order of insertion, and the next primary key of each table that
--   is inserted into.
-- - Khqr: khqr.py. Khqr/Tlv has tlv and parse_tlv, Khqr/Checksum the checksum and the last field of
--   a payload; Khqr/Build has build_khqr_payload with the fields that it chooses. Khqr/RoundTrip,
--   Khqr/Sealed and Khqr/Payload have what the reader gives on written fields, on sealed payloads
--   and on payments' codes.
-- - Stores: services/stores.py. Stores/Cap has apply_store_cap, Stores/Slot has plan_max_stores,
--   disable_store, enable_store and move_store_slot; Stores/Links and Stores/Attach have
--   resolve_link, attach_link_to_store and attach_link, Stores/Create has create_store and
--   Stores/Update update_store; Stores/Allowance and Stores/Swap have the counts of live stores,
--   Stores/Switch a store that is disabled and enabled again, Stores/Destinations, Stores/Opened
--   and Stores/Patched a store's links.
-- - Billing: services/billing.py. Billing/Clock has the periods, Billing/Terms the states and the
--   dunning table with derived_state, Billing/Issue the raising of invoices, Billing/Coverage the
--   subscriptions in force, Billing/Settle the settlement, Billing/Grace the freeze, Billing/Hq the
--   store that fees are collected into and Billing/Banner derive_notices. The proofs are in
--   Billing/Tiers, Windows, Live, Replaced, Outcome, Lapse, Retry, Untouched, Freeze, Frozen and
--   Oldest; Billing/Receipt says what a settlement owes, column by column.
-- - Webhooks: webhooks.py and workers/w2_webhook_sender.py. Webhooks/Outbox writes an event with
--   its deliveries, Webhooks/Delivery sends one and schedules the next attempt; Webhooks/Fanout,
--   Retries, Scans, Batch and Exhausted hold the proofs.
-- - Payments: services/payments.py. Payments/Ledger has the usage ledger, Payments/Confirm
--   scanning, confirmation and reversal, Payments/Expiry the expiry sweep, Payments/Mint the links
--   and mint_qr, Payments/Create create_payment, Payments/Quota the monthly quota and
--   Payments/Reissue reissue_payment; Payments/Repeat, Net, Usage, Sweep, Accepted, Replay and
--   Successors hold the proofs.
-- - Portal: routers/billing.py. Portal/ChangePlan has change_plan and Portal/InvoiceCode
--   get_invoice_khqr; Portal/Loaded, Purchase, Chosen, Bought, Unsettled and LateFee hold the
--   proofs.
-- - Workers: workers/job.py, workers/base.py and workers/inprocess.py. Workers/Queue has the
--   operations of the in-process queue, Workers/Steps what can happen to it, and Workers/Spec what
--   it promises; Workers/Refines and Workers/Attempts hold the proofs.
-- - RateLimit: ratelimit.py, for one key: RateLimit/Counter has RateLimiter.hit and LoginLockout
--   (the window that a cache returns, and whether a cache still has an entry, are arguments),
--   RateLimit/Ceiling and RateLimit/Lockout hold the proofs.
-- - Retention: services/retention.py. Retention/Purge has the sweep, Retention/Offline what a
--   reissue does after it.
-- - Examples: data, and each theorem at that data.
--
-- The parts interact as in the code: the confirmation of a payment writes a ledger entry, settles
-- the plan invoice that the payment pays, if there is one, retires the codes that were reissued
-- from it, and writes an event to the outbox; a settlement puts a subscription in force and calls
-- the store cap of Stores; a purchase of the portal raises an invoice, and the code of an invoice
-- is a payment of the platform's own store; the freeze reads the invoices that the sweep of
-- Billing/Issue raises; both measure the grace period from one definition.
--
-- An operation of a session takes the database and returns the new one with its result. A query is
-- a select over a table in the order of insertion, ORDER BY is a stable sort, session.get is a
-- look-up by primary key, and scalar_one_or_none is the first match, with the error of several
-- matches written out where it is reachable. An assignment to a loaded object is an update of the
-- rows with its key. Operations run one after another: row locks and the interleaving of
-- transactions are outside the model. One call reads the clock once, so the instant is an argument;
-- an instant is the number of microseconds since 1970 in UTC. A call of a network, a log or an
-- announcement is left out, but for the answer of a webhook endpoint, the hosted checkout of a
-- link, PayWay's answer about a link and MD5, which are parameters. An identifier that the code
-- draws at random is an argument. Counters stand for the random identifiers of events. A missing
-- store raises in the code and rolls the transaction back: it is an error value here, with the
-- database unchanged. A failed insertion into the ledger, which the code logs and ignores, is not
-- modelled.
--
-- The loop of parse_tlv runs on fuel, the length of its text; a round consumes at least four code
-- points, so that is enough. All other loops go over a list. The drain loop of a worker is not a
-- function but any sequence of steps of the queue. Digits, space and case are those of ASCII.
pub mod Base
pub mod Model
pub mod Khqr
pub mod Stores
pub mod Billing
pub mod RateLimit
pub mod Webhooks
pub mod Payments
pub mod Portal
pub mod Workers
pub mod Retention
pub mod Examples
