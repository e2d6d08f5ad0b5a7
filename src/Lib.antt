-- ===== src/Lib.antt =====
-- The core of an Internet service provider's business and operations system, as functions on explicit
-- state.
--
-- A subscriber's device authenticates against the RADIUS server (internal/radius), by password, by
-- its hardware address or in an EAP-MSCHAPv2 conversation; the server counts failures, caches
-- verified passwords and keeps conversations in process (internal/localcache), and puts the
-- subscriber's rate into attributes of the NAS's vendor (internal/nas). The hotspot portal limits
-- login attempts on the same counter (internal/hotspot). The billing scanners (internal/billing)
-- renew a subscriber out of the prepaid wallet, with GST by the states of subscriber and operator,
-- and walk one who has not paid along the dunning ladder; the wallet posts to a subledger and to
-- the general ledger (internal/db/billing.go). Background work goes through a queue that is a table
-- of the database (internal/jobqueue), among it the webhooks to partners (internal/partner) and the
-- changes of rate for subscribers above their quota, whom a scanner finds (internal/fup).
--
-- Files:
--   Common               numbers, texts as bytes, maps, instants, integers and decimals
--   Localcache/Counter   localcache/counter.go: `incr`, `expire`, `get`, ... are Incr, Expire, Get, ...
--   Localcache/Store     localcache/ttlmap.go: likewise
--   Hotspot/Limiter      hotspot/limiter.go: `allow` is Limiter.Allow
--   Radius/BruteForce    radius/ratelimit.go: `check`, `record_failure`, `reset`
--   Radius/Mac           radius/mab.go: `normalise_mac` is NormaliseMAC, `looks_like_mab` looksLikeMAB
--   Radius/VerifierCache radius/verifiercache.go: `check`, `store`, `warm`, `invalidate`
--   Radius/Auth          radius/handlers.go, authorisation.go, mab.go: `handle_auth` is handleAuth
--   Radius/Eap           radius/eap.go, mschapv2.go, eap_session.go, eap_handler.go, in the modules Packet,
--                        Mschap, Session and Handler: `handle_eap` is handleEAP
--   Nas/Rate             nas/common.go: `parse_rate_limit_string`, `parse_rate_token`, `uint32_be`
--   Nas/Attributes       nas/registry.go and a file for each vendor: `build_accept_attrs`
--   Billing/Dunning      billing/dunning.go, dunning_scanner.go: `transition_dunning`, `scan`
--   Billing/Wallet       billing/wallet.go, db/billing.go: `post` is WalletService.Post,
--                        `record_recharge` BillingStore.RecordRecharge
--   Billing/State        billing/state.go: `normalise_state` is NormaliseState
--   Billing/Gst          billing/gst.go: `calculate_gst_invoice_from`
--   Billing/Renewal      billing/recurring_billing_scanner.go: `renew`, `scan`
--   Jobqueue/Task        jobqueue/task.go, client.go, inspector.go: `enqueue_context` is EnqueueContext
--   Jobqueue/Server      jobqueue/server.go: `claim_next`, `run`, `finish`, `reap_expired_leases`, ...
--   Jobqueue/System      the same, as a step relation of clients, workers, crashes, reaper and sweep
--   Partner/Ssrf         partner/ssrf.go: `is_blocked_ip` is IsBlockedIP
--   Partner/Dispatch     partner/dispatch.go, webhook.go, db/partner.go: `emit`, `process_task`
--   Fup/Scanner          fup/scanner.go, db/fup.go: `scan_breaches` is scanBreaches, `scan` is scan
--   Examples             runs on concrete inputs
-- The modules below a component's file hold its theorems.
--
-- State is a record that operations take and return; a method of Go that returns an error returns a
-- value that says which one. The clock is an argument. Instants are nanoseconds from Go's zero time and
-- durations are not negative, so that a limit on 64-bit nanoseconds does not arise. Numbers of the
-- program that have a width carry their bound (the 32 bits of a rate, the lengths that the verifier
-- cache hashes). The one loop with a bound is the program's own: `advance` takes at most eight steps,
-- which is enough for the ladder's seven stages. Everything else is recursion on its input.
--
-- Parameters stand for code that is not the program's: bcrypt, HMAC-SHA256, MD4, SHA-1, DES, the
-- RADIUS library's attribute constructors and the decimal library, whose documented arithmetic is
-- the laws of `Decimal`. What the database refuses is a parameter too, of every operation that
-- writes; `enqueue_context` itself is an insert that the database does not refuse, and its callers
-- say which tasks are refused. Its columns of amounts have two decimals, to which they round.
-- Metrics and log lines are left out. Not modelled: accounting, the NAS resolver, the sending of
-- CoA and PoD requests, the portals and the staff interface, the other tables, and the wiring of
-- the processes.
pub mod Common
pub mod Localcache
pub mod Hotspot
pub mod Radius
pub mod Nas
pub mod Billing
pub mod Jobqueue
pub mod Partner
pub mod Fup
pub mod Examples
