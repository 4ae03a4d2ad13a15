-- ===== src/Lib.antt =====
-- Verification of webhook_engine: at-least-once delivery of signed webhooks.
--
-- Producers append events to an event store; `EventIngestor` claims them, and for each active
-- subscription whose address passes the SSRF guard it enqueues a delivery. `WebhookEngine.tick`
-- reclaims expired leases, claims a batch of due deliveries from the delivery store and hands each
-- to `WebhookDispatcher.send`, which checks the address again, signs the body, posts it, and by
-- the answer marks the record sent, schedules a retry or dead-letters it. A receiver verifies
-- what was posted. A host may fan events of its own bus out in process. Operators redeliver, ping
-- and page through the log. The delivery store is in memory, in Redis, in Postgres or in Mongo.
--
-- The files:
--   Prelude       tests on numbers, lists, text, Python dicts, results and state, `str` methods
--   Types         webhook_engine/types.py, enums.py: records and enums
--   Store         stores/memory.py: `Defs` has every operation of MemoryWebhookDeliveryStore on
--                 a record of three dicts; `Invariant` its well-formedness; `Leases`,
--                 `Order`, `Claim`, `Reclaim`, `Marks` the operations' theorems
--   Contract      WebhookDeliveryStoreProtocol of protocols.py: `Queue` (a record of operations and
--                 laws on leases), `Runs` (any sequence of the calls of any workers). The
--                 `Queue` of Store, Postgres, Redis and Mongo fills it for that store
--   Postgres      service/pg_repos.py and stores/pg.py: `Defs` (PgDeliveryRepo, PgAttemptRepo and
--                 PgWebhookDeliveryStore on a keyed table and a log), `Names` (table names),
--                 `Purge` (purge_sent, dead_unnotified, ack_failure_notification); `Rows`,
--                 `Where`, `Claim`, `Leases`, `Retention`, `Notices`
--   Redis         stores/redis.py: `Hash` (the codec of records), `Defs` (the keys, the Lua
--                 scripts, enqueue_many), `Methods`; `RoundTrip`, `Scripts`, `Sets`, `Marks`,
--                 `Faults`
--   Mongo         stores/mongo.py: `Defs` (MongoWebhookDeliveryStore on a collection); `Claims`
--   Subscriptions service/subscription_store.py and service/subscription_pg.py: `Types`, `Redis`
--                 (RedisSubscriptionStore), `Pg` (PgSubscriptionStore), `Contract` (what a store
--                 finds after each call), `Agreement` (two stores that keep it); `Sets`,
--                 `RedisLaws`, `RedisCalls`, `PgLaws`, `Stores`
--   Ssrf          ssrf_guard.py and config.py: `Address` (BlockedCidrSet, _reason), `Host`,
--                 `Guard` (UrlSafetyValidator), `Target` (_check_target); `Ranges`, `Validation`
--   Policy        policy.py: `Defs`; `Delay`, `RetryAfter`
--   Dispatcher    dispatcher.py: `Env` (what it is wired with, from protocols.py, profiles.py and
--                 config.py), `Defs` (send, one function for each stage, the stage's
--                 result as an argument); `Atomic`, `Safety`, `Verdict`
--   Signing       signer.py, verify.py: `Defs`; `RoundTrip`, `Agreement`
--   Engine        engine.py: `Defs` (tick, _dispatch_one, _quarantine); `Frame`, `Tick`,
--                 `Quarantine`
--   Ingest        ingest/: `Queue` (MemoryEventStore), `Pg` (PgEventStore), `Ingestor`
--                 (EventIngestor); `Claims`, `PgClaims`, `Fanout`, `Tick`
--   Admin         service/delivery_admin.py and the window of service/routes/deliveries.py
--   Payload       redact_payload of envelope.py and the capped read of http_sender.py: `Defs`;
--                 `Sensitive`, `Redaction`, `Capture`
--   Fanout        fanout.py: `Defs` (WebhookFanoutHandler); `Sealed`
--   Examples      runs on concrete data, and the theorems applied to them
-- Paths are relative to webhook_engine/.
--
-- Text is a list of code points, bytes a list of numbers, a dict an association list in
-- insertion order, a time a natural number of microseconds, a duration of the retry policy
-- exact in microseconds and hundredths where the code has floats. Python's libraries are
-- arguments with their documented results: urlsplit, ip_address, IDNA, isdigit and float of a
-- character, HTTP dates, SHA-256 and HMAC, uuid4, json.dumps, UTF-8, and whether a time in
-- whole milliseconds falls short of them as a float. So are the protocols that the dispatcher
-- is wired with. The `str` methods are those of ASCII text. SQL and the commands of Redis and
-- Mongo have their documented meaning; a transaction and a pipeline run as one step, the rows
-- that other transactions hold and the collation are arguments, and the databases do not fail.
-- No model needs fuel but the printing of a number, whose fuel exceeds its digits; every other
-- loop recurses on its list.
--
-- Not modelled: the Mongo stores of subscriptions and of events; the expiry of Redis keys, of
-- which only the times to live are kept, also where a retention of 0 deletes a key at once;
-- the service's wiring and routes, logging, the rest of the HTTP client, the envelope, the
-- registry of events. The sends of a batch run one after the other; the per-host bulkhead
-- delays a post and is not seen.
pub mod Prelude
pub mod Types
pub mod Contract
pub mod Store
pub mod Postgres
pub mod Redis
pub mod Mongo
pub mod Subscriptions
pub mod Ssrf
pub mod Policy
pub mod Dispatcher
pub mod Signing
pub mod Engine
pub mod Ingest
pub mod Admin
pub mod Payload
pub mod Fanout
pub mod Examples
