-- ===== src/Lib.antt =====
-- Inspectio: an SMS admission service with retries. An HTTP API admits messages to an SQS FIFO queue;
-- workers own ranges of shards, take messages from the queue, journal what they do to segments in S3,
-- and ask an SMS provider up to six times on a fixed schedule; a notification service keeps bounded lists
-- of the outcomes.
--
-- Which file models which part (paths from the repository's root):
--   Settings                 src/inspectio/settings.py
--   Models                   src/inspectio/models.py
--   Domain/Schedule          src/inspectio/domain/schedule.py
--   Domain/Sharding          src/inspectio/domain/sharding.py
--   Journal/Records          src/inspectio/journal/records.py
--   Journal/Replay           src/inspectio/journal/replay.py
--   Journal/Keys, Writer     src/inspectio/journal/writer.py
--   Ingest/Schema, Template  src/inspectio/ingest/schema.py, ingest_consumer.py
--   Ingest/Producer          src/inspectio/ingest/ingest_producer.py, sqs_fifo_producer.py
--   Ingest/Consumer          src/inspectio/ingest/sqs_fifo_consumer.py
--   Worker/Sms               src/inspectio/sms/client.py
--   Worker/Runtime, Snapshot src/inspectio/worker/runtime.py
--   Worker/Handlers          src/inspectio/worker/handlers.py
--   Worker/Main, Start       src/inspectio/worker/main.py
--   Worker/Surface           src/inspectio/scheduler_surface.py
--   Notification             src/inspectio/notification/app.py, outcomes_store.py
--   Api                      src/inspectio/api/routes_public.py
-- and of the archived first version, under v1_obsolete/project/src/inspectio_exercise:
--   Archive/Rules            domain/retry.py, sharding.py, idempotency.py, sms_outcome.py,
--                            utc_paths.py, wakeup.py
--   Archive/Keys             worker/pending_record.py, persistence/key_policy.py
--   Archive/Store            persistence/memory_s3.py, worker/persistence_retry.py,
--                            retrying_persistence.py, pending_delete.py
--   Archive/DueWorkQueue     worker/due_work_queue.py, pending_record.py
--   Archive/Worker           worker/outcome_notifier.py, terminal_scanner.py, terminal_lookup.py
--   Archive/Worker/Lifecycle worker/lifecycle_transitions.py, message_dispatch.py, mock_sms_client.py
--   Archive/Worker/Tick      worker/pending_discovery.py, runtime.py
--   Archive/Submit           api/use_cases.py
--   Archive/Reconcile        health_monitor/reconcile.py
-- A function of the source is a function here under its own name. Prelude holds what the parts share:
-- tests on numbers, integers, dictionaries in insertion order, texts, decimal formats, and the two ways in
-- which an exception is a value (a Result, and a method that changes an object and may raise), with rules
-- for what such a method keeps (Exec) and leads to (Leads). Json holds the values of Python's json module.
--
-- What stands for the world is a parameter: the readings of the clocks, the answers of the object store,
-- of Redis, of the queue and of the SMS provider, SHA-256, gzip, JSON texts and the field validation of
-- pydantic. Where an answer may change from call to call, it is a function of the number of calls made
-- before; the store that a start reads from is at rest. The Redis lists of outcomes are modelled by the
-- documented effect of their commands. A method runs to its end before the next: the asyncio locks and
-- semaphores, which keep the methods of one message and of one shard apart, and the parallel groups of the
-- producer are not modelled. Times are in milliseconds, and the float seconds of the source are exact
-- numbers here. A put of a journal segment or a snapshot is stored and returns, or is answered with an
-- error and stores nothing, or its connection is lost before the object is stored or after that. What was
-- written for a shard counts the segments whose put returned; those stored by a call that raised are kept
-- apart, as unconfirmed. The store of the first version is the one in memory behind a network: the nth call may
-- raise before it takes place, or after it.
--
-- Loops on a counter: the loop of put_object_with_retry and that of write_snapshot count the attempts left
-- and start at 8, their bound in the source. The digits of a number n are written with fuel n + 1, and a
-- number has fewer digits than that. The batches of a group have as much fuel as the group has messages.
-- The scan of a shard's segments has fuel for a number of pages, and none as its result when that is used
-- up before the last page. A retried call of the first version makes the number of attempts of its
-- settings. The activation calls of a worker have as much fuel as it has keys, and each takes one at least.
--
-- Not modelled: the HTTP framework, the health routes, logging, the endless loops around the rounds of a
-- worker, the mock SMS provider, and the rest of the
-- archived first version: its HTTP apps, its file store and AWS store, and its notification service.
pub mod Prelude
pub mod Json
pub mod Settings
pub mod Models
pub mod Domain
pub mod Ingest
pub mod Journal
pub mod Worker
pub mod Notification
pub mod Api
pub mod Archive
