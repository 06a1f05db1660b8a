-- ===== src/Lib.antt =====
-- The onboarding service: its delivery guarantees, its sessions and its access rules.
--
-- The service (app/) stores its state in PostgreSQL through SQLAlchemy: the repositories build the
-- statements, the services compose them in transactions, the routers and the bot call the services.
-- The database is not part of the sources. The record `Table` of Store states the documented
-- behaviour of SELECT, INSERT ... ON CONFLICT, UPDATE ... RETURNING and DELETE; the models take
-- a table as a parameter, and Store/Memory fills it with a list of rows, on which the tests run.
-- A transaction is one step: its reads and writes are composed in the order of the source, and a
-- transaction that raises leaves the table as it was. Interleavings are sequences of such steps.
-- Two calls that the source makes of several transactions are one step here: retrieve reads its
-- articles and its chunks from one state, and restore_version reads and updates in one.
--
-- Which file models what:
--   Outbox.antt           app/repositories/telegram_outbound.py, app/db/models/telegram_outbound_message.py
--   Outbox/Service.antt   class TelegramOutboundService of app/services/telegram_outbound.py
--     Sound says what holds of a row, Lifecycle, Delivery and Refinement follow it through any
--     calls, Refinement along the automaton of Phases; Claims and Enqueue say what one call does,
--     Backoff is about the waits, Normal about the texts that are looked up
--   Receipts.antt         app/repositories/idempotency_receipt.py, app/services/idempotency.py
--   Sessions.antt         app/repositories/refresh_session.py, app/services/refresh_session.py
--   Reminders.antt        app/services/reminder_policy.py
--   Quiz.antt             app/services/assessment.py: Answers scores, Public is what employees see
--   Course.antt           the rows of assignments, steps and progress, with
--     Content, Answers      app/services/step_content.py
--     Snapshot              app/services/course_snapshot.py
--     Steps                 app/services/progress.py, over Quiz and Content
--     Blocks                app/services/learning_progress.py, over Steps
--   Chunking.antt         app/services/ai/chunking.py
--   StepOrder.antt        app/services/step.py: Editing is create_step and update_step; with
--                         app/services/course_edit_policy.py
--   Knowledge.antt        app/services/knowledge/article_service.py: Reading is who may read,
--                         Editing the life of articles and versions
--   Retrieval.antt        app/services/ai/retriever.py: Selection chooses the hits, Retrieving is
--                         retrieve over Knowledge, with app/repositories/knowledge_article_chunk.py
--   Settings.antt         app/services/notification_settings.py
--   Assignments.antt      acknowledge_item and cancel_assignment of app/services/assignment.py
--   Organisation.antt     manager_assignment_would_cycle of app/services/org_validation.py
--   History.antt          app/services/ai/history.py
--   Access.antt           app/core/capabilities.py
--   Access/Subscription   app/services/subscription_guard.py
--   RateLimit.antt        app/core/rate_limit.py
--   Common                Python texts, lists, JSON values, the exception classes of app/core/exceptions.py
--
-- Functions keep the names of the source. Instants are numbers of microseconds, identifiers and
-- digests are numbers. What the code reads from its environment is an argument: the clock, fresh
-- identifiers and tokens, `is_production`, the answers of Redis. Parameters are the digest of a
-- refresh token (`hash_token`), the order in which PostgreSQL hands out due rows (SKIP LOCKED), the
-- JSON of a stored response and the local time of an instant (zoneinfo); for JSON that the code reads,
-- Python's `str`, `int`, `casefold`, `isdigit` and the printing of floats, the texts of UUIDs; and
-- the conversion of HTML by `re`. Every function is total. `walk` of Organisation counts rounds,
-- the 256 of the source's own loop; `windows` of Chunking counts down from the length of the text,
-- which is enough because every window begins after the one before; the pages of articles that
-- Retrieving reads are at most as many as there are rows, since each but the last is full. Python's
-- floats, the vectors and the text search of PostgreSQL are parameters of Retrieval.
--
-- Not modelled: logging and metrics, row level security, signed access tokens, the HTTP API, the
-- bot, the creation of assignments, the notices of quiz results, the index of chunks, the terms that
-- searches read from a query, and the language model services.
pub mod Common
pub mod Store
pub mod Outbox
pub mod Receipts
pub mod Sessions
pub mod Reminders
pub mod Access
pub mod RateLimit
pub mod Assignments
pub mod Organisation
pub mod History
pub mod Quiz
pub mod Course
pub mod Chunking
pub mod Settings
pub mod Knowledge
pub mod Retrieval
pub mod StepOrder
