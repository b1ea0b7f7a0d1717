-- ===== src/Lib.antt =====
-- vof_backend: a model of the back end of the voice assistant for field teams.
--
-- A Manager's workspace has field employees who call in. A call may need the Manager: it opens a
-- decision, which the Manager answers over the web socket or by text message, or which times out. What
-- the calls and the Manager teach is kept in the workspace's brain, pages of text with versions, which
-- the Manager may correct. What a call promises becomes action items, which the Manager approves and a
-- dispatcher runs.
--
-- The parts and their files:
--   Prelude      tests, lists, database tables (rows found by key) and tables with different keys
--   Text         texts as lists of code points: strip, lower and upper, UUIDs in hexadecimal
--   Errors, Exec app/errors.py; a method is a function from a state to a result and a state
--   Db           the tables of app/db/models, and the frames, messages and jobs that a step sends
--   Decision     app/services/decisions.py (Service, Sms), app/db/repositories/decisions_repo.py
--                (Repo), app/workers/decision_timeout.py (Timeout) and
--                app/api/workspaces/decisions.py (Resolve), and app/services/dashboards/aggregator.py with
--                app/miniagents/dashboard_rollup.py (Brief); the other files prove
--   Brain        app/brain/postgres_brain.py (Store) app/services/corrections.py (Correction) and
--                app/miniagents/brain_updater.py (Slug, Updater); History has the sequences of calls
--   Action       app/db/repositories/action_items_repo.py (Repo), app/api/workspaces/action_items.py
--                (Approval), app/workers/action_item_dispatcher.py (Dispatch) and
--                app/services/action_items/heuristic_extractor.py (Extract); Steps has the relation
--   Telephony    app/telephony/dispatcher.py (Scope, Voice, Ended, Materialize), events.py (Events),
--                app/api/webhooks/agentphone.py and app/security/hmac.py (Webhook),
--                app/db/repositories/calls_repo.py (Calls) and field_employees_repo.py (Roster)
--   Orchestrator app/orchestrator/streaming.py (Streaming), tool_dispatch.py (ToolDispatch), session.py
--                (Session), turn_loop.py (Substream, Turn), tools (Tools) and sms_orchestrator.py
--                (SmsScope, SmsTurn), app/db/repositories/transcripts_repo.py (Transcripts); Reading is a
--                reference for the scanner, Ran is one for the answer of a turn, and Saves has the saves whose halves interleave
--   Intake       app/services/intake_processor.py (Processor), intake_processing.py (Processing),
--                intake_handlers.py (Pages, Handlers) and intake_extractors (Extract), with
--                app/db/repositories/intake_repo.py (Repo) and app/api/workspaces/intake.py (Api);
--                Life has the moves of the status of an item, a specification
--   Email        app/miniagents/email_delivery.py (Messages, Delivery) and email_reply_handler.py
--                (Senders, Replies), app/email/composer.py (Composer) and
--                app/db/repositories/email_messages_repo.py (Repo)
--   Storage      the keys of app/storage/base.py
--   Realtime     app/realtime/redis_client.py (WsToken) and app/realtime/ws_hub.py (Hub)
--   Access       app/security/jwt.py (Jwt), app/deps.py (Guards), and app/services/auth_service.py with
--                app/db/repositories/refresh_tokens_repo.py (Sessions)
--
-- How the code is read:
--   * A method on the database is one step: it holds the row lock or its transaction to the end, and
--     the row that a lock returns is taken as current. An operation returns its result and the database, also when it raised, since what was committed
--     before stays.
--   * A UUID is a number, and a new one is an argument. A time is a number of microseconds. A JSON
--     column is a list of names with texts, where a null is the empty text. Columns that no
--     modelled operation reads or writes are left out. Rows with equal values of an `ORDER BY` keep
--     the order of their insertion.
--   * Unicode tables are the argument `CaseMap` of what uses lower and upper case, with the one fact
--     that upper case of hexadecimal digits is theirs, and `TextRepr` of what uses `repr`. PyJWT is the
--     arguments `jwt_encode` and `jwt_decode`, and the comparison with a hash `verify_password`.
--   * Frames, text messages and jobs are recorded as attempts: the code logs a failure to send one and
--     goes on. Messages and details of errors are left out.
--   * Fuel is used by the inner loop of the scanner of tool markers alone: each round makes the buffer
--     shorter, so one more than its length is enough. Every other loop goes through a list. The
--     decimal digits of a time in seconds are at most twenty, which every date has.
--   * The readers of file formats, the classifier, the rendering of a template, the hash of a text and
--     the providers of email are arguments, with whatever they return or raise.
--
-- Not modelled: what the language model, the web verifier and the connectors return, the rendering of
-- templates, migrations, logging, and the parts that PROJECT.json lists as such.
pub mod Prelude
pub mod Text
pub mod Errors
pub mod Storage
pub mod Intake
pub mod Email
pub mod Exec
pub mod Db
pub mod Decision
pub mod Brain
pub mod Action
pub mod Telephony
pub mod Orchestrator
pub mod Realtime
pub mod Access
