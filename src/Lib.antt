-- ===== src/Lib.antt =====
-- Moresocial keeps a private memory of a user's conversations: it imports mail, calendars and chats,
-- derives searchable chunks and claims from them with AI providers, and answers questions about
-- them. This development models the core of its backend and proves what makes it correct.
--
-- The parts, and how they interact. A web process (app/) and worker processes (worker/) share one
-- Postgres database. Work is handed over through a durable job queue (app/jobs.py). Workers and web
-- requests call AI providers through budgets (app/ai.py): tokens are reserved before a call against
-- daily limits and reconciled after it. The provider that is called is built from settings that an
-- administrator saves and tests (app/operator_settings.py, and build_operator and reload_operator in
-- app/ai.py).
--
-- Files and sources:
--   Base            what every module shares: Boolean tests, lists, tables with UPDATE, DELETE and
--                   SELECT, primary keys, texts, decimal numbers (`str` and `int`)
--   Jobs            app/jobs.py, every operation, over the rows of Job and Workspace in app/models.py:
--                   enqueue, claim (with its sweep), renew, complete, fail, defer, cancel,
--                   still_leased, retry_delay. Jobs/Calls has the calls as data and their sequences;
--                   Invariant, Leases, Recovery, Progress, Keys, Unique, Outcomes and Cancel what
--                   is proved; Examples the runs and witnesses
--   Budget          app/ai.py: _scopes, reserve, reconcile, estimate_tokens, over UsageBudget and
--                   ProviderUsage of app/models.py and the limits of app/config.py. Budget/Tokens,
--                   Balance, Room and Within on the rows; Calls the sequences of calls
--   Budget/Generate app/ai.py: generate, _generate_on and embed, with cool_down and cooling_down.
--                   Budget/Settled, Cost and Cooling what is proved
--   Settings        app/operator_settings.py, over OperatorSetting of app/models.py and decrypt of
--                   app/security.py. Settings/Changes the calls as data and the revision; Staging
--                   the embedding space; Tier build_operator and reload_operator of app/ai.py, with
--                   stamp; Tombstones and Effective the tier that results
--   Embeddings      app/ai.py: OpenRouterProvider.embed from the answer on. Embeddings/Slots the loop
--                   over its rows; Placed what is accepted
--   Sync            app/google_sync.py: _load, _apply, run, _record_failure, _gmail,
--                   _gmail_incremental, _calendar, _calendar_incremental and _calendar_window, over
--                   SyncStream and Connection of app/models.py, with session of app/db.py and
--                   mark_reconnect of app/accounts.py. Sync/Monad the steps and transactions, Gmail
--                   and Calendar the two streams, Run a pass. Cursor, History, Batches and Chain what
--                   a poll stores; Ends that it ends; Import and Start the first import; Retries
--                   what a pass leaves
--   Memory          app/memory.py: resolve_conflicts, over Claim, ClaimSource and ClaimRejection of
--                   app/models.py. Memory/Operations publish_claim, reject_claim and edit_claim;
--                   Extract validate_claims, _chunk_current and _still_valid; Publish extract_chunk;
--                   Chunks plan_chunks; Embed embed_chunk, and Stored what it stores. Topics,
--                   Conflicts and Settled the active claims; Rejections what was rejected; Evidence
--                   and Race what is cited; Coverage and Segments what chunks hold
--   Whatsapp        app/whatsapp.py: request_connect, stop, status, over WhatsAppConnector and
--                   ConnectorCleanup of app/models.py. Whatsapp/Reports connector_for_key, and
--                   authenticate and observed of app/internal.py. Capped and Steps the steps and the
--                   cap; Admission whom a key admits
--   Ingest          app/ingest.py, all of it, over Person, PersonIdentifier, Source, SourceParticipant,
--                   Answer, AnswerSource, Draft, EventPerson, RelationshipNote and Exclusion of
--                   app/models.py. Ingest/Text normalize and content_hash; People resolve_person,
--                   prune_people and link_people; Contacts unlink_identifier and register_contacts;
--                   Rebuilds schedule_rebuilds; Removal invalidate, exclude and delete_provider_data;
--                   Fields is_excluded and what upsert sets; Upsert upsert; Operations histories of
--                   these. Again repeated upserts; Out, Excluded and ForGood tombstones;
--                   Supported and Standing claims and their evidence; Owners, Growth and Identity
--                   the identifiers; Forgotten what is left of a source; Moved and Linked merged
--                   people; Frame what a step leaves alone
--   AiKeys          app/ai_keys.py: check_format, validate, save, resume_paused_jobs, remove, over
--                   Connection, Job and Workspace of app/models.py. AiKeys/Saved what is stored
--   Worker          worker/main.py: run_one with the dispatch of handle, on the calls of Jobs.
--                   Worker/Reports what becomes of a claimed job
--
-- How the code is modelled. A table is a list of rows in the order of insertion, or a map where only
-- the primary key is used (UsageBudget, OperatorSetting). An UPDATE is update_where on a condition
-- and a change of a row. A transaction is one step; sequences of steps stand for the interleaved
-- commits of all processes. `FOR UPDATE SKIP LOCKED` is a parameter that says which rows another
-- transaction holds. A time is a number of microseconds, a uuid a number; clocks and uuid4 draws are
-- arguments. Where ORDER BY leaves a tie, the row that was inserted first is taken. A signed
-- difference is written as what is added and what is subtracted, and GREATEST(0, ...) is subtraction
-- that stops at 0. Python's `str` and `int` are modelled on digits, with as many divisions as the
-- number, which is more than it has digits. The page loops of a sync take the number of rounds as an
-- argument and raise still_running where it does not suffice; the batches of a page have one round
-- for each item and one more; the cutting of a body has one for each character. All other loops are
-- structural.
--
-- A row that an ORM query returned and whose attributes are set is the first that meets the query,
-- set_first. A DELETE names the tables that its foreign keys cascade to.
--
-- A sync is a function of the stream's row, its connection and the records upserted so far, which
-- returns a result or an exception with the new state; a transaction that raises returns the state
-- it began with. Others write between its steps through the heartbeat, which is a parameter.
--
-- Parameters. What a provider answers or a handler does, and what others commit meanwhile, are
-- arguments of the budgeted calls, of run_one, of extract_chunk and of embed_chunk. Google's
-- answers, the access token and the heartbeat are a record, which a theorem may ask to keep the
-- stream's position and records, or not to stand for a loop still running. Python's text functions
-- and SHA-256 are a record of functions that no theorem restricts; so is what a connector answers.
-- For imports the patterns of identifiers, the digests and the
-- uuid4 draws, by their number, are a record that no theorem restricts. The Fernet cipher is a record
-- of two functions, and where a theorem needs it, that decrypting
-- undoes encrypting is a hypothesis.
--
-- Not modelled: the jobs that a sync cancels or a rebuild schedules, columns that are written and
-- never read (created_at, updated_at of jobs), the semaphore on concurrent provider calls, the
-- worker's heartbeat and main loop, the 30 seconds between a process's reads of the settings, the
-- requests to the providers themselves, HTML pages and routes, how messages, events and packets
-- become records, the keys, hashes and dates of planned chunks and the rebuild of a conversation,
-- the lengths of text columns, set_preference and mark_rejected of app/ai_keys.py, retrieval,
-- gatherings, accounts and sessions, deployment and tests.
pub mod Base
pub mod AiKeys
pub mod Budget
pub mod Embeddings
pub mod Ingest
pub mod Jobs
pub mod Memory
pub mod Settings
pub mod Sync
pub mod Whatsapp
pub mod Worker
