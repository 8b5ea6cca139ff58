-- ===== src/Sync.antt =====
-- app/google_sync.py, the sync driver: pages are fetched, upserted and the stream's position is
-- advanced in one transaction each. The tables SyncStream and Connection of app/models.py are
-- seen by the one stream that is synced and its connection.
pub mod Monad
pub mod Gmail
pub mod Calendar
pub mod Run
pub mod Cursor
pub mod History
pub mod Batches
pub mod Chain
pub mod Ends
pub mod Import
pub mod Start
pub mod Retries
pub mod Examples
use moresocial.Base.{false, true, Time, List, String, Bool, Option, ℕ}

-- SyncStream.stream
pub data Kind : Type 0 where
  gmail calendar : Kind

pub data StreamStatus : Type 0 where
  never_synced syncing synced error disabled paused : StreamStatus

-- Connection.state
pub data ConnectionState : Type 0 where
  active reconnect_required disconnected : ConnectionState

-- GoogleError.kind
pub data ErrorKind : Type 0 where
  auth forbidden throttled gone not_found unavailable invalid_request : ErrorKind

pub record GoogleError : Type 0 where
  pub kind : ErrorKind
  pub reason : Option String

-- Where a first import of Gmail stands.
pub record Initial : Type 0 where
  pub start_history : Option String
  pub page : Option String
  pub fetched : ℕ
  pub more : Bool

-- Where a bounded window of the calendar stands.
pub record Window : Type 0 where
  pub page : Option String
  pub fetched : ℕ
  pub from_time : Time
  pub to_time : Time

-- SyncStream.progress, by its `phase`; `refreshed` is `window_refreshed_at` alone.
pub data Progress : Type 0 where
  no_progress : Progress
  initial : Initial → Progress
  history : String → String → Progress
  window : Window → Progress
  refreshed : Time → Progress

pub record SyncStream : Type 0 where
  pub stream : Kind
  pub status : StreamStatus
  pub cursor : Option String
  pub progress : Progress
  pub items_seen : ℕ
  pub truncated : Bool
  pub last_success_at : Option Time
  pub last_attempt_at : Option Time
  pub next_run_at : Option Time
  pub failures : ℕ
  pub last_error : Option String

pub record Connection : Type 0 where
  pub state : ConnectionState
  pub detail : Option String
  pub scopes : List String
  pub refresh_token_enc : Option String
  pub access_token_enc : Option String
  pub access_expires_at : Option Time

-- What a sync can raise; `crashed` is any exception but the first three, and `still_running` stands
-- for a loop that has not ended in the rounds given.
pub data Raised : Type 0 where
  stream_stopped lease_lost crashed still_running : Raised
  google_error : GoogleError → Raised

-- What a run returns.
pub data Outcome : Type 0 where
  stopped incremental_done initial_complete initial_truncated : Outcome
  window_complete window_truncated : Outcome

pub data Result (A : Type 0) : Type 0 where
  ok : A → Result A
  err : Raised → Result A

-- The rows of the stream and its connection, and the records that have been upserted, in order.
pub record World (R : Type 0) : Type 0 where
  pub stream : Option SyncStream
  pub conn : Option Connection
  pub upserted : List R

-- accounts.STREAM_SCOPES
abbrev pub stream_scope : Kind → String
stream_scope gmail = "https://www.googleapis.com/auth/gmail.readonly"
stream_scope calendar = "https://www.googleapis.com/auth/calendar.events.readonly"

abbrev pub is_active : ConnectionState → Bool
is_active active = true
is_active _ = false
