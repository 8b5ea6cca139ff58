-- ===== src/Sync/Run.antt =====
-- app/google_sync.py, `run` and `_record_failure`: one sync pass and what it leaves of the stream.
use moresocial.Sync.Calendar.{sync_calendar, Agenda}
use moresocial.Sync.Gmail.{sync_gmail, Google}
use moresocial.Sync.Monad.{◌>>=◌, transaction, M, load}
use moresocial.Base.{
  [], ◌∷◌, text_in, ◌^◌, false, seconds, ◌*◌, true, some, none, if◌then◌else◌, min, Bool, Option,
  ◌+◌, String, ℕ, Time,
}
use moresocial.Sync.{
  crashed, still_running, lease_lost, stream_stopped, calendar, stopped, gmail, google_error, auth,
  err, syncing, Kind, error, ok, forbidden, disabled, paused, reconnect_required, Outcome, Result,
  Connection, synced, throttled, GoogleError, ErrorKind, SyncStream, World,
}

-- `mark_reconnect` of app/accounts.py, on the connection of the stream; the jobs that it cancels are no
-- part of the state.
abbrev pub mark_reconnect : String → Connection → Connection
mark_reconnect reason c = record c {
  state = reconnect_required;
  detail = some reason;
  access_token_enc = none;
}

abbrev pub error_text : ErrorKind → String
error_text throttled = "Google asked us to slow down; retrying later."
error_text forbidden = "Google refused access to this data; retrying later."
error_text _ = "Google was unavailable; retrying later."

-- `min(6 * 3600, 60 * 2 ** min(failures, 8))`, in seconds.
unfoldable pub backoff : ℕ → ℕ
backoff failures = min 21600 (60 * 2 ^ min failures 8)

abbrev pub is_permission : GoogleError → Bool
is_permission e = elim e.kind [
  | forbidden ↦ elim e.reason [
    | none ↦ false
    | some r ↦ text_in r ("insufficientPermissions" ∷ "PERMISSION_DENIED" ∷ [])
  ]
  | _ ↦ false
]

abbrev pub is_auth : ErrorKind → Bool
is_auth auth = true
is_auth _ = false

abbrev pub refuse_stream : SyncStream → SyncStream
refuse_stream st = record st {
  failures = st.failures + 1;
  status = disabled;
  next_run_at = none;
  last_error = some "Permission for this data was not granted.";
}

abbrev pub delay_stream : Time → GoogleError → SyncStream → SyncStream
delay_stream now e st = record st {
  failures = st.failures + 1;
  status = error;
  last_error = some (error_text e.kind);
  next_run_at = some (now + seconds (backoff (st.failures + 1)));
}

-- A failed pass, on a stream whose connection is not to be reconnected.
abbrev pub retry_stream : Time → GoogleError → SyncStream → SyncStream
retry_stream now e st = if is_permission e then refuse_stream st else delay_stream now e st

-- The stream of a connection that is to be reconnected: `mark_reconnect` unschedules it.
abbrev pub pause_stream : SyncStream → SyncStream
pause_stream st = record st {
  failures = st.failures + 1;
  status = paused;
  next_run_at = none;
  last_error = some "Google access needs to be reconnected.";
}

abbrev pub succeed : ℕ → Time → SyncStream → SyncStream
succeed poll_seconds now st = record st {
  status = synced;
  failures = 0;
  last_error = none;
  last_success_at = some now;
  next_run_at = some (now + seconds poll_seconds);
}

module _ {R : Type 0} where
  abbrev pub record_auth : Time → GoogleError → SyncStream → Option Connection → World R → World R
  record_auth now e st none w = record w { stream = some (retry_stream now e st) }
  record_auth now e st (some c) w = record w {
    stream = some (pause_stream st);
    conn = some (mark_reconnect "grant_revoked_or_expired" c);
  }

  abbrev pub record_on : Time → GoogleError → Option SyncStream → World R → World R
  record_on now e none w = w
  record_on now e (some st) w =
      if is_auth e.kind
      then record_auth now e st w.conn w
      else record w { stream = some (retry_stream now e st) }

  -- `_record_failure`
  unfoldable pub record_failure : Time → GoogleError → World R → World R
  unfolding backoff
  record_failure now e w = record_on now e w.stream w

  abbrev pub mark_success : ℕ → Time → Option SyncStream → World R → World R
  mark_success poll_seconds now none w = w
  mark_success poll_seconds now (some st) w = record w {
    stream = some (succeed poll_seconds now st);
  }

  -- How a pass ends: a stream that was stopped meanwhile is left as it is.
  abbrev pub finish_run : ℕ → Time → Result Outcome × World R → Result Outcome × World R
  finish_run poll_seconds now (ok o, w) = (ok o, mark_success poll_seconds now w.stream w)
  finish_run poll_seconds now (err (google_error e), w) =
      (err (google_error e), record_failure now e w)
  finish_run poll_seconds now (err stream_stopped, w) = (ok stopped, w)
  finish_run poll_seconds now (err lease_lost, w) = (err lease_lost, w)
  finish_run poll_seconds now (err crashed, w) = (err crashed, w)
  finish_run poll_seconds now (err still_running, w) = (err still_running, w)

  abbrev pub begin : Time → SyncStream × Connection → M R Kind
  begin now (st, c) w = (
    ok st.stream,
    record w { stream = some (record st { status = syncing; last_attempt_at = some now }) },
  )

  abbrev pub sync_kind : ℕ → Google R → Agenda R → Kind → M R Outcome
  sync_kind pages g a gmail = sync_gmail g pages
  sync_kind pages g a calendar = sync_calendar a pages

  -- `run`. A stream that is stopped at the start raises.
  unfoldable pub run_sync : ℕ → ℕ → Time → Google R → Agenda R → M R Outcome
  unfolding load record_failure
  run_sync pages poll_seconds now g a = transaction (load >>= begin now) >>= λ kind w.
      finish_run poll_seconds now (sync_kind pages g a kind w)
