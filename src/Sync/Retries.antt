-- ===== src/Sync/Retries.antt =====
-- `run` and `_record_failure` of app/google_sync.py: what a pass that fails leaves of its stream.
use moresocial.Sync.Calendar.{Agenda}
use moresocial.Sync.Gmail.{Google}
use moresocial.Sync.Monad.{load_rows, and_then, commit, load}
use native.Mathlib.Nat.{pow-le-pow_right}
use moresocial.Sync.{
  synced, invalid_request, forbidden, not_found, gone, unavailable, throttled, crashed, ErrorKind,
  reconnect_required, still_running, lease_lost, stopped, stream_stopped, stream_scope,
  google_error, err, disabled, paused, ok, is_active, Outcome, Connection, Result, World, error,
  SyncStream, GoogleError,
}
use moresocial.Base.{
  [], ◌∷◌, String, List, ap, true, refl, false, text_in, ◌&&◌, none, arith, Bool, min, ◌^◌, Option,
  seconds, some, ◌+◌, ◌≡◌, ◌≤◌, ℕ, Time,
}
use moresocial.Sync.Run.{sync_kind, begin, finish_run, run_sync, backoff}

-- The delay after a failure is at least two minutes and at most 256.
pub backoff-bounds : (n : ℕ) → (120 ≤ backoff (n + 1)) × (backoff (n + 1) ≤ 15360)
unfolding backoff
backoff-bounds n =
    let low : 2 ^ 1 ≤ 2 ^ min (n + 1) 8 =
      pow-le-pow_right (omega arith) {i = 1} {j = min (n + 1) 8} (omega arith) in
    let high : 2 ^ min (n + 1) 8 ≤ 2 ^ 8 =
      pow-le-pow_right (omega arith) {i = min (n + 1) 8} {j = 8} (omega arith) in
    (omega arith, omega arith)

-- The stream is tried again, after a delay that doubles with each failure up to its 8th.
abbrev pub IsRetried : Time → SyncStream → SyncStream → Type 0
IsRetried now st st' =
    (delay : ℕ) × (st'.status ≡ error)
    × (st'.next_run_at ≡ some (now + seconds delay))
    × (120 ≤ delay)
    × (delay ≤ 15360)

-- Permission for the data was not granted: no further run.
abbrev pub IsRefused : SyncStream → Type 0
IsRefused st' = (st'.status ≡ disabled) × (st'.next_run_at ≡ none)

-- The connection is to be made anew, and the stream waits for it.
abbrev pub IsPaused : SyncStream → Option Connection → Type 0
IsPaused st' conn' =
    (st'.status ≡ paused)
    × (st'.next_run_at ≡ none)
    × (c' : Connection) × (conn' ≡ some c')
    × (c'.state ≡ reconnect_required)
    × (c'.access_token_enc ≡ none)

-- What becomes of a stream whose access was forbidden, by the reason that was given.
abbrev pub ForbiddenFor :
    Time → SyncStream → SyncStream → Option Connection → Option Connection → Bool → Type 0
ForbiddenFor now st st' conn conn' true = IsRefused st' × (conn' ≡ conn)
ForbiddenFor now st st' conn conn' false = IsRetried now st st' × (conn' ≡ conn)

abbrev pub permission_reasons : List String
permission_reasons = "insufficientPermissions" ∷ "PERMISSION_DENIED" ∷ []

-- What becomes of a stream and its connection by the kind of the error, its reason and whether there
-- is a connection.
abbrev pub Ruled :
    Time
    → SyncStream
    → SyncStream
    → ErrorKind
    → Option String
    → Option Connection
    → Option Connection
    → Type 0
Ruled now st st' ErrorKind.auth reason (some c) conn' = IsPaused st' conn'
Ruled now st st' ErrorKind.auth reason none conn' = IsRetried now st st' × (conn' ≡ none)
Ruled now st st' forbidden none conn conn' = IsRetried now st st' × (conn' ≡ conn)
Ruled now st st' forbidden (some r) conn conn' =
    ForbiddenFor now st st' conn conn' (text_in r permission_reasons)
Ruled now st st' throttled reason conn conn' = IsRetried now st st' × (conn' ≡ conn)
Ruled now st st' unavailable reason conn conn' = IsRetried now st st' × (conn' ≡ conn)
Ruled now st st' gone reason conn conn' = IsRetried now st st' × (conn' ≡ conn)
Ruled now st st' not_found reason conn conn' = IsRetried now st st' × (conn' ≡ conn)
Ruled now st st' invalid_request reason conn conn' = IsRetried now st st' × (conn' ≡ conn)

-- What a failed pass leaves of its stream and connection: the position and the records stay, the
-- stream counts a failure more, and the error rules what becomes of it.
abbrev pub Failed : {R : Type 0} → Time → GoogleError → SyncStream → World R → World R → Type 0
Failed now e st w w' =
    (st' : SyncStream) × (w'.stream ≡ some st')
    × (st'.cursor ≡ st.cursor)
    × (st'.progress ≡ st.progress)
    × (st'.failures ≡ st.failures + 1)
    × (w'.upserted ≡ w.upserted)
    × Ruled now st st' e.kind e.reason w.conn w'.conn

abbrev pub is_ready : Option SyncStream → Option Connection → Bool
is_ready (some st) (some c) = is_active c.state && text_in (stream_scope st.stream) c.scopes
is_ready _ _ = false

module _ {R : Type 0} where
  -- What a pass leaves of a stream by how its sync ended, in the state `w`.
  abbrev pub Passed :
      ℕ → Time → Result Outcome × World R → SyncStream → Result Outcome × World R → Type 0
  Passed poll now (ok o, w) st out =
      (out.0 ≡ ok o)
      × (st' : SyncStream) × (out.1.stream ≡ some st')
      × (st'.status ≡ synced)
      × (st'.failures ≡ 0)
      × (st'.last_error ≡ none)
      × (st'.last_success_at ≡ some now)
      × (st'.next_run_at ≡ some (now + seconds poll))
      × (st'.cursor ≡ st.cursor)
      × (st'.progress ≡ st.progress)
      × (out.1.conn ≡ w.conn)
      × (out.1.upserted ≡ w.upserted)
  Passed poll now (err (google_error e), w) st out =
      (out.0 ≡ err (google_error e)) × Failed now e st w out.1
  Passed poll now (err stream_stopped, w) st out = out ≡ (ok stopped, w)
  Passed poll now (err lease_lost, w) st out = out ≡ (err lease_lost, w)
  Passed poll now (err crashed, w) st out = out ≡ (err crashed, w)
  Passed poll now (err still_running, w) st out = out ≡ (err still_running, w)

  -- A stream whose connection is not active, or was not granted the stream's scope, is not synced:
  -- the run raises, and nothing of the stream has changed, its status and schedule included.
  pub run_sync-unready :
      (g : Google R) (a : Agenda R) (pages poll : ℕ) (now : Time) (w : World R)
      → is_ready w.stream w.conn ≡ false
      → run_sync pages poll now g a w ≡ (err stream_stopped, w)
  unfolding run_sync load
  run_sync-unready g a pages poll now w e =
      ap (λ o. and_then o λ kind w'. finish_run poll now (sync_kind pages g a kind w'))
        (stop w.stream w.conn e)
    where
      stop :
          (s : Option SyncStream) (c : Option Connection)
          → is_ready s c ≡ false
          → commit w (and_then (load_rows w s c) (begin now)) ≡ (err stream_stopped, w)
      stop none c q = refl
      stop (some st) none q = refl
      stop (some st) (some c) q = ground arith
