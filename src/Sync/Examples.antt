-- ===== src/Sync/Examples.antt =====
-- Runs of app/google_sync.py on small mailboxes.
use moresocial.Sync.{
  no_progress, syncing, stream_stopped, active, stream_scope, err, gmail, Connection, ok,
  SyncStream, Result, World,
}
use moresocial.Sync.Chain.{incremental-Polled, Polled}
use moresocial.Sync.Calendar.{Agenda}
use moresocial.Sync.Ends.{incremental-Ends, has_ended, Ends, pages_end}
use moresocial.Sync.Run.{run_sync}
use moresocial.Sync.Start.{start_import-Started, Started}
use moresocial.Base.{
  string_discrete, false, true, refl, [], ◌∷◌, ◌≡◌, days, some, none, Option, String, List,
}
use moresocial.Sync.Retries.{run_sync-unready}
use moresocial.Sync.Monad.{pure, cursor_of, apply_page, load}
use moresocial.Sync.Gmail.{HistoryPage, start_import, Google, import_pages, incremental}

-- Records are the ids of messages, with a mark where one was deleted.
abbrev demo_history : String → Option String → Result HistoryPage
demo_history cursor none = ok (record {
  history =
      record {
        messages_added = "m1" ∷ "m2" ∷ [];
        messages_deleted = "m1" ∷ [];
        labels_added = [];
        labels_removed = [];
      }
      ∷ [];
  next = some "p2";
  history_id = some "8";
})
demo_history cursor (some page) = ok (record { history = []; next = none; history_id = some "9" })

abbrev demo : Google String
demo = record {
  profile = λ w. ok (some "7");
  list = λ page n. ok (record { messages = "m1" ∷ "m2" ∷ "m3" ∷ []; next = none });
  message = λ id. ok id;
  history = demo_history;
  deleted = λ id. "gone";
  token = λ c. pure tt;
  heartbeat = pure tt;
  gmail_max_messages = 2;
}

abbrev demo_agenda : Agenda String
demo_agenda = record {
  incremental = λ cursor page. ok (record { items = []; next = none; next_sync = none });
  window = λ from to page. ok (record { items = "e1" ∷ []; next = none; next_sync = some "s" });
  token = λ c. pure tt;
  heartbeat = pure tt;
  calendar_max_events = 10;
  calendar_past_days = 1;
  calendar_future_days = 1;
  now = days 20;
}

abbrev demo_stream : Option String → SyncStream
demo_stream cursor = record {
  stream = gmail;
  status = syncing;
  cursor = cursor;
  progress = no_progress;
  items_seen = 0;
  truncated = false;
  last_success_at = none;
  last_attempt_at = none;
  next_run_at = some 5;
  failures = 2;
  last_error = none;
}

abbrev demo_connection : List String → Connection
demo_connection scopes = record {
  state = active;
  detail = none;
  scopes = scopes;
  refresh_token_enc = some "r";
  access_token_enc = some "a";
  access_expires_at = none;
}

abbrev demo_world : Option String → List String → World String
demo_world cursor scopes = record {
  stream = some (demo_stream cursor);
  conn = some (demo_connection scopes);
  upserted = [];
}

abbrev synced_world : World String
synced_world = demo_world (some "5") (stream_scope gmail ∷ [])

-- A poll of two pages: a message that was added and deleted again is deleted.
poll_result : (incremental demo 3 "5" none synced_world).1.upserted ≡ "gone" ∷ "m2" ∷ []
unfolding incremental load apply_page string_discrete
poll_result = refl

poll_cursor : cursor_of (incremental demo 3 "5" none synced_world).1 ≡ some (some "9")
unfolding incremental load apply_page string_discrete
poll_cursor = refl

-- An import of two messages at most.
import_result :
    (start_import demo 3 (demo_world none (stream_scope gmail ∷ []))).1.upserted ≡ "m1" ∷ "m2" ∷ []
unfolding import_pages load apply_page string_discrete
import_result = refl

incremental-Polled_example :
    Polled demo 3 "5" none synced_world (incremental demo 3 "5" none synced_world)
incremental-Polled_example = incremental-Polled demo (λ w. (refl, refl)) 3 "5" none synced_world

incremental-Ends_example : Ends (incremental demo 3 "5" none synced_world)
unfolding pages_end
incremental-Ends_example =
    incremental-Ends demo (demo_outside, (λ id. refl), λ w. refl) 3 "5" none synced_world refl
  where
    demo_outside :
        (cursor : String) (page : Option String) → has_ended (demo_history cursor page) ≡ true
    demo_outside cursor none = refl
    demo_outside cursor (some page) = refl

start_import-Started_example : Started demo synced_world (start_import demo 3 synced_world)
start_import-Started_example = start_import-Started demo (λ w. (refl, refl)) 3 synced_world

run_sync-unready_example :
    run_sync 3 60 (days 3) demo demo_agenda (demo_world none [])
    ≡ (err stream_stopped, demo_world none [])
run_sync-unready_example = run_sync-unready demo demo_agenda 3 60 (days 3) (demo_world none []) refl
