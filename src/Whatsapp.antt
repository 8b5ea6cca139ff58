-- ===== src/Whatsapp.antt =====
-- app/whatsapp.py and the management API of app/internal.py: the state of each workspace's WhatsApp
-- connector, as the user wants it, as the provisioner reports it and as the connector itself tells.
-- What the connector answers, the digest of keys and the texts of new keys are parameters.
use moresocial.Settings.{if_text}
pub mod Reports
pub mod Capped
pub mod Steps
pub mod Admission
pub mod Examples
use moresocial.Base.{
  text_length, ◌&&◌, exists_where, text_eq, not, delete_where, [], ◌∷◌, false, leb, true, ◌++◌,
  if◌then◌else◌, count_where, first_where, ◌==◌, List, update_where, ℕ, Bool, Option, truncate,
  some, none, Uuid, Time, String,
}

-- WhatsAppConnector.desired
pub data Desired : Type 0 where
  run_it stop_it delete_it : Desired

-- WhatsAppConnector.observed, PUBLIC_STATES
pub data Observed : Type 0 where
  pending capacity starting pairing loading ready disconnected : Observed
  error stopped auth_failure removed : Observed

pub record Connector : Type 0 where
  pub id : Uuid
  pub workspace_id : Uuid
  pub desired : Desired
  pub observed : Observed
  pub key_hash : String
  pub key_enc : String
  pub account_wid : Option String
  pub history : Option String
  pub detail : Option String
  pub requested_at : Option Time

-- The connectors of all workspaces, the outbox ConnectorCleanup, and the workspaces with whether
-- each is active.
pub record Fleet : Type 0 where
  pub connectors : List Connector
  pub cleanups : List Uuid
  pub workspaces : List (Uuid × Bool)

abbrev pub is_running : Desired → Bool
is_running run_it = true
is_running _ = false

abbrev pub wants_running : Connector → Bool
wants_running c = is_running c.desired

-- `active_count`
abbrev pub active_count : List Connector → ℕ
active_count = count_where wants_running

abbrev pub of_workspace : Uuid → Connector → Bool
of_workspace wid c = c.workspace_id == wid

abbrev pub row_of : Uuid → Fleet → Option Connector
row_of wid f = first_where (of_workspace wid) f.connectors

-- A change of the workspace's row.
abbrev pub set_row : Uuid → (Connector → Connector) → Fleet → Fleet
set_row wid g f = record f { connectors = update_where (of_workspace wid) g f.connectors }

-- What a new row takes: its id and its key.
pub record NewKey : Type 0 where
  pub id : Uuid
  pub key_hash : String
  pub key_enc : String

abbrev pub new_row : Uuid → NewKey → Time → Connector
new_row wid k now = record {
  id = k.id;
  workspace_id = wid;
  desired = stop_it;
  observed = pending;
  key_hash = k.key_hash;
  key_enc = k.key_enc;
  account_wid = none;
  history = none;
  detail = none;
  requested_at = some now;
}

abbrev pub ensure_row : Uuid → NewKey → Time → Fleet → Option Connector → Fleet
ensure_row wid k now f (some c) = f
ensure_row wid k now f none = record f { connectors = f.connectors ++ new_row wid k now ∷ [] }

abbrev pub refuse : Connector → Connector
refuse c = record c {
  observed = capacity;
  detail = some "All WhatsApp connection slots are in use. Try again later.";
}

abbrev pub start : Time → Connector → Connector
start now c = record c {
  desired = run_it;
  observed = pending;
  detail = none;
  requested_at = some now;
}

abbrev pub connect_row : ℕ → Time → Uuid → Fleet → Option Connector → Fleet
connect_row cap now wid f none = f
connect_row cap now wid f (some c) =
    if wants_running c
    then f
    else if leb cap (active_count f.connectors)
    then set_row wid refuse f
    else set_row wid (start now) f

abbrev pub connect_in : ℕ → Time → Uuid → Fleet → Fleet
connect_in cap now wid f = connect_row cap now wid f (row_of wid f)

-- `request_connect`, within the cap
unfoldable pub request_connect : ℕ → NewKey → Time → Uuid → Fleet → Fleet
request_connect cap k now wid f = connect_in cap now wid (ensure_row wid k now f (row_of wid f))

abbrev pub stop_row : Bool → Connector → Connector
stop_row remove_session c = record c {
  desired = if remove_session then delete_it else stop_it;
  observed = stopped;
  detail = none;
  history = none;
  account_wid = if remove_session then none else c.account_wid;
}

-- `stop`; the connector is told as well, with no effect on the tables.
unfoldable pub stop : Bool → Uuid → Fleet → Fleet
stop remove_session wid f = set_row wid (stop_row remove_session) f

-- What a connector tells of itself; a state that is not public is none, as is a name of an account
-- that does not look like one.
pub record Live : Type 0 where
  pub state : Option Observed
  pub account : Option String
  pub history : Option String
  pub error : Option String
  pub qr : Option String

-- What the owner is shown; `idle` is not_connected as well, with the detail and the history.
pub data View : Type 0 where
  not_connected : View
  idle : Option String → Option String → View
  shown : Observed → Option String → Option String → Option String → View

abbrev pub state_of : Live → Observed
state_of l = elim l.state [ some s ↦ s | none ↦ error ]

abbrev pub or_before : Option String → Option String → Option String
or_before none old = old
or_before (some a) old = some a

-- `str(...)[:300]`
abbrev pub shorten : Option String → Option String
shorten none = none
shorten (some s) = some (truncate 300 s)

abbrev pub follow_live : Live → Connector → Connector
follow_live l c = record c {
  observed = state_of l;
  account_wid = or_before l.account c.account_wid;
  history = l.history;
  detail = shorten (if_text l.error);
}

-- The QR code is shown only while pairing.
abbrev pub qr_of : Observed → Option String → Option String
qr_of pairing qr = qr
qr_of _ qr = none

abbrev pub is_idle : Observed → Bool
is_idle stopped = true
is_idle removed = true
is_idle pending = true
is_idle _ = false

abbrev pub or_starting : Observed → Observed
or_starting pending = starting
or_starting starting = starting
or_starting s = s

-- A connector that cannot be reached is shown as it was last seen.
abbrev pub status_running : Uuid → Fleet → Connector → Option Live → View × Fleet
status_running wid f c none = (shown (or_starting c.observed) none c.detail c.history, f)
status_running wid f c (some l) = (
  shown (state_of l) (qr_of (state_of l) l.qr) (follow_live l c).detail l.history,
  set_row wid (follow_live l) f,
)

abbrev pub status_row : Uuid → Fleet → Option Live → Option Connector → View × Fleet
status_row wid f live none = (not_connected, f)
status_row wid f live (some c) =
    if wants_running c
    then status_running wid f c live
    else if is_idle c.observed
    then (idle c.detail c.history, f)
    else (shown c.observed none c.detail c.history, f)

-- `status`
unfoldable pub status : Option Live → Uuid → Fleet → View × Fleet
unfolding truncate
status live wid f = status_row wid f live (row_of wid f)
