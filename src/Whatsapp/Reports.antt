-- ===== src/Whatsapp/Reports.antt =====
-- app/internal.py and `connector_for_key` of app/whatsapp.py: which workspace a connector's key admits
-- to, and the reports of the provisioner.
use moresocial.Settings.{if_text}
use moresocial.Base.{
  ◌&&◌, first_where, ◌==◌, none, leb, not, if◌then◌else◌, text_eq, delete_where, true, exists_where,
  false, some, Option, String, Bool, truncate, text_length, Uuid,
}
use moresocial.Whatsapp.{
  set_row, row_of, wants_running, capacity, removed, of_workspace, error, stopped, pending,
  delete_it, Observed, Connector, Fleet,
}

-- `connector_for_key`: the running connector whose key has the digest.
abbrev pub holds_key : String → Connector → Bool
holds_key digest c = text_eq c.key_hash digest && wants_running c

abbrev pub fits_key : Option String → Option String
fits_key none = none
fits_key (some key) = if leb (text_length key) 200 then if_text (some key) else none

abbrev pub connector_with : (String → String) → Option String → Fleet → Option Connector
connector_with digest none f = none
connector_with digest (some key) f = first_where (holds_key (digest key)) f.connectors

unfoldable pub connector_for_key : (String → String) → Option String → Fleet → Option Connector
unfolding text_length
connector_for_key digest key f = connector_with digest (fits_key key) f

abbrev pub is_active_workspace : Uuid → Fleet → Bool
is_active_workspace wid f = exists_where (λ w. w.0 == wid && w.1) f.workspaces

abbrev pub admit : Fleet → Option Connector → Option (Uuid × Option String)
admit f none = none
admit f (some c) =
    if is_active_workspace c.workspace_id f then some (c.workspace_id, c.account_wid) else none

-- `authenticate` of an ingest request: the workspace that the packet goes to.
unfoldable pub authenticate :
    (String → String) → Option String → Fleet → Option (Uuid × Option String)
unfolding connector_for_key
authenticate digest key f = admit f (connector_for_key digest key f)

-- The answer to the provisioner's report.
pub data Reply : Type 0 where
  noted row_deleted pending_cleanup unknown invalid_state : Reply

abbrev pub is_removed : Observed → Bool
is_removed removed = true
is_removed _ = false

-- The states that the provisioner may report.
abbrev pub is_reported : Observed → Bool
is_reported pending = false
is_reported capacity = false
is_reported _ = true

abbrev pub is_gone : Observed → Bool
is_gone stopped = true
is_gone removed = true
is_gone _ = false

abbrev pub wants_deletion : Connector → Bool
wants_deletion c = elim c.desired [ delete_it ↦ true | _ ↦ false ]

abbrev pub is_error : Observed → Bool
is_error error = true
is_error _ = false

-- Only an error brings its detail.
abbrev pub new_detail : Bool → Option String → Option String → Option String
new_detail true (some d) old = some (truncate 300 d)
new_detail _ _ old = old

abbrev pub observe : Observed → Option String → Connector → Connector
observe s detail c = record c { observed = s; detail = new_detail (is_error s) detail c.detail }

abbrev pub drop_row : Uuid → Fleet → Fleet
drop_row wid f = record f { connectors = delete_where (of_workspace wid) f.connectors }

abbrev pub report_row : Observed → Option String → Uuid → Fleet → Option Connector → Reply × Fleet
report_row s detail wid f none = (unknown, f)
report_row s detail wid f (some c) =
    if is_removed s && wants_deletion c
    then (row_deleted, drop_row wid f)
    else if wants_running c && is_gone s
    then (noted, f)
    else (noted, set_row wid (observe s detail) f)

abbrev pub is_workspace : Uuid → Fleet → Bool
is_workspace wid f = exists_where (λ w. w.0 == wid) f.workspaces

abbrev pub report_cleanup : Observed → Uuid → Fleet → Reply × Fleet
report_cleanup s wid f =
    if is_removed s && not (is_workspace wid f)
    then (row_deleted, record f { cleanups = delete_where (λ w. w == wid) f.cleanups })
    else (pending_cleanup, f)

-- `observed`, a report of the provisioner on a workspace
unfoldable pub report : Observed → Option String → Uuid → Fleet → Reply × Fleet
unfolding truncate
report s detail wid f =
    if not (is_reported s)
    then (invalid_state, f)
    else if exists_where (λ w. w == wid) f.cleanups
    then report_cleanup s wid f
    else report_row s detail wid f (row_of wid f)
