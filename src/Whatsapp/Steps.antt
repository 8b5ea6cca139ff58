-- ===== src/Whatsapp/Steps.antt =====
-- The connectors of app/whatsapp.py and app/internal.py under every step.
use native.Mathlib.Nat.{le_trans}
use moresocial.Memory.Conflicts.{if_rule}
use moresocial.Whatsapp.{
  idle, shown, set_row, row_of, ensure_row, follow_live, of_workspace, is_idle, View, status_row,
  stop_row, Live, wants_running, Fleet, Connector, Observed, stop, request_connect, status,
}
use moresocial.Base.{
  if◌then◌else◌, List, ◌==◌, exists_where, not, arith, none, ◌&&◌, refl, true, some, false, ◌≡◌,
  Uuid, String, Option, ℕ, Bool,
}
use moresocial.Whatsapp.Reports.{
  drop_row, is_workspace, is_reported, observe, is_gone, wants_deletion, is_removed, report_row,
  Reply, report,
}
use moresocial.Whatsapp.Capped.{
  reports, polls, stops, ensure_row-IsCapped, active_count-delete, connect_row-IsCapped, after,
  delete_where-Distinct, at_start, connects, set_row-IsCapped, IsCapped, Step, Reach,
}

pub stop_row-off : (b : Bool) (c : Connector) → wants_running (stop_row b c) ≡ false
stop_row-off true c = refl
stop_row-off false c = refl

-- A poll leaves the tables, or follows what the connector tells.
pub status-rule :
    (Q : Fleet → Type 0) (live : Option Live) (wid : Uuid) (f : Fleet)
    → Q f
    → ((l : Live) → Q (set_row wid (follow_live l) f))
    → Q (status live wid f).1
unfolding status
status-rule Q live wid f q followed = by_row (row_of wid f) live
  where
    P : View × Fleet → Type 0
    P o = Q o.1

    unreached :
        (c : Connector)
        → P (
            if is_idle c.observed
            then (idle c.detail c.history, f)
            else (shown c.observed none c.detail c.history, f))
    unreached c = if_rule P (is_idle c.observed) q q

    by_row : (o : Option Connector) (l : Option Live) → Q (status_row wid f l o).1
    by_row none l = q
    by_row (some c) none = if_rule {A = View × Fleet} (λ o. Q o.1) (wants_running c) q (unreached c)
    by_row (some c) (some l) =
        if_rule {A = View × Fleet} (λ o. Q o.1) (wants_running c) (followed l) (unreached c)

-- A report leaves the connectors, deletes the workspace's row or notes the state in it.
pub report-rule :
    (Q : Fleet → Type 0) (s : Observed) (detail : Option String) (wid : Uuid) (f : Fleet)
    → Q f
    → ((cleanups : List Uuid) → Q (record f { cleanups = cleanups }))
    → Q (drop_row wid f)
    → Q (set_row wid (observe s detail) f)
    → Q (report s detail wid f).1
unfolding report
report-rule Q s detail wid f q cleaned dropped noted_in =
    let P : Reply × Fleet → Type 0 = λ o. Q o.1 in
    if_rule P (not (is_reported s)) q (
      if_rule P (exists_where (λ w. w == wid) f.cleanups)
        (if_rule P (is_removed s && not (is_workspace wid f)) (cleaned _) q)
        (by_row (row_of wid f)))
  where
    by_row : (o : Option Connector) → Q (report_row s detail wid f o).1
    by_row none = q
    by_row (some c) =
        let P : Reply × Fleet → Type 0 = λ o. Q o.1 in
        if_rule P (is_removed s && wants_deletion c) dropped
          (if_rule P (wants_running c && is_gone s) q noted_in)

Step-IsCapped : (slots : ℕ) (f g : Fleet) → Step slots f g → IsCapped slots f → IsCapped slots g
unfolding request_connect stop
Step-IsCapped slots _ _ (connects k now wid f) capped =
    let f' = ensure_row wid k now f (row_of wid f) in
    connect_row-IsCapped slots now wid f' (row_of wid f') refl
      (ensure_row-IsCapped slots wid k now f (row_of wid f) refl capped)
Step-IsCapped slots _ _ (stops b wid f) capped =
    set_row-IsCapped slots wid (stop_row b) f (λ x. refl)
      (λ x s. let off = stop_row-off b x in ground arith) capped
Step-IsCapped slots _ _ (polls live wid f) capped =
    status-rule (IsCapped slots) live wid f capped
      λ l. set_row-IsCapped slots wid (follow_live l) f (λ x. refl) (λ x s. s) capped
Step-IsCapped slots _ _ (reports s detail wid f) capped =
    let (d, le) = capped in
    report-rule (IsCapped slots) s detail wid f capped (λ cleanups. capped)
      (
        delete_where-Distinct (of_workspace wid) f.connectors d,
        le_trans (active_count-delete (of_workspace wid) f.connectors) le,
      )
      (set_row-IsCapped slots wid (observe s detail) f (λ x. refl) (λ x on. on) capped)

-- Whatever the users request and stop, the connectors tell and the provisioner reports, in any
-- order: from a table with one row for each workspace and no more connectors running than the cap,
-- every table that is reached is such.
pub Reach-IsCapped :
    (slots : ℕ) (f g : Fleet) → IsCapped slots f → Reach slots f g → IsCapped slots g
Reach-IsCapped slots _ _ capped (at_start f) = capped
Reach-IsCapped slots _ _ capped (after f g h reached step) =
    Step-IsCapped slots g h step (Reach-IsCapped slots f g capped reached)
