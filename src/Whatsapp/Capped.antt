-- ===== src/Whatsapp/Capped.antt =====
-- app/whatsapp.py and app/internal.py: however connectors are requested, stopped, polled and reported,
-- no more run than the cap allows.
use mathlib.Core.List.{map-append}
use moresocial.Memory.Conflicts.{if_rule}
use moresocial.Whatsapp.Reports.{report}
use native.Mathlib.Nat.{le_trans}
use moresocial.Base.{
  Distinct-snoc, ◌++◌, sum_by-append, none, ◌≢◌, first_where, All, String, sum_by-update_where,
  map-update_where, sym, refl, [], subst, leb, arith, Option, update_where, false, ◌∷◌, ◌≤◌, sum_by,
  true, some, map, delete_where, ◌≡◌, if◌then◌else◌, Time, Distinct, Uuid, List, Bool, ℕ,
}
use moresocial.Whatsapp.{
  new_row, refuse, ensure_row, connect_row, of_workspace, Observed, status, start, Live, set_row,
  stop, request_connect, row_of, active_count, NewKey, wants_running, Connector, Fleet,
}

-- What happens to the connectors, for a cap.
pub data Step (slots : ℕ) : Fleet → Fleet → Type 0 where
  connects :
      (k : NewKey) (now : Time) (wid : Uuid) (f : Fleet)
      → Step slots f (request_connect slots k now wid f)
  stops :
      (remove_session : Bool) (wid : Uuid) (f : Fleet) → Step slots f (stop remove_session wid f)
  polls : (live : Option Live) (wid : Uuid) (f : Fleet) → Step slots f (status live wid f).1
  reports :
      (s : Observed) (detail : Option String) (wid : Uuid) (f : Fleet)
      → Step slots f (report s detail wid f).1

pub data Reach (slots : ℕ) : Fleet → Fleet → Type 0 where
  at_start : (f : Fleet) → Reach slots f f
  after : (f g h : Fleet) → Reach slots f g → Step slots g h → Reach slots f h

-- One row for each workspace, and no more running than the cap.
abbrev pub IsCapped : ℕ → Fleet → Type 0
IsCapped slots f =
    Distinct (map (λ c. c.workspace_id) f.connectors) × (active_count f.connectors ≤ slots)

abbrev one_running : Connector → ℕ
one_running c = if wants_running c then 1 else 0

active_count-sum : (cs : List Connector) → active_count cs ≡ sum_by one_running cs
active_count-sum [] = refl
active_count-sum (c ∷ cs) = let e = active_count-sum cs in ground arith

pub active_count-update :
    (p : Connector → Bool) (g : Connector → Connector) (cs : List Connector)
    → ((c : Connector) → wants_running (g c) ≡ true → wants_running c ≡ true)
    → active_count (update_where p g cs) ≤ active_count cs
active_count-update p g [] keeps = omega arith
active_count-update p g (c ∷ cs) keeps =
    let rest = active_count-update p g cs keeps in let here = keeps c in ground arith

pub active_count-delete :
    (p : Connector → Bool) (cs : List Connector)
    → active_count (delete_where p cs) ≤ active_count cs
active_count-delete p [] = omega arith
active_count-delete p (c ∷ cs) = let rest = active_count-delete p cs in ground arith

pub set_row-IsCapped :
    (slots : ℕ) (wid : Uuid) (g : Connector → Connector) (f : Fleet)
    → ((c : Connector) → (g c).workspace_id ≡ c.workspace_id)
    → ((c : Connector) → wants_running (g c) ≡ true → wants_running c ≡ true)
    → IsCapped slots f
    → IsCapped slots (set_row wid g f)
set_row-IsCapped slots wid g f same keeps (d, le) = (
  subst Distinct
      (sym (map-update_where (λ c. c.workspace_id) (of_workspace wid) g f.connectors same)) d,
  le_trans (active_count-update (of_workspace wid) g f.connectors keeps) le,
)

start-IsCapped :
    (slots : ℕ) (now : Time) (wid : Uuid) (f : Fleet) (c : Connector)
    → row_of wid f ≡ some c
    → wants_running c ≡ false
    → leb slots (active_count f.connectors) ≡ false
    → IsCapped slots f
    → IsCapped slots (set_row wid (start now) f)
start-IsCapped slots now wid f c e off room (d, le) =
    let sums =
      sum_by-update_where (λ c. c.workspace_id) one_running (start now) wid f.connectors c d e in
    let before = active_count-sum f.connectors in
    let later = active_count-sum (update_where (of_workspace wid) (start now) f.connectors) in
    (
      subst Distinct
          (sym (
            map-update_where (λ c. c.workspace_id) (of_workspace wid) (start now) f.connectors
              (λ x. refl)))
          d,
      ground arith,
    )

delete_where-absent :
    (p : Connector → Bool) (k : Uuid) (cs : List Connector)
    → All (λ y. y ≢ k) (map (λ c. c.workspace_id) cs)
    → All (λ y. y ≢ k) (map (λ c. c.workspace_id) (delete_where p cs))
delete_where-absent p k [] a = tt
delete_where-absent p k (c ∷ cs) (here, a) =
    if_rule (λ rows. All (λ y. y ≢ k) (map (λ c. c.workspace_id) rows)) (p c)
      (delete_where-absent p k cs a) (here, delete_where-absent p k cs a)

pub delete_where-Distinct :
    (p : Connector → Bool) (cs : List Connector)
    → Distinct (map (λ c. c.workspace_id) cs)
    → Distinct (map (λ c. c.workspace_id) (delete_where p cs))
delete_where-Distinct p [] d = tt
delete_where-Distinct p (c ∷ cs) (here, d) =
    if_rule (λ rows. Distinct (map (λ c. c.workspace_id) rows)) (p c) (delete_where-Distinct p cs d)
      (delete_where-absent p c.workspace_id cs here, delete_where-Distinct p cs d)

row_of-absent :
    (wid : Uuid) (cs : List Connector)
    → first_where (of_workspace wid) cs ≡ none
    → All (λ y. y ≢ wid) (map (λ c. c.workspace_id) cs)
row_of-absent wid [] e = tt
row_of-absent wid (c ∷ cs) e = (ground arith, row_of-absent wid cs (ground arith))

pub ensure_row-IsCapped :
    (slots : ℕ) (wid : Uuid) (k : NewKey) (now : Time) (f : Fleet) (o : Option Connector)
    → row_of wid f ≡ o
    → IsCapped slots f
    → IsCapped slots (ensure_row wid k now f o)
ensure_row-IsCapped slots wid k now f (some c) e capped = capped
ensure_row-IsCapped slots wid k now f none e (d, le) =
    let sums = sum_by-append one_running f.connectors (new_row wid k now ∷ []) in
    let before = active_count-sum f.connectors in
    let later = active_count-sum (f.connectors ++ new_row wid k now ∷ []) in
    (
      subst Distinct (sym (map-append (λ c. c.workspace_id) f.connectors (new_row wid k now ∷ [])))
          (Distinct-snoc (map (λ c. c.workspace_id) f.connectors) wid d
            (row_of-absent wid f.connectors e)),
      ground arith,
    )

pub connect_row-IsCapped :
    (slots : ℕ) (now : Time) (wid : Uuid) (f : Fleet) (o : Option Connector)
    → row_of wid f ≡ o
    → IsCapped slots f
    → IsCapped slots (connect_row slots now wid f o)
connect_row-IsCapped slots now wid f none e capped = capped
connect_row-IsCapped slots now wid f (some c) e capped =
    by_row (wants_running c) (leb slots (active_count f.connectors)) refl refl
  where
    by_row :
        (on full : Bool)
        → wants_running c ≡ on
        → leb slots (active_count f.connectors) ≡ full
        → IsCapped slots
            (if on then f else if full then set_row wid refuse f else set_row wid (start now) f)
    by_row true full q r = capped
    by_row false true q r = set_row-IsCapped slots wid refuse f (λ x. refl) (λ x s. s) capped
    by_row false false q r = start-IsCapped slots now wid f c e q r capped
