-- ===== src/Whatsapp/Admission.antt =====
-- Who a connector's key admits, in app/whatsapp.py and app/internal.py, once the user has stopped it.
use moresocial.Whatsapp.Reports.{
  is_active_workspace, observe, fits_key, connector_with, admit, holds_key, connector_for_key,
  authenticate,
}
use moresocial.Whatsapp.Steps.{report-rule, status-rule, stop_row-off}
use moresocial.Memory.Conflicts.{if_rule}
use mathlib.Core.Bool.{false≢true}
use moresocial.Whatsapp.Capped.{reports, polls, stops, connects, Step}
use moresocial.Whatsapp.{
  follow_live, row_of, request_connect, start, refuse, new_row, active_count, stop_row, ensure_row,
  connect_row, of_workspace, stop, set_row, NewKey, wants_running, Fleet, Connector,
}
use moresocial.Base.{
  some-injective, ap, first_where-All, first_where, arith, String, ==_iff, none, All-append, leb,
  some, Option, Time, delete_where, refl, [], if◌then◌else◌, inr, ◌∙◌, sym, inl, Bool-cases, ◌∷◌,
  update_where, ◌⊎◌, false, ◌≢◌, true, ◌≡◌, List, All, Bool, ℕ, Uuid,
}

-- A step that does not request the workspace's connector.
abbrev pub IsOther : {slots : ℕ} {f g : Fleet} → Uuid → Step slots f g → Type 0
IsOther wid (connects k now w f) = w ≢ wid
IsOther wid _ = Unit {0}

-- The workspace's connector is not wanted to run.
abbrev pub IsOff : Uuid → Fleet → Type 0
IsOff wid f = All (λ c. c.workspace_id ≡ wid → wants_running c ≡ false) f.connectors

update_where-IsOff :
    (wid : Uuid) (p : Connector → Bool) (g : Connector → Connector) (cs : List Connector)
    → ((c : Connector) → (g c).workspace_id ≡ c.workspace_id)
    → ((c : Connector)
        → p c ≡ true
        → wants_running (g c) ≡ true
        → (wants_running c ≡ true) ⊎ (c.workspace_id ≢ wid))
    → All (λ c. c.workspace_id ≡ wid → wants_running c ≡ false) cs
    → All (λ c. c.workspace_id ≡ wid → wants_running c ≡ false) (update_where p g cs)
update_where-IsOff wid p g [] same keeps off = tt
update_where-IsOff wid p g (c ∷ cs) same keeps (here, off) =
    (head (p c) refl, update_where-IsOff wid p g cs same keeps off)
  where
    changed : (g c).workspace_id ≡ wid → p c ≡ true → wants_running (g c) ≡ false
    changed e q = elim (Bool-cases (wants_running (g c))) [
      | inl on ↦ elim (keeps c q on) [
        | inl was ↦ absurd (false≢true (sym (here (sym (same c) ∙ e)) ∙ was))
        | inr other ↦ absurd (other (sym (same c) ∙ e))
      ]
      | inr quiet ↦ quiet
    ]

    head :
        (b : Bool)
        → p c ≡ b
        → (if b then g c else c).workspace_id ≡ wid
        → wants_running (if b then g c else c) ≡ false
    head true q e = changed e q
    head false q e = here e

-- Steps that do not request the workspace's connector.
pub data Others (slots : ℕ) (wid : Uuid) : Fleet → Fleet → Type 0 where
  no_step : (f : Fleet) → Others slots wid f f
  other :
      (f g h : Fleet)
      → Others slots wid f g
      → (s : Step slots g h) → IsOther wid s
      → Others slots wid f h

delete_where-IsOff :
    (wid : Uuid) (p : Connector → Bool) (cs : List Connector)
    → All (λ c. c.workspace_id ≡ wid → wants_running c ≡ false) cs
    → All (λ c. c.workspace_id ≡ wid → wants_running c ≡ false) (delete_where p cs)
delete_where-IsOff wid p [] off = tt
delete_where-IsOff wid p (c ∷ cs) (here, off) =
    if_rule (All λ c. c.workspace_id ≡ wid → wants_running c ≡ false) (p c)
      (delete_where-IsOff wid p cs off) (here, delete_where-IsOff wid p cs off)

stop-IsOff : (b : Bool) (wid : Uuid) (f : Fleet) → IsOff wid (stop b wid f)
unfolding stop
stop-IsOff b wid f = rows f.connectors
  where
    rows :
        (cs : List Connector)
        → All
            (λ c. c.workspace_id ≡ wid → wants_running c ≡ false)
            (update_where (of_workspace wid) (stop_row b) cs)
    rows [] = tt
    rows (c ∷ cs) = (row (of_workspace wid c) refl, rows cs)
      where
        row :
            (on : Bool)
            → of_workspace wid c ≡ on
            → (if on then stop_row b c else c).workspace_id ≡ wid
            → wants_running (if on then stop_row b c else c) ≡ false
        row true q e = stop_row-off b c
        row false q e = ground arith

keeps-IsOff :
    (wid w : Uuid) (g : Connector → Connector) (f : Fleet)
    → ((c : Connector) → (g c).workspace_id ≡ c.workspace_id)
    → ((c : Connector) → wants_running (g c) ≡ true → wants_running c ≡ true)
    → IsOff wid f
    → IsOff wid (set_row w g f)
keeps-IsOff wid w g f same keeps off =
    update_where-IsOff wid (of_workspace w) g f.connectors same (λ c q on. inl (keeps c on)) off

connect_row-IsOff :
    (slots : ℕ) (now : Time) (wid w : Uuid) (f : Fleet) (o : Option Connector)
    → w ≢ wid
    → IsOff wid f
    → IsOff wid (connect_row slots now w f o)
connect_row-IsOff slots now wid w f none differ off = off
connect_row-IsOff slots now wid w f (some c) differ off =
    if_rule {A = Fleet} (IsOff wid) (wants_running c) off (
      if_rule {A = Fleet} (IsOff wid) (leb slots (active_count f.connectors))
        (keeps-IsOff wid w refuse f (λ x. refl) (λ x s. s) off)
        (update_where-IsOff wid (of_workspace w) (start now) f.connectors (λ x. refl)
          (λ x q on. inr (λ e. differ (sym ((==_iff x.workspace_id w).0 q) ∙ e))) off))

ensure_row-IsOff :
    (wid w : Uuid) (k : NewKey) (now : Time) (f : Fleet) (o : Option Connector)
    → IsOff wid f
    → IsOff wid (ensure_row w k now f o)
ensure_row-IsOff wid w k now f (some c) off = off
ensure_row-IsOff wid w k now f none off =
    All-append (λ c. c.workspace_id ≡ wid → wants_running c ≡ false) f.connectors
      (new_row w k now ∷ []) off ((λ e. refl), tt)

Step-IsOff :
    (slots : ℕ) (wid : Uuid) (f g : Fleet) (s : Step slots f g)
    → IsOther wid s
    → IsOff wid f
    → IsOff wid g
unfolding request_connect stop
Step-IsOff slots wid _ _ (connects k now w f) differ off =
    let f' = ensure_row w k now f (row_of w f) in
    connect_row-IsOff slots now wid w f' (row_of w f') differ
      (ensure_row-IsOff wid w k now f (row_of w f) off)
Step-IsOff slots wid _ _ (stops b w f) u off =
    keeps-IsOff wid w (stop_row b) f (λ x. refl)
      (λ x on. let quiet = stop_row-off b x in ground arith) off
Step-IsOff slots wid _ _ (polls live w f) u off =
    status-rule (IsOff wid) live w f off
      λ l. keeps-IsOff wid w (follow_live l) f (λ x. refl) (λ x on. on) off
Step-IsOff slots wid _ _ (reports s detail w f) u off =
    report-rule (IsOff wid) s detail w f off (λ cleanups. off)
      (delete_where-IsOff wid (of_workspace w) f.connectors off)
      (keeps-IsOff wid w (observe s detail) f (λ x. refl) (λ x on. on) off)

Others-IsOff :
    (slots : ℕ) (wid : Uuid) (f g : Fleet) → Others slots wid f g → IsOff wid f → IsOff wid g
Others-IsOff slots wid _ _ (no_step f) off = off
Others-IsOff slots wid _ _ (other f g h before s o) off =
    Step-IsOff slots wid g h s o (Others-IsOff slots wid f g before off)

admit-IsOff :
    (digest : String → String) (key : Option String) (wid : Uuid) (f : Fleet)
    → IsOff wid f
    → (w : Uuid) (account : Option String) → authenticate digest key f ≡ some (w, account)
    → w ≢ wid
unfolding authenticate connector_for_key
admit-IsOff digest key wid f off w account = with_key (fits_key key)
  where
    named :
        (c : Connector) (active : Bool)
        → if◌then◌else◌ {A = Option (Uuid × Option String)} active
            (some (c.workspace_id, c.account_wid))
            none
          ≡ some (w, account)
        → c.workspace_id ≡ w
    named c true e = ap (λ x. x.0) (some-injective _ _ e)
    named c false e = ground arith

    found :
        (d : String) (o : Option Connector)
        → first_where (holds_key d) f.connectors ≡ o
        → admit f o ≡ some (w, account)
        → w ≢ wid
    found d none q e = ground arith
    found d (some c) q e =
        let (quiet, holds) =
          first_where-All (λ c. c.workspace_id ≡ wid → wants_running c ≡ false) (holds_key d)
            f.connectors c off q in
        λ same.
          let off_too = quiet (named c (is_active_workspace c.workspace_id f) e ∙ same) in
          ground arith

    with_key :
        (k : Option String) → admit f (connector_with digest k f) ≡ some (w, account) → w ≢ wid
    with_key none e = ground arith
    with_key (some k) e = found (digest k) _ refl e

-- Once the user has stopped the connector of a workspace, no key admits a packet into the workspace,
-- whatever else happens in whatever order, until the connector is requested again.
pub stopped_admits_nothing :
    (slots : ℕ) (remove_session : Bool) (wid : Uuid) (f g : Fleet)
    → Others slots wid (stop remove_session wid f) g
    → (digest : String → String) (key : Option String) (w : Uuid) (account : Option String)
    → authenticate digest key g ≡ some (w, account)
    → w ≢ wid
stopped_admits_nothing slots b wid f g steps digest key =
    admit-IsOff digest key wid g
      (Others-IsOff slots wid (stop b wid f) g steps (stop-IsOff b wid f))
