-- ===== src/Jobs/Leases.antt =====
-- What a lease is worth: while it lasts, no other worker's call touches the row or is handed it.
use mathlib.Core.Option.{none-ne-some}
use moresocial.Jobs.Invariant.{step-IsQueue, AllAllowed, id-fail_job, enqueue-cases, IsQueue}
use moresocial.Jobs.Calls.{
  earliest-All, ids, ids-sweep, run, step, cancel_call, defer_call, fail_call, complete_call,
  renew_call, claim_call, enqueue_call, Call,
}
use moresocial.Base.{
  none, find-key, ◌∙◌, ◌==◌, [], find-All, Distinct, ◌∷◌, refl, find-append, inr, sym, subst, inl,
  ap, find-update_where, arith, update_where, true, false, some, find, ◌≢◌, ◌≡◌, ◌≤◌, Option, List,
  Time, Bool, String, Uuid,
}
use moresocial.Jobs.{
  lease_to, earliest, take_row, give_up, call_off, cancellable, postpone, fail_job, finish,
  extend_lease, cancel, defer, fail, sweep, complete, renew, claim, claimable, Claimer, spent,
  running, held_by, leased_to, Workspace, String, Uuid, Bool, Job,
}

-- The row runs under a lease of the owner that lasts at least until then.
pub record IsHeld (row : Job) (owner : String) (until : Time) : Type 0 where
  pub expiry : Time
  pub is_running : row.status ≡ running
  pub has_owner : row.lease_owner ≡ some owner
  pub expires : row.lease_expires_at ≡ some expiry
  pub lasts : until ≤ expiry

-- A call by another worker, at a time when the lease lasts; a `cancel` of another workspace.
abbrev pub IsOther : Job → String → Time → Call → Type 0
IsOther row owner until (enqueue_call fresh now r) = Unit
IsOther row owner until (claim_call ws locked c now) = now ≤ until
IsOther row owner until (renew_call id other lease now) = other ≢ owner
IsOther row owner until (complete_call id other) = other ≢ owner
IsOther row owner until (fail_call id other f now) = other ≢ owner
IsOther row owner until (defer_call id other at reason) = other ≢ owner
IsOther row owner until (cancel_call wid kinds) = wid ≢ row.workspace_id

abbrev pub find_job : Uuid → List Job → Option Job
find_job = find (λ j. j.id)

-- An UPDATE whose WHERE the row does not meet leaves it.
untouched :
    (p : Job → Bool) (f : Job → Job) (jobs : List Job) (i : Uuid) (row : Job)
    → ((j : Job) → (f j).id ≡ j.id)
    → find_job i jobs ≡ some row
    → p row ≡ false
    → find_job i (update_where p f jobs) ≡ some row
untouched p f jobs i row same e h =
    rw (find-update_where (λ j. j.id) p f i jobs same, e) (ap some (rw h))

-- A row that the sweep leaves so that it does not meet the WHERE of `claim` is not claimed.
module _ (ws : List Workspace) (locked : Uuid → Bool) (c : Claimer) (now : Time) (row : Job)
    (not_ok : claimable ws locked c now row ≢ true) where
  picked_other :
      (rows : List Job) (j : Job)
      → Distinct (ids rows)
      → find_job row.id rows ≡ some row
      → earliest (claimable ws locked c now) rows ≡ some j
      → row.id ≢ j.id
  picked_other rows j d e pick same =
      let (only, ok) =
        earliest-All (λ x. x.id ≡ row.id → x ≡ row) (claimable ws locked c now) rows j
          (find-All (λ x. x.id) row.id rows row d e) pick in
      not_ok (subst (λ x. claimable ws locked c now x ≡ true) (only (sym same)) ok)

  find-take_row :
      (rows : List Job) (o : Option Job)
      → ((j : Job) → o ≡ some j → row.id ≢ j.id)
      → find_job row.id rows ≡ some row
      → (find_job row.id (take_row c now o rows).0 ≡ some row)
        × ((j : Job) → (take_row c now o rows).1 ≡ some j → j.id ≢ row.id)
  unfolding take_row
  find-take_row rows none other e = (e, λ j q. absurd (none-ne-some j q))
  find-take_row rows (some k) other e = (
    untouched (λ x. x.id == k.id) (lease_to c now) rows row.id row (λ x. refl) e
        (ground (arith, other k refl)),
    λ j q same. other k refl (sym same ∙ find-key (λ x. x.id) k.id _ j q),
  )

  pub find-claim_other :
      (jobs : List Job)
      → IsQueue jobs
      → find_job row.id (sweep now jobs) ≡ some row
      → (find_job row.id (claim ws locked c now jobs).0 ≡ some row)
        × ((j : Job) → (claim ws locked c now jobs).1 ≡ some j → j.id ≢ row.id)
  unfolding claim
  find-claim_other jobs q e =
      find-take_row (sweep now jobs) _
        (λ j pick.
          picked_other (sweep now jobs) j (subst Distinct (sym (ids-sweep now jobs)) q.keys) e pick)
        e

module _ (row : Job) (owner : String) (until : Time) (held : IsHeld row owner until) where
  -- None of the others' WHERE clauses is true of the row.
  not_leased : (id : Uuid) (other : String) → other ≢ owner → leased_to id other row ≡ false
  not_leased id other h = ground arith

  not_held : (id : Uuid) (other : String) → other ≢ owner → held_by id other row ≡ false
  not_held id other h = ground arith

  not_spent : (now : Time) → now ≤ until → spent now row ≡ false
  not_spent now h = ground arith

  not_claimable :
      (ws : List Workspace) (locked : Uuid → Bool) (c : Claimer) (now : Time)
      → now ≤ until
      → claimable ws locked c now row ≢ true
  not_claimable ws locked c now h = ground arith

  find-sweep :
      (now : Time) (jobs : List Job)
      → now ≤ until
      → find_job row.id jobs ≡ some row
      → find_job row.id (sweep now jobs) ≡ some row
  unfolding sweep
  find-sweep now jobs h e =
      untouched (spent now) give_up jobs row.id row (λ j. refl) e (not_spent now h)

  -- `claim` leaves the row, and hands out another one.
  find-claim :
      (ws : List Workspace) (locked : Uuid → Bool) (c : Claimer) (now : Time) (jobs : List Job)
      → IsQueue jobs
      → now ≤ until
      → find_job row.id jobs ≡ some row
      → (find_job row.id (claim ws locked c now jobs).0 ≡ some row)
        × ((j : Job) → (claim ws locked c now jobs).1 ≡ some j → j.id ≢ row.id)
  find-claim ws locked c now jobs q h e =
      find-claim_other ws locked c now row (not_claimable ws locked c now h) jobs q
        (find-sweep now jobs h e)

  find-step :
      (c : Call) (jobs : List Job)
      → IsQueue jobs
      → IsOther row owner until c
      → find_job row.id jobs ≡ some row
      → find_job row.id (step c jobs) ≡ some row
  unfolding step renew complete fail defer cancel
  find-step (enqueue_call fresh now r) jobs q o e = elim (enqueue-cases fresh now r jobs) [
    | inl old ↦ subst (λ x. find_job row.id x.0 ≡ some row) (sym old) e
    | inr added ↦
        subst (λ x. find_job row.id x.0 ≡ some row) (sym added)
          (find-append (λ j. j.id) row.id jobs _ row e)
  ]
  find-step (claim_call ws locked c now) jobs q o e = (find-claim ws locked c now jobs q o e).0
  find-step (renew_call id other lease now) jobs q o e =
      untouched (leased_to id other) (extend_lease lease now) jobs row.id row (λ j. refl) e
        (not_leased id other o)
  find-step (complete_call id other) jobs q o e =
      untouched (leased_to id other) finish jobs row.id row (λ j. refl) e (not_leased id other o)
  find-step (fail_call id other f now) jobs q o e =
      untouched (held_by id other) (fail_job f now) jobs row.id row (id-fail_job f now) e
        (not_held id other o)
  find-step (defer_call id other at reason) jobs q o e =
      untouched (held_by id other) (postpone at reason) jobs row.id row (λ j. refl) e
        (not_held id other o)
  find-step (cancel_call wid kinds) jobs q o e =
      untouched (cancellable wid kinds) call_off jobs row.id row (λ j. refl) e (ground arith)

abbrev pub AllOthers : Job → String → Time → List Call → Type 0
AllOthers row owner until [] = Unit
AllOthers row owner until (c ∷ cs) = IsOther row owner until c × AllOthers row owner until cs

-- A worker's lease is exclusive. Let a well-formed queue hold a row that runs under a lease of
-- `owner` which lasts until `until`. After any sequence of calls by other workers, none of whose
-- claims is later than `until`, and of cancels of other workspaces, the row stands in the table
-- exactly as it was, and a further claim at such a time hands out another job.
pub lease_exclusive :
    (row : Job) (owner : String) (until : Time) (cs : List Call) (jobs : List Job)
    (ws : List Workspace) (locked : Uuid → Bool) (c : Claimer) (now : Time)
    → IsHeld row owner until
    → IsQueue jobs
    → AllAllowed cs jobs
    → AllOthers row owner until cs
    → now ≤ until
    → find_job row.id jobs ≡ some row
    → (find_job row.id (run cs jobs) ≡ some row)
      × ((j : Job) → (claim ws locked c now (run cs jobs)).1 ≡ some j → j.id ≢ row.id)
unfolding run
lease_exclusive row owner until [] jobs ws locked c now held q a o h e =
    (e, (find-claim row owner until held ws locked c now jobs q h e).1)
lease_exclusive row owner until (d ∷ cs) jobs ws locked c now held q a o h e =
    lease_exclusive row owner until cs (step d jobs) ws locked c now held
      (step-IsQueue d jobs q a.0) a.1 o.1 h (find-step row owner until held d jobs q o.0 e)
