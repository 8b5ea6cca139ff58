-- ===== src/Worker/Reports.antt =====
-- worker/main.py: what becomes of a job that a worker has claimed.

use native.Mathlib.Nat.{le_refl}
use moresocial.Jobs.Calls.{run, claim_call, step}
use moresocial.Jobs.Progress.{claim_sound}
use moresocial.Jobs.Invariant.{step-IsQueue, AllAllowed, IsQueue, id-fail_job}
use moresocial.Jobs.Leases.{IsHeld, lease_exclusive, AllOthers, find_job}
use moresocial.Base.{
  sym, subst, ap, ◌&&◌, false, text_eq, ==_refl, Bool, ℕ, arith, Option, true, seconds, ◌≤◌, min,
  ltb, if◌then◌else◌, refl, ◌∙◌, find-update_where, ◌+◌, some, String, ◌≡◌, List, Time,
}
use moresocial.Worker.{
  on_claimed, handle, unavailable_failure, invalid_failure, give_up_google, rate_wait,
  on_unavailable, pause_reason, claimer, crash_failure, report, run_one, crashed, lease_lost,
  finished, ai_unavailable, invalid_output, google_error, budget_exhausted, Handled, Turn,
}
use moresocial.Jobs.{
  lease_to, lease_seconds, leased_to, claim, finish, running, complete, failed, held_by, postpone,
  queued, fail_job, done, Failure, fail, defer, Job,
}

-- The row of the job `j` once an AI provider was unavailable, for its rate or for another reason.
abbrev pub RestedFor : Turn → Job → Bool → Job → Type 0
RestedFor t j true row =
    (row.status ≡ queued)
    × (row.attempts + 1 ≡ j.attempts)
    × (t.ended_at ≤ row.run_after)
    × (row.run_after ≤ t.ended_at + seconds 300 + t.jitter)
RestedFor t j false row =
    (row.status ≡ (if ltb j.attempts j.max_attempts then queued else failed))
    × (row.attempts ≡ j.attempts)

-- The row of the job `j`, claimed at its present attempt, once its end is reported.
abbrev pub Rested : Turn → Job → Handled → Job → Type 0
Rested t j finished row = row.status ≡ done
Rested t j lease_lost row = row ≡ j
Rested t j (budget_exhausted scope) row =
    (row.status ≡ queued) × (row.attempts + 1 ≡ j.attempts) × (row.run_after ≡ t.tomorrow)
Rested t j (google_error kind) row = row.status ≡ failed
Rested t j (invalid_output reason) row =
    row.status ≡ (if ltb j.attempts (min 2 j.max_attempts) then queued else failed)
Rested t j (ai_unavailable reason retry_after) row =
    RestedFor t j (text_eq reason "rate_limited") row
Rested t j crashed row = row.status ≡ (if ltb j.attempts j.max_attempts then queued else failed)

holds_own : (t : Turn) (j : Job) → j.lease_owner ≡ some t.owner → held_by j.id t.owner j ≡ true
holds_own t j o = ground (arith, ==_refl j.id)

-- The row once `fail` has found it.
failed_row :
    (t : Turn) (f : Failure) (j : Job) (jobs : List Job)
    → find_job j.id jobs ≡ some j
    → j.lease_owner ≡ some t.owner
    → find_job j.id (fail j.id t.owner f t.ended_at jobs) ≡ some (fail_job f t.ended_at j)
unfolding fail
failed_row t f j jobs e o =
    find-update_where (λ k. k.id) (held_by j.id t.owner) (fail_job f t.ended_at) j.id jobs
      (id-fail_job f t.ended_at)
    ∙ rw (e, holds_own t j o) refl

deferred_row :
    (t : Turn) (until : Time) (reason : String) (j : Job) (jobs : List Job)
    → find_job j.id jobs ≡ some j
    → j.lease_owner ≡ some t.owner
    → find_job j.id (defer j.id t.owner until reason jobs) ≡ some (postpone until reason j)
unfolding defer
deferred_row t until reason j jobs e o =
    find-update_where (λ k. k.id) (held_by j.id t.owner) (postpone until reason) j.id jobs
      (λ k. refl)
    ∙ rw (e, holds_own t j o) refl

completed_row :
    (t : Turn) (j : Job) (jobs : List Job)
    → find_job j.id jobs ≡ some j
    → j.lease_owner ≡ some t.owner
    → j.status ≡ running
    → find_job j.id (complete j.id t.owner jobs).0 ≡ some (finish j)
unfolding complete
completed_row t j jobs e o r =
    let held : leased_to j.id t.owner j ≡ true = ground (arith, ==_refl j.id) in
    find-update_where (λ k. k.id) (leased_to j.id t.owner) finish j.id jobs (λ k. refl)
    ∙ rw (e, held) refl

failed_status :
    (f : Failure) (now : Time) (j : Job)
    → (fail_job f now j).status
      ≡ (if f.retry && ltb j.attempts j.max_attempts then queued else failed)
unfolding fail_job
failed_status f now j = ground arith

abbrev pub RestedIn : Turn → Job → Handled → List Job → Type 0
RestedIn t j h jobs = (row : Job) × (find_job j.id jobs ≡ some row) × Rested t j h row

failed_attempts : (f : Failure) (now : Time) (j : Job) → (fail_job f now j).attempts ≡ j.attempts
unfolding fail_job
failed_attempts f now j = ground arith

on_unavailable-Rested :
    (t : Turn) (j : Job) (reason : String) (retry_after : Option ℕ) (jobs : List Job) (b : Bool)
    → find_job j.id jobs ≡ some j
    → j.lease_owner ≡ some t.owner
    → 1 ≤ j.attempts
    → (row : Job) × (find_job j.id (on_unavailable t j reason retry_after b jobs) ≡ some row)
      × RestedFor t j b row
on_unavailable-Rested t j reason retry_after jobs true e o tried = (
  postpone (t.ended_at + rate_wait retry_after t.jitter) "AI waiting: provider rate limit" j,
  deferred_row t _ _ j jobs e o,
  (refl, omega arith, omega arith, omega arith),
)
on_unavailable-Rested t j reason retry_after jobs false e o tried = (
  fail_job (unavailable_failure reason) t.ended_at j,
  failed_row t (unavailable_failure reason) j jobs e o,
  (
    failed_status (unavailable_failure reason) t.ended_at j,
    failed_attempts (unavailable_failure reason) t.ended_at j,
  ),
)

report-Rested :
    (t : Turn) (j : Job) (h : Handled) (jobs : List Job)
    → find_job j.id jobs ≡ some j
    → j.lease_owner ≡ some t.owner
    → j.status ≡ running
    → 1 ≤ j.attempts
    → RestedIn t j h (report t j h jobs)
unfolding report
report-Rested t j finished jobs e o r tried = (finish j, completed_row t j jobs e o r, refl)
report-Rested t j lease_lost jobs e o r tried = (j, e, refl)
report-Rested t j crashed jobs e o r tried = (
  fail_job (crash_failure t) t.ended_at j,
  failed_row t (crash_failure t) j jobs e o,
  failed_status (crash_failure t) t.ended_at j,
)
report-Rested t j (budget_exhausted scope) jobs e o r tried = (
  postpone t.tomorrow (pause_reason scope) j,
  deferred_row t t.tomorrow (pause_reason scope) j jobs e o,
  (refl, omega arith, refl),
)
report-Rested t j (google_error kind) jobs e o r tried = (
  fail_job (give_up_google kind) t.ended_at j,
  failed_row t (give_up_google kind) j jobs e o,
  failed_status (give_up_google kind) t.ended_at j,
)
report-Rested t j (invalid_output reason) jobs e o r tried = (
  fail_job (invalid_failure reason j) t.ended_at j,
  failed_row t (invalid_failure reason j) j jobs e o,
  ground (arith, failed_status (invalid_failure reason j) t.ended_at j),
)
report-Rested t j (ai_unavailable reason retry_after) jobs e o r tried =
    on_unavailable-Rested t j reason retry_after jobs _ e o tried

lease_to-IsHeld :
    (t : Turn) (j got : Job)
    → got ≡ lease_to (claimer t) t.now j
    → IsHeld got t.owner (t.now + seconds lease_seconds)
lease_to-IsHeld t j got e = record {
  expiry = t.now + seconds lease_seconds;
  is_running = ap (λ x. x.status) e;
  has_owner = ap (λ x. x.lease_owner) e;
  expires = ap (λ x. x.lease_expires_at) e;
  lasts = le_refl _;
}

-- What a worker's turn makes of the job that it claims, if other workers act meanwhile and the
-- lease lasts: a job that is handled is done; one that meets an exhausted budget or a rate limit
-- waits, until tomorrow or for at most 300 seconds and the jitter, with the attempt given back;
-- any other failure, an AI provider that is unavailable for another reason among them, queues it
-- again if an attempt is left (after invalid output, a second one only), else fails it, and a Google
-- error fails it at once; after a lost lease nothing is reported. The queue is well formed.
pub run_one-Rested :
    (t : Turn) (jobs : List Job) (got : Job)
    → IsQueue jobs
    → (claim t.workspaces t.locked (claimer t) t.now jobs).1 ≡ some got
    → AllAllowed t.meanwhile (claim t.workspaces t.locked (claimer t) t.now jobs).0
    → AllOthers got t.owner (t.now + seconds lease_seconds) t.meanwhile
    → RestedIn t got (handle t got) (run_one t jobs).0
unfolding run_one
run_one-Rested t jobs got q claimed allowed others =
    let table = (claim t.workspaces t.locked (claimer t) t.now jobs).0 in
    let (j, _, _, leased, stored) =
      claim_sound t.workspaces t.locked (claimer t) t.now jobs got q claimed in
    let row =
      lease_exclusive got t.owner (t.now + seconds lease_seconds) t.meanwhile table t.workspaces
        t.locked (claimer t) (t.now + seconds lease_seconds) (lease_to-IsHeld t j got leased)
        (unfold step in step-IsQueue (claim_call t.workspaces t.locked (claimer t) t.now) jobs q tt)
        allowed others (le_refl _) stored in
    subst (λ o. RestedIn t got (handle t got) (on_claimed t (table, o)).0) (sym claimed)
      (report-Rested t got (handle t got) (run t.meanwhile table) row.0
        (ap (λ x. x.lease_owner) leased) (ap (λ x. x.status) leased)
        (subst (λ x. 1 ≤ x.attempts) (sym leased) (omega arith)))
