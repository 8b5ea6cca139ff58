-- ===== src/Jobs/Cancel.antt =====
-- Cancelling, and reports that come too late.
use mathlib.Core.Option.{some-ne-none}
use moresocial.Jobs.Recovery.{crash_recovered}
use moresocial.Jobs.Calls.{cancel_call, step}
use moresocial.Jobs.Outcomes.{updated}
use mathlib.Core.Path.{ap, ap₂}
use native.Mathlib.Decide.{ℕ_discrete}
use moresocial.Jobs.Leases.{find_job}
use moresocial.Jobs.Invariant.{IsValid, step-IsQueue, IsQueue}
use moresocial.Base.{
  ◌==◌, first_where-All, ◌<◌, refl, ap, ◌∙◌, true, find-update_where, ltb, Option, Uuid, find-All,
  update_where-none, sym, subst, arith, All-map, All, none, false, Time, ◌≢◌, some, ℕ, ◌≡◌, String,
  List, Bool,
}
use moresocial.Jobs.{
  queued, postpone, give_up, fail_job, claim, call_off, expired, running, cancellable, Claimer,
  extend_lease, Workspace, cancel, finish, held_by, leased_to, Failure, defer, fail, renew,
  complete, Bool, Job,
}

-- The rows with the id are the one row that is found.
others_false :
    (p : Job → Bool) (jobs : List Job) (j : Job)
    → IsQueue jobs
    → find_job j.id jobs ≡ some j
    → ((r : Job) → r.id ≢ j.id → p r ≡ false)
    → p j ≡ false
    → All (λ r. p r ≡ false) jobs
others_false p jobs j q e other here =
    All-map (λ r. r.id ≡ j.id → r ≡ j) (λ r. p r ≡ false) jobs
      (λ r same. elim (ℕ_discrete r.id j.id) [
        | yes i ↦ subst (λ x. p x ≡ false) (sym (same i)) here
        | no i ↦ other r i
      ])
      (find-All (λ r. r.id) j.id jobs j q.keys e)

-- A report of a worker that holds no lease of the row changes nothing, and `complete` and `renew`
-- say so.
pub no_lease_no_effect :
    (jobs : List Job) (j : Job) (owner : String) (lease : ℕ) (now : Time) (f : Failure)
    (reason : String)
    → IsQueue jobs
    → find_job j.id jobs ≡ some j
    → j.lease_owner ≡ none
    → (complete j.id owner jobs ≡ (jobs, false))
      × (renew j.id owner lease now jobs ≡ (jobs, false))
      × (fail j.id owner f now jobs ≡ jobs)
      × (defer j.id owner now reason jobs ≡ jobs)
unfolding complete renew fail defer
no_lease_no_effect jobs j owner lease now f reason q e free =
    let leased =
      others_false (leased_to j.id owner) jobs j q e (λ r h. ground arith) (ground arith) in
    let held = others_false (held_by j.id owner) jobs j q e (λ r h. ground arith) (ground arith) in
    let done_none = update_where-none (leased_to j.id owner) finish jobs leased in
    let renewed_none =
      update_where-none (leased_to j.id owner) (extend_lease lease now) jobs leased in
    (
      ap₂ (λ rows n. (rows, ltb 0 n)) done_none.0 done_none.1,
      ap₂ (λ rows n. (rows, ltb 0 n)) renewed_none.0 renewed_none.1,
      (update_where-none (held_by j.id owner) (fail_job f now) jobs held).0,
      (update_where-none (held_by j.id owner) (postpone now reason) jobs held).0,
    )

-- Cancelling a workspace's jobs is final for their workers. In a well-formed queue let `j` be a
-- queued or running row of the workspace, of one of the kinds where some are given. After `cancel`
-- it is cancelled and free, and whatever its worker reports then, by `complete`, `renew`, `fail` or
-- `defer`, changes nothing in the table; the first two answer `False`.
pub cancel_stops :
    (wid : Uuid) (kinds : Option (List String)) (jobs : List Job) (j : Job) (owner : String)
    (lease : ℕ) (now : Time) (f : Failure) (reason : String)
    → IsQueue jobs
    → find_job j.id jobs ≡ some j
    → cancellable wid kinds j ≡ true
    → let after = (cancel wid kinds jobs).0 in
      (find_job j.id after ≡ some (call_off j))
      × (complete j.id owner after ≡ (after, false))
      × (renew j.id owner lease now after ≡ (after, false))
      × (fail j.id owner f now after ≡ after)
      × (defer j.id owner now reason after ≡ after)
cancel_stops wid kinds jobs j owner lease now f reason q e h =
    let found : find_job j.id (cancel wid kinds jobs).0 ≡ some (call_off j) =
      unfold cancel in updated (cancellable wid kinds) call_off jobs j (λ r. refl) e h in
    let q' : IsQueue (cancel wid kinds jobs).0 =
      unfold step in step-IsQueue (cancel_call wid kinds) jobs q tt in
    let (done, renewed, failed_too, deferred) =
      no_lease_no_effect (cancel wid kinds jobs).0 (call_off j) owner lease now f reason q' found
        refl in
    (found, done, renewed, failed_too, deferred)

-- `cancel` leaves the rows of other workspaces, and those that are neither queued nor running.
cancel_spares :
    (wid : Uuid) (kinds : Option (List String)) (jobs : List Job) (i : Uuid) (j : Job)
    → find_job i jobs ≡ some j
    → cancellable wid kinds j ≡ false
    → find_job i (cancel wid kinds jobs).0 ≡ some j
unfolding cancel
cancel_spares wid kinds jobs i j e h =
    find-update_where (λ r. r.id) (cancellable wid kinds) call_off i jobs (λ r. refl)
    ∙ rw e (ap some (rw h))

-- A failed job comes back. When the lease of a job that has used its attempts is over, the next
-- `claim` marks it failed but leaves its owner, and `defer` does not test the status: if the old
-- worker then defers the job, it is queued again, with an attempt left.
pub defer_revives :
    (ws : List Workspace) (locked : Uuid → Bool) (c : Claimer) (now until : Time) (reason : String)
    (jobs : List Job) (k : Job) (owner : String)
    → IsQueue jobs
    → find_job k.id jobs ≡ some k
    → k.status ≡ running
    → k.lease_owner ≡ some owner
    → expired now k ≡ true
    → k.attempts ≡ k.max_attempts
    → let swept = (claim ws locked c now jobs).0 in
      (find_job k.id swept ≡ some (give_up k))
      × (after : Job) × (find_job k.id (defer k.id owner until reason swept) ≡ some after)
      × (after.status ≡ queued)
      × (after.attempts < after.max_attempts)
defer_revives ws locked c now until reason jobs k owner q e runs owned over used =
    let gone = (crash_recovered ws locked c now jobs k q e runs over).0 (omega arith) in
    let v = (first_where-All IsValid (λ r. r.id == k.id) jobs k q.rows e).0 in
    let claimed = v.owned_claimed (λ n. some-ne-none owner (sym owned ∙ n)) in
    (
      gone,
      postpone until reason (give_up k),
      unfold defer in
          updated (held_by k.id owner) (postpone until reason) _ (give_up k) (λ r. refl) gone
            (ground arith),
      refl,
      omega arith,
    )
