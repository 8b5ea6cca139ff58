-- ===== src/Jobs/Recovery.antt =====
-- Failures: what happens to a job whose handler fails, or whose worker is gone.
use moresocial.Jobs.Progress.{claim_complete}
use moresocial.Jobs.Leases.{find-claim_other, find_job}
use moresocial.Jobs.Invariant.{IsValid, IsQueue}
use moresocial.Base.{
  refl, ap, ◌∙◌, find-update_where, ◌==◌, first_where-All, false, ◌<◌, ◌≤◌, arith, some, true, ◌≡◌,
  ◌≢◌, Time, Bool, Uuid, List,
}
use moresocial.Jobs.{
  spent, lease_to, kind_allowed, claim, workspace_active, expired, queued, running, give_up,
  claimable, sweep, Claimer, Workspace, List, Job,
}

module _ (ws : List Workspace) (locked : Uuid → Bool) (c : Claimer) (now : Time) where
  -- A job that waits is never stranded. If a row of a well-formed queue is queued and due, in an
  -- active workspace, of a kind that the worker takes and not locked, then `claim` returns a job
  -- whose row was due no later.
  pub queued_not_stranded :
      (jobs : List Job) (i : Uuid) (k : Job)
      → IsQueue jobs
      → find_job i jobs ≡ some k
      → k.status ≡ queued
      → k.run_after ≤ now
      → workspace_active ws k.workspace_id ≡ true
      → kind_allowed c.kinds k.kind ≡ true
      → locked k.id ≡ false
      → (j : Job) × ((claim ws locked c now jobs).1 ≡ some (lease_to c now j))
        × (claimable ws locked c now j ≡ true)
        × (j.run_after ≤ k.run_after)
  queued_not_stranded jobs i k q e waits due_now active_ws allowed free =
      let v = (first_where-All IsValid (λ j. j.id == i) jobs k q.rows e).0 in
      let room = v.queued_has_attempts waits in
      claim_complete ws locked c now jobs i k q e (ground arith)

  not_claimable_given_up : (k : Job) → claimable ws locked c now (give_up k) ≢ true
  not_claimable_given_up k = ground arith

  -- A crashed worker's job is recovered. Once the lease of a running row is over, the next `claim`
  -- settles it, whatever job it returns: a row that has used all its attempts is then failed, and
  -- of one that has not, in an active workspace, of an allowed kind and not locked, `claim` returns
  -- the job or one whose row was due no later.
  pub crash_recovered :
      (jobs : List Job) (k : Job)
      → IsQueue jobs
      → find_job k.id jobs ≡ some k
      → k.status ≡ running
      → expired now k ≡ true
      → (k.max_attempts ≤ k.attempts
          → find_job k.id (claim ws locked c now jobs).0 ≡ some (give_up k))
        × (k.attempts < k.max_attempts
            → workspace_active ws k.workspace_id ≡ true
            → kind_allowed c.kinds k.kind ≡ true
            → locked k.id ≡ false
            → (j : Job) × ((claim ws locked c now jobs).1 ≡ some (lease_to c now j))
              × (claimable ws locked c now j ≡ true)
              × (j.run_after ≤ k.run_after))
  unfolding sweep
  crash_recovered jobs k q e runs over = (
    λ used.
        (find-claim_other ws locked c now (give_up k) (not_claimable_given_up k) jobs q (
          find-update_where (λ r. r.id) (spent now) give_up k.id jobs (λ r. refl)
          ∙ rw e (ap some (rw (spent_true used))))).0,
    λ room active_ws allowed free. claim_complete ws locked c now jobs k.id k q e (ground arith),
  )
    where
      spent_true : k.max_attempts ≤ k.attempts → spent now k ≡ true
      spent_true used = ground arith
