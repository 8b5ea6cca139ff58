-- ===== src/Jobs/Outcomes.antt =====
-- What the worker's report does to its job: `complete`, `fail`, `defer`, and `cancel` before it.
use native.Mathlib.Nat.{pow-suc}
use moresocial.Jobs.Progress.{claim_sound}
use moresocial.Jobs.Invariant.{id-fail_job, IsValid, IsQueue}
use moresocial.Jobs.Leases.{find_job}
use moresocial.Base.{
  ◌^◌, ◌-◌, ◌==◌, first_where-All, refl, seconds, ◌+◌, ◌⊎◌, ap, ◌∙◌, zero, false, find-update_where,
  arith, ◌≤◌, update_where, none, ◌*◌, true, Time, min, some, suc, Uuid, String, ◌<◌, ◌≡◌, List, ℕ,
  Bool,
}
use moresocial.Jobs.{
  fail_job, delay_for, held_by, postpone, failed, queued, claim, Claimer, Failure, Workspace, defer,
  retry_delay, Bool, fail, Job,
}

pred_suc : (b : ℕ) → suc b - 1 ≡ b
pred_suc b = omega arith

two_pow_pos : (b : ℕ) → 1 ≤ 2 ^ b
two_pow_pos zero = omega arith
two_pow_pos (suc b) = rw pow-suc (omega (arith, two_pow_pos b))

-- The wait before another attempt doubles with each attempt, from 30 seconds up to an hour.
retry_delay-suc :
    (a : ℕ)
    → 0 < a
    → (retry_delay (suc a) ≡ min 3600 (2 * retry_delay a))
      × (30 ≤ retry_delay a)
      × (retry_delay a ≤ 3600)
unfolding retry_delay
retry_delay-suc zero h = absurd (omega arith)
retry_delay-suc (suc b) h =
    rw (pred_suc b, pred_suc (suc b)) (omega (arith, pow-suc 2 b, two_pow_pos b))

-- An UPDATE by id on the row that is found.
pub updated :
    (p : Job → Bool) (f : Job → Job) (jobs : List Job) (j : Job)
    → ((r : Job) → (f r).id ≡ r.id)
    → find_job j.id jobs ≡ some j
    → p j ≡ true
    → find_job j.id (update_where p f jobs) ≡ some (f j)
updated p f jobs j same e h =
    find-update_where (λ r. r.id) p f j.id jobs same ∙ rw e (ap some (rw h))

-- A failed attempt is never lost and never tried too often. When the owner of a row of a
-- well-formed queue reports a failure, the lease ends; the job is failed if it may not be retried
-- or has used its attempts, and otherwise, being one that may be retried with attempts left, waits
-- until the delay given or the backoff for its attempts is over.
pub fail-outcome :
    (jobs : List Job) (j : Job) (owner : String) (f : Failure) (now : Time)
    → IsQueue jobs
    → find_job j.id jobs ≡ some j
    → j.lease_owner ≡ some owner
    → (after : Job) × (find_job j.id (fail j.id owner f now jobs) ≡ some after)
      × (after.lease_owner ≡ none)
      × (after.lease_expires_at ≡ none)
      × (after.attempts ≡ j.attempts)
      × ((after.status ≡ failed) × ((f.retry ≡ false) ⊎ (j.attempts ≡ j.max_attempts))
          ⊎ (after.status ≡ queued)
            × (f.retry ≡ true)
            × (after.attempts < after.max_attempts)
            × (after.run_after ≡ now + seconds (delay_for f j.attempts)))
unfolding fail
fail-outcome jobs j owner f now q e h =
    let v = (first_where-All IsValid (λ r. r.id == j.id) jobs j q.rows e).0 in
    (
      fail_job f now j,
      updated (held_by j.id owner) (fail_job f now) jobs j (id-fail_job f now) e (ground arith),
      unfold fail_job in ground arith,
      unfold fail_job in ground arith,
      unfold fail_job in ground arith,
      unfold fail_job in ground arith,
    )

-- Waiting costs no attempt: deferring a claimed job of a well-formed queue restores the attempts
-- that it had before the claim,
-- ends the lease, and puts the job back in the queue until the given time.
claim-defer :
    (ws : List Workspace) (locked : Uuid → Bool) (c : Claimer) (now until : Time) (reason : String)
    (jobs : List Job) (got : Job)
    → IsQueue jobs
    → (claim ws locked c now jobs).1 ≡ some got
    → (before after : Job) × (find_job got.id jobs ≡ some before)
      × (find_job got.id (defer got.id c.owner until reason (claim ws locked c now jobs).0)
          ≡ some after)
      × (after.status ≡ queued)
      × (after.attempts ≡ before.attempts)
      × (after.run_after ≡ until)
      × (after.lease_owner ≡ none)
unfolding defer
claim-defer ws locked c now until reason jobs got q h =
    let (j, was, ok, same, stored) = claim_sound ws locked c now jobs got q h in
    (
      j,
      postpone until reason got,
      was,
      updated (held_by got.id c.owner) (postpone until reason) _ got (λ r. refl) stored
          (ground (arith, same)),
      refl,
      ground (arith, same),
      refl,
      refl,
    )
