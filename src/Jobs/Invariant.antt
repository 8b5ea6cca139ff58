-- ===== src/Jobs/Invariant.antt =====
-- What holds of the job table between two calls, for any calls of app/jobs.py: the rows, and the
-- primary key.
use moresocial.Base.{
  refl, ◌⊎◌, false, sym, subst, update_where, Bool, inr, inl, ◌≤◌, ◌<◌, ◌≡◌, ◌≢◌, Uuid, Time,
  String, true, none, List, [], ◌∷◌, ◌++◌, arith, All, All-append, Distinct, Distinct-snoc,
  map-update_where, update_where-All, Bool-cases, exists_where, truncate,
}
use mathlib.Core.List.{map-append}
use moresocial.Jobs.{
  Job, queued, running, Request, Failure, same_key, new_job, enqueue, leased_to, held_by,
  extend_lease, finish, postpone, call_off, renew, complete, fail_job, fail, defer, cancellable,
  cancel,
}
use moresocial.Jobs.Calls.{
  ids-claim, Call, enqueue_call, claim_call, renew_call, complete_call, fail_call, defer_call,
  cancel_call, step, run, ids, claim-All,
}

-- A row that waits has attempts left and no lease, a row that runs has both parts of a lease, and
-- a row with an owner has been claimed.
pub record IsValid (j : Job) : Type 0 where
  pub attempts_bounded : j.attempts ≤ j.max_attempts
  pub queued_has_attempts : j.status ≡ queued → j.attempts < j.max_attempts
  pub queued_no_owner : j.status ≡ queued → j.lease_owner ≡ none
  pub running_owned : j.status ≡ running → j.lease_owner ≢ none
  pub running_expires : j.status ≡ running → j.lease_expires_at ≢ none
  pub owned_claimed : j.lease_owner ≢ none → 0 < j.attempts

pub record IsQueue (jobs : List Job) : Type 0 where
  pub rows : All IsValid jobs
  pub keys : Distinct (ids jobs)

-- A caller of `enqueue` allows at least one attempt, and a new `uuid4` is no id of the table.
abbrev pub IsAllowed : Call → List Job → Type 0
IsAllowed (enqueue_call fresh now r) jobs = (0 < r.max_attempts) × All (λ i. i ≢ fresh) (ids jobs)
IsAllowed _ jobs = Unit

abbrev pub AllAllowed : List Call → List Job → Type 0
AllAllowed [] jobs = Unit
AllAllowed (c ∷ cs) jobs = IsAllowed c jobs × AllAllowed cs (step c jobs)

new_job-IsValid :
    (fresh : Uuid) (now : Time) (r : Request) → 0 < r.max_attempts → IsValid (new_job fresh now r)
unfolding new_job
new_job-IsValid fresh now r h = ground arith

-- `enqueue` leaves the table as it is, or adds the new row.
pub enqueue-cases :
    (fresh : Uuid) (now : Time) (r : Request) (jobs : List Job)
    → (enqueue fresh now r jobs ≡ (jobs, false))
      ⊎ (enqueue fresh now r jobs ≡ (jobs ++ new_job fresh now r ∷ [], true))
unfolding enqueue
enqueue-cases fresh now r jobs =
    elim (Bool-cases (exists_where (same_key r.workspace_id (truncate 200 r.key)) jobs)) [
      | inl old ↦ inl (rw old)
      | inr new ↦ inr (rw new)
    ]

-- A predicate of rows passes through `enqueue` if the new row satisfies it.
pub enqueue-All {κ} :
    (P : Job → Type κ) (fresh : Uuid) (now : Time) (r : Request) (jobs : List Job)
    → All P jobs
    → P (new_job fresh now r)
    → All P (enqueue fresh now r jobs).0
enqueue-All P fresh now r jobs h new = elim (enqueue-cases fresh now r jobs) [
  | inl old ↦ rw old h
  | inr added ↦ rw added (All-append P jobs (new_job fresh now r ∷ []) h (new, tt))
]

fail_job-IsValid : (f : Failure) (now : Time) (j : Job) → IsValid j → IsValid (fail_job f now j)
unfolding fail_job
fail_job-IsValid f now j v = ground arith

postpone-IsValid :
    (until : Time) (reason : String) (id : Uuid) (owner : String) (j : Job)
    → IsValid j
    → held_by id owner j ≡ true
    → IsValid (postpone until reason j)
postpone-IsValid until reason id owner j v e = ground arith

pub id-fail_job : (f : Failure) (now : Time) (j : Job) → (fail_job f now j).id ≡ j.id
unfolding fail_job
id-fail_job f now j = ground arith

keep_keys :
    (p : Job → Bool) (f : Job → Job) (jobs : List Job)
    → ((j : Job) → (f j).id ≡ j.id)
    → Distinct (ids jobs)
    → Distinct (ids (update_where p f jobs))
keep_keys p f jobs same d = subst Distinct (sym (map-update_where (λ j. j.id) p f jobs same)) d

step-rows :
    (c : Call) (jobs : List Job) → IsQueue jobs → IsAllowed c jobs → All IsValid (step c jobs)
unfolding step renew complete fail defer cancel
step-rows (enqueue_call fresh now r) jobs q h =
    enqueue-All IsValid fresh now r jobs q.rows (new_job-IsValid fresh now r h.0)
step-rows (claim_call ws locked c now) jobs q h =
    claim-All IsValid ws locked c now jobs (λ j v e. ground arith) (λ j v e. ground arith) q.keys
      q.rows
step-rows (renew_call id owner lease now) jobs q h =
    update_where-All IsValid (leased_to id owner) (extend_lease lease now) jobs
      (λ j v e. ground arith) q.rows
step-rows (complete_call id owner) jobs q h =
    update_where-All IsValid (leased_to id owner) finish jobs (λ j v e. ground arith) q.rows
step-rows (fail_call id owner f now) jobs q h =
    update_where-All IsValid (held_by id owner) (fail_job f now) jobs
      (λ j v e. fail_job-IsValid f now j v) q.rows
step-rows (defer_call id owner until reason) jobs q h =
    update_where-All IsValid (held_by id owner) (postpone until reason) jobs
      (λ j v e. postpone-IsValid until reason id owner j v e) q.rows
step-rows (cancel_call wid kinds) jobs q h =
    update_where-All IsValid (cancellable wid kinds) call_off jobs (λ j v e. ground arith) q.rows

-- The primary key: `enqueue` adds the fresh one, the other calls keep every id.
step-keys :
    (c : Call) (jobs : List Job) → IsQueue jobs → IsAllowed c jobs → Distinct (ids (step c jobs))
unfolding step renew complete fail defer cancel
step-keys (enqueue_call fresh now r) jobs q h = elim (enqueue-cases fresh now r jobs) [
  | inl old ↦ subst (λ x. Distinct (ids x.0)) (sym old) q.keys
  | inr added ↦
      subst (λ x. Distinct (ids x.0)) (sym added)
        (subst Distinct (sym (map-append (λ j. j.id) jobs (new_job fresh now r ∷ [])))
          (unfold new_job in Distinct-snoc (ids jobs) fresh q.keys h.1))
]
step-keys (claim_call ws locked c now) jobs q h =
    subst Distinct (sym (ids-claim ws locked c now jobs)) q.keys
step-keys (renew_call id owner lease now) jobs q h =
    keep_keys (leased_to id owner) (extend_lease lease now) jobs (λ j. refl) q.keys
step-keys (complete_call id owner) jobs q h =
    keep_keys (leased_to id owner) finish jobs (λ j. refl) q.keys
step-keys (fail_call id owner f now) jobs q h =
    keep_keys (held_by id owner) (fail_job f now) jobs (id-fail_job f now) q.keys
step-keys (defer_call id owner until reason) jobs q h =
    keep_keys (held_by id owner) (postpone until reason) jobs (λ j. refl) q.keys
step-keys (cancel_call wid kinds) jobs q h =
    keep_keys (cancellable wid kinds) call_off jobs (λ j. refl) q.keys

-- Every call keeps the queue well formed.
pub step-IsQueue :
    (c : Call) (jobs : List Job) → IsQueue jobs → IsAllowed c jobs → IsQueue (step c jobs)
step-IsQueue c jobs q h = record { rows = step-rows c jobs q h; keys = step-keys c jobs q h }

-- From a well-formed queue, any calls in any order leave a well-formed queue: every row that waits
-- has attempts left and no lease, every row that runs has an owner and an expiry, no row has been
-- tried more often than it may, and ids stay distinct. The hypothesis asks, at each `enqueue`, for
-- at least one attempt and a new id.
pub run-IsQueue :
    (cs : List Call) (jobs : List Job) → IsQueue jobs → AllAllowed cs jobs → IsQueue (run cs jobs)
unfolding run
run-IsQueue [] jobs q h = q
run-IsQueue (c ∷ cs) jobs q h = run-IsQueue cs (step c jobs) (step-IsQueue c jobs q h.0) h.1
