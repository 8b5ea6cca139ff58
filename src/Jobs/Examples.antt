-- ===== src/Jobs/Examples.antt =====
-- Runs of the queue on small tables, and the theorems at them.
use text.Mathlib.TextEquality.{eq_iff}
use moresocial.Jobs.Outcomes.{fail-outcome}
use moresocial.Jobs.Recovery.{crash_recovered, queued_not_stranded}
use moresocial.Jobs.Cancel.{cancel_stops, defer_revives}
use moresocial.Jobs.Unique.{run-UniqueKeys}
use moresocial.Jobs.Keys.{enqueue_once, UniqueKeys}
use moresocial.Jobs.Leases.{lease_exclusive, find_job}
use moresocial.Jobs.Invariant.{step-IsQueue, run-IsQueue, IsQueue}
use moresocial.Base.{
  seconds, ◌+◌, ◌⊎◌, ◌≢◌, ◌<◌, true, ◌≤◌, subst, arith, refl, ◌≡◌, string_discrete, false, some, [],
  ◌∷◌, none, Bool, truncate, Uuid, List,
}
use moresocial.Jobs.Calls.{complete_call, claim_call, cancel_call, enqueue_call, Call, step, run}
use moresocial.Jobs.{
  delay_for, kind_allowed, workspace_active, renew, failed, complete, queued, give_up, claimable,
  defer, fail, call_off, claim, Failure, retry_delay, lease_to, cancel, lease_seconds, enqueue,
  active, Uuid, List, Claimer, Request, Workspace, Job,
}

abbrev home : Workspace
home = record { id = 1; status = active }

abbrev rebuild_request : Request
rebuild_request = record {
  workspace_id = 1;
  kind = "rebuild_conversation";
  key = "rebuild:1";
  payload = ("provider", some "gmail") ∷ [];
  run_after = none;
  max_attempts = 2;
}

abbrev embed_request : Request
embed_request = record {
  workspace_id = 1;
  kind = "embed_chunk";
  key = "embed:1";
  payload = [];
  run_after = some 5;
  max_attempts = 5;
}

abbrev worker : Claimer
worker = record { owner = "host:1"; kinds = none; lease = lease_seconds }

abbrev rival : Claimer
rival = record { owner = "host:2"; kinds = none; lease = lease_seconds }

abbrev unlocked : Uuid → Bool
unlocked i = false

abbrev two_enqueued : List Call
two_enqueued = enqueue_call 7 0 rebuild_request ∷ enqueue_call 8 0 embed_request ∷ []

abbrev rebuild_job : Job
rebuild_job = record {
  id = 7;
  workspace_id = 1;
  kind = "rebuild_conversation";
  idempotency_key = "rebuild:1";
  payload = ("provider", some "gmail") ∷ [];
  status = queued;
  attempts = 0;
  max_attempts = 2;
  run_after = 0;
  lease_owner = none;
  lease_expires_at = none;
  last_error = none;
}

abbrev embed_job : Job
embed_job = record {
  id = 8;
  workspace_id = 1;
  kind = "embed_chunk";
  idempotency_key = "embed:1";
  payload = [];
  status = queued;
  attempts = 0;
  max_attempts = 5;
  run_after = 5;
  lease_owner = none;
  lease_expires_at = none;
  last_error = none;
}

abbrev table : List Job
table = rebuild_job ∷ embed_job ∷ []

empty-IsQueue : IsQueue []
empty-IsQueue = record { rows = tt; keys = tt }

enqueued_table : run two_enqueued [] ≡ table
unfolding run step enqueue truncate string_discrete
enqueued_table = refl

run-IsQueue_example : IsQueue (run two_enqueued [])
unfolding step enqueue truncate string_discrete
run-IsQueue_example =
    run-IsQueue two_enqueued [] empty-IsQueue
      ((omega arith, tt), ((omega arith, (λ e. omega arith, tt)), tt))

table-IsQueue : IsQueue table
table-IsQueue = subst IsQueue enqueued_table run-IsQueue_example

run-UniqueKeys_example : UniqueKeys (run two_enqueued [])
run-UniqueKeys_example = run-UniqueKeys two_enqueued [] tt

-- The second request is refused though its job has been cancelled.
enqueue_once_example :
    let after = run (cancel_call 1 none ∷ []) (enqueue 7 0 rebuild_request []).0 in
    enqueue 9 50 rebuild_request after ≡ (after, false)
enqueue_once_example =
    enqueue_once 7 9 0 50 rebuild_request rebuild_request (cancel_call 1 none ∷ []) [] refl refl

-- Both rows are queued at time 10; the rebuild job is due first.
claimed_rebuild :
    (claim (home ∷ []) unlocked worker 10 table).1 ≡ some (lease_to worker 10 rebuild_job)
unfolding claim
claimed_rebuild = refl

queued_not_stranded_example :
    (j : Job) × ((claim (home ∷ []) unlocked worker 10 table).1 ≡ some (lease_to worker 10 j))
    × (claimable (home ∷ []) unlocked worker 10 j ≡ true)
    × (j.run_after ≤ 5)
queued_not_stranded_example =
    queued_not_stranded (home ∷ []) unlocked worker 10 table 8 embed_job table-IsQueue refl refl
      (omega arith) refl refl refl

-- The rebuild job runs under the worker's lease, up to 120 s after time 10.
abbrev held_job : Job
held_job = lease_to worker 10 rebuild_job

abbrev held_table : List Job
held_table = held_job ∷ embed_job ∷ []

held_table_lem : (claim (home ∷ []) unlocked worker 10 table).0 ≡ held_table
unfolding claim
held_table_lem = refl

held_table-IsQueue : IsQueue held_table
held_table-IsQueue =
    subst IsQueue held_table_lem (
      unfold step in
      step-IsQueue (claim_call (home ∷ []) unlocked worker 10) table table-IsQueue tt)

lease_exclusive_example :
    (find_job 7
        (run (claim_call (home ∷ []) unlocked rival 20 ∷ complete_call 7 "host:2" ∷ []) held_table)
      ≡ some held_job)
    × ((j : Job)
        → (claim (home ∷ []) unlocked rival 100 (
            run
              (claim_call (home ∷ []) unlocked rival 20 ∷ complete_call 7 "host:2" ∷ [])
              held_table)).1
          ≡ some j
        → j.id ≢ 7)
lease_exclusive_example =
    lease_exclusive held_job "host:1" 1000
      (claim_call (home ∷ []) unlocked rival 20 ∷ complete_call 7 "host:2" ∷ []) held_table
      (home ∷ []) unlocked rival 100
      (record {
        expiry = 120000010;
        is_running = refl;
        has_owner = refl;
        expires = refl;
        lasts = omega arith;
      })
      held_table-IsQueue (tt, (tt, tt))
      (omega arith, (λ e. ground (arith, eq_iff "host:2" "host:1"), tt)) (omega arith) refl

-- The worker has had both attempts, and its second lease is over.
abbrev lost_job : Job
lost_job = record held_job { attempts = 2 }

abbrev lost_table : List Job
lost_table = lost_job ∷ []

lost_table-IsQueue : IsQueue lost_table
lost_table-IsQueue = record { rows = ground arith; keys = (tt, tt) }

crash_recovered_example :
    (2 ≤ 2
      → find_job 7 (claim (home ∷ []) unlocked rival 200000000 lost_table).0
        ≡ some (give_up lost_job))
    × (2 < 2
        → workspace_active (home ∷ []) 1 ≡ true
        → kind_allowed none "rebuild_conversation" ≡ true
        → unlocked 7 ≡ false
        → (j : Job) × ((claim (home ∷ []) unlocked rival 200000000 lost_table).1
            ≡ some (lease_to rival 200000000 j))
          × (claimable (home ∷ []) unlocked rival 200000000 j ≡ true)
          × (j.run_after ≤ 0))
crash_recovered_example =
    crash_recovered (home ∷ []) unlocked rival 200000000 lost_table lost_job lost_table-IsQueue refl
      refl refl

defer_revives_example :
    let swept = (claim (home ∷ []) unlocked rival 200000000 lost_table).0 in
    (find_job 7 swept ≡ some (give_up lost_job))
    × (after : Job) × (find_job 7 (defer 7 "host:1" 200000060 "AI waiting" swept) ≡ some after)
    × (after.status ≡ queued)
    × (after.attempts < after.max_attempts)
defer_revives_example =
    defer_revives (home ∷ []) unlocked rival 200000000 200000060 "AI waiting" lost_table lost_job
      "host:1" lost_table-IsQueue refl refl refl refl refl

retry_delays : (retry_delay 1 ≡ 30) × (retry_delay 7 ≡ 1920) × (retry_delay 8 ≡ 3600)
unfolding retry_delay
retry_delays = (refl, refl, refl)

abbrev crash : Failure
crash = record { error = "error reference 1"; retry = true; delay = none }

fail-outcome_example :
    (after : Job) × (find_job 7 (fail 7 "host:1" crash 20 held_table) ≡ some after)
    × (after.lease_owner ≡ none)
    × (after.lease_expires_at ≡ none)
    × (after.attempts ≡ 1)
    × ((after.status ≡ failed) × ((crash.retry ≡ false) ⊎ (held_job.attempts ≡ 2))
        ⊎ (after.status ≡ queued)
          × (crash.retry ≡ true)
          × (after.attempts < after.max_attempts)
          × (after.run_after ≡ 20 + seconds (delay_for crash 1)))
fail-outcome_example =
    fail-outcome held_table held_job "host:1" crash 20 held_table-IsQueue refl refl

cancel_stops_example :
    let after = (cancel 1 none held_table).0 in
    (find_job 7 after ≡ some (call_off held_job))
    × (complete 7 "host:1" after ≡ (after, false))
    × (renew 7 "host:1" 120 30 after ≡ (after, false))
    × (fail 7 "host:1" crash 30 after ≡ after)
    × (defer 7 "host:1" 30 "AI paused" after ≡ after)
cancel_stops_example =
    cancel_stops 1 none held_table held_job "host:1" 120 30 crash "AI paused" held_table-IsQueue
      refl refl
