-- ===== src/Worker/Examples.antt =====
-- A worker's turn on a queue of one job, and the theorem at it.
use moresocial.Jobs.Invariant.{run-IsQueue, IsQueue}
use moresocial.Worker.Reports.{run_one-Rested, RestedIn}
use moresocial.Worker.{ai_unavailable, claimer, report, handle, run_one, Turn}
use moresocial.Base.{
  ℕ, refl, seconds, map, ◌≡◌, string_discrete, arith, false, truncate, ◌∷◌, some, none, List, [],
}
use moresocial.Jobs.Calls.{claim_call, enqueue_call, step, run}
use moresocial.Jobs.{active, claim, defer, enqueue, running, Request, Job}

abbrev extract_request : Request
extract_request = record {
  workspace_id = 1;
  kind = "extract_chunk";
  key = "extract:1";
  payload = [];
  run_after = none;
  max_attempts = 2;
}

abbrev one_job : List Job
one_job = run (enqueue_call 7 0 extract_request ∷ []) []

-- The provider asks for 60 seconds, and another worker claims meanwhile.
abbrev limited_turn : Turn
limited_turn = record {
  owner = "host:1";
  kinds = none;
  workspaces = record { id = 1; status = active } ∷ [];
  locked = λ i. false;
  now = 10;
  meanwhile =
      claim_call (record { id = 1; status = active } ∷ []) (λ i. false)
        record { owner = "host:2"; kinds = none; lease = 120 } 20
      ∷ [];
  handlers = λ h j. ai_unavailable "rate_limited" (some (seconds 60));
  ended_at = 30;
  tomorrow = 1000;
  jitter = 5;
  reference = "ref";
}

abbrev extract_job : Job
extract_job = record {
  id = 7;
  workspace_id = 1;
  kind = "extract_chunk";
  idempotency_key = "extract:1";
  payload = [];
  status = running;
  attempts = 1;
  max_attempts = 2;
  run_after = 0;
  lease_owner = some "host:1";
  lease_expires_at = some 120000010;
  last_error = none;
}

one_job-claimed :
    (claim limited_turn.workspaces limited_turn.locked (claimer limited_turn) 10 one_job).1
    ≡ some extract_job
unfolding run step enqueue claim truncate
one_job-claimed = refl

one_job-IsQueue : IsQueue one_job
one_job-IsQueue =
    run-IsQueue (enqueue_call 7 0 extract_request ∷ []) [] (record { rows = tt; keys = tt })
      ((omega arith, tt), tt)

-- The job waits for the 60 seconds and the jitter, with its attempt back.
one_job-waits :
    map {B = ℕ × ℕ} (λ j. (j.attempts, j.run_after)) (run_one limited_turn one_job).0
    ≡ (0, 60000035) ∷ []
unfolding run_one report handle defer run step enqueue claim truncate string_discrete
one_job-waits = refl

run_one-Rested_example :
    RestedIn limited_turn extract_job
      (handle limited_turn extract_job)
      (run_one limited_turn one_job).0
run_one-Rested_example =
    run_one-Rested limited_turn one_job extract_job one_job-IsQueue one_job-claimed (tt, tt)
      (omega arith, tt)
