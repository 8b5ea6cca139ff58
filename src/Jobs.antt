-- ===== src/Jobs.antt =====
-- app/jobs.py: the job queue with leases, retries and idempotency keys, and the rows of
-- app/models.py that it works on. An operation takes the table and returns the new one.
pub mod Calls
pub mod Invariant
pub mod Leases
pub mod Keys
pub mod Unique
pub mod Progress
pub mod Recovery
pub mod Outcomes
pub mod Cancel
mod Examples
use moresocial.Base.{
  ℕ, ◌+◌, ◌-◌, ◌*◌, ◌^◌, min, Uuid, Time, seconds, String, Bool, true, false, ◌&&◌, ◌||◌, not,
  Option, none, some, List, [], ◌∷◌, ◌++◌, ltb, leb, ◌==◌, if◌then◌else◌, holds_at, text_eq,
  text_in, truncate, update_where, exists_where, first_where, count_where,
}

pub data WorkspaceStatus : Type 0 where
  active deleting : WorkspaceStatus

pub record Workspace : Type 0 where
  pub id : Uuid
  pub status : WorkspaceStatus

pub data Status : Type 0 where
  queued running done failed cancelled paused : Status

-- A JSON object whose values are texts or null.
abbrev pub Payload : Type 0
Payload = List (String × Option String)

pub record Job : Type 0 where
  pub id : Uuid
  pub workspace_id : Uuid
  pub kind : String
  pub idempotency_key : String
  pub payload : Payload
  pub status : Status
  pub attempts : ℕ
  pub max_attempts : ℕ
  pub run_after : Time
  pub lease_owner : Option String
  pub lease_expires_at : Option Time
  pub last_error : Option String

abbrev pub lease_seconds : ℕ
lease_seconds = 120

abbrev pub is_queued : Status → Bool
is_queued queued = true
is_queued _ = false

abbrev pub is_running : Status → Bool
is_running running = true
is_running _ = false

abbrev pub is_active : WorkspaceStatus → Bool
is_active active = true
is_active deleting = false

-- The conflict target of the INSERT.
abbrev pub same_key : Uuid → String → Job → Bool
same_key wid key j = j.workspace_id == wid && text_eq key j.idempotency_key

-- What a caller gives `enqueue`, its session apart.
pub record Request : Type 0 where
  pub workspace_id : Uuid
  pub kind : String
  pub key : String
  pub payload : Payload
  pub run_after : Option Time
  pub max_attempts : ℕ

abbrev pub or_time : Option Time → Time → Time
or_time none now = now
or_time (some t) now = t

-- `fresh` is the new `uuid4()`.
unfoldable pub new_job : Uuid → Time → Request → Job
new_job fresh now r = record {
  id = fresh;
  workspace_id = r.workspace_id;
  kind = r.kind;
  idempotency_key = truncate 200 r.key;
  payload = r.payload;
  status = queued;
  attempts = 0;
  max_attempts = r.max_attempts;
  run_after = or_time r.run_after now;
  lease_owner = none;
  lease_expires_at = none;
  last_error = none;
}

unfoldable pub enqueue : Uuid → Time → Request → List Job → List Job × Bool
unfolding new_job
enqueue fresh now r jobs =
    if exists_where (same_key r.workspace_id (truncate 200 r.key)) jobs
    then (jobs, false)
    else (jobs ++ new_job fresh now r ∷ [], true)

-- The lease is over. (A NULL expiry is not.)
abbrev pub expired : Time → Job → Bool
expired now j = holds_at (λ t. ltb t now) j.lease_expires_at

abbrev pub spent : Time → Job → Bool
spent now j = is_running j.status && expired now j && leb j.max_attempts j.attempts

abbrev pub give_up : Job → Job
give_up j = record j { status = failed; last_error = some "Lease expired after final attempt" }

-- The first statement of `claim`. It leaves the lease columns as they are.
unfoldable pub sweep : Time → List Job → List Job
sweep now = update_where (spent now) give_up

abbrev pub workspace_active : List Workspace → Uuid → Bool
workspace_active ws wid = exists_where (λ w. w.id == wid && is_active w.status) ws

-- `:kinds IS NULL OR kind = ANY(:kinds)`
abbrev pub kind_allowed : Option (List String) → String → Bool
kind_allowed none kind = true
kind_allowed (some kinds) kind = text_in kind kinds

-- The worker that claims: its name, the kinds it takes, the length of its lease in seconds.
pub record Claimer : Type 0 where
  pub owner : String
  pub kinds : Option (List String)
  pub lease : ℕ

abbrev pub due : Time → Job → Bool
due now j = is_queued j.status && leb j.run_after now || is_running j.status && expired now j

-- The WHERE of CLAIM_SQL. `locked` are the rows that other transactions hold: SKIP LOCKED.
abbrev pub claimable : List Workspace → (Uuid → Bool) → Claimer → Time → Job → Bool
claimable ws locked c now j =
    workspace_active ws j.workspace_id
    && due now j
    && ltb j.attempts j.max_attempts
    && kind_allowed c.kinds j.kind
    && not (locked j.id)

-- Of two rows the one that ORDER BY run_after puts first.
abbrev pub earlier : Job → Option Job → Job
earlier j none = j
earlier j (some k) = if leb j.run_after k.run_after then j else k

-- ORDER BY run_after LIMIT 1; of equal rows the first in the table.
unfoldable pub earliest : (Job → Bool) → List Job → Option Job
earliest p [] = none
earliest p (j ∷ jobs) = let rest = earliest p jobs in if p j then some (earlier j rest) else rest

abbrev pub lease_to : Claimer → Time → Job → Job
lease_to c now j = record j {
  status = running;
  attempts = j.attempts + 1;
  lease_owner = some c.owner;
  lease_expires_at = some (now + seconds c.lease);
}

unfoldable pub take_row : Claimer → Time → Option Job → List Job → List Job × Option Job
take_row c now none jobs = (jobs, none)
take_row c now (some j) jobs =
    let jobs' = update_where (λ k. k.id == j.id) (lease_to c now) jobs in
    (jobs', first_where (λ k. k.id == j.id) jobs')

unfoldable pub claim :
    List Workspace → (Uuid → Bool) → Claimer → Time → List Job → List Job × Option Job
unfolding sweep earliest take_row
claim ws locked c now jobs =
    let swept = sweep now jobs in take_row c now (earliest (claimable ws locked c now) swept) swept

abbrev pub owned_by : String → Job → Bool
owned_by owner j = holds_at (text_eq owner) j.lease_owner

-- The WHERE that `renew`, `complete` and `still_leased` share.
abbrev pub leased_to : Uuid → String → Job → Bool
leased_to id owner j = j.id == id && owned_by owner j && is_running j.status

abbrev pub extend_lease : ℕ → Time → Job → Job
extend_lease lease now j = record j { lease_expires_at = some (now + seconds lease) }

unfoldable pub renew : Uuid → String → ℕ → Time → List Job → List Job × Bool
renew id owner lease now jobs = (
  update_where (leased_to id owner) (extend_lease lease now) jobs,
  ltb 0 (count_where (leased_to id owner) jobs),
)

abbrev pub finish : Job → Job
finish j = record j {
  status = done;
  lease_owner = none;
  lease_expires_at = none;
  last_error = none;
}

unfoldable pub complete : Uuid → String → List Job → List Job × Bool
complete id owner jobs =
    (update_where (leased_to id owner) finish jobs, ltb 0 (count_where (leased_to id owner) jobs))

unfoldable pub retry_delay : ℕ → ℕ
retry_delay attempts = min 3600 (30 * 2 ^ (attempts - 1))

-- How a handler fails: its error, whether it may be tried again, and after how many seconds.
pub record Failure : Type 0 where
  pub error : String
  pub retry : Bool
  pub delay : Option ℕ

abbrev pub delay_for : Failure → ℕ → ℕ
delay_for f attempts = elim f.delay [ none ↦ retry_delay attempts | some d ↦ d ]

abbrev pub is_final : Failure → Job → Bool
is_final f j = not f.retry || leb j.max_attempts j.attempts

unfoldable pub fail_job : Failure → Time → Job → Job
fail_job f now j =
    let last_error = some (truncate 300 f.error) in
    if is_final f j
    then record j {
      status = failed;
      lease_owner = none;
      lease_expires_at = none;
      last_error = last_error;
    }
    else record j {
      status = queued;
      lease_owner = none;
      lease_expires_at = none;
      last_error = last_error;
      run_after = now + seconds (delay_for f j.attempts);
    }

-- The row with the id, if the caller still owns it. The status is not tested.
abbrev pub held_by : Uuid → String → Job → Bool
held_by id owner j = j.id == id && owned_by owner j

-- `s.get` finds the row with the id, which is written back if its owner is the caller.
unfoldable pub fail : Uuid → String → Failure → Time → List Job → List Job
unfolding fail_job
fail id owner f now = update_where (held_by id owner) (fail_job f now)

-- `attempts - 1` stops at 0 here; `IsValid` shows that a job with an owner has been claimed.
abbrev pub postpone : Time → String → Job → Job
postpone until reason j = record j {
  status = queued;
  attempts = j.attempts - 1;
  run_after = until;
  lease_owner = none;
  lease_expires_at = none;
  last_error = some (truncate 300 reason);
}

unfoldable pub defer : Uuid → String → Time → String → List Job → List Job
defer id owner until reason = update_where (held_by id owner) (postpone until reason)

-- `if kinds:` an empty list is no filter here, unlike in `claim`.
abbrev pub kinds_filter : Option (List String) → String → Bool
kinds_filter none kind = true
kinds_filter (some []) kind = true
kinds_filter (some (k ∷ ks)) kind = text_in kind (k ∷ ks)

abbrev pub cancellable : Uuid → Option (List String) → Job → Bool
cancellable wid kinds j =
    j.workspace_id == wid
    && (is_queued j.status || is_running j.status)
    && kinds_filter kinds j.kind

abbrev pub call_off : Job → Job
call_off j = record j { status = cancelled; lease_owner = none; lease_expires_at = none }

unfoldable pub cancel : Uuid → Option (List String) → List Job → List Job × ℕ
cancel wid kinds jobs =
    (update_where (cancellable wid kinds) call_off jobs, count_where (cancellable wid kinds) jobs)

unfoldable pub still_leased : Uuid → String → List Job → Bool
still_leased id owner jobs = exists_where (leased_to id owner) jobs
