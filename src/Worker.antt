-- ===== src/Worker.antt =====
-- worker/main.py, `run_one`: a job is claimed, handled, and its end reported to the queue. The
-- handlers themselves are a parameter.
use moresocial.Jobs.Calls.{run, Call}
use moresocial.Budget.Generate.{wait_or_default, rate_limit_max_wait}
use Prim.Native.Char.{code}
pub mod Reports
mod Examples
use Prim.Native.String
use Prim.Native.String.{◌++◌}
use moresocial.Jobs.{fail, defer, claim, lease_seconds, Workspace, complete, Failure, Claimer, Job}
use moresocial.Base.{
  [], ◌&&◌, All, Time, ◌==◌, ◌+◌, ◌∷◌, ◌||◌, Uuid, text_eq, text_in, if◌then◌else◌, true, some, ltb,
  false, Bool, min, List, none, String, Option, ℕ,
}

-- What `handle` calls for a kind of job.
pub data Handler : Type 0 where
  sync_stream rebuild_conversation embed_chunk extract_chunk : Handler

abbrev pub handler_for : String → Option Handler
handler_for kind =
    if text_in kind ("sync_gmail" ∷ "sync_calendar" ∷ [])
    then some sync_stream
    else if text_eq kind "rebuild_conversation"
    then some rebuild_conversation
    else if text_eq kind "embed_chunk"
    then some embed_chunk
    else if text_eq kind "extract_chunk"
    then some extract_chunk
    else none

-- How a handler ends: it returns, or raises BudgetExhausted (its scope), LeaseLost, GoogleError (its
-- kind), InvalidOutput, AIUnavailable (its reason and retry_after), or anything else.
pub data Handled : Type 0 where
  finished lease_lost crashed : Handled
  budget_exhausted google_error invalid_output : String → Handled
  ai_unavailable : String → Option ℕ → Handled

-- The worker's name and kinds, the clocks and draws that it reads, what other processes commit
-- while the job is handled, and what its handlers do.
pub record Turn : Type 0 where
  pub owner : String
  pub kinds : Option (List String)
  pub workspaces : List Workspace
  pub locked : Uuid → Bool
  pub now : Time
  pub meanwhile : List Call
  pub handlers : Handler → Job → Handled
  pub ended_at : Time
  pub tomorrow : Time
  pub jitter : ℕ
  pub reference : String

-- An unknown kind raises ValueError.
unfoldable pub handle : Turn → Job → Handled
handle t j = elim (handler_for j.kind) [ none ↦ crashed | some h ↦ t.handlers h j ]

unfoldable pub starts_with : String → String → Bool
starts_with String.[] s = true
starts_with (String.◌∷◌ c p) String.[] = false
starts_with (String.◌∷◌ c p) (String.◌∷◌ d s) = code c == code d && starts_with p s

-- `part in s`
unfoldable pub contains : String → String → Bool
unfolding starts_with
contains part String.[] = starts_with part String.[]
contains part (String.◌∷◌ c s) = starts_with part (String.◌∷◌ c s) || contains part s

abbrev pub pause_reason : String → String
pause_reason scope =
    if text_eq scope "userkey"
    then "AI paused: daily limit for your API key reached"
    else "AI paused: daily " ++ scope ++ " budget reached"

-- The delay after a provider's rate limit; `jitter` is drawn up to 30 seconds.
abbrev pub rate_wait : Option ℕ → ℕ → ℕ
rate_wait retry_after jitter = min rate_limit_max_wait (wait_or_default retry_after) + jitter

abbrev pub unavailable_failure : String → Failure
unavailable_failure reason = record {
  error = "ai unavailable: " ++ reason;
  retry = true;
  delay = if contains "configured" reason then some 600 else none;
}

abbrev pub give_up_google : String → Failure
give_up_google kind = record { error = "google:" ++ kind; retry = false; delay = none }

abbrev pub invalid_failure : String → Job → Failure
invalid_failure reason j = record {
  error = "invalid model output: " ++ reason;
  retry = ltb j.attempts 2;
  delay = none;
}

abbrev pub crash_failure : Turn → Failure
crash_failure t = record { error = "error reference " ++ t.reference; retry = true; delay = none }

abbrev pub on_unavailable : Turn → Job → String → Option ℕ → Bool → List Job → List Job
on_unavailable t j reason retry_after true =
    defer j.id t.owner (t.ended_at + rate_wait retry_after t.jitter)
      "AI waiting: provider rate limit"
on_unavailable t j reason retry_after false =
    fail j.id t.owner (unavailable_failure reason) t.ended_at

-- What `run_one` tells the queue.
unfoldable pub report : Turn → Job → Handled → List Job → List Job
report t j finished jobs = (complete j.id t.owner jobs).0
report t j (budget_exhausted scope) jobs = defer j.id t.owner t.tomorrow (pause_reason scope) jobs
report t j lease_lost jobs = jobs
report t j (google_error kind) jobs = fail j.id t.owner (give_up_google kind) t.ended_at jobs
report t j (invalid_output reason) jobs =
    fail j.id t.owner (invalid_failure reason j) t.ended_at jobs
report t j (ai_unavailable reason retry_after) jobs =
    on_unavailable t j reason retry_after (text_eq reason "rate_limited") jobs
report t j crashed jobs = fail j.id t.owner (crash_failure t) t.ended_at jobs

abbrev pub claimer : Turn → Claimer
claimer t = record { owner = t.owner; kinds = t.kinds; lease = lease_seconds }

abbrev pub on_claimed : Turn → List Job × Option Job → List Job × Bool
on_claimed t (jobs, none) = (jobs, false)
on_claimed t (jobs, some j) = (report t j (handle t j) (run t.meanwhile jobs), true)

unfoldable pub run_one : Turn → List Job → List Job × Bool
run_one t jobs = on_claimed t (claim t.workspaces t.locked (claimer t) t.now jobs)
