-- ===== src/Budget/Generate.antt =====
-- app/ai.py, the budgeted calls: `generate`, `_generate_on` and `embed` on a provider.
use Prim.Native.String.{◌++◌}
use moresocial.Budget.Calls.{Event, run}
use moresocial.Base.{
  true, ◌-◌, none, false, sum_by, ◌==◌, min, text_eq, ltb, Bool, ◌+◌, some, if◌then◌else◌, String,
  ◌*◌, seconds, List, Uuid, Time, ℕ, Option,
}
use moresocial.Budget.{
  no_billing, user, ok, operator, estimate_tokens, budget_exhausted, Billing, Reserved, reconcile,
  Ledger, Limits, Billed, Reservation, reserve,
}

-- A provider's `cooldown_until`, in microseconds of the monotonic clock.
abbrev pub rate_limit_default_wait : ℕ
rate_limit_default_wait = seconds 30

abbrev pub rate_limit_max_wait : ℕ
rate_limit_max_wait = seconds 300

-- `retry_after or RATE_LIMIT_DEFAULT_WAIT`: no wait and a wait of 0 are the default.
abbrev pub wait_or_default : Option ℕ → ℕ
wait_or_default none = rate_limit_default_wait
wait_or_default (some n) = if n == 0 then rate_limit_default_wait else n

abbrev pub cool_down : Option ℕ → Time → Time
cool_down retry_after now = now + min rate_limit_max_wait (wait_or_default retry_after)

abbrev pub cooling_down : Time → Time → Option ℕ
cooling_down cooldown_until now =
    if ltb now cooldown_until then some (cooldown_until - now) else none

-- How a provider's `generate` or `embed` ends: Generated or Embedded, InvalidOutput, AIUnavailable
-- (its reason, `not_billed`, `retry_after`), or any other exception.
pub data Outcome : Type 0 where
  answered : ℕ → ℕ → Option String → Outcome
  invalid_output : String → Option ℕ → Option ℕ → Outcome
  unavailable : String → Bool → Option ℕ → Outcome
  crashed : Outcome

-- The arguments of `reconcile` on each branch.
abbrev pub billed : Outcome → Billed
billed (answered i o c) = record {
  input_tokens = some i;
  output_tokens = some o;
  is_failed = false;
  cost = c;
}
billed (invalid_output reason i o) = record {
  input_tokens = i;
  output_tokens = o;
  is_failed = true;
  cost = none;
}
billed (unavailable reason true wait) = record {
  input_tokens = some 0;
  output_tokens = some 0;
  is_failed = true;
  cost = none;
}
billed (unavailable reason false wait) = record {
  input_tokens = none;
  output_tokens = none;
  is_failed = true;
  cost = none;
}
billed crashed = record { input_tokens = none; output_tokens = none; is_failed = true; cost = none }

-- Only a rate limit that was not billed cools the provider down.
abbrev pub cooled : Outcome → Time → Time → Time
cooled (unavailable reason true wait) now until =
    if text_eq reason "rate_limited" then cool_down wait now else until
cooled _ now until = until

-- How a budgeted call ends: what the provider did, or an exception before it was called.
pub data Ended : Type 0 where
  provider_ended : Outcome → Ended
  cooling : ℕ → Ended
  not_configured : Ended
  over_budget : String → Ended

-- What the process keeps and shares.
pub record Process : Type 0 where
  pub ledger : Ledger
  pub cooldown_until : Time

-- A call of `_generate_on`: the provider and tier, and the request.
pub record Generation : Type 0 where
  pub workspace_id : Uuid
  pub job_id : Option Uuid
  pub provider_name : String
  pub generation_model : String
  pub billing : Billing
  pub system : String
  pub prompt : String
  pub max_tokens : ℕ

-- The clocks and the uuid4 that a call reads, what other callers commit and what the provider does
-- in the meantime.
pub record Circumstances : Type 0 where
  pub now : Time
  pub day : ℕ
  pub fresh : Uuid
  pub meanwhile : List Event
  pub outcome : Outcome
  pub ended_at : Time

abbrev pub generation_estimate : Generation → ℕ
generation_estimate g = 2 * estimate_tokens (g.system ++ g.prompt) + g.max_tokens

abbrev pub generation_reservation : Generation → Reservation
generation_reservation g = record {
  workspace_id = g.workspace_id;
  operation = "generate";
  model = g.generation_model;
  tokens = generation_estimate g;
  job_id = g.job_id;
  billing = g.billing;
  provider_name = g.provider_name;
}

-- The provider is called and the reservation reconciled, other callers running in between.
abbrev pub finish_call : Limits → Circumstances → Uuid → Ledger → Ledger
finish_call l c usage s = reconcile l usage (billed c.outcome) (run l c.meanwhile s)

abbrev pub on_reserved : Limits → Circumstances → Time → Ledger × Reserved → Process × Ended
on_reserved l c until (s, budget_exhausted scope) =
    (record { ledger = s; cooldown_until = until }, over_budget scope)
on_reserved l c until (s, ok usage) = (
  record { ledger = finish_call l c usage s; cooldown_until = cooled c.outcome c.ended_at until },
  provider_ended c.outcome,
)

-- Before the provider is called: a provider that cools down is not.
abbrev pub on_wait : Limits → Circumstances → Generation → Process → Option ℕ → Process × Ended
on_wait l c g p (some wait) = (p, cooling wait)
on_wait l c g p none =
    on_reserved l c p.cooldown_until (reserve l c.fresh c.day (generation_reservation g) p.ledger)

unfoldable pub generate_on : Limits → Circumstances → Generation → Process → Process × Ended
generate_on l c g p = on_wait l c g p (cooling_down p.cooldown_until c.now)

abbrev pub on_tier : Limits → Circumstances → Generation → Process → Billing → Process × Ended
on_tier l c g p no_billing = (p, not_configured)
on_tier l c g p user = generate_on l c g p
on_tier l c g p operator = generate_on l c g p

-- `generate`: with the tier `none`, the provider is not configured.
unfoldable pub generate : Limits → Circumstances → Generation → Process → Process × Ended
generate l c g p = on_tier l c g p g.billing

-- A call of `embed`; `embedding_dimension` is 0 where no embedder is configured.
pub record Embedding : Type 0 where
  pub workspace_id : Uuid
  pub job_id : Option Uuid
  pub embed_name : String
  pub embedding_model : String
  pub embedding_dimension : ℕ
  pub texts : List String

abbrev pub embedding_reservation : Embedding → Reservation
embedding_reservation e = record {
  workspace_id = e.workspace_id;
  operation = "embed";
  model = e.embedding_model;
  tokens = 2 * sum_by estimate_tokens e.texts;
  job_id = e.job_id;
  billing = operator;
  provider_name = e.embed_name;
}

-- `embed` leaves the cool-down alone.
abbrev pub on_embed_reserved : Limits → Circumstances → Ledger × Reserved → Ledger × Ended
on_embed_reserved l c (s, budget_exhausted scope) = (s, over_budget scope)
on_embed_reserved l c (s, ok usage) = (finish_call l c usage s, provider_ended c.outcome)

unfoldable pub embed : Limits → Circumstances → Embedding → Ledger → Ledger × Ended
embed l c e s =
    if e.embedding_dimension == 0
    then (s, not_configured)
    else on_embed_reserved l c (reserve l c.fresh c.day (embedding_reservation e) s)
