-- ===== src/Budget/Examples.antt =====
-- Runs of the budgets on small ledgers, and the theorems at them.
use moresocial.Base.{
  some-injective, ap, true, ◌∷◌, arith, false, none, ◌≡◌, [], some, ◌⊎◌, refl, List,
}
use moresocial.Budget.Settled.{generate-IsSettled, IsSettled}
use moresocial.Budget.Room.{reserve-cases, Refused, committed, Granted}
use moresocial.Budget.Generate.{
  answered, crashed, unavailable, generation_reservation, Circumstances, Process, Embedding,
  Generation, generate,
}
use moresocial.Budget.Calls.{
  reconcile_call, Event, reserve_call, AllNew, run-IsBalanced, after, run,
}
use moresocial.Budget.Within.{run-IsWithin, AllEstimated, IsWithin}
use moresocial.Budget.Balance.{IsBalanced}
use moresocial.Budget.{
  budget_exhausted, global, operator, reconcile, Billed, Limits, Ledger, Reservation, take_all,
  estimate_tokens, reserve,
}

abbrev small_limits : Limits
small_limits = record {
  ai_daily_tokens_workspace = 100;
  ai_daily_tokens_global = 150;
  ai_daily_tokens_user_key = 50;
}

abbrev empty_ledger : Ledger
empty_ledger = record { budgets = λ scope day. none; usages = [] }

abbrev ask : Reservation
ask = record {
  workspace_id = 1;
  operation = "generate";
  model = "m";
  tokens = 60;
  job_id = some 7;
  billing = operator;
  provider_name = "openrouter";
}

abbrev bill : Billed
bill = record { input_tokens = some 20; output_tokens = some 10; is_failed = false; cost = none }

abbrev ask_twice : List Event
ask_twice = reserve_call 3 20 ask ∷ reconcile_call 3 bill ∷ reserve_call 4 20 ask ∷ []

-- 60 tokens are reserved, 30 of them given back, and 60 fit once more.
ask_twice-committed : committed (run small_limits ask_twice empty_ledger) 20 global ≡ 90
unfolding run after reserve reconcile take_all
ask_twice-committed = refl

-- 120 tokens do not fit in 100.
second_refused :
    (reserve small_limits 4 20 ask (reserve small_limits 3 20 ask empty_ledger).0).1
    ≡ budget_exhausted "workspace"
unfolding reserve take_all
second_refused = refl

estimate_tokens_short : estimate_tokens "" ≡ 1
unfolding estimate_tokens
estimate_tokens_short = refl

estimate_tokens_long : estimate_tokens "twelve chars" ≡ 4
unfolding estimate_tokens
estimate_tokens_long = refl

empty_ledger-IsBalanced : IsBalanced empty_ledger
empty_ledger-IsBalanced = record { ids = tt; books = λ scope day. refl; rows = tt }

ask_twice-AllNew : AllNew small_limits ask_twice empty_ledger
unfolding after reserve reconcile take_all
ask_twice-AllNew = (tt, (tt, ((λ e. ground arith, tt), tt)))

ask_twice-AllEstimated : AllEstimated small_limits ask_twice empty_ledger
unfolding after reserve reconcile take_all
ask_twice-AllEstimated = (
  tt,
  (λ u e. let q = ap (λ x. x.reserved_tokens) (some-injective _ u e) in omega (arith, q), (tt, tt)),
)

run-IsBalanced_example : IsBalanced (run small_limits ask_twice empty_ledger)
run-IsBalanced_example =
    run-IsBalanced small_limits ask_twice empty_ledger empty_ledger-IsBalanced ask_twice-AllNew

run-IsWithin_example : IsWithin small_limits (run small_limits ask_twice empty_ledger)
run-IsWithin_example =
    run-IsWithin small_limits ask_twice empty_ledger (λ scope day. ground arith)
      ask_twice-AllEstimated

reserve-cases_example :
    Granted small_limits 3 20 ask empty_ledger (reserve small_limits 3 20 ask empty_ledger)
    ⊎ Refused small_limits 20 ask empty_ledger (reserve small_limits 3 20 ask empty_ledger)
reserve-cases_example = reserve-cases small_limits 3 20 ask empty_ledger

abbrev question : Generation
question = record {
  workspace_id = 1;
  job_id = none;
  provider_name = "openrouter";
  generation_model = "m";
  billing = operator;
  system = "Answer.";
  prompt = "Who is Bob?";
  max_tokens = 10;
}

abbrev idle : Process
idle = record { ledger = empty_ledger; cooldown_until = 0 }

abbrev refused_for_rate : Circumstances
refused_for_rate = record {
  now = 5;
  day = 20;
  fresh = 3;
  meanwhile = [];
  outcome = unavailable "rate_limited" true (some 1000);
  ended_at = 9;
}

-- Another caller reserves and settles while the provider answers.
abbrev answered_meanwhile : Circumstances
answered_meanwhile = record {
  now = 5;
  day = 20;
  fresh = 3;
  meanwhile = reserve_call 4 20 ask ∷ reconcile_call 4 bill ∷ [];
  outcome = answered 11 8 (some "0.01");
  ended_at = 9;
}

abbrev later : Circumstances
later = record { now = 500; day = 20; fresh = 5; meanwhile = []; outcome = crashed; ended_at = 501 }

generate-IsSettled_example :
    let done = generate small_limits answered_meanwhile question idle in
    IsSettled answered_meanwhile
      (generation_reservation question)
      empty_ledger
      (done.0.ledger, done.1)
generate-IsSettled_example =
    generate-IsSettled small_limits answered_meanwhile question idle
      (tt, (λ e. ground arith, (λ e. ground arith, tt)))

abbrev notes : Embedding
notes = record {
  workspace_id = 1;
  job_id = none;
  embed_name = "openrouter";
  embedding_model = "e";
  embedding_dimension = 64;
  texts = "a note" ∷ "another note" ∷ [];
}
