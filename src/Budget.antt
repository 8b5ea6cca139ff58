-- ===== src/Budget.antt =====
-- app/ai.py, the budgets: reservations of tokens against the daily limits of the scopes that pay,
-- and their reconciliation with what the provider billed. Tables of app/models.py: UsageBudget,
-- whose primary key is (scope, day), is a map; ProviderUsage is a list of rows.
mod Tokens
pub mod Balance
pub mod Room
pub mod Calls
pub mod Generate
pub mod Settled
pub mod Cost
pub mod Cooling
pub mod Within
mod Examples
use Prim.Native.String.{count}
use moresocial.Base.{
  ◌/◌, ◌*◌, false, [], leb, max, ◌&&◌, ◌++◌, ◌∷◌, ◌==◌, true, some, none, ◌-◌, find, Option, Bool,
  ◌+◌, Uuid, List, update_where, String, if◌then◌else◌, ℕ,
}

-- The texts `workspace:<uuid>`, `global` and `userkey:<uuid>`.
pub data Scope : Type 0 where
  workspace : Uuid → Scope
  global : Scope
  userkey : Uuid → Scope

-- `scope.split(':', 1)[0]`
abbrev pub prefix : Scope → String
prefix (workspace w) = "workspace"
prefix global = "global"
prefix (userkey w) = "userkey"

abbrev pub same_scope : Scope → Scope → Bool
same_scope (workspace v) (workspace w) = v == w
same_scope global global = true
same_scope (userkey v) (userkey w) = v == w
same_scope _ _ = false

pub data Billing : Type 0 where
  user operator no_billing : Billing

pub data UsageStatus : Type 0 where
  reserved reconciled failed : UsageStatus

-- `cost` is a Decimal that the program only stores.
pub record ProviderUsage : Type 0 where
  pub id : Uuid
  pub workspace_id : Uuid
  pub job_id : Option Uuid
  pub day : ℕ
  pub operation : String
  pub model : String
  pub provider : String
  pub billing : Billing
  pub reserved_tokens : ℕ
  pub input_tokens : Option ℕ
  pub output_tokens : Option ℕ
  pub cost : Option String
  pub currency : Option String
  pub status : UsageStatus

-- UsageBudget: the tokens of a scope on a day, if there is a row.
abbrev pub Budgets : Type 0
Budgets = Scope → ℕ → Option ℕ

pub record Ledger : Type 0 where
  pub budgets : Budgets
  pub usages : List ProviderUsage

-- The limits of app/config.py.
pub record Limits : Type 0 where
  pub ai_daily_tokens_workspace : ℕ
  pub ai_daily_tokens_global : ℕ
  pub ai_daily_tokens_user_key : ℕ

abbrev pub scopes : Limits → Uuid → Billing → List (Scope × ℕ)
scopes l w user = (userkey w, l.ai_daily_tokens_user_key) ∷ []
scopes l w _ = (workspace w, l.ai_daily_tokens_workspace) ∷ (global, l.ai_daily_tokens_global) ∷ []

abbrev pub set_tokens : Scope → ℕ → ℕ → Budgets → Budgets
set_tokens scope day n b s d = if same_scope scope s && day == d then some n else b s d

-- RESERVE_SQL: a row with no tokens, unless there is one.
abbrev pub open_row : ℕ → Scope → Budgets → Budgets
open_row day scope b = elim (b scope day) [ none ↦ set_tokens scope day 0 b | some _ ↦ b ]

abbrev pub open_rows : ℕ → List (Scope × ℕ) → Budgets → Budgets
open_rows day [] b = b
open_rows day ((scope, limit) ∷ more) b = open_rows day more (open_row day scope b)

-- TAKE_SQL: none if no row is returned.
abbrev pub take : ℕ → ℕ → Scope → ℕ → Budgets → Option Budgets
take day n scope limit b = elim (b scope day) [
  | none ↦ none
  | some t ↦ if leb (t + n) limit then some (set_tokens scope day (t + n) b) else none
]

pub data Taken : Type 0 where
  taken : Budgets → Taken
  exhausted : Scope → Taken

-- The second loop of `reserve`; the first scope that refuses is named.
unfoldable pub take_all : ℕ → ℕ → List (Scope × ℕ) → Budgets → Taken
take_all day n [] b = taken b
take_all day n ((scope, limit) ∷ more) b = elim (take day n scope limit b) [
  | none ↦ exhausted scope
  | some b' ↦ take_all day n more b'
]

-- What a caller of `reserve` gives it.
pub record Reservation : Type 0 where
  pub workspace_id : Uuid
  pub operation : String
  pub model : String
  pub tokens : ℕ
  pub job_id : Option Uuid
  pub billing : Billing
  pub provider_name : String

abbrev pub new_usage : Uuid → ℕ → Reservation → ProviderUsage
new_usage fresh day r = record {
  id = fresh;
  workspace_id = r.workspace_id;
  job_id = r.job_id;
  day = day;
  operation = r.operation;
  model = r.model;
  provider = r.provider_name;
  billing = r.billing;
  reserved_tokens = r.tokens;
  input_tokens = none;
  output_tokens = none;
  cost = none;
  currency = none;
  status = reserved;
}

pub data Reserved : Type 0 where
  ok : Uuid → Reserved
  budget_exhausted : String → Reserved

abbrev pub book : Ledger → Uuid → ℕ → Reservation → Taken → Ledger × Reserved
book s fresh day r (taken b) =
    (record { budgets = b; usages = s.usages ++ new_usage fresh day r ∷ [] }, ok fresh)
book s fresh day r (exhausted scope) = (s, budget_exhausted (prefix scope))

-- `day` is today, `fresh` the new uuid4. A refusal rolls the transaction back.
unfoldable pub reserve : Limits → Uuid → ℕ → Reservation → Ledger → Ledger × Reserved
unfolding take_all
reserve l fresh day r s =
    let due = scopes l r.workspace_id r.billing in
    book s fresh day r (take_all day r.tokens due (open_rows day due s.budgets))

abbrev pub or_zero : Option ℕ → ℕ
or_zero none = 0
or_zero (some n) = n

-- `failed and input_tokens is None and output_tokens is None`
abbrev pub unknown_cost : Bool → Option ℕ → Option ℕ → Bool
unknown_cost failed_call none none = failed_call
unknown_cost failed_call _ _ = false

-- GREATEST(0, tokens + d), with d = plus - minus.
abbrev pub shift : ℕ → ℕ → ℕ → ℕ
shift plus minus tokens = tokens + plus - minus

abbrev pub adjust : (ℕ → ℕ) → ℕ → Scope → Budgets → Budgets
adjust f day scope b = elim (b scope day) [ none ↦ b | some t ↦ set_tokens scope day (f t) b ]

abbrev pub adjust_all : (ℕ → ℕ) → ℕ → List (Scope × ℕ) → Budgets → Budgets
adjust_all f day [] b = b
adjust_all f day ((scope, limit) ∷ more) b = adjust_all f day more (adjust f day scope b)

-- What `reconcile` is told about the call.
pub record Billed : Type 0 where
  pub input_tokens : Option ℕ
  pub output_tokens : Option ℕ
  pub is_failed : Bool
  pub cost : Option String

abbrev pub delta : Billed → ProviderUsage → ℕ → ℕ
delta a u =
    if unknown_cost a.is_failed a.input_tokens a.output_tokens
    then shift 0 0
    else shift (or_zero a.input_tokens + or_zero a.output_tokens) u.reserved_tokens

abbrev pub settle_usage : Billed → ProviderUsage → ProviderUsage
settle_usage a u = record u {
  input_tokens = a.input_tokens;
  output_tokens = a.output_tokens;
  cost = a.cost;
  currency = elim a.cost [ none ↦ none | some _ ↦ some "USD" ];
  status = if a.is_failed then failed else reconciled;
}

abbrev pub is_reserved : UsageStatus → Bool
is_reserved reserved = true
is_reserved _ = false

abbrev pub is_failed_call : UsageStatus → Bool
is_failed_call failed = true
is_failed_call _ = false

abbrev pub settle : Limits → Billed → ProviderUsage → Ledger → Ledger
settle l a u s = record {
  budgets = adjust_all (delta a u) u.day (scopes l u.workspace_id u.billing) s.budgets;
  usages = update_where (λ v. v.id == u.id) (settle_usage a) s.usages;
}

abbrev pub reconcile_found : Limits → Billed → Option ProviderUsage → Ledger → Ledger
reconcile_found l a none s = s
reconcile_found l a (some u) s = if is_reserved u.status then settle l a u s else s

unfoldable pub reconcile : Limits → Uuid → Billed → Ledger → Ledger
reconcile l id a s = reconcile_found l a (find (λ u. u.id) id s.usages) s

-- max(1, ceil(len(text) / 3.5))
unfoldable pub estimate_tokens : String → ℕ
estimate_tokens text = max 1 ((2 * count text + 6) / 7)
