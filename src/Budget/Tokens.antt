-- ===== src/Budget/Tokens.antt =====
-- What the statements on the budget rows do to each scope and day.
use moresocial.Base.{
  ◌∷◌, [], ==_refl, ==_iff, arith, ◌+◌, false, ◌||◌, ◌&&◌, true, ◌==◌, ◌≡◌, Bool, is_some, Uuid,
  if◌then◌else◌, List, ℕ,
}
use moresocial.Budget.{
  no_billing, operator, user, global, workspace, is_failed_call, adjust, unknown_cost, adjust_all,
  or_zero, taken, open_rows, userkey, is_reserved, scopes, Budgets, Limits, ProviderUsage, Scope,
  Billing, take_all,
}

abbrev pub charge : ProviderUsage → ℕ
charge u =
    if is_reserved u.status || unknown_cost (is_failed_call u.status) u.input_tokens u.output_tokens
    then u.reserved_tokens
    else or_zero u.input_tokens + or_zero u.output_tokens

abbrev pub pays : Billing → Uuid → Scope → Bool
pays user w (userkey v) = v == w
pays user w _ = false
pays operator w (workspace v) = v == w
pays operator w global = true
pays operator w (userkey v) = false
pays no_billing w (workspace v) = v == w
pays no_billing w global = true
pays no_billing w (userkey v) = false

abbrev pub charge_to : Scope → ℕ → ProviderUsage → ℕ
charge_to scope day u = if u.day == day && pays u.billing u.workspace_id scope then charge u else 0

pub reserve_budgets :
    (l : Limits) (day n : ℕ) (w : Uuid) (k : Billing) (b b' : Budgets)
    → take_all day n (scopes l w k) (open_rows day (scopes l w k) b) ≡ taken b'
    → (scope : Scope) (d : ℕ)
    → or_zero (b' scope d) ≡ or_zero (b scope d) + (if day == d && pays k w scope then n else 0)
unfolding take_all
reserve_budgets l day n w user b b' e (workspace v) d = ground arith
reserve_budgets l day n w user b b' e global d = ground arith
reserve_budgets l day n w user b b' e (userkey v) d = ground arith
reserve_budgets l day n w operator b b' e (workspace v) d = ground arith
reserve_budgets l day n w operator b b' e global d = ground arith
reserve_budgets l day n w operator b b' e (userkey v) d = ground arith
reserve_budgets l day n w no_billing b b' e (workspace v) d = ground arith
reserve_budgets l day n w no_billing b b' e global d = ground arith
reserve_budgets l day n w no_billing b b' e (userkey v) d = ground arith

pub adjust_all-books :
    (l : Limits) (f : ℕ → ℕ) (day : ℕ) (w : Uuid) (k : Billing) (b : Budgets) (scope : Scope)
    (d : ℕ)
    → (pays k w scope ≡ true → is_some (b scope day) ≡ true)
    → or_zero (adjust_all f day (scopes l w k) b scope d)
      ≡ (if day == d && pays k w scope then f (or_zero (b scope d)) else or_zero (b scope d))
adjust_all-books l f day w user b (workspace v) d z = ground arith
adjust_all-books l f day w user b global d z = ground arith
adjust_all-books l f day w user b (userkey v) d z =
    ground (arith, ==_iff v w, ==_iff w v, ==_iff day d)
adjust_all-books l f day w operator b (workspace v) d z =
    ground (arith, ==_iff v w, ==_iff w v, ==_iff day d)
adjust_all-books l f day w operator b global d z = ground (arith, ==_iff day d)
adjust_all-books l f day w operator b (userkey v) d z = ground arith
adjust_all-books l f day w no_billing b (workspace v) d z =
    ground (arith, ==_iff v w, ==_iff w v, ==_iff day d)
adjust_all-books l f day w no_billing b global d z = ground (arith, ==_iff day d)
adjust_all-books l f day w no_billing b (userkey v) d z = ground arith

-- Rows are never taken away, and `reserve` opens those of its scopes.
pub reserve_rows :
    (l : Limits) (day n : ℕ) (w : Uuid) (k : Billing) (b b' : Budgets)
    → take_all day n (scopes l w k) (open_rows day (scopes l w k) b) ≡ taken b'
    → (scope : Scope) (d : ℕ)
    → (is_some (b scope d) ≡ true → is_some (b' scope d) ≡ true)
      × (pays k w scope ≡ true → is_some (b' scope day) ≡ true)
unfolding take_all
reserve_rows l day n w user b b' e (workspace v) d = ground arith
reserve_rows l day n w user b b' e global d = ground arith
reserve_rows l day n w user b b' e (userkey v) d =
    ground (arith, ==_iff v w, ==_iff w v, ==_refl day)
reserve_rows l day n w operator b b' e (workspace v) d =
    ground (arith, ==_iff v w, ==_iff w v, ==_refl day)
reserve_rows l day n w operator b b' e global d = ground (arith, ==_refl day)
reserve_rows l day n w operator b b' e (userkey v) d = ground arith
reserve_rows l day n w no_billing b b' e (workspace v) d =
    ground (arith, ==_iff v w, ==_iff w v, ==_refl day)
reserve_rows l day n w no_billing b b' e global d = ground (arith, ==_refl day)
reserve_rows l day n w no_billing b b' e (userkey v) d = ground arith

adjust-row :
    (f : ℕ → ℕ) (day : ℕ) (x : Scope) (b : Budgets) (scope : Scope) (d : ℕ)
    → is_some (b scope d) ≡ true
    → is_some (adjust f day x b scope d) ≡ true
adjust-row f day x b scope d h = ground arith

pub adjust_all-rows :
    (f : ℕ → ℕ) (day : ℕ) (due : List (Scope × ℕ)) (b : Budgets) (scope : Scope) (d : ℕ)
    → is_some (b scope d) ≡ true
    → is_some (adjust_all f day due b scope d) ≡ true
adjust_all-rows f day [] b scope d h = h
adjust_all-rows f day ((x, limit) ∷ due) b scope d h =
    adjust_all-rows f day due (adjust f day x b) scope d (adjust-row f day x b scope d h)
