-- ===== src/Budget/Within.antt =====
-- The limits are kept.
use native.Mathlib.Nat.{le_refl}
use moresocial.Budget.Tokens.{pays}
use moresocial.Budget.Room.{reserve-cases, HasRoom, committed}
use moresocial.Budget.Calls.{reconcile_call, reserve_call, after, run, Event}
use moresocial.Base.{
  ◌==◌, refl, ◌&&◌, false, ap, Option-cases, none, if◌then◌else◌, sym, inr, ==_iff, subst, ◌+◌,
  arith, true, some, Bool-cases, find, ◌≡◌, inl, ◌≤◌, [], ◌∷◌, Option, List, Uuid, ℕ,
}
use moresocial.Budget.{
  same_scope, delta, no_billing, settle, operator, user, is_reserved, reconcile_found, adjust,
  adjust_all, or_zero, global, scopes, ProviderUsage, userkey, reconcile, Budgets, Reservation,
  Billing, workspace, Billed, Scope, Ledger, Limits, reserve,
}

abbrev pub limit_of : Limits → Scope → ℕ
limit_of l (workspace w) = l.ai_daily_tokens_workspace
limit_of l global = l.ai_daily_tokens_global
limit_of l (userkey w) = l.ai_daily_tokens_user_key

abbrev pub IsWithin : Limits → Ledger → Type 0
IsWithin l s = (scope : Scope) (day : ℕ) → committed s day scope ≤ limit_of l scope

-- The provider bills no more than was reserved.
abbrev pub IsEstimated : Event → Ledger → Type 0
IsEstimated (reserve_call fresh day r) s = Unit
IsEstimated (reconcile_call id a) s =
    (u : ProviderUsage)
    → find (λ v. v.id) id s.usages ≡ some u
    → or_zero a.input_tokens + or_zero a.output_tokens ≤ u.reserved_tokens

abbrev pub AllEstimated : Limits → List Event → Ledger → Type 0
AllEstimated l [] s = Unit
AllEstimated l (e ∷ es) s = IsEstimated e s × AllEstimated l es (after l e s)

room_for :
    (l : Limits) (s : Ledger) (day n : ℕ) (w : Uuid) (k : Billing) (scope : Scope)
    → HasRoom s day n (scopes l w k)
    → pays k w scope ≡ true
    → committed s day scope + n ≤ limit_of l scope
room_for l s day n w user (workspace v) h p = cc
room_for l s day n w user global h p = cc
room_for l s day n w user (userkey v) h p =
    subst (λ x. committed s day (userkey x) + n ≤ l.ai_daily_tokens_user_key)
      (sym ((==_iff v w).0 p)) h.0
room_for l s day n w operator (workspace v) h p =
    subst (λ x. committed s day (workspace x) + n ≤ l.ai_daily_tokens_workspace)
      (sym ((==_iff v w).0 p)) h.0
room_for l s day n w operator global h p = h.1.0
room_for l s day n w operator (userkey v) h p = cc
room_for l s day n w no_billing (workspace v) h p =
    subst (λ x. committed s day (workspace x) + n ≤ l.ai_daily_tokens_workspace)
      (sym ((==_iff v w).0 p)) h.0
room_for l s day n w no_billing global h p = h.1.0
room_for l s day n w no_billing (userkey v) h p = cc

reserve-IsWithin :
    (l : Limits) (fresh : Uuid) (day : ℕ) (r : Reservation) (s : Ledger)
    → IsWithin l s
    → IsWithin l (reserve l fresh day r s).0
reserve-IsWithin l fresh day r s h scope d = elim (reserve-cases l fresh day r s) [
  | inl (room, _, _, paid, _) ↦
      let before = h scope d in
      let now = paid scope d in
      elim (Bool-cases (pays r.billing r.workspace_id scope)) [
        | inl yes_pays ↦
            let fits = room_for l s day r.tokens r.workspace_id r.billing scope room yes_pays in
            ground (arith, ==_iff day d)
        | inr not_pays ↦ ground (arith)
      ]
  | inr (_, _, _, _, same) ↦
      subst (λ x. committed x.0 d scope ≤ limit_of l scope) (sym same) (h scope d)
]

same_scope-eq : (x y : Scope) → same_scope x y ≡ true → x ≡ y
same_scope-eq (workspace v) (workspace w) e = ap workspace ((==_iff v w).0 e)
same_scope-eq (workspace v) global e = cc
same_scope-eq (workspace v) (userkey w) e = cc
same_scope-eq global (workspace w) e = cc
same_scope-eq global global e = refl
same_scope-eq global (userkey w) e = cc
same_scope-eq (userkey v) (workspace w) e = cc
same_scope-eq (userkey v) global e = cc
same_scope-eq (userkey v) (userkey w) e = ap userkey ((==_iff v w).0 e)

adjust-le :
    (f : ℕ → ℕ) (day : ℕ) (x : Scope) (b : Budgets) (scope : Scope) (d : ℕ)
    → ((t : ℕ) → f t ≤ t)
    → or_zero (adjust f day x b scope d) ≤ or_zero (b scope d)
adjust-le f day x b scope d low =
    let same = same_scope-eq x scope in
    elim (Option-cases (b x day)) [
      | inl none_here ↦ ground arith
      | inr (t, row) ↦ elim (Bool-cases (same_scope x scope && day == d)) [
        | inl hit ↦
            let at_scope = same (ground arith) in
            let at_day : day ≡ d = ground (arith, ==_iff day d) in
            let here : b scope d ≡ some t =
              subst (λ y. b y d ≡ some t) at_scope (subst (λ e. b x e ≡ some t) at_day row) in
            let less = low t in ground arith
        | inr miss ↦ ground arith
      ]
    ]

adjust_all-le :
    (f : ℕ → ℕ) (day : ℕ) (due : List (Scope × ℕ)) (b : Budgets) (scope : Scope) (d : ℕ)
    → ((t : ℕ) → f t ≤ t)
    → or_zero (adjust_all f day due b scope d) ≤ or_zero (b scope d)
adjust_all-le f day [] b scope d low = le_refl _
adjust_all-le f day ((x, limit) ∷ due) b scope d low =
    omega (
      arith,
      adjust_all-le f day due (adjust f day x b) scope d low,
      adjust-le f day x b scope d low,
    )

reconcile_found-IsWithin :
    (l : Limits) (a : Billed) (o : Option ProviderUsage) (s : Ledger)
    → ((u : ProviderUsage)
        → o ≡ some u
        → or_zero a.input_tokens + or_zero a.output_tokens ≤ u.reserved_tokens)
    → IsWithin l s
    → IsWithin l (reconcile_found l a o s)
reconcile_found-IsWithin l a none s low h = h
reconcile_found-IsWithin l a (some u) s low h = λ scope d.
    elim (is_reserved u.status)
      as (λ b. committed (if b then settle l a u s else s) d scope ≤ limit_of l scope) [
        | true ↦
            let less = low u refl in
            let settled =
              adjust_all-le (delta a u) u.day (scopes l u.workspace_id u.billing) s.budgets scope d
                (λ t. ground arith) in
            omega (arith, settled, h scope d)
        | false ↦ h scope d
      ]

-- No scope is ever charged more than its limit on a day, by any reservations and reconciliations
-- in any order, if it starts within its limits and no call is billed more than was reserved for it.
pub run-IsWithin :
    (l : Limits) (es : List Event) (s : Ledger)
    → IsWithin l s
    → AllEstimated l es s
    → IsWithin l (run l es s)
unfolding run after reconcile
run-IsWithin l [] s h ok = h
run-IsWithin l (reserve_call fresh day r ∷ es) s h ok =
    run-IsWithin l es (reserve l fresh day r s).0 (reserve-IsWithin l fresh day r s h) ok.1
run-IsWithin l (reconcile_call id a ∷ es) s h ok =
    run-IsWithin l es (reconcile l id a s) (reconcile_found-IsWithin l a _ s ok.0 h) ok.1
