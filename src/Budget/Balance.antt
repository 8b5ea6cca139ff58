-- ===== src/Budget/Balance.antt =====
-- The ledger: what a budget row holds is the sum over the recorded calls that its scope pays for.
use mathlib.Core.List.{map-append}
use moresocial.Budget.Tokens.{
  reserve_rows, adjust_all-rows, reserve_budgets, adjust_all-books, charge_to, pays, charge,
}
use moresocial.Base.{
  none, inr, ◌∙◌, find-key, ap, inl, update_where-All, Bool-cases, All-map, All-append,
  map-update_where, Option, sum_by-append, Distinct-snoc, [], ◌∷◌, find-le-sum_by, sym,
  sum_by-update_where, subst, refl, ◌==◌, arith, first_where-All, ◌+◌, is_some, sum_by, ◌≢◌,
  if◌then◌else◌, some, true, All, ◌≡◌, find, ℕ, Uuid, map, Distinct,
}
use moresocial.Budget.{
  is_reserved, reconcile_found, reconcile, new_usage, delta, taken, exhausted, book, open_rows,
  settle, unknown_cost, reserved, scopes, take_all, Taken, Reservation, settle_usage, or_zero,
  Scope, ProviderUsage, Limits, reserve, Billed, Budgets, Ledger,
}

-- The scopes that pay for a call have their rows.
abbrev pub HasRows : Budgets → ProviderUsage → Type 0
HasRows b u =
    (scope : Scope) → pays u.billing u.workspace_id scope ≡ true → is_some (b scope u.day) ≡ true

-- Committed tokens: outstanding reservations and reconciled usage, per scope and day.
pub record IsBalanced (s : Ledger) : Type 0 where
  pub ids : Distinct (map (λ u. u.id) s.usages)
  pub books :
      (scope : Scope) (day : ℕ)
      → or_zero (s.budgets scope day) ≡ sum_by (charge_to scope day) s.usages
  pub rows : All (HasRows s.budgets) s.usages

book-IsBalanced :
    (l : Limits) (fresh : Uuid) (day : ℕ) (r : Reservation) (s : Ledger) (t : Taken)
    → take_all day r.tokens
        (scopes l r.workspace_id r.billing)
        (open_rows day (scopes l r.workspace_id r.billing) s.budgets)
      ≡ t
    → IsBalanced s
    → All (λ i. i ≢ fresh) (map (λ u. u.id) s.usages)
    → IsBalanced (book s fresh day r t).0
book-IsBalanced l fresh day r s (exhausted scope) e q new = q
book-IsBalanced l fresh day r s (taken b) e q new = record {
  ids =
      subst Distinct (sym (map-append (λ u. u.id) s.usages (new_usage fresh day r ∷ [])))
        (Distinct-snoc (map (λ u. u.id) s.usages) fresh q.ids new);
  books = λ scope d. omega (
    arith,
    reserve_budgets l day r.tokens r.workspace_id r.billing s.budgets b e scope d,
    q.books scope d,
    sum_by-append (charge_to scope d) s.usages (new_usage fresh day r ∷ []),
  );
  rows =
      All-append (HasRows b) s.usages (new_usage fresh day r ∷ [])
        (All-map (HasRows s.budgets) (HasRows b) s.usages
          (λ u h scope p.
            (reserve_rows l day r.tokens r.workspace_id r.billing s.budgets b e scope u.day).0
              (h scope p))
          q.rows)
        (
          λ scope p.
              (reserve_rows l day r.tokens r.workspace_id r.billing s.budgets b e scope day).1 p,
          tt,
        );
}

-- A reservation keeps the books.
pub reserve-IsBalanced :
    (l : Limits) (fresh : Uuid) (day : ℕ) (r : Reservation) (s : Ledger)
    → IsBalanced s
    → All (λ i. i ≢ fresh) (map (λ u. u.id) s.usages)
    → IsBalanced (reserve l fresh day r s).0
unfolding reserve
reserve-IsBalanced l fresh day r s q new = book-IsBalanced l fresh day r s _ refl q new

charge-settled :
    (a : Billed) (u : ProviderUsage)
    → charge (settle_usage a u) ≡ (
        if unknown_cost a.is_failed a.input_tokens a.output_tokens
        then u.reserved_tokens
        else or_zero a.input_tokens + or_zero a.output_tokens)
charge-settled a u = ground arith

settle-books :
    (l : Limits) (a : Billed) (u : ProviderUsage) (s : Ledger) (scope : Scope) (d : ℕ)
    → IsBalanced s
    → find (λ v. v.id) u.id s.usages ≡ some u
    → u.status ≡ reserved
    → or_zero ((settle l a u s).budgets scope d)
      ≡ sum_by (charge_to scope d) (settle l a u s).usages
settle-books l a u s scope d q e r =
    let row =
      (first_where-All (HasRows s.budgets) (λ v. v.id == u.id) s.usages u q.rows e).0 scope in
    let shifted =
      adjust_all-books l (delta a u) u.day u.workspace_id u.billing s.budgets scope d row in
    let moved =
      sum_by-update_where (λ v. v.id) (charge_to scope d) (settle_usage a) u.id s.usages u q.ids
        e in
    let within = find-le-sum_by (λ v. v.id) (charge_to scope d) u.id s.usages u e in
    let total = q.books scope d in ground arith

settle-IsBalanced :
    (l : Limits) (a : Billed) (u : ProviderUsage) (s : Ledger)
    → IsBalanced s
    → find (λ v. v.id) u.id s.usages ≡ some u
    → u.status ≡ reserved
    → IsBalanced (settle l a u s)
settle-IsBalanced l a u s q e r = record {
  ids =
      subst Distinct
        (sym
          (map-update_where (λ v. v.id) (λ v. v.id == u.id) (settle_usage a) s.usages (λ v. refl)))
        q.ids;
  books = λ scope d. settle-books l a u s scope d q e r;
  rows =
      All-map (HasRows s.budgets) (HasRows (settle l a u s).budgets) (settle l a u s).usages
        (λ v h scope p.
          adjust_all-rows (delta a u) u.day (scopes l u.workspace_id u.billing) s.budgets scope
            v.day (h scope p))
        (update_where-All (HasRows s.budgets) (λ v. v.id == u.id) (settle_usage a) s.usages
          (λ v h p. h) q.rows);
}

reconcile_found-IsBalanced :
    (l : Limits) (a : Billed) (id : Uuid) (o : Option ProviderUsage) (s : Ledger)
    → find (λ u. u.id) id s.usages ≡ o
    → IsBalanced s
    → IsBalanced (reconcile_found l a o s)
reconcile_found-IsBalanced l a id none s e q = q
reconcile_found-IsBalanced l a id (some u) s e q = elim (Bool-cases (is_reserved u.status)) [
  | inl open_call ↦
      subst (λ b. IsBalanced (if b then settle l a u s else s)) (sym open_call)
        (settle-IsBalanced l a u s q
          (ap (λ k. find (λ v. v.id) k s.usages) (find-key (λ v. v.id) id s.usages u e) ∙ e)
          (ground arith))
  | inr closed ↦ subst (λ b. IsBalanced (if b then settle l a u s else s)) (sym closed) q
]

-- A reconciliation keeps the books.
pub reconcile-IsBalanced :
    (l : Limits) (id : Uuid) (a : Billed) (s : Ledger)
    → IsBalanced s
    → IsBalanced (reconcile l id a s)
unfolding reconcile
reconcile-IsBalanced l id a s q = reconcile_found-IsBalanced l a id _ s refl q
