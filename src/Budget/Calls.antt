-- ===== src/Budget/Calls.antt =====
-- Reservations and reconciliations of many callers, in the order in which they commit.
use mathlib.Core.Option
use moresocial.Budget.Balance.{reconcile-IsBalanced, reserve-IsBalanced, IsBalanced}
use moresocial.Base.{
  find-append, ◌∙◌, ◌⊎◌, ==_refl, refl, none, ==_iff, inr, inl, Option-cases, ◌==◌,
  find-update_where, find-key, some, arith, false, map, ◌≡◌, [], ◌∷◌, ◌≢◌, find, if◌then◌else◌, All,
  ℕ, List, Option, Uuid,
}
use moresocial.Budget.{
  settle, reserved, exhausted, new_usage, taken, book, open_rows, scopes, take_all, reconcile_found,
  settle_usage, Reservation, is_reserved, reconcile, ProviderUsage, Limits, Ledger, Billed, reserve,
}

-- A call of `reserve`, with the uuid it draws and the day, or of `reconcile`.
pub data Event : Type 0 where
  reserve_call : Uuid → ℕ → Reservation → Event
  reconcile_call : Uuid → Billed → Event

unfoldable pub after : Limits → Event → Ledger → Ledger
after l (reserve_call fresh day r) s = (reserve l fresh day r s).0
after l (reconcile_call id a) s = reconcile l id a s

unfoldable pub run : Limits → List Event → Ledger → Ledger
run l [] s = s
run l (e ∷ es) s = run l es (after l e s)

-- A uuid4 is new.
abbrev pub IsNew : Event → Ledger → Type 0
IsNew (reserve_call fresh day r) s = All (λ i. i ≢ fresh) (map (λ u. u.id) s.usages)
IsNew (reconcile_call id a) s = Unit

abbrev pub AllNew : Limits → List Event → Ledger → Type 0
AllNew l [] s = Unit
AllNew l (e ∷ es) s = IsNew e s × AllNew l es (after l e s)

after-IsBalanced :
    (l : Limits) (e : Event) (s : Ledger) → IsBalanced s → IsNew e s → IsBalanced (after l e s)
unfolding after
after-IsBalanced l (reserve_call fresh day r) s q new = reserve-IsBalanced l fresh day r s q new
after-IsBalanced l (reconcile_call id a) s q new = reconcile-IsBalanced l id a s q

-- After any reservations and reconciliations, in any order, each budget row holds exactly the sum
-- over the recorded calls of its day that its scope pays for: the reserved tokens of an open call
-- and of a failed one of unknown cost, the billed tokens of any other. The hypotheses ask for
-- books that start out so and for new ids.
pub run-IsBalanced :
    (l : Limits) (es : List Event) (s : Ledger)
    → IsBalanced s
    → AllNew l es s
    → IsBalanced (run l es s)
unfolding run
run-IsBalanced l [] s q new = q
run-IsBalanced l (e ∷ es) s q new =
    run-IsBalanced l es (after l e s) (after-IsBalanced l e s q new.0) new.1

settle-status : (a : Billed) (u : ProviderUsage) → is_reserved (settle_usage a u).status ≡ false
settle-status a u = ground arith

abbrev pub settled : Billed → ProviderUsage → ProviderUsage
settled a u = if is_reserved u.status then settle_usage a u else u

-- What `reconcile` leaves of the call that it names.
reconcile_found-find :
    (l : Limits) (id : Uuid) (a : Billed) (s : Ledger) (o : Option ProviderUsage)
    → find (λ u. u.id) id s.usages ≡ o
    → find (λ u. u.id) id (reconcile_found l a o s).usages ≡ Option.map (settled a) o
reconcile_found-find l id a s none e = e
reconcile_found-find l id a s (some u) e =
    let own = find-key (λ v. v.id) id s.usages u e in
    let moved =
      find-update_where (λ v. v.id) (λ v. v.id == u.id) (settle_usage a) id s.usages (λ v. refl) in
    ground (arith, own, moved, e, ==_refl id)

-- What it leaves of another.
reconcile_found-other :
    (l : Limits) (id k : Uuid) (a : Billed) (s : Ledger) (o : Option ProviderUsage)
    → k ≢ id
    → find (λ u. u.id) id s.usages ≡ o
    → find (λ u. u.id) k (reconcile_found l a o s).usages ≡ find (λ u. u.id) k s.usages
reconcile_found-other l id k a s none ne e = refl
reconcile_found-other l id k a s (some u) ne e =
    let own = find-key (λ v. v.id) id s.usages u e in
    let moved =
      find-update_where (λ v. v.id) (λ v. v.id == u.id) (settle_usage a) k s.usages (λ v. refl) in
    elim (Option-cases (find (λ u. u.id) k s.usages)) [
      | inl gone ↦ ground (arith, own, moved, gone)
      | inr (v, here) ↦
          let other = find-key (λ v. v.id) k s.usages v here in
          ground (arith, own, moved, here, other, ne, ==_iff k id)
    ]

-- A second reconciliation of a call, with whatever it is told, changes nothing.
reconcile-reconcile :
    (l : Limits) (id : Uuid) (a a' : Billed) (s : Ledger)
    → reconcile l id a' (reconcile l id a s) ≡ reconcile l id a s
unfolding reconcile
reconcile-reconcile l id a a' s = again _ (reconcile_found-find l id a s _ refl) (settled-status _)
  where
    found : Option ProviderUsage
    found = find (λ u. u.id) id s.usages

    settled-status :
        (o : Option ProviderUsage)
        → (Option.map (settled a) o ≡ none)
          ⊎ ((u : ProviderUsage) × (Option.map (settled a) o ≡ some u)
              × (is_reserved u.status ≡ false))
    settled-status none = inl refl
    settled-status (some u) = inr (settled a u, refl, ground (arith, settle-status a u))

    again :
        (o : Option ProviderUsage)
        → find (λ u. u.id) id (reconcile_found l a found s).usages ≡ o
        → (o ≡ none) ⊎ ((u : ProviderUsage) × (o ≡ some u) × (is_reserved u.status ≡ false))
        → reconcile_found l a'
            (find (λ u. u.id) id (reconcile_found l a found s).usages)
            (reconcile_found l a found s)
          ≡ reconcile_found l a found s
    again o e (inl gone) = rw (e ∙ gone)
    again o e (inr (u, here, closed)) = rw (e ∙ here, closed)

-- The events of other callers name neither this call nor its uuid.
abbrev pub IsOther : Uuid → Event → Type 0
IsOther k (reserve_call fresh day r) = k ≢ fresh
IsOther k (reconcile_call id a) = k ≢ id

after-other :
    (l : Limits) (k : Uuid) (e : Event) (s : Ledger) (u : ProviderUsage)
    → IsOther k e
    → find (λ v. v.id) k s.usages ≡ some u
    → find (λ v. v.id) k (after l e s).usages ≡ some u
unfolding after reconcile reserve
after-other l k (reserve_call fresh day r) s u other here =
    elim (take_all day r.tokens (scopes l r.workspace_id r.billing)
        (open_rows day (scopes l r.workspace_id r.billing) s.budgets))
      as (λ t. find (λ v. v.id) k (book s fresh day r t).0.usages ≡ some u) [
        | taken b ↦ find-append (λ v. v.id) k s.usages (new_usage fresh day r ∷ []) u here
        | exhausted scope ↦ here
      ]
after-other l k (reconcile_call id a) s u other here =
    reconcile_found-other l id k a s _ other refl ∙ here

-- While others run, a call's row stays as it is.
pub run-other :
    (l : Limits) (k : Uuid) (es : List Event) (s : Ledger) (u : ProviderUsage)
    → All (IsOther k) es
    → find (λ v. v.id) k s.usages ≡ some u
    → find (λ v. v.id) k (run l es s).usages ≡ some u
unfolding run
run-other l k [] s u other here = here
run-other l k (e ∷ es) s u other here =
    run-other l k es (after l e s) u other.1 (after-other l k e s u other.0 here)

-- An open call that is reconciled.
pub reconcile-open :
    (l : Limits) (id : Uuid) (a : Billed) (s : Ledger) (u : ProviderUsage)
    → find (λ v. v.id) id s.usages ≡ some u
    → u.status ≡ reserved
    → reconcile l id a s ≡ settle l a u s
unfolding reconcile
reconcile-open l id a s u here open_call = rw (here, open_call)

pub reconcile-open-find :
    (l : Limits) (id : Uuid) (a : Billed) (s : Ledger) (u : ProviderUsage)
    → find (λ v. v.id) id s.usages ≡ some u
    → u.status ≡ reserved
    → find (λ v. v.id) id (reconcile l id a s).usages ≡ some (settle_usage a u)
unfolding reconcile
reconcile-open-find l id a s u here open_call =
    reconcile_found-find l id a s _ refl ∙ ground (arith, here, open_call)
