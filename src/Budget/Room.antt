-- ===== src/Budget/Room.antt =====
-- The limits: a reservation is granted exactly if every scope that pays has room for it.
use native.Mathlib.Decide.{dec_le}
use moresocial.Budget.Tokens.{reserve_budgets, pays}
use moresocial.Base.{
  refl, sym, subst, inr, ==_refl, arith, inl, ◌++◌, ◌||◌, if◌then◌else◌, ◌==◌, ◌⊎◌, ◌&&◌, ◌<◌, some,
  true, ◌≡◌, [], ◌≤◌, ◌∷◌, false, ◌+◌, Bool, All, Uuid, List, ℕ,
}
use moresocial.Budget.{
  book, global, workspace, reserve, open_row, set_tokens, userkey, no_billing, operator, user,
  new_usage, exhausted, prefix, budget_exhausted, taken, ok, same_scope, open_rows, Budgets, scopes,
  Reserved, Billing, or_zero, Reservation, Scope, Limits, take_all, Ledger,
}

abbrev pub committed : Ledger → ℕ → Scope → ℕ
committed s day scope = or_zero (s.budgets scope day)

-- Every scope that pays has room for the tokens.
abbrev pub HasRoom : Ledger → ℕ → ℕ → List (Scope × ℕ) → Type 0
HasRoom s day n due = All (λ x. committed s day x.0 + n ≤ x.1) due

abbrev pub has_scope : Scope → ℕ → List (Scope × ℕ) → Bool
has_scope scope limit [] = false
has_scope scope limit ((x, m) ∷ due) = same_scope x scope && m == limit || has_scope scope limit due

abbrev pub Refused : Limits → ℕ → Reservation → Ledger → Ledger × Reserved → Type 0
Refused l day r s out =
    (scope : Scope) × (limit : ℕ) × (has_scope scope limit (scopes l r.workspace_id r.billing)
      ≡ true)
    × (limit < committed s day scope + r.tokens)
    × (out ≡ (s, budget_exhausted (prefix scope)))

abbrev pub Granted : Limits → Uuid → ℕ → Reservation → Ledger → Ledger × Reserved → Type 0
Granted l fresh day r s out =
    HasRoom s day r.tokens (scopes l r.workspace_id r.billing)
    × (out.1 ≡ ok fresh)
    × All (λ x. out.0.budgets x.0 day ≡ some (committed s day x.0 + r.tokens))
        (scopes l r.workspace_id r.billing)
    × ((scope : Scope) (d : ℕ)
        → committed out.0 d scope
          ≡ committed s d scope
            + (if day == d && pays r.billing r.workspace_id scope then r.tokens else 0))
    × (out.0.usages ≡ s.usages ++ new_usage fresh day r ∷ [])

abbrev pub Split : ℕ → ℕ → List (Scope × ℕ) → Ledger → Type 0
Split day n due s =
    ((b : Budgets) × (take_all day n due (open_rows day due s.budgets) ≡ taken b)
      × HasRoom s day n due
      × All (λ x. b x.0 day ≡ some (committed s day x.0 + n)) due)
    ⊎ ((scope : Scope) × (limit : ℕ) × (take_all day n due (open_rows day due s.budgets)
          ≡ exhausted scope)
        × (has_scope scope limit due ≡ true)
        × (limit < committed s day scope + n))

Split-user : (day n : ℕ) (w : Uuid) (m : ℕ) (s : Ledger) → Split day n ((userkey w, m) ∷ []) s
unfolding take_all
Split-user day n w m s = elim (dec_le (committed s day (userkey w) + n) m) [
  | yes room ↦ inl (
    set_tokens (userkey w) day (committed s day (userkey w) + n)
        (open_row day (userkey w) s.budgets),
    ground (arith, ==_refl w, ==_refl day),
    (room, tt),
    (ground (arith, ==_refl w, ==_refl day), tt),
  )
  | no full ↦ inr (
    userkey w,
    m,
    ground (arith, ==_refl w, ==_refl day),
    ground (arith, ==_refl w, ==_refl m),
    omega arith,
  )
]

Split-shared :
    (day n : ℕ) (w : Uuid) (m g : ℕ) (s : Ledger)
    → Split day n ((workspace w, m) ∷ (global, g) ∷ []) s
unfolding take_all
Split-shared day n w m g s = elim (dec_le (committed s day (workspace w) + n) m) [
  | yes room ↦ elim (dec_le (committed s day global + n) g) [
    | yes room' ↦ inl (
      set_tokens global day (committed s day global + n) (
          set_tokens (workspace w) day (committed s day (workspace w) + n)
            (open_row day global (open_row day (workspace w) s.budgets))),
      ground (arith, ==_refl w, ==_refl day),
      (room, (room', tt)),
      (ground (arith, ==_refl w, ==_refl day), (ground (arith, ==_refl w, ==_refl day), tt)),
    )
    | no full ↦
        inr (
          global,
          g,
          ground (arith, ==_refl w, ==_refl day),
          ground (arith, ==_refl g),
          omega arith,
        )
  ]
  | no full ↦ inr (
    workspace w,
    m,
    ground (arith, ==_refl w, ==_refl day),
    ground (arith, ==_refl w, ==_refl m),
    omega arith,
  )
]

Split-scopes :
    (l : Limits) (day n : ℕ) (w : Uuid) (k : Billing) (s : Ledger) → Split day n (scopes l w k) s
Split-scopes l day n w user s = Split-user day n w _ s
Split-scopes l day n w operator s = Split-shared day n w _ _ s
Split-scopes l day n w no_billing s = Split-shared day n w _ _ s

-- A reservation is granted if every scope that pays has room for it, and then each of them, and no
-- other, is charged the tokens and the call is recorded as reserved; otherwise a scope without
-- room is named and nothing changes.
pub reserve-cases :
    (l : Limits) (fresh : Uuid) (day : ℕ) (r : Reservation) (s : Ledger)
    → Granted l fresh day r s (reserve l fresh day r s)
      ⊎ Refused l day r s (reserve l fresh day r s)
unfolding reserve
reserve-cases l fresh day r s = elim (Split-scopes l day r.tokens r.workspace_id r.billing s) [
  | inl (b, e, room, rows) ↦ inl (
      subst (λ t. Granted l fresh day r s (book s fresh day r t)) (sym e)
        (
          room,
          refl,
          rows,
          λ scope d. reserve_budgets l day r.tokens r.workspace_id r.billing s.budgets b e scope d,
          refl,
        ))
  | inr (scope, limit, e, has, full) ↦ inr (
      subst (λ t. Refused l day r s (book s fresh day r t)) (sym e) (scope, limit, has, full, refl))
]
