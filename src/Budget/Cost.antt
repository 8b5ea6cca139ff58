-- ===== src/Budget/Cost.antt =====
-- The budgeted calls: what a call costs the scopes that pay for it.
use moresocial.Budget.Calls.{run, reconcile-open}
use moresocial.Budget.Balance.{reserve-IsBalanced, reconcile-IsBalanced, IsBalanced}
use moresocial.Budget.Settled.{find-snoc, reserved_ledger, is_called, IsOwn}
use moresocial.Budget.Room.{committed}
use moresocial.Budget.Tokens.{charge_to, pays, charge}
use moresocial.Base.{
  none, some, Option, Time, subst, false, true, arith, sum_by-append, refl, ◌∷◌, ◌++◌,
  sum_by-update_where, ◌==◌, ◌&&◌, [], ◌≡◌, if◌then◌else◌, ◌+◌, Uuid, ℕ,
}
use moresocial.Budget.Generate.{
  on_wait, not_configured, on_tier, on_reserved, generation_reservation, embedding_reservation,
  on_embed_reserved, Process, Embedding, Generation, embed, generate_on, generate, crashed,
  unavailable, invalid_output, provider_ended, finish_call, billed, Ended, answered, Outcome,
  Circumstances,
}
use moresocial.Budget.{
  operator, user, no_billing, exhausted, taken, Billing, book, Taken, or_zero, unknown_cost,
  new_usage, settle_usage, Scope, Budgets, Ledger, Reservation, Limits, reserve,
}

-- What a call of so many reserved tokens costs, by how the provider ends.
abbrev pub cost_of : Outcome → ℕ → ℕ
cost_of (answered i o cost) tokens = i + o
cost_of (invalid_output reason i o) tokens =
    if unknown_cost true i o then tokens else or_zero i + or_zero o
cost_of (unavailable reason not_billed wait) tokens = if not_billed then 0 else tokens
cost_of crashed tokens = tokens

charge-billed :
    (o : Outcome) (fresh : Uuid) (day : ℕ) (r : Reservation)
    → charge (settle_usage (billed o) (new_usage fresh day r)) ≡ cost_of o r.tokens
charge-billed (answered i o cost) fresh day r = refl
charge-billed (invalid_output reason i o) fresh day r = ground arith
charge-billed (unavailable reason true wait) fresh day r = refl
charge-billed (unavailable reason false wait) fresh day r = refl
charge-billed crashed fresh day r = refl

-- What the call adds to a scope on a day.
abbrev pub added : Circumstances → Reservation → Ended → Scope → ℕ → ℕ
added c r ended scope d =
    if is_called ended && (c.day == d && pays r.billing r.workspace_id scope)
    then cost_of c.outcome r.tokens
    else 0

abbrev pub Costs : Circumstances → Reservation → Ledger → Ledger × Ended → Type 0
Costs c r s (s', ended) =
    (scope : Scope) (d : ℕ) → committed s' d scope ≡ committed s d scope + added c r ended scope d

finish-committed :
    (l : Limits) (c : Circumstances) (r : Reservation) (s : Ledger) (b : Budgets)
    → IsOwn c s
    → c.meanwhile ≡ []
    → IsBalanced s
    → IsBalanced (reserved_ledger b c r s)
    → Costs c r s (finish_call l c c.fresh (reserved_ledger b c r s), provider_ended c.outcome)
unfolding run
finish-committed l c r s b own alone q q' scope d =
    let new = new_usage c.fresh c.day r in
    let a = billed c.outcome in
    let here = find-snoc c.fresh s.usages new own.0 refl in
    let done = reconcile-open l c.fresh a (reserved_ledger b c r s) new here refl in
    let balanced =
      subst IsBalanced done (reconcile-IsBalanced l c.fresh a (reserved_ledger b c r s) q') in
    let moved =
      sum_by-update_where (λ v. v.id) (charge_to scope d) (settle_usage a) c.fresh
        (s.usages ++ new ∷ []) new q'.ids here in
    let paid = charge-billed c.outcome c.fresh c.day r in
    let total = q'.books scope d in
    let before = q.books scope d in
    let rows = sum_by-append (charge_to scope d) s.usages (new ∷ []) in
    let after_all = balanced.books scope d in rw (alone, done) (ground arith)

reserved-IsBalanced :
    (l : Limits) (c : Circumstances) (r : Reservation) (s : Ledger)
    → IsOwn c s
    → IsBalanced s
    → IsBalanced (reserve l c.fresh c.day r s).0
reserved-IsBalanced l c r s own q = reserve-IsBalanced l c.fresh c.day r s q own.0

on_embed_reserved-Costs :
    (l : Limits) (c : Circumstances) (r : Reservation) (s : Ledger) (t : Taken)
    → IsOwn c s
    → c.meanwhile ≡ []
    → IsBalanced s
    → IsBalanced (book s c.fresh c.day r t).0
    → Costs c r s (on_embed_reserved l c (book s c.fresh c.day r t))
on_embed_reserved-Costs l c r s (taken b) own alone q q' = finish-committed l c r s b own alone q q'
on_embed_reserved-Costs l c r s (exhausted scope) own alone q q' = λ x d. omega arith

-- A call of `embed` adds to each scope that pays for it, on its day, the tokens billed: input and
-- output if they are known, nothing for a failure that was not billed, else the estimate that was
-- reserved. It changes no other scope and day, and none if the embedder is not called. The
-- hypotheses ask for balanced books, a new uuid, and no other caller meanwhile.
embed-Costs :
    (l : Limits) (c : Circumstances) (e : Embedding) (s : Ledger)
    → IsOwn c s
    → c.meanwhile ≡ []
    → IsBalanced s
    → Costs c (embedding_reservation e) s (embed l c e s)
unfolding embed reserve
embed-Costs l c e s own alone q =
    elim (e.embedding_dimension == 0)
      as (λ b. Costs c (embedding_reservation e) s (
        if b
        then (s, not_configured)
        else on_embed_reserved l c (reserve l c.fresh c.day (embedding_reservation e) s))) [
          | true ↦ λ x d. omega arith
          | false ↦
              on_embed_reserved-Costs l c (embedding_reservation e) s _ own alone q
                (reserved-IsBalanced l c (embedding_reservation e) s own q)
        ]

on_reserved-Costs :
    (l : Limits) (c : Circumstances) (r : Reservation) (until : Time) (s : Ledger) (t : Taken)
    → IsOwn c s
    → c.meanwhile ≡ []
    → IsBalanced s
    → IsBalanced (book s c.fresh c.day r t).0
    → let done = on_reserved l c until (book s c.fresh c.day r t) in
      Costs c r s (done.0.ledger, done.1)
on_reserved-Costs l c r until s (taken b) own alone q q' = finish-committed l c r s b own alone q q'
on_reserved-Costs l c r until s (exhausted scope) own alone q q' = λ x d. omega arith

on_wait-Costs :
    (l : Limits) (c : Circumstances) (g : Generation) (p : Process) (o : Option ℕ)
    → IsOwn c p.ledger
    → c.meanwhile ≡ []
    → IsBalanced p.ledger
    → let done = on_wait l c g p o in
      Costs c (generation_reservation g) p.ledger (done.0.ledger, done.1)
unfolding reserve
on_wait-Costs l c g p (some wait) own alone q = λ x d. omega arith
on_wait-Costs l c g p none own alone q =
    on_reserved-Costs l c (generation_reservation g) p.cooldown_until p.ledger _ own alone q
      (reserved-IsBalanced l c (generation_reservation g) p.ledger own q)

on_tier-Costs :
    (l : Limits) (c : Circumstances) (g : Generation) (p : Process) (k : Billing)
    → IsOwn c p.ledger
    → c.meanwhile ≡ []
    → IsBalanced p.ledger
    → let done = on_tier l c g p k in
      Costs c (generation_reservation g) p.ledger (done.0.ledger, done.1)
unfolding generate_on
on_tier-Costs l c g p no_billing own alone q = λ x d. omega arith
on_tier-Costs l c g p user own alone q = on_wait-Costs l c g p _ own alone q
on_tier-Costs l c g p operator own alone q = on_wait-Costs l c g p _ own alone q

-- A call of `generate` adds to each scope that pays for it, on its day, the tokens billed: input
-- and output if they are known, nothing for a failure that was not billed, else the estimate that
-- was reserved. It changes no other scope and day, and none if the provider is not called. The
-- hypotheses ask for balanced books, a new uuid, and no other caller meanwhile.
generate-Costs :
    (l : Limits) (c : Circumstances) (g : Generation) (p : Process)
    → IsOwn c p.ledger
    → c.meanwhile ≡ []
    → IsBalanced p.ledger
    → let done = generate l c g p in
      Costs c (generation_reservation g) p.ledger (done.0.ledger, done.1)
unfolding generate
generate-Costs l c g p own alone q = on_tier-Costs l c g p g.billing own alone q
