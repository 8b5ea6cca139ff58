-- ===== src/Budget/Settled.antt =====
-- The budgeted calls: however the provider ends, no reservation stays open.
use moresocial.Budget.Calls.{run-other, run, reconcile-open-find, IsOther}
use moresocial.Base.{
  none, ℕ, Option, ==_iff, refl, ◌⊎◌, arith, inr, inl, [], false, ◌∷◌, map, if◌then◌else◌, some,
  ◌≢◌, ◌==◌, true, All, ◌≡◌, find, ◌++◌, Time, Bool, List, Uuid,
}
use moresocial.Budget.Generate.{
  on_wait, on_tier, not_configured, billed, finish_call, on_reserved, on_embed_reserved,
  generation_reservation, embedding_reservation, Process, provider_ended, Embedding, Generation,
  Ended, Circumstances, embed, generate, generate_on,
}
use moresocial.Budget.{
  operator, user, no_billing, Billing, exhausted, taken, book, settle_usage, new_usage, Taken,
  ProviderUsage, Reservation, Ledger, Limits, Budgets, reserve,
}

abbrev pub is_called : Ended → Bool
is_called (provider_ended o) = true
is_called _ = false

-- Either the provider was called and the call's row is settled by how it ended, or it was not
-- called and the ledger is as it was.
abbrev pub IsSettled : Circumstances → Reservation → Ledger → Ledger × Ended → Type 0
IsSettled c r s (s', ended) =
    (ended ≡ provider_ended c.outcome)
      × (find (λ u. u.id) c.fresh s'.usages
          ≡ some (settle_usage (billed c.outcome) (new_usage c.fresh c.day r)))
    ⊎ (is_called ended ≡ false) × (s' ≡ s)

-- The uuid4 is new, and the others do not use it.
abbrev pub IsOwn : Circumstances → Ledger → Type 0
IsOwn c s = All (λ i. i ≢ c.fresh) (map (λ u. u.id) s.usages) × All (IsOther c.fresh) c.meanwhile

pub find-snoc :
    (k : Uuid) (us : List ProviderUsage) (u : ProviderUsage)
    → All (λ i. i ≢ k) (map (λ v. v.id) us)
    → u.id ≡ k
    → find (λ v. v.id) k (us ++ u ∷ []) ≡ some u
find-snoc k [] u new e = ground (arith, ==_iff u.id k)
find-snoc k (v ∷ us) u new e = ground (arith, new.0, find-snoc k us u new.1 e, ==_iff v.id k)

abbrev pub reserved_ledger : Budgets → Circumstances → Reservation → Ledger → Ledger
reserved_ledger b c r s = record {
  budgets = b;
  usages = s.usages ++ new_usage c.fresh c.day r ∷ [];
}

finish-find :
    (l : Limits) (c : Circumstances) (r : Reservation) (s : Ledger) (b : Budgets)
    → IsOwn c s
    → find (λ u. u.id) c.fresh (finish_call l c c.fresh (reserved_ledger b c r s)).usages
      ≡ some (settle_usage (billed c.outcome) (new_usage c.fresh c.day r))
finish-find l c r s b own =
    reconcile-open-find l c.fresh (billed c.outcome) (run l c.meanwhile (reserved_ledger b c r s))
      (new_usage c.fresh c.day r)
      (run-other l c.fresh c.meanwhile (reserved_ledger b c r s) (new_usage c.fresh c.day r) own.1
        (find-snoc c.fresh s.usages (new_usage c.fresh c.day r) own.0 refl))
      refl

on_embed_reserved-IsSettled :
    (l : Limits) (c : Circumstances) (r : Reservation) (s : Ledger) (t : Taken)
    → IsOwn c s
    → IsSettled c r s (on_embed_reserved l c (book s c.fresh c.day r t))
on_embed_reserved-IsSettled l c r s (taken b) own = inl (refl, finish-find l c r s b own)
on_embed_reserved-IsSettled l c r s (exhausted scope) own = inr (refl, refl)

-- However the embedder ends, and whatever other callers commit meanwhile, `embed` leaves its call
-- settled by the outcome; where it does not reach the embedder it leaves the ledger as it was. The
-- uuid is new and its own.
embed-IsSettled :
    (l : Limits) (c : Circumstances) (e : Embedding) (s : Ledger)
    → IsOwn c s
    → IsSettled c (embedding_reservation e) s (embed l c e s)
unfolding embed reserve
embed-IsSettled l c e s own =
    elim (e.embedding_dimension == 0)
      as (λ b. IsSettled c (embedding_reservation e) s (
        if b
        then (s, not_configured)
        else on_embed_reserved l c (reserve l c.fresh c.day (embedding_reservation e) s))) [
          | true ↦ inr (refl, refl)
          | false ↦ on_embed_reserved-IsSettled l c (embedding_reservation e) s _ own
        ]

on_reserved-IsSettled :
    (l : Limits) (c : Circumstances) (r : Reservation) (until : Time) (s : Ledger) (t : Taken)
    → IsOwn c s
    → let done = on_reserved l c until (book s c.fresh c.day r t) in
      IsSettled c r s (done.0.ledger, done.1)
on_reserved-IsSettled l c r until s (taken b) own = inl (refl, finish-find l c r s b own)
on_reserved-IsSettled l c r until s (exhausted scope) own = inr (refl, refl)

on_wait-IsSettled :
    (l : Limits) (c : Circumstances) (g : Generation) (p : Process) (o : Option ℕ)
    → IsOwn c p.ledger
    → let done = on_wait l c g p o in
      IsSettled c (generation_reservation g) p.ledger (done.0.ledger, done.1)
unfolding reserve
on_wait-IsSettled l c g p (some wait) own = inr (refl, refl)
on_wait-IsSettled l c g p none own =
    on_reserved-IsSettled l c (generation_reservation g) p.cooldown_until p.ledger _ own

on_tier-IsSettled :
    (l : Limits) (c : Circumstances) (g : Generation) (p : Process) (k : Billing)
    → IsOwn c p.ledger
    → let done = on_tier l c g p k in
      IsSettled c (generation_reservation g) p.ledger (done.0.ledger, done.1)
unfolding generate_on
on_tier-IsSettled l c g p no_billing own = inr (refl, refl)
on_tier-IsSettled l c g p user own = on_wait-IsSettled l c g p _ own
on_tier-IsSettled l c g p operator own = on_wait-IsSettled l c g p _ own

-- However the provider ends, and whatever other callers commit meanwhile, `generate` leaves its
-- call settled by the outcome; where it does not reach the provider (not configured, cooling down,
-- over a limit) it leaves the ledger as it was. The uuid is new and its own.
pub generate-IsSettled :
    (l : Limits) (c : Circumstances) (g : Generation) (p : Process)
    → IsOwn c p.ledger
    → let done = generate l c g p in
      IsSettled c (generation_reservation g) p.ledger (done.0.ledger, done.1)
unfolding generate
generate-IsSettled l c g p own = on_tier-IsSettled l c g p g.billing own
