-- ===== src/Jobs/Unique.antt =====
-- The unique constraint on (workspace_id, idempotency_key) of the job table.
use moresocial.Base.{
  inr, sym, true, refl, none, subst, inl, ◌==◌, truncate, All-append, some, Bool-cases, arith,
  if◌then◌else◌, Option, [], ◌++◌, false, Time, update_where, ◌∷◌, Bool, Uuid, ◌≡◌, List,
}
use moresocial.Jobs.Calls.{
  cancel_call, defer_call, fail_call, complete_call, renew_call, claim_call, enqueue_call, Call,
  step, run,
}
use moresocial.Jobs.{
  call_off, cancellable, postpone, fail_job, held_by, finish, extend_lease, leased_to, give_up,
  spent, claimable, earliest, new_job, cancel, defer, lease_to, fail, complete, renew, Request,
  sweep, same_key, Claimer, claim, take_row, Job, enqueue,
}
use moresocial.Jobs.Keys.{HasNo, UniqueKeys, KeepsKey, has_key}

HasNo-update_where :
    (i j : Job) (p : Job → Bool) (f : Job → Job) (jobs : List Job)
    → KeepsKey f
    → (i.workspace_id ≡ j.workspace_id) × (i.idempotency_key ≡ j.idempotency_key)
    → HasNo j jobs
    → HasNo i (update_where p f jobs)
HasNo-update_where i j p f [] same e h = tt
HasNo-update_where i j p f (k ∷ jobs) same e h = (
  ground (arith, (same k).0, (same k).1, e.0, e.1, h.0),
  HasNo-update_where i j p f jobs same e h.1,
)

UniqueKeys-update_where :
    (p : Job → Bool) (f : Job → Job) (jobs : List Job)
    → KeepsKey f
    → UniqueKeys jobs
    → UniqueKeys (update_where p f jobs)
UniqueKeys-update_where p f [] same u = tt
UniqueKeys-update_where p f (j ∷ jobs) same u = (
  HasNo-update_where (if p j then f j else j) j p f jobs same
      (ground (arith, (same j).0), ground (arith, (same j).1)) u.0,
  UniqueKeys-update_where p f jobs same u.1,
)

HasNo-snoc :
    (i j : Job) (jobs : List Job)
    → HasNo i jobs
    → same_key i.workspace_id i.idempotency_key j ≡ false
    → HasNo i (jobs ++ j ∷ [])
HasNo-snoc i j jobs h e =
    All-append (λ k. same_key i.workspace_id i.idempotency_key k ≡ false) jobs (j ∷ []) h (e, tt)

UniqueKeys-snoc :
    (jobs : List Job) (j : Job)
    → UniqueKeys jobs
    → has_key j.workspace_id j.idempotency_key jobs ≡ false
    → UniqueKeys (jobs ++ j ∷ [])
UniqueKeys-snoc [] j u h = (tt, tt)
UniqueKeys-snoc (k ∷ jobs) j u h =
    (HasNo-snoc k j jobs u.0 (ground arith), UniqueKeys-snoc jobs j u.1 (ground arith))

UniqueKeys-take_row :
    (c : Claimer) (now : Time) (o : Option Job) (rows : List Job)
    → UniqueKeys rows
    → UniqueKeys (take_row c now o rows).0
unfolding take_row
UniqueKeys-take_row c now none rows u = u
UniqueKeys-take_row c now (some j) rows u =
    UniqueKeys-update_where (λ k. k.id == j.id) (lease_to c now) rows (λ k. (refl, refl)) u

UniqueKeys-enqueue :
    (fresh : Uuid) (now : Time) (r : Request) (jobs : List Job)
    → UniqueKeys jobs
    → UniqueKeys (enqueue fresh now r jobs).0
unfolding enqueue
UniqueKeys-enqueue fresh now r jobs u =
    elim (Bool-cases (has_key r.workspace_id (truncate 200 r.key) jobs)) [
      | inl old ↦
          subst
            (λ b.
              UniqueKeys
                (if◌then◌else◌ {A = List Job × Bool} b (jobs, false)
                  (jobs ++ new_job fresh now r ∷ [], true)).0)
            (sym old) u
      | inr new ↦
          subst
            (λ b.
              UniqueKeys
                (if◌then◌else◌ {A = List Job × Bool} b (jobs, false)
                  (jobs ++ new_job fresh now r ∷ [], true)).0)
            (sym new) (UniqueKeys-snoc jobs (new_job fresh now r) u (unfold new_job in new))
    ]

step-UniqueKeys : (c : Call) (jobs : List Job) → UniqueKeys jobs → UniqueKeys (step c jobs)
unfolding step claim sweep renew complete fail defer cancel
step-UniqueKeys (enqueue_call fresh now r) jobs u = UniqueKeys-enqueue fresh now r jobs u
step-UniqueKeys (claim_call ws locked c now) jobs u =
    UniqueKeys-take_row c now (earliest (claimable ws locked c now) (sweep now jobs))
      (sweep now jobs) (UniqueKeys-update_where (spent now) give_up jobs (λ j. (refl, refl)) u)
step-UniqueKeys (renew_call id owner lease now) jobs u =
    UniqueKeys-update_where (leased_to id owner) (extend_lease lease now) jobs (λ j. (refl, refl)) u
step-UniqueKeys (complete_call id owner) jobs u =
    UniqueKeys-update_where (leased_to id owner) finish jobs (λ j. (refl, refl)) u
step-UniqueKeys (fail_call id owner f now) jobs u =
    UniqueKeys-update_where (held_by id owner) (fail_job f now) jobs
      (λ j. unfold fail_job in (ground arith, ground arith)) u
step-UniqueKeys (defer_call id owner until reason) jobs u =
    UniqueKeys-update_where (held_by id owner) (postpone until reason) jobs (λ j. (refl, refl)) u
step-UniqueKeys (cancel_call w kinds) jobs u =
    UniqueKeys-update_where (cancellable w kinds) call_off jobs (λ j. (refl, refl)) u

-- Whatever calls are made on a table in which no two rows share workspace and key, none do after.
pub run-UniqueKeys : (cs : List Call) (jobs : List Job) → UniqueKeys jobs → UniqueKeys (run cs jobs)
unfolding run
run-UniqueKeys [] jobs u = u
run-UniqueKeys (c ∷ cs) jobs u = run-UniqueKeys cs (step c jobs) (step-UniqueKeys c jobs u)
