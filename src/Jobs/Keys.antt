-- ===== src/Jobs/Keys.antt =====
-- Idempotency: a (workspace, key) pair stands in the table at most once, and for good.
use moresocial.Jobs.Invariant.{enqueue-cases}
use moresocial.Jobs.Calls.{
  cancel_call, defer_call, fail_call, complete_call, renew_call, claim_call, enqueue_call, Call,
  step, run,
}
use moresocial.Base.{
  none, ◌==◌, some, Option, refl, ◌∙◌, sym, subst, exists_where-append, inr, inl,
  exists_where-update_where, Bool-cases, arith, false, truncate, update_where, exists_where, true,
  [], Bool, Time, String, ◌∷◌, All, ◌≡◌, List, Uuid,
}
use moresocial.Jobs.{
  lease_to, give_up, take_row, spent, call_off, cancellable, postpone, fail_job, held_by, finish,
  extend_lease, leased_to, new_job, cancel, defer, fail, Claimer, Request, same_key, complete,
  Workspace, sweep, renew, List, claim, enqueue, Uuid, Job,
}

abbrev pub has_key : Uuid → String → List Job → Bool
has_key wid key = exists_where (same_key wid key)

abbrev pub HasNo : Job → List Job → Type 0
HasNo j jobs = All (λ k. same_key j.workspace_id j.idempotency_key k ≡ false) jobs

-- No two rows share workspace and key: the table's unique constraint.
abbrev pub UniqueKeys : List Job → Type 0
UniqueKeys [] = Unit
UniqueKeys (j ∷ jobs) = HasNo j jobs × UniqueKeys jobs

-- Updates that leave both columns.
abbrev pub KeepsKey : (Job → Job) → Type 0
KeepsKey f =
    (j : Job) → ((f j).workspace_id ≡ j.workspace_id) × ((f j).idempotency_key ≡ j.idempotency_key)

has_key-update_where :
    (wid : Uuid) (key : String) (p : Job → Bool) (f : Job → Job) (jobs : List Job)
    → KeepsKey f
    → has_key wid key (update_where p f jobs) ≡ has_key wid key jobs
has_key-update_where wid key p f jobs same =
    exists_where-update_where (same_key wid key) p f jobs
      (λ j. ground (arith, (same j).0, (same j).1))

same_key_refl :
    (wid : Uuid) (key : String) (j : Job)
    → j.workspace_id ≡ wid
    → j.idempotency_key ≡ key
    → same_key wid key j ≡ true
same_key_refl wid key j e f = ground arith

-- Whatever `enqueue` answers, the key stands in the table after it.
has_key-enqueue :
    (fresh : Uuid) (now : Time) (r : Request) (jobs : List Job)
    → has_key r.workspace_id (truncate 200 r.key) (enqueue fresh now r jobs).0 ≡ true
unfolding enqueue
has_key-enqueue fresh now r jobs =
    elim (Bool-cases (has_key r.workspace_id (truncate 200 r.key) jobs)) [
      | inl old ↦ rw old old
      | inr new ↦ rw new (
          rw
            (exists_where-append (same_key r.workspace_id (truncate 200 r.key)) jobs
              (new_job fresh now r ∷ []))
            (unfold new_job in ground arith))
    ]

has_key-take_row :
    (wid : Uuid) (key : String) (c : Claimer) (now : Time) (o : Option Job) (rows : List Job)
    → has_key wid key (take_row c now o rows).0 ≡ has_key wid key rows
unfolding take_row
has_key-take_row wid key c now none rows = refl
has_key-take_row wid key c now (some j) rows =
    has_key-update_where wid key (λ k. k.id == j.id) (lease_to c now) rows (λ k. (refl, refl))

has_key-claim :
    (wid : Uuid) (key : String) (ws : List Workspace) (locked : Uuid → Bool) (c : Claimer)
    (now : Time) (jobs : List Job)
    → has_key wid key (claim ws locked c now jobs).0 ≡ has_key wid key jobs
unfolding claim sweep
has_key-claim wid key ws locked c now jobs =
    has_key-take_row wid key c now _ (sweep now jobs)
    ∙ has_key-update_where wid key (spent now) give_up jobs (λ j. (refl, refl))

-- No call takes a key away.
has_key-step :
    (wid : Uuid) (key : String) (c : Call) (jobs : List Job)
    → has_key wid key jobs ≡ true
    → has_key wid key (step c jobs) ≡ true
unfolding step renew complete fail defer cancel
has_key-step wid key (enqueue_call fresh now r) jobs h = elim (enqueue-cases fresh now r jobs) [
  | inl old ↦ subst (λ x. has_key wid key x.0 ≡ true) (sym old) h
  | inr added ↦
      subst (λ x. has_key wid key x.0 ≡ true) (sym added)
        (rw (exists_where-append (same_key wid key) jobs (new_job fresh now r ∷ []), h))
]
has_key-step wid key (claim_call ws locked c now) jobs h =
    has_key-claim wid key ws locked c now jobs ∙ h
has_key-step wid key (renew_call id owner lease now) jobs h =
    has_key-update_where wid key (leased_to id owner) (extend_lease lease now) jobs
      (λ j. (refl, refl))
    ∙ h
has_key-step wid key (complete_call id owner) jobs h =
    has_key-update_where wid key (leased_to id owner) finish jobs (λ j. (refl, refl)) ∙ h
has_key-step wid key (fail_call id owner f now) jobs h =
    has_key-update_where wid key (held_by id owner) (fail_job f now) jobs
      (λ j. unfold fail_job in (ground arith, ground arith))
    ∙ h
has_key-step wid key (defer_call id owner until reason) jobs h =
    has_key-update_where wid key (held_by id owner) (postpone until reason) jobs (λ j. (refl, refl))
    ∙ h
has_key-step wid key (cancel_call w kinds) jobs h =
    has_key-update_where wid key (cancellable w kinds) call_off jobs (λ j. (refl, refl)) ∙ h

has_key-run :
    (wid : Uuid) (key : String) (cs : List Call) (jobs : List Job)
    → has_key wid key jobs ≡ true
    → has_key wid key (run cs jobs) ≡ true
unfolding run
has_key-run wid key [] jobs h = h
has_key-run wid key (c ∷ cs) jobs h =
    has_key-run wid key cs (step c jobs) (has_key-step wid key c jobs h)

-- Enqueueing is idempotent for good: once a request has been made, then after any calls of the
-- module at all (its job may be running, done, failed or cancelled) a request of the same
-- workspace with the same first 200 characters of key is answered `False` and changes nothing.
pub enqueue_once :
    (fresh fresh' : Uuid) (now now' : Time) (r r' : Request) (cs : List Call) (jobs : List Job)
    → r'.workspace_id ≡ r.workspace_id
    → truncate 200 r'.key ≡ truncate 200 r.key
    → let after = run cs (enqueue fresh now r jobs).0 in
      enqueue fresh' now' r' after ≡ (after, false)
unfolding enqueue
enqueue_once fresh fresh' now now' r r' cs jobs w k =
    rw (
      w,
      k,
      has_key-run r.workspace_id (truncate 200 r.key) cs _ (has_key-enqueue fresh now r jobs),
    )
