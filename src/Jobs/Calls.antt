-- ===== src/Jobs/Calls.antt =====
-- The calls of app/jobs.py as data, their sequences, and how a predicate of rows is carried
-- through the two statements of `claim`.
use moresocial.Base.{
  ◌∙◌, ℕ, ◌≡◌, refl, sym, subst, Uuid, Time, String, Bool, true, false, Option, none, some, List,
  [], ◌∷◌, map, All, Distinct, IsOnly, Distinct-IsOnly, map-update_where, update_where-All,
  update_where-All_where, some-injective, ◌==◌, ==_iff, leb, if◌then◌else◌,
}
use moresocial.Jobs.{
  Workspace, Job, Request, Claimer, Failure, enqueue, spent, give_up, sweep, claimable, earlier,
  earliest, lease_to, take_row, claim, renew, complete, fail, defer, cancel,
}

-- A call of the module, with what its caller and the clock give it.
pub data Call : Type 0 where
  enqueue_call : Uuid → Time → Request → Call
  claim_call : List Workspace → (Uuid → Bool) → Claimer → Time → Call
  renew_call : Uuid → String → ℕ → Time → Call
  complete_call : Uuid → String → Call
  fail_call : Uuid → String → Failure → Time → Call
  defer_call : Uuid → String → Time → String → Call
  cancel_call : Uuid → Option (List String) → Call

unfoldable pub step : Call → List Job → List Job
step (enqueue_call fresh now r) jobs = (enqueue fresh now r jobs).0
step (claim_call ws locked c now) jobs = (claim ws locked c now jobs).0
step (renew_call id owner lease now) jobs = (renew id owner lease now jobs).0
step (complete_call id owner) jobs = (complete id owner jobs).0
step (fail_call id owner f now) jobs = fail id owner f now jobs
step (defer_call id owner until reason) jobs = defer id owner until reason jobs
step (cancel_call wid kinds) jobs = (cancel wid kinds jobs).0

-- Transactions in the order in which they commit.
unfoldable pub run : List Call → List Job → List Job
run [] jobs = jobs
run (c ∷ cs) jobs = run cs (step c jobs)

abbrev pub ids : List Job → List ℕ
ids = map (λ j. j.id)

-- The row that a SELECT with ORDER BY picks satisfies its condition.
pub earliest-All {κ} :
    (P : Job → Type κ) (p : Job → Bool) (jobs : List Job) (j : Job)
    → All P jobs
    → earliest p jobs ≡ some j
    → P j × (p j ≡ true)
unfolding earliest
earliest-All P p [] j h e = cc
earliest-All P p (k ∷ jobs) j h e =
    picked (p k) (earliest p jobs) refl (λ x. earliest-All P p jobs x h.1) e
  where
    first :
        (b : Bool) (l : Job)
        → p k ≡ true
        → P l × (p l ≡ true)
        → (if b then k else l) ≡ j
        → P j × (p j ≡ true)
    first true l pk later q = subst (λ x. P x × (p x ≡ true)) q (h.0, pk)
    first false l pk later q = subst (λ x. P x × (p x ≡ true)) q later

    picked :
        (b : Bool) (rest : Option Job)
        → p k ≡ b
        → ((x : Job) → rest ≡ some x → P x × (p x ≡ true))
        → (if b then some (earlier k rest) else rest) ≡ some j
        → P j × (p j ≡ true)
    picked false rest pk later q = later j q
    picked true none pk later q = subst (λ x. P x × (p x ≡ true)) (some-injective k j q) (h.0, pk)
    picked true (some l) pk later q =
        first (leb k.run_after l.run_after) l pk (later l refl) (some-injective _ j q)

pub ids-sweep : (now : Time) (jobs : List Job) → ids (sweep now jobs) ≡ ids jobs
unfolding sweep
ids-sweep now jobs = map-update_where (λ j. j.id) (spent now) give_up jobs (λ j. refl)

-- Only the picked row gets the lease.
take_row-All {κ} :
    (P : Job → Type κ) (c : Claimer) (now : Time) (rows : List Job) (j : Job)
    → All P rows
    → IsOnly (λ k. k.id) rows j
    → (P j → P (lease_to c now j))
    → All P (take_row c now (some j) rows).0
unfolding take_row
take_row-All P c now rows j h only leased =
    update_where-All_where P (λ k. k.id ≡ j.id → k ≡ j) (λ k. k.id == j.id) (lease_to c now) rows
      (λ k pk same e.
        let q = same ((==_iff k.id j.id).0 e) in
        subst (λ x. P (lease_to c now x)) (sym q) (leased (subst P q pk)))
      h only

ids-take_row :
    (c : Claimer) (now : Time) (o : Option Job) (rows : List Job)
    → ids (take_row c now o rows).0 ≡ ids rows
unfolding take_row
ids-take_row c now none rows = refl
ids-take_row c now (some j) rows =
    map-update_where (λ k. k.id) (λ k. k.id == j.id) (lease_to c now) rows (λ k. refl)

pub ids-claim :
    (ws : List Workspace) (locked : Uuid → Bool) (c : Claimer) (now : Time) (jobs : List Job)
    → ids (claim ws locked c now jobs).0 ≡ ids jobs
unfolding claim
ids-claim ws locked c now jobs = ids-take_row c now _ (sweep now jobs) ∙ ids-sweep now jobs

-- A predicate of rows passes through `claim` if the sweep keeps it where it gives a row up, and
-- the lease where the WHERE holds.
pub claim-All {κ} :
    (P : Job → Type κ) (ws : List Workspace) (locked : Uuid → Bool) (c : Claimer) (now : Time)
    (jobs : List Job)
    → ((j : Job) → P j → spent now j ≡ true → P (give_up j))
    → ((j : Job) → P j → claimable ws locked c now j ≡ true → P (lease_to c now j))
    → Distinct (ids jobs)
    → All P jobs
    → All P (claim ws locked c now jobs).0
unfolding claim
claim-All P ws locked c now jobs swept leased d h = taken (earliest where_clause rows) refl
  where
    where_clause : Job → Bool
    where_clause = claimable ws locked c now

    rows : List Job
    rows = sweep now jobs

    kept : All P rows
    kept = update_where-All P (spent now) give_up jobs swept h

    only : All (IsOnly (λ j. j.id) rows) rows
    only = Distinct-IsOnly (λ j. j.id) rows (subst Distinct (sym (ids-sweep now jobs)) d)

    taken : (o : Option Job) → earliest where_clause rows ≡ o → All P (take_row c now o rows).0
    taken none e = kept
    taken (some j) e =
        let (alone, ok) = earliest-All (IsOnly (λ k. k.id) rows) where_clause rows j only e in
        take_row-All P c now rows j kept alone (λ pj. leased j pj ok)
