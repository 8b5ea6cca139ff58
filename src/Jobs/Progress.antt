-- ===== src/Jobs/Progress.antt =====
-- What `claim` hands out, and that no due job is passed over.
use mathlib.Core.Option.{none-ne-some, some-injective}
use moresocial.Jobs.Calls.{ids-sweep, earliest-All}
use moresocial.Jobs.Invariant.{IsQueue}
use native.Mathlib.Nat.{le_trans}
use moresocial.Jobs.Leases.{find_job}
use moresocial.Base.{
  Option-cases, ◌⊎◌, ◌≢◌, some-injective, if◌then◌else◌, refl, ==_refl, find-update_where, sym,
  Distinct, Distinct-find, ◌↔◌, Time, [], inr, subst, ◌∙◌, ap, inl, ◌==◌, Bool-cases, ◌∷◌, true,
  ◌≡◌, none, arith, Uuid, ℕ, ◌≤◌, some, List, Option, Bool,
}
use mathlib.Core.Option as OptionMap
use moresocial.Jobs.{
  give_up, spent, lease_to, claimable, take_row, sweep, claim, Claimer, Workspace, Option, earliest,
  Bool, earlier, Job,
}

abbrev pub EarliestDue : (Job → Bool) → List Job → ℕ → Type 0
EarliestDue p jobs t = (j : Job) × (earliest p jobs ≡ some j) × (j.run_after ≤ t)

earlier-le : (j : Job) (o : Option Job) → (earlier j o).run_after ≤ j.run_after
earlier-le j none = omega arith
earlier-le j (some k) = ground arith

earlier-le_right : (j k : Job) → (earlier j (some k)).run_after ≤ k.run_after
earlier-le_right j k = ground arith

-- A row that meets the WHERE is picked, or an earlier one is.
earliest-due :
    (p : Job → Bool) (jobs : List Job) (i : Uuid) (k : Job)
    → find_job i jobs ≡ some k
    → p k ≡ true
    → EarliestDue p jobs k.run_after
unfolding earliest
earliest-due p [] i k e h = cc
earliest-due p (x ∷ jobs) i k e h = elim (Bool-cases (x.id == i)) [
  | inl here ↦
      let same : x ≡ k = ground arith in
      (
        earlier x (earliest p jobs),
        rw (ap p same ∙ h),
        subst (λ y. (earlier x (earliest p jobs)).run_after ≤ y.run_after) same
            (earlier-le x (earliest p jobs)),
      )
  | inr there ↦
      let (j, e', le) = earliest-due p jobs i k (ground arith) h in
      elim (Bool-cases (p x)) [
        | inl yes_x ↦ (earlier x (some j), rw (yes_x, e'), le_trans (earlier-le_right x j) le)
        | inr no_x ↦ (j, rw (no_x, e'), le)
      ]
]

take_row_find :
    (c : Claimer) (now : Time) (rows : List Job) (j : Job)
    → find_job j.id rows ≡ some j
    → find_job j.id (take_row c now (some j) rows).0 ≡ some (lease_to c now j)
unfolding take_row
take_row_find c now rows j here =
    find-update_where (λ r. r.id) (λ k. k.id == j.id) (lease_to c now) j.id rows (λ r. refl)
    ∙ rw here (ap some (rw (==_refl j.id)))

module _ (ws : List Workspace) (locked : Uuid → Bool) (c : Claimer) (now : Time) where
  -- What the caller of `claim` gets when the SELECT has picked a row: the row under its lease.
  claim_picked :
      (jobs : List Job) (j : Job)
      → IsQueue jobs
      → earliest (claimable ws locked c now) (sweep now jobs) ≡ some j
      → ((claim ws locked c now jobs).1 ≡ some (lease_to c now j))
        × (find_job j.id (claim ws locked c now jobs).0 ≡ some (lease_to c now j))
        × (claimable ws locked c now j ≡ true)
        × (find_job j.id (sweep now jobs) ≡ some j)
  unfolding claim take_row
  claim_picked jobs j q e =
      let rows = sweep now jobs in
      let (here, ok) =
        earliest-All (λ r. find_job r.id rows ≡ some r) (claimable ws locked c now) rows j
          (Distinct-find (λ r. r.id) rows (subst Distinct (sym (ids-sweep now jobs)) q.keys)) e in
      let there = take_row_find c now rows j here in
      subst
        (λ o.
          ((take_row c now o rows).1 ≡ some (lease_to c now j))
          × (find_job j.id (take_row c now o rows).0 ≡ some (lease_to c now j))
          × (claimable ws locked c now j ≡ true)
          × (find_job j.id rows ≡ some j))
        (sym e) (there, there, ok, here)

  unswept :
      (o : Option Job) (j : Job)
      → claimable ws locked c now j ≡ true
      → OptionMap.map (λ r. if spent now r then give_up r else r) o ≡ some j
      → o ≡ some j
  unswept none j h e = cc
  unswept (some x) j h e = ground arith

  kept : (j : Job) → claimable ws locked c now j ≡ true → (if spent now j then give_up j else j) ≡ j
  kept j h = ground arith

  -- The sweep gives no claimable row up, and makes none.
  sweep-claimable :
      (i : Uuid) (j : Job) (jobs : List Job)
      → claimable ws locked c now j ≡ true
      → (find_job i (sweep now jobs) ≡ some j) ↔ (find_job i jobs ≡ some j)
  unfolding sweep
  sweep-claimable i j jobs h =
      let swept = find-update_where (λ r. r.id) (spent now) give_up i jobs (λ r. refl) in
      (λ e. unswept (find_job i jobs) j h (sym swept ∙ e), λ e. swept ∙ rw e (ap some (kept j h)))

  -- The SELECT picks a row or none.
  picked-cases :
      (jobs : List Job)
      → (earliest (claimable ws locked c now) (sweep now jobs) ≡ none)
        ⊎ ((j : Job) × (earliest (claimable ws locked c now) (sweep now jobs) ≡ some j))
  picked-cases jobs = Option-cases _

  none_of_picked :
      (jobs : List Job) (j : Job)
      → earliest (claimable ws locked c now) (sweep now jobs) ≡ none
      → (claim ws locked c now jobs).1 ≢ some j
  unfolding claim take_row
  none_of_picked jobs j e h =
      none-ne-some j
        (sym (subst (λ o. (take_row c now o (sweep now jobs)).1 ≡ none) (sym e) refl) ∙ h)

  -- `claim` hands out only what its WHERE allows. On a well-formed queue, the job that it returns
  -- is a row `j` of the table that was due, with attempts left, in an active workspace, of an
  -- allowed kind and not locked by another transaction; it comes back, and stands in the table,
  -- as running with one attempt more under the claimer's lease.
  pub claim_sound :
      (jobs : List Job) (got : Job)
      → IsQueue jobs
      → (claim ws locked c now jobs).1 ≡ some got
      → (j : Job) × (find_job got.id jobs ≡ some j)
        × (claimable ws locked c now j ≡ true)
        × (got ≡ lease_to c now j)
        × (find_job got.id (claim ws locked c now jobs).0 ≡ some got)
  claim_sound jobs got q h = elim (picked-cases jobs) [
    | inl e ↦ absurd (none_of_picked jobs got e h)
    | inr (j, e) ↦
        let (returned, stored, ok, here) = claim_picked jobs j q e in
        let same : lease_to c now j ≡ got = some-injective _ _ (sym returned ∙ h) in
        (
          j,
          subst (λ g. find_job g.id jobs ≡ some j) same ((sweep-claimable j.id j jobs ok).0 here),
          ok,
          sym same,
          subst (λ g. find_job g.id (claim ws locked c now jobs).0 ≡ some g) same stored,
        )
  ]

  -- No due job is passed over: if a row of a well-formed queue meets the WHERE, then `claim`
  -- returns a job, that of a row which meets the WHERE and is due no later.
  pub claim_complete :
      (jobs : List Job) (i : Uuid) (k : Job)
      → IsQueue jobs
      → find_job i jobs ≡ some k
      → claimable ws locked c now k ≡ true
      → (j : Job) × ((claim ws locked c now jobs).1 ≡ some (lease_to c now j))
        × (claimable ws locked c now j ≡ true)
        × (j.run_after ≤ k.run_after)
  claim_complete jobs i k q e h =
      let (j, pick, le) =
        earliest-due (claimable ws locked c now) (sweep now jobs) i k
          ((sweep-claimable i k jobs h).1 e) h in
      let (returned, stored, ok, here) = claim_picked jobs j q pick in (j, returned, ok, le)
