-- ===== src/Memory/Settled.antt =====
-- The claims of a workspace under `publish_claim`, `reject_claim` and `edit_claim` of app/memory.py.
use moresocial.Memory.Operations.{
  key_of, has_key, extracted_key, subject_of, says_same, is_unknown_person, confirm_as_user,
  user_claim, new_claim, publish_to, keep_edit, set_status, publish_claim, edit_claim, reject_claim,
}
use native.Mathlib.Nat.{le_trans}
use moresocial.Memory.Topics.{lives}
use moresocial.Memory.Conflicts.{
  if_rule, resolve_conflicts-lives, lives-snoc, update_where-lives, IsSettled,
}
use moresocial.Base.{
  none, first_where, text_in, truncate, some, arith, ◌≤◌, false, [], ◌≡◌, String, ◌==◌, All, ◌∷◌,
  Option, Time, List, Uuid,
}
use moresocial.Memory.{confirmed, rejected, Source, Extracted, Claims, Python, Claim}

-- What may come to the claims: the model's claims, and the user's decisions.
pub data Change : Type 0 where
  published : Uuid → Extracted → Option Uuid → List Source → Change
  declined : Claim → Change
  edited : Uuid → Time → Claim → String → Change

module _ (py : Python) (workspace_id : Uuid) where
  abbrev pub change : Change → Claims → Claims
  change (published fresh c person_id evidence) m =
      (publish_claim py workspace_id fresh c person_id evidence m).0
  change (declined c) m = reject_claim py workspace_id c m
  change (edited fresh now c value) m = edit_claim py workspace_id fresh now c value m

  -- The ids of new claims are new.
  abbrev pub IsFresh : Change → Claims → Type 0
  IsFresh (published fresh c person_id evidence) m = All (λ o. (o.id == fresh) ≡ false) m.claims
  IsFresh _ m = Unit {0}

  abbrev pub AreFresh : List Change → Claims → Type 0
  AreFresh [] m = Unit {0}
  AreFresh (x ∷ xs) m = IsFresh x m × AreFresh xs (change x m)

  abbrev pub changes : List Change → Claims → Claims
  changes [] m = m
  changes (x ∷ xs) m = changes xs (change x m)

  publish_claim-IsSettled :
      (fresh : Uuid) (c : Extracted) (person_id : Option Uuid) (evidence : List Source) (m : Claims)
      → All (λ o. (o.id == fresh) ≡ false) m.claims
      → IsSettled m
      → IsSettled (publish_claim py workspace_id fresh c person_id evidence m).0
  unfolding publish_claim
  publish_claim-IsSettled fresh c person_id evidence m new settled t single =
      if_rule {A = Claims × Option Uuid} (λ o. lives t o.0.claims ≤ 1)
        (is_unknown_person (subject_of c) person_id) (settled t single)
        (if_rule {A = Claims × Option Uuid} (λ o. lives t o.0.claims ≤ 1)
          (text_in (extracted_key py workspace_id c person_id) m.rejections) (settled t single)
          (to (first_where (has_key (extracted_key py workspace_id c person_id)) m.claims)))
    where
      to :
          (o : Option Claim)
          → lives t (publish_to py workspace_id fresh c person_id evidence m o).0.claims ≤ 1
      to none =
          resolve_conflicts-lives t (new_claim py workspace_id fresh c person_id evidence) m.claims
            new single (settled t single)
      to (some o) = settled t single

  reject_claim-IsSettled :
      (c : Claim) (m : Claims) → IsSettled m → IsSettled (reject_claim py workspace_id c m)
  unfolding reject_claim
  reject_claim-IsSettled c m settled t single =
      let less =
        update_where-lives t (λ x. x.id == c.id) (set_status rejected) m.claims
          (λ x. ground arith) in
      le_trans less (settled t single)

  edit_claim-IsSettled :
      (fresh : Uuid) (now : Time) (c : Claim) (value : String) (m : Claims)
      → IsSettled m
      → IsSettled (edit_claim py workspace_id fresh now c value m)
  unfolding edit_claim
  edit_claim-IsSettled fresh now c value m settled t single =
      let said = truncate 300 (py.strip value) in
      if_rule {A = Claims} (λ o. lives t o.claims ≤ 1) (says_same py workspace_id c said)
        (le_trans
          (update_where-lives t (λ x. x.id == c.id) (set_status confirmed) m.claims
            (λ x. ground arith))
          (settled t single))
        (kept said (
          first_where (has_key (key_of py workspace_id c said))
            (reject_claim py workspace_id c m).claims))
    where
      less : lives t (reject_claim py workspace_id c m).claims ≤ 1
      less = reject_claim-IsSettled c m settled t single

      kept :
          (said : String) (o : Option Claim)
          → lives t
              (keep_edit py workspace_id fresh now c said
                (reject_claim py workspace_id c m)
                o).claims
            ≤ 1
      kept said none =
          let l = less in
          let sum =
            lives-snoc t (reject_claim py workspace_id c m).claims
              (user_claim py workspace_id fresh now c said) in
          ground arith
      kept said (some o) =
          le_trans
            (update_where-lives t (λ x. x.id == o.id) confirm_as_user
              (reject_claim py workspace_id c m).claims (λ x. ground arith))
            less

  -- Of publish_claim, reject_claim and edit_claim, with new ids for new claims and nothing else that
  -- changes the claims in between: whatever is published, rejected or edited, claims that have at most
  -- one active one on every single-valued topic (a person's location or job) keep it so. Linking two
  -- people is not among these calls: it can bring two active claims of one topic together.
  pub changes-IsSettled :
      (xs : List Change) (m : Claims) → AreFresh xs m → IsSettled m → IsSettled (changes xs m)
  changes-IsSettled [] m fresh settled = settled
  changes-IsSettled (published new c p evidence ∷ xs) m (fresh, others) settled =
      changes-IsSettled xs (change (published new c p evidence) m) others
        (publish_claim-IsSettled new c p evidence m fresh settled)
  changes-IsSettled (declined c ∷ xs) m (fresh, others) settled =
      changes-IsSettled xs (reject_claim py workspace_id c m) others
        (reject_claim-IsSettled c m settled)
  changes-IsSettled (edited new now c value ∷ xs) m (fresh, others) settled =
      changes-IsSettled xs (edit_claim py workspace_id new now c value m) others
        (edit_claim-IsSettled new now c value m settled)
