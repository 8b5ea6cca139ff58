-- ===== src/Memory/Rejections.antt =====
-- `reject_claim` of app/memory.py: what the user has rejected does not come back.
use moresocial.Memory.Operations.{
  says_same, keep_edit, has_key, subject_of, is_unknown_person, publish_to, key_of, extracted_key,
  add_rejection, edit_claim, reject_claim, publish_claim,
}
use moresocial.Memory.Conflicts.{if_rule}
use moresocial.Base.{
  truncate, first_where, refl, sym, false, subst, some, if◌then◌else◌, Bool, arith, none, [], ◌∷◌,
  ◌++◌, true, Option, ◌≡◌, text_in, List, String, Uuid,
}
use moresocial.Memory.{Source, Extracted, Claim, Claims, Python}
use moresocial.Memory.Settled.{edited, declined, published, changes, change, Change}

text_in-snoc :
    (k key : String) (ks : List String) → text_in k ks ≡ true → text_in k (ks ++ key ∷ []) ≡ true
text_in-snoc k key [] e = ground arith
text_in-snoc k key (x ∷ ks) e = let rest = text_in-snoc k key ks in ground arith

text_in-last : (key : String) (ks : List String) → text_in key (ks ++ key ∷ []) ≡ true
text_in-last key [] = ground arith
text_in-last key (x ∷ ks) = let rest = text_in-last key ks in ground arith

module _ (py : Python) (workspace_id : Uuid) where
  add_rejection-keeps :
      (k key : String) (keys : List String)
      → text_in k keys ≡ true
      → text_in k (add_rejection key keys) ≡ true
  add_rejection-keeps k key keys e =
      if_rule (λ ks. text_in k ks ≡ true) (text_in key keys) e (text_in-snoc k key keys e)

  add_rejection-has :
      (key : String) (keys : List String) → text_in key (add_rejection key keys) ≡ true
  add_rejection-has key keys = by_case (text_in key keys) refl
    where
      by_case :
          (b : Bool)
          → text_in key keys ≡ b
          → text_in key (if b then keys else keys ++ key ∷ []) ≡ true
      by_case true e = e
      by_case false e = text_in-last key keys

  change-keeps :
      (k : String) (x : Change) (m : Claims)
      → text_in k m.rejections ≡ true
      → text_in k (change py workspace_id x m).rejections ≡ true
  unfolding publish_claim reject_claim edit_claim
  change-keeps k (published fresh c p evidence) m e =
      if_rule {A = Claims × Option Uuid} (λ o. text_in k o.0.rejections ≡ true)
        (is_unknown_person (subject_of c) p) e
        (if_rule {A = Claims × Option Uuid} (λ o. text_in k o.0.rejections ≡ true)
          (text_in (extracted_key py workspace_id c p) m.rejections) e
          (to (first_where (has_key (extracted_key py workspace_id c p)) m.claims)))
    where
      to :
          (o : Option Claim)
          → text_in k (publish_to py workspace_id fresh c p evidence m o).0.rejections ≡ true
      to none = e
      to (some o) = e
  change-keeps k (declined c) m e =
      add_rejection-keeps k (key_of py workspace_id c c.value) m.rejections e
  change-keeps k (edited fresh now c value) m e =
      let said = truncate 300 (py.strip value) in
      if_rule {A = Claims} (λ o. text_in k o.rejections ≡ true) (says_same py workspace_id c said) e
        (kept said (
          first_where (has_key (key_of py workspace_id c said))
            (reject_claim py workspace_id c m).claims))
    where
      kept :
          (said : String) (o : Option Claim)
          → text_in k
              (keep_edit py workspace_id fresh now c said
                (reject_claim py workspace_id c m)
                o).rejections
            ≡ true
      kept said none = add_rejection-keeps k (key_of py workspace_id c c.value) m.rejections e
      kept said (some o) = add_rejection-keeps k (key_of py workspace_id c c.value) m.rejections e

  changes-keep :
      (k : String) (xs : List Change) (m : Claims)
      → text_in k m.rejections ≡ true
      → text_in k (changes py workspace_id xs m).rejections ≡ true
  changes-keep k [] m e = e
  changes-keep k (x ∷ xs) m e =
      changes-keep k xs (change py workspace_id x m) (change-keeps k x m e)

  -- Once the user has rejected a claim, the model can extract it again at any later time, in any
  -- wording that normalizes to the same key: nothing is published, and nothing changes.
  pub declined_stays :
      (c : Claim) (xs : List Change) (m : Claims)
      → (fresh : Uuid) (again : Extracted) (p : Option Uuid) (evidence : List Source)
      → extracted_key py workspace_id again p ≡ key_of py workspace_id c c.value
      → let later = changes py workspace_id xs (reject_claim py workspace_id c m) in
        publish_claim py workspace_id fresh again p evidence later ≡ (later, none)
  unfolding publish_claim reject_claim
  declined_stays c xs m fresh again p evidence same =
      let key = key_of py workspace_id c c.value in
      let has =
        changes-keep key xs (reject_claim py workspace_id c m)
          (add_rejection-has key m.rejections) in
      let later = changes py workspace_id xs (reject_claim py workspace_id c m) in
      stop _ _ (is_unknown_person (subject_of again) p) _
        (subst (λ k. text_in k later.rejections ≡ true) (sym same) has)
    where
      stop :
          {A : Type 0} (x y : A) (b b' : Bool)
          → b' ≡ true
          → (if b then x else if b' then x else y) ≡ x
      stop x y true b' e = refl
      stop x y false b' e = subst (λ c. (if c then x else y) ≡ x) (sym e) refl
