-- ===== src/Memory/Conflicts.antt =====
-- The loop of `resolve_conflicts` of app/memory.py over the rivals of a new claim.
use moresocial.Memory.Operations.{add_claim}
use moresocial.Memory.Topics.{
  same_attribute-single, met-id, met-topic, met-lives, met-le, met, live, lives,
}
use moresocial.Base.{
  inr, inl, Bool-cases, ap, if◌then◌else◌, sym, refl, subst, ◌∙◌, sum_by-append, [], ◌+◌, ◌∷◌,
  false, update_where, arith, true, ◌==◌, ◌≤◌, ◌++◌, ◌≡◌, Bool, All, ℕ, List,
}
use moresocial.Memory.{
  same_topic, topic_of, is_single_valued, Topic, resolve_conflicts, Claims, face_all, Claim,
}

abbrev pub IsNew : Claim → List Claim → Type 0
IsNew claim = All λ o. (o.id == claim.id) ≡ false

face_all-lives :
    (t : Topic) (claim : Claim) (os : List Claim) (k : ℕ)
    → IsNew claim os
    → same_topic (topic_of claim) t ≡ true
    → k + live t claim ≤ 1
    → k + lives t os ≤ 1
    → k + lives t (face_all claim os).1 + live t (face_all claim os).0 ≤ 1
unfolding face_all
face_all-lives t claim [] k new same le le' = ground arith
face_all-lives t claim (o ∷ os) k (new, others) same le le' =
    let c = (met claim o).0 in
    let step = met-lives t claim o k new same le (ground arith) in
    let less = met-le t claim o in
    let rest =
      face_all-lives t c os (k + live t (met claim o).1)
        (subst (λ i. All (λ x. (x.id == i) ≡ false) os) (sym (met-id claim o)) others)
        (subst (λ i. same_topic i t ≡ true) (sym (met-topic claim o)) same) step (omega arith) in
    omega arith

face_all-le :
    (t : Topic) (claim : Claim) (os : List Claim) → lives t (face_all claim os).1 ≤ lives t os
unfolding face_all
face_all-le t claim [] = omega arith
face_all-le t claim (o ∷ os) =
    let less = met-le t claim o in let rest = face_all-le t (met claim o).0 os in omega arith

face_all-topic : (claim : Claim) (os : List Claim) → topic_of (face_all claim os).0 ≡ topic_of claim
unfolding face_all
face_all-topic claim [] = refl
face_all-topic claim (o ∷ os) = face_all-topic (met claim o).0 os ∙ met-topic claim o

-- Of the claims on each single-valued topic at most one is active.
abbrev pub IsSettled : Claims → Type 0
IsSettled m = (t : Topic) → is_single_valued t.attribute ≡ true → lives t m.claims ≤ 1

pub lives-snoc :
    (t : Topic) (os : List Claim) (c : Claim) → lives t (os ++ c ∷ []) ≡ lives t os + live t c
lives-snoc t os c = let e = sum_by-append (live t) os (c ∷ []) in omega arith

pub if_rule :
    {A : Type 0} (P : A → Type 0) {x y : A} (b : Bool) → P x → P y → P (if b then x else y)
if_rule P true p q = p
if_rule P false p q = q

same_topic-single :
    (a t : Topic)
    → is_single_valued t.attribute ≡ true
    → same_topic a t ≡ true
    → is_single_valued a.attribute ≡ true
unfolding same_topic
same_topic-single a t single e = same_attribute-single a.attribute t.attribute (ground arith) single

pub resolve_conflicts-lives :
    (t : Topic) (claim : Claim) (os : List Claim)
    → IsNew claim os
    → is_single_valued t.attribute ≡ true
    → lives t os ≤ 1
    → lives t (add_claim (resolve_conflicts claim os)) ≤ 1
unfolding resolve_conflicts
resolve_conflicts-lives t claim os new single le = by_kind (is_single_valued claim.attribute) refl
  where
    by_kind :
        (b : Bool)
        → is_single_valued claim.attribute ≡ b
        → lives t (add_claim (if b then face_all claim os else (claim, os))) ≤ 1
    by_kind true e =
        let sum = lives-snoc t (face_all claim os).1 (face_all claim os).0 in
        let less = face_all-le t claim os in
        let topic = face_all-topic claim os in
        let here = ap (λ i. same_topic i t) topic in
        elim (Bool-cases (same_topic (topic_of claim) t)) [
          | inl same ↦
              let alone = face_all-lives t claim os 0 new same (ground arith) (omega arith) in
              omega arith
          | inr differs ↦ ground arith
        ]
    by_kind false e =
        let sum = lives-snoc t os claim in
        let other = same_topic-single (topic_of claim) t in ground arith

pub update_where-lives :
    (t : Topic) (p : Claim → Bool) (f : Claim → Claim) (cs : List Claim)
    → ((c : Claim) → live t (f c) ≤ live t c)
    → lives t (update_where p f cs) ≤ lives t cs
update_where-lives t p f [] less = omega arith
update_where-lives t p f (c ∷ cs) less =
    let rest = update_where-lives t p f cs less in let here = less c in ground arith
