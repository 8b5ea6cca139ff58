-- ===== src/Memory/Topics.antt =====
-- `resolve_conflicts` of app/memory.py: on a single-valued topic at most one claim is active.
use moresocial.Base.{
  ◌≤◌, ◌+◌, refl, ◌==◌, none, some, false, arith, ◌&&◌, true, Uuid, Bool, sum_by, if◌then◌else◌,
  ◌≡◌, String, Option, ℕ, List,
}
use moresocial.Memory.{
  Topic, topic_of, face, is_rival, person, self, active, is_single_valued, same_attribute,
  same_person, same_subject, Subject, same_topic, ClaimStatus, Claim,
}

abbrev pub is_live : ClaimStatus → Bool
is_live active = true
is_live _ = false

abbrev pub live : Topic → Claim → ℕ
live t c = if same_topic (topic_of c) t && is_live c.status then 1 else 0

abbrev pub lives : Topic → List Claim → ℕ
lives t = sum_by (live t)

same_subject_trans :
    (a b t : Subject) → same_subject a t ≡ true → same_subject b t ≡ true → same_subject b a ≡ true
same_subject_trans person person t e q = refl
same_subject_trans self self t e q = refl
same_subject_trans person self person e q = q
same_subject_trans person self self e q = e
same_subject_trans self person person e q = e
same_subject_trans self person self e q = q

same_attribute_trans :
    (a b t : Option String)
    → same_attribute a t ≡ true
    → same_attribute b t ≡ true
    → same_attribute b a ≡ true
same_attribute_trans none none t e q = refl
same_attribute_trans none (some b) none e q = q
same_attribute_trans none (some b) (some t) e q = e
same_attribute_trans (some a) none none e q = e
same_attribute_trans (some a) none (some t) e q = q
same_attribute_trans (some a) (some b) none e q = ground arith
same_attribute_trans (some a) (some b) (some t) e q = ground arith

same_person_trans :
    (a b t : Option Uuid) → same_person a t ≡ true → same_person b t ≡ true → same_person b a ≡ true
same_person_trans none none t e q = refl
same_person_trans none (some b) none e q = q
same_person_trans none (some b) (some t) e q = e
same_person_trans (some a) none none e q = e
same_person_trans (some a) none (some t) e q = q
same_person_trans (some a) (some b) none e q = ground arith
same_person_trans (some a) (some b) (some t) e q = ground arith

-- What is on one topic with a third is on one topic.
pub same_topic_trans :
    (a b t : Topic) → same_topic a t ≡ true → same_topic b t ≡ true → same_topic b a ≡ true
unfolding same_topic
same_topic_trans a b t e q =
    let s = same_subject_trans a.subject b.subject t.subject in
    let r = same_attribute_trans a.attribute b.attribute t.attribute in
    let p = same_person_trans a.person_id b.person_id t.person_id in ground arith

pub same_attribute-single :
    (a t : Option String)
    → same_attribute a t ≡ true
    → is_single_valued t ≡ true
    → is_single_valued a ≡ true
same_attribute-single none none e s = s
same_attribute-single (some a) (some t) e s = ground arith
same_attribute-single none (some t) e s = ground arith
same_attribute-single (some a) none e s = ground arith

-- A row that a new claim meets.
abbrev pub met : Claim → Claim → Claim × Claim
met claim o = if is_rival claim o then face claim o else (claim, o)

pub met-topic : (claim o : Claim) → topic_of (met claim o).0 ≡ topic_of claim
met-topic claim o = ground arith

pub met-id : (claim o : Claim) → (met claim o).0.id ≡ claim.id
met-id claim o = ground arith

pub met-le : (t : Topic) (claim o : Claim) → live t (met claim o).1 ≤ live t o
met-le t claim o = ground arith

pub met-lives :
    (t : Topic) (claim o : Claim) (k : ℕ)
    → (o.id == claim.id) ≡ false
    → same_topic (topic_of claim) t ≡ true
    → k + live t claim ≤ 1
    → k + live t o ≤ 1
    → k + live t (met claim o).1 + live t (met claim o).0 ≤ 1
met-lives t claim o k new same le le' =
    let rivals = same_topic_trans (topic_of claim) (topic_of o) t same in ground arith
