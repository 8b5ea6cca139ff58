-- ===== src/Ingest/Owners.antt =====
-- Whose an identifier is: how `resolve_person`, `upsert` and `register_contacts` of app/ingest.py
-- change the table PersonIdentifier.
use mathlib.Core.Option
use moresocial.Base.{
  inr, subst, inl, Bool-cases, ◌∙◌, if◌then◌else◌, refl, ◌+◌, arith, [], ◌≤◌, false, ◌++◌, none,
  delete_where, ◌∷◌, ◌≡◌, count_where, exists_where, first_where, Option, update_where, Bool, some,
  List, Uuid, String,
}
use moresocial.Ingest.{PersonIdentifier}
use moresocial.Ingest.People.{is_value}

abbrev set_label : String → PersonIdentifier → PersonIdentifier
set_label label i = record i { label = some label }

-- The table after labels are set and new identifiers are one_added.
pub data Grown (a : List PersonIdentifier) : List PersonIdentifier → Type 0 where
  as_is : Grown a a
  relabelled :
      (b : List PersonIdentifier) (p : PersonIdentifier → Bool) (label : String)
      → Grown a b
      → Grown a (update_where p (set_label label) b)
  one_added :
      (b : List PersonIdentifier) (i : PersonIdentifier)
      → Grown a b
      → exists_where (is_value i.kind i.value) b ≡ false
      → Grown a (b ++ i ∷ [])

-- The person of an identifier.
abbrev pub owner : String → String → List PersonIdentifier → Option Uuid
owner kind value is = Option.map (λ i. i.person_id) (first_where (is_value kind value) is)

pub first_where-none :
    {A : Type 0} (p : A → Bool) (rs : List A) → first_where p rs ≡ none → exists_where p rs ≡ false
first_where-none p [] e = refl
first_where-none p (r ∷ rs) e = ground (arith, first_where-none p rs)

pub Grown-trans : (a b c : List PersonIdentifier) → Grown a b → Grown b c → Grown a c
Grown-trans a b _ g as_is = g
Grown-trans a b _ g (relabelled c p l h) = relabelled c p l (Grown-trans a b c g h)
Grown-trans a b _ g (one_added c i h e) = one_added c i (Grown-trans a b c g h) e

owner-append :
    (kind value : String) (is more : List PersonIdentifier) (p : Uuid)
    → owner kind value is ≡ some p
    → owner kind value (is ++ more) ≡ some p
owner-append kind value [] more p e = cc
owner-append kind value (i ∷ is) more p e = ground (arith, owner-append kind value is more p)

owner-labels :
    (kind value : String) (p : PersonIdentifier → Bool) (label : String)
    (is : List PersonIdentifier)
    → owner kind value (update_where p (set_label label) is) ≡ owner kind value is
owner-labels kind value p label [] = refl
owner-labels kind value p label (i ∷ is) = ground (arith, owner-labels kind value p label is)

-- An identifier that has an owner keeps it.
pub Grown-owner :
    (kind value : String) (person : Uuid) (a b : List PersonIdentifier)
    → Grown a b
    → owner kind value a ≡ some person
    → owner kind value b ≡ some person
Grown-owner kind value person a _ as_is e = e
Grown-owner kind value person a _ (relabelled b p l g) e =
    owner-labels kind value p l b ∙ Grown-owner kind value person a b g e
Grown-owner kind value person a _ (one_added b i g h) e =
    owner-append kind value b (i ∷ []) person (Grown-owner kind value person a b g e)

-- UNIQUE (kind, value)
unfoldable pub AreUnique : List PersonIdentifier → Type 0
AreUnique is = (kind value : String) → count_where (is_value kind value) is ≤ 1

pub count_where-same :
    {A : Type 0} (q p : A → Bool) (f : A → A) (rs : List A)
    → ((r : A) → q (f r) ≡ q r)
    → count_where q (update_where p f rs) ≡ count_where q rs
count_where-same q p f [] same = refl
count_where-same q p f (r ∷ rs) same = ground (arith, same r, count_where-same q p f rs same)

pub count_where-delete :
    {A : Type 0} (q p : A → Bool) (rs : List A)
    → count_where q (delete_where p rs) ≤ count_where q rs
count_where-delete q p [] = omega arith
count_where-delete q p (r ∷ rs) = ground (arith, count_where-delete q p rs)

count_where-snoc :
    {A : Type 0} (q : A → Bool) (rs : List A) (r : A)
    → count_where q (rs ++ r ∷ []) ≡ count_where q rs + (if q r then 1 else 0)
count_where-snoc q [] r = ground arith
count_where-snoc q (x ∷ rs) r = ground (arith, count_where-snoc q rs r)

count_where-none :
    {A : Type 0} (q : A → Bool) (rs : List A) → exists_where q rs ≡ false → count_where q rs ≡ 0
count_where-none q [] e = refl
count_where-none q (r ∷ rs) e = ground (arith, count_where-none q rs)

pub Grown-AreUnique : (a b : List PersonIdentifier) → Grown a b → AreUnique a → AreUnique b
unfolding AreUnique
Grown-AreUnique a _ as_is u kind value = u kind value
Grown-AreUnique a _ (relabelled b p l g) u kind value =
    let same = count_where-same (is_value kind value) p (set_label l) b (λ r. refl) in
    let le = Grown-AreUnique a b g u kind value in omega arith
Grown-AreUnique a _ (one_added b i g h) u kind value =
    let sum = count_where-snoc (is_value kind value) b i in
    let le = Grown-AreUnique a b g u kind value in
    let zero_of = count_where-none (is_value i.kind i.value) b h in
    elim (Bool-cases (is_value kind value i)) [
      | inl e ↦
          let kind_eq : i.kind ≡ kind = ground arith in
          let value_eq : i.value ≡ value = ground arith in
          let absent =
            subst (λ v. count_where (is_value kind v) b ≡ 0) value_eq
              (subst (λ k. count_where (is_value k i.value) b ≡ 0) kind_eq zero_of) in
          let one : count_where (is_value kind value) (b ++ i ∷ [])
              ≡ count_where (is_value kind value) b + 1 =
            sum ∙ rw (e) refl in
          omega arith
      | inr e ↦
          let same : count_where (is_value kind value) (b ++ i ∷ [])
              ≡ count_where (is_value kind value) b + 0 =
            sum ∙ rw (e) refl in
          omega arith
    ]
