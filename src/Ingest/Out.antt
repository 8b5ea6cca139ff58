-- ===== src/Ingest/Out.antt =====
-- Tombstones of app/ingest.py: what a user has excluded is not imported again.
use moresocial.Ingest.Fields.{new_source, is_record, is_excluded, set_fields, excludes}
use moresocial.Ingest.Again.{truncate-short}
use moresocial.Ingest.Text.{truthy, cut, or_text}
use moresocial.Base.{
  ap, ◌||◌, subst, truncate, string_discrete, exists_where-All, ◌∙◌, refl, none, some, sym, [],
  arith, ◌∷◌, All, false, true, ◌≡◌, ◌≤◌, ◌&&◌, exists_where, text_eq, text_length, List, Option,
  Bool, Uuid, String,
}
use moresocial.Ingest.{
  conversation, object, ExclusionScope, Python, Source, SourceRecord, Exclusion,
}
use moresocial.Ingest.Removal.{same_scope, is_exclusion}
use moresocial.Ingest.Operations.{upserted, Operation}

-- The tombstone names the object or its conversation.
abbrev pub names_in : ExclusionScope → String → String → Option String → Bool
names_in object key id conv = text_eq id key
names_in conversation key id none = false
names_in conversation key id (some c) = text_eq c key

unfoldable pub names : Exclusion → String → String → Option String → Bool
names x provider id conv = text_eq provider x.provider && names_in x.scope x.key id conv

abbrev pub covers : Exclusion → Source → Bool
covers x s = names x s.provider s.provider_object_id s.conversation_id

-- There is such a tombstone, and no source that it covers.
abbrev pub IsOut : Exclusion → List Source × List Exclusion → Type 0
IsOut x (sources, exclusions) =
    (exists_where (is_exclusion x.provider x.scope x.key) exclusions ≡ true)
    × All (λ s. covers x s ≡ false) sources

-- The texts that an upsert cuts at 400 characters are not longer.
abbrev pub IsShort : Operation → Type 0
IsShort (upserted rec) =
    (text_length rec.provider_object_id ≤ 400)
    × (text_length (or_text rec.conversation_id "") ≤ 400)
IsShort op = Unit

same_scope_eq : (a b : ExclusionScope) → same_scope a b ≡ true → a ≡ b
same_scope_eq object object e = refl
same_scope_eq conversation conversation e = refl
same_scope_eq object conversation e = cc
same_scope_eq conversation object e = cc

-- A row with the key of a tombstone excludes what the tombstone excludes.
excludes-same :
    (x y : Exclusion) (provider id : String) (conv : Option String)
    → is_exclusion x.provider x.scope x.key y ≡ true
    → (text_eq y.provider provider && excludes id conv y)
      ≡ (text_eq x.provider provider && excludes id conv x)
excludes-same x y provider id conv h =
    let scope : y.scope ≡ x.scope = same_scope_eq y.scope x.scope (ground arith) in
    let name : y.provider ≡ x.provider = ground arith in
    let key : y.key ≡ x.key = ground arith in by_conv conv scope name key
  where
    by_conv :
        (conv : Option String)
        → y.scope ≡ x.scope
        → y.provider ≡ x.provider
        → y.key ≡ x.key
        → (text_eq y.provider provider && excludes id conv y)
          ≡ (text_eq x.provider provider && excludes id conv x)
    by_conv none s n k = rw (s, n, k) refl
    by_conv (some c) s n k = rw (s, n, k) refl

excludes-rows :
    (x : Exclusion) (provider id : String) (conv : Option String) (xs : List Exclusion)
    → exists_where (λ y. text_eq y.provider provider && excludes id conv y) xs ≡ false
    → All
        (λ y.
          is_exclusion x.provider x.scope x.key y ≡ true
          → (text_eq x.provider provider && excludes id conv x) ≡ false)
        xs
excludes-rows x provider id conv [] e = tt
excludes-rows x provider id conv (y ∷ ys) e = (
  (λ h. sym (excludes-same x y provider id conv h) ∙ ground arith),
  excludes-rows x provider id conv ys (ground arith),
)

-- A tombstone that is there does not cover a record that is not excluded.
pub not_excluded :
    (x : Exclusion) (rec : SourceRecord) (xs : List Exclusion)
    → exists_where (is_exclusion x.provider x.scope x.key) xs ≡ true
    → is_excluded rec.provider rec.provider_object_id rec.conversation_id xs ≡ false
    → (text_eq x.provider rec.provider
        && excludes rec.provider_object_id (truthy rec.conversation_id) x)
      ≡ false
unfolding is_excluded
not_excluded x rec xs there e =
    exists_where-All _ (is_exclusion x.provider x.scope x.key) xs there
      (excludes-rows x rec.provider rec.provider_object_id (truthy rec.conversation_id) xs e)

flip : (a b : String) → text_eq a b ≡ false → text_eq b a ≡ false
flip a b e = ground arith

or_left : (b : Bool) → (b || false) ≡ false → b ≡ false
or_left true e = cc
or_left false e = refl

names_in-excludes :
    (sc : ExclusionScope) (x : Exclusion) (id : String) (conv : Option String)
    → x.scope ≡ sc
    → excludes id conv x ≡ false
    → names_in x.scope x.key id conv ≡ false
names_in-excludes object x id none s e =
    rw (s) (flip x.key id (subst (λ z. (same_scope z object && text_eq x.key id) ≡ false) s e))
names_in-excludes object x id (some c) s e = rw (s) (
    flip x.key id (
      or_left (text_eq x.key id) (
        subst
          (λ z.
            (same_scope z object && text_eq x.key id
              || same_scope z conversation && text_eq x.key c)
            ≡ false)
          s e)))
names_in-excludes conversation x id none s e = rw (s) refl
names_in-excludes conversation x id (some c) s e = rw (s) (
    flip x.key c (
      subst
        (λ z.
          (same_scope z object && text_eq x.key id || same_scope z conversation && text_eq x.key c)
          ≡ false)
        s e))

names-excludes :
    (x : Exclusion) (provider id : String) (conv : Option String)
    → (text_eq x.provider provider && excludes id conv x) ≡ false
    → names x provider id conv ≡ false
unfolding names
names-excludes x provider id conv e =
    let inside = names_in-excludes x.scope x id conv refl in ground (arith, inside)

cut-none : cut 400 none ≡ none
unfolding string_discrete truncate
cut-none = refl

or_text-some : (s : String) → or_text (some s) "" ≡ s
or_text-some s = ground arith

cut-short : (o : Option String) → text_length (or_text o "") ≤ 400 → cut 400 o ≡ truthy o
cut-short none le = cut-none
cut-short (some s) le =
    let same = or_text-some s in
    ap (λ t. truthy (some (truncate 400 t))) same
    ∙ ap (λ t. truthy (some t)) (truncate-short 400 s (subst (λ t. text_length t ≤ 400) same le))

pub set_fields-covers :
    (py : Python) (x : Exclusion) (rec : SourceRecord) (digest : String) (s : Source)
    → (text_eq x.provider rec.provider
        && excludes rec.provider_object_id (truthy rec.conversation_id) x)
      ≡ false
    → text_length (or_text rec.conversation_id "") ≤ 400
    → is_record rec s ≡ true
    → covers x (set_fields py rec digest s) ≡ false
unfolding set_fields
set_fields-covers py x rec digest s e le h =
    let name : s.provider ≡ rec.provider = ground arith in
    let id : s.provider_object_id ≡ rec.provider_object_id = ground arith in
    rw (name, id, cut-short rec.conversation_id le)
      (names-excludes x rec.provider rec.provider_object_id (truthy rec.conversation_id) e)

pub new_source-covers :
    (py : Python) (x : Exclusion) (rec : SourceRecord) (digest : String) (id : Uuid)
    → (text_eq x.provider rec.provider
        && excludes rec.provider_object_id (truthy rec.conversation_id) x)
      ≡ false
    → text_length (or_text rec.conversation_id "") ≤ 400
    → text_length rec.provider_object_id ≤ 400
    → covers x (new_source py rec digest id) ≡ false
unfolding set_fields new_source
new_source-covers py x rec digest id e le le' =
    rw (truncate-short 400 rec.provider_object_id le', cut-short rec.conversation_id le)
      (names-excludes x rec.provider rec.provider_object_id (truthy rec.conversation_id) e)
