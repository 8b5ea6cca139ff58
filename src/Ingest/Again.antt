-- ===== src/Ingest/Again.antt =====
-- `upsert` of app/ingest.py on a record that it has stored: repeated pages and retries.
use moresocial.Ingest.Fields.{
  is_record, mark_deleted, set_fields, new_source, existing_source, is_excluded,
}
use moresocial.Ingest.Rebuilds.{Context}
use moresocial.Base.{
  first_where-holds, first_where-set_first, set_first, on_true, on_false, sym, first_where-append,
  [], subst, ◌∷◌, ◌∙◌, inr, ◌++◌, inl, Bool-cases, Bool, false, none, some, Option, List, refl, ap,
  suc, is_some, zero, arith, ◌≤◌, true, ℕ, text_length, ◌≡◌, truncate, text_eq, ◌+◌, Uuid, String,
}
use moresocial.Ingest.{Exclusion, Python, Store, Source, SourceRecord, IngestResult}
use moresocial.Ingest.Text.{content_hash}
use moresocial.Ingest.Frame.{resolve_author-kept, write_participants-kept, kept, invalidate-kept}
use moresocial.Ingest.Upsert.{
  resolve_author, Upserted, upsert_row, upsert_deleted, upsert_content, is_same, upsert,
}

pub truncate-short : (n : ℕ) (s : String) → text_length s ≤ n → truncate n s ≡ s
unfolding truncate text_length
truncate-short zero String.[] le = refl
truncate-short (suc n) String.[] le = refl
truncate-short zero (String.◌∷◌ c s) le = absurd (omega (arith, le))
truncate-short (suc n) (String.◌∷◌ c s) le =
    ap (λ t. String.◌∷◌ c t) (truncate-short n s (omega (arith, le)))

pub text_eq_refl : (s : String) → text_eq s s ≡ true
text_eq_refl s = ground arith

-- What an upsert does to the counts and returns, its record being known or excluded.
pub data IsUnchanged (r : IngestResult) : IngestResult → Type 0 where
  found : IsUnchanged r (record r { unchanged = r.unchanged + 1 })
  left_out : IsUnchanged r (record r { skipped = r.skipped + 1 })

-- The tables hold all that an upsert of the record would write, and it returns this source.
module _ (py : Python) (rec : SourceRecord) (k : List Source × List Exclusion) where
  abbrev IsLeft : Bool → Type 0
  IsLeft b = is_excluded rec.provider rec.provider_object_id rec.conversation_id k.1 ≡ b

  pub data IsStored : Option Uuid → Type 0 where
    out : IsLeft true → IsStored none
    absent : IsLeft false → rec.deleted ≡ true → existing_source rec k.0 ≡ none → IsStored none
    gone :
        (s : Source)
        → IsLeft false
        → rec.deleted ≡ true
        → existing_source rec k.0 ≡ some s
        → is_some s.deleted_at ≡ true
        → IsStored (some s.id)
    held :
        (s : Source)
        → IsLeft false
        → rec.deleted ≡ false
        → existing_source rec k.0 ≡ some s
        → is_same (content_hash py rec) s ≡ true
        → IsStored (some s.id)

stored-upsert :
    (py : Python) (cx : Context) (ids : List String) (rec : SourceRecord) (db : Store)
    → (r : IngestResult) (id : Option Uuid) → IsStored py rec (kept db) id
    → ((upsert py cx ids rec db r).0 ≡ db)
      × ((upsert py cx ids rec db r).2 ≡ id)
      × IsUnchanged r (upsert py cx ids rec db r).1
unfolding upsert
stored-upsert py cx ids rec db r none (out e) = rw (e) (refl, refl, left_out)
stored-upsert py cx ids rec db r none (absent e d n) = rw (e, d, n) (refl, refl, found)
stored-upsert py cx ids rec db r (some id) (gone s e d x h) = rw (e, d, x, h) (refl, refl, found)
stored-upsert py cx ids rec db r (some id) (held s e d x h) =
    let P : Upserted → Type 0 = λ up. (up.0 ≡ db) × (up.2 ≡ some s.id) × IsUnchanged r up.1 in
    let digest = content_hash py rec in
    on_false P _ _ e (
      on_false P rec.deleted _ d (
        subst (λ o. P (upsert_content py cx ids rec digest o db r)) (sym x)
          (on_true P (is_same digest s) _ h (refl, refl, found))))

-- The row that is there keeps its key, so the upsert finds it again.
existing-set :
    (rec : SourceRecord) (s : Source) (f : Source → Source) (rows : List Source)
    → (is_record rec s ≡ true → is_record rec (f s) ≡ true)
    → existing_source rec rows ≡ some s
    → existing_source rec (set_first (is_record rec) f rows) ≡ some (f s)
existing-set rec s f rows same e =
    first_where-set_first (is_record rec) f rows s e
      (same (first_where-holds (is_record rec) rows s e))

module _ (py : Python) (cx : Context) (ids : List String) (rec : SourceRecord) where
  upsert_deleted-IsStored :
      (s : Option Source) (db : Store) (r : IngestResult)
      → IsLeft py rec (kept db) false
      → rec.deleted ≡ true
      → existing_source rec db.sources ≡ s
      → IsStored py rec
          (kept (upsert_deleted py cx rec s db r).0)
          (upsert_deleted py cx rec s db r).2
  upsert_deleted-IsStored none db r e d x = absent e d x
  upsert_deleted-IsStored (some s) db r e d x = elim (Bool-cases (is_some s.deleted_at)) [
    | inl h ↦ rw (h) (gone s e d x h)
    | inr h ↦
        let mark = mark_deleted py cx rec in
        rw (h) (
          subst
            (λ (k : List Source × List Exclusion).
              IsStored py rec (set_first (is_record rec) mark k.0, k.1) (some s.id))
            (sym (invalidate-kept py cx true (s.id ∷ []) db))
            (gone (mark s) e d (existing-set rec s mark db.sources (λ h. h) x) refl))
  ]

  upsert_row-IsStored :
      (s : Option Source) (at : Store × Option Uuid) (r : IngestResult)
      → text_length rec.provider_object_id ≤ 400
      → IsLeft py rec (kept at.0) false
      → rec.deleted ≡ false
      → existing_source rec at.0.sources ≡ s
      → IsStored py rec
          (kept (upsert_row py cx ids rec (content_hash py rec) s at r).0)
          (upsert_row py cx ids rec (content_hash py rec) s at r).2
  unfolding new_source set_fields
  upsert_row-IsStored none (db, author) r le e d x =
      let digest = content_hash py rec in
      let s = new_source py rec digest (py.uuid4 db.drawn) in
      let new : existing_source rec (db.sources ++ s ∷ []) ≡ some s =
        first_where-append _ db.sources (s ∷ []) x
        ∙ rw
            (
              truncate-short 400 rec.provider_object_id le,
              text_eq_refl rec.provider,
              text_eq_refl rec.provider_account,
              text_eq_refl rec.provider_object_id,
            )
            refl in
      subst (λ k. IsStored py rec k (some s.id))
        (sym (write_participants-kept py ids rec s.id author _))
        (held s e d new (rw (text_eq_refl digest) refl))
  upsert_row-IsStored (some s) (db, author) r le e d x =
      let digest = content_hash py rec in
      let set = set_fields py rec digest in
      subst (λ k. IsStored py rec k (some s.id))
        (sym (write_participants-kept py ids rec s.id author _))
        (subst
          (λ (k : List Source × List Exclusion).
            IsStored py rec (set_first (is_record rec) set k.0, k.1) (some s.id))
          (sym (invalidate-kept py cx false (s.id ∷ []) db))
          (held (set s) e d (existing-set rec s set db.sources (λ h. h) x)
            (rw (text_eq_refl digest) refl)))

  upsert_content-IsStored :
      (s : Option Source) (db : Store) (r : IngestResult)
      → text_length rec.provider_object_id ≤ 400
      → IsLeft py rec (kept db) false
      → rec.deleted ≡ false
      → existing_source rec db.sources ≡ s
      → IsStored py rec
          (kept (upsert_content py cx ids rec (content_hash py rec) s db r).0)
          (upsert_content py cx ids rec (content_hash py rec) s db r).2
  upsert_content-IsStored none db r le e d x =
      let same = resolve_author-kept py ids rec.author db in
      upsert_row-IsStored none (resolve_author py ids rec.author db) r le
        (subst (λ (k : List Source × List Exclusion). IsLeft py rec k false) (sym same) e) d
        (subst (λ (k : List Source × List Exclusion). existing_source rec k.0 ≡ none) (sym same) x)
  upsert_content-IsStored (some s) db r le e d x =
      let same = resolve_author-kept py ids rec.author db in
      elim (Bool-cases (is_same (content_hash py rec) s)) [
        | inl h ↦ rw (h) (held s e d x h)
        | inr h ↦
            on_false (λ (up : Upserted). IsStored py rec (kept up.0) up.2) _ _ h
              (upsert_row-IsStored (some s) (resolve_author py ids rec.author db) r le
                (subst (λ (k : List Source × List Exclusion). IsLeft py rec k false) (sym same) e) d
                (subst (λ (k : List Source × List Exclusion). existing_source rec k.0 ≡ some s)
                  (sym same) x))
      ]

  upsert-IsStored :
      (db : Store) (r : IngestResult)
      → text_length rec.provider_object_id ≤ 400
      → IsStored py rec (kept (upsert py cx ids rec db r).0) (upsert py cx ids rec db r).2
  unfolding upsert
  upsert-IsStored db r le =
      let P : Upserted → Type 0 = λ up. IsStored py rec (kept up.0) up.2 in
      elim (Bool-cases
        (is_excluded rec.provider rec.provider_object_id rec.conversation_id db.exclusions)) [
          | inl e ↦ on_true P _ _ e (out e)
          | inr e ↦ on_false P _ _ e (elim (Bool-cases rec.deleted) [
            | inl d ↦
                on_true P _ _ d
                  (upsert_deleted-IsStored (existing_source rec db.sources) db r e d refl)
            | inr d ↦
                on_false P _ _ d
                  (upsert_content-IsStored (existing_source rec db.sources) db r le e d refl)
          ])
        ]

-- A record whose object id has at most 400 characters is upserted once: upserting it again, at any
-- later time, changes no table and returns the same source, and only counts the record as
-- unchanged, or as skipped where it is excluded.
pub upsert-upsert :
    (py : Python) (cx cx' : Context) (ids ids' : List String) (rec : SourceRecord) (db : Store)
    → (r r' : IngestResult) → text_length rec.provider_object_id ≤ 400
    → ((upsert py cx' ids' rec (upsert py cx ids rec db r).0 r').0 ≡ (upsert py cx ids rec db r).0)
      × ((upsert py cx' ids' rec (upsert py cx ids rec db r).0 r').2
          ≡ (upsert py cx ids rec db r).2)
      × IsUnchanged r' (upsert py cx' ids' rec (upsert py cx ids rec db r).0 r').1
upsert-upsert py cx cx' ids ids' rec db r r' le =
    stored-upsert py cx' ids' rec (upsert py cx ids rec db r).0 r' (upsert py cx ids rec db r).2
      (upsert-IsStored py cx ids rec db r le)
