-- ===== src/Ingest/Excluded.antt =====
-- What a user has excluded stays out, whatever `upsert` and the other calls of app/ingest.py do.
use moresocial.Ingest.Fields.{
  existing_source, set_fields, mark_deleted, is_record, is_excluded, new_source, excludes,
}
use moresocial.Ingest.Rebuilds.{Context}
use moresocial.Ingest.People.{id_in}
use moresocial.Memory.Conflicts.{if_rule}
use moresocial.Ingest.Text.{content_hash, truthy}
use moresocial.Ingest.Upsert.{
  is_same, resolve_author, upsert_content, Upserted, upsert_row, upsert_deleted, upsert,
}
use moresocial.Base.{
  refl, on_false, none, ◌∙◌, inr, set_first-All, on_true, [], All-append, inl, ap, ◌∷◌,
  exists_where-append, set_first, is_some, Bool-cases, some, false, delete_where, sym, true, subst,
  exists_where, Option, ◌&&◌, List, Bool, ◌≡◌, text_eq, Uuid, String,
}
use moresocial.Ingest.{ExclusionScope, IngestResult, Python, Store, Source, SourceRecord, Exclusion}
use moresocial.Ingest.Removal.{
  scope_and_key, excluded_ids, is_exclusion, add_exclusion, delete_sources, exclude, exclusion_of,
}
use moresocial.Ingest.Frame.{resolve_author-kept, write_participants-kept, kept, invalidate-kept}
use moresocial.Ingest.Operations.{upserted}
use moresocial.Ingest.Out.{
  set_fields-covers, names, IsOut, IsShort, covers, not_excluded, new_source-covers,
}

-- The conditions under which an upsert keeps what is out.
abbrev IsApart : Exclusion → SourceRecord → Type 0
IsApart x rec =
    (text_eq x.provider rec.provider
      && excludes rec.provider_object_id (truthy rec.conversation_id) x)
    ≡ false

pub kept-IsOut :
    (x : Exclusion) {a b : List Source × List Exclusion} → a ≡ b → IsOut x b → IsOut x a
kept-IsOut x e h = subst (IsOut x) (sym e) h

module _ (py : Python) (cx : Context) (ids : List String) (rec : SourceRecord) (x : Exclusion) where
  upsert_deleted-IsOut :
      (s : Option Source) (db : Store) (r : IngestResult)
      → IsOut x (kept db)
      → IsOut x (kept (upsert_deleted py cx rec s db r).0)
  unfolding names
  upsert_deleted-IsOut none db r h = h
  upsert_deleted-IsOut (some s) db r h =
      if_rule {A = Upserted} (λ up. IsOut x (kept up.0)) (is_some s.deleted_at) h
        (subst
          (λ (k : List Source × List Exclusion).
            IsOut x (set_first (is_record rec) (mark_deleted py cx rec) k.0, k.1))
          (sym (invalidate-kept py cx true (s.id ∷ []) db))
          (
            h.0,
            set_first-All (λ s. covers x s ≡ false) (is_record rec) (mark_deleted py cx rec)
                db.sources (λ s c e. c) h.1,
          ))

  upsert_row-IsOut :
      (s : Option Source) (at : Store × Option Uuid) (r : IngestResult)
      → IsShort (upserted rec)
      → IsApart x rec
      → IsOut x (kept at.0)
      → IsOut x (kept (upsert_row py cx ids rec (content_hash py rec) s at r).0)
  upsert_row-IsOut none (db, author) r le apart h =
      let digest = content_hash py rec in
      let s = new_source py rec digest (py.uuid4 db.drawn) in
      kept-IsOut x (write_participants-kept py ids rec (py.uuid4 db.drawn) author _) (
        h.0,
        All-append (λ s. covers x s ≡ false) db.sources (s ∷ []) h.1
            (new_source-covers py x rec digest (py.uuid4 db.drawn) apart le.1 le.0, tt),
      )
  upsert_row-IsOut (some s) (db, author) r le apart h =
      let digest = content_hash py rec in
      kept-IsOut x (write_participants-kept py ids rec s.id author _) (
        subst
          (λ (k : List Source × List Exclusion).
            IsOut x (set_first (is_record rec) (set_fields py rec digest) k.0, k.1))
          (sym (invalidate-kept py cx false (s.id ∷ []) db))
          (
            h.0,
            set_first-All (λ s. covers x s ≡ false) (is_record rec) (set_fields py rec digest)
                db.sources (λ s c e. set_fields-covers py x rec digest s apart le.1 e) h.1,
          ))

  upsert_content-IsOut :
      (s : Option Source) (db : Store) (r : IngestResult)
      → IsShort (upserted rec)
      → IsApart x rec
      → IsOut x (kept db)
      → IsOut x (kept (upsert_content py cx ids rec (content_hash py rec) s db r).0)
  upsert_content-IsOut none db r le apart h =
      upsert_row-IsOut none (resolve_author py ids rec.author db) r le apart
        (kept-IsOut x (resolve_author-kept py ids rec.author db) h)
  upsert_content-IsOut (some s) db r le apart h =
      if_rule {A = Upserted} (λ up. IsOut x (kept up.0)) (is_same (content_hash py rec) s) h
        (upsert_row-IsOut (some s) (resolve_author py ids rec.author db) r le apart
          (kept-IsOut x (resolve_author-kept py ids rec.author db) h))

  pub upsert-IsOut :
      (db : Store) (r : IngestResult)
      → IsShort (upserted rec)
      → IsOut x (kept db)
      → IsOut x (kept (upsert py cx ids rec db r).0)
  unfolding upsert
  upsert-IsOut db r le h =
      let P : Upserted → Type 0 = λ up. IsOut x (kept up.0) in
      elim (Bool-cases
        (is_excluded rec.provider rec.provider_object_id rec.conversation_id db.exclusions)) [
          | inl e ↦ on_true P _ _ e h
          | inr e ↦ on_false P _ _ e (
              if_rule P rec.deleted (upsert_deleted-IsOut (existing_source rec db.sources) db r h) (
                upsert_content-IsOut (existing_source rec db.sources) db r le
                  (not_excluded x rec db.exclusions h.0 e) h))
        ]

pub add_exclusion-there :
    (q : Exclusion → Bool) (y : Exclusion) (xs : List Exclusion)
    → exists_where q xs ≡ true
    → exists_where q (add_exclusion y xs) ≡ true
add_exclusion-there q y xs h =
    if_rule {A = List Exclusion} (λ zs. exists_where q zs ≡ true)
      (exists_where (is_exclusion y.provider y.scope y.key) xs) h
      (exists_where-append q xs (y ∷ []) ∙ rw (h) refl)

pub exclude-sources :
    (py : Python) (cx : Context) (s : Source) (scope : ExclusionScope) (db : Store)
    → kept (exclude py cx s scope db).0 ≡ (
      delete_where
          (λ y. id_in y.id (excluded_ids (scope_and_key scope s).0 s db.sources))
          db.sources,
      add_exclusion (exclusion_of (scope_and_key scope s) s) db.exclusions,
    )
unfolding exclude delete_sources
exclude-sources py cx s scope db =
    ap
      (λ (k : List Source × List Exclusion). (
        delete_where (λ y. id_in y.id (excluded_ids (scope_and_key scope s).0 s db.sources)) k.0,
        k.1,
      ))
      (invalidate-kept py cx true (excluded_ids (scope_and_key scope s).0 s db.sources) _)
