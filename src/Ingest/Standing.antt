-- ===== src/Ingest/Standing.antt =====
-- Extracted claims keep their support through every history of app/ingest.py.
use moresocial.Ingest.Fields.{existing_source, is_excluded}
use moresocial.Ingest.Rebuilds.{Context}
use moresocial.Memory.Conflicts.{if_rule}
use moresocial.Ingest.People.{prune_people}
use moresocial.Ingest.Upsert.{
  is_same, resolve_author, upsert_row, upsert_deleted, Upserted, upsert_content, upsert,
}
use moresocial.Base.{
  text_in, select_where, map, true, none, false, is_some, some, [], sym, subst, Option, ◌∷◌, List,
  ◌≡◌, Uuid, String,
}
use moresocial.Ingest.{IngestResult, Python, Store, Source, SourceRecord}
use moresocial.Ingest.Text.{content_hash}
use moresocial.Ingest.Removal.{
  scope_and_key, excluded_ids, no_result, delete_provider_data, exclude,
}
use moresocial.Ingest.Frame.{
  register_contacts-framed, resolve_author-framed, write_participants-framed, Framed,
}
use moresocial.Ingest.Operations.{
  registered, unlinked, linked, provider_deleted, excluded, upserted, apply, run, Operation,
}
use moresocial.Ingest.Supported.{
  unlink_identifier-IsSupported, link_people-IsSupported, delete_people-IsSupported, IsSupported,
  cited, invalidate-IsSupported, remove-IsSupported,
}

same-IsSupported : {a b : Framed} → a ≡ b → IsSupported b.1 → IsSupported a.1
same-IsSupported e h = subst (λ (f : Framed). IsSupported f.1) (sym e) h

module _ (py : Python) (cx : Context) (ids : List String) (rec : SourceRecord) where
  upsert_deleted-IsSupported :
      (s : Option Source) (db : Store) (r : IngestResult)
      → IsSupported (cited db)
      → IsSupported (cited (upsert_deleted py cx rec s db r).0)
  upsert_deleted-IsSupported none db r h = h
  upsert_deleted-IsSupported (some s) db r h =
      if_rule {A = Upserted} (λ up. IsSupported (cited up.0)) (is_some s.deleted_at) h
        (invalidate-IsSupported py cx true (s.id ∷ []) db h)

  upsert_row-IsSupported :
      (s : Option Source) (at : Store × Option Uuid) (r : IngestResult)
      → IsSupported (cited at.0)
      → IsSupported (cited (upsert_row py cx ids rec (content_hash py rec) s at r).0)
  upsert_row-IsSupported none (db, author) r h =
      same-IsSupported (write_participants-framed py ids rec (py.uuid4 db.drawn) author _) h
  upsert_row-IsSupported (some s) (db, author) r h =
      same-IsSupported (write_participants-framed py ids rec s.id author _)
        (invalidate-IsSupported py cx false (s.id ∷ []) db h)

  upsert_content-IsSupported :
      (s : Option Source) (db : Store) (r : IngestResult)
      → IsSupported (cited db)
      → IsSupported (cited (upsert_content py cx ids rec (content_hash py rec) s db r).0)
  upsert_content-IsSupported none db r h =
      upsert_row-IsSupported none (resolve_author py ids rec.author db) r
        (same-IsSupported (resolve_author-framed py ids rec.author db) h)
  upsert_content-IsSupported (some s) db r h =
      if_rule {A = Upserted} (λ up. IsSupported (cited up.0)) (is_same (content_hash py rec) s) h
        (upsert_row-IsSupported (some s) (resolve_author py ids rec.author db) r
          (same-IsSupported (resolve_author-framed py ids rec.author db) h))

  upsert-IsSupported :
      (db : Store) (r : IngestResult)
      → IsSupported (cited db)
      → IsSupported (cited (upsert py cx ids rec db r).0)
  unfolding upsert
  upsert-IsSupported db r h =
      let P : Upserted → Type 0 = λ up. IsSupported (cited up.0) in
      if_rule P (is_excluded rec.provider rec.provider_object_id rec.conversation_id db.exclusions)
        h
        (if_rule P rec.deleted (upsert_deleted-IsSupported (existing_source rec db.sources) db r h)
          (upsert_content-IsSupported (existing_source rec db.sources) db r h))

apply-IsSupported :
    (py : Python) (ids : List String) (op : Context × Operation) (db : Store)
    → IsSupported (cited db)
    → IsSupported (cited (apply py ids op db))
unfolding exclude delete_provider_data prune_people
apply-IsSupported py ids (cx, upserted rec) db h = upsert-IsSupported py cx ids rec db no_result h
apply-IsSupported py ids (cx, excluded s scope) db h =
    remove-IsSupported py cx true (excluded_ids (scope_and_key scope s).0 s db.sources) _ h
apply-IsSupported py ids (cx, provider_deleted providers) db h = delete_people-IsSupported _ _ (
    remove-IsSupported py cx false
      (map {A = Source} {B = Uuid} (λ s. s.id)
        (select_where (λ s. text_in s.provider providers) db.sources))
      db h)
apply-IsSupported py ids (cx, linked keep other) db h = link_people-IsSupported keep other db h
apply-IsSupported py ids (cx, unlinked i) db h = unlink_identifier-IsSupported py i db h
apply-IsSupported py ids (cx, registered contacts) db h =
    same-IsSupported (register_contacts-framed py ids contacts db) h

-- If every extracted claim that the user has not confirmed cites a source, this holds after any
-- imports, provider deletions, exclusions, links, splits and contacts: no such claim is left
-- without evidence.
pub run-IsSupported :
    (py : Python) (ids : List String) (ops : List (Context × Operation)) (db : Store)
    → IsSupported (cited db)
    → IsSupported (cited (run py ids ops db))
run-IsSupported py ids [] db h = h
run-IsSupported py ids (op ∷ ops) db h =
    run-IsSupported py ids ops (apply py ids op db) (apply-IsSupported py ids op db h)
