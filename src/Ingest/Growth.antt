-- ===== src/Ingest/Growth.antt =====
-- `resolve_person`, `upsert`, `exclude` and `register_contacts` of app/ingest.py only add to the
-- table PersonIdentifier.
use moresocial.Ingest.Fields.{existing_source, is_excluded}
use moresocial.Ingest.Rebuilds.{schedule_rebuilds, enqueue_all, Context}
use moresocial.Memory.Conflicts.{if_rule}
use moresocial.Ingest.Upsert.{
  is_same, pair_in, named, Upserted, upsert_content, upsert_row, upsert_deleted, add_participant,
  resolve_author, upsert, Named, add_participants,
}
use moresocial.Base.{
  true, truncate, Bool, is_some, text_in, false, none, refl, some, [], subst, first_where, ◌∷◌, ◌≡◌,
  List, Option, Uuid, String,
}
use moresocial.Ingest.{
  IngestResult, Participant, Source, Python, Store, PersonIdentifier, SourceRecord,
}
use moresocial.Ingest.Text.{normalize, truthy, content_hash}
use moresocial.Ingest.Removal.{drop_suggestions, drop_answers, drop_claims, drop_chunks, invalidate}
use moresocial.Ingest.People.{
  resolve_known, resolve_value, new_person, learn, is_value, resolve_person,
}
use moresocial.Ingest.Owners.{as_is, relabelled, one_added, Grown, Grown-trans, first_where-none}

resolve_known-Grown :
    (py : Python) (kind value : String) (label : Option String) (i : Option PersonIdentifier)
    → (db : Store) → first_where (is_value kind value) db.identifiers ≡ i
    → Grown db.identifiers (resolve_known py kind value label i db).0.identifiers
unfolding learn new_person
resolve_known-Grown py kind value label none db e =
    one_added db.identifiers _ as_is (first_where-none (is_value kind value) db.identifiers e)
resolve_known-Grown py kind value none (some i) db e = as_is
resolve_known-Grown py kind value (some l) (some i) db e =
    relabelled db.identifiers _ (truncate 200 l) as_is

resolve_value-Grown :
    (py : Python) (kind : String) (value label : Option String) (ids : List String) (db : Store)
    → Grown db.identifiers (resolve_value py kind value label ids db).0.identifiers
resolve_value-Grown py kind none label ids db = as_is
resolve_value-Grown py kind (some value) label ids db =
    if_rule {A = Store × Option Uuid} (λ out. Grown db.identifiers out.0.identifiers)
      (text_in value ids) as_is (resolve_known-Grown py kind value label _ db refl)

pub resolve_person-Grown :
    (py : Python) (kind value : String) (label : Option String) (ids : List String) (db : Store)
    → Grown db.identifiers (resolve_person py kind value label ids db).0.identifiers
unfolding resolve_person
resolve_person-Grown py kind value label ids db =
    resolve_value-Grown py kind (truthy (normalize py kind (some value))) (truthy label) ids db

resolve_author-Grown :
    (py : Python) (ids : List String) (author : Option Participant) (db : Store)
    → Grown db.identifiers (resolve_author py ids author db).0.identifiers
resolve_author-Grown py ids none db = as_is
resolve_author-Grown py ids (some a) db = resolve_person-Grown py a.kind a.identifier a.label ids db

add_participant-Grown :
    (py : Python) (ids : List String) (sid : Uuid) (x : Named) (value : Option String)
    → (seen : List (String × String)) (db : Store)
    → Grown db.identifiers (add_participant py ids sid x value seen db).1.identifiers
add_participant-Grown py ids sid x none seen db = as_is
add_participant-Grown py ids sid (p, none) (some value) seen db =
    if_rule {A = List (String × String) × Store} (λ out. Grown db.identifiers out.1.identifiers)
      (pair_in (value, p.role) seen) as_is (resolve_person-Grown py p.kind value p.label ids db)
add_participant-Grown py ids sid (p, some author) (some value) seen db =
    if_rule {A = List (String × String) × Store} (λ out. Grown db.identifiers out.1.identifiers)
      (pair_in (value, p.role) seen) as_is as_is

add_participants-Grown :
    (py : Python) (ids : List String) (sid : Uuid) (xs : List Named)
    → (seen : List (String × String)) (db : Store)
    → Grown db.identifiers (add_participants py ids sid xs seen db).identifiers
unfolding add_participants
add_participants-Grown py ids sid [] seen db = as_is
add_participants-Grown py ids sid (x ∷ xs) seen db =
    Grown-trans _ _ _
      (add_participant-Grown py ids sid x (truthy (normalize py x.0.kind (some x.0.identifier)))
        seen db)
      (add_participants-Grown py ids sid xs _ _)

enqueue_all-identifiers :
    (py : Python) (cx : Context) (changes : String) (cs : List (String × Option String))
    (db : Store)
    → (enqueue_all py cx changes cs db).identifiers ≡ db.identifiers
unfolding enqueue_all
enqueue_all-identifiers py cx changes [] db = refl
enqueue_all-identifiers py cx changes (c ∷ cs) db = enqueue_all-identifiers py cx changes cs _

pub invalidate-identifiers :
    (py : Python) (cx : Context) (rebuild : Bool) (ids : List Uuid) (db : Store)
    → (invalidate py cx rebuild ids db).identifiers ≡ db.identifiers
unfolding invalidate schedule_rebuilds drop_chunks drop_claims drop_answers drop_suggestions
invalidate-identifiers py cx rebuild [] db = refl
invalidate-identifiers py cx true (i ∷ ids) db = enqueue_all-identifiers py cx _ _ _
invalidate-identifiers py cx false (i ∷ ids) db = refl

same-Grown : {a b c : List PersonIdentifier} → a ≡ b → Grown a c → Grown b c
same-Grown {a} {b} {c} e g = subst (λ x. Grown x c) e g

module _ (py : Python) (cx : Context) (ids : List String) (rec : SourceRecord) where
  upsert_row-Grown :
      (s : Option Source) (at : Store × Option Uuid) (r : IngestResult)
      → Grown at.0.identifiers (upsert_row py cx ids rec (content_hash py rec) s at r).0.identifiers
  upsert_row-Grown none (db, author) r =
      add_participants-Grown py ids _ (named rec.author author rec.participants) [] _
  upsert_row-Grown (some s) (db, author) r =
      same-Grown (invalidate-identifiers py cx false (s.id ∷ []) db)
        (add_participants-Grown py ids _ (named rec.author author rec.participants) [] _)

  upsert_content-Grown :
      (s : Option Source) (db : Store) (r : IngestResult)
      → Grown db.identifiers
          (upsert_content py cx ids rec (content_hash py rec) s db r).0.identifiers
  upsert_content-Grown none db r =
      Grown-trans _ _ _ (resolve_author-Grown py ids rec.author db)
        (upsert_row-Grown none (resolve_author py ids rec.author db) r)
  upsert_content-Grown (some s) db r =
      if_rule {A = Upserted} (λ up. Grown db.identifiers up.0.identifiers)
        (is_same (content_hash py rec) s) as_is
        (Grown-trans _ _ _ (resolve_author-Grown py ids rec.author db)
          (upsert_row-Grown (some s) (resolve_author py ids rec.author db) r))

  upsert_deleted-Grown :
      (s : Option Source) (db : Store) (r : IngestResult)
      → Grown db.identifiers (upsert_deleted py cx rec s db r).0.identifiers
  upsert_deleted-Grown none db r = as_is
  upsert_deleted-Grown (some s) db r =
      if_rule {A = Upserted} (λ up. Grown db.identifiers up.0.identifiers) (is_some s.deleted_at)
        as_is (same-Grown (invalidate-identifiers py cx true (s.id ∷ []) db) as_is)

  pub upsert-Grown :
      (db : Store) (r : IngestResult)
      → Grown db.identifiers (upsert py cx ids rec db r).0.identifiers
  unfolding upsert
  upsert-Grown db r =
      let P : Upserted → Type 0 = λ up. Grown db.identifiers up.0.identifiers in
      if_rule P (is_excluded rec.provider rec.provider_object_id rec.conversation_id db.exclusions)
        as_is
        (if_rule P rec.deleted (upsert_deleted-Grown (existing_source rec db.sources) db r)
          (upsert_content-Grown (existing_source rec db.sources) db r))
