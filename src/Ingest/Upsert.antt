-- ===== src/Ingest/Upsert.antt =====
-- app/ingest.py: `upsert`, which stores an imported object once for its provider,
-- account and object id. The clock of a deletion is `cx.now`.
use moresocial.Ingest.Fields.{
  existing_source, set_fields, mark_deleted, new_source, is_excluded, is_record,
}
use moresocial.Ingest.Rebuilds.{conversation_of, add_conversation, Context}
use moresocial.Base.{
  set_first, ◌||◌, not, ◌==◌, ◌&&◌, true, false, text_eq, is_some, delete_where, none,
  if◌then◌else◌, ◌+◌, map, ◌++◌, [], ◌∷◌, Bool, some, Option, List, Uuid, String,
}
use moresocial.Ingest.{Source, SourceRecord, Participant, Python, Store, IngestResult}
use moresocial.Ingest.Removal.{invalidate}
use moresocial.Ingest.Text.{content_hash, truthy, normalize}
use moresocial.Ingest.People.{resolve_person}

abbrev pub pair_in : String × String → List (String × String) → Bool
pair_in (a, b) [] = false
pair_in (a, b) ((x, y) ∷ ps) = text_eq a x && text_eq b y || pair_in (a, b) ps

abbrev insert_participant : Python → Uuid → Participant → String → Store × Option Uuid → Store
insert_participant py source_id p value (db, person) = record db {
  participants =
      db.participants
      ++ record {
        id = py.uuid4 db.drawn;
        source_id = source_id;
        person_id = person;
        identifier = value;
        role = p.role;
      }
        ∷ [];
  drawn = db.drawn + 1;
}

-- The loop over the participants. The author comes with the person that was resolved for it.
abbrev pub Named : Type 0
Named = Participant × Option (Option Uuid)

abbrev person_for :
    Python → List String → Participant → String → Option (Option Uuid) → Store → Store × Option Uuid
person_for py self_ids p value none db = resolve_person py p.kind value p.label self_ids db
person_for py self_ids p value (some author) db = (db, author)

abbrev pub add_participant :
    Python
    → List String
    → Uuid
    → Named
    → Option String
    → List (String × String)
    → Store
    → List (String × String) × Store
add_participant py self_ids source_id x none seen db = (seen, db)
add_participant py self_ids source_id (p, author) (some value) seen db =
    if pair_in (value, p.role) seen then (seen, db) else (
      (value, p.role) ∷ seen,
      insert_participant py source_id p value (person_for py self_ids p value author db),
    )

unfoldable pub add_participants :
    Python → List String → Uuid → List Named → List (String × String) → Store → Store
add_participants py self_ids source_id [] seen db = db
add_participants py self_ids source_id (x ∷ xs) seen db =
    let value = truthy (normalize py x.0.kind (some x.0.identifier)) in
    let added = add_participant py self_ids source_id x value seen db in
    add_participants py self_ids source_id xs added.0 added.1

abbrev pub named : Option Participant → Option Uuid → List Participant → List Named
named none author ps = map {A = Participant} {B = Named} (λ p. (p, none)) ps
named (some a) author ps = (a, some author) ∷ map {A = Participant} {B = Named} (λ p. (p, none)) ps

abbrev pub resolve_author : Python → List String → Option Participant → Store → Store × Option Uuid
resolve_author py self_ids none db = (db, none)
resolve_author py self_ids (some a) db = resolve_person py a.kind a.identifier a.label self_ids db

abbrev pub Upserted : Type 0
Upserted = Store × IngestResult × Option Uuid

-- The participants anew, once the row of the source is written.
abbrev pub write_participants :
    Python → List String → SourceRecord → Uuid → Option Uuid → Store → Store
write_participants py self_ids rec source_id author db =
    add_participants py self_ids source_id (named rec.author author rec.participants) []
      (record db { participants = delete_where (λ x. x.source_id == source_id) db.participants })

abbrev pub record_change :
    Python → String × Option String → Uuid → String → IngestResult → IngestResult
record_change py conv id digest r = record r {
  conversations = add_conversation conv r.conversations;
  changes = r.changes ++ (py.uuid_text id, digest) ∷ [];
}

abbrev pub upsert_deleted :
    Python → Context → SourceRecord → Option Source → Store → IngestResult → Upserted
upsert_deleted py cx rec none db r = (db, record r { unchanged = r.unchanged + 1 }, none)
upsert_deleted py cx rec (some s) db r =
    if is_some s.deleted_at
    then (db, record r { unchanged = r.unchanged + 1 }, some s.id)
    else let cleared = invalidate py cx true (s.id ∷ []) db in
      (
        record cleared {
          sources = set_first (is_record rec) (mark_deleted py cx rec) cleared.sources;
        },
        record_change py (conversation_of s) s.id "deleted" (record r { deleted = r.deleted + 1 }),
        some s.id,
      )

-- A new row, or the fields of the one that is there once what was derived from it is dropped.
abbrev pub upsert_row :
    Python
    → Context
    → List String
    → SourceRecord
    → String
    → Option Source
    → Store × Option Uuid
    → IngestResult
    → Upserted
upsert_row py cx self_ids rec digest none (db, author) r =
    let id = py.uuid4 db.drawn in
    let s = new_source py rec digest id in
    (
      write_participants py self_ids rec id author
          (record db { sources = db.sources ++ s ∷ []; drawn = db.drawn + 1 }),
      record_change py (conversation_of s) id digest (record r { created = r.created + 1 }),
      some id,
    )
upsert_row py cx self_ids rec digest (some s) (db, author) r =
    let cleared = invalidate py cx false (s.id ∷ []) db in
    (
      write_participants py self_ids rec s.id author (record cleared {
        sources = set_first (is_record rec) (set_fields py rec digest) cleared.sources;
      }),
      record_change py (conversation_of (set_fields py rec digest s)) s.id digest
          (record r { updated = r.updated + 1 }),
      some s.id,
    )

abbrev pub is_same : String → Source → Bool
is_same digest s = text_eq s.content_hash digest && not (is_some s.deleted_at)

abbrev pub upsert_content :
    Python
    → Context
    → List String
    → SourceRecord
    → String
    → Option Source
    → Store
    → IngestResult
    → Upserted
upsert_content py cx self_ids rec digest none db r =
    upsert_row py cx self_ids rec digest none (resolve_author py self_ids rec.author db) r
upsert_content py cx self_ids rec digest (some s) db r =
    if is_same digest s
    then (db, record r { unchanged = r.unchanged + 1 }, some s.id)
    else upsert_row py cx self_ids rec digest (some s) (resolve_author py self_ids rec.author db) r

abbrev upsert_found :
    Python → Context → List String → SourceRecord → Option Source → Store → IngestResult → Upserted
upsert_found py cx self_ids rec existing db r =
    if rec.deleted
    then upsert_deleted py cx rec existing db r
    else upsert_content py cx self_ids rec (content_hash py rec) existing db r

unfoldable pub upsert :
    Python → Context → List String → SourceRecord → Store → IngestResult → Upserted
unfolding is_excluded content_hash set_fields invalidate add_participants new_source
upsert py cx self_ids rec db r =
    if is_excluded rec.provider rec.provider_object_id rec.conversation_id db.exclusions
    then (db, record r { skipped = r.skipped + 1 }, none)
    else upsert_found py cx self_ids rec (existing_source rec db.sources) db r
