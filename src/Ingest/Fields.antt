-- ===== src/Ingest/Fields.antt =====
-- app/ingest.py: `is_excluded`, the key of an imported object, and the fields that `upsert` sets.
use moresocial.Ingest.Rebuilds.{Context}
use moresocial.Base.{
  ◌||◌, ◌&&◌, true, exists_where, false, text_eq, none, [], first_where, Bool, truncate, some,
  Option, List, Uuid, String,
}
use moresocial.Ingest.{conversation, object, Exclusion, Source, SourceRecord, Participant, Python}
use moresocial.Ingest.Removal.{same_scope}
use moresocial.Ingest.Text.{meta_get, cut, or_default, meta_set, truthy, or_text, normalize}

-- A tombstone of the object, or of its conversation where it has one.
abbrev pub excludes : String → Option String → Exclusion → Bool
excludes object_id none x = same_scope x.scope object && text_eq x.key object_id
excludes object_id (some c) x =
    same_scope x.scope object && text_eq x.key object_id
    || same_scope x.scope conversation && text_eq x.key c

unfoldable pub is_excluded : String → String → Option String → List Exclusion → Bool
is_excluded provider object_id conv =
    exists_where (λ x. text_eq x.provider provider && excludes object_id (truthy conv) x)

-- The key of the upsert.
abbrev is_object : String → String → String → Source → Bool
is_object provider account object_id s =
    text_eq s.provider provider
    && (text_eq s.provider_account account && text_eq s.provider_object_id object_id)

abbrev pub is_record : SourceRecord → Source → Bool
is_record rec = is_object rec.provider rec.provider_account rec.provider_object_id

abbrev pub existing_source : SourceRecord → List Source → Option Source
existing_source rec = first_where (is_record rec)

abbrev pub mark_deleted : Python → Context → SourceRecord → Source → Source
mark_deleted py cx rec s = record s {
  deleted_at = some cx.now;
  body = "";
  version = "deleted";
  content_hash = py.sha256 "deleted";
  meta = meta_set "status" (or_default (meta_get "status" rec.meta) (some "deleted")) s.meta;
}

abbrev identified : Python → Option Participant → Option String
identified py none = none
identified py (some p) = normalize py p.kind (some p.identifier)

abbrev labelled : Option Participant → Option String
labelled none = none
labelled (some p) = p.label

-- `fields`, as they are set on a row.
unfoldable pub set_fields : Python → SourceRecord → String → Source → Source
set_fields py rec digest s = record s {
  version = truncate 200 (or_text rec.version (truncate 24 digest));
  conversation_id = cut 400 rec.conversation_id;
  conversation_title = cut 300 rec.conversation_title;
  title = cut 300 rec.title;
  author = identified py rec.author;
  author_label = cut 200 (labelled rec.author);
  from_me = rec.from_me;
  occurred_at = rec.occurred_at;
  ends_at = rec.ends_at;
  body = rec.body;
  body_truncated = rec.body_truncated;
  meta = rec.meta;
  content_hash = digest;
  deleted_at = none;
  included = true;
}

-- The row before its fields are set.
abbrev blank_source : Uuid → SourceRecord → Source
blank_source id rec = record {
  id = id;
  provider = rec.provider;
  provider_account = rec.provider_account;
  provider_object_id = truncate 400 rec.provider_object_id;
  conversation_id = none;
  conversation_title = none;
  version = "";
  kind = rec.kind;
  title = none;
  author = none;
  author_label = none;
  from_me = false;
  occurred_at = none;
  ends_at = none;
  body = "";
  body_truncated = false;
  meta = [];
  content_hash = "";
  included = true;
  deleted_at = none;
}

unfoldable pub new_source : Python → SourceRecord → String → Uuid → Source
unfolding set_fields
new_source py rec digest id = set_fields py rec digest (blank_source id rec)
