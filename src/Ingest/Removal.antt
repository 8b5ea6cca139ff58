-- ===== src/Ingest/Removal.antt =====
-- app/ingest.py: `invalidate`, `exclude`, `delete_provider_data`. A statement
-- over no ids does nothing, so the tests such as `if chunk_ids` are not written out.
use moresocial.Ingest.Rebuilds.{
  conversations_of, conversation_of, schedule_rebuilds, same_conversation, Context,
}
use moresocial.Memory.Extract.{ChunkSource}
use moresocial.Memory.{is_confirmed, ClaimSource, Claim}
use moresocial.Base.{
  false, length, ◌++◌, ◌==◌, not, ◌&&◌, true, text_in, exists_where, none, map, update_where,
  select_where, ℕ, if◌then◌else◌, some, delete_where, ◌∷◌, text_eq, truncate, [], Bool, text_append,
  Option, List, Uuid, String,
}
use moresocial.Ingest.{
  conversation, object, ExclusionScope, Exclusion, Source, AnswerSource, Python, Store,
  IngestResult,
}
use moresocial.Ingest.Text.{truthy, or_text}
use moresocial.Ingest.People.{option_id_in, prune_people, id_in}

abbrev pub removed_answer : String
removed_answer = "This answer was removed because evidence it relied on was deleted or excluded."

-- The chunks made from the sources, with their rows of ChunkSource.
unfoldable pub drop_chunks : List Uuid → Store → Store
drop_chunks ids db =
    let chunk_ids =
      map {A = ChunkSource} {B = Uuid} (λ x. x.chunk_id)
        (select_where (λ x. id_in x.source_id ids) db.chunk_sources) in
    record db {
      chunks = delete_where (λ c. id_in c.id chunk_ids) db.chunks;
      chunk_sources = delete_where (λ x. id_in x.chunk_id chunk_ids) db.chunk_sources;
    }

abbrev pub is_supported : List ClaimSource → Claim → Bool
is_supported rows c = exists_where (λ x. x.claim_id == c.id) rows

abbrev pub is_extracted : Claim → Bool
is_extracted c = text_eq c.origin "extraction" && not (is_confirmed c.status)

-- The claims that cited the sources; a deleted one has no row of ClaimSource left.
unfoldable pub drop_claims : List Uuid → Store → Store
drop_claims ids db =
    let claim_ids =
      map {A = ClaimSource} {B = Uuid} (λ x. x.claim_id)
        (select_where (λ x. id_in x.source_id ids) db.claim_sources) in
    let rows = delete_where (λ x. id_in x.source_id ids) db.claim_sources in
    let kept =
      delete_where (λ c. id_in c.id claim_ids && is_extracted c && not (is_supported rows c))
        db.claims in
    record db {
      claim_sources = rows;
      claims =
          update_where
            (λ c. id_in c.id claim_ids && is_confirmed c.status && not (is_supported rows c))
            (λ c. record c { basis = "user" }) kept;
    }

abbrev pub ids_of : (AnswerSource → Option Uuid) → List AnswerSource → List Uuid
ids_of f [] = []
ids_of f (x ∷ xs) = let rest = ids_of f xs in elim (f x) [ none ↦ rest | some i ↦ i ∷ rest ]

-- The answers and drafts that cited the sources.
unfoldable pub drop_answers : List Uuid → Store → Store
drop_answers ids db =
    let citing = select_where (λ x. id_in x.source_id ids) db.answer_sources in
    let answer_ids = ids_of (λ x. x.answer_id) citing in
    let draft_ids = ids_of (λ x. x.draft_id) citing in
    record db {
      answers =
          update_where (λ a. id_in a.id answer_ids)
            (λ a. record a { answer = removed_answer; stale = true }) db.answers;
      drafts = update_where (λ d. id_in d.id draft_ids) (λ d. record d { stale = true }) db.drafts;
      answer_sources =
          delete_where (λ x. option_id_in x.draft_id draft_ids && id_in x.source_id ids)
            (delete_where (λ x. option_id_in x.answer_id answer_ids) db.answer_sources);
    }

unfoldable pub drop_suggestions : List Uuid → Store → Store
drop_suggestions ids db = record db {
  event_people =
      update_where (λ e. option_id_in e.suggested_source_id ids)
        (λ e. record e { suggested_status = none; suggested_source_id = none }) db.event_people;
}

abbrev pub no_result : IngestResult
no_result = record {
  created = 0;
  updated = 0;
  unchanged = 0;
  skipped = 0;
  deleted = 0;
  conversations = [];
  changes = [];
}

abbrev pub drop_derived : List Uuid → Store → Store
drop_derived ids db = drop_suggestions ids (drop_answers ids (drop_claims ids (drop_chunks ids db)))

abbrev invalidated : Python → List Uuid → List Source → IngestResult
invalidated py ids sources = record no_result {
  conversations = conversations_of (select_where (λ s. id_in s.id ids) sources);
  changes = map {A = Uuid} {B = String × String} (λ i. (py.uuid_text i, "invalidated")) ids;
}

abbrev invalidate_some : Python → Context → Bool → List Uuid → Store → Store
invalidate_some py cx rebuild ids db =
    let dropped = drop_derived ids db in
    if rebuild
    then schedule_rebuilds py cx (invalidated py ids db.sources)
        (text_append "invalidate:" (py.isoformat cx.now)) dropped
    else dropped

unfoldable pub invalidate : Python → Context → Bool → List Uuid → Store → Store
invalidate py cx rebuild [] db = db
invalidate py cx rebuild (i ∷ ids) db = invalidate_some py cx rebuild (i ∷ ids) db

-- DELETE of sources, with the rows that refer to them.
unfoldable pub delete_sources : List Uuid → Store → Store
delete_sources ids db = record db {
  sources = delete_where (λ s. id_in s.id ids) db.sources;
  participants = delete_where (λ x. id_in x.source_id ids) db.participants;
  chunk_sources = delete_where (λ x. id_in x.source_id ids) db.chunk_sources;
  claim_sources = delete_where (λ x. id_in x.source_id ids) db.claim_sources;
  answer_sources = delete_where (λ x. id_in x.source_id ids) db.answer_sources;
}

abbrev pub same_scope : ExclusionScope → ExclusionScope → Bool
same_scope object object = true
same_scope conversation conversation = true
same_scope _ _ = false

abbrev pub is_exclusion : String → ExclusionScope → String → Exclusion → Bool
is_exclusion provider scope key x =
    text_eq x.provider provider && (same_scope x.scope scope && text_eq x.key key)

-- The scope and key of a tombstone: a source without a conversation is excluded itself.
abbrev pub by_key : Option String → Source → ExclusionScope × String
by_key none s = (object, s.provider_object_id)
by_key (some key) s = (conversation, key)

abbrev pub scope_and_key : ExclusionScope → Source → ExclusionScope × String
scope_and_key object s = (object, s.provider_object_id)
scope_and_key conversation s = by_key (truthy s.conversation_id) s

abbrev label_of : Source → String
label_of s =
    or_text (truthy s.conversation_title)
      (or_text (truthy s.author_label) (or_text (truthy s.title) s.provider))

abbrev pub exclusion_of : ExclusionScope × String → Source → Exclusion
exclusion_of (scope, key) s = record {
  provider = s.provider;
  scope = scope;
  key = key;
  label = truncate 300 (label_of s);
}

abbrev pub add_exclusion : Exclusion → List Exclusion → List Exclusion
add_exclusion x xs =
    if exists_where (is_exclusion x.provider x.scope x.key) xs then xs else xs ++ x ∷ []

abbrev pub excluded_ids : ExclusionScope → Source → List Source → List Uuid
excluded_ids object s sources = s.id ∷ []
excluded_ids conversation s sources =
    map {A = Source} {B = Uuid} (λ x. x.id)
      (select_where (λ x. same_conversation (conversation_of x) (conversation_of s)) sources)

unfoldable pub exclude : Python → Context → Source → ExclusionScope → Store → Store × ℕ
unfolding invalidate delete_sources
exclude py cx s scope db =
    let (scope', key) = scope_and_key scope s in
    let noted = record db {
      exclusions = add_exclusion (exclusion_of (scope', key) s) db.exclusions;
    } in
    let ids = excluded_ids scope' s db.sources in
    (delete_sources ids (invalidate py cx true ids noted), length ids)

unfoldable pub delete_provider_data : Python → Context → List String → Store → Store × ℕ
unfolding invalidate delete_sources prune_people
delete_provider_data py cx providers db =
    let ids =
      map {A = Source} {B = Uuid} (λ s. s.id)
        (select_where (λ s. text_in s.provider providers) db.sources) in
    (prune_people (delete_sources ids (invalidate py cx false ids db)), length ids)
