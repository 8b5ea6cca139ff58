-- ===== src/Ingest/Forgotten.antt =====
-- What is left of sources that `exclude` of app/ingest.py removes.
use moresocial.Memory.Extract.{ChunkSource, Chunk}
use moresocial.Ingest.Rebuilds.{schedule_rebuilds, enqueue_all, Context}
use moresocial.Ingest.People.{id_in, option_id_in}
use moresocial.Base.{
  map, update_where-clears, update_where-set, refl, delete_where-none, none, some, select_where,
  true, sym, false, subst, [], All, ◌≡◌, ◌∷◌, Option, List, Bool, Uuid, String,
}
use moresocial.Ingest.{ExclusionScope, AnswerSource, EventPerson, Answer, Python, Store, Source}
use moresocial.Ingest.Removal.{
  removed_answer, drop_derived, drop_suggestions, scope_and_key, drop_answers, excluded_ids, ids_of,
  drop_claims, delete_sources, drop_chunks, invalidate, exclude,
}

-- No row refers to one of the sources.
abbrev pub IsForgotten : List Uuid → Store → Type 0
IsForgotten ids db =
    All (λ s. id_in s.id ids ≡ false) db.sources
    × All (λ x. id_in x.source_id ids ≡ false) db.participants
    × All (λ x. id_in x.source_id ids ≡ false) db.chunk_sources
    × All (λ x. id_in x.source_id ids ≡ false) db.claim_sources
    × All (λ x. id_in x.source_id ids ≡ false) db.answer_sources
    × All (λ e. option_id_in e.suggested_source_id ids ≡ false) db.event_people

-- The answers that cite one of the sources.
abbrev pub answers_citing : List Uuid → List AnswerSource → List Uuid
answers_citing ids rows = ids_of (λ x. x.answer_id) (select_where (λ x. id_in x.source_id ids) rows)

abbrev pub AreWithdrawn : List Uuid → List Answer → Type 0
AreWithdrawn ids = All λ a. id_in a.id ids ≡ true → (a.answer ≡ removed_answer) × (a.stale ≡ true)

-- The chunks that were made from one of the sources.
abbrev pub chunks_citing : List Uuid → List ChunkSource → List Uuid
chunks_citing ids rows =
    map {A = ChunkSource} {B = Uuid} (λ x. x.chunk_id)
      (select_where (λ x. id_in x.source_id ids) rows)

abbrev pub AreDropped : List Uuid → List Chunk → Type 0
AreDropped ids = All λ c. id_in c.id ids ≡ false

abbrev Rest : Type 0
Rest = List EventPerson × (List Answer × List Chunk)

abbrev rest_of : Store → Rest
rest_of db = (db.event_people, (db.answers, db.chunks))

enqueue_all-rest :
    (py : Python) (cx : Context) (changes : String) (cs : List (String × Option String))
    (db : Store)
    → rest_of (enqueue_all py cx changes cs db) ≡ rest_of db
unfolding enqueue_all
enqueue_all-rest py cx changes [] db = refl
enqueue_all-rest py cx changes (c ∷ cs) db = enqueue_all-rest py cx changes cs _

-- A test on rows that sees no list is false of all.
none_of :
    {A : Type 0} (p : A → Bool) (rs : List A) → ((r : A) → p r ≡ false) → All (λ r. p r ≡ false) rs
none_of p [] h = tt
none_of p (r ∷ rs) h = (h r, none_of p rs h)

not_in_none : (o : Option Uuid) → option_id_in o [] ≡ false
not_in_none none = refl
not_in_none (some i) = refl

-- Suggestions are cleared, the answers that cited are withdrawn and the chunks are dropped.
abbrev IsCleared : List Uuid → Store → Rest → Type 0
IsCleared ids db (events, (answers, chunks)) =
    All (λ e. option_id_in e.suggested_source_id ids ≡ false) events
    × (AreWithdrawn (answers_citing ids db.answer_sources) answers
        × AreDropped (chunks_citing ids db.chunk_sources) chunks)

none_made : (rows : List ChunkSource) → chunks_citing [] rows ≡ []
none_made [] = refl
none_made (x ∷ rows) = none_made rows

none_citing : (rows : List AnswerSource) → answers_citing [] rows ≡ []
none_citing [] = refl
none_citing (x ∷ rows) = none_citing rows

none_withdrawn : (answers : List Answer) → AreWithdrawn [] answers
none_withdrawn [] = tt
none_withdrawn (a ∷ answers) = ((λ e. cc), none_withdrawn answers)

drop_derived-IsCleared :
    (ids : List Uuid) (db : Store) → IsCleared ids db (rest_of (drop_derived ids db))
unfolding drop_chunks drop_claims drop_answers drop_suggestions
drop_derived-IsCleared ids db = (
  update_where-clears (λ e. option_id_in e.suggested_source_id ids) _ db.event_people (λ e. refl),
  (
    update_where-set (λ a. (a.answer ≡ removed_answer) × (a.stale ≡ true))
        (λ a. id_in a.id (answers_citing ids db.answer_sources))
        (λ a. record a { answer = removed_answer; stale = true }) db.answers
        (λ a e e'. (refl, refl)),
    delete_where-none (λ c. id_in c.id (chunks_citing ids db.chunk_sources)) db.chunks,
  ),
)

invalidate-IsCleared :
    (py : Python) (cx : Context) (rebuild : Bool) (ids : List Uuid) (db : Store)
    → IsCleared ids db (rest_of (invalidate py cx rebuild ids db))
unfolding invalidate schedule_rebuilds
invalidate-IsCleared py cx rebuild [] db = (
  none_of _ db.event_people (λ e. not_in_none e.suggested_source_id),
  (
    subst (λ is. AreWithdrawn is db.answers) (sym (none_citing db.answer_sources))
        (none_withdrawn db.answers),
    subst (λ is. AreDropped is db.chunks) (sym (none_made db.chunk_sources))
        (none_of (λ c. id_in c.id []) db.chunks (λ c. refl)),
  ),
)
invalidate-IsCleared py cx true (i ∷ ids) db =
    subst (IsCleared (i ∷ ids) db) (sym (enqueue_all-rest py cx _ _ _))
      (drop_derived-IsCleared (i ∷ ids) db)
invalidate-IsCleared py cx false (i ∷ ids) db = drop_derived-IsCleared (i ∷ ids) db

delete_sources-IsForgotten :
    (ids : List Uuid) (db : Store)
    → All (λ e. option_id_in e.suggested_source_id ids ≡ false) db.event_people
    → IsForgotten ids (delete_sources ids db)
unfolding delete_sources
delete_sources-IsForgotten ids db h = (
  delete_where-none (λ s. id_in s.id ids) db.sources,
  delete_where-none (λ x. id_in x.source_id ids) db.participants,
  delete_where-none (λ x. id_in x.source_id ids) db.chunk_sources,
  delete_where-none (λ x. id_in x.source_id ids) db.claim_sources,
  delete_where-none (λ x. id_in x.source_id ids) db.answer_sources,
  h,
)

-- Once a source or its conversation is excluded, no row of any table refers to a source that was
-- removed, every answer that cited one has lost its text and is stale, and no chunk that was made
-- from one is left.
pub exclude-IsForgotten :
    (py : Python) (cx : Context) (s : Source) (scope : ExclusionScope) (db : Store)
    → IsForgotten (excluded_ids (scope_and_key scope s).0 s db.sources) (exclude py cx s scope db).0
      × AreWithdrawn
          (answers_citing (excluded_ids (scope_and_key scope s).0 s db.sources) db.answer_sources)
          (exclude py cx s scope db).0.answers
      × AreDropped
          (chunks_citing (excluded_ids (scope_and_key scope s).0 s db.sources) db.chunk_sources)
          (exclude py cx s scope db).0.chunks
unfolding exclude delete_sources
exclude-IsForgotten py cx s scope db =
    let ids = excluded_ids (scope_and_key scope s).0 s db.sources in
    let cleared = invalidate-IsCleared py cx true ids _ in
    (
      delete_sources-IsForgotten ids (invalidate py cx true ids _) cleared.0,
      cleared.1.0,
      cleared.1.1,
    )
