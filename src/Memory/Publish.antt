-- ===== src/Memory/Publish.antt =====
-- app/memory.py, `extract_chunk`: from a chunk through the model's answer to published claims.
use moresocial.Memory.Operations.{publish_claim}
use moresocial.Settings.{if_text}
use moresocial.Base.{
  false, true, Bool, is_some, not, length, text_append, ◌++◌, find, ◌==◌, ◌+◌, text_eq, ◌∷◌,
  exists_where, [], update_where, first_where, ℕ, none, if◌then◌else◌, some, Time, map, String, str,
  Uuid, List, Option,
}
use moresocial.Memory.{Claims, Extracted, Source, Python}
use moresocial.Memory.Extract.{
  validate_claims, exists, invalid_schema, valid, gone, invalid_output, Chunk, discarded, extracted,
  Validated, RawClaim, crashed, still_valid, Extraction, members_of, validate_rows, ChunkSource,
  Store,
}

-- `people.setdefault(person_id, 'P%d' % (len(people) + 1))`
abbrev pub tag_person : Uuid → List (Uuid × String) → List (Uuid × String)
tag_person p people =
    if exists_where (λ e. e.0 == p) people
    then people
    else people ++ (p, text_append "P" (str (length people + 1))) ∷ []

abbrev pub tag_author : Option (String × Uuid) → List (Uuid × String) → List (Uuid × String)
tag_author none people = people
tag_author (some (value, p)) people = tag_person p people

abbrev pub author_of : Source → Option String
author_of s = if s.from_me then none else if_text s.author

abbrev pub identifier : Option String → List (String × Uuid) → Option (String × Uuid)
identifier none ids = none
identifier (some a) ids = first_where (λ e. text_eq e.0 a) ids

-- The persons who speak in a chunk, each with a tag.
unfoldable pub people_of :
    List (String × Uuid) → List (ChunkSource × Source) → List (Uuid × String) → List (Uuid × String)
unfolding str
people_of ids [] people = people
people_of ids ((cs, s) ∷ ms) people =
    people_of ids ms (tag_author (identifier (author_of s) ids) people)

abbrev pub tags_of : List (Uuid × String) → List String
tags_of people = map (λ e. e.1) people

abbrev pub person_in : Option (Uuid × String) → Option Uuid
person_in none = none
person_in (some (p, tag)) = some p

-- `person_by_tag.get(tag)`
abbrev pub person_of : String → List (Uuid × String) → Option Uuid
person_of tag people = person_in (first_where (λ e. text_eq e.1 tag) people)

abbrev pub labels_of : List (ChunkSource × Source) → List String
labels_of ms = map (λ m. m.0.label) ms

abbrev pub or_entry : Option Source → Bool → Source → Option Source
or_entry (some t) here s = some t
or_entry none true s = some s
or_entry none false s = none

-- `by_label[label]`: the last entry of the label, or a KeyError.
abbrev pub by_label : String → List (ChunkSource × Source) → Option Source
by_label label [] = none
by_label label ((cs, s) ∷ ms) = or_entry (by_label label ms) (text_eq cs.label label) s

abbrev pub cons_source : Option Source → Option (List Source) → Option (List Source)
cons_source (some s) (some ss) = some (s ∷ ss)
cons_source _ _ = none

unfoldable pub evidence_of : List String → List (ChunkSource × Source) → Option (List Source)
evidence_of [] ms = some []
evidence_of (e ∷ es) ms = cons_source (by_label e ms) (evidence_of es ms)

module _ (py : Python) (workspace_id : Uuid) where
  abbrev pub publish_one :
      Uuid → Extracted → Option Uuid → Option (List Source) → Claims → Option Claims
  publish_one fresh c p none m = none
  publish_one fresh c p (some evidence) m =
      some (publish_claim py workspace_id fresh c p evidence m).0

  abbrev pub or_stop : (Claims → Option Claims) → Option Claims → Option Claims
  or_stop f none = none
  or_stop f (some m) = f m

  -- The claims of an answer, one after another, with ids from `fresh` on.
  unfoldable pub publish_all :
      (ℕ → Uuid)
      → ℕ
      → List (Uuid × String)
      → List (ChunkSource × Source)
      → List Extracted
      → Claims
      → Option Claims
  unfolding publish_claim evidence_of
  publish_all fresh n people ms [] m = some m
  publish_all fresh n people ms (c ∷ cs) m =
      or_stop (λ m'. publish_all fresh (n + 1) people ms cs m')
        (publish_one (fresh n) c (person_of c.subject people) (evidence_of c.evidence ms) m)

  abbrev pub mark_extracted : Uuid → Time → Store → Store
  mark_extracted id now db = record db {
    chunks = update_where (λ c. c.id == id) (λ c. record c { extracted_at = some now }) db.chunks;
  }

  abbrev pub store_claims : Uuid → Time → Store → Option Claims → Extraction × Store
  store_claims id now db none = (crashed, db)
  store_claims id now db (some m) = (extracted, mark_extracted id now (record db { claims = m }))

  -- The second transaction: the evidence is read again, and the claims are published if it stands.
  unfoldable pub publish_current :
      Uuid
      → Time
      → (ℕ → Uuid)
      → String
      → List (Uuid × String)
      → List Extracted
      → Store
      → Extraction × Store
  unfolding publish_all members_of still_valid
  publish_current id now fresh hash people claims db =
      if still_valid (find (λ c. c.id) id db.chunks) (members_of id db) hash
      then store_claims id now db (publish_all fresh 0 people (members_of id db) claims db.claims)
      else (discarded, db)

  abbrev pub on_answer :
      Uuid
      → Time
      → (ℕ → Uuid)
      → String
      → List (Uuid × String)
      → Validated
      → Store
      → Extraction × Store
  on_answer id now fresh hash people invalid_schema db = (invalid_output, db)
  on_answer id now fresh hash people (valid claims) db =
      publish_current id now fresh hash people claims db

  abbrev pub extract_found :
      Uuid
      → Time
      → (ℕ → Uuid)
      → String
      → (List (ChunkSource × Source) → List (Uuid × String) → Option (List (Option RawClaim)))
      → (Store → Store)
      → Store
      → Option Chunk
      → Extraction × Store
  extract_found id now fresh version answer meanwhile db none = (gone, db)
  extract_found id now fresh version answer meanwhile db (some c) =
      let ms = members_of id db in
      let people = people_of db.identifiers ms [] in
      if not (text_eq c.pipeline_version version)
      then (gone, db)
      else if is_some c.extracted_at
      then (exists, db)
      else on_answer id now fresh c.content_hash people
          (validate_claims py (answer ms people) (labels_of ms) ("ME" ∷ tags_of people))
          (meanwhile db)

  -- `extract_chunk` in a pipeline version, for a model that answers.
  unfoldable pub extract_chunk :
      Uuid
      → Time
      → (ℕ → Uuid)
      → String
      → (List (ChunkSource × Source) → List (Uuid × String) → Option (List (Option RawClaim)))
      → (Store → Store)
      → Store
      → Extraction × Store
  unfolding publish_current validate_rows people_of
  extract_chunk id now fresh version answer meanwhile db =
      extract_found id now fresh version answer meanwhile db (find (λ c. c.id) id db.chunks)
