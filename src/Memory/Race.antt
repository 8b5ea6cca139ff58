-- ===== src/Memory/Race.antt =====
-- `extract_chunk` of app/memory.py against what others do while the model answers.
use moresocial.Memory.Conflicts.{if_rule}
use moresocial.Memory.Evidence.{
  joined_rows-All, sort_members-All, current-Cited, publish_all-All, If, Cited, is_usable,
}
use moresocial.Memory.Publish.{
  publish_all, extract_found, store_claims, on_answer, publish_current, extract_chunk,
}
use moresocial.Base.{
  false, none, refl, find, is_some, if◌then◌else◌, text_eq, Bool, not, arith, some, true, Option,
  List, String, ℕ, Time, ◌≡◌, Uuid, All,
}
use moresocial.Memory.{Claims, Source, Extracted, Python, ClaimSource}
use moresocial.Memory.Extract.{
  invalid_schema, discarded, all_current, Chunk, valid, Validated, RawClaim, ChunkSource, exists,
  still_valid, gone, members_of, extracted, Extraction, Store,
}

-- What an extraction has left: its claims cite what may be cited, or nothing has been published.
abbrev pub Published : (ClaimSource → Type 0) → Store → Store → Extraction × Store → Type 0
Published P before meanwhile (extracted, db) = All P db.claims.claim_sources
Published P before meanwhile (gone, db) = db ≡ before
Published P before meanwhile (exists, db) = db ≡ before
Published P before meanwhile (_, db) = db ≡ meanwhile

module _ (P : ClaimSource → Type 0) (py : Python) (workspace_id : Uuid) where
  publish_current-Published :
      (id : Uuid) (now : Time) (fresh : ℕ → Uuid) (hash : String) (people : List (Uuid × String))
      → (claims : List Extracted) (before db : Store)
      → All (λ s. is_usable s ≡ true → Cited P s) db.sources
      → All P db.claims.claim_sources
      → Published P before db (publish_current py workspace_id id now fresh hash people claims db)
  unfolding publish_current members_of still_valid
  publish_current-Published id now fresh hash people claims before db usable old =
      checked (find (λ c. c.id) id db.chunks) (still_valid (find (λ c. c.id) id db.chunks) ms hash)
        refl
    where
      ms : List (ChunkSource × Source)
      ms = members_of id db

      stored :
          (m : Option Claims)
          → If (λ m'. All P m'.claim_sources) m
          → Published P before db (store_claims py workspace_id id now db m)
      stored none a = refl
      stored (some m) a = a

      current : (c : Option Chunk) → still_valid c ms hash ≡ true → all_current ms ≡ true
      current none e = ground arith
      current (some c) e = ground arith

      checked :
          (c : Option Chunk) (b : Bool)
          → still_valid c ms hash ≡ b
          → Published P before db (
              if b
              then store_claims py workspace_id id now db
                  (publish_all py workspace_id fresh 0 people ms claims db.claims)
              else (discarded, db))
      checked c false e = refl
      checked c true e = stored _ (
          publish_all-All P py workspace_id fresh 0 people ms claims db.claims
            (current-Cited P ms (current c e)
              (sort_members-All P _ (joined_rows-All P id db.chunk_sources db.sources usable)))
            old)

  -- Whatever the model answers, and whatever others do to the tables meanwhile: an extraction
  -- that publishes cites, beyond what was cited before, only sources that are included and not
  -- deleted at that moment, in the version they have then (for every property `P` of such
  -- citations that the older citations have too). On every other way out nothing is published:
  -- the tables are as they were, or as the others left them.
  pub extract_chunk-Published :
      (id : Uuid) (now : Time) (fresh : ℕ → Uuid) (version : String)
      → (answer : List (ChunkSource × Source)
          → List (Uuid × String)
          → Option (List (Option RawClaim)))
      → (meanwhile : Store → Store) (db : Store)
      → All (λ s. is_usable s ≡ true → Cited P s) (meanwhile db).sources
      → All P (meanwhile db).claims.claim_sources
      → Published P db
          (meanwhile db)
          (extract_chunk py workspace_id id now fresh version answer meanwhile db)
  unfolding extract_chunk
  extract_chunk-Published id now fresh version answer meanwhile db usable old =
      found (find (λ c. c.id) id db.chunks)
    where
      answered :
          (hash : String) (people : List (Uuid × String)) (v : Validated)
          → Published P db
              (meanwhile db)
              (on_answer py workspace_id id now fresh hash people v (meanwhile db))
      answered hash people invalid_schema = refl
      answered hash people (valid claims) =
          publish_current-Published id now fresh hash people claims db (meanwhile db) usable old

      found :
          (c : Option Chunk)
          → Published P db
              (meanwhile db)
              (extract_found py workspace_id id now fresh version answer meanwhile db c)
      found none = refl
      found (some c) =
          if_rule {A = Extraction × Store} (Published P db (meanwhile db))
            (not (text_eq c.pipeline_version version)) refl
            (if_rule {A = Extraction × Store} (Published P db (meanwhile db))
              (is_some c.extracted_at) refl (answered c.content_hash _ _))
