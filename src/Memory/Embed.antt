-- ===== src/Memory/Embed.antt =====
-- app/memory.py, `embed_chunk`: a chunk's embedding, looked up or asked for, and stored once the
-- evidence has been checked again. The embedder's answer and what others do to the tables meanwhile
-- are parameters.
use moresocial.Base.{
  first_where, not, none, ◌&&◌, text_eq, ◌==◌, some, exists_where, find, [], if◌then◌else◌, ℕ, Bool,
  Option, ◌∷◌, length, Uuid, String, List, ◌++◌,
}
use moresocial.Memory.Extract.{still_valid, members_of, Store, Chunk}

-- The Embedding rows.
pub record Embedding (V : Type 0) : Type 0 where
  pub id : Uuid
  pub chunk_id : Uuid
  pub model : String
  pub space : String
  pub dimension : ℕ
  pub content_hash : String
  pub pipeline_version : String
  pub vector : List V

pub record Index (V : Type 0) : Type 0 where
  pub store : Store
  pub embeddings : List (Embedding V)

-- The embedder that serves the job, with no dimension where embeddings are off.
pub record Embedder : Type 0 where
  pub embedding_model : String
  pub embedding_space : String
  pub embedding_dimension : ℕ

pub data EmbedResult : Type 0 where
  obsolete disabled gone exists discarded embedded cached raised : EmbedResult

module _ {V : Type 0} where
  abbrev pub is_of : Uuid → String → Embedding V → Bool
  is_of chunk_id space e = e.chunk_id == chunk_id && text_eq e.space space

  abbrev pub has_embedding : Uuid → String → List (Embedding V) → Bool
  has_embedding chunk_id space = exists_where (is_of chunk_id space)

  -- An embedding of the same text in the same space.
  abbrev pub is_cached : Embedder → String → String → Embedding V → Bool
  is_cached p version hash e =
      text_eq e.content_hash hash
      && (text_eq e.space p.embedding_space
          && (e.dimension == p.embedding_dimension && text_eq e.pipeline_version version))

  abbrev pub embedding_for : Uuid → Uuid → Embedder → String → String → List V → Embedding V
  embedding_for fresh id p version hash vector = record {
    id = fresh;
    chunk_id = id;
    model = p.embedding_model;
    space = p.embedding_space;
    dimension = length vector;
    content_hash = hash;
    pipeline_version = version;
    vector = vector;
  }

  abbrev pub add_embedding : Embedding V → Index V → Index V
  add_embedding e ix = record ix { embeddings = ix.embeddings ++ e ∷ [] }

  -- The second transaction.
  unfoldable pub store_embedding : EmbedResult → Embedding V → Index V → EmbedResult × Index V
  unfolding members_of still_valid
  store_embedding done e ix =
      if not (
        still_valid (find (λ c. c.id) e.chunk_id ix.store.chunks) (members_of e.chunk_id ix.store)
          e.content_hash)
      then (discarded, ix)
      else if has_embedding e.chunk_id e.space ix.embeddings
      then (exists, ix)
      else (done, add_embedding e ix)

  abbrev pub on_vector :
      Uuid
      → Uuid
      → Embedder
      → String
      → String
      → Option (List V)
      → Index V
      → Option (Embedding V)
      → EmbedResult × Index V
  on_vector fresh id p version hash answer ix (some c) =
      store_embedding cached (embedding_for fresh id p version hash c.vector) ix
  on_vector fresh id p version hash none ix none = (raised, ix)
  on_vector fresh id p version hash (some vector) ix none =
      store_embedding embedded (embedding_for fresh id p version hash vector) ix

  abbrev pub on_chunk :
      Uuid
      → Uuid
      → Embedder
      → String
      → Option (List V)
      → (Index V → Index V)
      → Index V
      → Option Chunk
      → EmbedResult × Index V
  on_chunk fresh id p version answer meanwhile ix none = (gone, ix)
  on_chunk fresh id p version answer meanwhile ix (some c) =
      if not (text_eq c.pipeline_version version)
      then (gone, ix)
      else if has_embedding id p.embedding_space ix.embeddings
      then (exists, ix)
      else on_vector fresh id p version c.content_hash answer (meanwhile ix)
          (first_where (is_cached p version c.content_hash) ix.embeddings)

  -- `embed_chunk` in a pipeline version
  unfoldable pub embed_chunk :
      Uuid
      → Uuid
      → Option Embedder
      → String
      → Option (List V)
      → (Index V → Index V)
      → Index V
      → EmbedResult × Index V
  unfolding store_embedding
  embed_chunk fresh id none version answer meanwhile ix = (obsolete, ix)
  embed_chunk fresh id (some p) version answer meanwhile ix =
      if p.embedding_dimension == 0
      then (disabled, ix)
      else on_chunk fresh id p version answer meanwhile ix (find (λ c. c.id) id ix.store.chunks)
