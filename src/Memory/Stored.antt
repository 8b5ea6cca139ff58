-- ===== src/Memory/Stored.antt =====
-- `embed_chunk` of app/memory.py: what is stored for a chunk, and when nothing is.
use moresocial.Memory.Conflicts.{if_rule}
use mathlib.Core.List.{Mem, mem-cons_self, mem-cons_of_mem}
use moresocial.Memory.Embed.{
  is_cached, embed_chunk, on_chunk, on_vector, store_embedding, embedding_for, add_embedding,
  has_embedding, EmbedResult, Embedder, Index, Embedding, obsolete, exists, discarded, embedded,
  cached,
}
use moresocial.Base.{
  subst, some-injective, refl, first_where, inr, not, none, true, text_eq, false, ◌==◌, some, inl,
  find, [], if◌then◌else◌, Bool, Option, ◌⊎◌, ◌∷◌, length, Uuid, ◌≡◌, String, List, arith,
}
use moresocial.Memory.Extract.{still_valid, members_of, Chunk}

first_where-Mem :
    {A : Type 0} (p : A → Bool) (rows : List A) (r : A)
    → first_where p rows ≡ some r
    → Mem r rows × (p r ≡ true)
first_where-Mem p [] r e = cc
first_where-Mem {A} p (x ∷ rows) r e = by_test (p x) refl e (first_where-Mem p rows r)
  where
    by_test :
        (b : Bool)
        → p x ≡ b
        → (if b then some x else first_where p rows) ≡ some r
        → (first_where p rows ≡ some r → Mem r rows × (p r ≡ true))
        → Mem r (x ∷ rows) × (p r ≡ true)
    by_test true t e h =
        let same = some-injective x r e in
        (
          subst (λ y. Mem y (x ∷ rows)) same (mem-cons_self {a = x} {l = rows}),
          subst (λ y. p y ≡ true) same t,
        )
    by_test false t e h = let (m, q) = h e in (mem-cons_of_mem x m, q)

is_cached-same :
    {V : Type 0} (p : Embedder) (version hash : String) (c : Embedding V)
    → is_cached p version hash c ≡ true
    → (c.content_hash ≡ hash)
      × (c.space ≡ p.embedding_space)
      × (c.dimension ≡ p.embedding_dimension)
      × (c.pipeline_version ≡ version)
is_cached-same p version hash c e = (ground arith, ground arith, ground arith, ground arith)

module _ {V : Type 0} where
  -- An embedding that was in the index, for the same text, space and dimension, in the same version.
  abbrev pub IsCopied : Embedder → String → Index V → Embedding V → Type 0
  IsCopied p version before e =
      (c : Embedding V) × Mem c before.embeddings
      × (c.content_hash ≡ e.content_hash)
      × (c.space ≡ p.embedding_space)
      × (c.dimension ≡ p.embedding_dimension)
      × (c.pipeline_version ≡ version)
      × (e.vector ≡ c.vector)

  -- A new embedding for an embedder: none of its chunk and space is there, it is in the embedder's
  -- space and by its model, and it is of the text that the chunk has then, all of whose sources stand.
  abbrev pub IsStored : Uuid → Embedder → String → Embedding V → Index V → Index V → Type 0
  IsStored id p version e ix ix' =
      (ix' ≡ add_embedding e ix)
      × (e.chunk_id ≡ id)
      × (e.space ≡ p.embedding_space)
      × (e.model ≡ p.embedding_model)
      × (e.pipeline_version ≡ version)
      × (e.dimension ≡ length e.vector)
      × (has_embedding id p.embedding_space ix.embeddings ≡ false)
      × (still_valid (find (λ c. c.id) id ix.store.chunks) (members_of id ix.store) e.content_hash
          ≡ true)

  abbrev pub EmbedEnd :
      Uuid
      → Option Embedder
      → String
      → Option (List V)
      → Index V
      → Index V
      → EmbedResult × Index V
      → Type 0
  EmbedEnd id none version answer before ix out = out ≡ (obsolete, before)
  EmbedEnd id (some p) version answer before ix (embedded, ix') =
      (e : Embedding V) × (answer ≡ some e.vector) × IsStored id p version e ix ix'
  EmbedEnd id (some p) version answer before ix (cached, ix') =
      (e : Embedding V) × IsCopied p version before e × IsStored id p version e ix ix'
  EmbedEnd id (some p) version answer before ix (_, ix') = (ix' ≡ before) ⊎ (ix' ≡ ix)

  module _ (fresh id : Uuid) (p : Embedder) (version hash : String) (answer : Option (List V))
      (before ix : Index V) where
    abbrev End : EmbedResult × Index V → Type 0
    End = EmbedEnd id (some p) version answer before ix

    store-EmbedEnd :
        (vector : List V) (done : EmbedResult)
        → (IsStored id p version
              (embedding_for fresh id p version hash vector)
              ix
              (add_embedding (embedding_for fresh id p version hash vector) ix)
            → End (done, add_embedding (embedding_for fresh id p version hash vector) ix))
        → End (store_embedding done (embedding_for fresh id p version hash vector) ix)
    unfolding store_embedding
    store-EmbedEnd vector done stored = checked _ _ refl refl
      where
        e : Embedding V
        e = embedding_for fresh id p version hash vector

        checked :
            (b b' : Bool)
            → still_valid (find (λ c. c.id) id ix.store.chunks) (members_of id ix.store) hash ≡ b
            → has_embedding id p.embedding_space ix.embeddings ≡ b'
            → End (
                if not b
                then (discarded, ix)
                else if b'
                then (exists, ix)
                else (done, add_embedding e ix))
        checked false b' v h = inr refl
        checked true true v h = inr refl
        checked true false v h = stored (refl, refl, refl, refl, refl, refl, h, v)

    vector-EmbedEnd :
        (o : Option (Embedding V))
        → first_where (is_cached p version hash) before.embeddings ≡ o
        → End (on_vector fresh id p version hash answer ix o)
    vector-EmbedEnd (some c) found =
        let (m, same) = first_where-Mem (is_cached p version hash) before.embeddings c found in
        let (same_text, same_space, same_size, same_version) =
          is_cached-same p version hash c same in
        store-EmbedEnd c.vector cached λ s. (
          embedding_for fresh id p version hash c.vector,
          (c, m, same_text, same_space, same_size, same_version, refl),
          s,
        )
    vector-EmbedEnd none found = asked answer refl
      where
        asked :
            (a : Option (List V)) → answer ≡ a → End (on_vector fresh id p version hash a ix none)
        asked none e = inr refl
        asked (some vector) e =
            store-EmbedEnd vector embedded λ s. (embedding_for fresh id p version hash vector, e, s)

  -- Whatever the embedder answers and whatever others do meanwhile: an embedding is added at most
  -- once for a chunk and a space, and belongs to the text that the chunk has at that moment, with all
  -- of its sources standing. Its vector is the one that the embedder answered, or that of an
  -- embedding that was in the index for the same text, space, dimension and version; on every other
  -- way out nothing is added.
  pub embed_chunk-EmbedEnd :
      (fresh id : Uuid) (p : Option Embedder) (version : String) (answer : Option (List V))
      → (meanwhile : Index V → Index V) (ix : Index V)
      → EmbedEnd id p version answer ix
          (meanwhile ix)
          (embed_chunk fresh id p version answer meanwhile ix)
  unfolding embed_chunk
  embed_chunk-EmbedEnd fresh id none version answer meanwhile ix = refl
  embed_chunk-EmbedEnd fresh id (some p) version answer meanwhile ix =
      if_rule {A = EmbedResult × Index V} P (p.embedding_dimension == 0) (inl refl)
        (found (find (λ c. c.id) id ix.store.chunks))
    where
      P : EmbedResult × Index V → Type 0
      P = EmbedEnd id (some p) version answer ix (meanwhile ix)

      found : (c : Option Chunk) → P (on_chunk fresh id p version answer meanwhile ix c)
      found none = inl refl
      found (some c) =
          if_rule {A = EmbedResult × Index V} P (not (text_eq c.pipeline_version version))
            (inl refl)
            (if_rule {A = EmbedResult × Index V} P
              (has_embedding id p.embedding_space ix.embeddings) (inl refl)
              (vector-EmbedEnd fresh id p version c.content_hash answer ix (meanwhile ix) _ refl))
