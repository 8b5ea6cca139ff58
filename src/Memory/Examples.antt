-- ===== src/Memory/Examples.antt =====
-- Claims of app/memory.py on small workspaces.
use moresocial.Memory.Operations.{reject_claim, new_claim, publish_claim}
use moresocial.Memory.Stored.{embed_chunk-EmbedEnd, EmbedEnd}
use moresocial.Memory.Embed.{EmbedResult, embedded, Embedder, embed_chunk, embedding_for, Index}
use moresocial.Memory.Segments.{plan_chunks-body, IsCarried}
use moresocial.Memory.Chunks.{Rendered, plan_chunks}
use moresocial.Memory.Rejections.{declined_stays}
use moresocial.Memory.Extract.{RawClaim, discarded, Extraction, ChunkSource, Store}
use moresocial.Base.{
  ℕ, All, false, Option, true, refl, arith, ◌∷◌, ◌+◌, string_discrete, map, none, str, Time, ◌≡◌,
  [], some, Uuid, List, String,
}
use moresocial.Memory.Conflicts.{IsSettled}
use moresocial.Memory.Race.{extract_chunk-Published, Published}
use moresocial.Memory.Publish.{extract_chunk}
use moresocial.Memory.{active, superseded, Source, Extracted, Claim, Claims, Python}
use moresocial.Memory.Settled.{AreFresh, changes-IsSettled, changes, published, Change}

abbrev demo_python : Python
demo_python = record {
  sha256 = λ s. s;
  lower = λ s. s;
  collapse_spaces = λ s. s;
  strip_marks = λ s. s;
  strip = λ s. s;
  uuid_text = str;
}

abbrev no_claims : Claims
no_claims = record { claims = []; claim_sources = []; rejections = [] }

abbrev lives_in : String → Extracted
lives_in place = record {
  subject = "P1";
  category = "life_update";
  attribute = some "location";
  value = place;
  basis = "explicit";
  evidence = "S1" ∷ [];
}

abbrev letter : Uuid → Time → Source
letter id at = record {
  id = id;
  version = "v1";
  included = true;
  deleted_at = none;
  occurred_at = some at;
  from_me = false;
  author = some "ann@example.org";
}

-- A later letter names another place.
abbrev moves : List Change
moves =
    published 1 (lives_in "Utrecht") (some 7) (letter 11 100 ∷ [])
    ∷ published 2 (lives_in "Delft") (some 7) (letter 12 200 ∷ [])
    ∷ []

statuses_after :
    map (λ c. c.status) (changes demo_python 5 moves no_claims).claims ≡ superseded ∷ active ∷ []
unfolding publish_claim string_discrete str
statuses_after = refl

moves_new : AreFresh demo_python 5 moves no_claims
unfolding publish_claim string_discrete str
moves_new = (tt, ((refl, tt), tt))

changes-IsSettled_example : IsSettled (changes demo_python 5 moves no_claims)
changes-IsSettled_example =
    changes-IsSettled demo_python 5 moves no_claims moves_new (λ t e. omega arith)

abbrev wrong_claim : Claim
wrong_claim = new_claim demo_python 5 1 (lives_in "Utrecht") (some 7) (letter 11 100 ∷ [])

declined_stays_example :
    publish_claim demo_python 5 3
      (lives_in "Utrecht")
      (some 7)
      (letter 13 300 ∷ [])
      (changes demo_python 5 moves (reject_claim demo_python 5 wrong_claim no_claims))
    ≡ (changes demo_python 5 moves (reject_claim demo_python 5 wrong_claim no_claims), none)
declined_stays_example =
    declined_stays demo_python 5 wrong_claim moves no_claims 3 (lives_in "Utrecht") (some 7)
      (letter 13 300 ∷ []) refl

abbrev demo_store : Store
demo_store = record {
  chunks =
      record { id = 21; content_hash = "hash"; pipeline_version = "1"; extracted_at = none } ∷ [];
  chunk_sources =
      record { chunk_id = 21; source_id = 11; source_version = "v1"; label = "S1" } ∷ [];
  sources = letter 11 100 ∷ [];
  identifiers = ("ann@example.org", 7) ∷ [];
  claims = no_claims;
}

abbrev demo_answer :
    List (ChunkSource × Source) → List (Uuid × String) → Option (List (Option RawClaim))
demo_answer ms people = some (
    some (record {
      subject = some "P1";
      category = some "life_update";
      attribute = some "location";
      value = some "Utrecht";
      basis = some "explicit";
      evidence = some ("S1" ∷ []);
    })
    ∷ [])

abbrev delete_all : Store → Store
delete_all db = record db {
  sources = map {A = Source} {B = Source} (λ s. record s { deleted_at = some 150 }) db.sources;
}

abbrev run_demo : (Store → Store) → Extraction × Store
run_demo meanwhile =
    extract_chunk demo_python 5 21 300 (λ n. 30 + n) "1" demo_answer meanwhile demo_store

published_result : map (λ c. c.source_id) (run_demo (λ db. db)).1.claims.claim_sources ≡ 11 ∷ []
unfolding extract_chunk string_discrete
published_result = refl

deleted_result : (run_demo delete_all).0 ≡ discarded
unfolding extract_chunk string_discrete
deleted_result = refl

extract_chunk-Published_example :
    Published (λ cs. cs.source_version ≡ "v1") demo_store demo_store (run_demo (λ db. db))
extract_chunk-Published_example =
    extract_chunk-Published (λ cs. cs.source_version ≡ "v1") demo_python 5 21 300 (λ n. 30 + n) "1"
      demo_answer (λ db. db) demo_store ((λ u id. refl), tt) tt

abbrev rendered : Uuid → String → Rendered
rendered id body = record { id = id; version = "v1"; body = body; when = "undated"; name = "Ann" }

abbrev two_letters : List Rendered
two_letters = rendered 11 "hello" ∷ rendered 12 "" ∷ []

planned_texts :
    map (λ p. p.text) (plan_chunks two_letters) ≡ "[S1] undated Ann: hello\n[S2] undated Ann: " ∷ []
unfolding plan_chunks string_discrete
planned_texts = refl

plan_chunks-body_example : All (IsCarried (plan_chunks two_letters)) two_letters
plan_chunks-body_example =
    plan_chunks-body two_letters (((λ e. absurd (omega arith)), tt), (tt, tt))

abbrev demo_embedder : Embedder
demo_embedder = record { embedding_model = "e"; embedding_space = "e:2"; embedding_dimension = 2 }

abbrev demo_index : Index ℕ
demo_index = record { store = demo_store; embeddings = [] }

abbrev delete_meanwhile : Index ℕ → Index ℕ
delete_meanwhile ix = record ix { store = delete_all ix.store }

embedded_result :
    (embed_chunk 41 21 (some demo_embedder) "1" (some (7 ∷ 8 ∷ [])) (λ ix. ix) demo_index).0
    ≡ embedded
unfolding embed_chunk string_discrete
embedded_result = refl

embed_deleted_result :
    (embed_chunk 41 21 (some demo_embedder) "1" (some (7 ∷ 8 ∷ [])) delete_meanwhile demo_index).0
    ≡ EmbedResult.discarded
unfolding embed_chunk string_discrete
embed_deleted_result = refl

-- The text has been embedded for another chunk.
abbrev cached_index : Index ℕ
cached_index = record demo_index {
  embeddings = embedding_for 40 22 demo_embedder "1" "hash" (7 ∷ 8 ∷ []) ∷ [];
}

embed_chunk-EmbedEnd_example :
    EmbedEnd 21
      (some demo_embedder)
      "1"
      none
      cached_index
      cached_index
      (embed_chunk 41 21 (some demo_embedder) "1" none (λ ix. ix) cached_index)
embed_chunk-EmbedEnd_example =
    embed_chunk-EmbedEnd 41 21 (some demo_embedder) "1" none (λ ix. ix) cached_index

cached_result :
    (embed_chunk 41 21 (some demo_embedder) "1" none (λ ix. ix) cached_index).0 ≡ EmbedResult.cached
unfolding embed_chunk string_discrete
cached_result = refl
