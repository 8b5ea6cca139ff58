-- ===== src/Memory/Extract.antt =====
-- app/memory.py, `validate_claims` and `extract_chunk`: the model's answer on a chunk, and its
-- publication once the evidence has been checked again. The model's answer and what others do to
-- the tables meanwhile are parameters.
use moresocial.Budget.{or_zero}
use moresocial.Base.{
  none, take_items, ◌==◌, truncate, leb, text_eq, is_some, text_in, some, if◌then◌else◌,
  text_length, Time, false, [], not, sorted_set, true, ◌&&◌, ◌∷◌, drop, String, ◌++◌, ℕ, Uuid, int,
  Bool, List, Option,
}
use moresocial.Memory.{or_empty, Python, Claims, Source, Extracted}

-- A claim as the model wrote it; a field that is missing or no text is none.
pub record RawClaim : Type 0 where
  pub subject : Option String
  pub category : Option String
  pub attribute : Option String
  pub value : Option String
  pub basis : Option String
  pub evidence : Option (List String)

pub data Validated : Type 0 where
  invalid_schema : Validated
  valid : List Extracted → Validated

pub record Chunk : Type 0 where
  pub id : Uuid
  pub content_hash : String
  pub pipeline_version : String
  pub extracted_at : Option Time

pub record ChunkSource : Type 0 where
  pub chunk_id : Uuid
  pub source_id : Uuid
  pub source_version : String
  pub label : String

-- The tables that an extraction works on; an identifier is a value and its person.
pub record Store : Type 0 where
  pub chunks : List Chunk
  pub chunk_sources : List ChunkSource
  pub sources : List Source
  pub identifiers : List (String × Uuid)
  pub claims : Claims

-- What an extraction returns or raises; `crashed` stands for a KeyError.
pub data Extraction : Type 0 where
  gone exists discarded extracted invalid_output crashed : Extraction

abbrev pub is_empty : {A : Type 0} → List A → Bool
is_empty [] = true
is_empty (x ∷ xs) = false

abbrev pub option_in : Option String → List String → Bool
option_in none ss = false
option_in (some s) ss = text_in s ss

abbrev pub all_in : List String → List String → Bool
all_in [] labels = true
all_in (e ∷ es) labels = text_in e labels && all_in es labels

abbrev pub categories : List String
categories = "interest" ∷ "life_update" ∷ "preference" ∷ "commitment" ∷ []

abbrev pub bases : List String
bases = "explicit" ∷ "observed" ∷ "inferred" ∷ []

-- The attribute, where "none" is none.
abbrev pub attribute_of : Option String → Option String
attribute_of none = none
attribute_of (some a) = if text_eq a "none" then none else some a

module _ (py : Python) where
  abbrev pub is_value : String → Bool
  is_value v = not (text_eq (py.strip v) "") && leb (text_length v) 300

  abbrev pub is_evidence : List String → List String → Bool
  is_evidence labels es = not (is_empty es) && all_in es labels

  abbrev pub is_supported : List String → List String → RawClaim → String → List String → Bool
  is_supported labels subjects c value evidence =
      option_in c.subject subjects
      && (option_in c.category categories
          && (is_value value && (option_in c.basis bases && is_evidence labels evidence)))

  abbrev pub extracted_of : RawClaim → String → List String → Extracted
  extracted_of c value evidence = record {
    subject = or_empty c.subject;
    category = or_empty c.category;
    attribute = attribute_of c.attribute;
    value = truncate 300 (py.strip value);
    basis = or_empty c.basis;
    evidence = sorted_set evidence;
  }

  abbrev pub keep_claim :
      List String → List String → RawClaim → Option String → Option (List String) → List Extracted
  keep_claim labels subjects c (some value) (some evidence) =
      if is_supported labels subjects c value evidence
      then extracted_of c value evidence ∷ []
      else []
  keep_claim labels subjects c _ _ = []

  abbrev pub with_kept : List Extracted → Validated → Validated
  with_kept es invalid_schema = invalid_schema
  with_kept es (valid rest) = valid (es ++ rest)

  -- An entry that is no object spoils the answer; a claim without support is dropped.
  unfoldable pub validate_rows : List String → List String → List (Option RawClaim) → Validated
  unfolding sorted_set text_length truncate
  validate_rows labels subjects [] = valid []
  validate_rows labels subjects (none ∷ rows) = invalid_schema
  validate_rows labels subjects (some c ∷ rows) =
      with_kept (keep_claim labels subjects c c.value c.evidence)
        (validate_rows labels subjects rows)

  -- `validate_claims`, on the answer's list of claims, if it has one.
  abbrev pub validate_claims :
      Option (List (Option RawClaim)) → List String → List String → Validated
  validate_claims none labels subjects = invalid_schema
  validate_claims (some rows) labels subjects = validate_rows labels subjects (take_items 30 rows)

-- `_chunk_current`: a chunk's entries with their sources, by the number of the label.
abbrev pub label_number : ChunkSource → ℕ
label_number cs = or_zero (int (drop 1 cs.label))

abbrev pub insert_member :
    ChunkSource × Source → List (ChunkSource × Source) → List (ChunkSource × Source)
insert_member m [] = m ∷ []
insert_member m (n ∷ ns) =
    if leb (label_number m.0) (label_number n.0) then m ∷ n ∷ ns else n ∷ insert_member m ns

abbrev pub join_sources : ChunkSource → List Source → List (ChunkSource × Source)
join_sources cs [] = []
join_sources cs (s ∷ ss) =
    if s.id == cs.source_id then (cs, s) ∷ join_sources cs ss else join_sources cs ss

abbrev pub sort_members : List (ChunkSource × Source) → List (ChunkSource × Source)
sort_members [] = []
sort_members (m ∷ ms) = insert_member m (sort_members ms)

abbrev pub joined_rows : Uuid → List ChunkSource → List Source → List (ChunkSource × Source)
joined_rows id [] ss = []
joined_rows id (cs ∷ rest) ss =
    if cs.chunk_id == id
    then join_sources cs ss ++ joined_rows id rest ss
    else joined_rows id rest ss

unfoldable pub members_of : Uuid → Store → List (ChunkSource × Source)
unfolding int drop
members_of id db = sort_members (joined_rows id db.chunk_sources db.sources)

abbrev pub is_current : ChunkSource × Source → Bool
is_current (cs, s) =
    s.included && (not (is_some s.deleted_at) && text_eq s.version cs.source_version)

abbrev pub all_current : List (ChunkSource × Source) → Bool
all_current [] = true
all_current (m ∷ ms) = is_current m && all_current ms

-- `_still_valid`
unfoldable pub still_valid : Option Chunk → List (ChunkSource × Source) → String → Bool
still_valid none ms hash = false
still_valid (some c) ms hash = text_eq c.content_hash hash && (not (is_empty ms) && all_current ms)
