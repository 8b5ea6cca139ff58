-- ===== src/Ingest.antt =====
-- app/ingest.py and the tables of app/models.py that it works on: the imported sources of a
-- workspace, the people they name, and what is derived from them. The rows are those of one
-- workspace, which `Scoped` of app/repo.py selects; `jobs` are the rows of every workspace.
pub mod Text
pub mod People
pub mod Rebuilds
pub mod Removal
pub mod Fields
pub mod Upsert
pub mod Contacts
pub mod Frame
pub mod Again
pub mod Operations
pub mod Out
pub mod Excluded
pub mod ForGood
pub mod Supported
pub mod Standing
pub mod Owners
pub mod Growth
pub mod Identity
pub mod Forgotten
pub mod Linked
pub mod Moved
pub mod Examples
use moresocial.Base.{Uuid, Time, String, Bool, Option, List, ℕ, none, some, true, false, [], ◌∷◌}
use moresocial.Memory.{Claim, ClaimSource}
use moresocial.Memory.Extract.{Chunk, ChunkSource}
use moresocial.Jobs.{Job, Payload}

pub data NameSource : Type 0 where
  provider user : NameSource

pub record Person : Type 0 where
  pub id : Uuid
  pub display_name : String
  pub name_source : NameSource
  pub pinned : Bool

pub record PersonIdentifier : Type 0 where
  pub id : Uuid
  pub person_id : Uuid
  pub kind : String
  pub value : String
  pub label : Option String
  pub linked_by_user : Bool

pub record Source : Type 0 where
  pub id : Uuid
  pub provider : String
  pub provider_account : String
  pub provider_object_id : String
  pub conversation_id : Option String
  pub conversation_title : Option String
  pub version : String
  pub kind : String
  pub title : Option String
  pub author : Option String
  pub author_label : Option String
  pub from_me : Bool
  pub occurred_at : Option Time
  pub ends_at : Option Time
  pub body : String
  pub body_truncated : Bool
  pub meta : Payload
  pub content_hash : String
  pub included : Bool
  pub deleted_at : Option Time

pub record SourceParticipant : Type 0 where
  pub id : Uuid
  pub source_id : Uuid
  pub person_id : Option Uuid
  pub identifier : String
  pub role : String

pub record Answer : Type 0 where
  pub id : Uuid
  pub question : String
  pub answer : String
  pub insufficient : Bool
  pub stale : Bool

pub record AnswerSource : Type 0 where
  pub answer_id : Option Uuid
  pub draft_id : Option Uuid
  pub source_id : Uuid
  pub source_version : String
  pub label : String
  pub excerpt : String

pub record Draft : Type 0 where
  pub id : Uuid
  pub event_id : Option Uuid
  pub person_id : Option Uuid
  pub purpose : String
  pub text : String
  pub edited : Bool
  pub stale : Bool

pub record EventPerson : Type 0 where
  pub id : Uuid
  pub event_id : Uuid
  pub person_id : Uuid
  pub status : String
  pub suggested_status : Option String
  pub suggested_source_id : Option Uuid

pub record RelationshipNote : Type 0 where
  pub id : Uuid
  pub person_id : Uuid
  pub kind : String
  pub body : String

pub data ExclusionScope : Type 0 where
  object conversation : ExclusionScope

pub record Exclusion : Type 0 where
  pub provider : String
  pub scope : ExclusionScope
  pub key : String
  pub label : String

-- The tables; `drawn` counts the calls of `uuid.uuid4`.
pub record Store : Type 0 where
  pub people : List Person
  pub identifiers : List PersonIdentifier
  pub sources : List Source
  pub participants : List SourceParticipant
  pub chunks : List Chunk
  pub chunk_sources : List ChunkSource
  pub claims : List Claim
  pub claim_sources : List ClaimSource
  pub answers : List Answer
  pub answer_sources : List AnswerSource
  pub drafts : List Draft
  pub event_people : List EventPerson
  pub notes : List RelationshipNote
  pub exclusions : List Exclusion
  pub jobs : List Job
  pub drawn : ℕ

pub record Participant : Type 0 where
  pub kind : String
  pub identifier : String
  pub role : String
  pub label : Option String

pub record SourceRecord : Type 0 where
  pub provider : String
  pub provider_account : String
  pub provider_object_id : String
  pub kind : String
  pub version : Option String
  pub conversation_id : Option String
  pub conversation_title : Option String
  pub title : Option String
  pub author : Option Participant
  pub from_me : Bool
  pub occurred_at : Option Time
  pub ends_at : Option Time
  pub body : String
  pub body_truncated : Bool
  pub meta : Payload
  pub participants : List Participant
  pub deleted : Bool

-- A conversation of a provider; `changes` are ids of sources, as text, and their versions.
pub record IngestResult : Type 0 where
  pub created : ℕ
  pub updated : ℕ
  pub unchanged : ℕ
  pub skipped : ℕ
  pub deleted : ℕ
  pub conversations : List (String × Option String)
  pub changes : List (String × String)

-- What `content_hash` hashes, the participants in order.
pub record Hashed : Type 0 where
  pub title : Option String
  pub body : String
  pub occurred_at : Option Time
  pub ends_at : Option Time
  pub deleted : Bool
  pub status : Option String
  pub participants : List (String × String × String)

-- Python's functions on texts, the patterns EMAIL_RE and WA_RE as tests, `isoformat`, `str` of a
-- UUID, SHA-256 of a text and of a JSON text, and the UUIDs that are drawn one after the other.
pub record Python : Type 0 where
  pub strip : String → String
  pub lower : String → String
  pub is_email : String → Bool
  pub is_wa : String → Bool
  pub isoformat : Time → String
  pub uuid_text : Uuid → String
  pub sha256 : String → String
  pub sha256_json : Hashed → String
  pub uuid4 : ℕ → Uuid
