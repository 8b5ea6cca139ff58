-- ===== src/Memory.antt =====
-- app/memory.py, the claims of a workspace: `resolve_conflicts`, how a new claim meets those that
-- are there. Tables Claim, ClaimSource and ClaimRejection of app/models.py, by the rows of one
-- workspace. Python's text functions and SHA-256 are a parameter.
pub mod Operations
pub mod Topics
pub mod Conflicts
pub mod Settled
pub mod Extract
pub mod Publish
pub mod Evidence
pub mod Race
pub mod Chunks
pub mod Coverage
pub mod Segments
pub mod Embed
pub mod Stored
pub mod Rejections
pub mod Examples
use moresocial.Base.{
  exists_where, [], ◌||◌, false, max, first_where, none, not, ◌&&◌, ◌==◌, ◌∷◌, update_where, ltb,
  text_in, ◌++◌, text_eq, true, join_text, text_append, Bool, List, Option, truncate, if◌then◌else◌,
  some, Uuid, Time, String,
}

pub data Subject : Type 0 where
  person self : Subject

pub data ClaimStatus : Type 0 where
  active confirmed rejected superseded conflicting : ClaimStatus

pub record Claim : Type 0 where
  pub id : Uuid
  pub subject : Subject
  pub person_id : Option Uuid
  pub category : String
  pub attribute : Option String
  pub value : String
  pub basis : String
  pub status : ClaimStatus
  pub origin : String
  pub valid_from : Option Time
  pub valid_to : Option Time
  pub claim_key : String

pub record ClaimSource : Type 0 where
  pub claim_id : Uuid
  pub source_id : Uuid
  pub source_version : String

-- The claims of a workspace, the sources they cite, and the keys of ClaimRejection.
pub record Claims : Type 0 where
  pub claims : List Claim
  pub claim_sources : List ClaimSource
  pub rejections : List String

-- `sha256(...).hexdigest()`, `strip()`, `lower()`, `re.sub(r'\s+', ' ', ·)`, `strip(' .!')` and
-- `str` of a UUID.
pub record Python : Type 0 where
  pub sha256 : String → String
  pub strip : String → String
  pub lower : String → String
  pub collapse_spaces : String → String
  pub strip_marks : String → String
  pub uuid_text : Uuid → String

-- The parts of Source that a claim's evidence needs.
pub record Source : Type 0 where
  pub id : Uuid
  pub version : String
  pub included : Bool
  pub deleted_at : Option Time
  pub occurred_at : Option Time
  pub from_me : Bool
  pub author : Option String

-- A validated claim of the model's answer.
pub record Extracted : Type 0 where
  pub subject : String
  pub category : String
  pub attribute : Option String
  pub value : String
  pub basis : String
  pub evidence : List String

abbrev pub same_subject : Subject → Subject → Bool
same_subject person person = true
same_subject self self = true
same_subject _ _ = false

abbrev pub same_person : Option Uuid → Option Uuid → Bool
same_person none none = true
same_person (some a) (some b) = a == b
same_person _ _ = false

abbrev pub same_attribute : Option String → Option String → Bool
same_attribute none none = true
same_attribute (some a) (some b) = text_eq a b
same_attribute _ _ = false

abbrev pub or_empty : Option String → String
or_empty none = ""
or_empty (some s) = s

-- claim.attribute in SINGLE_VALUED
abbrev pub is_single_valued : Option String → Bool
is_single_valued none = false
is_single_valued (some a) = text_in a ("location" ∷ "job" ∷ [])

-- The statuses that a new claim competes with.
abbrev pub is_standing : ClaimStatus → Bool
is_standing active = true
is_standing confirmed = true
is_standing conflicting = true
is_standing _ = false

abbrev pub is_confirmed : ClaimStatus → Bool
is_confirmed confirmed = true
is_confirmed _ = false

-- What a claim is about, whatever it says.
pub record Topic : Type 0 where
  pub subject : Subject
  pub category : String
  pub attribute : Option String
  pub person_id : Option Uuid

abbrev pub topic_of : Claim → Topic
topic_of c = record {
  subject = c.subject;
  category = c.category;
  attribute = c.attribute;
  person_id = c.person_id;
}

unfoldable pub same_topic : Topic → Topic → Bool
same_topic a b =
    same_subject a.subject b.subject
    && (text_eq a.category b.category
        && (same_attribute a.attribute b.attribute && same_person a.person_id b.person_id))

abbrev pub is_rival : Claim → Claim → Bool
is_rival claim o =
    not (o.id == claim.id) && (same_topic (topic_of o) (topic_of claim) && is_standing o.status)

abbrev pub is_later : Option Time → Option Time → Bool
is_later (some mine) (some theirs) = ltb mine theirs
is_later _ _ = false

-- A new claim against one of its rivals: both as they come out.
abbrev pub face : Claim → Claim → Claim × Claim
face claim o =
    if is_confirmed o.status
    then (record claim { status = conflicting }, o)
    else if is_later claim.valid_from o.valid_from
    then (record claim { status = superseded; valid_to = o.valid_from }, o)
    else (claim, record o { status = superseded; valid_to = claim.valid_from })

-- The loop of `resolve_conflicts`: the new claim, and the other rows of the table.
abbrev pub after_face : Claim × Claim → (Claim → Claim × List Claim) → Claim × List Claim
after_face (c, o) rest = let (c', os) = rest c in (c', o ∷ os)

unfoldable pub face_all : Claim → List Claim → Claim × List Claim
unfolding same_topic
face_all claim [] = (claim, [])
face_all claim (o ∷ os) =
    after_face (if is_rival claim o then face claim o else (claim, o)) λ c. face_all c os

unfoldable pub resolve_conflicts : Claim → List Claim → Claim × List Claim
unfolding face_all
resolve_conflicts claim others =
    if is_single_valued claim.attribute then face_all claim others else (claim, others)
