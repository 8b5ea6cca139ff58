-- ===== src/Memory/Operations.antt =====
-- app/memory.py: `publish_claim`, `reject_claim` and `edit_claim` on the claims of a workspace.
use moresocial.Memory.{
  person, rejected, confirmed, Claims, active, or_empty, self, resolve_conflicts, ClaimStatus,
  Subject, ClaimSource, Extracted, Python, Claim, Source,
}
use moresocial.Base.{
  exists_where, [], ◌||◌, false, max, first_where, none, ◌&&◌, ◌==◌, ◌∷◌, update_where, text_in,
  ◌++◌, text_eq, true, join_text, text_append, Bool, List, Option, truncate, if◌then◌else◌, some,
  Uuid, Time, String,
}

abbrev pub cites : Uuid → Uuid → ClaimSource → Bool
cites claim_id source_id cs = cs.claim_id == claim_id && cs.source_id == source_id

-- The evidence of a claim is cited once for each source.
unfoldable pub cite_all : Uuid → List Source → List ClaimSource → List ClaimSource
cite_all claim_id [] rows = rows
cite_all claim_id (src ∷ srcs) rows = cite_all claim_id srcs (
    if exists_where (cites claim_id src.id) rows
    then rows
    else rows
      ++ record { claim_id = claim_id; source_id = src.id; source_version = src.version } ∷ [])

-- `max(..., default=None)` of the dates that there are.
abbrev pub later_of : Option Time → Option Time → Option Time
later_of none t = t
later_of (some s) none = some s
later_of (some s) (some t) = some (max s t)

abbrev pub last_date : List Source → Option Time
last_date [] = none
last_date (s ∷ ss) = later_of s.occurred_at (last_date ss)

abbrev pub add_claim : Claim × List Claim → List Claim
add_claim (c, others) = others ++ c ∷ []

abbrev pub is_unknown_person : Subject → Option Uuid → Bool
is_unknown_person person none = true
is_unknown_person _ _ = false

abbrev pub has_key : String → Claim → Bool
has_key key c = text_eq c.claim_key key

abbrev pub set_status : ClaimStatus → Claim → Claim
set_status s c = record c { status = s }

abbrev pub with_status : Uuid → ClaimStatus → List Claim → List Claim
with_status id s = update_where (λ c. c.id == id) (set_status s)

abbrev pub add_rejection : String → List String → List String
add_rejection key keys = if text_in key keys then keys else keys ++ key ∷ []

abbrev pub subject_of : Extracted → Subject
subject_of c = if text_eq c.subject "ME" then self else person

abbrev pub confirm_as_user : Claim → Claim
confirm_as_user c = record c { status = confirmed; basis = "user" }

abbrev pub normalize_value : Python → String → String
normalize_value py v = py.strip_marks (py.collapse_spaces (py.lower (py.strip v)))

module _ (py : Python) (workspace_id : Uuid) where
  abbrev pub subject_key : Subject → Option Uuid → String
  subject_key self p = "self"
  subject_key person none = "person:None"
  subject_key person (some p) = text_append "person:" (py.uuid_text p)

  -- `h` of the parts
  abbrev pub claim_key : String → String → Option String → String → String
  claim_key subject category attribute value = py.sha256 (
      join_text "|" (
        py.uuid_text workspace_id
        ∷ subject
        ∷ category
        ∷ or_empty attribute
        ∷ normalize_value py value
        ∷ []))

  -- The key of a claim that is there, as `reject_claim` forms it.
  abbrev pub key_of : Claim → String → String
  key_of c value = claim_key (subject_key c.subject c.person_id) c.category c.attribute value

  abbrev pub extracted_key : Extracted → Option Uuid → String
  extracted_key c person_id =
      claim_key (subject_key (subject_of c) person_id) c.category c.attribute c.value

  abbrev pub new_claim : Uuid → Extracted → Option Uuid → List Source → Claim
  new_claim fresh c person_id evidence = record {
    id = fresh;
    subject = subject_of c;
    person_id = person_id;
    category = c.category;
    attribute = c.attribute;
    value = c.value;
    basis = c.basis;
    status = active;
    origin = "extraction";
    valid_from = last_date evidence;
    valid_to = none;
    claim_key = extracted_key c person_id;
  }

  -- The claim that the evidence goes to: one with the key, or a new one.
  abbrev pub publish_to :
      Uuid → Extracted → Option Uuid → List Source → Claims → Option Claim → Claims × Option Uuid
  publish_to fresh c person_id evidence m (some claim) =
      (record m { claim_sources = cite_all claim.id evidence m.claim_sources }, some claim.id)
  publish_to fresh c person_id evidence m none = (
    record m {
      claims = add_claim (resolve_conflicts (new_claim fresh c person_id evidence) m.claims);
      claim_sources = cite_all fresh evidence m.claim_sources;
    },
    some fresh,
  )

  -- `publish_claim`, with the id of the claim it returns.
  unfoldable pub publish_claim :
      Uuid → Extracted → Option Uuid → List Source → Claims → Claims × Option Uuid
  unfolding cite_all resolve_conflicts
  publish_claim fresh c person_id evidence m =
      if is_unknown_person (subject_of c) person_id
      then (m, none)
      else if text_in (extracted_key c person_id) m.rejections
      then (m, none)
      else publish_to fresh c person_id evidence m
          (first_where (has_key (extracted_key c person_id)) m.claims)

  unfoldable pub reject_claim : Claim → Claims → Claims
  reject_claim c m = record m {
    claims = with_status c.id rejected m.claims;
    rejections = add_rejection (key_of c c.value) m.rejections;
  }

  abbrev pub user_claim : Uuid → Time → Claim → String → Claim
  user_claim fresh now c value = record {
    id = fresh;
    subject = c.subject;
    person_id = c.person_id;
    category = c.category;
    attribute = c.attribute;
    value = value;
    basis = "user";
    status = confirmed;
    origin = "user";
    valid_from = some now;
    valid_to = none;
    claim_key = key_of c value;
  }

  abbrev pub keep_edit : Uuid → Time → Claim → String → Claims → Option Claim → Claims
  keep_edit fresh now c value m (some o) = record m {
    claims = update_where (λ x. x.id == o.id) confirm_as_user m.claims;
  }
  keep_edit fresh now c value m none = record m {
    claims = m.claims ++ user_claim fresh now c value ∷ [];
  }

  -- An edit that says the same, or nothing, confirms the claim.
  abbrev pub says_same : Claim → String → Bool
  says_same c value =
      text_eq value "" || text_eq (normalize_value py value) (normalize_value py c.value)

  abbrev pub edit_to : Uuid → Time → Claim → String → Claims → Claims
  edit_to fresh now c value m =
      if says_same c value
      then record m { claims = with_status c.id confirmed m.claims }
      else keep_edit fresh now c value (reject_claim c m)
          (first_where (has_key (key_of c value)) (reject_claim c m).claims)

  unfoldable pub edit_claim : Uuid → Time → Claim → String → Claims → Claims
  unfolding reject_claim truncate
  edit_claim fresh now c value m = edit_to fresh now c (truncate 300 (py.strip value)) m
