-- ===== src/Ingest/Examples.antt =====
-- Imports of app/ingest.py into small workspaces.
use moresocial.Ingest.Fields.{new_source}
use moresocial.Ingest.Rebuilds.{Context}
use moresocial.Ingest.Text.{normalize}
use moresocial.Ingest.Frame.{kept}
use moresocial.Memory.{active}
use moresocial.Ingest.People.{new_person, resolve_person, link_people}
use moresocial.Ingest.Owners.{AreUnique, owner}
use moresocial.Ingest.Supported.{cited, IsSupported}
use moresocial.Ingest.Out.{IsShort, IsOut}
use moresocial.Memory.{person, Claim}
use moresocial.Ingest.Upsert.{upsert}
use moresocial.Base.{
  truncate, ◌≤◌, arith, refl, All, text_length, ◌≡◌, ◌+◌, false, str, map, string_discrete, text_eq,
  some, ◌∷◌, none, [], not, List, Uuid, String,
}
use moresocial.Ingest.{
  conversation, provider, PersonIdentifier, Python, Store, Source, SourceRecord, Person,
}
use moresocial.Ingest.Removal.{scope_and_key, excluded_ids, exclusion_of, no_result, exclude}
use moresocial.Ingest.Operations.{upserted, apply, run, Operation}
use moresocial.Ingest.Again.{upsert-upsert, IsUnchanged}
use moresocial.Ingest.ForGood.{IsOnly, excluded_for_good}
use moresocial.Ingest.Standing.{run-IsSupported}
use moresocial.Ingest.Identity.{import-owner, run-AreUnique}
use moresocial.Ingest.Forgotten.{
  chunks_citing, AreDropped, answers_citing, AreWithdrawn, IsForgotten, exclude-IsForgotten,
}

abbrev demo_python : Python
demo_python = record {
  strip = λ s. s;
  lower = λ s. s;
  is_email = λ s. not (text_eq s "");
  is_wa = λ s. not (text_eq s "");
  isoformat = str;
  uuid_text = str;
  sha256 = λ s. s;
  sha256_json = λ h. h.body;
  uuid4 = λ n. 100 + n;
}

abbrev demo_context : Context
demo_context = record { workspace_id = 1; now = 50 }

abbrev empty_store : Store
empty_store = record {
  people = [];
  identifiers = [];
  sources = [];
  participants = [];
  chunks = [];
  chunk_sources = [];
  claims = [];
  claim_sources = [];
  answers = [];
  answer_sources = [];
  drafts = [];
  event_people = [];
  notes = [];
  exclusions = [];
  jobs = [];
  drawn = 0;
}

abbrev demo_letter : String → String → SourceRecord
demo_letter id body = record {
  provider = "gmail";
  provider_account = "me@example.org";
  provider_object_id = id;
  kind = "email";
  version = none;
  conversation_id = some "thread";
  conversation_title = none;
  title = none;
  author = some (record {
    kind = "email";
    identifier = "ann@example.org";
    role = "from";
    label = some "Ann";
  });
  from_me = false;
  occurred_at = some 40;
  ends_at = none;
  body = body;
  body_truncated = false;
  meta = [];
  participants =
      record { kind = "email"; identifier = "me@example.org"; role = "to"; label = none }
      ∷ record { kind = "email"; identifier = "bob@example.org"; role = "cc"; label = none }
      ∷ [];
  deleted = false;
}

abbrev my_ids : List String
my_ids = "me@example.org" ∷ []

abbrev letter_import : Context × Operation
letter_import = (demo_context, upserted (demo_letter "m1" "Hello"))

abbrev one_letter : Store
one_letter = apply demo_python my_ids letter_import empty_store

-- The author and the other person are known by their identifiers, the user is not.
known_people :
    map {A = PersonIdentifier} {B = String × Uuid}
      (λ i. (i.value, i.person_id))
      one_letter.identifiers
    ≡ ("ann@example.org", 100) ∷ ("bob@example.org", 105) ∷ []
unfolding upsert string_discrete normalize resolve_person new_person
known_people = refl

short_id : text_length "m1" ≤ 400
unfolding text_length
short_id = omega arith

upsert-upsert_example :
    ((upsert demo_python demo_context my_ids
        (demo_letter "m1" "Hello")
        (upsert demo_python demo_context my_ids (demo_letter "m1" "Hello") empty_store no_result).0
        no_result).0
      ≡ (upsert demo_python demo_context my_ids (demo_letter "m1" "Hello") empty_store no_result).0)
    × ((upsert demo_python demo_context my_ids
          (demo_letter "m1" "Hello")
          (upsert demo_python demo_context my_ids
            (demo_letter "m1" "Hello")
            empty_store
            no_result).0
          no_result).2
        ≡ (upsert demo_python demo_context my_ids
            (demo_letter "m1" "Hello")
            empty_store
            no_result).2)
    × IsUnchanged no_result
        (upsert demo_python demo_context my_ids
          (demo_letter "m1" "Hello")
          (upsert demo_python demo_context my_ids
            (demo_letter "m1" "Hello")
            empty_store
            no_result).0
          no_result).1
upsert-upsert_example =
    upsert-upsert demo_python demo_context demo_context my_ids my_ids (demo_letter "m1" "Hello")
      empty_store no_result no_result short_id

abbrev written_letter : Source
written_letter = new_source demo_python (demo_letter "m1" "Hello") "Hello" 102

-- A later letter of the same conversation comes after it has been excluded.
abbrev later : List (Context × Operation)
later = (demo_context, upserted (demo_letter "m2" "Again")) ∷ letter_import ∷ []

IsOnly-letter : IsOnly written_letter conversation one_letter
unfolding new_source truncate string_discrete
IsOnly-letter e = cc

later-IsShort : All (λ op. IsShort op.1) later
unfolding text_length string_discrete
later-IsShort = ((omega arith, omega arith), ((omega arith, omega arith), tt))

excluded_for_good_example :
    IsOut (exclusion_of (scope_and_key conversation written_letter) written_letter) (
      kept (
        run demo_python my_ids later
          (exclude demo_python demo_context written_letter conversation one_letter).0))
excluded_for_good_example =
    excluded_for_good demo_python demo_context my_ids written_letter conversation one_letter later
      IsOnly-letter later-IsShort

-- An answer cites the letter, and a chunk is made from it.
abbrev with_answer : Store
with_answer = record one_letter {
  chunks =
      record { id = 21; content_hash = "hash"; pipeline_version = "1"; extracted_at = none } ∷ [];
  chunk_sources =
      record { chunk_id = 21; source_id = 102; source_version = "v"; label = "S1" } ∷ [];
  answers =
      record { id = 31; question = "Who?"; answer = "Ann"; insufficient = false; stale = false }
      ∷ [];
  answer_sources =
      record {
        answer_id = some 31;
        draft_id = none;
        source_id = 102;
        source_version = "v";
        label = "S1";
        excerpt = "Hello";
      }
      ∷ [];
}

exclude-IsForgotten_example :
    IsForgotten
      (excluded_ids
        (scope_and_key conversation written_letter).0
        written_letter
        with_answer.sources)
      (exclude demo_python demo_context written_letter conversation with_answer).0
    × AreWithdrawn
        (answers_citing
          (excluded_ids
            (scope_and_key conversation written_letter).0
            written_letter
            with_answer.sources)
          with_answer.answer_sources)
        (exclude demo_python demo_context written_letter conversation with_answer).0.answers
    × AreDropped
        (chunks_citing
          (excluded_ids
            (scope_and_key conversation written_letter).0
            written_letter
            with_answer.sources)
          with_answer.chunk_sources)
        (exclude demo_python demo_context written_letter conversation with_answer).0.chunks
exclude-IsForgotten_example =
    exclude-IsForgotten demo_python demo_context written_letter conversation with_answer

abbrev some_claim : Claim
some_claim = record {
  id = 7;
  subject = person;
  person_id = some 100;
  category = "interest";
  attribute = none;
  value = "Rowing";
  basis = "explicit";
  status = active;
  origin = "extraction";
  valid_from = none;
  valid_to = none;
  claim_key = "key";
}

abbrev with_claim : Store
with_claim = record one_letter {
  claims = some_claim ∷ [];
  claim_sources = record { claim_id = 7; source_id = 102; source_version = "v" } ∷ [];
}

with_claim-IsSupported : IsSupported (cited with_claim)
with_claim-IsSupported = ((λ e. refl), tt)

run-IsSupported_example : IsSupported (cited (run demo_python my_ids later with_claim))
run-IsSupported_example = run-IsSupported demo_python my_ids later with_claim with_claim-IsSupported

ann_known : owner "email" "ann@example.org" one_letter.identifiers ≡ some 100
unfolding upsert string_discrete normalize resolve_person new_person
ann_known = refl

none_twice : AreUnique empty_store.identifiers
unfolding AreUnique
none_twice kind value = omega arith

import-owner_example :
    owner "email" "ann@example.org" (run demo_python my_ids later one_letter).identifiers ≡ some 100
import-owner_example =
    import-owner demo_python my_ids later one_letter "email" "ann@example.org" 100 (tt, (tt, tt))
      ann_known

run-AreUnique_example : AreUnique (run demo_python my_ids later empty_store).identifiers
run-AreUnique_example = run-AreUnique demo_python my_ids later empty_store none_twice

abbrev ann : Person
ann = record { id = 100; display_name = "Ann"; name_source = provider; pinned = false }

abbrev bob : Person
bob = record { id = 105; display_name = "bob@example.org"; name_source = provider; pinned = false }

abbrev lives_at : Uuid → Uuid → String → Claim
lives_at id whose place = record some_claim {
  id = id;
  person_id = some whose;
  category = "life_update";
  attribute = some "location";
  value = place;
}

abbrev rivals : Store
rivals = record one_letter { claims = lives_at 7 100 "Utrecht" ∷ lives_at 8 105 "Delft" ∷ [] }

-- Both places are of the first person then, and both claims stay active.
linked_rivals :
    map (λ c. c.person_id) (link_people ann bob rivals).claims ≡ some 100 ∷ some 100 ∷ []
unfolding link_people moresocial.Ingest.People.delete_people upsert normalize string_discrete
    resolve_person new_person
linked_rivals = refl

linked_statuses : map (λ c. c.status) (link_people ann bob rivals).claims ≡ active ∷ active ∷ []
unfolding link_people moresocial.Ingest.People.delete_people upsert normalize string_discrete
    resolve_person new_person
linked_statuses = refl
