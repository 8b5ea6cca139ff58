-- ===== src/Ingest/People.antt =====
-- app/ingest.py: people by their identifiers. `resolve_person`, `prune_people`, `link_people`,
-- `unlink_identifier`. A person is returned by its id. Rows are deleted with the rows that refer to
-- them, as the foreign keys of app/models.py say.
use moresocial.Base.{
  ◌+◌, delete_where, first_where, [], select_where, text_in, ◌∷◌, truncate, ◌||◌, none, ◌&&◌, false,
  holds_at, ◌==◌, exists_where, not, map, some, true, text_eq, ◌++◌, Option, List, Bool,
  if◌then◌else◌, update_where, Uuid, String,
}
use moresocial.Ingest.{
  user, provider, EventPerson, NameSource, Python, Store, Person, PersonIdentifier,
}
use moresocial.Ingest.Text.{or_text, truthy, normalize}

abbrev pub by_provider : NameSource → Bool
by_provider provider = true
by_provider user = false

abbrev has_person : Uuid → List Person → Bool
has_person id = exists_where (λ p. p.id == id)

abbrev pub is_value : String → String → PersonIdentifier → Bool
is_value kind value i = text_eq i.kind kind && text_eq i.value value

-- The label of a known identifier names a person that has no better name.
unfoldable pub learn : String → PersonIdentifier → String → Store → Store
learn value i label db = record db {
  people =
      update_where
        (λ p. p.id == i.person_id && by_provider p.name_source && text_eq p.display_name value)
        (λ p. record p { display_name = truncate 200 label }) db.people;
  identifiers =
      update_where (λ j. j.id == i.id && text_eq (or_text j.label "") "")
        (λ j. record j { label = some (truncate 200 label) }) db.identifiers;
}

abbrev learn_label : String → PersonIdentifier → Option String → Store → Store
learn_label value i none db = db
learn_label value i (some label) db = learn value i label db

-- A new person with its first identifier, whose label is not cut. PostgreSQL refuses a label of more
-- than 200 characters, and with it the transaction; the model keeps the row.
unfoldable pub new_person : Python → String → String → Option String → Store → Store
new_person py kind value label db = record db {
  people =
      db.people
      ++ record {
        id = py.uuid4 db.drawn;
        display_name = truncate 200 (or_text label value);
        name_source = provider;
        pinned = false;
      }
        ∷ [];
  identifiers =
      db.identifiers
      ++ record {
        id = py.uuid4 (db.drawn + 1);
        person_id = py.uuid4 db.drawn;
        kind = kind;
        value = value;
        label = label;
        linked_by_user = false;
      }
        ∷ [];
  drawn = db.drawn + 2;
}

abbrev pub found_person : Uuid → Store → Option Uuid
found_person id db = if has_person id db.people then some id else none

abbrev pub resolve_known :
    Python → String → String → Option String → Option PersonIdentifier → Store → Store × Option Uuid
resolve_known py kind value label none db =
    (new_person py kind value label db, some (py.uuid4 db.drawn))
resolve_known py kind value label (some i) db =
    (learn_label value i label db, found_person i.person_id db)

abbrev pub resolve_value :
    Python → String → Option String → Option String → List String → Store → Store × Option Uuid
resolve_value py kind none label self_ids db = (db, none)
resolve_value py kind (some value) label self_ids db =
    if text_in value self_ids
    then (db, none)
    else resolve_known py kind value label (first_where (is_value kind value) db.identifiers) db

unfoldable pub resolve_person :
    Python → String → String → Option String → List String → Store → Store × Option Uuid
resolve_person py kind value label self_ids db =
    resolve_value py kind (truthy (normalize py kind (some value))) (truthy label) self_ids db

abbrev pub id_in : Uuid → List Uuid → Bool
id_in id [] = false
id_in id (i ∷ is) = id == i || id_in id is

abbrev pub option_id_in : Option Uuid → List Uuid → Bool
option_id_in none ids = false
option_id_in (some id) ids = id_in id ids

-- DELETE of people: what is theirs goes too, and what cites their claims and drafts.
unfoldable pub delete_people : (Person → Bool) → Store → Store
delete_people p db =
    let gone = map {A = Person} {B = Uuid} (λ x. x.id) (select_where p db.people) in
    let claims = delete_where (λ c. option_id_in c.person_id gone) db.claims in
    let drafts = delete_where (λ d. option_id_in d.person_id gone) db.drafts in
    record db {
      people = delete_where p db.people;
      identifiers = delete_where (λ i. id_in i.person_id gone) db.identifiers;
      participants = delete_where (λ x. option_id_in x.person_id gone) db.participants;
      claims = claims;
      claim_sources =
          delete_where (λ x. not (exists_where (λ c. c.id == x.claim_id) claims)) db.claim_sources;
      notes = delete_where (λ n. id_in n.person_id gone) db.notes;
      event_people = delete_where (λ e. id_in e.person_id gone) db.event_people;
      drafts = drafts;
      answer_sources =
          delete_where (λ x. holds_at (λ i. not (exists_where (λ d. d.id == i) drafts)) x.draft_id)
            db.answer_sources;
    }

abbrev pub refers : Uuid → Option Uuid → Bool
refers id = holds_at (λ i. i == id)

-- `used` of `prune_people`.
unfoldable pub is_used : Store → Uuid → Bool
is_used db id =
    exists_where (λ x. refers id x.person_id) db.participants
    || exists_where (λ c. refers id c.person_id) db.claims
    || exists_where (λ n. n.person_id == id) db.notes
    || exists_where (λ e. e.person_id == id) db.event_people
    || exists_where (λ d. refers id d.person_id) db.drafts

unfoldable pub is_idle : Store → Person → Bool
is_idle db p =
    not p.pinned
    && by_provider p.name_source
    && not (exists_where (λ i. i.person_id == p.id && i.linked_by_user) db.identifiers)
    && not (is_used db p.id)

unfoldable pub prune_people : Store → Store
prune_people db = delete_people (is_idle db) db

-- The loop over the events of `other`: one that `keep` has too is dropped.
abbrev pub merge_events : Uuid → Uuid → List EventPerson → List EventPerson
merge_events keep other rows =
    let kept =
      map {A = EventPerson} {B = Uuid} (λ e. e.event_id)
        (select_where (λ e. e.person_id == keep) rows) in
    update_where (λ e. e.person_id == other) (λ e. record e { person_id = keep })
      (delete_where (λ e. e.person_id == other && id_in e.event_id kept) rows)

-- The references of one person given to another.
unfoldable pub move_references : Uuid → Uuid → Store → Store
move_references keep other db = record db {
  identifiers =
      update_where (λ i. i.person_id == keep) (λ i. record i { linked_by_user = true })
        (update_where (λ i. i.person_id == other)
          (λ i. record i { person_id = keep; linked_by_user = true }) db.identifiers);
  participants =
      update_where (λ x. refers other x.person_id) (λ x. record x { person_id = some keep })
        db.participants;
  claims =
      update_where (λ c. refers other c.person_id) (λ c. record c { person_id = some keep })
        db.claims;
  notes = update_where (λ n. n.person_id == other) (λ n. record n { person_id = keep }) db.notes;
  drafts =
      update_where (λ d. refers other d.person_id) (λ d. record d { person_id = some keep })
        db.drafts;
  event_people = merge_events keep other db.event_people;
}

-- All that `link_people` does before `other` is deleted.
abbrev pub merged : Person → Person → Store → Store
merged keep other db =
    let moved = move_references keep.id other.id db in
    record moved {
      people =
          update_where (λ p. p.id == keep.id)
            (λ p. record p { pinned = keep.pinned || other.pinned }) moved.people;
    }

unfoldable pub link_people : Person → Person → Store → Store
unfolding move_references
link_people keep other db =
    if keep.id == other.id then db else delete_people (λ p. p.id == other.id) (merged keep other db)
