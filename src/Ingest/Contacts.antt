-- ===== src/Ingest/Contacts.antt =====
-- app/ingest.py: `unlink_identifier`, and `register_contacts`, which takes what the connector says
-- of its contacts.
use moresocial.Worker.{contains}
use moresocial.Memory.{ClaimSource}
use moresocial.Base.{
  holds_at, ◌||◌, text_in, ◌+◌, select_where, text_eq, exists_where, [], leb, ◌&&◌, false,
  count_where, if◌then◌else◌, map, Bool, some, truncate, none, ◌∷◌, ◌==◌, take_items, ◌++◌, Option,
  List, ℕ, update_where, Uuid, String,
}
use moresocial.Ingest.{provider, Python, Store, Source, Person, PersonIdentifier}
use moresocial.Ingest.Text.{or_text, norm_wa}
use moresocial.Ingest.People.{is_value, refers, by_provider, found_person, id_in, resolve_person}

abbrev pub identifiers_of : Uuid → Store → ℕ
identifiers_of id db = count_where (λ i. i.person_id == id) db.identifiers

-- The sources that the identifier wrote, and the claims that cite one of them.
abbrev authored : String → List Source → List Uuid
authored value sources =
    map {A = Source} {B = Uuid} (λ s. s.id)
      (select_where (λ s. holds_at (text_eq value) s.author) sources)

abbrev claims_citing : List Uuid → List ClaimSource → List Uuid
claims_citing ids rows =
    map {A = ClaimSource} {B = Uuid} (λ x. x.claim_id)
      (select_where (λ x. id_in x.source_id ids) rows)

-- The identifier given to the person, with the evidence it wrote.
unfoldable pub split_off : PersonIdentifier → Uuid → Store → Store
split_off i id db =
    let moved = claims_citing (authored i.value db.sources) db.claim_sources in
    record db {
      identifiers =
          update_where (λ j. j.id == i.id)
            (λ j. record j { person_id = id; linked_by_user = false }) db.identifiers;
      participants =
          update_where (λ x. refers i.person_id x.person_id && text_eq x.identifier i.value)
            (λ x. record x { person_id = some id }) db.participants;
      claims =
          update_where (λ c. refers i.person_id c.person_id && id_in c.id moved)
            (λ c. record c { person_id = some id }) db.claims;
    }

abbrev pub person_named : Python → String → Store → Store
person_named py name db = record db {
  people =
      db.people
      ++ record {
        id = py.uuid4 db.drawn;
        display_name = truncate 200 name;
        name_source = provider;
        pinned = false;
      }
        ∷ [];
  drawn = db.drawn + 1;
}

unfoldable pub unlink_identifier : Python → PersonIdentifier → Store → Store × Option Uuid
unfolding split_off
unlink_identifier py i db = if leb (identifiers_of i.person_id db) 1 then (db, none) else (
  split_off i (py.uuid4 db.drawn) (person_named py (or_text i.label i.value) db),
  some (py.uuid4 db.drawn),
)

-- A contact; a name that is no text is none, as is an entry that is no object.
pub record Contact : Type 0 where
  pub contact_id : Option String
  pub phone_identity : Option String
  pub aliases : List (Option String)
  pub saved_name : Option String
  pub profile_name : Option String

-- The identifiers that are formed, each once, and not the user's own.
abbrev add_id : List String → Option String → List String → List String
add_id self_ids none ids = ids
add_id self_ids (some v) ids =
    if text_eq v "" || (text_in v self_ids || text_in v ids) then ids else ids ++ v ∷ []

abbrev wa_ids : Python → List String → List (Option String) → List String → List String
wa_ids py self_ids [] ids = ids
wa_ids py self_ids (x ∷ xs) ids = wa_ids py self_ids xs (add_id self_ids (norm_wa py x) ids)

unfoldable pub contact_ids : Python → List String → Contact → List String
contact_ids py self_ids c =
    wa_ids py self_ids (c.contact_id ∷ c.phone_identity ∷ take_items 20 c.aliases) []

abbrev name_or : Python → Option String → Option String → Option String
name_or py none other = other
name_or py (some s) other = if text_eq (py.strip s) "" then other else some (truncate 200 s)

unfoldable pub contact_label : Python → Contact → Option String
contact_label py c = name_or py c.saved_name (name_or py c.profile_name none)

-- `owners`: the rows of the identifiers that are known.
abbrev pub is_wa_of : List String → PersonIdentifier → Bool
is_wa_of ids i = text_eq i.kind "whatsapp" && text_in i.value ids

abbrev add_once : Uuid → List Uuid → List Uuid
add_once i ids = if id_in i ids then ids else i ∷ ids

abbrev pub owners_of : List PersonIdentifier → List Uuid
owners_of [] = []
owners_of (i ∷ is) = add_once i.person_id (owners_of is)

abbrev pub add_identifier : Python → Option String → Uuid → String → Store → Store
add_identifier py label person value db =
    if exists_where (is_value "whatsapp" value) db.identifiers then db else record db {
      identifiers =
          db.identifiers
          ++ record {
            id = py.uuid4 db.drawn;
            person_id = person;
            kind = "whatsapp";
            value = value;
            label = label;
            linked_by_user = false;
          }
            ∷ [];
      drawn = db.drawn + 1;
    }

-- A value in `owners` has its row, so the second test of the loop is the one that decides.
unfoldable pub add_identifiers : Python → Option String → Uuid → List String → Store → Store
add_identifiers py label person [] db = db
add_identifiers py label person (v ∷ vs) db =
    add_identifiers py label person vs (add_identifier py label person v db)

abbrev takes_name : List String → Person → Bool
takes_name ids p =
    by_provider p.name_source && (text_in p.display_name ids || contains "@" p.display_name)

abbrev rename : List String → Uuid → Option String → Store → Store
rename ids person none db = db
rename ids person (some label) db = record db {
  people =
      update_where (λ p. p.id == person && takes_name ids p)
        (λ p. record p { display_name = label }) db.people;
}

abbrev pub on_person : Python → List String → Option String → Store × Option Uuid → Store
on_person py ids label (db, none) = db
on_person py ids label (db, some person) =
    rename ids person label (add_identifiers py label person ids db)

-- One owner, or a new person; identifiers of different people stay with them.
abbrev pub on_owners :
    Python → List String → String → List String → Option String → List Uuid → Store → Store
on_owners py self_ids first ids label [] db =
    on_person py ids label (resolve_person py "whatsapp" first label self_ids db)
on_owners py self_ids first ids label (o ∷ []) db = on_person py ids label (db, found_person o db)
on_owners py self_ids first ids label (o ∷ p ∷ os) db = db

abbrev pub on_ids : Python → List String → List String → Option String → Store → Store
on_ids py self_ids [] label db = db
on_ids py self_ids (v ∷ vs) label db =
    on_owners py self_ids v (v ∷ vs) label
      (owners_of (select_where (is_wa_of (v ∷ vs)) db.identifiers)) db

unfoldable pub register_contact : Python → List String → Option Contact → Store → Store
unfolding contact_ids contact_label add_identifiers
register_contact py self_ids none db = db
register_contact py self_ids (some c) db =
    on_ids py self_ids (contact_ids py self_ids c) (contact_label py c) db

abbrev pub register_all : Python → List String → List (Option Contact) → Store → Store
register_all py self_ids [] db = db
register_all py self_ids (c ∷ cs) db =
    register_all py self_ids cs (register_contact py self_ids c db)

unfoldable pub register_contacts : Python → List String → List (Option Contact) → Store → Store
register_contacts py self_ids contacts = register_all py self_ids (take_items 200 contacts)
