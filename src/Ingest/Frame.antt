-- ===== src/Ingest/Frame.antt =====
-- What the steps of app/ingest.py leave as it is: the sources and the tombstones.
use moresocial.Ingest.Rebuilds.{schedule_rebuilds, enqueue_all, Context}
use moresocial.Memory.{ClaimSource, Claim}
use moresocial.Ingest.Contacts.{
  contact_label, is_wa_of, contact_ids, register_all, identifiers_of, owners_of, Contact,
  add_identifiers, unlink_identifier, on_owners, on_person, register_contact, register_contacts,
  on_ids,
}
use moresocial.Memory.Conflicts.{if_rule}
use moresocial.Ingest.Text.{normalize, truthy}
use moresocial.Base.{
  ap, take_items, select_where, exists_where, ◌==◌, leb, false, true, text_in, refl, ◌∙◌, none, [],
  ◌∷◌, some, Bool, ◌≡◌, Option, List, Uuid, String,
}
use moresocial.Ingest.{
  Person, PersonIdentifier, SourceRecord, Participant, Python, Store, Source, Exclusion,
}
use moresocial.Ingest.Removal.{
  drop_derived, drop_suggestions, drop_answers, drop_claims, drop_chunks, invalidate,
}
use moresocial.Ingest.People.{
  is_value, found_person, link_people, delete_people, resolve_known, resolve_value, new_person,
  learn, resolve_person,
}
use moresocial.Ingest.Upsert.{
  pair_in, named, resolve_author, add_participant, Named, add_participants, write_participants,
}

abbrev pub kept : Store → List Source × List Exclusion
kept db = (db.sources, db.exclusions)

-- The sources and tombstones, and the claims with what they cite.
abbrev pub Framed : Type 0
Framed = (List Source × List Exclusion) × (List Claim × List ClaimSource)

abbrev framed : Store → Framed
framed db = ((db.sources, db.exclusions), (db.claims, db.claim_sources))

pub enqueue_all-framed :
    (py : Python) (cx : Context) (changes : String) (cs : List (String × Option String))
    (db : Store)
    → framed (enqueue_all py cx changes cs db) ≡ framed db
unfolding enqueue_all
enqueue_all-framed py cx changes [] db = refl
enqueue_all-framed py cx changes (c ∷ cs) db = enqueue_all-framed py cx changes cs _

drop_derived-kept : (ids : List Uuid) (db : Store) → kept (drop_derived ids db) ≡ kept db
unfolding drop_chunks drop_claims drop_answers drop_suggestions
drop_derived-kept ids db = refl

pub invalidate-kept :
    (py : Python) (cx : Context) (rebuild : Bool) (ids : List Uuid) (db : Store)
    → kept (invalidate py cx rebuild ids db) ≡ kept db
unfolding invalidate schedule_rebuilds
invalidate-kept py cx rebuild [] db = refl
invalidate-kept py cx true (i ∷ ids) db =
    ap (λ (f : Framed). f.0) (enqueue_all-framed py cx _ _ _) ∙ drop_derived-kept (i ∷ ids) db
invalidate-kept py cx false (i ∷ ids) db = drop_derived-kept (i ∷ ids) db

resolve_known-framed :
    (py : Python) (kind value : String) (label : Option String) (i : Option PersonIdentifier)
    → (db : Store) → framed (resolve_known py kind value label i db).0 ≡ framed db
unfolding learn new_person
resolve_known-framed py kind value label none db = refl
resolve_known-framed py kind value none (some i) db = refl
resolve_known-framed py kind value (some l) (some i) db = refl

resolve_value-framed :
    (py : Python) (kind : String) (value label : Option String) (ids : List String) (db : Store)
    → framed (resolve_value py kind value label ids db).0 ≡ framed db
resolve_value-framed py kind none label ids db = refl
resolve_value-framed py kind (some value) label ids db =
    if_rule {A = Store × Option Uuid} (λ out. framed out.0 ≡ framed db) (text_in value ids) refl
      (resolve_known-framed py kind value label _ db)

pub resolve_person-framed :
    (py : Python) (kind value : String) (label : Option String) (ids : List String) (db : Store)
    → framed (resolve_person py kind value label ids db).0 ≡ framed db
unfolding resolve_person
resolve_person-framed py kind value label ids db =
    resolve_value-framed py kind (truthy (normalize py kind (some value))) (truthy label) ids db

pub resolve_author-framed :
    (py : Python) (ids : List String) (author : Option Participant) (db : Store)
    → framed (resolve_author py ids author db).0 ≡ framed db
resolve_author-framed py ids none db = refl
resolve_author-framed py ids (some a) db =
    resolve_person-framed py a.kind a.identifier a.label ids db

add_participant-framed :
    (py : Python) (ids : List String) (sid : Uuid) (x : Named) (value : Option String)
    → (seen : List (String × String)) (db : Store)
    → framed (add_participant py ids sid x value seen db).1 ≡ framed db
add_participant-framed py ids sid x none seen db = refl
add_participant-framed py ids sid (p, none) (some value) seen db =
    if_rule {A = List (String × String) × Store} (λ out. framed out.1 ≡ framed db)
      (pair_in (value, p.role) seen) refl (resolve_person-framed py p.kind value p.label ids db)
add_participant-framed py ids sid (p, some author) (some value) seen db =
    if_rule {A = List (String × String) × Store} (λ out. framed out.1 ≡ framed db)
      (pair_in (value, p.role) seen) refl refl

add_participants-framed :
    (py : Python) (ids : List String) (sid : Uuid) (xs : List Named)
    → (seen : List (String × String)) (db : Store)
    → framed (add_participants py ids sid xs seen db) ≡ framed db
unfolding add_participants
add_participants-framed py ids sid [] seen db = refl
add_participants-framed py ids sid (x ∷ xs) seen db =
    add_participants-framed py ids sid xs _ _
    ∙ add_participant-framed py ids sid x (truthy (normalize py x.0.kind (some x.0.identifier)))
        seen db

pub write_participants-framed :
    (py : Python) (ids : List String) (rec : SourceRecord) (sid : Uuid) (author : Option Uuid)
    → (db : Store) → framed (write_participants py ids rec sid author db) ≡ framed db
write_participants-framed py ids rec sid author db =
    add_participants-framed py ids sid (named rec.author author rec.participants) [] _

pub delete_people-kept : (p : Person → Bool) (db : Store) → kept (delete_people p db) ≡ kept db
unfolding delete_people
delete_people-kept p db = refl

pub link_people-kept :
    (keep other : Person) (db : Store) → kept (link_people keep other db) ≡ kept db
unfolding link_people delete_people
link_people-kept keep other db =
    if_rule {A = Store} (λ out. kept out ≡ kept db) (keep.id == other.id) refl refl

pub unlink_identifier-kept :
    (py : Python) (i : PersonIdentifier) (db : Store) → kept (unlink_identifier py i db).0 ≡ kept db
unfolding unlink_identifier
unlink_identifier-kept py i db =
    if_rule {A = Store × Option Uuid} (λ out. kept out.0 ≡ kept db)
      (leb (identifiers_of i.person_id db) 1) refl refl

add_identifiers-framed :
    (py : Python) (label : Option String) (person : Uuid) (vs : List String) (db : Store)
    → framed (add_identifiers py label person vs db) ≡ framed db
unfolding add_identifiers
add_identifiers-framed py label person [] db = refl
add_identifiers-framed py label person (v ∷ vs) db =
    add_identifiers-framed py label person vs _
    ∙ if_rule {A = Store} (λ out. framed out ≡ framed db)
        (exists_where (is_value "whatsapp" v) db.identifiers) refl refl

on_person-framed :
    (py : Python) (ids : List String) (label : Option String) (at : Store × Option Uuid)
    → framed (on_person py ids label at) ≡ framed at.0
on_person-framed py ids label (db, none) = refl
on_person-framed py ids none (db, some person) = add_identifiers-framed py none person ids db
on_person-framed py ids (some l) (db, some person) =
    add_identifiers-framed py (some l) person ids db

on_owners-framed :
    (py : Python) (self_ids : List String) (v : String) (ids : List String)
    → (label : Option String) (owners : List Uuid) (db : Store)
    → framed (on_owners py self_ids v ids label owners db) ≡ framed db
on_owners-framed py self_ids v ids label [] db =
    on_person-framed py ids label (resolve_person py "whatsapp" v label self_ids db)
    ∙ resolve_person-framed py "whatsapp" v label self_ids db
on_owners-framed py self_ids v ids label (o ∷ []) db =
    on_person-framed py ids label (db, found_person o db)
on_owners-framed py self_ids v ids label (o ∷ p ∷ os) db = refl

on_ids-framed :
    (py : Python) (self_ids ids : List String) (label : Option String) (db : Store)
    → framed (on_ids py self_ids ids label db) ≡ framed db
on_ids-framed py self_ids [] label db = refl
on_ids-framed py self_ids (v ∷ vs) label db =
    on_owners-framed py self_ids v (v ∷ vs) label
      (owners_of (select_where (is_wa_of (v ∷ vs)) db.identifiers)) db

register_all-framed :
    (py : Python) (self_ids : List String) (cs : List (Option Contact)) (db : Store)
    → framed (register_all py self_ids cs db) ≡ framed db
unfolding register_contact
register_all-framed py self_ids [] db = refl
register_all-framed py self_ids (none ∷ cs) db = register_all-framed py self_ids cs db
register_all-framed py self_ids (some c ∷ cs) db =
    register_all-framed py self_ids cs _
    ∙ on_ids-framed py self_ids (contact_ids py self_ids c) (contact_label py c) db

pub register_contacts-framed :
    (py : Python) (self_ids : List String) (cs : List (Option Contact)) (db : Store)
    → framed (register_contacts py self_ids cs db) ≡ framed db
unfolding register_contacts
register_contacts-framed py self_ids cs db = register_all-framed py self_ids (take_items 200 cs) db

pub resolve_author-kept :
    (py : Python) (ids : List String) (author : Option Participant) (db : Store)
    → kept (resolve_author py ids author db).0 ≡ kept db
resolve_author-kept py ids author db =
    ap (λ (f : Framed). f.0) (resolve_author-framed py ids author db)

pub write_participants-kept :
    (py : Python) (ids : List String) (rec : SourceRecord) (sid : Uuid) (author : Option Uuid)
    → (db : Store) → kept (write_participants py ids rec sid author db) ≡ kept db
write_participants-kept py ids rec sid author db =
    ap (λ (f : Framed). f.0) (write_participants-framed py ids rec sid author db)
