-- ===== src/Ingest/Identity.antt =====
-- People are matched by their identifiers alone: what any history of app/ingest.py does with the
-- table PersonIdentifier.
use moresocial.Ingest.Rebuilds.{Context}
use moresocial.Ingest.Text.{or_text}
use moresocial.Memory.Conflicts.{if_rule}
use moresocial.Ingest.Contacts.{
  split_off, person_named, identifiers_of, contact_label, unlink_identifier, contact_ids,
  add_identifier, register_all, on_ids, on_person, Contact, on_owners, register_contact,
  register_contacts, add_identifiers,
}
use moresocial.Base.{
  leb, ◌==◌, refl, false, true, on_false, sym, on_true, take_items, arith, none, subst,
  exists_where, some, [], update_where, All, Option, ◌∷◌, delete_where, ◌≡◌, List, Bool, Uuid,
  String,
}
use moresocial.Ingest.{Person, ExclusionScope, Source, Python, Store, PersonIdentifier}
use moresocial.Ingest.Removal.{
  scope_and_key, excluded_ids, no_result, delete_sources, exclude, delete_provider_data,
}
use moresocial.Ingest.Operations.{
  unlinked, linked, provider_deleted, registered, excluded, upserted, apply, run, Operation,
}
use moresocial.Ingest.People.{
  merged, found_person, link_people, delete_people, prune_people, is_value, resolve_person,
}
use moresocial.Ingest.Owners.{
  Grown-AreUnique, count_where-same, Grown-owner, count_where-delete, as_is, one_added, Grown,
  Grown-trans, owner, AreUnique,
}
use moresocial.Ingest.Growth.{invalidate-identifiers, upsert-Grown, resolve_person-Grown}

add_identifiers-Grown :
    (py : Python) (label : Option String) (person : Uuid) (vs : List String) (db : Store)
    → Grown db.identifiers (add_identifiers py label person vs db).identifiers
unfolding add_identifiers
add_identifiers-Grown py label person [] db = as_is
add_identifiers-Grown py label person (v ∷ vs) db =
    Grown-trans _ _ _ (one (exists_where (is_value "whatsapp" v) db.identifiers) refl)
      (add_identifiers-Grown py label person vs _)
  where
    one :
        (b : Bool)
        → exists_where (is_value "whatsapp" v) db.identifiers ≡ b
        → Grown db.identifiers (add_identifier py label person v db).identifiers
    one true e = on_true (λ (out : Store). Grown db.identifiers out.identifiers) _ _ e as_is
    one false e =
        on_false (λ (out : Store). Grown db.identifiers out.identifiers) _ _ e
          (one_added db.identifiers _ as_is e)

on_person-Grown :
    (py : Python) (ids : List String) (label : Option String) (at : Store × Option Uuid)
    → Grown at.0.identifiers (on_person py ids label at).identifiers
on_person-Grown py ids label (db, none) = as_is
on_person-Grown py ids none (db, some person) = add_identifiers-Grown py none person ids db
on_person-Grown py ids (some l) (db, some person) = add_identifiers-Grown py (some l) person ids db

on_owners-Grown :
    (py : Python) (self_ids : List String) (v : String) (ids : List String)
    → (label : Option String) (owners : List Uuid) (db : Store)
    → Grown db.identifiers (on_owners py self_ids v ids label owners db).identifiers
on_owners-Grown py self_ids v ids label [] db =
    Grown-trans _ _ _ (resolve_person-Grown py "whatsapp" v label self_ids db)
      (on_person-Grown py ids label (resolve_person py "whatsapp" v label self_ids db))
on_owners-Grown py self_ids v ids label (o ∷ []) db =
    on_person-Grown py ids label (db, found_person o db)
on_owners-Grown py self_ids v ids label (o ∷ p ∷ os) db = as_is

on_ids-Grown :
    (py : Python) (self_ids ids : List String) (label : Option String) (db : Store)
    → Grown db.identifiers (on_ids py self_ids ids label db).identifiers
on_ids-Grown py self_ids [] label db = as_is
on_ids-Grown py self_ids (v ∷ vs) label db = on_owners-Grown py self_ids v (v ∷ vs) label _ db

register_all-Grown :
    (py : Python) (self_ids : List String) (cs : List (Option Contact)) (db : Store)
    → Grown db.identifiers (register_all py self_ids cs db).identifiers
unfolding register_contact
register_all-Grown py self_ids [] db = as_is
register_all-Grown py self_ids (none ∷ cs) db = register_all-Grown py self_ids cs db
register_all-Grown py self_ids (some c ∷ cs) db =
    Grown-trans _ _ _ (on_ids-Grown py self_ids (contact_ids py self_ids c) (contact_label py c) db)
      (register_all-Grown py self_ids cs _)

register_contacts-Grown :
    (py : Python) (self_ids : List String) (cs : List (Option Contact)) (db : Store)
    → Grown db.identifiers (register_contacts py self_ids cs db).identifiers
unfolding register_contacts
register_contacts-Grown py self_ids cs db = register_all-Grown py self_ids (take_items 200 cs) db

exclude-identifiers :
    (py : Python) (cx : Context) (s : Source) (scope : ExclusionScope) (db : Store)
    → (exclude py cx s scope db).0.identifiers ≡ db.identifiers
unfolding exclude delete_sources
exclude-identifiers py cx s scope db =
    invalidate-identifiers py cx true (excluded_ids (scope_and_key scope s).0 s db.sources) _

-- Imports, exclusions and contacts, which no user asks to merge or split people.
abbrev IsImport : Operation → Type 0
IsImport (upserted rec) = Unit
IsImport (excluded s scope) = Unit
IsImport (registered contacts) = Unit
IsImport op = ⊥

apply-Grown :
    (py : Python) (ids : List String) (op : Context × Operation) (db : Store)
    → IsImport op.1
    → Grown db.identifiers (apply py ids op db).identifiers
apply-Grown py ids (cx, upserted rec) db h = upsert-Grown py cx ids rec db no_result
apply-Grown py ids (cx, excluded s scope) db h =
    subst (Grown db.identifiers) (sym (exclude-identifiers py cx s scope db)) as_is
apply-Grown py ids (cx, registered contacts) db h = register_contacts-Grown py ids contacts db
apply-Grown py ids (cx, provider_deleted providers) db h = absurd h
apply-Grown py ids (cx, linked keep other) db h = absurd h
apply-Grown py ids (cx, unlinked i) db h = absurd h

-- An identifier that belongs to a person still belongs to that person after any imports, exclusions
-- and contact records.
pub import-owner :
    (py : Python) (ids : List String) (ops : List (Context × Operation)) (db : Store)
    → (kind value : String) (person : Uuid) → All (λ op. IsImport op.1) ops
    → owner kind value db.identifiers ≡ some person
    → owner kind value (run py ids ops db).identifiers ≡ some person
import-owner py ids [] db kind value person h e = e
import-owner py ids (op ∷ ops) db kind value person h e =
    import-owner py ids ops (apply py ids op db) kind value person h.1 (
      Grown-owner kind value person db.identifiers (apply py ids op db).identifiers
        (apply-Grown py ids op db h.0) e)

update-AreUnique :
    (p : PersonIdentifier → Bool) (f : PersonIdentifier → PersonIdentifier)
    → (is : List PersonIdentifier)
    → ((kind value : String) (i : PersonIdentifier)
        → is_value kind value (f i) ≡ is_value kind value i)
    → AreUnique is
    → AreUnique (update_where p f is)
unfolding AreUnique
update-AreUnique p f is same u kind value =
    let e = count_where-same (is_value kind value) p f is (same kind value) in
    let le = u kind value in omega arith

delete-AreUnique :
    (p : PersonIdentifier → Bool) (is : List PersonIdentifier)
    → AreUnique is
    → AreUnique (delete_where p is)
unfolding AreUnique
delete-AreUnique p is u kind value =
    let less = count_where-delete (is_value kind value) p is in let le = u kind value in omega arith

delete_people-AreUnique :
    (p : Person → Bool) (db : Store)
    → AreUnique db.identifiers
    → AreUnique (delete_people p db).identifiers
unfolding delete_people
delete_people-AreUnique p db u = delete-AreUnique _ db.identifiers u

link_people-AreUnique :
    (keep other : Person) (db : Store)
    → AreUnique db.identifiers
    → AreUnique (link_people keep other db).identifiers
unfolding link_people
link_people-AreUnique keep other db u =
    if_rule {A = Store} (λ out. AreUnique out.identifiers) (keep.id == other.id) u
      (delete_people-AreUnique (λ p. p.id == other.id) (merged keep other db)
        (update-AreUnique (λ i. i.person_id == keep.id) (λ i. record i { linked_by_user = true })
          (update_where (λ i. i.person_id == other.id)
            (λ i. record i { person_id = keep.id; linked_by_user = true }) db.identifiers)
          (λ k v i. refl)
          (update-AreUnique (λ i. i.person_id == other.id)
            (λ i. record i { person_id = keep.id; linked_by_user = true }) db.identifiers
            (λ k v i. refl) u)))

split_off-AreUnique :
    (i : PersonIdentifier) (id : Uuid) (db : Store)
    → AreUnique db.identifiers
    → AreUnique (split_off i id db).identifiers
unfolding split_off
split_off-AreUnique i id db u =
    update-AreUnique (λ j. j.id == i.id) (λ j. record j { person_id = id; linked_by_user = false })
      db.identifiers (λ k v j. refl) u

unlink_identifier-AreUnique :
    (py : Python) (i : PersonIdentifier) (db : Store)
    → AreUnique db.identifiers
    → AreUnique (unlink_identifier py i db).0.identifiers
unfolding unlink_identifier
unlink_identifier-AreUnique py i db u =
    if_rule {A = Store × Option Uuid} (λ out. AreUnique out.0.identifiers)
      (leb (identifiers_of i.person_id db) 1) u
      (split_off-AreUnique i (py.uuid4 db.drawn) (person_named py (or_text i.label i.value) db) u)

apply-AreUnique :
    (py : Python) (ids : List String) (op : Context × Operation) (db : Store)
    → AreUnique db.identifiers
    → AreUnique (apply py ids op db).identifiers
unfolding delete_provider_data prune_people delete_sources
apply-AreUnique py ids (cx, upserted rec) db u =
    Grown-AreUnique _ _ (apply-Grown py ids (cx, upserted rec) db tt) u
apply-AreUnique py ids (cx, excluded s scope) db u =
    Grown-AreUnique _ _ (apply-Grown py ids (cx, excluded s scope) db tt) u
apply-AreUnique py ids (cx, registered contacts) db u =
    Grown-AreUnique _ _ (apply-Grown py ids (cx, registered contacts) db tt) u
apply-AreUnique py ids (cx, provider_deleted providers) db u =
    delete_people-AreUnique _ _ (subst AreUnique (sym (invalidate-identifiers py cx false _ db)) u)
apply-AreUnique py ids (cx, linked keep other) db u = link_people-AreUnique keep other db u
apply-AreUnique py ids (cx, unlinked i) db u = unlink_identifier-AreUnique py i db u

-- No history gives an identifier to two rows: if each kind and value stands once at most, this
-- holds after any imports, removals, links, splits and contacts.
pub run-AreUnique :
    (py : Python) (ids : List String) (ops : List (Context × Operation)) (db : Store)
    → AreUnique db.identifiers
    → AreUnique (run py ids ops db).identifiers
run-AreUnique py ids [] db u = u
run-AreUnique py ids (op ∷ ops) db u =
    run-AreUnique py ids ops (apply py ids op db) (apply-AreUnique py ids op db u)
