-- ===== src/Ingest/Operations.antt =====
-- Histories of app/ingest.py: what callers do to a workspace, one call after the other.
use moresocial.Ingest.Rebuilds.{Context}
use moresocial.Ingest.People.{link_people}
use moresocial.Ingest.Upsert.{upsert}
use moresocial.Base.{[], Option, ◌∷◌, List, String}
use moresocial.Ingest.{
  PersonIdentifier, ExclusionScope, Python, Store, Source, SourceRecord, Person,
}
use moresocial.Ingest.Removal.{delete_provider_data, exclude, no_result}
use moresocial.Ingest.Contacts.{register_contacts, unlink_identifier, Contact}

pub data Operation : Type 0 where
  upserted : SourceRecord → Operation
  excluded : Source → ExclusionScope → Operation
  provider_deleted : List String → Operation
  linked : Person → Person → Operation
  unlinked : PersonIdentifier → Operation
  registered : List (Option Contact) → Operation

-- The user's own identifiers are those of the caller, `ids`.
abbrev pub apply : Python → List String → Context × Operation → Store → Store
apply py ids (cx, upserted rec) db = (upsert py cx ids rec db no_result).0
apply py ids (cx, excluded s scope) db = (exclude py cx s scope db).0
apply py ids (cx, provider_deleted providers) db = (delete_provider_data py cx providers db).0
apply py ids (cx, linked keep other) db = link_people keep other db
apply py ids (cx, unlinked i) db = (unlink_identifier py i db).0
apply py ids (cx, registered contacts) db = register_contacts py ids contacts db

abbrev pub run : Python → List String → List (Context × Operation) → Store → Store
run py ids [] db = db
run py ids (op ∷ ops) db = run py ids ops (apply py ids op db)
