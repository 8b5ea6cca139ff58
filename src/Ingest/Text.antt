-- ===== src/Ingest/Text.antt =====
-- app/ingest.py: `normalize`, `self_identifiers`, `content_hash`, and Python's truth of a text that
-- may be missing.
use moresocial.Jobs.{Payload}
use moresocial.Base.{
  ◌&&◌, truncate, map, text_eq, some, if◌then◌else◌, [], none, ◌||◌, ◌∷◌, Option, text_ltb, List,
  Bool, ℕ, String,
}
use moresocial.Ingest.{SourceRecord, Participant, Python}

-- `o or None`, and whether `o` is true.
abbrev pub truthy : Option String → Option String
truthy none = none
truthy (some s) = if text_eq s "" then none else some s

abbrev pub or_text : Option String → String → String
or_text none t = t
or_text (some s) t = if text_eq s "" then t else s

-- `(o or '')[:n] or None`
abbrev pub cut : ℕ → Option String → Option String
cut n o = truthy (some (truncate n (or_text o "")))

abbrev if_ok : (String → Bool) → String → Option String
if_ok ok v = if ok v then some v else none

abbrev norm_email : Python → Option String → Option String
norm_email py value = if_ok py.is_email (py.lower (py.strip (or_text value "")))

abbrev pub norm_wa : Python → Option String → Option String
norm_wa py value = if_ok py.is_wa (py.lower (py.strip (or_text value "")))

unfoldable pub normalize : Python → String → Option String → Option String
normalize py kind value =
    if text_eq kind "email"
    then norm_email py value
    else if text_eq kind "whatsapp"
    then norm_wa py value
    else none

-- The rows of Account, Connection of Google and WhatsAppConnector, by the column that is read.
pub record Own : Type 0 where
  pub account_email : Option String
  pub google_email : Option (Option String)
  pub account_wid : Option (Option String)

abbrev add_lower : Python → Option String → List String → List String
add_lower py none ids = ids
add_lower py (some s) ids = py.lower s ∷ ids

abbrev flat : Option (Option String) → Option String
flat none = none
flat (some o) = truthy o

unfoldable self_identifiers : Python → Own → List String
self_identifiers py own =
    add_lower py own.account_email
      (add_lower py (flat own.google_email) (add_lower py (flat own.account_wid) []))

-- `meta.get(key)`; a JSON null is `some none`.
abbrev pub meta_get : String → Payload → Option (Option String)
meta_get key [] = none
meta_get key ((k, v) ∷ meta) = if text_eq k key then some v else meta_get key meta

-- `{**meta, key: value}`
abbrev pub meta_set : String → Option String → Payload → Payload
meta_set key v [] = (key, v) ∷ []
meta_set key v ((k, w) ∷ meta) =
    if text_eq k key then (k, v) ∷ meta else (k, w) ∷ meta_set key v meta

abbrev pub or_default : Option (Option String) → Option String → Option String
or_default none d = d
or_default (some v) d = v

abbrev pub row_of : Participant → String × String × String
row_of p = (p.kind, p.identifier, p.role)

-- Python's order of tuples of texts.
abbrev row_ltb : String × String × String → String × String × String → Bool
row_ltb (a, b, c) (x, y, z) =
    text_ltb a x || (text_eq a x && (text_ltb b y || (text_eq b y && text_ltb c z)))

abbrev insert_row :
    String × String × String → List (String × String × String) → List (String × String × String)
insert_row r [] = r ∷ []
insert_row r (t ∷ ts) = if row_ltb t r then t ∷ insert_row r ts else r ∷ t ∷ ts

abbrev sort_rows : List (String × String × String) → List (String × String × String)
sort_rows [] = []
sort_rows (r ∷ rs) = insert_row r (sort_rows rs)

unfoldable pub content_hash : Python → SourceRecord → String
unfolding text_ltb
content_hash py rec = py.sha256_json (record {
  title = rec.title;
  body = rec.body;
  occurred_at = rec.occurred_at;
  ends_at = rec.ends_at;
  deleted = rec.deleted;
  status = or_default (meta_get "status" rec.meta) none;
  participants = sort_rows (map {A = Participant} row_of rec.participants);
})
