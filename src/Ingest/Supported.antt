-- ===== src/Ingest/Supported.antt =====
-- Claims that the pipeline extracted rest on sources that are there: what `invalidate` and the
-- removals of app/ingest.py do with claims.
use moresocial.Ingest.Rebuilds.{Context, schedule_rebuilds}
use moresocial.Ingest.Frame.{enqueue_all-framed, Framed}
use moresocial.Memory.Conflicts.{if_rule}
use moresocial.Ingest.Contacts.{identifiers_of, unlink_identifier}
use moresocial.Ingest.People.{delete_people, link_people, id_in}
use moresocial.Memory.{Claim, ClaimSource}
use moresocial.Base.{
  delete_where-All, ◌∙◌, ==_iff, sym, leb, exists_where-delete_where, subst, Option, All-map,
  All-both, ==_refl, Bool, refl, delete_where-again, ◌==◌, ap, exists_where, delete_where-All_where,
  arith, update_where-All, select_where, [], map, ◌∷◌, delete_where, false, true, All, ◌≡◌, List,
  Uuid,
}
use moresocial.Ingest.{PersonIdentifier, Person, Python, Store}
use moresocial.Ingest.Removal.{
  drop_suggestions, drop_answers, drop_chunks, delete_sources, invalidate, drop_claims,
  is_supported, is_extracted,
}

abbrev pub cited : Store → List Claim × List ClaimSource
cited db = (db.claims, db.claim_sources)

-- Every extracted claim that the user has not confirmed cites a source.
abbrev pub IsSupported : List Claim × List ClaimSource → Type 0
IsSupported (claims, rows) = All (λ c. is_extracted c ≡ true → is_supported rows c ≡ true) claims

-- A claim that loses its support had a row among those that are dropped.
dropped-support :
    (ids : List Uuid) (c : Claim) (rows : List ClaimSource)
    → is_supported rows c ≡ true
    → is_supported (delete_where (λ x. id_in x.source_id ids) rows) c ≡ false
    → id_in c.id (
        map {A = ClaimSource} {B = Uuid}
          (λ x. x.claim_id)
          (select_where (λ x. id_in x.source_id ids) rows))
      ≡ true
dropped-support ids c [] h g = cc
dropped-support ids c (x ∷ rows) h g = ground (arith, dropped-support ids c rows)

drop_claims-IsSupported :
    (ids : List Uuid) (db : Store)
    → IsSupported (cited db)
    → IsSupported (cited (drop_claims ids db))
unfolding drop_claims
drop_claims-IsSupported ids db h =
    let rows = delete_where (λ (x : ClaimSource). id_in x.source_id ids) db.claim_sources in
    update_where-All (λ c. is_extracted c ≡ true → is_supported rows c ≡ true) _ _ _
      (λ c keep e. keep)
      (delete_where-All_where (λ c. is_extracted c ≡ true → is_supported db.claim_sources c ≡ true)
        (λ c. is_extracted c ≡ true → is_supported rows c ≡ true) _ db.claims
        (λ c was left e. ground (arith, was e, dropped-support ids c db.claim_sources (was e))) h)

invalidate-cited :
    (py : Python) (cx : Context) (rebuild : Bool) (i : Uuid) (ids : List Uuid) (db : Store)
    → cited (invalidate py cx rebuild (i ∷ ids) db) ≡ cited (drop_claims (i ∷ ids) db)
unfolding invalidate schedule_rebuilds drop_chunks drop_claims drop_answers drop_suggestions
invalidate-cited py cx true i ids db = ap (λ (f : Framed). f.1) (enqueue_all-framed py cx _ _ _)
invalidate-cited py cx false i ids db = refl

pub invalidate-IsSupported :
    (py : Python) (cx : Context) (rebuild : Bool) (ids : List Uuid) (db : Store)
    → IsSupported (cited db)
    → IsSupported (cited (invalidate py cx rebuild ids db))
unfolding invalidate
invalidate-IsSupported py cx rebuild [] db h = h
invalidate-IsSupported py cx rebuild (i ∷ ids) db h =
    subst IsSupported (sym (invalidate-cited py cx rebuild i ids db))
      (drop_claims-IsSupported (i ∷ ids) db h)

none_in : (rows : List ClaimSource) → delete_where (λ x. id_in x.source_id []) rows ≡ rows
none_in [] = refl
none_in (x ∷ rows) = ap (λ xs. x ∷ xs) (none_in rows)

drop_claims-again :
    (ids : List Uuid) (db : Store)
    → (
      (drop_claims ids db).claims,
      delete_where (λ x. id_in x.source_id ids) (drop_claims ids db).claim_sources,
    )
      ≡ cited (drop_claims ids db)
unfolding drop_claims
drop_claims-again ids db =
    ap (λ rows. ((drop_claims ids db).claims, rows))
      (delete_where-again (λ (x : ClaimSource). id_in x.source_id ids) db.claim_sources)

pub remove-IsSupported :
    (py : Python) (cx : Context) (rebuild : Bool) (ids : List Uuid) (db : Store)
    → IsSupported (cited db)
    → IsSupported (cited (delete_sources ids (invalidate py cx rebuild ids db)))
unfolding delete_sources
remove-IsSupported py cx rebuild [] db h =
    subst (λ rows. IsSupported ((invalidate py cx rebuild [] db).claims, rows)) (sym (none_in _))
      (invalidate-IsSupported py cx rebuild [] db h)
remove-IsSupported py cx rebuild (i ∷ ids) db h =
    subst
      (λ (k : List Claim × List ClaimSource).
        IsSupported (k.0, delete_where (λ x. id_in x.source_id (i ∷ ids)) k.1))
      (sym (invalidate-cited py cx rebuild i ids db))
      (subst IsSupported (sym (drop_claims-again (i ∷ ids) db))
        (drop_claims-IsSupported (i ∷ ids) db h))

found_ids : (cs : List Claim) → All (λ c. exists_where (λ y. y.id == c.id) cs ≡ true) cs
found_ids [] = tt
found_ids (c ∷ cs) = (
  rw (==_refl c.id) refl,
  All-map (λ y. exists_where (λ z. z.id == y.id) cs ≡ true)
      (λ y. exists_where (λ z. z.id == y.id) (c ∷ cs) ≡ true) cs (λ y e. ground (arith, e))
      (found_ids cs),
)

-- The claims of people who are deleted go with the rows that cite for them, and no others.
pub delete_people-IsSupported :
    (p : Person → Bool) (db : Store)
    → IsSupported (cited db)
    → IsSupported (cited (delete_people p db))
unfolding delete_people
delete_people-IsSupported p db h =
    let claims = (delete_people p db).claims in
    let P : Claim → Type 0 = λ c. is_extracted c ≡ true → is_supported db.claim_sources c ≡ true in
    All-both P (λ c. exists_where (λ y. y.id == c.id) claims ≡ true) _ claims
      (λ c was here e.
        exists_where-delete_where (λ x. x.claim_id == c.id) _ db.claim_sources
          (λ x same. rw ((==_iff x.claim_id c.id).0 same, here) refl)
        ∙ was e)
      (delete_where-All P _ db.claims h) (found_ids claims)

pub link_people-IsSupported :
    (keep other : Person) (db : Store)
    → IsSupported (cited db)
    → IsSupported (cited (link_people keep other db))
unfolding link_people
link_people-IsSupported keep other db h =
    if_rule {A = Store} (λ out. IsSupported (cited out)) (keep.id == other.id) h
      (delete_people-IsSupported _ _ (
        update_where-All (λ c. is_extracted c ≡ true → is_supported db.claim_sources c ≡ true) _ _
          db.claims (λ c was e. was) h))

pub unlink_identifier-IsSupported :
    (py : Python) (i : PersonIdentifier) (db : Store)
    → IsSupported (cited db)
    → IsSupported (cited (unlink_identifier py i db).0)
unfolding unlink_identifier
unlink_identifier-IsSupported py i db h =
    if_rule {A = Store × Option Uuid} (λ out. IsSupported (cited out.0))
      (leb (identifiers_of i.person_id db) 1) h
      (update_where-All (λ c. is_extracted c ≡ true → is_supported db.claim_sources c ≡ true) _ _
        db.claims (λ c was e. was) h)
