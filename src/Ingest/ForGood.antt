-- ===== src/Ingest/ForGood.antt =====
-- `exclude` of app/ingest.py, and all that may follow it.
use moresocial.Ingest.Rebuilds.{conversation_of, same_conversation, Context}
use moresocial.Memory.{same_attribute}
use moresocial.Ingest.Text.{truthy}
use moresocial.Ingest.Again.{text_eq_refl}
use moresocial.Ingest.People.{id_in, prune_people}
use moresocial.Base.{
  ap, none, arith, All-map, some, ==_refl, Option, delete_where-covers, refl, sym, delete_where,
  subst, text_in, ◌∙◌, exists_where-append, false, on_false, delete_where-All, inr, on_true,
  select_where, map, inl, Bool-cases, true, [], ◌≡◌, ◌∷◌, exists_where, All, Bool, List, Uuid,
  String,
}
use moresocial.Ingest.{conversation, object, ExclusionScope, Python, Store, Source, Exclusion}
use moresocial.Ingest.Removal.{
  by_key, excluded_ids, same_scope, no_result, add_exclusion, is_exclusion, delete_sources, exclude,
  scope_and_key, delete_provider_data, exclusion_of,
}
use moresocial.Ingest.Frame.{
  Framed, register_contacts-framed, unlink_identifier-kept, link_people-kept, delete_people-kept,
  kept, invalidate-kept,
}
use moresocial.Ingest.Operations.{
  registered, unlinked, linked, provider_deleted, excluded, upserted, apply, run, Operation,
}
use moresocial.Ingest.Out.{names_in, names, IsOut, IsShort, covers}
use moresocial.Ingest.Excluded.{add_exclusion-there, upsert-IsOut, kept-IsOut, exclude-sources}

-- Every operation keeps what is out.
apply-IsOut :
    (py : Python) (ids : List String) (x : Exclusion) (op : Context × Operation) (db : Store)
    → IsShort op.1
    → IsOut x (kept db)
    → IsOut x (kept (apply py ids op db))
unfolding delete_provider_data prune_people delete_sources
apply-IsOut py ids x (cx, upserted rec) db le h = upsert-IsOut py cx ids rec x db no_result le h
apply-IsOut py ids x (cx, excluded s scope) db le h =
    kept-IsOut x (exclude-sources py cx s scope db) (
      add_exclusion-there (is_exclusion x.provider x.scope x.key)
          (exclusion_of (scope_and_key scope s) s) db.exclusions h.0,
      delete_where-All (λ s. covers x s ≡ false) _ db.sources h.1,
    )
apply-IsOut py ids x (cx, provider_deleted providers) db le h =
    let gone =
      map {A = Source} {B = Uuid} (λ s. s.id)
        (select_where (λ s. text_in s.provider providers) db.sources) in
    kept-IsOut x (delete_people-kept _ _) (
      subst
        (λ (k : List Source × List Exclusion).
          IsOut x (delete_where (λ s. id_in s.id gone) k.0, k.1))
        (sym (invalidate-kept py cx false gone db))
        (h.0, delete_where-All (λ s. covers x s ≡ false) _ db.sources h.1))
apply-IsOut py ids x (cx, linked keep other) db le h =
    kept-IsOut x (link_people-kept keep other db) h
apply-IsOut py ids x (cx, unlinked i) db le h = kept-IsOut x (unlink_identifier-kept py i db) h
apply-IsOut py ids x (cx, registered contacts) db le h =
    kept-IsOut x (ap (λ (f : Framed). f.0) (register_contacts-framed py ids contacts db)) h

run-IsOut :
    (py : Python) (ids : List String) (x : Exclusion) (ops : List (Context × Operation))
    → (db : Store) → All (λ op. IsShort op.1) ops
    → IsOut x (kept db)
    → IsOut x (kept (run py ids ops db))
run-IsOut py ids x [] db le h = h
run-IsOut py ids x (op ∷ ops) db le h =
    run-IsOut py ids x ops (apply py ids op db) le.1 (apply-IsOut py ids x op db le.0 h)

same_scope_refl : (a : ExclusionScope) → same_scope a a ≡ true
same_scope_refl object = refl
same_scope_refl conversation = refl

is_exclusion_refl : (y : Exclusion) → is_exclusion y.provider y.scope y.key y ≡ true
is_exclusion_refl y = rw (text_eq_refl y.provider, same_scope_refl y.scope, text_eq_refl y.key) refl

add_exclusion-made :
    (y : Exclusion) (xs : List Exclusion)
    → exists_where (is_exclusion y.provider y.scope y.key) (add_exclusion y xs) ≡ true
add_exclusion-made y xs =
    elim (Bool-cases (exists_where (is_exclusion y.provider y.scope y.key) xs)) [
      | inl e ↦
          on_true (λ zs. exists_where (is_exclusion y.provider y.scope y.key) zs ≡ true) _ _ e e
      | inr e ↦
          on_false (λ zs. exists_where (is_exclusion y.provider y.scope y.key) zs ≡ true) _ _ e
            (exists_where-append _ xs (y ∷ []) ∙ rw (e, is_exclusion_refl y) refl)
    ]

-- The rows of a SELECT are among its ids.
select-id_in :
    (q : Source → Bool) (rows : List Source)
    → All
        (λ y.
          q y ≡ true
          → id_in y.id (map {A = Source} {B = Uuid} (λ x. x.id) (select_where q rows)) ≡ true)
        rows
select-id_in q [] = tt
select-id_in q (x ∷ rows) = (
  (λ e. rw (e, ==_refl x.id) refl),
  All-map
      (λ y.
        q y ≡ true
        → id_in y.id (map {A = Source} {B = Uuid} (λ x. x.id) (select_where q rows)) ≡ true)
      (λ y.
        q y ≡ true
        → id_in y.id (map {A = Source} {B = Uuid} (λ x. x.id) (select_where q (x ∷ rows))) ≡ true)
      rows (λ y f e. ground (arith, f e)) (select-id_in q rows),
)

truthy-some : (o : Option String) (key : String) → truthy o ≡ some key → o ≡ some key
truthy-some none key e = cc
truthy-some (some s) key e = ground (arith, e)

by_key-key :
    (o : Option String) (s : Source) → (by_key o s).0 ≡ conversation → o ≡ some (by_key o s).1
by_key-key none s e = cc
by_key-key (some key) s e = refl

conversation-key :
    (scope : ExclusionScope) (s : Source)
    → (scope_and_key scope s).0 ≡ conversation
    → truthy s.conversation_id ≡ some (scope_and_key scope s).1
conversation-key object s e = cc
conversation-key conversation s e = by_key-key (truthy s.conversation_id) s e

named-same :
    (key id : String) (o : Option String)
    → names_in conversation key id o ≡ true
    → same_attribute o (some key) ≡ true
named-same key id none e = cc
named-same key id (some c) e = e

covers-same :
    (key : String) (y s : Source)
    → covers (exclusion_of (conversation, key) s) y ≡ true
    → same_conversation (conversation_of y) (s.provider, some key) ≡ true
unfolding names
covers-same key y s e =
    let same = named-same key y.provider_object_id y.conversation_id in ground (arith, same)

-- What the tombstone covers is removed with the source.
covered-id_in :
    (k : ExclusionScope × String) (s : Source) (rows : List Source)
    → (k.0 ≡ object → All (λ y. covers (exclusion_of k s) y ≡ true → y.id ≡ s.id) rows)
    → (k.0 ≡ conversation → s.conversation_id ≡ some k.1)
    → All
        (λ y. covers (exclusion_of k s) y ≡ true → id_in y.id (excluded_ids k.0 s rows) ≡ true)
        rows
covered-id_in (object, key) s rows only conv =
    All-map (λ y. covers (exclusion_of (object, key) s) y ≡ true → y.id ≡ s.id) _ rows
      (λ y same e. rw (same e, ==_refl s.id) refl) (only refl)
covered-id_in (conversation, key) s rows only conv =
    All-map
      (λ y.
        same_conversation (conversation_of y) (conversation_of s) ≡ true
        → id_in y.id (excluded_ids conversation s rows) ≡ true)
      _ rows (λ y there e. there (rw (conv refl) (covers-same key y s e)))
      (select-id_in (λ y. same_conversation (conversation_of y) (conversation_of s)) rows)

-- No other row is the same object of the provider, where it is the object that is excluded.
abbrev pub IsOnly : Source → ExclusionScope → Store → Type 0
IsOnly s scope db =
    (scope_and_key scope s).0 ≡ object
    → All (λ y. covers (exclusion_of (scope_and_key scope s) s) y ≡ true → y.id ≡ s.id) db.sources

exclude-IsOut :
    (py : Python) (cx : Context) (s : Source) (scope : ExclusionScope) (db : Store)
    → IsOnly s scope db
    → IsOut (exclusion_of (scope_and_key scope s) s) (kept (exclude py cx s scope db).0)
exclude-IsOut py cx s scope db only =
    let x = exclusion_of (scope_and_key scope s) s in
    kept-IsOut x (exclude-sources py cx s scope db) (
      add_exclusion-made x db.exclusions,
      delete_where-covers _ (covers x) db.sources (
          covered-id_in (scope_and_key scope s) s db.sources only
            (λ e. truthy-some s.conversation_id _ (conversation-key scope s e))),
    )

-- Once a user has excluded a source or its conversation, the tombstone stays and no source that it
-- covers is ever in the tables again, whatever is imported, removed, linked or registered later,
-- if no other row is the same object and no object or conversation id of a record that is imported
-- is longer than 400 characters.
pub excluded_for_good :
    (py : Python) (cx : Context) (ids : List String) (s : Source) (scope : ExclusionScope)
    → (db : Store) (ops : List (Context × Operation)) → IsOnly s scope db
    → All (λ op. IsShort op.1) ops
    → IsOut
        (exclusion_of (scope_and_key scope s) s)
        (kept (run py ids ops (exclude py cx s scope db).0))
excluded_for_good py cx ids s scope db ops only le =
    run-IsOut py ids (exclusion_of (scope_and_key scope s) s) ops (exclude py cx s scope db).0 le
      (exclude-IsOut py cx s scope db only)
