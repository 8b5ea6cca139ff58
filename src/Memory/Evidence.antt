-- ===== src/Memory/Evidence.antt =====
-- `extract_chunk` of app/memory.py: what the published claims cite.
use moresocial.Memory.Operations.{
  has_key, extracted_key, subject_of, is_unknown_person, publish_to, publish_claim, cites, cite_all,
}
use moresocial.Memory.Conflicts.{if_rule}
use moresocial.Memory.Publish.{
  person_of, or_stop, publish_one, or_entry, publish_all, cons_source, by_label, evidence_of,
}
use moresocial.Base.{
  first_where, text_in, ◌+◌, false, ℕ, none, Option, text_eq, All-append, leb, ◌==◌, exists_where,
  [], is_some, arith, not, ◌∷◌, true, some, All, ◌≡◌, ◌&&◌, Bool, String, List, Uuid,
}
use moresocial.Memory.{Claim, Extracted, Claims, Python, ClaimSource, Source}
use moresocial.Memory.Extract.{
  label_number, join_sources, joined_rows, insert_member, sort_members, all_current, ChunkSource,
}

-- A source that may be cited.
abbrev pub is_usable : Source → Bool
is_usable s = s.included && not (is_some s.deleted_at)

-- A property of what there is.
abbrev pub If : {A : Type 0} → (A → Type 0) → Option A → Type 0
If P none = Unit {0}
If P (some a) = P a

module _ (P : ClaimSource → Type 0) where
  -- Every citation of the source, as it stands, is `P`.
  abbrev pub Cited : Source → Type 0
  Cited s = (id : Uuid) → P (record { claim_id = id; source_id = s.id; source_version = s.version })

  abbrev CitedMember : ChunkSource × Source → Type 0
  CitedMember m = is_usable m.1 ≡ true → Cited m.1

  cite_all-All :
      (id : Uuid) (srcs : List Source) (rows : List ClaimSource)
      → All Cited srcs
      → All P rows
      → All P (cite_all id srcs rows)
  unfolding cite_all
  cite_all-All id [] rows c a = a
  cite_all-All id (s ∷ srcs) rows (here, c) a =
      cite_all-All id srcs _ c (
        if_rule (All P) (exists_where (cites id s.id) rows) a (All-append P rows _ a (here id, tt)))

  join_sources-All :
      (cs : ChunkSource) (ss : List Source)
      → All (λ s. is_usable s ≡ true → Cited s) ss
      → All CitedMember (join_sources cs ss)
  join_sources-All cs [] a = tt
  join_sources-All cs (s ∷ ss) (here, a) =
      if_rule (All CitedMember) (s.id == cs.source_id) (here, join_sources-All cs ss a)
        (join_sources-All cs ss a)

  pub joined_rows-All :
      (id : Uuid) (rows : List ChunkSource) (ss : List Source)
      → All (λ s. is_usable s ≡ true → Cited s) ss
      → All CitedMember (joined_rows id rows ss)
  joined_rows-All id [] ss a = tt
  joined_rows-All id (cs ∷ rows) ss a =
      if_rule (All CitedMember) (cs.chunk_id == id)
        (All-append CitedMember (join_sources cs ss) (joined_rows id rows ss)
          (join_sources-All cs ss a) (joined_rows-All id rows ss a))
        (joined_rows-All id rows ss a)

  insert_member-All :
      (m : ChunkSource × Source) (ms : List (ChunkSource × Source))
      → CitedMember m
      → All CitedMember ms
      → All CitedMember (insert_member m ms)
  insert_member-All m [] c a = (c, tt)
  insert_member-All m (n ∷ ns) c (here, a) =
      if_rule (All CitedMember) (leb (label_number m.0) (label_number n.0)) (c, (here, a))
        (here, insert_member-All m ns c a)

  pub sort_members-All :
      (ms : List (ChunkSource × Source)) → All CitedMember ms → All CitedMember (sort_members ms)
  sort_members-All [] a = tt
  sort_members-All (m ∷ ms) (here, a) =
      insert_member-All m (sort_members ms) here (sort_members-All ms a)

  -- The sources of entries that are all current.
  pub current-Cited :
      (ms : List (ChunkSource × Source))
      → all_current ms ≡ true
      → All CitedMember ms
      → All (λ m. Cited m.1) ms
  current-Cited [] e a = tt
  current-Cited ((cs, s) ∷ ms) e (here, a) =
      (here (ground arith), current-Cited ms (ground arith) a)

  or_entry-Cited :
      (o : Option Source) (here : Bool) (s : Source)
      → If Cited o
      → Cited s
      → If Cited (or_entry o here s)
  or_entry-Cited (some t) here s a c = a
  or_entry-Cited none true s a c = c
  or_entry-Cited none false s a c = tt

  by_label-Cited :
      (label : String) (ms : List (ChunkSource × Source))
      → All (λ m. Cited m.1) ms
      → If Cited (by_label label ms)
  by_label-Cited label [] a = tt
  by_label-Cited label ((cs, s) ∷ ms) (here, a) =
      or_entry-Cited (by_label label ms) (text_eq cs.label label) s (by_label-Cited label ms a) here

  cons_source-Cited :
      (s : Option Source) (ss : Option (List Source))
      → If Cited s
      → If (All Cited) ss
      → If (All Cited) (cons_source s ss)
  cons_source-Cited (some s) (some ss) here a = (here, a)
  cons_source-Cited none ss here a = tt
  cons_source-Cited (some s) none here a = tt

  evidence_of-Cited :
      (es : List String) (ms : List (ChunkSource × Source))
      → All (λ m. Cited m.1) ms
      → If (All Cited) (evidence_of es ms)
  unfolding evidence_of
  evidence_of-Cited [] ms a = tt
  evidence_of-Cited (e ∷ es) ms a =
      cons_source-Cited (by_label e ms) (evidence_of es ms) (by_label-Cited e ms a)
        (evidence_of-Cited es ms a)

  module _ (py : Python) (workspace_id : Uuid) where
    publish_claim-All :
        (fresh : Uuid) (c : Extracted) (p : Option Uuid) (evidence : List Source) (m : Claims)
        → All Cited evidence
        → All P m.claim_sources
        → All P (publish_claim py workspace_id fresh c p evidence m).0.claim_sources
    unfolding publish_claim
    publish_claim-All fresh c p evidence m cited a =
        if_rule {A = Claims × Option Uuid} (λ o. All P o.0.claim_sources)
          (is_unknown_person (subject_of c) p) a
          (if_rule {A = Claims × Option Uuid} (λ o. All P o.0.claim_sources)
            (text_in (extracted_key py workspace_id c p) m.rejections) a
            (to (first_where (has_key (extracted_key py workspace_id c p)) m.claims)))
      where
        to :
            (o : Option Claim)
            → All P (publish_to py workspace_id fresh c p evidence m o).0.claim_sources
        to none = cite_all-All fresh evidence m.claim_sources cited a
        to (some o) = cite_all-All o.id evidence m.claim_sources cited a

    publish_one-All :
        (fresh : Uuid) (c : Extracted) (p : Option Uuid) (evidence : Option (List Source))
        (m : Claims)
        → If (All Cited) evidence
        → All P m.claim_sources
        → If (λ m'. All P m'.claim_sources) (publish_one py workspace_id fresh c p evidence m)
    publish_one-All fresh c p none m cited a = tt
    publish_one-All fresh c p (some evidence) m cited a =
        publish_claim-All fresh c p evidence m cited a

    or_stop-All :
        (f : Claims → Option Claims) (m : Option Claims)
        → If (λ m'. All P m'.claim_sources) m
        → ((m' : Claims) → All P m'.claim_sources → If (λ m'. All P m'.claim_sources) (f m'))
        → If (λ m'. All P m'.claim_sources) (or_stop py workspace_id f m)
    or_stop-All f none a k = tt
    or_stop-All f (some m) a k = k m a

    pub publish_all-All :
        (fresh : ℕ → Uuid) (n : ℕ) (people : List (Uuid × String))
        → (ms : List (ChunkSource × Source)) (cs : List Extracted) (m : Claims)
        → All (λ e. Cited e.1) ms
        → All P m.claim_sources
        → If (λ m'. All P m'.claim_sources) (publish_all py workspace_id fresh n people ms cs m)
    unfolding publish_all
    publish_all-All fresh n people ms [] m cited a = a
    publish_all-All fresh n people ms (c ∷ cs) m cited a =
        or_stop-All (λ m'. publish_all py workspace_id fresh (n + 1) people ms cs m')
          (publish_one py workspace_id (fresh n) c (person_of c.subject people)
            (evidence_of c.evidence ms) m)
          (publish_one-All (fresh n) c (person_of c.subject people) (evidence_of c.evidence ms) m
            (evidence_of-Cited c.evidence ms cited) a)
          λ m' b. publish_all-All fresh (n + 1) people ms cs m' cited b
