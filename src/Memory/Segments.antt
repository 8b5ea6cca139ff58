-- ===== src/Memory/Segments.antt =====
-- The texts of the sources in the chunks of `plan_chunks` of app/memory.py, against their bodies.
use mathlib.Core.List.{append-nil}
use moresocial.Memory.Coverage.{plan_parts-held, held_in, segments_in, segments_from}
use text.Mathlib.TextLemmas as Laws
use moresocial.Base.{
  inr, ==_iff, inl, ◌++◌, All-map, ◌==◌, Bool-cases, ==_refl, false, true, map, ◌≢◌, if◌then◌else◌,
  Uuid, Distinct, All, ◌∙◌, text_eq, Bool, [], ap, sym, zero, ◌∷◌, refl, arith, suc, ◌≡◌, join_text,
  text_append, List, ◌≤◌, ℕ, drop, truncate, text_length, String,
}
use moresocial.Memory.Chunks.{
  plan_chunks, plan_parts, Plan, PlannedChunk, join_segments, write_out, or_blank, cut_body,
  segments_of, Rendered,
}

truncate-drop : (n : ℕ) (s : String) → text_append (truncate n s) (drop n s) ≡ s
unfolding truncate drop
truncate-drop zero s = Laws.nil-append s
truncate-drop (suc n) String.[] = Laws.nil-append String.[]
truncate-drop (suc n) (String.◌∷◌ c s) =
    Laws.cons-append c (truncate n s) (drop n s) ∙ ap (λ t. String.◌∷◌ c t) (truncate-drop n s)

length-drop : (n : ℕ) (s : String) → text_length (drop n s) ≤ text_length s
unfolding drop text_length
length-drop zero s = omega arith
length-drop (suc n) String.[] = omega arith
length-drop (suc n) (String.◌∷◌ c s) = let le = length-drop n s in omega arith

length-drop-suc : (n k : ℕ) (s : String) → text_length s ≤ suc k → text_length (drop (suc n) s) ≤ k
unfolding drop text_length
length-drop-suc n k String.[] le = omega arith
length-drop-suc n k (String.◌∷◌ c s) le = let less = length-drop n s in omega arith

empty-length : (s : String) → text_length s ≤ 0 → s ≡ ""
unfolding text_length
empty-length String.[] le = refl
empty-length (String.◌∷◌ c s) le = absurd (omega arith)

cons-join :
    (s : String) (ss : List String) → join_text "" (s ∷ ss) ≡ text_append s (join_text "" ss)
cons-join s [] = sym (Laws.append-nil s)
cons-join s (t ∷ ss) = ap (text_append s) (Laws.nil-append (join_text "" (t ∷ ss)))

cut_body-join :
    (n : ℕ) (body : String) → text_length body ≤ n → join_text "" (cut_body n body) ≡ body
unfolding cut_body
cut_body-join zero body le = sym (empty-length body le)
cut_body-join (suc n) body le =
    by_end (text_eq body "") refl
      (cut_body-join n (drop 2500 body) (length-drop-suc 2499 n body le))
  where
    by_end :
        (b : Bool)
        → text_eq body "" ≡ b
        → join_text "" (cut_body n (drop 2500 body)) ≡ drop 2500 body
        → join_text "" (if b then [] else truncate 2500 body ∷ cut_body n (drop 2500 body)) ≡ body
    by_end true e ih = ground arith
    by_end false e ih =
        cons-join (truncate 2500 body) (cut_body n (drop 2500 body))
        ∙ ap (text_append (truncate 2500 body)) ih
        ∙ truncate-drop 2500 body

or_blank-join : (ss : List String) → join_text "" (or_blank ss) ≡ join_text "" ss
or_blank-join [] = refl
or_blank-join (s ∷ ss) = refl

absent-from :
    (id : Uuid) (rs : List Rendered)
    → All (λ y. y ≢ id) (map (λ r. r.id) rs)
    → segments_from id rs ≡ []
absent-from id [] a = refl
absent-from id (r ∷ rs) (here, a) = elim (Bool-cases (r.id == id)) [
  | inl same ↦ absurd (here ((==_iff r.id id).0 same))
  | inr differs ↦ rw differs (absent-from id rs a)
]

cons-from :
    (r : Rendered) (rs : List Rendered)
    → All (λ y. y ≢ r.id) (map (λ x. x.id) rs)
    → segments_from r.id (r ∷ rs) ≡ segments_of r
cons-from r rs a =
    rw (==_refl r.id)
      (ap (λ ss. segments_of r ++ ss) (absent-from r.id rs a) ∙ append-nil (segments_of r))

later-from :
    (r : Rendered) (rs all : List Rendered)
    → All (λ y. y ≢ r.id) (map (λ x. x.id) rs)
    → All (λ x. segments_from x.id all ≡ segments_of x) rs
    → All (λ x. segments_from x.id (r ∷ all) ≡ segments_of x) rs
later-from r [] all a h = tt
later-from r (x ∷ rs) all (differs, a) (here, h) =
    (let e : (r.id == x.id) ≡ false = ground arith in rw e here, later-from r rs all a h)

Distinct-from :
    (rs : List Rendered)
    → Distinct (map (λ r. r.id) rs)
    → All (λ x. segments_from x.id rs ≡ segments_of x) rs
Distinct-from [] d = tt
Distinct-from (r ∷ rs) (here, d) =
    (cons-from r rs here, later-from r rs rs here (Distinct-from rs d))

-- The segments of a source in the chunks that hold some, and its texts in those that are returned.
abbrev entry_of : {A : Type 0} → Uuid → List (Uuid × A) → List A
entry_of id [] = []
entry_of id ((i, x) ∷ rest) = if i == id then x ∷ [] else entry_of id rest

abbrev parts_of : Uuid → List Plan → List (List String)
parts_of id [] = []
parts_of id (p ∷ ps) = entry_of id p.segments ++ parts_of id ps

abbrev pub texts_of : Uuid → List PlannedChunk → List String
texts_of id [] = []
texts_of id (c ∷ cs) = entry_of id c.segments ++ texts_of id cs

abbrev pub all_of : List (List String) → List String
all_of [] = []
all_of (ss ∷ rest) = ss ++ all_of rest

entry_of-join :
    (id : Uuid) (d : List (Uuid × List String))
    → entry_of id (join_segments d) ≡ map (join_text "\n") (entry_of id d)
entry_of-join id [] = refl
entry_of-join id ((i, ss) ∷ d) = by_id (i == id) (entry_of-join id d)
  where
    by_id :
        (b : Bool)
        → entry_of id (join_segments d) ≡ map (join_text "\n") (entry_of id d)
        → (if b then join_text "\n" ss ∷ [] else entry_of id (join_segments d))
          ≡ map (join_text "\n") (if b then ss ∷ [] else entry_of id d)
    by_id true ih = refl
    by_id false ih = ih

map-++ : {A B : Type 0} (f : A → B) (xs ys : List A) → map f (xs ++ ys) ≡ map f xs ++ map f ys
map-++ f [] ys = refl
map-++ f (x ∷ xs) ys = ap (λ zs. f x ∷ zs) (map-++ f xs ys)

texts_of-parts :
    (id : Uuid) (ps : List Plan)
    → texts_of id (map write_out ps) ≡ map (join_text "\n") (parts_of id ps)
texts_of-parts id [] = refl
texts_of-parts id (p ∷ ps) =
    ap (λ xs. xs ++ texts_of id (map write_out ps)) (entry_of-join id p.segments)
    ∙ ap (λ ys. map (join_text "\n") (entry_of id p.segments) ++ ys) (texts_of-parts id ps)
    ∙ sym (map-++ (join_text "\n") (entry_of id p.segments) (parts_of id ps))

all_of-entry :
    (id : Uuid) (d : List (Uuid × List String)) (rest : List (List String))
    → all_of (entry_of id d ++ rest) ≡ segments_in id d ++ all_of rest
all_of-entry id [] rest = refl
all_of-entry id ((i, ss) ∷ d) rest = by_id (i == id) (all_of-entry id d rest)
  where
    by_id :
        (b : Bool)
        → all_of (entry_of id d ++ rest) ≡ segments_in id d ++ all_of rest
        → all_of ((if b then ss ∷ [] else entry_of id d) ++ rest)
          ≡ (if b then ss else segments_in id d) ++ all_of rest
    by_id true ih = refl
    by_id false ih = ih

all_of-parts : (id : Uuid) (ps : List Plan) → all_of (parts_of id ps) ≡ held_in id ps
all_of-parts id [] = refl
all_of-parts id (p ∷ ps) =
    all_of-entry id p.segments (parts_of id ps)
    ∙ ap (λ xs. segments_in id p.segments ++ xs) (all_of-parts id ps)

-- The texts of a source in the chunks are its segments, in order, split into groups, each group joined
-- by newlines; the segments without the newlines are its body.
abbrev pub IsCarried : List PlannedChunk → Rendered → Type 0
IsCarried chunks r =
    (parts : List (List String)) × (texts_of r.id chunks ≡ map (join_text "\n") parts)
    × (all_of parts ≡ segments_of r)
    × (join_text "" (segments_of r) ≡ r.body)

-- Of the sources of a conversation, with one entry for each: the texts that the planned chunks have of
-- a source are, chunk by chunk, newline-joined groups of its segments, and the groups one after another
-- are exactly its segments of up to 2500 characters, whose concatenation is its body. A chunk with
-- several segments of a source has newlines between them that the body does not have.
pub plan_chunks-body :
    (rs : List Rendered) → Distinct (map (λ r. r.id) rs) → All (IsCarried (plan_chunks rs)) rs
unfolding plan_chunks
plan_chunks-body rs d =
    All-map (λ r. segments_from r.id rs ≡ segments_of r) (IsCarried (plan_chunks rs)) rs
      (λ r e. (
        parts_of r.id (plan_parts rs),
        texts_of-parts r.id (plan_parts rs),
        all_of-parts r.id (plan_parts rs) ∙ plan_parts-held r.id rs ∙ e,
        or_blank-join (cut_body (text_length r.body) r.body)
            ∙ cut_body-join (text_length r.body) r.body (omega arith),
      ))
      (Distinct-from rs d)
