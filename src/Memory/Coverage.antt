-- ===== src/Memory/Coverage.antt =====
-- `plan_chunks` of app/memory.py: no segment of a conversation is lost, doubled or moved.
use moresocial.Memory.Conflicts.{if_rule}
use mathlib.Core.Bool.{false≢true}
use mathlib.Core.List.{append_assoc, append-nil}
use moresocial.Base.{
  text_length, ◌+◌, ltb, some, inr, ==_iff, subst, false, none, inl, true, Bool-cases, Bool, arith,
  sym, ◌∙◌, ap, refl, ◌==◌, ◌≡◌, [], ◌∷◌, ◌++◌, if◌then◌else◌, String, List, Uuid,
}
use moresocial.Memory.Chunks.{
  empty_plan, add_to, add_segments, add_sources, add_segment, close, plan_parts, Planned,
  segments_of, put_segment, Plan, Rendered,
}

-- The segments of a source in a chunk, and in chunks.
abbrev pub segments_in : Uuid → List (Uuid × List String) → List String
segments_in id [] = []
segments_in id ((i, ss) ∷ rest) = if i == id then ss else segments_in id rest

abbrev pub held_in : Uuid → List Plan → List String
held_in id [] = []
held_in id (p ∷ ps) = segments_in id p.segments ++ held_in id ps

-- The segments of the sources with an id.
abbrev own : Uuid → Rendered → List String → List String
own id r ss = if r.id == id then ss else []

abbrev pub segments_from : Uuid → List Rendered → List String
segments_from id [] = []
segments_from id (r ∷ rs) = own id r (segments_of r) ++ segments_from id rs

held_in-snoc :
    (id : Uuid) (ps : List Plan) (p : Plan)
    → held_in id (ps ++ p ∷ []) ≡ held_in id ps ++ segments_in id p.segments
held_in-snoc id [] p = append-nil (segments_in id p.segments)
held_in-snoc id (q ∷ ps) p =
    ap (λ ss. segments_in id q.segments ++ ss) (held_in-snoc id ps p)
    ∙ sym (append_assoc (segments_in id q.segments) (held_in id ps) (segments_in id p.segments))

here_in :
    (b : Bool) (ss x : List String) (s : String)
    → (if b then ss ++ s ∷ [] else x) ≡ (if b then ss else x) ++ (if b then s ∷ [] else [])
here_in true ss x s = refl
here_in false ss x s = sym (append-nil x)

there_in :
    (b b' : Bool) (ss x y : List String) (s : String)
    → (b ≡ true → b' ≡ false)
    → y ≡ x ++ (if b' then s ∷ [] else [])
    → (if b then ss else y) ≡ (if b then ss else x) ++ (if b' then s ∷ [] else [])
there_in false b' ss x y s differ e = e
there_in true false ss x y s differ e = sym (append-nil ss)
there_in true true ss x y s differ e = absurd (false≢true (sym (differ refl)))

put_segment-in :
    (id i : Uuid) (s : String) (d : List (Uuid × List String))
    → segments_in id (put_segment i s d) ≡ segments_in id d ++ (if i == id then s ∷ [] else [])
put_segment-in id i s [] = refl
put_segment-in id i s ((j, ss) ∷ d) = elim (Bool-cases (j == i)) [
  | inl here ↦ rw here (
      subst
        (λ k.
          (if j == id then ss ++ s ∷ [] else segments_in id d)
          ≡ (if j == id then ss else segments_in id d) ++ (if k == id then s ∷ [] else []))
        ((==_iff j i).0 here) (here_in (j == id) ss (segments_in id d) s))
  | inr there ↦ rw there (
      there_in (j == id) (i == id) ss (segments_in id d) (segments_in id (put_segment i s d)) s
        (λ e. ground arith) (put_segment-in id i s d))
]

add_segment-held :
    (id : Uuid) (r : Rendered) (st : Planned) (s : String)
    → held_in id (close (add_segment r st s)) ≡ held_in id (close st) ++ own id r (s ∷ [])
add_segment-held id r (full, none) s = held_in-snoc id full (add_to r s empty_plan)
add_segment-held id r (full, some p) s = by_room (ltb 6000 (p.size + text_length s))
  where
    by_room :
        (b : Bool)
        → held_in id (
            close (
              if b
              then (full ++ p ∷ [], some (add_to r s empty_plan))
              else (full, some (add_to r s p))))
          ≡ held_in id (full ++ p ∷ []) ++ own id r (s ∷ [])
    by_room true = held_in-snoc id (full ++ p ∷ []) (add_to r s empty_plan)
    by_room false =
        held_in-snoc id full (add_to r s p)
        ∙ ap (λ ss. held_in id full ++ ss) (put_segment-in id r.id s p.segments)
        ∙ sym (append_assoc (held_in id full) (segments_in id p.segments) (own id r (s ∷ [])))
        ∙ ap (λ ss. ss ++ own id r (s ∷ [])) (sym (held_in-snoc id full p))

own-cons :
    (id : Uuid) (r : Rendered) (s : String) (ss : List String)
    → own id r (s ∷ ss) ≡ own id r (s ∷ []) ++ own id r ss
own-cons id r s ss = by_id (r.id == id)
  where
    by_id :
        (b : Bool)
        → (if b then s ∷ ss else []) ≡ (if b then s ∷ [] else []) ++ (if b then ss else [])
    by_id true = refl
    by_id false = refl

own-nil : (id : Uuid) (r : Rendered) → own id r [] ≡ []
own-nil id r = if_rule {A = List String} (λ x. x ≡ []) (r.id == id) refl refl

add_segments-held :
    (id : Uuid) (r : Rendered) (st : Planned) (ss : List String)
    → held_in id (close (add_segments r st ss)) ≡ held_in id (close st) ++ own id r ss
add_segments-held id r st [] =
    sym (ap (λ x. held_in id (close st) ++ x) (own-nil id r) ∙ append-nil (held_in id (close st)))
add_segments-held id r st (s ∷ ss) =
    add_segments-held id r (add_segment r st s) ss
    ∙ ap (λ x. x ++ own id r ss) (add_segment-held id r st s)
    ∙ append_assoc (held_in id (close st)) (own id r (s ∷ [])) (own id r ss)
    ∙ ap (λ x. held_in id (close st) ++ x) (sym (own-cons id r s ss))

add_sources-held :
    (id : Uuid) (st : Planned) (rs : List Rendered)
    → held_in id (close (add_sources st rs)) ≡ held_in id (close st) ++ segments_from id rs
add_sources-held id st [] = sym (append-nil (held_in id (close st)))
add_sources-held id st (r ∷ rs) =
    add_sources-held id (add_segments r st (segments_of r)) rs
    ∙ ap (λ x. x ++ segments_from id rs) (add_segments-held id r st (segments_of r))
    ∙ append_assoc (held_in id (close st)) (own id r (segments_of r)) (segments_from id rs)

-- The chunks of a conversation hold, of each of its sources, exactly its segments in their order:
-- none is lost at the border of a chunk, doubled or attributed to another source.
pub plan_parts-held :
    (id : Uuid) (rs : List Rendered) → held_in id (plan_parts rs) ≡ segments_from id rs
unfolding plan_parts
plan_parts-held id rs = add_sources-held id ([], none) rs
