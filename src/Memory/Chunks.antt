-- ===== src/Memory/Chunks.antt =====
-- app/memory.py, `plan_chunks`: the sources of a conversation, each with its rendered body, the text of
-- its date and the name of its speaker, are cut into segments, and those are gathered into chunks.
use moresocial.Base.{
  map, zero, truncate, text_eq, ◌==◌, none, exists_where, drop, ltb, ◌+◌, ◌∷◌, if◌then◌else◌, suc,
  text_length, Option, Bool, join_text, some, str, List, ℕ, [], ◌++◌, Uuid, String,
}

pub record Rendered : Type 0 where
  pub id : Uuid
  pub version : String
  pub body : String
  pub when : String
  pub name : String

-- A chunk while it is planned; `segments` is by source, in the order of first use.
pub record Plan : Type 0 where
  pub members : List Rendered
  pub lines : List String
  pub segments : List (Uuid × List String)
  pub size : ℕ

-- `body[i:i + SEGMENT_CHARS]`, in as many rounds as the body can need.
unfoldable pub cut_body : ℕ → String → List String
cut_body zero body = []
cut_body (suc n) body =
    let rest = cut_body n (drop 2500 body) in
    if text_eq body "" then [] else truncate 2500 body ∷ rest

abbrev pub or_blank : List String → List String
or_blank [] = "" ∷ []
or_blank (s ∷ ss) = s ∷ ss

abbrev pub segments_of : Rendered → List String
segments_of r = or_blank (cut_body (text_length r.body) r.body)

abbrev pub has_member : Uuid → List Rendered → Bool
has_member id = exists_where λ m. m.id == id

-- `members.index(src)`
abbrev pub index_of : Uuid → List Rendered → ℕ
index_of id [] = 0
index_of id (m ∷ ms) = let rest = index_of id ms in if m.id == id then 0 else suc rest

abbrev pub add_member : Rendered → List Rendered → List Rendered
add_member r ms = if has_member r.id ms then ms else ms ++ r ∷ []

-- `segments.setdefault(id, []).append(segment)`
abbrev pub put_segment : Uuid → String → List (Uuid × List String) → List (Uuid × List String)
put_segment id s [] = (id, s ∷ []) ∷ []
put_segment id s ((i, ss) ∷ rest) =
    if i == id then (i, ss ++ s ∷ []) ∷ rest else (i, ss) ∷ put_segment id s rest

abbrev pub line_of : ℕ → Rendered → String → String
line_of n r s = join_text "" ("[S" ∷ str (n + 1) ∷ "] " ∷ r.when ∷ " " ∷ r.name ∷ ": " ∷ s ∷ [])

abbrev pub empty_plan : Plan
empty_plan = record { members = []; lines = []; segments = []; size = 0 }

abbrev pub add_to : Rendered → String → Plan → Plan
add_to r s p =
    let members = add_member r p.members in
    let line = line_of (index_of r.id members) r s in
    record {
      members = members;
      lines = p.lines ++ line ∷ [];
      segments = put_segment r.id s p.segments;
      size = p.size + text_length line;
    }

-- The chunks that are full, and the current one.
abbrev pub Planned : Type 0
Planned = List Plan × Option Plan

abbrev pub close : Planned → List Plan
close (full, none) = full
close (full, some p) = full ++ p ∷ []

-- A segment goes to the current chunk, or to a new one if it does not fit.
abbrev pub add_segment : Rendered → Planned → String → Planned
add_segment r (full, none) s = (full, some (add_to r s empty_plan))
add_segment r (full, some p) s =
    if ltb 6000 (p.size + text_length s)
    then (full ++ p ∷ [], some (add_to r s empty_plan))
    else (full, some (add_to r s p))

abbrev pub add_segments : Rendered → Planned → List String → Planned
add_segments r st [] = st
add_segments r st (s ∷ ss) = add_segments r (add_segment r st s) ss

abbrev pub add_sources : Planned → List Rendered → Planned
add_sources st [] = st
add_sources st (r ∷ rs) = add_sources (add_segments r st (segments_of r)) rs

-- The chunks that `plan_chunks` gathers before it writes them out.
unfoldable pub plan_parts : List Rendered → List Plan
unfolding cut_body str text_length drop truncate
plan_parts rs = close (add_sources ([], none) rs)

-- A chunk as `plan_chunks` returns it, without its key, hash and dates; `segments` is the text of
-- each source.
pub record PlannedChunk : Type 0 where
  pub members : List Rendered
  pub text : String
  pub segments : List (Uuid × String)

abbrev pub join_segments : List (Uuid × List String) → List (Uuid × String)
join_segments [] = []
join_segments ((id, ss) ∷ rest) = (id, join_text "\n" ss) ∷ join_segments rest

abbrev pub write_out : Plan → PlannedChunk
write_out p = record {
  members = p.members;
  text = join_text "\n" p.lines;
  segments = join_segments p.segments;
}

-- `plan_chunks`
unfoldable pub plan_chunks : List Rendered → List PlannedChunk
unfolding plan_parts
plan_chunks rs = map write_out (plan_parts rs)
