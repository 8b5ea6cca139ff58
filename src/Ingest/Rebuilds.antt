-- ===== src/Ingest/Rebuilds.antt =====
-- app/ingest.py: `schedule_rebuilds`, one job for each conversation that changes touch.
use moresocial.Jobs.{enqueue, Request}
use moresocial.Memory.{same_attribute}
use moresocial.Base.{
  ◌+◌, ◌++◌, ◌&&◌, exists_where, none, ◌||◌, map, if◌then◌else◌, join_text, some, ◌∷◌, text_eq,
  truncate, [], Bool, text_append, Option, Time, List, text_ltb, Uuid, String,
}
use moresocial.Ingest.{Source, Python, Store, IngestResult}
use moresocial.Ingest.Text.{or_text}

-- `ws.wid`, the clock, and the id of a job, which `enqueue` draws.
pub record Context : Type 0 where
  pub workspace_id : Uuid
  pub now : Time

-- Python's order of pairs of texts, and of conversations by `(x[0], x[1] or '')`.
abbrev pair_ltb : String × String → String × String → Bool
pair_ltb (a, b) (x, y) = text_ltb a x || (text_eq a x && text_ltb b y)

abbrev conversation_key : String × Option String → String × String
conversation_key (provider, conv) = (provider, or_text conv "")

module _ {A : Type 0} (key : A → String × String) where
  abbrev insert_by : A → List A → List A
  insert_by r [] = r ∷ []
  insert_by r (t ∷ ts) = if pair_ltb (key t) (key r) then t ∷ insert_by r ts else r ∷ t ∷ ts

  -- `sorted(rows, key=key)`
  abbrev sort_by : List A → List A
  sort_by [] = []
  sort_by (r ∷ rs) = insert_by r (sort_by rs)

abbrev joined_change : String × String → String
joined_change (a, b) = text_append a (text_append ":" b)

abbrev conversation_text : Option String → String
conversation_text none = "None"
conversation_text (some s) = s

abbrev rebuild_key : Python → String → String × Option String → String
rebuild_key py changes (provider, conv) =
    text_append "rebuild:"
      (truncate 40 (py.sha256 (join_text "|" (provider ∷ conversation_text conv ∷ changes ∷ []))))

abbrev pub rebuild_request : Python → Uuid → String → String × Option String → Request
rebuild_request py wid changes (provider, conv) = record {
  workspace_id = wid;
  kind = "rebuild_conversation";
  key = rebuild_key py changes (provider, conv);
  payload = ("provider", some provider) ∷ ("conversation_id", conv) ∷ [];
  run_after = none;
  max_attempts = 5;
}

unfoldable pub enqueue_all :
    Python → Context → String → List (String × Option String) → Store → Store
enqueue_all py cx changes [] db = db
enqueue_all py cx changes (c ∷ cs) db = enqueue_all py cx changes cs (record db {
  jobs =
      (enqueue (py.uuid4 db.drawn) cx.now (rebuild_request py cx.workspace_id changes c) db.jobs).0;
  drawn = db.drawn + 1;
})

unfoldable pub schedule_rebuilds : Python → Context → IngestResult → String → Store → Store
unfolding text_ltb
schedule_rebuilds py cx result token =
    let changes = text_append token (
      text_append "|" (
        join_text "|" (map joined_change (sort_by (λ (c : String × String). c) result.changes)))) in
    enqueue_all py cx changes (sort_by conversation_key result.conversations)

abbrev pub same_conversation : String × Option String → String × Option String → Bool
same_conversation (a, c) (b, d) = text_eq a b && same_attribute c d

-- A set of conversations, by its items.
abbrev pub add_conversation :
    String × Option String → List (String × Option String) → List (String × Option String)
add_conversation c cs = if exists_where (same_conversation c) cs then cs else cs ++ c ∷ []

abbrev pub conversation_of : Source → String × Option String
conversation_of s = (s.provider, s.conversation_id)

abbrev pub conversations_of : List Source → List (String × Option String)
conversations_of [] = []
conversations_of (s ∷ ss) = add_conversation (conversation_of s) (conversations_of ss)
