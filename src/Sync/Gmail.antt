-- ===== src/Sync/Gmail.antt =====
-- app/google_sync.py, `_gmail` and `_gmail_incremental`. What Google answers, and the records that
-- `gmail_record` makes of its messages, are a parameter.
use moresocial.Settings.{if_text}
use moresocial.Sync.Monad.{transaction, load, apply_page, ◌>>◌, ◌>>=◌, lift, raise, pure, M}
use moresocial.Base.{
  drop_items, take_items, ◌-◌, min, none, false, leb, true, is_some, ◌||◌, text_eq, some, length,
  if◌then◌else◌, zero, text_in, [], ◌∷◌, Bool, suc, ◌+◌, Option, List, ℕ, String,
}
use moresocial.Sync.{
  initial_complete, initial_truncated, incremental_done, World, Connection, Outcome, not_found,
  no_progress, still_running, google_error, initial, err, history, SyncStream, ok, Progress, Result,
  Initial, Raised,
}

-- A page of a listing of messages; `next` is none where the token is missing or empty.
pub record Listing : Type 0 where
  pub messages : List String
  pub next : Option String

-- An entry of a history page: the messages added and deleted, and those whose labels changed, with
-- the labels.
pub record HistoryRecord : Type 0 where
  pub messages_added : List String
  pub messages_deleted : List String
  pub labels_added : List (String × List String)
  pub labels_removed : List (String × List String)

pub record HistoryPage : Type 0 where
  pub history : List HistoryRecord
  pub next : Option String
  pub history_id : Option String

-- What the run has from outside: Google's answers, the token of the connection, the heartbeat of
-- the job, and the settings. The position that the profile names depends on when it is asked for,
-- by the state of the import then.
pub record Google (R : Type 0) : Type 0 where
  pub profile : World R → Result (Option String)
  pub list : Option String → ℕ → Result Listing
  pub message : String → Result R
  pub history : String → Option String → Result HistoryPage
  pub deleted : String → R
  pub token : Connection → M R (Unit {0})
  pub heartbeat : M R (Unit {0})
  pub gmail_max_messages : ℕ

pub data Action : Type 0 where
  fetch delete : Action

-- `changes[id] = action`: an id keeps the place at which it came first.
unfoldable pub put : String → Action → List (String × Action) → List (String × Action)
put id a [] = (id, a) ∷ []
put id a ((i, b) ∷ rest) = if text_eq i id then (i, a) ∷ rest else (i, b) ∷ put id a rest

abbrev pub put_all : Action → List String → List (String × Action) → List (String × Action)
put_all a [] changes = changes
put_all a (id ∷ ids) changes = put_all a ids (put id a changes)

-- `{'SPAM', 'TRASH'} & set(labelIds)`
abbrev pub is_hidden : List String → Bool
is_hidden labels = text_in "SPAM" labels || text_in "TRASH" labels

abbrev pub hidden_ids : List (String × List String) → List String
hidden_ids [] = []
hidden_ids ((id, labels) ∷ rest) =
    if is_hidden labels then id ∷ hidden_ids rest else hidden_ids rest

abbrev pub record_changes : HistoryRecord → List (String × Action) → List (String × Action)
record_changes h changes = put_all fetch (hidden_ids h.labels_removed) (
    put_all delete (hidden_ids h.labels_added)
      (put_all delete h.messages_deleted (put_all fetch h.messages_added changes)))

unfoldable pub page_changes : List HistoryRecord → List (String × Action) → List (String × Action)
unfolding put
page_changes [] changes = changes
page_changes (h ∷ hs) changes = page_changes hs (record_changes h changes)

-- `isinstance(exc, GoogleError) and exc.kind == 'not_found'`
abbrev pub is_not_found : Raised → Bool
is_not_found (google_error e) = elim e.kind [ not_found ↦ true | _ ↦ false ]
is_not_found _ = false

abbrev pub with_record : {R : Type 0} → R → Result (List R) → Result (List R)
with_record r (ok rs) = ok (r ∷ rs)
with_record r (err e) = err e

-- `str(h.get('historyId') or cursor)`
abbrev pub latest_of : String → HistoryPage → String
latest_of cursor h = elim (if_text h.history_id) [ some latest ↦ latest | none ↦ cursor ]

module _ {R : Type 0} (g : Google R) where
  -- A message that is gone by now counts as deleted.
  abbrev pub or_deleted : String → Result R → Result R
  or_deleted id (ok r) = ok r
  or_deleted id (err e) = if is_not_found e then ok (g.deleted id) else err e

  abbrev pub change_record : String × Action → Result R
  change_record (id, delete) = ok (g.deleted id)
  change_record (id, fetch) = or_deleted id (g.message id)

  -- The records of a batch of changes, with a heartbeat after each.
  unfoldable pub fetch_changes : List (String × Action) → M R (List R)
  fetch_changes [] = pure []
  fetch_changes (c ∷ cs) =
      lift (change_record c) >>= λ r. g.heartbeat >> (fetch_changes cs >>= λ rs. pure (r ∷ rs))

  -- What the last batch of a page does to the stream.
  abbrev pub advance_history : String → HistoryPage → Bool → SyncStream → SyncStream
  advance_history cursor h false st = st
  advance_history cursor h true st = elim h.next [
    | some page ↦ record st { progress = history cursor page }
    | none ↦ record st { cursor = some (latest_of cursor h); progress = no_progress }
  ]

  -- `for n in range(0, max(1, len(items)), 100)`: batches of 100, at least one; the rounds are
  -- those that the items can need.
  unfoldable pub run_batches : ℕ → String → HistoryPage → List (String × Action) → M R (Unit {0})
  unfolding fetch_changes
  run_batches zero cursor h items = raise still_running
  run_batches (suc rounds) cursor h items = fetch_changes (take_items 100 items) >>= λ rs.
      apply_page rs (advance_history cursor h (leb (length items) 100))
      >> (g.heartbeat
          >> (if leb (length items) 100
              then pure tt
              else run_batches rounds cursor h (drop_items 100 items)))

  abbrev pub next_page : (String → M R (Unit {0})) → Option String → M R (Unit {0})
  next_page f none = pure tt
  next_page f (some next) = f next

  -- `_gmail_incremental` from a page on, for so many pages.
  unfoldable pub incremental : ℕ → String → Option String → M R (Unit {0})
  unfolding run_batches page_changes
  incremental zero cursor page = raise still_running
  incremental (suc pages) cursor page = lift (g.history cursor page) >>= λ h.
      run_batches (length (page_changes h.history []) + 1) cursor h (page_changes h.history [])
      >> next_page (λ next. incremental pages cursor (some next)) h.next

  abbrev pub resume_page : String → Progress → Option String
  resume_page cursor (history start page) = if text_eq start cursor then some page else none
  resume_page cursor _ = none

  -- A message that is gone is passed over.
  abbrev pub or_passed : Result R → Result (List R) → Result (List R)
  or_passed (ok r) rest = with_record r rest
  or_passed (err e) rest = if is_not_found e then rest else err e

  -- The messages of a listing.
  unfoldable pub fetch_messages : List String → Result (List R)
  fetch_messages [] = ok []
  fetch_messages (id ∷ ids) = or_passed (g.message id) (fetch_messages ids)

  abbrev pub advance_initial : Initial → SyncStream → SyncStream
  advance_initial p st = record st { progress = initial p; items_seen = p.fetched }

  abbrev pub finish_initial : Initial → Bool → SyncStream → SyncStream
  finish_initial p cut st = record st {
    cursor = if_text p.start_history;
    progress = no_progress;
    truncated = cut;
  }

  abbrev pub next_initial : Initial → Listing → List R → Initial
  next_initial p l rs = record p {
    page = l.next;
    fetched = p.fetched + length rs;
    more = is_some l.next;
  }

  abbrev pub remaining : Initial → ℕ
  remaining p = g.gmail_max_messages - p.fetched

  abbrev pub end_import : Initial → Bool → M R Bool
  end_import p cut = apply_page [] (finish_initial p cut) >> pure cut

  abbrev pub after_listing : (Initial → M R Bool) → Initial → Option String → M R Bool
  after_listing others p none = end_import p false
  after_listing others p (some next) = others p

  -- A page of the listing, and what is left of it.
  abbrev pub import_page : (Initial → M R Bool) → Initial → M R Bool
  import_page others p = lift (g.list p.page (min 100 (remaining p))) >>= λ l.
      lift (fetch_messages (take_items (remaining p) l.messages)) >>= λ rs.
      apply_page rs (advance_initial (next_initial p l rs))
      >> (g.heartbeat >> after_listing others (next_initial p l rs) l.next)

  -- The loop of `_gmail` over the pages of the listing, and its end.
  unfoldable pub import_pages : ℕ → Initial → M R Bool
  unfolding fetch_messages
  import_pages zero p = raise still_running
  import_pages (suc pages) p =
      if leb g.gmail_max_messages p.fetched
      then end_import p (is_some p.page || p.more)
      else import_page (λ q. import_pages pages q) p

  abbrev pub first_initial : Option String → Initial
  first_initial id = record { start_history = id; page = none; fetched = 0; more = false }

  -- A first import: the history position is taken before any message is listed.
  abbrev pub start_import : ℕ → M R Bool
  start_import pages = (λ w. (g.profile w, w)) >>= λ id.
      apply_page [] (λ st. record st { progress = initial (first_initial id) })
      >> import_pages pages (first_initial id)

  abbrev pub import_outcome : Bool → Outcome
  import_outcome cut = if cut then initial_truncated else initial_complete

  abbrev pub import_all : ℕ → Progress → M R Outcome
  import_all pages (initial p) = import_pages pages p >>= λ cut. pure (import_outcome cut)
  import_all pages _ = start_import pages >>= λ cut. pure (import_outcome cut)

  -- An expired history position is answered `not_found`: import anew.
  abbrev pub or_import : ℕ → Result (Unit {0}) × World R → Result Outcome × World R
  or_import pages (ok _, w) = (ok incremental_done, w)
  or_import pages (err e, w) = if is_not_found e then import_all pages no_progress w else (err e, w)

  abbrev pub sync_from : ℕ → Option String → Progress → M R Outcome
  sync_from pages none stage = import_all pages stage
  sync_from pages (some cursor) (initial p) = import_all pages (initial p)
  sync_from pages (some cursor) stage =
      λ w. or_import pages (incremental pages cursor (resume_page cursor stage) w)

  -- `_gmail`, for at most so many pages of each kind.
  unfoldable pub sync_gmail : ℕ → M R Outcome
  unfolding incremental import_pages load
  sync_gmail pages =
      transaction (load >>= λ p. g.token p.1)
      >> (transaction load >>= λ p. sync_from pages (if_text p.0.cursor) p.0.progress)
