-- ===== src/Sync/Calendar.antt =====
-- app/google_sync.py, `_calendar`, `_calendar_incremental` and `_calendar_window`. What Google
-- answers, and the records that `calendar_record` makes of its events, are a parameter.
use moresocial.Settings.{if_text}
use moresocial.Sync.Monad.{lift, apply_page, ◌>>◌, pure, transaction, ◌>>=◌, raise, M, load}
use moresocial.Base.{
  take_items, zero, ◌++◌, leb, false, suc, days, true, seconds, ◌-◌, [], ltb, length, Time, none,
  if◌then◌else◌, ◌+◌, some, Option, ℕ, Bool, String, List,
}
use moresocial.Sync.{
  err, Connection, window_complete, incremental_done, still_running, ok, gone, window_truncated,
  Result, Outcome, window, google_error, refreshed, Progress, SyncStream, Raised, Window, World,
}

pub record EventPage (R : Type 0) : Type 0 where
  pub items : List R
  pub next : Option String
  pub next_sync : Option String

pub record Agenda (R : Type 0) : Type 0 where
  pub incremental : String → Option String → Result (EventPage R)
  pub window : Time → Time → Option String → Result (EventPage R)
  pub token : Connection → M R (Unit {0})
  pub heartbeat : M R (Unit {0})
  pub calendar_max_events : ℕ
  pub calendar_past_days : ℕ
  pub calendar_future_days : ℕ
  pub now : Time

module _ {R : Type 0} (g : Agenda R) where
  -- `data.get('nextSyncToken') or next_sync`
  abbrev pub or_before : Option String → Option String → Option String
  or_before new old = elim (if_text new) [ some s ↦ some s | none ↦ old ]

  abbrev pub set_cursor : Option String → SyncStream → SyncStream
  set_cursor none st = st
  set_cursor (some s) st = record st { cursor = some s }

  -- All pages are read before their records are stored, in one transaction.
  unfoldable pub events_since : ℕ → String → Option String → List R → Option String → M R (Unit {0})
  events_since zero cursor page records next_sync = raise still_running
  events_since (suc pages) cursor page records next_sync = lift (g.incremental cursor page) >>= λ d.
      g.heartbeat >> elim d.next [
        | none ↦ apply_page (records ++ d.items) (set_cursor (or_before d.next_sync next_sync))
        | some next ↦
            events_since pages cursor (some next) (records ++ d.items)
              (or_before d.next_sync next_sync)
      ]

  abbrev pub advance_window : Window → SyncStream → SyncStream
  advance_window p st = record st { progress = window p; items_seen = p.fetched }

  -- The end of a window: a position only if its last page was reached.
  abbrev pub finish_window : Option String → Bool → SyncStream → SyncStream
  finish_window next_sync cut st = record st {
    cursor = if cut then none else if_text next_sync;
    truncated = cut;
    progress = refreshed g.now;
  }

  abbrev pub next_window : Window → Option String → List R → Window
  next_window p next rs = record p { page = next; fetched = p.fetched + length rs }

  -- The page to go on with: none once the limit cuts the listing.
  abbrev pub page_after : Bool → EventPage R → Option String
  page_after cut d = if cut then none else d.next

  abbrev pub room : Window → ℕ
  room p = g.calendar_max_events - p.fetched

  abbrev pub is_cut : Window → EventPage R → Bool
  is_cut p d = ltb (room p) (length d.items)

  abbrev pub window_after : Window → EventPage R → Window
  window_after p d = next_window p (page_after (is_cut p d) d) (take_items (room p) d.items)

  abbrev pub store_window : Window → EventPage R → M R (Unit {0})
  store_window p d = apply_page (take_items (room p) d.items) (advance_window (window_after p d))

  abbrev pub end_window : Option String → Bool → M R Bool
  end_window next_sync cut = apply_page [] (finish_window next_sync cut) >> pure cut

  unfoldable pub read_window : ℕ → Window → Option String → M R Bool
  read_window zero p next_sync = raise still_running
  read_window (suc pages) p next_sync =
      if leb g.calendar_max_events p.fetched
      then end_window next_sync true
      else lift (g.window p.from_time p.to_time p.page) >>= λ d.
          store_window p d
          >> (g.heartbeat >> elim (page_after (is_cut p d) d) [
            | none ↦ end_window d.next_sync (is_cut p d)
            | some page ↦ read_window pages (window_after p d) d.next_sync
          ])

  -- A window in progress goes on; another starts from now.
  abbrev pub open_window : Progress → Window
  open_window (window p) = p
  open_window _ = record {
    page = none;
    fetched = 0;
    from_time = g.now - days g.calendar_past_days;
    to_time = g.now + days g.calendar_future_days;
  }

  abbrev pub window_outcome : Bool → Outcome
  window_outcome cut = if cut then window_truncated else window_complete

  abbrev pub calendar_window : ℕ → Progress → M R Outcome
  calendar_window pages stage =
      read_window pages (open_window stage) none >>= λ cut. pure (window_outcome cut)

  -- The window is read anew 24 hours after the last time.
  abbrev pub window_due : Progress → Bool
  window_due (refreshed t) = ltb (t + seconds 86400) g.now
  window_due _ = true

  abbrev pub is_gone : Raised → Bool
  is_gone (google_error e) = elim e.kind [ gone ↦ true | _ ↦ false ]
  is_gone _ = false

  abbrev pub clear_cursor : SyncStream → SyncStream
  clear_cursor st = record st { cursor = none }

  -- A sync token that is gone is forgotten, and the window is read.
  abbrev pub or_window : ℕ → Progress → Result (Unit {0}) × World R → Result Outcome × World R
  or_window pages stage (ok _, w) = (ok incremental_done, w)
  or_window pages stage (err e, w) =
      if is_gone e
      then (apply_page [] clear_cursor >> calendar_window pages stage) w
      else (err e, w)

  abbrev pub calendar_from : ℕ → Option String → Progress → Bool → M R Outcome
  calendar_from pages (some cursor) stage false =
      λ w. or_window pages stage (events_since pages cursor none [] none w)
  calendar_from pages _ stage _ = calendar_window pages stage

  -- `_calendar`, for at most so many pages of each kind.
  unfoldable pub sync_calendar : ℕ → M R Outcome
  unfolding events_since read_window load
  sync_calendar pages =
      transaction (load >>= λ p. g.token p.1)
      >> (transaction load >>= λ p.
          calendar_from pages (if_text p.0.cursor) p.0.progress (window_due p.0.progress))
