-- ===== src/Sync/Chain.antt =====
-- `_gmail_incremental` of app/google_sync.py against its description: the records of all history
-- pages since a position, read at once.

use moresocial.Sync.Batches.{run_batches-PageEnd}
use mathlib.Core.List.{append_assoc}
use moresocial.Sync.History.{PageEnd, Stored}
use moresocial.Sync.Monad.{then_rule, ◌>>=◌, M, and_then, cursor_of}
use moresocial.Sync.{World, still_running, err, ok, Result}
use moresocial.Base.{
  refl, subst, sym, ap, ◌+◌, length, inr, inl, arith, ◌⊎◌, ◌≡◌, zero, [], none, suc, some, ◌++◌,
  Option, ℕ, String, List,
}
use moresocial.Sync.Cursor.{IsQuiet, all_records}
use moresocial.Sync.Gmail.{
  incremental, run_batches, Action, next_page, latest_of, page_changes, HistoryPage, Google,
}

module _ {R : Type 0} (g : Google R) where
  abbrev pub with_records : List R → Result (List R × String) → Result (List R × String)
  with_records rs (ok (rs', latest)) = ok (rs ++ rs', latest)
  with_records rs (err e) = err e

  abbrev pub follow :
      String
      → HistoryPage
      → (String → Result (List R × String))
      → Option String
      → Result (List R)
      → Result (List R × String)
  follow cursor h others next (err e) = err e
  follow cursor h others none (ok rs) = ok (rs, latest_of cursor h)
  follow cursor h others (some next) (ok rs) = with_records rs (others next)

  abbrev pub on_page :
      (HistoryPage → Result (List R × String)) → Result HistoryPage → Result (List R × String)
  on_page f (ok h) = f h
  on_page f (err e) = err e

  -- The records of all pages from one on, and the position that the last page names.
  unfoldable pub history_from : ℕ → String → Option String → Result (List R × String)
  unfolding all_records page_changes
  history_from zero cursor page = err still_running
  history_from (suc pages) cursor page =
      on_page
        (λ h.
          follow cursor h (λ next. history_from pages cursor (some next)) h.next
            (all_records g (page_changes h.history [])))
        (g.history cursor page)

  abbrev pub Covered : ℕ → String → Option String → World R → World R → Type 0
  Covered pages cursor page w w' =
      (rs : List R) × (latest : String) × (history_from pages cursor page ≡ ok (rs, latest))
      × (cursor_of w' ≡ some (some latest))
      × (w'.upserted ≡ w.upserted ++ rs)

  -- A poll has stored all records up to its new position, or it has failed; a failed one leaves the
  -- position, unless it failed once all was stored.
  abbrev pub Polled : ℕ → String → Option String → World R → Result (Unit {0}) × World R → Type 0
  Polled pages cursor page w (ok _, w') = Covered pages cursor page w w'
  Polled pages cursor page w (err e, w') =
      (cursor_of w' ≡ cursor_of w) ⊎ Covered pages cursor page w w'

  last-Covered :
      (pages : ℕ) (cursor : String) (page : Option String) (h : HistoryPage) (w w' : World R)
      → g.history cursor page ≡ ok h
      → h.next ≡ none
      → Stored g cursor h (page_changes h.history []) w w'
      → Covered (suc pages) cursor page w w'
  unfolding history_from
  last-Covered pages cursor page h w w' e q (rs, r, c, u) =
      (rs, latest_of cursor h, grind arith, grind arith, u)

  more-Covered :
      (pages : ℕ) (cursor : String) (page : Option String) (h : HistoryPage) (next : String)
      (w w1 w2 : World R)
      → g.history cursor page ≡ ok h
      → h.next ≡ some next
      → Stored g cursor h (page_changes h.history []) w w1
      → Covered pages cursor (some next) w1 w2
      → Covered (suc pages) cursor page w w2
  unfolding history_from
  more-Covered pages cursor page h next w w1 w2 e q (rs, r, c, u) (rs', latest, r', c', u') =
      let a = append_assoc w.upserted rs rs' in (rs ++ rs', latest, grind arith, c', grind arith)

  after_page-Polled :
      (pages : ℕ) (cursor : String) (page : Option String) (h : HistoryPage) (w : World R)
      → g.history cursor page ≡ ok h
      → (next : Option String) → h.next ≡ next
      → ((p : String) (w1 : World R)
          → Polled pages cursor (some p) w1 (incremental g pages cursor (some p) w1))
      → (o : Result (Unit {0}) × World R) → PageEnd g cursor h (page_changes h.history []) w o
      → Polled
          (suc pages)
          cursor
          page
          w
          (and_then o λ _. next_page g (λ p. incremental g pages cursor (some p)) next)
  after_page-Polled pages cursor page h w e none q ih (ok _, w1) s =
      last-Covered pages cursor page h w w1 e q s
  after_page-Polled pages cursor page h w e none q ih (err x, w1) (inl same) = inl same
  after_page-Polled pages cursor page h w e none q ih (err x, w1) (inr s) =
      inr (last-Covered pages cursor page h w w1 e q s)
  after_page-Polled pages cursor page h w e (some p) q ih (err x, w1) (inl same) = inl same
  after_page-Polled pages cursor page h w e (some p) q ih (err x, w1) (inr (rs, r, c, u)) =
      inl (grind arith)
  after_page-Polled pages cursor page h w e (some p) q ih (ok _, w1) s =
      others (incremental g pages cursor (some p) w1) (ih p w1)
    where
      others :
          (o : Result (Unit {0}) × World R)
          → Polled pages cursor (some p) w1 o
          → Polled (suc pages) cursor page w o
      others (ok _, w2) t = more-Covered pages cursor page h p w w1 w2 e q s t
      others (err x, w2) (inl same) = inl (grind arith)
      others (err x, w2) (inr t) = inr (more-Covered pages cursor page h p w w1 w2 e q s t)

  -- For a heartbeat that keeps the position and the records: a poll of Gmail's history that ends
  -- well has stored, in order, exactly the records of all changes of all pages since its start, and
  -- its position is the one that the last page names. A poll that fails leaves the position as it
  -- was, or it fails with all of this done: no position covers a record that is not stored.
  pub incremental-Polled :
      IsQuiet g
      → (pages : ℕ) (cursor : String) (page : Option String) (w : World R)
      → Polled pages cursor page w (incremental g pages cursor page w)
  unfolding incremental
  incremental-Polled quiet zero cursor page w = inl refl
  incremental-Polled quiet (suc pages) cursor page w =
      let P = Polled (suc pages) cursor page w in
      let items : HistoryPage → List (String × Action) = λ h. page_changes h.history [] in
      let go : HistoryPage → Unit {0} → M R (Unit {0}) =
        λ h _. next_page g (λ p. incremental g pages cursor (some p)) h.next in
      let f : HistoryPage → M R (Unit {0}) =
        λ h. run_batches g (length (items h) + 1) cursor h (items h) >>= go h in
      then_rule (λ o. (g.history cursor page ≡ o.0) × (w ≡ o.1)) P f _ (refl, refl)
        (λ h w1 (e, q).
          subst (λ w1. P (f h w1)) q
            (after_page-Polled pages cursor page h w e h.next refl
              (λ p w2. incremental-Polled quiet pages cursor (some p) w2)
              (run_batches g (length (items h) + 1) cursor h (items h) w)
              (run_batches-PageEnd g cursor h quiet (length (items h) + 1) (items h) w)))
        λ x w1 (e, q). inl (ap cursor_of (sym q))
