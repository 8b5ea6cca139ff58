-- ===== src/Sync/Ends.antt =====
-- `_gmail_incremental` of app/google_sync.py ends: its loops need no more rounds than the provider's
-- pages and their changes.
use moresocial.Sync.Batches.{finish_batch, go_on}
use moresocial.Base.{
  take_items, drop_items, ◌+◌, none, some, refl, leb, zero, [], suc, if◌then◌else◌, ◌-◌, arith, ◌<◌,
  ◌∷◌, length, true, List, Option, false, ◌≡◌, ℕ, Bool, String,
}
use moresocial.Sync.{
  stream_stopped, Connection, still_running, SyncStream, err, ok, World, Result, Raised,
}
use moresocial.Sync.Monad.{
  then_rule, load_rows, store_page, commit, ◌>>=◌, pure, and_then, load, M, apply_page,
}
use moresocial.Sync.Gmail.{
  next_page, page_changes, advance_history, fetch, delete, or_deleted, change_record, HistoryPage,
  Action, fetch_changes, Google, incremental, run_batches,
}

-- An exception other than the one that stands for a loop still running.
abbrev pub is_end : Raised → Bool
is_end still_running = false
is_end _ = true

abbrev pub has_ended : {A : Type 0} → Result A → Bool
has_ended (ok a) = true
has_ended (err e) = is_end e

abbrev pub Ends : {R A : Type 0} → Result A × World R → Type 0
Ends o = has_ended o.0 ≡ true

module _ {R : Type 0} where
  pub then-Ends :
      {A B : Type 0} (f : A → M R B) (o : Result A × World R)
      → Ends o
      → ((a : A) (w : World R) → Ends (f a w))
      → Ends (and_then o f)
  then-Ends f (ok a, w) e rest = rest a w
  then-Ends f (err x, w) e rest = e

  pub apply_page-Ends :
      (rs : List R) (update : SyncStream → SyncStream) (w : World R) → Ends (apply_page rs update w)
  unfolding apply_page load
  apply_page-Ends rs update w = by_rows w.stream w.conn
    where
      by_row :
          (st : SyncStream) (c : Connection) (w' : World R) (b b' : Bool)
          → Ends (
              commit w (
                and_then
                  (if b
                    then if b' then (ok (st, c), w) else (err stream_stopped, w')
                    else (err stream_stopped, w))
                  (store_page rs update)))
      by_row st c w' true true = refl
      by_row st c w' true false = refl
      by_row st c w' false b' = refl

      by_rows :
          (s : Option SyncStream) (c : Option Connection)
          → Ends (commit w (and_then (load_rows w s c) (store_page rs update)))
      by_rows none c = refl
      by_rows (some st) none = refl
      by_rows (some st) (some c) = by_row st c _ _ _

module _ {R : Type 0} (g : Google R) where
  -- What comes from outside ends.
  abbrev pub IsOutside : Type 0
  IsOutside =
      ((cursor : String) (page : Option String) → has_ended (g.history cursor page) ≡ true)
      × ((id : String) → has_ended (g.message id) ≡ true)
      × ((w : World R) → Ends (g.heartbeat w))

  change_record-Ends : IsOutside → (c : String × Action) → has_ended (change_record g c) ≡ true
  change_record-Ends (h, m, b) (id, delete) = refl
  change_record-Ends (h, m, b) (id, fetch) = by_answer (g.message id) (m id)
    where
      by_answer : (r : Result R) → has_ended r ≡ true → has_ended (or_deleted g id r) ≡ true
      by_answer (ok r) e = refl
      by_answer (err x) e = ground arith

  fetch_changes-Ends :
      IsOutside → (cs : List (String × Action)) (w : World R) → Ends (fetch_changes g cs w)
  unfolding fetch_changes
  fetch_changes-Ends o [] w = refl
  fetch_changes-Ends o (c ∷ cs) w =
      let last : R → List R → M R (List R) = λ r rs. pure (r ∷ rs) in
      let others : R → Unit {0} → M R (List R) = λ r _. fetch_changes g cs >>= last r in
      then-Ends (λ r. g.heartbeat >>= others r) (change_record g c, w) (change_record-Ends o c)
        λ r w1. then-Ends (others r) (g.heartbeat w1) (o.2 w1) λ _ w2.
          then-Ends (last r) (fetch_changes g cs w2) (fetch_changes-Ends o cs w2) λ rs w3. refl

  length-drop_items : {A : Type 0} (n : ℕ) (xs : List A) → length (drop_items n xs) ≡ length xs - n
  length-drop_items zero xs = omega arith
  length-drop_items (suc n) [] = omega arith
  length-drop_items (suc n) (x ∷ xs) = let e = length-drop_items n xs in ground arith

  go_on-Ends :
      (cursor : String) (h : HistoryPage) (others : M R (Unit {0})) (w : World R) (last : Bool)
      → (last ≡ false → Ends (others w))
      → Ends (go_on g cursor h last others tt w)
  go_on-Ends cursor h others w true f = refl
  go_on-Ends cursor h others w false f = f refl

  -- A round for each item is enough.
  run_batches-Ends :
      IsOutside
      → (rounds : ℕ) (cursor : String) (h : HistoryPage) (items : List (String × Action))
        (w : World R)
      → length items < rounds
      → Ends (run_batches g rounds cursor h items w)
  unfolding run_batches
  run_batches-Ends o zero cursor h items w le = ground arith
  run_batches-Ends o (suc rounds) cursor h items w le =
      let last = leb (length items) 100 in
      let others = run_batches g rounds cursor h (drop_items 100 items) in
      let store : List R → M R (Unit {0}) = λ rs.
        apply_page rs (advance_history g cursor h last) >>= finish_batch g cursor h last others in
      then-Ends store (fetch_changes g (take_items 100 items) w)
        (fetch_changes-Ends o (take_items 100 items) w)
        λ rs w1.
          then-Ends (finish_batch g cursor h last others)
            (apply_page rs (advance_history g cursor h last) w1) (apply_page-Ends rs _ w1)
            λ _ w2. then-Ends (go_on g cursor h last others) (g.heartbeat w2) (o.2 w2) λ _ w3.
              go_on-Ends cursor h others w3 last λ more.
                let shorter = length-drop_items 100 items in
                run_batches-Ends o rounds cursor h (drop_items 100 items) w3 (ground arith)

  -- The provider's pages from one on come to an end within so many pages.
  abbrev pub ends_here : (String → Bool) → Option String → Bool
  ends_here others none = true
  ends_here others (some next) = others next

  abbrev pub ends_after : (String → Bool) → Result HistoryPage → Bool
  ends_after others (ok h) = ends_here others h.next
  ends_after others (err e) = true

  unfoldable pub pages_end : ℕ → String → Option String → Bool
  pages_end zero cursor page = false
  pages_end (suc pages) cursor page =
      ends_after (λ next. pages_end pages cursor (some next)) (g.history cursor page)

  next_page-Ends :
      (f : String → M R (Unit {0})) (others : String → Bool) (w : World R) (next : Option String)
      → ends_here others next ≡ true
      → ((p : String) → others p ≡ true → Ends (f p w))
      → Ends (next_page g f next w)
  next_page-Ends f others w none e k = refl
  next_page-Ends f others w (some p) e k = k p e

  -- A poll of Gmail's history ends if the provider's pages do, in as many rounds, with every batch
  -- of every page: none of its loops is still running.
  pub incremental-Ends :
      IsOutside
      → (pages : ℕ) (cursor : String) (page : Option String) (w : World R)
      → pages_end pages cursor page ≡ true
      → Ends (incremental g pages cursor page w)
  unfolding incremental pages_end
  incremental-Ends o zero cursor page w e = ground arith
  incremental-Ends o (suc pages) cursor page w e =
      let items : HistoryPage → List (String × Action) = λ h. page_changes h.history [] in
      let goes_on : String → Bool = λ next. pages_end pages cursor (some next) in
      let go : HistoryPage → Unit {0} → M R (Unit {0}) =
        λ h _. next_page g (λ p. incremental g pages cursor (some p)) h.next in
      let f : HistoryPage → M R (Unit {0}) =
        λ h. run_batches g (length (items h) + 1) cursor h (items h) >>= go h in
      then_rule (λ r. (has_ended r.0 ≡ true) × (ends_after goes_on r.0 ≡ true)) Ends f
        (g.history cursor page, w) (o.0 cursor page, e)
        (λ h w1 (a, k).
          then-Ends (go h) (run_batches g (length (items h) + 1) cursor h (items h) w1)
            (run_batches-Ends o (length (items h) + 1) cursor h (items h) w1 (omega arith))
            λ _ w2.
              next_page-Ends (λ p. incremental g pages cursor (some p)) goes_on w2 h.next k
                λ p q. incremental-Ends o pages cursor (some p) w2 q)
        λ x w1 (a, k). a
