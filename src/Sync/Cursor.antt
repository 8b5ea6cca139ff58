-- ===== src/Sync/Cursor.antt =====
-- The position in Gmail's history, `_gmail_incremental` of app/google_sync.py: what a poll stores,
-- in batches and pages, against all changes read at once.
use moresocial.Sync.Monad.{
  M, then_rule, load_rows, store_page, commit, load, apply_page, ◌>>=◌, pure, and_then, cursor_of,
}
use moresocial.Sync.{stream_stopped, Connection, SyncStream, err, ok, World, Result}
use moresocial.Base.{
  none, Option, true, false, if◌then◌else◌, Bool, ◌++◌, some, arith, refl, [], ◌≡◌, ◌∷◌, String,
  List,
}
use moresocial.Sync.Gmail.{with_record, change_record, Action, fetch_changes, Google}

-- The position and the records are as they were.
abbrev pub SamePlace : {R : Type 0} → World R → World R → Type 0
SamePlace w w' = (cursor_of w' ≡ cursor_of w) × (w'.upserted ≡ w.upserted)

module _ {R : Type 0} (g : Google R) where
  -- Whatever a heartbeat changes, it leaves the position and the records.
  abbrev pub IsQuiet : Type 0
  IsQuiet = (w : World R) → SamePlace w (g.heartbeat w).1

  -- The records of changes, all or none.
  abbrev pub cons_records : Result R → Result (List R) → Result (List R)
  cons_records (ok r) rs = with_record r rs
  cons_records (err e) rs = err e

  unfoldable pub all_records : List (String × Action) → Result (List R)
  all_records [] = ok []
  all_records (c ∷ cs) = cons_records (change_record g c) (all_records cs)

  abbrev pub Fetched : List (String × Action) → World R → Result (List R) × World R → Type 0
  Fetched cs w (ok rs, w') = (all_records cs ≡ ok rs) × SamePlace w w'
  Fetched cs w (err e, w') = SamePlace w w'

  pub fetch_changes-Fetched :
      IsQuiet → (cs : List (String × Action)) (w : World R) → Fetched cs w (fetch_changes g cs w)
  unfolding fetch_changes all_records
  fetch_changes-Fetched quiet [] w = (refl, (refl, refl))
  fetch_changes-Fetched quiet (c ∷ cs) w =
      let P = Fetched (c ∷ cs) w in
      let last : R → List R → M R (List R) = λ r rs. pure (r ∷ rs) in
      let others : R → Unit {0} → M R (List R) = λ r _. fetch_changes g cs >>= last r in
      then_rule (λ o. (change_record g c, w) ≡ o) P (λ r. g.heartbeat >>= others r) _ refl
        (λ r w1 e.
          then_rule (λ o. SamePlace w1 o.1) P (others r) _ (quiet w1)
            (λ _ w2 same.
              then_rule (Fetched cs w2) P (last r) _ (fetch_changes-Fetched quiet cs w2)
                (λ rs w3 f. grind arith) λ q w3 f. grind arith)
            λ q w2 same. grind arith)
        λ q w1 e. grind arith

  -- What applying a page has done: nothing, or all of it.
  abbrev pub Applied :
      List R → (SyncStream → SyncStream) → World R → Result (Unit {0}) × World R → Type 0
  Applied rs update w (ok _, w') =
      (st : SyncStream) × (w.stream ≡ some st)
      × (w'.stream ≡ some (update st))
      × (w'.upserted ≡ w.upserted ++ rs)
  Applied rs update w (err e, w') = w' ≡ w

  pub apply_page-Applied :
      (rs : List R) (update : SyncStream → SyncStream) (w : World R)
      → Applied rs update w (apply_page rs update w)
  unfolding apply_page load
  apply_page-Applied rs update w = by_rows w.stream w.conn refl
    where
      by_row :
          (st : SyncStream) (c : Connection) (w' : World R)
          → w.stream ≡ some st
          → (b b' : Bool)
          → Applied rs update w (
              commit w (
                and_then
                  (if b
                    then if b' then (ok (st, c), w) else (err stream_stopped, w')
                    else (err stream_stopped, w))
                  (store_page rs update)))
      by_row st c w' e true true = (st, e, refl, refl)
      by_row st c w' e true false = refl
      by_row st c w' e false b' = refl

      by_rows :
          (s : Option SyncStream) (c : Option Connection)
          → w.stream ≡ s
          → Applied rs update w (commit w (and_then (load_rows w s c) (store_page rs update)))
      by_rows none c e = refl
      by_rows (some st) none e = refl
      by_rows (some st) (some c) e = by_row st c _ e _ _
