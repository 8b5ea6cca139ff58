-- ===== src/Sync/Batches.antt =====
-- The batches of a page in `_gmail_incremental` of app/google_sync.py: a page is stored whole before
-- the position moves.
use moresocial.Sync.History.{
  more-PageEnd, apply_page-more, store-PageEnd, take-all, Stored, PageEnd,
}
use moresocial.Sync.{err, ok, Result, World}
use moresocial.Sync.Monad.{cursor_of, then_rule, apply_page, pure, ◌>>=◌, M}
use moresocial.Sync.Cursor.{
  apply_page-Applied, fetch_changes-Fetched, Applied, Fetched, SamePlace, all_records, IsQuiet,
}
use moresocial.Base.{
  take_items, drop_items, refl, false, zero, true, ap, subst, length, inr, leb, ◌≡◌, suc, arith,
  inl, if◌then◌else◌, ℕ, List, Bool, String,
}
use moresocial.Sync.Gmail.{advance_history, Action, run_batches, HistoryPage, Google}

module _ {R : Type 0} (g : Google R) where
  module _ (cursor : String) (h : HistoryPage) where
    from-SamePlace :
        (items : List (String × Action)) (w w1 : World R)
        → SamePlace w w1
        → (o : Result (Unit {0}) × World R) → PageEnd g cursor h items w1 o
        → PageEnd g cursor h items w o
    from-SamePlace items w w1 (c, u) (ok _, w2) (rs, e, c', u') = (rs, e, grind arith, grind arith)
    from-SamePlace items w w1 (c, u) (err x, w2) (inl q) = inl (grind arith)
    from-SamePlace items w w1 (c, u) (err x, w2) (inr (rs, e, c', u')) =
        inr (rs, e, grind arith, grind arith)

    Stored-to :
        (items : List (String × Action)) (w w1 w2 : World R)
        → SamePlace w1 w2
        → Stored g cursor h items w w1
        → Stored g cursor h items w w2
    Stored-to items w w1 w2 (c, u) (rs, e, c', u') = (rs, e, grind arith, grind arith)

    abbrev pub go_on : Bool → M R (Unit {0}) → Unit {0} → M R (Unit {0})
    go_on last others _ = if last then pure tt else others

    abbrev pub finish_batch : Bool → M R (Unit {0}) → Unit {0} → M R (Unit {0})
    finish_batch last others _ = g.heartbeat >>= go_on last others

    -- A batch, from its records on.
    batch-PageEnd :
        IsQuiet g
        → (items : List (String × Action)) (rs : List R) (w : World R) (others : M R (Unit {0}))
        → all_records g (take_items 100 items) ≡ ok rs
        → (last : Bool) → leb (length items) 100 ≡ last
        → ((w1 : World R) → PageEnd g cursor h (drop_items 100 items) w1 (others w1))
        → PageEnd g cursor h items w
            ((apply_page rs (advance_history g cursor h last) >>= finish_batch last others) w)
    batch-PageEnd quiet items rs w others e true q ih =
        let whole : all_records g items ≡ ok rs =
          subst (λ xs. all_records g xs ≡ ok rs) (take-all 100 items q) e in
        then_rule (Applied g rs (advance_history g cursor h true) w) (PageEnd g cursor h items w)
          (finish_batch true others) _ (apply_page-Applied g rs (advance_history g cursor h true) w)
          (λ _ w1 a.
            then_rule (λ o. SamePlace w1 o.1) (PageEnd g cursor h items w) (go_on true others) _
              (quiet w1)
              (λ _ w2 same.
                Stored-to items w w1 w2 same
                  (store-PageEnd g cursor h items rs w whole (ok tt, w1) a))
              λ x w2 same. inr (
                Stored-to items w w1 w2 same
                  (store-PageEnd g cursor h items rs w whole (ok tt, w1) a)))
          λ x w1 a. inl (ap cursor_of a)
    batch-PageEnd quiet items rs w others e false q ih =
        then_rule (Applied g rs (advance_history g cursor h false) w) (PageEnd g cursor h items w)
          (finish_batch false others) _
          (apply_page-Applied g rs (advance_history g cursor h false) w)
          (λ _ w1 a.
            let kept = apply_page-more g cursor h rs w w1 a in
            then_rule (λ o. SamePlace w1 o.1) (PageEnd g cursor h items w) (go_on false others) _
              (quiet w1)
              (λ _ w2 same.
                more-PageEnd g cursor h items rs w w1 e kept (others w2)
                  (from-SamePlace (drop_items 100 items) w1 w2 same (others w2) (ih w2)))
              λ x w2 (c, u). inl (grind arith))
          λ x w1 a. inl (ap cursor_of a)

    pub run_batches-PageEnd :
        IsQuiet g
        → (rounds : ℕ) (items : List (String × Action)) (w : World R)
        → PageEnd g cursor h items w (run_batches g rounds cursor h items w)
    unfolding run_batches
    run_batches-PageEnd quiet zero items w = inl refl
    run_batches-PageEnd quiet (suc rounds) items w =
        let last = leb (length items) 100 in
        let others = run_batches g rounds cursor h (drop_items 100 items) in
        let store : List R → M R (Unit {0}) =
          λ rs. apply_page rs (advance_history g cursor h last) >>= finish_batch last others in
        then_rule (Fetched g (take_items 100 items) w) (PageEnd g cursor h items w) store _
          (fetch_changes-Fetched g quiet (take_items 100 items) w)
          (λ rs w1 (e, kept). from-SamePlace items w w1 kept (store rs w1) (
            batch-PageEnd quiet items rs w1 others e last refl
              (run_batches-PageEnd quiet rounds (drop_items 100 items))))
          λ x w1 (c, u). inl c
