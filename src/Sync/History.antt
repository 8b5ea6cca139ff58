-- ===== src/Sync/History.antt =====
-- `_gmail_incremental` of app/google_sync.py against its description: all changes of a chain of
-- history pages, read at once.
use mathlib.Core.List.{append_assoc}
use moresocial.Sync.Monad.{cursor_of}
use moresocial.Sync.{err, ok, Result, World}
use moresocial.Sync.Cursor.{cons_records, Applied, all_records}
use moresocial.Base.{
  drop_items, take_items, inr, inl, refl, [], ap, zero, suc, ◌⊎◌, arith, ◌++◌, ◌∷◌, false, true,
  some, ◌≡◌, none, length, Option, leb, List, ℕ, String,
}
use moresocial.Sync.Gmail.{change_record, latest_of, advance_history, Action, HistoryPage, Google}

module _ {A : Type 0} where
  pub take-all : (n : ℕ) (xs : List A) → leb (length xs) n ≡ true → take_items n xs ≡ xs
  take-all zero [] e = refl
  take-all zero (x ∷ xs) e = grind arith
  take-all (suc n) [] e = refl
  take-all (suc n) (x ∷ xs) e = ap (λ ys. x ∷ ys) (take-all n xs (ground arith))

module _ {R : Type 0} (g : Google R) where
  cons_records-split :
      (r : Result R) (xs ys zs : Result (List R)) (rs rs' : List R)
      → cons_records g r xs ≡ ok rs
      → ys ≡ ok rs'
      → ((a : List R) → xs ≡ ok a → zs ≡ ok (a ++ rs'))
      → cons_records g r zs ≡ ok (rs ++ rs')
  cons_records-split (ok r) (ok a) ys zs rs rs' e e' f =
      let q : zs ≡ ok (a ++ rs') = f a refl in grind arith
  cons_records-split (ok r) (err q) ys zs rs rs' e e' f = ground arith
  cons_records-split (err q) xs ys zs rs rs' e e' f = ground arith

  all_records-take-drop :
      (n : ℕ) (cs : List (String × Action)) (rs rs' : List R)
      → all_records g (take_items n cs) ≡ ok rs
      → all_records g (drop_items n cs) ≡ ok rs'
      → all_records g cs ≡ ok (rs ++ rs')
  unfolding all_records
  all_records-take-drop zero cs rs rs' e e' = grind arith
  all_records-take-drop (suc n) [] rs rs' e e' = grind arith
  all_records-take-drop (suc n) (c ∷ cs) rs rs' e e' =
      cons_records-split (change_record g c) _ _ _ rs rs' e e'
        λ a q. all_records-take-drop n cs a rs' q e'

  module _ (cursor : String) (h : HistoryPage) where
    -- The position once the page is stored: only a last page moves it.
    abbrev pub after : Option (Option String) → Option (Option String)
    after c = elim h.next [ none ↦ some (some (latest_of cursor h)) | some page ↦ c ]

    abbrev pub Stored : List (String × Action) → World R → World R → Type 0
    Stored items w w' =
        (rs : List R) × (all_records g items ≡ ok rs)
        × (cursor_of w' ≡ after (cursor_of w))
        × (w'.upserted ≡ w.upserted ++ rs)

    -- A page that is not stored whole leaves the position, unless it was left at the very end.
    abbrev pub PageEnd : List (String × Action) → World R → Result (Unit {0}) × World R → Type 0
    PageEnd items w (ok _, w') = Stored items w w'
    PageEnd items w (err e, w') = (cursor_of w' ≡ cursor_of w) ⊎ Stored items w w'

    pub apply_page-last :
        (rs : List R) (w w' : World R)
        → Applied g rs (advance_history g cursor h true) w (ok tt, w')
        → (cursor_of w' ≡ after (cursor_of w)) × (w'.upserted ≡ w.upserted ++ rs)
    apply_page-last rs w w' (st, e, q, u) = ground arith

    pub apply_page-more :
        (rs : List R) (w w' : World R)
        → Applied g rs (advance_history g cursor h false) w (ok tt, w')
        → (cursor_of w' ≡ cursor_of w) × (w'.upserted ≡ w.upserted ++ rs)
    apply_page-more rs w w' (st, e, q, u) = ground arith

    pub store-PageEnd :
        (items : List (String × Action)) (rs : List R) (w : World R)
        → all_records g items ≡ ok rs
        → (o : Result (Unit {0}) × World R) → Applied g rs (advance_history g cursor h true) w o
        → PageEnd items w o
    store-PageEnd items rs w e (ok _, w') a =
        let (c, u) = apply_page-last rs w w' a in (rs, e, c, u)
    store-PageEnd items rs w e (err q, w') a = inl (ap cursor_of a)

    -- A first batch and the rest of a page.
    more-Stored :
        (items : List (String × Action)) (rs : List R) (w w1 w2 : World R)
        → all_records g (take_items 100 items) ≡ ok rs
        → (cursor_of w1 ≡ cursor_of w) × (w1.upserted ≡ w.upserted ++ rs)
        → Stored (drop_items 100 items) w1 w2
        → Stored items w w2
    more-Stored items rs w w1 w2 e (c, u) (rs', e', c', u') = (
      rs ++ rs',
      all_records-take-drop 100 items rs rs' e e',
      grind arith,
      let a = append_assoc w.upserted rs rs' in grind arith,
    )

    pub more-PageEnd :
        (items : List (String × Action)) (rs : List R) (w w1 : World R)
        → all_records g (take_items 100 items) ≡ ok rs
        → (cursor_of w1 ≡ cursor_of w) × (w1.upserted ≡ w.upserted ++ rs)
        → (o : Result (Unit {0}) × World R) → PageEnd (drop_items 100 items) w1 o
        → PageEnd items w o
    more-PageEnd items rs w w1 e same (ok _, w2) q = more-Stored items rs w w1 w2 e same q
    more-PageEnd items rs w w1 e (c, u) (err x, w2) (inl q) = inl (grind arith)
    more-PageEnd items rs w w1 e same (err x, w2) (inr q) =
        inr (more-Stored items rs w w1 w2 e same q)
