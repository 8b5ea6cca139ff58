-- ===== src/Sync/Import.antt =====
-- The first import of Gmail, `_gmail` of app/google_sync.py: how much it stores, and the position it
-- leaves.
use native.Mathlib.Nat.{le_trans}
use mathlib.Core.List.{append_assoc, append-nil}
use moresocial.Sync.Cursor.{SamePlace, IsQuiet, apply_page-Applied, Applied}
use moresocial.Settings.{if_text}
use moresocial.Sync.Monad.{lift, apply_page, ◌>>=◌, M, position, pure, then_rule, cursor_of}
use moresocial.Sync.{err, ok, Result, Initial, World}
use moresocial.Base.{
  take_items, length-append, true, leb, ◌||◌, none, is_some, false, if◌then◌else◌, Option, sym,
  subst, min, ap, refl, zero, [], some, suc, ◌∷◌, arith, ◌≤◌, ◌≡◌, Bool, String, ◌++◌, length, List,
  ℕ,
}
use moresocial.Sync.Gmail.{
  advance_initial, after_listing, import_page, next_initial, Listing, finish_initial, or_passed,
  remaining, end_import, fetch_messages, Google, import_pages,
}

module _ {A : Type 0} where
  length-take : (n : ℕ) (xs : List A) → length (take_items n xs) ≤ n
  length-take zero xs = omega arith
  length-take (suc n) [] = omega arith
  length-take (suc n) (x ∷ xs) = let le = length-take n xs in ground arith

module _ {R : Type 0} (g : Google R) where
  or_passed-length :
      (m : Result R) (rest : Result (List R)) (n : ℕ) (rs : List R)
      → ((rs' : List R) → rest ≡ ok rs' → length rs' ≤ n)
      → or_passed g m rest ≡ ok rs
      → length rs ≤ suc n
  or_passed-length (ok r) (ok rs') n rs le e = let k = le rs' refl in ground arith
  or_passed-length (ok r) (err x) n rs le e = ground arith
  or_passed-length (err x) (ok rs') n rs le e = let k = le rs' refl in ground arith
  or_passed-length (err x) (err y) n rs le e = ground arith

  fetch_messages-length :
      (ids : List String) (rs : List R) → fetch_messages g ids ≡ ok rs → length rs ≤ length ids
  unfolding fetch_messages
  fetch_messages-length [] rs e = ground arith
  fetch_messages-length (id ∷ ids) rs e =
      or_passed-length (g.message id) (fetch_messages g ids) (length ids) rs
        (λ rs' q. fetch_messages-length ids rs' q) e

  -- Where an import may leave the stream: `n` bounds the records that it stores.
  abbrev pub Stores : ℕ → World R → World R → Type 0
  Stores n w w' = (rs : List R) × (w'.upserted ≡ w.upserted ++ rs) × (length rs ≤ n)

  abbrev pub Imported : Initial → World R → Result Bool × World R → Type 0
  Imported p w (ok cut, w') =
      (cursor_of w' ≡ some (if_text p.start_history)) × Stores (remaining g p) w w'
  Imported p w (err e, w') = (cursor_of w' ≡ cursor_of w) × Stores (remaining g p) w w'

  pub unchanged :
      (p : Initial) (w w' : World R)
      → w' ≡ w
      → (cursor_of w' ≡ cursor_of w) × Stores (remaining g p) w w'
  unchanged p w w' e =
      (ap cursor_of e, ([], let a = append-nil w.upserted in grind arith, omega arith))

  end_import-Imported :
      (p : Initial) (cut : Bool) (w : World R) → Imported p w (end_import g p cut w)
  end_import-Imported p cut w =
      then_rule (Applied g [] (finish_initial g p cut) w) (Imported p w) (λ _. pure cut) _
        (apply_page-Applied g [] (finish_initial g p cut) w)
        (λ _ w1 (st, e, q, u). (ap position q, ([], u, omega arith))) λ x w1 a. unchanged p w w1 a

  pub more-upserted :
      (w w1 w2 : World R) (rs rs' : List R)
      → w1.upserted ≡ w.upserted ++ rs
      → w2.upserted ≡ w1.upserted ++ rs'
      → w2.upserted ≡ w.upserted ++ (rs ++ rs')
  more-upserted w w1 w2 rs rs' u u' = let a = append_assoc w.upserted rs rs' in grind arith

  -- A page is stored, and the rest follows.
  more-Imported :
      (p : Initial) (l : Listing) (rs : List R) (w w1 : World R)
      → length rs ≤ remaining g p
      → cursor_of w1 ≡ cursor_of w
      → w1.upserted ≡ w.upserted ++ rs
      → (o : Result Bool × World R) → Imported (next_initial g p l rs) w1 o
      → Imported p w o
  more-Imported p l rs w w1 le c u (ok cut, w2) (c', (rs', u', le')) = (
    c',
    (rs ++ rs', more-upserted w w1 w2 rs rs' u u', let e = length-append rs rs' in omega arith),
  )
  more-Imported p l rs w w1 le c u (err x, w2) (c', (rs', u', le')) = (
    grind arith,
    (rs ++ rs', more-upserted w w1 w2 rs rs' u u', let e = length-append rs rs' in omega arith),
  )

  after_listing-Imported :
      (others : Initial → M R Bool)
      → ((p : Initial) (w : World R) → Imported p w (others p w))
      → (p : Initial) (w : World R) (next : Option String)
      → Imported p w (after_listing g others p next w)
  after_listing-Imported others ih p w none = end_import-Imported p false w
  after_listing-Imported others ih p w (some page) = ih p w

  store-Imported :
      IsQuiet g
      → (others : Initial → M R Bool) → ((p : Initial) (w : World R) → Imported p w (others p w))
      → (p : Initial) (l : Listing) (rs : List R) (w w1 : World R) → length rs ≤ remaining g p
      → Applied g rs (advance_initial g (next_initial g p l rs)) w (ok tt, w1)
      → Imported p w
          ((g.heartbeat >>= λ _. after_listing g others (next_initial g p l rs) l.next) w1)
  store-Imported quiet others ih p l rs w w1 le (st, e, q, u) =
      let r : Initial = next_initial g p l rs in
      let same : cursor_of w1 ≡ cursor_of w = grind arith in
      then_rule (λ o. SamePlace w1 o.1) (Imported p w) (λ _. after_listing g others r l.next) _
        (quiet w1)
        (λ _ w2 (c, v).
          more-Imported p l rs w w2 le (grind arith) (grind arith)
            (after_listing g others r l.next w2) (after_listing-Imported others ih r w2 l.next))
        λ x w2 (c, v). (grind arith, (rs, grind arith, le))

  import_page-Imported :
      IsQuiet g
      → (others : Initial → M R Bool) → ((p : Initial) (w : World R) → Imported p w (others p w))
      → (p : Initial) (w : World R) → Imported p w (import_page g others p w)
  import_page-Imported quiet others ih p w =
      let P = Imported p w in
      let q : Listing → List R → Initial = λ l rs. next_initial g p l rs in
      let beat : Listing → List R → Unit {0} → M R Bool =
        λ l rs _. after_listing g others (q l rs) l.next in
      let store : Listing → List R → Unit {0} → M R Bool = λ l rs _. g.heartbeat >>= beat l rs in
      let page : Listing → List R → M R Bool =
        λ l rs. apply_page rs (advance_initial g (q l rs)) >>= store l rs in
      let listed : Listing → M R Bool =
        λ l. lift (fetch_messages g (take_items (remaining g p) l.messages)) >>= page l in
      let few : (l : Listing) (rs : List R)
          → fetch_messages g (take_items (remaining g p) l.messages) ≡ ok rs
          → length rs ≤ remaining g p =
        λ l rs f.
          le_trans (fetch_messages-length (take_items (remaining g p) l.messages) rs f)
            (length-take (remaining g p) l.messages) in
      then_rule (λ o. w ≡ o.1) P listed (g.list p.page (min 100 (remaining g p)), w) refl
        (λ l w1 e.
          subst (λ w1. P (listed l w1)) e
            (then_rule
              (λ o. (fetch_messages g (take_items (remaining g p) l.messages) ≡ o.0) × (w ≡ o.1)) P
              (page l) (fetch_messages g (take_items (remaining g p) l.messages), w) (refl, refl)
              (λ rs w2 (f, e').
                subst (λ w2. P (page l rs w2)) e'
                  (then_rule (Applied g rs (advance_initial g (q l rs)) w) P (store l rs) _
                    (apply_page-Applied g rs (advance_initial g (q l rs)) w)
                    (λ _ w3 a. store-Imported quiet others ih p l rs w w3 (few l rs f) a)
                    λ x w3 a. unchanged p w w3 a))
              λ x w2 (f, e'). unchanged p w w2 (sym e')))
        λ x w1 e. unchanged p w w1 (sym e)

  pub import_pages-Imported :
      IsQuiet g → (pages : ℕ) (p : Initial) (w : World R) → Imported p w (import_pages g pages p w)
  unfolding import_pages
  import_pages-Imported quiet zero p w = unchanged p w w refl
  import_pages-Imported quiet (suc pages) p w =
      by_room (leb g.gmail_max_messages p.fetched) (λ q w'. import_pages-Imported quiet pages q w')
    where
      by_room :
          (full : Bool)
          → ((q : Initial) (w' : World R) → Imported q w' (import_pages g pages q w'))
          → Imported p w (
              (if full
                  then end_import g p (is_some p.page || p.more)
                  else import_page g (λ q. import_pages g pages q) p)
                w)
      by_room true ih = end_import-Imported p (is_some p.page || p.more) w
      by_room false ih = import_page-Imported quiet (λ q. import_pages g pages q) ih p w
