-- ===== src/Sync/Start.antt =====
-- The first import of Gmail from its start, `_gmail` of app/google_sync.py: the position is taken
-- in the state in which the import starts.
use moresocial.Sync.Import.{import_pages-Imported, unchanged, more-upserted, Stores, Imported}
use moresocial.Settings.{if_text}
use moresocial.Sync.Monad.{then_rule, ◌>>=◌, apply_page, cursor_of, M}
use moresocial.Base.{refl, sym, subst, none, arith, [], ◌++◌, some, ◌≡◌, Bool, String, ℕ, Option}
use moresocial.Sync.{err, initial, SyncStream, ok, Result, World}
use moresocial.Sync.Cursor.{apply_page-Applied, Applied, IsQuiet}
use moresocial.Sync.Gmail.{first_initial, import_pages, Google, start_import}

module _ {R : Type 0} (g : Google R) where
  -- How a first import ends.
  abbrev pub Started : World R → Result Bool × World R → Type 0
  Started w (ok cut, w') =
      (id : Option String) × (g.profile w ≡ ok id)
      × (cursor_of w' ≡ some (if_text id))
      × Stores g g.gmail_max_messages w w'
  Started w (err e, w') = (cursor_of w' ≡ cursor_of w) × Stores g g.gmail_max_messages w w'

  from-first :
      (id : Option String) (w w1 : World R)
      → g.profile w ≡ ok id
      → cursor_of w1 ≡ cursor_of w
      → w1.upserted ≡ w.upserted ++ []
      → (o : Result Bool × World R) → Imported g (first_initial g id) w1 o
      → Started w o
  from-first id w w1 e c u (ok cut, w2) (c', (rs, u', le)) =
      (id, e, c', (rs, more-upserted g w w1 w2 [] rs u u', omega arith))
  from-first id w w1 e c u (err x, w2) (c', (rs, u', le)) =
      (grind arith, (rs, more-upserted g w w1 w2 [] rs u u', omega arith))

  -- For a heartbeat that keeps the position and the records: a first import of Gmail stores at most
  -- the configured number of messages. If it ends well, the position is the one that the profile
  -- names in the state in which the import starts, before any message is stored; if it fails, the
  -- position is as it was.
  pub start_import-Started :
      IsQuiet g → (pages : ℕ) (w : World R) → Started w (start_import g pages w)
  start_import-Started quiet pages w =
      let import : Option String → Unit {0} → M R Bool =
        λ id _. import_pages g pages (first_initial g id) in
      let mark : Option String → SyncStream → SyncStream =
        λ id st. record st { progress = initial (first_initial g id) } in
      let begin : Option String → M R Bool = λ id. apply_page [] (mark id) >>= import id in
      let kept : (w' : World R)
          → w' ≡ w
          → (cursor_of w' ≡ cursor_of w) × Stores g g.gmail_max_messages w w' =
        λ w' e.
          let (c, (rs, u, le)) = unchanged g (first_initial g none) w w' e in
          (c, (rs, u, omega arith)) in
      then_rule (λ o. (g.profile w ≡ o.0) × (w ≡ o.1)) (Started w) begin (g.profile w, w)
        (refl, refl)
        (λ id w1 (f, e).
          subst (λ w1. Started w (begin id w1)) e
            (then_rule (Applied g [] (mark id) w) (Started w) (import id) _
              (apply_page-Applied g [] (mark id) w)
              (λ _ w2 (st, q, q', u).
                from-first id w w2 f (grind arith) u (import_pages g pages (first_initial g id) w2)
                  (import_pages-Imported g quiet pages (first_initial g id) w2))
              λ x w2 a. kept w2 a))
        λ x w1 (f, e). kept w1 (sym e)
