-- ===== src/Ingest/Moved.antt =====
-- Tables whose rows are given from one person to another, as `link_people` of app/ingest.py does it.
use moresocial.Base.{
  if◌then◌else◌, ap, ◌∙◌, Bool, true, sym, subst, All-map, delete_where-absent, refl,
  update_where-clears, [], arith, update_where, none, delete_where, ◌∷◌, false, All, some,
  select_where, map, ◌≡◌, ◌==◌, List, Option, Uuid,
}
use moresocial.Ingest.{Person}
use moresocial.Ingest.People.{option_id_in, refers, id_in}

-- An UPDATE that keeps what is read of a row.
pub map_unchanged :
    {A B : Type 0} (g : A → B) (p : A → Bool) (f : A → A) (rows : List A)
    → ((r : A) → g (f r) ≡ g r)
    → map g (update_where p f rows) ≡ map g rows
map_unchanged g p f [] same = refl
map_unchanged g p f (r ∷ rows) same =
    ap (λ y. y ∷ map g (update_where p f rows)) (head (p r))
    ∙ ap (λ ys. g r ∷ ys) (map_unchanged g p f rows same)
  where
    head : (b : Bool) → g (if b then f r else r) ≡ g r
    head true = same r
    head false = refl

-- The ids of the people that are deleted.
abbrev pub gone_ids : Uuid → List Person → List Uuid
gone_ids other people =
    map {A = Person} {B = Uuid} (λ x. x.id) (select_where (λ p. p.id == other) people)

pub not_gone :
    (id other : Uuid) (people : List Person)
    → (id == other) ≡ false
    → id_in id (gone_ids other people) ≡ false
not_gone id other [] e = refl
not_gone id other (p ∷ people) e = ground (arith, not_gone id other people e)

option_not_gone :
    (id : Option Uuid) (other : Uuid) (people : List Person)
    → refers other id ≡ false
    → option_id_in id (gone_ids other people) ≡ false
option_not_gone none other people e = refl
option_not_gone (some id) other people e = not_gone id other people e

-- The person that a row refers to once `other` is `keep`.
abbrev redirect : Uuid → Uuid → Option Uuid → Option Uuid
redirect keep other person = if refers other person then some keep else person

-- A table whose rows are moved, and then lose the rows of the person that is deleted: every row is
-- still there, in its place, and refers to `keep` if it referred to `other`, and else to whom it did.
module _ {A : Type 0} (key : A → Uuid) (person : A → Option Uuid) (keep other : Uuid) where
  abbrev pub IsMoved : List A → List A → Type 0
  IsMoved before after =
      (map {A = A} {B = Uuid × Option Uuid} (λ r. (key r, person r)) after
        ≡ map {A = A} {B = Uuid × Option Uuid} (λ r. (key r, redirect keep other (person r)))
            before)
      × All (λ r. refers other (person r) ≡ false) after

  pub stay-IsMoved :
      (people : List Person) (before moved : List A)
      → IsMoved before moved
      → IsMoved before (delete_where (λ r. option_id_in (person r) (gone_ids other people)) moved)
  stay-IsMoved people before moved (same, clear) =
      let all_stay =
        delete_where-absent (λ r. option_id_in (person r) (gone_ids other people)) moved
          (All-map (λ r. refers other (person r) ≡ false) _ moved
            (λ r e. option_not_gone (person r) other people e) clear) in
      subst (IsMoved before) (sym all_stay) (same, clear)

  moved_pair :
      (set : A → A) (r : A) (b : Bool)
      → key (set r) ≡ key r
      → person (set r) ≡ some keep
      → ◌≡◌ {A = Uuid × Option Uuid}
          (key (if b then set r else r), person (if b then set r else r))
          (key r, (if b then some keep else person r))
  moved_pair set r true e f = rw e (rw f refl)
  moved_pair set r false e f = refl

  moved_pairs :
      (set : A → A) (rows : List A)
      → ((r : A) → key (set r) ≡ key r)
      → ((r : A) → person (set r) ≡ some keep)
      → map {A = A} {B = Uuid × Option Uuid}
          (λ r. (key r, person r))
          (update_where (λ r. refers other (person r)) set rows)
        ≡ map {A = A} {B = Uuid × Option Uuid} (λ r. (key r, redirect keep other (person r))) rows
  moved_pairs set [] same to = refl
  moved_pairs set (r ∷ rows) same to =
      ap
        (λ x.
          x
          ∷ map {A = A} {B = Uuid × Option Uuid} (λ r. (key r, person r))
              (update_where (λ r. refers other (person r)) set rows))
        (moved_pair set r (refers other (person r)) (same r) (to r))
      ∙ ap (λ xs. (key r, redirect keep other (person r)) ∷ xs) (moved_pairs set rows same to)

  pub set-IsMoved :
      (set : A → A) (rows : List A)
      → ((r : A) → key (set r) ≡ key r)
      → ((r : A) → person (set r) ≡ some keep)
      → (keep == other) ≡ false
      → IsMoved rows (update_where (λ r. refers other (person r)) set rows)
  set-IsMoved set rows same to differ = (
    moved_pairs set rows same to,
    update_where-clears (λ r. refers other (person r)) set rows (λ r. rw (to r) differ),
  )
