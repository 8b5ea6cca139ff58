-- ===== src/Base/Keyed.antt =====
-- Tables with a primary key.
use Prim.Native.Nat.{◌≤◌, ◌+◌, ℕ}
use mathlib.Core.Path.{subst, ◌≡◌, refl, sym, ap₂, ◌∙◌}
use mathlib.Core.Logic.{inr, inl, ◌≢◌}
use mathlib.Core.Bool.{Bool, true, false}
use mathlib.Core.Option
use mathlib.Core.Option.{Option, none, some}
use native.Mathlib.Omega.{arith}
use mathlib.Core.List.{List, [], ◌∷◌, ◌++◌, map}
use moresocial.Base.Tests.{Bool-cases, if◌then◌else◌, ◌==◌, ==_iff, ==_refl}
use moresocial.Base.Lists.{sum_by, All, All-append, All-map}
use moresocial.Base.Table.{update_where, first_where, first_where-All}

abbrev pub Distinct : List ℕ → Type 0
Distinct [] = Unit
Distinct (x ∷ xs) = All (λ y. y ≢ x) xs × Distinct xs

pub Distinct-snoc :
    (xs : List ℕ) (x : ℕ) → Distinct xs → All (λ y. y ≢ x) xs → Distinct (xs ++ x ∷ [])
Distinct-snoc [] x d h = (tt, tt)
Distinct-snoc (y ∷ xs) x d h =
    (All-append (λ z. z ≢ y) xs (x ∷ []) d.0 (λ e. h.0 (sym e), tt), Distinct-snoc xs x d.1 h.1)

module _ {ℓ} {A : Type ℓ} (key : A → ℕ) where
  -- A row is determined by its key.
  abbrev pub IsOnly : List A → A → Type ℓ
  IsOnly rows r = All (λ x. key x ≡ key r → x ≡ r) rows

  absent-IsOnly : (r : A) (rows : List A) → All (λ y. y ≢ key r) (map key rows) → IsOnly rows r
  absent-IsOnly r [] h = tt
  absent-IsOnly r (x ∷ rows) h = (λ e. absurd (h.0 e), absent-IsOnly r rows h.1)

  cons-IsOnly :
      (x : A) (rows all : List A)
      → All (λ y. y ≢ key x) (map key rows)
      → All (IsOnly all) rows
      → All (IsOnly (x ∷ all)) rows
  cons-IsOnly x [] all h o = tt
  cons-IsOnly x (r ∷ rows) all h o =
      ((λ e. absurd (h.0 (sym e)), o.0), cons-IsOnly x rows all h.1 o.1)

  pub Distinct-IsOnly : (rows : List A) → Distinct (map key rows) → All (IsOnly rows) rows
  Distinct-IsOnly [] d = tt
  Distinct-IsOnly (x ∷ rows) d = (
    (λ e. refl, absent-IsOnly x rows d.0),
    cons-IsOnly x rows rows d.0 (Distinct-IsOnly rows d.1),
  )

  -- An UPDATE that does not set the key keeps the keys.
  pub map-update_where :
      (p : A → Bool) (f : A → A) (rows : List A)
      → ((r : A) → key (f r) ≡ key r)
      → map key (update_where p f rows) ≡ map key rows
  map-update_where p f [] same = refl
  map-update_where p f (r ∷ rows) same =
      ap₂ (λ k ks. k ∷ ks) (head (p r)) (map-update_where p f rows same)
    where
      head : (b : Bool) → key (if b then f r else r) ≡ key r
      head true = same r
      head false = refl

  -- SELECT ... WHERE key = k
  abbrev pub find : ℕ → List A → Option A
  find k = first_where (λ r. key r == k)

  pub find-update_where :
      (p : A → Bool) (f : A → A) (k : ℕ) (rows : List A)
      → ((r : A) → key (f r) ≡ key r)
      → find k (update_where p f rows) ≡ Option.map (λ r. if p r then f r else r) (find k rows)
  find-update_where p f k [] same = refl
  find-update_where p f k (r ∷ rows) same =
      ground (arith, same r, find-update_where p f k rows same)

  pub find-key : (k : ℕ) (rows : List A) (r : A) → find k rows ≡ some r → key r ≡ k
  find-key k [] r e = cc
  find-key k (x ∷ rows) r e = ground (arith, find-key k rows r)

  -- With distinct keys, every row with the key is the one found.
  pub find-All :
      (k : ℕ) (rows : List A) (r : A)
      → Distinct (map key rows)
      → find k rows ≡ some r
      → All (λ x. key x ≡ k → x ≡ r) rows
  find-All k rows r d e =
      let (only, here) =
        first_where-All (IsOnly rows) (λ x. key x == k) rows r (Distinct-IsOnly rows d) e in
      All-map (λ x. key x ≡ key r → x ≡ r) (λ x. key x ≡ k → x ≡ r) rows
        (λ x same q. same (q ∙ sym ((==_iff (key r) k).0 here))) only

  pub find-append :
      (k : ℕ) (rows more : List A) (r : A) → find k rows ≡ some r → find k (rows ++ more) ≡ some r
  find-append k [] more r e = cc
  find-append k (x ∷ rows) more r e = ground (arith, find-append k rows more r)

  cons-find :
      (x : A) (rows all : List A)
      → All (λ y. y ≢ key x) (map key rows)
      → All (λ r. find (key r) all ≡ some r) rows
      → All (λ r. find (key r) (x ∷ all) ≡ some r) rows
  cons-find x [] all h o = tt
  cons-find x (r ∷ rows) all h o = (ground (arith, h.0, o.0), cons-find x rows all h.1 o.1)

  -- With distinct keys, every row is found by its key.
  pub Distinct-find :
      (rows : List A) → Distinct (map key rows) → All (λ r. find (key r) rows ≡ some r) rows
  Distinct-find [] d = tt
  Distinct-find (x ∷ rows) d =
      (rw (==_refl (key x)), cons-find x rows rows d.0 (Distinct-find rows d.1))

  absent-sum_by :
      (g : A → ℕ) (f : A → A) (k : ℕ) (rows : List A)
      → All (λ y. y ≢ k) (map key rows)
      → sum_by g (update_where (λ x. key x == k) f rows) ≡ sum_by g rows
  absent-sum_by g f k [] h = refl
  absent-sum_by g f k (x ∷ rows) h = ground (arith, h.0, absent-sum_by g f k rows h.1)

  -- An UPDATE by key changes a sum over the rows by what it changes in the row found.
  pub sum_by-update_where :
      (g : A → ℕ) (f : A → A) (k : ℕ) (rows : List A) (r : A)
      → Distinct (map key rows)
      → find k rows ≡ some r
      → sum_by g (update_where (λ x. key x == k) f rows) + g r ≡ sum_by g rows + g (f r)
  sum_by-update_where g f k [] r d e = cc
  sum_by-update_where g f k (x ∷ rows) r d e = elim (Bool-cases (key x == k)) [
    | inl here ↦
        let same : x ≡ r = ground arith in
        let k_eq : key x ≡ k = (==_iff (key x) k).0 here in
        let rest =
          absent-sum_by g f k rows (subst (λ i. All (λ y. y ≢ i) (map key rows)) k_eq d.0) in
        rw here (
          subst
            (λ y.
              g (f x) + sum_by g (update_where (λ z. key z == k) f rows) + g y
              ≡ g x + sum_by g rows + g (f y))
            same (omega (arith, rest)))
    | inr there ↦ rw there (omega (arith, sum_by-update_where g f k rows r d.1 (ground arith)))
  ]

  pub find-le-sum_by :
      (g : A → ℕ) (k : ℕ) (rows : List A) (r : A) → find k rows ≡ some r → g r ≤ sum_by g rows
  find-le-sum_by g k [] r e = cc
  find-le-sum_by g k (x ∷ rows) r e = elim (Bool-cases (key x == k)) [
    | inl here ↦
        let same : x ≡ r = ground arith in subst (λ y. g y ≤ g x + sum_by g rows) same (omega arith)
    | inr there ↦ omega (arith, find-le-sum_by g k rows r (ground arith))
  ]
