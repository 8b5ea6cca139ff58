-- ===== src/Base/Table.antt =====
-- A database table is the list of its rows, and an SQL statement is one of these functions.
use mathlib.Core.Logic.{inr, inl}
use Prim.Native.Nat.{ℕ, suc}
use mathlib.Core.Path.{◌∙◌, sym, ◌≡◌, refl, subst, ap}
use mathlib.Core.Bool.{Bool, true, false, ◌||◌}
use mathlib.Core.Option.{Option, none, some, some-injective}
use mathlib.Core.List.{List, [], ◌∷◌, ◌++◌}
use native.Mathlib.Omega.{arith}
use moresocial.Base.Tests.{Bool-cases, if◌then◌else◌}
use moresocial.Base.Lists.{All}

module _ {ℓ} {A : Type ℓ} where
  -- UPDATE ... SET f WHERE p
  abbrev pub update_where : (A → Bool) → (A → A) → List A → List A
  update_where p f [] = []
  update_where p f (r ∷ rs) = (if p r then f r else r) ∷ update_where p f rs

  -- DELETE ... WHERE p
  abbrev pub delete_where : (A → Bool) → List A → List A
  delete_where p [] = []
  delete_where p (r ∷ rs) = let rest = delete_where p rs in if p r then rest else r ∷ rest

  -- EXISTS (SELECT ... WHERE p)
  abbrev pub exists_where : (A → Bool) → List A → Bool
  exists_where p [] = false
  exists_where p (r ∷ rs) = p r || exists_where p rs

  -- SELECT ... WHERE p
  abbrev pub select_where : (A → Bool) → List A → List A
  select_where p [] = []
  select_where p (r ∷ rs) = let rest = select_where p rs in if p r then r ∷ rest else rest

  -- The first row of a SELECT.
  abbrev pub first_where : (A → Bool) → List A → Option A
  first_where p [] = none
  first_where p (r ∷ rs) = let rest = first_where p rs in if p r then some r else rest

  -- The rowcount of an UPDATE or a DELETE.
  abbrev pub count_where : (A → Bool) → List A → ℕ
  count_where p [] = 0
  count_where p (r ∷ rs) = let rest = count_where p rs in if p r then suc rest else rest

module _ {ℓ} {A : Type ℓ} where
  pub update_where-All {κ} :
      (P : A → Type κ) (p : A → Bool) (f : A → A) (rs : List A)
      → ((r : A) → P r → p r ≡ true → P (f r))
      → All P rs
      → All P (update_where p f rs)
  update_where-All P p f [] keep h = tt
  update_where-All P p f (r ∷ rs) keep h = (updated (p r) refl, update_where-All P p f rs keep h.1)
    where
      updated : (b : Bool) → p r ≡ b → P (if b then f r else r)
      updated true e = keep r h.0 e
      updated false e = h.0

  -- The same where the WHERE and a second predicate of the rows decide what is set.
  pub update_where-All_where {κ μ} :
      (P : A → Type κ) (Q : A → Type μ) (p : A → Bool) (f : A → A) (rs : List A)
      → ((r : A) → P r → Q r → p r ≡ true → P (f r))
      → All P rs
      → All Q rs
      → All P (update_where p f rs)
  update_where-All_where P Q p f [] keep h g = tt
  update_where-All_where P Q p f (r ∷ rs) keep h g =
      (updated (p r) refl, update_where-All_where P Q p f rs keep h.1 g.1)
    where
      updated : (b : Bool) → p r ≡ b → P (if b then f r else r)
      updated true e = keep r h.0 g.0 e
      updated false e = h.0

  -- What a SELECT returns satisfies its condition and every predicate of the rows.
  pub first_where-All {κ} :
      (P : A → Type κ) (p : A → Bool) (rs : List A) (r : A)
      → All P rs
      → first_where p rs ≡ some r
      → P r × (p r ≡ true)
  first_where-All P p [] r h e = cc
  first_where-All P p (x ∷ rs) r h e = found (p x) refl (first_where-All P p rs r h.1) e
    where
      found :
          (b : Bool)
          → p x ≡ b
          → (first_where p rs ≡ some r → P r × (p r ≡ true))
          → (if b then some x else first_where p rs) ≡ some r
          → P r × (p r ≡ true)
      found true px later q = subst (λ y. P y × (p y ≡ true)) (some-injective x r q) (h.0, px)
      found false px later q = later q

  pub exists_where-update_where :
      (q p : A → Bool) (f : A → A) (rs : List A)
      → ((r : A) → q (f r) ≡ q r)
      → exists_where q (update_where p f rs) ≡ exists_where q rs
  exists_where-update_where q p f [] same = refl
  exists_where-update_where q p f (r ∷ rs) same =
      ground (arith, same r, exists_where-update_where q p f rs same)

  pub exists_where-append :
      (q : A → Bool) (rs more : List A)
      → exists_where q (rs ++ more) ≡ (exists_where q rs || exists_where q more)
  exists_where-append q [] more = refl
  exists_where-append q (r ∷ rs) more = ground (arith, exists_where-append q rs more)

  -- A statement whose WHERE is true of no row does nothing.
  pub update_where-none :
      (p : A → Bool) (f : A → A) (rs : List A)
      → All (λ r. p r ≡ false) rs
      → (update_where p f rs ≡ rs) × (count_where p rs ≡ 0)
  update_where-none p f [] h = (refl, refl)
  update_where-none p f (r ∷ rs) h =
      let (same, none_counted) = update_where-none p f rs h.1 in
      (rw h.0 (ap (λ l. r ∷ l) same), rw h.0 none_counted)

  pub first_where-append :
      (p : A → Bool) (rs more : List A)
      → first_where p rs ≡ none
      → first_where p (rs ++ more) ≡ first_where p more
  first_where-append p [] more e = refl
  first_where-append p (r ∷ rs) more e = ground (arith, first_where-append p rs more)

  -- The attributes of the row object that a query returned first are set.
  abbrev pub set_first : (A → Bool) → (A → A) → List A → List A
  set_first p f [] = []
  set_first p f (r ∷ rs) = let rest = set_first p f rs in if p r then f r ∷ rs else r ∷ rest

  pub first_where-set_first :
      (p : A → Bool) (f : A → A) (rs : List A) (r : A)
      → first_where p rs ≡ some r
      → p (f r) ≡ true
      → first_where p (set_first p f rs) ≡ some (f r)
  first_where-set_first p f [] r e h = cc
  first_where-set_first p f (x ∷ rs) r e h = ground (arith, first_where-set_first p f rs r)

  pub set_first-All {κ} :
      (P : A → Type κ) (p : A → Bool) (f : A → A) (rs : List A)
      → ((r : A) → P r → p r ≡ true → P (f r))
      → All P rs
      → All P (set_first p f rs)
  set_first-All P p f [] keep h = tt
  set_first-All P p f (r ∷ rs) keep h = set (p r) refl (set_first-All P p f rs keep h.1)
    where
      set :
          (b : Bool)
          → p r ≡ b
          → All P (set_first p f rs)
          → All P (if b then f r ∷ rs else r ∷ set_first p f rs)
      set true e rest = (keep r h.0 e, h.1)
      set false e rest = (h.0, rest)

  pub delete_where-All {κ} :
      (P : A → Type κ) (p : A → Bool) (rs : List A) → All P rs → All P (delete_where p rs)
  delete_where-All P p [] h = tt
  delete_where-All P p (r ∷ rs) h = left (p r) (delete_where-All P p rs h.1)
    where
      left :
          (b : Bool)
          → All P (delete_where p rs)
          → All P (if b then delete_where p rs else r ∷ delete_where p rs)
      left true rest = rest
      left false rest = (h.0, rest)

  -- What a DELETE leaves does not satisfy its condition.
  pub delete_where-none : (p : A → Bool) (rs : List A) → All (λ r. p r ≡ false) (delete_where p rs)
  delete_where-none p [] = tt
  delete_where-none p (r ∷ rs) = left (p r) refl (delete_where-none p rs)
    where
      left :
          (b : Bool)
          → p r ≡ b
          → All (λ r. p r ≡ false) (delete_where p rs)
          → All (λ r. p r ≡ false) (if b then delete_where p rs else r ∷ delete_where p rs)
      left true e rest = rest
      left false e rest = (e, rest)

  -- A row that is there satisfies what no row fails.
  pub exists_where-All {κ} :
      (C : Type κ) (p : A → Bool) (rs : List A)
      → exists_where p rs ≡ true
      → All (λ r. p r ≡ true → C) rs
      → C
  exists_where-All C p [] e h = cc
  exists_where-All C p (r ∷ rs) e h = elim (Bool-cases (p r)) [
    | inl here ↦ h.0 here
    | inr there ↦ exists_where-All C p rs (ground arith) h.1
  ]

  pub first_where-holds :
      (p : A → Bool) (rs : List A) (r : A) → first_where p rs ≡ some r → p r ≡ true
  first_where-holds p [] r e = cc
  first_where-holds p (x ∷ rs) r e = ground (arith, first_where-holds p rs r)

  -- A DELETE of all rows with a property leaves none with it.
  pub delete_where-covers :
      (p q : A → Bool) (rs : List A)
      → All (λ r. q r ≡ true → p r ≡ true) rs
      → All (λ r. q r ≡ false) (delete_where p rs)
  delete_where-covers p q [] h = tt
  delete_where-covers p q (r ∷ rs) h =
      left (p r) (q r) refl (λ e. h.0 e) (delete_where-covers p q rs h.1)
    where
      left :
          (b c : Bool)
          → q r ≡ c
          → (c ≡ true → b ≡ true)
          → All (λ r. q r ≡ false) (delete_where p rs)
          → All (λ r. q r ≡ false) (if b then delete_where p rs else r ∷ delete_where p rs)
      left true c e f rest = rest
      left false true e f rest = let g : false ≡ true = f refl in cc
      left false false e f rest = (e, rest)

  pub delete_where-All_where {κ μ} :
      (P : A → Type κ) (Q : A → Type μ) (p : A → Bool) (rs : List A)
      → ((r : A) → P r → p r ≡ false → Q r)
      → All P rs
      → All Q (delete_where p rs)
  delete_where-All_where P Q p [] keep h = tt
  delete_where-All_where P Q p (r ∷ rs) keep h =
      left (p r) refl (delete_where-All_where P Q p rs keep h.1)
    where
      left :
          (b : Bool)
          → p r ≡ b
          → All Q (delete_where p rs)
          → All Q (if b then delete_where p rs else r ∷ delete_where p rs)
      left true e rest = rest
      left false e rest = (keep r h.0 e, rest)

  pub exists_where-delete_where :
      (q p : A → Bool) (rs : List A)
      → ((r : A) → q r ≡ true → p r ≡ false)
      → exists_where q (delete_where p rs) ≡ exists_where q rs
  exists_where-delete_where q p [] other = refl
  exists_where-delete_where q p (r ∷ rs) other =
      ground (arith, other r, exists_where-delete_where q p rs other)

  pub delete_where-again :
      (p : A → Bool) (rs : List A) → delete_where p (delete_where p rs) ≡ delete_where p rs
  delete_where-again p [] = refl
  delete_where-again p (r ∷ rs) = ground (arith, delete_where-again p rs)

  -- What an UPDATE sets holds of the rows that its condition is still true of.
  pub update_where-set {κ} :
      (Q : A → Type κ) (p : A → Bool) (f : A → A) (rs : List A)
      → ((r : A) → p r ≡ true → p (f r) ≡ true → Q (f r))
      → All (λ r. p r ≡ true → Q r) (update_where p f rs)
  update_where-set Q p f [] set = tt
  update_where-set Q p f (r ∷ rs) set = (updated (p r) refl, update_where-set Q p f rs set)
    where
      updated : (b : Bool) → p r ≡ b → p (if b then f r else r) ≡ true → Q (if b then f r else r)
      updated true e h = set r e h
      updated false e h = let g : false ≡ true = sym e ∙ h in cc

  -- An UPDATE after which its condition is false leaves no row of which it is true.
  pub update_where-clears :
      (p : A → Bool) (f : A → A) (rs : List A)
      → ((r : A) → p (f r) ≡ false)
      → All (λ r. p r ≡ false) (update_where p f rs)
  update_where-clears p f [] clear = tt
  update_where-clears p f (r ∷ rs) clear = (updated (p r) refl, update_where-clears p f rs clear)
    where
      updated : (b : Bool) → p r ≡ b → p (if b then f r else r) ≡ false
      updated true e = clear r
      updated false e = e

  -- A DELETE whose condition is true of no row deletes nothing.
  pub delete_where-absent :
      (p : A → Bool) (rs : List A) → All (λ r. p r ≡ false) rs → delete_where p rs ≡ rs
  delete_where-absent p [] h = refl
  delete_where-absent p (r ∷ rs) h = rw (h.0) (ap (λ l. r ∷ l) (delete_where-absent p rs h.1))
