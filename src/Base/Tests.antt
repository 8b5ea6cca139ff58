-- ===== src/Base/Tests.antt =====
-- Boolean tests on numbers and options, the conditional, and the types that stand for the
-- program's opaque values.
use Prim.Native.Nat.{ℕ, ◌*◌, compare, Ordering}
use mathlib.Core.Path.{◌≡◌, refl}
use mathlib.Core.Logic.{◌↔◌, ◌⊎◌, inl, inr}
use mathlib.Core.Bool.{Bool, true, false}
use mathlib.Core.Option.{Option, none, some}
use native.Mathlib.Omega.{arith}

-- A `uuid.UUID`: the program only compares such values.
abbrev pub Uuid : Type 0
Uuid = ℕ

-- A point in time in microseconds, the resolution of a Postgres `timestamptz`.
abbrev pub Time : Type 0
Time = ℕ

abbrev pub seconds : ℕ → Time
seconds n = n * 1000000

abbrev pub days : ℕ → Time
days n = seconds (n * 86400)

abbrev pub ltb : ℕ → ℕ → Bool
ltb a b = elim (compare a b) [ Ordering.lt ↦ true | _ ↦ false ]

abbrev pub leb : ℕ → ℕ → Bool
leb a b = elim (compare a b) [ Ordering.gt ↦ false | _ ↦ true ]

infix 50 ◌==◌
abbrev pub ◌==◌ : ℕ → ℕ → Bool
a == b = elim (compare a b) [ Ordering.eq ↦ true | _ ↦ false ]

infix 1 if◌then◌else◌
abbrev pub if◌then◌else◌ {ℓ} : {A : Type ℓ} → Bool → A → A → A
if true then x else y = x
if false then x else y = y

abbrev pub is_some {ℓ} : {A : Type ℓ} → Option A → Bool
is_some none = false
is_some (some a) = true

-- An SQL comparison with a nullable column is not true at NULL.
abbrev pub holds_at {ℓ} : {A : Type ℓ} → (A → Bool) → Option A → Bool
holds_at p none = false
holds_at p (some a) = p a

pub ==_refl : (a : ℕ) → (a == a) ≡ true
==_refl a = ground arith

pub ==_iff : (a b : ℕ) → ((a == b) ≡ true) ↔ (a ≡ b)
==_iff a b = ground arith

pub Bool-cases : (b : Bool) → (b ≡ true) ⊎ (b ≡ false)
Bool-cases true = inl refl
Bool-cases false = inr refl

pub Option-cases {ℓ} : {A : Type ℓ} (o : Option A) → (o ≡ none) ⊎ ((a : A) × (o ≡ some a))
Option-cases none = inl refl
Option-cases (some a) = inr (a, refl)

-- A goal about a conditional whose test is known.
module _ {ℓ κ} {A : Type ℓ} (P : A → Type κ) {x : A} where
  pub on_true : (b : Bool) (y : A) → b ≡ true → P x → P (if b then x else y)
  on_true true y e p = p
  on_true false y e p = cc

  pub on_false : (b : Bool) (y : A) → b ≡ false → P x → P (if b then y else x)
  on_false true y e p = cc
  on_false false y e p = p
