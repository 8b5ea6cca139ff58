-- ===== src/Base/Decimal.antt =====
-- Numbers in decimal: Python's `str(n)` of a natural number, and `int(s)` on digits. The signs,
-- spaces and underscores that `int` also takes are refused here; the program stores none.
use native.Mathlib.Decide.{ℕ_discrete}
use mathlib.Core.Logic.{inr, inl}
use native.Mathlib.Nat.{le_refl}
use Prim.Native.Nat.{ℕ, zero, suc, ◌+◌, ◌-◌, ◌*◌, ◌/◌, ◌%◌, ◌≤◌, ◌<◌}
use Prim.Native.Char.{Char, code}
use Prim.Native.String.{String}
use mathlib.Core.Path.{sym, subst, ap, ◌≡◌, refl, ◌∙◌}
use mathlib.Core.Bool.{true, false, ◌&&◌}
use mathlib.Core.Option.{Option, none, some}
use native.Mathlib.Omega.{arith}
use moresocial.Base.Tests.{Bool-cases, leb, ◌==◌, if◌then◌else◌, ltb}

abbrev digit_char : ℕ → Char
digit_char d =
    if d == 0
    then "0"
    else if d == 1
    then "1"
    else if d == 2
    then "2"
    else if d == 3
    then "3"
    else if d == 4
    then "4"
    else if d == 5
    then "5"
    else if d == 6
    then "6"
    else if d == 7
    then "7"
    else if d == 8
    then "8"
    else "9"

abbrev char_digit : Char → Option ℕ
char_digit c = if leb 48 (code c) && leb (code c) 57 then some (code c - 48) else none

-- The digits of n, put before a text, with at most so many divisions by 10.
unfoldable digits_onto : ℕ → ℕ → String → String
digits_onto zero n rest = String.◌∷◌ (digit_char n) rest
digits_onto (suc k) n rest =
    let more = digits_onto k (n / 10) (String.◌∷◌ (digit_char (n % 10)) rest) in
    if ltb n 10 then String.◌∷◌ (digit_char n) rest else more

-- `str(n)`; n divisions by 10 are more than enough.
unfoldable pub str : ℕ → String
unfolding digits_onto
str n = digits_onto n n String.[]

unfoldable read_digits : String → ℕ → Option ℕ
read_digits String.[] n = some n
read_digits (String.◌∷◌ c s) n = elim (char_digit c) [
  | none ↦ none
  | some d ↦ read_digits s (10 * n + d)
]

-- `int(s)`, none where it raises ValueError.
unfoldable pub int : String → Option ℕ
unfolding read_digits
int String.[] = none
int (String.◌∷◌ c s) = read_digits (String.◌∷◌ c s) 0

abbrev AllBelow : ℕ → (ℕ → Type 0) → Type 0
AllBelow zero P = Unit
AllBelow (suc k) P = AllBelow k P × P k

AllBelow-at : (k : ℕ) (P : ℕ → Type 0) (d : ℕ) → AllBelow k P → d < k → P d
AllBelow-at zero P d h low = absurd (omega (arith, low))
AllBelow-at (suc k) P d h low = elim (ℕ_discrete d k) [
  | yes e ↦ subst P (sym e) h.1
  | no ne ↦ AllBelow-at k P d h.0 (omega (arith, low, ne))
]

char_digit-digit_char : (d : ℕ) → d < 10 → char_digit (digit_char d) ≡ some d
char_digit-digit_char d h =
    AllBelow-at 10 (λ x. char_digit (digit_char x) ≡ some x) d
      ((((((((((tt, refl), refl), refl), refl), refl), refl), refl), refl), refl), refl) h

read_digits-cons :
    (d n : ℕ) (rest : String)
    → d < 10
    → read_digits (String.◌∷◌ (digit_char d) rest) n ≡ read_digits rest (10 * n + d)
unfolding read_digits
read_digits-cons d n rest h =
    ap (λ o. elim o [ none ↦ none | some x ↦ read_digits rest (10 * n + x) ])
      (char_digit-digit_char d h)

-- Reading the digits that were put before a text goes on with the number.
digits_onto-read :
    (k n : ℕ) (rest : String) → n ≤ k → read_digits (digits_onto k n rest) 0 ≡ read_digits rest n
unfolding digits_onto
digits_onto-read zero n rest h =
    read_digits-cons n 0 rest (omega arith) ∙ ap (read_digits rest) (omega arith)
digits_onto-read (suc k) n rest h = elim (Bool-cases (ltb n 10)) [
  | inl low ↦
      rw (low) (read_digits-cons n 0 rest (ground arith) ∙ ap (read_digits rest) (omega arith))
  | inr high ↦ rw (high) (
      digits_onto-read k (n / 10) (String.◌∷◌ (digit_char (n % 10)) rest) (ground arith)
      ∙ read_digits-cons (n % 10) (n / 10) rest (omega arith)
      ∙ ap (read_digits rest) (omega arith))
]

str_ne :
    (k n : ℕ) (rest : String) → int (digits_onto k n rest) ≡ read_digits (digits_onto k n rest) 0
unfolding int digits_onto
str_ne zero n rest = refl
str_ne (suc k) n rest =
    elim (ltb n 10)
      as (λ b.
        int (
          if b
          then String.◌∷◌ (digit_char n) rest
          else digits_onto k (n / 10) (String.◌∷◌ (digit_char (n % 10)) rest))
        ≡ read_digits
            (if b
              then String.◌∷◌ (digit_char n) rest
              else digits_onto k (n / 10) (String.◌∷◌ (digit_char (n % 10)) rest))
            0) [ true ↦ refl | false ↦ str_ne k (n / 10) _ ]

pub int-str : (n : ℕ) → int (str n) ≡ some n
unfolding str read_digits
int-str n = str_ne n n String.[] ∙ digits_onto-read n n String.[] (le_refl n)
