-- ===== src/Base/Text.antt =====
-- Text: equality, membership, and Python's slice `s[:n]`.
use Prim.Native.Char.{code}
use moresocial.Base.Tests.{ltb, if◌then◌else◌}
use Prim.Native.Nat.{ℕ, zero, suc}
use Prim.Native.String.{String}
use Prim.Native.String as Native
use mathlib.Core.Logic.{ite, dite}
use mathlib.Core.Bool.{not, ◌&&◌, Bool, true, false, Bool-discrete, ◌||◌}
use mathlib.Core.List.{List, [], ◌∷◌}
use text.Mathlib.Text.{◌==◌}
use text.Mathlib.TextEquality.{eq_iff}

-- Shut in proofs, where a split on it yields the equation or its negation.
unfoldable pub string_discrete : Discrete String
string_discrete s t =
    dite (Bool-discrete (s == t) true) (λ same. yes ((eq_iff s t).0 same))
      (λ differ. no (λ p. differ ((eq_iff s t).1 p)))

abbrev pub text_eq : String → String → Bool
text_eq s t = ite (string_discrete s t) true false

abbrev pub text_in : String → List String → Bool
text_in s [] = false
text_in s (t ∷ ts) = text_eq s t || text_in s ts

-- `s[:n]`
unfoldable pub truncate : ℕ → String → String
truncate zero s = String.[]
truncate (suc n) String.[] = String.[]
truncate (suc n) (String.◌∷◌ c s) = String.◌∷◌ c (truncate n s)

-- `s[n:]`
unfoldable pub drop : ℕ → String → String
drop zero s = s
drop (suc n) String.[] = String.[]
drop (suc n) (String.◌∷◌ c s) = drop n s

abbrev pub text_append : String → String → String
text_append s t = Native.◌++◌ s t

-- `sep.join(parts)`
abbrev pub join_text : String → List String → String
join_text sep [] = ""
join_text sep (s ∷ []) = s
join_text sep (s ∷ t ∷ ss) = text_append s (text_append sep (join_text sep (t ∷ ss)))

unfoldable pub text_length : String → ℕ
text_length String.[] = 0
text_length (String.◌∷◌ c s) = suc (text_length s)

-- The order of texts, by code points.
unfoldable pub text_ltb : String → String → Bool
text_ltb String.[] String.[] = false
text_ltb String.[] (String.◌∷◌ d t) = true
text_ltb (String.◌∷◌ c s) String.[] = false
text_ltb (String.◌∷◌ c s) (String.◌∷◌ d t) =
    ltb (code c) (code d) || (not (ltb (code d) (code c)) && text_ltb s t)

abbrev pub insert_text : String → List String → List String
insert_text s [] = s ∷ []
insert_text s (t ∷ ts) =
    if text_eq s t then t ∷ ts else if text_ltb s t then s ∷ t ∷ ts else t ∷ insert_text s ts

-- `sorted(set(texts))`
unfoldable pub sorted_set : List String → List String
unfolding text_ltb
sorted_set [] = []
sorted_set (s ∷ ss) = insert_text s (sorted_set ss)
