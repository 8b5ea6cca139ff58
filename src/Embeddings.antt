-- ===== src/Embeddings.antt =====
-- app/ai.py, `OpenRouterProvider.embed`: the check of a provider's embeddings. Numbers are of any
-- type with the tests that the code applies to them.
mod Slots
pub mod Placed
mod Examples
use moresocial.Base.{
  map, text_in, text_eq, String, zero, suc, ◌&&◌, ◌||◌, ◌==◌, ◌∷◌, [], some, false, none, true,
  length, if◌then◌else◌, Option, List, Bool, ℕ,
}

-- The reasons of InvalidOutput.
pub data Invalid : Type 0 where
  embedding_input embedding_shape embedding_index embedding_values embedding_model : Invalid

-- A read of the answer: a value, or InvalidOutput.
pub data Read {ℓ} (V : Type ℓ) : Type ℓ where
  invalid : Invalid → Read V
  read : V → Read V

-- What is asked of a number of the answer: `isinstance(x, (int, float)) and math.isfinite(x)`, its
-- truth, and `float(x)`, which is a number again.
pub record Tests (A : Type 0) : Type 0 where
  pub is_finite : A → Bool
  pub is_nonzero : A → Bool
  pub to_float : A → A

-- An entry of `data`: not a dictionary, or one with an index, if that is a number from 0, and an
-- embedding, if that is a list.
pub data Row (A : Type 0) : Type 0 where
  malformed : Row A
  row : Option ℕ → Option (List A) → Row A

module _ {A : Type 0} where
  -- `vectors[i]`, none if i is out of range.
  abbrev pub slot : ℕ → List (Option (List A)) → Option (Option (List A))
  slot i [] = none
  slot zero (v ∷ vs) = some v
  slot (suc i) (v ∷ vs) = slot i vs

  abbrev pub fill : ℕ → List A → List (Option (List A)) → List (Option (List A))
  fill i x [] = []
  fill zero x (v ∷ vs) = some x ∷ vs
  fill (suc i) x (v ∷ vs) = v ∷ fill i x vs

  abbrev pub all_of : (A → Bool) → List A → Bool
  all_of p [] = true
  all_of p (x ∷ xs) = p x && all_of p xs

  abbrev pub any_of : (A → Bool) → List A → Bool
  any_of p [] = false
  any_of p (x ∷ xs) = p x || any_of p xs

  abbrev pub is_vector : Tests A → ℕ → List A → Bool
  is_vector t dimension v = length v == dimension && (all_of t.is_finite v && any_of t.is_nonzero v)

  abbrev pub place_vector :
      Tests A → ℕ → ℕ → Option (List A) → List (Option (List A)) → Read (List (Option (List A)))
  place_vector t dimension i none vs = invalid embedding_shape
  place_vector t dimension i (some v) vs =
      if length v == dimension
      then if all_of t.is_finite v && any_of t.is_nonzero v
        then read (fill i (map t.to_float v) vs)
        else invalid embedding_values
      else invalid embedding_shape

  abbrev pub place_at :
      Tests A
      → ℕ
      → ℕ
      → Option (List A)
      → List (Option (List A))
      → Option (Option (List A))
      → Read (List (Option (List A)))
  place_at t dimension i v vs none = invalid embedding_index
  place_at t dimension i v vs (some (some old)) = invalid embedding_index
  place_at t dimension i v vs (some none) = place_vector t dimension i v vs

  -- The body of the loop over the rows.
  abbrev pub place : Tests A → ℕ → Row A → List (Option (List A)) → Read (List (Option (List A)))
  place t dimension malformed vs = invalid embedding_index
  place t dimension (row none v) vs = invalid embedding_index
  place t dimension (row (some i) v) vs = place_at t dimension i v vs (slot i vs)

  unfoldable pub place_all :
      Tests A → ℕ → List (Row A) → List (Option (List A)) → Read (List (Option (List A)))
  place_all t dimension [] vs = read vs
  place_all t dimension (r ∷ rows) vs = elim (place t dimension r vs) [
    | invalid e ↦ invalid e
    | read vs' ↦ place_all t dimension rows vs'
  ]

  -- `[None] * n`
  abbrev pub empty_slots : ℕ → List (Option (List A))
  empty_slots zero = []
  empty_slots (suc n) = none ∷ empty_slots n

  -- The vectors, none if any slot is still empty.
  abbrev pub filled : List (Option (List A)) → Option (List (List A))
  filled [] = some []
  filled (none ∷ vs) = none
  filled (some v ∷ vs) = elim (filled vs) [ none ↦ none | some out ↦ some (v ∷ out) ]

  abbrev pub check_filled : Read (List (Option (List A))) → Read (List (List A))
  check_filled (invalid e) = invalid e
  check_filled (read vs) = elim (filled vs) [ none ↦ invalid embedding_index | some out ↦ read out ]

  -- The rows of the answer for so many texts.
  unfoldable pub check_rows : Tests A → ℕ → ℕ → List (Row A) → Read (List (List A))
  unfolding place_all
  check_rows t dimension texts rows =
      if length rows == texts
      then check_filled (place_all t dimension rows (empty_slots texts))
      else invalid embedding_shape

  abbrev pub check_model : String → Option String → Read (List (List A)) → Read (List (List A))
  check_model model returned (invalid e) = invalid e
  check_model model none (read out) = read out
  check_model model (some name) (read out) =
      if text_eq name model then read out else invalid embedding_model

  abbrev pub check_list : Tests A → ℕ → ℕ → Option (List (Row A)) → Read (List (List A))
  check_list t dimension texts none = invalid embedding_shape
  check_list t dimension texts (some rows) = check_rows t dimension texts rows

  -- `embed` from its input check on, for the rows and the model name that the answer has, if any.
  unfoldable pub read_answer :
      Tests A
      → ℕ
      → String
      → List String
      → Option (List (Row A))
      → Option String
      → Read (List (List A))
  unfolding check_rows
  read_answer t dimension model texts rows returned =
      if length texts == 0 || text_in "" texts
      then invalid embedding_input
      else check_model model returned (check_list t dimension (length texts) rows)
