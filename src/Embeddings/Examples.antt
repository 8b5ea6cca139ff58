-- ===== src/Embeddings/Examples.antt =====
-- Two texts whose vectors come in the other order, and the theorem at them.
use moresocial.Embeddings.Placed.{read_answer-IsPlaced, IsPlaced}
use moresocial.Base.{refl, All, ◌==◌, length, ◌≡◌, none, not, true, [], some, ℕ, ◌∷◌, List}
use moresocial.Embeddings.{embedding_index, read, invalid, row, Tests, read_answer, Row}

abbrev whole_numbers : Tests ℕ
whole_numbers = record { is_finite = λ x. true; is_nonzero = λ x. not (x == 0); to_float = λ x. x }

abbrev swapped_rows : List (Row ℕ)
swapped_rows = row (some 1) (some (3 ∷ 4 ∷ [])) ∷ row (some 0) (some (1 ∷ 0 ∷ [])) ∷ []

abbrev vectors : List (List ℕ)
vectors = (1 ∷ 0 ∷ []) ∷ (3 ∷ 4 ∷ []) ∷ []

swapped_read :
    read_answer whole_numbers 2 "m" ("a" ∷ "b" ∷ []) (some swapped_rows) none ≡ read vectors
unfolding read_answer moresocial.Base.string_discrete
swapped_read = refl

-- A row twice, with another missing.
doubled_refused :
    read_answer whole_numbers 2 "m"
      ("a" ∷ "b" ∷ [])
      (some (row (some 1) (some (3 ∷ 4 ∷ [])) ∷ row (some 1) (some (3 ∷ 4 ∷ [])) ∷ []))
      none
    ≡ invalid embedding_index
unfolding read_answer moresocial.Base.string_discrete
doubled_refused = refl

read_answer-IsPlaced_example :
    (used : List (Row ℕ)) × (some swapped_rows ≡ some used)
    × (length used ≡ 2)
    × (length vectors ≡ 2)
    × All (IsPlaced whole_numbers 2 vectors) used
read_answer-IsPlaced_example =
    read_answer-IsPlaced whole_numbers 2 "m" ("a" ∷ "b" ∷ []) (some swapped_rows) none vectors
      swapped_read
