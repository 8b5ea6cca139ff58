-- ===== src/Embeddings/Placed.antt =====
-- An accepted answer has one vector for each text, in the order of the indices.
use moresocial.Embeddings.Slots.{place_all-IsFilled, IsFilled, place_all-length}
use moresocial.Base.{
  map, text_in, text_eq, ◌||◌, String, ==_iff, All-map, ◌∙◌, All, some-injective, false, sym,
  if◌then◌else◌, zero, refl, ap, [], true, ◌==◌, suc, ◌∷◌, Bool, some, none, ◌≡◌, length, Option,
  List, ℕ,
}
use moresocial.Embeddings.{
  embedding_model, embedding_input, check_model, check_list, read_answer, check_filled,
  embedding_index, Read, check_rows, place_all, filled, empty_slots, embedding_shape, invalid,
  malformed, is_vector, slot, read, row, Tests, Row,
}

length-empty_slots : (A : Type 0) (n : ℕ) → length (empty_slots {A = A} n) ≡ n
length-empty_slots A zero = refl
length-empty_slots A (suc n) = ap suc (length-empty_slots A n)

module _ {A : Type 0} where
  abbrev pub nth : ℕ → List (List A) → Option (List A)
  nth i [] = none
  nth zero (v ∷ vs) = some v
  nth (suc i) (v ∷ vs) = nth i vs

  -- A row is used: its vector stands at its index, as floats.
  abbrev pub IsPlaced : Tests A → ℕ → List (List A) → Row A → Type 0
  IsPlaced t dimension out malformed = ⊥
  IsPlaced t dimension out (row none v) = ⊥
  IsPlaced t dimension out (row (some i) none) = ⊥
  IsPlaced t dimension out (row (some i) (some v)) =
      (nth i out ≡ some (map t.to_float v)) × (is_vector t dimension v ≡ true)

  -- Once every slot is filled, the vectors are those of the slots.
  filled-cons :
      (v : Option (List A)) (vs : List (Option (List A))) (out : List (List A))
      → filled (v ∷ vs) ≡ some out
      → (x : List A) × (more : List (List A)) × (v ≡ some x)
        × (filled vs ≡ some more)
        × (out ≡ x ∷ more)
  filled-cons none vs out = λ e. cc
  filled-cons (some x) vs out = cases (filled vs) refl
    where
      cases :
          (o : Option (List (List A)))
          → filled vs ≡ o
          → (elim o [ none ↦ none | some more ↦ some (x ∷ more) ]) ≡ some out
          → (y : List A) × (more : List (List A)) × (some x ≡ some y)
            × (filled vs ≡ some more)
            × (out ≡ y ∷ more)
      cases none p q = cc
      cases (some more) p q = (x, more, refl, p, sym (some-injective _ _ q))

  filled-nth :
      (vs : List (Option (List A))) (out : List (List A)) (i : ℕ) (v : List A)
      → filled vs ≡ some out
      → slot i vs ≡ some (some v)
      → nth i out ≡ some v
  filled-nth [] out i v e h = cc
  filled-nth (o ∷ vs) out zero v e h =
      let (x, more, is_x, _, is_out) = filled-cons o vs out e in
      ap (nth 0) is_out ∙ sym is_x ∙ some-injective _ _ h
  filled-nth (o ∷ vs) out (suc i) v e h =
      let (x, more, _, rest, is_out) = filled-cons o vs out e in
      ap (nth (suc i)) is_out ∙ filled-nth vs more i v rest h

  filled-length :
      (vs : List (Option (List A))) (out : List (List A))
      → filled vs ≡ some out
      → length out ≡ length vs
  filled-length [] out e = ap length (sym (some-injective _ _ e))
  filled-length (o ∷ vs) out e =
      let (x, more, _, rest, is_out) = filled-cons o vs out e in
      ap length is_out ∙ ap suc (filled-length vs more rest)

  IsFilled-IsPlaced :
      (t : Tests A) (dimension : ℕ) (vs : List (Option (List A))) (out : List (List A)) (r : Row A)
      → filled vs ≡ some out
      → IsFilled t dimension vs r
      → IsPlaced t dimension out r
  IsFilled-IsPlaced t dimension vs out malformed e h = h
  IsFilled-IsPlaced t dimension vs out (row none v) e h = h
  IsFilled-IsPlaced t dimension vs out (row (some i) none) e h = h
  IsFilled-IsPlaced t dimension vs out (row (some i) (some v)) e h =
      (filled-nth vs out i (map t.to_float v) e h.0, h.1)

  check_rows-IsPlaced :
      (t : Tests A) (dimension n : ℕ) (rows : List (Row A)) (out : List (List A))
      → check_rows t dimension n rows ≡ read out
      → (length rows ≡ n) × (length out ≡ n) × All (IsPlaced t dimension out) rows
  unfolding check_rows
  check_rows-IsPlaced t dimension n rows out = counted (length rows == n) refl
    where
      slots : Read (List (Option (List A)))
      slots = place_all t dimension rows (empty_slots n)

      complete :
          (vs : List (Option (List A))) (o : Option (List (List A)))
          → slots ≡ read vs
          → filled vs ≡ o
          → (elim o [ none ↦ invalid embedding_index | some x ↦ read x ]) ≡ read out
          → (length out ≡ n) × All (IsPlaced t dimension out) rows
      complete vs none p f q = cc
      complete vs (some x) p f q =
          let same : x ≡ out = cc in
          let f' = f ∙ ap some same in
          (
            filled-length vs out f'
                ∙ place_all-length t dimension rows (empty_slots n) vs p
                ∙ length-empty_slots A n,
            All-map (IsFilled t dimension vs) (IsPlaced t dimension out) rows
                (λ r h. IsFilled-IsPlaced t dimension vs out r f' h)
                (place_all-IsFilled t dimension rows (empty_slots n) vs p),
          )

      placed :
          (o : Read (List (Option (List A))))
          → slots ≡ o
          → check_filled o ≡ read out
          → (length out ≡ n) × All (IsPlaced t dimension out) rows
      placed (invalid e) p q = cc
      placed (read vs) p q = complete vs (filled vs) p refl q

      counted :
          (b : Bool)
          → (length rows == n) ≡ b
          → (if b then check_filled slots else invalid embedding_shape) ≡ read out
          → (length rows ≡ n) × (length out ≡ n) × All (IsPlaced t dimension out) rows
      counted false e q = cc
      counted true e q =
          let (size, all) = placed slots refl q in ((==_iff (length rows) n).0 e, size, all)

  check_model-read :
      (model : String) (returned : Option String) (o : Read (List (List A))) (out : List (List A))
      → check_model model returned o ≡ read out
      → o ≡ read out
  check_model-read model returned (invalid e) out q = cc
  check_model-read model none (read x) out q = q
  check_model-read model (some name) (read x) out q = named (text_eq name model) q
    where
      named :
          (b : Bool)
          → (if b then read x else invalid embedding_model) ≡ read out
          → read x ≡ read out
      named true r = r
      named false r = cc

  -- An answer is accepted only if it is right: there are as many rows as texts and as many vectors
  -- as rows, every row has an index and a vector of the dimension whose numbers are finite and not
  -- all zero, and that vector, its numbers converted to floats, stands in the result at the row's index. So, whatever the order of
  -- the rows, the vector of each text is the one that the provider gave its index.
  pub read_answer-IsPlaced :
      (t : Tests A) (dimension : ℕ) (model : String) (texts : List String)
      (rows : Option (List (Row A))) (returned : Option String) (out : List (List A))
      → read_answer t dimension model texts rows returned ≡ read out
      → (used : List (Row A)) × (rows ≡ some used)
        × (length used ≡ length texts)
        × (length out ≡ length texts)
        × All (IsPlaced t dimension out) used
  unfolding read_answer
  read_answer-IsPlaced t dimension model texts rows returned out =
      asked (length texts == 0 || text_in "" texts)
    where
      listed :
          (o : Option (List (Row A)))
          → check_list t dimension (length texts) o ≡ read out
          → (used : List (Row A)) × (o ≡ some used)
            × (length used ≡ length texts)
            × (length out ≡ length texts)
            × All (IsPlaced t dimension out) used
      listed none q = cc
      listed (some used) q =
          let (size, count, all) = check_rows-IsPlaced t dimension (length texts) used out q in
          (used, refl, size, count, all)

      asked :
          (b : Bool)
          → (if b
              then invalid embedding_input
              else check_model model returned (check_list t dimension (length texts) rows))
            ≡ read out
          → (used : List (Row A)) × (rows ≡ some used)
            × (length used ≡ length texts)
            × (length out ≡ length texts)
            × All (IsPlaced t dimension out) used
      asked true q = cc
      asked false q = listed rows (check_model-read model returned _ out q)
