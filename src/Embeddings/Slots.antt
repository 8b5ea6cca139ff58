-- ===== src/Embeddings/Slots.antt =====
-- The loop over the rows of an answer: which slots it fills.
use moresocial.Base.{
  map, ◌∙◌, All, subst, false, sym, if◌then◌else◌, zero, refl, ◌&&◌, ap, [], true, ◌==◌, suc, ◌∷◌,
  Bool, some, none, ◌≡◌, length, Option, List, ℕ,
}
use moresocial.Embeddings.{
  Read, place_all, place_at, embedding_shape, embedding_values, invalid, any_of, all_of, malformed,
  is_vector, fill, slot, read, place, row, Tests, Row,
}

module _ {A : Type 0} where
  abbrev pub IsFilled : Tests A → ℕ → List (Option (List A)) → Row A → Type 0
  IsFilled t dimension vs malformed = ⊥
  IsFilled t dimension vs (row none v) = ⊥
  IsFilled t dimension vs (row (some i) none) = ⊥
  IsFilled t dimension vs (row (some i) (some v)) =
      (slot i vs ≡ some (some (map t.to_float v))) × (is_vector t dimension v ≡ true)

  slot-fill :
      (i : ℕ) (x : List A) (vs : List (Option (List A)))
      → slot i vs ≡ some none
      → slot i (fill i x vs) ≡ some (some x)
  slot-fill i x [] e = cc
  slot-fill zero x (v ∷ vs) e = refl
  slot-fill (suc i) x (v ∷ vs) e = slot-fill i x vs e

  slot-fill_other :
      (i k : ℕ) (x y : List A) (vs : List (Option (List A)))
      → slot i vs ≡ some none
      → slot k vs ≡ some (some y)
      → slot k (fill i x vs) ≡ some (some y)
  slot-fill_other i k x y [] e h = cc
  slot-fill_other zero zero x y (v ∷ vs) e h = cc
  slot-fill_other zero (suc k) x y (v ∷ vs) e h = h
  slot-fill_other (suc i) zero x y (v ∷ vs) e h = h
  slot-fill_other (suc i) (suc k) x y (v ∷ vs) e h = slot-fill_other i k x y vs e h

  length-fill :
      (i : ℕ) (x : List A) (vs : List (Option (List A))) → length (fill i x vs) ≡ length vs
  length-fill i x [] = refl
  length-fill zero x (v ∷ vs) = refl
  length-fill (suc i) x (v ∷ vs) = ap suc (length-fill i x vs)

  -- What a row that is accepted does to the slots.
  abbrev Placement : Tests A → ℕ → Row A → List (Option (List A)) → List (Option (List A)) → Type 0
  Placement t dimension r vs vs' =
      (i : ℕ) × (v : List A) × (r ≡ row (some i) (some v))
      × (slot i vs ≡ some none)
      × (is_vector t dimension v ≡ true)
      × (vs' ≡ fill i (map t.to_float v) vs)

  read-injective : (vs vs' : List (Option (List A))) → read vs ≡ read vs' → vs ≡ vs'
  read-injective vs vs' e = cc

  place-Placement :
      (t : Tests A) (dimension : ℕ) (r : Row A) (vs vs' : List (Option (List A)))
      → place t dimension r vs ≡ read vs'
      → Placement t dimension r vs vs'
  place-Placement t dimension malformed vs vs' e = cc
  place-Placement t dimension (row none v) vs vs' e = cc
  place-Placement t dimension (row (some i) v) vs vs' e = at_slot v (slot i vs) refl e
    where
      at_vector :
          (b c : Bool) (w : List A)
          → (length w == dimension) ≡ b
          → (all_of t.is_finite w && any_of t.is_nonzero w) ≡ c
          → slot i vs ≡ some none
          → (if b
              then if c then read (fill i (map t.to_float w) vs) else invalid embedding_values
              else invalid embedding_shape)
            ≡ read vs'
          → Placement t dimension (row (some i) (some w)) vs vs'
      at_vector false c w eb ec s q = cc
      at_vector true false w eb ec s q = cc
      at_vector true true w eb ec s q =
          (i, w, refl, s, rw (eb, ec) refl, sym (read-injective _ _ q))

      at_slot :
          (v : Option (List A)) (o : Option (Option (List A)))
          → slot i vs ≡ o
          → place_at t dimension i v vs o ≡ read vs'
          → Placement t dimension (row (some i) v) vs vs'
      at_slot v none s q = cc
      at_slot v (some (some old)) s q = cc
      at_slot none (some none) s q = cc
      at_slot (some w) (some none) s q = at_vector _ _ w refl refl s q

  place_all-cons :
      (t : Tests A) (dimension : ℕ) (r : Row A) (rows : List (Row A))
      (vs out : List (Option (List A)))
      → place_all t dimension (r ∷ rows) vs ≡ read out
      → (vs' : List (Option (List A))) × Placement t dimension r vs vs'
        × (place_all t dimension rows vs' ≡ read out)
  unfolding place_all
  place_all-cons t dimension r rows vs out = cases (place t dimension r vs) refl
    where
      cases :
          (o : Read (List (Option (List A))))
          → place t dimension r vs ≡ o
          → (elim o [ invalid e ↦ invalid e | read vs' ↦ place_all t dimension rows vs' ])
            ≡ read out
          → (vs' : List (Option (List A))) × Placement t dimension r vs vs'
            × (place_all t dimension rows vs' ≡ read out)
      cases (invalid e) p q = cc
      cases (read vs') p q = (vs', place-Placement t dimension r vs vs' p, q)

  -- A filled slot stays.
  place_all-slot :
      (t : Tests A) (dimension : ℕ) (rows : List (Row A)) (vs out : List (Option (List A))) (k : ℕ)
      (y : List A)
      → place_all t dimension rows vs ≡ read out
      → slot k vs ≡ some (some y)
      → slot k out ≡ some (some y)
  unfolding place_all
  place_all-slot t dimension [] vs out k y e h =
      subst (λ x. slot k x ≡ some (some y)) (read-injective _ _ e) h
  place_all-slot t dimension (r ∷ rows) vs out k y e h =
      let (vs', (i, v, _, open_slot, _, moved), rest) =
        place_all-cons t dimension r rows vs out e in
      place_all-slot t dimension rows vs' out k y rest (
        subst (λ x. slot k x ≡ some (some y)) (sym moved)
          (slot-fill_other i k (map t.to_float v) y vs open_slot h))

  pub place_all-length :
      (t : Tests A) (dimension : ℕ) (rows : List (Row A)) (vs out : List (Option (List A)))
      → place_all t dimension rows vs ≡ read out
      → length out ≡ length vs
  unfolding place_all
  place_all-length t dimension [] vs out e = ap length (sym (read-injective _ _ e))
  place_all-length t dimension (r ∷ rows) vs out e =
      let (vs', (i, v, _, _, _, moved), rest) = place_all-cons t dimension r rows vs out e in
      place_all-length t dimension rows vs' out rest
      ∙ ap length moved
      ∙ length-fill i (map t.to_float v) vs

  pub place_all-IsFilled :
      (t : Tests A) (dimension : ℕ) (rows : List (Row A)) (vs out : List (Option (List A)))
      → place_all t dimension rows vs ≡ read out
      → All (IsFilled t dimension out) rows
  place_all-IsFilled t dimension [] vs out e = tt
  place_all-IsFilled t dimension (r ∷ rows) vs out e =
      let (vs', (i, v, same, open_slot, good, moved), rest) =
        place_all-cons t dimension r rows vs out e in
      let here =
        subst (λ x. slot i x ≡ some (some (map t.to_float v))) (sym moved)
          (slot-fill i (map t.to_float v) vs open_slot) in
      (
        subst (IsFilled t dimension out) (sym same)
            (place_all-slot t dimension rows vs' out i (map t.to_float v) rest here, good),
        place_all-IsFilled t dimension rows vs' out rest,
      )
