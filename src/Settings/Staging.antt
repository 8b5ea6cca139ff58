-- ===== src/Settings/Staging.antt =====
-- app/operator_settings.py: an embedding space is staged, cut over, or given up.
use mathlib.Core.Path.{ap₂}
use moresocial.Settings.Changes.{
  cancel_call, remove_key_call, disable_call, test_call, save_call, promote_call, after, run,
  Change, revision-promote, if_text-str, revision-save,
}
use moresocial.Base.{
  [], ◌∷◌, inr, inl, All, arith, Bool-cases, List, Bool, is_some, ◌∙◌, ap, sym, subst, refl, ◌+◌,
  true, none, ◌≢◌, false, ℕ, ◌≡◌, str, some, String, Option,
}
use moresocial.Settings.{
  cancel_pending, remove_key, set_provider, disable, record_test, or_plain, save, promote,
  save_unless, promote_found, saved, changes_space, if_text, revision_of,
  pending_embedding_contract, embedding_contract, reasoning_model, pending_embedding_dimension,
  embedding_dimension, plain_contract, is_stale, Author, pending_embedding_model, set_key, Cipher,
  embedding_model, set_openrouter, values, value_of, Candidate, promote_pending, Table,
}

-- The space that the active configuration names.
abbrev pub HasSpace : Table → String → String → String → Type 0
HasSpace t model dimension contract =
    (value_of t embedding_model ≡ some model)
    × (value_of t embedding_dimension ≡ some dimension)
    × (value_of t embedding_contract ≡ some contract)

abbrev pub HasPending : Table → Option String → Option String → Option String → Type 0
HasPending t model dimension contract =
    (value_of t pending_embedding_model ≡ model)
    × (value_of t pending_embedding_dimension ≡ dimension)
    × (value_of t pending_embedding_contract ≡ contract)

abbrev pub SameSpace : Table → Table → Type 0
SameSpace t t' =
    (value_of t' embedding_model ≡ value_of t embedding_model)
    × (value_of t' embedding_dimension ≡ value_of t embedding_dimension)
    × (value_of t' embedding_contract ≡ value_of t embedding_contract)

abbrev pub Staged : Candidate → Table → Table → Type 0
Staged c t t' =
    SameSpace t t'
    × HasPending t' (some c.embedding_model) (some (str c.embedding_dimension))
        (some plain_contract)
    × (value_of t' reasoning_model ≡ some c.reasoning_model)
    × (revision_of t' ≡ revision_of t + 1)

-- A save that is not stale and changes the embedding space leaves the active space as it is, stages
-- the new one, takes the new reasoning model at once and advances the revision.
set_openrouter-Staged :
    (k : Cipher) (a : Author) (c : Candidate) (t : Table)
    → is_stale c t ≡ false
    → changes_space c t ≡ true
    → Staged c t (set_openrouter k a c t).0
      × ((set_openrouter k a c t).1 ≡ saved (revision_of t + 1) true)
unfolding set_openrouter set_key
set_openrouter-Staged k a c t fresh changed =
    subst
      (λ b.
        Staged c t (save_unless k a c t b).0
        × ((save_unless k a c t b).1 ≡ saved (revision_of t + 1) true))
      (sym fresh)
      (subst
        (λ b.
          Staged c t (save k a c b t)
          × (saved (revision_of t + 1) b ≡ saved (revision_of t + 1) true))
        (sym changed)
        (((refl, refl, refl), (refl, refl, refl), refl, revision-save k a c true t), refl))

pub if_text-ne : (s : String) → s ≢ "" → if_text (some s) ≡ some s
if_text-ne String.[] ne = absurd (ne refl)
if_text-ne (String.◌∷◌ c s) ne = refl

-- What is staged is what a cut-over makes active; nothing stays pending, and the revision advances.
promote_pending-staged :
    (k : Cipher) (a : Author) (t : Table) (model : String) (dimension : ℕ)
    → HasPending t (some model) (some (str dimension)) (some plain_contract)
    → model ≢ ""
    → HasSpace (promote_pending k a t).0 model (str dimension) plain_contract
      × HasPending (promote_pending k a t).0 none none none
      × (revision_of (promote_pending k a t).0 ≡ revision_of t + 1)
      × ((promote_pending k a t).1 ≡ true)
unfolding promote_pending values
promote_pending-staged k a t model dimension pending ne =
    subst
      (λ out.
        HasSpace out.0 model (str dimension) plain_contract
        × HasPending out.0 none none none
        × (revision_of out.0 ≡ revision_of t + 1)
        × (out.1 ≡ true))
      (sym (
        found _ _ _ (ap if_text pending.0 ∙ if_text-ne model ne)
          (ap if_text pending.1 ∙ if_text-str dimension)
          (ap (λ v. or_plain (if_text v)) pending.2)))
      (
        (refl, refl, refl),
        (refl, refl, refl),
        revision-promote a model (str dimension) plain_contract t,
        refl,
      )
  where
    found :
        (m d : Option String) (contract : String)
        → m ≡ some model
        → d ≡ some (str dimension)
        → contract ≡ plain_contract
        → promote_found a m d contract t ≡ (promote a model (str dimension) plain_contract t, true)
    found m d contract em ed ec = rw (em, ed, ec) refl

abbrev pub active_model : Table → Option String × Option String
active_model t = (value_of t embedding_model, value_of t embedding_dimension)

abbrev pub is_promote : Change → Bool
is_promote (promote_call a) = true
is_promote _ = false

-- A save that does not change the space writes the model and dimension that are there.
same_space :
    (c : Candidate) (t : Table)
    → is_some (if_text (value_of t embedding_model)) ≡ true
    → changes_space c t ≡ false
    → (some c.embedding_model ≡ value_of t embedding_model)
      × (some (str c.embedding_dimension) ≡ value_of t embedding_dimension)
same_space c t set unchanged = ground arith

save-active_model :
    (k : Cipher) (a : Author) (c : Candidate) (t : Table) (b : Bool)
    → is_some (if_text (value_of t embedding_model)) ≡ true
    → active_model (save_unless k a c t b).0 ≡ active_model t
unfolding set_key
save-active_model k a c t true set = refl
save-active_model k a c t false set = elim (Bool-cases (changes_space c t)) [
  | inl changed ↦ subst (λ b. active_model (save k a c b t) ≡ active_model t) (sym changed) refl
  | inr unchanged ↦
      let (m, d) = same_space c t set unchanged in
      subst (λ b. active_model (save k a c b t) ≡ active_model t) (sym unchanged)
        (ap₂ (λ x y. (x, y)) m d)
]

after-active_model :
    (k : Cipher) (c : Change) (t : Table)
    → is_promote c ≡ false
    → is_some (if_text (value_of t embedding_model)) ≡ true
    → active_model (after k c t) ≡ active_model t
unfolding after set_openrouter record_test disable set_provider remove_key cancel_pending
after-active_model k (save_call a c) t other set = save-active_model k a c t _ set
after-active_model k (test_call a at ok error) t other set = refl
after-active_model k (disable_call a) t other set = refl
after-active_model k (remove_key_call a) t other set = refl
after-active_model k (cancel_call a) t other set = refl
after-active_model k (promote_call a) t other set = cc

-- Once an embedding model is active, no calls change the stored name of the active model or its
-- dimension but a cut-over: both settings read the same after another model is saved, a test, the
-- provider is disabled, the key is removed and a staged space is given up.
pub run-active_model :
    (k : Cipher) (cs : List Change) (t : Table)
    → All (λ c. is_promote c ≡ false) cs
    → is_some (if_text (value_of t embedding_model)) ≡ true
    → active_model (run k cs t) ≡ active_model t
unfolding run
run-active_model k [] t others set = refl
run-active_model k (c ∷ cs) t others set =
    let same = after-active_model k c t others.0 set in
    run-active_model k cs (after k c t) others.1
      (subst (λ p. is_some (if_text p.0) ≡ true) (sym same) set)
    ∙ same
