-- ===== src/Settings/Effective.antt =====
-- A tested candidate that is saved is the tier that `build_operator` makes.
use moresocial.Settings.Changes.{if_text-str}
use moresocial.Settings.Staging.{if_text-ne}
use moresocial.Settings.Tier.{
  int_or, assemble, build_openrouter, operator_tier, openrouter_provider, Tier, is_text,
  Environment, build_operator,
}
use moresocial.Base.{
  sym, subst, ◌+◌, ◌≢◌, int-str, ◌∙◌, ltb, ap, arith, str, none, refl, false, ◌<◌, true, String,
  ◌≡◌, Option, some, ℕ, Bool,
}
use moresocial.Settings.{
  save_unless, decrypt_value, save, changes_space, or_plain, revision_of, is_stale, Author, Cipher,
  set_openrouter, set_key, values, revision, embedding_contract, embedding_dimension,
  embedding_model, reasoning_effort, reasoning_model, if_text, openrouter_api_key, enabled,
  plain_contract, flag, Name, Candidate, provider, Table,
}

abbrev pub tier_of : Candidate → ℕ → Tier
tier_of c rev = openrouter_provider record {
  key = c.key;
  generation_model = c.reasoning_model;
  embedding_model = c.embedding_model;
  dimension = c.embedding_dimension;
  reasoning_effort = c.reasoning_effort;
  embedding_contract = plain_contract;
  revision = rev;
}

-- The stored values of a candidate.
record IsStored (c : Candidate) (rev : ℕ) (stored : Name → Option String) : Type 0 where
  chosen : stored provider ≡ some "openrouter"
  on : stored enabled ≡ some "1"
  kept_key : if_text (stored openrouter_api_key) ≡ some c.key
  generation : if_text (stored reasoning_model) ≡ some c.reasoning_model
  effort : stored reasoning_effort ≡ some (flag c.reasoning_effort)
  model : if_text (stored embedding_model) ≡ some c.embedding_model
  dimension : stored embedding_dimension ≡ some (str c.embedding_dimension)
  contract : stored embedding_contract ≡ some plain_contract
  revised : stored revision ≡ some (str rev)

if_text-flag : (b : Bool) → if_text (some (flag b)) ≡ some (flag b)
if_text-flag true = refl
if_text-flag false = refl

flag-is_text : (b : Bool) → is_text "1" (some (flag b)) ≡ b
unfolding moresocial.Base.string_discrete
flag-is_text true = refl
flag-is_text false = refl

saved-IsStored :
    (k : Cipher) (a : Author) (c : Candidate) (t : Table)
    → k.decrypt (k.encrypt c.key) ≡ some c.key
    → k.encrypt c.key ≢ ""
    → c.key ≢ ""
    → c.reasoning_model ≢ ""
    → c.embedding_model ≢ ""
    → IsStored c (revision_of t + 1) (values k (save k a c false t))
unfolding values set_key
saved-IsStored k a c t opens sealed key generation model =
    let unsealed : decrypt_value k (some (k.encrypt c.key)) ≡ some c.key =
      ap (λ o. elim o [ none ↦ none | some s ↦ k.decrypt s ]) (if_text-ne (k.encrypt c.key) sealed)
      ∙ opens in
    let whole = if_text-ne c.key key in
    record {
      chosen = refl;
      on = refl;
      kept_key = ap (λ o. if_text (if_text o)) unsealed ∙ ap if_text whole ∙ whole;
      generation =
          ap if_text (if_text-ne c.reasoning_model generation)
          ∙ if_text-ne c.reasoning_model generation;
      effort = if_text-flag c.reasoning_effort;
      model = ap if_text (if_text-ne c.embedding_model model) ∙ if_text-ne c.embedding_model model;
      dimension = if_text-str c.embedding_dimension;
      contract = refl;
      revised = if_text-str (revision_of t + 1);
    }

assemble-known :
    (c : Candidate) (rev : ℕ) (key generation model : Option String) (dimension revised : Option ℕ)
    (effort : Bool) (contract : String)
    → key ≡ some c.key
    → generation ≡ some c.reasoning_model
    → model ≡ some c.embedding_model
    → dimension ≡ some c.embedding_dimension
    → revised ≡ some rev
    → effort ≡ c.reasoning_effort
    → contract ≡ plain_contract
    → 0 < c.embedding_dimension
    → assemble key generation model dimension revised effort contract ≡ tier_of c rev
assemble-known c rev key generation model dimension revised effort contract ek eg em ed er ee ec
      low =
    let positive : ltb 0 c.embedding_dimension ≡ true = ground arith in
    rw (ek, eg, em, ed, er, ee, ec, positive) refl

build_openrouter-stored :
    (env : Environment) (c : Candidate) (rev : ℕ) (stored : Name → Option String) (removed : Bool)
    → IsStored c rev stored
    → 0 < c.embedding_dimension
    → build_openrouter env stored removed ≡ tier_of c rev
build_openrouter-stored env c rev stored removed q low =
    assemble-known c rev _ _ _ _ _ _ _ (ground (arith, q.kept_key)) (ground (arith, q.generation))
      (ground (arith, q.model))
      (ap (int_or env.embedding_dimension) q.dimension ∙ int-str c.embedding_dimension)
      (ap (int_or 0) q.revised ∙ int-str rev)
      (ap (is_text "1") q.effort ∙ flag-is_text c.reasoning_effort) (ap or_plain q.contract) low

build_operator-stored :
    (env : Environment) (c : Candidate) (rev : ℕ) (stored : Name → Option String) (removed : Bool)
    → IsStored c rev stored
    → 0 < c.embedding_dimension
    → build_operator env stored removed ≡ tier_of c rev
unfolding build_operator moresocial.Base.string_discrete
build_operator-stored env c rev stored removed q low =
    let built = build_openrouter-stored env c rev stored removed q low in
    rw (q.chosen, q.on) (ground (arith, built))

-- A save that is not stale and does not change the embedding space takes effect as it was tested,
-- whatever the environment says: the tier has the candidate's key, models, dimension and effort,
-- and the next revision. The key and models are not empty, the dimension is positive, and the
-- cipher decrypts what it has encrypted.
pub saved_tier :
    (k : Cipher) (env : Environment) (a : Author) (c : Candidate) (t : Table)
    → k.decrypt (k.encrypt c.key) ≡ some c.key
    → k.encrypt c.key ≢ ""
    → c.key ≢ ""
    → c.reasoning_model ≢ ""
    → c.embedding_model ≢ ""
    → 0 < c.embedding_dimension
    → is_stale c t ≡ false
    → changes_space c t ≡ false
    → operator_tier k env (set_openrouter k a c t).0 ≡ tier_of c (revision_of t + 1)
unfolding operator_tier set_openrouter
saved_tier k env a c t opens sealed key generation model low fresh unchanged =
    subst (λ b. operator_tier k env (save_unless k a c t b).0 ≡ tier_of c (revision_of t + 1))
      (sym fresh)
      (subst (λ b. operator_tier k env (save k a c b t) ≡ tier_of c (revision_of t + 1))
        (sym unchanged)
        (build_operator-stored env c (revision_of t + 1) _ _
          (saved-IsStored k a c t opens sealed key generation model) low))
