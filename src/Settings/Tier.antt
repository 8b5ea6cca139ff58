-- ===== src/Settings/Tier.antt =====
-- app/ai.py, `build_operator` and `reload_operator`: the operator tier from the saved settings and the
-- environment, the tombstones that a disabled provider and a removed key leave, and the tier that a
-- process keeps.

use moresocial.Base.{
  max, Time, List, [], ◌∷◌, ◌==◌, true, is_some, ◌||◌, not, ◌&&◌, ltb, text_eq, int, none, false,
  if◌then◌else◌, Bool, some, Option, String, ℕ,
}
use moresocial.Settings.{
  provider, pending_embedding_model, pending_embedding_dimension, pending_embedding_contract,
  last_test_at, last_test_status, last_test_error, embedding_contract, or_plain, reasoning_effort,
  revision, embedding_dimension, enabled, embedding_model, reasoning_model, openrouter_api_key,
  if_text, values, OperatorSetting, Cipher, Name, Table,
}

-- The settings of app/config.py, with the text of the secret file, if any.
pub record Environment : Type 0 where
  pub ai_provider : String
  pub openrouter_api_key_file : Option String
  pub openrouter_generation_model : String
  pub openrouter_embedding_model : String
  pub embedding_dimension : ℕ

pub record Openrouter : Type 0 where
  pub key : String
  pub generation_model : String
  pub embedding_model : String
  pub dimension : ℕ
  pub reasoning_effort : Bool
  pub embedding_contract : String
  pub revision : ℕ

-- FakeProvider, OperatorTier(None, None) and OpenRouterProvider.
pub data Tier : Type 0 where
  fake_provider no_tier : Tier
  openrouter_provider : Openrouter → Tier

-- `'openrouter' in removed`: a row of the key with no value, as `reload_operator` collects them.
abbrev pub is_removed : Option OperatorSetting → Bool
is_removed none = false
is_removed (some row) = not (is_some row.value)

-- `a or b`, for texts: none where both are empty.
abbrev pub or_text : Option String → Option String → Option String
or_text a b = elim (if_text a) [ none ↦ if_text b | some s ↦ some s ]

abbrev pub choice_or : Environment → Option String → String
choice_or env none = if text_eq env.ai_provider "openrouter" then "openrouter" else "none"
choice_or env (some s) = s

-- `int(stored.get(...) or default)`, none at a ValueError.
abbrev pub int_or : ℕ → Option String → Option ℕ
int_or n none = some n
int_or n (some s) = int s

abbrev pub is_text : String → Option String → Bool
is_text s none = false
is_text s (some v) = text_eq v s

-- `if key and generation and embedding and dimension > 0`
abbrev pub assemble :
    Option String → Option String → Option String → Option ℕ → Option ℕ → Bool → String → Tier
assemble (some key) (some generation) (some embedding) (some dimension) (some rev) effort contract =
    if ltb 0 dimension
    then openrouter_provider record {
      key = key;
      generation_model = generation;
      embedding_model = embedding;
      dimension = dimension;
      reasoning_effort = effort;
      embedding_contract = contract;
      revision = rev;
    }
    else no_tier
assemble _ _ _ _ _ effort contract = no_tier

-- The tier once the provider is `openrouter` and enabled.
abbrev pub build_openrouter : Environment → (Name → Option String) → Bool → Tier
build_openrouter env stored removed =
    assemble
      (or_text (stored openrouter_api_key) (if removed then none else env.openrouter_api_key_file))
      (or_text (stored reasoning_model) (some env.openrouter_generation_model))
      (or_text (stored embedding_model) (some env.openrouter_embedding_model))
      (int_or env.embedding_dimension (stored embedding_dimension)) (int_or 0 (stored revision))
      (is_text "1" (stored reasoning_effort)) (or_plain (stored embedding_contract))

abbrev pub is_fake : Environment → Option String → Bool
is_fake env choice = text_eq env.ai_provider "fake" && not (is_some choice)

unfoldable pub build_operator : Environment → (Name → Option String) → Bool → Tier
build_operator env stored removed =
    if is_fake env (stored provider)
    then fake_provider
    else if not (text_eq (choice_or env (stored provider)) "openrouter")
        || is_text "0" (stored enabled)
    then no_tier
    else build_openrouter env stored removed

-- What `reload_operator` builds with the database at hand.
unfoldable pub operator_tier : Cipher → Environment → Table → Tier
operator_tier k env t = build_operator env (values k t) (is_removed (t openrouter_api_key))

abbrev names : List Name
names =
    provider ∷ enabled ∷ reasoning_model ∷ reasoning_effort ∷ embedding_model ∷ embedding_dimension
    ∷ embedding_contract ∷ pending_embedding_model ∷ pending_embedding_dimension
    ∷ pending_embedding_contract ∷ revision ∷ last_test_at ∷ last_test_status ∷ last_test_error
    ∷ openrouter_api_key ∷ []

abbrev later_update : Option OperatorSetting → Option Time → Option Time
later_update none at = at
later_update (some row) none = some row.updated_at
later_update (some row) (some at) = some (max row.updated_at at)

-- `operator_settings.stamp`: the latest `updated_at`.
abbrev latest_update : List Name → Table → Option Time
latest_update [] t = none
latest_update (n ∷ ns) t = later_update (t n) (latest_update ns t)

unfoldable pub stamp : Table → Option Time
stamp t = latest_update names t

abbrev same_stamp : Option Time → Option Time → Bool
same_stamp none none = true
same_stamp (some a) (some b) = a == b
same_stamp _ _ = false

-- `_operator` and `_operator_stamp`, which a process keeps.
pub record Operator : Type 0 where
  pub tier : Option Tier
  pub operator_stamp : Option Time

-- `reload_operator`, by the settings that it reads: there are none while the database is unavailable.
unfoldable pub reload_operator : Cipher → Environment → Bool → Option Table → Operator → Operator
unfolding operator_tier build_operator stamp
reload_operator k env force none op = elim op.tier [
  | none ↦ record {
    tier = some (build_operator env (λ _. none) false);
    operator_stamp = op.operator_stamp;
  }
  | some _ ↦ op
]
reload_operator k env force (some t) op =
    if force || (not (is_some op.tier) || not (same_stamp (stamp t) op.operator_stamp))
    then record { tier = some (operator_tier k env t); operator_stamp = stamp t }
    else op
