-- ===== src/Settings.antt =====
-- app/operator_settings.py: the operator's AI configuration, staged changes of the embedding space,
-- and tombstones. The table OperatorSetting of app/models.py, whose primary key is the name, is a
-- map.
use Prim.Native.String.{count}
pub mod Changes
pub mod Staging
pub mod Tier
pub mod Tombstones
pub mod Effective
mod Examples
use Prim.Native.String
use moresocial.Base.{
  text_eq, ◌-◌, ◌||◌, not, ◌&&◌, str, is_some, ◌+◌, Time, ◌==◌, false, drop, true, int, none, Bool,
  if◌then◌else◌, some, Option, String, ℕ,
}

-- The names of the settings, by the module's constants; `openrouter` is the only key in KEYS.
pub data Name : Type 0 where
  provider enabled reasoning_model reasoning_effort embedding_model embedding_dimension
        embedding_contract pending_embedding_model pending_embedding_dimension
        pending_embedding_contract revision last_test_at last_test_status last_test_error
        openrouter_api_key :
      Name

-- `name.endswith('_api_key')`
abbrev pub is_key : Name → Bool
is_key openrouter_api_key = true
is_key _ = false

pub record OperatorSetting : Type 0 where
  pub value : Option String
  pub hint : Option String
  pub updated_by : String
  pub updated_at : Time

abbrev pub Table : Type 0
Table = Name → Option OperatorSetting

-- The Fernet cipher of app/security.py: `decrypt` is none where it raises InvalidToken.
pub record Cipher : Type 0 where
  pub encrypt : String → String
  pub decrypt : String → Option String

-- `if value`, for an optional text.
abbrev pub if_text : Option String → Option String
if_text none = none
if_text (some String.[]) = none
if_text (some s) = some s

-- app/security.py, `decrypt`
abbrev pub decrypt_value : Cipher → Option String → Option String
decrypt_value k v = elim (if_text v) [ none ↦ none | some s ↦ k.decrypt s ]

abbrev pub value_of : Table → Name → Option String
value_of t n = elim (t n) [ none ↦ none | some row ↦ row.value ]

abbrev pub plain_value : Cipher → Bool → Option String → Option String
plain_value k true v = decrypt_value k v
plain_value k false v = v

-- An entry of the dictionary that `values` returns: a row with a value that is not empty, decrypted
-- if it is a key.
unfoldable pub values : Cipher → Table → Name → Option String
values k t n = if_text (plain_value k (is_key n) (value_of t n))

-- `provider` as the callers give it.
pub data Choice : Type 0 where
  openrouter no_provider : Choice

abbrev pub choice_text : Choice → String
choice_text openrouter = "openrouter"
choice_text no_provider = "none"

abbrev pub is_openrouter : Choice → Bool
is_openrouter openrouter = true
is_openrouter no_provider = false

-- `s[-4:]`
abbrev pub last_four : String → String
last_four s = drop (count s - 4) s

-- What a call is told about who makes it and when.
pub record Author : Type 0 where
  pub by : String
  pub now : Time

abbrev number : Name → ℕ
number provider = 0
number enabled = 1
number reasoning_model = 2
number reasoning_effort = 3
number embedding_model = 4
number embedding_dimension = 5
number embedding_contract = 6
number pending_embedding_model = 7
number pending_embedding_dimension = 8
number pending_embedding_contract = 9
number revision = 10
number last_test_at = 11
number last_test_status = 12
number last_test_error = 13
number openrouter_api_key = 14

abbrev pub same_name : Name → Name → Bool
same_name m n = number m == number n

abbrev pub put_hint : Author → Name → Option String → Option String → Table → Table
put_hint a n v h t m =
    if same_name n m
    then some record { value = v; hint = h; updated_by = a.by; updated_at = a.now }
    else t m

-- `_put` with no hint.
abbrev pub put : Author → Name → Option String → Table → Table
put a n v = put_hint a n v none

unfoldable pub set_provider : Author → Choice → Table → Table
set_provider a choice t =
    put a enabled (some (if is_openrouter choice then "1" else "0"))
      (put a provider (some (choice_text choice)) t)

-- `key[-4:]`
unfoldable pub set_key : Cipher → Author → String → Table → Table
set_key k a key = put_hint a openrouter_api_key (some (k.encrypt key)) (some (last_four key))

unfoldable pub remove_key : Author → Table → Table
remove_key a = put a openrouter_api_key none

-- `int(row.value) if row and row.value else 0`, and 0 at a ValueError.
abbrev pub int_or_zero : Option String → ℕ
int_or_zero none = 0
int_or_zero (some s) = elim (int s) [ none ↦ 0 | some n ↦ n ]

unfoldable pub revision_of : Table → ℕ
revision_of t = int_or_zero (if_text (value_of t revision))

-- The contract of every space: `v1:plain-text:document-query`.
abbrev pub plain_contract : String
plain_contract = "v1:plain-text:document-query"

-- The candidate of `set_openrouter`.
pub record Candidate : Type 0 where
  pub key : String
  pub reasoning_model : String
  pub embedding_model : String
  pub embedding_dimension : ℕ
  pub reasoning_effort : Bool
  pub expected_revision : Option ℕ

pub data Saved : Type 0 where
  stale : Saved
  saved : ℕ → Bool → Saved

-- `old_dim_value != str(embedding_dimension)`
abbrev pub differs : Option String → String → Bool
differs none s = true
differs (some v) s = not (text_eq v s)

abbrev pub changes_space : Candidate → Table → Bool
changes_space c t =
    is_some (if_text (value_of t embedding_model))
    && (differs (value_of t embedding_model) c.embedding_model
        || differs (value_of t embedding_dimension) (str c.embedding_dimension))

abbrev pub is_stale : Candidate → Table → Bool
is_stale c t = elim c.expected_revision [ none ↦ false | some r ↦ not (r == revision_of t) ]

abbrev pub flag : Bool → String
flag true = "1"
flag false = "0"

abbrev pub put_tier : Cipher → Author → Candidate → Table → Table
put_tier k a c t = put a reasoning_effort (some (flag c.reasoning_effort)) (
    put a reasoning_model (some c.reasoning_model)
      (put a enabled (some "1") (put a provider (some "openrouter") (set_key k a c.key t))))

abbrev pub put_pending : Author → Candidate → Table → Table
put_pending a c t = put a pending_embedding_contract (some plain_contract) (
    put a pending_embedding_dimension (some (str c.embedding_dimension))
      (put a pending_embedding_model (some c.embedding_model) t))

abbrev pub put_active : Author → Candidate → Table → Table
put_active a c t = put a embedding_contract (some plain_contract) (
    put a embedding_dimension (some (str c.embedding_dimension))
      (put a embedding_model (some c.embedding_model) t))

abbrev pub save : Cipher → Author → Candidate → Bool → Table → Table
save k a c changed t =
    put a revision (some (str (revision_of t + 1)))
      (if changed then put_pending a c (put_tier k a c t) else put_active a c (put_tier k a c t))

-- A stale test raises ValueError, which rolls the transaction back.
abbrev pub save_unless : Cipher → Author → Candidate → Table → Bool → Table × Saved
save_unless k a c t true = (t, stale)
save_unless k a c t false =
    (save k a c (changes_space c t) t, saved (revision_of t + 1) (changes_space c t))

unfoldable pub set_openrouter : Cipher → Author → Candidate → Table → Table × Saved
set_openrouter k a c t = save_unless k a c t (is_stale c t)

-- `at` is the time now as an ISO text.
unfoldable pub record_test : Author → String → Bool → Option String → Table → Table
record_test a at ok error t =
    put a last_test_error (if ok then none else error) (
      put a last_test_status (some (if ok then "ok" else "failed"))
        (put a last_test_at (some at) t))

unfoldable pub disable : Author → Table → Table
unfolding set_provider
disable a = set_provider a no_provider

unfoldable pub cancel_pending : Author → Table → Table
cancel_pending a t =
    put a pending_embedding_contract none
      (put a pending_embedding_dimension none (put a pending_embedding_model none t))

abbrev pub or_plain : Option String → String
or_plain none = plain_contract
or_plain (some s) = s

abbrev pub promote : Author → String → String → String → Table → Table
promote a model dimension contract t = put a revision (some (str (revision_of t + 1))) (
    cancel_pending a (
      put a embedding_contract (some contract)
        (put a embedding_dimension (some dimension) (put a embedding_model (some model) t))))

abbrev pub promote_found : Author → Option String → Option String → String → Table → Table × Bool
promote_found a none _ contract t = (t, false)
promote_found a (some model) none contract t = (t, false)
promote_found a (some model) (some dimension) contract t =
    (promote a model dimension contract t, true)

unfoldable pub promote_pending : Cipher → Author → Table → Table × Bool
unfolding cancel_pending
promote_pending k a t =
    promote_found a (values k t pending_embedding_model) (values k t pending_embedding_dimension)
      (or_plain (values k t pending_embedding_contract)) t
