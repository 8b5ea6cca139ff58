-- ===== src/AiKeys.antt =====
-- app/ai_keys.py: a workspace's own API keys. The rows are those of Connection in app/models.py whose
-- provider is one of the two; a job is a row of Job. The answer to the validating request, the cipher,
-- the digest, and Python's `strip` and its classes of characters are parameters.
use moresocial.Settings.{last_four}
use moresocial.Worker.{starts_with}
use moresocial.Jobs.{is_queued, Job}
use Prim.Native.Char.{Char}
pub mod Saved
pub mod Examples
use moresocial.Base.{
  [], ◌∷◌, ◌++◌, exists_where, ◌||◌, ◌&&◌, false, if◌then◌else◌, true, not, text_length, ◌==◌, leb,
  drop, none, truncate, delete_where, Option, text_append, some, ℕ, Bool, update_where, List, Uuid,
  Time, String,
}

pub data Provider : Type 0 where
  anthropic openai : Provider

pub data Reason : Type 0 where
  format wrong_provider subscription_token invalid_key no_credit model_unavailable : Reason
  unreachable : Reason

-- The answer to the request that validates a key.
pub data Response : Type 0 where
  no_response : Response
  answered : ℕ → Response

pub record KeyConnection : Type 0 where
  pub workspace_id : Uuid
  pub provider : Provider
  pub provider_account : String
  pub access_token_enc : Option String
  pub key_hint : Option String
  pub is_active : Bool
  pub detail : Option String
  pub validated_at : Option Time

-- A workspace, and which provider it prefers.
pub record Preference : Type 0 where
  pub workspace_id : Uuid
  pub ai_preference : Option Provider

pub record KeyStore : Type 0 where
  pub connections : List KeyConnection
  pub jobs : List Job
  pub preferences : List Preference

pub record Services : Type 0 where
  pub strip : String → String
  pub is_bad : Char → Bool
  pub digest : String → String
  pub encrypt : String → String
  pub validate : Provider → String → Response

abbrev pub is_anthropic : Provider → Bool
is_anthropic anthropic = true
is_anthropic openai = false

abbrev pub same_provider : Provider → Provider → Bool
same_provider anthropic p = is_anthropic p
same_provider openai p = not (is_anthropic p)

-- PREFIXES
abbrev pub prefix_of : Provider → String
prefix_of anthropic = "sk-ant-"
prefix_of openai = "sk-"

abbrev pub any_bad : (Char → Bool) → String → Bool
any_bad bad String.[] = false
any_bad bad (String.◌∷◌ c s) = bad c || any_bad bad s

-- `20 <= len(key) <= 300`
abbrev pub has_length : String → Bool
has_length key = leb 20 (text_length key) && leb (text_length key) 300

unfoldable pub check_format : (Char → Bool) → Provider → String → Option Reason
unfolding starts_with text_length
check_format bad provider key =
    if starts_with "sk-ant-oat" key
    then some subscription_token
    else if not (is_anthropic provider) && starts_with "sk-ant-" key
    then some wrong_provider
    else if not (starts_with (prefix_of provider) key && has_length key)
    then some format
    else if any_bad bad key
    then some format
    else none

-- `validate`, on the status of the answer; 429 means that the key was accepted.
abbrev pub validate_status : ℕ → Option Reason
validate_status status =
    if (leb 200 status && leb status 299) || status == 429
    then none
    else if status == 401
    then some invalid_key
    else if status == 402
    then some no_credit
    else if status == 403 || status == 404
    then some model_unavailable
    else some unreachable

abbrev pub validate_response : Response → Option Reason
validate_response no_response = some unreachable
validate_response (answered status) = validate_status status

-- `fingerprint`
abbrev pub fingerprint : Services → String → String
fingerprint sv key = text_append "fp:" (truncate 16 (sv.digest key))

abbrev pub is_of : Uuid → Provider → KeyConnection → Bool
is_of wid p c = c.workspace_id == wid && same_provider c.provider p

abbrev pub new_connection : Uuid → Provider → String → KeyConnection
new_connection wid p account = record {
  workspace_id = wid;
  provider = p;
  provider_account = account;
  access_token_enc = none;
  key_hint = none;
  is_active = true;
  detail = none;
  validated_at = none;
}

-- `INSERT ... ON CONFLICT DO NOTHING`
abbrev pub ensure_connection : Uuid → Provider → String → List KeyConnection → List KeyConnection
ensure_connection wid p account rows =
    if exists_where (is_of wid p) rows then rows else rows ++ new_connection wid p account ∷ []

abbrev pub with_key : Services → Time → String → KeyConnection → KeyConnection
with_key sv now key c = record c {
  provider_account = fingerprint sv key;
  access_token_enc = some (sv.encrypt key);
  key_hint = some (last_four key);
  is_active = true;
  detail = none;
  validated_at = some now;
}

abbrev pub says : String → Option String → Bool
says prefix none = false
says prefix (some e) = starts_with prefix e

-- The jobs that wait for budget or a provider.
abbrev pub is_paused : Uuid → Job → Bool
is_paused wid j =
    j.workspace_id == wid
    && (is_queued j.status && (says "AI paused" j.last_error || says "ai unavailable" j.last_error))

abbrev pub run_now : Time → Job → Job
run_now now j = record j { run_after = now }

unfoldable pub resume_paused_jobs : Time → Uuid → List Job → List Job
unfolding starts_with
resume_paused_jobs now wid jobs = update_where (is_paused wid) (run_now now) jobs

abbrev pub store_key : Services → Time → Uuid → Provider → String → KeyStore → KeyStore
store_key sv now wid p key st = record st {
  connections =
      update_where (is_of wid p) (with_key sv now key)
        (ensure_connection wid p (fingerprint sv key) st.connections);
  jobs = resume_paused_jobs now wid st.jobs;
}

abbrev pub or_else : Option Reason → Option Reason → Option Reason
or_else none r = r
or_else (some q) r = some q

abbrev pub save_if :
    Services → Time → Uuid → Provider → String → KeyStore → Option Reason → Option Reason × KeyStore
save_if sv now wid p key st (some reason) = (some reason, st)
save_if sv now wid p key st none = (none, store_key sv now wid p key st)

-- `save`: a reason where nothing was stored
unfoldable pub save :
    Services → Time → Uuid → Provider → String → KeyStore → Option Reason × KeyStore
unfolding check_format resume_paused_jobs truncate drop
save sv now wid p raw_key st =
    let key = sv.strip raw_key in
    save_if sv now wid p key st
      (or_else (check_format sv.is_bad p key) (validate_response (sv.validate p key)))

abbrev prefers : Uuid → Provider → Preference → Bool
prefers wid p w =
    w.workspace_id == wid && elim w.ai_preference [ none ↦ false | some q ↦ same_provider q p ]

abbrev clear_preference : Preference → Preference
clear_preference w = record w { ai_preference = none }

-- `remove`: the key's row, and the workspace's preference for the provider.
unfoldable pub remove : Uuid → Provider → KeyStore → KeyStore
remove wid p st = record st {
  connections = delete_where (is_of wid p) st.connections;
  preferences = update_where (prefers wid p) clear_preference st.preferences;
}
