-- ===== src/AiKeys/Saved.antt =====
-- `save` of app/ai_keys.py: which keys are stored, and what a refused one leaves.
use mathlib.Core.Bool.{false≢true}
use moresocial.Memory.Conflicts.{if_rule}
use moresocial.Worker.{starts_with}
use moresocial.Base.{
  ◌∙◌, sym, exists_where-update_where, ap, exists_where-append, inr, if◌then◌else◌, inl, Bool-cases,
  Time, [], update_where, All, ◌⊎◌, ◌∷◌, refl, ◌++◌, arith, ==_refl, not, ◌≤◌, exists_where,
  select_where, false, some, none, true, Option, List, ◌≡◌, ℕ, String, Bool, Uuid,
}
use moresocial.AiKeys.{
  or_else, save_if, with_key, ensure_connection, save, any_bad, openai, no_response, has_length,
  anthropic, prefix_of, fingerprint, answered, new_connection, Reason, is_of, validate_response,
  same_provider, check_format, Char, Services, KeyConnection, Response, Provider, KeyStore,
}

-- A key that the format allows.
abbrev pub IsFormed : (Char → Bool) → Provider → String → Type 0
IsFormed bad p key =
    (starts_with "sk-ant-oat" key ≡ false)
    × (starts_with (prefix_of p) key ≡ true)
    × (has_length key ≡ true)
    × (any_bad bad key ≡ false)

check_format-IsFormed :
    (bad : Char → Bool) (p : Provider) (key : String)
    → check_format bad p key ≡ none
    → IsFormed bad p key
unfolding check_format
check_format-IsFormed bad p key e = (ground arith, ground arith, ground arith, ground arith)

-- A status that stands for an accepted key.
abbrev pub IsAccepted : Response → Type 0
IsAccepted r =
    (status : ℕ) × (r ≡ answered status) × (((200 ≤ status) × (status ≤ 299)) ⊎ (status ≡ 429))

validate_response-IsAccepted : (r : Response) → validate_response r ≡ none → IsAccepted r
validate_response-IsAccepted no_response e = ground arith
validate_response-IsAccepted (answered status) e = (status, refl, ground arith)

abbrev pub Holds : Services → String → KeyConnection → Type 0
Holds sv key c =
    (c.access_token_enc ≡ some (sv.encrypt key))
    × (c.provider_account ≡ fingerprint sv key)
    × (c.is_active ≡ true)

abbrev pub Stored :
    Services → Uuid → Provider → String → KeyStore → Option Reason × KeyStore → Type 0
Stored sv wid p key st (some reason, st') = st' ≡ st
Stored sv wid p key st (none, st') =
    IsFormed sv.is_bad p key
    × IsAccepted (sv.validate p key)
    × (exists_where (is_of wid p) st'.connections ≡ true)
    × All (λ c. is_of wid p c ≡ true → Holds sv key c) st'.connections
    × (select_where (λ c. not (is_of wid p c)) st'.connections
        ≡ select_where (λ c. not (is_of wid p c)) st.connections)

same_provider_refl : (p : Provider) → same_provider p p ≡ true
same_provider_refl anthropic = refl
same_provider_refl openai = refl

is_of-new : (wid : Uuid) (p : Provider) (a : String) → is_of wid p (new_connection wid p a) ≡ true
is_of-new wid p a = let e = ==_refl wid in let q = same_provider_refl p in ground arith

others-append :
    (q : KeyConnection → Bool) (rows : List KeyConnection) (c : KeyConnection)
    → q c ≡ false
    → select_where q (rows ++ c ∷ []) ≡ select_where q rows
others-append q [] c e = rw e refl
others-append q (r ∷ rows) c e = rw (others-append q rows c e) refl

others-update :
    (q : KeyConnection → Bool) (g : KeyConnection → KeyConnection) (rows : List KeyConnection)
    → ((c : KeyConnection) → q (g c) ≡ q c)
    → select_where (λ c. not (q c)) (update_where q g rows) ≡ select_where (λ c. not (q c)) rows
others-update q g [] same = refl
others-update q g (r ∷ rows) same = elim (Bool-cases (q r)) [
  | inl on ↦ rw (on, same r, on) (others-update q g rows same)
  | inr off ↦ rw (off, off) (ap (λ rs. r ∷ rs) (others-update q g rows same))
]

ensure-exists :
    (wid : Uuid) (p : Provider) (a : String) (rows : List KeyConnection)
    → exists_where (is_of wid p) (ensure_connection wid p a rows) ≡ true
ensure-exists wid p a rows = by_case (exists_where (is_of wid p) rows) refl
  where
    by_case :
        (b : Bool)
        → exists_where (is_of wid p) rows ≡ b
        → exists_where (is_of wid p) (if b then rows else rows ++ new_connection wid p a ∷ [])
          ≡ true
    by_case true e = e
    by_case false e =
        let sum = exists_where-append (is_of wid p) rows (new_connection wid p a ∷ []) in
        let new = is_of-new wid p a in ground arith

ensure-others :
    (wid : Uuid) (p : Provider) (a : String) (rows : List KeyConnection)
    → select_where (λ c. not (is_of wid p c)) (ensure_connection wid p a rows)
      ≡ select_where (λ c. not (is_of wid p c)) rows
ensure-others wid p a rows =
    if_rule {A = List KeyConnection}
      (λ rs.
        select_where (λ c. not (is_of wid p c)) rs ≡ select_where (λ c. not (is_of wid p c)) rows)
      (exists_where (is_of wid p) rows) refl
      (others-append (λ c. not (is_of wid p c)) rows (new_connection wid p a)
        (ap not (is_of-new wid p a)))

with_key-Holds :
    (sv : Services) (now : Time) (key : String) (wid : Uuid) (p : Provider)
    (rows : List KeyConnection)
    → All
        (λ c. is_of wid p c ≡ true → Holds sv key c)
        (update_where (is_of wid p) (with_key sv now key) rows)
with_key-Holds sv now key wid p [] = tt
with_key-Holds sv now key wid p (c ∷ rows) =
    (by_case (is_of wid p c) refl, with_key-Holds sv now key wid p rows)
  where
    by_case :
        (b : Bool)
        → is_of wid p c ≡ b
        → is_of wid p (if b then with_key sv now key c else c) ≡ true
        → Holds sv key (if b then with_key sv now key c else c)
    by_case true e q = (refl, refl, refl)
    by_case false e q = absurd (false≢true (sym e ∙ q))

-- A key is stored only if the format allows it (no subscription token, the provider's prefix, 20 to 300
-- plain characters) and the provider has accepted it (a status of success, or too many requests). Then
-- the workspace has an active row of the provider, which holds it encrypted with its fingerprint, and
-- all other rows are as they were. With a reason nothing has changed.
pub save-Stored :
    (sv : Services) (now : Time) (wid : Uuid) (p : Provider) (raw_key : String) (st : KeyStore)
    → Stored sv wid p (sv.strip raw_key) st (save sv now wid p raw_key st)
unfolding save
save-Stored sv now wid p raw_key st = by_checks _ _ refl refl
  where
    key : String
    key = sv.strip raw_key

    by_checks :
        (a b : Option Reason)
        → check_format sv.is_bad p key ≡ a
        → validate_response (sv.validate p key) ≡ b
        → Stored sv wid p key st (save_if sv now wid p key st (or_else a b))
    by_checks (some r) b e q = refl
    by_checks none (some r) e q = refl
    by_checks none none e q = (
      check_format-IsFormed sv.is_bad p key e,
      validate_response-IsAccepted (sv.validate p key) q,
      exists_where-update_where (is_of wid p) (is_of wid p) (with_key sv now key)
            (ensure_connection wid p (fingerprint sv key) st.connections) (λ c. refl)
          ∙ ensure-exists wid p (fingerprint sv key) st.connections,
      with_key-Holds sv now key wid p (ensure_connection wid p (fingerprint sv key) st.connections),
      others-update (is_of wid p) (with_key sv now key)
            (ensure_connection wid p (fingerprint sv key) st.connections) (λ c. refl)
          ∙ ensure-others wid p (fingerprint sv key) st.connections,
    )
