-- ===== src/Settings/Tombstones.antt =====
-- What the operator tier is after a save, after disabling the provider and after removing the key.
use moresocial.Base.{
  Time, not, if◌then◌else◌, ap, refl, arith, none, [], refl, ◌∷◌, some, false, ◌≡◌, true, All, List,
  Bool, String, Option,
}
use moresocial.Settings.Changes.{
  promote_call, cancel_call, remove_key_call, disable_call, test_call, save_call, Change, after,
  run,
}
use moresocial.Settings.Tier.{
  no_tier, is_removed, stamp, Operator, reload_operator, Environment, openrouter_provider,
  build_operator, operator_tier, Tier,
}
use moresocial.Settings.{
  openrouter_api_key, pending_embedding_contract, or_plain, pending_embedding_dimension,
  pending_embedding_model, promote_found, Author, promote_pending, value_of, cancel_pending, values,
  record_test, set_provider, Cipher, disable, remove_key, provider, Table,
}

abbrev pub is_save : Change → Bool
is_save (save_call a c) = true
is_save _ = false

abbrev pub is_openrouter_tier : Tier → Bool
is_openrouter_tier (openrouter_provider o) = true
is_openrouter_tier _ = false

rows-disabled :
    (k : Cipher) (c : Change) (t : Table)
    → is_save c ≡ false
    → value_of t provider ≡ some "none"
    → value_of (after k c t) provider ≡ some "none"
unfolding after record_test disable set_provider remove_key cancel_pending promote_pending
rows-disabled k (save_call a c) t other e = cc
rows-disabled k (test_call a at ok error) t other e = e
rows-disabled k (disable_call a) t other e = refl
rows-disabled k (remove_key_call a) t other e = e
rows-disabled k (cancel_call a) t other e = e
rows-disabled k (promote_call a) t other e =
    promoted (values k t pending_embedding_model) (values k t pending_embedding_dimension)
      (or_plain (values k t pending_embedding_contract))
  where
    promoted :
        (m d : Option String) (contract : String)
        → value_of (promote_found a m d contract t).0 provider ≡ some "none"
    promoted none d contract = e
    promoted (some m) none contract = e
    promoted (some m) (some d) contract = e

rows-removed :
    (k : Cipher) (c : Change) (t : Table)
    → is_save c ≡ false
    → is_removed (t openrouter_api_key) ≡ true
    → is_removed (after k c t openrouter_api_key) ≡ true
unfolding after record_test disable set_provider remove_key cancel_pending promote_pending
rows-removed k (save_call a c) t other e = cc
rows-removed k (test_call a at ok error) t other e = e
rows-removed k (disable_call a) t other e = e
rows-removed k (remove_key_call a) t other e = refl
rows-removed k (cancel_call a) t other e = e
rows-removed k (promote_call a) t other e =
    promoted (values k t pending_embedding_model) (values k t pending_embedding_dimension)
      (or_plain (values k t pending_embedding_contract))
  where
    promoted :
        (m d : Option String) (contract : String)
        → is_removed ((promote_found a m d contract t).0 openrouter_api_key) ≡ true
    promoted none d contract = e
    promoted (some m) none contract = e
    promoted (some m) (some d) contract = e

run-removed :
    (k : Cipher) (cs : List Change) (t : Table)
    → All (λ c. is_save c ≡ false) cs
    → is_removed (t openrouter_api_key) ≡ true
    → is_removed (run k cs t openrouter_api_key) ≡ true
unfolding run
run-removed k [] t h e = e
run-removed k (c ∷ cs) t h e = run-removed k cs (after k c t) h.1 (rows-removed k c t h.0 e)

tier-disabled :
    (k : Cipher) (env : Environment) (t : Table)
    → value_of t provider ≡ some "none"
    → operator_tier k env t ≡ no_tier
unfolding operator_tier build_operator values moresocial.Base.string_discrete
tier-disabled k env t e = rw e (ground arith)

-- What happens while a process keeps its tier: a change of the settings, or a reload that is forced or
-- not, with the database at hand or not.
pub data Moment : Type 0 where
  changed : Change → Moment
  reloaded : (force at_hand : Bool) → Moment

abbrev is_no_save : Moment → Bool
is_no_save (changed c) = not (is_save c)
is_no_save (reloaded force at_hand) = true

abbrev pub pass_moment : Cipher → Environment → Moment → Table × Operator → Table × Operator
pass_moment k env (changed c) (t, op) = (after k c t, op)
pass_moment k env (reloaded force at_hand) (t, op) =
    (t, reload_operator k env force (if at_hand then some t else none) op)

unfoldable pub pass_moments :
    Cipher → Environment → List Moment → Table × Operator → Table × Operator
pass_moments k env [] s = s
pass_moments k env (m ∷ ms) s = pass_moments k env ms (pass_moment k env m s)

-- The provider is disabled, and the process keeps no tier.
abbrev IsOff : Table × Operator → Type 0
IsOff s = (value_of s.0 provider ≡ some "none") × (s.1.tier ≡ some no_tier)

reload-off :
    (k : Cipher) (env : Environment) (b : Bool) (t : Table) (op : Operator)
    → value_of t provider ≡ some "none"
    → (b ≡ false → op.tier ≡ some no_tier)
    → (if b
        then record { tier = some (operator_tier k env t); operator_stamp = stamp t }
        else op).tier
      ≡ some no_tier
reload-off k env true t op e kept = ap some (tier-disabled k env t e)
reload-off k env false t op e kept = kept refl

reload-unavailable :
    (k : Cipher) (env : Environment) (force : Bool) (tier : Option Tier) (at : Option Time)
    → tier ≡ some no_tier
    → (reload_operator k env force none (record { tier = tier; operator_stamp = at })).tier
      ≡ some no_tier
unfolding reload_operator
reload-unavailable k env force none at e = cc
reload-unavailable k env force (some x) at e = e

pass_moment-IsOff :
    (k : Cipher) (env : Environment) (m : Moment) (s : Table × Operator)
    → is_no_save m ≡ true
    → IsOff s
    → IsOff (pass_moment k env m s)
unfolding reload_operator
pass_moment-IsOff k env (changed c) (t, op) h (e, o) = (rows-disabled k c t (ground arith) e, o)
pass_moment-IsOff k env (reloaded force true) (t, op) h (e, o) =
    (e, reload-off k env _ t op e (λ _. o))
pass_moment-IsOff k env (reloaded force false) (t, op) h (e, o) =
    (e, reload-unavailable k env force op.tier op.operator_stamp o)

pass_moments-IsOff :
    (k : Cipher) (env : Environment) (ms : List Moment) (s : Table × Operator)
    → All (λ m. is_no_save m ≡ true) ms
    → IsOff s
    → IsOff (pass_moments k env ms s)
unfolding pass_moments
pass_moments-IsOff k env [] s h off = off
pass_moments-IsOff k env (m ∷ ms) s (here, h) off =
    pass_moments-IsOff k env ms (pass_moment k env m s) h (pass_moment-IsOff k env m s here off)

-- In a process that reads the settings again once the provider is disabled, there is no AI tier until
-- the next save: whatever the environment and the secret file say, however the other settings are
-- changed, and whether a later reload is forced or not, or finds the database at hand or not.
pub disabled_stays :
    (k : Cipher) (env : Environment) (a : Author) (ms : List Moment) (t : Table) (op : Operator)
    → All (λ m. is_no_save m ≡ true) ms
    → (pass_moments k env ms (pass_moment k env (reloaded true true) (disable a t, op))).1.tier
      ≡ some no_tier
unfolding disable set_provider reload_operator
disabled_stays k env a ms t op h =
    (pass_moments-IsOff k env ms _ h
      (refl, reload-off k env true (disable a t) op refl (λ e. cc))).1

removed_value :
    (k : Cipher) (t : Table)
    → is_removed (t openrouter_api_key) ≡ true
    → values k t openrouter_api_key ≡ none
unfolding values
removed_value k t e = ground arith

tier-removed :
    (k : Cipher) (env : Environment) (t : Table)
    → is_removed (t openrouter_api_key) ≡ true
    → is_openrouter_tier (operator_tier k env t) ≡ false
unfolding operator_tier build_operator
tier-removed k env t e = let gone = removed_value k t e in ground (arith, gone, e)

-- Once the key is removed the tier is never OpenRouter, though the secret file has a key, until the
-- next save.
removed_stays :
    (k : Cipher) (env : Environment) (a : Author) (cs : List Change) (t : Table)
    → All (λ c. is_save c ≡ false) cs
    → is_openrouter_tier (operator_tier k env (run k cs (remove_key a t))) ≡ false
unfolding remove_key
removed_stays k env a cs t h = tier-removed k env _ (run-removed k cs (remove_key a t) h refl)
