-- ===== src/Settings/Examples.antt =====
-- Saves, cut-overs and tombstones on a small table, and the theorems at them.
use moresocial.Settings.Effective.{saved_tier, tier_of}
use moresocial.Settings.Changes.{cancel_call, overtaken_save, test_call, save_call, Change, run}
use moresocial.Settings.Tier.{no_tier, operator_tier, Environment}
use moresocial.Settings.Staging.{run-active_model, HasPending, active_model}
use moresocial.Base.{
  arith, [], ◌+◌, ◌∷◌, refl, str, false, true, Option, ◌≡◌, is_some, int, ◌≢◌, some, String, none,
  List,
}
use moresocial.Settings.Tombstones.{
  Moment, changed, reloaded, pass_moments, pass_moment, disabled_stays,
}
use moresocial.Settings.{
  embedding_model, plain_contract, value_of, disable, stale, if_text, changes_space, is_stale,
  revision_of, Candidate, Cipher, set_openrouter, Author, Table,
}

-- A toy cipher: a mark before the text.
abbrev unmark : String → Option String
unmark String.[] = none
unmark (String.◌∷◌ c s) = some s

abbrev marking : Cipher
marking = record { encrypt = λ s. String.◌∷◌ "k" s; decrypt = unmark }

abbrev admin : Author
admin = record { by = "admin@example.com"; now = 5 }

abbrev unset : Table
unset n = none

abbrev small_model : Candidate
small_model = record {
  key = "sk-1234";
  reasoning_model = "think";
  embedding_model = "embed-small";
  embedding_dimension = 64;
  reasoning_effort = true;
  expected_revision = some 0;
}

abbrev large_model : Candidate
large_model = record {
  key = "sk-1234";
  reasoning_model = "think";
  embedding_model = "embed-large";
  embedding_dimension = 128;
  reasoning_effort = true;
  expected_revision = some 1;
}

abbrev mounted : Environment
mounted = record {
  ai_provider = "openrouter";
  openrouter_api_key_file = some "sk-file";
  openrouter_generation_model = "think";
  openrouter_embedding_model = "embed-file";
  embedding_dimension = 32;
}

abbrev small_saved : Table
small_saved = (set_openrouter marking admin small_model unset).0

abbrev large_staged : Table
large_staged = (set_openrouter marking admin large_model small_saved).0

abbrev quiet : List Change
quiet = test_call admin "2026-01-01T00:00:00Z" false (some "timeout") ∷ cancel_call admin ∷ []

fresh_small : is_stale small_model unset ≡ false
unfolding revision_of
fresh_small = refl

expected_small : small_model.expected_revision ≡ some (revision_of unset)
unfolding revision_of
expected_small = refl

saved_now : (set_openrouter marking admin small_model unset).1 ≢ stale
unfolding set_openrouter revision_of
saved_now e = cc

fresh_large : is_stale large_model small_saved ≡ false
unfolding set_openrouter revision_of int str
fresh_large = refl

changes_large : changes_space large_model small_saved ≡ true
unfolding set_openrouter revision_of moresocial.Base.string_discrete
changes_large = refl

pending_large : HasPending large_staged (some "embed-large") (some (str 128)) (some plain_contract)
unfolding set_openrouter revision_of int str moresocial.Base.string_discrete
pending_large = (refl, refl, refl)

active_small : is_some (if_text (value_of small_saved embedding_model)) ≡ true
unfolding set_openrouter revision_of
active_small = refl

overtaken_save_example :
    set_openrouter marking admin small_model (run marking quiet small_saved)
    ≡ (run marking quiet small_saved, stale)
overtaken_save_example =
    overtaken_save marking admin small_model unset quiet admin small_model saved_now expected_small

run-active_model_example :
    active_model (run marking (save_call admin large_model ∷ quiet) small_saved)
    ≡ active_model small_saved
run-active_model_example =
    run-active_model marking (save_call admin large_model ∷ quiet) small_saved
      (refl, (refl, (refl, tt))) active_small

-- A poll with the database away, a change of another setting, and a poll with the database back.
abbrev later_moments : List Moment
later_moments =
    reloaded false false
    ∷ changed (cancel_call admin)
    ∷ reloaded false true
    ∷ reloaded true true
    ∷ []

disabled_stays_example :
    (pass_moments marking mounted later_moments (
      pass_moment marking mounted
        (reloaded true true)
        (disable admin small_saved, record { tier = none; operator_stamp = none }))).1.tier
    ≡ some no_tier
disabled_stays_example =
    disabled_stays marking mounted admin later_moments small_saved
      (record { tier = none; operator_stamp = none }) (refl, (refl, (refl, (refl, tt))))

saved_tier_example :
    operator_tier marking mounted (set_openrouter marking admin small_model unset).0
    ≡ tier_of small_model (revision_of unset + 1)
saved_tier_example =
    saved_tier marking mounted admin small_model unset refl (λ e. cc) (λ e. cc) (λ e. cc) (λ e. cc)
      (omega arith) fresh_small refl
