-- ===== src/AiKeys/Examples.antt =====
-- Keys of app/ai_keys.py.
use moresocial.AiKeys.Saved.{save-Stored, Stored}
use moresocial.Base.{refl, ◌∷◌, text_append, some, ◌≡◌, false, map, String, ℕ, []}
use moresocial.AiKeys.{
  invalid_key, wrong_provider, answered, Services, openai, anthropic, save, KeyStore,
}

abbrev demo_services : ℕ → Services
demo_services status = record {
  strip = λ s. s;
  is_bad = λ c. false;
  digest = λ s. s;
  encrypt = λ s. text_append "enc:" s;
  validate = λ p key. answered status;
}

abbrev no_keys : KeyStore
no_keys = record { connections = []; jobs = []; preferences = [] }

abbrev good_key : String
good_key = "sk-ant-0123456789abcdef"

stored_key :
    map
      (λ c. c.access_token_enc)
      (save (demo_services 200) 9 1 anthropic good_key no_keys).1.connections
    ≡ some "enc:sk-ant-0123456789abcdef" ∷ []
unfolding save
stored_key = refl

refused_key : (save (demo_services 401) 9 1 anthropic good_key no_keys).0 ≡ some invalid_key
unfolding save
refused_key = refl

wrong_key : (save (demo_services 200) 9 1 openai good_key no_keys).0 ≡ some wrong_provider
unfolding save
wrong_key = refl

save-Stored_example :
    Stored
      (demo_services 200)
      1
      anthropic
      good_key
      no_keys
      (save (demo_services 200) 9 1 anthropic good_key no_keys)
save-Stored_example = save-Stored (demo_services 200) 9 1 anthropic good_key no_keys
