-- ===== src/Settings/Changes.antt =====
-- The calls of app/operator_settings.py as data, and the revision that they advance.
use native.Mathlib.Nat.{le_refl}
use moresocial.Base.{
  true, false, ◌∙◌, ap, none, int-str, refl, arith, str, ◌+◌, some, ◌≤◌, ◌≡◌, int, ◌≢◌, ℕ, [],
  Option, Bool, ◌∷◌, String, List,
}
use moresocial.Settings.{
  save_unless, changes_space, is_stale, promote_found, promote, save, int_or_zero, if_text, stale,
  revision_of, set_provider, promote_pending, cancel_pending, remove_key, disable, record_test,
  Candidate, set_openrouter, Cipher, Author, Table,
}

pub data Change : Type 0 where
  save_call : Author → Candidate → Change
  test_call : Author → String → Bool → Option String → Change
  disable_call : Author → Change
  remove_key_call : Author → Change
  cancel_call : Author → Change
  promote_call : Author → Change

unfoldable pub after : Cipher → Change → Table → Table
after k (save_call a c) t = (set_openrouter k a c t).0
after k (test_call a at ok error) t = record_test a at ok error t
after k (disable_call a) t = disable a t
after k (remove_key_call a) t = remove_key a t
after k (cancel_call a) t = cancel_pending a t
after k (promote_call a) t = (promote_pending k a t).0

unfoldable pub run : Cipher → List Change → Table → Table
run k [] t = t
run k (c ∷ cs) t = run k cs (after k c t)

if_text-int : (s : String) (n : ℕ) → int s ≡ some n → if_text (some s) ≡ some s
unfolding int
if_text-int String.[] n e = cc
if_text-int (String.◌∷◌ c s) n e = refl

pub if_text-str : (n : ℕ) → if_text (some (str n)) ≡ some (str n)
if_text-str n = if_text-int (str n) n (int-str n)

int_or_zero-str : (n : ℕ) → int_or_zero (if_text (some (str n))) ≡ n
int_or_zero-str n =
    ap int_or_zero (if_text-str n) ∙ ap (λ o. elim o [ none ↦ 0 | some m ↦ m ]) (int-str n)

pub revision-save :
    (k : Cipher) (a : Author) (c : Candidate) (b : Bool) (t : Table)
    → revision_of (save k a c b t) ≡ revision_of t + 1
unfolding revision_of
revision-save k a c b t = int_or_zero-str _

pub revision-promote :
    (a : Author) (model dimension contract : String) (t : Table)
    → revision_of (promote a model dimension contract t) ≡ revision_of t + 1
unfolding revision_of
revision-promote a model dimension contract t = int_or_zero-str _

revision-set_openrouter :
    (k : Cipher) (a : Author) (c : Candidate) (t : Table)
    → revision_of t ≤ revision_of (set_openrouter k a c t).0
unfolding set_openrouter
revision-set_openrouter k a c t =
    elim (is_stale c t) as (λ b. revision_of t ≤ revision_of (save_unless k a c t b).0) [
      | true ↦ le_refl _
      | false ↦ omega (arith, revision-save k a c (changes_space c t) t)
    ]

revision-promote_found :
    (a : Author) (m d : Option String) (contract : String) (t : Table)
    → revision_of t ≤ revision_of (promote_found a m d contract t).0
revision-promote_found a none d contract t = le_refl _
revision-promote_found a (some m) none contract t = le_refl _
revision-promote_found a (some m) (some d) contract t =
    omega (arith, revision-promote a m d contract t)

revision-after : (k : Cipher) (c : Change) (t : Table) → revision_of t ≤ revision_of (after k c t)
unfolding after record_test disable set_provider remove_key cancel_pending promote_pending
    revision_of
revision-after k (save_call a c) t = revision-set_openrouter k a c t
revision-after k (test_call a at ok error) t = le_refl _
revision-after k (disable_call a) t = le_refl _
revision-after k (remove_key_call a) t = le_refl _
revision-after k (cancel_call a) t = le_refl _
revision-after k (promote_call a) t = revision-promote_found a _ _ _ t

revision-run :
    (k : Cipher) (cs : List Change) (t : Table) → revision_of t ≤ revision_of (run k cs t)
unfolding run
revision-run k [] t = le_refl _
revision-run k (c ∷ cs) t = omega (arith, revision-after k c t, revision-run k cs (after k c t))

set_openrouter-stale :
    (k : Cipher) (a : Author) (c : Candidate) (r : ℕ) (t : Table)
    → c.expected_revision ≡ some r
    → r ≢ revision_of t
    → set_openrouter k a c t ≡ (t, stale)
unfolding set_openrouter
set_openrouter-stale k a c r t e ne = ground arith

set_openrouter-advances :
    (k : Cipher) (a : Author) (c : Candidate) (t : Table)
    → (set_openrouter k a c t).1 ≢ stale
    → revision_of (set_openrouter k a c t).0 ≡ revision_of t + 1
unfolding set_openrouter
set_openrouter-advances k a c t =
    elim (is_stale c t)
      as (λ b.
        (save_unless k a c t b).1 ≢ stale
        → revision_of (save_unless k a c t b).0 ≡ revision_of t + 1) [
          | true ↦ λ ne. absurd (ne refl)
          | false ↦ λ ne. revision-save k a c (changes_space c t) t
        ]

-- Once a save has gone through, a save that was tested against the configuration before it is
-- refused and changes nothing, whatever calls come in between.
pub overtaken_save :
    (k : Cipher) (a : Author) (c : Candidate) (t : Table) (cs : List Change) (a' : Author)
    (c' : Candidate)
    → (set_openrouter k a c t).1 ≢ stale
    → c'.expected_revision ≡ some (revision_of t)
    → set_openrouter k a' c' (run k cs (set_openrouter k a c t).0)
      ≡ (run k cs (set_openrouter k a c t).0, stale)
overtaken_save k a c t cs a' c' ok e = set_openrouter-stale k a' c' (revision_of t) _ e (λ same.
    let advanced = set_openrouter-advances k a c t ok in
    let later = revision-run k cs (set_openrouter k a c t).0 in
    omega (arith, advanced, later, same))
