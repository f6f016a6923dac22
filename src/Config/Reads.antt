-- ===== src/Config/Reads.antt =====
-- The two outcomes of every reading of a configuration file (config-file/src/key_configfile.c).
use skc_library.Base.{◌≡◌, refl, Bool, Option, none, some, Str}
use skc_library.Types.{GError, Error, ℤ, pos, g_propagate_error}
use skc_library.Config.{
  Reading, value, failed, KeyFile, of_bool, key_config_openfile, key_config_get_string,
  key_config_get_boolean,
}

-- A predicate on what a reading is turned into holds, where it holds of both outcomes.
on_reading :
    {A B : Type 0} (P : B → Type 0) (good : A → B) (bad : Error → B) (r : Reading A)
    → ((x : A) → r ≡ value x → P (good x))
    → ((x : Error) → r ≡ failed x → P (bad x))
    → P (elim r as (λ _. B) [ value x ↦ good x | failed x ↦ bad x ])
on_reading P good bad (value x) done broken = done x refl
on_reading P good bad (failed x) done broken = broken x refl

pub openfile-cases :
    (P : Option KeyFile × GError → Type 0) (load : Str → Reading KeyFile) (filename : Str)
    → ((kf : KeyFile) → load filename ≡ value kf → P (some kf, none))
    → ((x : Error) → load filename ≡ failed x → P (none, some x))
    → P (key_config_openfile load (some filename) none)
unfolding key_config_openfile
openfile-cases P load filename done broken =
    on_reading P (λ kf. (some kf, none)) (λ x. (none, g_propagate_error none (some x)))
      (load filename) done broken

pub get_string-cases :
    (P : Option Str × GError → Type 0) (kf : KeyFile) (section key : Str)
    → ((s : Str) → kf.text_of section key ≡ value s → P (some s, none))
    → ((x : Error) → kf.text_of section key ≡ failed x → P (none, some x))
    → P (key_config_get_string (some kf) section key none)
unfolding key_config_get_string
get_string-cases P kf section key done broken =
    on_reading P (λ s. (some s, none)) (λ x. (none, some x)) (kf.text_of section key) done broken

-- What a reading gives, where the key file is there.
pub text_of_reading :
    (kf : KeyFile) (section key : Str) (c : Option KeyFile) (r : Reading Str)
    → c ≡ some kf
    → kf.text_of section key ≡ r
    → key_config_get_string c section key none ≡ elim r as (λ _. Option Str × GError) [
      | value s ↦ (some s, none)
      | failed x ↦ (none, some x)
    ]
unfolding key_config_get_string
text_of_reading kf section key c r configured h = rw (configured, key_config_get_string, h) refl

pub boolean_of_reading :
    (kf : KeyFile) (section key : Str) (c : Option KeyFile) (r : Reading Bool)
    → c ≡ some kf
    → kf.boolean_of section key ≡ r
    → key_config_get_boolean c section key none
      ≡ elim r as (λ _. ℤ × GError) [ value b ↦ (of_bool b, none) | failed x ↦ (pos 0, some x) ]
unfolding key_config_get_boolean
boolean_of_reading kf section key c r configured h = rw (configured, key_config_get_boolean, h) refl
