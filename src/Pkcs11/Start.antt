-- ===== src/Pkcs11/Start.antt =====
-- api-module/pkcs11/src/pkcs11-apimodule.cpp: how the API module loads the Cryptoki module and starts
-- the key agent. The dynamic loader and the environment are parameters; `none` of an effect is the
-- message of an error that is NULL.
pub mod Serves
pub mod Lifts
pub mod Loads
pub mod Ready
pub mod Once
mod Tests
use skc_library.Base.{
  ℕ, Bool, true, false, not, ◌==◌, ◌||◌, Option, none, some, List, [], ◌∷◌, ◌++◌, Str, codes,
  is_some, if◌then◌else◌, beq_bytes, nat_eq,
}
use skc_library.Base.Table.{Table, lookup, insert}
use skc_library.Types.{
  GError, Error, ℤ, pos, Call, keyagent_error, apimodule_invalid_input, apimodule_api_return_error,
}
use skc_library.Config.{
  KeyFile, Reading, is_true, key_config_openfile, key_config_get_boolean_optional,
  key_config_get_string, key_config_get_string_optional,
}
use skc_library.Details.{ApimoduleOps}
use skc_library.Effect.{Effect, pure, fault, gets, modify, set_error, own_error, ◌>>=◌, ◌>>◌}
use skc_library.KeyAgent.State.{Agent, Action}
use skc_library.KeyAgent.Load.{apimodule_register}
use skc_library.KeyAgent.Startup.{System, Startup}
use skc_library.KeyAgent.Startup.Cache.{Connection}
use skc_library.KeyAgent.Startup.Init.{Started, keyagent_init}
use skc_library.KeyAgent.Database.{Gda}
use skc_library.Pkcs11.Cryptoki.{
  ckr_ok, ckr_general_error, ckr_arguments_bad, ckr_cryptoki_already_initialized,
}

-- A function list, and which of its two entries are those of the API module.
pub record FunctionList (F : Type 0) : Type 0 where
  pub entries : F
  pub own_initialize : Bool
  pub own_finalize : Bool

-- The dynamic loader: modules by name, and what their symbols are. `get_function_list` is `none`
-- where the symbol is missing; otherwise it is what the call returns.
pub record Loader (F : Type 0) : Type 0 where
  pub module_open : Str → Option ℕ
  pub get_function_list : ℕ → Option (ℕ × F)
  pub has_initialize : ℕ → Bool
  pub has_finalize : ℕ → Bool

-- The static variables of the API module, and the key agent under it.
pub record Host (F D W : Type 0) : Type 0 where
  pub module_hash : Table ℕ ℕ
  pub closed : List ℕ
  pub c_initialize : Option ℕ
  pub c_finalize : Option ℕ
  pub func_list : Option (FunctionList F)
  pub mode : Option Str
  pub loadable_module : Option Str
  pub pre_load_keyfile : Option Str
  pub ops : Option (ApimoduleOps D W)
  pub keyagent : Started D W
  pub once : Bool
  pub once_rv : ℕ
  pub at_fork : Bool

unfoldable pub is_sgx : Option Str → Bool
is_sgx none = false
is_sgx (some s) = beq_bytes s (codes "SGX")

module _ {D W : Type 0} where
  -- A function of the key agent on its tables.
  unfoldable pub on_tables : {A : Type 0} → Action D W A → Effect (Started D W) A
  on_tables m e st = elim (m e st.startup.agent) [
    | none ↦ none
    | some (x, e', a) ↦ some (x, e', record st { startup = record st.startup { agent = a } })
  ]

module _ {F D W : Type 0} where
  -- `k_critical_error`, and `k_critical_msg` of an error's message.
  unfoldable pub report_error : GError → Effect (Host F D W) (Unit {0})
  report_error none = fault
  report_error (some x) = pure tt

  unfoldable pub fail_with : GError → Effect (Host F D W) ℕ
  fail_with e = do report_error e; pure ckr_general_error

  -- A function of the library that works on an error variable alone.
  unfoldable pub with_error : {A : Type 0} → (GError → A × GError) → Effect (Host F D W) A
  with_error f e h = let (x, e') = f e in some (x, e', h)

  -- A function of the key agent.
  unfoldable pub on_keyagent : {A : Type 0} → Effect (Started D W) A → Effect (Host F D W) A
  on_keyagent m e h = elim (m e h.keyagent) [
    | none ↦ none
    | some (x, e', k) ↦ some (x, e', record h { keyagent = k })
  ]

  unfoldable pub no_api : Effect (Host F D W) (Bool × Option (ApimoduleOps D W))
  no_api = do set_error (keyagent_error apimodule_api_return_error); pure (false, none)

  module _ (loader : Loader F) where
    -- apimodule_unload_module. A module stays in the table; `g_module_close` is never negative.
    unfoldable pub apimodule_unload_module : ℕ → Effect (Host F D W) ℕ
    apimodule_unload_module mod' = do
      found ← gets (λ h. lookup mod' h.module_hash)
      elim found as (λ _. Effect (Host F D W) ℕ) [
        | none ↦ pure ckr_arguments_bad
        | some m ↦ do modify λ h. record h { closed = m ∷ h.closed }; pure ckr_ok
      ]

    -- The entries of the function list that the module itself implements are replaced, and its own
    -- are kept; `g_module_symbol` gives NULL for a symbol that is missing.
    unfoldable pub take_entries : ℕ → Host F D W → Host F D W
    take_entries mod' h = record h {
      c_initialize = if loader.has_initialize mod' then some mod' else none;
      c_finalize = if loader.has_finalize mod' then some mod' else none;
    }

    unfoldable pub give_up : ℕ → ℕ → Effect (Host F D W) (ℕ × Option (FunctionList F))
    give_up mod' rv = do apimodule_unload_module mod'; pure (rv, none)

    unfoldable pub take_module :
        ℕ → Option (ℕ × F) → Effect (Host F D W) (ℕ × Option (FunctionList F))
    take_module mod' none = give_up mod' ckr_general_error
    take_module mod' (some (rv, entries)) =
        if rv == ckr_ok
        then (do
          modify (take_entries mod')
          pure (
            ckr_ok,
            some (record {
              entries = entries;
              own_initialize = loader.has_initialize mod';
              own_finalize = loader.has_finalize mod';
            }),
          ))
        else give_up mod' rv

    -- apimodule_load_module, with the function list that it writes through its pointer.
    unfoldable pub apimodule_load_module : Str → Effect (Host F D W) (ℕ × Option (FunctionList F))
    apimodule_load_module name =
        elim (loader.module_open name) as (λ _. Effect (Host F D W) (ℕ × Option (FunctionList F))) [
          | none ↦ pure (ckr_general_error, none)
          | some mod' ↦ do
            modify λ h. record h { module_hash = insert mod' mod' h.module_hash }
            take_module mod' (loader.get_function_list mod')
        ]

    module _ (load_file : Str → Reading KeyFile) (conf_path : Str) (conf_variable : Option Str)
        (system : System D W) (connection : Connection W) (gda : Gda W) (pkgdata : Str)
        (callbacks : ApimoduleOps D W) where
      -- From `keyagent_apimodule_register` on. A registration that fails leaves no error.
      unfoldable pub register_with_keyagent : Str → Effect (Host F D W) ℕ
      register_with_keyagent mode = do
        done ← own_error (on_keyagent (on_tables (apimodule_register (some mode) callbacks)))
        if done.0 then pure ckr_ok else (do report_error done.1; pure 0)

      -- From `keyagent_init` on.
      unfoldable pub start_keyagent : Str → Str → Effect (Host F D W) ℕ
      start_keyagent conf mode = do
        started ← own_error (on_keyagent (keyagent_init system connection gda pkgdata (some conf)))
        if started.0 then register_with_keyagent mode else fail_with started.1

      -- From the loading of the Cryptoki module on.
      unfoldable pub start_module : Str → Str → Str → Effect (Host F D W) ℕ
      start_module conf mode module_name = do
        loaded ← apimodule_load_module module_name
        if loaded.0 == ckr_ok
            then (do modify λ h. record h { func_list = loaded.1 }; start_keyagent conf mode)
            else pure loaded.0

      -- A text of the configuration that has to be there.
      unfoldable pub read_text :
          KeyFile → Str → Str → (Str → Effect (Host F D W) ℕ) → Effect (Host F D W) ℕ
      read_text config section key k = do
        read ← own_error (with_error (key_config_get_string (some config) section key))
        elim read.0 as (λ _. Effect (Host F D W) ℕ) [ none ↦ fail_with read.1 | some s ↦ k s ]

      unfoldable pub read_settings : KeyFile → Effect (Host F D W) ℕ
      read_settings config = read_text config (codes "core") (codes "keyagent_conf") λ conf.
          read_text config (codes "core") (codes "mode") λ mode. do
            modify λ h. record h { mode = some mode }
            read_text config mode (codes "module") λ module_name. do
              modify λ h. record h {
                loadable_module = some module_name;
                pre_load_keyfile =
                    key_config_get_string_optional (some config) (codes "core")
                      (codes "preload_keys") (codes "NIL");
              }
              start_module conf mode module_name

      abbrev pub config_filename : Str
      config_filename = elim conf_variable [
        | none ↦ conf_path ++ codes "/pkcs11-apimodule.ini"
        | some f ↦ f
      ]

      -- apimodule_init
      unfoldable pub apimodule_init : Effect (Host F D W) ℕ
      apimodule_init = do
        modify λ h. record h { module_hash = []; ops = some callbacks }
        opened ← own_error (with_error (key_config_openfile load_file (some config_filename)))
        elim opened.0 as (λ _. Effect (Host F D W) ℕ) [
          | none ↦ fail_with opened.1
          | some config ↦ read_settings config
        ]

      -- The part of `C_GetFunctionList` that runs once; under the mode SGX a handler is left for
      -- child processes.
      unfoldable pub init_once : Effect (Host F D W) (Unit {0})
      init_once = do
        done ← gets (λ h. h.once)
        if done then pure tt else (do
          rv ← apimodule_init
          modify λ h. record h { once = true; once_rv = rv; at_fork = is_sgx h.mode })

      -- C_GetFunctionList, with what it writes through its pointer.
      unfoldable pub c_getfunctionlist : Effect (Host F D W) (ℕ × Option (FunctionList F))
      c_getfunctionlist = do init_once; gets (λ h. (h.once_rv, h.func_list))

      -- apimodule_initialize, with the operations that it writes through its pointer. `initialize`
      -- is C_Initialize; the first argument says whether the pointer is NULL.
      unfoldable pub apimodule_initialize :
          Bool → Effect (Host F D W) ℕ → Effect (Host F D W) (Bool × Option (ApimoduleOps D W))
      apimodule_initialize true initialize = do
        set_error (keyagent_error apimodule_invalid_input)
        pure (false, none)
      apimodule_initialize false initialize = do
        listed ← c_getfunctionlist
        if not (listed.0 == ckr_ok) then no_api else (do
          rv ← initialize
          if rv == ckr_ok || rv == ckr_cryptoki_already_initialized
              then (do ops ← gets (λ h. h.ops); pure (true, ops))
              else no_api)
