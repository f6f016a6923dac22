-- ===== src/Lib.antt =====
-- SKC library: a verification library of its key agent, its PKCS #11 API module and its key-server
-- protocol module.
--
-- A program asks the API module for the key behind a PKCS #11 URI (C_OnDemand_KeyLoad). The API
-- module asks the key agent, which finds a network protocol module (NPM) for the URL. The NPM
-- fetches the key from the key server; where the server wants an attested session first, the NPM
-- gets a challenge through the key agent's secure token module (STM), which gets it from the API
-- module's token, and creates a session from the server's answer. The key agent keeps sessions and
-- keys in tables, copies them to a database, and hands the wrapped key to the STM, which hands it
-- to the API module, which unwraps it into a token.
--
-- What models what:
--   Base, Base/*          lists, text, tables, tests: the names that all files share
--   Types, Details        key-agent/types.h, include/k_errors.h: enumerations, GError, the records
--                         that the parts exchange
--   Effect, Effect/Post   the effects: a state, the caller's error variable, and `none` for
--                         undefined behaviour (a read through NULL or past an object); what holds
--                         after an action, and what it keeps
--   Request, Request/*    key-agent/src/request.cpp
--   KeyAgent/State        the globals of namespace keyagent; quarks and pointers as hash keys
--   KeyAgent/Session, SwkType   key-agent/src/session.cpp
--   KeyAgent/Key          key-agent/src/key.cpp
--   KeyAgent/Cache, Cache/Keys, Database   key-agent/src/cache-session.cpp, cache-key.cpp
--   KeyAgent/Stm, Transfer   key-agent/stm/stm_init.cpp
--   KeyAgent/Load         key-agent/src/intf.cpp (_loadkey and keyagent_loadkey_with_moduledata)
--   Config                config-file/src/key_configfile.c
--   KeyAgent/Startup, Startup/Init   key-agent/src/intf.cpp (keyagent_init), the loading of modules
--                         in key-agent/stm/stm_init.cpp and key-agent/npm/npm_init.cpp
--   KeyAgent/Startup/Cache   key-agent/src/cache-init.cpp
--   KeyAgent/WellFormed   what the tables of the key agent promise, for every operation
--   KeyAgent/Steps        the key agent as a machine whose steps are the calls, in any order
--   KeyAgent/Session/View, Refines   the sessions as a map from identifiers to wrapping keys
--   Kms/*                 npm/kms/src/intf.cpp, on the key agent's operations (its start: Kms/Init)
--   Kms/Tame              the calls that npm/kms makes of the key agent, as steps of its state
--   SgxStm/*              stm/sgx/src/application_intf.cpp (its start: SgxStm/Init)
--   Pkcs11/Label, Uri, Token   api-module/pkcs11/src/utils.c
--   Pkcs11/Sgx            api-module/pkcs11/src/apimodule-sgx.cpp
--   Pkcs11/Dispatch, OnDemand, Start   api-module/pkcs11/src/pkcs11-apimodule.cpp
--   */Tests, KeyAgent/Fixture   runs at concrete inputs
--
-- A function of the source has a definition of its name, without `keyagent_` or the leading
-- underscores; the parts of a long function, one for each guard, have names of their own and say
-- which part they are.
--
-- Parameters, since their code is that of other libraries: libgda (Database), GLib's key files,
-- directories and shared objects (Config, KeyAgent/Startup), Cryptoki (a record of
-- calls that act on an outside world), libp11-kit's URI parser, JsonCpp, base64, the random numbers,
-- the HTTPS request that utils/curl.cpp makes through libcurl, and the shared objects (an NPM and an
-- STM are records of operations; those of npm/kms and stm/sgx are given).
--
-- Bounds and fuel: `__npm_loadkey` calls itself, and its model runs on fuel 3, which is one more
-- than the attempts that `tries` allows. A 32-bit counter wraps around; lengths and tag sizes of
-- KEYDATA are 32-bit words. All other loops are recursion on lists.
--
-- Not modelled: logging, freeing of memory (but in npm_finalize) and messages of errors;
-- utils/curl.cpp, which calls another library; key-agent/cli; SafeStringLibrary, another project's library; scripts and containers.
-- A lock guards each modelled call as a whole, so a call is one step.
pub mod Base
pub mod Types
pub mod Effect
pub mod Config
pub mod Details
pub mod Request
pub mod KeyAgent
pub mod SgxStm
pub mod Kms
pub mod Pkcs11
