-- ===== src/Pkcs11/Start/Ready.antt =====
-- What holds once the API module reports that it has started.
use skc_library.Base.{ℕ, ◌≡◌, Bool, true, none, some, Str, is_some, nat_eq}
use skc_library.Types.{GError}
use skc_library.Details.{ApimoduleOps}
use skc_library.Effect.{Effect}
use skc_library.Effect.Post.{Post}
use skc_library.KeyAgent.State.{gpointer_eq}
use skc_library.Pkcs11.Cryptoki.{ckr_ok}
use skc_library.Pkcs11.Start.{Loader, Host}
use skc_library.Pkcs11.Start.Serves.{Serves}

module _ {F D W : Type 0} where
  -- The API module has a function list, the key agent is started, and the STM that the mode names
  -- serves the API module.
  pub record IsReady (callbacks : ApimoduleOps D W) (h : Host F D W) : Type 0 where
    pub mode : Str
    pub named : h.mode ≡ some mode
    pub listed : is_some h.func_list ≡ true
    pub started : h.keyagent.error ≡ none
    pub serves : Serves mode callbacks h.keyagent.startup.agent

  -- What is claimed of the value that is returned.
  abbrev pub Reports : ApimoduleOps D W → ℕ → GError → Host F D W → Type 0
  Reports callbacks rv e b = rv ≡ ckr_ok → IsReady callbacks b

  module _ (loader : Loader F) where
    -- The registration leaves no error, and TRUE says that the API module is ready.
    Answers : ApimoduleOps D W → Bool × GError → GError → Host F D W → Type 0
    Answers callbacks r e b = (r.1 ≡ none) × (r.0 ≡ true → IsReady callbacks b)
