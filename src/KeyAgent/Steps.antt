-- ===== src/KeyAgent/Steps.antt =====
-- The key agent (key-agent/src, key-agent/stm) as a machine whose steps are the calls of its
-- functions by the API module, by the NPMs and by itself, in any order; each call is guarded as a
-- whole by a lock, and a call that ends by reading outside an object has no step.
mod Tests
use skc_library.Base.{ℕ, ◌<◌, ◌≡◌, Bool, Option, none, some, List, [], Str, length, false}
use skc_library.Base.Table.{lookup}
use skc_library.Types.{GError, Keytype, negsuc}
use skc_library.Details.{ApimoduleOps}
use skc_library.Effect.Post.{Post, Post_apply, Post-ends}
use skc_library.KeyAgent.State.{gpointer_eq, Gpointer, quark, Key, Attributes, Agent, Stm}
use skc_library.KeyAgent.Database.{Gda}
use skc_library.KeyAgent.Cache.{cache_loadsessions, key_lookup}
use skc_library.KeyAgent.Cache.Keys.{cache_loadkeys}
use skc_library.KeyAgent.Key.{key_create, session_lookup, key_remove_by_session}
use skc_library.KeyAgent.Stm.{stm_get_challenge, stm_load_key, stm_get_by_name}
use skc_library.KeyAgent.SwkType.{lookup_swktype}
use skc_library.KeyAgent.Session.{session_create}
use skc_library.KeyAgent.Session.Creates.{Stored, session_create-Stored}
use skc_library.KeyAgent.Load.{Npm, apimodule_register, loadkey_with_moduledata}
use skc_library.KeyAgent.WellFormed.{IsWellFormed, Preserves, Stays}
use skc_library.KeyAgent.WellFormed.Caches.{cache_loadsessions-Preserves, cache_loadkeys-Preserves}
use skc_library.KeyAgent.WellFormed.Keys.{key_create-Preserves, key_remove_by_session-nothing}
use skc_library.KeyAgent.WellFormed.Sessions.{session_create-Preserves}
use skc_library.KeyAgent.WellFormed.Stms.{stm_get_challenge-Preserves}
use skc_library.KeyAgent.WellFormed.Loads.{stm_load_key-Preserves, apimodule_register-Preserves}
use skc_library.KeyAgent.WellFormed.Npms.{AllTame, loadkey_with_moduledata-Stays}

module _ {D W : Type 0} (gda : Gda W) (random_int : W → ℕ × W) where
  -- One call that ends, under an error variable with any content, and what others do to the world.
  pub data Step (a b : Agent D W) : Type 0 where
    creates_session :
        (rid label sid : Str) (swk : List ℕ) (type : Str) (e e' : GError) (x : Bool)
        → session_create gda rid label sid swk type e a ≡ some (x, e', b)
        → Step a b
    creates_key :
        (url : Str) (type : Keytype) (attrs : Option Attributes) (sid : Option Str) (e e' : GError)
        (q : Option Str)
        → key_create gda url type attrs sid e a ≡ some (q, e', b)
        → Step a b
    asks_challenge :
        (rid : Str) (nonce : List ℕ) (name : Str) (e e' : GError) (x : Bool × Option (List ℕ))
        → stm_get_challenge rid nonce name e a ≡ some (x, e', b)
        → Step a b
    hands_key :
        (rid : Str) (key : Key) (e e' : GError) (x : Bool)
        → stm_load_key rid key e a ≡ some (x, e', b)
        → Step a b
    registers :
        (label : Option Str) (ops : ApimoduleOps D W) (e e' : GError) (x : Bool)
        → apimodule_register label ops e a ≡ some (x, e', b)
        → Step a b
    restores_sessions :
        (e e' : GError) (x : Bool) → cache_loadsessions gda e a ≡ some (x, e', b) → Step a b
    restores_keys : (e e' : GError) (x : Bool) → cache_loadkeys gda e a ≡ some (x, e', b) → Step a b
    loads :
        (npms : List (Npm D W)) (url : Str) (md : Option D) (e e' : GError) (x : Bool)
        → AllTame npms
        → loadkey_with_moduledata random_int npms url md e a ≡ some (x, e', b)
        → Step a b
    elsewhere : (w : W) → b ≡ record a { world = w } → Step a b

  pub data Reach (a : Agent D W) : Agent D W → Type 0 where
    here : Reach a a
    next : {b c : Agent D W} → Reach a b → Step b c → Reach a c

  of_call :
      {A : Type 0} (m : Option (A × GError × Agent D W)) (a b : Agent D W) (x : A) (e : GError)
      → Post (Unit {0}) (λ _ _ c. Preserves a c) m
      → m ≡ some (x, e, b)
      → IsWellFormed a
      → IsWellFormed b
  of_call m a b x e keeps returned v =
      (Post_apply _ (λ _ _ c. Preserves a c) m keeps returned).kept v

  Step-IsWellFormed : (a b : Agent D W) → Step a b → IsWellFormed a → IsWellFormed b
  Step-IsWellFormed a b (creates_session rid label sid swk type e e' x r) v =
      of_call _ a b x e' (session_create-Preserves gda rid label sid swk type e a v) r v
  Step-IsWellFormed a b (creates_key url type attrs sid e e' q r) v =
      of_call _ a b q e' ((key_create-Preserves gda url type attrs sid).at e a) r v
  Step-IsWellFormed a b (asks_challenge rid nonce name e e' x r) v =
      of_call _ a b x e' ((stm_get_challenge-Preserves rid nonce name).at e a) r v
  Step-IsWellFormed a b (hands_key rid key e e' x r) v =
      of_call _ a b x e' ((stm_load_key-Preserves rid key).at e a) r v
  Step-IsWellFormed a b (registers label ops e e' x r) v =
      of_call _ a b x e' ((apimodule_register-Preserves label ops).at e a) r v
  Step-IsWellFormed a b (restores_sessions e e' x r) v =
      of_call _ a b x e' ((cache_loadsessions-Preserves gda).at e a) r v
  Step-IsWellFormed a b (restores_keys e e' x r) v =
      of_call _ a b x e' ((cache_loadkeys-Preserves gda).at e a) r v
  Step-IsWellFormed a b (loads npms url md e e' x tame r) v =
      (Post_apply _ (λ _ _ c. Stays a c) _
          ((loadkey_with_moduledata-Stays random_int npms url md tame).at e a) r).kept
        v
  Step-IsWellFormed a b (elsewhere w r) v =
      rw r (record { sessions = v.sessions; keys = v.keys; stms = v.stms })

  -- In every state that the calls lead to from a well-formed one, whatever their order, arguments,
  -- errors and callbacks, each session is filed under its identifier, each key under its URL and
  -- each STM under its label, and every pointer to a session that the tables, the keys and the STMs
  -- hold is in range; NPMs are asked to work through these calls only.
  pub Reach-IsWellFormed : (a b : Agent D W) → Reach a b → IsWellFormed a → IsWellFormed b
  Reach-IsWellFormed a _ here v = v
  Reach-IsWellFormed a _ (next {b} {c} r s) v = Step-IsWellFormed b c s (Reach-IsWellFormed a b r v)

  -- From every state that the calls lead to, while sessions are not cached, one more call creates
  -- the session that is asked for, if its wrapping-key type is supported and its STM is loaded: the
  -- call comes to an end, and the session is then found with its wrapping key.
  pub Reach-Stored :
      (rid label sid type t : Str) (swk : List ℕ) (stm : Stm D W) (a b : Agent D W)
      → Reach a b
      → IsWellFormed a
      → lookup_swktype b.swk_type_hash type ≡ some t
      → stm_get_by_name b label ≡ some stm
      → b.cache_sessions ≡ false
      → (c : Agent D W) × Step b c × Stored gda sid swk c
  unfolding session_create session_lookup
  Reach-Stored rid label sid type t swk stm a b r v known loaded off =
      let w : IsWellFormed b = Reach-IsWellFormed a b r v in
      let run =
        Post-ends _ _ _ (λ on. cc)
          (session_create-Stored gda rid label sid type t swk (negsuc 0) stm none b known loaded
            λ p found. (w.sessions (quark sid) p found).0) in
      (run.2, creates_session rid label sid swk type none run.1 run.0 run.3, run.4)
