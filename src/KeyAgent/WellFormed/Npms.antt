-- ===== src/KeyAgent/WellFormed/Npms.antt =====
-- Loading a key through the network protocol modules (key-agent/src/intf.cpp) keeps the state well
-- formed, if the modules do.
use skc_library.Base.{
  ℕ, Bool, true, false, Option, none, some, List, [], ◌∷◌, Str, bytes_eq, is_some, if◌then◌else◌,
}
use skc_library.Base.Table.{remove}
use skc_library.Types.{GError}
use skc_library.KeyAgent.State.{Agent, Key, Request}
use skc_library.KeyAgent.Cache.{key_lookup}
use skc_library.KeyAgent.Stm.{put_request}
use skc_library.KeyAgent.Load.{
  Npm, KeyloadDetails, fresh_request_id, propagate, load_found, load_through, loadkey, find_npm,
  load_missing, loadkey_with_moduledata, url_lacks_tokens,
}
use skc_library.KeyAgent.WellFormed.Stms.{put_request-Preserves}
use skc_library.Effect.{Effect, pure, fault, gets, modify, ◌>>=◌}
use skc_library.Effect.Post.{
  Post, Keeps, Keeps-bind, Keeps-modify, Keeps-pure, Keeps-gets, Keeps-own_error, Keeps-if,
}
use skc_library.KeyAgent.WellFormed.{Stays, Stays-frame, Keeps-Stays, stays_rules}
use skc_library.KeyAgent.WellFormed.Loads.{stm_load_key-Preserves}

module _ {D W : Type 0} where
  -- What the key agent asks of a network protocol module, which works on it through callbacks.
  pub record IsTame (npm : Npm D W) : Type 0 where
    pub registers : (url : Str) → Keeps (Unit {0}) Stays (npm.register url)
    pub loads : (details : KeyloadDetails) → Keeps (Unit {0}) Stays (npm.key_load details)

  abbrev pub AllTame : List (Npm D W) → Type 0
  AllTame [] = Unit
  AllTame (npm ∷ npms) = IsTame npm × AllTame npms

  module _ (random_int : W → ℕ × W) where
    fresh_request_id-Stays : Keeps (Unit {0}) Stays (fresh_request_id {D = D} random_int)
    unfolding fresh_request_id Post
    fresh_request_id-Stays = record {
      at = λ e a. record {
        kept = λ v. record { sessions = v.sessions; keys = v.keys; stms = v.stms };
      };
    }

    propagate-Stays : (src : GError) → Keeps (Unit {0}) Stays (propagate {D = D} random_int src)
    unfolding propagate Post
    propagate-Stays src = record { at = λ e a. Stays-frame.same a }

    forget_request-Stays :
        (id : Str)
        → Keeps (Unit {0}) Stays (
            modify (λ (a : Agent D W). record a {
              apimodule_loadkey_hash = remove id a.apimodule_loadkey_hash;
            }))
    forget_request-Stays id =
        Keeps-modify Stays-frame _
          λ a. record { kept = λ v. record { sessions = v.sessions; keys = v.keys; stms = v.stms } }

    load_found-Stays :
        (rid : Str) (tmp : GError) (key : Option Key)
        → Keeps (Unit {0}) Stays (load_found {D = D} random_int rid tmp key)
    unfolding load_found
    load_found-Stays rid (some x) key = search stays_rules
    load_found-Stays rid none none = search stays_rules
    load_found-Stays rid none (some key) =
        Keeps-own_error Stays-frame _ (Keeps-Stays _ (stm_load_key-Preserves rid key))

    add_request-Stays :
        (id : Str) (r : Request D) → Keeps (Unit {0}) Stays (modify (put_request {W = W} id r))
    add_request-Stays id r = Keeps-Stays _ (put_request-Preserves id r)

    load_through-Stays :
        (npm : Npm D W) (url : Str) (md : Option D) (tmp : GError)
        → IsTame npm
        → Keeps (Unit {0}) Stays (load_through random_int npm url md tmp)
    unfolding load_through
    load_through-Stays npm url md tmp tame =
        search
          (
            stays_rules, fresh_request_id-Stays, propagate-Stays, forget_request-Stays,
            load_found-Stays, add_request-Stays, tame.loads,
          )
          depth 12

    loadkey-Stays :
        (url : Str) (md : Option D) (npm : Npm D W)
        → IsTame npm
        → Keeps (Unit {0}) Stays (loadkey random_int url md npm)
    unfolding loadkey
    loadkey-Stays url md npm tame = search (stays_rules, load_through-Stays, tame.registers) depth 9

    find_npm-Stays :
        (url : Str) (md : Option D) (npms : List (Npm D W))
        → AllTame npms
        → Keeps (Unit {0}) Stays (find_npm random_int url md npms)
    unfolding find_npm
    find_npm-Stays url md [] tame = search stays_rules
    find_npm-Stays url md (npm ∷ npms) tame =
        Keeps-bind Stays-frame _ _ (loadkey-Stays url md npm tame.0) λ found.
          Keeps-if Stays-frame found _ _ (search stays_rules) (find_npm-Stays url md npms tame.1)

    load_missing-Stays :
        (url : Str) (md : Option D) (npms : List (Npm D W))
        → AllTame npms
        → Keeps (Unit {0}) Stays (load_missing random_int url md npms)
    unfolding load_missing
    load_missing-Stays url md npms tame = search (stays_rules, find_npm-Stays) depth 8

    pub loadkey_with_moduledata-Stays :
        (npms : List (Npm D W)) (url : Str) (md : Option D)
        → AllTame npms
        → Keeps (Unit {0}) Stays (loadkey_with_moduledata random_int npms url md)
    unfolding loadkey_with_moduledata
    loadkey_with_moduledata-Stays npms url md tame = go (url_lacks_tokens url)
      where
        go :
            (o : Option Bool)
            → Keeps (Unit {0}) Stays (elim o as (λ _. Effect (Agent D W) Bool) [
              | none ↦ fault
              | some true ↦ pure false
              | some false ↦ do
                key ← gets (λ a. key_lookup a url)
                if is_some key then pure true else load_missing random_int url md npms
            ])
        go none = search stays_rules
        go (some true) = search stays_rules
        go (some false) = Keeps-bind Stays-frame _ _ (Keeps-gets Stays-frame _) λ key.
            Keeps-if Stays-frame (is_some key) _ _ (Keeps-pure Stays-frame true)
              (load_missing-Stays url md npms tame)
