-- ===== src/KeyAgent/WellFormed/Loads.antt =====
-- Loading keys (key-agent/src/intf.cpp, key-agent/stm/stm_init.cpp) keeps the tables well formed.
use skc_library.Base.{ℕ, Option, none, some, List, Str, bytes_eq}
use skc_library.Base.Table.{lookup}
use skc_library.Details.{ApimoduleOps}
use skc_library.KeyAgent.State.{Agent, Key, Stm, Request}
use skc_library.KeyAgent.Cache.{keydata}
use skc_library.KeyAgent.Transfer.{KeyTransfer, read_header}
use skc_library.KeyAgent.Stm.{
  read_parts, unpack, load_transfer, load_keydata, load_key_held, load_key_found, no_loadkey,
  hand_key, stm_load_key,
}
use skc_library.KeyAgent.Load.{apimodule_register}
use skc_library.KeyAgent.WellFormed.{Preserves, Preserves-frame, Grows-refl}
use skc_library.KeyAgent.WellFormed.Stms.{sessions_base, stm_apimodule_enable-Preserves}
use skc_library.Effect.{modify}
use skc_library.Effect.Post.{Keeps, Keeps-bind, Keeps-option, Keeps-modify, Keeps-fault}

module _ {D W : Type 0} where
  ruleset load_rules = (sessions_base, Keeps-fault)

  unpack-Preserves :
      (bytes : List ℕ) (t : KeyTransfer)
      → Keeps (Unit {0}) Preserves (unpack {D = D} {W = W} bytes t)
  unfolding unpack
  unpack-Preserves bytes t =
      Keeps-option Preserves-frame (read_parts bytes t) _ _ (search load_rules)
        λ parts. search load_rules

  load_transfer-Preserves :
      (rid : Str) (key : Key) (stm : Stm D W) (r : Request D) (p : ℕ) (bytes : List ℕ)
      (t : KeyTransfer)
      → Keeps (Unit {0}) Preserves (load_transfer rid key stm r p bytes t)
  unfolding load_transfer hand_key no_loadkey
  load_transfer-Preserves rid key stm r p bytes t = search (load_rules, unpack-Preserves) depth 8

  load_keydata-Preserves :
      (rid : Str) (key : Key) (stm : Stm D W) (r : Request D) (p : ℕ)
      → Keeps (Unit {0}) Preserves (load_keydata rid key stm r p)
  unfolding load_keydata
  load_keydata-Preserves rid key stm r p =
      Keeps-option Preserves-frame (lookup keydata key.attributes) _ _ (search load_rules) λ bytes.
        Keeps-option Preserves-frame (read_header bytes) _ _ (search load_rules)
          λ t. load_transfer-Preserves rid key stm r p bytes t

  load_key_found-Preserves :
      (rid : Str) (key : Key) (stm : Option (Stm D W)) (r : Option (Request D))
      → Keeps (Unit {0}) Preserves (load_key_found rid key stm r)
  unfolding load_key_found load_key_held no_loadkey
  load_key_found-Preserves rid key none r = search load_rules
  load_key_found-Preserves rid key (some stm) none = search load_rules
  load_key_found-Preserves rid key (some stm) (some r) = held stm.session
    where
      held : (p : Option ℕ) → Keeps (Unit {0}) Preserves (load_key_held rid key stm r p)
      held none = search load_rules
      held (some p) = load_keydata-Preserves rid key stm r p

  pub stm_load_key-Preserves :
      (rid : Str) (key : Key) → Keeps (Unit {0}) Preserves (stm_load_key {D = D} {W = W} rid key)
  unfolding stm_load_key
  stm_load_key-Preserves rid key =
      Keeps-option Preserves-frame key.session _ _ (search load_rules)
        λ q. search (load_rules, load_key_found-Preserves) depth 8

  pub apimodule_register-Preserves :
      (label : Option Str) (ops : ApimoduleOps D W)
      → Keeps (Unit {0}) Preserves (apimodule_register label ops)
  unfolding apimodule_register
  apimodule_register-Preserves label ops = Keeps-bind Preserves-frame _ _ set_ops λ _.
      Keeps-option Preserves-frame label _ _ (search load_rules)
        λ l. stm_apimodule_enable-Preserves l
    where
      set_ops :
          Keeps (Unit {0}) Preserves (modify (λ (a : Agent D W). record a { apimodule_ops = ops }))
      set_ops = Keeps-modify Preserves-frame _ λ a. record {
        grows = Grows-refl a.heap;
        kept = λ v. record { sessions = v.sessions; keys = v.keys; stms = v.stms };
      }
