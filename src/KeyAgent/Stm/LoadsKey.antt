-- ===== src/KeyAgent/Stm/LoadsKey.antt =====
-- What the STM is handed when a key is loaded.
use skc_library.Base.{
  ℕ, ◌<◌, ◌≤◌, ◌≡◌, refl, Bool, false, some, List, Str, arith, bytes_eq, length, ltb, ◌∙◌,
}
use skc_library.Base.Table.{lookup}
use skc_library.Types.{GError}
use skc_library.Effect.{◌>>=◌}
use skc_library.KeyAgent.State.{gpointer_eq, Key, Agent, Action, Stm, Request, call, session_at}
use skc_library.KeyAgent.Cache.{keydata}
use skc_library.KeyAgent.SwkType.{lookup_swktype}
use skc_library.KeyAgent.Transfer.Layout.{pack, read_header-pack, read_parts-pack}
use skc_library.KeyAgent.Stm.{
  max_iv_length, stm_get_by_name, stm_load_key, load_key_found, load_key_held, load_keydata,
  load_transfer, unpack, hand_key,
}

short_iv : (n : ℕ) → n ≤ 64 → ltb max_iv_length n ≡ false
short_iv n h = ground arith

module _ {D W : Type 0} (rid : Str) (key : Key) (stm : Stm D W) (request : Request D) where
  -- The state in which a key's session, its STM, the STM's session and the request are there.
  pub record Ready (a : Agent D W) : Type 0 where
    pub own : ℕ
    pub held : ℕ
    pub has_session : key.session ≡ some own
    pub has_stm : stm_get_by_name a (session_at a own).name ≡ some stm
    pub has_request : lookup rid a.apimodule_loadkey_hash ≡ some request
    pub holds : stm.session ≡ some held

  reaches_keydata :
      (e : GError) (a : Agent D W) (r : Ready a)
      → stm_load_key rid key e a ≡ load_keydata rid key stm request r.held e a
  unfolding stm_load_key load_key_found load_key_held ◌>>=◌
  reaches_keydata e a r = rw (r.has_session, ◌>>=◌, r.has_stm, r.has_request, r.holds) refl

  -- What the STM's own load is called with.
  abbrev pub handed : Agent D W → ℕ → List ℕ → ℕ → List ℕ → Action D W Bool
  handed a held iv tag_size wrapped = call (
      stm.ops.load_key rid (lookup_swktype a.swk_type_hash (session_at a held).swk_type)
        a.apimodule_ops.load_key
        (record {
          label = stm.label;
          url = key.url;
          type = key.type;
          key = wrapped;
          iv = some iv;
          tag_size = tag_size;
          module_data = request.module_data;
        }))

  -- Where KEYDATA is laid out as an initialisation vector of 1 to 64 bytes, a tag size and a
  -- wrapped key, loading the key is one call of the STM with exactly these three, under the
  -- wrapping-key type of the session that the STM holds; nothing else changes.
  pub stm_load_key-handed :
      (e : GError) (a : Agent D W) (r : Ready a) (iv : List ℕ) (tag_size : ℕ) (wrapped : List ℕ)
      → lookup keydata key.attributes ≡ some (pack iv tag_size wrapped)
      → 0 < length iv
      → length iv ≤ max_iv_length
      → tag_size < 0x1_0000_0000
      → length wrapped < 0x1_0000_0000
      → stm_load_key rid key e a ≡ handed a r.held iv tag_size wrapped e a
  unfolding load_keydata load_transfer unpack hand_key ◌>>=◌
  stm_load_key-handed e a r iv tag_size wrapped found some_iv short ht hw =
      reaches_keydata e a r
      ∙ rw
          (
            load_keydata,
            found,
            read_header-pack iv tag_size wrapped (omega arith) ht hw,
            load_transfer,
            short_iv (length iv) short,
            unpack,
            read_parts-pack iv tag_size wrapped
                (record { iv_length = length iv; tag_size = tag_size; wrap_size = length wrapped })
                some_iv refl refl refl,
          )
          refl
