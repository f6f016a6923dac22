-- ===== src/Pkcs11/Sgx/Wrapping.antt =====
-- What loading a key does at an SGX token (api-module/pkcs11/src/apimodule-sgx.cpp).
use skc_library.Base.{
  ℕ, ◌*◌, ◌%◌, ◌^◌, ◌≡◌, refl, ap, ◌⊎◌, inl, inr, Bool, true, false, Option, none, some, List, Str,
  arith, bytes_eq, length, get_elem?, ◌==◌, c_str, is_some, if◌then◌else◌,
}
use skc_library.Base.Table.{lookup}
use skc_library.Types.{GError, Keytype, aeskey, rsakey, invalidkey}
use skc_library.Details.{LoadkeyDetails}
use skc_library.Effect.{pure, gets, raise, fault, ◌>>=◌}
use skc_library.Effect.Post.{Post, Post_apply, Post-if}
use skc_library.Pkcs11.Cryptoki.{Cryptoki, Template, ckk_aes, ckk_rsa, aes_gcm, ckr_ok}
use skc_library.Pkcs11.State.{Token, ApiModule, Api, need, ck, uri_at, lookup_apimodule_token}
use skc_library.Pkcs11.Uri.{UriData}
use skc_library.Pkcs11.Sgx.{
  aes_template, rsa_template, gcm, bad_input, with_token, unwrap_with, unwrap_for,
  sgx_unwrap_symmetric_key, sgx_unwrap_rsa_key, sgx_load_key,
}

-- The attributes of an AES key: a secret key (CKO_SECRET_KEY) of the session, which encrypts and
-- decrypts.
pub record IsAesKey (t : Template) : Type 0 where
  pub class : t.object_class ≡ 4
  pub kind : t.key_type ≡ ckk_aes
  pub encrypts : t.encrypt ≡ true
  pub signs : t.sign ≡ false
  pub on_token : t.token ≡ false

-- Those of an RSA key: a private key (CKO_PRIVATE_KEY) on the token, which signs and decrypts.
pub record IsRsaKey (t : Template) : Type 0 where
  pub class : t.object_class ≡ 3
  pub kind : t.key_type ≡ ckk_rsa
  pub encrypts : t.encrypt ≡ false
  pub signs : t.sign ≡ true
  pub on_token : t.token ≡ true

pub record IsPrivateKey (t : Template) : Type 0 where
  pub is_private : t.is_private ≡ true
  pub decrypts : t.decrypt ≡ true
  pub unwraps : t.unwrap ≡ true
  pub verifies : t.verify ≡ false
  pub wraps : t.wrap ≡ false

module _ {W : Type 0} (func_list : Cryptoki W) (details : LoadkeyDetails ℕ) (e : GError)
    (m : ApiModule W) where
  -- One call of C_UnwrapKey has loaded the key, and nothing else has changed.
  pub record Unwrapped (e' : GError) (m' : ApiModule W) : Type 0 where
    pub p : ℕ
    pub d : UriData
    pub t : Token
    pub name : Str
    pub iv : List ℕ
    pub template : Template
    pub handle : ℕ
    pub world : W
    pub pointed : details.module_data ≡ some p
    pub described : get_elem? m.frames p ≡ some d
    pub named : d.token_label ≡ some name
    pub known : lookup (c_str name) m.apimodule_token_hash ≡ some t
    pub vector : details.iv ≡ some iv
    pub label : d.key_label ≡ some template.label
    pub id : d.key_id ≡ some template.id
    pub kind :
        ((details.type ≡ aeskey) × IsAesKey template)
        ⊎ ((details.type ≡ rsakey) × IsRsaKey template)
    pub usage : IsPrivateKey template
    pub called :
        func_list.unwrap_key t.session
          (aes_gcm iv (length iv * 8 % 2 ^ 32) (details.tag_size * 8 % 2 ^ 64))
          t.wrappingkey_handle
          details.key
          template
          m.world
        ≡ ((0, handle), world)
    pub after : m' ≡ record m { world = world }
    pub clean : e' ≡ e

  Outcome : Bool → GError → ApiModule W → Type 0
  Outcome x e' b = (x ≡ true → Unwrapped e' b) × (x ≡ false → is_some e' ≡ true)

  refused : (w : W) → Post (Unit {0}) Outcome (bad_input false e (record m { world = w }))
  unfolding bad_input raise pure Post Outcome ◌>>=◌
  refused w = (λ wrong. absurd (ground (arith, wrong)), λ _. refl)

  -- A part of the details that must not be NULL.
  needed :
      {A : Type 0} (o : Option A) (k : A → Api W Bool)
      → ((x : A) → o ≡ some x → Post (Unit {0}) Outcome (k x e m))
      → Post (Unit {0}) Outcome ((need o >>= k) e m)
  unfolding need pure fault Post ◌>>=◌
  needed none k next = tt
  needed (some x) k next = next x refl

  -- A part of the state that may be missing.
  found :
      {A : Type 0} (o : Option A) (k : A → Api W Bool)
      → ((x : A) → o ≡ some x → Post (Unit {0}) Outcome (k x e m))
      → Post
          (Unit {0})
          Outcome
          ((elim o as (λ _. Api W Bool) [ none ↦ bad_input false | some x ↦ k x ]) e m)
  found none k next = refused m.world
  found (some x) k next = next x refl

  abbrev finish : ℕ → Api W Bool
  finish rv = if rv == ckr_ok then pure true else bad_input false

  needed_first :
      {A : Type 0} (o : Option A) (k : A → Api W ℕ)
      → ((x : A) → o ≡ some x → Post (Unit {0}) Outcome ((k x >>= finish) e m))
      → Post (Unit {0}) Outcome (((need o >>= k) >>= finish) e m)
  unfolding need pure fault Post ◌>>=◌
  needed_first none k next = tt
  needed_first (some x) k next = next x refl

  module _ (p : ℕ) (d : UriData) (name : Str) (t : Token) (pointed : details.module_data ≡ some p)
      (described : get_elem? m.frames p ≡ some d) (named : d.token_label ≡ some name)
      (known : lookup (c_str name) m.apimodule_token_hash ≡ some t) where
    called-Outcome :
        (template : Template)
        → d.key_label ≡ some template.label
        → d.key_id ≡ some template.id
        → ((details.type ≡ aeskey) × IsAesKey template)
          ⊎ ((details.type ≡ rsakey) × IsRsaKey template)
        → IsPrivateKey template
        → Post (Unit {0}) Outcome ((unwrap_with func_list template details t >>= finish) e m)
    unfolding unwrap_with ck gcm pure Post Outcome ◌>>=◌
    called-Outcome template label id kind usage = needed_first details.iv _ λ iv vector.
        let r =
          func_list.unwrap_key t.session
            (aes_gcm iv (length iv * 8 % 2 ^ 32) (details.tag_size * 8 % 2 ^ 64))
            t.wrappingkey_handle details.key template m.world in
        Post-if _ Outcome (r.0.0 == ckr_ok) _ _ e (record m { world = r.1 })
          (λ ok. (
            λ _. record {
              p = p;
              d = d;
              t = t;
              name = name;
              iv = iv;
              template = template;
              handle = r.0.1;
              world = r.1;
              pointed = pointed;
              described = described;
              named = named;
              known = known;
              vector = vector;
              label = label;
              id = id;
              kind = kind;
              usage = usage;
              called = ap (λ (rv : ℕ). ((rv, r.0.1), r.1)) (ground (arith, ok));
              after = refl;
              clean = refl;
            },
            λ wrong. absurd (ground (arith, wrong)),
          ))
          λ _. refused r.1

    unwrap_for-Outcome :
        (type : Keytype)
        → details.type ≡ type
        → Post (Unit {0}) Outcome ((unwrap_for func_list type details d t >>= finish) e m)
    unfolding unwrap_for sgx_unwrap_symmetric_key sgx_unwrap_rsa_key pure ◌>>=◌
    unwrap_for-Outcome aeskey typed = needed_first d.key_label _ λ label has_label.
        needed_first d.key_id _ λ id has_id.
          called-Outcome (aes_template label id) has_label has_id
            (inl (
              typed,
              record { class = refl; kind = refl; encrypts = refl; signs = refl; on_token = refl },
            ))
            (record {
              is_private = refl;
              decrypts = refl;
              unwraps = refl;
              verifies = refl;
              wraps = refl;
            })
    unwrap_for-Outcome rsakey typed = needed_first d.key_label _ λ label has_label.
        needed_first d.key_id _ λ id has_id.
          called-Outcome (rsa_template label id) has_label has_id
            (inr (
              typed,
              record { class = refl; kind = refl; encrypts = refl; signs = refl; on_token = refl },
            ))
            (record {
              is_private = refl;
              decrypts = refl;
              unwraps = refl;
              verifies = refl;
              wraps = refl;
            })
    unwrap_for-Outcome invalidkey typed = refused m.world

  load-Outcome :
      (o : Option ℕ)
      → details.module_data ≡ o
      → Post
          (Unit {0})
          Outcome
          (with_token false o (λ d t. unwrap_for func_list details.type details d t >>= finish) e m)
  unfolding with_token uri_at lookup_apimodule_token gets ◌>>=◌
  load-Outcome none pointed = refused m.world
  load-Outcome (some p) pointed = needed (get_elem? m.frames p) _ λ d described.
      found d.token_label _ λ name named.
        found (lookup (c_str name) m.apimodule_token_hash) _
          λ t known. unwrap_for-Outcome p d name t pointed described named known details.type refl

  -- If loading a key is TRUE, it was one call of C_UnwrapKey that returned CKR_OK, on the session of
  -- the token that the URI names: with the token's wrapping key, under AES GCM with the vector and
  -- the tag that came with the key (their lengths in bits, cut to 32 and to 64 bits), and for a
  -- private key under the label and the identifier of the URI with the attributes of its type; the
  -- world is as that call left it, and nothing else has changed. If it is FALSE, an error is set.
  pub sgx_load_key-Unwrapped :
      (x : Bool) (e' : GError) (m' : ApiModule W)
      → sgx_load_key func_list details e m ≡ some (x, e', m')
      → (x ≡ true → Unwrapped e' m') × (x ≡ false → is_some e' ≡ true)
  unfolding sgx_load_key Outcome
  sgx_load_key-Unwrapped x e' m' returned =
      Post_apply _ Outcome _ (load-Outcome details.module_data refl) returned
