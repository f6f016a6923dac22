-- ===== src/Pkcs11/State.antt =====
-- The state of the API module (api-module/pkcs11/src/pkcs11-apimodule.cpp, internal.h): the tokens
-- that are logged in, and the URI descriptions on the stack of the loads under way, which the key
-- agent's `module_data` pointers point to.
use skc_library.Base.{ℕ, Option, none, some, List, Str, get_elem?, set, bytes_eq}
use skc_library.Base.Table.{Table, lookup, insert}
use skc_library.Effect.{Effect, pure, fault, gets, ◌>>=◌}
use skc_library.Pkcs11.Uri.{UriData}

-- apimodule_token. A token is only reached through the table, so its label stands for its address.
pub record Token : Type 0 where
  pub token_label : Str
  pub pin : Str
  pub challenge : Option (List ℕ)
  pub session : ℕ
  pub publickey_challenge_handle : ℕ
  pub privatekey_challenge_handle : ℕ
  pub wrappingkey_handle : ℕ

pub record ApiModule (W : Type 0) : Type 0 where
  pub apimodule_token_hash : Table Str Token
  pub frames : List UriData
  pub world : W

abbrev pub Api : Type 0 → Type 0 → Type 0
Api W A = Effect (ApiModule W) A

-- Reading through a pointer that may be NULL.
unfoldable pub need : {A S : Type 0} → Option A → Effect S A
need o = elim o [ none ↦ fault | some x ↦ pure x ]

module _ {W : Type 0} where
  -- A call of the Cryptoki library.
  unfoldable pub ck : {A : Type 0} → (W → A × W) → Api W A
  ck f e m = let (x, w) = f m.world in some (x, e, record m { world = w })

  -- The description behind a `module_data` pointer.
  unfoldable pub uri_at : ℕ → Api W UriData
  uri_at p = do found ← gets (λ m. get_elem? m.frames p); need found

  unfoldable pub put_uri : ℕ → UriData → ApiModule W → ApiModule W
  put_uri p d m = record m { frames = set m.frames p d }

  -- lookup_apimodule_token
  unfoldable pub lookup_apimodule_token : Str → ApiModule W → Option Token
  lookup_apimodule_token label m = lookup label m.apimodule_token_hash

  -- cache_apimodule_token, and a change of a token in place.
  unfoldable pub cache_apimodule_token : Token → ApiModule W → ApiModule W
  cache_apimodule_token t m = record m {
    apimodule_token_hash = insert t.token_label t m.apimodule_token_hash;
  }
