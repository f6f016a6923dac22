-- ===== src/Pkcs11/Dispatch/Unwraps.antt =====
-- What loading a key through the API module comes to.
use skc_library.Base.{
  ℕ, ◌≡◌, ◌≢◌, refl, ap, ◌∙◌, Bool, true, false, ◌&&◌, Option, none, some, List, Str, arith,
  bytes_eq, get_elem?, ◌==◌, set, sym, zero, suc, [], ◌∷◌, c_str, is_some, if◌then◌else◌,
}
use skc_library.Base.Table.{lookup}
use skc_library.Types.{GError, minus_one}
use skc_library.Details.{LoadkeyDetails}
use skc_library.Effect.{pure, gets, modify, raise, ◌>>=◌}
use skc_library.Effect.Post.{bind_step}
use skc_library.Pkcs11.Cryptoki.{Cryptoki, cko_data}
use skc_library.Pkcs11.State.{ApiModule, Api, need, uri_at, put_uri, lookup_apimodule_token}
use skc_library.Pkcs11.Uri.{UriData}
use skc_library.Pkcs11.Sgx.{bad_input, sgx_load_key}
use skc_library.Pkcs11.Dispatch.{
  has_api, class_of, settled_type, load_typed, load_named, apimodule_load_key,
}

or_else : UriData → Option UriData → UriData
or_else d none = d
or_else d (some x) = x

-- Writing back what is there.
set_same : (l : List UriData) (p : ℕ) (d : UriData) → get_elem? l p ≡ some d → set l p d ≡ l
unfolding or_else
set_same [] p d h = refl
set_same (x ∷ l) zero d h = ap (λ y. y ∷ l) (sym (ap (or_else d) h))
set_same (x ∷ l) (suc p) d h = ap (λ r. x ∷ r) (set_same l p d h)

not_equal : (a b : ℕ) → a ≢ b → (a == b) ≡ false
not_equal a b h = ground (arith, h)

settled_already : (type : ℕ) (d : UriData) → d.type ≢ cko_data → settled_type type d ≡ d
unfolding settled_type
settled_already type d h =
    ap (λ b. if b then record d { type = type } else d) (not_equal d.type cko_data h)

module _ {W : Type 0} (func_list : Cryptoki W) (details : LoadkeyDetails ℕ) (p : ℕ) (d : UriData)
    (e : GError) (m : ApiModule W) where
  -- The description behind `module_data`, read through the pointer.
  reads : get_elem? m.frames p ≡ some d → uri_at p e m ≡ some (d, e, m)
  unfolding uri_at need pure gets ◌>>=◌
  reads h = rw (uri_at, h) refl

  refused : {A : Type 0} (x : A) → bad_input x e m ≡ some (x, some minus_one, m)
  unfolding bad_input raise pure ◌>>=◌
  refused x = refl

  reaches_named :
      (name : Str)
      → details.module_data ≡ some p
      → get_elem? m.frames p ≡ some d
      → d.token_label ≡ some name
      → apimodule_load_key func_list details e m ≡ load_named func_list p details d (some name) e m
  unfolding apimodule_load_key
  reaches_named name pointed found named =
      ap (λ o. pointed_at o e m) pointed
      ∙ bind_step (uri_at p) _ (reads found)
      ∙ ap (λ o. load_named func_list p details d o e m) named
    where
      pointed_at : Option ℕ → Api W Bool
      pointed_at o = elim o [
        | none ↦ bad_input false
        | some q ↦ do d' ← uri_at q; load_named func_list q details d' d'.token_label
      ]

  typed_refused :
      get_elem? m.frames p ≡ some d
      → d.type ≢ cko_data
      → d.type ≢ class_of details.type
      → load_typed func_list p details d e m ≡ some (false, some minus_one, m)
  unfolding load_typed modify put_uri bad_input raise pure ◌>>=◌
  typed_refused found typed differs =
      ap (λ s. go s.type e (put_uri p s m)) (settled_already (class_of details.type) d typed)
      ∙ ap (λ b. (if b then sgx_load_key func_list details else bad_input false) e (put_uri p d m))
          (not_equal d.type (class_of details.type) differs)
      ∙ ap (λ l. some (false, some minus_one, record m { frames = l }))
          (set_same m.frames p d found)
    where
      go : ℕ → Api W Bool
      go type =
          if type == class_of details.type then sgx_load_key func_list details else bad_input false

  -- A key whose kind is not that of the URI is refused, with no call of the Cryptoki library and
  -- nothing changed but the error.
  pub apimodule_load_key-other_type :
      (name : Str)
      → details.module_data ≡ some p
      → get_elem? m.frames p ≡ some d
      → d.token_label ≡ some name
      → d.type ≢ cko_data
      → d.type ≢ class_of details.type
      → apimodule_load_key func_list details e m ≡ some (false, some minus_one, m)
  unfolding load_named lookup_apimodule_token gets ◌>>=◌
  apimodule_load_key-other_type name pointed found named typed differs =
      reaches_named name pointed found named
      ∙ both (is_some (lookup (c_str name) m.apimodule_token_hash) && has_api details.label)
    where
      both :
          (b : Bool)
          → (if b then load_typed func_list p details d else bad_input false) e m
            ≡ some (false, some minus_one, m)
      both true = typed_refused found typed differs
      both false = refused false
