-- ===== src/Pkcs11/OnDemand/Pin.antt =====
-- Loading on demand checks the pin first.
use skc_library.Base.{
  ℕ, ◌≡◌, refl, ap, Bool, false, Option, none, some, List, [], ◌∷◌, ◌++◌, Str, bytes_eq, length,
  get_elem?, take-append, beq_bytes, c_str, ◌∙◌,
}
use skc_library.Base.Table.{lookup}
use skc_library.Types.{GError}
use skc_library.Effect.{pure, gets, modify, own_error, ◌>>=◌}
use skc_library.Effect.Post.{bind_step}
use skc_library.Pkcs11.Cryptoki.{Cryptoki, ckr_general_error}
use skc_library.Pkcs11.State.{Token, ApiModule, Api, need, uri_at, lookup_apimodule_token}
use skc_library.Pkcs11.Uri.{P11Uri, UriData, uri_to_uri_data}
use skc_library.Pkcs11.Token.{token_for}
use skc_library.Pkcs11.OnDemand.{
  push_frame, pop_frame, load_in, load_described, find_and_load, on_demand_keyload,
}

get_elem?-append_end :
    (l : List UriData) (d : UriData) → get_elem? (l ++ d ∷ []) (length l) ≡ some d
get_elem?-append_end [] d = refl
get_elem?-append_end (x ∷ l) d = get_elem?-append_end l d

module _ {W : Type 0} (func_list : Cryptoki W) where
  needed :
      {A : Type 0} {o : Option A} {x : A}
      → o ≡ some x
      → (e : GError) (m : ApiModule W) → need o e m ≡ some (x, e, m)
  unfolding need pure
  needed h e m = rw h refl

  top :
      (l : List UriData) (d : UriData) (e : GError) (m : ApiModule W)
      → uri_at (length l) e (record m { frames = l ++ d ∷ [] })
        ≡ some (d, e, record m { frames = l ++ d ∷ [] })
  unfolding uri_at gets ◌>>=◌
  top l d e m = needed (get_elem?-append_end l d) e (record m { frames = l ++ d ∷ [] })

  token_for_known :
      (p : ℕ) (name : Str) (create : Bool) (t : Token) (e : GError) (m : ApiModule W)
      → lookup name m.apimodule_token_hash ≡ some t
      → token_for func_list p name create e m ≡ some (some t, e, m)
  unfolding token_for lookup_apimodule_token ◌>>=◌
  token_for_known p name create t e m h = rw (token_for, h) refl

module _ {W : Type 0} (parse : Str → Option P11Uri) (func_list : Cryptoki W)
    (loadkey : Str → ℕ → Api W Bool) where
  -- A URI whose pin is not that of the token that is logged in is refused: neither the Cryptoki
  -- library nor the key agent is called, and the state is as before.
  pub on_demand_keyload-pin :
      (uri : Str) (d : UriData) (name pin : Str) (t : Token) (e : GError) (m : ApiModule W)
      → uri_to_uri_data parse uri ≡ some d
      → d.token_label ≡ some name
      → d.pin ≡ some pin
      → lookup (c_str name) m.apimodule_token_hash ≡ some t
      → beq_bytes (c_str t.pin) (c_str pin) ≡ false
      → on_demand_keyload parse func_list loadkey uri e m ≡ some (ckr_general_error, e, m)
  unfolding on_demand_keyload find_and_load own_error load_described push_frame pop_frame load_in
      uri_at gets modify ◌>>=◌
  on_demand_keyload-pin uri d name pin t e m described named has_pin known differs =
      rw (on_demand_keyload, described)
        (bind_step (own_error (find_and_load parse func_list loadkey p d uri)) _
            (ap (under_own e) found)
          ∙ ap (λ l. some (ckr_general_error, e, record m { frames = l }))
              (take-append m.frames (d ∷ [])))
    where
      pushed : ApiModule W
      pushed = record m { frames = m.frames ++ d ∷ [] }

      p : ℕ
      p = length m.frames

      refused :
          load_in parse func_list loadkey p d uri (some t) none pushed
          ≡ some (ckr_general_error, none, pushed)
      refused = bind_step (need d.pin) _ (needed func_list has_pin none pushed) ∙ rw differs refl

      found :
          find_and_load parse func_list loadkey p d uri none pushed
          ≡ some (ckr_general_error, none, pushed)
      found =
          bind_step (need d.token_label) _ (needed func_list named none pushed)
          ∙ bind_step (token_for func_list p (c_str name) false) _
              (token_for_known func_list p (c_str name) false t none pushed known)
          ∙ bind_step (uri_at p) _ (top func_list m.frames d none m)
          ∙ refused

      under_own :
          GError → Option (ℕ × GError × ApiModule W) → Option ((ℕ × GError) × GError × ApiModule W)
      under_own e r = elim r [ none ↦ none | some (x, e', a') ↦ some ((x, e'), e, a') ]
