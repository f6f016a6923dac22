-- ===== src/KeyAgent/Load/Finds.antt =====
-- What a load leaves behind.
use skc_library.Base.{
  ℕ, ◌≡◌, refl, ◌∙◌, Bool, true, false, Option, none, some, List, Str, arith, bytes_eq, is_some,
  ≟-refl, Option-cases, inl, inr,
}
use skc_library.Base.Table.{lookup, remove, lookup-remove}
use skc_library.Types.{GError}
use skc_library.Request.{keyagent_generate_request_id}
use skc_library.Effect.{pure, fault, gets, modify, ◌>>=◌, ◌>>◌}
use skc_library.Effect.Post.{Post-any, Post_apply, Post, Post-bind, Post-if, Post-weaken}
use skc_library.KeyAgent.State.{Agent}
use skc_library.KeyAgent.Cache.{key_lookup}
use skc_library.KeyAgent.Load.{
  Npm, url_lacks_tokens, fresh_request_id, propagate, load_found, load_through, find_npm,
  load_missing, loadkey_with_moduledata,
}

no : false ≡ true → ⊥
no h = ground arith

module _ {D W : Type 0} (random_int : W → ℕ × W) where
  -- A load that succeeds leaves the key of its URL in the table.
  abbrev pub Found : Str → Bool → GError → Agent D W → Type 0
  Found url x e b = x ≡ true → is_some (key_lookup b url) ≡ true

  load_missing-Found :
      (npms : List (Npm D W)) (url : Str) (md : Option D) (e : GError) (a : Agent D W)
      → Post (Unit {0}) (Found url) (load_missing random_int url md npms e a)
  unfolding load_missing Post gets pure ◌>>=◌
  load_missing-Found npms url md e a =
      Post-bind _ _ _ (find_npm random_int url md npms) _ e a (Post-any _)
        λ found e' b _. Post-if _ (Found url) found _ _ e' b (λ _ k. k) (λ _ k. absurd (no k))

  outcome-Found :
      (npms : List (Npm D W)) (url : Str) (md : Option D) (e : GError) (a : Agent D W)
      → Post (Unit {0}) (Found url) (loadkey_with_moduledata random_int npms url md e a)
  unfolding loadkey_with_moduledata Post fault gets pure ◌>>=◌
  outcome-Found npms url md e a = elim (Option-cases (url_lacks_tokens url)) [
    | inl h ↦ rw (loadkey_with_moduledata, h) tt
    | inr (true, h) ↦ rw (loadkey_with_moduledata, h) λ k. absurd (no k)
    | inr (false, h) ↦
        rw (loadkey_with_moduledata, h)
          (Post-if _ (Found url) (is_some (key_lookup a url)) _ _ e a (λ k _. k)
            λ _. load_missing-Found npms url md e a)
  ]

  -- Whatever the NPMs and the STMs do, a load that returns TRUE leaves a key under its URL.
  pub loadkey_with_moduledata-Found :
      (npms : List (Npm D W)) (url : Str) (md : Option D) (e e' : GError) (a b : Agent D W)
      → loadkey_with_moduledata random_int npms url md e a ≡ some (true, e', b)
      → is_some (key_lookup b url) ≡ true
  loadkey_with_moduledata-Found npms url md e e' a b returned =
      Post_apply _ (Found url) _ (outcome-Found npms url md e a) returned refl

  -- TRUE says that the URL has two tokens.
  outcome-tokens :
      (npms : List (Npm D W)) (url : Str) (md : Option D) (e : GError) (a : Agent D W)
      → Post
          (Unit {0})
          (λ x _ _. x ≡ true → url_lacks_tokens url ≡ some false)
          (loadkey_with_moduledata random_int npms url md e a)
  unfolding loadkey_with_moduledata Post fault pure
  outcome-tokens npms url md e a = elim (Option-cases (url_lacks_tokens url)) [
    | inl h ↦ rw (loadkey_with_moduledata, h) tt
    | inr (true, h) ↦ rw (loadkey_with_moduledata, h) λ k. absurd (no k)
    | inr (false, h) ↦
        Post-weaken _ (Unit {0}) _ _ (loadkey_with_moduledata random_int npms url md e a) (λ z. z)
          (λ _ _ _ _ _. h) (Post-any _)
  ]

  -- After a load that returned TRUE, any load of the same URL returns TRUE at once, under any NPMs
  -- and with any data, and changes nothing, also where the first load left an error because the key
  -- did not come to the STM.
  pub loadkey_with_moduledata-again :
      (npms others : List (Npm D W)) (url : Str) (md md' : Option D) (e e' e'' : GError)
      (a b : Agent D W)
      → loadkey_with_moduledata random_int npms url md e a ≡ some (true, e', b)
      → loadkey_with_moduledata random_int others url md' e'' b ≡ some (true, e'', b)
  unfolding loadkey_with_moduledata ◌>>=◌
  loadkey_with_moduledata-again npms others url md md' e e' e'' a b returned =
      let usable = Post_apply _ _ _ (outcome-tokens npms url md e a) returned refl in
      let there = loadkey_with_moduledata-Found npms url md e e' a b returned in
      rw (loadkey_with_moduledata, usable, there) refl

  -- The identifier that the next load will use.
  abbrev pub next_id : Agent D W → Str
  next_id a = (keyagent_generate_request_id random_int a.world).0

  -- The request is gone.
  abbrev pub Forgotten : Str → Agent D W → Type 0
  Forgotten id b = lookup id b.apimodule_loadkey_hash ≡ none

  forget :
      (id : Str) (loaded : Bool × GError) (e : GError) (a : Agent D W)
      → Post
          (Unit {0})
          (λ _ _ b. Forgotten id b)
          ((do
            modify λ a. record a { apimodule_loadkey_hash = remove id a.apimodule_loadkey_hash }
            propagate random_int loaded.1
            pure loaded.0)
            e a)
  unfolding Post modify propagate pure ◌>>=◌
  forget id loaded e a = lookup-remove id id a.apimodule_loadkey_hash ∙ rw (≟-refl id) refl

  through-Forgotten :
      (npm : Npm D W) (url : Str) (md : Option D) (tmp : GError) (e : GError) (a : Agent D W)
      → Post
          (Unit {0})
          (λ _ _ b. Forgotten (next_id a) b)
          (load_through random_int npm url md tmp e a)
  unfolding load_through fresh_request_id modify gets ◌>>=◌
  through-Forgotten npm url md tmp e a =
      let id = next_id a in
      Post-bind _ _ _ (npm.key_load _) _ e _ (Post-any _) λ _ e' b _.
        Post-bind _ _ _ (load_found random_int id tmp (key_lookup b url)) _ e' b (Post-any _)
          λ loaded e'' c _. forget id loaded e'' c

  -- Once a URL is taken by an NPM, a load that ends, with whatever result, has taken its request
  -- out of the table of requests again.
  pub load_through-Forgotten :
      (npm : Npm D W) (url : Str) (md : Option D) (tmp e e' : GError) (x : Bool) (a b : Agent D W)
      → load_through random_int npm url md tmp e a ≡ some (x, e', b)
      → lookup (next_id a) b.apimodule_loadkey_hash ≡ none
  load_through-Forgotten npm url md tmp e e' x a b returned =
      Post_apply _ _ _ (through-Forgotten npm url md tmp e a) returned
