-- ===== src/Kms/Fetches.antt =====
-- What a key load through the server comes to.
use skc_library.Base.{
  ℕ, zero, suc, ◌+◌, ◌≤◌, ◌≡◌, refl, ap, ltb, if◌then◌else◌, Bool, true, false, ◌&&◌, Option, none,
  some, List, Str, arith, is_some, split, colon, token, codes, beq_bytes,
}
use skc_library.Types.{GError, load_key, NpmErrors}
use skc_library.Effect.{pure, fault, gets, ◌>>=◌}
use skc_library.Effect.Post.{Post-any, Post_apply, Post, Post-bind, Post-if}
use skc_library.KeyAgent.State.{Agent, Action}
use skc_library.KeyAgent.Database.{Gda}
use skc_library.KeyAgent.Cache.{key_lookup}
use skc_library.KeyAgent.Key.{key_create}
use skc_library.KeyAgent.Key.Presence.{key_create-Made}
use skc_library.KeyAgent.Load.{KeyloadDetails}
use skc_library.Kms.Server.{Server, Reply}
use skc_library.Kms.Wire.{Transfer, is_kms_token, session_tokens, session_id_of}
use skc_library.Kms.Start.{refuse, send, start_session, no_contact, is_status}
use skc_library.Kms.Protocol.{
  attempt, npm_loadkey, create_key, key_with_id, key_under, take_key, take_denial, take_reply,
  npm_key_load,
}

module _ {D W J : Type 0} (server : Server J W) (gda : Gda W) (details : KeyloadDetails) where
  -- Whatever the number of attempts so far is, all amounts of fuel but none that together with it
  -- come to 3 or more give the same load: the recursion ends by the test of `tries` and never by the fuel.
  pub npm_loadkey-enough :
      (f g tries : ℕ)
      → 2 ≤ tries + f
      → 2 ≤ tries + g
      → npm_loadkey {D = D} server gda details (suc f) tries
        ≡ npm_loadkey server gda details (suc g) tries
  unfolding npm_loadkey
  npm_loadkey-enough zero g tries h k =
      let last : ltb 1 tries ≡ true = ground (arith, h) in rw (npm_loadkey, last) refl
  npm_loadkey-enough (suc f) zero tries h k =
      let last : ltb 1 tries ≡ true = ground (arith, k) in rw (npm_loadkey, last) refl
  npm_loadkey-enough (suc f) (suc g) tries h k =
      ap (λ m. if ltb 1 tries then refuse server load_key else attempt server gda details m)
        (npm_loadkey-enough f g (suc tries) (omega (arith, h)) (omega (arith, k)))

  -- Success says that the key is in the key agent's table.
  abbrev Fetched : Bool → GError → Agent D W → Type 0
  Fetched x e b = x ≡ true → is_some (key_lookup b details.url) ≡ true

  failed : (e : GError) (b : Agent D W) → Fetched false e b
  failed e b = λ k. absurd (ground arith)

  stop-Fetched : (e : GError) (a : Agent D W) → Post (Unit {0}) Fetched (pure false e a)
  unfolding pure Post
  stop-Fetched e a = failed e a

  refuse-Fetched :
      (x : NpmErrors) (e : GError) (a : Agent D W) → Post (Unit {0}) Fetched (refuse server x e a)
  unfolding refuse Post ◌>>=◌
  refuse-Fetched x e a = failed e a

  key_with_id-Fetched :
      (t : Transfer) (id : Option (Option Str)) (e : GError) (a : Agent D W)
      → Post (Unit {0}) Fetched (key_with_id server gda details t id e a)
  unfolding key_with_id create_key Post fault pure
  key_with_id-Fetched t none e a = tt
  key_with_id-Fetched t (some none) e a = refuse-Fetched _ e a
  key_with_id-Fetched t (some (some id)) e a =
      Post-bind _ _ _ (key_create gda details.url t.keytype (some t.attributes) (some id)) _ e a
        (key_create-Made details.url gda t.keytype (some t.attributes) (some id) e a)
        λ q e' b made. made

  key_under-Fetched :
      (t : Transfer) (tokens : Option (List Str)) (e : GError) (a : Agent D W)
      → Post (Unit {0}) Fetched (key_under server gda details t tokens e a)
  unfolding key_under
  key_under-Fetched t none e a = refuse-Fetched _ e a
  key_under-Fetched t (some tokens) e a = key_with_id-Fetched t (session_id_of tokens) e a

  take_key-Fetched :
      (headers : List Str) (t : Option Transfer) (e : GError) (a : Agent D W)
      → Post (Unit {0}) Fetched (take_key server gda details headers t e a)
  unfolding take_key
  take_key-Fetched headers none e a = refuse-Fetched _ e a
  take_key-Fetched headers (some t) e a = key_under-Fetched t (session_tokens headers none) e a

  module _ (retry : Action D W Bool)
      (again : (e : GError) (a : Agent D W) → Post (Unit {0}) Fetched (retry e a)) where
    take_denial-Fetched :
        (j : J) (denial : Option (Str × Str)) (e : GError) (a : Agent D W)
        → Post (Unit {0}) Fetched (take_denial server gda details j retry denial e a)
    unfolding take_denial
    take_denial-Fetched j none e a = refuse-Fetched _ e a
    take_denial-Fetched j (some (status, type)) e a =
        Post-if _ Fetched
          (beq_bytes status (codes "failure") && beq_bytes type (codes "not-authorized")) _ _ e a
          (λ _.
            Post-bind _ _ _ (start_session server gda details.request_id j) _ e a (Post-any _)
              λ started e' b _.
                Post-if _ Fetched started _ _ e' b (λ _. again e' b) λ _. stop-Fetched e' b)
          λ _. stop-Fetched e a

    take_reply-Fetched :
        (r : Reply) (e : GError) (a : Agent D W)
        → Post (Unit {0}) Fetched (take_reply server gda details retry r e a)
    unfolding take_reply
    take_reply-Fetched r e a =
        Post-if _ Fetched (no_contact r.status) _ _ e a (λ _. refuse-Fetched _ e a)
          λ _.
            Post-if _ Fetched (is_status 401 r.status) _ _ e a (λ _. take_denial-Fetched _ _ e a)
              λ _.
                Post-if _ Fetched (is_status 200 r.status) _ _ e a (λ _. take_key-Fetched _ _ e a)
                  λ _. refuse-Fetched _ e a

    attempt-Fetched :
        (e : GError) (a : Agent D W)
        → Post (Unit {0}) Fetched (attempt server gda details retry e a)
    unfolding attempt gets ◌>>=◌
    attempt-Fetched e a =
        Post-if _ Fetched (is_kms_token (token (split colon details.url) 0)) _ _ e a
          (λ _.
            Post-bind _ _ _ (send server _ _ none) _ e a (Post-any _)
              λ r e' b _. take_reply-Fetched r e' b)
          λ _. refuse-Fetched _ e a

  load-Fetched :
      (e : GError) (a : Agent D W) → Post (Unit {0}) Fetched (npm_key_load server gda details e a)
  unfolding npm_key_load npm_loadkey
  load-Fetched e a = attempt-Fetched _ (attempt-Fetched _ (refuse-Fetched load_key)) e a

  -- A key load that returns TRUE leaves a key under its URL in the key agent's table, whatever the
  -- server, the database and the STM do, also where it takes a second attempt.
  pub npm_key_load-Fetched :
      (e e' : GError) (a b : Agent D W)
      → npm_key_load server gda details e a ≡ some (true, e', b)
      → is_some (key_lookup b details.url) ≡ true
  npm_key_load-Fetched e e' a b returned = Post_apply _ Fetched _ (load-Fetched e a) returned refl
