-- ===== src/Pkcs11/Start/Lifts.antt =====
-- What holds of an action of the key agent holds of it within the API module's start
-- (api-module/pkcs11/src/pkcs11-apimodule.cpp).
use skc_library.Base.{Option, none, some, nat_eq}
use skc_library.Types.{GError}
use skc_library.Effect.{Effect, own_error}
use skc_library.Effect.Post.{Post}
use skc_library.KeyAgent.State.{gpointer_eq, Agent, Action}
use skc_library.KeyAgent.Startup.Init.{Started}
use skc_library.Pkcs11.Start.{Host, on_keyagent, on_tables}

module _ {D W : Type 0} where
  pub on_tables-Post :
      {A : Type 0} (P : A → GError → Started D W → Type 0) (m : Action D W A) (e : GError)
      (st : Started D W)
      → Post
          (Unit {0})
          (λ x e' a. P x e' (record st { startup = record st.startup { agent = a } }))
          (m e st.startup.agent)
      → Post (Unit {0}) P (on_tables m e st)
  unfolding on_tables Post
  on_tables-Post {A} P m e st h = go (m e st.startup.agent) h
    where
      go :
          (r : Option (A × GError × Agent D W))
          → Post
              (Unit {0})
              (λ x e' a. P x e' (record st { startup = record st.startup { agent = a } }))
              r
          → Post {A = A} (Unit {0}) P (elim r as (λ _. Option (A × GError × Started D W)) [
            | none ↦ none
            | some (x, e', a) ↦
                some (x, e', record st { startup = record st.startup { agent = a } })
          ])
      go none h = tt
      go (some (x, e', a)) h = h

module _ {F D W : Type 0} where
  pub own_error-Post :
      {A : Type 0} (P : A × GError → GError → Host F D W → Type 0) (m : Effect (Host F D W) A)
      (e : GError) (h : Host F D W)
      → Post (Unit {0}) (λ x e' b. P (x, e') e b) (m none h)
      → Post (Unit {0}) P (own_error m e h)
  unfolding own_error Post
  own_error-Post {A} P m e h k = go (m none h) k
    where
      go :
          (r : Option (A × GError × Host F D W))
          → Post (Unit {0}) (λ x e' b. P (x, e') e b) r
          → Post {A = A × GError}
              (Unit {0})
              P
              (elim r as (λ _. Option ((A × GError) × GError × Host F D W)) [
                | none ↦ none
                | some (x, e', b) ↦ some ((x, e'), e, b)
              ])
      go none k = tt
      go (some (x, e', b)) k = k

  pub on_keyagent-Post :
      {A : Type 0} (P : A → GError → Host F D W → Type 0) (m : Effect (Started D W) A) (e : GError)
      (h : Host F D W)
      → Post (Unit {0}) (λ x e' k. P x e' (record h { keyagent = k })) (m e h.keyagent)
      → Post (Unit {0}) P (on_keyagent m e h)
  unfolding on_keyagent Post
  on_keyagent-Post {A} P m e h p = go (m e h.keyagent) p
    where
      go :
          (r : Option (A × GError × Started D W))
          → Post (Unit {0}) (λ x e' k. P x e' (record h { keyagent = k })) r
          → Post {A = A} (Unit {0}) P (elim r as (λ _. Option (A × GError × Host F D W)) [
            | none ↦ none
            | some (x, e', k) ↦ some (x, e', record h { keyagent = k })
          ])
      go none p = tt
      go (some (x, e', k)) p = p
