-- ===== src/KeyAgent/Startup/Reads.antt =====
-- What a run that reads the configuration of the key agent comes to, where it leaves no error
-- (key-agent/src/intf.cpp).
use skc_library.Base.{◌≡◌, refl, ap, Bool, false, Option, none, some, [], Str, arith}
use skc_library.Types.{GError, Error, KeyAgentErrors}
use skc_library.Config.{Reading, value, failed, KeyFile, key_config_get_string}
use skc_library.Config.Reads.{text_of_reading}
use skc_library.Effect.{Effect, pure, gets, modify, set_error, ◌>>=◌}
use skc_library.Effect.Post.{Post, bind_step}
use skc_library.KeyAgent.Startup.{Startup, g_string_new, on_error, checked}
use skc_library.KeyAgent.Startup.Init.{refuse, set_string}

module _ {D W : Type 0} where
  -- What is claimed of a run that leaves no error.
  abbrev pub Clean : (Startup D W → Type 0) → Bool → GError → Startup D W → Type 0
  Clean R x e b = e ≡ none → R b

  pub refused :
      (R : Startup D W → Type 0) (x : KeyAgentErrors) (s : Startup D W)
      → Post (Unit {0}) (Clean R) (refuse x none s)
  unfolding refuse set_error pure Post ◌>>=◌
  refused R x s = λ h. ground (arith, h)

  -- A check of the error after an action that leaves none, and after one that leaves one.
  pub checked-clean :
      {A : Type 0} (m : Effect (Startup D W) A) (k : A → Effect (Startup D W) Bool) (x : A)
      (a b : Startup D W)
      → m none a ≡ some (x, none, b)
      → checked m k none a ≡ k x none b
  unfolding checked on_error pure ◌>>=◌
  checked-clean m k x a b h = bind_step m _ h

  pub checked-failed :
      {A : Type 0} (m : Effect (Startup D W) A) (k : A → Effect (Startup D W) Bool) (x : A)
      (e : Error) (a b : Startup D W)
      → m none a ≡ some (x, some e, b)
      → checked m k none a ≡ some (false, some e, b)
  unfolding checked on_error pure ◌>>=◌
  checked-failed m k x e a b h = bind_step m _ h

  pub after_reading :
      {A B : Type 0} (R : Startup D W → Type 0) (r : Reading A) (m : Effect (Startup D W) B)
      (k : B → Effect (Startup D W) Bool) (x : A → B) (y : B) (s : Startup D W)
      (good : A → Startup D W) (bad : Startup D W)
      → ((v : A) → r ≡ value v → m none s ≡ some (x v, none, good v))
      → ((e : Error) → r ≡ failed e → m none s ≡ some (y, some e, bad))
      → ((v : A) → r ≡ value v → Post (Unit {0}) (Clean R) (k (x v) none (good v)))
      → Post (Unit {0}) (Clean R) (checked m k none s)
  unfolding Post
  after_reading R (value v) m k x y s good bad done broken next =
      rw (checked-clean m k (x v) s (good v) (done v refl)) (next v refl)
  after_reading R (failed e) m k x y s good bad done broken next =
      rw (checked-failed m k y e s bad (broken e refl)) λ wrong. ground (arith, wrong)

  -- A setting that has to be there.
  pub read_setting :
      (R : Startup D W → Type 0) (kf : KeyFile) (section key : Str)
      (put : Str → Startup D W → Startup D W) (k : Unit {0} → Effect (Startup D W) Bool)
      (s : Startup D W)
      → s.config ≡ some kf
      → ((v : Str)
          → kf.text_of section key ≡ value v
          → Post (Unit {0}) (Clean R) (k tt none (put v s)))
      → Post (Unit {0}) (Clean R) (checked (set_string section key put) k none s)
  unfolding set_string on_error gets modify ◌>>=◌
  read_setting R kf section key put k s configured next =
      after_reading R (kf.text_of section key) (set_string section key put) k (λ _. tt) tt s
        (λ v. put v s) (put [] s)
        (λ v h. ap outcome (text_of_reading kf section key s.config (value v) configured h))
        (λ e h. ap outcome (text_of_reading kf section key s.config (failed e) configured h)) next
    where
      outcome : Option Str × GError → Option (Unit {0} × GError × Startup D W)
      outcome r = some (tt, r.1, put (g_string_new r.0) s)

  -- A text that is looked at and not kept.
  pub read_text :
      (R : Startup D W → Type 0) (kf : KeyFile) (section key : Str)
      (k : Option Str → Effect (Startup D W) Bool) (s : Startup D W)
      → s.config ≡ some kf
      → ((v : Str)
          → kf.text_of section key ≡ value v
          → Post (Unit {0}) (Clean R) (k (some v) none s))
      → Post (Unit {0}) (Clean R) (
          checked
            (do
              config ← gets (λ (t : Startup D W). t.config)
              on_error (key_config_get_string config section key))
            k
            none
            s)
  unfolding on_error gets ◌>>=◌
  read_text R kf section key k s configured next =
      after_reading R (kf.text_of section key) _ k (λ v. some v) none s (λ _. s) s
        (λ v h. ap outcome (text_of_reading kf section key s.config (value v) configured h))
        (λ e h. ap outcome (text_of_reading kf section key s.config (failed e) configured h)) next
    where
      outcome : Option Str × GError → Option (Option Str × GError × Startup D W)
      outcome r = some (r.0, r.1, s)
