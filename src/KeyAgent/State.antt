-- ===== src/KeyAgent/State.antt =====
-- The state of the key agent: the globals of namespace `keyagent` (key-agent/src/intf.cpp and
-- internal.h), the objects in its hash tables, and the actions on it.
--
-- A quark is the text that it interns, and a hash key made from one by GINT_TO_POINTER is
-- `quark text`; the address of a text's characters is `chars text`, another pointer. Sessions are
-- never freed, so a pointer to one is its place in `heap`.
use skc_library.Base.{
  ℕ, ◌≡◌, ◌↔◌, Bool, true, false, Option, some, List, [], Str, Eq, arith, get_or, set, beq_bytes,
  beq_bytes_iff,
}
use skc_library.Base.Table.{Table}
use skc_library.Details.{
  LoadkeyDetails, SessionDetails, ChallengeDetails, ChallengeRequest, ApimoduleOps,
}
use skc_library.Effect.{Effect}
use skc_library.Effect.Post.{Post, Keeps}
use skc_library.Types.{Keytype, ℤ, pos, Call}

pub data Gpointer : Type 0 where
  quark : Str → Gpointer
  chars : Str → Gpointer

unfoldable pub g_direct_equal : Gpointer → Gpointer → Bool
g_direct_equal (quark a) (quark b) = beq_bytes a b
g_direct_equal (quark a) (chars b) = false
g_direct_equal (chars a) (quark b) = false
g_direct_equal (chars a) (chars b) = beq_bytes a b

pub g_direct_equal_iff : (p q : Gpointer) → (g_direct_equal p q ≡ true) ↔ (p ≡ q)
unfolding g_direct_equal
g_direct_equal_iff (quark a) (quark b) = ground (arith, beq_bytes_iff a b)
g_direct_equal_iff (quark a) (chars b) = ground arith
g_direct_equal_iff (chars a) (quark b) = ground arith
g_direct_equal_iff (chars a) (chars b) = ground (arith, beq_bytes_iff a b)

instance abbrev pub gpointer_eq : Eq Gpointer
gpointer_eq = record { beq = g_direct_equal; beq_iff = g_direct_equal_iff }

-- keyagent_session_real
pub record Session : Type 0 where
  pub swk : List ℕ
  pub name : Str
  pub session_id : Str
  pub swk_type : Str
  pub cache_id : ℤ

-- k_attributes: byte arrays by name.
abbrev pub Attributes : Type 0
Attributes = Table Str (List ℕ)

-- keyagent_key_real, with NULL pointers as `none`.
pub record Key : Type 0 where
  pub url : Str
  pub type : Keytype
  pub session : Option ℕ
  pub attributes : Attributes
  pub cache_id : ℤ

-- stm_ops, each with the callback that its details carry.
pub record StmOps (D W : Type 0) : Type 0 where
  pub create_challenge :
      Str
      → Option (ChallengeDetails D → ChallengeRequest → Call W (Bool × Option (List ℕ)))
      → ChallengeDetails D
      → Call W (Bool × Option (List ℕ))
  pub set_session : Str → Option (SessionDetails D → Call W Bool) → SessionDetails D → Call W Bool
  pub load_key :
      Str → Option Str → Option (LoadkeyDetails D → Call W Bool) → LoadkeyDetails D → Call W Bool

-- keyagent_stm_real
pub record Stm (D W : Type 0) : Type 0 where
  pub label : Str
  pub module_name : Str
  pub initialized : Bool
  pub ops : StmOps D W
  pub session : Option ℕ
  pub apimodule : Bool

-- keyagent_request
pub record Request (D : Type 0) : Type 0 where
  pub module_data : Option D
  pub npm_name : Str
  pub stm_name : Option Str

pub record Agent (D W : Type 0) : Type 0 where
  pub heap : List Session
  pub session_hash : Table Gpointer ℕ
  pub key_hash : Table Gpointer Key
  pub stm_hash : Table Gpointer (Stm D W)
  pub swk_type_hash : Table Gpointer Str
  pub apimodule_loadkey_hash : Table Str (Request D)
  pub apimodule_ops : ApimoduleOps D W
  pub apimodule_enabled : Bool
  pub cache_sessions : Bool
  pub cache_keys : Bool
  pub fake_cache_ids : ℕ
  pub global_model : Bool
  pub global_delete_list : List ℤ
  pub world : W

-- An action on the key agent.
abbrev pub Action : Type 0 → Type 0 → Type 0 → Type 0
Action D W A = Effect (Agent D W) A

abbrev pub null_session : Session
null_session = record { swk = []; name = []; session_id = []; swk_type = []; cache_id = pos 0 }

module _ {D W : Type 0} where
  -- A call out of the library.
  unfoldable pub call : {A : Type 0} → Call W A → Action D W A
  call f e a = let (x, e', w) = f e a.world in some (x, e', record a { world = w })

  -- The session behind a pointer.
  unfoldable pub session_at : Agent D W → ℕ → Session
  session_at a p = get_or a.heap p null_session

  unfoldable pub set_session_at : ℕ → Session → Agent D W → Agent D W
  set_session_at p s a = record a { heap = set a.heap p s }

  -- A call out of the library keeps what does not speak of the world.
  pub Keeps-call :
      {A bad : Type 0} (R : Agent D W → Agent D W → Type 0)
      → ((a : Agent D W) (w : W) → R a (record a { world = w }))
      → (f : Call W A) → Keeps bad R (call f)
  unfolding call Post
  Keeps-call R outside f = record { at = λ e a. outside a _ }
