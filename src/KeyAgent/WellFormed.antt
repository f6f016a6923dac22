-- ===== src/KeyAgent/WellFormed.antt =====
-- What the hash tables of the key agent (key-agent/src/intf.cpp, key-agent/src/internal.h) promise
-- to its functions: every pointer to a session is in range, and every object is filed under the
-- quark of its own name.

pub mod Caches
pub mod Keys
pub mod Stms
pub mod Sessions
pub mod Loads
pub mod Npms
use skc_library.Base.{
  ℕ, zero, suc, ◌+◌, ◌<◌, ◌≤◌, ◌≡◌, refl, sym, ap, ◌∙◌, Option, none, some, List, [], ◌∷◌, ◌++◌,
  Str, arith, length, get_or, set, length-append, length-set, Bool-cases, inl, inr, ◌≟◌,
  if◌then◌else◌,
}
use skc_library.Base.Table.{Table, lookup, insert, remove, lookup-insert, lookup-remove}
use skc_library.KeyAgent.State.{
  gpointer_eq, Gpointer, quark, Session, Key, Agent, Stm, null_session,
}
use skc_library.Types.{GError}
use skc_library.Effect.{Effect}
use skc_library.Effect.Post.{Frame, Post, Keeps, Post-weaken, keeps_rules, Keeps-fault}

-- Sessions are never freed and keep their identifiers.
pub record Grows (h h' : List Session) : Type 0 where
  pub size : length h ≤ length h'
  pub id :
      (q : ℕ)
      → q < length h
      → (get_or h' q null_session).session_id ≡ (get_or h q null_session).session_id

abbrev pub SessionsOk : List Session → Table Gpointer ℕ → Type 0
SessionsOk heap t =
    (k : Gpointer) (p : ℕ)
    → lookup k t ≡ some p
    → (p < length heap) × (k ≡ quark (get_or heap p null_session).session_id)

abbrev pub KeysOk : List Session → Table Gpointer Key → Type 0
KeysOk heap t =
    (k : Gpointer) (key : Key)
    → lookup k t ≡ some key
    → (k ≡ quark key.url) × ((p : ℕ) → key.session ≡ some p → p < length heap)

abbrev pub StmsOk : {D W : Type 0} → List Session → Table Gpointer (Stm D W) → Type 0
StmsOk {D} {W} heap t =
    (k : Gpointer) (stm : Stm D W)
    → lookup k t ≡ some stm
    → (k ≡ quark stm.label) × ((p : ℕ) → stm.session ≡ some p → p < length heap)

-- A session is filed under its identifier, a key under its URL and an STM under its label, and
-- the session that a key or an STM points to is there.
module _ {D W : Type 0} where
  pub record IsWellFormed (a : Agent D W) : Type 0 where
    pub sessions : SessionsOk a.heap a.session_hash
    pub keys : KeysOk a.heap a.key_hash
    pub stms : StmsOk a.heap a.stm_hash

pub Grows-refl : (h : List Session) → Grows h h
Grows-refl h = record { size = omega arith; id = λ q v. refl }

pub Grows-trans : (h h' h'' : List Session) → Grows h h' → Grows h' h'' → Grows h h''
Grows-trans h h' h'' g g' = record {
  size = omega (arith, g.size, g'.size);
  id = λ q v. g'.id q (omega (arith, g.size)) ∙ g.id q v;
}

pub get_or-append :
    (h h' : List Session) (q : ℕ)
    → q < length h
    → get_or (h ++ h') q null_session ≡ get_or h q null_session
get_or-append [] h' q v = elim v [ ]
get_or-append (s ∷ h) h' zero v = refl
get_or-append (s ∷ h) h' (suc q) v = get_or-append h h' q (omega arith)

pub Grows-append : (h : List Session) (s : Session) → Grows h (h ++ s ∷ [])
Grows-append h s = record {
  size = omega (arith, length-append h (s ∷ []));
  id = λ q v. ap (λ (t : Session). t.session_id) (get_or-append h (s ∷ []) q v);
}

set-id :
    (h : List Session) (p q : ℕ) (s : Session)
    → s.session_id ≡ (get_or h p null_session).session_id
    → (get_or (set h p s) q null_session).session_id ≡ (get_or h q null_session).session_id
set-id [] p q s e = refl
set-id (t ∷ h) zero zero s e = e
set-id (t ∷ h) zero (suc q) s e = refl
set-id (t ∷ h) (suc p) zero s e = refl
set-id (t ∷ h) (suc p) (suc q) s e = set-id h p q s e

-- An object that is replaced by one with the same identifier.
pub Grows-set :
    (h : List Session) (p : ℕ) (s : Session)
    → s.session_id ≡ (get_or h p null_session).session_id
    → Grows h (set h p s)
Grows-set h p s e = record { size = omega (arith, length-set h p s); id = λ q v. set-id h p q s e }

pub SessionsOk-Grows :
    (h h' : List Session) (t : Table Gpointer ℕ) → Grows h h' → SessionsOk h t → SessionsOk h' t
SessionsOk-Grows h h' t g ok k p found =
    let valid : p < length h = (ok k p found).0 in
    (omega (arith, g.size), (ok k p found).1 ∙ ap quark (sym (g.id p valid)))

pub KeysOk-Grows :
    (h h' : List Session) (t : Table Gpointer Key) → Grows h h' → KeysOk h t → KeysOk h' t
KeysOk-Grows h h' t g ok k key found =
    ((ok k key found).0, λ p e. omega (arith, g.size, (ok k key found).1 p e))

pub StmsOk-Grows :
    {D W : Type 0} (h h' : List Session) (t : Table Gpointer (Stm D W))
    → Grows h h'
    → StmsOk h t
    → StmsOk h' t
StmsOk-Grows h h' t g ok k stm found =
    ((ok k stm found).0, λ p e. omega (arith, g.size, (ok k stm found).1 p e))

-- What each entry of a table satisfies, once one is put in or taken out.
module _ {V : Type 0} (P : Gpointer → V → Type 0) where
  pub every-insert :
      (k : Gpointer) (v : V) (t : Table Gpointer V)
      → P k v
      → ((j : Gpointer) (w : V) → lookup j t ≡ some w → P j w)
      → (j : Gpointer) (w : V) → lookup j (insert k v t) ≡ some w
      → P j w
  every-insert k v t new ok j w found = elim (Bool-cases (k ≟ j)) [
    | inl e ↦
        let same : k ≡ j = (gpointer_eq.beq_iff k j).0 e in
        let value : v ≡ w = ground (arith, lookup-insert k j v t, found, e) in
        rw (← same, ← value) new
    | inr e ↦ ok j w (ground (arith, lookup-insert k j v t, found, e))
  ]

  pub every-remove :
      (k : Gpointer) (t : Table Gpointer V)
      → ((j : Gpointer) (w : V) → lookup j t ≡ some w → P j w)
      → (j : Gpointer) (w : V) → lookup j (remove k t) ≡ some w
      → P j w
  every-remove k t ok j w found = ok j w (ground (arith, lookup-remove k j t, found))

module _ {D W : Type 0} where
  -- What every operation of the key agent does to the tables.
  pub record Preserves (a b : Agent D W) : Type 0 where
    pub grows : Grows a.heap b.heap
    pub kept : IsWellFormed a → IsWellFormed b

  pub Preserves-frame : Frame Preserves
  Preserves-frame = record {
    same = λ a. record { grows = Grows-refl a.heap; kept = λ w. w };
    chain = λ a b c h k. record {
      grows = Grows-trans a.heap b.heap c.heap h.grows k.grows;
      kept = λ w. k.kept (h.kept w);
    };
  }

  -- A change of fields that the tables do not depend on.
  pub Preserves-outside : (a : Agent D W) (w : W) → Preserves a (record a { world = w })
  Preserves-outside a w = record {
    grows = Grows-refl a.heap;
    kept = λ v. record { sessions = v.sessions; keys = v.keys; stms = v.stms };
  }

  pub Preserves-heap :
      (a : Agent D W) (h : List Session) → Grows a.heap h → Preserves a (record a { heap = h })
  Preserves-heap a h g = record {
    grows = g;
    kept = λ v. record {
      sessions = SessionsOk-Grows a.heap h a.session_hash g v.sessions;
      keys = KeysOk-Grows a.heap h a.key_hash g v.keys;
      stms = StmsOk-Grows a.heap h a.stm_hash g v.stms;
    };
  }

  -- A state that is well formed stays so.
  pub record Stays (a b : Agent D W) : Type 0 where
    pub kept : IsWellFormed a → IsWellFormed b

  pub Stays-frame : Frame Stays
  Stays-frame = record {
    same = λ a. record { kept = λ w. w };
    chain = λ a b c h k. record { kept = λ w. k.kept (h.kept w) };
  }

  pub Keeps-Stays :
      {A : Type 0} (m : Effect (Agent D W) A)
      → Keeps (Unit {0}) Preserves m
      → Keeps (Unit {0}) Stays m
  Keeps-Stays m h = record {
    at = λ e a. Post-weaken _ _ _ _ _ (λ z. z) (λ _ _ b k. record { kept = k.kept }) (h.at e a);
  }

  -- What is preserved only where the state is well formed.
  pub Post-Stays :
      {A : Type 0} (r : Option (A × GError × Agent D W)) (a : Agent D W)
      → (IsWellFormed a → Post (Unit {0}) (λ _ _ b. Preserves a b) r)
      → Post (Unit {0}) (λ _ _ b. Stays a b) r
  unfolding Post
  Post-Stays none a h = tt
  Post-Stays (some (x, e, b)) a h = record { kept = λ v. (h v).kept v }

  pub ruleset stays_rules = (keeps_rules, Stays-frame, Keeps-fault)
