-- ===== src/KeyAgent/Session/View.antt =====
-- The sessions of the key agent (key-agent/src/session.cpp) as a map from identifiers to wrapping keys.
use skc_library.Base.{
  ℕ, ◌<◌, ◌≡◌, refl, ap, Bool, false, Option, none, some, List, [], ◌∷◌, ◌++◌, Str, length,
  bytes_eq, beq_bytes, if◌then◌else◌, get_or, set, get_or-set_other,
}
use skc_library.KeyAgent.State.{gpointer_eq, Agent, Session, session_at, null_session}
use skc_library.KeyAgent.Key.{session_lookup}
use skc_library.KeyAgent.WellFormed.{get_or-append}

-- The wrapping key under each identifier.
abbrev pub View : Type 0
View = Str → Option (List ℕ)

-- The identifier of the session that goes, if one does.
unfoldable pub is_gone : Option Str → Str → Bool
is_gone none s = false
is_gone (some gone) s = beq_bytes gone s

unfoldable pub create_view : Str → List ℕ → Option Str → View → View
create_view sid swk gone v s =
    if beq_bytes sid s then some swk else if is_gone gone s then none else v s

-- The wrapping key behind a pointer.
unfoldable pub swk_behind : List Session → Option ℕ → Option (List ℕ)
swk_behind heap none = none
swk_behind heap (some p) = some (get_or heap p null_session).swk

pub swk_behind-append :
    (h : List Session) (new : Session) (o : Option ℕ)
    → ((p : ℕ) → o ≡ some p → p < length h)
    → swk_behind (h ++ new ∷ []) o ≡ swk_behind h o
unfolding swk_behind
swk_behind-append h new none valid = refl
swk_behind-append h new (some p) valid =
    ap (λ (x : Session). some x.swk) (get_or-append h (new ∷ []) p (valid p refl))

pub swk_behind-same :
    (h h' : List Session) (o : Option ℕ)
    → ((q : ℕ) → (get_or h q null_session).swk ≡ (get_or h' q null_session).swk)
    → swk_behind h o ≡ swk_behind h' o
unfolding swk_behind
swk_behind-same h h' none same = refl
swk_behind-same h h' (some q) same = ap some (same q)

pub swk_behind-set :
    (h : List Session) (p : ℕ) (new : Session) (o : Option ℕ)
    → ((q : ℕ) → o ≡ some q → p ≡ q → ⊥)
    → swk_behind (set h p new) o ≡ swk_behind h o
unfolding swk_behind
swk_behind-set h p new none other = refl
swk_behind-set h p new (some q) other =
    ap (λ (x : Session). some x.swk) (get_or-set_other h p q new null_session (other q refl))

module _ {D W : Type 0} where
  unfoldable pub view : Agent D W → View
  unfolding swk_behind session_lookup
  view a s = swk_behind a.heap (session_lookup a s)

  -- The former session of an STM, unless it is the one that is asked for.
  unfoldable pub replaced : Agent D W → Str → Option ℕ → Option Str
  replaced a sid none = none
  replaced a sid (some q) =
      if beq_bytes (session_at a q).session_id sid then none else some (session_at a q).session_id
