-- ===== src/KeyAgent/Session/Drops.antt =====
-- How the map of sessions changes when a session goes (key-agent/src/session.cpp).
use skc_library.Base.{
  ℕ, ◌≡◌, refl, sym, ap, ◌∙◌, Option, none, some, Str, arith, inl, inr, Bool-cases, bytes_eq,
  beq_bytes, beq_bytes_iff, if◌then◌else◌,
}
use skc_library.Base.Table.{lookup, remove, lookup-remove}
use skc_library.Types.{GError}
use skc_library.KeyAgent.Database.{Gda}
use skc_library.KeyAgent.State.{gpointer_eq, g_direct_equal, quark, Agent, Stm, session_at}
use skc_library.KeyAgent.Key.{session_lookup}
use skc_library.KeyAgent.Session.{session_hash_remove, evict_session}
use skc_library.KeyAgent.WellFormed.{IsWellFormed, every-remove}
use skc_library.KeyAgent.WellFormed.Keys.{key_remove_by_session-nothing}
use skc_library.Effect.{Effect, pure, gets, modify, ◌>>=◌}
use skc_library.Effect.Post.{Post, Post-option}
use skc_library.KeyAgent.Session.View.{is_gone, swk_behind, view, replaced}

module _ {D W : Type 0} where
  -- The table after one session has gone from it.
  pub record Evicted (gone : Option Str) (a b : Agent D W) : Type 0 where
    pub heap : b.heap ≡ a.heap
    pub table :
        (s : Str) → session_lookup b s ≡ (if is_gone gone s then none else session_lookup a s)
    pub formed : IsWellFormed b

  pub Evicted-view :
      (gone : Option Str) (a b : Agent D W) (s : Str)
      → Evicted gone a b
      → view b s ≡ (if is_gone gone s then none else view a s)
  unfolding view swk_behind
  Evicted-view gone a b s h = elim (Bool-cases (is_gone gone s)) [
    | inl g ↦ rw (h.table s, g) refl
    | inr g ↦ rw (h.table s, g, h.heap) refl
  ]

  module _ (gda : Gda W) where
    dropped-Evicted :
        (current : Str) (a : Agent D W)
        → IsWellFormed a
        → Evicted
            (some current)
            a
            (record a { session_hash = remove (quark current) a.session_hash })
    unfolding session_lookup is_gone g_direct_equal
    dropped-Evicted current a v = record {
      heap = refl;
      table = λ s. lookup-remove (quark current) (quark s) a.session_hash;
      formed = record {
        sessions = every-remove _ (quark current) a.session_hash v.sessions;
        keys = v.keys;
        stms = v.stms;
      };
    }

    absent-Evicted :
        (current : Str) (a : Agent D W)
        → IsWellFormed a
        → session_lookup a current ≡ none
        → Evicted (some current) a a
    unfolding is_gone
    absent-Evicted current a v absent = record {
      heap = refl;
      table = λ s. ground (
        arith,
        absent,
        beq_bytes_iff current s,
        λ (same : current ≡ s). sym (ap (session_lookup a) same) ∙ absent,
      );
      formed = v;
    }

    remove-Evicted :
        (current : Str) (e : GError) (a : Agent D W)
        → IsWellFormed a
        → Post
            (Unit {0})
            (λ _ _ b. Evicted (some current) a b)
            (session_hash_remove gda (quark current) e a)
    unfolding session_hash_remove modify gets pure Post session_lookup ◌>>=◌
    remove-Evicted current e a v =
        Post-option _ (λ _ _ b. Evicted (some current) a b) (lookup (quark current) a.session_hash)
          _ _ e a (λ absent. absent-Evicted current a v absent)
          λ p found.
            let d = dropped-Evicted current a v in
            rw (key_remove_by_session-nothing gda p e _ d.formed, Post) d

    unchanged-Evicted : (a : Agent D W) → IsWellFormed a → Evicted none a a
    unfolding is_gone
    unchanged-Evicted a v = record { heap = refl; table = λ s. refl; formed = v }

    evict_if_other :
        (q : ℕ) (sid : Str) (e : GError) (a : Agent D W)
        → IsWellFormed a
        → Post
            (Unit {0})
            (λ _ _ b. Evicted (replaced a sid (some q)) a b)
            ((if beq_bytes (session_at a q).session_id sid
                then pure tt
                else session_hash_remove gda (quark (session_at a q).session_id))
              e a)
    unfolding replaced pure Post
    evict_if_other q sid e a v = elim (Bool-cases (beq_bytes (session_at a q).session_id sid)) [
      | inl same ↦ rw same (unchanged-Evicted a v)
      | inr other ↦ rw other (remove-Evicted (session_at a q).session_id e a v)
    ]

    pub evict_session-Evicted :
        (stm : Stm D W) (sid : Str) (e : GError) (a : Agent D W)
        → IsWellFormed a
        → Post
            (Unit {0})
            (λ _ _ b. Evicted (replaced a sid stm.session) a b)
            (evict_session gda stm sid e a)
    unfolding evict_session gets ◌>>=◌ replaced Post
    evict_session-Evicted stm sid e a v = go stm.session
      where
        go :
            (o : Option ℕ)
            → Post
                (Unit {0})
                (λ _ _ b. Evicted (replaced a sid o) a b)
                ((elim o as (λ _. Effect (Agent D W) (Unit {0})) [
                  | none ↦ pure tt
                  | some q ↦ do
                    current ← gets (λ c. (session_at c q).session_id)
                    if beq_bytes current sid
                        then pure tt
                        else session_hash_remove gda (quark current)
                ])
                  e a)
        go none = unchanged-Evicted a v
        go (some q) = evict_if_other q sid e a v
