-- ===== src/KeyAgent/Startup/Formed.antt =====
-- The tables with which the key agent starts are well formed: each STM is filed under the label
-- that its `init` returned, and holds no session.
use skc_library.Base.{◌≡◌, refl, Option, none, some, Str, arith}
use skc_library.Base.Table.{lookup}
use skc_library.Types.{GError}
use skc_library.Effect.Post.{Post, Frame, Keeps}
use skc_library.KeyAgent.State.{gpointer_eq, quark, Agent, Action, StmOps}
use skc_library.KeyAgent.Database.{Gda}
use skc_library.KeyAgent.WellFormed.{
  Preserves, Preserves-frame, Preserves-outside, Grows-refl, IsWellFormed, every-insert,
}
use skc_library.KeyAgent.WellFormed.Caches.{cache_loadsessions-Preserves, cache_loadkeys-Preserves}
use skc_library.KeyAgent.Startup.{System, Startup, call_outside, on_agent, add_stm, add_npm}
use skc_library.KeyAgent.Startup.Cache.{
  Connection, name_database, set_cache_sessions, set_cache_keys,
}
use skc_library.KeyAgent.Startup.Init.{new_swk_types, new_tables, load_modules}
use skc_library.KeyAgent.Startup.Kept.{Primitives, load_modules-kept}

module _ {D W : Type 0} where
  pub record AgentKept (a b : Startup D W) : Type 0 where
    pub agent : Preserves a.agent b.agent

  AgentKept-frame : Frame AgentKept
  AgentKept-frame = record {
    same = λ a. record { agent = Preserves-frame.same a.agent };
    chain = λ a b c h k. record {
      agent = Preserves-frame.chain a.agent b.agent c.agent h.agent k.agent;
    };
  }

  on_agent-AgentKept :
      {A : Type 0} (m : Action D W A)
      → Keeps (Unit {0}) Preserves m
      → Keeps (Unit {0}) AgentKept (on_agent m)
  unfolding on_agent Post
  on_agent-AgentKept {A} m keeps = record { at = λ e s. go s (m e s.agent) (keeps.at e s.agent) }
    where
      go :
          (s : Startup D W) (r : Option (A × GError × Agent D W))
          → Post (Unit {0}) (λ _ _ b. Preserves s.agent b) r
          → Post {A = A}
              (Unit {0})
              (λ _ _ b. AgentKept s b)
              (elim r as (λ _. Option (A × GError × Startup D W)) [
                | none ↦ none
                | some (x, e', a) ↦ some (x, e', record s { agent = a })
              ])
      go s none h = tt
      go s (some (x, e', a)) h = record { agent = h }

  -- A change of fields that the tables do not depend on.
  same_tables :
      (a b : Agent D W) → b.heap ≡ a.heap → (IsWellFormed a → IsWellFormed b) → Preserves a b
  same_tables a b h k = record { grows = rw h (Grows-refl a.heap); kept = k }

  new_stm-Preserves :
      (system : System D W) (filename name : Str) (ops : StmOps D W) (s : Startup D W)
      → Preserves s.agent (add_stm system filename name ops s).agent
  unfolding add_stm
  new_stm-Preserves system filename name ops s = record {
    grows = Grows-refl s.agent.heap;
    kept = λ v. record {
      sessions = v.sessions;
      keys = v.keys;
      stms =
          every-insert _ (quark name) _ s.agent.stm_hash
            (refl, λ p wrong. absurd (ground (arith, wrong))) v.stms;
    };
  }

  module _ (system : System D W) (connection : Connection W) (gda : Gda W) (pkgdata : Str) where
    agent_primitives : Primitives system connection gda pkgdata AgentKept
    unfolding call_outside add_npm new_swk_types name_database set_cache_sessions set_cache_keys
        Post
    agent_primitives = record {
      frame = AgentKept-frame;
      outside = λ f e s. record { agent = Preserves-outside s.agent _ };
      stm = λ filename name ops s. record { agent = new_stm-Preserves system filename name ops s };
      npm = λ name m s. record { agent = Preserves-frame.same s.agent };
      swk_types = λ s. record {
        agent =
            same_tables s.agent _ refl
              λ v. record { sessions = v.sessions; keys = v.keys; stms = v.stms };
      };
      database = λ s. record { agent = Preserves-frame.same s.agent };
      caching_sessions = λ b s. record {
        agent =
            same_tables s.agent _ refl
              λ v. record { sessions = v.sessions; keys = v.keys; stms = v.stms };
      };
      caching_keys = λ b s. record {
        agent =
            same_tables s.agent _ refl
              λ v. record { sessions = v.sessions; keys = v.keys; stms = v.stms };
      };
      sessions = on_agent-AgentKept _ (cache_loadsessions-Preserves gda);
      keys = on_agent-AgentKept _ (cache_loadkeys-Preserves gda);
    }

    pub load_modules-AgentKept :
        Keeps (Unit {0}) AgentKept (load_modules system connection gda pkgdata)
    load_modules-AgentKept = load_modules-kept system connection gda pkgdata agent_primitives

  -- Empty tables.
  pub new_tables-IsWellFormed : (s : Startup D W) → IsWellFormed (new_tables s).agent
  unfolding new_tables lookup
  new_tables-IsWellFormed s = record {
    sessions = λ k p wrong. absurd (ground (arith, wrong));
    keys = λ k key wrong. absurd (ground (arith, wrong));
    stms = λ k stm wrong. absurd (ground (arith, wrong));
  }
