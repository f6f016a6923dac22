-- ===== src/KeyAgent/Startup/Once.antt =====
-- A later call of keyagent_init (key-agent/src/intf.cpp).
use skc_library.Base.{
  ◌≡◌, refl, sym, ap, ◌∙◌, Bool, true, false, not, Option, none, some, Str, arith, is_some,
  if◌then◌else◌,
}
use skc_library.Types.{GError, g_propagate_error}
use skc_library.KeyAgent.Database.{Gda}
use skc_library.KeyAgent.Startup.{System, Startup}
use skc_library.KeyAgent.Startup.Cache.{Connection}
use skc_library.KeyAgent.Startup.Init.{
  Started, do_keyagent_init, start_once, started_from, answered, keyagent_init,
}

module _ {D W : Type 0} (system : System D W) (connection : Connection W) (gda : Gda W)
    (pkgdata : Str) where
  propagate_none : (e : GError) → g_propagate_error none e ≡ e
  propagate_none none = refl
  propagate_none (some e) = refl

  answered_shape :
      (err : GError) (r : Option (Started D W)) (x : Bool) (err' : GError) (st' : Started D W)
      → ((s : Started D W) → r ≡ some s → s.once ≡ true)
      → answered err r ≡ some (x, err', st')
      → (st'.once ≡ true) × (x ≡ not (is_some st'.error))
  unfolding answered
  answered_shape err none x err' st' once eq = absurd (ground (arith, eq))
  answered_shape err (some s) x err' st' once eq =
      let done : s.once ≡ true = once s refl in ground (arith, eq)

  one_of :
      (b : Bool) (r : Option (Bool × GError × Startup D W)) (st s : Started D W)
      → st.once ≡ b
      → (if b then some st else started_from r) ≡ some s
      → s.once ≡ true
  unfolding started_from
  one_of true r st s once eq = ground (arith, eq)
  one_of false none st s once eq = absurd (ground (arith, eq))
  one_of false (some (x, e, t)) st s once eq = ground (arith, eq)

  start_once_once :
      (filename : Option Str) (st s : Started D W)
      → start_once system connection gda pkgdata filename st ≡ some s
      → s.once ≡ true
  unfolding start_once
  start_once_once filename st s eq = one_of st.once _ st s refl eq

  -- A later call does nothing: it answers as the first one did, from the error that the first one
  -- left, whatever file it is given.
  pub keyagent_init-again :
      (filename other : Option Str) (err err' : GError) (x : Bool) (st st' : Started D W)
      → keyagent_init system connection gda pkgdata filename err st ≡ some (x, err', st')
      → keyagent_init system connection gda pkgdata other none st' ≡ some (x, st'.error, st')
  unfolding keyagent_init start_once answered
  keyagent_init-again filename other err err' x st st' returned =
      let shape =
        answered_shape err (start_once system connection gda pkgdata filename st) x err' st'
          (start_once_once filename st) returned in
      ap
        (λ (b : Bool). answered none (
          if b
          then some st'
          else started_from
              (do_keyagent_init system connection gda pkgdata other st'.error st'.startup)))
        shape.0
      ∙ ap (λ (y : Bool). some (y, g_propagate_error none st'.error, st')) (sym shape.1)
      ∙ ap (λ (e : GError). some (x, e, st')) (propagate_none st'.error)
