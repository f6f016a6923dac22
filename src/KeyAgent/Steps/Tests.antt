-- ===== src/KeyAgent/Steps/Tests.antt =====
-- The steps of the key agent on the fixture.
use skc_library.Base.{
  ℕ, ◌+◌, ◌≡◌, refl, Bool, true, false, Option, none, some, List, [], ◌∷◌, Str, codes, arith,
}
use skc_library.Base.Table.{lookup, insert}
use skc_library.Types.{GError}
use skc_library.Effect.Post.{state_after}
use skc_library.KeyAgent.State.{gpointer_eq, Gpointer, quark, Key, Agent, Stm}
use skc_library.KeyAgent.SwkType.{lookup_swktype, make_swktype}
use skc_library.KeyAgent.Stm.{stm_get_by_name}
use skc_library.KeyAgent.Session.{session_create}
use skc_library.KeyAgent.Session.Creates.{Stored}
use skc_library.KeyAgent.Session.View.{view}
use skc_library.KeyAgent.Session.Refines.{created, session_create-created}
use skc_library.KeyAgent.Load.{apimodule_register}
use skc_library.KeyAgent.WellFormed.{IsWellFormed}
use skc_library.KeyAgent.Fixture.Formed.{agent0-IsWellFormed}
use skc_library.KeyAgent.Fixture.{gda0, agent0, stm0}
use skc_library.KeyAgent.Steps.{
  Step, Reach, here, next, registers, elsewhere, Reach-IsWellFormed, Reach-Stored,
}

abbrev counter : ℕ → ℕ × ℕ
counter w = (w, w + 1)

-- The API module registers itself, and the world moves on.
abbrev registering : Option (Bool × GError × Agent Str ℕ)
registering = apimodule_register (some (codes "SGX")) agent0.apimodule_ops none agent0

abbrev registered : Agent Str ℕ
registered = state_after agent0 registering

abbrev later : Agent Str ℕ
later = record registered { world = 7 }

registering_ends : registering ≡ some (true, none, registered)
unfolding skc_library.Base.Table.lookup skc_library.Base.beq_bytes skc_library.Effect.◌>>=◌
    skc_library.KeyAgent.State.g_direct_equal skc_library.KeyAgent.Stm.stm_apimodule_enable
    skc_library.KeyAgent.Load.apimodule_register
registering_ends = refl

later-Reach : Reach gda0 counter agent0 later
later-Reach =
    next
      (next here
        (registers (some (codes "SGX")) agent0.apimodule_ops none none true registering_ends))
      (elsewhere 7 refl)

Reach-IsWellFormed_example : IsWellFormed later
Reach-IsWellFormed_example =
    Reach-IsWellFormed gda0 counter agent0 later later-Reach agent0-IsWellFormed

known_type :
    lookup_swktype later.swk_type_hash (codes "AES256-GCM")
    ≡ some (make_swktype (codes "AES256-GCM"))
unfolding skc_library.Base.Table.lookup skc_library.Base.Table.insert skc_library.Base.beq_bytes
    skc_library.Base.split skc_library.Base.join skc_library.Effect.◌>>=◌
    skc_library.KeyAgent.State.g_direct_equal skc_library.KeyAgent.SwkType.lookup_swktype
    skc_library.KeyAgent.SwkType.session_init skc_library.KeyAgent.Stm.stm_apimodule_enable
    skc_library.KeyAgent.Load.apimodule_register
known_type = refl

loaded : stm_get_by_name later (codes "SGX") ≡ some (record stm0 { apimodule = true })
unfolding skc_library.Base.Table.lookup skc_library.Base.Table.insert skc_library.Base.beq_bytes
    skc_library.Effect.◌>>=◌ skc_library.KeyAgent.State.g_direct_equal
    skc_library.KeyAgent.Stm.stm_apimodule_enable skc_library.KeyAgent.Load.apimodule_register
loaded = refl

off : later.cache_sessions ≡ false
unfolding skc_library.Base.Table.lookup skc_library.Base.beq_bytes skc_library.Effect.◌>>=◌
    skc_library.KeyAgent.State.g_direct_equal skc_library.KeyAgent.Stm.stm_apimodule_enable
    skc_library.KeyAgent.Load.apimodule_register
off = refl

Reach-Stored_example :
    (c : Agent Str ℕ) × Step gda0 counter later c × Stored gda0 (codes "s1") (4 ∷ 5 ∷ []) c
Reach-Stored_example =
    Reach-Stored gda0 counter (codes "r0") (codes "SGX") (codes "s1") (codes "AES256-GCM")
      (make_swktype (codes "AES256-GCM")) (4 ∷ 5 ∷ []) (record stm0 { apimodule = true }) agent0
      later later-Reach agent0-IsWellFormed known_type loaded off

abbrev creating : Option (Bool × GError × Agent Str ℕ)
creating =
    session_create gda0 (codes "r0") (codes "SGX") (codes "s1") (4 ∷ 5 ∷ []) (codes "AES256-GCM")
      none agent0

creating_ends : creating ≡ some (true, none, state_after agent0 creating)
unfolding skc_library.Base.Table.lookup skc_library.Base.Table.insert skc_library.Base.beq_bytes
    skc_library.Base.split skc_library.Base.join skc_library.Effect.◌>>=◌
    skc_library.KeyAgent.State.g_direct_equal skc_library.KeyAgent.State.call
    skc_library.KeyAgent.State.session_at skc_library.KeyAgent.State.set_session_at
    skc_library.KeyAgent.Cache.generate_fake_id skc_library.KeyAgent.Cache.session_set_cache_id
    skc_library.KeyAgent.Cache.cache_session skc_library.KeyAgent.Key.of_session
    skc_library.KeyAgent.Key.build_delete_key_list skc_library.KeyAgent.Key.session_lookup
    skc_library.KeyAgent.Key.key_hash_remove skc_library.KeyAgent.Key.delete_listed
    skc_library.KeyAgent.Key.key_remove_by_session skc_library.KeyAgent.SwkType.lookup_swktype
    skc_library.KeyAgent.SwkType.session_init skc_library.KeyAgent.Stm.stm_set_session
    skc_library.KeyAgent.Session.add_session skc_library.KeyAgent.Session.place_session
    skc_library.KeyAgent.Session.session_hash_remove skc_library.KeyAgent.Session.evict_session
    skc_library.KeyAgent.Session.finish_session skc_library.KeyAgent.Session.create_under
    skc_library.KeyAgent.Session.session_create_with_cacheid
    skc_library.KeyAgent.Session.session_create
creating_ends = refl

-- The former session of the STM is gone.
session_create-created_example :
    view (state_after agent0 creating) (codes "s0")
    ≡ created gda0
        (lookup_swktype agent0.swk_type_hash (codes "AES256-GCM"))
        (stm_get_by_name agent0 (codes "SGX"))
        (codes "s1")
        (4 ∷ 5 ∷ [])
        agent0
        (codes "s0")
session_create-created_example =
    session_create-created gda0 (codes "r0") (codes "SGX") (codes "s1") (4 ∷ 5 ∷ [])
      (codes "AES256-GCM") true none none agent0 (state_after agent0 creating) agent0-IsWellFormed
      creating_ends (codes "s0")

-- What the specification says of it.
former_gone :
    created gda0
      (lookup_swktype agent0.swk_type_hash (codes "AES256-GCM"))
      (stm_get_by_name agent0 (codes "SGX"))
      (codes "s1")
      (4 ∷ 5 ∷ [])
      agent0
      (codes "s0")
    ≡ none
unfolding skc_library.Base.Table.lookup skc_library.Base.Table.insert skc_library.Base.beq_bytes
    skc_library.Base.split skc_library.Base.join skc_library.KeyAgent.State.g_direct_equal
    skc_library.KeyAgent.State.session_at skc_library.KeyAgent.SwkType.lookup_swktype
    skc_library.KeyAgent.SwkType.session_init skc_library.KeyAgent.Stm.stm_load_key
    skc_library.KeyAgent.Session.View.is_gone skc_library.KeyAgent.Session.View.create_view
    skc_library.KeyAgent.Session.View.replaced skc_library.KeyAgent.Session.Refines.created
former_gone = refl
