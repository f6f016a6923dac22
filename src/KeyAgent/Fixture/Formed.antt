-- ===== src/KeyAgent/Fixture/Formed.antt =====
-- The key agent of the tests is well formed.
use skc_library.Base.{[], codes, arith, refl}
use skc_library.Base.Table.{lookup, insert}
use skc_library.KeyAgent.State.{gpointer_eq, quark}
use skc_library.KeyAgent.WellFormed.{IsWellFormed, every-insert}
use skc_library.KeyAgent.Fixture.{agent0, stm0, key0, url0}

pub agent0-IsWellFormed : IsWellFormed agent0
unfolding insert lookup
agent0-IsWellFormed = record {
  sessions =
      every-insert _ (quark (codes "s0")) 0 [] (omega arith, refl)
        λ k p wrong. absurd (ground (arith, wrong));
  keys =
      every-insert _ (quark url0) key0 [] (refl, λ p h. ground (arith, h))
        λ k key wrong. absurd (ground (arith, wrong));
  stms =
      every-insert _ (quark (codes "SGX")) stm0 [] (refl, λ p h. ground (arith, h))
        λ k stm wrong. absurd (ground (arith, wrong));
}
