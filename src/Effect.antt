-- ===== src/Effect.antt =====
-- The effects of the program's functions: a state `S`, the caller's error variable (`*err`), and
-- undefined behaviour as `none`: a read outside an object or through NULL.
pub mod Post
use skc_library.Base.{Option, none, some}
use skc_library.Types.{GError, Error, g_set_error, k_set_error}

abbrev pub Effect : Type 0 → Type 0 → Type 0
Effect S A = GError → S → Option (A × GError × S)

module _ {S : Type 0} where
  unfoldable pub pure : {A : Type 0} → A → Effect S A
  pure x e a = some (x, e, a)

  unfoldable pub fault : {A : Type 0} → Effect S A
  fault e a = none

  unfoldable pub gets : {A : Type 0} → (S → A) → Effect S A
  gets f e a = some (f a, e, a)

  unfoldable pub modify : (S → S) → Effect S (Unit {0})
  modify f e a = some (tt, e, f a)

  unfoldable pub set_error : Error → Effect S (Unit {0})
  set_error x e a = some (tt, g_set_error e x, a)

  unfoldable pub raise : Error → Effect S (Unit {0})
  raise x e a = some (tt, k_set_error e x, a)

  -- An action under an error variable of its own, which is returned.
  unfoldable pub own_error : {A : Type 0} → Effect S A → Effect S (A × GError)
  own_error m e a = elim (m none a) [ none ↦ none | some (x, e', a') ↦ some ((x, e'), e, a') ]

  infixl 5 ◌>>=◌ ◌>>◌
  unfoldable pub ◌>>=◌ : {A B : Type 0} → Effect S A → (A → Effect S B) → Effect S B
  unfolding pure fault gets modify set_error raise own_error
  ◌>>=◌ m f e a = elim (m e a) [ none ↦ none | some (x, e', a') ↦ f x e' a' ]

  abbrev pub ◌>>◌ : {A B : Type 0} → Effect S A → Effect S B → Effect S B
  m >> k = m >>= λ _. k
