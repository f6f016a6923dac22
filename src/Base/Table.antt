-- ===== src/Base/Table.antt =====
-- A hash table as an association list in the order in which GLib iterates over it. Insertion
-- replaces the value of a key that is there.
use skc_library.Base.{◌≡◌, refl, Option, none, some, List, [], ◌∷◌, arith, Eq, ◌≟◌, if◌then◌else◌}

abbrev pub Table {ℓ κ} : Type ℓ → Type κ → Type (ℓ ⊔ κ)
Table K V = List (K × V)

module _ {ℓ κ} {K : Type ℓ} {V : Type κ} ⦃e : Eq K⦄ where
  unfoldable pub lookup : K → Table K V → Option V
  lookup k [] = none
  lookup k ((j, v) ∷ t) = if j ≟ k then some v else lookup k t

  unfoldable pub insert : K → V → Table K V → Table K V
  insert k v [] = (k, v) ∷ []
  insert k v ((j, w) ∷ t) = if j ≟ k then (k, v) ∷ t else (j, w) ∷ insert k v t

  unfoldable pub remove : K → Table K V → Table K V
  remove k [] = []
  remove k ((j, w) ∷ t) = let rest = remove k t in if j ≟ k then rest else (j, w) ∷ rest

  pub lookup-insert :
      (k j : K) (v : V) (t : Table K V)
      → lookup j (insert k v t) ≡ (if k ≟ j then some v else lookup j t)
  unfolding lookup insert
  lookup-insert k j v [] = refl
  lookup-insert k j v ((i, w) ∷ t) =
      ground (arith, e.beq_iff k j, e.beq_iff i k, e.beq_iff i j, lookup-insert k j v t)

  pub lookup-remove :
      (k j : K) (t : Table K V) → lookup j (remove k t) ≡ (if k ≟ j then none else lookup j t)
  unfolding lookup remove
  lookup-remove k j [] = ground arith
  lookup-remove k j ((i, w) ∷ t) =
      ground (arith, e.beq_iff k j, e.beq_iff i k, e.beq_iff i j, lookup-remove k j t)

  -- Removing a key that is not there changes nothing.
  pub remove_missing : (k : K) (t : Table K V) → lookup k t ≡ none → remove k t ≡ t
  unfolding lookup remove
  remove_missing k [] h = refl
  remove_missing k ((i, w) ∷ t) h = ground (arith, remove_missing k t)

  -- What every entry of a table satisfies.
  abbrev pub All {ι} : (K → V → Type ι) → Table K V → Type ι
  All P [] = Unit
  All P ((k, v) ∷ t) = P k v × All P t
