-- ===== src/Prelude/Map.antt =====
-- Go's map[uint32]V as an association list. A write replaces the entry of its key, so a map built by
-- writes and deletes holds each key at most once, and its length is Go's `len`.
use Prim.Native.Nat.{ℕ}
use mathlib.Core.Path.{◌≡◌, refl}
use mathlib.Core.Logic.{◌≢◌}
use mathlib.Core.Option.{Option, none, some}
use mathlib.Core.List.{List, [], ◌∷◌}
use native.Mathlib.Omega.{arith}
use distributed_donut.Prelude.Tests.{◌==◌, if◌then◌else◌}
use distributed_donut.Prelude.Lists.{length}

abbrev pub Map {ℓ} : Type ℓ → Type ℓ
Map V = List (ℕ × V)

module _ {ℓ} {V : Type ℓ} where
  unfoldable pub lookup : ℕ → Map V → Option V
  lookup k [] = none
  lookup k ((j, v) ∷ m) = if j == k then some v else lookup k m

  unfoldable pub insert : ℕ → V → Map V → Map V
  insert k v [] = (k, v) ∷ []
  insert k v ((j, w) ∷ m) = if j == k then (k, v) ∷ m else (j, w) ∷ insert k v m

  unfoldable pub delete : ℕ → Map V → Map V
  delete k [] = []
  delete k ((j, w) ∷ m) = let rest = delete k m in if j == k then rest else (j, w) ∷ rest

  pub lookup-nil : (k : ℕ) → ◌≡◌ {A = Option V} (lookup k []) none
  unfolding lookup
  lookup-nil k = refl

  pub lookup-insert :
      (j k : ℕ) (v : V) (m : Map V)
      → lookup j (insert k v m) ≡ (if k == j then some v else lookup j m)
  unfolding lookup insert
  lookup-insert j k v [] = refl
  lookup-insert j k v ((i, w) ∷ m) = ground (arith, lookup-insert j k v m)

  pub lookup-delete :
      (j k : ℕ) (m : Map V) → lookup j (delete k m) ≡ (if k == j then none else lookup j m)
  unfolding lookup delete
  lookup-delete j k [] = ground arith
  lookup-delete j k ((i, w) ∷ m) = ground (arith, lookup-delete j k m)

  -- An empty map has no entry.
  pub lookup-length_zero : (j : ℕ) (m : Map V) → length m ≡ 0 → lookup j m ≡ none
  unfolding lookup
  lookup-length_zero j [] e = refl
  lookup-length_zero j (x ∷ m) e = absurd (omega arith)

  -- A map with an entry is not empty.
  pub length-pos_of_lookup : (j : ℕ) (m : Map V) {v : V} → lookup j m ≡ some v → length m ≢ 0
  unfolding lookup
  length-pos_of_lookup j [] e = λ _. cc
  length-pos_of_lookup j (x ∷ m) e = omega arith

  pub length-insert-pos : (k : ℕ) (v : V) (m : Map V) → length (insert k v m) ≢ 0
  unfolding insert
  length-insert-pos k v [] = omega arith
  length-insert-pos k v ((i, w) ∷ m) = ground arith
