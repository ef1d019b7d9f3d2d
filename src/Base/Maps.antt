-- ===== src/Base/Maps.antt =====
-- Go maps with string keys, as association lists that hold each key once.
use mathlib.Core.Path.{◌≡◌, refl}
use mathlib.Core.Option.{Option, none, some}
use mathlib.Core.List.{List, [], ◌∷◌}
use native.Mathlib.Omega.{arith}
use gql_firewall.Base.Tests.{if◌then◌else◌}
use gql_firewall.Base.Text.{Bytes, bytes_equal, bytes_equal_iff}

abbrev pub Map {ℓ} : Type ℓ → Type ℓ
Map V = List (Bytes × V)

module _ {ℓ} {V : Type ℓ} where
  -- `v, ok := m[k]`
  unfoldable pub lookup : Bytes → Map V → Option V
  lookup k [] = none
  lookup k ((j, v) ∷ m) = if bytes_equal j k then some v else lookup k m

  -- `m[k] = v`
  unfoldable pub insert : Bytes → V → Map V → Map V
  insert k v [] = (k, v) ∷ []
  insert k v ((j, w) ∷ m) = if bytes_equal j k then (k, v) ∷ m else (j, w) ∷ insert k v m

  -- `delete(m, k)`
  unfoldable pub delete : Bytes → Map V → Map V
  delete k [] = []
  delete k ((j, w) ∷ m) = let rest = delete k m in if bytes_equal j k then rest else (j, w) ∷ rest

  pub lookup-insert :
      (k j : Bytes) (v : V) (m : Map V)
      → lookup j (insert k v m) ≡ (if bytes_equal k j then some v else lookup j m)
  unfolding lookup insert
  lookup-insert k j v [] = refl
  lookup-insert k j v ((i, w) ∷ m) =
      ground (
        arith,
        bytes_equal_iff k j,
        bytes_equal_iff i k,
        bytes_equal_iff i j,
        lookup-insert k j v m,
      )

  pub lookup-delete :
      (k j : Bytes) (m : Map V)
      → lookup j (delete k m) ≡ (if bytes_equal k j then none else lookup j m)
  unfolding lookup delete
  lookup-delete k j [] = ground arith
  lookup-delete k j ((i, w) ∷ m) =
      ground
        (arith, bytes_equal_iff k j, bytes_equal_iff i k, bytes_equal_iff i j, lookup-delete k j m)

-- No key occurs twice.
abbrev pub HasKeysOnce : {V : Type 0} → Map V → Type 0
HasKeysOnce [] = Unit
HasKeysOnce ((k, v) ∷ m) = (lookup k m ≡ none) × HasKeysOnce m

pub insert-HasKeysOnce :
    {V : Type 0} (k : Bytes) (v : V) (m : Map V) → HasKeysOnce m → HasKeysOnce (insert k v m)
unfolding insert lookup
insert-HasKeysOnce k v [] h = (refl, tt)
insert-HasKeysOnce k v ((j, w) ∷ m) h = ground (
  arith,
  bytes_equal_iff j k,
  bytes_equal_iff k j,
  lookup-insert k j v m,
  insert-HasKeysOnce k v m,
)
