-- ===== src/Base/Assoc.antt =====
-- Go maps with string keys, as association lists over the bytes of the key.
use mathlib.Core.Path.{◌≡◌, refl}
use mathlib.Core.Option.{Option, none, some}
use mathlib.Core.List.{List, [], ◌∷◌}
use native.Mathlib.Omega.{arith}
use vpn_cloude.Base.Tests.{if◌then◌else◌}
use vpn_cloude.Base.Slices.{Bytes, bytes_equal, bytes_equal_iff}

module _ {ℓ} {V : Type ℓ} where
  unfoldable pub lookup : Bytes → List (Bytes × V) → Option V
  lookup k [] = none
  lookup k ((j, v) ∷ m) = if bytes_equal j k then some v else lookup k m

  unfoldable pub insert : Bytes → V → List (Bytes × V) → List (Bytes × V)
  insert k v [] = (k, v) ∷ []
  insert k v ((j, w) ∷ m) = if bytes_equal j k then (k, v) ∷ m else (j, w) ∷ insert k v m

  unfoldable pub delete : Bytes → List (Bytes × V) → List (Bytes × V)
  delete k [] = []
  delete k ((j, w) ∷ m) = let rest = delete k m in if bytes_equal j k then rest else (j, w) ∷ rest

  pub lookup-insert :
      (k j : Bytes) (v : V) (m : List (Bytes × V))
      → lookup j (insert k v m) ≡ (if bytes_equal k j then some v else lookup j m)
  unfolding lookup insert
  lookup-insert k j v [] = refl
  lookup-insert k j v ((i, w) ∷ m) =
      ground (
        arith,
        bytes_equal_iff k j,
        bytes_equal_iff i k,
        bytes_equal_iff i j,
        lookup-insert k j v m,
      )

  pub lookup-delete :
      (k j : Bytes) (m : List (Bytes × V))
      → lookup j (delete k m) ≡ (if bytes_equal k j then none else lookup j m)
  unfolding lookup delete
  lookup-delete k j [] = ground arith
  lookup-delete k j ((i, w) ∷ m) =
      ground
        (arith, bytes_equal_iff k j, bytes_equal_iff i k, bytes_equal_iff i j, lookup-delete k j m)

  -- No key stands twice.
  abbrev pub Distinct : List (Bytes × V) → Type ℓ
  Distinct [] = Unit
  Distinct ((k, v) ∷ m) = (lookup k m ≡ none) × Distinct m

  pub insert-Distinct :
      (k : Bytes) (v : V) (m : List (Bytes × V)) → Distinct m → Distinct (insert k v m)
  unfolding insert
  insert-Distinct k v [] d = (unfold lookup in refl, tt)
  insert-Distinct k v ((j, w) ∷ m) d = ground (
    arith,
    bytes_equal_iff j k,
    bytes_equal_iff k j,
    lookup-insert k j v m,
    insert-Distinct k v m d.1,
  )

  pub delete-Distinct : (k : Bytes) (m : List (Bytes × V)) → Distinct m → Distinct (delete k m)
  unfolding delete
  delete-Distinct k [] d = tt
  delete-Distinct k ((j, w) ∷ m) d = ground (arith, lookup-delete k j m, delete-Distinct k m d.1)

  -- Each entry is what its key leads to.
  abbrev pub AllFound : List (Bytes × V) → List (Bytes × V) → Type ℓ
  AllFound [] m = Unit
  AllFound ((k, v) ∷ rest) m = (lookup k m ≡ some v) × AllFound rest m

  AllFound-cons :
      (rest m : List (Bytes × V)) (j : Bytes) (w : V)
      → lookup j rest ≡ none
      → AllFound rest m
      → AllFound rest ((j, w) ∷ m)
  unfolding lookup
  AllFound-cons [] m j w h a = tt
  AllFound-cons ((k, v) ∷ rest) m j w h a = (
    ground (arith, bytes_equal_iff j k, bytes_equal_iff k j),
    AllFound-cons rest m j w (ground arith) a.1,
  )

  pub AllFound-self : (m : List (Bytes × V)) → Distinct m → AllFound m m
  AllFound-self [] d = tt
  AllFound-self ((k, v) ∷ m) d = (
    unfold lookup in ground (arith, bytes_equal_iff k k),
    AllFound-cons m m k v d.0 (AllFound-self m d.1),
  )

  pub AllFound-delete :
      (rest m : List (Bytes × V)) (j : Bytes)
      → lookup j rest ≡ none
      → AllFound rest m
      → AllFound rest (delete j m)
  AllFound-delete [] m j h a = tt
  AllFound-delete ((k, v) ∷ rest) m j h a = (
    unfold lookup in ground (arith, bytes_equal_iff j k, bytes_equal_iff k j, lookup-delete j k m),
    AllFound-delete rest m j (unfold lookup in ground arith) a.1,
  )
