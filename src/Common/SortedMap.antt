-- ===== src/Common/SortedMap.antt =====
-- `BTreeMap<u64, V>` as an association list in ascending key order.
use Prim.Native.Nat.{ℕ, suc, ◌≤◌, ◌<◌}
use mathlib.Core.Path.{◌≡◌, refl}
use mathlib.Core.Logic.{◌≢◌, inl, inr}
use mathlib.Core.List.{List, [], ◌∷◌, map}
use mathlib.Core.Option.{Option, none, some}
use native.Mathlib.Omega.{arith}
use superquery_node.Common.Tests.{ltb, ◌==◌, if◌then◌else◌, Bool-cases}
use superquery_node.Common.Lists.{length, All}

abbrev pub Map {ℓ} : Type ℓ → Type ℓ
Map V = List (ℕ × V)

module _ {ℓ} {V : Type ℓ} where
  unfoldable pub insert : ℕ → V → Map V → Map V
  insert k v [] = (k, v) ∷ []
  insert k v ((j, w) ∷ m) =
      if ltb k j then (k, v) ∷ (j, w) ∷ m else if k == j then (k, v) ∷ m else (j, w) ∷ insert k v m

  unfoldable pub lookup : ℕ → Map V → Option V
  lookup k [] = none
  lookup k ((j, w) ∷ m) = if k == j then some w else lookup k m

  unfoldable pub remove : ℕ → Map V → Map V
  remove k [] = []
  remove k ((j, w) ∷ m) = if k == j then m else (j, w) ∷ remove k m

  abbrev pub keys : Map V → List ℕ
  keys m = map (λ e. e.0) m

  -- The keys ascend strictly and none is below `lo`.
  abbrev pub From : ℕ → Map V → Type 0
  From lo [] = Unit
  From lo ((k, v) ∷ m) = (lo ≤ k) × From (suc k) m

  pub From-mono : (lo hi : ℕ) (m : Map V) → lo ≤ hi → From hi m → From lo m
  From-mono lo hi [] h f = tt
  From-mono lo hi ((k, v) ∷ m) h f = (omega arith, f.1)

  pub insert-From : (lo k : ℕ) (v : V) (m : Map V) → lo ≤ k → From lo m → From lo (insert k v m)
  unfolding insert
  insert-From lo k v [] h f = (h, tt)
  insert-From lo k v ((j, w) ∷ m) h f =
      ground (arith, insert-From (suc j) k v m, From-mono (suc k) (suc j) m)

  pub lookup_below : (k lo : ℕ) (m : Map V) → From lo m → k < lo → lookup k m ≡ none
  unfolding lookup
  lookup_below k lo [] f h = refl
  lookup_below k lo ((j, w) ∷ m) f h = ground (arith, lookup_below k (suc j) m f.1)

  pub lookup-insert :
      (k j : ℕ) (v : V) (m : Map V)
      → lookup j (insert k v m) ≡ (if j == k then some v else lookup j m)
  unfolding lookup insert
  lookup-insert k j v [] = refl
  lookup-insert k j v ((i, w) ∷ m) = ground (arith, lookup-insert k j v m)

  -- Two entries with different keys go in in either order.
  pub insert_comm :
      (j k : ℕ) (v w : V) (m : Map V)
      → j ≢ k
      → insert j v (insert k w m) ≡ insert k w (insert j v m)
  unfolding insert
  insert_comm j k v w [] h = ground arith
  insert_comm j k v w ((i, x) ∷ m) h = ground (arith, insert_comm j k v w m h)

  pub length-remove :
      (k : ℕ) (m : Map V) (v : V) → lookup k m ≡ some v → length m ≡ suc (length (remove k m))
  unfolding lookup remove
  length-remove k [] v h = ground arith
  length-remove k ((j, w) ∷ m) v h = ground (arith, length-remove k m v)

  pub length-insert-le : (k : ℕ) (v : V) (m : Map V) → length (insert k v m) ≤ suc (length m)
  unfolding insert
  length-insert-le k v [] = omega arith
  length-insert-le k v ((j, w) ∷ m) = ground (arith, length-insert-le k v m)

  pub All-insert {κ} :
      (P : ℕ × V → Type κ) (k : ℕ) (v : V) (m : Map V) → P (k, v) → All P m → All P (insert k v m)
  unfolding insert
  All-insert P k v [] p a = (p, tt)
  All-insert P k v ((j, w) ∷ m) p a = elim (Bool-cases (ltb k j)) [
    | inl lt ↦ rw lt (p, a)
    | inr ge ↦ elim (Bool-cases (k == j)) [
      | inl same ↦ rw (ge, same) (p, a.1)
      | inr other ↦ rw (ge, other) (a.0, All-insert P k v m p a.1)
    ]
  ]
