-- ===== src/Prelude/Lookups.antt =====
-- How a lookup sees a change of the values of a map.
use Prim.Native.Nat.{ℕ}
use mathlib.Core.Path.{◌≡◌, refl}
use mathlib.Core.List.{List, [], ◌∷◌}
use mathlib.Core.Option.{Option, none, some}
use native.Mathlib.Omega.{arith}
use extraction_server.Prelude.Tests.{◌==◌, if◌then◌else◌}
use extraction_server.Prelude.Maps.{lookup, adjust}

-- A change of the value, if there is one.
abbrev pub map_option {ℓ κ} : {A : Type ℓ} {B : Type κ} → (A → B) → Option A → Option B
map_option f none = none
map_option f (some a) = some (f a)

module _ {ℓ} {V : Type ℓ} where
  -- A loop over the entries that may write each value.
  unfoldable pub map_values : (ℕ → V → V) → List (ℕ × V) → List (ℕ × V)
  map_values f [] = []
  map_values f ((k, v) ∷ m) = (k, f k v) ∷ map_values f m

  -- The keys in iteration order.
  unfoldable pub keys : List (ℕ × V) → List ℕ
  keys [] = []
  keys ((k, v) ∷ m) = k ∷ keys m

  pub lookup-map_values :
      (f : ℕ → V → V) (k : ℕ) (m : List (ℕ × V))
      → lookup k (map_values f m) ≡ map_option (f k) (lookup k m)
  unfolding lookup map_values
  lookup-map_values f k [] = refl
  lookup-map_values f k ((j, v) ∷ m) = ground (arith, lookup-map_values f k m)

  pub lookup-adjust :
      (f : V → V) (k j : ℕ) (m : List (ℕ × V))
      → lookup j (adjust k f m) ≡ (if j == k then map_option f (lookup j m) else lookup j m)
  unfolding lookup adjust
  lookup-adjust f k j [] = ground arith
  lookup-adjust f k j ((i, v) ∷ m) = ground (arith, lookup-adjust f k j m)

  pub keys-map_values : (f : ℕ → V → V) (m : List (ℕ × V)) → keys (map_values f m) ≡ keys m
  unfolding keys map_values
  keys-map_values f [] = refl
  keys-map_values f ((k, v) ∷ m) = λ i. k ∷ keys-map_values f m i

  pub keys-adjust : (f : V → V) (k : ℕ) (m : List (ℕ × V)) → keys (adjust k f m) ≡ keys m
  unfolding keys adjust
  keys-adjust f k [] = refl
  keys-adjust f k ((j, v) ∷ m) = ground (arith, keys-adjust f k m)
