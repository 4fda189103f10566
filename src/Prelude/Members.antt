-- ===== src/Prelude/Members.antt =====
-- Membership in lists of numbers.
use extraction_server.Prelude.Tests.{◌==◌, ==_iff, Bool-cases}
use Prim.Native.Nat.{ℕ}
use mathlib.Core.Path.{◌≡◌, refl}
use mathlib.Core.Logic.{inl, inr}
use mathlib.Core.Bool.{Bool, true, false, ◌||◌}
use mathlib.Core.List.{List, [], ◌∷◌, ◌++◌}
use native.Mathlib.Omega.{arith}
use extraction_server.Prelude.Lists.{All}

-- Is the number in the list?
abbrev pub is_member : ℕ → List ℕ → Bool
is_member k [] = false
is_member k (j ∷ js) = k == j || is_member k js

-- The ids of a hash map: no key stands twice.
abbrev pub AreDistinct : List ℕ → Type 0
AreDistinct [] = Unit
AreDistinct (k ∷ ks) = (is_member k ks ≡ false) × AreDistinct ks

pub is_member-append :
    (k : ℕ) (xs ys : List ℕ) → is_member k (xs ++ ys) ≡ (is_member k xs || is_member k ys)
is_member-append k [] ys = refl
is_member-append k (x ∷ xs) ys = ground (arith, is_member-append k xs ys)

-- A predicate of all members holds of each.
pub All-member {ℓ} : (P : ℕ → Type ℓ) (k : ℕ) (xs : List ℕ) → All P xs → is_member k xs ≡ true → P k
All-member P k [] a m = cc
All-member P k (x ∷ xs) a m = elim (Bool-cases (k == x)) [
  | inl e ↦ let same = (==_iff k x).0 e in rw same a.0
  | inr e ↦ All-member P k xs a.1 (ground (arith, m, e))
]

-- Lists that are distinct and have no common member are distinct together.
pub AreDistinct-append :
    (xs ys : List ℕ)
    → AreDistinct xs
    → AreDistinct ys
    → All (λ x. is_member x ys ≡ false) xs
    → AreDistinct (xs ++ ys)
AreDistinct-append [] ys a b c = b
AreDistinct-append (x ∷ xs) ys a b c =
    (ground (arith, is_member-append x xs ys, a.0, c.0), AreDistinct-append xs ys a.1 b c.1)
