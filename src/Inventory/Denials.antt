-- ===== src/Inventory/Denials.antt =====
-- `DenyReason` of src/DedicateProcess/enum.h, and results that carry a reason. At most one reason is
-- set on any path, so a mask is one reason.
use extraction_server.Prelude.{ℕ, Bool, true, false, Option, none, some, ◌≡◌, refl, arith}

pub data Deny : Type 0 where
  version_mismatch slot_empty slot_not_empty slot_already_empty invalid_quantity blueprint_mismatch
        item_type_mismatch bare_handed magazine_unload_failed server_internal container_not_open
        out_of_range :
      Deny

-- The bit of a reason.
unfoldable pub mask : Deny → ℕ
mask version_mismatch = 0x0001
mask slot_empty = 0x0002
mask slot_not_empty = 0x0004
mask slot_already_empty = 0x0008
mask invalid_quantity = 0x0010
mask blueprint_mismatch = 0x0020
mask item_type_mismatch = 0x0040
mask bare_handed = 0x0080
mask magazine_unload_failed = 0x0100
mask server_internal = 0x0200
mask container_not_open = 0x0400
mask out_of_range = 0x0800

pub data Result {ℓ} (A : Type ℓ) : Type ℓ where
  ok : A → Result A
  err : Deny → Result A

infixl 5 ◌>>=◌ ◌>>◌
abbrev pub ◌>>=◌ {ℓ κ} : {A : Type ℓ} {B : Type κ} → Result A → (A → Result B) → Result B
ok a >>= f = f a
err d >>= f = err d

abbrev pub ◌>>◌ {ℓ κ} : {A : Type ℓ} {B : Type κ} → Result A → Result B → Result B
m >> k = m >>= λ _. k

-- Goes on if a test passes.
abbrev pub ensure : Bool → Deny → Result (Unit {0})
ensure true d = ok tt
ensure false d = err d

-- A value that must be there.
abbrev pub require {ℓ} : {A : Type ℓ} → Option A → Deny → Result A
require (some a) d = ok a
require none d = err d

pub >>=-ok {ℓ κ} :
    {A : Type ℓ} {B : Type κ} (m : Result A) (f : A → Result B) (b : B)
    → (m >>= f) ≡ ok b
    → (a : A) × (m ≡ ok a) × (f a ≡ ok b)
>>=-ok (ok a) f b h = (a, refl, h)
>>=-ok (err d) f b h = cc

pub ensure-ok : (t : Bool) (d : Deny) (u : Unit {0}) → ensure t d ≡ ok u → t ≡ true
ensure-ok true d u h = refl
ensure-ok false d u h = cc

pub require-ok {ℓ} :
    {A : Type ℓ} (o : Option A) (d : Deny) (a : A) → require o d ≡ ok a → o ≡ some a
require-ok (some b) d a h = ground arith
require-ok none d a h = cc

pub ok-injective {ℓ} : {A : Type ℓ} (a b : A) → ok a ≡ ok b → a ≡ b
ok-injective a b h = cc
