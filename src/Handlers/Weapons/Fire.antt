-- ===== src/Handlers/Weapons/Fire.antt =====
-- Shots: what they cost, and the numbers of repeated ones.
use extraction_server.Prelude.{ℕ, ◌+◌, ◌^◌, ◌≡◌, ◌<◌, ◌⊎◌, true, false, refl, arith}
use extraction_server.Prelude.Words.{add32, sub32, before32}
use extraction_server.Inventory.Player.{magazine_of}
use extraction_server.Inventory.Player.Invariant.{IsValid}
use extraction_server.Handlers.Weapons.{WeaponsInHand, Shot, Range, current_weapon_id, fire}

-- A shot is refused without touching the inventory or the target, or it costs exactly one round of the
-- magazine of the weapon in hand.
pub fire_cost :
    (s : Shot) (h : WeaponsInHand) (r : Range)
    → let (fired, r') = fire s h r in
      ((fired ≡ false) × (r'.inventory ≡ r.inventory) × (r'.target ≡ r.target))
      ⊎ ((fired ≡ true)
          × (current_weapon_id h ≡ s.weapon_id)
          × ((magazine_of h.is_using_primary r.inventory).quantity
              ≡ (magazine_of h.is_using_primary r'.inventory).quantity + 1))
unfolding fire
fire_cost s h r = ground arith

-- A shot keeps a valid inventory valid.
pub fire-IsValid :
    (s : Shot) (h : WeaponsInHand) (r : Range)
    → IsValid r.inventory
    → IsValid (fire s h r).1.inventory
unfolding fire
fire-IsValid s h r v = ground (arith, v)

old_refused :
    (s : Shot) (h : WeaponsInHand) (r : Range)
    → before32 s.fire_sequence r.next_sequence ≡ true
    → fire s h r ≡ (false, r)
unfolding fire
old_refused s h r e = rw e refl

before_next : (n k : ℕ) → n < 2 ^ 32 → k < 2 ^ 31 → before32 (sub32 n k) (add32 n 1) ≡ true
before_next n k small near = ground arith

fresh_counts :
    (s : Shot) (h : WeaponsInHand) (r : Range)
    → before32 s.fire_sequence r.next_sequence ≡ false
    → (fire s h r).1.next_sequence ≡ add32 s.fire_sequence 1
unfolding fire
fresh_counts s h r e = ground (arith, e)

-- A number counts once, whatever becomes of its shot: after a shot whose number is not an old one, be it
-- fired or refused for the weapon or the magazine, the same number again, and any up to 2^31 - 1 before
-- it, is refused with nothing changed.
pub fire_again :
    (s s' : Shot) (h h' : WeaponsInHand) (r : Range) (k : ℕ)
    → s.fire_sequence < 2 ^ 32
    → k < 2 ^ 31
    → before32 s.fire_sequence r.next_sequence ≡ false
    → s'.fire_sequence ≡ sub32 s.fire_sequence k
    → fire s' h' (fire s h r).1 ≡ (false, (fire s h r).1)
fire_again s s' h h' r k small near fresh again =
    let counted = fresh_counts s h r fresh in
    old_refused s' h' (fire s h r).1
      (rw (counted, again) (before_next s.fire_sequence k small near))
