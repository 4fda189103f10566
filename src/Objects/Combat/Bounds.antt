-- ===== src/Objects/Combat/Bounds.antt =====
-- The invariant of a combat object (CombatObject.h) and the calls that change one.
use extraction_server.Prelude.{ℕ, ◌≤◌, ◌<◌, ◌≡◌, true, false, arith}
use extraction_server.Objects.Combat.{
  CombatObject, new_combat_object, set_shield, charge_shield, regen_shield, take_damage,
}

pub record IsValid (c : CombatObject) : Type 0 where
  pub hp_capped : c.current_hp ≤ c.max_hp
  pub shield_capped : c.current_shield ≤ c.max_shield
  pub rate_capped : c.damage_reduction_rate ≤ 10000
  pub death_marked : c.current_hp ≡ 0 → c.death_pending ≡ true
  pub alive_unmarked : 0 < c.current_hp → c.death_pending ≡ false

-- The calls that change a combat object.
pub data Call : Type 0 where
  shield : ℕ → ℕ → ℕ → Call
  charge regen : ℕ → Call
  hit : ℕ → ℕ → Call

unfoldable pub apply : Call → CombatObject → CombatObject
apply (shield m rate r) c = set_shield m rate r c
apply (charge n) c = charge_shield n c
apply (regen ms) c = regen_shield ms c
apply (hit damage attacker) c = take_damage damage attacker c

-- Armour in the tables reduces by at most 10000, the whole.
abbrev pub Allowed : Call → Type 0
Allowed (shield m rate r) = rate ≤ 10000
Allowed (charge n) = Unit {0}
Allowed (regen ms) = Unit {0}
Allowed (hit d a) = Unit {0}

pub new_combat_object-IsValid : (max_hp : ℕ) → 0 < max_hp → IsValid (new_combat_object max_hp)
unfolding new_combat_object
new_combat_object-IsValid max_hp h = ground arith

-- Every call, with a damage reduction of at most 10000 where it sets one, keeps hit points and
-- shield within their limits, and an object is marked for death exactly when it has no hit points.
pub apply-IsValid : (k : Call) (c : CombatObject) → Allowed k → IsValid c → IsValid (apply k c)
unfolding apply set_shield charge_shield regen_shield take_damage
apply-IsValid (shield m rate r) c a v = ground arith
apply-IsValid (charge n) c a v = ground arith
apply-IsValid (regen ms) c a v = ground arith
apply-IsValid (hit damage attacker) c a v = ground arith
