-- ===== src/Objects/Combat.antt =====
-- src/DedicateProcess/UnityGameObjects/CombatObject.h: hit points, shield and its regeneration.
-- Points and damage are never negative in the program (the tables hold none, and every write stops
-- at 0), so they are numbers here, and a subtraction that the source follows by a clamp at 0 is the
-- truncated one.
pub mod Bounds
pub mod Regen
pub mod Damage
use extraction_server.Prelude.{
  ℕ, ◌+◌, ◌-◌, ◌*◌, ◌/◌, leb, ltb, ◌==◌, if◌then◌else◌, Bool, true, false, not, ◌||◌, List, [], ◌∷◌,
}

abbrev pub no_attacker : ℕ
no_attacker = 0xffff_ffff

pub record CombatObject : Type 0 where
  pub max_hp : ℕ
  pub current_hp : ℕ
  pub death_pending : Bool
  pub last_attacker_id : ℕ
  pub max_shield : ℕ
  pub current_shield : ℕ
  pub damage_reduction_rate : ℕ
  pub shield_regen_per_sec : ℕ
  pub shield_regen_accum : ℕ

-- The constructors of `CombatObject`.
unfoldable pub new_combat_object : ℕ → CombatObject
new_combat_object max_hp = record {
  max_hp = max_hp;
  current_hp = max_hp;
  death_pending = false;
  last_attacker_id = no_attacker;
  max_shield = 0;
  current_shield = 0;
  damage_reduction_rate = 0;
  shield_regen_per_sec = 0;
  shield_regen_accum = 0;
}

-- `IsAlive`
abbrev pub is_alive : CombatObject → Bool
is_alive c = ltb 0 c.current_hp

-- `SetShield`: new armour starts with an empty shield.
unfoldable pub set_shield : ℕ → ℕ → ℕ → CombatObject → CombatObject
set_shield max_shield rate regen c = record c {
  max_shield = max_shield;
  current_shield = 0;
  damage_reduction_rate = rate;
  shield_regen_per_sec = regen;
  shield_regen_accum = 0;
}

-- `ChargeShield`
unfoldable pub charge_shield : ℕ → CombatObject → CombatObject
charge_shield amount c =
    let charged = c.current_shield + amount in
    record c { current_shield = if ltb c.max_shield charged then c.max_shield else charged }

-- `RegenShield`: the remainder of a thousandth is carried from tick to tick.
unfoldable pub regen_shield : ℕ → CombatObject → CombatObject
unfolding charge_shield
regen_shield elapsed c =
    if c.shield_regen_per_sec == 0 || (leb c.max_shield c.current_shield || not (is_alive c))
    then record c { shield_regen_accum = 0 }
    else let accum = c.shield_regen_accum + c.shield_regen_per_sec * elapsed in
      let gain = accum / 1000 in
      if gain == 0
      then record c { shield_regen_accum = accum }
      else charge_shield gain (record c { shield_regen_accum = accum - gain * 1000 })

-- The hit points after a hit that the shield holds: `damage * (10000 - rate) / 10000` is taken off;
-- for a rate above 10000 it would be negative, and is added.
held_hp : CombatObject → ℕ → ℕ
held_hp c damage =
    if leb c.damage_reduction_rate 10000
    then c.current_hp - damage * (10000 - c.damage_reduction_rate) / 10000
    else c.current_hp + damage * (c.damage_reduction_rate - 10000) / 10000

-- The end of `TakeDamage`: `OnDeath` sets the death flag.
settle : CombatObject → CombatObject
settle c = if c.current_hp == 0 then record c { death_pending = true } else c

-- `TakeDamage`: a hit that uses up the shield passes only the rest on.
unfoldable pub take_damage : ℕ → ℕ → CombatObject → CombatObject
unfolding held_hp settle
take_damage damage attacker c = settle (
    if leb c.current_shield damage
    then record c {
      last_attacker_id = attacker;
      current_hp = c.current_hp - (damage - c.current_shield);
      current_shield = 0;
    }
    else record c {
      last_attacker_id = attacker;
      current_hp = held_hp c damage;
      current_shield = c.current_shield - damage;
    })
