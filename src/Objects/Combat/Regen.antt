-- ===== src/Objects/Combat/Regen.antt =====
-- `RegenShield` of CombatObject.h over many ticks, with the remainder that is carried.
use extraction_server.Prelude.{ℕ, ◌+◌, ◌*◌, ◌<◌, ◌≡◌, List, [], ◌∷◌, arith}
use extraction_server.Objects.Combat.{CombatObject, charge_shield, regen_shield}

-- The ticks of a stretch of time in which nothing else happens to the object.
unfoldable pub regen_ticks : List ℕ → CombatObject → CombatObject
regen_ticks [] c = c
regen_ticks (ms ∷ rest) c = regen_ticks rest (regen_shield ms c)

unfoldable pub total : List ℕ → ℕ
total [] = 0
total (ms ∷ rest) = ms + total rest

-- The shield in thousandths of a point, the carried remainder included.
abbrev pub milli_shield : CombatObject → ℕ
milli_shield c = 1000 * c.current_shield + c.shield_regen_accum

-- Alive, worn armour regenerates, and the shield is not full.
pub record Regenerates (c : CombatObject) : Type 0 where
  pub alive : 0 < c.current_hp
  pub rate_positive : 0 < c.shield_regen_per_sec
  pub not_full : c.current_shield < c.max_shield
  pub remainder : c.shield_regen_accum < 1000

pub record SameArmour (c c' : CombatObject) : Type 0 where
  pub same_hp : c'.current_hp ≡ c.current_hp
  pub same_max : c'.max_shield ≡ c.max_shield
  pub same_rate : c'.shield_regen_per_sec ≡ c.shield_regen_per_sec

regen_tick :
    (ms : ℕ) (c : CombatObject)
    → Regenerates c
    → milli_shield c + c.shield_regen_per_sec * ms < 1000 * c.max_shield
    → (milli_shield (regen_shield ms c) ≡ milli_shield c + c.shield_regen_per_sec * ms)
      × Regenerates (regen_shield ms c)
      × SameArmour c (regen_shield ms c)
unfolding regen_shield charge_shield
regen_tick ms c r h = ground arith

-- However a stretch of time is cut into ticks, a shield that does not become full in it gains
-- exactly the rate times its length, in thousandths of a point with the carried remainder.
pub regen_ticks-exact :
    (ticks : List ℕ) (c : CombatObject)
    → Regenerates c
    → milli_shield c + c.shield_regen_per_sec * total ticks < 1000 * c.max_shield
    → (milli_shield (regen_ticks ticks c) ≡ milli_shield c + c.shield_regen_per_sec * total ticks)
      × ((regen_ticks ticks c).shield_regen_accum < 1000)
unfolding regen_ticks total
regen_ticks-exact [] c r h = (omega arith, r.remainder)
regen_ticks-exact (ms ∷ rest) c r h =
    let (gain, r', same) = regen_tick ms c r (omega (arith, split)) in
    let (later, remainder) =
      regen_ticks-exact rest (regen_shield ms c) r'
        (grind (arith, split, same.same_rate, same.same_max)) in
    (grind (arith, split), remainder)
  where
    split :
        c.shield_regen_per_sec * (ms + total rest)
        ≡ c.shield_regen_per_sec * ms + c.shield_regen_per_sec * total rest
    split = omega arith
