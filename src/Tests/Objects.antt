-- ===== src/Tests/Objects.antt =====
-- Combat and NPCs at concrete inputs.
use extraction_server.Prelude.{◌<◌, ◌≡◌, refl, false, [], ◌∷◌, arith}
use extraction_server.Prelude.Int.{pos}
use extraction_server.Objects.Combat.{CombatObject, new_combat_object, take_damage}
use extraction_server.Objects.Combat.Bounds.{IsValid, new_combat_object-IsValid}
use extraction_server.Objects.Combat.Regen.{
  regen_ticks, total, milli_shield, Regenerates, regen_ticks-exact,
}
use extraction_server.Objects.Combat.Damage.{full_hit_gentler}
use extraction_server.Objects.Npc.{Npc, new_npc, authority_changed, apply_damage_authority}
use extraction_server.Objects.Npc.Authority.{apply_all, never_stuck}

abbrev soldier : CombatObject
soldier = new_combat_object 20000

soldier-IsValid : IsValid soldier
soldier-IsValid = new_combat_object-IsValid 20000 (omega arith)

-- Worn armour with a part of its shield.
abbrev shielded : CombatObject
shielded = record {
  max_hp = 20000;
  current_hp = 20000;
  death_pending = false;
  last_attacker_id = 7;
  max_shield = 10000;
  current_shield = 3000;
  damage_reduction_rate = 5000;
  shield_regen_per_sec = 800;
  shield_regen_accum = 300;
}

shielded-IsValid : IsValid shielded
shielded-IsValid = ground arith

shielded-Regenerates : Regenerates shielded
shielded-Regenerates = ground arith

regen_ticks-exact_example :
    (milli_shield (regen_ticks (33 ∷ 34 ∷ 33 ∷ []) shielded) ≡ 3080300)
    × ((regen_ticks (33 ∷ 34 ∷ 33 ∷ []) shielded).shield_regen_accum < 1000)
unfolding total
regen_ticks-exact_example =
    regen_ticks-exact (33 ∷ 34 ∷ 33 ∷ []) shielded shielded-Regenerates (omega arith)

full_hit_gentler_example :
    ((take_damage 3000 1 shielded).current_hp ≡ 20000)
    × ((take_damage 2999 2 shielded).current_hp < 20000)
full_hit_gentler_example =
    full_hit_gentler 2999 1 2 shielded shielded-IsValid (omega arith) (omega arith) (omega arith)

abbrev wolf : Npc
wolf = new_npc (pos 500) (pos 1) (pos 8)

never_stuck_example :
    ((apply_damage_authority (pos 5) (apply_all [] wolf)).0 ≡ authority_changed)
    × ((apply_damage_authority (pos 5) (apply_all [] wolf)).1.target_id ≡ pos 5)
unfolding apply_all new_npc
never_stuck_example =
    never_stuck (pos 500) (pos 1) (pos 8) [] (pos 5) (omega arith) (λ h. ground arith) refl
