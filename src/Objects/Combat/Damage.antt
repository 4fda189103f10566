-- ===== src/Objects/Combat/Damage.antt =====
-- `TakeDamage` of CombatObject.h: runs of hits, and a hit compared with a larger one.
use extraction_server.Prelude.{ℕ, ◌+◌, ◌-◌, ◌*◌, ◌≤◌, ◌<◌, ◌≡◌, true, List, [], ◌∷◌, arith, leb}
use extraction_server.Objects.Combat.{CombatObject, take_damage}
use extraction_server.Objects.Combat.Bounds.{IsValid}

-- A hit is its damage and its attacker.
unfoldable pub take_hits : List (ℕ × ℕ) → CombatObject → CombatObject
take_hits [] c = c
take_hits ((damage, attacker) ∷ hits) c = take_hits hits (take_damage damage attacker c)

unfoldable pub total_damage : List (ℕ × ℕ) → ℕ
total_damage [] = 0
total_damage ((damage, attacker) ∷ hits) = damage + total_damage hits

record Bare (c c' : CombatObject) (damage : ℕ) : Type 0 where
  pub still_bare : c'.current_shield ≡ 0
  pub hp_lost : c'.current_hp ≡ c.current_hp - damage
  pub death_flag : c.current_hp ≤ damage → c'.death_pending ≡ true
  pub alive_flag : damage < c.current_hp → c'.death_pending ≡ c.death_pending

hit-Bare :
    (damage attacker : ℕ) (c : CombatObject)
    → c.current_shield ≡ 0
    → Bare c (take_damage damage attacker c) damage
unfolding take_damage
hit-Bare damage attacker c bare = ground arith

take_hits-Bare :
    (hits : List (ℕ × ℕ)) (c : CombatObject)
    → c.current_shield ≡ 0
    → (c.current_hp ≡ 0 → c.death_pending ≡ true)
    → Bare c (take_hits hits c) (total_damage hits)
unfolding take_hits total_damage
take_hits-Bare [] c bare marked = ground arith
take_hits-Bare ((damage, attacker) ∷ hits) c bare marked =
    let first = hit-Bare damage attacker c bare in
    let later =
      take_hits-Bare hits (take_damage damage attacker c) first.still_bare
        (λ e. first.death_flag (omega (arith, first.hp_lost))) in
    ground (arith, first, later)

-- Without a shield a valid living object loses exactly what its attackers deal, down to 0: after
-- any run of hits its hit points are what the total damage leaves, and it is marked for death just
-- when the total reaches them.
pub take_hits-unshielded :
    (hits : List (ℕ × ℕ)) (c : CombatObject)
    → IsValid c
    → 0 < c.current_hp
    → c.current_shield ≡ 0
    → let c' = take_hits hits c in
      (c'.current_hp ≡ c.current_hp - total_damage hits)
      × (c'.death_pending ≡ leb c.current_hp (total_damage hits))
take_hits-unshielded hits c v alive bare =
    let b = take_hits-Bare hits c bare v.death_marked in ground (arith, b)

-- A shield does not make the order of damage an order of losses: a hit of exactly the shield's
-- points costs a living object no hit points at all, while every smaller hit whose reduced damage is
-- not rounded to 0 costs some.
pub full_hit_gentler :
    (damage a b : ℕ) (c : CombatObject)
    → IsValid c
    → 0 < c.current_hp
    → damage < c.current_shield
    → 10000 ≤ damage * (10000 - c.damage_reduction_rate)
    → ((take_damage c.current_shield a c).current_hp ≡ c.current_hp)
      × ((take_damage damage b c).current_hp < c.current_hp)
unfolding take_damage
full_hit_gentler damage a b c v alive small reduced = ground arith
