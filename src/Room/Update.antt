-- ===== src/Room/Update.antt =====
-- The regular updates of a room: `RegenPlayerShields` of src/DedicateProcess/GameRoom.cpp, and the
-- spawn spots that `SetSpawnSpot` of its rooms hands out in turn.
use extraction_server.Prelude.{
  ℕ, ◌+◌, ◌*◌, ◌/◌, ◌%◌, ◌≤◌, ◌<◌, ◌≡◌, refl, ap, ◌∙◌, ltb, ◌==◌, if◌then◌else◌, Bool-cases, inl,
  inr, some, List, [], ◌∷◌, arith, lookup, zero, suc, ◌≢◌, ◌-◌, get_or,
}
use native.Mathlib.Nat.{mod-eq_of_lt}
use extraction_server.Prelude.Lookups.{map_option, map_values, lookup-map_values}
use extraction_server.Prelude.Words.{sub32}
use extraction_server.Objects.Combat.{CombatObject, regen_shield, charge_shield}
use extraction_server.Room.{GameRoom}

abbrev pub max_regen_step_ms : ℕ
max_regen_step_ms = 1000

-- The time that one call counts: a longer one is cut.
abbrev pub regen_step : ℕ → ℕ
regen_step elapsed = if ltb max_regen_step_ms elapsed then max_regen_step_ms else elapsed

-- `RegenPlayerShields`; the first call only sets the time.
unfoldable pub regen_player_shields : ℕ → GameRoom → GameRoom
unfolding map_values
regen_player_shields now_ms r =
    if r.last_regen_ms == 0 then record r { last_regen_ms = now_ms } else record r {
      last_regen_ms = now_ms;
      player_objects =
          map_values (λ id o. regen_shield (regen_step (sub32 now_ms r.last_regen_ms)) o)
            r.player_objects;
    }

-- What one update may do to a player.
pub record Regenerates (c c' : CombatObject) : Type 0 where
  pub grows : c.current_shield ≤ c'.current_shield
  pub at_most_a_second : c'.current_shield ≤ c.current_shield + c.shield_regen_per_sec
  pub capped : c'.current_shield ≤ c'.max_shield
  pub same_hp : c'.current_hp ≡ c.current_hp
  pub carry_small : c'.shield_regen_accum < 1000

gain_bound :
    (accum rate step : ℕ) → accum < 1000 → step ≤ 1000 → (accum + rate * step) / 1000 ≤ rate
gain_bound accum rate step a s =
    let h : rate * step ≤ rate * 1000 = grind (arith, s) in omega (arith, h, a)

regen_shield-Regenerates :
    (step : ℕ) (c : CombatObject)
    → step ≤ 1000
    → c.current_shield ≤ c.max_shield
    → c.shield_regen_accum < 1000
    → Regenerates c (regen_shield step c)
unfolding regen_shield charge_shield
regen_shield-Regenerates step c s cap small =
    ground (arith, gain_bound c.shield_regen_accum c.shield_regen_per_sec step small s)

-- However long the process stood still, one update of a room gives a player at most the shield of one
-- second, never takes shield away, stays within the maximum, and leaves the hit points alone.
pub regen_player_shields-Regenerates :
    (now_ms id : ℕ) (c : CombatObject) (r : GameRoom)
    → lookup id r.player_objects ≡ some c
    → c.current_shield ≤ c.max_shield
    → c.shield_regen_accum < 1000
    → (c' : CombatObject) × (lookup id (regen_player_shields now_ms r).player_objects ≡ some c')
      × Regenerates c c'
unfolding regen_player_shields
regen_player_shields-Regenerates now_ms id c r h cap small =
    let step = regen_step (sub32 now_ms r.last_regen_ms) in
    elim (Bool-cases (r.last_regen_ms == 0)) [
      | inl e ↦ rw e (
          (
            c,
            h,
            record {
              grows = omega arith;
              at_most_a_second = omega arith;
              capped = cap;
              same_hp = refl;
              carry_small = small;
            },
          ))
      | inr e ↦ rw e (
          (
            regen_shield step c,
            lookup-map_values (λ i o. regen_shield step o) id r.player_objects
                ∙ ap (map_option (regen_shield step)) h,
            regen_shield-Regenerates step c (ground arith) cap small,
          ))
    ]

-- `SetSpawnSpot` of both rooms: the spot that goes out, and the index of the next one. The spots are
-- named by their positions in `_spawnSpots`, of which there are this many.
unfoldable pub set_spawn_spot : ℕ → ℕ → ℕ × ℕ
set_spawn_spot count index = (index, (index + 1) % count)

-- The spots of as many calls one after the other.
unfoldable pub spots : ℕ → ℕ → ℕ → List ℕ
unfolding set_spawn_spot
spots count zero index = []
spots count (suc n) index =
    let (spot, next) = set_spawn_spot count index in spot ∷ spots count n next

wrapped : ℕ → ℕ → ℕ
wrapped count n = if ltb n count then n else n - count

next_wraps : (count i : ℕ) → i < count → (i + 1) % count ≡ wrapped count (i + 1)
unfolding wrapped
next_wraps count i h = elim (Bool-cases (ltb (i + 1) count)) [
  | inl e ↦ rw e (mod-eq_of_lt (ground (arith, e)))
  | inr e ↦ let same : count ≡ i + 1 = ground (arith, e, h) in rw (e, same) (mod_self_lem i)
]
  where
    mod_self_lem : (i : ℕ) → (i + 1) % (i + 1) ≡ (i + 1) - (i + 1)
    mod_self_lem i = grind arith

spots_lem :
    (count n index j : ℕ)
    → index < count
    → n ≤ count
    → j < n
    → get_or (spots count n index) j 0 ≡ wrapped count (index + j)
unfolding spots set_spawn_spot wrapped
spots_lem count zero index j a b c = absurd (omega arith)
spots_lem count (suc n) index zero a b c = ground arith
spots_lem count (suc n) index (suc j) a b c =
    let w = next_wraps count index a in
    let bound : (index + 1) % count < count = ground (arith, w) in
    ground (arith, spots_lem count n ((index + 1) % count) j bound (omega arith) (omega arith), w)

-- As many players as there are spawn spots, spawned one after the other, all get different spots,
-- wherever the turn stands.
pub spots_differ :
    (count n index j k : ℕ)
    → index < count
    → n ≤ count
    → j < k
    → k < n
    → get_or (spots count n index) j 0 ≢ get_or (spots count n index) k 0
unfolding wrapped
spots_differ count n index j k a b c d e =
    ground (arith, e, spots_lem count n index j a b (omega arith), spots_lem count n index k a b d)
