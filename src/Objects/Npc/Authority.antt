-- ===== src/Objects/Npc/Authority.antt =====
-- The aggro and the owner of an NPC, which `SetAggroInternal` of HostileNPC.h links.
use extraction_server.Prelude.{◌≡◌, ◌≢◌, ◌↔◌, List, [], ◌∷◌, arith}
use extraction_server.Prelude.Int.{ℤ, ◌≤ℤ◌, ◌<ℤ◌}
use extraction_server.Objects.Npc.{
  Npc, no_target, new_npc, RequestResult, rejected, authority_changed, apply_aggro_request,
  apply_authority_request, apply_damage_authority, release_authority,
}

pub record IsValid (n : Npc) : Type 0 where
  pub room : n.min_aggro <ℤ n.max_aggro
  pub low : n.min_aggro ≤ℤ n.aggro
  pub high : n.aggro ≤ℤ n.max_aggro
  pub ownerless_calm : (n.target_id ≡ no_target) → n.aggro ≡ n.min_aggro
  pub calm_ownerless : (n.aggro ≡ n.min_aggro) → n.target_id ≡ no_target

-- The calls that change an NPC's authority.
pub data Call : Type 0 where
  aggro_request authority_request : ℤ → ℤ → Call
  damage : ℤ → Call
  release : Call

unfoldable pub apply : Call → Npc → Npc
apply (aggro_request p a) n = (apply_aggro_request p a n).1
apply (authority_request p a) n = (apply_authority_request p a n).1
apply (damage p) n = (apply_damage_authority p n).1
apply release n = (release_authority n).1

unfoldable pub apply_all : List Call → Npc → Npc
apply_all [] n = n
apply_all (k ∷ ks) n = apply_all ks (apply k n)

apply-IsValid : (k : Call) (n : Npc) → IsValid n → IsValid (apply k n)
unfolding apply apply_aggro_request apply_authority_request apply_damage_authority release_authority
apply-IsValid (aggro_request p a) n v = ground arith
apply-IsValid (authority_request p a) n v = ground arith
apply-IsValid (damage p) n v = ground arith
apply-IsValid release n v = ground arith

new_npc-IsValid : (d lo hi : ℤ) → lo <ℤ hi → IsValid (new_npc d lo hi)
unfolding new_npc
new_npc-IsValid d lo hi h = ground arith

apply_all-IsValid : (ks : List Call) (n : Npc) → IsValid n → IsValid (apply_all ks n)
unfolding apply_all
apply_all-IsValid [] n v = v
apply_all-IsValid (k ∷ ks) n v = apply_all-IsValid ks (apply k n) (apply-IsValid k n v)

-- After any calls on a new NPC with room between its aggro limits, the aggro is within them, and it
-- is at the lower one exactly when nobody owns the NPC.
pub aggro_tells_owner :
    (d lo hi : ℤ) (ks : List Call)
    → lo <ℤ hi
    → let n = apply_all ks (new_npc d lo hi) in
      (n.min_aggro ≤ℤ n.aggro)
      × (n.aggro ≤ℤ n.max_aggro)
      × ((n.aggro ≡ n.min_aggro) ↔ (n.target_id ≡ no_target))
aggro_tells_owner d lo hi ks h =
    let v = apply_all-IsValid ks (new_npc d lo hi) (new_npc-IsValid d lo hi h) in
    (v.low, v.high, (v.calm_ownerless, v.ownerless_calm))

hit_takes :
    (n : Npc) (player : ℤ)
    → IsValid n
    → player ≢ no_target
    → n.target_id ≡ no_target
    → ((apply_damage_authority player n).0 ≡ authority_changed)
      × ((apply_damage_authority player n).1.target_id ≡ player)
unfolding apply_damage_authority apply_authority_request
hit_takes n player v real free = ground arith

-- No NPC is ever stuck without an owner: after any calls on a new NPC with room between its aggro
-- limits, one that nobody owns goes to the player whose hit lands next, and the change is reported.
pub never_stuck :
    (d lo hi : ℤ) (ks : List Call) (player : ℤ)
    → lo <ℤ hi
    → player ≢ no_target
    → (apply_all ks (new_npc d lo hi)).target_id ≡ no_target
    → let (answer, n) = apply_damage_authority player (apply_all ks (new_npc d lo hi)) in
      (answer ≡ authority_changed) × (n.target_id ≡ player)
never_stuck d lo hi ks player h real free =
    hit_takes (apply_all ks (new_npc d lo hi)) player
      (apply_all-IsValid ks (new_npc d lo hi) (new_npc-IsValid d lo hi h)) real free

-- What the answer to a request says of the states before and after it.
pub record Truthful (r : RequestResult) (n n' : Npc) : Type 0 where
  pub rejected_same : r ≡ rejected → n' ≡ n
  pub changed_moved : r ≡ authority_changed → n'.target_id ≢ n.target_id
  pub moved_changed : n'.target_id ≢ n.target_id → r ≡ authority_changed

-- The answers of the requests for aggro, for authority and by a hit are truthful: a rejected request
-- changes nothing, and the others report a change of authority exactly when the owner changed.
pub requests-Truthful :
    (player aggro : ℤ) (n : Npc)
    → Truthful (apply_aggro_request player aggro n).0 n (apply_aggro_request player aggro n).1
      × Truthful
          (apply_authority_request player aggro n).0
          n
          (apply_authority_request player aggro n).1
      × Truthful (apply_damage_authority player n).0 n (apply_damage_authority player n).1
unfolding apply_aggro_request apply_authority_request apply_damage_authority
requests-Truthful player aggro n = ground arith
