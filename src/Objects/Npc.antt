-- ===== src/Objects/Npc.antt =====
-- src/DedicateProcess/UnityGameObjects/HostileNPC.h: which player's client drives an NPC. The client
-- with the authority may change the aggro; another takes the authority over by a higher one. Ids and
-- aggro are `int32_t` values, modelled by ℤ.
pub mod Authority
use extraction_server.Prelude.{Bool, true, false, not, ◌&&◌, ◌||◌, if◌then◌else◌}
use extraction_server.Prelude.Int.{ℤ, negsuc, leb_ℤ, eqb_ℤ, clamp_ℤ}

-- -1
abbrev pub no_target : ℤ
no_target = negsuc 0

pub record Npc : Type 0 where
  pub min_aggro : ℤ
  pub max_aggro : ℤ
  pub attack_damage : ℤ
  pub aggro : ℤ
  pub target_id : ℤ

-- The constructor of `HostileNPC`.
unfoldable pub new_npc : ℤ → ℤ → ℤ → Npc
new_npc attack_damage lo hi = record {
  min_aggro = lo;
  max_aggro = hi;
  attack_damage = attack_damage;
  aggro = lo;
  target_id = no_target;
}

-- `IsServerDriven`
abbrev pub is_server_driven : Npc → Bool
is_server_driven n = eqb_ℤ n.target_id no_target

-- `IsAuthority`
abbrev pub is_authority : ℤ → Npc → Bool
is_authority player n = not (eqb_ℤ player no_target) && eqb_ℤ player n.target_id

pub data RequestResult : Type 0 where
  rejected aggro_changed authority_changed : RequestResult

-- `SetAggroInternal`
set_aggro_internal : ℤ → ℤ → Npc → Npc
set_aggro_internal aggro target n =
    let clamped = clamp_ℤ aggro n.min_aggro n.max_aggro in
    if eqb_ℤ clamped n.min_aggro || eqb_ℤ target no_target
    then record n { aggro = n.min_aggro; target_id = no_target }
    else record n { aggro = clamped; target_id = target }

-- `ApplyAccepted`
apply_accepted : ℤ → ℤ → Npc → RequestResult × Npc
unfolding set_aggro_internal
apply_accepted aggro requester n =
    let n' = set_aggro_internal aggro requester n in
    (if eqb_ℤ n'.target_id n.target_id then aggro_changed else authority_changed, n')

-- `ApplyAggroRequest`
unfoldable pub apply_aggro_request : ℤ → ℤ → Npc → RequestResult × Npc
unfolding apply_accepted
apply_aggro_request requester aggro n =
    if not (is_authority requester n) then (rejected, n) else apply_accepted aggro requester n

-- `ApplyAuthorityRequest`
unfoldable pub apply_authority_request : ℤ → ℤ → Npc → RequestResult × Npc
unfolding apply_accepted
apply_authority_request requester aggro n =
    if eqb_ℤ requester no_target
    then (rejected, n)
    else if leb_ℤ (clamp_ℤ aggro n.min_aggro n.max_aggro) n.aggro
    then (rejected, n)
    else apply_accepted aggro requester n

-- `ApplyDamageAuthority`
unfoldable pub apply_damage_authority : ℤ → Npc → RequestResult × Npc
unfolding apply_authority_request
apply_damage_authority attacker n = apply_authority_request attacker n.max_aggro n

-- `ReleaseAuthority`
unfoldable pub release_authority : Npc → Bool × Npc
unfolding set_aggro_internal
release_authority n =
    if is_server_driven n then (false, n) else (true, set_aggro_internal n.min_aggro no_target n)
