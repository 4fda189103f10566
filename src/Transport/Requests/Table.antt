-- ===== src/Transport/Requests/Table.antt =====
-- The handler table against the packet ids.
use extraction_server.Prelude.{ℕ, ◌<◌, ◌≡◌, refl, none, some, arith}
use extraction_server.Transport.Requests.{
  Request, Reply, request_id, reply_id, handler_at, pkt_id_max, channel_open, heart_beat,
  request_blueprint, request_spawn_me, request_spawn_by_object_id, update_player_state,
  request_spawn_player_objects, notify_loading_complete, request_open_container, close_container,
  request_interact_container_object, request_equip_item, request_recent_inventory_info,
  request_switch_weapon, request_weapon_fire, request_recall, request_reload,
  notify_reload_sequence, request_npc_aggro, request_npc_authority, report_npc_attack,
  reply_heart_beat, response_channel_open, response_blueprint_static_objects,
  response_spawn_me_spawn_spot, response_spawn_me_dynamic_objects, response_spawn_by_object_id,
  spawn_player_object, spawn_player_objects, update_player_states, full_inventory_sync,
  response_open_container, response_interact_container_object, response_equip_item,
  response_interact_container_object_deny, response_equip_item_deny, response_recent_container_info,
  broadcast_weapon_fire, notify_health_change, response_recall, notify_recall_result,
  despawn_player_object, notify_spawn_object, notify_weapon_changed, notify_despawn_object,
  notify_player_killed, notify_object_killed, response_reload, reply_notify_reload_sequence,
  notify_npc_authority, broadcast_npc_attack, update_npc_states,
}

handler_at-request_id : (q : Request) → handler_at (request_id q) ≡ some q
unfolding handler_at request_id
handler_at-request_id channel_open = refl
handler_at-request_id heart_beat = refl
handler_at-request_id request_blueprint = refl
handler_at-request_id request_spawn_me = refl
handler_at-request_id request_spawn_by_object_id = refl
handler_at-request_id update_player_state = refl
handler_at-request_id request_spawn_player_objects = refl
handler_at-request_id notify_loading_complete = refl
handler_at-request_id request_open_container = refl
handler_at-request_id close_container = refl
handler_at-request_id request_interact_container_object = refl
handler_at-request_id request_equip_item = refl
handler_at-request_id request_recent_inventory_info = refl
handler_at-request_id request_switch_weapon = refl
handler_at-request_id request_weapon_fire = refl
handler_at-request_id request_recall = refl
handler_at-request_id request_reload = refl
handler_at-request_id notify_reload_sequence = refl
handler_at-request_id request_npc_aggro = refl
handler_at-request_id request_npc_authority = refl
handler_at-request_id report_npc_attack = refl

request_id-handler_at : (id : ℕ) (q : Request) → handler_at id ≡ some q → id ≡ request_id q
unfolding handler_at request_id
request_id-handler_at id q h = ground arith

request_id-bound : (q : Request) → request_id q < pkt_id_max
unfolding request_id
request_id-bound channel_open = omega arith
request_id-bound heart_beat = omega arith
request_id-bound request_blueprint = omega arith
request_id-bound request_spawn_me = omega arith
request_id-bound request_spawn_by_object_id = omega arith
request_id-bound update_player_state = omega arith
request_id-bound request_spawn_player_objects = omega arith
request_id-bound notify_loading_complete = omega arith
request_id-bound request_open_container = omega arith
request_id-bound close_container = omega arith
request_id-bound request_interact_container_object = omega arith
request_id-bound request_equip_item = omega arith
request_id-bound request_recent_inventory_info = omega arith
request_id-bound request_switch_weapon = omega arith
request_id-bound request_weapon_fire = omega arith
request_id-bound request_recall = omega arith
request_id-bound request_reload = omega arith
request_id-bound notify_reload_sequence = omega arith
request_id-bound request_npc_aggro = omega arith
request_id-bound request_npc_authority = omega arith
request_id-bound report_npc_attack = omega arith

reply_no_handler : (p : Reply) → handler_at (reply_id p) ≡ none
unfolding handler_at reply_id
reply_no_handler reply_heart_beat = refl
reply_no_handler response_channel_open = refl
reply_no_handler response_blueprint_static_objects = refl
reply_no_handler response_spawn_me_spawn_spot = refl
reply_no_handler response_spawn_me_dynamic_objects = refl
reply_no_handler response_spawn_by_object_id = refl
reply_no_handler spawn_player_object = refl
reply_no_handler spawn_player_objects = refl
reply_no_handler update_player_states = refl
reply_no_handler full_inventory_sync = refl
reply_no_handler response_open_container = refl
reply_no_handler response_interact_container_object = refl
reply_no_handler response_equip_item = refl
reply_no_handler response_interact_container_object_deny = refl
reply_no_handler response_equip_item_deny = refl
reply_no_handler response_recent_container_info = refl
reply_no_handler broadcast_weapon_fire = refl
reply_no_handler notify_health_change = refl
reply_no_handler response_recall = refl
reply_no_handler notify_recall_result = refl
reply_no_handler despawn_player_object = refl
reply_no_handler notify_spawn_object = refl
reply_no_handler notify_weapon_changed = refl
reply_no_handler notify_despawn_object = refl
reply_no_handler notify_player_killed = refl
reply_no_handler notify_object_killed = refl
reply_no_handler response_reload = refl
reply_no_handler reply_notify_reload_sequence = refl
reply_no_handler notify_npc_authority = refl
reply_no_handler broadcast_npc_attack = refl
reply_no_handler update_npc_states = refl

-- The table has each request's handler at its id and at no other, every request id passes the bound
-- that is tested first, and no packet of the server has a handler when a client sends it back.
pub handler_at_lem :
    (id : ℕ) (q r : Request) (p : Reply)
    → handler_at id ≡ some r
    → (handler_at (request_id q) ≡ some q)
      × (id ≡ request_id r)
      × (request_id q < pkt_id_max)
      × (handler_at (reply_id p) ≡ none)
handler_at_lem id q r p h =
    (handler_at-request_id q, request_id-handler_at id r h, request_id-bound q, reply_no_handler p)
