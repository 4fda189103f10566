-- ===== src/Transport/Requests.antt =====
-- The packet ids of src/DedicateProcess/enum.h, the handler table that `ClientPacketHandler::Init`
-- fills, and the channel of each packet that the server makes.
pub mod Table
use extraction_server.Prelude.{
  ℕ, ◌<◌, ◌≡◌, refl, ◌==◌, if◌then◌else◌, Bool, true, false, Option, none, some, arith,
}

-- The packets of the client, one for each handler.
pub data Request : Type 0 where
  channel_open heart_beat request_blueprint request_spawn_me : Request
  request_spawn_by_object_id update_player_state request_spawn_player_objects : Request
  notify_loading_complete request_open_container close_container : Request
  request_interact_container_object request_equip_item : Request
  request_recent_inventory_info request_switch_weapon request_weapon_fire : Request
  request_recall request_reload notify_reload_sequence request_npc_aggro : Request
  request_npc_authority report_npc_attack : Request

-- Their ids
unfoldable pub request_id : Request → ℕ
request_id channel_open = 0
request_id heart_beat = 2
request_id request_blueprint = 4
request_id request_spawn_me = 6
request_id request_spawn_by_object_id = 9
request_id update_player_state = 11
request_id request_spawn_player_objects = 12
request_id notify_loading_complete = 16
request_id request_open_container = 18
request_id close_container = 20
request_id request_interact_container_object = 21
request_id request_equip_item = 23
request_id request_recent_inventory_info = 27
request_id request_switch_weapon = 38
request_id request_weapon_fire = 29
request_id request_recall = 32
request_id request_reload = 42
request_id notify_reload_sequence = 44
request_id request_npc_aggro = 46
request_id request_npc_authority = 47
request_id report_npc_attack = 48

-- `PKT_ID_MAX`
abbrev pub pkt_id_max : ℕ
pkt_id_max = 52

-- The table after `Init`; `none` is `Handle_Client_Invalid`.
unfoldable pub handler_at : ℕ → Option Request
handler_at id =
    if id == 0
    then some channel_open
    else if id == 2
    then some heart_beat
    else if id == 4
    then some request_blueprint
    else if id == 6
    then some request_spawn_me
    else if id == 9
    then some request_spawn_by_object_id
    else if id == 11
    then some update_player_state
    else if id == 12
    then some request_spawn_player_objects
    else if id == 16
    then some notify_loading_complete
    else if id == 18
    then some request_open_container
    else if id == 20
    then some close_container
    else if id == 21
    then some request_interact_container_object
    else if id == 23
    then some request_equip_item
    else if id == 27
    then some request_recent_inventory_info
    else if id == 38
    then some request_switch_weapon
    else if id == 29
    then some request_weapon_fire
    else if id == 32
    then some request_recall
    else if id == 42
    then some request_reload
    else if id == 44
    then some notify_reload_sequence
    else if id == 46
    then some request_npc_aggro
    else if id == 47
    then some request_npc_authority
    else if id == 48
    then some report_npc_attack
    else none

-- The packets of the server.
pub data Reply : Type 0 where
  reply_heart_beat response_channel_open response_blueprint_static_objects : Reply
  response_spawn_me_spawn_spot response_spawn_me_dynamic_objects : Reply
  response_spawn_by_object_id spawn_player_object spawn_player_objects : Reply
  update_player_states full_inventory_sync response_open_container : Reply
  response_interact_container_object response_equip_item : Reply
  response_interact_container_object_deny response_equip_item_deny : Reply
  response_recent_container_info broadcast_weapon_fire notify_health_change : Reply
  response_recall notify_recall_result despawn_player_object notify_spawn_object : Reply
  notify_weapon_changed notify_despawn_object notify_player_killed : Reply
  notify_object_killed response_reload reply_notify_reload_sequence : Reply
  notify_npc_authority broadcast_npc_attack update_npc_states : Reply

-- Their ids
unfoldable pub reply_id : Reply → ℕ
reply_id reply_heart_beat = 3
reply_id response_channel_open = 1
reply_id response_blueprint_static_objects = 5
reply_id response_spawn_me_spawn_spot = 7
reply_id response_spawn_me_dynamic_objects = 8
reply_id response_spawn_by_object_id = 10
reply_id spawn_player_object = 13
reply_id spawn_player_objects = 14
reply_id update_player_states = 15
reply_id full_inventory_sync = 17
reply_id response_open_container = 19
reply_id response_interact_container_object = 22
reply_id response_equip_item = 24
reply_id response_interact_container_object_deny = 25
reply_id response_equip_item_deny = 26
reply_id response_recent_container_info = 28
reply_id broadcast_weapon_fire = 30
reply_id notify_health_change = 31
reply_id response_recall = 33
reply_id notify_recall_result = 34
reply_id despawn_player_object = 35
reply_id notify_spawn_object = 36
reply_id notify_weapon_changed = 37
reply_id notify_despawn_object = 39
reply_id notify_player_killed = 40
reply_id notify_object_killed = 41
reply_id response_reload = 43
reply_id reply_notify_reload_sequence = 45
reply_id notify_npc_authority = 49
reply_id broadcast_npc_attack = 50
reply_id update_npc_states = 51

-- Does the packet take a reliable sequence number and wait for an ack?
unfoldable pub is_reliable : Reply → Bool
is_reliable reply_heart_beat = false
is_reliable response_channel_open = true
is_reliable response_blueprint_static_objects = true
is_reliable response_spawn_me_spawn_spot = true
is_reliable response_spawn_me_dynamic_objects = true
is_reliable response_spawn_by_object_id = true
is_reliable spawn_player_object = true
is_reliable spawn_player_objects = true
is_reliable update_player_states = false
is_reliable full_inventory_sync = true
is_reliable response_open_container = true
is_reliable response_interact_container_object = true
is_reliable response_equip_item = true
is_reliable response_interact_container_object_deny = true
is_reliable response_equip_item_deny = true
is_reliable response_recent_container_info = true
is_reliable broadcast_weapon_fire = false
is_reliable notify_health_change = true
is_reliable response_recall = true
is_reliable notify_recall_result = true
is_reliable despawn_player_object = true
is_reliable notify_spawn_object = true
is_reliable notify_weapon_changed = true
is_reliable notify_despawn_object = true
is_reliable notify_player_killed = true
is_reliable notify_object_killed = true
is_reliable response_reload = true
is_reliable reply_notify_reload_sequence = false
is_reliable notify_npc_authority = true
is_reliable broadcast_npc_attack = false
is_reliable update_npc_states = false
