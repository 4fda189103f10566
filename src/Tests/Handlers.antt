-- ===== src/Tests/Handlers.antt =====
-- The handlers at concrete inputs.
use extraction_server.Prelude.{
  ℕ, ◌≡◌, true, false, refl, some, List, [], ◌∷◌, ◌==◌, replicate, arith,
}
use extraction_server.Prelude.Int.{pos}
use extraction_server.Inventory.Slots.{Slot, no_slot, first_where}
use extraction_server.Inventory.Player.{PlayerInventory}
use extraction_server.Inventory.Player.Invariant.{IsValid}
use extraction_server.Objects.Combat.{new_combat_object}
use extraction_server.Handlers.Occupancy.{open_container, release}
use extraction_server.Handlers.Occupancy.Exclusive.{
  ContainerRequest, open_request, serve, serve_all, one_at_a_time,
}
use extraction_server.Handlers.Weapons.{WeaponsInHand, Shot, Range, fire}
use extraction_server.Handlers.Weapons.Fire.{fire_again}

-- Player 3 opens container 40 and walks away; player 5 takes it over.
abbrev takeover : List ContainerRequest
takeover =
    open_request (λ c. true) (λ p c. true) 3 40 ∷ open_request (λ c. true) (λ p c. p == 5) 5 40 ∷ []

one_at_a_time_example : ◌≡◌ {A = ℕ} 5 5
unfolding serve_all serve open_container release
one_at_a_time_example = one_at_a_time (λ p. true) takeover 5 5 40 refl refl refl refl

abbrev armed : WeaponsInHand
armed = record { primary_id = 1; secondary_id = 2; is_using_primary = true }

abbrev pistol : Slot
pistol = record {
  item = record { instance_uid = 11; blueprint_id = 1 };
  slot_index = pos 0;
  quantity = 1;
}

abbrev rounds : Slot
rounds = record {
  item = record { instance_uid = 12; blueprint_id = 6 };
  slot_index = pos 0;
  quantity = 50;
}

abbrev pack : PlayerInventory
pack = record {
  primary_weapon = pistol;
  secondary_weapon = no_slot;
  armor = no_slot;
  primary_magazine = no_slot;
  secondary_magazine = no_slot;
  slots = rounds ∷ replicate 24 no_slot;
  version = 9;
  first_empty = some 1;
}

pack-IsValid : IsValid pack
unfolding first_where
pack-IsValid = ground arith

abbrev shot : Shot
shot = record { fire_sequence = 6; weapon_id = 1; shooter = 3 }

abbrev loaded : Range
loaded = record {
  next_sequence = 5;
  inventory = record pack { primary_magazine = record rounds { quantity = 30 } };
  target = some (new_combat_object 20000);
}

fire_again_example :
    fire shot armed (fire shot armed loaded).1 ≡ (false, (fire shot armed loaded).1)
unfolding fire
fire_again_example = fire_again shot shot armed armed loaded 0 (omega arith) (omega arith) refl refl
