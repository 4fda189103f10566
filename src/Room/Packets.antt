-- ===== src/Room/Packets.antt =====
-- `FillStaticObjects` and `FillDynamicObjects` of src/DedicateProcess/GameRoom.cpp: the objects of a
-- room in packets that stay below the payload limit. The size of a serialized object (`ByteSizeLong`
-- of protobuf) is a parameter.
pub mod Whole
pub mod Limit
use extraction_server.Prelude.{
  ℕ, ◌+◌, ◌%◌, ◌^◌, ◌≤◌, ◌<◌, ◌≡◌, ◌⊎◌, inl, inr, refl, sym, ap, ◌∙◌, ltb, leb, ◌==◌, if◌then◌else◌,
  Bool, true, false, Bool-cases, List, [], ◌∷◌, ◌++◌, length, length-append, All, All-append, arith,
  suc, zero,
}
use mathlib.Core.List.{append_assoc, append-nil}
use extraction_server.Prelude.Words.{add32}
use extraction_server.Room.{GameObject, Objects, GameRoom}

-- 1024 less 35 bytes of header and 10 to be safe
abbrev pub safe_payload_limit : ℕ
safe_payload_limit = 979

-- `D2CResponseBlueprintStaticObjects` and `D2CResponseSpawnMeDynamicObjects`
pub record Chunk : Type 0 where
  pub index : ℕ
  pub is_last : Bool
  pub ingame_objects : List (ℕ × GameObject)

pub is_nil : List Chunk → Bool
is_nil [] = true
is_nil _ = false

module _ (byte_size : GameObject → ℕ) where
  -- `itemSize`
  abbrev pub item_size : ℕ × GameObject → ℕ
  item_size e = byte_size e.1 + 5

  abbrev pub payload : List (ℕ × GameObject) → ℕ
  payload [] = 0
  payload (e ∷ es) = item_size e + payload es

-- The end of the function, after the loop.
pub close : List (ℕ × GameObject) → ℕ → ℕ → List Chunk → List Chunk
unfolding is_nil
close current size index out =
    if ltb 0 size
    then out ++ record { index = index; is_last = true; ingame_objects = current } ∷ []
    else if is_nil out
    then record { index = 0; is_last = true; ingame_objects = current } ∷ []
    else out

-- The loop: the objects that wait for a packet, their size, the index and the packets so far.
pub fill_loop : (GameObject → ℕ) → Objects → List (ℕ × GameObject) → ℕ → ℕ → List Chunk → List Chunk
unfolding close
fill_loop size [] current used index out = close current used index out
fill_loop size (e ∷ es) current used index out =
    let full = ltb safe_payload_limit (used + item_size size e) in
    fill_loop size es (if full then e ∷ [] else current ++ e ∷ [])
      (if full then item_size size e else used + item_size size e)
      (if full then add32 index 1 else index)
      (if full
        then out ++ record { index = index; is_last = false; ingame_objects = current } ∷ []
        else out)

pub fill_objects : (GameObject → ℕ) → Objects → List Chunk
unfolding fill_loop
fill_objects size os = fill_loop size os [] 0 0 []

-- `FillStaticObjects`
unfoldable pub fill_static_objects : (GameObject → ℕ) → GameRoom → List Chunk
unfolding fill_objects
fill_static_objects size r = fill_objects size r.static_objects

-- `FillDynamicObjects`
unfoldable pub fill_dynamic_objects : (GameObject → ℕ) → GameRoom → List Chunk
unfolding fill_objects
fill_dynamic_objects size r = fill_objects size r.dynamic_objects

-- What the client has when it puts the packets together in order.
unfoldable pub joined : List Chunk → List (ℕ × GameObject)
joined [] = []
joined (c ∷ cs) = c.ingame_objects ++ joined cs

-- Packets numbered from a number on, none of them the last.
abbrev pub AreOpen : ℕ → List Chunk → Type 0
AreOpen i [] = Unit
AreOpen i (c ∷ cs) = (c.index ≡ i % 2 ^ 32) × (c.is_last ≡ false) × AreOpen (i + 1) cs

-- Packets numbered from a number on, of which the final one, and no other, says that it is the last.
abbrev pub AreFramed : ℕ → List Chunk → Type 0
AreFramed i [] = ⊥
AreFramed i (c ∷ []) = (c.index ≡ i % 2 ^ 32) × (c.is_last ≡ true)
AreFramed i (c ∷ d ∷ cs) = (c.index ≡ i % 2 ^ 32) × (c.is_last ≡ false) × AreFramed (i + 1) (d ∷ cs)
