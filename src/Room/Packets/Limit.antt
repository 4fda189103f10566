-- ===== src/Room/Packets/Limit.antt =====
-- The packets of `FillStaticObjects` and `FillDynamicObjects` stay below the payload limit.
use extraction_server.Prelude.{
  ℕ, ◌+◌, ◌≤◌, ◌≡◌, refl, ltb, false, Bool-cases, inl, inr, List, [], ◌∷◌, ◌++◌, All, All-append,
  arith,
}
use extraction_server.Prelude.Words.{add32}
use extraction_server.Room.{GameObject, Objects, GameRoom}
use extraction_server.Room.Packets.{
  Chunk, item_size, payload, safe_payload_limit, close, is_nil, fill_loop, fill_objects,
  fill_static_objects, fill_dynamic_objects,
}

module _ (size : GameObject → ℕ) where
  -- The serialized objects of the packet are within the limit.
  abbrev pub Fits : Chunk → Type 0
  Fits c = payload size c.ingame_objects ≤ safe_payload_limit

  -- An object that fits a packet by itself.
  abbrev pub IsSmall : ℕ × GameObject → Type 0
  IsSmall e = item_size size e ≤ safe_payload_limit

  payload-snoc :
      (xs : List (ℕ × GameObject)) (e : ℕ × GameObject)
      → payload size (xs ++ e ∷ []) ≡ payload size xs + item_size size e
  payload-snoc [] e = omega arith
  payload-snoc (x ∷ xs) e = omega (arith, payload-snoc xs e)

  close-Fits :
      (current : List (ℕ × GameObject)) (used index : ℕ) (out : List Chunk)
      → payload size current ≤ safe_payload_limit
      → All Fits out
      → All Fits (close current used index out)
  unfolding close
  close-Fits current used index out h a = elim (Bool-cases (ltb 0 used)) [
    | inl e ↦ rw e (All-append Fits out _ a (h, tt))
    | inr e ↦ rw e (elim (Bool-cases (is_nil out)) [ inl f ↦ rw f (h, tt) | inr f ↦ rw f a ])
  ]

  fill_loop-Fits :
      (es current : List (ℕ × GameObject)) (used index : ℕ) (out : List Chunk)
      → All IsSmall es
      → used ≡ payload size current
      → used ≤ safe_payload_limit
      → All Fits out
      → All Fits (fill_loop size es current used index out)
  unfolding fill_loop
  fill_loop-Fits [] current used index out s e h a =
      close-Fits current used index out (omega (arith, e, h)) a
  fill_loop-Fits (x ∷ es) current used index out s e h a =
      elim (Bool-cases (ltb safe_payload_limit (used + item_size size x))) [
        | inl full ↦ rw full (
            fill_loop-Fits es (x ∷ []) (item_size size x) (add32 index 1)
              (out ++ record { index = index; is_last = false; ingame_objects = current } ∷ []) s.1
              (omega arith) s.0 (All-append Fits out _ a (omega (arith, e, h), tt)))
        | inr fits ↦ rw fits (
            fill_loop-Fits es (current ++ x ∷ []) (used + item_size size x) index out s.1
              (omega (arith, e, payload-snoc current x)) (ground (arith, fits)) a)
      ]

  fill_objects-Fits : (os : Objects) → All IsSmall os → All Fits (fill_objects size os)
  unfolding fill_objects
  fill_objects-Fits os s = fill_loop-Fits os [] 0 0 [] s refl (omega arith) tt

  -- Where each object takes at most the limit of 979 bytes, the objects of no packet take more, the 5
  -- bytes that are added for each of them included. The other fields of a packet, its index and the
  -- mark of the last one, are not counted.
  pub fill_objects-limit :
      (r : GameRoom)
      → All IsSmall r.static_objects
      → All IsSmall r.dynamic_objects
      → All Fits (fill_static_objects size r) × All Fits (fill_dynamic_objects size r)
  unfolding fill_static_objects fill_dynamic_objects
  fill_objects-limit r s d =
      (fill_objects-Fits r.static_objects s, fill_objects-Fits r.dynamic_objects d)
