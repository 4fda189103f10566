-- ===== src/Room/Packets/Whole.antt =====
-- The packets of `FillStaticObjects` and `FillDynamicObjects` hold every object, in order.
use extraction_server.Prelude.{
  ℕ, ◌+◌, ◌%◌, ◌^◌, ◌≡◌, inl, inr, refl, sym, ap, ◌∙◌, ltb, if◌then◌else◌, Bool, true, false,
  Bool-cases, List, [], ◌∷◌, ◌++◌, length, length-append, arith,
}
use mathlib.Core.List.{append_assoc, append-nil}
use extraction_server.Prelude.Words.{add32}
use extraction_server.Room.{GameObject, Objects, GameRoom}
use extraction_server.Room.Packets.{
  Chunk, item_size, safe_payload_limit, close, is_nil, fill_loop, fill_objects, fill_static_objects,
  fill_dynamic_objects, joined, AreOpen, AreFramed,
}

joined-append : (xs ys : List Chunk) → joined (xs ++ ys) ≡ joined xs ++ joined ys
unfolding joined
joined-append [] ys = refl
joined-append (c ∷ xs) ys =
    ap (λ zs. c.ingame_objects ++ zs) (joined-append xs ys)
    ∙ sym (append_assoc c.ingame_objects (joined xs) (joined ys))

joined-snoc :
    (xs : List Chunk) (i : ℕ) (b : Bool) (os : List (ℕ × GameObject))
    → joined (xs ++ record { index = i; is_last = b; ingame_objects = os } ∷ []) ≡ joined xs ++ os
unfolding joined
joined-snoc xs i b os = joined-append xs _ ∙ ap (λ ys. joined xs ++ ys) (append-nil os)

-- What holds before each round of the loop.
record IsLoop (current : List (ℕ × GameObject)) (used index : ℕ) (out : List Chunk) : Type 0 where
  started : used ≡ 0 → (current ≡ []) × (out ≡ [])
  numbered : index ≡ length out % 2 ^ 32
  opened : AreOpen 0 out

AreOpen-snoc :
    (i : ℕ) (out : List Chunk) (c : Chunk)
    → AreOpen i out
    → c.index ≡ (i + length out) % 2 ^ 32
    → c.is_last ≡ false
    → AreOpen i (out ++ c ∷ [])
AreOpen-snoc i [] c h e f = (omega (arith, e), f, tt)
AreOpen-snoc i (d ∷ out) c h e f = (h.0, h.1, AreOpen-snoc (i + 1) out c h.2 (omega (arith, e)) f)

AreFramed-snoc :
    (i : ℕ) (out : List Chunk) (c : Chunk)
    → AreOpen i out
    → c.index ≡ (i + length out) % 2 ^ 32
    → c.is_last ≡ true
    → AreFramed i (out ++ c ∷ [])
AreFramed-snoc i [] c h e f = (omega (arith, e), f)
AreFramed-snoc i (d ∷ []) c h e f = (h.0, h.1, (omega (arith, e), f))
AreFramed-snoc i (d ∷ x ∷ out) c h e f =
    (h.0, h.1, AreFramed-snoc (i + 1) (x ∷ out) c h.2 (omega (arith, e)) f)

close_empty :
    (current : List (ℕ × GameObject)) (out : List Chunk)
    → current ≡ []
    → out ≡ []
    → let cs =
        if is_nil out
        then record { index = 0; is_last = true; ingame_objects = current } ∷ []
        else out in
      (joined cs ≡ joined out ++ current) × AreFramed 0 cs
unfolding is_nil joined
close_empty current out e f = rw (e, f) (refl, (refl, refl))

-- The end of the loop.
close_lem :
    (current : List (ℕ × GameObject)) (used index : ℕ) (out : List Chunk)
    → IsLoop current used index out
    → (joined (close current used index out) ≡ joined out ++ current)
      × AreFramed 0 (close current used index out)
unfolding close
close_lem current used index out v = elim (Bool-cases (ltb 0 used)) [
  | inl some_used ↦ rw some_used (
      (
        joined-snoc out index true current,
        AreFramed-snoc 0 out _ v.opened (omega (arith, v.numbered)) refl,
      ))
  | inr none_used ↦
      let zero_used : used ≡ 0 = ground (arith, none_used) in
      rw none_used (close_empty current out (v.started zero_used).0 (v.started zero_used).1)
]

-- A round keeps the invariant, and the objects so far grow by the new one.
IsLoop-full :
    (size : GameObject → ℕ) (e : ℕ × GameObject) (current : List (ℕ × GameObject)) (used index : ℕ)
    (out : List Chunk)
    → IsLoop current used index out
    → IsLoop
        (e ∷ [])
        (item_size size e)
        (add32 index 1)
        (out ++ record { index = index; is_last = false; ingame_objects = current } ∷ [])
IsLoop-full size e current used index out v = record {
  started = λ h. absurd (omega (arith, h));
  numbered = omega (
    arith,
    v.numbered,
    length-append out (record { index = index; is_last = false; ingame_objects = current } ∷ []),
  );
  opened = AreOpen-snoc 0 out _ v.opened (omega (arith, v.numbered)) refl;
}

IsLoop-fits :
    (size : GameObject → ℕ) (e : ℕ × GameObject) (current : List (ℕ × GameObject)) (used index : ℕ)
    (out : List Chunk)
    → IsLoop current used index out
    → IsLoop (current ++ e ∷ []) (used + item_size size e) index out
IsLoop-fits size e current used index out v = record {
  started = λ h. absurd (omega (arith, h));
  numbered = v.numbered;
  opened = v.opened;
}

fill_loop_lem :
    (size : GameObject → ℕ) (es current : List (ℕ × GameObject)) (used index : ℕ) (out : List Chunk)
    → IsLoop current used index out
    → (joined (fill_loop size es current used index out) ≡ joined out ++ (current ++ es))
      × AreFramed 0 (fill_loop size es current used index out)
unfolding fill_loop
fill_loop_lem size [] current used index out v =
    rw (append-nil current) (close_lem current used index out v)
fill_loop_lem size (e ∷ es) current used index out v =
    elim (Bool-cases (ltb safe_payload_limit (used + item_size size e))) [
      | inl full ↦ rw full (
          let c : Chunk = record { index = index; is_last = false; ingame_objects = current } in
          let (a, b) =
            fill_loop_lem size es (e ∷ []) (item_size size e) (add32 index 1) (out ++ c ∷ [])
              (IsLoop-full size e current used index out v) in
          (
            a
                ∙ ap (λ xs. xs ++ (e ∷ es)) (joined-snoc out index false current)
                ∙ append_assoc (joined out) current (e ∷ es),
            b,
          ))
      | inr fits ↦ rw fits (
          let (a, b) =
            fill_loop_lem size es (current ++ e ∷ []) (used + item_size size e) index out
              (IsLoop-fits size e current used index out v) in
          (a ∙ ap (λ xs. joined out ++ xs) (append_assoc current (e ∷ []) es), b))
    ]

fill_objects_lem :
    (size : GameObject → ℕ) (os : Objects)
    → (joined (fill_objects size os) ≡ os) × AreFramed 0 (fill_objects size os)
unfolding fill_objects joined
fill_objects_lem size os =
    fill_loop_lem size os [] 0 0 []
      (record { started = λ h. (refl, refl); numbered = refl; opened = tt })

-- The packets for the static objects of a room, and those for its dynamic objects, put together again
-- in order give all the objects, each once and in order. There is at least one packet, they are
-- numbered from 0 on (as 32-bit numbers), and the final one, and no other, says that it is the last.
pub fill_objects-joined :
    (size : GameObject → ℕ) (r : GameRoom)
    → (joined (fill_static_objects size r) ≡ r.static_objects)
      × AreFramed 0 (fill_static_objects size r)
      × (joined (fill_dynamic_objects size r) ≡ r.dynamic_objects)
      × AreFramed 0 (fill_dynamic_objects size r)
unfolding fill_static_objects fill_dynamic_objects
fill_objects-joined size r =
    let (a, b) = fill_objects_lem size r.static_objects in
    let (c, d) = fill_objects_lem size r.dynamic_objects in (a, b, c, d)
