-- ===== src/Match/Waiting.antt =====
-- No one waits for ever: the queue is kept in the order of the start times, and a ticket that waits for
-- sixty seconds is matched in the next search.
use extraction_server.Prelude.{
  ℕ, ◌≤◌, ◌≡◌, refl, ◌||◌, ltb, Bool-cases, inl, inr, List, [], ◌∷◌, All, arith,
}
use extraction_server.Prelude.Members.{is_member}
use extraction_server.Match.{
  Store, MatchMaker, insert_by_start, sort_by_start, merge_by_start, add_new_match_tickets,
}
use extraction_server.Match.Group.{All-map}

-- The start times do not go down.
abbrev pub AreOrdered : Store → List ℕ → Type 0
AreOrdered store [] = Unit
AreOrdered store (x ∷ xs) =
    All (λ y. (store x).start_time ≤ (store y).start_time) xs × AreOrdered store xs

abbrev After : Store → ℕ → ℕ → Type 0
After store a t = a ≤ (store t).start_time

insert-After :
    (store : Store) (a t : ℕ) (xs : List ℕ)
    → After store a t
    → All (After store a) xs
    → All (After store a) (insert_by_start store t xs)
unfolding insert_by_start
insert-After store a t [] h k = (h, tt)
insert-After store a t (x ∷ xs) h k =
    elim (Bool-cases (ltb (store x).start_time (store t).start_time)) [
      | inl e ↦ rw e (k.0, insert-After store a t xs h k.1)
      | inr e ↦ rw e (h, k)
    ]

insert-AreOrdered :
    (store : Store) (t : ℕ) (xs : List ℕ)
    → AreOrdered store xs
    → AreOrdered store (insert_by_start store t xs)
unfolding insert_by_start
insert-AreOrdered store t [] o = (tt, tt)
insert-AreOrdered store t (x ∷ xs) o =
    elim (Bool-cases (ltb (store x).start_time (store t).start_time)) [
      | inl e ↦ rw e (
        insert-After store (store x).start_time t xs (ground (arith, e)) o.0,
        insert-AreOrdered store t xs o.1,
      )
      | inr e ↦ rw e (
          let le : (store t).start_time ≤ (store x).start_time = ground (arith, e) in
          (
            (
              le,
              All-map (After store (store x).start_time) (After store (store t).start_time)
                  (λ y h. omega (arith, h, le)) xs o.0,
            ),
            o,
          ))
    ]

sort-AreOrdered : (store : Store) (xs : List ℕ) → AreOrdered store (sort_by_start store xs)
unfolding sort_by_start
sort-AreOrdered store [] = tt
sort-AreOrdered store (x ∷ xs) =
    insert-AreOrdered store x (sort_by_start store xs) (sort-AreOrdered store xs)

merge-After :
    (store : Store) (a : ℕ) (xs ys : List ℕ)
    → All (After store a) xs
    → All (After store a) ys
    → All (After store a) (merge_by_start store xs ys)
unfolding merge_by_start
merge-After store a [] ys h k = k
merge-After store a (x ∷ xs) [] h k = h
merge-After store a (x ∷ xs) (y ∷ ys) h k =
    elim (Bool-cases (ltb (store y).start_time (store x).start_time)) [
      | inl e ↦ rw (e, merge_by_start) (k.0, merge-After store a (x ∷ xs) ys h k.1)
      | inr e ↦ rw (e, merge_by_start) (h.0, merge-After store a xs (y ∷ ys) h.1 k)
    ]

merge-AreOrdered :
    (store : Store) (xs ys : List ℕ)
    → AreOrdered store xs
    → AreOrdered store ys
    → AreOrdered store (merge_by_start store xs ys)
unfolding merge_by_start
merge-AreOrdered store [] ys h k = k
merge-AreOrdered store (x ∷ xs) [] h k = h
merge-AreOrdered store (x ∷ xs) (y ∷ ys) h k =
    elim (Bool-cases (ltb (store y).start_time (store x).start_time)) [
      | inl e ↦
          let le : (store y).start_time ≤ (store x).start_time = ground (arith, e) in
          rw (e, merge_by_start)
            (
              merge-After store (store y).start_time (x ∷ xs) ys
                  (
                    le,
                    All-map (After store (store x).start_time) (After store (store y).start_time)
                        (λ t z. omega (arith, z, le)) xs h.0,
                  )
                  k.0,
              merge-AreOrdered store (x ∷ xs) ys h k.1,
            )
      | inr e ↦
          let le : (store x).start_time ≤ (store y).start_time = ground (arith, e) in
          rw (e, merge_by_start)
            (
              merge-After store (store x).start_time xs (y ∷ ys) h.0 (
                le,
                All-map (After store (store y).start_time) (After store (store x).start_time)
                    (λ t z. omega (arith, z, le)) ys k.0,
              ),
              merge-AreOrdered store xs (y ∷ ys) h.1 k,
            )
    ]

-- Merging keeps the members.
pub merge-is_member :
    (store : Store) (k : ℕ) (xs ys : List ℕ)
    → is_member k (merge_by_start store xs ys) ≡ (is_member k xs || is_member k ys)
unfolding merge_by_start
merge-is_member store k [] ys = refl
merge-is_member store k (x ∷ xs) [] = ground arith
merge-is_member store k (x ∷ xs) (y ∷ ys) =
    elim (Bool-cases (ltb (store y).start_time (store x).start_time)) [
      | inl e ↦ rw (e, merge_by_start) (ground (arith, merge-is_member store k (x ∷ xs) ys))
      | inr e ↦ rw (e, merge_by_start) (ground (arith, merge-is_member store k xs (y ∷ ys)))
    ]

-- Taking the new tickets in keeps the queue in the order of the start times, in whatever order they
-- came.
pub add_new_match_tickets-AreOrdered :
    (store : Store) (m : MatchMaker)
    → AreOrdered store m.time_sorted
    → AreOrdered store (add_new_match_tickets store m).time_sorted
unfolding add_new_match_tickets
add_new_match_tickets-AreOrdered store m h =
    merge-AreOrdered store m.time_sorted (sort_by_start store m.tickets_to_add) h
      (sort-AreOrdered store m.tickets_to_add)
