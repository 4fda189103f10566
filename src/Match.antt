-- ===== src/Match.antt =====
-- `MatchMaker` of src/Matchmaker.h and Matchmaker.cpp: the queue of one map and the groups that it
-- forms. Tickets are named by numbers, as the source names them by pointers; a store has their fields.
-- Start times and the clock are whole seconds here, and the clock is read once for a search; the source
-- reads it for each pivot, and rounds down the difference of finer times.
pub mod Group
pub mod Rounds
pub mod Groups
pub mod Disjoint
pub mod Waiting
pub mod Patience
pub mod Filing
pub mod Verdicts
use extraction_server.Prelude.{
  ℕ, ◌+◌, ◌-◌, leb, ltb, ◌==◌, if◌then◌else◌, Bool, true, false, not, ◌&&◌, ◌||◌, List, [], ◌∷◌,
  ◌++◌, length, keep_if, zero, suc, min, map,
}

pub record MatchTicket : Type 0 where
  pub aggression : ℕ
  pub start_time : ℕ
  pub is_matched : Bool
  pub is_valid : Bool

-- The fields of the tickets.
abbrev pub Store : Type 0
Store = ℕ → MatchTicket

abbrev pub put_ticket : ℕ → MatchTicket → Store → Store
put_ticket t v store x = if x == t then v else store x

abbrev pub set_matched : Bool → ℕ → Store → Store
set_matched b t store = put_ticket t (record (store t) { is_matched = b }) store

pub record MatchMaker : Type 0 where
  pub max_agression : ℕ
  pub tickets_to_add : List ℕ
  pub time_sorted : List ℕ
  pub bucket : ℕ → List ℕ
  pub matched_groups : List (List ℕ)

-- `AddSingleMatchTicket`
unfoldable pub add_single_match_ticket : ℕ → MatchMaker → MatchMaker
add_single_match_ticket t m = record m { tickets_to_add = m.tickets_to_add ++ t ∷ [] }

-- `std::stable_sort` by the start time
unfoldable pub insert_by_start : Store → ℕ → List ℕ → List ℕ
insert_by_start store t [] = t ∷ []
insert_by_start store t (x ∷ xs) =
    let rest = insert_by_start store t xs in
    if ltb (store x).start_time (store t).start_time then x ∷ rest else t ∷ x ∷ xs

unfoldable pub sort_by_start : Store → List ℕ → List ℕ
unfolding insert_by_start
sort_by_start store [] = []
sort_by_start store (t ∷ ts) = insert_by_start store t (sort_by_start store ts)

-- `std::merge` by the start time: the first list goes first among equals.
unfoldable pub merge_by_start : Store → List ℕ → List ℕ → List ℕ
merge_by_start store [] ys = ys
merge_by_start store (x ∷ xs) [] = x ∷ xs
merge_by_start store (x ∷ xs) (y ∷ ys) = elim (ltb (store y).start_time (store x).start_time) [
  | true ↦ y ∷ merge_by_start store (x ∷ xs) ys
  | false ↦ x ∷ merge_by_start store xs (y ∷ ys)
]

-- The loop that puts new tickets at the end of their buckets.
unfoldable pub fill_buckets : Store → List ℕ → (ℕ → List ℕ) → ℕ → List ℕ
fill_buckets store [] bucket a = bucket a
fill_buckets store (t ∷ ts) bucket a =
    fill_buckets store ts (λ b. if b == (store t).aggression then bucket b ++ t ∷ [] else bucket b)
      a

-- `AddNewMatchTickets`
unfoldable pub add_new_match_tickets : Store → MatchMaker → MatchMaker
unfolding sort_by_start merge_by_start fill_buckets
add_new_match_tickets store m =
    let sorted = sort_by_start store m.tickets_to_add in
    record m {
      tickets_to_add = [];
      bucket = fill_buckets store sorted m.bucket;
      time_sorted = merge_by_start store m.time_sorted sorted;
    }

-- The limits that a wait of so many seconds brings: how far the aggression may differ, and how many
-- players a group needs.
unfoldable pub limits : ℕ → ℕ × ℕ
limits wait_s =
    if leb 60 wait_s
    then (1, 1)
    else if leb 40 wait_s
    then (1, 2)
    else if leb 20 wait_s
    then (0, 3)
    else (0, 4)

-- The loops over one bucket: they stop at four players, and skip those who are matched and, in the
-- pivot's own bucket, the pivot.
unfoldable pub collect : Store → (ℕ → Bool) → List ℕ → List ℕ → List ℕ
collect store skip [] group = group
collect store skip (c ∷ cs) group =
    let rest =
      collect store skip cs (if skip c || (store c).is_matched then group else group ++ c ∷ []) in
    if length group == 4 then group else rest

-- A round of the search at a distance from the pivot's aggression.
unfoldable pub search_round : Store → MatchMaker → ℕ → ℕ → ℕ → ℕ → List ℕ → List ℕ
unfolding collect
search_round store m pivot aggr allowed zero group =
    collect store (λ c. c == pivot) (m.bucket aggr) group
search_round store m pivot aggr allowed (suc range) group =
    let uaggr = aggr + suc range in
    let up =
      (if ltb (length group) 4 && leb uaggr (min m.max_agression (aggr + allowed))
        then collect store (λ c. false) (m.bucket uaggr) group
        else group) in
    if ltb (length up) 4 && (leb (suc range) aggr && leb (aggr - allowed) (aggr - suc range))
    then collect store (λ c. false) (m.bucket (aggr - suc range)) up
    else up

-- The `while` loop: so many rounds are left, from this distance on.
unfoldable pub search_loop : Store → MatchMaker → ℕ → ℕ → ℕ → ℕ → ℕ → List ℕ → List ℕ
unfolding search_round
search_loop store m pivot aggr allowed zero range group = group
search_loop store m pivot aggr allowed (suc rounds) range group =
    let found = search_round store m pivot aggr allowed range group in
    let rest = search_loop store m pivot aggr allowed rounds (range + 1) found in
    if length found == 4 then found else rest

-- The group around a pivot.
unfoldable pub group_of : Store → MatchMaker → ℕ → ℕ → List ℕ
unfolding search_loop
group_of store m allowed pivot =
    search_loop store m pivot (store pivot).aggression allowed (allowed + 1) 0 (pivot ∷ [])

unfoldable pub match_all : Bool → List ℕ → Store → Store
match_all b [] store = store
match_all b (t ∷ ts) store = match_all b ts (set_matched b t store)

-- What the loop over the pivots carries: the tickets, the aggressions it gave up on, the groups.
pub record Search : Type 0 where
  pub store : Store
  pub pivot_flags : ℕ → Bool
  pub groups : List (List ℕ)

-- The loop body of `FindMatchGroup`
unfoldable pub try_pivot : ℕ → MatchMaker → ℕ → Search → Search
unfolding group_of match_all limits
try_pivot now m pivot s =
    let p = s.store pivot in
    if p.is_matched || s.pivot_flags p.aggression
    then s
    else let (allowed, target) = limits (now - p.start_time) in
      let group = group_of s.store m allowed pivot in
      if leb target (length group)
      then record s { store = match_all true group s.store; groups = s.groups ++ group ∷ [] }
      else record s { pivot_flags = λ a. if a == p.aggression then true else s.pivot_flags a }

unfoldable pub try_pivots : ℕ → MatchMaker → List ℕ → Search → Search
unfolding try_pivot
try_pivots now m [] s = s
try_pivots now m (p ∷ ps) s = try_pivots now m ps (try_pivot now m p s)

-- `FindMatchGroup`
unfoldable pub find_match_group : ℕ → MatchMaker → Store → Search
unfolding try_pivots
find_match_group now m store =
    try_pivots now m m.time_sorted (record { store = store; pivot_flags = λ a. false; groups = [] })
