-- ===== src/Match/Disjoint.antt =====
-- A search keeps its groups well formed, and no ticket is in two.
use extraction_server.Prelude.{
  ℕ, ◌-◌, ◌≤◌, ◌≡◌, refl, ◌∙◌, leb, ==_refl, true, false, ◌||◌, Bool-cases, inl, inr, List, [], ◌∷◌,
  ◌++◌, length, All, All-append, arith,
}
use extraction_server.Prelude.Members.{
  is_member, AreDistinct, is_member-append, All-member, AreDistinct-append,
}
use extraction_server.Match.{
  Store, MatchMaker, Search, group_of, limits, match_all, try_pivot, try_pivots, find_match_group,
}
use extraction_server.Match.Group.{IsFiled, Near, IsFit, IsGroup, All-map}
use extraction_server.Match.Rounds.{group_of-IsGroup}
use extraction_server.Match.Groups.{group_of-pivot, match_all_lem, flat, flat_snoc, IsFormed}

-- What holds before each pivot; the store at the start of the search is the first argument.
pub record IsSound (store : Store) (now : ℕ) (s : Search) : Type 0 where
  pub same_aggression : (t : ℕ) → (s.store t).aggression ≡ (store t).aggression
  pub same_start : (t : ℕ) → (s.store t).start_time ≡ (store t).start_time
  pub same_valid : (t : ℕ) → (s.store t).is_valid ≡ (store t).is_valid
  pub taken : (t : ℕ) → is_member t (flat s.groups) ≡ true → (s.store t).is_matched ≡ true
  pub apart : AreDistinct (flat s.groups)
  pub formed : All (IsFormed now store) s.groups

new_distinct :
    (store : Store) (now : ℕ) (s : Search) (d aggr : ℕ) (g : List ℕ)
    → IsSound store now s
    → IsGroup s.store d aggr g
    → AreDistinct (flat s.groups ++ g)
new_distinct store now s d aggr g v w =
    AreDistinct-append (flat s.groups) g v.apart w.apart (others (flat s.groups) v.taken)
  where
    others :
        (xs : List ℕ)
        → ((t : ℕ) → is_member t xs ≡ true → (s.store t).is_matched ≡ true)
        → All (λ x. is_member x g ≡ false) xs
    others [] h = tt
    others (x ∷ xs) h = (
      elim (Bool-cases (is_member x g)) [
        | inr out ↦ out
        | inl member ↦ absurd (
            clash (All-member (IsFit s.store d aggr) x g w.fit member).0
              (h x (rw (==_refl x) refl)))
      ],
      others xs (λ t k. h t (ground (arith, k))),
    )
      where
        clash : (s.store x).is_matched ≡ false → (s.store x).is_matched ≡ true → ⊥
        clash a b = cc

IsFiled-still :
    (store : Store) (now : ℕ) (m : MatchMaker) (s : Search)
    → IsSound store now s
    → IsFiled store m
    → IsFiled s.store m
IsFiled-still store now m s v f = record {
  aggressions = λ a.
      All-map (λ t. (store t).aggression ≡ a) (λ t. (s.store t).aggression ≡ a)
        (λ t e. v.same_aggression t ∙ e) (m.bucket a) (f.aggressions a);
  distinct = f.distinct;
}

-- The wait of the pivot, in both stores.
Near-again :
    (store : Store) (now : ℕ) (s : Search) (pivot : ℕ)
    → IsSound store now s
    → (t : ℕ)
    → IsFit s.store (limits (now - (s.store pivot).start_time)).0 (s.store pivot).aggression t
    → Near (limits (now - (store pivot).start_time)).0 (store pivot).aggression (store t).aggression
Near-again store now s pivot v t n =
    rw (← (v.same_start pivot), ← (v.same_aggression pivot), ← (v.same_aggression t)) n.1

found-IsFormed :
    (store : Store) (now : ℕ) (m : MatchMaker) (pivot : ℕ) (s : Search)
    → IsSound store now s
    → let (d, n) = limits (now - (s.store pivot).start_time) in
      IsGroup s.store d (s.store pivot).aggression (group_of s.store m d pivot)
      → n ≤ length (group_of s.store m d pivot)
      → IsFormed now store (group_of s.store m d pivot)
found-IsFormed store now m pivot s v w many = record {
  pivot = pivot;
  founder = group_of-pivot s.store m _ pivot;
  at_most_four = w.small;
  enough = rw (← (v.same_start pivot)) many;
  no_repeat = w.apart;
  near = All-map _ _ (Near-again store now s pivot v) _ w.fit;
}

-- The search after a group was found.
with_group : List ℕ → Search → Search
with_group g s = record s { store = match_all true g s.store; groups = s.groups ++ g ∷ [] }

with_group-IsSound :
    (store : Store) (now : ℕ) (s : Search) (g : List ℕ)
    → IsSound store now s
    → AreDistinct (flat s.groups ++ g)
    → IsFormed now store g
    → IsSound store now (with_group g s)
unfolding with_group
with_group-IsSound store now s g v dis w = record {
  same_aggression = λ t. (match_all_lem g s.store t).1 ∙ v.same_aggression t;
  same_start = λ t. (match_all_lem g s.store t).2 ∙ v.same_start t;
  same_valid = λ t. (match_all_lem g s.store t).3 ∙ v.same_valid t;
  taken = λ t h.
      (match_all_lem g s.store t).0
      ∙ marked t (rw (flat_snoc s.groups g, is_member-append t (flat s.groups) g) at h);
  apart = rw (flat_snoc s.groups g) dis;
  formed = All-append (IsFormed now store) s.groups (g ∷ []) v.formed (w, tt);
}
  where
    marked :
        (t : ℕ)
        → (is_member t (flat s.groups) || is_member t g) ≡ true
        → (is_member t g || (s.store t).is_matched) ≡ true
    marked t h = ground (arith, h, v.taken t)

try_pivot-IsSound :
    (store : Store) (now : ℕ) (m : MatchMaker) (pivot : ℕ) (s : Search)
    → IsFiled store m
    → IsSound store now s
    → IsSound store now (try_pivot now m pivot s)
unfolding try_pivot
try_pivot-IsSound store now m pivot s f v =
    let p = s.store pivot in
    elim (Bool-cases (p.is_matched || s.pivot_flags p.aggression)) [
      | inl skip ↦ rw skip v
      | inr go ↦ rw go (
          let (d, n) = limits (now - p.start_time) in
          let g = group_of s.store m d pivot in
          let free : p.is_matched ≡ false = ground (arith, go) in
          let w = group_of-IsGroup s.store m d pivot (IsFiled-still store now m s v f) free in
          elim (Bool-cases (leb n (length g))) [
            | inr few ↦ rw few (record {
              same_aggression = v.same_aggression;
              same_start = v.same_start;
              same_valid = v.same_valid;
              taken = v.taken;
              apart = v.apart;
              formed = v.formed;
            })
            | inl many ↦ rw many (
                unfold with_group in
                with_group-IsSound store now s g v (new_distinct store now s d p.aggression g v w)
                  (found-IsFormed store now m pivot s v w (ground (arith, many))))
          ])
    ]

try_pivots-IsSound :
    (store : Store) (now : ℕ) (m : MatchMaker) (ps : List ℕ) (s : Search)
    → IsFiled store m
    → IsSound store now s
    → IsSound store now (try_pivots now m ps s)
unfolding try_pivots
try_pivots-IsSound store now m [] s f v = v
try_pivots-IsSound store now m (p ∷ ps) s f v =
    try_pivots-IsSound store now m ps _ f (try_pivot-IsSound store now m p s f v)

pub find_match_group-IsSound :
    (now : ℕ) (m : MatchMaker) (store : Store)
    → IsFiled store m
    → IsSound store now (find_match_group now m store)
unfolding find_match_group flat
find_match_group-IsSound now m store f = try_pivots-IsSound store now m m.time_sorted _ f (record {
  same_aggression = λ t. refl;
  same_start = λ t. refl;
  same_valid = λ t. refl;
  taken = λ t h. cc;
  apart = tt;
  formed = tt;
})

-- In one search no ticket gets into two groups, nor twice into one. Every group has at most four
-- players and at least as many as the wait of its pivot asks for, and the aggressions of its members
-- differ from the pivot's by no more than that wait allows. Every bucket must hold the tickets of its
-- aggression, each once.
pub find_match_group-IsFormed :
    (now : ℕ) (m : MatchMaker) (store : Store)
    → IsFiled store m
    → AreDistinct (flat (find_match_group now m store).groups)
      × All (IsFormed now store) (find_match_group now m store).groups
find_match_group-IsFormed now m store f =
    let v = find_match_group-IsSound now m store f in (v.apart, v.formed)
