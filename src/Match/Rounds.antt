-- ===== src/Match/Rounds.antt =====
-- The rounds of the search around a pivot keep the group well formed, and the pivot stays its first
-- member.
use extraction_server.Prelude.{
  ℕ, ◌+◌, ◌-◌, ◌≤◌, ◌≡◌, ◌≢◌, refl, leb, ltb, ◌==◌, if◌then◌else◌, Bool, true, false, ◌&&◌,
  Bool-cases, inl, inr, ◌⊎◌, List, [], ◌∷◌, length, All, zero, suc, min, arith,
}
use extraction_server.Match.{Store, MatchMaker, collect, search_round, search_loop, group_of}
use extraction_server.Match.Group.{
  IsFiled, Near, IsGroup, Fresh, collect-IsGroup, collect-All, All-map, bucket-IsGroup,
}

-- A group with members at most so far from the pivot's aggression.
abbrev Within : Store → ℕ → ℕ → ℕ → List ℕ → Type 0
Within store d aggr r g = IsGroup store d aggr g × All (λ t. Near r aggr (store t).aggression) g

-- The members after the first half of a round.
abbrev Upward : Store → ℕ → ℕ → ℕ → Type 0
Upward store aggr r t = Near r aggr (store t).aggression ⊎ ((store t).aggression ≡ aggr + suc r)

up_half :
    (store : Store) (m : MatchMaker) (d aggr r : ℕ) (g : List ℕ)
    → IsFiled store m
    → Within store d aggr r g
    → suc r ≤ d
    → (b : Bool)
    → let up = if b then collect store (λ c. false) (m.bucket (aggr + suc r)) g else g in
      IsGroup store d aggr up × All (Upward store aggr r) up
up_half store m d aggr r g f (v, near) small true = (
  bucket-IsGroup store m d aggr (aggr + suc r) g f v
      (All-map (λ t. Near r aggr (store t).aggression) (λ t. (store t).aggression ≢ aggr + suc r)
        (λ t n e. absurd (omega (arith, n, e))) g near)
      (omega (arith, small)),
  collect-All store (Upward store aggr r) (λ c. false) (m.bucket (aggr + suc r)) g
      (All-map (λ t. Near r aggr (store t).aggression) (Upward store aggr r) (λ t n. inl n) g near)
      (All-map (λ t. (store t).aggression ≡ aggr + suc r) (Upward store aggr r) (λ t e. inr e)
        (m.bucket (aggr + suc r)) (f.aggressions (aggr + suc r))),
)
up_half store m d aggr r g f (v, near) small false =
    (v, All-map (λ t. Near r aggr (store t).aggression) (Upward store aggr r) (λ t n. inl n) g near)

settle-Near :
    (store : Store) (aggr r t : ℕ) → Upward store aggr r t → Near (suc r) aggr (store t).aggression
settle-Near store aggr r t (inl n) = omega (arith, n)
settle-Near store aggr r t (inr e) = omega (arith, e)

not_down :
    (store : Store) (aggr r t : ℕ)
    → suc r ≤ aggr
    → Upward store aggr r t
    → (store t).aggression ≢ aggr - suc r
not_down store aggr r t h (inl n) e = absurd (omega (arith, h, n, e))
not_down store aggr r t h (inr f) e = absurd (omega (arith, h, f, e))

down_half :
    (store : Store) (m : MatchMaker) (d aggr r : ℕ) (up : List ℕ)
    → IsFiled store m
    → IsGroup store d aggr up
    → All (Upward store aggr r) up
    → suc r ≤ aggr
    → suc r ≤ d
    → Within store d aggr (suc r) (collect store (λ c. false) (m.bucket (aggr - suc r)) up)
down_half store m d aggr r up f v a low small = (
  bucket-IsGroup store m d aggr (aggr - suc r) up f v
      (All-map (Upward store aggr r) (λ t. (store t).aggression ≢ aggr - suc r)
        (λ t. not_down store aggr r t low) up a)
      (omega (arith, low, small)),
  collect-All store (λ t. Near (suc r) aggr (store t).aggression) (λ c. false)
      (m.bucket (aggr - suc r)) up
      (All-map (Upward store aggr r) (λ t. Near (suc r) aggr (store t).aggression)
        (λ t. settle-Near store aggr r t) up a)
      (All-map (λ t. (store t).aggression ≡ aggr - suc r)
        (λ t. Near (suc r) aggr (store t).aggression) (λ t e. omega (arith, e, low))
        (m.bucket (aggr - suc r)) (f.aggressions (aggr - suc r))),
)

later_round :
    (store : Store) (m : MatchMaker) (d pivot aggr r : ℕ) (g : List ℕ)
    → IsFiled store m
    → Within store d aggr r g
    → suc r ≤ d
    → Within store d aggr (suc r) (search_round store m pivot aggr d (suc r) g)
unfolding search_round
later_round store m d pivot aggr r g f w small =
    let b = ltb (length g) 4 && leb (aggr + suc r) (min m.max_agression (aggr + d)) in
    let up = (if b then collect store (λ c. false) (m.bucket (aggr + suc r)) g else g) in
    let (v, a) = up_half store m d aggr r g f w small b in
    elim (Bool-cases (ltb (length up) 4 && (leb (suc r) aggr && leb (aggr - d) (aggr - suc r)))) [
      | inl down ↦ rw down (down_half store m d aggr r up f v a (ground (arith, down)) small)
      | inr stop ↦ rw stop (
          (
            v,
            All-map (Upward store aggr r) (λ t. Near (suc r) aggr (store t).aggression)
                (λ t. settle-Near store aggr r t) up a,
          ))
    ]

first_round :
    (store : Store) (m : MatchMaker) (d pivot : ℕ)
    → IsFiled store m
    → (store pivot).is_matched ≡ false
    → Within store d
        (store pivot).aggression
        0
        (search_round store m pivot (store pivot).aggression d 0 (pivot ∷ []))
unfolding search_round
first_round store m d pivot f free =
    let aggr = (store pivot).aggression in
    (
      collect-IsGroup store d aggr (λ c. c == pivot) (m.bucket aggr) (pivot ∷ [])
          (record { small = omega arith; apart = (refl, tt); fit = ((free, omega arith), tt) })
          (f.distinct aggr)
          (All-map (λ t. (store t).aggression ≡ aggr) (Fresh (λ c. c == pivot) (pivot ∷ []))
            (λ c e s. ground (arith, s)) (m.bucket aggr) (f.aggressions aggr))
          (All-map (λ t. (store t).aggression ≡ aggr) (λ t. Near d aggr (store t).aggression)
            (λ c e. omega (arith, e)) (m.bucket aggr) (f.aggressions aggr)),
      collect-All store (λ t. Near 0 aggr (store t).aggression) (λ c. c == pivot) (m.bucket aggr)
          (pivot ∷ []) (omega arith, tt)
          (All-map (λ t. (store t).aggression ≡ aggr) (λ t. Near 0 aggr (store t).aggression)
            (λ c e. omega (arith, e)) (m.bucket aggr) (f.aggressions aggr)),
    )

search_loop-Within :
    (store : Store) (m : MatchMaker) (d pivot aggr rounds r : ℕ) (g : List ℕ)
    → IsFiled store m
    → Within store d aggr r g
    → r + rounds ≤ d
    → IsGroup store d aggr (search_loop store m pivot aggr d rounds (suc r) g)
unfolding search_loop
search_loop-Within store m d pivot aggr zero r g f w e = w.0
search_loop-Within store m d pivot aggr (suc rounds) r g f w e =
    let found = search_round store m pivot aggr d (suc r) g in
    let next = later_round store m d pivot aggr r g f w (omega (arith, e)) in
    elim (Bool-cases (length found == 4)) [
      | inl full ↦ rw full next.0
      | inr more ↦
          rw (more, plus_one r)
            (search_loop-Within store m d pivot aggr rounds (suc r) found f next (omega (arith, e)))
    ]
  where
    plus_one : (r : ℕ) → suc r + 1 ≡ suc (suc r)
    plus_one r = omega arith

-- The group around an unmatched pivot has at most four members, no one twice, all unmatched, and
-- their aggressions differ from the pivot's by at most the limit.
pub group_of-IsGroup :
    (store : Store) (m : MatchMaker) (d pivot : ℕ)
    → IsFiled store m
    → (store pivot).is_matched ≡ false
    → IsGroup store d (store pivot).aggression (group_of store m d pivot)
unfolding group_of search_loop
group_of-IsGroup store m d pivot f free =
    let aggr = (store pivot).aggression in
    let first = first_round store m d pivot f free in
    let found = search_round store m pivot aggr d 0 (pivot ∷ []) in
    elim (Bool-cases (length found == 4)) [
      | inl full ↦ rw (one d) (rw (full, search_loop) first.0)
      | inr more ↦ rw (one d) (
          rw (more, search_loop)
            (search_loop-Within store m d pivot aggr d 0 found f first (omega arith)))
    ]
  where
    one : (d : ℕ) → d + 1 ≡ suc d
    one d = omega arith
