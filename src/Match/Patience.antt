-- ===== src/Match/Patience.antt =====
-- A ticket that waits for sixty seconds is matched in the next search.
use extraction_server.Prelude.{
  ℕ, ◌-◌, ◌≤◌, ◌<◌, ◌≡◌, refl, ap, ◌==◌, ==_iff, Bool, true, false, ◌||◌, Bool-cases, inl, inr, ◌⊎◌,
  List, [], ◌∷◌, length, All, arith,
}
use extraction_server.Prelude.Members.{is_member, is_member-append}
use extraction_server.Match.{
  Store, MatchMaker, Search, group_of, limits, try_pivot, try_pivots, find_match_group,
}
use extraction_server.Match.Group.{All-map}
use extraction_server.Match.Groups.{group_of-pivot, match_all_lem, flat, flat_snoc}
use extraction_server.Match.Waiting.{AreOrdered}

-- A ticket that waits for at least this long is never given up on.
abbrev pub long_wait_s : ℕ
long_wait_s = 60

-- What holds before each pivot: the search gave up on an aggression only for one that waits less, and
-- so do all the pivots left.
abbrev GaveUp : ℕ → Store → List ℕ → Search → Type 0
GaveUp now store ps s =
    (a : ℕ) → s.pivot_flags a ≡ true → All (λ p. now - (store p).start_time < long_wait_s) ps

-- The store of the search has the start times of the first one.
abbrev SameStart : Store → Search → Type 0
SameStart store s = (t : ℕ) → (s.store t).start_time ≡ (store t).start_time

is_some_length : (t : ℕ) (g : List ℕ) → is_member t g ≡ true → 1 ≤ length g
is_some_length t [] h = cc
is_some_length t (x ∷ g) h = omega arith

limits_long : (w : ℕ) → long_wait_s ≤ w → (limits w).1 ≡ 1
unfolding limits
limits_long w h = ground (arith, h)

try_pivot-SameStart :
    (store : Store) (now : ℕ) (m : MatchMaker) (p : ℕ) (s : Search)
    → SameStart store s
    → SameStart store (try_pivot now m p s)
unfolding try_pivot
try_pivot-SameStart store now m p s h t = ground (
  arith,
  h t,
  match_all_lem (group_of s.store m (limits (now - (s.store p).start_time)).0 p) s.store t,
)

-- The tickets that the search matched are those of its groups.
abbrev AreGrouped : Store → Search → Type 0
AreGrouped store s =
    (t : ℕ) → (s.store t).is_matched ≡ (is_member t (flat s.groups) || (store t).is_matched)

try_pivot-AreGrouped :
    (store : Store) (now : ℕ) (m : MatchMaker) (p : ℕ) (s : Search)
    → AreGrouped store s
    → AreGrouped store (try_pivot now m p s)
unfolding try_pivot
try_pivot-AreGrouped store now m p s h t =
    let g = group_of s.store m (limits (now - (s.store p).start_time)).0 p in
    ground (
      arith,
      h t,
      match_all_lem g s.store t,
      ap (is_member t) (flat_snoc s.groups g),
      is_member-append t (flat s.groups) g,
    )

try_pivots-AreGrouped :
    (store : Store) (now : ℕ) (m : MatchMaker) (ps : List ℕ) (s : Search)
    → AreGrouped store s
    → AreGrouped store (try_pivots now m ps s)
unfolding try_pivots
try_pivots-AreGrouped store now m [] s h = h
try_pivots-AreGrouped store now m (p ∷ ps) s h =
    try_pivots-AreGrouped store now m ps _ (try_pivot-AreGrouped store now m p s h)

-- A matched ticket stays matched.
try_pivot-keeps :
    (now : ℕ) (m : MatchMaker) (p t : ℕ) (s : Search)
    → (s.store t).is_matched ≡ true
    → ((try_pivot now m p s).store t).is_matched ≡ true
unfolding try_pivot
try_pivot-keeps now m p t s h = ground (
  arith,
  h,
  match_all_lem (group_of s.store m (limits (now - (s.store p).start_time)).0 p) s.store t,
)

try_pivots-keeps :
    (now : ℕ) (m : MatchMaker) (ps : List ℕ) (t : ℕ) (s : Search)
    → (s.store t).is_matched ≡ true
    → ((try_pivots now m ps s).store t).is_matched ≡ true
unfolding try_pivots
try_pivots-keeps now m [] t s h = h
try_pivots-keeps now m (p ∷ ps) t s h =
    try_pivots-keeps now m ps t _ (try_pivot-keeps now m p t s h)

-- A pivot that waits long enough is matched, unless its aggression was given up.
try_pivot-matches :
    (now : ℕ) (m : MatchMaker) (p : ℕ) (s : Search)
    → long_wait_s ≤ now - (s.store p).start_time
    → s.pivot_flags (s.store p).aggression ≡ false
    → ((try_pivot now m p s).store p).is_matched ≡ true
unfolding try_pivot
try_pivot-matches now m p s w f =
    let g = group_of s.store m (limits (now - (s.store p).start_time)).0 p in
    let there = group_of-pivot s.store m (limits (now - (s.store p).start_time)).0 p in
    ground (
      arith,
      w,
      f,
      there,
      limits_long (now - (s.store p).start_time) w,
      is_some_length p g there,
      match_all_lem g s.store p,
    )

limits_short : (w n : ℕ) → 1 ≤ n → n < (limits w).1 → w < long_wait_s
unfolding limits
limits_short w n h k = ground arith

try_pivot-flags :
    (now : ℕ) (m : MatchMaker) (p a : ℕ) (s : Search)
    → (try_pivot now m p s).pivot_flags a ≡ true
    → (s.pivot_flags a ≡ true) ⊎ (now - (s.store p).start_time < long_wait_s)
unfolding try_pivot
try_pivot-flags now m p a s h =
    let w = now - (s.store p).start_time in
    let g = group_of s.store m (limits w).0 p in
    ground (
      arith,
      h,
      limits_short w (length g) (is_some_length p g (group_of-pivot s.store m (limits w).0 p)),
    )

try_pivot-GaveUp :
    (store : Store) (now : ℕ) (m : MatchMaker) (p : ℕ) (ps : List ℕ) (s : Search)
    → SameStart store s
    → AreOrdered store (p ∷ ps)
    → GaveUp now store (p ∷ ps) s
    → GaveUp now store ps (try_pivot now m p s)
try_pivot-GaveUp store now m p ps s same o g a h = after (try_pivot-flags now m p a s h)
  where
    after :
        (s.pivot_flags a ≡ true) ⊎ (now - (s.store p).start_time < long_wait_s)
        → All (λ q. now - (store q).start_time < long_wait_s) ps
    after (inl old) = (g a old).1
    after (inr short) =
        All-map (λ q. (store p).start_time ≤ (store q).start_time)
          (λ q. now - (store q).start_time < long_wait_s) (λ q le. omega (arith, le, short, same p))
          ps o.0

try_pivots-matches :
    (store : Store) (now : ℕ) (m : MatchMaker) (t : ℕ) (ps : List ℕ) (s : Search)
    → SameStart store s
    → AreOrdered store ps
    → GaveUp now store ps s
    → is_member t ps ≡ true
    → long_wait_s ≤ now - (store t).start_time
    → ((try_pivots now m ps s).store t).is_matched ≡ true
unfolding try_pivots
try_pivots-matches store now m t [] s same o g h w = cc
try_pivots-matches store now m t (p ∷ ps) s same o g h w = elim (Bool-cases (t == p)) [
  | inr other ↦
      try_pivots-matches store now m t ps (try_pivot now m p s)
        (try_pivot-SameStart store now m p s same) o.1
        (try_pivot-GaveUp store now m p ps s same o g) (ground (arith, h, other)) w
  | inl own ↦ try_pivots-keeps now m ps t (try_pivot now m p s) (this ((==_iff t p).0 own))
]
  where
    open_flag : t ≡ p → (b : Bool) → s.pivot_flags (s.store t).aggression ≡ b → b ≡ false
    open_flag e false f = refl
    open_flag e true f =
        absurd (omega (arith, (g (s.store t).aggression f).0, w, ap (λ x. (store x).start_time) e))

    this : t ≡ p → ((try_pivot now m p s).store t).is_matched ≡ true
    this e = rw (← e) (
        try_pivot-matches now m t s (omega (arith, w, same t))
          (open_flag e (s.pivot_flags (s.store t).aggression) refl))

-- No one waits for ever: where the queue is in the order of the start times, every ticket in it that
-- is not matched yet and has waited for sixty seconds is a member of a group that the search forms,
-- alone if need be.
pub find_match_group-matches :
    (now : ℕ) (m : MatchMaker) (store : Store) (t : ℕ)
    → AreOrdered store m.time_sorted
    → is_member t m.time_sorted ≡ true
    → (store t).is_matched ≡ false
    → long_wait_s ≤ now - (store t).start_time
    → is_member t (flat (find_match_group now m store).groups) ≡ true
unfolding find_match_group flat
find_match_group-matches now m store t o h free w =
    let start : Search = record { store = store; pivot_flags = λ a. false; groups = [] } in
    let matched =
      try_pivots-matches store now m t m.time_sorted start (λ x. refl) o (λ a f. cc) h w in
    let grouped = try_pivots-AreGrouped store now m m.time_sorted start (λ x. refl) t in
    ground (arith, matched, grouped, free)
