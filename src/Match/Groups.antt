-- ===== src/Match/Groups.antt =====
-- All groups of one search: each is well formed, and no ticket is in two.
use extraction_server.Prelude.{
  ℕ, ◌+◌, ◌-◌, ◌≤◌, ◌≡◌, refl, sym, ap, ◌∙◌, leb, ltb, ◌==◌, if◌then◌else◌, Bool, true, false, ◌&&◌,
  ◌||◌, ◌⊎◌, Bool-cases, inl, inr, List, [], ◌∷◌, ◌++◌, length, All, zero, suc, arith, min,
}
use mathlib.Core.List.{append_assoc, append-nil}
use extraction_server.Prelude.Members.{is_member, AreDistinct, is_member-append}
use extraction_server.Match.{
  Store, MatchMaker, collect, search_round, search_loop, group_of, limits, match_all, set_matched,
}
use extraction_server.Match.Group.{Near}

collect-member :
    (store : Store) (skip : ℕ → Bool) (t : ℕ) (cs g : List ℕ)
    → is_member t g ≡ true
    → is_member t (collect store skip cs g) ≡ true
unfolding collect
collect-member store skip t [] g h = h
collect-member store skip t (c ∷ cs) g h = ground (
  arith,
  collect-member store skip t cs g h,
  collect-member store skip t cs (g ++ c ∷ []),
  is_member-append t g (c ∷ []),
  h,
)

search_round-member :
    (store : Store) (m : MatchMaker) (pivot aggr d r t : ℕ) (g : List ℕ)
    → is_member t g ≡ true
    → is_member t (search_round store m pivot aggr d r g) ≡ true
unfolding search_round
search_round-member store m pivot aggr d zero t g h =
    collect-member store (λ c. c == pivot) t (m.bucket aggr) g h
search_round-member store m pivot aggr d (suc r) t g h = down (up h)
  where
    b : Bool
    b = ltb (length g) 4 && leb (aggr + suc r) (min m.max_agression (aggr + d))

    g' : List ℕ
    g' = if b then collect store (λ c. false) (m.bucket (aggr + suc r)) g else g

    up : is_member t g ≡ true → is_member t g' ≡ true
    up k = elim (Bool-cases b) [
      | inl e ↦ rw e (collect-member store (λ c. false) t (m.bucket (aggr + suc r)) g k)
      | inr e ↦ rw e k
    ]

    down :
        is_member t g' ≡ true
        → is_member t (
            if ltb (length g') 4 && (leb (suc r) aggr && leb (aggr - d) (aggr - suc r))
            then collect store (λ c. false) (m.bucket (aggr - suc r)) g'
            else g')
          ≡ true
    down k =
        elim (Bool-cases
          (ltb (length g') 4 && (leb (suc r) aggr && leb (aggr - d) (aggr - suc r)))) [
            | inl e ↦ rw e (collect-member store (λ c. false) t (m.bucket (aggr - suc r)) g' k)
            | inr e ↦ rw e k
          ]

search_loop-member :
    (store : Store) (m : MatchMaker) (pivot aggr d rounds r t : ℕ) (g : List ℕ)
    → is_member t g ≡ true
    → is_member t (search_loop store m pivot aggr d rounds r g) ≡ true
unfolding search_loop
search_loop-member store m pivot aggr d zero r t g h = h
search_loop-member store m pivot aggr d (suc rounds) r t g h =
    let k = search_round-member store m pivot aggr d r t g h in
    ground (arith, k, search_loop-member store m pivot aggr d rounds (r + 1) t _ k)

pub group_of-pivot :
    (store : Store) (m : MatchMaker) (d pivot : ℕ)
    → is_member pivot (group_of store m d pivot) ≡ true
unfolding group_of
group_of-pivot store m d pivot =
    search_loop-member store m pivot _ d (d + 1) 0 pivot (pivot ∷ []) (ground arith)

-- The tickets of a store with these marked.
pub match_all_lem :
    (ts : List ℕ) (store : Store) (t : ℕ)
    → ((match_all true ts store t).is_matched ≡ (is_member t ts || (store t).is_matched))
      × ((match_all true ts store t).aggression ≡ (store t).aggression)
      × ((match_all true ts store t).start_time ≡ (store t).start_time)
      × ((match_all true ts store t).is_valid ≡ (store t).is_valid)
unfolding match_all
match_all_lem [] store t = (refl, refl, refl, refl)
match_all_lem (x ∷ xs) store t = ground (arith, match_all_lem xs (set_matched true x store) t)

unfoldable pub flat : List (List ℕ) → List ℕ
flat [] = []
flat (g ∷ gs) = g ++ flat gs

-- The group is one of these.
abbrev pub OneOf : List ℕ → List (List ℕ) → Type 0
OneOf g [] = ⊥
OneOf g (x ∷ gs) = (g ≡ x) ⊎ OneOf g gs

pub flat_snoc : (gs : List (List ℕ)) (g : List ℕ) → flat (gs ++ g ∷ []) ≡ flat gs ++ g
unfolding flat
flat_snoc [] g = append-nil g
flat_snoc (x ∷ gs) g = ap (λ xs. x ++ xs) (flat_snoc gs g) ∙ sym (append_assoc x (flat gs) g)

-- A group that one of its members, the pivot, may found: at most four players, at least as many as
-- the pivot's wait asks for, no one twice, and aggressions as near as that wait allows.
pub record IsFormed (now : ℕ) (store : Store) (g : List ℕ) : Type 0 where
  pub pivot : ℕ
  pub founder : is_member pivot g ≡ true
  pub at_most_four : length g ≤ 4
  pub enough : (limits (now - (store pivot).start_time)).1 ≤ length g
  pub no_repeat : AreDistinct g
  pub near :
      All
        (λ t.
          Near
            (limits (now - (store pivot).start_time)).0
            (store pivot).aggression
            (store t).aggression)
        g
