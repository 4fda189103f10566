-- ===== src/Match/Group.antt =====
-- The group around one pivot: its size, its members and their aggressions.
use extraction_server.Prelude.{
  ℕ, ◌+◌, ◌≤◌, ◌≡◌, ◌≢◌, refl, ◌==◌, Bool, false, ◌||◌, Bool-cases, inl, inr, List, [], ◌∷◌, ◌++◌,
  length, length-append, All, All-append, arith,
}
use extraction_server.Prelude.Members.{
  is_member, AreDistinct, is_member-append, All-member, AreDistinct-append,
}
use extraction_server.Match.{Store, MatchMaker, collect}

-- Every ticket of a bucket has its aggression, and no ticket stands twice in one.
pub record IsFiled (store : Store) (m : MatchMaker) : Type 0 where
  pub aggressions : (a : ℕ) → All (λ t. (store t).aggression ≡ a) (m.bucket a)
  pub distinct : (a : ℕ) → AreDistinct (m.bucket a)

-- Two aggressions at most so far apart.
abbrev pub Near : ℕ → ℕ → ℕ → Type 0
Near d a b = (a ≤ b + d) × (b ≤ a + d)

-- A member of a group around this aggression.
abbrev pub IsFit : Store → ℕ → ℕ → ℕ → Type 0
IsFit store d aggr t = ((store t).is_matched ≡ false) × Near d aggr (store t).aggression

-- A group in the making.
pub record IsGroup (store : Store) (d aggr : ℕ) (group : List ℕ) : Type 0 where
  pub small : length group ≤ 4
  pub apart : AreDistinct group
  pub fit : All (IsFit store d aggr) group

-- The candidates that are not skipped are no members yet.
abbrev pub Fresh : (ℕ → Bool) → List ℕ → ℕ → Type 0
Fresh skip group c = skip c ≡ false → is_member c group ≡ false

member_snoc : (c d : ℕ) (g : List ℕ) → is_member c (g ++ d ∷ []) ≡ (is_member c g || c == d)
member_snoc c d g = ground (arith, is_member-append c g (d ∷ []))

keep-Fresh :
    (skip : ℕ → Bool) (c : ℕ) (cs g : List ℕ)
    → is_member c cs ≡ false
    → All (Fresh skip g) cs
    → All (Fresh skip (g ++ c ∷ [])) cs
keep-Fresh skip c [] g n f = tt
keep-Fresh skip c (x ∷ xs) g n f = (
  λ s. ground (arith, member_snoc x c g, f.0 s, n),
  keep-Fresh skip c xs g (ground (arith, n)) f.1,
)

snoc-IsGroup :
    (store : Store) (d aggr c : ℕ) (g : List ℕ)
    → IsGroup store d aggr g
    → length g ≢ 4
    → is_member c g ≡ false
    → IsFit store d aggr c
    → IsGroup store d aggr (g ++ c ∷ [])
snoc-IsGroup store d aggr c g v n m f = record {
  small = omega (arith, v.small, n, length-append g (c ∷ []));
  apart = AreDistinct-append g (c ∷ []) v.apart (refl, tt) (others g v.apart m);
  fit = All-append (IsFit store d aggr) g (c ∷ []) v.fit (f, tt);
}
  where
    others :
        (g : List ℕ)
        → AreDistinct g
        → is_member c g ≡ false
        → All (λ x. is_member x (c ∷ []) ≡ false) g
    others [] a m = tt
    others (x ∷ xs) a m = (ground (arith, m), others xs a.1 (ground (arith, m)))

-- The loop over a bucket keeps the group well formed.
pub collect-IsGroup :
    (store : Store) (d aggr : ℕ) (skip : ℕ → Bool) (cs g : List ℕ)
    → IsGroup store d aggr g
    → AreDistinct cs
    → All (Fresh skip g) cs
    → All (λ t. Near d aggr (store t).aggression) cs
    → IsGroup store d aggr (collect store skip cs g)
unfolding collect
collect-IsGroup store d aggr skip [] g v dis fr near = v
collect-IsGroup store d aggr skip (c ∷ cs) g v dis fr near = elim (Bool-cases (length g == 4)) [
  | inl full ↦ rw full v
  | inr room ↦ rw room (elim (Bool-cases (skip c || (store c).is_matched)) [
    | inl skipped ↦ rw skipped (collect-IsGroup store d aggr skip cs g v dis.1 fr.1 near.1)
    | inr taken ↦ rw taken (
        collect-IsGroup store d aggr skip cs (g ++ c ∷ [])
          (snoc-IsGroup store d aggr c g v (ground (arith, room)) (fr.0 (ground (arith, taken)))
            (ground (arith, taken), near.0))
          dis.1 (keep-Fresh skip c cs g dis.0 fr.1) near.1)
  ])
]

-- What holds of the members and of the bucket holds of the group after the loop.
pub collect-All :
    (store : Store) (Q : ℕ → Type 0) (skip : ℕ → Bool) (cs g : List ℕ)
    → All Q g
    → All Q cs
    → All Q (collect store skip cs g)
unfolding collect
collect-All store Q skip [] g a b = a
collect-All store Q skip (c ∷ cs) g a b = elim (Bool-cases (length g == 4)) [
  | inl full ↦ rw full a
  | inr room ↦ rw room (elim (Bool-cases (skip c || (store c).is_matched)) [
    | inl skipped ↦ rw skipped (collect-All store Q skip cs g a b.1)
    | inr taken ↦
        rw taken
          (collect-All store Q skip cs (g ++ c ∷ []) (All-append Q g (c ∷ []) a (b.0, tt)) b.1)
  ])
]

pub All-map {ℓ κ} :
    (P : ℕ → Type ℓ) (Q : ℕ → Type κ) → ((x : ℕ) → P x → Q x) → (xs : List ℕ) → All P xs → All Q xs
All-map P Q f [] a = tt
All-map P Q f (x ∷ xs) a = (f x a.0, All-map P Q f xs a.1)

-- A ticket of one aggression is no member of a group that has none of it.
other_aggression :
    (store : Store) (c b : ℕ) (g : List ℕ)
    → (store c).aggression ≡ b
    → All (λ t. (store t).aggression ≢ b) g
    → is_member c g ≡ false
other_aggression store c b g e a = elim (Bool-cases (is_member c g)) [
  | inr no_member ↦ no_member
  | inl member ↦ absurd (All-member (λ t. (store t).aggression ≢ b) c g a member e)
]

-- A bucket of another aggression within the limit may be added.
pub bucket-IsGroup :
    (store : Store) (m : MatchMaker) (d aggr b : ℕ) (g : List ℕ)
    → IsFiled store m
    → IsGroup store d aggr g
    → All (λ t. (store t).aggression ≢ b) g
    → Near d aggr b
    → IsGroup store d aggr (collect store (λ c. false) (m.bucket b) g)
bucket-IsGroup store m d aggr b g f v others near =
    collect-IsGroup store d aggr (λ c. false) (m.bucket b) g v (f.distinct b)
      (All-map (λ t. (store t).aggression ≡ b) (Fresh (λ c. false) g)
        (λ c e s. other_aggression store c b g e others) (m.bucket b) (f.aggressions b))
      (All-map (λ t. (store t).aggression ≡ b) (λ t. Near d aggr (store t).aggression)
        (λ c e. rw e near) (m.bucket b) (f.aggressions b))
