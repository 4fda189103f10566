-- ===== src/Match/Filing.antt =====
-- The buckets of the matchmaker: `AddNewMatchTickets` keeps every ticket in the bucket of its
-- aggression, and in no other place.
use extraction_server.Prelude.{
  ℕ, ◌≡◌, refl, sym, ap, ◌∙◌, ltb, ◌==◌, ==_iff, ==_refl, Bool-cases, inl, inr, if◌then◌else◌, true,
  false, ◌||◌, List, [], ◌∷◌, ◌++◌, All, All-append, arith,
}
use extraction_server.Prelude.Members.{is_member, AreDistinct, AreDistinct-append, is_member-append}
use extraction_server.Match.{
  Store, MatchMaker, insert_by_start, sort_by_start, fill_buckets, add_new_match_tickets,
}
use extraction_server.Match.Waiting.{merge-is_member}
use extraction_server.Match.Group.{IsFiled}

-- Sorting keeps the members.
insert-is_member :
    (store : Store) (k t : ℕ) (xs : List ℕ)
    → is_member k (insert_by_start store t xs) ≡ (k == t || is_member k xs)
unfolding insert_by_start
insert-is_member store k t [] = refl
insert-is_member store k t (x ∷ xs) =
    let rest = insert-is_member store k t xs in
    elim (Bool-cases (ltb (store x).start_time (store t).start_time)) [
      | inl e ↦ rw e (ground (arith, rest))
      | inr e ↦ rw e refl
    ]

insert-AreDistinct :
    (store : Store) (t : ℕ) (xs : List ℕ)
    → is_member t xs ≡ false
    → AreDistinct xs
    → AreDistinct (insert_by_start store t xs)
unfolding insert_by_start
insert-AreDistinct store t [] n d = (refl, tt)
insert-AreDistinct store t (x ∷ xs) n d =
    let rest = insert-AreDistinct store t xs (ground (arith, n)) d.1 in
    let apart = insert-is_member store x t xs in
    elim (Bool-cases (ltb (store x).start_time (store t).start_time)) [
      | inl e ↦ rw e (ground (arith, apart, n, d.0), rest)
      | inr e ↦ rw e (n, d)
    ]

sort-is_member :
    (store : Store) (k : ℕ) (xs : List ℕ) → is_member k (sort_by_start store xs) ≡ is_member k xs
unfolding sort_by_start
sort-is_member store k [] = refl
sort-is_member store k (x ∷ xs) =
    ground (arith, insert-is_member store k x (sort_by_start store xs), sort-is_member store k xs)

sort-AreDistinct :
    (store : Store) (xs : List ℕ) → AreDistinct xs → AreDistinct (sort_by_start store xs)
unfolding sort_by_start
sort-AreDistinct store [] d = tt
sort-AreDistinct store (x ∷ xs) d =
    insert-AreDistinct store x (sort_by_start store xs) (sort-is_member store x xs ∙ d.0)
      (sort-AreDistinct store xs d.1)

-- No ticket of the list stands in a bucket.
abbrev pub Unfiled : (ℕ → List ℕ) → List ℕ → Type 0
Unfiled bucket ts = (t a : ℕ) → is_member t ts ≡ true → is_member t (bucket a) ≡ false

All-missing :
    (t : ℕ) (xs : List ℕ) → is_member t xs ≡ false → All (λ x. is_member x (t ∷ []) ≡ false) xs
All-missing t [] n = tt
All-missing t (x ∷ xs) n = (ground (arith, n), All-missing t xs (ground (arith, n)))

-- A bucket with one more ticket, if it is the ticket's.
abbrev filed_in : Store → ℕ → (ℕ → List ℕ) → ℕ → List ℕ
filed_in store t bucket b = if b == (store t).aggression then bucket b ++ t ∷ [] else bucket b

module _ (store : Store) where
  abbrev Suits : ℕ → ℕ → Type 0
  Suits a t = (store t).aggression ≡ a

  filed_in-Suits :
      (t a : ℕ) (bucket : ℕ → List ℕ)
      → All (Suits a) (bucket a)
      → All (Suits a) (filed_in store t bucket a)
  filed_in-Suits t a bucket h = elim (Bool-cases (a == (store t).aggression)) [
    | inl e ↦
        rw e (
          All-append (Suits a) (bucket a) (t ∷ []) h
            (sym ((==_iff a (store t).aggression).0 e), tt))
    | inr e ↦ rw e h
  ]

  filed_in-AreDistinct :
      (t a : ℕ) (bucket : ℕ → List ℕ)
      → is_member t (bucket a) ≡ false
      → AreDistinct (bucket a)
      → AreDistinct (filed_in store t bucket a)
  filed_in-AreDistinct t a bucket n d = elim (Bool-cases (a == (store t).aggression)) [
    | inl e ↦
        rw e (AreDistinct-append (bucket a) (t ∷ []) d (refl, tt) (All-missing t (bucket a) n))
    | inr e ↦ rw e d
  ]

  filed_in-Unfiled :
      (t : ℕ) (ts : List ℕ) (bucket : ℕ → List ℕ)
      → is_member t ts ≡ false
      → Unfiled bucket (t ∷ ts)
      → Unfiled (filed_in store t bucket) ts
  filed_in-Unfiled t ts bucket n u k a m =
      let free = u k a (ground (arith, m)) in
      let other : (k == t) ≡ false = (elim (Bool-cases (k == t)) [
        | inl e ↦ ground (arith, n, m, ap (λ x. is_member x ts) ((==_iff k t).0 e))
        | inr e ↦ e
      ]) in
      elim (Bool-cases (a == (store t).aggression)) [
        | inl e ↦ rw e (ground (arith, is_member-append k (bucket a) (t ∷ []), free, other))
        | inr e ↦ rw e free
      ]

  -- The loop of the buckets.
  fill_buckets-IsFiled :
      (ts : List ℕ) (bucket : ℕ → List ℕ) (a : ℕ)
      → AreDistinct ts
      → Unfiled bucket ts
      → ((b : ℕ) → All (Suits b) (bucket b))
      → ((b : ℕ) → AreDistinct (bucket b))
      → All (Suits a) (fill_buckets store ts bucket a)
        × AreDistinct (fill_buckets store ts bucket a)
  unfolding fill_buckets
  fill_buckets-IsFiled [] bucket a n u f d = (f a, d a)
  fill_buckets-IsFiled (t ∷ ts) bucket a n u f d =
      fill_buckets-IsFiled ts (filed_in store t bucket) a n.1 (filed_in-Unfiled t ts bucket n.0 u)
        (λ b. filed_in-Suits t b bucket (f b))
        (λ b. filed_in-AreDistinct t b bucket (u t b (ground (arith, ==_refl t))) (d b))

-- Every ticket of the queue stands in the bucket of its aggression, and no other ticket does.
abbrev pub Matches : Store → MatchMaker → Type 0
Matches store m = (t : ℕ) → is_member t m.time_sorted ≡ is_member t (m.bucket (store t).aggression)

filed_in-is_member :
    (store : Store) (t k : ℕ) (bucket : ℕ → List ℕ)
    → is_member k (filed_in store t bucket (store k).aggression)
      ≡ (is_member k (bucket (store k).aggression) || k == t)
filed_in-is_member store t k bucket = elim (Bool-cases (k == t)) [
  | inl own ↦
      let same : (store k).aggression ≡ (store t).aggression =
        ap (λ x. (store x).aggression) ((==_iff k t).0 own) in
      let here : ((store k).aggression == (store t).aggression) ≡ true =
        rw same (==_refl (store t).aggression) in
      rw (here, is_member-append k (bucket (store k).aggression) (t ∷ [])) (ground (arith, own))
  | inr other ↦ elim (Bool-cases ((store k).aggression == (store t).aggression)) [
    | inl e ↦
        rw (e, is_member-append k (bucket (store k).aggression) (t ∷ [])) (ground (arith, other))
    | inr e ↦ rw e (ground (arith, other))
  ]
]

fill_buckets-is_member :
    (store : Store) (ts : List ℕ) (bucket : ℕ → List ℕ) (k : ℕ)
    → is_member k (fill_buckets store ts bucket (store k).aggression)
      ≡ (is_member k (bucket (store k).aggression) || is_member k ts)
unfolding fill_buckets
fill_buckets-is_member store [] bucket k = ground arith
fill_buckets-is_member store (t ∷ ts) bucket k = ground (
  arith,
  fill_buckets-is_member store ts (filed_in store t bucket) k,
  filed_in-is_member store t k bucket,
)

pub add_new_match_tickets-Matches :
    (store : Store) (m : MatchMaker)
    → Matches store m
    → Matches store (add_new_match_tickets store m)
unfolding add_new_match_tickets
add_new_match_tickets-Matches store m h t =
    let sorted = sort_by_start store m.tickets_to_add in
    ground (
      arith,
      h t,
      merge-is_member store t m.time_sorted sorted,
      fill_buckets-is_member store sorted m.bucket t,
    )

-- Taking new tickets in keeps every bucket the list of the tickets of its aggression, each once, where
-- the new tickets are distinct and in no bucket yet.
pub add_new_match_tickets-IsFiled :
    (store : Store) (m : MatchMaker)
    → IsFiled store m
    → AreDistinct m.tickets_to_add
    → Unfiled m.bucket m.tickets_to_add
    → IsFiled store (add_new_match_tickets store m)
unfolding add_new_match_tickets
add_new_match_tickets-IsFiled store m f n u =
    let sorted = sort_by_start store m.tickets_to_add in
    let filed : (a : ℕ)
        → All (Suits store a) (fill_buckets store sorted m.bucket a)
          × AreDistinct (fill_buckets store sorted m.bucket a) =
      (λ a.
        fill_buckets-IsFiled store sorted m.bucket a (sort-AreDistinct store m.tickets_to_add n)
          (λ t b h. u t b (sym (sort-is_member store t m.tickets_to_add) ∙ h)) f.aggressions
          f.distinct) in
    record { aggressions = λ a. (filed a).0; distinct = λ a. (filed a).1 }
