-- ===== src/Match/Verdicts/Cycle.antt =====
-- What the queue and the buckets keep to from one `StartMatchMake` to the next.
use extraction_server.Prelude.{
  ℕ, ◌≤◌, ◌≡◌, refl, ap, ◌&&◌, ◌∙◌, Bool, false, not, Bool-cases, inl, inr, List, [], ◌∷◌, keep_if,
  All, arith,
}
use extraction_server.Prelude.Members.{is_member, AreDistinct}
use extraction_server.Match.{MatchTicket, Store, MatchMaker, add_new_match_tickets}
use extraction_server.Match.Group.{IsFiled, All-map}
use extraction_server.Match.Disjoint.{find_match_group-IsSound}
use extraction_server.Match.Waiting.{AreOrdered, add_new_match_tickets-AreOrdered}
use extraction_server.Match.Filing.{
  Unfiled, Matches, add_new_match_tickets-IsFiled, add_new_match_tickets-Matches,
}
use extraction_server.Match.Verdicts.{
  Answers, settle_group, start_match_make_internal, should_remove, release_and_delete_tickets,
  found, settled, start_match_make,
}
use extraction_server.Match.Verdicts.Fates.{fate, settle_group_lem, is_member-keep_if}

-- The fields of a ticket that no step writes.
abbrev SameKey : MatchTicket → MatchTicket → Type 0
SameKey u v = (u.aggression ≡ v.aggression) × (u.start_time ≡ v.start_time)

fate-SameKey : (a : Answers) (g : List ℕ) (t : ℕ) (v : MatchTicket) → SameKey (fate a g t v) v
fate-SameKey a g t v = ground arith

settle_group-SameKey :
    (a : Answers) (g : List ℕ) (store : Store) (t : ℕ)
    → SameKey (settle_group a g store t) (store t)
settle_group-SameKey a g store t =
    rw (settle_group_lem a g store t) (elim (Bool-cases (is_member t g)) [
      | inl e ↦ rw e (fate-SameKey a g t (store t))
      | inr e ↦ rw e (refl, refl)
    ])

internal-SameKey :
    (a : Answers) (gs : List (List ℕ)) (store : Store) (t : ℕ)
    → SameKey (start_match_make_internal a gs store t) (store t)
unfolding start_match_make_internal
internal-SameKey a [] store t = (refl, refl)
internal-SameKey a (g ∷ gs) store t =
    let rest = internal-SameKey a gs (settle_group a g store) t in
    let own = settle_group-SameKey a g store t in (rest.0 ∙ own.0, rest.1 ∙ own.1)

settled-SameKey :
    (a : Answers) (now : ℕ) (m : MatchMaker) (store : Store) (t : ℕ)
    → IsFiled store (add_new_match_tickets store m)
    → SameKey (settled a now m store t) (store t)
settled-SameKey a now m store t f =
    let s = found now m store in
    let v = find_match_group-IsSound now (add_new_match_tickets store m) store f in
    let rest = internal-SameKey a s.groups s.store t in
    (rest.0 ∙ v.same_aggression t, rest.1 ∙ v.same_start t)

-- Leaving tickets out.
keep_if-All : (P : ℕ → Type 0) (p : ℕ → Bool) (xs : List ℕ) → All P xs → All P (keep_if p xs)
keep_if-All P p [] a = tt
keep_if-All P p (x ∷ xs) a = elim (Bool-cases (p x)) [
  | inl e ↦ rw e (a.0, keep_if-All P p xs a.1)
  | inr e ↦ rw e (keep_if-All P p xs a.1)
]

keep_if-missing :
    (k : ℕ) (p : ℕ → Bool) (xs : List ℕ)
    → is_member k xs ≡ false
    → is_member k (keep_if p xs) ≡ false
keep_if-missing k p [] n = refl
keep_if-missing k p (x ∷ xs) n =
    let rest = keep_if-missing k p xs (ground (arith, n)) in
    elim (Bool-cases (p x)) [ inl e ↦ rw e (ground (arith, n, rest)) | inr e ↦ rw e rest ]

keep_if-AreDistinct : (p : ℕ → Bool) (xs : List ℕ) → AreDistinct xs → AreDistinct (keep_if p xs)
keep_if-AreDistinct p [] d = tt
keep_if-AreDistinct p (x ∷ xs) d = elim (Bool-cases (p x)) [
  | inl e ↦ rw e (keep_if-missing x p xs d.0, keep_if-AreDistinct p xs d.1)
  | inr e ↦ rw e (keep_if-AreDistinct p xs d.1)
]

keep_if-AreOrdered :
    (store : Store) (p : ℕ → Bool) (xs : List ℕ)
    → AreOrdered store xs
    → AreOrdered store (keep_if p xs)
keep_if-AreOrdered store p [] o = tt
keep_if-AreOrdered store p (x ∷ xs) o = elim (Bool-cases (p x)) [
  | inl e ↦ rw e (
    keep_if-All (λ y. (store x).start_time ≤ (store y).start_time) p xs o.0,
    keep_if-AreOrdered store p xs o.1,
  )
  | inr e ↦ rw e (keep_if-AreOrdered store p xs o.1)
]

AreOrdered-again :
    (store later : Store) (xs : List ℕ)
    → ((t : ℕ) → SameKey (later t) (store t))
    → AreOrdered store xs
    → AreOrdered later xs
AreOrdered-again store later [] k o = tt
AreOrdered-again store later (x ∷ xs) k o = (
  All-map (λ y. (store x).start_time ≤ (store y).start_time)
      (λ y. (later x).start_time ≤ (later y).start_time) (λ y h. omega (arith, h, (k x).1, (k y).1))
      xs o.0,
  AreOrdered-again store later xs k o.1,
)

-- The tickets of the queue are those of the buckets, each once and in the bucket of its aggression, and
-- the queue is in the order of the start times.
pub record IsKept (store : Store) (m : MatchMaker) : Type 0 where
  pub filed : IsFiled store m
  pub complete : Matches store m
  pub ordered : AreOrdered store m.time_sorted

release-IsKept :
    (store later : Store) (m : MatchMaker)
    → ((t : ℕ) → SameKey (later t) (store t))
    → IsKept store m
    → IsKept later (release_and_delete_tickets later m).match_maker
unfolding release_and_delete_tickets
release-IsKept store later m k h =
    let p : ℕ → Bool = (λ t. not (should_remove (later t))) in
    record {
      filed = record {
        aggressions = λ a.
            keep_if-All (λ t. (later t).aggression ≡ a) p (m.bucket a)
              (All-map (λ t. (store t).aggression ≡ a) (λ t. (later t).aggression ≡ a)
                (λ t e. (k t).0 ∙ e) (m.bucket a) (h.filed.aggressions a));
        distinct = λ a. keep_if-AreDistinct p (m.bucket a) (h.filed.distinct a);
      };
      complete = λ t.
          rw
            (
              (k t).0,
              is_member-keep_if p t m.time_sorted,
              is_member-keep_if p t (m.bucket (store t).aggression),
            )
            (ap (λ b. b && p t) (h.complete t));
      ordered =
          keep_if-AreOrdered later p m.time_sorted
            (AreOrdered-again store later m.time_sorted k h.ordered);
    }

-- A cycle of the matchmaker keeps the buckets in step with the queue, whatever Redis and the processes
-- answer, where the new tickets are distinct and in no bucket yet: before and after it a ticket is in
-- the queue exactly if it is in the bucket of its aggression, every bucket has only tickets of its
-- aggression, each once, and the queue is in the order of the start times.
pub start_match_make-IsKept :
    (a : Answers) (now : ℕ) (m : MatchMaker) (store : Store)
    → IsKept store m
    → AreDistinct m.tickets_to_add
    → Unfiled m.bucket m.tickets_to_add
    → IsKept (settled a now m store) (start_match_make a now m store).match_maker
unfolding start_match_make
start_match_make-IsKept a now m store h n u =
    let filed = add_new_match_tickets-IsFiled store m h.filed n u in
    release-IsKept store (settled a now m store) (add_new_match_tickets store m)
      (λ t. settled-SameKey a now m store t filed)
      (record {
        filed = filed;
        complete = add_new_match_tickets-Matches store m h.complete;
        ordered = add_new_match_tickets-AreOrdered store m h.ordered;
      })
