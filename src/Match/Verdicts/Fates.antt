-- ===== src/Match/Verdicts/Fates.antt =====
-- The fate of each ticket in a cycle.
use extraction_server.Prelude.{
  ℕ, ◌≡◌, refl, ap, ◌∙◌, ◌==◌, ==_iff, ==_refl, ◌⊎◌, All, if◌then◌else◌, Bool, true, false, not,
  ◌&&◌, Bool-cases, inl, inr, List, [], ◌∷◌, ◌++◌, keep_if, arith,
}
use extraction_server.Prelude.Members.{is_member, is_member-append, All-member, AreDistinct}
use extraction_server.Match.{
  MatchTicket, Store, MatchMaker, match_all, set_matched, put_ticket, add_new_match_tickets,
}
use extraction_server.Match.Group.{IsFiled}
use extraction_server.Match.Groups.{flat, OneOf}
use extraction_server.Match.Disjoint.{find_match_group-IsSound}
use extraction_server.Match.Verdicts.{
  Answers, refuse, refuse_all, settle_group, start_match_make_internal, should_remove,
  release_and_delete_tickets, found, settled, start_match_make,
}

abbrev unmatch : MatchTicket → MatchTicket
unmatch v = record v { is_matched = false }

unmatch_all_lem :
    (ts : List ℕ) (store : Store) (t : ℕ)
    → match_all false ts store t ≡ (if is_member t ts then unmatch (store t) else store t)
unfolding match_all
unmatch_all_lem [] store t = refl
unmatch_all_lem (x ∷ xs) store t = ground (arith, unmatch_all_lem xs (set_matched false x store) t)

refuse_again : (a : Answers) (t : ℕ) (v : MatchTicket) → refuse a t (refuse a t v) ≡ refuse a t v
refuse_again a t v = ground arith

refuse_all_lem :
    (a : Answers) (ts : List ℕ) (store : Store) (t : ℕ)
    → refuse_all a ts store t ≡ (if is_member t ts then refuse a t (store t) else store t)
unfolding refuse_all
refuse_all_lem a [] store t = refl
refuse_all_lem a (x ∷ xs) store t =
    refuse_all_lem a xs (put_ticket x (refuse a x (store x)) store) t ∙ elim (Bool-cases (t == x)) [
      | inr other ↦ rw other refl
      | inl own ↦ rw own (mine ((==_iff t x).0 own) (is_member t xs))
    ]
  where
    mine :
        t ≡ x
        → (b : Bool)
        → (if b then refuse a t (refuse a x (store x)) else refuse a x (store x))
          ≡ refuse a t (store t)
    mine e true = rw e (refuse_again a x (store x))
    mine e false = rw e refl

-- What the answers make of a member of a group.
abbrev pub fate : Answers → List ℕ → ℕ → MatchTicket → MatchTicket
fate a g t v = if a.verified g then (if a.distributed g then v else unmatch v) else refuse a t v

pub settle_group_lem :
    (a : Answers) (g : List ℕ) (store : Store) (t : ℕ)
    → settle_group a g store t ≡ (if is_member t g then fate a g t (store t) else store t)
unfolding settle_group
settle_group_lem a g store t = ground (arith, unmatch_all_lem g store t, refuse_all_lem a g store t)

internal-other :
    (a : Answers) (gs : List (List ℕ)) (store : Store) (t : ℕ)
    → is_member t (flat gs) ≡ false
    → start_match_make_internal a gs store t ≡ store t
unfolding start_match_make_internal flat
internal-other a [] store t h = refl
internal-other a (g ∷ gs) store t h =
    let both = rw (is_member-append t g (flat gs)) at h in
    let out : is_member t g ≡ false = ground (arith, both) in
    internal-other a gs _ t (ground (arith, both)) ∙ settle_group_lem a g store t ∙ rw out refl

no_common :
    (t : ℕ) (xs ys : List ℕ)
    → AreDistinct (xs ++ ys)
    → is_member t xs ≡ true
    → is_member t ys ≡ false
no_common t [] ys d h = cc
no_common t (x ∷ xs) ys d h = elim (Bool-cases (t == x)) [
  | inl own ↦ let e = (==_iff t x).0 own in rw e (ground (arith, d.0, is_member-append x xs ys))
  | inr other ↦ no_common t xs ys d.1 (ground (arith, h, other))
]

tail_distinct : (xs ys : List ℕ) → AreDistinct (xs ++ ys) → AreDistinct ys
tail_distinct [] ys d = d
tail_distinct (x ∷ xs) ys d = tail_distinct xs ys d.1

-- Where the groups have no ticket in common, each member has the fate of its own group.
internal-fate :
    (a : Answers) (gs : List (List ℕ)) (store : Store) (t : ℕ)
    → AreDistinct (flat gs)
    → is_member t (flat gs) ≡ true
    → (g : List ℕ) × OneOf g gs
      × (is_member t g ≡ true)
      × (start_match_make_internal a gs store t ≡ fate a g t (store t))
unfolding start_match_make_internal flat
internal-fate a [] store t d h = cc
internal-fate a (g ∷ gs) store t d h = elim (Bool-cases (is_member t g)) [
  | inl member ↦ (
    g,
    inl refl,
    member,
    internal-other a gs _ t (no_common t g (flat gs) d member)
        ∙ settle_group_lem a g store t
        ∙ rw member refl,
  )
  | inr out ↦
      let later : is_member t (flat gs) ≡ true =
        ground (arith, h, is_member-append t g (flat gs), out) in
      let (g', one, m, e) =
        internal-fate a gs (settle_group a g store) t (tail_distinct g (flat gs) d) later in
      (g', inr one, m, e ∙ ap (fate a g' t) (settle_group_lem a g store t ∙ rw out refl))
]

pub is_member-keep_if :
    (p : ℕ → Bool) (t : ℕ) (xs : List ℕ) → is_member t (keep_if p xs) ≡ (is_member t xs && p t)
is_member-keep_if p t [] = refl
is_member-keep_if p t (x ∷ xs) = elim (Bool-cases (t == x)) [
  | inl own ↦ ground (arith, own, ap p ((==_iff t x).0 own), is_member-keep_if p t xs)
  | inr other ↦ ground (arith, other, is_member-keep_if p t xs)
]

keep_if-none :
    (p : ℕ → Bool) (xs : List ℕ)
    → ((t : ℕ) → is_member t xs ≡ true → p t ≡ false)
    → keep_if p xs ≡ []
keep_if-none p [] h = refl
keep_if-none p (x ∷ xs) h =
    rw (h x (ground (arith, ==_refl x))) (keep_if-none p xs (λ t m. h t (ground (arith, m))))

All-of : (P : ℕ → Type 0) (xs : List ℕ) → ((t : ℕ) → is_member t xs ≡ true → P t) → All P xs
All-of P [] h = tt
All-of P (x ∷ xs) h =
    (h x (ground (arith, ==_refl x)), All-of P xs (λ t m. h t (ground (arith, m))))

-- The state of a group's member when the answers come.
member_found :
    (now : ℕ) (m : MatchMaker) (store : Store) (t : ℕ)
    → IsFiled store (add_new_match_tickets store m)
    → is_member t (flat (found now m store).groups) ≡ true
    → ((found now m store).store t).is_matched ≡ true
member_found now m store t f h =
    (find_match_group-IsSound now (add_new_match_tickets store m) store f).taken t h

fate-kept :
    (a : Answers) (g : List ℕ) (t : ℕ) (v : MatchTicket)
    → v.is_valid ≡ true
    → v.is_matched ≡ true
    → (not (should_remove (fate a g t v))
        ≡ (if a.verified g then not (a.distributed g) else a.is_waiting t))
      × ((fate a g t v).is_matched ≡ not (not (should_remove (fate a g t v))))
fate-kept a g t v h k = ground arith

settled-valid :
    (a : Answers) (now : ℕ) (m : MatchMaker) (store : Store) (t : ℕ)
    → IsFiled store (add_new_match_tickets store m)
    → (store t).is_valid ≡ true
    → (not (settled a now m store t).is_matched && not (settled a now m store t).is_valid) ≡ false
settled-valid a now m store t f valid =
    let s = found now m store in
    let v = find_match_group-IsSound now (add_new_match_tickets store m) store f in
    let still : (s.store t).is_valid ≡ true = v.same_valid t ∙ valid in
    elim (Bool-cases (is_member t (flat s.groups))) [
      | inr out ↦ rw (internal-other a s.groups s.store t out, still) (ground arith)
      | inl member ↦
          let (g, one, m', e) = internal-fate a s.groups s.store t v.apart member in
          rw e (ground (arith, still, v.taken t member))
    ]

-- No ticket is ever up for deletion from Redis. Where all tickets of the queue are valid, the new ones
-- included, and every bucket has only tickets of its aggression, each once, a cycle puts none on the
-- list for deletion, whatever Redis and the processes answer: each ticket of the queue is still valid
-- or is released like one that got its room. All tickets that stay are valid again.
pub start_match_make-to_delete :
    (a : Answers) (now : ℕ) (m : MatchMaker) (store : Store)
    → IsFiled store (add_new_match_tickets store m)
    → All (λ t. (store t).is_valid ≡ true) (add_new_match_tickets store m).time_sorted
    → let r = start_match_make a now m store in
      let end = settled a now m store in
      (r.to_delete ≡ [])
      × All
          (λ t. ((end t).is_valid ≡ true) ⊎ (is_member t r.to_release ≡ true))
          (add_new_match_tickets store m).time_sorted
      × All (λ t. (end t).is_valid ≡ true) r.match_maker.time_sorted
unfolding start_match_make release_and_delete_tickets
start_match_make-to_delete a now m store f valid =
    let end = settled a now m store in
    let q = (add_new_match_tickets store m).time_sorted in
    let fine : (t : ℕ)
        → is_member t q ≡ true
        → (not (end t).is_matched && not (end t).is_valid) ≡ false =
      λ t h.
        settled-valid a now m store t f (All-member (λ x. (store x).is_valid ≡ true) t q valid h) in
    (
      keep_if-none (λ t. not (end t).is_matched && not (end t).is_valid) q fine,
      All-of
          (λ t.
            ((end t).is_valid ≡ true) ⊎ (is_member t (keep_if (λ x. (end x).is_matched) q) ≡ true))
          q (λ t h. ground (arith, fine t h, h, is_member-keep_if (λ x. (end x).is_matched) t q)),
      All-of (λ t. (end t).is_valid ≡ true) (keep_if (λ x. not (should_remove (end x))) q)
          (λ t h. ground (arith, h, is_member-keep_if (λ x. not (should_remove (end x))) t q)),
    )

-- The fate of a ticket that is valid, in the queue, and in a group of the cycle, where every bucket has
-- only tickets of its aggression, each once. Where the script finds that group WAITING, it stays in the queue exactly if no process takes the group; where it does not,
-- exactly if the ticket itself is still WAITING. Otherwise it is released.
pub start_match_make-fate :
    (a : Answers) (now : ℕ) (m : MatchMaker) (store : Store) (t : ℕ)
    → IsFiled store (add_new_match_tickets store m)
    → (store t).is_valid ≡ true
    → is_member t (add_new_match_tickets store m).time_sorted ≡ true
    → is_member t (flat (found now m store).groups) ≡ true
    → let r = start_match_make a now m store in
      (g : List ℕ) × OneOf g (found now m store).groups
      × (is_member t g ≡ true)
      × (is_member t r.match_maker.time_sorted
          ≡ (if a.verified g then not (a.distributed g) else a.is_waiting t))
      × (is_member t r.to_release ≡ not (is_member t r.match_maker.time_sorted))
unfolding start_match_make release_and_delete_tickets
start_match_make-fate a now m store t f valid queued grouped =
    let s = found now m store in
    let q = (add_new_match_tickets store m).time_sorted in
    let v = find_match_group-IsSound now (add_new_match_tickets store m) store f in
    let (g, one, m', e) = internal-fate a s.groups s.store t v.apart grouped in
    let (kept, released) =
      fate-kept a g t (s.store t) (v.same_valid t ∙ valid) (v.taken t grouped) in
    let stays = is_member-keep_if (λ x. not (should_remove (settled a now m store x))) t q in
    let goes = is_member-keep_if (λ x. (settled a now m store x).is_matched) t q in
    (g, one, m', stays ∙ rw (queued, e) kept, goes ∙ rw (queued, e, stays, queued, e) released)
