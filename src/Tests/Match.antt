-- ===== src/Tests/Match.antt =====
-- Matchmaking at concrete inputs.
use extraction_server.Prelude.{
  ℕ, ◌⊎◌, inl, inr, Bool-cases, ◌==◌, ◌≡◌, refl, if◌then◌else◌, true, false, not, List, [], ◌∷◌,
  zero, suc, All, arith,
}
use extraction_server.Prelude.Members.{is_member, AreDistinct}
use extraction_server.Match.{
  MatchTicket, Store, MatchMaker, find_match_group, add_new_match_tickets,
}
use extraction_server.Match.Group.{IsFiled}
use extraction_server.Match.Groups.{OneOf, flat, IsFormed}
use extraction_server.Match.Disjoint.{find_match_group-IsFormed}
use extraction_server.Match.Waiting.{AreOrdered}
use extraction_server.Match.Filing.{Unfiled, Matches}
use extraction_server.Match.Verdicts.Cycle.{IsKept, start_match_make-IsKept}
use extraction_server.Match.Patience.{find_match_group-matches}
use extraction_server.Match.Verdicts.{Answers, found, settled, start_match_make}
use extraction_server.Match.Verdicts.Fates.{start_match_make-fate, start_match_make-to_delete}

abbrev ticket : ℕ → ℕ → MatchTicket
ticket aggression start = record {
  aggression = aggression;
  start_time = start;
  is_matched = false;
  is_valid = true;
}

-- Four tickets of aggression 1 and one of aggression 2.
abbrev store : Store
store t = if t == 4 then ticket 2 100 else ticket 1 t

abbrev filed : ℕ → List ℕ
filed zero = []
filed (suc zero) = 0 ∷ 1 ∷ []
filed (suc (suc zero)) = 4 ∷ []
filed (suc (suc (suc a))) = []

abbrev queue : MatchMaker
queue = record {
  max_agression = 3;
  tickets_to_add = [];
  time_sorted = 0 ∷ 1 ∷ 4 ∷ [];
  bucket = filed;
  matched_groups = [];
}

filed_aggressions : (a : ℕ) → All (λ t. (store t).aggression ≡ a) (filed a)
filed_aggressions zero = tt
filed_aggressions (suc zero) = (refl, (refl, tt))
filed_aggressions (suc (suc zero)) = (refl, tt)
filed_aggressions (suc (suc (suc a))) = tt

filed_distinct : (a : ℕ) → AreDistinct (filed a)
filed_distinct zero = tt
filed_distinct (suc zero) = (refl, (refl, tt))
filed_distinct (suc (suc zero)) = (refl, tt)
filed_distinct (suc (suc (suc a))) = tt

queue-IsFiled : IsFiled store queue
queue-IsFiled = record { aggressions = filed_aggressions; distinct = filed_distinct }

find_match_group-IsFormed_example :
    AreDistinct (flat (find_match_group 70 queue store).groups)
    × All (IsFormed 70 store) (find_match_group 70 queue store).groups
find_match_group-IsFormed_example = find_match_group-IsFormed 70 queue store queue-IsFiled

queue-AreOrdered : AreOrdered store queue.time_sorted
queue-AreOrdered = ((omega arith, (omega arith, tt)), ((omega arith, tt), (tt, tt)))

find_match_group-matches_example :
    is_member 1 (flat (find_match_group 70 queue store).groups) ≡ true
find_match_group-matches_example =
    find_match_group-matches 70 queue store 1 queue-AreOrdered refl refl (omega arith)

-- Two more tickets, the later one first.
abbrev arriving : MatchMaker
arriving = record queue { tickets_to_add = 3 ∷ 2 ∷ [] }

abbrev answers : Answers
answers = record { verified = λ g. false; distributed = λ g. false; is_waiting = λ t. t == 0 }

arriving-Unfiled : Unfiled filed (3 ∷ 2 ∷ [])
arriving-Unfiled t zero h = refl
arriving-Unfiled t (suc zero) h = ground (arith, h)
arriving-Unfiled t (suc (suc zero)) h = ground (arith, h)
arriving-Unfiled t (suc (suc (suc a))) h = refl

arriving-Matches : Matches store arriving
arriving-Matches t = elim (Bool-cases (t == 4)) [
  | inl e ↦ rw e (ground (arith, e))
  | inr e ↦ rw e (ground (arith, e))
]

arriving-IsKept : IsKept store arriving
arriving-IsKept = record {
  filed = record { aggressions = filed_aggressions; distinct = filed_distinct };
  complete = arriving-Matches;
  ordered = queue-AreOrdered;
}

start_match_make-IsKept_example :
    IsKept
      (settled answers 70 arriving store)
      (start_match_make answers 70 arriving store).match_maker
start_match_make-IsKept_example =
    start_match_make-IsKept answers 70 arriving store arriving-IsKept (refl, (refl, tt))
      arriving-Unfiled

start_match_make-fate_example :
    let r = start_match_make answers 70 queue store in
    (g : List ℕ) × OneOf g (found 70 queue store).groups
    × (is_member 1 g ≡ true)
    × (is_member 1 r.match_maker.time_sorted
        ≡ (if answers.verified g then not (answers.distributed g) else answers.is_waiting 1))
    × (is_member 1 r.to_release ≡ not (is_member 1 r.match_maker.time_sorted))
unfolding add_new_match_tickets flat find_match_group
start_match_make-fate_example =
    start_match_make-fate answers 70 queue store 1 queue-IsFiled refl refl refl

start_match_make-to_delete_example :
    let r = start_match_make answers 70 queue store in
    let end = settled answers 70 queue store in
    (r.to_delete ≡ [])
    × All (λ t. ((end t).is_valid ≡ true) ⊎ (is_member t r.to_release ≡ true)) queue.time_sorted
    × All (λ t. (end t).is_valid ≡ true) r.match_maker.time_sorted
unfolding add_new_match_tickets
start_match_make-to_delete_example =
    start_match_make-to_delete answers 70 queue store queue-IsFiled (refl, (refl, (refl, tt)))
