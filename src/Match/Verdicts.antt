-- ===== src/Match/Verdicts.antt =====
-- What becomes of the groups: `StartMatchMakeInternal`, `ReleaseAndDeleteTickets` and `StartMatchMake`
-- of src/Matchmaker.cpp. Redis and the pool of dedicated processes answer from outside.
pub mod Fates
pub mod Cycle
use extraction_server.Prelude.{
  ℕ, ◌==◌, if◌then◌else◌, Bool, true, false, not, ◌&&◌, ◌||◌, List, [], ◌∷◌, ◌++◌, keep_if,
}
use extraction_server.Match.{
  MatchTicket, Store, put_ticket, set_matched, MatchMaker, Search, match_all, add_new_match_tickets,
  find_match_group,
}

-- The answers to one cycle: does the script of `VerifyAndSetMatchStatus` find all tickets of the group
-- WAITING, does `DistributePlayerGroup` find a process for the group, and is the status of a ticket
-- still WAITING where the script said no?
pub record Answers : Type 0 where
  pub verified : List ℕ → Bool
  pub distributed : List ℕ → Bool
  pub is_waiting : ℕ → Bool

-- The loop body for a group that the script refused.
abbrev pub refuse : Answers → ℕ → MatchTicket → MatchTicket
refuse a t v =
    if a.is_waiting t then record v { is_matched = false } else record v { is_valid = false }

-- The loop over it
unfoldable pub refuse_all : Answers → List ℕ → Store → Store
refuse_all a [] store = store
refuse_all a (t ∷ ts) store = refuse_all a ts (put_ticket t (refuse a t (store t)) store)

-- The loop body of `StartMatchMakeInternal`
unfoldable pub settle_group : Answers → List ℕ → Store → Store
unfolding refuse_all match_all
settle_group a g store =
    if a.verified g
    then (if a.distributed g then store else match_all false g store)
    else refuse_all a g store

-- `StartMatchMakeInternal`
unfoldable pub start_match_make_internal : Answers → List (List ℕ) → Store → Store
unfolding settle_group
start_match_make_internal a [] store = store
start_match_make_internal a (g ∷ gs) store = start_match_make_internal a gs (settle_group a g store)

-- `shouldRemove`
abbrev pub should_remove : MatchTicket → Bool
should_remove t = t.is_matched || not t.is_valid

-- The queue after a cycle, and the tickets that go back to the pool, of which the second list is
-- deleted from Redis first.
pub record Released : Type 0 where
  pub match_maker : MatchMaker
  pub to_release : List ℕ
  pub to_delete : List ℕ

-- `ReleaseAndDeleteTickets`
unfoldable pub release_and_delete_tickets : Store → MatchMaker → Released
release_and_delete_tickets store m = record {
  to_release = keep_if (λ t. (store t).is_matched) m.time_sorted;
  to_delete = keep_if (λ t. not (store t).is_matched && not (store t).is_valid) m.time_sorted;
  match_maker = record m {
    time_sorted = keep_if (λ t. not (should_remove (store t))) m.time_sorted;
    bucket = λ b. keep_if (λ t. not (should_remove (store t))) (m.bucket b);
  };
}

-- The tickets after the second step of `StartMatchMake` and after the third.
abbrev pub found : ℕ → MatchMaker → Store → Search
found now m store = find_match_group now (add_new_match_tickets store m) store

abbrev pub settled : Answers → ℕ → MatchMaker → Store → Store
settled a now m store =
    start_match_make_internal a (found now m store).groups (found now m store).store

-- `StartMatchMake`
unfoldable pub start_match_make : Answers → ℕ → MatchMaker → Store → Released
unfolding release_and_delete_tickets
start_match_make a now m store =
    release_and_delete_tickets (settled a now m store) (add_new_match_tickets store m)
