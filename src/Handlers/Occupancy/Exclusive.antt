-- ===== src/Handlers/Occupancy/Exclusive.antt =====
-- The two sides of an open container: the session that has it open, and its occupant.
use extraction_server.Prelude.{ℕ, ◌≡◌, Bool, true, none, some, List, [], ◌∷◌, arith}
use extraction_server.Handlers.Occupancy.{Occupancy, Room, open_container, close_container, release}

-- The container that a player with a session has open is occupied by that player.
pub IsConsistent : Room → Occupancy → Type 0
IsConsistent r o = (p c : ℕ) → r.has_session p ≡ true → o.opened p ≡ some c → o.occupant c ≡ some p

release-IsConsistent :
    (r : Room) (p : ℕ) (o : Occupancy) → IsConsistent r o → IsConsistent r (release r p o)
unfolding IsConsistent release
release-IsConsistent r p o h = λ q d s e. ground (arith, h q d s)

open_container-IsConsistent :
    (r : Room) (p c : ℕ) (o : Occupancy)
    → IsConsistent r o
    → IsConsistent r (open_container r p c o).1
unfolding IsConsistent open_container
open_container-IsConsistent r p c o h = λ q d s e. ground (arith, h q d s)

-- A request of a player, with the containers and the distances at its time.
pub data ContainerRequest : Type 0 where
  open_request : (ℕ → Bool) → (ℕ → ℕ → Bool) → ℕ → ℕ → ContainerRequest
  close_request : (ℕ → Bool) → (ℕ → ℕ → Bool) → ℕ → ContainerRequest

-- The room at the time of a request; the sessions are those of the match.
abbrev pub room_at : (ℕ → Bool) → (ℕ → Bool) → (ℕ → ℕ → Bool) → Room
room_at sessions containers near = record {
  is_container = containers;
  has_session = sessions;
  is_near = near;
}

unfoldable pub serve : (ℕ → Bool) → ContainerRequest → Occupancy → Occupancy
serve sessions (open_request containers near p c) o =
    (open_container (room_at sessions containers near) p c o).1
serve sessions (close_request containers near p) o =
    (close_container (room_at sessions containers near) p o).1

unfoldable pub serve_all : (ℕ → Bool) → List ContainerRequest → Occupancy → Occupancy
serve_all sessions [] o = o
serve_all sessions (q ∷ qs) o = serve_all sessions qs (serve sessions q o)

abbrev pub all_free : Occupancy
all_free = record { opened = λ p. none; occupant = λ c. none }

Agrees : (ℕ → Bool) → Occupancy → Type 0
Agrees sessions o = (p c : ℕ) → sessions p ≡ true → o.opened p ≡ some c → o.occupant c ≡ some p

serve-Agrees :
    (sessions : ℕ → Bool) (q : ContainerRequest) (o : Occupancy)
    → Agrees sessions o
    → Agrees sessions (serve sessions q o)
unfolding serve Agrees IsConsistent close_container
serve-Agrees sessions (open_request containers near p c) o h =
    open_container-IsConsistent (room_at sessions containers near) p c o h
serve-Agrees sessions (close_request containers near p) o h =
    let k = release-IsConsistent (room_at sessions containers near) p o h in
    λ q d s e. ground (arith, h q d s, k q d s)

serve_all-Agrees :
    (sessions : ℕ → Bool) (qs : List ContainerRequest) (o : Occupancy)
    → Agrees sessions o
    → Agrees sessions (serve_all sessions qs o)
unfolding serve_all
serve_all-Agrees sessions [] o h = h
serve_all-Agrees sessions (q ∷ qs) o h =
    serve_all-Agrees sessions qs (serve sessions q o) (serve-Agrees sessions q o h)

all_free-Agrees : (sessions : ℕ → Bool) → Agrees sessions all_free
unfolding Agrees
all_free-Agrees sessions p c s e = ground arith

agree_same :
    (sessions : ℕ → Bool) (o : Occupancy) (p q c : ℕ)
    → Agrees sessions o
    → sessions p ≡ true
    → sessions q ≡ true
    → o.opened p ≡ some c
    → o.opened q ≡ some c
    → p ≡ q
unfolding Agrees
agree_same sessions o p q c h sp sq ep eq =
    let hp = h p c sp ep in let hq = h q c sq eq in ground arith

-- Whatever open and close requests the players of a room send, in any order, and wherever they stand
-- and whatever containers there are at the time of each: two players with a session that have the
-- same container open are one.
pub one_at_a_time :
    (sessions : ℕ → Bool) (qs : List ContainerRequest) (p q c : ℕ)
    → sessions p ≡ true
    → sessions q ≡ true
    → (serve_all sessions qs all_free).opened p ≡ some c
    → (serve_all sessions qs all_free).opened q ≡ some c
    → p ≡ q
one_at_a_time sessions qs p q c sp sq ep eq =
    agree_same sessions (serve_all sessions qs all_free) p q c
      (serve_all-Agrees sessions qs all_free (all_free-Agrees sessions)) sp sq ep eq
