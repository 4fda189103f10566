-- ===== src/Transport/Entry/Safe.antt =====
-- What `HandleClientPacket` refuses has no effect, and what it takes touches one session.
use extraction_server.Prelude.{
  ℕ, ◌-◌, ◌<◌, ◌≤◌, ◌≡◌, ◌≢◌, refl, sym, ap, ◌∙◌, ==_refl, ltb, leb, true, false, Bool-cases, inl,
  inr, Option, none, some, List, [], ◌∷◌, length, get_or, set, zero, suc, arith, get_or-set_ne,
  get_or-set_self,
}
use extraction_server.Transport.Window.{RecvWindow, URecv, update_r_recv_state, update_u_recv_state}
use extraction_server.Transport.Packet.{UdpHeader, header_size, decode}
use extraction_server.Transport.Requests.{pkt_id_max}
use extraction_server.Transport.Entry.{
  Endpoint, Players, get_player_session, unsigned, dropped, dispatched, has_reliable, take_seq,
  take_header, handle_for, handle_found, handle_client_packet,
}

set_same {ℓ} : {A : Type ℓ} (xs : List A) (i : ℕ) (d : A) → set xs i (get_or xs i d) ≡ xs
set_same [] i d = refl
set_same (x ∷ xs) zero d = refl
set_same (x ∷ xs) (suc i) d = ap (λ ys. x ∷ ys) (set_same xs i d)

take_seq-refused : (h : UdpHeader) (e : Endpoint) → (take_seq h e).0 ≡ false → (take_seq h e).1 ≡ e
unfolding take_seq update_r_recv_state update_u_recv_state
take_seq-refused h e r = ground arith

handle_for-dropped :
    (hash : List ℕ → ℕ → ℕ) (now_ms : ℕ) (bs : List ℕ) (h : UdpHeader) (payload : List ℕ)
    (e : Endpoint)
    → (handle_for hash now_ms bs h payload e).0 ≡ dropped
    → (handle_for hash now_ms bs h payload e).1 ≡ e
unfolding handle_for
handle_for-dropped hash now_ms bs h payload e r = ground (arith, take_seq-refused h e)

get_player_session-there :
    (id : ℕ) (ps : Players) (e : Endpoint)
    → get_player_session id ps ≡ some e
    → get_or ps id none ≡ some e
unfolding get_player_session
get_player_session-there id ps e h = ground arith

handle_found-dropped :
    (hash : List ℕ → ℕ → ℕ) (now_ms : ℕ) (bs : List ℕ) (h : UdpHeader) (payload : List ℕ)
    (o : Option Endpoint) (ps : Players)
    → get_player_session h.session_id ps ≡ o
    → (handle_found hash now_ms bs h payload o ps).0 ≡ dropped
    → (handle_found hash now_ms bs h payload o ps).1 ≡ ps
unfolding handle_found
handle_found-dropped hash now_ms bs h payload none ps g r = refl
handle_found-dropped hash now_ms bs h payload (some e) ps g r =
    ap (λ x. set ps h.session_id (some x)) (handle_for-dropped hash now_ms bs h payload e r)
    ∙ ap (set ps h.session_id) (sym (get_player_session-there h.session_id ps e g))
    ∙ set_same ps h.session_id none

-- A packet that is dropped, for being too short, of an unknown id or session, wrongly signed, or
-- already received, leaves every session exactly as it was.
pub dropped_unchanged :
    (hash : List ℕ → ℕ → ℕ) (now_ms : ℕ) (bs : List ℕ) (ps : Players)
    → (handle_client_packet hash now_ms bs ps).0 ≡ dropped
    → (handle_client_packet hash now_ms bs ps).1 ≡ ps
unfolding handle_client_packet
dropped_unchanged hash now_ms bs ps r =
    let (h, payload) = decode bs in
    ground (
      arith,
      handle_found-dropped hash now_ms bs h payload (get_player_session h.session_id ps) ps refl,
    )

-- What a packet is that reaches a handler.
pub record IsGenuine (hash : List ℕ → ℕ → ℕ) (bs : List ℕ) (ps : Players) : Type 0 where
  pub sender : Endpoint
  pub long_enough : header_size ≤ length bs
  pub found : get_player_session (decode bs).0.session_id ps ≡ some sender
  pub signed : hash (unsigned bs) sender.security_key ≡ (decode bs).0.signature
  pub new : (take_seq (decode bs).0 sender).0 ≡ true

handle_for-dispatched :
    (hash : List ℕ → ℕ → ℕ) (now_ms : ℕ) (bs : List ℕ) (h : UdpHeader) (payload : List ℕ)
    (e : Endpoint)
    → (handle_for hash now_ms bs h payload e).0 ≢ dropped
    → (hash (unsigned bs) e.security_key ≡ h.signature) × ((take_seq h e).0 ≡ true)
unfolding handle_for
handle_for-dispatched hash now_ms bs h payload e r = ground arith

handle_found-IsGenuine :
    (hash : List ℕ → ℕ → ℕ) (now_ms : ℕ) (bs : List ℕ) (o : Option Endpoint) (ps : Players)
    → get_player_session (decode bs).0.session_id ps ≡ o
    → header_size ≤ length bs
    → (handle_found hash now_ms bs (decode bs).0 (decode bs).1 o ps).0 ≢ dropped
    → IsGenuine hash bs ps
unfolding handle_found
handle_found-IsGenuine hash now_ms bs none ps g long r = absurd (r refl)
handle_found-IsGenuine hash now_ms bs (some e) ps g long r =
    let (s, n) = handle_for-dispatched hash now_ms bs (decode bs).0 (decode bs).1 e r in
    record { sender = e; long_enough = long; found = g; signed = s; new = n }

handle_found-others :
    (hash : List ℕ → ℕ → ℕ) (now_ms : ℕ) (bs : List ℕ) (h : UdpHeader) (payload : List ℕ)
    (o : Option Endpoint) (ps : Players) (j : ℕ)
    → h.session_id ≢ j
    → get_or (handle_found hash now_ms bs h payload o ps).1 j none ≡ get_or ps j none
unfolding handle_found
handle_found-others hash now_ms bs h payload none ps j n = refl
handle_found-others hash now_ms bs h payload (some e) ps j n =
    get_or-set_ne ps h.session_id j _ none n

update_r_again :
    (w : RecvWindow) (n : ℕ)
    → length w.bitfield ≡ 32
    → (update_r_recv_state w n).0 ≡ true
    → (update_r_recv_state (update_r_recv_state w n).1 n).0 ≡ false
unfolding update_r_recv_state
update_r_again w n width new =
    ground (arith, new, width, get_or-set_self w.bitfield (w.highest - n - 1) true false)

update_u_again :
    (u : URecv) (n : ℕ)
    → (update_u_recv_state u n).0 ≡ true
    → (update_u_recv_state (update_u_recv_state u n).1 n).0 ≡ false
unfolding update_u_recv_state
update_u_again u n new = ground (arith, new)

-- A number that was taken is not taken again right after.
take_again :
    (now_ms : ℕ) (h : UdpHeader) (e : Endpoint)
    → length e.window.bitfield ≡ 32
    → (take_seq h e).0 ≡ true
    → (take_seq h (take_header now_ms h (take_seq h e).1)).0 ≡ false
unfolding take_seq take_header
take_again now_ms h e width new = elim (Bool-cases (has_reliable h.flags)) [
  | inl r ↦ rw r (update_r_again e.window h.r_seq_num width (rw r at new))
  | inr u ↦ rw u (update_u_again e.u_recv h.u_seq_num (rw u at new))
]

get_or-there : (i : ℕ) (ps : Players) (e : Endpoint) → get_or ps i none ≡ some e → i < length ps
get_or-there i [] e h = cc
get_or-there zero (p ∷ ps) e h = omega arith
get_or-there (suc i) (p ∷ ps) e h = omega (arith, get_or-there i ps e h)

-- The session of an id after it was written.
written :
    (id : ℕ) (ps : Players) (e e' : Endpoint)
    → get_player_session id ps ≡ some e
    → get_player_session id (set ps id (some e')) ≡ some e'
unfolding get_player_session
written id ps e e' h =
    let there = get_player_session-there id ps e h in
    ground (arith, h, get_or-set_self ps id (some e') none (get_or-there id ps e there))

handle_for-takes :
    (hash : List ℕ → ℕ → ℕ) (now_ms : ℕ) (bs : List ℕ) (h : UdpHeader) (payload : List ℕ)
    (e : Endpoint)
    → hash (unsigned bs) e.security_key ≡ h.signature
    → (take_seq h e).0 ≡ true
    → handle_for hash now_ms bs h payload e
      ≡ (dispatched h.packet_id payload, take_header now_ms h (take_seq h e).1)
unfolding handle_for
handle_for-takes hash now_ms bs h payload e signed new = rw (signed, ==_refl h.signature, new) refl

handle_for-refuses :
    (hash : List ℕ → ℕ → ℕ) (now_ms : ℕ) (bs : List ℕ) (h : UdpHeader) (payload : List ℕ)
    (e : Endpoint)
    → (take_seq h e).0 ≡ false
    → (handle_for hash now_ms bs h payload e).0 ≡ dropped
unfolding handle_for
handle_for-refuses hash now_ms bs h payload e old = ground (arith, old)

handle_found-again :
    (hash : List ℕ → ℕ → ℕ) (now_ms later : ℕ) (bs : List ℕ) (h : UdpHeader) (payload : List ℕ)
    (e : Endpoint) (ps : Players)
    → get_player_session h.session_id ps ≡ some e
    → length e.window.bitfield ≡ 32
    → hash (unsigned bs) e.security_key ≡ h.signature
    → (take_seq h e).0 ≡ true
    → let ps' = (handle_found hash now_ms bs h payload (some e) ps).1 in
      (handle_found hash later bs h payload (get_player_session h.session_id ps') ps').0 ≡ dropped
unfolding handle_found
handle_found-again hash now_ms later bs h payload e ps found width signed new =
    let e' = take_header now_ms h (take_seq h e).1 in
    rw (handle_for-takes hash now_ms bs h payload e signed new) (
      rw (written h.session_id ps e e' found)
        (handle_for-refuses hash later bs h payload e' (take_again now_ms h e width new)))

-- The same for a whole packet.
dispatched-again :
    (hash : List ℕ → ℕ → ℕ) (now_ms later : ℕ) (bs : List ℕ) (ps : Players)
    (g : IsGenuine hash bs ps)
    → ltb (length bs) header_size ≡ false
    → leb pkt_id_max (decode bs).0.packet_id ≡ false
    → length g.sender.window.bitfield ≡ 32
    → (handle_client_packet hash later bs (handle_client_packet hash now_ms bs ps).1).0 ≡ dropped
unfolding handle_client_packet
dispatched-again hash now_ms later bs ps g long known width =
    rw (long, known, g.found)
      (handle_found-again hash now_ms later bs (decode bs).0 (decode bs).1 g.sender ps g.found width
        g.signed g.new)

-- A packet that reaches a handler carries the hash under the key of the session that it names, is long
-- enough for a header, and passes the session's test of its sequence number. It changes no session but
-- that one, and the same bytes, coming again as the next packet at whatever time, are dropped. The bit
-- fields of the windows have 32 bits.
pub dispatched-IsGenuine :
    (hash : List ℕ → ℕ → ℕ) (now_ms later : ℕ) (bs : List ℕ) (ps : Players) (j : ℕ)
    → ((i : ℕ) (e : Endpoint) → get_player_session i ps ≡ some e → length e.window.bitfield ≡ 32)
    → (handle_client_packet hash now_ms bs ps).0 ≢ dropped
    → (decode bs).0.session_id ≢ j
    → IsGenuine hash bs ps
      × (get_or (handle_client_packet hash now_ms bs ps).1 j none ≡ get_or ps j none)
      × ((handle_client_packet hash later bs (handle_client_packet hash now_ms bs ps).1).0
          ≡ dropped)
unfolding handle_client_packet
dispatched-IsGenuine hash now_ms later bs ps j width r n =
    elim (Bool-cases (ltb (length bs) header_size)) [
      | inl short ↦ absurd (r (rw short refl))
      | inr long ↦ elim (Bool-cases (leb pkt_id_max (decode bs).0.packet_id)) [
        | inl unknown ↦ absurd (r (rw (long, unknown) refl))
        | inr known ↦
            let g =
              handle_found-IsGenuine hash now_ms bs _ ps refl (ground (arith, long))
                (rw (long, known) at r) in
            (
              g,
              rw (long, known)
                  (handle_found-others hash now_ms bs (decode bs).0 (decode bs).1 _ ps j n),
              dispatched-again hash now_ms later bs ps g long known (width _ g.sender g.found),
            )
      ]
    ]
