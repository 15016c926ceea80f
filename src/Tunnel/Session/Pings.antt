-- ===== src/Tunnel/Session/Pings.antt =====
-- internal/tunnel/session.go: the ping service answers each ping, and ends only with an error.
use faketunnel.Base.{
  ℕ, zero, suc, ◌≤◌, ◌<◌, ◌≡◌, refl, ap, ◌≢◌, inl, inr, true, none, some, List, [], ◌∷◌, ◌++◌,
  append-nil, append_assoc, arith, ◌==◌, if◌then◌else◌, Bool-cases, length, All, ok, err,
  Result-cases, Bytes,
}
use faketunnel.Tunnel.Conn.{eof, Conn, read_full}
use faketunnel.Tunnel.Frame.{max_payload_size, type_ping, type_pong, read_frame}
use faketunnel.Tunnel.Frame.RoundTrip.{frame_bytes, write_frame_lem, read_frame_lem}
use faketunnel.Tunnel.Frame.Refusals.{read_frame_shrinks, write_frame_keeps}
use faketunnel.Tunnel.Session.{pong_round, serve_pong}

pong_round_shrinks :
    (c : Conn) {c' : Conn} {u : Unit {0}}
    → pong_round c ≡ (c', ok u)
    → length c'.incoming < length c.incoming
unfolding pong_round
pong_round_shrinks c e = elim (Result-cases (read_frame c).1) [
  | inl (fr, read) ↦
      let shorter = read_frame_shrinks c (ap (λ r. ((read_frame c).0, r)) read) in
      ground (arith, write_frame_keeps type_pong fr.payload (read_frame c).0)
  | inr (x, read) ↦ absurd (ground arith)
]

-- The loop of ServePong ends on what the peer has sent: fuel above the number of bytes is
-- enough.
pub serve_pong_ends :
    (fuel : ℕ) (c : Conn) → length c.incoming < fuel → (serve_pong fuel c).1 ≢ none
unfolding serve_pong
serve_pong_ends zero c h = absurd (omega arith)
serve_pong_ends (suc fuel) c h = elim (Result-cases (pong_round c).1) [
  | inl (u, e) ↦
      let shorter = pong_round_shrinks c (ap (λ r. ((pong_round c).0, r)) e) in
      rw (e, serve_pong) (serve_pong_ends fuel (pong_round c).0 (omega arith))
  | inr (x, e) ↦ ground arith
]

-- the frames of a list, and the answers to the pings among them
abbrev pub stream_of : List (ℕ × Bytes) → Bytes
stream_of [] = []
stream_of ((kind, payload) ∷ fs) = frame_bytes kind payload ++ stream_of fs

abbrev pub answers : List (ℕ × Bytes) → Bytes
answers [] = []
answers ((kind, payload) ∷ fs) =
    (if kind == type_ping then frame_bytes type_pong payload else []) ++ answers fs

abbrev pub IsSmall : ℕ × Bytes → Type 0
IsSmall f = length f.1 ≤ max_payload_size

pong_round_lem :
    (kind : ℕ) (payload rest : Bytes) (c : Conn)
    → c.faults ≡ []
    → length payload ≤ max_payload_size
    → c.incoming ≡ frame_bytes kind payload ++ rest
    → pong_round c ≡ (
      record c {
        incoming = rest;
        sent = c.sent ++ (if kind == type_ping then frame_bytes type_pong payload else []);
      },
      ok tt,
    )
unfolding pong_round
pong_round_lem kind payload rest c f h e = elim (Bool-cases (kind == type_ping)) [
  | inl ping ↦ ground (
    arith,
    read_frame_lem kind payload rest c h e,
    write_frame_lem type_pong payload (record c { incoming = rest }) f h,
  )
  | inr other ↦ ground (arith, read_frame_lem kind payload rest c h e, append-nil c.sent)
]

at_eof : (c : Conn) → c.incoming ≡ [] → pong_round c ≡ (c, err eof)
unfolding pong_round read_frame read_full
at_eof c e = ground arith

-- ServePong answers the pings that arrive with their own payloads, in order, passes over other
-- frames, and closes the stream when it ends.
pub serve_pong-answers :
    (fs : List (ℕ × Bytes)) (fuel : ℕ) (c : Conn)
    → All IsSmall fs
    → c.faults ≡ []
    → c.incoming ≡ stream_of fs
    → length fs < fuel
    → serve_pong fuel c
      ≡ (record c { incoming = []; sent = c.sent ++ answers fs; closed = true }, some eof)
unfolding serve_pong
serve_pong-answers fs zero c small f e h = absurd (omega arith)
serve_pong-answers [] (suc fuel) c small f e h = ground (arith, at_eof c e, append-nil c.sent)
serve_pong-answers ((kind, payload) ∷ fs) (suc fuel) c small f e h =
    let answer = if kind == type_ping then frame_bytes type_pong payload else [] in
    let c1 = record c { incoming = stream_of fs; sent = c.sent ++ answer } in
    ground (
      arith,
      pong_round_lem kind payload (stream_of fs) c f small.0 e,
      serve_pong-answers fs fuel c1 small.1 f refl (omega arith),
      append_assoc c.sent answer (answers fs),
    )
