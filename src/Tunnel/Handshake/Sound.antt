-- ===== src/Tunnel/Handshake/Sound.antt =====
-- internal/tunnel/handshake.go: whom Edge lets in, and whom it takes for a probe.
use faketunnel.Base.{
  ℕ, ◌≤◌, ◌<◌, ◌≡◌, ap, inl, inr, Bool, true, false, not, ◌&&◌, ◌||◌, [], ◌∷◌, ◌++◌, arith, ltb,
  ◌==◌, Bool-cases, length, take, All-append_right, All-append_left, Result, ok, err, Result-cases,
  Bytes, IsBytes, text, text_eq_iff,
}
use faketunnel.Tunnel.Conn.{Error, Conn, is_probe, probe_of}
use faketunnel.Tunnel.Wire.{be32}
use faketunnel.Tunnel.Wire.{get_string}
use faketunnel.Tunnel.Wire.RoundTrip.{encoded, put_string_lem}
use faketunnel.Tunnel.Frame.{
  Frame, version, header_size, type_auth_request, type_auth_response, read_frame,
}
use faketunnel.Tunnel.Frame.Refusals.{
  read_frame_sound, write_frame_whole, is_bad_header, write_frame_keeps, write_frame-not-probe,
  read_frame-is_probe, read_frame_keeps,
}
use faketunnel.Tunnel.Messages.{AuthRequest, parse_auth_request, marshal_auth_response, flag_byte}
use faketunnel.Tunnel.Messages.RoundTrip.{marshal-parse_auth_request, marshal_auth_request-eq-ok}
use faketunnel.Tunnel.Handshake.{write_auth, token_valid, check_request, server_handshake}
use faketunnel.Tunnel.Handshake.Exchange.{response_bytes}

abbrev pub is_other_frame : Result Error Frame → Bool
is_other_frame (ok f) = not (f.kind == type_auth_request)
is_other_frame (err e) = false

write_auth-true :
    (message : Bytes) (c c' : Conn)
    → write_auth true message c ≡ (c', ok tt)
    → length message ≤ 100
    → (c'.sent ≡ c.sent ++ response_bytes true message) × (c'.incoming ≡ c.incoming)
unfolding write_auth marshal_auth_response
write_auth-true message c c' e h =
    let body = flag_byte true ∷ encoded message in
    ground (
      arith,
      put_string_lem (flag_byte true ∷ []) message (omega arith),
      write_frame_whole type_auth_response body c c',
      write_frame_keeps type_auth_response body c,
    )

-- what a successful check says of the request, and of the answer
check_request_sound :
    (sha256 : Bytes → Bytes) (want : Bytes) (r : Result Error AuthRequest) (c c' : Conn)
    (id : Bytes)
    → check_request sha256 want r c ≡ (c', ok id)
    → (token : Bytes) × (r ≡ ok (record { token = token; agent_id = id }))
      × (token_valid sha256 token want ≡ true)
      × (c'.sent ≡ c.sent ++ response_bytes true (text "ok"))
      × (c'.incoming ≡ c.incoming)
unfolding check_request
check_request_sound sha256 want (err x) c c' id e = ground arith
check_request_sound sha256 want (ok req) c c' id e =
    elim (Bool-cases (token_valid sha256 req.token want)) [
      | inl v ↦
          let answered = write_auth-true (text "ok") c c' in
          (req.token, ground arith, v, ground (arith, answered), ground (arith, answered))
      | inr v ↦ ground arith
    ]

-- a successful handshake read an AuthRequest frame and went on with its payload
first_frame :
    (sha256 : Bytes → Bytes) (want : Bytes) (c c' : Conn) (id : Bytes)
    → server_handshake sha256 want c ≡ (c', ok id)
    → (fr : Frame) × ((read_frame c).1 ≡ ok fr)
      × (fr.kind ≡ type_auth_request)
      × (check_request sha256 want (parse_auth_request fr.payload) (read_frame c).0 ≡ (c', ok id))
unfolding server_handshake
first_frame sha256 want c c' id e = elim (Result-cases (read_frame c).1) [
  | inl (fr, read) ↦ (fr, read, ground arith, ground arith)
  | inr (x, read) ↦ absurd (ground arith)
]

payload-IsBytes :
    (s payload rest front : Bytes) → IsBytes s → s ≡ front ++ (payload ++ rest) → IsBytes payload
payload-IsBytes s payload rest front b e =
    All-append_left (λ x. x < 256) payload rest
      (All-append_right (λ x. x < 256) front (payload ++ rest) (rw e at b))

-- If no other text has the token's digest, Edge's handshake succeeds only for a peer whose first
-- frame is an AuthRequest that carries the token; the id returned is the one in that frame, and
-- the answer is the accepting AuthResponse.
pub server_handshake_sound :
    (sha256 : Bytes → Bytes) (want : Bytes) (c c' : Conn) (id : Bytes)
    → ((other : Bytes) → sha256 other ≡ sha256 want → other ≡ want)
    → IsBytes c.incoming
    → server_handshake sha256 want c ≡ (c', ok id)
    → (flags r : ℕ) × (payload : Bytes) × (c.incoming
        ≡ version
          ∷ type_auth_request
          ∷ flags
          ∷ r
          ∷ (be32 (length payload) ++ (payload ++ c'.incoming)))
      × (payload ≡ encoded want ++ encoded id)
      × (c'.sent ≡ c.sent ++ response_bytes true (text "ok"))
unfolding token_valid
server_handshake_sound sha256 want c c' id free b e =
    let (fr, read, kind, went) = first_frame sha256 want c c' id e in
    let (r, short, split, kept) =
      read_frame_sound c (read_frame c).0 fr b (ap (λ x. ((read_frame c).0, x)) read) in
    let (token, parsed, valid, sent, left) =
      check_request_sound sha256 want _ (read_frame c).0 c' id went in
    let bytes =
      payload-IsBytes c.incoming fr.payload (read_frame c).0.incoming
        (version ∷ fr.kind ∷ fr.flags ∷ r ∷ be32 (length fr.payload)) b split in
    let marshalled =
      marshal-parse_auth_request (record { token = token; agent_id = id }) fr.payload bytes
        parsed in
    let shape =
      marshal_auth_request-eq-ok (record { token = token; agent_id = id }) fr.payload marshalled in
    let same = free token ((text_eq_iff (sha256 token) (sha256 want)).0 valid) in
    (fr.flags, r, fr.payload, ground arith, ground arith, ground (arith, read_frame_keeps c))

write_auth-not-probe :
    (accepted : Bool) (message : Bytes) (c : Conn)
    → length message ≤ 100
    → probe_of (write_auth accepted message c).1 ≡ false
unfolding write_auth marshal_auth_response
write_auth-not-probe accepted message c h = ground (
  arith,
  put_string_lem (flag_byte accepted ∷ []) message (omega arith),
  write_frame-not-probe type_auth_response (flag_byte accepted ∷ encoded message) c,
)

parse_auth_request-not-probe : (p : Bytes) → probe_of (parse_auth_request p) ≡ false
unfolding parse_auth_request get_string is_probe
parse_auth_request-not-probe p = ground arith

check_request-not-probe :
    (sha256 : Bytes → Bytes) (want : Bytes) (r : Result Error AuthRequest) (c : Conn)
    → probe_of r ≡ false
    → probe_of (check_request sha256 want r c).1 ≡ false
unfolding check_request is_probe
check_request-not-probe sha256 want (err x) c h = h
check_request-not-probe sha256 want (ok req) c h =
    ground (arith, write_auth-not-probe true (text "ok") c (omega arith))

-- Edge's handshake fails with ErrProbe exactly when a whole header arrived that has a wrong
-- version or too long a payload, or a whole frame arrived that is no AuthRequest.
pub server_handshake-is_probe :
    (sha256 : Bytes → Bytes) (want : Bytes) (c : Conn)
    → probe_of (server_handshake sha256 want c).1 ≡ (
        (not (ltb (length c.incoming) header_size) && is_bad_header (take header_size c.incoming))
        || is_other_frame (read_frame c).1)
unfolding server_handshake is_probe
server_handshake-is_probe sha256 want c = elim (Result-cases (read_frame c).1) [
  | inl (fr, read) ↦
      let quiet =
        check_request-not-probe sha256 want (parse_auth_request fr.payload) (read_frame c).0 in
      let blamed = read_frame-is_probe c in
      ground (arith, quiet (parse_auth_request-not-probe fr.payload))
  | inr (x, read) ↦ let blamed = read_frame-is_probe c in ground arith
]
