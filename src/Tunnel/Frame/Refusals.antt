-- ===== src/Tunnel/Frame/Refusals.antt =====
-- internal/tunnel/frame.go: what ReadFrame refuses, and what a failing WriteFrame leaves behind.
use faketunnel.Base.{
  length-drop, ◌<◌, ℕ, ◌+◌, ◌≤◌, ◌≡◌, refl, ap, inl, inr, Bool, false, not, ◌&&◌, ◌||◌, [], ◌∷◌,
  ◌++◌, append-nil, append_assoc, arith, ltb, ◌==◌, ltb→le, Bool-cases, length, take, drop,
  take-append-drop, length-take, append-take, take-append_front, ok, err, Result-cases, Bytes,
  IsBytes,
}
use faketunnel.Tunnel.Conn.{Error, Conn, read_full, write, is_probe, probe_of}
use faketunnel.Tunnel.Conn.Writes.{write-prefix, write_whole, write_keeps, write-not-probe}
use faketunnel.Tunnel.Wire.{be32, of_be32, of_byte}
use faketunnel.Tunnel.Frame.{
  version, max_payload_size, header_size, header, Frame, write_frame, read_frame,
}
use faketunnel.Tunnel.Frame.RoundTrip.{frame_bytes}

-- a header that no tunnel client sends
abbrev pub is_bad_header : Bytes → Bool
is_bad_header hdr = not (of_byte hdr == version) || ltb max_payload_size (of_be32 (drop 4 hdr))

-- ReadFrame blames the peer exactly when all of a header arrived and it is a bad one.
pub read_frame-is_probe :
    (c : Conn)
    → probe_of (read_frame c).1
      ≡ (not (ltb (length c.incoming) header_size) && is_bad_header (take header_size c.incoming))
unfolding read_frame read_full is_probe
read_frame-is_probe c = ground arith

eight_bytes :
    (s : Bytes)
    → 8 ≤ length s
    → (v k f r a b c d : ℕ) × (rest : Bytes) × (s ≡ v ∷ k ∷ f ∷ r ∷ a ∷ b ∷ c ∷ d ∷ rest)
eight_bytes (v ∷ k ∷ f ∷ r ∷ a ∷ b ∷ c ∷ d ∷ rest) h = (v, k, f, r, a, b, c, d, rest, refl)
eight_bytes _ h = absurd (omega arith)

read_full_needs :
    (n : ℕ) (c : Conn) {c' : Conn} {b : Bytes} → read_full n c ≡ (c', ok b) → n ≤ length c.incoming
unfolding read_full
read_full_needs n c e = ground arith

-- A frame that ReadFrame returns stood at the front of the stream: version, type, flags, one
-- reserved byte, the payload's length, within the limit, and the payload; the rest is left, and
-- nothing is sent or closed.
pub read_frame_sound :
    (c c' : Conn) (f : Frame)
    → IsBytes c.incoming
    → read_frame c ≡ (c', ok f)
    → (r : ℕ) × (length f.payload ≤ max_payload_size)
      × (c.incoming
          ≡ version
            ∷ f.kind
            ∷ f.flags
            ∷ r
            ∷ (be32 (length f.payload) ++ (f.payload ++ c'.incoming)))
      × (c' ≡ record c { incoming = c'.incoming })
unfolding read_frame read_full
read_frame_sound c c' f b e =
    let long : 8 ≤ length c.incoming = ground arith in
    let (v, k, fl, r, x, y, z, w, rest, split) = eight_bytes c.incoming long in
    let n : ℕ = of_be32 (x ∷ y ∷ z ∷ w ∷ []) in
    let cut = take-append-drop n rest in
    let cut_length = length-take n rest in
    let bytes : IsBytes (v ∷ k ∷ fl ∷ r ∷ x ∷ y ∷ z ∷ w ∷ rest) = rw split at b in
    (r, ground arith, ground arith, ground arith)

abbrev SendsPrefix : ℕ → Bytes → Conn → Type 0
SendsPrefix kind payload c =
    (n : ℕ) × ((write_frame kind payload c).0.sent ≡ c.sent ++ take n (frame_bytes kind payload))

header_refused :
    (kind : ℕ) (payload : Bytes) (c c' : Conn) (e : Error)
    → length payload ≤ max_payload_size
    → write (header kind (length payload)) c ≡ (c', err e)
    → SendsPrefix kind payload c
unfolding write_frame
header_refused kind payload c c' e h w =
    let hdr = header kind (length payload) in
    let (n, cut) = write-prefix hdr c in
    let (m, same) = take-append_front n hdr payload in (m, ground arith)

header_sent :
    (kind : ℕ) (payload : Bytes) (c c' : Conn)
    → length payload ≤ max_payload_size
    → write (header kind (length payload)) c ≡ (c', ok tt)
    → SendsPrefix kind payload c
unfolding write_frame
header_sent kind [] c c' h w =
    let hdr = header kind 0 in (8, ground (arith, write_whole hdr c c' w))
header_sent kind (x ∷ xs) c c' h w =
    let hdr = header kind (length (x ∷ xs)) in
    let (n, cut) = write-prefix (x ∷ xs) c' in
    (
      length hdr + n,
      ground (
        arith,
        write_whole hdr c c' w,
        append-take n hdr (x ∷ xs),
        append_assoc c.sent hdr (take n (x ∷ xs)),
      ),
    )

-- However the connection fails, what WriteFrame has sent is a prefix of the frame.
pub write_frame-prefix :
    (kind : ℕ) (payload : Bytes) (c : Conn)
    → (n : ℕ) × ((write_frame kind payload c).0.sent ≡ c.sent ++ take n (frame_bytes kind payload))
unfolding write_frame
write_frame-prefix kind payload c = elim (Bool-cases (ltb max_payload_size (length payload))) [
  | inl large ↦ (0, rw large (ground (arith, append-nil c.sent)))
  | inr fits ↦
      let w = write (header kind (length payload)) c in
      elim (Result-cases w.1) [
        | inl (u, e) ↦ header_sent kind payload c w.0 (ltb→le _ _ fits) (ap (λ r. (w.0, r)) e)
        | inr (x, e) ↦ header_refused kind payload c w.0 x (ltb→le _ _ fits) (ap (λ r. (w.0, r)) e)
      ]
]

-- All of the frame is sent when WriteFrame reports success.
pub write_frame_whole :
    (kind : ℕ) (payload : Bytes) (c c' : Conn)
    → write_frame kind payload c ≡ (c', ok tt)
    → (length payload ≤ max_payload_size) × (c'.sent ≡ c.sent ++ frame_bytes kind payload)
unfolding write_frame
write_frame_whole kind [] c c' e = ground (arith, write_whole (header kind 0) c c')
write_frame_whole kind (x ∷ xs) c c' e =
    let hdr = header kind (length (x ∷ xs)) in
    let c1 = (write hdr c).0 in
    ground
      (arith, write_whole hdr c c1, write_whole (x ∷ xs) c1 c', append_assoc c.sent hdr (x ∷ xs))

-- Reading sends nothing, uses up no fault and closes nothing.
pub read_frame_keeps :
    (c : Conn)
    → ((read_frame c).0.sent ≡ c.sent)
      × ((read_frame c).0.faults ≡ c.faults)
      × ((read_frame c).0.closed ≡ c.closed)
unfolding read_frame read_full
read_frame_keeps c = ground arith

pub write_frame_keeps :
    (kind : ℕ) (payload : Bytes) (c : Conn)
    → ((write_frame kind payload c).0.incoming ≡ c.incoming)
      × ((write_frame kind payload c).0.closed ≡ c.closed)
unfolding write_frame
write_frame_keeps kind payload c =
    let hdr = header kind (length payload) in
    ground (arith, write_keeps hdr c, write_keeps payload (write hdr c).0)

pub write_frame-not-probe :
    (kind : ℕ) (payload : Bytes) (c : Conn) → probe_of (write_frame kind payload c).1 ≡ false
unfolding write_frame is_probe
write_frame-not-probe kind payload c =
    let hdr = header kind (length payload) in
    ground (arith, write-not-probe hdr c, write-not-probe payload (write hdr c).0)

-- a frame takes at least its header off the wire
pub read_frame_shrinks :
    (c : Conn) {c' : Conn} {f : Frame}
    → read_frame c ≡ (c', ok f)
    → length c'.incoming < length c.incoming
unfolding read_frame read_full
read_frame_shrinks c e = ground (
  arith,
  length-drop 8 c.incoming,
  length-drop (of_be32 (drop 4 (take 8 c.incoming))) (drop 8 c.incoming),
)
