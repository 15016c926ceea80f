-- ===== src/Tunnel/Frame/RoundTrip.antt =====
-- internal/tunnel/frame.go: what WriteFrame sends and what ReadFrame takes.
use faketunnel.Base.{
  ℕ, ◌%◌, ◌^◌, ◌≤◌, ◌≡◌, refl, [], ◌∷◌, ◌++◌, append_assoc, arith, length, length-append,
  take-length-append, drop-length-append, ok, Bytes,
}
use faketunnel.Tunnel.Conn.{Conn, read_full, write}
use faketunnel.Tunnel.Wire.{be32, of_be32}
use faketunnel.Tunnel.Frame.{max_payload_size, header, write_frame, read_frame}

-- the bytes of one frame
abbrev pub frame_bytes : ℕ → Bytes → Bytes
frame_bytes kind payload = header kind (length payload) ++ payload

read_full_lem :
    (front rest : Bytes) (c : Conn)
    → c.incoming ≡ front ++ rest
    → read_full (length front) c ≡ (record c { incoming = rest }, ok front)
unfolding read_full
read_full_lem front rest c e =
    ground (
      arith,
      length-append front rest,
      take-length-append front rest,
      drop-length-append front rest,
    )

write_lem :
    (b : Bytes) (c : Conn) → c.faults ≡ [] → write b c ≡ (record c { sent = c.sent ++ b }, ok tt)
unfolding write
write_lem b c f = rw (f, write)

-- On a connection that takes every write, WriteFrame sends the frame's bytes and nothing else.
pub write_frame_lem :
    (kind : ℕ) (payload : Bytes) (c : Conn)
    → c.faults ≡ []
    → length payload ≤ max_payload_size
    → write_frame kind payload c ≡ (record c { sent = c.sent ++ frame_bytes kind payload }, ok tt)
unfolding write_frame
write_frame_lem kind [] c f h = ground (arith, write_lem (header kind 0) c f)
write_frame_lem kind (x ∷ xs) c f h =
    let hdr = header kind (length (x ∷ xs)) in
    ground (
      arith,
      write_lem hdr c f,
      write_lem (x ∷ xs) (record c { sent = c.sent ++ hdr }) f,
      append_assoc c.sent hdr (x ∷ xs),
    )

of_be32-be32 : (n : ℕ) → n ≤ max_payload_size → of_be32 (be32 (n % 2 ^ 32)) ≡ n
of_be32-be32 n h = omega arith

pub read_frame_lem :
    (kind : ℕ) (payload rest : Bytes) (c : Conn)
    → length payload ≤ max_payload_size
    → c.incoming ≡ frame_bytes kind payload ++ rest
    → read_frame c
      ≡ (record c { incoming = rest }, ok (record { kind = kind; flags = 0; payload = payload }))
unfolding read_frame
read_frame_lem kind [] rest c h e = ground (arith, read_full_lem (header kind 0) rest c e)
read_frame_lem kind (x ∷ xs) rest c h e = ground (
  arith,
  of_be32-be32 (length (x ∷ xs)),
  read_full_lem (header kind (length (x ∷ xs))) ((x ∷ xs) ++ rest) c e,
  read_full_lem (x ∷ xs) rest (record c { incoming = (x ∷ xs) ++ rest }) refl,
)

-- What WriteFrame sends of a payload within the limit, ReadFrame returns with the same type and
-- payload and no flags, and leaves what follows.
pub read_frame-write_frame :
    (kind : ℕ) (payload rest : Bytes) (w r : Conn)
    → length payload ≤ max_payload_size
    → w.faults ≡ []
    → w.sent ≡ []
    → r.incoming ≡ (write_frame kind payload w).0.sent ++ rest
    → read_frame r
      ≡ (record r { incoming = rest }, ok (record { kind = kind; flags = 0; payload = payload }))
read_frame-write_frame kind payload rest w r h f s e =
    read_frame_lem kind payload rest r h (ground (arith, write_frame_lem kind payload w f h))
