-- ===== src/Tunnel/Frame.antt =====
-- internal/tunnel/frame.go: WriteFrame and ReadFrame.
pub mod RoundTrip
pub mod Refusals
use faketunnel.Base.{ℕ, ◌%◌, ◌-◌, ◌^◌, [], ◌∷◌, Bytes, length, drop, ltb, ◌==◌, not, if◌then◌else◌}
use faketunnel.Tunnel.Conn.{
  payload_too_large, unsupported_version, frame_too_large, M, ◌>>=◌, ◌>>◌, return, fail, read_full,
  write,
}
use faketunnel.Tunnel.Wire.{be32, of_be32, of_byte}

abbrev pub version : ℕ
version = 1

abbrev pub header_size : ℕ
header_size = 8

abbrev pub max_payload_size : ℕ
max_payload_size = 65536

-- The frame types, each its byte on the wire.
abbrev pub type_auth_request : ℕ
type_auth_request = 1

abbrev pub type_auth_response : ℕ
type_auth_response = 2

abbrev pub type_open_stream : ℕ
type_open_stream = 3

abbrev pub type_open_stream_ack : ℕ
type_open_stream_ack = 4

abbrev pub type_close_stream : ℕ
type_close_stream = 5

abbrev pub type_ping : ℕ
type_ping = 6

abbrev pub type_pong : ℕ
type_pong = 7

abbrev pub type_config_push : ℕ
type_config_push = 8

abbrev pub type_open_assoc : ℕ
type_open_assoc = 9

abbrev pub type_open_assoc_ack : ℕ
type_open_assoc_ack = 10

abbrev pub type_datagram : ℕ
type_datagram = 11

abbrev pub type_close_assoc : ℕ
type_close_assoc = 12

abbrev pub assoc_id_size : ℕ
assoc_id_size = 4

abbrev pub max_datagram_payload : ℕ
max_datagram_payload = max_payload_size - assoc_id_size

abbrev pub proto_tcp : ℕ
proto_tcp = 1

abbrev pub proto_http : ℕ
proto_http = 2

abbrev pub proto_udp : ℕ
proto_udp = 3

pub record Frame : Type 0 where
  pub kind : ℕ
  pub flags : ℕ
  pub payload : Bytes

-- the eight header bytes of WriteFrame; `uint32(len(payload))` wraps
abbrev pub header : ℕ → ℕ → Bytes
header kind n = version ∷ kind ∷ 0 ∷ 0 ∷ be32 (n % 2 ^ 32)

unfoldable pub write_frame : ℕ → Bytes → M (Unit {0})
write_frame kind payload =
    if ltb max_payload_size (length payload) then fail (payload_too_large (length payload)) else do
      write (header kind (length payload))
      if length payload == 0 then return tt else write payload

-- what follows a header that was accepted
read_payload : Bytes → ℕ → M Frame
read_payload hdr n =
    let kind = of_byte (drop 1 hdr) in
    let flags = of_byte (drop 2 hdr) in
    if n == 0
    then return (record { kind = kind; flags = flags; payload = [] })
    else do body ← read_full n; return (record { kind = kind; flags = flags; payload = body })

unfoldable pub read_frame : M Frame
unfolding read_payload
read_frame = do
  hdr ← read_full header_size
  let n = of_be32 (drop 4 hdr)
  if not (of_byte hdr == version)
      then fail (unsupported_version (of_byte hdr))
      else if ltb max_payload_size n
      then fail (frame_too_large n)
      else read_payload hdr n
