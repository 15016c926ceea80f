-- ===== src/Tunnel/Messages.antt =====
-- internal/tunnel/frame.go: the messages that frames carry, with Marshal and Parse of each.
pub mod RoundTrip
use faketunnel.Base.{
  ℕ, Bool, [], ◌∷◌, ◌++◌, Bytes, Result, ok, err, ◌>>=◌, ◌>>◌, reject_if, length, drop, ltb, ◌==◌,
  not, if◌then◌else◌,
}
use faketunnel.Tunnel.Conn.{
  Error, trailing_bytes, truncated_auth_response, truncated_open, truncated_ack,
  truncated_assoc_ack, datagram_too_large,
}
use faketunnel.Tunnel.Wire.{put_string, get_string, put_u32, get_u32, put_u64, get_u64, of_byte}
use faketunnel.Tunnel.Frame.{max_datagram_payload}

-- `len(rest) != 0`
abbrev trailing : Bytes → Bool
trailing rest = not (length rest == 0)

abbrev pub flag_byte : Bool → ℕ
flag_byte b = if b then 1 else 0

pub record AuthRequest : Type 0 where
  pub token : Bytes
  pub agent_id : Bytes

unfoldable pub marshal_auth_request : AuthRequest → Result Error Bytes
marshal_auth_request a = do buf ← put_string [] a.token; put_string buf a.agent_id

unfoldable pub parse_auth_request : Bytes → Result Error AuthRequest
parse_auth_request p = do
  (token, rest) ← get_string p
  (agent_id, rest') ← get_string rest
  reject_if (trailing rest') trailing_bytes
  ok (record { token = token; agent_id = agent_id })

pub record AuthResponse : Type 0 where
  pub accepted : Bool
  pub message : Bytes

unfoldable pub marshal_auth_response : AuthResponse → Result Error Bytes
marshal_auth_response a = put_string (flag_byte a.accepted ∷ []) a.message

unfoldable pub parse_auth_response : Bytes → Result Error AuthResponse
parse_auth_response p = do
  reject_if (ltb (length p) 1) truncated_auth_response
  (message, rest) ← get_string (drop 1 p)
  reject_if (trailing rest) trailing_bytes
  ok (record { accepted = of_byte p == 1; message = message })

pub record OpenMeta : Type 0 where
  pub name : Bytes
  pub local : Bytes
  pub client_addr : Bytes
  pub proto : ℕ

unfoldable pub marshal_open_meta : OpenMeta → Result Error Bytes
marshal_open_meta o = do
  buf ← put_string (o.proto ∷ []) o.name
  buf' ← put_string buf o.local
  put_string buf' o.client_addr

unfoldable pub parse_open_meta : Bytes → Result Error OpenMeta
parse_open_meta p = do
  reject_if (ltb (length p) 1) truncated_open
  (name, rest) ← get_string (drop 1 p)
  (local, rest') ← get_string rest
  (client, rest'') ← get_string rest'
  reject_if (trailing rest'') trailing_bytes
  ok (record { name = name; local = local; client_addr = client; proto = of_byte p })

pub record OpenAck : Type 0 where
  pub accepted : Bool
  pub message : Bytes

unfoldable pub marshal_open_ack : OpenAck → Result Error Bytes
marshal_open_ack a = put_string (flag_byte a.accepted ∷ []) a.message

unfoldable pub parse_open_ack : Bytes → Result Error OpenAck
parse_open_ack p = do
  reject_if (ltb (length p) 1) truncated_ack
  (message, rest) ← get_string (drop 1 p)
  reject_if (trailing rest) trailing_bytes
  ok (record { accepted = of_byte p == 1; message = message })

-- `uint64(nsec)`; an int64 is its 64-bit pattern
unfoldable pub ping_payload : ℕ → Bytes
ping_payload nsec = put_u64 nsec

unfoldable pub parse_ping : Bytes → Result Error ℕ
parse_ping p = get_u64 p

pub record OpenAssoc : Type 0 where
  pub id : ℕ
  pub client_addr : Bytes

unfoldable pub marshal_open_assoc : OpenAssoc → Result Error Bytes
marshal_open_assoc o = put_string (put_u32 o.id) o.client_addr

unfoldable pub parse_open_assoc : Bytes → Result Error OpenAssoc
parse_open_assoc p = do
  (id, rest) ← get_u32 p
  (client, rest') ← get_string rest
  reject_if (trailing rest') trailing_bytes
  ok (record { id = id; client_addr = client })

pub record OpenAssocAck : Type 0 where
  pub id : ℕ
  pub accepted : Bool
  pub message : Bytes

unfoldable pub marshal_open_assoc_ack : OpenAssocAck → Result Error Bytes
marshal_open_assoc_ack a = put_string (put_u32 a.id ++ flag_byte a.accepted ∷ []) a.message

unfoldable pub parse_open_assoc_ack : Bytes → Result Error OpenAssocAck
parse_open_assoc_ack p = do
  (id, rest) ← get_u32 p
  reject_if (ltb (length rest) 1) truncated_assoc_ack
  (message, rest') ← get_string (drop 1 rest)
  reject_if (trailing rest') trailing_bytes
  ok (record { id = id; accepted = of_byte rest == 1; message = message })

pub record Datagram : Type 0 where
  pub id : ℕ
  pub payload : Bytes

unfoldable pub marshal_datagram : Datagram → Result Error Bytes
marshal_datagram d =
    if ltb max_datagram_payload (length d.payload)
    then err (datagram_too_large (length d.payload))
    else ok (put_u32 d.id ++ d.payload)

unfoldable pub parse_datagram : Bytes → Result Error Datagram
parse_datagram p = do (id, rest) ← get_u32 p; ok (record { id = id; payload = rest })

pub record CloseAssoc : Type 0 where
  pub id : ℕ

unfoldable pub marshal_close_assoc : CloseAssoc → Result Error Bytes
marshal_close_assoc c = ok (put_u32 c.id)

unfoldable pub parse_close_assoc : Bytes → Result Error CloseAssoc
parse_close_assoc p = do
  (id, rest) ← get_u32 p
  reject_if (trailing rest) trailing_bytes
  ok (record { id = id })
