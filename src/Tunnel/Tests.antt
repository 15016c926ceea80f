-- ===== src/Tunnel/Tests.antt =====
-- Runs of internal/tunnel at concrete inputs.
use faketunnel.Base.{
  ℕ, ◌≡◌, refl, true, false, some, List, [], ◌∷◌, ◌++◌, arith, if◌then◌else◌, length, ok, err,
  Bytes, text, text_eq,
}
use faketunnel.Tunnel.Conn.{
  Conn, unauthorized, auth_rejected, probe_of, stream_rejected, read_full, write,
}
use faketunnel.Tunnel.Wire.{be32, put_string, get_string}
use faketunnel.Tunnel.Wire.RoundTrip.{encoded}
use faketunnel.Tunnel.Frame.{
  version, type_auth_request, type_ping, write_frame, read_frame, type_open_stream_ack,
}
use faketunnel.Tunnel.Frame.RoundTrip.{frame_bytes, read_frame-write_frame}
use faketunnel.Tunnel.Messages.{
  AuthRequest, marshal_auth_request, parse_auth_request, OpenMeta, marshal_open_meta,
  marshal_open_ack, marshal_auth_response, parse_auth_response,
}
use faketunnel.Tunnel.Handshake.{client_handshake, server_handshake, token_valid, write_auth}
use faketunnel.Tunnel.Handshake.Exchange.{handshake_agrees, response_bytes}
use faketunnel.Tunnel.Handshake.Sound.{server_handshake_sound, server_handshake-is_probe}
use faketunnel.Tunnel.Session.{request_stream, open_data, accept_data, ack_data}
use faketunnel.Tunnel.Session.Streams.{open_data-accept_data}

abbrev conn_of : Bytes → Conn
conn_of b = record { incoming = b; sent = []; faults = []; closed = false }

abbrev idle : Conn
idle = conn_of []

-- a digest that no two texts share
abbrev identity : Bytes → Bytes
identity b = b

abbrev request : Bytes
request = 1 ∷ 1 ∷ 0 ∷ 0 ∷ 0 ∷ 0 ∷ 0 ∷ 7 ∷ 0 ∷ 1 ∷ b't' ∷ 0 ∷ 2 ∷ b'a' ∷ b'1' ∷ []

client_bytes : (client_handshake (text "t") (text "a1") idle).0.sent ≡ request
unfolding client_handshake marshal_auth_request put_string write_frame write read_frame read_full
client_bytes = refl

abbrev refusal : Bytes
refusal = response_bytes false (text "unauthorized")

abbrev acceptance : Bytes
acceptance = response_bytes true (text "ok")

edge_bytes :
    server_handshake identity (text "t") (conn_of request)
    ≡ (record (conn_of []) { sent = acceptance }, ok (text "a1"))
unfolding server_handshake read_frame read_full parse_auth_request get_string token_valid text_eq
    write_auth marshal_auth_response put_string write_frame write
edge_bytes = refl

edge_refusal : (server_handshake identity (text "x") (conn_of request)).0.sent ≡ refusal
unfolding server_handshake read_frame read_full parse_auth_request get_string token_valid text_eq
    write_auth marshal_auth_response put_string write_frame write
edge_refusal = refl

handshake_agrees_example :
    ((server_handshake identity (text "x") (conn_of request)).1
      ≡ (if token_valid identity (text "t") (text "x") then ok (text "a1") else err unauthorized))
    × ((client_handshake (text "t") (text "a1") (conn_of refusal)).1 ≡ (
        if token_valid identity (text "t") (text "x")
        then ok tt
        else err (auth_rejected (text "unauthorized"))))
    × ((server_handshake identity (text "x") (conn_of request)).0.incoming ≡ [])
    × ((client_handshake (text "t") (text "a1") (conn_of refusal)).0.incoming ≡ [])
unfolding client_handshake marshal_auth_request put_string write_frame write read_frame read_full
    server_handshake parse_auth_request get_string token_valid text_eq write_auth
    marshal_auth_response parse_auth_response
handshake_agrees_example =
    handshake_agrees identity (text "t") (text "a1") (text "x") (conn_of refusal) (conn_of request)
      [] [] (omega arith) refl refl refl refl refl refl

server_handshake_sound_example :
    (flags r : ℕ) × (payload : Bytes) × (request
      ≡ version ∷ type_auth_request ∷ flags ∷ r ∷ (be32 (length payload) ++ (payload ++ [])))
    × (payload ≡ encoded (text "t") ++ encoded (text "a1"))
    × (acceptance ≡ [] ++ acceptance)
server_handshake_sound_example =
    server_handshake_sound identity (text "t") (conn_of request)
      (record (conn_of []) { sent = acceptance }) (text "a1") (λ other e. e) (omega arith)
      edge_bytes

server_handshake-is_probe_example :
    probe_of (server_handshake identity (text "t") (conn_of (text "GET / HTTP/1.1"))).1 ≡ true
unfolding read_frame read_full
server_handshake-is_probe_example =
    server_handshake-is_probe identity (text "t") (conn_of (text "GET / HTTP/1.1"))

first_frame_read : read_frame (conn_of (request ++ 9 ∷ [])) ≡ (
  conn_of (9 ∷ []),
  ok (record { kind = 1; flags = 0; payload = encoded (text "t") ++ encoded (text "a1") }),
)
unfolding read_frame read_full
first_frame_read = refl

read_frame-write_frame_example :
    read_frame (conn_of ((write_frame 6 (1 ∷ 2 ∷ []) idle).0.sent ++ 9 ∷ []))
    ≡ (conn_of (9 ∷ []), ok (record { kind = 6; flags = 0; payload = 1 ∷ 2 ∷ [] }))
read_frame-write_frame_example =
    read_frame-write_frame 6 (1 ∷ 2 ∷ []) (9 ∷ []) idle
      (conn_of ((write_frame 6 (1 ∷ 2 ∷ []) idle).0.sent ++ 9 ∷ [])) (omega arith) refl refl refl

abbrev ann : AuthRequest
ann = record { token = text "t"; agent_id = text "a1" }

abbrev web : OpenMeta
web = record {
  name = text "web";
  local = text "127.0.0.1:80";
  client_addr = text "1.2.3.4:5";
  proto = 2;
}

abbrev web_payload : Bytes
web_payload =
    2 ∷ (encoded (text "web") ++ (encoded (text "127.0.0.1:80") ++ encoded (text "1.2.3.4:5")))

web_marshalled : marshal_open_meta web ≡ ok web_payload
unfolding marshal_open_meta put_string
web_marshalled = refl

abbrev no_answer : Bytes
no_answer = frame_bytes type_open_stream_ack (0 ∷ encoded (text "no"))

open_data-accept_data_example :
    (accept_data (ok (conn_of ((request_stream web (conn_of no_answer)).0.sent ++ [])))
      ≡ (some (conn_of []), ok web))
    × ((open_data (ok (conn_of no_answer)) web).1 ≡ err (stream_rejected (text "no")))
unfolding ack_data marshal_open_ack put_string write_frame write
open_data-accept_data_example =
    open_data-accept_data web web_payload (conn_of no_answer)
      (conn_of ((request_stream web (conn_of no_answer)).0.sent ++ [])) false (text "no") [] []
      web_marshalled (omega arith) (omega arith) refl refl refl refl refl refl

abbrev frames : List (ℕ × Bytes)
frames = (type_ping, 1 ∷ 2 ∷ []) ∷ (5, 3 ∷ []) ∷ (type_ping, 4 ∷ []) ∷ []
