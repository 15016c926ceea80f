-- ===== src/Tunnel/Session.antt =====
-- internal/tunnel/session.go: opening and accepting a data stream, and the ping service. The
-- streams that the yamux multiplexer hands out are parameters: a connection, or its error.
pub mod Streams
pub mod Pings
use faketunnel.Base.{
  ℕ, zero, suc, ◌+◌, ◌-◌, ◌*◌, ◌/◌, ◌%◌, ◌^◌, ◌≤◌, ◌<◌, ◌≡◌, refl, sym, ap, ◌∙◌, ◌≢◌, ◌↔◌, ◌⊎◌, inl,
  inr, Bool, true, false, not, ◌&&◌, ◌||◌, Option, none, some, List, [], ◌∷◌, ◌++◌, map, append-nil,
  append_assoc, arith, ltb, leb, ◌==◌, if◌then◌else◌, ltb→lt, ltb→le, lt→ltb, le→ltb, ==_iff,
  Bool-cases, Option-cases, length, take, drop, length-append, take-append-drop, length-take,
  length-drop, take-length-append, drop-length-append, All, All-append, All-take, All-drop,
  All-append_right, All-append_left, take-length, take-append_front, append-take, Result, ok, err,
  Result-cases, Bytes, IsBytes, text, text_eq, text_eq_iff, text_eq_refl,
}
use faketunnel.Tunnel.Conn.{
  Error, read_open_ack, expected_open_stream_ack, expected_open_stream, expected_pong,
  stream_rejected, stream_refused, Conn, M, ◌>>=◌, ◌>>◌, return, fail, lift, wrap,
}
use faketunnel.Tunnel.Frame.{
  Frame, type_open_stream, type_open_stream_ack, type_ping, type_pong, write_frame, read_frame,
}
use faketunnel.Tunnel.Messages.{
  OpenMeta, marshal_open_meta, parse_open_meta, OpenAck, marshal_open_ack, parse_open_ack,
  ping_payload,
}

-- `defer func() { if !ok { stream.Close() } }()`
abbrev pub close_on_error : {A : Type 0} → M A → M A
close_on_error m c = elim (m c).1 [
  | ok a ↦ ((m c).0, ok a)
  | err e ↦ (record (m c).0 { closed = true }, err e)
]

abbrev pub open_verdict : OpenAck → M (Unit {0})
open_verdict ack =
    if not ack.accepted
    then if length ack.message == 0 then fail stream_refused else fail (stream_rejected ack.message)
    else return tt

-- the body of OpenData on the opened stream
pub request_stream : OpenMeta → M (Unit {0})
request_stream meta = do
  payload ← lift (marshal_open_meta meta)
  write_frame type_open_stream payload
  fr ← wrap read_open_ack read_frame
  if not (fr.kind == type_open_stream_ack)
      then fail (expected_open_stream_ack fr.kind)
      else do ack ← lift (parse_open_ack fr.payload); open_verdict ack

-- the stream is returned beside the result, since an error leaves it closed
unfoldable pub open_data : Result Error Conn → OpenMeta → Option Conn × Result Error (Unit {0})
unfolding request_stream
open_data (err e) meta = (none, err e)
open_data (ok stream) meta =
    let done = close_on_error (request_stream meta) stream in (some done.0, done.1)

pub receive_meta : M OpenMeta
receive_meta = do
  fr ← read_frame
  if not (fr.kind == type_open_stream)
      then fail (expected_open_stream fr.kind)
      else lift (parse_open_meta fr.payload)

unfoldable pub accept_data : Result Error Conn → Option Conn × Result Error OpenMeta
unfolding receive_meta
accept_data (err e) = (none, err e)
accept_data (ok stream) = let done = close_on_error receive_meta stream in (some done.0, done.1)

unfoldable pub ack_data : Bool → Bytes → M (Unit {0})
ack_data accepted message = do
  payload ← lift (marshal_open_ack (record { accepted = accepted; message = message }))
  write_frame type_open_stream_ack payload

-- One round of ServePong's loop; the loop ends with the first error.
unfoldable pub pong_round : M (Unit {0})
pong_round = do
  fr ← read_frame
  if not (fr.kind == type_ping) then return tt else write_frame type_pong fr.payload

-- The loop on fuel, with `defer stream.Close()`; `none` is no Go value, it means that the fuel
-- ran out.
unfoldable pub serve_pong : ℕ → Conn → Conn × Option Error
serve_pong zero c = (c, none)
serve_pong (suc fuel) c =
    let round = pong_round c in
    elim round.1 [
      | ok _ ↦ serve_pong fuel round.0
      | err e ↦ (record round.0 { closed = true }, some e)
    ]

-- sendPingWaitPong; the observer's round-trip time is taken from the clock and is left out
unfoldable pub send_ping_wait_pong : ℕ → M (Unit {0})
send_ping_wait_pong nsec = do
  write_frame type_ping (ping_payload nsec)
  fr ← read_frame
  if not (fr.kind == type_pong) then fail (expected_pong fr.kind) else return tt
