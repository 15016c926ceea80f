-- ===== src/Tunnel/Session/Streams.antt =====
-- internal/tunnel/session.go: opening a data stream from Edge and accepting it on the Agent.
use faketunnel.Base.{
  ◌≤◌, ◌≡◌, inl, inr, Bool, true, false, some, [], ◌∷◌, ◌++◌, arith, ◌==◌, if◌then◌else◌, length,
  Result, ok, err, Result-cases, Bytes,
}
use faketunnel.Tunnel.Conn.{Error, Conn, stream_rejected, stream_refused}
use faketunnel.Tunnel.Wire.RoundTrip.{encoded, put_string_lem}
use faketunnel.Tunnel.Frame.{max_payload_size, type_open_stream, type_open_stream_ack, write_frame}
use faketunnel.Tunnel.Frame.RoundTrip.{frame_bytes, write_frame_lem, read_frame_lem}
use faketunnel.Tunnel.Frame.Refusals.{read_frame_keeps, write_frame_keeps}
use faketunnel.Tunnel.Messages.{OpenMeta, marshal_open_meta, marshal_open_ack, flag_byte}
use faketunnel.Tunnel.Messages.RoundTrip.{parse-marshal_open_meta, parse-marshal_open_ack}
use faketunnel.Tunnel.Session.{request_stream, open_data, accept_data, ack_data}

abbrev pub is_err : Result Error (Unit {0}) → Bool
is_err (ok a) = false
is_err (err e) = true

request_stream_keeps : (meta : OpenMeta) (c : Conn) → (request_stream meta c).0.closed ≡ c.closed
unfolding request_stream
request_stream_keeps meta c = elim (Result-cases (marshal_open_meta meta)) [
  | inl (p, e) ↦
      let c1 = (write_frame type_open_stream p c).0 in
      ground (arith, write_frame_keeps type_open_stream p c, read_frame_keeps c1)
  | inr (x, e) ↦ ground arith
]

-- OpenData returns the stream open exactly when it reports success.
pub open_data_closes :
    (stream : Conn) (meta : OpenMeta)
    → stream.closed ≡ false
    → (c : Conn) × ((open_data (ok stream) meta).0 ≡ some c)
      × (c.closed ≡ is_err (open_data (ok stream) meta).1)
unfolding open_data
open_data_closes stream meta h = elim (Result-cases (request_stream meta stream).1) [
  | inl (u, e) ↦ (
    (request_stream meta stream).0,
    ground arith,
    ground (arith, request_stream_keeps meta stream),
  )
  | inr (x, e) ↦
      (record (request_stream meta stream).0 { closed = true }, ground arith, ground arith)
]

module _ (meta : OpenMeta) (p : Bytes) (e : marshal_open_meta meta ≡ ok p)
    (fits : length p ≤ max_payload_size) where
  meta_sent :
      (c : Conn)
      → c.faults ≡ []
      → (request_stream meta c).0.sent ≡ c.sent ++ frame_bytes type_open_stream p
  unfolding request_stream
  meta_sent c f = ground (
    arith,
    write_frame_lem type_open_stream p c f fits,
    read_frame_keeps (record c { sent = c.sent ++ frame_bytes type_open_stream p }),
  )

  meta_received :
      (c : Conn) (rest : Bytes)
      → c.incoming ≡ frame_bytes type_open_stream p ++ rest
      → accept_data (ok c) ≡ (some (record c { incoming = rest }), ok meta)
  unfolding accept_data
  meta_received c rest h =
      ground
        (arith, read_frame_lem type_open_stream p rest c fits h, parse-marshal_open_meta meta p e)

  answer_heard :
      (c : Conn) (accepted : Bool) (message rest : Bytes)
      → c.faults ≡ []
      → length message ≤ 65533
      → c.incoming ≡ frame_bytes type_open_stream_ack (flag_byte accepted ∷ encoded message) ++ rest
      → (open_data (ok c) meta).1 ≡ (
          if accepted
          then ok tt
          else if length message == 0
          then err stream_refused
          else err (stream_rejected message))
  unfolding open_data marshal_open_ack
  answer_heard c accepted message rest f h i =
      let body = flag_byte accepted ∷ encoded message in
      ground (
        arith,
        write_frame_lem type_open_stream p c f fits,
        read_frame_lem type_open_stream_ack body rest
            (record c { sent = c.sent ++ frame_bytes type_open_stream p }),
        parse-marshal_open_ack (record { accepted = accepted; message = message }) body
            (put_string_lem (flag_byte accepted ∷ []) message (omega arith)),
      )

ack_sent :
    (accepted : Bool) (message : Bytes) (c : Conn)
    → c.faults ≡ []
    → length message ≤ 65533
    → ack_data accepted message c ≡ (
      record c {
        sent = c.sent ++ frame_bytes type_open_stream_ack (flag_byte accepted ∷ encoded message);
      },
      ok tt,
    )
unfolding ack_data marshal_open_ack
ack_sent accepted message c f h = ground (
  arith,
  put_string_lem (flag_byte accepted ∷ []) message (omega arith),
  write_frame_lem type_open_stream_ack (flag_byte accepted ∷ encoded message) c f,
)

-- A data stream that loses nothing carries Edge's OpenMeta, if it fits in a frame, to the Agent
-- unchanged and the Agent's answer back, if its message has at most 65533 bytes: OpenData
-- succeeds when the Agent accepts and fails with the Agent's message when it does not.
pub open_data-accept_data :
    (meta : OpenMeta) (p : Bytes) (edge agent : Conn) (accepted : Bool) (message rest later : Bytes)
    → marshal_open_meta meta ≡ ok p
    → length p ≤ max_payload_size
    → length message ≤ 65533
    → edge.faults ≡ []
    → agent.faults ≡ []
    → edge.sent ≡ []
    → agent.sent ≡ []
    → agent.incoming ≡ (request_stream meta edge).0.sent ++ rest
    → edge.incoming ≡ (ack_data accepted message (record agent { incoming = rest })).0.sent ++ later
    → (accept_data (ok agent) ≡ (some (record agent { incoming = rest }), ok meta))
      × ((open_data (ok edge) meta).1 ≡ (
          if accepted
          then ok tt
          else if length message == 0
          then err stream_refused
          else err (stream_rejected message)))
open_data-accept_data meta p edge agent accepted message rest later e fits short fe fa se sa i j = (
  meta_received meta p e fits agent rest (ground (arith, meta_sent meta p e fits edge fe)),
  answer_heard meta p e fits edge accepted message later fe short
      (ground (arith, ack_sent accepted message (record agent { incoming = rest }) fa short)),
)
