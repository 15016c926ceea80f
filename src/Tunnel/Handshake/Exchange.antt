-- ===== src/Tunnel/Handshake/Exchange.antt =====
-- internal/tunnel/handshake.go: the exchange between an Agent and an Edge.
use faketunnel.Base.{
  ◌+◌, ◌≤◌, ◌≡◌, ap, ◌∙◌, inl, inr, Bool, true, false, [], ◌∷◌, ◌++◌, arith, if◌then◌else◌,
  Bool-cases, length, length-append, ok, err, Bytes, text,
}
use faketunnel.Tunnel.Conn.{unauthorized, auth_rejected, Conn}
use faketunnel.Tunnel.Wire.RoundTrip.{encoded, put_string_lem}
use faketunnel.Tunnel.Frame.{
  max_payload_size, type_auth_request, type_auth_response, write_frame, read_frame,
}
use faketunnel.Tunnel.Frame.RoundTrip.{frame_bytes, write_frame_lem, read_frame_lem}
use faketunnel.Tunnel.Frame.Refusals.{read_frame_keeps}
use faketunnel.Tunnel.Messages.{
  marshal_auth_request, parse_auth_request, marshal_auth_response, flag_byte,
}
use faketunnel.Tunnel.Messages.RoundTrip.{
  marshal_auth_request_lem, parse-marshal_auth_request, parse-marshal_auth_response,
}
use faketunnel.Tunnel.Handshake.{
  write_auth, client_verdict, client_handshake, token_valid, server_handshake,
}

-- the frames of the exchange
abbrev pub request_bytes : Bytes → Bytes → Bytes
request_bytes token id = frame_bytes type_auth_request (encoded token ++ encoded id)

abbrev pub response_bytes : Bool → Bytes → Bytes
response_bytes accepted message =
    frame_bytes type_auth_response (flag_byte accepted ∷ encoded message)

-- the token and the id fit in a frame
abbrev pub FitsFrame : Bytes → Bytes → Type 0
FitsFrame token id = 4 + length token + length id ≤ max_payload_size

length-encoded : (s : Bytes) → length (encoded s) ≡ 2 + length s
length-encoded s = omega arith

write_auth_lem :
    (accepted : Bool) (message : Bytes) (c : Conn)
    → c.faults ≡ []
    → length message ≤ 100
    → write_auth accepted message c
      ≡ (record c { sent = c.sent ++ response_bytes accepted message }, ok tt)
unfolding write_auth marshal_auth_response
write_auth_lem accepted message c f h = ground (
  arith,
  put_string_lem (flag_byte accepted ∷ []) message (omega arith),
  write_frame_lem type_auth_response (flag_byte accepted ∷ encoded message) c f,
)

module _ (sha256 : Bytes → Bytes) (token id : Bytes) (fits : FitsFrame token id) where
  request_read :
      (c : Conn) (rest : Bytes)
      → c.incoming ≡ request_bytes token id ++ rest
      → read_frame c ≡ (
        record c { incoming = rest },
        ok (record { kind = type_auth_request; flags = 0; payload = encoded token ++ encoded id }),
      )
  request_read c rest e =
      read_frame_lem type_auth_request (encoded token ++ encoded id) rest c
        (omega (arith, length-append (encoded token) (encoded id))) e

  request_parsed :
      parse_auth_request (encoded token ++ encoded id)
      ≡ ok (record { token = token; agent_id = id })
  request_parsed = parse-marshal_auth_request _ _ (
      marshal_auth_request_lem (record { token = token; agent_id = id }) (omega arith)
        (omega arith))

  -- the right token
  server_accepts :
      (c : Conn) (want rest : Bytes)
      → c.faults ≡ []
      → c.incoming ≡ request_bytes token id ++ rest
      → token_valid sha256 token want ≡ true
      → server_handshake sha256 want c
        ≡ (record c { incoming = rest; sent = c.sent ++ response_bytes true (text "ok") }, ok id)
  unfolding server_handshake
  server_accepts c want rest f e v = ground (
    arith,
    request_read c rest e,
    request_parsed,
    write_auth_lem true (text "ok") (record c { incoming = rest }) f,
  )

  server_rejects :
      (c : Conn) (want rest : Bytes)
      → c.faults ≡ []
      → c.incoming ≡ request_bytes token id ++ rest
      → token_valid sha256 token want ≡ false
      → server_handshake sha256 want c ≡ (
        record c { incoming = rest; sent = c.sent ++ response_bytes false (text "unauthorized") },
        err unauthorized,
      )
  unfolding server_handshake
  server_rejects c want rest f e v = ground (
    arith,
    request_read c rest e,
    request_parsed,
    write_auth_lem false (text "unauthorized") (record c { incoming = rest }) f,
  )

module _ (token id : Bytes) (fits : FitsFrame token id) (c : Conn) (f : c.faults ≡ []) where
  request_sent :
      write_frame type_auth_request (encoded token ++ encoded id) c
      ≡ (record c { sent = c.sent ++ request_bytes token id }, ok tt)
  request_sent =
      write_frame_lem type_auth_request (encoded token ++ encoded id) c f
        (omega (arith, length-append (encoded token) (encoded id)))

  request_marshalled :
      marshal_auth_request (record { token = token; agent_id = id })
      ≡ ok (encoded token ++ encoded id)
  request_marshalled =
      marshal_auth_request_lem (record { token = token; agent_id = id }) (omega arith) (omega arith)

  client_sends : (client_handshake token id c).0.sent ≡ c.sent ++ request_bytes token id
  unfolding client_handshake
  client_sends = ground (
    arith,
    request_marshalled,
    request_sent,
    read_frame_keeps (record c { sent = c.sent ++ request_bytes token id }),
  )

  client_hears :
      (accepted : Bool) (message rest : Bytes)
      → length message ≤ 100
      → c.incoming ≡ response_bytes accepted message ++ rest
      → client_handshake token id c ≡ (
          (client_verdict
            (record { accepted = accepted; message = message })
            (record c { incoming = rest; sent = c.sent ++ request_bytes token id })))
  unfolding client_handshake marshal_auth_response
  client_hears accepted message rest h e =
      let body = flag_byte accepted ∷ encoded message in
      ground (
        arith,
        request_marshalled,
        request_sent,
        read_frame_lem type_auth_response body rest
            (record c { sent = c.sent ++ request_bytes token id }),
        parse-marshal_auth_response (record { accepted = accepted; message = message }) body
            (put_string_lem (flag_byte accepted ∷ []) message (omega arith)),
      )

-- An Agent and an Edge joined by two streams that lose nothing, with a token and an id that fit
-- in a frame, agree on the outcome: with the right token both succeed and Edge learns the id,
-- with a wrong one both fail and the Agent gets the message; what follows on either stream is
-- left unread.
pub handshake_agrees :
    (sha256 : Bytes → Bytes) (token id want : Bytes) (agent edge : Conn) (early later : Bytes)
    → FitsFrame token id
    → agent.faults ≡ []
    → edge.faults ≡ []
    → agent.sent ≡ []
    → edge.sent ≡ []
    → edge.incoming ≡ (client_handshake token id agent).0.sent ++ early
    → agent.incoming ≡ (server_handshake sha256 want edge).0.sent ++ later
    → ((server_handshake sha256 want edge).1
        ≡ (if token_valid sha256 token want then ok id else err unauthorized))
      × ((client_handshake token id agent).1 ≡ (
          if token_valid sha256 token want
          then ok tt
          else err (auth_rejected (text "unauthorized"))))
      × ((server_handshake sha256 want edge).0.incoming ≡ early)
      × ((client_handshake token id agent).0.incoming ≡ later)
handshake_agrees sha256 token id want agent edge early later fits fa fe sa se ee ea =
    let asked : edge.incoming ≡ request_bytes token id ++ early =
      ee
      ∙ ap (λ s. s ++ early)
          (client_sends token id fits agent fa ∙ ap (λ s. s ++ request_bytes token id) sa) in
    elim (Bool-cases (token_valid sha256 token want)) [
      | inl v ↦
          let served = server_accepts sha256 token id fits edge want early fe asked v in
          ground (
            arith,
            served,
            client_hears token id fits agent fa true (text "ok") later (omega arith),
          )
      | inr v ↦
          let served = server_rejects sha256 token id fits edge want early fe asked v in
          ground (
            arith,
            served,
            client_hears token id fits agent fa false (text "unauthorized") later (omega arith),
          )
    ]
