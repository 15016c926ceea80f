-- ===== src/Tunnel/Handshake.antt =====
-- internal/tunnel/handshake.go. SHA-256 is a parameter; the deadlines are not modelled (see Conn).
pub mod Exchange
pub mod Sound
use faketunnel.Base.{
  ℕ, zero, suc, ◌+◌, ◌-◌, ◌*◌, ◌/◌, ◌%◌, ◌^◌, ◌≤◌, ◌<◌, ◌≡◌, refl, sym, ap, ◌∙◌, ◌≢◌, ◌↔◌, ◌⊎◌, inl,
  inr, Bool, true, false, not, ◌&&◌, ◌||◌, Option, none, some, List, [], ◌∷◌, ◌++◌, map, append-nil,
  append_assoc, arith, ltb, leb, ◌==◌, if◌then◌else◌, ltb→lt, ltb→le, lt→ltb, le→ltb, ==_iff,
  Bool-cases, Option-cases, length, take, drop, length-append, take-append-drop, length-take,
  length-drop, take-length-append, drop-length-append, All, All-append, All-take, All-drop,
  All-append_right, take-length, take-append_front, append-take, Result, ok, err, Result-cases,
  Bytes, IsBytes, text, text_eq, text_eq_iff, text_eq_refl,
}
use faketunnel.Tunnel.Conn.{
  Error, expected_auth_request, unauthorized, auth_refused, expected_auth_response, auth_rejected,
  read_auth, read_auth_response, M, ◌>>=◌, ◌>>◌, return, fail, lift, ignore, wrap,
}
use faketunnel.Tunnel.Frame.{Frame, type_auth_request, type_auth_response, write_frame, read_frame}
use faketunnel.Tunnel.Messages.{
  AuthRequest, marshal_auth_request, parse_auth_request, AuthResponse, marshal_auth_response,
  parse_auth_response,
}

unfoldable pub write_auth : Bool → Bytes → M (Unit {0})
write_auth accepted message = do
  payload ← lift (marshal_auth_response (record { accepted = accepted; message = message }))
  write_frame type_auth_response payload

-- `_ = writeAuth(conn, false, "unauthorized")`
abbrev pub refuse : M (Unit {0})
refuse = ignore (write_auth false (text "unauthorized"))

abbrev pub client_verdict : AuthResponse → M (Unit {0})
client_verdict resp =
    if not resp.accepted
    then if length resp.message == 0 then fail auth_refused else fail (auth_rejected resp.message)
    else return tt

unfoldable pub client_handshake : Bytes → Bytes → M (Unit {0})
client_handshake token agent_id = do
  payload ← lift (marshal_auth_request (record { token = token; agent_id = agent_id }))
  write_frame type_auth_request payload
  fr ← wrap read_auth_response read_frame
  if not (fr.kind == type_auth_response)
      then fail (expected_auth_response fr.kind)
      else do resp ← lift (parse_auth_response fr.payload); client_verdict resp

module _ (sha256 : Bytes → Bytes) where
  -- subtle.ConstantTimeCompare is 1 exactly on equal digests
  unfoldable pub token_valid : Bytes → Bytes → Bool
  token_valid got want = text_eq (sha256 got) (sha256 want)

  pub check_request : Bytes → Result Error AuthRequest → M Bytes
  check_request token (err e) = refuse >> fail e
  check_request token (ok req) =
      if not (token_valid req.token token)
      then refuse >> fail unauthorized
      else write_auth true (text "ok") >> return req.agent_id

  unfoldable pub server_handshake : Bytes → M Bytes
  unfolding check_request
  server_handshake token = do
    fr ← wrap read_auth read_frame
    if not (fr.kind == type_auth_request)
        then refuse >> fail (expected_auth_request fr.kind)
        else check_request token (parse_auth_request fr.payload)
