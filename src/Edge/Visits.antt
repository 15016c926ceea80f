-- ===== src/Edge/Visits.antt =====
-- internal/edge/http.go: what becomes of a connection to a public HTTP address, and of a request on
-- it. The TLS library's handshake, PeekClientHello and PeekHTTP come as their results.
use faketunnel.Base.{
  ℕ, Bool, true, false, not, ◌&&◌, ◌||◌, Option, none, some, List, [], ◌∷◌, ◌++◌, reverse, leb,
  ◌==◌, if◌then◌else◌, is_some, length, Bytes, decimal, text, text_eq,
}
use faketunnel.Base.Scan.{has_prefix}
use faketunnel.Config.File.{File, Tunnel, is_empty}
use faketunnel.Config.File.{health_path_or_default}
use faketunnel.Edge.Routes.{HttpListener, lookup_http_tunnel}

-- What the connection shows: the server name of its hello, `none` where PeekClientHello fails; the
-- server name and protocol of the handshake; host and version of its first request.
pub record Visitor : Type 0 where
  pub hello : Option Bytes
  pub handshake : Option (Bytes × Bytes)
  pub head : Option (Bytes × Bool)

-- The state of the server that decides about a session: the semaphore and the Agent's session.
pub record Slots : Type 0 where
  pub capacity : ℕ
  pub in_use : ℕ
  pub has_session : Bool

-- Closed with or without an answer, reset, handed to a tunnel, or served request by request with
-- the server name of its TLS state.
pub data End : Type 0 where
  reset dropped : End
  status : ℕ → End
  spliced : Tunnel → Bool → Bool → End
  requests : Option Bytes → End

abbrev answer : Bool → ℕ → End
answer quiet code = if quiet then dropped else status code

-- spliceHTTP: `opens` is whether OpenData succeeds
unfoldable pub splice_http : Slots → Bool → Tunnel → Bool → Bool → End
splice_http s opens t http2 passthrough =
    let quiet = passthrough || http2 in
    if leb s.capacity s.in_use
    then answer quiet 503
    else if not s.has_session
    then answer quiet 502
    else if not opens
    then answer quiet 502
    else spliced t http2 passthrough

module _ (to_lower : Bytes → Bytes) (l : HttpListener) (s : Slots) (opens : Bool) where
  abbrev pub splice_to : List Bytes → Bool → End
  splice_to hosts http2 = elim (lookup_http_tunnel to_lower l hosts) [
    | none ↦ dropped
    | some t ↦ splice_http s opens t http2 false
  ]

  -- after TLS, or without it: `alpn` is the protocol negotiated
  abbrev pub after_tls : Bytes → Option Bytes → Bytes → Visitor → End
  after_tls sni tls_state alpn v =
      if text_eq alpn (text "h2") then splice_to (sni ∷ []) true else elim (v.head) [
        | none ↦ dropped
        | some (host, http2) ↦
            if http2 then splice_to (host ∷ sni ∷ []) true else requests tls_state
      ]

  abbrev or_else : Bytes → Bytes → Bytes
  or_else name fallback = if is_empty name then fallback else name

  abbrev pub terminate : Bytes → Visitor → End
  terminate sni v = elim (v.handshake) [
    | none ↦ dropped
    | some (name, alpn) ↦ after_tls (or_else name sni) (some name) alpn v
  ]

  abbrev pub with_tls : Visitor → End
  with_tls v = elim (v.hello) [
    | none ↦ dropped
    | some sni ↦ elim (lookup_http_tunnel to_lower l (sni ∷ [])) [
      | none ↦ dropped
      | some t ↦ if t.passthrough then splice_http s opens t false true else terminate sni v
    ]
  ]

  -- `allowed` is what publicAllowed says, `tls` whether the address is TLS
  unfoldable pub handle_http_conn : Bool → Bool → Visitor → End
  handle_http_conn allowed tls v =
      if not allowed
      then (if tls then reset else status 403)
      else if tls
      then with_tls v
      else after_tls [] none [] v

  -- http1Handler: the health path, and then the tunnel of the Host header or the server name
  unfoldable pub http1_handler : File → Option Bytes → Bytes → Bytes → End
  http1_handler c tls_state path host =
      let health = health_path_or_default c in
      let by_host = lookup_http_tunnel to_lower l (host ∷ []) in
      let by_name : Option Tunnel = elim tls_state [
        | none ↦ none
        | some name ↦ lookup_http_tunnel to_lower l (name ∷ [])
      ] in
      if not (is_empty health) && text_eq path health
      then status 200
      else elim (if is_some by_host then by_host else by_name) [
        | none ↦ status 502
        | some t ↦
            if leb s.capacity s.in_use
            then status 503
            else if not s.has_session
            then status 502
            else if opens
            then spliced t false false
            else status 502
      ]

-- the text of http.StatusText for the codes used here
abbrev status_text : ℕ → Bytes
status_text code =
    if code == 403
    then text "Forbidden"
    else if code == 502
    then text "Bad Gateway"
    else if code == 503
    then text "Service Unavailable"
    else []

abbrev pub crlf : Bytes
crlf = 13 ∷ 10 ∷ []

abbrev ends_line : Bytes → Bool
ends_line s = has_prefix (reverse s) (10 ∷ [])

-- writeHTTPStatus
unfoldable pub write_http_status : ℕ → Bytes → Bytes
write_http_status code given =
    let body = if not (is_empty given) && not (ends_line given) then given ++ 10 ∷ [] else given in
    text "HTTP/1.1 "
    ++ decimal code
    ++ 32 ∷ status_text code
    ++ crlf
    ++ text "Content-Type: text/plain; charset=utf-8"
    ++ crlf
    ++ text "Connection: close"
    ++ crlf
    ++ text "Content-Length: "
    ++ decimal (length body)
    ++ crlf
    ++ crlf
    ++ body
