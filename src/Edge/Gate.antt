-- ===== src/Edge/Gate.antt =====
-- internal/edge/server.go: who is let in, and what a refused connection does to the ban store.
-- `ip_string` is IP.String, `sha256` the digest. The clock and whether the denylist can be written
-- are arguments; the TLS handshake is a library's, and its failure is an argument too.
use faketunnel.Base.{
  ℕ, ◌+◌, ◌%◌, ◌^◌, Bool, true, false, ◌&&◌, ◌||◌, Option, none, some, [], ◌∷◌, ◌==◌, if◌then◌else◌,
  Result, ok, err, Bytes, text,
}
use faketunnel.Net.{Ip, is_nil, ip_equal}
use faketunnel.Acl.Parsing.{AllowList, allow}
use faketunnel.Ban.Store as Bans
use faketunnel.Ban.Methods.{is_pardoned, blocked, observe_invalid, observe_valid, ban_permanent}
use faketunnel.Tunnel.Conn as Tunnel
use faketunnel.Tunnel.Conn.{Conn, is_probe}
use faketunnel.Tunnel.Handshake.{server_handshake}

pub record Server : Type 0 where
  pub acl : AllowList
  pub bans : Bans.Store
  pub agent_ip : Option Ip
  -- metrics: the denials counted, in an atomic.Uint64
  pub denies : ℕ

-- why a connection to the tunnel port failed
pub data Failure : Type 0 where
  tls_probe tls_other : Bytes → Failure
  tunnel_error : Tunnel.Error → Failure

abbrev has_prefix : Bytes → Bytes → Bool
has_prefix [] s = true
has_prefix (c ∷ p) [] = false
has_prefix (c ∷ p) (d ∷ s) = c == d && has_prefix p s

-- strings.Contains
unfoldable pub contains_text : Bytes → Bytes → Bool
contains_text [] p = has_prefix p []
contains_text (c ∷ s) p = has_prefix p (c ∷ s) || contains_text s p

unfoldable pub classify_tls : Bytes → Failure
classify_tls msg =
    if contains_text msg (text "does not look like a TLS handshake")
      || contains_text msg (text "unsupported SSLv2")
    then tls_probe msg
    else tls_other msg

-- `errors.Is(err, tunnel.ErrProbe)`
abbrev pub is_probe_failure : Failure → Bool
is_probe_failure (tls_probe msg) = true
is_probe_failure (tls_other msg) = false
is_probe_failure (tunnel_error e) = is_probe e

-- `errors.Is(err, tunnel.ErrUnauthorized)`
abbrev pub is_unauthorized : Failure → Bool
is_unauthorized (tunnel_error Tunnel.unauthorized) = true
is_unauthorized _ = false

abbrev pub inc_deny : Server → Server
inc_deny s = record s { denies = (s.denies + 1) % 2 ^ 64 }

unfoldable pub remember_agent : Ip → Server → Server
remember_agent ip s = if is_nil ip then s else record s { agent_ip = some ip }

abbrev is_agent : Option Ip → Ip → Bool
is_agent none ip = false
is_agent (some a) ip = ip_equal a ip

unfoldable pub trusted_tunnel_ip : Ip → Server → Bool
trusted_tunnel_ip ip s =
    if is_nil ip then false else if allow ip s.acl then true else is_agent s.agent_ip ip

module _ (ip_string : Ip → Bytes) where
  unfoldable pub is_allowed : Ip → ℕ → Server → Bool
  is_allowed ip now s =
      if is_nil ip then false else if blocked ip_string ip now s.bans then false else allow ip s.acl

  unfoldable pub note_tunnel_invalid : Ip → Failure → ℕ → Bool → Server → Server
  note_tunnel_invalid ip e now writable s =
      let counted = inc_deny s in
      if is_probe_failure e
      then (if is_pardoned ip_string ip s.bans
          then counted
          else if trusted_tunnel_ip ip s
          then counted
          else record counted { bans = ban_permanent ip_string ip writable s.bans })
      else if is_unauthorized e
      then (if trusted_tunnel_ip ip s || is_pardoned ip_string ip s.bans
          then counted
          else record counted {
            bans = observe_invalid ip_string ip (text "auth") now writable s.bans;
          })
      else counted

  unfoldable pub public_allowed : Ip → ℕ → Bool → Server → Server × Bool
  public_allowed ip now writable s =
      if blocked ip_string ip now s.bans
      then (inc_deny s, false)
      else if allow ip s.acl
      then (record s { bans = observe_valid ip_string ip s.bans }, true)
      else if trusted_tunnel_ip ip s
      then (inc_deny s, false)
      else (
        record (inc_deny s) {
          bans = observe_invalid ip_string ip (text "acl") now writable s.bans;
        },
        false,
      )

  module _ (sha256 : Bytes → Bytes) (token : Bytes) where
    -- a peer that authenticates is remembered, and the session starts
    abbrev pub welcome : Ip → ℕ → Bool → Server → Result Tunnel.Error Bytes → Server × Option Bytes
    welcome ip now writable s (err e) =
        (note_tunnel_invalid ip (tunnel_error e) now writable s, none)
    welcome ip now writable s (ok agent_id) =
        (remember_agent ip (record s { bans = observe_valid ip_string ip s.bans }), some agent_id)

    -- `tls` is the message of a failed TLS handshake
    abbrev pub greet : Ip → Option Bytes → Conn → ℕ → Bool → Server → Server × Option Bytes
    greet ip (some msg) conn now writable s =
        (note_tunnel_invalid ip (classify_tls msg) now writable s, none)
    greet ip none conn now writable s =
        welcome ip now writable s (server_handshake sha256 token conn).1

    -- the result is the id of an Agent let in
    unfoldable pub handle_agent :
        Ip → Option Bytes → Conn → ℕ → Bool → Server → Server × Option Bytes
    handle_agent ip tls conn now writable s =
        if blocked ip_string ip now s.bans then (s, none) else greet ip tls conn now writable s
