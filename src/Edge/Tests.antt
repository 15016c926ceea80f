-- ===== src/Edge/Tests.antt =====
-- Runs of internal/edge at concrete inputs.
use faketunnel.Base.{◌≡◌, refl, true, false, none, [], ◌∷◌, Bytes, text, text_eq}
use faketunnel.Base.Maps.{contains, lookup}
use faketunnel.Net.{Ip, net_contains, is_unspecified, shortest, to4}
use faketunnel.Acl.Parsing.{allow, any_net}
use faketunnel.Ban.Store as Bans
use faketunnel.Ban.Store.{
  fresh, ban_record, invalid_limit, temp_duration, kind_locked, blocked_locked, permanent,
  observe_valid_locked,
}
use faketunnel.Ban.Methods.{ip_key, kind, blocked, is_pardoned}
use faketunnel.Tunnel.Conn.{Conn, read_full, is_probe}
use faketunnel.Tunnel.Frame.{read_frame}
use faketunnel.Tunnel.Handshake.{server_handshake}
use faketunnel.Edge.Gate.{
  Server, trusted_tunnel_ip, is_allowed, public_allowed, handle_agent, contains_text, classify_tls,
  tls_probe,
}
use faketunnel.Edge.Trust.{agent, visitor, on_events}
use faketunnel.Edge.Protection.{allowlisted_stays_unblocked, permanent_kept_out, probe_is_banned}

-- stand-ins: an address prints as itself, and a text is its own digest
abbrev as_text : Bytes → Bytes
as_text b = b

abbrev home : Ip
home = 10 ∷ 0 ∷ 0 ∷ 7 ∷ []

abbrev scanner : Ip
scanner = 6 ∷ 6 ∷ 6 ∷ 6 ∷ []

abbrev token : Bytes
token = text "t"

abbrev no_bans : Bans.Store
no_bans = record {
  path = [];
  ttl = temp_duration;
  limit = invalid_limit;
  by_ip = [];
  pardoned = [];
  hooks = 1;
  notices = 0;
  file = none;
}

abbrev server : Server
server = record {
  acl = record {
    entries = text "10.0.0.7" ∷ [];
    nets = record { address = home; ones = 32; bits = 32 } ∷ [];
  };
  bans = no_bans;
  agent_ip = none;
  denies = 0;
}

-- a server that has banned the scanner
abbrev wary : Server
wary = record server { bans = record no_bans { by_ip = (scanner, ban_record fresh) ∷ [] } }

abbrev sending : Bytes → Conn
sending b = record { incoming = b; sent = []; faults = []; closed = false }

-- "GET / HT", whose first byte is no version
abbrev http : Conn
http = sending (71 ∷ 69 ∷ 84 ∷ 32 ∷ 47 ∷ 32 ∷ 72 ∷ 84 ∷ [])

-- an AuthRequest with the token "t" and the id "a"
abbrev request : Conn
request = sending (1 ∷ 1 ∷ 0 ∷ 0 ∷ 0 ∷ 0 ∷ 0 ∷ 6 ∷ 0 ∷ 1 ∷ 116 ∷ 0 ∷ 1 ∷ 97 ∷ [])

scanner_without_tls :
    classify_tls (text "tls: first record does not look like a TLS handshake")
    ≡ tls_probe (text "tls: first record does not look like a TLS handshake")
unfolding classify_tls contains_text
scanner_without_tls = refl

allowlisted_stays_unblocked_example :
    blocked as_text home 9
      (on_events as_text as_text token
        (agent home none http 1 true ∷ visitor scanner 2 true ∷ agent scanner none http 3 true ∷ [])
        server).bans
    ≡ false
allowlisted_stays_unblocked_example =
    allowlisted_stays_unblocked as_text as_text token
      (agent home none http 1 true ∷ visitor scanner 2 true ∷ agent scanner none http 3 true ∷ [])
      home server 9 (λ a b e. e)
      (unfold allow is_unspecified any_net net_contains shortest to4 text_eq in refl)
      (unfold blocked ip_key is_unspecified shortest to4 text_eq blocked_locked lookup in refl)

abbrev later : Server
later = on_events as_text as_text token (agent scanner none request 5 true ∷ []) wary

permanent_kept_out_example :
    ((public_allowed as_text scanner 9 true later).1 ≡ false)
    × ((handle_agent as_text as_text token scanner none request 9 true later).1 ≡ none)
    × (is_allowed as_text scanner 9 later ≡ false)
permanent_kept_out_example =
    permanent_kept_out as_text as_text token (agent scanner none request 5 true ∷ []) scanner wary 1
      9 none request true
      (unfold kind ip_key is_unspecified shortest to4 text_eq kind_locked lookup in refl)

probe_is_banned_example :
    (kind as_text scanner 9
        (handle_agent as_text as_text token scanner none http 1 true server).0.bans
      ≡ permanent)
    × ((handle_agent as_text as_text token scanner none http 1 true server).1 ≡ none)
probe_is_banned_example =
    probe_is_banned as_text as_text token scanner http 1 9 true server
      (unfold trusted_tunnel_ip allow is_unspecified any_net net_contains shortest to4 text_eq in
        refl)
      (unfold is_pardoned ip_key is_unspecified shortest to4 text_eq contains in refl)
      (unfold ip_key is_unspecified shortest to4 text_eq in refl)
      (unfold blocked ip_key is_unspecified shortest to4 text_eq blocked_locked lookup in refl)
      (unfold server_handshake read_frame read_full is_probe in refl)
