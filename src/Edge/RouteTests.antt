-- ===== src/Edge/RouteTests.antt =====
-- Runs of internal/edge/http.go and of the sessions of internal/edge/server.go at concrete inputs.
use faketunnel.Base.{
  ℕ, ◌+◌, ◌<◌, ◌≡◌, refl, Bool, true, false, not, ◌&&◌, Option, none, some, List, [], ◌∷◌, ◌++◌,
  map, leb, if◌then◌else◌, All, ok, all, Bytes, text, text_eq,
}
use faketunnel.Base.Spaces.{trim_space}
use faketunnel.Base.Maps.{lookup, insert, contains, add, NoDup}
use faketunnel.Base.Integers.{pos}
use faketunnel.Base.Scan.{has_byte, has_prefix, cut, cut_last}
use faketunnel.Config.File.{File, Tunnel, is_empty}
use faketunnel.Net.HostPort.{split_host_port}
use faketunnel.Config.File.{File, Tunnel, Tls, http_tunnels, of_kind, is_empty}
use faketunnel.Config.Addr.{is_port, addr_port}
use faketunnel.Config.Validate.{
  check_publics, check_conflicts, validate_listen_conflicts, check_tunnels, validate,
  normalize_config_host, check_http, check_groups, check_admin, check_edge, check_routes,
  validate_edge,
}
use faketunnel.Config.Validate.Spec.{distinct}
use faketunnel.Proxy.Host.{normalize_host, match_host}
use faketunnel.Edge.Routes.{
  HttpGroup, listener_of, group_tunnels, group_http_tunnels, fill_names, host_names,
  lookup_http_tunnel,
}
use faketunnel.Edge.Routes.Found.{choose, lookup_http_tunnel_lem}
use faketunnel.Edge.Routes.Validated.{lookup_http_tunnel-validate_edge}
use faketunnel.Edge.Visits.{
  Visitor, Slots, spliced, splice_http, handle_http_conn, write_http_status,
}
use faketunnel.Edge.Admission.{is_shown, handle_http_conn_lem}
use faketunnel.Edge.Certs.{
  Certs, load_cert, load_certs, load_http_certs, get_certificate, cert_of,
  get_certificate-load_http_certs,
}
use faketunnel.Edge.Sessions.{State, set_session, watch_ends, get_session, watch_ends-set_session}
use faketunnel.Net.{Ip}
use faketunnel.Edge.Evictions
use faketunnel.Edge.Evictions.{
  tracks, checks, changes, collects, closes, no_conns, on_event, track_conn, untracked, check_conn,
  collect, disallowed, close_next, is_rightful, evictions_keep_rightful,
}

-- stand-ins
abbrev lower_byte : ℕ → ℕ
lower_byte b = if leb 65 b && leb b 90 then b + 32 else b

abbrev lower : Bytes → Bytes
lower s = map lower_byte s

abbrev is_local : Bytes → Bool
is_local s = has_prefix s (text "127.0.0.1:")

abbrev no_tls : Tls
no_tls = record {
  cert = [];
  key = [];
  ca = [];
  server_name = [];
  insecure_skip_verify = none;
  auto_self_signed = true;
}

abbrev web : Tunnel
web = record {
  name = text "web";
  kind = text "http";
  public = text ":80";
  tls = false;
  passthrough = false;
  http2 = false;
  local = text "127.0.0.1:3000";
  host = text "a.example";
  cert = [];
  key = [];
}

abbrev other : Tunnel
other = record web { name = text "other"; host = [] }

abbrev edge_file : File
edge_file = record {
  path = [];
  listen = text ":8443";
  edge = [];
  token = text "secret";
  token_file = [];
  agent_id = [];
  tls = no_tls;
  allowlist_file = [];
  allowlist = [];
  denylist_file = [];
  admin = record { enable = some false; listen = []; token = []; token_file = []; metrics = none };
  tunnels = web ∷ other ∷ [];
  idle_timeout = pos 0;
  dial_timeout = pos 0;
  max_sessions = pos 0;
  shutdown_timeout = pos 0;
  log_level = [];
  log_format = [];
  proxy_protocol = false;
  local_private_only = none;
  health_path = [];
}

abbrev group : HttpGroup
group = record {
  tls = false;
  by_host = (text "a.example", web) ∷ ([], other) ∷ [];
  names = text "other" ∷ text "web" ∷ [];
}

accepted : validate_edge lower is_local edge_file ≡ ok edge_file
unfolding validate_edge validate check_tunnels contains add text_eq trim_space check_edge
    check_admin check_routes check_publics check_groups check_http normalize_config_host
    split_host_port cut cut_last has_byte lookup insert validate_listen_conflicts check_conflicts
    addr_port is_port
accepted = refl

http_ones : http_tunnels edge_file ≡ web ∷ other ∷ []
unfolding of_kind text_eq
http_ones = refl

plain_hosts :
    all (λ t. not (has_prefix (trim_space t.host) (91 ∷ []))) (http_tunnels edge_file) ≡ true
unfolding of_kind text_eq trim_space
plain_hosts = refl

grouped : lookup (text ":80") (group_http_tunnels lower (http_tunnels edge_file)) ≡ some group
unfolding of_kind text_eq group_tunnels lookup insert add normalize_host trim_space has_byte
    split_host_port cut cut_last
grouped = refl

lookup_http_tunnel-validate_edge_example :
    lookup_http_tunnel lower (listener_of group) (text "a.example" ∷ []) ≡ some web
lookup_http_tunnel-validate_edge_example =
    lookup_http_tunnel-validate_edge lower is_local edge_file edge_file [] (other ∷ []) web group
      accepted http_ones plain_hosts grouped

distinct_names : distinct (map (λ t. t.name) (http_tunnels edge_file)) ≡ true
unfolding distinct of_kind text_eq contains
distinct_names = refl

full_names : All (λ t. is_empty t.name ≡ false) (http_tunnels edge_file)
unfolding of_kind text_eq
full_names = (refl, (refl, tt))

lookup_http_tunnel_lem_example :
    lookup_http_tunnel lower (listener_of group) (text "b.example" ∷ text "A.example:80" ∷ [])
    ≡ choose lower
        (http_tunnels edge_file)
        (text ":80")
        (text "b.example" ∷ text "A.example:80" ∷ [])
lookup_http_tunnel_lem_example =
    lookup_http_tunnel_lem lower (http_tunnels edge_file) (text ":80") group
      (text "b.example" ∷ text "A.example:80" ∷ []) distinct_names full_names grouped

second_candidate :
    lookup_http_tunnel lower (listener_of group) (text "b.example" ∷ text "A.example:80" ∷ [])
    ≡ some web
unfolding lookup_http_tunnel match_host host_names fill_names normalize_host lookup insert text_eq
    trim_space has_byte split_host_port cut cut_last
second_candidate = refl

abbrev slots : Slots
slots = record { capacity = 2; in_use = 1; has_session = true }

abbrev visitor : Visitor
visitor = record { hello = none; handshake = none; head = some (text "a.example", true) }

handed :
    handle_http_conn lower (listener_of group) slots true true false visitor
    ≡ spliced web true false
unfolding handle_http_conn splice_http lookup_http_tunnel match_host host_names fill_names
    normalize_host lookup insert text_eq trim_space has_byte split_host_port cut cut_last
handed = refl

handle_http_conn_lem_example :
    (true ≡ true)
    × ((hosts : List Bytes) × (all (is_shown visitor) hosts ≡ true)
        × (lookup_http_tunnel lower (listener_of group) hosts ≡ some web))
    × ((1 < 2) × (true ≡ true))
handle_http_conn_lem_example =
    handle_http_conn_lem lower (listener_of group) slots true true false visitor web true false
      handed

forbidden :
    write_http_status 403 (text "forbidden")
    ≡ text "HTTP/1.1 403 Forbidden"
      ++ 13 ∷ 10 ∷ text "Content-Type: text/plain; charset=utf-8"
      ++ 13 ∷ 10 ∷ text "Connection: close"
      ++ 13 ∷ 10 ∷ text "Content-Length: 10"
      ++ 13 ∷ 10 ∷ 13 ∷ 10 ∷ text "forbidden"
      ++ 10 ∷ []
unfolding write_http_status
forbidden = refl

-- certificate 7 for the tunnel that has files of its own
abbrev secure : Tunnel
secure = record web { tls = true; cert = text "a.crt"; key = text "a.key" }

abbrev load_pair : Bytes → Bytes → Option ℕ
load_pair cert key = some 7

abbrev certs : Certs
certs = record { by_host = (text "a.example", 7) ∷ []; fallback = some 1 }

loaded : load_http_certs load_pair 1 ((text "a.example", secure) ∷ []) ≡ ok certs
unfolding load_certs load_cert insert
loaded = refl

named :
    lookup (normalize_host lower (text "A.example")) ((text "a.example", secure) ∷ []) ≡ some secure
unfolding normalize_host lookup text_eq trim_space has_byte
named = refl

has_name : is_empty (normalize_host lower (text "A.example")) ≡ false
unfolding normalize_host trim_space has_byte
has_name = refl

own : cert_of load_pair 1 secure ≡ some 7
unfolding cert_of
own = refl

alone : NoDup ((text "a.example", secure) ∷ [])
unfolding lookup
alone = (refl, tt)

own_certificate : get_certificate lower certs (text "A.example") ≡ some 7
own_certificate =
    get_certificate-load_http_certs load_pair 1 lower ((text "a.example", secure) ∷ []) certs secure
      7 (text "A.example") alone loaded has_name named own

-- session 1 is in place
abbrev first : State
first = record {
  session = some 1;
  ended = [];
  watched = 1 ∷ [];
  agent_connected = true;
  hub_closings = 1;
}

watch_ends-set_session_example :
    (get_session (watch_ends 1 (set_session 2 first)) ≡ some 2)
    × ((watch_ends 1 (set_session 2 first)).agent_connected ≡ false)
    × ((watch_ends 1 (set_session 2 first)).hub_closings ≡ 3)
watch_ends-set_session_example = watch_ends-set_session first 1 2 refl refl refl refl

-- two visitors are served, one of them is no longer allowed, and is closed
abbrev everyone : Ip → Bool
everyone ip = true

abbrev only_ten : Ip → Bool
only_ten ip = text_eq ip (10 ∷ 0 ∷ 0 ∷ 1 ∷ [])

abbrev evicting : List Evictions.Event
evicting =
    tracks 1 (10 ∷ 0 ∷ 0 ∷ 1 ∷ [])
    ∷ tracks 2 (10 ∷ 0 ∷ 0 ∷ 2 ∷ [])
    ∷ checks 1
    ∷ checks 2
    ∷ changes only_ten
    ∷ collects
    ∷ closes
    ∷ []

abbrev evicted : Evictions.State
evicted = Evictions.on_events evicting (no_conns everyone)

left_open : map (λ c. c.is_open) evicted.conns ≡ false ∷ true ∷ []
unfolding on_event track_conn untracked check_conn collect disallowed close_next text_eq
left_open = refl

evicted_all : (evicted.stale ≡ false) × (evicted.closing ≡ [])
unfolding on_event track_conn untracked check_conn collect disallowed close_next text_eq
evicted_all = (refl, refl)

evictions_keep_rightful_example : all (is_rightful evicted.allows) evicted.conns ≡ true
evictions_keep_rightful_example =
    evictions_keep_rightful everyone evicting evicted_all.0 evicted_all.1
