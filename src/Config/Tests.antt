-- ===== src/Config/Tests.antt =====
-- Runs of internal/config at concrete inputs.
use faketunnel.Base.{
  ℕ, ◌+◌, ◌≡◌, refl, Bool, true, false, not, ◌&&◌, none, some, List, [], ◌∷◌, ◌++◌, map, arith, leb,
  if◌then◌else◌, ok, is_ok, Bytes, text, text_eq,
}
use faketunnel.Base.Spaces.{trim_space}
use faketunnel.Base.Maps.{lookup, insert, contains, add}
use faketunnel.Base.Integers.{pos}
use faketunnel.Base.Scan.{has_byte, has_prefix, cut, cut_last}
use faketunnel.Config.File.{File, Tunnel}
use faketunnel.Net.HostPort.{split_host_port}
use faketunnel.Config.File.{File, Tunnel, Tls}
use faketunnel.Config.Addr.{is_port, addr_port, expand_addr, expand_admin_listen}
use faketunnel.Config.Validate.{
  check_publics, check_conflicts, validate_listen_conflicts, check_tunnels, validate,
  normalize_config_host, check_http, check_groups, validate_public_admin, check_admin, check_edge,
  check_routes, validate_edge,
}
use faketunnel.Config.Validate.Spec.{base_valid, edge_valid, routes_valid, typed}
use faketunnel.Config.Naming.{
  unique_name, unique_from, infer_type, default_tunnel_name, sanitize_name,
}
use faketunnel.Config.Naming.Fresh.{unique_name_unused}
use faketunnel.Config.Defaults.{System, contents, apply_common, apply_edge_defaults, fill_tunnels}
use faketunnel.Config.Find.{find, first_file, first_token, discover_admin_token}
use faketunnel.Config.Load.{
  load_edge, load_yaml, load_token, tunnel_token, admin_token, resolve_paths, ensure_admin_token,
  random_token, hex,
}
use faketunnel.Config.Load.Promises.{load_edge_valid, admin_token-ensure_admin_token}
use faketunnel.Config.Validate.Decides.{validate_edge_lem}

-- stand-ins: ASCII case folding, and the loopback address's text
abbrev lower_byte : ℕ → ℕ
lower_byte b = if leb 65 b && leb b 90 then b + 32 else b

abbrev lower : Bytes → Bytes
lower s = map lower_byte s

abbrev is_local : Bytes → Bool
is_local s = has_prefix s (text "127.0.0.1:")

abbrev no_tls : Tls
no_tls = record {
  cert = [];
  key = [];
  ca = [];
  server_name = [];
  insecure_skip_verify = none;
  auto_self_signed = true;
}

abbrev web : Tunnel
web = record {
  name = text "web";
  kind = text "http";
  public = text ":80";
  tls = false;
  passthrough = false;
  http2 = false;
  local = text "127.0.0.1:3000";
  host = text "a.example";
  cert = [];
  key = [];
}

abbrev other : Tunnel
other = record web { name = text "other"; host = [] }

abbrev ssh : Tunnel
ssh = record web { name = text "ssh"; kind = text "tcp"; public = text ":2222"; host = [] }

abbrev edge_file : File
edge_file = record {
  path = [];
  listen = text ":8443";
  edge = [];
  token = text "secret";
  token_file = [];
  agent_id = [];
  tls = no_tls;
  allowlist_file = text "/allow.json";
  allowlist = [];
  denylist_file = [];
  admin = record {
    enable = none;
    listen = text "127.0.0.1:9090";
    token = text "admin";
    token_file = [];
    metrics = none;
  };
  tunnels = web ∷ other ∷ ssh ∷ [];
  idle_timeout = pos 0;
  dial_timeout = pos 0;
  max_sessions = pos 0;
  shutdown_timeout = pos 0;
  log_level = [];
  log_format = [];
  proxy_protocol = false;
  local_private_only = none;
  health_path = [];
}

accepted : validate_edge lower is_local edge_file ≡ ok edge_file
unfolding validate_edge validate check_tunnels contains add text_eq trim_space check_edge
    check_admin validate_public_admin check_routes check_publics check_groups check_http
    normalize_config_host split_host_port cut cut_last has_byte lookup insert
    validate_listen_conflicts check_conflicts addr_port is_port
accepted = refl

-- the same host twice
abbrev twice : File
twice = record edge_file {
  tunnels = web ∷ record web { name = text "b"; host = text "A.Example:80" } ∷ [];
}

refused : is_ok (validate_edge lower is_local twice) ≡ false
unfolding validate_edge validate check_tunnels contains add text_eq trim_space check_edge
    check_admin validate_public_admin check_routes check_publics check_groups check_http
    normalize_config_host split_host_port cut cut_last has_byte lookup insert
    validate_listen_conflicts check_conflicts addr_port is_port
refused = refl

validate_edge_lem_example : is_ok (validate_edge lower is_local twice) ≡ (
    base_valid lower twice
    && (edge_valid is_local (typed lower twice) && routes_valid lower (typed lower twice)))
validate_edge_lem_example = validate_edge_lem lower is_local twice

-- every word is one rune, and all are letters
abbrev runes : Bytes → List Bytes
runes s = map (λ b. b ∷ []) s

abbrev is_word : Bytes → Bool
is_word r = not (text_eq r (46 ∷ []))

unique_name_unused_example :
    contains (unique_name [] (text "tun" ∷ text "tun-2" ∷ [])) (text "tun" ∷ text "tun-2" ∷ [])
    ≡ false
unique_name_unused_example = unique_name_unused [] (text "tun" ∷ text "tun-2" ∷ [])

third : unique_name [] (text "tun" ∷ text "tun-2" ∷ []) ≡ text "tun-3"
unfolding unique_name unique_from contains text_eq
third = refl

named_for : default_tunnel_name lower runes is_word web ≡ text "http-80-a-example"
unfolding default_tunnel_name sanitize_name addr_port is_port split_host_port cut cut_last has_byte
    trim_space text_eq
named_for = refl

-- a disk with the token that was written
abbrev sys : System
sys = record {
  dir_of = λ p. text "/etc";
  join = λ a b. a ++ 47 ∷ b;
  is_file = λ p. false;
  get_env = λ v. [];
  read_file = λ p. contents (hex (171 ∷ 1 ∷ []) ++ 10 ∷ []);
}

-- no configuration is there, and the first token file has a token
nothing_found : find sys (text "edge") ≡ []
unfolding find first_file trim_space
nothing_found = refl

token_found : discover_admin_token sys ≡ text "ab01"
unfolding discover_admin_token first_token trim_space hex
token_found = refl

abbrev tokenless : File
tokenless = record edge_file {
  admin = record edge_file.admin { token = []; token_file = text "/etc/admin.token" };
}

abbrev tokened : File
tokened = record tokenless { admin = record tokenless.admin { token = hex (171 ∷ 1 ∷ []) } }

generates :
    ensure_admin_token (some (171 ∷ 1 ∷ [])) (λ p s. true) tokenless
    ≡ ok (tokened, (text "/etc/admin.token", hex (171 ∷ 1 ∷ []) ++ 10 ∷ []) ∷ [])
unfolding ensure_admin_token random_token trim_space
generates = refl

admin_token-ensure_admin_token_example :
    (text "/etc/admin.token" ≡ tokened.admin.token_file)
    × (admin_token sys tokened.admin ≡ ok tokened.admin.token)
admin_token-ensure_admin_token_example =
    admin_token-ensure_admin_token (λ p s. true) sys tokenless tokened 171 (1 ∷ [])
      (text "/etc/admin.token") (hex (171 ∷ 1 ∷ []) ++ 10 ∷ []) (omega arith, (omega arith, tt))
      generates refl

-- the configuration that loads, with the defaults of an Edge beside its path
abbrev loaded : File
loaded = record edge_file {
  path = text "/etc/edge.yaml";
  tls = record no_tls { cert = text "/etc/certs/edge.crt"; key = text "/etc/certs/edge.key" };
  denylist_file = text "/etc/denylist.json";
}

loads :
    load_edge sys
      (λ p. some p)
      (λ raw. some edge_file)
      lower
      runes
      is_word
      is_local
      none
      (λ p s. true)
      (text "/etc/edge.yaml")
    ≡ ok (loaded, [])
unfolding load_edge load_yaml load_token tunnel_token admin_token resolve_paths ensure_admin_token
    apply_common apply_edge_defaults fill_tunnels infer_type expand_addr expand_admin_listen
    validate_edge validate check_tunnels contains add text_eq trim_space check_edge check_admin
    validate_public_admin check_routes check_publics check_groups check_http normalize_config_host
    split_host_port cut cut_last has_byte lookup insert validate_listen_conflicts check_conflicts
    addr_port is_port
loads = refl

load_edge_valid_example : (edge_valid is_local loaded && routes_valid lower loaded) ≡ true
load_edge_valid_example =
    load_edge_valid sys (λ p. some p) (λ raw. some edge_file) lower runes is_word is_local none
      (λ p s. true) (text "/etc/edge.yaml") loaded [] loads
