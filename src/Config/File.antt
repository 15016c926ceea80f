-- ===== src/Config/File.antt =====
-- internal/config/config.go: the configuration, and what its methods make of absent values. A
-- *bool is an option, and a duration counts nanoseconds.
use faketunnel.Base.{
  ℕ, ◌*◌, Bool, true, not, ◌&&◌, Option, none, some, List, [], ◌∷◌, ltb, ◌==◌, if◌then◌else◌,
  length, Bytes, text, text_eq,
}
use faketunnel.Base.Spaces.{trim_space}
use faketunnel.Base.Integers.{ℤ, pos, is_positive}

-- a text of spaces only
abbrev pub is_blank : Bytes → Bool
is_blank s = length (trim_space s) == 0

abbrev pub is_empty : Bytes → Bool
is_empty s = length s == 0

abbrev pub type_http : Bytes
type_http = text "http"

abbrev pub type_tcp : Bytes
type_tcp = text "tcp"

abbrev pub type_udp : Bytes
type_udp = text "udp"

pub record Admin : Type 0 where
  pub enable : Option Bool
  pub listen : Bytes
  pub token : Bytes
  pub token_file : Bytes
  pub metrics : Option Bool

pub record Tls : Type 0 where
  pub cert : Bytes
  pub key : Bytes
  pub ca : Bytes
  pub server_name : Bytes
  pub insecure_skip_verify : Option Bool
  pub auto_self_signed : Bool

pub record Tunnel : Type 0 where
  pub name : Bytes
  pub kind : Bytes
  pub public : Bytes
  pub tls : Bool
  pub passthrough : Bool
  pub http2 : Bool
  pub local : Bytes
  pub host : Bytes
  pub cert : Bytes
  pub key : Bytes

pub record File : Type 0 where
  pub path : Bytes
  pub listen : Bytes
  pub edge : Bytes
  pub token : Bytes
  pub token_file : Bytes
  pub agent_id : Bytes
  pub tls : Tls
  pub allowlist_file : Bytes
  pub allowlist : List Bytes
  pub denylist_file : Bytes
  pub admin : Admin
  pub tunnels : List Tunnel
  pub idle_timeout : ℤ
  pub dial_timeout : ℤ
  pub max_sessions : ℤ
  pub shutdown_timeout : ℤ
  pub log_level : Bytes
  pub log_format : Bytes
  pub proxy_protocol : Bool
  pub local_private_only : Option Bool
  pub health_path : Bytes

abbrev or_default : Option Bool → Bool → Bool
or_default none b = b
or_default (some b) _ = b

abbrev positive_or : ℤ → ℤ → ℤ
positive_or n fallback = if is_positive n then n else fallback

abbrev seconds : ℕ → ℤ
seconds n = pos (n * 1000000000)

unfoldable pub restrict_tunnels : File → Bool
restrict_tunnels c = ltb 0 (length c.tunnels)

unfoldable pub find_tunnel : Bytes → List Tunnel → Option Tunnel
find_tunnel name [] = none
find_tunnel name (t ∷ ts) = if text_eq t.name name then some t else find_tunnel name ts

abbrev pub tunnel_by_name : Bytes → File → Option Tunnel
tunnel_by_name name c = find_tunnel name c.tunnels

unfoldable pub of_kind : Bytes → List Tunnel → List Tunnel
of_kind kind [] = []
of_kind kind (t ∷ ts) = let rest = of_kind kind ts in if text_eq t.kind kind then t ∷ rest else rest

abbrev pub tcp_tunnels : File → List Tunnel
tcp_tunnels c = of_kind type_tcp c.tunnels

abbrev pub http_tunnels : File → List Tunnel
http_tunnels c = of_kind type_http c.tunnels

abbrev pub udp_tunnels : File → List Tunnel
udp_tunnels c = of_kind type_udp c.tunnels

abbrev pub health_path_or_default : File → Bytes
health_path_or_default c = trim_space c.health_path

abbrev pub private_only : File → Bool
private_only c = or_default c.local_private_only true

abbrev pub idle_or_default : File → ℤ
idle_or_default c = c.idle_timeout

abbrev pub udp_idle_or_default : File → ℤ
udp_idle_or_default c = positive_or c.idle_timeout (seconds 60)

abbrev pub dial_or_default : File → ℤ
dial_or_default c = positive_or c.dial_timeout (seconds 10)

abbrev pub max_sessions_or_default : File → ℤ
max_sessions_or_default c = positive_or c.max_sessions (pos 1024)

abbrev pub shutdown_or_default : File → ℤ
shutdown_or_default c = positive_or c.shutdown_timeout (seconds 10)

abbrev pub log_level_or_default : File → Bytes
log_level_or_default c = if is_blank c.log_level then text "info" else c.log_level

abbrev pub log_format_or_default : File → Bytes
log_format_or_default c = if is_blank c.log_format then text "text" else c.log_format

abbrev pub admin_enabled : File → Bool
admin_enabled c = or_default c.admin.enable true && not (is_blank c.admin.listen)

abbrev pub skip_verify : File → Bool
skip_verify c = or_default c.tls.insecure_skip_verify (is_blank c.tls.ca)

abbrev pub admin_metrics_or_default : File → Bool
admin_metrics_or_default c = or_default c.admin.metrics true
