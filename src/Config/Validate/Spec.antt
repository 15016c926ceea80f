-- ===== src/Config/Validate/Spec.antt =====
-- internal/config/config.go: which configurations are valid, said of all tunnels at once.
use faketunnel.Base.{
  Bool, true, not, ◌&&◌, ◌||◌, List, [], ◌∷◌, map, all, pairwise, is_ok, Bytes, text, text_eq,
}
use faketunnel.Base.Maps.{contains}
use faketunnel.Base.Integers.{is_negative}
use faketunnel.Config.File.{
  File, Tunnel, is_blank, is_empty, type_udp, tcp_tunnels, http_tunnels, udp_tunnels,
}
use faketunnel.Config.Addr.{addr_port}
use faketunnel.Base.{leb, length, text}
use faketunnel.Base.Scan.{has_prefix}
use faketunnel.Base.Spaces.{trim_space}
use faketunnel.Config.Validate.{
  min_public_admin_token, example_admin_token, type_of, is_known, check_certs,
  normalize_config_host, differ,
}

abbrev pub name_of : Tunnel → Bytes
name_of t = t.name

abbrev pub public_of : Tunnel → Bytes
public_of t = t.public

-- no text of the list is one of the others
unfoldable pub distinct : List Bytes → Bool
distinct [] = true
distinct (x ∷ xs) = not (contains x xs) && distinct xs

abbrev pub absent_from : List Bytes → Bytes → Bool
absent_from xs x = not (contains x xs)

abbrev pub has_ends : Tunnel → Bool
has_ends t = not (is_blank t.public) && not (is_blank t.local)

-- the tunnels of one transport listen on addresses of their own
abbrev pub publics_valid : List Tunnel → Bool
publics_valid ts = all has_ends ts && distinct (map public_of ts)

abbrev pub keeps_port : Bytes → Tunnel → Bool
keeps_port port t = text_eq t.kind type_udp || not (text_eq (addr_port t.public) port)

-- no TCP port that anything else listens on is the tunnel's own
abbrev pub ports_valid : File → Bool
ports_valid c =
    let port = addr_port c.listen in
    is_empty port
    || (text_eq port (text "0")
        || (not (text_eq (addr_port c.admin.listen) port) && all (keeps_port port) c.tunnels))

module _ (to_lower : Bytes → Bytes) where
  abbrev pub typed_tunnel : Tunnel → Tunnel
  typed_tunnel t = record t { kind = type_of to_lower t }

  -- the configuration with the types spelled in one way
  abbrev pub typed : File → File
  typed c = record c { tunnels = map typed_tunnel c.tunnels }

  abbrev pub tunnel_valid : Tunnel → Bool
  tunnel_valid t = not (is_blank t.name) && is_known (type_of to_lower t)

  abbrev pub tunnels_valid : List Tunnel → Bool
  tunnels_valid ts = all tunnel_valid ts && distinct (map name_of ts)

  unfoldable pub base_valid : File → Bool
  base_valid c =
      not (is_blank c.token) && (tunnels_valid c.tunnels && not (is_negative c.max_sessions))

  -- an http tunnel on its own
  abbrev pub http_valid : File → List Bytes → Tunnel → Bool
  http_valid c tcp t =
      has_ends t
      && (not (contains t.public tcp)
          && ((t.tls || (not t.passthrough && not t.http2)) && is_ok (check_certs c t)))

  -- two http tunnels of one address agree on TLS and have hosts of their own
  abbrev pub compatible : Tunnel → Tunnel → Bool
  compatible t u =
      not (text_eq t.public u.public)
      || (not (differ t.tls u.tls)
          && not (
              text_eq (normalize_config_host to_lower t.host)
                (normalize_config_host to_lower u.host)))

  abbrev pub http_tunnels_valid : File → Bool
  http_tunnels_valid c =
      all (http_valid c (map public_of (tcp_tunnels c))) (http_tunnels c)
      && pairwise compatible (http_tunnels c)

  unfoldable pub routes_valid : File → Bool
  routes_valid c =
      publics_valid (tcp_tunnels c)
      && (publics_valid (udp_tunnels c) && (http_tunnels_valid c && ports_valid c))

-- an Admin API that other machines reach has a token of its own, that is no placeholder
abbrev pub public_token_valid : File → Bool
public_token_valid c =
    let tok = trim_space c.admin.token in
    leb min_public_admin_token (length tok)
    && (not (text_eq tok example_admin_token) && not (text_eq tok (trim_space c.token)))

abbrev pub starts_path : Bytes → Bool
starts_path hp = is_empty hp || has_prefix hp (text "/")

module _ (is_loopback : Bytes → Bool) where
  abbrev pub admin_valid : File → Bool
  admin_valid c =
      is_blank c.admin.listen
      || (not (is_blank c.admin.token)
          && (not (is_blank c.allowlist_file)
              && (is_loopback c.admin.listen || public_token_valid c)))

  unfoldable pub edge_valid : File → Bool
  edge_valid c =
      not (is_blank c.listen)
      && ((c.tls.auto_self_signed || (not (is_empty c.tls.cert) && not (is_empty c.tls.key)))
          && (starts_path (trim_space c.health_path) && admin_valid c))
