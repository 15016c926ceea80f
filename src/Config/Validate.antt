-- ===== src/Config/Validate.antt =====
-- internal/config/config.go: Validate, ValidateEdge and ValidateAgent with what they call. A map of
-- names or of public addresses is the list of its keys. `to_lower` is strings.ToLower and
-- `is_loopback` is netutil.ListenHostIsLoopback.
pub mod Spec
pub mod Loops
pub mod Groups
pub mod Decides
use faketunnel.Base.{
  ℕ, ◌+◌, Bool, not, ◌&&◌, ◌||◌, none, some, List, [], ◌∷◌, ltb, if◌then◌else◌, length, Result, ok,
  ◌>>=◌, ◌>>◌, reject_if, Bytes, text, text_eq,
}
use faketunnel.Base.Spaces.{trim_space}
use faketunnel.Base.Maps.{lookup, insert, contains, add}
use faketunnel.Base.Integers.{is_negative}
use faketunnel.Base.Scan.{has_prefix}
use faketunnel.Net.HostPort.{split_host_port}
use faketunnel.Config.File.{File, Tunnel, is_blank, is_empty, type_http, type_tcp, type_udp}
use faketunnel.Config.Addr.{addr_port}

pub data Error : Type 0 where
  token_required negative_sessions listen_required tls_required bad_health_path : Error
  admin_token_required allowlist_required example_token short_token same_token : Error
  edge_required : Error
  name_required : ℕ → Error
  duplicate_name duplicate_public duplicate_udp shared_public : Bytes → Error
  unknown_type duplicate_host : Bytes → Bytes → Error
  public_required local_required no_pair half_pair : Bytes → Error
  passthrough_without_tls http2_without_tls mixed_tls duplicate_catch_all : Bytes → Error
  admin_conflict tunnel_conflict : Bytes → Error

abbrev pub done : {E : Type 0} → Result E (Unit {0})
done = ok tt

abbrev pub example_admin_token : Bytes
example_admin_token = text "admin-dev-token-change-me"

abbrev pub min_public_admin_token : ℕ
min_public_admin_token = 16

-- the group of one public address: whether it is TLS, and the hosts it has
pub record GroupMeta : Type 0 where
  pub tls : Bool
  pub hosts : List Bytes

-- what the tcp and the udp loop do, which differ in the type and the error of a duplicate
unfoldable pub check_publics :
    Bytes → (Bytes → Error) → List Bytes → List Tunnel → Result Error (List Bytes)
check_publics kind duplicate seen [] = ok seen
check_publics kind duplicate seen (t ∷ ts) =
    let rest = check_publics kind duplicate (add t.public seen) ts in
    if text_eq t.kind kind
    then reject_if (is_blank t.public) (public_required t.name)
      >> reject_if (contains t.public seen) (duplicate t.public)
      >> reject_if (is_blank t.local) (local_required t.name)
      >> rest
    else check_publics kind duplicate seen ts

unfoldable pub check_conflicts : Bytes → List Tunnel → Result Error (Unit {0})
check_conflicts port [] = done
check_conflicts port (t ∷ ts) =
    let rest = check_conflicts port ts in
    if text_eq t.kind type_udp
    then rest
    else reject_if (text_eq (addr_port t.public) port) (tunnel_conflict t.name) >> rest

-- the listen port is not "" and not "0", and nor is an equal port
unfoldable pub validate_listen_conflicts : File → Result Error (Unit {0})
validate_listen_conflicts c =
    let port = addr_port c.listen in
    let rest = check_conflicts port c.tunnels in
    if is_empty port || text_eq port (text "0")
    then done
    else reject_if (text_eq (addr_port c.admin.listen) port) (admin_conflict port) >> rest

abbrev pub is_known : Bytes → Bool
is_known typ = text_eq typ type_http || (text_eq typ type_tcp || text_eq typ type_udp)

abbrev within_limits : File → List Tunnel → Result Error File
within_limits c ts =
    reject_if (is_negative c.max_sessions) negative_sessions >> ok (record c { tunnels = ts })

abbrev has_pair : File → Tunnel → Bool
has_pair c t =
    (not (is_empty t.cert) && not (is_empty t.key))
    || ((not (is_empty c.tls.cert) && not (is_empty c.tls.key)) || c.tls.auto_self_signed)

abbrev pub check_certs : File → Tunnel → Result Error (Unit {0})
check_certs c t =
    if t.tls && not t.passthrough
    then reject_if (not (has_pair c t)) (no_pair t.name)
      >> reject_if
          (not (is_empty t.cert) && is_empty t.key || (is_empty t.cert && not (is_empty t.key)))
          (half_pair t.name)
    else done

abbrev pub differ : Bool → Bool → Bool
differ a b = (a && not b) || (b && not a)

module _ (is_loopback : Bytes → Bool) where
  unfoldable pub validate_public_admin : File → Result Error (Unit {0})
  validate_public_admin c =
      let tok = trim_space c.admin.token in
      if is_loopback c.admin.listen
      then done
      else reject_if (text_eq tok example_admin_token) example_token
        >> reject_if (ltb (length tok) min_public_admin_token) short_token
        >> reject_if (text_eq tok (trim_space c.token)) same_token

  unfoldable pub check_admin : File → Result Error (Unit {0})
  check_admin c =
      if is_blank c.admin.listen
      then done
      else reject_if (is_blank c.admin.token) admin_token_required
        >> reject_if (is_blank c.allowlist_file) allowlist_required
        >> validate_public_admin c

  -- what ValidateEdge checks before its loops
  unfoldable pub check_edge : File → Result Error (Unit {0})
  check_edge c =
      let hp = trim_space c.health_path in
      reject_if (is_blank c.listen) listen_required
      >> reject_if (not c.tls.auto_self_signed && (is_empty c.tls.cert || is_empty c.tls.key))
          tls_required
      >> reject_if (not (is_empty hp) && not (has_prefix hp (text "/"))) bad_health_path
      >> check_admin c

module _ (to_lower : Bytes → Bytes) where
  abbrev pub type_of : Tunnel → Bytes
  type_of t = let typ = to_lower (trim_space t.kind) in if is_empty typ then type_tcp else typ

  abbrev with_type : Tunnel → List Tunnel → Result Error (List Tunnel)
  with_type t ts = ok (record t { kind = type_of t } ∷ ts)

  -- `i` is the index of the first tunnel
  unfoldable pub check_tunnels : ℕ → List Bytes → List Tunnel → Result Error (List Tunnel)
  check_tunnels i names [] = ok []
  check_tunnels i names (t ∷ ts) =
      let rest = check_tunnels (i + 1) (add t.name names) ts in
      reject_if (is_blank t.name) (name_required i)
      >> reject_if (contains t.name names) (duplicate_name t.name)
      >> reject_if (not (is_known (type_of t))) (unknown_type t.name t.kind)
      >> (rest >>= with_type t)

  unfoldable pub validate : File → Result Error File
  validate c =
      reject_if (is_blank c.token) token_required
      >> (check_tunnels 0 [] c.tunnels >>= within_limits c)

  unfoldable pub normalize_config_host : Bytes → Bytes
  normalize_config_host raw =
      let host = trim_space raw in
      if is_empty host
      then []
      else elim (split_host_port host) [ none ↦ to_lower host | some (h, _) ↦ to_lower h ]

  abbrev duplicate : Tunnel → Error
  duplicate t =
      let host = normalize_config_host t.host in
      if is_empty host then duplicate_catch_all t.public else duplicate_host host t.public

  abbrev pub group_of : Tunnel → List (Bytes × GroupMeta) → GroupMeta
  group_of t groups = elim (lookup t.public groups) [
    | some g ↦ g
    | none ↦ record { tls = t.tls; hosts = [] }
  ]

  -- the check of one http tunnel, and its group with its host added
  unfoldable pub check_http :
      File → List Bytes → List (Bytes × GroupMeta) → Tunnel → Result Error GroupMeta
  check_http c tcp groups t =
      let g = group_of t groups in
      let host = normalize_config_host t.host in
      reject_if (is_blank t.public) (public_required t.name)
      >> reject_if (is_blank t.local) (local_required t.name)
      >> reject_if (contains t.public tcp) (shared_public t.public)
      >> reject_if (t.passthrough && not t.tls) (passthrough_without_tls t.name)
      >> reject_if (t.http2 && not t.tls) (http2_without_tls t.name)
      >> check_certs c t
      >> reject_if (differ g.tls t.tls) (mixed_tls t.public)
      >> reject_if (contains host g.hosts) (duplicate t)
      >> ok (record g { hosts = add host g.hosts })

  unfoldable pub check_groups :
      File
      → List Bytes
      → List (Bytes × GroupMeta)
      → List Tunnel
      → Result Error (List (Bytes × GroupMeta))
  check_groups c tcp groups [] = ok groups
  check_groups c tcp groups (t ∷ ts) =
      let rest = check_groups c tcp groups ts in
      if text_eq t.kind type_http
      then check_http c tcp groups t >>= (λ g. check_groups c tcp (insert t.public g groups) ts)
      else rest

  unfoldable pub validate_agent : File → Result Error File
  validate_agent c = validate c >>= (λ v. reject_if (is_blank v.edge) edge_required >> ok v)

  -- the loops of ValidateEdge, one after the other
  unfoldable pub check_routes : File → Result Error (Unit {0})
  check_routes c = check_publics type_tcp duplicate_public [] c.tunnels >>= (λ tcp.
      check_publics type_udp duplicate_udp [] c.tunnels
      >>= (λ udp. check_groups c tcp [] c.tunnels >>= (λ groups. validate_listen_conflicts c)))

  module _ (is_loopback : Bytes → Bool) where
    unfoldable pub validate_edge : File → Result Error File
    validate_edge c = validate c >>= (λ v. check_edge is_loopback v >> check_routes v >> ok v)
