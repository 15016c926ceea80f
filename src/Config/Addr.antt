-- ===== src/Config/Addr.antt =====
-- internal/config/defaults.go: ports and addresses, and their shorthands.
pub mod Idempotent
use faketunnel.Base.{
  ℕ, ◌+◌, ◌-◌, ◌*◌, Bool, false, not, ◌&&◌, ◌||◌, Option, none, some, [], ◌∷◌, ◌++◌, leb, ◌==◌,
  if◌then◌else◌, drop, Bytes, text,
}
use faketunnel.Base.Spaces.{trim_space}
use faketunnel.Base.Scan.{has_prefix}
use faketunnel.Net.HostPort.{split_host_port, join_host_port}
use faketunnel.Config.File.{is_empty}

abbrev pub digits_number : ℕ → Bytes → Option ℕ
digits_number acc [] = some acc
digits_number acc (d ∷ s) =
    let rest = digits_number (acc * 10 + (d - 48)) s in if leb 48 d && leb d 57 then rest else none

abbrev pub is_minus : Bytes → Bool
is_minus s = has_prefix s (45 ∷ [])

abbrev pub unsigned : Bytes → Bytes
unsigned s = if is_minus s || has_prefix s (43 ∷ []) then drop 1 s else s

-- strconv.Atoi takes a sign and digits; a number that does not fit an int is no port either
unfoldable pub is_port : Bytes → Bool
is_port s = elim (digits_number 0 (unsigned s)) [
  | none ↦ false
  | some n ↦ not (is_empty (unsigned s)) && (if is_minus s then n == 0 else leb n 65535)
]

abbrev pub port_of : Bytes → Bytes
port_of s = if is_port s then s else elim (split_host_port s) [ none ↦ [] | some (_, port) ↦ port ]

unfoldable pub addr_port : Bytes → Bytes
addr_port raw = let s = trim_space raw in if is_empty s then [] else port_of s

abbrev pub loopback : Bytes
loopback = text "127.0.0.1"

abbrev pub default_tunnel_port : Bytes
default_tunnel_port = text "8443"

unfoldable pub expand_addr : Bytes → Bool → Bytes
expand_addr raw local_target =
    let s = trim_space raw in
    if is_empty s
    then s
    else if is_port s
    then (if local_target then loopback ++ 58 ∷ s else 58 ∷ s)
    else s

unfoldable pub expand_edge_addr : Bytes → Bytes
expand_edge_addr raw =
    let s = trim_space raw in
    if is_empty s
    then s
    else if is_port s
    then loopback ++ 58 ∷ s
    else if has_prefix s (58 ∷ [])
    then loopback ++ s
    else elim (split_host_port s) [ none ↦ join_host_port s default_tunnel_port | some _ ↦ s ]

unfoldable pub expand_admin_listen : Bytes → Bytes
expand_admin_listen raw =
    let s = trim_space raw in
    if is_empty s
    then s
    else if is_port s
    then loopback ++ 58 ∷ s
    else if has_prefix s (58 ∷ [])
    then loopback ++ s
    else s
