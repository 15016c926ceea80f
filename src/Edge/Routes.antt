-- ===== src/Edge/Routes.antt =====
-- internal/edge/http.go: the tunnels of one public HTTP address, and which one a host leads to.
pub mod Groups
pub mod Lookup
pub mod Found
pub mod Validated
use faketunnel.Base.{
  ℕ, zero, suc, ◌+◌, ◌-◌, ◌*◌, ◌/◌, ◌%◌, ◌^◌, ◌≤◌, ◌<◌, ◌≡◌, refl, sym, ap, ◌∙◌, ◌≢◌, ◌↔◌, ◌⊎◌, inl,
  inr, Bool, true, false, not, ◌&&◌, ◌||◌, Option, none, some, List, [], ◌∷◌, ◌++◌, map, append-nil,
  append_assoc, reverse, reverse-append, reverse-reverse, arith, ltb, leb, ◌==◌, if◌then◌else◌,
  ltb→lt, ltb→le, lt→ltb, le→ltb, ==_iff, Bool-cases, Option-cases, is_some, length, take, drop,
  length-append, take-append-drop, length-take, length-drop, take-length-append, drop-length-append,
  All, All-weaken, All-append, All-take, All-drop, All-append_right, All-append_left, take-length,
  take-append_front, append-take, Result, ok, err, ◌>>=◌, ◌>>◌, reject_if, >>=-eq-ok, Result-cases,
  all, pairwise, is_ok, Bytes, IsBytes, decimal, text, text_eq, text_eq_iff, text_eq_refl,
}
use faketunnel.Base.Spaces.{trim_space, trim_space_idem}
use faketunnel.Base.Spaces.Ends.{
  is_plain, Plain, Ascii, trim_space_behind, trim_space-Plain, trim_space_line,
}
use faketunnel.Base.Maps.{lookup, insert, erase, contains, add, contains-add, lookup-insert, NoDup}
use faketunnel.Base.Integers.{ℤ, pos, negsuc, is_positive, is_negative}
use faketunnel.Base.Scan.{
  has_byte, has_prefix, cut, cut_last, split, has_byte-append, cut_lem, cut_absent, cut-eq-some,
  cut_last_absent, cut_last_lem,
}
use faketunnel.Base.Decimals.{number, number-decimal, decimal_inj}
use faketunnel.Config.File.{File, Tunnel, is_empty, is_blank, find_tunnel}
use faketunnel.Net.HostPort.{split_host_port, join_host_port, split_host_port-join_host_port}
use faketunnel.Proxy.Host.{normalize_host, match_host}

pub record HttpGroup : Type 0 where
  pub tls : Bool
  pub by_host : List (Bytes × Tunnel)
  pub names : List Bytes

-- What httpListener keeps of its tunnels: by host, and by name.
pub record HttpListener : Type 0 where
  pub tunnels : List (Bytes × Tunnel)
  pub by_name : List (Bytes × Tunnel)

abbrev needs_cert : Tunnel → Bool
needs_cert t = t.tls && not t.passthrough

unfoldable pub any_needs_cert : List (Bytes × Tunnel) → Bool
any_needs_cert [] = false
any_needs_cert ((_, t) ∷ rest) = needs_cert t || any_needs_cert rest

abbrev pub group_needs_terminate : HttpGroup → Bool
group_needs_terminate g = any_needs_cert g.by_host

-- the loop of startHTTP that fills `byName`
unfoldable pub fill_names : List (Bytes × Tunnel) → List (Bytes × Tunnel) → List (Bytes × Tunnel)
fill_names names [] = names
fill_names names ((_, t) ∷ rest) = fill_names (insert t.name t names) rest

abbrev pub listener_of : HttpGroup → HttpListener
listener_of g = record { tunnels = g.by_host; by_name = fill_names [] g.by_host }

-- the loop of lookupHTTPTunnel over the tunnels: the names by host, and the catch-all's
unfoldable pub host_names : List (Bytes × Tunnel) → List (Bytes × Bytes) × Bytes
host_names [] = ([], [])
host_names ((host, t) ∷ rest) =
    let (by_host, empty) = host_names rest in
    if is_empty host then (by_host, t.name) else ((host, t.name) ∷ by_host, empty)

abbrev pub group_for : Tunnel → List (Bytes × HttpGroup) → HttpGroup
group_for t groups = elim (lookup t.public groups) [
  | some g ↦ g
  | none ↦ record { tls = t.tls; by_host = []; names = [] }
]

abbrev pub catch_all : HttpListener → Option Tunnel
catch_all l =
    let empty = (host_names l.tunnels).1 in if is_empty empty then none else lookup empty l.by_name

module _ (to_lower : Bytes → Bytes) where
  abbrev pub with_tunnel : Tunnel → HttpGroup → HttpGroup
  with_tunnel t g = record g {
    by_host = insert (normalize_host to_lower t.host) t g.by_host;
    names = add t.name g.names;
  }

  unfoldable pub group_tunnels : List (Bytes × HttpGroup) → List Tunnel → List (Bytes × HttpGroup)
  group_tunnels groups [] = groups
  group_tunnels groups (t ∷ ts) =
      group_tunnels (insert t.public (with_tunnel t (group_for t groups)) groups) ts

  abbrev pub group_http_tunnels : List Tunnel → List (Bytes × HttpGroup)
  group_http_tunnels ts = group_tunnels [] ts

  -- the name that MatchHost finds, if the listener knows it
  abbrev pub matched : HttpListener → Bytes → Option Tunnel
  matched l host = elim (match_host to_lower host (host_names l.tunnels).0 []) [
    | none ↦ none
    | some name ↦ lookup name l.by_name
  ]

  -- the candidates in their order, and the catch-all
  unfoldable pub lookup_http_tunnel : HttpListener → List Bytes → Option Tunnel
  lookup_http_tunnel l [] = catch_all l
  lookup_http_tunnel l (host ∷ hosts) =
      let rest = lookup_http_tunnel l hosts in
      if is_empty host then rest else elim (matched l host) [ some t ↦ some t | none ↦ rest ]
