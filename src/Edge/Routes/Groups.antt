-- ===== src/Edge/Routes/Groups.antt =====
-- internal/edge/http.go: groupHTTPTunnels keeps the last tunnel of each public address and host.
use faketunnel.Base.{
  ◌≡◌, refl, ap, ◌∙◌, inl, inr, Bool, ◌&&◌, Option, none, some, List, [], ◌∷◌, arith, if◌then◌else◌,
  Bool-cases, Option-cases, Bytes, text_eq, text_eq_iff,
}
use faketunnel.Base.Maps.{lookup, insert, lookup-insert}
use faketunnel.Config.File.{Tunnel}
use faketunnel.Proxy.Host.{normalize_host}
use faketunnel.Edge.Routes.{HttpGroup, group_for, with_tunnel, group_tunnels, group_http_tunnels}

-- the tunnel that a group has for a host
abbrev pub route : List (Bytes × HttpGroup) → Bytes → Bytes → Option Tunnel
route groups public host = elim (lookup public groups) [
  | none ↦ none
  | some g ↦ lookup host g.by_host
]

module _ (to_lower : Bytes → Bytes) where
  -- the tunnel listens there, for that host
  abbrev pub serves : Bytes → Bytes → Tunnel → Bool
  serves public host t = text_eq t.public public && text_eq (normalize_host to_lower t.host) host

  -- the last tunnel that serves the host, and else what was there before
  unfoldable pub last_serving : Option Tunnel → Bytes → Bytes → List Tunnel → Option Tunnel
  last_serving before public host [] = before
  last_serving before public host (t ∷ ts) =
      last_serving (if serves public host t then some t else before) public host ts

  route-insert :
      (groups : List (Bytes × HttpGroup)) (t : Tunnel) (public host : Bytes)
      → route (insert t.public (with_tunnel to_lower t (group_for t groups)) groups) public host
        ≡ (if serves public host t then some t else route groups public host)
  route-insert groups t public host =
      let key = normalize_host to_lower t.host in
      let g = group_for t groups in
      let there = lookup-insert t.public public (with_tunnel to_lower t g) groups in
      let nothing : lookup {V = Tunnel} host [] ≡ none = unfold lookup in refl in
      let in_group = lookup-insert key host t g.by_host in
      elim (Bool-cases (text_eq t.public public)) [
        | inr e ↦ ground (arith, e, there)
        | inl e ↦
            let same = (text_eq_iff t.public public).0 e in
            elim (Option-cases (lookup t.public groups)) [
              | inl new ↦ ground (arith, e, same, there, in_group, new, nothing)
              | inr old ↦ let (h, o) = old in ground (arith, e, same, there, in_group, o)
            ]
      ]

  route-group_tunnels :
      (groups : List (Bytes × HttpGroup)) (ts : List Tunnel) (public host : Bytes)
      → route (group_tunnels to_lower groups ts) public host
        ≡ last_serving (route groups public host) public host ts
  unfolding group_tunnels last_serving
  route-group_tunnels groups [] public host = refl
  route-group_tunnels groups (t ∷ ts) public host =
      route-group_tunnels (insert t.public (with_tunnel to_lower t (group_for t groups)) groups) ts
        public host
      ∙ ap (λ o. last_serving o public host ts) (route-insert groups t public host)

  -- groupHTTPTunnels: one tunnel for each address and host, the last.
  pub route-group_http_tunnels :
      (ts : List Tunnel) (public host : Bytes)
      → route (group_http_tunnels to_lower ts) public host ≡ last_serving none public host ts
  unfolding lookup
  route-group_http_tunnels ts public host = route-group_tunnels [] ts public host
