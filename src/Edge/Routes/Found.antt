-- ===== src/Edge/Routes/Found.antt =====
-- internal/edge/http.go: the listener of a public address routes as the list of tunnels says.
use mathlib.Core.Path.{subst}
use faketunnel.Base.Maps.{AllValues, insert-AllValues, lookup-AllValues}
use faketunnel.Base.{
  ◌≡◌, sym, inl, inr, true, false, Option, none, some, List, [], ◌∷◌, map, arith, if◌then◌else◌,
  Bool-cases, Option-cases, All, Bytes, text_eq_iff, text_eq_refl,
}
use faketunnel.Base.Spaces.Ends.{trim_space-Plain}
use faketunnel.Base.Maps.{lookup, insert, contains}
use faketunnel.Config.File.{Tunnel, is_empty, find_tunnel}
use faketunnel.Proxy.Host.{normalize_host, match_host}
use faketunnel.Config.Validate.Spec.{name_of, distinct}
use faketunnel.Edge.Routes.{
  HttpGroup, listener_of, group_for, with_tunnel, group_tunnels, group_http_tunnels, matched,
  catch_all, lookup_http_tunnel,
}
use faketunnel.Edge.Routes.Groups.{last_serving, route-group_http_tunnels}
use faketunnel.Edge.Routes.Lookup.{host_names_by_host, host_names_empty, IsNamed, by_name_lem}

-- tunnels of distinct names are found by them
module _ (t : Tunnel) where
  others_found :
      (ts us : List Tunnel)
      → contains t.name (map name_of us) ≡ false
      → All (λ u. find_tunnel u.name ts ≡ some u) us
      → All (λ u. find_tunnel u.name (t ∷ ts) ≡ some u) us
  unfolding contains find_tunnel
  others_found ts [] h found = tt
  others_found ts (u ∷ us) h found = (
    ground (arith, h, found.0, text_eq_iff t.name u.name, text_eq_iff u.name t.name),
    others_found ts us (ground (arith, h)) found.1,
  )

pub distinct_found :
    (ts : List Tunnel)
    → distinct (map name_of ts) ≡ true
    → All (λ t. find_tunnel t.name ts ≡ some t) ts
unfolding distinct
distinct_found [] h = tt
distinct_found (t ∷ ts) h = (
  unfold find_tunnel in ground (arith, text_eq_refl t.name),
  others_found t ts ts (ground (arith, h)) (distinct_found ts (ground (arith, h))),
)

IsNamed-All :
    (ts us : List Tunnel)
    → All (λ u. find_tunnel u.name ts ≡ some u) us
    → All (λ u. is_empty u.name ≡ false) us
    → All (IsNamed ts) us
IsNamed-All ts [] found full = tt
IsNamed-All ts (u ∷ us) found full = ((found.0, full.0), IsNamed-All ts us found.1 full.1)

module _ (to_lower : Bytes → Bytes) (ts : List Tunnel) where
  abbrev GroupNamed : HttpGroup → Type 0
  GroupNamed g = AllValues (IsNamed ts) g.by_host

  group_for_named :
      (groups : List (Bytes × HttpGroup)) (t : Tunnel)
      → AllValues GroupNamed groups
      → IsNamed ts t
      → GroupNamed (with_tunnel to_lower t (group_for t groups))
  group_for_named groups t h ht =
      insert-AllValues (IsNamed ts) (normalize_host to_lower t.host) t (group_for t groups).by_host
        (elim (Option-cases (lookup t.public groups)) [
          | inl e ↦
              let new : (group_for t groups).by_host ≡ [] = ground (arith, e) in
              subst (AllValues (IsNamed ts)) (sym new) tt
          | inr p ↦
              let (g, e) = p in
              let old : g ≡ group_for t groups = ground (arith, e) in
              subst GroupNamed old (lookup-AllValues GroupNamed t.public groups h e)
        ])
        ht

  group_tunnels_named :
      (groups : List (Bytes × HttpGroup)) (us : List Tunnel)
      → AllValues GroupNamed groups
      → All (IsNamed ts) us
      → AllValues GroupNamed (group_tunnels to_lower groups us)
  unfolding group_tunnels
  group_tunnels_named groups [] h hu = h
  group_tunnels_named groups (t ∷ us) h hu =
      let g = with_tunnel to_lower t (group_for t groups) in
      group_tunnels_named (insert t.public g groups) us
        (insert-AllValues GroupNamed t.public g groups h (group_for_named groups t h hu.0)) hu.1

  -- by the host itself, or not at all
  abbrev by_host : Bytes → Bytes → Option Tunnel
  by_host public host = last_serving to_lower none public host ts

  -- the first candidate that has a tunnel decides, and the catch-all where none has
  unfoldable pub choose : Bytes → List Bytes → Option Tunnel
  choose public [] = by_host public []
  choose public (host ∷ hosts) =
      let key = normalize_host to_lower host in
      let rest = choose public hosts in
      if is_empty key then rest else elim (by_host public key) [ some t ↦ some t | none ↦ rest ]

  module _ (public : Bytes) (g : HttpGroup)
      (there : lookup public (group_http_tunnels to_lower ts) ≡ some g) (named : GroupNamed g) where
    abbrev key_of : Bytes → Bytes
    key_of = normalize_host to_lower

    by_host_lem : (host : Bytes) → lookup host g.by_host ≡ by_host public host
    by_host_lem host = ground (arith, there, route-group_http_tunnels to_lower ts public host)

    matched_lem :
        (host : Bytes)
        → matched to_lower (listener_of g) host
          ≡ (if is_empty (key_of host) then none else by_host public (key_of host))
    unfolding match_host
    matched_lem host = elim (Bool-cases (is_empty (key_of host))) [
      | inl e ↦ ground (arith, e)
      | inr e ↦
          let names = host_names_by_host g.by_host (key_of host) e in
          elim (Option-cases (lookup (key_of host) g.by_host)) [
            | inl missing ↦ ground (arith, e, names, missing, by_host_lem (key_of host))
            | inr p ↦
                let (t, found) = p in
                ground (
                  arith,
                  e,
                  names,
                  found,
                  by_host_lem (key_of host),
                  by_name_lem ts g.by_host (key_of host) t named found,
                )
          ]
    ]

    catch_all_lem : catch_all (listener_of g) ≡ by_host public []
    catch_all_lem =
        let name = host_names_empty g.by_host in
        elim (Option-cases (lookup [] g.by_host)) [
          | inl missing ↦ ground (arith, name, missing, by_host_lem [])
          | inr p ↦
              let (t, found) = p in
              ground (
                arith,
                name,
                found,
                by_host_lem [],
                by_name_lem ts g.by_host [] t named found,
                lookup-AllValues (IsNamed ts) [] g.by_host named found,
              )
        ]

    no_host : (host : Bytes) → is_empty host ≡ true → is_empty (key_of host) ≡ true
    unfolding normalize_host
    no_host [] h = ground (arith, trim_space-Plain [] tt)
    no_host (b ∷ host) h = absurd (ground (arith, h))

    listener_lem :
        (hosts : List Bytes)
        → lookup_http_tunnel to_lower (listener_of g) hosts ≡ choose public hosts
    unfolding lookup_http_tunnel choose
    listener_lem [] = catch_all_lem
    listener_lem (host ∷ hosts) = ground (arith, listener_lem hosts, matched_lem host, no_host host)

  -- On a listener that startHTTP makes of tunnels with distinct, non-empty names,
  -- lookupHTTPTunnel gives the last tunnel of the address that serves the first of the hosts
  -- that any serves, and the last catch-all where none does.
  pub lookup_http_tunnel_lem :
      (public : Bytes) (g : HttpGroup) (hosts : List Bytes)
      → distinct (map name_of ts) ≡ true
      → All (λ t. is_empty t.name ≡ false) ts
      → lookup public (group_http_tunnels to_lower ts) ≡ some g
      → lookup_http_tunnel to_lower (listener_of g) hosts ≡ choose public hosts
  lookup_http_tunnel_lem public g hosts names full there =
      let nothing : AllValues GroupNamed [] = tt in
      let known = IsNamed-All ts ts (distinct_found ts names) full in
      let groups = group_tunnels_named [] ts nothing known in
      listener_lem public g there
        (lookup-AllValues GroupNamed public (group_http_tunnels to_lower ts) groups there) hosts
