-- ===== src/Edge/Routes/Validated.antt =====
-- internal/edge/http.go on what internal/config/config.go lets through: every HTTP tunnel of a valid
-- configuration is reached by its own host.
use mathlib.Core.Path.{subst}
use faketunnel.Base.{
  ◌≡◌, refl, sym, ap, ◌∙◌, inl, inr, Bool, true, false, not, Option, none, some, List, [], ◌∷◌,
  ◌++◌, map, arith, if◌then◌else◌, Bool-cases, All, ok, all, pairwise, Bytes, text_eq, text_eq_refl,
}
use faketunnel.Base.Spaces.{trim_space}
use faketunnel.Base.Spaces.Ends.{trim_space-Plain}
use faketunnel.Base.Maps.{lookup, contains}
use faketunnel.Base.Scan.{has_prefix, split}
use faketunnel.Config.File.{File, Tunnel, is_empty, is_blank}
use faketunnel.Proxy.Host.{normalize_host, normalize_host-normalize_config_host}
use faketunnel.Config.File.{type_http, of_kind, http_tunnels}
use faketunnel.Config.Validate.{normalize_config_host, validate_edge}
use faketunnel.Config.Validate.Spec.{
  name_of, distinct, compatible, base_valid, routes_valid, typed, typed_tunnel, tunnel_valid,
}
use faketunnel.Config.Validate.Decides.{validate_edge_lem, validate_edge-eq-ok}
use faketunnel.Config.Validate.Loops.{text_eq_sym}
use faketunnel.Edge.Routes.{HttpGroup, listener_of, group_http_tunnels, lookup_http_tunnel}
use faketunnel.Edge.Routes.Groups.{serves, last_serving}
use faketunnel.Edge.Routes.Found.{choose, lookup_http_tunnel_lem}

-- a host in brackets, an IPv6 literal
abbrev pub is_bracketed : Tunnel → Bool
is_bracketed t = has_prefix (trim_space t.host) (91 ∷ [])

abbrev pub unbracketed : Tunnel → Bool
unbracketed t = not (is_bracketed t)

module _ (to_lower : Bytes → Bytes) where
  none_serves :
      (before : Option Tunnel) (public host : Bytes) (us : List Tunnel)
      → all (λ u. not (serves to_lower public host u)) us ≡ true
      → last_serving to_lower before public host us ≡ before
  unfolding last_serving
  none_serves before public host [] h = refl
  none_serves before public host (u ∷ us) h =
      let first : (if serves to_lower public host u then some u else before) ≡ before =
        ground (arith, h) in
      ap (λ o. last_serving to_lower o public host us) first
      ∙ none_serves before public host us (ground (arith, h))

  later_differ :
      (t : Tunnel) (us : List Tunnel)
      → unbracketed t ≡ true
      → all unbracketed us ≡ true
      → all (compatible to_lower t) us ≡ true
      → all (λ u. not (serves to_lower t.public (normalize_host to_lower t.host) u)) us ≡ true
  later_differ t [] ht hu h = refl
  later_differ t (u ∷ us) ht hu h =
      let rest = later_differ t us ht (ground (arith, hu)) (ground (arith, h)) in
      let one = normalize_host-normalize_config_host to_lower t.host (ground (arith, ht)) in
      let two = normalize_host-normalize_config_host to_lower u.host (ground (arith, hu)) in
      let hosts =
        text_eq_sym (normalize_config_host to_lower u.host)
          (normalize_config_host to_lower t.host) in
      let publics = text_eq_sym u.public t.public in
      ground (arith, h, rest, one, two, hosts, publics)

  served :
      (acc : Option Tunnel) (before after : List Tunnel) (t : Tunnel)
      → pairwise (compatible to_lower) (before ++ t ∷ after) ≡ true
      → all unbracketed (before ++ t ∷ after) ≡ true
      → last_serving to_lower acc t.public (normalize_host to_lower t.host) (before ++ t ∷ after)
        ≡ some t
  unfolding last_serving
  served acc [] after t h hu =
      let self : serves to_lower t.public (normalize_host to_lower t.host) t ≡ true =
        ground (arith, text_eq_refl t.public, text_eq_refl (normalize_host to_lower t.host)) in
      let later =
        later_differ t after (ground (arith, hu)) (ground (arith, hu)) (ground (arith, h)) in
      let first : (if serves to_lower t.public (normalize_host to_lower t.host) t
            then some t
            else acc)
          ≡ some t =
        ground (arith, self) in
      ap (λ o. last_serving to_lower o t.public (normalize_host to_lower t.host) after) first
      ∙ (none_serves (some t) t.public (normalize_host to_lower t.host) after later)
  served acc (u ∷ before) after t h hu =
      served (if serves to_lower t.public (normalize_host to_lower t.host) u then some u else acc)
        before after t (ground (arith, h)) (ground (arith, hu))

contains-of_kind :
    (n : Bytes) (kind : Bytes) (ts : List Tunnel)
    → contains n (map name_of ts) ≡ false
    → contains n (map name_of (of_kind kind ts)) ≡ false
unfolding contains of_kind
contains-of_kind n kind [] h = refl
contains-of_kind n kind (t ∷ ts) h = ground (arith, h, contains-of_kind n kind ts)

distinct-of_kind :
    (kind : Bytes) (ts : List Tunnel)
    → distinct (map name_of ts) ≡ true
    → distinct (map name_of (of_kind kind ts)) ≡ true
unfolding distinct of_kind
distinct-of_kind kind [] h = refl
distinct-of_kind kind (t ∷ ts) h =
    ground (arith, h, distinct-of_kind kind ts, contains-of_kind t.name kind ts)

not_blank : (s : Bytes) → not (is_blank s) ≡ true → is_empty s ≡ false
not_blank [] h = absurd (ground (arith, h, trim_space-Plain [] tt))
not_blank (b ∷ s) h = ground arith

full_names :
    (kind : Bytes) (ts : List Tunnel)
    → all (λ t. not (is_blank t.name)) ts ≡ true
    → All (λ t. is_empty t.name ≡ false) (of_kind kind ts)
unfolding of_kind
full_names kind [] h = tt
full_names kind (t ∷ ts) h = elim (Bool-cases (text_eq t.kind kind)) [
  | inl e ↦ rw e (not_blank t.name (ground (arith, h)), full_names kind ts (ground (arith, h)))
  | inr e ↦ rw e (full_names kind ts (ground (arith, h)))
]

names_typed :
    (to_lower : Bytes → Bytes) (ts : List Tunnel)
    → map name_of (map (typed_tunnel to_lower) ts) ≡ map name_of ts
names_typed to_lower [] = refl
names_typed to_lower (t ∷ ts) = ap (◌∷◌ t.name) (names_typed to_lower ts)

named_typed :
    (to_lower : Bytes → Bytes) (ts : List Tunnel)
    → all (tunnel_valid to_lower) ts ≡ true
    → all (λ t. not (is_blank t.name)) (map (typed_tunnel to_lower) ts) ≡ true
named_typed to_lower [] h = refl
named_typed to_lower (t ∷ ts) h = ground (arith, h, named_typed to_lower ts)

empty_text : (s : Bytes) → is_empty s ≡ true → s ≡ []
empty_text [] h = refl
empty_text (b ∷ s) h = absurd (ground (arith, h))

abbrev Names : List Tunnel → Type 0
Names ts = (distinct (map name_of ts) ≡ true) × (all (λ t. not (is_blank t.name)) ts ≡ true)

module _ (to_lower : Bytes → Bytes) (is_loopback : Bytes → Bool) (c v : File)
    (valid : validate_edge to_lower is_loopback c ≡ ok v) where
  valid-Names : Names v.tunnels
  unfolding base_valid
  valid-Names =
      let spec = validate_edge_lem to_lower is_loopback c in
      let spelled : v.tunnels ≡ map (typed_tunnel to_lower) c.tunnels =
        ap (λ f. f.tunnels) (validate_edge-eq-ok to_lower is_loopback c v valid) in
      let sound : base_valid to_lower c ≡ true = ground (arith, spec, valid) in
      let names : Names (map (typed_tunnel to_lower) c.tunnels) = (
        ap distinct (names_typed to_lower c.tunnels) ∙ ground (arith, sound),
        named_typed to_lower c.tunnels (ground (arith, sound)),
      ) in
      subst Names (sym spelled) names

  valid_routes : pairwise (compatible to_lower) (http_tunnels v) ≡ true
  unfolding routes_valid
  valid_routes =
      let spec = validate_edge_lem to_lower is_loopback c in
      let sound : routes_valid to_lower (typed to_lower c) ≡ true = ground (arith, spec, valid) in
      let same = validate_edge-eq-ok to_lower is_loopback c v valid in
      let here : routes_valid to_lower v ≡ true =
        subst (λ f. routes_valid to_lower f ≡ true) (sym same) sound in
      ground (arith, here)

-- In a configuration that Edge accepts, where no host is a literal in brackets, an HTTP tunnel
-- is what its listener's table gives for the tunnel's own host.
pub lookup_http_tunnel-validate_edge :
    (to_lower : Bytes → Bytes) (is_loopback : Bytes → Bool) (c v : File)
    (before after : List Tunnel) (t : Tunnel) (g : HttpGroup)
    → validate_edge to_lower is_loopback c ≡ ok v
    → http_tunnels v ≡ before ++ t ∷ after
    → all unbracketed (http_tunnels v) ≡ true
    → lookup t.public (group_http_tunnels to_lower (http_tunnels v)) ≡ some g
    → lookup_http_tunnel to_lower (listener_of g) (t.host ∷ []) ≡ some t
unfolding choose
lookup_http_tunnel-validate_edge to_lower is_loopback c v before after t g valid split plain there =
    let (names, full) = valid-Names to_lower is_loopback c v valid in
    let found =
      lookup_http_tunnel_lem to_lower (http_tunnels v) t.public g (t.host ∷ [])
        (distinct-of_kind type_http v.tunnels names) (full_names type_http v.tunnels full) there in
    let routes = valid_routes to_lower is_loopback c v valid in
    let here : last_serving to_lower none t.public (normalize_host to_lower t.host) (http_tunnels v)
        ≡ some t =
      rw split (
        served to_lower none before after t
          (subst (λ l. pairwise (compatible to_lower) l ≡ true) split routes)
          (subst (λ l. all unbracketed l ≡ true) split plain)) in
    let key = normalize_host to_lower t.host in
    found ∙ elim (Bool-cases (is_empty key)) [
      | inl e ↦
          let default : last_serving to_lower none t.public [] (http_tunnels v) ≡ some t =
            subst (λ k. last_serving to_lower none t.public k (http_tunnels v) ≡ some t)
              (empty_text key e) here in
          ground (arith, e, default)
      | inr e ↦ ground (arith, e, here)
    ]
