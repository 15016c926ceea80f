-- ===== src/Config/Validate/Decides.antt =====
-- internal/config/config.go: Validate and ValidateEdge decide what the specification says.
use faketunnel.Base.{
  ◌≡◌, refl, ap, ◌∙◌, inl, inr, Bool, true, false, ◌&&◌, ◌||◌, List, [], ◌∷◌, map, arith, Result,
  ok, err, ◌>>◌, Result-cases, all, is_ok, Bytes,
}
use faketunnel.Base.Maps.{lookup, contains}
use faketunnel.Config.File.{
  File, Tunnel, type_tcp, type_udp, http_tunnels, tcp_tunnels, udp_tunnels,
}
use faketunnel.Config.Validate.{
  Error, check_tunnels, validate, validate_edge, check_edge, check_routes, check_publics,
  check_groups, validate_public_admin, check_admin, duplicate_public, duplicate_udp,
}
use faketunnel.Config.Validate.Spec.{
  edge_valid, admin_valid, public_token_valid, http_valid, typed, base_valid, routes_valid,
  public_of, name_of, absent_from,
}
use faketunnel.Config.Validate.Loops.{
  contains-check_publics, check_tunnels_lem, check_tunnels-eq-ok, check_publics_lem,
  validate_listen_conflicts_lem,
}
use faketunnel.Config.Validate.Groups.{check_groups_lem, fits}

contains_none : (x : Bytes) → contains x [] ≡ false
unfolding contains
contains_none x = refl

pub all_absent : (xs : List Bytes) → all (absent_from []) xs ≡ true
unfolding contains
all_absent [] = refl
all_absent (x ∷ xs) = all_absent xs

module _ (to_lower : Bytes → Bytes) where
  -- Validate passes exactly the configurations with a token, named and typed tunnels of distinct
  -- names, and no negative cap, and changes nothing but the spelling of the types.
  pub validate_lem :
      (c : File)
      → (is_ok (validate to_lower c) ≡ base_valid to_lower c)
        × ((v : File) → validate to_lower c ≡ ok v → v ≡ typed to_lower c)
  unfolding validate base_valid
  validate_lem c =
      let names = check_tunnels_lem to_lower 0 [] c.tunnels in
      let fresh = all_absent (map name_of c.tunnels) in
      elim (Result-cases (check_tunnels to_lower 0 [] c.tunnels)) [
        | inl p ↦
            let (ts, e) = p in
            let spelled = check_tunnels-eq-ok to_lower 0 [] c.tunnels ts e in
            (ground (arith, e, names, fresh), λ v h. ground (arith, e, h, spelled))
        | inr p ↦
            let (why, e) = p in
            (ground (arith, e, names, fresh), λ v h. absurd (ground (arith, e, h)))
      ]

  all_fit : (ts : List Tunnel) → all (fits to_lower []) ts ≡ true
  unfolding lookup
  all_fit [] = refl
  all_fit (t ∷ ts) = all_fit ts

  every_http_valid :
      (c : File) (xs ys : List Bytes) (ts : List Tunnel)
      → ((x : Bytes) → contains x xs ≡ contains x ys)
      → all (http_valid to_lower c xs) ts ≡ all (http_valid to_lower c ys) ts
  every_http_valid c xs ys [] same = refl
  every_http_valid c xs ys (t ∷ ts) same =
      rw (same t.public) (ap (◌&&◌ (http_valid to_lower c ys t)) (every_http_valid c xs ys ts same))

  check_routes_lem : (c : File) → is_ok (check_routes to_lower c) ≡ routes_valid to_lower c
  unfolding check_routes routes_valid
  check_routes_lem c =
      let tcp_spec = check_publics_lem type_tcp duplicate_public [] c.tunnels in
      let tcp_fresh = all_absent (map public_of (tcp_tunnels c)) in
      let udp_spec = check_publics_lem type_udp duplicate_udp [] c.tunnels in
      let udp_fresh = all_absent (map public_of (udp_tunnels c)) in
      elim (Result-cases (check_publics type_tcp duplicate_public [] c.tunnels)) [
        | inr p ↦ let (why, e) = p in ground (arith, e, tcp_spec, tcp_fresh)
        | inl p ↦
            let (tcp, e) = p in
            let same : (x : Bytes) → contains x tcp ≡ contains x (map public_of (tcp_tunnels c)) =
              λ x. ground (
                arith,
                contains-check_publics type_tcp duplicate_public [] c.tunnels tcp x e,
                contains_none x,
              ) in
            let each =
              every_http_valid c tcp (map public_of (tcp_tunnels c)) (http_tunnels c) same in
            let http_spec = check_groups_lem to_lower c tcp [] c.tunnels in
            let http_fresh = all_fit (http_tunnels c) in
            elim (Result-cases (check_publics type_udp duplicate_udp [] c.tunnels)) [
              | inr q ↦
                  let (why, d) = q in ground (arith, e, d, tcp_spec, tcp_fresh, udp_spec, udp_fresh)
              | inl q ↦
                  let (udp, d) = q in
                  let last = validate_listen_conflicts_lem c in
                  elim (Result-cases (check_groups to_lower c tcp [] c.tunnels)) [
                    | inl r ↦
                        let (gs, f) = r in
                        ground (
                          arith, e, d, f, tcp_spec, tcp_fresh, udp_spec, udp_fresh, each, http_spec,
                          http_fresh, last,
                        )
                    | inr r ↦
                        let (why, f) = r in
                        ground (
                          arith, e, d, f, tcp_spec, tcp_fresh, udp_spec, udp_fresh, each, http_spec,
                          http_fresh,
                        )
                  ]
            ]
      ]

module _ (is_loopback : Bytes → Bool) where
  check_public_admin_lem :
      (c : File)
      → is_ok (validate_public_admin is_loopback c)
        ≡ (is_loopback c.admin.listen || public_token_valid c)
  unfolding validate_public_admin
  check_public_admin_lem c = ground arith

  check_admin_lem : (c : File) → is_ok (check_admin is_loopback c) ≡ admin_valid is_loopback c
  unfolding check_admin
  check_admin_lem c = ground (arith, check_public_admin_lem c)

  check_edge_lem : (c : File) → is_ok (check_edge is_loopback c) ≡ edge_valid is_loopback c
  unfolding check_edge edge_valid
  check_edge_lem c = ground (arith, check_admin_lem c)

both_pass :
    (r s : Result Error (Unit {0})) (v w : File)
    → (is_ok (r >> s >> ok v) ≡ (is_ok r && is_ok s)) × ((r >> s >> ok v) ≡ ok w → w ≡ v)
both_pass (ok a) (ok b) v w = ground arith
both_pass (ok a) (err e) v w = ground arith
both_pass (err e) s v w = ground arith

module _ (to_lower : Bytes → Bytes) (is_loopback : Bytes → Bool) where
  validate_edge_parts :
      (c : File)
      → (is_ok (validate_edge to_lower is_loopback c) ≡ (
          base_valid to_lower c
          && (edge_valid is_loopback (typed to_lower c)
              && routes_valid to_lower (typed to_lower c))))
        × ((v : File) → validate_edge to_lower is_loopback c ≡ ok v → v ≡ typed to_lower c)
  unfolding validate_edge
  validate_edge_parts c =
      let (decided, spelled) = validate_lem to_lower c in
      elim (Result-cases (validate to_lower c)) [
        | inr p ↦
            let (why, e) = p in (ground (arith, decided, e), λ v h. absurd (ground (arith, h, e)))
        | inl p ↦
            let (u, e) = p in
            let same : u ≡ typed to_lower c = spelled u e in
            let base : base_valid to_lower c ≡ true = ground (arith, decided, e) in
            let passes =
              both_pass (check_edge is_loopback (typed to_lower c))
                (check_routes to_lower (typed to_lower c)) (typed to_lower c) in
            rw (e, same, base)
              (
                (passes (typed to_lower c)).0
                    ∙ (ap (λ b. b && is_ok (check_routes to_lower (typed to_lower c)))
                          (check_edge_lem is_loopback (typed to_lower c))
                        ∙ ap (◌&&◌ (edge_valid is_loopback (typed to_lower c)))
                            (check_routes_lem to_lower (typed to_lower c))),
                λ v h. (passes v).1 h,
              )
      ]

  -- Edge accepts a configuration exactly where its description holds: the general conditions,
  -- the required fields, the rules for an admin address, no two TCP and no two UDP tunnels on
  -- one public address, HTTP tunnels that have certificates and agree on TLS and differ in host
  -- on each address, and no TCP or HTTP port that is also the tunnel's.
  pub validate_edge_lem :
      (c : File)
      → is_ok (validate_edge to_lower is_loopback c) ≡ (
          base_valid to_lower c
          && (edge_valid is_loopback (typed to_lower c)
              && routes_valid to_lower (typed to_lower c)))
  validate_edge_lem c = (validate_edge_parts c).0

  -- It changes nothing but the spelling of the types.
  pub validate_edge-eq-ok :
      (c v : File) → validate_edge to_lower is_loopback c ≡ ok v → v ≡ typed to_lower c
  validate_edge-eq-ok c v h = (validate_edge_parts c).1 v h
