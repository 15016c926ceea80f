-- ===== src/Config/Validate/Groups.antt =====
-- internal/config/config.go: the http loop of ValidateEdge decides what the specification says.
use faketunnel.Base.{
  ◌≡◌, refl, inl, inr, Bool, true, false, not, ◌&&◌, none, some, List, [], ◌∷◌, arith, Bool-cases,
  Option-cases, ok, all, pairwise, is_ok, Bytes, text_eq, text_eq_iff,
}
use faketunnel.Base.Maps.{lookup, insert, contains, add, lookup-insert}
use faketunnel.Config.File.{File, Tunnel, type_http, of_kind}
use faketunnel.Config.Validate.{
  GroupMeta, differ, group_of, check_http, check_groups, normalize_config_host,
}
use faketunnel.Config.Validate.Spec.{http_valid, compatible}

module _ (to_lower : Bytes → Bytes) where
  -- a tunnel fits in with the groups so far
  abbrev pub fits : List (Bytes × GroupMeta) → Tunnel → Bool
  fits groups t = elim (lookup t.public groups) [
    | none ↦ true
    | some g ↦
        not (differ g.tls t.tls) && not (contains (normalize_config_host to_lower t.host) g.hosts)
  ]

  abbrev grown : List (Bytes × GroupMeta) → Tunnel → GroupMeta
  grown groups t =
      let g = group_of to_lower t groups in
      record g { hosts = add (normalize_config_host to_lower t.host) g.hosts }

  fits-insert :
      (groups : List (Bytes × GroupMeta)) (t u : Tunnel)
      → fits groups t ≡ true
      → fits (insert t.public (grown groups t) groups) u
        ≡ (fits groups u && compatible to_lower t u)
  unfolding contains add
  fits-insert groups t u h = elim (Bool-cases (text_eq t.public u.public)) [
    | inl e ↦ elim (Option-cases (lookup t.public groups)) [
      | inl none_yet ↦ ground (
        arith,
        e,
        none_yet,
        (text_eq_iff t.public u.public).0 e,
        lookup-insert t.public u.public (grown groups t) groups,
      )
      | inr p ↦
          let (g, there) = p in
          ground (
            arith,
            h,
            e,
            there,
            (text_eq_iff t.public u.public).0 e,
            lookup-insert t.public u.public (grown groups t) groups,
          )
    ]
    | inr e ↦ ground (arith, e, lookup-insert t.public u.public (grown groups t) groups)
  ]

  fits_everywhere :
      (groups : List (Bytes × GroupMeta)) (t : Tunnel) (us : List Tunnel)
      → fits groups t ≡ true
      → all (fits (insert t.public (grown groups t) groups)) us
        ≡ (all (fits groups) us && all (compatible to_lower t) us)
  fits_everywhere groups t [] h = refl
  fits_everywhere groups t (u ∷ us) h =
      ground (arith, fits-insert groups t u h, fits_everywhere groups t us h)

  check_http_passes :
      (c : File) (tcp : List Bytes) (groups : List (Bytes × GroupMeta)) (t : Tunnel)
      → (http_valid to_lower c tcp t && fits groups t) ≡ true
      → check_http to_lower c tcp groups t ≡ ok (grown groups t)
  unfolding check_http contains
  check_http_passes c tcp groups t h = elim (Option-cases (lookup t.public groups)) [
    | inl none_yet ↦ ground (arith, h, none_yet)
    | inr p ↦ let (g, there) = p in ground (arith, h, there)
  ]

  check_http_fails :
      (c : File) (tcp : List Bytes) (groups : List (Bytes × GroupMeta)) (t : Tunnel)
      → (http_valid to_lower c tcp t && fits groups t) ≡ false
      → is_ok (check_http to_lower c tcp groups t) ≡ false
  unfolding check_http contains
  check_http_fails c tcp groups t h = elim (Option-cases (lookup t.public groups)) [
    | inl none_yet ↦ ground (arith, h, none_yet)
    | inr p ↦ let (g, there) = p in ground (arith, h, there)
  ]

  pub check_groups_lem :
      (c : File) (tcp : List Bytes) (groups : List (Bytes × GroupMeta)) (ts : List Tunnel)
      → is_ok (check_groups to_lower c tcp groups ts) ≡ (
          all (http_valid to_lower c tcp) (of_kind type_http ts)
          && (all (fits groups) (of_kind type_http ts)
              && pairwise (compatible to_lower) (of_kind type_http ts)))
  unfolding check_groups of_kind
  check_groups_lem c tcp groups [] = refl
  check_groups_lem c tcp groups (t ∷ ts) = elim (Bool-cases (text_eq t.kind type_http)) [
    | inr e ↦ rw e (check_groups_lem c tcp groups ts)
    | inl e ↦ rw e (elim (Bool-cases (http_valid to_lower c tcp t && fits groups t)) [
      | inl h ↦ ground (
        arith,
        h,
        check_http_passes c tcp groups t h,
        check_groups_lem c tcp (insert t.public (grown groups t) groups) ts,
        fits_everywhere groups t (of_kind type_http ts),
      )
      | inr h ↦ ground (arith, h, check_http_fails c tcp groups t h)
    ])
  ]
