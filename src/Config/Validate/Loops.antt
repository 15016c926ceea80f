-- ===== src/Config/Validate/Loops.antt =====
-- internal/config/config.go: the loops of Validate and ValidateEdge decide what the specification says.
use faketunnel.Base.{
  ℕ, ◌+◌, ◌≡◌, refl, inl, inr, not, ◌&&◌, ◌||◌, List, [], ◌∷◌, map, arith, Bool-cases, ok,
  Result-cases, all, is_ok, Bytes, text_eq, text_eq_iff,
}
use faketunnel.Base.Maps.{contains, add}
use faketunnel.Config.File.{File, Tunnel, of_kind}
use faketunnel.Config.Addr.{addr_port}
use faketunnel.Config.Validate.{
  Error, check_tunnels, check_publics, check_conflicts, validate_listen_conflicts,
}
use faketunnel.Config.Validate.Spec.{
  name_of, public_of, distinct, absent_from, has_ends, keeps_port, ports_valid, typed_tunnel,
  tunnel_valid,
}

pub text_eq_sym : (a b : Bytes) → text_eq a b ≡ text_eq b a
text_eq_sym a b = ground (arith, text_eq_iff a b, text_eq_iff b a)

pub absent-contains :
    (x : Bytes) (xs seen : List Bytes)
    → all (absent_from (add x seen)) xs ≡ (all (absent_from seen) xs && not (contains x xs))
unfolding contains add
absent-contains x [] seen = refl
absent-contains x (y ∷ ys) seen = ground (arith, absent-contains x ys seen, text_eq_sym x y)

pub check_tunnels_lem :
    (to_lower : Bytes → Bytes) (i : ℕ) (names : List Bytes) (ts : List Tunnel)
    → is_ok (check_tunnels to_lower i names ts) ≡ (
        all (tunnel_valid to_lower) ts
        && (distinct (map name_of ts) && all (absent_from names) (map name_of ts)))
unfolding check_tunnels distinct
check_tunnels_lem to_lower i names [] = refl
check_tunnels_lem to_lower i names (t ∷ ts) = ground (
  arith,
  check_tunnels_lem to_lower (i + 1) (add t.name names) ts,
  absent-contains t.name (map name_of ts) names,
)

pub check_tunnels-eq-ok :
    (to_lower : Bytes → Bytes) (i : ℕ) (names : List Bytes) (ts us : List Tunnel)
    → check_tunnels to_lower i names ts ≡ ok us
    → us ≡ map (typed_tunnel to_lower) ts
unfolding check_tunnels
check_tunnels-eq-ok to_lower i names [] us h = ground (arith, h)
check_tunnels-eq-ok to_lower i names (t ∷ ts) us h =
    elim (Result-cases (check_tunnels to_lower (i + 1) (add t.name names) ts)) [
      | inl p ↦
          let (ws, e) = p in
          let tail = check_tunnels-eq-ok to_lower (i + 1) (add t.name names) ts ws e in
          ground (arith, h, e, tail)
      | inr p ↦ let (why, e) = p in absurd (ground (arith, h, e))
    ]

pub check_publics_lem :
    (kind : Bytes) (duplicate : Bytes → Error) (seen : List Bytes) (ts : List Tunnel)
    → is_ok (check_publics kind duplicate seen ts) ≡ (
        all has_ends (of_kind kind ts)
        && (distinct (map public_of (of_kind kind ts))
            && all (absent_from seen) (map public_of (of_kind kind ts))))
unfolding check_publics of_kind distinct
check_publics_lem kind duplicate seen [] = refl
check_publics_lem kind duplicate seen (t ∷ ts) = elim (Bool-cases (text_eq t.kind kind)) [
  | inl e ↦ ground (
    arith,
    e,
    check_publics_lem kind duplicate (add t.public seen) ts,
    absent-contains t.public (map public_of (of_kind kind ts)) seen,
  )
  | inr e ↦ rw e (check_publics_lem kind duplicate seen ts)
]

pub contains-check_publics :
    (kind : Bytes) (duplicate : Bytes → Error) (seen : List Bytes) (ts : List Tunnel)
    (out : List Bytes) (x : Bytes)
    → check_publics kind duplicate seen ts ≡ ok out
    → contains x out ≡ (contains x (map public_of (of_kind kind ts)) || contains x seen)
unfolding check_publics of_kind contains add
contains-check_publics kind duplicate seen [] out x h = ground (arith, h)
contains-check_publics kind duplicate seen (t ∷ ts) out x h =
    elim (Bool-cases (text_eq t.kind kind)) [
      | inl e ↦
          let rest = contains-check_publics kind duplicate (add t.public seen) ts out x in
          ground (arith, h, e, rest)
      | inr e ↦ rw e (contains-check_publics kind duplicate seen ts out x (ground (arith, h, e)))
    ]

check_conflicts_lem :
    (port : Bytes) (ts : List Tunnel) → is_ok (check_conflicts port ts) ≡ all (keeps_port port) ts
unfolding check_conflicts
check_conflicts_lem port [] = refl
check_conflicts_lem port (t ∷ ts) = ground (arith, check_conflicts_lem port ts)

pub validate_listen_conflicts_lem : (c : File) → is_ok (validate_listen_conflicts c) ≡ ports_valid c
unfolding validate_listen_conflicts
validate_listen_conflicts_lem c = ground (arith, check_conflicts_lem (addr_port c.listen) c.tunnels)
