-- ===== src/Proxy/Local.antt =====
-- internal/proxy/dest.go: which local targets the Agent may dial. `parse_ip` is net.ParseIP and
-- `resolve` net.LookupIP, `none` for an error.
use faketunnel.Base.{
  ℕ, ◌/◌, ◌<◌, ◌≡◌, inl, inr, Bool, true, false, not, ◌&&◌, ◌||◌, Option, none, some, List, [], ◌∷◌,
  arith, ◌==◌, if◌then◌else◌, Option-cases, length, All, Result, ok, err, ◌>>=◌, ◌>>◌, reject_if,
  Result-cases, is_ok, Bytes, IsBytes, text_eq,
}
use faketunnel.Config.File.{is_blank}
use faketunnel.Net.HostPort.{split_host_port}
use faketunnel.Net.{Ip, IpNet, to4, shortest, is_nil, is_unspecified, is_loopback, net_contains}

pub data Error : Type 0 where
  bad_address empty_host empty_port unresolved no_addresses : Error
  invalid_ip not_permitted not_private not_local : Error

abbrev fifteen_zeros : Bytes
fifteen_zeros = 0 ∷ 0 ∷ 0 ∷ 0 ∷ 0 ∷ 0 ∷ 0 ∷ 0 ∷ 0 ∷ 0 ∷ 0 ∷ 0 ∷ 0 ∷ 0 ∷ 0 ∷ []

abbrev v4_net : ℕ → ℕ → ℕ → IpNet
v4_net a b ones = record { address = a ∷ b ∷ 0 ∷ 0 ∷ []; ones = ones; bits = 32 }

abbrev loopback_v4 : IpNet
loopback_v4 = v4_net 127 0 8

abbrev rfc1918a : IpNet
rfc1918a = v4_net 10 0 8

abbrev rfc1918b : IpNet
rfc1918b = v4_net 172 16 12

abbrev rfc1918c : IpNet
rfc1918c = v4_net 192 168 16

abbrev ula_v6 : IpNet
ula_v6 = record { address = 252 ∷ fifteen_zeros; ones = 7; bits = 128 }

-- IP.IsMulticast, of which IP.IsLinkLocalMulticast is a part
unfoldable pub is_multicast : Ip → Bool
is_multicast [] = false
is_multicast (a ∷ rest) = if length rest == 3 then a / 16 == 14 else length rest == 15 && a == 255

unfoldable pub check_ip : Ip → Bool → Result Error (Unit {0})
check_ip given private_only =
    let ip = shortest given in
    if is_nil given
    then err invalid_ip
    else if is_unspecified ip || is_multicast ip
    then err not_permitted
    else if not private_only
    then ok tt
    else if length ip == 4
    then reject_if
        (not (
          net_contains loopback_v4 ip
          || (net_contains rfc1918a ip || (net_contains rfc1918b ip || net_contains rfc1918c ip))))
        not_private
    else reject_if (not (is_loopback ip || net_contains ula_v6 ip)) not_local

abbrev pub is_private_or_loopback : Ip → Bool
is_private_or_loopback ip = is_ok (check_ip ip true)

unfoldable pub check_all : List Ip → Bool → Result Error (Unit {0})
check_all [] private_only = ok tt
check_all (ip ∷ ips) private_only =
    let rest = check_all ips private_only in check_ip ip private_only >> rest

module _ (parse_ip : Bytes → Option Ip) (resolve : Bytes → Option (List Ip)) where
  -- the addresses of a host
  unfoldable pub addresses_of : Bytes → Result Error (List Ip)
  addresses_of host = elim (parse_ip host) [
    | some ip ↦ ok (ip ∷ [])
    | none ↦ elim (resolve host) [
      | none ↦ err unresolved
      | some ips ↦ if length ips == 0 then err no_addresses else ok ips
    ]
  ]

  abbrev checked_addresses : Bool → List Ip → Result Error (Unit {0})
  checked_addresses private_only ips = check_all ips private_only

  unfoldable pub validate_local : Bytes → Bool → Result Error (Unit {0})
  validate_local addr private_only = elim (split_host_port addr) [
    | none ↦ err bad_address
    | some (host, port) ↦
        reject_if (is_blank host) empty_host
        >> reject_if (is_blank port) empty_port
        >> (addresses_of host >>= checked_addresses private_only)
  ]

-- which IPv4 addresses the Agent dials by default
abbrev pub is_private_v4 : ℕ → ℕ → Bool
is_private_v4 a b = a == 127 || (a == 10 || ((a == 172 && b / 16 == 1) || (a == 192 && b == 168)))

abbrev V4 : ℕ → ℕ → ℕ → ℕ → Bytes
V4 a b c d = a ∷ b ∷ c ∷ d ∷ []

by_first_byte :
    (p a b c d : ℕ)
    → p < 256
    → IsBytes (V4 a b c d)
    → net_contains (v4_net p 0 8) (V4 a b c d) ≡ (a == p)
unfolding net_contains shortest to4
by_first_byte p a b c d hp h = ground (arith, hp, h)

in_rfc1918b :
    (a b c d : ℕ)
    → IsBytes (V4 a b c d)
    → net_contains rfc1918b (V4 a b c d) ≡ (a == 172 && b / 16 == 1)
unfolding net_contains shortest to4
in_rfc1918b a b c d h = ground (arith, h)

in_rfc1918c :
    (a b c d : ℕ)
    → IsBytes (V4 a b c d)
    → net_contains rfc1918c (V4 a b c d) ≡ (a == 192 && b == 168)
unfolding net_contains shortest to4
in_rfc1918c a b c d h = ground (arith, h)

never_refused :
    (a b c d : ℕ)
    → is_private_v4 a b ≡ true
    → (is_unspecified (V4 a b c d) || is_multicast (V4 a b c d)) ≡ false
unfolding is_unspecified is_multicast shortest to4 text_eq
never_refused a b c d h = ground (arith, h)

-- Of the IPv4 addresses of four bytes, those that the Agent dials by default are exactly
-- 127.0.0.0/8, 10.0.0.0/8, 172.16.0.0/12 and 192.168.0.0/16.
pub check_ip_v4 :
    (a b c d : ℕ) → IsBytes (V4 a b c d) → is_private_or_loopback (V4 a b c d) ≡ is_private_v4 a b
unfolding check_ip shortest to4
check_ip_v4 a b c d h = ground (
  arith,
  by_first_byte 127 a b c d (omega arith) h,
  by_first_byte 10 a b c d (omega arith) h,
  in_rfc1918b a b c d h,
  in_rfc1918c a b c d h,
  never_refused a b c d,
)

checks_hold :
    (ips : List Ip) (private_only : Bool)
    → check_all ips private_only ≡ ok tt
    → All (λ ip. check_ip ip private_only ≡ ok tt) ips
unfolding check_all
checks_hold [] private_only h = tt
checks_hold (ip ∷ ips) private_only h = elim (Result-cases (check_ip ip private_only)) [
  | inl p ↦
      let (u, e) = p in (ground (arith, e), checks_hold ips private_only (ground (arith, h, e)))
  | inr p ↦ let (why, e) = p in absurd (ground (arith, h, e))
]

module _ (parse_ip : Bytes → Option Ip) (resolve : Bytes → Option (List Ip)) where
  some_address :
      (host : Bytes) (ips : List Ip)
      → addresses_of parse_ip resolve host ≡ ok ips
      → (length ips == 0) ≡ false
  unfolding addresses_of
  some_address host ips h = elim (Option-cases (parse_ip host)) [
    | inr p ↦ let (ip, e) = p in ground (arith, h, e)
    | inl e ↦ elim (Option-cases (resolve host)) [
      | inl f ↦ absurd (ground (arith, h, e, f))
      | inr p ↦ let (found, f) = p in ground (arith, h, e, f)
    ]
  ]

  -- A target passes only if its host has addresses that all pass.
  pub validate_local_lem :
      (addr : Bytes) (private_only : Bool)
      → validate_local parse_ip resolve addr private_only ≡ ok tt
      → (parts : Bytes × Bytes) × (split_host_port addr ≡ some parts)
        × (ips : List Ip) × (addresses_of parse_ip resolve parts.0 ≡ ok ips)
        × ((length ips == 0) ≡ false)
        × All (λ ip. check_ip ip private_only ≡ ok tt) ips
  unfolding validate_local
  validate_local_lem addr private_only h = elim (Option-cases (split_host_port addr)) [
    | inl e ↦ absurd (ground (arith, h, e))
    | inr p ↦
        let (parts, e) = p in
        elim (Result-cases (addresses_of parse_ip resolve parts.0)) [
          | inr q ↦ let (why, f) = q in absurd (ground (arith, h, e, f))
          | inl q ↦
              let (ips, f) = q in
              (
                parts,
                e,
                ips,
                f,
                some_address parts.0 ips f,
                checks_hold ips private_only (ground (arith, h, e, f)),
              )
        ]
  ]
