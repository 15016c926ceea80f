-- ===== src/Acl/Parsing.antt =====
-- internal/acl/allowlist.go: entries, networks, and the list that decides.
-- `parse_ip` is net.ParseIP and `parse_net` the network of net.ParseCIDR, `none` for an error.
use faketunnel.Base.{
  ℕ, ◌+◌, ◌-◌, Bool, false, ◌&&◌, ◌||◌, Option, none, some, List, [], ◌∷◌, leb, ◌==◌, if◌then◌else◌,
  length, Result, ok, err, ◌>>=◌, Bytes,
}
use faketunnel.Base.Spaces.{trim_space}
use faketunnel.Net.{Ip, is_nil, is_unspecified, to4, shortest, IpNet, net_contains}

pub data Error : Type 0 where
  empty_cidr invalid_cidr invalid_ip invalid_mask : Error
  entry : ℕ → Bytes → Error → Error
  adding : Bytes → Error → Error
  removing : Bytes → Error → Error
  save_failed : Error

pub record AllowList : Type 0 where
  pub entries : List Bytes
  pub nets : List IpNet

abbrev pub no_entries : AllowList
no_entries = record { entries = []; nets = [] }

unfoldable pub canonicalize_net : IpNet → IpNet
canonicalize_net n = elim (to4 n.address) [
  | none ↦ n
  | some v4 ↦
      if n.bits == 128 && leb 96 n.ones
      then record { address = v4; ones = n.ones - 96; bits = 32 }
      else record n { address = v4 }
]

-- a bare address: /32 or /128
abbrev pub host_net : Ip → IpNet
host_net ip = elim (to4 ip) [
  | some v4 ↦ record { address = v4; ones = 32; bits = 32 }
  | none ↦ record { address = ip; ones = 128; bits = 128 }
]

-- `strings.Contains(s, "/")`
abbrev has_slash : Bytes → Bool
has_slash [] = false
has_slash (c ∷ s) = c == 47 || has_slash s

unfoldable pub any_net : List IpNet → Ip → Bool
any_net [] ip = false
any_net (n ∷ ns) ip = net_contains n ip || any_net ns ip

unfoldable pub allow : Ip → AllowList → Bool
allow ip l = if is_nil ip || is_unspecified ip then false else any_net l.nets (shortest ip)

module _ (parse_ip : Bytes → Option Ip) (parse_net : Bytes → Option IpNet) where
  unfoldable pub parse_cidr : Bytes → Result Error IpNet
  unfolding canonicalize_net
  parse_cidr raw =
      let s = trim_space raw in
      if length s == 0
      then err empty_cidr
      else if has_slash s
      then elim (parse_net s) [ none ↦ err invalid_cidr | some n ↦ ok (canonicalize_net n) ]
      else elim (parse_ip s) [ none ↦ err invalid_ip | some ip ↦ ok (host_net ip) ]

  abbrev push : Bytes → IpNet → List Bytes × List IpNet → Result Error (List Bytes × List IpNet)
  push s n parsed = ok (s ∷ parsed.0, n ∷ parsed.1)

  -- `i` is the index of the entry that an error names
  unfoldable pub parse_all : ℕ → List Bytes → Result Error (List Bytes × List IpNet)
  parse_all i [] = ok ([], [])
  parse_all i (raw ∷ raws) =
      let rest = parse_all (i + 1) raws in
      let s = trim_space raw in
      if length s == 0
      then rest
      else elim (parse_cidr s) [ err e ↦ err (entry i s e) | ok n ↦ rest >>= push s n ]

  unfoldable pub replace : List Bytes → AllowList → AllowList × Option Error
  replace cidrs l = elim (parse_all 0 cidrs) [
    | err e ↦ (l, some e)
    | ok (entries, nets) ↦ (record { entries = entries; nets = nets }, none)
  ]

  unfoldable pub new_list : List Bytes → Result Error AllowList
  new_list cidrs =
      let (l, failure) = replace cidrs no_entries in elim failure [ some e ↦ err e | none ↦ ok l ]
