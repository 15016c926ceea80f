-- ===== src/Net.antt =====
-- The parts of Go's net package that the program uses: net.IP as its bytes (4 or 16 of them, none
-- for a nil IP) and net.IPNet with a prefix mask. Parsing and printing stay parameters.
pub mod HostPort
pub mod Proxied
use faketunnel.Base.{
  ℕ, ◌+◌, ◌-◌, ◌*◌, ◌/◌, ◌^◌, Bool, ◌&&◌, ◌||◌, Option, none, some, [], ◌∷◌, ◌++◌, ◌==◌,
  if◌then◌else◌, length, take, drop, Bytes, text_eq,
}

abbrev pub Ip : Type 0
Ip = Bytes

abbrev zeros : Bytes
zeros = 0 ∷ 0 ∷ 0 ∷ 0 ∷ 0 ∷ 0 ∷ 0 ∷ 0 ∷ 0 ∷ 0 ∷ []

-- ::ffff:a.b.c.d
abbrev mapped_prefix : Bytes
mapped_prefix = zeros ++ 255 ∷ 255 ∷ []

abbrev is_mapped : Ip → Bool
is_mapped ip = length ip == 16 && text_eq (take 12 ip) mapped_prefix

-- IP.To4, `none` for nil
unfoldable pub to4 : Ip → Option Ip
to4 ip = if length ip == 4 then some ip else if is_mapped ip then some (drop 12 ip) else none

-- `if v4 := ip.To4(); v4 != nil { ip = v4 }`
unfoldable pub shortest : Ip → Ip
shortest ip = elim (to4 ip) [ some v4 ↦ v4 | none ↦ ip ]

unfoldable pub is_unspecified : Ip → Bool
is_unspecified ip =
    text_eq (shortest ip) (0 ∷ 0 ∷ 0 ∷ 0 ∷ []) || text_eq ip (zeros ++ 0 ∷ 0 ∷ 0 ∷ 0 ∷ 0 ∷ 0 ∷ [])

abbrev pub is_nil : Ip → Bool
is_nil ip = length ip == 0

-- IP.Equal: an IPv4 address and its mapped form are equal
unfoldable pub ip_equal : Ip → Ip → Bool
ip_equal a b = text_eq (shortest a) (shortest b)

-- the address as a number
abbrev pub value : Bytes → ℕ
value [] = 0
value (b ∷ bs) = b * 256 ^ length bs + value bs

-- A network: its address, and a mask of `ones` leading bits out of `bits` (32 or 128).
pub record IpNet : Type 0 where
  pub address : Ip
  pub ones : ℕ
  pub bits : ℕ

-- IPNet.Contains: same family, same leading bits. A 128-bit mask on an IPv4 address counts for
-- its last 32 bits, and a 32-bit mask fits no IPv6 address.
unfoldable pub net_contains : IpNet → Ip → Bool
net_contains n ip =
    let x = shortest ip in
    let base = shortest n.address in
    let width = length base * 8 in
    let ones = if n.bits == 128 && width == 32 then n.ones - 96 else n.ones in
    length x == length base
    && (n.bits == width || n.bits == 128)
    && value x / 2 ^ (width - ones) == value base / 2 ^ (width - ones)

-- IP.IsLoopback
unfoldable pub is_loopback : Ip → Bool
is_loopback ip = elim (to4 ip) [
  | some v4 ↦ text_eq (take 1 v4) (127 ∷ [])
  | none ↦ text_eq ip (zeros ++ 0 ∷ 0 ∷ 0 ∷ 0 ∷ 0 ∷ 1 ∷ [])
]
