-- ===== src/Net/Proxied.antt =====
-- internal/netutil/ip.go: addresses of peers, and the PROXY protocol header in front of a connection.
-- `parse_ip` is net.ParseIP, `equal_fold` strings.EqualFold, and `scan_int` fmt.Sscanf with %d.
use faketunnel.Base.{
  ℕ, zero, suc, ◌≤◌, ◌≡◌, refl, ap, inl, inr, Bool, true, false, not, ◌||◌, Option, none, some,
  List, [], ◌∷◌, ◌++◌, reverse, arith, leb, ◌==◌, if◌then◌else◌, Bool-cases, length, Result, ok,
  err, ◌>>=◌, Result-cases, Bytes, text, text_eq,
}
use faketunnel.Base.Spaces.{trim_space}
use faketunnel.Base.Integers.{ℤ, pos, negsuc}
use faketunnel.Base.Scan.{cut, split}
use faketunnel.Config.File.{is_empty}
use faketunnel.Net.HostPort.{split_host_port}
use faketunnel.Net.{Ip, is_loopback}

abbrev pub max_proxy_line : ℕ
max_proxy_line = 108

pub data ProxyError : Type 0 where
  ended too_long bad_header unknown unsupported bad_ip bad_port : ProxyError

-- the line, newline included, and what is left of the stream
unfoldable pub read_line_limit : ℕ → Bytes → Result ProxyError (Bytes × Bytes)
read_line_limit zero s = err too_long
read_line_limit (suc max) [] = err ended
read_line_limit (suc max) (c ∷ s) =
    let rest = read_line_limit max s in
    if c == 10 then ok (c ∷ [], s) else rest >>= (λ r. ok (c ∷ r.0, r.1))

abbrev is_line_end : ℕ → Bool
is_line_end c = c == 13 || c == 10

abbrev drop_line_ends : Bytes → Bytes
drop_line_ends [] = []
drop_line_ends (c ∷ s) = let rest = drop_line_ends s in if is_line_end c then rest else c ∷ s

-- strings.TrimRight(line, "\r\n")
unfoldable pub trim_line_end : Bytes → Bytes
trim_line_end s = reverse (drop_line_ends (reverse s))

abbrev port_in_range : ℤ → Result ProxyError ℕ
port_in_range (pos n) = if leb n 65535 then ok n else err bad_port
port_in_range (negsuc _) = err bad_port

module _ (parse_ip : Bytes → Option Ip) where
  -- IPFromAddr: a zone goes; an address without a port is taken as it is
  abbrev without_zone : Bytes → Bytes
  without_zone host = elim (cut 37 host) [ none ↦ host | some (front, _) ↦ front ]

  unfoldable pub ip_from_addr : Bytes → Option Ip
  ip_from_addr addr = if is_empty addr then none else elim (split_host_port addr) [
    | none ↦ parse_ip (without_zone addr)
    | some (host, _) ↦ parse_ip (without_zone host)
  ]

  abbrev is_loopback_host : Bytes → Bool
  is_loopback_host host = elim (parse_ip host) [ none ↦ false | some ip ↦ is_loopback ip ]

  unfoldable pub listen_host_is_loopback : (Bytes → Bytes → Bool) → Bytes → Bool
  listen_host_is_loopback equal_fold addr = elim (split_host_port (trim_space addr)) [
    | none ↦ false
    | some (host, _) ↦ equal_fold host (text "localhost") || is_loopback_host host
  ]

  module _ (scan_int : Bytes → Option ℤ) where
    abbrev parse_port : Bytes → Result ProxyError ℕ
    parse_port s = elim (scan_int s) [ none ↦ err bad_port | some n ↦ port_in_range n ]

    abbrev parse_source : Bytes → Bytes → Result ProxyError (Ip × ℕ)
    parse_source src sport = elim (parse_ip src) [
      | none ↦ err bad_ip
      | some ip ↦ parse_port sport >>= (λ n. ok (ip, n))
    ]

    -- PROXY, the family, both addresses, both ports
    abbrev parse_parts : List Bytes → Result ProxyError (Ip × ℕ)
    parse_parts (tag ∷ family ∷ rest) =
        if not (text_eq tag (text "PROXY"))
        then err bad_header
        else if text_eq family (text "UNKNOWN")
        then err unknown
        else elim rest [
          | src ∷ dst ∷ sport ∷ dport ∷ more ↦
              if text_eq family (text "TCP4") || text_eq family (text "TCP6")
              then parse_source src sport
              else err unsupported
          | _ ↦ err bad_header
        ]
    parse_parts _ = err bad_header

    unfoldable pub parse_proxy_v1 : Bytes → Result ProxyError (Ip × ℕ)
    parse_proxy_v1 line = parse_parts (split 32 (trim_line_end line))

    -- the peer's address and port, and the stream behind the header; port 0 stands for the
    -- connection's own
    unfoldable pub read_header : ℕ → Bytes → Result ProxyError ((Ip × ℕ) × Bytes)
    read_header own_port input =
        read_line_limit max_proxy_line input
        >>= (λ r. parse_proxy_v1 r.0 >>= (λ p. ok ((p.0, if p.1 == 0 then own_port else p.1), r.1)))

    -- MaybeProxy: an error closes the connection
    unfoldable pub maybe_proxy : Bool → Ip × ℕ → Bytes → Result ProxyError ((Ip × ℕ) × Bytes)
    maybe_proxy enabled own input = if enabled then read_header own.1 input else ok (own, input)

-- A line is within the limit, ends in a newline, and nothing of the stream is lost behind it.
pub read_line_limit_lem :
    (max : ℕ) (s line rest : Bytes)
    → read_line_limit max s ≡ ok (line, rest)
    → (line ++ rest ≡ s) × (length line ≤ max)
unfolding read_line_limit
read_line_limit_lem zero s line rest h = absurd (ground (arith, h))
read_line_limit_lem (suc max) [] line rest h = absurd (ground (arith, h))
read_line_limit_lem (suc max) (c ∷ s) line rest h = elim (Bool-cases (c == 10)) [
  | inl e ↦
      let (one, two) : (c ∷ [] ≡ line) × (s ≡ rest) =
        (ground (arith, h, e), ground (arith, h, e)) in
      rw (← one, ← two) (refl, omega arith)
  | inr e ↦ elim (Result-cases (read_line_limit max s)) [
    | inr p ↦ let (why, f) = p in absurd (ground (arith, h, e, f))
    | inl p ↦
        let (r, f) = p in
        let (whole, short) = read_line_limit_lem max s r.0 r.1 f in
        let (one, two) : (c ∷ r.0 ≡ line) × (r.1 ≡ rest) =
          (ground (arith, h, e, f), ground (arith, h, e, f)) in
        rw (← one, ← two) (ap (◌∷◌ c) whole, omega (arith, short))
  ]
]

module _ (parse_ip : Bytes → Option Ip) (scan_int : Bytes → Option ℤ) where
  -- Where the header is required, a connection goes on only behind one that names a peer, and
  -- what is read later is all that followed it.
  pub maybe_proxy_lem :
      (own : Ip × ℕ) (input : Bytes) (peer : Ip × ℕ) (rest : Bytes)
      → maybe_proxy parse_ip scan_int true own input ≡ ok (peer, rest)
      → (line : Bytes) × (named : Ip × ℕ) × (line ++ rest ≡ input)
        × (length line ≤ max_proxy_line)
        × (parse_proxy_v1 parse_ip scan_int line ≡ ok named)
        × (peer.0 ≡ named.0)
  unfolding maybe_proxy read_header
  maybe_proxy_lem own input peer rest h =
      elim (Result-cases (read_line_limit max_proxy_line input)) [
        | inr p ↦ let (why, e) = p in absurd (ground (arith, h, e))
        | inl p ↦
            let (r, e) = p in
            elim (Result-cases (parse_proxy_v1 parse_ip scan_int r.0)) [
              | inr q ↦ let (why, f) = q in absurd (ground (arith, h, e, f))
              | inl q ↦
                  let (named, f) = q in
                  let (whole, short) = read_line_limit_lem max_proxy_line input r.0 r.1 e in
                  let same : r.1 ≡ rest = ground (arith, h, e, f) in
                  (r.0, named, rw (← same) whole, short, f, ground (arith, h, e, f))
            ]
      ]
