-- ===== src/Config/Mapping.antt =====
-- internal/config/initgen.go: the -http, -tcp and -udp flags of init, and how their addresses are
-- written to the file. `quote` is strconv.Quote.
use faketunnel.Base.{
  ℕ, ◌+◌, ◌-◌, ◌*◌, ◌≡◌, refl, ap, ◌∙◌, inl, inr, Bool, true, false, ◌&&◌, ◌||◌, Option, none, some,
  List, [], ◌∷◌, ◌++◌, arith, leb, ◌==◌, if◌then◌else◌, Bool-cases, Option-cases, Bytes, text,
  text_eq, text_eq_refl,
}
use faketunnel.Base.Spaces.{trim_space}
use faketunnel.Base.Spaces.Ends.{Plain, trim_space-Plain}
use faketunnel.Base.Scan.{has_byte, split}
use faketunnel.Config.File.{is_empty}
use faketunnel.Net.HostPort.{split_host_port, join_host_port, split_host_port-join_host_port}
use faketunnel.Config.Addr.{is_port, loopback, expand_addr, digits_number, unsigned}

abbrev colon : Bytes → Bytes → Bytes
colon a b = a ++ 58 ∷ b

-- the public address and the local target, `none` for an error
abbrev pub mapping_of : List Bytes → Option (Bytes × Bytes)
mapping_of (p ∷ []) = if is_port p then some (p, colon loopback p) else none
mapping_of (p ∷ q ∷ []) =
    if is_port q then some (if is_port p then p else colon p q, colon loopback q) else none
mapping_of (h ∷ p ∷ q ∷ []) = if is_port q then some (colon h p, colon loopback q) else none
mapping_of (h ∷ p ∷ k ∷ q ∷ []) = some (colon h p, colon k q)
mapping_of _ = none

unfoldable pub parse_mapping : Bytes → Option (Bytes × Bytes)
parse_mapping raw = let s = trim_space raw in if is_empty s then none else mapping_of (split 58 s)

unfoldable pub compact_local : Bytes → Bytes
compact_local local = elim (split_host_port local) [
  | none ↦ local
  | some (host, port) ↦
      if (text_eq host loopback || text_eq host (text "localhost")) && is_port port
      then port
      else local
]

abbrev pub yaml_scalar : (Bytes → Bytes) → Bytes → Bytes
yaml_scalar quote s = if is_port s then s else quote s

-- a port is written in plain bytes, so that it is trimmed
digits-Plain : (acc n : ℕ) (s : Bytes) → digits_number acc s ≡ some n → Plain s
digits-Plain acc n [] h = tt
digits-Plain acc n (d ∷ s) h =
    (ground (arith, h), digits-Plain (acc * 10 + (d - 48)) n s (ground (arith, h)))

abbrev is_sign : ℕ → Bool
is_sign b = b == 45 || b == 43

port_digits : (s : Bytes) → is_port s ≡ true → (n : ℕ) × (digits_number 0 (unsigned s) ≡ some n)
unfolding is_port
port_digits s h = elim (Option-cases (digits_number 0 (unsigned s))) [
  | inl e ↦ absurd (ground (arith, h, e))
  | inr p ↦ p
]

pub is_port-Plain : (s : Bytes) → is_port s ≡ true → Plain s
is_port-Plain [] h = tt
is_port-Plain (b ∷ s) h =
    let (n, e) = port_digits (b ∷ s) h in
    elim (Bool-cases (is_sign b)) [
      | inl f ↦ (ground (arith, f), digits-Plain 0 n s (ground (arith, e, f)))
      | inr f ↦ digits-Plain 0 n (b ∷ s) (ground (arith, e, f))
    ]

digits_only :
    (c acc n : ℕ) (s : Bytes)
    → (leb 48 c && leb c 57) ≡ false
    → digits_number acc s ≡ some n
    → has_byte c s ≡ false
unfolding has_byte
digits_only c acc n [] hc h = refl
digits_only c acc n (d ∷ s) hc h = ground (arith, hc, h, digits_only c (acc * 10 + (d - 48)) n s hc)

-- a byte that is neither a digit nor a sign stands in no port
port_only :
    (c : ℕ) (s : Bytes)
    → (is_sign c || (leb 48 c && leb c 57)) ≡ false
    → is_port s ≡ true
    → has_byte c s ≡ false
unfolding has_byte
port_only c [] hc h = refl
port_only c (b ∷ s) hc h =
    let (n, e) = port_digits (b ∷ s) h in
    elim (Bool-cases (is_sign b)) [
      | inl f ↦ ground (arith, hc, e, f, digits_only c 0 n s)
      | inr f ↦ ground (arith, hc, e, f, digits_only c 0 n (b ∷ s))
    ]

loopback_split :
    (port : Bytes)
    → is_port port ≡ true
    → split_host_port (colon loopback port) ≡ some (loopback, port)
unfolding join_host_port has_byte
loopback_split port h =
    split_host_port-join_host_port loopback port refl refl (port_only 58 port refl h)
      (port_only 91 port refl h) (port_only 93 port refl h)

port_nonempty : (s : Bytes) → is_port s ≡ true → is_empty s ≡ false
unfolding is_port
port_nonempty [] h = absurd (ground (arith, h))
port_nonempty (b ∷ s) h = ground arith

-- A local port that init writes in short comes back as it was when the file is loaded.
pub expand_addr-compact_local :
    (port : Bytes)
    → is_port port ≡ true
    → expand_addr (compact_local (colon loopback port)) true ≡ colon loopback port
unfolding expand_addr compact_local
expand_addr-compact_local port h =
    let split_up = loopback_split port h in
    let trimmed = trim_space-Plain port (is_port-Plain port h) in
    let short : compact_local (colon loopback port) ≡ port =
      ground (arith, split_up, h, text_eq_refl loopback) in
    ap (λ s. expand_addr s true) short ∙ ground (arith, trimmed, h, port_nonempty port h)
