-- ===== src/Tunnel/Wire.antt =====
-- internal/tunnel/frame.go: big-endian integers and length-prefixed strings.
pub mod RoundTrip
use faketunnel.Base.{
  ℕ, ◌+◌, ◌*◌, ◌/◌, ◌%◌, ◌^◌, [], ◌∷◌, ◌++◌, Bytes, Result, ok, err, length, take, drop, ltb,
  if◌then◌else◌, not, ◌==◌,
}
use faketunnel.Tunnel.Conn.{
  Error, string_too_long, truncated_string, truncated_string_body, truncated_u32, ping_length,
}

-- binary.BigEndian.PutUint16, PutUint32 and PutUint64
abbrev pub be16 : ℕ → Bytes
be16 n = (n / 2 ^ 8 % 256) ∷ (n % 256) ∷ []

abbrev pub be32 : ℕ → Bytes
be32 n = (n / 2 ^ 24 % 256) ∷ (n / 2 ^ 16 % 256) ∷ (n / 2 ^ 8 % 256) ∷ (n % 256) ∷ []

abbrev pub be64 : ℕ → Bytes
be64 n = be32 (n / 2 ^ 32) ++ be32 n

-- b[0]; the callers have checked the length
abbrev pub of_byte : Bytes → ℕ
of_byte (a ∷ _) = a
of_byte [] = 0

-- binary.BigEndian.Uint16 and Uint32; the callers have checked the length
abbrev pub of_be16 : Bytes → ℕ
of_be16 (a ∷ b ∷ _) = a * 2 ^ 8 + b
of_be16 _ = 0

abbrev pub of_be32 : Bytes → ℕ
of_be32 (a ∷ b ∷ c ∷ d ∷ _) = a * 2 ^ 24 + b * 2 ^ 16 + c * 2 ^ 8 + d
of_be32 _ = 0

abbrev pub of_be64 : Bytes → ℕ
of_be64 b = of_be32 b * 2 ^ 32 + of_be32 (drop 4 b)

unfoldable pub put_string : Bytes → Bytes → Result Error Bytes
put_string buf s =
    if ltb 65535 (length s) then err string_too_long else ok ((buf ++ be16 (length s)) ++ s)

unfoldable pub get_string : Bytes → Result Error (Bytes × Bytes)
get_string b =
    let n = of_be16 (take 2 b) in
    let body = drop 2 b in
    if ltb (length b) 2
    then err truncated_string
    else if ltb (length body) n
    then err truncated_string_body
    else ok (take n body, drop n body)

unfoldable pub put_u64 : ℕ → Bytes
put_u64 n = be64 n

unfoldable pub get_u64 : Bytes → Result Error ℕ
get_u64 p = if not (length p == 8) then err ping_length else ok (of_be64 p)

unfoldable pub put_u32 : ℕ → Bytes
put_u32 n = be32 n

unfoldable pub get_u32 : Bytes → Result Error (ℕ × Bytes)
get_u32 p = if ltb (length p) 4 then err truncated_u32 else ok (of_be32 (take 4 p), drop 4 p)
