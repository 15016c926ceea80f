-- ===== src/Tunnel/Wire/RoundTrip.antt =====
-- internal/tunnel/frame.go: what the integers and strings of Wire look like on the wire.
use faketunnel.Base.{
  ℕ, ◌+◌, ◌*◌, ◌^◌, ◌≤◌, ◌<◌, ◌≡◌, ap, [], ◌∷◌, ◌++◌, append_assoc, arith, le→ltb, length, take,
  length-append, take-append-drop, length-take, take-length-append, drop-length-append, ok, Bytes,
  IsBytes,
}
use faketunnel.Tunnel.Wire.{
  be16, of_be16, put_string, get_string, put_u32, get_u32, put_u64, get_u64,
}

-- the bytes of a length-prefixed string
abbrev pub encoded : Bytes → Bytes
encoded s = be16 (length s) ++ s

pub put_string_lem : (buf s : Bytes) → length s ≤ 65535 → put_string buf s ≡ ok (buf ++ encoded s)
unfolding put_string
put_string_lem buf s h =
    rw (le→ltb 65535 (length s) h) (ap ok (append_assoc buf (be16 (length s)) s))

pub put_string-eq-ok :
    (buf s : Bytes) {out : Bytes}
    → put_string buf s ≡ ok out
    → (length s ≤ 65535) × (out ≡ buf ++ encoded s)
unfolding put_string
put_string-eq-ok buf s h = ground (arith, append_assoc buf (be16 (length s)) s)

of_be16-be16 : (n : ℕ) (rest : Bytes) → n ≤ 65535 → of_be16 (take 2 (be16 n ++ rest)) ≡ n
of_be16-be16 n rest h = omega arith

pub get_string-encoded :
    (s rest : Bytes) → length s ≤ 65535 → get_string (encoded s ++ rest) ≡ ok (s, rest)
unfolding get_string
get_string-encoded s rest h = ground (
  arith,
  of_be16-be16 (length s) [] h,
  length-append s rest,
  take-length-append s rest,
  drop-length-append s rest,
)

be16-of_be16 : (a b : ℕ) → a < 256 → b < 256 → be16 (a * 2 ^ 8 + b) ≡ a ∷ b ∷ []
be16-of_be16 a b ha hb = ground arith

pub get_string_sound :
    (b : Bytes) {s rest : Bytes}
    → IsBytes b
    → get_string b ≡ ok (s, rest)
    → (length s ≤ 65535) × (b ≡ encoded s ++ rest)
unfolding get_string
get_string_sound [] h e = ground arith
get_string_sound (x ∷ []) h e = ground arith
get_string_sound (x ∷ y ∷ body) h e = ground (
  arith,
  be16-of_be16 x y h.0 h.1.0,
  take-append-drop (x * 2 ^ 8 + y) body,
  length-take (x * 2 ^ 8 + y) body,
)

pub get_u32-put_u32 :
    (n : ℕ) (rest : Bytes) → n < 2 ^ 32 → get_u32 (put_u32 n ++ rest) ≡ ok (n, rest)
unfolding get_u32 put_u32
get_u32-put_u32 n rest h = ground arith

pub get_u32_sound :
    (p : Bytes) {n : ℕ} {rest : Bytes}
    → IsBytes p
    → get_u32 p ≡ ok (n, rest)
    → (n < 2 ^ 32) × (p ≡ put_u32 n ++ rest)
unfolding get_u32 put_u32
get_u32_sound (a ∷ b ∷ c ∷ d ∷ rest) h e = ground arith
get_u32_sound [] h e = ground arith
get_u32_sound (a ∷ []) h e = ground arith
get_u32_sound (a ∷ b ∷ []) h e = ground arith
get_u32_sound (a ∷ b ∷ c ∷ []) h e = ground arith

pub get_u64-put_u64 : (n : ℕ) → n < 2 ^ 64 → get_u64 (put_u64 n) ≡ ok n
unfolding get_u64 put_u64
get_u64-put_u64 n h = ground arith
