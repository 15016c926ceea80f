-- ===== src/Proxy/Hello.antt =====
-- internal/proxy/peek.go: the TLS ClientHello, its server name, and the bytes consumed.
-- The reader is the bytes that it will give before it ends.
pub mod Replay
pub mod ServerName
use faketunnel.Base.{
  ℕ, zero, suc, ◌+◌, ◌-◌, ◌*◌, ◌/◌, ◌%◌, ◌^◌, ◌≤◌, ◌<◌, ◌≡◌, refl, sym, ap, ◌∙◌, ◌≢◌, ◌↔◌, ◌⊎◌, inl,
  inr, Bool, true, false, not, ◌&&◌, ◌||◌, Option, none, some, List, [], ◌∷◌, ◌++◌, map, append-nil,
  append_assoc, reverse, reverse-append, reverse-reverse, arith, ltb, leb, ◌==◌, if◌then◌else◌,
  ltb→lt, ltb→le, lt→ltb, le→ltb, ==_iff, Bool-cases, Option-cases, is_some, length, take, drop,
  length-append, take-append-drop, length-take, length-drop, take-length-append, drop-length-append,
  All, All-weaken, All-append, All-take, All-drop, All-append_right, All-append_left, take-length,
  take-append_front, append-take, Result, ok, err, ◌>>=◌, ◌>>◌, reject_if, >>=-eq-ok, Result-cases,
  Bytes, IsBytes, decimal, text, text_eq, text_eq_iff, text_eq_refl,
}
use faketunnel.Tunnel.Wire.{of_byte, of_be16}

pub data Error : Type 0 where
  eof unexpected_eof hello_too_large not_a_handshake not_a_hello : Error
  invalid_record_length : ℕ → Error
  truncated_hello truncated_session_id truncated_ciphers truncated_compression : Error
  truncated_extensions_length truncated_extensions truncated_extension : Error
  truncated_sni_list truncated_sni_list_body truncated_sni_name : Error
  -- no error of the program: a loop was given too few rounds
  out_of_fuel : Error

abbrev pub max_peek_bytes : ℕ
max_peek_bytes = 64 * 1024

abbrev pub tls_record_header_len : ℕ
tls_record_header_len = 5

abbrev pub tls_max_record : ℕ
tls_max_record = 16384

-- what is left of the reader, the bytes kept, and the outcome
pub record Peeked (A : Type 0) : Type 0 where
  pub rest : Bytes
  pub raw : Bytes
  pub outcome : Result Error A

abbrev peeked : {A : Type 0} → Bytes → Bytes → Result Error A → Peeked A
peeked rest raw outcome = record { rest = rest; raw = raw; outcome = outcome }

-- io.ReadFull's error where `got` bytes came
abbrev pub short : ℕ → Error
short got = if got == 0 then eof else unexpected_eof

abbrev zeros : ℕ → Bytes
zeros zero = []
zeros (suc n) = 0 ∷ zeros n

-- A body that is cut off is filled up with zeros, as the buffer that was made for it is.
unfoldable pub read_tls_record : Bytes → Peeked (Unit {0})
read_tls_record input =
    let header = take 5 input in
    let after = drop 5 input in
    let n = of_be16 (drop 3 header) in
    if ltb (length input) tls_record_header_len
    then peeked [] [] (err (short (length input)))
    else if n == 0 || ltb tls_max_record n
    then peeked after header (err (invalid_record_length n))
    else if ltb (length after) n
    then peeked [] (header ++ (after ++ zeros (n - length after))) (err (short (length after)))
    else peeked (drop n after) (header ++ take n after) (ok tt)

-- The loop over the names of a list that ends at `end`. A round takes three bytes at least.
unfoldable pub sni_names : ℕ → ℕ → ℕ → Bytes → Result Error Bytes
sni_names zero off end ext = err out_of_fuel
sni_names (suc fuel) off end ext =
    let n = of_be16 (drop (off + 1) ext) in
    let later = sni_names fuel (off + 3 + n) end ext in
    if ltb end (off + 3)
    then ok []
    else if ltb end (off + 3 + n)
    then err truncated_sni_name
    else if of_byte (drop off ext) == 0
    then ok (take n (drop (off + 3) ext))
    else later

unfoldable pub parse_sni_extension : Bytes → Result Error Bytes
parse_sni_extension ext =
    let list_len = of_be16 ext in
    if ltb (length ext) 2
    then err truncated_sni_list
    else if ltb (length ext) (2 + list_len)
    then err truncated_sni_list_body
    else sni_names (length ext) 2 (2 + list_len) ext

unfoldable pub extensions : ℕ → ℕ → ℕ → Bytes → Result Error Bytes
extensions zero off end body = err out_of_fuel
extensions (suc fuel) off end body =
    let n = of_be16 (drop (off + 2) body) in
    let later = extensions fuel (off + 4 + n) end body in
    if ltb end (off + 4)
    then ok []
    else if ltb end (off + 4 + n)
    then err truncated_extension
    else if not (of_be16 (drop off body) == 0)
    then later
    else parse_sni_extension (take n (drop (off + 4) body))

-- The checks of the lengths before the extensions, in the order of the code: `ciphers`,
-- `compression` and `lengths` are where those fields stand, and `start` and `end` bound the
-- extensions.
abbrev pub guarded : ℕ → ℕ → ℕ → ℕ → ℕ → ℕ → Result Error Bytes → Result Error Bytes
guarded len ciphers compression lengths start end found =
    if ltb len 34
    then err truncated_hello
    else if leb len 34
    then err truncated_session_id
    else if ltb len (ciphers + 2)
    then err truncated_ciphers
    else if leb len compression
    then err truncated_compression
    else if lengths == len
    then ok []
    else if ltb len start
    then err truncated_extensions_length
    else if ltb len end
    then err truncated_extensions
    else found

unfoldable pub parse_hello_sni : Bytes → Result Error Bytes
parse_hello_sni body =
    let len = length body in
    let ciphers = 35 + of_byte (drop 34 body) in
    let compression = ciphers + 2 + of_be16 (drop ciphers body) in
    let lengths = compression + 1 + of_byte (drop compression body) in
    let start = lengths + 2 in
    let end = start + of_be16 (drop lengths body) in
    guarded len ciphers compression lengths start end (extensions len start end body)

abbrev pub of_be24 : Bytes → ℕ
of_be24 (a ∷ b ∷ c ∷ _) = a * 2 ^ 16 + b * 2 ^ 8 + c
of_be24 _ = 0

-- what a round does with its record, and `later` is the next round
abbrev pub judge : Bytes → Bytes → Bytes → Bytes → Peeked Bytes → Peeked Bytes
judge rest rec raw handshake later =
    let hello_len = of_be24 (drop 1 handshake) in
    if ltb max_peek_bytes (length raw)
    then peeked rest raw (err hello_too_large)
    else if not (of_byte rec == 22)
    then peeked rest raw (err not_a_handshake)
    else if ltb (length handshake) 4
    then later
    else if not (of_byte handshake == 1)
    then peeked rest raw (err not_a_hello)
    else if ltb (length handshake) (4 + hello_len)
    then later
    else peeked rest raw (parse_hello_sni (take hello_len (drop 4 handshake)))

unfoldable pub peek_rounds : ℕ → Bytes → Bytes → Bytes → Peeked Bytes
peek_rounds zero input raw handshake = peeked input raw (err out_of_fuel)
peek_rounds (suc fuel) input raw handshake =
    let got = read_tls_record input in
    let raw' = raw ++ got.raw in
    let handshake' = handshake ++ drop 5 got.raw in
    let later = peek_rounds fuel got.rest raw' handshake' in
    elim got.outcome [
      | err e ↦ peeked got.rest raw' (err e)
      | ok _ ↦ judge got.rest got.raw raw' handshake' later
    ]

-- PeekClientHello: each round takes six bytes at least
unfoldable pub peek_client_hello : Bytes → Peeked Bytes
peek_client_hello input = peek_rounds (length input + 1) input [] []
