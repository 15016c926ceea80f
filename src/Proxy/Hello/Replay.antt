-- ===== src/Proxy/Hello/Replay.antt =====
-- internal/proxy/peek.go: the bytes kept are the bytes consumed, and the loops end.
use faketunnel.Base.{
  ℕ, zero, suc, ◌+◌, ◌≤◌, ◌<◌, ◌≡◌, refl, ap, ◌∙◌, inl, inr, Bool, true, false, [], ◌++◌,
  append_assoc, arith, length, take, drop, take-append-drop, length-drop, Result, ok, err,
  Result-cases, Bytes,
}
use faketunnel.Tunnel.Wire.{of_byte, of_be16}
use faketunnel.Proxy.Hello.{
  Error, eof, unexpected_eof, out_of_fuel, Peeked, read_tls_record, sni_names, parse_sni_extension,
  extensions, parse_hello_sni, guarded, of_be24, judge, peek_rounds, peek_client_hello,
}

-- the reader ended within a record
abbrev pub is_short : {A : Type 0} → Result Error A → Bool
is_short (err eof) = true
is_short (err unexpected_eof) = true
is_short _ = false

abbrev pub is_stuck : {A : Type 0} → Result Error A → Bool
is_stuck (err out_of_fuel) = true
is_stuck _ = false

read_tls_record_keeps :
    (input : Bytes)
    → is_short (read_tls_record input).outcome ≡ false
    → (read_tls_record input).raw ++ (read_tls_record input).rest ≡ input
unfolding read_tls_record
read_tls_record_keeps input h =
    let n = of_be16 (drop 3 (take 5 input)) in
    ground (
      arith,
      h,
      take-append-drop 5 input,
      take-append-drop n (drop 5 input),
      append_assoc (take 5 input) (take n (drop 5 input)) (drop n (drop 5 input)),
    )

read_tls_record_moves :
    (input : Bytes)
    → (is_stuck (read_tls_record input).outcome ≡ false)
      × ((read_tls_record input).outcome ≡ ok tt
          → length (read_tls_record input).rest < length input)
unfolding read_tls_record
read_tls_record_moves input =
    let n = of_be16 (drop 3 (take 5 input)) in
    (ground arith, ground (arith, length-drop 5 input, length-drop n (drop 5 input)))

sni_names_ends :
    (fuel off end : ℕ) (ext : Bytes)
    → 0 < fuel
    → end < off + fuel
    → is_stuck (sni_names fuel off end ext) ≡ false
unfolding sni_names
sni_names_ends zero off end ext pos h = absurd (ground (arith, pos))
sni_names_ends (suc fuel) off end ext pos h =
    let n = of_be16 (drop (off + 1) ext) in
    ground (arith, h, sni_names_ends fuel (off + 3 + n) end ext)

parse_sni_extension_ends : (ext : Bytes) → is_stuck (parse_sni_extension ext) ≡ false
unfolding parse_sni_extension
parse_sni_extension_ends ext = ground (arith, sni_names_ends (length ext) 2 (2 + of_be16 ext) ext)

extensions_end :
    (fuel off end : ℕ) (body : Bytes)
    → 0 < fuel
    → end < off + fuel
    → is_stuck (extensions fuel off end body) ≡ false
unfolding extensions
extensions_end zero off end body pos h = absurd (ground (arith, pos))
extensions_end (suc fuel) off end body pos h =
    let n = of_be16 (drop (off + 2) body) in
    ground (
      arith,
      h,
      extensions_end fuel (off + 4 + n) end body,
      parse_sni_extension_ends (take n (drop (off + 4) body)),
    )

guarded_ends :
    (len ciphers compression lengths start end : ℕ) (found : Result Error Bytes)
    → (end ≤ len → start ≤ len → 0 < len → is_stuck found ≡ false)
    → is_stuck (guarded len ciphers compression lengths start end found) ≡ false
guarded_ends len ciphers compression lengths start end found h = ground (arith, h)

parse_hello_sni_ends : (body : Bytes) → is_stuck (parse_hello_sni body) ≡ false
unfolding parse_hello_sni
parse_hello_sni_ends body =
    let ciphers = 35 + of_byte (drop 34 body) in
    let compression = ciphers + 2 + of_be16 (drop ciphers body) in
    let lengths = compression + 1 + of_byte (drop compression body) in
    let start = lengths + 2 in
    let end = start + of_be16 (drop lengths body) in
    guarded_ends (length body) ciphers compression lengths start end _
      λ le st pos. extensions_end (length body) start end body pos (omega (arith, le, pos))

judge_ends :
    (rest rec raw handshake : Bytes) (later : Peeked Bytes)
    → is_stuck later.outcome ≡ false
    → is_stuck (judge rest rec raw handshake later).outcome ≡ false
judge_ends rest rec raw handshake later h =
    ground (arith, h, parse_hello_sni_ends (take (of_be24 (drop 1 handshake)) (drop 4 handshake)))

peek_rounds_end :
    (fuel : ℕ) (input raw handshake : Bytes)
    → length input < fuel
    → is_stuck (peek_rounds fuel input raw handshake).outcome ≡ false
unfolding peek_rounds
peek_rounds_end zero input raw handshake h = absurd (ground (arith, h))
peek_rounds_end (suc fuel) input raw handshake h =
    let got = read_tls_record input in
    let (fine, moves) = read_tls_record_moves input in
    elim (Result-cases got.outcome) [
      | inr (e, r) ↦ ground (arith, r, fine)
      | inl (u, r) ↦
          let further =
            peek_rounds_end fuel got.rest (raw ++ got.raw) (handshake ++ drop 5 got.raw)
              (omega (arith, h, moves r)) in
          ground (
            arith,
            r,
            judge_ends got.rest got.raw (raw ++ got.raw) (handshake ++ drop 5 got.raw)
                (peek_rounds fuel got.rest (raw ++ got.raw) (handshake ++ drop 5 got.raw)) further,
          )
    ]

-- On every input the loops of PeekClientHello, of the extensions and of the server names end
-- within the rounds that they are given.
pub peek_client_hello_ends : (input : Bytes) → is_stuck (peek_client_hello input).outcome ≡ false
unfolding peek_client_hello
peek_client_hello_ends input = peek_rounds_end (length input + 1) input [] [] (omega arith)

judge_keeps :
    (input rest rec raw handshake : Bytes) (later : Peeked Bytes)
    → raw ++ rest ≡ input
    → (is_short later.outcome ≡ false → later.raw ++ later.rest ≡ input)
    → is_short (judge rest rec raw handshake later).outcome ≡ false
    → (judge rest rec raw handshake later).raw ++ (judge rest rec raw handshake later).rest ≡ input
judge_keeps input rest rec raw handshake later now then_ h = ground (arith, now, then_, h)

peek_rounds_keep :
    (fuel : ℕ) (input raw handshake : Bytes)
    → is_short (peek_rounds fuel input raw handshake).outcome ≡ false
    → (peek_rounds fuel input raw handshake).raw ++ (peek_rounds fuel input raw handshake).rest
      ≡ raw ++ input
unfolding peek_rounds
peek_rounds_keep zero input raw handshake h = refl
peek_rounds_keep (suc fuel) input raw handshake h =
    let got = read_tls_record input in
    elim (Result-cases got.outcome) [
      | inr (e, r) ↦
          let kept : got.raw ++ got.rest ≡ input =
            read_tls_record_keeps input (ground (arith, h, r)) in
          ground (arith, r, kept, append_assoc raw got.raw got.rest)
      | inl (u, r) ↦
          let kept : got.raw ++ got.rest ≡ input =
            read_tls_record_keeps input (ground (arith, r)) in
          let now : (raw ++ got.raw) ++ got.rest ≡ raw ++ input =
            append_assoc raw got.raw got.rest ∙ ap (◌++◌ raw) kept in
          let later = peek_rounds fuel got.rest (raw ++ got.raw) (handshake ++ drop 5 got.raw) in
          let further : is_short later.outcome ≡ false → later.raw ++ later.rest ≡ raw ++ input =
            λ s.
              peek_rounds_keep fuel got.rest (raw ++ got.raw) (handshake ++ drop 5 got.raw) s
              ∙ now in
          ground (
            arith,
            r,
            h,
            judge_keeps (raw ++ input) got.rest got.raw (raw ++ got.raw)
                (handshake ++ drop 5 got.raw) later now further,
          )
    ]

-- The bytes kept and those left make the input, unless it ended within a record.
pub peek_client_hello_keeps :
    (input : Bytes)
    → is_short (peek_client_hello input).outcome ≡ false
    → (peek_client_hello input).raw ++ (peek_client_hello input).rest ≡ input
unfolding peek_client_hello
peek_client_hello_keeps input h = peek_rounds_keep (length input + 1) input [] [] h
