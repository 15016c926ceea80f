-- ===== src/Proxy/Hello/ServerName.antt =====
-- internal/proxy/peek.go: the server name is found where a client that follows the TLS format puts
-- it.
use faketunnel.Base.{
  ℕ, zero, suc, ◌+◌, ◌≤◌, ◌<◌, ◌≡◌, refl, sym, ap, ◌∙◌, [], ◌∷◌, ◌++◌, arith, length, take, drop,
  length-append, take-length-append, drop-length-append, take-length, Result, ok, Bytes,
}
use native.Mathlib.Nat.{zero-add, suc-add}
use faketunnel.Tunnel.Wire.{be16, of_byte, of_be16}
use faketunnel.Proxy.Hello.{
  Error, sni_names, parse_sni_extension, guarded, extensions, parse_hello_sni,
}

of_be16-be16 : (n : ℕ) (w : Bytes) → n < 65536 → of_be16 (be16 n ++ w) ≡ n
of_be16-be16 n w h = omega (arith, h)

drop_exact : (n : ℕ) (xs ys : Bytes) → n ≡ length xs → drop n (xs ++ ys) ≡ ys
drop_exact n xs ys h = rw h (drop-length-append xs ys)

drop-nil : (n : ℕ) → drop {A = ℕ} n [] ≡ []
drop-nil zero = refl
drop-nil (suc n) = refl

drop_add : (m n : ℕ) (xs : Bytes) → drop (m + n) xs ≡ drop n (drop m xs)
drop_add zero n xs = rw zero-add
drop_add (suc m) n [] = rw (suc-add, drop-nil n) refl
drop_add (suc m) n (x ∷ xs) = rw suc-add (drop_add m n xs)

-- the data of a server_name extension with one host name
abbrev pub sni_data : Bytes → Bytes
sni_data name = be16 (length name + 3) ++ (0 ∷ (be16 (length name) ++ name))

abbrev pub sni_extension : Bytes → Bytes
sni_extension name = 0 ∷ 0 ∷ (be16 (length name + 5) ++ sni_data name)

-- a hello of a version and random bytes, a session id, cipher suites, compression methods and
-- extensions
abbrev pub hello_body : Bytes → Bytes → Bytes → Bytes → Bytes → Bytes
hello_body front session ciphers compression exts =
    front
    ++ (length session
        ∷ (session
            ++ (be16 (length ciphers)
                ++ (ciphers
                    ++ (length compression ∷ (compression ++ (be16 (length exts) ++ exts)))))))

parse_sni_extension-sni_data :
    (name : Bytes) → length name + 5 < 65536 → parse_sni_extension (sni_data name) ≡ ok name
unfolding parse_sni_extension sni_names
parse_sni_extension-sni_data name h =
    let whole =
      of_be16-be16 (length name + 3) (0 ∷ (be16 (length name) ++ name)) (omega (arith, h)) in
    let inner = of_be16-be16 (length name) name (omega (arith, h)) in
    ground (arith, h, whole, inner, take-length name)

extensions-sni_extension :
    (fuel start end : ℕ) (name more body : Bytes)
    → length name + 9 < 65536
    → drop start body ≡ sni_extension name ++ more
    → start + length name + 9 ≤ end
    → extensions (suc fuel) start end body ≡ ok name
unfolding extensions
extensions-sni_extension fuel start end name more body h at_start room =
    let len = length name in
    let d2 : drop (start + 2) body ≡ be16 (len + 5) ++ (sni_data name ++ more) =
      drop_add start 2 body ∙ ap (drop 2) at_start in
    let d4 : drop (start + 4) body ≡ sni_data name ++ more =
      drop_add start 4 body ∙ ap (drop 4) at_start in
    let n : of_be16 (drop (start + 2) body) ≡ len + 5 =
      ap of_be16 d2 ∙ of_be16-be16 (len + 5) (sni_data name ++ more) (omega (arith, h)) in
    let kind : of_be16 (drop start body) ≡ 0 = ap of_be16 at_start in
    let size : len + 5 ≡ length (sni_data name) = omega arith in
    let cut : take (len + 5) (sni_data name ++ more) ≡ sni_data name =
      ap (λ k. take k (sni_data name ++ more)) size ∙ take-length-append (sni_data name) more in
    let found : parse_sni_extension (take (of_be16 (drop (start + 2) body)) (drop (start + 4) body))
        ≡ ok name =
      ap parse_sni_extension
        (ap (λ k. take k (drop (start + 4) body)) n ∙ (ap (take (len + 5)) d4 ∙ cut))
      ∙ parse_sni_extension-sni_data name (omega (arith, h)) in
    ground (arith, room, n, kind, found)

extensions_first :
    (fuel start end : ℕ) (name more body : Bytes)
    → 0 < fuel
    → length name + 9 < 65536
    → drop start body ≡ sni_extension name ++ more
    → start + length name + 9 ≤ end
    → extensions fuel start end body ≡ ok name
extensions_first zero start end name more body pos h at_start room = absurd (omega (arith, pos))
extensions_first (suc fuel) start end name more body pos h at_start room =
    extensions-sni_extension fuel start end name more body h at_start room

next_field : (b xs ys : Bytes) (m n : ℕ) → drop m b ≡ xs ++ ys → n ≡ m + length xs → drop n b ≡ ys
next_field b xs ys m n here e =
    ap (λ k. drop k b) e
    ∙ (drop_add m (length xs) b ∙ (ap (drop (length xs)) here ∙ drop-length-append xs ys))

-- The checks pass where the fields fill the body.
guarded_pass :
    (len ciphers compression lengths start end : ℕ) (found : Result Error Bytes)
    → 34 < len
    → ciphers + 2 ≤ len
    → compression < len
    → lengths < start
    → start ≤ end
    → end ≡ len
    → guarded len ciphers compression lengths start end found ≡ found
guarded_pass len ciphers compression lengths start end found a b c d e f =
    ground (arith, a, b, c, d, e, f)

-- where the extensions of a hello stand, and that they are reached
hello_body_lem :
    (front session ciphers compression exts : Bytes)
    → length front ≡ 34
    → length ciphers < 65536
    → length exts < 65536
    → let body = hello_body front session ciphers compression exts in
      (start : ℕ) × (drop start body ≡ exts)
      × (length body ≡ start + length exts)
      × (parse_hello_sni body ≡ extensions (length body) start (length body) body)
unfolding parse_hello_sni
hello_body_lem front session ciphers compression exts hf hc he =
    let after_lengths : Bytes = be16 (length exts) ++ exts in
    let after_ciphers : Bytes = length compression ∷ (compression ++ after_lengths) in
    let after_session : Bytes = be16 (length ciphers) ++ (ciphers ++ after_ciphers) in
    let body : Bytes = hello_body front session ciphers compression exts in
    let f1 : drop 34 body ≡ (length session ∷ session) ++ after_session =
      drop_exact 34 front (length session ∷ (session ++ after_session)) (sym hf) in
    let c = 35 + of_byte (drop 34 body) in
    let ec : c ≡ 34 + length (length session ∷ session) = omega (arith, ap of_byte f1) in
    let f2 : drop c body ≡ (be16 (length ciphers) ++ ciphers) ++ after_ciphers =
      next_field body (length session ∷ session) after_session 34 c f1 ec in
    let nc : of_be16 (drop c body) ≡ length ciphers =
      ap of_be16 f2 ∙ of_be16-be16 (length ciphers) (ciphers ++ after_ciphers) hc in
    let k = c + 2 + of_be16 (drop c body) in
    let ek : k ≡ c + length (be16 (length ciphers) ++ ciphers) = omega (arith, nc) in
    let f3 : drop k body ≡ (length compression ∷ compression) ++ after_lengths =
      next_field body (be16 (length ciphers) ++ ciphers) after_ciphers c k f2 ek in
    let l = k + 1 + of_byte (drop k body) in
    let el : l ≡ k + length (length compression ∷ compression) = omega (arith, ap of_byte f3) in
    let f4 : drop l body ≡ after_lengths =
      next_field body (length compression ∷ compression) after_lengths k l f3 el in
    let nl : of_be16 (drop l body) ≡ length exts =
      ap of_be16 f4 ∙ of_be16-be16 (length exts) exts he in
    let f5 : drop (l + 2) body ≡ exts =
      next_field body (be16 (length exts)) exts l (l + 2) f4 (omega arith) in
    let total : length body ≡ l + 2 + length exts = omega (
      arith,
      hf,
      ec,
      ek,
      el,
      length-append front (length session ∷ (session ++ after_session)),
      length-append session after_session,
      length-append ciphers after_ciphers,
      length-append compression after_lengths,
    ) in
    let end : l + 2 + of_be16 (drop l body) ≡ length body = omega (arith, nl, total) in
    (
      l + 2,
      f5,
      total,
      guarded_pass (length body) c k l (l + 2) (l + 2 + of_be16 (drop l body)) _
            (omega (arith, total, el, ek, ec)) (omega (arith, total, el, ek))
            (omega (arith, total, el)) (omega arith) (omega arith) end
          ∙ ap (λ e. extensions (length body) (l + 2) e body) end,
    )

-- Of a ClientHello in the TLS format, with any version and random bytes, session id, cipher
-- suites and compression methods, whose first extension is a server_name extension with one host
-- name, and which is short enough for the length fields, parseHelloSNI returns that name.
pub parse_hello_sni-hello_body :
    (front session ciphers compression name more : Bytes)
    → length front ≡ 34
    → length ciphers < 65536
    → length name + 9 + length more < 65536
    → parse_hello_sni (hello_body front session ciphers compression (sni_extension name ++ more))
      ≡ ok name
parse_hello_sni-hello_body front session ciphers compression name more hf hc hn =
    let size : length (sni_extension name ++ more) ≡ length name + 9 + length more =
      omega (arith, length-append name more) in
    let (start, at_start, total, reached) =
      hello_body_lem front session ciphers compression (sni_extension name ++ more) hf hc
        (omega (arith, size, hn)) in
    let body : Bytes = hello_body front session ciphers compression (sni_extension name ++ more) in
    reached
    ∙ extensions_first (length body) start (length body) name more body (omega (arith, total, size))
        (omega (arith, hn)) at_start (omega (arith, total, size))
