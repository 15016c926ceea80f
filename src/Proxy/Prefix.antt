-- ===== src/Proxy/Prefix.antt =====
-- internal/proxy/prefix.go: a connection that gives back what was read of it, and what its reads
-- give of a connection whose ClientHello was peeked at.
use faketunnel.Base.{
  ℕ, ◌≡◌, refl, sym, ap, ◌∙◌, inl, inr, false, List, [], ◌∷◌, ◌++◌, append_assoc, arith, ltb,
  if◌then◌else◌, Bool-cases, length, take, drop, take-append-drop, Bytes,
}
use faketunnel.Proxy.Hello.{peek_client_hello}
use faketunnel.Proxy.Hello.Replay.{is_short, peek_client_hello_keeps}

-- `source` is what the connection below still has; a nil prefix is an empty one
pub record PrefixConn : Type 0 where
  pub prefix : Bytes
  pub source : Bytes

unfoldable pub with_prefix : Bytes → Bytes → PrefixConn
with_prefix source prefix = record { prefix = prefix; source = source }

-- Read into a buffer of `size` bytes; the connection below gives `ready` bytes at most.
unfoldable pub read : ℕ → ℕ → PrefixConn → Bytes × PrefixConn
read size ready c =
    let n = if ltb size ready then size else ready in
    if ltb 0 (length c.prefix)
    then (take size c.prefix, record c { prefix = drop size c.prefix })
    else (take n c.source, record c { source = drop n c.source })

-- the bytes of many reads, and the connection after them
abbrev pub reads : List (ℕ × ℕ) → PrefixConn → Bytes × PrefixConn
reads [] c = ([], c)
reads ((size, ready) ∷ rs) c =
    let (got, c') = read size ready c in let (more, c'') = reads rs c' in (got ++ more, c'')

no_bytes : (b : Bytes) → ltb 0 (length b) ≡ false → b ≡ []
no_bytes [] h = refl
no_bytes (x ∷ b) h = absurd (ground (arith, h))

read_keeps :
    (size ready : ℕ) (c : PrefixConn)
    → (read size ready c).0 ++ ((read size ready c).1.prefix ++ (read size ready c).1.source)
      ≡ c.prefix ++ c.source
unfolding read
read_keeps size ready c =
    let n = if ltb size ready then size else ready in
    elim (Bool-cases (ltb 0 (length c.prefix))) [
      | inl e ↦
          rw (read, e)
            (sym (append_assoc (take size c.prefix) (drop size c.prefix) c.source)
              ∙ ap (λ w. w ++ c.source) (take-append-drop size c.prefix))
      | inr e ↦
          let none_left : c.prefix ≡ [] = no_bytes c.prefix e in
          rw (read, e, none_left) (take-append-drop n c.source)
    ]

reads_keep :
    (rs : List (ℕ × ℕ)) (c : PrefixConn)
    → (reads rs c).0 ++ ((reads rs c).1.prefix ++ (reads rs c).1.source) ≡ c.prefix ++ c.source
reads_keep [] c = refl
reads_keep ((size, ready) ∷ rs) c =
    let after = (read size ready c).1 in
    append_assoc (read size ready c).0 (reads rs after).0
      ((reads rs after).1.prefix ++ (reads rs after).1.source)
    ∙ (ap (◌++◌ (read size ready c).0) (reads_keep rs after) ∙ read_keeps size ready c)

-- Unless the visitor ended before PeekClientHello had what it reads, what reads of any sizes
-- give of the connection that WithPrefix makes of the bytes that PeekClientHello kept, followed
-- by what is still unread, is what the visitor sent.
pub peeked_reads :
    (input : Bytes) (rs : List (ℕ × ℕ))
    → is_short (peek_client_hello input).outcome ≡ false
    → let c = with_prefix (peek_client_hello input).rest (peek_client_hello input).raw in
      (reads rs c).0 ++ ((reads rs c).1.prefix ++ (reads rs c).1.source) ≡ input
unfolding with_prefix
peeked_reads input rs h =
    reads_keep rs (with_prefix (peek_client_hello input).rest (peek_client_hello input).raw)
    ∙ peek_client_hello_keeps input h
