-- ===== src/Tunnel/Messages/RoundTrip.antt =====
-- internal/tunnel/frame.go: Marshal and Parse of each message against one another.
use faketunnel.Base.{
  ◌↔◌, ◌∙◌, ℕ, ◌^◌, ◌≤◌, ◌<◌, ◌≡◌, refl, true, not, [], ◌∷◌, ◌++◌, append-nil, append_assoc, arith,
  ◌==◌, length, length-append, All-append_right, Result, ok, ◌>>=◌, ◌>>◌, reject_if, >>=-eq-ok,
  Bytes, IsBytes,
}
use faketunnel.Tunnel.Conn.{Error}
use faketunnel.Tunnel.Wire.{put_string, get_string, put_u32, get_u32}
use faketunnel.Tunnel.Wire.RoundTrip.{
  encoded, put_string_lem, put_string-eq-ok, get_string-encoded, get_string_sound, get_u32-put_u32,
  get_u32_sound, get_u64-put_u64,
}
use faketunnel.Tunnel.Messages.{
  AuthRequest, marshal_auth_request, parse_auth_request, AuthResponse, marshal_auth_response,
  parse_auth_response, OpenMeta, marshal_open_meta, parse_open_meta, OpenAck, marshal_open_ack,
  parse_open_ack, ping_payload, parse_ping, OpenAssoc, marshal_open_assoc, parse_open_assoc,
  OpenAssocAck, marshal_open_assoc_ack, parse_open_assoc_ack, Datagram, marshal_datagram,
  parse_datagram, CloseAssoc, marshal_close_assoc, parse_close_assoc,
}

abbrev IsShort : Bytes → Type 0
IsShort s = length s ≤ 65535

get_string-encoded_end : (s : Bytes) → IsShort s → get_string (encoded s) ≡ ok (s, [])
get_string-encoded_end s h = rw append-nil at (get_string-encoded s [] h)

-- `len(rest) != 0` lets only the empty rest through
nil_of_length : (s : Bytes) → (length s == 0) ≡ true → s ≡ []
nil_of_length [] h = refl
nil_of_length (x ∷ xs) h = ground arith

-- what follows a piece of a byte string
rest-IsBytes : {p : Bytes} (front rest : Bytes) → IsBytes p → p ≡ front ++ rest → IsBytes rest
rest-IsBytes front rest b e = All-append_right (λ c. c < 256) front rest (rw e at b)

length-put_u32 : (n : ℕ) → length (put_u32 n) ≡ 4
unfolding put_u32
length-put_u32 n = refl

module _ {A : Type 0} {a : A} where
  -- a parser that went on from a string: what it read, and what it went on with
  get_string_then :
      (p : Bytes) (k : Bytes × Bytes → Result Error A)
      → IsBytes p
      → (get_string p >>= k) ≡ ok a
      → (s rest : Bytes) × IsShort s × (p ≡ encoded s ++ rest) × IsBytes rest × (k (s, rest) ≡ ok a)
  get_string_then p k b e =
      let (x, read, after) = >>=-eq-ok (get_string p) k e in
      let sound = get_string_sound p b read in
      (x.0, x.1, sound.0, sound.1, rest-IsBytes (encoded x.0) x.1 b sound.1, after)

  get_u32_then :
      (p : Bytes) (k : ℕ × Bytes → Result Error A)
      → IsBytes p
      → (get_u32 p >>= k) ≡ ok a
      → (n : ℕ) × (rest : Bytes) × (n < 2 ^ 32)
        × (p ≡ put_u32 n ++ rest)
        × IsBytes rest
        × (k (n, rest) ≡ ok a)
  get_u32_then p k b e =
      let (x, read, after) = >>=-eq-ok (get_u32 p) k e in
      let sound = get_u32_sound p b read in
      (x.0, x.1, sound.0, sound.1, rest-IsBytes (put_u32 x.0) x.1 b sound.1, after)

  -- `if len(rest) != 0 { return trailing }; return a, nil`
  at_end :
      (rest : Bytes) (e : Error) (x : A)
      → (reject_if (not (length rest == 0)) e >> ok x) ≡ ok a
      → (rest ≡ []) × (x ≡ a)
  at_end [] e x h = (refl, cc)
  at_end (y ∷ ys) e x h = ground arith

pub marshal_auth_request_lem :
    (a : AuthRequest)
    → IsShort a.token
    → IsShort a.agent_id
    → marshal_auth_request a ≡ ok (encoded a.token ++ encoded a.agent_id)
unfolding marshal_auth_request
marshal_auth_request_lem a t i = rw (put_string_lem [] a.token t) (put_string_lem _ a.agent_id i)

module _ (a : AuthRequest) (p : Bytes) where
  pub marshal_auth_request-eq-ok :
      marshal_auth_request a ≡ ok p → p ≡ encoded a.token ++ encoded a.agent_id
  unfolding marshal_auth_request
  marshal_auth_request-eq-ok e =
      let (buf, first, second) = >>=-eq-ok (put_string [] a.token) _ e in
      let (t, b) = put_string-eq-ok [] a.token first in
      let (i, q) = put_string-eq-ok buf a.agent_id second in q ∙ rw b

  pub parse-marshal_auth_request : marshal_auth_request a ≡ ok p → parse_auth_request p ≡ ok a
  unfolding marshal_auth_request parse_auth_request
  parse-marshal_auth_request e =
      let (buf, first, second) = >>=-eq-ok (put_string [] a.token) _ e in
      let (t, b) = put_string-eq-ok [] a.token first in
      let (i, q) = put_string-eq-ok buf a.agent_id second in
      rw (
        q,
        b,
        get_string-encoded a.token (encoded a.agent_id) t,
        get_string-encoded_end a.agent_id i,
      )

  pub marshal-parse_auth_request :
      IsBytes p → parse_auth_request p ≡ ok a → marshal_auth_request a ≡ ok p
  unfolding parse_auth_request
  marshal-parse_auth_request b e =
      let (t, rest, short, split, b', e') = get_string_then p _ b e in
      let (i, rest', short', split', _, e'') = get_string_then rest _ b' e' in
      let (nil, same) = at_end rest' _ _ e'' in
      let fields = marshal_auth_request_lem a (rw (← same) short) (rw (← same) short') in
      ground (arith, fields, append-nil (encoded i))

module _ (a : AuthResponse) (p : Bytes) where
  pub parse-marshal_auth_response : marshal_auth_response a ≡ ok p → parse_auth_response p ≡ ok a
  unfolding marshal_auth_response parse_auth_response
  parse-marshal_auth_response e =
      let (short, q) = put_string-eq-ok _ a.message e in
      rw q (ground (arith, get_string-encoded_end a.message short))

module _ (a : OpenAck) (p : Bytes) where
  pub parse-marshal_open_ack : marshal_open_ack a ≡ ok p → parse_open_ack p ≡ ok a
  unfolding marshal_open_ack parse_open_ack
  parse-marshal_open_ack e =
      let (short, q) = put_string-eq-ok _ a.message e in
      rw q (ground (arith, get_string-encoded_end a.message short))

module _ (a : OpenAssocAck) (p : Bytes) where
  pub parse-marshal_open_assoc_ack :
      a.id < 2 ^ 32 → marshal_open_assoc_ack a ≡ ok p → parse_open_assoc_ack p ≡ ok a
  unfolding marshal_open_assoc_ack parse_open_assoc_ack
  parse-marshal_open_assoc_ack h e =
      let (short, q) = put_string-eq-ok _ a.message e in
      rw (q, append_assoc, get_u32-put_u32, h)
        (ground (arith, get_string-encoded_end a.message short))

module _ (o : OpenAssoc) (p : Bytes) where
  pub parse-marshal_open_assoc :
      o.id < 2 ^ 32 → marshal_open_assoc o ≡ ok p → parse_open_assoc p ≡ ok o
  unfolding marshal_open_assoc parse_open_assoc
  parse-marshal_open_assoc h e =
      let (short, q) = put_string-eq-ok _ o.client_addr e in
      rw (
        q,
        get_u32-put_u32 o.id (encoded o.client_addr) h,
        get_string-encoded_end o.client_addr short,
      )

  pub marshal-parse_open_assoc : IsBytes p → parse_open_assoc p ≡ ok o → marshal_open_assoc o ≡ ok p
  unfolding marshal_open_assoc parse_open_assoc
  marshal-parse_open_assoc b e =
      let (n, rest, small, split, b', e') = get_u32_then p _ b e in
      let (s, rest', short, split', _, e'') = get_string_then rest _ b' e' in
      let (nil, same) = at_end rest' _ _ e'' in
      ground (arith, put_string_lem (put_u32 n) s short, append-nil (encoded s))

module _ (d : Datagram) (p : Bytes) where
  pub parse-marshal_datagram : d.id < 2 ^ 32 → marshal_datagram d ≡ ok p → parse_datagram p ≡ ok d
  unfolding marshal_datagram parse_datagram
  parse-marshal_datagram h e = ground (arith, get_u32-put_u32 d.id d.payload h)

  pub marshal-parse_datagram :
      IsBytes p → length p ≤ 65536 → parse_datagram p ≡ ok d → marshal_datagram d ≡ ok p
  unfolding marshal_datagram parse_datagram
  marshal-parse_datagram b fits e =
      let (n, rest, small, split, b', e') = get_u32_then p _ b e in
      ground (arith, length-append (put_u32 n) rest, length-put_u32 n)

module _ (c : CloseAssoc) (p : Bytes) where
  pub parse-marshal_close_assoc :
      c.id < 2 ^ 32 → marshal_close_assoc c ≡ ok p → parse_close_assoc p ≡ ok c
  unfolding marshal_close_assoc parse_close_assoc
  parse-marshal_close_assoc h e =
      ground (arith, get_u32-put_u32 c.id [] h, append-nil (put_u32 c.id))

  pub marshal-parse_close_assoc :
      IsBytes p → parse_close_assoc p ≡ ok c → marshal_close_assoc c ≡ ok p
  unfolding marshal_close_assoc parse_close_assoc
  marshal-parse_close_assoc b e =
      let (n, rest, small, split, b', e') = get_u32_then p _ b e in
      let (nil, same) = at_end rest _ _ e' in ground (arith, append-nil (put_u32 n))

pub parse-ping_payload : (nsec : ℕ) → nsec < 2 ^ 64 → parse_ping (ping_payload nsec) ≡ ok nsec
unfolding parse_ping ping_payload
parse-ping_payload nsec h = get_u64-put_u64 nsec h

marshal_open_meta_lem :
    (o : OpenMeta)
    → IsShort o.name
    → IsShort o.local
    → IsShort o.client_addr
    → marshal_open_meta o
      ≡ ok (o.proto ∷ (encoded o.name ++ (encoded o.local ++ encoded o.client_addr)))
unfolding marshal_open_meta
marshal_open_meta_lem o n l c =
    rw (put_string_lem _ o.name n)
      (rw (put_string_lem _ o.local l) (rw (put_string_lem _ o.client_addr c) (simp append_assoc)))

module _ (o : OpenMeta) (p : Bytes) where
  pub parse-marshal_open_meta : marshal_open_meta o ≡ ok p → parse_open_meta p ≡ ok o
  unfolding marshal_open_meta parse_open_meta
  parse-marshal_open_meta e =
      let (buf, first, e') = >>=-eq-ok (put_string (o.proto ∷ []) o.name) _ e in
      let (buf', second, third) = >>=-eq-ok (put_string buf o.local) _ e' in
      let (n, b) = put_string-eq-ok _ o.name first in
      let (l, b') = put_string-eq-ok buf o.local second in
      let (c, q) = put_string-eq-ok buf' o.client_addr third in
      rw (q, b', b, append_assoc, append_assoc)
        (ground (
          arith,
          get_string-encoded o.name (encoded o.local ++ encoded o.client_addr) n,
          get_string-encoded o.local (encoded o.client_addr) l,
          get_string-encoded_end o.client_addr c,
        ))

-- ParseAuthRequest returns a request exactly for the bytes that Marshal makes of it.
pub auth_request_codec :
    (a : AuthRequest) (p : Bytes)
    → IsBytes p
    → (marshal_auth_request a ≡ ok p) ↔ (parse_auth_request p ≡ ok a)
auth_request_codec a p b = (parse-marshal_auth_request a p, marshal-parse_auth_request a p b)

-- On payloads that fit in a frame and 32-bit ids, ParseDatagram returns a datagram exactly for
-- the bytes that Marshal makes of it.
pub datagram_codec :
    (d : Datagram) (p : Bytes)
    → IsBytes p
    → d.id < 2 ^ 32
    → length p ≤ 65536
    → (marshal_datagram d ≡ ok p) ↔ (parse_datagram p ≡ ok d)
datagram_codec d p b small fits =
    (parse-marshal_datagram d p small, marshal-parse_datagram d p b fits)
