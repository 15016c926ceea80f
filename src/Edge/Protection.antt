-- ===== src/Edge/Protection.antt =====
-- internal/edge/server.go: whom the bans can reach, and whom they keep out.
use faketunnel.Base.{
  ℕ, ◌+◌, ◌%◌, ◌^◌, ◌≡◌, sym, ◌∙◌, inl, inr, Bool, true, false, Option, none, some, List, [], ◌∷◌,
  arith, ◌==◌, if◌then◌else◌, Bool-cases, length, Result, ok, err, Result-cases, Bytes, text_eq,
  text_eq_iff, text_eq_refl,
}
use faketunnel.Base.Maps.{contains, insert, lookup-insert}
use faketunnel.Net.{Ip, is_nil, shortest, ip_equal}
use faketunnel.Acl.Parsing.{allow}
use faketunnel.Ban.Store as Bans
use faketunnel.Ban.Store.{
  record_at, blocked_locked, kind_locked, permanent, observe_valid_locked, ban_permanent_locked,
  ban_record,
}
use faketunnel.Ban.Methods.{ip_key, is_pardoned, blocked, kind, ban_permanent}
use faketunnel.Ban.Steps.{valid, key_of, step, run}
use faketunnel.Ban.Histories.{step_other, permanent_stays}
use faketunnel.Ban.Invariant.{persist_locked_lem}
use faketunnel.Tunnel.Conn as Tunnel
use faketunnel.Tunnel.Conn.{Conn, is_probe, probe_of}
use faketunnel.Tunnel.Handshake.{server_handshake}
use faketunnel.Edge.Gate.{
  Server, remember_agent, trusted_tunnel_ip, is_allowed, note_tunnel_invalid, public_allowed,
  welcome, greet, handle_agent,
}
use faketunnel.Edge.Trust.{Event, on_event, on_events, OneOp, address, on_event-OneOp, on_event_acl}

module _ (ip_string : Ip → Bytes) where
  -- different addresses print differently, the mapped form of an IPv4 address as that address
  abbrev pub IsPrinter : Type 0
  IsPrinter = (a b : Ip) → ip_string (shortest a) ≡ ip_string (shortest b) → shortest a ≡ shortest b

  same_key_trusted :
      (a b : Ip) (s : Server)
      → IsPrinter
      → ip_key ip_string b ≡ ip_key ip_string a
      → (length (ip_key ip_string b) == 0) ≡ false
      → allow a s.acl ≡ true
      → trusted_tunnel_ip b s ≡ true
  unfolding ip_key allow trusted_tunnel_ip
  same_key_trusted a b s distinct same keyed let_in =
      ground (arith, same, keyed, let_in, distinct b a)

  valid_blocked :
      (k key : Bytes) (t : ℕ) (b : Bans.Store)
      → blocked_locked (step (valid k) b) key t ≡ blocked_locked b key t
  unfolding step observe_valid_locked blocked_locked
  valid_blocked k key t b = ground (
    arith,
    lookup-insert k key (record (record_at b k) { consecutive = 0 }) b.by_ip,
    text_eq_iff k key,
  )

ban_permanent_locked_kind :
    (key : Bytes) (writable : Bool) (t : ℕ) (b : Bans.Store)
    → contains key b.pardoned ≡ false
    → kind_locked (ban_permanent_locked key writable b) key t ≡ permanent
unfolding ban_permanent_locked kind_locked
ban_permanent_locked_kind key writable t b h =
    let r = ban_record (record_at b key) in
    ground (
      arith,
      h,
      lookup-insert key key r b.by_ip,
      text_eq_refl key,
      persist_locked_lem writable (record b { by_ip = insert key r b.by_ip }),
    )

module _ (ip_string : Ip → Bytes) (sha256 : Bytes → Bytes) (token : Bytes) where
  -- what one event leaves of an allowlisted address
  event_unblocked :
      (ip by : Ip) (s : Server) (after : Bans.Store)
      → IsPrinter ip_string
      → allow ip s.acl ≡ true
      → OneOp ip_string sha256 token by s after
      → (t : ℕ) → blocked ip_string ip t s.bans ≡ false
      → blocked ip_string ip t after ≡ false
  unfolding blocked
  event_unblocked ip by s after p a (inl same) t h = rw same h
  event_unblocked ip by s after p a (inr (o, one, k, u, nz, tr)) t h =
      elim (Bool-cases (text_eq (key_of o) (ip_key ip_string ip))) [
        | inr other ↦
            unfold blocked_locked in
            ground (arith, one, step_other o (ip_key ip_string ip) s.bans other)
        | inl same ↦
            let key_same = (text_eq_iff (key_of o) (ip_key ip_string ip)).0 same in
            let by_same : ip_key ip_string by ≡ ip_key ip_string ip = sym k ∙ key_same in
            let trusted = same_key_trusted ip_string ip by s p by_same nz a in
            let is_valid : o ≡ valid (ip_key ip_string by) = ground (arith, tr, trusted) in
            ground (
              arith,
              one,
              is_valid,
              h,
              valid_blocked ip_string (ip_key ip_string by) (ip_key ip_string ip) t s.bans,
            )
      ]

  -- If different addresses print differently, an allowlisted address that is not blocked at a
  -- time is not blocked at that time after any connections of any addresses to the tunnel port
  -- and the public ports, whatever they send.
  pub allowlisted_stays_unblocked :
      (es : List Event) (ip : Ip) (s : Server) (t : ℕ)
      → IsPrinter ip_string
      → allow ip s.acl ≡ true
      → blocked ip_string ip t s.bans ≡ false
      → blocked ip_string ip t (on_events ip_string sha256 token es s).bans ≡ false
  allowlisted_stays_unblocked [] ip s t p a h = h
  allowlisted_stays_unblocked (e ∷ es) ip s t p a h =
      let after = on_event ip_string sha256 token e s in
      let listed : allow ip after.acl ≡ true = rw (on_event_acl ip_string sha256 token e s) a in
      allowlisted_stays_unblocked es ip after t p listed (
        event_unblocked ip (address ip_string sha256 token e) s after.bans p a
          (on_event-OneOp ip_string sha256 token e s) t h)

  event_permanent :
      (ip by : Ip) (s : Server) (after : Bans.Store) (now t : ℕ)
      → OneOp ip_string sha256 token by s after
      → kind ip_string ip now s.bans ≡ permanent
      → kind ip_string ip t after ≡ permanent
  unfolding kind
  event_permanent ip by s after now t (inl same) h = unfold kind_locked in ground (arith, same, h)
  event_permanent ip by s after now t (inr (o, one, k, u, nz, tr)) h =
      let key = ip_key ip_string ip in
      let stays : kind_locked s.bans key now ≡ permanent
          → kind_locked (step o s.bans) key t ≡ permanent =
        unfold run in permanent_stays (o ∷ []) key s.bans now t (ground (arith, u), tt) in
      ground (arith, one, h, stays)

  -- A permanently banned address is refused by the public ports, by the tunnel port, whatever it
  -- sends, and by the test that evicts connections, at every time and after any connections.
  pub permanent_kept_out :
      (es : List Event) (ip : Ip) (s : Server) (now t : ℕ) (tls : Option Bytes) (conn : Conn)
      (writable : Bool)
      → kind ip_string ip now s.bans ≡ permanent
      → let later = on_events ip_string sha256 token es s in
        ((public_allowed ip_string ip t writable later).1 ≡ false)
        × ((handle_agent ip_string sha256 token ip tls conn t writable later).1 ≡ none)
        × (is_allowed ip_string ip t later ≡ false)
  unfolding public_allowed handle_agent is_allowed kind blocked kind_locked blocked_locked
  permanent_kept_out [] ip s now t tls conn writable h = ground (arith, h)
  permanent_kept_out (e ∷ es) ip s now t tls conn writable h =
      permanent_kept_out es ip (on_event ip_string sha256 token e s) now t tls conn writable (
        event_permanent ip (address ip_string sha256 token e) s
          (on_event ip_string sha256 token e s).bans now now
          (on_event-OneOp ip_string sha256 token e s) h)

  -- A peer of the tunnel port that has a key, is not blocked, pardoned or trusted, and whose
  -- handshake ends in ErrProbe is refused and permanently banned, at every time.
  pub probe_is_banned :
      (ip : Ip) (conn : Conn) (now t : ℕ) (writable : Bool) (s : Server)
      → trusted_tunnel_ip ip s ≡ false
      → is_pardoned ip_string ip s.bans ≡ false
      → (length (ip_key ip_string ip) == 0) ≡ false
      → blocked ip_string ip now s.bans ≡ false
      → probe_of (server_handshake sha256 token conn).1 ≡ true
      → (kind ip_string ip t
            (handle_agent ip_string sha256 token ip none conn now writable s).0.bans
          ≡ permanent)
        × ((handle_agent ip_string sha256 token ip none conn now writable s).1 ≡ none)
  unfolding handle_agent note_tunnel_invalid ban_permanent kind is_pardoned
  probe_is_banned ip conn now t writable s untrusted unpardoned keyed let_in probing =
      elim (Result-cases (server_handshake sha256 token conn).1) [
        | inl (id, r) ↦ absurd (ground (arith, probing, r))
        | inr (e, r) ↦ ground (
          arith,
          untrusted,
          unpardoned,
          keyed,
          let_in,
          probing,
          r,
          ban_permanent_locked_kind (ip_key ip_string ip) writable t s.bans,
        )
      ]

  remembered_is_trusted :
      (ip : Ip) (s : Server)
      → is_nil ip ≡ false
      → s.agent_ip ≡ some ip
      → trusted_tunnel_ip ip s ≡ true
  unfolding trusted_tunnel_ip ip_equal
  remembered_is_trusted ip s real e = ground (arith, real, e, text_eq_refl (shortest ip))

  welcome_remembers :
      (ip : Ip) (now : ℕ) (writable : Bool) (s : Server) (id : Bytes)
      (r : Result Tunnel.Error Bytes)
      → is_nil ip ≡ false
      → (welcome ip_string sha256 token ip now writable s r).1 ≡ some id
      → (welcome ip_string sha256 token ip now writable s r).0.agent_ip ≡ some ip
  unfolding remember_agent
  welcome_remembers ip now writable s id (err e) real h = absurd (ground (arith, h))
  welcome_remembers ip now writable s id (ok name) real h = ground (arith, real)

  greet_remembers :
      (ip : Ip) (tls : Option Bytes) (conn : Conn) (now : ℕ) (writable : Bool) (s : Server)
      (id : Bytes)
      → is_nil ip ≡ false
      → (greet ip_string sha256 token ip tls conn now writable s).1 ≡ some id
      → (greet ip_string sha256 token ip tls conn now writable s).0.agent_ip ≡ some ip
  greet_remembers ip (some msg) conn now writable s id real h = absurd (ground (arith, h))
  greet_remembers ip none conn now writable s id real h =
      welcome_remembers ip now writable s id (server_handshake sha256 token conn).1 real h

  -- An Agent with an address that is let in is trusted in the state that its connection leaves.
  pub authenticated_is_trusted :
      (ip : Ip) (tls : Option Bytes) (conn : Conn) (now : ℕ) (writable : Bool) (s : Server)
      (id : Bytes)
      → is_nil ip ≡ false
      → (handle_agent ip_string sha256 token ip tls conn now writable s).1 ≡ some id
      → trusted_tunnel_ip ip (handle_agent ip_string sha256 token ip tls conn now writable s).0
        ≡ true
  unfolding handle_agent
  authenticated_is_trusted ip tls conn now writable s id real h =
      elim (Bool-cases (blocked ip_string ip now s.bans)) [
        | inl b ↦ absurd (ground (arith, b, h))
        | inr b ↦
            let done = greet_remembers ip tls conn now writable s id real in
            remembered_is_trusted ip _ real (ground (arith, b, h, done))
      ]

-- A visitor is let in exactly where the test that evicts connections would keep him, and the
-- denials grow by one, modulo 2^64, exactly where he is not.
pub public_allowed-is_allowed :
    (ip_string : Ip → Bytes) (ip : Ip) (now : ℕ) (writable : Bool) (s : Server)
    → ((public_allowed ip_string ip now writable s).1 ≡ is_allowed ip_string ip now s)
      × ((public_allowed ip_string ip now writable s).0.denies
          ≡ (if is_allowed ip_string ip now s then s.denies else (s.denies + 1) % 2 ^ 64))
unfolding public_allowed is_allowed allow
public_allowed-is_allowed ip_string ip now writable s = ground arith
