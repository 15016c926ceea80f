-- ===== src/Edge/Trust.antt =====
-- internal/edge/server.go: what the connections of all addresses do to the bans of one.
use faketunnel.Base.{
  ℕ, ◌≡◌, refl, sym, ◌∙◌, ◌⊎◌, inl, inr, Bool, false, ◌||◌, Option, none, some, List, [], ◌∷◌,
  arith, ◌==◌, Bool-cases, length, Result, ok, err, Result-cases, Bytes, text,
}
use mathlib.Core.Path.{subst}
use faketunnel.Net.{Ip}
use faketunnel.Acl.Parsing.{allow}
use faketunnel.Ban.Store as Bans
use faketunnel.Ban.Store.{
  record_at, blocked_locked, kind_locked, permanent, observe_valid_locked, observe_invalid_locked,
  ban_permanent_locked,
}
use faketunnel.Ban.Methods.{
  ip_key, is_pardoned, blocked, observe_invalid, observe_valid, ban_permanent,
}
use faketunnel.Ban.Steps.{Op, invalid, probe, valid, key_of, is_unban, step}
use faketunnel.Tunnel.Conn as Tunnel
use faketunnel.Tunnel.Conn.{Conn, is_probe, probe_of}
use faketunnel.Tunnel.Handshake.{server_handshake}
use faketunnel.Edge.Gate.{
  Server, Failure, tunnel_error, classify_tls, is_probe_failure, remember_agent, trusted_tunnel_ip,
  is_unauthorized, note_tunnel_invalid, public_allowed, welcome, greet, handle_agent,
}

-- A connection to the tunnel port, or to a public one.
pub data Event : Type 0 where
  agent : Ip → Option Bytes → Conn → ℕ → Bool → Event
  visitor : Ip → ℕ → Bool → Event

module _ (ip_string : Ip → Bytes) (sha256 : Bytes → Bytes) (token : Bytes) where
  abbrev pub on_event : Event → Server → Server
  on_event (agent ip tls conn now writable) s =
      (handle_agent ip_string sha256 token ip tls conn now writable s).0
  on_event (visitor ip now writable) s = (public_allowed ip_string ip now writable s).0

  abbrev pub on_events : List Event → Server → Server
  on_events [] s = s
  on_events (e ∷ es) s = on_events es (on_event e s)

  abbrev pub address : Event → Ip
  address (agent ip tls conn now writable) = ip
  address (visitor ip now writable) = ip

  -- An event does nothing to the bans, or one operation on its own address, which is the end of a
  -- streak where the address is trusted, and never an unban.
  abbrev pub OneOp : Ip → Server → Bans.Store → Type 0
  OneOp ip s after =
      (after ≡ s.bans)
      ⊎ ((o : Op) × (after ≡ step o s.bans)
          × (key_of o ≡ ip_key ip_string ip)
          × (is_unban o ≡ false)
          × ((length (ip_key ip_string ip) == 0) ≡ false)
          × ((trusted_tunnel_ip ip s ≡ false) ⊎ (o ≡ valid (ip_key ip_string ip))))

  -- a method of the ban store is one operation, unless the address has no key
  abbrev AtKey : Ip → Bans.Store → Bans.Store → Op → Type 0
  AtKey ip b after o =
      (after ≡ b) ⊎ (((length (ip_key ip_string ip) == 0) ≡ false) × (after ≡ step o b))

  observe_invalid-AtKey :
      (ip : Ip) (reason : Bytes) (now : ℕ) (writable : Bool) (b : Bans.Store)
      → AtKey ip b
          (observe_invalid ip_string ip reason now writable b)
          (invalid (ip_key ip_string ip) reason now writable)
  unfolding observe_invalid step
  observe_invalid-AtKey ip reason now writable b =
      elim (Bool-cases (length (ip_key ip_string ip) == 0)) [
        | inl e ↦ inl (rw e refl)
        | inr e ↦ inr (e, rw e refl)
      ]

  ban_permanent-AtKey :
      (ip : Ip) (writable : Bool) (b : Bans.Store)
      → AtKey ip b (ban_permanent ip_string ip writable b) (probe (ip_key ip_string ip) writable)
  unfolding ban_permanent step
  ban_permanent-AtKey ip writable b = elim (Bool-cases (length (ip_key ip_string ip) == 0)) [
    | inl e ↦ inl (rw e refl)
    | inr e ↦ inr (e, rw e refl)
  ]

  observe_valid-AtKey :
      (ip : Ip) (b : Bans.Store)
      → AtKey ip b (observe_valid ip_string ip b) (valid (ip_key ip_string ip))
  unfolding observe_valid step
  observe_valid-AtKey ip b = elim (Bool-cases (length (ip_key ip_string ip) == 0)) [
    | inl e ↦ inl (rw e refl)
    | inr e ↦ inr (e, rw e refl)
  ]

  struck-OneOp :
      (ip : Ip) (s : Server) (after b : Bans.Store) (o : Op)
      → AtKey ip s.bans b o
      → after ≡ b
      → key_of o ≡ ip_key ip_string ip
      → is_unban o ≡ false
      → (trusted_tunnel_ip ip s ≡ false) ⊎ (o ≡ valid (ip_key ip_string ip))
      → OneOp ip s after
  struck-OneOp ip s after b o (inl same) e k u t = inl (e ∙ same)
  struck-OneOp ip s after b o (inr (nz, one)) e k u t = inr (o, e ∙ one, k, u, nz, t)

  note-OneOp :
      (ip : Ip) (e : Failure) (now : ℕ) (writable : Bool) (s : Server)
      → OneOp ip s (note_tunnel_invalid ip_string ip e now writable s).bans
  unfolding note_tunnel_invalid
  note-OneOp ip e now writable s =
      elim (Bool-cases (trusted_tunnel_ip ip s || is_pardoned ip_string ip s.bans)) [
        | inl safe ↦ inl (ground (arith, safe))
        | inr exposed ↦
            let t : trusted_tunnel_ip ip s ≡ false = ground (arith, exposed) in
            let p : is_pardoned ip_string ip s.bans ≡ false = ground (arith, exposed) in
            elim (Bool-cases (is_probe_failure e)) [
              | inl probing ↦
                  struck-OneOp ip s _ _ _ (ban_permanent-AtKey ip writable s.bans)
                    (ground (arith, t, p, probing)) refl refl (inl t)
              | inr not_probing ↦ elim (Bool-cases (is_unauthorized e)) [
                | inl wrong ↦
                    struck-OneOp ip s _ _ _
                      (observe_invalid-AtKey ip (text "auth") now writable s.bans)
                      (ground (arith, t, p, not_probing, wrong)) refl refl (inl t)
                | inr other ↦ inl (ground (arith, not_probing, other))
              ]
            ]
      ]

  welcome-OneOp :
      (ip : Ip) (now : ℕ) (writable : Bool) (s : Server) (r : Result Tunnel.Error Bytes)
      → OneOp ip s (welcome ip_string sha256 token ip now writable s r).0.bans
  welcome-OneOp ip now writable s (err e) = note-OneOp ip (tunnel_error e) now writable s
  welcome-OneOp ip now writable s (ok id) =
      struck-OneOp ip s _ _ _ (observe_valid-AtKey ip s.bans)
        (unfold remember_agent in ground arith) refl refl (inr refl)

  greet-OneOp :
      (ip : Ip) (tls : Option Bytes) (conn : Conn) (now : ℕ) (writable : Bool) (s : Server)
      → OneOp ip s (greet ip_string sha256 token ip tls conn now writable s).0.bans
  greet-OneOp ip (some msg) conn now writable s = note-OneOp ip (classify_tls msg) now writable s
  greet-OneOp ip none conn now writable s =
      welcome-OneOp ip now writable s (server_handshake sha256 token conn).1

  pub on_event-OneOp : (e : Event) (s : Server) → OneOp (address e) s (on_event e s).bans
  unfolding handle_agent public_allowed
  on_event-OneOp (agent ip tls conn now writable) s =
      elim (Bool-cases (blocked ip_string ip now s.bans)) [
        | inl b ↦ inl (ground (arith, b))
        | inr b ↦
            let same : (on_event (agent ip tls conn now writable) s).bans
                ≡ (greet ip_string sha256 token ip tls conn now writable s).0.bans =
              rw (on_event, b) refl in
            subst (OneOp ip s) (sym same) (greet-OneOp ip tls conn now writable s)
      ]
  on_event-OneOp (visitor ip now writable) s = elim (Bool-cases (blocked ip_string ip now s.bans)) [
    | inl b ↦ inl (ground (arith, b))
    | inr b ↦ elim (Bool-cases (allow ip s.acl)) [
      | inl a ↦
          struck-OneOp ip s _ _ _ (observe_valid-AtKey ip s.bans) (ground (arith, b, a)) refl refl
            (inr refl)
      | inr a ↦ elim (Bool-cases (trusted_tunnel_ip ip s)) [
        | inl t ↦ inl (ground (arith, b, a, t))
        | inr t ↦
            struck-OneOp ip s _ _ _ (observe_invalid-AtKey ip (text "acl") now writable s.bans)
              (ground (arith, b, a, t)) refl refl (inl t)
      ]
    ]
  ]

  pub on_event_acl : (e : Event) (s : Server) → (on_event e s).acl ≡ s.acl
  unfolding handle_agent public_allowed note_tunnel_invalid remember_agent
  on_event_acl (agent ip tls conn now writable) s =
      ground (arith, Result-cases (server_handshake sha256 token conn).1)
  on_event_acl (visitor ip now writable) s = ground arith
