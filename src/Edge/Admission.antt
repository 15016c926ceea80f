-- ===== src/Edge/Admission.antt =====
-- internal/edge/http.go: which connections handleHTTPConn hands to a tunnel, and to which one.
use faketunnel.Base.{
  ◌<◌, ◌≡◌, refl, inl, inr, Bool, true, false, ◌||◌, Option, none, some, List, [], ◌∷◌, arith,
  if◌then◌else◌, Bool-cases, Option-cases, Bytes, text, text_eq, text_eq_refl, all,
}
use faketunnel.Config.File.{Tunnel, is_empty}
use faketunnel.Edge.Routes.{HttpListener, lookup_http_tunnel}
use faketunnel.Edge.Visits.{
  Visitor, Slots, spliced, splice_http, splice_to, after_tls, terminate, with_tls, handle_http_conn,
}

abbrev is_text : Bytes → Option Bytes → Bool
is_text x none = false
is_text x (some y) = text_eq y x

abbrev is_name : Bytes → Option (Bytes × Bytes) → Bool
is_name x none = false
is_name x (some p) = text_eq p.0 x

abbrev is_host : Bytes → Option (Bytes × Bool) → Bool
is_host x none = false
is_host x (some p) = text_eq p.0 x

-- the name of the visitor's hello, of its handshake or of its first request, or none at all
abbrev pub is_shown : Visitor → Bytes → Bool
is_shown v x = is_empty x || (is_text x v.hello || (is_name x v.handshake || is_host x v.head))

module _ (to_lower : Bytes → Bytes) (l : HttpListener) (s : Slots) (opens : Bool) where
  abbrev pub Admitted : Type 0
  Admitted = (s.in_use < s.capacity) × (s.has_session ≡ true)

  -- the tunnel is the listener's for names that the visitor showed
  abbrev pub Routed : Visitor → Tunnel → Type 0
  Routed v u =
      (hosts : List Bytes) × (all (is_shown v) hosts ≡ true)
      × (lookup_http_tunnel to_lower l hosts ≡ some u)

  splice_http_lem :
      (t u : Tunnel) (http2 passthrough h p : Bool)
      → splice_http s opens t http2 passthrough ≡ spliced u h p
      → (u ≡ t) × (s.in_use < s.capacity) × (s.has_session ≡ true)
  unfolding splice_http
  splice_http_lem t u http2 passthrough h p e = ground (arith, e)

  splice_to_lem :
      (v : Visitor) (hosts : List Bytes) (http2 : Bool) (u : Tunnel) (h p : Bool)
      → all (is_shown v) hosts ≡ true
      → splice_to to_lower l s opens hosts http2 ≡ spliced u h p
      → Routed v u × Admitted
  splice_to_lem v hosts http2 u h p shown e =
      elim (Option-cases (lookup_http_tunnel to_lower l hosts)) [
        | inl f ↦ absurd (ground (arith, e, f))
        | inr q ↦
            let (t, f) = q in
            let (same, room, there) = splice_http_lem t u http2 false h p (ground (arith, e, f)) in
            ((hosts, shown, ground (arith, f, same)), (room, there))
      ]

  hello_is_shown : (v : Visitor) (sni : Bytes) → v.hello ≡ some sni → is_shown v sni ≡ true
  hello_is_shown v sni e = let same = text_eq_refl sni in ground (arith, e, same)

  handshake_is_shown :
      (v : Visitor) (done : Bytes × Bytes) → v.handshake ≡ some done → is_shown v done.0 ≡ true
  handshake_is_shown v done e = let same = text_eq_refl done.0 in ground (arith, e, same)

  head_is_shown :
      (v : Visitor) (head : Bytes × Bool) → v.head ≡ some head → is_shown v head.0 ≡ true
  head_is_shown v head e = let same = text_eq_refl head.0 in ground (arith, e, same)

  after_tls_lem :
      (sni : Bytes) (tls_state : Option Bytes) (alpn : Bytes) (v : Visitor) (u : Tunnel)
      (h p : Bool)
      → is_shown v sni ≡ true
      → after_tls to_lower l s opens sni tls_state alpn v ≡ spliced u h p
      → Routed v u × Admitted
  after_tls_lem sni tls_state alpn v u h p shown e = elim (Bool-cases (text_eq alpn (text "h2"))) [
    | inl f ↦ splice_to_lem v (sni ∷ []) true u h p (ground (arith, shown)) (ground (arith, e, f))
    | inr f ↦ elim (Option-cases v.head) [
      | inl g ↦ absurd (ground (arith, e, f, g))
      | inr q ↦
          let (head, g) = q in
          elim (Bool-cases head.1) [
            | inr old ↦ absurd (ground (arith, e, f, g, old))
            | inl two ↦
                let named = head_is_shown v head g in
                splice_to_lem v (head.0 ∷ sni ∷ []) true u h p (ground (arith, shown, named))
                  (ground (arith, e, f, g, two))
          ]
    ]
  ]

  terminate_lem :
      (v : Visitor) (sni : Bytes) (u : Tunnel) (h p : Bool)
      → is_shown v sni ≡ true
      → terminate to_lower l s opens sni v ≡ spliced u h p
      → Routed v u × Admitted
  terminate_lem v sni u h p shown e = elim (Option-cases v.handshake) [
    | inl k ↦ absurd (ground (arith, e, k))
    | inr m ↦
        let (done, k) = m in
        let named = handshake_is_shown v done k in
        after_tls_lem (if is_empty done.0 then sni else done.0) (some done.0) done.1 v u h p
          (ground (arith, shown, named)) (ground (arith, e, k))
  ]

  with_tls_lem :
      (v : Visitor) (u : Tunnel) (h p : Bool)
      → with_tls to_lower l s opens v ≡ spliced u h p
      → Routed v u × Admitted
  with_tls_lem v u h p e = elim (Option-cases v.hello) [
    | inl f ↦ absurd (ground (arith, e, f))
    | inr q ↦
        let (sni, f) = q in
        let shown = hello_is_shown v sni f in
        elim (Option-cases (lookup_http_tunnel to_lower l (sni ∷ []))) [
          | inl g ↦ absurd (ground (arith, e, f, g))
          | inr r ↦
              let (t, g) = r in
              elim (Bool-cases t.passthrough) [
                | inl pass ↦
                    let (same, room, there) =
                      splice_http_lem t u false true h p (ground (arith, e, f, g, pass)) in
                    ((sni ∷ [], ground (arith, shown), ground (arith, g, same)), (room, there))
                | inr stop ↦ terminate_lem v sni u h p shown (ground (arith, e, f, g, stop))
              ]
        ]
  ]

  -- A connection to a public HTTP address is spliced to a tunnel only if publicAllowed let it
  -- in, fewer sessions than the cap are in use, the Agent has a session, and the tunnel is the
  -- listener's for names that, empty ones aside, the visitor showed in its hello, its handshake
  -- or its first request.
  pub handle_http_conn_lem :
      (allowed tls : Bool) (v : Visitor) (u : Tunnel) (h p : Bool)
      → handle_http_conn to_lower l s opens allowed tls v ≡ spliced u h p
      → (allowed ≡ true) × Routed v u × Admitted
  unfolding handle_http_conn
  handle_http_conn_lem false tls v u h p e = absurd (ground (arith, e))
  handle_http_conn_lem true true v u h p e =
      let (routed, room) = with_tls_lem v u h p e in (refl, routed, room)
  handle_http_conn_lem true false v u h p e =
      let (routed, room) = after_tls_lem [] none [] v u h p refl e in (refl, routed, room)
