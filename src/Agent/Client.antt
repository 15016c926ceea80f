-- ===== src/Agent/Client.antt =====
-- internal/agent/client.go: how long the Agent waits before it connects again, and what it dials for
-- a stream that the Edge opens. Durations are in nanoseconds.
use faketunnel.Base.{
  ℕ, ◌+◌, ◌*◌, ◌≤◌, ◌<◌, ◌≡◌, ◌⊎◌, inl, inr, Bool, true, not, Option, none, some, List, [], ◌∷◌,
  arith, ltb, ◌==◌, if◌then◌else◌, Option-cases, All, Result, ok, err, Result-cases, Bytes,
}
use faketunnel.Config.File.{File, Tunnel, is_blank}
use faketunnel.Net.{Ip}
use faketunnel.Config.File.{restrict_tunnels, tunnel_by_name, private_only}
use faketunnel.Proxy.Local as Local
use faketunnel.Proxy.Local.{validate_local}
use faketunnel.Tunnel.Frame.{proto_udp}
use faketunnel.Tunnel.Messages.{OpenMeta}

abbrev pub min_backoff : ℕ
min_backoff = 500000000

abbrev pub max_backoff : ℕ
max_backoff = 15000000000

-- `rand.Int64N` draws the jitter below this
abbrev pub max_jitter : ℕ
max_jitter = 400000000

unfoldable pub next_backoff : ℕ → ℕ → ℕ
next_backoff prev jitter =
    let d = prev * 2 in
    let floor = if ltb d min_backoff then min_backoff else d in
    (if ltb max_backoff floor then max_backoff else floor) + jitter

-- One round of Run: whether connectOnce got a session, and the jitter drawn.
abbrev pub Attempt : Type 0
Attempt = Bool × ℕ

-- what the loop of Run waits after each attempt, from the wait before
unfoldable pub waits : ℕ → List Attempt → List ℕ
waits backoff [] = []
waits backoff ((established, jitter) ∷ rest) =
    let wait = next_backoff (if established then 0 else backoff) jitter in wait ∷ waits wait rest

pub data Reason : Type 0 where
  no_target unknown_tunnel no_target_for dial_failed : Reason
  rejected : Local.Error → Reason

unfoldable pub resolve_local : File → OpenMeta → Result Reason Bytes
resolve_local c meta =
    if not (restrict_tunnels c)
    then (if is_blank meta.local then err no_target else ok meta.local)
    else elim (tunnel_by_name meta.name c) [
      | none ↦ err unknown_tunnel
      | some t ↦
          if not (is_blank t.local)
          then ok t.local
          else if is_blank meta.local
          then err no_target_for
          else ok meta.local
    ]

-- How a stream ends: refused with a message, or given up when the acknowledgement could not be
-- sent, or relayed, or kept for the associations of a UDP port.
pub data Outcome : Type 0 where
  refused : Reason → Outcome
  unacknowledged : Outcome
  relayed : Bytes → Outcome
  hub_ready : Bytes → Outcome

-- `dial` is whether net.DialTimeout connects, `acked` whether AckData succeeds.
module _ (parse_ip : Bytes → Option Ip) (resolve : Bytes → Option (List Ip)) (c : File) where
  -- resolveLocal and ValidateLocal, as the handlers of both kinds of stream call them
  unfoldable pub local_target : OpenMeta → Result Reason Bytes
  local_target meta = elim (resolve_local c meta) [
    | err why ↦ err why
    | ok local ↦ elim (validate_local parse_ip resolve local (private_only c)) [
      | err why ↦ err (rejected why)
      | ok _ ↦ ok local
    ]
  ]

  -- handleUDPStream: each association of the hub dials the address later
  unfoldable pub handle_udp_stream : OpenMeta → Bool → Outcome × Option Bytes
  handle_udp_stream meta acked = elim (local_target meta) [
    | err why ↦ (refused why, none)
    | ok local ↦ if acked then (hub_ready local, some local) else (unacknowledged, none)
  ]

  -- the outcome, and the address dialled
  unfoldable pub handle_stream : OpenMeta → (Bytes → Bool) → Bool → Outcome × Option Bytes
  handle_stream meta dial acked =
      if meta.proto == proto_udp then handle_udp_stream meta acked else elim (local_target meta) [
        | err why ↦ (refused why, none)
        | ok local ↦
            if not (dial local)
            then (refused dial_failed, some local)
            else if acked
            then (relayed local, some local)
            else (unacknowledged, some local)
      ]

-- a wait is half a second at least, and less than 15.4 seconds, whatever came before
pub next_backoff_bounds :
    (prev jitter : ℕ)
    → jitter < max_jitter
    → (min_backoff ≤ next_backoff prev jitter)
      × (next_backoff prev jitter < max_backoff + max_jitter)
unfolding next_backoff
next_backoff_bounds prev jitter h = ground (arith, h)

pub next_backoff_grows :
    (prev jitter : ℕ)
    → (max_backoff ≤ next_backoff prev jitter) ⊎ (prev * 2 ≤ next_backoff prev jitter)
unfolding next_backoff
next_backoff_grows prev jitter = ground arith

abbrev Bounded : ℕ → Type 0
Bounded w = (min_backoff ≤ w) × (w < max_backoff + max_jitter)

-- Every wait between two attempts of the Agent to connect is half a second at least and less
-- than the longest backoff and jitter together, whatever sequence of outcomes came before, if
-- each jitter is below its bound.
pub waits_bounded :
    (backoff : ℕ) (attempts : List Attempt)
    → All (λ a. a.1 < max_jitter) attempts
    → All (λ w. (min_backoff ≤ w) × (w < max_backoff + max_jitter)) (waits backoff attempts)
unfolding waits
waits_bounded backoff [] h = tt
waits_bounded backoff ((established, jitter) ∷ rest) h =
    let prev = if established then 0 else backoff in
    (next_backoff_bounds prev jitter h.0, waits_bounded (next_backoff prev jitter) rest h.1)

module _ (parse_ip : Bytes → Option Ip) (resolve : Bytes → Option (List Ip)) (c : File) where
  pub handle_stream_dials :
      (meta : OpenMeta) (dial : Bytes → Bool) (acked : Bool) (local : Bytes)
      → (handle_stream parse_ip resolve c meta dial acked).1 ≡ some local
      → (validate_local parse_ip resolve local (private_only c) ≡ ok tt)
        × (resolve_local c meta ≡ ok local)
  unfolding handle_stream handle_udp_stream local_target
  handle_stream_dials meta dial acked local h = elim (Result-cases (resolve_local c meta)) [
    | inr p ↦ let (why, e) = p in absurd (ground (arith, h, e))
    | inl p ↦
        let (target, e) = p in
        elim (Result-cases (validate_local parse_ip resolve target (private_only c))) [
          | inr q ↦ let (why, f) = q in absurd (ground (arith, h, e, f))
          | inl q ↦
              let (u, f) = q in
              let same : target ≡ local = ground (arith, h, e, f) in
              rw (← same) (ground (arith, f), e)
        ]
  ]

  -- An Agent whose configuration lists tunnels dials, for a stream or for the associations of a
  -- UDP stream, only an address that ValidateLocal allows, only where the stream names a tunnel
  -- of the list, and only that tunnel's local target where it has one.
  pub handle_stream_restricted :
      (meta : OpenMeta) (dial : Bytes → Bool) (acked : Bool) (local : Bytes)
      → restrict_tunnels c ≡ true
      → (handle_stream parse_ip resolve c meta dial acked).1 ≡ some local
      → (validate_local parse_ip resolve local (private_only c) ≡ ok tt)
        × (t : Tunnel) × (tunnel_by_name meta.name c ≡ some t)
        × ((is_blank t.local ≡ true) ⊎ (t.local ≡ local))
  unfolding resolve_local
  handle_stream_restricted meta dial acked local hr h =
      let (checked, from) = handle_stream_dials meta dial acked local h in
      elim (Option-cases (tunnel_by_name meta.name c)) [
        | inl e ↦ absurd (ground (arith, hr, from, e))
        | inr p ↦ let (t, e) = p in (checked, t, e, ground (arith, hr, from, e))
      ]
