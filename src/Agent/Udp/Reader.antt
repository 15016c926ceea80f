-- ===== src/Agent/Udp/Reader.antt =====
-- internal/agent/udp.go: readLoop, which turns the frames of Edge into steps of the associations.
use faketunnel.Base.{
  ℕ, ◌^◌, ◌<◌, ◌≡◌, inl, inr, Bool, true, false, none, List, [], ◌∷◌, ◌++◌, arith, leb, ◌==◌,
  if◌then◌else◌, Bool-cases, Option-cases, is_some, length, ok, err,
}
use faketunnel.Base.Ids.{lookup_id, lookup_id-assign_id}
use faketunnel.Tunnel.Frame.{Frame, type_open_assoc, type_datagram, type_close_assoc}
use faketunnel.Tunnel.Messages.{
  OpenAssoc, marshal_open_assoc, parse_open_assoc, parse_datagram, parse_close_assoc,
}
use faketunnel.Tunnel.Messages.RoundTrip.{parse-marshal_open_assoc}
use faketunnel.Agent.Udp.{
  Hub, ack, open_assoc, enter_assoc, Step, opens, enters, writes, closes, step, run_steps,
}

-- What the rest of the world does while a frame is handled: the time, whether the local dial
-- connects, whether the local write succeeds, and whether the stream takes a frame.
pub record World : Type 0 where
  pub now : ℕ
  pub dials : Bool
  pub sends : Bool
  pub writable : Bool

-- a frame that does not parse, or has another type, is passed over
unfoldable pub frame_steps : World → Frame → List Step
frame_steps w f =
    if f.kind == type_open_assoc
    then elim (parse_open_assoc f.payload) [
      | err why ↦ []
      | ok o ↦ opens o.id w.dials w.writable ∷ enters w.now w.writable ∷ []
    ]
    else if f.kind == type_datagram
    then elim (parse_datagram f.payload) [
      | err why ↦ []
      | ok d ↦ writes d.id w.now w.sends w.writable ∷ []
    ]
    else if f.kind == type_close_assoc
    then elim (parse_close_assoc f.payload) [
      | err why ↦ []
      | ok c ↦ closes c.id false w.writable ∷ []
    ]
    else []

-- readLoop, on the frames that arrive before the stream ends
unfoldable pub read_steps : List (World × Frame) → List Step
read_steps [] = []
read_steps ((w, f) ∷ more) = frame_steps w f ++ read_steps more

-- the reader's part of openAssoc, which is answered at once
open_answers :
    (max id now : ℕ) (dials : Bool) (h : Hub)
    → h.opening ≡ none
    → h.closed ≡ false
    → let after = enter_assoc now true (open_assoc max id dials true h) in
      after.sent ≡ ack id (is_some (lookup_id id after.assocs)) ∷ h.sent
unfolding open_assoc enter_assoc
open_answers max id now dials h idle live = elim (Option-cases (lookup_id id h.assocs)) [
  | inr p ↦ let (a, e) = p in ground (arith, idle, live, e)
  | inl e ↦ elim (Bool-cases (leb max (length h.assocs))) [
    | inl full ↦ ground (arith, idle, live, e, full)
    | inr room ↦ elim (Bool-cases dials) [
      | inr off ↦ ground (arith, idle, live, e, room, off)
      | inl on ↦
          let found =
            lookup_id-assign_id id id (record { conn = h.next_conn; last = now }) h.assocs in
          ground (arith, idle, live, e, room, on, found)
    ]
  ]
]

-- Where a UDP hub of the Agent is open, opens no other association, and its stream takes frames,
-- an OpenAssoc frame that Edge marshals of a 32-bit id is answered with one acknowledgement of
-- that id, which accepts exactly if the association is in the table afterwards, whether it was
-- there, the limit is reached, or the dial fails.
pub frame_steps_answer :
    (max : ℕ) (w : World) (o : OpenAssoc) (f : Frame) (h : Hub)
    → o.id < 2 ^ 32
    → f.kind ≡ type_open_assoc
    → marshal_open_assoc o ≡ ok f.payload
    → h.opening ≡ none
    → h.closed ≡ false
    → w.writable ≡ true
    → (run_steps max (frame_steps w f) h).sent
      ≡ ack o.id (is_some (lookup_id o.id (run_steps max (frame_steps w f) h).assocs)) ∷ h.sent
unfolding frame_steps step
frame_steps_answer max w o f h small kind wire idle live takes =
    let parsed = parse-marshal_open_assoc o f.payload small wire in
    let answer = open_answers max o.id w.now w.dials h idle live in
    ground (arith, kind, parsed, answer, idle, takes)
