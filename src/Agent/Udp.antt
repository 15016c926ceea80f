-- ===== src/Agent/Udp.antt =====
-- internal/agent/udp.go: the associations of one UDP stream on the Agent's side. A step is one
-- critical section, with what its goroutine does before the next one. Connections are numbered in
-- the order they are dialled, and a frame that cannot be written leaves no trace in `sent`.
pub mod Invariant
pub mod Preserved
pub mod Runs
pub mod Reader
use faketunnel.Base.{
  ℕ, zero, suc, ◌+◌, ◌-◌, ◌*◌, ◌/◌, ◌%◌, ◌^◌, ◌≤◌, ◌<◌, ◌≡◌, refl, sym, ap, ◌∙◌, ◌≢◌, ◌↔◌, ◌⊎◌, inl,
  inr, Bool, true, false, not, ◌&&◌, ◌||◌, Option, none, some, List, [], ◌∷◌, ◌++◌, map, append-nil,
  append_assoc, reverse, reverse-append, reverse-reverse, arith, ltb, leb, ◌==◌, if◌then◌else◌,
  ltb→lt, ltb→le, lt→ltb, le→ltb, ==_iff, Bool-cases, Option-cases, is_some, length, take, drop,
  length-append, take-append-drop, length-take, length-drop, take-length-append, drop-length-append,
  All, All-weaken, All-append, All-take, All-drop, All-append_right, All-append_left, take-length,
  take-append_front, append-take, Result, ok, err, ◌>>=◌, ◌>>◌, reject_if, >>=-eq-ok, Result-cases,
  all, pairwise, is_ok, Bytes, IsBytes, decimal, text, text_eq, text_eq_iff, text_eq_refl,
}
use faketunnel.Base.Spaces.{trim_space, trim_space_idem}
use faketunnel.Base.Spaces.Ends.{
  is_plain, Plain, Ascii, trim_space_behind, trim_space-Plain, trim_space_line,
}
use faketunnel.Base.Maps.{lookup, insert, erase, contains, add, contains-add, lookup-insert, NoDup}
use faketunnel.Base.Ids.{lookup_id, erase_id, assign_id, lookup_id-erase_id, lookup_id-assign_id}
use faketunnel.Base.Integers.{ℤ, pos, negsuc, is_positive, is_negative}
use faketunnel.Base.Scan.{
  has_byte, has_prefix, cut, cut_last, split, has_byte-append, cut_lem, cut_absent, cut-eq-some,
  cut_last_absent, cut_last_lem,
}
use faketunnel.Base.Decimals.{number, number-decimal, decimal_inj}
use faketunnel.Config.File.{File, Tunnel, is_empty, is_blank, find_tunnel}
use faketunnel.Net.HostPort.{split_host_port, join_host_port, split_host_port-join_host_port}

pub record Assoc : Type 0 where
  pub conn : ℕ
  pub last : ℕ

pub data Frame : Type 0 where
  ack : ℕ → Bool → Frame
  closing : ℕ → Frame

-- `opening` is an openAssoc between its two critical sections, with the connection it has dialled,
-- `open_conns` the connections that are not closed, and `leaving` the associations that closeAll has
-- still to close.
pub record Hub : Type 0 where
  pub assocs : List (ℕ × Assoc)
  pub closed : Bool
  pub opening : Option (ℕ × ℕ)
  pub next_conn : ℕ
  pub open_conns : List ℕ
  pub sent : List Frame
  pub leaving : List ℕ

abbrev pub new_hub : Hub
new_hub = record {
  assocs = [];
  closed = false;
  opening = none;
  next_conn = 0;
  open_conns = [];
  sent = [];
  leaving = [];
}

unfoldable pub remove_conn : ℕ → List ℕ → List ℕ
remove_conn c [] = []
remove_conn c (d ∷ ds) = if d == c then ds else d ∷ remove_conn c ds

abbrev close_conn : ℕ → Hub → Hub
close_conn c h = record h { open_conns = remove_conn c h.open_conns }

-- writeFrame, which refuses once the hub is closed; `writable` is whether the stream takes it
abbrev write_frame : Frame → Bool → Hub → Hub
write_frame f writable h = if h.closed || not writable then h else record h { sent = f ∷ h.sent }

-- closeAssoc
unfoldable pub close_assoc : ℕ → Bool → Bool → Hub → Hub
close_assoc id notify writable h = elim (lookup_id id h.assocs) [
  | none ↦ h
  | some a ↦
      let gone = close_conn a.conn (record h { assocs = erase_id id h.assocs }) in
      if notify then write_frame (closing id) writable gone else gone
]

abbrev dial : ℕ → Hub → Hub
dial id h = record h {
  opening = some (id, h.next_conn);
  next_conn = h.next_conn + 1;
  open_conns = h.next_conn ∷ h.open_conns;
}

-- openAssoc up to the dial: `max` is MaxSessionsOrDefault, `dials` whether DialUDPLocal connects
unfoldable pub open_assoc : ℕ → ℕ → Bool → Bool → Hub → Hub
open_assoc max id dials writable h =
    if h.closed
    then write_frame (ack id false) writable h
    else if is_some (lookup_id id h.assocs)
    then write_frame (ack id true) writable h
    else if leb max (length h.assocs)
    then write_frame (ack id false) writable h
    else if dials
    then dial id h
    else write_frame (ack id false) writable h

-- the rest of it: the association is entered, unless the hub was closed meanwhile, and goes again
-- where the acknowledgement cannot be written
abbrev settle : ℕ → ℕ → ℕ → Bool → Hub → Hub
settle id c now writable h =
    if h.closed
    then write_frame (ack id false) writable (close_conn c h)
    else (let entered = record h {
      assocs = assign_id id (record { conn = c; last = now }) h.assocs;
    } in
        if writable
        then write_frame (ack id true) writable entered
        else close_assoc id false writable entered)

unfoldable pub enter_assoc : ℕ → Bool → Hub → Hub
unfolding close_assoc
enter_assoc now writable h = elim (h.opening) [
  | none ↦ h
  | some (id, c) ↦ settle id c now writable (record h { opening = none })
]

-- a datagram for the local target: `sends` is whether the local write succeeds
unfoldable pub write_local : ℕ → ℕ → Bool → Bool → Hub → Hub
unfolding close_assoc
write_local id now sends writable h = elim (lookup_id id h.assocs) [
  | none ↦ h
  | some a ↦
      let touched = record h { assocs = assign_id id (record a { last = now }) h.assocs } in
      if sends then touched else close_assoc id true writable touched
]

-- the associations that have been idle for `idle`
unfoldable pub stale : ℕ → ℕ → List (ℕ × Assoc) → List ℕ
stale now idle [] = []
stale now idle ((id, a) ∷ m) =
    let rest = stale now idle m in if ltb (a.last + idle) now then id ∷ rest else rest

unfoldable pub close_each : List ℕ → Bool → Bool → Hub → Hub
close_each [] notify writable h = h
close_each (id ∷ ids) notify writable h =
    close_each ids notify writable (close_assoc id notify writable h)

-- reapIdle, whose closing takes one critical section per association
abbrev pub reap_idle : ℕ → ℕ → Bool → Hub → Hub
reap_idle now idle writable h = close_each (stale now idle h.assocs) true writable h

abbrev pub ids_of : List (ℕ × Assoc) → List ℕ
ids_of [] = []
ids_of ((id, a) ∷ m) = id ∷ ids_of m

-- closeAll: the hub is closed first
unfoldable pub shut : Hub → Hub
shut h = if h.closed then h else record h { closed = true; leaving = ids_of h.assocs }

-- and then its associations, one after the other
unfoldable pub leave : Hub → Hub
unfolding close_assoc
leave h = elim (h.leaving) [
  | [] ↦ h
  | id ∷ rest ↦ close_assoc id false false (record h { leaving = rest })
]

-- What the goroutines of the stream do, one critical section at a time; the reader is one
-- goroutine, so that `opens` comes only when no association is being opened.
pub data Step : Type 0 where
  opens : ℕ → Bool → Bool → Step
  enters : ℕ → Bool → Step
  writes : ℕ → ℕ → Bool → Bool → Step
  closes : ℕ → Bool → Bool → Step
  reaps : ℕ → ℕ → Bool → Step
  shuts leaves : Step

unfoldable pub step : ℕ → Step → Hub → Hub
step max (opens id dials writable) h =
    if is_some h.opening then h else open_assoc max id dials writable h
step max (enters now writable) h = enter_assoc now writable h
step max (writes id now sends writable) h = write_local id now sends writable h
step max (closes id notify writable) h = close_assoc id notify writable h
step max (reaps now idle writable) h = reap_idle now idle writable h
step max shuts h = shut h
step max leaves h = leave h

abbrev pub run_steps : ℕ → List Step → Hub → Hub
run_steps max [] h = h
run_steps max (s ∷ ss) h = run_steps max ss (step max s h)
