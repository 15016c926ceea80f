-- ===== src/Edge/Hub.antt =====
-- internal/edge/udp.go: the associations of one public UDP port. They are shared objects, in both
-- tables and in the hands of a goroutine that waits, so that the heap is part of the state. A step
-- is one critical section, or neighbouring ones of a goroutine with nothing in between. A client is its address's text with its IP.
use faketunnel.Base.{
  ℕ, ◌+◌, ◌-◌, ◌%◌, ◌^◌, Bool, true, false, not, ◌&&◌, Option, none, some, List, [], ◌∷◌, ltb, leb,
  ◌==◌, if◌then◌else◌, is_some, length, Bytes, text,
}
pub mod Validity
pub mod Operations
pub mod Steps
pub mod Waiters
pub mod Gauge
pub mod Agreement
mod Tests
use faketunnel.Base.Maps.{lookup, insert, erase}
use faketunnel.Base.Ids.{lookup_id, erase_id, assign_id, store_at}
use faketunnel.Net.{Ip}

pub data Failure : Type 0 where
  hub_closed too_many assoc_closed open_timeout write_error : Failure
  rejected : Bytes → Failure

pub record Assoc : Type 0 where
  pub id : ℕ
  pub client : Bytes
  pub ip : Ip
  pub last_active : ℕ
  -- the channel `ready` is closed
  pub ready : Bool
  pub error : Option Failure

pub record Hub : Type 0 where
  pub heap : ℕ → Assoc
  pub allocated : ℕ
  pub by_id : List (ℕ × ℕ)
  pub by_addr : List (Bytes × ℕ)
  pub next_id : ℕ
  pub closed : Bool
  -- the ids of the CloseAssoc frames written
  pub notified : List ℕ
  -- metrics: the gauge of active sessions
  pub sessions : ℕ

abbrev pub no_assoc : Assoc
no_assoc = record { id = 0; client = []; ip = []; last_active = 0; ready = true; error = none }

-- getOrOpenUDPHub's new hub
abbrev pub new_hub : ℕ → Hub
new_hub sessions = record {
  heap = λ p. no_assoc;
  allocated = 0;
  by_id = [];
  by_addr = [];
  next_id = 1;
  closed = false;
  notified = [];
  sessions = sessions;
}

pub data Ensured : Type 0 where
  refused : Failure → Ensured
  existing created : ℕ → Ensured

abbrev pub create : Bytes → Ip → ℕ → Hub → Hub
create client ip now h = record h {
  heap =
      store_at h.allocated
        (record {
          id = h.next_id;
          client = client;
          ip = ip;
          last_active = now;
          ready = false;
          error = none;
        })
        h.heap;
  allocated = h.allocated + 1;
  by_id = assign_id h.next_id h.allocated h.by_id;
  by_addr = insert client h.allocated h.by_addr;
  next_id = (h.next_id + 1) % 2 ^ 32;
}

-- ensureAssoc up to the frame that it writes
unfoldable pub ensure_assoc : ℕ → Bytes → Ip → ℕ → Hub → Hub × Ensured
ensure_assoc max_sessions client ip now h =
    if h.closed then (h, refused hub_closed) else elim (lookup client h.by_addr) [
      | some p ↦ (h, existing p)
      | none ↦
          if leb max_sessions (length h.by_id)
          then (h, refused too_many)
          else (create client ip now h, created h.allocated)
    ]

abbrev pub drop_assoc : Assoc → Hub → Hub
drop_assoc a h = record h { by_id = erase_id a.id h.by_id; by_addr = erase a.client h.by_addr }

unfoldable pub fail_assoc : ℕ → Failure → Hub → Hub
fail_assoc p why h =
    let a = h.heap p in
    drop_assoc a
      (record h { heap = store_at p (record a { ready = true; error = some why }) h.heap })

abbrev pub or_default : Bytes → Bytes
or_default msg = if length msg == 0 then text "agent rejected assoc" else msg

abbrev pub accept_assoc : ℕ → Hub → Hub
accept_assoc p h =
    let a = h.heap p in
    if a.ready then h else record h {
      heap = store_at p (record a { ready = true; error = none }) h.heap;
      sessions = h.sessions + 1;
    }

unfoldable pub mark_ready : ℕ → Bool → Bytes → Hub → Hub
unfolding fail_assoc
mark_ready id accepted msg h = elim (lookup_id id h.by_id) [
  | none ↦ h
  | some p ↦ if not accepted then fail_assoc p (rejected (or_default msg)) h else accept_assoc p h
]

unfoldable pub touch : ℕ → ℕ → Hub → Hub
touch p now h = record h { heap = store_at p (record (h.heap p) { last_active = now }) h.heap }

-- deliver up to the write to the client
unfoldable pub deliver : ℕ → ℕ → Hub → Hub
unfolding touch
deliver id now h = elim (lookup_id id h.by_id) [ none ↦ h | some p ↦ touch p now h ]

-- the waiters of an association that is not ready are told why
abbrev pub wake : Failure → Assoc → Assoc
wake why a = if a.ready then a else record a { ready = true; error = some why }

abbrev pub is_live : Assoc → Bool
is_live a = a.ready && not (is_some a.error)

abbrev pub notice : Bool → ℕ → Hub → Hub
notice notify id h = if notify && not h.closed then record h { notified = id ∷ h.notified } else h

-- AddSessions stops at 0
abbrev pub removed : ℕ → ℕ → Hub → Hub
removed p id h =
    let a = h.heap p in
    record h {
      by_id = erase_id id h.by_id;
      by_addr = erase a.client h.by_addr;
      heap = store_at p (wake assoc_closed a) h.heap;
      sessions = if is_live a then h.sessions - 1 else h.sessions;
    }

unfoldable pub remove_assoc : ℕ → Bool → Hub → Hub
remove_assoc id notify h = elim (lookup_id id h.by_id) [
  | none ↦ h
  | some p ↦ notice notify id (removed p id h)
]

abbrev pub remove_all : List ℕ → Hub → Hub
remove_all [] h = h
remove_all (id ∷ ids) h = remove_all ids (remove_assoc id true h)

abbrev pub ids_where : (Assoc → Bool) → (ℕ → Assoc) → List (ℕ × ℕ) → List ℕ
ids_where test heap [] = []
ids_where test heap ((id, p) ∷ m) =
    let rest = ids_where test heap m in if test (heap p) then id ∷ rest else rest

unfoldable pub evict_disallowed : (Ip → Bool) → Hub → Hub
unfolding remove_assoc
evict_disallowed allowed h = remove_all (ids_where (λ a. not (allowed a.ip)) h.heap h.by_id) h

abbrev pub is_stale : ℕ → Assoc → Bool
is_stale cutoff a = is_live a && ltb a.last_active cutoff

unfoldable pub reap_idle : ℕ → Hub → Hub
unfolding remove_assoc
reap_idle cutoff h = remove_all (ids_where (is_stale cutoff) h.heap h.by_id) h

-- the loop of close over the table; `live` counts
abbrev pub close_entries : List (ℕ × ℕ) → Hub → ℕ → Hub × ℕ
close_entries [] h live = (h, live)
close_entries ((id, p) ∷ m) h live =
    let a = h.heap p in
    close_entries m
      (record h {
        heap = store_at p (wake hub_closed a) h.heap;
        by_id = erase_id id h.by_id;
        by_addr = erase a.client h.by_addr;
      })
      (live + (if is_live a then 1 else 0))

unfoldable pub close : Hub → Hub
close h =
    if h.closed
    then h
    else let (h', live) = close_entries h.by_id (record h { closed = true }) 0 in
      record h' { sessions = h'.sessions - live }
