-- ===== src/Edge/Hub/Operations.antt =====
-- internal/edge/udp.go: each operation keeps the invariant of the tables.
use faketunnel.Base.{
  ℕ, ◌+◌, ◌^◌, ◌<◌, ◌≡◌, refl, sym, ap, ◌∙◌, inl, inr, Bool, true, false, not, ◌&&◌, none, some,
  List, [], ◌∷◌, arith, leb, if◌then◌else◌, Bool-cases, Option-cases, length, All, Bytes,
}
use mathlib.Core.Path.{subst}
use faketunnel.Base.Maps.{lookup, erase}
use faketunnel.Base.Ids.{lookup_id, erase_id, lookup_id-All, store_at}
use faketunnel.Net.{Ip}
use faketunnel.Edge.Hub
use faketunnel.Edge.Hub.{
  ensure_assoc, fail_assoc, mark_ready, deliver, touch, remove_assoc, evict_disallowed, reap_idle,
  close,
}
use faketunnel.Edge.Hub.Validity.{Sound, IsValid, drop-IsValid, write-IsValid, create-IsValid}

module _ (max_sessions : ℕ) where
  abbrev Valid : Hub.Hub → Type 0
  Valid h = IsValid max_sessions h

  pub fail_assoc-IsValid :
      (p : ℕ) (why : Hub.Failure) (h : Hub.Hub) → Valid h → Valid (fail_assoc p why h)
  unfolding fail_assoc
  fail_assoc-IsValid p why h v =
      drop-IsValid max_sessions h _ p (record (h.heap p) { ready = true; error = some why }) refl
        refl refl (λ q. refl) refl refl refl refl v

  accept_assoc-IsValid : (p : ℕ) (h : Hub.Hub) → Valid h → Valid (Hub.accept_assoc p h)
  accept_assoc-IsValid p h v = elim (Bool-cases (h.heap p).ready) [
    | inl r ↦ rw r v
    | inr r ↦ rw r (
        write-IsValid max_sessions h _ p (record (h.heap p) { ready = true; error = none }) refl
          refl (inl refl) (λ q. refl) refl refl refl refl v)
  ]

  answered :
      (p : ℕ) (accepted : Bool) (msg : Bytes) (h : Hub.Hub)
      → Valid h
      → Valid (
          if not accepted
          then fail_assoc p (Hub.rejected (Hub.or_default msg)) h
          else Hub.accept_assoc p h)
  answered p true msg h v = accept_assoc-IsValid p h v
  answered p false msg h v = fail_assoc-IsValid p (Hub.rejected (Hub.or_default msg)) h v

  pub mark_ready-IsValid :
      (id : ℕ) (accepted : Bool) (msg : Bytes) (h : Hub.Hub)
      → Valid h
      → Valid (mark_ready id accepted msg h)
  unfolding mark_ready
  mark_ready-IsValid id accepted msg h v = elim (Option-cases (lookup_id id h.by_id)) [
    | inl e ↦ rw (mark_ready, e) v
    | inr (p, e) ↦ rw (mark_ready, e) (answered p accepted msg h v)
  ]

  pub deliver-IsValid : (id now : ℕ) (h : Hub.Hub) → Valid h → Valid (deliver id now h)
  unfolding deliver touch
  deliver-IsValid id now h v = elim (Option-cases (lookup_id id h.by_id)) [
    | inl e ↦ rw (deliver, e) v
    | inr (p, e) ↦
        rw (deliver, e)
          (write-IsValid max_sessions h _ p (record (h.heap p) { last_active = now }) refl refl
            (inr refl) (λ q. refl) refl refl refl refl v)
  ]

  -- the tables and the heap are as they were
  same_tables-IsValid :
      (h after : Hub.Hub)
      → after.heap ≡ h.heap
      → after.by_id ≡ h.by_id
      → after.by_addr ≡ h.by_addr
      → after.allocated ≡ h.allocated
      → after.next_id ≡ h.next_id
      → Valid h
      → Valid after
  same_tables-IsValid h after eh ed ea en ex v =
      write-IsValid max_sessions h after 0 (h.heap 0) refl refl (inr refl)
        (λ q. ground (arith, ap (λ f. f q) eh)) ed ea en ex v

  notice-IsValid : (notify : Bool) (id : ℕ) (h : Hub.Hub) → Valid h → Valid (Hub.notice notify id h)
  notice-IsValid notify id h v = elim (Bool-cases (notify && not h.closed)) [
    | inl e ↦
        rw e (
          same_tables-IsValid h (record h { notified = id ∷ h.notified }) refl refl refl refl refl
            v)
    | inr e ↦ rw e v
  ]

  wake_lem :
      (why : Hub.Failure) (a : Hub.Assoc)
      → ((Hub.wake why a).id ≡ a.id)
        × ((Hub.wake why a).client ≡ a.client)
        × ((Hub.wake why a).ready ≡ true)
  wake_lem why a = ground arith

  removed-IsValid :
      (p id : ℕ) (h : Hub.Hub) → Sound h.allocated (id, p) → Valid h → Valid (Hub.removed p id h)
  removed-IsValid p id h (lt, is) v =
      let a = Hub.wake Hub.assoc_closed (h.heap p) in
      let (ai, ac, ar) = wake_lem Hub.assoc_closed (h.heap p) in
      let own : id ≡ a.id = is ∙ sym (ai ∙ v.ids p lt) in
      drop-IsValid max_sessions h (Hub.removed p id h) p a ai ac ar (λ q. refl)
        (ap (λ i. erase_id i h.by_id) own) (ap (λ k. erase k h.by_addr) (sym ac)) refl refl v

  pub remove_assoc-IsValid :
      (id : ℕ) (notify : Bool) (h : Hub.Hub) → Valid h → Valid (remove_assoc id notify h)
  unfolding remove_assoc
  remove_assoc-IsValid id notify h v = elim (Option-cases (lookup_id id h.by_id)) [
    | inl e ↦ rw (remove_assoc, e) v
    | inr (p, e) ↦
        rw (remove_assoc, e)
          (notice-IsValid notify id (Hub.removed p id h)
            (removed-IsValid p id h (lookup_id-All (Sound h.allocated) id h.by_id v.sound e) v))
  ]

  pub remove_all-IsValid : (ids : List ℕ) (h : Hub.Hub) → Valid h → Valid (Hub.remove_all ids h)
  remove_all-IsValid [] h v = v
  remove_all-IsValid (id ∷ ids) h v =
      remove_all-IsValid ids (remove_assoc id true h) (remove_assoc-IsValid id true h v)

  pub close_entries-IsValid :
      (m : List (ℕ × ℕ)) (h : Hub.Hub) (live : ℕ)
      → All (Sound h.allocated) m
      → Valid h
      → Valid (Hub.close_entries m h live).0
  close_entries-IsValid [] h live s v = v
  close_entries-IsValid ((id, p) ∷ m) h live s v =
      let (lt, is) = s.0 in
      let a = Hub.wake Hub.hub_closed (h.heap p) in
      let (ai, ac, ar) = wake_lem Hub.hub_closed (h.heap p) in
      let own : id ≡ a.id = is ∙ sym (ai ∙ v.ids p lt) in
      close_entries-IsValid m _ _ s.1 (
        drop-IsValid max_sessions h
          (record h {
            heap = store_at p a h.heap;
            by_id = erase_id id h.by_id;
            by_addr = erase (h.heap p).client h.by_addr;
          })
          p a ai ac ar (λ q. refl) (ap (λ i. erase_id i h.by_id) own)
          (ap (λ k. erase k h.by_addr) (sym ac)) refl refl v)

  pub close-IsValid : (h : Hub.Hub) → Valid h → Valid (close h)
  unfolding close
  close-IsValid h v = elim (Bool-cases h.closed) [
    | inl e ↦ let same : close h ≡ h = ground (arith, e) in subst Valid (sym same) v
    | inr e ↦
        let shut_h = record h { closed = true } in
        let done =
          close_entries-IsValid h.by_id shut_h 0 v.sound
            (same_tables-IsValid h shut_h refl refl refl refl refl v) in
        rw e (
          same_tables-IsValid (Hub.close_entries h.by_id shut_h 0).0 _ refl refl refl refl refl
            done)
  ]

  pub ensure_assoc-IsValid :
      (client : Bytes) (ip : Ip) (now : ℕ) (h : Hub.Hub)
      → h.allocated + 2 < 2 ^ 32
      → Valid h
      → Valid (ensure_assoc max_sessions client ip now h).0
  unfolding ensure_assoc
  ensure_assoc-IsValid client ip now h small v = elim (Bool-cases h.closed) [
    | inl e ↦
        let same : (ensure_assoc max_sessions client ip now h).0 ≡ h = ground (arith, e) in
        subst Valid (sym same) v
    | inr e ↦ elim (Option-cases (lookup client h.by_addr)) [
      | inr (p, l) ↦ rw (ensure_assoc, e, l) v
      | inl l ↦ elim (Bool-cases (leb max_sessions (length h.by_id))) [
        | inl full ↦ rw (ensure_assoc, e, l, full) v
        | inr room ↦
            rw (ensure_assoc, e, l, room)
              (create-IsValid max_sessions client ip now h small l (ground (arith, room)) v)
      ]
    ]
  ]

  pub evict-IsValid :
      (allowed : Ip → Bool) (h : Hub.Hub) → Valid h → Valid (evict_disallowed allowed h)
  unfolding evict_disallowed
  evict-IsValid allowed h v =
      remove_all-IsValid (Hub.ids_where (λ a. not (allowed a.ip)) h.heap h.by_id) h v

  pub reap-IsValid : (cutoff : ℕ) (h : Hub.Hub) → Valid h → Valid (reap_idle cutoff h)
  unfolding reap_idle
  reap-IsValid cutoff h v =
      remove_all-IsValid (Hub.ids_where (Hub.is_stale cutoff) h.heap h.by_id) h v
