-- ===== src/Edge/Hub/Steps.antt =====
-- internal/edge/udp.go: the critical sections as steps, in any order.
use faketunnel.Base.{
  ℕ, ◌+◌, ◌^◌, ◌≤◌, ◌<◌, ◌≡◌, refl, ◌∙◌, Bool, true, not, List, [], ◌∷◌, arith, length, Bytes,
}
use faketunnel.Net.{Ip}
use faketunnel.Edge.Hub
use faketunnel.Edge.Hub.{
  ensure_assoc, fail_assoc, mark_ready, deliver, touch, remove_assoc, evict_disallowed, reap_idle,
  close,
}
use faketunnel.Edge.Hub.Validity.{IsValid, new_hub-IsValid}
use faketunnel.Edge.Hub.Operations.{
  fail_assoc-IsValid, mark_ready-IsValid, deliver-IsValid, remove_assoc-IsValid,
  ensure_assoc-IsValid, evict-IsValid, reap-IsValid, close-IsValid,
}

-- `fail` is what a waiter does whose frame cannot be written, or whose time is over: it has the
-- object, which may have left the tables long ago.
pub data Event : Type 0 where
  ensure : Bytes → Ip → ℕ → Event
  fail : ℕ → Hub.Failure → Event
  ack : ℕ → Bool → Bytes → Event
  datagram : ℕ → ℕ → Event
  remove : ℕ → Bool → Event
  evict : (Ip → Bool) → Event
  reap : ℕ → Event
  shut : Event

module _ (max_sessions : ℕ) where
  abbrev pub step : Event → Hub.Hub → Hub.Hub
  step (ensure client ip now) h = (ensure_assoc max_sessions client ip now h).0
  step (fail p why) h = fail_assoc p why h
  step (ack id accepted msg) h = mark_ready id accepted msg h
  step (datagram id now) h = deliver id now h
  step (remove id notify) h = remove_assoc id notify h
  step (evict allowed) h = evict_disallowed allowed h
  step (reap cutoff) h = reap_idle cutoff h
  step shut h = close h

  abbrev pub run : List Event → Hub.Hub → Hub.Hub
  run [] h = h
  run (e ∷ es) h = run es (step e h)

  abbrev Valid : Hub.Hub → Type 0
  Valid h = IsValid max_sessions h

  pub step-IsValid :
      (e : Event) (h : Hub.Hub) → h.allocated + 2 < 2 ^ 32 → Valid h → Valid (step e h)
  step-IsValid (ensure client ip now) h small v =
      ensure_assoc-IsValid max_sessions client ip now h small v
  step-IsValid (fail p why) h small v = fail_assoc-IsValid max_sessions p why h v
  step-IsValid (ack id accepted msg) h small v = mark_ready-IsValid max_sessions id accepted msg h v
  step-IsValid (datagram id now) h small v = deliver-IsValid max_sessions id now h v
  step-IsValid (remove id notify) h small v = remove_assoc-IsValid max_sessions id notify h v
  step-IsValid (evict allowed) h small v = evict-IsValid max_sessions allowed h v
  step-IsValid (reap cutoff) h small v = reap-IsValid max_sessions cutoff h v
  step-IsValid shut h small v = close-IsValid max_sessions h v

  remove_assoc_allocated :
      (id : ℕ) (notify : Bool) (h : Hub.Hub) → (remove_assoc id notify h).allocated ≡ h.allocated
  unfolding remove_assoc
  remove_assoc_allocated id notify h = ground arith

  remove_all_allocated :
      (ids : List ℕ) (h : Hub.Hub) → (Hub.remove_all ids h).allocated ≡ h.allocated
  remove_all_allocated [] h = refl
  remove_all_allocated (id ∷ ids) h =
      remove_all_allocated ids (remove_assoc id true h) ∙ remove_assoc_allocated id true h

  pub close_entries_allocated :
      (m : List (ℕ × ℕ)) (h : Hub.Hub) (live : ℕ)
      → (Hub.close_entries m h live).0.allocated ≡ h.allocated
  close_entries_allocated [] h live = refl
  close_entries_allocated ((id, p) ∷ m) h live = close_entries_allocated m _ _

  pub step_allocated : (e : Event) (h : Hub.Hub) → (step e h).allocated ≤ h.allocated + 1
  unfolding ensure_assoc fail_assoc mark_ready deliver touch evict_disallowed reap_idle close
  step_allocated (ensure client ip now) h = ground arith
  step_allocated (fail p why) h = ground arith
  step_allocated (ack id accepted msg) h = ground arith
  step_allocated (datagram id now) h = ground arith
  step_allocated (remove id notify) h = omega (arith, remove_assoc_allocated id notify h)
  step_allocated (evict allowed) h =
      omega (arith, remove_all_allocated (Hub.ids_where (λ a. not (allowed a.ip)) h.heap h.by_id) h)
  step_allocated (reap cutoff) h =
      omega (arith, remove_all_allocated (Hub.ids_where (Hub.is_stale cutoff) h.heap h.by_id) h)
  step_allocated shut h =
      ground (arith, close_entries_allocated h.by_id (record h { closed = true }) 0)

  run-IsValid_from :
      (es : List Event) (h : Hub.Hub)
      → h.allocated + length es + 2 < 2 ^ 32
      → Valid h
      → Valid (run es h)
  run-IsValid_from [] h small v = v
  run-IsValid_from (e ∷ es) h small v =
      run-IsValid_from es (step e h) (omega (arith, small, step_allocated e h))
        (step-IsValid e h (omega (arith, small)) v)

  -- the invariant holds after every run
  pub run-IsValid :
      (es : List Event) (sessions : ℕ)
      → length es + 2 < 2 ^ 32
      → IsValid max_sessions (run es (Hub.new_hub sessions))
  run-IsValid es sessions small =
      run-IsValid_from es (Hub.new_hub sessions) (omega (arith, small))
        (new_hub-IsValid max_sessions sessions)
