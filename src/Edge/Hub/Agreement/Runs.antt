-- ===== src/Edge/Hub/Agreement/Runs.antt =====
-- internal/edge/udp.go: the two tables after any steps.
use faketunnel.Base.{
  ℕ, ◌+◌, ◌^◌, ◌<◌, ◌≡◌, ap, ◌∙◌, ◌⊎◌, inl, inr, Bool, true, false, not, ◌&&◌, some, List, [], ◌∷◌,
  arith, Bool-cases, Option-cases, is_some, length,
}
use faketunnel.Base.Ids.{lookup_id}
use faketunnel.Edge.Hub
use faketunnel.Edge.Hub.{
  ensure_assoc, fail_assoc, mark_ready, deliver, touch, remove_assoc, evict_disallowed, reap_idle,
  close,
}
use faketunnel.Edge.Hub.Validity.{IsValid, new_hub-IsValid}
use faketunnel.Edge.Hub.Steps.{
  Event, ensure, fail, ack, datagram, remove, evict, reap, shut, step, run, run-IsValid,
  step-IsValid, step_allocated,
}
use faketunnel.Edge.Hub.Steps.{run-IsValid}
use faketunnel.Edge.Hub.Agreement.{
  IsMutual, found_id, fail_assoc-IsMutual, remove_assoc-IsMutual, remove_all-IsMutual,
  mark_ready-IsMutual, deliver-IsMutual, close-IsMutual, ensure_assoc-IsMutual,
}

-- a waiter fails while the table has its association
abbrev is_timely : Event → Hub.Hub → Bool
is_timely (fail p why) h = is_some (lookup_id (p + 1) h.by_id)
is_timely _ h = true

module _ (max_sessions : ℕ) where
  abbrev Valid : Hub.Hub → Type 0
  Valid h = IsValid max_sessions h

  step-IsMutual :
      (e : Event) (h : Hub.Hub)
      → Valid h
      → is_timely e h ≡ true
      → IsMutual h
      → IsMutual (step max_sessions e h)
  unfolding evict_disallowed reap_idle
  step-IsMutual (ensure client ip now) h v t agreed =
      ensure_assoc-IsMutual max_sessions client ip now h v agreed
  step-IsMutual (fail p why) h v t agreed = elim (Option-cases (lookup_id (p + 1) h.by_id)) [
    | inl e ↦ absurd (ground (arith, t, e))
    | inr (q, e) ↦
        let same : q ≡ p = ground (arith, found_id max_sessions (p + 1) q h v e) in
        fail_assoc-IsMutual max_sessions p why h v (e ∙ ap some same) agreed
  ]
  step-IsMutual (ack id accepted msg) h v t agreed =
      mark_ready-IsMutual max_sessions id accepted msg h v agreed
  step-IsMutual (datagram id now) h v t agreed = deliver-IsMutual max_sessions id now h agreed
  step-IsMutual (remove id notify) h v t agreed =
      remove_assoc-IsMutual max_sessions id notify h v agreed
  step-IsMutual (evict allowed) h v t agreed =
      remove_all-IsMutual max_sessions (Hub.ids_where (λ a. not (allowed a.ip)) h.heap h.by_id) h v
        agreed
  step-IsMutual (reap cutoff) h v t agreed =
      remove_all-IsMutual max_sessions (Hub.ids_where (Hub.is_stale cutoff) h.heap h.by_id) h v
        agreed
  step-IsMutual shut h v t agreed = close-IsMutual max_sessions h agreed

  -- no failure of the run comes late
  abbrev pub are_timely : List Event → Hub.Hub → Bool
  are_timely [] h = true
  are_timely (e ∷ es) h = is_timely e h && are_timely es (step max_sessions e h)

  run-IsMutual_from :
      (es : List Event) (h : Hub.Hub)
      → h.allocated + length es + 2 < 2 ^ 32
      → Valid h
      → are_timely es h ≡ true
      → IsMutual h
      → IsMutual (run max_sessions es h)
  run-IsMutual_from [] h small v t agreed = agreed
  run-IsMutual_from (e ∷ es) h small v t agreed =
      run-IsMutual_from es (step max_sessions e h)
        (omega (arith, small, step_allocated max_sessions e h))
        (step-IsValid max_sessions e h (omega (arith, small)) v) (ground (arith, t))
        (step-IsMutual e h v (ground (arith, t)) agreed)

  -- In every order of fewer than 2^32 - 2 critical sections of a new UDP hub, late failures
  -- included, the number of associations stays within the limit, an entry of the table by id
  -- leads to the object of that id, an entry of the table by address leads to an object of that
  -- client which is in the table by id too, and every object that is not ready is in the table
  -- by id; and unless a waiter failed whose association had left the table by id, each
  -- association of that table is what the table by address has for its client.
  pub run_keeps_tables :
      (es : List Event) (sessions : ℕ)
      → length es + 2 < 2 ^ 32
      → IsValid max_sessions (run max_sessions es (Hub.new_hub sessions))
        × ((are_timely es (Hub.new_hub sessions) ≡ false)
            ⊎ IsMutual (run max_sessions es (Hub.new_hub sessions)))
  unfolding lookup_id
  run_keeps_tables es sessions small =
      let new = Hub.new_hub sessions in
      (
        run-IsValid max_sessions es sessions small,
        elim (Bool-cases (are_timely es new)) [
          | inr late ↦ inl late
          | inl t ↦ inr (
              run-IsMutual_from es new (omega (arith, small))
                (new_hub-IsValid max_sessions sessions) t (λ p e. absurd (ground (arith, e))))
        ],
      )
