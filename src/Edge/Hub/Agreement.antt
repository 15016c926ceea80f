-- ===== src/Edge/Hub/Agreement.antt =====
-- internal/edge/udp.go: the two tables agree, as long as no failure comes late: every operation but
-- a late failure keeps an association of the table by id in the table by address.
pub mod Runs
use mathlib.Core.Path.{subst}
use faketunnel.Base.{
  ℕ, ◌+◌, ◌^◌, ◌<◌, ◌≡◌, refl, sym, ap, ◌∙◌, ◌⊎◌, inl, inr, Bool, true, false, not, ◌&&◌, none,
  some, List, [], ◌∷◌, arith, leb, ◌==◌, if◌then◌else◌, Bool-cases, Option-cases, is_some, length,
  All, Bytes, text_eq, text_eq_iff, text_eq_refl,
}
use faketunnel.Base.Maps.{lookup, erase, lookup-insert, lookup-erase}
use faketunnel.Base.Ids.{
  lookup_id, erase_id, lookup_id-All, lookup_id-erase_id, lookup_id-assign_id, store_at,
}
use faketunnel.Net.{Ip}
use faketunnel.Edge.Hub
use faketunnel.Edge.Hub.{
  ensure_assoc, fail_assoc, mark_ready, deliver, touch, remove_assoc, evict_disallowed, reap_idle,
  close,
}
use faketunnel.Edge.Hub.Validity.{Sound, IsValid, new_hub-IsValid}
use faketunnel.Edge.Hub.Operations.{remove_assoc-IsValid, close-IsValid}
use faketunnel.Edge.Hub.Steps.{
  Event, ensure, fail, ack, datagram, remove, evict, reap, shut, step, run, run-IsValid,
  step-IsValid, step_allocated,
}
use faketunnel.Edge.Hub.Waiters.{close_lookup}

-- an association of the table by id is what the table by address has for its client
abbrev pub IsMutual : Hub.Hub → Type 0
IsMutual h =
    (p : ℕ) → lookup_id (p + 1) h.by_id ≡ some p → lookup (h.heap p).client h.by_addr ≡ some p

-- taking an association of the table out of both
drop-IsMutual :
    (m : ℕ) (h after : Hub.Hub) (p : ℕ) (a : Hub.Assoc)
    → IsValid m h
    → lookup_id (p + 1) h.by_id ≡ some p
    → a.client ≡ (h.heap p).client
    → ((q : ℕ) → after.heap q ≡ store_at p a h.heap q)
    → after.by_id ≡ erase_id (p + 1) h.by_id
    → after.by_addr ≡ erase a.client h.by_addr
    → IsMutual h
    → IsMutual after
drop-IsMutual m h after p a v here ec eh ed ea agreed q e =
    let kept = lookup_id-erase_id (p + 1) (q + 1) h.by_id in
    let there : lookup_id (q + 1) h.by_id ≡ some q = ground (arith, e, ed, kept) in
    let other : (q == p) ≡ false = ground (arith, e, ed, kept) in
    let mine = agreed p here in
    let its = agreed q there in
    let apart : text_eq a.client (h.heap q).client ≡ false =
      elim (Bool-cases (text_eq a.client (h.heap q).client)) [
        | inr no_match ↦ no_match
        | inl same ↦
            let keys : (h.heap p).client ≡ (h.heap q).client =
              sym ec ∙ (text_eq_iff a.client (h.heap q).client).0 same in
            let one : some p ≡ some q = sym mine ∙ ap (λ k. lookup k h.by_addr) keys ∙ its in
            absurd (ground (arith, one, other))
      ] in
    ground (arith, other, apart, its, ea, eh q, lookup-erase a.client (h.heap q).client h.by_addr)

-- a write to an object
write-IsMutual :
    (h after : Hub.Hub) (p : ℕ) (a : Hub.Assoc)
    → a.client ≡ (h.heap p).client
    → ((q : ℕ) → after.heap q ≡ store_at p a h.heap q)
    → after.by_id ≡ h.by_id
    → after.by_addr ≡ h.by_addr
    → IsMutual h
    → IsMutual after
write-IsMutual h after p a ec eh ed ea agreed q e = ground (arith, e, ec, eh q, ed, ea, agreed q)

create-IsMutual :
    (m : ℕ) (client : Bytes) (ip : Ip) (now : ℕ) (h : Hub.Hub)
    → IsValid m h
    → lookup client h.by_addr ≡ none
    → IsMutual h
    → IsMutual (Hub.create client ip now h)
create-IsMutual m client ip now h v free agreed q e =
    let kept = lookup_id-assign_id h.next_id (q + 1) h.allocated h.by_id in
    elim (Bool-cases (q == h.allocated)) [
      | inl new ↦
          ground
            (arith, new, lookup-insert client client h.allocated h.by_addr, text_eq_refl client)
      | inr old ↦
          let there : lookup_id (q + 1) h.by_id ≡ some q = ground (arith, e, kept, old, v.next) in
          let its = agreed q there in
          let apart : text_eq client (h.heap q).client ≡ false =
            elim (Bool-cases (text_eq client (h.heap q).client)) [
              | inr no_match ↦ no_match
              | inl same ↦
                  let keys = (text_eq_iff client (h.heap q).client).0 same in
                  absurd (ground (arith, sym free ∙ ap (λ k. lookup k h.by_addr) keys ∙ its))
            ] in
          ground
            (arith, old, apart, its, lookup-insert client (h.heap q).client h.allocated h.by_addr)
    ]

same_tables-IsMutual :
    (h after : Hub.Hub)
    → after.heap ≡ h.heap
    → after.by_id ≡ h.by_id
    → after.by_addr ≡ h.by_addr
    → IsMutual h
    → IsMutual after
same_tables-IsMutual h after eh ed ea agreed =
    write-IsMutual h after 0 (h.heap 0) refl (λ q. ground (arith, ap (λ f. f q) eh)) ed ea agreed

module _ (max_sessions : ℕ) where
  abbrev Valid : Hub.Hub → Type 0
  Valid h = IsValid max_sessions h

  pub found_id : (id p : ℕ) (h : Hub.Hub) → Valid h → lookup_id id h.by_id ≡ some p → id ≡ p + 1
  found_id id p h v e = (lookup_id-All (Sound h.allocated) id h.by_id v.sound e).1

  pub fail_assoc-IsMutual :
      (p : ℕ) (why : Hub.Failure) (h : Hub.Hub)
      → Valid h
      → lookup_id (p + 1) h.by_id ≡ some p
      → IsMutual h
      → IsMutual (fail_assoc p why h)
  unfolding fail_assoc
  fail_assoc-IsMutual p why h v here agreed =
      let (lt, is) = lookup_id-All (Sound h.allocated) (p + 1) h.by_id v.sound here in
      drop-IsMutual max_sessions h (fail_assoc p why h) p
        (record (h.heap p) { ready = true; error = some why }) v here refl (λ q. refl)
        (ap (λ i. erase_id i h.by_id) (v.ids p lt)) refl agreed

  pub remove_assoc-IsMutual :
      (id : ℕ) (notify : Bool) (h : Hub.Hub)
      → Valid h
      → IsMutual h
      → IsMutual (remove_assoc id notify h)
  unfolding remove_assoc
  remove_assoc-IsMutual id notify h v agreed = elim (Option-cases (lookup_id id h.by_id)) [
    | inl e ↦ rw (remove_assoc, e) agreed
    | inr (p, e) ↦
        let is = found_id id p h v e in
        let here : lookup_id (p + 1) h.by_id ≡ some p = rw (← is) e in
        let a = Hub.wake Hub.assoc_closed (h.heap p) in
        let ec : a.client ≡ (h.heap p).client = ground arith in
        let gone : IsMutual (Hub.removed p id h) =
          drop-IsMutual max_sessions h (Hub.removed p id h) p a v here ec (λ q. refl)
            (ap (λ i. erase_id i h.by_id) is) (ap (λ k. erase k h.by_addr) (sym ec)) agreed in
        rw (remove_assoc, e)
          (same_tables-IsMutual (Hub.removed p id h) (Hub.notice notify id (Hub.removed p id h))
            (ground arith) (ground arith) (ground arith) gone)
  ]

  pub remove_all-IsMutual :
      (ids : List ℕ) (h : Hub.Hub) → Valid h → IsMutual h → IsMutual (Hub.remove_all ids h)
  remove_all-IsMutual [] h v agreed = agreed
  remove_all-IsMutual (id ∷ ids) h v agreed =
      remove_all-IsMutual ids (remove_assoc id true h)
        (remove_assoc-IsValid max_sessions id true h v) (remove_assoc-IsMutual id true h v agreed)

  accept_assoc-IsMutual : (p : ℕ) (h : Hub.Hub) → IsMutual h → IsMutual (Hub.accept_assoc p h)
  accept_assoc-IsMutual p h agreed = elim (Bool-cases (h.heap p).ready) [
    | inl r ↦ rw r agreed
    | inr r ↦ rw r (
        write-IsMutual h
          (record h {
            heap = store_at p (record (h.heap p) { ready = true; error = none }) h.heap;
            sessions = h.sessions + 1;
          })
          p (record (h.heap p) { ready = true; error = none }) refl (λ q. refl) refl refl agreed)
  ]

  answered :
      (p : ℕ) (accepted : Bool) (msg : Bytes) (h : Hub.Hub)
      → Valid h
      → lookup_id (p + 1) h.by_id ≡ some p
      → IsMutual h
      → IsMutual (
          if not accepted
          then fail_assoc p (Hub.rejected (Hub.or_default msg)) h
          else Hub.accept_assoc p h)
  answered p true msg h v here agreed = accept_assoc-IsMutual p h agreed
  answered p false msg h v here agreed =
      fail_assoc-IsMutual p (Hub.rejected (Hub.or_default msg)) h v here agreed

  pub mark_ready-IsMutual :
      (id : ℕ) (accepted : Bool) (msg : Bytes) (h : Hub.Hub)
      → Valid h
      → IsMutual h
      → IsMutual (mark_ready id accepted msg h)
  unfolding mark_ready
  mark_ready-IsMutual id accepted msg h v agreed = elim (Option-cases (lookup_id id h.by_id)) [
    | inl e ↦ rw (mark_ready, e) agreed
    | inr (p, e) ↦
        let here : lookup_id (p + 1) h.by_id ≡ some p = rw (← found_id id p h v e) e in
        rw (mark_ready, e) (answered p accepted msg h v here agreed)
  ]

  pub deliver-IsMutual : (id now : ℕ) (h : Hub.Hub) → IsMutual h → IsMutual (deliver id now h)
  unfolding deliver touch
  deliver-IsMutual id now h agreed = elim (Option-cases (lookup_id id h.by_id)) [
    | inl e ↦ rw (deliver, e) agreed
    | inr (p, e) ↦
        rw (deliver, e)
          (write-IsMutual h (touch p now h) p (record (h.heap p) { last_active = now }) refl
            (λ q. refl) refl refl agreed)
  ]

  -- a hub that is closed has an empty table
  pub close-IsMutual : (h : Hub.Hub) → IsMutual h → IsMutual (close h)
  close-IsMutual h agreed = elim (Bool-cases h.closed) [
    | inl e ↦
        let same : close h ≡ h = unfold close in ground (arith, e) in
        subst IsMutual (sym same) agreed
    | inr e ↦ λ p here. absurd (close_lookup h (p + 1) p e here)
  ]

  pub ensure_assoc-IsMutual :
      (client : Bytes) (ip : Ip) (now : ℕ) (h : Hub.Hub)
      → Valid h
      → IsMutual h
      → IsMutual (ensure_assoc max_sessions client ip now h).0
  unfolding ensure_assoc
  ensure_assoc-IsMutual client ip now h v agreed = elim (Bool-cases h.closed) [
    | inl e ↦
        let same : (ensure_assoc max_sessions client ip now h).0 ≡ h = ground (arith, e) in
        subst IsMutual (sym same) agreed
    | inr e ↦ elim (Option-cases (lookup client h.by_addr)) [
      | inr (p, l) ↦ rw (ensure_assoc, e, l) agreed
      | inl l ↦ elim (Bool-cases (leb max_sessions (length h.by_id))) [
        | inl full ↦ rw (ensure_assoc, e, l, full) agreed
        | inr room ↦
            rw (ensure_assoc, e, l, room) (create-IsMutual max_sessions client ip now h v l agreed)
      ]
    ]
  ]
