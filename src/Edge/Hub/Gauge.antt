-- ===== src/Edge/Hub/Gauge.antt =====
-- internal/edge/udp.go: what an association adds to the gauge of sessions, and who takes it back.
use faketunnel.Base.{ℕ, ◌+◌, ◌-◌, ◌≡◌, sym, ap, ◌∙◌, Bool, true, false, none, some, arith, Bytes}
use faketunnel.Base.Ids.{lookup_id, lookup_id-erase_id, store_at}
use faketunnel.Edge.Hub
use faketunnel.Edge.Hub.{fail_assoc, mark_ready, remove_assoc}

-- the hub after the Agent has accepted
accepted_lem :
    (id p : ℕ) (msg : Bytes) (h : Hub.Hub)
    → lookup_id id h.by_id ≡ some p
    → (h.heap p).ready ≡ false
    → mark_ready id true msg h ≡ record h {
      heap = store_at p (record (h.heap p) { ready = true; error = none }) h.heap;
      sessions = h.sessions + 1;
    }
unfolding mark_ready
accepted_lem id p msg h e r = ground (arith, e, r)

taken_back :
    (id p : ℕ) (notify : Bool) (h : Hub.Hub)
    → lookup_id id h.by_id ≡ some p
    → Hub.is_live (h.heap p) ≡ true
    → (remove_assoc id notify h).sessions ≡ h.sessions - 1
unfolding remove_assoc
taken_back id p notify h e live = ground (arith, e, live)

late_failure_gone :
    (id p : ℕ) (why : Hub.Failure) (notify : Bool) (h : Hub.Hub)
    → (h.heap p).id ≡ id
    → remove_assoc id notify (fail_assoc p why h) ≡ fail_assoc p why h
unfolding fail_assoc remove_assoc
late_failure_gone id p why notify h own =
    ground (arith, own, lookup_id-erase_id (h.heap p).id id h.by_id)

-- Of an association that waits in the table, once the Agent has accepted it, a removal brings
-- the gauge of sessions back to what it was, while a late failure of its waiter leaves it one
-- higher and the association out of the table, where a removal does nothing.
pub late_failure_leaks :
    (id p : ℕ) (msg : Bytes) (why : Hub.Failure) (notify : Bool) (h : Hub.Hub)
    → lookup_id id h.by_id ≡ some p
    → (h.heap p).id ≡ id
    → (h.heap p).ready ≡ false
    → ((remove_assoc id notify (mark_ready id true msg h)).sessions ≡ h.sessions)
      × ((fail_assoc p why (mark_ready id true msg h)).sessions ≡ h.sessions + 1)
      × (remove_assoc id notify (fail_assoc p why (mark_ready id true msg h))
          ≡ fail_assoc p why (mark_ready id true msg h))
unfolding fail_assoc
late_failure_leaks id p msg why notify h e own r =
    let done = accepted_lem id p msg h e r in
    let h1 : Hub.Hub = record h {
      heap = store_at p (record (h.heap p) { ready = true; error = none }) h.heap;
      sessions = h.sessions + 1;
    } in
    let live : Hub.is_live (h1.heap p) ≡ true = ground arith in
    let same_id : (h1.heap p).id ≡ id = ground (arith, own) in
    let back = taken_back id p notify h1 e live in
    (
      ap (λ g. (remove_assoc id notify g).sessions) done ∙ omega (arith, back),
      ap (λ g. (fail_assoc p why g).sessions) done,
      ap (λ g. remove_assoc id notify (fail_assoc p why g)) done
          ∙ (late_failure_gone id p why notify h1 same_id ∙ sym (ap (fail_assoc p why) done)),
    )
