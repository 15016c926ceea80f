-- ===== src/Edge/Hub/Tests.antt =====
-- Runs of internal/edge/udp.go at concrete inputs.
use faketunnel.Base.{
  ◌+◌, ◌≡◌, refl, Bool, true, false, ◌⊎◌, none, List, [], ◌∷◌, arith, Bytes, text, text_eq,
}
use faketunnel.Base.Maps.{lookup, insert, erase}
use faketunnel.Base.Ids.{lookup_id, erase_id, assign_id}
use faketunnel.Net.{Ip}
use faketunnel.Edge.Hub
use faketunnel.Edge.Hub.{
  ensure_assoc, fail_assoc, mark_ready, deliver, touch, remove_assoc, evict_disallowed, reap_idle,
  close,
}
use faketunnel.Edge.Hub.Validity.{IsValid}
use faketunnel.Edge.Hub.Steps.{Event, ensure, fail, ack, remove, reap, shut, run}
use faketunnel.Edge.Hub.Agreement.{IsMutual}
use faketunnel.Edge.Hub.Agreement.Runs.{are_timely, run_keeps_tables}
use faketunnel.Edge.Hub.Gauge.{late_failure_leaks}
use faketunnel.Edge.Hub.Waiters.{close_wakes_all}

abbrev anna : Bytes
anna = text "10.0.0.1:7"

abbrev ben : Bytes
ben = text "10.0.0.2:7"

abbrev anna_ip : Ip
anna_ip = 10 ∷ 0 ∷ 0 ∷ 1 ∷ []

abbrev ben_ip : Ip
ben_ip = 10 ∷ 0 ∷ 0 ∷ 2 ∷ []

abbrev two : List Event
two = ensure anna anna_ip 1 ∷ ack 1 true [] ∷ ensure ben ben_ip 2 ∷ []

abbrev hub : Hub.Hub
hub = run 2 two (Hub.new_hub 0)

abbrev only_anna : Ip → Bool
only_anna ip = text_eq ip anna_ip

one_session : hub.sessions ≡ 1
unfolding ensure_assoc mark_ready lookup insert text_eq lookup_id assign_id erase_id
one_session = refl

third_refused : (ensure_assoc 2 (text "10.0.0.3:7") [] 3 hub).1 ≡ Hub.refused Hub.too_many
unfolding ensure_assoc mark_ready lookup insert text_eq lookup_id assign_id erase_id
third_refused = refl

again_existing : (ensure_assoc 2 ben ben_ip 3 hub).1 ≡ Hub.existing 1
unfolding ensure_assoc mark_ready lookup insert text_eq lookup_id assign_id erase_id
again_existing = refl

-- An answer that comes between the timer's check and failAssoc counts a session that no removal
-- takes back.
late_answer_leaks :
    (run 2
      (ensure anna anna_ip 1 ∷ ack 1 true [] ∷ fail 0 Hub.open_timeout ∷ shut ∷ [])
      (Hub.new_hub 0)).sessions
    ≡ 1
unfolding ensure_assoc mark_ready fail_assoc close lookup insert erase text_eq lookup_id assign_id
    erase_id
late_answer_leaks = refl

-- A failed write whose association is gone by then takes the address of its successor out.
abbrev unlinked : Hub.Hub
unlinked =
    run 2
      (ensure anna anna_ip 1 ∷ remove 1 true ∷ ensure anna anna_ip 2 ∷ fail 0 Hub.write_error ∷ [])
      (Hub.new_hub 0)

late_failure_unlinks : (unlinked.by_addr ≡ []) × (unlinked.by_id ≡ (2, 1) ∷ [])
unfolding ensure_assoc remove_assoc fail_assoc lookup insert erase text_eq lookup_id assign_id
    erase_id
late_failure_unlinks = (refl, refl)

reaped : (run 2 (reap 5 ∷ []) hub).sessions ≡ 0
unfolding ensure_assoc mark_ready reap_idle remove_assoc lookup insert erase text_eq lookup_id
    assign_id erase_id
reaped = refl

run_keeps_tables_example :
    IsValid 2 hub × ((are_timely 2 two (Hub.new_hub 0) ≡ false) ⊎ IsMutual hub)
run_keeps_tables_example = run_keeps_tables 2 two 0 (omega arith)

close_wakes_all_example :
    (((close hub).heap 1).ready ≡ true) × (lookup_id 2 (close hub).by_id ≡ none)
close_wakes_all_example =
    close_wakes_all 2 two 0 1 (omega arith)
      (unfold ensure_assoc mark_ready lookup insert text_eq lookup_id assign_id erase_id in refl)
      (unfold close ensure_assoc mark_ready lookup insert erase text_eq lookup_id assign_id
          erase_id in
        omega arith)

abbrev waiting_hub : Hub.Hub
waiting_hub = run 2 (ensure anna anna_ip 1 ∷ []) (Hub.new_hub 4)

late_failure_leaks_example :
    ((remove_assoc 1 true (mark_ready 1 true [] waiting_hub)).sessions ≡ waiting_hub.sessions)
    × ((fail_assoc 0 Hub.open_timeout (mark_ready 1 true [] waiting_hub)).sessions
        ≡ waiting_hub.sessions + 1)
    × (remove_assoc 1 true (fail_assoc 0 Hub.open_timeout (mark_ready 1 true [] waiting_hub))
        ≡ fail_assoc 0 Hub.open_timeout (mark_ready 1 true [] waiting_hub))
late_failure_leaks_example =
    late_failure_leaks 1 0 [] Hub.open_timeout true waiting_hub
      (unfold ensure_assoc lookup insert lookup_id assign_id erase_id in refl)
      (unfold ensure_assoc lookup insert lookup_id assign_id erase_id in refl)
      (unfold ensure_assoc lookup insert lookup_id assign_id erase_id in refl)
