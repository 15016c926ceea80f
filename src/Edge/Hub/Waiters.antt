-- ===== src/Edge/Hub/Waiters.antt =====
-- internal/edge/udp.go: nobody waits for an association for ever, and evicted ones are gone.
use faketunnel.Base.{
  ℕ, ◌+◌, ◌^◌, ◌<◌, ◌≡◌, refl, ◌∙◌, inl, inr, Bool, true, false, not, ◌||◌, none, some, List, [],
  ◌∷◌, arith, ◌==◌, Bool-cases, Option-cases, length,
}
use faketunnel.Base.Ids.{lookup_id, lookup_id-erase_id}
use faketunnel.Net.{Ip}
use faketunnel.Edge.Hub
use faketunnel.Edge.Hub.{remove_assoc, evict_disallowed, reap_idle, close}
use faketunnel.Edge.Hub.Operations.{close-IsValid}
use faketunnel.Edge.Hub.Steps.{Event, run, run-IsValid}

abbrev member : ℕ → List ℕ → Bool
member i [] = false
member i (j ∷ js) = j == i || member i js

remove_assoc_lookup :
    (i j : ℕ) (notify : Bool) (h : Hub.Hub) (p : ℕ)
    → lookup_id i (remove_assoc j notify h).by_id ≡ some p
    → ((j == i) ≡ false) × (lookup_id i h.by_id ≡ some p)
unfolding remove_assoc
remove_assoc_lookup i j notify h p e = ground (arith, e, lookup_id-erase_id j i h.by_id)

remove_all_lookup :
    (i : ℕ) (ids : List ℕ) (h : Hub.Hub) (p : ℕ)
    → lookup_id i (Hub.remove_all ids h).by_id ≡ some p
    → (member i ids ≡ false) × (lookup_id i h.by_id ≡ some p)
remove_all_lookup i [] h p e = (refl, e)
remove_all_lookup i (j ∷ js) h p e =
    let (out, before) = remove_all_lookup i js (remove_assoc j true h) p e in
    let (other, first) = remove_assoc_lookup i j true h p before in
    (ground (arith, out, other), first)

remove_assoc_ip :
    (j : ℕ) (notify : Bool) (h : Hub.Hub) (p : ℕ)
    → ((remove_assoc j notify h).heap p).ip ≡ (h.heap p).ip
unfolding remove_assoc
remove_assoc_ip j notify h p = ground arith

remove_all_ip :
    (ids : List ℕ) (h : Hub.Hub) (p : ℕ) → ((Hub.remove_all ids h).heap p).ip ≡ (h.heap p).ip
remove_all_ip [] h p = refl
remove_all_ip (j ∷ js) h p = remove_all_ip js (remove_assoc j true h) p ∙ remove_assoc_ip j true h p

member-ids_where :
    (test : Hub.Assoc → Bool) (heap : ℕ → Hub.Assoc) (m : List (ℕ × ℕ)) (i p : ℕ)
    → lookup_id i m ≡ some p
    → test (heap p) ≡ true
    → member i (Hub.ids_where test heap m) ≡ true
unfolding lookup_id
member-ids_where test heap [] i p e t = absurd (ground (arith, e))
member-ids_where test heap ((j, q) ∷ m) i p e t = elim (Bool-cases (j == i)) [
  | inl same ↦
      let here : q ≡ p = ground (arith, e, same) in
      let tq : test (heap q) ≡ true = rw here t in ground (arith, same, tq)
  | inr other ↦
      let later : lookup_id i m ≡ some p = ground (arith, e, other) in
      let rest = member-ids_where test heap m i p later t in ground (arith, rest)
]

-- Every association that an eviction leaves in the table was there before and has a client who
-- is allowed.
pub evicted_are_gone :
    (allowed : Ip → Bool) (h : Hub.Hub) (i p : ℕ)
    → lookup_id i (evict_disallowed allowed h).by_id ≡ some p
    → (allowed ((evict_disallowed allowed h).heap p).ip ≡ true) × (lookup_id i h.by_id ≡ some p)
unfolding evict_disallowed
evicted_are_gone allowed h i p e =
    let test : (Hub.Assoc → Bool) = λ a. not (allowed a.ip) in
    let ids = Hub.ids_where test h.heap h.by_id in
    let (out, before) = remove_all_lookup i ids h p e in
    let kept : test (h.heap p) ≡ false = elim (Bool-cases (test (h.heap p))) [
      | inr fine ↦ fine
      | inl denied ↦
          absurd (ground (arith, out, member-ids_where test h.heap h.by_id i p before denied))
    ] in
    let ok_ip : allowed (h.heap p).ip ≡ true = ground (arith, kept) in
    (rw (remove_all_ip ids h p) ok_ip, before)

close_entries_lookup :
    (m : List (ℕ × ℕ)) (h : Hub.Hub) (live i p : ℕ)
    → lookup_id i (Hub.close_entries m h live).0.by_id ≡ some p
    → (lookup_id i m ≡ none) × (lookup_id i h.by_id ≡ some p)
unfolding lookup_id
close_entries_lookup [] h live i p e = (refl, e)
close_entries_lookup ((j, q) ∷ m) h live i p e =
    let (out, before) = close_entries_lookup m _ _ i p e in
    ground (arith, out, before, lookup_id-erase_id j i h.by_id)

pub close_lookup :
    (h : Hub.Hub) (i p : ℕ) → h.closed ≡ false → lookup_id i (close h).by_id ≡ some p → ⊥
unfolding close
close_lookup h i p open_ e =
    let left : lookup_id i (Hub.close_entries h.by_id (record h { closed = true }) 0).0.by_id
        ≡ some p =
      ground (arith, open_, e) in
    let (out, before) = close_entries_lookup h.by_id (record h { closed = true }) 0 i p left in
    ground (arith, out, before)

-- Closing an open hub, after any fewer than 2^32 - 2 steps of a new one, makes every association
-- that was ever made ready, so that nobody waits for it any longer, and takes it out of the
-- table.
pub close_wakes_all :
    (max_sessions : ℕ) (es : List Event) (sessions p : ℕ)
    → length es + 2 < 2 ^ 32
    → (run max_sessions es (Hub.new_hub sessions)).closed ≡ false
    → p < (close (run max_sessions es (Hub.new_hub sessions))).allocated
    → (((close (run max_sessions es (Hub.new_hub sessions))).heap p).ready ≡ true)
      × (lookup_id (p + 1) (close (run max_sessions es (Hub.new_hub sessions))).by_id ≡ none)
close_wakes_all max_sessions es sessions p small was_open lt =
    let h = run max_sessions es (Hub.new_hub sessions) in
    let v = close-IsValid max_sessions h (run-IsValid max_sessions es sessions small) in
    let gone : lookup_id (p + 1) (close h).by_id ≡ none =
      elim (Option-cases (lookup_id (p + 1) (close h).by_id)) [
        | inl e ↦ e
        | inr (q, e) ↦ absurd (close_lookup h (p + 1) q was_open e)
      ] in
    let told : ((close h).heap p).ready ≡ true = elim (Bool-cases ((close h).heap p).ready) [
      | inl r ↦ r
      | inr r ↦ absurd (ground (arith, gone, v.waiting p lt r))
    ] in
    (told, gone)
