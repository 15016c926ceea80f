-- ===== src/Edge/Hub/Validity.antt =====
-- internal/edge/udp.go: what the two tables say of the objects they lead to. A late failure takes
-- the address of a newer association out, so that the table by id may have more than the other.
use faketunnel.Base.{
  ℕ, ◌+◌, ◌^◌, ◌≤◌, ◌<◌, ◌≡◌, refl, ◌∙◌, ◌⊎◌, true, false, none, some, arith, length, All,
  All-weaken, Bytes, text_eq_iff,
}
use faketunnel.Base.Maps.{lookup, erase, lookup-insert, lookup-erase}
use faketunnel.Base.Ids.{
  lookup_id, erase_id, assign_id, lookup_id-erase_id, lookup_id-assign_id, length-erase_id,
  erase_id-All, store_at,
}
use faketunnel.Net.{Ip}
use faketunnel.Edge.Hub

-- an entry's object was allocated, and its id counts the allocations
abbrev pub Sound : ℕ → ℕ × ℕ → Type 0
Sound allocated (i, p) = (p < allocated) × (i ≡ p + 1)

pub record IsValid (max_sessions : ℕ) (h : Hub.Hub) : Type 0 where
  pub ids : (p : ℕ) → p < h.allocated → (h.heap p).id ≡ p + 1
  pub blank : (p : ℕ) → h.allocated ≤ p → (h.heap p).id ≡ 0
  pub sound : All (Sound h.allocated) h.by_id
  pub addr_sound :
      (k : Bytes) (p : ℕ)
      → lookup k h.by_addr ≡ some p
      → (p < h.allocated) × ((h.heap p).client ≡ k) × (lookup_id (p + 1) h.by_id ≡ some p)
  -- a goroutine may wait for an object only while the table has it
  pub waiting :
      (p : ℕ) → p < h.allocated → (h.heap p).ready ≡ false → lookup_id (p + 1) h.by_id ≡ some p
  pub next : h.next_id ≡ h.allocated + 1
  pub cap : length h.by_id ≤ max_sessions

-- taking an object out of both tables, with its waiters told
pub drop-IsValid :
    (m : ℕ) (h after : Hub.Hub) (p : ℕ) (a : Hub.Assoc)
    → a.id ≡ (h.heap p).id
    → a.client ≡ (h.heap p).client
    → a.ready ≡ true
    → ((q : ℕ) → after.heap q ≡ store_at p a h.heap q)
    → after.by_id ≡ erase_id a.id h.by_id
    → after.by_addr ≡ erase a.client h.by_addr
    → after.allocated ≡ h.allocated
    → after.next_id ≡ h.next_id
    → IsValid m h
    → IsValid m after
drop-IsValid m h after p a ei ec er eh ed ea en ex v =
    let own : (p < h.allocated → a.id ≡ p + 1) = λ lt. ei ∙ v.ids p lt in
    let none_own : (h.allocated ≤ p → a.id ≡ 0) = λ le. ei ∙ v.blank p le in
    record {
      ids = λ q lt. ground (arith, lt, en, eh q, v.ids q, ei);
      blank = λ q le. ground (arith, le, en, eh q, v.blank q, ei);
      sound = rw (ed, en) (erase_id-All (Sound h.allocated) a.id h.by_id v.sound);
      addr_sound = λ k q e. ground (
        arith,
        e,
        ea,
        ed,
        en,
        ec,
        eh q,
        lookup-erase a.client k h.by_addr,
        lookup_id-erase_id a.id (q + 1) h.by_id,
        v.addr_sound k q,
        text_eq_iff a.client k,
        own,
        none_own,
      );
      waiting = λ q lt e. ground (
        arith,
        lt,
        e,
        er,
        ed,
        en,
        eh q,
        lookup_id-erase_id a.id (q + 1) h.by_id,
        v.waiting q,
        own,
        none_own,
      );
      next = ground (arith, ex, en, v.next);
      cap = ground (arith, ed, v.cap, length-erase_id a.id h.by_id);
    }

-- a write to an object that stays where it is
pub write-IsValid :
    (m : ℕ) (h after : Hub.Hub) (p : ℕ) (a : Hub.Assoc)
    → a.id ≡ (h.heap p).id
    → a.client ≡ (h.heap p).client
    → (a.ready ≡ true) ⊎ (a.ready ≡ (h.heap p).ready)
    → ((q : ℕ) → after.heap q ≡ store_at p a h.heap q)
    → after.by_id ≡ h.by_id
    → after.by_addr ≡ h.by_addr
    → after.allocated ≡ h.allocated
    → after.next_id ≡ h.next_id
    → IsValid m h
    → IsValid m after
write-IsValid m h after p a ei ec er eh ed ea en ex v = record {
  ids = λ q lt. ground (arith, lt, en, eh q, v.ids q, ei);
  blank = λ q le. ground (arith, le, en, eh q, v.blank q, ei);
  sound = rw (ed, en) v.sound;
  addr_sound = λ k q e. ground (arith, e, ea, ed, en, ec, eh q, v.addr_sound k q);
  waiting = λ q lt e. ground (arith, lt, e, er, ed, en, eh q, v.waiting q);
  next = ground (arith, ex, en, v.next);
  cap = ground (arith, ed, v.cap);
}

pub new_hub-IsValid : (m sessions : ℕ) → IsValid m (Hub.new_hub sessions)
unfolding lookup lookup_id
new_hub-IsValid m sessions = record {
  ids = λ p lt. absurd (ground (arith, lt));
  blank = λ p le. refl;
  sound = tt;
  addr_sound = λ k p e. absurd (ground (arith, e));
  waiting = λ p lt e. absurd (ground (arith, lt));
  next = refl;
  cap = omega arith;
}

pub create-IsValid :
    (m : ℕ) (client : Bytes) (ip : Ip) (now : ℕ) (h : Hub.Hub)
    → h.allocated + 2 < 2 ^ 32
    → lookup client h.by_addr ≡ none
    → length h.by_id < m
    → IsValid m h
    → IsValid m (Hub.create client ip now h)
create-IsValid m client ip now h small free room v =
    let fresh : h.next_id ≡ h.allocated + 1 = v.next in
    record {
      ids = λ q lt. ground (arith, lt, v.ids q, v.next);
      blank = λ q le. ground (arith, le, v.blank q);
      sound =
          unfold assign_id in
          (
            (omega arith, v.next),
            erase_id-All (Sound (h.allocated + 1)) h.next_id h.by_id
                (All-weaken (λ e old. (omega (arith, old), old.1)) h.by_id v.sound),
          );
      addr_sound = λ k q e. ground (
        arith,
        e,
        v.next,
        lookup-insert client k h.allocated h.by_addr,
        text_eq_iff client k,
        lookup_id-assign_id h.next_id (q + 1) h.allocated h.by_id,
        v.addr_sound k q,
      );
      waiting = λ q lt e. ground (
        arith,
        lt,
        e,
        v.next,
        v.waiting q,
        lookup_id-assign_id h.next_id (q + 1) h.allocated h.by_id,
      );
      next = omega (arith, fresh, small);
      cap = unfold assign_id in ground (arith, room, length-erase_id h.next_id h.by_id);
    }
