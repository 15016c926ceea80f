-- ===== src/Agent/Udp/Preserved.antt =====
-- internal/agent/udp.go: every step keeps the invariant.
use mathlib.Core.Path.{subst}
use faketunnel.Base.Ids.{erase_id-All}
use faketunnel.Base.{
  ℕ, ◌+◌, ◌≤◌, ◌<◌, ◌≡◌, sym, ◌⊎◌, inl, inr, Bool, true, false, not, ◌||◌, none, some, List, [],
  ◌∷◌, arith, leb, Bool-cases, Option-cases, length, All,
}
use faketunnel.Base.Ids.{lookup_id, erase_id, assign_id}
use faketunnel.Agent.Udp.{
  Assoc, Hub, Frame, ack, closing, close_conn, write_frame, close_assoc, dial, open_assoc,
  enter_assoc, close_each,
}
use faketunnel.Agent.Udp.Invariant.{
  count, IsNew, is_member, IsValid, count_remove, erase_absent, erase_unique, erase_count,
  held_some, erase-IsNew,
}

write_frame_keeps :
    (max : ℕ) (f : Frame) (writable : Bool) (h : Hub)
    → IsValid max h
    → IsValid max (write_frame f writable h)
write_frame_keeps max f writable h v = elim (Bool-cases (h.closed || not writable)) [
  | inl e ↦
      let same : write_frame f writable h ≡ h = ground (arith, e) in
      subst (IsValid max) (sym same) v
  | inr e ↦
      let same : write_frame f writable h ≡ record h { sent = f ∷ h.sent } = ground (arith, e) in
      subst (IsValid max) (sym same) (record {
        unique = v.unique;
        new_id = v.new_id;
        capped = v.capped;
        held = v.held;
        leaving = v.leaving;
      })
]

-- the association `id` leaves, and closeAll need not close it any more
abbrev pub without : ℕ → Assoc → List ℕ → Hub → Hub
without id a rest h = close_conn a.conn (record h { assocs = erase_id id h.assocs; leaving = rest })

abbrev pub StillLeaving : List ℕ → Hub → Type 0
StillLeaving rest h = (h.closed ≡ false) ⊎ All (λ e. is_member e.0 rest ≡ true) h.assocs

pub without_keeps :
    (max id : ℕ) (a : Assoc) (rest : List ℕ) (h : Hub)
    → IsValid max h
    → lookup_id id h.assocs ≡ some a
    → StillLeaving rest (record h { assocs = erase_id id h.assocs })
    → IsValid max (without id a rest h)
without_keeps max id a rest h v found still =
    let some_open : 0 < count a.conn h.open_conns =
      omega (arith, v.held a.conn, held_some id h.assocs a found) in
    record {
      unique = erase_unique id h.assocs v.unique;
      new_id = erase-IsNew h.opening id h.assocs v.new_id;
      capped = omega (arith, v.capped, (erase_count id 0 h.assocs a v.unique found).1);
      held = λ c. ground (
        arith,
        count_remove c a.conn h.open_conns some_open,
        (erase_count id c h.assocs a v.unique found).0,
        v.held c,
      );
      leaving = still;
    }

still_leaving :
    (id : ℕ) (h : Hub)
    → StillLeaving h.leaving h
    → StillLeaving h.leaving (record h { assocs = erase_id id h.assocs })
still_leaving id h s = elim s [
  | inl e ↦ inl e
  | inr all_leave ↦ inr (erase_id-All (λ e. is_member e.0 h.leaving ≡ true) id h.assocs all_leave)
]

pub close_assoc_keeps :
    (max id : ℕ) (notify writable : Bool) (h : Hub)
    → IsValid max h
    → IsValid max (close_assoc id notify writable h)
close_assoc_keeps max id notify writable h v = elim (Option-cases (lookup_id id h.assocs)) [
  | inl e ↦
      let same : close_assoc id notify writable h ≡ h = unfold close_assoc in ground (arith, e) in
      subst (IsValid max) (sym same) v
  | inr p ↦
      let (a, e) = p in
      let gone = without id a h.leaving h in
      let valid : IsValid max gone =
        without_keeps max id a h.leaving h v e (still_leaving id h v.leaving) in
      elim (Bool-cases notify) [
        | inl n ↦
            let same : close_assoc id notify writable h ≡ write_frame (closing id) writable gone =
              unfold close_assoc in ground (arith, e, n) in
            subst (IsValid max) (sym same) (write_frame_keeps max (closing id) writable gone valid)
        | inr n ↦
            let same : close_assoc id notify writable h ≡ gone =
              unfold close_assoc in ground (arith, e, n) in
            subst (IsValid max) (sym same) valid
      ]
]

dial_keeps :
    (max id : ℕ) (h : Hub)
    → h.opening ≡ none
    → lookup_id id h.assocs ≡ none
    → length h.assocs < max
    → IsValid max h
    → IsValid max (dial id h)
dial_keeps max id h idle new room v = record {
  unique = v.unique;
  new_id = new;
  capped = omega (arith, room);
  held = λ c. ground (arith, v.held c, idle);
  leaving = v.leaving;
}

-- openAssoc answers, or dials for a new id where there is room
open_assoc_cases :
    (max id : ℕ) (dials writable : Bool) (h : Hub)
    → ((b : Bool) × (open_assoc max id dials writable h ≡ write_frame (ack id b) writable h))
      ⊎ ((open_assoc max id dials writable h ≡ dial id h)
          × (lookup_id id h.assocs ≡ none)
          × (length h.assocs < max))
unfolding open_assoc
open_assoc_cases max id dials writable h = elim (Bool-cases h.closed) [
  | inl e ↦ inl (false, ground (arith, e))
  | inr e ↦ elim (Option-cases (lookup_id id h.assocs)) [
    | inr p ↦ let (a, f) = p in inl (true, ground (arith, e, f))
    | inl f ↦ elim (Bool-cases (leb max (length h.assocs))) [
      | inl g ↦ inl (false, ground (arith, e, f, g))
      | inr g ↦ elim (Bool-cases dials) [
        | inl d ↦ inr (ground (arith, e, f, g, d), f, ground (arith, g))
        | inr d ↦ inl (false, ground (arith, e, f, g, d))
      ]
    ]
  ]
]

pub open_assoc_keeps :
    (max id : ℕ) (dials writable : Bool) (h : Hub)
    → h.opening ≡ none
    → IsValid max h
    → IsValid max (open_assoc max id dials writable h)
open_assoc_keeps max id dials writable h idle v = elim (open_assoc_cases max id dials writable h) [
  | inl p ↦
      let (b, same) = p in
      subst (IsValid max) (sym same) (write_frame_keeps max (ack id b) writable h v)
  | inr p ↦
      let (same, new, room) = p in
      subst (IsValid max) (sym same) (dial_keeps max id h idle new room v)
]

-- the new association of a hub that is not closed
abbrev entered : ℕ → ℕ → ℕ → Hub → Hub
entered id c now h = record h {
  opening = none;
  assocs = assign_id id (record { conn = c; last = now }) h.assocs;
}

entered_keeps :
    (max id c now : ℕ) (h : Hub)
    → h.opening ≡ some (id, c)
    → h.closed ≡ false
    → IsValid max h
    → IsValid max (entered id c now h)
unfolding assign_id
entered_keeps max id c now h o e v =
    let new : lookup_id id h.assocs ≡ none = subst (λ p. IsNew p h.assocs) o v.new_id in
    let same : erase_id id h.assocs ≡ h.assocs = erase_absent id h.assocs new in
    let capped : length h.assocs + 1 ≤ max = ground (arith, v.capped, o) in
    record {
      unique = rw same (new, v.unique);
      new_id = tt;
      capped = ground (arith, capped, same);
      held = λ x. ground (arith, v.held x, same, o);
      leaving = inl e;
    }

-- the dialled connection of a hub that was closed meanwhile
abbrev dropped : ℕ → Hub → Hub
dropped c h = close_conn c (record h { opening = none })

dropped_keeps :
    (max id c : ℕ) (h : Hub) → h.opening ≡ some (id, c) → IsValid max h → IsValid max (dropped c h)
dropped_keeps max id c h o v =
    let some_open : 0 < count c h.open_conns = ground (arith, v.held c, o) in
    record {
      unique = v.unique;
      new_id = tt;
      capped = ground (arith, v.capped, o);
      held = λ x. ground (arith, count_remove x c h.open_conns some_open, v.held x, o);
      leaving = v.leaving;
    }

pub enter_assoc_keeps :
    (max now : ℕ) (writable : Bool) (h : Hub)
    → IsValid max h
    → IsValid max (enter_assoc now writable h)
unfolding enter_assoc
enter_assoc_keeps max now writable h v = elim (Option-cases h.opening) [
  | inl e ↦
      let same : enter_assoc now writable h ≡ h = ground (arith, e) in
      subst (IsValid max) (sym same) v
  | inr p ↦
      let (both, e) = p in
      let (id, c) = both in
      elim (Bool-cases h.closed) [
        | inl shut_now ↦
            let same : enter_assoc now writable h
                ≡ write_frame (ack id false) writable (dropped c h) =
              ground (arith, e, shut_now) in
            subst (IsValid max) (sym same) (
              write_frame_keeps max (ack id false) writable (dropped c h)
                (dropped_keeps max id c h e v))
        | inr live ↦
            let valid = entered_keeps max id c now h e live v in
            elim (Bool-cases writable) [
              | inl w ↦
                  let same : enter_assoc now writable h
                      ≡ write_frame (ack id true) writable (entered id c now h) =
                    ground (arith, e, live, w) in
                  subst (IsValid max) (sym same)
                    (write_frame_keeps max (ack id true) writable (entered id c now h) valid)
              | inr w ↦
                  let same : enter_assoc now writable h
                      ≡ close_assoc id false writable (entered id c now h) =
                    ground (arith, e, live, w) in
                  subst (IsValid max) (sym same)
                    (close_assoc_keeps max id false writable (entered id c now h) valid)
            ]
      ]
]

pub close_each_keeps :
    (max : ℕ) (ids : List ℕ) (notify writable : Bool) (h : Hub)
    → IsValid max h
    → IsValid max (close_each ids notify writable h)
unfolding close_each
close_each_keeps max [] notify writable h v = v
close_each_keeps max (id ∷ ids) notify writable h v =
    close_each_keeps max ids notify writable (close_assoc id notify writable h)
      (close_assoc_keeps max id notify writable h v)
