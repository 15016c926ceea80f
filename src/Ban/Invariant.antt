-- ===== src/Ban/Invariant.antt =====
-- internal/ban/store.go: what holds of a store between operations.
use faketunnel.Base.{
  ℕ, ◌≤◌, ◌<◌, ◌≡◌, inl, inr, Bool, true, false, ◌||◌, none, arith, ◌==◌, Bool-cases, Option-cases,
  Bytes, text_eq_iff,
}
use faketunnel.Base.Maps.{
  lookup, insert, erase, contains, add, lookup-insert, lookup-erase, contains-add, AllValues, NoDup,
  insert-NoDup, erase-NoDup, insert-AllValues, erase-AllValues, lookup-AllValues,
}
use faketunnel.Ban.Store.{
  Record, Store, record_at, blocked_locked, persist_locked, observe_invalid_locked, strike,
  ban_permanent_locked, ban_record, observe_valid_locked, unban_locked, notify,
}
use faketunnel.Ban.Steps.{Op, invalid, probe, valid, unban, step}

-- A record between operations: its streak is short of the limit, and it is either permanent, which
-- takes two bans and leaves no end time, or banned for a time at most once.
pub record IsSound (limit : ℕ) (r : Record) : Type 0 where
  pub streak_short : r.consecutive < limit
  pub permanent_endless : r.permanent ≡ true → r.until ≡ none
  pub permanent_earned : r.permanent ≡ true → 2 ≤ r.bans
  pub temporary_once : r.permanent ≡ false → r.bans ≤ 1

-- Each address has one record, and none is kept of an address that an admin unbanned.
pub record IsValid (s : Store) : Type 0 where
  pub limit_big : 1 < s.limit
  pub sound : AllValues (IsSound s.limit) s.by_ip
  pub distinct : NoDup s.by_ip
  pub pardoned_clean : (k : Bytes) → contains k s.pardoned ≡ true → lookup k s.by_ip ≡ none

record_at-IsSound : (s : Store) (key : Bytes) → IsValid s → IsSound s.limit (record_at s key)
record_at-IsSound s key v = elim (Option-cases (lookup key s.by_ip)) [
  | inl e ↦ rw (e, record_at) (ground arith)
  | inr (r, e) ↦ rw (e, record_at) (lookup-AllValues (IsSound s.limit) key s.by_ip v.sound e)
]

strike-IsSound :
    (limit ttl now : ℕ) (reason : Bytes) (r : Record)
    → 1 < limit
    → r.permanent ≡ false
    → IsSound limit r
    → IsSound limit (strike limit ttl now reason r).0
unfolding strike
strike-IsSound limit ttl now reason r h p v = ground arith

-- persisting changes the file and nothing else
pub persist_locked_lem :
    (writable : Bool) (s : Store)
    → (persist_locked writable s).0 ≡ record s { file = (persist_locked writable s).0.file }
unfolding persist_locked
persist_locked_lem writable s = ground arith

pub persist-IsValid :
    (writable : Bool) (s : Store) → IsValid s → IsValid (persist_locked writable s).0
persist-IsValid writable s v = rw persist_locked_lem (record {
  limit_big = v.limit_big;
  sound = v.sound;
  distinct = v.distinct;
  pardoned_clean = v.pardoned_clean;
})

put-IsValid :
    (key : Bytes) (r : Record) (s : Store)
    → IsValid s
    → contains key s.pardoned ≡ false
    → IsSound s.limit r
    → IsValid (record s { by_ip = insert key r s.by_ip })
put-IsValid key r s v free h = record {
  limit_big = v.limit_big;
  sound = insert-AllValues (IsSound s.limit) key r s.by_ip v.sound h;
  distinct = insert-NoDup key r s.by_ip v.distinct;
  pardoned_clean =
      λ k c. ground (arith, lookup-insert key k r s.by_ip, v.pardoned_clean k, text_eq_iff key k);
}

pardon-IsValid :
    (key : Bytes) (s : Store)
    → IsValid s
    → IsValid (record s { by_ip = erase key s.by_ip; pardoned = add key s.pardoned })
pardon-IsValid key s v = record {
  limit_big = v.limit_big;
  sound = erase-AllValues (IsSound s.limit) key s.by_ip v.sound;
  distinct = erase-NoDup key s.by_ip v.distinct;
  pardoned_clean = λ k c.
      ground (arith, lookup-erase key k s.by_ip, v.pardoned_clean k, contains-add key k s.pardoned);
}

notify-IsValid : (s : Store) → IsValid s → IsValid (notify s)
notify-IsValid s v = record {
  limit_big = v.limit_big;
  sound = v.sound;
  distinct = v.distinct;
  pardoned_clean = v.pardoned_clean;
}

observe_invalid-IsValid :
    (key reason : Bytes) (now : ℕ) (writable : Bool) (s : Store)
    → IsValid s
    → IsValid (observe_invalid_locked key reason now writable s)
unfolding observe_invalid_locked
observe_invalid-IsValid key reason now writable s v =
    elim (Bool-cases (contains key s.pardoned || blocked_locked s key now)) [
      | inl skip ↦ rw skip v
      | inr go ↦
          let r = record_at s key in
          let struck = strike s.limit s.ttl now reason r in
          let open_record : r.permanent ≡ false = unfold blocked_locked in ground arith in
          let sound =
            strike-IsSound s.limit s.ttl now reason r v.limit_big open_record
              (record_at-IsSound s key v) in
          let stored = put-IsValid key struck.0 s v (ground arith) sound in
          elim (Bool-cases struck.1) [
            | inl banned ↦ rw (go, banned) (notify-IsValid _ (persist-IsValid writable _ stored))
            | inr counted ↦ rw (go, counted) stored
          ]
    ]

ban_permanent-IsValid :
    (key : Bytes) (writable : Bool) (s : Store)
    → IsValid s
    → IsValid (ban_permanent_locked key writable s)
unfolding ban_permanent_locked
ban_permanent-IsValid key writable s v =
    elim (Bool-cases (contains key s.pardoned || (record_at s key).permanent)) [
      | inl skip ↦ rw skip v
      | inr go ↦
          let r = record_at s key in
          let sound : IsSound s.limit (ban_record r) = ground (arith, v.limit_big) in
          let stored = put-IsValid key (ban_record r) s v (ground arith) sound in
          rw go (notify-IsValid _ (persist-IsValid writable _ stored))
    ]

observe-IsValid : (key : Bytes) (s : Store) → IsValid s → IsValid (observe_valid_locked key s)
unfolding observe_valid_locked
observe-IsValid key s v = elim (Option-cases (lookup key s.by_ip)) [
  | inl e ↦ rw (e, observe_valid_locked) v
  | inr (r, e) ↦ elim (Bool-cases (r.consecutive == 0)) [
    | inl zero_streak ↦ rw (e, observe_valid_locked) (rw zero_streak v)
    | inr running ↦
        let sound = lookup-AllValues (IsSound s.limit) key s.by_ip v.sound e in
        let free : contains key s.pardoned ≡ false = ground (arith, v.pardoned_clean key) in
        rw (e, observe_valid_locked)
          (rw running (put-IsValid key (record r { consecutive = 0 }) s v free (ground arith)))
  ]
]

unban-IsValid :
    (key : Bytes) (writable : Bool) (s : Store)
    → IsValid s
    → IsValid (unban_locked key writable s).0
unfolding unban_locked
unban-IsValid key writable s v = elim (Option-cases (lookup key s.by_ip)) [
  | inl e ↦ rw (e, unban_locked) v
  | inr (r, e) ↦ rw (e, unban_locked) (persist-IsValid writable _ (pardon-IsValid key s v))
]

-- Every operation on one address keeps the invariant.
pub step-IsValid : (o : Op) (s : Store) → IsValid s → IsValid (step o s)
unfolding step
step-IsValid (invalid key reason now writable) s v =
    observe_invalid-IsValid key reason now writable s v
step-IsValid (probe key writable) s v = ban_permanent-IsValid key writable s v
step-IsValid (valid key) s v = observe-IsValid key s v
step-IsValid (unban key writable) s v = unban-IsValid key writable s v
