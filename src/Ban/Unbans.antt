-- ===== src/Ban/Unbans.antt =====
-- internal/ban/store.go: what Unban and UnbanCIDRs change, and when the hooks run.
use faketunnel.Base.{
  ℕ, ◌+◌, ◌<◌, ◌≡◌, refl, inl, inr, Bool, true, false, not, ◌&&◌, ◌||◌, Option, none, List, [], ◌∷◌,
  ◌++◌, arith, ◌==◌, if◌then◌else◌, Bool-cases, is_some, length, Bytes, text_eq_iff, text_eq_refl,
}
use faketunnel.Base.Maps.{
  lookup, insert, erase, contains, add, lookup-insert, lookup-erase, contains-add, AllValues, NoDup,
}
use faketunnel.Net.{Ip, IpNet}
use faketunnel.Ban.Store.{
  Record, Store, record_at, blocked_locked, observe_invalid_locked, strike, unban_locked,
}
use faketunnel.Ban.Methods.{
  parse_nets, any_contains, is_covered, uncovered, covered_keys, unban_cidrs,
}
use faketunnel.Ban.Invariant.{IsValid, IsSound, persist_locked_lem, persist-IsValid}

-- An Unban of a blocked address lifts its ban and pardons it, and runs no hook.
pub unban_is_silent :
    (key : Bytes) (writable : Bool) (s : Store) (now : ℕ)
    → blocked_locked s key now ≡ true
    → (blocked_locked (unban_locked key writable s).0 key now ≡ false)
      × (contains key (unban_locked key writable s).0.pardoned ≡ true)
      × ((unban_locked key writable s).0.notices ≡ s.notices)
unfolding unban_locked blocked_locked
unban_is_silent key writable s now b =
    let s' = record s { by_ip = erase key s.by_ip; pardoned = add key s.pardoned } in
    let saved = persist_locked_lem writable s' in
    let gone = lookup-erase key key s.by_ip in
    let there = contains-add key key s.pardoned in
    let self = text_eq_refl key in
    (ground (arith, saved, gone, self), ground (arith, saved, there, self), ground (arith, saved))

-- ObserveInvalid runs the hooks exactly when it turns an address that was not blocked into one
-- that is, where the temporary duration is not zero.
pub observe_invalid_notices :
    (key reason : Bytes) (now : ℕ) (writable : Bool) (s : Store)
    → 0 < s.ttl
    → (observe_invalid_locked key reason now writable s).notices
      ≡ s.notices
        + (if not (blocked_locked s key now)
              && blocked_locked (observe_invalid_locked key reason now writable s) key now
            then 1
            else 0)
unfolding observe_invalid_locked blocked_locked strike
observe_invalid_notices key reason now writable s h =
    let r = (strike s.limit s.ttl now reason (record_at s key)).0 in
    let s' = record s { by_ip = insert key r s.by_ip } in
    ground
      (arith, persist_locked_lem writable s', lookup-insert key key r s.by_ip, text_eq_refl key)

module _ (parse_ip : Bytes → Option Ip) (parse_cidr : Bytes → Option IpNet) where
  lookup-uncovered :
      (nets : List IpNet) (k : Bytes) (m : List (Bytes × Record))
      → lookup k (uncovered parse_ip parse_cidr nets m)
        ≡ (if is_covered parse_ip parse_cidr nets k then none else lookup k m)
  unfolding uncovered lookup
  lookup-uncovered nets k [] = ground arith
  lookup-uncovered nets k ((j, r) ∷ m) = ground (arith, lookup-uncovered nets k m, text_eq_iff j k)

  contains-covered_keys :
      (nets : List IpNet) (k : Bytes) (m : List (Bytes × Record)) (set : List Bytes)
      → contains k (covered_keys parse_ip parse_cidr nets m ++ set)
        ≡ ((is_covered parse_ip parse_cidr nets k && is_some (lookup k m)) || contains k set)
  unfolding covered_keys lookup contains
  contains-covered_keys nets k [] set = ground arith
  contains-covered_keys nets k ((j, r) ∷ m) set =
      ground (arith, contains-covered_keys nets k m set, text_eq_iff j k)

  no_nets-is_covered :
      (nets : List IpNet) (k : Bytes)
      → (length nets == 0) ≡ true
      → is_covered parse_ip parse_cidr nets k ≡ false
  unfolding is_covered any_contains
  no_nets-is_covered [] k e = ground arith
  no_nets-is_covered (n ∷ ns) k e = absurd (ground arith)

  no_keys :
      (keys : List Bytes) (k : Bytes) → (length keys == 0) ≡ true → contains k (keys ++ []) ≡ false
  unfolding contains
  no_keys [] k e = refl
  no_keys (j ∷ keys) k e = absurd (ground arith)

  -- UnbanCIDRs removes the records of exactly the recorded addresses that one of the networks
  -- contains, pardons exactly those, and leaves every other address as it was.
  pub unban_cidrs_lem :
      (cidrs : List Bytes) (writable : Bool) (s : Store) (key : Bytes)
      → let covered = is_covered parse_ip parse_cidr (parse_nets parse_ip parse_cidr cidrs) key in
        let s' = unban_cidrs parse_ip parse_cidr cidrs writable s in
        (lookup key s'.by_ip ≡ (if covered then none else lookup key s.by_ip))
        × (contains key s'.pardoned
            ≡ ((covered && is_some (lookup key s.by_ip)) || contains key s.pardoned))
  unfolding unban_cidrs
  unban_cidrs_lem cidrs writable s key =
      let nets = parse_nets parse_ip parse_cidr cidrs in
      let removed = covered_keys parse_ip parse_cidr nets s.by_ip in
      let s' = record s {
        by_ip = uncovered parse_ip parse_cidr nets s.by_ip;
        pardoned = removed ++ s.pardoned;
      } in
      elim (Bool-cases (length nets == 0)) [
        | inl e ↦ rw e (ground (arith, no_nets-is_covered nets key e))
        | inr e ↦ elim (Bool-cases (length removed == 0)) [
          | inl e' ↦
              rw (e, e')
                (ground (arith, no_keys removed key e', contains-covered_keys nets key s.by_ip []))
          | inr e' ↦
              rw (e, e')
                (ground (
                  arith,
                  persist_locked_lem writable s',
                  lookup-uncovered nets key s.by_ip,
                  contains-covered_keys nets key s.by_ip s.pardoned,
                ))
        ]
      ]

  -- the records that stay are as they were
  uncovered-AllValues :
      (P : Record → Type 0) (nets : List IpNet) (m : List (Bytes × Record))
      → AllValues P m
      → AllValues P (uncovered parse_ip parse_cidr nets m)
  unfolding uncovered
  uncovered-AllValues P nets [] h = tt
  uncovered-AllValues P nets ((k, r) ∷ m) h =
      elim (Bool-cases (is_covered parse_ip parse_cidr nets k)) [
        | inl e ↦ rw e (uncovered-AllValues P nets m h.1)
        | inr e ↦ rw e (h.0, uncovered-AllValues P nets m h.1)
      ]

  uncovered-NoDup :
      (nets : List IpNet) (m : List (Bytes × Record))
      → NoDup m
      → NoDup (uncovered parse_ip parse_cidr nets m)
  unfolding uncovered
  uncovered-NoDup nets [] h = tt
  uncovered-NoDup nets ((k, r) ∷ m) h = elim (Bool-cases (is_covered parse_ip parse_cidr nets k)) [
    | inl e ↦ rw e (uncovered-NoDup nets m h.1)
    | inr e ↦
        let absent : lookup k (uncovered parse_ip parse_cidr nets m) ≡ none =
          ground (arith, e, h.0, lookup-uncovered nets k m) in
        rw e (absent, uncovered-NoDup nets m h.1)
  ]

  -- UnbanCIDRs keeps the invariant of the store
  pub unban_cidrs-IsValid :
      (cidrs : List Bytes) (writable : Bool) (s : Store)
      → IsValid s
      → IsValid (unban_cidrs parse_ip parse_cidr cidrs writable s)
  unfolding unban_cidrs
  unban_cidrs-IsValid cidrs writable s v =
      let nets = parse_nets parse_ip parse_cidr cidrs in
      let removed = covered_keys parse_ip parse_cidr nets s.by_ip in
      let after = record s {
        by_ip = uncovered parse_ip parse_cidr nets s.by_ip;
        pardoned = removed ++ s.pardoned;
      } in
      let clean : (k : Bytes) → contains k after.pardoned ≡ true → lookup k after.by_ip ≡ none =
        λ k c. ground (
          arith,
          c,
          v.pardoned_clean k,
          lookup-uncovered nets k s.by_ip,
          contains-covered_keys nets k s.by_ip s.pardoned,
        ) in
      elim (Bool-cases (length nets == 0 || length removed == 0)) [
        | inl e ↦ rw e v
        | inr e ↦ rw e (
            persist-IsValid writable after (record {
              limit_big = v.limit_big;
              sound = uncovered-AllValues (IsSound s.limit) nets s.by_ip v.sound;
              distinct = uncovered-NoDup nets s.by_ip v.distinct;
              pardoned_clean = clean;
            }))
      ]
