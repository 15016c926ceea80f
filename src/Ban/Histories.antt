-- ===== src/Ban/Histories.antt =====
-- internal/ban/store.go: what holds over every sequence of operations.
use faketunnel.Base.{
  ℕ, ◌≡◌, refl, ◌∙◌, inl, inr, Bool, true, false, not, ◌&&◌, Option, none, List, [], ◌∷◌, arith,
  ◌==◌, Bool-cases, length, All, Bytes, text_eq, text_eq_iff, text_eq_refl,
}
use faketunnel.Base.Maps.{
  lookup, insert, erase, contains, add, lookup-insert, lookup-erase, contains-add,
}
use faketunnel.Net.{Ip, IpNet}
use faketunnel.Ban.Store.{
  Store, record_at, blocked_locked, kind_locked, permanent, observe_invalid_locked, strike,
  ban_permanent_locked, ban_record, observe_valid_locked, unban_locked,
}
use faketunnel.Ban.Methods.{new}
use faketunnel.Ban.Steps.{
  Op, invalid, probe, valid, unban, key_of, is_unban, step, run, Change, one_address, unban_nets,
  change, changes,
}
use faketunnel.Ban.Unbans.{unban_cidrs_lem, unban_cidrs-IsValid}
use faketunnel.Ban.Invariant.{IsValid, step-IsValid, persist_locked_lem}

-- what the store knows of one key
abbrev pub SameAt : Bytes → Store → Store → Type 0
SameAt key s t =
    (lookup key t.by_ip ≡ lookup key s.by_ip) × (contains key t.pardoned ≡ contains key s.pardoned)

pub step_other :
    (o : Op) (key : Bytes) (s : Store) → text_eq (key_of o) key ≡ false → SameAt key s (step o s)
unfolding step observe_invalid_locked ban_permanent_locked observe_valid_locked unban_locked
step_other (invalid k reason now writable) key s ne =
    let r = (strike s.limit s.ttl now reason (record_at s k)).0 in
    let s' = record s { by_ip = insert k r s.by_ip } in
    ground (arith, lookup-insert k key r s.by_ip, persist_locked_lem writable s')
step_other (probe k writable) key s ne =
    let r = ban_record (record_at s k) in
    let s' = record s { by_ip = insert k r s.by_ip } in
    ground (arith, lookup-insert k key r s.by_ip, persist_locked_lem writable s')
step_other (valid k) key s ne =
    ground (arith, lookup-insert k key (record (record_at s k) { consecutive = 0 }) s.by_ip)
step_other (unban k writable) key s ne =
    let s' = record s { by_ip = erase k s.by_ip; pardoned = add k s.pardoned } in
    ground (
      arith,
      lookup-erase k key s.by_ip,
      contains-add k key s.pardoned,
      persist_locked_lem writable s',
    )

abbrev pub Elsewhere : Bytes → List Op → Type 0
Elsewhere key = All (λ o. text_eq (key_of o) key ≡ false)

-- Operations on other addresses change neither the record nor the pardon of an address.
pub run_other :
    (os : List Op) (key : Bytes) (s : Store) → Elsewhere key os → SameAt key s (run os s)
unfolding run
run_other [] key s h = (refl, refl)
run_other (o ∷ os) key s h =
    let (a, b) = step_other o key s h.0 in
    let (a', b') = run_other os key (step o s) h.1 in (a' ∙ a, b' ∙ b)

new-IsValid :
    (ip_string : Ip → Bytes) (parse_ip : Bytes → Option Ip) (path : Bytes)
    → IsValid (new ip_string parse_ip path none)
unfolding new contains lookup
new-IsValid ip_string parse_ip path = elim (Bool-cases (length path == 0)) [
  | inl e ↦
      rw e (record {
        limit_big = omega arith;
        sound = tt;
        distinct = tt;
        pardoned_clean = λ k c. refl;
      })
  | inr e ↦
      rw e (record {
        limit_big = omega arith;
        sound = tt;
        distinct = tt;
        pardoned_clean = λ k c. refl;
      })
]

step_pardoned :
    (o : Op) (key : Bytes) (s : Store)
    → contains key s.pardoned ≡ true
    → contains key (step o s).pardoned ≡ true
unfolding step observe_invalid_locked ban_permanent_locked observe_valid_locked unban_locked
step_pardoned (invalid k reason now writable) key s h =
    let r = (strike s.limit s.ttl now reason (record_at s k)).0 in
    ground (arith, persist_locked_lem writable (record s { by_ip = insert k r s.by_ip }))
step_pardoned (probe k writable) key s h = ground (
  arith,
  persist_locked_lem writable (record s { by_ip = insert k (ban_record (record_at s k)) s.by_ip }),
)
step_pardoned (valid k) key s h = ground arith
step_pardoned (unban k writable) key s h =
    let s' = record s { by_ip = erase k s.by_ip; pardoned = add k s.pardoned } in
    ground (arith, contains-add k key s.pardoned, persist_locked_lem writable s')

unban-blocked :
    (key : Bytes) (writable : Bool) (now : ℕ) (s : Store)
    → blocked_locked s key now ≡ true
    → contains key (step (unban key writable) s).pardoned ≡ true
unfolding step unban_locked blocked_locked
unban-blocked key writable now s b = ground (
  arith,
  contains-add key key s.pardoned,
  text_eq_refl key,
  persist_locked_lem writable
      (record s { by_ip = erase key s.by_ip; pardoned = add key s.pardoned }),
)

module _ (parse_ip : Bytes → Option Ip) (parse_cidr : Bytes → Option IpNet) where
  change-IsValid : (c : Change) (s : Store) → IsValid s → IsValid (change parse_ip parse_cidr c s)
  unfolding change
  change-IsValid (one_address o) s v = step-IsValid o s v
  change-IsValid (unban_nets cidrs writable) s v =
      unban_cidrs-IsValid parse_ip parse_cidr cidrs writable s v

  changes_keep :
      (cs : List Change) (s : Store) → IsValid s → IsValid (changes parse_ip parse_cidr cs s)
  unfolding changes
  changes_keep [] s v = v
  changes_keep (c ∷ cs) s v =
      changes_keep cs (change parse_ip parse_cidr c s) (change-IsValid c s v)

  -- Every store that any sequence of operations, UnbanCIDRs included, makes of a new one with no
  -- file has one record for each address, only records that are short of the limit and either
  -- permanent after two bans or banned for a time at most once, and no record of a pardoned
  -- address.
  pub history-IsValid :
      (ip_string : Ip → Bytes) (path : Bytes) (cs : List Change)
      → IsValid (changes parse_ip parse_cidr cs (new ip_string parse_ip path none))
  history-IsValid ip_string path cs = changes_keep cs _ (new-IsValid ip_string parse_ip path)

  change_pardoned :
      (c : Change) (key : Bytes) (s : Store)
      → contains key s.pardoned ≡ true
      → contains key (change parse_ip parse_cidr c s).pardoned ≡ true
  unfolding change
  change_pardoned (one_address o) key s h = step_pardoned o key s h
  change_pardoned (unban_nets cidrs writable) key s h =
      ground (arith, h, (unban_cidrs_lem parse_ip parse_cidr cidrs writable s key).1)

  changes_pardoned :
      (cs : List Change) (key : Bytes) (s : Store)
      → contains key s.pardoned ≡ true
      → contains key (changes parse_ip parse_cidr cs s).pardoned ≡ true
  unfolding changes
  changes_pardoned [] key s h = h
  changes_pardoned (c ∷ cs) key s h =
      changes_pardoned cs key (change parse_ip parse_cidr c s) (change_pardoned c key s h)

  -- In a well-formed store an address that was blocked and is unbanned by Unban is never blocked
  -- again, at any time and after any sequence of operations, UnbanCIDRs included.
  pub unbanned_for_good :
      (cs : List Change) (key : Bytes) (writable : Bool) (now : ℕ) (s : Store)
      → IsValid s
      → blocked_locked s key now ≡ true
      → (later : ℕ)
      → blocked_locked (changes parse_ip parse_cidr cs (step (unban key writable) s)) key later
        ≡ false
  unfolding blocked_locked
  unbanned_for_good cs key writable now s v b later =
      let s1 = step (unban key writable) s in
      let v' = changes_keep cs s1 (step-IsValid (unban key writable) s v) in
      let kept = changes_pardoned cs key s1 (unban-blocked key writable now s b) in
      ground (arith, v'.pardoned_clean key kept)

-- not an unban of the key
abbrev pub spares : Bytes → Op → Bool
spares key o = not (is_unban o && text_eq (key_of o) key)

abbrev pub is_permanent : Bytes → Store → Bool
is_permanent key s = (record_at s key).permanent

step_permanent_same :
    (o : Op) (key : Bytes) (s : Store)
    → key_of o ≡ key
    → spares key o ≡ true
    → is_permanent key s ≡ true
    → is_permanent key (step o s) ≡ true
unfolding step observe_invalid_locked ban_permanent_locked observe_valid_locked blocked_locked
step_permanent_same (invalid k reason now writable) key s e free p = ground arith
step_permanent_same (probe k writable) key s e free p = ground arith
step_permanent_same (valid k) key s e free p = ground (
  arith,
  lookup-insert k key (record (record_at s k) { consecutive = 0 }) s.by_ip,
  text_eq_iff k key,
)
step_permanent_same (unban k writable) key s e free p = ground (arith, text_eq_iff k key)

step_permanent :
    (o : Op) (key : Bytes) (s : Store)
    → spares key o ≡ true
    → is_permanent key s ≡ true
    → is_permanent key (step o s) ≡ true
step_permanent o key s free p = elim (Bool-cases (text_eq (key_of o) key)) [
  | inr other ↦ ground (arith, step_other o key s other)
  | inl same ↦ step_permanent_same o key s ((text_eq_iff (key_of o) key).0 same) free p
]

run_permanent :
    (os : List Op) (key : Bytes) (s : Store)
    → All (λ o. spares key o ≡ true) os
    → is_permanent key s ≡ true
    → is_permanent key (run os s) ≡ true
unfolding run
run_permanent [] key s free p = p
run_permanent (o ∷ os) key s free p =
    run_permanent os key (step o s) free.1 (step_permanent o key s free.0 p)

-- A permanent ban stands at every time and through every sequence of operations with no unban of
-- its address.
pub permanent_stays :
    (os : List Op) (key : Bytes) (s : Store) (now later : ℕ)
    → All (λ o. spares key o ≡ true) os
    → kind_locked s key now ≡ permanent
    → kind_locked (run os s) key later ≡ permanent
unfolding kind_locked
permanent_stays os key s now later free k =
    let before : is_permanent key s ≡ true = ground arith in
    ground (arith, run_permanent os key s free before)
