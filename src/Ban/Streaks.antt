-- ===== src/Ban/Streaks.antt =====
-- internal/ban/store.go: how strikes add up to a ban.
use faketunnel.Base.{
  ℕ, ◌+◌, ◌≤◌, ◌<◌, ◌≡◌, refl, ap, ◌∙◌, Bool, true, false, none, some, List, [], ◌∷◌, arith, leb,
  if◌then◌else◌, length, Bytes, text_eq_iff, text_eq_refl,
}
use mathlib.Core.Path.{subst}
use faketunnel.Base.Maps.{lookup, insert, lookup-insert, contains}
use faketunnel.Ban.Store.{
  Record, fresh, Store, blocked_locked, persist_locked, observe_invalid_locked, strike, issue_ban,
}

-- invalid events with one reason at the given times, in order
unfoldable pub strikes : Bytes → Bytes → Bool → List ℕ → Store → Store
strikes key reason writable [] s = s
strikes key reason writable (t ∷ ts) s =
    strikes key reason writable ts (observe_invalid_locked key reason t writable s)

-- a record part-way through a streak: n strikes of one reason, no ban running
pub record IsStreak (reason : Bytes) (n bans : ℕ) (key : Bytes) (s : Store) : Type 0 where
  pub streak : Record
  pub found : lookup key s.by_ip ≡ some streak
  pub count_is : streak.consecutive ≡ n
  pub reason_is : streak.reason ≡ reason
  pub bans_is : streak.bans ≡ bans
  pub not_running : streak.until ≡ none
  pub not_permanent : streak.permanent ≡ false
  pub not_pardoned : contains key s.pardoned ≡ false

persist_keeps :
    (writable : Bool) (s : Store)
    → ((persist_locked writable s).0.by_ip ≡ s.by_ip)
      × ((persist_locked writable s).0.pardoned ≡ s.pardoned)
      × ((persist_locked writable s).0.limit ≡ s.limit)
      × ((persist_locked writable s).0.ttl ≡ s.ttl)
unfolding persist_locked
persist_keeps writable s = ground arith

-- one strike on one record
module _ (limit ttl now : ℕ) (reason : Bytes) (r : Record) (idle : r.until ≡ none) where
  strike_next :
      r.reason ≡ reason
      → r.consecutive + 1 < limit
      → strike limit ttl now reason r ≡ (record r { consecutive = r.consecutive + 1 }, false)
  unfolding strike
  strike_next same h = ground (arith, text_eq_iff r.reason reason)

  strike_last :
      r.reason ≡ reason
      → r.consecutive + 1 ≡ limit
      → strike limit ttl now reason r
        ≡ (issue_ban (now + ttl) (record r { consecutive = r.consecutive + 1 }), true)
  unfolding strike
  strike_last same h = ground (arith, text_eq_iff r.reason reason)

-- the first strike against an address, or after its ban has run out, starts a streak
strike_first :
    (limit ttl now : ℕ) (reason : Bytes)
    → 1 < limit
    → strike limit ttl now reason fresh ≡ (record fresh { reason = reason; consecutive = 1 }, false)
unfolding strike
strike_first limit ttl now reason h = ground (arith, text_eq_iff [] reason)

strike_expired :
    (limit ttl now : ℕ) (reason : Bytes) (r : Record) (until : ℕ)
    → r.until ≡ some until
    → until ≤ now
    → 1 < limit
    → strike limit ttl now reason r
      ≡ (record r { reason = reason; consecutive = 1; until = none }, false)
unfolding strike
strike_expired limit ttl now reason r until e h lt = ground (arith, text_eq_iff [] reason)

module _ (key reason : Bytes) (writable : Bool) where
  abbrev pub observe : ℕ → Store → Store
  observe now s = observe_invalid_locked key reason now writable s

  found_after_insert :
      (r : Record) (m : List (Bytes × Record)) → lookup key (insert key r m) ≡ some r
  found_after_insert r m = rw (lookup-insert, text_eq_refl)

  strike_counts :
      (n bans now : ℕ) (s : Store)
      → IsStreak reason n bans key s
      → n + 1 < s.limit
      → IsStreak reason (n + 1) bans key (observe now s)
        × ((observe now s).limit ≡ s.limit)
        × ((observe now s).ttl ≡ s.ttl)
  unfolding observe_invalid_locked blocked_locked
  strike_counts n bans now s h lt =
      let r = h.streak in
      let r' = record r { consecutive = r.consecutive + 1 } in
      let next =
        strike_next s.limit s.ttl now reason r h.not_running h.reason_is
          (omega (arith, h.count_is)) in
      let stored = found_after_insert r' s.by_ip in
      let here : lookup key (observe now s).by_ip ≡ some r' = ground (arith, h) in
      let kept : (observe now s).pardoned ≡ s.pardoned = ground (arith, h) in
      (
        record {
          streak = r';
          found = here;
          count_is = omega (arith, h.count_is);
          reason_is = h.reason_is;
          bans_is = h.bans_is;
          not_running = h.not_running;
          not_permanent = h.not_permanent;
          not_pardoned = ap (contains key) kept ∙ h.not_pardoned;
        },
        ground (arith, h),
        ground (arith, h),
      )

  pub strikes_count :
      (ts : List ℕ) (n bans : ℕ) (s : Store)
      → IsStreak reason n bans key s
      → n + length ts < s.limit
      → IsStreak reason (n + length ts) bans key (strikes key reason writable ts s)
        × ((strikes key reason writable ts s).limit ≡ s.limit)
        × ((strikes key reason writable ts s).ttl ≡ s.ttl)
  unfolding strikes
  strikes_count [] n bans s h lt =
      (subst (λ k. IsStreak reason k bans key s) (omega arith) h, refl, refl)
  strikes_count (t ∷ ts) n bans s h lt =
      let (h', l, d) = strike_counts n bans t s h (omega arith) in
      let (h'', l', d') = strikes_count ts (n + 1) bans (observe t s) h' (omega (arith, l)) in
      (
        subst (λ k. IsStreak reason k bans key (strikes key reason writable ts (observe t s)))
            (omega arith) h'',
        l' ∙ l,
        d' ∙ d,
      )

  -- the strike that completes a streak
  pub last_strike :
      (n bans now : ℕ) (s : Store)
      → IsStreak reason n bans key s
      → n + 1 ≡ s.limit
      → (r : Record) × (lookup key (observe now s).by_ip ≡ some r)
        × (r.bans ≡ bans + 1)
        × (r.permanent ≡ leb 1 bans)
        × (r.until ≡ (if leb 1 bans then none else some (now + s.ttl)))
        × ((observe now s).limit ≡ s.limit)
        × ((observe now s).ttl ≡ s.ttl)
        × (contains key (observe now s).pardoned ≡ false)
  unfolding observe_invalid_locked blocked_locked
  last_strike n bans now s h e =
      let r = h.streak in
      let r' = issue_ban (now + s.ttl) (record r { consecutive = r.consecutive + 1 }) in
      let last =
        strike_last s.limit s.ttl now reason r h.not_running h.reason_is
          (omega (arith, h.count_is)) in
      let stored = found_after_insert r' s.by_ip in
      let saved = persist_keeps writable (record s { by_ip = insert key r' s.by_ip }) in
      let kept : (observe now s).pardoned ≡ s.pardoned = ground (arith, h) in
      (
        r',
        ground (arith, h),
        ground (arith, h),
        ground (arith, h),
        ground (arith, h),
        ground (arith, h),
        ground (arith, h),
        ap (contains key) kept ∙ h.not_pardoned,
      )

  pub first_strike :
      (now : ℕ) (s : Store)
      → lookup key s.by_ip ≡ none
      → contains key s.pardoned ≡ false
      → 1 < s.limit
      → IsStreak reason 1 0 key (observe now s)
        × ((observe now s).limit ≡ s.limit)
        × ((observe now s).ttl ≡ s.ttl)
  unfolding observe_invalid_locked blocked_locked
  first_strike now s clean free lt =
      let r' = record fresh { reason = reason; consecutive = 1 } in
      let first = strike_first s.limit s.ttl now reason lt in
      let stored = found_after_insert r' s.by_ip in
      let here : lookup key (observe now s).by_ip ≡ some r' = ground arith in
      let kept : (observe now s).pardoned ≡ s.pardoned = ground arith in
      (
        record {
          streak = r';
          found = here;
          count_is = refl;
          reason_is = refl;
          bans_is = refl;
          not_running = refl;
          not_permanent = refl;
          not_pardoned = ap (contains key) kept ∙ free;
        },
        ground arith,
        ground arith,
      )

  -- the first strike after a temporary ban has run out
  pub strike_after_ban :
      (now until bans : ℕ) (s : Store) (r : Record)
      → lookup key s.by_ip ≡ some r
      → r.until ≡ some until
      → r.permanent ≡ false
      → r.bans ≡ bans
      → until ≤ now
      → contains key s.pardoned ≡ false
      → 1 < s.limit
      → IsStreak reason 1 bans key (observe now s) × ((observe now s).limit ≡ s.limit)
  unfolding observe_invalid_locked blocked_locked
  strike_after_ban now until bans s r found e p b passed free lt =
      let r' = record r { reason = reason; consecutive = 1; until = none } in
      let again = strike_expired s.limit s.ttl now reason r until e passed lt in
      let stored = found_after_insert r' s.by_ip in
      let here : lookup key (observe now s).by_ip ≡ some r' = ground arith in
      let kept : (observe now s).pardoned ≡ s.pardoned = ground arith in
      (
        record {
          streak = r';
          found = here;
          count_is = refl;
          reason_is = refl;
          bans_is = b;
          not_running = refl;
          not_permanent = p;
          not_pardoned = ap (contains key) kept ∙ free;
        },
        ground arith,
      )
