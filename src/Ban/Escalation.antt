-- ===== src/Ban/Escalation.antt =====
-- internal/ban/store.go: what consecutive strikes lead to, from no record to a permanent ban.
use faketunnel.Base.{
  ℕ, ◌+◌, ◌≤◌, ◌≡◌, Bool, false, none, some, List, ◌∷◌, arith, ltb, if◌then◌else◌, length, Bytes,
}
use faketunnel.Base.Maps.{lookup, contains}
use faketunnel.Ban.Store.{
  temporary, permanent, clear, Store, blocked_locked, kind_locked, observe_invalid_locked,
}
use faketunnel.Ban.Streaks.{
  strikes, IsStreak, strikes_count, last_strike, first_strike, strike_after_ban,
}

module _ {reason key : Bytes} {n bans : ℕ} where
  IsStreak-not-blocked :
      (s : Store) (now : ℕ) → IsStreak reason n bans key s → blocked_locked s key now ≡ false
  unfolding blocked_locked
  IsStreak-not-blocked s now h = ground (arith, h)

module _ (key reason : Bytes) (writable : Bool) (s : Store) (clean : lookup key s.by_ip ≡ none)
    (free : contains key s.pardoned ≡ false) where
  -- Strikes of one reason against an address with no record and no pardon, one fewer than the
  -- limit, block it at no time, and the next one blocks it from then on for exactly the duration
  -- of a temporary ban.
  pub first_streak_bans :
      (t : ℕ) (ts : List ℕ) (last now : ℕ)
      → length ts + 2 ≡ s.limit
      → (blocked_locked (strikes key reason writable (t ∷ ts) s) key now ≡ false)
        × (kind_locked
              (observe_invalid_locked key reason last writable
                (strikes key reason writable (t ∷ ts) s))
              key
              now
            ≡ (if ltb now (last + s.ttl) then temporary else clear))
  unfolding strikes kind_locked
  first_streak_bans t ts last now e =
      let (one, l, d) = first_strike key reason writable t s clean free (omega arith) in
      let s1 = observe_invalid_locked key reason t writable s in
      let (many, l', d') = strikes_count key reason writable ts 1 0 s1 one (omega (arith, l)) in
      let s2 = strikes key reason writable ts s1 in
      let final =
        last_strike key reason writable (1 + length ts) 0 last s2 many (omega (arith, l, l')) in
      (IsStreak-not-blocked s2 now many, ground (arith, final, d, d'))

  -- A second full streak, begun after the temporary ban of the first has run out, bans the
  -- address permanently, at every time.
  pub second_streak_is_permanent :
      (t : ℕ) (ts : List ℕ) (last u : ℕ) (us : List ℕ) (end now : ℕ)
      → length ts + 2 ≡ s.limit
      → last + s.ttl ≤ u
      → length us + 2 ≡ s.limit
      → kind_locked
          (observe_invalid_locked key reason end writable (
            strikes key reason writable (u ∷ us) (
              observe_invalid_locked key reason last writable
                (strikes key reason writable (t ∷ ts) s))))
          key
          now
        ≡ permanent
  unfolding strikes kind_locked
  second_streak_is_permanent t ts last u us end now e passed e' =
      let (one, l, d) = first_strike key reason writable t s clean free (omega arith) in
      let s1 = observe_invalid_locked key reason t writable s in
      let (many, l', d') = strikes_count key reason writable ts 1 0 s1 one (omega (arith, l)) in
      let s2 = strikes key reason writable ts s1 in
      let (r, found, b, p, until, l'', d'', free') =
        last_strike key reason writable (1 + length ts) 0 last s2 many (omega (arith, l, l')) in
      let s3 = observe_invalid_locked key reason last writable s2 in
      let ends : r.until ≡ some (last + s2.ttl) = ground arith in
      let (again, l3) =
        strike_after_ban key reason writable u (last + s2.ttl) 1 s3 r found ends (ground arith)
          (omega arith) (omega (arith, d, d')) free' (omega (arith, l, l', l'')) in
      let s4 = observe_invalid_locked key reason u writable s3 in
      let (more, l4, d4) =
        strikes_count key reason writable us 1 1 s4 again (omega (arith, l, l', l'', l3)) in
      let s5 = strikes key reason writable us s4 in
      let final =
        last_strike key reason writable (1 + length us) 1 end s5 more
          (omega (arith, l, l', l'', l3, l4)) in
      ground (arith, final)
