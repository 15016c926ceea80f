-- ===== src/Acl/Keys.antt =====
-- internal/acl/store.go: the keys of the networks in a list, and what each loop does to them.
pub mod Changes
use faketunnel.Base.{
  ℕ, ◌+◌, ◌≤◌, ◌≡◌, refl, ap, inl, inr, Bool, true, false, not, ◌&&◌, ◌||◌, Option, none, List, [],
  ◌∷◌, ◌++◌, arith, ◌==◌, Bool-cases, length, drop, ok, err, Result-cases, Bytes, text_eq,
  text_eq_iff,
}
use faketunnel.Base.Maps.{contains, add}
use faketunnel.Base.Spaces.{trim_space}
use faketunnel.Net.{Ip, IpNet}
use faketunnel.Acl.Parsing.{parse_cidr, parse_all, replace}
use faketunnel.Acl.Store.{
  Store, normalize_key, keys_of, added, dropped, remaining, commit, add_entries, remove_entries,
}
use faketunnel.Acl.Validity.{parse_cidr-trim_space, parse_all-cons, commit_allowed}

module _ (ip_string : Ip → Bytes) (parse_ip : Bytes → Option Ip)
    (parse_net : Bytes → Option IpNet) where
  -- the text is an entry with that key
  abbrev pub key_is : Bytes → Bytes → Bool
  key_is k e = elim (normalize_key ip_string parse_ip parse_net e) [
    | err why ↦ false
    | ok key ↦ text_eq key k
  ]

  unfoldable pub has_key : Bytes → List Bytes → Bool
  has_key k [] = false
  has_key k (e ∷ es) = key_is k e || has_key k es

  pub has_key-append :
      (k : Bytes) (xs ys : List Bytes) → has_key k (xs ++ ys) ≡ (has_key k xs || has_key k ys)
  unfolding has_key
  has_key-append k [] ys = refl
  has_key-append k (x ∷ xs) ys = ground (arith, has_key-append k xs ys)

  normalize_key-trim_space :
      (s : Bytes)
      → normalize_key ip_string parse_ip parse_net (trim_space s)
        ≡ normalize_key ip_string parse_ip parse_net s
  unfolding normalize_key
  normalize_key-trim_space s = rw (parse_cidr-trim_space parse_ip parse_net s) refl

  -- a text of spaces only has no key
  blank_key : (k s : Bytes) → (length (trim_space s) == 0) ≡ true → key_is k s ≡ false
  unfolding normalize_key parse_cidr
  blank_key k s h = ground (arith, h)

  pub keys_of-has_key :
      (k : Bytes) (es keys : List Bytes)
      → keys_of ip_string parse_ip parse_net es ≡ ok keys
      → contains k keys ≡ has_key k es
  unfolding keys_of has_key contains add
  keys_of-has_key k [] keys h = ground (arith, h)
  keys_of-has_key k (e ∷ es) keys h =
      elim (Result-cases (normalize_key ip_string parse_ip parse_net e)) [
        | inr (why, n) ↦ absurd (ground (arith, h, n))
        | inl (key, n) ↦ elim (Result-cases (keys_of ip_string parse_ip parse_net es)) [
          | inr (why, r) ↦ absurd (ground (arith, h, n, r))
          | inl (ks, r) ↦ ground (arith, h, n, r, keys_of-has_key k es ks r)
        ]
      ]

  pub added-has_key :
      (k : Bytes) (seen raws more : List Bytes)
      → added ip_string parse_ip parse_net seen raws ≡ ok more
      → (contains k seen || has_key k more) ≡ (contains k seen || has_key k raws)
  unfolding added has_key contains add
  added-has_key k seen [] more h = ground (arith, h)
  added-has_key k seen (raw ∷ raws) more h = elim (Bool-cases (length (trim_space raw) == 0)) [
    | inl blank ↦ ground (arith, h, blank, blank_key k raw, added-has_key k seen raws more)
    | inr full ↦ elim (Result-cases (normalize_key ip_string parse_ip parse_net raw)) [
      | inr (why, n) ↦ absurd (ground (arith, h, full, n, normalize_key-trim_space raw))
      | inl (key, n) ↦ elim (Bool-cases (contains key seen)) [
        | inl old ↦ ground (
          arith,
          h,
          full,
          n,
          old,
          normalize_key-trim_space raw,
          text_eq_iff key k,
          added-has_key k seen raws more,
        )
        | inr new ↦ elim (Result-cases (added ip_string parse_ip parse_net (add key seen) raws)) [
          | inr (why, r) ↦ absurd (ground (arith, h, full, n, new, r, normalize_key-trim_space raw))
          | inl (rest, r) ↦ ground (
            arith,
            h,
            full,
            n,
            new,
            r,
            normalize_key-trim_space raw,
            added-has_key k (add key seen) raws rest r,
          )
        ]
      ]
    ]
  ]

  pub dropped-has_key :
      (k : Bytes) (raws drop : List Bytes)
      → dropped ip_string parse_ip parse_net raws ≡ ok drop
      → contains k drop ≡ has_key k raws
  unfolding dropped has_key contains
  dropped-has_key k [] drop h = ground (arith, h)
  dropped-has_key k (raw ∷ raws) drop h =
      let trimmed = normalize_key-trim_space raw in
      elim (Result-cases (normalize_key ip_string parse_ip parse_net raw)) [
        | inr (why, n) ↦ ground (arith, h, n, trimmed, dropped-has_key k raws drop)
        | inl (key, n) ↦ elim (Result-cases (dropped ip_string parse_ip parse_net raws)) [
          | inr (why, r) ↦ absurd (ground (arith, h, n, r, trimmed))
          | inl (ds, r) ↦ ground (
            arith,
            h,
            n,
            r,
            trimmed,
            blank_key k raw,
            dropped-has_key k raws ds r,
            dropped-has_key k raws drop,
          )
        ]
      ]

  pub remaining-has_key :
      (k : Bytes) (drop es rest : List Bytes)
      → remaining ip_string parse_ip parse_net drop es ≡ ok rest
      → has_key k rest ≡ (has_key k es && not (contains k drop))
  unfolding remaining has_key
  remaining-has_key k drop [] rest h = ground (arith, h)
  remaining-has_key k drop (e ∷ es) rest h =
      elim (Result-cases (normalize_key ip_string parse_ip parse_net e)) [
        | inr (why, n) ↦ absurd (ground (arith, h, n))
        | inl (key, n) ↦ elim (Result-cases (remaining ip_string parse_ip parse_net drop es)) [
          | inr (why, r) ↦ absurd (ground (arith, h, n, r))
          | inl (left, r) ↦
              ground (arith, h, n, r, text_eq_iff key k, remaining-has_key k drop es left r)
        ]
      ]

  pub parse_all-has_key :
      (k : Bytes) (i : ℕ) (raws entries : List Bytes) {nets : List IpNet}
      → parse_all parse_ip parse_net i raws ≡ ok (entries, nets)
      → has_key k entries ≡ has_key k raws
  unfolding has_key parse_all
  parse_all-has_key k i [] entries h = ground (arith, h)
  parse_all-has_key k i (raw ∷ raws) entries {nets} h =
      elim (parse_all-cons parse_ip parse_net i raw raws entries nets h) [
        | inl (blank, later) ↦
            ground (arith, blank_key k raw blank, parse_all-has_key k (i + 1) raws entries later)
        | inr (n, es, ns, full, one, r, he, hn) ↦
            ground (arith, he, normalize_key-trim_space raw, parse_all-has_key k (i + 1) raws es r)
      ]

  pub has_key-nil : (k : Bytes) (es : List Bytes) → (length es == 0) ≡ true → has_key k es ≡ false
  unfolding has_key
  has_key-nil k [] h = refl
  has_key-nil k (e ∷ es) h = absurd (ground (arith, h))

  pub contains-nil : (k : Bytes) (ks : List Bytes) → (length ks == 0) ≡ true → contains k ks ≡ false
  unfolding contains
  contains-nil k [] h = refl
  contains-nil k (j ∷ ks) h = absurd (ground (arith, h))

  -- Remove keeps all only where it dropped none.
  pub remaining_all :
      (drop es rest : List Bytes)
      → remaining ip_string parse_ip parse_net drop es ≡ ok rest
      → (length rest ≤ length es) × (length rest ≡ length es → rest ≡ es)
  unfolding remaining
  remaining_all drop [] rest h = (ground (arith, h), ground (arith, h))
  remaining_all drop (e ∷ es) rest h =
      elim (Result-cases (normalize_key ip_string parse_ip parse_net e)) [
        | inr (why, n) ↦ absurd (ground (arith, h, n))
        | inl (key, n) ↦ elim (Result-cases (remaining ip_string parse_ip parse_net drop es)) [
          | inr (why, r) ↦ absurd (ground (arith, h, n, r))
          | inl (left, r) ↦
              let (short, same) = remaining_all drop es left r in
              elim (Bool-cases (contains key drop)) [
                | inl gone ↦
                    let e1 : rest ≡ left = ground (arith, h, n, r, gone) in
                    rw e1 (omega (arith, short), λ eq. absurd (omega (arith, short, eq)))
                | inr stays ↦
                    let e2 : rest ≡ e ∷ left = ground (arith, h, n, r, stays) in
                    rw e2 (omega (arith, short), λ eq. ap (◌∷◌ e) (same (omega (arith, eq))))
              ]
        ]
      ]
