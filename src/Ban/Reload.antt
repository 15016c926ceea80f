-- ===== src/Ban/Reload.antt =====
-- internal/ban/store.go: a store that is read back from its file blocks and pardons whom it did.
use faketunnel.Base.{
  ℕ, ◌<◌, ◌≡◌, refl, ◌∙◌, inl, inr, Bool, true, false, ◌||◌, Option, none, some, List, [], ◌∷◌,
  arith, ◌==◌, Bool-cases, length, All, Bytes, text_eq, text_eq_iff,
}
use faketunnel.Base.Maps.{lookup, insert, contains, add, lookup-insert, contains-add, NoDup}
use faketunnel.Net.{Ip}
use faketunnel.Ban.Store.{
  Record, Store, record_blocked, blocked_locked, text_leb, insert_sorted, sort_texts, kept,
  is_trivial, dto_of, persist_locked,
}
use faketunnel.Ban.Methods.{parsed_key, load_pardoned, load_records, new}

contains-insert_sorted :
    (k j : Bytes) (s : List Bytes) → contains j (insert_sorted k s) ≡ (text_eq k j || contains j s)
unfolding insert_sorted contains
contains-insert_sorted k j [] = refl
contains-insert_sorted k j (i ∷ s) = ground (arith, contains-insert_sorted k j s)

contains-sort_texts : (j : Bytes) (s : List Bytes) → contains j (sort_texts s) ≡ contains j s
unfolding sort_texts contains
contains-sort_texts j [] = refl
contains-sort_texts j (k ∷ s) =
    contains-insert_sorted k j (sort_texts s) ∙ rw (contains-sort_texts j s)

-- whether a record found, or none, blocks
abbrev blocks : ℕ → Option Record → Bool
blocks now none = false
blocks now (some r) = record_blocked now r

lookup-kept_absent :
    (k : Bytes) (m : List (Bytes × Record)) → lookup k m ≡ none → lookup k (kept m) ≡ none
unfolding kept lookup
lookup-kept_absent k [] h = refl
lookup-kept_absent k ((j, r) ∷ m) h = ground (arith, lookup-kept_absent k m)

-- the records that are not written block nobody
blocks-kept :
    (now : ℕ) (k : Bytes) (m : List (Bytes × Record))
    → NoDup m
    → blocks now (lookup k (kept m)) ≡ blocks now (lookup k m)
unfolding kept lookup
blocks-kept now k [] h = refl
blocks-kept now k ((j, r) ∷ m) h =
    ground (arith, blocks-kept now k m h.1, text_eq_iff j k, lookup-kept_absent j m h.0)

kept-NoDup : (m : List (Bytes × Record)) → NoDup m → NoDup (kept m)
unfolding kept
kept-NoDup [] h = tt
kept-NoDup ((j, r) ∷ m) h = elim (Bool-cases (is_trivial r)) [
  | inl e ↦ rw e (kept-NoDup m h.1)
  | inr e ↦ rw e (lookup-kept_absent j m h.0, kept-NoDup m h.1)
]

module _ (ip_string : Ip → Bytes) (parse_ip : Bytes → Option Ip) where
  -- a key that parses and prints back to itself, as every key of the store does
  abbrev pub IsCanonical : Bytes → Type 0
  IsCanonical k = (parsed_key ip_string parse_ip k ≡ k) × (0 < length k)

  kept-IsCanonical :
      (m : List (Bytes × Record))
      → All (λ e. IsCanonical e.0) m
      → All (λ e. IsCanonical e.0) (kept m)
  unfolding kept
  kept-IsCanonical [] h = tt
  kept-IsCanonical ((j, r) ∷ m) h = elim (Bool-cases (is_trivial r)) [
    | inl e ↦ rw e (kept-IsCanonical m h.1)
    | inr e ↦ rw e (h.0, kept-IsCanonical m h.1)
  ]

  load_records_lem :
      (k : Bytes) (rs acc : List (Bytes × Record))
      → All (λ e. IsCanonical e.0) rs
      → NoDup rs
      → lookup k (load_records ip_string parse_ip rs acc)
        ≡ elim (lookup k rs) [ some r ↦ some r | none ↦ lookup k acc ]
  unfolding load_records lookup
  load_records_lem k [] acc c d = refl
  load_records_lem k ((j, r) ∷ rs) acc c d = ground (
    arith,
    c.0,
    d.0,
    load_records_lem k rs (insert j r acc) c.1 d.1,
    lookup-insert j k r acc,
    text_eq_iff j k,
  )

  load_pardoned_lem :
      (k : Bytes) (ips acc : List Bytes)
      → All IsCanonical ips
      → contains k (load_pardoned ip_string parse_ip ips acc) ≡ (contains k ips || contains k acc)
  unfolding load_pardoned contains
  load_pardoned_lem k [] acc c = refl
  load_pardoned_lem k (j ∷ ips) acc c =
      ground (arith, c.0, load_pardoned_lem k ips (add j acc) c.1, contains-add j k acc)

  All-insert_sorted :
      (k : Bytes) (s : List Bytes)
      → IsCanonical k
      → All IsCanonical s
      → All IsCanonical (insert_sorted k s)
  unfolding insert_sorted
  All-insert_sorted k [] h hs = (h, tt)
  All-insert_sorted k (j ∷ s) h hs = elim (Bool-cases (text_leb k j)) [
    | inl e ↦ rw e (h, hs)
    | inr e ↦ rw e (hs.0, All-insert_sorted k s h hs.1)
  ]

  All-sort_texts : (s : List Bytes) → All IsCanonical s → All IsCanonical (sort_texts s)
  unfolding sort_texts
  All-sort_texts [] h = tt
  All-sort_texts (k ∷ s) h = All-insert_sorted k (sort_texts s) h.0 (All-sort_texts s h.1)

  -- A store with a path that was persisted and is opened again blocks the same addresses at
  -- every time and has the same pardons, if each address has one record and every key parses and
  -- prints back to itself.
  pub new-persist_locked :
      (s : Store)
      → 0 < length s.path
      → NoDup s.by_ip
      → All (λ e. IsCanonical e.0) s.by_ip
      → All IsCanonical s.pardoned
      → (key : Bytes) (now : ℕ)
      → (blocked_locked (new ip_string parse_ip s.path (persist_locked true s).0.file) key now
          ≡ blocked_locked s key now)
        × (contains key (new ip_string parse_ip s.path (persist_locked true s).0.file).pardoned
            ≡ contains key s.pardoned)
  unfolding new persist_locked blocked_locked dto_of lookup contains
  new-persist_locked s p d c cp key now =
      let named : (length s.path == 0) ≡ false = ground arith in
      let records =
        load_records_lem key (kept s.by_ip) [] (kept-IsCanonical s.by_ip c)
          (kept-NoDup s.by_ip d) in
      let same = blocks-kept now key s.by_ip d in
      let pardons =
        load_pardoned_lem key (sort_texts s.pardoned) [] (All-sort_texts s.pardoned cp) in
      (ground (arith, records, same), ground (arith, pardons, contains-sort_texts key s.pardoned))
