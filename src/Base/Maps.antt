-- ===== src/Base/Maps.antt =====
-- Go maps with string keys, as association lists, and sets of strings, as lists. A lookup finds
-- the first entry of its key; an insert replaces it where it stands, or adds one at the end.
use mathlib.Core.Path.{◌≡◌, refl, subst}
use mathlib.Core.Logic.{inl, inr}
use mathlib.Core.Bool.{Bool, false, ◌||◌}
use mathlib.Core.Option.{Option, none, some}
use mathlib.Core.List.{List, [], ◌∷◌}
use native.Mathlib.Omega.{arith}
use faketunnel.Base.Tests.{if◌then◌else◌, Bool-cases}
use faketunnel.Base.Lists.{All}
use faketunnel.Base.Texts.{Bytes, text_eq, text_eq_iff}

module _ {ℓ} {V : Type ℓ} where
  -- `m[key]`, `none` where Go has the zero value and `false`
  unfoldable pub lookup : Bytes → List (Bytes × V) → Option V
  lookup key ((k, x) ∷ rest) = if text_eq k key then some x else lookup key rest
  lookup _ [] = none

  -- `m[key] = x`
  unfoldable pub insert : Bytes → V → List (Bytes × V) → List (Bytes × V)
  insert key x ((k, y) ∷ rest) = if text_eq k key then (k, x) ∷ rest else (k, y) ∷ insert key x rest
  insert key x [] = (key, x) ∷ []

  -- `delete(m, key)`
  unfoldable pub erase : Bytes → List (Bytes × V) → List (Bytes × V)
  erase key ((k, y) ∷ rest) = if text_eq k key then erase key rest else (k, y) ∷ erase key rest
  erase _ [] = []

  pub lookup-insert :
      (key asked : Bytes) (x : V) (m : List (Bytes × V))
      → lookup asked (insert key x m) ≡ (if text_eq key asked then some x else lookup asked m)
  unfolding lookup insert
  lookup-insert key asked x ((k, y) ∷ rest) = ground (
    arith,
    lookup-insert key asked x rest,
    text_eq_iff k key,
    text_eq_iff k asked,
    text_eq_iff key asked,
  )
  lookup-insert _ _ _ [] = refl

  pub lookup-erase :
      (k j : Bytes) (m : List (Bytes × V))
      → lookup j (erase k m) ≡ (if text_eq k j then none else lookup j m)
  unfolding lookup erase
  lookup-erase k j [] = elim (Bool-cases (text_eq k j)) [ inl e ↦ rw e | inr e ↦ rw e ]
  lookup-erase k j ((i, w) ∷ m) =
      ground (arith, text_eq_iff k j, text_eq_iff i k, text_eq_iff i j, lookup-erase k j m)

  abbrev pub AllValues {κ} : (V → Type κ) → List (Bytes × V) → Type κ
  AllValues P = All (λ e. P e.1)

  pub lookup-AllValues {κ} :
      (P : V → Type κ) (k : Bytes) (m : List (Bytes × V)) {v : V}
      → AllValues P m
      → lookup k m ≡ some v
      → P v
  unfolding lookup
  lookup-AllValues P k [] h e = absurd (ground arith)
  lookup-AllValues P k ((j, w) ∷ m) {v} h e = elim (Bool-cases (text_eq j k)) [
    | inl same ↦ let here : w ≡ v = ground arith in subst P here h.0
    | inr other ↦ let later : lookup k m ≡ some v = ground arith in lookup-AllValues P k m h.1 later
  ]

  pub insert-AllValues {κ} :
      (P : V → Type κ) (k : Bytes) (v : V) (m : List (Bytes × V))
      → AllValues P m
      → P v
      → AllValues P (insert k v m)
  unfolding insert
  insert-AllValues P k v [] h hv = (hv, tt)
  insert-AllValues P k v ((j, w) ∷ m) h hv = elim (Bool-cases (text_eq j k)) [
    | inl e ↦ rw e (hv, h.1)
    | inr e ↦ rw e (h.0, insert-AllValues P k v m h.1 hv)
  ]

  pub erase-AllValues {κ} :
      (P : V → Type κ) (k : Bytes) (m : List (Bytes × V)) → AllValues P m → AllValues P (erase k m)
  unfolding erase
  erase-AllValues P k [] h = tt
  erase-AllValues P k ((j, w) ∷ m) h = elim (Bool-cases (text_eq j k)) [
    | inl e ↦ rw e (erase-AllValues P k m h.1)
    | inr e ↦ rw e (h.0, erase-AllValues P k m h.1)
  ]

unfoldable pub contains : Bytes → List Bytes → Bool
contains k [] = false
contains k (j ∷ s) = text_eq j k || contains k s

-- adding a member again changes nothing that `contains` sees
unfoldable pub add : Bytes → List Bytes → List Bytes
add k s = k ∷ s

pub contains-add :
    (k j : Bytes) (s : List Bytes) → contains j (add k s) ≡ (text_eq k j || contains j s)
unfolding contains add
contains-add k j s = refl

module _ {ℓ} {V : Type ℓ} where
  -- no key stands twice
  abbrev pub NoDup : List (Bytes × V) → Type ℓ
  NoDup [] = Unit
  NoDup ((k, v) ∷ m) = (lookup k m ≡ none) × NoDup m

  pub insert-NoDup : (k : Bytes) (v : V) (m : List (Bytes × V)) → NoDup m → NoDup (insert k v m)
  unfolding insert
  insert-NoDup k v [] h = (unfold lookup in refl, tt)
  insert-NoDup k v ((j, w) ∷ m) h = elim (Bool-cases (text_eq j k)) [
    | inl e ↦ rw e h
    | inr e ↦
        let other : text_eq k j ≡ false = ground (arith, text_eq_iff k j, text_eq_iff j k) in
        let absent : lookup j (insert k v m) ≡ none = rw (lookup-insert, other) h.0 in
        rw e (absent, insert-NoDup k v m h.1)
  ]

  pub erase-NoDup : (k : Bytes) (m : List (Bytes × V)) → NoDup m → NoDup (erase k m)
  unfolding erase
  erase-NoDup k [] h = tt
  erase-NoDup k ((j, w) ∷ m) h = elim (Bool-cases (text_eq j k)) [
    | inl e ↦ rw e (erase-NoDup k m h.1)
    | inr e ↦
        let absent : lookup j (erase k m) ≡ none = ground (arith, lookup-erase k j m, h.0) in
        rw e (absent, erase-NoDup k m h.1)
  ]
