-- ===== src/Base/Scan.antt =====
-- Searching byte strings for one byte: strings.IndexByte, Contains, HasPrefix, Cut and Split.
use Prim.Native.Nat.{ℕ}
use mathlib.Core.Path.{◌≡◌, refl}
use mathlib.Core.Logic.{inl, inr}
use mathlib.Core.Bool.{Bool, true, false, ◌&&◌, ◌||◌}
use mathlib.Core.Option.{Option, none, some}
use mathlib.Core.List.{List, [], ◌∷◌, ◌++◌}
use native.Mathlib.Omega.{arith}
use faketunnel.Base.Tests.{◌==◌, if◌then◌else◌, Bool-cases}
use faketunnel.Base.Texts.{Bytes}

unfoldable pub has_byte : ℕ → Bytes → Bool
has_byte c [] = false
has_byte c (b ∷ s) = b == c || has_byte c s

abbrev pub has_prefix : Bytes → Bytes → Bool
has_prefix s [] = true
has_prefix [] (c ∷ p) = false
has_prefix (b ∷ s) (c ∷ p) = b == c && has_prefix s p

abbrev push_before : ℕ → Bytes × Bytes → Bytes × Bytes
push_before b (front, back) = (b ∷ front, back)

-- the bytes before and after the first `c`
unfoldable pub cut : ℕ → Bytes → Option (Bytes × Bytes)
cut c [] = none
cut c (b ∷ s) =
    let rest = cut c s in
    if b == c then some ([], s) else elim rest [ none ↦ none | some p ↦ some (push_before b p) ]

-- the bytes before and after the last `c`
unfoldable pub cut_last : ℕ → Bytes → Option (Bytes × Bytes)
cut_last c [] = none
cut_last c (b ∷ s) = elim (cut_last c s) [
  | some p ↦ some (push_before b p)
  | none ↦ if b == c then some ([], s) else none
]

abbrev push_first : ℕ → List Bytes → List Bytes
push_first b [] = (b ∷ []) ∷ []
push_first b (part ∷ parts) = (b ∷ part) ∷ parts

unfoldable pub split : ℕ → Bytes → List Bytes
split c [] = [] ∷ []
split c (b ∷ s) = let rest = split c s in if b == c then [] ∷ rest else push_first b rest

pub has_byte-append : (c : ℕ) (s t : Bytes) → has_byte c (s ++ t) ≡ (has_byte c s || has_byte c t)
unfolding has_byte
has_byte-append c [] t = refl
has_byte-append c (b ∷ s) t = ground (arith, has_byte-append c s t)

pub cut_lem : (c : ℕ) (s t : Bytes) → has_byte c s ≡ false → cut c (s ++ c ∷ t) ≡ some (s, t)
unfolding cut has_byte
cut_lem c [] t h = ground arith
cut_lem c (b ∷ s) t h = ground (arith, cut_lem c s t)

pub cut_absent : (c : ℕ) (s : Bytes) → has_byte c s ≡ false → cut c s ≡ none
unfolding cut has_byte
cut_absent c [] h = refl
cut_absent c (b ∷ s) h = ground (arith, cut_absent c s)

pub cut-eq-some :
    (c : ℕ) (s front back : Bytes)
    → cut c s ≡ some (front, back)
    → (s ≡ front ++ c ∷ back) × (has_byte c front ≡ false)
unfolding cut has_byte
cut-eq-some c [] front back h = absurd (ground arith)
cut-eq-some c (b ∷ s) [] back h = elim (Bool-cases (b == c)) [
  | inl e ↦ ground arith
  | inr e ↦ absurd (ground arith)
]
cut-eq-some c (b ∷ s) (a ∷ front) back h = ground (arith, cut-eq-some c s front back)

pub cut_last_absent : (c : ℕ) (s : Bytes) → has_byte c s ≡ false → cut_last c s ≡ none
unfolding cut_last has_byte
cut_last_absent c [] h = refl
cut_last_absent c (b ∷ s) h = ground (arith, cut_last_absent c s)

pub cut_last_lem :
    (c : ℕ) (s t : Bytes) → has_byte c t ≡ false → cut_last c (s ++ c ∷ t) ≡ some (s, t)
unfolding cut_last
cut_last_lem c [] t h = ground (arith, cut_last_absent c t h)
cut_last_lem c (b ∷ s) t h = rw (cut_last_lem c s t h) refl
