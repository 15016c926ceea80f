-- ===== src/Base/Spaces.antt =====
-- strings.TrimSpace: the spaces of Unicode in UTF-8 are cut off both ends of a byte string.
pub mod Ends
use Prim.Native.Nat.{ℕ, zero, suc, ◌≤◌}
use mathlib.Core.Path.{◌≡◌, refl, sym, ap, subst, ◌∙◌}
use mathlib.Core.Logic.{inl, inr}
use mathlib.Core.Bool.{Bool, ◌&&◌, ◌||◌}
use mathlib.Core.List.{[], ◌∷◌, ◌++◌, append_assoc, reverse, reverse-append, reverse-reverse}
use native.Mathlib.Omega.{arith}
use faketunnel.Base.Tests.{◌==◌, leb, if◌then◌else◌, Bool-cases}
use faketunnel.Base.Lists.{length, take, drop, take-append-drop, length-drop}
use faketunnel.Base.Texts.{Bytes}

-- the byte at an index, 0 past the end
abbrev at : ℕ → Bytes → ℕ
at zero [] = 0
at zero (b ∷ s) = b
at (suc i) [] = 0
at (suc i) (b ∷ s) = at i s

abbrev is_ascii_space : ℕ → Bool
is_ascii_space b = (leb 9 b && leb b 13) || b == 32

-- U+0085 and U+00A0
abbrev is_space2 : ℕ → ℕ → Bool
is_space2 a b = a == 194 && (b == 133 || b == 160)

-- U+1680, U+2000 to U+200A, U+2028, U+2029, U+202F, U+205F and U+3000
abbrev is_space3 : ℕ → ℕ → ℕ → Bool
is_space3 a b c =
    (a == 225 && b == 154 && c == 128)
    || (a == 226 && b == 128 && ((leb 128 c && leb c 138) || c == 168 || c == 169 || c == 175))
    || (a == 226 && b == 129 && c == 159)
    || (a == 227 && b == 128 && c == 128)

-- the bytes of the space that a text begins with, 0 where it begins with none
unfoldable leading : Bytes → ℕ
leading s =
    if is_ascii_space (at 0 s)
    then 1
    else if is_space2 (at 0 s) (at 1 s)
    then 2
    else if is_space3 (at 0 s) (at 1 s) (at 2 s)
    then 3
    else 0

-- the same at the end, for a text that is read backwards
unfoldable trailing : Bytes → ℕ
trailing s =
    if is_ascii_space (at 0 s)
    then 1
    else if is_space2 (at 1 s) (at 0 s)
    then 2
    else if is_space3 (at 2 s) (at 1 s) (at 0 s)
    then 3
    else 0

-- `fuel` at the text's length is enough, since each round drops a byte at least
unfoldable skip : (Bytes → ℕ) → ℕ → Bytes → Bytes
skip width zero s = s
skip width (suc fuel) s =
    let rest = skip width fuel (drop (width s) s) in if width s == 0 then s else rest

abbrev trim_left : Bytes → Bytes
trim_left s = skip leading (length s) s

abbrev trim_right : Bytes → Bytes
trim_right s = let back = reverse s in reverse (skip trailing (length back) back)

unfoldable pub trim_space : Bytes → Bytes
unfolding skip leading trailing
trim_space s = trim_right (trim_left s)

skip_stop : (width : Bytes → ℕ) (n : ℕ) (s : Bytes) → width s ≡ 0 → skip width n s ≡ s
unfolding skip
skip_stop width zero s h = refl
skip_stop width (suc n) s h = rw h

skip_done :
    (width : Bytes → ℕ) (n : ℕ) (s : Bytes)
    → width [] ≡ 0
    → length s ≤ n
    → width (skip width n s) ≡ 0
unfolding skip
skip_done width zero [] h0 h = h0
skip_done width zero (b ∷ s) h0 h = absurd (omega (arith, h))
skip_done width (suc n) s h0 h =
    let shorter = skip_done width n (drop (width s) s) h0 in
    elim (Bool-cases (width s == 0)) [
      | inl e ↦ rw e (ground arith)
      | inr e ↦ rw e (shorter (ground (arith, h, length-drop (width s) s)))
    ]

skip_drop :
    (width : Bytes → ℕ) (n : ℕ) (s : Bytes) → (front : Bytes) × (front ++ skip width n s ≡ s)
unfolding skip
skip_drop width zero s = ([], refl)
skip_drop width (suc n) s =
    let (front, e) = skip_drop width n (drop (width s) s) in
    elim (Bool-cases (width s == 0)) [
      | inl stop ↦ rw stop ([], refl)
      | inr go ↦ rw go (
        take (width s) s ++ front,
        append_assoc (take (width s) s) front (skip width n (drop (width s) s))
            ∙ (ap (λ w. take (width s) s ++ w) e ∙ take-append-drop (width s) s),
      )
    ]

leading-append : (s more : Bytes) → leading (s ++ more) ≡ 0 → leading s ≡ 0
unfolding leading
leading-append [] more h = refl
leading-append (a ∷ []) more h = ground arith
leading-append (a ∷ b ∷ []) more h = ground arith
leading-append (a ∷ b ∷ c ∷ s) more h = h

trim_space-leading : (s : Bytes) → leading (trim_space s) ≡ 0
unfolding trim_space
trim_space-leading s =
    let t = trim_left s in
    let u = skip trailing (length (reverse t)) (reverse t) in
    let (front, cut) = skip_drop trailing (length (reverse t)) (reverse t) in
    let whole : reverse u ++ reverse front ≡ t =
      sym (reverse-append front u) ∙ (ap reverse cut ∙ reverse-reverse t) in
    let t_done : leading t ≡ 0 = skip_done leading (length s) s refl (omega arith) in
    leading-append (reverse u) (reverse front) (subst (λ w. leading w ≡ 0) (sym whole) t_done)

trim_space-trailing : (s : Bytes) → trailing (reverse (trim_space s)) ≡ 0
unfolding trim_space
trim_space-trailing s =
    let back = reverse (trim_left s) in
    subst (λ w. trailing w ≡ 0) (sym (reverse-reverse (skip trailing (length back) back)))
      (skip_done trailing (length back) back refl (omega arith))

trim_space_stable : (s : Bytes) → leading s ≡ 0 → trailing (reverse s) ≡ 0 → trim_space s ≡ s
unfolding trim_space
trim_space_stable s front back =
    ap trim_right (skip_stop leading (length s) s front)
    ∙ (ap reverse (skip_stop trailing (length (reverse s)) (reverse s) back) ∙ reverse-reverse s)

pub trim_space_idem : (s : Bytes) → trim_space (trim_space s) ≡ trim_space s
trim_space_idem s = trim_space_stable (trim_space s) (trim_space-leading s) (trim_space-trailing s)
