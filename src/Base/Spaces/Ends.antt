-- ===== src/Base/Spaces/Ends.antt =====
-- strings.TrimSpace leaves a text alone that no space begins or ends.
use Prim.Native.Nat.{ℕ, ◌<◌}
use mathlib.Core.Path.{◌≡◌, refl, sym, ap, subst, ◌∙◌}
use mathlib.Core.Logic.{◌≢◌}
use mathlib.Core.Bool.{Bool, true, not, ◌&&◌}
use mathlib.Core.List.{List, [], ◌∷◌, ◌++◌, reverse, reverse-append, reverse-reverse}
use native.Mathlib.Omega.{arith}
use faketunnel.Base.Tests.{ltb}
use faketunnel.Base.Lists.{length, All, All-append, length-append}
use faketunnel.Base.Texts.{Bytes}
use faketunnel.Base.Spaces.{
  leading, trailing, trim_right, trim_space, skip, skip_stop, is_ascii_space, trim_space_stable,
  trim_space-trailing,
}

-- an ASCII byte that is no space
abbrev pub is_plain : ℕ → Bool
is_plain b = ltb b 128 && not (is_ascii_space b)

abbrev pub Plain : Bytes → Type 0
Plain = All (λ b. is_plain b ≡ true)

abbrev pub Ascii : Bytes → Type 0
Ascii = All (λ b. b < 128)

All-reverse {ℓ κ} : {A : Type ℓ} (P : A → Type κ) (xs : List A) → All P xs → All P (reverse xs)
All-reverse P [] h = tt
All-reverse P (x ∷ xs) h =
    subst (All P) (sym (reverse-append (x ∷ []) xs))
      (All-append P (reverse xs) (x ∷ []) (All-reverse P xs h.1) (h.0, tt))

pub leading_plain : (b : ℕ) (s : Bytes) → is_plain b ≡ true → leading (b ∷ s) ≡ 0
unfolding leading
leading_plain b s h = ground (arith, h)

pub trailing_plain : (b : ℕ) (s : Bytes) → is_plain b ≡ true → trailing (b ∷ s) ≡ 0
unfolding trailing
trailing_plain b s h = ground (arith, h)

-- ASCII bytes before a text change nothing at its end
pub trailing-append :
    (b : ℕ) (s more : Bytes) → Ascii more → trailing (b ∷ s) ≡ 0 → trailing (b ∷ s ++ more) ≡ 0
unfolding trailing
trailing-append b [] [] m h = h
trailing-append b [] (x ∷ []) m h = ground (arith, m, h)
trailing-append b [] (x ∷ y ∷ more) m h = ground (arith, m, h)
trailing-append b (a ∷ []) [] m h = h
trailing-append b (a ∷ []) (x ∷ more) m h = ground (arith, m, h)
trailing-append b (a ∷ c ∷ s) more m h = h

trailing_front :
    (u more : Bytes) → length u ≢ 0 → Ascii more → trailing u ≡ 0 → trailing (u ++ more) ≡ 0
trailing_front [] more ne m h = absurd (ne refl)
trailing_front (b ∷ u) more ne m h = trailing-append b u more m h

length-reverse : (s : Bytes) → length (reverse s) ≡ length s
length-reverse [] = refl
length-reverse (b ∷ s) =
    ap length (reverse-append (b ∷ []) s)
    ∙ omega (arith, length-append (reverse s) (b ∷ []), length-reverse s)

-- A trimmed text stays as it is behind ASCII bytes that no space begins.
pub trim_space_behind :
    (b : ℕ) (p s : Bytes)
    → is_plain b ≡ true
    → Ascii p
    → length (trim_space s) ≢ 0
    → trim_space (b ∷ p ++ trim_space s) ≡ b ∷ p ++ trim_space s
trim_space_behind b p s hb hp ne =
    let t = trim_space s in
    let back : trailing (reverse t ++ reverse (b ∷ p)) ≡ 0 =
      trailing_front (reverse t) (reverse (b ∷ p)) (λ z. ne (sym (length-reverse t) ∙ z))
        (All-reverse (λ c. c < 128) (b ∷ p) (ground (arith, hb), hp)) (trim_space-trailing s) in
    trim_space_stable (b ∷ p ++ t) (leading_plain b (p ++ t) hb)
      (subst (λ w. trailing w ≡ 0) (sym (reverse-append (b ∷ p) t)) back)

trailing-Plain : (u : Bytes) → Plain u → trailing u ≡ 0
trailing-Plain [] h = unfold trailing in refl
trailing-Plain (b ∷ u) h = trailing_plain b u h.0

leading-Plain : (u : Bytes) → Plain u → leading u ≡ 0
leading-Plain [] h = unfold leading in refl
leading-Plain (b ∷ u) h = leading_plain b u h.0

pub trim_space-Plain : (s : Bytes) → Plain s → trim_space s ≡ s
trim_space-Plain s h =
    trim_space_stable s (leading-Plain s h)
      (trailing-Plain (reverse s) (All-reverse (λ b. is_plain b ≡ true) s h))

-- the newline of a line goes
pub trim_space_line : (b : ℕ) (s : Bytes) → Plain (b ∷ s) → trim_space (b ∷ s ++ 10 ∷ []) ≡ b ∷ s
unfolding trim_space
trim_space_line b s h =
    let t = b ∷ s in
    let u = reverse t in
    let whole : reverse (t ++ 10 ∷ []) ≡ 10 ∷ u = reverse-append t (10 ∷ []) in
    let first : skip trailing (length (10 ∷ u)) (10 ∷ u) ≡ skip trailing (length u) u =
      unfold skip trailing in refl in
    let rest : skip trailing (length u) u ≡ u =
      skip_stop trailing (length u) u
        (trailing-Plain u (All-reverse (λ c. is_plain c ≡ true) t h)) in
    ap trim_right (
      skip_stop leading (length (t ++ 10 ∷ [])) (t ++ 10 ∷ []) (leading_plain b (s ++ 10 ∷ []) h.0))
    ∙ (ap (λ w. reverse (skip trailing (length w) w)) whole
        ∙ (ap reverse (first ∙ rest) ∙ reverse-reverse t))
