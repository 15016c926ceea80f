-- ===== src/Base/Decimals.antt =====
-- strconv.Itoa can be undone, so that it gives different numbers different texts.
use Prim.Native.Nat.{ℕ, zero, suc, ◌+◌, ◌-◌, ◌*◌, ◌/◌, ◌%◌, ◌≤◌}
use mathlib.Core.Path.{◌≡◌, refl, sym, ap, ◌∙◌}
use mathlib.Core.Logic.{inl, inr}
use mathlib.Core.List.{[], ◌∷◌, ◌++◌}
use native.Mathlib.Omega.{arith}
use faketunnel.Base.Tests.{ltb, Bool-cases}
use faketunnel.Base.Texts.{Bytes, digits, decimal}

-- the number that a text of digits adds to `acc`
unfoldable pub number : ℕ → Bytes → ℕ
number acc [] = acc
number acc (d ∷ s) = number (acc * 10 + (d - 48)) s

number-append : (acc : ℕ) (s t : Bytes) → number acc (s ++ t) ≡ number (number acc s) t
unfolding number
number-append acc [] t = refl
number-append acc (d ∷ s) t = number-append (acc * 10 + (d - 48)) s t

number-digits : (fuel n : ℕ) → n ≤ fuel → number 0 (digits fuel n) ≡ n
unfolding number
number-digits zero n h = ground (arith, h)
number-digits (suc fuel) n h = elim (Bool-cases (ltb n 10)) [
  | inl e ↦ rw e (ground (arith, e))
  | inr e ↦
      let front : number 0 (digits fuel (n / 10)) ≡ n / 10 =
        number-digits fuel (n / 10) (ground (arith, h, e)) in
      rw (e, number-append 0 (digits fuel (n / 10)) ((48 + n % 10) ∷ []), front) (omega arith)
]

pub number-decimal : (n : ℕ) → number 0 (decimal n) ≡ n
number-decimal n = number-digits n n (omega arith)

pub decimal_inj : (m n : ℕ) → decimal m ≡ decimal n → m ≡ n
decimal_inj m n h = sym (number-decimal m) ∙ (ap (number 0) h ∙ number-decimal n)
