-- ===== src/Base/Bits.antt =====
-- `a ^ b` and `a | b` on bytes, whose laws are checked at all of them.
use Prim.Native.Nat.{ℕ, zero, suc, ◌<◌, bit_or, bit_xor}
use mathlib.Core.Path.{◌≡◌, refl}
use mathlib.Core.Bool.{Bool, true, not, ◌&&◌, ◌||◌}
use mathlib.Core.List.{List, [], ◌∷◌}
use native.Mathlib.Omega.{arith}
use faketunnel.Base.Tests.{◌==◌, ltb}
use faketunnel.Base.Lists.{all}

-- the numbers below a bound, downwards
unfoldable countdown : ℕ → List ℕ
countdown (suc top) = top ∷ countdown top
countdown zero = []

abbrev byte_values : List ℕ
byte_values = countdown 256

-- what a law says of one number of the list
of_member :
    (top : ℕ) (law : ℕ → Bool) (v : ℕ) → v < top → all law (countdown top) ≡ true → law v ≡ true
unfolding countdown
of_member (suc top) law v below checked = ground (arith, below, checked, of_member top law v)
of_member zero law v below checked = absurd (omega (arith, below))

module _ (law : ℕ → ℕ → Bool) where
  -- the law on all pairs of bytes
  abbrev Tabled : Type 0
  Tabled = all (λ v. all (law v) byte_values) byte_values ≡ true

  of_bytes : (v w : ℕ) → v < 256 → w < 256 → Tabled → law v w ≡ true
  of_bytes v w hv hw table =
      of_member 256 (law v) w hw (of_member 256 (λ u. all (law u) byte_values) v hv table)

abbrev agree : Bool → Bool → Bool
agree a b = (a && b) || (not a && not b)

abbrev xor_law : ℕ → ℕ → Bool
xor_law x y = agree (bit_xor x y == 0) (x == y) && ltb (bit_xor x y) 256

abbrev or_law : ℕ → ℕ → Bool
or_law x y = agree (bit_or x y == 0) (x == 0 && y == 0) && ltb (bit_or x y) 256

xor_table : Tabled xor_law
unfolding countdown
xor_table = refl

or_table : Tabled or_law
unfolding countdown
or_table = refl

pub xor_lem : (x y : ℕ) → x < 256 → y < 256 → xor_law x y ≡ true
xor_lem x y hx hy = of_bytes xor_law x y hx hy xor_table

pub or_lem : (x y : ℕ) → x < 256 → y < 256 → or_law x y ≡ true
or_lem x y hx hy = of_bytes or_law x y hx hy or_table
