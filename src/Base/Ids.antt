-- ===== src/Base/Ids.antt =====
-- Go maps with integer keys, and the heap that pointers into shared objects lead to.
use Prim.Native.Nat.{ℕ, ◌≤◌}
use mathlib.Core.Path.{◌≡◌, subst}
use mathlib.Core.Logic.{inl, inr}
use mathlib.Core.Option.{Option, none, some}
use mathlib.Core.List.{List, [], ◌∷◌}
use native.Mathlib.Omega.{arith}
use faketunnel.Base.Tests.{◌==◌, if◌then◌else◌, Bool-cases}
use faketunnel.Base.Lists.{length, All}

module _ {ℓ} {V : Type ℓ} where
  unfoldable pub lookup_id : ℕ → List (ℕ × V) → Option V
  lookup_id i ((j, v) ∷ m) = if j == i then some v else lookup_id i m
  lookup_id _ [] = none

  unfoldable pub erase_id : ℕ → List (ℕ × V) → List (ℕ × V)
  erase_id i ((j, v) ∷ m) = if j == i then erase_id i m else (j, v) ∷ erase_id i m
  erase_id _ [] = []

  -- an assignment: the old entry of the key goes
  unfoldable pub assign_id : ℕ → V → List (ℕ × V) → List (ℕ × V)
  assign_id i v m = (i, v) ∷ erase_id i m

  pub lookup_id-erase_id :
      (i j : ℕ) (m : List (ℕ × V))
      → lookup_id j (erase_id i m) ≡ (if i == j then none else lookup_id j m)
  unfolding lookup_id erase_id
  lookup_id-erase_id i j ((k, v) ∷ m) = ground (arith, lookup_id-erase_id i j m)
  lookup_id-erase_id i j [] = ground arith

  pub lookup_id-assign_id :
      (i j : ℕ) (v : V) (m : List (ℕ × V))
      → lookup_id j (assign_id i v m) ≡ (if i == j then some v else lookup_id j m)
  unfolding lookup_id assign_id
  lookup_id-assign_id i j v m = ground (arith, lookup_id-erase_id i j m)

  pub length-erase_id : (i : ℕ) (m : List (ℕ × V)) → length (erase_id i m) ≤ length m
  unfolding erase_id
  length-erase_id i ((j, v) ∷ m) = ground (arith, length-erase_id i m)
  length-erase_id i [] = ground arith

  -- the heap after a write through the pointer `p`
  abbrev pub store_at : ℕ → V → (ℕ → V) → ℕ → V
  store_at p v heap q = if q == p then v else heap q

module _ {ℓ κ} {V : Type ℓ} (P : ℕ × V → Type κ) where
  pub erase_id-All : (i : ℕ) (m : List (ℕ × V)) → All P m → All P (erase_id i m)
  unfolding erase_id
  erase_id-All i [] h = tt
  erase_id-All i ((j, v) ∷ m) h = elim (Bool-cases (j == i)) [
    | inl e ↦ rw e (erase_id-All i m h.1)
    | inr e ↦ rw e (h.0, erase_id-All i m h.1)
  ]

  pub lookup_id-All :
      (i : ℕ) (m : List (ℕ × V)) {v : V} → All P m → lookup_id i m ≡ some v → P (i, v)
  unfolding lookup_id
  lookup_id-All i [] h e = absurd (ground (arith, e))
  lookup_id-All i ((j, w) ∷ m) {v} h e = elim (Bool-cases (j == i)) [
    | inl same ↦
        let here : w ≡ v = ground (arith, e, same) in
        let key : j ≡ i = ground (arith, same) in
        subst (λ k. P (k, v)) key (subst (λ x. P (j, x)) here h.0)
    | inr other ↦ lookup_id-All i m h.1 (ground (arith, e, other))
  ]
