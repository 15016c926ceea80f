-- ===== src/Config/Naming/Fresh.antt =====
-- internal/config/defaults.go: uniqueName ends, with a name that is not used.
use faketunnel.Base.{
  ℕ, zero, suc, ◌+◌, ◌≤◌, ◌<◌, ◌≡◌, sym, ap, ◌∙◌, inl, inr, true, false, List, [], ◌∷◌, ◌++◌, arith,
  if◌then◌else◌, Bool-cases, length, drop, drop-length-append, Bytes, decimal, text, text_eq,
  text_eq_iff,
}
use faketunnel.Base.Maps.{contains}
use faketunnel.Base.Decimals.{decimal_inj}
use faketunnel.Config.File.{is_empty}
use faketunnel.Config.Naming.{unique_from, unique_name}

unfoldable remove : Bytes → List Bytes → List Bytes
remove n [] = []
remove n (x ∷ xs) = if text_eq x n then xs else x ∷ remove n xs

length-remove :
    (n : Bytes) (xs : List Bytes) → contains n xs ≡ true → length (remove n xs) + 1 ≡ length xs
unfolding remove contains
length-remove n [] h = absurd (ground (arith, h))
length-remove n (x ∷ xs) h = ground (arith, h, length-remove n xs)

contains-remove :
    (m n : Bytes) (xs : List Bytes)
    → text_eq n m ≡ false
    → contains m xs ≡ true
    → contains m (remove n xs) ≡ true
unfolding remove contains
contains-remove m n [] ne h = h
contains-remove m n (x ∷ xs) ne h =
    ground
      (arith, ne, h, contains-remove m n xs ne, text_eq_iff x n, text_eq_iff x m, text_eq_iff n m)

-- a list that has `k` different texts has `k` elements at least
pigeonhole :
    (f : ℕ → Bytes) (k : ℕ) (xs : List Bytes)
    → ((i j : ℕ) → f i ≡ f j → i ≡ j)
    → ((i : ℕ) → i < k → contains (f i) xs ≡ true)
    → k ≤ length xs
pigeonhole f zero xs inj h = omega arith
pigeonhole f (suc k) xs inj h =
    let here = h k (omega arith) in
    let rest : k ≤ length (remove (f k) xs) = pigeonhole f k (remove (f k) xs) inj (λ i less.
      contains-remove (f i) (f k) xs (ground (arith, text_eq_iff (f k) (f i), inj k i, less))
        (h i (omega (arith, less)))) in
    omega (arith, rest, length-remove (f k) xs here)

abbrev numbered : Bytes → ℕ → Bytes
numbered base i = base ++ 45 ∷ decimal i

tail : Bytes → Bytes
tail [] = []
tail (x ∷ xs) = xs

numbered_inj : (base : Bytes) (i j : ℕ) → numbered base i ≡ numbered base j → i ≡ j
unfolding tail
numbered_inj base i j h =
    let cut_off : (s : Bytes) → drop (length base) (base ++ s) ≡ s = drop-length-append base in
    decimal_inj i j (
      ap tail
        (sym (cut_off (45 ∷ decimal i)) ∙ (ap (drop (length base)) h ∙ cut_off (45 ∷ decimal j))))

at_index :
    (base : Bytes) (used : List Bytes) (i j : ℕ)
    → contains (numbered base i) used ≡ true
    → i ≡ j
    → contains (numbered base j) used ≡ true
at_index base used i j h same = rw (← same) h

tried :
    (base : Bytes) (used : List Bytes) (fuel i j : ℕ)
    → contains (unique_from base used fuel i) used ≡ true
    → j < fuel
    → contains (numbered base (i + j)) used ≡ true
unfolding unique_from
tried base used zero i j h less = absurd (omega (arith, less))
tried base used (suc fuel) i zero h less = elim (Bool-cases (contains (numbered base i) used)) [
  | inl e ↦ at_index base used i (i + 0) e (omega arith)
  | inr e ↦ absurd (ground (arith, h, e))
]
tried base used (suc fuel) i (suc j) h less = elim (Bool-cases (contains (numbered base i) used)) [
  | inl e ↦
      let later = tried base used fuel (i + 1) j (ground (arith, h, e)) (omega (arith, less)) in
      at_index base used (i + 1 + j) (i + suc j) later (omega arith)
  | inr e ↦ absurd (ground (arith, h, e))
]

-- UniqueName ends with a name that is not among those used, whatever the base and the names are.
pub unique_name_unused :
    (base : Bytes) (used : List Bytes) → contains (unique_name base used) used ≡ false
unfolding unique_name
unique_name_unused given used =
    let base = if is_empty given then text "tun" else given in
    elim (Bool-cases (contains base used)) [
      | inr e ↦ rw e e
      | inl e ↦
          rw e (elim (Bool-cases (contains (unique_from base used (length used + 1) 2) used)) [
            | inr h ↦ h
            | inl h ↦ absurd (
                omega (
                  arith,
                  pigeonhole (λ j. numbered base (2 + j)) (length used + 1) used
                      (λ i j same. omega (arith, numbered_inj base (2 + i) (2 + j) same))
                      (λ j less. tried base used (length used + 1) 2 j h less),
                ))
          ])
    ]
