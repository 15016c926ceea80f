-- ===== src/Agent/Udp/Invariant.antt =====
-- internal/agent/udp.go: what holds of the associations after every step.
use mathlib.Core.Path.{subst}
use faketunnel.Base.{
  ℕ, ◌+◌, ◌≤◌, ◌<◌, ◌≡◌, refl, ◌⊎◌, inl, inr, Bool, true, false, ◌||◌, Option, none, some, List, [],
  ◌∷◌, arith, ◌==◌, if◌then◌else◌, Bool-cases, length, All,
}
use faketunnel.Base.Ids.{lookup_id, erase_id, lookup_id-erase_id}
use faketunnel.Agent.Udp.{Assoc, Hub, new_hub, remove_conn}

abbrev pub count : ℕ → List ℕ → ℕ
count c [] = 0
count c (d ∷ ds) = (if d == c then 1 else 0) + count c ds

abbrev pub conns_of : List (ℕ × Assoc) → List ℕ
conns_of [] = []
conns_of ((id, a) ∷ m) = a.conn ∷ conns_of m

abbrev pub conn_in : Option (ℕ × ℕ) → List ℕ
conn_in none = []
conn_in (some (id, c)) = c ∷ []

-- no id stands twice
abbrev pub UniqueIds : List (ℕ × Assoc) → Type 0
UniqueIds [] = Unit
UniqueIds ((id, a) ∷ m) = (lookup_id id m ≡ none) × UniqueIds m

abbrev pub IsNew : Option (ℕ × ℕ) → List (ℕ × Assoc) → Type 0
IsNew none m = Unit
IsNew (some (id, c)) m = lookup_id id m ≡ none

abbrev pub is_member : ℕ → List ℕ → Bool
is_member x [] = false
is_member x (y ∷ ys) = y == x || is_member x ys

pub record IsValid (max : ℕ) (h : Hub) : Type 0 where
  pub unique : UniqueIds h.assocs
  pub new_id : IsNew h.opening h.assocs
  -- the cap
  pub capped : length h.assocs + length (conn_in h.opening) ≤ max
  -- a connection is open exactly where an association, or one being opened, holds it
  pub held :
      (c : ℕ) → count c h.open_conns ≡ count c (conns_of h.assocs) + count c (conn_in h.opening)
  -- once the hub is closed, an association is one that closeAll still has to close
  pub leaving : (h.closed ≡ false) ⊎ All (λ e. is_member e.0 h.leaving ≡ true) h.assocs

pub new_hub-IsValid : (max : ℕ) → IsValid max new_hub
new_hub-IsValid max = record {
  unique = tt;
  new_id = tt;
  capped = omega arith;
  held = λ c. refl;
  leaving = inl refl;
}

pub count_remove :
    (c d : ℕ) (ds : List ℕ)
    → 0 < count d ds
    → count c (remove_conn d ds) + (if d == c then 1 else 0) ≡ count c ds
unfolding remove_conn
count_remove c d [] h = absurd (ground (arith, h))
count_remove c d (e ∷ ds) h = ground (arith, h, count_remove c d ds)

pub erase_absent : (id : ℕ) (m : List (ℕ × Assoc)) → lookup_id id m ≡ none → erase_id id m ≡ m
unfolding lookup_id erase_id
erase_absent id [] h = refl
erase_absent id ((j, a) ∷ m) h = ground (arith, h, erase_absent id m)

pub erase_unique : (id : ℕ) (m : List (ℕ × Assoc)) → UniqueIds m → UniqueIds (erase_id id m)
unfolding erase_id
erase_unique id [] h = tt
erase_unique id ((j, a) ∷ m) h = elim (Bool-cases (j == id)) [
  | inl e ↦ rw e (erase_unique id m h.1)
  | inr e ↦ rw e (ground (arith, h.0, lookup_id-erase_id id j m), erase_unique id m h.1)
]

pub erase_count :
    (id c : ℕ) (m : List (ℕ × Assoc)) (a : Assoc)
    → UniqueIds m
    → lookup_id id m ≡ some a
    → (count c (conns_of (erase_id id m)) + (if a.conn == c then 1 else 0) ≡ count c (conns_of m))
      × (length (erase_id id m) + 1 ≡ length m)
unfolding lookup_id erase_id
erase_count id c [] a u h = absurd (ground (arith, h))
erase_count id c ((j, b) ∷ m) a u h = elim (Bool-cases (j == id)) [
  | inl e ↦
      let same : b ≡ a = ground (arith, h, e) in
      let gone : lookup_id id m ≡ none =
        subst (λ k. lookup_id k m ≡ none) (ground (arith, e)) u.0 in
      rw (e, ← same) (ground (arith, erase_absent id m gone))
  | inr e ↦ rw e (ground (arith, h, e, erase_count id c m a u.1))
]

pub held_some :
    (id : ℕ) (m : List (ℕ × Assoc)) (a : Assoc)
    → lookup_id id m ≡ some a
    → 0 < count a.conn (conns_of m)
unfolding lookup_id
held_some id [] a h = absurd (ground (arith, h))
held_some id ((j, b) ∷ m) a h = elim (Bool-cases (j == id)) [
  | inl e ↦ let same : b ≡ a = ground (arith, h, e) in rw (← same) (ground arith)
  | inr e ↦ ground (arith, held_some id m a (ground (arith, h, e)))
]

pub erase-IsNew :
    (o : Option (ℕ × ℕ)) (id : ℕ) (m : List (ℕ × Assoc)) → IsNew o m → IsNew o (erase_id id m)
erase-IsNew none id m h = tt
erase-IsNew (some (j, c)) id m h = ground (arith, h, lookup_id-erase_id id j m)
