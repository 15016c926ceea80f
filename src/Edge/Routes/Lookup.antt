-- ===== src/Edge/Routes/Lookup.antt =====
-- internal/edge/http.go: lookupHTTPTunnel finds what the groups say.
use mathlib.Core.Path.{subst}
use faketunnel.Base.Maps.{AllValues, lookup-AllValues}
use faketunnel.Base.{
  ◌≡◌, refl, inl, inr, true, false, Option, none, some, List, [], ◌∷◌, arith, Bool-cases,
  Option-cases, is_some, Bytes, text_eq, text_eq_iff, text_eq_refl,
}
use faketunnel.Base.Maps.{lookup, insert, lookup-insert}
use faketunnel.Config.File.{Tunnel, is_empty, find_tunnel}
use faketunnel.Edge.Routes.{fill_names, host_names}

-- the tunnel of an entry, or its name
abbrev pub name_at : Option Tunnel → Option Bytes
name_at none = none
name_at (some t) = some t.name

pub host_names_by_host :
    (ths : List (Bytes × Tunnel)) (key : Bytes)
    → is_empty key ≡ false
    → lookup key (host_names ths).0 ≡ name_at (lookup key ths)
unfolding host_names lookup
host_names_by_host [] key h = refl
host_names_by_host ((host, t) ∷ rest) key h =
    ground (arith, h, host_names_by_host rest key h, text_eq_iff host key)

abbrev pub name_or_none : Option Tunnel → Bytes
name_or_none none = []
name_or_none (some t) = t.name

pub host_names_empty :
    (ths : List (Bytes × Tunnel)) → (host_names ths).1 ≡ name_or_none (lookup [] ths)
unfolding host_names lookup text_eq
host_names_empty [] = refl
host_names_empty (([], t) ∷ rest) = refl
host_names_empty ((b ∷ host, t) ∷ rest) = ground (arith, host_names_empty rest)

-- a tunnel that is found by its name, which is not empty
abbrev pub IsNamed : List Tunnel → Tunnel → Type 0
IsNamed ts t = (find_tunnel t.name ts ≡ some t) × (is_empty t.name ≡ false)

module _ (ts : List Tunnel) where
  abbrev Known : List (Bytes × Tunnel) → Type 0
  Known names = (n : Bytes) (u : Tunnel) → lookup n names ≡ some u → find_tunnel n ts ≡ some u

  insert-Known :
      (names : List (Bytes × Tunnel)) (t : Tunnel)
      → Known names
      → IsNamed ts t
      → Known (insert t.name t names)
  insert-Known names t known h n u found = elim (Bool-cases (text_eq t.name n)) [
    | inl e ↦
        let same = (text_eq_iff t.name n).0 e in
        let here : find_tunnel n ts ≡ some t = subst (λ m. find_tunnel m ts ≡ some t) same h.0 in
        ground (arith, e, found, lookup-insert t.name n t names, here)
    | inr e ↦ known n u (ground (arith, e, found, lookup-insert t.name n t names))
  ]

  fill_names-Known :
      (names ths : List (Bytes × Tunnel))
      → Known names
      → AllValues (IsNamed ts) ths
      → Known (fill_names names ths)
  unfolding fill_names
  fill_names-Known names [] known h = known
  fill_names-Known names ((host, t) ∷ rest) known h =
      fill_names-Known (insert t.name t names) rest (insert-Known names t known h.0) h.1

  fill_names_keeps :
      (names ths : List (Bytes × Tunnel)) (n : Bytes)
      → is_some (lookup n names) ≡ true
      → is_some (lookup n (fill_names names ths)) ≡ true
  unfolding fill_names
  fill_names_keeps names [] n h = h
  fill_names_keeps names ((host, t) ∷ rest) n h =
      fill_names_keeps (insert t.name t names) rest n
        (ground (arith, h, lookup-insert t.name n t names))

  fill_names_has :
      (names ths : List (Bytes × Tunnel)) (key : Bytes) (t : Tunnel)
      → lookup key ths ≡ some t
      → is_some (lookup t.name (fill_names names ths)) ≡ true
  unfolding fill_names lookup
  fill_names_has names [] key t h = absurd (ground (arith, h))
  fill_names_has names ((host, u) ∷ rest) key t h = elim (Bool-cases (text_eq host key)) [
    | inl e ↦
        let here : u ≡ t = ground (arith, h, e) in
        subst (λ x. is_some (lookup x.name (fill_names (insert u.name u names) rest)) ≡ true) here
          (fill_names_keeps (insert u.name u names) rest u.name
            (ground (arith, lookup-insert u.name u.name u names, text_eq_refl u.name)))
    | inr e ↦ fill_names_has (insert u.name u names) rest key t (ground (arith, h, e))
  ]

  pub by_name_lem :
      (ths : List (Bytes × Tunnel)) (key : Bytes) (t : Tunnel)
      → AllValues (IsNamed ts) ths
      → lookup key ths ≡ some t
      → lookup t.name (fill_names [] ths) ≡ some t
  by_name_lem ths key t h found = elim (Option-cases (lookup t.name (fill_names [] ths))) [
    | inl none_there ↦ absurd (ground (arith, none_there, fill_names_has [] ths key t found))
    | inr p ↦
        let (u, e) = p in
        let nothing : Known [] = λ n w z. absurd (unfold lookup in ground (arith, z)) in
        let is_u = fill_names-Known [] ths nothing h t.name u e in
        let is_t = (lookup-AllValues (IsNamed ts) key ths h found).0 in
        ground (arith, e, is_u, is_t)
  ]
