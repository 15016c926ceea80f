-- ===== src/Config/Defaults/Names.antt =====
-- internal/config/defaults.go: the names that applyCommon gives are distinct.
use faketunnel.Base.{◌≡◌, refl, ap, ◌∙◌, Bool, true, ◌&&◌, List, [], ◌∷◌, map, arith, all, Bytes}
use faketunnel.Base.Maps.{add}
use faketunnel.Config.File.{Tunnel, is_blank}
use faketunnel.Config.Naming.{infer_type, name_for, named, default_tunnel_name}
use faketunnel.Config.Naming.Fresh.{unique_name_unused}
use faketunnel.Config.Defaults.{prepared, fill_tunnels}
use faketunnel.Config.Validate.Spec.{name_of, distinct, absent_from}
use faketunnel.Config.Validate.Loops.{absent-contains}

abbrev pub is_unnamed : Tunnel → Bool
is_unnamed t = is_blank t.name

module _ (to_lower : Bytes → Bytes) (runes : Bytes → List Bytes) (is_word : Bytes → Bool) where
  prepared_name : (t : Tunnel) → (prepared to_lower runes is_word t).name ≡ t.name
  unfolding infer_type
  prepared_name t = ground arith

  named_fresh :
      (used : List Bytes) (t : Tunnel)
      → is_unnamed t ≡ true
      → (name_of (named to_lower runes is_word used t) ≡ name_for to_lower runes is_word used t)
        × (absent_from used (name_for to_lower runes is_word used t) ≡ true)
  named_fresh used t h =
      ground (arith, h, unique_name_unused (default_tunnel_name to_lower runes is_word t) used)

  fill_tunnels-distinct :
      (used : List Bytes) (ts : List Tunnel)
      → all is_unnamed ts ≡ true
      → (distinct (map name_of (fill_tunnels to_lower runes is_word used ts))
          && all (absent_from used) (map name_of (fill_tunnels to_lower runes is_word used ts)))
        ≡ true
  unfolding fill_tunnels distinct
  fill_tunnels-distinct used [] h = refl
  fill_tunnels-distinct used (t ∷ ts) h =
      let u = prepared to_lower runes is_word t in
      let n = name_for to_lower runes is_word used u in
      let rest = fill_tunnels-distinct (add n used) ts (ground (arith, h)) in
      let split =
        absent-contains n (map name_of (fill_tunnels to_lower runes is_word (add n used) ts))
          used in
      let fresh = named_fresh used u (ap is_blank (prepared_name t) ∙ ground (arith, h)) in
      ground (arith, rest, split, fresh)

  -- The tunnels of a file that names none of them get names of their own.
  pub fill_tunnels_named_apart :
      (ts : List Tunnel)
      → all is_unnamed ts ≡ true
      → distinct (map name_of (fill_tunnels to_lower runes is_word [] ts)) ≡ true
  fill_tunnels_named_apart ts h = ground (arith, fill_tunnels-distinct [] ts h)
