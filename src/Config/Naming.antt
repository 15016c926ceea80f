-- ===== src/Config/Naming.antt =====
-- internal/config/defaults.go: the types and the names of tunnels that the file leaves out.
pub mod Fresh
use faketunnel.Base.{
  ℕ, zero, suc, ◌+◌, ◌-◌, ◌*◌, ◌/◌, ◌%◌, ◌^◌, ◌≤◌, ◌<◌, ◌≡◌, refl, sym, ap, ◌∙◌, ◌≢◌, ◌↔◌, ◌⊎◌, inl,
  inr, Bool, true, false, not, ◌&&◌, ◌||◌, Option, none, some, List, [], ◌∷◌, ◌++◌, map, append-nil,
  append_assoc, reverse, reverse-append, reverse-reverse, arith, ltb, leb, ◌==◌, if◌then◌else◌,
  ltb→lt, ltb→le, lt→ltb, le→ltb, ==_iff, Bool-cases, Option-cases, is_some, length, take, drop,
  length-append, take-append-drop, length-take, length-drop, take-length-append, drop-length-append,
  All, All-weaken, All-append, All-take, All-drop, All-append_right, All-append_left, take-length,
  take-append_front, append-take, Result, ok, err, ◌>>=◌, ◌>>◌, reject_if, >>=-eq-ok, Result-cases,
  all, pairwise, is_ok, Bytes, IsBytes, decimal, text, text_eq, text_eq_iff, text_eq_refl,
}
use faketunnel.Base.Spaces.{trim_space, trim_space_idem}
use faketunnel.Base.Maps.{lookup, insert, erase, contains, add, contains-add, lookup-insert, NoDup}
use faketunnel.Base.Integers.{ℤ, pos, negsuc, is_positive, is_negative}
use faketunnel.Base.Scan.{
  has_byte, has_prefix, cut, cut_last, split, has_byte-append, cut_lem, cut_absent, cut-eq-some,
  cut_last_absent, cut_last_lem,
}
use faketunnel.Net.HostPort.{split_host_port, join_host_port, split_host_port-join_host_port}
use faketunnel.Base.Maps.{contains}
use faketunnel.Config.File.{Tunnel, is_blank, is_empty, type_http, type_tcp}
use faketunnel.Config.Addr.{addr_port}

unfoldable pub unique_from : Bytes → List Bytes → ℕ → ℕ → Bytes
unique_from base used zero i = base ++ 45 ∷ decimal i
unique_from base used (suc fuel) i =
    let rest = unique_from base used fuel (i + 1) in
    let n = base ++ 45 ∷ decimal i in if contains n used then rest else n

-- as many rounds as names are used are enough, and one more is given
unfoldable pub unique_name : Bytes → List Bytes → Bytes
unique_name given used =
    let base = if is_empty given then text "tun" else given in
    if contains base used then unique_from base used (length used + 1) 2 else base

-- strings.Trim(s, "-")
abbrev trim_dashes_left : Bytes → Bytes
trim_dashes_left [] = []
trim_dashes_left (c ∷ s) = let rest = trim_dashes_left s in if c == 45 then rest else c ∷ s

abbrev trim_dashes : Bytes → Bytes
trim_dashes s = reverse (trim_dashes_left (reverse (trim_dashes_left s)))

unfoldable pub infer_type : (Bytes → Bytes) → Tunnel → Tunnel
infer_type to_lower t =
    let typ = to_lower (trim_space t.kind) in
    if not (is_empty typ)
    then record t { kind = typ }
    else if not (is_empty t.host) || (t.tls || (t.passthrough || t.http2))
    then record t { kind = type_http }
    else record t { kind = type_tcp }

-- `runes` are the runes that `range` reads, and `is_word` is unicode.IsLetter or unicode.IsDigit
module _ (to_lower : Bytes → Bytes) (runes : Bytes → List Bytes) (is_word : Bytes → Bool) where
  -- the builder, and whether a dash was its last byte, after one more rune
  abbrev write_rune : Bytes × Bool → Bytes → Bytes × Bool
  write_rune (b, prev_dash) r =
      if is_word r
      then (b ++ r, false)
      else if not prev_dash && not (is_empty b)
      then (b ++ 45 ∷ [], true)
      else (b, prev_dash)

  abbrev write_runes : Bytes × Bool → List Bytes → Bytes
  write_runes (b, _) [] = b
  write_runes state (r ∷ rs) = write_runes (write_rune state r) rs

  unfoldable pub sanitize_name : Bytes → Bytes
  sanitize_name raw =
      let s = to_lower (trim_space raw) in
      if is_empty s then [] else trim_dashes (write_runes ([], false) (runes s))

  abbrev dashed : Bytes → Bytes
  dashed s = if is_empty s then [] else 45 ∷ s

  unfoldable pub default_tunnel_name : Tunnel → Bytes
  default_tunnel_name t =
      let typ = if is_empty t.kind then type_tcp else t.kind in
      let public_port = addr_port t.public in
      let port = if is_empty public_port then addr_port t.local else public_port in
      typ ++ dashed port ++ dashed (sanitize_name t.host)

  -- one round of the loop of applyCommon, after the addresses
  abbrev pub name_for : List Bytes → Tunnel → Bytes
  name_for used t =
      if is_blank t.name then unique_name (default_tunnel_name t) used else trim_space t.name

  abbrev pub named : List Bytes → Tunnel → Tunnel
  named used t = if is_blank t.name then record t { name = name_for used t } else t
