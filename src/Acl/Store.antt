-- ===== src/Acl/Store.antt =====
-- internal/acl/store.go: changes of the list, each saved to the file and then announced.
-- `ip_string` is IP.String. A save is one step that happens or fails as `writable` says, since
-- SaveFile renames a temporary file. `notices` counts the rounds in which the hooks ran.
use faketunnel.Base.{
  ℕ, ◌+◌, Bool, Option, none, some, List, [], ◌∷◌, ◌++◌, ◌==◌, if◌then◌else◌, length, drop, Result,
  ok, err, ◌>>=◌, Bytes, decimal,
}
use faketunnel.Base.Maps.{contains, add}
use faketunnel.Base.Spaces.{trim_space}
use faketunnel.Net.{Ip, IpNet}
use faketunnel.Acl.Parsing.{
  Error, invalid_mask, adding, removing, save_failed, AllowList, parse_cidr, replace,
}

pub record Store : Type 0 where
  pub allowed : AllowList
  pub path : Bytes
  pub hooks : ℕ
  pub notices : ℕ
  pub file : Option (List Bytes)

unfoldable pub on_change : Store → Store
on_change s = record s { hooks = s.hooks + 1 }

abbrev pub notify : Store → Store
notify s = record s { notices = s.notices + (if s.hooks == 0 then 0 else 1) }

unfoldable pub persist_locked : Bool → Store → Store × Option Error
persist_locked writable s =
    if length s.path == 0
    then (s, none)
    else if writable
    then (record s { file = some s.allowed.entries }, none)
    else (s, some save_failed)

module _ (ip_string : Ip → Bytes) (parse_ip : Bytes → Option Ip)
    (parse_net : Bytes → Option IpNet) where
  abbrev net_key : IpNet → Result Error Bytes
  net_key n =
      if n.bits == 0 then err invalid_mask else ok (ip_string n.address ++ 47 ∷ decimal n.ones)

  unfoldable pub normalize_key : Bytes → Result Error Bytes
  normalize_key s = parse_cidr parse_ip parse_net s >>= net_key

  -- the keys that are seen, or the first error
  unfoldable pub keys_of : List Bytes → Result Error (List Bytes)
  keys_of [] = ok []
  keys_of (e ∷ es) = do key ← normalize_key e; keys ← keys_of es; ok (add key keys)

  abbrev cons_ok : Bytes → List Bytes → Result Error (List Bytes)
  cons_ok x xs = ok (x ∷ xs)

  -- what Add appends to the entries
  unfoldable pub added : List Bytes → List Bytes → Result Error (List Bytes)
  added seen [] = ok []
  added seen (raw ∷ raws) =
      let s = trim_space raw in
      let skipped = added seen raws in
      if length s == 0 then skipped else elim (normalize_key s) [
        | err e ↦ err (adding s e)
        | ok key ↦
            let rest = added (add key seen) raws in
            if contains key seen then skipped else rest >>= cons_ok s
      ]

  -- the keys that Remove drops
  unfoldable pub dropped : List Bytes → Result Error (List Bytes)
  dropped [] = ok []
  dropped (raw ∷ raws) =
      let s = trim_space raw in
      let rest = dropped raws in
      if length s == 0
      then rest
      else elim (normalize_key s) [ err e ↦ err (removing s e) | ok key ↦ rest >>= cons_ok key ]

  -- the entries that Remove keeps
  unfoldable pub remaining : List Bytes → List Bytes → Result Error (List Bytes)
  remaining drop [] = ok []
  remaining drop (e ∷ es) =
      let rest = remaining drop es in
      elim (normalize_key e) [
        | err why ↦ err why
        | ok key ↦ if contains key drop then rest else rest >>= cons_ok e
      ]

  abbrev pub saved : Store × Option Error → Store × Option Error
  saved (s, some e) = (s, some e)
  saved (s, none) = (notify s, none)

  -- the common end of Replace, Add and Remove
  unfoldable pub commit : List Bytes → Bool → Store → Store × Option Error
  commit cidrs writable s =
      let (l, failure) = replace parse_ip parse_net cidrs s.allowed in
      elim failure [
        | some e ↦ (s, some e)
        | none ↦ saved (persist_locked writable (record s { allowed = l }))
      ]

  unfoldable pub replace_all : List Bytes → Bool → Store → Store × Option Error
  unfolding commit
  replace_all cidrs writable s = commit cidrs writable s

  abbrev pub additions : List Bytes → Store → Result Error (List Bytes)
  additions cidrs s = keys_of s.allowed.entries >>= λ seen. added seen cidrs

  unfoldable pub add_entries : List Bytes → Bool → Store → Store × Option Error
  add_entries cidrs writable s = elim (additions cidrs s) [
    | err e ↦ (s, some e)
    | ok more ↦
        if length more == 0 then (s, none) else commit (s.allowed.entries ++ more) writable s
  ]

  abbrev pub drop_entries : List Bytes → Bool → Store → Store × Option Error
  drop_entries drop writable s = elim (remaining drop s.allowed.entries) [
    | err e ↦ (s, some e)
    | ok rest ↦
        if length rest == length s.allowed.entries then (s, none) else commit rest writable s
  ]

  unfoldable pub remove_entries : List Bytes → Bool → Store → Store × Option Error
  remove_entries cidrs writable s = elim (dropped cidrs) [
    | err e ↦ (s, some e)
    | ok drop ↦ if length drop == 0 then (s, none) else drop_entries drop writable s
  ]
