-- ===== src/Acl/Files.antt =====
-- internal/acl/file.go and internal/acl/bootstrap.go: the allowlist's file, and the list that Edge
-- starts with. `read_object` and `read_array` are json.Unmarshal into {"cidrs":[...]} and into an
-- array, `marshal` is json.MarshalIndent.
use faketunnel.Base.{
  ◌≡◌, ◌⊎◌, inl, inr, Bool, true, false, not, ◌&&◌, ◌||◌, Option, none, some, List, [], ◌∷◌, ◌++◌,
  arith, ◌==◌, if◌then◌else◌, Bool-cases, Option-cases, is_some, length, Result, ok, err, ◌>>=◌,
  Result-cases, Bytes, text,
}
use faketunnel.Base.Spaces.{trim_space}
use faketunnel.Base.Scan.{has_prefix}
use faketunnel.Config.File.{is_empty}
use faketunnel.Net.{Ip, IpNet}
use faketunnel.Acl.Parsing as Parsing
use faketunnel.Acl.Parsing.{AllowList, new_list}

pub data Error : Type 0 where
  unreadable empty_document bad_json empty_path not_marshalled stat_failed : Error
  no_directory no_temp not_written not_synced not_closed not_renamed : Error
  invalid : Parsing.Error → Error

module _ (read_object : Bytes → Option (List Bytes))
    (read_array : Bytes → Option (List Bytes)) where
  abbrev or_bad : Option (List Bytes) → Result Error (List Bytes)
  or_bad none = err bad_json
  or_bad (some cidrs) = ok cidrs

  unfoldable pub parse_json : Bytes → Result Error (List Bytes)
  parse_json raw =
      let data_ = trim_space raw in
      if is_empty data_
      then err empty_document
      else or_bad (if has_prefix data_ (91 ∷ []) then read_array data_ else read_object data_)

abbrev pub listed : Result Parsing.Error AllowList → Result Error AllowList
listed (ok l) = ok l
listed (err why) = err (invalid why)

-- The directory of the file: what stands under its own name, and under the temporary one.
pub record Disk : Type 0 where
  pub target : Option Bytes
  pub temp : Option Bytes

-- which of the calls of SaveFile succeed
pub record Calls : Type 0 where
  pub mkdir : Bool
  pub create : Bool
  pub write : Bool
  pub sync : Bool
  pub close : Bool
  pub rename : Bool
  -- of the temporary file
  pub remove : Bool

-- the deferred removal of the temporary file, whose error is ignored
abbrev cleanup : Calls → Error → Disk → Disk × Option Error
cleanup calls why d = (if calls.remove then record d { temp = none } else d, some why)

-- from CreateTemp on; `partial` is what a write that fails leaves in the temporary file
abbrev replace_file : Calls → Bytes → Bytes → Disk → Disk × Option Error
replace_file calls partial body d =
    let written = record d { temp = some body } in
    if not calls.write
    then cleanup calls not_written (record d { temp = some partial })
    else if not calls.sync
    then cleanup calls not_synced written
    else if not calls.close
    then cleanup calls not_closed written
    else if not calls.rename
    then cleanup calls not_renamed written
    else (record { target = written.temp; temp = none }, none)

unfoldable pub save_file :
    (List Bytes → Option Bytes) → Bytes → List Bytes → Calls → Bytes → Disk → Disk × Option Error
save_file marshal path cidrs calls partial d =
    if is_empty path then (d, some empty_path) else elim (marshal cidrs) [
      | none ↦ (d, some not_marshalled)
      | some body ↦
          if not calls.mkdir
          then (d, some no_directory)
          else if not calls.create
          then (d, some no_temp)
          else replace_file calls partial (body ++ 10 ∷ []) d
    ]

abbrev all_calls : Calls → Bool
all_calls calls =
    calls.mkdir && (calls.create && (calls.write && (calls.sync && (calls.close && calls.rename))))

-- Whichever system calls of SaveFile fail, it either fails with the target as it was, or
-- succeeds with the whole new text in the target; if there was no temporary file before, there
-- is none afterwards, or SaveFile failed and the removal of the temporary file failed too.
pub save_file_replaces :
    (marshal : List Bytes → Option Bytes) (path : Bytes) (cidrs : List Bytes) (calls : Calls)
    (partial : Bytes) (d : Disk)
    → d.temp ≡ none
    → let after = save_file marshal path cidrs calls partial d in
      ((after.0.temp ≡ none) ⊎ ((calls.remove ≡ false) × (is_some after.1 ≡ true)))
      × ((is_some after.1 ≡ true) × (after.0.target ≡ d.target)
          ⊎ ((body : Bytes) × (marshal cidrs ≡ some body)
              × (after.1 ≡ none)
              × (after.0.target ≡ some (body ++ 10 ∷ []))))
unfolding save_file
save_file_replaces marshal path cidrs calls partial d clean = elim (Option-cases (marshal cidrs)) [
  | inl e ↦ ground (arith, clean, e)
  | inr p ↦
      let (body, e) = p in
      elim (Bool-cases (is_empty path || not (all_calls calls))) [
        | inl f ↦ (
          ground (arith, clean, e, f),
          inl (ground (arith, clean, e, f), ground (arith, clean, e, f)),
        )
        | inr f ↦ (ground (arith, e, f), inr (body, e, ground (arith, e, f), ground (arith, e, f)))
      ]
]

-- os.Stat of the path
pub data Stat : Type 0 where
  exists missing failed : Stat

abbrev loopback_only : List Bytes
loopback_only = text "127.0.0.1/32" ∷ text "::1/128" ∷ []

module _ (parse_ip : Bytes → Option Ip) (parse_net : Bytes → Option IpNet)
    (read_object : Bytes → Option (List Bytes)) (read_array : Bytes → Option (List Bytes)) where
  -- `file` is what os.ReadFile gives, `none` for an error
  unfoldable pub load_file : Option Bytes → Result Error AllowList
  load_file none = err unreadable
  load_file (some raw) =
      parse_json read_object read_array raw
      >>= (λ cidrs. listed (new_list parse_ip parse_net cidrs))

  abbrev defaulted : Bytes → List Bytes → List Bytes
  defaulted path entries =
      if length entries == 0 && not (is_empty path) then loopback_only else entries

  -- the list, and the entries that are saved to the file, which the caller does not depend on
  abbrev from_entries : Bytes → List Bytes → Result Error (AllowList × Option (List Bytes))
  from_entries path entries =
      listed (new_list parse_ip parse_net (defaulted path entries))
      >>= (λ l. ok (l, if is_empty path then none else some (defaulted path entries)))

  unfoldable pub from_config :
      Bytes → Stat → Option Bytes → List Bytes → Result Error (AllowList × Option (List Bytes))
  from_config path stat file entries =
      let fresh = from_entries path entries in
      if is_empty path then fresh else elim stat [
        | exists ↦ load_file file >>= (λ l. ok (l, none))
        | missing ↦ fresh
        | failed ↦ err stat_failed
      ]

  -- A start that writes the file and the next one, which reads it, have the same list, if JSON text
  -- of an object reads back as what it was made of.
  pub from_config_restarts :
      (path body : Bytes) (before : Option Bytes) (yaml more entries : List Bytes) (l : AllowList)
      → from_config path missing before yaml ≡ ok (l, some entries)
      → trim_space (body ++ 10 ∷ []) ≡ body
      → is_empty body ≡ false
      → has_prefix body (91 ∷ []) ≡ false
      → read_object body ≡ some entries
      → from_config path exists (some (body ++ 10 ∷ [])) more ≡ ok (l, none)
  unfolding from_config load_file parse_json
  from_config_restarts path body before yaml more entries l h trimmed full object reads =
      let start = defaulted path yaml in
      elim (Result-cases (new_list parse_ip parse_net start)) [
        | inr p ↦ let (why, e) = p in absurd (ground (arith, h, e))
        | inl p ↦
            let (made, e) = p in
            elim (Bool-cases (is_empty path)) [
              | inl f ↦ absurd (ground (arith, h, e, f))
              | inr f ↦
                  let (same, list) : (start ≡ entries) × (made ≡ l) =
                    (ground (arith, h, e, f), ground (arith, h, e, f)) in
                  let again : new_list parse_ip parse_net entries ≡ ok l = rw (← same, ← list) e in
                  ground (arith, f, trimmed, full, object, reads, again)
            ]
      ]
