-- ===== src/Acl/Tests.antt =====
-- Runs of internal/acl at concrete inputs.
use faketunnel.Base.{
  List, ◌++◌, is_some, ◌≡◌, refl, ◌⊎◌, true, false, not, ◌&&◌, ◌||◌, Option, none, some, [], ◌∷◌,
  ◌==◌, if◌then◌else◌, length, take, err, Bytes, text, text_eq,
}
use faketunnel.Base.Maps.{contains, add}
use faketunnel.Base.Spaces.{trim_space}
use faketunnel.Net.{Ip, IpNet, net_contains, to4, shortest, is_unspecified, is_nil}
use faketunnel.Acl.Parsing.{
  entry, invalid_ip, no_entries, canonicalize_net, allow, any_net, parse_cidr, parse_all, replace,
  new_list,
}
use faketunnel.Acl.Store.{
  Store, normalize_key, keys_of, added, dropped, remaining, persist_locked, commit, replace_all,
  add_entries, remove_entries,
}
use faketunnel.Acl.Validity.{
  Change, replacing, adding_to, changes, attempt, any_entry, allow-changes,
}
use faketunnel.Acl.Keys.{has_key}
use faketunnel.Acl.Keys.Changes.{add_entries-has_key, remove_entries-has_key}
use faketunnel.Acl.Atomicity.{refused_change_keeps, is_save_failed}
use faketunnel.Acl.Files.{Disk, Calls, save_file, save_file_replaces}

-- stand-ins: four bytes are the text of an address, and anything after them makes a /24
abbrev as_text : Ip → Bytes
as_text ip = ip

abbrev as_ip : Bytes → Option Ip
as_ip t = if length t == 4 then some t else none

abbrev as_net : Bytes → Option IpNet
as_net t = some (record { address = take 4 t; ones = 24; bits = 32 })

abbrev home : Bytes
home = text "abcd"

abbrev office : Bytes
office = text "efg0/24"

abbrev store : Store
store = record {
  allowed = record {
    entries = home ∷ [];
    nets = record { address = home; ones = 32; bits = 32 } ∷ [];
  };
  path = text "allowlist.json";
  hooks = 1;
  notices = 0;
  file = none;
}

trimmed : trim_space (text " \t abcd\r\n") ≡ home
unfolding trim_space
trimmed = refl

wide_space : trim_space (226 ∷ 128 ∷ 169 ∷ 65 ∷ 194 ∷ 160 ∷ []) ≡ 65 ∷ []
unfolding trim_space
wide_space = refl

mapped_net :
    canonicalize_net (record {
      address = 0 ∷ 0 ∷ 0 ∷ 0 ∷ 0 ∷ 0 ∷ 0 ∷ 0 ∷ 0 ∷ 0 ∷ 255 ∷ 255 ∷ 10 ∷ 0 ∷ 0 ∷ 0 ∷ [];
      ones = 104;
      bits = 128;
    })
    ≡ record { address = 10 ∷ 0 ∷ 0 ∷ 0 ∷ []; ones = 8; bits = 32 }
unfolding canonicalize_net to4 text_eq
mapped_net = refl

new_refuses :
    new_list as_ip as_net (home ∷ text " " ∷ text "x" ∷ []) ≡ err (entry 2 (text "x") invalid_ip)
unfolding new_list replace parse_all parse_cidr trim_space to4 text_eq
new_refuses = refl

all_inside : any_entry as_ip as_net (text "efgz") (office ∷ []) ≡ true
unfolding any_entry parse_cidr trim_space net_contains canonicalize_net shortest to4 text_eq
all_inside = refl

empty_denies : allow home no_entries ≡ false
unfolding allow is_unspecified any_net shortest to4 text_eq
empty_denies = refl

allow-changes_example :
    allow
      (text "efgz")
      (changes as_text as_ip as_net (adding_to (office ∷ []) true ∷ []) store).allowed
    ≡ (not (is_nil (text "efgz") || is_unspecified (text "efgz"))
        && any_entry as_ip as_net
            (shortest (text "efgz"))
            (changes as_text as_ip as_net
              (adding_to (office ∷ []) true ∷ [])
              store).allowed.entries)
allow-changes_example =
    allow-changes as_text as_ip as_net (text "efgz") (adding_to (office ∷ []) true ∷ []) store
      (unfold parse_all parse_cidr trim_space to4 text_eq in refl)

office_key : has_key as_text as_ip as_net (text "efg0/24") (text "efg0/x" ∷ []) ≡ true
unfolding has_key normalize_key parse_cidr trim_space canonicalize_net to4 text_eq
office_key = refl

add_entries-has_key_example :
    has_key as_text as_ip as_net
      (text "efg0/24")
      (add_entries as_text as_ip as_net (office ∷ home ∷ []) true store).0.allowed.entries
    ≡ (has_key as_text as_ip as_net (text "efg0/24") (home ∷ [])
        || has_key as_text as_ip as_net (text "efg0/24") (office ∷ home ∷ []))
add_entries-has_key_example =
    add_entries-has_key as_text as_ip as_net (text "efg0/24") (office ∷ home ∷ []) true store (
      unfold add_entries keys_of added normalize_key commit replace persist_locked parse_all
        parse_cidr trim_space canonicalize_net to4 text_eq contains add in
      refl)

remove_entries-has_key_example :
    has_key as_text as_ip as_net
      (text "abcd/32")
      (remove_entries as_text as_ip as_net (home ∷ []) true store).0.allowed.entries
    ≡ (has_key as_text as_ip as_net (text "abcd/32") (home ∷ [])
        && not (has_key as_text as_ip as_net (text "abcd/32") (home ∷ [])))
remove_entries-has_key_example =
    remove_entries-has_key as_text as_ip as_net (text "abcd/32") (home ∷ []) true store (
      unfold remove_entries dropped remaining normalize_key commit replace persist_locked parse_all
        parse_cidr trim_space canonicalize_net to4 text_eq contains in
      refl)

abbrev bad : Change
bad = replacing (text "x" ∷ []) true

refused_change_keeps_example :
    ((attempt as_text as_ip as_net bad store).0.notices ≡ 0)
    × ((attempt as_text as_ip as_net bad store).0.file ≡ none)
    × ((is_save_failed (entry 0 (text "x") invalid_ip) ≡ true)
        ⊎ ((attempt as_text as_ip as_net bad store).0 ≡ store))
refused_change_keeps_example =
    refused_change_keeps as_text as_ip as_net bad store (entry 0 (text "x") invalid_ip)
      (unfold replace_all commit replace parse_all parse_cidr trim_space to4 text_eq in refl)

-- the rename fails
abbrev calls : Calls
calls = record {
  mkdir = true;
  create = true;
  write = true;
  sync = true;
  close = true;
  rename = false;
  remove = true;
}

abbrev folder : Disk
folder = record { target = some (text "old"); temp = none }

abbrev marshal : List Bytes → Option Bytes
marshal cidrs = some (text "{}")

save_file_replaces_example :
    let after = save_file marshal (text "a.json") [] calls [] folder in
    ((after.0.temp ≡ none) ⊎ ((calls.remove ≡ false) × (is_some after.1 ≡ true)))
    × ((is_some after.1 ≡ true) × (after.0.target ≡ some (text "old"))
        ⊎ ((body : Bytes) × (marshal [] ≡ some body)
            × (after.1 ≡ none)
            × (after.0.target ≡ some (body ++ 10 ∷ []))))
save_file_replaces_example = save_file_replaces marshal (text "a.json") [] calls [] folder refl
