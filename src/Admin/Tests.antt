-- ===== src/Admin/Tests.antt =====
-- Runs of internal/admin at concrete inputs.
use faketunnel.Base.{
  ◌≡◌, refl, true, false, not, ◌&&◌, ◌||◌, Option, none, some, [], ◌∷◌, arith, ◌==◌, if◌then◌else◌,
  length, take, drop, Bytes, IsBytes, text, text_eq,
}
use faketunnel.Base.Spaces.{trim_space}
use faketunnel.Base.Maps.{contains, add}
use faketunnel.Base.Scan.{has_prefix}
use faketunnel.Config.File.{is_empty}
use faketunnel.Net.{Ip, IpNet, net_contains, to4, shortest}
use faketunnel.Acl.Store.{add_entries, keys_of, added, normalize_key, commit, persist_locked}
use faketunnel.Acl.Parsing.{no_entries, parse_cidr, parse_all, replace, canonicalize_net}
use faketunnel.Acl.Keys.{has_key}
use faketunnel.Ban.Store as Bans
use faketunnel.Ban.Methods.{is_covered, parse_nets, any_contains}
use faketunnel.Admin.Auth.{bearer, bearer_ok, bearer_ok_lem, subtle_equal, differences}
use faketunnel.Admin.Handlers.{
  Request, Server, Disk, Dto, entries, post, read_dto, handle_allowlist, add_listed,
}
use faketunnel.Admin.Listing.{Lifted, handle_allowlist_adds}

abbrev hdr : Bytes
hdr = text "Bearer  key "

trimmed_key : trim_space (drop (length bearer) hdr) ≡ text "key"
unfolding trim_space
trimmed_key = refl

abbrev KeyBytes : IsBytes (text "key")
KeyBytes = (omega arith, (omega arith, (omega arith, tt)))

bearer_ok_lem_example : bearer_ok hdr (text "key") ≡ (
    has_prefix hdr bearer
    && (not (is_empty (text "key"))
        && text_eq (trim_space (drop (length bearer) hdr)) (text "key")))
bearer_ok_lem_example = bearer_ok_lem hdr (text "key") (rw trimmed_key KeyBytes) KeyBytes

lets_in : bearer_ok hdr (text "key") ≡ true
unfolding bearer_ok subtle_equal differences trim_space
lets_in = refl

-- a token with a space at its end is never accepted
locks_out : bearer_ok (text "Bearer key ") (text "key ") ≡ false
unfolding bearer_ok subtle_equal differences trim_space
locks_out = refl

-- stand-ins: four bytes are the text of an address, and anything after them makes a /24
abbrev as_text : Ip → Bytes
as_text ip = ip

abbrev as_ip : Bytes → Option Ip
as_ip t = if length t == 4 then some t else none

abbrev as_net : Bytes → Option IpNet
as_net t = some (record { address = take 4 t; ones = 24; bits = 32 })

abbrev read_json : Bytes → Option Dto
read_json raw = some (record { cidrs = []; cidr = raw })

abbrev bans : Bans.Store
bans = record {
  path = [];
  ttl = 1;
  limit = 3;
  by_ip = (text "abcd", Bans.fresh) ∷ [];
  pardoned = [];
  hooks = 0;
  notices = 0;
  file = none;
}

abbrev server : Server
server = record {
  store = record { allowed = no_entries; path = []; hooks = 1; notices = 0; file = none };
  bans = some bans;
}

abbrev request : Request
request = record {
  method = post;
  query = [];
  has_body = true;
  body = some (text "abcd");
  address = none;
}

abbrev disk : Disk
disk = record { acl_writable = true; bans_writable = true }

abbrev dto : Dto
dto = record { cidrs = []; cidr = text "abcd" }

has_dto : read_dto read_json (some (text "abcd")) ≡ some dto
unfolding read_dto trim_space
has_dto = refl

listed :
    (handle_allowlist as_text as_ip as_net read_json request disk server).1
    ≡ entries (text "abcd" ∷ [])
unfolding handle_allowlist read_dto add_listed add_entries keys_of added normalize_key commit
    replace persist_locked parse_all parse_cidr trim_space canonicalize_net to4 text_eq contains add
listed = refl

handle_allowlist_adds_example :
    (has_key as_text as_ip as_net (text "abcd/32") (text "abcd" ∷ []) ≡ (
      has_key as_text as_ip as_net (text "abcd/32") []
      || has_key as_text as_ip as_net (text "abcd/32") (text "abcd" ∷ [])))
    × Lifted as_text as_ip as_net
        (text "abcd" ∷ [])
        (text "abcd")
        bans
        (handle_allowlist as_text as_ip as_net read_json request disk server).0.bans
handle_allowlist_adds_example =
    handle_allowlist_adds as_text as_ip as_net read_json request dto disk server bans
      (text "abcd" ∷ []) (text "abcd/32") (text "abcd") refl has_dto refl listed

lifted : is_covered as_ip as_net (parse_nets as_ip as_net (text "abcd" ∷ [])) (text "abcd") ≡ true
unfolding is_covered parse_nets any_contains net_contains shortest to4
lifted = refl
