-- ===== src/Admin/Handlers.antt =====
-- internal/admin/server.go: the handlers, over the stores they change. `read_json` is json.Unmarshal
-- of the body's type, `ip_string` is IP.String and `address` is IPFromAddr of the request's remote
-- address, `none` for nil.
use faketunnel.Base.{
  ℕ, Bool, true, false, Option, none, some, List, [], ◌∷◌, ◌++◌, ◌==◌, if◌then◌else◌, length, Bytes,
  text,
}
use faketunnel.Base.Spaces.{trim_space}
use faketunnel.Config.File.{is_empty, is_blank}
use faketunnel.Net.{Ip, IpNet, to4}
use faketunnel.Acl.Parsing.{AllowList}
use faketunnel.Acl.Store as Acl
use faketunnel.Acl.Store.{replace_all, add_entries, remove_entries}
use faketunnel.Acl.Parsing as Parsing
use faketunnel.Ban.Store as Bans
use faketunnel.Ban.Methods.{Entry, list, unban, unban_cidrs}

pub data Method : Type 0 where
  get put post delete other : Method

pub record Dto : Type 0 where
  pub cidrs : List Bytes
  pub cidr : Bytes

-- The parts of a request that the handlers read. `data` is what io.ReadAll gives, `none` for an
-- error, and `query` the values of `cidr` or `ip`.
pub record Request : Type 0 where
  pub method : Method
  pub query : List Bytes
  pub has_body : Bool
  pub body : Option Bytes
  pub address : Option Ip

pub data Reply : Type 0 where
  entries : List Bytes → Reply
  bans : List Entry → Reply
  bad_request not_allowed not_implemented : Reply

pub record Server : Type 0 where
  pub store : Acl.Store
  pub bans : Option Bans.Store

-- what a save of the allowlist and a save of the denylist come to
pub record Disk : Type 0 where
  pub acl_writable : Bool
  pub bans_writable : Bool

unfoldable pub read_dto : (Bytes → Option Dto) → Option Bytes → Option Dto
read_dto read_json none = none
read_dto read_json (some raw) = if is_blank raw then none else read_json raw

abbrev with_one : List Bytes → Bytes → List Bytes
with_one xs x = if is_empty x then xs else xs ++ x ∷ []

-- `cidr` and `cidrs` together
abbrev pub all_cidrs : Dto → List Bytes
all_cidrs dto = with_one dto.cidrs dto.cidr

abbrev is_none_of : List Bytes → Bool
is_none_of xs = length xs == 0

-- the network of one address
abbrev pub self_cidr : (Ip → Bytes) → Ip → Bytes
self_cidr ip_string ip = elim (to4 ip) [
  | some _ ↦ ip_string ip ++ text "/32"
  | none ↦ ip_string ip ++ text "/128"
]

module _ (ip_string : Ip → Bytes) (parse_ip : Bytes → Option Ip)
    (parse_net : Bytes → Option IpNet) where
  unfoldable pub unban_listed : List Bytes → Disk → Server → Server
  unban_listed cidrs disk s = elim (s.bans) [
    | none ↦ s
    | some b ↦ record s { bans = some (unban_cidrs parse_ip parse_net cidrs disk.bans_writable b) }
  ]

  -- after a change of the list: an error, or the bans of the listed addresses go
  abbrev pub changed :
      List Bytes → Disk → Server → Acl.Store × Option Parsing.Error → Server × Reply
  changed cidrs disk s (store, some e) = (record s { store = store }, bad_request)
  changed cidrs disk s (store, none) =
      (unban_listed cidrs disk (record s { store = store }), entries store.allowed.entries)

  abbrev removed : Server → Acl.Store × Option Parsing.Error → Server × Reply
  removed s (store, some e) = (record s { store = store }, bad_request)
  removed s (store, none) = (record s { store = store }, entries store.allowed.entries)

  unfoldable pub add_listed : List Bytes → Disk → Server → Server × Reply
  add_listed cidrs disk s =
      if is_none_of cidrs
      then (s, bad_request)
      else changed cidrs disk s
          (add_entries ip_string parse_ip parse_net cidrs disk.acl_writable s.store)

  unfoldable pub remove_listed : List Bytes → Disk → Server → Server × Reply
  remove_listed cidrs disk s =
      if is_none_of cidrs
      then (s, bad_request)
      else removed s (remove_entries ip_string parse_ip parse_net cidrs disk.acl_writable s.store)

  module _ (read_json : Bytes → Option Dto) where
    -- the body of a DELETE adds to the query, and its errors count only where the query is empty
    abbrev pub delete_cidrs : Request → Option (List Bytes)
    delete_cidrs r =
        if r.has_body
        then elim (read_dto read_json r.body) [
          | some dto ↦ some (r.query ++ all_cidrs dto)
          | none ↦ if is_none_of r.query then none else some r.query
        ]
        else some r.query

    unfoldable pub handle_allowlist : Request → Disk → Server → Server × Reply
    handle_allowlist r disk s = elim (r.method) [
      | get ↦ (s, entries s.store.allowed.entries)
      | put ↦ elim (read_dto read_json r.body) [
        | none ↦ (s, bad_request)
        | some dto ↦
            changed dto.cidrs disk s
              (replace_all ip_string parse_ip parse_net dto.cidrs disk.acl_writable s.store)
      ]
      | post ↦ elim (read_dto read_json r.body) [
        | none ↦ (s, bad_request)
        | some dto ↦ add_listed (all_cidrs dto) disk s
      ]
      | delete ↦ elim (delete_cidrs r) [
        | none ↦ (s, bad_request)
        | some cidrs ↦ remove_listed cidrs disk s
      ]
      | other ↦ (s, not_allowed)
    ]

  unfoldable pub handle_allow_self : Request → Disk → Server → Server × Reply
  handle_allow_self r disk s = elim (r.method) [
    | post ↦ elim (r.address) [
      | none ↦ (s, bad_request)
      | some ip ↦ add_listed (self_cidr ip_string ip ∷ []) disk s
    ]
    | get ↦ (s, not_allowed)
    | put ↦ (s, not_allowed)
    | delete ↦ (s, not_allowed)
    | other ↦ (s, not_allowed)
  ]

  -- the loop over the addresses stops at the first that does not parse or has no key
  unfoldable pub unban_all : List Bytes → Disk → Bans.Store → Bans.Store × Bool
  unban_all [] disk b = (b, true)
  unban_all (raw ∷ raws) disk b = elim (parse_ip (trim_space raw)) [
    | none ↦ (b, false)
    | some ip ↦
        let (after, done) = unban ip_string ip disk.bans_writable b in
        let rest = unban_all raws disk after in if done then rest else (after, false)
  ]

  module _ (read_ips : Bytes → Option (List Bytes × Bytes)) where
    -- a body that cannot be read or is blank counts for nothing, one that is no JSON is an error
    abbrev pub delete_ips : Request → Option (List Bytes)
    delete_ips r =
        if r.has_body
        then elim (r.body) [
          | none ↦ some r.query
          | some raw ↦ if is_blank raw then some r.query else elim (read_ips raw) [
            | none ↦ none
            | some (ips, ip) ↦ some (r.query ++ with_one ips ip)
          ]
        ]
        else some r.query

    abbrev pub unbanned : ℕ → Server → Bans.Store × Bool → Server × Reply
    unbanned now s (b, true) = (record s { bans = some b }, bans (list now b))
    unbanned now s (b, false) = (record s { bans = some b }, bad_request)

    abbrev delete_bans : Request → Disk → ℕ → Server → Bans.Store → Server × Reply
    delete_bans r disk now s b = elim (delete_ips r) [
      | none ↦ (s, bad_request)
      | some ips ↦
          if is_none_of ips then (s, bad_request) else unbanned now s (unban_all ips disk b)
    ]

    unfoldable pub handle_denylist : Request → Disk → ℕ → Server → Server × Reply
    handle_denylist r disk now s = elim (s.bans) [
      | none ↦ (s, not_implemented)
      | some b ↦ elim (r.method) [
        | get ↦ (s, bans (list now b))
        | delete ↦ delete_bans r disk now s b
        | put ↦ (s, not_allowed)
        | post ↦ (s, not_allowed)
        | other ↦ (s, not_allowed)
      ]
    ]
