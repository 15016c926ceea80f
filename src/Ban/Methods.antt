-- ===== src/Ban/Methods.antt =====
-- internal/ban/store.go: the exported methods, by address, and loading and listing. Every Store
-- of the program is made by New, so the nil receiver is left out.
use faketunnel.Base.{
  ℕ, ◌+◌, Bool, false, ◌&&◌, ◌||◌, Option, none, some, List, [], ◌∷◌, ◌++◌, ◌==◌, if◌then◌else◌,
  length, Bytes,
}
use faketunnel.Base.Maps.{insert, contains, add}
use faketunnel.Net.{Ip, is_nil, is_unspecified, to4, shortest, IpNet, net_contains}
use faketunnel.Ban.Store.{
  invalid_limit, temp_duration, Kind, clear, temporary, permanent, Record, FileDto, Store, running,
  blocked_locked, kind_locked, persist_locked, observe_invalid_locked, ban_permanent_locked,
  observe_valid_locked, unban_locked,
}

-- One row of List; the time is shown as text by the source.
pub record Entry : Type 0 where
  pub ip : Bytes
  pub kind : Kind
  pub until : Option ℕ
  pub bans : ℕ
  pub consecutive : ℕ

abbrev row : Bytes → Record → Kind → Option ℕ → Entry
row ip r k u = record { ip = ip; kind = k; until = u; bans = r.bans; consecutive = r.consecutive }

entry_of : ℕ → Bytes → Record → List Entry
entry_of now ip r =
    if r.permanent
    then row ip r permanent none ∷ []
    else if running now r.until
    then row ip r temporary r.until ∷ []
    else if r.bans == 0 && r.consecutive == 0
    then []
    else row ip r clear none ∷ []

unfoldable pub entries_of : ℕ → List (Bytes × Record) → List Entry
unfolding entry_of
entries_of now [] = []
entries_of now ((ip, r) ∷ m) = entry_of now ip r ++ entries_of now m

unfoldable pub list : ℕ → Store → List Entry
unfolding entries_of
list now s = entries_of now s.by_ip

-- what one record adds to the totals of temporary and permanent bans
abbrev count_record : ℕ → Record → ℕ × ℕ → ℕ × ℕ
count_record now r (temp, perm) =
    if r.permanent
    then (temp, perm + 1)
    else if running now r.until
    then (temp + 1, perm)
    else (temp, perm)

unfoldable pub count_from : ℕ → List (Bytes × Record) → ℕ × ℕ → ℕ × ℕ
count_from now [] total = total
count_from now ((ip, r) ∷ m) total = count_from now m (count_record now r total)

unfoldable pub counts : ℕ → Store → ℕ × ℕ
unfolding count_from
counts now s = count_from now s.by_ip (0, 0)

-- `ip_string` is IP.String, `parse_ip` is net.ParseIP and `parse_cidr` net.ParseCIDR.
module _ (ip_string : Ip → Bytes) where
  unfoldable pub ip_key : Ip → Bytes
  ip_key ip = if is_nil ip || is_unspecified ip then [] else ip_string (shortest ip)

  unfoldable pub is_pardoned : Ip → Store → Bool
  is_pardoned ip s =
      let key = ip_key ip in if length key == 0 then false else contains key s.pardoned

  unfoldable pub blocked : Ip → ℕ → Store → Bool
  blocked ip now s =
      let key = ip_key ip in if length key == 0 then false else blocked_locked s key now

  unfoldable pub kind : Ip → ℕ → Store → Kind
  kind ip now s = let key = ip_key ip in if length key == 0 then clear else kind_locked s key now

  unfoldable pub observe_invalid : Ip → Bytes → ℕ → Bool → Store → Store
  observe_invalid ip reason now writable s =
      let key = ip_key ip in
      if length key == 0 then s else observe_invalid_locked key reason now writable s

  unfoldable pub ban_permanent : Ip → Bool → Store → Store
  ban_permanent ip writable s =
      let key = ip_key ip in if length key == 0 then s else ban_permanent_locked key writable s

  unfoldable pub observe_valid : Ip → Store → Store
  observe_valid ip s =
      let key = ip_key ip in if length key == 0 then s else observe_valid_locked key s

  -- the flag is false where Unban returns an error
  unfoldable pub unban : Ip → Bool → Store → Store × Bool
  unban ip writable s =
      let key = ip_key ip in if length key == 0 then (s, false) else unban_locked key writable s

module _ (parse_ip : Bytes → Option Ip) (parse_cidr : Bytes → Option IpNet) where
  abbrev host_net : Ip → IpNet
  host_net ip = elim (to4 ip) [
    | some v4 ↦ record { address = v4; ones = 32; bits = 32 }
    | none ↦ record { address = ip; ones = 128; bits = 128 }
  ]

  abbrev parse_net : Bytes → List IpNet
  parse_net c = elim (parse_cidr c) [
    | some n ↦ n ∷ []
    | none ↦ elim (parse_ip c) [ some ip ↦ host_net ip ∷ [] | none ↦ [] ]
  ]

  unfoldable pub parse_nets : List Bytes → List IpNet
  parse_nets [] = []
  parse_nets (c ∷ cs) = parse_net c ++ parse_nets cs

  unfoldable pub any_contains : List IpNet → Ip → Bool
  any_contains [] ip = false
  any_contains (n ∷ ns) ip = net_contains n ip || any_contains ns ip

  unfoldable pub is_covered : List IpNet → Bytes → Bool
  is_covered nets key = elim (parse_ip key) [ none ↦ false | some ip ↦ any_contains nets ip ]

  unfoldable pub uncovered : List IpNet → List (Bytes × Record) → List (Bytes × Record)
  uncovered nets [] = []
  uncovered nets ((k, r) ∷ m) =
      if is_covered nets k then uncovered nets m else (k, r) ∷ uncovered nets m

  unfoldable pub covered_keys : List IpNet → List (Bytes × Record) → List Bytes
  covered_keys nets [] = []
  covered_keys nets ((k, r) ∷ m) =
      if is_covered nets k then k ∷ covered_keys nets m else covered_keys nets m

  unfoldable pub unban_cidrs : List Bytes → Bool → Store → Store
  unfolding uncovered covered_keys
  unban_cidrs cidrs writable s =
      let nets = parse_nets cidrs in
      let removed = covered_keys nets s.by_ip in
      if length nets == 0 || length removed == 0
      then s
      else (persist_locked writable
          (record s { by_ip = uncovered nets s.by_ip; pardoned = removed ++ s.pardoned })).0

module _ (ip_string : Ip → Bytes) (parse_ip : Bytes → Option Ip) where
  -- `ipKey(net.ParseIP(ip))`, a nil address where the text is none
  unfoldable pub parsed_key : Bytes → Bytes
  parsed_key ip = elim (parse_ip ip) [ none ↦ [] | some a ↦ ip_key ip_string a ]

  unfoldable pub load_pardoned : List Bytes → List Bytes → List Bytes
  load_pardoned [] set = set
  load_pardoned (ip ∷ ips) set =
      let key = parsed_key ip in load_pardoned ips (if length key == 0 then set else add key set)

  unfoldable pub load_records :
      List (Bytes × Record) → List (Bytes × Record) → List (Bytes × Record)
  load_records [] m = m
  load_records ((ip, r) ∷ rs) m =
      let key = parsed_key ip in load_records rs (if length key == 0 then m else insert key r m)

  -- New: a missing or unreadable file, `none`, gives an empty store, and so does an empty path.
  unfoldable pub new : Bytes → Option FileDto → Store
  unfolding load_pardoned load_records
  new path file =
      let empty : Store = record {
        path = path;
        ttl = temp_duration;
        limit = invalid_limit;
        by_ip = [];
        pardoned = [];
        hooks = 0;
        notices = 0;
        file = file;
      } in
      if length path == 0 then empty else elim file [
        | none ↦ empty
        | some dto ↦ record empty {
          by_ip = load_records dto.records [];
          pardoned = load_pardoned dto.pardoned [];
        }
      ]
