-- ===== src/Ban/Store.antt =====
-- internal/ban/store.go: the store, its operations, and the file that it persists to.
-- Times are nanoseconds; `none` is the zero time of a record that was never banned for a time.
-- The clock's reading, whether the file can be written, and the text of an address are
-- parameters. `hooks` counts the registered hooks and `notices` the rounds in which they ran.
use faketunnel.Base.{
  ℕ, ◌+◌, ◌*◌, Bool, true, false, not, ◌&&◌, ◌||◌, Option, none, some, List, [], ◌∷◌, ltb, leb,
  ◌==◌, if◌then◌else◌, length, Bytes, text_eq,
}
use faketunnel.Base.Maps.{lookup, insert, erase, contains, add}

abbrev pub invalid_limit : ℕ
invalid_limit = 5

-- 6 hours
abbrev pub temp_duration : ℕ
temp_duration = 6 * 3600 * 1000000000

pub data Kind : Type 0 where
  temporary permanent clear : Kind

pub record Record : Type 0 where
  pub consecutive : ℕ
  pub reason : Bytes
  pub bans : ℕ
  pub until : Option ℕ
  pub permanent : Bool

abbrev pub fresh : Record
fresh = record { consecutive = 0; reason = []; bans = 0; until = none; permanent = false }

-- the JSON document
pub record FileDto : Type 0 where
  pub records : List (Bytes × Record)
  pub pardoned : List Bytes

pub record Store : Type 0 where
  pub path : Bytes
  pub ttl : ℕ
  pub limit : ℕ
  pub by_ip : List (Bytes × Record)
  pub pardoned : List Bytes
  pub hooks : ℕ
  pub notices : ℕ
  pub file : Option FileDto

-- `!r.Until.IsZero() && now.Before(r.Until)`
abbrev pub running : ℕ → Option ℕ → Bool
running now none = false
running now (some until) = ltb now until

-- `!r.Until.IsZero() && !now.Before(r.Until)`
abbrev pub expired : ℕ → Option ℕ → Bool
expired now none = false
expired now (some until) = not (ltb now until)

abbrev pub is_zero : Option ℕ → Bool
is_zero none = true
is_zero (some t) = false

abbrev pub record_blocked : ℕ → Record → Bool
record_blocked now r = if r.permanent then true else running now r.until

unfoldable pub blocked_locked : Store → Bytes → ℕ → Bool
blocked_locked s key now = elim (lookup key s.by_ip) [
  | none ↦ false
  | some r ↦ record_blocked now r
]

abbrev pub record_kind : ℕ → Record → Kind
record_kind now r =
    if r.permanent then permanent else if running now r.until then temporary else clear

unfoldable pub kind_locked : Store → Bytes → ℕ → Kind
kind_locked s key now = elim (lookup key s.by_ip) [ none ↦ clear | some r ↦ record_kind now r ]

-- sort.Strings
pub text_leb : Bytes → Bytes → Bool
text_leb [] b = true
text_leb (x ∷ a) [] = false
text_leb (x ∷ a) (y ∷ b) = ltb x y || (x == y && text_leb a b)

unfoldable pub insert_sorted : Bytes → List Bytes → List Bytes
insert_sorted k [] = k ∷ []
insert_sorted k (j ∷ s) = if text_leb k j then k ∷ j ∷ s else j ∷ insert_sorted k s

unfoldable pub sort_texts : List Bytes → List Bytes
sort_texts [] = []
sort_texts (k ∷ s) = insert_sorted k (sort_texts s)

-- `r.Bans == 0 && r.Consecutive == 0 && r.Until.IsZero() && !r.Permanent`
abbrev pub is_trivial : Record → Bool
is_trivial r = r.bans == 0 && r.consecutive == 0 && is_zero r.until && not r.permanent

unfoldable pub kept : List (Bytes × Record) → List (Bytes × Record)
kept [] = []
kept ((ip, r) ∷ m) = if is_trivial r then kept m else (ip, r) ∷ kept m

unfoldable pub dto_of : Store → FileDto
dto_of s = record { records = kept s.by_ip; pardoned = sort_texts s.pardoned }

-- persistLocked; the flag says whether the directory, the temporary file and the rename succeed.
-- A failure leaves the old file, and the error is the `false`.
unfoldable pub persist_locked : Bool → Store → Store × Bool
unfolding dto_of
persist_locked writable s =
    if length s.path == 0
    then (s, true)
    else if writable
    then (record s { file = some (dto_of s) }, true)
    else (s, false)

abbrev pub notify : Store → Store
notify s = record s { notices = s.notices + 1 }

unfoldable pub on_change : Store → Store
on_change s = record s { hooks = s.hooks + 1 }

-- The body of ObserveInvalid on one record: the record, and whether a ban was issued.
abbrev forgive_expired : ℕ → Record → Record
forgive_expired now r =
    if expired now r.until then record r { until = none; consecutive = 0; reason = [] } else r

abbrev restart_streak : Bytes → Record → Record
restart_streak reason r =
    if not (text_eq r.reason reason) then record r { reason = reason; consecutive = 0 } else r

abbrev pub issue_ban : ℕ → Record → Record
issue_ban until r =
    let b = record r { consecutive = 0; bans = r.bans + 1 } in
    if leb 2 b.bans
    then record b { permanent = true; until = none }
    else record b { until = some until }

unfoldable pub strike : ℕ → ℕ → ℕ → Bytes → Record → Record × Bool
strike limit ttl now reason r =
    let r1 = restart_streak reason (forgive_expired now r) in
    let r2 = record r1 { consecutive = r1.consecutive + 1 } in
    if ltb r2.consecutive limit then (r2, false) else (issue_ban (now + ttl) r2, true)

abbrev pub record_at : Store → Bytes → Record
record_at s key = elim (lookup key s.by_ip) [ none ↦ fresh | some r ↦ r ]

abbrev pub put_record : Bytes → Record → Store → Store
put_record key r s = record s { by_ip = insert key r s.by_ip }

unfoldable pub observe_invalid_locked : Bytes → Bytes → ℕ → Bool → Store → Store
observe_invalid_locked key reason now writable s =
    if contains key s.pardoned || blocked_locked s key now
    then s
    else let struck = strike s.limit s.ttl now reason (record_at s key) in
      let s' = put_record key struck.0 s in
      if struck.1 then notify (persist_locked writable s').0 else s'

abbrev pub ban_record : Record → Record
ban_record r = record r {
  permanent = true;
  until = none;
  consecutive = 0;
  reason = [];
  bans = (if ltb r.bans 2 then 2 else r.bans);
}

unfoldable pub ban_permanent_locked : Bytes → Bool → Store → Store
ban_permanent_locked key writable s =
    let r = record_at s key in
    if contains key s.pardoned || r.permanent
    then s
    else notify (persist_locked writable (put_record key (ban_record r) s)).0

unfoldable pub observe_valid_locked : Bytes → Store → Store
observe_valid_locked key s = elim (lookup key s.by_ip) [
  | none ↦ s
  | some r ↦ if r.consecutive == 0 then s else put_record key (record r { consecutive = 0 }) s
]

abbrev pub pardon : Bytes → Store → Store
pardon key s = record s { by_ip = erase key s.by_ip; pardoned = add key s.pardoned }

unfoldable pub unban_locked : Bytes → Bool → Store → Store × Bool
unban_locked key writable s = elim (lookup key s.by_ip) [
  | none ↦ (s, true)
  | some r ↦ persist_locked writable (pardon key s)
]
