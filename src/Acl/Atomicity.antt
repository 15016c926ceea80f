-- ===== src/Acl/Atomicity.antt =====
-- internal/acl/store.go: what a change that reports an error leaves behind.
use faketunnel.Base.{
  ◌≡◌, ◌⊎◌, inl, inr, Bool, true, false, Option, none, some, List, ◌++◌, arith, ◌==◌, length, ok,
  Result-cases, Bytes,
}
use faketunnel.Net.{Ip, IpNet}
use faketunnel.Acl.Parsing.{Error, save_failed, parse_all, replace}
use faketunnel.Acl.Store.{
  Store, commit, persist_locked, replace_all, additions, add_entries, dropped, remaining,
  remove_entries,
}
use faketunnel.Acl.Validity.{Change, replacing, adding_to, removing_from, attempt}

abbrev pub is_save_failed : Error → Bool
is_save_failed save_failed = true
is_save_failed _ = false

module _ (ip_string : Ip → Bytes) (parse_ip : Bytes → Option Ip)
    (parse_net : Bytes → Option IpNet) where
  -- what the error, if any, leaves of the store
  abbrev LeavesBehind : Store → Store × Option Error → Type 0
  LeavesBehind s (after, none) = Unit
  LeavesBehind s (after, some e) =
      (after.notices ≡ s.notices)
      × (after.file ≡ s.file)
      × ((is_save_failed e ≡ true) ⊎ (after ≡ s))

  commit-LeavesBehind :
      (cidrs : List Bytes) (writable : Bool) (s : Store)
      → LeavesBehind s (commit ip_string parse_ip parse_net cidrs writable s)
  unfolding commit persist_locked replace
  commit-LeavesBehind cidrs writable s =
      elim (Result-cases (parse_all parse_ip parse_net 0 cidrs)) [
        | inr (why, e) ↦ ground (arith, e)
        | inl ((es, ns), e) ↦ ground (arith, e)
      ]

  attempt-LeavesBehind :
      (c : Change) (s : Store) → LeavesBehind s (attempt ip_string parse_ip parse_net c s)
  unfolding replace_all add_entries remove_entries
  attempt-LeavesBehind (replacing cidrs writable) s = commit-LeavesBehind cidrs writable s
  attempt-LeavesBehind (adding_to cidrs writable) s =
      elim (Result-cases (additions ip_string parse_ip parse_net cidrs s)) [
        | inr (why, e) ↦ ground (arith, e)
        | inl (more, e) ↦
            ground (arith, e, commit-LeavesBehind (s.allowed.entries ++ more) writable s)
      ]
  attempt-LeavesBehind (removing_from cidrs writable) s =
      elim (Result-cases (dropped ip_string parse_ip parse_net cidrs)) [
        | inr (why, e) ↦ ground (arith, e)
        | inl (gone, e) ↦
            elim (Result-cases (remaining ip_string parse_ip parse_net gone s.allowed.entries)) [
              | inr (why, r) ↦ ground (arith, e, r)
              | inl (rest, r) ↦ ground (arith, e, r, commit-LeavesBehind rest writable s)
            ]
      ]

  error_known :
      (s : Store) (r : Store × Option Error) (e : Error)
      → LeavesBehind s r
      → r.1 ≡ some e
      → LeavesBehind s (r.0, some e)
  error_known s (after, none) e facts h = absurd (ground (arith, h))
  error_known s (after, some why) e facts h = ground (arith, h, facts)

  -- A change of the allowlist that reports an error runs no hook and leaves the file, and unless
  -- saving failed it leaves the whole store, as it was.
  pub refused_change_keeps :
      (c : Change) (s : Store) (e : Error)
      → (attempt ip_string parse_ip parse_net c s).1 ≡ some e
      → ((attempt ip_string parse_ip parse_net c s).0.notices ≡ s.notices)
        × ((attempt ip_string parse_ip parse_net c s).0.file ≡ s.file)
        × ((is_save_failed e ≡ true) ⊎ ((attempt ip_string parse_ip parse_net c s).0 ≡ s))
  refused_change_keeps c s e h =
      error_known s (attempt ip_string parse_ip parse_net c s) e (attempt-LeavesBehind c s) h

  -- A Replace of entries that parse, where the store has a path and saving fails, reports the
  -- failure, but the list in memory is the new one and no hook has run.
  pub unsaved_replace_applies :
      (cidrs entries : List Bytes) (nets : List IpNet) (s : Store)
      → (length s.path == 0) ≡ false
      → parse_all parse_ip parse_net 0 cidrs ≡ ok (entries, nets)
      → replace_all ip_string parse_ip parse_net cidrs false s
        ≡ (record s { allowed = record { entries = entries; nets = nets } }, some save_failed)
  unfolding replace_all commit persist_locked replace
  unsaved_replace_applies cidrs entries nets s path parsed = ground (arith, parsed, path)
