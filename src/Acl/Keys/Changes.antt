-- ===== src/Acl/Keys/Changes.antt =====
-- internal/acl/store.go: what Add and Remove do to the keys of the list.
use faketunnel.Base.{
  ◌≡◌, inl, inr, Bool, not, ◌&&◌, ◌||◌, Option, none, List, ◌++◌, arith, Result-cases, Bytes,
}
use faketunnel.Net.{Ip, IpNet}
use faketunnel.Acl.Parsing.{parse_all, replace}
use faketunnel.Acl.Store.{
  Store, keys_of, added, dropped, remaining, commit, add_entries, remove_entries,
}
use faketunnel.Acl.Validity.{commit_allowed}
use faketunnel.Acl.Keys.{
  has_key, has_key-append, keys_of-has_key, added-has_key, dropped-has_key, remaining-has_key,
  parse_all-has_key, has_key-nil, contains-nil, remaining_all,
}

module _ (ip_string : Ip → Bytes) (parse_ip : Bytes → Option Ip)
    (parse_net : Bytes → Option IpNet) where
  commit-has_key :
      (k : Bytes) (cidrs : List Bytes) (writable : Bool) (s : Store)
      → (commit ip_string parse_ip parse_net cidrs writable s).1 ≡ none
      → has_key ip_string parse_ip parse_net k
          (commit ip_string parse_ip parse_net cidrs writable s).0.allowed.entries
        ≡ has_key ip_string parse_ip parse_net k cidrs
  unfolding commit replace
  commit-has_key k cidrs writable s h =
      let kept = commit_allowed ip_string parse_ip parse_net cidrs writable s in
      elim (Result-cases (parse_all parse_ip parse_net 0 cidrs)) [
        | inr (why, e) ↦ absurd (ground (arith, h, e))
        | inl ((es, ns), e) ↦
            ground (arith, kept, e, parse_all-has_key ip_string parse_ip parse_net k 0 cidrs es e)
      ]

  -- An Add that reports no error leaves exactly the network keys that were present or are named
  -- in it, blank texts aside: on keys it is a union.
  pub add_entries-has_key :
      (k : Bytes) (cidrs : List Bytes) (writable : Bool) (s : Store)
      → (add_entries ip_string parse_ip parse_net cidrs writable s).1 ≡ none
      → has_key ip_string parse_ip parse_net k
          (add_entries ip_string parse_ip parse_net cidrs writable s).0.allowed.entries
        ≡ (has_key ip_string parse_ip parse_net k s.allowed.entries
            || has_key ip_string parse_ip parse_net k cidrs)
  unfolding add_entries
  add_entries-has_key k cidrs writable s h =
      elim (Result-cases (keys_of ip_string parse_ip parse_net s.allowed.entries)) [
        | inr (why, e) ↦ absurd (ground (arith, h, e))
        | inl (seen, e) ↦ elim (Result-cases (added ip_string parse_ip parse_net seen cidrs)) [
          | inr (why, r) ↦ absurd (ground (arith, h, e, r))
          | inl (more, r) ↦ ground (
            arith,
            h,
            e,
            r,
            keys_of-has_key ip_string parse_ip parse_net k s.allowed.entries seen e,
            added-has_key ip_string parse_ip parse_net k seen cidrs more r,
            has_key-nil ip_string parse_ip parse_net k more,
            commit-has_key k (s.allowed.entries ++ more) writable s,
            has_key-append ip_string parse_ip parse_net k s.allowed.entries more,
          )
        ]
      ]

  -- A Remove that reports no error leaves exactly the network keys that were present and are not
  -- named in it: on keys it is a difference.
  pub remove_entries-has_key :
      (k : Bytes) (cidrs : List Bytes) (writable : Bool) (s : Store)
      → (remove_entries ip_string parse_ip parse_net cidrs writable s).1 ≡ none
      → has_key ip_string parse_ip parse_net k
          (remove_entries ip_string parse_ip parse_net cidrs writable s).0.allowed.entries
        ≡ (has_key ip_string parse_ip parse_net k s.allowed.entries
            && not (has_key ip_string parse_ip parse_net k cidrs))
  unfolding remove_entries
  remove_entries-has_key k cidrs writable s h =
      elim (Result-cases (dropped ip_string parse_ip parse_net cidrs)) [
        | inr (why, e) ↦ absurd (ground (arith, h, e))
        | inl (gone, e) ↦
            elim (Result-cases (remaining ip_string parse_ip parse_net gone s.allowed.entries)) [
              | inr (why, r) ↦ ground (
                arith,
                h,
                e,
                r,
                dropped-has_key ip_string parse_ip parse_net k cidrs gone e,
                contains-nil ip_string parse_ip parse_net k gone,
              )
              | inl (rest, r) ↦
                  let (short, same) =
                    remaining_all ip_string parse_ip parse_net gone s.allowed.entries rest r in
                  ground (
                    arith,
                    h,
                    e,
                    r,
                    dropped-has_key ip_string parse_ip parse_net k cidrs gone e,
                    same,
                    remaining-has_key ip_string parse_ip parse_net k gone s.allowed.entries rest r,
                    contains-nil ip_string parse_ip parse_net k gone,
                    commit-has_key k rest writable s,
                  )
            ]
      ]
