-- ===== src/Admin/Listing.antt =====
-- internal/admin/server.go with internal/acl and internal/ban: what a change over the API does to
-- the list and to the bans.
use mathlib.Core.Path.{subst}
use faketunnel.Base.{
  ◌≡◌, inl, inr, ◌||◌, Option, none, some, List, [], ◌∷◌, arith, ◌==◌, if◌then◌else◌, Bool-cases,
  Option-cases, length, Bytes,
}
use faketunnel.Base.Maps.{lookup}
use faketunnel.Net.{Ip, IpNet}
use faketunnel.Acl.Store.{add_entries}
use faketunnel.Acl.Keys.{has_key}
use faketunnel.Acl.Keys.Changes.{add_entries-has_key}
use faketunnel.Ban.Store as Bans
use faketunnel.Ban.Methods.{is_covered, parse_nets, unban_cidrs}
use faketunnel.Ban.Unbans.{unban_cidrs_lem}
use faketunnel.Admin.Handlers.{
  Request, Server, Disk, Dto, entries, post, read_dto, all_cidrs, unban_listed, add_listed,
  handle_allowlist, handle_allow_self, self_cidr,
}

module _ (ip_string : Ip → Bytes) (parse_ip : Bytes → Option Ip)
    (parse_net : Bytes → Option IpNet) where
  -- the records of the addresses that one of the networks contains are gone, the others stay
  abbrev pub Lifted : List Bytes → Bytes → Bans.Store → Option Bans.Store → Type 0
  Lifted cidrs key b after =
      (b' : Bans.Store) × (after ≡ some b')
      × (lookup key b'.by_ip ≡ (
          if is_covered parse_ip parse_net (parse_nets parse_ip parse_net cidrs) key
          then none
          else lookup key b.by_ip))

  add_listed_lem :
      (cidrs : List Bytes) (disk : Disk) (s : Server) (b : Bans.Store) (es : List Bytes)
      (k key : Bytes)
      → s.bans ≡ some b
      → (add_listed ip_string parse_ip parse_net cidrs disk s).1 ≡ entries es
      → (has_key ip_string parse_ip parse_net k es ≡ (
          has_key ip_string parse_ip parse_net k s.store.allowed.entries
          || has_key ip_string parse_ip parse_net k cidrs))
        × Lifted cidrs key b (add_listed ip_string parse_ip parse_net cidrs disk s).0.bans
  unfolding add_listed unban_listed
  add_listed_lem cidrs disk s b es k key hb h =
      let out = add_entries ip_string parse_ip parse_net cidrs disk.acl_writable s.store in
      let union =
        add_entries-has_key ip_string parse_ip parse_net k cidrs disk.acl_writable s.store in
      let after = unban_cidrs parse_ip parse_net cidrs disk.bans_writable b in
      elim (Bool-cases (length cidrs == 0)) [
        | inl e ↦ absurd (ground (arith, h, e))
        | inr e ↦ elim (Option-cases (out.1)) [
          | inr p ↦ let (why, f) = p in absurd (ground (arith, h, e, f))
          | inl f ↦
              let same : out.0.allowed.entries ≡ es = ground (arith, h, e, f) in
              let lifted : (add_listed ip_string parse_ip parse_net cidrs disk s).0.bans
                  ≡ some after =
                ground (arith, e, f, hb) in
              (
                subst
                    (λ l. has_key ip_string parse_ip parse_net k l ≡ (
                      has_key ip_string parse_ip parse_net k s.store.allowed.entries
                      || has_key ip_string parse_ip parse_net k cidrs))
                    same (union f),
                (
                  after,
                  lifted,
                  (unban_cidrs_lem parse_ip parse_net cidrs disk.bans_writable b key).0,
                ),
              )
        ]
      ]

  -- Where there is a ban store, a POST of networks that the API answers with a list has on that
  -- list exactly the network keys that were present or are posted, blanks at the ends of a
  -- posted text aside; and it removes from the ban store exactly the records whose address lies
  -- in a network that a posted text names when it is read with its blanks.
  pub handle_allowlist_adds :
      (read_json : Bytes → Option Dto) (r : Request) (dto : Dto) (disk : Disk) (s : Server)
      (b : Bans.Store) (es : List Bytes) (k key : Bytes)
      → r.method ≡ post
      → read_dto read_json r.body ≡ some dto
      → s.bans ≡ some b
      → (handle_allowlist ip_string parse_ip parse_net read_json r disk s).1 ≡ entries es
      → (has_key ip_string parse_ip parse_net k es ≡ (
          has_key ip_string parse_ip parse_net k s.store.allowed.entries
          || has_key ip_string parse_ip parse_net k (all_cidrs dto)))
        × Lifted
            (all_cidrs dto)
            key
            b
            (handle_allowlist ip_string parse_ip parse_net read_json r disk s).0.bans
  unfolding handle_allowlist
  handle_allowlist_adds read_json r dto disk s b es k key hm hd hb h =
      let here : handle_allowlist ip_string parse_ip parse_net read_json r disk s
          ≡ add_listed ip_string parse_ip parse_net (all_cidrs dto) disk s =
        ground (arith, hm, hd) in
      rw here (add_listed_lem (all_cidrs dto) disk s b es k key hb (ground (arith, h, here)))

  -- A client that adds itself is on the list afterwards, with no record of its own address.
  pub handle_allow_self_adds :
      (r : Request) (ip : Ip) (disk : Disk) (s : Server) (b : Bans.Store) (es : List Bytes)
      (k key : Bytes)
      → r.method ≡ post
      → r.address ≡ some ip
      → s.bans ≡ some b
      → (handle_allow_self ip_string parse_ip parse_net r disk s).1 ≡ entries es
      → (has_key ip_string parse_ip parse_net k es ≡ (
          has_key ip_string parse_ip parse_net k s.store.allowed.entries
          || has_key ip_string parse_ip parse_net k (self_cidr ip_string ip ∷ [])))
        × Lifted
            (self_cidr ip_string ip ∷ [])
            key
            b
            (handle_allow_self ip_string parse_ip parse_net r disk s).0.bans
  unfolding handle_allow_self
  handle_allow_self_adds r ip disk s b es k key hm ha hb h =
      let cidrs = self_cidr ip_string ip ∷ [] in
      let here : handle_allow_self ip_string parse_ip parse_net r disk s
          ≡ add_listed ip_string parse_ip parse_net cidrs disk s =
        ground (arith, hm, ha) in
      rw here (add_listed_lem cidrs disk s b es k key hb (ground (arith, h, here)))
