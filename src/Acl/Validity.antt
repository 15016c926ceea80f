-- ===== src/Acl/Validity.antt =====
-- internal/acl: the networks of a list are those of its entries, whatever operations made it.
use faketunnel.Base.{
  ℕ, ◌+◌, ◌≡◌, refl, ◌⊎◌, inl, inr, Bool, true, false, not, ◌&&◌, ◌||◌, Option, List, [], ◌∷◌, ◌++◌,
  arith, ◌==◌, Bool-cases, length, drop, ok, err, Result-cases, Bytes,
}
use faketunnel.Base.Spaces.{trim_space, trim_space_idem}
use faketunnel.Net.{Ip, is_nil, is_unspecified, shortest, IpNet, net_contains}
use faketunnel.Acl.Parsing.{Error, AllowList, any_net, allow, parse_cidr, parse_all, replace}
use faketunnel.Acl.Store.{
  Store, persist_locked, commit, replace_all, additions, add_entries, dropped, remaining,
  remove_entries,
}

module _ (parse_ip : Bytes → Option Ip) (parse_net : Bytes → Option IpNet) where
  pub parse_cidr-trim_space :
      (s : Bytes) → parse_cidr parse_ip parse_net (trim_space s) ≡ parse_cidr parse_ip parse_net s
  unfolding parse_cidr
  parse_cidr-trim_space s = rw trim_space_idem refl

  -- Parsing a list again gives the same list.
  abbrev pub IsValid : AllowList → Type 0
  IsValid l = parse_all parse_ip parse_net 0 l.entries ≡ ok (l.entries, l.nets)

  -- how an entry that parses comes into the lists
  abbrev Parsed : ℕ → Bytes → List Bytes → List Bytes → List IpNet → Type 0
  Parsed i raw raws entries nets =
      (n : IpNet) × (es : List Bytes) × (ns : List IpNet) × ((length (trim_space raw) == 0) ≡ false)
      × (parse_cidr parse_ip parse_net (trim_space raw) ≡ ok n)
      × (parse_all parse_ip parse_net i raws ≡ ok (es, ns))
      × (entries ≡ trim_space raw ∷ es)
      × (nets ≡ n ∷ ns)

  pub parse_all-cons :
      (i : ℕ) (raw : Bytes) (raws entries : List Bytes) (nets : List IpNet)
      → parse_all parse_ip parse_net i (raw ∷ raws) ≡ ok (entries, nets)
      → (((length (trim_space raw) == 0) ≡ true)
          × (parse_all parse_ip parse_net (i + 1) raws ≡ ok (entries, nets)))
        ⊎ Parsed (i + 1) raw raws entries nets
  unfolding parse_all
  parse_all-cons i raw raws entries nets h = elim (Bool-cases (length (trim_space raw) == 0)) [
    | inl blank ↦ inl (blank, ground arith)
    | inr full ↦ elim (Result-cases (parse_cidr parse_ip parse_net (trim_space raw))) [
      | inr (why, e) ↦ absurd (ground arith)
      | inl (n, e) ↦ elim (Result-cases (parse_all parse_ip parse_net (i + 1) raws)) [
        | inr (why, r) ↦ absurd (ground arith)
        | inl ((es, ns), r) ↦ inr (n, es, ns, full, e, r, ground arith, ground arith)
      ]
    ]
  ]

  pub parse_all_again :
      (i j : ℕ) (raws entries : List Bytes) (nets : List IpNet)
      → parse_all parse_ip parse_net i raws ≡ ok (entries, nets)
      → parse_all parse_ip parse_net j entries ≡ ok (entries, nets)
  unfolding parse_all
  parse_all_again i j [] entries nets h = ground arith
  parse_all_again i j (raw ∷ raws) entries nets h =
      elim (parse_all-cons i raw raws entries nets h) [
        | inl (blank, later) ↦ parse_all_again (i + 1) j raws entries nets later
        | inr (n, es, ns, full, e, r, he, hn) ↦
            let again = parse_all_again (i + 1) (j + 1) raws es ns r in
            ground (arith, he, hn, trim_space_idem raw, full, e, again)
      ]

  pub replace-IsValid :
      (cidrs : List Bytes) (l : AllowList)
      → IsValid l
      → IsValid (replace parse_ip parse_net cidrs l).0
  unfolding replace
  replace-IsValid cidrs l h = elim (Result-cases (parse_all parse_ip parse_net 0 cidrs)) [
    | inr (why, e) ↦ ground (arith, h)
    | inl ((es, ns), e) ↦ ground (arith, parse_all_again 0 0 cidrs es ns e)
  ]

  -- the address lies in the network of an entry
  abbrev pub entry_contains : Ip → Bytes → Bool
  entry_contains ip e = elim (parse_cidr parse_ip parse_net e) [
    | err why ↦ false
    | ok n ↦ net_contains n ip
  ]

  unfoldable pub any_entry : Ip → List Bytes → Bool
  any_entry ip [] = false
  any_entry ip (e ∷ es) = entry_contains ip e || any_entry ip es

  pub any_net-parse_all :
      (ip : Ip) (i : ℕ) (raws entries : List Bytes) (nets : List IpNet)
      → parse_all parse_ip parse_net i raws ≡ ok (entries, nets)
      → any_net nets ip ≡ any_entry ip entries
  unfolding any_entry any_net parse_all
  any_net-parse_all ip i [] entries nets h = ground arith
  any_net-parse_all ip i (raw ∷ raws) entries nets h =
      elim (parse_all-cons i raw raws entries nets h) [
        | inl (blank, later) ↦ any_net-parse_all ip (i + 1) raws entries nets later
        | inr (n, es, ns, full, e, r, he, hn) ↦
            ground (arith, he, hn, e, any_net-parse_all ip (i + 1) raws es ns r)
      ]

  pub allow-entries :
      (ip : Ip) (l : AllowList)
      → IsValid l
      → allow ip l ≡ (not (is_nil ip || is_unspecified ip) && any_entry (shortest ip) l.entries)
  unfolding allow
  allow-entries ip l h =
      ground (arith, any_net-parse_all (shortest ip) 0 l.entries l.entries l.nets h)

pub data Change : Type 0 where
  replacing adding_to removing_from : List Bytes → Bool → Change

module _ (ip_string : Ip → Bytes) (parse_ip : Bytes → Option Ip)
    (parse_net : Bytes → Option IpNet) where
  abbrev pub attempt : Change → Store → Store × Option Error
  attempt (replacing cidrs writable) s = replace_all ip_string parse_ip parse_net cidrs writable s
  attempt (adding_to cidrs writable) s = add_entries ip_string parse_ip parse_net cidrs writable s
  attempt (removing_from cidrs writable) s =
      remove_entries ip_string parse_ip parse_net cidrs writable s

  abbrev pub change : Change → Store → Store
  change c s = (attempt c s).0

  abbrev pub changes : List Change → Store → Store
  changes [] s = s
  changes (c ∷ cs) s = changes cs (change c s)

  abbrev Keeps : Store → Type 0
  Keeps s = IsValid parse_ip parse_net s.allowed

  pub commit_allowed :
      (cidrs : List Bytes) (writable : Bool) (s : Store)
      → (commit ip_string parse_ip parse_net cidrs writable s).0.allowed
        ≡ (replace parse_ip parse_net cidrs s.allowed).0
  unfolding commit persist_locked replace
  commit_allowed cidrs writable s = elim (Result-cases (parse_all parse_ip parse_net 0 cidrs)) [
    | inr (why, e) ↦ ground (arith, e)
    | inl ((es, ns), e) ↦ ground (arith, e)
  ]

  commit-IsValid :
      (cidrs : List Bytes) (writable : Bool) (s : Store)
      → Keeps s
      → Keeps (commit ip_string parse_ip parse_net cidrs writable s).0
  commit-IsValid cidrs writable s h =
      rw (commit_allowed cidrs writable s) (replace-IsValid parse_ip parse_net cidrs s.allowed h)

  change-IsValid : (c : Change) (s : Store) → Keeps s → Keeps (change c s)
  unfolding replace_all add_entries remove_entries
  change-IsValid (replacing cidrs writable) s h = commit-IsValid cidrs writable s h
  change-IsValid (adding_to cidrs writable) s h =
      elim (Result-cases (additions ip_string parse_ip parse_net cidrs s)) [
        | inr (why, e) ↦ ground (arith, e)
        | inl (more, e) ↦ ground (arith, e, commit-IsValid (s.allowed.entries ++ more) writable s h)
      ]
  change-IsValid (removing_from cidrs writable) s h =
      elim (Result-cases (dropped ip_string parse_ip parse_net cidrs)) [
        | inr (why, e) ↦ ground (arith, e)
        | inl (drop, e) ↦
            elim (Result-cases (remaining ip_string parse_ip parse_net drop s.allowed.entries)) [
              | inr (why, r) ↦ ground (arith, e, r)
              | inl (rest, r) ↦ ground (arith, e, r, commit-IsValid rest writable s h)
            ]
      ]

  -- From a list whose networks are those of its entries, after every sequence of Replace, Add
  -- and Remove, whether or not they fail, Allow holds exactly for an address that is neither nil
  -- nor unspecified and lies in the network of a present entry.
  pub allow-changes :
      (ip : Ip) (cs : List Change) (s : Store)
      → IsValid parse_ip parse_net s.allowed
      → allow ip (changes cs s).allowed ≡ (
          not (is_nil ip || is_unspecified ip)
          && any_entry parse_ip parse_net (shortest ip) (changes cs s).allowed.entries)
  allow-changes ip [] s h = allow-entries parse_ip parse_net ip s.allowed h
  allow-changes ip (c ∷ cs) s h = allow-changes ip cs (change c s) (change-IsValid c s h)
