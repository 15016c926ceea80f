-- ===== src/Proxy/Host.antt =====
-- internal/proxy/host.go: the name that a Host header or a server name is looked up by.
-- `to_lower` is strings.ToLower.
use faketunnel.Base.{
  ◌≡◌, false, ◌||◌, Option, none, some, List, [], ◌∷◌, arith, if◌then◌else◌, drop, Bytes,
}
use faketunnel.Base.Spaces.{trim_space}
use faketunnel.Base.Maps.{lookup}
use faketunnel.Base.Scan.{has_byte, has_prefix, cut, cut_last_absent}
use faketunnel.Net.HostPort.{split_host_port}
use faketunnel.Base.Maps.{lookup}
use faketunnel.Config.File.{is_empty}
use faketunnel.Config.Validate.{normalize_config_host}

module _ (to_lower : Bytes → Bytes) where
  abbrev without_port : Bytes → Bytes
  without_port h =
      if has_byte 58 h
      then elim (split_host_port h) [ some (name, _) ↦ to_lower name | none ↦ to_lower h ]
      else to_lower h

  -- the literal in brackets that `h` begins with, if only a port can follow
  abbrev literal : Bytes → Option Bytes
  literal h =
      if has_prefix h (91 ∷ [])
      then elim (cut 93 (drop 1 h)) [
        | none ↦ none
        | some (inner, rest) ↦
            if is_empty rest || has_prefix rest (58 ∷ []) then some inner else none
      ]
      else none

  unfoldable pub normalize_host : Bytes → Bytes
  normalize_host raw =
      let h = trim_space raw in
      if is_empty h
      then []
      else elim (literal h) [ some inner ↦ to_lower inner | none ↦ without_port h ]

  -- `empty_key` is the name of the catch-all, the empty text for none
  unfoldable pub match_host : Bytes → List (Bytes × Bytes) → Bytes → Option Bytes
  match_host host by_host empty_key =
      let key = normalize_host host in
      let fallback = if is_empty empty_key then none else some empty_key in
      if is_empty key
      then fallback
      else elim (lookup key by_host) [ some name ↦ some name | none ↦ fallback ]

  no_colon : (h : Bytes) → has_byte 58 h ≡ false → split_host_port h ≡ none
  unfolding split_host_port
  no_colon h none_in = ground (arith, cut_last_absent 58 h none_in)

  -- Outside brackets, what ValidateEdge compares hosts by is what requests are looked up by.
  pub normalize_host-normalize_config_host :
      (host : Bytes)
      → has_prefix (trim_space host) (91 ∷ []) ≡ false
      → normalize_host host ≡ normalize_config_host to_lower host
  unfolding normalize_host normalize_config_host
  normalize_host-normalize_config_host host h = ground (arith, h, no_colon (trim_space host))
