-- ===== src/Net/HostPort.antt =====
-- net.SplitHostPort and net.JoinHostPort of Go's standard library, whose errors all count as one.
use faketunnel.Base.{
  ℕ, ◌≡◌, refl, false, not, ◌||◌, Option, none, some, [], ◌∷◌, ◌++◌, arith, ◌==◌, if◌then◌else◌,
  length, drop, Bytes, append_assoc, Bool-cases, inl, inr, ◌∙◌, ap, sym,
}
use faketunnel.Base.Scan.{has_byte, cut, cut_last, cut_lem, cut_last_lem, has_prefix}

-- `host` runs up to the last colon and has none itself; neither part has a bracket
abbrev plain : Bytes → Bytes → Option (Bytes × Bytes)
plain host port =
    if has_byte 58 host
      || (has_byte 91 host || has_byte 93 host || (has_byte 91 port || has_byte 93 port))
    then none
    else some (host, port)

-- `[host]:port`: `front` runs up to the last colon, and the first `]` ends it
abbrev bracketed : Bytes → Bytes → Option (Bytes × Bytes)
bracketed front port = elim (cut 93 (drop 1 front)) [
  | none ↦ none
  | some (host, after) ↦
      if not (length after == 0) || (has_byte 91 host || (has_byte 91 port || has_byte 93 port))
      then none
      else some (host, port)
]

-- `none` for an error
unfoldable pub split_host_port : Bytes → Option (Bytes × Bytes)
split_host_port s = elim (cut_last 58 s) [
  | none ↦ none
  | some (front, port) ↦ if has_prefix s (91 ∷ []) then bracketed front port else plain front port
]

unfoldable pub join_host_port : Bytes → Bytes → Bytes
join_host_port host port =
    if has_byte 58 host then 91 ∷ host ++ 93 ∷ 58 ∷ port else host ++ 58 ∷ port

abbrev pub HasNo : ℕ → Bytes → Type 0
HasNo c s = has_byte c s ≡ false

bracketed_lem :
    (host port : Bytes)
    → HasNo 91 host
    → HasNo 93 host
    → HasNo 91 port
    → HasNo 93 port
    → bracketed (91 ∷ host ++ 93 ∷ []) port ≡ some (host, port)
unfolding cut
bracketed_lem host port h1 h2 h3 h4 = rw (cut_lem 93 host [] h2, h1, h3, h4) refl

plain_start : (host rest : Bytes) → HasNo 91 host → has_prefix (host ++ 58 ∷ rest) (91 ∷ []) ≡ false
unfolding has_byte
plain_start [] rest h = refl
plain_start (b ∷ host) rest h = ground arith

-- A joined address splits into its parts again, unless a bracket or a colon stands in the wrong one.
pub split_host_port-join_host_port :
    (host port : Bytes)
    → HasNo 91 host
    → HasNo 93 host
    → HasNo 58 port
    → HasNo 91 port
    → HasNo 93 port
    → split_host_port (join_host_port host port) ≡ some (host, port)
unfolding split_host_port join_host_port
split_host_port-join_host_port host port h1 h2 h3 h4 h5 = elim (Bool-cases (has_byte 58 host)) [
  | inl e ↦
      let last : cut_last 58 (91 ∷ host ++ 93 ∷ 58 ∷ port) ≡ some (91 ∷ host ++ 93 ∷ [], port) =
        ap (cut_last 58) (sym (append_assoc (91 ∷ host) (93 ∷ []) (58 ∷ port)))
        ∙ cut_last_lem 58 (91 ∷ host ++ 93 ∷ []) port h3 in
      ground (arith, e, last, bracketed_lem host port h1 h2 h4 h5)
  | inr e ↦ ground (arith, e, cut_last_lem 58 host port h3, plain_start host port h1)
]
