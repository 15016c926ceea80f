-- ===== src/Config/Load/Promises.antt =====
-- internal/config: what a configuration that loads promises to the process that runs on it.
use faketunnel.Base.{
  ℕ, ◌/◌, ◌%◌, ◌<◌, ◌≡◌, sym, ◌∙◌, inl, inr, Bool, true, false, not, ◌&&◌, ◌||◌, Option, some, List,
  [], ◌∷◌, ◌++◌, arith, Bool-cases, ok, >>=-eq-ok, Result-cases, Bytes, IsBytes,
}
use faketunnel.Base.Spaces.{trim_space}
use faketunnel.Base.Spaces.Ends.{is_plain, Plain, trim_space_line}
use faketunnel.Base.Integers.{is_positive}
use faketunnel.Config.File.{
  File, is_blank, is_empty, admin_enabled, max_sessions_or_default, udp_idle_or_default,
  dial_or_default, shutdown_or_default,
}
use faketunnel.Config.Defaults.{System, contents}
use faketunnel.Config.Validate.{validate_edge}
use faketunnel.Config.Validate.Spec.{edge_valid, routes_valid}
use faketunnel.Config.Validate.Decides.{validate_edge_lem, validate_edge-eq-ok}
use faketunnel.Config.Load.{
  hex, hex_digit, Written, admin_token, random_token, ensure_admin_token, load_edge, checked_edge,
}

hex_digit_plain : (d : ℕ) → d < 16 → is_plain (hex_digit d) ≡ true
hex_digit_plain d h = ground (arith, h)

hex-Plain : (bs : Bytes) → IsBytes bs → Plain (hex bs)
unfolding hex
hex-Plain [] h = tt
hex-Plain (b ∷ bs) h = (
  hex_digit_plain (b / 16) (omega (arith, h.0)),
  (hex_digit_plain (b % 16) (omega arith), hex-Plain bs h.1),
)

hex_full : (b : ℕ) (bs : Bytes) → is_empty (hex (b ∷ bs)) ≡ false
unfolding hex
hex_full b bs = ground arith

hex_line :
    (b : ℕ) (bs : Bytes) → IsBytes (b ∷ bs) → trim_space (hex (b ∷ bs) ++ 10 ∷ []) ≡ hex (b ∷ bs)
unfolding hex
hex_line b bs h = trim_space_line (hex_digit (b / 16)) (hex_digit (b % 16) ∷ hex bs) (
  hex_digit_plain (b / 16) (omega (arith, h.0)),
  (hex_digit_plain (b % 16) (omega arith), hex-Plain bs h.1),
)

module _ (write : Bytes → Bytes → Bool) where
  -- what is known where a token was written
  abbrev Generated : File → File → Bytes → Bytes → Bytes → Type 0
  Generated c v tok path raw =
      (path ≡ c.admin.token_file)
      × (raw ≡ tok ++ 10 ∷ [])
      × (v.admin.token ≡ tok)
      × (v.admin.token_file ≡ c.admin.token_file)
      × (is_empty c.admin.token_file ≡ false)

  generated :
      (c v : File) (bs path raw : Bytes)
      → ensure_admin_token (some bs) write c ≡ ok (v, (path, raw) ∷ [])
      → Generated c v (hex bs) path raw
  unfolding ensure_admin_token random_token
  generated c v bs path raw h =
      elim (Bool-cases (not (admin_enabled c) || not (is_blank c.admin.token))) [
        | inl e ↦ absurd (ground (arith, h, e))
        | inr e ↦ elim (Bool-cases (is_empty c.admin.token_file)) [
          | inl n ↦ absurd (ground (arith, h, e, n))
          | inr n ↦ elim (Bool-cases (write c.admin.token_file (hex bs ++ 10 ∷ []))) [
            | inl w ↦ ground (arith, h, e, n, w)
            | inr w ↦ absurd (ground (arith, h, e, n, w))
          ]
        ]
      ]

  -- An admin token that ensureAdminToken generates of random bytes and writes to a file is the
  -- one that loadToken takes from that file, if reading gives back what was written.
  pub admin_token-ensure_admin_token :
      (sys : System) (c v : File) (b : ℕ) (bs : Bytes) (path raw : Bytes)
      → IsBytes (b ∷ bs)
      → ensure_admin_token (some (b ∷ bs)) write c ≡ ok (v, (path, raw) ∷ [])
      → sys.read_file path ≡ contents raw
      → (path ≡ v.admin.token_file) × (admin_token sys v.admin ≡ ok v.admin.token)
  unfolding admin_token
  admin_token-ensure_admin_token sys c v b bs path raw hb made reads =
      let (p, r, t, f, n) = generated c v (b ∷ bs) path raw made in
      let line : trim_space raw ≡ hex (b ∷ bs) = rw r (hex_line b bs hb) in
      let full = hex_full b bs in (p ∙ sym f, ground (arith, reads, p, f, n, t, line, full))

-- A positive cap, and positive timeouts, whatever the file says.
pub defaults_positive :
    (c : File)
    → (is_positive (max_sessions_or_default c) ≡ true)
      × (is_positive (udp_idle_or_default c) ≡ true)
      × (is_positive (dial_or_default c) ≡ true)
      × (is_positive (shutdown_or_default c) ≡ true)
defaults_positive c = ground arith

module _ (sys : System) (abs_path : Bytes → Option Bytes) (unmarshal : Bytes → Option File)
    (to_lower : Bytes → Bytes) (runes : Bytes → List Bytes) (is_word : Bytes → Bool)
    (is_loopback : Bytes → Bool) where
  checked_edge_valid :
      (c v : File) (before written : Written)
      → checked_edge to_lower is_loopback (c, before) ≡ ok (v, written)
      → (edge_valid is_loopback v && routes_valid to_lower v) ≡ true
  checked_edge_valid c v before written h =
      elim (Result-cases (validate_edge to_lower is_loopback c)) [
        | inl p ↦
            let (u, e) = p in
            let same : u ≡ v = ground (arith, h, e) in
            let spelled = validate_edge-eq-ok to_lower is_loopback c u e in
            rw (← same, spelled) (ground (arith, e, validate_edge_lem to_lower is_loopback c))
        | inr p ↦ let (why, e) = p in absurd (ground (arith, h, e))
      ]

  -- A configuration that LoadEdge returns satisfies the description of an Edge's fields and of
  -- its routes, whatever the files, the environment and the random source give.
  pub load_edge_valid :
      (random_bytes : Option Bytes) (write : Bytes → Bytes → Bool) (path : Bytes) (v : File)
      (written : Written)
      → load_edge sys abs_path unmarshal to_lower runes is_word is_loopback random_bytes write path
        ≡ ok (v, written)
      → (edge_valid is_loopback v && routes_valid to_lower v) ≡ true
  unfolding load_edge
  load_edge_valid random_bytes write path v written h =
      let (both, made, passed) = >>=-eq-ok _ (checked_edge to_lower is_loopback) h in
      let (c, before) = both in checked_edge_valid c v before written passed
