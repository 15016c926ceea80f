-- ===== src/Admin/Auth.antt =====
-- internal/admin/server.go: who may call the API, and what a wrong token costs.
-- `ip_string` is IP.String.
use Prim.Native.Nat.{bit_or, bit_xor}
use faketunnel.Base.Bits.{xor_lem, or_lem}
use faketunnel.Base.{
  ℕ, ◌<◌, ◌≡◌, sym, ap, ◌∙◌, inl, inr, Bool, true, false, not, ◌&&◌, ◌||◌, Option, none, some, [],
  ◌∷◌, arith, ◌==◌, if◌then◌else◌, Bool-cases, length, drop, Bytes, IsBytes, text, text_eq,
  text_eq_iff,
}
use faketunnel.Base.Spaces.{trim_space, trim_space_idem}
use faketunnel.Base.Scan.{has_prefix}
use faketunnel.Config.File.{is_empty}
use faketunnel.Net.{Ip}
use faketunnel.Ban.Store as Bans
use faketunnel.Ban.Methods.{blocked, observe_invalid}

-- the differences of all bytes, or-ed together
unfoldable pub differences : ℕ → Bytes → Bytes → ℕ
differences v (x ∷ a) (y ∷ b) = differences (bit_or v (bit_xor x y)) a b
differences v _ _ = v

unfoldable pub subtle_equal : Bytes → Bytes → Bool
subtle_equal a b = if not (length a == length b) then false else differences 0 a b == 0

abbrev pub bearer : Bytes
bearer = text "Bearer "

unfoldable pub bearer_ok : Bytes → Bytes → Bool
bearer_ok hdr token =
    if has_prefix hdr bearer
    then (let got = trim_space (drop (length bearer) hdr) in
        if is_empty got || is_empty token then false else subtle_equal got token)
    else false

pub data Verdict : Type 0 where
  pass forbidden unauthorized : Verdict

module _ (ip_string : Ip → Bytes) (token : Bytes) where
  abbrev refuse : Ip → ℕ → Bool → Option Bans.Store → Option Bans.Store × Verdict
  refuse ip now writable none = (none, unauthorized)
  refuse ip now writable (some bans) =
      if blocked ip_string ip now bans
      then (some bans, forbidden)
      else (some (observe_invalid ip_string ip (text "admin") now writable bans), unauthorized)

  -- `hdr` is the Authorization header
  unfoldable pub auth : Bytes → Ip → ℕ → Bool → Option Bans.Store → Option Bans.Store × Verdict
  auth hdr ip now writable bans =
      if bearer_ok hdr token then (bans, pass) else refuse ip now writable bans

differences_lem :
    (v : ℕ) (a b : Bytes)
    → v < 256
    → IsBytes a
    → IsBytes b
    → length a ≡ length b
    → (differences v a b == 0) ≡ ((v == 0) && text_eq a b)
unfolding differences text_eq
differences_lem v [] [] hv ha hb same = ground (arith)
differences_lem v [] (y ∷ b) hv ha hb same = absurd (omega (arith, same))
differences_lem v (x ∷ a) [] hv ha hb same = absurd (omega (arith, same))
differences_lem v (x ∷ a) (y ∷ b) hv ha hb same =
    let xors = xor_lem x y ha.0 hb.0 in
    let small : bit_xor x y < 256 = ground (arith, xors) in
    let ors = or_lem v (bit_xor x y) hv small in
    let rest =
      differences_lem (bit_or v (bit_xor x y)) a b (ground (arith, ors)) ha.1 hb.1
        (omega (arith, same)) in
    ground (arith, rest, ors, xors)

lengths_differ : (a b : Bytes) → (length a == length b) ≡ false → text_eq a b ≡ false
lengths_differ a b h = elim (Bool-cases (text_eq a b)) [
  | inr e ↦ e
  | inl e ↦ absurd (ground (arith, h, ap length ((text_eq_iff a b).0 e)))
]

-- subtleEqual is equality.
pub subtle_equal_lem : (a b : Bytes) → IsBytes a → IsBytes b → subtle_equal a b ≡ text_eq a b
unfolding subtle_equal
subtle_equal_lem a b ha hb = elim (Bool-cases (length a == length b)) [
  | inl e ↦ ground (arith, e, differences_lem 0 a b (omega arith) ha hb)
  | inr e ↦ ground (arith, e, lengths_differ a b e)
]

all_three : (a b c : Bool) → (a && (b && c)) ≡ true → c ≡ true
all_three a b c h = ground (arith, h)

empty_differs : (a b : Bytes) → is_empty a ≡ true → is_empty b ≡ false → text_eq a b ≡ false
empty_differs a b ha hb = lengths_differ a b (ground (arith, ha, hb))

-- On bytes, the API accepts an Authorization header exactly if it begins with the bearer prefix,
-- the token is not empty, and what follows the prefix, trimmed, is the token as configured.
pub bearer_ok_lem :
    (hdr token : Bytes)
    → IsBytes (trim_space (drop (length bearer) hdr))
    → IsBytes token
    → bearer_ok hdr token ≡ (
        has_prefix hdr bearer
        && (not (is_empty token) && text_eq (trim_space (drop (length bearer) hdr)) token))
unfolding bearer_ok
bearer_ok_lem hdr token hg ht =
    let got = trim_space (drop (length bearer) hdr) in
    elim (Bool-cases (has_prefix hdr bearer)) [
      | inr e ↦ rw (e, bearer_ok) (ground (arith, e))
      | inl e ↦
          rw (e, bearer_ok)
            (ground (arith, e, subtle_equal_lem got token hg ht, empty_differs got token))
    ]

pub bearer_ok-trim_space :
    (hdr token : Bytes)
    → IsBytes (trim_space (drop (length bearer) hdr))
    → IsBytes token
    → bearer_ok hdr token ≡ true
    → trim_space token ≡ token
bearer_ok-trim_space hdr token hg ht h =
    let got = trim_space (drop (length bearer) hdr) in
    let same : got ≡ token =
      (text_eq_iff got token).0 (all_three _ _ _ (sym (bearer_ok_lem hdr token hg ht) ∙ h)) in
    ap trim_space (sym same) ∙ (trim_space_idem (drop (length bearer) hdr) ∙ same)
