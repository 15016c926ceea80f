-- ===== src/Config/Addr/Idempotent.antt =====
-- internal/config/defaults.go: expanding an address a second time changes nothing, so that it does
-- no harm that applyCommon and the defaults of a role both do it.
use faketunnel.Base.{
  ℕ, ◌+◌, ◌-◌, ◌*◌, ◌≡◌, refl, sym, ap, ◌∙◌, ◌≢◌, inl, inr, Bool, true, false, not, ◌&&◌, ◌||◌,
  none, some, [], ◌∷◌, ◌++◌, arith, ◌==◌, Bool-cases, length, Bytes, text,
}
use faketunnel.Base.Spaces.{trim_space, trim_space_idem}
use faketunnel.Base.Spaces.Ends.{is_plain, Ascii, trim_space_behind}
use faketunnel.Base.Scan.{has_byte, has_prefix, has_byte-append}
use faketunnel.Net.HostPort.{HasNo, split_host_port, split_host_port-join_host_port}
use faketunnel.Config.File.{is_empty}
use faketunnel.Config.Addr.{
  digits_number, is_port, loopback, default_tunnel_port, expand_addr, expand_edge_addr,
  expand_admin_listen,
}

not_digits : (acc : ℕ) (s : Bytes) → has_byte 58 s ≡ true → digits_number acc s ≡ none
unfolding has_byte
not_digits acc [] h = absurd (ground (arith, h))
not_digits acc (d ∷ s) h = ground (arith, h, not_digits (acc * 10 + (d - 48)) s)

-- an address with a colon is no port
pub is_port_colon : (s : Bytes) → has_byte 58 s ≡ true → is_port s ≡ false
unfolding is_port has_byte
is_port_colon [] h = absurd (ground (arith, h))
is_port_colon (b ∷ s) h = ground (arith, h, not_digits 0 s, not_digits 0 (b ∷ s))

nonempty : (s : Bytes) → is_empty s ≡ false → length s ≢ 0
nonempty s h e = ground (arith, h, e)

-- what a text becomes behind a host
behind :
    (b : ℕ) (p s : Bytes)
    → is_plain b ≡ true
    → Ascii p
    → is_empty (trim_space s) ≡ false
    → trim_space (b ∷ p ++ trim_space s) ≡ b ∷ p ++ trim_space s
behind b p s hb hp h = trim_space_behind b p s hb hp (nonempty (trim_space s) h)

-- a trimmed text that is no port, or none at all, stays
addr_fixed :
    (r : Bytes) (local_target : Bool)
    → trim_space r ≡ r
    → (is_port r && not (is_empty r)) ≡ false
    → expand_addr r local_target ≡ r
unfolding expand_addr
addr_fixed r local_target t p = ground (arith, t, p)

admin_fixed :
    (r : Bytes)
    → trim_space r ≡ r
    → is_port r ≡ false
    → has_prefix r (58 ∷ []) ≡ false
    → expand_admin_listen r ≡ r
unfolding expand_admin_listen
admin_fixed r t p c = ground (arith, t, p, c)

twice : {A : Type 0} (f : A → A) (x y : A) → f x ≡ y → f y ≡ y → f (f x) ≡ f x
twice f x y once fixed = ap f once ∙ (fixed ∙ sym once)

-- the loopback address in front of a port, or of a colon and a port
loopback_trim :
    (s : Bytes)
    → is_empty (trim_space s) ≡ false
    → (trim_space (loopback ++ 58 ∷ trim_space s) ≡ loopback ++ 58 ∷ trim_space s)
      × (trim_space (loopback ++ trim_space s) ≡ loopback ++ trim_space s)
loopback_trim s h = (
  behind 49 (text "27.0.0.1:") s refl (ground arith) h,
  behind 49 (text "27.0.0.1") s refl (ground arith) h,
)

-- ExpandAddr is idempotent.
pub expand_addr_idem :
    (s : Bytes) (local_target : Bool)
    → expand_addr (expand_addr s local_target) local_target ≡ expand_addr s local_target
unfolding expand_addr
expand_addr_idem s local_target =
    let idem = trim_space_idem s in
    elim (Bool-cases (is_port (trim_space s) && not (is_empty (trim_space s)))) [
      | inr p ↦
          twice (λ r. expand_addr r local_target) s (trim_space s) (ground (arith, p))
            (addr_fixed (trim_space s) local_target idem p)
      | inl p ↦ elim (Bool-cases local_target) [
        | inl l ↦
            twice (λ r. expand_addr r local_target) s (loopback ++ 58 ∷ trim_space s)
              (ground (arith, p, l))
              (addr_fixed (loopback ++ 58 ∷ trim_space s) local_target
                (loopback_trim s (ground (arith, p))).0
                (ground
                  (arith, is_port_colon (loopback ++ 58 ∷ trim_space s) (unfold has_byte in refl))))
        | inr l ↦
            twice (λ r. expand_addr r local_target) s (58 ∷ trim_space s) (ground (arith, p, l))
              (addr_fixed (58 ∷ trim_space s) local_target
                (behind 58 [] s refl tt (ground (arith, p)))
                (ground (arith, is_port_colon (58 ∷ trim_space s) (unfold has_byte in refl))))
      ]
    ]

prefix_byte : (t : Bytes) → has_prefix t (58 ∷ []) ≡ true → has_byte 58 t ≡ true
unfolding has_byte
prefix_byte [] h = absurd (ground (arith, h))
prefix_byte (b ∷ t) h = ground (arith, h)

-- ExpandAdminListen is idempotent.
pub expand_admin_listen_idem :
    (s : Bytes) → expand_admin_listen (expand_admin_listen s) ≡ expand_admin_listen s
unfolding expand_admin_listen
expand_admin_listen_idem s =
    let t = trim_space s in
    let idem = trim_space_idem s in
    elim (Bool-cases (is_empty t)) [
      | inl e ↦ twice expand_admin_listen s t (ground (arith, e)) (ground (arith, e, idem))
      | inr e ↦ elim (Bool-cases (is_port t)) [
        | inl p ↦ twice expand_admin_listen s (loopback ++ 58 ∷ t) (ground (arith, e, p)) (
            admin_fixed (loopback ++ 58 ∷ t) (loopback_trim s e).0
              (is_port_colon (loopback ++ 58 ∷ t) (unfold has_byte in refl)) refl)
        | inr p ↦ elim (Bool-cases (has_prefix t (58 ∷ []))) [
          | inl c ↦ twice expand_admin_listen s (loopback ++ t) (ground (arith, e, p, c)) (
              admin_fixed (loopback ++ t) (loopback_trim s e).1
                (is_port_colon (loopback ++ t)
                  (ground (arith, has_byte-append 58 loopback t, prefix_byte t c)))
                refl)
          | inr c ↦ twice expand_admin_listen s t (ground (arith, e, p, c)) (admin_fixed t idem p c)
        ]
      ]
    ]

-- What ExpandEdgeAddr gives for an address that has no port splits into that address and the
-- default port, an IPv6 address included, if it has no bracket.
pub split_host_port-expand_edge_addr :
    (s : Bytes)
    → is_empty (trim_space s) ≡ false
    → is_port (trim_space s) ≡ false
    → has_prefix (trim_space s) (58 ∷ []) ≡ false
    → split_host_port (trim_space s) ≡ none
    → HasNo 91 (trim_space s)
    → HasNo 93 (trim_space s)
    → split_host_port (expand_edge_addr s) ≡ some (trim_space s, default_tunnel_port)
unfolding expand_edge_addr
split_host_port-expand_edge_addr s e p c d h k =
    let none_in : (b : ℕ)
        → has_byte b default_tunnel_port
          ≡ (56 == b || (52 == b || (52 == b || (51 == b || false)))) =
      λ b. unfold has_byte in refl in
    let joined =
      split_host_port-join_host_port (trim_space s) default_tunnel_port h k (none_in 58)
        (none_in 91) (none_in 93) in
    ground (arith, e, p, c, d, joined)
