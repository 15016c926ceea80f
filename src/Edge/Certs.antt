-- ===== src/Edge/Certs.antt =====
-- internal/edge/http.go: which certificate a TLS address presents. A certificate is a number;
-- `load_pair` is tls.LoadX509KeyPair, and `edge_cert` what tlsutil.LoadOrGenerate gives.
use mathlib.Core.Path.{subst}
use faketunnel.Base.{
  ℕ, ◌≡◌, refl, ap, ◌∙◌, inl, inr, Bool, false, not, ◌&&◌, Option, none, some, List, [], ◌∷◌, arith,
  if◌then◌else◌, Bool-cases, Option-cases, Result, ok, err, ◌>>=◌, Result-cases, Bytes, text_eq,
  text_eq_iff,
}
use faketunnel.Base.Maps.{lookup, insert, lookup-insert, NoDup}
use faketunnel.Config.File.{Tunnel, is_empty}
use faketunnel.Proxy.Host.{normalize_host}

pub record Certs : Type 0 where
  pub by_host : List (Bytes × ℕ)
  pub fallback : Option ℕ

-- a certificate for a host, or for every other name
abbrev set_cert : Bytes → ℕ → Certs → Certs
set_cert host cert c =
    if is_empty host
    then record c { fallback = some cert }
    else record c { by_host = insert host cert c.by_host }

abbrev has_own_pair : Tunnel → Bool
has_own_pair t = not (is_empty t.cert) && not (is_empty t.key)

set_cert_lem :
    (host : Bytes) (cert : ℕ) (c : Certs) (key : Bytes)
    → is_empty key ≡ false
    → lookup key (set_cert host cert c).by_host
      ≡ (if text_eq host key then some cert else lookup key c.by_host)
set_cert_lem host cert c key hk = elim (Bool-cases (is_empty host)) [
  | inl e ↦ ground (arith, hk, e, text_eq_iff host key)
  | inr e ↦ ground (arith, e, lookup-insert host key cert c.by_host)
]

-- GetCertificate
unfoldable pub get_certificate : (Bytes → Bytes) → Certs → Bytes → Option ℕ
get_certificate to_lower c server_name =
    elim (lookup (normalize_host to_lower server_name) c.by_host) [
      | some cert ↦ some cert
      | none ↦ c.fallback
    ]

module _ (load_pair : Bytes → Bytes → Option ℕ) (edge_cert : ℕ) where
  -- one round of the loop over the hosts; the error is the tunnel's name
  unfoldable pub load_cert : Bytes → Tunnel → Certs → Result Bytes Certs
  load_cert host t c =
      if t.passthrough
      then ok c
      else if has_own_pair t
      then elim (load_pair t.cert t.key) [
        | none ↦ err t.name
        | some cert ↦ ok (set_cert host cert c)
      ]
      else if is_empty host
      then ok c
      else ok (set_cert host edge_cert c)

  unfoldable pub load_certs : List (Bytes × Tunnel) → Certs → Result Bytes Certs
  load_certs [] c = ok c
  load_certs ((host, t) ∷ rest) c = load_cert host t c >>= (λ d. load_certs rest d)

  abbrev pub load_http_certs : List (Bytes × Tunnel) → Result Bytes Certs
  load_http_certs hosts = load_certs hosts (record { by_host = []; fallback = some edge_cert })

  -- the certificate that a tunnel asks for, where Edge terminates its TLS
  unfoldable pub cert_of : Tunnel → Option ℕ
  cert_of t =
      if t.passthrough
      then none
      else if has_own_pair t
      then load_pair t.cert t.key
      else some edge_cert

  abbrev cert_at : Option Tunnel → Option ℕ → Option ℕ
  cert_at none before = before
  cert_at (some t) before = elim (cert_of t) [ none ↦ before | some cert ↦ some cert ]

  load_cert_lem :
      (host : Bytes) (t : Tunnel) (c d : Certs) (key : Bytes)
      → is_empty key ≡ false
      → load_cert host t c ≡ ok d
      → lookup key d.by_host ≡ (
          if text_eq host key
          then cert_at (some t) (lookup key c.by_host)
          else lookup key c.by_host)
  unfolding load_cert cert_of
  load_cert_lem host t c d key hk h = elim (Bool-cases t.passthrough) [
    | inl e ↦ ground (arith, h, e)
    | inr e ↦ elim (Bool-cases (has_own_pair t)) [
      | inl own ↦ elim (Option-cases (load_pair t.cert t.key)) [
        | inl f ↦ absurd (ground (arith, h, e, own, f))
        | inr p ↦
            let (cert, f) = p in
            let same : d ≡ set_cert host cert c = ground (arith, h, e, own, f) in
            ap (λ x. lookup key x.by_host) same
            ∙ (set_cert_lem host cert c key hk ∙ ground (arith, e, own, f))
      ]
      | inr none_own ↦ elim (Bool-cases (is_empty host)) [
        | inl f ↦ ground (arith, h, e, none_own, f, hk, text_eq_iff host key)
        | inr f ↦
            let same : d ≡ set_cert host edge_cert c = ground (arith, h, e, none_own, f) in
            ap (λ x. lookup key x.by_host) same
            ∙ (set_cert_lem host edge_cert c key hk ∙ ground (arith, e, none_own))
      ]
    ]
  ]

  load_certs_lem :
      (hosts : List (Bytes × Tunnel)) (c d : Certs) (key : Bytes)
      → is_empty key ≡ false
      → NoDup hosts
      → load_certs hosts c ≡ ok d
      → lookup key d.by_host ≡ cert_at (lookup key hosts) (lookup key c.by_host)
  unfolding load_certs lookup
  load_certs_lem [] c d key hk u h = ground (arith, h)
  load_certs_lem ((host, t) ∷ rest) c d key hk u h = elim (Result-cases (load_cert host t c)) [
    | inr p ↦ let (why, e) = p in absurd (ground (arith, h, e))
    | inl p ↦
        let (m, e) = p in
        let later = load_certs_lem rest m d key hk u.1 (ground (arith, h, e)) in
        let first = load_cert_lem host t c m key hk e in
        elim (Bool-cases (text_eq host key)) [
          | inl k ↦
              let alone : lookup key rest ≡ none =
                subst (λ x. lookup x rest ≡ none) ((text_eq_iff host key).0 k) u.0 in
              ground (arith, later, first, k, alone)
          | inr k ↦ ground (arith, later, first, k)
        ]
  ]

  -- Where the certificates load, a server name that a tunnel of the address is named for, and
  -- that tunnel ends TLS itself, gets the tunnel's own certificate if it names a pair, and
  -- Edge's otherwise.
  pub get_certificate-load_http_certs :
      (to_lower : Bytes → Bytes) (hosts : List (Bytes × Tunnel)) (c : Certs) (t : Tunnel) (cert : ℕ)
      (server_name : Bytes)
      → NoDup hosts
      → load_http_certs hosts ≡ ok c
      → is_empty (normalize_host to_lower server_name) ≡ false
      → lookup (normalize_host to_lower server_name) hosts ≡ some t
      → cert_of t ≡ some cert
      → get_certificate to_lower c server_name ≡ some cert
  unfolding get_certificate
  get_certificate-load_http_certs to_lower hosts c t cert server_name u h hk found asks =
      let key = normalize_host to_lower server_name in
      let start : Certs = record { by_host = []; fallback = some edge_cert } in
      let loaded = load_certs_lem hosts start c key hk u h in
      let nothing : lookup {V = ℕ} key [] ≡ none = unfold lookup in refl in
      ground (arith, loaded, nothing, found, asks)
