-- ===== src/Config/Load.antt =====
-- internal/config/config.go and secret.go: from a path to a configuration in force.
pub mod Promises
use faketunnel.Base.{
  ℕ, ◌+◌, ◌/◌, ◌%◌, Bool, not, ◌&&◌, ◌||◌, Option, none, some, List, [], ◌∷◌, ◌++◌, map, ltb,
  if◌then◌else◌, Result, ok, err, ◌>>=◌, Bytes, text,
}
use faketunnel.Base.Spaces.{trim_space}
use faketunnel.Base.Scan.{has_prefix}
use faketunnel.Net.{Ip}
use faketunnel.Config.File.{File, Tunnel, Admin, is_blank, is_empty, admin_enabled}
use faketunnel.Config.Defaults.{
  System, contents, missing, failed, apply_common, apply_edge_defaults, apply_agent_defaults,
}
use faketunnel.Config.Validate as Validate
use faketunnel.Config.Validate.{validate, validate_edge, validate_agent}

pub data Error : Type 0 where
  abs_failed read_failed parse_failed : Error
  token_file_failed token_file_empty admin_file_failed admin_file_empty : Error
  no_admin_token random_failed write_failed : Error
  invalid : Validate.Error → Error

abbrev hex_digit : ℕ → ℕ
hex_digit d = if ltb d 10 then 48 + d else 87 + d

-- hex.EncodeToString
unfoldable pub hex : Bytes → Bytes
hex [] = []
hex (b ∷ bs) = hex_digit (b / 16) ∷ hex_digit (b % 16) ∷ hex bs

-- filepath.IsAbs
abbrev is_abs : Bytes → Bool
is_abs p = has_prefix p (text "/")

-- a secret written to a file: the path, and the bytes
abbrev pub Written : Type 0
Written = List (Bytes × Bytes)

-- `random_bytes` are the 32 bytes of rand.Read, and `write` is whether MkdirAll and WriteFile do.
module _ (sys : System) where
  abbrev resolve : Bytes → Bytes → Bytes
  resolve base p = if is_empty p || is_abs p then p else sys.join base p

  abbrev resolve_tunnel : Bytes → Tunnel → Tunnel
  resolve_tunnel base t = record t { cert = resolve base t.cert; key = resolve base t.key }

  unfoldable pub resolve_paths : Bytes → File → File
  resolve_paths base c = record c {
    token_file = resolve base c.token_file;
    allowlist_file = resolve base c.allowlist_file;
    denylist_file = resolve base c.denylist_file;
    admin = record c.admin { token_file = resolve base c.admin.token_file };
    tls = record c.tls {
      cert = resolve base c.tls.cert;
      key = resolve base c.tls.key;
      ca = resolve base c.tls.ca;
    };
    tunnels = map (resolve_tunnel base) c.tunnels;
  }

  -- a token from the environment, where the file has none
  abbrev env_token : Bytes → Bytes → Bytes → Bytes
  env_token variable token token_file =
      let tok = trim_space (sys.get_env variable) in
      if not (is_empty tok) && (is_blank token && is_empty token_file) then tok else token

  -- a token read from a file
  abbrev nonblank : Error → Bytes → Result Error Bytes
  nonblank why raw = let tok = trim_space raw in if is_empty tok then err why else ok tok

  unfoldable pub tunnel_token : File → Result Error Bytes
  tunnel_token c =
      if is_empty c.token_file
      then ok (env_token (text "FAKETUNNEL_TUNNEL_TOKEN") c.token c.token_file)
      else elim (sys.read_file c.token_file) [
        | contents raw ↦ nonblank token_file_empty raw
        | missing ↦ err token_file_failed
        | failed ↦ err token_file_failed
      ]

  unfoldable pub admin_token : Admin → Result Error Bytes
  admin_token a =
      if is_empty a.token_file
      then ok (env_token (text "FAKETUNNEL_ADMIN_TOKEN") a.token a.token_file)
      else elim (sys.read_file a.token_file) [
        | contents raw ↦ nonblank admin_file_empty raw
        | missing ↦ ok a.token
        | failed ↦ err admin_file_failed
      ]

  abbrev with_tokens : File → Bytes → Bytes → File
  with_tokens c tok admin_tok = record c {
    token = tok;
    admin = record c.admin { token = admin_tok };
  }

  unfoldable pub load_token : File → Result Error File
  load_token c =
      tunnel_token c
      >>= (λ tok. admin_token c.admin >>= (λ admin_tok. ok (with_tokens c tok admin_tok)))

module _ (random_bytes : Option Bytes) (write : Bytes → Bytes → Bool) where
  unfoldable pub random_token : Option Bytes
  random_token = elim random_bytes [ none ↦ none | some bs ↦ some (hex bs) ]

  abbrev pub write_secret_file : Bytes → Bytes → Result Error Written
  write_secret_file path secret =
      let line = secret ++ 10 ∷ [] in
      if write path line then ok ((path, line) ∷ []) else err write_failed

  abbrev generate : File → Bytes → Result Error (File × Written)
  generate c tok =
      write_secret_file c.admin.token_file tok
      >>= (λ written. ok (record c { admin = record c.admin { token = tok } }, written))

  unfoldable pub ensure_admin_token : File → Result Error (File × Written)
  ensure_admin_token c =
      if not (admin_enabled c) || not (is_blank c.admin.token)
      then ok (c, [])
      else if is_empty c.admin.token_file
      then err no_admin_token
      else elim random_token [ none ↦ err random_failed | some tok ↦ generate c tok ]

abbrev checked {ℓ} : {A : Type ℓ} → Result Validate.Error A → Result Error A
checked (ok a) = ok a
checked (err why) = err (invalid why)

module _ (to_lower : Bytes → Bytes) (is_loopback : Bytes → Bool) where
  abbrev checked_edge : File × Written → Result Error (File × Written)
  checked_edge (c, written) =
      checked (validate_edge to_lower is_loopback c) >>= (λ v. ok (v, written))

-- `abs_path` is filepath.Abs and `unmarshal` is yaml.Unmarshal into a File
module _ (sys : System) (abs_path : Bytes → Option Bytes) (unmarshal : Bytes → Option File)
    (to_lower : Bytes → Bytes) (runes : Bytes → List Bytes) (is_word : Bytes → Bool) where
  unfoldable pub load_yaml : Bytes → Result Error File
  load_yaml path = elim (abs_path path) [
    | none ↦ err abs_failed
    | some at_path ↦ elim (sys.read_file at_path) [
      | missing ↦ err read_failed
      | failed ↦ err read_failed
      | contents raw ↦ elim (unmarshal raw) [
        | none ↦ err parse_failed
        | some c ↦ ok (record c { path = at_path })
      ]
    ]
  ]

  abbrev in_place : File → File
  in_place c = resolve_paths sys (sys.dir_of c.path) c

  unfoldable pub load : Bytes → Result Error File
  load path =
      load_yaml path
      >>= (λ c. load_token sys (in_place (apply_common to_lower runes is_word sys c)))
      >>= (λ c. checked (validate to_lower c))

  unfoldable pub load_agent : (Bytes → Option Ip) → Bytes → Result Error File
  load_agent parse_ip path =
      load_yaml path
      >>= (λ c.
          load_token sys
            (in_place (apply_agent_defaults parse_ip (apply_common to_lower runes is_word sys c))))
      >>= (λ c. checked (validate_agent to_lower c))

  module _ (is_loopback : Bytes → Bool) (random_bytes : Option Bytes)
      (write : Bytes → Bytes → Bool) where
    unfoldable pub load_edge : Bytes → Result Error (File × Written)
    load_edge path =
        load_yaml path
        >>= (λ c.
            load_token sys
              (in_place (apply_edge_defaults sys (apply_common to_lower runes is_word sys c))))
        >>= ensure_admin_token random_bytes write
        >>= checked_edge to_lower is_loopback
