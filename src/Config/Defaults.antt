-- ===== src/Config/Defaults.antt =====
-- internal/config/defaults.go: applyCommon, applyEdgeDefaults and applyAgentDefaults.
pub mod Names
use faketunnel.Base.{
  Bool, true, false, not, ◌&&◌, Option, none, some, List, [], ◌∷◌, if◌then◌else◌, Bytes, text,
}
use faketunnel.Base.Spaces.{trim_space}
use faketunnel.Base.Maps.{add}
use faketunnel.Net.HostPort.{split_host_port}
use faketunnel.Net.{Ip, is_loopback}
use faketunnel.Config.File.{
  File, Tunnel, Tls, Admin, is_blank, is_empty, admin_enabled, skip_verify,
}
use faketunnel.Config.Addr.{expand_addr, expand_edge_addr, expand_admin_listen, default_tunnel_port}
use faketunnel.Config.Naming.{name_for, infer_type, named}

abbrev pub default_listen : Bytes
default_listen = 58 ∷ default_tunnel_port

abbrev pub default_admin_listen : Bytes
default_admin_listen = text "127.0.0.1:9090"

-- The file system and the environment: filepath.Dir, filepath.Join, whether a path is a file, and
-- os.Getenv; os.ReadFile, with `missing` where the file does not exist.
pub data Reading : Type 0 where
  contents : Bytes → Reading
  missing failed : Reading

pub record System : Type 0 where
  pub dir_of : Bytes → Bytes
  pub join : Bytes → Bytes → Bytes
  pub is_file : Bytes → Bool
  pub get_env : Bytes → Bytes
  pub read_file : Bytes → Reading

-- `if strings.TrimSpace(s) != "" { s = expand(s) }`
abbrev unless_blank : (Bytes → Bytes) → Bytes → Bytes
unless_blank expand s = if is_blank s then s else expand s

module _ (to_lower : Bytes → Bytes) (runes : Bytes → List Bytes) (is_word : Bytes → Bool) where
  -- the addresses and the type, before the name
  abbrev pub prepared : Tunnel → Tunnel
  prepared t =
      infer_type to_lower
        (record t { public = expand_addr t.public false; local = expand_addr t.local true })

  -- the loop of applyCommon
  unfoldable pub fill_tunnels : List Bytes → List Tunnel → List Tunnel
  fill_tunnels used [] = []
  fill_tunnels used (t ∷ ts) =
      named to_lower runes is_word used (prepared t)
      ∷ fill_tunnels (add (name_for to_lower runes is_word used (prepared t)) used) ts

  module _ (sys : System) where
    abbrev token_candidate : File → Bytes
    token_candidate c = sys.join (sys.dir_of c.path) (text "token")

    abbrev has_candidate : File → Bool
    has_candidate c =
        (is_blank c.token && is_empty c.token_file)
        && (not (is_empty c.path) && sys.is_file (token_candidate c))

    unfoldable pub apply_common : File → File
    apply_common c = record c {
      listen = unless_blank (λ s. expand_addr s false) c.listen;
      edge = unless_blank expand_edge_addr c.edge;
      admin = record c.admin { listen = unless_blank expand_admin_listen c.admin.listen };
      token_file = if has_candidate c then token_candidate c else c.token_file;
      tunnels = fill_tunnels [] c.tunnels;
    }

module _ (sys : System) where
  abbrev config_dir : File → Bytes
  config_dir c = if is_empty c.path then [] else sys.dir_of c.path

  abbrev is_off : Option Bool → Bool
  is_off none = false
  is_off (some b) = not b

  abbrev admin_listen : Admin → Bytes
  admin_listen a =
      if is_off a.enable
      then []
      else if is_blank a.listen
      then default_admin_listen
      else expand_admin_listen a.listen

  -- a default file beside the configuration, where that has a directory
  abbrev beside : Bytes → Bool → Bytes → Bytes → Bytes
  beside dir wanted name s = if wanted && not (is_empty dir) then sys.join dir name else s

  abbrev lacks_token : File → Bool
  lacks_token c = admin_enabled c && (is_blank c.admin.token && is_empty c.admin.token_file)

  abbrev admin_defaults : Bytes → File → Admin
  admin_defaults dir c = record c.admin {
    token_file = beside dir (lacks_token c) (text "admin.token") c.admin.token_file;
  }

  abbrev tls_defaults : Bytes → Tls → Tls
  tls_defaults dir t =
      if is_empty t.cert && is_empty t.key
      then (if is_empty dir then record t { auto_self_signed = true } else record t {
        auto_self_signed = true;
        cert = sys.join (sys.join dir (text "certs")) (text "edge.crt");
        key = sys.join (sys.join dir (text "certs")) (text "edge.key");
      })
      else t

  abbrev with_listens : File → File
  with_listens c = record c {
    listen = if is_blank c.listen then default_listen else expand_addr c.listen false;
    admin = record c.admin { listen = admin_listen c.admin };
  }

  unfoldable pub apply_edge_defaults : File → File
  apply_edge_defaults given =
      let dir = config_dir given in
      let c = with_listens given in
      record c {
        admin = admin_defaults dir c;
        allowlist_file =
            beside dir (is_blank c.allowlist_file) (text "allowlist.json") c.allowlist_file;
        denylist_file =
            beside dir (is_blank c.denylist_file) (text "denylist.json") c.denylist_file;
        tls = tls_defaults dir c.tls;
      }

module _ (parse_ip : Bytes → Option Ip) where
  abbrev name_of_address : File → Bytes → Bytes
  name_of_address c host = elim (parse_ip host) [
    | none ↦ host
    | some ip ↦
        if is_loopback ip then text "localhost" else if skip_verify c then [] else text "localhost"
  ]

  -- the name that the certificate of Edge is checked for
  unfoldable pub server_name_of : File → Bytes
  server_name_of c =
      if not (is_blank c.tls.server_name)
      then c.tls.server_name
      else elim (split_host_port (trim_space c.edge)) [
        | none ↦ text "localhost"
        | some (host, _) ↦ if is_empty host then text "localhost" else name_of_address c host
      ]

  unfoldable pub apply_agent_defaults : File → File
  apply_agent_defaults given =
      let c = record given { edge = unless_blank expand_edge_addr given.edge } in
      record c { tls = record c.tls { server_name = server_name_of c } }
