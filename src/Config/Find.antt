-- ===== src/Config/Find.antt =====
-- internal/config/find.go: where a configuration and an admin token are looked for.
use faketunnel.Base.{◌≡◌, true, false, List, [], ◌∷◌, ◌++◌, arith, if◌then◌else◌, Bytes, text}
use faketunnel.Base.Spaces.{trim_space}
use faketunnel.Config.File.{is_empty, is_blank}
use faketunnel.Config.Defaults.{System, contents, missing, failed}

abbrev admin_token_name : Bytes
admin_token_name = text "admin.token"

module _ (sys : System) where
  -- the first path that is a file, or no text
  unfoldable pub first_file : List Bytes → Bytes
  first_file [] = []
  first_file (p ∷ ps) = let rest = first_file ps in if sys.is_file p then p else rest

  abbrev pub candidates : Bytes → List Bytes
  candidates role =
      (role ++ text ".yaml")
      ∷ sys.join (text "configs") (role ++ text ".yaml")
      ∷ (role ++ text ".yml")
      ∷ sys.join (text "configs") (role ++ text ".yml")
      ∷ sys.join (text "/opt/faketunnel/configs") (role ++ text ".yaml")
      ∷ sys.join (text "/etc/faketunnel") (role ++ text ".yaml")
      ∷ []

  unfoldable pub find : Bytes → Bytes
  find role =
      let named = trim_space (sys.get_env (text "FAKETUNNEL_CONFIG")) in
      if is_empty named then first_file (candidates role) else named

  -- the first file that has a token
  unfoldable pub first_token : List Bytes → Bytes
  first_token [] = []
  first_token (p ∷ ps) =
      let rest = first_token ps in
      elim (sys.read_file p) [
        | missing ↦ rest
        | failed ↦ rest
        | contents raw ↦ if is_blank raw then rest else trim_space raw
      ]

  abbrev beside_config : List Bytes
  beside_config =
      let config = trim_space (sys.get_env (text "FAKETUNNEL_CONFIG")) in
      if is_empty config then [] else sys.join (sys.dir_of config) admin_token_name ∷ []

  abbrev pub token_paths : List Bytes
  token_paths =
      beside_config
      ++ admin_token_name
        ∷ sys.join (text "configs") admin_token_name
        ∷ (text "/opt/faketunnel/configs/" ++ admin_token_name)
        ∷ (text "/etc/faketunnel/" ++ admin_token_name)
        ∷ []

  unfoldable pub discover_admin_token : Bytes
  discover_admin_token =
      let given = trim_space (sys.get_env (text "FAKETUNNEL_TOKEN")) in
      if is_empty given then first_token token_paths else given

  -- With no token in the environment, that of a file beside the named configuration is found.
  discover_beside_config :
      (config raw : Bytes)
      → is_blank (sys.get_env (text "FAKETUNNEL_TOKEN")) ≡ true
      → trim_space (sys.get_env (text "FAKETUNNEL_CONFIG")) ≡ config
      → is_empty config ≡ false
      → sys.read_file (sys.join (sys.dir_of config) admin_token_name) ≡ contents raw
      → is_blank raw ≡ false
      → discover_admin_token ≡ trim_space raw
  unfolding discover_admin_token first_token
  discover_beside_config config raw unset at full found token =
      ground (arith, unset, at, full, found, token)
