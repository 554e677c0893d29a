-- ===== src/Oci/Keychain.antt =====
-- oci/fetch/api/auth_lookup_keychain.go: the credentials for a registry.
use step_runner.Common.{
  String, Bool, Option, none, some, List, [], ◌∷◌, str_eq, Result, ok, wrapping, ◌>>=◌, ◌&&◌,
  if◌then◌else◌,
}

-- types.AuthConfig, as far as it is used
pub record AuthConfig : Type 0 where
  pub username : String
  pub password : String
  pub auth : String
  pub identity_token : String
  pub registry_token : String
  -- the fields of the file that are not passed on: email and server address
  pub others : String

abbrev pub is_empty_config : AuthConfig → Bool
is_empty_config c =
    str_eq c.username ""
    && str_eq c.password ""
    && str_eq c.auth ""
    && str_eq c.identity_token ""
    && str_eq c.registry_token ""
    && str_eq c.others ""

-- authn.Authenticator: anonymous, or of a configuration
pub data Authenticator : Type 0 where
  anonymous : Authenticator
  from_config : AuthConfig → Authenticator

-- authn.Resource
pub record Target : Type 0 where
  pub full : String
  pub registry : String

-- config.LoadFromReader, and GetAuthConfig of what it reads
pub record ConfigFiles : Type 1 where
  pub ConfigFile : Type 0
  pub load : String → Result ConfigFile
  pub get_auth_config : ConfigFile → String → Result AuthConfig

module _ (configs : ConfigFiles) where
  -- the loop of authConfig over the keys
  unfoldable pub auth_config_of : configs.ConfigFile → List String → Result (Option AuthConfig)
  auth_config_of file [] = ok none
  auth_config_of file (key ∷ keys) =
      let rest = auth_config_of file keys in
      wrapping "getting auth config for %s: %w" (key ∷ []) (configs.get_auth_config file key)
      >>= λ cfg. if is_empty_config cfg then rest else ok (some (record cfg { others = "" }))

  -- authConfig
  unfoldable pub auth_config : Target → configs.ConfigFile → Result (Option AuthConfig)
  unfolding auth_config_of
  auth_config target file = auth_config_of file (target.full ∷ target.registry ∷ [])

  abbrev pub authenticator_of : Option AuthConfig → Authenticator
  authenticator_of none = anonymous
  authenticator_of (some cfg) = from_config cfg

  -- Resolve
  unfoldable pub resolve : (String → Option String) → Target → Result Authenticator
  unfolding auth_config
  resolve lookup_value target = elim (lookup_value "DOCKER_AUTH_CONFIG") [
    | none ↦ ok anonymous
    | some text ↦
        if str_eq text ""
        then ok anonymous
        else (wrapping "resolving OCI registry authentication: %w" [] (configs.load text)
            >>= λ file.
                wrapping "resolving OCI registry authentication: %w" [] (auth_config target file)
                >>= λ cfg. ok (authenticator_of cfg))
  ]
