-- ===== src/Settings.antt =====
-- app/settings.py: the settings of the service, read from the environment.
pub mod Texts
pub mod Csv
pub mod Cache
pub mod Configured
use gotfr_sec.Prelude.{
  Bool, true, false, ◌&&◌, ◌||◌, Option, none, some, List, [], ◌∷◌, ◌++◌, contains, not,
  if◌then◌else◌,
}
use gotfr_sec.Prelude.Int.{ℤ}
use gotfr_sec.Prelude.Text.{Text, text, text_eq, truthy, strip, or_else, lower}
use gotfr_sec.Domain.Errors.{Result, ok, err, value_error}
use gotfr_sec.Repositories.Interfaces.{Call}
use gotfr_sec.Repositories.Calls.{done, raising, ◌>>=◌, ◌>>◌}
use gotfr_sec.Settings.Texts.{Unicode, upper, int}
use gotfr_sec.Settings.Csv.{split_csv}

-- `os.getenv` of one name.
abbrev pub Env : Type 0
Env = Text → Option Text

-- `f"{prefix}_{suffix}"`.
abbrev pub variable : Text → Text → Text
variable prefix suffix = prefix ++ b'_' ∷ suffix

abbrev or_default : Text → Option Text → Text
or_default default none = default
or_default default (some value) = value

-- `os.getenv(name, default)`.
abbrev pub getenv_or : Env → Text → Text → Text
getenv_or env name default = or_default default (env name)

pub record KeycloakSettings : Type 0 where
  pub issuer_url : Option Text
  pub audience : Option Text

pub record BootstrapAdminSettings : Type 0 where
  pub trusted_subs : List Text

pub record SigningSettings : Type 0 where
  pub vault_path : Option Text
  pub algorithm : Text
  pub issuer : Text
  pub default_lifetime_seconds : ℤ

pub record CacheSettings : Type 0 where
  pub authz_ttl_seconds : ℤ
  pub public_key_ttl_seconds : ℤ

pub record VaultRepositorySettings : Type 0 where
  pub url : Option Text
  pub token : Option Text
  pub role_id : Option Text
  pub secret_id : Option Text
  pub mount_point : Text
  pub path_prefix : Text
  pub timeout : ℤ
  pub namespace : Option Text
  pub verify_ssl : Bool

-- The arguments that `VaultConfig` of gofr_common is called with.
pub record VaultConfig : Type 0 where
  pub url : Text
  pub token : Option Text
  pub role_id : Option Text
  pub secret_id : Option Text
  pub mount_point : Text
  pub path_prefix : Text
  pub timeout : ℤ
  pub namespace : Option Text
  pub verify_ssl : Bool

-- `Core` is `Settings` of gofr_common.
pub record GofrSecServiceSettings (Core : Type 0) : Type 0 where
  pub core : Core
  pub keycloak : KeycloakSettings
  pub bootstrap : BootstrapAdminSettings
  pub signing : SigningSettings
  pub cache : CacheSettings
  pub vault : VaultRepositorySettings

-- `bool(value)` of an optional text.
abbrev pub given : Option Text → Bool
given none = false
given (some s) = truthy s

abbrev url_text : Option Text → Text
url_text none = text "None"
url_text (some s) = s

abbrev pub is_configured : VaultRepositorySettings → Bool
is_configured v = given v.url && (given v.token || (given v.role_id && given v.secret_id))

abbrev pub config_of : VaultRepositorySettings → VaultConfig
config_of v = record {
  url = url_text v.url;
  token = v.token;
  role_id = v.role_id;
  secret_id = v.secret_id;
  mount_point = v.mount_point;
  path_prefix = v.path_prefix;
  timeout = v.timeout;
  namespace = v.namespace;
  verify_ssl = v.verify_ssl;
}

unfoldable pub to_vault_config : VaultRepositorySettings → Result VaultConfig
to_vault_config v = if not (is_configured v) then err value_error else ok (config_of v)

abbrev pub bind : {A B : Type 0} → Result A → (A → Result B) → Result B
bind (ok a) next = next a
bind (err e) next = err e

module _ (u : Unicode) (env : Env) (prefix : Text) where
  abbrev pub keycloak_from_env : KeycloakSettings
  keycloak_from_env = record {
    issuer_url = env (variable prefix (text "KEYCLOAK_ISSUER_URL"));
    audience = env (variable prefix (text "KEYCLOAK_AUDIENCE"));
  }

  abbrev pub bootstrap_from_env : BootstrapAdminSettings
  bootstrap_from_env = record {
    trusted_subs = split_csv (env (variable prefix (text "BOOTSTRAP_ADMIN_SUBS")));
  }

  abbrev pub signing_from_env : Result SigningSettings
  signing_from_env =
      bind (int u (getenv_or env (variable prefix (text "TOKEN_DEFAULT_LIFETIME_S")) (text "3600")))
        λ lifetime. ok (record {
          vault_path = env (variable prefix (text "SIGNING_VAULT_PATH"));
          algorithm =
              upper u (getenv_or env (variable prefix (text "SIGNING_ALGORITHM")) (text "RS256"));
          issuer = getenv_or env (variable prefix (text "TOKEN_ISSUER")) (text "gofr-sec");
          default_lifetime_seconds = lifetime;
        })

  abbrev pub cache_from_env : Result CacheSettings
  cache_from_env =
      bind (int u (getenv_or env (variable prefix (text "AUTHZ_CACHE_TTL_S")) (text "30"))) λ authz.
        bind (int u (getenv_or env (variable prefix (text "PUBLIC_KEY_CACHE_TTL_S")) (text "300")))
          λ public_key.
            ok (record { authz_ttl_seconds = authz; public_key_ttl_seconds = public_key })

  -- `_env_with_global_fallback`.
  abbrev pub env_with_global_fallback : Text → Option Text
  env_with_global_fallback suffix =
      or_else (env (variable prefix suffix)) (env (variable (text "GOFR") suffix))

  -- `_env_with_global_fallback(...) or default`.
  abbrev pub fallback_or : Text → Text → Text
  fallback_or suffix default =
      or_default default (or_else (env_with_global_fallback suffix) (some default))

  abbrev pub vault_from_env : Result VaultRepositorySettings
  vault_from_env = bind (int u (fallback_or (text "VAULT_TIMEOUT") (text "30"))) λ timeout.
      ok (record {
        url = env_with_global_fallback (text "VAULT_URL");
        token = env_with_global_fallback (text "VAULT_TOKEN");
        role_id = env_with_global_fallback (text "VAULT_ROLE_ID");
        secret_id = env_with_global_fallback (text "VAULT_SECRET_ID");
        mount_point = fallback_or (text "VAULT_MOUNT") (text "secret");
        path_prefix = fallback_or (text "VAULT_PATH_PREFIX") (text "gofr/sec");
        timeout = timeout;
        namespace = env_with_global_fallback (text "VAULT_NAMESPACE");
        verify_ssl =
            contains (lower u.wide (fallback_or (text "VAULT_VERIFY_SSL") (text "true")))
              (text "true" ∷ text "1" ∷ text "yes" ∷ []);
      })
