-- ===== src/Examples/Startup.antt =====
-- The service started with an empty Vault, from an environment.
use gotfr_sec.Prelude.{
  Option, subst, List, ap, ◌≡◌, refl, ◌↔◌, ◌⊎◌, none, some, [], ◌∷◌, ◌==◌, All, false, true, Bool,
  list_beq, contains, if◌then◌else◌,
}
use gotfr_sec.Prelude.Int.{pos}
use gotfr_sec.Prelude.Text.{Text, text, text_eq, strip, lower}
use gotfr_sec.Domain.Errors.{ok, err, value_error}
use gotfr_sec.Repositories.Vault.Represents.{IsVaultSubject}
use gotfr_sec.Repositories.Vault.Lawful.{empty-IsValid}
use gotfr_sec.Services.Bootstrap.{normalize_from, normalize_subjects}
use gotfr_sec.Services.Signing.{Crypto}
use gotfr_sec.Settings.{
  Env, VaultRepositorySettings, VaultConfig, GofrSecServiceSettings, config_of, to_vault_config,
}
use gotfr_sec.Settings.Texts.{Unicode, upper, int, read_digits}
use gotfr_sec.Settings.Csv.{
  split_commas, collect_items, split_csv, join_commas, first_of_each, split_csv-join_commas,
}
use gotfr_sec.Settings.Cache.{
  CoreSettings, Kept, get_settings, get_settings_after_refusal, get_service_settings,
  get_service_settings_again,
}
use gotfr_sec.Settings.Configured.{IsGiven, to_vault_config_iff}
use gotfr_sec.Startup.{
  vault_storage, build_repository_bundle, AppState, started, initialize_application_state,
}
use gotfr_sec.Startup.Admins.{reading_of, IsStarted, initialize_application_state-IsStarted}
use gotfr_sec.Startup.Governed.{IsServed, initialize_application_state-IsGoverned}
use gotfr_sec.Services.Identity.{VerifiedIdentity}
use gotfr_sec.Api.Routes.{membership_deleted}
use gotfr_sec.Api.Governed.{VerifiesSubjects}
use gotfr_sec.Api.History.{Arrival}
use gotfr_sec.Examples.Signing.{hex_platform, f0-IsVaultTokenId}
use gotfr_sec.Services.Bootstrap.Subjects.{nonblank}
use gotfr_sec.Examples.Sample.{platform, alice, bob}
use gotfr_sec.Examples.MemoryVault.{
  memory_client, memory_client-IsVault, empty_vault, plain_formats, plain_formats-IsIso,
}

abbrev unicode : Unicode
unicode = record { wide = platform.wide; wide_upper = λ c. c ∷ []; wide_digit = λ c. none }

abbrev environment : Env
environment name =
    if name == text "GOFRSEC_BOOTSTRAP_ADMIN_SUBS"
    then some (text "alice, bob,alice")
    else if name == text "GOFR_VAULT_URL"
    then some (text "https://vault")
    else if name == text "GOFRSEC_VAULT_TOKEN"
    then some (text "root")
    else none

-- Settings of gofr_common that are a number; `validate` refuses those other than zero.
abbrev library : CoreSettings Bool
library = record {
  from_env = λ require_auth. ok require_auth;
  resolve_defaults = λ core. (ok tt, core);
  validate = λ core. (if core then err value_error else ok tt, core);
}

abbrev nothing_kept : Kept Bool
nothing_kept = record { settings = none; service_settings = none }

abbrev vault_settings : VaultRepositorySettings
vault_settings = record {
  url = some (text "https://vault");
  token = some (text "root");
  role_id = none;
  secret_id = none;
  mount_point = text "secret";
  path_prefix = text "gofr/sec";
  timeout = pos 30;
  namespace = none;
  verify_ssl = true;
}

abbrev settings : GofrSecServiceSettings Bool
settings = record {
  core = false;
  keycloak = record { issuer_url = none; audience = none };
  bootstrap = record { trusted_subs = alice ∷ bob ∷ [] };
  signing = record {
    vault_path = none;
    algorithm = text "RS256";
    issuer = text "gofr-sec";
    default_lifetime_seconds = pos 3600;
  };
  cache = record { authz_ttl_seconds = pos 30; public_key_ttl_seconds = pos 300 };
  vault = vault_settings;
}

-- Keys that are their own public keys.
abbrev crypto : Crypto
crypto = record {
  public_pem = λ pem. ok pem;
  rsa_numbers = λ pem. ok (some (3233, 17));
  encode_jwt = λ claims key algorithm kid. ok claims.jti;
  sha256_hex = platform.sha256_hex;
}

settings_read :
    (get_service_settings library unicode environment false false nothing_kept).0 ≡ ok settings
unfolding get_service_settings get_settings int read_digits strip upper split_csv collect_items
    split_commas contains list_beq lower
settings_read = refl

get_service_settings_again_example :
    get_service_settings library unicode
      (λ name. none)
      false
      true
      (get_service_settings library unicode environment false false nothing_kept).1
    ≡ (ok settings, (get_service_settings library unicode environment false false nothing_kept).1)
get_service_settings_again_example =
    get_service_settings_again library unicode environment false false nothing_kept settings
      settings_read (λ name. none) true

get_settings_after_refusal_example :
    ((get_settings library false true nothing_kept).0 ≡ err value_error)
    × (get_settings library false false (get_settings library false true nothing_kept).1
        ≡ (ok true, (get_settings library false true nothing_kept).1))
get_settings_after_refusal_example =
    get_settings_after_refusal library false true false nothing_kept refl refl refl refl

to_vault_config_iff_example :
    ((config : VaultConfig) × (to_vault_config vault_settings ≡ ok config)
      × (config.url ≡ text "https://vault"))
    ↔ (IsGiven vault_settings.url (text "https://vault")
        × (((token : Text) × IsGiven vault_settings.token token)
            ⊎ (((role : Text) × IsGiven vault_settings.role_id role)
                × ((secret : Text) × IsGiven vault_settings.secret_id secret))))
to_vault_config_iff_example = to_vault_config_iff vault_settings (text "https://vault")

abbrev app : AppState (λ config. memory_client) plain_formats Bool (Unit {0})
app =
    started (λ config. memory_client) plain_formats library (λ keycloak ttl. ok tt) crypto
      hex_platform unicode environment [] settings
      (vault_storage (config_of vault_settings) (text "gofr/sec")) tt

app_started :
    (initialize_application_state
      (λ config. memory_client)
      plain_formats
      library
      (λ keycloak ttl. ok tt)
      crypto
      hex_platform
      unicode
      environment
      []
      nothing_kept).0
    ≡ ok app
unfolding initialize_application_state build_repository_bundle to_vault_config
app_started = rw settings_read refl

trusted : All IsVaultSubject (normalize_subjects (alice ∷ bob ∷ []))
unfolding normalize_subjects normalize_from strip contains list_beq
trusted =
    (((refl, (refl, (refl, (refl, (refl, tt))))), refl), (((refl, (refl, (refl, tt))), refl), tt))

initialize_application_state-IsStarted_example :
    IsStarted
      (λ config. memory_client)
      (λ config. memory_client-IsVault)
      plain_formats
      plain_formats-IsIso
      []
      app
initialize_application_state-IsStarted_example =
    initialize_application_state-IsStarted (λ config. memory_client)
      (λ config. memory_client-IsVault) plain_formats plain_formats-IsIso library
      (λ keycloak ttl. ok tt) crypto hex_platform unicode environment [] nothing_kept app
      app_started
      (empty-IsValid memory_client memory_client-IsVault plain_formats plain_formats-IsIso
        (text "gofr/sec") [] empty_vault)
      trusted

split_csv-join_commas_example :
    split_csv (some (join_commas (alice ∷ text " bob" ∷ text "alice " ∷ [] ∷ [])))
    ≡ first_of_each (nonblank (alice ∷ text " bob" ∷ text "alice " ∷ [] ∷ []))
split_csv-join_commas_example =
    split_csv-join_commas alice (text " bob" ∷ text "alice " ∷ [] ∷ []) (
      (refl, (refl, (refl, (refl, (refl, tt))))),
      (
        (refl, (refl, (refl, (refl, tt)))),
        ((refl, (refl, (refl, (refl, (refl, (refl, tt)))))), (tt, tt)),
      ),
    )

first_names :
    first_of_each (nonblank (alice ∷ text " bob" ∷ text "alice " ∷ [] ∷ [])) ≡ alice ∷ bob ∷ []
unfolding strip list_beq
first_names = refl

-- Everybody is verified as the same administrator, who takes the other one's and her own membership.
abbrev verify_alice : Text → Option VerifiedIdentity
verify_alice credentials = some (record { subject = alice; claims = λ key. none })

abbrev arrivals : List Arrival
arrivals =
    record {
      request = membership_deleted bob (text "admin");
      credentials = some bob;
      verify = verify_alice;
      correlation_id = none;
    }
    ∷ record {
      request = membership_deleted alice (text "admin");
      credentials = some bob;
      verify = verify_alice;
      correlation_id = none;
    }
    ∷ []

alice-IsVaultSubject : IsVaultSubject alice
alice-IsVaultSubject = ((refl, (refl, (refl, (refl, (refl, tt))))), refl)

verify_alice-VerifiesSubjects :
    VerifiesSubjects
      (reading_of
        (λ config. memory_client)
        (λ config. memory_client-IsVault)
        plain_formats
        plain_formats-IsIso
        app.storage)
      verify_alice
verify_alice-VerifiesSubjects credentials i h = subst IsVaultSubject (same h) alice-IsVaultSubject
  where
    subject_of : Option VerifiedIdentity → Text
    subject_of none = []
    subject_of (some i) = i.subject

    same : {i : VerifiedIdentity} → verify_alice credentials ≡ some i → alice ≡ i.subject
    same h = ap subject_of h

trusted_names : normalize_subjects (alice ∷ bob ∷ []) ≡ alice ∷ bob ∷ []
unfolding normalize_subjects normalize_from strip contains list_beq
trusted_names = refl

initialize_application_state-IsGoverned_example :
    IsServed
      (λ config. memory_client)
      (λ config. memory_client-IsVault)
      plain_formats
      plain_formats-IsIso
      library
      (λ keycloak ttl. ok tt)
      crypto
      hex_platform
      unicode
      environment
      app
      arrivals
initialize_application_state-IsGoverned_example =
    initialize_application_state-IsGoverned (λ config. memory_client)
      (λ config. memory_client-IsVault) plain_formats plain_formats-IsIso library
      (λ keycloak ttl. ok tt) crypto hex_platform unicode environment [] nothing_kept app
      app_started
      (empty-IsValid memory_client memory_client-IsVault plain_formats plain_formats-IsIso
        (text "gofr/sec") [] empty_vault)
      trusted alice (bob ∷ []) trusted_names arrivals
      (verify_alice-VerifiesSubjects, (verify_alice-VerifiesSubjects, tt)) (λ n. f0-IsVaultTokenId)
