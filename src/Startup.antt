-- ===== src/Startup.antt =====
-- app/bootstrap.py: the choice of the stores and the state of the application at its start.
pub mod Admins
pub mod Governed
use gotfr_sec.Prelude.{◌≡◌, Bool, true, false, Option, none, some, List, [], if◌then◌else◌}
use gotfr_sec.Prelude.Int.{ℤ}
use gotfr_sec.Prelude.Text.{Text, text}
use gotfr_sec.Domain.Errors.{Result, ok, err}
use gotfr_sec.Repositories.Interfaces.{Call, RepositoryBundle}
use gotfr_sec.Repositories.Calls.{done, raising, ◌>>=◌}
use gotfr_sec.Repositories.InMemory.{MemoryStore, in_memory}
use gotfr_sec.Repositories.Vault.Client.{VaultClient, Formats}
use gotfr_sec.Repositories.Vault.Tokens.{vault}
use gotfr_sec.Exec.{Platform, World}
use gotfr_sec.Services.Bootstrap.{BootstrapPlan, apply_plan}
use gotfr_sec.Services.Signer.{TokenSigner}
use gotfr_sec.Services.Signing.{Crypto, build_token_signer}
use gotfr_sec.Settings.{
  Env, KeycloakSettings, VaultRepositorySettings, VaultConfig, GofrSecServiceSettings, bind,
  is_configured, to_vault_config,
}
use gotfr_sec.Settings.Texts.{Unicode}
use gotfr_sec.Settings.Cache.{CoreSettings, Kept, get_service_settings}

-- Which stores a `RepositoryBundle` has.
pub data Storage : Type 0 where
  vault_storage : VaultConfig → Text → Storage
  memory_storage : Storage

-- `storage_backend` of a bundle.
abbrev pub storage_backend : Storage → Text
storage_backend (vault_storage config path_prefix) = text "vault"
storage_backend memory_storage = text "memory"

-- `build_repository_bundle`, as far as it chooses the stores.
unfoldable pub build_repository_bundle : VaultRepositorySettings → Result Storage
build_repository_bundle v =
    if is_configured v
    then bind (to_vault_config v) (λ config. ok (vault_storage config v.path_prefix))
    else ok memory_storage

-- Stores in memory are empty at the start.
abbrev pub empty_store : MemoryStore
empty_store = record { profiles = []; groups = []; memberships = []; tokens = [] }

-- `S` is the state of Vault, and `connect` is `VaultClient(config)`.
module _ {S : Type 0} (connect : VaultConfig → VaultClient S) (f : Formats) where
  abbrev pub StateOf : Storage → Type 0
  StateOf (vault_storage config path_prefix) = S
  StateOf memory_storage = MemoryStore

  abbrev pub stores : (storage : Storage) → RepositoryBundle (StateOf storage)
  stores (vault_storage config path_prefix) = vault (connect config) f path_prefix
  stores memory_storage = in_memory

  -- `vault_client` of a bundle.
  abbrev pub vault_client : (storage : Storage) → Option (VaultClient (StateOf storage))
  vault_client (vault_storage config path_prefix) = some (connect config)
  vault_client memory_storage = none

  abbrev pub opened : S → (storage : Storage) → StateOf storage
  opened secrets (vault_storage config path_prefix) = secrets
  opened secrets memory_storage = empty_store

  -- The process before its first event.
  abbrev pub fresh : S → (storage : Storage) → World (StateOf storage)
  fresh secrets storage = record {
    store = opened secrets storage;
    audit = [];
    clock_reads = 0;
    uuids_drawn = 0;
  }

  -- The state of the application, with the outcome of the bootstrap and the process behind it.
  pub record AppState (Core Verifier : Type 0) : Type 0 where
    pub settings : GofrSecServiceSettings Core
    pub storage : Storage
    pub access_token_verifier : Verifier
    pub token_signer : Option (TokenSigner (StateOf storage))
    pub bootstrapped : Result BootstrapPlan × World (StateOf storage)

  -- `verifier_of` is `AccessTokenVerifier.from_settings`.
  module _ {Core Verifier : Type 0} (library : CoreSettings Core)
      (verifier_of : KeycloakSettings → ℤ → Result Verifier) (crypto : Crypto) (p : Platform)
      (u : Unicode) (env : Env) where
    abbrev pub started :
        S → GofrSecServiceSettings Core → Storage → Verifier → AppState Core Verifier
    started secrets settings storage verifier = record {
      settings = settings;
      storage = storage;
      access_token_verifier = verifier;
      token_signer =
          build_token_signer crypto (vault_client storage) settings.vault.path_prefix
            settings.signing;
      bootstrapped =
          apply_plan p (stores storage) settings.bootstrap.trusted_subs (fresh secrets storage);
    }

    unfoldable pub initialize_application_state : S → Call (Kept Core) (AppState Core Verifier)
    initialize_application_state secrets = do
      settings ← get_service_settings library u env false false
      storage ← raising (build_repository_bundle settings.vault)
      verifier ← raising (verifier_of settings.keycloak settings.cache.public_key_ttl_seconds)
      done (started secrets settings storage verifier)
