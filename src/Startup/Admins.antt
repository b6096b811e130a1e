-- ===== src/Startup/Admins.antt =====
-- What the start of the application leaves in the stores.
use gotfr_sec.Prelude.{◌≡◌, refl, subst, All, false, Bool-cases, inl, inr, ◌==◌, arith, list_beq}
use gotfr_sec.Prelude.Int.{ℤ}
use gotfr_sec.Prelude.Text.{text, text_eq}
use gotfr_sec.Domain.Errors.{Result, ok}
use gotfr_sec.Repositories.Lawful.{Reading, IsLawful}
use gotfr_sec.Repositories.Calls.{raising, >>=_returned}
use gotfr_sec.Repositories.InMemory.Laws.{memory_reading, in_memory-IsLawful}
use gotfr_sec.Repositories.Vault.Client.{VaultClient, Formats, IsIso}
use gotfr_sec.Repositories.Vault.Contract.{IsVault}
use gotfr_sec.Repositories.Vault.Lawful.{vault_reading, vault-IsLawful}
use gotfr_sec.Exec.{Platform}
use gotfr_sec.Services.Bootstrap.{BootstrapPlan, normalize_subjects}
use gotfr_sec.Services.Bootstrap.Growth.{Grows, IsAdmin}
use gotfr_sec.Services.Bootstrap.Plan.{apply_plan-Enlarges}
use gotfr_sec.Services.Signing.{Crypto}
use gotfr_sec.Settings.{
  Env, KeycloakSettings, VaultRepositorySettings, VaultConfig, GofrSecServiceSettings,
  is_configured, config_of, to_vault_config,
}
use gotfr_sec.Settings.Texts.{Unicode}
use gotfr_sec.Settings.Cache.{CoreSettings, Kept, get_service_settings}
use gotfr_sec.Startup.{
  Storage, vault_storage, memory_storage, storage_backend, build_repository_bundle, StateOf, stores,
  opened, fresh, AppState, started, initialize_application_state,
}

module _ {S : Type 0} (connect : VaultConfig → VaultClient S)
    (is_vault : (config : VaultConfig) → IsVault (connect config)) (f : Formats)
    (iso : IsIso f) where
  abbrev pub reading_of : (storage : Storage) → Reading (StateOf connect f storage)
  reading_of (vault_storage config path_prefix) =
      vault_reading (connect config) (is_vault config) f iso path_prefix
  reading_of memory_storage = memory_reading

  pub stores-IsLawful :
      (storage : Storage) → IsLawful (reading_of storage) (stores connect f storage)
  stores-IsLawful (vault_storage config path_prefix) =
      vault-IsLawful (connect config) (is_vault config) f iso path_prefix
  stores-IsLawful memory_storage = in_memory-IsLawful

  -- After the start the bootstrap has returned its plan, the stores are valid, every trusted subject
  -- belongs to the reserved group, and what was stored before is kept.
  pub record IsStarted {Core Verifier : Type 0} (secrets : S)
      (app : AppState connect f Core Verifier) : Type 0 where
    pub plan : BootstrapPlan
    pub returned : app.bootstrapped.0 ≡ ok plan
    pub valid : (reading_of app.storage).IsValid app.bootstrapped.1.store
    pub admins :
        All
          (IsAdmin ((reading_of app.storage).view app.bootstrapped.1.store))
          (normalize_subjects app.settings.bootstrap.trusted_subs)
    pub grows :
        Grows
          ((reading_of app.storage).view (opened connect f secrets app.storage))
          ((reading_of app.storage).view app.bootstrapped.1.store)

  module _ {Core Verifier : Type 0} (library : CoreSettings Core)
      (verifier_of : KeycloakSettings → ℤ → Result Verifier) (crypto : Crypto) (p : Platform)
      (u : Unicode) (env : Env) where
    started-IsStarted :
        (secrets : S) (settings : GofrSecServiceSettings Core) (storage : Storage)
        (verifier : Verifier)
        → let app =
            started connect f library verifier_of crypto p u env secrets settings storage
              verifier in
          (reading_of app.storage).IsValid (opened connect f secrets app.storage)
          → All
              (reading_of app.storage).IsSubject
              (normalize_subjects app.settings.bootstrap.trusted_subs)
          → IsStarted secrets app
    started-IsStarted secrets settings storage verifier valid subjects =
        let (plan, enlarged, _, _, admins) =
          apply_plan-Enlarges p (stores connect f storage) (reading_of storage)
            (stores-IsLawful storage) settings.bootstrap.trusted_subs
            (fresh connect f secrets storage) valid subjects in
        record {
          plan = plan;
          returned = enlarged.returned;
          valid = enlarged.valid;
          admins = admins;
          grows = enlarged.grows;
        }

    -- What a start that succeeds has put together.
    pub record IsMade (secrets : S) (app : AppState connect f Core Verifier) : Type 0 where
      pub settings : GofrSecServiceSettings Core
      pub storage : Storage
      pub verifier : Verifier
      pub made :
          started connect f library verifier_of crypto p u env secrets settings storage verifier
          ≡ app

    pub initialize_application_state-IsMade :
        (secrets : S) (kept : Kept Core) (app : AppState connect f Core Verifier)
        → (initialize_application_state connect f library verifier_of crypto p u env secrets kept).0
          ≡ ok app
        → IsMade secrets app
    unfolding initialize_application_state
    initialize_application_state-IsMade secrets kept app =
        >>=_returned Good _
          (λ settings.
            >>=_returned Good _
              (λ storage.
                >>=_returned Good _
                  (λ verifier s a h. record {
                    settings = settings;
                    storage = storage;
                    verifier = verifier;
                    made = ok_injective h;
                  })
                  (raising (verifier_of settings.keycloak settings.cache.public_key_ttl_seconds)))
              (raising (build_repository_bundle settings.vault)))
          (get_service_settings library u env false false) kept app
      where
        Good : AppState connect f Core Verifier → Kept Core → Type 0
        Good a kept = IsMade secrets a

        ok_injective : {a b : AppState connect f Core Verifier} → ok a ≡ ok b → a ≡ b
        ok_injective h = ground (arith, h)

    -- Where the application starts, on stores that are valid and with trusted subjects that may name
    -- users, the bootstrap has returned its plan, the stores are valid, every trusted subject belongs
    -- to the reserved group, whether or not it did before, and what was stored before is kept, in
    -- Vault and in memory.
    pub initialize_application_state-IsStarted :
        (secrets : S) (kept : Kept Core) (app : AppState connect f Core Verifier)
        → (initialize_application_state connect f library verifier_of crypto p u env secrets kept).0
          ≡ ok app
        → (reading_of app.storage).IsValid (opened connect f secrets app.storage)
        → All
            (reading_of app.storage).IsSubject
            (normalize_subjects app.settings.bootstrap.trusted_subs)
        → IsStarted secrets app
    initialize_application_state-IsStarted secrets kept app h =
        let m = initialize_application_state-IsMade secrets kept app h in
        subst
          (λ (a : AppState connect f Core Verifier).
            (reading_of a.storage).IsValid (opened connect f secrets a.storage)
            → All (reading_of a.storage).IsSubject
                (normalize_subjects a.settings.bootstrap.trusted_subs)
            → IsStarted secrets a)
          m.made (started-IsStarted secrets m.settings m.storage m.verifier)

-- The stores are those of Vault exactly if the settings have a URL and credentials, and the choice
-- never raises.
pub build_repository_bundle_iff :
    (v : VaultRepositorySettings)
    → (storage : Storage) × (build_repository_bundle v ≡ ok storage)
      × ((storage_backend storage == text "vault") ≡ is_configured v)
unfolding build_repository_bundle to_vault_config list_beq
build_repository_bundle_iff v = elim (Bool-cases (is_configured v)) [
  | inl complete ↦ (vault_storage (config_of v) v.path_prefix, rw complete refl, rw complete refl)
  | inr incomplete ↦ (memory_storage, rw incomplete refl, rw incomplete refl)
]
