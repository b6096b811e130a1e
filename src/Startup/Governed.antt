-- ===== src/Startup/Governed.antt =====
-- The service from its start on: requests behind the bootstrap, over the stores and with the signer
-- that the settings choose.
use gotfr_sec.Prelude.{ℕ, ◌≡◌, subst, All, List, ◌∷◌}
use gotfr_sec.Prelude.Int.{ℤ}
use gotfr_sec.Prelude.Text.{Text}
use gotfr_sec.Domain.Errors.{Result, ok}
use gotfr_sec.Repositories.Vault.Client.{VaultClient, Formats, IsIso}
use gotfr_sec.Repositories.Vault.Contract.{IsVault}
use gotfr_sec.Repositories.Vault.Represents.{IsVaultTokenId}
use gotfr_sec.Exec.{Platform}
use gotfr_sec.Services.Bootstrap.{normalize_subjects}
use gotfr_sec.Services.Signing.{Crypto, build_token_signer}
use gotfr_sec.Services.Signing.Vault.{vault_signer-IsSigner, vault_signer_document}
use gotfr_sec.Settings.{Env, KeycloakSettings, VaultConfig, SigningSettings}
use gotfr_sec.Settings.Texts.{Unicode}
use gotfr_sec.Settings.Cache.{CoreSettings, Kept}
use gotfr_sec.Startup.{
  Storage, vault_storage, memory_storage, stores, vault_client, opened, fresh, AppState,
  initialize_application_state,
}
use gotfr_sec.Startup.Admins.{reading_of, stores-IsLawful, initialize_application_state-IsMade}
use gotfr_sec.Api.Governed.{IsGoverned, VerifiesSubjects, SignsFairly}
use gotfr_sec.Api.History.{Arrival, after_all, after_all-apply_plan}

module _ {S : Type 0} (connect : VaultConfig → VaultClient S)
    (is_vault : (config : VaultConfig) → IsVault (connect config)) (f : Formats)
    (iso : IsIso f) where
  -- The signer that is built for a storage changes no store.
  build_token_signer-SignsFairly :
      (crypto : Crypto) (p : Platform) (storage : Storage) (path_prefix : Text)
      (settings : SigningSettings)
      → ((n : ℕ) → IsVaultTokenId (p.uuid_hex n))
      → SignsFairly p
          (reading_of connect is_vault f iso storage)
          (build_token_signer crypto (vault_client connect f storage) path_prefix settings)
  build_token_signer-SignsFairly crypto p memory_storage path_prefix settings ids = tt
  build_token_signer-SignsFairly crypto p (vault_storage config prefix) path_prefix settings ids = (
    vault_signer-IsSigner crypto (connect config) (is_vault config) _ settings.algorithm
        settings.issuer f iso prefix p ids,
    λ s.
        vault_signer_document crypto (connect config) (is_vault config) _ settings.algorithm
          settings.issuer s,
  )

  module _ {Core Verifier : Type 0} (library : CoreSettings Core)
      (verifier_of : KeycloakSettings → ℤ → Result Verifier) (crypto : Crypto) (p : Platform)
      (u : Unicode) (env : Env) where
    -- The state of an application behind requests.
    abbrev pub IsServed : (app : AppState connect f Core Verifier) → List Arrival → Type 0
    IsServed app arrivals = IsGoverned (reading_of connect is_vault f iso app.storage) (
        after_all p (stores connect f app.storage) (reading_of connect is_vault f iso app.storage)
          (stores-IsLawful connect is_vault f iso app.storage) app.token_signer
          app.settings.signing.default_lifetime_seconds arrivals app.bootstrapped.1)

    -- An application that has started with a trusted subject that is not blank has valid stores and a
    -- member of the reserved group after any sequence of requests by any callers, in Vault and in
    -- memory, with the signer that it has built. The stores are valid before, the trusted and the
    -- verified subjects may name users, and the values of `uuid4` may name tokens.
    pub initialize_application_state-IsGoverned :
        (secrets : S) (kept : Kept Core) (app : AppState connect f Core Verifier)
        → (initialize_application_state connect f library verifier_of crypto p u env secrets kept).0
          ≡ ok app
        → (reading_of connect is_vault f iso app.storage).IsValid
            (opened connect f secrets app.storage)
        → All
            (reading_of connect is_vault f iso app.storage).IsSubject
            (normalize_subjects app.settings.bootstrap.trusted_subs)
        → (sub : Text) (subs : List Text)
        → normalize_subjects app.settings.bootstrap.trusted_subs ≡ sub ∷ subs
        → (arrivals : List Arrival)
        → All
            (λ a. VerifiesSubjects (reading_of connect is_vault f iso app.storage) a.verify)
            arrivals
        → ((n : ℕ) → IsVaultTokenId (p.uuid_hex n))
        → IsServed app arrivals
    initialize_application_state-IsGoverned secrets kept app h valid subjects sub subs some_admin
          arrivals usable ids =
        let m =
          initialize_application_state-IsMade connect is_vault f iso library verifier_of crypto p u
            env secrets kept app h in
        subst
          (λ (a : AppState connect f Core Verifier).
            (reading_of connect is_vault f iso a.storage).IsValid
              (opened connect f secrets a.storage)
            → All (reading_of connect is_vault f iso a.storage).IsSubject
                (normalize_subjects a.settings.bootstrap.trusted_subs)
            → normalize_subjects a.settings.bootstrap.trusted_subs ≡ sub ∷ subs
            → All (λ x. VerifiesSubjects (reading_of connect is_vault f iso a.storage) x.verify)
                arrivals
            → IsServed a arrivals)
          m.made
          (λ valid subjects some_admin usable.
            after_all-apply_plan p (stores connect f m.storage)
              (reading_of connect is_vault f iso m.storage)
              (stores-IsLawful connect is_vault f iso m.storage) _ _
              m.settings.bootstrap.trusted_subs sub subs arrivals
              (fresh connect f secrets m.storage) valid some_admin subjects usable
              (build_token_signer-SignsFairly crypto p m.storage m.settings.vault.path_prefix
                m.settings.signing ids))
          valid subjects some_admin usable
