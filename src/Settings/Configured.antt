-- ===== src/Settings/Configured.antt =====
-- When the settings name a Vault.
use gotfr_sec.Prelude.{
  ◌≡◌, refl, sym, ap, ◌∙◌, subst, [], true, false, Bool-cases, inl, inr, ◌⊎◌, ◌↔◌, Option, none,
  some, arith,
}
use gotfr_sec.Prelude.Text.{Text, truthy}
use gotfr_sec.Domain.Errors.{Result, ok, err, value_error}
use gotfr_sec.Settings.{
  VaultRepositorySettings, VaultConfig, given, is_configured, config_of, to_vault_config,
}

-- A setting that is present and not empty.
abbrev pub IsGiven : Option Text → Text → Type 0
IsGiven o value = (o ≡ some value) × (truthy value ≡ true)

no_value : {value : Text} → none ≡ some value → ⊥
no_value e = absurd (cc)

given_iff : (o : Option Text) → (given o ≡ true) ↔ ((value : Text) × IsGiven o value)
given_iff none = (λ h. absurd (cc), λ (value, e). absurd (no_value e.0))
given_iff (some s) = (λ h. (s, (refl, h)), λ (value, e). ground (arith, e.0, e.1))

abbrev url_of : Result VaultConfig → Text
url_of (ok config) = config.url
url_of (err e) = []

to_vault_config_built :
    (v : VaultRepositorySettings) (url : Text)
    → is_configured v ≡ true
    → v.url ≡ some url
    → (config : VaultConfig) × (to_vault_config v ≡ ok config) × (config.url ≡ url)
unfolding to_vault_config
to_vault_config_built v url complete given_url = (config_of v, rw complete refl, rw given_url refl)

to_vault_config_incomplete :
    (v : VaultRepositorySettings) → is_configured v ≡ false → to_vault_config v ≡ err value_error
unfolding to_vault_config
to_vault_config_incomplete v h = rw h refl

-- The settings give a configuration exactly if they have a URL and either a token or both ids of an
-- AppRole, none of them empty; the configuration has that URL.
pub to_vault_config_iff :
    (v : VaultRepositorySettings) (url : Text)
    → ((config : VaultConfig) × (to_vault_config v ≡ ok config) × (config.url ≡ url)) ↔ (
        IsGiven v.url url
        × (((token : Text) × IsGiven v.token token)
            ⊎ (((role : Text) × IsGiven v.role_id role)
                × ((secret : Text) × IsGiven v.secret_id secret))))
unfolding to_vault_config
to_vault_config_iff v url = (
  λ (config, made, url_eq). elim (Bool-cases (is_configured v)) [
    | inl complete ↦
        let (value, (url_some, filled)) = (given_iff v.url).0 (ground (arith, complete)) in
        let same : value ≡ url =
          let (_, made', value_eq) = to_vault_config_built v value complete url_some in
          sym value_eq ∙ ap url_of (sym made' ∙ made) ∙ url_eq in
        (
          subst (IsGiven v.url) same (url_some, filled),
          elim (Bool-cases (given v.token)) [
            | inl token ↦ inl ((given_iff v.token).0 token)
            | inr other ↦ inr (
              (given_iff v.role_id).0 (ground (arith, complete, other)),
              (given_iff v.secret_id).0 (ground (arith, complete, other)),
            )
          ],
        )
    | inr incomplete ↦ absurd (refused (sym (to_vault_config_incomplete v incomplete) ∙ made))
  ],
  λ ((url_some, filled), keys).
      to_vault_config_built v url (complete url_some filled keys) url_some,
)
  where
    refused : {config : VaultConfig} → err value_error ≡ ok config → ⊥
    refused h = absurd (cc)

    complete :
        v.url ≡ some url
        → truthy url ≡ true
        → ((token : Text) × IsGiven v.token token)
          ⊎ (((role : Text) × IsGiven v.role_id role)
              × ((secret : Text) × IsGiven v.secret_id secret))
        → is_configured v ≡ true
    complete url_some filled (inl token) =
        rw ((given_iff v.url).1 (url, (url_some, filled)), (given_iff v.token).1 token) refl
    complete url_some filled (inr (role, secret)) =
        rw
          (
            (given_iff v.url).1 (url, (url_some, filled)),
            (given_iff v.role_id).1 role,
            (given_iff v.secret_id).1 secret,
          )
          ground arith
