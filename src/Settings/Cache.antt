-- ===== src/Settings/Cache.antt =====
-- `get_settings`, `get_service_settings` and `reset_settings` of app/settings.py: the settings that
-- the module keeps.
use gotfr_sec.Prelude.{◌≡◌, refl, Bool, true, false, arith, Option, none, some}
use gotfr_sec.Prelude.Text.{Text, text}
use gotfr_sec.Domain.Errors.{Error, Result, ok, err}
use gotfr_sec.Repositories.Interfaces.{Call}
use gotfr_sec.Repositories.Calls.{done, raising, ◌>>=◌, ◌>>◌, >>=_returned}
use gotfr_sec.Settings.{
  Env, GofrSecServiceSettings, keycloak_from_env, bootstrap_from_env, signing_from_env,
  cache_from_env, vault_from_env,
}
use gotfr_sec.Settings.Texts.{Unicode}

-- `Settings` of gofr_common: `from_env` with the arguments of the service and `require_auth`, and
-- two methods that may change the settings and raise.
pub record CoreSettings (Core : Type 0) : Type 0 where
  pub from_env : Bool → Result Core
  pub resolve_defaults : Call Core (Unit {0})
  pub validate : Call Core (Unit {0})

-- The global variables `_settings` and `_service_settings`.
pub record Kept (Core : Type 0) : Type 0 where
  pub settings : Option Core
  pub service_settings : Option (GofrSecServiceSettings Core)

abbrev pub env_prefix : Text
env_prefix = text "GOFRSEC"

module _ {Core : Type 0} where
  -- A method of the kept settings, which changes them in place.
  abbrev in_place : Call Core (Unit {0}) → Core → Call (Kept Core) Core
  in_place method core kept =
      let (outcome, core') = method core in
      (do raising outcome; done core') (record kept { settings = some core' })

  abbrev reset_settings : Call (Kept Core) (Unit {0})
  reset_settings kept = (ok tt, record { settings = none; service_settings = none })

module _ {Core : Type 0} (library : CoreSettings Core) where
  abbrev load : Bool → Call (Kept Core) Core
  load require_auth = do
    core ← raising (library.from_env require_auth)
    resolved ← in_place library.resolve_defaults core
    in_place library.validate resolved

  -- The settings are kept where they are not loaded again.
  abbrev kept_or_load : Bool → Bool → Option Core → Call (Kept Core) Core
  kept_or_load reload require_auth none = load require_auth
  kept_or_load reload require_auth (some core) = elim reload [
    | true ↦ load require_auth
    | false ↦ done core
  ]

  unfoldable pub get_settings : Bool → Bool → Call (Kept Core) Core
  get_settings reload require_auth kept = kept_or_load reload require_auth kept.settings kept

  module _ (u : Unicode) (env : Env) where
    abbrev keep : GofrSecServiceSettings Core → Call (Kept Core) (GofrSecServiceSettings Core)
    keep settings kept = (ok settings, record kept { service_settings = some settings })

    abbrev load_service : Bool → Bool → Call (Kept Core) (GofrSecServiceSettings Core)
    load_service reload require_auth = do
      core ← get_settings reload require_auth
      signing ← raising (signing_from_env u env env_prefix)
      cache ← raising (cache_from_env u env env_prefix)
      vault ← raising (vault_from_env u env env_prefix)
      keep (record {
        core = core;
        keycloak = keycloak_from_env u env env_prefix;
        bootstrap = bootstrap_from_env u env env_prefix;
        signing = signing;
        cache = cache;
        vault = vault;
      })

    abbrev service_or_load :
        Bool
        → Bool
        → Option (GofrSecServiceSettings Core)
        → Call (Kept Core) (GofrSecServiceSettings Core)
    service_or_load reload require_auth none = load_service reload require_auth
    service_or_load reload require_auth (some settings) = elim reload [
      | true ↦ load_service true require_auth
      | false ↦ done settings
    ]

    unfoldable pub get_service_settings :
        Bool → Bool → Call (Kept Core) (GofrSecServiceSettings Core)
    get_service_settings reload require_auth kept =
        service_or_load reload require_auth kept.service_settings kept

  -- Settings that `validate` refuses stay behind: the call raises, and the next one without
  -- `reload` returns them.
  pub get_settings_after_refusal :
      (reload require_auth later : Bool) (kept : Kept Core) {loaded resolved refused : Core}
      {e : Error}
      → kept.settings ≡ none
      → library.from_env require_auth ≡ ok loaded
      → library.resolve_defaults loaded ≡ (ok tt, resolved)
      → library.validate resolved ≡ (err e, refused)
      → ((get_settings reload require_auth kept).0 ≡ err e)
        × (get_settings false later (get_settings reload require_auth kept).1
            ≡ (ok refused, (get_settings reload require_auth kept).1))
  unfolding get_settings
  get_settings_after_refusal reload require_auth later kept fresh read resolves refuses =
      rw (fresh, read, resolves, refuses) (refl, refl)

module _ {Core : Type 0} (library : CoreSettings Core) where
  abbrev IsKept : GofrSecServiceSettings Core → Kept Core → Type 0
  IsKept settings kept = kept.service_settings ≡ some settings

  module _ (u : Unicode) (env : Env) where
    load_service-IsKept :
        (reload require_auth : Bool) (kept : Kept Core) (settings : GofrSecServiceSettings Core)
        → (load_service library u env reload require_auth kept).0 ≡ ok settings
        → IsKept settings (load_service library u env reload require_auth kept).1
    load_service-IsKept reload require_auth =
        >>=_returned IsKept _
          (λ core.
            >>=_returned IsKept _
              (λ signing.
                >>=_returned IsKept _
                  (λ cache.
                    >>=_returned IsKept _ (λ vault kept settings h. ground (arith, h))
                      (raising (vault_from_env u env env_prefix)))
                  (raising (cache_from_env u env env_prefix)))
              (raising (signing_from_env u env env_prefix)))
          (get_settings library reload require_auth)

    service_or_load-IsKept :
        (reload require_auth : Bool) (o : Option (GofrSecServiceSettings Core)) (kept : Kept Core)
        (settings : GofrSecServiceSettings Core)
        → kept.service_settings ≡ o
        → (service_or_load library u env reload require_auth o kept).0 ≡ ok settings
        → IsKept settings (service_or_load library u env reload require_auth o kept).1
    service_or_load-IsKept reload require_auth none kept settings e h =
        load_service-IsKept reload require_auth kept settings h
    service_or_load-IsKept true require_auth (some old) kept settings e h =
        load_service-IsKept true require_auth kept settings h
    service_or_load-IsKept false require_auth (some old) kept settings e h = ground (arith, e, h)

    -- Settings that were read once are returned by every later call without `reload`, whatever the
    -- environment has become, and that call changes nothing.
    pub get_service_settings_again :
        (reload require_auth : Bool) (kept : Kept Core) (settings : GofrSecServiceSettings Core)
        → (get_service_settings library u env reload require_auth kept).0 ≡ ok settings
        → (later : Env) (require_auth_later : Bool)
        → get_service_settings library u later false require_auth_later
            (get_service_settings library u env reload require_auth kept).1
          ≡ (ok settings, (get_service_settings library u env reload require_auth kept).1)
    unfolding get_service_settings
    get_service_settings_again reload require_auth kept settings h later require_auth_later =
        rw (service_or_load-IsKept reload require_auth kept.service_settings kept settings refl h)
          refl
