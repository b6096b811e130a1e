-- ===== src/Services/Bootstrap.antt =====
-- app/services/bootstrap_service.py: `BootstrapService`.
pub mod Subjects
pub mod Growth
pub mod Plan
use gotfr_sec.Prelude.{
  true, false, ◌&&◌, not, Option, none, some, List, [], ◌∷◌, ◌++◌, contains, if◌then◌else◌,
}
use gotfr_sec.Prelude.Text.{Text, text_eq, strip, truthy}
use gotfr_sec.Domain.Models.{GroupDefinition}
use gotfr_sec.Domain.Rules.{reserved_admin_group, build_reserved_admin_group}
use gotfr_sec.Repositories.Interfaces.{RepositoryBundle}
use gotfr_sec.Exec.{Platform, Exec, pure, stored, ◌>>=◌, ◌>>◌, utc_now}

-- The loop of `_normalize_subjects`, with what it has kept and seen.
unfoldable pub normalize_from : List Text → List Text → List Text → List Text
normalize_from normalized seen [] = normalized
normalize_from normalized seen (subject ∷ subjects) =
    let value = strip subject in
    elim (truthy value && not (contains value seen)) [
      | true ↦ normalize_from (normalized ++ value ∷ []) (value ∷ seen) subjects
      | false ↦ normalize_from normalized seen subjects
    ]

-- `_normalize_subjects`; `_split_csv` of app/settings.py has the same loop.
unfoldable pub normalize_subjects : List Text → List Text
unfolding normalize_from
normalize_subjects = normalize_from [] []

pub record BootstrapPlan : Type 0 where
  pub reserved_groups : List GroupDefinition
  pub trusted_admin_subs : List Text

module _ {S : Type 0} (p : Platform) (r : RepositoryBundle S) where
  pub build_plan : List Text → Exec S BootstrapPlan
  build_plan trusted_admin_subs = do
    now ← utc_now p
    pure (record {
      reserved_groups = build_reserved_admin_group now ∷ [];
      trusted_admin_subs = normalize_subjects trusted_admin_subs;
    })

  abbrev upsert_missing : GroupDefinition → Option GroupDefinition → Exec S (Unit {0})
  upsert_missing group (some _) = pure tt
  upsert_missing group none = do stored (r.groups.upsert group); pure tt

  pub ensure_groups : List GroupDefinition → Exec S (Unit {0})
  ensure_groups [] = pure tt
  ensure_groups (group ∷ groups) = do
    existing ← stored (r.groups.get group.name)
    upsert_missing group existing
    ensure_groups groups

  pub ensure_admin : Text → Exec S (Unit {0})
  ensure_admin sub = do
    present ← stored (r.memberships.has_membership sub reserved_admin_group)
    if present then pure tt else (do
      now ← utc_now p
      stored (
          r.memberships.add (record {
            keycloak_sub = sub;
            group_name = reserved_admin_group;
            granted_at = now;
            granted_by_sub = none;
          }))
      pure tt)

  pub ensure_admins : List Text → Exec S (Unit {0})
  ensure_admins [] = pure tt
  ensure_admins (sub ∷ subs) = do ensure_admin sub; ensure_admins subs

  pub apply_plan : List Text → Exec S BootstrapPlan
  apply_plan trusted_admin_subs = do
    plan ← build_plan trusted_admin_subs
    ensure_groups plan.reserved_groups
    ensure_admins plan.trusted_admin_subs
    pure plan
