-- ===== src/Services/AdminGroups.antt =====
-- app/services/admin_group_service.py: `AdminGroupService`, each method over any bundle of stores.
pub mod Create
pub mod LastAdmin
pub mod Remove
pub mod Add
pub mod Audit
use gotfr_sec.Prelude.{
  ℕ, zero, suc, Bool, true, false, not, Option, none, some, ◌==◌, is_some, if◌then◌else◌,
}
use gotfr_sec.Prelude.Int.{ℤ, pos, negsuc}
use gotfr_sec.Prelude.Text.{Text, text_eq, strip, lower, truthy}
use gotfr_sec.Domain.Errors.{
  reserved_group, group_already_exists, group_not_found, group_membership_not_found,
  unregistered_user,
}
use gotfr_sec.Domain.Models.{
  Time, GroupDefinition, UserGroupMembership, AuditEvent, EventType, group_create, membership_add,
  membership_remove, Outcome, success, failure,
}
use gotfr_sec.Domain.Rules.{
  reserved_admin_group, normalize_group_name, is_reserved_group, ensure_admin_membership_remains,
}
use gotfr_sec.Repositories.View.{find_in}
use gotfr_sec.Repositories.Interfaces.{RepositoryBundle}
use gotfr_sec.Exec.{
  Platform, Exec, pure, raise, lift, stored, ◌>>=◌, ◌>>◌, raise_if, utc_now, audited,
}

-- `value or None`.
abbrev pub or_none : Text → Option Text
or_none s = if truthy s then some s else none

-- `description.strip() if description and description.strip() else None`.
unfoldable pub clean_description : Option Text → Option Text
clean_description none = none
clean_description (some d) = or_none (strip d)

-- `count - 1`.
abbrev pub minus_one : ℕ → ℤ
minus_one zero = negsuc 0
minus_one (suc n) = pos n

-- `group is None or not group.is_active`.
abbrev pub is_unusable : Option GroupDefinition → Bool
is_unusable none = true
is_unusable (some g) = not g.is_active

-- The events of this service name no token and no resource.
abbrev pub group_event :
    EventType → Text → Option Text → Option Text → Option Text → Outcome → Time → AuditEvent
group_event event_type actor_sub subject_sub group correlation_id outcome now = record {
  event_type = event_type;
  actor_sub = some actor_sub;
  subject_sub = subject_sub;
  group_name = group;
  token_id = none;
  resource = none;
  correlation_id = correlation_id;
  outcome = outcome;
  occurred_at = now;
}

module _ {S : Type 0} (p : Platform) (r : RepositoryBundle S) where
  -- The group of a valid name, if it is there and active.
  pub usable_group : Text → Exec S (Unit {0})
  usable_group name = do
    group ← stored (r.groups.get name)
    raise_if (is_unusable group) (group_not_found name)

  -- `_find_membership`.
  pub find_membership : Text → Text → Exec S (Option UserGroupMembership)
  find_membership sub group = do
    listed ← stored (r.memberships.list_for_user sub)
    pure (find_in group listed)

  create_body : Text → Option Text → Exec S GroupDefinition
  create_body name description = do
    validated ← lift (normalize_group_name p.wide name)
    reserved ← lift (is_reserved_group p.wide validated)
    raise_if reserved reserved_group
    existing ← stored (r.groups.get validated)
    raise_if (is_some existing) (group_already_exists validated)
    now ← utc_now p
    stored (
        r.groups.upsert (record {
          name = validated;
          description = clean_description description;
          is_system = false;
          is_active = true;
          created_at = now;
        }))

  pub create_group : Text → Option Text → Text → Option Text → Exec S GroupDefinition
  create_group name description actor_sub correlation_id =
      let normalized = lower p.wide (strip name) in
      audited p
        (group_event group_create actor_sub none (or_none normalized) correlation_id failure)
        (λ created.
          group_event group_create actor_sub none (some created.name) correlation_id success)
        (create_body name description)

  pub require_registered : Text → Exec S (Unit {0})
  require_registered sub = do
    registered ← stored (r.user_profiles.is_registered sub)
    raise_if (not registered) (unregistered_user sub)

  -- An existing membership is kept as it is.
  keep_or_add : Text → Text → Text → Option UserGroupMembership → Exec S UserGroupMembership
  keep_or_add sub group actor_sub (some membership) = pure membership
  keep_or_add sub group actor_sub none = do
    now ← utc_now p
    stored (
        r.memberships.add (record {
          keycloak_sub = sub;
          group_name = group;
          granted_at = now;
          granted_by_sub = some actor_sub;
        }))

  add_body : Text → Text → Text → Exec S UserGroupMembership
  add_body sub group_name actor_sub = do
    validated ← lift (normalize_group_name p.wide group_name)
    usable_group validated
    require_registered sub
    existing ← find_membership sub validated
    keep_or_add sub validated actor_sub existing

  pub add_membership : Text → Text → Text → Option Text → Exec S UserGroupMembership
  add_membership sub group_name actor_sub correlation_id =
      let normalized = lower p.wide (strip group_name) in
      audited p
        (group_event membership_add actor_sub (some sub) (or_none normalized) correlation_id
          failure)
        (λ m.
          group_event membership_add actor_sub (some sub) (some m.group_name) correlation_id
            success)
        (add_body sub group_name actor_sub)

  -- The last member of the reserved group is not removed.
  protect_last_admin : Text → Exec S (Unit {0})
  protect_last_admin group =
      if group == reserved_admin_group
      then (do
        count ← stored (r.memberships.count_members reserved_admin_group)
        lift (ensure_admin_membership_remains (minus_one count)))
      else pure tt

  missing_membership : Text → Text → Exec S (Unit {0})
  missing_membership sub group = do
    require_registered sub
    raise (group_membership_not_found sub group)

  remove_found : Text → Text → Option UserGroupMembership → Exec S (Unit {0})
  remove_found sub group none = missing_membership sub group
  remove_found sub group (some membership) = do
    protect_last_admin group
    removed ← stored (r.memberships.remove sub group)
    raise_if (not removed) (group_membership_not_found sub group)

  -- The validated name is returned for the event.
  remove_body : Text → Text → Exec S Text
  remove_body sub group_name = do
    validated ← lift (normalize_group_name p.wide group_name)
    usable_group validated
    existing ← find_membership sub validated
    remove_found sub validated existing
    pure validated

  pub remove_membership : Text → Text → Text → Option Text → Exec S (Unit {0})
  remove_membership sub group_name actor_sub correlation_id =
      let normalized = lower p.wide (strip group_name) in
      do
        audited p
            (group_event membership_remove actor_sub (some sub) (or_none normalized) correlation_id
              failure)
            (λ validated.
              group_event membership_remove actor_sub (some sub) (some validated) correlation_id
                success)
            (remove_body sub group_name)
        pure tt
