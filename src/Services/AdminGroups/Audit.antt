-- ===== src/Services/AdminGroups/Audit.antt =====
-- Every call of `AdminGroupService` is audited once.
use gotfr_sec.Prelude.{Option, none, some, refl}
use gotfr_sec.Prelude.Text.{Text}
use gotfr_sec.Domain.Models.{UserGroupMembership, group_create, membership_add, membership_remove}
use gotfr_sec.Repositories.Interfaces.{RepositoryBundle}
use gotfr_sec.Exec.{Platform, World}
use gotfr_sec.Exec.Audited.{Quiet, quiet_rules, Logs, audited-Logs, Logs-map}
use gotfr_sec.Services.AdminGroups.{
  create_body, create_group, add_body, add_membership, keep_or_add, remove_body, remove_found,
  remove_membership, usable_group, find_membership, require_registered, protect_last_admin,
  missing_membership,
}

module _ {S : Type 0} (p : Platform) (r : RepositoryBundle S) where
  create_body-Quiet :
      (name : Text) (description : Option Text) → Quiet (create_body p r name description)
  unfolding create_body
  create_body-Quiet name description = search quiet_rules depth 20

  keep_or_add-Quiet :
      (sub group actor_sub : Text) (m : Option UserGroupMembership)
      → Quiet (keep_or_add p r sub group actor_sub m)
  unfolding keep_or_add
  keep_or_add-Quiet sub group actor_sub none = search quiet_rules
  keep_or_add-Quiet sub group actor_sub (some m) = search quiet_rules

  usable_group-Quiet : (name : Text) → Quiet (usable_group p r name)
  unfolding usable_group
  usable_group-Quiet name = search quiet_rules

  find_membership-Quiet : (sub group : Text) → Quiet (find_membership p r sub group)
  unfolding find_membership
  find_membership-Quiet sub group = search quiet_rules

  require_registered-Quiet : (sub : Text) → Quiet (require_registered p r sub)
  unfolding require_registered
  require_registered-Quiet sub = search quiet_rules

  protect_last_admin-Quiet : (group : Text) → Quiet (protect_last_admin p r group)
  unfolding protect_last_admin
  protect_last_admin-Quiet group = search quiet_rules

  missing_membership-Quiet : (sub group : Text) → Quiet (missing_membership p r sub group)
  unfolding missing_membership
  missing_membership-Quiet sub group = search (quiet_rules, require_registered-Quiet)

  remove_found-Quiet :
      (sub group : Text) (m : Option UserGroupMembership) → Quiet (remove_found p r sub group m)
  unfolding remove_found
  remove_found-Quiet sub group none = missing_membership-Quiet sub group
  remove_found-Quiet sub group (some m) = search (quiet_rules, protect_last_admin-Quiet)

  add_body-Quiet : (sub group actor_sub : Text) → Quiet (add_body p r sub group actor_sub)
  unfolding add_body
  add_body-Quiet sub group actor_sub =
      search
        (
          quiet_rules, usable_group-Quiet, require_registered-Quiet, find_membership-Quiet,
          keep_or_add-Quiet,
        )
        depth 12

  remove_body-Quiet : (sub group : Text) → Quiet (remove_body p r sub group)
  unfolding remove_body
  remove_body-Quiet sub group =
      search (quiet_rules, usable_group-Quiet, find_membership-Quiet, remove_found-Quiet) depth 12

  create_group-Logs :
      (name : Text) (description : Option Text) (actor_sub : Text) (cid : Option Text) (w : World S)
      → Logs w (create_group p r name description actor_sub cid w) group_create actor_sub cid
  unfolding create_group
  create_group-Logs name description actor_sub cid =
      audited-Logs p _ _ (λ now. (refl, refl, refl, refl)) (λ g now. (refl, refl, refl, refl)) _
        (create_body-Quiet name description)

  add_membership-Logs :
      (sub group actor_sub : Text) (cid : Option Text) (w : World S)
      → Logs w (add_membership p r sub group actor_sub cid w) membership_add actor_sub cid
  unfolding add_membership
  add_membership-Logs sub group actor_sub cid =
      audited-Logs p _ _ (λ now. (refl, refl, refl, refl)) (λ m now. (refl, refl, refl, refl)) _
        (add_body-Quiet sub group actor_sub)

  remove_membership-Logs :
      (sub group actor_sub : Text) (cid : Option Text) (w : World S)
      → Logs w (remove_membership p r sub group actor_sub cid w) membership_remove actor_sub cid
  unfolding remove_membership
  remove_membership-Logs sub group actor_sub cid w =
      Logs-map p (λ _. tt) w _ _
        (audited-Logs p _ _ (λ now. (refl, refl, refl, refl)) (λ g now. (refl, refl, refl, refl)) _
          (remove_body-Quiet sub group) w)

  -- Over any stores, each call of `create_group`, `add_membership` and `remove_membership`, whether
  -- it returns or raises, appends exactly one event to the audit log; it names the operation, the
  -- caller and the request, and is a success exactly if the call returned.
  pub admin_group_calls-Logs :
      (name sub actor_sub : Text) (description cid : Option Text) (w : World S)
      → Logs w (create_group p r name description actor_sub cid w) group_create actor_sub cid
        × Logs w (add_membership p r sub name actor_sub cid w) membership_add actor_sub cid
        × Logs w (remove_membership p r sub name actor_sub cid w) membership_remove actor_sub cid
  admin_group_calls-Logs name sub actor_sub description cid w = (
    create_group-Logs name description actor_sub cid w,
    add_membership-Logs sub name actor_sub cid w,
    remove_membership-Logs sub name actor_sub cid w,
  )
